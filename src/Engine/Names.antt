-- ===== src/Engine/Names.antt =====
-- The nicknames and notes that this device keeps for members (crates/ipn-core/src/engine.rs:
-- `set_nickname`, `set_note`, and where `audit_log` looks a nickname up). The files hold the maps as
-- they were last saved; writing a file is taken to succeed.
pub mod Kept
use nullgate.Common.{
  ℕ, Bool, true, false, not, Option, none, some, List, [], ◌∷◌, ◌==◌, length, if◌then◌else◌,
}
use nullgate.Common.HashMap.{get, put, delete, only}
use nullgate.Common.Results.{Result, ok, err}
use nullgate.Common.Text.{Text, trim}
use nullgate.Secrets.{Hex}
use nullgate.Engine.Session.{OpError}
use nullgate.Engine.Operations.{parse_id}
use nullgate.Notify.{text_key}
use mathlib.Core.Option

pub record Names : Type 0 where
  pub nicknames : List (Text × Text)
  pub notes : List (Text × Text)
  pub saved_nicknames : List (Text × Text)
  pub saved_notes : List (Text × Text)

abbrev pub is_text : Text → Bool
is_text t = not (length t == 0)

-- The map after an entry is set or cleared.
unfoldable pub set_or_clear : Text → Option Text → List (Text × Text) → List (Text × Text)
set_or_clear id none m = delete id m
set_or_clear id (some t) m = put id t m

-- A nickname is trimmed.
abbrev pub nickname_of : Option Text → Option Text
nickname_of name = only is_text (Option.map trim name)

-- A note is kept as it is, unless it is blank.
abbrev pub note_of : Option Text → Option Text
note_of note = only (λ t. is_text (trim t)) note

abbrev pub on_id {ℓ} : {A : Type ℓ} → Option A → Names → Names → Names × Result OpError (Unit {0})
on_id none before later = (before, err OpError.bad_id)
on_id (some id) before later = (later, ok tt)

unfoldable pub set_nickname : Hex → Text → Option Text → Names → Names × Result OpError (Unit {0})
unfolding set_or_clear
set_nickname hex id name s =
    let m = set_or_clear id (nickname_of name) s.nicknames in
    on_id (parse_id hex id) s (record s { nicknames = m; saved_nicknames = m })

unfoldable pub set_note : Hex → Text → Option Text → Names → Names × Result OpError (Unit {0})
unfolding set_or_clear
set_note hex id note s =
    let m = set_or_clear id (note_of note) s.notes in
    on_id (parse_id hex id) s (record s { notes = m; saved_notes = m })
