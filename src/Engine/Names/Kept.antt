-- ===== src/Engine/Names/Kept.antt =====
-- What a nickname or a note is afterwards (crates/ipn-core/src/engine.rs: `set_nickname`,
-- `set_note`).
use nullgate.Common.{◌≡◌, refl, Option, none, some, List, if◌then◌else◌}
use nullgate.Common.HashMap.{get, get-put, get-delete}
use nullgate.Common.Results.{ok, err}
use nullgate.Common.Bytes.{bytes_eq}
use nullgate.Common.Text.{Text}
use nullgate.Secrets.{Hex}
use nullgate.Roster.{NodeId}
use nullgate.Engine.Session.{OpError}
use nullgate.Engine.Operations.{parse_id}
use nullgate.Engine.Names.{Names, set_or_clear, nickname_of, note_of, set_nickname, set_note}
use nullgate.Notify.{text_key}

get-set_or_clear :
    (id other : Text) (t : Option Text) (m : List (Text × Text))
    → get other (set_or_clear id t m) ≡ (if bytes_eq id other then t else get other m)
unfolding set_or_clear
get-set_or_clear id other none m = get-delete id other m
get-set_or_clear id other (some t) m = get-put id other t m

-- Setting the nickname of an id that can be read gives that id the trimmed name, or none if that is
-- empty, leaves the other nicknames and the notes, and saves what is in memory. An id that cannot
-- be read changes nothing.
pub set_nickname_lem :
    (hex : Hex) (id other : Text) (name : Option Text) (s : Names)
    → let r = set_nickname hex id name s in
      ((parse_id hex id ≡ none) → r ≡ (s, err OpError.bad_id))
      × ((n : NodeId)
          → parse_id hex id ≡ some n
          → (r.1 ≡ ok tt)
            × (get other r.0.nicknames
                ≡ (if bytes_eq id other then nickname_of name else get other s.nicknames))
            × (r.0.saved_nicknames ≡ r.0.nicknames)
            × (r.0.notes ≡ s.notes))
unfolding set_nickname
set_nickname_lem hex id other name s = (
  λ e. simp e refl,
  λ n e. (
    simp e refl,
    simp e (get-set_or_clear id other (nickname_of name) s.nicknames),
    simp e refl,
    simp e refl,
  ),
)

-- The same for a note, which is kept as it was written unless it is blank.
pub set_note_lem :
    (hex : Hex) (id other : Text) (note : Option Text) (s : Names)
    → let r = set_note hex id note s in
      ((parse_id hex id ≡ none) → r ≡ (s, err OpError.bad_id))
      × ((n : NodeId)
          → parse_id hex id ≡ some n
          → (r.1 ≡ ok tt)
            × (get other r.0.notes
                ≡ (if bytes_eq id other then note_of note else get other s.notes))
            × (r.0.saved_notes ≡ r.0.notes)
            × (r.0.nicknames ≡ s.nicknames))
unfolding set_note
set_note_lem hex id other note s = (
  λ e. simp e refl,
  λ n e. (
    simp e refl,
    simp e (get-set_or_clear id other (note_of note) s.notes),
    simp e refl,
    simp e refl,
  ),
)
