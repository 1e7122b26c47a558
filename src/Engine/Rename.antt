-- ===== src/Engine/Rename.antt =====
-- Renaming the network (crates/ipn-core/src/engine.rs: `set_network_name`), and what the fold of
-- the roster makes of it.
use nullgate.Common.{
  ℕ, ◌≡◌, ◌≢◌, refl, Bool, true, false, not, some, [], ◌==◌, if◌then◌else◌, Bool-cases, inl, inr,
}
use nullgate.Common.HashMap.{nat_key, get, put, or_default}
use nullgate.Common.Results.{ok}
use nullgate.Common.Text.{is_whitespace}
use nullgate.Roster.{Op, Entry, Config}
use nullgate.Roster.Signing.{sign}
use nullgate.Roster.Fold.{FoldState, is_controller, step}
use nullgate.Membership.{publish_entry}
use nullgate.Engine.Config.{StoredConfig}
use nullgate.Engine.Session.{Env, Net, Session, OpError, Step, ◌>>=◌, ◌>>◌, check, publish}
use nullgate.Engine.Operations.{config, net_id}
use nullgate.Engine.Operations.Authority.{==-ne}
use Prim.Native.Char.{Char, code}
use Prim.Native.String.{String}

abbrev trim_name_start : String → String
trim_name_start String.[] = String.[]
trim_name_start (String.◌∷◌ c s) =
    let rest = trim_name_start s in if is_whitespace (code c) then rest else String.◌∷◌ c s

abbrev before_end : Char → String → String
before_end c String.[] = if is_whitespace (code c) then String.[] else String.◌∷◌ c String.[]
before_end c (String.◌∷◌ d s) = String.◌∷◌ c (String.◌∷◌ d s)

abbrev trim_name_end : String → String
trim_name_end String.[] = String.[]
trim_name_end (String.◌∷◌ c s) = before_end c (trim_name_end s)

-- `str::trim`.
unfoldable pub trim_name : String → String
trim_name s = trim_name_end (trim_name_start s)

abbrev pub is_empty_name : String → Bool
is_empty_name String.[] = true
is_empty_name (String.◌∷◌ c s) = false

module _ {Addr : Type 0} (env : Env Addr) where
  -- The rename is signed with the key of the device.
  abbrev pub rename_entry : StoredConfig → String → ℕ → Entry
  rename_entry cfg name ts = sign env.crypto (net_id env cfg) env.device_key (Op.set_name name ts)

  unfoldable pub set_network_name : Net → String → ℕ → Step (Unit {0})
  unfolding publish
  set_network_name net name ts = do
    check (not (is_empty_name (trim_name name))) OpError.empty_name
    cfg ← config
    publish env net (rename_entry cfg (trim_name name) ts)

  -- In a network that is online, when the document takes the entry, a rename to a name that is not
  -- blank succeeds and publishes one entry. Whoever folds that entry takes the trimmed name if the
  -- device is a Controller by then; if it is not, and its key is not the originator's, the entry
  -- has no effect, although the rename was reported as a success.
  pub rename_needs_role :
      (net : Net) (name : String) (ts : ℕ) (s : Session) (cfg : StoredConfig) (ns author : ℕ)
      → s.config ≡ some cfg
      → s.live.doc ≡ some ns
      → s.live.author ≡ some author
      → net.sets_bytes ≡ true
      → is_empty_name (trim_name name) ≡ false
      → let e = rename_entry cfg (trim_name name) ts in
        (set_network_name net name ts s ≡ (
          record s {
            replicas =
                put ns
                  (publish_entry env.crypto author e (or_default [] (get ns s.replicas)))
                  s.replicas;
          },
          ok tt,
        ))
        × ((c : Config) (st : FoldState)
            → is_controller st e.signer ≡ true
            → (step c st e).roster.name ≡ some (trim_name name))
        × ((c : Config) (st : FoldState)
            → is_controller st e.signer ≡ false
            → e.signer ≢ c.originator_id
            → step c st e ≡ st)
  unfolding set_network_name step sign
  rename_needs_role net name ts s cfg ns author e d a b ink = (
    simp (ink, e, d, a, b) refl,
    λ c st ctrl. elim (Bool-cases (env.crypto.verifying_key env.device_key == c.originator_id)) [
      | inl o ↦ simp (o, ctrl) refl
      | inr o ↦ simp (o, ctrl) refl
    ],
    λ c st no other. simp (no, ==-ne _ _ other) refl,
  )
