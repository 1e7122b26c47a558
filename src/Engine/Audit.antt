-- ===== src/Engine/Audit.antt =====
-- The administration activity log (crates/ipn-core/src/engine.rs: `audit_log`, `AuditEntry`). The
-- sentences of the code are the constructors of `Action`; the nicknames are the map `nicks`, by
-- the hexadecimal text of the id.
pub mod Forged
use nullgate.Common.{
  ℕ, ◌-◌, ◌*◌, Bool, true, false, Option, none, some, List, [], ◌∷◌, ltb, leb, ◌==◌, if◌then◌else◌,
}
use nullgate.Common.Bytes.{to_be_bytes}
use nullgate.Common.HashMap.{nat_key, get, put, or_default}
use nullgate.Common.Results.{Result, ok, err}
use nullgate.Common.Text.{Text}
use nullgate.Roster.{NodeId, Role, InviteKind, Op, op_ts, Entry}
use nullgate.Secrets.{Hex}
use nullgate.Membership.{Doc, load_entries}
use nullgate.Engine.Config.{StoredConfig}
use nullgate.Engine.Session.{Env, Session}
use nullgate.Engine.Tick.{text_key}
use Prim.Native.String.{String}

pub data Label : Type 0 where
  named : String → Label
  short : NodeId → Label

pub data Action : Type 0 where
  added set_to : Label → Role → Action
  removed : Label → Action
  regenerated_peer_code : Bool → Action
  issued_controller_code froze unfroze : Action
  renamed : String → Action

pub data Actor : Type 0 where
  originator : Actor
  member : NodeId → Option String → Actor

pub record AuditEntry : Type 0 where
  pub ts : ℕ
  pub actor : Actor
  pub action : Action

pub data AuditError : Type 0 where
  no_network network_offline : AuditError

-- The last hostname that was added for each id.
unfoldable pub hostnames_of : List Entry → List (NodeId × String) → List (NodeId × String)
hostnames_of [] names = names
hostnames_of (e ∷ es) names =
    hostnames_of es
      (elim e.op [ Op.add id hostname role ip nonce ts ↦ put id hostname names | _ ↦ names ])

abbrev pub first_name : Option String → Option String → Option String
first_name none later = later
first_name (some name) later = some name

abbrev pub label_of : NodeId → Option String → Label
label_of id none = short id
label_of id (some name) = named name

abbrev pub cutoff : ℕ → ℕ
cutoff now = now - 30 * 24 * 3600 * 1000

module _ (name_of : NodeId → Option String) where
  unfoldable pub action_of : Op → Action
  action_of (Op.add id hostname role ip nonce ts) = added (label_of id (name_of id)) role
  action_of (Op.remove id ts) = removed (label_of id (name_of id))
  action_of (Op.set_role id role ts) = set_to (label_of id (name_of id)) role
  action_of (Op.set_invite InviteKind.peer nonce single_use ts) = regenerated_peer_code single_use
  action_of (Op.set_invite InviteKind.controller nonce single_use ts) = issued_controller_code
  action_of (Op.freeze frozen ts) = if frozen then froze else unfroze
  action_of (Op.set_name name ts) = renamed name

  unfoldable pub audit_entry : NodeId → Entry → AuditEntry
  unfolding action_of
  audit_entry originator_id e = record {
    ts = op_ts e.op;
    actor = if e.signer == originator_id then originator else member e.signer (name_of e.signer);
    action = action_of e.op;
  }

  -- The loop over the entries.
  unfoldable pub recent : NodeId → ℕ → List Entry → List AuditEntry
  unfolding audit_entry
  recent originator_id now [] = []
  recent originator_id now (e ∷ es) =
      let rest = recent originator_id now es in
      if ltb (op_ts e.op) (cutoff now) then rest else audit_entry originator_id e ∷ rest

-- `sort_by_key` by the reversed time, which is stable.
unfoldable pub insert_newest : AuditEntry → List AuditEntry → List AuditEntry
insert_newest a [] = a ∷ []
insert_newest a (b ∷ bs) = if leb b.ts a.ts then a ∷ b ∷ bs else b ∷ insert_newest a bs

unfoldable pub newest_first : List AuditEntry → List AuditEntry
unfolding insert_newest
newest_first [] = []
newest_first (a ∷ bs) = insert_newest a (newest_first bs)

abbrev pub name_in : Hex → List (Text × String) → List Entry → NodeId → Option String
name_in hex nicks es id =
    first_name (get ⦃e = text_key⦄ (hex.encode (to_be_bytes 32 id)) nicks)
      (get id (hostnames_of es []))

module _ {Addr : Type 0} (env : Env Addr) where
  abbrev pub entries_in : ℕ → Session → List Entry
  entries_in ns s = load_entries env.parse_entry (or_default [] (get ns s.replicas))

  abbrev pub log_of : ℕ → List (Text × String) → StoredConfig → List Entry → List AuditEntry
  log_of now nicks cfg es =
      newest_first (recent (name_in env.hex nicks es) cfg.originator_id now es)

  abbrev pub audit_from :
      ℕ
      → List (Text × String)
      → Option StoredConfig
      → Option ℕ
      → Session
      → Result AuditError (List AuditEntry)
  audit_from now nicks none doc s = err no_network
  audit_from now nicks (some cfg) none s = err network_offline
  audit_from now nicks (some cfg) (some ns) s = ok (log_of now nicks cfg (entries_in ns s))

  unfoldable pub audit_log :
      ℕ → List (Text × String) → Session → Result AuditError (List AuditEntry)
  unfolding newest_first recent hostnames_of
  audit_log now nicks s = audit_from now nicks s.config s.live.doc s
