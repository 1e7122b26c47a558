-- ===== src/Engine/Joining.antt =====
-- The join protocol on both sides (crates/ipn-core/src/engine.rs: `handle_join_incoming`,
-- `admit_member`, `join_network`, `join_handshake`), after the admission handshake. The connection
-- between the devices is outside: what the joiner reads from it, and what its replica holds at each
-- look, are arguments.
pub mod Outcome
pub mod Admitted
use nullgate.Common.{
  ℕ, zero, suc, Bool, true, false, not, ◌&&◌, ◌||◌, ◌≡◌, Option, none, some, List, [], ◌∷◌, ◌==◌,
  if◌then◌else◌,
}
use nullgate.Common.HashMap.{Key, nat_key, get, put}
use nullgate.Common.Results.{Result, ok, err}
use nullgate.Common.Text.{Text}
use nullgate.Roster.{NodeId, Nonce, Role, role_eq, InviteKind, InviteCheck, Op, Entry, Roster}
use nullgate.Roster.Signing.{sign}
use nullgate.Roster.Addresses.{lowest_free_host}
use nullgate.Roster.Addresses.Place.{is_some}
use nullgate.Roster.Queries.{role, check_invite, is_member}
use nullgate.Roster.Queries.JoinCheck.{role_of}
use nullgate.Membership.{Doc, build_roster}
use nullgate.Network.{Ticket, decode, network_id, TicketError}
use nullgate.Secrets.{Os}
use nullgate.Engine.Config.{StoredConfig, roster_cfg}
use nullgate.Engine.Session.{
  Env, Net, Live, Session, OpError, Step, after, ◌>>=◌, ◌>>◌, done, fail, change, need, check,
  set_live, activate, teardown, publish,
}
use nullgate.Engine.Operations.{config, save}
use Prim.Native.String.{String}

pub record JoinRequest : Type 0 where
  pub hostname : String
  pub invite_kind : InviteKind
  pub invite_nonce : Nonce

-- The texts that a joiner is shown.
pub data Reason : Type 0 where
  already_used no_longer_valid : Reason
  admit_failed : OpError → Reason

pub data JoinResponse : Type 0 where
  approved : JoinResponse
  denied : Option Reason → JoinResponse

module _ {Addr : Type 0} (env : Env Addr) where
  abbrev pub may_approve : StoredConfig → Session → Bool
  may_approve cfg s =
      is_some cfg.originator_secret || role_eq (role s.live.roster env.my_id) Role.controller

  abbrev pub admission_entry : NodeId → NodeId → JoinRequest → ℕ → StoredConfig → Roster → Entry
  admission_entry network peer req ts cfg roster = sign env.crypto network env.device_key (
      Op.add peer req.hostname (role_of req.invite_kind) (lowest_free_host roster cfg.subnet)
        req.invite_nonce ts)

  unfoldable pub admit_member : Net → NodeId → NodeId → JoinRequest → ℕ → Step (Unit {0})
  unfolding publish
  admit_member net network peer req ts = do
    cfg ← config
    λ s. check (not s.live.roster.frozen) OpError.roster_frozen s
    λ s. check (may_approve cfg s) OpError.may_not_approve s
    λ s. publish env net (admission_entry network peer req ts cfg s.live.roster) s

  -- The request is refused at once, or it waits in `pending` for a decision.
  abbrev pub on_check : ℕ → NodeId → InviteCheck → Session → Session × Option JoinResponse
  on_check channel peer InviteCheck.ok s =
      (set_live (λ l. record l { pending = put peer channel l.pending }) s, none)
  on_check channel peer InviteCheck.spent s = (s, some (denied (some already_used)))
  on_check channel peer InviteCheck.stale s = (s, some (denied (some no_longer_valid)))

  unfoldable pub on_request : ℕ → NodeId → JoinRequest → Session → Session × Option JoinResponse
  on_request channel peer req s =
      on_check channel peer (check_invite s.live.roster req.invite_kind req.invite_nonce) s

  abbrev pub response : Session × Result OpError (Unit {0}) → Session × JoinResponse
  response (s, ok u) = (s, approved)
  response (s, err e) = (s, denied (some (admit_failed e)))

  unfoldable pub on_decision :
      Net → NodeId → NodeId → JoinRequest → ℕ → Bool → Session → Session × JoinResponse
  unfolding admit_member
  on_decision net network peer req ts true s = response (admit_member net network peer req ts s)
  on_decision net network peer req ts false s = (s, denied none)

  abbrev pub provisional : Ticket Addr → StoredConfig
  provisional t = record {
    name = t.name;
    subnet = t.subnet;
    secret = t.secret;
    originator_id = t.originator_id;
    originator_secret = none;
  }

  -- At most so many looks at the replica, until this device is in the roster.
  unfoldable pub appears : StoredConfig → ℕ → ℕ → List Doc → Bool
  appears cfg now zero looks = false
  appears cfg now (suc n) [] = false
  appears cfg now (suc n) (doc ∷ looks) =
      let later = appears cfg now n looks in
      if is_member (build_roster env.crypto env.parse_entry (roster_cfg env.hkdf cfg) now doc)
        env.my_id
      then true
      else later

  abbrev pub landed : Os → Bool → Step (Unit {0})
  landed os true = done tt
  landed os false = do teardown env os; fail OpError.not_added

  -- What the joiner makes of what it read, if it read a response at all.
  unfoldable pub on_response :
      Net → Os → StoredConfig → ℕ → List Doc → Option JoinResponse → Step (Unit {0})
  unfolding activate save teardown appears
  on_response net os cfg now looks none = fail OpError.unreachable
  on_response net os cfg now looks (some (denied reason)) = fail OpError.declined
  on_response net os cfg now looks (some approved) = do
    activate env net cfg
    save env os cfg
    landed os (appears cfg now 30 looks)

  -- The activation is torn down when the handshake fails.
  abbrev pub or_torn_down :
      Os → Session × Result OpError (Unit {0}) → Session × Result OpError (Unit {0})
  or_torn_down os (s, ok u) = (s, ok u)
  or_torn_down os (s, err e) = ((teardown env os s).0, err e)

  abbrev pub of_ticket : Result TicketError (Ticket Addr) → Step (Ticket Addr)
  of_ticket (ok t) = done t
  of_ticket (err e) = fail (OpError.in_ticket e)

  unfoldable pub join_network :
      Net → Os → Text → ℕ → List Doc → Option JoinResponse → Step (Unit {0})
  unfolding on_response
  join_network net os text now looks read = do
    t ← of_ticket (decode env.codec text)
    λ s. check (not (is_some s.config)) OpError.already_in_network s
    λ s. or_torn_down os (on_response net os (provisional t) now looks read s)
