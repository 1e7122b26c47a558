-- ===== src/Roster/Queries/JoinCheck.antt =====
-- The check that the join path makes, against the fold (roster.rs: `check_invite`).
use nullgate.Common.{ℕ, ◌≤◌, ◌≡◌, ◌≢◌, true, false, some, arith, ◌==◌}
use nullgate.Common.Maps.{lookup, lookup-insert}
use nullgate.Ip.{Ipv4Addr}
use nullgate.Roster.{NodeId, Nonce, Role, InviteKind, InviteCheck, Op, Entry, Config, Member}
use nullgate.Roster.Fold.{FoldState, is_controller, apply_add, step}
use nullgate.Roster.Build.{finish}
use nullgate.Roster.Queries.{check_invite}
use Prim.Native.String.{String}

abbrev pub role_of : InviteKind → Role
role_of InviteKind.peer = Role.peer
role_of InviteKind.controller = Role.controller

-- A Controller who may sign an `Add` with the time `ts`, while the roll is not frozen.
pub record MayAdmit (st : FoldState) (signer : NodeId) (ts : ℕ) : Type 0 where
  pub since : ℕ
  pub con : is_controller st signer ≡ true
  pub admitted : lookup signer st.admitted_ts ≡ some since
  pub in_time : since ≤ ts
  pub thawed : st.frozen ≡ false

abbrev pub newcomer : InviteKind → NodeId → String → Ipv4Addr → Member
newcomer kind signer host ip = record {
  hostname = host;
  role = role_of kind;
  virtual_ip = ip;
  added_by = signer;
}

abbrev Agrees :
    Config → FoldState → InviteKind → NodeId → NodeId → String → Ipv4Addr → Nonce → ℕ → Type 0
Agrees cfg st kind signer node host ip nonce ts =
    let st' = apply_add false st signer node host (role_of kind) ip nonce ts in
    (check_invite (finish cfg st) kind nonce ≡ InviteCheck.ok
      → lookup node st'.members ≡ some (newcomer kind signer host ip))
    × (check_invite (finish cfg st) kind nonce ≢ InviteCheck.ok → st' ≡ st)

apply_add-Agrees :
    (cfg : Config) (st : FoldState) (kind : InviteKind) (signer node : NodeId) (host : String)
    (ip : Ipv4Addr) (nonce : Nonce) (ts : ℕ)
    → MayAdmit st signer ts
    → Agrees cfg st kind signer node host ip nonce ts
unfolding apply_add finish check_invite
apply_add-Agrees cfg st InviteKind.peer signer node host ip nonce ts may = (
  λ e. ground (arith, lookup-insert node node (newcomer InviteKind.peer signer host ip) st.members),
  λ e. ground arith,
)
apply_add-Agrees cfg st InviteKind.controller signer node host ip nonce ts may = (
  λ e.
      ground
        (arith, lookup-insert node node (newcomer InviteKind.controller signer host ip) st.members),
  λ e. ground arith,
)

-- `check_invite` on the finished roster answers `ok` for a code exactly when an `Add` that
-- cites it, signed next by an entitled Controller while the roll is not frozen, admits the
-- newcomer in the role of the invite. On any other answer that `Add` changes nothing.
pub check_invite_agrees :
    (cfg : Config) (st : FoldState) (kind : InviteKind) (e : Entry) (node : NodeId) (host : String)
    (ip : Ipv4Addr) (nonce : Nonce) (ts : ℕ)
    → e.signer ≢ cfg.originator_id
    → MayAdmit st e.signer ts
    → e.op ≡ Op.add node host (role_of kind) ip nonce ts
    → (check_invite (finish cfg st) kind nonce ≡ InviteCheck.ok
        → lookup node (step cfg st e).members ≡ some (newcomer kind e.signer host ip))
      × (check_invite (finish cfg st) kind nonce ≢ InviteCheck.ok → step cfg st e ≡ st)
unfolding step
check_invite_agrees cfg st kind e node host ip nonce ts ne may op =
    let other : (e.signer == cfg.originator_id) ≡ false = ground arith in
    rw (other, op) (apply_add-Agrees cfg st kind e.signer node host ip nonce ts may)
