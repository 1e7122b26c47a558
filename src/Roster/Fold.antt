-- ===== src/Roster/Fold.antt =====
-- The role rules: one step of the fold in `Roster::build` (roster.rs), and the fold.
pub mod Authority
pub mod Strangers
pub mod Invites
pub mod Freeze
use nullgate.Common.{
  ℕ, Bool, true, false, ◌&&◌, ◌||◌, Option, none, some, List, [], ◌∷◌, leb, ◌==◌, if◌then◌else◌,
  is_some_and,
}
use nullgate.Common.Maps.{Map, IdSet, lookup, insert, remove, modify, contains}
use nullgate.Ip.{Ipv4Addr}
use nullgate.Roster.{
  NodeId, Nonce, Role, role_eq, InviteKind, Op, Entry, Config, Member, Invite, Roster,
  default_roster,
}
use Prim.Native.String.{String}

-- What the loop of `build` carries.
pub record FoldState : Type 0 where
  pub roster : Roster
  pub open roster use *
  pub admitted_ts : Map ℕ
  pub consumed : IdSet

abbrev pub start : FoldState
start = record { roster = default_roster; admitted_ts = []; consumed = [] }

abbrev pub has_role : Role → Option Member → Bool
has_role r m = is_some_and m (λ m. role_eq m.role r)

unfoldable pub is_controller : FoldState → NodeId → Bool
is_controller st signer = has_role Role.controller (lookup signer st.members)

abbrev pub invite_for : Role → Roster → Option Invite
invite_for Role.peer r = r.peer_invite
invite_for Role.controller r = r.controller_invite

-- The outcome of the invite gate: the nonce to consume, if the invite is single-use.
pub data Gate : Type 0 where
  rejected : Gate
  accepted : Option Nonce → Gate

unfoldable pub cite : Option Invite → IdSet → Nonce → Gate
cite none consumed nonce = Gate.rejected
cite (some (cur, single_use)) consumed nonce =
    if nonce == cur
    then if single_use
      then if contains cur consumed then Gate.rejected else Gate.accepted (some cur)
      else Gate.accepted none
    else Gate.rejected

unfoldable pub invite_gate : Bool → FoldState → Role → Nonce → Gate
unfolding cite
invite_gate is_orig st role nonce =
    if is_orig then Gate.accepted none else cite (invite_for role st.roster) st.consumed nonce

unfoldable pub approver_ok : Bool → FoldState → NodeId → ℕ → Bool
unfolding is_controller
approver_ok is_orig st signer ts =
    is_orig
    || (is_controller st signer && is_some_and (lookup signer st.admitted_ts) (λ t. leb t ts))

abbrev pub consume : Option Nonce → IdSet → IdSet
consume none s = s
consume (some n) s = n ∷ s

unfoldable pub admit : FoldState → NodeId → Member → ℕ → Gate → FoldState
admit st node m ts Gate.rejected = st
admit st node m ts (Gate.accepted spend) = record {
  roster = record st.roster { members = insert node m st.members };
  admitted_ts = insert node ts st.admitted_ts;
  consumed = consume spend st.consumed;
}

unfoldable pub apply_add :
    Bool → FoldState → NodeId → NodeId → String → Role → Ipv4Addr → Nonce → ℕ → FoldState
unfolding approver_ok invite_gate admit
apply_add is_orig st signer node hostname role virtual_ip nonce ts =
    if st.frozen
    then st
    else if approver_ok is_orig st signer ts
    then admit st node
        (record { hostname = hostname; role = role; virtual_ip = virtual_ip; added_by = signer }) ts
        (invite_gate is_orig st role nonce)
    else st

unfoldable pub apply_remove : Bool → FoldState → NodeId → NodeId → FoldState
unfolding is_controller
apply_remove is_orig st signer node =
    if is_orig || (is_controller st signer && has_role Role.peer (lookup node st.members))
    then record st {
      roster = record st.roster { members = remove node st.members };
      admitted_ts = remove node st.admitted_ts;
    }
    else st

-- Only these two fields of a roster are written by `set_invite`.
unfoldable pub apply_set_invite : Bool → FoldState → NodeId → InviteKind → Nonce → Bool → FoldState
unfolding is_controller
apply_set_invite is_orig st signer InviteKind.peer nonce single_use =
    if is_orig || is_controller st signer
    then record st { roster = record st.roster { peer_invite = some (nonce, single_use) } }
    else st
apply_set_invite is_orig st signer InviteKind.controller nonce single_use =
    if is_orig
    then record st { roster = record st.roster { controller_invite = some (nonce, true) } }
    else st

unfoldable pub apply_op : Bool → FoldState → NodeId → Op → FoldState
unfolding apply_add apply_remove apply_set_invite is_controller
apply_op is_orig st signer (Op.freeze frozen ts) =
    if is_orig then record st { roster = record st.roster { frozen = frozen } } else st
apply_op is_orig st signer (Op.remove node ts) = apply_remove is_orig st signer node
apply_op is_orig st signer (Op.set_role node role ts) =
    if is_orig
    then record st {
      roster = record st.roster {
        members = modify node (λ m. record m { role = role }) st.members;
      };
    }
    else st
apply_op is_orig st signer (Op.set_invite kind nonce single_use ts) =
    apply_set_invite is_orig st signer kind nonce single_use
apply_op is_orig st signer (Op.set_name name ts) =
    if is_orig || is_controller st signer
    then record st { roster = record st.roster { name = some name } }
    else st
apply_op is_orig st signer (Op.add node hostname role virtual_ip nonce ts) =
    apply_add is_orig st signer node hostname role virtual_ip nonce ts

unfoldable pub step : Config → FoldState → Entry → FoldState
unfolding apply_op
step cfg st e = apply_op (e.signer == cfg.originator_id) st e.signer e.op

unfoldable pub run : Config → FoldState → List Entry → FoldState
unfolding step
run cfg st [] = st
run cfg st (e ∷ es) = run cfg (step cfg st e) es
