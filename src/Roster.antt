-- ===== src/Roster.antt =====
-- The data of the signed roster (crates/ipn-core/src/roster.rs). An `NodeId` and a `Nonce` are the
-- big-endian numbers of their bytes, so that their order is that of the byte arrays.
pub mod Signing
pub mod Fold
pub mod Addresses
pub mod Build
pub mod Queries
use nullgate.Common.{ℕ, Bool, true, false, Option, none, List, []}
use nullgate.Common.Maps.{Map}
use nullgate.Ip.{Ipv4Addr}
use Prim.Native.String.{String}

abbrev pub NodeId : Type 0
NodeId = ℕ

abbrev pub Nonce : Type 0
Nonce = ℕ

pub data Role : Type 0 where
  peer controller : Role

abbrev pub role_eq : Role → Role → Bool
role_eq Role.peer Role.peer = true
role_eq Role.controller Role.controller = true
role_eq _ _ = false

pub data InviteKind : Type 0 where
  peer controller : InviteKind

pub data InviteCheck : Type 0 where
  ok spent stale : InviteCheck

-- `add` has the new member's id, its hostname, role and address, the cited nonce and the time.
pub data Op : Type 0 where
  add : NodeId → String → Role → Ipv4Addr → Nonce → ℕ → Op
  remove : NodeId → ℕ → Op
  set_role : NodeId → Role → ℕ → Op
  set_invite : InviteKind → Nonce → Bool → ℕ → Op
  freeze : Bool → ℕ → Op
  set_name : String → ℕ → Op

abbrev pub op_ts : Op → ℕ
op_ts (Op.add _ _ _ _ _ ts) = ts
op_ts (Op.remove _ ts) = ts
op_ts (Op.set_role _ _ ts) = ts
op_ts (Op.set_invite _ _ _ ts) = ts
op_ts (Op.freeze _ ts) = ts
op_ts (Op.set_name _ ts) = ts

-- The signature is a list of bytes of any length, as it is on the wire.
pub record Entry : Type 0 where
  pub network_id : NodeId
  pub signer : NodeId
  pub op : Op
  pub signature : List ℕ

pub record Config : Type 0 where
  pub network_id : NodeId
  pub originator_id : NodeId
  pub subnet : Ipv4Addr

pub record Member : Type 0 where
  pub hostname : String
  pub role : Role
  pub virtual_ip : Ipv4Addr
  pub added_by : NodeId

abbrev pub Invite : Type 0
Invite = Nonce × Bool

pub record Roster : Type 0 where
  pub members : Map Member
  pub frozen : Bool
  pub name : Option String
  pub peer_invite : Option Invite
  pub controller_invite : Option Invite
  pub peer_invite_spent : Bool
  pub controller_invite_spent : Bool

abbrev pub default_roster : Roster
default_roster = record {
  members = [];
  frozen = false;
  name = none;
  peer_invite = none;
  controller_invite = none;
  peer_invite_spent = false;
  controller_invite_spent = false;
}
