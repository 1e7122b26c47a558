-- ===== src/Roster/Queries.antt =====
-- What the rest of the program asks of a roster (roster.rs: the methods of `Roster`).
pub mod JoinCheck
use nullgate.Common.{ℕ, Bool, true, ◌&&◌, Option, none, some, List, [], ◌==◌, if◌then◌else◌, length}
use nullgate.Common.Maps.{lookup}
use nullgate.Roster.{NodeId, Nonce, Role, InviteKind, InviteCheck, Member, Invite, Roster}
use nullgate.Roster.Addresses.Place.{is_some}
use mathlib.Core.Option

unfoldable pub is_member : Roster → NodeId → Bool
is_member r id = is_some (lookup id r.members)

unfoldable pub member : Roster → NodeId → Option Member
member r id = lookup id r.members

-- A member's role, or `peer` if it is none.
unfoldable pub role : Roster → NodeId → Role
role r id = Option.get_or (Option.map (λ m. m.role) (lookup id r.members)) Role.peer

unfoldable pub len : Roster → ℕ
len r = length r.members

unfoldable pub is_empty : Roster → Bool
is_empty r = length r.members == 0

unfoldable pub current_invite : Roster → InviteKind → Option Invite
current_invite r InviteKind.peer = r.peer_invite
current_invite r InviteKind.controller = r.controller_invite

abbrev pub spent_flag : Roster → InviteKind → Bool
spent_flag r InviteKind.peer = r.peer_invite_spent
spent_flag r InviteKind.controller = r.controller_invite_spent

unfoldable pub check_code : Option Invite → Bool → Nonce → InviteCheck
check_code none spent nonce = InviteCheck.stale
check_code (some (cur, single_use)) spent nonce =
    if nonce == cur
    then if single_use && spent then InviteCheck.spent else InviteCheck.ok
    else InviteCheck.stale

unfoldable pub check_invite : Roster → InviteKind → Nonce → InviteCheck
unfolding current_invite check_code
check_invite r kind nonce = check_code (current_invite r kind) (spent_flag r kind) nonce
