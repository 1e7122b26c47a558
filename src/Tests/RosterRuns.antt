-- ===== src/Tests/RosterRuns.antt =====
-- The fold at a small network (crates/ipn-core/src/roster.rs, its tests).
use nullgate.Common.{◌≡◌, refl, false, [], ◌∷◌}
use nullgate.Common.Maps.{lookup, insert, remove, modify}
use nullgate.Roster.{Role, InviteKind, InviteCheck, Roster}
use nullgate.Roster.Signing.{sign, content_id, verify_signature}
use nullgate.Roster.Build.{build}
use nullgate.Roster.Addresses.{probe, assign_ips, lowest_free_host}
use nullgate.Roster.Queries.{is_member, role, len, check_invite}
use nullgate.Tests.RosterData.{
  toy, cfg, subnet, host, genesis, peer_code, controller_code, joins, controller_joins,
  second_controller, stranger_adds,
}

model : Unit {0}
unfolding build sign content_id verify_signature is_member role len check_invite lookup insert
    remove modify probe assign_ips lowest_free_host
model = tt

abbrev net : Roster
unfolding model
net = build toy cfg 100 (
    stranger_adds ∷ second_controller ∷ controller_joins ∷ joins ∷ genesis ∷ peer_code
    ∷ controller_code ∷ [])

genesis_member_is_controller : role (build toy cfg 100 (genesis ∷ [])) 6 ≡ Role.controller
unfolding model
genesis_member_is_controller = refl

three_members : len net ≡ 3
unfolding model
three_members = refl

outsiders_stay_out : is_member net 99 ≡ false
unfolding model
outsiders_stay_out = refl

code_is_spent : check_invite net InviteKind.controller 8 ≡ InviteCheck.spent
unfolding model
code_is_spent = refl

next_address : lowest_free_host net subnet ≡ host 5
unfolding model
next_address = refl
