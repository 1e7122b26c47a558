-- ===== src/Tests/RosterCases.antt =====
-- The theorems on the roster at the small network.
use nullgate.Common.{
  ℕ, ◌≡◌, ◌≢◌, ◌⊎◌, inl, inr, ◌↔◌, refl, sym, ap, ◌∙◌, true, false, some, none, List, [], ◌∷◌,
  arith, In, ◌==◌,
}
use nullgate.Common.Maps.{lookup, insert, remove, modify}
use nullgate.Roster.{NodeId, Role, Roster, default_roster, Op, Entry, Member}
use nullgate.Roster.Signing.{content_id, verify_signature}
use nullgate.Roster.Fold.{FoldState, start, step, run, is_controller}
use nullgate.Roster.Fold.Authority.{step_limits, readmission_evicts}
use nullgate.Roster.Fold.Strangers.{run_without_stranger}
use nullgate.Roster.Fold.Freeze.{run_frozen}
use nullgate.Roster.Fold.Invites.{controller_invite_once}
use nullgate.Roster.Addresses.{assign_ips, probe, hosts}
use nullgate.Roster.Addresses.Static.{OwnHosts}
use nullgate.Roster.Build.{build, finish}
use nullgate.Roster.Build.Convergence.{NoCollision, build_convergence}
use nullgate.Roster.Build.Unique.{build_unique_addresses, IsHostOf}
use nullgate.Roster.Queries.{check_invite}
use nullgate.Roster.Queries.JoinCheck.{MayAdmit}
use nullgate.Routes.{from_roster, route}
use nullgate.Routes.Delivery.{route-from_roster}
use nullgate.Tests.RosterData.{
  toy, cfg, subnet, host, genesis, peer_code, controller_code, joins, controller_joins,
  second_controller, stranger_adds, signed,
}

model : Unit {0}
unfolding build content_id verify_signature lookup insert remove modify probe assign_ips
    is_controller finish check_invite hosts
model = tt

abbrev two : List Entry
two = genesis ∷ joins ∷ []

abbrev two_again : List Entry
two_again = joins ∷ genesis ∷ joins ∷ []

two_apart : content_id toy genesis ≢ content_id toy joins
unfolding content_id
two_apart = omega arith

two-NoCollision : NoCollision toy two
two-NoCollision e f (inl p) (inl q) h = sym p ∙ q
two-NoCollision e f (inl p) (inr (inl q)) h =
    absurd (two_apart (ap (content_id toy) p ∙ h ∙ sym (ap (content_id toy) q)))
two-NoCollision e f (inr (inl p)) (inl q) h =
    absurd (two_apart (ap (content_id toy) q ∙ sym h ∙ sym (ap (content_id toy) p)))
two-NoCollision e f (inr (inl p)) (inr (inl q)) h = sym p ∙ q
two-NoCollision e f (inr (inr p)) j h = absurd p
two-NoCollision e f (inl p) (inr (inr q)) h = absurd q
two-NoCollision e f (inr (inl p)) (inr (inr q)) h = absurd q

two-same : (e : Entry) → In e two ↔ In e two_again
two-same e = (forth, back)
  where
    forth : In e two → In e two_again
    forth (inl p) = inr (inl p)
    forth (inr (inl p)) = inl p
    forth (inr (inr p)) = absurd p

    back : In e two_again → In e two
    back (inl p) = inr (inl p)
    back (inr (inl p)) = inl p
    back (inr (inr (inl p))) = inr (inl p)
    back (inr (inr (inr p))) = absurd p

build_convergence_example : build toy cfg 100 two ≡ build toy cfg 100 two_again
build_convergence_example = build_convergence toy cfg 100 two two_again two-NoCollision two-same

abbrev all : List Entry
all = genesis ∷ peer_code ∷ controller_code ∷ joins ∷ []

abbrev devo : Member
devo = record { hostname = "devo"; role = Role.controller; virtual_ip = host 2; added_by = 2 }

abbrev phone : Member
phone = record { hostname = "phone"; role = Role.peer; virtual_ip = host 3; added_by = 6 }

build_unique_addresses_example : IsHostOf subnet (host 2) × (◌≢◌ {A = ℕ} 6 21 → host 2 ≢ host 3)
unfolding model
build_unique_addresses_example =
    build_unique_addresses toy cfg 100 all 6 21 devo phone (omega arith) refl refl

-- The originator's device is in, and both codes are set.
abbrev ready : FoldState
ready = run cfg start (genesis ∷ peer_code ∷ controller_code ∷ [])

step_limits_example :
    ((step cfg ready joins).frozen ≡ ready.frozen)
    × ((step cfg ready joins).controller_invite ≡ ready.controller_invite)
    × ((i : NodeId) (m : Member)
        → lookup i ready.members ≡ some m
        → m.role ≡ Role.controller
        → (21 == i) ≡ false
        → lookup i (step cfg ready joins).members ≡ some m)
step_limits_example = step_limits cfg ready joins (omega arith)

run_without_stranger_example :
    run cfg ready (stranger_adds ∷ joins ∷ []) ≡ run cfg ready (joins ∷ [])
unfolding model
run_without_stranger_example =
    run_without_stranger cfg 99 (omega arith) ready (stranger_adds ∷ joins ∷ []) refl
      (λ ne. absurd (ne refl), (λ ne. refl, tt))

run_frozen_example :
    ((run cfg (record start { roster = record default_roster { frozen = true } }) all).frozen
      ≡ true)
    × (lookup 6
          (run cfg (record start { roster = record default_roster { frozen = true } }) all).members
        ≡ none)
unfolding model
run_frozen_example =
    run_frozen cfg (record start { roster = record default_roster { frozen = true } }) all 6 refl
      (λ _. refl, (λ _. refl, (λ _. refl, (λ _. refl, tt)))) refl

controller_invite_once_example :
    let before = run cfg start (genesis ∷ peer_code ∷ controller_code ∷ []) in
    let after = step cfg before controller_joins in
    let later = run cfg after (joins ∷ []) in
    (after ≡ before) ⊎ (step cfg later second_controller ≡ later)
controller_invite_once_example =
    controller_invite_once cfg (genesis ∷ peer_code ∷ controller_code ∷ []) (joins ∷ [])
      controller_joins second_controller 8 (omega arith) (omega arith) refl refl

ready-MayAdmit : MayAdmit ready 6 4
unfolding model
ready-MayAdmit = record {
  since = 1;
  con = refl;
  admitted = refl;
  in_time = omega arith;
  thawed = refl;
}

abbrev desk : Member
desk = record { hostname = "desk"; role = Role.controller; virtual_ip = host 4; added_by = 6 }

-- Two Controllers, 6 and 31.
abbrev paired : FoldState
paired = run cfg ready (controller_joins ∷ [])

abbrev demotes : Entry
demotes = signed 5 (Op.add 31 "desk" Role.peer (host 4) 7 8)

abbrev evicts : Entry
evicts = signed 5 (Op.remove 31 9)

readmission_evicts_example :
    ((m : Member) × (lookup 31 (step cfg paired demotes).members ≡ some m) × (m.role ≡ Role.peer))
    × (lookup 31 (step cfg (step cfg paired demotes) evicts).members ≡ none)
unfolding model
readmission_evicts_example =
    readmission_evicts cfg paired 6 31 desk "desk" (host 4) 7 8 1 9 demotes evicts (omega arith)
      (omega arith) refl refl (omega arith) refl refl refl refl refl refl refl refl

abbrev home : Roster
home = record default_roster { members = (6, devo) ∷ (21, phone) ∷ [] }

home-OwnHosts : OwnHosts home.members
unfolding model
home-OwnHosts = (omega arith, refl, (omega arith, refl, tt))

abbrev rack : Member
rack = record { hostname = "rack"; role = Role.peer; virtual_ip = host 4; added_by = 6 }

route-from_roster_example :
    (route (from_roster (build toy cfg 100 all)) (host 2) ≡ some 6)
    ↔ ((m : Member) × (lookup 6 (build toy cfg 100 all).members ≡ some m) × (m.virtual_ip ≡ host 2))
unfolding model
route-from_roster_example = route-from_roster toy cfg 100 all (host 2) 6 (omega arith)
