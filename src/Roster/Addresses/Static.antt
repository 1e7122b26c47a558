-- ===== src/Roster/Addresses/Static.antt =====
-- Addresses that do not move (roster.rs: `assign_ips`, `lowest_free_host`).
use nullgate.Common.{
  ℕ, ◌≡◌, ◌∙◌, refl, false, Option, none, some, List, [], ◌∷◌, arith, ◌==◌, if◌then◌else◌,
}
use nullgate.Common.Maps.{Map, IdSet, lookup, contains, IsSorted}
use nullgate.Ip.{Ipv4Addr}
use nullgate.Roster.{NodeId, Member}
use nullgate.Roster.Addresses.{
  Slot, slots, insert_slot, sort_slots, first_try, settle, assign_ips, hosts,
}
use nullgate.Roster.Addresses.Probe.{InRange, probe-fixed}
use nullgate.Roster.Addresses.Place.{
  place, has, DistinctKeys, has-sort_slots, sort_slots-DistinctKeys, slot_id, lookup-assign_ips,
  slots-DistinctIds,
}
use mathlib.Core.Option

-- Every recorded host is valid, and no two members have recorded the same one.
abbrev pub OwnHosts : Map Member → Type 0
OwnHosts [] = Unit {0}
OwnHosts ((id, m) ∷ ms) =
    InRange m.virtual_ip.o3 × (contains m.virtual_ip.o3 (hosts ms) ≡ false) × OwnHosts ms

abbrev slot_host : Slot → ℕ
slot_host s = s.host

abbrev ValidHosts : List Slot → Type 0
ValidHosts [] = Unit {0}
ValidHosts (s ∷ ss) = InRange s.host × ValidHosts ss

insert_slot-ValidHosts :
    (s : Slot) (ss : List Slot) → InRange s.host → ValidHosts ss → ValidHosts (insert_slot s ss)
unfolding insert_slot
insert_slot-ValidHosts s [] r v = (r, tt)
insert_slot-ValidHosts s (t ∷ ss) r v = ground (arith, insert_slot-ValidHosts s ss r v.1)

sort_slots-ValidHosts : (ss : List Slot) → ValidHosts ss → ValidHosts (sort_slots ss)
unfolding sort_slots
sort_slots-ValidHosts [] v = tt
sort_slots-ValidHosts (s ∷ ss) v =
    insert_slot-ValidHosts s (sort_slots ss) v.0 (sort_slots-ValidHosts ss v.1)

-- The recorded host of an id.
abbrev recorded : NodeId → List Slot → Option ℕ
recorded i [] = none
recorded i (s ∷ ss) = if s.id == i then some s.host else recorded i ss

module _ (admitted : Map ℕ) where
  slots-ValidHosts : (ms : Map Member) → OwnHosts ms → ValidHosts (slots admitted ms)
  unfolding slots
  slots-ValidHosts [] o = tt
  slots-ValidHosts ((id, m) ∷ ms) o = (o.0, slots-ValidHosts ms o.2)

  has-slots :
      (h : ℕ) (ms : Map Member) → has slot_host h (slots admitted ms) ≡ contains h (hosts ms)
  unfolding slots hosts
  has-slots h [] = refl
  has-slots h ((id, m) ∷ ms) = ground (arith, has-slots h ms)

  slots-DistinctHosts : (ms : Map Member) → OwnHosts ms → DistinctKeys slot_host (slots admitted ms)
  unfolding slots
  slots-DistinctHosts [] o = tt
  slots-DistinctHosts ((id, m) ∷ ms) o =
      (has-slots m.virtual_ip.o3 ms ∙ o.1, slots-DistinctHosts ms o.2)

  recorded-slots :
      (i : NodeId) (ms : Map Member)
      → recorded i (slots admitted ms) ≡ Option.map (λ m. m.virtual_ip.o3) (lookup i ms)
  unfolding slots lookup
  recorded-slots i [] = refl
  recorded-slots i ((id, m) ∷ ms) = ground (arith, recorded-slots i ms)

recorded-insert_slot :
    (i : NodeId) (s : Slot) (ss : List Slot)
    → has slot_id s.id ss ≡ false
    → recorded i (insert_slot s ss) ≡ (if s.id == i then some s.host else recorded i ss)
unfolding insert_slot
recorded-insert_slot i s [] d = refl
recorded-insert_slot i s (t ∷ ss) d = ground (arith, recorded-insert_slot i s ss)

recorded-sort_slots :
    (i : NodeId) (ss : List Slot)
    → DistinctKeys slot_id ss
    → recorded i (sort_slots ss) ≡ recorded i ss
unfolding sort_slots
recorded-sort_slots i [] d = refl
recorded-sort_slots i (s ∷ ss) d = ground (
  arith,
  recorded-insert_slot i s (sort_slots ss),
  has-sort_slots slot_id s.id ss,
  recorded-sort_slots i ss d.1,
)

-- No host of the slots is in the set.
abbrev Untaken : List Slot → IdSet → Type 0
Untaken [] taken = Unit {0}
Untaken (s ∷ ss) taken = (contains s.host taken ≡ false) × Untaken ss taken

Untaken-add :
    (h : ℕ) (ss : List Slot) (taken : IdSet)
    → has slot_host h ss ≡ false
    → Untaken ss taken
    → Untaken ss (h ∷ taken)
Untaken-add h [] taken d u = tt
Untaken-add h (s ∷ ss) taken d u = ground (arith, Untaken-add h ss taken)

Untaken-nil : (ss : List Slot) → Untaken ss []
Untaken-nil [] = tt
Untaken-nil (s ∷ ss) = (refl, Untaken-nil ss)

place-recorded :
    (i : NodeId) (ss : List Slot) (taken : IdSet)
    → ValidHosts ss
    → DistinctKeys slot_host ss
    → Untaken ss taken
    → lookup i (place ss taken) ≡ recorded i ss
unfolding place lookup
place-recorded i [] taken v d u = refl
place-recorded i (s ∷ ss) taken v d u =
    let e : first_try s.host ≡ s.host = ground arith in
    rw (e, probe-fixed 253 taken s.host u.0)
      (ground
        (arith, place-recorded i ss (s.host ∷ taken) v.1 d.1 (Untaken-add s.host ss taken d.0 u.1)))

-- If the recorded hosts are valid and differ, every member keeps its recorded host, whatever
-- the admission times and whoever else is a member.
pub lookup-assign_ips_own :
    (subnet : Ipv4Addr) (admitted : Map ℕ) (members : Map Member) (i : NodeId)
    → IsSorted members
    → OwnHosts members
    → lookup i (assign_ips members admitted subnet)
      ≡ Option.map (λ m. settle subnet m.virtual_ip.o3 m) (lookup i members)
lookup-assign_ips_own subnet admitted members i s o =
    let ss : List Slot = slots admitted members in
    let ids = slots-DistinctIds admitted members s in
    let here =
      place-recorded i (sort_slots ss) []
        (sort_slots-ValidHosts ss (slots-ValidHosts admitted members o))
        (sort_slots-DistinctKeys slot_host ss (slots-DistinctHosts admitted members o))
        (Untaken-nil (sort_slots ss)) in
    ground (
      arith,
      lookup-assign_ips subnet admitted members i s,
      here,
      recorded-sort_slots i ss ids,
      recorded-slots admitted i members,
    )
