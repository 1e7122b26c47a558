-- ===== src/Roster/Addresses/Place.antt =====
-- `assign_ips` (roster.rs) split in two: `place` gives each slot its host, and each member of
-- the map is settled there.
use nullgate.Common.{
  ℕ, ◌+◌, ◌≡◌, ◌∙◌, refl, ap, Bool, true, false, Option, none, some, List, [], ◌∷◌, arith, ◌==◌,
  if◌then◌else◌, length,
}
use nullgate.Common.Maps.{Map, IdSet, lookup, modify, lookup-modify, IsSorted}
use nullgate.Common.Maps.{lookup-Above}
use nullgate.Ip.{Ipv4Addr}
use nullgate.Roster.{NodeId, Member}
use nullgate.Roster.Addresses.{
  Slot, slots, insert_slot, sort_slots, first_try, probe, settle, assign, assign_ips,
}
use mathlib.Core.Option

abbrev pub is_some {ℓ} : {A : Type ℓ} → Option A → Bool
is_some none = false
is_some (some _) = true

unfoldable pub place : List Slot → IdSet → Map ℕ
place [] taken = []
place (s ∷ ss) taken =
    let host = probe 253 taken (first_try s.host) in (s.id, host) ∷ place ss (host ∷ taken)

-- `key` is the id or the recorded host of a slot.
module _ (key : Slot → ℕ) where
  abbrev pub has : ℕ → List Slot → Bool
  has k [] = false
  has k (s ∷ ss) = if key s == k then true else has k ss

  abbrev pub DistinctKeys : List Slot → Type 0
  DistinctKeys [] = Unit {0}
  DistinctKeys (s ∷ ss) = (has (key s) ss ≡ false) × DistinctKeys ss

  has-insert_slot :
      (k : ℕ) (s : Slot) (ss : List Slot)
      → has k (insert_slot s ss) ≡ (if key s == k then true else has k ss)
  unfolding insert_slot
  has-insert_slot k s [] = refl
  has-insert_slot k s (t ∷ ss) = ground (arith, has-insert_slot k s ss)

  insert_slot-DistinctKeys :
      (s : Slot) (ss : List Slot)
      → has (key s) ss ≡ false
      → DistinctKeys ss
      → DistinctKeys (insert_slot s ss)
  unfolding insert_slot
  insert_slot-DistinctKeys s [] h d = (refl, tt)
  insert_slot-DistinctKeys s (t ∷ ss) h d =
      ground (arith, insert_slot-DistinctKeys s ss, has-insert_slot (key t) s ss)

  pub has-sort_slots : (k : ℕ) (ss : List Slot) → has k (sort_slots ss) ≡ has k ss
  unfolding sort_slots
  has-sort_slots k [] = refl
  has-sort_slots k (s ∷ ss) =
      ground (arith, has-insert_slot k s (sort_slots ss), has-sort_slots k ss)

  pub sort_slots-DistinctKeys : (ss : List Slot) → DistinctKeys ss → DistinctKeys (sort_slots ss)
  unfolding sort_slots
  sort_slots-DistinctKeys [] d = tt
  sort_slots-DistinctKeys (s ∷ ss) d =
      insert_slot-DistinctKeys s (sort_slots ss) (has-sort_slots (key s) ss ∙ d.0)
        (sort_slots-DistinctKeys ss d.1)

abbrev pub slot_id : Slot → ℕ
slot_id s = s.id

abbrev pub has_id : NodeId → List Slot → Bool
has_id = has slot_id

abbrev pub DistinctIds : List Slot → Type 0
DistinctIds = DistinctKeys slot_id

length-insert_slot : (s : Slot) (ss : List Slot) → length (insert_slot s ss) ≡ length ss + 1
unfolding insert_slot
length-insert_slot s [] = omega arith
length-insert_slot s (t ∷ ss) = ground (arith, length-insert_slot s ss)

pub length-sort_slots : (ss : List Slot) → length (sort_slots ss) ≡ length ss
unfolding sort_slots
length-sort_slots [] = refl
length-sort_slots (s ∷ ss) =
    omega (arith, length-insert_slot s (sort_slots ss), length-sort_slots ss)

module _ (admitted : Map ℕ) where
  pub has_id-slots :
      (i : NodeId) (ms : Map Member) → has_id i (slots admitted ms) ≡ is_some (lookup i ms)
  unfolding slots lookup
  has_id-slots i [] = refl
  has_id-slots i ((j, m) ∷ ms) = ground (arith, has_id-slots i ms)

  pub slots-DistinctIds : (ms : Map Member) → IsSorted ms → DistinctIds (slots admitted ms)
  unfolding slots
  slots-DistinctIds [] s = tt
  slots-DistinctIds ((j, m) ∷ ms) s = (
    has_id-slots j ms ∙ ap is_some (lookup-Above j j ms s.0 (omega arith)),
    slots-DistinctIds ms s.1,
  )

  pub length-slots : (ms : Map Member) → length (slots admitted ms) ≡ length ms
  unfolding slots
  length-slots [] = refl
  length-slots ((j, m) ∷ ms) = ap ℕ.suc (length-slots ms)

pub is_some-place :
    (i : NodeId) (ss : List Slot) (taken : IdSet)
    → is_some (lookup i (place ss taken)) ≡ has_id i ss
unfolding place lookup
is_some-place i [] taken = refl
is_some-place i (s ∷ ss) taken =
    ground (arith, is_some-place i ss (probe 253 taken (first_try s.host) ∷ taken))

abbrev pub settled : Ipv4Addr → Option ℕ → Option Member → Option Member
settled subnet none m = m
settled subnet (some h) m = Option.map (settle subnet h) m

pub lookup-assign :
    (subnet : Ipv4Addr) (i : NodeId) (ss : List Slot) (taken : IdSet) (members : Map Member)
    → DistinctIds ss
    → lookup i (assign subnet ss taken members)
      ≡ settled subnet (lookup i (place ss taken)) (lookup i members)
unfolding assign place lookup
lookup-assign subnet i [] taken members d = refl
lookup-assign subnet i (s ∷ ss) taken members d =
    let host = probe 253 taken (first_try s.host) in
    ground (
      arith,
      lookup-assign subnet i ss (host ∷ taken) (modify s.id (settle subnet host) members) d.1,
      lookup-modify s.id i (settle subnet host) members,
      is_some-place i ss (host ∷ taken),
    )

-- Where each member of a map in key order stands after `assign_ips`.
pub lookup-assign_ips :
    (subnet : Ipv4Addr) (admitted : Map ℕ) (members : Map Member) (i : NodeId)
    → IsSorted members
    → lookup i (assign_ips members admitted subnet)
      ≡ settled subnet
          (lookup i (place (sort_slots (slots admitted members)) []))
          (lookup i members)
unfolding assign_ips
lookup-assign_ips subnet admitted members i s =
    lookup-assign subnet i (sort_slots (slots admitted members)) [] members (
      sort_slots-DistinctKeys slot_id (slots admitted members)
        (slots-DistinctIds admitted members s))
