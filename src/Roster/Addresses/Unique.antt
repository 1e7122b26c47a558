-- ===== src/Roster/Addresses/Unique.antt =====
-- Every member of a network of at most 253 has an address of its own in the subnet (roster.rs:
-- `assign_ips`).
use nullgate.Common.{
  ℕ, ◌+◌, ◌≤◌, ◌≡◌, ◌≢◌, ◌∙◌, sym, ap, false, some, List, [], ◌∷◌, arith, length, Option-cases, inl,
  inr,
}
use nullgate.Common.Maps.{Map, IdSet, lookup, contains, IsSorted}
use nullgate.Ip.{Ipv4Addr}
use nullgate.Roster.{NodeId, Member}
use nullgate.Roster.Addresses.{Slot, slots, sort_slots, first_try, probe, settle, assign_ips}
use nullgate.Roster.Addresses.Probe.{InRange, probe-InRange, probe_free}
use nullgate.Roster.Addresses.Place.{
  place, has-sort_slots, slot_id, length-sort_slots, has_id-slots, length-slots, is_some-place,
  lookup-assign_ips,
}

first_try-InRange : (h : ℕ) → InRange (first_try h)
first_try-InRange h = ground arith

place_free :
    (ss : List Slot) (taken : IdSet) (i : NodeId) (h : ℕ)
    → length taken + length ss ≤ 253
    → lookup i (place ss taken) ≡ some h
    → InRange h × (contains h taken ≡ false)
unfolding place lookup
place_free [] taken i h few e = cc
place_free (s ∷ ss) taken i h few e = ground (
  arith,
  probe-InRange 253 taken (first_try s.host) (first_try-InRange s.host),
  probe_free taken (first_try s.host) (first_try-InRange s.host) (omega arith),
  place_free ss (probe 253 taken (first_try s.host) ∷ taken) i h,
)

place_unique :
    (ss : List Slot) (taken : IdSet) (i j : NodeId) (h : ℕ)
    → length taken + length ss ≤ 253
    → lookup i (place ss taken) ≡ some h
    → lookup j (place ss taken) ≡ some h
    → i ≡ j
unfolding place lookup
place_unique [] taken i j h few e f = cc
place_unique (s ∷ ss) taken i j h few e f = ground (
  arith,
  place_free ss (probe 253 taken (first_try s.host) ∷ taken) i h,
  place_free ss (probe 253 taken (first_try s.host) ∷ taken) j h,
  place_unique ss (probe 253 taken (first_try s.host) ∷ taken) i j h,
)

module _ (subnet : Ipv4Addr) (admitted : Map ℕ) (members : Map Member) (sorted : IsSorted members)
    (few : length members ≤ 253) where
  order : List Slot
  order = sort_slots (slots admitted members)

  length-order : length order ≡ length members
  unfolding order
  length-order = length-sort_slots (slots admitted members) ∙ length-slots admitted members

  placed :
      (i : NodeId) (m : Member)
      → lookup i members ≡ some m
      → (h : ℕ) × (lookup i (place order []) ≡ some h)
        × (lookup i (assign_ips members admitted subnet) ≡ some (settle subnet h m))
  unfolding order
  placed i m e = elim (Option-cases (lookup i (place order []))) [
    | inl miss ↦ absurd (
        ground (
          arith,
          is_some-place i order [],
          has-sort_slots slot_id i (slots admitted members),
          has_id-slots admitted i members,
        ))
    | inr (h, hit) ↦ (h, hit, lookup-assign_ips subnet admitted members i sorted ∙ rw (hit, e))
  ]

  -- While a network has at most 253 members, each keeps its hostname, role and voucher under
  -- `assign_ips` and gets an address of the subnet with its last octet in 2..=254.
  pub lookup-assign_ips_settled :
      (i : NodeId) (m : Member)
      → lookup i members ≡ some m
      → (h : ℕ) × (lookup i (assign_ips members admitted subnet) ≡ some (settle subnet h m))
        × InRange h
  lookup-assign_ips_settled i m e =
      let (h, hit, here) = placed i m e in
      (h, here, (place_free order [] i h (omega (arith, length-order)) hit).0)

  -- While a network has at most 253 members, no two of them get the same address.
  pub assign_ips_unique :
      (i j : NodeId) (m n : Member)
      → lookup i members ≡ some m
      → lookup j members ≡ some n
      → i ≢ j
      → (m' : Member) × (n' : Member) × (lookup i (assign_ips members admitted subnet) ≡ some m')
        × (lookup j (assign_ips members admitted subnet) ≡ some n')
        × (m'.virtual_ip ≢ n'.virtual_ip)
  assign_ips_unique i j m n e f ne =
      let (h, hit, here) = placed i m e in
      let (k, hit', there) = placed j n f in
      (
        settle subnet h m,
        settle subnet k n,
        here,
        there,
        λ same. ne (
            place_unique order [] i j h (omega (arith, length-order)) hit
              (hit' ∙ ap some (sym (ap (λ a. a.o3) same)))),
      )
