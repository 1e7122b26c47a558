-- ===== src/Common/Sets.antt =====
-- Counting in sets of numbers: a set that holds every number of a range is as long as the range.
use nullgate.Common.{
  ℕ, zero, suc, ◌+◌, ◌≤◌, ◌<◌, ◌≡◌, ◌≢◌, refl, ◌∙◌, true, [], ◌∷◌, arith, ◌==◌, if◌then◌else◌,
  length, Bool, ◌&&◌, select, List,
}
use nullgate.Common.Maps.{IdSet, contains}

without : ℕ → IdSet → IdSet
without k [] = []
without k (j ∷ s) = let rest = without k s in if j == k then rest else j ∷ rest

contains-without : (k j : ℕ) (s : IdSet) → j ≢ k → contains j (without k s) ≡ contains j s
unfolding without
contains-without k j [] h = refl
contains-without k j (i ∷ s) h = ground (arith, contains-without k j s h)

length-without-le : (k : ℕ) (s : IdSet) → length (without k s) ≤ length s
unfolding without
length-without-le k [] = omega arith
length-without-le k (i ∷ s) = ground (arith, length-without-le k s)

length-without-lt : (k : ℕ) (s : IdSet) → contains k s ≡ true → length (without k s) < length s
unfolding without
length-without-lt k [] h = cc
length-without-lt k (i ∷ s) h = ground (arith, length-without-le k s, length-without-lt k s)

pub length-ge_of_range :
    (n lo : ℕ) (s : IdSet) → ((x : ℕ) → lo ≤ x → x < lo + n → contains x s ≡ true) → n ≤ length s
length-ge_of_range zero lo s h = omega arith
length-ge_of_range (suc n) lo s h =
    let top = h (lo + n) (omega arith) (omega arith) in
    omega (
      arith,
      length-without-lt (lo + n) s top,
      length-ge_of_range n lo (without (lo + n) s)
          (λ x p q. contains-without (lo + n) x s (omega arith) ∙ h x p (omega arith)),
    )

pub contains-select :
    (p : ℕ → Bool) (q : ℕ) (ids : List ℕ) → contains q (select p ids) ≡ (contains q ids && p q)
contains-select p q [] = refl
contains-select p q (i ∷ ids) = ground (arith, contains-select p q ids)
