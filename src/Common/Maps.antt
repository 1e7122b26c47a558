-- ===== src/Common/Maps.antt =====
-- `BTreeMap` and `BTreeSet` keyed by numbers, as association lists that insertion keeps in the
-- order of the keys. A `HashMap` has the same laws, and its order is never read.
use nullgate.Common.{
  ℕ, suc, ◌≤◌, ◌<◌, ◌≡◌, refl, ap, Bool, true, false, Option, none, some, List, [], ◌∷◌, arith, ltb,
  ◌==◌, if◌then◌else◌, length,
}
use mathlib.Core.Option

abbrev pub Map {ℓ} : Type ℓ → Type ℓ
Map V = List (ℕ × V)

module _ {ℓ} {V : Type ℓ} where
  unfoldable pub lookup : ℕ → Map V → Option V
  lookup k [] = none
  lookup k ((i, v) ∷ rest) = let later = lookup k rest in if i == k then some v else later

  -- `insert`: the value of a key that is present is replaced.
  unfoldable pub insert : ℕ → V → Map V → Map V
  insert k v [] = (k, v) ∷ []
  insert k v ((j, w) ∷ m) =
      if ltb k j then (k, v) ∷ (j, w) ∷ m else if k == j then (k, v) ∷ m else (j, w) ∷ insert k v m

  unfoldable pub remove : ℕ → Map V → Map V
  remove k [] = []
  remove k ((j, v) ∷ m) = let rest = remove k m in if j == k then rest else (j, v) ∷ rest

  -- A write through `get_mut`: nothing happens to a missing key.
  unfoldable pub modify : ℕ → (V → V) → Map V → Map V
  modify k f [] = []
  modify k f ((j, v) ∷ m) = (j, if j == k then f v else v) ∷ modify k f m

  -- `retain` by a test of the value.
  unfoldable pub retain : (V → Bool) → Map V → Map V
  retain p [] = []
  retain p ((j, v) ∷ m) = let rest = retain p m in if p v then (j, v) ∷ rest else rest

  pub lookup-insert :
      (put asked : ℕ) (new : V) (old : Map V)
      → lookup asked (insert put new old) ≡ (if put == asked then some new else lookup asked old)
  unfolding insert lookup
  lookup-insert put asked new [] = refl
  lookup-insert put asked new ((at, w) ∷ old) = ground (arith, lookup-insert put asked new old)

  pub lookup-remove :
      (k j : ℕ) (m : Map V) → lookup j (remove k m) ≡ (if k == j then none else lookup j m)
  unfolding lookup remove
  lookup-remove k j [] = ground arith
  lookup-remove k j ((i, w) ∷ m) = ground (arith, lookup-remove k j m)

  pub lookup-modify :
      (k j : ℕ) (f : V → V) (m : Map V)
      → lookup j (modify k f m) ≡ (if k == j then Option.map f (lookup j m) else lookup j m)
  unfolding lookup modify
  lookup-modify k j f [] = ground arith
  lookup-modify k j f ((i, w) ∷ m) = ground (arith, lookup-modify k j f m)

  -- Every key of the map is above `k`.
  abbrev pub Above : ℕ → Map V → Type 0
  Above k [] = Unit {0}
  Above k ((j, v) ∷ m) = (k < j) × Above k m

  abbrev pub IsSorted : Map V → Type 0
  IsSorted [] = Unit {0}
  IsSorted ((j, v) ∷ m) = Above j m × IsSorted m

  Above-mono : (i j : ℕ) (m : Map V) → i < j → Above j m → Above i m
  Above-mono i j [] h a = tt
  Above-mono i j ((k, v) ∷ m) h a = (omega arith, Above-mono i j m h a.1)

  Above-insert : (i k : ℕ) (v : V) (m : Map V) → i < k → Above i m → Above i (insert k v m)
  unfolding insert
  Above-insert i k v [] h a = (h, tt)
  Above-insert i k v ((j, w) ∷ m) h a = ground (arith, Above-insert i k v m)

  pub insert-IsSorted : (k : ℕ) (v : V) (m : Map V) → IsSorted m → IsSorted (insert k v m)
  unfolding insert
  insert-IsSorted k v [] s = (tt, tt)
  insert-IsSorted k v ((j, w) ∷ m) s =
      ground (arith, Above-mono k j m, Above-insert j k v m, insert-IsSorted k v m)

  Above-remove : (i k : ℕ) (m : Map V) → Above i m → Above i (remove k m)
  unfolding remove
  Above-remove i k [] a = tt
  Above-remove i k ((j, w) ∷ m) a = ground (arith, Above-remove i k m)

  pub remove-IsSorted : (k : ℕ) (m : Map V) → IsSorted m → IsSorted (remove k m)
  unfolding remove
  remove-IsSorted k [] s = tt
  remove-IsSorted k ((j, w) ∷ m) s = ground (arith, Above-remove j k m, remove-IsSorted k m)

  Above-modify : (i k : ℕ) (f : V → V) (m : Map V) → Above i m → Above i (modify k f m)
  unfolding modify
  Above-modify i k f [] a = tt
  Above-modify i k f ((j, w) ∷ m) a = (a.0, Above-modify i k f m a.1)

  pub modify-IsSorted : (k : ℕ) (f : V → V) (m : Map V) → IsSorted m → IsSorted (modify k f m)
  unfolding modify
  modify-IsSorted k f [] s = tt
  modify-IsSorted k f ((j, w) ∷ m) s = (Above-modify j k f m s.0, modify-IsSorted k f m s.1)

  pub length-modify : (k : ℕ) (f : V → V) (m : Map V) → length (modify k f m) ≡ length m
  unfolding modify
  length-modify k f [] = refl
  length-modify k f ((j, w) ∷ m) = ap suc (length-modify k f m)

  pub lookup-Above : (k j : ℕ) (m : Map V) → Above k m → j ≤ k → lookup j m ≡ none
  unfolding lookup
  lookup-Above k j [] a h = refl
  lookup-Above k j ((i, w) ∷ m) a h = ground (arith, lookup-Above k j m a.1)

module _ {V : Type 0} where
  -- Two maps in key order that answer every lookup alike are one list.
  pub IsSorted-ext :
      (m n : Map V) → IsSorted m → IsSorted n → ((k : ℕ) → lookup k m ≡ lookup k n) → m ≡ n
  unfolding lookup
  IsSorted-ext [] [] s t h = refl
  IsSorted-ext [] ((j, w) ∷ n) s t h = absurd (ground (arith, h j))
  IsSorted-ext ((i, v) ∷ m) [] s t h = absurd (ground (arith, h i))
  IsSorted-ext ((i, v) ∷ m) ((j, w) ∷ n) s t h =
      let first : (i ≡ j) × (v ≡ w) =
        ground (arith, h i, h j, lookup-Above i j m s.0, lookup-Above j i n t.0) in
      let tails : (k : ℕ) → lookup k m ≡ lookup k n =
        λ k. ground (arith, h k, first, lookup-Above i k m s.0, lookup-Above j k n t.0) in
      ground (arith, first, IsSorted-ext m n s.1 t.1 tails)

abbrev pub IdSet : Type 0
IdSet = List ℕ

-- `contains` of a set of numbers.
abbrev pub contains : ℕ → List ℕ → Bool
contains k [] = false
contains k (j ∷ s) = if j == k then true else contains k s
