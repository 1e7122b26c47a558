-- ===== src/Common/HashMap.antt =====
-- `std::collections::HashMap` over any type of keys with a Boolean equality: association lists
-- whose order is never read. In a map that `insert` has made every key stands once.
use nullgate.Common.{
  ℕ, ◌≡◌, ◌↔◌, refl, Bool, true, Option, none, some, List, [], ◌∷◌, arith, ◌==◌, if◌then◌else◌,
  ==_iff,
}
use mathlib.Core.Option

pub record Key (K : Type 0) : Type 0 where
  pub beq : K → K → Bool
  pub beq_iff : (a b : K) → (beq a b ≡ true) ↔ (a ≡ b)

instance abbrev pub nat_key : Key ℕ
nat_key = record { beq = λ a b. a == b; beq_iff = ==_iff }

-- `Option::map_or`, and `Entry::or_default` for a value read.
abbrev pub map_or : {V : Type 0} → Bool → (V → Bool) → Option V → Bool
map_or b p none = b
map_or b p (some v) = p v

abbrev pub or_default : {V : Type 0} → V → Option V → V
or_default d none = d
or_default d (some v) = v

-- `Option::filter`.
abbrev pub only : {V : Type 0} → (V → Bool) → Option V → Option V
only p none = none
only p (some v) = if p v then some v else none

module _ {K V : Type 0} ⦃e : Key K⦄ where
  unfoldable pub get : K → List (K × V) → Option V
  get k [] = none
  get k ((i, v) ∷ more) = if e.beq i k then some v else get k more

  unfoldable pub put : K → V → List (K × V) → List (K × V)
  put k v [] = (k, v) ∷ []
  put k v ((i, w) ∷ more) = if e.beq i k then (i, v) ∷ more else (i, w) ∷ put k v more

  -- A write through `get_mut`.
  unfoldable pub update : K → (V → V) → List (K × V) → List (K × V)
  update k f [] = []
  update k f ((i, w) ∷ more) = (i, if e.beq i k then f w else w) ∷ update k f more

  unfoldable pub delete : K → List (K × V) → List (K × V)
  delete k [] = []
  delete k ((i, w) ∷ more) =
      let others = delete k more in if e.beq i k then others else (i, w) ∷ others

  -- `retain` by a test of the value.
  unfoldable pub keep : (V → Bool) → List (K × V) → List (K × V)
  keep p [] = []
  keep p ((i, w) ∷ more) = let others = keep p more in if p w then (i, w) ∷ others else others

  -- A write through `values_mut`.
  unfoldable pub each : (V → V) → List (K × V) → List (K × V)
  each f [] = []
  each f ((i, w) ∷ more) = (i, f w) ∷ each f more

  -- Every key stands once.
  abbrev pub DistinctKeys : List (K × V) → Type 0
  DistinctKeys [] = Unit {0}
  DistinctKeys ((i, w) ∷ more) = (get i more ≡ none) × DistinctKeys more

  pub get-put :
      (k j : K) (v : V) (m : List (K × V))
      → get j (put k v m) ≡ (if e.beq k j then some v else get j m)
  unfolding get put
  get-put k j v [] = refl
  get-put k j v ((i, w) ∷ m) =
      ground (arith, e.beq_iff k j, e.beq_iff i k, e.beq_iff i j, get-put k j v m)

  pub get-put_self : (k : K) (v : V) (m : List (K × V)) → get k (put k v m) ≡ some v
  get-put_self k v m = ground (arith, e.beq_iff k k, get-put k k v m)

  pub get-update :
      (k j : K) (f : V → V) (m : List (K × V))
      → get j (update k f m) ≡ (if e.beq k j then Option.map f (get j m) else get j m)
  unfolding get update
  get-update k j f [] = ground arith
  get-update k j f ((i, w) ∷ m) =
      ground (arith, e.beq_iff k j, e.beq_iff i k, e.beq_iff i j, get-update k j f m)

  pub get-each : (j : K) (f : V → V) (m : List (K × V)) → get j (each f m) ≡ Option.map f (get j m)
  unfolding get each
  get-each j f [] = refl
  get-each j f ((i, w) ∷ m) = ground (arith, get-each j f m)

  pub get-delete :
      (k j : K) (m : List (K × V)) → get j (delete k m) ≡ (if e.beq k j then none else get j m)
  unfolding get delete
  get-delete k j [] = ground arith
  get-delete k j ((i, w) ∷ m) =
      ground (arith, e.beq_iff k j, e.beq_iff i k, e.beq_iff i j, get-delete k j m)

  pub get-delete_self : (k : K) (m : List (K × V)) → get k (delete k m) ≡ none
  get-delete_self k m = ground (arith, e.beq_iff k k, get-delete k k m)

  pub get-keep :
      (p : V → Bool) (j : K) (m : List (K × V))
      → DistinctKeys m
      → get j (keep p m) ≡ only p (get j m)
  unfolding get keep
  get-keep p j [] d = refl
  get-keep p j ((i, w) ∷ m) d = ground (arith, e.beq_iff i j, get-keep p j m d.1)

  pub put-DistinctKeys :
      (k : K) (v : V) (m : List (K × V)) → DistinctKeys m → DistinctKeys (put k v m)
  unfolding put get
  put-DistinctKeys k v [] d = (refl, tt)
  put-DistinctKeys k v ((i, w) ∷ m) d =
      ground (arith, e.beq_iff i k, e.beq_iff k i, put-DistinctKeys k v m d.1, get-put k i v m)

  pub update-DistinctKeys :
      (k : K) (f : V → V) (m : List (K × V)) → DistinctKeys m → DistinctKeys (update k f m)
  unfolding update get
  update-DistinctKeys k f [] d = tt
  update-DistinctKeys k f ((i, w) ∷ m) d =
      ground (arith, update-DistinctKeys k f m d.1, get-update k i f m)

  pub keep-DistinctKeys :
      (p : V → Bool) (m : List (K × V)) → DistinctKeys m → DistinctKeys (keep p m)
  unfolding keep get
  keep-DistinctKeys p [] d = tt
  keep-DistinctKeys p ((i, w) ∷ m) d = ground (arith, keep-DistinctKeys p m d.1, get-keep p i m d.1)
