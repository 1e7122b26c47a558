-- ===== src/Common/Bytes.antt =====
-- Bytes: their equality, and fixed-width big-endian numbers.
use nullgate.Common.{
  ℕ, zero, suc, ◌+◌, ◌*◌, ◌/◌, ◌%◌, ◌^◌, ◌<◌, ◌≡◌, refl, ◌↔◌, Bool, true, false, ◌&&◌, List, [],
  ◌∷◌, ◌++◌, ◌==◌, arith, length, length-append,
}

abbrev pub bytes_eq : List ℕ → List ℕ → Bool
bytes_eq [] [] = true
bytes_eq (a ∷ more) (b ∷ bs) = a == b && bytes_eq more bs
bytes_eq _ _ = false

pub bytes_eq_iff : (a b : List ℕ) → (bytes_eq a b ≡ true) ↔ (a ≡ b)
bytes_eq_iff [] [] = ground arith
bytes_eq_iff [] (b ∷ bs) = ground arith
bytes_eq_iff (a ∷ more) [] = ground arith
bytes_eq_iff (a ∷ more) (b ∷ bs) = ground (arith, bytes_eq_iff more bs)

-- The `n` bytes of a number.
abbrev pub to_be_bytes : ℕ → ℕ → List ℕ
to_be_bytes zero x = []
to_be_bytes (suc n) x = to_be_bytes n (x / 256) ++ (x % 256) ∷ []

-- The number of big-endian bytes.
abbrev pub from_be_bytes_onto : ℕ → List ℕ → ℕ
from_be_bytes_onto acc [] = acc
from_be_bytes_onto acc (b ∷ bs) = from_be_bytes_onto (acc * 256 + b) bs

abbrev pub from_be_bytes : List ℕ → ℕ
from_be_bytes = from_be_bytes_onto 0

abbrev pub IsBytes : List ℕ → Type 0
IsBytes [] = Unit
IsBytes (b ∷ bs) = (b < 256) × IsBytes bs

from_be_bytes_onto-append :
    (acc x : ℕ) (bs : List ℕ)
    → from_be_bytes_onto acc (bs ++ x ∷ []) ≡ from_be_bytes_onto acc bs * 256 + x
from_be_bytes_onto-append acc x [] = refl
from_be_bytes_onto-append acc x (b ∷ bs) = from_be_bytes_onto-append (acc * 256 + b) x bs

below_shifted : (n x : ℕ) → x < 256 ^ (suc n) → x / 256 < 256 ^ n
below_shifted n x h = omega arith

pub from_be_bytes-to_be_bytes : (n x : ℕ) → x < 256 ^ n → from_be_bytes (to_be_bytes n x) ≡ x
from_be_bytes-to_be_bytes zero x h = omega arith
from_be_bytes-to_be_bytes (suc n) x h = omega (
  arith,
  from_be_bytes_onto-append 0 (x % 256) (to_be_bytes n (x / 256)),
  from_be_bytes-to_be_bytes n (x / 256) (below_shifted n x h),
)

pub length-to_be_bytes : (n x : ℕ) → length (to_be_bytes n x) ≡ n
length-to_be_bytes zero x = refl
length-to_be_bytes (suc n) x =
    omega (
      arith,
      length-append (to_be_bytes n (x / 256)) (x % 256 ∷ []),
      length-to_be_bytes n (x / 256),
    )

IsBytes-append : (bs : List ℕ) (x : ℕ) → x < 256 → IsBytes bs → IsBytes (bs ++ x ∷ [])
IsBytes-append [] x h b = (h, tt)
IsBytes-append (b ∷ bs) x h i = (i.0, IsBytes-append bs x h i.1)

pub to_be_bytes-IsBytes : (n x : ℕ) → IsBytes (to_be_bytes n x)
to_be_bytes-IsBytes zero x = tt
to_be_bytes-IsBytes (suc n) x =
    IsBytes-append (to_be_bytes n (x / 256)) (x % 256) (omega arith)
      (to_be_bytes-IsBytes n (x / 256))
