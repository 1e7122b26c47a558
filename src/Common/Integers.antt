-- ===== src/Common/Integers.antt =====
-- Signed integers over the native numbers, for the `i128` of the relays' code, which no value
-- there comes near to overflow.
use nullgate.Common.{
  ℕ, suc, ◌+◌, ◌-◌, ◌≡◌, refl, Bool, true, false, not, arith, ltb, leb, if◌then◌else◌,
}

pub data ℤ : Type 0 where
  pos : ℕ → ℤ
  negsuc : ℕ → ℤ

abbrev pub lez : ℤ → ℤ → Bool
lez (pos a) (pos b) = leb a b
lez (pos a) (negsuc b) = false
lez (negsuc a) (pos b) = true
lez (negsuc a) (negsuc b) = leb b a

abbrev pub ltz : ℤ → ℤ → Bool
ltz a b = not (lez b a)

-- A natural number added to or taken from an integer.
abbrev pub add_nat : ℤ → ℕ → ℤ
add_nat (pos a) n = pos (a + n)
add_nat (negsuc a) n = if ltb a n then pos (n - suc a) else negsuc (a - n)

abbrev pub sub_nat : ℤ → ℕ → ℤ
sub_nat (pos a) n = if leb n a then pos (a - n) else negsuc (n - suc a)
sub_nat (negsuc a) n = negsuc (a + n)

pub lez_trans : (a b c : ℤ) → lez a b ≡ true → lez b c ≡ true → lez a c ≡ true
lez_trans (pos a) (pos b) (pos c) p q = ground arith
lez_trans (pos a) (pos b) (negsuc c) p q = absurd (cc)
lez_trans (pos a) (negsuc b) c p q = absurd (cc)
lez_trans (negsuc a) b (pos c) p q = refl
lez_trans (negsuc a) (pos b) (negsuc c) p q = absurd (cc)
lez_trans (negsuc a) (negsuc b) (negsuc c) p q = ground arith

pub lez_total : (a b : ℤ) → lez a b ≡ false → lez b a ≡ true
lez_total (pos a) (pos b) p = ground arith
lez_total (pos a) (negsuc b) p = refl
lez_total (negsuc a) (pos b) p = absurd (cc)
lez_total (negsuc a) (negsuc b) p = ground arith

pub lez-add_nat : (a b : ℤ) (n : ℕ) → lez a b ≡ true → lez (add_nat a n) (add_nat b n) ≡ true
lez-add_nat (pos a) (pos b) n p = ground arith
lez-add_nat (pos a) (negsuc b) n p = absurd (cc)
lez-add_nat (negsuc a) (pos b) n p = ground arith
lez-add_nat (negsuc a) (negsuc b) n p = ground arith
