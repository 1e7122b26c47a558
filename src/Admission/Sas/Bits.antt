-- ===== src/Admission/Sas/Bits.antt =====
-- The loop reads the first 42 bits (admission.rs: `sas_emojis`).
use nullgate.Common.{ℕ, ◌+◌, ◌*◌, ◌/◌, ◌%◌, ◌^◌, ◌<◌, ◌≡◌, refl, List, [], ◌∷◌, arith}
use nullgate.Admission.Sas.{refill, sas_indices, first_reader}

-- The first six bytes as one number.
abbrev pub first_48_bits : ℕ → ℕ → ℕ → ℕ → ℕ → ℕ → ℕ
first_48_bits b0 b1 b2 b3 b4 b5 = ((((b0 * 256 + b1) * 256 + b2) * 256 + b3) * 256 + b4) * 256 + b5

cons_eq : {x y : ℕ} {xs ys : List ℕ} → x ≡ y → xs ≡ ys → x ∷ xs ≡ y ∷ ys
cons_eq p q = rw (p, q) refl

-- Whatever the bytes are, the seven indices are the groups of six bits of the first 42 bits, the
-- highest first, although the accumulator has 32 bits only.
pub sas_indices_lem :
    (b0 b1 b2 b3 b4 b5 : ℕ) (more : List ℕ)
    → b0 < 256
    → b1 < 256
    → b2 < 256
    → b3 < 256
    → b4 < 256
    → b5 < 256
    → let bits = first_48_bits b0 b1 b2 b3 b4 b5 in
      sas_indices 7 (b0 ∷ b1 ∷ b2 ∷ b3 ∷ b4 ∷ b5 ∷ more) first_reader
      ≡ (bits / 2 ^ 42 % 64)
        ∷ (bits / 2 ^ 36 % 64)
        ∷ (bits / 2 ^ 30 % 64)
        ∷ (bits / 2 ^ 24 % 64)
        ∷ (bits / 2 ^ 18 % 64)
        ∷ (bits / 2 ^ 12 % 64)
        ∷ (bits / 2 ^ 6 % 64)
        ∷ []
unfolding sas_indices refill
sas_indices_lem b0 b1 b2 b3 b4 b5 more h0 h1 h2 h3 h4 h5 = cons_eq (omega arith) (
    cons_eq (omega arith) (
      cons_eq (omega arith) (
        cons_eq (omega arith)
          (cons_eq (omega arith) (cons_eq (omega arith) (cons_eq (omega arith) refl))))))
