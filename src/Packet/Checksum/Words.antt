-- ===== src/Packet/Checksum/Words.antt =====
-- Sums of the words of a packet, and their carries (router.rs: `recompute_tcp_checksum`).
use nullgate.Common.{
  ℕ, zero, suc, ◌+◌, ◌*◌, ◌%◌, ◌^◌, ◌≤◌, ◌<◌, ◌≡◌, refl, List, [], ◌∷◌, arith, length, set, drop,
}
use native.Mathlib.Nat.{zero-add, suc-add}
use nullgate.Packet.{be_u16}
use nullgate.Packet.Checksum.{add32, add_words, fold_carries}

abbrev pub IsBytes : List ℕ → Type 0
IsBytes [] = Unit {0}
IsBytes (b ∷ bs) = (b < 256) × IsBytes bs

-- The sum of the big-endian words, without any limit.
pub words : List ℕ → ℕ
words [] = 0
words (last ∷ []) = last * 256
words (hi ∷ lo ∷ more) = be_u16 hi lo + words more

pub words-le : (bs : List ℕ) → IsBytes bs → 2 * words bs ≤ 65535 * (length bs + 1)
unfolding words
words-le [] h = omega arith
words-le (b ∷ []) h = omega arith
words-le (hi ∷ lo ∷ more) h = omega (arith, words-le more h.1.1)

pub add_words_lem : (bs : List ℕ) (s : ℕ) → s + words bs < 2 ^ 32 → add_words bs s ≡ s + words bs
unfolding words add_words
add_words_lem [] s h = omega arith
add_words_lem (b ∷ []) s h = omega arith
add_words_lem (hi ∷ lo ∷ more) s h =
    omega (arith, add_words_lem more (add32 s (be_u16 hi lo)) (omega arith))

-- Folding keeps the remainder by 65535, and ends below 2 ^ 16.
pub fold_carries_lem :
    (s : ℕ)
    → 0 < s
    → s < 2 ^ 32
    → (0 < fold_carries 3 s) × (fold_carries 3 s < 2 ^ 16) × (fold_carries 3 s % 65535 ≡ s % 65535)
unfolding fold_carries
fold_carries_lem s pos h = (ground arith, ground arith, ground arith)

unfoldable pub double : ℕ → ℕ
double zero = 0
double (suc k) = suc (suc (double k))

pub words-set :
    (k : ℕ) (bs : List ℕ) (hi lo : ℕ)
    → double k + 1 < length bs
    → words (set (set bs (double k) hi) (suc (double k)) lo)
      ≡ words (set (set bs (double k) 0) (suc (double k)) 0) + hi * 256 + lo
unfolding words double
words-set k [] hi lo h = absurd (omega arith)
words-set k (a ∷ []) hi lo h = absurd (omega arith)
words-set zero (a ∷ b ∷ bs) hi lo h = omega arith
words-set (suc k) (a ∷ b ∷ bs) hi lo h = omega (arith, words-set k bs hi lo (omega arith))

pub drop-set : (n j v : ℕ) (bs : List ℕ) → drop n (set bs (n + j) v) ≡ set (drop n bs) j v
drop-set zero j v bs = rw zero-add
drop-set (suc n) j v [] = refl
drop-set (suc n) j v (b ∷ bs) = rw suc-add (drop-set n j v bs)
