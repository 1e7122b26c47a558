-- ===== src/Packet/Checksum/Valid.antt =====
-- The recomputed checksum is valid (router.rs: `recompute_tcp_checksum`).
use nullgate.Common.{
  ℕ, zero, suc, ◌+◌, ◌-◌, ◌*◌, ◌/◌, ◌%◌, ◌^◌, ◌≤◌, ◌<◌, ◌≡◌, ◌≢◌, ◌∙◌, refl, ap, sym, List, [], ◌∷◌,
  length, set, drop, arith, get_or-set_ne, length-set,
}
use nullgate.Packet.{Packet, at, be_u16}
use nullgate.Packet.Checksum.{
  pseudo_header, add_words, segment_sum, complement16, recompute_tcp_checksum,
}
use nullgate.Packet.Checksum.Words.{
  IsBytes, words, words-le, add_words_lem, fold_carries_lem, double, words-set, drop-set,
}

-- Two bytes written twice.
set-set_pair :
    (i : ℕ) (bs : List ℕ) (a b c d : ℕ)
    → set (set (set (set bs i a) (suc i) b) i c) (suc i) d ≡ set (set bs i c) (suc i) d
set-set_pair i [] a b c d = refl
set-set_pair zero (x ∷ []) a b c d = refl
set-set_pair zero (x ∷ y ∷ bs) a b c d = refl
set-set_pair (suc i) (x ∷ bs) a b c d = ap (◌∷◌ x) (set-set_pair i bs a b c d)

pub set-IsBytes : (bs : List ℕ) (i v : ℕ) → v < 256 → IsBytes bs → IsBytes (set bs i v)
set-IsBytes [] i v h s = tt
set-IsBytes (b ∷ bs) zero v h s = (h, s.1)
set-IsBytes (b ∷ bs) (suc i) v h s = (s.0, set-IsBytes bs i v h s.1)

drop-IsBytes : (n : ℕ) (bs : List ℕ) → IsBytes bs → IsBytes (drop n bs)
drop-IsBytes zero bs s = s
drop-IsBytes (suc n) [] s = tt
drop-IsBytes (suc n) (b ∷ bs) s = drop-IsBytes n bs s.1

length-drop : (n : ℕ) (bs : List ℕ) → length (drop n bs) ≡ length bs - n
length-drop zero bs = omega arith
length-drop (suc n) [] = omega arith
length-drop (suc n) (b ∷ bs) = omega (arith, length-drop n bs)

at-lt : (bs : List ℕ) (i : ℕ) → IsBytes bs → at bs i < 256
at-lt [] i s = omega arith
at-lt (b ∷ bs) zero s = s.0
at-lt (b ∷ bs) (suc i) s = at-lt bs i s.1

-- The sum that the receiver forms, without any limit: RFC 1071 asks that it be 0 in
-- arithmetic modulo 65535.
abbrev pub pseudo_words : Packet → ℕ
pseudo_words pkt =
    be_u16 (at pkt 12) (at pkt 13)
    + be_u16 (at pkt 14) (at pkt 15)
    + be_u16 (at pkt 16) (at pkt 17)
    + be_u16 (at pkt 18) (at pkt 19)

abbrev pub plain_sum : Packet → ℕ → ℕ
plain_sum pkt ihl = pseudo_words pkt + 6 + (length pkt - ihl) + words (drop ihl pkt)

pseudo_header_lem :
    (pkt : Packet) (n : ℕ)
    → IsBytes pkt
    → n ≤ 65535
    → (pseudo_header pkt n ≡ pseudo_words pkt + 6 + n) × (pseudo_words pkt ≤ 262140)
unfolding pseudo_header
pseudo_header_lem pkt n s short = omega (
  arith,
  at-lt pkt 12 s,
  at-lt pkt 13 s,
  at-lt pkt 14 s,
  at-lt pkt 15 s,
  at-lt pkt 16 s,
  at-lt pkt 17 s,
  at-lt pkt 18 s,
  at-lt pkt 19 s,
)

sum32_lem :
    (pkt : Packet) (ihl : ℕ)
    → IsBytes pkt
    → length pkt ≤ 65535
    → (add_words (drop ihl pkt) (pseudo_header pkt (length pkt - ihl)) ≡ plain_sum pkt ihl)
      × (plain_sum pkt ihl < 2 ^ 32)
sum32_lem pkt ihl s short =
    let n : ℕ = length pkt - ihl in
    let ps = pseudo_header_lem pkt n s (omega arith) in
    let bound = words-le (drop ihl pkt) (drop-IsBytes ihl pkt s) in
    let len = length-drop ihl pkt in
    let small : pseudo_header pkt n + words (drop ihl pkt) < 2 ^ 32 = omega arith in
    (add_words_lem (drop ihl pkt) (pseudo_header pkt n) small ∙ omega arith, omega arith)

-- The sum in `u32` does not wrap.
segment_sum_lem :
    (pkt : Packet) (ihl : ℕ)
    → IsBytes pkt
    → length pkt ≤ 65535
    → (segment_sum pkt ihl < 2 ^ 16) × (segment_sum pkt ihl % 65535 ≡ plain_sum pkt ihl % 65535)
unfolding segment_sum
segment_sum_lem pkt ihl s short =
    let (same, small) = sum32_lem pkt ihl s short in
    let (_, low, rest) = fold_carries_lem (plain_sum pkt ihl) (omega arith) small in
    rw same (low, rest)

-- The bytes that the checksum takes.
abbrev placed : Packet → ℕ → ℕ → ℕ → Packet
placed pkt ihl hi lo = set (set pkt (ihl + 16) hi) (ihl + 17) lo

drop-placed :
    (pkt : Packet) (ihl hi lo : ℕ)
    → drop ihl (placed pkt ihl hi lo) ≡ set (set (drop ihl pkt) 16 hi) 17 lo
drop-placed pkt ihl hi lo = rw (drop-set ihl 17, drop-set ihl 16)

at-placed : (pkt : Packet) (ihl hi lo j : ℕ) → j < ihl + 16 → at (placed pkt ihl hi lo) j ≡ at pkt j
at-placed pkt ihl hi lo j h =
    get_or-set_ne (set pkt (ihl + 16) hi) (ihl + 17) j lo 0 (omega arith)
    ∙ get_or-set_ne pkt (ihl + 16) j hi 0 (omega arith)

length-placed : (pkt : Packet) (ihl hi lo : ℕ) → length (placed pkt ihl hi lo) ≡ length pkt
length-placed pkt ihl hi lo =
    length-set (set pkt (ihl + 16) hi) (ihl + 17) lo ∙ length-set pkt (ihl + 16) hi

words-placed :
    (pkt : Packet) (ihl hi lo : ℕ)
    → ihl + 20 ≤ length pkt
    → words (drop ihl (placed pkt ihl hi lo))
      ≡ words (drop ihl (placed pkt ihl 0 0)) + hi * 256 + lo
unfolding double
words-placed pkt ihl hi lo fits =
    rw (drop-placed pkt ihl hi lo, drop-placed pkt ihl 0 0)
      (words-set 8 (drop ihl pkt) hi lo (omega (arith, length-drop ihl pkt)))

plain_sum-placed :
    (pkt : Packet) (ihl hi lo : ℕ)
    → 20 ≤ ihl
    → ihl + 20 ≤ length pkt
    → plain_sum (placed pkt ihl hi lo) ihl ≡ plain_sum (placed pkt ihl 0 0) ihl + hi * 256 + lo
plain_sum-placed pkt ihl hi lo h fits =
    let same : (j : ℕ) → j < 20 → at (placed pkt ihl hi lo) j ≡ at (placed pkt ihl 0 0) j = λ j q.
      at-placed pkt ihl hi lo j (omega arith) ∙ sym (at-placed pkt ihl 0 0 j (omega arith)) in
    omega (
      arith,
      words-placed pkt ihl hi lo fits,
      length-placed pkt ihl hi lo,
      length-placed pkt ihl 0 0,
      same 12 (omega arith),
      same 13 (omega arith),
      same 14 (omega arith),
      same 15 (omega arith),
      same 16 (omega arith),
      same 17 (omega arith),
      same 18 (omega arith),
      same 19 (omega arith),
    )

set-set_next :
    (pkt : Packet) (i j k a b c d : ℕ)
    → j ≡ suc i
    → k ≡ suc i
    → set (set (set (set pkt i a) j b) i c) k d ≡ set (set pkt i c) j d
set-set_next pkt i j k a b c d p q = rw (p, q) (set-set_pair i pkt a b c d)

recompute-placed :
    (pkt : Packet) (ihl : ℕ)
    → let sum = segment_sum (placed pkt ihl 0 0) ihl in
      recompute_tcp_checksum pkt ihl
      ≡ placed pkt ihl (complement16 sum / 256) (complement16 sum % 256)
unfolding recompute_tcp_checksum
recompute-placed pkt ihl =
    let sum : ℕ = complement16 (segment_sum (placed pkt ihl 0 0) ihl) in
    set-set_next pkt (ihl + 16) (ihl + 17) (ihl + 16 + 1) 0 0 (sum / 256) (sum % 256) (omega arith)
      (omega arith)

-- After `recompute_tcp_checksum` the checksum is valid: the words of the pseudo-header and of
-- the segment, checksum included, add up to 0 modulo 65535, as RFC 1071 asks. The packet has at
-- most 65535 bytes, and the header of at least 20 bytes and a TCP header of 20 fit in it.
pub recompute_tcp_checksum_valid :
    (pkt : Packet) (ihl : ℕ)
    → IsBytes pkt
    → length pkt ≤ 65535
    → 20 ≤ ihl
    → ihl + 20 ≤ length pkt
    → plain_sum (recompute_tcp_checksum pkt ihl) ihl % 65535 ≡ 0
recompute_tcp_checksum_valid pkt ihl s short h fits =
    let z : Packet = placed pkt ihl 0 0 in
    let zs : IsBytes z =
      set-IsBytes (set pkt (ihl + 16) 0) (ihl + 17) 0 (omega arith)
        (set-IsBytes pkt (ihl + 16) 0 (omega arith) s) in
    let (low, rest) = segment_sum_lem z ihl zs (omega (arith, length-placed pkt ihl 0 0)) in
    let sum : ℕ = segment_sum z ihl in
    rw (recompute-placed pkt ihl) (
      omega
        (arith, plain_sum-placed pkt ihl (complement16 sum / 256) (complement16 sum % 256) h fits))

-- Only the two bytes of the checksum change.
pub at-recompute :
    (pkt : Packet) (ihl j : ℕ)
    → j ≢ ihl + 16
    → j ≢ ihl + 17
    → at (recompute_tcp_checksum pkt ihl) j ≡ at pkt j
at-recompute pkt ihl j p q =
    let sum : ℕ = complement16 (segment_sum (placed pkt ihl 0 0) ihl) in
    rw (recompute-placed pkt ihl) (
      get_or-set_ne (set pkt (ihl + 16) (sum / 256)) (ihl + 17) j (sum % 256) 0 (λ e. q (sym e))
      ∙ get_or-set_ne pkt (ihl + 16) j (sum / 256) 0 (λ e. p (sym e)))

pub length-recompute :
    (pkt : Packet) (ihl : ℕ) → length (recompute_tcp_checksum pkt ihl) ≡ length pkt
length-recompute pkt ihl =
    let sum : ℕ = complement16 (segment_sum (placed pkt ihl 0 0) ihl) in
    rw (recompute-placed pkt ihl) (length-placed pkt ihl (sum / 256) (sum % 256))
