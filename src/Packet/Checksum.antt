-- ===== src/Packet/Checksum.antt =====
-- The TCP checksum (router.rs: `recompute_tcp_checksum`). The loop over the words of the segment
-- is a recursion on the bytes from `ihl` on; sums are `u32`.
pub mod Words
pub mod Valid
use nullgate.Common.{
  ℕ, zero, suc, ◌+◌, ◌-◌, ◌*◌, ◌/◌, ◌%◌, ◌^◌, Bool, List, [], ◌∷◌, ◌==◌, if◌then◌else◌, length, set,
  drop,
}
use nullgate.Packet.{Packet, at, be_u16}

abbrev pub add32 : ℕ → ℕ → ℕ
add32 a b = (a + b) % 2 ^ 32

-- Four words of addresses, the protocol and the length of the segment.
unfoldable pub pseudo_header : Packet → ℕ → ℕ
pseudo_header pkt tcp_len =
    let word = λ (i : ℕ). be_u16 (at pkt i) (at pkt (i + 1)) in
    add32 (add32 (add32 (add32 (add32 (add32 0 (word 12)) (word 14)) (word 16)) (word 18)) 6)
      tcp_len

unfoldable pub add_words : List ℕ → ℕ → ℕ
add_words [] sum = sum
add_words (last ∷ []) sum = add32 sum (last * 2 ^ 8)
add_words (hi ∷ lo ∷ more) sum = add_words more (add32 sum (be_u16 hi lo))

-- `while sum >> 16 != 0`, with fuel.
unfoldable pub fold_carries : ℕ → ℕ → ℕ
fold_carries zero sum = sum
fold_carries (suc fuel) sum =
    let folded = fold_carries fuel (add32 (sum % 2 ^ 16) (sum / 2 ^ 16)) in
    if sum / 2 ^ 16 == 0 then sum else folded

-- Two bytes, big-endian, at an offset.
abbrev pub set_be : Packet → ℕ → ℕ → Packet
set_be pkt i v = set (set pkt i (v / 256)) (i + 1) (v % 256)

-- Three rounds of `fold_carries` are enough for a `u32`.
unfoldable pub segment_sum : Packet → ℕ → ℕ
segment_sum pkt ihl =
    fold_carries 3 (add_words (drop ihl pkt) (pseudo_header pkt (length pkt - ihl)))

-- `!(sum as u16)`.
abbrev pub complement16 : ℕ → ℕ
complement16 sum = 65535 - sum % 2 ^ 16

unfoldable pub recompute_tcp_checksum : Packet → ℕ → Packet
unfolding segment_sum
recompute_tcp_checksum pkt ihl =
    let zeroed = set (set pkt (ihl + 16) 0) (ihl + 17) 0 in
    set_be zeroed (ihl + 16) (complement16 (segment_sum zeroed ihl))
