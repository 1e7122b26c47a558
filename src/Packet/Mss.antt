-- ===== src/Packet/Mss.antt =====
-- MSS clamping (router.rs: `clamp_tcp_mss`). The walk over the TCP options has fuel, and `none`
-- means that it ran out: `end` rounds are enough (Mss.Walk).
pub mod Walk
pub mod Options
pub mod Clamped
use nullgate.Common.{
  ℕ, zero, suc, ◌+◌, ◌*◌, ◌/◌, ◌^◌, Bool, true, false, not, ◌&&◌, ◌||◌, Option, none, some, ltb,
  leb, ◌==◌, if◌then◌else◌, length,
}
use nullgate.Packet.{Packet, at, not_ipv4, header_len, be_u16, has_bit}
use nullgate.Packet.Checksum.{set_be, recompute_tcp_checksum}
use mathlib.Core.Option

-- Whether an MSS option of length 4 at `i` is above the limit.
abbrev pub exceeds : Packet → ℕ → ℕ → Bool
exceeds pkt i max_mss =
    at pkt i == 2 && at pkt (i + 1) == 4 && ltb max_mss (be_u16 (at pkt (i + 2)) (at pkt (i + 3)))

abbrev pub lower : Packet → ℕ → ℕ → Packet
lower pkt i max_mss = if exceeds pkt i max_mss then set_be pkt (i + 2) max_mss else pkt

-- One round of `while i + 1 < end`: where the walk goes on, if it does.
pub data Round : Type 0 where
  stop : Round
  nop : Round
  option : ℕ → Round

unfoldable pub round : Packet → ℕ → ℕ → Round
round pkt i end =
    if not (ltb (i + 1) end) || at pkt i == 0
    then stop
    else if at pkt i == 1
    then nop
    else let len = at pkt (i + 1) in if ltb len 2 || ltb end (i + len) then stop else option len

unfoldable pub walk : ℕ → Packet → ℕ → ℕ → ℕ → Bool → Option (Packet × Bool)
walk zero pkt i end max_mss changed = none
walk (suc fuel) pkt i end max_mss changed = elim (round pkt i end) [
  | stop ↦ some (pkt, changed)
  | nop ↦ walk fuel pkt (i + 1) end max_mss changed
  | option len ↦
      walk fuel (lower pkt i max_mss) (i + len) end max_mss (changed || exceeds pkt i max_mss)
]

abbrev pub data_offset : Packet → ℕ → ℕ
data_offset pkt tcp = at pkt (tcp + 12) / 2 ^ 4 * 4

-- The checks before the walk: a TCP SYN over IPv4 whose headers fit.
unfoldable pub is_tcp_syn : Packet → Bool
is_tcp_syn pkt =
    let tcp = header_len pkt in
    not (not_ipv4 pkt)
    && not (ltb tcp 20 || ltb (length pkt) (tcp + 20) || not (at pkt 9 == 6))
    && not (ltb (data_offset pkt tcp) 20 || ltb (length pkt) (tcp + data_offset pkt tcp))
    && has_bit 1 (at pkt (tcp + 13))

abbrev pub refresh : ℕ → Packet × Bool → Packet × Bool
refresh ihl (pkt, true) = (recompute_tcp_checksum pkt ihl, true)
refresh ihl (pkt, false) = (pkt, false)

-- What follows the checks.
unfoldable pub clamp_options : Packet → ℕ → Option (Packet × Bool)
clamp_options pkt max_mss =
    let tcp = header_len pkt in
    let end = tcp + data_offset pkt tcp in
    Option.map (refresh tcp) (walk end pkt (tcp + 20) end max_mss false)

unfoldable pub clamp_tcp_mss : Packet → ℕ → Option (Packet × Bool)
clamp_tcp_mss pkt max_mss = if is_tcp_syn pkt then clamp_options pkt max_mss else some (pkt, false)
