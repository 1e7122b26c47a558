-- ===== src/Packet.antt =====
-- Reading IPv4 packets (crates/ipn-core/src/router.rs). A packet is the list of its bytes. Each
-- read stands behind a test of the length, as in the source, so `at` never meets its default.
pub mod Parsing
pub mod Checksum
pub mod Mss
use nullgate.Common.{
  ℕ, ◌+◌, ◌*◌, ◌/◌, ◌%◌, ◌^◌, Bool, true, false, not, ◌&&◌, ◌||◌, Option, none, some, List, [], ◌∷◌,
  ltb, leb, ◌==◌, if◌then◌else◌, length, get_or,
}
use nullgate.Common.Maps.{contains}
use nullgate.Ip.{Ipv4Addr}

abbrev pub Packet : Type 0
Packet = List ℕ

abbrev pub at : Packet → ℕ → ℕ
at pkt i = get_or pkt i 0

-- `pkt.len() < 20 || (pkt[0] >> 4) != 4`.
abbrev pub not_ipv4 : Packet → Bool
not_ipv4 pkt = ltb (length pkt) 20 || not (at pkt 0 / 2 ^ 4 == 4)

-- `((pkt[0] & 0x0f) as usize) * 4`.
abbrev pub header_len : Packet → ℕ
header_len pkt = at pkt 0 % 2 ^ 4 * 4

-- `u16::from_be_bytes`.
abbrev pub be_u16 : ℕ → ℕ → ℕ
be_u16 hi lo = hi * 256 + lo

-- Whether bit `k` is set, as `x & (1 << k) != 0`.
abbrev pub has_bit : ℕ → ℕ → Bool
has_bit k x = x / 2 ^ k % 2 == 1

abbrev pub src_of : Packet → Ipv4Addr
src_of pkt = record { o0 = at pkt 12; o1 = at pkt 13; o2 = at pkt 14; o3 = at pkt 15 }

abbrev pub dst_of : Packet → Ipv4Addr
dst_of pkt = record { o0 = at pkt 16; o1 = at pkt 17; o2 = at pkt 18; o3 = at pkt 19 }

unfoldable pub dst_ipv4 : Packet → Option Ipv4Addr
dst_ipv4 pkt = if not_ipv4 pkt then none else some (dst_of pkt)

unfoldable pub src_ipv4 : Packet → Option Ipv4Addr
src_ipv4 pkt = if not_ipv4 pkt then none else some (src_of pkt)

unfoldable pub is_own_underlay : Packet → List ℕ → Bool
is_own_underlay pkt [] = false
is_own_underlay pkt (p ∷ ports) =
    if not_ipv4 pkt || not (at pkt 9 == 17)
    then false
    else let ihl = header_len pkt in
      if ltb ihl 20 || ltb (length pkt) (ihl + 4)
      then false
      else contains (be_u16 (at pkt ihl) (at pkt (ihl + 1))) (p ∷ ports)

-- A connection 5-tuple.
pub record FlowKey : Type 0 where
  pub src : Ipv4Addr
  pub dst : Ipv4Addr
  pub proto : ℕ
  pub src_port : ℕ
  pub dst_port : ℕ

unfoldable pub reversed : FlowKey → FlowKey
reversed k = record {
  src = k.dst;
  dst = k.src;
  proto = k.proto;
  src_port = k.dst_port;
  dst_port = k.src_port;
}

unfoldable pub tcp_flags : Packet → Option ℕ
tcp_flags pkt =
    if not_ipv4 pkt
    then none
    else let ihl = header_len pkt in
      if not (at pkt 9 == 6) || ltb (length pkt) (ihl + 14) then none else some (at pkt (ihl + 13))

-- SYN is set and ACK is clear.
abbrev pub opens : Option ℕ → Bool
opens none = false
opens (some f) = has_bit 1 f && not (has_bit 4 f)

unfoldable pub is_tcp_initiation : Packet → Bool
unfolding tcp_flags
is_tcp_initiation pkt = opens (tcp_flags pkt)

-- The ports, if the protocol has them and the packet is long enough.
abbrev pub ports_of : Packet → ℕ × ℕ
ports_of pkt =
    let ihl = header_len pkt in
    if (at pkt 9 == 6 || at pkt 9 == 17) && leb (ihl + 4) (length pkt)
    then (be_u16 (at pkt ihl) (at pkt (ihl + 1)), be_u16 (at pkt (ihl + 2)) (at pkt (ihl + 3)))
    else (0, 0)

abbrev pub key_of : Packet → FlowKey
key_of pkt = record {
  src = src_of pkt;
  dst = dst_of pkt;
  proto = at pkt 9;
  src_port = (ports_of pkt).0;
  dst_port = (ports_of pkt).1;
}

unfoldable pub flow_key : Packet → Option FlowKey
flow_key pkt =
    if not_ipv4 pkt
    then none
    else let ihl = header_len pkt in
      if ltb ihl 20 || ltb (length pkt) ihl then none else some (key_of pkt)
