-- ===== src/Packet/Parsing.antt =====
-- The readers of a packet agree with one another (router.rs).
use nullgate.Common.{ℕ, ◌+◌, ◌≤◌, ◌≡◌, ◌↔◌, ◌⊎◌, refl, true, some, List, [], ◌∷◌, arith, length}
use nullgate.Common.Maps.{contains}
use nullgate.Packet.{
  Packet, header_len, dst_ipv4, src_ipv4, is_own_underlay, FlowKey, key_of, reversed, flow_key,
}

-- A packet with a flow key is one whose addresses can be read, and these are the key's. Its
-- ports are 0 unless the protocol is TCP or UDP.
pub flow_key_addresses :
    (pkt : Packet) (k : FlowKey)
    → flow_key pkt ≡ some k
    → (src_ipv4 pkt ≡ some k.src)
      × (dst_ipv4 pkt ≡ some k.dst)
      × (((k.proto ≡ 6) ⊎ (k.proto ≡ 17)) ⊎ ((k.src_port ≡ 0) × (k.dst_port ≡ 0)))
unfolding flow_key src_ipv4 dst_ipv4
flow_key_addresses pkt k e = ground arith

-- A packet is taken for this device's own underlay traffic exactly when its flow key is that of
-- a UDP packet, it is long enough to hold ports, and its source port is one of the bound ports.
pub is_own_underlay_iff :
    (pkt : Packet) (ports : List ℕ)
    → (is_own_underlay pkt ports ≡ true) ↔ (
        (k : FlowKey) × (flow_key pkt ≡ some k)
        × (k.proto ≡ 17)
        × (header_len pkt + 4 ≤ length pkt)
        × (contains k.src_port ports ≡ true))
unfolding is_own_underlay flow_key
is_own_underlay_iff pkt [] = ((λ e. cc), λ h. h.4)
is_own_underlay_iff pkt (p ∷ ports) = (
  (λ e. (key_of pkt, ground arith, ground arith, ground arith, ground arith)),
  λ h. ground (arith, h),
)

pub reversed-reversed : (k : FlowKey) → reversed (reversed k) ≡ k
unfolding reversed
reversed-reversed k = refl
