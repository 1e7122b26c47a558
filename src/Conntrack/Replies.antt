-- ===== src/Conntrack/Replies.antt =====
-- Return traffic, and the periodic sweep (conntrack.rs).
use nullgate.Common.{ℕ, ◌-◌, ◌≤◌, ◌≡◌, true, some, arith, leb, Option-cases, inl, inr}
use nullgate.Common.HashMap.{DistinctKeys, get-put, get-keep}
use nullgate.Packet.{Packet, FlowKey, flow_key, reversed}
use nullgate.Packet.Parsing.{reversed-reversed}
use nullgate.Conntrack.{
  Conntrack, flow_ttl_ms, flow_key_eq_iff, flow_key_key, record_outbound, is_fresh, allows_inbound,
  sweep,
}
use nullgate.Conntrack.Flows.{opens_flow}

-- Once this device has opened a flow, a packet of the reverse flow is let in for two minutes and
-- no longer, if nothing else happens to the table.
pub reply_allowed :
    (ct : Conntrack) (out back : Packet) (k : FlowKey) (t now : ℕ)
    → flow_key out ≡ some k
    → opens_flow k out ≡ true
    → flow_key back ≡ some (reversed k)
    → allows_inbound (record_outbound ct out t) back now ≡ leb (now - t) flow_ttl_ms
unfolding allows_inbound record_outbound
reply_allowed ct out back k t now e o f =
    rw (e, f, reversed-reversed) (ground (arith, get-put k k t ct.flows, flow_key_eq_iff k k))

-- Sweeping at a time that is not after `now` changes no answer at `now`.
pub sweep_transparent :
    (ct : Conntrack) (pkt : Packet) (t now : ℕ)
    → DistinctKeys ct.flows
    → t ≤ now
    → allows_inbound (sweep ct t) pkt now ≡ allows_inbound ct pkt now
unfolding allows_inbound sweep
sweep_transparent ct pkt t now d le = elim (Option-cases (flow_key pkt)) [
  | inl miss ↦ rw miss
  | inr (k, hit) ↦ rw hit (ground (arith, get-keep (is_fresh t) (reversed k) ct.flows d))
]
