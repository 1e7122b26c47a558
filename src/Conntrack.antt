-- ===== src/Conntrack.antt =====
-- Connection tracking for "disable remote access" (crates/ipn-core/src/conntrack.rs). The map
-- behind the `RwLock` is passed along; each call holds the lock for its whole duration.
pub mod Flows
pub mod Replies
use nullgate.Common.{
  ℕ, ◌-◌, ◌≡◌, ◌↔◌, Bool, true, false, ◌&&◌, Option, none, some, List, [], ◌∷◌, arith, leb, ◌==◌,
  if◌then◌else◌,
}
use nullgate.Common.HashMap.{Key, get, put, update, keep}
use nullgate.Ip.{ip_eq, ip_eq_iff}
use nullgate.Packet.{Packet, FlowKey, flow_key, reversed, is_tcp_initiation}

abbrev pub flow_ttl_ms : ℕ
flow_ttl_ms = 120_000

abbrev pub flow_key_eq : FlowKey → FlowKey → Bool
flow_key_eq a b =
    ip_eq a.src b.src
    && ip_eq a.dst b.dst
    && a.proto == b.proto
    && a.src_port == b.src_port
    && a.dst_port == b.dst_port

pub flow_key_eq_iff : (a b : FlowKey) → (flow_key_eq a b ≡ true) ↔ (a ≡ b)
flow_key_eq_iff a b = ground arith

instance abbrev pub flow_key_key : Key FlowKey
flow_key_key = record { beq = flow_key_eq; beq_iff = flow_key_eq_iff }

pub record Conntrack : Type 0 where
  pub flows : List (FlowKey × ℕ)

abbrev pub default : Conntrack
default = record { flows = [] }

-- What an outbound packet does to the table, given its key.
unfoldable pub record_flow : Conntrack → Packet → ℕ → Option FlowKey → Conntrack
record_flow ct pkt now none = ct
record_flow ct pkt now (some k) =
    if k.proto == 6
    then if is_tcp_initiation pkt
      then record { flows = put k now ct.flows }
      else record { flows = update k (λ t. now) ct.flows }
    else record { flows = put k now ct.flows }

unfoldable pub record_outbound : Conntrack → Packet → ℕ → Conntrack
unfolding record_flow
record_outbound ct pkt now = record_flow ct pkt now (flow_key pkt)

-- `now.saturating_sub(seen) <= FLOW_TTL_MS`.
abbrev pub is_fresh : ℕ → ℕ → Bool
is_fresh now seen = leb (now - seen) flow_ttl_ms

abbrev pub seen_fresh : ℕ → Option ℕ → Bool
seen_fresh now none = false
seen_fresh now (some seen) = is_fresh now seen

unfoldable pub allows_flow : Conntrack → ℕ → Option FlowKey → Bool
allows_flow ct now none = false
allows_flow ct now (some k) = seen_fresh now (get (reversed k) ct.flows)

unfoldable pub allows_inbound : Conntrack → Packet → ℕ → Bool
unfolding allows_flow
allows_inbound ct pkt now = allows_flow ct now (flow_key pkt)

unfoldable pub sweep : Conntrack → ℕ → Conntrack
sweep ct now = record { flows = keep (is_fresh now) ct.flows }

unfoldable pub clear : Conntrack → Conntrack
clear ct = record { flows = [] }
