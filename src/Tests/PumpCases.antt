-- ===== src/Tests/PumpCases.antt =====
-- The packet pumps at the packets of the unit tests (crates/ipn-core/src/engine.rs).
use nullgate.Common.{◌≡◌, arith, refl, true, false, some, none, List, [], ◌∷◌}
use nullgate.Common.HashMap.{nat_key, get, put, update, keep}
use nullgate.Ip.{Ipv4Addr}
use nullgate.Packet.{
  FlowKey, flow_key, reversed, is_tcp_initiation, tcp_flags, dst_ipv4, is_own_underlay,
}
use nullgate.Packet.Checksum.Words.{IsBytes}
use nullgate.Packet.Mss.{clamp_tcp_mss, is_tcp_syn, clamp_options, walk, round}
use nullgate.Conntrack.{
  default, allows_inbound, allows_flow, record_outbound, record_flow, sweep, clear,
}
use nullgate.Conntrack.Flows.{opened}
use nullgate.Routes.{route, ip_key}
use nullgate.Engine.Connections.{Side, Connection}
use nullgate.Engine.Pump.{
  PumpState, View, Fate, clamped, demand_dial, send_to, forward, to_mesh, pump_out, pump_in,
}
use nullgate.Engine.Pump.OneWay.{Moment, leaves, ticks, pump, history, block_is_one_way}
use nullgate.Engine.Pump.Outbound.{sent_to_owner}
use nullgate.Tests.PacketData.{peer, outgoing, incoming, datagram}

model : Unit {0}
unfolding get put update keep flow_key reversed is_tcp_initiation tcp_flags dst_ipv4 is_own_underlay
    clamp_tcp_mss is_tcp_syn clamp_options walk round allows_inbound allows_flow record_outbound
    record_flow sweep clear route clamped demand_dial send_to forward to_mesh pump_out pump_in
model = tt

abbrev idle : PumpState
idle = record { conntrack = default; self_loop_drops = 0; last_demand_kick = 0; backoff = [] }

abbrev link : Connection
link = record { stable_id = 1; side = Side.client; closed = false }

-- The peer's node is 77, and this device's endpoint is bound to port 300.
abbrev view : View
view = record {
  self_underlay_ports = 300 ∷ [];
  coarse_now = 1000;
  routes = record { by_ip = (peer, 77) ∷ [] };
  conns = (77, link) ∷ [];
}

sends : (pump_out view (outgoing 2) idle).0 ≡ Fate.sent 77 (outgoing 2)
unfolding model
sends = refl

never_loops : (pump_out view datagram idle).0 ≡ Fate.dropped
unfolding model
never_loops = refl

unsolicited_is_blocked : pump_in true false 1001 default (incoming 2) ≡ none
unfolding model
unsolicited_is_blocked = refl

open_device_accepts : pump_in false false 1001 default (incoming 16) ≡ some (incoming 16)
unfolding model
open_device_accepts = refl

abbrev moments : List Moment
moments = leaves view (outgoing 2) ∷ ticks 1500 ∷ []

reply_comes_in :
    pump_in true false 2000 (pump idle moments).conntrack (incoming 16) ≡ some (incoming 16)
unfolding model pump
reply_comes_in = refl

block_is_one_way_example :
    (k : FlowKey) × (flow_key (incoming 16) ≡ some k)
    × (opened (reversed k) false (history moments) ≡ true)
block_is_one_way_example =
    block_is_one_way idle moments true false 2000 (incoming 16) (incoming 16) refl refl
      reply_comes_in

outgoing_bytes : IsBytes (outgoing 2)
outgoing_bytes = ground arith

sent_to_owner_example :
    (is_own_underlay (outgoing 2) (300 ∷ []) ≡ false)
    × (dst : Ipv4Addr) × (dst_ipv4 (outgoing 2) ≡ some dst)
    × (dst_ipv4 (outgoing 2) ≡ some dst)
    × (route view.routes dst ≡ some 77)
    × (conn : Connection) × (get 77 view.conns ≡ some conn)
sent_to_owner_example =
    sent_to_owner view 77 (outgoing 2) (outgoing 2) idle outgoing_bytes (omega arith) sends
