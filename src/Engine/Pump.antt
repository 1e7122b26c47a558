-- ===== src/Engine/Pump.antt =====
-- The packet pumps (engine.rs: `spawn_tun_pump`, and the inbound loop that `register_mesh` spawns),
-- one packet at a time, while there is a TUN. What a pump reads of the engine is an argument; what it
-- writes is state.
pub mod OneWay
pub mod Outbound
use nullgate.Common.{
  ℕ, ◌+◌, ◌-◌, Bool, true, false, not, ◌&&◌, ◌||◌, Option, none, some, List, leb, if◌then◌else◌,
}
use nullgate.Common.HashMap.{nat_key, get}
use nullgate.Ip.{Ipv4Addr}
use nullgate.Roster.{NodeId}
use nullgate.Packet.{Packet, dst_ipv4, is_own_underlay}
use nullgate.Packet.Mss.{clamp_tcp_mss}
use nullgate.Conntrack.{Conntrack, record_outbound, allows_inbound}
use nullgate.Routes.{RouteTable, route}
use nullgate.Engine.Backoff.{Backoff, reset_dial_backoff}
use nullgate.Engine.Connections.{Connection, Conns}

abbrev pub tun_mss : ℕ
tun_mss = 1240

abbrev pub demand_dial_kick_ms : ℕ
demand_dial_kick_ms = 5_000

-- The packet after `clamp_tcp_mss`, which rewrites it in place and always ends.
abbrev pub rewritten : Packet → Option (Packet × Bool) → Packet
rewritten pkt none = pkt
rewritten pkt (some (q, changed)) = q

unfoldable pub clamped : Packet → Packet
clamped pkt = rewritten pkt (clamp_tcp_mss pkt tun_mss)

pub record PumpState : Type 0 where
  pub conntrack : Conntrack
  pub self_loop_drops : ℕ
  pub last_demand_kick : ℕ
  pub backoff : Backoff

pub record View : Type 0 where
  pub self_underlay_ports : List ℕ
  pub coarse_now : ℕ
  pub routes : RouteTable
  pub conns : Conns

-- What becomes of a packet from the TUN: it is sent to a peer, or dropped.
pub data Fate : Type 0 where
  sent : NodeId → Packet → Fate
  dropped : Fate

-- A packet for a peer without a connection: the dial is due at once, at a limited rate.
unfoldable pub demand_dial : View → NodeId → PumpState → PumpState
demand_dial v peer s =
    if leb demand_dial_kick_ms (v.coarse_now - s.last_demand_kick)
    then record s { last_demand_kick = v.coarse_now; backoff = reset_dial_backoff s.backoff peer }
    else s

unfoldable pub send_to : View → NodeId → Packet → PumpState → Option Connection → Fate × PumpState
send_to v peer pkt s none = (Fate.dropped, demand_dial v peer s)
send_to v peer pkt s (some conn) = (Fate.sent peer pkt, s)

unfoldable pub forward : View → Packet → PumpState → Option NodeId → Fate × PumpState
forward v pkt s none = (Fate.dropped, s)
forward v pkt s (some peer) = send_to v peer pkt s (get peer v.conns)

abbrev pub tracked : View → Packet → PumpState → PumpState
tracked v pkt s = record s { conntrack = record_outbound s.conntrack pkt v.coarse_now }

unfoldable pub to_mesh : View → Packet → PumpState → Option Ipv4Addr → Fate × PumpState
to_mesh v pkt s none = (Fate.dropped, s)
to_mesh v pkt s (some dst) =
    if is_own_underlay pkt v.self_underlay_ports
    then (Fate.dropped, record s { self_loop_drops = s.self_loop_drops + 1 })
    else forward v (clamped pkt) (tracked v pkt s) (route v.routes dst)

unfoldable pub pump_out : View → Packet → PumpState → Fate × PumpState
pump_out v pkt s = to_mesh v pkt s (dst_ipv4 pkt)

-- A datagram from a peer: the packet for the TUN, or none and one more that was blocked.
unfoldable pub pump_in : Bool → Bool → ℕ → Conntrack → Packet → Option Packet
pump_in remote_access_disabled hidden now conntrack pkt =
    if (remote_access_disabled || hidden) && not (allows_inbound conntrack pkt now)
    then none
    else some (clamped pkt)
