-- ===== src/Engine/Pump/OneWay.antt =====
-- The one-way block through the pumps (engine.rs).
use nullgate.Common.{
  ℕ, ◌≡◌, ◌∙◌, refl, subst, Bool, true, false, not, ◌||◌, Option, none, some, List, [], ◌∷◌, arith,
  if◌then◌else◌, Bool-cases, inl, inr,
}
use nullgate.Common.HashMap.{nat_key, get}
use nullgate.Roster.{NodeId}
use nullgate.Ip.{Ipv4Addr}
use nullgate.Packet.{Packet, FlowKey, flow_key, reversed, dst_ipv4, is_own_underlay}
use nullgate.Conntrack.{Conntrack, default, allows_inbound, record_outbound, sweep, clear}
use nullgate.Conntrack.Flows.{
  Event, outbound, sweeps, clears, apply, play, opened, allows_inbound-opened,
}
use nullgate.Routes.{route}
use nullgate.Engine.Connections.{Connection}
use nullgate.Engine.Pump.{
  PumpState, View, clamped, demand_dial, send_to, forward, tracked, to_mesh, pump_out, pump_in,
}

-- What happens to the connection table: a packet leaves the TUN, the tick sweeps, the network is
-- torn down.
pub data Moment : Type 0 where
  leaves : View → Packet → Moment
  ticks : ℕ → Moment
  torn_down : Moment

abbrev pub after_moment : PumpState → Moment → PumpState
after_moment s (leaves v pkt) = (pump_out v pkt s).1
after_moment s (ticks now) = record s { conntrack = sweep s.conntrack now }
after_moment s torn_down = record s { conntrack = clear s.conntrack }

unfoldable pub pump : PumpState → List Moment → PumpState
pump s [] = s
pump s (m ∷ ms) = pump (after_moment s m) ms

-- The packets that reach the connection table: those with a destination that are not this
-- device's own underlay traffic.
abbrev pub tracks_to : View → Packet → Option Ipv4Addr → Bool
tracks_to v pkt none = false
tracks_to v pkt (some dst) = not (is_own_underlay pkt v.self_underlay_ports)

abbrev pub tracks : View → Packet → Bool
tracks v pkt = tracks_to v pkt (dst_ipv4 pkt)

pub history : List Moment → List Event
history [] = []
history (leaves v pkt ∷ ms) =
    let rest = history ms in if tracks v pkt then outbound pkt v.coarse_now ∷ rest else rest
history (ticks now ∷ ms) = sweeps now ∷ history ms
history (torn_down ∷ ms) = clears ∷ history ms

conntrack-demand_dial :
    (v : View) (peer : NodeId) (s : PumpState) → (demand_dial v peer s).conntrack ≡ s.conntrack
unfolding demand_dial
conntrack-demand_dial v peer s = ground arith

conntrack-send_to :
    (v : View) (peer : NodeId) (pkt : Packet) (s : PumpState) (c : Option Connection)
    → (send_to v peer pkt s c).1.conntrack ≡ s.conntrack
unfolding send_to
conntrack-send_to v peer pkt s none = conntrack-demand_dial v peer s
conntrack-send_to v peer pkt s (some conn) = refl

conntrack-forward :
    (v : View) (pkt : Packet) (s : PumpState) (o : Option NodeId)
    → (forward v pkt s o).1.conntrack ≡ s.conntrack
unfolding forward
conntrack-forward v pkt s none = refl
conntrack-forward v pkt s (some peer) = conntrack-send_to v peer pkt s (get peer v.conns)

conntrack-to_mesh :
    (v : View) (pkt : Packet) (s : PumpState) (o : Option Ipv4Addr)
    → (to_mesh v pkt s o).1.conntrack
      ≡ (if tracks_to v pkt o then record_outbound s.conntrack pkt v.coarse_now else s.conntrack)
unfolding to_mesh
conntrack-to_mesh v pkt s none = refl
conntrack-to_mesh v pkt s (some dst) =
    elim (Bool-cases (is_own_underlay pkt v.self_underlay_ports)) [
      | inl own ↦ rw own refl
      | inr other ↦
          rw other (conntrack-forward v (clamped pkt) (tracked v pkt s) (route v.routes dst))
    ]

conntrack-pump_out :
    (v : View) (pkt : Packet) (s : PumpState)
    → (pump_out v pkt s).1.conntrack
      ≡ (if tracks v pkt then record_outbound s.conntrack pkt v.coarse_now else s.conntrack)
unfolding pump_out
conntrack-pump_out v pkt s = conntrack-to_mesh v pkt s (dst_ipv4 pkt)

conntrack-pump :
    (s : PumpState) (ms : List Moment) → (pump s ms).conntrack ≡ play s.conntrack (history ms)
unfolding pump history play apply
conntrack-pump s [] = refl
conntrack-pump s (leaves v pkt ∷ ms) =
    let step = conntrack-pump_out v pkt s in
    conntrack-pump (pump_out v pkt s).1 ms ∙ elim (Bool-cases (tracks v pkt)) [
      | inl seen ↦ rw (step, seen) refl
      | inr unseen ↦ rw (step, unseen) refl
    ]
conntrack-pump s (ticks now ∷ ms) =
    conntrack-pump (record s { conntrack = sweep s.conntrack now }) ms
conntrack-pump s (torn_down ∷ ms) = conntrack-pump (record s { conntrack = clear s.conntrack }) ms

-- When remote access is disabled or the device is hidden, then whatever packets left the TUN
-- before and whenever the table was swept or cleared, a packet from a peer reaches the TUN only if
-- it has a flow key and this device opened the reverse flow, by a SYN if it is TCP, with a packet
-- that was not its own underlay traffic, and the table was not cleared since.
pub block_is_one_way :
    (s : PumpState) (ms : List Moment) (disabled hidden : Bool) (now : ℕ) (pkt q : Packet)
    → s.conntrack ≡ default
    → (disabled || hidden) ≡ true
    → pump_in disabled hidden now (pump s ms).conntrack pkt ≡ some q
    → (k : FlowKey) × (flow_key pkt ≡ some k) × (opened (reversed k) false (history ms) ≡ true)
unfolding pump_in
block_is_one_way s ms disabled hidden now pkt q fresh blocked e =
    let allowed : allows_inbound (pump s ms).conntrack pkt now ≡ true = ground arith in
    allows_inbound-opened (history ms) pkt now (
      rw (← fresh) (
        subst (λ (ct : Conntrack). allows_inbound ct pkt now ≡ true) (conntrack-pump s ms) allowed))
