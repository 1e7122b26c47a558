-- ===== src/Engine/Pump/Outbound.antt =====
-- Where a packet from the TUN goes (engine.rs: `spawn_tun_pump`).
use nullgate.Common.{
  ℕ, ◌≤◌, ◌≡◌, ◌∙◌, refl, sym, ap, subst, Bool, true, false, Option, none, some, arith, length,
  Bool-cases, inl, inr,
}
use nullgate.Common.HashMap.{nat_key, get}
use nullgate.Roster.{NodeId}
use nullgate.Ip.{Ipv4Addr}
use nullgate.Packet.{Packet, dst_ipv4, is_own_underlay}
use nullgate.Packet.Checksum.Words.{IsBytes}
use nullgate.Packet.Mss.{clamp_tcp_mss, is_tcp_syn}
use nullgate.Packet.Mss.Clamped.{
  is_tcp_syn-Checked, clamp_tcp_mss_correct, IsClamped, headers-IsClamped,
}
use nullgate.Routes.{route}
use nullgate.Engine.Connections.{Connection}
use nullgate.Engine.Pump.{
  PumpState, View, Fate, tun_mss, clamped, send_to, forward, tracked, to_mesh, pump_out,
}

changed-syn : (pkt q : Packet) → clamp_tcp_mss pkt tun_mss ≡ some (q, true) → is_tcp_syn pkt ≡ true
unfolding clamp_tcp_mss
changed-syn pkt q e = elim (Bool-cases (is_tcp_syn pkt)) [
  | inl syn ↦ syn
  | inr no_syn ↦ absurd (let same = rw no_syn at e in ground (arith, same))
]

same_destination :
    (pkt q : Packet) (changed : Bool)
    → clamp_tcp_mss pkt tun_mss ≡ some (q, changed)
    → IsClamped pkt tun_mss q changed
    → dst_ipv4 q ≡ dst_ipv4 pkt
unfolding dst_ipv4
same_destination pkt q false e c = rw (c.untouched refl) refl
same_destination pkt q true e c =
    let k = is_tcp_syn-Checked pkt (changed-syn pkt q e) in
    let kept = λ (n : ℕ). headers-IsClamped pkt q tun_mss n true c in
    rw
      (
        c.same_length,
        kept 0 (omega (arith, k.header)),
        kept 16 (omega (arith, k.header)),
        kept 17 (omega (arith, k.header)),
        kept 18 (omega (arith, k.header)),
        kept 19 (omega (arith, k.header)),
      )
      refl

dst_ipv4-clamped :
    (pkt : Packet) → IsBytes pkt → length pkt ≤ 65535 → dst_ipv4 (clamped pkt) ≡ dst_ipv4 pkt
unfolding clamped
dst_ipv4-clamped pkt bytes short =
    let (q, changed, e, c) = clamp_tcp_mss_correct pkt tun_mss bytes short (omega arith) in
    rw e (same_destination pkt q changed e c)

send_to_sent :
    (v : View) (peer to : NodeId) (pkt q : Packet) (s : PumpState) (c : Option Connection)
    → (send_to v peer pkt s c).0 ≡ Fate.sent to q
    → (peer ≡ to) × (pkt ≡ q) × (conn : Connection) × (c ≡ some conn)
unfolding send_to
send_to_sent v peer to pkt q s none e = absurd (cc)
send_to_sent v peer to pkt q s (some conn) e = (ground (arith, e), ground (arith, e), conn, refl)

forward_sent :
    (v : View) (to : NodeId) (pkt q : Packet) (s : PumpState) (o : Option NodeId)
    → (forward v pkt s o).0 ≡ Fate.sent to q
    → (o ≡ some to) × (pkt ≡ q) × (conn : Connection) × (get to v.conns ≡ some conn)
unfolding forward
forward_sent v to pkt q s none e = absurd (cc)
forward_sent v to pkt q s (some peer) e =
    let (same, body, conn, here) = send_to_sent v peer to pkt q s (get peer v.conns) e in
    (ap some same, body, conn, subst (λ (x : NodeId). get x v.conns ≡ some conn) same here)

to_mesh_sent :
    (v : View) (to : NodeId) (pkt q : Packet) (s : PumpState) (o : Option Ipv4Addr)
    → (to_mesh v pkt s o).0 ≡ Fate.sent to q
    → (dst : Ipv4Addr) × (o ≡ some dst)
      × (is_own_underlay pkt v.self_underlay_ports ≡ false)
      × (route v.routes dst ≡ some to)
      × (clamped pkt ≡ q)
      × (conn : Connection) × (get to v.conns ≡ some conn)
unfolding to_mesh
to_mesh_sent v to pkt q s none e = absurd (cc)
to_mesh_sent v to pkt q s (some dst) e =
    elim (Bool-cases (is_own_underlay pkt v.self_underlay_ports)) [
      | inl own ↦ absurd (let bad = rw own at e in cc)
      | inr other ↦
          let (owner, body, conn, here) =
            forward_sent v to (clamped pkt) q (tracked v pkt s) (route v.routes dst)
              (rw other at e) in
          (dst, refl, other, owner, body, conn, here)
    ]

-- A packet of at most 65535 bytes that the pump sends is not this device's own underlay traffic. It
-- goes to the node that the route table gives for its destination, to which there is a connection,
-- and the packet sent has the same destination.
pub sent_to_owner :
    (v : View) (to : NodeId) (pkt q : Packet) (s : PumpState)
    → IsBytes pkt
    → length pkt ≤ 65535
    → (pump_out v pkt s).0 ≡ Fate.sent to q
    → (is_own_underlay pkt v.self_underlay_ports ≡ false)
      × (dst : Ipv4Addr) × (dst_ipv4 q ≡ some dst)
      × (dst_ipv4 pkt ≡ some dst)
      × (route v.routes dst ≡ some to)
      × (conn : Connection) × (get to v.conns ≡ some conn)
unfolding pump_out
sent_to_owner v to pkt q s bytes short e =
    let (dst, read, other, owner, body, conn, here) = to_mesh_sent v to pkt q s (dst_ipv4 pkt) e in
    (
      other,
      dst,
      ap dst_ipv4 (sym body) ∙ dst_ipv4-clamped pkt bytes short ∙ read,
      read,
      owner,
      conn,
      here,
    )
