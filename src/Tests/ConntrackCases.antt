-- ===== src/Tests/ConntrackCases.antt =====
-- Runs and theorems at the histories of the unit tests (crates/ipn-core/src/conntrack.rs).
use nullgate.Common.{◌≡◌, refl, some, true, false, [], ◌∷◌, List}
use nullgate.Common.HashMap.{get, put, update, keep}
use nullgate.Packet.{flow_key, reversed, is_tcp_initiation, tcp_flags}
use nullgate.Conntrack.{
  default, allows_inbound, allows_flow, record_outbound, record_flow, sweep, clear, flow_key_key,
}
use nullgate.Conntrack.Flows.{
  Event, outbound, sweeps, play, apply, opens_flow, allowed_by, allows_inbound_lem,
}
use nullgate.Tests.PacketData.{outgoing, incoming, out_key}

model : Unit {0}
unfolding flow_key reversed is_tcp_initiation tcp_flags get put update keep allows_inbound
    allows_flow record_outbound record_flow sweep clear play apply
model = tt

-- A SYN, a refresh later on, and a sweep.
abbrev session : List Event
session = outbound (outgoing 2) 1000 ∷ outbound (outgoing 16) 101000 ∷ sweeps 150000 ∷ []

session_stays_alive : allows_inbound (play default session) (incoming 16) 151000 ≡ true
unfolding model
session_stays_alive = refl

server_response_opens_nothing :
    allows_inbound
      (play default (outbound (outgoing 18) 1000 ∷ outbound (outgoing 16) 1001 ∷ []))
      (incoming 16)
      1002
    ≡ false
unfolding model
server_response_opens_nothing = refl

expired :
    allows_inbound (play default (outbound (outgoing 2) 1000 ∷ [])) (incoming 16) 121001 ≡ false
unfolding model
expired = refl

out_key_of : flow_key (outgoing 2) ≡ some out_key
unfolding model
out_key_of = refl

back_key_of : flow_key (incoming 16) ≡ some (reversed out_key)
unfolding model
back_key_of = refl

opens_out : opens_flow out_key (outgoing 2) ≡ true
unfolding model
opens_out = refl

allows_inbound_lem_example :
    allows_inbound (play default session) (incoming 16) 151000
    ≡ allowed_by session 151000 (flow_key (incoming 16))
allows_inbound_lem_example = allows_inbound_lem session (incoming 16) 151000
