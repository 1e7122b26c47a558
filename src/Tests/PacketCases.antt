-- ===== src/Tests/PacketCases.antt =====
-- Runs and theorems at the packets of the unit tests (router.rs).
use nullgate.Common.{◌≡◌, arith, refl, some, true, false, Bool, [], ◌∷◌}
use nullgate.Packet.{Packet, src_ipv4, dst_ipv4, is_own_underlay, flow_key}
use nullgate.Packet.Checksum.{
  recompute_tcp_checksum, segment_sum, pseudo_header, add_words, fold_carries,
}
use nullgate.Packet.Checksum.Words.{IsBytes}
use nullgate.Packet.Mss.{clamp_tcp_mss, is_tcp_syn, clamp_options, walk, round}
use nullgate.Packet.Mss.Clamped.{clamp_tcp_mss_correct, IsClamped}
use nullgate.Tests.PacketData.{outgoing, out_key, syn_with_mss, datagram}

model : Unit {0}
unfolding flow_key is_own_underlay src_ipv4 dst_ipv4 recompute_tcp_checksum segment_sum
    pseudo_header add_words fold_carries clamp_tcp_mss is_tcp_syn clamp_options walk round
model = tt

small_mss_stays : clamp_tcp_mss (syn_with_mss 3 232) 1240 ≡ some (syn_with_mss 3 232, false)
unfolding model
small_mss_stays = refl

clamps :
    clamp_tcp_mss (syn_with_mss 5 180) 1240
    ≡ some (recompute_tcp_checksum (syn_with_mss 4 216) 20, true)
unfolding model
clamps = refl

own_underlay : is_own_underlay datagram (9 ∷ 300 ∷ []) ≡ true
unfolding model
own_underlay = refl

other_port : is_own_underlay datagram (301 ∷ []) ≡ false
unfolding model
other_port = refl

tcp_is_not_underlay : is_own_underlay (outgoing 2) (51201 ∷ []) ≡ false
unfolding model
tcp_is_not_underlay = refl

outgoing_key : flow_key (outgoing 2) ≡ some out_key
unfolding model
outgoing_key = refl

bytes : IsBytes (syn_with_mss 5 180)
bytes = ground arith

clamp_tcp_mss_correct_example :
    (q : Packet) × (changed : Bool) × (clamp_tcp_mss (syn_with_mss 5 180) 1240 ≡ some (q, changed))
    × IsClamped (syn_with_mss 5 180) 1240 q changed
clamp_tcp_mss_correct_example =
    clamp_tcp_mss_correct (syn_with_mss 5 180) 1240 bytes (ground arith) (ground arith)
