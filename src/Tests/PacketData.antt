-- ===== src/Tests/PacketData.antt =====
-- Packets of the unit tests (crates/ipn-core/src/router.rs and conntrack.rs).
use nullgate.Common.{ℕ, [], ◌∷◌, ◌++◌}
use nullgate.Ip.{Ipv4Addr}
use nullgate.Packet.{Packet, FlowKey}

abbrev pub me : Ipv4Addr
me = record { o0 = 10; o1 = 99; o2 = 0; o3 = 2 }

abbrev pub peer : Ipv4Addr
peer = record { o0 = 10; o1 = 99; o2 = 0; o3 = 5 }

-- A header of 20 bytes, with the protocol and the two last bytes of the addresses.
abbrev pub header : ℕ → ℕ → ℕ → Packet
header proto s d =
    69 ∷ 0 ∷ 0 ∷ 0 ∷ 0 ∷ 0 ∷ 0 ∷ 0 ∷ 0 ∷ proto ∷ 0 ∷ 0 ∷ 10 ∷ 99 ∷ 0 ∷ s ∷ 10 ∷ 99 ∷ 0 ∷ d ∷ []

-- A TCP packet between the ports 200 * 256 + 1 and 22.
abbrev pub outgoing : ℕ → Packet
outgoing flags =
    header 6 2 5
    ++ (200 ∷ 1 ∷ 0 ∷ 22 ∷ 0 ∷ 0 ∷ 0 ∷ 0 ∷ 0 ∷ 0 ∷ 0 ∷ 0 ∷ 80 ∷ flags ∷ 0 ∷ 0 ∷ 0 ∷ 0 ∷ 0 ∷ 0 ∷ [])

abbrev pub incoming : ℕ → Packet
incoming flags =
    header 6 5 2
    ++ (0 ∷ 22 ∷ 200 ∷ 1 ∷ 0 ∷ 0 ∷ 0 ∷ 0 ∷ 0 ∷ 0 ∷ 0 ∷ 0 ∷ 80 ∷ flags ∷ 0 ∷ 0 ∷ 0 ∷ 0 ∷ 0 ∷ 0 ∷ [])

abbrev pub out_key : FlowKey
out_key = record { src = me; dst = peer; proto = 6; src_port = 51201; dst_port = 22 }

abbrev pub back_key : FlowKey
back_key = record { src = peer; dst = me; proto = 6; src_port = 22; dst_port = 51201 }

-- A SYN with an MSS option.
abbrev pub syn_with_mss : ℕ → ℕ → Packet
syn_with_mss hi lo =
    header 6 2 7
    ++ (0 ∷ 0 ∷ 0 ∷ 0 ∷ 0 ∷ 0 ∷ 0 ∷ 0 ∷ 0 ∷ 0 ∷ 0 ∷ 0 ∷ 96 ∷ 2 ∷ 0 ∷ 0 ∷ 0 ∷ 0 ∷ 0 ∷ 0 ∷ 2 ∷ 4 ∷ hi
        ∷ lo ∷ [])

-- A UDP packet from port 1 * 256 + 44.
abbrev pub datagram : Packet
datagram = header 17 2 5 ++ (1 ∷ 44 ∷ 0 ∷ 53 ∷ [])
