-- ===== src/Tests/RosterData.antt =====
-- A small network, after `setup` in the tests of crates/ipn-core/src/roster.rs.
use nullgate.Common.{
  ℕ, zero, suc, ◌+◌, ◌*◌, ◌≡◌, refl, true, false, List, [], ◌∷◌, arith, ◌==◌, get_or, length,
}
use nullgate.Ip.{Ipv4Addr}
use nullgate.Roster.{Role, InviteKind, Op, op_ts, Entry, Config}
use nullgate.Roster.Signing.{Crypto, CryptoLaws}

abbrev pub repeat : ℕ → ℕ → List ℕ
repeat zero b = []
repeat (suc n) b = b ∷ repeat n b

length-repeat : (n b : ℕ) → length (repeat n b) ≡ n
length-repeat zero b = refl
length-repeat (suc n) b = omega (arith, length-repeat n b)

abbrev pub weigh : List ℕ → ℕ
weigh [] = 0
weigh (b ∷ bs) = b + 1000 * weigh bs

-- A stand-in for the cryptography: the key of seed `k` is `k + 1`, and a signature repeats the
-- seed.
abbrev pub toy : Crypto
toy = record {
  verifying_key = λ k. k + 1;
  sign_bytes = λ k m. repeat 64 k;
  is_key = λ k. true;
  verify_strict = λ k m s. get_or s 0 0 + 1 == k;
  view_cbor = λ v. [];
  entry_cbor = λ net signer op s. op_ts op ∷ signer ∷ [];
  blake3 = weigh;
}

pub toy-CryptoLaws : CryptoLaws toy
toy-CryptoLaws = record {
  length-sign = λ k m. length-repeat 64 k;
  is_key-key = λ k. refl;
  verify-sign = λ k m. ground arith;
}

abbrev pub subnet : Ipv4Addr
subnet = record { o0 = 10; o1 = 99; o2 = 0; o3 = 0 }

abbrev pub host : ℕ → Ipv4Addr
host h = record { o0 = 10; o1 = 99; o2 = 0; o3 = h }

abbrev pub cfg : Config
cfg = record { network_id = 9; originator_id = 2; subnet = subnet }

-- What `sign` makes with the key of seed `k`.
abbrev pub signed : ℕ → Op → Entry
signed k op = record { network_id = 9; signer = k + 1; op = op; signature = repeat 64 k }

-- Seeds: 1 is the originator's master key, 5 its device.
abbrev pub genesis : Entry
genesis = signed 1 (Op.add 6 "devo" Role.controller (host 2) 0 1)

abbrev pub peer_code : Entry
peer_code = signed 1 (Op.set_invite InviteKind.peer 7 false 2)

abbrev pub controller_code : Entry
controller_code = signed 1 (Op.set_invite InviteKind.controller 8 false 3)

-- The device admits a Peer, id 21, and a Controller, id 31.
abbrev pub joins : Entry
joins = signed 5 (Op.add 21 "phone" Role.peer (host 3) 7 4)

abbrev pub controller_joins : Entry
controller_joins = signed 5 (Op.add 31 "desk" Role.controller (host 4) 8 5)

abbrev pub second_controller : Entry
second_controller = signed 5 (Op.add 41 "rack" Role.controller (host 5) 8 6)

abbrev pub stranger_adds : Entry
stranger_adds = signed 98 (Op.add 99 "evil" Role.controller (host 9) 8 7)
