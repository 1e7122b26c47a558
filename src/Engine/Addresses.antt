-- ===== src/Engine/Addresses.antt =====
-- The addresses of this device and of a peer (crates/ipn-core/src/engine.rs: `is_private_ip`,
-- `split_local_public`, `conn_info`). An address is kept as it is, where the code prints it; the
-- addresses that iroh knows of a peer are a list.
pub mod Observed
use nullgate.Common.{
  ℕ, ◌/◌, ◌^◌, Bool, true, false, not, ◌&&◌, ◌||◌, Option, none, some, List, [], ◌∷◌, leb, ◌==◌,
  if◌then◌else◌,
}
use nullgate.Ip.{Ipv4Addr}
use nullgate.Relays.Paths.{IpAddr}

-- `Ipv4Addr::is_private`, `is_loopback` and `is_link_local`.
abbrev pub is_private_v4 : Ipv4Addr → Bool
is_private_v4 a =
    (a.o0 == 10 || (a.o0 == 172 && leb 16 a.o1 && leb a.o1 31) || (a.o0 == 192 && a.o1 == 168))
    || a.o0 == 127
    || (a.o0 == 169 && a.o1 == 254)

-- Of a v6 address, ::1, fc00::/7 and fe80::/10.
unfoldable pub is_private_ip : IpAddr → Bool
is_private_ip (IpAddr.v4 a) = is_private_v4 a
is_private_ip (IpAddr.v6 n) = n == 1 || n / 2 ^ 121 == 0x7e || n / 2 ^ 118 == 0x3fa

abbrev pub is_unspecified : IpAddr → Bool
is_unspecified (IpAddr.v4 a) = a.o0 == 0 && a.o1 == 0 && a.o2 == 0 && a.o3 == 0
is_unspecified (IpAddr.v6 n) = n == 0

-- `get_or_insert_with`.
abbrev pub get_or_insert : {A : Type 0} → Option A → A → Option A
get_or_insert none a = some a
get_or_insert (some b) a = some b

-- The first private and the first public address, after one more.
unfoldable pub note_ip : IpAddr → Option IpAddr × Option IpAddr → Option IpAddr × Option IpAddr
note_ip ip found =
    if is_private_ip ip
    then (get_or_insert found.0 ip, found.1)
    else if is_unspecified ip
    then found
    else (found.0, get_or_insert found.1 ip)

abbrev pub split_from : Option IpAddr × Option IpAddr → List IpAddr → Option IpAddr × Option IpAddr
split_from found [] = found
split_from found (ip ∷ ips) = split_from (note_ip ip found) ips

unfoldable pub split_local_public : List IpAddr → Option IpAddr × Option IpAddr
unfolding note_ip
split_local_public ips = split_from (none, none) ips

-- `TransportAddr`, and whether iroh is using it. The number after an address is the port.
pub data TransportAddr (Url : Type 0) : Type 0 where
  ip : IpAddr → ℕ → TransportAddr Url
  relay : Url → TransportAddr Url
  other : TransportAddr Url

pub record AddrInfo (Url : Type 0) : Type 0 where
  pub addr : TransportAddr Url
  pub active : Bool

pub record ConnInfo (Url : Type 0) : Type 0 where
  pub observed : Option (TransportAddr Url)
  pub direct : Option Bool
  pub local_ip : Option IpAddr
  pub public_ip : Option IpAddr

-- What the loop of `conn_info` carries.
pub record Seen (Url : Type 0) : Type 0 where
  pub found : Option IpAddr × Option IpAddr
  pub observed : Option (TransportAddr Url)
  pub has_direct : Bool
  pub has_relay : Bool

abbrev pub direct_of : Bool → Bool → Option Bool
direct_of true has_relay = some true
direct_of false true = some false
direct_of false false = none

module _ {Url : Type 0} where
  abbrev pub nothing_seen : Seen Url
  nothing_seen = record {
    found = (none, none);
    observed = none;
    has_direct = false;
    has_relay = false;
  }

  -- One address, by whether it is active.
  unfoldable pub see : TransportAddr Url → Bool → Seen Url → Seen Url
  unfolding note_ip
  see (TransportAddr.ip a port) active s =
      let s' = record s { found = note_ip a s.found } in
      if active
      then record s' { has_direct = true; observed = some (TransportAddr.ip a port) }
      else s'
  see (TransportAddr.relay url) true s = record s {
    has_relay = true;
    observed = get_or_insert s.observed (TransportAddr.relay url);
  }
  see (TransportAddr.relay url) false s = s
  see TransportAddr.other active s = s

  unfoldable pub see_all : List (AddrInfo Url) → Seen Url → Seen Url
  unfolding see
  see_all [] s = s
  see_all (a ∷ addrs) s = see_all addrs (see a.addr a.active s)

  unfoldable pub conn_info : List (AddrInfo Url) → ConnInfo Url
  unfolding see_all
  conn_info addrs =
      let s = see_all addrs nothing_seen in
      record {
        observed = s.observed;
        direct = direct_of s.has_direct s.has_relay;
        local_ip = s.found.0;
        public_ip = s.found.1;
      }
