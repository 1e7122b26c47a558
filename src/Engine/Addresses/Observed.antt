-- ===== src/Engine/Addresses/Observed.antt =====
-- What is shown of the path to a peer (crates/ipn-core/src/engine.rs: `conn_info`).
use nullgate.Common.{
  ◌≡◌, refl, ap₂, Bool, true, false, not, ◌&&◌, ◌||◌, Option, none, some, List, [], ◌∷◌, arith,
  if◌then◌else◌,
}
use nullgate.Relays.Paths.{IpAddr}
use nullgate.Engine.Addresses.{
  is_private_ip, is_unspecified, get_or_insert, note_ip, split_from, split_local_public,
  TransportAddr, AddrInfo, Seen, nothing_seen, see, see_all, direct_of, conn_info,
}

-- The first address of the list that passes the test.
abbrev pub first_ip : (IpAddr → Bool) → List IpAddr → Option IpAddr
first_ip p [] = none
first_ip p (ip ∷ ips) = let later = first_ip p ips in if p ip then some ip else later

abbrev pub is_public_ip : IpAddr → Bool
is_public_ip ip = not (is_private_ip ip) && not (is_unspecified ip)

abbrev or_first : {A : Type 0} → Option A → Option A → Option A
or_first none later = later
or_first (some a) later = some a

split_from-first :
    (ips : List IpAddr) (a b : Option IpAddr)
    → split_from (a, b) ips
      ≡ (or_first a (first_ip is_private_ip ips), or_first b (first_ip is_public_ip ips))
unfolding note_ip
split_from-first [] a b = ground arith
split_from-first (ip ∷ ips) a b = ground (
  arith,
  split_from-first ips (get_or_insert a ip) b,
  split_from-first ips a (get_or_insert b ip),
  split_from-first ips a b,
)

-- The local address of this device is the first of its addresses that is private, and the public
-- one is the first that is neither private nor unspecified.
pub split_local_public_lem :
    (ips : List IpAddr)
    → split_local_public ips ≡ (first_ip is_private_ip ips, first_ip is_public_ip ips)
unfolding split_local_public
split_local_public_lem ips = split_from-first ips none none

module _ {Url : Type 0} where
  abbrev pub shows_ip : TransportAddr Url → Bool → Bool
  shows_ip (TransportAddr.ip a port) active = active
  shows_ip _ active = false

  abbrev pub shows_relay : TransportAddr Url → Bool → Bool
  shows_relay (TransportAddr.relay url) active = active
  shows_relay _ active = false

  -- Whether an address of a socket, or a relay, is in use.
  abbrev pub any_ip : List (AddrInfo Url) → Bool
  any_ip [] = false
  any_ip (a ∷ addrs) = shows_ip a.addr a.active || any_ip addrs

  abbrev pub any_relay : List (AddrInfo Url) → Bool
  any_relay [] = false
  any_relay (a ∷ addrs) = shows_relay a.addr a.active || any_relay addrs

  -- The address that is shown is one of a socket if any is in use, and else a relay if one is.
  abbrev pub Agrees : Bool → Bool → Option (TransportAddr Url) → Type 0
  Agrees has_direct has_relay none = (has_direct ≡ false) × (has_relay ≡ false)
  Agrees has_direct has_relay (some (TransportAddr.ip a port)) = has_direct ≡ true
  Agrees has_direct has_relay (some (TransportAddr.relay url)) =
      (has_direct ≡ false) × (has_relay ≡ true)
  Agrees has_direct has_relay (some TransportAddr.other) = ⊥

  relay-Agrees :
      (url : Url) (has_direct has_relay : Bool) (o : Option (TransportAddr Url))
      → Agrees has_direct has_relay o
      → Agrees has_direct true (get_or_insert o (TransportAddr.relay url))
  relay-Agrees url has_direct has_relay none h = (h.0, refl)
  relay-Agrees url has_direct has_relay (some (TransportAddr.ip a port)) h = h
  relay-Agrees url has_direct has_relay (some (TransportAddr.relay other_url)) h = (h.0, refl)
  relay-Agrees url has_direct has_relay (some TransportAddr.other) h = absurd h

  see-Agrees :
      (a : TransportAddr Url) (active : Bool) (s : Seen Url)
      → Agrees s.has_direct s.has_relay s.observed
      → Agrees (see a active s).has_direct (see a active s).has_relay (see a active s).observed
  unfolding see
  see-Agrees (TransportAddr.ip a port) true s h = refl
  see-Agrees (TransportAddr.ip a port) false s h = h
  see-Agrees (TransportAddr.relay url) true s h =
      relay-Agrees url s.has_direct s.has_relay s.observed h
  see-Agrees (TransportAddr.relay url) false s h = h
  see-Agrees TransportAddr.other active s h = h

  see-flags :
      (a : TransportAddr Url) (active : Bool) (s : Seen Url)
      → ((see a active s).has_direct ≡ s.has_direct || shows_ip a active)
        × ((see a active s).has_relay ≡ s.has_relay || shows_relay a active)
  unfolding see
  see-flags (TransportAddr.ip a port) true s = ground arith
  see-flags (TransportAddr.ip a port) false s = ground arith
  see-flags (TransportAddr.relay url) true s = ground arith
  see-flags (TransportAddr.relay url) false s = ground arith
  see-flags TransportAddr.other active s = ground arith

  see_all-Agrees :
      (addrs : List (AddrInfo Url)) (s : Seen Url)
      → Agrees s.has_direct s.has_relay s.observed
      → let r = see_all addrs s in
        Agrees r.has_direct r.has_relay r.observed
        × (r.has_direct ≡ s.has_direct || any_ip addrs)
        × (r.has_relay ≡ s.has_relay || any_relay addrs)
  unfolding see_all
  see_all-Agrees [] s h = (h, ground arith, ground arith)
  see_all-Agrees (a ∷ addrs) s h =
      let (agrees, ips, relays) =
        see_all-Agrees addrs (see a.addr a.active s) (see-Agrees a.addr a.active s h) in
      let (direct, through) = see-flags a.addr a.active s in (agrees, ground arith, ground arith)

  -- A peer is shown as direct exactly when an address of a socket is in use, and as relayed exactly
  -- when none is but a relay is. The address shown for it is of that kind, and there is one
  -- exactly if one of the two holds.
  pub conn_info_lem :
      (addrs : List (AddrInfo Url))
      → ((conn_info addrs).direct ≡ direct_of (any_ip addrs) (any_relay addrs))
        × Agrees (any_ip addrs) (any_relay addrs) (conn_info addrs).observed
  unfolding conn_info
  conn_info_lem addrs =
      let (agrees, ips, relays) = see_all-Agrees addrs nothing_seen (refl, refl) in
      (ap₂ direct_of ips relays, rw (ips, relays) at agrees)
