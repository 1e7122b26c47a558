-- ===== src/Relays/Paths.antt =====
-- Paths, their keys and the selector (relays.rs: `PreferredRelays`, `VirtualSubnet`, `is_looped`,
-- `path_tier`, `biased_rtt`, `should_switch`, `PreferMyRelaySelector`). iroh's paths are the
-- parameter `P`, of which the code reads what `look` shows. The shared cells are arguments.
use nullgate.Common.{
  ℕ, ◌+◌, ◌*◌, ◌/◌, ◌%◌, ◌^◌, ltb, ◌==◌, Bool, true, false, not, ◌&&◌, ◌||◌, Option, none, some,
  List, [], ◌∷◌, if◌then◌else◌,
}
use nullgate.Common.HashMap.{Key}
use nullgate.Common.Integers.{ℤ, pos, lez, ltz, add_nat, sub_nat}
use nullgate.Relays.{has_url}
use nullgate.Ip.{Ipv4Addr}

-- `u32::from`.
abbrev pub to_bits : Ipv4Addr → ℕ
to_bits a = ((a.o0 * 2 ^ 8 + a.o1) * 2 ^ 8 + a.o2) * 2 ^ 8 + a.o3

-- A v6 address is its 128-bit number.
pub data IpAddr : Type 0 where
  v4 : Ipv4Addr → IpAddr
  v6 : ℕ → IpAddr

-- The bits of `to_ipv4_mapped`, for the addresses ::ffff:0:0/96.
abbrev pub to_ipv4_mapped : ℕ → Option ℕ
to_ipv4_mapped n = if n / 2 ^ 32 == 65535 then some (n % 2 ^ 32) else none

abbrev pub v4_bits : IpAddr → Option ℕ
v4_bits (IpAddr.v4 a) = some (to_bits a)
v4_bits (IpAddr.v6 n) = to_ipv4_mapped n

-- `x & 0xffff_ff00` on a `u32`.
abbrev pub network_bits : ℕ → ℕ
network_bits x = x / 2 ^ 8 * 2 ^ 8

abbrev pub same_network : ℕ → Option ℕ → Bool
same_network base none = false
same_network base (some ip) = network_bits ip == network_bits base

-- The cell `VirtualSubnet` holds the base address, or 0 if no network is active.
unfoldable pub set_subnet : Ipv4Addr → ℕ
set_subnet subnet = to_bits subnet

abbrev pub clear_subnet : ℕ
clear_subnet = 0

unfoldable pub subnet_contains : ℕ → IpAddr → Bool
subnet_contains base ip = if base == 0 then false else same_network base (v4_bits ip)

-- The tier and the biased round-trip time.
pub record PathKey : Type 0 where
  pub tier : ℕ
  pub bias : ℤ

-- `<` on the pairs.
abbrev pub key_lt : PathKey → PathKey → Bool
key_lt a b = ltb a.tier b.tier || (a.tier == b.tier && ltz a.bias b.bias)

abbrev pub ipv6_rtt_advantage_ns : ℕ
ipv6_rtt_advantage_ns = 3_000_000

abbrev pub rtt_switching_min_ns : ℕ
rtt_switching_min_ns = 5_000_000

unfoldable pub should_switch : PathKey → PathKey → Bool
should_switch current best =
    if not (best.tier == current.tier)
    then ltb best.tier current.tier
    else lez (add_nat best.bias rtt_switching_min_ns) current.bias

-- What the code reads of a path: its relay, or the address of its remote.
pub data PathView (Url : Type 0) : Type 0 where
  relay : Url → PathView Url
  ip : IpAddr → PathView Url
  other : PathView Url

module _ {Url P : Type 0} ⦃same_url : Key Url⦄ ⦃same_path : Key P⦄ (look : P → PathView Url) where
  abbrev pub looped_view : ℕ → PathView Url → Bool
  looped_view subnet (PathView.ip remote) = subnet_contains subnet remote
  looped_view subnet _ = false

  unfoldable pub is_looped : ℕ → P → Bool
  is_looped subnet path = looped_view subnet (look path)

  abbrev pub view_tier : List Url → PathView Url → ℕ
  view_tier preferred (PathView.relay url) = if has_url url preferred then 1 else 2
  view_tier preferred _ = 0

  unfoldable pub path_tier : List Url → P → ℕ
  path_tier preferred path = view_tier preferred (look path)

  abbrev pub view_rtt : PathView Url → ℕ → ℤ
  view_rtt (PathView.ip (IpAddr.v6 a)) rtt = sub_nat (pos rtt) ipv6_rtt_advantage_ns
  view_rtt _ rtt = pos rtt

  unfoldable pub biased_rtt : P → ℕ → ℤ
  biased_rtt path rtt = view_rtt (look path) rtt

  abbrev pub path_key : List Url → P → ℕ → PathKey
  path_key preferred path rtt = record {
    tier = path_tier preferred path;
    bias = biased_rtt path rtt;
  }

  -- The two variables of the loop.
  pub record Search : Type 0 where
    pub best : Option (P × PathKey)
    pub current_key : Option PathKey

  abbrev pub is_in_use : Option P → P → Bool
  is_in_use none path = false
  is_in_use (some cur) path = same_path.beq path cur

  abbrev pub below_key : PathKey → Option PathKey → Bool
  below_key key none = true
  below_key key (some c) = key_lt key c

  abbrev pub below_best : PathKey → Option (P × PathKey) → Bool
  below_best key none = true
  below_best key (some (p, b)) = key_lt key b

  unfoldable pub consider : Option P → P → PathKey → Search → Search
  consider current path key s = record {
    best = if below_best key s.best then some (path, key) else s.best;
    current_key =
        if is_in_use current path && below_key key s.current_key then some key else s.current_key;
  }

  -- A path with its round-trip time, if its statistics are still there.
  unfoldable pub search : List Url → ℕ → Option P → List (P × Option ℕ) → Search → Search
  search preferred subnet current [] s = s
  search preferred subnet current ((path, none) ∷ more) s = search preferred subnet current more s
  search preferred subnet current ((path, some rtt) ∷ more) s =
      search preferred subnet current more
        (if is_looped subnet path then s else consider current path (path_key preferred path rtt) s)

  abbrev pub decide : Option (P × PathKey) → Option PathKey → Option P
  decide none current = none
  decide (some (path, best)) none = some path
  decide (some (path, best)) (some cur) = if should_switch cur best then some path else none

  -- The path that the selection sets, if it sets one.
  unfoldable pub select : List Url → ℕ → Option P → List (P × Option ℕ) → Option P
  select preferred subnet current paths =
      let s = search preferred subnet current paths (record { best = none; current_key = none }) in
      decide s.best s.current_key
