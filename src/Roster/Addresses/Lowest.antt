-- ===== src/Roster/Addresses/Lowest.antt =====
-- The address an admitter picks (roster.rs: `lowest_free_host`), and what the fold makes of it.
use nullgate.Common.{
  ℕ, zero, suc, ◌+◌, ◌≤◌, ◌<◌, ◌≡◌, ◌≢◌, ◌∙◌, refl, ap, true, false, none, some, [], ◌∷◌, arith,
  ◌==◌, if◌then◌else◌, length, Option-cases, Bool-cases, inl, inr,
}
use nullgate.Common.Maps.{Map, IdSet, lookup, insert, contains, IsSorted, insert-IsSorted}
use nullgate.Common.Maps.{lookup-insert}
use nullgate.Common.Sets.{length-ge_of_range}
use nullgate.Ip.{Ipv4Addr}
use nullgate.Roster.{NodeId, Member, Roster}
use nullgate.Roster.Addresses.{in_subnet, assign_ips, find_free, hosts, lowest_free_host}
use nullgate.Roster.Addresses.Probe.{InRange}
use nullgate.Roster.Addresses.Static.{OwnHosts, lookup-assign_ips_own}

-- `x` is the first free number from `h` on.
pub record IsFirstFree (h : ℕ) (taken : IdSet) (x : ℕ) : Type 0 where
  pub from : h ≤ x
  pub free : contains x taken ≡ false
  pub least : (y : ℕ) → h ≤ y → y < x → contains y taken ≡ true

find_free-some :
    (n h : ℕ) (taken : IdSet) (x : ℕ)
    → find_free n h taken ≡ some x
    → IsFirstFree h taken x × (x < h + n)
unfolding find_free
find_free-some zero h taken x e = cc
find_free-some (suc n) h taken x e = elim (Bool-cases (contains h taken)) [
  | inl hit ↦
      let (first, below) = find_free-some n (h + 1) taken x (ground arith) in
      (
        record {
          from = omega (arith, first.from);
          free = first.free;
          least = λ y p q. ground (arith, first.least y);
        },
        omega arith,
      )
  | inr miss ↦
      let here : h ≡ x = ground arith in
      (
        record { from = omega arith; free = ground arith; least = λ y p q. absurd (omega arith) },
        omega arith,
      )
]

find_free-none :
    (n h : ℕ) (taken : IdSet) (x : ℕ)
    → find_free n h taken ≡ none
    → h ≤ x
    → x < h + n
    → contains x taken ≡ true
unfolding find_free
find_free-none zero h taken x e p q = absurd (omega arith)
find_free-none (suc n) h taken x e p q = ground (arith, find_free-none n (h + 1) taken x)

length-hosts : (ms : Map Member) → length (hosts ms) ≡ length ms
unfolding hosts
length-hosts [] = refl
length-hosts ((id, m) ∷ ms) = ap suc (length-hosts ms)

-- While a network has fewer than 253 members, `lowest_free_host` picks an address of the subnet
-- with its last octet in 2..=254 that no member has recorded, and the lowest such.
pub lowest_free_host_lem :
    (r : Roster) (subnet : Ipv4Addr)
    → length r.members < 253
    → (x : ℕ) × (lowest_free_host r subnet ≡ in_subnet subnet x)
      × InRange x
      × IsFirstFree 2 (hosts r.members) x
unfolding lowest_free_host
lowest_free_host_lem r subnet few = elim (Option-cases (find_free 253 2 (hosts r.members))) [
  | inl full ↦ absurd (
      omega (
        arith,
        length-ge_of_range 253 2 (hosts r.members)
            (λ x. find_free-none 253 2 (hosts r.members) x full),
        length-hosts r.members,
      ))
  | inr (x, e) ↦
      let (first, below) = find_free-some 253 2 (hosts r.members) x e in
      (x, rw e, (first.from, omega arith), first)
]

contains-hosts-insert :
    (id : NodeId) (m : Member) (ms : Map Member) (h : ℕ)
    → lookup id ms ≡ none
    → contains h (hosts (insert id m ms))
      ≡ (if m.virtual_ip.o3 == h then true else contains h (hosts ms))
unfolding hosts insert lookup
contains-hosts-insert id m [] h e = refl
contains-hosts-insert id m ((j, n) ∷ ms) h e = ground (arith, contains-hosts-insert id m ms h)

insert-OwnHosts :
    (id : NodeId) (m : Member) (ms : Map Member)
    → lookup id ms ≡ none
    → InRange m.virtual_ip.o3
    → contains m.virtual_ip.o3 (hosts ms) ≡ false
    → OwnHosts ms
    → OwnHosts (insert id m ms)
unfolding insert hosts lookup
insert-OwnHosts id m [] e r f o = (r, refl, tt)
insert-OwnHosts id m ((j, n) ∷ ms) e r f o =
    ground (arith, insert-OwnHosts id m ms, contains-hosts-insert id m ms n.virtual_ip.o3)

-- A new member who is admitted at `lowest_free_host` gets exactly that address, and no address
-- of another member moves, if there are fewer than 253 members and each has recorded a valid
-- host of its own. Then the same holds of the new member too.
pub admit_keeps_addresses :
    (r : Roster) (subnet : Ipv4Addr) (admitted admitted' : Map ℕ) (id : NodeId) (m : Member)
    → IsSorted r.members
    → OwnHosts r.members
    → length r.members < 253
    → lookup id r.members ≡ none
    → m.virtual_ip ≡ lowest_free_host r subnet
    → let members' = insert id m r.members in
      (lookup id (assign_ips members' admitted' subnet) ≡ some m)
      × ((i : NodeId)
          → i ≢ id
          → lookup i (assign_ips members' admitted' subnet)
            ≡ lookup i (assign_ips r.members admitted subnet))
      × OwnHosts members'
admit_keeps_addresses r subnet admitted admitted' id m s o few new ip =
    let (x, e, range, first) = lowest_free_host_lem r subnet few in
    let host : m.virtual_ip ≡ in_subnet subnet x = ip ∙ e in
    let octet : m.virtual_ip.o3 ≡ x = ap (λ a. a.o3) host in
    let s' = insert-IsSorted id m r.members s in
    let o' : OwnHosts (insert id m r.members) =
      insert-OwnHosts id m r.members new (rw octet range) (rw octet first.free) o in
    (
      ground (
        arith,
        lookup-assign_ips_own subnet admitted' (insert id m r.members) id s' o',
        lookup-insert id id m r.members,
        host,
        octet,
      ),
      λ i ne. ground (
        arith,
        lookup-assign_ips_own subnet admitted' (insert id m r.members) i s' o',
        lookup-assign_ips_own subnet admitted r.members i s o,
        lookup-insert id i m r.members,
      ),
      o',
    )
