-- ===== src/Roster/Addresses.antt =====
-- The virtual addresses (roster.rs: `assign_ips`, `lowest_free_host`). The loop over the hosts
-- that are taken is counted: it makes 253 steps at most, as the source's `tries` does.
pub mod Probe
pub mod Place
pub mod Unique
pub mod Static
pub mod Lowest
use nullgate.Common.{
  ℕ, zero, suc, ◌+◌, ◌≤◌, Bool, true, false, ◌&&◌, ◌||◌, Option, none, some, List, [], ◌∷◌, ltb,
  leb, ◌==◌, if◌then◌else◌,
}
use nullgate.Common.Maps.{Map, IdSet, lookup, modify, contains}
use nullgate.Ip.{Ipv4Addr}
use nullgate.Roster.{NodeId, Member, Roster}
use mathlib.Core.Option

pub record Slot : Type 0 where
  pub ts : ℕ
  pub id : NodeId
  pub host : ℕ

unfoldable pub slots : Map ℕ → Map Member → List Slot
slots admitted [] = []
slots admitted ((id, m) ∷ ms) =
    record { ts = Option.get_or (lookup id admitted) 0; id = id; host = m.virtual_ip.o3 }
    ∷ slots admitted ms

-- The order of `(ts, id)`.
abbrev pub slot_le : Slot → Slot → Bool
slot_le a b = ltb a.ts b.ts || (a.ts == b.ts && leb a.id b.id)

unfoldable pub insert_slot : Slot → List Slot → List Slot
insert_slot s [] = s ∷ []
insert_slot s (t ∷ ts) = if slot_le s t then s ∷ t ∷ ts else t ∷ insert_slot s ts

unfoldable pub sort_slots : List Slot → List Slot
unfolding insert_slot
sort_slots [] = []
sort_slots (s ∷ ss) = insert_slot s (sort_slots ss)

abbrev pub first_try : ℕ → ℕ
first_try recorded = if leb 2 recorded && leb recorded 254 then recorded else 2

abbrev pub next_host : ℕ → ℕ
next_host host = if leb 254 host then 2 else host + 1

-- `probe left`: `left` more tries are allowed.
unfoldable pub probe : ℕ → IdSet → ℕ → ℕ
probe zero taken host = host
probe (suc left) taken host =
    let rest = probe left taken (next_host host) in if contains host taken then rest else host

abbrev pub in_subnet : Ipv4Addr → ℕ → Ipv4Addr
in_subnet subnet host = record subnet { o3 = host }

abbrev pub settle : Ipv4Addr → ℕ → Member → Member
settle subnet host m = record m { virtual_ip = in_subnet subnet host }

unfoldable pub assign : Ipv4Addr → List Slot → IdSet → Map Member → Map Member
assign subnet [] taken members = members
assign subnet (s ∷ ss) taken members =
    let host = probe 253 taken (first_try s.host) in
    assign subnet ss (host ∷ taken) (modify s.id (settle subnet host) members)

unfoldable pub assign_ips : Map Member → Map ℕ → Ipv4Addr → Map Member
unfolding assign slots sort_slots
assign_ips members admitted subnet = assign subnet (sort_slots (slots admitted members)) [] members

-- `(2u8..=254).find(…)`, from `h` on, with `n` hosts left to try.
unfoldable pub find_free : ℕ → ℕ → IdSet → Option ℕ
find_free zero h taken = none
find_free (suc n) h taken =
    let rest = find_free n (h + 1) taken in if contains h taken then rest else some h

unfoldable pub hosts : Map Member → IdSet
hosts [] = []
hosts ((id, m) ∷ ms) = m.virtual_ip.o3 ∷ hosts ms

unfoldable pub lowest_free_host : Roster → Ipv4Addr → Ipv4Addr
unfolding find_free hosts
lowest_free_host r subnet = in_subnet subnet (Option.get_or (find_free 253 2 (hosts r.members)) 254)
