-- ===== src/Routes.antt =====
-- The route table (crates/ipn-core/src/router.rs: `RouteTable`).
pub mod Delivery
use nullgate.Common.{ℕ, Option, List, [], ◌∷◌, Bool, true, false, ◌==◌, length}
use nullgate.Common.HashMap.{Key, get, put}
use nullgate.Ip.{Ipv4Addr, ip_eq, ip_eq_iff}
use nullgate.Roster.{NodeId, Member, Roster}

instance abbrev pub ip_key : Key Ipv4Addr
ip_key = record { beq = ip_eq; beq_iff = ip_eq_iff }

pub record RouteTable : Type 0 where
  pub by_ip : List (Ipv4Addr × NodeId)

-- The loop over the members.
unfoldable pub insert_all :
    List (NodeId × Member) → List (Ipv4Addr × NodeId) → List (Ipv4Addr × NodeId)
insert_all [] by_ip = by_ip
insert_all ((id, member) ∷ more) by_ip = insert_all more (put member.virtual_ip id by_ip)

unfoldable pub from_roster : Roster → RouteTable
from_roster roster = record { by_ip = insert_all roster.members [] }

unfoldable pub route : RouteTable → Ipv4Addr → Option NodeId
route table ip = get ip table.by_ip

abbrev pub route_count : RouteTable → ℕ
route_count table = length table.by_ip
