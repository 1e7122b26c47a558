-- ===== src/Engine/Connections.antt =====
-- Mesh connections (engine.rs: `resolve_duplicate`, `register_mesh` and the watcher that it spawns).
-- A connection is the facts that the code reads of it: iroh's stable id, which side opened it, and
-- whether it is closed.
pub mod Agreement
pub mod Eviction
use nullgate.Common.{
  ℕ, ltb, bool_eq, ◌==◌, Bool, true, false, not, Option, none, some, List, [], ◌∷◌, if◌then◌else◌,
}
use nullgate.Common.HashMap.{nat_key, get, put, delete}
use nullgate.Roster.{NodeId}

pub data Side : Type 0 where
  client server : Side

abbrev pub side_eq : Side → Side → Bool
side_eq Side.client Side.client = true
side_eq Side.server Side.server = true
side_eq _ _ = false

unfoldable pub resolve_duplicate : NodeId → NodeId → Side → Bool → Side → Bool
resolve_duplicate my_id peer existing_side existing_closed new_side =
    if existing_closed
    then true
    else if side_eq existing_side new_side
    then true
    else let new_initiator_is_me = side_eq new_side Side.client in
      let i_am_lower = ltb my_id peer in bool_eq new_initiator_is_me i_am_lower

pub record Connection : Type 0 where
  pub stable_id : ℕ
  pub side : Side
  pub closed : Bool

abbrev pub opened : ℕ → Side → Connection
opened id side = record { stable_id = id; side = side; closed = false }

abbrev pub Conns : Type 0
Conns = List (NodeId × Connection)

pub data DupVerdict : Type 0 where
  fresh : DupVerdict
  replace_old : Connection → DupVerdict
  keep_existing : DupVerdict

-- The decision that `register_mesh` makes under the lock.
unfoldable pub reconcile : NodeId → NodeId → Connection → Option Connection → DupVerdict
reconcile my_id peer conn none = DupVerdict.fresh
reconcile my_id peer conn (some existing) =
    if existing.stable_id == conn.stable_id
    then DupVerdict.keep_existing
    else if resolve_duplicate my_id peer existing.side existing.closed conn.side
    then DupVerdict.replace_old existing
    else DupVerdict.keep_existing

-- The map after the decision.
abbrev pub registered : NodeId → Connection → DupVerdict → Conns → Conns
registered peer conn DupVerdict.fresh conns = put peer conn conns
registered peer conn (DupVerdict.replace_old old) conns = put peer conn conns
registered peer conn DupVerdict.keep_existing conns = conns

unfoldable pub register_mesh : NodeId → NodeId → Connection → Conns → DupVerdict × Conns
register_mesh my_id peer conn conns =
    let verdict = reconcile my_id peer conn (get peer conns) in
    (verdict, registered peer conn verdict conns)

abbrev pub is_current : ℕ → Option Connection → Bool
is_current id none = false
is_current id (some cur) = cur.stable_id == id

-- When the connection `id` of `peer` closes: whether the peer goes offline, and the map.
unfoldable pub on_closed : NodeId → ℕ → Conns → Bool × Conns
on_closed peer id conns =
    if is_current id (get peer conns) then (true, delete peer conns) else (false, conns)
