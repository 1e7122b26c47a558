-- ===== src/Engine/Connections/Agreement.antt =====
-- Both ends of a double dial keep the same connection (engine.rs: `resolve_duplicate`).
use nullgate.Common.{
  ℕ, ltb, ◌==◌, ◌≡◌, ◌≢◌, sym, ◌∙◌, Bool, true, false, Option, none, some, arith, Option-cases, inl,
  inr, if◌then◌else◌,
}
use nullgate.Common.HashMap.{nat_key, get, get-put}
use nullgate.Roster.{NodeId}
use nullgate.Engine.Connections.{
  Side, resolve_duplicate, Connection, Conns, opened, reconcile, register_mesh,
}

-- The entry of the peer after `register_mesh`.
abbrev pub outcome : NodeId → NodeId → Connection → Option Connection → Connection
outcome me peer conn none = conn
outcome me peer conn (some existing) =
    if existing.stable_id == conn.stable_id
    then existing
    else if resolve_duplicate me peer existing.side existing.closed conn.side
    then conn
    else existing

pub get-register :
    (me peer : NodeId) (conn : Connection) (conns : Conns)
    → get peer (register_mesh me peer conn conns).1 ≡ some (outcome me peer conn (get peer conns))
unfolding register_mesh reconcile
get-register me peer conn conns = elim (Option-cases (get peer conns)) [
  | inl e ↦ rw (e, reconcile) (ground (arith, e, get-put peer peer conn conns))
  | inr (w, e) ↦ rw (e, reconcile) (ground (arith, e, get-put peer peer conn conns))
]

-- One end registers two connections to a peer, the second first if `swapped`.
abbrev pub both : NodeId → NodeId → Bool → Connection → Connection → Conns → Conns
both me peer swapped x y conns =
    if swapped
    then (register_mesh me peer x (register_mesh me peer y conns).1).1
    else (register_mesh me peer y (register_mesh me peer x conns).1).1

get-both :
    (me peer : NodeId) (swapped : Bool) (i j : ℕ) (conns : Conns)
    → me ≢ peer
    → i ≢ j
    → get peer conns ≡ none
    → get peer (both me peer swapped (opened i Side.client) (opened j Side.server) conns)
      ≡ some (if ltb me peer then opened i Side.client else opened j Side.server)
unfolding resolve_duplicate
get-both me peer true i j conns ne ids none_yet =
    let x : Connection = opened i Side.client in
    let y : Connection = opened j Side.server in
    rw
      (
        get-register me peer x (register_mesh me peer y conns).1,
        get-register me peer y conns,
        none_yet,
      )
      (ground arith)
get-both me peer false i j conns ne ids none_yet =
    let x : Connection = opened i Side.client in
    let y : Connection = opened j Side.server in
    rw
      (
        get-register me peer y (register_mesh me peer x conns).1,
        get-register me peer x conns,
        none_yet,
      )
      (ground arith)

-- Two ends dial each other, and each registers both open connections, in whichever order they
-- reach it. Then both ends keep the connection that the end with the lower id opened: it is `i`
-- at the end `a` that opened it and `k` at `b`, or it is `l` at the end `b` and `j` at `a`.
pub double_dial_agrees :
    (a b : NodeId) (i j k l : ℕ) (swapped_a swapped_b : Bool) (at_a at_b : Conns)
    → a ≢ b
    → i ≢ j
    → k ≢ l
    → get b at_a ≡ none
    → get a at_b ≡ none
    → (get b (both a b swapped_a (opened i Side.client) (opened j Side.server) at_a)
        ≡ some (if ltb a b then opened i Side.client else opened j Side.server))
      × (get a (both b a swapped_b (opened l Side.client) (opened k Side.server) at_b)
          ≡ some (if ltb a b then opened k Side.server else opened l Side.client))
double_dial_agrees a b i j k l swapped_a swapped_b at_a at_b ne ids ids' none_a none_b = (
  get-both a b swapped_a i j at_a ne ids none_a,
  get-both b a swapped_b l k at_b (λ e. ne (sym e)) (λ e. ids' (sym e)) none_b ∙ ground arith,
)
