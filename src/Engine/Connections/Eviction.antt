-- ===== src/Engine/Connections/Eviction.antt =====
-- Only the close of the kept connection takes a peer offline (engine.rs: the watcher that
-- `register_mesh` spawns).
use nullgate.Common.{
  ◌==◌, ◌≡◌, ◌≢◌, ◌∙◌, refl, sym, Bool-cases, Option-cases, inl, inr, true, false, none, some,
  arith, if◌then◌else◌,
}
use nullgate.Common.HashMap.{nat_key, get, get-put, get-delete}
use nullgate.Roster.{NodeId}
use nullgate.Engine.Connections.{
  resolve_duplicate, Connection, Conns, reconcile, register_mesh, is_current, on_closed,
}
use nullgate.Engine.Connections.Agreement.{get-register}

module _ (peer other : NodeId) (ne : (peer == other) ≡ false) where
  get-register_other :
      (me : NodeId) (conn : Connection) (conns : Conns)
      → get other (register_mesh me peer conn conns).1 ≡ get other conns
  unfolding register_mesh reconcile
  get-register_other me conn conns = elim (Option-cases (get peer conns)) [
    | inl e ↦ rw (e, reconcile) (ground (arith, get-put peer other conn conns))
    | inr (w, e) ↦ rw (e, reconcile) (ground (arith, get-put peer other conn conns))
  ]

  -- What the closes of two connections do to a map that has one of them.
  Closes : Connection → Connection → Conns → Conns → Type 0
  Closes winner loser before after =
      (get peer after ≡ some winner)
      × (on_closed peer loser.stable_id after ≡ (false, after))
      × ((on_closed peer winner.stable_id after).0 ≡ true)
      × (get peer (on_closed peer winner.stable_id after).1 ≡ none)
      × (get other (on_closed peer winner.stable_id after).1 ≡ get other before)

  closes :
      (winner loser : Connection) (before after : Conns)
      → get peer after ≡ some winner
      → winner.stable_id ≢ loser.stable_id
      → get other after ≡ get other before
      → Closes winner loser before after
  unfolding on_closed Closes
  closes winner loser before after e differ same =
      let current : is_current winner.stable_id (get peer after) ≡ true = rw e (ground arith) in
      (
        e,
        rw e (ground arith),
        rw current refl,
        rw current (ground (arith, get-delete peer peer after)),
        rw current (ground (arith, get-delete peer other after, same)),
      )

-- A second connection to a peer is registered. The close of the one that loses the tie-break
-- leaves the map and the presence alone, and the close of the one that wins takes the peer
-- offline and out of the map. No call touches the entry of another peer.
pub close_of_duplicate :
    (me peer other : NodeId) (old conn : Connection) (conns : Conns)
    → get peer conns ≡ some old
    → old.stable_id ≢ conn.stable_id
    → (peer == other) ≡ false
    → let keep_new = resolve_duplicate me peer old.side old.closed conn.side in
      let winner = if keep_new then conn else old in
      let loser = if keep_new then old else conn in
      let after = (register_mesh me peer conn conns).1 in
      (get peer after ≡ some winner)
      × (on_closed peer loser.stable_id after ≡ (false, after))
      × ((on_closed peer winner.stable_id after).0 ≡ true)
      × (get peer (on_closed peer winner.stable_id after).1 ≡ none)
      × (get other (on_closed peer winner.stable_id after).1 ≡ get other conns)
unfolding Closes
close_of_duplicate me peer other old conn conns e ids ne =
    let after : Conns = (register_mesh me peer conn conns).1 in
    let same = get-register_other peer other ne me conn conns in
    elim (Bool-cases (resolve_duplicate me peer old.side old.closed conn.side)) [
      | inl new ↦
          let here : get peer after ≡ some conn =
            get-register me peer conn conns ∙ rw e (ground arith) in
          rw new (closes peer other ne conn old conns after here (λ d. ids (sym d)) same)
      | inr keep ↦
          let here : get peer after ≡ some old =
            get-register me peer conn conns ∙ rw e (ground arith) in
          rw keep (closes peer other ne old conn conns after here ids same)
    ]
