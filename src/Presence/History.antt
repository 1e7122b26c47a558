-- ===== src/Presence/History.antt =====
-- When a peer was last seen, after any calls (presence.rs: `PresenceTracker`).
use nullgate.Common.{ℕ, ◌≡◌, refl, Option, some, List, [], ◌∷◌, ltb, ◌==◌, if◌then◌else◌, arith}
use nullgate.Common.HashMap.{Key}
use nullgate.Ip.{Ipv4Addr}
use nullgate.Roster.{NodeId}
use nullgate.Presence.{
  PeerStatus, Heartbeat, Observation, heard, observed, Tracker, entry, record_heartbeat,
  set_last_seen, record_connection, set_virtual_ip, set_location,
}
use nullgate.Presence.Changes.{entry-put}

-- A call that changes the tracker.
pub data Call (Text : Type 0) : Type 0 where
  heartbeat : NodeId → Heartbeat Text → Call Text
  seed : NodeId → ℕ → Call Text
  connection : NodeId → Observation Text → Call Text
  address : NodeId → Ipv4Addr → Call Text
  location : NodeId → Option Text → Call Text

abbrev pub later : ℕ → ℕ → ℕ
later a b = if ltb a b then b else a

-- What one call means for the time at which the peer `q` was last seen.
abbrev pub moved : {Text : Type 0} → NodeId → ℕ → Call Text → ℕ
moved q seen (heartbeat node h) = if node == q then later seen h.ts else seen
moved q seen (seed node ts) = if node == q then later seen ts else seen
moved q seen _ = seen

-- The specification: the latest time of a heartbeat or a seed of the peer.
pub latest : {Text : Type 0} → NodeId → ℕ → List (Call Text) → ℕ
latest q seen [] = seen
latest q seen (c ∷ cs) = latest q (moved q seen c) cs

module _ {Text : Type 0} ⦃same : Key Text⦄ where
  unfoldable pub call : Tracker Text → Call Text → Tracker Text
  call t (heartbeat node h) = (record_heartbeat node h t).1
  call t (seed node ts) = set_last_seen node ts t
  call t (connection node o) = (record_connection node o t).1
  call t (address node ip) = set_virtual_ip node ip t
  call t (location node l) = (set_location node l t).1

  unfoldable pub calls_from : Tracker Text → List (Call Text) → Tracker Text
  calls_from t [] = t
  calls_from t (c ∷ cs) = calls_from (call t c) cs

  heard-last_seen :
      (h : Heartbeat Text) (e : PeerStatus Text) → (heard h e).1.last_seen ≡ later e.last_seen h.ts
  unfolding heard
  heard-last_seen h e = ground arith

  call-last_seen :
      (t : Tracker Text) (c : Call Text) (q : NodeId)
      → (entry q (call t c)).last_seen ≡ moved q (entry q t).last_seen c
  unfolding call record_heartbeat set_last_seen record_connection observed set_virtual_ip
      set_location
  call-last_seen t (heartbeat node h) q =
      ground
        (arith, entry-put node q (heard h (entry node t)).1 t, heard-last_seen h (entry node t))
  call-last_seen t (seed node ts) q =
      let e : PeerStatus Text = entry node t in
      ground
        (arith, entry-put node q (if ltb e.last_seen ts then record e { last_seen = ts } else e) t)
  call-last_seen t (connection node o) q =
      ground (arith, entry-put node q (observed o (entry node t)).1 t)
  call-last_seen t (address node ip) q =
      ground (arith, entry-put node q (record (entry node t) { virtual_ip = some ip }) t)
  call-last_seen t (location node l) q =
      ground (arith, entry-put node q (record (entry node t) { location = l }) t)

  -- After any calls in any order a peer was last seen at the latest time of its heartbeats and
  -- seeds: an older heartbeat that arrives late does not put it back.
  pub calls_from-last_seen :
      (t : Tracker Text) (cs : List (Call Text)) (q : NodeId)
      → (entry q (calls_from t cs)).last_seen ≡ latest q (entry q t).last_seen cs
  unfolding calls_from latest
  calls_from-last_seen t [] q = refl
  calls_from-last_seen t (c ∷ cs) q =
      rw (← call-last_seen t c q) (calls_from-last_seen (call t c) cs q)
