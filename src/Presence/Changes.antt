-- ===== src/Presence/Changes.antt =====
-- What the tracker reports, and what it keeps (presence.rs: `PresenceTracker`).
use nullgate.Common.{
  ◌+◌, ◌≤◌, ◌≡◌, refl, true, false, Option, none, some, ltb, ◌==◌, if◌then◌else◌, arith, Bool-cases,
  inl, inr,
}
use nullgate.Common.HashMap.{Key, nat_key, put, get-put}
use nullgate.Roster.{NodeId}
use nullgate.Presence.{
  PeerStatus, Heartbeat, Observation, option_eq, heard, observed, Tracker, entry, record_heartbeat,
  record_connection, last_seen_jump_ms,
}

module _ {Text : Type 0} ⦃same : Key Text⦄ where
  -- What the member list shows: all but the time and the observed address.
  abbrev pub shown : PeerStatus Text → PeerStatus Text
  shown e = record e { last_seen = 0; observed_addr = none }

  option_eq_iff : (a b : Option Text) → option_eq same.beq a b ≡ true → a ≡ b
  option_eq_iff none none e = refl
  option_eq_iff none (some b) e = absurd (cc)
  option_eq_iff (some a) none e = absurd (cc)
  option_eq_iff (some a) (some b) e = ground (arith, same.beq_iff a b, e)

  heard_quiet :
      (h : Heartbeat Text) (e : PeerStatus Text)
      → (heard h e).0 ≡ false
      → (shown (heard h e).1 ≡ shown e)
        × (e.last_seen ≤ (heard h e).1.last_seen)
        × ((heard h e).1.last_seen ≤ e.last_seen + last_seen_jump_ms)
  unfolding heard
  heard_quiet h e quiet = elim (Bool-cases (ltb h.ts e.last_seen)) [
    | inl old ↦ rw old (refl, omega arith, omega arith)
    | inr new ↦
        let name : e.hostname ≡ some h.hostname =
          option_eq_iff e.hostname (some h.hostname) (ground arith) in
        rw new (ground (arith, name), ground arith, ground arith)
  ]

  observed_quiet :
      (o : Observation Text) (e : PeerStatus Text)
      → (observed o e).0 ≡ false
      → (shown (observed o e).1 ≡ shown e) × ((observed o e).1.last_seen ≡ e.last_seen)
  unfolding observed
  observed_quiet o e quiet = (ground arith, refl)

  pub entry-put :
      (node q : NodeId) (e : PeerStatus Text) (t : Tracker Text)
      → entry q (put node e t) ≡ (if node == q then e else entry q t)
  entry-put node q e t = ground (arith, get-put node q e t)

  -- When a heartbeat is reported as no change, nothing that the member list shows of any peer has
  -- changed, and no peer was seen earlier than before, or later by more than ten minutes.
  pub quiet_heartbeat :
      (node q : NodeId) (h : Heartbeat Text) (t : Tracker Text)
      → (record_heartbeat node h t).0 ≡ false
      → let after = entry q (record_heartbeat node h t).1 in
        (shown after ≡ shown (entry q t))
        × ((entry q t).last_seen ≤ after.last_seen)
        × (after.last_seen ≤ (entry q t).last_seen + last_seen_jump_ms)
  unfolding record_heartbeat
  quiet_heartbeat node q h t quiet =
      rw (entry-put node q (heard h (entry node t)).1 t) (elim (Bool-cases (node == q)) [
        | inl hit ↦
            let same_node : node ≡ q = ground arith in
            rw (hit, ← same_node) (heard_quiet h (entry node t) quiet)
        | inr miss ↦ rw miss (refl, omega arith, omega arith)
      ])

  -- When an observation of a connection is reported as no change, nothing that the member list
  -- shows of any peer has changed, nor when it was last seen.
  pub quiet_connection :
      (node q : NodeId) (o : Observation Text) (t : Tracker Text)
      → (record_connection node o t).0 ≡ false
      → let after = entry q (record_connection node o t).1 in
        (shown after ≡ shown (entry q t)) × (after.last_seen ≡ (entry q t).last_seen)
  unfolding record_connection
  quiet_connection node q o t quiet =
      rw (entry-put node q (observed o (entry node t)).1 t) (elim (Bool-cases (node == q)) [
        | inl hit ↦
            let same_node : node ≡ q = ground arith in
            rw (hit, ← same_node) (observed_quiet o (entry node t) quiet)
        | inr miss ↦ rw miss (refl, refl)
      ])
