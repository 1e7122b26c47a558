-- ===== src/Engine/Recovery/Strikes.antt =====
-- The escalation of `health_check` (crates/ipn-core/src/engine.rs).
use nullgate.Common.{
  ℕ, ◌+◌, ◌-◌, ◌≤◌, ◌<◌, ◌≡◌, ◌%◌, ◌^◌, refl, ap, sym, subst, ◌∙◌, Bool, true, false, some, arith,
  ltb, Bool-cases, inl, inr,
}
use nullgate.Common.HashMap.{nat_key, get-each}
use nullgate.Roster.{NodeId}
use nullgate.Engine.Backoff.{BackoffEntry, Backoff, is_due, expire_dial_backoff}
use nullgate.Engine.Config.{StoredConfig}
use nullgate.Engine.Session.{Env, Net, Session, namespace}
use nullgate.Engine.Operations.Leaving.{Works}
use nullgate.Engine.Recovery.{
  burst, rebuilt, is_fine, rebuild_due, rebuild_node, health_check, network_changed,
  rebuild_min_spacing_ms, recovery_burst_cooldown_ms,
}

-- What a recovery burst leaves at its time: the next pass dials, syncs and joins at once, and no
-- peer is held back by the dial backoff.
pub record IsBurst (now : ℕ) (s : Session) : Type 0 where
  pub stamped : s.last_recovery_burst ≡ now
  pub forced : s.live.force_recover ≡ true
  pub syncs : s.live.last_doc_sync ≡ 0
  pub joins : s.live.last_gossip_join ≡ 0
  pub due : (at : ℕ) (id : NodeId) → is_due s.live.dial_backoff at id ≡ true

expired-is_due :
    (backoff : Backoff) (at : ℕ) (id : NodeId) → is_due (expire_dial_backoff backoff) at id ≡ true
unfolding expire_dial_backoff
expired-is_due backoff at id = ground (
  arith,
  get-each id (λ (e : BackoffEntry). record { failures = e.failures; next_ok_ms = 0 }) backoff,
)

network_changed-IsBurst :
    (now : ℕ) (s : Session)
    → recovery_burst_cooldown_ms ≤ now - s.last_recovery_burst
    → IsBurst now (network_changed now s).1
unfolding network_changed
network_changed-IsBurst now s quiet =
    let over : ltb (now - s.last_recovery_burst) recovery_burst_cooldown_ms ≡ false =
      ground (arith, quiet) in
    rw over (record {
      stamped = refl;
      forced = refl;
      syncs = refl;
      joins = refl;
      due = expired-is_due s.live.dial_backoff;
    })

module _ {Addr : Type 0} (env : Env Addr) where
  -- After the first strike: the counter stands at one, and all that the next check reads is as
  -- it was.
  record Struck (s t : Session) : Type 0 where
    counted : t.unhealthy_checks ≡ 1
    still : is_fine env t ≡ is_fine env s
    spacing : t.last_rebuild ≡ s.last_rebuild
    kept : t.config ≡ s.config

  network_changed-Struck :
      (now : ℕ) (s t : Session) → Struck s t → Struck s (network_changed now t).1
  unfolding network_changed
  network_changed-Struck now s t h = elim (Bool-cases (ltb (now - t.last_recovery_burst) 20000)) [
    | inl e ↦ rw e h
    | inr e ↦
        rw e (record { counted = h.counted; still = h.still; spacing = h.spacing; kept = h.kept })
  ]

  abbrev counted_to : ℕ → Session → Session
  counted_to n s = record s { unhealthy_checks = n }

  throttled :
      (now n : ℕ) (s : Session)
      → ltb (now - s.last_recovery_burst) recovery_burst_cooldown_ms ≡ true
      → (network_changed now (counted_to n s)).1
        ≡ counted_to (network_changed now (counted_to n s)).1.unhealthy_checks s
  unfolding network_changed
  throttled now n s early = rw early refl

  check-bursts :
      (net : Net) (spawned : Bool) (now : ℕ) (s : Session)
      → is_fine env s ≡ false
      → rebuild_due env now (s.unhealthy_checks + 1) s ≡ false
      → health_check env net spawned now s
        ≡ (burst, (network_changed now (counted_to ((s.unhealthy_checks + 1) % 2 ^ 32) s)).1)
  unfolding health_check
  check-bursts net spawned now s bad early = rw (bad, early) refl

  check-rebuilds :
      (net : Net) (spawned : Bool) (now : ℕ) (s : Session)
      → is_fine env s ≡ false
      → rebuild_due env now (s.unhealthy_checks + 1) s ≡ true
      → health_check env net spawned now s ≡ rebuild_node env net spawned now (counted_to 0 s)
  unfolding health_check
  check-rebuilds net spawned now s bad due = rw (bad, due) refl

  -- A burst is fired, if the last one was long enough ago; if not, all but the count of strikes is
  -- as it was.
  abbrev pub Fires : ℕ → Session → Session → Type 0
  Fires now s t =
      (recovery_burst_cooldown_ms ≤ now - s.last_recovery_burst → IsBurst now t)
      × (now - s.last_recovery_burst < recovery_burst_cooldown_ms
          → t ≡ counted_to t.unhealthy_checks s)

  burst-Fires : (now n : ℕ) (s : Session) → Fires now s (network_changed now (counted_to n s)).1
  burst-Fires now n s =
      (network_changed-IsBurst now (counted_to n s), λ early. throttled now n s (ground arith))

  rebuild_node-rejoins :
      (net : Net) (now : ℕ) (s : Session) (cfg : StoredConfig)
      → Works net
      → s.config ≡ some cfg
      → ((rebuild_node env net true now s).0 ≡ rebuilt)
        × ((rebuild_node env net true now s).1.config ≡ some cfg)
        × ((rebuild_node env net true now s).1.live.doc ≡ some (namespace env cfg))
        × ((rebuild_node env net true now s).1.last_rebuild ≡ now)
  unfolding rebuild_node
  rebuild_node-rejoins net now s cfg w e =
      simp (e, w.opens_doc, w.creates_author, w.subscribes) (refl, refl, refl, refl)

  first_strike :
      (net : Net) (spawned : Bool) (now : ℕ) (s : Session)
      → is_fine env s ≡ false
      → s.unhealthy_checks ≡ 0
      → ((health_check env net spawned now s).0 ≡ burst)
        × Fires now s (health_check env net spawned now s).1
        × Struck s (health_check env net spawned now s).1
  first_strike net spawned now s bad none_yet =
      let early : rebuild_due env now (s.unhealthy_checks + 1) s ≡ false =
        ground (arith, none_yet) in
      let once : (s.unhealthy_checks + 1) % 2 ^ 32 ≡ 1 = omega (arith, none_yet) in
      let run = check-bursts net spawned now s bad early in
      (
        ap (λ r. r.0) run,
        subst (λ r. Fires now s r.1) (sym run)
            (burst-Fires now ((s.unhealthy_checks + 1) % 2 ^ 32) s),
        subst (λ r. Struck s r.1) (sym run)
            (network_changed-Struck now s (counted_to ((s.unhealthy_checks + 1) % 2 ^ 32) s)
              (record { counted = once; still = refl; spacing = refl; kept = refl })),
      )

  -- A device that is online with other members on its roster and has no connection fires a recovery
  -- burst at the first health check, if the last burst was 20 seconds ago or more: the next pass
  -- is told to recover, sync and join at once, and no peer is held back by the dial backoff. If the
  -- last burst was more recent, only the strike is counted, and the same is reported. At the next
  -- check, if nothing has changed since, the device rebuilds its node when ten minutes have passed
  -- since the last rebuild, and is then, where the calls of iroh succeed, back in its network with
  -- the document open; before that it does as at the first check.
  pub health_check_escalates :
      (net : Net) (now later : ℕ) (s : Session) (cfg : StoredConfig)
      → is_fine env s ≡ false
      → s.unhealthy_checks ≡ 0
      → Works net
      → s.config ≡ some cfg
      → let one = health_check env net true now s in
        let two = health_check env net true later one.1 in
        (one.0 ≡ burst)
        × Fires now s one.1
        × (rebuild_min_spacing_ms ≤ later - s.last_rebuild
            → (two.0 ≡ rebuilt)
              × (two.1.config ≡ some cfg)
              × (two.1.live.doc ≡ some (namespace env cfg))
              × (two.1.last_rebuild ≡ later))
        × (later - s.last_rebuild < rebuild_min_spacing_ms
            → (two.0 ≡ burst) × Fires later one.1 two.1)
  health_check_escalates net now later s cfg bad none_yet w e =
      let (fired, effect, struck) = first_strike net true now s bad none_yet in
      let t = (health_check env net true now s).1 in
      let still_bad : is_fine env t ≡ false = struck.still ∙ bad in
      (
        fired,
        effect,
        λ long.
            let due : rebuild_due env later (t.unhealthy_checks + 1) t ≡ true =
              ground (arith, struck.counted, struck.spacing, long) in
            subst
              (λ r.
                (r.0 ≡ rebuilt)
                × (r.1.config ≡ some cfg)
                × (r.1.live.doc ≡ some (namespace env cfg))
                × (r.1.last_rebuild ≡ later))
              (sym (check-rebuilds net true later t still_bad due))
              (rebuild_node-rejoins net later (counted_to 0 t) cfg w (struck.kept ∙ e)),
        λ short.
            let early : rebuild_due env later (t.unhealthy_checks + 1) t ≡ false =
              ground (arith, struck.spacing, short) in
            let run = check-bursts net true later t still_bad early in
            (
              ap (λ r. r.0) run,
              subst (λ r. Fires later t r.1) (sym run)
                  (burst-Fires later ((t.unhealthy_checks + 1) % 2 ^ 32) t),
            ),
      )
