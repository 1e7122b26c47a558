-- ===== src/Engine/Backoff/Schedule.antt =====
-- The schedule that the backoff keeps (engine.rs).
use nullgate.Common.{
  ℕ, zero, suc, ◌+◌, ◌*◌, ◌-◌, ◌^◌, ◌≤◌, min, ◌≡◌, ◌∙◌, refl, Bool, true, false, ◌&&◌, none, some,
  List, [], ◌∷◌, arith, leb, select, ◌==◌, if◌then◌else◌, length, Option-cases, Bool-cases, inl,
  inr, ap,
}
use nullgate.Common.HashMap.{nat_key, get, or_default, get-put, get-delete, get-each}
use nullgate.Common.Maps.{contains}
use nullgate.Common.Sets.{contains-select}
use nullgate.Roster.{NodeId}
use nullgate.Engine.Backoff.{
  dial_timeout_ms, dial_backoff_max_ms, BackoffEntry, Backoff, no_failures, is_due,
  dial_backoff_filter, delay_ms, extend, record_dial_failure, reset_dial_backoff,
  expire_dial_backoff,
}

pow_pos : (n : ℕ) → 1 ≤ 2 ^ n
pow_pos zero = omega arith
pow_pos (suc n) = omega (arith, pow_pos n)

pow_ge : (n : ℕ) → 4 ≤ n → 16 ≤ 2 ^ n
pow_ge zero h = absurd (omega arith)
pow_ge (suc zero) h = absurd (omega arith)
pow_ge (suc (suc zero)) h = absurd (omega arith)
pow_ge (suc (suc (suc zero))) h = absurd (omega arith)
pow_ge (suc (suc (suc (suc n)))) h = omega (arith, pow_pos n)

-- The cap of the shift is above what the maximum lets through.
delay_ms_lem : (n : ℕ) → delay_ms n ≡ min (dial_timeout_ms * 2 ^ n) dial_backoff_max_ms
unfolding delay_ms
delay_ms_lem zero = refl
delay_ms_lem (suc zero) = refl
delay_ms_lem (suc (suc zero)) = refl
delay_ms_lem (suc (suc (suc zero))) = refl
delay_ms_lem (suc (suc (suc (suc n)))) =
    let k : ℕ = suc (suc (suc (suc n))) in
    omega (arith, pow_ge k (omega arith), pow_ge (min k 20) (omega arith))

-- The failures of one peer at the times of a list, oldest last.
pub fails : Backoff → NodeId → List ℕ → Backoff
fails m peer [] = m
fails m peer (now ∷ before) = record_dial_failure (fails m peer before) peer now

-- The end of the window after the failures `now ∷ before`.
abbrev pub window_end : ℕ → List ℕ → ℕ
window_end now before =
    min (now + min (dial_timeout_ms * 2 ^ (length before + 1)) dial_backoff_max_ms) (2 ^ 64 - 1)

-- The count saturates where the delay has long been at its maximum.
delay_ms-saturated :
    (n : ℕ) → delay_ms (min n (2 ^ 32 - 1)) ≡ min (dial_timeout_ms * 2 ^ n) dial_backoff_max_ms
delay_ms-saturated n = elim (Bool-cases (leb n 3)) [
  | inl few ↦ let same : min n (2 ^ 32 - 1) ≡ n = ground arith in rw same (delay_ms_lem n)
  | inr many ↦
      let above : 4 ≤ n = ground arith in
      omega (
        arith,
        delay_ms_lem (min n (2 ^ 32 - 1)),
        pow_ge n above,
        pow_ge (min n (2 ^ 32 - 1)) (omega arith),
      )
]

extend_lem :
    (now n : ℕ) (e : BackoffEntry)
    → e.failures ≡ min n (2 ^ 32 - 1)
    → extend now e ≡ record {
      failures = min (n + 1) (2 ^ 32 - 1);
      next_ok_ms = min (now + min (dial_timeout_ms * 2 ^ (n + 1)) dial_backoff_max_ms) (2 ^ 64 - 1);
    }
unfolding extend
extend_lem now n e h =
    let count : min (e.failures + 1) (2 ^ 32 - 1) ≡ min (n + 1) (2 ^ 32 - 1) = omega arith in
    rw (count, delay_ms-saturated (n + 1)) refl

get-record :
    (m : Backoff) (peer now : ℕ)
    → get peer (record_dial_failure m peer now)
      ≡ some (extend now (or_default no_failures (get peer m)))
unfolding record_dial_failure
get-record m peer now =
    ground (arith, get-put peer peer (extend now (or_default no_failures (get peer m))) m)

get-record_ne :
    (m : Backoff) (peer q now : ℕ)
    → (peer == q) ≡ false
    → get q (record_dial_failure m peer now) ≡ get q m
unfolding record_dial_failure
get-record_ne m peer q now ne =
    ground (arith, get-put peer q (extend now (or_default no_failures (get peer m))) m)

get-fails :
    (m : Backoff) (peer : NodeId) (now : ℕ) (before : List ℕ)
    → get peer m ≡ none
    → get peer (fails m peer (now ∷ before))
      ≡ some (record {
        failures = min (length before + 1) (2 ^ 32 - 1);
        next_ok_ms = window_end now before;
      })
unfolding fails
get-fails m peer now [] h =
    rw (get-record m peer now, h) (ap some (extend_lem now 0 no_failures refl))
get-fails m peer now (earlier ∷ before) h =
    rw (get-record (fails m peer (earlier ∷ before)) peer now, get-fails m peer earlier before h)
      (ap some (extend_lem now (length (earlier ∷ before)) _ (omega arith)))

get-fails_ne :
    (m : Backoff) (peer q : ℕ) (times : List ℕ)
    → (peer == q) ≡ false
    → get q (fails m peer times) ≡ get q m
unfolding fails
get-fails_ne m peer q [] ne = refl
get-fails_ne m peer q (now ∷ before) ne =
    get-record_ne (fails m peer before) peer q now ne ∙ get-fails_ne m peer q before ne

-- When a peer that has no entry fails at each of the given times, the filter drops it until
-- min(20 s * 2^n, 300 s) after the last of its n failures, and passes it from then on. Every other
-- peer is passed as before. Times and counts saturate at the limits of u64 and u32.
pub backoff_schedule :
    (m : Backoff) (peer now : NodeId) (before : List ℕ) (q at : ℕ) (ids : List NodeId)
    → get peer m ≡ none
    → contains q (dial_backoff_filter ids (fails m peer (now ∷ before)) at) ≡ (
        if peer == q
        then contains q ids && leb (window_end now before) at
        else contains q (dial_backoff_filter ids m at))
unfolding dial_backoff_filter
backoff_schedule m peer now before q at ids h =
    rw
      (
        contains-select (is_due (fails m peer (now ∷ before)) at) q ids,
        contains-select (is_due m at) q ids,
      )
      (elim (Bool-cases (peer == q)) [
        | inl e ↦
            let same : peer ≡ q = ground arith in rw (e, ← same, get-fails m peer now before h) refl
        | inr ne ↦ rw (ne, get-fails_ne m peer q (now ∷ before) ne) refl
      ])

select-all : (p : ℕ → Bool) (ids : List ℕ) → ((i : ℕ) → p i ≡ true) → select p ids ≡ ids
select-all p [] h = refl
select-all p (i ∷ ids) h = rw (h i, select-all p ids h) refl

-- After `expire_dial_backoff` every peer may be dialed at once, and a peer that then fails again
-- has the entry that it would have had without it: the count of its failures is kept.
pub expire_resumes :
    (m : Backoff) (ids : List NodeId) (peer now : ℕ)
    → (dial_backoff_filter ids (expire_dial_backoff m) now ≡ ids)
      × (get peer (record_dial_failure (expire_dial_backoff m) peer now)
          ≡ get peer (record_dial_failure m peer now))
unfolding dial_backoff_filter expire_dial_backoff extend
expire_resumes m ids peer now =
    let zeroed : BackoffEntry → BackoffEntry =
      λ e. record { failures = e.failures; next_ok_ms = 0 } in
    (
      select-all (is_due (expire_dial_backoff m) now) ids
          (λ i. ground (arith, get-each i zeroed m)),
      rw
          (
            get-record m peer now,
            get-record (expire_dial_backoff m) peer now,
            get-each peer zeroed m,
          )
          (elim (Option-cases (get peer m)) [ inl e ↦ rw e refl | inr (w, e) ↦ rw e refl ]),
    )

-- After `reset_dial_backoff` the peer may be dialed at once, and its next failure counts as its
-- first.
pub reset_forgets :
    (m : Backoff) (peer now at : ℕ)
    → (is_due (reset_dial_backoff m peer) at peer ≡ true)
      × (get peer (record_dial_failure (reset_dial_backoff m peer) peer now)
          ≡ get peer (record_dial_failure [] peer now))
unfolding reset_dial_backoff get
reset_forgets m peer now at =
    let gone : get peer (reset_dial_backoff m peer) ≡ none =
      ground (arith, get-delete peer peer m) in
    (
      rw gone refl,
      rw (get-record (reset_dial_backoff m peer) peer now, get-record [] peer now, gone) refl,
    )
