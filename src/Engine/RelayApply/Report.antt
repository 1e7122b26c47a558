-- ===== src/Engine/RelayApply/Report.antt =====
-- What is reported of a change of the relay settings, in any interleaving of edits and appliers
-- (crates/ipn-core/src/engine.rs: `set_relay_settings`, `apply_relay_map`).
use nullgate.Common.{
  ℕ, zero, suc, ◌+◌, ◌≤◌, ◌≡◌, refl, sym, ap, subst, ◌∙◌, ◌⊎◌, inl, inr, ltb, ◌==◌, Bool, true,
  false, Option, none, some, List, [], ◌∷◌, arith, In, Bool-cases, ==_iff,
}
use nullgate.Common.HashMap.{Key}
use nullgate.Common.Text.{Text}
use nullgate.Relays.{has_url}
use nullgate.Relays.Settings.{
  SettingsError, RelaySettings, RelayConfig, urls_of, desired_relay_configs,
  token_change_needs_rebind,
}
use nullgate.Engine.RelayApply.{
  Iroh, stuck_on, rebind_failed, still_using, RelayApply, applied, pending, failed, Job, push,
  rebind, Applier, ApplierPhase, checking, pushing, retrying, settling, rebuilding, rebuilt,
  writing, State, Answer, Move, edit, acquire, act, attempts, take_nth, difference, stuck_urls,
  first_phase, settle, after_push, retry, insert_configs, remove_urls, push_map, release,
  if_current, or_else_these, desired_of, stale_urls, job_of, flip, save_valid, set_relay_settings,
  state_after, lock_of, give_lock, on_rebuilt, go_on, act_as, advance, run_moves, started,
}
use Prim.Native.String.{String}

-- One item is taken out of a list.
abbrev IsTaken : {A : Type 0} → List A → Option (A × List A) → Type 0
IsTaken items none = Unit
IsTaken items (some (a, others)) =
    In a items
    × ((x : _) → In x others → In x items)
    × ((x : _) → In x items → (a ≡ x) ⊎ In x others)

later-IsTaken :
    {A : Type 0} (b : A) (items : List A) (taken : Option (A × List A))
    → IsTaken items taken
    → IsTaken (b ∷ items) (elim taken [ none ↦ none | some p ↦ some (p.0, b ∷ p.1) ])
later-IsTaken b items none h = tt
later-IsTaken b items (some (a, others)) (here, back, split) = (
  inr here,
  λ x. elim [ inl e ↦ inl e | inr i ↦ inr (back x i) ],
  λ x. elim [
    | inl e ↦ inr (inl e)
    | inr i ↦ elim (split x i) [ inl e ↦ inl e | inr k ↦ inr (inr k) ]
  ],
)

take_nth-IsTaken : {A : Type 0} (n : ℕ) (items : List A) → IsTaken items (take_nth n items)
unfolding take_nth
take_nth-IsTaken n [] = tt
take_nth-IsTaken zero (a ∷ items) = (inl refl, λ x i. inr i, λ x i. i)
take_nth-IsTaken (suc n) (a ∷ items) =
    later-IsTaken a items (take_nth n items) (take_nth-IsTaken n items)

module _ {Url : Type 0} ⦃same : Key Url⦄ (iroh : Iroh Url) where
  -- Every relay that is wanted is in the map.
  abbrev pub Runs : List (RelayConfig Url) → iroh.RelayMap → Type 0
  Runs desired m = (u : Url) → has_url u (urls_of desired) ≡ true → iroh.has u m ≡ true

  insert_configs-keeps :
      (u : Url) (cs : List (RelayConfig Url)) (m : iroh.RelayMap)
      → (iroh.has u m ≡ true) ⊎ (has_url u (urls_of cs) ≡ true)
      → iroh.has u (insert_configs iroh cs m) ≡ true
  unfolding insert_configs
  insert_configs-keeps u [] m h = ground arith
  insert_configs-keeps u (c ∷ cs) m h =
      insert_configs-keeps u cs (iroh.insert c m) (ground (arith, iroh.has-insert u c m))

  remove_urls-keeps :
      (u : Url) (us : List Url) (m : iroh.RelayMap)
      → has_url u us ≡ false
      → iroh.has u m ≡ true
      → iroh.has u (remove_urls iroh us m) ≡ true
  unfolding remove_urls
  remove_urls-keeps u [] m h k = k
  remove_urls-keeps u (v ∷ us) m h k =
      remove_urls-keeps u us (iroh.remove v m) (ground arith)
        (ground (arith, iroh.has-remove u v m))

  push_map-Runs :
      (desired : List (RelayConfig Url)) (stale : List Url) (m : iroh.RelayMap)
      → ((u : Url) → has_url u (urls_of desired) ≡ true → has_url u stale ≡ false)
      → Runs desired (push_map iroh desired stale m)
  unfolding push_map
  push_map-Runs desired stale m apart u h =
      remove_urls-keeps u stale (insert_configs iroh desired m) (apart u h)
        (insert_configs-keeps u desired m (inr h))

difference_misses :
    {Url : Type 0} ⦃same : Key Url⦄ (u : Url) (xs others : List Url)
    → has_url u others ≡ true
    → has_url u (difference xs others) ≡ false
difference_misses u [] others h = refl
difference_misses ⦃same⦄ u (x ∷ xs) others h = elim (Bool-cases (same.beq x u)) [
  | inl e ↦
      let eq : x ≡ u = (same.beq_iff x u).0 e in ground (arith, difference_misses u xs others h)
  | inr e ↦ ground (arith, difference_misses u xs others h)
]

module _ {Url : Type 0} ⦃same : Key Url⦄ (iroh : Iroh Url) (parse_url : String → Option Url)
    (defaults : List (RelayConfig Url)) where
  -- What a report says of the map: after a rebind that failed, nothing.
  abbrev pub Reports : RelaySettings → iroh.RelayMap → RelayApply Url → Type 0
  Reports settings m applied = Runs iroh (desired_of parse_url defaults settings) m
  Reports settings m pending = ⊥
  Reports settings m (failed (rebind_failed error)) = Unit
  Reports settings m (failed (stuck_on stuck)) =
      Runs iroh (desired_of parse_url defaults settings) m
  Reports settings m (failed (still_using home)) =
      Runs iroh (desired_of parse_url defaults settings) m

  abbrev IsFit : RelaySettings → Job Url → Type 0
  IsFit settings (push desired stale) =
      (desired_of parse_url defaults settings ≡ desired)
      × ((u : Url) → has_url u (urls_of desired) ≡ true → has_url u stale ≡ false)
  IsFit settings rebind = Unit

  -- What an applier of the current generation has done.
  abbrev HasDone : RelaySettings → iroh.RelayMap → ApplierPhase Url → Type 0
  HasDone settings m (checking job) = IsFit settings job
  HasDone settings m (pushing desired stale n) = IsFit settings (push desired stale)
  HasDone settings m (retrying desired stale n stuck) =
      IsFit settings (push desired stale) × Runs iroh desired m
  HasDone settings m (settling desired) =
      (desired_of parse_url defaults settings ≡ desired) × Runs iroh desired m
  HasDone settings m rebuilding = Unit
  HasDone settings m (rebuilt apply) = Reports settings m apply
  HasDone settings m (writing apply) = Reports settings m apply

  abbrev HasHeld : ℕ → RelaySettings → iroh.RelayMap → Option (ℕ × ApplierPhase Url) → Type 0
  HasHeld now settings m none = Unit
  HasHeld now settings m (some (g, p)) = (g ≤ now) × (g ≡ now → HasDone settings m p)

  abbrev IsHeldBy : ℕ → Option (ℕ × ApplierPhase Url) → Type 0
  IsHeldBy now none = ⊥
  IsHeldBy now (some (g, p)) = g ≡ now

  -- The applier in the lock has not yet looked at the generation.
  abbrev IsIdle : Option (ℕ × ApplierPhase Url) → Type 0
  IsIdle none = Unit
  IsIdle (some (g, checking job)) = Unit
  IsIdle (some (g, _)) = ⊥

  -- The applier of the latest edit waits, has the lock, or has reported.
  abbrev IsAnswered : State Url iroh.RelayMap → Type 0
  IsAnswered s =
      ((a : Applier Url) × In a s.waiting × (a.generation ≡ s.generation))
      ⊎ (IsHeldBy s.generation s.holder
          ⊎ ((s.writer ≡ s.generation) × Reports s.settings s.relay_map s.apply × IsIdle s.holder))

  record IsSound (s : State Url iroh.RelayMap) : Type 0 where
    waiters :
        (a : Applier Url)
        → In a s.waiting
        → (a.generation ≤ s.generation) × (a.generation ≡ s.generation → IsFit s.settings a.job)
    held : HasHeld s.generation s.settings s.relay_map s.holder
    answered : IsAnswered s

  -- The applier in the lock goes on.
  go_to-IsSound :
      (g : ℕ) (p q : ApplierPhase Url) (m : iroh.RelayMap) (s : State Url iroh.RelayMap)
      → s.holder ≡ some (g, p)
      → (s.generation ≡ g) ⊎ (IsIdle (some (g, p)) → ⊥)
      → (HasDone s.settings s.relay_map p → HasDone s.settings m q)
      → IsSound s
      → IsSound (record s { relay_map = m; holder = some (g, q) })
  go_to-IsSound g p q m s h passed does a =
      let held : HasHeld s.generation s.settings s.relay_map (some (g, p)) =
        subst (HasHeld s.generation s.settings s.relay_map) h a.held in
      record {
        waiters = a.waiters;
        held = (held.0, λ e. does (held.1 e));
        answered = elim a.answered [
          | inl w ↦ inl w
          | inr (inl now) ↦ inr (inl (subst (IsHeldBy s.generation) h now))
          | inr (inr (w, r, idle)) ↦ elim passed [
            | inl e ↦ inr (inl (sym e))
            | inr busy ↦ absurd (busy (subst IsIdle h idle))
          ]
        ];
      }

  release-IsSound :
      (g : ℕ) (p : ApplierPhase Url) (s : State Url iroh.RelayMap)
      → s.holder ≡ some (g, p)
      → (s.generation == g) ≡ false
      → IsSound s
      → IsSound (release iroh s)
  release-IsSound g p s h late a = record {
    waiters = a.waiters;
    held = tt;
    answered = elim a.answered [
      | inl w ↦ inl w
      | inr (inl now) ↦
          let e : g ≡ s.generation = subst (IsHeldBy s.generation) h now in
          absurd (ground (arith, ==_iff s.generation g))
      | inr (inr (w, r, idle)) ↦ inr (inr (w, r, tt))
    ];
  }

  if_current-IsSound :
      (g : ℕ) (p q : ApplierPhase Url) (s : State Url iroh.RelayMap)
      → s.holder ≡ some (g, p)
      → (HasDone s.settings s.relay_map p → HasDone s.settings s.relay_map q)
      → IsSound s
      → IsSound (if_current iroh g q s)
  unfolding if_current
  if_current-IsSound g p q s h does a = elim (Bool-cases (s.generation == g)) [
    | inl e ↦
        simp e (go_to-IsSound g p q s.relay_map s h (inl ((==_iff s.generation g).0 e)) does a)
    | inr e ↦ simp e (release-IsSound g p s h e a)
  ]

  write-IsSound :
      (g changed : ℕ) (apply : RelayApply Url) (s : State Url iroh.RelayMap)
      → s.holder ≡ some (g, writing apply)
      → IsSound s
      → IsSound (record s { apply = apply; writer = g; holder = none; changed = changed })
  write-IsSound g changed apply s h a =
      let held : HasHeld s.generation s.settings s.relay_map (some (g, writing apply)) =
        subst (HasHeld s.generation s.settings s.relay_map) h a.held in
      record {
        waiters = a.waiters;
        held = tt;
        answered = elim a.answered [
          | inl w ↦ inl w
          | inr (inl now) ↦
              let e : g ≡ s.generation = subst (IsHeldBy s.generation) h now in
              inr (inr (e, held.1 e, tt))
          | inr (inr (w, r, idle)) ↦ absurd (subst IsIdle h idle)
        ];
      }

  first_phase-HasDone :
      (settings : RelaySettings) (m : iroh.RelayMap) (job : Job Url)
      → IsFit settings job
      → HasDone settings m (first_phase job)
  first_phase-HasDone settings m (push desired stale) fit = fit
  first_phase-HasDone settings m rebind fit = tt

  after_push-HasDone :
      (settings : RelaySettings) (m : iroh.RelayMap) (desired : List (RelayConfig Url))
      (stale : List Url) (n : ℕ) (stuck : List Url)
      → IsFit settings (push desired stale)
      → HasDone settings (push_map iroh desired stale m) (after_push desired stale n stuck)
  after_push-HasDone settings m desired stale n [] fit =
      (fit.0, push_map-Runs iroh desired stale m fit.1)
  after_push-HasDone settings m desired stale n (u ∷ us) fit =
      (fit, push_map-Runs iroh desired stale m fit.1)

  retry-HasDone :
      (settings : RelaySettings) (m : iroh.RelayMap) (desired : List (RelayConfig Url))
      (stale : List Url) (n : ℕ) (stuck : List Url)
      → HasDone settings m (retrying desired stale n stuck)
      → HasDone settings m (retry desired stale n stuck)
  unfolding retry
  retry-HasDone settings m desired stale n stuck (fit, runs) = elim (Bool-cases (ltb n attempts)) [
    | inl e ↦ rw e fit
    | inr e ↦ rw e (subst (λ d. Runs iroh d m) (sym fit.0) runs)
  ]

  settle-HasDone :
      (settings : RelaySettings) (m : iroh.RelayMap) (desired : List (RelayConfig Url))
      (home : Option Url) (past_deadline : Bool)
      → HasDone settings m (settling desired)
      → HasDone settings m (settle desired home past_deadline)
  unfolding settle
  settle-HasDone settings m desired none past_deadline (e, runs) =
      subst (λ d. Runs iroh d m) (sym e) runs
  settle-HasDone settings m desired (some home) past_deadline (e, runs) =
      let wanted : Runs iroh (desired_of parse_url defaults settings) m =
        subst (λ d. Runs iroh d m) (sym e) runs in
      elim (Bool-cases (has_url home (urls_of desired))) [
        | inl f ↦ rw f wanted
        | inr f ↦ elim (Bool-cases past_deadline) [
          | inl late ↦ rw (f, late) wanted
          | inr early ↦ rw (f, early) (e, runs)
        ]
      ]

  on_rebuilt-IsSound :
      (g : ℕ) (error : Option Text) (s : State Url iroh.RelayMap)
      → s.holder ≡ some (g, rebuilding)
      → IsSound s
      → IsSound (on_rebuilt iroh parse_url defaults g error s)
  on_rebuilt-IsSound g none s h a =
      let desired = desired_of parse_url defaults s.settings in
      go_to-IsSound g rebuilding (rebuilt applied) (iroh.build desired) s h (inr (λ idle. idle))
        (λ d u wanted. iroh.has-build u desired ∙ wanted) a
  on_rebuilt-IsSound g (some error) s h a =
      go_to-IsSound g rebuilding (rebuilt (failed (rebind_failed error))) s.relay_map s h
        (inr (λ idle. idle)) (λ d. d) a

  go_on-IsSound :
      (g : ℕ) (p : ApplierPhase Url) (answer : Answer Url) (s : State Url iroh.RelayMap)
      → s.holder ≡ some (g, p)
      → IsSound s
      → IsSound (go_on iroh parse_url defaults g p answer s)
  unfolding go_on
  go_on-IsSound g (checking job) answer s h a =
      if_current-IsSound g (checking job) (first_phase job) s h
        (first_phase-HasDone s.settings s.relay_map job) a
  go_on-IsSound g (pushing desired stale n) answer s h a =
      let stuck = stuck_urls answer.acknowledges desired stale in
      go_to-IsSound g (pushing desired stale n) (after_push desired stale n stuck)
        (push_map iroh desired stale s.relay_map) s h (inr (λ idle. idle))
        (after_push-HasDone s.settings s.relay_map desired stale n stuck) a
  go_on-IsSound g (retrying desired stale n stuck) answer s h a =
      if_current-IsSound g (retrying desired stale n stuck) (retry desired stale n stuck) s h
        (retry-HasDone s.settings s.relay_map desired stale n stuck) a
  go_on-IsSound g (settling desired) answer s h a =
      if_current-IsSound g (settling desired) (settle desired answer.home answer.past_deadline) s h
        (settle-HasDone s.settings s.relay_map desired answer.home answer.past_deadline) a
  go_on-IsSound g rebuilding answer s h a = on_rebuilt-IsSound g answer.rebuild_error s h a
  go_on-IsSound g (rebuilt apply) answer s h a =
      if_current-IsSound g (rebuilt apply) (writing apply) s h (λ d. d) a
  go_on-IsSound g (writing apply) answer s h a = write-IsSound g (s.changed + 1) apply s h a

  act_as-IsSound :
      (holder : Option (ℕ × ApplierPhase Url)) (answer : Answer Url) (s : State Url iroh.RelayMap)
      → s.holder ≡ holder
      → IsSound s
      → IsSound (act_as iroh parse_url defaults holder answer s)
  act_as-IsSound none answer s h a = a
  act_as-IsSound (some (g, p)) answer s h a = go_on-IsSound g p answer s h a

  lock_of-IsSound :
      (taken : Option (Applier Url × List (Applier Url))) (s : State Url iroh.RelayMap)
      → s.holder ≡ none
      → IsTaken s.waiting taken
      → IsSound s
      → IsSound (lock_of iroh s taken)
  lock_of-IsSound none s h t a = a
  lock_of-IsSound (some (b, others)) s h (here, back, split) a = record {
    waiters = λ x i. a.waiters x (back x i);
    held = a.waiters b here;
    answered = elim a.answered [
      | inl (x, i, e) ↦ elim (split x i) [
        | inl same ↦
            inr (inl (subst (λ (y : Applier Url). y.generation ≡ s.generation) (sym same) e))
        | inr k ↦ inl (x, k, e)
      ]
      | inr (inl now) ↦ absurd (subst (IsHeldBy s.generation) h now)
      | inr (inr (w, r, idle)) ↦ inr (inr (w, r, tt))
    ];
  }

  give_lock-IsSound :
      (i : ℕ) (holder : Option (ℕ × ApplierPhase Url)) (s : State Url iroh.RelayMap)
      → s.holder ≡ holder
      → IsSound s
      → IsSound (give_lock iroh i holder s)
  give_lock-IsSound i none s h a =
      lock_of-IsSound (take_nth i s.waiting) s h (take_nth-IsTaken i s.waiting) a
  give_lock-IsSound i (some held) s h a = a

  job_of-IsFit :
      (old settings : RelaySettings) (desired : List (RelayConfig Url))
      → desired_relay_configs parse_url defaults settings ≡ inr desired
      → IsFit settings (job_of parse_url defaults old settings desired)
  unfolding job_of stale_urls
  job_of-IsFit old settings desired e =
      elim (Bool-cases (token_change_needs_rebind parse_url old settings)) [
        | inl f ↦ rw f tt
        | inr f ↦ rw f (
          ap (or_else_these defaults) e,
          λ u wanted. difference_misses u _ (urls_of desired) wanted,
        )
      ]

  later-HasHeld :
      (now : ℕ) (old settings : RelaySettings) (m : iroh.RelayMap)
      (holder : Option (ℕ × ApplierPhase Url))
      → HasHeld now old m holder
      → HasHeld (now + 1) settings m holder
  later-HasHeld now old settings m none held = tt
  later-HasHeld now old settings m (some (g, p)) held =
      let below = held.0 in ((omega arith), λ same. absurd (omega arith))

  flip-IsSound :
      (settings : RelaySettings) (desired : List (RelayConfig Url)) (s : State Url iroh.RelayMap)
      → desired_relay_configs parse_url defaults settings ≡ inr desired
      → IsSound s
      → IsSound (flip iroh parse_url defaults settings desired s)
  unfolding flip
  flip-IsSound settings desired s e a = record {
    waiters = λ x. elim [
      | inl same ↦
          subst
            (λ (y : Applier Url).
              (y.generation ≤ s.generation + 1)
              × (y.generation ≡ s.generation + 1 → IsFit settings y.job))
            same ((omega arith), λ now. job_of-IsFit s.settings settings desired e)
      | inr i ↦ let below = (a.waiters x i).0 in ((omega arith), λ now. absurd (omega arith))
    ];
    held = later-HasHeld s.generation s.settings settings s.relay_map s.holder a.held;
    answered = inl (_, inl refl, refl);
  }

  save_valid-IsSound :
      (settings : RelaySettings) (writes : Bool) (checked : SettingsError ⊎ List (RelayConfig Url))
      (s : State Url iroh.RelayMap)
      → desired_relay_configs parse_url defaults settings ≡ checked
      → IsSound s
      → IsSound (state_after iroh s (save_valid iroh parse_url defaults settings writes checked s))
  unfolding save_valid
  save_valid-IsSound settings writes (inl error) s e a = a
  save_valid-IsSound settings true (inr desired) s e a = flip-IsSound settings desired s e a
  save_valid-IsSound settings false (inr desired) s e a = a

  run_moves-IsSound :
      (moves : List (Move Url)) (s : State Url iroh.RelayMap)
      → IsSound s
      → IsSound (run_moves iroh parse_url defaults moves s)
  unfolding run_moves advance set_relay_settings
  run_moves-IsSound [] s a = a
  run_moves-IsSound (edit settings writes ∷ moves) s a =
      run_moves-IsSound moves _ (save_valid-IsSound settings writes _ s refl a)
  run_moves-IsSound (acquire i ∷ moves) s a =
      run_moves-IsSound moves _ (give_lock-IsSound i s.holder s refl a)
  run_moves-IsSound (act answer ∷ moves) s a =
      run_moves-IsSound moves _ (act_as-IsSound s.holder answer s refl a)

  started-IsSound : (settings : RelaySettings) → IsSound (started iroh parse_url defaults settings)
  unfolding started
  started-IsSound settings = record {
    waiters = λ x i. absurd i;
    held = tt;
    answered = inr (inr (refl, λ u wanted. iroh.has-build u _ ∙ wanted, tt));
  }

  -- In any interleaving of edits and appliers since the start of the daemon: once every applier is
  -- done, what is reported was written for the latest edit, it is not `Pending`, and unless it
  -- tells of a rebind that failed, each relay that the saved settings ask for is in the endpoint's
  -- map.
  pub report_of_latest_edit :
      (settings : RelaySettings) (moves : List (Move Url))
      → (run_moves iroh parse_url defaults moves (started iroh parse_url defaults settings)).waiting
        ≡ []
      → (run_moves iroh parse_url defaults moves (started iroh parse_url defaults settings)).holder
        ≡ none
      → let s =
          run_moves iroh parse_url defaults moves (started iroh parse_url defaults settings) in
        (s.writer ≡ s.generation) × Reports s.settings s.relay_map s.apply
  report_of_latest_edit settings moves idle unlocked =
      let s = run_moves iroh parse_url defaults moves (started iroh parse_url defaults settings) in
      let a =
        run_moves-IsSound moves (started iroh parse_url defaults settings)
          (started-IsSound settings) in
      elim a.answered [
        | inl (x, i, e) ↦ absurd (subst (λ (others : List (Applier Url)). In x others) idle i)
        | inr (inl now) ↦ absurd (subst (IsHeldBy s.generation) unlocked now)
        | inr (inr (w, r, free)) ↦ (w, r)
      ]
