-- ===== src/Engine/RelayApply/Release.antt =====
-- No applier keeps the lock for ever (crates/ipn-core/src/engine.rs: `apply_relay_map`,
-- `settle_home_relay`).
use nullgate.Common.{
  ℕ, ◌+◌, ◌-◌, ◌*◌, ◌≤◌, ◌<◌, ◌≡◌, refl, inl, inr, ltb, ◌==◌, Bool, true, Option, none, some, List,
  [], ◌∷◌, length, arith, Bool-cases,
}
use nullgate.Common.HashMap.{Key}
use nullgate.Common.Text.{Text}
use nullgate.Relays.{has_url}
use nullgate.Relays.Settings.{RelayConfig, urls_of}
use nullgate.Engine.RelayApply.{
  Iroh, Job, push, rebind, ApplierPhase, checking, pushing, retrying, settling, rebuilding, rebuilt,
  writing, State, Answer, Move, act, attempts, first_phase, settle, after_push, retry, if_current,
  on_rebuilt, go_on, act_as, advance, run_moves, stuck_urls,
}
use Prim.Native.String.{String}

-- The actions an applier still takes at most.
abbrev actions_left : {Url : Type 0} → ApplierPhase Url → ℕ
actions_left (checking job) = 8
actions_left (pushing desired stale n) = 2 * (attempts - n) + 3
actions_left (retrying desired stale n stuck) = 2 * (attempts - n) + 2
actions_left (settling desired) = 2
actions_left rebuilding = 3
actions_left (rebuilt apply) = 2
actions_left (writing apply) = 1

abbrev held_for : {Url : Type 0} → Option (ℕ × ApplierPhase Url) → ℕ
held_for none = 0
held_for (some (g, p)) = actions_left p

-- The deadline of the wait for a home relay is over.
abbrev pub ArePast : {Url : Type 0} → List (Answer Url) → Type 0
ArePast [] = Unit
ArePast (a ∷ answers) = (a.past_deadline ≡ true) × ArePast answers

abbrev pub acts : {Url : Type 0} → List (Answer Url) → List (Move Url)
acts [] = []
acts (a ∷ answers) = act a ∷ acts answers

actions_left-bounds :
    {Url : Type 0} (p : ApplierPhase Url) → (0 < actions_left p) × (actions_left p ≤ 9)
actions_left-bounds (checking job) = ((omega arith), (omega arith))
actions_left-bounds (pushing desired stale n) = ((omega arith), (omega arith))
actions_left-bounds (retrying desired stale n stuck) = ((omega arith), (omega arith))
actions_left-bounds (settling desired) = ((omega arith), (omega arith))
actions_left-bounds rebuilding = ((omega arith), (omega arith))
actions_left-bounds (rebuilt apply) = ((omega arith), (omega arith))
actions_left-bounds (writing apply) = ((omega arith), (omega arith))

held_for_most : {Url : Type 0} (holder : Option (ℕ × ApplierPhase Url)) → held_for holder ≤ 9
held_for_most none = omega arith
held_for_most (some (g, p)) = (actions_left-bounds p).1

held_for-none :
    {Url : Type 0} (holder : Option (ℕ × ApplierPhase Url)) → held_for holder ≤ 0 → holder ≡ none
held_for-none none h = refl
held_for-none (some (g, p)) h = let more = (actions_left-bounds p).0 in absurd (omega arith)

module _ {Url : Type 0} ⦃same : Key Url⦄ where
  first_phase-actions_left : (job : Job Url) → actions_left (first_phase job) < 8
  first_phase-actions_left (push desired stale) = omega arith
  first_phase-actions_left rebind = omega arith

  after_push-actions_left :
      (desired : List (RelayConfig Url)) (stale : List Url) (n : ℕ) (stuck : List Url)
      → actions_left (after_push desired stale n stuck) < 2 * (attempts - n) + 3
  after_push-actions_left desired stale n [] = omega arith
  after_push-actions_left desired stale n (u ∷ us) = omega arith

  retry-actions_left :
      (desired : List (RelayConfig Url)) (stale : List Url) (n : ℕ) (stuck : List Url)
      → actions_left (retry desired stale n stuck) < 2 * (attempts - n) + 2
  unfolding retry
  retry-actions_left desired stale n stuck = elim (Bool-cases (ltb n attempts)) [
    | inl e ↦ rw e (ground arith)
    | inr e ↦ rw e (omega arith)
  ]

  settle-actions_left :
      (desired : List (RelayConfig Url)) (home : Option Url) (past_deadline : Bool)
      → past_deadline ≡ true
      → actions_left (settle desired home past_deadline) < 2
  unfolding settle
  settle-actions_left desired none past_deadline h = omega arith
  settle-actions_left desired (some home) past_deadline h =
      elim (Bool-cases (has_url home (urls_of desired))) [
        | inl e ↦ rw e (omega arith)
        | inr e ↦ rw (e, h) (omega arith)
      ]

  module _ (iroh : Iroh Url) (parse_url : String → Option Url)
      (defaults : List (RelayConfig Url)) where
    if_current-held_for :
        (g : ℕ) (q : ApplierPhase Url) (s : State Url iroh.RelayMap)
        → held_for (if_current iroh g q s).holder ≤ actions_left q
    unfolding if_current
    if_current-held_for g q s = elim (Bool-cases (s.generation == g)) [
      | inl e ↦ rw e (omega arith)
      | inr e ↦ rw e (omega arith)
    ]

    on_rebuilt-held_for :
        (g : ℕ) (error : Option Text) (s : State Url iroh.RelayMap)
        → held_for (on_rebuilt iroh parse_url defaults g error s).holder ≡ 2
    on_rebuilt-held_for g none s = refl
    on_rebuilt-held_for g (some error) s = refl

    go_on-held_for :
        (g : ℕ) (p : ApplierPhase Url) (answer : Answer Url) (s : State Url iroh.RelayMap)
        → answer.past_deadline ≡ true
        → held_for (go_on iroh parse_url defaults g p answer s).holder < actions_left p
    unfolding go_on
    go_on-held_for g (checking job) answer s h =
        let below = if_current-held_for g (first_phase job) s in
        let next = first_phase-actions_left job in omega arith
    go_on-held_for g (pushing desired stale n) answer s h =
        after_push-actions_left desired stale n (stuck_urls answer.acknowledges desired stale)
    go_on-held_for g (retrying desired stale n stuck) answer s h =
        let below = if_current-held_for g (retry desired stale n stuck) s in
        let next = retry-actions_left desired stale n stuck in omega arith
    go_on-held_for g (settling desired) answer s h =
        let below = if_current-held_for g (settle desired answer.home answer.past_deadline) s in
        let next = settle-actions_left desired answer.home answer.past_deadline h in omega arith
    go_on-held_for g rebuilding answer s h =
        let e = on_rebuilt-held_for g answer.rebuild_error s in omega arith
    go_on-held_for g (rebuilt apply) answer s h =
        let below = if_current-held_for g (writing apply) s in omega arith
    go_on-held_for g (writing apply) answer s h = omega arith

    act_as-held_for :
        (holder : Option (ℕ × ApplierPhase Url)) (answer : Answer Url) (s : State Url iroh.RelayMap)
        → s.holder ≡ holder
        → answer.past_deadline ≡ true
        → held_for (act_as iroh parse_url defaults holder answer s).holder ≤ held_for holder - 1
    act_as-held_for none answer s e h = rw e (omega arith)
    act_as-held_for (some (g, p)) answer s e h =
        let below = go_on-held_for g p answer s h in omega arith

    run_moves-held_for :
        (answers : List (Answer Url)) (s : State Url iroh.RelayMap)
        → ArePast answers
        → held_for (run_moves iroh parse_url defaults (acts answers) s).holder
          ≤ held_for s.holder - length answers
    unfolding run_moves advance
    run_moves-held_for [] s h = omega arith
    run_moves-held_for (a ∷ answers) s h =
        let first = act_as-held_for s.holder a s refl h.0 in
        let later = run_moves-held_for answers (act_as iroh parse_url defaults s.holder a s) h.1 in
        omega arith

    -- Once the deadline is over, an applier that has the lock lets it go within nine actions,
    -- however many calls iroh leaves without an acknowledgment and whichever relay is the home.
    pub lock_is_released :
        (answers : List (Answer Url)) (s : State Url iroh.RelayMap)
        → ArePast answers
        → 9 ≤ length answers
        → (run_moves iroh parse_url defaults (acts answers) s).holder ≡ none
    lock_is_released answers s h enough =
        let after = run_moves iroh parse_url defaults (acts answers) s in
        let below = run_moves-held_for answers s h in
        let most = held_for_most s.holder in held_for-none after.holder (omega arith)
