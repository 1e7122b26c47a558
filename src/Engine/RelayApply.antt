-- ===== src/Engine/RelayApply.antt =====
-- How a change of the relay settings reaches the live endpoint (crates/ipn-core/src/engine.rs:
-- `set_relay_settings`, `apply_relay_map`, `rebind_for_relay_tokens`, `settle_home_relay`). Each
-- edit spawns an applier; a list of moves is one interleaving of them. An edit is one move, since
-- it awaits nothing, and edits come one at a time. The calls of one attempt are one move, since
-- only the applier that has the lock makes any; each look at the generation is a move, and so is
-- each write of the state that is reported. iroh's relay map is a parameter.
pub mod Report
pub mod Release
use nullgate.Common.{
  ℕ, zero, suc, ◌+◌, ◌≡◌, ◌⊎◌, ltb, ◌==◌, inl, inr, Bool, true, false, not, ◌&&◌, ◌||◌, Option,
  none, some, List, [], ◌∷◌, ◌++◌, select, if◌then◌else◌,
}
use nullgate.Common.HashMap.{Key}
use nullgate.Common.Results.{Result, ok, err}
use nullgate.Common.Text.{Text}
use nullgate.Relays.{has_url}
use nullgate.Relays.Settings.{
  RelaySettings, RelayConfig, SettingsError, urls_of, or_none, relay_configs, desired_relay_configs,
  token_change_needs_rebind,
}
use Prim.Native.String.{String}

-- `iroh::RelayMap`. A call changes the map at once; only its acknowledgment can be late.
pub record Iroh (Url : Type 0) ⦃same : Key Url⦄ : Type 1 where
  pub RelayMap : Type 0
  pub has : Url → RelayMap → Bool
  pub insert : RelayConfig Url → RelayMap → RelayMap
  pub remove : Url → RelayMap → RelayMap
  pub build : List (RelayConfig Url) → RelayMap
  pub has-insert :
      (u : Url) (c : RelayConfig Url) (m : RelayMap)
      → has u (insert c m) ≡ (same.beq c.url u || has u m)
  pub has-remove : (u v : Url) (m : RelayMap) → has u (remove v m) ≡ (not (same.beq v u) && has u m)
  pub has-build :
      (u : Url) (cs : List (RelayConfig Url)) → has u (build cs) ≡ has_url u (urls_of cs)

-- What the text of a failure tells.
pub data ApplyFailure (Url : Type 0) : Type 0 where
  -- the relays whose calls were not acknowledged
  stuck_on : List Url → ApplyFailure Url
  rebind_failed : Text → ApplyFailure Url
  still_using : Url → ApplyFailure Url

pub data RelayApply (Url : Type 0) : Type 0 where
  applied pending : RelayApply Url
  failed : ApplyFailure Url → RelayApply Url

-- What an applier is spawned to do: the map to push and the entries to remove, or a rebind.
pub data Job (Url : Type 0) : Type 0 where
  push : List (RelayConfig Url) → List Url → Job Url
  rebind : Job Url

pub record Applier (Url : Type 0) : Type 0 where
  pub generation : ℕ
  pub job : Job Url

-- Where the applier stands that holds the lock; a number counts the attempts.
pub data ApplierPhase (Url : Type 0) : Type 0 where
  checking : Job Url → ApplierPhase Url
  pushing : List (RelayConfig Url) → List Url → ℕ → ApplierPhase Url
  retrying : List (RelayConfig Url) → List Url → ℕ → List Url → ApplierPhase Url
  settling : List (RelayConfig Url) → ApplierPhase Url
  rebuilding : ApplierPhase Url
  rebuilt : RelayApply Url → ApplierPhase Url
  writing : RelayApply Url → ApplierPhase Url

-- `writer` is the generation of the edit or the applier that wrote `apply`; `changed` counts the
-- events.
pub record State (Url : Type 0) (RelayMap : Type 0) : Type 0 where
  pub settings : RelaySettings
  pub preferred : List Url
  pub apply : RelayApply Url
  pub writer : ℕ
  pub generation : ℕ
  pub waiting : List (Applier Url)
  pub holder : Option (ℕ × ApplierPhase Url)
  pub relay_map : RelayMap
  pub changed : ℕ

-- What the endpoint and the clock answer to one action.
pub record Answer (Url : Type 0) : Type 0 where
  pub acknowledges : Url → Bool
  pub home : Option Url
  pub past_deadline : Bool
  pub rebuild_error : Option Text

pub data Move (Url : Type 0) : Type 0 where
  -- with whether the file can be written
  edit : RelaySettings → Bool → Move Url
  acquire : ℕ → Move Url
  act : Answer Url → Move Url

pub data EditError : Type 0 where
  invalid : SettingsError → EditError
  unwritable : EditError

-- `1..=ATTEMPTS`.
abbrev pub attempts : ℕ
attempts = 3

abbrev pub or_else_these : {A E : Type 0} → A → E ⊎ A → A
or_else_these a (inl e) = a
or_else_these a (inr b) = b

-- Any of the waiting appliers can be given the lock.
unfoldable pub take_nth {ℓ} : {A : Type ℓ} → ℕ → List A → Option (A × List A)
take_nth n [] = none
take_nth zero (a ∷ more) = some (a, more)
take_nth (suc n) (a ∷ more) = elim (take_nth n more) [ none ↦ none | some p ↦ some (p.0, a ∷ p.1) ]

module _ {Url : Type 0} ⦃same : Key Url⦄ where
  -- `BTreeSet::difference`.
  abbrev pub difference : List Url → List Url → List Url
  difference urls others = select (λ u. not (has_url u others)) urls

  -- The calls that timed out, in the order of the calls.
  abbrev pub stuck_urls : (Url → Bool) → List (RelayConfig Url) → List Url → List Url
  stuck_urls acknowledges desired stale =
      select (λ u. not (acknowledges u)) (urls_of desired ++ stale)

  abbrev pub first_phase : Job Url → ApplierPhase Url
  first_phase (push desired stale) = pushing desired stale 1
  first_phase rebind = rebuilding

  -- One round of `settle_home_relay`'s loop, while the generation is its own.
  unfoldable pub settle : List (RelayConfig Url) → Option Url → Bool → ApplierPhase Url
  settle desired none past_deadline = writing applied
  settle desired (some home) past_deadline =
      if has_url home (urls_of desired)
      then writing applied
      else if past_deadline
      then writing (failed (still_using home))
      else settling desired

  -- After an attempt.
  abbrev pub after_push : List (RelayConfig Url) → List Url → ℕ → List Url → ApplierPhase Url
  after_push desired stale n [] = settling desired
  after_push desired stale n (u ∷ us) = retrying desired stale n (u ∷ us)

  unfoldable pub retry : List (RelayConfig Url) → List Url → ℕ → List Url → ApplierPhase Url
  retry desired stale n stuck =
      if ltb n attempts then pushing desired stale (n + 1) else writing (failed (stuck_on stuck))

  module _ (parse_url : String → Option Url) (defaults : List (RelayConfig Url)) where
    -- What a node is built with: settings that are invalid are passed over.
    abbrev pub desired_of : RelaySettings → List (RelayConfig Url)
    desired_of settings = or_else_these defaults (desired_relay_configs parse_url defaults settings)

    abbrev pub urls_or_none : RelaySettings → List Url
    urls_or_none settings = urls_of (or_none (relay_configs parse_url settings))

    -- Anything that may have been put in the map before and is no longer wanted.
    unfoldable pub stale_urls : RelaySettings → List (RelayConfig Url) → List Url
    stale_urls old desired = difference (urls_of defaults ++ urls_or_none old) (urls_of desired)

    unfoldable pub job_of : RelaySettings → RelaySettings → List (RelayConfig Url) → Job Url
    unfolding stale_urls
    job_of old settings desired =
        if token_change_needs_rebind parse_url old settings
        then rebind
        else push desired (stale_urls old desired)

  module _ (iroh : Iroh Url) where
    unfoldable pub insert_configs : List (RelayConfig Url) → iroh.RelayMap → iroh.RelayMap
    insert_configs [] m = m
    insert_configs (c ∷ cs) m = insert_configs cs (iroh.insert c m)

    unfoldable pub remove_urls : List Url → iroh.RelayMap → iroh.RelayMap
    remove_urls [] m = m
    remove_urls (u ∷ us) m = remove_urls us (iroh.remove u m)

    -- Insertions come before removals.
    unfoldable pub push_map : List (RelayConfig Url) → List Url → iroh.RelayMap → iroh.RelayMap
    unfolding insert_configs remove_urls
    push_map desired stale m = remove_urls stale (insert_configs desired m)

    abbrev pub go_to : ℕ → ApplierPhase Url → State Url iroh.RelayMap → State Url iroh.RelayMap
    go_to g p s = record s { holder = some (g, p) }

    abbrev pub release : State Url iroh.RelayMap → State Url iroh.RelayMap
    release s = record s { holder = none }

    -- Goes on if no newer edit has landed.
    unfoldable pub if_current :
        ℕ → ApplierPhase Url → State Url iroh.RelayMap → State Url iroh.RelayMap
    if_current g p s = if s.generation == g then go_to g p s else release s

    abbrev pub state_after :
        State Url iroh.RelayMap
        → Result EditError (State Url iroh.RelayMap)
        → State Url iroh.RelayMap
    state_after s (ok t) = t
    state_after s (err e) = s

    abbrev pub lock_of :
        State Url iroh.RelayMap
        → Option (Applier Url × List (Applier Url))
        → State Url iroh.RelayMap
    lock_of s none = s
    lock_of s (some (a, others)) = record s {
      waiting = others;
      holder = some (a.generation, checking a.job);
    }

    abbrev pub give_lock :
        ℕ → Option (ℕ × ApplierPhase Url) → State Url iroh.RelayMap → State Url iroh.RelayMap
    give_lock i none s = lock_of s (take_nth i s.waiting)
    give_lock i (some held) s = s

    module _ (parse_url : String → Option Url) (defaults : List (RelayConfig Url)) where
      -- What a valid edit does once it is saved.
      unfoldable pub flip :
          RelaySettings → List (RelayConfig Url) → State Url iroh.RelayMap → State Url iroh.RelayMap
      unfolding job_of
      flip settings desired s =
          let g = s.generation + 1 in
          record s {
            settings = settings;
            preferred = urls_or_none parse_url defaults settings;
            apply = pending;
            writer = g;
            generation = g;
            waiting =
                (record {
                  generation = g;
                  job = job_of parse_url defaults s.settings settings desired;
                })
                ∷ s.waiting;
            changed = s.changed + 1;
          }

      unfoldable pub save_valid :
          RelaySettings
          → Bool
          → SettingsError ⊎ List (RelayConfig Url)
          → State Url iroh.RelayMap
          → Result EditError (State Url iroh.RelayMap)
      unfolding flip
      save_valid settings writes (inl e) s = err (EditError.invalid e)
      save_valid settings writes (inr desired) s =
          if writes then ok (flip settings desired s) else err EditError.unwritable

      unfoldable pub set_relay_settings :
          RelaySettings
          → Bool
          → State Url iroh.RelayMap
          → Result EditError (State Url iroh.RelayMap)
      unfolding save_valid
      set_relay_settings settings writes s =
          save_valid settings writes (desired_relay_configs parse_url defaults settings) s

      -- A rebuilt node reads the settings that are saved by then.
      abbrev pub on_rebuilt : ℕ → Option Text → State Url iroh.RelayMap → State Url iroh.RelayMap
      on_rebuilt g none s = record s {
        relay_map = iroh.build (desired_of parse_url defaults s.settings);
        holder = some (g, rebuilt applied);
      }
      on_rebuilt g (some error) s = go_to g (rebuilt (failed (rebind_failed error))) s

      -- The next action of `apply_relay_map` or `rebind_for_relay_tokens`.
      unfoldable pub go_on :
          ℕ → ApplierPhase Url → Answer Url → State Url iroh.RelayMap → State Url iroh.RelayMap
      unfolding if_current push_map settle retry
      go_on g (checking job) answer s = if_current g (first_phase job) s
      go_on g (pushing desired stale n) answer s = record s {
        relay_map = push_map desired stale s.relay_map;
        holder =
            some (g, after_push desired stale n (stuck_urls answer.acknowledges desired stale));
      }
      go_on g (retrying desired stale n stuck) answer s =
          if_current g (retry desired stale n stuck) s
      go_on g (settling desired) answer s =
          if_current g (settle desired answer.home answer.past_deadline) s
      go_on g rebuilding answer s = on_rebuilt g answer.rebuild_error s
      go_on g (rebuilt apply) answer s = if_current g (writing apply) s
      go_on g (writing apply) answer s = record s {
        apply = apply;
        writer = g;
        holder = none;
        changed = s.changed + 1;
      }

      abbrev pub act_as :
          Option (ℕ × ApplierPhase Url)
          → Answer Url
          → State Url iroh.RelayMap
          → State Url iroh.RelayMap
      act_as none answer s = s
      act_as (some (g, p)) answer s = go_on g p answer s

      unfoldable pub advance : Move Url → State Url iroh.RelayMap → State Url iroh.RelayMap
      unfolding set_relay_settings take_nth go_on
      advance (edit settings writes) s = state_after s (set_relay_settings settings writes s)
      advance (acquire i) s = give_lock i s.holder s
      advance (act answer) s = act_as s.holder answer s

      unfoldable pub run_moves : List (Move Url) → State Url iroh.RelayMap → State Url iroh.RelayMap
      unfolding advance
      run_moves [] s = s
      run_moves (m ∷ moves) s = run_moves moves (advance m s)

      -- The state at the start of the daemon: the node is built from the saved settings.
      unfoldable pub started : RelaySettings → State Url iroh.RelayMap
      started settings = record {
        settings = settings;
        preferred = urls_or_none parse_url defaults settings;
        apply = applied;
        writer = 0;
        generation = 0;
        waiting = [];
        holder = none;
        relay_map = iroh.build (desired_of parse_url defaults settings);
        changed = 0;
      }
