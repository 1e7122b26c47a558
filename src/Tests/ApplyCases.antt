-- ===== src/Tests/ApplyCases.antt =====
-- Relay settings on their way to an endpoint. The URLs are told apart by their length.
use nullgate.Common.{
  ℕ, ◌≡◌, refl, Bool, true, false, not, ◌&&◌, Option, none, some, List, [], ◌∷◌, ◌++◌, ◌==◌, select,
  arith,
}
use nullgate.Common.HashMap.{nat_key}
use nullgate.Relays.{has_url}
use nullgate.Relays.Settings.{
  RelayPolicy, RelaySettings, urls_of, configure, configs_from, relay_configs, desired,
  desired_relay_configs, token_change_needs_rebind, any_new_token, config_of,
}
use nullgate.Engine.RelayApply.{
  Iroh, failed, stuck_on, still_using, Answer, Move, edit, acquire, State, started, run_moves,
  advance, set_relay_settings, save_valid, flip, job_of, stale_urls, take_nth, go_on, settle, retry,
  if_current, push_map, insert_configs, remove_urls,
}
use nullgate.Engine.RelayApply.Report.{Reports, report_of_latest_edit}
use nullgate.Engine.RelayApply.Release.{acts, lock_is_released}
use Prim.Native.String.{String, len}

has-remove_lem :
    (u v : ℕ) (m : List ℕ)
    → has_url u (select (λ w. not (v == w)) m) ≡ (not (v == u) && has_url u m)
has-remove_lem u v [] = ground arith
has-remove_lem u v (w ∷ m) = ground (arith, has-remove_lem u v m)

abbrev url_lists : Iroh ℕ
url_lists = record {
  RelayMap = List ℕ;
  has = has_url;
  insert = λ c m. c.url ∷ m;
  remove = λ v m. select (λ w. not (v == w)) m;
  build = urls_of;
  has-insert = λ u c m. refl;
  has-remove = has-remove_lem;
  has-build = λ u cs. refl;
}

abbrev parse : String → Option ℕ
parse s = some (len s)

abbrev only_relay : String → RelaySettings
only_relay url = record {
  servers = record { url = url; token = none } ∷ [];
  mode = RelayPolicy.only;
}

-- The endpoint's home is the given relay, and calls are acknowledged or not.
abbrev answer : Bool → Option ℕ → Answer ℕ
answer acknowledged home = record {
  acknowledges = λ u. acknowledged;
  home = home;
  past_deadline = true;
  rebuild_error = none;
}

model : Unit {0}
unfolding started run_moves advance set_relay_settings save_valid flip job_of stale_urls take_nth
    go_on settle retry if_current push_map insert_configs remove_urls configure configs_from
    relay_configs desired desired_relay_configs token_change_needs_rebind any_new_token config_of
model = tt

abbrev at_start : State ℕ (List ℕ)
unfolding model
at_start = started url_lists parse [] (only_relay "https://a")

abbrev after : List (Move ℕ) → State ℕ (List ℕ)
unfolding model
after moves = run_moves url_lists parse [] moves at_start

abbrev applier_runs : ℕ → Option ℕ → List (Move ℕ)
applier_runs i home =
    acquire i
    ∷ acts (answer true none ∷ answer true none ∷ answer true home ∷ answer true none ∷ [])

abbrev one_edit : List (Move ℕ)
one_edit = edit (only_relay "https://bb") true ∷ applier_runs 0 (some 10)

swapped : (after one_edit).relay_map ≡ 10 ∷ []
unfolding model
swapped = refl

old_home :
    (after (edit (only_relay "https://bb") true ∷ applier_runs 0 (some 9))).apply
    ≡ failed (still_using 9)
unfolding model
old_home = refl

-- The second edit removes what the first one wanted, and the applier of the first one gives up: the
-- relay that was there before the two stays.
two_edits_leave_a_relay :
    (after (
      edit (only_relay "https://bb") true
        ∷ edit (only_relay "https://ccc") true
        ∷ applier_runs 1 none
      ++ applier_runs 0 none)).relay_map
    ≡ 11 ∷ 9 ∷ []
unfolding model
two_edits_leave_a_relay = refl

report_of_latest_edit_example :
    ((after one_edit).writer ≡ (after one_edit).generation)
    × Reports url_lists parse []
        (after one_edit).settings
        (after one_edit).relay_map
        (after one_edit).apply
unfolding model
report_of_latest_edit_example =
    report_of_latest_edit url_lists parse [] (only_relay "https://a") one_edit refl refl

abbrev never : List (Answer ℕ)
never =
    answer false (some 9)
    ∷ answer false (some 9)
    ∷ answer false (some 9)
    ∷ answer false (some 9)
    ∷ answer false (some 9)
    ∷ answer false (some 9)
    ∷ answer false (some 9)
    ∷ answer false (some 9)
    ∷ answer false (some 9)
    ∷ []

abbrev held : State ℕ (List ℕ)
unfolding model
held = after (edit (only_relay "https://bb") true ∷ acquire 0 ∷ [])

lock_is_released_example : (run_moves url_lists parse [] (acts never) held).holder ≡ none
unfolding model
lock_is_released_example =
    lock_is_released url_lists parse [] never held
      (refl, (refl, (refl, (refl, (refl, (refl, (refl, (refl, (refl, tt))))))))) (omega arith)

never_acknowledged :
    (run_moves url_lists parse [] (acts never) held).apply ≡ failed (stuck_on (10 ∷ 9 ∷ []))
unfolding model
never_acknowledged = refl
