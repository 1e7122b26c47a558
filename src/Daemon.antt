-- ===== src/Daemon.antt =====
-- Parts of the daemon: what it does when the machine sleeps and wakes
-- (crates/ipn-daemon/src/power.rs), and its memory watchdog (crates/ipn-daemon/src/watchdog.rs).
pub mod Connection
pub mod Requests
pub mod Dispatch
pub mod Subscribe
pub mod Suspend
use nullgate.Common.{
  ℕ, ◌+◌, ◌-◌, ◌*◌, ◌^◌, min, Bool, true, false, ◌&&◌, Option, none, some, List, [], ◌∷◌, ltb, ◌==◌,
  if◌then◌else◌,
}
use nullgate.Roster.Addresses.Place.{is_some}
use nullgate.Secrets.{Os}
use nullgate.Engine.Session.{Env, Net, Session}
use nullgate.Engine.Operations.{set_online}

pub record PowerHandler : Type 0 where
  pub engine : Session
  pub resume_on_wake : Bool

-- `status().map(|s| s.online).unwrap_or(false)`: in a network, with its document open.
abbrev pub is_online : Session → Bool
is_online s = is_some s.config && is_some s.live.doc

module _ {Addr : Type 0} (env : Env Addr) where
  unfoldable pub on_sleep : Net → Os → PowerHandler → PowerHandler
  unfolding set_online
  on_sleep net os h =
      if is_online h.engine
      then record { engine = (set_online env net os false h.engine).0; resume_on_wake = true }
      else h

  unfoldable pub on_wake : Net → Os → PowerHandler → PowerHandler
  unfolding set_online
  on_wake net os h =
      if h.resume_on_wake
      then record { engine = (set_online env net os true h.engine).0; resume_on_wake = false }
      else h

abbrev pub mem_restart_exit_code : ℕ
mem_restart_exit_code = 92

abbrev pub default_limit_mb : ℕ
default_limit_mb = 1024

-- `u64::saturating_mul`.
abbrev pub limit_bytes : ℕ → ℕ
limit_bytes limit_mb = min (limit_mb * (1024 * 1024)) (2 ^ 64 - 1)

-- The loop over the samples of the memory in use: the exit code, once there is one.
unfoldable pub watch : ℕ → List (Option ℕ) → Option ℕ
watch limit [] = none
watch limit (none ∷ samples) = watch limit samples
watch limit (some rss ∷ samples) =
    let later = watch limit samples in if ltb rss limit then later else some mem_restart_exit_code

abbrev pub armed : ℕ → Option ℕ → List (Option ℕ) → Option ℕ
armed limit_mb none samples = none
armed limit_mb (some rss) samples = watch (limit_bytes limit_mb) samples

-- `spawn`: the first argument after the limit is the sample that shows whether there are any.
unfoldable pub watchdog : ℕ → Option ℕ → List (Option ℕ) → Option ℕ
unfolding watch
watchdog limit_mb first samples = if limit_mb == 0 then none else armed limit_mb first samples
