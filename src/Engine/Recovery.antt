-- ===== src/Engine/Recovery.antt =====
-- Recovery from lost connectivity (crates/ipn-core/src/engine.rs: `network_changed`,
-- `health_check`, `doc_reseed_targets`).
pub mod Strikes
pub mod Reseed
use nullgate.Common.{
  ℕ, suc, ◌+◌, ◌-◌, ◌%◌, ◌^◌, Bool, true, false, not, ◌&&◌, ◌||◌, Option, none, some, List, [], ◌∷◌,
  ltb, leb, ◌==◌, length, select, if◌then◌else◌,
}
use nullgate.Common.Maps.{IdSet, contains}
use nullgate.Roster.{NodeId}
use nullgate.Roster.Addresses.Place.{is_some}
use nullgate.Engine.Backoff.{expire_dial_backoff}
use nullgate.Engine.Config.{StoredConfig}
use nullgate.Engine.Session.{Env, Net, Session, OpError, Step, done, activate, soft_disconnect}
use nullgate.Engine.Operations.{others}
use nullgate.Common.Results.{Result, ok, err}

abbrev pub recovery_burst_cooldown_ms : ℕ
recovery_burst_cooldown_ms = 20_000

abbrev pub rebuild_after_strikes : ℕ
rebuild_after_strikes = 2

abbrev pub rebuild_min_spacing_ms : ℕ
rebuild_min_spacing_ms = 600_000

-- Whether a burst was fired; the hint itself goes to iroh either way.
unfoldable pub network_changed : ℕ → Session → Bool × Session
network_changed now s =
    if ltb (now - s.last_recovery_burst) recovery_burst_cooldown_ms then (false, s) else (
      true,
      record s {
        last_recovery_burst = now;
        live = record s.live {
          force_recover = true;
          last_doc_sync = 0;
          last_gossip_join = 0;
          dial_backoff = expire_dial_backoff s.live.dial_backoff;
        };
      },
    )

pub data HealthAction : Type 0 where
  healthy burst rebuilt failed : HealthAction

module _ {Addr : Type 0} (env : Env Addr) where
  -- Nothing to check, or at least one live connection.
  abbrev pub is_fine : Session → Bool
  is_fine s = not (is_some s.live.doc) || length (others env s) == 0 || ltb 0 (length s.live.conns)

  abbrev pub rebuild_due : ℕ → ℕ → Session → Bool
  rebuild_due now strikes s =
      leb rebuild_after_strikes strikes && leb rebuild_min_spacing_ms (now - s.last_rebuild)

  -- The rest of `rebuild_node` once the new node is bound or is not (`spawned`).
  abbrev pub rebuild_outcome : ℕ → Session × Result OpError (Unit {0}) → HealthAction × Session
  rebuild_outcome now (s, ok u) = (rebuilt, record s { last_rebuild = now })
  rebuild_outcome now (s, err e) = (failed, s)

  abbrev pub reactivate : Net → Option StoredConfig → Step (Unit {0})
  reactivate net none = done tt
  reactivate net (some cfg) = activate env net cfg

  unfoldable pub rebuild_node : Net → Bool → ℕ → Session → HealthAction × Session
  unfolding soft_disconnect activate
  rebuild_node net spawned now s =
      let down = (soft_disconnect env s).0 in
      if spawned then rebuild_outcome now (reactivate net s.config down) else (failed, down)

  -- `unhealthy_checks` is a `u32` that wraps around.
  unfoldable pub health_check : Net → Bool → ℕ → Session → HealthAction × Session
  unfolding network_changed rebuild_node
  health_check net spawned now s =
      let strikes = s.unhealthy_checks + 1 in
      if is_fine s
      then (healthy, record s { unhealthy_checks = 0 })
      else if rebuild_due now strikes s
      then rebuild_node net spawned now (record s { unhealthy_checks = 0 })
      else (burst, (network_changed now (record s { unhealthy_checks = strikes % 2 ^ 32 })).1)

abbrev pub nonempty : List NodeId → Option (List NodeId)
nonempty [] = none
nonempty (id ∷ more) = some (id ∷ more)

unfoldable pub doc_reseed_targets :
    List NodeId → IdSet → (NodeId → Bool) → Bool → Bool → Option (List NodeId)
doc_reseed_targets members connected is_fresh changed due =
    if length members == 0
    then none
    else if changed
    then some members
    else if not due
    then none
    else nonempty (select (λ id. contains id connected || is_fresh id) members)
