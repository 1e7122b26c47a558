-- ===== src/Tests/EngineCases.antt =====
-- Runs and theorems at the inputs of the unit tests (crates/ipn-core/src/engine.rs).
use nullgate.Common.{ℕ, ◌≡◌, arith, refl, true, false, some, List, [], ◌∷◌, ltb, if◌then◌else◌}
use nullgate.Common.HashMap.{nat_key, get, put, delete, each}
use nullgate.Engine.Backoff.{
  dial_backoff_filter, delay_ms, extend, record_dial_failure, reset_dial_backoff,
  expire_dial_backoff,
}
use nullgate.Engine.Dialing.{
  Dialer, dial_due, spawn_dials, spawn_dial, free_slot, on_outcome, Phase, tick, report, Reachable,
  start, next, idle,
}
use nullgate.Engine.Dialing.Slots.{IsExclusive, reachable-IsExclusive}
use nullgate.Engine.Connections.{
  Side, Connection, opened, resolve_duplicate, register_mesh, reconcile, on_closed,
}
use nullgate.Engine.Connections.Agreement.{both, double_dial_agrees}

model : Unit {0}
unfolding get put delete each dial_backoff_filter delay_ms extend record_dial_failure
    reset_dial_backoff expire_dial_backoff dial_due spawn_dials spawn_dial free_slot on_outcome
    resolve_duplicate register_mesh reconcile on_closed
model = tt

-- The first failure holds the peer back for 40 s.
held_at_30_s : dial_backoff_filter (1 ∷ []) (record_dial_failure [] 1 0) 30000 ≡ []
unfolding model
held_at_30_s = refl

freed_at_40_s : dial_backoff_filter (1 ∷ []) (record_dial_failure [] 1 0) 40000 ≡ 1 ∷ []
unfolding model
freed_at_40_s = refl

lower_id_wins : resolve_duplicate 1 2 Side.server false Side.client ≡ true
unfolding model
lower_id_wins = refl

closed_is_replaced : resolve_duplicate 1 2 Side.client true Side.server ≡ true
unfolding model
closed_is_replaced = refl

-- Two members are dialed, and the dial of the first fails.
abbrev dialed : Dialer
unfolding model
dialed = dial_due (1 ∷ 2 ∷ 1 ∷ []) 0 idle

abbrev failed : Dialer
unfolding model
failed = record {
  dials = record {
    dialing = dialed.dials.dialing;
    tasks = (2, Phase.running) ∷ (1, Phase.reported) ∷ [];
  };
  backoff = record_dial_failure [] 1 0;
}

dialed-Reachable : Reachable dialed
unfolding model
dialed-Reachable = next start (tick (1 ∷ 2 ∷ 1 ∷ []) 0 idle)

failed-Reachable : Reachable failed
unfolding model
failed-Reachable =
    next dialed-Reachable (report dialed.dials.dialing ((2, Phase.running) ∷ []) [] [] 1 false 0)

reachable-IsExclusive_example : IsExclusive failed.dials
reachable-IsExclusive_example = reachable-IsExclusive failed-Reachable

double_dial_agrees_example :
    (get 2 (both 1 2 true (opened 10 Side.client) (opened 11 Side.server) [])
      ≡ some (if ltb 1 2 then opened 10 Side.client else opened 11 Side.server))
    × (get 1 (both 2 1 false (opened 21 Side.client) (opened 20 Side.server) [])
        ≡ some (if ltb 1 2 then opened 20 Side.server else opened 21 Side.client))
unfolding get
double_dial_agrees_example =
    double_dial_agrees 1 2 10 11 20 21 true false [] [] (λ e. omega arith) (λ e. omega arith)
      (λ e. omega arith) refl refl

abbrev one_peer : List (ℕ × Connection)
one_peer = (2, opened 10 Side.client) ∷ []
