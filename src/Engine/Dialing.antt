-- ===== src/Engine/Dialing.antt =====
-- Dials in flight (engine.rs: `DialSlot`, `spawn_dials`, the outcome closure of `tick`). A spawned
-- task is a value: it runs, then reports its outcome, then frees its slot, also when it panics.
pub mod Slots
use nullgate.Common.{ℕ, Bool, true, false, Option, none, some, List, [], ◌∷◌, ◌++◌, if◌then◌else◌}
use nullgate.Common.HashMap.{nat_key, get, put, delete}
use nullgate.Roster.{NodeId}
use nullgate.Engine.Backoff.{
  Backoff, record_dial_failure, reset_dial_backoff, expire_dial_backoff, dial_backoff_filter,
}

-- `HashSet<Id>`.
abbrev pub DialingSet : Type 0
DialingSet = List (NodeId × Unit {0})

abbrev pub is_present : Option (Unit {0}) → Bool
is_present none = false
is_present (some u) = true

abbrev pub is_dialing : NodeId → DialingSet → Bool
is_dialing peer dialing = is_present (get peer dialing)

pub data Phase : Type 0 where
  running reported : Phase

abbrev pub Task : Type 0
Task = NodeId × Phase

pub record Dials : Type 0 where
  pub dialing : DialingSet
  pub tasks : List Task

-- One round of the loop of `spawn_dials`.
unfoldable pub spawn_dial : NodeId → Dials → Dials
spawn_dial peer s =
    if is_dialing peer s.dialing
    then s
    else record { dialing = put peer tt s.dialing; tasks = (peer, Phase.running) ∷ s.tasks }

unfoldable pub spawn_dials : List NodeId → Dials → Dials
spawn_dials [] s = s
spawn_dials (peer ∷ to_dial) s = spawn_dials to_dial (spawn_dial peer s)

-- `DialSlot::drop`.
unfoldable pub free_slot : NodeId → DialingSet → DialingSet
free_slot peer dialing = delete peer dialing

-- What the engine keeps between ticks.
pub record Dialer : Type 0 where
  pub dials : Dials
  pub backoff : Backoff

-- The dials of a tick.
unfoldable pub dial_due : List NodeId → ℕ → Dialer → Dialer
dial_due to_dial now s = record {
  dials = spawn_dials (dial_backoff_filter to_dial s.backoff now) s.dials;
  backoff = s.backoff;
}

unfoldable pub on_outcome : NodeId → Bool → ℕ → Backoff → Backoff
on_outcome peer success now backoff =
    if success then reset_dial_backoff backoff peer else record_dial_failure backoff peer now

-- The steps of the engine and of its dial tasks, in any order. A task that panics frees its slot
-- without a report. Others clear or expire the backoff at any time.
pub data Step : Dialer → Dialer → Type 0 where
  tick : (to_dial : List NodeId) (now : ℕ) (s : Dialer) → Step s (dial_due to_dial now s)
  report :
      (d : DialingSet) (before after : List Task) (b : Backoff) (peer : NodeId) (success : Bool)
      (now : ℕ)
      → Step
          (record {
            dials = record { dialing = d; tasks = before ++ (peer, Phase.running) ∷ after };
            backoff = b;
          })
          (record {
            dials = record { dialing = d; tasks = before ++ (peer, Phase.reported) ∷ after };
            backoff = on_outcome peer success now b;
          })
  ended :
      (d : DialingSet) (before after : List Task) (b : Backoff) (peer : NodeId) (phase : Phase)
      → Step
          (record {
            dials = record { dialing = d; tasks = before ++ (peer, phase) ∷ after };
            backoff = b;
          })
          (record {
            dials = record { dialing = free_slot peer d; tasks = before ++ after };
            backoff = b;
          })
  connected :
      (peer : NodeId) (s : Dialer)
      → Step s (record { dials = s.dials; backoff = reset_dial_backoff s.backoff peer })
  recover :
      (s : Dialer) → Step s (record { dials = s.dials; backoff = expire_dial_backoff s.backoff })

abbrev pub idle : Dialer
idle = record { dials = record { dialing = []; tasks = [] }; backoff = [] }

pub data Reachable : Dialer → Type 0 where
  start : Reachable idle
  next : {s t : Dialer} → Reachable s → Step s t → Reachable t
