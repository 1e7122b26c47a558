-- ===== src/Engine/Backoff.antt =====
-- The dial backoff (engine.rs: `BackoffEntry`, `dial_backoff_filter`, `record_dial_failure`,
-- `reset_dial_backoff`, `expire_dial_backoff`).
pub mod Schedule
use nullgate.Common.{ℕ, ◌+◌, ◌*◌, ◌-◌, ◌^◌, min, Bool, true, Option, List, leb, select}
use nullgate.Common.HashMap.{nat_key, get, put, delete, each, map_or, or_default}
use nullgate.Roster.{NodeId}

abbrev pub dial_timeout_ms : ℕ
dial_timeout_ms = 20_000

abbrev pub dial_backoff_max_ms : ℕ
dial_backoff_max_ms = 300_000

pub record BackoffEntry : Type 0 where
  pub failures : ℕ
  pub next_ok_ms : ℕ

abbrev pub Backoff : Type 0
Backoff = List (NodeId × BackoffEntry)

abbrev pub no_failures : BackoffEntry
no_failures = record { failures = 0; next_ok_ms = 0 }

abbrev pub is_due : Backoff → ℕ → NodeId → Bool
is_due backoff now id = map_or true (λ (e : BackoffEntry). leb e.next_ok_ms now) (get id backoff)

unfoldable pub dial_backoff_filter : List NodeId → Backoff → ℕ → List NodeId
dial_backoff_filter to_dial backoff now = select (is_due backoff now) to_dial

-- `u64::saturating_mul` by a shift, with the shift capped, and the maximum.
unfoldable pub delay_ms : ℕ → ℕ
delay_ms failures =
    min (min (dial_timeout_ms * 2 ^ min failures 20) (2 ^ 64 - 1)) dial_backoff_max_ms

-- `failures` is a `u32` and `next_ok_ms` a `u64`, both saturating.
unfoldable pub extend : ℕ → BackoffEntry → BackoffEntry
extend now e =
    let failures = min (e.failures + 1) (2 ^ 32 - 1) in
    record { failures = failures; next_ok_ms = min (now + delay_ms failures) (2 ^ 64 - 1) }

unfoldable pub record_dial_failure : Backoff → NodeId → ℕ → Backoff
record_dial_failure backoff peer now =
    put peer (extend now (or_default no_failures (get peer backoff))) backoff

unfoldable pub reset_dial_backoff : Backoff → NodeId → Backoff
reset_dial_backoff backoff peer = delete peer backoff

unfoldable pub expire_dial_backoff : Backoff → Backoff
expire_dial_backoff backoff =
    each (λ (e : BackoffEntry). record { failures = e.failures; next_ok_ms = 0 }) backoff
