-- ===== src/Daemon/Subscribe.antt =====
-- Forwarding engine events to a subscriber (crates/ipn-daemon/src/main.rs: `subscribe_loop`). What
-- the loop meets is the list of the events that it receives, with `quiet` where the quiet window
-- passes without one; `n` is how many frames can be sent before the client is gone.
use nullgate.Common.{
  ℕ, zero, suc, ◌+◌, ◌≡◌, ap, ◌∙◌, Bool, true, false, ◌||◌, List, [], ◌∷◌, ◌++◌, length, arith,
  if◌then◌else◌,
}
use nullgate.Common.Text.{Text}
use native.Mathlib.Numerals.{unary_clauses}

pub data Next : Type 0 where
  join_sas : List Text → Next
  join_request : Text → Text → List Text → Next
  -- `Changed`, and the events about the TUN device.
  changed lagged closed quiet : Next

pub data IpcEvent : Type 0 where
  status : IpcEvent
  join_sas_event : List Text → IpcEvent
  join_request_event : Text → Text → List Text → IpcEvent

-- The loop returns when a frame cannot be sent.
unfoldable pub send_event : ℕ → IpcEvent → (ℕ → List IpcEvent) → List IpcEvent
send_event zero ev later = []
send_event (suc n) ev later = ev ∷ later n

-- What is sent, from a state in which a status is pending or not.
unfoldable pub subscribe_loop : ℕ → Bool → List Next → List IpcEvent
unfolding send_event
subscribe_loop n pending [] = []
subscribe_loop n pending (join_sas sas ∷ events) =
    send_event n (join_sas_event sas) (λ m. subscribe_loop m pending events)
subscribe_loop n pending (join_request node hostname sas ∷ events) =
    send_event n (join_request_event node hostname sas) (λ m. subscribe_loop m pending events)
subscribe_loop n pending (changed ∷ events) = subscribe_loop n true events
subscribe_loop n pending (lagged ∷ events) = subscribe_loop n true events
subscribe_loop n pending (closed ∷ events) = []
subscribe_loop n true (quiet ∷ events) = send_event n status (λ m. subscribe_loop m false events)
subscribe_loop n false (quiet ∷ events) = subscribe_loop n false events

-- Events without a pause or the end of the channel between them.
abbrev pub IsBurst : List Next → Type 0
IsBurst [] = Unit
IsBurst (closed ∷ events) = ⊥
IsBurst (quiet ∷ events) = ⊥
IsBurst (_ ∷ events) = IsBurst events

abbrev pub joins : List Next → List IpcEvent
joins [] = []
joins (join_sas sas ∷ events) = join_sas_event sas ∷ joins events
joins (join_request node hostname sas ∷ events) =
    join_request_event node hostname sas ∷ joins events
joins (_ ∷ events) = joins events

abbrev pub is_stale : List Next → Bool
is_stale [] = false
is_stale (changed ∷ events) = true
is_stale (lagged ∷ events) = true
is_stale (_ ∷ events) = is_stale events

suc_add : (a b : ℕ) → suc a + b ≡ suc (a + b)
suc_add a b = omega arith

send_event-suc :
    (a b : ℕ) (ev : IpcEvent) (later : ℕ → List IpcEvent)
    → send_event (suc a + b) ev later ≡ ev ∷ later (a + b)
unfolding send_event
send_event-suc a b ev later = ap (λ n. send_event n ev later) (suc_add a b)

-- A burst of events in which fewer frames are to be sent than can be sends the join events of the
-- burst, in their order and before the pause. At the pause one status is sent if one was pending
-- or an event of the burst asked for one, however many did, and none otherwise.
pub burst_is_coalesced :
    (burst later : List Next) (m : ℕ) (pending : Bool)
    → IsBurst burst
    → subscribe_loop (length (joins burst) + suc m) pending (burst ++ quiet ∷ later)
      ≡ joins burst
        ++ (if pending || is_stale burst
            then status ∷ subscribe_loop m false later
            else subscribe_loop (suc m) false later)
unfolding subscribe_loop
burst_is_coalesced [] later m true h =
    simp unary_clauses (ap (λ k. status ∷ subscribe_loop k false later) (omega arith))
burst_is_coalesced [] later m false h = ap (λ k. subscribe_loop k false later) (omega arith)
burst_is_coalesced (join_sas sas ∷ burst) later m pending h =
    send_event-suc (length (joins burst)) (suc m) (join_sas_event sas) _
    ∙ ap (◌∷◌ (join_sas_event sas)) (burst_is_coalesced burst later m pending h)
burst_is_coalesced (join_request node hostname sas ∷ burst) later m pending h =
    send_event-suc (length (joins burst)) (suc m) (join_request_event node hostname sas) _
    ∙ ap (◌∷◌ (join_request_event node hostname sas)) (burst_is_coalesced burst later m pending h)
burst_is_coalesced (changed ∷ burst) later m true h = burst_is_coalesced burst later m true h
burst_is_coalesced (changed ∷ burst) later m false h = burst_is_coalesced burst later m true h
burst_is_coalesced (lagged ∷ burst) later m true h = burst_is_coalesced burst later m true h
burst_is_coalesced (lagged ∷ burst) later m false h = burst_is_coalesced burst later m true h
burst_is_coalesced (closed ∷ burst) later m pending h = absurd h
burst_is_coalesced (quiet ∷ burst) later m pending h = absurd h
