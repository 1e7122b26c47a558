-- ===== src/Engine/Dialing/Slots.antt =====
-- At most one dial for each peer is in flight (engine.rs: `spawn_dials`, `DialSlot`).
use nullgate.Common.{
  ℕ, ◌+◌, ◌≡◌, ◌∙◌, refl, sym, Bool, ◌||◌, ◌&&◌, List, [], ◌∷◌, ◌++◌, arith, ◌==◌, if◌then◌else◌,
}
use nullgate.Common.HashMap.{nat_key, get, get-put, get-delete}
use nullgate.Common.Maps.{contains}
use nullgate.Roster.{NodeId}
use nullgate.Engine.Backoff.{is_due, dial_backoff_filter}
use nullgate.Common.Sets.{contains-select}
use nullgate.Engine.Dialing.{
  is_dialing, Phase, Task, Dials, spawn_dial, spawn_dials, free_slot, Dialer, dial_due, Step, tick,
  report, ended, connected, recover, Reachable, start, next,
}

-- The number of tasks that dial a peer.
pub count : NodeId → List Task → ℕ
count p [] = 0
count p ((q, phase) ∷ tasks) = (if q == p then 1 else 0) + count p tasks

count-append : (p : ℕ) (xs ys : List Task) → count p (xs ++ ys) ≡ count p xs + count p ys
unfolding count
count-append p [] ys = omega arith
count-append p (x ∷ xs) ys = omega (arith, count-append p xs ys)

abbrev pub one_if : Bool → ℕ
one_if b = if b then 1 else 0

-- A peer has one task if its slot is taken, and none otherwise.
abbrev pub IsExclusive : Dials → Type 0
IsExclusive s = (p : NodeId) → count p s.tasks ≡ one_if (is_dialing p s.dialing)

spawn_dial-count :
    (peer p : NodeId) (s : Dials)
    → IsExclusive s
    → (count p (spawn_dial peer s).tasks ≡ one_if (peer == p || is_dialing p s.dialing))
      × (is_dialing p (spawn_dial peer s).dialing ≡ (peer == p || is_dialing p s.dialing))
unfolding spawn_dial count
spawn_dial-count peer p s e = ground (arith, e p, e peer, get-put peer p tt s.dialing)

spawn_dial-IsExclusive :
    (peer : NodeId) (s : Dials) → IsExclusive s → IsExclusive (spawn_dial peer s)
spawn_dial-IsExclusive peer s e p = let r = spawn_dial-count peer p s e in ground (arith, r)

spawn_dials-IsExclusive :
    (peers : List NodeId) (s : Dials) → IsExclusive s → IsExclusive (spawn_dials peers s)
unfolding spawn_dials
spawn_dials-IsExclusive [] s e = e
spawn_dials-IsExclusive (peer ∷ peers) s e =
    spawn_dials-IsExclusive peers (spawn_dial peer s) (spawn_dial-IsExclusive peer s e)

spawn_dials-count :
    (peers : List NodeId) (p : NodeId) (s : Dials)
    → IsExclusive s
    → count p (spawn_dials peers s).tasks ≡ one_if (contains p peers || is_dialing p s.dialing)
unfolding spawn_dials
spawn_dials-count [] p s e = e p
spawn_dials-count (peer ∷ peers) p s e =
    let r = spawn_dial-count peer p s e in
    spawn_dials-count peers p (spawn_dial peer s) (spawn_dial-IsExclusive peer s e)
    ∙ ground (arith, r)

count-middle :
    (p peer : NodeId) (before after : List Task) (phase : Phase)
    → count p (before ++ (peer, phase) ∷ after)
      ≡ count p before + (one_if (peer == p) + count p after)
unfolding count
count-middle p peer before after phase = count-append p before ((peer, phase) ∷ after)

Step-IsExclusive : {s t : Dialer} → Step s t → IsExclusive s.dials → IsExclusive t.dials
unfolding dial_due free_slot
Step-IsExclusive (tick to_dial now s) e p =
    spawn_dials-IsExclusive (dial_backoff_filter to_dial s.backoff now) s.dials e p
Step-IsExclusive (report d before after b peer success now) e p =
    count-middle p peer before after Phase.reported
    ∙ sym (count-middle p peer before after Phase.running)
    ∙ e p
Step-IsExclusive (ended d before after b peer phase) e p = ground (
  arith,
  e p,
  e peer,
  count-middle p peer before after phase,
  count-append p before after,
  get-delete peer p d,
)
Step-IsExclusive (connected peer s) e p = e p
Step-IsExclusive (recover s) e p = e p

-- In every reachable state, whatever the order of ticks, outcomes, panics and resets, at most one
-- dial of each peer is in flight, and a peer is in the dialing set exactly when one is: a slot is
-- freed however its dial ends.
pub reachable-IsExclusive : {s : Dialer} → Reachable s → IsExclusive s.dials
unfolding count get
reachable-IsExclusive start p = refl
reachable-IsExclusive (next r step) p = Step-IsExclusive step (reachable-IsExclusive r) p

-- After a tick in a reachable state there is one dial of each peer that is to be dialed and is
-- past its backoff window, one of each peer that had one before, and none of any other.
pub dial_due-count :
    {s : Dialer}
    → Reachable s
    → (to_dial : List NodeId) (now : ℕ) (p : NodeId)
    → count p (dial_due to_dial now s).dials.tasks
      ≡ one_if ((contains p to_dial && is_due s.backoff now p) || is_dialing p s.dials.dialing)
unfolding dial_due dial_backoff_filter
dial_due-count {s} r to_dial now p = rw (← contains-select (is_due s.backoff now) p to_dial) (
    spawn_dials-count (dial_backoff_filter to_dial s.backoff now) p s.dials
      (reachable-IsExclusive r))
