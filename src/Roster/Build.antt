-- ===== src/Roster/Build.antt =====
-- `Roster::build` (roster.rs): authentic entries, their order, the fold, the spent flags and
-- the addresses. The clock is the argument `now`, in milliseconds.
pub mod Convergence
pub mod Founding
pub mod Unique
use nullgate.Common.{
  ℕ, ◌+◌, ◌-◌, ◌^◌, min, Bool, true, false, ◌&&◌, ◌||◌, Option, List, [], ◌∷◌, ltb, leb, ◌==◌,
  if◌then◌else◌, is_some_and,
}
use nullgate.Common.Maps.{Map, insert, contains, IdSet}
use nullgate.Roster.{op_ts, Entry, Config, Invite, Roster}
use nullgate.Roster.Signing.{Crypto, content_id, verify_signature}
use nullgate.Roster.Fold.{FoldState, start, run}
use nullgate.Roster.Addresses.{assign_ips}

abbrev pub max_future_skew_ms : ℕ
max_future_skew_ms = 86_400_000

-- `u64::saturating_add`.
abbrev pub saturating_add : ℕ → ℕ → ℕ
saturating_add a b = min (a + b) (2 ^ 64 - 1)

unfoldable pub values : Map Entry → List Entry
values [] = []
values ((k, e) ∷ m) = e ∷ values m

abbrev pub invite_spent : Option Invite → IdSet → Bool
invite_spent invite consumed = is_some_and invite (λ i. contains i.0 consumed)

-- What `build` does after the loop.
unfoldable pub finish : Config → FoldState → Roster
finish cfg st = record st.roster {
  members = assign_ips st.members st.admitted_ts cfg.subnet;
  peer_invite_spent = invite_spent st.peer_invite st.consumed;
  controller_invite_spent = invite_spent st.controller_invite st.consumed;
}

module _ (c : Crypto) where
  unfoldable pub authentic : Config → ℕ → Entry → Bool
  authentic cfg now e =
      e.network_id == cfg.network_id
      && leb (op_ts e.op) (saturating_add now max_future_skew_ms)
      && verify_signature c e

  -- The map `valid`, by content id.
  unfoldable pub collect : Config → ℕ → List Entry → Map Entry → Map Entry
  collect cfg now [] valid = valid
  collect cfg now (e ∷ es) valid =
      collect cfg now es (if authentic cfg now e then insert (content_id c e) e valid else valid)

  abbrev pub entry_le : Entry → Entry → Bool
  entry_le a b =
      ltb (op_ts a.op) (op_ts b.op)
      || (op_ts a.op == op_ts b.op && leb (content_id c a) (content_id c b))

  unfoldable pub insert_entry : Entry → List Entry → List Entry
  insert_entry e [] = e ∷ []
  insert_entry e (f ∷ fs) = if entry_le e f then e ∷ f ∷ fs else f ∷ insert_entry e fs

  unfoldable pub sort_entries : List Entry → List Entry
  unfolding insert_entry
  sort_entries [] = []
  sort_entries (e ∷ es) = insert_entry e (sort_entries es)

  unfoldable pub ordered : Config → ℕ → List Entry → List Entry
  unfolding values sort_entries collect authentic
  ordered cfg now es = sort_entries (values (collect cfg now es []))

  unfoldable pub build : Config → ℕ → List Entry → Roster
  unfolding ordered run finish
  build cfg now es = finish cfg (run cfg start (ordered cfg now es))
