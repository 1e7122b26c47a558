-- ===== src/Notify.antt =====
-- The notifications of the tray agent (crates/ipn-gui/src/notify.rs). An instant is a number of
-- milliseconds; showing a notification is outside.
pub mod Absence
use nullgate.Common.{
  ℕ, zero, suc, ◌+◌, ◌-◌, Bool, true, false, not, ◌&&◌, ◌||◌, Option, none, some, List, [], ◌∷◌,
  ◌++◌, ltb, leb, ◌==◌, if◌then◌else◌, is_some_and,
}
use nullgate.Common.Bytes.{bytes_eq, bytes_eq_iff}
use nullgate.Common.HashMap.{Key, get, put, delete, map_or}
use nullgate.Common.Text.{Text, codes}

instance abbrev pub text_key : Key Text
text_key = record { beq = bytes_eq; beq_iff = bytes_eq_iff }

abbrev pub Stamps : Type 0
Stamps = List (Text × ℕ)

abbrev pub throttle_ms : ℕ
throttle_ms = 30_000

-- Whether a title is shown, and the instants at which each was.
unfoldable pub notify : Text → ℕ → Stamps → Bool × Stamps
notify title now last =
    if is_some_and (get title last) (λ t. ltb (now - t) throttle_ms)
    then (false, last)
    else (true, put title now last)

-- `entry(..).or_insert(now)`.
abbrev pub or_insert : Text → ℕ → Option ℕ → Stamps → Stamps
or_insert node now none since = put node now since
or_insert node now (some t) since = since

-- `is_none_or`: no stamp, or one that is old enough.
abbrev pub long_enough : ℕ → ℕ → Option ℕ → Bool
long_enough now debounce none = true
long_enough now debounce (some t) = leb debounce (now - t)

unfoldable pub online_transition_notifies :
    Text → Bool → Bool → Bool → Stamps → ℕ → ℕ → Bool × Stamps
online_transition_notifies node online have_baseline was_online_prev since now debounce =
    if not online then (false, or_insert node now (get node since) since) else (
      if not have_baseline || was_online_prev
          then false
          else long_enough now debounce (get node since),
      delete node since,
    )

-- The fields of a `MemberView` that this reads.
pub record Peer : Type 0 where
  pub node_id : Text
  pub is_self : Bool
  pub online : Bool
  pub label : Option Text
  pub hostname : Option Text

abbrev pub first_of : Option Text → Text → Text
first_of none t = t
first_of (some s) t = s

abbrev pub online_in : Text → List Peer → Bool
online_in node [] = false
online_in node (p ∷ peers) = (bytes_eq p.node_id node && p.online) || online_in node peers

abbrev pub known_in : Text → List Peer → Bool
known_in node [] = false
known_in node (p ∷ peers) = bytes_eq p.node_id node || known_in node peers

abbrev pub was_online : Text → Option (List Peer) → Bool
was_online node none = false
was_online node (some prev) = online_in node prev

abbrev pub has_baseline : Option (List Peer) → Bool
has_baseline none = false
has_baseline (some prev) = true

-- The stamps of peers that are no longer in the network are dropped.
unfoldable pub retain_known : List Peer → Stamps → Stamps
retain_known peers [] = []
retain_known peers ((node, t) ∷ since) =
    let rest = retain_known peers since in if known_in node peers then (node, t) ∷ rest else rest

-- The loop; `short_id` makes the name of a peer that has none. The names to announce come first.
unfoldable pub announce_all :
    (Text → Text) → Option (List Peer) → List Peer → ℕ → ℕ → Stamps → List Text × Stamps
unfolding online_transition_notifies
announce_all short_id prev [] now debounce since = ([], since)
announce_all short_id prev (m ∷ members) now debounce since =
    let r =
      if m.is_self
      then (false, since)
      else online_transition_notifies m.node_id m.online (has_baseline prev)
          (was_online m.node_id prev) since now debounce in
    let later = announce_all short_id prev members now debounce r.1 in
    (
      if r.0
          then first_of m.label (first_of m.hostname (short_id m.node_id)) ∷ later.0
          else later.0,
      later.1,
    )

unfoldable pub notify_newly_online :
    (Text → Text) → Option (List Peer) → List Peer → ℕ → ℕ → Stamps → List Text × Stamps
unfolding announce_all retain_known
notify_newly_online short_id prev members now debounce since =
    let r = announce_all short_id prev members now debounce since in (r.0, retain_known members r.1)
