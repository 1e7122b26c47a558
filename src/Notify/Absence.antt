-- ===== src/Notify/Absence.antt =====
-- How long a peer was away (crates/ipn-gui/src/notify.rs: `online_transition_notifies`).
use nullgate.Common.{ℕ, ◌-◌, ◌≡◌, refl, Bool, true, false, none, some, List, [], ◌∷◌, leb}
use nullgate.Common.HashMap.{get, put, get-put_self, get-delete_self}
use nullgate.Common.Text.{Text}
use nullgate.Notify.{Stamps, text_key, or_insert, online_transition_notifies}

module _ (node : Text) (debounce : ℕ) where
  -- What is announced, and the stamps, after snapshots in which the peer is offline.
  unfoldable pub dark : List ℕ → Stamps → List Bool × Stamps
  dark [] since = ([], since)
  dark (t ∷ ts) since =
      let r = online_transition_notifies node false true false since t debounce in
      let later = dark ts r.1 in (r.0 ∷ later.0, later.1)

  abbrev pub AllSilent : List Bool → Type 0
  AllSilent [] = Unit
  AllSilent (b ∷ bs) = (b ≡ false) × AllSilent bs

  dark-stamped :
      (ts : List ℕ) (first : ℕ) (since : Stamps)
      → get node since ≡ some first
      → get node (dark ts since).1 ≡ some first
  unfolding dark online_transition_notifies
  dark-stamped [] first since h = h
  dark-stamped (t ∷ ts) first since h = rw h (dark-stamped ts first since h)

  dark-silent : (ts : List ℕ) (since : Stamps) → AllSilent (dark ts since).0
  unfolding dark online_transition_notifies
  dark-silent [] since = tt
  dark-silent (t ∷ ts) since = (refl, dark-silent ts (or_insert node t (get node since) since))

  first_stamp :
      (first : ℕ) (more : List ℕ) (since : Stamps)
      → get node since ≡ none
      → get node (dark (first ∷ more) since).1 ≡ some first
  unfolding dark online_transition_notifies
  first_stamp first more since h =
      rw h (dark-stamped more first (put node first since) (get-put_self node first since))

  seen_again :
      (first back : ℕ) (since : Stamps)
      → get node since ≡ some first
      → ((online_transition_notifies node true true false since back debounce).0
          ≡ leb debounce (back - first))
        × (get node (online_transition_notifies node true true false since back debounce).1 ≡ none)
  unfolding online_transition_notifies
  seen_again first back since h = rw h (refl, get-delete_self node since)

  -- A peer that was not stamped, is offline in one or more snapshots and then online is announced
  -- exactly when the time since the first of these snapshots has reached the debounce, however
  -- many there were. Nothing is announced while it is offline, and its stamp is cleared.
  pub absence_from_first :
      (first : ℕ) (more : List ℕ) (back : ℕ) (since : Stamps)
      → get node since ≡ none
      → let away = dark (first ∷ more) since in
        let seen = online_transition_notifies node true true false away.1 back debounce in
        (seen.0 ≡ leb debounce (back - first)) × AllSilent away.0 × (get node seen.1 ≡ none)
  absence_from_first first more back since h =
      let (shown, cleared) =
        seen_again first back (dark (first ∷ more) since).1 (first_stamp first more since h) in
      (shown, dark-silent (first ∷ more) since, cleared)
