-- ===== src/Engine/Gossip/Owner.antt =====
-- Whose messages change what is known of a device (crates/ipn-core/src/engine.rs: `activate`).
use nullgate.Common.{
  ◌≡◌, refl, ap, ◌∙◌, inl, inr, false, none, some, List, [], ◌∷◌, ◌==◌, if◌then◌else◌, arith, In,
  Bool-cases, ==_iff,
}
use nullgate.Common.HashMap.{nat_key, get, put, or_default, get-put}
use nullgate.Common.Text.{Text, codes}
use nullgate.Roster.{NodeId}
use nullgate.Presence.{PeerStatus, Tracker, unknown, entry, record_heartbeat, set_location}
use nullgate.Presence.Messages.{MessageCrypto, Presence, verify_presence, verify_locations}
use nullgate.Engine.Session.{Session}
use nullgate.Engine.Tick.{text_key}
use nullgate.Engine.Gossip.{
  presence, locations, TopicEvent, received, neighbor_up, neighbor_down, lagged, hear_presence,
  set_locations, hear_locations, on_message, on_topic, hear_all,
}
use Prim.Native.String.{String}

abbrev pub without_location : PeerStatus Text → PeerStatus Text
without_location e = record e { location = none }

-- What a device tells of itself, and its connections.
abbrev pub told_by : NodeId → Tracker Text → PeerStatus Text
told_by id t = without_location (entry ⦃same = text_key⦄ id t)

entry-put_ne :
    (j id : NodeId) (e : PeerStatus Text) (t : Tracker Text)
    → (j == id) ≡ false
    → entry ⦃same = text_key⦄ id (put j e t) ≡ entry ⦃same = text_key⦄ id t
entry-put_ne j id e t h =
    ap (or_default (unknown ⦃same = text_key⦄))
      (get-put j id e t ∙ ap (λ b. if b then some e else get id t) h)

told_by-put :
    (j id : NodeId) (e : PeerStatus Text) (t : Tracker Text)
    → without_location e ≡ told_by j t
    → told_by id (put j e t) ≡ told_by id t
told_by-put j id e t h = elim (Bool-cases (j == id)) [
  | inl same ↦
      let eq : j ≡ id = (==_iff j id).0 same in
      ap (λ o. without_location (or_default (unknown ⦃same = text_key⦄) o))
        (get-put j id e t ∙ ap (λ b. if b then some e else get id t) same)
      ∙ h
      ∙ ap (λ k. told_by k t) eq
  | inr other ↦ ap without_location (entry-put_ne j id e t other)
]

set_locations-told_by :
    (entries : List (NodeId × String)) (id : NodeId) (t : Tracker Text)
    → told_by id (set_locations entries t).1 ≡ told_by id t
unfolding set_locations set_location
set_locations-told_by [] id t = refl
set_locations-told_by ((j, location) ∷ entries) id t =
    set_locations-told_by entries id (set_location ⦃same = text_key⦄ j (some (codes location)) t).1
    ∙ told_by-put j id _ t refl

-- No message of the device itself verifies among the events.
module _ (c : MessageCrypto) (my_id : NodeId) (net_id : NodeId) (originator_id : NodeId) where
  abbrev pub IsSilent : NodeId → List TopicEvent → Type 0
  IsSilent id events =
      (p : Presence)
      → In (received (some (presence p))) events
      → p.node_id ≡ id
      → verify_presence c p net_id ≡ false

  on_topic-told_by :
      (e : TopicEvent) (s : Session) (id : NodeId)
      → ((p : Presence)
          → e ≡ received (some (presence p))
          → p.node_id ≡ id
          → verify_presence c p net_id ≡ false)
      → told_by id (on_topic c my_id net_id originator_id e s).session.live.presence
        ≡ told_by id s.live.presence
  unfolding on_topic on_message hear_presence hear_locations record_heartbeat
  on_topic-told_by (received none) s id h = refl
  on_topic-told_by (received (some (presence p))) s id h =
      elim (Bool-cases (verify_presence c p net_id)) [
        | inl v ↦ elim (Bool-cases (p.node_id == id)) [
          | inl same ↦ let no = h p refl ((==_iff p.node_id id).0 same) in absurd (ground arith)
          | inr other ↦ elim (Bool-cases (p.node_id == my_id)) [
            | inl mine ↦ rw (v, mine) refl
            | inr theirs ↦
                rw (v, theirs)
                  (ap without_location (entry-put_ne p.node_id id _ s.live.presence other))
          ]
        ]
        | inr v ↦ rw v refl
      ]
  on_topic-told_by (received (some (locations l))) s id h =
      elim (Bool-cases (verify_locations c l net_id originator_id)) [
        | inl v ↦ rw v (set_locations-told_by l.entries id s.live.presence)
        | inr v ↦ rw v refl
      ]
  on_topic-told_by neighbor_up s id h = refl
  on_topic-told_by neighbor_down s id h = refl
  on_topic-told_by lagged s id h = refl
  on_topic-told_by TopicEvent.failed s id h = refl

  -- Whatever comes over the topic, in any order: what is known of a device, but for its location,
  -- changes only if a message that names it verifies with its own key.
  pub told_by_owner :
      (events : List TopicEvent) (s : Session) (id : NodeId)
      → IsSilent id events
      → told_by id (hear_all c my_id net_id originator_id events s).live.presence
        ≡ told_by id s.live.presence
  unfolding hear_all
  told_by_owner [] s id h = refl
  told_by_owner (e ∷ events) s id h =
      told_by_owner events (on_topic c my_id net_id originator_id e s).session id
        (λ p i. h p (inr i))
      ∙ on_topic-told_by e s id (λ p same. h p (inl same))
