-- ===== src/Engine/Gossip.antt =====
-- What a network's topic and its roster document tell (crates/ipn-core/src/engine.rs: `activate`, its
-- two watcher tasks). CBOR is outside: a message that cannot be read is `none`.
pub mod Owner
use nullgate.Common.{
  ℕ, ◌+◌, ◌-◌, ◌%◌, ◌^◌, ◌≡◌, Bool, true, false, not, ◌&&◌, ◌||◌, Option, none, some, List, [], ◌∷◌,
  ◌==◌, if◌then◌else◌,
}
use nullgate.Common.HashMap.{nat_key, get}
use nullgate.Common.Text.{Text, codes}
use nullgate.Roster.{NodeId}
use nullgate.Roster.Addresses.Place.{is_some}
use nullgate.Presence.{Heartbeat, Tracker, record_heartbeat, set_location}
use nullgate.Presence.Messages.{
  MessageCrypto, Presence, Locations, verify_presence, verify_locations,
}
use nullgate.Engine.Backoff.{reset_dial_backoff}
use nullgate.Engine.Session.{Session}
use nullgate.Engine.Tick.{text_key}
use mathlib.Core.Option
use Prim.Native.String.{String}

pub data GossipMsg : Type 0 where
  presence : Presence → GossipMsg
  locations : Locations → GossipMsg

pub data TopicEvent : Type 0 where
  received : Option GossipMsg → TopicEvent
  neighbor_up neighbor_down lagged failed : TopicEvent

pub data DocEvent : Type 0 where
  insert_local insert_remote content_ready sync_finished other failed : DocEvent

-- The session, whether the maintenance task is woken, and whether a change is announced.
pub record Heard : Type 0 where
  pub session : Session
  pub wakes : Bool
  pub changed : Bool

abbrev pub quiet : Session → Heard
quiet s = record { session = s; wakes = false; changed = false }

abbrev pub heartbeat_of : Presence → Heartbeat Text
heartbeat_of p = record {
  hostname = codes p.hostname;
  public_ip = Option.map codes p.public_ip;
  access_disabled = p.remote_access_disabled;
  hidden = p.hidden;
  ts = p.ts;
}

-- A heartbeat takes its device out of the dial backoff.
unfoldable pub hear_presence : Presence → Session → Heard
unfolding record_heartbeat reset_dial_backoff
hear_presence p s =
    let r = record_heartbeat ⦃same = text_key⦄ p.node_id (heartbeat_of p) s.live.presence in
    record {
      session = record s {
        live = record s.live {
          dial_backoff = reset_dial_backoff s.live.dial_backoff p.node_id;
          presence = r.1;
        };
      };
      wakes = is_some (get p.node_id s.live.dial_backoff);
      changed = r.0;
    }

unfoldable pub set_locations : List (NodeId × String) → Tracker Text → Bool × Tracker Text
unfolding set_location
set_locations [] t = (false, t)
set_locations ((id, location) ∷ entries) t =
    let r = set_location ⦃same = text_key⦄ id (some (codes location)) t in
    let later = set_locations entries r.1 in (r.0 || later.0, later.1)

unfoldable pub hear_locations : Locations → Session → Heard
unfolding set_locations
hear_locations l s =
    let r = set_locations l.entries s.live.presence in
    record {
      session = record s { live = record s.live { presence = r.1 } };
      wakes = false;
      changed = r.0;
    }

-- A `usize`, which `fetch_add` wraps and `saturating_sub` stops at 0.
abbrev pub with_neighbors : ℕ → Session → Heard
with_neighbors n s = quiet (record s { live = record s.live { gossip_neighbors = n } })

-- The network's id and its originator are those of the configuration at the start of the task.
module _ (c : MessageCrypto) (my_id : NodeId) (net_id : NodeId) (originator_id : NodeId) where
  unfoldable pub on_message : GossipMsg → Session → Heard
  unfolding hear_presence hear_locations
  on_message (presence p) s =
      if verify_presence c p net_id && not (p.node_id == my_id) then hear_presence p s else quiet s
  on_message (locations l) s =
      if verify_locations c l net_id originator_id then hear_locations l s else quiet s

  unfoldable pub on_topic : TopicEvent → Session → Heard
  unfolding on_message
  on_topic (received none) s = quiet s
  on_topic (received (some msg)) s = on_message msg s
  on_topic neighbor_up s = with_neighbors ((s.live.gossip_neighbors + 1) % 2 ^ 64) s
  on_topic neighbor_down s = with_neighbors (s.live.gossip_neighbors - 1) s
  on_topic lagged s = quiet s
  on_topic TopicEvent.failed s = quiet s

  unfoldable pub hear_all : List TopicEvent → Session → Session
  unfolding on_topic
  hear_all [] s = s
  hear_all (e ∷ events) s = hear_all events (on_topic e s).session

abbrev pub with_dirty_docs : Session → Heard
with_dirty_docs s = record (quiet (record s { live = record s.live { docs_dirty = true } })) {
  wakes = true;
}

unfoldable pub on_doc : DocEvent → Session → Heard
on_doc insert_local s = with_dirty_docs s
on_doc insert_remote s = with_dirty_docs s
on_doc content_ready s = with_dirty_docs s
on_doc sync_finished s = with_dirty_docs s
on_doc other s = quiet s
on_doc DocEvent.failed s = quiet s
