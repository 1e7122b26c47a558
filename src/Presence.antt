-- ===== src/Presence.antt =====
-- Peer presence (crates/ipn-core/src/presence.rs). Strings are only ever compared, and are any type
-- with an equality. The gossip that carries the messages is outside.
pub mod Changes
pub mod History
pub mod Messages
use nullgate.Common.{
  ℕ, ◌-◌, Bool, true, false, not, ◌&&◌, ◌||◌, Option, none, some, List, [], ◌∷◌, ltb, bool_eq, ◌==◌,
  if◌then◌else◌,
}
use nullgate.Common.HashMap.{Key, nat_key, get, put, or_default}
use nullgate.Ip.{Ipv4Addr}
use nullgate.Roster.{NodeId}

abbrev pub last_seen_jump_ms : ℕ
last_seen_jump_ms = 600_000

pub record PeerStatus (Text : Type 0) : Type 0 where
  pub hostname : Option Text
  pub location : Option Text
  pub virtual_ip : Option Ipv4Addr
  pub local_ip : Option Text
  pub public_ip : Option Text
  pub observed_addr : Option Text
  pub direct : Option Bool
  pub access_disabled : Bool
  pub hidden : Bool
  pub last_seen : ℕ
  pub online : Bool

pub record Heartbeat (Text : Type 0) : Type 0 where
  pub hostname : Text
  pub public_ip : Option Text
  pub access_disabled : Bool
  pub hidden : Bool
  pub ts : ℕ

pub record Observation (Text : Type 0) : Type 0 where
  pub observed_addr : Option Text
  pub direct : Option Bool
  pub local_ip : Option Text
  pub public_ip : Option Text
  pub online : Bool

abbrev pub option_eq : {A : Type 0} → (A → A → Bool) → Option A → Option A → Bool
option_eq eq none none = true
option_eq eq (some a) (some b) = eq a b
option_eq eq _ _ = false

abbrev pub is_some : {A : Type 0} → Option A → Bool
is_some none = false
is_some (some a) = true

module _ {Text : Type 0} ⦃same : Key Text⦄ where
  abbrev pub unknown : PeerStatus Text
  unknown = record {
    hostname = none;
    location = none;
    virtual_ip = none;
    local_ip = none;
    public_ip = none;
    observed_addr = none;
    direct = none;
    access_disabled = false;
    hidden = false;
    last_seen = 0;
    online = false;
  }

  -- `if new.is_some() && old != new`.
  abbrev pub news : Option Text → Option Text → Bool
  news new old = is_some new && not (option_eq same.beq old new)

  -- The entry after a heartbeat, and whether what is shown of it changed.
  unfoldable pub heard : Heartbeat Text → PeerStatus Text → Bool × PeerStatus Text
  heard h e = if ltb h.ts e.last_seen then (false, e) else (
    (e.last_seen == 0
          || ltb last_seen_jump_ms (h.ts - e.last_seen)
          || not (option_eq same.beq e.hostname (some h.hostname))
          || not (bool_eq e.access_disabled h.access_disabled)
          || not (bool_eq e.hidden h.hidden))
        || news h.public_ip e.public_ip,
    record e {
      last_seen = h.ts;
      hostname = some h.hostname;
      access_disabled = h.access_disabled;
      hidden = h.hidden;
      public_ip = if news h.public_ip e.public_ip then h.public_ip else e.public_ip;
    },
  )

  unfoldable pub observed : Observation Text → PeerStatus Text → Bool × PeerStatus Text
  observed o e = (
    (not (bool_eq e.online o.online) || not (option_eq bool_eq e.direct o.direct))
        || news o.local_ip e.local_ip
        || news o.public_ip e.public_ip,
    record e {
      online = o.online;
      direct = o.direct;
      observed_addr = if is_some o.observed_addr then o.observed_addr else e.observed_addr;
      local_ip = if news o.local_ip e.local_ip then o.local_ip else e.local_ip;
      public_ip = if news o.public_ip e.public_ip then o.public_ip else e.public_ip;
    },
  )

abbrev pub Tracker : Type 0 → Type 0
Tracker Text = List (NodeId × PeerStatus Text)

module _ {Text : Type 0} ⦃same : Key Text⦄ where
  -- `peers.entry(node_id).or_default()`.
  abbrev pub entry : NodeId → Tracker Text → PeerStatus Text
  entry node t = or_default unknown (get node t)

  unfoldable pub record_heartbeat : NodeId → Heartbeat Text → Tracker Text → Bool × Tracker Text
  record_heartbeat node h t = let r = heard h (entry node t) in (r.0, put node r.1 t)

  unfoldable pub set_last_seen : NodeId → ℕ → Tracker Text → Tracker Text
  set_last_seen node ts t =
      let e = entry node t in
      put node (if ltb e.last_seen ts then record e { last_seen = ts } else e) t

  unfoldable pub record_connection : NodeId → Observation Text → Tracker Text → Bool × Tracker Text
  record_connection node o t = let r = observed o (entry node t) in (r.0, put node r.1 t)

  unfoldable pub set_virtual_ip : NodeId → Ipv4Addr → Tracker Text → Tracker Text
  set_virtual_ip node ip t = put node (record (entry node t) { virtual_ip = some ip }) t

  unfoldable pub set_location : NodeId → Option Text → Tracker Text → Bool × Tracker Text
  set_location node location t =
      let e = entry node t in
      (not (option_eq same.beq e.location location), put node (record e { location = location }) t)
