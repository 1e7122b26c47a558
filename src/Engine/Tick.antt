-- ===== src/Engine/Tick.antt =====
-- One maintenance pass (crates/ipn-core/src/engine.rs: `tick`): the roster is folded again when it
-- may have changed, a removed device leaves, connections to non-members are closed, and the pass
-- decides whom to dial, whom to sync with, and what to broadcast. The reading of the replica, the
-- TUN device, the locations and the counters of the log are outside.
pub mod Members
use nullgate.Common.{
  ℕ, ◌+◌, ◌-◌, Bool, true, false, not, ◌&&◌, ◌||◌, ◌≡◌, Option, none, some, List, [], ◌∷◌, ◌++◌,
  ltb, leb, bool_eq, ◌==◌, length, select, if◌then◌else◌, is_some_and,
}
use nullgate.Common.Bytes.{bytes_eq}
use nullgate.Common.HashMap.{Key, nat_key, get, put, delete, or_default}
use nullgate.Common.Maps.{IdSet, contains, lookup}
use nullgate.Common.Text.{Text}
use nullgate.Roster.{NodeId, Member, Roster}
use nullgate.Roster.Queries.{is_member}
use nullgate.Routes.{from_roster}
use nullgate.Membership.{Doc, build_roster}
use nullgate.Presence.{Tracker, Observation, PeerStatus, record_connection, set_virtual_ip}
use nullgate.Secrets.{Os}
use nullgate.Conntrack.{sweep}
use nullgate.Engine.Backoff.{dial_backoff_filter}
use nullgate.Engine.Connections.{Conns, Connection}
use nullgate.Engine.Config.{StoredConfig, roster_cfg}
use nullgate.Engine.Session.{Env, Session, Live, set_live, teardown}
use nullgate.Engine.Operations.{ids}
use nullgate.Engine.Recovery.{doc_reseed_targets}

abbrev pub roster_rebuild_catchall_ms : ℕ
roster_rebuild_catchall_ms = 30_000

abbrev pub doc_resync_ms : ℕ
doc_resync_ms = 30_000

abbrev pub presence_fresh_ms : ℕ
presence_fresh_ms = 300_000

abbrev pub gossip_join_ms : ℕ
gossip_join_ms = 60_000

abbrev pub gossip_join_retry_ms : ℕ
gossip_join_retry_ms = 15_000

abbrev pub presence_broadcast_bg_ms : ℕ
presence_broadcast_bg_ms = 60_000

abbrev pub text_key : Key Text
text_key = record { beq = bytes_eq; beq_iff = nullgate.Common.Bytes.bytes_eq_iff }

-- What a pass sets going outside.
pub record Work : Type 0 where
  pub to_dial : List NodeId
  pub reseed : Option (List NodeId)
  pub broadcast : Bool
  pub join_peers : List NodeId

pub data Outcome : Type 0 where
  skipped evicted : Outcome
  ran : Work → Outcome

abbrev pub rebuild : ℕ → Session → Bool
rebuild now s =
    s.live.docs_dirty
    || s.live.force_recover
    || ltb roster_rebuild_catchall_ms (now - s.last_roster_rebuild)

-- The flags are consumed, and the clock of the rebuild is set.
abbrev pub consumed : ℕ → Session → Session
consumed now s = record s {
  last_roster_rebuild = if rebuild now s then now else s.last_roster_rebuild;
  live = record s.live { docs_dirty = false; force_recover = false };
}

abbrev pub gone : Observation Text
gone = record {
  observed_addr = none;
  direct = none;
  local_ip = none;
  public_ip = none;
  online = false;
}

-- The connections to members, and those to others.
unfoldable pub kept : Roster → Conns → Conns
kept roster [] = []
kept roster ((id, c) ∷ conns) =
    let rest = kept roster conns in if is_member roster id then (id, c) ∷ rest else rest

unfoldable pub ghosts : Roster → Conns → List NodeId
ghosts roster [] = []
ghosts roster ((id, c) ∷ conns) =
    let rest = ghosts roster conns in if is_member roster id then rest else id ∷ rest

unfoldable pub all_gone : List NodeId → Tracker Text → Tracker Text
all_gone [] t = t
all_gone (id ∷ ghosts) t = all_gone ghosts (record_connection ⦃same = text_key⦄ id gone t).1

unfoldable pub with_ips : List (NodeId × Member) → Tracker Text → Tracker Text
with_ips [] t = t
with_ips ((id, m) ∷ members) t =
    with_ips members (set_virtual_ip ⦃same = text_key⦄ id m.virtual_ip t)

abbrev pub keys : Conns → IdSet
keys [] = []
keys ((id, c) ∷ conns) = id ∷ keys conns

-- The members that are not this device and have no connection.
unfoldable pub missing : NodeId → Conns → List NodeId → List NodeId
missing my_id conns members =
    select (λ id. not (id == my_id) && not (contains id (keys conns))) members

abbrev pub is_fresh : ℕ → Tracker Text → NodeId → Bool
is_fresh now presence id =
    is_some_and (get id presence) (λ p. leb (now - p.last_seen) presence_fresh_ms)

abbrev pub ids_eq : List NodeId → List NodeId → Bool
ids_eq = bytes_eq

abbrev pub gossip_cadence : ℕ → ℕ
gossip_cadence neighbors = if neighbors == 0 then gossip_join_retry_ms else gossip_join_ms

abbrev pub is_round : Option (List NodeId) → Bool
is_round none = false
is_round (some ids) = true

abbrev pub is_nil : List NodeId → Bool
is_nil [] = true
is_nil (id ∷ more) = false

abbrev pub swept : ℕ → Session → Session
swept now s = set_live (λ l. record l { conntrack = sweep l.conntrack now }) s

abbrev pub presence_due : ℕ → Session → Bool
presence_due now s =
    not s.background || leb presence_broadcast_bg_ms (now - s.last_presence_broadcast)

abbrev pub gossip_due : ℕ → Session → Bool
gossip_due now s = ltb (gossip_cadence s.live.gossip_neighbors) (now - s.live.last_gossip_join)

module _ {Addr : Type 0} (env : Env Addr) where
  abbrev pub other_members : Roster → List NodeId
  other_members roster = select (λ id. not (id == env.my_id)) (ids roster.members)

  -- Connections, routes and presence follow the roster.
  unfoldable pub enforce : Bool → Roster → Live → Live
  unfolding kept ghosts all_gone with_ips
  enforce rebuilt roster l = record l {
    routes = if rebuilt then from_roster roster else l.routes;
    conns = kept roster l.conns;
    presence = with_ips roster.members (all_gone (ghosts roster l.conns) l.presence);
    roster = roster;
  }

  -- The decisions of a pass, on the state after `enforce`; `force` is the flag it found.
  unfoldable pub plan : ℕ → Bool → Session → Work
  unfolding missing doc_reseed_targets
  plan now force s =
      let members = other_members s.live.roster in
      let changed = not (ids_eq s.live.doc_sync_set members) in
      record {
        to_dial =
            dial_backoff_filter (missing env.my_id s.live.conns (ids s.live.roster.members))
              s.live.dial_backoff now;
        reseed =
            doc_reseed_targets members (keys s.live.conns) (is_fresh now s.live.presence)
              (changed || force) (ltb doc_resync_ms (now - s.live.last_doc_sync));
        broadcast = s.live.gossip_sender && presence_due now s;
        join_peers = if s.live.gossip_sender && (changed || gossip_due now s) then members else [];
      }

  -- The clocks of what the pass does.
  abbrev pub stamped : ℕ → Work → Session → Session
  stamped now w s = record s {
    last_presence_broadcast = if w.broadcast then now else s.last_presence_broadcast;
    tick_seq = s.tick_seq + 1;
    live = record s.live {
      doc_sync_set = other_members s.live.roster;
      last_doc_sync = if is_round w.reseed then now else s.live.last_doc_sync;
      last_gossip_join = if is_nil w.join_peers then s.live.last_gossip_join else now;
    };
  }

  -- Once the roster is known.
  unfoldable pub with_roster : Os → ℕ → Bool → Bool → Roster → Session → Outcome × Session
  unfolding enforce plan teardown
  with_roster os now rebuilt force roster s =
      let latched = record s.live {
        was_member = is_member roster env.my_id || s.live.was_member;
      } in
      let next = record s { live = enforce rebuilt roster latched } in
      let work = plan now force next in
      if is_member roster env.my_id
      then (ran work, stamped now work next)
      else if s.live.was_member
      then (evicted, (teardown env os s).0)
      else (ran work, stamped now work next)

  abbrev pub current_roster : ℕ → ℕ → StoredConfig → Session → Roster
  current_roster now ns cfg s =
      if rebuild now s
      then build_roster env.crypto env.parse_entry (roster_cfg env.hkdf cfg) now
          (or_default [] (get ns s.replicas))
      else s.live.roster

  abbrev pub tick_in : Os → ℕ → Option ℕ → Option StoredConfig → Session → Outcome × Session
  tick_in os now (some ns) (some cfg) s =
      with_roster os now (rebuild now s) s.live.force_recover (current_roster now ns cfg s)
        (consumed now s)
  tick_in os now _ _ s = (skipped, s)

  -- A pass only trims the table of flows in a device that is offline or in no
  -- network.
  unfoldable pub tick : Os → ℕ → Session → Outcome × Session
  unfolding with_roster
  tick os now s = tick_in os now s.live.doc s.config (swept now s)
