-- ===== src/Engine/Session.antt =====
-- The state that the engine's operations share (crates/ipn-core/src/engine.rs: `State`, `Inner`),
-- going online and offline, and publishing. `Step A` is a call that may change the state, and
-- ends in a value or in the reason why there is none. The gossip and the documents of iroh are
-- outside: which of their calls succeed is the argument `net`, and the documents that this device
-- keeps are the map `replicas`, by the seed of their namespace.
use nullgate.Common.{ℕ, ◌+◌, Bool, true, false, Option, none, some, List, [], if◌then◌else◌}
use nullgate.Common.HashMap.{nat_key, get, put, or_default}
use nullgate.Common.Maps.{IdSet}
use nullgate.Common.Results.{Result, ok, err}
use nullgate.Common.Text.{Text}
use nullgate.Ip.{Ipv4Addr}
use nullgate.Roster.{NodeId, Entry, Roster, default_roster}
use nullgate.Roster.Signing.{Crypto}
use nullgate.Roster.Queries.{is_member}
use nullgate.Network.{Hkdf, Codec, KeyError, TicketError, docs_namespace_seed}
use nullgate.Secrets.{Hex, Platform, Os, delete_secret}
use nullgate.Membership.{Doc, publish_entry, build_roster}
use nullgate.Presence.{Tracker}
use nullgate.Conntrack.{Conntrack}
use nullgate.Conntrack
use nullgate.Routes.{RouteTable}
use nullgate.Engine.Backoff.{Backoff}
use nullgate.Engine.Connections.{Conns}
use nullgate.Engine.Config.{
  StoredConfig, roster_cfg, ConfigCbor, Disk, ConfigError, network_secret, originator_secret,
  name_key,
}
use Prim.Native.String.{String}

-- What does not change while the engine runs.
pub record Env (Addr : Type 0) : Type 0 where
  pub crypto : Crypto
  pub hkdf : Hkdf
  pub codec : Codec Addr
  pub parse_entry : List ℕ → Option Entry
  pub hex : Hex
  pub config_cbor : ConfigCbor
  pub platform : Platform
  pub my_id : NodeId
  pub device_key : ℕ
  pub addr : Addr
  pub hostname : String

-- Which calls of iroh succeed, and the author that it creates.
pub record Net : Type 0 where
  pub opens_doc : Bool
  pub creates_author : Bool
  pub author : ℕ
  pub subscribes : Bool
  pub watches : Bool
  pub sets_bytes : Bool

-- What is only kept while the device is online.
pub record Live : Type 0 where
  pub virtual_subnet : Option Ipv4Addr
  pub tun : Bool
  pub tun_attempted : Bool
  pub assigned_ip : Option Ipv4Addr
  pub doc_sync_set : IdSet
  pub last_doc_sync : ℕ
  pub last_gossip_join : ℕ
  pub gossip_neighbors : ℕ
  pub dial_backoff : Backoff
  pub docs_dirty : Bool
  pub force_recover : Bool
  pub was_member : Bool
  pub conntrack : Conntrack
  pub routes : RouteTable
  pub conns : Conns
  pub net_tasks : ℕ
  pub doc : Option ℕ
  pub author : Option ℕ
  pub roster : Roster
  pub presence : Tracker Text
  pub gossip_sender : Bool
  pub pending : List (NodeId × ℕ)

-- After `soft_disconnect`.
abbrev pub offline : Live
offline = record {
  virtual_subnet = none;
  tun = false;
  tun_attempted = false;
  assigned_ip = none;
  doc_sync_set = [];
  last_doc_sync = 0;
  last_gossip_join = 0;
  gossip_neighbors = 0;
  dial_backoff = [];
  docs_dirty = false;
  force_recover = false;
  was_member = false;
  conntrack = Conntrack.default;
  routes = record { by_ip = [] };
  conns = [];
  net_tasks = 0;
  doc = none;
  author = none;
  roster = default_roster;
  presence = [];
  gossip_sender = false;
  pending = [];
}

-- `answers` are the decisions sent to pending joins, by the channel of each.
pub record Session : Type 0 where
  pub live : Live
  pub config : Option StoredConfig
  pub last_roster_rebuild : ℕ
  pub replicas : List (ℕ × Doc)
  pub disk : Disk
  pub answers : List (ℕ × Bool)
  pub remote_access_disabled : Bool
  pub hidden : Bool
  pub saved_prefs : Bool × Bool
  pub last_recovery_burst : ℕ
  pub background : Bool
  pub last_presence_broadcast : ℕ
  pub tick_seq : ℕ
  pub unhealthy_checks : ℕ
  pub last_rebuild : ℕ

pub data OpError : Type 0 where
  no_network already_in_network not_in_network not_originator is_peer may_not_view : OpError
  no_pending bad_id wrong_network no_doc no_author : OpError
  open_doc create_author subscribe set_bytes : OpError
  empty_name roster_frozen may_not_approve unreachable declined not_added : OpError
  in_config : ConfigError → OpError
  in_key : KeyError → OpError
  in_ticket : TicketError → OpError

abbrev pub Step : Type 0 → Type 0
Step A = Session → Session × Result OpError A

abbrev pub after :
    {A B : Type 0} → Session × Result OpError A → (A → Step B) → Session × Result OpError B
after (s, ok a) f = f a s
after (s, err e) f = (s, err e)

infixl 5 ◌>>=◌ ◌>>◌
abbrev pub ◌>>=◌ : {A B : Type 0} → Step A → (A → Step B) → Step B
(m >>= f) s = after (m s) f

abbrev pub ◌>>◌ : {B : Type 0} → Step (Unit {0}) → Step B → Step B
m >> k = m >>= λ _. k

abbrev pub done : {A : Type 0} → A → Step A
done a s = (s, ok a)

abbrev pub fail : {A : Type 0} → OpError → Step A
fail e s = (s, err e)

abbrev pub change : (Session → Session) → Step (Unit {0})
change f s = (f s, ok tt)

abbrev pub need : {A : Type 0} → Option A → OpError → Step A
need none e = fail e
need (some a) e = done a

abbrev pub check : Bool → OpError → Step (Unit {0})
check true e = done tt
check false e = fail e

abbrev pub set_live : (Live → Live) → Session → Session
set_live f s = record s { live = f s.live }

module _ {Addr : Type 0} (env : Env Addr) where
  abbrev pub namespace : StoredConfig → ℕ
  namespace cfg = docs_namespace_seed env.hkdf cfg.secret

  abbrev pub with_replica : ℕ → List (ℕ × Doc) → List (ℕ × Doc)
  with_replica ns replicas = put ns (or_default [] (get ns replicas)) replicas

  unfoldable pub activate : Net → StoredConfig → Step (Unit {0})
  activate net cfg = do
    change (set_live (λ l. record l { virtual_subnet = some cfg.subnet }))
    check net.opens_doc open_doc
    change (λ s. record s { replicas = with_replica (namespace cfg) s.replicas })
    check net.creates_author create_author
    check net.subscribes subscribe
    change (λ s. record s {
      last_roster_rebuild = 0;
      config = some cfg;
      live = record s.live {
        net_tasks = s.live.net_tasks + (if net.watches then 2 else 1);
        docs_dirty = true;
        doc = some (namespace cfg);
        author = some net.author;
        gossip_sender = true;
      };
    })

  unfoldable pub soft_disconnect : Step (Unit {0})
  soft_disconnect = change (λ s. record s { live = offline })

  unfoldable pub teardown : Os → Step (Unit {0})
  unfolding soft_disconnect
  teardown os = do
    soft_disconnect
    change (λ s. record s {
      config = none;
      disk = record {
        config_file = if os.removes then none else s.disk.config_file;
        secrets =
            delete_secret env.platform os originator_secret
              (delete_secret env.platform os network_secret s.disk.secrets);
      };
    })

  unfoldable pub publish : Net → Entry → Step (Unit {0})
  publish net e = do
    ns ← λ s. need s.live.doc no_doc s
    author ← λ s. need s.live.author no_author s
    check net.sets_bytes set_bytes
    change (λ s. record s {
      replicas =
          put ns (publish_entry env.crypto author e (or_default [] (get ns s.replicas))) s.replicas;
    })

  abbrev pub adopt : Roster → Live → Live
  adopt r l = record l {
    roster = r;
    was_member = if is_member r env.my_id then true else l.was_member;
  }

  abbrev pub refreshed : ℕ → Option ℕ → Option StoredConfig → Session → Session
  refreshed now (some ns) (some cfg) s =
      set_live
        (adopt (
          build_roster env.crypto env.parse_entry (roster_cfg env.hkdf cfg) now
            (or_default [] (get ns s.replicas))))
        s
  refreshed now _ _ s = s

  unfoldable pub refresh_roster : ℕ → Step (Unit {0})
  refresh_roster now = change (λ s. refreshed now s.live.doc s.config s)
