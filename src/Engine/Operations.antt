-- ===== src/Engine/Operations.antt =====
-- The operations on the network (crates/ipn-core/src/engine.rs: the methods of `Engine`), as the
-- code runs them one after another. Random bytes and clock readings are arguments.
pub mod Authority
pub mod Founded
pub mod Leaving
use nullgate.Common.{
  ℕ, Bool, true, false, not, ◌&&◌, ◌||◌, ◌≡◌, Option, none, some, List, [], ◌∷◌, ◌==◌, length,
  select, if◌then◌else◌,
}
use nullgate.Common.Bytes.{from_be_bytes}
use nullgate.Common.HashMap.{Key, nat_key, get, put, delete}
use nullgate.Common.Results.{Result, ok, err}
use nullgate.Common.Text.{Text, trim}
use nullgate.Ip.{Ipv4Addr}
use nullgate.Roster.{NodeId, Nonce, Role, role_eq, InviteKind, Op, Entry, Member, Invite, Roster}
use nullgate.Roster.Signing.{Crypto, sign}
use nullgate.Roster.Queries.{role, current_invite}
use nullgate.Roster.Addresses.Place.{is_some}
use nullgate.Network.{
  Ticket, Codec, encode, decode, encode_recovery_key, decode_recovery_key, network_id, KeyError,
}
use nullgate.Secrets.{Hex, Os}
use nullgate.Engine.Config.{
  StoredConfig, Disk, ConfigError, ConfigCbor, save_config, load_config, name_key,
}
use nullgate.Engine.Session.{
  Env, Net, Live, Session, OpError, Step, after, ◌>>=◌, ◌>>◌, done, fail, change, need, check,
  set_live, activate, soft_disconnect, teardown, publish, refresh_roster,
}
use Prim.Native.String.{String}

unfoldable pub first_host : Ipv4Addr → Ipv4Addr
first_host subnet = record subnet { o3 = 2 }

unfoldable pub parse_id_bytes : Option (List ℕ) → Option NodeId
parse_id_bytes none = none
parse_id_bytes (some bytes) = if length bytes == 32 then some (from_be_bytes bytes) else none

unfoldable pub parse_id : Hex → Text → Option NodeId
unfolding parse_id_bytes
parse_id hex text = parse_id_bytes (hex.decode (trim text))

-- The random bytes and the readings of the clock that founding a network takes.
pub record Fresh : Type 0 where
  pub secret : ℕ
  pub originator : ℕ
  pub nonce : Nonce
  pub genesis_ts : ℕ
  pub invite_ts : ℕ
  pub fold_now : ℕ

abbrev pub ids : List (NodeId × Member) → List NodeId
ids [] = []
ids ((id, member) ∷ more) = id ∷ ids more

-- `let _ = ..`: the error is dropped.
abbrev pub ignored : Session × Result OpError (Unit {0}) → Session × Result OpError (Unit {0})
ignored (s, r) = (s, ok tt)

abbrev pub config : Step StoredConfig
config s = need s.config OpError.no_network s

unfoldable pub originator_key : Step ℕ
originator_key = do cfg ← config; need cfg.originator_secret OpError.not_originator

abbrev pub of_key : Result KeyError ℕ → Step ℕ
of_key (ok key) = done key
of_key (err e) = fail (OpError.in_key e)

abbrev pub stored : Result ConfigError (Option StoredConfig) → Option StoredConfig
stored (ok cfg) = cfg
stored (err e) = none

abbrev pub or_else : Option StoredConfig → Option StoredConfig → Option StoredConfig
or_else none later = later
or_else (some cfg) later = some cfg

abbrev pub answer : Bool → Option ℕ → Step (Unit {0})
answer approve none = fail OpError.no_pending
answer approve (some channel) = change (λ s. record s { answers = (channel, approve) ∷ s.answers })

-- The entry is taken out of `pending` before it is answered.
abbrev pub decide : NodeId → Bool → Step (Unit {0})
decide id approve s =
    answer approve (get id s.live.pending)
      (set_live (λ l. record l { pending = delete id l.pending }) s)

module _ {Addr : Type 0} (env : Env Addr) where
  abbrev pub net_id : StoredConfig → NodeId
  net_id cfg = network_id env.hkdf cfg.secret

  unfoldable pub save : Os → StoredConfig → Step (Unit {0})
  save os cfg s =
      let (disk, r) = save_config env.hex env.config_cbor env.platform os cfg s.disk in
      (record s { disk = disk }, elim r [ ok u ↦ ok tt | err e ↦ err (OpError.in_config e) ])

  abbrev pub ticket_for : StoredConfig → InviteKind → Nonce → Text
  ticket_for cfg kind nonce = encode env.codec (record {
    name = cfg.name;
    subnet = cfg.subnet;
    secret = cfg.secret;
    originator_id = cfg.originator_id;
    bootstrap = env.addr;
    invite_kind = kind;
    invite_nonce = nonce;
  })

  abbrev pub genesis_op : Ipv4Addr → ℕ → Op
  genesis_op subnet ts = Op.add env.my_id env.hostname Role.controller (first_host subnet) 0 ts

  -- The part that `create_network` and `rotate_network` share.
  unfoldable pub found_network : Net → Os → StoredConfig → ℕ → Fresh → Step Text
  unfolding save activate publish refresh_roster
  found_network net os cfg originator fresh = do
    save os cfg
    activate env net cfg
    publish env net
        (sign env.crypto (net_id cfg) originator (genesis_op cfg.subnet fresh.genesis_ts))
    publish env net (
        sign env.crypto (net_id cfg) originator
          (Op.set_invite InviteKind.peer fresh.nonce false fresh.invite_ts))
    refresh_roster env fresh.fold_now
    done (ticket_for cfg InviteKind.peer fresh.nonce)

  unfoldable pub create_network : Net → Os → String → Ipv4Addr → Fresh → Step Text
  unfolding found_network
  create_network net os name subnet fresh = do
    λ s. check (not (is_some s.config)) OpError.already_in_network s
    found_network net os
        (record {
          name = name;
          subnet = subnet;
          secret = fresh.secret;
          originator_id = env.crypto.verifying_key fresh.originator;
          originator_secret = some fresh.originator;
        })
        fresh.originator fresh

  abbrev pub signer_for : StoredConfig → Option ℕ → Step (NodeId × ℕ)
  signer_for cfg (some key) = done (net_id cfg, key)
  signer_for cfg none = do
    λ s. check (role_eq (role s.live.roster env.my_id) Role.controller) OpError.is_peer s
    done (net_id cfg, env.device_key)

  unfoldable pub admin_signer : Step (NodeId × ℕ)
  admin_signer = do cfg ← config; signer_for cfg cfg.originator_secret

  unfoldable pub remove_member : Net → Text → ℕ → Step (Unit {0})
  unfolding admin_signer publish
  remove_member net hex ts = do
    id ← need (parse_id env.hex hex) OpError.bad_id
    (network, key) ← admin_signer
    publish env net (sign env.crypto network key (Op.remove id ts))

  unfoldable pub set_member_role : Net → Text → Bool → ℕ → Step (Unit {0})
  unfolding originator_key publish
  set_member_role net hex is_controller ts = do
    id ← need (parse_id env.hex hex) OpError.bad_id
    key ← originator_key
    cfg ← config
    publish env net (
        sign env.crypto (net_id cfg) key
          (Op.set_role id (if is_controller then Role.controller else Role.peer) ts))

  unfoldable pub set_frozen : Net → Bool → ℕ → Step (Unit {0})
  unfolding originator_key publish
  set_frozen net frozen ts = do
    key ← originator_key
    cfg ← config
    publish env net (sign env.crypto (net_id cfg) key (Op.freeze frozen ts))

  unfoldable pub regenerate_peer_invite : Net → Bool → Nonce → ℕ → Step Nonce
  unfolding admin_signer publish
  regenerate_peer_invite net single_use nonce ts = do
    (network, key) ← admin_signer
    publish env net
        (sign env.crypto network key (Op.set_invite InviteKind.peer nonce single_use ts))
    done nonce

  unfoldable pub set_peer_ticket_single_use : Net → Bool → Nonce → ℕ → Step (Unit {0})
  unfolding regenerate_peer_invite
  set_peer_ticket_single_use net on nonce ts = do
    n ← regenerate_peer_invite net on nonce ts
    done tt

  abbrev pub may_view_ticket : StoredConfig → Session → Bool
  may_view_ticket cfg s =
      is_some cfg.originator_secret || role_eq (role s.live.roster env.my_id) Role.controller

  abbrev pub nonce_of : Net → Nonce → ℕ → Option Invite → Step Nonce
  nonce_of net fresh ts (some invite) = done invite.0
  nonce_of net fresh ts none = regenerate_peer_invite net false fresh ts

  unfoldable pub ticket : Net → Nonce → ℕ → Step Text
  unfolding regenerate_peer_invite
  ticket net fresh ts = do
    cfg ← config
    λ s. check (may_view_ticket cfg s) OpError.may_not_view s
    nonce ← λ s. nonce_of net fresh ts (current_invite s.live.roster InviteKind.peer) s
    done (ticket_for cfg InviteKind.peer nonce)

  unfoldable pub controller_ticket : Net → Nonce → ℕ → Step Text
  unfolding originator_key publish
  controller_ticket net nonce ts = do
    key ← originator_key
    cfg ← config
    publish env net
        (sign env.crypto (net_id cfg) key (Op.set_invite InviteKind.controller nonce true ts))
    done (ticket_for cfg InviteKind.controller nonce)

  -- A signed removal of each of the members; a failed one is passed over.
  unfoldable pub remove_all : Net → NodeId → ℕ → (NodeId → ℕ) → List NodeId → Step (Unit {0})
  unfolding publish
  remove_all net network key ts [] = done tt
  remove_all net network key ts (id ∷ others) = do
    λ s. ignored (publish env net (sign env.crypto network key (Op.remove id (ts id))) s)
    remove_all net network key ts others

  abbrev pub others : Session → List NodeId
  others s = select (λ id. not (id == env.my_id)) (ids s.live.roster.members)

  unfoldable pub delete_network : Net → Os → (NodeId → ℕ) → Step (Unit {0})
  unfolding originator_key remove_all teardown
  delete_network net os ts = do
    key ← originator_key
    cfg ← config
    λ s. remove_all net (net_id cfg) key ts (others s) s
    teardown env os

  unfoldable pub rotate_network : Net → Os → (NodeId → ℕ) → Fresh → Step Text
  unfolding originator_key remove_all teardown found_network
  rotate_network net os ts fresh = do
    key ← originator_key
    cfg ← config
    λ s. remove_all net (net_id cfg) key ts (others s) s
    teardown env os
    found_network net os
        (record {
          name = cfg.name;
          subnet = cfg.subnet;
          secret = fresh.secret;
          originator_id = cfg.originator_id;
          originator_secret = some key;
        })
        key fresh

  unfoldable pub export_originator_key : Step Text
  export_originator_key = do
    cfg ← config
    key ← need cfg.originator_secret OpError.not_originator
    done (encode_recovery_key env.codec key)

  unfoldable pub import_originator_key : Os → Text → Step (Unit {0})
  unfolding save
  import_originator_key os recovery = do
    key ← of_key (decode_recovery_key env.codec recovery)
    cfg ← config
    check (env.crypto.verifying_key key == cfg.originator_id) OpError.wrong_network
    save os (record cfg { originator_secret = some key })
    change (λ s. record s { config = some (record cfg { originator_secret = some key }) })

  unfoldable pub leave_network : Os → Step (Unit {0})
  unfolding teardown
  leave_network os = do λ s. check (is_some s.config) OpError.not_in_network s; teardown env os

  abbrev pub connect : Net → Os → Option ℕ → Step (Unit {0})
  connect net os (some ns) = done tt
  connect net os none = do
    cfg ← λ s.
        need
          (or_else s.config (stored (load_config env.hex env.config_cbor env.platform os s.disk)))
          OpError.no_network s
    activate env net cfg

  unfoldable pub set_online : Net → Os → Bool → Step (Unit {0})
  unfolding activate soft_disconnect
  set_online net os true = λ s. connect net os s.live.doc s
  set_online net os false = soft_disconnect env

  unfoldable pub decide_join : Text → Bool → Step (Unit {0})
  decide_join hex approve = do id ← need (parse_id env.hex hex) OpError.bad_id; decide id approve

-- `persist_prefs`.
abbrev pub persist_prefs : Session → Session
persist_prefs s = record s { saved_prefs = (s.remote_access_disabled, s.hidden) }

unfoldable pub set_remote_access_disabled : Bool → Session → Session
set_remote_access_disabled disabled s =
    persist_prefs (record s { remote_access_disabled = disabled })

unfoldable pub set_hidden : Bool → Session → Session
set_hidden hidden s = persist_prefs (record s { hidden = hidden })
