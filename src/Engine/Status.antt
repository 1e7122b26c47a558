-- ===== src/Engine/Status.antt =====
-- The status of the network for display (crates/ipn-core/src/engine.rs: `status`). An address is
-- printed by the parameter `show`; `here` is what iroh says of this device.
pub mod Shown
use nullgate.Common.{
  ℕ, Bool, true, false, not, ◌&&◌, ◌||◌, Option, none, some, List, [], ◌∷◌, ltb, ◌==◌,
  if◌then◌else◌, is_some_and,
}
use nullgate.Common.Bytes.{to_be_bytes}
use nullgate.Common.HashMap.{nat_key, get}
use nullgate.Common.Results.{Result, ok, err}
use nullgate.Common.Text.{Text, codes}
use nullgate.Ip.{Ipv4Addr}
use nullgate.Roster.{NodeId, Role, InviteKind, Member, Invite}
use nullgate.Roster.Addresses.Place.{is_some}
use nullgate.Roster.Queries.{role, member, current_invite}
use nullgate.Presence.{PeerStatus}
use nullgate.Relays.Paths.{IpAddr}
use nullgate.Engine.Addresses.{split_local_public}
use nullgate.Engine.Config.{StoredConfig}
use nullgate.Engine.Session.{Env, Session, OpError}
use nullgate.Engine.Tick.{text_key}
use nullgate.Engine.Names.{Names}
use mathlib.Core.Option
use Prim.Native.String.{String}

-- `"peer"`, `"controller"` or `"originator"`.
pub data Tier : Type 0 where
  peer controller originator : Tier

abbrev pub tier_of : Role → Tier
tier_of Role.peer = Tier.peer
tier_of Role.controller = Tier.controller

pub record MemberView : Type 0 where
  pub node_id : Text
  pub hostname : Option Text
  pub label : Option Text
  pub note : Option Text
  pub virtual_ip : Option Text
  pub local_ip : Option Text
  pub public_ip : Option Text
  pub location : Option Text
  pub observed_addr : Option Text
  pub direct : Option Bool
  pub online : Bool
  pub last_seen : ℕ
  pub is_self : Bool
  pub is_originator_device : Bool
  pub tier : Tier
  pub access_disabled : Bool
  pub hidden : Bool

pub record NetworkStatus : Type 0 where
  pub name : String
  pub subnet : Text
  pub frozen : Bool
  pub self_node_id : Text
  pub self_ip : Option Text
  pub is_originator : Bool
  pub self_tier : Tier
  pub peer_ticket_single_use : Bool
  pub routing : Bool
  pub online : Bool
  pub home_relay : Option Text
  pub members : List MemberView

-- The endpoint's addresses and relays.
pub record Here : Type 0 where
  pub ips : List IpAddr
  pub relay_urls : List Text

abbrev pub rank : MemberView → ℕ
rank m = if m.hidden then 3 else if not m.online then 2 else if m.access_disabled then 1 else 0

abbrev pub text_le : Text → Text → Bool
text_le [] t = true
text_le (c ∷ s) [] = false
text_le (c ∷ s) (d ∷ t) = let rest = text_le s t in ltb c d || (c == d && rest)

abbrev pub view_le : MemberView → MemberView → Bool
view_le a b = ltb (rank a) (rank b) || (rank a == rank b && text_le a.node_id b.node_id)

unfoldable pub insert_view : MemberView → List MemberView → List MemberView
insert_view v [] = v ∷ []
insert_view v (w ∷ ws) = let rest = insert_view v ws in if view_le v w then v ∷ w ∷ ws else w ∷ rest

unfoldable pub sort_views : List MemberView → List MemberView
unfolding insert_view
sort_views [] = []
sort_views (v ∷ vs) = insert_view v (sort_views vs)

abbrev pub flag_of : Option (PeerStatus Text) → (PeerStatus Text → Bool) → Bool
flag_of ps f = is_some_and ps f

abbrev pub first_some : {A : Type 0} → Option A → Option A → Option A
first_some none later = later
first_some (some a) later = some a

abbrev pub field {ℓ} :
    {A : Type ℓ} → Option (PeerStatus Text) → (PeerStatus Text → Option A) → Option A
field none f = none
field (some p) f = f p

abbrev pub head : {A : Type 0} → List A → Option A
head [] = none
head (a ∷ more) = some a

module _ {Addr : Type 0} (env : Env Addr) where
  abbrev pub node_hex : NodeId → Text
  node_hex id = env.hex.encode (to_be_bytes 32 id)

  abbrev pub is_me : NodeId → Bool
  is_me id = id == env.my_id

  abbrev pub is_orig : StoredConfig → Bool
  is_orig cfg = is_some cfg.originator_secret

  unfoldable pub hidden_of : Session → NodeId → Bool
  hidden_of s id = if is_me id then s.hidden else flag_of (get id s.live.presence) (λ p. p.hidden)

  unfoldable pub disabled_of : Session → NodeId → Bool
  disabled_of s id =
      if is_me id
      then s.remote_access_disabled
      else flag_of (get id s.live.presence) (λ p. p.access_disabled)

  -- A hidden member is only shown to itself and to the originator.
  unfoldable pub is_shown : StoredConfig → Session → NodeId → Bool
  unfolding hidden_of
  is_shown cfg s id = not (not (is_me id) && hidden_of s id && not (is_orig cfg))

  abbrev pub tier_in : StoredConfig → Session → NodeId → Tier
  tier_in cfg s id =
      if is_me id && is_orig cfg then Tier.originator else tier_of (role s.live.roster id)

module _ {Addr : Type 0} (env : Env Addr) (show : IpAddr → Text) where
  unfoldable pub member_view : StoredConfig → Names → Here → Session → NodeId → Member → MemberView
  unfolding hidden_of disabled_of split_local_public
  member_view cfg names here s id m =
      let ps = get id s.live.presence in
      let me = is_me env id in
      record {
        node_id = node_hex env id;
        hostname =
            if me
            then some (codes env.hostname)
            else first_some (field ps (λ p. p.hostname)) (some (codes m.hostname));
        label = get ⦃e = text_key⦄ (node_hex env id) names.nicknames;
        note = get ⦃e = text_key⦄ (node_hex env id) names.notes;
        virtual_ip = some (show (IpAddr.v4 m.virtual_ip));
        local_ip =
            if me
            then Option.map show (split_local_public here.ips).0
            else field ps (λ p. p.local_ip);
        public_ip =
            if me
            then Option.map show (split_local_public here.ips).1
            else field ps (λ p. p.public_ip);
        location = field ps (λ p. p.location);
        observed_addr = field ps (λ p. p.observed_addr);
        direct = field ps (λ p. p.direct);
        online = me || flag_of ps (λ p. p.online);
        last_seen = Option.get_or (Option.map (λ p. p.last_seen) ps) 0;
        is_self = me;
        is_originator_device = false;
        tier = tier_in env cfg s id;
        access_disabled = disabled_of env s id;
        hidden = hidden_of env s id;
      }

  -- The loop over the members.
  unfoldable pub views :
      StoredConfig → Names → Here → Session → List (NodeId × Member) → List MemberView
  unfolding member_view is_shown
  views cfg names here s [] = []
  views cfg names here s ((id, m) ∷ members) =
      let rest = views cfg names here s members in
      if is_shown env cfg s id then member_view cfg names here s id m ∷ rest else rest

  unfoldable pub status_of : StoredConfig → Names → Here → Session → NetworkStatus
  unfolding views sort_views
  status_of cfg names here s = record {
    name = Option.get_or s.live.roster.name cfg.name;
    subnet = show (IpAddr.v4 cfg.subnet);
    frozen = s.live.roster.frozen;
    self_node_id = node_hex env env.my_id;
    self_ip = Option.map (λ m. show (IpAddr.v4 m.virtual_ip)) (member s.live.roster env.my_id);
    is_originator = is_orig env cfg;
    self_tier = if is_orig env cfg then Tier.originator else tier_of (role s.live.roster env.my_id);
    peer_ticket_single_use =
        Option.get_or
          (Option.map (λ (i : Invite). i.1) (current_invite s.live.roster InviteKind.peer)) false;
    routing = s.live.tun;
    online = is_some s.live.doc;
    home_relay = head here.relay_urls;
    members = sort_views (views cfg names here s s.live.roster.members);
  }

  abbrev pub status_in : Names → Here → Session → Option StoredConfig → Result OpError NetworkStatus
  status_in names here s none = err OpError.no_network
  status_in names here s (some cfg) = ok (status_of cfg names here s)

  unfoldable pub status : Names → Here → Session → Result OpError NetworkStatus
  unfolding status_of
  status names here s = status_in names here s s.config
