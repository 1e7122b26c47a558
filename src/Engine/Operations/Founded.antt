-- ===== src/Engine/Operations/Founded.antt =====
-- Founding a network (crates/ipn-core/src/engine.rs: `create_network`), down to the roster that the
-- founder's device folds from its own replica.
use nullgate.Common.{ℕ, ◌^◌, ◌≤◌, ◌<◌, ◌≡◌, ◌≢◌, refl, ap, ◌∙◌, none, some, [], ==_refl}
use nullgate.Common.HashMap.{nat_key, get, get-put_self}
use nullgate.Common.Results.{ok, err}
use nullgate.Ip.{Ipv4Addr}
use nullgate.Roster.{Role, InviteKind, InviteCheck}
use nullgate.Roster.Signing.{CryptoLaws, content_id}
use nullgate.Roster.Build.Founding.{Founding, founding_cfg, genesis, invite, founded, build-founded}
use nullgate.Common.Maps.{lookup}
use nullgate.Roster.Queries.{role, check_invite}
use nullgate.Membership.{publish_entry, build_roster}
use nullgate.Membership.Published.{Stored, load_entries-published}
use nullgate.Network.{network_id}
use nullgate.Secrets.{Os}
use nullgate.Engine.Config.{StoredConfig, roster_cfg, save_config}
use nullgate.Engine.Session.{Env, Net, Session, OpError, namespace}
use nullgate.Engine.Operations.{Fresh, ticket_for, create_network, first_host}
use nullgate.Engine.Operations.Leaving.{Works}
use Prim.Native.String.{String}

module _ {Addr : Type 0} (env : Env Addr) where
  -- The network that the arguments of `create_network` describe.
  abbrev pub new_config : String → Ipv4Addr → Fresh → StoredConfig
  new_config name subnet fresh = record {
    name = name;
    subnet = subnet;
    secret = fresh.secret;
    originator_id = env.crypto.verifying_key fresh.originator;
    originator_secret = some fresh.originator;
  }

  abbrev pub founding : Ipv4Addr → Fresh → Founding
  founding subnet fresh = record {
    network = network_id env.hkdf fresh.secret;
    key = fresh.originator;
    device = env.my_id;
    hostname = env.hostname;
    subnet = subnet;
    nonce = fresh.nonce;
    genesis_ts = fresh.genesis_ts;
    invite_ts = fresh.invite_ts;
  }

  -- The two entries are stored, differ, and are not of the future.
  pub record Sound (subnet : Ipv4Addr) (fresh : Fresh) : Type 0 where
    pub laws : CryptoLaws env.crypto
    pub genesis_stored :
        Stored env.crypto env.parse_entry (genesis env.crypto (founding subnet fresh))
    pub invite_stored :
        Stored env.crypto env.parse_entry (invite env.crypto (founding subnet fresh))
    pub differ :
        content_id env.crypto (genesis env.crypto (founding subnet fresh))
        ≢ content_id env.crypto (invite env.crypto (founding subnet fresh))
    pub genesis_time : fresh.genesis_ts ≤ fresh.fold_now
    pub invite_time : fresh.invite_ts ≤ fresh.fold_now
    pub now_fits : fresh.fold_now < 2 ^ 64

  build_roster-founded :
      (subnet : Ipv4Addr) (fresh : Fresh) (author : ℕ)
      → Sound subnet fresh
      → build_roster env.crypto env.parse_entry
          (founding_cfg env.crypto (founding subnet fresh))
          fresh.fold_now
          (publish_entry env.crypto author
            (invite env.crypto (founding subnet fresh))
            (publish_entry env.crypto author (genesis env.crypto (founding subnet fresh)) []))
        ≡ founded env.crypto (founding subnet fresh)
  unfolding build_roster
  build_roster-founded subnet fresh author h =
      rw
        (load_entries-published env.crypto author env.parse_entry _ _ h.genesis_stored
          h.invite_stored h.differ)
        (build-founded env.crypto h.laws (founding subnet fresh) fresh.fold_now h.genesis_time
          h.invite_time h.now_fits h.differ)

  create-roster :
      (net : Net) (os : Os) (name : String) (subnet : Ipv4Addr) (fresh : Fresh) (s : Session)
      → Sound subnet fresh
      → Works net
      → s.config ≡ none
      → get (namespace env (new_config name subnet fresh)) s.replicas ≡ none
      → (save_config env.hex env.config_cbor env.platform os
          (new_config name subnet fresh)
          s.disk).1
        ≡ ok tt
      → (create_network env net os name subnet fresh s).0.live.roster
        ≡ founded env.crypto (founding subnet fresh)
  unfolding create_network roster_cfg first_host
  create-roster net os name subnet fresh s h w e n saved =
      simp (e, saved, w.opens_doc, w.creates_author, w.subscribes, w.sets_bytes, get-put_self, n)
        (build_roster-founded subnet fresh net.author h)

  role-founded : (f : Founding) → role (founded env.crypto f) f.device ≡ Role.controller
  unfolding role lookup
  role-founded f = rw (==_refl f.device) refl

  check_invite-founded :
      (f : Founding) → check_invite (founded env.crypto f) InviteKind.peer f.nonce ≡ InviteCheck.ok
  unfolding check_invite
  check_invite-founded f = rw (==_refl f.nonce) refl

  -- Where the calls of iroh and the saving of the configuration succeed, this device has no document
  -- of the new network yet, signatures verify, each of the first two entries has at most 4096
  -- bytes, from which CBOR reads it back, and a content id of 32 bytes, the two content ids
  -- differ, and the clock, in 64 bits, does not go back between making the entries and the fold:
  -- on a device without a network, `create_network` ends with the join ticket that carries the
  -- network's secret and the code of its first invite. The device is then in this network, its own
  -- roster has this device alone, as a Controller at the first host address, and a joiner with the
  -- ticket's code is accepted. A device that is in a network already is refused and nothing
  -- changes.
  pub create_network_founds :
      (net : Net) (os : Os) (name : String) (subnet : Ipv4Addr) (fresh : Fresh) (s : Session)
      → Sound subnet fresh
      → Works net
      → get (namespace env (new_config name subnet fresh)) s.replicas ≡ none
      → (save_config env.hex env.config_cbor env.platform os
          (new_config name subnet fresh)
          s.disk).1
        ≡ ok tt
      → let cfg = new_config name subnet fresh in
        let made = create_network env net os name subnet fresh s in
        (s.config ≡ none
          → (made.1 ≡ ok (ticket_for env cfg InviteKind.peer fresh.nonce))
            × (made.0.config ≡ some cfg)
            × (made.0.live.roster ≡ founded env.crypto (founding subnet fresh))
            × (role made.0.live.roster env.my_id ≡ Role.controller)
            × (check_invite made.0.live.roster InviteKind.peer fresh.nonce ≡ InviteCheck.ok))
        × ((c : StoredConfig) → s.config ≡ some c → made ≡ (s, err OpError.already_in_network))
  unfolding create_network
  create_network_founds net os name subnet fresh s h w n saved = (
    λ e.
        let roster = create-roster net os name subnet fresh s h w e n saved in
        (
          simp (e, saved, w.opens_doc, w.creates_author, w.subscribes, w.sets_bytes) refl,
          simp (e, saved, w.opens_doc, w.creates_author, w.subscribes, w.sets_bytes) refl,
          roster,
          ap (λ r. role r env.my_id) roster ∙ role-founded (founding subnet fresh),
          ap (λ r. check_invite r InviteKind.peer fresh.nonce) roster
              ∙ check_invite-founded (founding subnet fresh),
        ),
    λ c e. simp e refl,
  )
