-- ===== src/Engine/Operations/Leaving.antt =====
-- Going offline, leaving, and answering a pending join (crates/ipn-core/src/engine.rs).
use nullgate.Common.{ℕ, ◌≡◌, refl, Bool, true, false, none, some, [], ◌∷◌}
use nullgate.Common.HashMap.{nat_key, get, get-put_self, get-delete_self, or_default}
use nullgate.Common.Results.{ok, err}
use nullgate.Common.Text.{Text}
use nullgate.Roster.{NodeId}
use nullgate.Secrets.{Os}
use nullgate.Engine.Config.{StoredConfig, load_config, load_file_bytes}
use nullgate.Engine.Session.{Env, Net, Session, OpError, after, offline, namespace}
use nullgate.Engine.Operations.{leave_network, set_online, decide_join, parse_id}

-- Every call of iroh succeeds.
pub record Works (net : Net) : Type 0 where
  pub opens_doc : net.opens_doc ≡ true
  pub creates_author : net.creates_author ≡ true
  pub subscribes : net.subscribes ≡ true
  pub sets_bytes : net.sets_bytes ≡ true

module _ {Addr : Type 0} (env : Env Addr) where
  -- Leaving succeeds exactly in a network. It leaves nothing of what is only kept online, and when
  -- files could be removed, then whatever the operating system does later, no network is found on
  -- the disk any more. The device's preferences, and the documents that iroh-docs has stored, are
  -- still there.
  pub leave_network_lem :
      (os : Os) (s : Session) (cfg : StoredConfig)
      → s.config ≡ some cfg
      → let left = (leave_network env os s).0 in
        ((leave_network env os s).1 ≡ ok tt)
        × (left.live ≡ offline)
        × (left.config ≡ none)
        × (left.replicas ≡ s.replicas)
        × (left.saved_prefs ≡ s.saved_prefs)
        × (os.removes ≡ true
            → (later : Os)
            → load_config env.hex env.config_cbor env.platform later left.disk ≡ ok none)
  unfolding leave_network load_config load_file_bytes
  leave_network_lem os s cfg e = simp e (refl, refl, refl, refl, refl, λ r later. rw r refl)

  -- A device that goes offline and online again, when every call of iroh succeeds, is in the same
  -- network as before, with the network's document open and its entries as they were stored.
  pub set_online_again :
      (net : Net) (os : Os) (s : Session) (cfg : StoredConfig)
      → Works net
      → s.config ≡ some cfg
      → let back = after (set_online env net os false s) (λ u. set_online env net os true) in
        (back.1 ≡ ok tt)
        × (back.0.config ≡ some cfg)
        × (back.0.live.doc ≡ some (namespace env cfg))
        × (back.0.live.virtual_subnet ≡ some cfg.subnet)
        × (get (namespace env cfg) back.0.replicas
            ≡ some (or_default [] (get (namespace env cfg) s.replicas)))
  unfolding set_online
  set_online_again net os s cfg w e =
      simp (e, w.opens_doc, w.creates_author, w.subscribes)
        (
          refl,
          refl,
          refl,
          refl,
          get-put_self (namespace env cfg) (or_default [] (get (namespace env cfg) s.replicas))
              s.replicas,
        )

  -- A pending join is answered at most once: the answer of the first decision is sent to it, and a
  -- second decision on the same device is refused and sends nothing.
  pub decide_join_once :
      (hex : Text) (first second : Bool) (s : Session) (id : NodeId) (channel : ℕ)
      → parse_id env.hex hex ≡ some id
      → get id s.live.pending ≡ some channel
      → let one = decide_join env hex first s in
        let two = decide_join env hex second one.0 in
        (one.1 ≡ ok tt)
        × (one.0.answers ≡ (channel, first) ∷ s.answers)
        × (two.1 ≡ err OpError.no_pending)
        × (two.0.answers ≡ one.0.answers)
  unfolding decide_join
  decide_join_once hex first second s id channel e g =
      simp (e, g, get-delete_self id s.live.pending) (refl, refl, refl, refl)
