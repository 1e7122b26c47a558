-- ===== src/Engine/Operations/Authority.antt =====
-- Who may administer the network from a device (crates/ipn-core/src/engine.rs), and the transfer of
-- the originator's key.
use nullgate.Common.{
  ℕ, ◌^◌, ◌<◌, ◌≡◌, ◌≢◌, refl, Bool, true, false, Option, none, some, arith, ◌==◌, ==_iff,
}
use nullgate.Common.Results.{Result, ok, err}
use nullgate.Common.Text.{Text, All, IsBlank}
use nullgate.Roster.{NodeId, Nonce, Role, role_eq}
use nullgate.Roster.Queries.{role}
use nullgate.Network.{encode_recovery_key, decode_recovery_key, Base32Laws}
use nullgate.Network.RoundTrip.{pasted, decode_recovery_key-encode_recovery_key}
use nullgate.Secrets.{Os}
use nullgate.Engine.Config.{StoredConfig}
use nullgate.Engine.Session.{Env, Net, Session, OpError, after, need}
use nullgate.Engine.Operations.{
  Fresh, remove_member, set_member_role, set_frozen, regenerate_peer_invite,
  set_peer_ticket_single_use, ticket, controller_ticket, delete_network, rotate_network,
  export_originator_key, import_originator_key, parse_id, save,
}

-- The device is in a network, does not hold the originator's key, and is no Controller.
pub record IsPlainPeer {Addr : Type 0} (env : Env Addr) (s : Session) : Type 0 where
  pub cfg : StoredConfig
  pub in_network : s.config ≡ some cfg
  pub no_key : cfg.originator_secret ≡ none
  pub no_role : role_eq (role s.live.roster env.my_id) Role.controller ≡ false

-- The call ends in an error and leaves the state as it was.
abbrev pub Refuses : {A : Type 0} → Session → Session × Result OpError A → Type 0
Refuses s (t, ok a) = ⊥
Refuses s (t, err e) = t ≡ s

Refuses-need :
    {A B : Type 0} (s : Session) (o : Option A) (e : OpError)
    (next : A → Session → Session × Result OpError B)
    → ((a : A) → Refuses s (next a s))
    → Refuses s (after (need o e s) next)
Refuses-need s none e next h = refl
Refuses-need s (some a) e next h = h a

module _ {Addr : Type 0} (env : Env Addr) (s : Session) where
  -- From a device that neither holds the originator's key nor is a Controller, every operation on
  -- the network's members, its invites, its tickets and its key is refused, and nothing that the
  -- engine keeps has changed, nothing published.
  pub peer_cannot_administer :
      IsPlainPeer env s
      → (net : Net) (os : Os) (id : Text) (flag : Bool) (nonce : Nonce) (ts : ℕ) (each : NodeId → ℕ)
        (fresh : Fresh)
      → Refuses s (remove_member env net id ts s)
        × Refuses s (set_member_role env net id flag ts s)
        × Refuses s (set_frozen env net flag ts s)
        × Refuses s (set_peer_ticket_single_use env net flag nonce ts s)
        × Refuses s (ticket env net nonce ts s)
        × Refuses s (controller_ticket env net nonce ts s)
        × Refuses s (delete_network env net os each s)
        × Refuses s (rotate_network env net os each fresh s)
        × Refuses s (export_originator_key env s)
  unfolding remove_member set_member_role set_frozen set_peer_ticket_single_use
      regenerate_peer_invite ticket controller_ticket delete_network rotate_network
      export_originator_key
  peer_cannot_administer p net os id flag nonce ts each fresh =
      let here = p.in_network in
      (
        Refuses-need s (parse_id env.hex id) OpError.bad_id _
            (λ n. simp (here, p.no_key, p.no_role) refl),
        Refuses-need s (parse_id env.hex id) OpError.bad_id _ (λ n. simp (here, p.no_key) refl),
        simp (here, p.no_key) refl,
        simp (here, p.no_key, p.no_role) refl,
        simp (here, p.no_key, p.no_role) refl,
        simp (here, p.no_key) refl,
        simp (here, p.no_key) refl,
        simp (here, p.no_key) refl,
        simp (here, p.no_key) refl,
      )

pub ==-ne : (a b : ℕ) → a ≢ b → (a == b) ≡ false
==-ne a b h = ground arith

-- What the transfer of the originator's key takes: `s` is the session of the device that holds it.
pub record Holds {Addr : Type 0} (env : Env Addr) (s : Session) (key : ℕ) : Type 0 where
  pub laws : Base32Laws env.codec
  pub cfg : StoredConfig
  pub in_network : s.config ≡ some cfg
  pub key_held : cfg.originator_secret ≡ some key
  pub key_fits : key < 256 ^ 32

abbrev pub with_key : ℕ → StoredConfig → StoredConfig
with_key key cfg = record cfg { originator_secret = some key }

module _ {Addr : Type 0} (env : Env Addr) where
  exported :
      (s : Session) (key : ℕ) (h : Holds env s key)
      → export_originator_key env s ≡ (s, ok (encode_recovery_key env.codec key))
  unfolding export_originator_key
  exported s key h = simp (h.in_network, h.key_held) refl

  adopted : ℕ → StoredConfig → Unit {0} → Session → Session × Result OpError (Unit {0})
  adopted key cfg u s = (record s { config = some (with_key key cfg) }, ok tt)

  import-decoded :
      (os : Os) (heir : Session) (code : Text) {key : ℕ} {cfg : StoredConfig}
      → decode_recovery_key env.codec code ≡ ok key
      → heir.config ≡ some cfg
      → (env.crypto.verifying_key key == cfg.originator_id) ≡ true
      → import_originator_key env os code heir
        ≡ after (save env os (with_key key cfg) heir) (adopted key cfg)
  unfolding import_originator_key adopted
  import-decoded os heir code d e v = simp (d, e, v) refl

  import-refused :
      (os : Os) (heir : Session) (code : Text) {key : ℕ} {cfg : StoredConfig}
      → decode_recovery_key env.codec code ≡ ok key
      → heir.config ≡ some cfg
      → (env.crypto.verifying_key key == cfg.originator_id) ≡ false
      → import_originator_key env os code heir ≡ (heir, err OpError.wrong_network)
  unfolding import_originator_key
  import-refused os heir code d e v = simp (d, e, v) refl

  after-adopted :
      (r : Session × Result OpError (Unit {0})) (key : ℕ) (cfg : StoredConfig)
      → r.1 ≡ ok tt
      → ((after r (adopted key cfg)).1 ≡ ok tt)
        × ((after r (adopted key cfg)).0.config ≡ some (with_key key cfg))
  unfolding adopted
  after-adopted (s, ok u) key cfg h = (refl, refl)
  after-adopted (s, err e) key cfg h = cc

  -- The recovery code that a device exports, pasted with any white space around it into a device
  -- that is in a network with the same originator, gives that device the key and changes nothing
  -- else in its configuration, if the configuration can be saved. In a network with another
  -- originator it is refused and nothing changes.
  pub import_originator_key-export :
      (s heir : Session) (key : ℕ)
      → Holds env s key
      → (cfg : StoredConfig) → heir.config ≡ some cfg
      → (pre post : Text) → All IsBlank pre
      → All IsBlank post
      → (os : Os)
      → (export_originator_key env s ≡ (s, ok (encode_recovery_key env.codec key)))
        × (env.crypto.verifying_key key ≡ cfg.originator_id
            → (save env os (with_key key cfg) heir).1 ≡ ok tt
            → let code = pasted pre (encode_recovery_key env.codec key) post in
              ((import_originator_key env os code heir).1 ≡ ok tt)
              × ((import_originator_key env os code heir).0.config ≡ some (with_key key cfg)))
        × (env.crypto.verifying_key key ≢ cfg.originator_id
            → import_originator_key env os
                (pasted pre (encode_recovery_key env.codec key) post)
                heir
              ≡ (heir, err OpError.wrong_network))
  import_originator_key-export s heir key h cfg e pre post hp hq os =
      let code = encode_recovery_key env.codec key in
      let decoded =
        decode_recovery_key-encode_recovery_key env.codec h.laws pre post hp hq key h.key_fits in
      (
        exported s key h,
        λ same saved.
            let run =
              import-decoded os heir (pasted pre code post) decoded e
                ((==_iff (env.crypto.verifying_key key) cfg.originator_id).1 same) in
            rw run (after-adopted (save env os (with_key key cfg) heir) key cfg saved),
        λ other.
            import-refused os heir (pasted pre code post) decoded e
              (==-ne (env.crypto.verifying_key key) cfg.originator_id other),
      )
