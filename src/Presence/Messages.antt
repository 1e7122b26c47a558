-- ===== src/Presence/Messages.antt =====
-- The signed messages of the gossip topic (presence.rs: `Presence`, `Locations`). The ed25519 and
-- CBOR libraries are the parameter `c`. A message is verified before the tracker sees it.
use nullgate.Common.{
  ℕ, ◌≡◌, Bool, true, false, not, Option, List, ◌==◌, if◌then◌else◌, length, arith,
}
use nullgate.Roster.{NodeId}
use Prim.Native.String.{String}

pub record PresenceView : Type 0 where
  pub domain : String
  pub network_id : NodeId
  pub node_id : NodeId
  pub hostname : String
  pub public_ip : Option String
  pub remote_access_disabled : Bool
  pub hidden : Bool
  pub ts : ℕ

pub record LocationsView : Type 0 where
  pub domain : String
  pub network_id : NodeId
  pub entries : List (NodeId × String)
  pub ts : ℕ

-- A secret key is named by its seed.
pub record MessageCrypto : Type 0 where
  pub verifying_key : ℕ → NodeId
  pub sign_bytes : ℕ → List ℕ → List ℕ
  pub is_key : NodeId → Bool
  pub verify_strict : NodeId → List ℕ → List ℕ → Bool
  pub presence_cbor : PresenceView → List ℕ
  pub locations_cbor : LocationsView → List ℕ

pub record MessageCryptoLaws (c : MessageCrypto) : Type 0 where
  pub length-sign : (key : ℕ) (m : List ℕ) → length (c.sign_bytes key m) ≡ 64
  pub is_key-key : (key : ℕ) → c.is_key (c.verifying_key key) ≡ true
  pub verify-sign :
      (key : ℕ) (m : List ℕ) → c.verify_strict (c.verifying_key key) m (c.sign_bytes key m) ≡ true

pub record Presence : Type 0 where
  pub network_id : NodeId
  pub node_id : NodeId
  pub hostname : String
  pub public_ip : Option String
  pub remote_access_disabled : Bool
  pub hidden : Bool
  pub ts : ℕ
  pub signature : List ℕ

pub record Locations : Type 0 where
  pub network_id : NodeId
  pub ts : ℕ
  pub entries : List (NodeId × String)
  pub signature : List ℕ

module _ (c : MessageCrypto) where
  unfoldable pub presence_bytes :
      NodeId → NodeId → String → Option String → Bool → Bool → ℕ → List ℕ
  presence_bytes net node hostname public_ip disabled hidden ts = c.presence_cbor (record {
    domain = "ipn-presence-v1";
    network_id = net;
    node_id = node;
    hostname = hostname;
    public_ip = public_ip;
    remote_access_disabled = disabled;
    hidden = hidden;
    ts = ts;
  })

  unfoldable pub signed_presence : NodeId → ℕ → String → Option String → Bool → Bool → ℕ → Presence
  signed_presence net key hostname public_ip disabled hidden ts =
      let node = c.verifying_key key in
      record {
        network_id = net;
        node_id = node;
        hostname = hostname;
        public_ip = public_ip;
        remote_access_disabled = disabled;
        hidden = hidden;
        ts = ts;
        signature =
            c.sign_bytes key (presence_bytes net node hostname public_ip disabled hidden ts);
      }

  -- The check of a signature: its length, the key, and the signature itself.
  abbrev pub checks : NodeId → List ℕ → List ℕ → Bool
  checks signer bytes signature =
      if not (length signature == 64)
      then false
      else if not (c.is_key signer)
      then false
      else c.verify_strict signer bytes signature

  unfoldable pub verify_presence : Presence → NodeId → Bool
  verify_presence p net =
      if not (p.network_id == net)
      then false
      else checks p.node_id
          (presence_bytes p.network_id p.node_id p.hostname p.public_ip p.remote_access_disabled
            p.hidden p.ts)
          p.signature

  unfoldable pub locations_bytes : NodeId → List (NodeId × String) → ℕ → List ℕ
  locations_bytes net entries ts =
      c.locations_cbor
        (record { domain = "ipn-locations-v1"; network_id = net; entries = entries; ts = ts })

  unfoldable pub signed_locations : NodeId → ℕ → List (NodeId × String) → ℕ → Locations
  signed_locations net originator_key entries ts = record {
    network_id = net;
    ts = ts;
    entries = entries;
    signature = c.sign_bytes originator_key (locations_bytes net entries ts);
  }

  unfoldable pub verify_locations : Locations → NodeId → NodeId → Bool
  verify_locations l net originator_id =
      if not (l.network_id == net)
      then false
      else checks originator_id (locations_bytes l.network_id l.entries l.ts) l.signature

  -- What a device signs is accepted in its own network and in no other, and what the originator
  -- signs likewise.
  pub signed_messages_verify :
      (laws : MessageCryptoLaws c) (net other : NodeId) (key : ℕ) (hostname : String)
      (public_ip : Option String) (disabled hidden : Bool) (ts : ℕ)
      (entries : List (NodeId × String))
      → (verify_presence (signed_presence net key hostname public_ip disabled hidden ts) other
          ≡ (net == other))
        × (verify_locations (signed_locations net key entries ts) other (c.verifying_key key)
            ≡ (net == other))
  unfolding verify_presence signed_presence verify_locations signed_locations
  signed_messages_verify laws net other key hostname public_ip disabled hidden ts entries =
      let p : List ℕ =
        presence_bytes net (c.verifying_key key) hostname public_ip disabled hidden ts in
      let l : List ℕ = locations_bytes net entries ts in
      (
        ground (arith, laws.length-sign key p, laws.is_key-key key, laws.verify-sign key p),
        ground (arith, laws.length-sign key l, laws.is_key-key key, laws.verify-sign key l),
      )
