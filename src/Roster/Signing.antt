-- ===== src/Roster/Signing.antt =====
-- Content ids, signatures and their check (roster.rs: `Entry`, `signing_bytes`, `sign`). The
-- ed25519, blake3 and CBOR libraries are the parameter `c`.
use nullgate.Common.{ℕ, ◌≡◌, Bool, true, false, List, arith, ◌==◌, if◌then◌else◌, length}
use nullgate.Roster.{NodeId, Op, Entry}
use Prim.Native.String.{String}

pub record SigningView : Type 0 where
  pub domain : String
  pub network_id : NodeId
  pub signer : NodeId
  pub op : Op

-- A secret key is named by its seed, as `SigningKey::from_bytes` takes it.
pub record Crypto : Type 0 where
  pub verifying_key : ℕ → NodeId
  pub sign_bytes : ℕ → List ℕ → List ℕ
  -- whether `VerifyingKey::from_bytes` accepts
  pub is_key : NodeId → Bool
  pub verify_strict : NodeId → List ℕ → List ℕ → Bool
  pub view_cbor : SigningView → List ℕ
  pub entry_cbor : NodeId → NodeId → Op → List ℕ → List ℕ
  pub blake3 : List ℕ → ℕ

-- ed25519: signatures have 64 bytes, and a signature made by a key passes the check under it.
pub record CryptoLaws (c : Crypto) : Type 0 where
  pub length-sign : (key : ℕ) (m : List ℕ) → length (c.sign_bytes key m) ≡ 64
  pub is_key-key : (key : ℕ) → c.is_key (c.verifying_key key) ≡ true
  pub verify-sign :
      (key : ℕ) (m : List ℕ) → c.verify_strict (c.verifying_key key) m (c.sign_bytes key m) ≡ true

module _ (c : Crypto) where
  unfoldable pub content_id : Entry → ℕ
  content_id e = c.blake3 (c.entry_cbor e.network_id e.signer e.op e.signature)

  unfoldable pub signing_bytes : NodeId → NodeId → Op → List ℕ
  signing_bytes net signer op =
      c.view_cbor (record { domain = "ipn-roster-v2"; network_id = net; signer = signer; op = op })

  unfoldable pub verify_signature : Entry → Bool
  verify_signature e =
      if length e.signature == 64
      then if c.is_key e.signer
        then c.verify_strict e.signer (signing_bytes e.network_id e.signer e.op) e.signature
        else false
      else false

  unfoldable pub sign : NodeId → ℕ → Op → Entry
  sign net key op =
      let signer = c.verifying_key key in
      record {
        network_id = net;
        signer = signer;
        op = op;
        signature = c.sign_bytes key (signing_bytes net signer op);
      }

  -- Every entry that `sign` makes passes `verify_signature`.
  pub verify_signature-sign :
      CryptoLaws c → (net : NodeId) (key : ℕ) (op : Op) → verify_signature (sign net key op) ≡ true
  unfolding verify_signature sign
  verify_signature-sign laws net key op = ground (
    arith,
    laws.length-sign key (signing_bytes net (c.verifying_key key) op),
    laws.is_key-key key,
    laws.verify-sign key (signing_bytes net (c.verifying_key key) op),
  )
