-- ===== src/Admission.antt =====
-- The admission handshake (crates/ipn-core/src/admission.rs). HMAC-SHA256 is the parameter `hmac`.
-- What the stream does is an argument: whether each write is accepted, and what each read yields.
-- A run results in the bytes of the writes that were accepted, and the outcome.
pub mod Agreement
pub mod Sas
use nullgate.Common.{
  ℕ, ◌⊎◌, inl, inr, Bool, true, false, not, Option, none, some, List, [], ◌∷◌, ◌++◌, leb, ◌==◌,
  if◌then◌else◌,
}
use nullgate.Common.Bytes.{bytes_eq, to_be_bytes}
use nullgate.Admission.Sas.{sas_emojis}
use nullgate.Roster.{NodeId, Nonce}
use Prim.Native.String.{String}

-- b"ipn-admission-v1"
abbrev pub transcript_domain : List ℕ
transcript_domain =
    105 ∷ 112 ∷ 110 ∷ 45 ∷ 97 ∷ 100 ∷ 109 ∷ 105 ∷ 115 ∷ 115 ∷ 105 ∷ 111 ∷ 110 ∷ 45 ∷ 118 ∷ 49 ∷ []

abbrev pub protocol_version : ℕ
protocol_version = 1

abbrev pub sorted_pair : ℕ → ℕ → ℕ × ℕ
sorted_pair a b = if leb a b then (a, b) else (b, a)

unfoldable pub transcript : NodeId → NodeId → Nonce → Nonce → List ℕ
transcript a b na nb =
    let (lo_id, hi_id) = sorted_pair a b in
    let (lo_n, hi_n) = sorted_pair na nb in
    transcript_domain
    ++ to_be_bytes 32 lo_id
    ++ to_be_bytes 32 hi_id
    ++ to_be_bytes 32 lo_n
    ++ to_be_bytes 32 hi_n

pub record Verified : Type 0 where
  pub peer_id : NodeId
  pub sas : List String

pub data Refusal : Type 0 where
  stream_failed : Refusal
  protocol_mismatch : ℕ → ℕ → Refusal
  bad_psk : Refusal

pub record Stream : Type 0 where
  pub version_sent : Bool
  pub version : Option ℕ
  pub nonce_sent : Bool
  pub nonce : Option Nonce
  pub tag_sent : Bool
  pub tag : Option (List ℕ)

-- A write that was accepted comes before those of the rest of the run.
abbrev pub after_write : List ℕ → List ℕ × (Refusal ⊎ Verified) → List ℕ × (Refusal ⊎ Verified)
after_write bytes (sent, outcome) = (bytes ++ sent, outcome)

abbrev pub refused : Refusal → List ℕ × (Refusal ⊎ Verified)
refused why = ([], inl why)

module _ (hmac : List ℕ → List ℕ → List ℕ) where
  abbrev pub tag : List ℕ → List ℕ → List ℕ
  tag psk transcript = hmac psk transcript

  -- The last step, on the tag that the peer sent.
  unfoldable pub check_tag : List ℕ → List ℕ → NodeId → Option (List ℕ) → Refusal ⊎ Verified
  check_tag psk transcript peer_id none = inl Refusal.stream_failed
  check_tag psk transcript peer_id (some peer_tag) =
      if not (bytes_eq (tag psk transcript) peer_tag)
      then inl Refusal.bad_psk
      else inr (record { peer_id = peer_id; sas = sas_emojis hmac psk transcript })

  -- The second step, on the peer's nonce.
  unfoldable pub exchange_tags :
      List ℕ → NodeId → NodeId → Nonce → Stream → Option Nonce → List ℕ × (Refusal ⊎ Verified)
  exchange_tags psk my_id peer_id na io none = refused Refusal.stream_failed
  exchange_tags psk my_id peer_id na io (some nb) =
      let t = transcript my_id peer_id na nb in
      if io.tag_sent
      then (tag psk t, check_tag psk t peer_id io.tag)
      else refused Refusal.stream_failed

  -- The first step, on the peer's version.
  unfoldable pub check_version :
      List ℕ → ℕ → NodeId → NodeId → Nonce → Stream → Option ℕ → List ℕ × (Refusal ⊎ Verified)
  check_version psk version my_id peer_id na io none = refused Refusal.stream_failed
  check_version psk version my_id peer_id na io (some peer_version) =
      if not (peer_version == version)
      then refused (Refusal.protocol_mismatch peer_version version)
      else if io.nonce_sent
      then after_write (to_be_bytes 32 na) (exchange_tags psk my_id peer_id na io io.nonce)
      else refused Refusal.stream_failed

  -- `run`, with the nonce that it draws.
  unfoldable pub handshake :
      List ℕ → ℕ → NodeId → NodeId → Nonce → Stream → List ℕ × (Refusal ⊎ Verified)
  handshake psk version my_id peer_id na io =
      if io.version_sent
      then after_write (to_be_bytes 4 version)
          (check_version psk version my_id peer_id na io io.version)
      else refused Refusal.stream_failed
