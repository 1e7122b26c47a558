-- ===== src/Admission/Agreement.antt =====
-- Both ends of a handshake agree (admission.rs: `run`, `transcript`).
use nullgate.Common.{
  ℕ, ◌≡◌, inl, inr, refl, ap, ◌∙◌, ◌++◌, ==_refl, true, Option, none, some, List, arith,
  Option-cases,
}
use nullgate.Common.Bytes.{bytes_eq, bytes_eq_iff, to_be_bytes}
use nullgate.Admission.{
  sorted_pair, transcript, Verified, Stream, tag, check_tag, exchange_tags, check_version,
  handshake,
}
use nullgate.Admission.Sas.{sas_emojis}
use nullgate.Roster.{NodeId, Nonce}
use Prim.Native.String.{String}

sorted_pair_comm : (a b : ℕ) → sorted_pair a b ≡ sorted_pair b a
sorted_pair_comm a b = ground arith

transcript_comm : (a b : NodeId) (na nb : Nonce) → transcript a b na nb ≡ transcript b a nb na
unfolding transcript
transcript_comm a b na nb = rw (sorted_pair_comm a b, sorted_pair_comm na nb) refl

module _ (hmac : List ℕ → List ℕ → List ℕ) where
  -- A stream that carries all that an honest peer sends.
  abbrev pub honest_peer : List ℕ → ℕ → NodeId → NodeId → Nonce → Nonce → Stream
  honest_peer psk version peer_id my_id peer_nonce my_nonce = record {
    version_sent = true;
    version = some version;
    nonce_sent = true;
    nonce = some peer_nonce;
    tag_sent = true;
    tag = some (tag hmac psk (transcript peer_id my_id peer_nonce my_nonce));
  }

  -- The bytes that such a stream carries.
  abbrev pub honest_bytes : List ℕ → ℕ → NodeId → NodeId → Nonce → Nonce → List ℕ
  honest_bytes psk version my_id peer_id na nb =
      to_be_bytes 4 version ++ (to_be_bytes 32 na ++ tag hmac psk (transcript my_id peer_id na nb))

  one_end :
      (psk : List ℕ) (version : ℕ) (a b : NodeId) (na nb : Nonce)
      → handshake hmac psk version a b na (honest_peer psk version b a nb na) ≡ (
        honest_bytes psk version a b na nb,
        inr (record { peer_id = b; sas = sas_emojis hmac psk (transcript a b na nb) }),
      )
  unfolding handshake check_version exchange_tags check_tag
  one_end psk version a b na nb =
      let t = tag hmac psk (transcript a b na nb) in
      let same : bytes_eq t t ≡ true = (bytes_eq_iff t t).1 refl in
      rw (transcript_comm b a nb na, ==_refl version, same) refl

  -- Two ends that hold the same PSK and speak the same version, over a stream that loses nothing,
  -- both accept, each with the other's id, and show the same authentication string. Each writes
  -- exactly the bytes that the stream carries to the other.
  pub handshake_agrees :
      (psk : List ℕ) (version : ℕ) (a b : NodeId) (na nb : Nonce)
      → (sas : List String) × (handshake hmac psk version a b na (honest_peer psk version b a nb na)
          ≡ (honest_bytes psk version a b na nb, inr (record { peer_id = b; sas = sas })))
        × (handshake hmac psk version b a nb (honest_peer psk version a b na nb)
            ≡ (honest_bytes psk version b a nb na, inr (record { peer_id = a; sas = sas })))
  handshake_agrees psk version a b na nb = (
    sas_emojis hmac psk (transcript a b na nb),
    one_end psk version a b na nb,
    one_end psk version b a nb na
        ∙ ap
            (λ t. (
              honest_bytes psk version b a nb na,
              inr (record { peer_id = a; sas = sas_emojis hmac psk t }),
            ))
            (transcript_comm b a nb na),
  )

  check_tag_sound :
      (psk t : List ℕ) (peer_id : NodeId) (o : Option (List ℕ)) (v : Verified)
      → check_tag hmac psk t peer_id o ≡ inr v
      → (v.peer_id ≡ peer_id) × (o ≡ some (tag hmac psk t))
  unfolding check_tag
  check_tag_sound psk t peer_id none v e = absurd (cc)
  check_tag_sound psk t peer_id (some peer_tag) v e =
      ground (arith, e, bytes_eq_iff (tag hmac psk t) peer_tag)

  exchange_tags_sound :
      (psk : List ℕ) (a b : NodeId) (na : Nonce) (io : Stream) (o : Option Nonce) (v : Verified)
      → (exchange_tags hmac psk a b na io o).1 ≡ inr v
      → (v.peer_id ≡ b)
        × (nb : Nonce) × (o ≡ some nb)
        × (io.tag ≡ some (tag hmac psk (transcript a b na nb)))
  unfolding exchange_tags
  exchange_tags_sound psk a b na io none v e = absurd (cc)
  exchange_tags_sound psk a b na io (some nb) v e =
      let last : check_tag hmac psk (transcript a b na nb) b io.tag ≡ inr v = ground arith in
      let facts = check_tag_sound psk (transcript a b na nb) b io.tag v last in
      (facts.0, nb, refl, facts.1)

  -- An end that accepts has read its own version, a nonce, and the tag that the PSK gives for the
  -- transcript of both ids and nonces, and reports the id that TLS verified.
  pub handshake_sound :
      (psk : List ℕ) (version : ℕ) (a b : NodeId) (na : Nonce) (io : Stream) (v : Verified)
      → (handshake hmac psk version a b na io).1 ≡ inr v
      → (io.version ≡ some version)
        × (v.peer_id ≡ b)
        × (nb : Nonce) × (io.nonce ≡ some nb)
        × (io.tag ≡ some (tag hmac psk (transcript a b na nb)))
  unfolding handshake check_version
  handshake_sound psk version a b na io v e = elim (Option-cases io.version) [
    | inl miss ↦ absurd (ground (arith, miss, e))
    | inr (spoken, hit) ↦
        let same : spoken ≡ version = ground (arith, hit, e) in
        let last : (exchange_tags hmac psk a b na io io.nonce).1 ≡ inr v = ground (arith, hit, e) in
        let facts = exchange_tags_sound psk a b na io io.nonce v last in
        (rw (hit, same) refl, facts.0, facts.1, facts.2, facts.3)
  ]
