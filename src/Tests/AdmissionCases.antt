-- ===== src/Tests/AdmissionCases.antt =====
-- Runs and theorems at inputs in the manner of the unit tests (crates/ipn-core/src/admission.rs).
use nullgate.Common.{ℕ, ◌≡◌, inl, inr, refl, true, some, List, [], ◌∷◌, ◌++◌}
use nullgate.Admission.{
  Verified, Refusal, Stream, tag, transcript, check_tag, exchange_tags, check_version, handshake,
}
use nullgate.Admission.Agreement.{honest_peer, honest_bytes, handshake_agrees, handshake_sound}
use nullgate.Admission.Sas.{sas_indices, refill, sas_emojis, find_word, word_for_emoji, sas_words}
use Prim.Native.String.{String}

model : Unit {0}
unfolding transcript check_tag exchange_tags check_version handshake sas_indices refill sas_emojis
    find_word word_for_emoji sas_words
model = tt

-- A stand-in for HMAC: the key and the message, one after the other.
abbrev hmac : List ℕ → List ℕ → List ℕ
hmac key message = key ++ message

abbrev psk : List ℕ
psk = 1 ∷ 2 ∷ 3 ∷ 255 ∷ 5 ∷ 6 ∷ []

-- The peer's end of a stream between the ids 10 and 20.
abbrev io : Stream
io = honest_peer hmac psk 1 20 10 200 100

abbrev session : List String
unfolding model
session = sas_emojis hmac psk (transcript 10 20 100 200)

abbrev verified : Verified
verified = record { peer_id = 20; sas = session }

honest_session : (handshake hmac psk 1 10 20 100 io).1 ≡ inr verified
unfolding model
honest_session = refl

wrong_psk : (handshake hmac (9 ∷ []) 1 10 20 100 io).1 ≡ inl Refusal.bad_psk
unfolding model
wrong_psk = refl

wrong_version : (handshake hmac psk 2 10 20 100 io).1 ≡ inl (Refusal.protocol_mismatch 1 2)
unfolding model
wrong_version = refl

-- A peer that holds no PSK: it has read the tag of this end, and sends it back.
abbrev echo : Stream
unfolding transcript
echo = record {
  version_sent = true;
  version = some 1;
  nonce_sent = true;
  nonce = some 0;
  tag_sent = true;
  tag = some (tag hmac psk (transcript 10 20 100 0));
}

abbrev echo_session : List String
unfolding model
echo_session = sas_emojis hmac psk (transcript 10 20 100 0)

-- With another version, only the version is written.
version_only : (handshake hmac psk 2 10 20 100 io).0 ≡ 0 ∷ 0 ∷ 0 ∷ 2 ∷ []
unfolding model
version_only = refl

-- This end accepts it.
echoed_tag :
    (handshake hmac psk 1 10 20 100 echo).1 ≡ inr (record { peer_id = 20; sas = echo_session })
unfolding model
echoed_tag = refl

unknown_emoji : sas_words ("x" ∷ "🔑" ∷ []) ≡ "?" ∷ "Key" ∷ []
unfolding model
unknown_emoji = refl

handshake_agrees_example :
    (sas : List String) × (handshake hmac psk 1 10 20 100 (honest_peer hmac psk 1 20 10 200 100)
      ≡ (honest_bytes hmac psk 1 10 20 100 200, inr (record { peer_id = 20; sas = sas })))
    × (handshake hmac psk 1 20 10 200 (honest_peer hmac psk 1 10 20 100 200)
        ≡ (honest_bytes hmac psk 1 20 10 200 100, inr (record { peer_id = 10; sas = sas })))
handshake_agrees_example = handshake_agrees hmac psk 1 10 20 100 200

handshake_sound_example :
    (io.version ≡ some 1)
    × (verified.peer_id ≡ 20)
    × (nb : ℕ) × (io.nonce ≡ some nb)
    × (io.tag ≡ some (tag hmac psk (transcript 10 20 100 nb)))
handshake_sound_example = handshake_sound hmac psk 1 10 20 100 io verified honest_session
