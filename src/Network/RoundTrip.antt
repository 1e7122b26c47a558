-- ===== src/Network/RoundTrip.antt =====
-- What is encoded is decoded again (crates/ipn-core/src/network.rs), also when it was pasted with
-- white space around it.
use nullgate.Common.{
  ℕ, ◌^◌, ◌≤◌, ◌<◌, ◌≡◌, refl, true, some, List, [], ◌∷◌, ◌++◌, arith, leb, ap, ◌∙◌, length,
}
use nullgate.Common.Bytes.{
  to_be_bytes, from_be_bytes, IsBytes, from_be_bytes-to_be_bytes, length-to_be_bytes,
  to_be_bytes-IsBytes,
}
use nullgate.Common.Results.{ok}
use nullgate.Common.Text.{
  Text, codes, utf8_len, trim, trim-around, strip_prefix-append, to_lowercase, to_uppercase, lower,
  upper, is_whitespace, All, IsBlank, IsInk,
}
use nullgate.Network.{
  Ticket, Codec, encode, decode, encode_recovery_key, decode_recovery_key, ticket_prefix,
  recovery_prefix, IsBase32, Base32Laws, ReadsBack,
}

le→leb : (a b : ℕ) → a ≤ b → leb a b ≡ true
le→leb a b h = ground arith

upper-lower : (table : ℕ → Text) (x : ℕ) → IsBase32 x → upper table (lower x) ≡ x ∷ []
upper-lower table x h = ground arith

lower-IsInk : (x : ℕ) → IsBase32 x → IsInk (lower x)
unfolding is_whitespace
lower-IsInk x h = ground arith

to_uppercase-to_lowercase :
    (table : ℕ → Text) (s : Text) → All IsBase32 s → to_uppercase table (to_lowercase s) ≡ s
unfolding to_uppercase to_lowercase
to_uppercase-to_lowercase table [] h = refl
to_uppercase-to_lowercase table (x ∷ s) h =
    rw (upper-lower table x h.0, to_uppercase-to_lowercase table s h.1) refl

to_lowercase-IsInk : (s : Text) → All IsBase32 s → All IsInk (to_lowercase s)
unfolding to_lowercase
to_lowercase-IsInk [] h = tt
to_lowercase-IsInk (x ∷ s) h = (lower-IsInk x h.0, to_lowercase-IsInk s h.1)

-- A text with other text before and after it.
abbrev pub pasted : Text → Text → Text → Text
pasted pre s post = pre ++ (s ++ post)

module _ {Addr : Type 0} (c : Codec Addr) (laws : Base32Laws c) (pre post : Text) where
  -- The base32 text of the bytes, in lower case.
  abbrev lowered : List ℕ → Text
  lowered bs = to_lowercase (c.base32 bs)

  lowered-IsInk : (bs : List ℕ) → All IsInk (lowered bs)
  lowered-IsInk bs = to_lowercase-IsInk (c.base32 bs) (laws.base32_alphabet bs)

  trim-ticket :
      All IsBlank pre
      → All IsBlank post
      → (bs : List ℕ)
      → trim (pasted pre (ticket_prefix ++ lowered bs) post) ≡ ticket_prefix ++ lowered bs
  unfolding is_whitespace
  trim-ticket hp hq bs =
      trim-around pre post 110 (103 ∷ 49 ∷ lowered bs) hp hq
        (refl, (refl, (refl, lowered-IsInk bs)))

  trim-recovery :
      All IsBlank pre
      → All IsBlank post
      → (bs : List ℕ)
      → trim (pasted pre (recovery_prefix ++ lowered bs) post) ≡ recovery_prefix ++ lowered bs
  unfolding is_whitespace
  trim-recovery hp hq bs =
      trim-around pre post 110 (103 ∷ 107 ∷ 101 ∷ 121 ∷ 49 ∷ lowered bs) hp hq
        (refl, (refl, (refl, (refl, (refl, (refl, lowered-IsInk bs))))))

  decode-lowered :
      (bs : List ℕ)
      → IsBytes bs
      → c.base32_decode (to_uppercase c.upper_table (lowered bs)) ≡ some bs
  decode-lowered bs h =
      rw (to_uppercase-to_lowercase c.upper_table (c.base32 bs) (laws.base32_alphabet bs))
        (laws.decode-base32 bs h)

  -- A ticket whose name has at most 128 bytes is decoded from its encoding, with any white
  -- space before and after it.
  pub decode-encode :
      All IsBlank pre
      → All IsBlank post
      → (t : Ticket Addr) → ReadsBack c t
      → utf8_len (codes t.name) ≤ 128
      → decode c (pasted pre (encode c t) post) ≡ ok t
  unfolding decode encode
  decode-encode hp hq t r short =
      rw
        (
          trim-ticket hp hq (c.write t),
          strip_prefix-append ticket_prefix (lowered (c.write t)),
          decode-lowered (c.write t) r.bytes,
          r.back,
          le→leb (utf8_len (codes t.name)) 128 short,
        )
        refl

  decode_recovery_key-lowered :
      All IsBlank pre
      → All IsBlank post
      → (bs : List ℕ) → IsBytes bs
      → length bs ≡ 32
      → decode_recovery_key c (pasted pre (recovery_prefix ++ lowered bs) post)
        ≡ ok (from_be_bytes bs)
  unfolding decode_recovery_key
  decode_recovery_key-lowered hp hq bs h n =
      rw
        (
          trim-recovery hp hq bs,
          strip_prefix-append recovery_prefix (lowered bs),
          decode-lowered bs h,
          n,
        )
        refl

  -- A master key of 32 bytes is recovered from its recovery code, with any white space before and
  -- after it.
  pub decode_recovery_key-encode_recovery_key :
      All IsBlank pre
      → All IsBlank post
      → (secret : ℕ) → secret < 256 ^ 32
      → decode_recovery_key c (pasted pre (encode_recovery_key c secret) post) ≡ ok secret
  unfolding encode_recovery_key
  decode_recovery_key-encode_recovery_key hp hq secret small =
      decode_recovery_key-lowered hp hq (to_be_bytes 32 secret) (to_be_bytes-IsBytes 32 secret)
        (length-to_be_bytes 32 secret)
      ∙ ap ok (from_be_bytes-to_be_bytes 32 secret small)
