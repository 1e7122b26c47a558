-- ===== src/Ipc/Stream.antt =====
-- The frames of a stream, one after another (crates/ipn-ipc/src/transport.rs).
use nullgate.Common.{
  ℕ, zero, suc, ◌%◌, ◌^◌, ◌≤◌, ◌<◌, ◌≡◌, inl, inr, Bool-cases, refl, ap, subst, sym, ◌∙◌, false,
  none, some, List, [], ◌∷◌, ◌++◌, arith, ltb, length, length-append, drop,
}
use nullgate.Common.Bytes.{
  to_be_bytes, from_be_bytes, from_be_bytes-to_be_bytes, length-to_be_bytes,
}
use nullgate.Common.Results.{ok}
use mathlib.Core.List.{append_assoc}
use nullgate.Ipc.{
  Wire, Frame, Cbor, take, read_exact, write_frame, read_body, read_after, read_frame,
}

take-append : (s t : List ℕ) → take (length s) (s ++ t) ≡ s
take-append [] t = refl
take-append (b ∷ s) t = ap (◌∷◌ b) (take-append s t)

drop-append : (s t : List ℕ) → drop (length s) (s ++ t) ≡ t
drop-append [] t = refl
drop-append (b ∷ s) t = drop-append s t

length-drop : (n : ℕ) (s : List ℕ) → length (drop n s) ≤ length s
length-drop zero s = omega arith
length-drop (suc n) [] = omega arith
length-drop (suc n) (b ∷ s) = omega (arith, length-drop n s)

length-drop-lt : (s : List ℕ) → 4 ≤ length s → length (drop 4 s) < length s
length-drop-lt [] h = omega (arith, h)
length-drop-lt (b ∷ s) h = omega (arith, length-drop 3 s)

read_exact_own : (s t : List ℕ) → read_exact (length s) (s ++ t) ≡ some (s, t)
unfolding read_exact
read_exact_own s t =
    let enough : ltb (length (s ++ t)) (length s) ≡ false = ground (arith, length-append s t) in
    rw (enough, take-append s t, drop-append s t) refl

read_exact-append : (n : ℕ) (s t : List ℕ) → length s ≡ n → read_exact n (s ++ t) ≡ some (s, t)
read_exact-append n s t e = subst (λ k. read_exact k (s ++ t) ≡ some (s, t)) e (read_exact_own s t)

module _ {w : Wire} (c : Cbor w) where
  -- A frame that CBOR reads back, in fewer than 2^32 bytes.
  pub record Fits (f : Frame w) : Type 0 where
    pub short : length (c.encode f) < 2 ^ 32
    pub back : c.decode (c.encode f) ≡ some f

  read_frame-header :
      (header bytes rest : List ℕ) {f : Frame w}
      → length header ≡ 4
      → length bytes ≡ from_be_bytes header
      → c.decode bytes ≡ some f
      → read_frame c ((header ++ bytes) ++ rest) ≡ ok (some (f, rest))
  unfolding read_frame read_after read_body
  read_frame-header header bytes rest four long back =
      rw
        (
          append_assoc header bytes rest,
          read_exact-append 4 header (bytes ++ rest) four,
          read_exact-append (from_be_bytes header) bytes rest long,
          back,
        )
        refl

  -- A frame that was written is what is read next, and the rest of the stream is left.
  pub read_frame-write_frame :
      (f : Frame w) (rest : List ℕ)
      → Fits f
      → read_frame c (write_frame c f [] ++ rest) ≡ ok (some (f, rest))
  unfolding write_frame
  read_frame-write_frame f rest h =
      let small : length (c.encode f) % 2 ^ 32 ≡ length (c.encode f) = omega (arith, h.short) in
      read_frame-header (to_be_bytes 4 (length (c.encode f) % 2 ^ 32)) (c.encode f) rest
        (length-to_be_bytes 4 (length (c.encode f) % 2 ^ 32))
        (sym (from_be_bytes-to_be_bytes 4 (length (c.encode f) % 2 ^ 32) (omega arith) ∙ small))
        h.back

  unfoldable pub stream_of : List (Frame w) → List ℕ
  stream_of [] = []
  stream_of (f ∷ fs) = write_frame c f [] ++ stream_of fs

  abbrev pub AllFit : List (Frame w) → Type 0
  AllFit [] = Unit
  AllFit (f ∷ fs) = Fits f × AllFit fs

  pub length-write_frame : (f : Frame w) → 4 ≤ length (write_frame c f [])
  unfolding write_frame
  length-write_frame f = omega arith

  -- The end of a stream within a length, or before it, is no frame.
  pub read_frame-nil : read_frame c [] ≡ ok none
  unfolding read_frame read_exact read_after
  read_frame-nil = refl

  read_body-shorter :
      (len : ℕ) (s rest : List ℕ) (f : Frame w)
      → read_body c len s ≡ ok (some (f, rest))
      → length rest ≤ length s
  unfolding read_body read_exact
  read_body-shorter len s rest f h = ground (arith, length-drop len s)

  pub read_frame-shorter :
      (s rest : List ℕ) (f : Frame w)
      → read_frame c s ≡ ok (some (f, rest))
      → length rest < length s
  unfolding read_frame read_exact read_after
  read_frame-shorter s rest f h = elim (Bool-cases (ltb (length s) 4)) [
    | inl few ↦ absurd (ground (arith, few, h))
    | inr more ↦ ground (
      arith,
      more,
      h,
      length-drop 4 s,
      read_body-shorter (from_be_bytes (take 4 s)) (drop 4 s) rest f,
      length-drop-lt s,
    )
  ]
