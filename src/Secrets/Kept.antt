-- ===== src/Secrets/Kept.antt =====
-- A stored secret is read again, or its absence is an error (crates/ipn-core/src/secrets.rs).
use nullgate.Common.{
  ℕ, ◌^◌, ◌<◌, ◌≡◌, ◌≢◌, ◌↔◌, refl, ap, Bool-cases, ◌∙◌, ◌⊎◌, inl, inr, true, false, not, ◌&&◌,
  none, some, List, arith, length, if◌then◌else◌,
}
use nullgate.Common.Bytes.{
  to_be_bytes, from_be_bytes, IsBytes, from_be_bytes-to_be_bytes, length-to_be_bytes,
  to_be_bytes-IsBytes,
}
use nullgate.Common.HashMap.{Key, get, get-put, get-put_self, get-delete_self, get-delete}
use nullgate.Common.Results.{ok}
use nullgate.Common.Text.{Text, trim}
use nullgate.Roster.Addresses.Place.{is_some}
use nullgate.Secrets.{
  Hex, HexLaws, Platform, Os, Secrets, parse_hex, remove_marker, remove_file, write_marker,
  write_secret_file, uses_keystore, store_text, store, load_keystore, load_file, load,
  delete_secret,
}

parse_hex-bytes :
    (hex : Hex) (laws : HexLaws hex) (bs : List ℕ)
    → IsBytes bs
    → length bs ≡ 32
    → parse_hex hex (hex.encode bs) ≡ ok (from_be_bytes bs)
unfolding parse_hex
parse_hex-bytes hex laws bs h n = rw (laws.decode-encode bs h, n) refl

pub parse_hex-encode :
    (hex : Hex) (laws : HexLaws hex) (secret : ℕ)
    → secret < 256 ^ 32
    → parse_hex hex (hex.encode (to_be_bytes 32 secret)) ≡ ok secret
parse_hex-encode hex laws secret small =
    parse_hex-bytes hex laws (to_be_bytes 32 secret) (to_be_bytes-IsBytes 32 secret)
      (length-to_be_bytes 32 secret)
    ∙ ap ok (from_be_bytes-to_be_bytes 32 secret small)

-- The files can be removed and the marker is written.
pub record Durable (os : Os) : Type 0 where
  pub removes : os.removes ≡ true
  pub marks : os.marks ≡ true

-- The marker can be looked up, and the keystore and the files can be read.
pub record Readable (os : Os) : Type 0 where
  pub stats : os.stats ≡ true
  pub opens : os.opens ≡ true
  pub answers : os.answers ≡ true
  pub reads : os.reads ≡ true

load_keystore-ne-none :
    (hex : Hex) (os : Os) (text : Text) → load_keystore hex os (some text) ≢ ok none
unfolding load_keystore
load_keystore-ne-none hex os text = ground arith

load_file-ne-none : (hex : Hex) (os : Os) (text : Text) → load_file hex os (some text) ≢ ok none
unfolding load_file
load_file-ne-none hex os text = ground arith

module _ {Name : Type 0} ⦃same : Key Name⦄ where
  -- Where a secret stands after `store`: in the keystore with a marker, or in its file without one.
  abbrev Placed : Platform → Name → Text → Secrets Name → Type 0
  Placed p name text s =
      ((not p.android && is_some (get name s.markers)) ≡ true × (get name s.keystore ≡ some text))
      ⊎ ((not p.android && is_some (get name s.markers)) ≡ false × (get name s.files ≡ some text))

  -- A store into the keystore writes the marker.
  store_text-Placed :
      (p : Platform) (os : Os) (name : Name) (text : Text) (s : Secrets Name)
      → os.removes ≡ true
      → uses_keystore p os && not os.marks ≡ false
      → (store_text p os name text s).1 ≡ ok tt
      → Placed p name text (store_text p os name text s).0
  unfolding store_text uses_keystore remove_marker remove_file write_marker write_secret_file
  store_text-Placed p os name text s r m e = ground (
    arith,
    r,
    m,
    get-put_self name text s.keystore,
    get-put_self name tt s.markers,
    get-put_self name text s.files,
    get-delete_self name s.markers,
  )

  load-Readable :
      (hex : Hex) (p : Platform) (os : Os) (name : Name) (text : Text) (s : Secrets Name)
      {secret : ℕ}
      → trim text ≡ text
      → parse_hex hex text ≡ ok secret
      → Readable os
      → Placed p name text s
      → load hex p os name s ≡ ok (some secret)
  unfolding load load_keystore load_file
  load-Readable hex p os name text s t e r (inl (where_is, at)) =
      simp (where_is, r.stats, at, r.opens, r.answers, e) refl
  load-Readable hex p os name text s t e r (inr (where_is, at)) =
      simp (where_is, at, r.reads, t, e) refl

  load-ne-none :
      (hex : Hex) (p : Platform) (os : Os) (name : Name) (text : Text) (s : Secrets Name)
      → os.stats ≡ true
      → Placed p name text s
      → load hex p os name s ≢ ok none
  unfolding load
  load-ne-none hex p os name text s t (inl (where_is, at)) =
      simp (where_is, t, at) (load_keystore-ne-none hex os text)
  load-ne-none hex p os name text s t (inr (where_is, at)) =
      simp (where_is, at) (load_file-ne-none hex os text)

  module _ (hex : Hex) (p : Platform) (os : Os) (name : Name) (secret : ℕ) (s : Secrets Name) where
    marked : Durable os → uses_keystore p os && not os.marks ≡ false
    marked d = ground (arith, d.marks)

    -- A secret of 32 bytes that `store` reported as stored, in a call that could write the marker
    -- and remove files, is what `load` returns whenever the keystore and the files can be read.
    pub load-store :
        HexLaws hex
        → secret < 256 ^ 32
        → Durable os
        → (store hex p os name secret s).1 ≡ ok tt
        → (later : Os) → Readable later
        → load hex p later name (store hex p os name secret s).0 ≡ ok (some secret)
    unfolding store
    load-store laws small d e later r =
        let text = hex.encode (to_be_bytes 32 secret) in
        load-Readable hex p later name text (store_text p os name text s).0
          (laws.trim-encode (to_be_bytes 32 secret)) (parse_hex-encode hex laws secret small) r
          (store_text-Placed p os name text s d.removes (marked d) e)

    never_lost :
        os.removes ≡ true
        → uses_keystore p os && not os.marks ≡ false
        → (store hex p os name secret s).1 ≡ ok tt
        → (later : Os) → later.stats ≡ true
        → load hex p later name (store hex p os name secret s).0 ≢ ok none
    unfolding store
    never_lost r m e later t =
        let text = hex.encode (to_be_bytes 32 secret) in
        load-ne-none hex p later name text (store_text p os name text s).0 t
          (store_text-Placed p os name text s r m e)

    -- When `store` reported success, in a call that could remove files and write the marker, `load`
    -- never reports that the secret was never stored, whatever else the operating system does
    -- later, if it can tell whether the marker is there: `load` returns a secret or it is an error.
    pub load-store-ne-none :
        Durable os
        → (store hex p os name secret s).1 ≡ ok tt
        → (later : Os) → later.stats ≡ true
        → load hex p later name (store hex p os name secret s).0 ≢ ok none
    load-store-ne-none d e later t = never_lost d.removes (marked d) e later t

    lost :
        uses_keystore p os ≡ true
        → os.marks ≡ false
        → os.removes ≡ true
        → get name s.markers ≡ none
        → (later : Os) → load hex p later name (store hex p os name secret s).0 ≡ ok none
    unfolding store store_text remove_file write_marker load load_file
    lost u m r n later = rw (u, m, r) (ground (arith, n, get-delete_self name s.files))

    -- When `store` reported success for a name that had no marker, in a call that could remove
    -- files, the secret is lost exactly if the keystore took it and the marker could not be
    -- written: `load` then reports, whatever the operating system does later, that it was never
    -- stored.
    pub store_without_marker :
        os.removes ≡ true
        → get name s.markers ≡ none
        → (store hex p os name secret s).1 ≡ ok tt
        → ((later : Os) → load hex p later name (store hex p os name secret s).0 ≡ ok none)
          ↔ ((uses_keystore p os ≡ true) × (os.marks ≡ false))
    store_without_marker r n e = (
      λ gone. elim (Bool-cases (uses_keystore p os && not os.marks)) [
        | inl both ↦ ground (arith, both)
        | inr marked_or_file ↦ absurd (
            never_lost r marked_or_file e (record os { stats = true }) refl
              (gone (record os { stats = true })))
      ],
      λ (u, m). lost u m r n,
    )

    -- After `delete`, in a call that could remove files, `load` reports that the secret was never
    -- stored, and what it reports of any other name has not changed.
    pub load-delete :
        os.removes ≡ true
        → (later : Os) (other : Name)
        → load hex p later other (delete_secret p os name s)
          ≡ (if same.beq name other then ok none else load hex p later other s)
    unfolding delete_secret remove_marker remove_file load
    load-delete r later other = ground (
      arith,
      r,
      get-delete name other s.markers,
      get-delete name other s.files,
      get-delete name other s.keystore,
    )

  -- Storing one secret leaves every other as it was.
  pub load-store_other :
      (hex : Hex) (p : Platform) (os : Os) (name : Name) (secret : ℕ) (s : Secrets Name)
      (later : Os) (other : Name)
      → same.beq name other ≡ false
      → load hex p later other (store hex p os name secret s).0 ≡ load hex p later other s
  unfolding store store_text remove_marker remove_file write_marker write_secret_file load
  load-store_other hex p os name secret s later other ne = ground (
    arith,
    ne,
    get-put name other tt s.markers,
    get-delete name other s.markers,
    get-put name other (hex.encode (to_be_bytes 32 secret)) s.keystore,
    get-put name other (hex.encode (to_be_bytes 32 secret)) s.files,
    get-delete name other s.files,
  )
