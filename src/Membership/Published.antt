-- ===== src/Membership/Published.antt =====
-- The entries that this device publishes are there when it reads its replica
-- (crates/ipn-core/src/membership.rs).
use nullgate.Common.{
  ℕ, ◌^◌, ◌≤◌, ◌<◌, ◌≡◌, ◌≢◌, refl, ap, sym, ◌∙◌, true, false, inl, inr, Option, some, List, [],
  ◌∷◌, ◌++◌, arith, ==_refl, length, Bool-cases,
}
use nullgate.Common.Bytes.{
  bytes_eq, bytes_eq_iff, to_be_bytes, from_be_bytes, from_be_bytes-to_be_bytes,
}
use nullgate.Roster.{Entry}
use nullgate.Roster.Signing.{Crypto, content_id}
use nullgate.Membership.{
  DocEntry, blob, parsed, considered, load_from, load_entries, set_bytes, starts_with,
  publish_entry, entry_bytes, key_prefix, same_place, max_entry_bytes,
}

-- CBOR reads the entry back, in at most 4096 bytes, and its content id has 32 bytes.
pub record Stored (c : Crypto) (parse : List ℕ → Option Entry) (e : Entry) : Type 0 where
  pub back : parse (entry_bytes c e) ≡ some e
  pub short : length (entry_bytes c e) ≤ max_entry_bytes
  pub id_fits : content_id c e < 256 ^ 32

-- An entry of the document that is counted and read as `e`.
record Reads (parse : List ℕ → Option Entry) (d : DocEntry) (e : Entry) : Type 0 where
  counted : considered d ≡ true
  read_as : parsed parse (blob d) ≡ some e

load_entries-pair :
    (parse : List ℕ → Option Entry) (d g : DocEntry) {a b : Entry}
    → Reads parse d a
    → Reads parse g b
    → same_place d g ≡ false
    → load_entries parse (set_bytes g (set_bytes d [])) ≡ a ∷ b ∷ []
unfolding set_bytes load_entries load_from
load_entries-pair parse d g rd rg apart =
    rw apart (simp (rd.counted, rg.counted, rd.read_as, rg.read_as) refl)

module _ (c : Crypto) (author : ℕ) where
  abbrev placed : Entry → DocEntry
  placed e = record {
    author = author;
    key = key_prefix ++ to_be_bytes 32 (content_id c e);
    content = entry_bytes c e;
    is_local = true;
  }

  keys-differ :
      (k j : ℕ)
      → k < 256 ^ 32
      → j < 256 ^ 32
      → k ≢ j
      → bytes_eq (to_be_bytes 32 k) (to_be_bytes 32 j) ≡ false
  keys-differ k j hk hj ne = elim (Bool-cases (bytes_eq (to_be_bytes 32 k) (to_be_bytes 32 j))) [
    | inl e ↦ absurd (
        ne (
          sym (from_be_bytes-to_be_bytes 32 k hk)
          ∙ ap from_be_bytes ((bytes_eq_iff (to_be_bytes 32 k) (to_be_bytes 32 j)).0 e)
          ∙ from_be_bytes-to_be_bytes 32 j hj))
    | inr e ↦ e
  ]

  considered-placed :
      (e : Entry) → length (entry_bytes c e) ≤ max_entry_bytes → considered (placed e) ≡ true
  unfolding considered starts_with
  considered-placed e h = ground arith

  placed-Reads :
      (parse : List ℕ → Option Entry) (e : Entry) → Stored c parse e → Reads parse (placed e) e
  unfolding parsed
  placed-Reads parse e h = record { counted = considered-placed e h.short; read_as = h.back }

  apart :
      (a b : Entry)
      → content_id c a < 256 ^ 32
      → content_id c b < 256 ^ 32
      → content_id c a ≢ content_id c b
      → same_place (placed a) (placed b) ≡ false
  apart a b ha hb ne = rw (==_refl author) (keys-differ (content_id c a) (content_id c b) ha hb ne)

  pub load_entries-published :
      (parse : List ℕ → Option Entry) (a b : Entry)
      → Stored c parse a
      → Stored c parse b
      → content_id c a ≢ content_id c b
      → load_entries parse (publish_entry c author b (publish_entry c author a [])) ≡ a ∷ b ∷ []
  unfolding publish_entry
  load_entries-published parse a b ha hb ne =
      load_entries-pair parse (placed a) (placed b) (placed-Reads parse a ha)
        (placed-Reads parse b hb) (apart a b ha.id_fits hb.id_fits ne)
