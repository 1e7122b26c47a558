-- ===== src/Membership.antt =====
-- The roster's replica (crates/ipn-core/src/membership.rs). A document of iroh-docs is the list of
-- its entries in the order of a query, one for each author and key; reading a signed entry from
-- CBOR is the parameter `parse`.
pub mod Limits
pub mod Published
use nullgate.Common.{
  ℕ, ◌+◌, Bool, true, false, not, ◌&&◌, ◌||◌, Option, none, some, List, [], ◌∷◌, ◌++◌, ltb, ◌==◌,
  length, if◌then◌else◌,
}
use nullgate.Common.Bytes.{bytes_eq, to_be_bytes}
use nullgate.Common.Text.{Text, codes}
use nullgate.Roster.{Entry, Config, Roster}
use nullgate.Roster.Signing.{Crypto, content_id}
use nullgate.Roster.Build.{build}

abbrev pub key_prefix : List ℕ
key_prefix = codes "e/"

abbrev pub max_entries : ℕ
max_entries = 50_000

abbrev pub max_entry_bytes : ℕ
max_entry_bytes = 4096

-- An entry of a document; its content may not have reached this device.
pub record DocEntry : Type 0 where
  pub author : ℕ
  pub key : List ℕ
  pub content : List ℕ
  pub is_local : Bool

abbrev pub Doc : Type 0
Doc = List DocEntry

abbrev pub same_place : DocEntry → DocEntry → Bool
same_place a b = a.author == b.author && bytes_eq a.key b.key

-- `Doc::set_bytes`: the newest entry of an author under a key replaces the one before.
unfoldable pub set_bytes : DocEntry → Doc → Doc
set_bytes e [] = e ∷ []
set_bytes e (f ∷ doc) = if same_place f e then e ∷ doc else f ∷ set_bytes e doc

unfoldable pub starts_with : List ℕ → List ℕ → Bool
starts_with [] key = true
starts_with (p ∷ ps) [] = false
starts_with (p ∷ ps) (k ∷ key) = k == p && starts_with ps key

abbrev pub blob : DocEntry → Option (List ℕ)
blob e = if e.is_local then some e.content else none

-- `from_reader` on the content, if it is there.
unfoldable pub parsed : (List ℕ → Option Entry) → Option (List ℕ) → Option Entry
parsed parse none = none
parsed parse (some bytes) = parse bytes

abbrev pub push : Option Entry → List Entry → List Entry
push none out = out
push (some e) out = e ∷ out

-- Whether the loop counts the entry.
unfoldable pub considered : DocEntry → Bool
unfolding starts_with
considered e = not (not (starts_with key_prefix e.key) || ltb max_entry_bytes (length e.content))

-- The loop, from the count `seen`.
unfoldable pub load_from : (List ℕ → Option Entry) → ℕ → Doc → List Entry
unfolding considered parsed
load_from parse seen [] = []
load_from parse seen (e ∷ doc) =
    let counts = considered e in
    let rest = load_from parse (if counts then seen + 1 else seen) doc in
    if counts
    then if ltb max_entries (seen + 1) then [] else push (parsed parse (blob e)) rest
    else rest

unfoldable pub load_entries : (List ℕ → Option Entry) → Doc → List Entry
unfolding load_from
load_entries parse doc = load_from parse 0 doc

module _ (c : Crypto) where
  abbrev pub entry_bytes : Entry → List ℕ
  entry_bytes e = c.entry_cbor e.network_id e.signer e.op e.signature

  unfoldable pub publish_entry : ℕ → Entry → Doc → Doc
  unfolding set_bytes content_id
  publish_entry author e doc =
      set_bytes
        (record {
          author = author;
          key = key_prefix ++ to_be_bytes 32 (content_id c e);
          content = entry_bytes e;
          is_local = true;
        })
        doc

  unfoldable pub build_roster : (List ℕ → Option Entry) → Config → ℕ → Doc → Roster
  unfolding load_entries build
  build_roster parse cfg now doc = build c cfg now (load_entries parse doc)
