-- ===== src/Membership/Limits.antt =====
-- What a replica can cost and what it delivers (crates/ipn-core/src/membership.rs).
use nullgate.Common.{
  ℕ, suc, ◌+◌, ◌-◌, ◌≤◌, ◌≡◌, refl, Option, none, some, List, [], ◌∷◌, arith, length, if◌then◌else◌,
  select,
}
use nullgate.Roster.{Entry}
use nullgate.Membership.{max_entries, Doc, blob, parsed, push, considered, load_from, load_entries}

length-push : (o : Option Entry) (out : List Entry) → length (push o out) ≤ suc (length out)
length-push none out = omega arith
length-push (some e) out = omega arith

length-load_from :
    (parse : List ℕ → Option Entry) (doc : Doc) (seen : ℕ)
    → length (load_from parse seen doc) ≤ max_entries - seen
unfolding load_from
length-load_from parse [] seen = omega arith
length-load_from parse (e ∷ doc) seen = ground (
  arith,
  length-load_from parse doc seen,
  length-load_from parse doc (seen + 1),
  length-push (parsed parse (blob e)) (load_from parse (seen + 1) doc),
)

-- The entries of the document that count, in its order, as far as they can be read.
abbrev pub readable : (List ℕ → Option Entry) → Doc → List Entry
readable parse [] = []
readable parse (e ∷ doc) =
    let rest = readable parse doc in
    if considered e then push (parsed parse (blob e)) rest else rest

load_from-small :
    (parse : List ℕ → Option Entry) (doc : Doc) (seen : ℕ)
    → seen + length (select considered doc) ≤ max_entries
    → load_from parse seen doc ≡ readable parse doc
unfolding load_from
load_from-small parse [] seen h = refl
load_from-small parse (e ∷ doc) seen h =
    ground (arith, load_from-small parse doc seen, load_from-small parse doc (seen + 1))

-- However many entries others have written into the document, no more than 50,000 are folded; and
-- when no more than 50,000 of them have the prefix and a content of at most 4096 bytes, these are
-- folded, each that is on this device and can be read, in the order of the document.
pub load_entries_limits :
    (parse : List ℕ → Option Entry) (doc : Doc)
    → (length (load_entries parse doc) ≤ max_entries)
      × (length (select considered doc) ≤ max_entries → load_entries parse doc ≡ readable parse doc)
unfolding load_entries
load_entries_limits parse doc =
    (length-load_from parse doc 0, λ h. load_from-small parse doc 0 (omega (arith, h)))
