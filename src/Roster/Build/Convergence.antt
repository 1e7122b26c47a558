-- ===== src/Roster/Build/Convergence.antt =====
-- Replicas that hold the same entries build the same roster (roster.rs: `Roster::build`).
use nullgate.Common.{
  ℕ, ◌≡◌, ◌≢◌, ◌↔◌, ◌⊎◌, ◌∙◌, sym, ap, subst, true, none, some, List, [], ◌∷◌, arith, ◌==◌,
  if◌then◌else◌, In, inl, inr, Option-cases, Bool-cases,
}
use nullgate.Common.Maps.{
  Map, lookup, insert, lookup-insert, IsSorted, insert-IsSorted, IsSorted-ext,
}
use nullgate.Roster.{Entry, Config}
use nullgate.Roster.Signing.{Crypto, content_id}
use nullgate.Roster.Build.{authentic, collect, ordered, build}

-- The content ids of the entries tell them apart: CBOR and blake3 have no collision among them.
abbrev pub NoCollision : Crypto → List Entry → Type 0
NoCollision c es = (e f : Entry) → In e es → In f es → content_id c e ≡ content_id c f → e ≡ f

module _ (c : Crypto) (cfg : Config) (now : ℕ) where
  collect-IsSorted :
      (es : List Entry) (m : Map Entry) → IsSorted m → IsSorted (collect c cfg now es m)
  unfolding collect
  collect-IsSorted [] m s = s
  collect-IsSorted (e ∷ es) m s = elim (Bool-cases (authentic c cfg now e)) [
    | inl good ↦ rw good (collect-IsSorted es _ (insert-IsSorted (content_id c e) e m s))
    | inr bad ↦ rw bad (collect-IsSorted es m s)
  ]

  -- What the map holds under a key, if it is not of `m`.
  abbrev Source : List Entry → ℕ → Entry → Type 0
  Source es k e = In e es × (authentic c cfg now e ≡ true) × (content_id c e ≡ k)

  abbrev added : Entry → Map Entry → Map Entry
  added x m = if authentic c cfg now x then insert (content_id c x) x m else m

  added_sound :
      (x : Entry) (es : List Entry) (m : Map Entry) (k : ℕ) (e : Entry)
      → lookup k (added x m) ≡ some e
      → (lookup k m ≡ some e) ⊎ Source (x ∷ es) k e
  added_sound x es m k e h = elim (Bool-cases (authentic c cfg now x)) [
    | inr bad ↦ inl (rw bad at h)
    | inl good ↦ elim (Bool-cases (content_id c x == k)) [
      | inl hit ↦
          let same : x ≡ e = ground (arith, lookup-insert (content_id c x) k x m) in
          inr (inl same, subst (λ y. authentic c cfg now y ≡ true) same good, ground arith)
      | inr miss ↦ inl (ground (arith, lookup-insert (content_id c x) k x m))
    ]
  ]

  added_keeps :
      (x : Entry) (m : Map Entry) (k : ℕ) → lookup k m ≢ none → lookup k (added x m) ≢ none
  added_keeps x m k h = ground (arith, lookup-insert (content_id c x) k x m)

  collect_sound :
      (es : List Entry) (m : Map Entry) (k : ℕ) (e : Entry)
      → lookup k (collect c cfg now es m) ≡ some e
      → (lookup k m ≡ some e) ⊎ Source es k e
  unfolding collect
  collect_sound [] m k e h = inl h
  collect_sound (x ∷ es) m k e h = elim (collect_sound es (added x m) k e h) [
    | inl old ↦ added_sound x es m k e old
    | inr (i, a, r) ↦ inr (inr i, a, r)
  ]

  collect_keeps :
      (es : List Entry) (m : Map Entry) (k : ℕ)
      → lookup k m ≢ none
      → lookup k (collect c cfg now es m) ≢ none
  unfolding collect
  collect_keeps [] m k h = h
  collect_keeps (x ∷ es) m k h = collect_keeps es (added x m) k (added_keeps x m k h)

  collect_complete :
      (es : List Entry) (m : Map Entry) (e : Entry)
      → In e es
      → authentic c cfg now e ≡ true
      → lookup (content_id c e) (collect c cfg now es m) ≢ none
  unfolding collect
  collect_complete [] m e i a = absurd i
  collect_complete (x ∷ es) m e (inr i) a = collect_complete es (added x m) e i a
  collect_complete (x ∷ es) m e (inl same) a =
      collect_keeps es (added x m) (content_id c e)
        (rw (same, a) (ground (arith, lookup-insert (content_id c e) (content_id c e) e m)))

  -- Two lists with the same entries, and no collision among these, fill the same map.
  module _ (es fs : List Entry) (apart : NoCollision c es) where
    collect-included :
        ((e : Entry) → In e es ↔ In e fs)
        → (k : ℕ) (e : Entry) → lookup k (collect c cfg now es []) ≡ some e
        → lookup k (collect c cfg now fs []) ≡ some e
    unfolding lookup
    collect-included same k e h = elim (collect_sound es [] k e h) [
      | inl nothing ↦ absurd (cc)
      | inr (i, a, r) ↦ elim (Option-cases (lookup k (collect c cfg now fs []))) [
        | inl miss ↦ absurd (
            collect_complete fs [] e ((same e).0 i) a
              (ap (λ j. lookup j (collect c cfg now fs [])) r ∙ miss))
        | inr (f, hit) ↦ elim (collect_sound fs [] k f hit) [
          | inl nothing ↦ absurd (cc)
          | inr (j, b, q) ↦ hit ∙ ap some (apart f e ((same f).1 j) i (q ∙ sym r))
        ]
      ]
    ]

  collect_same :
      (es fs : List Entry)
      → NoCollision c es
      → ((e : Entry) → In e es ↔ In e fs)
      → collect c cfg now es [] ≡ collect c cfg now fs []
  collect_same es fs apart same =
      IsSorted-ext (collect c cfg now es []) (collect c cfg now fs []) (collect-IsSorted es [] tt)
        (collect-IsSorted fs [] tt) agree
    where
      back : NoCollision c fs
      back e f i j = apart e f ((same e).1 i) ((same f).1 j)

      agree : (k : ℕ) → lookup k (collect c cfg now es []) ≡ lookup k (collect c cfg now fs [])
      agree k = elim (Option-cases (lookup k (collect c cfg now es []))) [
        | inr (e, h) ↦ h ∙ sym (collect-included es fs apart same k e h)
        | inl none_here ↦ elim (Option-cases (lookup k (collect c cfg now fs []))) [
          | inl none_there ↦ none_here ∙ sym none_there
          | inr (f, h) ↦
              absurd
                (ground (arith, collect-included fs es back (λ e. ((same e).1, (same e).0)) k f h))
        ]
      ]

  -- Two replicas whose documents hold the same entries, in any order and as often as they
  -- like, build the same roster at the same time, if no two of the entries share a content id.
  pub build_convergence :
      (es fs : List Entry)
      → NoCollision c es
      → ((e : Entry) → In e es ↔ In e fs)
      → build c cfg now es ≡ build c cfg now fs
  unfolding build ordered
  build_convergence es fs apart same = rw (collect_same es fs apart same)
