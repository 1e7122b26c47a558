-- ===== src/Relays/Selection.antt =====
-- What the selector promises (relays.rs: `PreferMyRelaySelector::select`).
use nullgate.Common.{
  ℕ, ◌≡◌, ◌⊎◌, inl, inr, refl, sym, subst, ap, Bool, true, false, not, ◌&&◌, Option, none, some,
  List, [], ◌∷◌, arith, if◌then◌else◌, Bool-cases, In,
}
use nullgate.Common.HashMap.{Key}
use nullgate.Common.Integers.{add_nat, lez_trans, lez_total, lez-add_nat}
use nullgate.Relays.Paths.{
  PathKey, key_lt, should_switch, PathView, is_looped, path_key, Search, is_in_use, below_key,
  below_best, consider, search, decide, select, rtt_switching_min_ns,
}

-- A key that is not beaten by another, and the order that this is.
abbrev pub at_most : PathKey → PathKey → Bool
at_most a b = not (key_lt b a)

key_lt-at_most : (a b : PathKey) → key_lt a b ≡ true → at_most a b ≡ true
key_lt-at_most a b h = ground (arith, lez_total b.bias a.bias)

at_most_trans : (a b c : PathKey) → at_most a b ≡ true → at_most b c ≡ true → at_most a c ≡ true
at_most_trans a b c p q = ground (arith, lez_trans a.bias b.bias c.bias)

at_most_refl : (a : PathKey) → at_most a a ≡ true
at_most_refl a = ground (arith, lez_total a.bias a.bias)

-- A path that is no reason to switch still is none if it gets worse.
should_switch_mono :
    (cur best key : PathKey)
    → at_most best key ≡ true
    → should_switch cur best ≡ false
    → should_switch cur key ≡ false
unfolding should_switch
should_switch_mono cur best key le stay = ground (
  arith,
  lez-add_nat best.bias key.bias rtt_switching_min_ns,
  lez_trans (add_nat best.bias rtt_switching_min_ns) (add_nat key.bias rtt_switching_min_ns)
      cur.bias,
)

module _ {Url P : Type 0} ⦃same_url : Key Url⦄ ⦃same_path : Key P⦄ (look : P → PathView Url)
    (preferred : List Url) (subnet : ℕ) where
  -- The paths that the selector may choose from, with their keys, the last one first, before `seen`:
  -- those that do not run through the tunnel and have statistics.
  unfoldable pub candidates : List (P × Option ℕ) → List (P × PathKey) → List (P × PathKey)
  candidates [] seen = seen
  candidates ((path, none) ∷ more) seen = candidates more seen
  candidates ((path, some rtt) ∷ more) seen =
      candidates more (
        if is_looped look subnet path
        then seen
        else (path, path_key look preferred path rtt) ∷ seen)

  -- What the two variables of the loop hold.
  Best : List (P × PathKey) → Option (P × PathKey) → Type 0
  Best seen none = seen ≡ []
  Best seen (some b) = In b seen × ((q : P) (k : PathKey) → In (q, k) seen → at_most b.1 k ≡ true)

  InUse : Option P → List (P × PathKey) → Option PathKey → Type 0
  InUse current seen none =
      (q : P) (k : PathKey) → In (q, k) seen → is_in_use look current q ≡ false
  InUse current seen (some key) = (p : P) × In (p, key) seen × (is_in_use look current p ≡ true)

  in_use_some : (current : Option P) (p : P) → is_in_use look current p ≡ true → current ≡ some p
  in_use_some none p e = absurd (cc)
  in_use_some (some c) p e = ap some (sym ((same_path.beq_iff p c).0 e))

  -- The best of some candidates and one more.
  better-Best :
      (path : P) (key : PathKey) (seen : List (P × PathKey)) (o : Option (P × PathKey))
      → Best seen o
      → Best ((path, key) ∷ seen) (if below_best look key o then some (path, key) else o)
  unfolding Best
  better-Best path key seen none h = (
    inl refl,
    λ q k member. elim member [
      | inl e ↦ subst (λ (x : P × PathKey). at_most key x.1 ≡ true) e (at_most_refl key)
      | inr i ↦ absurd (subst (λ (xs : List (P × PathKey)). In (q, k) xs) h i)
    ],
  )
  better-Best path key seen (some (p, b)) h = elim (Bool-cases (key_lt key b)) [
    | inl lt ↦ rw lt (
      inl refl,
      λ q k member. elim member [
        | inl e ↦ subst (λ (x : P × PathKey). at_most key x.1 ≡ true) e (at_most_refl key)
        | inr i ↦ at_most_trans key b k (key_lt-at_most key b lt) (h.1 q k i)
      ],
    )
    | inr ge ↦ rw ge (
      inr h.0,
      λ q k member. elim member [
        | inl e ↦ subst (λ (x : P × PathKey). at_most b x.1 ≡ true) e (rw ge refl)
        | inr i ↦ h.1 q k i
      ],
    )
  ]

  -- The candidate that is in use, among some candidates and one more.
  updated-InUse :
      (current : Option P) (path : P) (key : PathKey) (seen : List (P × PathKey))
      (o : Option PathKey)
      → InUse current seen o
      → InUse current
          ((path, key) ∷ seen)
          (if is_in_use look current path && below_key look key o then some key else o)
  unfolding InUse
  updated-InUse current path key seen none h = elim (Bool-cases (is_in_use look current path)) [
    | inl used ↦ rw used (path, inl refl, used)
    | inr free ↦ rw free (λ q k member. elim member [
      | inl e ↦ subst (λ (x : P × PathKey). is_in_use look current x.0 ≡ false) e free
      | inr i ↦ h q k i
    ])
  ]
  updated-InUse current path key seen (some c) (p, member, used) =
      elim (Bool-cases (is_in_use look current path && key_lt key c)) [
        | inl new ↦ rw new (path, inl refl, ground arith)
        | inr keep ↦ rw keep (p, inr member, used)
      ]

  consider-Best :
      (current : Option P) (path : P) (key : PathKey) (seen : List (P × PathKey)) (s : Search look)
      → Best seen s.best
      → Best ((path, key) ∷ seen) (consider look current path key s).best
  unfolding consider Best
  consider-Best current path key seen s h = better-Best path key seen s.best h

  consider-InUse :
      (current : Option P) (path : P) (key : PathKey) (seen : List (P × PathKey)) (s : Search look)
      → InUse current seen s.current_key
      → InUse current ((path, key) ∷ seen) (consider look current path key s).current_key
  unfolding consider InUse
  consider-InUse current path key seen s h = updated-InUse current path key seen s.current_key h

  search-Found :
      (current : Option P) (paths : List (P × Option ℕ)) (seen : List (P × PathKey))
      (s : Search look)
      → Best seen s.best
      → InUse current seen s.current_key
      → Best (candidates paths seen) (search look preferred subnet current paths s).best
        × InUse current
            (candidates paths seen)
            (search look preferred subnet current paths s).current_key
  unfolding search candidates
  search-Found current [] seen s b u = (b, u)
  search-Found current ((path, none) ∷ more) seen s b u = search-Found current more seen s b u
  search-Found current ((path, some rtt) ∷ more) seen s b u =
      elim (Bool-cases (is_looped look subnet path)) [
        | inl looped ↦ rw (looped, search) (search-Found current more seen s b u)
        | inr free ↦
            let key : PathKey = path_key look preferred path rtt in
            rw (free, search)
              (search-Found current more ((path, key) ∷ seen) (consider look current path key s)
                (consider-Best current path key seen s b)
                (consider-InUse current path key seen s u))
      ]

  candidates-free :
      (paths : List (P × Option ℕ)) (seen : List (P × PathKey))
      → ((q : P) (k : PathKey) → In (q, k) seen → is_looped look subnet q ≡ false)
      → (q : P) (k : PathKey) → In (q, k) (candidates paths seen)
      → is_looped look subnet q ≡ false
  unfolding candidates
  candidates-free [] seen h q k i = h q k i
  candidates-free ((path, none) ∷ more) seen h q k i = candidates-free more seen h q k i
  candidates-free ((path, some rtt) ∷ more) seen h q k i =
      elim (Bool-cases (is_looped look subnet path)) [
        | inl looped ↦ candidates-free more seen h q k (rw looped at i)
        | inr free ↦
            candidates-free more ((path, path_key look preferred path rtt) ∷ seen)
              (λ q' k' member. elim member [
                | inl e ↦ subst (λ (x : P × PathKey). is_looped look subnet x.0 ≡ false) e free
                | inr j ↦ h q' k' j
              ])
              q k (rw free at i)
      ]

  -- What a choice promises: a path that is set is a candidate that no candidate beats, and if none
  -- is set, there is none, or the path in use is one that no candidate is good enough to replace.
  abbrev pub Chosen : Option P → List (P × PathKey) → Option P → Type 0
  Chosen current cands (some p) =
      (is_looped look subnet p ≡ false)
      × (key : PathKey) × In (p, key) cands
      × ((q : P) (k : PathKey) → In (q, k) cands → at_most key k ≡ true)
  Chosen current cands none =
      (cands ≡ [])
      ⊎ ((p : P) × (cur : PathKey) × (current ≡ some p)
          × In (p, cur) cands
          × ((q : P) (k : PathKey) → In (q, k) cands → should_switch cur k ≡ false))

  decided :
      (current : Option P) (cands : List (P × PathKey)) (b : Option (P × PathKey))
      (c : Option PathKey)
      → ((q : P) (k : PathKey) → In (q, k) cands → is_looped look subnet q ≡ false)
      → Best cands b
      → InUse current cands c
      → Chosen current cands (decide look b c)
  unfolding Best InUse
  decided current cands none c free b u = inl b
  decided current cands (some (p, key)) none free (member, least) u =
      (free p key member, key, member, least)
  decided current cands (some (p, key)) (some cur) free (member, least) (used, there, same) =
      elim (Bool-cases (should_switch cur key)) [
        | inl switch ↦ rw switch (free p key member, key, member, least)
        | inr stay ↦ rw stay (
            inr (
              used,
              cur,
              in_use_some current used same,
              there,
              λ q k i. should_switch_mono cur key k (least q k i) stay,
            ))
      ]

  -- Whatever the paths, the selector never sets one that runs through the tunnel. A path that it
  -- sets has statistics and a key that no other such path beats. If it sets none, there is no such
  -- path, or the one in use is one, and no other is of a better tier or faster by 5 ms in its tier.
  pub select-Chosen :
      (current : Option P) (paths : List (P × Option ℕ))
      → Chosen current (candidates paths []) (select look preferred subnet current paths)
  unfolding select Best InUse
  select-Chosen current paths =
      let start : Search look = record { best = none; current_key = none } in
      let found = search-Found current paths [] start refl (λ q k i. absurd i) in
      let s : Search look = search look preferred subnet current paths start in
      decided current (candidates paths []) s.best s.current_key
        (candidates-free paths [] (λ q k i. absurd i)) found.0 found.1

  -- A path in use that runs through the tunnel is left at once if there is any other choice.
  pub select_leaves_loop :
      (p : P) (paths : List (P × Option ℕ))
      → is_looped look subnet p ≡ true
      → select look preferred subnet (some p) paths ≡ none
      → candidates paths [] ≡ []
  select_leaves_loop p paths looped stays =
      let choice : Chosen (some p) (candidates paths []) none =
        subst (Chosen (some p) (candidates paths [])) stays (select-Chosen (some p) paths) in
      elim choice [
        | inl e ↦ e
        | inr (q, cur, e, member, _) ↦
            absurd (let free = candidates-free paths [] (λ x k i. absurd i) q cur member in cc)
      ]
