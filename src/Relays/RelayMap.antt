-- ===== src/Relays/RelayMap.antt =====
-- The relay map that the settings ask for (relays.rs).
use nullgate.Common.{
  ◌≡◌, refl, ap, subst, ◌⊎◌, inl, inr, Bool, true, false, not, ◌&&◌, Option, none, some, List, [],
  ◌∷◌, ◌++◌, select, is_some_and, if◌then◌else◌, arith, Bool-cases, ◌↔◌,
}
use nullgate.Common.Bytes.{bytes_eq_iff}
use nullgate.Common.HashMap.{Key}
use mathlib.Core.Sum.{inr-injective}
use Prim.Native.String.{String}
use nullgate.Relays.{has_url}
use nullgate.Relays.Settings.{
  Token, RelayServer, RelayPolicy, RelaySettings, RelayConfig, is_bad, urls_of, configure,
  config_of, token_of, same_token, any_new_token, configs_from, relay_configs,
  token_change_needs_rebind, desired, desired_relay_configs,
}

abbrev pub is_present {ℓ} : {A : Type ℓ} → Option A → Bool
is_present none = false
is_present (some a) = true

abbrev pub or_else {ℓ} : {A : Type ℓ} → Option A → Option A → Option A
or_else none o = o
or_else (some a) o = some a

Sum-cases : {A B : Type 0} (r : A ⊎ B) → ((a : A) × (r ≡ inl a)) ⊎ ((b : B) × (r ≡ inr b))
Sum-cases (inl a) = inl (a, refl)
Sum-cases (inr b) = inr (b, refl)

module _ {Url : Type 0} ⦃same : Key Url⦄ where
  -- No URL twice, and every token can travel in a header.
  abbrev pub IsValid : List (RelayConfig Url) → Type 0
  IsValid [] = Unit {0}
  IsValid (c ∷ cs) =
      (has_url c.url (urls_of cs) ≡ false) × (is_bad c.auth_token ≡ false) × IsValid cs

  has_url-urls_of :
      (url : Url) (cs : List (RelayConfig Url))
      → has_url url (urls_of cs) ≡ is_present (config_of url cs)
  unfolding config_of
  has_url-urls_of url [] = refl
  has_url-urls_of url (c ∷ cs) = ground (arith, has_url-urls_of url cs)

  config_of-append :
      (url : Url) (xs ys : List (RelayConfig Url))
      → config_of url (xs ++ ys) ≡ or_else (config_of url xs) (config_of url ys)
  unfolding config_of
  config_of-append url [] ys = refl
  config_of-append url (c ∷ xs) ys = ground (arith, config_of-append url xs ys)

  -- The entries that are not in a list of URLs.
  config_of-select :
      (url : Url) (urls : List Url) (ds : List (RelayConfig Url))
      → config_of url (select (λ (d : RelayConfig Url). not (has_url d.url urls)) ds)
        ≡ (if has_url url urls then none else config_of url ds)
  unfolding config_of
  config_of-select url urls [] = ground arith
  config_of-select url urls (d ∷ ds) = elim (Bool-cases (same.beq d.url url)) [
    | inl e ↦
        let eq : d.url ≡ url = (same.beq_iff d.url url).0 e in
        ground (arith, config_of-select url urls ds)
    | inr ne ↦ ground (arith, config_of-select url urls ds)
  ]

  IsValid-append :
      (xs ys : List (RelayConfig Url))
      → IsValid xs
      → IsValid ys
      → ((u : Url) → has_url u (urls_of xs) ≡ true → has_url u (urls_of ys) ≡ false)
      → IsValid (xs ++ ys)
  IsValid-append [] ys v w apart = w
  IsValid-append (c ∷ xs) ys v w apart =
      let rest : IsValid (xs ++ ys) =
        IsValid-append xs ys v.2 w (λ u h. apart u (ground (arith, h))) in
      let new : has_url c.url (urls_of (xs ++ ys)) ≡ false = ground (
        arith,
        v.0,
        has_url-urls_of c.url xs,
        has_url-urls_of c.url ys,
        has_url-urls_of c.url (xs ++ ys),
        config_of-append c.url xs ys,
        apart c.url,
        same.beq_iff c.url c.url,
      ) in
      (new, v.1, rest)

  IsValid-select :
      (urls : List Url) (ds : List (RelayConfig Url))
      → IsValid ds
      → IsValid (select (λ (d : RelayConfig Url). not (has_url d.url urls)) ds)
  IsValid-select urls [] v = tt
  IsValid-select urls (d ∷ ds) v =
      let rest = IsValid-select urls ds v.2 in
      let kept : List (RelayConfig Url) =
        select (λ (d : RelayConfig Url). not (has_url d.url urls)) ds in
      let new : has_url d.url (urls_of kept) ≡ false = ground (
        arith,
        has_url-urls_of d.url kept,
        has_url-urls_of d.url ds,
        config_of-select d.url urls ds,
        v.0,
      ) in
      elim (Bool-cases (has_url d.url urls)) [
        | inl drop ↦ rw drop rest
        | inr keep ↦ rw keep (new, v.1, rest)
      ]

  configure_ok :
      (seen : List Url) (s : RelayServer) (o : Option Url) (c : RelayConfig Url)
      → configure seen s o ≡ inr c
      → (has_url c.url seen ≡ false) × (is_bad c.auth_token ≡ false)
  unfolding configure
  configure_ok seen s none c e = absurd (cc)
  configure_ok seen s (some url) c e = ground arith

  module _ (parse_url : String → Option Url) where
    configs_from-IsValid :
        (seen : List Url) (servers : List RelayServer) (cs : List (RelayConfig Url))
        → configs_from parse_url seen servers ≡ inr cs
        → IsValid cs × ((u : Url) → has_url u seen ≡ true → has_url u (urls_of cs) ≡ false)
    unfolding configs_from
    configs_from-IsValid seen [] cs e =
        subst
          (λ (x : List (RelayConfig Url)).
            IsValid x × ((u : Url) → has_url u seen ≡ true → has_url u (urls_of x) ≡ false))
          (inr-injective [] cs e) (tt, λ u h. refl)
    configs_from-IsValid seen (s ∷ more) cs e =
        elim (Sum-cases (configure seen s (parse_url s.url))) [
          | inl (err, c) ↦ absurd (let bad = rw (c, configs_from) at e in cc)
          | inr (c, ok) ↦ elim (Sum-cases (configs_from parse_url (c.url ∷ seen) more)) [
            | inl (err, r) ↦ absurd (let bad = rw (ok, configs_from, r) at e in cc)
            | inr (ds, r) ↦
                let here = configure_ok seen s (parse_url s.url) c ok in
                let rest = configs_from-IsValid (c.url ∷ seen) more ds r in
                let same_cs : c ∷ ds ≡ cs =
                  inr-injective (c ∷ ds) cs (rw (ok, configs_from, r) at e) in
                subst
                  (λ (x : List (RelayConfig Url)).
                    IsValid x × ((u : Url) → has_url u seen ≡ true → has_url u (urls_of x) ≡ false))
                  same_cs
                  (
                    (rest.1 c.url (ground (arith, same.beq_iff c.url c.url)), here.1, rest.0),
                    λ u h. ground (arith, same.beq_iff c.url u, rest.1 u, here.0, h),
                  )
          ]
        ]

    -- Whether the public relays stay in the map.
    abbrev pub keeps_defaults : RelayPolicy → List (RelayConfig Url) → Bool
    keeps_defaults RelayPolicy.preferred custom = true
    keeps_defaults RelayPolicy.only [] = true
    keeps_defaults RelayPolicy.only (c ∷ cs) = false

    module _ (defaults : List (RelayConfig Url)) where
      desired_lem :
          (mode : RelayPolicy) (custom : List (RelayConfig Url))
          → IsValid custom
          → IsValid defaults
          → IsValid (desired parse_url defaults mode custom)
            × ((u : Url)
                → config_of u (desired parse_url defaults mode custom)
                  ≡ or_else
                      (config_of u custom)
                      (if keeps_defaults mode custom then config_of u defaults else none))
      unfolding desired config_of
      desired_lem RelayPolicy.preferred [] v w = (w, λ u. refl)
      desired_lem RelayPolicy.only [] v w = (w, λ u. refl)
      desired_lem RelayPolicy.only (c ∷ cs) v w = (v, λ u. ground arith)
      desired_lem RelayPolicy.preferred (c ∷ cs) v w =
          let urls : List Url = urls_of (c ∷ cs) in
          let others : List (RelayConfig Url) =
            select (λ (d : RelayConfig Url). not (has_url d.url urls)) defaults in
          (
            IsValid-append (c ∷ cs) others v (IsValid-select urls defaults w) (λ u h.
                ground (arith, h, has_url-urls_of u others, config_of-select u urls defaults)),
            λ u. ground (
              arith,
              config_of-append u (c ∷ cs) others,
              config_of-select u urls defaults,
              has_url-urls_of u (c ∷ cs),
            ),
          )

      -- The relay map has no URL twice and no token that cannot travel in a header, if the public
      -- relays are such a list. For each URL it has the configuration of the settings, token
      -- included, or else, if no server is set or the policy keeps them, that of the public relays.
      pub desired_relay_configs_lem :
          (s : RelaySettings) (cs : List (RelayConfig Url))
          → IsValid defaults
          → desired_relay_configs parse_url defaults s ≡ inr cs
          → IsValid cs
            × (custom : List (RelayConfig Url)) × (relay_configs parse_url s ≡ inr custom)
            × ((u : Url)
                → config_of u cs
                  ≡ or_else
                      (config_of u custom)
                      (if keeps_defaults s.mode custom then config_of u defaults else none))
      unfolding desired_relay_configs relay_configs
      desired_relay_configs_lem s cs w e = elim (Sum-cases (relay_configs parse_url s)) [
        | inl (err, c) ↦ absurd (let bad = rw (c, desired_relay_configs) at e in cc)
        | inr (custom, ok) ↦
            let valid = (configs_from-IsValid [] s.servers custom ok).0 in
            let facts = desired_lem s.mode custom valid w in
            let here : desired parse_url defaults s.mode custom ≡ cs =
              inr-injective (desired parse_url defaults s.mode custom) cs
                (rw (ok, desired_relay_configs) at e) in
            subst
              (λ (x : List (RelayConfig Url)).
                IsValid x
                × (custom' : List (RelayConfig Url)) × (relay_configs parse_url s ≡ inr custom')
                × ((u : Url)
                    → config_of u x
                      ≡ or_else (config_of u custom')
                          (if keeps_defaults s.mode custom' then config_of u defaults else none)))
              here (facts.0, custom, ok, facts.1)
      ]

same_token_iff :
    (token : Option Token) (o : Option (Option Token))
    → ((is_some_and token (λ t. true) && not (same_token token o)) ≡ false)
      ↔ ((t : Token) → token ≡ some t → o ≡ some (some t))
same_token_iff none o = ((λ e t h. absurd (cc)), λ h. refl)
same_token_iff (some t) none = ((λ e x h. absurd (cc)), λ h. absurd (let bad = h t refl in cc))
same_token_iff (some t) (some none) =
    ((λ e x h. absurd (cc)), λ h. absurd (let bad = h t refl in cc))
same_token_iff (some t) (some (some old)) = (
  (λ e x h. ground (arith, h, bytes_eq_iff old t)),
  λ h. ground (arith, h t refl, bytes_eq_iff old t),
)

module _ {Url : Type 0} ⦃same : Key Url⦄ where
  any_new_token_iff :
      (old cs : List (RelayConfig Url))
      → IsValid cs
      → (any_new_token old cs ≡ false) ↔ (
          (u : Url) (t : Token)
          → token_of (config_of u cs) ≡ some (some t)
          → token_of (config_of u old) ≡ some (some t))
  unfolding any_new_token config_of
  any_new_token_iff old [] v = ((λ e u t h. absurd (cc)), λ h. refl)
  any_new_token_iff old (c ∷ cs) v =
      let head = same_token_iff c.auth_token (token_of (config_of c.url old)) in
      let tail = any_new_token_iff old cs v.2 in
      let own : same.beq c.url c.url ≡ true = (same.beq_iff c.url c.url).1 refl in
      (
        (λ e u t h. elim (Bool-cases (same.beq c.url u)) [
          | inl eq ↦
              let here : c.url ≡ u = (same.beq_iff c.url u).0 eq in
              subst (λ (x : Url). token_of (config_of x old) ≡ some (some t)) here
                (head.0 (ground arith) t (ground (arith, eq, h)))
          | inr ne ↦ tail.0 (ground arith) u t (rw ne at h)
        ]),
        λ h.
            let first = head.1 (λ t e. h c.url t (rw own (ap some e))) in
            let rest = tail.1 (λ u t g.
              let ne : same.beq c.url u ≡ false =
                ground (arith, g, v.0, has_url-urls_of u cs, same.beq_iff c.url u) in
              h u t (rw ne g)) in
            ground (arith, first, rest),
      )

  module _ (parse_url : String → Option Url) where
    relay_configs-IsValid :
        (s : RelaySettings) (cs : List (RelayConfig Url))
        → relay_configs parse_url s ≡ inr cs
        → IsValid cs
    unfolding relay_configs
    relay_configs-IsValid s cs e = (configs_from-IsValid parse_url [] s.servers cs e).0

    -- A change of settings that are both in order needs no rebind exactly when every token of the
    -- new settings was there for its URL in the old ones.
    pub token_change_needs_rebind_lem :
        (old new : RelaySettings) (old_configs new_configs : List (RelayConfig Url))
        → relay_configs parse_url old ≡ inr old_configs
        → relay_configs parse_url new ≡ inr new_configs
        → (token_change_needs_rebind parse_url old new ≡ false) ↔ (
            (u : Url) (t : Token)
            → token_of (config_of u new_configs) ≡ some (some t)
            → token_of (config_of u old_configs) ≡ some (some t))
    unfolding token_change_needs_rebind
    token_change_needs_rebind_lem old new old_configs new_configs p q =
        rw (p, q, token_change_needs_rebind)
          (any_new_token_iff old_configs new_configs (relay_configs-IsValid new new_configs q))
