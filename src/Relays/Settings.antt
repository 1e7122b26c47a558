-- ===== src/Relays/Settings.antt =====
-- The relay settings (relays.rs: `RelaySettings`, `token_change_needs_rebind`). Parsing of URLs is
-- iroh's, and is the parameter `parse_url`, as is its list `defaults` of public relays.
use nullgate.Common.{
  ℕ, ◌⊎◌, inl, inr, leb, Bool, true, false, not, ◌&&◌, ◌||◌, Option, none, some, List, [], ◌∷◌,
  ◌++◌, select, is_some_and, if◌then◌else◌,
}
use nullgate.Common.Bytes.{bytes_eq}
use nullgate.Common.HashMap.{Key}
use nullgate.Relays.{has_url}
use Prim.Native.String.{String}

-- A token is the list of its bytes.
abbrev pub Token : Type 0
Token = List ℕ

pub record RelayServer : Type 0 where
  pub url : String
  pub token : Option Token

pub data RelayPolicy : Type 0 where
  preferred only : RelayPolicy

pub record RelaySettings : Type 0 where
  pub servers : List RelayServer
  pub mode : RelayPolicy

abbrev pub is_custom : RelaySettings → Bool
is_custom s = elim s.servers [ [] ↦ false | ◌∷◌ _ _ ↦ true ]

pub data SettingsError : Type 0 where
  invalid_url duplicate_url bad_token : SettingsError

pub record RelayConfig (Url : Type 0) : Type 0 where
  pub url : Url
  pub auth_token : Option Token

abbrev pub all_printable : Token → Bool
all_printable [] = true
all_printable (b ∷ bs) = leb 33 b && leb b 126 && all_printable bs

-- The check that a token can travel in a header.
abbrev pub is_bad : Option Token → Bool
is_bad none = false
is_bad (some []) = true
is_bad (some (b ∷ bs)) = not (all_printable (b ∷ bs))

abbrev pub Configs : Type 0 → Type 0
Configs Url = SettingsError ⊎ List (RelayConfig Url)

-- `Option<String>: PartialEq`.
abbrev pub token_eq : Option Token → Option Token → Bool
token_eq none none = true
token_eq (some a) (some b) = bytes_eq a b
token_eq _ _ = false

-- Whether the old token of the URL, if it was configured, is the given one.
abbrev pub same_token : Option Token → Option (Option Token) → Bool
same_token token none = false
same_token token (some old) = token_eq old token

module _ {Url : Type 0} ⦃same : Key Url⦄ where
  abbrev pub urls_of : List (RelayConfig Url) → List Url
  urls_of [] = []
  urls_of (c ∷ cs) = c.url ∷ urls_of cs

  -- One round of the loop, with the parsed URL.
  unfoldable pub configure : List Url → RelayServer → Option Url → SettingsError ⊎ RelayConfig Url
  configure seen s none = inl SettingsError.invalid_url
  configure seen s (some url) =
      if has_url url seen
      then inl SettingsError.duplicate_url
      else if is_bad s.token
      then inl SettingsError.bad_token
      else inr (record { url = url; auth_token = s.token })

  abbrev pub cons : RelayConfig Url → Configs Url → Configs Url
  cons c (inl e) = inl e
  cons c (inr cs) = inr (c ∷ cs)

  abbrev pub or_none : Configs Url → List (RelayConfig Url)
  or_none (inl e) = []
  or_none (inr cs) = cs

  -- The configuration of a URL in a list, if it is there.
  unfoldable pub config_of : Url → List (RelayConfig Url) → Option (RelayConfig Url)
  config_of url [] = none
  config_of url (c ∷ cs) = if same.beq c.url url then some c else config_of url cs

  abbrev pub token_of : Option (RelayConfig Url) → Option (Option Token)
  token_of none = none
  token_of (some c) = some c.auth_token

  unfoldable pub any_new_token : List (RelayConfig Url) → List (RelayConfig Url) → Bool
  any_new_token old [] = false
  any_new_token old (c ∷ cs) =
      (is_some_and c.auth_token (λ t. true)
        && not (same_token c.auth_token (token_of (config_of c.url old))))
      || any_new_token old cs

  module _ (parse_url : String → Option Url) where
    unfoldable pub configs_from : List Url → List RelayServer → Configs Url
    configs_from seen [] = inr []
    configs_from seen (s ∷ more) = elim (configure seen s (parse_url s.url)) [
      | inl e ↦ inl e
      | inr c ↦ cons c (configs_from (c.url ∷ seen) more)
    ]

    unfoldable pub relay_configs : RelaySettings → Configs Url
    relay_configs s = configs_from [] s.servers

    unfoldable pub token_change_needs_rebind : RelaySettings → RelaySettings → Bool
    token_change_needs_rebind old new =
        any_new_token (or_none (relay_configs old)) (or_none (relay_configs new))

    -- `RelaySettings::urls`.
    abbrev pub urls : RelaySettings → SettingsError ⊎ List Url
    urls s = elim (relay_configs s) [ inl e ↦ inl e | inr cs ↦ inr (urls_of cs) ]

    module _ (defaults : List (RelayConfig Url)) where
      -- The relay map, given the custom servers.
      unfoldable pub desired : RelayPolicy → List (RelayConfig Url) → List (RelayConfig Url)
      desired mode [] = defaults
      desired RelayPolicy.only (c ∷ cs) = c ∷ cs
      desired RelayPolicy.preferred (c ∷ cs) =
          (c ∷ cs)
          ++ select (λ (d : RelayConfig Url). not (has_url d.url (urls_of (c ∷ cs)))) defaults

      unfoldable pub desired_relay_configs : RelaySettings → Configs Url
      desired_relay_configs s = elim (relay_configs s) [
        | inl e ↦ inl e
        | inr custom ↦ inr (desired s.mode custom)
      ]
