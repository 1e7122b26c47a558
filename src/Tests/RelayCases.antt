-- ===== src/Tests/RelayCases.antt =====
-- Runs and theorems at inputs in the manner of the unit tests (crates/ipn-core/src/relays.rs).
use nullgate.Common.{
  ℕ, ◌≡◌, inr, refl, true, Option, none, some, List, [], ◌∷◌, arith, ◌==◌, if◌then◌else◌,
}
use nullgate.Common.HashMap.{nat_key}
use nullgate.Ip.{Ipv4Addr}
use nullgate.Relays.Paths.{
  IpAddr, PathView, set_subnet, subnet_contains, is_looped, path_tier, biased_rtt, should_switch,
  consider, search, select,
}
use nullgate.Relays.Selection.{candidates, Chosen, select-Chosen}
use nullgate.Relays.Settings.{
  Token, RelayPolicy, RelaySettings, RelayConfig, configure, configs_from, relay_configs, config_of,
  token_change_needs_rebind, any_new_token, desired, desired_relay_configs,
}
use nullgate.Relays.RelayMap.{IsValid}
use Prim.Native.String.{String, len}

model : Unit {0}
unfolding set_subnet subnet_contains is_looped path_tier biased_rtt should_switch consider search
    select configure configs_from relay_configs config_of token_change_needs_rebind any_new_token
    desired desired_relay_configs
model = tt

abbrev address : ℕ → Ipv4Addr
address last = record { o0 = 10; o1 = 99; o2 = 0; o3 = last }

-- Path 0 runs over the virtual network, 1 and 2 over the relays 7 and 8, and 3 is a direct one.
abbrev look : ℕ → PathView ℕ
look n =
    if n == 0
    then PathView.ip (IpAddr.v4 (address 6))
    else if n == 1
    then PathView.relay 7
    else if n == 2
    then PathView.relay 8
    else PathView.ip (IpAddr.v6 1)

abbrev subnet : ℕ
unfolding model
subnet = set_subnet (address 0)

-- The user's relay 8 beats the faster relay 7 and the looped path.
abbrev paths : List (ℕ × Option ℕ)
paths = (0, some 1000) ∷ (1, some 2_000_000) ∷ (2, some 90_000_000) ∷ []

my_relay_wins : select look (8 ∷ []) subnet (some 1) paths ≡ some 2
unfolding model
my_relay_wins = refl

looped_is_left : select look (8 ∷ []) subnet (some 0) paths ≡ some 2
unfolding model
looped_is_left = refl

direct_wins : select look (8 ∷ []) subnet (some 2) ((3, some 150_000_000) ∷ paths) ≡ some 3
unfolding model
direct_wins = refl

only_loop : select look [] subnet (some 0) ((0, some 1000) ∷ []) ≡ none
unfolding model
only_loop = refl

zero_is_looped : is_looped look subnet 0 ≡ true
unfolding model
zero_is_looped = refl

select-Chosen_example :
    Chosen look
      (8 ∷ [])
      subnet
      (some 1)
      (candidates look (8 ∷ []) subnet paths [])
      (select look (8 ∷ []) subnet (some 1) paths)
select-Chosen_example = select-Chosen look (8 ∷ []) subnet (some 1) paths

-- URLs are told apart by their length, which is enough for a test.
abbrev parse : String → Option ℕ
parse s = some (len s)

abbrev settings : Option Token → RelaySettings
settings token = record {
  servers =
      record { url = "https://a"; token = token }
      ∷ record { url = "https://bb"; token = none }
      ∷ [];
  mode = RelayPolicy.preferred;
}

-- The second public relay is one of the custom ones.
abbrev defaults : List (RelayConfig ℕ)
defaults = record { url = 30; auth_token = none } ∷ record { url = 9; auth_token = none } ∷ []

abbrev customs : Option Token → List (RelayConfig ℕ)
customs token = record { url = 9; auth_token = token } ∷ record { url = 10; auth_token = none } ∷ []

abbrev wanted : List (RelayConfig ℕ)
wanted =
    record { url = 9; auth_token = some (97 ∷ []) }
    ∷ record { url = 10; auth_token = none }
    ∷ record { url = 30; auth_token = none }
    ∷ []

custom_keeps_its_token :
    desired_relay_configs parse defaults (settings (some (97 ∷ []))) ≡ inr wanted
unfolding model
custom_keeps_its_token = refl

without_token : relay_configs parse (settings none) ≡ inr (customs none)
unfolding model
without_token = refl

with_token : relay_configs parse (settings (some (97 ∷ []))) ≡ inr (customs (some (97 ∷ [])))
unfolding model
with_token = refl

defaults-IsValid : IsValid defaults
defaults-IsValid = ground arith
