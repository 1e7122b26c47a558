-- ===== src/Relays.antt =====
-- The relays (crates/ipn-core/src/relays.rs): the settings, and the choice of a path.
pub mod Paths
pub mod Selection
pub mod Settings
pub mod RelayMap
use nullgate.Common.{Bool, true, false, ◌||◌, List, [], ◌∷◌}
use nullgate.Common.HashMap.{Key}

-- `BTreeSet::contains`. iroh's `RelayUrl` is any type with an equality.
abbrev pub has_url : {Url : Type 0} ⦃same_url : Key Url⦄ → Url → List Url → Bool
has_url url [] = false
has_url ⦃same_url⦄ url (u ∷ urls) = same_url.beq u url || has_url url urls
