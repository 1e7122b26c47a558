-- ===== src/Engine/Config.antt =====
-- The network's configuration in memory, on disk and in the keystore (crates/ipn-core/src/engine.rs:
-- `StoredConfig`, `load_config`, `save_config`). CBOR is the parameter `file`.
pub mod Saved
use nullgate.Common.{
  ℕ, ◌^◌, ◌<◌, ◌≡◌, refl, ap, sym, ◌∙◌, ◌↔◌, Bool, true, false, Option, none, some, List, [], ◌∷◌,
  arith, bool_eq, if◌then◌else◌,
}
use nullgate.Common.HashMap.{Key}
use nullgate.Common.Results.{Result, ok, err, ◌>>=◌, ◌>>◌, guard, ok_or}
use nullgate.Ip.{Ipv4Addr}
use nullgate.Roster.{NodeId, Config}
use nullgate.Network.{Hkdf, NetworkSecret, network_id}
use nullgate.Secrets.{SecretError, Hex, HexLaws, Platform, Os, Secrets, store, load, delete_secret}
use Prim.Native.String.{String}

pub record StoredConfig : Type 0 where
  pub name : String
  pub subnet : Ipv4Addr
  pub secret : NetworkSecret
  pub originator_id : NodeId
  pub originator_secret : Option ℕ

unfoldable pub roster_cfg : Hkdf → StoredConfig → Config
roster_cfg hkdf cfg = record {
  network_id = network_id hkdf cfg.secret;
  originator_id = cfg.originator_id;
  subnet = cfg.subnet;
}

pub record OnDiskConfig : Type 0 where
  pub name : String
  pub subnet : Ipv4Addr
  pub originator_id : NodeId

pub record ConfigCbor : Type 0 where
  pub write : OnDiskConfig → List ℕ
  pub read : List ℕ → Option OnDiskConfig

-- `KEY_NETWORK_SECRET` and `KEY_ORIGINATOR_SECRET`.
pub data SecretName : Type 0 where
  network_secret originator_secret : SecretName

abbrev pub name_eq : SecretName → SecretName → Bool
name_eq network_secret network_secret = true
name_eq originator_secret originator_secret = true
name_eq _ _ = false

pub name_eq_iff : (a b : SecretName) → (name_eq a b ≡ true) ↔ (a ≡ b)
name_eq_iff network_secret network_secret = ground arith
name_eq_iff network_secret originator_secret = ground arith
name_eq_iff originator_secret network_secret = ground arith
name_eq_iff originator_secret originator_secret = ground arith

instance abbrev pub name_key : Key SecretName
name_key = record { beq = name_eq; beq_iff = name_eq_iff }

-- The data directory and the keystore.
pub record Disk : Type 0 where
  pub config_file : Option (List ℕ)
  pub secrets : Secrets SecretName

pub data ConfigError : Type 0 where
  undecodable unreadable unwritten : ConfigError
  keystore : SecretError → ConfigError

abbrev pub of_secret {ℓ} : {A : Type ℓ} → Result SecretError A → Result ConfigError A
of_secret (ok a) = ok a
of_secret (err e) = err (keystore e)

abbrev pub stored_config : OnDiskConfig → ℕ → Option ℕ → StoredConfig
stored_config d secret originator = record {
  name = d.name;
  subnet = d.subnet;
  secret = secret;
  originator_id = d.originator_id;
  originator_secret = originator;
}

abbrev pub on_disk : StoredConfig → OnDiskConfig
on_disk cfg = record { name = cfg.name; subnet = cfg.subnet; originator_id = cfg.originator_id }

module _ (hex : Hex) (p : Platform) where
  unfoldable pub with_secret :
      Os → Secrets SecretName → OnDiskConfig → Option ℕ → Result ConfigError (Option StoredConfig)
  with_secret os s d none = ok none
  with_secret os s d (some secret) = do
    originator ← of_secret (load hex p os originator_secret s)
    ok (some (stored_config d secret originator))

  unfoldable pub save_originator :
      Os → Option ℕ → Secrets SecretName → Secrets SecretName × Result SecretError (Unit {0})
  save_originator os none s = (delete_secret p os originator_secret s, ok tt)
  save_originator os (some key) s = store hex p os originator_secret key s

  -- The second secret, unless the first was refused.
  unfoldable pub save_second :
      Os
      → Option ℕ
      → Secrets SecretName × Result SecretError (Unit {0})
      → Secrets SecretName × Result SecretError (Unit {0})
  unfolding save_originator
  save_second os key (s, err e) = (s, err e)
  save_second os key (s, ok done) = save_originator os key s

  unfoldable pub save_secrets :
      Os → StoredConfig → Secrets SecretName → Secrets SecretName × Result SecretError (Unit {0})
  unfolding save_second
  save_secrets os cfg s =
      save_second os cfg.originator_secret (store hex p os network_secret cfg.secret s)

module _ (hex : Hex) (file : ConfigCbor) (p : Platform) where
  unfoldable pub load_file_bytes :
      Os → Disk → Option (List ℕ) → Result ConfigError (Option StoredConfig)
  unfolding with_secret
  load_file_bytes os disk none = ok none
  load_file_bytes os disk (some bytes) = do
    guard os.reads ConfigError.unreadable
    d ← ok_or (file.read bytes) ConfigError.undecodable
    secret ← of_secret (load hex p os network_secret disk.secrets)
    with_secret hex p os disk.secrets d secret

  unfoldable pub load_config : Os → Disk → Result ConfigError (Option StoredConfig)
  unfolding load_file_bytes
  load_config os disk = load_file_bytes os disk disk.config_file

  unfoldable pub save_config : Os → StoredConfig → Disk → Disk × Result ConfigError (Unit {0})
  unfolding save_secrets
  save_config os cfg disk =
      let (s, done) = save_secrets hex p os cfg disk.secrets in
      if os.writes
      then (record { config_file = some (file.write (on_disk cfg)); secrets = s }, of_secret done)
      else (disk, err ConfigError.unwritten)
