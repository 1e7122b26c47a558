-- ===== src/Engine/Config/Saved.antt =====
-- A configuration that was saved is the one that is loaded after a restart
-- (crates/ipn-core/src/engine.rs: `save_config`, `load_config`).
use nullgate.Common.{
  ℕ, ◌^◌, ◌<◌, ◌≡◌, refl, ap, ◌∙◌, true, Option, none, some, List, arith, Bool-cases, inl, inr,
}
use nullgate.Common.Results.{Result, ok, err}
use nullgate.Secrets.{SecretError, Hex, HexLaws, Platform, Os, Secrets, store, load}
use nullgate.Secrets.Kept.{Durable, Readable, load-store, load-delete, load-store_other}
use nullgate.Engine.Config.{
  StoredConfig, OnDiskConfig, ConfigCbor, SecretName, network_secret, originator_secret, name_key,
  Disk, of_secret, stored_config, on_disk, with_secret, load_file_bytes, load_config,
  save_originator, save_second, save_secrets, save_config,
}

-- The key of the originator, if there is one, has 32 bytes.
abbrev pub FitsKey : Option ℕ → Type 0
FitsKey none = Unit
FitsKey (some key) = key < 256 ^ 32

-- What the call that saved had from the operating system, and what CBOR reads back.
pub record Saves (hex : Hex) (file : ConfigCbor) (os : Os) (cfg : StoredConfig) : Type 0 where
  pub laws : HexLaws hex
  pub durable : Durable os
  pub secret_fits : cfg.secret < 256 ^ 32
  pub originator_fits : FitsKey cfg.originator_secret
  pub back : file.read (file.write (on_disk cfg)) ≡ some (on_disk cfg)

module _ (hex : Hex) (p : Platform) (os : Os) where
  abbrev Stage : Type 0
  Stage = Secrets SecretName × Result SecretError (Unit {0})

  save_second-ok :
      (key : Option ℕ) (first : Stage)
      → (save_second hex p os key first).1 ≡ ok tt
      → (first.1 ≡ ok tt)
        × ((save_originator hex p os key first.0).1 ≡ ok tt)
        × ((save_second hex p os key first).0 ≡ (save_originator hex p os key first.0).0)
  unfolding save_second
  save_second-ok key (s, err e) h = cc
  save_second-ok key (s, ok done) h = (refl, h, refl)

  module _ (laws : HexLaws hex) (d : Durable os) (later : Os) (r : Readable later) where
    load-save_originator :
        (key : Option ℕ) (s : Secrets SecretName)
        → FitsKey key
        → (save_originator hex p os key s).1 ≡ ok tt
        → load hex p later originator_secret (save_originator hex p os key s).0 ≡ ok key
    unfolding save_originator
    load-save_originator none s f e =
        load-delete hex p os originator_secret 0 s d.removes later originator_secret
    load-save_originator (some key) s f e =
        load-store hex p os originator_secret key s laws f d e later r

    network_secret-kept :
        (key : Option ℕ) (s : Secrets SecretName)
        → load hex p later network_secret (save_originator hex p os key s).0
          ≡ load hex p later network_secret s
    unfolding save_originator
    network_secret-kept none s =
        load-delete hex p os originator_secret 0 s d.removes later network_secret
    network_secret-kept (some key) s =
        load-store_other hex p os originator_secret key s later network_secret refl

  save_secrets-load :
      (cfg : StoredConfig) (s : Secrets SecretName) (file : ConfigCbor)
      → Saves hex file os cfg
      → (save_secrets hex p os cfg s).1 ≡ ok tt
      → (later : Os) → Readable later
      → (load hex p later network_secret (save_secrets hex p os cfg s).0 ≡ ok (some cfg.secret))
        × (load hex p later originator_secret (save_secrets hex p os cfg s).0
            ≡ ok cfg.originator_secret)
  unfolding save_secrets
  save_secrets-load cfg s file c e later r =
      let first : Stage = store hex p os network_secret cfg.secret s in
      let key = cfg.originator_secret in
      let (stored, again, same) = save_second-ok key first e in
      (
        ap (load hex p later network_secret) same
            ∙ network_secret-kept c.laws c.durable later r key first.0
            ∙ load-store hex p os network_secret cfg.secret s c.laws c.secret_fits c.durable stored
                later r,
        ap (load hex p later originator_secret) same
            ∙ load-save_originator c.laws c.durable later r key first.0 c.originator_fits again,
      )

load_file_bytes-found :
    (hex : Hex) (file : ConfigCbor) (p : Platform) (os : Os) (disk : Disk) (bytes : List ℕ)
    {d : OnDiskConfig} {secret : ℕ} {key : Option ℕ}
    → os.reads ≡ true
    → file.read bytes ≡ some d
    → load hex p os network_secret disk.secrets ≡ ok (some secret)
    → load hex p os originator_secret disk.secrets ≡ ok key
    → load_file_bytes hex file p os disk (some bytes) ≡ ok (some (stored_config d secret key))
unfolding load_file_bytes with_secret
load_file_bytes-found hex file p os disk bytes reads back first second =
    simp (reads, back, first, second) refl

of_secret-ok : {A : Type 0} (r : Result SecretError A) {a : A} → of_secret r ≡ ok a → r ≡ ok a
of_secret-ok (ok b) h = ground arith
of_secret-ok (err e) h = cc

-- The configuration that `save_config` reported as saved, in a call that could write the markers and
-- remove files, is what `load_config` returns, the key of the originator included, whenever the
-- markers can be looked up and the files and the keystore can be read; without such a key an older
-- one is no longer found. The secrets have 32 bytes, hexadecimal text reads back without white
-- space, and CBOR reads the stored fields back.
pub load_config-save_config :
    (hex : Hex) (file : ConfigCbor) (p : Platform) (os later : Os) (cfg : StoredConfig)
    (disk : Disk)
    → Saves hex file os cfg
    → Readable later
    → (save_config hex file p os cfg disk).1 ≡ ok tt
    → load_config hex file p later (save_config hex file p os cfg disk).0 ≡ ok (some cfg)
unfolding load_config save_config
load_config-save_config hex file p os later cfg disk c r e = elim (Bool-cases os.writes) [
  | inl writes ↦
      let saved = save_secrets hex p os cfg disk.secrets in
      let done : saved.1 ≡ ok tt = of_secret-ok saved.1 (simp writes at e) in
      let (first, second) = save_secrets-load hex p os cfg disk.secrets file c done later r in
      simp writes (
        load_file_bytes-found hex file p later
          (record { config_file = some (file.write (on_disk cfg)); secrets = saved.0 })
          (file.write (on_disk cfg)) r.reads c.back first second)
  | inr fails ↦ absurd (ground (arith, fails, e))
]
