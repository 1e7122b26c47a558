-- ===== src/Secrets.antt =====
-- Secrets at rest (crates/ipn-core/src/secrets.rs): a secret is in the keystore of the operating
-- system, with a marker file beside the place of its own file, or else in that file. What the
-- operating system does in a call is the argument `os`; hexadecimal text is the parameter `hex`.
pub mod Kept
use nullgate.Common.{
  ℕ, Bool, true, false, not, ◌&&◌, ◌≡◌, Option, none, some, List, [], ◌∷◌, ◌==◌, length,
  if◌then◌else◌,
}
use nullgate.Common.Bytes.{to_be_bytes, from_be_bytes, IsBytes}
use nullgate.Common.HashMap.{Key, get, put, delete}
use nullgate.Common.Results.{Result, ok, err, ◌>>=◌, ◌>>◌, guard, ok_or}
use nullgate.Common.Text.{Text, trim}
use nullgate.Roster.Addresses.Place.{is_some}
use mathlib.Core.Option

pub data SecretError : Type 0 where
  not_hex wrong_length no_entry unavailable unreadable unwritten : SecretError

-- `data_encoding::HEXLOWER`.
pub record Hex : Type 0 where
  pub encode : List ℕ → Text
  pub decode : Text → Option (List ℕ)

-- Hexadecimal text reads back as the bytes that were written, and has no white space.
pub record HexLaws (hex : Hex) : Type 0 where
  pub decode-encode : (bs : List ℕ) → IsBytes bs → hex.decode (hex.encode bs) ≡ some bs
  pub trim-encode : (bs : List ℕ) → trim (hex.encode bs) ≡ hex.encode bs

pub record Platform : Type 0 where
  pub android : Bool
  -- `NULLGATE_SECRETS_FILE_ONLY` is set
  pub file_only : Bool

-- Which calls of the operating system succeed.
pub record Os : Type 0 where
  pub opens : Bool
  pub accepts : Bool
  pub answers : Bool
  pub marks : Bool
  -- whether a file is there can be told; `Path::exists` is false where it cannot
  pub stats : Bool
  pub removes : Bool
  pub writes : Bool
  pub reads : Bool

pub record Secrets (Name : Type 0) : Type 0 where
  pub keystore : List (Name × Text)
  pub markers : List (Name × Unit {0})
  pub files : List (Name × Text)

unfoldable pub parse_hex : Hex → Text → Result SecretError ℕ
parse_hex hex s = do
  bytes ← ok_or (hex.decode s) SecretError.not_hex
  guard (length bytes == 32) SecretError.wrong_length
  ok (from_be_bytes bytes)

-- Whether `store` gets the secret into the keystore.
unfoldable pub uses_keystore : Platform → Os → Bool
uses_keystore p os = not p.android && not p.file_only && os.opens && os.accepts

unfoldable pub load_keystore : Hex → Os → Option Text → Result SecretError (Option ℕ)
unfolding parse_hex
load_keystore hex os entry = do
  guard os.opens SecretError.no_entry
  guard os.answers SecretError.unavailable
  text ← ok_or entry SecretError.unavailable
  secret ← parse_hex hex text
  ok (some secret)

unfoldable pub load_file : Hex → Os → Option Text → Result SecretError (Option ℕ)
unfolding parse_hex
load_file hex os none = ok none
load_file hex os (some text) = do
  guard os.reads SecretError.unreadable
  secret ← parse_hex hex (trim text)
  ok (some secret)

module _ {Name : Type 0} ⦃same : Key Name⦄ where
  unfoldable pub remove_marker : Os → Name → Secrets Name → Secrets Name
  remove_marker os name s = if os.removes then record s { markers = delete name s.markers } else s

  unfoldable pub remove_file : Os → Name → Secrets Name → Secrets Name
  remove_file os name s = if os.removes then record s { files = delete name s.files } else s

  unfoldable pub write_marker : Os → Name → Secrets Name → Secrets Name
  write_marker os name s = if os.marks then record s { markers = put name tt s.markers } else s

  unfoldable pub write_secret_file :
      Os → Name → Text → Secrets Name → Secrets Name × Result SecretError (Unit {0})
  write_secret_file os name text s =
      if os.writes
      then (record s { files = put name text s.files }, ok tt)
      else (s, err SecretError.unwritten)

  unfoldable pub store_text :
      Platform → Os → Name → Text → Secrets Name → Secrets Name × Result SecretError (Unit {0})
  unfolding uses_keystore remove_marker remove_file write_marker write_secret_file
  store_text p os name text s =
      if uses_keystore p os
      then (
        remove_file os name
            (write_marker os name (record s { keystore = put name text s.keystore })),
        ok tt,
      )
      else write_secret_file os name text (remove_marker os name s)

  unfoldable pub store :
      Hex → Platform → Os → Name → ℕ → Secrets Name → Secrets Name × Result SecretError (Unit {0})
  unfolding store_text
  store hex p os name secret s = store_text p os name (hex.encode (to_be_bytes 32 secret)) s

  unfoldable pub load : Hex → Platform → Os → Name → Secrets Name → Result SecretError (Option ℕ)
  unfolding load_keystore load_file
  load hex p os name s =
      if (not p.android && is_some (get name s.markers)) && os.stats
      then load_keystore hex os (get name s.keystore)
      else load_file hex os (get name s.files)

  unfoldable pub delete_secret : Platform → Os → Name → Secrets Name → Secrets Name
  unfolding remove_marker remove_file
  delete_secret p os name s =
      let s' =
        if not p.android && os.opens && os.accepts
        then record s { keystore = delete name s.keystore }
        else s in
      remove_file os name (remove_marker os name s')
