-- ===== src/Network.antt =====
-- The network secret, the join ticket and the recovery code (crates/ipn-core/src/network.rs). The
-- address of the inviter is of the type `Addr`, which iroh defines. HKDF, base32 and CBOR are the
-- parameters `Codec` and `hkdf`.
pub mod RoundTrip
use nullgate.Common.{
  ℕ, Bool, Option, none, some, List, ◌++◌, leb, ◌==◌, length, ◌≡◌, true, false, ◌&&◌, ◌||◌,
}
use nullgate.Common.Bytes.{to_be_bytes, from_be_bytes, IsBytes}
use nullgate.Common.Results.{Result, ok, err, ◌>>=◌, ◌>>◌, guard, ok_or}
use nullgate.Common.Text.{
  Text, codes, utf8_len, trim, strip_prefix, to_lowercase, to_uppercase, All,
}
use nullgate.Ip.{Ipv4Addr}
use nullgate.Roster.{NodeId, Nonce, InviteKind}
use Prim.Native.String.{String}

abbrev pub NetworkSecret : Type 0
NetworkSecret = ℕ

-- `salt`, input key and `info` of HKDF-SHA256, for 32 bytes.
abbrev pub Hkdf : Type 0
Hkdf = String → NetworkSecret → String → ℕ

unfoldable pub derive : Hkdf → NetworkSecret → String → ℕ
derive hkdf secret info = hkdf "ipn-v1" secret info

unfoldable pub network_id : Hkdf → NetworkSecret → NodeId
unfolding derive
network_id hkdf secret = derive hkdf secret "network-id"

unfoldable pub psk : Hkdf → NetworkSecret → ℕ
unfolding derive
psk hkdf secret = derive hkdf secret "psk"

unfoldable pub rendezvous : Hkdf → NetworkSecret → ℕ
unfolding derive
rendezvous hkdf secret = derive hkdf secret "rendezvous"

unfoldable pub docs_namespace_seed : Hkdf → NetworkSecret → ℕ
unfolding derive
docs_namespace_seed hkdf secret = derive hkdf secret "docs-namespace"

pub record Ticket (Addr : Type 0) : Type 0 where
  pub name : String
  pub subnet : Ipv4Addr
  pub secret : NetworkSecret
  pub originator_id : NodeId
  pub bootstrap : Addr
  pub invite_kind : InviteKind
  pub invite_nonce : Nonce

pub record Codec (Addr : Type 0) : Type 0 where
  pub base32 : List ℕ → Text
  pub base32_decode : Text → Option (List ℕ)
  pub write : Ticket Addr → List ℕ
  pub read : List ℕ → Option (Ticket Addr)
  -- the upper case of the characters that are not ASCII
  pub upper_table : ℕ → Text

pub data TicketError : Type 0 where
  no_prefix not_base32 not_cbor name_too_long : TicketError

pub data KeyError : Type 0 where
  no_prefix not_base32 wrong_length : KeyError

abbrev pub ticket_prefix : Text
ticket_prefix = codes "ng1"

abbrev pub recovery_prefix : Text
recovery_prefix = codes "ngkey1"

module _ {Addr : Type 0} (c : Codec Addr) where
  unfoldable pub encode : Ticket Addr → Text
  encode t = ticket_prefix ++ to_lowercase (c.base32 (c.write t))

  unfoldable pub decode : Text → Result TicketError (Ticket Addr)
  decode s = do
    body ← ok_or (strip_prefix ticket_prefix (trim s)) TicketError.no_prefix
    bytes ← ok_or (c.base32_decode (to_uppercase c.upper_table body)) TicketError.not_base32
    ticket ← ok_or (c.read bytes) TicketError.not_cbor
    guard (leb (utf8_len (codes ticket.name)) 128) TicketError.name_too_long
    ok ticket

  unfoldable pub encode_recovery_key : ℕ → Text
  encode_recovery_key secret = recovery_prefix ++ to_lowercase (c.base32 (to_be_bytes 32 secret))

  unfoldable pub decode_recovery_key : Text → Result KeyError ℕ
  decode_recovery_key s = do
    body ← ok_or (strip_prefix recovery_prefix (trim s)) KeyError.no_prefix
    bytes ← ok_or (c.base32_decode (to_uppercase c.upper_table body)) KeyError.not_base32
    guard (length bytes == 32) KeyError.wrong_length
    ok (from_be_bytes bytes)

-- The alphabet of base32: `A` to `Z` and `2` to `7`.
abbrev pub IsBase32 : ℕ → Type 0
IsBase32 x = ((leb 65 x && leb x 90) || (leb 50 x && leb x 55)) ≡ true

-- Base32 writes in its alphabet and reads back the bytes that it wrote.
pub record Base32Laws {Addr : Type 0} (c : Codec Addr) : Type 0 where
  pub base32_alphabet : (bs : List ℕ) → All IsBase32 (c.base32 bs)
  pub decode-base32 : (bs : List ℕ) → IsBytes bs → c.base32_decode (c.base32 bs) ≡ some bs

-- CBOR writes a ticket as bytes and reads it back from them.
pub record ReadsBack {Addr : Type 0} (c : Codec Addr) (t : Ticket Addr) : Type 0 where
  pub bytes : IsBytes (c.write t)
  pub back : c.read (c.write t) ≡ some t
