-- ===== src/Tests/EngineData.antt =====
-- A device for the runs of the engine's operations, with stand-ins for the libraries.
use nullgate.Common.{
  ℕ, ◌+◌, ◌-◌, ◌*◌, ◌/◌, ◌%◌, ◌≡◌, refl, ap, sym, ◌∙◌, true, false, Option, none, some, List, [],
  ◌∷◌, arith, ◌==◌, if◌then◌else◌,
}
use nullgate.Common.Bytes.{IsBytes}
use nullgate.Common.Text.{Text, trim, trim_start, trim_end, trim-around, is_whitespace, All, IsInk}
use nullgate.Roster.{Role, InviteKind, Op, Entry, default_roster}
use nullgate.Network.{Ticket, Codec, IsBase32, Base32Laws}
use nullgate.Secrets.{Hex, HexLaws, Platform, Os, Secrets}
use nullgate.Engine.Config.{StoredConfig, OnDiskConfig, ConfigCbor, SecretName}
use nullgate.Engine.Session.{Env, Net, Session, offline}
use nullgate.Engine.Operations.{Fresh}
use nullgate.Tests.RosterData.{toy, subnet, host, repeat}
use mathlib.Core.List.{append-nil}

-- Two letters for a byte.
abbrev pub pairs : List ℕ → Text
pairs [] = []
pairs (b ∷ bs) = (65 + b / 16 % 16) ∷ (65 + b % 16) ∷ pairs bs

abbrev pub cons_some : ℕ → Option (List ℕ) → Option (List ℕ)
cons_some b none = none
cons_some b (some bs) = some (b ∷ bs)

abbrev pub unpairs : Text → Option (List ℕ)
unpairs [] = some []
unpairs (a ∷ []) = none
unpairs (a ∷ b ∷ s) = cons_some ((a - 65) * 16 + (b - 65)) (unpairs s)

unpairs-pairs : (bs : List ℕ) → IsBytes bs → unpairs (pairs bs) ≡ some bs
unpairs-pairs [] h = refl
unpairs-pairs (b ∷ bs) h =
    let same : (65 + b / 16 % 16 - 65) * 16 + (65 + b % 16 - 65) ≡ b = omega (arith, h.0) in
    rw (unpairs-pairs bs h.1, same) refl

letter : (n : ℕ) → IsBase32 (65 + n % 16)
letter n = ground arith

pairs-IsBase32 : (bs : List ℕ) → All IsBase32 (pairs bs)
pairs-IsBase32 [] = tt
pairs-IsBase32 (b ∷ bs) = (letter (b / 16), (letter b, pairs-IsBase32 bs))

ink : (n : ℕ) → IsInk (65 + n % 16)
unfolding is_whitespace
ink n = ground arith

pairs-IsInk : (bs : List ℕ) → All IsInk (pairs bs)
pairs-IsInk [] = tt
pairs-IsInk (b ∷ bs) = (ink (b / 16), (ink b, pairs-IsInk bs))

trim-pairs : (bs : List ℕ) → trim (pairs bs) ≡ pairs bs
unfolding trim trim_start trim_end
trim-pairs [] = refl
trim-pairs (b ∷ bs) =
    let first = 65 + b / 16 % 16 in
    let more = (65 + b % 16) ∷ pairs bs in
    ap (λ t. trim (first ∷ t)) (sym (append-nil more))
    ∙ trim-around [] [] first more tt tt (ink (b / 16), (ink b, pairs-IsInk bs))

abbrev pub the_ticket : Ticket ℕ
the_ticket = record {
  name = "home";
  subnet = subnet;
  secret = 3;
  originator_id = 2;
  bootstrap = 80;
  invite_kind = InviteKind.peer;
  invite_nonce = 7;
}

-- The one ticket that these devices write, as the byte 7.
abbrev pub read_ticket : List ℕ → Option (Ticket ℕ)
read_ticket [] = none
read_ticket (b ∷ bs) = if b == 7 then some the_ticket else none

abbrev pub codec : Codec ℕ
codec = record {
  base32 = pairs;
  base32_decode = unpairs;
  write = λ t. 7 ∷ [];
  read = read_ticket;
  upper_table = λ c. [];
}

pub codec-Base32Laws : Base32Laws codec
codec-Base32Laws = record { base32_alphabet = pairs-IsBase32; decode-base32 = unpairs-pairs }

abbrev pub hex : Hex
hex = record { encode = pairs; decode = unpairs }

pub hex-HexLaws : HexLaws hex
hex-HexLaws = record { decode-encode = unpairs-pairs; trim-encode = trim-pairs }

-- What `sign` makes in the network 4 with the key of seed `k`.
abbrev pub signed_here : ℕ → Op → Entry
signed_here k op = record { network_id = 4; signer = k + 1; op = op; signature = repeat 64 k }

abbrev pub genesis_entry : Entry
genesis_entry = signed_here 1 (Op.add 6 "devo" Role.controller (host 2) 0 1)

abbrev pub invite_entry : Entry
invite_entry = signed_here 1 (Op.set_invite InviteKind.peer 7 false 2)

abbrev pub parse_toy : List ℕ → Option Entry
parse_toy [] = none
parse_toy (t ∷ s) =
    if t == 1 then some genesis_entry else if t == 2 then some invite_entry else none

abbrev pub stored_fields : OnDiskConfig
stored_fields = record { name = "home"; subnet = subnet; originator_id = 2 }

abbrev pub config_cbor : ConfigCbor
config_cbor = record { write = λ d. []; read = λ bytes. some stored_fields }

abbrev pub desktop : Platform
desktop = record { android = false; file_only = false }

abbrev pub env : Env ℕ
env = record {
  crypto = toy;
  hkdf = λ salt secret info. secret + 1;
  codec = codec;
  parse_entry = parse_toy;
  hex = hex;
  config_cbor = config_cbor;
  platform = desktop;
  my_id = 6;
  device_key = 5;
  addr = 80;
  hostname = "devo";
}

abbrev pub os : Os
os = record {
  opens = true;
  accepts = true;
  answers = true;
  marks = true;
  stats = true;
  removes = true;
  writes = true;
  reads = true;
}

abbrev pub net : Net
net = record {
  opens_doc = true;
  creates_author = true;
  author = 9;
  subscribes = true;
  watches = true;
  sets_bytes = true;
}

abbrev pub no_secrets : Secrets SecretName
no_secrets = record { keystore = []; markers = []; files = [] }

abbrev pub blank : Session
blank = record {
  live = offline;
  config = none;
  last_roster_rebuild = 0;
  replicas = [];
  disk = record { config_file = none; secrets = no_secrets };
  answers = [];
  remote_access_disabled = false;
  hidden = false;
  saved_prefs = (false, false);
  last_recovery_burst = 0;
  background = false;
  last_presence_broadcast = 0;
  tick_seq = 0;
  unhealthy_checks = 0;
  last_rebuild = 0;
}

abbrev pub fresh : Fresh
fresh = record {
  secret = 3;
  originator = 1;
  nonce = 7;
  genesis_ts = 1;
  invite_ts = 2;
  fold_now = 100;
}

-- A member's configuration, and the originator's.
abbrev pub member_cfg : StoredConfig
member_cfg = record {
  name = "home";
  subnet = subnet;
  secret = 3;
  originator_id = 2;
  originator_secret = none;
}

abbrev pub founder_cfg : StoredConfig
founder_cfg = record member_cfg { originator_secret = some 1 }

-- A device that is online, with another member on its roster.
abbrev pub online_with : StoredConfig → Session
online_with cfg = record blank {
  config = some cfg;
  live = record offline {
    doc = some 4;
    author = some 9;
    gossip_sender = true;
    roster = record default_roster {
      members =
          (21, record { hostname = "phone"; role = Role.peer; virtual_ip = host 3; added_by = 6 })
          ∷ [];
    };
  };
}
