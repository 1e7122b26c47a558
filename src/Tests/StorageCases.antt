-- ===== src/Tests/StorageCases.antt =====
-- The theorems about what is stored and sent (crates/ipn-core/src/secrets.rs, network.rs,
-- membership.rs, engine.rs, and crates/ipn-ipc/src/transport.rs), at small inputs.
use nullgate.Common.{
  ℕ, ◌+◌, ◌≤◌, ◌==◌, if◌then◌else◌, ◌≡◌, ◌≢◌, ◌↔◌, refl, true, false, Option, none, some, List, [],
  ◌∷◌, arith, length, select,
}
use nullgate.Common.HashMap.{get, put}
use nullgate.Common.Results.{ok}
use nullgate.Common.Text.{IsBlank, is_whitespace}
use nullgate.Membership.{Doc, load_entries, considered, max_entries}
use nullgate.Membership.Limits.{readable, load_entries_limits}
use nullgate.Network.{encode, decode, ReadsBack}
use nullgate.Secrets.{Os, uses_keystore, store, load}
use nullgate.Secrets.Kept.{Durable, Readable, load-store-ne-none, store_without_marker}
use nullgate.Engine.Config.{network_secret, name_key, save_config, load_config}
use nullgate.Engine.Config.Saved.{Saves, load_config-save_config}
use nullgate.Ipc.{Wire, Message, Frame, Cbor, oneshot_request}
use nullgate.Ipc.Stream.{AllFit, stream_of}
use nullgate.Ipc.Oneshot.{first_response, oneshot_request_lem}
use nullgate.Tests.EngineData.{
  hex, hex-HexLaws, desktop, os, no_secrets, blank, founder_cfg, config_cbor, codec, the_ticket,
  parse_toy,
}

model : Unit {0}
unfolding store load save_config load_config load_entries oneshot_request encode decode
model = tt

os-Durable : Durable os
os-Durable = record { removes = refl; marks = refl }

os-Readable : Readable os
os-Readable = record { stats = refl; opens = refl; answers = refl; reads = refl }

-- The keystore is locked.
abbrev locked : Os
locked = record os { answers = false }

key_is_kept :
    load hex desktop os network_secret (store hex desktop os network_secret 300 no_secrets).0
    ≡ ok (some 300)
unfolding model get put
key_is_kept = refl

load-store-ne-none_example :
    load hex desktop locked network_secret (store hex desktop os network_secret 300 no_secrets).0
    ≢ ok none
unfolding model
load-store-ne-none_example =
    load-store-ne-none hex desktop os network_secret 300 no_secrets os-Durable refl locked refl

-- The disk is full: the marker is not written.
abbrev full : Os
full = record os { marks = false }

store_without_marker_example :
    ((later : Os)
      → load hex desktop later network_secret
          (store hex desktop full network_secret 300 no_secrets).0
        ≡ ok none)
    ↔ ((uses_keystore desktop full ≡ true) × (full.marks ≡ false))
unfolding model get
store_without_marker_example =
    store_without_marker hex desktop full network_secret 300 no_secrets refl refl refl

founder-Saves : Saves hex config_cbor os founder_cfg
founder-Saves = record {
  laws = hex-HexLaws;
  durable = os-Durable;
  secret_fits = omega arith;
  originator_fits = omega arith;
  back = refl;
}

load_config-save_config_example :
    load_config hex config_cbor desktop os
      (save_config hex config_cbor desktop os founder_cfg blank.disk).0
    ≡ ok (some founder_cfg)
unfolding model
load_config-save_config_example =
    load_config-save_config hex config_cbor desktop os os founder_cfg blank.disk founder-Saves
      os-Readable refl

ticket-ReadsBack : ReadsBack codec the_ticket
ticket-ReadsBack = record { bytes = (omega arith, tt); back = refl }

space : IsBlank 32
unfolding is_whitespace
space = refl

-- The prefix, a key without it, and an entry that has not arrived.
abbrev doc : Doc
doc =
    record { author = 9; key = 101 ∷ 47 ∷ 1 ∷ []; content = 1 ∷ []; is_local = true }
    ∷ record { author = 9; key = 5 ∷ []; content = 1 ∷ []; is_local = true }
    ∷ record { author = 8; key = 101 ∷ 47 ∷ 2 ∷ []; content = 2 ∷ []; is_local = false }
    ∷ []

one_entry_is_read : length (load_entries parse_toy doc) ≡ 1
unfolding model
one_entry_is_read = refl

load_entries_limits_example :
    (length (load_entries parse_toy doc) ≤ max_entries)
    × (length (select considered doc) ≤ max_entries
        → load_entries parse_toy doc ≡ readable parse_toy doc)
load_entries_limits_example = load_entries_limits parse_toy doc

abbrev wire : Wire
wire = record { Request = ℕ; Response = ℕ; Event = ℕ }

abbrev kind : Message wire → ℕ
kind (Message.request r) = r
kind (Message.response r) = 100 + r
kind (Message.event e) = 200

abbrev an_event : Frame wire
an_event = record { id = 0; body = Message.event 3 }

abbrev the_response : Frame wire
the_response = record { id = 1; body = Message.response 42 }

abbrev decoded : List ℕ → Option (Frame wire)
decoded [] = none
decoded (b ∷ bs) = if b == 200 then some an_event else some the_response

abbrev cbor : Cbor wire
cbor = record { encode = λ f. kind f.body ∷ []; decode = decoded }

frames-AllFit : AllFit cbor (an_event ∷ the_response ∷ [])
frames-AllFit =
    (record { short = omega arith; back = refl }, (record { short = omega arith; back = refl }, tt))

response_is_found :
    (oneshot_request cbor 5 (stream_of cbor (an_event ∷ the_response ∷ []))).1 ≡ some (ok 42)
unfolding model stream_of
response_is_found = refl

oneshot_request_lem_example :
    ((oneshot_request cbor 5 (0 ∷ 0 ∷ 0 ∷ 9 ∷ 1 ∷ [])).1 ≢ none)
    × ((fs : List (Frame wire))
        → AllFit cbor fs
        → 0 ∷ 0 ∷ 0 ∷ 9 ∷ 1 ∷ [] ≡ stream_of cbor fs
        → (oneshot_request cbor 5 (0 ∷ 0 ∷ 0 ∷ 9 ∷ 1 ∷ [])).1 ≡ some (first_response fs))
oneshot_request_lem_example = oneshot_request_lem cbor 5 (0 ∷ 0 ∷ 0 ∷ 9 ∷ 1 ∷ [])
