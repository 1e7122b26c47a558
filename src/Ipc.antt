-- ===== src/Ipc.antt =====
-- Frames between the daemon and its clients (crates/ipn-ipc/src/lib.rs and transport.rs). A stream
-- is the list of the bytes that its other end has written before it closed; CBOR is the parameter
-- `c`, and `w` lets the three kinds of message be any types.
pub mod Stream
pub mod Oneshot
use nullgate.Common.{
  ℕ, zero, suc, ◌%◌, ◌^◌, ◌-◌, ◌*◌, ◌+◌, Bool, true, false, not, Option, none, some, List, [], ◌∷◌,
  ◌++◌, ltb, ◌==◌, length, drop, if◌then◌else◌,
}
use nullgate.Common.Bytes.{to_be_bytes, from_be_bytes}
use nullgate.Common.Results.{Result, ok, err, ◌>>=◌, ◌>>◌, guard, ok_or}
use Prim.Native.Nat.{bit_xor}

pub record Wire : Type 1 where
  pub Request : Type 0
  pub Response : Type 0
  pub Event : Type 0

pub data Message (w : Wire) : Type 0 where
  request : w.Request → Message w
  response : w.Response → Message w
  event : w.Event → Message w

pub record Frame (w : Wire) : Type 0 where
  pub id : ℕ
  pub body : Message w

pub record Cbor (w : Wire) : Type 0 where
  pub encode : Frame w → List ℕ
  pub decode : List ℕ → Option (Frame w)

pub data IpcError : Type 0 where
  unexpected_eof invalid_data : IpcError

abbrev pub take : ℕ → List ℕ → List ℕ
take zero s = []
take (suc n) [] = []
take (suc n) (b ∷ s) = b ∷ take n s

-- `read_exact`: so many bytes and what is left of the stream.
unfoldable pub read_exact : ℕ → List ℕ → Option (List ℕ × List ℕ)
read_exact n s = if ltb (length s) n then none else some (take n s, drop n s)

abbrev pub response_of : {w : Wire} → Message w → Option w.Response
response_of (Message.request r) = none
response_of (Message.response r) = some r
response_of (Message.event e) = none

-- The loop returns the response, or goes on.
abbrev pub or_later {ℓ} : {E R : Type ℓ} → Option R → Option (Result E R) → Option (Result E R)
or_later none later = later
or_later (some r) later = some (ok r)

module _ {w : Wire} where
  -- One round of the loop: what was read, and the rounds that follow.
  unfoldable pub on_read :
      Result IpcError (Option (Frame w × List ℕ))
      → (List ℕ → Option (Result IpcError w.Response))
      → Option (Result IpcError w.Response)
  on_read (err e) later = some (err e)
  on_read (ok none) later = some (err IpcError.unexpected_eof)
  on_read (ok (some (f, rest))) later =
      or_later (if f.id == 1 then response_of f.body else none) (later rest)

module _ {w : Wire} (c : Cbor w) where
  unfoldable pub write_frame : Frame w → List ℕ → List ℕ
  write_frame f out =
      let bytes = c.encode f in out ++ (to_be_bytes 4 (length bytes % 2 ^ 32) ++ bytes)

  unfoldable pub read_body : ℕ → List ℕ → Result IpcError (Option (Frame w × List ℕ))
  unfolding read_exact
  read_body len s = do
    (buf, rest) ← ok_or (read_exact len s) IpcError.unexpected_eof
    frame ← ok_or (c.decode buf) IpcError.invalid_data
    ok (some (frame, rest))

  unfoldable pub read_after : Option (List ℕ × List ℕ) → Result IpcError (Option (Frame w × List ℕ))
  unfolding read_body
  read_after none = ok none
  read_after (some (len, s)) = read_body (from_be_bytes len) s

  -- No frame at the end of the stream, also within a length.
  unfoldable pub read_frame : List ℕ → Result IpcError (Option (Frame w × List ℕ))
  unfolding read_after read_exact
  read_frame s = read_after (read_exact 4 s)

  -- `none` when the fuel is used up.
  unfoldable pub await_response : ℕ → List ℕ → Option (Result IpcError w.Response)
  unfolding on_read read_frame
  await_response zero s = none
  await_response (suc fuel) s = on_read (read_frame s) (await_response fuel)

  -- What `oneshot_request` writes, and what it makes of the daemon's stream.
  unfoldable pub oneshot_request : w.Request → List ℕ → List ℕ × Option (Result IpcError w.Response)
  unfolding write_frame await_response
  oneshot_request req s = (
    write_frame (record { id = 1; body = Message.request req }) [],
    await_response (suc (length s)) s,
  )

-- `socket_name` on Windows: FNV-1a over the bytes of the path, in a u64 that wraps around.
unfoldable pub fnv1a : ℕ → List ℕ → ℕ
fnv1a hash [] = hash
fnv1a hash (b ∷ bytes) = fnv1a (bit_xor hash b * 0x100_0000_01b3 % 2 ^ 64) bytes

unfoldable pub pipe_hash : List ℕ → ℕ
unfolding fnv1a
pipe_hash = fnv1a 0xcbf2_9ce4_8422_2325
