-- ===== src/Ipc/Oneshot.antt =====
-- The loop of `oneshot_request` ends and finds the response (crates/ipn-ipc/src/transport.rs).
use nullgate.Common.{
  ℕ, zero, suc, ◌≤◌, ◌<◌, ◌≡◌, ◌≢◌, refl, Bool, true, false, Option, none, some, List, [], ◌∷◌,
  arith, ◌==◌, length, length-append, if◌then◌else◌,
}
use nullgate.Common.Results.{Result, ok, err}
use nullgate.Ipc.{
  Wire, Frame, Cbor, IpcError, write_frame, read_frame, response_of, or_later, on_read,
  await_response, oneshot_request,
}
use nullgate.Ipc.Stream.{
  AllFit, stream_of, length-write_frame, read_frame-write_frame, read_frame-shorter,
}

picked :
    {E R : Type 0} (test : Bool) (o : Option R) (later : Result E R)
    → or_later (if test then o else none) (some later)
      ≡ some (if test then elim o [ none ↦ later | some r ↦ ok r ] else later)
picked true none later = refl
picked true (some r) later = refl
picked false o later = refl

module _ {w : Wire} where
  -- The response in the first frame with the id 1 that is a response.
  abbrev pub first_response : List (Frame w) → Result IpcError w.Response
  first_response [] = err IpcError.unexpected_eof
  first_response (f ∷ fs) =
      let later = first_response fs in
      if f.id == 1 then elim (response_of f.body) [ none ↦ later | some r ↦ ok r ] else later

  module _ (c : Cbor w) where
    on_read-ne-none :
        (read : Result IpcError (Option (Frame w × List ℕ)))
        (later : List ℕ → Option (Result IpcError w.Response))
        → ((f : Frame w) (rest : List ℕ) → read ≡ ok (some (f, rest)) → later rest ≢ none)
        → on_read read later ≢ none
    unfolding on_read
    on_read-ne-none (err e) later h = λ e. cc
    on_read-ne-none (ok none) later h = λ e. cc
    on_read-ne-none (ok (some (f, rest))) later h = ground (arith, h f rest refl)

    await_response-ne-none :
        (fuel : ℕ) (s : List ℕ) → length s < fuel → await_response c fuel s ≢ none
    unfolding await_response
    await_response-ne-none zero s h = omega arith
    await_response-ne-none (suc fuel) s h =
        on_read-ne-none (read_frame c s) (await_response c fuel) (λ f rest e.
          await_response-ne-none fuel rest (omega (arith, read_frame-shorter c s rest f e, h)))

    await_response-stream :
        (fuel : ℕ) (fs : List (Frame w))
        → length fs < fuel
        → AllFit c fs
        → await_response c fuel (stream_of c fs) ≡ some (first_response fs)
    unfolding await_response stream_of on_read
    await_response-stream zero fs h a = absurd (omega arith)
    await_response-stream (suc fuel) [] h a = refl
    await_response-stream (suc fuel) (f ∷ fs) h a =
        rw
          (
            read_frame-write_frame c f (stream_of c fs) a.0,
            await_response-stream fuel fs (omega arith) a.1,
          )
          (picked (f.id == 1) (response_of f.body) (first_response fs))

    length-stream_of : (fs : List (Frame w)) → length fs ≤ length (stream_of c fs)
    unfolding stream_of
    length-stream_of [] = omega arith
    length-stream_of (f ∷ fs) = omega (
      arith,
      length-stream_of fs,
      length-write_frame c f,
      length-append (write_frame c f []) (stream_of c fs),
    )

    -- Whatever bytes the daemon sends before its stream ends, the loop ends. When they are a list of
    -- frames that fit, the call returns the response in the first frame that has the id 1 and is a
    -- response, whatever other responses and events stand before it, and fails at the end of the
    -- stream when there is none.
    pub oneshot_request_lem :
        (req : w.Request) (s : List ℕ)
        → ((oneshot_request c req s).1 ≢ none)
          × ((fs : List (Frame w))
              → AllFit c fs
              → s ≡ stream_of c fs
              → (oneshot_request c req s).1 ≡ some (first_response fs))
    unfolding oneshot_request
    oneshot_request_lem req s = (
      await_response-ne-none (suc (length s)) s (omega arith),
      λ fs a e. rw e (
          await_response-stream (suc (length (stream_of c fs))) fs
            (omega (arith, length-stream_of fs)) a),
    )
