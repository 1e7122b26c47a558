-- ===== src/Daemon/Connection.antt =====
-- One client's connection (crates/ipn-daemon/src/main.rs: `handle_conn`). What happens to it comes
-- as a list of inputs in any order: a frame arrives, the request in hand is done, or the client
-- hangs up. The reader task's channel is the order of the frames.
pub mod Order
use nullgate.Common.{ℕ, Bool, true, false, Option, none, some, List, [], ◌∷◌, ◌++◌, if◌then◌else◌}
use nullgate.Ipc.{Wire, Message, Frame}

pub data Input (w : Wire) : Type 0 where
  arrived : Frame w → Input w
  -- with the response, and whether it can be written
  finished : w.Response → Bool → Input w
  hung_up : Input w

-- The request in hand, the frames that arrived since, and what was written.
pub record Conn (w : Wire) : Type 0 where
  pub current : Option (ℕ × w.Request)
  pub queued : List (Frame w)
  pub written : List (ℕ × w.Response)
  pub subscribed : Bool
  pub ended : Bool

module _ {w : Wire} where
  abbrev pub accepted : Conn w
  accepted = record { current = none; queued = []; written = []; subscribed = false; ended = false }

  module _ (is_subscribe : w.Request → Bool) where
    -- A request is taken in hand; `Subscribe` hands the connection over to `subscribe_loop`, and
    -- ends it after that.
    unfoldable pub take_up : ℕ → w.Request → Conn w → Conn w
    take_up id req c =
        if is_subscribe req
        then record c { subscribed = true; ended = true }
        else record c { current = some (id, req) }

    -- What is not a request is passed over.
    unfoldable pub on_message : Message w → ℕ → Conn w → Conn w → Conn w
    unfolding take_up
    on_message (Message.request req) id c skipped = take_up id req c
    on_message (Message.response resp) id c skipped = skipped
    on_message (Message.event ev) id c skipped = skipped

    -- The head of the loop, with the frames that are queued.
    unfoldable pub next_request : List (Frame w) → Conn w → Conn w
    unfolding on_message
    next_request [] c = record c { queued = [] }
    next_request (f ∷ queue) c =
        on_message f.body f.id (record c { queued = queue }) (next_request queue c)

    -- A frame waits while a request is in hand.
    unfoldable pub on_frame : Option (ℕ × w.Request) → Frame w → Conn w → Conn w
    unfolding next_request
    on_frame none f c = next_request (f ∷ []) c
    on_frame (some r) f c = record c { queued = c.queued ++ f ∷ [] }

    unfoldable pub on_finished : Option (ℕ × w.Request) → w.Response → Bool → Conn w → Conn w
    unfolding next_request
    on_finished none resp writes c = c
    on_finished (some (id, req)) resp true c =
        next_request c.queued (record c { current = none; written = c.written ++ (id, resp) ∷ [] })
    on_finished (some (id, req)) resp false c = record c { current = none; ended = true }

    -- A client that hangs up cancels the request in hand.
    unfoldable pub on_input : Input w → Conn w → Conn w
    unfolding on_frame on_finished
    on_input (arrived f) c = on_frame c.current f c
    on_input (finished resp writes) c = on_finished c.current resp writes c
    on_input hung_up c = record c { current = none; ended = true }

    unfoldable pub handle_conn : List (Input w) → Conn w → Conn w
    unfolding on_input
    handle_conn [] c = c
    handle_conn (i ∷ inputs) c = handle_conn inputs (if c.ended then c else on_input i c)
