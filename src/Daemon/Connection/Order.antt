-- ===== src/Daemon/Connection/Order.antt =====
-- Responses come in the order of the requests (crates/ipn-daemon/src/main.rs: `handle_conn`).
use nullgate.Common.{
  ℕ, ◌≡◌, refl, ap, sym, subst, ◌∙◌, Bool, true, false, Option, none, some, List, [], ◌∷◌, ◌++◌,
  Bool-cases, inl, inr,
}
use mathlib.Core.List.{append_assoc, append-nil}
use nullgate.Ipc.{Wire, Message, Frame}
use nullgate.Daemon.Connection.{
  Input, arrived, finished, hung_up, Conn, accepted, take_up, on_message, next_request, on_frame,
  on_finished, on_input, handle_conn,
}

abbrev pub written_ids : {R : Type 0} → List (ℕ × R) → List ℕ
written_ids [] = []
written_ids ((id, resp) ∷ more) = id ∷ written_ids more

written_ids-append :
    {R : Type 0} (ws : List (ℕ × R)) (id : ℕ) (resp : R)
    → written_ids (ws ++ (id, resp) ∷ []) ≡ written_ids ws ++ id ∷ []
written_ids-append [] id resp = refl
written_ids-append ((i, r) ∷ ws) id resp = ap (◌∷◌ i) (written_ids-append ws id resp)

abbrev in_hand : {R : Type 0} → Option (ℕ × R) → List ℕ
in_hand none = []
in_hand (some (id, req)) = id ∷ []

module _ {w : Wire} where
  abbrev pub id_of : Message w → ℕ → List ℕ
  id_of (Message.request req) id = id ∷ []
  id_of (Message.response resp) id = []
  id_of (Message.event ev) id = []

  -- The ids of the requests among frames.
  abbrev pub request_ids : List (Frame w) → List ℕ
  request_ids [] = []
  request_ids (f ∷ fs) = id_of f.body f.id ++ request_ids fs

  abbrev pub frames : List (Input w) → List (Frame w)
  frames [] = []
  frames (arrived f ∷ inputs) = f ∷ frames inputs
  frames (_ ∷ inputs) = frames inputs

  -- The ids that an input adds to those that arrived.
  abbrev ids_in : Input w → List ℕ
  ids_in (arrived f) = id_of f.body f.id
  ids_in _ = []

  request_ids-frames :
      (i : Input w) (inputs : List (Input w))
      → request_ids (frames (i ∷ inputs)) ≡ ids_in i ++ request_ids (frames inputs)
  request_ids-frames (arrived f) inputs = refl
  request_ids-frames (finished resp writes) inputs = refl
  request_ids-frames hung_up inputs = refl

  -- What is left to answer of the frames that arrived.
  abbrev left : Conn w → List ℕ
  left c = in_hand c.current ++ request_ids c.queued

  -- The requests that arrived are those that were answered and `rest`; while the connection is open
  -- the latter are the one in hand and those that wait, and none waits if none is in hand.
  record Accounts (seen : List ℕ) (c : Conn w) : Type 0 where
    rest : List ℕ
    order : written_ids c.written ++ rest ≡ seen
    open_rest : c.ended ≡ false → rest ≡ left c
    idle : c.ended ≡ false → c.current ≡ none → c.queued ≡ []

  request_ids-append :
      (fs gs : List (Frame w)) → request_ids (fs ++ gs) ≡ request_ids fs ++ request_ids gs
  request_ids-append [] gs = refl
  request_ids-append (f ∷ fs) gs =
      ap (λ ids. id_of f.body f.id ++ ids) (request_ids-append fs gs)
      ∙ sym (append_assoc (id_of f.body f.id) (request_ids fs) (request_ids gs))

  -- The connection ends, and what is left stays so.
  ended-Accounts :
      (seen : List ℕ) (c d : Conn w)
      → Accounts seen c
      → d.written ≡ c.written
      → d.ended ≡ true
      → Accounts seen d
  ended-Accounts seen c d a same e = record {
    rest = a.rest;
    order = rw same a.order;
    open_rest = λ o. cc;
    idle = λ o i. cc;
  }

  module _ (is_subscribe : w.Request → Bool) where
    on_message-Accounts :
        (b : Message w) (id : ℕ) (queue : List (Frame w)) (c skipped : Conn w)
        → c.current ≡ none
        → Accounts (written_ids c.written ++ request_ids queue) skipped
        → Accounts
            (written_ids c.written ++ (id_of b id ++ request_ids queue))
            (on_message is_subscribe b id (record c { queued = queue }) skipped)
    unfolding on_message take_up
    on_message-Accounts (Message.request req) id queue c skipped h a =
        elim (Bool-cases (is_subscribe req)) [
          | inl e ↦ simp e (record {
            rest = id ∷ request_ids queue;
            order = refl;
            open_rest = λ o. cc;
            idle = λ o i. cc;
          })
          | inr e ↦ simp e (record {
            rest = id ∷ request_ids queue;
            order = refl;
            open_rest = λ o. refl;
            idle = λ o i. cc;
          })
        ]
    on_message-Accounts (Message.response resp) id queue c skipped h a = a
    on_message-Accounts (Message.event ev) id queue c skipped h a = a

    -- With no request in hand, the head of the loop takes up the queue.
    next_request-Accounts :
        (queue : List (Frame w)) (c : Conn w)
        → c.current ≡ none
        → Accounts (written_ids c.written ++ request_ids queue) (next_request is_subscribe queue c)
    unfolding next_request
    next_request-Accounts [] c h = record {
      rest = [];
      order = refl;
      open_rest = λ o. rw h refl;
      idle = λ o i. refl;
    }
    next_request-Accounts (f ∷ queue) c h =
        on_message-Accounts f.body f.id queue c (next_request is_subscribe queue c) h
          (next_request-Accounts queue c h)

    all_answered :
        (seen : List ℕ) (c : Conn w)
        → Accounts seen c
        → c.ended ≡ false
        → c.current ≡ none
        → written_ids c.written ≡ seen
    all_answered seen c a e h =
        let no_rest : a.rest ≡ [] = a.open_rest e ∙ rw (h, a.idle e h) refl in
        sym (append-nil (written_ids c.written))
        ∙ ap (λ ids. written_ids c.written ++ ids) (sym no_rest)
        ∙ a.order

    frame-Accounts :
        (cur : Option (ℕ × w.Request)) (f : Frame w) (seen : List ℕ) (c : Conn w)
        → c.current ≡ cur
        → c.ended ≡ false
        → Accounts seen c
        → Accounts (seen ++ id_of f.body f.id) (on_frame is_subscribe cur f c)
    unfolding on_frame
    frame-Accounts none f seen c h e a =
        subst (λ ids. Accounts ids (next_request is_subscribe (f ∷ []) c))
          (ap (λ ids. written_ids c.written ++ ids) (append-nil (id_of f.body f.id))
            ∙ ap (λ ids. ids ++ id_of f.body f.id) (all_answered seen c a e h))
          (next_request-Accounts (f ∷ []) c h)
    frame-Accounts (some r) f seen c h e a = record {
      rest = a.rest ++ id_of f.body f.id;
      order =
          sym (append_assoc (written_ids c.written) a.rest (id_of f.body f.id))
          ∙ ap (λ ids. ids ++ id_of f.body f.id) a.order;
      open_rest = λ o.
          ap (λ ids. ids ++ id_of f.body f.id) (a.open_rest e)
          ∙ append_assoc (in_hand c.current) (request_ids c.queued) (id_of f.body f.id)
          ∙ ap (λ ids. in_hand c.current ++ ids)
              (ap (λ ids. request_ids c.queued ++ ids) (sym (append-nil (id_of f.body f.id)))
                ∙ sym (request_ids-append c.queued (f ∷ [])));
      idle = λ o i. cc;
    }

    finished-Accounts :
        (cur : Option (ℕ × w.Request)) (resp : w.Response) (writes : Bool) (seen : List ℕ)
        (c : Conn w)
        → c.current ≡ cur
        → c.ended ≡ false
        → Accounts seen c
        → Accounts seen (on_finished is_subscribe cur resp writes c)
    unfolding on_finished
    finished-Accounts none resp writes seen c h e a = a
    finished-Accounts (some (id, req)) resp true seen c h e a =
        let answered : Conn w = record c {
          current = none;
          written = c.written ++ (id, resp) ∷ [];
        } in
        subst (λ ids. Accounts ids (next_request is_subscribe c.queued answered))
          (ap (λ ids. ids ++ request_ids c.queued) (written_ids-append c.written id resp)
            ∙ append_assoc (written_ids c.written) (id ∷ []) (request_ids c.queued)
            ∙ ap (λ ids. written_ids c.written ++ ids)
                (ap (λ o. in_hand o ++ request_ids c.queued) (sym h) ∙ sym (a.open_rest e))
            ∙ a.order)
          (next_request-Accounts c.queued answered refl)
    finished-Accounts (some (id, req)) resp false seen c h e a = ended-Accounts seen c _ a refl refl

    input-Accounts :
        (i : Input w) (seen : List ℕ) (c : Conn w)
        → c.ended ≡ false
        → Accounts seen c
        → Accounts (seen ++ ids_in i) (on_input is_subscribe i c)
    unfolding on_input
    input-Accounts (arrived f) seen c e a = frame-Accounts c.current f seen c refl e a
    input-Accounts (finished resp writes) seen c e a =
        rw (append-nil seen) (finished-Accounts c.current resp writes seen c refl e a)
    input-Accounts hung_up seen c e a = rw (append-nil seen) (ended-Accounts seen c _ a refl refl)

    -- After the end, more requests may arrive, and none is answered.
    late-Accounts :
        (seen late : List ℕ) (c : Conn w)
        → c.ended ≡ true
        → Accounts seen c
        → Accounts (seen ++ late) c
    late-Accounts seen late c e a = record {
      rest = a.rest ++ late;
      order =
          sym (append_assoc (written_ids c.written) a.rest late) ∙ ap (λ ids. ids ++ late) a.order;
      open_rest = λ o. cc;
      idle = λ o i. cc;
    }

    handle_conn-Accounts :
        (inputs : List (Input w)) (seen : List ℕ) (c : Conn w)
        → Accounts seen c
        → Accounts (seen ++ request_ids (frames inputs)) (handle_conn is_subscribe inputs c)
    unfolding handle_conn
    handle_conn-Accounts [] seen c a = rw (append-nil seen) a
    handle_conn-Accounts (i ∷ inputs) seen c a =
        let arrive = sym (
          ap (λ ids. seen ++ ids) (request_ids-frames i inputs)
          ∙ sym (append_assoc seen (ids_in i) (request_ids (frames inputs)))) in
        elim (Bool-cases c.ended) [
          | inl e ↦ simp e (
              subst (λ ids. Accounts ids (handle_conn is_subscribe inputs c)) arrive
                (handle_conn-Accounts inputs (seen ++ ids_in i) c
                  (late-Accounts seen (ids_in i) c e a)))
          | inr e ↦ simp e (
              subst
                (λ ids. Accounts ids (handle_conn is_subscribe inputs (on_input is_subscribe i c)))
                arrive
                (handle_conn-Accounts inputs (seen ++ ids_in i) (on_input is_subscribe i c)
                  (input-Accounts i seen c e a)))
        ]

    -- Whatever happens to a connection, in any order, the responses that were written bear the ids
    -- of the requests that arrived, in their order and without a gap; those that have none come
    -- last. While the connection is open and no request is in hand, each request has its response.
    pub responses_in_order :
        (inputs : List (Input w))
        → let c = handle_conn is_subscribe inputs accepted in
          (rest : List ℕ) × (written_ids c.written ++ rest ≡ request_ids (frames inputs))
          × (c.ended ≡ false → c.current ≡ none → rest ≡ [])
    responses_in_order inputs =
        let c = handle_conn is_subscribe inputs accepted in
        let a =
          handle_conn-Accounts inputs [] accepted
            (record { rest = []; order = refl; open_rest = λ o. refl; idle = λ o i. refl }) in
        (a.rest, a.order, λ e h. a.open_rest e ∙ rw (h, a.idle e h) refl)
