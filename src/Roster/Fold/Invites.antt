-- ===== src/Roster/Fold/Invites.antt =====
-- Single-use invites (roster.rs: the invite gate in `Roster::build`).
use nullgate.Common.{
  ◌≡◌, ◌≢◌, ◌⊎◌, inl, inr, refl, Bool, true, false, not, List, [], ◌∷◌, arith, ◌==◌, is_some_and,
}
use nullgate.Common.Maps.{contains}
use nullgate.Roster.{NodeId, Nonce, Role, InviteKind, Op, Entry, Config}
use nullgate.Roster.Fold.{FoldState, start, apply_op, step, run}

-- Controller invites are single-use.
abbrev pub SingleUse : FoldState → Type 0
SingleUse st = is_some_and st.controller_invite (λ i. not i.1) ≡ false

apply_op-SingleUse :
    (o : Bool) (st : FoldState) (signer : NodeId) (op : Op)
    → SingleUse st
    → SingleUse (apply_op o st signer op)
unfolding apply_op
apply_op-SingleUse o st signer (Op.freeze b ts) s = ground arith
apply_op-SingleUse o st signer (Op.remove n ts) s = ground arith
apply_op-SingleUse o st signer (Op.set_role n r ts) s = ground arith
apply_op-SingleUse o st signer (Op.set_invite InviteKind.peer n u ts) s = ground arith
apply_op-SingleUse o st signer (Op.set_invite InviteKind.controller n u ts) s = ground arith
apply_op-SingleUse o st signer (Op.set_name n ts) s = ground arith
apply_op-SingleUse o st signer (Op.add n hn r ip nonce ts) s = ground arith

run-SingleUse :
    (cfg : Config) (st : FoldState) (es : List Entry) → SingleUse st → SingleUse (run cfg st es)
unfolding run step
run-SingleUse cfg st [] s = s
run-SingleUse cfg st (e ∷ es) s =
    run-SingleUse cfg (step cfg st e) es
      (apply_op-SingleUse (e.signer == cfg.originator_id) st e.signer e.op s)

apply_op-spent :
    (o : Bool) (st : FoldState) (signer : NodeId) (op : Op) (n : Nonce)
    → contains n st.consumed ≡ true
    → contains n (apply_op o st signer op).consumed ≡ true
unfolding apply_op
apply_op-spent o st signer (Op.freeze b ts) n s = ground arith
apply_op-spent o st signer (Op.remove id ts) n s = ground arith
apply_op-spent o st signer (Op.set_role id r ts) n s = ground arith
apply_op-spent o st signer (Op.set_invite InviteKind.peer m u ts) n s = ground arith
apply_op-spent o st signer (Op.set_invite InviteKind.controller m u ts) n s = ground arith
apply_op-spent o st signer (Op.set_name m ts) n s = ground arith
apply_op-spent o st signer (Op.add id hn r ip m ts) n s = ground arith

run-spent :
    (cfg : Config) (st : FoldState) (es : List Entry) (n : Nonce)
    → contains n st.consumed ≡ true
    → contains n (run cfg st es).consumed ≡ true
unfolding run step
run-spent cfg st [] n s = s
run-spent cfg st (e ∷ es) n s =
    run-spent cfg (step cfg st e) es n
      (apply_op-spent (e.signer == cfg.originator_id) st e.signer e.op n s)

-- An admission as a Controller that cites the code `n`.
abbrev pub cites_controller : Nonce → Op → Bool
cites_controller n (Op.add id hn Role.controller ip nonce ts) = nonce == n
cites_controller n _ = false

apply_op-cited :
    (st : FoldState) (signer : NodeId) (op : Op) (n : Nonce)
    → cites_controller n op ≡ true
    → SingleUse st
    → (apply_op false st signer op ≡ st)
      ⊎ (contains n (apply_op false st signer op).consumed ≡ true)
unfolding apply_op
apply_op-cited st signer (Op.add id hn Role.controller ip nonce ts) n c s = ground arith
apply_op-cited st signer (Op.add id hn Role.peer ip nonce ts) n c s = absurd (cc)
apply_op-cited st signer (Op.freeze b ts) n c s = absurd (cc)
apply_op-cited st signer (Op.remove id ts) n c s = absurd (cc)
apply_op-cited st signer (Op.set_role id r ts) n c s = absurd (cc)
apply_op-cited st signer (Op.set_invite k m u ts) n c s = absurd (cc)
apply_op-cited st signer (Op.set_name m ts) n c s = absurd (cc)

apply_op-respent :
    (st : FoldState) (signer : NodeId) (op : Op) (n : Nonce)
    → cites_controller n op ≡ true
    → SingleUse st
    → contains n st.consumed ≡ true
    → apply_op false st signer op ≡ st
unfolding apply_op
apply_op-respent st signer (Op.add id hn Role.controller ip nonce ts) n c s u = ground arith
apply_op-respent st signer (Op.add id hn Role.peer ip nonce ts) n c s u = absurd (cc)
apply_op-respent st signer (Op.freeze b ts) n c s u = absurd (cc)
apply_op-respent st signer (Op.remove id ts) n c s u = absurd (cc)
apply_op-respent st signer (Op.set_role id r ts) n c s u = absurd (cc)
apply_op-respent st signer (Op.set_invite k m v ts) n c s u = absurd (cc)
apply_op-respent st signer (Op.set_name m ts) n c s u = absurd (cc)

-- Of two admissions as a Controller that Controllers sign under one invite code, at most one
-- takes effect, however many entries the fold has before, between and after them.
pub controller_invite_once :
    (cfg : Config) (es fs : List Entry) (e f : Entry) (n : Nonce)
    → e.signer ≢ cfg.originator_id
    → f.signer ≢ cfg.originator_id
    → cites_controller n e.op ≡ true
    → cites_controller n f.op ≡ true
    → let before = run cfg start es in
      let after = step cfg before e in
      let later = run cfg after fs in (after ≡ before) ⊎ (step cfg later f ≡ later)
unfolding step
controller_invite_once cfg es fs e f n ne nf ce cf =
    let before : FoldState = run cfg start es in
    let single : SingleUse before = run-SingleUse cfg start es refl in
    let other : (e.signer == cfg.originator_id) ≡ false = ground arith in
    let other' : (f.signer == cfg.originator_id) ≡ false = ground arith in
    let after : FoldState = apply_op false before e.signer e.op in
    let later = run-SingleUse cfg after fs (apply_op-SingleUse false before e.signer e.op single) in
    rw (other, other')
      (elim (apply_op-cited before e.signer e.op n ce single) [
        | inl same ↦ inl same
        | inr spent ↦ inr (
            apply_op-respent (run cfg after fs) f.signer f.op n cf later
              (run-spent cfg after fs n spent))
      ])
