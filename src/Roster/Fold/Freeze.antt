-- ===== src/Roster/Fold/Freeze.antt =====
-- The frozen roll (roster.rs: the fold of `Roster::build`).
use nullgate.Common.{◌≡◌, refl, Bool, true, false, none, List, [], ◌∷◌, arith, ◌==◌, ==_iff}
use nullgate.Common.Maps.{lookup, lookup-remove, lookup-modify}
use nullgate.Roster.{NodeId, InviteKind, Op, Entry, Config, Member}
use nullgate.Roster.Fold.{FoldState, apply_op, step, run}

-- An entry by which the originator thaws the roll.
abbrev pub thaws : Op → Bool
thaws (Op.freeze false ts) = true
thaws _ = false

-- No thaw of the originator's is in the list.
abbrev pub NoThaw : Config → List Entry → Type 0
NoThaw cfg [] = Unit {0}
NoThaw cfg (e ∷ es) = (e.signer ≡ cfg.originator_id → thaws e.op ≡ false) × NoThaw cfg es

apply_op-frozen :
    (o : Bool) (st : FoldState) (signer : NodeId) (op : Op) (i : NodeId)
    → st.frozen ≡ true
    → (o ≡ true → thaws op ≡ false)
    → lookup i st.members ≡ none
    → ((apply_op o st signer op).frozen ≡ true)
      × (lookup i (apply_op o st signer op).members ≡ none)
unfolding apply_op
apply_op-frozen o st signer (Op.freeze true ts) i f t h = ground arith
apply_op-frozen true st signer (Op.freeze false ts) i f t h = absurd (cc (t refl))
apply_op-frozen false st signer (Op.freeze false ts) i f t h = (f, h)
apply_op-frozen o st signer (Op.remove n ts) i f t h = ground (arith, lookup-remove n i st.members)
apply_op-frozen o st signer (Op.set_role n r ts) i f t h =
    ground (arith, lookup-modify n i (λ (m : Member). record m { role = r }) st.members)
apply_op-frozen o st signer (Op.set_invite InviteKind.peer n u ts) i f t h = ground arith
apply_op-frozen o st signer (Op.set_invite InviteKind.controller n u ts) i f t h = ground arith
apply_op-frozen o st signer (Op.set_name n ts) i f t h = ground arith
apply_op-frozen o st signer (Op.add n hn r ip nonce ts) i f t h = ground arith

-- While the roll is frozen and the originator does not thaw it, it stays frozen and nobody who
-- is not a member becomes one, whoever signs.
pub run_frozen :
    (cfg : Config) (st : FoldState) (es : List Entry) (i : NodeId)
    → st.frozen ≡ true
    → NoThaw cfg es
    → lookup i st.members ≡ none
    → ((run cfg st es).frozen ≡ true) × (lookup i (run cfg st es).members ≡ none)
unfolding run step
run_frozen cfg st [] i f t h = (f, h)
run_frozen cfg st (e ∷ es) i f t h =
    let next =
      apply_op-frozen (e.signer == cfg.originator_id) st e.signer e.op i f
        (λ o. t.0 ((==_iff e.signer cfg.originator_id).0 o)) h in
    run_frozen cfg (step cfg st e) es i next.0 t.1 next.1
