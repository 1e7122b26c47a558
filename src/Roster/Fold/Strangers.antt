-- ===== src/Roster/Fold/Strangers.antt =====
-- The entries of those who are not members (roster.rs: the fold of `Roster::build`).
use nullgate.Common.{
  ◌≡◌, ◌≢◌, ◌∙◌, refl, sym, ap, Bool, false, not, none, List, [], ◌∷◌, arith, ◌==◌, select,
  Bool-cases, ==_iff, inl, inr,
}
use nullgate.Common.Maps.{lookup, lookup-insert, lookup-remove, lookup-modify}
use nullgate.Roster.{NodeId, InviteKind, Op, Entry, Config, Member}
use nullgate.Roster.Fold.{FoldState, is_controller, apply_op, step, run}
use nullgate.Roster.Fold.Authority.{admits, step_unauthorised}

apply_op-absent :
    (is_orig : Bool) (st : FoldState) (signer : NodeId) (op : Op) (s : NodeId)
    → lookup s st.members ≡ none
    → admits op s ≡ false
    → lookup s (apply_op is_orig st signer op).members ≡ none
unfolding apply_op
apply_op-absent o st signer (Op.freeze b ts) s h a = ground arith
apply_op-absent o st signer (Op.remove n ts) s h a = ground (arith, lookup-remove n s st.members)
apply_op-absent o st signer (Op.set_role n r ts) s h a =
    ground (arith, lookup-modify n s (λ (m : Member). record m { role = r }) st.members)
apply_op-absent o st signer (Op.set_invite InviteKind.peer n u ts) s h a = ground arith
apply_op-absent o st signer (Op.set_invite InviteKind.controller n u ts) s h a = ground arith
apply_op-absent o st signer (Op.set_name n ts) s h a = ground arith
apply_op-absent o st signer (Op.add n hn r ip nonce ts) s h a = ground (
  arith,
  lookup-insert n s (record { hostname = hn; role = r; virtual_ip = ip; added_by = signer })
      st.members,
)

-- No entry of the list that another key signs admits `s`.
abbrev pub NeverAdmitted : NodeId → List Entry → Type 0
NeverAdmitted s [] = Unit {0}
NeverAdmitted s (e ∷ es) = (e.signer ≢ s → admits e.op s ≡ false) × NeverAdmitted s es

module _ (cfg : Config) (s : NodeId) (outsider : s ≢ cfg.originator_id) where
  step-absent :
      (st : FoldState) (e : Entry)
      → lookup s st.members ≡ none
      → admits e.op s ≡ false
      → lookup s (step cfg st e).members ≡ none
  unfolding step
  step-absent st e h a = apply_op-absent (e.signer == cfg.originator_id) st e.signer e.op s h a

  step-ignored :
      (st : FoldState) (e : Entry) → lookup s st.members ≡ none → e.signer ≡ s → step cfg st e ≡ st
  unfolding is_controller
  step-ignored st e h signed =
      step_unauthorised cfg st e (λ o. outsider (sym signed ∙ o))
        (ap (λ k. is_controller st k) signed ∙ rw (h, is_controller))

  -- A key that is not a member nor the originator, and that nobody else admits again, such as
  -- one that was removed, has no influence: the fold comes out the same without the entries
  -- that it signed, also where these would admit it.
  pub run_without_stranger :
      (st : FoldState) (es : List Entry)
      → lookup s st.members ≡ none
      → NeverAdmitted s es
      → run cfg st es ≡ run cfg st (select (λ e. not (e.signer == s)) es)
  unfolding run
  run_without_stranger st [] h n = refl
  run_without_stranger st (e ∷ es) h n = elim (Bool-cases (e.signer == s)) [
    | inl own ↦
        rw (own, step-ignored st e h ((==_iff e.signer s).0 own)) (run_without_stranger st es h n.1)
    | inr foreign ↦
        rw foreign
          (run_without_stranger (step cfg st e) es (step-absent st e h (n.0 (ground arith))) n.1)
  ]
