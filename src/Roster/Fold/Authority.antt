-- ===== src/Roster/Fold/Authority.antt =====
-- Who may change what (roster.rs: the role rules in `Roster::build`).
use nullgate.Common.{ℕ, ◌≤◌, ◌≡◌, ◌≢◌, refl, Bool, true, false, Option, none, some, arith, ◌==◌}
use nullgate.Common.Maps.{lookup, lookup-insert, lookup-remove}
use nullgate.Ip.{Ipv4Addr}
use nullgate.Roster.{NodeId, Nonce, Role, InviteKind, Op, Entry, Config, Member}
use nullgate.Roster.Fold.{
  FoldState, Gate, cite, invite_for, is_controller, admit, apply_op, apply_add, apply_remove, step,
}
use Prim.Native.String.{String}

-- The originator's own entries aside, an op needs a Controller as its signer.
apply_op-refused :
    (st : FoldState) (signer : NodeId) (op : Op)
    → is_controller st signer ≡ false
    → apply_op false st signer op ≡ st
unfolding apply_op
apply_op-refused st signer (Op.freeze b ts) h = refl
apply_op-refused st signer (Op.remove n ts) h = ground arith
apply_op-refused st signer (Op.set_role n r ts) h = refl
apply_op-refused st signer (Op.set_invite InviteKind.peer n s ts) h = ground arith
apply_op-refused st signer (Op.set_invite InviteKind.controller n s ts) h = refl
apply_op-refused st signer (Op.set_name n ts) h = ground arith
apply_op-refused st signer (Op.add n hn r ip nonce ts) h = ground arith

-- An entry whose signer is neither the originator nor, at that point of the fold, a Controller
-- changes nothing, whatever its op.
pub step_unauthorised :
    (cfg : Config) (st : FoldState) (e : Entry)
    → e.signer ≢ cfg.originator_id
    → is_controller st e.signer ≡ false
    → step cfg st e ≡ st
unfolding step
step_unauthorised cfg st e ne h = ground (arith, apply_op-refused st e.signer e.op h)

-- The member that an op re-admits.
abbrev pub admits : Op → NodeId → Bool
admits (Op.add n hn r ip nonce ts) id = n == id
admits _ id = false

-- What a Controller leaves alone.
record Limits (st st' : FoldState) (op : Op) : Type 0 where
  pub frozen : st'.frozen ≡ st.frozen
  pub controller_invite : st'.controller_invite ≡ st.controller_invite
  pub others :
      (i : NodeId) (m : Member)
      → lookup i st.members ≡ some m
      → m.role ≡ Role.controller
      → admits op i ≡ false
      → lookup i st'.members ≡ some m

apply_op-Limits :
    (st : FoldState) (signer : NodeId) (op : Op) → Limits st (apply_op false st signer op) op
unfolding apply_op
apply_op-Limits st signer (Op.freeze b ts) = record {
  frozen = refl;
  controller_invite = refl;
  others = λ i m e r a. e;
}
apply_op-Limits st signer (Op.remove n ts) = record {
  frozen = ground arith;
  controller_invite = ground arith;
  others = λ i m e r a. ground (arith, lookup-remove n i st.members);
}
apply_op-Limits st signer (Op.set_role n r ts) = record {
  frozen = refl;
  controller_invite = refl;
  others = λ i m e r a. e;
}
apply_op-Limits st signer (Op.set_invite InviteKind.peer n s ts) = record {
  frozen = ground arith;
  controller_invite = ground arith;
  others = λ i m e r a. ground arith;
}
apply_op-Limits st signer (Op.set_invite InviteKind.controller n s ts) = record {
  frozen = refl;
  controller_invite = refl;
  others = λ i m e r a. e;
}
apply_op-Limits st signer (Op.set_name n ts) = record {
  frozen = ground arith;
  controller_invite = ground arith;
  others = λ i m e r a. ground arith;
}
apply_op-Limits st signer (Op.add n hn r ip nonce ts) = record {
  frozen = ground arith;
  controller_invite = ground arith;
  others = λ i m e q a. ground (
    arith,
    lookup-insert n i (record { hostname = hn; role = r; virtual_ip = ip; added_by = signer })
        st.members,
  );
}

-- No entry but the originator's freezes or thaws the roll or sets a Controller invite. None
-- removes or changes a Controller either, except an `Add` of that very member.
pub step_limits :
    (cfg : Config) (st : FoldState) (e : Entry)
    → e.signer ≢ cfg.originator_id
    → let st' = step cfg st e in
      (st'.frozen ≡ st.frozen)
      × (st'.controller_invite ≡ st.controller_invite)
      × ((i : NodeId) (m : Member)
          → lookup i st.members ≡ some m
          → m.role ≡ Role.controller
          → admits e.op i ≡ false
          → lookup i st'.members ≡ some m)
unfolding step
step_limits cfg st e ne =
    let l = apply_op-Limits st e.signer e.op in
    let other : (e.signer == cfg.originator_id) ≡ false = ground arith in
    rw other (l.frozen, l.controller_invite, l.others)

-- An `Add` that a Controller signs and that passes the invite gate.
pub apply_add-accepted :
    (st : FoldState) (signer node : NodeId) (host : String) (role : Role) (ip : Ipv4Addr)
    (nonce : Nonce) (ts t : ℕ) (spend : Option Nonce)
    → is_controller st signer ≡ true
    → lookup signer st.admitted_ts ≡ some t
    → t ≤ ts
    → st.frozen ≡ false
    → cite (invite_for role st.roster) st.consumed nonce ≡ Gate.accepted spend
    → apply_add false st signer node host role ip nonce ts
      ≡ admit st node
          (record { hostname = host; role = role; virtual_ip = ip; added_by = signer })
          ts
          (Gate.accepted spend)
unfolding apply_add is_controller
apply_add-accepted st signer node host role ip nonce ts t spend con adm le fr gate = ground arith

-- The exception is real. A Controller who cites the current reusable Peer invite in an `Add` of
-- another Controller makes that one a Peer, although `SetRole` is the originator's, and a
-- `Remove` by the same signer then evicts it, although a Controller may remove Peers only.
pub readmission_evicts :
    (cfg : Config) (st : FoldState) (signer target : NodeId) (m : Member) (host : String)
    (ip : Ipv4Addr) (nonce : Nonce) (ts t later : ℕ) (e f : Entry)
    → signer ≢ cfg.originator_id
    → signer ≢ target
    → is_controller st signer ≡ true
    → lookup signer st.admitted_ts ≡ some t
    → t ≤ ts
    → st.frozen ≡ false
    → st.peer_invite ≡ some (nonce, false)
    → lookup target st.members ≡ some m
    → m.role ≡ Role.controller
    → e.signer ≡ signer
    → e.op ≡ Op.add target host Role.peer ip nonce ts
    → f.signer ≡ signer
    → f.op ≡ Op.remove target later
    → let st' = step cfg st e in
      ((m' : Member) × (lookup target st'.members ≡ some m') × (m'.role ≡ Role.peer))
      × (lookup target (step cfg st' f).members ≡ none)
unfolding step apply_op is_controller
readmission_evicts cfg st signer target m host ip nonce ts t later e f ne apart con adm le fr inv
      mem r se eop sf fop =
    let m' : Member = record {
      hostname = host;
      role = Role.peer;
      virtual_ip = ip;
      added_by = signer;
    } in
    let st' = admit st target m' ts (Gate.accepted none) in
    let other : (signer == cfg.originator_id) ≡ false = ground arith in
    let first : step cfg st e ≡ st' =
      rw (se, eop, other)
        (apply_add-accepted st signer target host Role.peer ip nonce ts t none con adm le fr
          (rw inv (unfold cite in ground arith))) in
    let hit : lookup target st'.members ≡ some m' =
      unfold admit in ground (arith, lookup-insert target target m' st.members) in
    let still : is_controller st' signer ≡ true =
      unfold admit in ground (arith, lookup-insert target signer m' st.members) in
    let gone : lookup target (apply_remove false st' signer target).members ≡ none =
      unfold apply_remove in ground (arith, lookup-remove target target st'.members) in
    rw first ((m', hit, refl), rw (sf, fop, other) gone)
