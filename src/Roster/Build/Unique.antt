-- ===== src/Roster/Build/Unique.antt =====
-- The addresses of a built roster (roster.rs: `Roster::build`).
use nullgate.Common.{
  ℕ, ◌≤◌, ◌≡◌, ◌≢◌, ◌∙◌, refl, sym, ap, Bool, Option, none, some, List, [], ◌∷◌, arith, ◌==◌,
  length,
}
use nullgate.Common.Maps.{
  Map, IdSet, lookup, IsSorted, modify, insert-IsSorted, remove-IsSorted, modify-IsSorted,
  length-modify,
}
use nullgate.Ip.{Ipv4Addr}
use nullgate.Roster.{NodeId, InviteKind, Op, Entry, Config, Member}
use nullgate.Roster.Signing.{Crypto}
use nullgate.Roster.Fold.{FoldState, start, apply_op, step, run}
use nullgate.Roster.Addresses.{
  Slot, slots, sort_slots, first_try, probe, in_subnet, settle, assign, assign_ips,
}
use nullgate.Roster.Addresses.Place.{place, settled, lookup-assign_ips}
use nullgate.Roster.Addresses.Probe.{InRange}
use nullgate.Roster.Addresses.Unique.{lookup-assign_ips_settled, assign_ips_unique}
use nullgate.Roster.Build.{ordered, build}
use mathlib.Core.Option.{some-injective}

apply_op-IsSorted :
    (o : Bool) (st : FoldState) (signer : NodeId) (op : Op)
    → IsSorted st.members
    → IsSorted (apply_op o st signer op).members
unfolding apply_op
apply_op-IsSorted o st signer (Op.freeze b ts) s = ground arith
apply_op-IsSorted o st signer (Op.remove n ts) s = ground (arith, remove-IsSorted n st.members s)
apply_op-IsSorted o st signer (Op.set_role n r ts) s =
    ground (arith, modify-IsSorted n (λ (m : Member). record m { role = r }) st.members s)
apply_op-IsSorted o st signer (Op.set_invite InviteKind.peer n u ts) s = ground arith
apply_op-IsSorted o st signer (Op.set_invite InviteKind.controller n u ts) s = ground arith
apply_op-IsSorted o st signer (Op.set_name n ts) s = ground arith
apply_op-IsSorted o st signer (Op.add n hn r ip nonce ts) s = ground (
  arith,
  insert-IsSorted n (record { hostname = hn; role = r; virtual_ip = ip; added_by = signer })
      st.members s,
)

pub run-IsSorted :
    (cfg : Config) (st : FoldState) (es : List Entry)
    → IsSorted st.members
    → IsSorted (run cfg st es).members
unfolding run step
run-IsSorted cfg st [] s = s
run-IsSorted cfg st (e ∷ es) s =
    run-IsSorted cfg (step cfg st e) es
      (apply_op-IsSorted (e.signer == cfg.originator_id) st e.signer e.op s)

length-assign :
    (subnet : Ipv4Addr) (ss : List Slot) (taken : IdSet) (members : Map Member)
    → length (assign subnet ss taken members) ≡ length members
unfolding assign
length-assign subnet [] taken members = refl
length-assign subnet (s ∷ ss) taken members =
    let host = probe 253 taken (first_try s.host) in
    length-assign subnet ss (host ∷ taken) (modify s.id (settle subnet host) members)
    ∙ length-modify s.id (settle subnet host) members

-- A member after the assignment was one before.
settled-some :
    (subnet : Ipv4Addr) (h : Option ℕ) (m : Option Member) (m' : Member)
    → settled subnet h m ≡ some m'
    → (m₀ : Member) × (m ≡ some m₀)
settled-some subnet none m m' e = (m', e)
settled-some subnet (some h) none m' e = absurd (cc)
settled-some subnet (some h) (some m₀) m' e = (m₀, refl)

length-assign_ips :
    (members : Map Member) (admitted : Map ℕ) (subnet : Ipv4Addr)
    → length (assign_ips members admitted subnet) ≡ length members
unfolding assign_ips
length-assign_ips members admitted subnet =
    length-assign subnet (sort_slots (slots admitted members)) [] members

some_before :
    (subnet : Ipv4Addr) (admitted : Map ℕ) (members : Map Member) (i : NodeId) (m : Member)
    → IsSorted members
    → lookup i (assign_ips members admitted subnet) ≡ some m
    → (m₀ : Member) × (lookup i members ≡ some m₀)
some_before subnet admitted members i m s e =
    settled-some subnet (lookup i (place (sort_slots (slots admitted members)) []))
      (lookup i members) m (sym (lookup-assign_ips subnet admitted members i s) ∙ e)

-- An address of the subnet that a host may have.
abbrev pub IsHostOf : Ipv4Addr → Ipv4Addr → Type 0
IsHostOf subnet a = (a ≡ in_subnet subnet a.o3) × InRange a.o3

assign_ips-apart :
    (subnet : Ipv4Addr) (admitted : Map ℕ) (members : Map Member) (i j : NodeId) (m n : Member)
    → IsSorted members
    → length members ≤ 253
    → lookup i (assign_ips members admitted subnet) ≡ some m
    → lookup j (assign_ips members admitted subnet) ≡ some n
    → IsHostOf subnet m.virtual_ip × (i ≢ j → m.virtual_ip ≢ n.virtual_ip)
assign_ips-apart subnet admitted members i j m n s few e f =
    let (m₀, em) = some_before subnet admitted members i m s e in
    let (n₀, en) = some_before subnet admitted members j n s f in
    let (h, here, range) = lookup-assign_ips_settled subnet admitted members s few i m₀ em in
    let same : settle subnet h m₀ ≡ m = some-injective _ _ (sym here ∙ e) in
    (
      rw (← same) (refl, range),
      λ ne.
          let (m', n', em', en', apart) =
            assign_ips_unique subnet admitted members s few i j m₀ n₀ em en ne in
          let left : m' ≡ m = some-injective _ _ (sym em' ∙ e) in
          let right : n' ≡ n = some-injective _ _ (sym en' ∙ f) in
          λ eq. apart (
            ap (λ (x : Member). x.virtual_ip) left
            ∙ eq
            ∙ sym (ap (λ (x : Member). x.virtual_ip) right)),
    )

-- In a roster of at most 253 members, every member has an address of the subnet with its last
-- octet in 2..=254, and no two members have the same one, whatever the entries are.
pub build_unique_addresses :
    (c : Crypto) (cfg : Config) (now : ℕ) (es : List Entry) (i j : NodeId) (m n : Member)
    → length (build c cfg now es).members ≤ 253
    → lookup i (build c cfg now es).members ≡ some m
    → lookup j (build c cfg now es).members ≡ some n
    → IsHostOf cfg.subnet m.virtual_ip × (i ≢ j → m.virtual_ip ≢ n.virtual_ip)
unfolding build
build_unique_addresses c cfg now es i j m n few e f =
    let st : FoldState = run cfg start (ordered c cfg now es) in
    assign_ips-apart cfg.subnet st.admitted_ts st.members i j m n
      (run-IsSorted cfg start (ordered c cfg now es) tt)
      (omega (arith, length-assign_ips st.members st.admitted_ts cfg.subnet)) e f
