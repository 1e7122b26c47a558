-- ===== src/Routes/Delivery.antt =====
-- Packets are routed to the owner of the address, and to no one else (router.rs: `RouteTable`).
use nullgate.Common.{
  ℕ, ◌≡◌, ◌≢◌, ◌↔◌, ◌∙◌, refl, sym, subst, some, List, [], ◌∷◌, arith, ◌==◌, length, ◌≤◌, ◌⊎◌, inl,
  inr, Bool-cases,
}
use mathlib.Core.Option.{some-injective}
use nullgate.Common.HashMap.{get, put, get-put}
use nullgate.Common.Maps.{Map, IdSet, lookup, modify, IsSorted, lookup-Above, modify-IsSorted}
use nullgate.Ip.{Ipv4Addr, ip_eq, ip_eq_iff}
use nullgate.Roster.{NodeId, Member, Entry, Config}
use nullgate.Roster.Signing.{Crypto}
use nullgate.Roster.Fold.{FoldState, run, start}
use nullgate.Roster.Addresses.{
  Slot, assign, assign_ips, sort_slots, slots, settle, probe, first_try,
}
use nullgate.Roster.Build.{build, ordered}
use nullgate.Roster.Build.Unique.{run-IsSorted, build_unique_addresses}
use nullgate.Routes.{ip_key, insert_all, from_roster, route}

assign-IsSorted :
    (subnet : Ipv4Addr) (ss : List Slot) (taken : IdSet) (members : Map Member)
    → IsSorted members
    → IsSorted (assign subnet ss taken members)
unfolding assign
assign-IsSorted subnet [] taken members s = s
assign-IsSorted subnet (slot ∷ ss) taken members s =
    let host = probe 253 taken (first_try slot.host) in
    assign-IsSorted subnet ss (host ∷ taken) (modify slot.id (settle subnet host) members)
      (modify-IsSorted slot.id (settle subnet host) members s)

build-IsSorted :
    (c : Crypto) (cfg : Config) (now : ℕ) (es : List Entry) → IsSorted (build c cfg now es).members
unfolding build assign_ips
build-IsSorted c cfg now es =
    let st : FoldState = run cfg start (ordered c cfg now es) in
    assign-IsSorted cfg.subnet (sort_slots (slots st.admitted_ts st.members)) [] st.members
      (run-IsSorted cfg start (ordered c cfg now es) tt)

-- A route comes from a member, or was there before.
route_sound :
    (ms : Map Member) (acc : List (Ipv4Addr × NodeId)) (ip : Ipv4Addr) (id : NodeId)
    → IsSorted ms
    → get ip (insert_all ms acc) ≡ some id
    → ((m : Member) × (lookup id ms ≡ some m) × (m.virtual_ip ≡ ip)) ⊎ (get ip acc ≡ some id)
unfolding insert_all lookup
route_sound [] acc ip id s e = inr e
route_sound ((i, v) ∷ ms) acc ip id s e =
    elim (route_sound ms (put v.virtual_ip i acc) ip id s.1 e) [
      | inl (m, there, same) ↦ inl (m, ground (arith, there, lookup-Above i id ms s.0), same)
      | inr put_there ↦ elim (Bool-cases (ip_eq v.virtual_ip ip)) [
        | inl hit ↦ inl (
          v,
          ground (arith, put_there, get-put v.virtual_ip ip i acc, hit),
          (ip_eq_iff v.virtual_ip ip).0 hit,
        )
        | inr miss ↦ inr (ground (arith, put_there, get-put v.virtual_ip ip i acc, miss))
      ]
    ]

-- Members with other addresses leave a route alone.
route_kept :
    (ms : Map Member) (acc : List (Ipv4Addr × NodeId)) (ip : Ipv4Addr)
    → IsSorted ms
    → ((j : NodeId) (n : Member) → lookup j ms ≡ some n → n.virtual_ip ≢ ip)
    → get ip (insert_all ms acc) ≡ get ip acc
unfolding insert_all lookup
route_kept [] acc ip s apart = refl
route_kept ((i, v) ∷ ms) acc ip s apart =
    let later : (j : NodeId) (n : Member) → lookup j ms ≡ some n → n.virtual_ip ≢ ip =
      λ j n e. apart j n (ground (arith, e, lookup-Above i j ms s.0)) in
    let other : v.virtual_ip ≢ ip = apart i v (ground arith) in
    route_kept ms (put v.virtual_ip i acc) ip s.1 later
    ∙ ground (arith, get-put v.virtual_ip ip i acc, ip_eq_iff v.virtual_ip ip, other)

route_complete :
    (ms : Map Member) (acc : List (Ipv4Addr × NodeId)) (id : NodeId) (m : Member)
    → IsSorted ms
    → ((j : NodeId) (n : Member) → lookup j ms ≡ some n → id ≢ j → n.virtual_ip ≢ m.virtual_ip)
    → lookup id ms ≡ some m
    → get m.virtual_ip (insert_all ms acc) ≡ some id
unfolding insert_all lookup
route_complete [] acc id m s apart e = absurd (cc)
route_complete ((i, v) ∷ ms) acc id m s apart e = elim (Bool-cases (i == id)) [
  | inl here ↦
      let same : i ≡ id = ground arith in
      let own : v ≡ m = some-injective v m (rw here at e) in
      let last : (j : NodeId) (n : Member) → lookup j ms ≡ some n → n.virtual_ip ≢ m.virtual_ip =
        λ j n found.
          apart j n (ground (arith, found, lookup-Above i j ms s.0))
            (λ eq. ground (arith, found, eq, same, lookup-Above i j ms s.0)) in
      route_kept ms (put v.virtual_ip i acc) m.virtual_ip s.1 last
      ∙ rw (← own) (
          ground (
            arith,
            get-put v.virtual_ip v.virtual_ip i acc,
            same,
            ip_eq_iff v.virtual_ip v.virtual_ip,
          ))
  | inr later ↦
      route_complete ms (put v.virtual_ip i acc) id m s.1
        (λ j n found. apart j n (ground (arith, found, lookup-Above i j ms s.0))) (rw later at e)
]

-- In a roster of at most 253 members that was built from any entries, an address is routed to a
-- node exactly when the node is a member and the address is its own.
pub route-from_roster :
    (c : Crypto) (cfg : Config) (now : ℕ) (es : List Entry) (ip : Ipv4Addr) (id : NodeId)
    → length (build c cfg now es).members ≤ 253
    → (route (from_roster (build c cfg now es)) ip ≡ some id)
      ↔ ((m : Member) × (lookup id (build c cfg now es).members ≡ some m) × (m.virtual_ip ≡ ip))
unfolding route from_roster get
route-from_roster c cfg now es ip id few =
    let sorted = build-IsSorted c cfg now es in
    let ms : Map Member = (build c cfg now es).members in
    (
      (λ e. elim (route_sound ms [] ip id sorted e) [
        | inl owner ↦ owner
        | inr nowhere ↦ absurd (cc)
      ]),
      λ (m, there, same).
          subst (λ (a : Ipv4Addr). get a (insert_all ms []) ≡ some id) same
            (route_complete ms [] id m sorted
              (λ j n found ne eq.
                (build_unique_addresses c cfg now es id j m n few there found).1 ne (sym eq))
              there),
    )
