-- ===== src/Roster/Build/Founding.antt =====
-- The roster of a network that was just founded: the originator's first two entries, in whatever
-- order the fold takes them (crates/ipn-core/src/roster.rs: `Roster::build`).
use nullgate.Common.{
  ℕ, ◌^◌, ◌≤◌, ◌<◌, ◌≡◌, ◌≢◌, refl, ap, ◌∙◌, true, false, ◌⊎◌, inl, inr, some, [], ◌∷◌, arith,
  ==_refl,
}
use nullgate.Common.Maps.{insert, lookup, modify}
use nullgate.Ip.{Ipv4Addr}
use nullgate.Roster.{
  NodeId, Nonce, Role, InviteKind, Op, op_ts, Entry, Config, Roster, default_roster,
}
use nullgate.Roster.Signing.{Crypto, CryptoLaws, content_id, sign, verify_signature-sign}
use nullgate.Roster.Fold.{FoldState, start, run}
use nullgate.Roster.Addresses.{probe, assign_ips}
use nullgate.Roster.Build.{
  values, finish, authentic, collect, insert_entry, sort_entries, ordered, build,
}
use Prim.Native.String.{String}

either_order :
    (k j : ℕ) (a b : Entry)
    → k ≢ j
    → (values (insert j b (insert k a [])) ≡ a ∷ b ∷ [])
      ⊎ (values (insert j b (insert k a [])) ≡ b ∷ a ∷ [])
unfolding values insert
either_order k j a b ne = ground arith

sorted_pair :
    (c : Crypto) (a b : Entry)
    → (sort_entries c (a ∷ b ∷ []) ≡ a ∷ b ∷ []) ⊎ (sort_entries c (a ∷ b ∷ []) ≡ b ∷ a ∷ [])
unfolding sort_entries insert_entry
sorted_pair c a b = ground arith

swapped : {A B : Type 0} → A ⊎ B → B ⊎ A
swapped (inl a) = inr a
swapped (inr b) = inl b

pub record Founding : Type 0 where
  pub network : NodeId
  pub key : ℕ
  pub device : NodeId
  pub hostname : String
  pub subnet : Ipv4Addr
  pub nonce : Nonce
  pub genesis_ts : ℕ
  pub invite_ts : ℕ

abbrev pub first_device : Founding → Op
first_device f =
    Op.add f.device f.hostname Role.controller (record f.subnet { o3 = 2 }) 0 f.genesis_ts

abbrev pub first_invite : Founding → Op
first_invite f = Op.set_invite InviteKind.peer f.nonce false f.invite_ts

module _ (c : Crypto) where
  abbrev pub founding_cfg : Founding → Config
  founding_cfg f = record {
    network_id = f.network;
    originator_id = c.verifying_key f.key;
    subnet = f.subnet;
  }

  abbrev pub genesis : Founding → Entry
  genesis f = sign c f.network f.key (first_device f)

  abbrev pub invite : Founding → Entry
  invite f = sign c f.network f.key (first_invite f)

  -- The founder's device as the one member, a Controller at the first host address, and the code
  -- of the first invite.
  abbrev pub founded : Founding → Roster
  founded f = record default_roster {
    members =
        (
          f.device,
          record {
            hostname = f.hostname;
            role = Role.controller;
            virtual_ip = record f.subnet { o3 = 2 };
            added_by = c.verifying_key f.key;
          },
        )
        ∷ [];
    peer_invite = some (f.nonce, false);
  }

  abbrev folded : Founding → FoldState
  folded f = record {
    roster = founded f;
    admitted_ts = (f.device, f.genesis_ts) ∷ [];
    consumed = [];
  }

  run_both :
      (f : Founding)
      → (run (founding_cfg f) start (genesis f ∷ invite f ∷ []) ≡ folded f)
        × (run (founding_cfg f) start (invite f ∷ genesis f ∷ []) ≡ folded f)
  unfolding run sign insert
  run_both f = rw (==_refl (c.verifying_key f.key)) (refl, refl)

  finish-folded : (f : Founding) → finish (founding_cfg f) (folded f) ≡ founded f
  unfolding finish assign_ips lookup probe modify
  finish-folded f = rw (==_refl f.device) refl

  authentic-sign :
      (laws : CryptoLaws c) (f : Founding) (op : Op) (now : ℕ)
      → op_ts op ≤ now
      → now < 2 ^ 64
      → authentic c (founding_cfg f) now (sign c f.network f.key op) ≡ true
  unfolding authentic sign
  authentic-sign laws f op now h small =
      ground (arith, verify_signature-sign c laws f.network f.key op)

  collect_both :
      (laws : CryptoLaws c) (f : Founding) (now : ℕ)
      → f.genesis_ts ≤ now
      → f.invite_ts ≤ now
      → now < 2 ^ 64
      → collect c (founding_cfg f) now (genesis f ∷ invite f ∷ []) []
        ≡ insert
            (content_id c (invite f))
            (invite f)
            (insert (content_id c (genesis f)) (genesis f) [])
  unfolding collect
  collect_both laws f now g i small =
      rw
        (
          authentic-sign laws f (first_device f) now g small,
          authentic-sign laws f (first_invite f) now i small,
        )
        refl

  ordered_both :
      (laws : CryptoLaws c) (f : Founding) (now : ℕ)
      → f.genesis_ts ≤ now
      → f.invite_ts ≤ now
      → now < 2 ^ 64
      → content_id c (genesis f) ≢ content_id c (invite f)
      → (ordered c (founding_cfg f) now (genesis f ∷ invite f ∷ []) ≡ genesis f ∷ invite f ∷ [])
        ⊎ (ordered c (founding_cfg f) now (genesis f ∷ invite f ∷ []) ≡ invite f ∷ genesis f ∷ [])
  unfolding ordered
  ordered_both laws f now g i small ne =
      let all = collect_both laws f now g i small in
      elim (either_order (content_id c (genesis f)) (content_id c (invite f)) (genesis f) (invite f)
        ne) [
          | inl e ↦ rw (all, e) (sorted_pair c (genesis f) (invite f))
          | inr e ↦ rw (all, e) (swapped (sorted_pair c (invite f) (genesis f)))
        ]

  -- The first two entries of the originator, with different content ids and times that are not in
  -- the future, make the roster of the founder's device alone.
  pub build-founded :
      (laws : CryptoLaws c) (f : Founding) (now : ℕ)
      → f.genesis_ts ≤ now
      → f.invite_ts ≤ now
      → now < 2 ^ 64
      → content_id c (genesis f) ≢ content_id c (invite f)
      → build c (founding_cfg f) now (genesis f ∷ invite f ∷ []) ≡ founded f
  unfolding build
  build-founded laws f now g i small ne = elim (ordered_both laws f now g i small ne) [
    | inl e ↦ rw e (ap (finish (founding_cfg f)) (run_both f).0 ∙ finish-folded f)
    | inr e ↦ rw e (ap (finish (founding_cfg f)) (run_both f).1 ∙ finish-folded f)
  ]
