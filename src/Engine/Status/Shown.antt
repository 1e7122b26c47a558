-- ===== src/Engine/Status/Shown.antt =====
-- What the status shows of the members, and in which order (crates/ipn-core/src/engine.rs: `status`).
use nullgate.Common.{
  ◌≡◌, ◌↔◌, ◌⊎◌, inl, inr, refl, subst, true, false, some, List, [], ◌∷◌, arith, In, Bool-cases,
}
use nullgate.Common.Results.{ok}
use nullgate.Common.Text.{Text}
use nullgate.Roster.{NodeId, Member}
use nullgate.Relays.Paths.{IpAddr}
use nullgate.Engine.Config.{StoredConfig}
use nullgate.Engine.Session.{Env, Session}
use nullgate.Engine.Names.{Names}
use nullgate.Engine.Status.{
  MemberView, Here, text_le, view_le, insert_view, sort_views, is_orig, is_shown, member_view,
  views, status_of, status,
}

text_le-total : (s t : Text) → text_le s t ≡ false → text_le t s ≡ true
text_le-total [] t h = cc
text_le-total (c ∷ s) [] h = refl
text_le-total (c ∷ s) (d ∷ t) h = ground (arith, text_le-total s t)

view_le-total : (v w : MemberView) → view_le v w ≡ false → view_le w v ≡ true
view_le-total v w h = ground (arith, text_le-total v.node_id w.node_id)

-- Each member is at most the next.
abbrev pub IsRanked : List MemberView → Type 0
IsRanked [] = Unit
IsRanked (v ∷ []) = Unit
IsRanked (v ∷ w ∷ ws) = (view_le v w ≡ true) × IsRanked (w ∷ ws)

insert_view-IsRanked :
    (v : MemberView) (ws : List MemberView) → IsRanked ws → IsRanked (insert_view v ws)
unfolding insert_view
insert_view-IsRanked v [] h = tt
insert_view-IsRanked v (w ∷ []) h = ground (arith, view_le-total v w)
insert_view-IsRanked v (w ∷ x ∷ ws) h =
    ground (arith, view_le-total v w, view_le-total v x, insert_view-IsRanked v (x ∷ ws) h.1)

sort_views-IsRanked : (vs : List MemberView) → IsRanked (sort_views vs)
unfolding sort_views
sort_views-IsRanked [] = tt
sort_views-IsRanked (v ∷ vs) = insert_view-IsRanked v (sort_views vs) (sort_views-IsRanked vs)

In-insert_view : (v w : MemberView) (ws : List MemberView) → In w (insert_view v ws) ↔ In w (v ∷ ws)
unfolding insert_view
In-insert_view v w [] = (λ h. h, λ h. h)
In-insert_view v w (x ∷ ws) = ground (arith, In-insert_view v w ws)

In-sort_views : (w : MemberView) (vs : List MemberView) → In w (sort_views vs) ↔ In w vs
unfolding sort_views
In-sort_views w [] = (λ h. h, λ h. h)
In-sort_views w (v ∷ vs) = ground (arith, In-insert_view v w (sort_views vs), In-sort_views w vs)

module _ {Addr : Type 0} (env : Env Addr) (show : IpAddr → Text) (cfg : StoredConfig) where
  -- The view of a member of the roster that is not left out.
  abbrev pub Shows : Names → Here → Session → List (NodeId × Member) → MemberView → Type 0
  Shows names here s members v =
      (id : NodeId) × (m : Member) × In (id, m) members
      × (is_shown env cfg s id ≡ true)
      × (member_view env show cfg names here s id m ≡ v)

  views-Shows :
      (names : Names) (here : Here) (s : Session) (members : List (NodeId × Member))
      (v : MemberView)
      → In v (views env show cfg names here s members)
      → Shows names here s members v
  unfolding views
  views-Shows names here s [] v h = absurd h
  views-Shows names here s ((id, m) ∷ members) v h = elim (Bool-cases (is_shown env cfg s id)) [
    | inl e ↦ elim (rw e at h) [
      | inl same ↦ (id, m, inl refl, e, same)
      | inr i ↦
          let (j, n, k, shown, same) = views-Shows names here s members v i in
          (j, n, inr k, shown, same)
    ]
    | inr e ↦
        let (j, n, k, shown, same) = views-Shows names here s members v (rw e at h) in
        (j, n, inr k, shown, same)
  ]

  Shows-views :
      (names : Names) (here : Here) (s : Session) (members : List (NodeId × Member)) (id : NodeId)
      (m : Member)
      → In (id, m) members
      → is_shown env cfg s id ≡ true
      → In (member_view env show cfg names here s id m) (views env show cfg names here s members)
  unfolding views
  Shows-views names here s [] id m h shown = absurd h
  Shows-views names here s ((j, n) ∷ members) id m (inl same) shown =
      subst
        (λ (p : NodeId × Member).
          is_shown env cfg s p.0 ≡ true
          → In (member_view env show cfg names here s p.0 p.1)
              (views env show cfg names here s ((j, n) ∷ members)))
        same (λ e. rw e (inl refl)) shown
  Shows-views names here s ((j, n) ∷ members) id m (inr i) shown =
      ground (arith, Shows-views names here s members id m i shown)

  shown_hidden :
      (names : Names) (here : Here) (s : Session) (id : NodeId) (m : Member)
      → is_shown env cfg s id ≡ true
      → (member_view env show cfg names here s id m).hidden ≡ true
      → ((member_view env show cfg names here s id m).is_self ≡ true) ⊎ (is_orig env cfg ≡ true)
  unfolding is_shown member_view
  shown_hidden names here s id m shown hidden = ground arith

  -- On a device in a network the status is given. Its members are ordered by rank, and within a
  -- rank by their ids. They are the views of the members of the roster, without those that are
  -- hidden: such a one is only in the status of that device itself and of one that holds the
  -- originator's key.
  pub status_lem :
      (names : Names) (here : Here) (s : Session)
      → s.config ≡ some cfg
      → let st = status_of env show cfg names here s in
        (status env show names here s ≡ ok st)
        × IsRanked st.members
        × ((v : MemberView) → In v st.members ↔ Shows names here s s.live.roster.members v)
        × ((v : MemberView)
            → In v st.members
            → v.hidden ≡ true
            → (v.is_self ≡ true) ⊎ (is_orig env cfg ≡ true))
  unfolding status status_of
  status_lem names here s e =
      let found = λ (v : MemberView).
        In-sort_views v (views env show cfg names here s s.live.roster.members) in
      (
        simp e refl,
        sort_views-IsRanked (views env show cfg names here s s.live.roster.members),
        λ v. (
          λ h. views-Shows names here s s.live.roster.members v ((found v).0 h),
          λ (id, m, i, shown, same). (found v).1 (
              subst (λ w. In w (views env show cfg names here s s.live.roster.members)) same
                (Shows-views names here s s.live.roster.members id m i shown)),
        ),
        λ v h hidden.
            let (id, m, i, shown, same) =
              views-Shows names here s s.live.roster.members v ((found v).0 h) in
            subst
              (λ (w : MemberView). w.hidden ≡ true → (w.is_self ≡ true) ⊎ (is_orig env cfg ≡ true))
              same (shown_hidden names here s id m shown) hidden,
      )
