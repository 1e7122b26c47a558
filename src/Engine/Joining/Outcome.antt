-- ===== src/Engine/Joining/Outcome.antt =====
-- Joining is all or nothing (crates/ipn-core/src/engine.rs: `join_network`).
use nullgate.Common.{
  ℕ, ◌≡◌, refl, sym, subst, Option, none, some, List, [], ◌∷◌, zero, suc, true, arith, In, inl, inr,
  Bool-cases,
}
use nullgate.Common.Results.{Result, ok, err}
use nullgate.Common.Text.{Text}
use nullgate.Membership.{Doc, build_roster}
use nullgate.Roster.Queries.{is_member}
use nullgate.Network.{Ticket, decode}
use nullgate.Secrets.{Os}
use nullgate.Engine.Config.{StoredConfig, roster_cfg}
use nullgate.Engine.Session.{Env, Net, Session, OpError, namespace, teardown, offline}
use nullgate.Engine.Joining.{
  JoinResponse, provisional, appears, on_response, or_torn_down, join_network,
}

module _ {Addr : Type 0} (env : Env Addr) where
  -- One of the looks at the replica shows this device as a member of the network.
  abbrev pub IsAdmitted : StoredConfig → ℕ → List Doc → Type 0
  IsAdmitted cfg now looks =
      (doc : Doc) × In doc looks
      × (is_member (build_roster env.crypto env.parse_entry (roster_cfg env.hkdf cfg) now doc)
            env.my_id
          ≡ true)

  -- A call that succeeded was approved and has seen this device on the roster; it has the
  -- configuration, with the network's document open. One that failed has left no network.
  abbrev pub AllOrNothing :
      StoredConfig
      → ℕ
      → List Doc
      → Option JoinResponse
      → Session × Result OpError (Unit {0})
      → Type 0
  AllOrNothing cfg now looks read (s, ok u) =
      (read ≡ some JoinResponse.approved)
      × IsAdmitted cfg now looks
      × (s.config ≡ some cfg)
      × (s.live.doc ≡ some (namespace env cfg))
  AllOrNothing cfg now looks read (s, err e) = (s.config ≡ none) × (s.live ≡ offline)

  appears-IsAdmitted :
      (cfg : StoredConfig) (now n : ℕ) (looks : List Doc)
      → appears env cfg now n looks ≡ true
      → IsAdmitted cfg now looks
  unfolding appears
  appears-IsAdmitted cfg now zero looks h = cc
  appears-IsAdmitted cfg now (suc n) [] h = cc
  appears-IsAdmitted cfg now (suc n) (doc ∷ looks) h =
      elim (Bool-cases (
        is_member (build_roster env.crypto env.parse_entry (roster_cfg env.hkdf cfg) now doc)
          env.my_id)) [
            | inl e ↦ (doc, inl refl, e)
            | inr e ↦
                let (later, i, m) = appears-IsAdmitted cfg now n looks (rw e at h) in
                (later, inr i, m)
          ]

  -- What a success of the handshake shows.
  abbrev Lands :
      StoredConfig
      → ℕ
      → List Doc
      → Option JoinResponse
      → Session × Result OpError (Unit {0})
      → Type 0
  Lands cfg now looks read r =
      r.1 ≡ ok tt
      → (read ≡ some JoinResponse.approved)
        × IsAdmitted cfg now looks
        × (r.0.config ≡ some cfg)
        × (r.0.live.doc ≡ some (namespace env cfg))

  torn_down :
      (os : Os) (cfg : StoredConfig) (now : ℕ) (looks : List Doc) (read : Option JoinResponse)
      (r : Session × Result OpError (Unit {0}))
      → Lands cfg now looks read r
      → AllOrNothing cfg now looks read (or_torn_down env os r)
  unfolding teardown
  torn_down os cfg now looks read (s, ok u) h = h refl
  torn_down os cfg now looks read (s, err e) h = (refl, refl)

  on_response-Lands :
      (net : Net) (os : Os) (cfg : StoredConfig) (now : ℕ) (looks : List Doc)
      (read : Option JoinResponse) (s : Session)
      → Lands cfg now looks read (on_response env net os cfg now looks read s)
  unfolding on_response
  on_response-Lands net os cfg now looks none s h = cc
  on_response-Lands net os cfg now looks (some (JoinResponse.denied reason)) s h = cc
  on_response-Lands net os cfg now looks (some JoinResponse.approved) s h =
      elim (Bool-cases (appears env cfg now 30 looks)) [
        | inl e ↦ (refl, appears-IsAdmitted cfg now 30 looks e, ground arith, ground arith)
        | inr e ↦ absurd (ground (arith, e, h))
      ]

  join_network-runs :
      (net : Net) (os : Os) (text : Text) (now : ℕ) (looks : List Doc) (read : Option JoinResponse)
      (s : Session) (t : Ticket Addr)
      → decode env.codec text ≡ ok t
      → s.config ≡ none
      → join_network env net os text now looks read s
        ≡ or_torn_down env os (on_response env net os (provisional env t) now looks read s)
  unfolding join_network
  join_network-runs net os text now looks read s t d n = simp (d, n) refl

  -- When a device without a network calls `join_network`, then whatever the ticket says, the
  -- connection delivers and the disk does: if the call succeeds, the request was approved, the
  -- replica has shown this device as a member of the ticket's network, and the device has the
  -- ticket's configuration and the document of that network open. If it fails with the ticket
  -- readable, the device has no configuration, and nothing is left of what is only kept online;
  -- with an unreadable ticket nothing has changed. A device in a network is refused, and nothing
  -- has changed.
  pub join_network-AllOrNothing :
      (net : Net) (os : Os) (text : Text) (now : ℕ) (looks : List Doc) (read : Option JoinResponse)
      (s : Session)
      → let r = join_network env net os text now looks read s in
        ((t : Ticket Addr)
          → decode env.codec text ≡ ok t
          → (s.config ≡ none → AllOrNothing (provisional env t) now looks read r)
            × ((c : StoredConfig) → s.config ≡ some c → r ≡ (s, err OpError.already_in_network)))
        × ((e : _) → decode env.codec text ≡ err e → r ≡ (s, err (OpError.in_ticket e)))
  unfolding join_network
  join_network-AllOrNothing net os text now looks read s = (
    λ t d. (
      λ n.
          subst (AllOrNothing (provisional env t) now looks read)
            (sym (join_network-runs net os text now looks read s t d n))
            (torn_down os (provisional env t) now looks read
              (on_response env net os (provisional env t) now looks read s)
              (on_response-Lands net os (provisional env t) now looks read s)),
      λ c e. simp (d, e) refl,
    ),
    λ e d. simp d refl,
  )
