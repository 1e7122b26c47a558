-- ===== src/Engine/Tick/Members.antt =====
-- What a maintenance pass guarantees of the members (crates/ipn-core/src/engine.rs: `tick`).
use nullgate.Common.{
  ℕ, ◌≡◌, ◌≢◌, ◌↔◌, refl, ap, sym, subst, ◌∙◌, Bool, true, false, not, ◌&&◌, ◌||◌, Option, none,
  some, List, [], ◌∷◌, arith, ◌==◌, if◌then◌else◌, select, Bool-cases, inl, inr,
}
use nullgate.Common.HashMap.{nat_key, get}
use nullgate.Common.Maps.{contains, lookup}
use nullgate.Common.Sets.{contains-select}
use nullgate.Roster.{NodeId, Member, Roster}
use nullgate.Roster.Addresses.Place.{is_some}
use nullgate.Roster.Queries.{is_member}
use nullgate.Common.Results.{ok}
use nullgate.Secrets.{Os, load, delete_secret}
use nullgate.Secrets.Kept.{load-delete}
use nullgate.Engine.Backoff.{Backoff, is_due, dial_backoff_filter}
use nullgate.Engine.Connections.{Conns, Connection}
use nullgate.Engine.Config.{
  StoredConfig, SecretName, network_secret, originator_secret, load_config, load_file_bytes,
  name_key,
}
use nullgate.Engine.Session.{Env, Session, Live, offline, teardown}
use nullgate.Engine.Operations.{ids}
use nullgate.Engine.Tick.{
  Outcome, evicted, ran, skipped, kept, keys, missing, plan, stamped, with_roster, enforce,
  current_roster, tick, swept, consumed, rebuild,
}

get-kept :
    (roster : Roster) (id : NodeId) (conns : Conns)
    → get id (kept roster conns) ≡ (if is_member roster id then get id conns else none)
unfolding get kept
get-kept roster id [] = ground arith
get-kept roster id ((j, c) ∷ conns) = ground (arith, get-kept roster id conns)

contains-keys : (id : NodeId) (conns : Conns) → contains id (keys conns) ≡ is_some (get id conns)
unfolding get
contains-keys id [] = refl
contains-keys id ((j, c) ∷ conns) = ground (arith, contains-keys id conns)

contains-ids :
    (id : NodeId) (members : List (NodeId × Member))
    → contains id (ids members) ≡ is_some (lookup id members)
unfolding lookup
contains-ids id [] = refl
contains-ids id ((j, m) ∷ members) = ground (arith, contains-ids id members)

contains-dialed :
    (my_id id : NodeId) (conns : Conns) (members : List NodeId) (backoff : Backoff) (now : ℕ)
    → contains id (dial_backoff_filter (missing my_id conns members) backoff now) ≡ (
        (contains id members && (not (id == my_id) && not (is_some (get id conns))))
        && is_due backoff now id)
unfolding dial_backoff_filter missing
contains-dialed my_id id conns members backoff now =
    rw
      (
        contains-select (is_due backoff now) id
            (select (λ j. not (j == my_id) && not (contains j (keys conns))) members),
        contains-select (λ j. not (j == my_id) && not (contains j (keys conns))) id members,
        contains-keys id conns,
      )
      refl

all_four :
    (member due : Bool) (id my_id : NodeId) (conn : Option Connection)
    → (((member && (not (id == my_id) && not (is_some conn))) && due) ≡ true)
      ↔ ((member ≡ true) × (id ≢ my_id) × (conn ≡ none) × (due ≡ true))
all_four member due id my_id conn = ground arith

dialed_iff :
    (my_id id : NodeId) (conns : Conns) (roster : Roster) (backoff : Backoff) (now : ℕ)
    → (contains id (dial_backoff_filter (missing my_id conns (ids roster.members)) backoff now)
        ≡ true)
      ↔ ((is_member roster id ≡ true)
          × (id ≢ my_id)
          × (get id conns ≡ none)
          × (is_due backoff now id ≡ true))
unfolding is_member
dialed_iff my_id id conns roster backoff now =
    rw
      (
        contains-dialed my_id id conns (ids roster.members) backoff now,
        contains-ids id roster.members,
      )
      (all_four (is_some (lookup id roster.members)) (is_due backoff now id) id my_id
        (get id conns))

module _ {Addr : Type 0} (env : Env Addr) where
  -- The network's configuration and its secrets are not found on the disk any more, whatever the
  -- operating system does later.
  abbrev pub IsForgotten : Session → Type 0
  IsForgotten s =
      (later : Os)
      → (load_config env.hex env.config_cbor env.platform later s.disk ≡ ok none)
        × ((name : SecretName) → load env.hex env.platform later name s.disk.secrets ≡ ok none)

  -- After a pass that ran: the roster is the current one, the connections are those of its members,
  -- and those dialed are its members without a connection, apart from this device, whose backoff
  -- allows it.
  abbrev pub Enforced : Os → ℕ → Roster → Session → Outcome × Session → Type 0
  Enforced os now roster before (skipped, s) = Unit
  Enforced os now roster before (evicted, s) =
      (s.live ≡ offline) × (s.config ≡ none) × (os.removes ≡ true → IsForgotten s)
  Enforced os now roster before (ran work, s) =
      (s.live.roster ≡ roster)
      × (s.config ≡ before.config)
      × ((id : NodeId)
          → get id s.live.conns ≡ (if is_member roster id then get id before.live.conns else none))
      × ((id : NodeId)
          → (contains id work.to_dial ≡ true) ↔ (
              (is_member roster id ≡ true)
              × (id ≢ env.my_id)
              × (get id s.live.conns ≡ none)
              × (is_due before.live.dial_backoff now id ≡ true)))

  ran-Enforced :
      (os : Os) (now : ℕ) (rebuilt force : Bool) (roster : Roster) (latched : Live) (s : Session)
      → latched.conns ≡ s.live.conns
      → latched.dial_backoff ≡ s.live.dial_backoff
      → let next = record s { live = enforce env rebuilt roster latched } in
        Enforced os now roster s
          (ran (plan env now force next), stamped env now (plan env now force next) next)
  unfolding enforce plan
  ran-Enforced os now rebuilt force roster latched s c b = (
    refl,
    refl,
    λ id.
        get-kept roster id latched.conns
        ∙ ap (λ conns. if is_member roster id then get id conns else none) c,
    λ id.
        subst
          (λ backoff.
            (contains id (
                dial_backoff_filter
                  (missing env.my_id (kept roster latched.conns) (ids roster.members))
                  latched.dial_backoff now)
              ≡ true)
            ↔ ((is_member roster id ≡ true)
                × (id ≢ env.my_id)
                × (get id (kept roster latched.conns) ≡ none)
                × (is_due backoff now id ≡ true)))
          b (dialed_iff env.my_id id (kept roster latched.conns) roster latched.dial_backoff now),
  )

  module _ (os : Os) (now : ℕ) (rebuilt force : Bool) (roster : Roster) (s : Session) where
    abbrev latched_live : Live
    latched_live = record s.live { was_member = is_member roster env.my_id || s.live.was_member }

    abbrev next : Session
    next = record s { live = enforce env rebuilt roster latched_live }

    abbrev has_run : Outcome × Session
    has_run = (ran (plan env now force next), stamped env now (plan env now force next) next)

    runs_if_member :
        is_member roster env.my_id ≡ true → with_roster env os now rebuilt force roster s ≡ has_run
    unfolding with_roster
    runs_if_member m = rw m refl

    runs_if_new :
        is_member roster env.my_id ≡ false
        → s.live.was_member ≡ false
        → with_roster env os now rebuilt force roster s ≡ has_run
    unfolding with_roster
    runs_if_new m w = simp (m, w) refl

    evicted_if_removed :
        is_member roster env.my_id ≡ false
        → s.live.was_member ≡ true
        → with_roster env os now rebuilt force roster s ≡ (evicted, (teardown env os s).0)
    unfolding with_roster
    evicted_if_removed m w = simp (m, w) refl

    -- What `with_roster` does, and exactly when it evicts.
    abbrev Settles : Outcome × Session → Type 0
    Settles r =
        Enforced os now roster s r
        × (r.0 ≢ skipped)
        × ((r.0 ≡ evicted) ↔ ((is_member roster env.my_id ≡ false) × (s.live.was_member ≡ true)))

    forgets :
        os.removes ≡ true
        → (later : Os) (name : SecretName)
        → load env.hex env.platform later name (teardown env os s).0.disk.secrets ≡ ok none
    unfolding teardown
    forgets r later network_secret =
        load-delete env.hex env.platform os originator_secret 0
          (delete_secret env.platform os network_secret s.disk.secrets) r later network_secret
        ∙ load-delete env.hex env.platform os network_secret 0 s.disk.secrets r later network_secret
    forgets r later originator_secret =
        load-delete env.hex env.platform os originator_secret 0
          (delete_secret env.platform os network_secret s.disk.secrets) r later originator_secret

    evicted-Settles :
        is_member roster env.my_id ≡ false
        → s.live.was_member ≡ true
        → Settles (evicted, (teardown env os s).0)
    unfolding teardown load_config load_file_bytes
    evicted-Settles m w = (
      (refl, refl, λ r later. (rw r refl, forgets r later)),
      λ e. ground arith,
      (λ e. (m, w), λ h. refl),
    )

    has_run-Settles :
        ((is_member roster env.my_id ≡ false) → s.live.was_member ≡ true → ⊥) → Settles has_run
    has_run-Settles stays = (
      ran-Enforced os now rebuilt force roster latched_live s refl refl,
      λ e. ground arith,
      (λ e. ground arith, λ h. absurd (stays h.0 h.1)),
    )

    with_roster-Settles : Settles (with_roster env os now rebuilt force roster s)
    with_roster-Settles = elim (Bool-cases (is_member roster env.my_id)) [
      | inl m ↦
          subst Settles (sym (runs_if_member m)) (has_run-Settles (λ f w. ground (arith, m, f)))
      | inr m ↦ elim (Bool-cases s.live.was_member) [
        | inl w ↦ subst Settles (sym (evicted_if_removed m w)) (evicted-Settles m w)
        | inr w ↦
            subst Settles (sym (runs_if_new m w)) (has_run-Settles (λ f t. ground (arith, w, t)))
      ]
    ]

  tick-runs :
      (os : Os) (now : ℕ) (s : Session) (ns : ℕ) (cfg : StoredConfig)
      → s.live.doc ≡ some ns
      → s.config ≡ some cfg
      → tick env os now s
        ≡ with_roster env os now
            (rebuild now s)
            s.live.force_recover
            (current_roster env now ns cfg s)
            (consumed now (swept now s))
  unfolding tick
  tick-runs os now s ns cfg d c = simp (d, c) refl

  -- In a device that is online in a network, a pass takes the roster that its replica gives, or the
  -- one it has when nothing calls for a new fold. If the device is missing from it and has been in
  -- it before, and only then, the device leaves the network: nothing is left of what is only kept
  -- online, there is no configuration in memory, and when files can be removed, neither the
  -- configuration nor the secrets are found on the disk later. Otherwise it has this roster
  -- afterwards, exactly the connections to its members, and dials exactly the members without a
  -- connection whose backoff has run out, and never itself.
  pub tick_enforces :
      (os : Os) (now : ℕ) (s : Session) (ns : ℕ) (cfg : StoredConfig)
      → s.live.doc ≡ some ns
      → s.config ≡ some cfg
      → let roster = current_roster env now ns cfg s in
        let r = tick env os now s in
        Enforced os now roster s r
        × (r.0 ≢ skipped)
        × ((r.0 ≡ evicted) ↔ ((is_member roster env.my_id ≡ false) × (s.live.was_member ≡ true)))
  tick_enforces os now s ns cfg d c =
      let roster = current_roster env now ns cfg s in
      subst
        (λ (r : Outcome × Session).
          Enforced os now roster s r
          × (r.0 ≢ skipped)
          × ((r.0 ≡ evicted) ↔ ((is_member roster env.my_id ≡ false) × (s.live.was_member ≡ true))))
        (sym (tick-runs os now s ns cfg d c))
        (with_roster-Settles os now (rebuild now s) s.live.force_recover roster
          (consumed now (swept now s)))
