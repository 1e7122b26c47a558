-- ===== src/Daemon/Suspend.antt =====
-- Sleeping and waking leaves the device where its user had it (crates/ipn-daemon/src/power.rs).
use nullgate.Common.{ℕ, zero, suc, ◌≡◌, refl, ap, sym, subst, ◌∙◌, Bool, true, false, ◌&&◌, some}
use nullgate.Common.HashMap.{nat_key}
use nullgate.Roster.Addresses.Place.{is_some}
use nullgate.Secrets.{Os}
use nullgate.Engine.Config.{StoredConfig}
use nullgate.Engine.Session.{Env, Net, Session, offline, namespace}
use nullgate.Engine.Operations.Leaving.{Works}
use nullgate.Daemon.{PowerHandler, is_online, on_sleep, on_wake}

and_false : (b : Bool) → (b && false) ≡ false
and_false true = refl
and_false false = refl

module _ {Addr : Type 0} (env : Env Addr) (net : Net) (os : Os) where
  -- So many times the system goes to sleep, with no full wake between.
  unfoldable pub sleeps : ℕ → PowerHandler → PowerHandler
  sleeps zero h = h
  sleeps (suc n) h = sleeps n (on_sleep env net os h)

  sleeps-stay : (n : ℕ) (h : PowerHandler) → is_online h.engine ≡ false → sleeps n h ≡ h
  unfolding sleeps on_sleep
  sleeps-stay zero h off = refl
  sleeps-stay (suc n) h off = rw off (sleeps-stay n h off)

  abbrev suspended : Session → PowerHandler
  suspended s = record { engine = record s { live = offline }; resume_on_wake = true }

  first_sleep :
      (n : ℕ) (h : PowerHandler) → is_online h.engine ≡ true → sleeps (suc n) h ≡ suspended h.engine
  unfolding sleeps on_sleep
  first_sleep n h on =
      rw on (sleeps-stay n (suspended h.engine) (and_false (is_some h.engine.config)))

  woken :
      (s : Session) (cfg : StoredConfig)
      → Works net
      → s.config ≡ some cfg
      → ((on_wake env net os (suspended s)).engine.config ≡ some cfg)
        × ((on_wake env net os (suspended s)).engine.live.doc ≡ some (namespace env cfg))
        × ((on_wake env net os (suspended s)).resume_on_wake ≡ false)
  unfolding on_wake
  woken s cfg w e = simp (e, w.opens_doc, w.creates_author, w.subscribes) (refl, refl, refl)

  stays_down : (h : PowerHandler) → h.resume_on_wake ≡ false → on_wake env net os h ≡ h
  unfolding on_wake
  stays_down h fresh = rw fresh refl

  -- A device that is online when the system goes to sleep is offline while it sleeps, however
  -- often it is woken in between without a full wake, and after the full wake it is online in the
  -- same network, where the calls of iroh succeed. A device that its user had disconnected stays
  -- as it is.
  pub suspend_restores :
      (n : ℕ) (h : PowerHandler) (cfg : StoredConfig)
      → Works net
      → h.resume_on_wake ≡ false
      → h.engine.config ≡ some cfg
      → let asleep = sleeps (suc n) h in
        let awake = on_wake env net os asleep in
        (is_online h.engine ≡ true
          → (asleep.engine.live ≡ offline)
            × (awake.engine.config ≡ some cfg)
            × (awake.engine.live.doc ≡ some (namespace env cfg))
            × (awake.resume_on_wake ≡ false))
        × (is_online h.engine ≡ false → awake ≡ h)
  suspend_restores n h cfg w fresh e = (
    λ on.
        subst
          (λ (asleep : PowerHandler).
            (asleep.engine.live ≡ offline)
            × ((on_wake env net os asleep).engine.config ≡ some cfg)
            × ((on_wake env net os asleep).engine.live.doc ≡ some (namespace env cfg))
            × ((on_wake env net os asleep).resume_on_wake ≡ false))
          (sym (first_sleep n h on))
          (let (again, open_doc, down) = woken h.engine cfg w e in (refl, again, open_doc, down)),
    λ off. ap (on_wake env net os) (sleeps-stay (suc n) h off) ∙ stays_down h fresh,
  )
