-- ===== src/Engine/Audit/Forged.antt =====
-- What the activity log lists (crates/ipn-core/src/engine.rs: `audit_log`).
use nullgate.Common.{
  ℕ, ◌≤◌, ◌≡◌, refl, ◌∙◌, sym, subst, true, false, Option, some, List, [], ◌∷◌, arith, In, inl, inr,
  select, ==_iff, Bool-cases,
}
use nullgate.Common.Maps.{Map, insert}
use nullgate.Common.Results.{ok}
use nullgate.Common.Text.{Text}
use nullgate.Roster.{NodeId, op_ts, Entry, Config}
use nullgate.Roster.Signing.{Crypto, verify_signature, content_id}
use nullgate.Roster.Build.{authentic, collect, ordered, build}
use nullgate.Engine.Config.{StoredConfig, roster_cfg}
use nullgate.Engine.Session.{Env, Session}
use nullgate.Engine.Audit.{
  AuditEntry, Actor, action_of, audit_entry, recent, insert_newest, newest_first, audit_log,
  entries_in, log_of, name_in, cutoff,
}
use Prim.Native.String.{String}

In-insert_newest :
    (a b : AuditEntry) (bs : List AuditEntry) → In a (b ∷ bs) → In a (insert_newest b bs)
unfolding insert_newest
In-insert_newest a b [] h = h
In-insert_newest a b (c ∷ bs) h = ground (arith, In-insert_newest a b bs)

In-newest_first : (a : AuditEntry) (bs : List AuditEntry) → In a bs → In a (newest_first bs)
unfolding newest_first
In-newest_first a [] h = absurd h
In-newest_first a (b ∷ bs) (inl e) = In-insert_newest a b (newest_first bs) (inl e)
In-newest_first a (b ∷ bs) (inr i) =
    In-insert_newest a b (newest_first bs) (inr (In-newest_first a bs i))

module _ (name_of : NodeId → Option String) (originator_id : NodeId) (now : ℕ) where
  In-recent :
      (e : Entry) (es : List Entry)
      → In e es
      → cutoff now ≤ op_ts e.op
      → In (audit_entry name_of originator_id e) (recent name_of originator_id now es)
  unfolding recent
  In-recent e [] h t = absurd h
  In-recent e (x ∷ es) (inl same) t = rw same (ground arith)
  In-recent e (x ∷ es) (inr i) t = ground (arith, In-recent e es i t)

module _ (c : Crypto) (cfg : Config) (now : ℕ) where
  collect-cons :
      (e : Entry) (es : List Entry) (m : Map Entry)
      → authentic c cfg now e ≡ true
      → collect c cfg now (e ∷ es) m ≡ collect c cfg now es (insert (content_id c e) e m)
  unfolding collect
  collect-cons e es m h = rw h refl

  collect-authentic :
      (es : List Entry) (m : Map Entry)
      → collect c cfg now (select (authentic c cfg now) es) m ≡ collect c cfg now es m
  unfolding collect
  collect-authentic [] m = refl
  collect-authentic (e ∷ es) m = elim (Bool-cases (authentic c cfg now e)) [
    | inl good ↦ rw good (
        collect-cons e (select (authentic c cfg now) es) m good
        ∙ collect-authentic es (insert (content_id c e) e m))
    | inr bad ↦ rw bad (collect-authentic es m)
  ]

  build-authentic :
      (es : List Entry) → build c cfg now (select (authentic c cfg now) es) ≡ build c cfg now es
  unfolding build ordered
  build-authentic es = rw (collect-authentic es []) refl

audit_entry-originator :
    (name_of : NodeId → Option String) (originator_id : NodeId) (e : Entry)
    → e.signer ≡ originator_id
    → audit_entry name_of originator_id e
      ≡ record { ts = op_ts e.op; actor = Actor.originator; action = action_of name_of e.op }
unfolding audit_entry
audit_entry-originator name_of originator_id e h = rw ((==_iff e.signer originator_id).1 h) refl

-- An entry that its signature does not support.
authentic-forged :
    (c : Crypto) (cfg : Config) (now : ℕ) (e : Entry)
    → verify_signature c e ≡ false
    → authentic c cfg now e ≡ false
unfolding authentic
authentic-forged c cfg now e h = ground arith

module _ {Addr : Type 0} (env : Env Addr) where
  -- On a device that is online, an entry of the replica which is not older than 30 days and names
  -- the originator as its signer is in the activity log as an action of the originator, also if its
  -- signature is not valid. The roster that is built is the same without the entries that fail
  -- the check, and this is one of them.
  pub audit_log-forged :
      (s : Session) (cfg : StoredConfig) (ns : ℕ)
      → s.config ≡ some cfg
      → s.live.doc ≡ some ns
      → (now : ℕ) (nicks : List (Text × String)) (e : Entry) → In e (entries_in env ns s)
      → cutoff now ≤ op_ts e.op
      → e.signer ≡ cfg.originator_id
      → verify_signature env.crypto e ≡ false
      → let name_of = name_in env.hex nicks (entries_in env ns s) in
        let roster_config = roster_cfg env.hkdf cfg in
        (audit_log env now nicks s ≡ ok (log_of env now nicks cfg (entries_in env ns s)))
        × In
            (record { ts = op_ts e.op; actor = Actor.originator; action = action_of name_of e.op })
            (log_of env now nicks cfg (entries_in env ns s))
        × (build env.crypto roster_config now (entries_in env ns s)
            ≡ build env.crypto roster_config now
                (select (authentic env.crypto roster_config now) (entries_in env ns s)))
        × (authentic env.crypto roster_config now e ≡ false)
  unfolding audit_log
  audit_log-forged s cfg ns here online now nicks e i t signed bad =
      let names = name_in env.hex nicks (entries_in env ns s) in
      (
        simp (here, online) refl,
        subst (λ a. In a (log_of env now nicks cfg (entries_in env ns s)))
            (audit_entry-originator names cfg.originator_id e signed)
            (In-newest_first (audit_entry names cfg.originator_id e) _
              (In-recent names cfg.originator_id now e (entries_in env ns s) i t)),
        sym (build-authentic env.crypto (roster_cfg env.hkdf cfg) now (entries_in env ns s)),
        authentic-forged env.crypto (roster_cfg env.hkdf cfg) now e bad,
      )
