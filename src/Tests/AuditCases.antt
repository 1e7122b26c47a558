-- ===== src/Tests/AuditCases.antt =====
-- A forged entry in the activity log (crates/ipn-core/src/engine.rs: `audit_log`).
use nullgate.Common.{ℕ, ◌≡◌, refl, true, false, some, [], ◌∷◌, arith, In, inl, select}
use nullgate.Common.HashMap.{nat_key, get}
use nullgate.Common.Results.{ok}
use nullgate.Roster.{Entry}
use nullgate.Roster.Signing.{verify_signature}
use nullgate.Roster.Build.{authentic, build}
use nullgate.Membership.{Doc, load_entries}
use nullgate.Engine.Config.{roster_cfg}
use nullgate.Engine.Session.{Env, Session}
use nullgate.Engine.Audit.{Actor, action_of, audit_log, log_of, entries_in, name_in}
use nullgate.Engine.Audit.Forged.{audit_log-forged}
use nullgate.Tests.EngineData.{env, online_with, member_cfg, genesis_entry}

-- It names the originator, and has no signature.
abbrev forged : Entry
forged = record genesis_entry { signature = [] }

abbrev spammed_env : Env ℕ
spammed_env = record env { parse_entry = λ bytes. some forged }

abbrev doc : Doc
doc = record { author = 9; key = 101 ∷ 47 ∷ 1 ∷ []; content = 1 ∷ []; is_local = true } ∷ []

abbrev spammed : Session
spammed = record (online_with member_cfg) { replicas = (4, doc) ∷ [] }

model : Unit {0}
unfolding get load_entries verify_signature audit_log action_of
model = tt

forged-In : In forged (entries_in spammed_env 4 spammed)
unfolding model
forged-In = inl refl

forged_signature : verify_signature env.crypto forged ≡ false
unfolding model
forged_signature = refl

audit_log-forged_example :
    (audit_log spammed_env 5 [] spammed
      ≡ ok (log_of spammed_env 5 [] member_cfg (entries_in spammed_env 4 spammed)))
    × In
        (record {
          ts = 1;
          actor = Actor.originator;
          action = action_of (name_in env.hex [] (entries_in spammed_env 4 spammed)) forged.op;
        })
        (log_of spammed_env 5 [] member_cfg (entries_in spammed_env 4 spammed))
    × (build env.crypto (roster_cfg env.hkdf member_cfg) 5 (entries_in spammed_env 4 spammed)
        ≡ build env.crypto (roster_cfg env.hkdf member_cfg) 5 (
            select
              (authentic env.crypto (roster_cfg env.hkdf member_cfg) 5)
              (entries_in spammed_env 4 spammed)))
    × (authentic env.crypto (roster_cfg env.hkdf member_cfg) 5 forged ≡ false)
audit_log-forged_example =
    audit_log-forged spammed_env spammed member_cfg 4 refl refl 5 [] forged forged-In (omega arith)
      refl forged_signature
