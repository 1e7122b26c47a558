-- ===== src/Tests/OperationCases.antt =====
-- The theorems about the engine's operations at a small network (crates/ipn-core/src/engine.rs).
use nullgate.Common.{
  ℕ, ◌-◌, ◌≤◌, ◌<◌, ◌≡◌, ◌≢◌, ◌↔◌, refl, true, false, none, some, List, [], ◌∷◌, arith,
}
use nullgate.Common.HashMap.{get, put}
use nullgate.Common.Maps.{lookup, insert, modify}
use nullgate.Common.Results.{ok, err}
use nullgate.Common.Text.{
  Text, IsBlank, is_whitespace, strip_prefix, trim, trim_end, trim_start, to_lowercase,
  to_uppercase,
}
use nullgate.Roster.{Role, InviteKind, InviteCheck, Config}
use nullgate.Roster.Signing.{sign, content_id, verify_signature, signing_bytes}
use nullgate.Roster.Build.{
  finish, build, ordered, collect, authentic, values, sort_entries, insert_entry,
}
use nullgate.Roster.Build.Founding.{founded}
use nullgate.Roster.Fold.{FoldState, start, run, is_controller, step, apply_op, apply_add}
use nullgate.Roster.Queries.{role, check_invite, is_member}
use nullgate.Roster.Addresses.{
  lowest_free_host, assign_ips, assign, slots, insert_slot, sort_slots, probe,
}
use nullgate.Roster.Queries.JoinCheck.{newcomer, MayAdmit}
use nullgate.Network.{network_id, docs_namespace_seed, decode, encode, encode_recovery_key}
use nullgate.Network.RoundTrip.{pasted}
use nullgate.Secrets.{store}
use nullgate.Engine.Config.{StoredConfig, save_config, roster_cfg}
use nullgate.Engine.Session.{Session, OpError, publish, namespace, offline, activate, teardown}
use nullgate.Engine.Operations.{create_network, ticket_for}
use nullgate.Engine.Operations.Founded.{Sound, new_config, founding, create_network_founds}
use nullgate.Engine.Operations.Authority.{IsPlainPeer, Refuses, Holds}
use nullgate.Engine.Operations.Leaving.{Works}
use nullgate.Engine.Joining.{
  JoinRequest, JoinResponse, admit_member, admission_entry, on_request, on_decision, join_network,
  provisional, appears, on_response,
}
use nullgate.Engine.Joining.Outcome.{AllOrNothing, join_network-AllOrNothing}
use nullgate.Engine.Joining.Admitted.{on_request_agrees, key_holder_admits_nobody}
use nullgate.Engine.Recovery.{HealthAction, health_check, rebuild_min_spacing_ms}
use nullgate.Engine.Recovery.Strikes.{Fires, health_check_escalates}
use nullgate.Engine.Tick.{Outcome, tick, current_roster}
use nullgate.Engine.Tick.Members.{Enforced, tick_enforces}
use nullgate.Daemon.{PowerHandler, is_online, on_wake}
use nullgate.Daemon.Requests.{IpcRequest}
use nullgate.Daemon.Dispatch.{Moment, handle_request, IsRefusal, IsGuarded, peer_requests_refused}
use nullgate.Daemon.Suspend.{sleeps, suspend_restores}
use nullgate.Membership.{
  publish_entry, build_roster, load_entries, load_from, considered, parsed, starts_with, set_bytes,
  Doc,
}
use nullgate.Tests.RosterData.{toy, toy-CryptoLaws, subnet}
use nullgate.Tests.EngineData.{
  env, os, net, blank, fresh, online_with, member_cfg, founder_cfg, codec-Base32Laws, genesis_entry,
  invite_entry, the_ticket,
}

model : Unit {0}
unfolding create_network save_config publish sign content_id run step finish check_invite encode
    decode lowest_free_host network_id docs_namespace_seed get store role lookup is_controller
    insert encode_recovery_key
model = tt

net-Works : Works net
net-Works = record { opens_doc = refl; creates_author = refl; subscribes = refl; sets_bytes = refl }

fresh-Sound : Sound env subnet fresh
unfolding model
fresh-Sound = record {
  laws = toy-CryptoLaws;
  genesis_stored = record { back = refl; short = omega arith; id_fits = omega arith };
  invite_stored = record { back = refl; short = omega arith; id_fits = omega arith };
  differ = λ e. omega (arith, e);
  genesis_time = omega arith;
  invite_time = omega arith;
  now_fits = omega arith;
}

create_network_founds_example :
    let cfg = new_config env "home" subnet fresh in
    let made = create_network env net os "home" subnet fresh blank in
    (blank.config ≡ none
      → (made.1 ≡ ok (ticket_for env cfg InviteKind.peer 7))
        × (made.0.config ≡ some cfg)
        × (made.0.live.roster ≡ founded toy (founding env subnet fresh))
        × (role made.0.live.roster 6 ≡ Role.controller)
        × (check_invite made.0.live.roster InviteKind.peer 7 ≡ InviteCheck.ok))
    × ((c : StoredConfig) → blank.config ≡ some c → made ≡ (blank, err OpError.already_in_network))
unfolding model
create_network_founds_example =
    create_network_founds env net os "home" subnet fresh blank fresh-Sound net-Works refl refl

peer-IsPlainPeer : IsPlainPeer env (online_with member_cfg)
unfolding model
peer-IsPlainPeer = record { cfg = member_cfg; in_network = refl; no_key = refl; no_role = refl }

abbrev moment : Moment
moment = record {
  net = net;
  os = os;
  now = 5;
  nonce = 8;
  times = λ id. 5;
  fresh = fresh;
  looks = [];
  read = none;
}

peer_requests_refused_example :
    let s = online_with member_cfg in
    ((req : IpcRequest) → IsGuarded req → IsRefusal s (handle_request env moment req s))
    × ((id : _)
        → let t = (handle_request env moment (IpcRequest.approve_join id) s).0 in
          (t.config ≡ s.config)
          × (t.live.roster ≡ s.live.roster)
          × (t.replicas ≡ s.replicas)
          × ((network peer : ℕ) (join : JoinRequest) (ts : ℕ)
              → Refuses t (admit_member env net network peer join ts t)))
peer_requests_refused_example =
    peer_requests_refused env (online_with member_cfg) peer-IsPlainPeer moment

IsBlank-space : IsBlank 32
unfolding is_whitespace
IsBlank-space = refl

line_end : IsBlank 10
unfolding is_whitespace
line_end = refl

holder : Holds env (online_with founder_cfg) 1
holder = record {
  laws = codec-Base32Laws;
  cfg = founder_cfg;
  in_network = refl;
  key_held = refl;
  key_fits = omega arith;
}

abbrev code : Text
code = pasted (32 ∷ []) (encode_recovery_key env.codec 1) (10 ∷ [])

-- One look, at a replica that has the founding of this device.
abbrev looks : List Doc
unfolding model
looks = publish_entry toy 9 genesis_entry [] ∷ []

joining : Unit {0}
unfolding join_network on_response appears build_roster roster_cfg build ordered collect authentic
    verify_signature signing_bytes content_id values sort_entries insert_entry load_entries
    load_from considered parsed starts_with set_bytes activate teardown is_member put assign_ips
    assign slots insert_slot sort_slots probe lowest_free_host apply_op apply_add strip_prefix trim
    trim_end trim_start is_whitespace to_lowercase to_uppercase publish_entry modify
joining = tt

joined :
    (join_network env net os
      (encode env.codec the_ticket)
      100
      looks
      (some JoinResponse.approved)
      blank).1
    ≡ ok tt
unfolding model joining
joined = refl

never_added :
    (join_network env net os
      (encode env.codec the_ticket)
      100
      []
      (some JoinResponse.approved)
      blank).1
    ≡ err OpError.not_added
unfolding model joining
never_added = refl

join_network-AllOrNothing_example :
    let text = encode env.codec the_ticket in
    let r = join_network env net os text 100 looks (some JoinResponse.approved) blank in
    ((t : _)
      → decode env.codec text ≡ ok t
      → (blank.config ≡ none
          → AllOrNothing env (provisional env t) 100 looks (some JoinResponse.approved) r)
        × ((c : StoredConfig)
            → blank.config ≡ some c
            → r ≡ (blank, err OpError.already_in_network)))
    × ((e : _) → decode env.codec text ≡ err e → r ≡ (blank, err (OpError.in_ticket e)))
join_network-AllOrNothing_example =
    join_network-AllOrNothing env net os (encode env.codec the_ticket) 100 looks
      (some JoinResponse.approved) blank

abbrev rc : Config
rc = record { network_id = 4; originator_id = 2; subnet = subnet }

abbrev folded : FoldState
folded = run rc start (genesis_entry ∷ invite_entry ∷ [])

abbrev founder : Session
founder = record (online_with member_cfg) {
  live = record offline { roster = finish rc folded; doc = some 4; author = some 9 };
}

abbrev request : JoinRequest
request = record { hostname = "phone"; invite_kind = InviteKind.peer; invite_nonce = 7 }

founder-MayAdmit : MayAdmit folded 6 5
unfolding model
founder-MayAdmit = record {
  since = 1;
  con = refl;
  admitted = refl;
  in_time = omega arith;
  thawed = refl;
}

on_request_agrees_example :
    let e = admission_entry env 4 21 request 5 member_cfg founder.live.roster in
    ((on_request env 1 21 request founder).1 ≡ none
      → lookup 21 (step rc folded e).members
        ≡ some (newcomer InviteKind.peer 6 "phone" (lowest_free_host founder.live.roster subnet)))
    × ((r : JoinResponse)
        → (on_request env 1 21 request founder).1 ≡ some r
        → step rc folded e ≡ folded)
on_request_agrees_example =
    on_request_agrees env rc folded founder member_cfg 4 21 request 5 1 (λ e. omega (arith, e))
      founder-MayAdmit refl

key_holder_admits_nobody_example :
    let s = online_with founder_cfg in
    ((on_decision env net 4 21 request 5 true s).1 ≡ JoinResponse.approved)
    × (step rc start (admission_entry env 4 21 request 5 founder_cfg s.live.roster) ≡ start)
unfolding model
key_holder_admits_nobody_example =
    key_holder_admits_nobody env rc start (online_with founder_cfg) founder_cfg net 4 21 request 5 1
      refl refl refl (λ e. omega (arith, e)) refl refl

-- The device was on the roster, and is not any more.
abbrev removed : Session
removed = record (online_with member_cfg) {
  live = record (online_with member_cfg).live { was_member = true };
}

tick_enforces_example :
    let s = removed in
    let roster = current_roster env 100 4 member_cfg s in
    let r = tick env os 100 s in
    Enforced env os 100 roster s r
    × (r.0 ≢ Outcome.skipped)
    × ((r.0 ≡ Outcome.evicted) ↔ ((is_member roster 6 ≡ false) × (s.live.was_member ≡ true)))
tick_enforces_example = tick_enforces env os 100 removed 4 member_cfg refl refl

health_check_escalates_example :
    let s = online_with member_cfg in
    let one = health_check env net true 30_000 s in
    let two = health_check env net true 700_000 one.1 in
    (one.0 ≡ HealthAction.burst)
    × Fires env 30_000 s one.1
    × (rebuild_min_spacing_ms ≤ 700_000 - s.last_rebuild
        → (two.0 ≡ HealthAction.rebuilt)
          × (two.1.config ≡ some member_cfg)
          × (two.1.live.doc ≡ some (namespace env member_cfg))
          × (two.1.last_rebuild ≡ 700_000))
    × (700_000 - s.last_rebuild < rebuild_min_spacing_ms
        → (two.0 ≡ HealthAction.burst) × Fires env 700_000 one.1 two.1)
health_check_escalates_example =
    health_check_escalates env net 30_000 700_000 (online_with member_cfg) member_cfg refl refl
      net-Works refl

abbrev at_work : PowerHandler
at_work = record { engine = online_with member_cfg; resume_on_wake = false }

suspend_restores_example :
    let asleep = sleeps env net os 3 at_work in
    let awake = on_wake env net os asleep in
    (is_online at_work.engine ≡ true
      → (asleep.engine.live ≡ offline)
        × (awake.engine.config ≡ some member_cfg)
        × (awake.engine.live.doc ≡ some (namespace env member_cfg))
        × (awake.resume_on_wake ≡ false))
    × (is_online at_work.engine ≡ false → awake ≡ at_work)
suspend_restores_example = suspend_restores env net os 2 at_work member_cfg net-Works refl refl
