-- ===== src/Daemon/Dispatch.antt =====
-- How the daemon answers a request (crates/ipn-daemon/src/main.rs: `handle_request`).
use nullgate.Common.{
  ℕ, ◌≡◌, refl, sym, ap, subst, ◌∙◌, Bool, true, false, Option, none, some, List, [], Bool-cases,
  inl, inr,
}
use nullgate.Common.HashMap.{nat_key, get}
use nullgate.Common.Results.{Result}
use nullgate.Common.Text.{Text}
use nullgate.Ip.{Ipv4Addr}
use nullgate.Roster.{NodeId, Nonce, Role, role_eq}
use nullgate.Common.Maps
use nullgate.Roster.Queries.{role}
use nullgate.Membership.{Doc}
use nullgate.Secrets.{Os}
use nullgate.Engine.Session.{Env, Net, Session, OpError, after, need}
use nullgate.Engine.Operations.{
  Fresh, parse_id, answer, decide, create_network, decide_join, remove_member, set_member_role,
  set_frozen, set_peer_ticket_single_use, ticket, controller_ticket, delete_network, rotate_network,
  export_originator_key, import_originator_key, leave_network, set_online,
  set_remote_access_disabled, set_hidden,
}
use nullgate.Engine.Operations.Authority.{IsPlainPeer, Refuses, peer_cannot_administer}
use nullgate.Engine.Rename.{set_network_name}
use nullgate.Engine.Joining.{JoinRequest, JoinResponse, admit_member, join_network}
use nullgate.Daemon.Requests.{IpcRequest, IpcResponse}

abbrev pub proto_version : ℕ
proto_version = 6

-- 10.99.0.0.
abbrev pub default_subnet : Ipv4Addr
default_subnet = record { o0 = 10; o1 = 99; o2 = 0; o3 = 0 }

-- What an operation takes from outside while it runs.
pub record Moment : Type 0 where
  pub net : Net
  pub os : Os
  pub now : ℕ
  pub nonce : Nonce
  pub times : NodeId → ℕ
  pub fresh : Fresh
  pub looks : List Doc
  pub read : Option JoinResponse

abbrev pub reply_ok : Session × Result OpError (Unit {0}) → Session × IpcResponse
reply_ok (s, Result.ok u) = (s, IpcResponse.ok)
reply_ok (s, Result.err e) = (s, IpcResponse.err e)

abbrev pub reply_ticket : Session × Result OpError Text → Session × IpcResponse
reply_ticket (s, Result.ok t) = (s, IpcResponse.ticket t)
reply_ticket (s, Result.err e) = (s, IpcResponse.err e)

abbrev pub reply_recovery : Session × Result OpError Text → Session × IpcResponse
reply_recovery (s, Result.ok code) = (s, IpcResponse.recovery code)
reply_recovery (s, Result.err e) = (s, IpcResponse.err e)

module _ {Addr : Type 0} (env : Env Addr) where
  unfoldable pub handle_request : Moment → IpcRequest → Session → Session × IpcResponse
  handle_request m (IpcRequest.hello version) s = (s, IpcResponse.hello proto_version)
  handle_request m (IpcRequest.create_network name) s =
      reply_ticket (create_network env m.net m.os name default_subnet m.fresh s)
  handle_request m (IpcRequest.join text) s =
      reply_ok (join_network env m.net m.os text m.now m.looks m.read s)
  handle_request m (IpcRequest.approve_join id) s = reply_ok (decide_join env id true s)
  handle_request m (IpcRequest.deny_join id) s = reply_ok (decide_join env id false s)
  handle_request m (IpcRequest.remove_member id) s = reply_ok (remove_member env m.net id m.now s)
  handle_request m (IpcRequest.set_member_role id controller) s =
      reply_ok (set_member_role env m.net id controller m.now s)
  handle_request m (IpcRequest.set_frozen frozen) s = reply_ok (set_frozen env m.net frozen m.now s)
  handle_request m (IpcRequest.set_network_name name) s =
      reply_ok (set_network_name env m.net name m.now s)
  handle_request m IpcRequest.delete_network s = reply_ok (delete_network env m.net m.os m.times s)
  handle_request m IpcRequest.rotate_network s =
      reply_ticket (rotate_network env m.net m.os m.times m.fresh s)
  handle_request m IpcRequest.leave_network s = reply_ok (leave_network env m.os s)
  handle_request m IpcRequest.connect s = reply_ok (set_online env m.net m.os true s)
  handle_request m IpcRequest.disconnect s = reply_ok (set_online env m.net m.os false s)
  handle_request m IpcRequest.get_ticket s = reply_ticket (ticket env m.net m.nonce m.now s)
  handle_request m IpcRequest.get_controller_ticket s =
      reply_ticket (controller_ticket env m.net m.nonce m.now s)
  handle_request m (IpcRequest.set_peer_ticket_single_use on) s =
      reply_ok (set_peer_ticket_single_use env m.net on m.nonce m.now s)
  handle_request m (IpcRequest.set_remote_access_disabled disabled) s =
      (set_remote_access_disabled disabled s, IpcResponse.ok)
  handle_request m (IpcRequest.set_hidden hidden) s = (set_hidden hidden s, IpcResponse.ok)
  handle_request m IpcRequest.export_originator_key s = reply_recovery (export_originator_key env s)
  handle_request m (IpcRequest.import_originator_key code) s =
      reply_ok (import_originator_key env m.os code s)
  handle_request m IpcRequest.subscribe s = (s, IpcResponse.ok)

-- The requests whose operation asks for the originator's key, or for that key or the role of a
-- Controller, before it does anything.
abbrev pub IsGuarded : IpcRequest → Type 0
IsGuarded (IpcRequest.remove_member id) = Unit
IsGuarded (IpcRequest.set_member_role id controller) = Unit
IsGuarded (IpcRequest.set_frozen frozen) = Unit
IsGuarded IpcRequest.delete_network = Unit
IsGuarded IpcRequest.rotate_network = Unit
IsGuarded IpcRequest.get_ticket = Unit
IsGuarded IpcRequest.get_controller_ticket = Unit
IsGuarded (IpcRequest.set_peer_ticket_single_use on) = Unit
IsGuarded IpcRequest.export_originator_key = Unit
IsGuarded _ = ⊥

-- The response is an error, and the state is as it was.
abbrev pub IsRefusal : Session → Session × IpcResponse → Type 0
IsRefusal s (t, IpcResponse.err e) = t ≡ s
IsRefusal s (t, _) = ⊥

reply_ok-IsRefusal :
    (s : Session) (r : Session × Result OpError (Unit {0})) → Refuses s r → IsRefusal s (reply_ok r)
reply_ok-IsRefusal s (t, Result.ok u) h = absurd h
reply_ok-IsRefusal s (t, Result.err e) h = h

reply_ticket-IsRefusal :
    (s : Session) (r : Session × Result OpError Text) → Refuses s r → IsRefusal s (reply_ticket r)
reply_ticket-IsRefusal s (t, Result.ok a) h = absurd h
reply_ticket-IsRefusal s (t, Result.err e) h = h

reply_recovery-IsRefusal :
    (s : Session) (r : Session × Result OpError Text) → Refuses s r → IsRefusal s (reply_recovery r)
reply_recovery-IsRefusal s (t, Result.ok a) h = absurd h
reply_recovery-IsRefusal s (t, Result.err e) h = h

module _ {Addr : Type 0} (env : Env Addr) where
  -- What an answer to a pending join leaves alone.
  record IsAside (s t : Session) : Type 0 where
    same_config : t.config ≡ s.config
    same_roster : t.live.roster ≡ s.live.roster
    same_replicas : t.replicas ≡ s.replicas

  answer-IsAside :
      (approve : Bool) (channel : Option ℕ) (s t : Session)
      → IsAside s t
      → IsAside s (answer approve channel t).0
  answer-IsAside approve none s t h = h
  answer-IsAside approve (some channel) s t h = record {
    same_config = h.same_config;
    same_roster = h.same_roster;
    same_replicas = h.same_replicas;
  }

  decided-IsAside :
      (approve : Bool) (id : Option NodeId) (s : Session)
      → IsAside s (after (need id OpError.bad_id s) (λ n. decide n approve)).0
  decided-IsAside approve none s = record {
    same_config = refl;
    same_roster = refl;
    same_replicas = refl;
  }
  decided-IsAside approve (some n) s =
      answer-IsAside approve (get n s.live.pending) s _
        (record { same_config = refl; same_roster = refl; same_replicas = refl })

  reply_ok-state : (r : Session × Result OpError (Unit {0})) → (reply_ok r).0 ≡ r.0
  reply_ok-state (s, Result.ok u) = refl
  reply_ok-state (s, Result.err e) = refl

  approval-IsAside :
      (m : Moment) (id : Text) (s : Session)
      → IsAside s (handle_request env m (IpcRequest.approve_join id) s).0
  unfolding handle_request decide_join
  approval-IsAside m id s =
      subst (IsAside s) (sym (reply_ok-state (decide_join env id true s)))
        (decided-IsAside true (parse_id env.hex id) s)

  -- A device that is no Controller and does not hold the key admits nobody.
  admission_refused :
      (net : Net) (network peer : NodeId) (join : JoinRequest) (ts : ℕ) (s t : Session)
      → IsPlainPeer env s
      → IsAside s t
      → Refuses t (admit_member env net network peer join ts t)
  unfolding admit_member role nullgate.Common.Maps.lookup
  admission_refused net network peer join ts s t p a = elim (Bool-cases t.live.roster.frozen) [
    | inl f ↦ simp (a.same_config ∙ p.in_network, f) refl
    | inr f ↦
        let no_role : role_eq (role t.live.roster env.my_id) Role.controller ≡ false =
          ap (λ r. role_eq (role r env.my_id) Role.controller) a.same_roster ∙ p.no_role in
        simp (a.same_config ∙ p.in_network, f, p.no_key, no_role) refl
  ]

  guarded_refused :
      (s : Session)
      → IsPlainPeer env s
      → (m : Moment) (req : IpcRequest) → IsGuarded req
      → IsRefusal s (handle_request env m req s)
  unfolding handle_request
  guarded_refused s p m (IpcRequest.remove_member id) h =
      reply_ok-IsRefusal s _
        (peer_cannot_administer env s p m.net m.os id true m.nonce m.now m.times m.fresh).0
  guarded_refused s p m (IpcRequest.set_member_role id flag) h =
      reply_ok-IsRefusal s _
        (peer_cannot_administer env s p m.net m.os id flag m.nonce m.now m.times m.fresh).1
  guarded_refused s p m (IpcRequest.set_frozen flag) h =
      reply_ok-IsRefusal s _
        (peer_cannot_administer env s p m.net m.os [] flag m.nonce m.now m.times m.fresh).2
  guarded_refused s p m (IpcRequest.set_peer_ticket_single_use flag) h =
      reply_ok-IsRefusal s _
        (peer_cannot_administer env s p m.net m.os [] flag m.nonce m.now m.times m.fresh).3
  guarded_refused s p m IpcRequest.get_ticket h =
      reply_ticket-IsRefusal s _
        (peer_cannot_administer env s p m.net m.os [] true m.nonce m.now m.times m.fresh).4
  guarded_refused s p m IpcRequest.get_controller_ticket h =
      reply_ticket-IsRefusal s _
        (peer_cannot_administer env s p m.net m.os [] true m.nonce m.now m.times m.fresh).5
  guarded_refused s p m IpcRequest.delete_network h =
      reply_ok-IsRefusal s _
        (peer_cannot_administer env s p m.net m.os [] true m.nonce m.now m.times m.fresh).6
  guarded_refused s p m IpcRequest.rotate_network h =
      reply_ticket-IsRefusal s _
        (peer_cannot_administer env s p m.net m.os [] true m.nonce m.now m.times m.fresh).7
  guarded_refused s p m IpcRequest.export_originator_key h =
      reply_recovery-IsRefusal s _
        (peer_cannot_administer env s p m.net m.os [] true m.nonce m.now m.times m.fresh).8
  guarded_refused s p m (IpcRequest.hello version) h = absurd h
  guarded_refused s p m (IpcRequest.create_network name) h = absurd h
  guarded_refused s p m (IpcRequest.set_network_name name) h = absurd h
  guarded_refused s p m (IpcRequest.join text) h = absurd h
  guarded_refused s p m (IpcRequest.approve_join id) h = absurd h
  guarded_refused s p m (IpcRequest.deny_join id) h = absurd h
  guarded_refused s p m IpcRequest.leave_network h = absurd h
  guarded_refused s p m IpcRequest.connect h = absurd h
  guarded_refused s p m IpcRequest.disconnect h = absurd h
  guarded_refused s p m (IpcRequest.set_remote_access_disabled flag) h = absurd h
  guarded_refused s p m (IpcRequest.set_hidden flag) h = absurd h
  guarded_refused s p m (IpcRequest.import_originator_key code) h = absurd h
  guarded_refused s p m IpcRequest.subscribe h = absurd h

  -- On a device that neither holds the originator's key nor is a Controller, the daemon answers
  -- these requests with an error, and the state has not changed: removing a member, changing a role,
  -- freezing, deleting or rotating the network, both tickets, the switch to single-use tickets, and
  -- exporting the recovery code. Approving a pending join is not refused at once, but it publishes
  -- nothing and changes neither the configuration nor the roster, and the admission that then
  -- follows is refused without an effect, whatever the joiner asked for.
  pub peer_requests_refused :
      (s : Session)
      → IsPlainPeer env s
      → (m : Moment)
      → ((req : IpcRequest) → IsGuarded req → IsRefusal s (handle_request env m req s))
        × ((id : Text)
            → let t = (handle_request env m (IpcRequest.approve_join id) s).0 in
              (t.config ≡ s.config)
              × (t.live.roster ≡ s.live.roster)
              × (t.replicas ≡ s.replicas)
              × ((network peer : NodeId) (join : JoinRequest) (ts : ℕ)
                  → Refuses t (admit_member env m.net network peer join ts t)))
  peer_requests_refused s p m = (
    guarded_refused s p m,
    λ id.
        let a = approval-IsAside m id s in
        (
          a.same_config,
          a.same_roster,
          a.same_replicas,
          λ network peer join ts.
              admission_refused m.net network peer join ts s
                (handle_request env m (IpcRequest.approve_join id) s).0 p a,
        ),
  )
