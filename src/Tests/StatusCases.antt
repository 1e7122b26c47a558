-- ===== src/Tests/StatusCases.antt =====
-- The status of a network, and a client's connection.
use nullgate.Common.{
  ℕ, ◌≡◌, ◌≢◌, ◌↔◌, ◌⊎◌, refl, sym, ap, subst, inl, inr, Bool, true, false, Option, none, some,
  List, [], ◌∷◌, ◌++◌, ◌==◌, In,
}
use nullgate.Common.Results.{ok}
use nullgate.Common.Text.{Text, is_whitespace}
use nullgate.Relays.Paths.{IpAddr}
use nullgate.Ipc.{Wire, Message}
use nullgate.Engine.Names.{Names}
use nullgate.Engine.Status.{MemberView, Here, is_orig, status, status_of}
use nullgate.Engine.Status.Shown.{IsRanked, Shows, status_lem}
use nullgate.Daemon.Connection
use nullgate.Daemon.Connection.{
  Input, arrived, finished, hung_up, Conn, accepted, handle_conn, on_input, on_frame, on_finished,
  next_request, take_up,
}
use nullgate.Daemon.Connection.Order.{frames, request_ids, written_ids, responses_in_order}
use nullgate.Common.HashMap.{nat_key, get, put, or_default}
use nullgate.Roster.{NodeId}
use nullgate.Presence.{heard, record_heartbeat}
use nullgate.Presence.Messages.{MessageCrypto, Presence, verify_presence}
use nullgate.Engine.Gossip.{
  presence, TopicEvent, received, neighbor_up, lagged, hear_presence, on_message, on_topic,
  hear_all,
}
use nullgate.Engine.Gossip.Owner.{told_by, IsSilent, told_by_owner}
use nullgate.Tests.RosterData.{repeat}
use mathlib.Core.Option.{some-injective, some-ne-none}
use nullgate.Engine.Rename.{trim_name, rename_entry, set_network_name, rename_needs_role}
use nullgate.Membership.{publish_entry}
use nullgate.Roster.{Config}
use nullgate.Roster.Fold.{FoldState, is_controller, step}
use nullgate.Tests.EngineData.{env, net, online_with, member_cfg}

abbrev show : IpAddr → Text
show (IpAddr.v4 a) = a.o0 ∷ a.o1 ∷ a.o2 ∷ a.o3 ∷ []
show (IpAddr.v6 n) = n ∷ []

abbrev names : Names
names = record { nicknames = []; notes = []; saved_nicknames = []; saved_notes = [] }

abbrev here : Here
here = record { ips = []; relay_urls = [] }

status_lem_example :
    let s = online_with member_cfg in
    let st = status_of env show member_cfg names here s in
    (status env show names here s ≡ ok st)
    × IsRanked st.members
    × ((v : MemberView)
        → In v st.members ↔ Shows env show member_cfg names here s s.live.roster.members v)
    × ((v : MemberView)
        → In v st.members
        → v.hidden ≡ true
        → (v.is_self ≡ true) ⊎ (is_orig env member_cfg ≡ true))
status_lem_example = status_lem env show member_cfg names here (online_with member_cfg) refl

-- Request 9 subscribes.
abbrev wire : Wire
wire = record { Request = ℕ; Response = ℕ; Event = ℕ }

abbrev request : ℕ → ℕ → Input wire
request id req = arrived (record { id = id; body = Message.request req })

-- The second request arrives while the first is in hand, and an event is passed over.
abbrev pipelined : List (Input wire)
pipelined =
    request 1 5
    ∷ request 2 6
    ∷ arrived (record { id = 0; body = Message.event 3 })
    ∷ finished 50 true
    ∷ finished 60 true
    ∷ hung_up
    ∷ []

model : Unit {0}
unfolding handle_conn on_input on_frame on_finished next_request
    nullgate.Daemon.Connection.on_message take_up
model = tt

abbrev subscribes : ℕ → Bool
subscribes req = req == 9

answered : (handle_conn subscribes pipelined accepted).written ≡ (1, 50) ∷ (2, 60) ∷ []
unfolding model
answered = refl

responses_in_order_example :
    let c = handle_conn subscribes pipelined accepted in
    (rest : List ℕ) × (written_ids c.written ++ rest ≡ request_ids (frames pipelined))
    × (c.ended ≡ false → c.current ≡ none → rest ≡ [])
responses_in_order_example = responses_in_order subscribes pipelined

-- A signature is good if it begins with the number of its key.
abbrev first_is : NodeId → List ℕ → Bool
first_is key [] = false
first_is key (b ∷ bs) = b == key

abbrev crypto : MessageCrypto
crypto = record {
  verifying_key = λ key. key;
  sign_bytes = λ key m. repeat 64 key;
  is_key = λ key. true;
  verify_strict = λ key m signature. first_is key signature;
  presence_cbor = λ view. [];
  locations_cbor = λ view. [];
}

-- A message of the device 21, signed with the given key.
abbrev presence_by : ℕ → Presence
presence_by key = record {
  network_id = 4;
  node_id = 21;
  hostname = "phone";
  public_ip = none;
  remote_access_disabled = true;
  hidden = true;
  ts = 50;
  signature = repeat 64 key;
}

abbrev forged_events : List TopicEvent
forged_events = neighbor_up ∷ received (some (presence (presence_by 22))) ∷ lagged ∷ []

abbrev presence_in : TopicEvent → Option Presence
presence_in (received (some (presence p))) = some p
presence_in _ = none

forged-IsSilent : IsSilent crypto 6 4 2 21 forged_events
unfolding verify_presence
forged-IsSilent p (inl e) named = absurd (some-ne-none _ (sym (ap presence_in e)))
forged-IsSilent p (inr (inl e)) named =
    subst (λ (q : Presence). verify_presence crypto q 4 ≡ false)
      (some-injective _ _ (ap presence_in e)) refl
forged-IsSilent p (inr (inr (inl e))) named = absurd (some-ne-none _ (sym (ap presence_in e)))
forged-IsSilent p (inr (inr (inr i))) named = absurd i

told_by_owner_example :
    told_by 21 (hear_all crypto 6 4 2 forged_events (online_with member_cfg)).live.presence
    ≡ told_by 21 (online_with member_cfg).live.presence
told_by_owner_example =
    told_by_owner crypto 6 4 2 forged_events (online_with member_cfg) 21 forged-IsSilent

heard_from_owner :
    (told_by 21
      (hear_all crypto 6 4 2
        (received (some (presence (presence_by 21))) ∷ [])
        (online_with member_cfg)).live.presence).hidden
    ≡ true
unfolding verify_presence hear_all on_topic on_message hear_presence record_heartbeat heard get put
heard_from_owner = refl

model_rename : Unit {0}
unfolding trim_name is_whitespace is_controller
model_rename = tt

-- The device renames its network, with blanks around the name.
rename_needs_role_example :
    let s = online_with member_cfg in
    let e = rename_entry env member_cfg (trim_name " lab\n") 70 in
    (set_network_name env net " lab\n" 70 s ≡ (
      record s {
        replicas =
            put 4 (publish_entry env.crypto 9 e (or_default [] (get 4 s.replicas))) s.replicas;
      },
      ok tt,
    ))
    × ((c : Config) (st : FoldState)
        → is_controller st e.signer ≡ true
        → (step c st e).roster.name ≡ some (trim_name " lab\n"))
    × ((c : Config) (st : FoldState)
        → is_controller st e.signer ≡ false
        → e.signer ≢ c.originator_id
        → step c st e ≡ st)
unfolding model_rename
rename_needs_role_example =
    rename_needs_role env net " lab\n" 70 (online_with member_cfg) member_cfg 4 9 refl refl refl
      refl refl

trimmed : trim_name " lab\n" ≡ "lab"
unfolding model_rename
trimmed = refl
