-- ===== src/Tests/DesktopCases.antt =====
-- The theorems about the desktop app (crates/ipn-gui/src/actions.rs and notify.rs) and about the
-- events that the daemon sends it (crates/ipn-daemon/src/main.rs), at small inputs.
use nullgate.Common.{◌+◌, suc, ◌≡◌, refl, true, false, none, some, List, [], ◌∷◌}
use nullgate.Common.HashMap.{get, put}
use nullgate.Common.Results.{ok}
use nullgate.Common.Text.{Text, codes, is_whitespace}
use nullgate.Actions.{MemberView, blue, display_name, expand, tokenize, run_action}
use nullgate.Actions.Split.{AllPlain, quote_all, tokenize-quote_all}
use nullgate.Actions.Expand.{Part, literal, hole, Placeholder, ValuesNoBrace, NoBraces}
use nullgate.Daemon.Subscribe.{
  join_sas, changed, lagged, quiet, status, join_sas_event, subscribe_loop, burst_is_coalesced,
}
use nullgate.Notify.{text_key, online_transition_notifies, notify, notify_newly_online}

model : Unit {0}
unfolding expand tokenize run_action notify notify_newly_online online_transition_notifies get put
model = tt

abbrev view : MemberView
view = record {
  node_id = codes "a1b2";
  label = some (codes "den");
  hostname = none;
  virtual_ip = some (codes "10.0.0.7");
}

line_is_split : tokenize (codes " ssh  \"a b\"c ") ≡ codes "ssh" ∷ codes "a bc" ∷ []
unfolding model is_whitespace
line_is_split = refl

command_is_run :
    run_action
      (record { label = []; color = blue; command = codes "ssh {ip}"; terminal = true })
      view
    ≡ ok (record { program = codes "ssh"; args = codes "10.0.0.7" ∷ []; in_terminal = true })
unfolding model is_whitespace
command_is_run = refl

abbrev arguments : List Text
arguments = codes "ssh" ∷ codes "my key" ∷ [] ∷ []

ssh_args-AllPlain : AllPlain arguments
ssh_args-AllPlain =
    ((refl, (refl, (refl, tt))), ((refl, (refl, (refl, (refl, (refl, (refl, tt)))))), (tt, tt)))

tokenize-quote_all_example : tokenize (quote_all arguments) ≡ arguments
tokenize-quote_all_example = tokenize-quote_all arguments ssh_args-AllPlain

view-ValuesNoBrace : ValuesNoBrace view
unfolding display_name
view-ValuesNoBrace Placeholder.ip =
    (refl, (refl, (refl, (refl, (refl, (refl, (refl, (refl, tt))))))))
view-ValuesNoBrace Placeholder.name = (refl, (refl, (refl, tt)))
view-ValuesNoBrace Placeholder.hostname = tt
view-ValuesNoBrace Placeholder.node_id = (refl, (refl, (refl, (refl, tt))))

abbrev parts : List Part
parts = literal (codes "me@") ∷ hole Placeholder.ip ∷ hole Placeholder.name ∷ []

parts-NoBraces : NoBraces parts
parts-NoBraces = ((refl, (refl, (refl, tt))), tt)

second_notice_is_held : (notify (codes "up") 10_000 (notify (codes "up") 1 []).1).0 ≡ false
unfolding model
second_notice_is_held = refl

burst_is_coalesced_example :
    subscribe_loop (1 + suc 0) false (changed ∷ join_sas [] ∷ lagged ∷ quiet ∷ [])
    ≡ join_sas_event [] ∷ status ∷ []
unfolding subscribe_loop
burst_is_coalesced_example = burst_is_coalesced (changed ∷ join_sas [] ∷ lagged ∷ []) [] 0 false tt
