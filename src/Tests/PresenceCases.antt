-- ===== src/Tests/PresenceCases.antt =====
-- Runs and theorems at the inputs of the unit tests (crates/ipn-core/src/presence.rs).
use nullgate.Common.{ℕ, ◌≡◌, refl, true, false, none, some, [], ◌∷◌, List}
use nullgate.Common.HashMap.{nat_key, get, put}
use nullgate.Presence.{
  Heartbeat, Observation, Tracker, heard, observed, entry, record_heartbeat, set_last_seen,
  record_connection, set_virtual_ip, set_location,
}
use nullgate.Presence.History.{
  Call, heartbeat, seed, connection, calls_from, call, latest, calls_from-last_seen,
}

model : Unit {0}
unfolding get put heard observed record_heartbeat set_last_seen record_connection set_virtual_ip
    set_location call calls_from
model = tt

abbrev beat : ℕ → ℕ → Heartbeat ℕ
beat name ts = record {
  hostname = name;
  public_ip = none;
  access_disabled = false;
  hidden = false;
  ts = ts;
}

abbrev seen_once : Tracker ℕ
unfolding model
seen_once = (record_heartbeat 5 (beat 7 1000) []).1

first_sighting : (record_heartbeat 5 (beat 7 1000) []).0 ≡ true
unfolding model
first_sighting = refl

routine_is_quiet : (record_heartbeat 5 (beat 7 4000) seen_once).0 ≡ false
unfolding model
routine_is_quiet = refl

renamed : (record_heartbeat 5 (beat 8 4000) seen_once).0 ≡ true
unfolding model
renamed = refl

resurfaced : (record_heartbeat 5 (beat 7 700_000) seen_once).0 ≡ true
unfolding model
resurfaced = refl

-- The port flaps, and nothing else changes.
abbrev flap : Observation ℕ
flap = record {
  observed_addr = some 3;
  direct = none;
  local_ip = none;
  public_ip = none;
  online = false;
}

flap_is_quiet : (record_connection 5 flap seen_once).0 ≡ false
unfolding model
flap_is_quiet = refl

-- A late heartbeat, a seed and a connection.
abbrev history : List (Call ℕ)
history =
    heartbeat 5 (beat 7 9000) ∷ heartbeat 5 (beat 8 2000) ∷ seed 5 8000 ∷ connection 5 flap ∷ []

calls_from-last_seen_example :
    (entry 5 (calls_from seen_once history)).last_seen
    ≡ latest 5 (entry 5 seen_once).last_seen history
calls_from-last_seen_example = calls_from-last_seen seen_once history 5
