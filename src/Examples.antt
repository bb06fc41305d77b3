-- ===== src/Examples.antt =====
-- Concrete inputs: a Hub with two vehicles, of which one cannot be reached, and its clients, on which
-- the theorems of the development are applied.
pub mod Runs
pub mod Flows
pub mod Session
pub mod Contracts
pub mod Wires
use teslatlas_home_assistant.Prelude.{
  ℕ, suc, String, ◌==◌, Bool, true, false, List, [], ◌∷◌, Option, none, some, if◌then◌else◌, str_eq,
}
use teslatlas_home_assistant.Prelude.Int.{ℤ, pos}
use teslatlas_home_assistant.Errors.{Error, Result, ok, err}
use teslatlas_home_assistant.Values.{
  Value, Items, Dict, null, bool, int, str, list, dict, nil, cons, empty, entry,
}
use teslatlas_home_assistant.Credentials.{Datetime}
use teslatlas_home_assistant.Models.{
  HubEndpoint, HubInfo, PairingResult, VehicleState, HubSnapshot, no_status, unknown_vehicle,
}
use teslatlas_home_assistant.Client.{
  Env, Client, Wire, Request, Target, Reply, Response, Stream, chunk, done, failed, response,
}
use teslatlas_home_assistant.Coordinator.{Coordinator}
use teslatlas_home_assistant.Flow.{Flow, Pending, Candidate, World}

abbrev pub hub_a : String
hub_a = "11111111-2222-4333-8444-555555555555"

abbrev pub hub_b : String
hub_b = "99999999-2222-4333-8444-555555555555"

abbrev pub vehicle_a : String
vehicle_a = "aaaaaaaa-2222-4333-8444-555555555555"

abbrev pub vehicle_b : String
vehicle_b = "bbbbbbbb-2222-4333-8444-555555555555"

abbrev pub device_a : String
device_a = "dddddddd-2222-4333-8444-555555555555"

abbrev pub token_a : String
token_a = "aaaaaaaaaaaaaaaaaaaaaaaaaaaaaaaaaaaaaaaaaaaaaaaaaaaaaaaaaaaaaaaa"

abbrev pub token_b : String
token_b = "bbbbbbbbbbbbbbbbbbbbbbbbbbbbbbbbbbbbbbbbbbbbbbbbbbbbbbbbbbbbbbbb"

abbrev pub discovery_payload : Dict
discovery_payload = entry "hub_id" (str hub_a) (
    entry "protocol" (str "teslatlas-sync") (
      entry "protocol_major" (int (pos 1)) (
        entry "api_versions" (list (cons (str "1.0") nil)) (
          entry "capabilities" (list (cons (str "query.vehicles") (cons (str "query.current") nil)))
            empty))))

abbrev pub summary : String → String → Value
summary id name = dict (entry "vehicle_id" (str id) (entry "display_name" (str name) empty))

abbrev pub vehicles_payload : Dict
vehicles_payload =
    entry "vehicles" (list (cons (summary vehicle_a "One") (cons (summary vehicle_b "Two") nil)))
      empty

abbrev pub current_payload : Dict
current_payload =
    entry "vehicle_id" (str vehicle_a)
      (entry "battery_level" (int (pos 80)) (entry "observed_at_ms" (int (pos 990000)) empty))

abbrev pub credential_payload : Dict
credential_payload =
    entry "access_token" (str token_b)
      (entry "device_id" (str device_a) (entry "expires_at_ms" (int (pos 900000000)) empty))

-- The bodies are single bytes, which stand for the payloads.
abbrev pub loads : List ℕ → Option Value
loads (n ∷ []) =
    if n == 1
    then some (dict discovery_payload)
    else if n == 2
    then some (dict vehicles_payload)
    else if n == 3
    then some (dict current_payload)
    else some (dict credential_payload)
loads _ = none

abbrev pub answer : ℕ → Reply
answer n = response (record {
  status = 200;
  content_length = none;
  content_type = some "application/json; charset=utf-8";
  content = chunk (n ∷ []) done;
})

abbrev pub reply_to : Target → Reply
reply_to Target.discovery = answer 1
reply_to Target.vehicles = answer 2
reply_to Target.rotate = answer 4
reply_to (Target.current id) = if str_eq id vehicle_a then answer 3 else failed
reply_to (Target.claim id) = answer 4

-- The clock stands at 1000000 milliseconds.
abbrev pub env : Env
env = record {
  clock = λ n. record { aware = true; micros = pos 1000000000 };
  reply = λ n r. reply_to r.target;
  builds_url = λ e. true;
  loads = loads;
  earliest = λ es. 0;
}

abbrev pub info_a : HubInfo
info_a = record {
  hub_id = hub_a;
  name = "Teslatlas Hub";
  protocol_version = "hub-http-v1@1.0.0";
  capabilities = "query.vehicles" ∷ "query.current" ∷ [];
}

abbrev pub endpoint_a : HubEndpoint
endpoint_a = record {
  host = str "hub.local";
  port = int (pos 443);
  use_tls = bool true;
  tls_pin = str token_a;
}

abbrev pub no_wire : Wire
no_wire = record { ticks = 0; sent = [] }

-- A client with a bearer that expects the Hub.
abbrev pub client_for : String → Client
client_for hub_id = record {
  endpoint = endpoint_a;
  bearer_token = str token_a;
  bearer_expires_at_ms = int (pos 500000000);
  expected_hub_id = str hub_id;
  owns_session_wrapper = true;
  closed = false;
  detached = 0;
  wire = no_wire;
}

abbrev pub entry_a : Dict
entry_a = entry "host" (str "hub.local") (
    entry "port" (int (pos 443)) (
      entry "use_tls" (bool true) (
        entry "tls_pin" (str token_a) (
          entry "hub_id" (str hub_a) (
            entry "access_token" (str token_a) (
              entry "device_id" (str device_a)
                (entry "token_expires_at_ms" (int (pos 500000000)) empty)))))))

abbrev pub coordinator_a : Coordinator
coordinator_a = record {
  client = client_for hub_a;
  entry_data = entry_a;
  failure_count = 2;
  update_interval = 60;
  is_shut_down = false;
}

abbrev pub result_b : PairingResult
result_b = record {
  info = info_a;
  access_token = token_b;
  device_id = device_a;
  expires_at_ms = pos 900000000;
}

abbrev pub flow_a : Flow
flow_a = record {
  endpoint = some endpoint_a;
  info = some info_a;
  pending = some (record { serial = 0; result = result_b });
  replacement_endpoint = some (record { serial = 1; endpoint = endpoint_a });
  replacement_hub_id = some (str hub_a);
  replacement_approved = true;
  flow_removed = false;
  reauth_generation = 3;
  is_reauth = true;
  cur_step = none;
  entry_data = entry_a;
  serials = 2;
  wire = no_wire;
}

-- A world in which nothing happens while a step waits.
abbrev pub quiet : World
quiet = record {
  env = env;
  meanwhile = λ f. f;
  is_in_progress = λ h. false;
  is_configured = λ h. false;
  entry_unique_id = hub_a;
}

abbrev pub vehicle_read : VehicleState
vehicle_read = record {
  vehicle_id = vehicle_a;
  name = "One";
  state_of_charge = some (pos 80);
  charging_state = none;
  charging_power_kw = none;
  charge_limit_percent = none;
  estimated_range_km = none;
  odometer_km = none;
  activity_state = none;
  inside_temperature_c = none;
  outside_temperature_c = none;
  access_state = none;
  software_version = none;
  software_update_state = none;
  telemetry_age_seconds = some (pos 10);
  data_quality = none;
  current_read_failed = false;
}

abbrev pub noon : Datetime
noon = record { aware = true; micros = pos 1000000000 }

abbrev pub snapshot_a : HubSnapshot
snapshot_a = record {
  info = info_a;
  status = no_status;
  vehicles = (vehicle_a, vehicle_read) ∷ (vehicle_b, unknown_vehicle vehicle_b "Two" true) ∷ [];
  received_at = noon;
}

abbrev pub summaries_a : List Value
summaries_a = summary vehicle_a "One" ∷ summary vehicle_b "Two" ∷ []
