-- ===== src/Examples/Runs.antt =====
-- The theorems on the client, the coordinator and the values that they use, at concrete inputs.
use teslatlas_home_assistant.Prelude.{
  ◌≡◌, refl, ◌↔◌, ◌⊎◌, String, ℕ, List, [], ◌∷◌, none, some, true, false, length, ltb,
  if◌then◌else◌, ◌≤◌, ◌+◌, str_eq,
}
use teslatlas_home_assistant.Prelude.Int.{ℤ, pos, pos_part, neg_part, ◌≤ℤ◌, fdiv, ◌-ℤ◌}
use teslatlas_home_assistant.Prelude.Text.{codes, eq_codes}
use teslatlas_home_assistant.Errors.{Error, ok, err, is_connection}
use teslatlas_home_assistant.Values.{
  Value, int, str, decimal, scaled_down, empty, entry, get, is_text, equals_one, truthy,
}
use teslatlas_home_assistant.Uuid.{is_own_uuid}
use teslatlas_home_assistant.Uuid.Canonical.{is_canonical, is_own_uuid-canonical}
use teslatlas_home_assistant.Credentials.{
  epoch_milliseconds, is_signed64, signed64_min, signed64_max, is_hex64,
  validate_current_hub_credential, validate_access_token, validate_epoch_milliseconds,
}
use teslatlas_home_assistant.Credentials.Clock.{IsFloor, epoch_milliseconds-IsFloor}
use teslatlas_home_assistant.Credentials.Admission.{
  IsAdmissible, IsExpired, validate_current_hub_credential-IsAdmissible,
  validate_current_hub_credential-IsExpired,
}
use teslatlas_home_assistant.Models.{
  HubEvent, no_status, unknown_vehicle, lookup, create, insert, collect, apply,
}
use teslatlas_home_assistant.Models.Vehicles.{
  keys, AreDistinct, last_with, lookup-create, lookup-apply,
}
use teslatlas_home_assistant.Payload.{
  text, number, optional_number, optional_integer, optional_string, scale, integral, float_limit,
  to_float, uuid, integer, telemetry_age, tls_pin_bytes, vehicle_summary,
}
use teslatlas_home_assistant.Payload.Fields.{Denotes, integer-Denotes, telemetry_age-exact}
use teslatlas_home_assistant.Client.{Stream, chunk, done, vehicles}
use teslatlas_home_assistant.Client.Http.{
  is_json_type, status_verdict, decode_content, decode_response, translate_transport, handle_reply,
  bearer_header, expiry_check, authorization, send, async_json, read_body, max_response_bytes,
}
use teslatlas_home_assistant.Client.Decode.{read_discovery, access_state, read_fields}
use teslatlas_home_assistant.Client.Calls.{
  async_probe, identify, async_pair, async_rotate, async_close, async_current, observation,
  with_bearer, is_other_hub,
}
use teslatlas_home_assistant.Client.Bearer.{Sends, async_json-Sends}
use teslatlas_home_assistant.Client.Bounds.{whole_body, read_body-bounded}
use teslatlas_home_assistant.Client.Create.{create_client, create_client-close}
use teslatlas_home_assistant.Client.Snapshot.{
  vehicle_list, check_unique, run_reads, settle, gather_batch, first_raised, read_batch,
  read_batches, observe, async_snapshot,
}
use teslatlas_home_assistant.Client.Snapshot.Batches.{AllKept, gather_batch-AllKept}
use teslatlas_home_assistant.Client.Snapshot.Order.{Listed, observe-Listed}
use teslatlas_home_assistant.Client.Snapshot.Identity.{
  OnlyDiscovery, foreign_hub, async_snapshot_trusted,
}
use teslatlas_home_assistant.Coordinator.{
  Coordinator, async_rotate_bearer_if_due, rotate_unless_early, poll, async_update_data,
}
use teslatlas_home_assistant.Coordinator.Rotation.{
  Rotates, async_rotate_bearer_if_due-Rotates, rotation_keeps_entry,
}
use teslatlas_home_assistant.Coordinator.Polling.{BacksOff, async_update_data-Schedules}
use teslatlas_home_assistant.Flow.Checks.{saved_bearer}
use teslatlas_home_assistant.Examples.{
  env, client_for, hub_a, hub_b, vehicle_a, vehicle_b, device_a, token_a, info_a, coordinator_a,
  endpoint_a, no_wire, snapshot_a, summaries_a, vehicle_read, noon,
}

async_rotate_bearer_if_due-Rotates_example :
    Rotates coordinator_a (async_rotate_bearer_if_due env coordinator_a).1
async_rotate_bearer_if_due-Rotates_example = async_rotate_bearer_if_due-Rotates env coordinator_a

rotation_keeps_entry_example :
    get "hub_id" (async_rotate_bearer_if_due env coordinator_a).1.entry_data
    ≡ get "hub_id" coordinator_a.entry_data
rotation_keeps_entry_example = rotation_keeps_entry env coordinator_a "hub_id" refl refl

-- The client is closed, so the poll after two failures fails for the connection.
abbrev coordinator_closed : Coordinator
coordinator_closed = record coordinator_a {
  client = record (client_for hub_a) { closed = true };
  entry_data = entry "hub_id" (str hub_a) empty;
}

async_update_data-Schedules_example : BacksOff (2, 60) (async_update_data env coordinator_closed)
unfolding poll async_rotate_bearer_if_due rotate_unless_early get async_snapshot async_probe
    async_json
async_update_data-Schedules_example = async_update_data-Schedules env coordinator_closed

foreign_hub_example :
    ((async_snapshot env (client_for hub_b)).0 ≡ err Error.identity)
    × ((async_pair env (str vehicle_a) (str "secret") (str "name") (client_for hub_b)).0
        ≡ err Error.identity)
    × ((async_rotate env (client_for hub_b)).0 ≡ err Error.identity)
    × OnlyDiscovery (client_for hub_b) (async_snapshot env (client_for hub_b)).1
    × OnlyDiscovery
        (client_for hub_b)
        (async_pair env (str vehicle_a) (str "secret") (str "name") (client_for hub_b)).1
    × OnlyDiscovery (client_for hub_b) (async_rotate env (client_for hub_b)).1
unfolding async_probe async_json authorization send handle_reply translate_transport decode_response
    status_verdict decode_content read_body is_json_type read_discovery uuid is_own_uuid get is_text
    equals_one eq_codes is_other_hub
foreign_hub_example =
    foreign_hub env (client_for hub_b) info_a (str vehicle_a) (str "secret") (str "name") refl refl
      refl

async_json-Sends_example :
    Sends env with_bearer vehicles none
      (client_for hub_a)
      (async_json env with_bearer vehicles none (client_for hub_a)).1
async_json-Sends_example = async_json-Sends env with_bearer vehicles none (client_for hub_a)

snapshot_trusted_example :
    (snapshot_a.info.hub_id ≡ hub_a)
    × ((client_for hub_a).closed ≡ false)
    × AreDistinct (keys snapshot_a.vehicles)
unfolding async_snapshot identify async_probe read_discovery is_text is_other_hub equals_one
    vehicle_list observe check_unique vehicle_summary uuid get is_own_uuid eq_codes text
    read_batches read_batch gather_batch first_raised run_reads async_current async_json
    authorization bearer_header validate_access_token observation access_state read_fields
    decode_content decode_response expiry_check handle_reply is_json_type read_body send
    status_verdict translate_transport settle epoch_milliseconds is_hex64 is_signed64
    validate_epoch_milliseconds is_connection collect create insert float_limit integer integral
    number optional_integer optional_number optional_string scale telemetry_age to_float fdiv ◌-ℤ◌
    lookup
snapshot_trusted_example = async_snapshot_trusted env (client_for hub_a) snapshot_a hub_a refl refl

observe_example :
    (snapshot_a.info ≡ info_a)
    × Listed summaries_a (keys snapshot_a.vehicles)
    × AreDistinct (keys snapshot_a.vehicles)
unfolding observe check_unique vehicle_summary uuid get is_own_uuid eq_codes text read_batches
    read_batch gather_batch first_raised run_reads async_current async_json authorization
    bearer_header validate_access_token observation access_state read_fields decode_content
    decode_response expiry_check handle_reply is_json_type read_body send status_verdict
    translate_transport settle epoch_milliseconds is_hex64 is_signed64 validate_epoch_milliseconds
    is_connection collect create insert float_limit integer integral number optional_integer
    optional_number optional_string scale telemetry_age to_float fdiv ◌-ℤ◌ lookup
observe_example = observe-Listed env info_a summaries_a (client_for hub_a) snapshot_a refl

gather_batch_example :
    (gather_batch env summaries_a (ok vehicle_read ∷ err Error.connection ∷ [])
      ≡ ok (vehicle_read ∷ unknown_vehicle vehicle_b "Two" true ∷ []))
    ↔ AllKept summaries_a
        (ok vehicle_read ∷ err Error.connection ∷ [])
        (vehicle_read ∷ unknown_vehicle vehicle_b "Two" true ∷ [])
gather_batch_example =
    gather_batch-AllKept env summaries_a (ok vehicle_read ∷ err Error.connection ∷ [])
      (vehicle_read ∷ unknown_vehicle vehicle_b "Two" true ∷ []) refl

abbrev two_bytes : List ℕ
two_bytes = 1 ∷ 2 ∷ []

abbrev two_chunks : Stream
two_chunks = chunk (1 ∷ []) (chunk (2 ∷ []) done)

read_body_example :
    (read_body [] two_chunks ≡ ok two_bytes)
    ↔ ((whole_body two_chunks ≡ some two_bytes) × (length two_bytes ≤ max_response_bytes))
read_body_example = read_body-bounded two_chunks two_bytes

own_uuid_example : is_own_uuid (codes hub_a) ≡ is_canonical (codes hub_a)
own_uuid_example = is_own_uuid-canonical (codes hub_a)

integer_example : (integer (decimal (scaled_down (pos 50) 1)) ≡ ok (some (pos 5))) ↔ (
    Denotes (decimal (scaled_down (pos 50) 1)) (pos 5)
    × (signed64_min ≤ℤ pos 5)
    × (pos 5 ≤ℤ signed64_max))
integer_example = integer-Denotes (decimal (scaled_down (pos 50) 1)) (pos 5)

admissible_example :
    (validate_current_hub_credential
        (str token_a)
        (str device_a)
        (int (pos 500000000))
        (pos 1000000)
      ≡ ok (record { access_token = token_a; device_id = device_a; expires_at_ms = pos 500000000 }))
    ↔ ((str token_a ≡ str token_a)
        × (str device_a ≡ str device_a)
        × (int (pos 500000000) ≡ int (pos 500000000))
        × IsAdmissible (pos 1000000) (record {
          access_token = token_a;
          device_id = device_a;
          expires_at_ms = pos 500000000;
        }))
admissible_example =
    validate_current_hub_credential-IsAdmissible (str token_a) (str device_a) (int (pos 500000000))
      (pos 1000000)
      (record { access_token = token_a; device_id = device_a; expires_at_ms = pos 500000000 })

expired_example :
    (validate_current_hub_credential (str token_a) (str device_a) (int (pos 5)) (pos 1000000)
      ≡ err Error.credential_expired)
    ↔ IsExpired (pos 1000000) (str token_a) (int (pos 5))
expired_example =
    validate_current_hub_credential-IsExpired (str token_a) (str device_a) (int (pos 5))
      (pos 1000000)

epoch_example :
    ((ms : ℤ) × (epoch_milliseconds (record { aware = true; micros = pos 1999 }) ≡ ok ms)
      × IsFloor (pos 1999) ms)
    × (epoch_milliseconds (record { aware = false; micros = pos 1999 }) ≡ err Error.contract)
epoch_example = epoch_milliseconds-IsFloor (pos 1999)

telemetry_age_example : telemetry_age (int (pos 990000)) noon ≡ (
    if ltb (neg_part (pos 1000000) + pos_part (pos 990000)) 0
    then err Error.contract
    else ok (some (pos 10)))
unfolding is_signed64 epoch_milliseconds fdiv
telemetry_age_example = telemetry_age-exact (pos 990000) (pos 1000000) noon refl refl

lookup-create_example :
    lookup vehicle_a (create info_a no_status (vehicle_read ∷ []) noon).vehicles
    ≡ last_with vehicle_a (vehicle_read ∷ []) none
lookup-create_example = lookup-create info_a no_status (vehicle_read ∷ []) noon vehicle_a

abbrev event_b : HubEvent
event_b = record {
  event_id = "1";
  vehicle = unknown_vehicle vehicle_b "Three" false;
  received_at = noon;
}

lookup-apply_example :
    (lookup vehicle_b (apply event_b snapshot_a).vehicles ≡ (
      if str_eq event_b.vehicle.vehicle_id vehicle_b
      then some event_b.vehicle
      else lookup vehicle_b snapshot_a.vehicles))
    × ((apply event_b snapshot_a).info ≡ snapshot_a.info)
    × ((apply event_b snapshot_a).status ≡ snapshot_a.status)
    × ((apply event_b snapshot_a).received_at ≡ event_b.received_at)
lookup-apply_example = lookup-apply event_b snapshot_a vehicle_b

create_client_example :
    ((endpoint_a.tls_pin ≡ Value.null)
      × ((async_close (client_for hub_a)).detached ≡ 0)
      × ((async_close (async_close (client_for hub_a))).detached ≡ 0))
    ⊎ ((truthy endpoint_a.use_tls ≡ true)
        × ((pin : String) × (endpoint_a.tls_pin ≡ str pin) × (is_hex64 pin ≡ true))
        × ((async_close (client_for hub_a)).detached ≡ 1)
        × ((async_close (async_close (client_for hub_a))).detached ≡ 1))
unfolding create_client truthy tls_pin_bytes is_hex64
create_client_example =
    create_client-close endpoint_a (saved_bearer (str token_a) (str hub_a) (int (pos 500000000)))
      no_wire (client_for hub_a) refl
