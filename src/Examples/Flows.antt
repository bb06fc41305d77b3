-- ===== src/Examples/Flows.antt =====
-- The theorems on the config flow, the sensors, the setup and the diagnostics, at concrete inputs.
use teslatlas_home_assistant.Prelude.{
  ◌≡◌, refl, ◌⊎◌, inl, inr, ◌∷◌, [], List, String, none, some, true, any,
}
use teslatlas_home_assistant.Prelude.Int.{pos, fdiv, ◌-ℤ◌}
use teslatlas_home_assistant.Prelude.Text.{eq_codes}
use teslatlas_home_assistant.Errors.{Error, is_connection}
use teslatlas_home_assistant.Task.{Task, pure, raise}
use teslatlas_home_assistant.Values.{
  Value, Dict, bool, int, str, empty, entry, get, is_text, equals_one, truthy,
}
use teslatlas_home_assistant.Uuid.{is_own_uuid}
use teslatlas_home_assistant.Credentials.{
  epoch_milliseconds, is_signed64, is_hex64, validate_current_hub_credential, validate_bearer,
  validate_device_id, validate_access_token, validate_epoch_milliseconds,
}
use teslatlas_home_assistant.Models.{HubEndpoint, lookup, create, insert, collect}
use teslatlas_home_assistant.Models.Vehicles.{keys, occurs}
use teslatlas_home_assistant.Payload.{
  text, number, optional_number, optional_integer, optional_string, scale, integral, float_limit,
  to_float, uuid, integer, telemetry_age, tls_pin_bytes, vehicle_summary,
}
use teslatlas_home_assistant.Client.{Wire}
use teslatlas_home_assistant.Client.Http.{
  is_json_type, status_verdict, decode_content, decode_response, translate_transport, handle_reply,
  bearer_header, expiry_check, authorization, send, async_json, read_body,
}
use teslatlas_home_assistant.Client.Decode.{read_discovery, access_state, read_fields}
use teslatlas_home_assistant.Client.Calls.{
  async_probe, identify, async_current, observation, is_other_hub,
}
use teslatlas_home_assistant.Client.Create.{create_client}
use teslatlas_home_assistant.Client.Snapshot.{
  vehicle_list, check_unique, run_reads, settle, gather_batch, first_raised, read_batch,
  read_batches, observe, async_snapshot,
}
use teslatlas_home_assistant.Client.Snapshot.Identity.{discovery_request}
use teslatlas_home_assistant.Coordinator.{Coordinator}
use teslatlas_home_assistant.Flow.{
  Flow, Pending, Candidate, World, updated, async_remove, entry_endpoint,
}
use teslatlas_home_assistant.Flow.Checks.{
  Invitation, validate_issued_access, validate_access, issued_credential_error,
  has_saved_origin_binding,
}
use teslatlas_home_assistant.Flow.User.{
  EndpointInput, input_endpoint, entry_data_of, finish_pairing, validate_pairing,
  async_step_pair_validate,
}
use teslatlas_home_assistant.Flow.Reauth.{
  reauth_is_current, finish_reauth, settle_reauth, validate_reauth, async_step_reauth_validate,
  async_step_reauth_confirm,
}
use teslatlas_home_assistant.Flow.Reconfigure.{
  approved_replacement, finish_replacement, settle_replacement, validate_replacement,
  async_step_reconfigure_validate, async_step_reconfigure_confirm,
}
use teslatlas_home_assistant.Flow.Access.{IsVerified, async_step_pair_validate-Creates}
use teslatlas_home_assistant.Flow.Updates.{
  IsReauthorized, IsApproved, async_step_reauth_validate-Updates,
  async_step_reconfigure_validate-Updates,
}
use teslatlas_home_assistant.Flow.Cancel.{Stops, removed_reauth-Stops}
use teslatlas_home_assistant.Flow.Origin.{async_step_reconfigure_confirm_unbound}
use teslatlas_home_assistant.Flow.Entry.{start, next, Step, run_step}
use teslatlas_home_assistant.Flow.Entry.Hub.{Reaches-hub}
use teslatlas_home_assistant.Sensor.{no_sensors}
use teslatlas_home_assistant.Sensor.Once.{IsOnce, follow, follow-IsOnce_all}
use teslatlas_home_assistant.Setup.{async_setup_entry}
use teslatlas_home_assistant.Setup.Outcomes.{IsTidy, async_setup_entry-IsTidy}
use teslatlas_home_assistant.Diagnostics.{async_get_config_entry_diagnostics}
use teslatlas_home_assistant.Diagnostics.Privacy.{
  disguise, shown, IsDisguised, diagnostics_anonymous,
}
use teslatlas_home_assistant.Examples.{
  hub_b, vehicle_a, token_b, endpoint_a, entry_a, no_wire, result_b, flow_a, quiet, snapshot_a,
}

reauth_updates_example :
    (p : Pending) × (flow_a.pending ≡ some p)
    × IsVerified quiet.env (entry_endpoint entry_a) p.result (get "hub_id" entry_a)
    × ((wire : Wire) × IsReauthorized flow_a.reauth_generation p
          (record flow_a { wire = wire })
          (async_step_reauth_validate quiet true flow_a).1)
unfolding async_step_reauth_validate validate_reauth settle_reauth finish_reauth reauth_is_current
    entry_endpoint check_unique vehicle_summary uuid get is_own_uuid eq_codes text read_batches
    read_batch gather_batch first_raised run_reads async_current async_json authorization
    bearer_header validate_access_token observation access_state read_fields decode_content
    decode_response expiry_check handle_reply is_json_type read_body send status_verdict
    translate_transport settle epoch_milliseconds is_hex64 is_signed64 validate_epoch_milliseconds
    is_connection collect create insert float_limit integer integral number optional_integer
    optional_number optional_string scale telemetry_age to_float fdiv ◌-ℤ◌ lookup async_snapshot
    identify async_probe read_discovery is_text is_other_hub equals_one vehicle_list observe
    create_client truthy tls_pin_bytes validate_issued_access issued_credential_error
    validate_access validate_current_hub_credential validate_bearer validate_device_id
reauth_updates_example = async_step_reauth_validate-Updates quiet flow_a refl

reconfigure_updates_example :
    (c : Candidate) × (hub_id : String) × (p : Pending) × (approved_replacement flow_a
      ≡ some (c, hub_id))
    × (flow_a.pending ≡ some p)
    × IsVerified quiet.env c.endpoint p.result (str hub_id)
    × ((wire : Wire) × IsApproved c hub_id p
          (record flow_a { wire = wire })
          (async_step_reconfigure_validate quiet true flow_a).1)
unfolding async_step_reconfigure_validate validate_replacement settle_replacement finish_replacement
    approved_replacement check_unique vehicle_summary uuid get is_own_uuid eq_codes text
    read_batches read_batch gather_batch first_raised run_reads async_current async_json
    authorization bearer_header validate_access_token observation access_state read_fields
    decode_content decode_response expiry_check handle_reply is_json_type read_body send
    status_verdict translate_transport settle epoch_milliseconds is_hex64 is_signed64
    validate_epoch_milliseconds is_connection collect create insert float_limit integer integral
    number optional_integer optional_number optional_string scale telemetry_age to_float fdiv ◌-ℤ◌
    lookup async_snapshot identify async_probe read_discovery is_text is_other_hub equals_one
    vehicle_list observe create_client truthy tls_pin_bytes validate_issued_access
    issued_credential_error validate_access validate_current_hub_credential validate_bearer
    validate_device_id
reconfigure_updates_example = async_step_reconfigure_validate-Updates quiet flow_a refl

pair_creates_example :
    (endpoint : HubEndpoint) × (p : Pending) × (flow_a.endpoint ≡ some endpoint)
    × (flow_a.pending ≡ some p)
    × IsVerified quiet.env endpoint p.result (str p.result.info.hub_id)
    × ("Teslatlas Hub" ≡ p.result.info.name)
    × (entry_data_of endpoint_a result_b ≡ entry_data_of endpoint p.result)
unfolding async_step_pair_validate validate_pairing finish_pairing check_unique vehicle_summary uuid
    get is_own_uuid eq_codes text read_batches read_batch gather_batch first_raised run_reads
    async_current async_json authorization bearer_header validate_access_token observation
    access_state read_fields decode_content decode_response expiry_check handle_reply is_json_type
    read_body send status_verdict translate_transport settle epoch_milliseconds is_hex64 is_signed64
    validate_epoch_milliseconds is_connection collect create insert float_limit integer integral
    number optional_integer optional_number optional_string scale telemetry_age to_float fdiv ◌-ℤ◌
    lookup async_snapshot identify async_probe read_discovery is_text is_other_hub equals_one
    vehicle_list observe create_client truthy tls_pin_bytes validate_issued_access
    issued_credential_error validate_access validate_current_hub_credential validate_bearer
    validate_device_id
pair_creates_example =
    async_step_pair_validate-Creates quiet flow_a "Teslatlas Hub"
      (entry_data_of endpoint_a result_b) refl

abbrev invitation : Invitation
invitation = record { pairing_id = str vehicle_a; secret = str "secret"; device_name = str "Home" }

abbrev pending_b : Pending
pending_b = record { serial = 0; result = result_b }

-- Home Assistant removes the flow while a step waits.
abbrev removing : World
removing = record quiet { meanwhile = async_remove }

removed_example :
    ((x : Flow) × Stops
        (async_remove x)
        (async_step_reauth_confirm removing (some invitation) flow_a))
    × ((x : Flow) × Stops (async_remove x) (validate_reauth removing pending_b flow_a))
unfolding async_remove
removed_example = removed_reauth-Stops removing (λ f. refl) invitation pending_b flow_a

abbrev unpinned : EndpointInput
unpinned = record { host = "new.local"; port = pos 443; use_tls = true; tls_pin = some token_b }

unbound_example :
    (¬ ((async_step_reconfigure_confirm quiet (some unpinned) flow_a).0 ≡ updated))
    × ((async_step_reconfigure_confirm quiet (some unpinned) flow_a).1.entry_data ≡ entry_a)
    × (((async_step_reconfigure_confirm quiet (some unpinned) flow_a).1.wire.sent ≡ [])
        ⊎ ((async_step_reconfigure_confirm quiet (some unpinned) flow_a).1.wire.sent
            ≡ discovery_request ∷ []))
unfolding has_saved_origin_binding input_endpoint get is_text truthy
unbound_example = async_step_reconfigure_confirm_unbound quiet unpinned flow_a refl

abbrev after_validation : Flow
after_validation = (run_step quiet (Step.reauth_validate true) flow_a).1

reaches_example : get "hub_id" after_validation.entry_data ≡ get "hub_id" flow_a.entry_data
reaches_example =
    Reaches-hub quiet (λ f. refl) flow_a after_validation (next start (Step.reauth_validate true))

follow_example :
    IsOnce (follow (λ k. none) (snapshot_a ∷ snapshot_a ∷ []) no_sensors)
    × ((k : String)
        → any (λ s. occurs k (keys s.vehicles)) (snapshot_a ∷ snapshot_a ∷ []) ≡ true
        → occurs k (follow (λ k. none) (snapshot_a ∷ snapshot_a ∷ []) no_sensors).known_vehicle_ids
          ≡ true)
follow_example = follow-IsOnce_all (λ k. none) (snapshot_a ∷ snapshot_a ∷ [])

-- The first refresh fails.
abbrev refresh : Task Coordinator (Unit {0})
refresh = raise Error.connection

abbrev forward : Task Coordinator (Unit {0})
forward = pure tt

setup_example :
    IsTidy refresh forward entry_a no_wire (async_setup_entry refresh forward entry_a no_wire)
setup_example = async_setup_entry-IsTidy refresh forward entry_a no_wire

-- Redaction of data without nested objects.
redact : Dict → List String → Dict
redact empty ks = empty
redact (entry k v d) ks = entry k (shown (λ ks w. w) ks k v) (redact d ks)

redact_entry :
    (k : String) (v : Value) (d : Dict) (ks : List String)
    → redact (entry k v d) ks ≡ entry k (shown (λ ks w. w) ks k v) (redact d ks)
unfolding redact
redact_entry k v d ks = refl

-- The same client settings for another Hub.
abbrev disguised_entry : Dict
disguised_entry = entry "host" (str "other.local") (
    entry "port" (int (pos 8443)) (
      entry "use_tls" (bool true) (
        entry "tls_pin" (str token_b) (
          entry "hub_id" (str hub_b) (
            entry "access_token" (str token_b) (
              entry "device_id" (str vehicle_a)
                (entry "token_expires_at_ms" (int (pos 500000000)) empty)))))))

entry-IsDisguised : IsDisguised entry_a disguised_entry
entry-IsDisguised = (
  refl,
  inr (refl, refl, refl),
  (
    refl,
    inr (refl, refl, refl),
    (
      refl,
      inl refl,
      (
        refl,
        inr (refl, refl, refl),
        (
          refl,
          inr (refl, refl, refl),
          (refl, inr (refl, refl, refl), (refl, inr (refl, refl, refl), (refl, inl refl, tt))),
        ),
      ),
    ),
  ),
)

diagnostics_example :
    async_get_config_entry_diagnostics redact
      (λ ks. ks)
      disguised_entry
      (1, 2)
      true
      (some (disguise hub_b "Other" (λ k. token_b) (λ v. record v { name = "X" }) snapshot_a))
    ≡ async_get_config_entry_diagnostics redact (λ ks. ks) entry_a (1, 2) true (some snapshot_a)
diagnostics_example =
    diagnostics_anonymous redact (λ ks w. w) redact_entry (λ ks. ks) entry_a disguised_entry
      entry-IsDisguised (1, 2) true snapshot_a hub_b "Other" (λ k. token_b)
      (λ v. record v { name = "X" }) (λ v. refl)
