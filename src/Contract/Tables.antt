-- ===== src/Contract/Tables.antt =====
-- tools/matrix_contract.py: the constants and the tables of the contract.
use teslatlas_home_assistant.Prelude.{
  ℕ, String, true, false, List, [], ◌∷◌, Option, none, some, str_eq, if◌then◌else◌,
}
use teslatlas_home_assistant.Prelude.Int.{pos}
use teslatlas_home_assistant.Json.{
  null, bool, int, float, shifted_down, str, list, Members, items, members,
}

abbrev pub adapter_id : String
adapter_id = "home_assistant"

abbrev pub product_version : String
product_version = "2026.36.2"

abbrev pub home_assistant_version : String
home_assistant_version = "2026.8.3"

abbrev pub python_version : String
python_version = "3.14.2"

abbrev pub unknown_vehicle : String
unknown_vehicle = "33333333-3333-4333-8333-333333333333"

abbrev pub unicode_name : String
unicode_name = "Interop – Árvíztűrő 🚗"

abbrev pub archive_role : String
archive_role = "home_assistant_integration_archive"

abbrev pub source_role : String
source_role = "home_assistant_source"

abbrev pub current_member_paths : List String
current_member_paths =
    "__init__.py" ∷ "client.py" ∷ "config_flow.py" ∷ "const.py" ∷ "coordinator.py"
    ∷ "credentials.py" ∷ "current_hub_client.py" ∷ "diagnostics.py" ∷ "entity.py" ∷ "manifest.json"
    ∷ "models.py" ∷ "profile/hub-http-v1/1.0.0/SHA256SUMS"
    ∷ "profile/hub-http-v1/1.0.0/auth.schema.json" ∷ "profile/hub-http-v1/1.0.0/cases.json"
    ∷ "profile/hub-http-v1/1.0.0/discovery.schema.json"
    ∷ "profile/hub-http-v1/1.0.0/errors.schema.json"
    ∷ "profile/hub-http-v1/1.0.0/examples/claim.json"
    ∷ "profile/hub-http-v1/1.0.0/examples/current.json"
    ∷ "profile/hub-http-v1/1.0.0/examples/discovery.json"
    ∷ "profile/hub-http-v1/1.0.0/examples/drives.json"
    ∷ "profile/hub-http-v1/1.0.0/examples/health.json"
    ∷ "profile/hub-http-v1/1.0.0/examples/invitation.json"
    ∷ "profile/hub-http-v1/1.0.0/examples/ready.json"
    ∷ "profile/hub-http-v1/1.0.0/examples/vehicles.json"
    ∷ "profile/hub-http-v1/1.0.0/field-semantics.json" ∷ "profile/hub-http-v1/1.0.0/openapi.json"
    ∷ "profile/hub-http-v1/1.0.0/profile.json" ∷ "profile/hub-http-v1/1.0.0/resources.schema.json"
    ∷ "profile/hub-http-v1/1.0.0/sync-regression.json" ∷ "sensor.py" ∷ "strings.json"
    ∷ "translations/en.json" ∷ []

abbrev pub required_loaded_modules : List (String × String)
required_loaded_modules =
    ("custom_components.teslatlas_hub", "__init__.py")
    ∷ ("custom_components.teslatlas_hub.client", "client.py")
    ∷ ("custom_components.teslatlas_hub.config_flow", "config_flow.py")
    ∷ ("custom_components.teslatlas_hub.const", "const.py")
    ∷ ("custom_components.teslatlas_hub.coordinator", "coordinator.py")
    ∷ ("custom_components.teslatlas_hub.credentials", "credentials.py")
    ∷ ("custom_components.teslatlas_hub.current_hub_client", "current_hub_client.py")
    ∷ ("custom_components.teslatlas_hub.entity", "entity.py")
    ∷ ("custom_components.teslatlas_hub.models", "models.py")
    ∷ ("custom_components.teslatlas_hub.sensor", "sensor.py")
    ∷ []

abbrev pub optional_loaded_modules : List (String × String)
optional_loaded_modules = ("custom_components.teslatlas_hub.diagnostics", "diagnostics.py") ∷ []

abbrev pub decision_codes : List String
decision_codes =
    "accepted" ∷ "runner_owned_service_runtime" ∷ "case_shape" ∷ "unknown_case" ∷ "wrong_context"
    ∷ "wrong_actor" ∷ "wrong_source_role" ∷ "wrong_artifact_role" ∷ "installed_manifest_mismatch"
    ∷ "invocation_missing" ∷ "operation_mismatch" ∷ "sequence_mismatch" ∷ "raw_missing"
    ∷ "raw_identity_mismatch" ∷ "raw_fact_mismatch" ∷ "request_mismatch" ∷ "literal_mismatch"
    ∷ "cleanup_failure" ∷ "independent_observation_pending" ∷ []

abbrev pub required_cases : List String
required_cases =
    "candidate_artifact_identity" ∷ "installed_service_runtime" ∷ "discovery_identity_profile"
    ∷ "unauthenticated_discovery" ∷ "bad_invitation" ∷ "expired_invitation" ∷ "replayed_invitation"
    ∷ "real_auth" ∷ "credential_lifecycle_reauth" ∷ "revocation" ∷ "unknown_vehicle"
    ∷ "exact_current_values" ∷ "endpoint_restart" ∷ "outage_recovery"
    ∷ "unsupported_operation_zero_requests" ∷ "credential_loss_reauthentication"
    ∷ "installed_home_assistant_runtime" ∷ "polling_transport_zero_sse" ∷ []

-- The actor and the operations of a case.
unfoldable pub case_bindings : List (String × (String × List String))
case_bindings =
    ("candidate_artifact_identity", ("ha_flow", "observe_installed_runtime" ∷ []))
    ∷ ("installed_service_runtime", ("ha_flow", "observe_installed_runtime" ∷ []))
    ∷ ("discovery_identity_profile", ("ha_client", "probe" ∷ []))
    ∷ ("unauthenticated_discovery", ("ha_client", "probe" ∷ []))
    ∷ ("bad_invitation", ("ha_client", "bad_pair" ∷ []))
    ∷ ("expired_invitation", ("ha_client", "expired_pair" ∷ []))
    ∷ ("replayed_invitation", ("ha_client", "replay_pair" ∷ []))
    ∷ ("real_auth", ("ha_flow", "config_flow_setup" ∷ []))
    ∷ (
      "credential_lifecycle_reauth",
      ("ha_flow", "revocation_refresh" ∷ "reauthentication_flow" ∷ []),
    )
    ∷ ("revocation", ("ha_flow", "revocation_refresh" ∷ []))
    ∷ ("unknown_vehicle", ("ha_client", "unknown_current" ∷ []))
    ∷ ("exact_current_values", ("ha_flow", "initial_poll" ∷ "later_poll" ∷ []))
    ∷ ("endpoint_restart", ("ha_flow", "endpoint_restart_poll" ∷ []))
    ∷ ("outage_recovery", ("ha_flow", "outage_poll" ∷ []))
    ∷ ("unsupported_operation_zero_requests", ("ha_client", "unsupported_surface" ∷ []))
    ∷ (
      "credential_loss_reauthentication",
      ("ha_flow", "revocation_refresh" ∷ "reauthentication_flow" ∷ []),
    )
    ∷ ("installed_home_assistant_runtime", ("ha_flow", "observe_installed_runtime" ∷ []))
    ∷ (
      "polling_transport_zero_sse",
      (
        "ha_flow",
        "config_flow_setup" ∷ "initial_poll" ∷ "later_poll" ∷ "reauthentication_flow"
            ∷ "endpoint_restart_poll" ∷ "outage_poll" ∷ "unload" ∷ [],
      ),
    )
    ∷ []

abbrev pub unauthenticated_discovery_facts : Members
unauthenticated_discovery_facts = members (
    ("discovery_status", int (pos 200))
    ∷ ("authorization_headers", int (pos 0))
    ∷ ("credential_absent", bool true)
    ∷ [])

abbrev pub bad_invitation_facts : Members
bad_invitation_facts = members (
    ("claim_status", int (pos 401))
    ∷ ("typed_error", str "HubPairingError")
    ∷ ("credential_created", bool false)
    ∷ [])

abbrev pub expired_invitation_facts : Members
expired_invitation_facts = members (
    ("claim_status", int (pos 401))
    ∷ ("typed_error", str "HubPairingError")
    ∷ ("credential_created", bool false)
    ∷ [])

abbrev pub replayed_invitation_facts : Members
replayed_invitation_facts = members (
    ("claim_status", int (pos 401))
    ∷ ("typed_error", str "HubPairingError")
    ∷ ("credential_created", bool false)
    ∷ [])

abbrev pub real_auth_facts : Members
real_auth_facts = members (
    ("claim_status", int (pos 200))
    ∷ ("vehicles", int (pos 2))
    ∷ ("config_entry_loaded", bool true)
    ∷ [])

abbrev pub credential_lifecycle_reauth_facts : Members
credential_lifecycle_reauth_facts = members (
    ("fresh_claim_status", int (pos 200))
    ∷ ("entry_id_preserved", bool true)
    ∷ ("registry_ids_preserved", bool true)
    ∷ ("later_poll_status", int (pos 200))
    ∷ [])

abbrev pub revocation_facts : Members
revocation_facts = members (
    ("old_credential_status", int (pos 401))
    ∷ ("typed_error", str "HubAuthenticationError")
    ∷ ("reauth_started", bool true)
    ∷ [])

abbrev pub unknown_vehicle_facts : Members
unknown_vehicle_facts = members (
    ("http_status", int (pos 404))
    ∷ ("vehicle_id", str "33333333-3333-4333-8333-333333333333")
    ∷ ("state_of_charge", null)
    ∷ ("inside_temperature_c", null)
    ∷ [])

abbrev pub exact_current_values_facts : Members
exact_current_values_facts = members (
    ("vehicles", int (pos 2))
    ∷ ("sensors_per_vehicle", int (pos 13))
    ∷ ("initial_battery", int (pos 0))
    ∷ ("initial_inside_temperature_c", float (shifted_down (pos 43) 1))
    ∷ ("later_battery", int (pos 1))
    ∷ ("later_inside_temperature_c", float (shifted_down (pos 45) 1))
    ∷ ("empty_state_of_charge", null)
    ∷ ("unicode_name", str unicode_name)
    ∷ [])

abbrev pub endpoint_restart_facts : Members
endpoint_restart_facts = members (
    ("same_hub", bool true)
    ∷ ("new_service_generation", bool true)
    ∷ ("poll_status", int (pos 200))
    ∷ [])

abbrev pub outage_recovery_facts : Members
outage_recovery_facts = members (
    ("unavailable_observed", bool true)
    ∷ ("recovered", bool true)
    ∷ ("registry_ids_preserved", bool true)
    ∷ [])

abbrev pub unsupported_operation_zero_requests_facts : Members
unsupported_operation_zero_requests_facts = members (
    ("operations", list (items (str "commands" ∷ str "drives" ∷ str "sse" ∷ [])))
    ∷ ("outgoing_requests", int (pos 0))
    ∷ [])

abbrev pub credential_loss_reauthentication_facts : Members
credential_loss_reauthentication_facts = members (
    ("credential_loss_observed", bool true)
    ∷ ("reauth_started", bool true)
    ∷ ("reauth_completed", bool true)
    ∷ ("entry_id_preserved", bool true)
    ∷ ("registry_ids_preserved", bool true)
    ∷ [])

abbrev pub installed_home_assistant_runtime_facts : Members
installed_home_assistant_runtime_facts = members (
    ("home_assistant_version", str "2026.8.3")
    ∷ ("python_version", str "3.14.2")
    ∷ ("integration_version", str "2026.36.2")
    ∷ ("iot_class", str "local_poll")
    ∷ ("actors", list (items (str "ha_client" ∷ str "ha_flow" ∷ [])))
    ∷ [])

abbrev pub polling_transport_zero_sse_facts : Members
polling_transport_zero_sse_facts = members (
    ("polling_requests_positive", bool true)
    ∷ ("vehicle_requests_positive", bool true)
    ∷ ("current_requests_positive", bool true)
    ∷ ("sse_requests", int (pos 0))
    ∷ ("last_event_id_requests", int (pos 0))
    ∷ ("clean_unload", bool true)
    ∷ ("post_unload_requests", int (pos 0))
    ∷ [])

unfoldable pub static_facts : List (String × Members)
static_facts =
    ("unauthenticated_discovery", unauthenticated_discovery_facts)
    ∷ ("bad_invitation", bad_invitation_facts)
    ∷ ("expired_invitation", expired_invitation_facts)
    ∷ ("replayed_invitation", replayed_invitation_facts)
    ∷ ("real_auth", real_auth_facts)
    ∷ ("credential_lifecycle_reauth", credential_lifecycle_reauth_facts)
    ∷ ("revocation", revocation_facts)
    ∷ ("unknown_vehicle", unknown_vehicle_facts)
    ∷ ("exact_current_values", exact_current_values_facts)
    ∷ ("endpoint_restart", endpoint_restart_facts)
    ∷ ("outage_recovery", outage_recovery_facts)
    ∷ ("unsupported_operation_zero_requests", unsupported_operation_zero_requests_facts)
    ∷ ("credential_loss_reauthentication", credential_loss_reauthentication_facts)
    ∷ ("installed_home_assistant_runtime", installed_home_assistant_runtime_facts)
    ∷ ("polling_transport_zero_sse", polling_transport_zero_sse_facts)
    ∷ []

abbrev pub optional_defaults : Members
optional_defaults = members (
    ("access_state", null)
    ∷ ("activity_state", null)
    ∷ ("charge_limit_percent", null)
    ∷ ("charging_power_kw", null)
    ∷ ("charging_state", null)
    ∷ ("data_quality", null)
    ∷ ("estimated_range_km", null)
    ∷ ("inside_temperature_c", null)
    ∷ ("odometer_km", null)
    ∷ ("outside_temperature_c", null)
    ∷ ("software_update_state", null)
    ∷ ("software_version", null)
    ∷ ("state_of_charge", null)
    ∷ ("telemetry_age_seconds", null)
    ∷ [])

-- The method, the route and the status of a request.
pub record Shape : Type 0 where
  pub method : String
  pub route : String
  pub status : ℕ

abbrev get_of : String → Shape
get_of route = record { method = "GET"; route = route; status = 200 }

abbrev pub probe_shape : Shape
probe_shape = get_of "/.well-known/teslatlas-hub"

abbrev vehicles_shape : Shape
vehicles_shape = get_of "/v1/vehicles"

abbrev current_shape : Shape
current_shape = get_of "/v1/vehicles/{vehicle_id}/current"

abbrev claim_shape : ℕ → Shape
claim_shape status = record {
  method = "POST";
  route = "/v1/pairings/{pairing_id}/claim";
  status = status;
}

unfoldable pub request_shapes : List (String × List Shape)
request_shapes =
    ("observe_installed_runtime", [])
    ∷ ("probe", probe_shape ∷ [])
    ∷ ("bad_pair", probe_shape ∷ claim_shape 401 ∷ [])
    ∷ ("expired_pair", probe_shape ∷ claim_shape 401 ∷ [])
    ∷ ("replay_pair", probe_shape ∷ claim_shape 401 ∷ [])
    ∷ (
      "config_flow_setup",
      probe_shape
          ∷ probe_shape
          ∷ claim_shape 200
          ∷ probe_shape
          ∷ vehicles_shape
          ∷ current_shape
          ∷ current_shape
          ∷ probe_shape
          ∷ vehicles_shape
          ∷ current_shape
          ∷ current_shape
          ∷ [],
    )
    ∷ (
      "unknown_current",
      record { method = "GET"; route = "/v1/vehicles/{vehicle_id}/current"; status = 404 } ∷ [],
    )
    ∷ ("initial_poll", [])
    ∷ ("later_poll", probe_shape ∷ vehicles_shape ∷ current_shape ∷ current_shape ∷ [])
    ∷ ("unsupported_surface", [])
    ∷ (
      "revocation_refresh",
      probe_shape ∷ record { method = "GET"; route = "/v1/vehicles"; status = 401 } ∷ [],
    )
    ∷ (
      "reauthentication_flow",
      probe_shape
          ∷ claim_shape 200
          ∷ probe_shape
          ∷ vehicles_shape
          ∷ current_shape
          ∷ current_shape
          ∷ probe_shape
          ∷ vehicles_shape
          ∷ current_shape
          ∷ current_shape
          ∷ [],
    )
    ∷ ("endpoint_restart_poll", probe_shape ∷ vehicles_shape ∷ current_shape ∷ current_shape ∷ [])
    ∷ ("outage_poll", probe_shape ∷ vehicles_shape ∷ current_shape ∷ current_shape ∷ [])
    ∷ ("unload", [])
    ∷ []

-- `table.get(key)`
unfoldable pub find {ℓ} : {A : Type ℓ} → String → List (String × A) → Option A
find k [] = none
find k ((j, a) ∷ t) = if str_eq j k then some a else find k t
