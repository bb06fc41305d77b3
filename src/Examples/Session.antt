-- ===== src/Examples/Session.antt =====
-- A session of the compatibility run: a context, observations and records of its operations.
use teslatlas_home_assistant.Prelude.{String, ℕ, true, List, [], ◌∷◌, map}
use teslatlas_home_assistant.Prelude.Int.{pos}
use teslatlas_home_assistant.Json.{
  Json, null, bool, int, float, shifted_down, str, list, dict, Members, nil, item, items, members,
  merge,
}
use teslatlas_home_assistant.Contract.{AdmittedActor, AdmissionContext}
use teslatlas_home_assistant.Contract.Tables.{
  current_member_paths, unicode_name, endpoint_restart_facts,
  unsupported_operation_zero_requests_facts,
}

abbrev pub digest : String
digest = "0123456789abcdef0123456789abcdef0123456789abcdef0123456789abcdef"

abbrev pub other_digest : String
other_digest = "1123456789abcdef0123456789abcdef0123456789abcdef0123456789abcdef"

abbrev pub session : String
session = "11111111-1111-4111-8111-111111111111"

abbrev pub a_store : String
a_store = "22222222-2222-4222-8222-222222222222"

abbrev pub a_pairing : String
a_pairing = "33333333-3333-4333-8333-333333333333"

abbrev pub vehicle : String → String → Json
vehicle id name = dict (members (("vehicle_id", str id) ∷ ("display_name", str name) ∷ []))

abbrev pub scenario_members : Members
scenario_members = members (
    ("schema_version", int (pos 1))
    ∷ ("name", str "two-vehicles-five-drives")
    ∷ ("provenance", str "synthetic-only")
    ∷ ("observed_at_ms", int (pos 1788566400000))
    ∷ ("vehicle_ids", list (items (str session ∷ str a_store ∷ [])))
    ∷ (
      "vehicles",
      list (items (vehicle session unicode_name ∷ vehicle a_store "Interop empty" ∷ [])),
    )
    ∷ (
      "current",
      dict (
          members (
            ("battery_level", int (pos 0))
            ∷ ("inside_temp", float (shifted_down (pos 43) 1))
            ∷ ("outside_temp", null)
            ∷ ("observed_at_ms", int (pos 1788566400000))
            ∷ [])),
    )
    ∷ (
      "later_current",
      dict (
          members (
            ("observed_at_ms", int (pos 1788566460000))
            ∷ ("battery_level", int (pos 1))
            ∷ ("inside_temp", float (shifted_down (pos 45) 1))
            ∷ ("outside_temp", null)
            ∷ [])),
    )
    ∷ [])

abbrev pub member_row : String → Json
member_row path = dict (
    members (
      ("path", str path)
      ∷ ("bytes", int (pos 0))
      ∷ ("mode", int (pos 420))
      ∷ ("sha256", str digest)
      ∷ []))

abbrev pub actor_runtime : String → Members
actor_runtime own_digest = members (
    ("schema_version", int (pos 1))
    ∷ ("runtime_ref", str "ha_container")
    ∷ ("runtime_kind", str "docker-container")
    ∷ ("container_id", str digest)
    ∷ (
      "python",
      dict (
          members (
            ("executable", str "/usr/bin/python3")
            ∷ ("sha256", str digest)
            ∷ ("version", str "3.14.2")
            ∷ [])),
    )
    ∷ ("home_assistant", dict (members (("version", str "2026.8.3") ∷ [])))
    ∷ (
      "artifact",
      dict (
          members (
            ("role", str "home_assistant_integration_archive")
            ∷ ("sha256", str digest)
            ∷ ("installed_root", str "/config/custom_components/teslatlas_hub")
            ∷ ("installed_manifest_sha256", str digest)
            ∷ ("installed_members", list (items (map member_row current_member_paths)))
            ∷ [])),
    )
    ∷ ("actor_input_manifest_sha256", str own_digest)
    ∷ [])

abbrev pub actor_of : String → String → String → String → AdmittedActor
actor_of name kind entrypoint own_digest = record {
  id = name;
  kind = kind;
  runtime_ref = "ha_container";
  entrypoint_ref = entrypoint;
  artifact_roles = "home_assistant_integration_archive" ∷ [];
  source_roles = "home_assistant_source" ∷ [];
  installed_manifest =
      members (("path", str "/input/manifest.json") ∷ ("sha256", str own_digest) ∷ []);
  runtime = actor_runtime own_digest;
}

abbrev pub runtime_record : Members
runtime_record = members (
    ("operation", str "observe_installed_runtime")
    ∷ (
      "facts",
      dict (
          members (
            ("archive_sha256", str digest)
            ∷ ("installed_manifest_sha256", str digest)
            ∷ ("python_executable", str "/usr/bin/python3")
            ∷ (
              "actor_manifest_sha256s",
              dict (members (("ha_flow", str digest) ∷ ("ha_client", str other_digest) ∷ [])),
            )
            ∷ [])),
    )
    ∷ [])

abbrev pub an_invitation : Json
an_invitation =
    dict (members (("pairing_id", str a_pairing) ∷ ("expires_at_ms", int (pos 1788566500000)) ∷ []))

abbrev pub observation_one : Members
observation_one = members (
    ("schema_version", int (pos 1))
    ∷ ("state", str "running")
    ∷ ("session_id", str session)
    ∷ ("sequence", int (pos 1))
    ∷ ("operation", str "verify")
    ∷ ("started_monotonic_ns", int (pos 10))
    ∷ ("finished_monotonic_ns", int (pos 20))
    ∷ ("observed_at_ms", int (pos 1788566400000))
    ∷ ("proof_sha256", str digest)
    ∷ ("result_sha256", str digest)
    ∷ ("scenario_sha256", str digest)
    ∷ ("seed_sha256", str digest)
    ∷ ("store_id", str a_store)
    ∷ ("store_schema_version", int (pos 7))
    ∷ ("service_generation", str "first")
    ∷ ("hub_id", str session)
    ∷ ("invitations", dict (members (("active", an_invitation) ∷ ("expired", an_invitation) ∷ [])))
    ∷ ("transition", null)
    ∷ [])

abbrev pub surface_record : Members
surface_record = members (
    ("schema_version", int (pos 1))
    ∷ ("session_id", str session)
    ∷ ("cell_id", str "home_assistant__debian13_amd64")
    ∷ ("session_input_sha256", str digest)
    ∷ ("actor_id", str "ha_client")
    ∷ ("operation", str "unsupported_surface")
    ∷ ("session_sequence_before", int (pos 1))
    ∷ ("session_sequence_after", int (pos 1))
    ∷ ("facts", dict unsupported_operation_zero_requests_facts)
    ∷ ("requests", list nil)
    ∷ [])

abbrev pub a_context : AdmissionContext
a_context = record {
  adapter_id = "home_assistant";
  cell_id = "home_assistant__debian13_amd64";
  session_id = session;
  header = members [];
  scenario = scenario_members;
  actors =
      ("ha_flow", actor_of "ha_flow" "installed_ha_flow" "ha_matrix_flow" digest)
      ∷ ("ha_client", actor_of "ha_client" "installed_ha_client" "ha_matrix_client" other_digest)
      ∷ [];
  invocations =
      record {
        id = "i";
        case_id = "unsupported_operation_zero_requests";
        actor_id = "ha_client";
        operation = "unsupported_surface";
        session_sequence_before = pos 1;
        session_sequence_after = pos 1;
        evidence_id = "e";
        request_ids = [];
      }
      ∷ [];
  raw = ("r", runtime_record) ∷ ("e", surface_record) ∷ [];
  controller_observations = (pos 1, observation_one) ∷ [];
}

abbrev pub surface_case : Members
surface_case = members (
    ("id", str "unsupported_operation_zero_requests")
    ∷ ("status", str "passed")
    ∷ ("expected", dict unsupported_operation_zero_requests_facts)
    ∷ ("actual", dict unsupported_operation_zero_requests_facts)
    ∷ ("evidence_kind", str "zero_request")
    ∷ ("request_transcript", list nil)
    ∷ [])

abbrev pub probe_request : String → Json
probe_request id = dict (
    members (
      ("method", str "GET")
      ∷ ("route", str "/.well-known/teslatlas-hub")
      ∷ ("status", int (pos 200))
      ∷ ("request_id", str id)
      ∷ []))

abbrev pub record_of : String → ℕ → ℕ → Members
record_of operation before after = members (
    ("operation", str operation)
    ∷ ("session_sequence_before", int (pos before))
    ∷ ("session_sequence_after", int (pos after))
    ∷ [])

-- An observation with a few members changed.
abbrev pub changed : List (String × Json) → Members
changed d = merge observation_one (members d)

abbrev pub observation_stopped : Members
observation_stopped = changed (
    ("state", str "stopped")
    ∷ ("sequence", int (pos 2))
    ∷ ("operation", str "stop")
    ∷ ("proof_sha256", null)
    ∷ ("invitations", null)
    ∷ ("transition", dict (members (("kind", str "stop") ∷ ("from_sequence", int (pos 1)) ∷ [])))
    ∷ [])

abbrev pub observation_restarted : Members
observation_restarted = changed (
    ("sequence", int (pos 3))
    ∷ ("operation", str "start")
    ∷ ("service_generation", str "second")
    ∷ (
      "transition",
      dict (
          members (
            ("kind", str "start")
            ∷ ("from_sequence", int (pos 2))
            ∷ ("stopped_sequence", int (pos 2))
            ∷ [])),
    )
    ∷ [])

abbrev pub observation_verified : Members
observation_verified = changed (("sequence", int (pos 2)) ∷ [])

abbrev pub advance : Members
advance = members (
    ("kind", str "advance-once")
    ∷ ("from_sequence", int (pos 1))
    ∷ ("pre_advance_verify_sequence", int (pos 2))
    ∷ ("before_store_sha256", str digest)
    ∷ ("after_store_sha256", str other_digest)
    ∷ ("scenario_sha256", str digest)
    ∷ ("seed_sha256", str digest)
    ∷ [])

abbrev pub observation_advanced : Members
observation_advanced = changed (
    ("sequence", int (pos 3))
    ∷ ("operation", str "advance-once")
    ∷ ("service_generation", str "second")
    ∷ ("transition", dict advance)
    ∷ [])

abbrev pub restart_context : AdmissionContext
restart_context = record a_context {
  raw = ("r", runtime_record) ∷ ("e", record_of "endpoint_restart_poll" 1 3) ∷ [];
  controller_observations =
      (pos 1, observation_one) ∷ (pos 2, observation_stopped) ∷ (pos 3, observation_restarted) ∷ [];
}

abbrev pub advance_context : AdmissionContext
advance_context = record a_context {
  raw =
      ("r", runtime_record)
      ∷ ("i", record_of "initial_poll" 1 1)
      ∷ ("l", record_of "later_poll" 3 3)
      ∷ [];
  controller_observations =
      (pos 1, observation_one) ∷ (pos 2, observation_verified) ∷ (pos 3, observation_advanced) ∷ [];
}

abbrev pub restarted_members : Members
restarted_members = merge endpoint_restart_facts (
    members (
      ("before_service_generation", str "first") ∷ ("after_service_generation", str "second") ∷ []))

abbrev pub later_members : Members
later_members = members (
    ("later_battery", int (pos 1))
    ∷ ("later_inside_temperature_c", float (shifted_down (pos 45) 1))
    ∷ ("advanced_once", bool true)
    ∷ ("advance_from_sequence", int (pos 1))
    ∷ [])

abbrev pub probe_attempt : Json
probe_attempt = dict (
    members (
      ("method", str "GET")
      ∷ ("route", str "/.well-known/teslatlas-hub")
      ∷ ("outcome", str "completed")
      ∷ ("phase", str "before_unload")
      ∷ []))

abbrev pub census_members : Members
census_members = members (
    ("attempted_requests", int (pos 1))
    ∷ ("completed_requests", int (pos 1))
    ∷ ("failed_requests", int (pos 0))
    ∷ ("cancelled_requests", int (pos 0))
    ∷ ("pending_requests", int (pos 0))
    ∷ ("attempts", list (item probe_attempt nil))
    ∷ ("scheduled_callback_deadline_ns", int (pos 5))
    ∷ ("observed_after_deadline_ns", int (pos 6))
    ∷ ("scheduled_callback_cancelled", bool true)
    ∷ ("sse_requests", int (pos 0))
    ∷ ("last_event_id_requests", int (pos 0))
    ∷ ("post_unload_requests", int (pos 0))
    ∷ ("post_unload_attempts", int (pos 0))
    ∷ ("clean_unload", bool true)
    ∷ [])

abbrev pub unload_context : AdmissionContext
unload_context = record a_context {
  raw =
      ("r", runtime_record)
      ∷ ("p", members (("requests", list (item (probe_request "a") nil)) ∷ []))
      ∷ ("u", members (("operation", str "unload") ∷ ("facts", dict census_members) ∷ []))
      ∷ [];
}
