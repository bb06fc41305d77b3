-- ===== src/Contract/Operations.antt =====
-- `_expected_operation_facts` and `_validate_request_shape` of tools/matrix_contract.py: what the
-- record of an operation must show, and the requests that it may have sent.
pub mod Shapes
use teslatlas_home_assistant.Prelude.{
  String, Bool, true, false, ◌&&◌, ◌||◌, ◌==◌, not, List, [], ◌∷◌, Option, none, some, length, any,
  str_eq, if◌then◌else◌,
}
use teslatlas_home_assistant.Prelude.Int.{ℤ, pos, eq_ℤ}
use teslatlas_home_assistant.Json.{Json, int, str, list, dict, Members, get, has_keys, elements}
use teslatlas_home_assistant.Contract.{AdmissionContext}
use teslatlas_home_assistant.Contract.Tables.{
  Shape, request_shapes, endpoint_restart_facts, outage_recovery_facts, bad_invitation_facts,
  replayed_invitation_facts, find,
}
use teslatlas_home_assistant.Contract.Checks.{says}
use teslatlas_home_assistant.Contract.Facts.{Facts, no_facts, with_runtime}
use teslatlas_home_assistant.Contract.Facts.Installed.{observe_facts, probe_facts}
use teslatlas_home_assistant.Contract.Facts.Pairing.{
  refused_pair_facts, expired_pair_facts, setup_facts, unknown_facts, unsupported_facts,
  revocation_refresh_facts, reauthentication_facts,
}
use teslatlas_home_assistant.Contract.Facts.Polls.{
  initial_poll_facts, later_poll_facts, restart_poll_facts,
}
use teslatlas_home_assistant.Contract.Facts.Unload.{unload_facts}

-- `_expected_operation_facts`
unfoldable pub expected_operation_facts : String → AdmissionContext → Facts
expected_operation_facts operation c =
    if str_eq operation "observe_installed_runtime"
    then observe_facts c
    else if str_eq operation "probe"
    then probe_facts c
    else if str_eq operation "bad_pair"
    then refused_pair_facts c operation bad_invitation_facts
    else if str_eq operation "replay_pair"
    then refused_pair_facts c operation replayed_invitation_facts
    else if str_eq operation "expired_pair"
    then expired_pair_facts c
    else if str_eq operation "config_flow_setup"
    then setup_facts c
    else if str_eq operation "unknown_current"
    then unknown_facts c
    else if str_eq operation "initial_poll"
    then initial_poll_facts c
    else if str_eq operation "later_poll"
    then later_poll_facts c
    else if str_eq operation "unsupported_surface"
    then unsupported_facts c
    else if str_eq operation "revocation_refresh"
    then revocation_refresh_facts c
    else if str_eq operation "reauthentication_flow"
    then reauthentication_facts c
    else if str_eq operation "endpoint_restart_poll"
    then restart_poll_facts c operation true endpoint_restart_facts
    else if str_eq operation "outage_poll"
    then restart_poll_facts c operation false outage_recovery_facts
    else if str_eq operation "unload"
    then unload_facts c
    else no_facts

abbrev pub request_keys : List String
request_keys = "method" ∷ "route" ∷ "status" ∷ "request_id" ∷ []

-- A method, a route and a status that were seen.
pub record ActualShape : Type 0 where
  pub actual_method : Json
  pub actual_route : Json
  pub actual_status : ℤ

-- The shape of a request with an identifier, where that is a text that is not empty and has not been
-- seen, and with a status.
abbrev pub shape_of : List String → Members → Json → Json → Option (String × ActualShape)
shape_of seen request (str id) (int status) =
    if str_eq id "" || any (λ j. str_eq j id) seen
    then none
    else some (
      id,
      record {
        actual_method = get "method" request;
        actual_route = get "route" request;
        actual_status = status;
      },
    )
shape_of seen request _ _ = none

abbrev pub request_shape : List String → Json → Option (String × ActualShape)
request_shape seen (dict request) =
    if has_keys request_keys request
    then shape_of seen request (get "request_id" request) (get "status" request)
    else none
request_shape seen _ = none

abbrev pub before_shapes : ActualShape → Option (List ActualShape) → Option (List ActualShape)
before_shapes shape none = none
before_shapes shape (some shapes) = some (shape ∷ shapes)

-- The loop over the requests.
unfoldable pub actual_shapes : List String → List Json → Option (List ActualShape)
actual_shapes seen [] = some []
actual_shapes seen (request ∷ requests) = elim (request_shape seen request) [
  | none ↦ none
  | some (id, shape) ↦ before_shapes shape (actual_shapes (id ∷ seen) requests)
]

abbrev pub is_shape : ActualShape → Shape → Bool
is_shape a s =
    says s.method a.actual_method
    && (says s.route a.actual_route && eq_ℤ a.actual_status (pos s.status))

-- `tuple(actual_shapes) == expected`
unfoldable pub are_shapes : List ActualShape → List Shape → Bool
are_shapes [] [] = true
are_shapes (a ∷ actual) (s ∷ expected) = is_shape a s && are_shapes actual expected
are_shapes _ _ = false

abbrev found_shapes : Option (List ActualShape) → List Shape → Bool
found_shapes none expected = false
found_shapes (some actual) expected = are_shapes actual expected

abbrev pub requests_fit : Option (List Shape) → Json → Bool
requests_fit (some expected) (list requests) =
    length (elements requests) == length expected
    && found_shapes (actual_shapes [] (elements requests)) expected
requests_fit _ _ = false

-- `_validate_request_shape`
unfoldable pub validate_request_shape : String → Json → Bool
validate_request_shape operation requests = requests_fit (find operation request_shapes) requests
