-- ===== src/Flow/User.antt =====
-- `async_step_user`, `_async_accept_endpoint`, `async_step_pair` and `async_step_pair_validate` of
-- config_flow.py: a new entry.
use teslatlas_home_assistant.Prelude.{String, Bool, true, Option, none, some, str_eq, if◌then◌else◌}
use teslatlas_home_assistant.Prelude.Int.{ℤ}
use teslatlas_home_assistant.Errors.{Error}
use teslatlas_home_assistant.Values.{Value, Dict, null, bool, int, str, empty, put, nonempty}
use teslatlas_home_assistant.Models.{HubEndpoint, PairingResult, HubInfo}
use teslatlas_home_assistant.Flow.{
  Problem, invalid_auth, pair, pair_validate, user, Reason, already_configured, already_in_progress,
  Flow, Outcome, form, abort, create_entry, World, set_pending, put_credential, put_endpoint,
}
use teslatlas_home_assistant.Flow.Checks.{
  Checked, passed, problem, raised, Invitation, probe_endpoint, claim_invitation,
  validate_issued_access,
}

-- What a user enters as an endpoint, after the form's schema.
pub record EndpointInput : Type 0 where
  pub host : String
  pub port : ℤ
  pub use_tls : Bool
  pub tls_pin : Option String

-- `user_input.get(CONF_TLS_PIN) or None`
abbrev pin_or_none : Option String → Value
pin_or_none none = null
pin_or_none (some s) = if nonempty s then str s else null

unfoldable pub input_endpoint : EndpointInput → HubEndpoint
input_endpoint i = record {
  host = str i.host;
  port = int i.port;
  use_tls = bool i.use_tls;
  tls_pin = pin_or_none i.tls_pin;
}

-- `_async_accept_endpoint`, for a new entry: what it does with the probe. `async_set_unique_id` aborts
-- if another flow in progress has the identity.
unfoldable pub accept_probed : World → HubEndpoint → Checked HubInfo → Flow → Outcome × Flow
accept_probed w endpoint (raised e) f = (Outcome.raised e, f)
accept_probed w endpoint (problem p) f = (form user (some p), f)
accept_probed w endpoint (passed info) f = (
  if w.is_in_progress info.hub_id
      then abort already_in_progress
      else if w.is_configured info.hub_id
      then abort already_configured
      else form pair none,
  record f { endpoint = some endpoint; info = some info },
)

unfoldable pub accept_endpoint : World → HubEndpoint → Flow → Outcome × Flow
accept_endpoint w endpoint f =
    let (check, wire) = probe_endpoint w.env endpoint f.wire in
    accept_probed w endpoint check (record f { wire = wire })

unfoldable pub async_step_user : World → Option EndpointInput → Flow → Outcome × Flow
async_step_user w none f = (form user none, f)
async_step_user w (some input) f = accept_endpoint w (input_endpoint input) f

-- The data of a new entry.
unfoldable pub entry_data_of : HubEndpoint → PairingResult → Dict
unfolding put_credential put_endpoint
entry_data_of endpoint r =
    put_credential r (put "hub_id" (str r.info.hub_id) (put_endpoint endpoint empty))

-- `async_step_pair_validate` with input, once its assertions hold: what it does with the check.
unfoldable pub finish_pairing :
    HubEndpoint → PairingResult → Checked (Unit {0}) → Flow → Outcome × Flow
finish_pairing endpoint r (raised e) f = (Outcome.raised e, f)
finish_pairing endpoint r (problem Problem.wrong_hub) f =
    (abort Reason.wrong_hub, record f { pending = none })
finish_pairing endpoint r (problem invalid_auth) f =
    (form pair (some invalid_auth), record f { pending = none })
finish_pairing endpoint r (problem p) f = (form pair_validate (some p), f)
finish_pairing endpoint r (passed _) f =
    (create_entry r.info.name (entry_data_of endpoint r), record f { pending = none })

unfoldable pub validate_pairing : World → HubEndpoint → PairingResult → Flow → Outcome × Flow
validate_pairing w endpoint r f =
    let (check, wire) = validate_issued_access w.env endpoint r (str r.info.hub_id) f.wire in
    finish_pairing endpoint r check (record f { wire = wire })

unfoldable pub async_step_pair_validate : World → Bool → Flow → Outcome × Flow
async_step_pair_validate w submitted f = elim f.endpoint [
  | none ↦ (Outcome.raised Error.assertion_error, f)
  | some endpoint ↦ elim f.pending [
    | none ↦ (Outcome.raised Error.assertion_error, f)
    | some p ↦
        if submitted then validate_pairing w endpoint p.result f else (form pair_validate none, f)
  ]
]

-- The claim of `async_step_pair`, once its assertions hold, and what it does with the result.
unfoldable pub accept_claim : World → String → Checked PairingResult → Flow → Outcome × Flow
accept_claim w hub_id (raised e) f = (Outcome.raised e, f)
accept_claim w hub_id (problem Problem.wrong_hub) f = (abort Reason.wrong_hub, f)
accept_claim w hub_id (problem p) f = (form pair (some p), f)
accept_claim w hub_id (passed r) f =
    if str_eq r.info.hub_id hub_id
    then async_step_pair_validate w true (set_pending r f)
    else (abort Reason.wrong_hub, f)

unfoldable pub pair_endpoint : World → HubEndpoint → HubInfo → Invitation → Flow → Outcome × Flow
pair_endpoint w endpoint info input f =
    let (check, wire) = claim_invitation w.env endpoint (str info.hub_id) input f.wire in
    accept_claim w info.hub_id check (record f { wire = wire })

unfoldable pub async_step_pair : World → Option Invitation → Flow → Outcome × Flow
async_step_pair w none f = (form pair none, f)
async_step_pair w (some input) f = elim f.endpoint [
  | none ↦ (Outcome.raised Error.assertion_error, f)
  | some endpoint ↦ elim f.info [
    | none ↦ (Outcome.raised Error.assertion_error, f)
    | some info ↦ pair_endpoint w endpoint info input f
  ]
]
