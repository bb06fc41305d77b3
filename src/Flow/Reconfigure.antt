-- ===== src/Flow/Reconfigure.antt =====
-- The four steps of config_flow.py that move an existing entry to another endpoint. An endpoint that
-- presents the saved pin is tried with the saved bearer; any other needs a pin, its approval by the
-- user, and a fresh invitation.
use teslatlas_home_assistant.Prelude.{
  ℕ, suc, String, Bool, true, false, ◌&&◌, not, Option, none, some, ◌==◌, str_eq, if◌then◌else◌,
}
use teslatlas_home_assistant.Values.{Value, str, get, truthy, is_text}
use teslatlas_home_assistant.Credentials.{is_hex64}
use teslatlas_home_assistant.Models.{HubEndpoint, HubInfo, PairingResult}
use teslatlas_home_assistant.Flow.{
  Problem, invalid_auth, invalid_contract, reconfigure_confirm, reconfigure_tls, reconfigure_pair,
  reconfigure_validate, Reason, replacement_not_approved, Flow, Pending, Candidate, Outcome, form,
  abort, updated, World, set_pending, clear_replacement, put_credential, put_endpoint,
}
use teslatlas_home_assistant.Flow.Checks.{
  Checked, passed, problem, raised, Invitation, probe_endpoint, validate_access, claim_invitation,
  validate_issued_access, has_saved_origin_binding,
}
use teslatlas_home_assistant.Flow.User.{EndpointInput, input_endpoint}
use teslatlas_home_assistant.Flow.Reauth.{is_pending}

-- TLS is on and the pin is 64 lowercase hexadecimal digits.
abbrev pub may_replace : HubEndpoint → Bool
may_replace endpoint = elim endpoint.tls_pin [
  | str pin ↦ truthy endpoint.use_tls && is_hex64 pin
  | _ ↦ false
]

-- `self._replacement_endpoint is endpoint`
abbrev pub is_candidate : ℕ → Option Candidate → Bool
is_candidate serial none = false
is_candidate serial (some c) = c.serial == serial

-- `self._replacement_hub_id == hub_id`, of identities that are texts.
abbrev pub is_hub : String → Option Value → Bool
is_hub hub_id none = false
is_hub hub_id (some v) = is_text hub_id v

-- Go on with a value that is there.
abbrev pub or_else :
    {A : Type 0} → Option A → Outcome × Flow → (A → Outcome × Flow) → Outcome × Flow
or_else none out k = out
or_else (some a) out k = k a

abbrev pub not_approved : Flow → Outcome × Flow
not_approved f = (abort replacement_not_approved, clear_replacement f)

-- An endpoint with the saved pin, tried with the saved bearer.
unfoldable pub finish_move : HubEndpoint → Checked (Unit {0}) → Flow → Outcome × Flow
finish_move endpoint (raised e) f = (Outcome.raised e, f)
finish_move endpoint (problem Problem.wrong_hub) f = (abort Reason.wrong_hub, f)
finish_move endpoint (problem p) f = (form reconfigure_confirm (some p), f)
finish_move endpoint (passed _) f =
    (updated, record f { entry_data = put_endpoint endpoint f.entry_data })

unfoldable pub move_bound : World → HubEndpoint → Flow → Outcome × Flow
move_bound w endpoint f =
    let (check, wire) =
      validate_access w.env endpoint (get "hub_id" f.entry_data) (get "access_token" f.entry_data)
        (get "token_expires_at_ms" f.entry_data) f.wire in
    finish_move endpoint check (record f { wire = wire })

-- An endpoint without it: the candidate is frozen until it is approved.
unfoldable pub move_unbound : HubEndpoint → Flow → Outcome × Flow
move_unbound endpoint f =
    if may_replace endpoint
    then (
      form reconfigure_tls none,
      record f {
        replacement_endpoint = some (record { serial = f.serials; endpoint = endpoint });
        replacement_hub_id = some (get "hub_id" f.entry_data);
        serials = suc f.serials;
      },
    )
    else (form reconfigure_confirm (some invalid_contract), f)

-- What the probe of the endpoint leads to.
unfoldable pub move_probed : World → HubEndpoint → Checked HubInfo → Flow → Outcome × Flow
move_probed w endpoint (raised e) f = (Outcome.raised e, f)
move_probed w endpoint (problem p) f = (form reconfigure_confirm (some p), f)
move_probed w endpoint (passed info) f =
    if not (str_eq info.hub_id w.entry_unique_id)
    then (abort Reason.wrong_hub, f)
    else if has_saved_origin_binding f.entry_data endpoint
    then move_bound w endpoint f
    else move_unbound endpoint f

unfoldable pub try_endpoint : World → HubEndpoint → Flow → Outcome × Flow
try_endpoint w endpoint f =
    let (check, wire) = probe_endpoint w.env endpoint f.wire in
    move_probed w endpoint check (record f { wire = wire })

unfoldable pub async_step_reconfigure_confirm : World → Option EndpointInput → Flow → Outcome × Flow
async_step_reconfigure_confirm w none f = (form reconfigure_confirm none, f)
async_step_reconfigure_confirm w (some input) f =
    try_endpoint w (input_endpoint input) (clear_replacement f)

-- What `async_step_reconfigure_validate` does with its check, in the state that it finds then.
unfoldable pub finish_replacement :
    HubEndpoint → PairingResult → Checked (Unit {0}) → Flow → Outcome × Flow
finish_replacement endpoint r (raised e) f = (Outcome.raised e, f)
finish_replacement endpoint r (problem Problem.wrong_hub) f =
    (abort Reason.wrong_hub, clear_replacement f)
finish_replacement endpoint r (problem invalid_auth) f =
    (form reconfigure_pair (some invalid_auth), record f { pending = none })
finish_replacement endpoint r (problem x) f = (form reconfigure_validate (some x), f)
finish_replacement endpoint r (passed _) f =
    let cleared = clear_replacement f in
    (updated, record cleared { entry_data = put_credential r (put_endpoint endpoint f.entry_data) })

-- The guards behind the check: the entry's Hub, then the candidate and the result themselves.
unfoldable pub settle_replacement :
    Candidate → String → Pending → Checked (Unit {0}) → Flow → Outcome × Flow
settle_replacement c hub_id p (raised e) f = (Outcome.raised e, f)
settle_replacement c hub_id p check f =
    if not (is_text hub_id (get "hub_id" f.entry_data))
    then (abort Reason.wrong_hub, clear_replacement f)
    else if f.replacement_approved
        && (is_candidate c.serial f.replacement_endpoint
            && (is_hub hub_id f.replacement_hub_id && is_pending p.serial f.pending))
    then finish_replacement c.endpoint p.result check f
    else (abort replacement_not_approved, f)

unfoldable pub validate_replacement : World → Candidate → String → Pending → Flow → Outcome × Flow
validate_replacement w c hub_id p f =
    if not (is_text hub_id (get "hub_id" f.entry_data))
    then (abort Reason.wrong_hub, clear_replacement f)
    else (let (check, wire) =
          validate_issued_access w.env c.endpoint p.result (str hub_id) f.wire in
        settle_replacement c hub_id p check (w.meanwhile (record f { wire = wire })))

-- The candidate and the Hub of an approved replacement; the entry's identity is a text.
unfoldable pub approved_replacement : Flow → Option (Candidate × String)
approved_replacement f = if not f.replacement_approved then none else elim f.replacement_endpoint [
  | none ↦ none
  | some c ↦ elim f.replacement_hub_id [ some (str h) ↦ some (c, h) | _ ↦ none ]
]

unfoldable pub async_step_reconfigure_validate : World → Bool → Flow → Outcome × Flow
async_step_reconfigure_validate w submitted f =
    or_else (approved_replacement f) (not_approved f) λ ch. or_else f.pending (not_approved f) λ p.
      if submitted
      then validate_replacement w ch.0 ch.1 p f
      else (form reconfigure_validate none, f)

abbrev pub refuse_claim : Problem → Flow → Outcome × Flow
refuse_claim Problem.wrong_hub f = (abort Reason.wrong_hub, clear_replacement f)
refuse_claim x f = (form reconfigure_pair (some x), f)

-- What follows the claim, in the state that it finds then.
unfoldable pub settle_replacement_claim :
    World → Candidate → String → Checked PairingResult → Flow → Outcome × Flow
settle_replacement_claim w c hub_id (raised e) f = (Outcome.raised e, f)
settle_replacement_claim w c hub_id (problem x) f =
    if f.replacement_approved
      && (is_candidate c.serial f.replacement_endpoint && is_hub hub_id f.replacement_hub_id)
    then refuse_claim x f
    else (abort replacement_not_approved, f)
settle_replacement_claim w c hub_id (passed r) f =
    if f.replacement_approved
      && (is_candidate c.serial f.replacement_endpoint && is_hub hub_id f.replacement_hub_id)
    then (if str_eq r.info.hub_id hub_id
        then async_step_reconfigure_validate w true (set_pending r f)
        else (abort Reason.wrong_hub, clear_replacement f))
    else (abort replacement_not_approved, f)

unfoldable pub claim_replacement : World → Candidate → String → Invitation → Flow → Outcome × Flow
claim_replacement w c hub_id input f =
    let (check, wire) = claim_invitation w.env c.endpoint (str hub_id) input f.wire in
    settle_replacement_claim w c hub_id check (w.meanwhile (record f { wire = wire }))

unfoldable pub async_step_reconfigure_pair : World → Option Invitation → Flow → Outcome × Flow
async_step_reconfigure_pair w input f =
    or_else (approved_replacement f) (not_approved f)
      λ ch. or_else input (form reconfigure_pair none, f) λ i. claim_replacement w ch.0 ch.1 i f

-- `async_step_reconfigure_tls`: the input is whether the box for the new pin was ticked.
unfoldable pub answer_approval : World → Option Bool → Flow → Outcome × Flow
answer_approval w none f = (form reconfigure_tls none, f)
answer_approval w (some false) f = not_approved f
answer_approval w (some true) f =
    async_step_reconfigure_pair w none (record f { replacement_approved = true })

unfoldable pub async_step_reconfigure_tls : World → Option Bool → Flow → Outcome × Flow
async_step_reconfigure_tls w input f =
    or_else f.replacement_endpoint (not_approved f)
      λ _. or_else f.replacement_hub_id (not_approved f) λ _. answer_approval w input f
