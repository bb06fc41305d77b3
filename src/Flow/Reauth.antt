-- ===== src/Flow/Reauth.antt =====
-- `async_step_reauth_confirm` and `async_step_reauth_validate` of config_flow.py: a new bearer for an
-- existing entry. While a step waits for the Hub, other calls of the flow may change it: the state
-- that the step finds then is `meanwhile` of the state that it left.
use teslatlas_home_assistant.Prelude.{
  ℕ, suc, Bool, true, false, ◌&&◌, not, Option, none, some, ◌==◌, str_eq, if◌then◌else◌,
}
use teslatlas_home_assistant.Errors.{Error}
use teslatlas_home_assistant.Values.{get}
use teslatlas_home_assistant.Models.{PairingResult}
use teslatlas_home_assistant.Flow.{
  Problem, invalid_auth, reauth_confirm, reauth_validate, Reason, reauth_cancelled, StepId, Form,
  Flow, Pending, Outcome, form, abort, updated, World, set_pending, entry_endpoint, put_credential,
}
use teslatlas_home_assistant.Flow.Checks.{
  Checked, passed, problem, raised, Invitation, claim_invitation, validate_issued_access,
}

-- `_reauth_is_current`
unfoldable pub reauth_is_current : ℕ → Flow → Bool
reauth_is_current generation f = not f.flow_removed && f.reauth_generation == generation

-- The form of a step that is already shown stays as it is.
unfoldable pub kept_form : StepId → Option Form → Outcome
kept_form reauth_validate (some (reauth_validate, p)) = form reauth_validate p
kept_form reauth_confirm (some (reauth_confirm, p)) = form reauth_confirm p
kept_form step _ = form step none

-- `_superseded_reauth_result`
unfoldable pub superseded_reauth_result : Flow → Outcome
superseded_reauth_result f =
    if f.flow_removed
    then abort reauth_cancelled
    else kept_form (elim f.pending [ some p ↦ reauth_validate | none ↦ reauth_confirm ]) f.cur_step

-- `self._pending_pairing_result is result`
abbrev pub is_pending : ℕ → Option Pending → Bool
is_pending serial none = false
is_pending serial (some p) = p.serial == serial

-- What `async_step_reauth_validate` does with its check, in the state that it finds then.
unfoldable pub finish_reauth : Pending → Checked (Unit {0}) → Flow → Outcome × Flow
finish_reauth p (raised e) f = (Outcome.raised e, f)
finish_reauth p (problem Problem.wrong_hub) f =
    (abort Reason.wrong_hub, record f { pending = none })
finish_reauth p (problem invalid_auth) f =
    (form reauth_confirm (some invalid_auth), record f { pending = none })
finish_reauth p (problem x) f = (form reauth_validate (some x), f)
finish_reauth p (passed _) f =
    (updated, record f { pending = none; entry_data = put_credential p.result f.entry_data })

-- An exception of the check leaves before the state is looked at.
unfoldable pub settle_reauth : ℕ → Pending → Checked (Unit {0}) → Flow → Outcome × Flow
settle_reauth generation p (raised e) f = (Outcome.raised e, f)
settle_reauth generation p check f =
    if reauth_is_current generation f && is_pending p.serial f.pending
    then finish_reauth p check f
    else (superseded_reauth_result f, f)

unfoldable pub validate_reauth : World → Pending → Flow → Outcome × Flow
validate_reauth w p f =
    let (check, wire) =
      validate_issued_access w.env (entry_endpoint f.entry_data) p.result
        (get "hub_id" f.entry_data) f.wire in
    settle_reauth f.reauth_generation p check (w.meanwhile (record f { wire = wire }))

unfoldable pub async_step_reauth_validate : World → Bool → Flow → Outcome × Flow
async_step_reauth_validate w submitted f = elim f.pending [
  | none ↦ (Outcome.raised Error.assertion_error, f)
  | some p ↦ if submitted then validate_reauth w p f else (form reauth_validate none, f)
]

-- A claim that brought a result: its Hub must be the entry's.
unfoldable pub accept_reauth : World → ℕ → PairingResult → Flow → Outcome × Flow
accept_reauth w generation r f =
    let f' = w.meanwhile f in
    if not (reauth_is_current generation f')
    then (superseded_reauth_result f', f')
    else if not (str_eq r.info.hub_id w.entry_unique_id)
    then (abort Reason.wrong_hub, f')
    else async_step_reauth_validate w true (set_pending r f')

abbrev refuse_claim : Problem → Outcome
refuse_claim Problem.wrong_hub = abort Reason.wrong_hub
refuse_claim x = form reauth_confirm (some x)

-- What follows the claim, in the state that it finds then.
unfoldable pub settle_claim : World → ℕ → Checked PairingResult → Flow → Outcome × Flow
settle_claim w generation (raised e) f = (Outcome.raised e, f)
settle_claim w generation (problem x) f =
    if not (reauth_is_current generation f)
    then (superseded_reauth_result f, f)
    else (refuse_claim x, f)
settle_claim w generation (passed r) f =
    if not (reauth_is_current generation f)
    then (superseded_reauth_result f, f)
    else accept_reauth w generation r f

unfoldable pub async_step_reauth_confirm : World → Option Invitation → Flow → Outcome × Flow
async_step_reauth_confirm w none f = (form reauth_confirm none, f)
async_step_reauth_confirm w (some input) f =
    let begun = record f { reauth_generation = suc f.reauth_generation } in
    let (check, wire) =
      claim_invitation w.env (entry_endpoint f.entry_data) (get "hub_id" f.entry_data) input
        f.wire in
    settle_claim w begun.reauth_generation check (w.meanwhile (record begun { wire = wire }))
