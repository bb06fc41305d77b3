-- ===== src/Flow/Cancel.antt =====
-- What a reauthentication of config_flow.py does once Home Assistant has removed its flow.
use teslatlas_home_assistant.Prelude.{◌≡◌, ℕ, true, false, some, arith}
use teslatlas_home_assistant.Errors.{Error}
use teslatlas_home_assistant.Models.{PairingResult}
use teslatlas_home_assistant.Flow.{Flow, Pending, Outcome, abort, raised, reauth_cancelled, World}
use teslatlas_home_assistant.Flow.Checks.{Checked, passed, problem, Invitation}
use teslatlas_home_assistant.Flow.Reauth.{
  reauth_is_current, superseded_reauth_result, settle_reauth, validate_reauth, settle_claim,
  async_step_reauth_confirm,
}

-- The step has aborted or raised, and left the state that it was found in.
pub data Stops (found : Flow) : Outcome × Flow → Type 0 where
  aborted : Stops found (abort reauth_cancelled, found)
  failed : (e : Error) → Stops found (raised e, found)

removed_superseded :
    (f : Flow) → f.flow_removed ≡ true → superseded_reauth_result f ≡ abort reauth_cancelled
unfolding superseded_reauth_result
removed_superseded f h = ground arith

removed_not_current :
    (generation : ℕ) (f : Flow) → f.flow_removed ≡ true → reauth_is_current generation f ≡ false
unfolding reauth_is_current
removed_not_current generation f h = rw h

settle_claim-Stops :
    (w : World) (generation : ℕ) (check : Checked PairingResult) (f : Flow)
    → f.flow_removed ≡ true
    → Stops f (settle_claim w generation check f)
unfolding settle_claim
settle_claim-Stops w generation (Checked.raised e) f h = failed e
settle_claim-Stops w generation (problem x) f h =
    rw (removed_not_current generation f h, removed_superseded f h) aborted
settle_claim-Stops w generation (passed r) f h =
    rw (removed_not_current generation f h, removed_superseded f h) aborted

settle_reauth-Stops :
    (generation : ℕ) (p : Pending) (check : Checked (Unit {0})) (f : Flow)
    → f.flow_removed ≡ true
    → Stops f (settle_reauth generation p check f)
unfolding settle_reauth
settle_reauth-Stops generation p (Checked.raised e) f h = failed e
settle_reauth-Stops generation p (problem x) f h =
    rw (removed_not_current generation f h, removed_superseded f h) aborted
settle_reauth-Stops generation p (passed tt) f h =
    rw (removed_not_current generation f h, removed_superseded f h) aborted

-- When the flow is removed while a claim of a reauthentication waits, or while a check of its result
-- does, the step ends with the abort or with an exception and leaves the flow, with the entry and
-- the pending result, as the removal has left it.
pub removed_reauth-Stops :
    (w : World)
    → ((f : Flow) → (w.meanwhile f).flow_removed ≡ true)
    → (input : Invitation) (p : Pending) (f : Flow)
    → ((x : Flow) × Stops (w.meanwhile x) (async_step_reauth_confirm w (some input) f))
      × ((x : Flow) × Stops (w.meanwhile x) (validate_reauth w p f))
unfolding async_step_reauth_confirm validate_reauth
removed_reauth-Stops w gone input p f = (
  (_, settle_claim-Stops w _ _ _ (gone _)),
  (_, settle_reauth-Stops f.reauth_generation p _ _ (gone _)),
)
