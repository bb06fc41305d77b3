-- ===== src/Flow/Updates.antt =====
-- When config_flow.py updates an existing entry with a new credential, and with which.
use teslatlas_home_assistant.Prelude.{
  ◌≡◌, refl, inl, inr, ℕ, String, true, false, not, ◌&&◌, ◌==◌, Option, none, some, arith,
  if◌then◌else◌, Bool-cases, Option-cases,
}
use teslatlas_home_assistant.Values.{str, get, is_text}
use teslatlas_home_assistant.Models.{HubEndpoint, PairingResult}
use teslatlas_home_assistant.Client.{Wire}
use teslatlas_home_assistant.Flow.{
  Problem, StepId, Form, Flow, Pending, Candidate, Outcome, updated, Reason, World, entry_endpoint,
  put_credential, put_endpoint, clear_replacement,
}
use teslatlas_home_assistant.Flow.Checks.{Checked, passed, problem, raised}
use teslatlas_home_assistant.Flow.Access.{IsVerified, validate_issued_access-IsVerified}
use teslatlas_home_assistant.Flow.Reauth.{
  reauth_is_current, kept_form, superseded_reauth_result, is_pending, finish_reauth, settle_reauth,
  validate_reauth, async_step_reauth_validate,
}
use teslatlas_home_assistant.Flow.Reconfigure.{
  is_candidate, is_hub, finish_replacement, settle_replacement, validate_replacement,
  approved_replacement, async_step_reconfigure_validate,
}

kept_form-fails : {B : Type 0} (s : StepId) (o : Option Form) → kept_form s o ≡ updated → B
unfolding kept_form
kept_form-fails StepId.reauth_validate (some (StepId.reauth_validate, p)) h = cc
kept_form-fails StepId.reauth_confirm (some (StepId.reauth_confirm, p)) h = cc
kept_form-fails s o h = cc

superseded-fails : {B : Type 0} (f : Flow) → superseded_reauth_result f ≡ updated → B
unfolding superseded_reauth_result
superseded-fails f h = elim (Bool-cases f.flow_removed) [
  | inl e ↦ absurd (ground arith)
  | inr e ↦ kept_form-fails _ _ (rw e at h)
]

finish_reauth-updates :
    (p : Pending) (check : Checked (Unit {0})) (f : Flow)
    → (finish_reauth p check f).0 ≡ updated
    → (check ≡ passed tt)
      × ((finish_reauth p check f).1
          ≡ record f { pending = none; entry_data = put_credential p.result f.entry_data })
unfolding finish_reauth
finish_reauth-updates p (passed tt) f h = (refl, refl)
finish_reauth-updates p (raised e) f h = cc
finish_reauth-updates p (problem Problem.wrong_hub) f h = cc
finish_reauth-updates p (problem _) f h = cc

-- The state that a reauthentication finds after its check allows the update, and what the update is.
pub record IsReauthorized (generation : ℕ) (p : Pending) (found after : Flow) : Type 0 where
  pub stays : found.flow_removed ≡ false
  pub newest : (found.reauth_generation == generation) ≡ true
  pub pending : is_pending p.serial found.pending ≡ true
  pub stored :
      after ≡ record found { pending = none; entry_data = put_credential p.result found.entry_data }

authorized_reauth :
    (generation : ℕ) (p : Pending) (check : Checked (Unit {0})) (f : Flow)
    → let out : Outcome × Flow =
        if reauth_is_current generation f && is_pending p.serial f.pending
        then finish_reauth p check f
        else (superseded_reauth_result f, f) in
      out.0 ≡ updated → (check ≡ passed tt) × IsReauthorized generation p f out.1
unfolding reauth_is_current
authorized_reauth generation p check f h =
    elim (Bool-cases (reauth_is_current generation f && is_pending p.serial f.pending)) [
      | inl e ↦ rw e (
          let (done, stored) = finish_reauth-updates p check f (rw e at h) in
          (
            done,
            record {
              stays = ground arith;
              newest = ground arith;
              pending = ground arith;
              stored = stored;
            },
          ))
      | inr e ↦ superseded-fails f (rw e at h)
    ]

settle_reauth-updates :
    (generation : ℕ) (p : Pending) (check : Checked (Unit {0})) (f : Flow)
    → (settle_reauth generation p check f).0 ≡ updated
    → (check ≡ passed tt) × IsReauthorized generation p f (settle_reauth generation p check f).1
unfolding settle_reauth
settle_reauth-updates generation p (raised e) f h = cc
settle_reauth-updates generation p (problem x) f h = authorized_reauth generation p (problem x) f h
settle_reauth-updates generation p (passed tt) f h = authorized_reauth generation p (passed tt) f h

validate_reauth-updates :
    (w : World) (p : Pending) (f : Flow)
    → (validate_reauth w p f).0 ≡ updated
    → IsVerified w.env (entry_endpoint f.entry_data) p.result (get "hub_id" f.entry_data)
      × ((wire : Wire) × IsReauthorized f.reauth_generation p
            (w.meanwhile (record f { wire = wire }))
            (validate_reauth w p f).1)
unfolding validate_reauth
validate_reauth-updates w p f h =
    let (done, authorized) = settle_reauth-updates f.reauth_generation p _ _ h in
    (
      validate_issued_access-IsVerified w.env (entry_endpoint f.entry_data) p.result
          (get "hub_id" f.entry_data) f.wire done,
      (_, authorized),
    )

-- A reauthentication updates the entry only with the pending result, verified at the entry's own
-- endpoint for the entry's Hub, and only if the flow that it finds after the check was not removed,
-- has started no other claim and still holds the same result; the update writes the credential and
-- nothing else, and the result is not kept.
pub async_step_reauth_validate-Updates :
    (w : World) (f : Flow)
    → (async_step_reauth_validate w true f).0 ≡ updated
    → (p : Pending) × (f.pending ≡ some p)
      × IsVerified w.env (entry_endpoint f.entry_data) p.result (get "hub_id" f.entry_data)
      × ((wire : Wire) × IsReauthorized f.reauth_generation p
            (w.meanwhile (record f { wire = wire }))
            (async_step_reauth_validate w true f).1)
unfolding async_step_reauth_validate
async_step_reauth_validate-Updates w f h = elim (Option-cases f.pending) [
  | inl e ↦ absurd (ground arith)
  | inr (p, e) ↦
      (let same : async_step_reauth_validate w true f ≡ validate_reauth w p f = ground arith in
        let (verified, authorized) = validate_reauth-updates w p f (rw same at h) in
        (p, e, verified, rw same authorized))
]

finish_replacement-updates :
    (endpoint : HubEndpoint) (r : PairingResult) (check : Checked (Unit {0})) (f : Flow)
    → (finish_replacement endpoint r check f).0 ≡ updated
    → (check ≡ passed tt)
      × ((finish_replacement endpoint r check f).1.entry_data
          ≡ put_credential r (put_endpoint endpoint f.entry_data))
unfolding finish_replacement
finish_replacement-updates endpoint r (passed tt) f h = (refl, refl)
finish_replacement-updates endpoint r (raised e) f h = cc
finish_replacement-updates endpoint r (problem Problem.wrong_hub) f h = cc
finish_replacement-updates endpoint r (problem _) f h = cc

-- The state that a replacement finds after its check allows the update, and what the update is.
pub record IsApproved (c : Candidate) (hub_id : String) (p : Pending) (found after : Flow)
    : Type 0 where
  pub approved : found.replacement_approved ≡ true
  pub candidate : is_candidate c.serial found.replacement_endpoint ≡ true
  pub pending : is_pending p.serial found.pending ≡ true
  pub hub : is_text hub_id (get "hub_id" found.entry_data) ≡ true
  pub stored : after.entry_data ≡ put_credential p.result (put_endpoint c.endpoint found.entry_data)

authorized_replacement :
    (c : Candidate) (hub_id : String) (p : Pending) (check : Checked (Unit {0})) (f : Flow)
    → let out : Outcome × Flow =
        if not (is_text hub_id (get "hub_id" f.entry_data))
        then (Outcome.abort Reason.wrong_hub, clear_replacement f)
        else if f.replacement_approved
            && (is_candidate c.serial f.replacement_endpoint
                && (is_hub hub_id f.replacement_hub_id && is_pending p.serial f.pending))
        then finish_replacement c.endpoint p.result check f
        else (Outcome.abort Reason.replacement_not_approved, f) in
      out.0 ≡ updated → (check ≡ passed tt) × IsApproved c hub_id p f out.1
authorized_replacement c hub_id p check f h =
    elim (Bool-cases (is_text hub_id (get "hub_id" f.entry_data))) [
      | inr e ↦ absurd (ground arith)
      | inl e ↦
          elim (Bool-cases (
            f.replacement_approved
            && (is_candidate c.serial f.replacement_endpoint
                && (is_hub hub_id f.replacement_hub_id && is_pending p.serial f.pending)))) [
                  | inr e' ↦ absurd (ground arith)
                  | inl e' ↦
                      rw (e, e')
                        (let (done, stored) =
                            finish_replacement-updates c.endpoint p.result check f
                              (rw (e, e') at h) in
                          (
                            done,
                            record {
                              approved = ground arith;
                              candidate = ground arith;
                              pending = ground arith;
                              hub = e;
                              stored = stored;
                            },
                          ))
                ]
    ]

settle_replacement-updates :
    (c : Candidate) (hub_id : String) (p : Pending) (check : Checked (Unit {0})) (f : Flow)
    → (settle_replacement c hub_id p check f).0 ≡ updated
    → (check ≡ passed tt) × IsApproved c hub_id p f (settle_replacement c hub_id p check f).1
unfolding settle_replacement
settle_replacement-updates c hub_id p (raised e) f h = cc
settle_replacement-updates c hub_id p (problem x) f h =
    authorized_replacement c hub_id p (problem x) f h
settle_replacement-updates c hub_id p (passed tt) f h =
    authorized_replacement c hub_id p (passed tt) f h

validate_replacement-updates :
    (w : World) (c : Candidate) (hub_id : String) (p : Pending) (f : Flow)
    → (validate_replacement w c hub_id p f).0 ≡ updated
    → IsVerified w.env c.endpoint p.result (str hub_id)
      × ((wire : Wire) × IsApproved c hub_id p
            (w.meanwhile (record f { wire = wire }))
            (validate_replacement w c hub_id p f).1)
unfolding validate_replacement
validate_replacement-updates w c hub_id p f h =
    elim (Bool-cases (is_text hub_id (get "hub_id" f.entry_data))) [
      | inr e ↦ absurd (ground arith)
      | inl e ↦ rw e (
          let (done, approved) = settle_replacement-updates c hub_id p _ _ (rw e at h) in
          (
            validate_issued_access-IsVerified w.env c.endpoint p.result (str hub_id) f.wire done,
            (_, approved),
          ))
    ]

-- A replacement of endpoint and credential updates the entry only with the approved candidate and
-- the pending result, verified at the candidate for the entry's Hub, and only if the flow that it
-- finds after the check still has that approval, that candidate, that result and that Hub; the
-- update writes the endpoint and the credential and nothing else.
pub async_step_reconfigure_validate-Updates :
    (w : World) (f : Flow)
    → (async_step_reconfigure_validate w true f).0 ≡ updated
    → (c : Candidate) × (hub_id : String) × (p : Pending) × (approved_replacement f
        ≡ some (c, hub_id))
      × (f.pending ≡ some p)
      × IsVerified w.env c.endpoint p.result (str hub_id)
      × ((wire : Wire) × IsApproved c hub_id p
            (w.meanwhile (record f { wire = wire }))
            (async_step_reconfigure_validate w true f).1)
unfolding async_step_reconfigure_validate
async_step_reconfigure_validate-Updates w f h = elim (Option-cases (approved_replacement f)) [
  | inl e ↦ absurd (ground arith)
  | inr (pair, e) ↦ elim (Option-cases f.pending) [
    | inl e' ↦ absurd (ground arith)
    | inr (p, e') ↦
        (let (c, hub_id) = pair in
          let same : async_step_reconfigure_validate w true f
              ≡ validate_replacement w c hub_id p f =
            ground arith in
          let (verified, approved) = validate_replacement-updates w c hub_id p f (rw same at h) in
          (c, hub_id, p, e, e', verified, rw same approved))
  ]
]
