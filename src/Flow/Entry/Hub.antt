-- ===== src/Flow/Entry/Hub.antt =====
-- No step of a flow of config_flow.py changes the Hub of the entry.
use teslatlas_home_assistant.Prelude.{
  ◌≡◌, refl, inl, inr, ◌∙◌, ℕ, String, Bool, true, false, Option, none, some, Option-cases,
}
use teslatlas_home_assistant.Values.{get}
use teslatlas_home_assistant.Models.{PairingResult}
use teslatlas_home_assistant.Flow.{
  Problem, Flow, Pending, Candidate, World, async_remove, set_pending,
}
use teslatlas_home_assistant.Flow.Checks.{Checked, passed, problem, raised, Invitation}
use teslatlas_home_assistant.Flow.User.{accept_endpoint, async_step_user}
use teslatlas_home_assistant.Flow.Reauth.{
  validate_reauth, async_step_reauth_validate, accept_reauth, settle_claim,
  async_step_reauth_confirm,
}
use teslatlas_home_assistant.Flow.Reconfigure.{
  answer_approval, try_endpoint, async_step_reconfigure_confirm, settle_replacement,
  validate_replacement, async_step_reconfigure_validate, settle_replacement_claim,
  claim_replacement, async_step_reconfigure_pair, async_step_reconfigure_tls, approved_replacement,
}
use teslatlas_home_assistant.Flow.Entry.{
  Step, run_step, Reaches, hub, Keeps, Keeps-from, kept, if-hub, or_else-hub, accept_probed-hub,
  pair_validate-hub, pair-hub, move_probed-hub, settle_reauth-hub, settle_replacement-hub, start,
  next, removed, user, pair, pair_validate, reauth_confirm, reauth_validate, reconfigure_confirm,
  reconfigure_tls, reconfigure_pair, reconfigure_validate, keeps,
}

module _ (w : World) (undisturbed : (f : Flow) → hub (w.meanwhile f) ≡ hub f) where
  reauth_validate-hub : (b : Bool) (f : Flow) → Keeps (hub f) (async_step_reauth_validate w b f)
  unfolding async_step_reauth_validate validate_reauth
  reauth_validate-hub b f = elim (Option-cases f.pending) [
    | inl e ↦ rw e (keeps refl)
    | inr (p, e) ↦ rw e (
        if-hub b (Keeps-from (undisturbed _) (settle_reauth-hub f.reauth_generation p _ _))
          (keeps refl))
  ]

  accept_reauth-hub : (n : ℕ) (r : PairingResult) (f : Flow) → Keeps (hub f) (accept_reauth w n r f)
  unfolding accept_reauth
  accept_reauth-hub n r f =
      let last =
        Keeps-from (undisturbed f) (reauth_validate-hub true (set_pending r (w.meanwhile f))) in
      search (if-hub, keeps, undisturbed)

  settle_claim-hub :
      (n : ℕ) (check : Checked PairingResult) (f : Flow) → Keeps (hub f) (settle_claim w n check f)
  unfolding settle_claim
  settle_claim-hub n (passed r) f = search (if-hub, keeps, accept_reauth-hub)
  settle_claim-hub n (problem x) f = search (if-hub, keeps)
  settle_claim-hub n (raised x) f = keeps refl

  later :
      (c : Candidate) (h : String) (p : Pending) (check : Checked (Unit {0})) (f g : Flow)
      → hub g ≡ hub f
      → Keeps (hub f) (settle_replacement c h p check (w.meanwhile g))
  later c h p check f g e =
      Keeps-from (undisturbed g ∙ e) (settle_replacement-hub c h p check (w.meanwhile g))

  replacement-hub :
      (c : Candidate) (h : String) (p : Pending) (f : Flow)
      → Keeps (hub f) (validate_replacement w c h p f)
  unfolding validate_replacement
  replacement-hub c h p f = search (if-hub, keeps, later)

  reconfigure_validate-hub :
      (b : Bool) (f : Flow) → Keeps (hub f) (async_step_reconfigure_validate w b f)
  unfolding async_step_reconfigure_validate
  reconfigure_validate-hub b f = or_else-hub (approved_replacement f) (keeps refl) λ ch.
      or_else-hub f.pending (keeps refl) λ p. if-hub b (replacement-hub ch.0 ch.1 p f) (keeps refl)

  settle_replacement_claim-hub :
      (c : Candidate) (h : String) (check : Checked PairingResult) (f : Flow)
      → Keeps (hub f) (settle_replacement_claim w c h check f)
  unfolding settle_replacement_claim
  settle_replacement_claim-hub c h (passed r) f =
      let last = reconfigure_validate-hub true (set_pending r f) in search (if-hub, keeps)
  settle_replacement_claim-hub c h (problem Problem.wrong_hub) f = search (if-hub, keeps)
  settle_replacement_claim-hub c h (problem _) f = search (if-hub, keeps)
  settle_replacement_claim-hub c h (raised x) f = keeps refl

  reconfigure_pair-hub :
      (i : Option Invitation) (f : Flow) → Keeps (hub f) (async_step_reconfigure_pair w i f)
  unfolding async_step_reconfigure_pair claim_replacement
  reconfigure_pair-hub i f = or_else-hub (approved_replacement f) (keeps refl) λ ch.
      or_else-hub i (keeps refl)
        λ x. Keeps-from (undisturbed _) (settle_replacement_claim-hub ch.0 ch.1 _ _)

  reconfigure_tls-hub :
      (i : Option Bool) (f : Flow) → Keeps (hub f) (async_step_reconfigure_tls w i f)
  unfolding async_step_reconfigure_tls answer_approval
  reconfigure_tls-hub i f =
      or_else-hub f.replacement_endpoint (keeps refl)
        λ _. or_else-hub f.replacement_hub_id (keeps refl) λ _. answered i
    where
      answered : (i : Option Bool) → Keeps (hub f) (answer_approval w i f)
      answered none = keeps refl
      answered (some false) = keeps refl
      answered (some true) = reconfigure_pair-hub none (record f { replacement_approved = true })

  run_step-hub : (s : Step) (f : Flow) → Keeps (hub f) (run_step w s f)
  unfolding run_step async_step_user accept_endpoint async_step_reauth_confirm
      async_step_reconfigure_confirm try_endpoint
  run_step-hub (user none) f = keeps refl
  run_step-hub (user (some i)) f = accept_probed-hub w _ _ _
  run_step-hub (pair i) f = pair-hub w i f
  run_step-hub (pair_validate b) f = pair_validate-hub w b f
  run_step-hub (reauth_confirm none) f = keeps refl
  run_step-hub (reauth_confirm (some i)) f = Keeps-from (undisturbed _) (settle_claim-hub _ _ _)
  run_step-hub (reauth_validate b) f = reauth_validate-hub b f
  run_step-hub (reconfigure_confirm none) f = keeps refl
  run_step-hub (reconfigure_confirm (some i)) f = move_probed-hub w _ _ _
  run_step-hub (reconfigure_tls i) f = reconfigure_tls-hub i f
  run_step-hub (reconfigure_pair i) f = reconfigure_pair-hub i f
  run_step-hub (reconfigure_validate b) f = reconfigure_validate-hub b f

-- However many steps of a flow are run, in any order and with any input, and whether it is removed
-- among them, the Hub of the entry stays the same, if what happens while a step waits leaves it too.
pub Reaches-hub :
    (w : World)
    → ((f : Flow) → get "hub_id" (w.meanwhile f).entry_data ≡ get "hub_id" f.entry_data)
    → (f g : Flow) → Reaches w f g
    → get "hub_id" g.entry_data ≡ get "hub_id" f.entry_data
unfolding async_remove
Reaches-hub w undisturbed f g start = refl
Reaches-hub w undisturbed f g (next {g = m} r s) =
    kept (run_step-hub w undisturbed s m) ∙ Reaches-hub w undisturbed f m r
Reaches-hub w undisturbed f g (removed {g = m} r) = Reaches-hub w undisturbed f m r
