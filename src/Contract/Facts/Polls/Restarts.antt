-- ===== src/Contract/Facts/Polls/Restarts.antt =====
-- The facts of a poll after a restart or an outage.
use teslatlas_home_assistant.Prelude.{
  ◌≡◌, refl, ◌∙◌, ap, String, Bool, true, false, ◌||◌, &&_both, not-true, not, some, if◌then◌else◌,
}
use teslatlas_home_assistant.Prelude.Int.{ℤ, ltb_ℤ}
use teslatlas_home_assistant.Errors.{ok, >>=-eq-ok}
use teslatlas_home_assistant.Json.{Members, get, eq}
use teslatlas_home_assistant.Contract.{AdmissionContext}
use teslatlas_home_assistant.Contract.Checks.{says, as_integer}
use teslatlas_home_assistant.Contract.Observations.{
  running_observation, stopped_observation, transition_matches,
}
use teslatlas_home_assistant.Contract.Sequences.{operation_sequences}
use teslatlas_home_assistant.Contract.Facts.{Facts, no_facts}
use teslatlas_home_assistant.Contract.Facts.Inversion.{
  facts_if-some, with_value-some, with_observed-some, with_dict-some, with_runtime-some,
}
use teslatlas_home_assistant.Contract.Facts.Polls.{has_restarted, restart_facts, restart_poll_facts}

-- The service ran at the first number, stood still at one between, and ran anew at the second.
pub record IsRestart (c : AdmissionContext) (operation : String) (compares_hub : Bool)
    (before after stopped : ℤ) (prior halted restarted : Members) : Type 0 where
  pub numbered : operation_sequences c operation ≡ some (before, after)
  pub ran : running_observation c before ≡ ok (some prior)
  pub stood : stopped_observation c stopped before ≡ ok (some halted)
  pub runs : running_observation c after ≡ ok (some restarted)
  pub stops_later : ltb_ℤ before stopped ≡ true
  pub starts_later : ltb_ℤ stopped after ≡ true
  pub started : says "start" (get "operation" restarted) ≡ true
  pub same_hub : (not compares_hub || eq (get "hub_id" prior) (get "hub_id" restarted)) ≡ true
  pub new_generation :
      eq (get "service_generation" prior) (get "service_generation" restarted) ≡ false

unless-some :
    (b : Bool) (k : Facts) {f : Members}
    → (if not b then no_facts else k) ≡ ok (some f)
    → (b ≡ true) × (k ≡ ok (some f))
unless-some true k h = (refl, h)
unless-some false k h = cc

has_restarted-order :
    (before after stopped : ℤ) (transition prior restarted : Members)
    → has_restarted before after stopped transition prior restarted ≡ true
    → (says "start" (get "operation" restarted) ≡ true)
      × (ltb_ℤ before stopped ≡ true)
      × (ltb_ℤ stopped after ≡ true)
unfolding has_restarted
has_restarted-order before after stopped transition prior restarted h =
    let (started, h1) = &&_both (says "start" (get "operation" restarted)) _ h in
    let (from, h2) =
      &&_both (eq (get "from_sequence" transition) (get "stopped_sequence" transition)) _ h1 in
    let (matches, h3) =
      &&_both (transition_matches restarted "start" (get "stopped_sequence" transition)) _ h2 in
    let (first, second) = &&_both (ltb_ℤ before stopped) (ltb_ℤ stopped after) h3 in
    (started, first, second)

restart_facts-some :
    (c : AdmissionContext) (compares_hub : Bool) (facts : Members) (before after : ℤ)
    (prior restarted : Members) {f : Members}
    → restart_facts c compares_hub facts before after prior restarted ≡ ok (some f)
    → (stopped : ℤ) × (halted : Members) × (says "start" (get "operation" restarted) ≡ true)
      × (ltb_ℤ before stopped ≡ true)
      × (ltb_ℤ stopped after ≡ true)
      × (stopped_observation c stopped before ≡ ok (some halted))
      × ((not compares_hub || eq (get "hub_id" prior) (get "hub_id" restarted)) ≡ true)
      × (eq (get "service_generation" prior) (get "service_generation" restarted) ≡ false)
unfolding restart_facts
restart_facts-some c compares_hub facts before after prior restarted h =
    let (transition, e1, h1) = with_dict-some (get "transition" restarted) _ h in
    let (stopped, e2, h2) = with_value-some (as_integer (get "stopped_sequence" transition)) _ h1 in
    let (holds, h3) =
      unless-some (has_restarted before after stopped transition prior restarted) _ h2 in
    let (halted, stood, h4) = with_observed-some (stopped_observation c stopped before) _ h3 in
    let (conditions, e3) = facts_if-some _ _ h4 in
    let (started, first, second) =
      has_restarted-order before after stopped transition prior restarted holds in
    let (same, other) =
      &&_both (not compares_hub || eq (get "hub_id" prior) (get "hub_id" restarted))
        (not (eq (get "service_generation" prior) (get "service_generation" restarted)))
        conditions in
    (stopped, halted, started, first, second, stood, same, not-true _ other)

-- The facts of a poll after a restart or an outage are shown only if the service ran at the first
-- number of the operation, was observed to stand still at a later number, and was started anew by the
-- second, which is later still, with another generation and, for a restart of the endpoint, with the
-- same Hub.
pub restart_poll_facts-IsRestart :
    (c : AdmissionContext) (operation : String) (compares_hub : Bool) (facts f : Members)
    → restart_poll_facts c operation compares_hub facts ≡ ok (some f)
    → (before : ℤ) × (after : ℤ) × (stopped : ℤ) × (prior : Members) × (halted : Members)
      × (restarted : Members) × IsRestart c operation compares_hub before after stopped prior halted
          restarted
unfolding restart_poll_facts
restart_poll_facts-IsRestart c operation compares_hub facts f h =
    let (runtime, h1) = with_runtime-some c _ h in
    let (s, numbered, h2) = with_value-some (operation_sequences c operation) _ h1 in
    let (first, e1, h3) = >>=-eq-ok (running_observation c (s.0)) _ h2 in
    let (second, e2, h4) = >>=-eq-ok (running_observation c (s.1)) _ h3 in
    let (prior, e3, h5) = with_value-some first _ h4 in
    let (restarted, e4, h6) = with_value-some second _ h5 in
    let (stopped, halted, started, stops, starts, stood, same, other) =
      restart_facts-some c compares_hub facts (s.0) (s.1) prior restarted h6 in
    (
      s.0,
      s.1,
      stopped,
      prior,
      halted,
      restarted,
      record {
        numbered = numbered;
        ran = e1 ∙ ap ok e3;
        stood = stood;
        runs = e2 ∙ ap ok e4;
        stops_later = stops;
        starts_later = starts;
        started = started;
        same_hub = same;
        new_generation = other;
      },
    )
