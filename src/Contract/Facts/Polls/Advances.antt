-- ===== src/Contract/Facts/Polls/Advances.antt =====
-- The facts of the poll after the store has advanced.
use teslatlas_home_assistant.Prelude.{
  ◌≡◌, sym, ◌∙◌, ap, true, false, &&_both, not-true, not, Option, some,
}
use teslatlas_home_assistant.Prelude.Int.{ℤ, ltb_ℤ}
use teslatlas_home_assistant.Errors.{ok, >>=-eq-ok}
use teslatlas_home_assistant.Json.{Json, int, dict, Members, get, eq}
use teslatlas_home_assistant.Contract.{AdmissionContext}
use teslatlas_home_assistant.Contract.Checks.{says}
use teslatlas_home_assistant.Contract.Observations.{
  running_observation, running_at, transition_matches, agree, store_keys,
}
use teslatlas_home_assistant.Contract.Sequences.{operation_sequences}
use teslatlas_home_assistant.Contract.Facts.Inversion.{
  facts_if-some, with_value-some, with_observed-some, with_dict-some, with_int-some,
  with_runtime-some,
}
use teslatlas_home_assistant.Contract.Facts.Polls.{
  is_at, has_advanced, advanced_facts, later_poll_facts,
}

-- What the three observations say.
pub record IsAdvance (from_sequence verify_sequence before : ℤ)
    (transition predecessor verify observation : Members) : Type 0 where
  pub operated : says "advance-once" (get "operation" observation) ≡ true
  pub first : ltb_ℤ from_sequence verify_sequence ≡ true
  pub second : ltb_ℤ verify_sequence before ≡ true
  pub same_verified : agree store_keys verify predecessor ≡ true
  pub same_advanced : agree store_keys observation predecessor ≡ true
  pub one_generation :
      eq (get "service_generation" predecessor) (get "service_generation" verify) ≡ true
  pub other_generation :
      eq (get "service_generation" observation) (get "service_generation" verify) ≡ false
  pub moved :
      eq (get "before_store_sha256" transition) (get "after_store_sha256" transition) ≡ false

-- Where the three observations stand.
pub record AreObserved (c : AdmissionContext) (from_sequence verify_sequence before after : ℤ)
    (transition predecessor verify observation : Members) : Type 0 where
  pub numbered : operation_sequences c "later_poll" ≡ some (before, after)
  pub polled_first : is_at from_sequence (operation_sequences c "initial_poll") ≡ true
  pub changed : get "transition" observation ≡ dict transition
  pub at_first : running_observation c from_sequence ≡ ok (some predecessor)
  pub at_verify : running_observation c verify_sequence ≡ ok (some verify)
  pub at_last : running_observation c before ≡ ok (some observation)

has_advanced-IsAdvance :
    (from_sequence verify_sequence before : ℤ) (transition predecessor verify observation : Members)
    → has_advanced from_sequence verify_sequence before transition predecessor verify observation
      ≡ true
    → IsAdvance from_sequence verify_sequence before transition predecessor verify observation
unfolding has_advanced
has_advanced-IsAdvance from_sequence verify_sequence before transition predecessor verify
      observation h0 =
    let (operated, h1) = &&_both (says "advance-once" (get "operation" observation)) _ h0 in
    let (matches, h2) =
      &&_both (transition_matches observation "advance-once" (get "from_sequence" transition)) _
        h1 in
    let (first, h3) = &&_both (ltb_ℤ from_sequence verify_sequence) _ h2 in
    let (second, h4) = &&_both (ltb_ℤ verify_sequence before) _ h3 in
    let (was_verified, h5) = &&_both (says "verify" (get "operation" predecessor)) _ h4 in
    let (is_verified, h6) = &&_both (says "verify" (get "operation" verify)) _ h5 in
    let (same_verified, h7) = &&_both (agree store_keys verify predecessor) _ h6 in
    let (same_advanced, h8) = &&_both (agree store_keys observation predecessor) _ h7 in
    let (one_generation, h9) =
      &&_both (eq (get "service_generation" predecessor) (get "service_generation" verify)) _ h8 in
    let (other_generation, h10) =
      &&_both (not (eq (get "service_generation" observation) (get "service_generation" verify))) _
        h9 in
    let (moved, h11) =
      &&_both
        (not (eq (get "before_store_sha256" transition) (get "after_store_sha256" transition))) _
        h10 in
    record {
      operated = operated;
      first = first;
      second = second;
      same_verified = same_verified;
      same_advanced = same_advanced;
      one_generation = one_generation;
      other_generation = not-true _ other_generation;
      moved = not-true _ moved;
    }

observed_at :
    (c : AdmissionContext) (v : Json) (n : ℤ) (o : Option Members) (w : Members)
    → running_at c v ≡ ok o
    → v ≡ int n
    → o ≡ some w
    → running_observation c n ≡ ok (some w)
observed_at c v n o w h e e1 = sym (ap (running_at c) e) ∙ h ∙ ap ok e1

-- The facts of the later poll are shown only if the service was observed running three times, at the
-- number of the initial poll, at a later one and, later still, at the number of the later poll, always
-- with the same store and Hub, of one generation at the first two and of another at the last, and with
-- a store whose digest the step has changed.
pub later_poll_facts-IsAdvance :
    (c : AdmissionContext) (f : Members)
    → later_poll_facts c ≡ ok (some f)
    → (from_sequence : ℤ) × (verify_sequence : ℤ) × (before : ℤ) × (after : ℤ)
      × (transition : Members) × (predecessor : Members) × (verify : Members)
      × (observation : Members) × AreObserved c from_sequence verify_sequence before after
          transition predecessor verify observation
      × IsAdvance from_sequence verify_sequence before transition predecessor verify observation
unfolding later_poll_facts advanced_facts
later_poll_facts-IsAdvance c f h =
    let (runtime, h1) = with_runtime-some c _ h in
    let (s, numbered, h2) = with_value-some (operation_sequences c "later_poll") _ h1 in
    let (observation, at_last, h3) = with_observed-some (running_observation c (s.0)) _ h2 in
    let (transition, changed, h4) = with_dict-some (get "transition" observation) _ h3 in
    let (o1, r1, h5) = >>=-eq-ok (running_at c (get "from_sequence" transition)) _ h4 in
    let (o2, r2, h6) =
      >>=-eq-ok (running_at c (get "pre_advance_verify_sequence" transition)) _ h5 in
    let (n1, e1, h7) = with_int-some (get "from_sequence" transition) _ h6 in
    let (n2, e2, h8) = with_int-some (get "pre_advance_verify_sequence" transition) _ h7 in
    let (predecessor, p1, h9) = with_value-some o1 _ h8 in
    let (verify, p2, h10) = with_value-some o2 _ h9 in
    let (holds, same) = facts_if-some _ _ h10 in
    let (polled_first, advanced) =
      &&_both (is_at n1 (operation_sequences c "initial_poll")) _ holds in
    (
      n1,
      n2,
      s.0,
      s.1,
      transition,
      predecessor,
      verify,
      observation,
      record {
        numbered = numbered;
        polled_first = polled_first;
        changed = changed;
        at_first = observed_at c (get "from_sequence" transition) n1 o1 predecessor r1 e1 p1;
        at_verify =
            observed_at c (get "pre_advance_verify_sequence" transition) n2 o2 verify r2 e2 p2;
        at_last = at_last;
      },
      has_advanced-IsAdvance n1 n2 (s.0) transition predecessor verify observation advanced,
    )
