-- ===== src/Contract/Facts/Unload/Census.antt =====
-- The census of the requests before an unload.
use teslatlas_home_assistant.Prelude.{
  ◌+◌, ==_iff, ◌≡◌, refl, ap, ◌∙◌, Bool, true, false, ◌&&◌, &&_both, not-true, not, List, [], ◌∷◌,
  ◌++◌, Option, none, some, map, length, any, Bool-cases, inl, inr,
}
use mathlib.Core.List.{Perm, perm_middle, append-nil}
use mathlib.Core.List.Perm
use mathlib.Core.Path.{subst}
use teslatlas_home_assistant.Errors.{Result, ok, err, >>=-eq-ok, ok-injective}
use teslatlas_home_assistant.Json.{Json, Members, get}
use teslatlas_home_assistant.Contract.{AdmissionContext}
use teslatlas_home_assistant.Contract.Checks.{counts, is_positive, ◌and_also◌}
use teslatlas_home_assistant.Contract.Sequences.{all_of}
use teslatlas_home_assistant.Contract.Facts.Inversion.{
  facts_if-some, with_dict-some, with_runtime-some,
}
use teslatlas_home_assistant.Contract.Facts.Unload.{
  method_and_route, objects, all_requests, with_outcome, in_phase, names_event, number_at, adds_up,
  counts_add_up, valid_attempts, int_after, is_true, is_quiet, same_pairs, attempts_of, listed,
  census_result, census_facts, only_facts, unload_facts,
}
use teslatlas_home_assistant.Contract.Facts.Unload.Sorting.{
  less_pair, insert_sorted, sort_onto, sorted,
}

insert_sorted-Perm :
    (p : Json × Json) (qs rs : List (Json × Json)) → insert_sorted p qs ≡ ok rs → Perm (p ∷ qs) rs
unfolding insert_sorted
insert_sorted-Perm p [] rs h = rw (ok-injective h) (Perm.refl rs)
insert_sorted-Perm p (q ∷ qs) rs h =
    let (smaller, e, h1) = >>=-eq-ok (less_pair p q) _ h in
    elim (Bool-cases smaller) [
      | inl first ↦ rw (ok-injective (rw first at h1)) (Perm.refl rs)
      | inr after ↦
          let (later, e1, h2) =
            >>=-eq-ok (insert_sorted p qs) (λ later. ok (q ∷ later)) (rw after at h1) in
          rw (← ok-injective h2)
            (Perm.trans (Perm.swap q p qs) (Perm.cons q (insert_sorted-Perm p qs later e1)))
    ]

sort_onto-Perm :
    (done ps rs : List (Json × Json)) → sort_onto done ps ≡ ok rs → Perm (ps ++ done) rs
unfolding sort_onto
sort_onto-Perm done [] rs h = rw (ok-injective h) (Perm.refl rs)
sort_onto-Perm done (p ∷ ps) rs h =
    let (more, e, h1) = >>=-eq-ok (insert_sorted p done) _ h in
    Perm.trans (Perm.symm (perm_middle ps done)) (
      Perm.trans (Perm.append_left ps (insert_sorted-Perm p done more e))
        (sort_onto-Perm more ps rs h1))

-- `sorted` only changes the order.
sorted-Perm : (ps rs : List (Json × Json)) → sorted ps ≡ ok rs → Perm ps rs
unfolding sorted
sorted-Perm ps rs h = rw (append-nil ps) at (sort_onto-Perm [] ps rs h)

-- The census of the attempts and of the requests of all records.
pub record IsCensus (c : AdmissionContext) (facts : Members) (attempts : List Json)
    (requests : List Members) (transcript completed : List (Json × Json)) : Type 0 where
  pub listed : attempts_of (get "attempts" facts) ≡ some attempts
  pub recorded : all_requests c.raw ≡ ok requests
  pub reordered_requests : Perm (map method_and_route requests) transcript
  pub reordered_attempts :
      Perm (map method_and_route (with_outcome "completed" (objects attempts))) completed
  pub matched : same_pairs completed transcript ≡ true
  pub added :
      number_at "attempted_requests" facts
      ≡ number_at "completed_requests" facts
        + number_at "failed_requests" facts
        + number_at "cancelled_requests" facts
        + number_at "pending_requests" facts
  pub none_pending : counts 0 (get "pending_requests" facts) ≡ true
  pub no_stream : any names_event (objects attempts) ≡ false
  pub none_later : counts 0 (get "post_unload_requests" facts) ≡ true

and_also-true : (r k : Result Bool) → (r and_also k) ≡ ok true → (r ≡ ok true) × (k ≡ ok true)
and_also-true (ok true) k h = (refl, h)
and_also-true (ok false) k h = cc
and_also-true (err e) k h = cc

counts_add_up-adds_up :
    (facts : Members) (attempts : List Json)
    → counts_add_up facts attempts ≡ ok true
    → adds_up facts attempts ≡ true
unfolding counts_add_up
counts_add_up-adds_up facts attempts h =
    let first =
      (and_also-true (ok (adds_up facts attempts) and_also valid_attempts attempts) _ h).0 in
    ok-injective ((and_also-true (ok (adds_up facts attempts)) _ first).0)

adds_up-sum :
    (facts : Members) (attempts : List Json)
    → adds_up facts attempts ≡ true
    → (number_at "attempted_requests" facts
        ≡ number_at "completed_requests" facts
          + number_at "failed_requests" facts
          + number_at "cancelled_requests" facts
          + number_at "pending_requests" facts)
      × (counts 0 (get "pending_requests" facts) ≡ true)
unfolding adds_up
adds_up-sum facts attempts h =
    let (naturals, h1) = &&_both _ _ h in
    let (sum, h2) = &&_both _ _ h1 in
    let (pending, h3) = &&_both _ _ h2 in ((==_iff _ _).0 sum, pending)

is_quiet-silent :
    (facts : Members) (attempts : List Members)
    → is_quiet facts attempts ≡ true
    → (any names_event attempts ≡ false) × (counts 0 (get "post_unload_requests" facts) ≡ true)
unfolding is_quiet
is_quiet-silent facts attempts h =
    let (later, h1) =
      &&_both
        (counts (length (in_phase "after_unload" attempts)) (get "post_unload_attempts" facts)) _
        h in
    let (deadline, h2) = &&_both (is_positive (get "scheduled_callback_deadline_ns" facts)) _ h1 in
    let (watched, h3) =
      &&_both
        (int_after (get "scheduled_callback_deadline_ns" facts)
          (get "observed_after_deadline_ns" facts))
        _ h2 in
    let (is_cancelled, h4) = &&_both (is_true (get "scheduled_callback_cancelled" facts)) _ h3 in
    let (sse, h5) = &&_both (counts 0 (get "sse_requests" facts)) _ h4 in
    let (silent, h6) = &&_both (not (any names_event attempts)) _ h5 in
    let (events, h7) = &&_both (counts 0 (get "last_event_id_requests" facts)) _ h6 in
    let (none_later, h8) =
      &&_both (counts 0 (get "post_unload_requests" facts))
        (counts 0 (get "post_unload_attempts" facts) && is_true (get "clean_unload" facts)) h7 in
    (not-true _ silent, none_later)

census-parts :
    (facts : Members) (attempts : List Json) (transcript completed : List (Json × Json))
    {f : Members}
    → census_result facts transcript completed (some attempts) ≡ ok (some f)
    → (adds_up facts attempts ≡ true)
      × (same_pairs completed transcript ≡ true)
      × (is_quiet facts (objects attempts) ≡ true)
      × (facts ≡ f)
census-parts facts attempts transcript completed h =
    let (b, e, h1) = >>=-eq-ok (counts_add_up facts attempts) _ h in
    let (holds, same) = facts_if-some _ _ h1 in
    let (is_added, h2) = &&_both b _ holds in
    let (is_matched, is_still) = &&_both (same_pairs completed transcript) _ h2 in
    (counts_add_up-adds_up facts attempts (e ∙ ap ok is_added), is_matched, is_still, same)

census_result-IsCensus :
    (c : AdmissionContext) (facts : Members) (requests : List Members)
    (transcript completed : List (Json × Json)) (found : Option (List Json)) {f : Members}
    → attempts_of (get "attempts" facts) ≡ found
    → all_requests c.raw ≡ ok requests
    → sorted (map method_and_route requests) ≡ ok transcript
    → sorted (map method_and_route (with_outcome "completed" (objects (listed found))))
      ≡ ok completed
    → census_result facts transcript completed found ≡ ok (some f)
    → (attempts : List Json) × IsCensus c facts attempts requests transcript completed × (facts ≡ f)
census_result-IsCensus c facts requests transcript completed none found recorded s1 s2 h = cc
census_result-IsCensus c facts requests transcript completed (some attempts) found recorded s1 s2
      h =
    let (sums, matched, still, same) = census-parts facts attempts transcript completed h in
    let (added, none_pending) = adds_up-sum facts attempts sums in
    let (no_stream, none_later) = is_quiet-silent facts (objects attempts) still in
    (
      attempts,
      record {
        listed = found;
        recorded = recorded;
        reordered_requests = sorted-Perm _ transcript s1;
        reordered_attempts = sorted-Perm _ completed s2;
        matched = matched;
        added = added;
        none_pending = none_pending;
        no_stream = no_stream;
        none_later = none_later;
      },
      same,
    )

census_facts-IsCensus :
    (c : AdmissionContext) (facts : Members) {f : Members}
    → census_facts c facts ≡ ok (some f)
    → (attempts : List Json) × (requests : List Members) × (transcript : List (Json × Json))
      × (completed : List (Json × Json)) × IsCensus c facts attempts requests transcript completed
      × (facts ≡ f)
unfolding census_facts
census_facts-IsCensus c facts h =
    let (requests, recorded, h1) = >>=-eq-ok (all_requests c.raw) _ h in
    let (transcript, s1, h2) = >>=-eq-ok (sorted (map method_and_route requests)) _ h1 in
    let (completed, s2, h3) =
      >>=-eq-ok
        (sorted (
          map method_and_route
            (with_outcome "completed" (objects (listed (attempts_of (get "attempts" facts)))))))
        _ h2 in
    let (attempts, census, same) =
      census_result-IsCensus c facts requests transcript completed
        (attempts_of (get "attempts" facts)) refl recorded s1 s2 h3 in
    (attempts, requests, transcript, completed, census, same)

-- The facts of an unload are shown only if the methods and the routes of the completed attempts and
-- those of the requests in all records can be reordered to lists that agree one by one, the count of
-- the attempts is the sum of those of the completed, the failed, the cancelled and the pending ones,
-- the count of the pending ones is zero, no attempt has a route that names an event, and the count of
-- the requests after the unload is zero.
pub unload_facts-IsCensus :
    (c : AdmissionContext) (f : Members)
    → unload_facts c ≡ ok (some f)
    → (attempts : List Json) × (requests : List Members) × (transcript : List (Json × Json))
      × (completed : List (Json × Json)) × IsCensus c f attempts requests transcript completed
unfolding unload_facts
unload_facts-IsCensus c f h =
    let (runtime, h1) = with_runtime-some c _ h in
    let (facts, e, h2) = with_dict-some (only_facts (all_of "unload" c.raw)) _ h1 in
    let (attempts, requests, transcript, completed, census, same) =
      census_facts-IsCensus c facts h2 in
    (
      attempts,
      requests,
      transcript,
      completed,
      subst (λ d. IsCensus c d attempts requests transcript completed) same census,
    )
