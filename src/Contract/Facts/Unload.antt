-- ===== src/Contract/Facts/Unload.antt =====
-- The facts of `unload`: the census of the requests that were attempted, against the requests of all
-- records.
pub mod Sorting
pub mod Census
use teslatlas_home_assistant.Prelude.{
  ℕ, suc, ◌+◌, String, Bool, true, false, ◌&&◌, ◌||◌, ◌==◌, leb, ltb, not, List, [], ◌∷◌, ◌++◌,
  Option, none, some, length, any, all, map, str_eq, if◌then◌else◌,
}
use teslatlas_home_assistant.Prelude.Int.{ℤ, pos, pos_part, ltb_ℤ}
use teslatlas_home_assistant.Prelude.Text.{codes, eq_codes}
use teslatlas_home_assistant.Errors.{Error, Result, ok, err, ◌>>=◌}
use teslatlas_home_assistant.Json.{
  Json, null, bool, int, float, str, list, dict, Items, Members, get, has, eq, has_keys, elements,
  items,
}
use teslatlas_home_assistant.Contract.{AdmissionContext}
use teslatlas_home_assistant.Contract.Checks.{
  is_natural, is_positive, int_with, says, counts, is_rooted_str, ◌and_also◌,
}
use teslatlas_home_assistant.Contract.Sequences.{all_of}
use teslatlas_home_assistant.Contract.Facts.{Facts, no_facts, facts_if, with_dict, with_runtime}
use teslatlas_home_assistant.Contract.Facts.Unload.Sorting.{sorted}

-- The method and the route of a request or an attempt.
abbrev pub method_and_route : Members → Json × Json
method_and_route d = (get "method" d, get "route" d)

-- The objects among the values.
unfoldable pub objects : List Json → List Members
objects [] = []
objects (dict d ∷ vs) = d ∷ objects vs
objects (v ∷ vs) = objects vs

-- What a loop over `value.get("requests", [])` meets; the characters of a text and the keys of an
-- object are no objects.
abbrev pub requests_listed : Json → Result (List Members)
requests_listed (list vs) = ok (objects (elements vs))
requests_listed (str s) = ok []
requests_listed (dict d) = ok []
requests_listed _ = err Error.type_error

abbrev pub requests_of : Members → Result (List Members)
requests_of d = if not (has "requests" d) then ok [] else requests_listed (get "requests" d)

unfoldable pub all_requests : List (String × Members) → Result (List Members)
all_requests [] = ok []
all_requests ((id, v) ∷ raw) =
    requests_of v >>= λ first. (all_requests raw >>= λ rest. ok (first ++ rest))

-- The attempts that ended in a way.
unfoldable pub with_outcome : String → List Members → List Members
with_outcome outcome [] = []
with_outcome outcome (a ∷ as') =
    let rest = with_outcome outcome as' in if says outcome (get "outcome" a) then a ∷ rest else rest

unfoldable pub in_phase : String → List Members → List Members
in_phase phase [] = []
in_phase phase (a ∷ as') =
    let rest = in_phase phase as' in if says phase (get "phase" a) then a ∷ rest else rest

-- `value in {…}` for a set of texts: lists and dictionaries have no hash.
abbrev pub is_one_of : List String → Json → Result Bool
is_one_of ts (list vs) = err Error.type_error
is_one_of ts (dict d) = err Error.type_error
is_one_of ts v = ok (any (λ t. says t v) ts)

abbrev short_route : Json → Bool
short_route (str s) = leb (length (codes s)) 256
short_route _ = false

abbrev pub valid_attempt : Json → Result Bool
valid_attempt (dict a) =
    ok (has_keys ("method" ∷ "route" ∷ "outcome" ∷ "phase" ∷ []) a)
    and_also is_one_of ("GET" ∷ "POST" ∷ []) (get "method" a)
    and_also ok (is_rooted_str (get "route" a) && short_route (get "route" a))
    and_also is_one_of ("completed" ∷ "failed" ∷ "cancelled" ∷ "pending" ∷ []) (get "outcome" a)
    and_also is_one_of ("before_unload" ∷ "after_unload" ∷ []) (get "phase" a)
valid_attempt _ = ok false

unfoldable pub valid_attempts : List Json → Result Bool
valid_attempts [] = ok true
valid_attempts (a ∷ as') = valid_attempt a and_also valid_attempts as'

-- `str.lower` on the letters A to Z: no other character has one of the letters below for its
-- lowercase form.
abbrev lower : ℕ → ℕ
lower c = if leb b'A' c && leb c b'Z' then c + 32 else c

unfoldable pub starts_with : List ℕ → List ℕ → Bool
starts_with [] s = true
starts_with (p ∷ ps) [] = false
starts_with (p ∷ ps) (c ∷ s) = p == c && starts_with ps s

unfoldable pub contains_codes : List ℕ → List ℕ → Bool
contains_codes part [] = starts_with part []
contains_codes part (c ∷ s) = starts_with part (c ∷ s) || contains_codes part s

-- `"event" in attempt["route"].lower()`
abbrev pub names_event : Members → Bool
names_event a = elim (get "route" a) [
  | str s ↦ contains_codes (codes "event") (map lower (codes s))
  | _ ↦ false
]

abbrev pub number_at : String → Members → ℕ
number_at k facts = elim (get k facts) [ int n ↦ pos_part n | _ ↦ 0 ]

abbrev pub outcomes : List String
outcomes = "completed" ∷ "failed" ∷ "cancelled" ∷ "pending" ∷ []

-- `facts[f"{outcome}_requests"]`
abbrev pub count_key : String → String
count_key outcome =
    if str_eq outcome "completed"
    then "completed_requests"
    else if str_eq outcome "failed"
    then "failed_requests"
    else if str_eq outcome "cancelled"
    then "cancelled_requests"
    else "pending_requests"

abbrev pub count_keys : List String
count_keys =
    "attempted_requests" ∷ "completed_requests" ∷ "failed_requests" ∷ "cancelled_requests"
    ∷ "pending_requests" ∷ []

-- The counts are numbers, add up, and are those of the attempts.
unfoldable pub adds_up : Members → List Json → Bool
adds_up facts attempts =
    all (λ k. is_natural (get k facts)) count_keys
    && (number_at "attempted_requests" facts
          == number_at "completed_requests" facts
            + number_at "failed_requests" facts
            + number_at "cancelled_requests" facts
            + number_at "pending_requests" facts
        && (counts 0 (get "pending_requests" facts)
            && (leb (length attempts) 1024
                && counts (length attempts) (get "attempted_requests" facts))))

unfoldable pub counts_outcomes : Members → List Json → Bool
counts_outcomes facts attempts =
    all
      (λ outcome.
        counts (length (with_outcome outcome (objects attempts))) (get (count_key outcome) facts))
      outcomes

unfoldable pub counts_add_up : Members → List Json → Result Bool
unfolding valid_attempts
counts_add_up facts attempts =
    ok (adds_up facts attempts)
    and_also valid_attempts attempts
    and_also ok (counts_outcomes facts attempts)

abbrev pub int_after : Json → Json → Bool
int_after (int a) (int b) = ltb_ℤ a b
int_after _ _ = false

abbrev pub is_true : Json → Bool
is_true (bool b) = b
is_true _ = false

-- Nothing was sent after the unload, no stream was opened, and the scheduled poll was cancelled and
-- watched beyond its time.
unfoldable pub is_quiet : Members → List Members → Bool
is_quiet facts attempts =
    counts (length (in_phase "after_unload" attempts)) (get "post_unload_attempts" facts)
    && (is_positive (get "scheduled_callback_deadline_ns" facts)
        && (int_after (get "scheduled_callback_deadline_ns" facts)
              (get "observed_after_deadline_ns" facts)
            && (is_true (get "scheduled_callback_cancelled" facts)
                && (counts 0 (get "sse_requests" facts)
                    && (not (any names_event attempts)
                        && (counts 0 (get "last_event_id_requests" facts)
                            && (counts 0 (get "post_unload_requests" facts)
                                && (counts 0 (get "post_unload_attempts" facts)
                                    && is_true (get "clean_unload" facts)))))))))

-- `left == right` for lists of pairs.
unfoldable pub same_pairs : List (Json × Json) → List (Json × Json) → Bool
same_pairs [] [] = true
same_pairs ((m, r) ∷ ps) ((m', r') ∷ qs) = eq m m' && (eq r r' && same_pairs ps qs)
same_pairs _ _ = false

abbrev pub attempts_of : Json → Option (List Json)
attempts_of (list vs) = some (elements vs)
attempts_of _ = none

abbrev pub listed : Option (List Json) → List Json
listed none = []
listed (some vs) = vs

-- The facts, if what was attempted is what the records have asked for.
abbrev pub census_result :
    Members → List (Json × Json) → List (Json × Json) → Option (List Json) → Facts
census_result facts transcript completed none = no_facts
census_result facts transcript completed (some attempts) = counts_add_up facts attempts >>= λ b.
    facts_if (b && (same_pairs completed transcript && is_quiet facts (objects attempts))) facts

-- The facts of the one record of `unload`.
unfoldable pub census_facts : AdmissionContext → Members → Facts
unfolding same_pairs
census_facts c facts =
    let attempts = attempts_of (get "attempts" facts) in
    (all_requests c.raw >>= λ requests.
    (sorted (map method_and_route requests) >>= λ transcript.
    (sorted (map method_and_route (with_outcome "completed" (objects (listed attempts))))
      >>= λ completed. census_result facts transcript completed attempts)))

abbrev pub only_facts : List Members → Json
only_facts (v ∷ []) = get "facts" v
only_facts _ = null

-- `unload`
unfoldable pub unload_facts : AdmissionContext → Facts
unload_facts c =
    with_runtime c
      λ runtime_facts. with_dict (only_facts (all_of "unload" c.raw)) λ facts. census_facts c facts
