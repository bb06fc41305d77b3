-- ===== src/Contract/Raising/Operating.antt =====
-- Which exceptions the facts of an operation of tools/matrix_contract.py raise.
use teslatlas_home_assistant.Prelude.{refl, Bool, String, List, [], ◌∷◌, Option, none, some}
use teslatlas_home_assistant.Json.{
  Json, null, bool, int, float, str, list, dict, Members, Items, nil, item, Double, numeral, has,
  get, eq,
}
use teslatlas_home_assistant.Contract.{AdmissionContext}
use teslatlas_home_assistant.Contract.Facts.{Facts}
use teslatlas_home_assistant.Contract.Facts.Installed.{
  row_key, members_by_path, with_rows, observe_facts, probe_facts,
}
use teslatlas_home_assistant.Contract.Facts.Pairing.{
  refused_pair_facts, observed_after, is_fixture_of, expired_pair_facts, setup_facts, unknown_facts,
  unsupported_facts, revoked_facts, revocation_refresh_facts, paired_facts, reauthentication_facts,
}
use teslatlas_home_assistant.Contract.Facts.Polls.{
  initial_poll_facts, advanced_facts, later_poll_facts, restart_facts, restart_poll_facts,
}
use teslatlas_home_assistant.Contract.Facts.Unload.{
  requests_listed, requests_of, all_requests, census_result, is_one_of, valid_attempt,
  valid_attempts, counts_add_up, census_facts, unload_facts,
}
use teslatlas_home_assistant.Contract.Facts.Unload.Sorting.{
  less_numeral, less, less_items, less_pair, insert_sorted, sort_onto, sorted,
}
use teslatlas_home_assistant.Contract.Operations.{expected_operation_facts}
use teslatlas_home_assistant.Contract.Raising.{
  IsTame, tame_laws, ok-IsTame, >>=-IsTame, and_also-IsTame, if-IsTame,
}
use teslatlas_home_assistant.Contract.Raising.Observing.{
  running_at-IsTame, stopped_observation-IsTame,
}
use teslatlas_home_assistant.Contract.Raising.Showing.{fact_laws, expected_case-IsTame}

row_key-IsTame : (v : Json) → IsTame (row_key v)
row_key-IsTame null = search tame_laws
row_key-IsTame (bool b) = search tame_laws
row_key-IsTame (int n) = search tame_laws
row_key-IsTame (float f) = search tame_laws
row_key-IsTame (str s) = search tame_laws
row_key-IsTame (list vs) = record { raised = refl }
row_key-IsTame (dict d) = record { raised = refl }

members_by_path-IsTame : (rows : Items) → IsTame (members_by_path rows)
unfolding members_by_path
members_by_path-IsTame nil = search tame_laws
members_by_path-IsTame (item (dict row) rows) =
    if-IsTame (has "path" row) _ _
      (>>=-IsTame (row_key (get "path" row)) _ (row_key-IsTame _) (λ key.
        >>=-IsTame (members_by_path rows) _ (members_by_path-IsTame rows) (λ later. ok-IsTame _)))
      (record { raised = refl })
members_by_path-IsTame (item null rows) = record { raised = refl }
members_by_path-IsTame (item (bool b) rows) = record { raised = refl }
members_by_path-IsTame (item (int n) rows) = record { raised = refl }
members_by_path-IsTame (item (float f) rows) = record { raised = refl }
members_by_path-IsTame (item (str s) rows) = record { raised = refl }
members_by_path-IsTame (item (list vs) rows) = record { raised = refl }

with_rows-IsTame :
    (v : Json) (k : List (String × Members) → Facts)
    → ((rows : List (String × Members)) → IsTame (k rows))
    → IsTame (with_rows v k)
with_rows-IsTame null k h = search tame_laws
with_rows-IsTame (bool b) k h = search tame_laws
with_rows-IsTame (int n) k h = search tame_laws
with_rows-IsTame (float f) k h = search tame_laws
with_rows-IsTame (str s) k h = search tame_laws
with_rows-IsTame (list vs) k h = search (tame_laws, members_by_path-IsTame, h)
with_rows-IsTame (dict d) k h = search tame_laws

observe_facts-IsTame : (c : AdmissionContext) → IsTame (observe_facts c)
unfolding observe_facts
observe_facts-IsTame c = search (fact_laws, with_rows-IsTame, expected_case-IsTame) depth 14

probe_facts-IsTame : (c : AdmissionContext) → IsTame (probe_facts c)
unfolding probe_facts
probe_facts-IsTame c = search (fact_laws, expected_case-IsTame)

refused_pair_facts-IsTame :
    (c : AdmissionContext) (operation : String) (facts : Members)
    → IsTame (refused_pair_facts c operation facts)
unfolding refused_pair_facts
refused_pair_facts-IsTame c operation facts = search fact_laws

observed_after-IsTame : (v w : Json) → IsTame (observed_after v w)
observed_after-IsTame (int m) (int n) = search tame_laws
observed_after-IsTame (int m) null = record { raised = refl }
observed_after-IsTame (int m) (bool b) = record { raised = refl }
observed_after-IsTame (int m) (float f) = record { raised = refl }
observed_after-IsTame (int m) (str s) = record { raised = refl }
observed_after-IsTame (int m) (list vs) = record { raised = refl }
observed_after-IsTame (int m) (dict d) = record { raised = refl }
observed_after-IsTame null w = record { raised = refl }
observed_after-IsTame (bool b) w = record { raised = refl }
observed_after-IsTame (float f) w = record { raised = refl }
observed_after-IsTame (str s) w = record { raised = refl }
observed_after-IsTame (list vs) w = record { raised = refl }
observed_after-IsTame (dict d) w = record { raised = refl }

is_fixture_of-IsTame : (facts v : Members) (expired : Json) → IsTame (is_fixture_of facts v expired)
unfolding is_fixture_of
is_fixture_of-IsTame facts v expired = search (fact_laws, observed_after-IsTame)

expired_pair_facts-IsTame : (c : AdmissionContext) → IsTame (expired_pair_facts c)
unfolding expired_pair_facts
expired_pair_facts-IsTame c = search (fact_laws, is_fixture_of-IsTame) depth 14

setup_facts-IsTame : (c : AdmissionContext) → IsTame (setup_facts c)
unfolding setup_facts
setup_facts-IsTame c = search fact_laws

unknown_facts-IsTame : (c : AdmissionContext) → IsTame (unknown_facts c)
unfolding unknown_facts
unknown_facts-IsTame c = search fact_laws

unsupported_facts-IsTame : (c : AdmissionContext) → IsTame (unsupported_facts c)
unfolding unsupported_facts
unsupported_facts-IsTame c = search fact_laws

revocation_refresh_facts-IsTame : (c : AdmissionContext) → IsTame (revocation_refresh_facts c)
unfolding revocation_refresh_facts revoked_facts
revocation_refresh_facts-IsTame c = search fact_laws

reauthentication_facts-IsTame : (c : AdmissionContext) → IsTame (reauthentication_facts c)
unfolding reauthentication_facts paired_facts
reauthentication_facts-IsTame c = search fact_laws depth 14

initial_poll_facts-IsTame : (c : AdmissionContext) → IsTame (initial_poll_facts c)
unfolding initial_poll_facts
initial_poll_facts-IsTame c = search fact_laws

later_poll_facts-IsTame : (c : AdmissionContext) → IsTame (later_poll_facts c)
unfolding later_poll_facts advanced_facts
later_poll_facts-IsTame c = search (fact_laws, running_at-IsTame) depth 14

restart_poll_facts-IsTame :
    (c : AdmissionContext) (operation : String) (compares_hub : Bool) (facts : Members)
    → IsTame (restart_poll_facts c operation compares_hub facts)
unfolding restart_poll_facts restart_facts
restart_poll_facts-IsTame c operation compares_hub facts =
    search (fact_laws, stopped_observation-IsTame) depth 14

less_numeral-IsTame : (a b : Option Double) → IsTame (less_numeral a b)
less_numeral-IsTame (some a) (some b) = ok-IsTame _
less_numeral-IsTame (some a) none = record { raised = refl }
less_numeral-IsTame none b = record { raised = refl }

mutual
  unfolding less

  less-IsTame : (v w : Json) → IsTame (less v w)
  less-IsTame null w = less_numeral-IsTame (numeral null) (numeral w)
  less-IsTame (bool b) w = less_numeral-IsTame (numeral (bool b)) (numeral w)
  less-IsTame (int n) w = less_numeral-IsTame (numeral (int n)) (numeral w)
  less-IsTame (float f) w = less_numeral-IsTame (numeral (float f)) (numeral w)
  less-IsTame (str s) null = less_numeral-IsTame none (numeral null)
  less-IsTame (str s) (bool c) = less_numeral-IsTame none (numeral (bool c))
  less-IsTame (str s) (int m) = less_numeral-IsTame none (numeral (int m))
  less-IsTame (str s) (float g) = less_numeral-IsTame none (numeral (float g))
  less-IsTame (str s) (str t) = ok-IsTame _
  less-IsTame (str s) (list ws) = less_numeral-IsTame none (numeral (list ws))
  less-IsTame (str s) (dict e) = less_numeral-IsTame none (numeral (dict e))
  less-IsTame (list vs) null = less_numeral-IsTame none (numeral null)
  less-IsTame (list vs) (bool c) = less_numeral-IsTame none (numeral (bool c))
  less-IsTame (list vs) (int m) = less_numeral-IsTame none (numeral (int m))
  less-IsTame (list vs) (float g) = less_numeral-IsTame none (numeral (float g))
  less-IsTame (list vs) (str t) = less_numeral-IsTame none (numeral (str t))
  less-IsTame (list vs) (list ws) = less_items-IsTame vs ws
  less-IsTame (list vs) (dict e) = less_numeral-IsTame none (numeral (dict e))
  less-IsTame (dict d) w = less_numeral-IsTame (numeral (dict d)) (numeral w)

  less_items-IsTame : (vs ws : Items) → IsTame (less_items vs ws)
  less_items-IsTame nil nil = ok-IsTame _
  less_items-IsTame (item v vs) nil = ok-IsTame _
  less_items-IsTame nil (item w ws) = ok-IsTame _
  less_items-IsTame (item v vs) (item w ws) =
      if-IsTame (eq v w) _ _ (less_items-IsTame vs ws) (less-IsTame v w)

less_pair-IsTame : (p q : Json × Json) → IsTame (less_pair p q)
unfolding less_pair
less_pair-IsTame (a, b) (c, d) = search (tame_laws, less-IsTame)

insert_sorted-IsTame : (p : Json × Json) (qs : List (Json × Json)) → IsTame (insert_sorted p qs)
unfolding insert_sorted
insert_sorted-IsTame p [] = search tame_laws
insert_sorted-IsTame p (q ∷ qs) = >>=-IsTame (less_pair p q) _ (less_pair-IsTame p q) (λ smaller.
    if-IsTame smaller _ _ (ok-IsTame _)
      (>>=-IsTame (insert_sorted p qs) _ (insert_sorted-IsTame p qs) (λ later. ok-IsTame _)))

sort_onto-IsTame : (done ps : List (Json × Json)) → IsTame (sort_onto done ps)
unfolding sort_onto
sort_onto-IsTame done [] = search tame_laws
sort_onto-IsTame done (p ∷ ps) =
    >>=-IsTame (insert_sorted p done) _ (insert_sorted-IsTame p done)
      (λ more. sort_onto-IsTame more ps)

sorted-IsTame : (ps : List (Json × Json)) → IsTame (sorted ps)
unfolding sorted
sorted-IsTame ps = sort_onto-IsTame [] ps

listed-IsTame : (v : Json) → IsTame (requests_listed v)
listed-IsTame null = record { raised = refl }
listed-IsTame (bool b) = record { raised = refl }
listed-IsTame (int n) = record { raised = refl }
listed-IsTame (float f) = record { raised = refl }
listed-IsTame (str s) = ok-IsTame _
listed-IsTame (list vs) = ok-IsTame _
listed-IsTame (dict d) = ok-IsTame _

requests_of-IsTame : (v : Members) → IsTame (requests_of v)
requests_of-IsTame v = search (tame_laws, listed-IsTame)

all_requests-IsTame : (raw : List (String × Members)) → IsTame (all_requests raw)
unfolding all_requests
all_requests-IsTame [] = search tame_laws
all_requests-IsTame ((id, v) ∷ raw) =
    >>=-IsTame (requests_of v) _ (requests_of-IsTame v)
      (λ first. >>=-IsTame (all_requests raw) _ (all_requests-IsTame raw) (λ rest. ok-IsTame _))

is_one_of-IsTame : (ts : List String) (v : Json) → IsTame (is_one_of ts v)
is_one_of-IsTame ts null = ok-IsTame _
is_one_of-IsTame ts (bool b) = ok-IsTame _
is_one_of-IsTame ts (int n) = ok-IsTame _
is_one_of-IsTame ts (float f) = ok-IsTame _
is_one_of-IsTame ts (str s) = ok-IsTame _
is_one_of-IsTame ts (list vs) = record { raised = refl }
is_one_of-IsTame ts (dict d) = record { raised = refl }

valid_attempt-IsTame : (a : Json) → IsTame (valid_attempt a)
valid_attempt-IsTame null = ok-IsTame _
valid_attempt-IsTame (bool b) = ok-IsTame _
valid_attempt-IsTame (int n) = ok-IsTame _
valid_attempt-IsTame (float f) = ok-IsTame _
valid_attempt-IsTame (str s) = ok-IsTame _
valid_attempt-IsTame (list vs) = ok-IsTame _
valid_attempt-IsTame (dict d) = search (tame_laws, is_one_of-IsTame) depth 14

valid_attempts-IsTame : (as' : List Json) → IsTame (valid_attempts as')
unfolding valid_attempts
valid_attempts-IsTame [] = ok-IsTame _
valid_attempts-IsTame (a ∷ as') =
    and_also-IsTame (valid_attempt a) _ (valid_attempt-IsTame a) (valid_attempts-IsTame as')

counts_add_up-IsTame : (facts : Members) (vs : List Json) → IsTame (counts_add_up facts vs)
unfolding counts_add_up
counts_add_up-IsTame facts vs = search (tame_laws, valid_attempts-IsTame)

census_result-IsTame :
    (c : AdmissionContext) (facts : Members) (transcript completed : List (Json × Json))
    (attempts : Option (List Json))
    → IsTame (census_result facts transcript completed attempts)
census_result-IsTame c facts transcript completed none = search tame_laws
census_result-IsTame c facts transcript completed (some vs) =
    search (tame_laws, counts_add_up-IsTame)

census_facts-IsTame : (c : AdmissionContext) (facts : Members) → IsTame (census_facts c facts)
unfolding census_facts
census_facts-IsTame c facts =
    search (tame_laws, sorted-IsTame, all_requests-IsTame, census_result-IsTame) depth 14

unload_facts-IsTame : (c : AdmissionContext) → IsTame (unload_facts c)
unfolding unload_facts
unload_facts-IsTame c = search (fact_laws, census_facts-IsTame)

-- The facts of an operation raise nothing but `TypeError` and `KeyError`.
pub expected_operation_facts-IsTame :
    (operation : String) (c : AdmissionContext) → IsTame (expected_operation_facts operation c)
unfolding expected_operation_facts
expected_operation_facts-IsTame operation c =
    search
      (
        tame_laws, observe_facts-IsTame, probe_facts-IsTame, refused_pair_facts-IsTame,
        expired_pair_facts-IsTame, setup_facts-IsTame, unknown_facts-IsTame,
        initial_poll_facts-IsTame, later_poll_facts-IsTame, unsupported_facts-IsTame,
        revocation_refresh_facts-IsTame, reauthentication_facts-IsTame, restart_poll_facts-IsTame,
        unload_facts-IsTame,
      )
      depth 20
