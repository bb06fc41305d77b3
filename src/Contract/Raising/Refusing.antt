-- ===== src/Contract/Raising/Refusing.antt =====
-- The codes with which `_validate_context` of tools/matrix_contract.py refuses.
use teslatlas_home_assistant.Prelude.{
  ◌≡◌, refl, Bool, true, false, String, List, [], ◌∷◌, Option, none, some, any, str_eq,
  if◌then◌else◌,
}
use teslatlas_home_assistant.Json.{Json, null, bool, int, float, str, list, dict, Members}
use teslatlas_home_assistant.Contract.{AdmittedActor, AdmissionContext}
use teslatlas_home_assistant.Contract.Context.{
  actor_problem, ◌or_else◌, problem_unless, actors_problem, hashes_problem, facts_problem,
  runtime_problem, validate_context,
}

abbrev pub context_codes : List String
context_codes =
    "wrong_context" ∷ "wrong_actor" ∷ "wrong_source_role" ∷ "wrong_artifact_role"
    ∷ "installed_manifest_mismatch" ∷ "raw_missing" ∷ "raw_fact_mismatch" ∷ []

abbrev pub is_context_problem : Option String → Bool
is_context_problem none = true
is_context_problem (some code) = any (λ t. str_eq t code) context_codes

pub record IsProblem (p : Option String) : Type 0 where
  pub listed : is_context_problem p ≡ true

or_else-IsProblem : (p q : Option String) → IsProblem p → IsProblem q → IsProblem (p or_else q)
or_else-IsProblem none q hp hq = hq
or_else-IsProblem (some code) q hp hq = hp

if-IsProblem :
    (b : Bool) (p q : Option String) → IsProblem p → IsProblem q → IsProblem (if b then p else q)
if-IsProblem true p q hp hq = hp
if-IsProblem false p q hp hq = hq

none-IsProblem : IsProblem none
none-IsProblem = record { listed = refl }

unless-IsProblem :
    (b : Bool) (code : String) → IsProblem (some code) → IsProblem (problem_unless b code)
unless-IsProblem true code h = none-IsProblem
unless-IsProblem false code h = h

context-IsProblem : IsProblem (some "wrong_context")
context-IsProblem = record { listed = refl }

actor-IsProblem : IsProblem (some "wrong_actor")
actor-IsProblem = record { listed = refl }

source-IsProblem : IsProblem (some "wrong_source_role")
source-IsProblem = record { listed = refl }

artifact-IsProblem : IsProblem (some "wrong_artifact_role")
artifact-IsProblem = record { listed = refl }

manifest-IsProblem : IsProblem (some "installed_manifest_mismatch")
manifest-IsProblem = record { listed = refl }

missing-IsProblem : IsProblem (some "raw_missing")
missing-IsProblem = record { listed = refl }

fact-IsProblem : IsProblem (some "raw_fact_mismatch")
fact-IsProblem = record { listed = refl }

ruleset problem_laws = (
  or_else-IsProblem, if-IsProblem, none-IsProblem, unless-IsProblem, context-IsProblem,
  actor-IsProblem, source-IsProblem, artifact-IsProblem, manifest-IsProblem, missing-IsProblem,
  fact-IsProblem,
)

actor_problem-IsProblem :
    (id kind entrypoint : String) (facts hashes : Members) (actor : AdmittedActor)
    → IsProblem (actor_problem id kind entrypoint facts hashes actor)
unfolding actor_problem
actor_problem-IsProblem id kind entrypoint facts hashes actor = search problem_laws depth 14

actors_problem-IsProblem :
    (facts hashes : Members) (flow client : Option AdmittedActor)
    → IsProblem (actors_problem facts hashes flow client)
unfolding actors_problem
actors_problem-IsProblem facts hashes none client = search problem_laws
actors_problem-IsProblem facts hashes (some flow) none = search problem_laws
actors_problem-IsProblem facts hashes (some flow) (some client) =
    search (problem_laws, actor_problem-IsProblem)

hashes_problem-IsProblem :
    (c : AdmissionContext) (facts : Members) (v : Json) → IsProblem (hashes_problem c facts v)
hashes_problem-IsProblem c facts null = search problem_laws
hashes_problem-IsProblem c facts (bool b) = search problem_laws
hashes_problem-IsProblem c facts (int n) = search problem_laws
hashes_problem-IsProblem c facts (float f) = search problem_laws
hashes_problem-IsProblem c facts (str s) = search problem_laws
hashes_problem-IsProblem c facts (list vs) = search problem_laws
hashes_problem-IsProblem c facts (dict d) = search (problem_laws, actors_problem-IsProblem)

facts_problem-IsProblem : (c : AdmissionContext) (v : Json) → IsProblem (facts_problem c v)
facts_problem-IsProblem c null = search problem_laws
facts_problem-IsProblem c (bool b) = search problem_laws
facts_problem-IsProblem c (int n) = search problem_laws
facts_problem-IsProblem c (float f) = search problem_laws
facts_problem-IsProblem c (str s) = search problem_laws
facts_problem-IsProblem c (list vs) = search problem_laws
facts_problem-IsProblem c (dict d) = hashes_problem-IsProblem c d _

runtime_problem-IsProblem :
    (c : AdmissionContext) (found : Option Members) → IsProblem (runtime_problem c found)
runtime_problem-IsProblem c none = search problem_laws
runtime_problem-IsProblem c (some runtime) = facts_problem-IsProblem c _

pub validate_context-IsProblem : (c : AdmissionContext) → IsProblem (validate_context c)
unfolding validate_context
validate_context-IsProblem c = search (problem_laws, runtime_problem-IsProblem) depth 14
