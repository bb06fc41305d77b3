-- ===== src/Contract/Context.antt =====
-- `_validate_context` of tools/matrix_contract.py. Reaching the end of the context's checks is `none`,
-- a problem its code.
use teslatlas_home_assistant.Prelude.{
  ℕ, String, Bool, true, false, ◌&&◌, ◌==◌, not, List, [], ◌∷◌, Option, none, some, map, length,
  drop, any, all, str_eq, if◌then◌else◌,
}
use teslatlas_home_assistant.Prelude.Text.{codes, eq_codes}
use teslatlas_home_assistant.Uuid.{is_own_uuid}
use teslatlas_home_assistant.Json.{
  Json, null, str, list, dict, Members, close, member, get, eq, has_keys, members, elements,
  typed_equal,
}
use teslatlas_home_assistant.Contract.{AdmittedActor, AdmissionContext}
use teslatlas_home_assistant.Contract.Tables.{
  adapter_id, home_assistant_version, python_version, archive_role, source_role,
  current_member_paths, find,
}
use teslatlas_home_assistant.Contract.Checks.{
  int_with, is_natural, is_digest, prints_digest, says, counts, is_rooted, is_rooted_str,
}
use teslatlas_home_assistant.Contract.Scenario.{valid_scenario}
use teslatlas_home_assistant.Contract.Sequences.{runtime_raw}

-- `path.split("/")`, and whether a part is "..".
abbrev add_code : ℕ → List (List ℕ) → List (List ℕ)
add_code c [] = (c ∷ []) ∷ []
add_code c (part ∷ parts) = if c == b'/' then [] ∷ part ∷ parts else (c ∷ part) ∷ parts

unfoldable pub split_slash : List ℕ → List (List ℕ)
split_slash [] = [] ∷ []
split_slash (c ∷ s) = add_code c (split_slash s)

abbrev pub has_parent_part : String → Bool
has_parent_part path = any (λ part. eq_codes part (codes "..")) (split_slash (codes path))

abbrev member_path : Json → Bool
member_path (str path) =
    not (str_eq path "") && (not (is_rooted path) && not (has_parent_part path))
member_path _ = false

abbrev pub valid_row : Json → Bool
valid_row (dict row) =
    has_keys ("path" ∷ "bytes" ∷ "mode" ∷ "sha256" ∷ []) row
    && (member_path (get "path" row)
        && (is_natural (get "bytes" row)
            && (int_with (λ n. true) (get "mode" row) && prints_digest (get "sha256" row))))
valid_row _ = false

abbrev pub row_path : Json → Json
row_path (dict row) = get "path" row
row_path _ = null

unfoldable pub are_texts : List Json → List String → Bool
are_texts [] [] = true
are_texts (v ∷ vs) (t ∷ ts) = says t v && are_texts vs ts
are_texts _ _ = false

abbrev valid_members : Json → Bool
valid_members (list rows) =
    length (elements rows) == length current_member_paths
    && (all valid_row (elements rows)
        && are_texts (map row_path (elements rows)) current_member_paths)
valid_members _ = false

abbrev valid_artifact : Members → Members → Json → Bool
valid_artifact facts manifest_hashes (dict artifact) =
    has_keys
      ("role" ∷ "sha256" ∷ "installed_root" ∷ "installed_manifest_sha256" ∷ "installed_members"
        ∷ [])
      artifact
    && (says archive_role (get "role" artifact)
        && (eq (get "sha256" artifact) (get "archive_sha256" facts)
            && (eq (get "installed_manifest_sha256" artifact)
                  (get "installed_manifest_sha256" facts)
                && (valid_members (get "installed_members" artifact)
                    && is_rooted_str (get "installed_root" artifact)))))
valid_artifact facts manifest_hashes _ = false

abbrev valid_python : Members → Json → Bool
valid_python facts (dict python) =
    has_keys ("executable" ∷ "sha256" ∷ "version" ∷ []) python
    && (eq (get "executable" python) (get "python_executable" facts)
        && (says python_version (get "version" python) && prints_digest (get "sha256" python)))
valid_python facts _ = false

abbrev runtime_keys : List String
runtime_keys =
    "schema_version" ∷ "runtime_ref" ∷ "runtime_kind" ∷ "container_id" ∷ "python" ∷ "home_assistant"
    ∷ "artifact" ∷ "actor_input_manifest_sha256" ∷ []

unfoldable pub valid_runtime : String → Members → Members → Members → Bool
valid_runtime actor_id facts manifest_hashes runtime =
    counts 1 (get "schema_version" runtime)
    && (says "ha_container" (get "runtime_ref" runtime)
        && (says "docker-container" (get "runtime_kind" runtime)
            && (is_digest (get "container_id" runtime)
                && (valid_python facts (get "python" runtime)
                    && (eq (get "home_assistant" runtime)
                          (dict (members (("version", str home_assistant_version) ∷ [])))
                        && (valid_artifact facts manifest_hashes (get "artifact" runtime)
                            && eq (get "actor_input_manifest_sha256" runtime)
                                (get actor_id manifest_hashes)))))))

abbrev valid_manifest : String → Members → Members → Bool
valid_manifest actor_id manifest_hashes manifest =
    has_keys ("path" ∷ "sha256" ∷ []) manifest
    && (eq (get "sha256" manifest) (get actor_id manifest_hashes)
        && (is_rooted_str (get "path" manifest) && prints_digest (get "sha256" manifest)))

abbrev are_only : String → List String → Bool
are_only t (s ∷ []) = str_eq s t
are_only t _ = false

-- The checks of one actor.
unfoldable pub actor_problem :
    String → String → String → Members → Members → AdmittedActor → Option String
actor_problem actor_id kind entrypoint facts manifest_hashes actor =
    if not (
      str_eq actor.id actor_id
      && (str_eq actor.kind kind
          && (str_eq actor.runtime_ref "ha_container" && str_eq actor.entrypoint_ref entrypoint)))
    then some "wrong_actor"
    else if not (are_only source_role actor.source_roles)
    then some "wrong_source_role"
    else if not (are_only archive_role actor.artifact_roles)
    then some "wrong_artifact_role"
    else if not (valid_manifest actor_id manifest_hashes actor.installed_manifest)
    then some "installed_manifest_mismatch"
    else if not (has_keys runtime_keys actor.runtime)
    then some "wrong_context"
    else if not (valid_runtime actor_id facts manifest_hashes actor.runtime)
    then some "installed_manifest_mismatch"
    else none

-- The runtime without the digest that is the actor's own.
unfoldable pub shared_runtime : Members → Members
shared_runtime close = close
shared_runtime (member k v d) =
    let rest = shared_runtime d in
    if str_eq k "actor_input_manifest_sha256" then rest else member k v rest

-- A check follows if there is no problem so far.
infixl 5 ◌or_else◌
abbrev pub ◌or_else◌ : Option String → Option String → Option String
none or_else p = p
some code or_else p = some code

abbrev pub problem_unless : Bool → String → Option String
problem_unless true code = none
problem_unless false code = some code

-- The loop over the two actors.
unfoldable pub actors_problem :
    Members → Members → Option AdmittedActor → Option AdmittedActor → Option String
unfolding actor_problem
actors_problem facts manifest_hashes (some flow) (some client) =
    actor_problem "ha_flow" "installed_ha_flow" "ha_matrix_flow" facts manifest_hashes flow
    or_else actor_problem "ha_client" "installed_ha_client" "ha_matrix_client" facts manifest_hashes
        client
    or_else problem_unless
        (typed_equal (dict (shared_runtime flow.runtime)) (dict (shared_runtime client.runtime)))
        "wrong_context"
actors_problem facts manifest_hashes _ _ = some "wrong_actor"

abbrev pub hashes_problem : AdmissionContext → Members → Json → Option String
hashes_problem c facts (dict manifest_hashes) =
    problem_unless (has_keys ("ha_flow" ∷ "ha_client" ∷ []) manifest_hashes)
      "installed_manifest_mismatch"
    or_else actors_problem facts manifest_hashes (find "ha_flow" c.actors)
        (find "ha_client" c.actors)
hashes_problem c facts _ = some "installed_manifest_mismatch"

abbrev pub facts_problem : AdmissionContext → Json → Option String
facts_problem c (dict facts) = hashes_problem c facts (get "actor_manifest_sha256s" facts)
facts_problem c _ = some "raw_fact_mismatch"

abbrev pub runtime_problem : AdmissionContext → Option Members → Option String
runtime_problem c none = some "raw_missing"
runtime_problem c (some runtime) = facts_problem c (get "facts" runtime)

abbrev nth_is : ℕ → List ℕ → List ℕ → Bool
nth_is n s cs = elim (drop n s) [ [] ↦ false | c ∷ rest ↦ any (λ d. d == c) cs ]

-- `uuid.UUID(text).version == 4 and str(uuid.UUID(text)) == text`: in the canonical form the version
-- and the variant are the first digits of the third and the fourth group.
unfoldable pub is_own_uuid4 : String → Bool
is_own_uuid4 s =
    is_own_uuid (codes s) && (nth_is 14 (codes s) (codes "4") && nth_is 19 (codes s) (codes "89ab"))

abbrev pub cells : List String
cells =
    "home_assistant__macos_arm64" ∷ "home_assistant__debian13_arm64"
    ∷ "home_assistant__debian13_amd64" ∷ []

abbrev actor_names : List (String × AdmittedActor) → List String
actor_names actors = map (λ a. a.0) actors

abbrev is_one_of : List String → String → Bool
is_one_of ts s = any (λ t. str_eq t s) ts

-- `set(actors) == {"ha_flow", "ha_client"}`
abbrev names_are : List String → List String → Bool
names_are ts ss = all (is_one_of ts) ss && all (is_one_of ss) ts

-- `_validate_context`
unfoldable pub validate_context : AdmissionContext → Option String
unfolding valid_scenario actors_problem
validate_context c =
    problem_unless (str_eq c.adapter_id adapter_id && is_one_of cells c.cell_id) "wrong_context"
    or_else problem_unless (is_own_uuid4 c.session_id) "wrong_context"
    or_else problem_unless (valid_scenario c.scenario) "wrong_context"
    or_else problem_unless (names_are ("ha_flow" ∷ "ha_client" ∷ []) (actor_names c.actors))
        "wrong_actor"
    or_else runtime_problem c (runtime_raw c)
