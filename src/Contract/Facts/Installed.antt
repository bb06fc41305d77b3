-- ===== src/Contract/Facts/Installed.antt =====
-- The facts of the operations that look at the installed integration and at discovery.
use teslatlas_home_assistant.Prelude.{
  String, Bool, true, false, ◌&&◌, List, [], ◌∷◌, ◌++◌, Option, none, some, all, str_eq,
  if◌then◌else◌,
}
use teslatlas_home_assistant.Prelude.Int.{pos}
use teslatlas_home_assistant.Errors.{Error, Result, ok, err, ◌>>=◌}
use teslatlas_home_assistant.Json.{
  Json, null, bool, int, str, list, dict, Items, nil, item, Members, close, member, get, has, eq,
  merge, members,
}
use teslatlas_home_assistant.Contract.{AdmissionContext}
use teslatlas_home_assistant.Contract.Tables.{
  installed_home_assistant_runtime_facts, unauthenticated_discovery_facts, required_loaded_modules,
  optional_loaded_modules, find,
}
use teslatlas_home_assistant.Contract.Checks.{says, counts, is_rooted_str}
use teslatlas_home_assistant.Contract.Sequences.{operation_sequences}
use teslatlas_home_assistant.Contract.Facts.{
  Facts, no_facts, facts_if, with_value, with_observed, with_dict, with_runtime, at_same,
  service_mode, expected_case,
}

-- `_independent_artifact`
unfoldable pub independent_artifact : AdmissionContext → Json
independent_artifact c = elim (find "ha_flow" c.actors) [
  | none ↦ null
  | some actor ↦ get "artifact" actor.runtime
]

-- A key of a dictionary, where it is a text; lists and dictionaries cannot be keys.
abbrev pub row_key : Json → Result (Option String)
row_key (str path) = ok (some path)
row_key (list vs) = err Error.type_error
row_key (dict d) = err Error.type_error
row_key _ = ok none

abbrev behind : Option String → Members → List (String × Members) → List (String × Members)
behind none row rows = rows
behind (some path) row rows = rows ++ ((path, row) ∷ [])

-- `{row["path"]: row for row in members}`, from the last row to the first, so that the last row of a
-- path is found; only keys that are texts are asked for.
unfoldable pub members_by_path : Items → Result (List (String × Members))
members_by_path nil = ok []
members_by_path (item (dict row) rows) =
    if has "path" row
    then (row_key (get "path" row) >>= λ key.
        (members_by_path rows >>= λ later. ok (behind key row later)))
    else err Error.key_error
members_by_path (item _ rows) = err Error.type_error

abbrev module_digest : Option Members → Json
module_digest none = null
module_digest (some row) = get "sha256" row

abbrev is_path : String → Json → Bool
is_path p v = says p v

abbrev module_path : String → Option String
module_path name = elim (find name optional_loaded_modules) [
  | some path ↦ some path
  | none ↦ find name required_loaded_modules
]

abbrev is_known : List (String × Members) → Option String → Json → Bool
is_known rows (some path) (str loaded) =
    str_eq path loaded && elim (find loaded rows) [ none ↦ false | some row ↦ true ]
is_known rows _ _ = false

unfoldable pub are_known : List (String × Members) → Members → Bool
are_known rows close = true
are_known rows (member name path d) = is_known rows (module_path name) path && are_known rows d

abbrev are_loaded : List (String × Members) → Json → Bool
are_loaded rows (dict loaded) =
    all (λ m. has (m.0) loaded) required_loaded_modules && are_known rows loaded
are_loaded rows _ = false

abbrev is_true : Json → Bool
is_true (bool b) = b
is_true _ = false

-- The long condition on what the installed integration has reported.
unfoldable pub is_installed : List (String × Members) → Members → Bool
unfolding are_known
is_installed rows facts =
    says "__init__.py" (get "module_path" facts)
    && (eq (get "module_sha256" facts) (module_digest (find "__init__.py" rows))
        && (is_rooted_str (get "python_executable" facts)
            && (says "teslatlas_hub" (get "manifest_domain" facts)
                && (is_true (get "config_entry_loaded" facts)
                    && (counts 26 (get "entity_registry_count" facts)
                        && are_loaded rows (get "loaded_modules" facts))))))

unfoldable pub installed_facts : AdmissionContext → Members → Members → Members → Members
installed_facts c expected facts observation =
    merge (merge expected installed_home_assistant_runtime_facts) (
      members (
        ("service_mode", str (service_mode c))
        ∷ ("hub_id", get "hub_id" observation)
        ∷ ("actor_manifest_sha256s", get "actor_manifest_sha256s" facts)
        ∷ ("expired_fixture", get "expired_fixture" facts)
        ∷ ("entry_id", get "entry_id" facts)
        ∷ ("registry_ids", get "registry_ids" facts)
        ∷ ("python_executable", get "python_executable" facts)
        ∷ ("module_path", get "module_path" facts)
        ∷ ("module_sha256", get "module_sha256" facts)
        ∷ ("loaded_modules", get "loaded_modules" facts)
        ∷ ("manifest_domain", str "teslatlas_hub")
        ∷ ("config_entry_loaded", bool true)
        ∷ ("entity_registry_count", int (pos 26))
        ∷ []))

abbrev pub with_rows : Json → (List (String × Members) → Facts) → Facts
with_rows (list rows) k = members_by_path rows >>= k
with_rows _ k = no_facts

-- `observe_installed_runtime`
unfoldable pub observe_facts : AdmissionContext → Facts
observe_facts c = with_runtime c λ facts.
    (expected_case "candidate_artifact_identity" c >>= λ expected.
    (at_same c (operation_sequences c "observe_installed_runtime") >>= λ observed.
    with_value expected λ known. with_dict (independent_artifact c) λ artifact.
      with_value observed λ observation.
        with_rows (get "installed_members" artifact)
          λ rows. facts_if (is_installed rows facts) (installed_facts c known facts observation)))

-- `probe`
unfoldable pub probe_facts : AdmissionContext → Facts
probe_facts c = with_runtime c λ facts.
    with_observed (expected_case "discovery_identity_profile" c)
      λ discovery. ok (some (merge discovery unauthenticated_discovery_facts))
