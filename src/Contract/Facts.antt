-- ===== src/Contract/Facts.antt =====
-- `_expected_case` and `_expected_operation_facts` of tools/matrix_contract.py: the facts that the
-- record of an operation must show, or nothing where the observations do not bear them out.
pub mod Installed
pub mod Pairing
pub mod Polls
pub mod Unload
pub mod Inversion
use teslatlas_home_assistant.Prelude.{
  ℕ, String, Bool, true, false, ◌&&◌, ◌||◌, not, List, [], ◌∷◌, Option, none, some, length, any,
  all, str_eq, if◌then◌else◌,
}
use teslatlas_home_assistant.Prelude.Int.{ℤ, pos, eq_ℤ}
use teslatlas_home_assistant.Prelude.Text.{codes, eq_codes}
use teslatlas_home_assistant.Errors.{Error, Result, ok, err, ◌>>=◌}
use teslatlas_home_assistant.Json.{
  Json, null, int, str, list, dict, Members, Items, get, has, elements, items, members,
}
use teslatlas_home_assistant.Contract.{AdmissionContext}
use teslatlas_home_assistant.Contract.Tables.{
  product_version, archive_role, current_member_paths, static_facts, find,
}
use teslatlas_home_assistant.Contract.Checks.{says}
use teslatlas_home_assistant.Contract.Observations.{running_observation}
use teslatlas_home_assistant.Contract.Sequences.{runtime_raw, operation_sequences}

-- Facts, or none.
abbrev pub Facts : Type 0
Facts = Result (Option Members)

abbrev pub no_facts : Facts
no_facts = ok none

abbrev pub facts_if : Bool → Members → Facts
facts_if b d = ok (if b then some d else none)

-- Go on with what is there.
abbrev pub with_value {ℓ} : {A : Type ℓ} → Option A → (A → Facts) → Facts
with_value none k = no_facts
with_value (some a) k = k a

abbrev pub with_observed : Result (Option Members) → (Members → Facts) → Facts
with_observed (err e) k = err e
with_observed (ok none) k = no_facts
with_observed (ok (some v)) k = k v

abbrev pub with_dict : Json → (Members → Facts) → Facts
with_dict (dict d) k = k d
with_dict _ k = no_facts

-- `d[key]`
abbrev pub at_key : String → Json → Result Json
at_key k (dict d) = if has k d then ok (get k d) else err Error.key_error
at_key k _ = err Error.type_error

-- The facts of the first record of the installed runtime.
abbrev pub with_runtime : AdmissionContext → (Members → Facts) → Facts
with_runtime c k = with_value (runtime_raw c) λ runtime. with_dict (get "facts" runtime) k

-- The observation at the one number that an operation has before and after it.
abbrev pub at_same : AdmissionContext → Option (ℤ × ℤ) → Result (Option Members)
at_same c none = ok none
at_same c (some (before, after)) =
    if eq_ℤ before after then running_observation c before else ok none

abbrev is_archive : Json → Bool
is_archive (dict d) = says archive_role (get "role" d)
is_archive _ = false

-- `next((item for item in artifacts if …), None)`
unfoldable pub first_archive : List Json → Option Members
first_archive [] = none
first_archive (dict d ∷ vs) = if says archive_role (get "role" d) then some d else first_archive vs
first_archive (v ∷ vs) = first_archive vs

abbrev pub with_list : Json → (List Json → Facts) → Facts
with_list (list vs) k = k (elements vs)
with_list _ k = no_facts

unfoldable pub artifact_case : AdmissionContext → Members → Facts
artifact_case c runtime_facts = with_list (get "artifacts" c.header) λ artifacts.
    with_value (first_archive artifacts) λ archive. ok (
      some (
        members (
          ("archive_sha256", get "sha256" archive)
          ∷ ("integration_version", str product_version)
          ∷ ("installed_manifest_sha256", get "installed_manifest_sha256" runtime_facts)
          ∷ ("installed_members", int (pos (length current_member_paths)))
          ∷ [])))

-- `text.endswith(suffix)`, on code points.
unfoldable pub ends_with : List ℕ → List ℕ → Bool
ends_with suffix [] = eq_codes [] suffix
ends_with suffix (c ∷ s) = eq_codes (c ∷ s) suffix || ends_with suffix s

abbrev pub service_mode : AdmissionContext → String
service_mode c =
    if ends_with (codes "macos_arm64") (codes c.cell_id)
    then "installed-app-launchagent"
    else "installed-deb-systemd"

unfoldable pub service_case : AdmissionContext → Members
service_case c = members (("service_mode", str (service_mode c)) ∷ ("status", str "pending") ∷ [])

unfoldable pub discovery_case : AdmissionContext → Facts
discovery_case c = with_observed (at_same c (operation_sequences c "probe")) λ v. ok (
    some (
      members (
        ("hub_id", get "hub_id" v)
        ∷ ("api_versions", list (items (str "1.0" ∷ [])))
        ∷ ("protocol", str "teslatlas-sync")
        ∷ ("protocol_major", int (pos 1))
        ∷ ("version", str product_version)
        ∷ [])))

abbrev pub case_facts : AdmissionContext → String → Option Members → Facts
case_facts c case_id (some facts) = ok (some facts)
case_facts c case_id none = with_runtime c λ runtime_facts.
    if str_eq case_id "candidate_artifact_identity"
    then artifact_case c runtime_facts
    else if str_eq case_id "installed_service_runtime"
    then ok (some (service_case c))
    else if str_eq case_id "discovery_identity_profile"
    then discovery_case c
    else no_facts

-- `_expected_case`
unfoldable pub expected_case : String → AdmissionContext → Facts
expected_case case_id c = case_facts c case_id (find case_id static_facts)
