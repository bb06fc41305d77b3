-- ===== src/Contract/Facts/Pairing.antt =====
-- The facts of the operations that claim an invitation, lose a credential, or read what is not there.
use teslatlas_home_assistant.Prelude.{
  String, Bool, true, false, ◌&&◌, not, [], ◌∷◌, Option, none, some, if◌then◌else◌,
}
use teslatlas_home_assistant.Prelude.Int.{ℤ, ltb_ℤ}
use teslatlas_home_assistant.Errors.{Error, Result, ok, err, ◌>>=◌}
use teslatlas_home_assistant.Json.{
  Json, bool, int, dict, Members, get, eq, has_keys, merge, members,
}
use teslatlas_home_assistant.Contract.{AdmissionContext}
use teslatlas_home_assistant.Contract.Tables.{
  expired_invitation_facts, real_auth_facts, unknown_vehicle_facts, optional_defaults,
  revocation_facts, credential_lifecycle_reauth_facts, unsupported_operation_zero_requests_facts,
}
use teslatlas_home_assistant.Contract.Checks.{is_str, says}
use teslatlas_home_assistant.Contract.Observations.{running_observation, transition_matches}
use teslatlas_home_assistant.Contract.Sequences.{operation_sequences}
use teslatlas_home_assistant.Contract.Facts.{
  Facts, no_facts, facts_if, with_value, with_observed, with_dict, with_runtime, at_key,
}

-- The observations before and after an operation.
abbrev pub observed_before : AdmissionContext → Option (ℤ × ℤ) → Result (Option Members)
observed_before c none = ok none
observed_before c (some (before, after)) = running_observation c before

-- `observation["invitations"][kind]`
abbrev pub invitation : String → Members → Result Json
invitation kind v = at_key "invitations" (dict v) >>= λ all_invitations. at_key kind all_invitations

abbrev pub invitation_id : String → Members → Result Json
invitation_id kind v = invitation kind v >>= λ i. at_key "pairing_id" i

-- `bad_pair` and `replay_pair`
unfoldable pub refused_pair_facts : AdmissionContext → String → Members → Facts
refused_pair_facts c operation facts = with_runtime c λ runtime_facts.
    with_observed (observed_before c (operation_sequences c operation)) λ initial.
      (invitation_id "active" initial >>= λ id.
      ok (some (merge facts (members (("pairing_id", id) ∷ [])))))

abbrev int_before : Json → Json → Bool
int_before (int a) (int b) = ltb_ℤ a b
int_before _ _ = false

-- The fixture of an invitation that has expired, as the runtime has reported it.
unfoldable pub is_expired_fixture : Members → Bool
is_expired_fixture facts =
    has_keys
      ("fixture_expires_at_ms" ∷ "observed_after_expiry_ms" ∷ "fixture_kind" ∷ "pairing_id" ∷ [])
      facts
    && (int_before (get "fixture_expires_at_ms" facts) (get "observed_after_expiry_ms" facts)
        && says "persisted-one-second" (get "fixture_kind" facts))

abbrev pub observed_after : Json → Json → Result Bool
observed_after (int observed) (int expires) = ok (ltb_ℤ expires observed)
observed_after _ _ = err Error.type_error

-- Whether the fixture is the controller's expired invitation, seen after its expiry. Both times of an
-- observation that was admitted are integers.
unfoldable pub is_fixture_of : Members → Members → Json → Result Bool
is_fixture_of facts observation expired = at_key "pairing_id" expired >>= λ id.
    (if not (eq (get "pairing_id" facts) id)
      then ok false
      else (at_key "expires_at_ms" expired >>= λ expires.
          (if not (eq (get "fixture_expires_at_ms" facts) expires)
            then ok false
            else observed_after (get "observed_at_ms" observation) expires)))

-- `expired_pair`
unfoldable pub expired_pair_facts : AdmissionContext → Facts
expired_pair_facts c = with_runtime c λ runtime_facts.
    with_dict (get "expired_fixture" runtime_facts) λ facts.
      if not (is_expired_fixture facts)
      then no_facts
      else with_observed (observed_before c (operation_sequences c "expired_pair")) λ observation.
        (invitation "expired" observation >>= λ expired.
        (is_fixture_of facts observation expired >>= λ b.
        facts_if b (merge expired_invitation_facts facts)))

-- `config_flow_setup`
unfoldable pub setup_facts : AdmissionContext → Facts
setup_facts c = with_runtime c λ facts. ok (
    some (
      merge real_auth_facts (
        members
          (("entry_id", get "entry_id" facts) ∷ ("registry_ids", get "registry_ids" facts) ∷ []))))

-- `unknown_current`
unfoldable pub unknown_facts : AdmissionContext → Facts
unknown_facts c = with_runtime c λ facts. ok (
    some (merge unknown_vehicle_facts (members (("optional_fields", dict optional_defaults) ∷ []))))

-- `unsupported_surface`
unfoldable pub unsupported_facts : AdmissionContext → Facts
unsupported_facts c = with_runtime c λ facts. ok (some unsupported_operation_zero_requests_facts)

-- `revocation_refresh`: the credential of a device was revoked by the controller.
unfoldable pub revoked_facts : ℤ → Members → Facts
revoked_facts before v = with_dict (get "transition" v) λ transition.
    facts_if
      (says "revoke" (get "operation" v)
        && (transition_matches v "revoke" (int before) && is_str (get "device_id" transition)))
      (merge revocation_facts (
        members (
          ("credential_loss_observed", bool true)
          ∷ ("device_id", get "device_id" transition)
          ∷ [])))

unfoldable pub revocation_refresh_facts : AdmissionContext → Facts
unfolding revoked_facts
revocation_refresh_facts c = with_runtime c λ facts.
    with_value (operation_sequences c "revocation_refresh")
      λ s. with_observed (running_observation c (s.1)) λ v. revoked_facts (s.0) v

-- `reauthentication_flow`: the controller has issued a new invitation.
unfoldable pub paired_facts : ℤ → Members → Facts
paired_facts before v =
    if not (says "pair" (get "operation" v) && transition_matches v "pair" (int before))
    then no_facts
    else (invitation_id "active" v >>= λ id. ok (
        some (
          merge credential_lifecycle_reauth_facts
            (members (("reauth_completed", bool true) ∷ ("pairing_id", id) ∷ [])))))

unfoldable pub reauthentication_facts : AdmissionContext → Facts
unfolding paired_facts
reauthentication_facts c = with_runtime c λ facts.
    with_value (operation_sequences c "reauthentication_flow")
      λ s. with_observed (running_observation c (s.1)) λ v. paired_facts (s.0) v
