-- ===== src/Contract/Observations.antt =====
-- `_running_observation`, `_stopped_observation` and `_transition_matches` of
-- tools/matrix_contract.py: what the controller has observed at a sequence number.
use teslatlas_home_assistant.Prelude.{
  String, Bool, true, false, ◌&&◌, not, List, [], ◌∷◌, Option, none, some, any, all, str_eq,
  if◌then◌else◌,
}
use teslatlas_home_assistant.Prelude.Int.{ℤ}
use teslatlas_home_assistant.Errors.{Result, ok, ◌>>=◌}
use teslatlas_home_assistant.Json.{
  Json, int, str, dict, Members, close, member, get, eq, has_keys, members,
}
use teslatlas_home_assistant.Contract.{AdmissionContext, observation_at}
use teslatlas_home_assistant.Contract.Tables.{find}
use teslatlas_home_assistant.Contract.Checks.{
  is_str, is_filled, is_null, is_positive, is_span, is_digest_at, says, counts, canonical_id,
  ◌and_also◌,
}

abbrev pub observation_keys : List String
observation_keys =
    "schema_version" ∷ "state" ∷ "session_id" ∷ "sequence" ∷ "operation" ∷ "started_monotonic_ns"
    ∷ "finished_monotonic_ns" ∷ "observed_at_ms" ∷ "proof_sha256" ∷ "result_sha256"
    ∷ "scenario_sha256" ∷ "seed_sha256" ∷ "store_id" ∷ "store_schema_version" ∷ "service_generation"
    ∷ "hub_id" ∷ "invitations" ∷ "transition" ∷ []

abbrev pub transition_keys : List (String × List String)
transition_keys =
    (
      "advance-once",
      "kind" ∷ "from_sequence" ∷ "pre_advance_verify_sequence" ∷ "before_store_sha256"
          ∷ "after_store_sha256" ∷ "scenario_sha256" ∷ "seed_sha256" ∷ [],
    )
    ∷ ("revoke", "kind" ∷ "from_sequence" ∷ "device_id" ∷ [])
    ∷ ("pair", "kind" ∷ "from_sequence" ∷ [])
    ∷ ("start", "kind" ∷ "from_sequence" ∷ "stopped_sequence" ∷ [])
    ∷ []

abbrev has_keys_of : Option (List String) → Members → Bool
has_keys_of none t = false
has_keys_of (some ks) t = has_keys ks t

abbrev pub transition_fits : String → Json → Json → Bool
transition_fits kind from_sequence (dict t) =
    has_keys_of (find kind transition_keys) t
    && (says kind (get "kind" t) && eq (get "from_sequence" t) from_sequence)
transition_fits kind from_sequence _ = false

-- `_transition_matches`
unfoldable pub transition_matches : Members → String → Json → Bool
transition_matches observation kind from_sequence =
    transition_fits kind from_sequence (get "transition" observation)

-- The values of an observation of a session at a number: the clock's span, the digests, the store
-- and the service.
unfoldable pub is_dated : Members → Bool
is_dated v =
    is_span (get "started_monotonic_ns" v) (get "finished_monotonic_ns" v)
    && is_positive (get "observed_at_ms" v)

unfoldable pub is_labelled : String → AdmissionContext → ℤ → Members → Bool
is_labelled state c sequence v =
    has_keys observation_keys v
    && (counts 1 (get "schema_version" v)
        && (says state (get "state" v)
            && (says c.session_id (get "session_id" v) && eq (get "sequence" v) (int sequence))))

-- The long condition of `_running_observation`.
unfoldable pub is_well_typed : Members → Bool
unfolding is_dated
is_well_typed v =
    is_str (get "operation" v)
    && (is_dated v
        && (all (is_digest_at v)
              ("proof_sha256" ∷ "result_sha256" ∷ "scenario_sha256" ∷ "seed_sha256" ∷ [])
            && (is_str (get "store_id" v)
                && (is_positive (get "store_schema_version" v)
                    && (is_filled (get "service_generation" v) && is_str (get "hub_id" v))))))

abbrev pub valid_invitation : Json → Result Bool
valid_invitation (dict i) =
    ok (has_keys ("pairing_id" ∷ "expires_at_ms" ∷ []) i && is_positive (get "expires_at_ms" i))
    and_also canonical_id (get "pairing_id" i)
valid_invitation _ = ok false

-- The loop over `invitations.values()`.
unfoldable pub valid_each : Members → Result Bool
valid_each close = ok true
valid_each (member k v d) = valid_invitation v and_also valid_each d

unfoldable pub valid_invitations : Json → Result Bool
unfolding valid_each
valid_invitations (dict d) = ok (has_keys ("active" ∷ "expired" ∷ []) d) and_also valid_each d
valid_invitations _ = ok false

-- What `advance-once`, `revoke` and `start` ask of their transitions beside the rest.
unfoldable pub valid_effect : String → Members → Result Bool
valid_effect operation t =
    if str_eq operation "advance-once"
    then ok (
        is_positive (get "pre_advance_verify_sequence" t)
        && all (is_digest_at t)
            ("before_store_sha256" ∷ "after_store_sha256" ∷ "scenario_sha256" ∷ "seed_sha256" ∷ []))
    else if str_eq operation "revoke"
    then canonical_id (get "device_id" t)
    else if str_eq operation "start"
    then ok (is_positive (get "stopped_sequence" t))
    else ok true

abbrev pub changes : List String
changes = "advance-once" ∷ "revoke" ∷ "pair" ∷ "start" ∷ []

unfoldable pub valid_change : String → Members → Json → Result Bool
unfolding valid_effect transition_matches
valid_change operation v (dict t) =
    ok (
      is_positive (get "from_sequence" t) && transition_matches v operation (get "from_sequence" t))
    and_also valid_effect operation t
valid_change operation v _ = ok false

unfoldable pub valid_transition : Members → Json → Result Bool
unfolding valid_change
valid_transition v (str operation) =
    if str_eq operation "verify"
    then ok (is_null (get "transition" v))
    else if not (any (λ k. str_eq k operation) changes)
    then ok false
    else valid_change operation v (get "transition" v)
valid_transition v _ = ok false

unfoldable pub is_running : AdmissionContext → ℤ → Members → Result Bool
is_running c sequence v =
    ok (is_labelled "running" c sequence v && is_well_typed v)
    and_also canonical_id (get "store_id" v)
    and_also canonical_id (get "hub_id" v)
    and_also valid_invitations (get "invitations" v)
    and_also valid_transition v (get "operation" v)

-- An observation that passes a check.
abbrev pub kept_if : (Members → Result Bool) → Option Members → Result (Option Members)
kept_if check none = ok none
kept_if check (some v) = check v >>= λ b. ok (if b then some v else none)

unfoldable pub running_observation : AdmissionContext → ℤ → Result (Option Members)
running_observation c sequence =
    kept_if (is_running c sequence) (observation_at sequence c.controller_observations)

-- The same at a value that need be no number. Only numbers and `None` are asked for.
abbrev pub running_at : AdmissionContext → Json → Result (Option Members)
running_at c (int n) = running_observation c n
running_at c _ = ok none

-- `{"kind": "stop", "from_sequence": from_sequence}`
abbrev pub stop_transition : ℤ → Members
stop_transition from_sequence =
    members (("kind", str "stop") ∷ ("from_sequence", int from_sequence) ∷ [])

abbrev is_stop : ℤ → Json → Bool
is_stop from_sequence (dict t) =
    has_keys ("kind" ∷ "from_sequence" ∷ []) t && eq (dict t) (dict (stop_transition from_sequence))
is_stop from_sequence _ = false

-- The long condition of `_stopped_observation`.
unfoldable pub is_stopped : AdmissionContext → ℤ → ℤ → Members → Bool
unfolding is_labelled is_dated
is_stopped c sequence from_sequence v =
    is_labelled "stopped" c sequence v
    && (says "stop" (get "operation" v)
        && (is_dated v
            && (is_null (get "proof_sha256" v)
                && (is_null (get "invitations" v)
                    && (is_stop from_sequence (get "transition" v)
                        && (all (is_digest_at v)
                              ("result_sha256" ∷ "scenario_sha256" ∷ "seed_sha256" ∷ [])
                            && (is_positive (get "store_schema_version" v)
                                && is_filled (get "service_generation" v))))))))

-- `left.get(key) == right.get(key)` for all keys.
abbrev pub agree : List String → Members → Members → Bool
agree ks v w = all (λ k. eq (get k v) (get k w)) ks

abbrev pub store_keys : List String
store_keys = "scenario_sha256" ∷ "seed_sha256" ∷ "store_id" ∷ "store_schema_version" ∷ "hub_id" ∷ []

abbrev pub agree_with : List String → Members → Option Members → Bool
agree_with ks v none = false
agree_with ks v (some w) = agree ks v w

unfoldable pub check_stopped : AdmissionContext → ℤ → ℤ → Members → Result Bool
check_stopped c sequence from_sequence v =
    ok (is_stopped c sequence from_sequence v)
    and_also (running_observation c from_sequence >>= λ prior. ok (
        agree_with
          ("scenario_sha256" ∷ "seed_sha256" ∷ "store_id" ∷ "store_schema_version" ∷ "hub_id"
            ∷ "service_generation" ∷ [])
          v prior))

unfoldable pub stopped_observation : AdmissionContext → ℤ → ℤ → Result (Option Members)
stopped_observation c sequence from_sequence =
    kept_if (check_stopped c sequence from_sequence)
      (observation_at sequence c.controller_observations)
