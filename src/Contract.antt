-- ===== src/Contract.antt =====
-- tools/matrix_contract.py: what the admission of a case is given and what it decides. The children
-- hold the tables, the checks and the facts that a case must show, and their properties.
--
-- The mappings that the runner passes are decoded JSON; the values inside an actor and an invocation
-- have the types that their classes declare. A sequence number is an `int`.
pub mod Tables
pub mod Checks
pub mod Observations
pub mod Scenario
pub mod Sequences
pub mod Context
pub mod Facts
pub mod Operations
pub mod Progress
pub mod Admission
pub mod Raising
use teslatlas_home_assistant.Prelude.{
  String, ℕ, Bool, true, false, List, [], ◌∷◌, Option, none, some, str_eq, if◌then◌else◌,
}
use teslatlas_home_assistant.Prelude.Int.{ℤ, eq_ℤ}
use teslatlas_home_assistant.Json.{Json, Members}

pub record AdmittedActor : Type 0 where
  pub id : String
  pub kind : String
  pub runtime_ref : String
  pub entrypoint_ref : String
  pub artifact_roles : List String
  pub source_roles : List String
  pub installed_manifest : Members
  pub runtime : Members

pub record AdmittedInvocation : Type 0 where
  pub id : String
  pub case_id : String
  pub actor_id : String
  pub operation : String
  pub session_sequence_before : ℤ
  pub session_sequence_after : ℤ
  pub evidence_id : String
  pub request_ids : List String

pub record AdmissionContext : Type 0 where
  pub adapter_id : String
  pub cell_id : String
  pub session_id : String
  pub header : Members
  pub scenario : Members
  pub actors : List (String × AdmittedActor)
  pub invocations : List AdmittedInvocation
  pub raw : List (String × Members)
  pub controller_observations : List (ℤ × Members)

pub data Status : Type 0 where
  passed failed pending : Status

pub record AdmissionDecision : Type 0 where
  pub status : Status
  pub code : String

-- `observations.get(sequence)`
unfoldable pub observation_at : ℤ → List (ℤ × Members) → Option Members
observation_at n [] = none
observation_at n ((m, v) ∷ os) = if eq_ℤ m n then some v else observation_at n os
