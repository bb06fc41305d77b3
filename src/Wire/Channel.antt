-- ===== src/Wire/Channel.antt =====
-- `CoordinationChannel` of tools/matrix_wire.py: ready files and their acknowledgements.
use teslatlas_home_assistant.Prelude.{
  ℕ, suc, leb, String, Bool, true, false, ◌&&◌, ◌||◌, not, List, [], ◌∷◌, any, ◌==◌, str_eq,
  if◌then◌else◌,
}
use teslatlas_home_assistant.Prelude.Int.{pos}
use teslatlas_home_assistant.Prelude.Text.{codes}
use teslatlas_home_assistant.Errors.{Error, Result, ok, err, ◌>>=◌, ◌>>◌, guard}
use teslatlas_home_assistant.Json.{Json, int, str, dict, Members, get, eq, members}
use teslatlas_home_assistant.Contract.Checks.{says, is_positive}
use teslatlas_home_assistant.Wire.{exact, digest}

-- What is not in the program: what `PurePosixPath` says of a text, whether it is absolute, the text of
-- the path and its parts; and what the files say: the binding of the file at a path at the start,
-- after the acknowledgement and at the end of an exchange, the digest of the ready file that was
-- written, and the strict JSON of the acknowledgement of a number.
pub record Files : Type 0 where
  pub is_absolute : String → Bool
  pub posix_text : String → String
  pub posix_parts : String → List String
  pub binding_before : String → Result Members
  pub binding_acknowledged : String → Result Members
  pub binding_after : String → Result Members
  pub publish : Members → Result String
  pub read_ack : ℕ → Result Json

pub record CoordinationChannel : Type 0 where
  pub session_id : String
  pub cell_id : String
  pub session_input_sha256 : String
  pub instance_nonce : String
  pub sequence : ℕ
  pub frozen : List (String × String)

abbrev pub absolute : Files → Json → Result String
absolute files (str s) =
    if str_eq s "" || any (λ c. c == 0 || (c == 10 || c == 13)) (codes s)
    then err Error.wire
    else if not (files.is_absolute s)
        || (not (str_eq (files.posix_text s) s) || any (λ p. str_eq p "..") (files.posix_parts s))
    then err Error.wire
    else ok s
absolute files _ = err Error.wire

-- `_file_binding`, with the path and the digest of the binding
unfoldable pub file_binding : Files → Json → Result (Members × (String × String))
file_binding files v = exact ("path" ∷ "sha256" ∷ []) v >>= λ binding.
    (absolute files (get "path" binding) >>= λ path.
    (digest (get "sha256" binding) >>= λ sha256. ok (binding, (path, sha256))))

abbrev pub same_binding : Members → Members → Bool
same_binding b c = eq (dict b) (dict c)

-- The evidence, whose file is as it says.
unfoldable pub check_evidence : Files → Json → Result (Members × (String × String))
check_evidence files v = file_binding files v >>= λ bound.
    (files.binding_before (bound.1.0) >>= λ current.
    (guard (same_binding current (bound.0)) Error.wire >> ok bound))

unfoldable pub check_observation : Json → Result Members
check_observation v = exact ("session_sequence" ∷ "proof_sha256" ∷ []) v >>= λ observation.
    (guard (is_positive (get "session_sequence" observation)) Error.wire
      >> (digest (get "proof_sha256" observation) >>= λ proof. ok observation))

unfoldable pub ready_of : CoordinationChannel → String → Members → Members → Members
ready_of c phase observation evidence = members (
    ("schema_version", int (pos 1))
    ∷ ("type", str "ready")
    ∷ ("session_id", str c.session_id)
    ∷ ("cell_id", str c.cell_id)
    ∷ ("session_input_sha256", str c.session_input_sha256)
    ∷ ("instance_nonce", str c.instance_nonce)
    ∷ ("sequence", int (pos c.sequence))
    ∷ ("phase", str phase)
    ∷ ("observation", dict observation)
    ∷ ("evidence", dict evidence)
    ∷ [])

abbrev pub ack_keys : List String
ack_keys =
    "schema_version" ∷ "type" ∷ "session_id" ∷ "cell_id" ∷ "session_input_sha256" ∷ "instance_nonce"
    ∷ "sequence" ∷ "ready_sha256" ∷ "phase" ∷ "status" ∷ "action" ∷ "result" ∷ []

abbrev is_int_of : ℕ → Json → Bool
is_int_of n (int m) = eq (int m) (int (pos n))
is_int_of n _ = false

unfoldable pub is_ack_of : CoordinationChannel → String → String → Members → Bool
is_ack_of c phase ready_sha256 ack =
    is_int_of 1 (get "schema_version" ack)
    && (says "ack" (get "type" ack)
        && (says c.session_id (get "session_id" ack)
            && (says c.cell_id (get "cell_id" ack)
                && (says c.session_input_sha256 (get "session_input_sha256" ack)
                    && (says c.instance_nonce (get "instance_nonce" ack)
                        && (is_int_of c.sequence (get "sequence" ack)
                            && (says ready_sha256 (get "ready_sha256" ack)
                                && says phase (get "phase" ack))))))))

abbrev pub expected_action : String → String
expected_action phase =
    if str_eq phase "ha_initial_observation" then "advance_once" else "close_completed"

abbrev is_dict : Json → Bool
is_dict (dict d) = true
is_dict _ = false

unfoldable pub is_accepted : String → Members → Bool
is_accepted phase ack =
    not (says "rejected" (get "status" ack))
    && (says "accepted" (get "status" ack)
        && (says (expected_action phase) (get "action" ack) && is_dict (get "result" ack)))

-- `assert_frozen` of one binding: a file that cannot be bound any more has changed.
abbrev pub caught : Result Members → Result Members
caught (ok b) = ok b
caught (err e) = err Error.wire

unfoldable pub assert_frozen : Files → Members → Result (Unit {0})
assert_frozen files evidence = file_binding files (dict evidence) >>= λ bound.
    (caught (files.binding_after (bound.1.0)) >>= λ current.
    guard (same_binding current (bound.0)) Error.wire)

-- The acknowledgement of the ready file with a digest. All its refusals raise the same class.
unfoldable pub check_ack :
    Files → CoordinationChannel → String → Members → String → Json → Result Members
check_ack files c phase evidence ready_sha256 v = exact ack_keys v >>= λ ack.
    (guard (is_ack_of c phase ready_sha256 ack) Error.wire
      >> (guard (is_accepted phase ack) Error.wire
          >> (file_binding files (get "result" ack) >>= λ result.
              (files.binding_acknowledged (result.1.0) >>= λ current.
              (guard (same_binding current (result.0)) Error.wire
                >> (assert_frozen files evidence >> ok ack))))))

abbrev pub freeze : String → String → List (String × String) → List (String × String)
freeze path sha256 frozen = (path, sha256) ∷ frozen

-- From the count of the exchanges on.
abbrev pub published :
    Files
    → CoordinationChannel
    → String
    → Members
    → String × String
    → Result String
    → Result Members × CoordinationChannel
published files c phase evidence place (err e) = (err e, c)
published files c phase evidence (path, sha256) (ok ready_sha256) = (
  files.read_ack c.sequence >>= λ v. check_ack files c phase evidence ready_sha256 v,
  record c { frozen = freeze path sha256 c.frozen },
)

abbrev pub exchanged :
    Files
    → CoordinationChannel
    → String
    → Members
    → Members × (String × String)
    → Result Members × CoordinationChannel
exchanged files c phase observation (evidence, place) =
    if leb c.sequence 128
    then published files c phase evidence place
        (files.publish (ready_of c phase observation evidence))
    else (err Error.wire, c)

abbrev pub is_phase : String → Bool
is_phase phase = str_eq phase "ha_initial_observation" || str_eq phase "evidence_ready"

abbrev pub checked :
    Files
    → CoordinationChannel
    → String
    → Result (Members × (Members × (String × String)))
    → Result Members × CoordinationChannel
checked files c phase (err e) = (err e, c)
checked files c phase (ok (observation, evidence)) =
    exchanged files (record c { sequence = suc c.sequence }) phase observation evidence

-- `barrier`
unfoldable pub barrier :
    Files → String → Json → Json → CoordinationChannel → Result Members × CoordinationChannel
barrier files phase observation evidence c = checked files c phase (
    guard (is_phase phase) Error.wire
    >> (check_observation observation >>= λ o.
        (check_evidence files evidence >>= λ bound. ok (o, bound))))
