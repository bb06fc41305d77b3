-- ===== src/Wire/Broker.antt =====
-- `StdioBroker.request`, `close` and `assert_attached` of tools/matrix_wire.py.
use teslatlas_home_assistant.Prelude.{
  ℕ, suc, ◌-◌, String, Bool, true, false, ◌&&◌, ◌||◌, not, List, [], ◌∷◌, ◌++◌, Option, none, some,
  any, all, str_eq, if◌then◌else◌,
}
use teslatlas_home_assistant.Prelude.Int.{pos}
use teslatlas_home_assistant.Errors.{Error, Result, ok, err, ◌>>=◌, ◌>>◌, guard}
use teslatlas_home_assistant.Json.{Json, bool, int, str, list, dict, Members, get, eq, members}
use teslatlas_home_assistant.Contract.Checks.{says, int_with}
use teslatlas_home_assistant.Contract.Facts.Unload.{is_one_of}
use teslatlas_home_assistant.Wire.{
  operations, exact, digest, session_id, Reads, Env, StdioBroker, read_line, decoded,
}

-- `close`: the descriptors are closed, and nothing can be read any more.
unfoldable pub close : StdioBroker → StdioBroker
close b = record b { closed = true }

-- The device of a revocation; `none` is `None`.
unfoldable pub check_device : String → Option String → Result (Unit {0})
check_device operation device =
    if str_eq operation "revoke"
    then (session_id device >>= λ id. ok tt)
    else elim device [ none ↦ ok tt | some id ↦ err Error.wire ]

abbrev pub with_device : Option String → List (String × Json)
with_device none = []
with_device (some id) = ("device_id", str id) ∷ []

-- The request that is written.
unfoldable pub request_of : StdioBroker → String → Option String → Members
request_of b operation device = members (
    ("schema_version", int (pos 1))
    ∷ ("session_id", str b.host_session_id)
    ∷ ("sequence", int (pos b.sequence))
    ∷ ("challenge", str b.challenge)
    ∷ ("op", str operation)
    ∷ with_device device)

abbrev pub is_one : Json → Bool
is_one (int n) = eq (int n) (int (pos 1))
is_one _ = false

abbrev pub numbered : ℕ → Json → Bool
numbered n v = eq v (int (pos n))

-- `reply["sequence"] in {…}`: lists and dictionaries have no hash.
abbrev pub sequence_among : ℕ → Json → Result Bool
sequence_among n (list vs) = err Error.type_error
sequence_among n (dict d) = err Error.type_error
sequence_among n v = ok (numbered (n - 1) v || numbered n v)

abbrev pub sequence_valid : Bool → ℕ → Json → Result Bool
sequence_valid true n v = ok (numbered n v)
sequence_valid false n v = sequence_among n v

abbrev pub identifies : StdioBroker → Members → Bool → Bool
identifies b reply valid =
    is_one (get "schema_version" reply)
    && (says b.host_session_id (get "session_id" reply)
        && (int_with (λ n. true) (get "sequence" reply) && valid))

-- The checks of a reply up to its challenge, which they return.
unfoldable pub check_identity : StdioBroker → Bool → Members → Result String
check_identity b is_reply reply =
    sequence_valid is_reply b.sequence (get "sequence" reply) >>= λ valid.
    (guard (identifies b reply valid) Error.wire
      >> (digest (get "challenge" reply) >>= λ fresh.
          (guard (not (str_eq fresh b.challenge)) Error.wire >> ok fresh)))

abbrev pub payload_key : Bool → String
payload_key is_reply = if is_reply then "result" else "error"

abbrev pub as_dict : Json → Result Members
as_dict (dict d) = ok d
as_dict _ = err Error.wire

abbrev pub with_challenge : StdioBroker → Bool → Members → Result (Bool × (Members × String))
with_challenge b is_reply reply =
    check_identity b is_reply reply >>= λ fresh. ok (is_reply, (reply, fresh))

-- The reply with whether it is none of an error, and its fresh challenge.
unfoldable pub check_reply : StdioBroker → Json → Result (Bool × (Members × String))
check_reply b v = as_dict v >>= λ d.
    (is_one_of ("reply" ∷ "error" ∷ []) (get "type" d) >>= λ typed.
    (guard typed Error.wire
      >> (exact
            ("schema_version"
              ∷ "type"
              ∷ "session_id"
              ∷ "sequence"
              ∷ "challenge"
              ∷ payload_key (says "reply" (get "type" d))
              ∷ [])
            (dict d)
          >>= λ reply. with_challenge b (says "reply" (get "type" d)) reply)))

-- The codes of an error that the broker reports.
abbrev pub error_of : Json → Error
error_of (str code) = Error.broker_operation code
error_of v = Error.wire

unfoldable pub check_error : Json → Result Members
check_error v = exact ("code" ∷ []) v >>= λ error.
    (is_one_of ("invalid-request" ∷ "operation-failed" ∷ []) (get "code" error) >>= λ known.
    (guard known Error.wire >> err (error_of (get "code" error))))

abbrev is_true : Json → Bool
is_true (bool b) = b
is_true _ = false

abbrev is_list : Json → Bool
is_list (list vs) = true
is_list _ = false

abbrev is_dict : Json → Bool
is_dict (dict d) = true
is_dict _ = false

unfoldable pub check_result : String → Json → Result Members
check_result operation v =
    if str_eq operation "stop"
    then (exact ("stopped" ∷ "events" ∷ []) v >>= λ result.
        (guard (is_true (get "stopped" result) && is_list (get "events" result)) Error.wire
          >> ok result))
    else (exact ("descriptor" ∷ "proof" ∷ "invitation" ∷ "expired_invitation" ∷ "events" ∷ []) v
        >>= λ result.
            (guard
                (all (λ k. is_dict (get k result))
                    ("descriptor" ∷ "proof" ∷ "invitation" ∷ "expired_invitation" ∷ [])
                  && is_list (get "events" result))
                Error.wire
              >> ok result))

abbrev pub payload : String → Bool × Members → Result Members
payload operation (is_reply, reply) =
    if is_reply
    then check_result operation (get "result" reply)
    else check_error (get "error" reply)

-- What follows an exception: the broker is closed.
abbrev pub settled : Result Members × StdioBroker → Result Members × StdioBroker
settled (ok result, b) = (ok result, b)
settled (err e, b) = (err e, close b)

-- A reply that has been read, on a broker whose number is that of the request.
abbrev pub accepted :
    String → StdioBroker → Result (Bool × (Members × String)) → Result Members × StdioBroker
accepted operation b (err e) = (err e, b)
accepted operation b (ok (is_reply, (reply, fresh))) =
    (payload operation (is_reply, reply), record b { challenge = fresh })

abbrev pub after_line :
    Env → String → StdioBroker → Result (List ℕ × List ℕ) × Reads → Result Members × StdioBroker
after_line env operation b (err e, later) = (err e, record b { reads = later })
after_line env operation b (ok (line, rest), later) =
    accepted operation (record b { buffer = rest; reads = later })
      (decoded env (env.strict_json line) >>= λ v. check_reply b v)

-- The part of `request` under `try`.
unfoldable pub exchange : Env → String → Option String → StdioBroker → Result Members × StdioBroker
exchange env operation device b =
    if env.writes (request_of b operation device)
    then after_line env operation
        (record b { sent = b.sent ++ (request_of b operation device ∷ []) })
        (read_line b.buffer b.reads)
    else (err Error.wire, b)

abbrev pub started :
    Env → String → Option String → StdioBroker → Result (Unit {0}) → Result Members × StdioBroker
started env operation device b (err e) = (err e, b)
started env operation device b (ok u) =
    settled (exchange env operation device (record b { sequence = suc b.sequence }))

-- `request`
unfoldable pub request : Env → String → Option String → StdioBroker → Result Members × StdioBroker
request env operation device b = started env operation device b (
    guard (not b.closed) Error.wire
    >> (guard (any (λ t. str_eq t operation) operations) Error.wire
        >> check_device operation device))

abbrev pub greets : String → Members → Bool
greets session greeting =
    is_one (get "schema_version" greeting)
    && (says "challenge" (get "type" greeting)
        && (says session (get "session_id" greeting)
            && (int_with (λ n. true) (get "sequence" greeting)
                && numbered 0 (get "sequence" greeting))))

unfoldable pub check_greeting : String → Json → Result String
check_greeting session v =
    exact ("schema_version" ∷ "type" ∷ "session_id" ∷ "sequence" ∷ "challenge" ∷ []) v
    >>= λ greeting.
        (guard (greets session greeting) Error.wire >> digest (get "challenge" greeting))

-- The broker of a new attachment.
abbrev pub attached : String → String → List ℕ → Reads → StdioBroker
attached session first rest later = record {
  host_session_id = session;
  challenge = first;
  buffer = rest;
  sequence = 0;
  closed = false;
  reads = later;
  sent = [];
}

abbrev pub greeted : Env → String → Result (List ℕ × List ℕ) × Reads → Result StdioBroker
greeted env session (err e, later) = err e
greeted env session (ok (line, rest), later) =
    (decoded env (env.strict_json line) >>= λ v. check_greeting session v) >>= λ first.
    ok (attached session first rest later)

-- `attach`, with the identifier of a session that `_host_session` has admitted.
unfoldable pub attach : Env → String → Reads → Result StdioBroker
attach env session reads = greeted env session (read_line [] reads)

-- `assert_attached`, where `readable` is what `select` has said.
unfoldable pub assert_attached : Bool → StdioBroker → Result (Unit {0}) × StdioBroker
assert_attached readable b =
    if b.closed
    then (err Error.wire, b)
    else if elim b.buffer [ [] ↦ readable | c ∷ s ↦ true ]
    then (err Error.wire, close b)
    else (ok tt, b)
