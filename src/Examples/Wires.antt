-- ===== src/Examples/Wires.antt =====
-- The theorems on the broker, at an attachment with one request.
use teslatlas_home_assistant.Prelude.{
  ◌≡◌, refl, arith, ℕ, ◌==◌, length, String, true, false, List, [], ◌∷◌, Option, none, some,
  if◌then◌else◌,
}
use teslatlas_home_assistant.Prelude.Int.{pos}
use teslatlas_home_assistant.Errors.{ok}
use teslatlas_home_assistant.Credentials.{is_hex64}
use teslatlas_home_assistant.Json.{
  Json, bool, int, str, list, dict, nil, Members, members, count, get, has, within, has_keys, eq,
  eq_double,
}
use teslatlas_home_assistant.Wire.Framing.{ReadsLine, read_line-ReadsLine}
use teslatlas_home_assistant.Wire.{
  Env, Reads, StdioBroker, chunk, finished, split_line, read_line, exact, digest,
}
use teslatlas_home_assistant.Wire.Channel.{
  Files, CoordinationChannel, file_binding, check_evidence, check_observation, ready_of, is_ack_of,
  is_accepted, assert_frozen, check_ack, barrier,
}
use teslatlas_home_assistant.Wire.Barrier.{Exchanges, barrier-Exchanges}
use teslatlas_home_assistant.Wire.Broker.{
  attach, check_greeting, attached, request, exchange, check_reply, check_identity, check_result,
  check_device, close,
}
use teslatlas_home_assistant.Wire.Chain.{Advances, request-Advances}
use teslatlas_home_assistant.Wire.Runs.{stays, asks, IsCounted, attach-IsCounted}
use teslatlas_home_assistant.Examples.Session.{session}

abbrev first_challenge : String
first_challenge = "0123456789abcdef0123456789abcdef0123456789abcdef0123456789abcdef"

abbrev second_challenge : String
second_challenge = "1123456789abcdef0123456789abcdef0123456789abcdef0123456789abcdef"

abbrev greeting : Json
greeting = dict (
    members (
      ("schema_version", int (pos 1))
      ∷ ("type", str "challenge")
      ∷ ("session_id", str session)
      ∷ ("sequence", int (pos 0))
      ∷ ("challenge", str first_challenge)
      ∷ []))

abbrev stopped_reply : Json
stopped_reply = dict (
    members (
      ("schema_version", int (pos 1))
      ∷ ("type", str "reply")
      ∷ ("session_id", str session)
      ∷ ("sequence", int (pos 1))
      ∷ ("challenge", str second_challenge)
      ∷ ("result", dict (members (("stopped", bool true) ∷ ("events", list nil) ∷ [])))
      ∷ []))

-- A line of one byte stands for a value.
abbrev line_value : List ℕ → Option Json
line_value (n ∷ []) = some (if n == 1 then greeting else stopped_reply)
line_value _ = none

abbrev a_link : Env
a_link = record { writes = λ r. true; strict_json = line_value; is_late = λ v. false }

abbrev a_broker : StdioBroker
a_broker = attached session first_challenge [] (chunk (2 ∷ 10 ∷ []) finished)

abbrev a_broker_after : StdioBroker
a_broker_after = (request a_link "stop" none a_broker).1

a_broker_attached :
    attach a_link session (chunk (1 ∷ 10 ∷ []) (chunk (2 ∷ 10 ∷ []) finished)) ≡ ok a_broker
unfolding attach read_line split_line check_greeting exact digest is_hex64 get has within has_keys
    eq eq_double
a_broker_attached = refl

-- The request is answered.
a_broker_stopped : length a_broker_after.sent ≡ 1
unfolding request exchange check_device read_line split_line check_reply check_identity check_result
    close exact digest is_hex64 get has within has_keys eq eq_double
a_broker_stopped = refl

request-Advances_example : Advances "stop" none a_broker (request a_link "stop" none a_broker)
request-Advances_example = request-Advances a_link "stop" none a_broker

attach-IsCounted_example : IsCounted a_broker_after
attach-IsCounted_example =
    attach-IsCounted a_link session (chunk (1 ∷ 10 ∷ []) (chunk (2 ∷ 10 ∷ []) finished)) a_broker
      a_broker_after a_broker_attached (asks a_broker_after "stop" none stays refl)

abbrev pieces : Reads
pieces = chunk (1 ∷ []) (chunk (10 ∷ 2 ∷ []) (chunk (10 ∷ []) finished))

read_line-ReadsLine_example : ReadsLine (1 ∷ []) (2 ∷ 10 ∷ []) (read_line [] pieces)
read_line-ReadsLine_example =
    read_line-ReadsLine [] (1 ∷ []) (2 ∷ 10 ∷ []) pieces (refl, tt) (omega arith) refl

abbrev evidence_members : Members
evidence_members =
    members (("path", str "/run/evidence.json") ∷ ("sha256", str first_challenge) ∷ [])

abbrev ready_observation : Json
ready_observation =
    dict (members (("session_sequence", int (pos 4)) ∷ ("proof_sha256", str first_challenge) ∷ []))

abbrev a_channel : CoordinationChannel
a_channel = record {
  session_id = session;
  cell_id = "home_assistant__debian13_amd64";
  session_input_sha256 = first_challenge;
  instance_nonce = second_challenge;
  sequence = 0;
  frozen = [];
}

abbrev ack_members : Members
ack_members = members (
    ("schema_version", int (pos 1))
    ∷ ("type", str "ack")
    ∷ ("session_id", str session)
    ∷ ("cell_id", str "home_assistant__debian13_amd64")
    ∷ ("session_input_sha256", str first_challenge)
    ∷ ("instance_nonce", str second_challenge)
    ∷ ("sequence", int (pos 1))
    ∷ ("ready_sha256", str second_challenge)
    ∷ ("phase", str "evidence_ready")
    ∷ ("status", str "accepted")
    ∷ ("action", str "close_completed")
    ∷ ("result", dict evidence_members)
    ∷ [])

abbrev some_files : Files
some_files = record {
  is_absolute = λ p. true;
  posix_text = λ p. p;
  posix_parts = λ p. "/" ∷ "run" ∷ "evidence.json" ∷ [];
  binding_before = λ p. ok evidence_members;
  binding_acknowledged = λ p. ok evidence_members;
  binding_after = λ p. ok evidence_members;
  publish = λ r. ok second_challenge;
  read_ack = λ n. ok (dict ack_members);
}

barrier-Exchanges_example :
    Exchanges some_files "evidence_ready" ready_observation
      (dict evidence_members)
      a_channel
      (barrier some_files "evidence_ready" ready_observation (dict evidence_members) a_channel).1
      ack_members
unfolding barrier check_observation check_evidence file_binding ready_of check_ack is_ack_of
    is_accepted assert_frozen exact digest is_hex64 get has within has_keys eq eq_double count
barrier-Exchanges_example =
    barrier-Exchanges some_files "evidence_ready" ready_observation (dict evidence_members)
      a_channel ack_members refl
