-- ===== src/Lib.antt =====
-- The Teslatlas Hub integration for Home Assistant (custom_components/teslatlas_hub).
--
-- The integration polls one Hub over HTTP with a bearer that belongs to a device, and shows the
-- vehicles of the Hub as sensors. The config flow claims a bearer from an invitation, checks it
-- against the Hub and stores it in a config entry; setup makes a client and a coordinator for the
-- entry; the coordinator polls, backs off, and rotates the bearer before it expires; a listener of
-- the coordinator adds sensors for the vehicles of its snapshots. The tools beside it (tools/) run the
-- integration against an installed Hub and judge what the run has recorded: the runner asks a broker on
-- the host for observations, over a chain of challenges, and admits each case of the compatibility
-- matrix only if the records and the observations bear it out.
--
-- Prelude        helpers: Boolean tests, integers, lists, texts as code points
-- Errors         client.py: the exception classes, and the results of calls that may raise
-- Values         Python values of JSON payloads and of entry data, `dict.get` and updates
-- Uuid           `str(UUID(value)) == value` of current_hub_client.py and credentials.py;
--                Uuid/Canonical proves what it admits
-- Credentials    credentials.py; its properties in Credentials/Clock and Credentials/Admission
-- Models         models.py; its properties in Models/Vehicles
-- Payload        the readers of payload fields at the top of current_hub_client.py;
--                Payload/Fields proves what they accept
-- Task           state with exceptions, for the coroutines, and its frame rules
-- Client         current_hub_client.py: Client/Http is `_async_json` and
--                `_async_decode_response`, Client/Decode the decoding of payloads, Client/Calls the
--                operations of single requests, Client/Snapshot `async_snapshot`, Client/Create
--                `create_client` of client.py with the constructor. Their properties stand in
--                Client/Bearer, Client/Bounds, Client/Create and below Client/Snapshot
-- Coordinator    coordinator.py; its properties in Coordinator/Polling and Coordinator/Rotation
-- Flow           config_flow.py: the state, Flow/Checks for the calls of the client, Flow/User,
--                Flow/Reauth and Flow/Reconfigure for the steps. Their properties stand in
--                Flow/Access, Flow/Updates, Flow/Cancel, Flow/Origin and Flow/Entry/Hub
-- Sensor         sensor.py; Sensor/Once proves what is added
-- Setup          __init__.py; Setup/Outcomes proves what a setup comes to
-- Diagnostics    diagnostics.py; Diagnostics/Privacy proves what it hides
-- Json           decoded JSON as the tools compare it, with `==` and `_typed_equal`
-- Contract       tools/matrix_contract.py, which admits the cases of a compatibility run:
--                Contract/Tables its tables, Contract/Checks the tests on single values,
--                Contract/Observations what the controller has observed, Contract/Sequences the
--                numbers of the records, Contract/Scenario and Contract/Context the checks of the
--                context, Contract/Facts and the files below it the facts that a case and an
--                operation must show, Contract/Operations their dispatch and the requests,
--                Contract/Progress and Contract/Admission `admit_case`. Their properties stand in
--                Contract/Raising, Contract/Facts/Polls/Restarts and Advances,
--                Contract/Facts/Unload/Census, Contract/Operations/Shapes and below
--                Contract/Admission
-- Wire           tools/matrix_wire.py, the attachment to the broker of an installed host:
--                Wire/Broker its greeting, requests and end; its properties in Wire/Chain,
--                Wire/Runs and Wire/Framing; Wire/Channel the barrier of the coordination channel, its
--                property in Wire/Barrier
-- Examples       a Hub with two vehicles, on which the theorems are applied; Examples/Session a
--                session of the compatibility run, for Examples/Contracts, and Examples/Wires
--                an attachment
--
-- Parameters. The record Env of Client has what the client does not decide: the readings of the
-- clock, the replies to requests, which URLs yarl builds, what `json.loads` makes of bytes, and
-- which failing read of a batch raises first. The record World of Flow adds what other calls of the
-- flow do while a step of a reauthentication or of an approved replacement waits; the steps for a
-- new entry and for a new endpoint run without interference. Home Assistant's first refresh, its
-- platforms, its redaction and its device registry are arguments.
--
-- Of tools/matrix_contract.py, a mapping is a list of members in their order, a finite float a
-- multiple of a power of two, and an exception a result. Of actors and invocations the classes are
-- modelled, not the mappings that the readers would take in their place. `sorted` is an insertion
-- sort, which makes comparisons enough to decide the order; which others CPython makes, and whether
-- one of those raises, is not modelled.
--
-- Of the broker, the record Env of Wire has whether a request can be written in time, what a line means
-- as strict JSON and whether it came too late; the bytes that arrive are a finite sequence that ends
-- with the deadline or the other side's end, so that the loop of the reader needs no fuel. The record Files of
-- Wire/Channel has what the files and their digests say at the moments of an exchange.
--
-- Numbers are unbounded; the 64-bit range of an expiry and the size of a response are conditions of
-- the code and are written out. The loop over the batches has the length of the vehicle list as its
-- fuel, which is enough since each round removes a vehicle at least.
--
-- Not modelled: the tasks that a closed client cancels, locks and timeouts; form schemas and texts;
-- a missing required key of an entry in the config flow, which setup refuses; the type of the
-- arguments where Python checks none; the `TypeError` of `async_pair` for a secret or a device name
-- that is not given, or a secret given twice, which no step of the flow does; tools/matrix_live.py, and
-- of tools/matrix_wire.py the files, the session input and how the directory of the coordination
-- channel is made. What `PurePosixPath` says of a text is in the record Files too.
pub mod Prelude
pub mod Errors
pub mod Values
pub mod Uuid
pub mod Credentials
pub mod Models
pub mod Payload
pub mod Task
pub mod Client
pub mod Coordinator
pub mod Flow
pub mod Sensor
pub mod Setup
pub mod Diagnostics
pub mod Json
pub mod Contract
pub mod Wire
pub mod Examples
