-- ===== src/Lib.antt =====
-- Verification of the Python code of the Kube Delivery Platform.
--
-- The platform is a pipeline: a Go service (services/shipment-api) stores shipments in PostgreSQL
-- and publishes a JetStream event for each; the tracking worker (services/tracking-worker, Python)
-- consumes the events and drives each shipment through PROCESSING, IN_TRANSIT and DELIVERED; scripts
-- (scripts/, Python) support the delivery of the images to a cluster. The library models the worker
-- and scripts.
--
-- Prelude     the library names used throughout, Boolean tests, lists.
-- Python      what the code uses of Python: dynamic values and their truth (Value), actions that
--             change state, raise or are cancelled (Exec), texts (Text), the environment (Environ).
-- Worker      services/tracking-worker/src.
--   Config      config.py: WorkerConfig, load_config.
--   Metrics     metrics.py: the counters, as lists of their increments, and the gauge.
--   Services    what the worker calls and is not part of it: asyncpg, nats-py, asyncio, json.
--   World       the state shared by the worker's coroutines, with the record of the requests made.
--               Every await passes the state through what other tasks did meanwhile.
--   Database    what the worker relies on in PostgreSQL.
--   Repository  repository.py: PostgresRepository (connect, ping, update_shipment_status,
--               get_shipment, close). A method that tests self._pool first is a function of the pool
--               behind the test (connect_pool, probe, update_with, fetch_with, close_with). The async
--               with of update_shipment_status is update_on, with execute as its body and enter and
--               leave_connection for giving the connection back. Rules has the cases of an update.
--   Consumer    consumer.py: process_message, cut at its try blocks, tests and early returns into
--               handle_body (decoding), handle_text (JSON), handle_payload (the fields), handle_event
--               (the missing id), progress and advance (the loop), complete and quarantine (the two
--               acknowledgements), on_error (except) and leave (finally).
--   Loop        consumer.py: connect, start and stop. A round is one turn of the while loop. Trace
--               describes the updates and acknowledgements that a run may make, and Runs follows a run.
--   Startup     main.py: connect_database_with_retry and monitor_database.
--   Main        main.py: main, cut at the await of the signal into startup and shutdown, with the two
--               globals, the two tasks and the servers. Host is what main calls and the others do not,
--               with what the two tasks do to the repository and the consumer while main waits.
--               Before the tasks are created no other task runs (alone).
--   Machine     an abstract machine over one shipment's row: writes of the statuses of
--               STATUS_LIFECYCLE and the writes of others. Messages, Passes and Refines relate the
--               consumer to it, Safety states what holds of its rows.
--   Health      main.py: dependencies_ready and HealthHandler.do_GET.
--   Lab         concrete services, a table in memory and a plan of failures, for the tests; Lab.Laws
--               shows that they meet what the theorems assume.
-- Scripts     scripts/.
--   Digests     collect_image_digests.py, all of it but the parsing of the command line. Opens says
--               which of the two files cannot be opened; a write to an open file does not fail.
--   Scorecard   render_scorecard_summary.py: collect_checks over the JSON of the file, with a check's
--               counters and the totals as Counts; Render reads the file and renders the summary.
--               repr (of a list or dict), casefold and quote are parameters.
--   Manifests   verify_manifests.py: validate_yaml_file and main, over the documents that the YAML
--               parser, a parameter, yields.
--   Traffic     generate_demo_traffic.py: the requests, and the numbers of the summary. Each request
--               sees a state of its own, may fail to be made, and the results arrive in any order.
--   Summary     generate_summary.py: the text, and main with the files by their paths.
--
-- Loops without a bound take fuel. connect_database_with_retry counts attempts: enough is more than
-- the number of attempts that fail, and main passes its fuel on to it. consume (the loop of start)
-- and monitor_database count rounds; what is stated of them holds for every number of rounds. consume
-- returns none when the fuel ends and some when the loop does.
--
-- Code outside the repository is a parameter (Services), of which theorems assume what is documented:
-- IsPostgres (an UPDATE that returns had its effect, and an UPDATE touches no row but its own),
-- IsQuiet (the table is written by nobody else while the worker pauses, takes or gives back a
-- connection, or acknowledges), NeverRestarts (no other task sets _running while the consumer handles
-- a message or stops: start is called once, and for main this is asked only once the signal arrived),
-- SoleWriter (no other task replaces the pool while the monitor or the retry loop works on it, or,
-- in IsHealthy, while nothing fails), SleepsWell (asyncio.sleep does not raise) and IsShared (an UPDATE is atomic, and besides it others
-- write to the row as they may). The services of Lab meet all of them. IsHealthy says that nothing
-- fails, as in Lab.Steady. IsUndisturbed and IsOrderly say that main is not cancelled while it starts,
-- that its port is free, that a signal arrives and that connections can be closed.
--
-- Not modelled: logging and durations; json.loads is a function that gives a value or
-- JSONDecodeError, so it raises nothing else; in ping and get_shipment, taking a connection from the
-- pool, its statement and giving it back are one request; a cancellation arrives at an await; the inside of the Prometheus and
-- HTTP servers and of the signal handlers; argument parsing and printing of the scripts, and negative
-- arguments of generate_demo_traffic.py; the Go service, charts, workflows and tests.
pub mod Prelude
pub mod Python
pub mod Worker
pub mod Scripts
