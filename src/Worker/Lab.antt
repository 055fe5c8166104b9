-- ===== src/Worker/Lab.antt =====
-- Concrete services: a table in memory and a plan that says how each request goes. They meet the
-- assumptions that the theorems make of the services.
pub mod Laws
pub mod Steady
use kube_delivery_platform.Prelude.{
  ℕ, suc, String, Bool, true, false, Option, none, some, List, [], ◌∷◌, ◌==◌, ltb, if◌then◌else◌,
}
use kube_delivery_platform.Python.Value.{Value, str, list, dict, nil, end, field}
use kube_delivery_platform.Python.Exec.{other_error, Reply, returned, raised, cancelled}
use kube_delivery_platform.Worker.Services.{Services, Config, Message}
use kube_delivery_platform.Worker.Database.{set_status, command_tag}

-- How a request goes: it is done, it fails, its task is cancelled, or it is done while `stop` runs.
pub data Turn : Type 0 where
  go fail cancel stop : Turn

-- Requests beyond the plan are done.
pub record Lab : Type 0 where
  pub rows : String → Option String
  pub plan : List Turn
  pub stopped : Bool
  pub inbox : List (Message String)
  pub pools : ℕ

abbrev pub perform : {A : Type 0} → List Turn → A → (Lab → Lab) → Lab → Reply A × Lab
perform [] a f s = (returned a, f s)
perform (go ∷ rest) a f s = (returned a, f (record s { plan = rest }))
perform (fail ∷ rest) a f s = (raised (other_error "failed"), record s { plan = rest })
perform (cancel ∷ rest) a f s = (cancelled, record s { plan = rest })
perform (stop ∷ rest) a f s = (returned a, f (record s { plan = rest; stopped = true }))

abbrev pub do_request : {A : Type 0} → A → (Lab → Lab) → Lab → Reply A × Lab
do_request a f s = perform s.plan a f s

abbrev pub set_row : String → String → Lab → Lab
set_row id st s = record s { rows = λ j. if j == id then set_status st (s.rows id) else s.rows j }

abbrev pub update_row : Value → String → Lab → Reply String × Lab
update_row (str id) st s = do_request (command_tag st (s.rows id)) (set_row id st) s
update_row _ st s = (raised (other_error "DataError"), s)

-- A pause does not fail.
abbrev pub idle : List Turn → Lab → Reply Unit × Lab
idle [] s = (returned tt, s)
idle (cancel ∷ rest) s = (cancelled, record s { plan = rest })
idle (stop ∷ rest) s = (returned tt, record s { plan = rest; stopped = true })
idle (_ ∷ rest) s = (returned tt, record s { plan = rest })

abbrev event : String → Value
event id = dict (field "event_type" (str "ShipmentCreated") (field "shipment_id" (str id) end))

abbrev loads : String → Option Value
loads text =
    if text == "shp_1"
    then some (event "shp_1")
    else if text == "no_id"
    then some (dict (field "event_type" (str "ShipmentCreated") end))
    else if text == "[]"
    then some (list nil)
    else none

abbrev pub lab : Services
lab = record {
  State = Lab;
  Int = ℕ;
  Float = ℕ;
  Bytes = String;
  positive = λ n. ltb 0 n;
  one = 2;
  half = 1;
  decode = λ b. if b == "latin-1" then none else some b;
  loads = loads;
  sleep = λ d s. idle s.plan s;
  create_pool = λ dsn s. do_request (suc s.pools) (λ t. record t { pools = suc s.pools }) s;
  close_pool = λ pool. do_request tt (λ s. s);
  select_one = λ pool. do_request tt (λ s. s);
  acquire = λ pool. do_request 9 (λ s. s);
  release = λ conn. do_request tt (λ s. s);
  execute_update = λ pool. update_row;
  fetch_shipment = λ pool id. do_request none (λ s. s);
  connect_nats = λ url. do_request 7 (λ s. s);
  pull_subscribe = λ js args. do_request 8 (λ s. s);
  fetch = λ psub batch timeout s. do_request s.inbox (λ t. record t { inbox = [] }) s;
  ack = λ id. do_request tt (λ s. s);
  nak = λ id delay. do_request tt (λ s. s);
  drain = λ nc. do_request tt (λ s. s);
  close_nats = λ nc. do_request tt (λ s. s);
  nats_is_connected = λ nc s. true;
  other_tasks_repo = λ s r. r;
  other_tasks_consumer = λ s c. if s.stopped then record c { running = false } else c;
}

abbrev pub status_of : Lab → String → Option String
status_of s j = s.rows j

abbrev pub settings : Config lab
settings = record {
  environment = "test";
  database_url = "postgres://localhost:5432/test_db";
  nats_url = "nats://localhost:4222";
  nats_stream = "DELIVERY_EVENTS";
  nats_subject = "delivery.shipments.created";
  nats_consumer_group = "tracking-workers";
  metrics_port = 9090;
  health_port = 8081;
  max_retries = 3;
  retry_backoff_sec = 1;
  simulation_step_delay_sec = 0;
}
