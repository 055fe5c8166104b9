-- ===== src/Worker/Services.antt =====
-- The code that the worker calls and that is not part of it: asyncpg and PostgreSQL, nats-py and
-- JetStream, the clock, the JSON decoder, and the worker's other tasks, which run at every `await`.
use kube_delivery_platform.Prelude.{ℕ, String, Bool, Option, List}
use kube_delivery_platform.Python.Value.{Value, Fields}
use kube_delivery_platform.Python.Exec.{Reply}
use kube_delivery_platform.Worker.Config.{WorkerConfig}

-- The fields of a `PostgresRepository`. A pool is the number of the object that asyncpg made.
pub record Repository : Type 0 where
  pub pool : Option ℕ
  pub healthy : Bool

-- The fields of a `DeliveryEventConsumer` that change: a connection, its JetStream context and a
-- subscription are numbers of objects of nats-py.
pub record Consumer : Type 0 where
  pub nc : Option ℕ
  pub js : Option ℕ
  pub psub : Option ℕ
  pub running : Bool

pub record Message (Bytes : Type 0) : Type 0 where
  pub id : ℕ
  pub body : Bytes

-- What `pull_subscribe` is given.
pub record Subscription (Int : Type 0) : Type 0 where
  pub subject : String
  pub durable : String
  pub stream : String
  pub max_deliver : Int

pub record Services : Type 1 where
  pub State : Type 0
  pub Int : Type 0
  pub Float : Type 0
  pub Bytes : Type 0
  -- Python
  pub positive : Float → Bool
  pub one : Float  -- the literals 1 and 0.5
  pub half : Float
  pub decode : Bytes → Option String
  pub loads : String → Option Value
  -- asyncio
  pub sleep : Float → State → Reply Unit × State
  -- asyncpg. An update is sent on a connection that was taken from the pool and is given back; the
  -- other two requests, select_one and fetch_shipment, are made with their connection in one
  pub create_pool : String → State → Reply ℕ × State
  pub close_pool : ℕ → State → Reply Unit × State
  pub select_one : ℕ → State → Reply Unit × State
  pub acquire : ℕ → State → Reply ℕ × State
  pub release : ℕ → State → Reply Unit × State
  pub execute_update : ℕ → Value → String → State → Reply String × State
  pub fetch_shipment : ℕ → String → State → Reply (Option Fields) × State
  -- nats-py
  pub connect_nats : String → State → Reply ℕ × State
  pub pull_subscribe : ℕ → Subscription Int → State → Reply ℕ × State
  pub fetch : ℕ → ℕ → Float → State → Reply (List (Message Bytes)) × State
  pub ack : ℕ → State → Reply Unit × State
  pub nak : ℕ → Float → State → Reply Unit × State
  pub drain : ℕ → State → Reply Unit × State
  pub close_nats : ℕ → State → Reply Unit × State
  pub nats_is_connected : ℕ → State → Bool
  -- what the worker's other tasks did to the shared objects before an `await` returned
  pub other_tasks_repo : State → Repository → Repository
  pub other_tasks_consumer : State → Consumer → Consumer

abbrev pub Config : Services → Type 0
Config S = WorkerConfig S.Int S.Float
