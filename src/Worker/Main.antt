-- ===== src/Worker/Main.antt =====
-- services/tracking-worker/src/main.py: the process from its start to its shutdown.
pub mod Begin
pub mod End
pub mod Ends
pub mod Ready
use kube_delivery_platform.Prelude.{ℕ, String, Bool, true, false, Option, none, some, if◌then◌else◌}
use kube_delivery_platform.Python.Exec.{Reply, Exec, pure, lift, modify, attempt, ◌>>◌, ◌>>=◌}
use kube_delivery_platform.Worker.Config.{load_config}
use kube_delivery_platform.Worker.Services.{Services, Config, Repository, Consumer}
use kube_delivery_platform.Worker.World.{World, Task}
use kube_delivery_platform.Worker.Repository as Repository
use kube_delivery_platform.Worker.Startup.{connect_database_with_retry}
use kube_delivery_platform.Worker.Loop as Loop

-- What `main` calls and the other parts do not: the environment with Python's readers of numbers,
-- prometheus_client, http.server with its thread, and the event loop's signals. Only
-- `wait_for_stop` is awaited.
pub record Host (S : Services) : Type 0 where
  pub environ : String → Option String
  pub int : String → Option S.Int
  pub float : String → Option S.Float
  pub start_http_server : S.Int → S.State → Reply Unit × S.State
  pub http_server : S.Int → S.State → Reply ℕ × S.State
  pub start_thread : ℕ → S.State → Reply Unit × S.State
  pub add_signal_handlers : S.State → Reply Unit × S.State
  pub wait_for_stop : S.State → Reply Unit × S.State
  pub shutdown_server : ℕ → S.State → Reply Unit × S.State
  -- what the consumer's task and the monitor's do to the shared objects while `main` waits: at least
  -- their first steps, in which `start` sets `_running`
  pub tasks_repo : S.State → Repository → Repository
  pub tasks_consumer : S.State → Consumer → Consumer

-- Until `main` creates the two tasks it is the only one.
abbrev pub alone : Services → Services
alone S = record S {
  other_tasks_repo = λ s repo. repo;
  other_tasks_consumer = λ s consumer. consumer;
}

-- A task of the event loop: not created yet, created, or asked to end.
pub data TaskStatus : Type 0 where
  absent created cancelling : TaskStatus

-- The globals are references to the repository and to the consumer of the world, once they are set.
pub record Process (State : Type 0) : Type 0 where
  pub world : World State
  pub has_repo : Bool
  pub has_consumer : Bool
  pub consumer_task : TaskStatus
  pub database_monitor_task : TaskStatus

abbrev pub global_repo : {State : Type 0} → Process State → Option Repository
global_repo p = if p.has_repo then some p.world.repo else none

abbrev pub global_consumer : {State : Type 0} → Process State → Option Consumer
global_consumer p = if p.has_consumer then some p.world.consumer else none

module _ (S : Services) where
  abbrev pub Main : Type 0 → Type 0
  Main A = Exec (Process S.State) A

  abbrev pub in_world : {A : Type 0} → Task S A → Main A
  in_world m p = let (r, w) = m p.world in (r, record p { world = w })

  -- A call that is not awaited: no other task runs.
  abbrev pub call : {A : Type 0} → (S.State → Reply A × S.State) → Main A
  call op p = let (r, s) = op p.world.env in (r, record p { world = record p.world { env = s } })

  -- `PostgresRepository(...)` and `DeliveryEventConsumer(...)`
  unfoldable pub new_repo : Main Unit
  new_repo =
      modify (λ p. record p {
        world = record p.world { repo = record { pool = none; healthy = false } };
      })

  unfoldable pub new_consumer : Main Unit
  new_consumer = modify (λ p. record p {
    world = record p.world {
      consumer = record { nc = none; js = none; psub = none; running = false };
    };
  })

module _ (S : Services) (host : Host S) where
  unfoldable pub start_health_server : S.Int → Main S ℕ
  start_health_server port = do
    server ← call S (host.http_server port)
    call S (host.start_thread server)
    pure server

  -- Prometheus' server, of which a failure is logged, and the server of the probes.
  unfoldable pub start_servers : Config S → Main S ℕ
  start_servers cfg = do
    attempt (call S (host.start_http_server cfg.metrics_port)) (λ err. pure tt)
    start_health_server cfg.health_port

  -- The repository, up to the assignment of `_global_repo`. `none` says that the fuel ran out.
  unfoldable pub open_repository : Config S → ℕ → Main S (Option (Unit {0}))
  open_repository cfg fuel = do
    new_repo S
    in_world S (connect_database_with_retry (alone S) cfg.database_url cfg.retry_backoff_sec fuel)

  -- The consumer and the tasks. A failed connection to NATS is logged.
  unfoldable pub open_consumer : Config S → Main S Unit
  open_consumer cfg = do
    modify (λ p. record p { has_repo = true })
    new_consumer S
    modify (λ p. record p { has_consumer = true })
    attempt (in_world S (Loop.connect (alone S) cfg)) (λ err. pure tt)
    call S host.add_signal_handlers
    modify (λ p. record p { consumer_task = created; database_monitor_task = created })

  unfoldable pub after_repository : Config S → Option (Unit {0}) → Main S (Option Unit)
  after_repository cfg none = pure none
  after_repository cfg (some u) = do open_consumer cfg; pure (some tt)

  -- `main` up to its `await stop_event.wait()`, with the health server that it started.
  unfoldable pub startup : ℕ → Main S (Option ℕ)
  startup fuel = do
    cfg ← lift (load_config host.int host.float host.environ)
    server ← start_servers cfg
    opened ← open_repository cfg fuel
    ready ← after_repository cfg opened
    pure (elim ready [ none ↦ none | some u ↦ some server ])

  -- The rest of `main` after the signal.
  unfoldable pub shutdown : ℕ → Main S Unit
  shutdown health_server = do
    in_world S (Loop.stop S)
    modify (λ p. record p { consumer_task = cancelling; database_monitor_task = cancelling })
    in_world S (Repository.close S)
    call S (host.shutdown_server health_server)

  -- `await stop_event.wait()`
  unfoldable pub wait : Main S Unit
  wait p =
      let (r, s) = host.wait_for_stop p.world.env in
      (
        r,
        record p {
          world = record p.world {
            repo = host.tasks_repo s p.world.repo;
            consumer = host.tasks_consumer s p.world.consumer;
            env = s;
          };
        },
      )

  unfoldable pub serve : Option ℕ → Main S (Option (Unit {0}))
  serve none = pure none
  serve (some health_server) = do wait; shutdown health_server; pure (some tt)

  unfoldable pub main : ℕ → Main S (Option (Unit {0}))
  main fuel = do started ← startup fuel; serve started
