-- ===== src/Worker/LoopTests.antt =====
-- Runs of the start-up, the probes, the fetch loop and the shutdown over the concrete services, and
-- the theorems at concrete data.
use kube_delivery_platform.Prelude.{
  String, ◌≡◌, refl, ◌↔◌, true, false, none, some, List, [], ◌∷◌, arith,
}
use kube_delivery_platform.Python.Exec.{returned, other_error}
use kube_delivery_platform.Python.Exec.Rules.{Leaves}
use kube_delivery_platform.Worker.Services.{Message}
use kube_delivery_platform.Worker.World.{World}
use kube_delivery_platform.Worker.Lab.{Lab, Turn, go, fail, stop, lab, settings}
use kube_delivery_platform.Worker.Lab.Laws.{lab-SoleWriter, lab-NeverRestarts, lab-SleepsWell}
use kube_delivery_platform.Worker.Repository.{is_connected, ping, probe, close, close_with}
use kube_delivery_platform.Worker.Startup.{connect_database_with_retry, monitor_round}
use kube_delivery_platform.Worker.Startup.Retry.{connect_database_with_retry-connects}
use kube_delivery_platform.Worker.Startup.Monitor.{monitor_round-connects}
use kube_delivery_platform.Worker.Health.{dependencies_ready, do_get, AreLive, do_get-ready}
use kube_delivery_platform.Worker.Loop.{process_batch, consume, start}
use kube_delivery_platform.Worker.Loop as Loop
use kube_delivery_platform.Worker.Loop.Batch.{IsBatch, process_batch-IsBatch}
use kube_delivery_platform.Worker.Loop.Rounds.{IsRun, start-IsRun, consume-stop}
use kube_delivery_platform.Worker.Tests.{world, message}

abbrev unconnected : List Turn → World Lab
unconnected plan =
    let w = world "PLACED" plan in record w { repo = record { pool = none; healthy = false } }

-- The database answers at the second attempt.
connect_database_with_retry-connects_example :
    let r = connect_database_with_retry lab "dsn" 1 3 (unconnected (fail ∷ [])) in
    (r.0 ≡ returned (some tt)) × (is_connected r.1.repo ≡ true)
connect_database_with_retry-connects_example =
    connect_database_with_retry-connects lab "dsn" 1 lab-SoleWriter 1 3 (unconnected (fail ∷ []))
      refl (omega arith) ((other_error "failed", refl), refl, (2, refl))

-- The ping fails, and the pool is closed and opened anew.
monitor_round-connects_example :
    let r = monitor_round lab "dsn" 1 3 (world "PLACED" (fail ∷ [])) in
    (r.0 ≡ returned (some tt)) × (is_connected r.1.repo ≡ true)
unfolding ping probe close close_with
monitor_round-connects_example =
    monitor_round-connects lab "dsn" 1 lab-SoleWriter 0 3 (world "PLACED" (fail ∷ [])) (omega arith)
      (λ e. cc) (λ e. (refl, (_, refl)))

do_get-ready_example :
    let w = world "PLACED" [] in
    ((do_get (dependencies_ready lab w.env (some w.repo) (some w.consumer)) "/ready").status ≡ 200)
    ↔ AreLive lab w.env (some w.repo) (some w.consumer)
do_get-ready_example =
    let w = world "PLACED" [] in do_get-ready lab w.env (some w.repo) (some w.consumer)

abbrev batch : List (Message String)
batch = message "shp_1" ∷ message "{" ∷ []

process_batch-IsBatch_example :
    let w = world "PLACED" (stop ∷ []) in
    Leaves (process_batch lab settings batch) w (IsBatch batch w)
process_batch-IsBatch_example =
    process_batch-IsBatch lab settings batch (world "PLACED" (stop ∷ []))

start-IsRun_example :
    let w = world "PLACED" (fail ∷ go ∷ stop ∷ []) in Leaves (start lab settings 5) w (IsRun w)
start-IsRun_example =
    start-IsRun lab settings lab-SleepsWell 5 (world "PLACED" (fail ∷ go ∷ stop ∷ []))

consume-stop_example :
    let w = world "PLACED" [] in
    consume lab settings 1 (Loop.stop lab w).1 ≡ (returned (some tt), (Loop.stop lab w).1)
consume-stop_example = let w = world "PLACED" [] in consume-stop lab lab-NeverRestarts settings 0 w
