-- ===== src/Worker/World.antt =====
-- The state that the worker's coroutines share, and the `await` that lets other tasks run.
use kube_delivery_platform.Prelude.{ℕ, String, List, [], ◌∷◌, ◌++◌}
use kube_delivery_platform.Python.Value.{Value}
use kube_delivery_platform.Python.Exec.{Reply, Exec, modify, ◌>>◌}
use kube_delivery_platform.Worker.Metrics.{Metrics}
use kube_delivery_platform.Worker.Services.{Services, Repository, Consumer}

-- The requests that decide what becomes of a shipment and of its message, in the order made.
pub data Call : Type 0 where
  update : Value → String → Call
  ack : ℕ → Call
  nak : ℕ → Call

pub record World (State : Type 0) : Type 0 where
  pub repo : Repository
  pub consumer : Consumer
  pub metrics : Metrics
  pub calls : List Call
  pub env : State

module _ (S : Services) where
  abbrev pub Task : Type 0 → Type 0
  Task A = Exec (World S.State) A

  -- `await op`: the request is made, other tasks run, and the reply arrives.
  abbrev pub await : {A : Type 0} → (S.State → Reply A × S.State) → Task A
  await op w =
      let (r, s) = op w.env in
      (
        r,
        record w {
          repo = S.other_tasks_repo s w.repo;
          consumer = S.other_tasks_consumer s w.consumer;
          env = s;
        },
      )

  -- The same for a request that the model keeps a record of.
  abbrev pub request : {A : Type 0} → Call → (S.State → Reply A × S.State) → Task A
  request c op = do modify (λ w. record w { calls = w.calls ++ (c ∷ []) }); await op

  abbrev pub count : (Metrics → Metrics) → Task Unit
  count f = modify (λ w. record w { metrics = f w.metrics })
