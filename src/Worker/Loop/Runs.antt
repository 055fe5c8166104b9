-- ===== src/Worker/Loop/Runs.antt =====
-- A whole run of the fetch loop makes the calls of a trace.
use kube_delivery_platform.Prelude.{ℕ}
use kube_delivery_platform.Python.Exec.{Reply, ◌>>=◌}
use kube_delivery_platform.Worker.Services.{Services, Config}
use kube_delivery_platform.Worker.World.{World, await}
use kube_delivery_platform.Worker.Loop as Loop
use kube_delivery_platform.Worker.Loop.{process_batch}
use kube_delivery_platform.Worker.Loop.Trace.{IsTraced}

module _ (S : Services) (cfg : Config S) where
  abbrev Traced : {A : Type 0} → World S.State → World S.State → Reply A → Type 0
  Traced w w' r = IsTraced w w' r

  abbrev fetched : ℕ → World S.State → Reply Unit × World S.State
  fetched psub = do msgs ← await S (S.fetch psub 5 S.one); process_batch S cfg msgs
