-- ===== src/Worker/Startup.antt =====
-- services/tracking-worker/src/main.py: waiting for the database, and watching it. The two endless
-- loops take fuel: a number of attempts, and a number of rounds.
pub mod Retry
pub mod Monitor
use kube_delivery_platform.Prelude.{ℕ, zero, suc, String, Bool, true, false, Option, none, some}
use kube_delivery_platform.Python.Exec.{pure, attempt, ◌>>◌, ◌>>=◌}
use kube_delivery_platform.Worker.Services.{Services}
use kube_delivery_platform.Worker.World.{Task, await}
use kube_delivery_platform.Worker.Repository.{connect, ping, close}

module _ (S : Services) (dsn : String) (retry_backoff_sec : S.Float) where
  -- `none` says that the fuel ran out.
  unfoldable pub connect_database_with_retry : ℕ → Task S (Option Unit)
  connect_database_with_retry zero = pure none
  connect_database_with_retry (suc fuel) =
      attempt (do connect S dsn; pure (some tt))
        λ err. do await S (S.sleep retry_backoff_sec); connect_database_with_retry fuel

  -- One round of the loop of `monitor_database`, up to its `sleep`.
  unfoldable pub rebuild : ℕ → Bool → Task S (Option Unit)
  rebuild fuel true = pure (some tt)
  rebuild fuel false = do close S; connect_database_with_retry fuel

  unfoldable pub monitor_round : ℕ → Task S (Option Unit)
  monitor_round fuel = do alive ← ping S; rebuild fuel alive

  -- The loop never returns: `none` says that its rounds, or a round's attempts, ran out.
  unfoldable pub monitor_database : ℕ → ℕ → Task S (Option Unit)
  monitor_database zero fuel = pure none
  monitor_database (suc rounds) fuel = do
    rebuilt ← monitor_round fuel
    elim rebuilt [
      | none ↦ pure none
      | some u ↦ do await S (S.sleep retry_backoff_sec); monitor_database rounds fuel
    ]
