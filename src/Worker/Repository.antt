-- ===== src/Worker/Repository.antt =====
-- services/tracking-worker/src/repository.py: the connection pool and the status updates.
pub mod Invariant
pub mod Rules
pub mod Update
use kube_delivery_platform.Prelude.{ℕ, String, Bool, true, false, ◌&&◌, Option, none, some, ◌==◌}
use kube_delivery_platform.Python.Value.{Value, Fields}
use kube_delivery_platform.Python.Exec.{
  Reply, runtime_error, pure, lift, raise, modify, attempt, ◌>>◌, ◌>>=◌,
}
use kube_delivery_platform.Worker.Metrics.{inc_updates}
use kube_delivery_platform.Worker.Services.{Services, Repository}
use kube_delivery_platform.Worker.World.{Task, await, request, count, update}

abbrev pub is_some : {A : Type 0} → Option A → Bool
is_some none = false
is_some (some a) = true

unfoldable pub is_connected : Repository → Bool
is_connected r = is_some r.pool && r.healthy

module _ (S : Services) where
  unfoldable pub set_repo : (Repository → Repository) → Task S Unit
  set_repo f = modify (λ w. record w { repo = f w.repo })

  -- connect, behind the test of the pool. The pool is assigned after the `await`.
  unfoldable pub connect_pool : String → Option ℕ → Task S Unit
  unfolding set_repo
  connect_pool dsn none = do
    pool ← await S (S.create_pool dsn)
    set_repo (λ _. record { pool = some pool; healthy = true })
  connect_pool dsn (some pool) = pure tt

  unfoldable pub connect : String → Task S Unit
  unfolding connect_pool
  connect dsn w = connect_pool dsn w.repo.pool w

  unfoldable pub probe : Option ℕ → Task S Bool
  unfolding set_repo
  probe none = do set_repo (λ r. record r { healthy = false }); pure false
  probe (some pool) =
      attempt
        (do await S (S.select_one pool); set_repo (λ r. record r { healthy = true }); pure true)
        λ err. do set_repo (λ r. record r { healthy = false }); pure false

  unfoldable pub ping : Task S Bool
  unfolding probe
  ping w = probe w.repo.pool w

  -- The end of `async with`: the connection is given back however the body ended. An exception of
  -- that takes the place of the body's reply.
  abbrev pub leave_connection : {A : Type 0} → ℕ → Reply A → Task S A
  leave_connection conn reply = do await S (S.release conn); lift reply

  abbrev pub enter : {A : Type 0} → Task S A → ℕ → Task S A
  enter body conn w = let (r, w') = body w in leave_connection conn r w'

  -- The statement, and its metric inside the `async with`.
  unfoldable pub execute : Value → String → ℕ → Task S Bool
  execute shipment_id new_status conn = do
    result ←
        request S (update shipment_id new_status) (S.execute_update conn shipment_id new_status)
    count S (λ m. inc_updates m new_status "success")
    pure (result == "UPDATE 1")

  unfoldable pub update_on : ℕ → Value → String → Task S Bool
  update_on pool shipment_id new_status = do
    conn ← await S (S.acquire pool)
    enter (execute shipment_id new_status conn) conn

  unfoldable pub update_with : Option ℕ → Value → String → Task S Bool
  update_with none shipment_id new_status =
      raise (runtime_error "Database connection pool not initialized")
  update_with (some pool) shipment_id new_status =
      attempt (update_on pool shipment_id new_status)
        λ err. do count S (λ m. inc_updates m new_status "error"); raise err

  unfoldable pub update_shipment_status : Value → String → Task S Bool
  unfolding update_with
  update_shipment_status shipment_id new_status w = update_with w.repo.pool shipment_id new_status w

  unfoldable pub fetch_with : Option ℕ → String → Task S (Option Fields)
  fetch_with none shipment_id = raise (runtime_error "Database connection pool not initialized")
  fetch_with (some pool) shipment_id = await S (S.fetch_shipment pool shipment_id)

  unfoldable pub get_shipment : String → Task S (Option Fields)
  unfolding fetch_with
  get_shipment shipment_id w = fetch_with w.repo.pool shipment_id w

  unfoldable pub close_with : Option ℕ → Task S Unit
  unfolding set_repo
  close_with none = pure tt
  close_with (some pool) = do
    await S (S.close_pool pool)
    set_repo (λ _. record { pool = none; healthy = false })

  unfoldable pub close : Task S Unit
  unfolding close_with
  close w = close_with w.repo.pool w
