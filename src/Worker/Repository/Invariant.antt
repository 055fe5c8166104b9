-- ===== src/Worker/Repository/Invariant.antt =====
-- When the repository is connected, after a ping and after a connect.
use kube_delivery_platform.Prelude.{ℕ, String, ◌≡◌, refl, Bool, true, Option, none, some, arith}
use kube_delivery_platform.Python.Exec.{Reply, returned, raised, cancelled, Error}
use kube_delivery_platform.Python.Exec.Rules.{Leaves}
use kube_delivery_platform.Worker.Services.{Services, Repository}
use kube_delivery_platform.Worker.World.{World}
use kube_delivery_platform.Worker.Repository.{
  is_connected, connect, connect_pool, ping, probe, close, close_with,
}

-- No other task writes to the repository: the monitor is the only one that connects, pings or
-- closes between the start of the worker and its shutdown.
abbrev pub SoleWriter : Services → Type 0
SoleWriter S = (s : S.State) (r : Repository) → S.other_tasks_repo s r ≡ r

-- The answer of a probe is what `is_connected` says afterwards. A cancelled probe has none.
abbrev pub Says : {State : Type 0} → World State → Reply Bool → Type 0
Says w (returned alive) = is_connected w.repo ≡ alive
Says w (raised e) = ⊥
Says w cancelled = Unit

module _ (S : Services) (sole : SoleWriter S) where
  probe-is_connected :
      (pool : Option ℕ) (w : World S.State) → w.repo.pool ≡ pool → Leaves (probe S pool) w Says
  unfolding probe is_connected
  probe-is_connected none w e = ground arith
  probe-is_connected (some pool) w e = ground (arith, sole (S.select_one pool w.env).1 w.repo)

  -- `ping` raises nothing, and what it returns is what `is_connected` says after it.
  pub ping-is_connected : (w : World S.State) → Leaves (ping S) w Says
  unfolding ping
  ping-is_connected w = probe-is_connected w.repo.pool w refl

  -- A `connect` that opens a pool makes the repository connected.
  pub connect-is_connected :
      (dsn : String) (w : World S.State)
      → w.repo.pool ≡ none
      → (connect S dsn w).0 ≡ returned tt
      → is_connected (connect S dsn w).1.repo ≡ true
  unfolding connect connect_pool is_connected
  connect-is_connected dsn w e h = ground arith

  -- A `connect` that fails leaves a repository without a pool without one.
  pub connect-pool_of_raised :
      (dsn : String) (w : World S.State) (e : Error)
      → w.repo.pool ≡ none
      → (connect S dsn w).0 ≡ raised e
      → (connect S dsn w).1.repo.pool ≡ none
  unfolding connect connect_pool
  connect-pool_of_raised dsn w e n h = ground (arith, sole (S.create_pool dsn w.env).1 w.repo)

  -- A `close` that returns leaves no pool.
  pub close-pool :
      (w : World S.State) → (close S w).0 ≡ returned tt → (close S w).1.repo.pool ≡ none
  unfolding close close_with
  close-pool w h = ground arith
