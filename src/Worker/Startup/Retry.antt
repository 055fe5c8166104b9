-- ===== src/Worker/Startup/Retry.antt =====
-- The retry loop connects as soon as the database answers, and the monitor keeps it so.
use kube_delivery_platform.Prelude.{ℕ, zero, suc, ◌<◌, String, ◌≡◌, true, none, some, arith}
use kube_delivery_platform.Python.Exec.{Error, Reply, returned, raised}
use kube_delivery_platform.Worker.Services.{Services}
use kube_delivery_platform.Worker.World.{World, await}
use kube_delivery_platform.Worker.Repository.{is_connected, connect, connect_pool}
use kube_delivery_platform.Worker.Repository.Invariant.{SoleWriter}
use kube_delivery_platform.Worker.Startup.{connect_database_with_retry}

module _ (S : Services) (dsn : String) (backoff : S.Float) where
  abbrev slept : World S.State → Reply Unit × World S.State
  slept w = await S (S.sleep backoff) w

  -- From `s` the first `n` attempts to open a pool raise, the pauses after them return, and the
  -- next attempt opens one.
  abbrev pub AnswersAfter : ℕ → S.State → Type 0
  AnswersAfter zero s = (pool : ℕ) × ((S.create_pool dsn s).0 ≡ returned pool)
  AnswersAfter (suc n) s =
      ((e : Error) × ((S.create_pool dsn s).0 ≡ raised e))
      × ((S.sleep backoff (S.create_pool dsn s).1).0 ≡ returned tt)
      × AnswersAfter n (S.sleep backoff (S.create_pool dsn s).1).1

  -- One attempt without a pool: it opens one, or fails and leaves none.
  connect-opens :
      (w : World S.State) (pool : ℕ)
      → w.repo.pool ≡ none
      → (S.create_pool dsn w.env).0 ≡ returned pool
      → ((connect S dsn w).0 ≡ returned tt) × (is_connected (connect S dsn w).1.repo ≡ true)
  unfolding connect connect_pool is_connected
  connect-opens w pool e h = ground arith

  connect-fails :
      (sole : SoleWriter S) (w : World S.State) (err : Error)
      → w.repo.pool ≡ none
      → (S.create_pool dsn w.env).0 ≡ raised err
      → ((connect S dsn w).0 ≡ raised err)
        × ((connect S dsn w).1.repo.pool ≡ none)
        × ((connect S dsn w).1.env ≡ (S.create_pool dsn w.env).1)
  unfolding connect connect_pool
  connect-fails sole w err e h = ground (arith, sole (S.create_pool dsn w.env).1 w.repo)

  -- A database that answers after `n` failed attempts is connected to, with any fuel above `n`.
  pub connect_database_with_retry-connects :
      (sole : SoleWriter S) (n fuel : ℕ) (w : World S.State)
      → w.repo.pool ≡ none
      → n < fuel
      → AnswersAfter n w.env
      → let r = connect_database_with_retry S dsn backoff fuel w in
        (r.0 ≡ returned (some tt)) × (is_connected r.1.repo ≡ true)
  unfolding connect_database_with_retry
  connect_database_with_retry-connects sole n zero w e h a = absurd (omega arith)
  connect_database_with_retry-connects sole zero (suc fuel) w e h (pool, a) =
      ground (arith, connect-opens w pool e a)
  connect_database_with_retry-connects sole (suc n) (suc fuel) w e h ((err, a), b, c) =
      let (x, y, z) = connect-fails sole w err e a in
      let u = (slept (connect S dsn w).1).1 in
      let kept : u.repo.pool ≡ none = rw sole y in
      let ih = connect_database_with_retry-connects sole n fuel u kept (omega arith) (rw z c) in
      ground (arith, x, z, b, ih)
