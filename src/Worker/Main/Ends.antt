-- ===== src/Worker/Main/Ends.antt =====
-- `main` runs to its end.
use kube_delivery_platform.Prelude.{ℕ, ◌≡◌, refl, ◌<◌, false, Option, none, some, arith}
use kube_delivery_platform.Python.Exec.{returned}
use kube_delivery_platform.Worker.Config.{load_config}
use kube_delivery_platform.Worker.Services.{Services, Config, Consumer}
use kube_delivery_platform.Worker.World.{World}
use kube_delivery_platform.Worker.Repository.{close, close_with}
use kube_delivery_platform.Worker.Consumer.Tried.{NeverRestarts}
use kube_delivery_platform.Worker.Loop as Loop
use kube_delivery_platform.Worker.Loop.{disconnect, close_connection, set_consumer}
use kube_delivery_platform.Worker.Startup.Retry.{AnswersAfter}
use kube_delivery_platform.Worker.Main.{
  Host, Process, start_servers, startup, shutdown, serve, wait, main,
}
use kube_delivery_platform.Worker.Main.Begin.{IsUndisturbed, startup-IsStarted}
use kube_delivery_platform.Worker.Main.End.{IsShut, main-IsShut}

-- A signal arrives, the connections and the server of the probes can be closed, and no other task
-- takes the consumer's connection away.
pub record IsOrderly (S : Services) (host : Host S) : Type 0 where
  pub signal : (s : S.State) → (host.wait_for_stop s).0 ≡ returned tt
  pub drains : (nc : ℕ) (s : S.State) → (S.drain nc s).0 ≡ returned tt
  pub closes_nats : (nc : ℕ) (s : S.State) → (S.close_nats nc s).0 ≡ returned tt
  pub closes_pool : (pool : ℕ) (s : S.State) → (S.close_pool pool s).0 ≡ returned tt
  pub shuts : (server : ℕ) (s : S.State) → (host.shutdown_server server s).0 ≡ returned tt
  pub connection :
      (s : S.State) (c : Consumer) (nc : ℕ)
      → c.nc ≡ some nc
      → (nc' : ℕ) × ((S.other_tasks_consumer s c).nc ≡ some nc')

module _ (S : Services) (host : Host S) (calm : IsOrderly S host) where
  disconnect-returns :
      (nc : Option ℕ) (w : World S.State) → w.consumer.nc ≡ nc → (disconnect S nc w).0 ≡ returned tt
  unfolding disconnect close_connection
  disconnect-returns none w e = refl
  disconnect-returns (some nc) w e =
      let s = (S.drain nc w.env).1 in
      let (nc', f) = calm.connection s w.consumer nc e in
      ground (arith, calm.drains nc w.env, f, calm.closes_nats nc' s)

  stop-returns : (w : World S.State) → (Loop.stop S w).0 ≡ returned tt
  unfolding Loop.stop set_consumer
  stop-returns w =
      disconnect-returns w.consumer.nc
        (record w { consumer = record w.consumer { running = false } }) refl

  close_with-returns : (pool : Option ℕ) (w : World S.State) → (close_with S pool w).0 ≡ returned tt
  unfolding close_with
  close_with-returns none w = refl
  close_with-returns (some pool) w = ground (arith, calm.closes_pool pool w.env)

  close-returns : (w : World S.State) → (close S w).0 ≡ returned tt
  unfolding close
  close-returns w = close_with-returns w.repo.pool w

  shutdown-returns :
      (health_server : ℕ) (p : Process S.State) → (shutdown S host health_server p).0 ≡ returned tt
  unfolding shutdown
  shutdown-returns health_server p =
      let w = (Loop.stop S p.world).1 in
      ground
        (arith, stop-returns p.world, close-returns w, calm.shuts health_server (close S w).1.env)

  serve-returns :
      (health_server : ℕ) (p : Process S.State)
      → (serve S host (some health_server) p).0 ≡ returned (some tt)
  unfolding serve wait
  serve-returns health_server p =
      let q = (wait S host p).1 in
      ground (arith, calm.signal p.world.env, shutdown-returns health_server q)

  -- `main` runs to its end. The settings can be read, the database answers after `n` failed attempts,
  -- nothing disturbs the start, a signal arrives, the connections can be closed, and once a signal has
  -- arrived no task sets `_running` again, whatever the tasks did to both objects while `main` waited.
  -- Then with any fuel above `n` it returns, with the consumer stopped, both tasks cancelled and no
  -- pool left.
  pub main-ends :
      IsUndisturbed S host
      → NeverRestarts S
      → (cfg : Config S) (n fuel : ℕ) (p : Process S.State)
      → load_config host.int host.float host.environ ≡ returned cfg
      → n < fuel
      → AnswersAfter S cfg.database_url cfg.retry_backoff_sec n
          (start_servers S host cfg p).1.world.env
      → let r = main S host fuel p in (r.0 ≡ returned (some tt)) × IsShut r.1 (returned tt)
  unfolding main
  main-ends up keeps cfg n fuel p parsed h a =
      let ((server, ready), started) = startup-IsStarted S host up cfg n fuel p parsed h a in
      let done : (main S host fuel p).0 ≡ returned (some tt) =
        rw ready (serve-returns server (startup S host fuel p).1) in
      (done, main-IsShut S keeps host fuel p done)
