-- ===== src/Worker/Main/End.antt =====
-- What `main` leaves when it ends.
use kube_delivery_platform.Prelude.{ℕ, ◌≡◌, false, Option, none, some, arith}
use kube_delivery_platform.Python.Exec.{Reply, returned}
use kube_delivery_platform.Python.Exec.Rules.{Leaves, bind_rule}
use kube_delivery_platform.Worker.Services.{Services}
use kube_delivery_platform.Worker.World.{World}
use kube_delivery_platform.Worker.Repository.{close, close_with}
use kube_delivery_platform.Worker.Consumer.Tried.{NeverRestarts}
use kube_delivery_platform.Worker.Loop as Loop
use kube_delivery_platform.Worker.Loop.Rounds.{stop-Stopped, stays_stopped}
use kube_delivery_platform.Worker.Main.{
  Host, Process, cancelling, startup, shutdown, serve, wait, main,
}

-- After a shutdown the consumer is stopped, also after one that raised. After one that came to its
-- end the tasks were cancelled too, and the repository has no pool.
abbrev pub IsShut : {State : Type 0} → Process State → Reply Unit → Type 0
IsShut p (returned u) =
    (p.world.consumer.running ≡ false)
    × (p.consumer_task ≡ cancelling)
    × (p.database_monitor_task ≡ cancelling)
    × (p.world.repo.pool ≡ none)
IsShut p _ = p.world.consumer.running ≡ false

module _ (S : Services) (keeps : NeverRestarts S) where
  close_with-Stopped :
      (pool : Option ℕ) (w : World S.State)
      → w.consumer.running ≡ false
      → (close_with S pool w).1.consumer.running ≡ false
  unfolding close_with
  close_with-Stopped none w h = h
  close_with-Stopped (some pool) w h =
      ground (arith, stays_stopped S keeps (S.close_pool pool w.env).1 w.consumer h)

  close-Stopped :
      (w : World S.State) → w.consumer.running ≡ false → (close S w).1.consumer.running ≡ false
  unfolding close
  close-Stopped w h = close_with-Stopped w.repo.pool w h

  close-pool_none :
      (w : World S.State) → (close S w).0 ≡ returned tt → (close S w).1.repo.pool ≡ none
  unfolding close close_with
  close-pool_none w h = ground arith

  -- However the shutdown ends, the consumer is stopped. If it comes to its end, the two tasks were
  -- cancelled too and the repository has no pool.
  pub shutdown-IsShut :
      (host : Host S) (health_server : ℕ) (p : Process S.State)
      → Leaves (shutdown S host health_server) p IsShut
  unfolding shutdown
  shutdown-IsShut host health_server p =
      let stopped = stop-Stopped S keeps p.world in
      let w = (Loop.stop S p.world).1 in
      let down = close-Stopped w stopped in ground (arith, close-pool_none w)

  abbrev Closes : Process S.State → Reply (Option (Unit {0})) → Type 0
  Closes p r = r ≡ returned (some tt) → IsShut p (returned tt)

  serve-Closes :
      (host : Host S) (started : Option ℕ) (p : Process S.State)
      → Leaves (serve S host started) p Closes
  unfolding serve wait
  serve-Closes host none p = λ h. cc
  serve-Closes host (some health_server) p =
      bind_rule Closes (wait S host) _ p
        (λ a e.
          let q = (wait S host p).1 in
          let shut = shutdown-IsShut host health_server q in
          bind_rule Closes (shutdown S host health_server) _ q
            (λ b f h.
              let g : IsShut (shutdown S host health_server q).1 (returned tt) = rw f at shut in g)
            (λ err f h. cc) (λ f h. cc))
        (λ err e h. cc) (λ e h. cc)

  -- If `main` comes to its end, the consumer is stopped, the two tasks were cancelled, and the
  -- repository has no pool.
  pub main-IsShut :
      (host : Host S) (fuel : ℕ) (p : Process S.State)
      → (main S host fuel p).0 ≡ returned (some tt)
      → IsShut (main S host fuel p).1 (returned tt)
  unfolding main
  main-IsShut host fuel p =
      bind_rule Closes (startup S host fuel) (serve S host) p (λ a e. serve-Closes host a _)
        (λ err e h. cc) (λ e h. cc)
