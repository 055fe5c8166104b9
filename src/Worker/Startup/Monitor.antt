-- ===== src/Worker/Startup/Monitor.antt =====
-- What a round of the database monitor leaves, and that the monitor goes on.
use kube_delivery_platform.Prelude.{
  ℕ, ◌<◌, String, ◌≡◌, ◌≢◌, refl, true, false, some, inl, inr, Bool-cases,
}
use kube_delivery_platform.Python.Exec.{returned, raised, cancelled}
use kube_delivery_platform.Python.Exec.Rules.{Reply-cases}
use kube_delivery_platform.Worker.Services.{Services}
use kube_delivery_platform.Worker.World.{World}
use kube_delivery_platform.Worker.Repository.{is_connected, ping, close}
use kube_delivery_platform.Worker.Repository.Invariant.{
  SoleWriter, Says, close-pool, ping-is_connected,
}
use kube_delivery_platform.Worker.Startup.{rebuild, monitor_round}
use kube_delivery_platform.Worker.Startup.Retry.{AnswersAfter, connect_database_with_retry-connects}

module _ (S : Services) (dsn : String) (backoff : S.Float) (sole : SoleWriter S) where
  -- A failed pool is closed, and the database answers after `n` failed attempts.
  abbrev pub Recovers : ℕ → World S.State → Type 0
  Recovers n w = ((close S w).0 ≡ returned tt) × AnswersAfter S dsn backoff n (close S w).1.env

  rebuild-connects :
      (n fuel : ℕ) (w : World S.State)
      → n < fuel
      → Recovers n w
      → let r = rebuild S dsn backoff fuel false w in
        (r.0 ≡ returned (some tt)) × (is_connected r.1.repo ≡ true)
  unfolding rebuild
  rebuild-connects n fuel w h (closed, answers) = rw closed (
      connect_database_with_retry-connects S dsn backoff sole n fuel _ (close-pool S sole w closed)
        h answers)

  found_alive :
      (fuel : ℕ) (w : World S.State)
      → (ping S w).0 ≡ returned true
      → let r = rebuild S dsn backoff fuel true (ping S w).1 in
        (r.0 ≡ returned (some tt)) × (is_connected r.1.repo ≡ true)
  unfolding rebuild
  found_alive fuel w e =
      let said : Says (ping S w).1 (returned true) = rw e at (ping-is_connected S sole w) in
      (refl, said)

  -- A round of the monitor that is not cancelled in its ping comes to its end, with any fuel above
  -- `n`, and leaves the repository connected, if a pool that does not answer can be closed and the
  -- database then answers after `n` failed attempts. Only the monitor writes to the repository
  -- meanwhile.
  pub monitor_round-connects :
      (n fuel : ℕ) (w : World S.State)
      → n < fuel
      → (ping S w).0 ≢ cancelled
      → ((ping S w).0 ≡ returned false → Recovers n (ping S w).1)
      → let r = monitor_round S dsn backoff fuel w in
        (r.0 ≡ returned (some tt)) × (is_connected r.1.repo ≡ true)
  unfolding monitor_round
  monitor_round-connects n fuel w h calm recovers =
      let said = ping-is_connected S sole w in
      elim (Reply-cases (ping S w).0) [
        | inl (alive, e) ↦ elim (Bool-cases alive) [
          | inl up ↦ rw (e, up) (found_alive fuel w (rw up at e))
          | inr down ↦
              rw (e, down) (rebuild-connects n fuel (ping S w).1 h (recovers (rw down at e)))
        ]
        | inr (inl (err, e)) ↦
            absurd (let bad : Says (ping S w).1 (raised err) = rw e at said in bad)
        | inr (inr e) ↦ absurd (calm e)
      ]
