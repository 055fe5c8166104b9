-- ===== src/Worker/Repository/Rules.antt =====
-- A rule for what `update_shipment_status` leaves, by how its three requests end.
use kube_delivery_platform.Prelude.{
  ℕ, String, ◌≡◌, refl, inl, inr, ◌⊎◌, Bool, Option, none, some, ◌==◌,
}
use kube_delivery_platform.Python.Value.{Value}
use kube_delivery_platform.Python.Exec.{
  Error, Reply, returned, raised, cancelled, runtime_error, lift,
}
use kube_delivery_platform.Python.Exec.Rules.{Reply-cases, Leaves, bind_rule, attempt_rule}
use kube_delivery_platform.Worker.Metrics.{inc_updates}
use kube_delivery_platform.Worker.Services.{Services}
use kube_delivery_platform.Worker.World.{World, await, request, update}
use kube_delivery_platform.Worker.Repository.{
  execute, update_on, update_with, update_shipment_status,
}

-- A reply that is no return.
abbrev pub IsFailure : {A : Type 0} → Reply A → Type 0
IsFailure r = ((e : Error) × (r ≡ raised e)) ⊎ (r ≡ cancelled)

module _ (S : Services) (v : Value) (st : String) where
  -- The metric with the result `result` was counted.
  abbrev pub counted : String → World S.State → World S.State
  counted result w = record w { metrics = inc_updates w.metrics st result }

  -- After the connection was asked for, after the statement, and after the connection was given back.
  abbrev pub acquired : ℕ → World S.State → World S.State
  acquired pool w = (await S (S.acquire pool) w).1

  abbrev pub sent : ℕ → World S.State → World S.State
  sent conn w = (request S (update v st) (S.execute_update conn v st) w).1

  abbrev pub released : ℕ → World S.State → World S.State
  released conn w = (await S (S.release conn) w).1

  -- What a property must hold of: the replies that the update may end with, each with its state.
  pub record Ends (P : World S.State → Reply Bool → Type 0) (pool : ℕ) (w : World S.State)
      : Type 0 where
    pub refused : (e : Error) → P (counted "error" (acquired pool w)) (raised e)
    pub stopped : P (acquired pool w) cancelled
    pub done :
        (conn : ℕ) (tag : String)
        → (S.execute_update conn v st (acquired pool w).env).0 ≡ returned tag
        → P
            (released conn (counted "success" (sent conn (acquired pool w))))
            (returned (tag == "UPDATE 1"))
    pub late :
        (conn : ℕ) (tag : String) (e : Error)
        → (S.execute_update conn v st (acquired pool w).env).0 ≡ returned tag
        → P
            (counted "error" (released conn (counted "success" (sent conn (acquired pool w)))))
            (raised e)
    pub late_stop :
        (conn : ℕ) (tag : String)
        → (S.execute_update conn v st (acquired pool w).env).0 ≡ returned tag
        → P (released conn (counted "success" (sent conn (acquired pool w)))) cancelled
    pub failed :
        (conn : ℕ) (e : Error)
        → IsFailure (S.execute_update conn v st (acquired pool w).env).0
        → P (counted "error" (released conn (sent conn (acquired pool w)))) (raised e)
    pub failed_stop :
        (conn : ℕ)
        → IsFailure (S.execute_update conn v st (acquired pool w).env).0
        → P (released conn (sent conn (acquired pool w))) cancelled

  module _ (P : World S.State → Reply Bool → Type 0) where
    -- The same for the body of the `try`, before its errors are counted.
    abbrev Tried : World S.State → Reply Bool → Type 0
    Tried w (raised e) = P (counted "error" w) (raised e)
    Tried w r = P w r

    update_on_rule :
        (pool : ℕ) (w : World S.State) → Ends P pool w → Leaves (update_on S pool v st) w Tried
    unfolding update_on execute
    update_on_rule pool w ends =
        let u = acquired pool w in
        bind_rule Tried (await S (S.acquire pool)) _ w
          (λ conn _. elim (Reply-cases (S.execute_update conn v st u.env).0) [
            | inl (tag, e) ↦ rw e (
                let x = counted "success" (sent conn u) in
                bind_rule Tried (await S (S.release conn))
                  (λ _. lift (returned (tag == "UPDATE 1"))) x (λ _ _. ends.done conn tag e)
                  (λ err _. ends.late conn tag err e) (λ _. ends.late_stop conn tag e))
            | inr (inl (err, e)) ↦ rw e (
                bind_rule Tried (await S (S.release conn)) (λ _. lift (raised err)) (sent conn u)
                  (λ _ _. ends.failed conn err (inl (err, e)))
                  (λ err' _. ends.failed conn err' (inl (err, e)))
                  (λ _. ends.failed_stop conn (inl (err, e))))
            | inr (inr e) ↦ rw e (
                bind_rule Tried (await S (S.release conn)) (λ _. lift cancelled) (sent conn u)
                  (λ _ _. ends.failed_stop conn (inr e)) (λ err' _. ends.failed conn err' (inr e))
                  (λ _. ends.failed_stop conn (inr e)))
          ])
          (λ err _. ends.refused err) (λ _. ends.stopped)

    update_with_rule :
        (pool : Option ℕ) (w : World S.State)
        → (pool ≡ none → P w (raised (runtime_error "Database connection pool not initialized")))
        → ((p : ℕ) → pool ≡ some p → Ends P p w)
        → Leaves (update_with S pool v st) w P
    unfolding update_with
    update_with_rule none w no_pool ends = no_pool refl
    update_with_rule (some p) w no_pool ends =
        let t = update_on_rule p w (ends p refl) in
        attempt_rule P (update_on S p v st) _ w (λ b e. rw e at t) (λ err e. rw e at t)
          (λ e. rw e at t)

    pub update_rule :
        (w : World S.State)
        → (w.repo.pool ≡ none
            → P w (raised (runtime_error "Database connection pool not initialized")))
        → ((p : ℕ) → w.repo.pool ≡ some p → Ends P p w)
        → Leaves (update_shipment_status S v st) w P
    unfolding update_shipment_status
    update_rule w = update_with_rule w.repo.pool w
