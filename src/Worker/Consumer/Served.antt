-- ===== src/Worker/Consumer/Served.antt =====
-- A message while nothing fails: it is handled to its end.
use kube_delivery_platform.Prelude.{
  ℕ, String, ◌≡◌, ◌≢◌, refl, true, inl, inr, Option, none, some, List, [], ◌∷◌, arith, Option-cases,
}
use kube_delivery_platform.Python.Value.{Value, null, str, dict, truthy}
use kube_delivery_platform.Python.Exec.{Reply, Error, returned, raised, cancelled}
use kube_delivery_platform.Python.Exec.Rules.{Reply-cases, Leaves, if-Leaves, bind_rule}
use kube_delivery_platform.Worker.Services.{Services, Config, Consumer}
use kube_delivery_platform.Worker.World.{World}
use kube_delivery_platform.Worker.Repository.{
  is_some, update_shipment_status, update_with, update_on, execute,
}
use kube_delivery_platform.Worker.Repository.Rules.{acquired, sent}
use kube_delivery_platform.Worker.Repository.Invariant.{SoleWriter}
use kube_delivery_platform.Worker.Consumer.{
  status_lifecycle, pause, advance, progress, complete, quarantine, handle_event, handle_payload,
  handle_text, handle_body, on_error,
}
use kube_delivery_platform.Worker.Consumer.Tried.{named, named_body}

-- Pauses, acknowledgements and the updates of shipments succeed, no task is cancelled, and no other
-- task stops the consumer or replaces the pool.
pub record IsHealthy (S : Services) : Type 0 where
  pub sleeps : (d : S.Float) (s : S.State) → (S.sleep d s).0 ≡ returned tt
  pub acquires : (pool : ℕ) (s : S.State) → (conn : ℕ) × ((S.acquire pool s).0 ≡ returned conn)
  pub releases : (conn : ℕ) (s : S.State) → (S.release conn s).0 ≡ returned tt
  pub updates :
      (pool : ℕ) (id st : String) (s : S.State)
      → (tag : String) × ((S.execute_update pool (str id) st s).0 ≡ returned tag)
  pub no_cancel :
      (pool : ℕ) (v : Value) (st : String) (s : S.State)
      → (S.execute_update pool v st s).0 ≢ cancelled
  pub acks : (id : ℕ) (s : S.State) → (S.ack id s).0 ≡ returned tt
  pub naks : (id : ℕ) (d : S.Float) (s : S.State) → (S.nak id d s).0 ≢ cancelled
  pub sole : SoleWriter S
  pub running : (s : S.State) (c : Consumer) → (S.other_tasks_consumer s c).running ≡ c.running

-- The consumer runs, and the repository has a pool.
abbrev pub IsUp : {State : Type 0} → World State → Type 0
IsUp w = (w.consumer.running ≡ true) × (is_some w.repo.pool ≡ true)

-- Still so, not cancelled, and no exception if `v` is the id of a shipment.
abbrev pub Serves : {State A : Type 0} → Value → World State → Reply A → Type 0
Serves {A = A} v w r =
    IsUp w × (r ≢ cancelled) × ((id : String) → v ≡ str id → (a : A) × (r ≡ returned a))

module _ (S : Services) (cfg : Config S) (h : IsHealthy S) where
  pause-serves :
      (w : World S.State) → IsUp w → ((pause S cfg w).0 ≡ returned tt) × IsUp (pause S cfg w).1
  unfolding pause
  pause-serves w up =
      let d = cfg.simulation_step_delay_sec in
      let s = (S.sleep d w.env).1 in
      ground (arith, up, h.sleeps d w.env, h.running s w.consumer, h.sole s w.repo)

  -- An `await` leaves the worker up.
  awaited :
      (s : S.State) (w : World S.State)
      → IsUp w
      → IsUp (record w {
        repo = S.other_tasks_repo s w.repo;
        consumer = S.other_tasks_consumer s w.consumer;
      })
  awaited s w up = ground (arith, up, h.running s w.consumer, h.sole s w.repo)

  update_with-Serves :
      (pool : Option ℕ) (v : Value) (st : String) (w : World S.State)
      → w.repo.pool ≡ pool
      → IsUp w
      → Leaves (update_with S pool v st) w (Serves v)
  unfolding update_with update_on execute
  update_with-Serves none v st w e up = ground (arith, up, e)
  update_with-Serves (some pool) v st w e up =
      let (conn, got) = h.acquires pool w.env in
      let u = acquired S v st pool w in
      let x = sent S v st conn u in
      let freed = h.releases conn x.env in
      let still = awaited (S.release conn x.env).1 x (awaited x.env u (awaited u.env w up)) in
      elim (Reply-cases (S.execute_update conn v st u.env).0) [
        | inl (tag, f) ↦ rw (got, f, freed) (still, λ g. cc, λ id named. (_, refl))
        | inr (inl (err, f)) ↦
            rw (got, f, freed)
              (
                still,
                λ g. cc,
                λ id named. absurd (
                    let (tag, ok) = h.updates conn id st u.env in
                    let g : (S.execute_update conn (str id) st u.env).0 ≡ raised err =
                      rw named at f in
                    cc),
              )
        | inr (inr f) ↦ absurd (h.no_cancel conn v st u.env f)
      ]

  update_shipment_status-Serves :
      (v : Value) (st : String) (w : World S.State)
      → IsUp w
      → Leaves (update_shipment_status S v st) w (Serves v)
  unfolding update_shipment_status
  update_shipment_status-Serves v st w up = update_with-Serves w.repo.pool v st w refl up

  advance-Serves :
      (v : Value) (st : String) (w : World S.State)
      → IsUp w
      → Leaves (advance S cfg v st) w (Serves v)
  unfolding advance
  advance-Serves v st w up =
      let (slept, up') = pause-serves w up in
      let u = (pause S cfg w).1 in
      let (up'', calm, done) = update_shipment_status-Serves v st u up' in
      elim (Reply-cases (update_shipment_status S v st u).0) [
        | inl (b, f) ↦ rw (slept, f) (up'', λ g. cc, λ id named. (tt, refl))
        | inr (inl (err, f)) ↦
            rw (slept, f) (up'', λ g. cc, λ id named. absurd (let (b, ok) = done id named in cc))
        | inr (inr f) ↦ absurd (calm f)
      ]

  progress-Serves :
      (v : Value) (todo : List String) (w : World S.State)
      → IsUp w
      → Leaves (progress S cfg v todo) w (Serves v)
  unfolding progress
  progress-Serves v [] w up = (up, λ g. cc, λ id named. (tt, refl))
  progress-Serves v (st ∷ todo) w up =
      let (up', calm, done) = advance-Serves v st w up in
      if-Leaves (Serves v) w.consumer.running _ _ w
        (λ _.
          bind_rule (Serves v) (advance S cfg v st) (λ _. progress S cfg v todo) w
            (λ _ _. progress-Serves v todo _ up')
            (λ err e. (up', λ g. cc, λ id named. absurd (let (u, ok) = done id named in cc)))
            (λ e. absurd (calm e)))
        (λ stopped. absurd (ground (arith, up)))

  module _ (id : ℕ) (v : Value) where
    complete-Serves :
        (t : Value) (w : World S.State) → IsUp w → Leaves (complete S cfg id t) w (Serves v)
    unfolding complete
    complete-Serves t w up =
        let s = (S.ack id w.env).1 in
        ground (arith, up, h.acks id w.env, h.running s w.consumer, h.sole s w.repo)

    quarantine-Serves :
        (reason : String) (w : World S.State)
        → IsUp w
        → Leaves (quarantine S cfg id reason) w (Serves v)
    unfolding quarantine
    quarantine-Serves reason w up =
        let s = (S.ack id w.env).1 in
        ground (arith, up, h.acks id w.env, h.running s w.consumer, h.sole s w.repo)

  pub on_error-IsUp :
      (id : ℕ) (e : Error) (w : World S.State)
      → IsUp w
      → Leaves (on_error S cfg id e) w (λ w' r. IsUp w' × (r ≢ cancelled))
  unfolding on_error
  on_error-IsUp id e w up =
      let s = (S.nak id cfg.retry_backoff_sec w.env).1 in
      ground
        (arith, up, h.naks id cfg.retry_backoff_sec w.env, h.running s w.consumer, h.sole s w.repo)

  handle_event-Serves :
      (id : ℕ) (v t : Value) (w : World S.State)
      → IsUp w
      → Leaves (handle_event S cfg id v t) w (Serves v)
  unfolding handle_event
  handle_event-Serves id v t w up =
      let (up', calm, done) = progress-Serves v status_lifecycle w up in
      if-Leaves (Serves v) (truthy v) _ _ w
        (λ _.
          bind_rule (Serves v) (progress S cfg v status_lifecycle) (λ _. complete S cfg id t) w
            (λ _ _. complete-Serves id v t _ up')
            (λ err e. (up', λ g. cc, λ id named. absurd (let (u, ok) = done id named in cc)))
            (λ e. absurd (calm e)))
        (λ _. quarantine-Serves id v _ w up)

  handle_payload-Serves :
      (id : ℕ) (p : Value) (w : World S.State)
      → IsUp w
      → Leaves (handle_payload S cfg id p) w (Serves (named p))
  unfolding handle_payload
  handle_payload-Serves id (dict fields) w up = handle_event-Serves id _ _ w up
  handle_payload-Serves id null w up = (up, λ g. cc, λ id named. cc)
  handle_payload-Serves id _ w up = (up, λ g. cc, λ id named. cc)

  pub handle_body-Serves :
      (id : ℕ) (o : Option String) (w : World S.State)
      → IsUp w
      → Leaves (handle_body S cfg id o) w (Serves (named_body S o))
  unfolding handle_body handle_text
  handle_body-Serves id none w up = (up, λ g. cc, λ id named. cc)
  handle_body-Serves id (some raw) w up = elim (Option-cases (S.loads raw)) [
    | inl e ↦ rw e (quarantine-Serves id null "malformed_json" w up)
    | inr (p, e) ↦ rw e (handle_payload-Serves id p w up)
  ]
