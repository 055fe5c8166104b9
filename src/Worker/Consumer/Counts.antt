-- ===== src/Worker/Consumer/Counts.antt =====
-- The counters and the gauge of a message.
use kube_delivery_platform.Prelude.{
  ℕ, ◌+◌, String, ◌≡◌, refl, Bool, true, false, Option, none, some, List, [], ◌∷◌, arith, ◌==◌,
  count-append, ap,
}
use kube_delivery_platform.Prelude
use kube_delivery_platform.Python.Value.{Value, null, dict, truthy}
use kube_delivery_platform.Python.Exec.{Reply, Error, returned}
use kube_delivery_platform.Python.Exec.Rules.{Leaves, if-Leaves, bind_rule, attempt_rule}
use kube_delivery_platform.Worker.Metrics.{Labels, inc_active}
use kube_delivery_platform.Worker.Services.{Services, Config, Message}
use kube_delivery_platform.Worker.World.{World, Call, update, ack, nak}
use kube_delivery_platform.Worker.Repository.{update_shipment_status}
use kube_delivery_platform.Worker.Repository.Rules.{sent, update_rule}
use kube_delivery_platform.Worker.Consumer.{
  status_lifecycle, pause, advance, progress, complete, quarantine, handle_event, handle_payload,
  handle_text, handle_body, on_error, settle, leave, process_message,
}

abbrev pub is_nak : Call → Bool
is_nak (nak id) = true
is_nak _ = false

abbrev pub is_error : Labels → Bool
is_error l = l.result == "error"

-- How many negative acknowledgements were asked for.
abbrev pub naks : {State : Type 0} → World State → ℕ
naks w = Prelude.count is_nak w.calls

-- How many events were counted as failed.
abbrev pub failures : {State : Type 0} → World State → ℕ
failures w = Prelude.count is_error w.metrics.events_processed

record IsSame {State : Type 0} (w w' : World State) (r : Reply Unit) : Type 0 where
  same_naks : naks w' ≡ naks w
  same_failures : failures w' ≡ failures w
  same_active : w'.metrics.active_tasks ≡ w.metrics.active_tasks

IsSame-trans :
    {State : Type 0} (w u w' : World State) (q r : Reply Unit)
    → IsSame w u q
    → IsSame u w' r
    → IsSame w w' r
IsSame-trans w u w' q r a b = omega arith

module _ (S : Services) (cfg : Config S) where
  -- The same of a reply of any type.
  abbrev Keeps : {A : Type 0} → World S.State → World S.State → Reply A → Type 0
  Keeps w w' r = IsSame w w' (returned tt)

  pause-Keeps : (w : World S.State) → Leaves (pause S cfg) w (Keeps w)
  unfolding pause
  pause-Keeps w = ground arith

  update-Keeps :
      (v : Value) (st : String) (w : World S.State)
      → Leaves (update_shipment_status S v st) w (Keeps w)
  update-Keeps v st w =
      let plain : naks (sent S v st 0 w) ≡ naks w =
        omega (arith, count-append {0} is_nak w.calls (update v st ∷ [])) in
      let same : (w' : World S.State)
          → naks w' ≡ naks w
          → w'.metrics.events_processed ≡ w.metrics.events_processed
          → w'.metrics.active_tasks ≡ w.metrics.active_tasks
          → IsSame w w' (returned tt) =
        λ w' n f a. record {
          same_naks = n;
          same_failures = ap (Prelude.count is_error) f;
          same_active = a;
        } in
      update_rule S v st (Keeps w) w (λ _. same _ refl refl refl)
        (λ pool _. record {
          refused = λ err. same _ refl refl refl;
          stopped = same _ refl refl refl;
          done = λ conn tag f. same _ plain refl refl;
          late = λ conn tag err f. same _ plain refl refl;
          late_stop = λ conn tag f. same _ plain refl refl;
          failed = λ conn err f. same _ plain refl refl;
          failed_stop = λ conn f. same _ plain refl refl;
        })

  -- A success is counted for the event.
  advance-IsSame :
      (v : Value) (st : String) (w : World S.State) → Leaves (advance S cfg v st) w (IsSame w)
  unfolding advance
  advance-IsSame v st w =
      let p = pause-Keeps w in
      let u = update-Keeps v st (pause S cfg w).1 in
      bind_rule (IsSame w) (pause S cfg) _ w
        (λ a e.
          bind_rule (IsSame w) (update_shipment_status S v st) _ (pause S cfg w).1
            (λ b f. omega (arith, p, u)) (λ err f. omega (arith, p, u)) (λ f. omega (arith, p, u)))
        (λ err e. omega (arith, p)) (λ e. omega (arith, p))

  progress-IsSame :
      (v : Value) (todo : List String) (w : World S.State)
      → Leaves (progress S cfg v todo) w (IsSame w)
  unfolding progress
  progress-IsSame v [] w = record { same_naks = refl; same_failures = refl; same_active = refl }
  progress-IsSame v (st ∷ todo) w =
      let a = advance-IsSame v st w in
      if-Leaves (IsSame w) w.consumer.running _ _ w
        (λ _.
          bind_rule (IsSame w) (advance S cfg v st) (λ _. progress S cfg v todo) w
            (λ _ _. IsSame-trans w _ _ _ _ a (progress-IsSame v todo _)) (λ _ _. omega arith)
            (λ _. omega arith))
        (λ _. omega arith)

  complete-IsSame :
      (id : ℕ) (t : Value) (w : World S.State) → Leaves (complete S cfg id t) w (IsSame w)
  unfolding complete
  complete-IsSame id t w = ground (arith, count-append {0} is_nak w.calls (ack id ∷ []))

  quarantine-IsSame :
      (id : ℕ) (reason : String) (w : World S.State)
      → Leaves (quarantine S cfg id reason) w (IsSame w)
  unfolding quarantine
  quarantine-IsSame id reason w = ground (arith, count-append {0} is_nak w.calls (ack id ∷ []))

  handle_event-IsSame :
      (id : ℕ) (v t : Value) (w : World S.State) → Leaves (handle_event S cfg id v t) w (IsSame w)
  unfolding handle_event
  handle_event-IsSame id v t w =
      let p = progress-IsSame v status_lifecycle w in
      if-Leaves (IsSame w) (truthy v) _ _ w
        (λ _.
          bind_rule (IsSame w) (progress S cfg v status_lifecycle) (λ _. complete S cfg id t) w
            (λ _ _. IsSame-trans w _ _ _ _ p (complete-IsSame id t _)) (λ _ _. omega arith)
            (λ _. omega arith))
        (λ _. quarantine-IsSame id _ w)

  handle_payload-IsSame :
      (id : ℕ) (p : Value) (w : World S.State) → Leaves (handle_payload S cfg id p) w (IsSame w)
  unfolding handle_payload
  handle_payload-IsSame id (dict fields) w = handle_event-IsSame id _ _ w
  handle_payload-IsSame id null w = omega arith
  handle_payload-IsSame id _ w = omega arith

  handle_text-IsSame :
      (id : ℕ) (o : Option Value) (w : World S.State) → Leaves (handle_text S cfg id o) w (IsSame w)
  unfolding handle_text
  handle_text-IsSame id none w = quarantine-IsSame id _ w
  handle_text-IsSame id (some p) w = handle_payload-IsSame id p w

  handle_body-IsSame :
      (id : ℕ) (o : Option String) (w : World S.State)
      → Leaves (handle_body S cfg id o) w (IsSame w)
  unfolding handle_body
  handle_body-IsSame id none w = omega arith
  handle_body-IsSame id (some raw) w = handle_text-IsSame id (S.loads raw) w

  -- One failure counted, one negative acknowledgement asked for.
  on_error-counts :
      (id : ℕ) (e : Error) (w : World S.State)
      → let w' = (on_error S cfg id e w).1 in
        (naks w' ≡ naks w + 1)
        × (failures w' ≡ failures w + 1)
        × (w'.metrics.active_tasks ≡ w.metrics.active_tasks)
  unfolding on_error
  on_error-counts id e w = ground (arith, count-append {0} is_nak w.calls (nak id ∷ []))

-- The gauge is back, and failures and negative acknowledgements went up together.
pub record IsCounted {State : Type 0} (w w' : World State) (r : Reply Unit) : Type 0 where
  pub balanced : naks w' + failures w ≡ naks w + failures w'
  pub active : w'.metrics.active_tasks ≡ w.metrics.active_tasks

module _ (S : Services) (cfg : Config S) (msg : Message S.Bytes) where
  settle-IsCounted : (w : World S.State) → Leaves (settle S cfg msg) w (IsCounted w)
  unfolding settle
  settle-IsCounted w =
      let t = handle_body-IsSame S cfg msg.id (S.decode msg.body) w in
      attempt_rule (IsCounted w) (handle_body S cfg msg.id (S.decode msg.body))
        (on_error S cfg msg.id) w (λ _ _. omega arith)
        (λ e _. omega (
          arith,
          on_error-counts S cfg msg.id e (handle_body S cfg msg.id (S.decode msg.body) w).1,
        ))
        (λ _. omega arith)

  -- However a message ends, cancelled or not, the gauge of active tasks has its old value, and
  -- as many failures were counted as negative acknowledgements were asked for.
  pub process_message-IsCounted :
      (w : World S.State) → Leaves (process_message S cfg msg) w (IsCounted w)
  unfolding process_message leave
  process_message-IsCounted w =
      omega (arith, settle-IsCounted (record w { metrics = inc_active w.metrics }))
