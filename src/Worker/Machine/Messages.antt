-- ===== src/Worker/Machine/Messages.antt =====
-- Steps of the machine for the loop over the lifecycle, for a message and for a batch.
use kube_delivery_platform.Prelude.{
  ℕ, String, ◌≢◌, inl, inr, refl, Option, none, some, List, [], ◌∷◌,
}
use kube_delivery_platform.Python.Value.{Value, str, dict, truthy}
use kube_delivery_platform.Python.Exec.{Reply, Error, returned, raised, cancelled}
use kube_delivery_platform.Python.Exec.Rules.{
  Reply-cases, Leaves, if-Leaves, bind_rule, attempt_rule,
}
use kube_delivery_platform.Worker.Metrics.{inc_active}
use kube_delivery_platform.Worker.Services.{Services, Config, Message}
use kube_delivery_platform.Worker.World.{World}
use kube_delivery_platform.Worker.Consumer.{
  status_lifecycle, advance, progress, complete, quarantine, handle_event, handle_payload,
  handle_text, handle_body, on_error, settle, leave, process_message,
}
use kube_delivery_platform.Worker.Loop.{process_batch}
use kube_delivery_platform.Worker.Machine.{Row, Others, begin, Reach, here, Reach-trans, Reach-Step}
use kube_delivery_platform.Worker.Machine.Laws.{IsShared}
use kube_delivery_platform.Worker.Machine.Passes.{
  Value-cases, row, Keeps, Keeps-trans, Keeps-others, Sets, advance-Sets, advance-other,
}

module _ (S : Services) (cfg : Config S) (status_of : S.State → String → Option String) (O : Others)
    (shared : IsShared S status_of O) (id : String) where
  abbrev pub at : S.State → List String → Row
  at s todo = row S cfg status_of O shared id s todo

  abbrev pub Still : S.State → S.State → Type 0
  Still s t = Keeps S cfg status_of O shared id s t

  pub still : (s t : S.State) → O (status_of s id) (status_of t id) → Still s t
  still = Keeps-others S cfg status_of O shared id

  pub then-Still : (s t u : S.State) → Still s t → Still t u → Still s u
  then-Still = Keeps-trans S cfg status_of O shared id

  -- From any pass under way, the machine reaches the row in `s'`.
  abbrev pub Goes : S.State → S.State → Type 0
  Goes s s' = (todo : List String) → (left : List String) × Reach O (at s todo) (at s' left)

  pub Goes-refl : (s : S.State) → Goes s s
  Goes-refl s = λ todo. (todo, here)

  pub Goes-trans : (s t u : S.State) → Goes s t → Goes t u → Goes s u
  Goes-trans s t u f g = λ todo.
      let (mid, before) = f todo in let (left, after) = g mid in (left, Reach-trans before after)

  pub Goes-Still : (s t : S.State) → Still s t → Goes s t
  Goes-Still s t k = λ todo. (todo, k todo)

  abbrev pub Moves : {A : Type 0} → World S.State → World S.State → Reply A → Type 0
  Moves w w' r = Goes w.env w'.env

  -- The loop with `todo` still to do.
  abbrev Passes : List String → World S.State → World S.State → Reply Unit → Type 0
  Passes todo w w' r = (left : List String) × Reach O (at w.env todo) (at w'.env left)

  progress-Passes :
      (todo : List String) (w : World S.State)
      → Leaves (progress S cfg (str id) todo) w (Passes todo w)
  unfolding progress
  progress-Passes [] w = ([], here)
  progress-Passes (st ∷ todo) w =
      let set = advance-Sets S cfg status_of O shared id st todo w in
      if-Leaves (Passes (st ∷ todo) w) w.consumer.running _ _ w
        (λ _.
          bind_rule (Passes (st ∷ todo) w) (advance S cfg (str id) st)
            (λ _. progress S cfg (str id) todo) w
            (λ a e.
              let one : Sets S cfg status_of O shared id st todo w.env
                  (advance S cfg (str id) st w).1.env (returned a) =
                rw e at set in
              let (left, rest) = progress-Passes todo (advance S cfg (str id) st w).1 in
              (left, Reach-trans one rest))
            (λ err e.
              let bad : Reply Unit = raised err in
              let one : Sets S cfg status_of O shared id st todo w.env
                  (advance S cfg (str id) st w).1.env bad =
                rw e at set in
              one)
            (λ e.
              let bad : Reply Unit = cancelled in
              let one : Sets S cfg status_of O shared id st todo w.env
                  (advance S cfg (str id) st w).1.env bad =
                rw e at set in
              one))
        (λ _. (st ∷ todo, here))

  progress-other :
      (v : Value) (other : v ≢ str id) (todo : List String) (w : World S.State)
      → Leaves (progress S cfg v todo) w (λ w' r. Still w.env w'.env)
  unfolding progress
  progress-other v other [] w = λ todo. here
  progress-other v other (st ∷ todo) w =
      let a = advance-other S cfg status_of O shared id v other st w in
      if-Leaves (λ w' r. Still w.env w'.env) w.consumer.running _ _ w
        (λ _.
          bind_rule (λ w' r. Still w.env w'.env) (advance S cfg v st) (λ _. progress S cfg v todo) w
            (λ _ _. then-Still _ _ _ a (progress-other v other todo _)) (λ _ _. a) (λ _. a))
        (λ _. λ t. here)

  -- A pass over the lifecycle, or nothing but the writes of others.
  progress-Moves :
      (v : Value) (w : World S.State) → Leaves (progress S cfg v status_lifecycle) w (Moves w)
  progress-Moves v w = elim (Value-cases v id) [
    | inl e ↦ rw e (λ todo.
        let (left, pass) = progress-Passes status_lifecycle w in
        (left, Reach-trans (Reach-Step (begin refl)) pass))
    | inr other ↦ Goes-Still _ _ (progress-other v other status_lifecycle w)
  ]

  complete-Still :
      (m : ℕ) (t : Value) (w : World S.State)
      → Leaves (complete S cfg m t) w (λ w' r. Still w.env w'.env)
  unfolding complete
  complete-Still m t w =
      let k = still w.env (S.ack m w.env).1 (shared.ack m w.env id) in
      elim (Reply-cases (S.ack m w.env).0) [
        | inl (a, e) ↦ rw e k
        | inr (inl (err, e)) ↦ rw e k
        | inr (inr e) ↦ rw e k
      ]

  quarantine-Still :
      (m : ℕ) (reason : String) (w : World S.State)
      → Leaves (quarantine S cfg m reason) w (λ w' r. Still w.env w'.env)
  unfolding quarantine
  quarantine-Still m reason w = still w.env (S.ack m w.env).1 (shared.ack m w.env id)

  on_error-Still :
      (m : ℕ) (err : Error) (w : World S.State)
      → Leaves (on_error S cfg m err) w (λ w' r. Still w.env w'.env)
  unfolding on_error
  on_error-Still m err w =
      let k =
        still w.env (S.nak m cfg.retry_backoff_sec w.env).1
          (shared.nak m cfg.retry_backoff_sec w.env id) in
      elim (Reply-cases (S.nak m cfg.retry_backoff_sec w.env).0) [
        | inl (a, e) ↦ rw e k
        | inr (inl (x, e)) ↦ rw e k
        | inr (inr e) ↦ rw e k
      ]

  handle_event-Moves :
      (m : ℕ) (v t : Value) (w : World S.State) → Leaves (handle_event S cfg m v t) w (Moves w)
  unfolding handle_event
  handle_event-Moves m v t w =
      let pass = progress-Moves v w in
      if-Leaves (Moves w) (truthy v) _ _ w
        (λ _.
          bind_rule (Moves w) (progress S cfg v status_lifecycle) _ w
            (λ _ _. Goes-trans _ _ _ pass (Goes-Still _ _ (complete-Still m t _))) (λ _ _. pass)
            (λ _. pass))
        (λ _. Goes-Still _ _ (quarantine-Still m "missing_shipment_id" w))

  handle_payload-Moves :
      (m : ℕ) (v : Value) (w : World S.State) → Leaves (handle_payload S cfg m v) w (Moves w)
  unfolding handle_payload
  handle_payload-Moves m (dict fields) w = handle_event-Moves m _ _ w
  handle_payload-Moves m _ w = Goes-refl w.env

  handle_text-Moves :
      (m : ℕ) (o : Option Value) (w : World S.State) → Leaves (handle_text S cfg m o) w (Moves w)
  unfolding handle_text
  handle_text-Moves m none w = Goes-Still _ _ (quarantine-Still m "malformed_json" w)
  handle_text-Moves m (some payload) w = handle_payload-Moves m payload w

  handle_body-Moves :
      (m : ℕ) (o : Option String) (w : World S.State) → Leaves (handle_body S cfg m o) w (Moves w)
  unfolding handle_body
  handle_body-Moves m none w = Goes-refl w.env
  handle_body-Moves m (some raw_data) w = handle_text-Moves m (S.loads raw_data) w

  process_message-Moves :
      (msg : Message S.Bytes) (w : World S.State) → Leaves (process_message S cfg msg) w (Moves w)
  unfolding process_message leave settle
  process_message-Moves msg w =
      let u = record w { metrics = inc_active w.metrics } in
      let body = handle_body-Moves msg.id (S.decode msg.body) u in
      attempt_rule (Moves w) (handle_body S cfg msg.id (S.decode msg.body)) (on_error S cfg msg.id)
        u (λ _ _. body)
        (λ err _. Goes-trans _ _ _ body (Goes-Still _ _ (on_error-Still msg.id err _))) (λ _. body)

  pub process_batch-Moves :
      (msgs : List (Message S.Bytes)) (w : World S.State)
      → Leaves (process_batch S cfg msgs) w (Moves w)
  unfolding process_batch
  process_batch-Moves [] w = Goes-refl w.env
  process_batch-Moves (msg ∷ rest) w =
      let one = process_message-Moves msg w in
      if-Leaves (Moves w) w.consumer.running _ _ w
        (λ _.
          bind_rule (Moves w) (process_message S cfg msg) (λ _. process_batch S cfg rest) w
            (λ _ _. Goes-trans _ _ _ one (process_batch-Moves rest _)) (λ _ _. one) (λ _. one))
        (λ _. Goes-refl w.env)
