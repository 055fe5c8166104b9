-- ===== src/Worker/Consumer/Frame.antt =====
-- A message touches no shipment but the one that it names.
use kube_delivery_platform.Prelude.{
  ℕ, String, ◌≡◌, refl, ◌≢◌, Option, none, some, List, [], ◌∷◌, arith, ◌∙◌,
}
use kube_delivery_platform.Python.Value.{Value, null, str, dict, truthy}
use kube_delivery_platform.Python.Exec.{Reply, Error}
use kube_delivery_platform.Python.Exec.Rules.{Leaves, if-Leaves, bind_rule, attempt_rule}
use kube_delivery_platform.Worker.Metrics.{inc_active}
use kube_delivery_platform.Worker.Services.{Services, Config, Message}
use kube_delivery_platform.Worker.World.{World}
use kube_delivery_platform.Worker.Database.{IsPostgres, IsQuiet}
use kube_delivery_platform.Worker.Repository.Update.{update_shipment_status-frame}
use kube_delivery_platform.Worker.Consumer.{
  status_lifecycle, pause, advance, progress, complete, quarantine, handle_event, handle_payload,
  handle_text, handle_body, on_error, settle, leave, process_message,
}
use kube_delivery_platform.Worker.Consumer.Tried.{shipment_of, named, named_text, named_body}

module _ (S : Services) (cfg : Config S) (status_of : S.State → String → Option String)
    (pg : IsPostgres S status_of) (quiet : IsQuiet S status_of) (j : String) where
  -- The row of `j` is as it was in `w`.
  abbrev IsUntouched : World S.State → World S.State → Reply Unit → Type 0
  IsUntouched w w' r = status_of w'.env j ≡ status_of w.env j

  pause-IsUntouched : (w : World S.State) → Leaves (pause S cfg) w (IsUntouched w)
  unfolding pause
  pause-IsUntouched w = ground (arith, quiet.sleep cfg.simulation_step_delay_sec w.env j)

  advance-IsUntouched :
      (v : Value) (other : v ≢ str j) (st : String) (w : World S.State)
      → Leaves (advance S cfg v st) w (IsUntouched w)
  unfolding advance
  advance-IsUntouched v other st w = ground (
    arith,
    pause-IsUntouched w,
    update_shipment_status-frame S status_of pg quiet v st (pause S cfg w).1 j other,
  )

  progress-IsUntouched :
      (v : Value) (other : v ≢ str j) (todo : List String) (w : World S.State)
      → Leaves (progress S cfg v todo) w (IsUntouched w)
  unfolding progress
  progress-IsUntouched v other [] w = refl
  progress-IsUntouched v other (st ∷ todo) w =
      let a = advance-IsUntouched v other st w in
      if-Leaves (IsUntouched w) w.consumer.running _ _ w
        (λ _.
          bind_rule (IsUntouched w) (advance S cfg v st) (λ _. progress S cfg v todo) w
            (λ _ _. progress-IsUntouched v other todo _ ∙ a) (λ _ _. a) (λ _. a))
        (λ _. refl)

  module _ (id : ℕ) where
    complete-IsUntouched :
        (t : Value) (w : World S.State) → Leaves (complete S cfg id t) w (IsUntouched w)
    unfolding complete
    complete-IsUntouched t w = ground (arith, quiet.ack id w.env j)

    quarantine-IsUntouched :
        (reason : String) (w : World S.State)
        → Leaves (quarantine S cfg id reason) w (IsUntouched w)
    unfolding quarantine
    quarantine-IsUntouched reason w = quiet.ack id w.env j

    on_error-IsUntouched :
        (e : Error) (w : World S.State) → Leaves (on_error S cfg id e) w (IsUntouched w)
    unfolding on_error
    on_error-IsUntouched e w = ground (arith, quiet.nak id cfg.retry_backoff_sec w.env j)

    handle_event-IsUntouched :
        (v t : Value) (other : v ≢ str j) (w : World S.State)
        → Leaves (handle_event S cfg id v t) w (IsUntouched w)
    unfolding handle_event
    handle_event-IsUntouched v t other w =
        let p = progress-IsUntouched v other status_lifecycle w in
        if-Leaves (IsUntouched w) (truthy v) _ _ w
          (λ _.
            bind_rule (IsUntouched w) (progress S cfg v status_lifecycle) (λ _. complete S cfg id t)
              w (λ _ _. complete-IsUntouched t _ ∙ p) (λ _ _. p) (λ _. p))
          (λ _. quarantine-IsUntouched _ w)

    handle_payload-IsUntouched :
        (p : Value) (other : named p ≢ str j) (w : World S.State)
        → Leaves (handle_payload S cfg id p) w (IsUntouched w)
    unfolding handle_payload
    handle_payload-IsUntouched (dict fields) other w = handle_event-IsUntouched _ _ other w
    handle_payload-IsUntouched null other w = refl
    handle_payload-IsUntouched _ other w = refl

    handle_text-IsUntouched :
        (o : Option Value) (other : named_text S o ≢ str j) (w : World S.State)
        → Leaves (handle_text S cfg id o) w (IsUntouched w)
    unfolding handle_text
    handle_text-IsUntouched none other w = quarantine-IsUntouched _ w
    handle_text-IsUntouched (some p) other w = handle_payload-IsUntouched p other w

    handle_body-IsUntouched :
        (o : Option String) (other : named_body S o ≢ str j) (w : World S.State)
        → Leaves (handle_body S cfg id o) w (IsUntouched w)
    unfolding handle_body
    handle_body-IsUntouched none other w = refl
    handle_body-IsUntouched (some raw) other w = handle_text-IsUntouched (S.loads raw) other w

  -- If an update touches no row but that of its own shipment, and nobody else writes to the table while
  -- the worker waits, takes or gives back a connection, or acknowledges, then however a message ends,
  -- every shipment that it does not name keeps its status.
  pub process_message-frame :
      (msg : Message S.Bytes) (w : World S.State)
      → shipment_of S msg ≢ str j
      → status_of (process_message S cfg msg w).1.env j ≡ status_of w.env j
  unfolding process_message leave settle
  process_message-frame msg w other =
      let u = record w { metrics = inc_active w.metrics } in
      let t = handle_body-IsUntouched msg.id (S.decode msg.body) other u in
      attempt_rule (IsUntouched u) (handle_body S cfg msg.id (S.decode msg.body))
        (on_error S cfg msg.id) u (λ _ _. t) (λ e _. on_error-IsUntouched msg.id e _ ∙ t) (λ _. t)
