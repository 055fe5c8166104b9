-- ===== src/Worker/Consumer/Poison.antt =====
-- Which messages are counted as poison.
use kube_delivery_platform.Prelude.{
  ℕ, String, ◌≡◌, refl, Bool, true, false, Option, none, some, List, [], ◌∷◌, ◌++◌, arith, ◌∙◌,
}
use kube_delivery_platform.Python.Value.{Value, null, dict, truthy, field_or}
use kube_delivery_platform.Python.Exec.{Reply, Error, ◌>>◌}
use kube_delivery_platform.Python.Exec.Rules.{Leaves, if-Leaves, bind_rule, attempt_rule}
use kube_delivery_platform.Worker.Metrics.{inc_active}
use kube_delivery_platform.Worker.Services.{Services, Config, Message}
use kube_delivery_platform.Worker.World.{World}
use kube_delivery_platform.Worker.Repository.{update_shipment_status}
use kube_delivery_platform.Worker.Repository.Rules.{update_rule}
use kube_delivery_platform.Worker.Consumer.{
  status_lifecycle, pause, advance, progress, complete, quarantine, handle_event, handle_payload,
  handle_text, handle_body, on_error, settle, leave, process_message,
}

-- The reasons under which a message is counted as poison: at most one. Bytes that are no UTF-8,
-- and a payload that is no object, are not counted.
abbrev pub reason_of_event : Bool → List String
reason_of_event true = []
reason_of_event false = "missing_shipment_id" ∷ []

abbrev pub reason_of_payload : Value → List String
reason_of_payload (dict fields) = reason_of_event (truthy (field_or "shipment_id" null fields))
reason_of_payload _ = []

abbrev pub reason_of_text : Option Value → List String
reason_of_text none = "malformed_json" ∷ []
reason_of_text (some payload) = reason_of_payload payload

abbrev pub poison_reason : (S : Services) → Option String → List String
poison_reason S none = []
poison_reason S (some raw_data) = reason_of_text (S.loads raw_data)

module _ (S : Services) (cfg : Config S) where
  -- The counter of poison messages went up by the reasons given.
  abbrev Poisons : List String → World S.State → World S.State → Reply Unit → Type 0
  Poisons reasons w w' r = w'.metrics.poison_messages ≡ reasons ++ w.metrics.poison_messages

  poison-update :
      (v : Value) (st : String) (w : World S.State)
      → (update_shipment_status S v st w).1.metrics.poison_messages ≡ w.metrics.poison_messages
  poison-update v st w =
      update_rule S v st (λ w' r. w'.metrics.poison_messages ≡ w.metrics.poison_messages) w
        (λ _. refl)
        (λ pool _. record {
          refused = λ err. refl;
          stopped = refl;
          done = λ conn tag f. refl;
          late = λ conn tag err f. refl;
          late_stop = λ conn tag f. refl;
          failed = λ conn err f. refl;
          failed_stop = λ conn f. refl;
        })

  poison-pause : (w : World S.State) → (pause S cfg w).1.metrics ≡ w.metrics
  unfolding pause
  poison-pause w = ground arith

  poison-advance :
      (v : Value) (st : String) (w : World S.State) → Leaves (advance S cfg v st) w (Poisons [] w)
  unfolding advance
  poison-advance v st w = ground (arith, poison-pause w, poison-update v st (pause S cfg w).1)

  poison-progress :
      (v : Value) (todo : List String) (w : World S.State)
      → Leaves (progress S cfg v todo) w (Poisons [] w)
  unfolding progress
  poison-progress v [] w = refl
  poison-progress v (st ∷ todo) w =
      let a = poison-advance v st w in
      if-Leaves (Poisons [] w) w.consumer.running _ _ w
        (λ _.
          bind_rule (Poisons [] w) (advance S cfg v st) (λ _. progress S cfg v todo) w
            (λ _ _. poison-progress v todo _ ∙ a) (λ _ _. a) (λ _. a))
        (λ _. refl)

  module _ (id : ℕ) where
    poison-complete :
        (t : Value) (w : World S.State) → Leaves (complete S cfg id t) w (Poisons [] w)
    unfolding complete
    poison-complete t w = ground arith

    poison-on_error :
        (e : Error) (w : World S.State) → Leaves (on_error S cfg id e) w (Poisons [] w)
    unfolding on_error
    poison-on_error e w = ground arith

    poison-quarantine :
        (reason : String) (w : World S.State)
        → Leaves (quarantine S cfg id reason) w (Poisons (reason ∷ []) w)
    unfolding quarantine
    poison-quarantine reason w = refl

    poison-event :
        (v t : Value) (w : World S.State)
        → Leaves (do progress S cfg v status_lifecycle; complete S cfg id t) w (Poisons [] w)
    poison-event v t w =
        let p = poison-progress v status_lifecycle w in
        bind_rule (Poisons [] w) (progress S cfg v status_lifecycle) (λ _. complete S cfg id t) w
          (λ _ _. poison-complete t _ ∙ p) (λ _ _. p) λ _. p

    poison-handle_event :
        (v t : Value) (w : World S.State)
        → Leaves (handle_event S cfg id v t) w (Poisons (reason_of_event (truthy v)) w)
    unfolding handle_event
    poison-handle_event v t w =
        if-Leaves (Poisons (reason_of_event (truthy v)) w) (truthy v) _ _ w
          (λ event. rw event (poison-event v t w))
          λ empty. rw empty (poison-quarantine "missing_shipment_id" w)

    poison-handle_payload :
        (p : Value) (w : World S.State)
        → Leaves (handle_payload S cfg id p) w (Poisons (reason_of_payload p) w)
    unfolding handle_payload
    poison-handle_payload (dict fields) w = poison-handle_event _ _ w
    poison-handle_payload null w = refl
    poison-handle_payload _ w = refl

    poison-handle_text :
        (o : Option Value) (w : World S.State)
        → Leaves (handle_text S cfg id o) w (Poisons (reason_of_text o) w)
    unfolding handle_text
    poison-handle_text none w = poison-quarantine _ w
    poison-handle_text (some p) w = poison-handle_payload p w

    poison-handle_body :
        (o : Option String) (w : World S.State)
        → Leaves (handle_body S cfg id o) w (Poisons (poison_reason S o) w)
    unfolding handle_body
    poison-handle_body none w = refl
    poison-handle_body (some raw) w = poison-handle_text (S.loads raw) w

  -- However a message ends, it is counted as poison exactly under the reasons that its body gives:
  -- once as malformed, once as missing a shipment id, or not at all.
  pub process_message-poison :
      (msg : Message S.Bytes) (w : World S.State)
      → (process_message S cfg msg w).1.metrics.poison_messages
        ≡ poison_reason S (S.decode msg.body) ++ w.metrics.poison_messages
  unfolding process_message leave settle
  process_message-poison msg w =
      let u = record w { metrics = inc_active w.metrics } in
      let reasons = poison_reason S (S.decode msg.body) in
      let t = poison-handle_body msg.id (S.decode msg.body) u in
      attempt_rule (Poisons reasons u) (handle_body S cfg msg.id (S.decode msg.body))
        (on_error S cfg msg.id) u (λ _ _. t) (λ e _. poison-on_error msg.id e _ ∙ t) (λ _. t)
