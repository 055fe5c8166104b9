-- ===== src/Worker/Consumer/Delivered.antt =====
-- What a message comes to while nothing fails.
use kube_delivery_platform.Prelude.{
  ℕ, String, ◌≡◌, ◌≢◌, refl, true, Option, List, [], ◌∷◌, ◌++◌, map, ◌∙◌, ap, sym,
}
use kube_delivery_platform.Python.Value.{Value, str, truthy}
use kube_delivery_platform.Python.Exec.{Reply, returned, raised, cancelled}
use kube_delivery_platform.Python.Exec.Rules.{attempt_rule}
use kube_delivery_platform.Worker.Metrics.{inc_active}
use kube_delivery_platform.Worker.Services.{Services, Config, Message}
use kube_delivery_platform.Worker.World.{World, Call, update, ack}
use kube_delivery_platform.Worker.Database.{IsPostgres, IsQuiet, set_status, set_statuses}
use kube_delivery_platform.Worker.Consumer.{
  status_lifecycle, handle_body, on_error, settle, leave, process_message,
}
use kube_delivery_platform.Worker.Consumer.Tried.{shipment_of, handle_body-IsTried}
use kube_delivery_platform.Worker.Consumer.Acked.{whole}
use kube_delivery_platform.Worker.Consumer.Settle.{IsSettled, process_message-IsHandled}
use kube_delivery_platform.Worker.Consumer.Status.{status_effect, set_statuses-lifecycle}
use kube_delivery_platform.Worker.Consumer.Served.{
  IsHealthy, IsUp, handle_body-Serves, on_error-IsUp,
}

-- `WORKER_ACTIVE_TASKS.inc()`, the first step of `process_message`.
abbrev entered : {State : Type 0} → World State → World State
entered w = record w { metrics = inc_active w.metrics }

module _ (S : Services) (cfg : Config S) (h : IsHealthy S) where
  returns :
      (id : ℕ) (r : Reply Unit) (cs : List Call)
      → IsSettled id r cs
      → r ≢ cancelled
      → r ≡ returned tt
  returns id (returned tt) cs n c = refl
  returns id (raised e) cs n c = absurd n
  returns id cancelled cs n c = absurd (c refl)

  -- Whatever the message, it is handled to its end, and the worker is up for the next one.
  pub process_message-IsUp :
      (msg : Message S.Bytes) (w : World S.State)
      → IsUp w
      → ((process_message S cfg msg w).0 ≡ returned tt) × IsUp (process_message S cfg msg w).1
  unfolding process_message leave settle
  process_message-IsUp msg w up =
      let u = entered w in
      let (up', calm, done) = handle_body-Serves S cfg h msg.id (S.decode msg.body) u up in
      let (up'', calm') =
        attempt_rule (λ w' r. IsUp w' × (r ≢ cancelled))
          (handle_body S cfg msg.id (S.decode msg.body)) (on_error S cfg msg.id) u
          (λ a e. (up', λ g. cc)) (λ err e. on_error-IsUp S cfg h msg.id err _ up')
          (λ e. absurd (calm e)) in
      (returns msg.id _ _ (process_message-IsHandled S cfg msg w).settled calm', up'')

  module _ (status_of : S.State → String → Option String) (pg : IsPostgres S status_of)
      (quiet : IsQuiet S status_of) where
    answered :
        (msg : Message S.Bytes) (id : String) (w : World S.State)
        → IsUp w
        → shipment_of S msg ≡ str id
        → truthy (str id) ≡ true
        → let w' = (process_message S cfg msg w).1 in
          (w'.calls ≡ w.calls ++ (map (update (str id)) status_lifecycle ++ (ack msg.id ∷ [])))
          × (status_of w'.env id ≡ set_status "DELIVERED" (status_of w.env id))
    unfolding process_message leave settle status_effect
    answered msg id w up named event =
        let u = entered w in
        let body = S.decode msg.body in
        let (up', calm, done) = handle_body-Serves S cfg h msg.id body u up in
        let (a, ok) = done id named in
        let t =
          handle_body-IsTried S cfg msg.id body
            (status_effect S cfg status_of pg quiet (shipment_of S msg)) u in
        let event' : truthy (shipment_of S msg) ≡ true = rw named event in
        let none_left = t.all (λ s c g. sym (h.running s c) ∙ g) event' ok up'.0 in
        let all = whole t.done t.rest _ t.parts none_left in
        let acked : t.acks ≡ ack msg.id ∷ [] = rw ok at t.acked in
        rw ok (
          t.calls
              ∙ ap (λ (l : List Call). w.calls ++ l)
                  (ap (λ (l : List String). map (update (shipment_of S msg)) l ++ t.acks) all
                    ∙ ap (λ (v : Value). map (update v) status_lifecycle ++ t.acks) named
                    ∙ ap (λ (l : List Call). map (update (str id)) status_lifecycle ++ l) acked),
          t.effect event' ok id named
              ∙ ap (λ (l : List String). set_statuses l (status_of w.env id)) all
              ∙ set_statuses-lifecycle S cfg status_of pg quiet (status_of w.env id),
        )

    -- While nothing fails, nobody else writes, the consumer runs and there is a pool: a message that
    -- names a shipment by an id that is not empty is handled to its end, with the three updates of the
    -- lifecycle in their order and then its acknowledgement as its only requests, and the shipment,
    -- if it exists, is `DELIVERED`.
    pub process_message-served :
        (msg : Message S.Bytes) (id : String) (w : World S.State)
        → IsUp w
        → shipment_of S msg ≡ str id
        → truthy (str id) ≡ true
        → let (r, w') = process_message S cfg msg w in
          (r ≡ returned tt)
          × (w'.calls ≡ w.calls ++ (map (update (str id)) status_lifecycle ++ (ack msg.id ∷ [])))
          × (status_of w'.env id ≡ set_status "DELIVERED" (status_of w.env id))
    process_message-served msg id w up named event =
        let (calls, status) = answered msg id w up named event in
        ((process_message-IsUp msg w up).0, calls, status)
