-- ===== src/Worker/Consumer.antt =====
-- services/tracking-worker/src/consumer.py: one message from its bytes to its acknowledgement.
pub mod Calls
pub mod Tried
pub mod Settle
pub mod Acked
pub mod Status
pub mod Counts
pub mod Frame
pub mod Poison
pub mod Served
pub mod Delivered
use kube_delivery_platform.Prelude.{ℕ, String, Option, none, some, List, [], ◌∷◌, if◌then◌else◌}
use kube_delivery_platform.Python.Value.{Value, null, str, dict, truthy, field_or}
use kube_delivery_platform.Python.Exec.{
  Error, value_error, attribute_error, pure, raise, gets, attempt, finally, ◌>>◌, ◌>>=◌,
}
use kube_delivery_platform.Worker.Metrics.{inc_events, inc_poison, inc_active, dec_active, observe}
use kube_delivery_platform.Worker.Services.{Services, Config, Message}
use kube_delivery_platform.Worker.World.{World, Task, await, request, count, ack, nak}
use kube_delivery_platform.Worker.Repository.{update_shipment_status}

abbrev pub status_lifecycle : List String
status_lifecycle = "PROCESSING" ∷ "IN_TRANSIT" ∷ "DELIVERED" ∷ []

module _ (S : Services) (cfg : Config S) where
  unfoldable pub pause : Task S Unit
  pause =
      if S.positive cfg.simulation_step_delay_sec
      then await S (S.sleep cfg.simulation_step_delay_sec)
      else pure tt

  -- The body of the loop over `STATUS_LIFECYCLE`. The result of the update is only logged.
  unfoldable pub advance : Value → String → Task S Unit
  advance shipment_id next_status = do
    pause
    updated ← update_shipment_status S shipment_id next_status
    count S (λ m. inc_events m next_status "success")

  -- The loop: `break` once the consumer is stopped.
  unfoldable pub progress : Value → List String → Task S Unit
  progress shipment_id [] = pure tt
  progress shipment_id (next_status ∷ rest) = do
    running ← gets (λ w. w.consumer.running)
    if running then (do advance shipment_id next_status; progress shipment_id rest) else pure tt

  unfoldable pub quarantine : ℕ → String → Task S Unit
  quarantine msg reason = do count S (λ m. inc_poison m reason); request S (ack msg) (S.ack msg)

  unfoldable pub complete : ℕ → Value → Task S Unit
  complete msg event_type = do request S (ack msg) (S.ack msg); count S (λ m. observe m event_type)

  unfoldable pub handle_event : ℕ → Value → Value → Task S Unit
  handle_event msg shipment_id event_type =
      if truthy shipment_id
      then (do progress shipment_id status_lifecycle; complete msg event_type)
      else quarantine msg "missing_shipment_id"

  -- `payload.get` is an attribute of dicts only.
  unfoldable pub handle_payload : ℕ → Value → Task S Unit
  handle_payload msg (dict fields) =
      handle_event msg (field_or "shipment_id" null fields)
        (field_or "event_type" (str "Unknown") fields)
  handle_payload msg _ = raise (attribute_error "get")

  unfoldable pub handle_text : ℕ → Option Value → Task S Unit
  handle_text msg none = quarantine msg "malformed_json"
  handle_text msg (some payload) = handle_payload msg payload

  unfoldable pub handle_body : ℕ → Option String → Task S Unit
  handle_body msg none = raise (value_error "utf-8")
  handle_body msg (some raw_data) = handle_text msg (S.loads raw_data)

  -- `except Exception`: a negative acknowledgement, whose own failure is ignored.
  unfoldable pub on_error : ℕ → Error → Task S Unit
  on_error msg err = do
    count S (λ m. inc_events m "FAILED" "error")
    attempt (request S (nak msg) (S.nak msg cfg.retry_backoff_sec)) λ _. pure tt

  unfoldable pub settle : Message S.Bytes → Task S Unit
  settle msg = attempt (handle_body msg.id (S.decode msg.body)) (on_error msg.id)

  unfoldable pub leave : World S.State → World S.State
  leave w = record w { metrics = dec_active w.metrics }

  unfoldable pub process_message : Message S.Bytes → Task S Unit
  process_message msg = do count S inc_active; finally (settle msg) leave
