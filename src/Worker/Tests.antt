-- ===== src/Worker/Tests.antt =====
-- Runs of the worker over the concrete services, and the theorems at concrete data.
use kube_delivery_platform.Prelude.{
  String, ◌≡◌, refl, ◌≢◌, true, false, none, some, List, [], ◌∷◌, ◌++◌, map, arith, ◌==◌, ◌⊎◌,
  eq_iff, if◌then◌else◌,
}
use kube_delivery_platform.Python.Value.{str, truthy, field_or, find_field}
use kube_delivery_platform.Python.Exec.{Reply}
use kube_delivery_platform.Python.Exec.Rules.{Leaves}
use kube_delivery_platform.Worker.Metrics.{no_metrics}
use kube_delivery_platform.Worker.Services.{Message}
use kube_delivery_platform.Worker.World.{World, update, ack, nak}
use kube_delivery_platform.Worker.Database.{set_statuses}
use kube_delivery_platform.Worker.Lab.{Lab, Turn, go, fail, stop, lab, status_of, settings}
use kube_delivery_platform.Worker.Lab.Laws.{lab-IsPostgres, lab-IsQuiet, lab-NeverRestarts}
use kube_delivery_platform.Worker.Repository.{
  update_shipment_status, update_with, update_on, execute,
}
use kube_delivery_platform.Worker.Repository.Update.{Counted, update_shipment_status-Counted}
use kube_delivery_platform.Worker.Consumer.{
  status_lifecycle, pause, advance, progress, complete, quarantine, handle_event, handle_payload,
  handle_text, handle_body, on_error, settle, leave, process_message,
}
use kube_delivery_platform.Worker.Consumer.Settle.{IsHandled, process_message-IsHandled}
use kube_delivery_platform.Worker.Consumer.Acked.{IsNacked, process_message-acked}
use kube_delivery_platform.Worker.Consumer.Status.{process_message-status}
use kube_delivery_platform.Worker.Consumer.Frame.{process_message-frame}
use kube_delivery_platform.Worker.Consumer.Counts.{IsCounted, process_message-IsCounted}
use kube_delivery_platform.Worker.Consumer.Poison.{process_message-poison}

-- A table with one shipment of the given status, and what the next requests meet.
abbrev pub world : String → List Turn → World Lab
world status plan = record {
  repo = record { pool = some 1; healthy = true };
  consumer = record { nc = some 7; js = some 7; psub = some 8; running = true };
  metrics = no_metrics;
  calls = [];
  env = record {
    rows = λ j. if j == "shp_1" then some status else none;
    plan = plan;
    stopped = false;
    inbox = [];
    pools = 1;
  };
}

abbrev pub message : String → Message String
message body = record { id = 4; body = body }

run : Message String → World Lab → Reply Unit × World Lab
unfolding process_message settle leave on_error handle_body handle_text handle_payload handle_event
    complete quarantine progress advance pause update_shipment_status update_with update_on execute
    truthy field_or find_field
run = process_message lab settings

run_delivers :
    let w = (run (message "shp_1") (world "PLACED" [])).1 in
    (w.calls
      ≡ update (str "shp_1") "PROCESSING"
        ∷ update (str "shp_1") "IN_TRANSIT"
        ∷ update (str "shp_1") "DELIVERED"
        ∷ ack 4
        ∷ [])
    × (w.env.rows "shp_1" ≡ some "DELIVERED")
unfolding run
run_delivers = (refl, refl)

run_malformed :
    let w = (run (message "{") (world "PLACED" [])).1 in
    (w.calls ≡ ack 4 ∷ []) × (w.metrics.poison_messages ≡ "malformed_json" ∷ [])
unfolding run
run_malformed = (refl, refl)

run_no_id :
    let w = (run (message "no_id") (world "PLACED" [])).1 in
    (w.calls ≡ ack 4 ∷ []) × (w.metrics.poison_messages ≡ "missing_shipment_id" ∷ [])
unfolding run
run_no_id = (refl, refl)

-- A shipment that was delivered is found in the first status again when its message is delivered
-- a second time and the second update fails.
run_redelivered :
    let w = (run (message "shp_1") (world "DELIVERED" (go ∷ go ∷ go ∷ go ∷ fail ∷ []))).1 in
    (w.env.rows "shp_1" ≡ some "PROCESSING")
    × (w.calls ≡ update (str "shp_1") "PROCESSING" ∷ update (str "shp_1") "IN_TRANSIT" ∷ nak 4 ∷ [])
unfolding run
run_redelivered = (refl, refl)

abbrev placed : World Lab
placed = world "PLACED" []

abbrev after : World Lab → World Lab
after w = (process_message lab settings (message "shp_1") w).1

process_message-IsHandled_example :
    Leaves
      (process_message lab settings (message "shp_1"))
      placed
      (IsHandled (str "shp_1") 4 placed)
unfolding field_or find_field
process_message-IsHandled_example = process_message-IsHandled lab settings (message "shp_1") placed

process_message-acked_example :
    ((after placed).calls ≡ map (update (str "shp_1")) status_lifecycle ++ (ack 4 ∷ []))
    ⊎ IsNacked 4 placed (after placed)
unfolding run
process_message-acked_example =
    process_message-acked lab settings lab-NeverRestarts (message "shp_1") placed refl refl refl

process_message-status_example :
    IsNacked 4 placed (after placed)
    ⊎ ((done rest : List String) × (done ++ rest ≡ status_lifecycle)
        × ((after placed).calls ≡ [] ++ (map (update (str "shp_1")) done ++ (ack 4 ∷ [])))
        × ((after placed).env.rows "shp_1" ≡ set_statuses done (some "PLACED"))
        × (((after placed).consumer.running ≡ false) ⊎ (rest ≡ [])))
unfolding run
process_message-status_example =
    process_message-status lab settings status_of lab-IsPostgres lab-IsQuiet lab-NeverRestarts
      (message "shp_1") "shp_1" placed refl refl refl

str_ne : str "shp_1" ≢ str "shp_2"
str_ne e = ground (arith, eq_iff "shp_1" "shp_2")

process_message-frame_example : (after placed).env.rows "shp_2" ≡ none
unfolding field_or find_field
process_message-frame_example =
    process_message-frame lab settings status_of lab-IsPostgres lab-IsQuiet "shp_2"
      (message "shp_1") placed str_ne

process_message-IsCounted_example :
    Leaves (process_message lab settings (message "shp_1")) placed (IsCounted placed)
process_message-IsCounted_example = process_message-IsCounted lab settings (message "shp_1") placed

process_message-poison_example :
    (process_message lab settings (message "{") placed).1.metrics.poison_messages
    ≡ "malformed_json" ∷ []
process_message-poison_example = process_message-poison lab settings (message "{") placed

abbrev redelivered : World Lab
redelivered = world "DELIVERED" (stop ∷ [])

update_shipment_status-Counted_example :
    Leaves
      (update_shipment_status lab (str "shp_1") "DELIVERED")
      placed
      (Counted (some 1) (str "shp_1") "DELIVERED" placed)
update_shipment_status-Counted_example =
    update_shipment_status-Counted lab (str "shp_1") "DELIVERED" placed
