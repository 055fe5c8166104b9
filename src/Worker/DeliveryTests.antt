-- ===== src/Worker/DeliveryTests.antt =====
-- Messages and batches while nothing fails, at concrete data.
use kube_delivery_platform.Prelude.{String, ◌≡◌, refl, some, List, [], ◌∷◌, ◌++◌, map}
use kube_delivery_platform.Python.Value.{str, truthy, field_or, find_field}
use kube_delivery_platform.Python.Exec.{returned}
use kube_delivery_platform.Worker.Services.{Message}
use kube_delivery_platform.Worker.World.{World, Call, update, ack}
use kube_delivery_platform.Worker.Consumer.{status_lifecycle, process_message}
use kube_delivery_platform.Worker.Consumer.Delivered.{process_message-served}
use kube_delivery_platform.Worker.Loop.{process_batch}
use kube_delivery_platform.Worker.Loop.Batch.{AllAnswered}
use kube_delivery_platform.Worker.Loop.Delivers.{process_batch-delivers}
use kube_delivery_platform.Worker.Consumer.Served.{IsUp}
use kube_delivery_platform.Worker.Lab.{Lab, settings, status_of}
use kube_delivery_platform.Worker.Lab.Steady.{
  steady, steady-IsPostgres, steady-IsQuiet, steady-IsHealthy,
}
use kube_delivery_platform.Worker.Tests.{world, message}

abbrev placed : World Lab
placed = world "PLACED" []

process_message-served_example :
    let (r, w') = process_message steady settings (message "shp_1") placed in
    (r ≡ returned tt)
    × (w'.calls ≡ [] ++ (map (update (str "shp_1")) status_lifecycle ++ (ack 4 ∷ [])))
    × (w'.env.rows "shp_1" ≡ some "DELIVERED")
unfolding truthy field_or find_field
process_message-served_example =
    process_message-served steady settings steady-IsHealthy status_of steady-IsPostgres
      steady-IsQuiet (message "shp_1") "shp_1" placed (refl, refl) refl refl

-- An event between two messages that are none.
abbrev batch : List (Message String)
batch = message "{" ∷ message "shp_1" ∷ message "[]" ∷ []

process_batch-delivers_example :
    let (r, w') = process_batch steady settings batch placed in
    (r ≡ returned tt)
    × IsUp w'
    × ((added : List Call) × (w'.calls ≡ [] ++ added) × AllAnswered batch added)
    × (w'.env.rows "shp_1" ≡ some "DELIVERED")
unfolding truthy field_or find_field
process_batch-delivers_example =
    process_batch-delivers steady settings steady-IsHealthy status_of steady-IsPostgres
      steady-IsQuiet batch "shp_1" placed (refl, refl) refl
