-- ===== src/Worker/MachineTests.antt =====
-- The theorems on whole runs of the consumer, at concrete data.
use kube_delivery_platform.Prelude.{refl, inl, [], ◌∷◌}
use kube_delivery_platform.Worker.World.{World}
use kube_delivery_platform.Worker.Lab.{Lab, go, fail, stop, lab, settings, status_of}
use kube_delivery_platform.Worker.Lab.Laws.{unshared, lab-IsShared}
use kube_delivery_platform.Worker.Loop.{start}
use kube_delivery_platform.Worker.Machine.Safety.{IsKnown, start-IsKnown}
use kube_delivery_platform.Worker.Tests.{world}

abbrev queue : World Lab
queue = world "PLACED" (go ∷ fail ∷ stop ∷ [])

start-IsKnown_example : IsKnown (status_of (start lab settings 4 queue).1.env "shp_1")
start-IsKnown_example =
    start-IsKnown lab settings status_of unshared lab-IsShared (λ a b e k. rw e at k) "shp_1" 4
      queue (inl refl)
