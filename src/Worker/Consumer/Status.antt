-- ===== src/Worker/Consumer/Status.antt =====
-- What a message does to the table of shipments.
use kube_delivery_platform.Prelude.{
  ℕ, String, ◌≡◌, refl, true, ◌⊎◌, inl, inr, Option, none, some, List, [], ◌∷◌, map, ◌++◌, arith,
  ◌∙◌, ap, by_test, false,
}
use kube_delivery_platform.Python.Value.{Value, str, truthy}
use kube_delivery_platform.Python.Exec.{returned}
use kube_delivery_platform.Python.Exec.Rules.{Reply-cases}
use kube_delivery_platform.Worker.Services.{Services, Config, Message}
use kube_delivery_platform.Worker.World.{World, update, ack}
use kube_delivery_platform.Worker.Database.{IsPostgres, IsQuiet, set_status, set_statuses}
use kube_delivery_platform.Worker.Repository.{update_shipment_status}
use kube_delivery_platform.Worker.Repository.Update.{update_shipment_status-effect}
use kube_delivery_platform.Worker.Consumer.{
  status_lifecycle, pause, advance, complete, process_message,
}
use kube_delivery_platform.Worker.Consumer.Calls.{Effect}
use kube_delivery_platform.Worker.Consumer.Tried.{shipment_of, NeverRestarts}
use kube_delivery_platform.Worker.Consumer.Acked.{IsNacked, process_message-Ends}

module _ (S : Services) (cfg : Config S) (status_of : S.State → String → Option String)
    (pg : IsPostgres S status_of) (quiet : IsQuiet S status_of) where
  status-pause :
      (w : World S.State) (j : String) → status_of (pause S cfg w).1.env j ≡ status_of w.env j
  unfolding pause
  status-pause w j = ground (arith, quiet.sleep cfg.simulation_step_delay_sec w.env j)

  -- One round of the loop that returns has set the status.
  status-advance :
      (id st : String) (w : World S.State)
      → (advance S cfg (str id) st w).0 ≡ returned tt
      → status_of (advance S cfg (str id) st w).1.env id ≡ set_status st (status_of w.env id)
  unfolding advance
  status-advance id st w h = elim (Reply-cases (pause S cfg w).0) [
    | inl (a, e) ↦ elim (Reply-cases (update_shipment_status S (str id) st (pause S cfg w).1).0) [
      | inl (b, f) ↦ ground (
        arith,
        update_shipment_status-effect S status_of pg quiet id st (pause S cfg w).1 b f,
        status-pause w id,
      )
      | inr bad ↦ ground arith
    ]
    | inr bad ↦ ground arith
  ]

  pub status-complete :
      (id : ℕ) (t : Value) (w : World S.State) (j : String)
      → status_of (complete S cfg id t w).1.env j ≡ status_of w.env j
  unfolding complete
  status-complete id t w j = ground (arith, quiet.ack id w.env j)

  pub status-advance_at :
      (v : Value) (id st : String) (w : World S.State)
      → v ≡ str id
      → (advance S cfg v st w).0 ≡ returned tt
      → status_of (advance S cfg v st w).1.env id ≡ set_status st (status_of w.env id)
  status-advance_at v id st w e h = rw e (status-advance id st w (rw e at h))

  unfoldable pub status_effect : (v : Value) → Effect S cfg v
  status_effect v = record {
    Relates = λ s done s'.
        (id : String) → v ≡ str id → status_of s' id ≡ set_statuses done (status_of s id);
    start = λ s id e. refl;
    step = λ st rest w s ok rel id e.
        rel id e ∙ ap (set_statuses rest) (status-advance_at v id st w e ok);
    finish = λ m t done s w rel id e. status-complete m t w id ∙ rel id e;
  }

  pub set_statuses-lifecycle :
      (row : Option String) → set_statuses status_lifecycle row ≡ set_status "DELIVERED" row
  set_statuses-lifecycle none = refl
  set_statuses-lifecycle (some old) = refl

  -- If an UPDATE that returns had its effect, nobody else writes to the table while the worker waits,
  -- takes or gives back a connection, or acknowledges, and no other task sets `_running` again: of a
  -- message that names the shipment `id` by an id that is not empty, and that is handled to its end,
  -- the last request is its negative acknowledgement; or its requests are the updates to a prefix of
  -- the lifecycle's statuses and then its acknowledgement, the status of an existing shipment is the
  -- last one of that prefix, or the old one for no update, and the prefix is the whole lifecycle unless
  -- the consumer was stopped.
  pub process_message-status :
      (keeps : NeverRestarts S) (msg : Message S.Bytes) (id : String) (w : World S.State)
      → shipment_of S msg ≡ str id
      → truthy (str id) ≡ true
      → (process_message S cfg msg w).0 ≡ returned tt
      → let w' = (process_message S cfg msg w).1 in
        IsNacked msg.id w w'
        ⊎ ((done rest : List String) × (done ++ rest ≡ status_lifecycle)
            × (w'.calls ≡ w.calls ++ (map (update (str id)) done ++ (ack msg.id ∷ [])))
            × (status_of w'.env id ≡ set_statuses done (status_of w.env id))
            × ((w'.consumer.running ≡ false) ⊎ (rest ≡ [])))
  unfolding status_effect
  process_message-status keeps msg id w named event e =
      elim (process_message-Ends S cfg keeps msg (rw named event) (status_effect _) w e) [
        | inl h ↦ inr (
          h.done,
          h.rest,
          h.parts,
          h.calls
              ∙ ap (λ (v : Value). w.calls ++ (map (update v) h.done ++ (ack msg.id ∷ []))) named,
          h.effect id named,
          by_test _ h.all,
        )
        | inr n ↦ inl n
      ]
