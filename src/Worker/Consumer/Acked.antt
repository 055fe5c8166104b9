-- ===== src/Worker/Consumer/Acked.antt =====
-- An event that names a shipment is acknowledged after all its updates, or refused.
use kube_delivery_platform.Prelude.{
  ℕ, String, ◌≡◌, refl, true, ◌⊎◌, inl, inr, List, [], ◌∷◌, ◌++◌, map, append-nil, append_assoc,
  ◌∙◌, ap, sym,
}
use kube_delivery_platform.Python.Value.{Value, truthy}
use kube_delivery_platform.Python.Exec.{Reply, returned, raised, Error}
use kube_delivery_platform.Python.Exec.Rules.{Leaves, attempt_rule}
use kube_delivery_platform.Worker.Metrics.{inc_active}
use kube_delivery_platform.Worker.Services.{Services, Config, Message}
use kube_delivery_platform.Worker.World.{World, Call, update, ack, nak}
use kube_delivery_platform.Worker.Consumer.{
  status_lifecycle, handle_body, on_error, settle, leave, process_message,
}
use kube_delivery_platform.Worker.Consumer.Tried.{
  IsTried, shipment_of, handle_body-IsTried, NeverRestarts,
}
use kube_delivery_platform.Worker.Consumer.Settle.{on_error-calls}
use kube_delivery_platform.Worker.Consumer.Calls.{Effect, no_effect}

module _ (S : Services) (cfg : Config S) (v : Value) (E : Effect S cfg v) where
  -- The message was acknowledged behind the statuses `done`, which are all of them unless the
  -- consumer was stopped.
  pub record IsAcked (id : ℕ) (w w' : World S.State) : Type 0 where
    pub done : List String
    pub rest : List String
    pub parts : done ++ rest ≡ status_lifecycle
    pub calls : w'.calls ≡ w.calls ++ (map (update v) done ++ (ack id ∷ []))
    pub all : w'.consumer.running ≡ true → rest ≡ []
    pub effect : E.Relates w.env done w'.env

pub whole {ℓ} : {A : Type ℓ} (done rest l : List A) → done ++ rest ≡ l → rest ≡ [] → done ≡ l
whole {A = A} done rest l e n = sym (append-nil done) ∙ ap (λ (r : List A). done ++ r) (sym n) ∙ e

-- The last request was a negative acknowledgement.
abbrev pub IsNacked : {State : Type 0} → ℕ → World State → World State → Type 0
IsNacked id w w' = (cs : List Call) × (w'.calls ≡ w.calls ++ (cs ++ (nak id ∷ [])))

module _ (S : Services) (cfg : Config S) (keeps : NeverRestarts S) (msg : Message S.Bytes)
    (event : truthy (shipment_of S msg) ≡ true) (E : Effect S cfg (shipment_of S msg)) where
  abbrev Ends : World S.State → World S.State → Reply Unit → Type 0
  Ends w w' r =
      r ≡ returned tt → IsAcked S cfg (shipment_of S msg) E msg.id w w' ⊎ IsNacked msg.id w w'

  acked :
      (w w' : World S.State)
      → IsTried S cfg (shipment_of S msg) E msg.id w w' (returned tt)
      → Ends w w' (returned tt)
  acked w w' t _ = inl (record {
    done = t.done;
    rest = t.rest;
    parts = t.parts;
    calls = rw t.acked at t.calls;
    all = t.all keeps event refl;
    effect = t.effect event refl;
  })

  nacked :
      (w u : World S.State) (e : Error)
      → IsTried S cfg (shipment_of S msg) E msg.id w u (raised e)
      → Leaves (on_error S cfg msg.id e) u (Ends w)
  nacked w u e t _ = inr (
    map (update _) t.done ++ t.acks,
    (on_error-calls S cfg msg.id e u).0
        ∙ ap (λ (l : List Call). l ++ (nak msg.id ∷ [])) t.calls
        ∙ append_assoc w.calls _ _,
  )

  settle-Ends : (w : World S.State) → Leaves (settle S cfg msg) w (Ends w)
  unfolding settle
  settle-Ends w =
      let t = handle_body-IsTried S cfg msg.id (S.decode msg.body) E w in
      attempt_rule (Ends w) (handle_body S cfg msg.id (S.decode msg.body)) (on_error S cfg msg.id) w
        (λ a e. acked w _ (rw e at t)) (λ e h. nacked w _ e (rw h at t)) (λ h e. cc)

  pub process_message-Ends :
      (w : World S.State)
      → (process_message S cfg msg w).0 ≡ returned tt
      → IsAcked S cfg (shipment_of S msg) E msg.id w (process_message S cfg msg w).1
        ⊎ IsNacked msg.id w (process_message S cfg msg w).1
  unfolding process_message leave
  process_message-Ends w e = elim (settle-Ends (record w { metrics = inc_active w.metrics }) e) [
    | inl h ↦ inl (record {
      done = h.done;
      rest = h.rest;
      parts = h.parts;
      calls = h.calls;
      all = h.all;
      effect = h.effect;
    })
    | inr (cs, c) ↦ inr (cs, c)
  ]

module _ (S : Services) (cfg : Config S) (keeps : NeverRestarts S) (msg : Message S.Bytes) where
  -- A message that names a shipment, and that is handled to the end while the consumer runs, is
  -- acknowledged right after the updates to all three statuses in their order, or the last request
  -- made is its negative acknowledgement.
  pub process_message-acked :
      (w : World S.State)
      → truthy (shipment_of S msg) ≡ true
      → (process_message S cfg msg w).0 ≡ returned tt
      → (process_message S cfg msg w).1.consumer.running ≡ true
      → let w' = (process_message S cfg msg w).1 in
        (w'.calls
          ≡ w.calls ++ (map (update (shipment_of S msg)) status_lifecycle ++ (ack msg.id ∷ [])))
        ⊎ IsNacked msg.id w w'
  process_message-acked w event e live =
      elim (process_message-Ends S cfg keeps msg event (no_effect S cfg _) w e) [
        | inl h ↦ inl (
            h.calls
            ∙ ap
                (λ (l : List String).
                  w.calls ++ (map (update (shipment_of S msg)) l ++ (ack msg.id ∷ [])))
                (whole h.done h.rest _ h.parts (h.all live)))
        | inr n ↦ inr n
      ]
