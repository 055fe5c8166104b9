-- ===== src/Worker/Consumer/Tried.antt =====
-- What the `try` block of `process_message` asks for, however it ends.
use kube_delivery_platform.Prelude.{
  ℕ, String, ◌≡◌, refl, ◌≢◌, true, false, ◌⊎◌, inl, Option, none, some, List, [], ◌∷◌, ◌++◌, map,
  append-nil, append_assoc, arith, ◌∙◌, ap, sym,
}
use kube_delivery_platform.Python.Value.{Value, null, dict, truthy, field_or}
use kube_delivery_platform.Python.Exec.{Reply, returned, raised, Error}
use kube_delivery_platform.Python.Exec.Rules.{Leaves, if-Leaves, bind_rule}
use kube_delivery_platform.Worker.Services.{Services, Config, Message, Consumer}
use kube_delivery_platform.Worker.World.{World, Call, update, ack}
use kube_delivery_platform.Worker.Consumer.{
  status_lifecycle, progress, complete, quarantine, handle_event, handle_payload, handle_text,
  handle_body,
}
use kube_delivery_platform.Worker.Consumer.Calls.{Effect, IsProgress, progress-IsProgress}

-- The shipment that a payload names, `null` if it names none.
abbrev pub named : Value → Value
named (dict fields) = field_or "shipment_id" null fields
named _ = null

module _ (S : Services) where
  abbrev pub named_text : Option Value → Value
  named_text none = null
  named_text (some payload) = named payload

  abbrev pub named_body : Option String → Value
  named_body none = null
  named_body (some raw_data) = named_text (S.loads raw_data)

  abbrev pub shipment_of : Message S.Bytes → Value
  shipment_of msg = named_body (S.decode msg.body)

  -- No task sets `_running` again: `start` is called once.
  abbrev pub NeverRestarts : Type 0
  NeverRestarts =
      (s : S.State) (c : Consumer) → (S.other_tasks_consumer s c).running ≡ true → c.running ≡ true

-- The acknowledgements inside the `try` block, by how the block ended.
abbrev pub IsAck : ℕ → Reply Unit → List Call → Type 0
IsAck id (returned u) cs = cs ≡ ack id ∷ []
IsAck id _ cs = (cs ≡ []) ⊎ (cs ≡ ack id ∷ [])

module _ (S : Services) (cfg : Config S) (v : Value) (E : Effect S cfg v) where
  -- What the `try` block did, however it ended.
  pub record IsTried (id : ℕ) (w w' : World S.State) (r : Reply Unit) : Type 0 where
    pub done : List String
    pub rest : List String
    pub acks : List Call
    pub parts : done ++ rest ≡ status_lifecycle
    pub calls : w'.calls ≡ w.calls ++ (map (update v) done ++ acks)
    pub acked : IsAck id r acks
    pub poison : truthy v ≡ false → done ≡ []
    pub all :
        NeverRestarts S → truthy v ≡ true → r ≡ returned tt → w'.consumer.running ≡ true → rest ≡ []
    pub effect : truthy v ≡ true → r ≡ returned tt → E.Relates w.env done w'.env

module _ (S : Services) (cfg : Config S) (id : ℕ) where
  calls-complete :
      (t : Value) (w : World S.State) → (complete S cfg id t w).1.calls ≡ w.calls ++ (ack id ∷ [])
  unfolding complete
  calls-complete t w = ground arith

  running-complete :
      (t : Value) (w : World S.State)
      → NeverRestarts S
      → (complete S cfg id t w).1.consumer.running ≡ true
      → w.consumer.running ≡ true
  unfolding complete
  running-complete t w keeps h = keeps (S.ack id w.env).1 w.consumer (ground arith)

  calls-quarantine :
      (reason : String) (w : World S.State)
      → (quarantine S cfg id reason w).1.calls ≡ w.calls ++ (ack id ∷ [])
  unfolding quarantine
  calls-quarantine reason w = refl

  module _ (v : Value) (E : Effect S cfg v) where
    -- A poison message: one acknowledgement and nothing else.
    acked_only :
        (w w' : World S.State) (r : Reply Unit)
        → truthy v ≡ false
        → w'.calls ≡ w.calls ++ (ack id ∷ [])
        → IsTried S cfg v E id w w' r
    acked_only w w' r empty e = record {
      done = [];
      rest = status_lifecycle;
      acks = ack id ∷ [];
      parts = refl;
      calls = e;
      acked = ground arith;
      poison = λ _. refl;
      all = λ _ h. absurd (ground arith);
      effect = λ h. absurd (ground arith);
    }

    nothing_done : (w : World S.State) (e : Error) → IsTried S cfg v E id w w (raised e)
    nothing_done w e = record {
      done = [];
      rest = status_lifecycle;
      acks = [];
      parts = refl;
      calls = sym (append-nil w.calls);
      acked = inl refl;
      poison = λ _. refl;
      all = λ _ _ h. absurd (ground arith);
      effect = λ _ h. absurd (ground arith);
    }

    module _ (w : World S.State) (event : truthy v ≡ true) where
      -- The loop ran to its end, and the message was acknowledged.
      then_acked :
          (t : Value) (u : World S.State)
          → IsProgress S cfg v E status_lifecycle w u (returned tt)
          → Leaves (complete S cfg id t) u (IsTried S cfg v E id w)
      then_acked t u p = record {
        done = p.done;
        rest = p.rest;
        acks = ack id ∷ [];
        parts = p.parts;
        calls =
            calls-complete t u
            ∙ ap (λ (l : List Call). l ++ (ack id ∷ [])) p.calls
            ∙ append_assoc w.calls (map (update v) p.done) (ack id ∷ []);
        acked = ground arith;
        poison = λ f. absurd (ground arith);
        all = λ keeps _ _ h. p.all refl (running-complete t u keeps h);
        effect = λ _ _. E.finish id t p.done w.env u (p.effect refl);
      }

      -- The loop ended by an error or a cancellation.
      broke_off :
          (u : World S.State) (q r : Reply Unit)
          → IsProgress S cfg v E status_lifecycle w u q
          → IsAck id r []
          → r ≢ returned tt
          → IsTried S cfg v E id w u r
      broke_off u q r p a bad = record {
        done = p.done;
        rest = p.rest;
        acks = [];
        parts = p.parts;
        calls = p.calls ∙ ap (λ (l : List Call). w.calls ++ l) (sym (append-nil _));
        acked = a;
        poison = λ f. absurd (ground arith);
        all = λ _ _ h. absurd (bad h);
        effect = λ _ h. absurd (bad h);
      }

    handle_event-IsTried :
        (t : Value) (w : World S.State)
        → Leaves (handle_event S cfg id v t) w (IsTried S cfg v E id w)
    unfolding handle_event
    handle_event-IsTried t w =
        let p = progress-IsProgress S cfg v E status_lifecycle w in
        if-Leaves (IsTried S cfg v E id w) (truthy v) _ _ w
          (λ event.
            bind_rule (IsTried S cfg v E id w) (progress S cfg v status_lifecycle)
              (λ _. complete S cfg id t) w (λ a e. then_acked w event t _ (rw e at p))
              (λ a e. broke_off w event _ _ _ p (inl refl) (λ h. cc))
              λ e. broke_off w event _ _ _ p (inl refl) (λ h. cc))
          λ empty. acked_only w _ _ empty (calls-quarantine "missing_shipment_id" w)

module _ (S : Services) (cfg : Config S) (id : ℕ) where
  handle_payload-IsTried :
      (payload : Value) (E : Effect S cfg (named payload)) (w : World S.State)
      → Leaves (handle_payload S cfg id payload) w (IsTried S cfg (named payload) E id w)
  unfolding handle_payload
  handle_payload-IsTried (dict fields) E w = handle_event-IsTried S cfg id _ E _ w
  handle_payload-IsTried null E w = nothing_done S cfg id null E w _
  handle_payload-IsTried _ E w = nothing_done S cfg id null E w _

  handle_text-IsTried :
      (o : Option Value) (E : Effect S cfg (named_text S o)) (w : World S.State)
      → Leaves (handle_text S cfg id o) w (IsTried S cfg (named_text S o) E id w)
  unfolding handle_text truthy
  handle_text-IsTried none E w =
      acked_only S cfg id null E w _ _ refl (calls-quarantine S cfg id "malformed_json" w)
  handle_text-IsTried (some payload) E w = handle_payload-IsTried payload E w

  pub handle_body-IsTried :
      (o : Option String) (E : Effect S cfg (named_body S o)) (w : World S.State)
      → Leaves (handle_body S cfg id o) w (IsTried S cfg (named_body S o) E id w)
  unfolding handle_body
  handle_body-IsTried none E w = nothing_done S cfg id null E w _
  handle_body-IsTried (some raw_data) E w = handle_text-IsTried (S.loads raw_data) E w
