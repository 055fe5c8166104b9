-- ===== src/Worker/Consumer/Settle.antt =====
-- What becomes of a message: which updates are asked for, and how it is acknowledged.
use kube_delivery_platform.Prelude.{
  ℕ, String, ◌≡◌, ◌⊎◌, inl, List, [], ◌∷◌, ◌++◌, map, append-nil, append_assoc, arith, ◌∙◌, ap, sym,
  by_failed_test, true,
}
use kube_delivery_platform.Python.Value.{Value, truthy}
use kube_delivery_platform.Python.Exec.{Reply, returned, raised, cancelled, Error, NoRaise}
use kube_delivery_platform.Python.Exec.Rules.{Leaves, attempt_rule}
use kube_delivery_platform.Worker.Metrics.{inc_active}
use kube_delivery_platform.Worker.Services.{Services, Config, Message}
use kube_delivery_platform.Worker.World.{World, Call, update, ack, nak}
use kube_delivery_platform.Worker.Consumer.{
  status_lifecycle, handle_body, on_error, settle, leave, process_message,
}
use kube_delivery_platform.Worker.Consumer.Tried.{IsAck, IsTried, shipment_of, handle_body-IsTried}
use kube_delivery_platform.Worker.Consumer.Calls.{Effect, no_effect}

-- How a message is settled, by how `process_message` ended: it never raises, and unless its task
-- was cancelled the message is acknowledged, positively or negatively.
abbrev pub IsSettled : ℕ → Reply Unit → List Call → Type 0
IsSettled id (returned u) cs = (cs ≡ ack id ∷ []) ⊎ (cs ≡ nak id ∷ []) ⊎ (cs ≡ ack id ∷ nak id ∷ [])
IsSettled id (raised e) cs = ⊥
IsSettled id cancelled cs =
    (cs ≡ []) ⊎ (cs ≡ ack id ∷ []) ⊎ (cs ≡ nak id ∷ []) ⊎ (cs ≡ ack id ∷ nak id ∷ [])

-- What `process_message` asked for between `w` and `w'`: the statuses `done`, in the order of the
-- lifecycle and without a gap, and then the acknowledgements. Nothing for a poison message.
pub record IsHandled {State : Type 0} (v : Value) (id : ℕ) (w w' : World State) (r : Reply Unit)
    : Type 0 where
  pub done : List String
  pub rest : List String
  pub settlement : List Call
  pub parts : done ++ rest ≡ status_lifecycle
  pub calls : w'.calls ≡ w.calls ++ (map (update v) done ++ settlement)
  pub settled : IsSettled id r settlement
  pub poison : (truthy v ≡ true) ⊎ (done ≡ [])

module _ (S : Services) (cfg : Config S) (id : ℕ) where
  pub on_error-calls :
      (e : Error) (w : World S.State)
      → ((on_error S cfg id e w).1.calls ≡ w.calls ++ (nak id ∷ []))
        × NoRaise (on_error S cfg id e w).0
  unfolding on_error
  on_error-calls e w = ground arith

  handled :
      (v : Value) (E : Effect S cfg v) (w u w' : World S.State) (q r : Reply Unit)
      (more : List Call)
      → (t : IsTried S cfg v E id w u q) → w'.calls ≡ u.calls ++ more
      → IsSettled id r (t.acks ++ more)
      → IsHandled v id w w' r
  handled v E w u w' q r more t e settled = record {
    done = t.done;
    rest = t.rest;
    settlement = t.acks ++ more;
    parts = t.parts;
    calls =
        e
        ∙ ap (λ (l : List Call). l ++ more) t.calls
        ∙ append_assoc w.calls (map (update v) t.done ++ t.acks) more
        ∙ ap (λ (l : List Call). w.calls ++ l) (append_assoc (map (update v) t.done) t.acks more);
    settled = settled;
    poison = by_failed_test (truthy v) t.poison;
  }

  IsSettled-after_error :
      (acks : List Call) (r : Reply Unit)
      → (acks ≡ []) ⊎ (acks ≡ ack id ∷ [])
      → NoRaise r
      → IsSettled id r (acks ++ (nak id ∷ []))
  IsSettled-after_error acks (returned u) a n = ground arith
  IsSettled-after_error acks (raised e) a n = n
  IsSettled-after_error acks cancelled a n = ground arith

  IsSettled-no_more :
      (acks : List Call) (r : Reply Unit)
      → NoRaise r
      → IsAck id r acks
      → IsSettled id r (acks ++ [])
  IsSettled-no_more acks (returned u) n a = rw append-nil (inl a)
  IsSettled-no_more acks (raised e) n a = n
  IsSettled-no_more acks cancelled n a = rw append-nil (ground arith)

module _ (S : Services) (cfg : Config S) (msg : Message S.Bytes) where
  settle-IsHandled :
      (w : World S.State) → Leaves (settle S cfg msg) w (IsHandled (shipment_of S msg) msg.id w)
  unfolding settle
  settle-IsHandled w =
      let t = handle_body-IsTried S cfg msg.id (S.decode msg.body) (no_effect S cfg _) w in
      attempt_rule (IsHandled (shipment_of S msg) msg.id w)
        (handle_body S cfg msg.id (S.decode msg.body)) (on_error S cfg msg.id) w
        (λ a e.
          handled S cfg msg.id _ _ w _ _ _ _ [] t (sym (append-nil _))
            (IsSettled-no_more S cfg msg.id _ (returned a) tt (rw e at t.acked)))
        (λ e h.
          handled S cfg msg.id _ _ w _ _ _ _ (nak msg.id ∷ []) t (on_error-calls S cfg msg.id e _).0
            (IsSettled-after_error S cfg msg.id t.acks _ (rw h at t.acked)
              (on_error-calls S cfg msg.id e _).1))
        (λ h.
          handled S cfg msg.id _ _ w _ _ _ _ [] t (sym (append-nil _))
            (IsSettled-no_more S cfg msg.id _ cancelled tt (rw h at t.acked)))

  -- Whatever the services answer and whatever other tasks do meanwhile, `process_message` raises
  -- nothing, asks for a prefix of the statuses of the lifecycle in their order, for none if the message
  -- names no shipment, and then acknowledges the message positively, negatively, or negatively after
  -- a positive attempt; only a cancelled task may leave it without an acknowledgement.
  pub process_message-IsHandled :
      (w : World S.State)
      → IsHandled
          (shipment_of S msg)
          msg.id
          w
          (process_message S cfg msg w).1
          (process_message S cfg msg w).0
  unfolding process_message leave
  process_message-IsHandled w =
      let h = settle-IsHandled (record w { metrics = inc_active w.metrics }) in
      record {
        done = h.done;
        rest = h.rest;
        settlement = h.settlement;
        parts = h.parts;
        calls = h.calls;
        settled = h.settled;
        poison = h.poison;
      }
