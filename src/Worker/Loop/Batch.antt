-- ===== src/Worker/Loop/Batch.antt =====
-- What becomes of the messages of a batch.
use kube_delivery_platform.Prelude.{
  ℕ, ◌≡◌, refl, false, ◌⊎◌, inl, inr, List, [], ◌∷◌, ◌++◌, map, append-nil, append_assoc, ◌∙◌, ap,
  sym,
}
use kube_delivery_platform.Python.Exec.{Reply, returned, raised, cancelled, NoRaise}
use kube_delivery_platform.Python.Exec.Rules.{Leaves, if-Leaves, bind_rule}
use kube_delivery_platform.Worker.Services.{Services, Config, Message}
use kube_delivery_platform.Worker.World.{World, Call, update, ack, nak}
use kube_delivery_platform.Worker.Consumer.{process_message}
use kube_delivery_platform.Worker.Consumer.Tried.{shipment_of}
use kube_delivery_platform.Worker.Consumer.Settle.{IsSettled, IsHandled, process_message-IsHandled}
use kube_delivery_platform.Worker.Loop.{process_batch}

-- The call `c` is among `cs`.
abbrev pub Has : Call → List Call → Type 0
Has c [] = ⊥
Has c (x ∷ cs) = (x ≡ c) ⊎ Has c cs

Has-append_left : (c : Call) (cs ds : List Call) → Has c cs → Has c (cs ++ ds)
Has-append_left c [] ds h = absurd h
Has-append_left c (x ∷ cs) ds (inl e) = inl e
Has-append_left c (x ∷ cs) ds (inr h) = inr (Has-append_left c cs ds h)

Has-append_right : (c : Call) (cs ds : List Call) → Has c ds → Has c (cs ++ ds)
Has-append_right c [] ds h = h
Has-append_right c (x ∷ cs) ds h = inr (Has-append_right c cs ds h)

-- The message `id` was acknowledged, positively or negatively, among `cs`.
abbrev pub Answered : ℕ → List Call → Type 0
Answered id cs = Has (ack id) cs ⊎ Has (nak id) cs

abbrev pub AllAnswered : {Bytes : Type 0} → List (Message Bytes) → List Call → Type 0
AllAnswered [] cs = Unit
AllAnswered (msg ∷ rest) cs = Answered msg.id cs × AllAnswered rest cs

Answered-append_left : (id : ℕ) (cs ds : List Call) → Answered id cs → Answered id (cs ++ ds)
Answered-append_left id cs ds (inl h) = inl (Has-append_left (ack id) cs ds h)
Answered-append_left id cs ds (inr h) = inr (Has-append_left (nak id) cs ds h)

Answered-append_right : (id : ℕ) (cs ds : List Call) → Answered id ds → Answered id (cs ++ ds)
Answered-append_right id cs ds (inl h) = inl (Has-append_right (ack id) cs ds h)
Answered-append_right id cs ds (inr h) = inr (Has-append_right (nak id) cs ds h)

AllAnswered-append_right :
    {Bytes : Type 0} (msgs : List (Message Bytes)) (cs ds : List Call)
    → AllAnswered msgs ds
    → AllAnswered msgs (cs ++ ds)
AllAnswered-append_right [] cs ds h = tt
AllAnswered-append_right (msg ∷ rest) cs ds h =
    (Answered-append_right msg.id cs ds h.0, AllAnswered-append_right rest cs ds h.1)

-- A settled message was answered.
IsSettled-Answered : (id : ℕ) (cs : List Call) → IsSettled id (returned tt) cs → Answered id cs
IsSettled-Answered id cs (inl e) = inl (rw e (inl refl))
IsSettled-Answered id cs (inr (inl e)) = inr (rw e (inl refl))
IsSettled-Answered id cs (inr (inr e)) = inl (rw e (inl refl))

-- The batch `msgs` was worked off up to `left`: the messages `handled` were each answered, in the
-- calls that the batch made, and nothing is left unless the consumer was stopped.
pub record IsBatch {Bytes State : Type 0} (msgs : List (Message Bytes)) (w w' : World State)
    (r : Reply Unit) : Type 0 where
  pub handled : List (Message Bytes)
  pub left : List (Message Bytes)
  pub added : List Call
  pub parts : handled ++ left ≡ msgs
  pub calls : w'.calls ≡ w.calls ++ added
  pub answered : (r ≡ cancelled) ⊎ AllAnswered handled added
  pub all : (r ≡ cancelled) ⊎ (w'.consumer.running ≡ false) ⊎ (left ≡ [])
  pub no_raise : NoRaise r

module _ (S : Services) (cfg : Config S) where
  IsBatch-nil :
      (msgs : List (Message S.Bytes)) (w : World S.State)
      → (w.consumer.running ≡ false) ⊎ (msgs ≡ [])
      → IsBatch msgs w w (returned tt)
  IsBatch-nil msgs w why = record {
    handled = [];
    left = msgs;
    added = [];
    parts = refl;
    calls = sym (append-nil w.calls);
    answered = inr tt;
    all = inr why;
    no_raise = tt;
  }

  -- One message handled, and then the rest of the batch.
  IsBatch-cons :
      (msg : Message S.Bytes) (rest : List (Message S.Bytes)) (w u w' : World S.State)
      (r : Reply Unit)
      → IsHandled (shipment_of S msg) msg.id w u (returned tt)
      → IsBatch rest u w' r
      → IsBatch (msg ∷ rest) w w' r
  IsBatch-cons msg rest w u w' r h b =
      let asked : List Call = map (update (shipment_of S msg)) h.done ++ h.settlement in
      record {
        handled = msg ∷ b.handled;
        left = b.left;
        added = asked ++ b.added;
        parts = ap (λ (l : List (Message S.Bytes)). msg ∷ l) b.parts;
        calls =
            b.calls
            ∙ ap (λ (l : List Call). l ++ b.added) h.calls
            ∙ append_assoc w.calls asked b.added;
        answered = elim b.answered [
          | inl e ↦ inl e
          | inr more ↦ inr (
            Answered-append_left msg.id asked b.added (
                Answered-append_right msg.id (map (update (shipment_of S msg)) h.done) h.settlement
                  (IsSettled-Answered msg.id h.settlement h.settled)),
            AllAnswered-append_right b.handled asked b.added more,
          )
        ];
        all = b.all;
        no_raise = b.no_raise;
      }

  -- The task was cancelled while it handled the message.
  IsBatch-cancelled :
      (msg : Message S.Bytes) (rest : List (Message S.Bytes)) (w u : World S.State)
      → IsHandled (shipment_of S msg) msg.id w u cancelled
      → IsBatch (msg ∷ rest) w u cancelled
  IsBatch-cancelled msg rest w u h = record {
    handled = msg ∷ [];
    left = rest;
    added = _;
    parts = refl;
    calls = h.calls;
    answered = inl refl;
    all = inl refl;
    no_raise = tt;
  }

  -- A batch never raises. If it is not cancelled, it works off a prefix of its messages and answers
  -- each of them, and it leaves a message only if the consumer was stopped.
  pub process_batch-IsBatch :
      (msgs : List (Message S.Bytes)) (w : World S.State)
      → Leaves (process_batch S cfg msgs) w (IsBatch msgs w)
  unfolding process_batch
  process_batch-IsBatch [] w = IsBatch-nil [] w (inr refl)
  process_batch-IsBatch (msg ∷ rest) w =
      let h = process_message-IsHandled S cfg msg w in
      if-Leaves (IsBatch (msg ∷ rest) w) w.consumer.running _ _ w
        (λ _.
          bind_rule (IsBatch (msg ∷ rest) w) (process_message S cfg msg)
            (λ _. process_batch S cfg rest) w
            (λ a e. IsBatch-cons msg rest w _ _ _ (rw e at h) (process_batch-IsBatch rest _))
            (λ err e. absurd (
              let g : IsHandled (shipment_of S msg) msg.id w (process_message S cfg msg w).1
                  (raised err) =
                rw e at h in
              g.settled))
            (λ e. IsBatch-cancelled msg rest w _ (rw e at h)))
        (λ stop. IsBatch-nil (msg ∷ rest) w (inl stop))
