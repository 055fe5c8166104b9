-- ===== src/Worker/Loop/Trace.antt =====
-- The updates and acknowledgements of a whole run of the fetch loop.
use kube_delivery_platform.Prelude.{
  ℕ, String, ◌≡◌, refl, true, ◌⊎◌, List, [], ◌++◌, map, append-nil, append_assoc, ◌∙◌, ap, sym,
}
use kube_delivery_platform.Python.Value.{Value, truthy}
use kube_delivery_platform.Python.Exec.{Reply, returned, raised, cancelled}
use kube_delivery_platform.Worker.World.{World, Call, update}
use kube_delivery_platform.Worker.Consumer.{status_lifecycle}
use kube_delivery_platform.Worker.Consumer.Settle.{IsSettled, IsHandled}

-- The calls that one message may make, if handling it ended in `r`: the statuses of the lifecycle
-- from the first one on, in their order and without a gap, each asked for the same shipment, none
-- for a message that names no shipment, and then the acknowledgement.
pub record IsEpisode (r : Reply Unit) (cs : List Call) : Type 0 where
  pub shipment : Value
  pub id : ℕ
  pub done : List String
  pub rest : List String
  pub settlement : List Call
  pub parts : done ++ rest ≡ status_lifecycle
  pub calls : cs ≡ map (update shipment) done ++ settlement
  pub settled : IsSettled id r settlement
  pub poison : (truthy shipment ≡ true) ⊎ (done ≡ [])

-- What the worker promises of its calls: one message after the other, each of them acknowledged
-- before the next one begins. Only the last one may be broken off, if `Broken` holds.
pub data IsTrace (Broken : Type 0) : List Call → Type 0 where
  quiet : {cs : List Call} → cs ≡ [] → IsTrace Broken cs
  broken_off : {cs : List Call} → Broken → IsEpisode cancelled cs → IsTrace Broken cs
  message :
      {cs first more : List Call}
      → IsEpisode (returned tt) first
      → IsTrace Broken more
      → cs ≡ first ++ more
      → IsTrace Broken cs

IsTrace-append :
    {Broken : Type 0} {xs : List Call} (ys : List Call)
    → IsTrace ⊥ xs
    → IsTrace Broken ys
    → IsTrace Broken (xs ++ ys)
IsTrace-append ys (quiet e) t = rw e t
IsTrace-append ys (broken_off b h) t = absurd b
IsTrace-append ys (message {first = first} {more = more} h s e) t =
    message h (IsTrace-append ys s t)
      (ap (λ (l : List Call). l ++ ys) e ∙ append_assoc first more ys)

abbrev pub IsCancelled : {A : Type 0} → Reply A → Type 0
IsCancelled (returned a) = ⊥
IsCancelled (raised e) = ⊥
IsCancelled cancelled = Unit

-- Between `w` and `w'` such calls were made; the last message was broken off only by a cancellation.
pub record IsTraced {A State : Type 0} (w w' : World State) (r : Reply A) : Type 0 where
  pub added : List Call
  pub calls : w'.calls ≡ w.calls ++ added
  pub trace : IsTrace (IsCancelled r) added

pub IsTraced-quiet :
    {A State : Type 0} (w w' : World State) (r : Reply A) → w'.calls ≡ w.calls → IsTraced w w' r
IsTraced-quiet w w' r e = record {
  added = [];
  calls = e ∙ sym (append-nil w.calls);
  trace = quiet refl;
}

IsTrace-map :
    {Broken Broken' : Type 0} {cs : List Call}
    → (Broken → Broken')
    → IsTrace Broken cs
    → IsTrace Broken' cs
IsTrace-map f (quiet e) = quiet e
IsTrace-map f (broken_off b h) = broken_off (f b) h
IsTrace-map f (message h s e) = message h (IsTrace-map f s) e

-- The same run with another reply, as cancelled as that one.
pub IsTraced-as :
    {A B State : Type 0} (w w' : World State) (q : Reply A) (r : Reply B)
    → (IsCancelled q → IsCancelled r)
    → IsTraced w w' q
    → IsTraced w w' r
IsTraced-as w w' q r f h = record {
  added = h.added;
  calls = h.calls;
  trace = IsTrace-map f h.trace;
}

-- First a run that was not cancelled, then another.
pub IsTraced-then :
    {A B State : Type 0} (w u w' : World State) (q : Reply A) (r : Reply B)
    → (IsCancelled q → ⊥)
    → IsTraced w u q
    → IsTraced u w' r
    → IsTraced w w' r
IsTraced-then w u w' q r on a b = record {
  added = a.added ++ b.added;
  calls =
      b.calls ∙ ap (λ (l : List Call). l ++ b.added) a.calls ∙ append_assoc w.calls a.added b.added;
  trace = IsTrace-append b.added (IsTrace-map on a.trace) b.trace;
}

IsEpisode-IsHandled :
    {State : Type 0} (v : Value) (id : ℕ) (w w' : World State) (r : Reply Unit)
    → (h : IsHandled v id w w' r) → IsEpisode r (map (update v) h.done ++ h.settlement)
IsEpisode-IsHandled v id w w' r h = record {
  shipment = v;
  id = id;
  done = h.done;
  rest = h.rest;
  settlement = h.settlement;
  parts = h.parts;
  calls = refl;
  settled = h.settled;
  poison = h.poison;
}

pub IsTraced-IsHandled :
    {State : Type 0} (v : Value) (id : ℕ) (w w' : World State) (r : Reply Unit)
    → IsHandled v id w w' r
    → IsTraced w w' r
IsTraced-IsHandled v id w w' (returned u) h = record {
  added = map (update v) h.done ++ h.settlement;
  calls = h.calls;
  trace = message (IsEpisode-IsHandled v id w w' _ h) (quiet refl) (sym (append-nil _));
}
IsTraced-IsHandled v id w w' (raised e) h = absurd h.settled
IsTraced-IsHandled v id w w' cancelled h = record {
  added = map (update v) h.done ++ h.settlement;
  calls = h.calls;
  trace = broken_off tt (IsEpisode-IsHandled v id w w' _ h);
}
