-- ===== src/Worker/Loop/Delivers.antt =====
-- A batch while nothing fails.
use kube_delivery_platform.Prelude.{
  String, ◌≡◌, ◌≢◌, refl, true, false, ◌⊎◌, inl, inr, Option, none, some, List, [], ◌∷◌, ◌++◌,
  arith, ◌∙◌, ap, Bool, Bool-cases, eq_iff, ◌==◌, ◌||◌, if◌then◌else◌, subst,
}
use kube_delivery_platform.Python.Value.{Value, null, str, truthy}
use kube_delivery_platform.Python.Exec.{Reply, returned}
use kube_delivery_platform.Worker.Services.{Services, Config, Message}
use kube_delivery_platform.Worker.World.{World, Call}
use kube_delivery_platform.Worker.Database.{IsPostgres, IsQuiet, set_status}
use kube_delivery_platform.Worker.Consumer.{process_message}
use kube_delivery_platform.Worker.Consumer.Tried.{shipment_of}
use kube_delivery_platform.Worker.Consumer.Acked.{whole}
use kube_delivery_platform.Worker.Consumer.Frame.{process_message-frame}
use kube_delivery_platform.Worker.Consumer.Served.{IsHealthy, IsUp}
use kube_delivery_platform.Worker.Consumer.Delivered.{process_message-IsUp, process_message-served}
use kube_delivery_platform.Worker.Loop.{process_batch}
use kube_delivery_platform.Worker.Loop.Batch.{IsBatch, AllAnswered, process_batch-IsBatch}

module _ (S : Services) where
  -- Some message of the batch is the event of the shipment `id`.
  abbrev Names : List (Message S.Bytes) → String → Type 0
  Names [] id = ⊥
  Names (msg ∷ rest) id = (shipment_of S msg ≡ str id) ⊎ Names rest id

  -- No message of the batch names the shipment.
  abbrev Omits : List (Message S.Bytes) → String → Type 0
  Omits [] id = Unit
  Omits (msg ∷ rest) id = (shipment_of S msg ≢ str id) × Omits rest id

  -- Whether a message of the batch names the shipment.
  abbrev is_event : Value → String → Bool
  is_event (str named) id = named == id
  is_event _ id = false

  abbrev pub names : List (Message S.Bytes) → String → Bool
  names [] id = false
  names (msg ∷ rest) id = is_event (shipment_of S msg) id || names rest id

  is_event-cases :
      (v : Value) (id : String)
      → ((is_event v id ≡ true) × (v ≡ str id)) ⊎ ((is_event v id ≡ false) × (v ≢ str id))
  is_event-cases (str named) id = elim (Bool-cases (named == id)) [
    | inl e ↦ inl (e, ap str ((eq_iff named id).0 e))
    | inr e ↦ inr (e, λ h. ground (arith, eq_iff named id))
  ]
  is_event-cases null id = inr (refl, λ h. cc)
  is_event-cases _ id = inr (refl, λ h. cc)

  names-cases :
      (msgs : List (Message S.Bytes)) (id : String)
      → ((names msgs id ≡ true) × Names msgs id) ⊎ ((names msgs id ≡ false) × Omits msgs id)
  names-cases [] id = inr (refl, tt)
  names-cases (msg ∷ rest) id = elim (is_event-cases (shipment_of S msg) id) [
    | inl (e, named) ↦ inl (rw e refl, inl named)
    | inr (e, other) ↦ elim (names-cases rest id) [
      | inl (f, named) ↦ inl (rw (e, f) refl, inr named)
      | inr (f, omitted) ↦ inr (rw (e, f) refl, (other, omitted))
    ]
  ]

  -- Nothing of the batch is left, and every message was answered.
  worked_off :
      (msgs : List (Message S.Bytes)) (w w' : World S.State) (r : Reply Unit)
      → r ≡ returned tt
      → IsUp w'
      → IsBatch msgs w w' r
      → (added : List Call) × (w'.calls ≡ w.calls ++ added) × AllAnswered msgs added
  worked_off msgs w w' r done up b =
      let none_left : b.left ≡ [] = ground (arith, b.all, done, up) in
      let all = whole b.handled b.left msgs b.parts none_left in
      let answered : AllAnswered b.handled b.added = elim b.answered [
        | inl e ↦ absurd (cc)
        | inr a ↦ a
      ] in
      (b.added, b.calls, subst (λ (l : List (Message S.Bytes)). AllAnswered l b.added) all answered)

  module _ (cfg : Config S) (h : IsHealthy S) (status_of : S.State → String → Option String)
      (pg : IsPostgres S status_of) (quiet : IsQuiet S status_of) where
    process_batch-cons :
        (msg : Message S.Bytes) (rest : List (Message S.Bytes)) (w : World S.State)
        → IsUp w
        → process_batch S cfg (msg ∷ rest) w
          ≡ process_batch S cfg rest (process_message S cfg msg w).1
    unfolding process_batch
    process_batch-cons msg rest w up = ground (arith, up, (process_message-IsUp S cfg h msg w up).0)

    process_batch-IsUp :
        (msgs : List (Message S.Bytes)) (w : World S.State)
        → IsUp w
        → ((process_batch S cfg msgs w).0 ≡ returned tt) × IsUp (process_batch S cfg msgs w).1
    unfolding process_batch
    process_batch-IsUp [] w up = (refl, up)
    process_batch-IsUp (msg ∷ rest) w up =
        rw (process_batch-cons msg rest w up)
          (process_batch-IsUp rest _ (process_message-IsUp S cfg h msg w up).1)

    process_batch-Omits :
        (msgs : List (Message S.Bytes)) (w : World S.State) (id : String)
        → IsUp w
        → Omits msgs id
        → status_of (process_batch S cfg msgs w).1.env id ≡ status_of w.env id
    unfolding process_batch
    process_batch-Omits [] w id up o = refl
    process_batch-Omits (msg ∷ rest) w id up (o, os) = rw (process_batch-cons msg rest w up) (
        process_batch-Omits rest _ id (process_message-IsUp S cfg h msg w up).1 os
        ∙ process_message-frame S cfg status_of pg quiet id msg w o)

    -- A shipment that is delivered stays so, and one that the batch names becomes so.
    set_status-twice :
        (row row' : Option String)
        → row' ≡ set_status "DELIVERED" row
        → set_status "DELIVERED" row' ≡ set_status "DELIVERED" row
    set_status-twice none row' e = rw e refl
    set_status-twice (some old) row' e = rw e refl

    after_one :
        (msg : Message S.Bytes) (rest : List (Message S.Bytes)) (w : World S.State) (id : String)
        (row : Option String)
        → IsUp w
        → truthy (str id) ≡ true
        → (status_of w.env id ≡ set_status "DELIVERED" row)
          ⊎ ((status_of w.env id ≡ row) × Names (msg ∷ rest) id)
        → let w' = (process_message S cfg msg w).1 in
          (status_of w'.env id ≡ set_status "DELIVERED" row)
          ⊎ ((status_of w'.env id ≡ row) × Names rest id)
    after_one msg rest w id row up event before = elim (is_event-cases (shipment_of S msg) id) [
      | inl (e, named) ↦
          let served =
            (process_message-served S cfg h status_of pg quiet msg id w up named event).2 in
          inl (elim before [
            | inl f ↦ served ∙ set_status-twice row (status_of w.env id) f
            | inr (f, n) ↦ served ∙ ap (set_status "DELIVERED") f
          ])
      | inr (e, other) ↦
          let same = process_message-frame S cfg status_of pg quiet id msg w other in
          elim before [
            | inl e ↦ inl (same ∙ e)
            | inr (e, inl named) ↦ absurd (other named)
            | inr (e, inr n) ↦ inr (same ∙ e, n)
          ]
    ]

    delivers :
        (msgs : List (Message S.Bytes)) (w : World S.State) (id : String) (row : Option String)
        → IsUp w
        → truthy (str id) ≡ true
        → (status_of w.env id ≡ set_status "DELIVERED" row)
          ⊎ ((status_of w.env id ≡ row) × Names msgs id)
        → status_of (process_batch S cfg msgs w).1.env id ≡ set_status "DELIVERED" row
    unfolding process_batch
    delivers [] w id row up event (inl e) = e
    delivers [] w id row up event (inr (e, n)) = absurd n
    delivers (msg ∷ rest) w id row up event cases = rw (process_batch-cons msg rest w up) (
        delivers rest _ id row (process_message-IsUp S cfg h msg w up).1 event
          (after_one msg rest w id row up event cases))

    -- While nothing fails, nobody else writes, the consumer runs and there is a pool: however a batch is
    -- made up, it is worked off, every message is answered, and the worker is up for the next batch.
    -- A shipment whose id is not empty is `DELIVERED` afterwards, if it exists, when a message of the
    -- batch names it, and else as before.
    pub process_batch-delivers :
        (msgs : List (Message S.Bytes)) (id : String) (w : World S.State)
        → IsUp w
        → truthy (str id) ≡ true
        → let (r, w') = process_batch S cfg msgs w in
          let row = status_of w.env id in
          (r ≡ returned tt)
          × IsUp w'
          × ((added : List Call) × (w'.calls ≡ w.calls ++ added) × AllAnswered msgs added)
          × (status_of w'.env id ≡ (if names msgs id then set_status "DELIVERED" row else row))
    process_batch-delivers msgs id w up event =
        let (done, up') = process_batch-IsUp msgs w up in
        (
          done,
          up',
          worked_off msgs w _ _ done up' (process_batch-IsBatch S cfg msgs w),
          elim (names-cases msgs id) [
            | inl (e, named) ↦
                rw e (delivers msgs w id (status_of w.env id) up event (inr (refl, named)))
            | inr (e, omitted) ↦ rw e (process_batch-Omits msgs w id up omitted)
          ],
        )
