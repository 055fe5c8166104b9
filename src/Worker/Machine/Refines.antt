-- ===== src/Worker/Machine/Refines.antt =====
-- The consumer along the machine: a round of the fetch loop, and a run of `start`.
use kube_delivery_platform.Prelude.{ℕ, zero, suc, String, inl, inr, Option, none, some, true}
use kube_delivery_platform.Python.Exec.{Reply, Error, timeout_error, ◌>>=◌}
use kube_delivery_platform.Python.Exec.Rules.{
  Reply-cases, Leaves, if-Leaves, bind_rule, attempt_rule,
}
use kube_delivery_platform.Worker.Services.{Services, Config, Subscription}
use kube_delivery_platform.Worker.World.{World, await}
use kube_delivery_platform.Worker.Loop as Loop
use kube_delivery_platform.Worker.Loop.{
  set_consumer, process_batch, on_fetch_error, round, consume, start,
}
use kube_delivery_platform.Worker.Machine.{Others, here}
use kube_delivery_platform.Worker.Machine.Laws.{IsShared}
use kube_delivery_platform.Worker.Machine.Messages.{
  Goes, Still, Goes-refl, Goes-trans, Goes-Still, still, then-Still, process_batch-Moves,
}

module _ (S : Services) (cfg : Config S) (status_of : S.State → String → Option String) (O : Others)
    (shared : IsShared S status_of O) (id : String) where
  -- The notions of the machine for this section's services and shipment.
  abbrev Quiet : S.State → S.State → Type 0
  Quiet = Still S cfg status_of O shared id

  abbrev Went : S.State → S.State → Type 0
  Went = Goes S cfg status_of O shared id

  abbrev Moved : {A : Type 0} → World S.State → World S.State → Reply A → Type 0
  Moved w w' r = Went w.env w'.env

  quiet : (s t : S.State) → O (status_of s id) (status_of t id) → Quiet s t
  quiet = still S cfg status_of O shared id

  then-Quiet : (s t u : S.State) → Quiet s t → Quiet t u → Quiet s u
  then-Quiet = then-Still S cfg status_of O shared id

  stay : (s t : S.State) → Quiet s t → Went s t
  stay = Goes-Still S cfg status_of O shared id

  along : (s t u : S.State) → Went s t → Went t u → Went s u
  along = Goes-trans S cfg status_of O shared id

  connect-Still : (w : World S.State) → Leaves (Loop.connect S cfg) w (λ w' r. Quiet w.env w'.env)
  unfolding Loop.connect set_consumer
  connect-Still w =
      let s = (S.connect_nats cfg.nats_url w.env).1 in
      let one = quiet w.env s (shared.connect_nats cfg.nats_url w.env id) in
      elim (Reply-cases (S.connect_nats cfg.nats_url w.env).0) [
        | inl (nc, e) ↦
            let args : Subscription S.Int = record {
              subject = cfg.nats_subject;
              durable = cfg.nats_consumer_group;
              stream = cfg.nats_stream;
              max_deliver = cfg.max_retries;
            } in
            let both =
              then-Quiet _ _ _ one
                (quiet s (S.pull_subscribe nc args s).1 (shared.pull_subscribe nc args s id)) in
            rw e (elim (Reply-cases (S.pull_subscribe nc args s).0) [
              | inl (psub, f) ↦ rw f both
              | inr (inl (err, f)) ↦ rw f both
              | inr (inr f) ↦ rw f both
            ])
        | inr (inl (err, e)) ↦ rw e one
        | inr (inr e) ↦ rw e one
      ]

  on_fetch_error-Still :
      (err : Error) (w : World S.State)
      → Leaves (on_fetch_error S cfg err) w (λ w' r. Quiet w.env w'.env)
  unfolding on_fetch_error
  on_fetch_error-Still timeout_error w = λ t. here
  on_fetch_error-Still _ w =
      if-Leaves (λ w' r. Quiet w.env w'.env) w.consumer.running _ _ w
        (λ _. quiet w.env _ (shared.sleep S.half w.env id)) (λ _. λ t. here)

  abbrev fetched : ℕ → World S.State → Reply Unit × World S.State
  fetched psub = do msgs ← await S (S.fetch psub 5 S.one); process_batch S cfg msgs

  fetched-Moves : (psub : ℕ) (w : World S.State) → Leaves (fetched psub) w (Moved w)
  fetched-Moves psub w =
      let asked = stay _ _ (quiet w.env _ (shared.fetch psub 5 S.one w.env id)) in
      bind_rule (Moved w) (await S (S.fetch psub 5 S.one)) (process_batch S cfg) w
        (λ msgs _. along _ _ _ asked (process_batch-Moves S cfg status_of O shared id msgs _))
        (λ _ _. asked) (λ _. asked)

  round-Moves : (psub : Option ℕ) (w : World S.State) → Leaves (round S cfg psub) w (Moved w)
  unfolding round
  round-Moves none w =
      let slept = stay _ _ (quiet w.env _ (shared.sleep S.one w.env id)) in
      bind_rule (Moved w) (await S (S.sleep S.one)) _ w
        (λ a e.
          let u = (await S (S.sleep S.one) w).1 in
          let connected = along _ _ _ slept (stay _ _ (connect-Still u)) in
          attempt_rule (Moved w) (Loop.connect S cfg) _ u (λ _ _. connected) (λ _ _. connected)
            (λ _. connected))
        (λ _ _. slept) (λ _. slept)
  round-Moves (some psub) w =
      let done = fetched-Moves psub w in
      attempt_rule (Moved w) (fetched psub) (on_fetch_error S cfg) w (λ _ _. done)
        (λ err _. along _ _ _ done (stay _ _ (on_fetch_error-Still err _))) (λ _. done)

  consume-Moves : (fuel : ℕ) (w : World S.State) → Leaves (consume S cfg fuel) w (Moved w)
  unfolding consume
  consume-Moves zero w = Goes-refl S cfg status_of O shared id w.env
  consume-Moves (suc fuel) w =
      let one = round-Moves w.consumer.psub w in
      if-Leaves (Moved w) w.consumer.running _ _ w
        (λ _.
          bind_rule (Moved w) (round S cfg w.consumer.psub) (λ _. consume S cfg fuel) w
            (λ _ _. along _ _ _ one (consume-Moves fuel _)) (λ _ _. one) (λ _. one))
        (λ _. Goes-refl S cfg status_of O shared id w.env)

  -- However long `start` runs and however it ends, with errors and cancellations anywhere, it has
  -- taken each shipment's row along steps of the machine.
  pub start-Goes :
      (fuel : ℕ) (w : World S.State)
      → Goes S cfg status_of O shared id w.env (start S cfg fuel w).1.env
  unfolding start set_consumer
  start-Goes fuel w =
      consume-Moves fuel (record w { consumer = record w.consumer { running = true } })
