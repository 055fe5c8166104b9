-- ===== src/Worker/Loop/Rounds.antt =====
-- What the fetch loop keeps up, and how it ends.
use kube_delivery_platform.Prelude.{
  ℕ, zero, suc, ◌≡◌, refl, true, false, inl, inr, Option, none, some, List, [], ◌∷◌, arith, ◌∙◌,
  Bool-cases,
}
use kube_delivery_platform.Python.Exec.{
  Error, timeout_error, Reply, returned, raised, cancelled, NoRaise, ◌>>=◌,
}
use kube_delivery_platform.Python.Exec.Rules.{Leaves, if-Leaves, bind_rule, attempt_rule}
use kube_delivery_platform.Worker.Services.{Services, Config, Message, Consumer}
use kube_delivery_platform.Worker.World.{World, await}
use kube_delivery_platform.Worker.Consumer.{process_message}
use kube_delivery_platform.Worker.Consumer.Tried.{NeverRestarts}
use kube_delivery_platform.Worker.Consumer.Counts.{process_message-IsCounted}
use kube_delivery_platform.Worker.Loop.{
  set_consumer, connect, process_batch, on_fetch_error, round, consume, start, stop, disconnect,
  close_connection,
}

-- `asyncio.sleep` ends or is cancelled.
abbrev pub SleepsWell : Services → Type 0
SleepsWell S = (d : S.Float) (s : S.State) → NoRaise (S.sleep d s).0

-- A run that ended by itself found the consumer stopped. No run raises.
abbrev pub IsEnded : {State : Type 0} → World State → Reply (Option Unit) → Type 0
IsEnded w (returned none) = Unit
IsEnded w (returned (some u)) = w.consumer.running ≡ false
IsEnded w (raised e) = ⊥
IsEnded w cancelled = Unit

-- What a run of the loop keeps up. It ends by itself only when the consumer is stopped.
pub record IsRun {State : Type 0} (w w' : World State) (r : Reply (Option Unit)) : Type 0 where
  pub active : w'.metrics.active_tasks ≡ w.metrics.active_tasks
  pub ended : IsEnded w' r

module _ (S : Services) (cfg : Config S) (well : SleepsWell S) where
  abbrev Same : World S.State → World S.State → Reply Unit → Type 0
  Same w w' r = w'.metrics.active_tasks ≡ w.metrics.active_tasks

  active-process_batch :
      (msgs : List (Message S.Bytes)) (w : World S.State)
      → Leaves (process_batch S cfg msgs) w (Same w)
  unfolding process_batch
  active-process_batch [] w = refl
  active-process_batch (msg ∷ rest) w =
      let h = (process_message-IsCounted S cfg msg w).active in
      if-Leaves (Same w) w.consumer.running _ _ w
        (λ _.
          bind_rule (Same w) (process_message S cfg msg) (λ _. process_batch S cfg rest) w
            (λ _ _. active-process_batch rest _ ∙ h) (λ _ _. h) (λ _. h))
        (λ _. refl)

  active-connect : (w : World S.State) → Leaves (connect S cfg) w (Same w)
  unfolding connect set_consumer
  active-connect w = ground arith

  on_fetch_error-IsCalm :
      (e : Error) (w : World S.State)
      → NoRaise (on_fetch_error S cfg e w).0
        × Same w (on_fetch_error S cfg e w).1 (on_fetch_error S cfg e w).0
  unfolding on_fetch_error
  on_fetch_error-IsCalm timeout_error w = (tt, refl)
  on_fetch_error-IsCalm _ w = ground (arith, well S.half w.env)

  abbrev Calm : World S.State → World S.State → Reply Unit → Type 0
  Calm w w' r = NoRaise r × (w'.metrics.active_tasks ≡ w.metrics.active_tasks)

  abbrev fetched : ℕ → World S.State → Reply Unit × World S.State
  fetched psub = do msgs ← await S (S.fetch psub 5 S.one); process_batch S cfg msgs

  active-fetched : (psub : ℕ) (w : World S.State) → Leaves (fetched psub) w (Same w)
  active-fetched psub w =
      bind_rule (Same w) (await S (S.fetch psub 5 S.one)) (process_batch S cfg) w
        (λ msgs _. active-process_batch msgs _) (λ _ _. refl) λ _. refl

  round-Calm : (psub : Option ℕ) (w : World S.State) → Leaves (round S cfg psub) w (Calm w)
  unfolding round
  round-Calm none w =
      bind_rule (Calm w) (await S (S.sleep S.one)) _ w
        (λ a e.
          attempt_rule (Calm w) (connect S cfg) _ _ (λ b f. (tt, active-connect _))
            (λ err f. (tt, active-connect _)) λ f. (tt, active-connect _))
        (λ err e. absurd (rw e at (well S.one w.env))) λ e. (tt, refl)
  round-Calm (some psub) w =
      let same = active-fetched psub w in
      attempt_rule (Calm w) (fetched psub) (on_fetch_error S cfg) w (λ _ _. (tt, same))
        (λ err _.
          let (calm, kept) = on_fetch_error-IsCalm err (fetched psub w).1 in (calm, kept ∙ same))
        λ _. (tt, same)

  pub consume-IsRun : (fuel : ℕ) (w : World S.State) → Leaves (consume S cfg fuel) w (IsRun w)
  unfolding consume
  consume-IsRun zero w = record { active = refl; ended = tt }
  consume-IsRun (suc fuel) w =
      let h = round-Calm w.consumer.psub w in
      if-Leaves (IsRun w) w.consumer.running _ _ w
        (λ _.
          bind_rule (IsRun w) (round S cfg w.consumer.psub) (λ _. consume S cfg fuel) w
            (λ _ _.
              let ih = consume-IsRun fuel (round S cfg w.consumer.psub w).1 in
              record { active = ih.active ∙ h.1; ended = ih.ended })
            (λ err e. absurd (let g : ⊥ = rw e at h.0 in g))
            λ e. record { active = h.1; ended = tt })
        λ stop. record { active = refl; ended = stop }

  -- However fetching, subscribing or processing goes wrong, the loop of `start` raises nothing; it
  -- ends by itself only once the consumer is stopped, and the gauge of active tasks is as before.
  pub start-IsRun : (fuel : ℕ) (w : World S.State) → Leaves (start S cfg fuel) w (IsRun w)
  unfolding start set_consumer
  start-IsRun fuel w =
      let h = consume-IsRun fuel (record w { consumer = record w.consumer { running = true } }) in
      record { active = h.active; ended = h.ended }

module _ (S : Services) (keeps : NeverRestarts S) where
  pub stays_stopped :
      (s : S.State) (c : Consumer)
      → c.running ≡ false
      → (S.other_tasks_consumer s c).running ≡ false
  stays_stopped s c h = elim (Bool-cases (S.other_tasks_consumer s c).running) [
    | inl up ↦ absurd (ground (arith, keeps s c up))
    | inr down ↦ down
  ]

  abbrev pub Stopped : World S.State → Reply Unit → Type 0
  Stopped w' r = w'.consumer.running ≡ false

  close_connection-Stopped :
      (nc : Option ℕ) (w : World S.State)
      → w.consumer.running ≡ false
      → Leaves (close_connection S nc) w Stopped
  unfolding close_connection
  close_connection-Stopped none w h = h
  close_connection-Stopped (some nc) w h = stays_stopped _ w.consumer h

  disconnect-Stopped :
      (nc : Option ℕ) (w : World S.State)
      → w.consumer.running ≡ false
      → Leaves (disconnect S nc) w Stopped
  unfolding disconnect
  disconnect-Stopped none w h = h
  disconnect-Stopped (some nc) w h =
      let drained = stays_stopped (S.drain nc w.env).1 w.consumer h in
      bind_rule Stopped (await S (S.drain nc)) _ w (λ a _. close_connection-Stopped _ _ drained)
        (λ err _. drained) λ _. drained

  pub stop-Stopped : (w : World S.State) → Leaves (stop S) w Stopped
  unfolding stop set_consumer
  stop-Stopped w = disconnect-Stopped w.consumer.nc _ refl

  -- After `stop`, even one that raised or was cancelled, the fetch loop ends in its next round,
  -- without a request and without a change.
  pub consume-stop :
      (cfg : Config S) (fuel : ℕ) (w : World S.State)
      → consume S cfg (suc fuel) (stop S w).1 ≡ (returned (some tt), (stop S w).1)
  unfolding consume
  consume-stop cfg fuel w = ground (arith, stop-Stopped w)
