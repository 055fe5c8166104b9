-- ===== src/Worker/Loop.antt =====
-- services/tracking-worker/src/consumer.py: connecting, the fetch loop and stopping. The endless
-- loop of `start` takes fuel, a number of rounds.
pub mod Batch
pub mod Rounds
pub mod Delivers
pub mod Trace
pub mod Runs
use kube_delivery_platform.Prelude.{
  ℕ, zero, suc, true, false, Option, none, some, List, [], ◌∷◌, if◌then◌else◌,
}
use kube_delivery_platform.Python.Exec.{
  Error, attribute_error, timeout_error, pure, raise, gets, modify, attempt, ◌>>◌, ◌>>=◌,
}
use kube_delivery_platform.Worker.Services.{Services, Config, Message, Consumer}
use kube_delivery_platform.Worker.World.{Task, await}
use kube_delivery_platform.Worker.Consumer.{process_message}

module _ (S : Services) where
  unfoldable pub set_consumer : (Consumer → Consumer) → Task S Unit
  set_consumer f = modify (λ w. record w { consumer = f w.consumer })

  unfoldable pub close_connection : Option ℕ → Task S Unit
  close_connection none = raise (attribute_error "close")
  close_connection (some nc) = await S (S.close_nats nc)

  -- `self._nc` is read again after `drain`.
  unfoldable pub disconnect : Option ℕ → Task S Unit
  disconnect none = pure tt
  disconnect (some nc) = do
    await S (S.drain nc)
    current ← gets (λ w. w.consumer.nc)
    close_connection current

  unfoldable pub stop : Task S Unit
  stop = do
    set_consumer (λ c. record c { running = false })
    nc ← gets (λ w. w.consumer.nc)
    disconnect nc

module _ (S : Services) (cfg : Config S) where
  -- A new connection is made whether or not there is an old one. A failed subscription is logged.
  unfoldable pub connect : Task S Unit
  connect = do
    nc ← await S (S.connect_nats cfg.nats_url)
    set_consumer S (λ c. record c { nc = some nc; js = some nc })
    attempt
        (do
          psub ← await S (
              S.pull_subscribe nc (record {
                subject = cfg.nats_subject;
                durable = cfg.nats_consumer_group;
                stream = cfg.nats_stream;
                max_deliver = cfg.max_retries;
              }))
          set_consumer S (λ c. record c { psub = some psub }))
        λ err. pure tt

  unfoldable pub process_batch : List (Message S.Bytes) → Task S Unit
  process_batch [] = pure tt
  process_batch (msg ∷ rest) = do
    running ← gets (λ w. w.consumer.running)
    if running then (do process_message S cfg msg; process_batch rest) else pure tt

  -- An idle queue is normal; another error is followed by a short pause.
  unfoldable pub on_fetch_error : Error → Task S Unit
  on_fetch_error timeout_error = pure tt
  on_fetch_error err = do
    running ← gets (λ w. w.consumer.running)
    if running then await S (S.sleep S.half) else pure tt

  -- One round of the loop, by whether there is a subscription.
  unfoldable pub round : Option ℕ → Task S Unit
  round none = do await S (S.sleep S.one); attempt connect λ err. pure tt
  round (some psub) =
      attempt (do msgs ← await S (S.fetch psub 5 S.one); process_batch msgs) on_fetch_error

  -- `none` says that the fuel ran out.
  unfoldable pub consume : ℕ → Task S (Option Unit)
  consume zero = pure none
  consume (suc fuel) = do
    consumer ← gets (λ w. w.consumer)
    if consumer.running then (do round consumer.psub; consume fuel) else pure (some tt)

  unfoldable pub start : ℕ → Task S (Option Unit)
  start fuel = do set_consumer S (λ c. record c { running = true }); consume fuel
