-- ===== src/Worker/Metrics.antt =====
-- services/tracking-worker/src/metrics.py. A labelled counter is the list of its increments, newest
-- first; the count of a label is how often it stands there. A gauge is its value.
use kube_delivery_platform.Prelude.{ℕ, ◌+◌, ◌-◌, String, List, [], ◌∷◌}
use kube_delivery_platform.Python.Value.{Value}

pub record Labels : Type 0 where
  pub status : String
  pub result : String

pub record Metrics : Type 0 where
  pub events_processed : List Labels
  pub processing_duration : List Value  -- one observation for each event type that stands here
  pub active_tasks : ℕ  -- decremented only after an increment of its own
  pub poison_messages : List String
  pub database_updates : List Labels

abbrev pub no_metrics : Metrics
no_metrics = record {
  events_processed = [];
  processing_duration = [];
  active_tasks = 0;
  poison_messages = [];
  database_updates = [];
}

module _ (m : Metrics) where
  -- EVENTS_PROCESSED_TOTAL.labels(status, result).inc()
  abbrev pub inc_events : String → String → Metrics
  inc_events s r = record m {
    events_processed = record { status = s; result = r } ∷ m.events_processed;
  }

  -- DATABASE_UPDATES_TOTAL.labels(status, result).inc()
  abbrev pub inc_updates : String → String → Metrics
  inc_updates s r = record m {
    database_updates = record { status = s; result = r } ∷ m.database_updates;
  }

  -- POISON_MESSAGES_TOTAL.labels(reason).inc()
  abbrev pub inc_poison : String → Metrics
  inc_poison reason = record m { poison_messages = reason ∷ m.poison_messages }

  -- EVENT_PROCESSING_DURATION.labels(event_type).observe(duration)
  abbrev pub observe : Value → Metrics
  observe event_type = record m { processing_duration = event_type ∷ m.processing_duration }

  -- WORKER_ACTIVE_TASKS.inc() and .dec()
  abbrev pub inc_active : Metrics
  inc_active = record m { active_tasks = m.active_tasks + 1 }

  abbrev pub dec_active : Metrics
  dec_active = record m { active_tasks = m.active_tasks - 1 }
