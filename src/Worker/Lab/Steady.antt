-- ===== src/Worker/Lab/Steady.antt =====
-- Concrete services of which none fails.
use kube_delivery_platform.Prelude.{String, ◌≡◌, refl, []}
use kube_delivery_platform.Python.Value.{Value, str, null}
use kube_delivery_platform.Python.Exec.{returned, cancelled}
use kube_delivery_platform.Worker.Services.{Services}
use kube_delivery_platform.Worker.Database.{IsPostgres, IsQuiet}
use kube_delivery_platform.Worker.Consumer.Served.{IsHealthy}
use kube_delivery_platform.Worker.Lab.{Lab, lab, update_row, status_of}
use kube_delivery_platform.Worker.Lab.Laws.{lab-IsPostgres}

abbrev calm : Lab → Lab
calm s = record s { plan = [] }

abbrev pub steady : Services
steady = record lab {
  sleep = λ d s. (returned tt, s);
  execute_update = λ pool v st s. update_row v st (calm s);
  acquire = λ pool s. (returned 9, s);
  release = λ conn s. (returned tt, s);
  ack = λ id s. (returned tt, s);
  nak = λ id d s. (returned tt, s);
  other_tasks_consumer = λ s c. c;
}

pub steady-IsPostgres : IsPostgres steady status_of
steady-IsPostgres = record {
  executed = λ pool id st s tag h. lab-IsPostgres.executed pool id st (calm s) tag h;
  touches_one = λ pool v st s j h. lab-IsPostgres.touches_one pool v st (calm s) j h;
}

pub steady-IsQuiet : IsQuiet steady status_of
steady-IsQuiet = record {
  sleep = λ d s j. refl;
  acquire = λ pool s j. refl;
  release = λ conn s j. refl;
  ack = λ id s j. refl;
  nak = λ id d s j. refl;
}

never_cancelled : (v : Value) (st : String) (s : Lab) → (update_row v st (calm s)).0 ≡ cancelled → ⊥
never_cancelled (str id) st s e = cc
never_cancelled null st s e = cc
never_cancelled _ st s e = cc

pub steady-IsHealthy : IsHealthy steady
steady-IsHealthy = record {
  sleeps = λ d s. refl;
  acquires = λ pool s. (9, refl);
  releases = λ conn s. refl;
  updates = λ pool id st s. (_, refl);
  no_cancel = λ pool v st s. never_cancelled v st s;
  acks = λ id s. refl;
  naks = λ id d s e. cc;
  sole = λ s r. refl;
  running = λ s c. refl;
}
