-- ===== src/Worker/Lab/Laws.antt =====
-- The concrete services meet what the theorems rely on.
use kube_delivery_platform.Worker.Machine.{Others}
use kube_delivery_platform.Worker.Machine.Laws.{Executed, IsShared}
use kube_delivery_platform.Prelude.{
  sym, inl, ap, String, ◌≡◌, refl, ◌≢◌, List, [], ◌∷◌, arith, eq_iff, eq_refl,
}
use kube_delivery_platform.Python.Value.{Value, null, str}
use kube_delivery_platform.Python.Exec.{returned, NoRaise}
use kube_delivery_platform.Worker.Services.{Message}
use kube_delivery_platform.Worker.Database.{IsPostgres, IsQuiet, set_status, command_tag}
use kube_delivery_platform.Worker.Repository.Invariant.{SoleWriter}
use kube_delivery_platform.Worker.Loop.Rounds.{SleepsWell}
use kube_delivery_platform.Worker.Consumer.Tried.{NeverRestarts}
use kube_delivery_platform.Worker.Lab.{
  Lab, Turn, go, fail, cancel, stop, perform, set_row, update_row, idle, lab, status_of,
}

perform-rows :
    {A : Type 0} (plan : List Turn) (a : A) (s : Lab) (j : String)
    → (perform plan a (λ t. t) s).1.rows j ≡ s.rows j
perform-rows [] a s j = refl
perform-rows (go ∷ plan) a s j = refl
perform-rows (fail ∷ plan) a s j = refl
perform-rows (cancel ∷ plan) a s j = refl
perform-rows (stop ∷ plan) a s j = refl

idle-rows : (plan : List Turn) (s : Lab) (j : String) → (idle plan s).1.rows j ≡ s.rows j
idle-rows [] s j = refl
idle-rows (cancel ∷ plan) s j = refl
idle-rows (stop ∷ plan) s j = refl
idle-rows (_ ∷ plan) s j = refl

idle-NoRaise : (plan : List Turn) (s : Lab) → NoRaise (idle plan s).0
idle-NoRaise [] s = tt
idle-NoRaise (cancel ∷ plan) s = tt
idle-NoRaise (stop ∷ plan) s = tt
idle-NoRaise (_ ∷ plan) s = tt

set_row-rows :
    (plan : List Turn) (id st : String) (s : Lab) (tag : String)
    → (perform plan (command_tag st (s.rows id)) (set_row id st) s).0 ≡ returned tag
    → (tag ≡ command_tag st (s.rows id))
      × ((perform plan (command_tag st (s.rows id)) (set_row id st) s).1.rows id
          ≡ set_status st (s.rows id))
set_row-rows [] id st s tag h = ground (arith, eq_refl id)
set_row-rows (go ∷ plan) id st s tag h = ground (arith, eq_refl id)
set_row-rows (fail ∷ plan) id st s tag h = cc
set_row-rows (cancel ∷ plan) id st s tag h = cc
set_row-rows (stop ∷ plan) id st s tag h = ground (arith, eq_refl id)

set_row-rows_ne :
    (plan : List Turn) (id st : String) (s : Lab) (tag j : String)
    → id ≢ j
    → (perform plan tag (set_row id st) s).1.rows j ≡ s.rows j
set_row-rows_ne [] id st s tag j h = ground (arith, eq_iff j id)
set_row-rows_ne (go ∷ plan) id st s tag j h = ground (arith, eq_iff j id)
set_row-rows_ne (fail ∷ plan) id st s tag j h = refl
set_row-rows_ne (cancel ∷ plan) id st s tag j h = refl
set_row-rows_ne (stop ∷ plan) id st s tag j h = ground (arith, eq_iff j id)

update_row-rows_ne :
    (v : Value) (st : String) (s : Lab) (j : String)
    → v ≢ str j
    → (update_row v st s).1.rows j ≡ s.rows j
update_row-rows_ne (str id) st s j h = set_row-rows_ne s.plan id st s _ j (λ e. h (ap str e))
update_row-rows_ne null st s j h = refl
update_row-rows_ne _ st s j h = refl

pub lab-IsPostgres : IsPostgres lab status_of
lab-IsPostgres = record {
  executed = λ pool id st s tag h. set_row-rows s.plan id st s tag h;
  touches_one = λ pool v st s j h. update_row-rows_ne v st s j h;
}

pub lab-IsQuiet : IsQuiet lab status_of
lab-IsQuiet = record {
  sleep = λ d s j. idle-rows s.plan s j;
  acquire = λ pool s j. perform-rows s.plan 9 s j;
  release = λ conn s j. perform-rows s.plan tt s j;
  ack = λ id s j. perform-rows s.plan tt s j;
  nak = λ id d s j. perform-rows s.plan tt s j;
}

pub lab-SoleWriter : SoleWriter lab
lab-SoleWriter s r = refl

pub lab-NeverRestarts : NeverRestarts lab
lab-NeverRestarts s c h = ground arith

pub lab-SleepsWell : SleepsWell lab
lab-SleepsWell d s = idle-NoRaise s.plan s

-- Nobody else writes.
abbrev pub unshared : Others
unshared a b = a ≡ b

set_row-Executed :
    (plan : List Turn) (id st : String) (s : Lab)
    → let r = perform plan (command_tag st (s.rows id)) (set_row id st) s in
      Executed r.0 unshared st (s.rows id) (r.1.rows id)
set_row-Executed [] id st s = (s.rows id, refl, sym (set_row-rows [] id st s _ refl).1)
set_row-Executed (go ∷ plan) id st s =
    (s.rows id, refl, sym (set_row-rows (go ∷ plan) id st s _ refl).1)
set_row-Executed (fail ∷ plan) id st s = inl refl
set_row-Executed (cancel ∷ plan) id st s = inl refl
set_row-Executed (stop ∷ plan) id st s =
    (s.rows id, refl, sym (set_row-rows (stop ∷ plan) id st s _ refl).1)

fetch-rows :
    (plan : List Turn) (msgs : List (Message String)) (s : Lab) (j : String)
    → (perform plan msgs (λ t. record t { inbox = [] }) s).1.rows j ≡ s.rows j
fetch-rows [] msgs s j = refl
fetch-rows (go ∷ plan) msgs s j = refl
fetch-rows (fail ∷ plan) msgs s j = refl
fetch-rows (cancel ∷ plan) msgs s j = refl
fetch-rows (stop ∷ plan) msgs s j = refl

pub lab-IsShared : IsShared lab status_of unshared
lab-IsShared = record {
  update = λ pool id st s. set_row-Executed s.plan id st s;
  other_row = λ pool v st s id other. sym (update_row-rows_ne v st s id other);
  sleep = λ d s id. sym (idle-rows s.plan s id);
  acquire = λ pool s id. sym (perform-rows s.plan 9 s id);
  release = λ conn s id. sym (perform-rows s.plan tt s id);
  ack = λ m s id. sym (perform-rows s.plan tt s id);
  nak = λ m d s id. sym (perform-rows s.plan tt s id);
  fetch = λ psub batch d s id. sym (fetch-rows s.plan s.inbox s id);
  connect_nats = λ url s id. sym (perform-rows s.plan 7 s id);
  pull_subscribe = λ js args s id. sym (perform-rows s.plan 8 s id);
}
