-- ===== src/Worker/Machine/Laws.antt =====
-- What the machine relies on in the worker's services.
use kube_delivery_platform.Prelude.{ℕ, String, ◌≢◌, ◌⊎◌, Option}
use kube_delivery_platform.Python.Value.{Value, str}
use kube_delivery_platform.Python.Exec.{Reply, returned}
use kube_delivery_platform.Worker.Services.{Services, Subscription}
use kube_delivery_platform.Worker.Database.{set_status}
use kube_delivery_platform.Worker.Machine.{Others}

-- One write, with writes of others before and after.
abbrev pub Once : Others → String → Others
Once O st a b = (m : Option String) × O a m × O (set_status st m) b

-- A statement that returned has written once. One that raised, or whose task was cancelled, has
-- written once or not at all.
abbrev pub Executed : Reply String → Others → String → Others
Executed (returned tag) O st a b = Once O st a b
Executed _ O st a b = O a b ⊎ Once O st a b

-- An UPDATE is atomic. During any other request of the consumer, and to any other row during an
-- UPDATE, there are only the writes of others.
pub record IsShared (S : Services) (status_of : S.State → String → Option String) (O : Others)
    : Type 0 where
  pub update :
      (pool : ℕ) (id st : String) (s : S.State)
      → Executed
          (S.execute_update pool (str id) st s).0
          O
          st
          (status_of s id)
          (status_of (S.execute_update pool (str id) st s).1 id)
  pub other_row :
      (pool : ℕ) (v : Value) (st : String) (s : S.State) (id : String)
      → v ≢ str id
      → O (status_of s id) (status_of (S.execute_update pool v st s).1 id)
  pub sleep :
      (d : S.Float) (s : S.State) (id : String) → O (status_of s id) (status_of (S.sleep d s).1 id)
  pub acquire :
      (pool : ℕ) (s : S.State) (id : String)
      → O (status_of s id) (status_of (S.acquire pool s).1 id)
  pub release :
      (conn : ℕ) (s : S.State) (id : String)
      → O (status_of s id) (status_of (S.release conn s).1 id)
  pub ack : (m : ℕ) (s : S.State) (id : String) → O (status_of s id) (status_of (S.ack m s).1 id)
  pub nak :
      (m : ℕ) (d : S.Float) (s : S.State) (id : String)
      → O (status_of s id) (status_of (S.nak m d s).1 id)
  pub fetch :
      (psub batch : ℕ) (d : S.Float) (s : S.State) (id : String)
      → O (status_of s id) (status_of (S.fetch psub batch d s).1 id)
  pub connect_nats :
      (url : String) (s : S.State) (id : String)
      → O (status_of s id) (status_of (S.connect_nats url s).1 id)
  pub pull_subscribe :
      (js : ℕ) (args : Subscription S.Int) (s : S.State) (id : String)
      → O (status_of s id) (status_of (S.pull_subscribe js args s).1 id)
