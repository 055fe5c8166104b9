-- ===== src/Worker/Database.antt =====
-- What the worker relies on in PostgreSQL: the statement of `update_shipment_status`,
--   UPDATE shipments SET status = $2, updated_at = NOW() WHERE id = $1 AND status != $2,
-- on the table `shipments`, of which the worker writes the status alone.
use kube_delivery_platform.Prelude.{
  ℕ, String, ◌≡◌, ◌≢◌, Bool, false, not, Option, none, some, List, [], ◌∷◌, ◌==◌, if◌then◌else◌,
}
use kube_delivery_platform.Python.Value.{Value, str}
use kube_delivery_platform.Python.Exec.{returned}
use kube_delivery_platform.Worker.Services.{Services}

-- The status of a row, `none` if there is no row, after the statement.
abbrev pub set_status : String → Option String → Option String
set_status st none = none
set_status st (some old) = some st

-- Whether the statement changes a row.
abbrev pub changes : String → Option String → Bool
changes st none = false
changes st (some old) = not (old == st)

-- The command tag that PostgreSQL returns.
abbrev pub command_tag : String → Option String → String
command_tag st row = if changes st row then "UPDATE 1" else "UPDATE 0"

-- The status after several statements, the first of the list first.
abbrev pub set_statuses : List String → Option String → Option String
set_statuses [] row = row
set_statuses (st ∷ rest) row = set_statuses rest (set_status st row)

-- A statement that returns has had its effect; one that raises may or may not have had it. Either
-- way only the row of the given id is touched, and a value that is no text names no row.
pub record IsPostgres (S : Services) (status_of : S.State → String → Option String) : Type 0 where
  pub executed :
      (pool : ℕ) (id st : String) (s : S.State) (tag : String)
      → (S.execute_update pool (str id) st s).0 ≡ returned tag
      → (tag ≡ command_tag st (status_of s id))
        × (status_of (S.execute_update pool (str id) st s).1 id ≡ set_status st (status_of s id))
  pub touches_one :
      (pool : ℕ) (v : Value) (st : String) (s : S.State) (j : String)
      → v ≢ str j
      → status_of (S.execute_update pool v st s).1 j ≡ status_of s j

-- Nobody else writes to the table while the worker waits, takes or gives back a connection, or
-- acknowledges.
pub record IsQuiet (S : Services) (status_of : S.State → String → Option String) : Type 0 where
  pub sleep : (d : S.Float) (s : S.State) (j : String) → status_of (S.sleep d s).1 j ≡ status_of s j
  pub acquire :
      (pool : ℕ) (s : S.State) (j : String) → status_of (S.acquire pool s).1 j ≡ status_of s j
  pub release :
      (conn : ℕ) (s : S.State) (j : String) → status_of (S.release conn s).1 j ≡ status_of s j
  pub ack : (id : ℕ) (s : S.State) (j : String) → status_of (S.ack id s).1 j ≡ status_of s j
  pub nak :
      (id : ℕ) (d : S.Float) (s : S.State) (j : String)
      → status_of (S.nak id d s).1 j ≡ status_of s j
