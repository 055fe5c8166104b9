-- ===== src/Worker/Machine.antt =====
-- The writes that a row sees: an abstract machine over one shipment's row, which the worker's passes
-- over the lifecycle and the writes of others move.
pub mod Laws
pub mod Passes
pub mod Messages
pub mod Refines
pub mod Safety
use kube_delivery_platform.Prelude.{String, ◌≡◌, Option, List, ◌∷◌}
use kube_delivery_platform.Worker.Database.{set_status}
use kube_delivery_platform.Worker.Consumer.{status_lifecycle}

-- The status of the row, `none` if there is none, and the statuses that the pass under way has
-- still to set.
pub record Row : Type 0 where
  pub status : Option String
  pub todo : List String

-- What others may do to the status between two writes of the worker.
abbrev pub Others : Type 1
Others = Option String → Option String → Type 0

-- A pass may begin at any time with the whole lifecycle and drops what an earlier pass left. It sets
-- statuses of the lifecycle only, and may stop anywhere.
pub data Step (O : Others) (r : Row) (r' : Row) : Type 0 where
  begin : r' ≡ record { status = r.status; todo = status_lifecycle } → Step O r r'
  write :
      (st : String) (rest : List String)
      → r.todo ≡ st ∷ rest
      → r' ≡ record { status = set_status st r.status; todo = rest }
      → Step O r r'
  others : O r.status r'.status → r'.todo ≡ r.todo → Step O r r'

-- In the order of time.
pub data Reach (O : Others) (r : Row) : Row → Type 0 where
  here : Reach O r r
  next : {s t : Row} → Reach O r s → Step O s t → Reach O r t

module _ {O : Others} where
  pub Reach-trans : {r s t : Row} → Reach O r s → Reach O s t → Reach O r t
  Reach-trans p here = p
  Reach-trans p (next q st) = next (Reach-trans p q) st

  pub Reach-Step : {r s : Row} → Step O r s → Reach O r s
  Reach-Step st = next here st
