-- ===== src/Worker/Machine/Safety.antt =====
-- What the machine keeps of a row, and so a run of the consumer.
use kube_delivery_platform.Prelude.{
  ℕ, String, ◌≡◌, ◌⊎◌, inl, inr, refl, Option, none, some, List, [], ◌∷◌, arith, ap,
}
use kube_delivery_platform.Worker.Services.{Services, Config}
use kube_delivery_platform.Worker.World.{World}
use kube_delivery_platform.Worker.Database.{set_status}
use kube_delivery_platform.Worker.Consumer.{status_lifecycle}
use kube_delivery_platform.Worker.Loop.{start}
use kube_delivery_platform.Worker.Machine.{
  Row, Others, Step, begin, write, others, Reach, here, next,
}
use kube_delivery_platform.Worker.Machine.Laws.{IsShared}
use kube_delivery_platform.Worker.Machine.Refines.{start-Goes}

abbrev pub Listed : String → List String → Type 0
Listed st [] = ⊥
Listed st (x ∷ xs) = (st ≡ x) ⊎ Listed st xs

abbrev AllListed : List String → List String → Type 0
AllListed [] l = Unit
AllListed (x ∷ xs) l = Listed x l × AllListed xs l

-- The statuses that services/shipment-api/internal/domain/shipment.go knows.
abbrev pub domain_statuses : List String
domain_statuses = "PLACED" ∷ "PROCESSING" ∷ "IN_TRANSIT" ∷ "DELIVERED" ∷ "CANCELLED" ∷ "FAILED" ∷ []

-- There is no row, or its status is one of the domain's.
abbrev pub IsKnown : Option String → Type 0
IsKnown none = Unit
IsKnown (some st) = Listed st domain_statuses

-- What a row must be for the machine: its status is `P`, and what is still to do is of the lifecycle.
record Holds (P : Option String → Type 0) (r : Row) : Type 0 where
  status : P r.status
  todo : AllListed r.todo status_lifecycle

module _ (O : Others) (P : Option String → Type 0)
    (left_alone : (a b : Option String) → O a b → P a → P b)
    (written : (st : String) (a : Option String)
      → Listed st status_lifecycle
      → P a
      → P (set_status st a)) where
  AllListed-lifecycle : AllListed status_lifecycle status_lifecycle
  AllListed-lifecycle = (inl refl, (inr (inl refl), (inr (inr (inl refl)), tt)))

  Step-Holds : {r s : Row} → Step O r s → Holds P r → Holds P s
  Step-Holds (begin e) h = rw e (record { status = h.status; todo = AllListed-lifecycle })
  Step-Holds (write st rest e f) h =
      let (first, more) : AllListed (st ∷ rest) status_lifecycle = rw e at h.todo in
      rw f (record { status = written st _ first h.status; todo = more })
  Step-Holds (others o e) h = record { status = left_alone _ _ o h.status; todo = rw e h.todo }

  Reach-Holds : {r s : Row} → Holds P r → Reach O r s → Holds P s
  Reach-Holds h here = h
  Reach-Holds h (next p st) = Step-Holds st (Reach-Holds h p)

  pub start-keeps :
      (S : Services) (cfg : Config S) (status_of : S.State → String → Option String)
      (shared : IsShared S status_of O) (id : String) (fuel : ℕ) (w : World S.State)
      → P (status_of w.env id)
      → P (status_of (start S cfg fuel w).1.env id)
  start-keeps S cfg status_of shared id fuel w h =
      let (left, reach) = start-Goes S cfg status_of O shared id fuel w [] in
      (Reach-Holds (record { status = h; todo = tt }) reach).status

IsKnown-set_status :
    (st : String) (a : Option String)
    → Listed st status_lifecycle
    → IsKnown a
    → IsKnown (set_status st a)
IsKnown-set_status st none l k = tt
IsKnown-set_status st (some old) l k = ground (arith, l)

-- If others leave a status of the domain, or no row, as one, so does every run of `start`: it gives
-- no shipment a status that the domain does not know.
pub start-IsKnown :
    (S : Services) (cfg : Config S) (status_of : S.State → String → Option String) (O : Others)
    → IsShared S status_of O
    → ((a b : Option String) → O a b → IsKnown a → IsKnown b)
    → (id : String) (fuel : ℕ) (w : World S.State) → IsKnown (status_of w.env id)
    → IsKnown (status_of (start S cfg fuel w).1.env id)
start-IsKnown S cfg status_of O shared left_alone id fuel w =
    start-keeps O IsKnown left_alone IsKnown-set_status S cfg status_of shared id fuel w

none-set_status :
    (st : String) (a : Option String)
    → Listed st status_lifecycle
    → a ≡ none
    → set_status st a ≡ none
none-set_status st a l e = ap (set_status st) e

-- If others create no row, no run of `start` does: a shipment that does not exist does not exist
-- after it.
pub start-none :
    (S : Services) (cfg : Config S) (status_of : S.State → String → Option String) (O : Others)
    → IsShared S status_of O
    → ((a b : Option String) → O a b → a ≡ none → b ≡ none)
    → (id : String) (fuel : ℕ) (w : World S.State) → status_of w.env id ≡ none
    → status_of (start S cfg fuel w).1.env id ≡ none
start-none S cfg status_of O shared left_alone id fuel w =
    start-keeps O (λ a. a ≡ none) left_alone none-set_status S cfg status_of shared id fuel w
