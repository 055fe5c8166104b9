-- ===== src/Python/Exec/Rules.antt =====
-- Rules for properties of what an action leaves: its reply, and the state beside it.
use kube_delivery_platform.Prelude.{◌≡◌, refl, ◌⊎◌, inl, inr, Bool, true, false, if◌then◌else◌}
use kube_delivery_platform.Python.Exec.{
  Error, Reply, returned, raised, cancelled, Exec, continue, handle, ◌>>=◌, attempt,
}

pub Reply-cases :
    {A : Type 0} (r : Reply A)
    → ((a : A) × (r ≡ returned a)) ⊎ ((e : Error) × (r ≡ raised e)) ⊎ (r ≡ cancelled)
Reply-cases (returned a) = inl (a, refl)
Reply-cases (raised e) = inr (inl (e, refl))
Reply-cases cancelled = inr (inr refl)

-- `P` holds of the reply and the state that `m` leaves from `w`.
abbrev pub Leaves : {W A : Type 0} → Exec W A → W → (W → Reply A → Type 0) → Type 0
Leaves m w P = P (m w).1 (m w).0

module _ {W A : Type 0} (P : W → Reply A → Type 0) where
  pub if-Leaves :
      (b : Bool) (m n : Exec W A) (w : W)
      → (b ≡ true → Leaves m w P)
      → (b ≡ false → Leaves n w P)
      → Leaves (if b then m else n) w P
  if-Leaves true m n w t f = t refl
  if-Leaves false m n w t f = f refl

  attempt-Leaves :
      (r : Reply A) (h : Error → Exec W A) (w : W)
      → ((a : A) → r ≡ returned a → P w (returned a))
      → ((e : Error) → r ≡ raised e → Leaves (h e) w P)
      → (r ≡ cancelled → P w cancelled)
      → Leaves (handle r h) w P
  attempt-Leaves (returned a) h w x y z = x a refl
  attempt-Leaves (raised e) h w x y z = y e refl
  attempt-Leaves cancelled h w x y z = z refl

  pub attempt_rule :
      (m : Exec W A) (h : Error → Exec W A) (w : W)
      → ((a : A) → (m w).0 ≡ returned a → P (m w).1 (returned a))
      → ((e : Error) → (m w).0 ≡ raised e → Leaves (h e) (m w).1 P)
      → ((m w).0 ≡ cancelled → P (m w).1 cancelled)
      → Leaves (attempt m h) w P
  attempt_rule m h w = attempt-Leaves (m w).0 h (m w).1

module _ {W A B : Type 0} (P : W → Reply B → Type 0) where
  continue-Leaves :
      (r : Reply A) (f : A → Exec W B) (w : W)
      → ((a : A) → r ≡ returned a → Leaves (f a) w P)
      → ((e : Error) → r ≡ raised e → P w (raised e))
      → (r ≡ cancelled → P w cancelled)
      → Leaves (continue r f) w P
  continue-Leaves (returned a) f w x y z = x a refl
  continue-Leaves (raised e) f w x y z = y e refl
  continue-Leaves cancelled f w x y z = z refl

  pub bind_rule :
      (m : Exec W A) (f : A → Exec W B) (w : W)
      → ((a : A) → (m w).0 ≡ returned a → Leaves (f a) (m w).1 P)
      → ((e : Error) → (m w).0 ≡ raised e → P (m w).1 (raised e))
      → ((m w).0 ≡ cancelled → P (m w).1 cancelled)
      → Leaves (m >>= f) w P
  bind_rule m f w = continue-Leaves (m w).0 f (m w).1
