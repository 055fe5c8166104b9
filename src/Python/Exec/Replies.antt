-- ===== src/Python/Exec/Replies.antt =====
-- `do` blocks for code that may raise and changes no state.
use kube_delivery_platform.Prelude.{◌≡◌, refl}
use kube_delivery_platform.Python.Exec.{Reply, returned, raised, cancelled}

infixl 5 ◌>>=◌ ◌>>◌
abbrev pub ◌>>=◌ : {A B : Type 0} → Reply A → (A → Reply B) → Reply B
returned a >>= f = f a
raised e >>= f = raised e
cancelled >>= f = cancelled

abbrev pub ◌>>◌ : {B : Type 0} → Reply Unit → Reply B → Reply B
m >> n = m >>= λ _. n

-- Inversion of a `do` block that returned.
pub >>=-eq-returned :
    {A B : Type 0} (m : Reply A) (f : A → Reply B) {b : B}
    → (m >>= f) ≡ returned b
    → (a : A) × (m ≡ returned a) × (f a ≡ returned b)
>>=-eq-returned (returned a) f h = (a, refl, h)
>>=-eq-returned (raised e) f h = cc
>>=-eq-returned cancelled f h = cc

-- A predicate of what was returned.
pub returned_subst : {A : Type 0} (P : A → Type 0) (a b : A) → returned a ≡ returned b → P a → P b
returned_subst P a b e p = let same : a ≡ b = cc in rw same at p
