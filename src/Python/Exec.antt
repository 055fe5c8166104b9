-- ===== src/Python/Exec.antt =====
-- Code that changes state and may raise, and coroutines that may be cancelled at an `await`.
-- What was written before a raise stays written, so the state comes back beside every reply.
pub mod Rules
pub mod Replies
use kube_delivery_platform.Prelude.{String}

-- The exceptions below `Exception` that the program raises or tells apart.
pub data Error : Type 0 where
  value_error : String → Error
  runtime_error : String → Error
  attribute_error : String → Error
  timeout_error : Error
  other_error : String → Error

-- `cancelled` is `asyncio.CancelledError`, which is no `Exception`: `except Exception` lets it pass.
pub data Reply (A : Type 0) : Type 0 where
  returned : A → Reply A
  raised : Error → Reply A
  cancelled : Reply A

abbrev pub Exec : Type 0 → Type 0 → Type 0
Exec W A = W → Reply A × W

module _ {W : Type 0} where
  abbrev pub pure : {A : Type 0} → A → Exec W A
  pure a w = (returned a, w)

  abbrev pub raise : {A : Type 0} → Error → Exec W A
  raise e w = (raised e, w)

  abbrev pub lift : {A : Type 0} → Reply A → Exec W A
  lift r w = (r, w)

  abbrev pub gets : {A : Type 0} → (W → A) → Exec W A
  gets f w = (returned (f w), w)

  abbrev pub modify : (W → W) → Exec W Unit
  modify f w = (returned tt, f w)

  abbrev pub continue : {A B : Type 0} → Reply A → (A → Exec W B) → Exec W B
  continue (returned a) f w = f a w
  continue (raised e) f w = (raised e, w)
  continue cancelled f w = (cancelled, w)

  infixl 5 ◌>>=◌ ◌>>◌
  abbrev pub ◌>>=◌ : {A B : Type 0} → Exec W A → (A → Exec W B) → Exec W B
  ◌>>=◌ m f w = continue (m w).0 f (m w).1

  abbrev pub ◌>>◌ : {B : Type 0} → Exec W Unit → Exec W B → Exec W B
  m >> n = m >>= λ _. n

  abbrev pub handle : {A : Type 0} → Reply A → (Error → Exec W A) → Exec W A
  handle (returned a) h w = (returned a, w)
  handle (raised e) h w = h e w
  handle cancelled h w = (cancelled, w)

  -- `try: m except Exception as err: h err`
  abbrev pub attempt : {A : Type 0} → Exec W A → (Error → Exec W A) → Exec W A
  attempt m h w = handle (m w).0 h (m w).1

  -- `try: m finally: f`, for an `f` that neither raises nor awaits
  abbrev pub finally : {A : Type 0} → Exec W A → (W → W) → Exec W A
  finally m f w = ((m w).0, f (m w).1)

-- The reply is no exception, though the coroutine may have been cancelled.
abbrev pub NoRaise : {A : Type 0} → Reply A → Type 0
NoRaise (returned a) = Unit
NoRaise (raised e) = ⊥
NoRaise cancelled = Unit
