-- ===== src/Scripts/Scorecard/Cells.antt =====
-- The texts that are put into table cells.
use Prim.Native.Char.{Char, code}
use Prim.Native.String.{◌++◌ as ◌<>◌}
use text.Mathlib.TextLemmas.{nil-append, cons-append}
use kube_delivery_platform.Prelude.{
  String, ◌≡◌, refl, ◌≢◌, ◌⊎◌, inl, inr, Bool, true, false, ◌&&◌, ◌||◌, eqb, ◌==◌, arith,
  Bool-cases,
}
use kube_delivery_platform.Python.Text.{is_space, lstrip, rstrip, strip}
use kube_delivery_platform.Scripts.Scorecard.{escape, markdown}

-- A text for a cell, read from the left after a backslash or not: no pipe without a backslash
-- before it, and no line feed or carriage return.
abbrev pub IsCellAfter : Bool → String → Type 0
IsCellAfter slash String.[] = Unit
IsCellAfter slash (String.◌∷◌ c s) =
    ((slash ≡ true) ⊎ (code c ≢ b'|'))
    × (code c ≢ 10)
    × (code c ≢ 13)
    × IsCellAfter (eqb (code c) b'\\') s

abbrev pub IsCell : String → Type 0
IsCell s = IsCellAfter false s

IsCell-weaken : (slash : Bool) (s : String) → IsCell s → IsCellAfter slash s
IsCell-weaken slash String.[] h = tt
IsCell-weaken slash (String.◌∷◌ c s) (p, n, r, rest) =
    (elim p [ inl e ↦ absurd (ground arith) | inr q ↦ inr q ], n, r, rest)

IsCell-pipe : (s : String) → IsCell s → IsCell ("\\|" <> s)
IsCell-pipe s h =
    rw (cons-append, cons-append, nil-append)
      (
        inr (ground arith),
        ground arith,
        ground arith,
        (inl refl, ground arith, ground arith, IsCell-weaken _ s h),
      )

IsCell-blank : (s : String) → IsCell s → IsCell (" " <> s)
IsCell-blank s h =
    rw (cons-append, nil-append)
      (inr (ground arith), ground arith, ground arith, IsCell-weaken _ s h)

IsCell-escape : (s : String) → IsCell (escape s)
unfolding escape
IsCell-escape String.[] = tt
IsCell-escape (String.◌∷◌ c s) =
    let ih = IsCell-escape s in
    elim (Bool-cases (eqb (code c) b'|')) [
      | inl e ↦ rw e (IsCell-pipe _ ih)
      | inr e ↦ rw e (elim (Bool-cases (eqb (code c) 13 || eqb (code c) 10)) [
        | inl f ↦ rw f (IsCell-blank _ ih)
        | inr f ↦ rw f (inr (ground arith), ground arith, ground arith, IsCell-weaken _ _ ih)
      ])
    ]

space-ne-slash : (c : Char) → is_space c ≡ true → eqb (code c) b'\\' ≡ false
unfolding is_space
space-ne-slash c h = ground arith

IsCell-lstrip : (s : String) → IsCell s → IsCell (lstrip s)
unfolding lstrip
IsCell-lstrip String.[] h = tt
IsCell-lstrip (String.◌∷◌ c s) h = elim (Bool-cases (is_space c)) [
  | inl e ↦ rw e (IsCell-lstrip s (rw (space-ne-slash c e) at h.3))
  | inr e ↦ rw e h
]

IsCell-rstrip : (s : String) (slash : Bool) → IsCellAfter slash s → IsCellAfter slash (rstrip s)
unfolding rstrip
IsCell-rstrip String.[] slash h = tt
IsCell-rstrip (String.◌∷◌ c s) slash h =
    let ih = IsCell-rstrip s (eqb (code c) b'\\') h.3 in
    elim (Bool-cases (is_space c && (rstrip s == ""))) [
      | inl e ↦ rw e tt
      | inr e ↦ rw e (h.0, h.1, h.2, ih)
    ]

-- Whatever the text, what `_markdown_text` makes of it stays within its cell of a table: every pipe
-- in it follows a backslash, and it holds no line feed and no carriage return.
pub markdown-IsCell : (text : String) → IsCell (markdown text)
unfolding markdown strip
markdown-IsCell text =
    IsCell-rstrip (lstrip (escape text)) false (IsCell-lstrip (escape text) (IsCell-escape text))
