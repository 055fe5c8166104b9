-- ===== src/Python/Text/Lines.antt =====
-- `splitlines` takes apart what was written line by line.
use Prim.Native.Char.{Char, code}
use Prim.Native.String.{◌++◌ as ◌<>◌}
use text.Mathlib.TextLemmas.{nil-append, cons-append}
use kube_delivery_platform.Prelude.{String, ◌≡◌, refl, false, [], ◌∷◌, eqb, arith, ap, ◌∙◌}
use kube_delivery_platform.Python.Text.{is_break, cons_head, split_from, splitlines}

-- The text holds no line boundary.
abbrev pub NoBreak : String → Type 0
NoBreak String.[] = Unit
NoBreak (String.◌∷◌ c s) = (is_break c ≡ false) × NoBreak s

-- A character that is no boundary is no carriage return.
not_return : (c : Char) → is_break c ≡ false → eqb (code c) 13 ≡ false
unfolding is_break
not_return c h = ground arith

split_from-cons :
    (c : Char) (s : String)
    → is_break c ≡ false
    → split_from false (String.◌∷◌ c s) ≡ cons_head c (split_from false s)
unfolding split_from
split_from-cons c s h = ground (arith, not_return c h)

newline : (s : String) → split_from false ("\n" <> s) ≡ "" ∷ split_from false s
unfolding split_from is_break
newline s = rw (cons-append, nil-append)

cons_head-nil : (c : Char) → cons_head c (split_from false "") ≡ String.◌∷◌ c "" ∷ []
unfolding split_from
cons_head-nil c = refl

-- A line that is ended by a line feed is the first line.
pub splitlines-line :
    (line s : String) → NoBreak line → splitlines (line <> ("\n" <> s)) ≡ line ∷ splitlines s
unfolding splitlines
splitlines-line String.[] s h = ap (split_from false) (nil-append ("\n" <> s)) ∙ newline s
splitlines-line (String.◌∷◌ c line) s (b, h) =
    ap (split_from false) (cons-append c line ("\n" <> s))
    ∙ split_from-cons c _ b
    ∙ ap (cons_head c) (splitlines-line line s h)

-- A text that is not empty and holds no boundary is its only line.
pub splitlines-single :
    (c : Char) (line : String)
    → NoBreak (String.◌∷◌ c line)
    → splitlines (String.◌∷◌ c line) ≡ String.◌∷◌ c line ∷ []
unfolding splitlines
splitlines-single c String.[] (b, h) = split_from-cons c _ b ∙ cons_head-nil c
splitlines-single c (String.◌∷◌ d line) (b, h) =
    split_from-cons c _ b ∙ ap (cons_head c) (splitlines-single d line h)
