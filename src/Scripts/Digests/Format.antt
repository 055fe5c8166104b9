-- ===== src/Scripts/Digests/Format.antt =====
-- The digest pattern, described without the matcher.
use Prim.Native.Char.{Char, code}
use Prim.Native.String.{◌++◌ as ◌<>◌}
use text.Mathlib.TextEquality.{Char-path}
use text.Mathlib.TextLemmas.{nil-append, cons-append}
use kube_delivery_platform.Prelude.{
  ℕ, zero, suc, String, ◌≡◌, refl, ◌⊎◌, inl, inr, true, some, arith, ap, ◌∙◌, ◌≤◌, Option-cases,
}
use kube_delivery_platform.Python.Text.{is_break, after_prefix}
use kube_delivery_platform.Python.Text.Lines.{NoBreak}
use kube_delivery_platform.Scripts.Digests.{is_hex, hex_digits, is_digest}

-- A character among a to f and 0 to 9.
abbrev pub IsHexDigit : Char → Type 0
IsHexDigit c = ((b'a' ≤ code c) × (code c ≤ b'f')) ⊎ ((b'0' ≤ code c) × (code c ≤ b'9'))

abbrev pub AllHex : String → Type 0
AllHex String.[] = Unit
AllHex (String.◌∷◌ c s) = IsHexDigit c × AllHex s

abbrev pub characters : String → ℕ
characters String.[] = 0
characters (String.◌∷◌ c s) = suc (characters s)

-- `sha256:` and 64 lower case hexadecimal digits.
pub record IsDigest (text : String) : Type 0 where
  pub hex : String
  pub text_eq : text ≡ "sha256:" <> hex
  pub digits : AllHex hex
  pub count : characters hex ≡ 64

hex_digits_sound : (n : ℕ) (s : String) → hex_digits n s ≡ true → AllHex s × (characters s ≡ n)
unfolding hex_digits is_hex
hex_digits_sound zero String.[] h = (tt, refl)
hex_digits_sound zero (String.◌∷◌ c s) h = cc
hex_digits_sound (suc n) String.[] h = cc
hex_digits_sound (suc n) (String.◌∷◌ c s) h = ground (arith, hex_digits_sound n s)

hex_digits_complete : (s : String) → AllHex s → hex_digits (characters s) s ≡ true
unfolding hex_digits is_hex
hex_digits_complete String.[] h = refl
hex_digits_complete (String.◌∷◌ c s) h = ground (arith, hex_digits_complete s h.1)

after_prefix_sound : (lead s rest : String) → after_prefix lead s ≡ some rest → s ≡ lead <> rest
unfolding after_prefix
after_prefix_sound String.[] s rest h = rw nil-append (cc)
after_prefix_sound (String.◌∷◌ c lead) String.[] rest h = cc
after_prefix_sound (String.◌∷◌ c lead) (String.◌∷◌ d s) rest h =
    rw cons-append (ground (arith, Char-path c d, after_prefix_sound lead s rest))

pub after_prefix-append : (lead rest : String) → after_prefix lead (lead <> rest) ≡ some rest
unfolding after_prefix
after_prefix-append String.[] rest = rw nil-append
after_prefix-append (String.◌∷◌ c lead) rest =
    rw cons-append (ground (arith, after_prefix-append lead rest))

pub is_digest-IsDigest : (text : String) → is_digest text ≡ true → IsDigest text
unfolding is_digest
is_digest-IsDigest text h = elim (Option-cases (after_prefix "sha256:" text)) [
  | inl e ↦ absurd (ground arith)
  | inr (rest, e) ↦
      let (digits, n) = hex_digits_sound 64 rest (ground arith) in
      record {
        hex = rest;
        text_eq = after_prefix_sound "sha256:" text rest e;
        digits = digits;
        count = n;
      }
]

is_digest-append :
    (hex : String) → AllHex hex → characters hex ≡ 64 → is_digest ("sha256:" <> hex) ≡ true
unfolding is_digest
is_digest-append hex h n =
    let full : hex_digits 64 hex ≡ true = rw n at (hex_digits_complete hex h) in
    ground (arith, after_prefix-append "sha256:" hex, full)

pub IsDigest-is_digest : (text : String) → IsDigest text → is_digest text ≡ true
IsDigest-is_digest text d = ap is_digest d.text_eq ∙ is_digest-append d.hex d.digits d.count

-- No hexadecimal digit ends a line.
AllHex-NoBreak : (s : String) → AllHex s → NoBreak s
unfolding is_break
AllHex-NoBreak String.[] h = tt
AllHex-NoBreak (String.◌∷◌ c s) h = (ground arith, AllHex-NoBreak s h.1)

pub NoBreak-append : (s t : String) → NoBreak s → NoBreak t → NoBreak (s <> t)
NoBreak-append String.[] t h k = rw nil-append k
NoBreak-append (String.◌∷◌ c s) t h k = rw cons-append (h.0, NoBreak-append s t h.1 k)

lead-NoBreak : NoBreak "sha256:"
unfolding is_break
lead-NoBreak = ground arith

-- A digest holds no line boundary.
pub IsDigest-NoBreak : (text : String) → IsDigest text → NoBreak text
IsDigest-NoBreak text d =
    rw d.text_eq (NoBreak-append "sha256:" d.hex lead-NoBreak (AllHex-NoBreak d.hex d.digits))
