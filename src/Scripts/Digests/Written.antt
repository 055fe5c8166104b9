-- ===== src/Scripts/Digests/Written.antt =====
-- The lines that are handed to GitHub Actions.
use Prim.Native.String.{◌++◌ as ◌<>◌}
use text.Mathlib.TextLemmas.{append-nil as text_append-nil, append_assoc as text_append_assoc}
use kube_delivery_platform.Prelude.{none, String, ◌≡◌, refl, List, [], ◌∷◌, arith, ap, ◌∙◌, sym}
use kube_delivery_platform.Python.Exec.{returned}
use kube_delivery_platform.Python.Text.{splitlines, split_from, is_break}
use kube_delivery_platform.Python.Text.Lines.{NoBreak, splitlines-line}
use kube_delivery_platform.Scripts.Digests.{
  Directory, Digests, collect_image_digests, digest_of, write_lines, write_github_outputs,
}
use kube_delivery_platform.Scripts.Digests.Format.{IsDigest-NoBreak, NoBreak-append}
use kube_delivery_platform.Scripts.Digests.Handoff.{collect_image_digests-IsCollected}

-- `name=digest`, and with its line feed.
abbrev pub assignment : String → String → String
assignment name digest = name <> ("=" <> digest)

abbrev line : String → String → String
line name digest = name <> ("=" <> (digest <> "\n"))

-- What is appended for two digests.
abbrev pub lines_of : String → String → String
lines_of a b = line "shipment_api_digest" a <> line "tracking_worker_digest" b

unfoldable pub two_digests : String → String → Digests
two_digests a b = ("shipment_api_digest", a) ∷ ("tracking_worker_digest", b) ∷ []

write_github_outputs-lines :
    (a b file : String)
    → write_github_outputs none (two_digests a b) file
      ≡ (returned tt, (file <> line "shipment_api_digest" a) <> line "tracking_worker_digest" b)
unfolding write_github_outputs write_lines digest_of two_digests
write_github_outputs-lines a b file = refl

line-append :
    (name digest s : String) → line name digest <> s ≡ assignment name digest <> ("\n" <> s)
line-append name digest s = simp text_append_assoc

NoBreak-names : NoBreak "shipment_api_digest" × NoBreak "tracking_worker_digest" × NoBreak "="
unfolding is_break
NoBreak-names = ground arith

NoBreak-assignment :
    (name digest : String) → NoBreak name → NoBreak digest → NoBreak (assignment name digest)
NoBreak-assignment name digest h k =
    NoBreak-append name ("=" <> digest) h (NoBreak-append "=" digest NoBreak-names.2 k)

splitlines-nil : splitlines "" ≡ []
unfolding splitlines split_from
splitlines-nil = refl

splitlines-lines_of :
    (a b : String)
    → NoBreak a
    → NoBreak b
    → splitlines (lines_of a b)
      ≡ assignment "shipment_api_digest" a ∷ assignment "tracking_worker_digest" b ∷ []
splitlines-lines_of a b h k =
    let first = assignment "shipment_api_digest" a in
    let second = assignment "tracking_worker_digest" b in
    let rest = line "tracking_worker_digest" b in
    ap splitlines (line-append "shipment_api_digest" a rest)
    ∙ splitlines-line first rest (NoBreak-assignment _ a NoBreak-names.0 h)
    ∙ ap (λ (l : List String). first ∷ l)
        (ap splitlines (sym (text_append-nil rest) ∙ line-append "tracking_worker_digest" b "")
          ∙ splitlines-line second "" (NoBreak-assignment _ b NoBreak-names.1 k)
          ∙ ap (λ (l : List String). second ∷ l) splitlines-nil)

-- What is appended for collected digests, to a file that can be opened, is two lines and no more, one
-- assignment for each output: no digest file can add an output of its own.
pub write_github_outputs-collected :
    (directory : Directory) (digests : Digests) (file : String)
    → collect_image_digests directory ≡ returned digests
    → (a b added : String) × (digests
        ≡ ("shipment_api_digest", a) ∷ ("tracking_worker_digest", b) ∷ [])
      × (write_github_outputs none digests file ≡ (returned tt, file <> added))
      × (splitlines added
          ≡ ("shipment_api_digest" <> ("=" <> a)) ∷ ("tracking_worker_digest" <> ("=" <> b)) ∷ [])
unfolding two_digests
write_github_outputs-collected directory digests file h =
    let c = collect_image_digests-IsCollected directory digests h in
    let a = c.shipment_api in
    let b = c.tracking_worker in
    (
      a,
      b,
      lines_of a b,
      c.digests_eq,
      ap (λ (d : Digests). write_github_outputs none d file) c.digests_eq
          ∙ write_github_outputs-lines a b file
          ∙ ap (λ (t : String). (returned tt, t)) (text_append_assoc file _ _),
      splitlines-lines_of a b (IsDigest-NoBreak a c.api_read.valid)
          (IsDigest-NoBreak b c.worker_read.valid),
    )

pub lines_assoc :
    (a b file : String)
    → (file <> line "shipment_api_digest" a) <> line "tracking_worker_digest" b
      ≡ file <> lines_of a b
lines_assoc a b file = text_append_assoc file _ _

pub write_github_outputs-two_digests :
    (a b file : String)
    → write_github_outputs none (two_digests a b) file ≡ (returned tt, file <> lines_of a b)
write_github_outputs-two_digests a b file =
    write_github_outputs-lines a b file
    ∙ ap (λ (t : String). (returned tt, t)) (lines_assoc a b file)
