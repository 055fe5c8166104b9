-- ===== src/Scripts/Digests/Complete.antt =====
-- A complete and valid directory is accepted.
use kube_delivery_platform.Prelude.{
  String, ◌≡◌, refl, ◌↔◌, true, not, List, [], ◌∷◌, arith, ap, ◌∙◌, sym, eq_refl, filter,
}
use kube_delivery_platform.Python.Exec.{returned}
use kube_delivery_platform.Python.Text.{splitlines}
use kube_delivery_platform.Scripts.Digests.{
  Directory, Digests, expected, contains, sorted, available, difference, reject, one_line,
  read_digests, collect_image_digests,
}
use kube_delivery_platform.Scripts.Digests.Format.{IsDigest, IsDigest-is_digest}
use kube_delivery_platform.Scripts.Digests.Handoff.{
  IsRead, IsCollected, collect_image_digests-IsCollected,
}

filter_eq_nil :
    (xs ys : List String)
    → ((x : String) → contains x xs ≡ true → contains x ys ≡ true)
    → filter (λ x. not (contains x ys)) xs ≡ []
unfolding contains
filter_eq_nil [] ys h = refl
filter_eq_nil (y ∷ xs) ys h =
    ground (arith, filter_eq_nil xs ys (λ x m. h x (ground arith)), h y, eq_refl y)

reject_nothing :
    (message : String) (xs ys : List String)
    → ((x : String) → contains x xs ≡ true → contains x ys ≡ true)
    → reject message (difference xs ys) ≡ returned tt
unfolding reject difference sorted
reject_nothing message xs ys h = rw (filter_eq_nil xs ys h)

one_line_complete :
    (filename digest : String) (lines : List String)
    → lines ≡ digest ∷ []
    → IsDigest digest
    → one_line filename lines ≡ returned digest
unfolding one_line
one_line_complete filename digest lines e d = rw e (rw (IsDigest-is_digest digest d))

read_digests_complete :
    (directory : Directory) (filename name digest : String) (rest : List (String × String))
    (more : Digests)
    → IsRead directory filename digest
    → read_digests directory rest ≡ returned more
    → read_digests directory ((filename, name) ∷ rest) ≡ returned ((name, digest) ∷ more)
unfolding read_digests
read_digests_complete directory filename name digest rest more r h =
    rw (r.read, one_line_complete filename digest (splitlines r.text) r.line r.valid, h)

read_digests_nil : (directory : Directory) → read_digests directory [] ≡ returned []
unfolding read_digests
read_digests_nil directory = refl

collect_image_digests_complete :
    (directory : Directory) (digests : Digests)
    → IsCollected directory digests
    → collect_image_digests directory ≡ returned digests
unfolding collect_image_digests
collect_image_digests_complete directory digests c =
    let worker =
      read_digests_complete directory "tracking-worker.digest" "tracking_worker_digest"
        c.tracking_worker [] [] c.worker_read (read_digests_nil directory) in
    let both =
      read_digests_complete directory "shipment-api.digest" "shipment_api_digest" c.shipment_api _ _
        c.api_read worker in
    rw
      (
        reject_nothing "missing digest file: " expected (available directory.entries)
            c.none_missing,
        reject_nothing "unexpected digest file: " (available directory.entries) expected
            c.none_unexpected,
      )
      (both ∙ ap (λ (d : Digests). returned d) (sym c.digests_eq))

-- Digests are returned exactly if they are the two that the directory's only digest files, the two
-- expected ones, hold, each as a single line that is `sha256:` and 64 hexadecimal digits.
pub collect_image_digests_iff :
    (directory : Directory) (digests : Digests)
    → (collect_image_digests directory ≡ returned digests) ↔ IsCollected directory digests
collect_image_digests_iff directory digests = (
  collect_image_digests-IsCollected directory digests,
  collect_image_digests_complete directory digests,
)
