-- ===== src/Scripts/Digests/Handoff.antt =====
-- What the collected digests are, and what is written of them.
use kube_delivery_platform.Prelude.{
  String, ◌≡◌, refl, ◌≢◌, true, not, List, [], ◌∷◌, arith, eq_iff, filter,
}
use kube_delivery_platform.Python.Exec.{returned}
use kube_delivery_platform.Python.Exec.Replies.{>>=-eq-returned}
use kube_delivery_platform.Python.Text.{splitlines}
use kube_delivery_platform.Scripts.Digests.{
  Directory, Digests, expected, contains, insert_sorted, sorted, available, difference, reject,
  one_line, read_digests, collect_image_digests,
}
use kube_delivery_platform.Scripts.Digests.Format.{IsDigest, is_digest-IsDigest}

insert_sorted-ne-nil : (x : String) (xs : List String) → insert_sorted x xs ≢ []
unfolding insert_sorted
insert_sorted-ne-nil x [] = λ e. cc
insert_sorted-ne-nil x (y ∷ ys) = λ e. ground arith

sorted-eq-nil : (xs : List String) → sorted xs ≡ [] → xs ≡ []
unfolding sorted
sorted-eq-nil [] h = refl
sorted-eq-nil (x ∷ xs) h = absurd (insert_sorted-ne-nil x (sorted xs) h)

filtered_out :
    (xs ys : List String) (x : String)
    → filter (λ x. not (contains x ys)) xs ≡ []
    → contains x xs ≡ true
    → contains x ys ≡ true
unfolding contains
filtered_out [] ys x h m = cc
filtered_out (y ∷ xs) ys x h m = ground (arith, eq_iff x y, filtered_out xs ys x)

-- Nothing is left of `xs` without `ys` only if every name of `xs` is in `ys`.
difference-eq-nil :
    (xs ys : List String)
    → difference xs ys ≡ []
    → (x : String) → contains x xs ≡ true
    → contains x ys ≡ true
unfolding difference
difference-eq-nil xs ys h x = filtered_out xs ys x (sorted-eq-nil _ h)

reject-returned :
    (message : String) (names : List String) → reject message names ≡ returned tt → names ≡ []
unfolding reject
reject-returned message [] h = refl
reject-returned message (name ∷ names) h = cc

one_line_sound :
    (filename : String) (lines : List String) (digest : String)
    → one_line filename lines ≡ returned digest
    → (lines ≡ digest ∷ []) × IsDigest digest
unfolding one_line
one_line_sound filename [] digest h = cc
one_line_sound filename (line ∷ []) digest h =
    (ground arith, is_digest-IsDigest digest (ground arith))
one_line_sound filename (line ∷ more ∷ lines) digest h = cc

-- The file `filename` was read as the one line `digest`, which is a digest.
pub record IsRead (directory : Directory) (filename digest : String) : Type 0 where
  pub text : String
  pub read : directory.read_text filename ≡ returned text
  pub line : splitlines text ≡ digest ∷ []
  pub valid : IsDigest digest

-- The two digests, and where they come from.
pub record IsCollected (directory : Directory) (digests : Digests) : Type 0 where
  pub shipment_api : String
  pub tracking_worker : String
  pub digests_eq :
      digests
      ≡ ("shipment_api_digest", shipment_api) ∷ ("tracking_worker_digest", tracking_worker) ∷ []
  pub api_read : IsRead directory "shipment-api.digest" shipment_api
  pub worker_read : IsRead directory "tracking-worker.digest" tracking_worker
  pub none_missing :
      (x : String) → contains x expected ≡ true → contains x (available directory.entries) ≡ true
  pub none_unexpected :
      (x : String) → contains x (available directory.entries) ≡ true → contains x expected ≡ true

read_digests-cons :
    (directory : Directory) (filename name : String) (rest : List (String × String))
    (digests : Digests)
    → read_digests directory ((filename, name) ∷ rest) ≡ returned digests
    → (digest : String) × (more : Digests) × IsRead directory filename digest
      × (read_digests directory rest ≡ returned more)
      × (digests ≡ (name, digest) ∷ more)
unfolding read_digests
read_digests-cons directory filename name rest digests h =
    let (text, read, h') = >>=-eq-returned (directory.read_text filename) _ h in
    let (digest, lines, h'') = >>=-eq-returned (one_line filename (splitlines text)) _ h' in
    let (more, others, e) = >>=-eq-returned (read_digests directory rest) _ h'' in
    let (line, valid) = one_line_sound filename (splitlines text) digest lines in
    (
      digest,
      more,
      record { text = text; read = read; line = line; valid = valid },
      others,
      ground arith,
    )

two_digests :
    (directory : Directory) (digests more last : Digests) (x y : String × String)
    → digests ≡ x ∷ more
    → more ≡ y ∷ last
    → read_digests directory [] ≡ returned last
    → digests ≡ x ∷ y ∷ []
unfolding read_digests
two_digests directory digests more last x y e f h = ground arith

-- If digests are returned, they are exactly two, each the one line of its file and a digest, and
-- the directory has no other digest file.
pub collect_image_digests-IsCollected :
    (directory : Directory) (digests : Digests)
    → collect_image_digests directory ≡ returned digests
    → IsCollected directory digests
unfolding collect_image_digests
collect_image_digests-IsCollected directory digests h =
    let (u, missing, h') =
      >>=-eq-returned
        (reject "missing digest file: " (difference expected (available directory.entries))) _ h in
    let (v, unexpected, h'') =
      >>=-eq-returned
        (reject "unexpected digest file: " (difference (available directory.entries) expected)) _
        h' in
    let (a, more, api, h3, e) = read_digests-cons directory _ _ _ digests h'' in
    let (b, last, worker, h4, f) = read_digests-cons directory _ _ _ more h3 in
    record {
      shipment_api = a;
      tracking_worker = b;
      digests_eq = two_digests directory digests more last _ _ e f h4;
      api_read = api;
      worker_read = worker;
      none_missing =
          difference-eq-nil expected (available directory.entries) (reject-returned _ _ missing);
      none_unexpected =
          difference-eq-nil (available directory.entries) expected (reject-returned _ _ unexpected);
    }
