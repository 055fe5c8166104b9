-- ===== src/Scripts/DigestTests.antt =====
-- A run of collect_image_digests.py over a concrete directory, and the theorems at concrete data.
use Prim.Native.String.{◌++◌ as ◌<>◌}
use kube_delivery_platform.Prelude.{
  String, none, some, ◌≡◌, refl, ◌↔◌, ◌⊎◌, true, false, [], ◌∷◌, ◌==◌, if◌then◌else◌,
}
use kube_delivery_platform.Python.Exec.{Reply, returned, raised, other_error, value_error}
use kube_delivery_platform.Python.Text.{splitlines, split_from, is_break, after_prefix, join}
use kube_delivery_platform.Scripts.Digests.{
  Directory, Digests, is_hex, hex_digits, is_digest, ends_with, contains, insert_sorted, sorted,
  available, difference, reject, one_line, read_digests, collect_image_digests,
  write_github_outputs, Opens, Outputs, main,
}
use kube_delivery_platform.Scripts.Digests.Handoff.{IsCollected}
use kube_delivery_platform.Scripts.Digests.Complete.{collect_image_digests_iff}
use kube_delivery_platform.Scripts.Digests.Written.{write_github_outputs-collected}
use kube_delivery_platform.Scripts.Digests.Outcome.{NoReturn, Published, main-outcome}

abbrev api_digest : String
api_digest = "sha256:0123456789abcdef0123456789abcdef0123456789abcdef0123456789abcdef"

abbrev worker_digest : String
worker_digest = "sha256:fedcba9876543210fedcba9876543210fedcba9876543210fedcba9876543210"

abbrev read_text : String → Reply String
read_text name =
    if name == "shipment-api.digest"
    then returned (api_digest <> "\n")
    else if name == "tracking-worker.digest"
    then returned (worker_digest <> "\n")
    else raised (other_error "FileNotFoundError")

abbrev handoff : Directory
handoff = record {
  entries =
      ("tracking-worker.digest", true)
      ∷ ("notes.txt", true)
      ∷ ("old.digest", false)
      ∷ ("shipment-api.digest", true)
      ∷ [];
  read_text = read_text;
}

-- One expected file is missing.
abbrev partial : Directory
partial = record { entries = ("shipment-api.digest", true) ∷ []; read_text = read_text }

abbrev collected : Digests
collected = ("shipment_api_digest", api_digest) ∷ ("tracking_worker_digest", worker_digest) ∷ []

collect : Directory → Reply Digests
unfolding is_hex hex_digits is_digest ends_with contains insert_sorted sorted available difference
    reject one_line read_digests collect_image_digests splitlines split_from is_break after_prefix
    join
collect = collect_image_digests

run_handoff : collect handoff ≡ returned collected
unfolding collect
run_handoff = refl

run_partial : collect partial ≡ raised (value_error "missing digest file: tracking-worker.digest")
unfolding collect
run_partial = refl

collect_image_digests_iff_example :
    (collect_image_digests handoff ≡ returned collected) ↔ IsCollected handoff collected
collect_image_digests_iff_example = collect_image_digests_iff handoff collected

write_github_outputs-collected_example :
    (a b added : String) × (collected
      ≡ ("shipment_api_digest", a) ∷ ("tracking_worker_digest", b) ∷ [])
    × (write_github_outputs none collected "x=1\n" ≡ (returned tt, "x=1\n" <> added))
    × (splitlines added
        ≡ ("shipment_api_digest" <> ("=" <> a)) ∷ ("tracking_worker_digest" <> ("=" <> b)) ∷ [])
unfolding collect
write_github_outputs-collected_example =
    write_github_outputs-collected handoff collected "x=1\n" refl

abbrev files : Outputs
files = record { output = "x=1\n"; summary = "" }

-- The output file can be opened, and the summary file cannot.
abbrev opens : Opens
opens = record { output = none; summary = some (other_error "PermissionError") }

main-outcome_example :
    ((digests : Digests) × (collect_image_digests handoff ≡ returned digests)
      × Published opens digests "0123456789abcdef" files
          (main handoff opens "0123456789abcdef" files))
    ⊎ (NoReturn (collect_image_digests handoff)
        × ((main handoff opens "0123456789abcdef" files).1 ≡ files))
main-outcome_example = main-outcome handoff opens "0123456789abcdef" files
