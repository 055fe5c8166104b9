-- ===== src/Scripts/Digests.antt =====
-- scripts/collect_image_digests.py: the two image digests that are promoted to staging.
pub mod Format
pub mod Handoff
pub mod Complete
pub mod Written
pub mod Outcome
use Prim.Native.Char.{Char, code}
use Prim.Native.String.{◌++◌ as ◌<>◌, compare}
use text.Mathlib.Text.{is_lt}
use kube_delivery_platform.Prelude.{
  ℕ, zero, suc, String, Bool, true, false, not, ◌&&◌, ◌||◌, Option, none, some, List, [], ◌∷◌, ◌==◌,
  leb, if◌then◌else◌, map, filter,
}
use kube_delivery_platform.Python.Exec.{
  Error, value_error, other_error, Reply, returned, raised, Exec,
}
use kube_delivery_platform.Python.Exec as Exec
use kube_delivery_platform.Python.Exec.Replies.{◌>>=◌, ◌>>◌}
use kube_delivery_platform.Python.Text.{splitlines, join, prefix, after_prefix}

-- What the script sees of a directory: each name with whether it is a file, and the files' texts.
-- A text that is no UTF-8 raises `UnicodeDecodeError`, which is a `ValueError`.
pub record Directory : Type 0 where
  pub entries : List (String × Bool)
  pub read_text : String → Reply String

abbrev pub Digests : Type 0
Digests = List (String × String)

abbrev pub expected_files : List (String × String)
expected_files =
    ("shipment-api.digest", "shipment_api_digest")
    ∷ ("tracking-worker.digest", "tracking_worker_digest")
    ∷ []

unfoldable pub is_hex : Char → Bool
is_hex c = let n = code c in (leb b'a' n && leb n b'f') || (leb b'0' n && leb n b'9')

-- `[a-f0-9]{n}`, to the end of the text
unfoldable pub hex_digits : ℕ → String → Bool
hex_digits zero String.[] = true
hex_digits zero (String.◌∷◌ c s) = false
hex_digits (suc n) String.[] = false
hex_digits (suc n) (String.◌∷◌ c s) = is_hex c && hex_digits n s

-- `DIGEST_PATTERN.fullmatch(text) is not None`
unfoldable pub is_digest : String → Bool
is_digest text = elim (after_prefix "sha256:" text) [
  | none ↦ false
  | some rest ↦ hex_digits 64 rest
]

unfoldable pub ends_with : String → String → Bool
ends_with suffix String.[] = "" == suffix
ends_with suffix (String.◌∷◌ c s) = (String.◌∷◌ c s == suffix) || ends_with suffix s

unfoldable pub contains : String → List String → Bool
contains x [] = false
contains x (y ∷ ys) = x == y || contains x ys

-- `sorted(set(names))`
unfoldable pub insert_sorted : String → List String → List String
insert_sorted x [] = x ∷ []
insert_sorted x (y ∷ ys) =
    let rest = insert_sorted x ys in
    if x == y then y ∷ ys else if is_lt (compare x y) then x ∷ y ∷ ys else y ∷ rest

unfoldable pub sorted : List String → List String
sorted [] = []
sorted (x ∷ xs) = insert_sorted x (sorted xs)

unfoldable pub available : List (String × Bool) → List String
available [] = []
available ((name, is_file) ∷ rest) =
    let names = available rest in
    if is_file && ends_with ".digest" name then name ∷ names else names

abbrev expected : List String
expected = map (λ (filename, output_name). filename) expected_files

-- `sorted(xs - ys)`
unfoldable pub difference : List String → List String → List String
difference xs ys = sorted (filter (λ x. not (contains x ys)) xs)

unfoldable pub reject : String → List String → Reply Unit
reject message [] = returned tt
reject message (name ∷ names) = raised (value_error (message <> join ", " (name ∷ names)))

unfoldable pub one_line : String → List String → Reply String
one_line filename (line ∷ []) =
    if is_digest line
    then returned line
    else raised (value_error ("invalid OCI digest in " <> filename))
one_line filename _ = raised (value_error ("invalid OCI digest in " <> filename))

unfoldable pub read_digests : Directory → List (String × String) → Reply Digests
read_digests directory [] = returned []
read_digests directory ((filename, output_name) ∷ rest) = do
  text ← directory.read_text filename
  digest ← one_line filename (splitlines text)
  digests ← read_digests directory rest
  returned ((output_name, digest) ∷ digests)

unfoldable pub collect_image_digests : Directory → Reply Digests
collect_image_digests directory = do
  reject "missing digest file: " (difference expected (available directory.entries))
  reject "unexpected digest file: " (difference (available directory.entries) expected)
  read_digests directory expected_files

-- `digests[name]`
unfoldable pub digest_of : String → Digests → Reply String
digest_of name [] = raised (other_error "KeyError")
digest_of name ((other, digest) ∷ rest) =
    let found = digest_of name rest in if other == name then returned digest else found

-- The lines are appended one by one to the file, of which the state is the text.
unfoldable pub write_lines : List (String × String) → Digests → Exec String Unit
write_lines [] digests = Exec.pure tt
write_lines ((filename, name) ∷ rest) digests =
    Exec.◌>>=◌ (Exec.lift (digest_of name digests)) λ digest.
      Exec.◌>>◌ (Exec.modify (λ file. file <> (name <> ("=" <> (digest <> "\n")))))
        (write_lines rest digests)

-- `with path.open("a") as output`, where the first argument says why the file cannot be opened.
unfoldable pub write_github_outputs : Option Error → Digests → Exec String Unit
write_github_outputs (some err) digests = Exec.raise err
write_github_outputs none digests = write_lines expected_files digests

unfoldable pub render_summary : Digests → String → Reply String
render_summary digests source_sha = do
  shipment_api ← digest_of "shipment_api_digest" digests
  tracking_worker ← digest_of "tracking_worker_digest" digests
  returned (
      join "\n" (
        "# Staging promotion inputs"
        ∷ ""
        ∷ ("> Source commit: `" <> (prefix 12 source_sha <> "`"))
        ∷ ""
        ∷ "| Service | OCI manifest digest |"
        ∷ "| --- | --- |"
        ∷ ("| shipment-api | `" <> (shipment_api <> "` |"))
        ∷ ("| tracking-worker | `" <> (tracking_worker <> "` |"))
        ∷ ""
        ∷ "Both digests were collected from this workflow run after image scanning, SBOM generation, and attestations completed."
        ∷ ""
        ∷ []))

-- The two files that the script appends to.
pub record Outputs : Type 0 where
  pub output : String
  pub summary : String

-- `raise SystemExit(message)`, or the status that `main` returns.
pub data Exit : Type 0 where
  status : ℕ → Exit
  failed : String → Exit

-- Why one of them cannot be opened, if so. What is written to an open file is written.
pub record Opens : Type 0 where
  pub output : Option Error
  pub summary : Option Error

-- The text is rendered once the file is open.
unfoldable pub append_summary : Option Error → Reply String → Exec Outputs Exit
append_summary (some err) text files = (raised err, files)
append_summary none (returned text) files =
    (returned (status 0), record files { summary = files.summary <> text })
append_summary none (raised e) files = (raised e, files)
append_summary none Reply.cancelled files = (Reply.cancelled, files)

unfoldable pub publish : Opens → Digests → String → Exec Outputs Exit
publish opens digests source_sha files =
    let (r, text) = write_github_outputs opens.output digests files.output in
    let files' = record files { output = text } in
    elim r [
      | returned u ↦ append_summary opens.summary (render_summary digests source_sha) files'
      | raised e ↦ (raised e, files')
      | Reply.cancelled ↦ (Reply.cancelled, files')
    ]

-- Only a `ValueError` becomes a `SystemExit`.
unfoldable pub main_with : Reply Digests → Opens → String → Exec Outputs Exit
main_with (returned digests) opens source_sha files = publish opens digests source_sha files
main_with (raised (value_error message)) opens source_sha files =
    (returned (failed ("digest collection failed: " <> message)), files)
main_with (raised e) opens source_sha files = (raised e, files)
main_with Reply.cancelled opens source_sha files = (Reply.cancelled, files)

unfoldable pub main : Directory → Opens → String → Exec Outputs Exit
main directory opens source_sha = main_with (collect_image_digests directory) opens source_sha
