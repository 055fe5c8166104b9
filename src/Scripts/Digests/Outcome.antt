-- ===== src/Scripts/Digests/Outcome.antt =====
-- How the script ends, and what it has written by then.
use Prim.Native.String.{◌++◌ as ◌<>◌}
use kube_delivery_platform.Prelude.{Option, none, some, String, ◌≡◌, refl, ◌⊎◌, inl, inr, ap}
use kube_delivery_platform.Python.Exec.{Error, value_error, Reply, returned, raised}
use kube_delivery_platform.Python.Exec.Rules.{Reply-cases}
use kube_delivery_platform.Scripts.Digests.{
  Directory, Digests, collect_image_digests, digest_of, write_lines, write_github_outputs, Opens,
  Outputs, Exit, status, main, main_with, publish, append_summary, render_summary,
}
use kube_delivery_platform.Scripts.Digests.Handoff.{collect_image_digests-IsCollected}
use kube_delivery_platform.Scripts.Digests.Written.{
  two_digests, lines_of, lines_assoc, write_github_outputs-two_digests,
}

-- Nothing was returned.
abbrev pub NoReturn : {A : Type 0} → Reply A → Type 0
NoReturn (returned a) = ⊥
NoReturn _ = Unit

-- How `main` ends with the lines `added` and the summary `text` to append: the output file cannot be
-- opened, and nothing was written; the summary file cannot be, and only the lines were written; or it
-- ends in status 0, and both were.
abbrev pub Ending : Opens → String → String → Outputs → Reply Exit × Outputs → Type 0
Ending opens added text files end =
    ((err : Error) × (opens.output ≡ some err) × (end ≡ (raised err, files)))
    ⊎ ((err : Error) × (opens.output ≡ none)
        × (opens.summary ≡ some err)
        × (end ≡ (raised err, record files { output = files.output <> added })))
    ⊎ ((opens.output ≡ none)
        × (opens.summary ≡ none)
        × (end ≡ (
          returned (status 0),
          record { output = files.output <> added; summary = files.summary <> text },
        )))

pub record Published (opens : Opens) (digests : Digests) (source_sha : String) (files : Outputs)
    (end : Reply Exit × Outputs) : Type 0 where
  pub added : String
  pub text : String
  pub written :
      write_github_outputs none digests files.output ≡ (returned tt, files.output <> added)
  pub rendered : render_summary digests source_sha ≡ returned text
  pub ended : Ending opens added text files end

module _ (a b source_sha : String) (files : Outputs) where
  Published-two_digests :
      (output summary : Option Error)
      → Published
          (record { output = output; summary = summary })
          (two_digests a b)
          source_sha
          files
          (publish
            (record { output = output; summary = summary })
            (two_digests a b)
            source_sha
            files)
  unfolding publish append_summary write_github_outputs write_lines render_summary digest_of
      two_digests
  Published-two_digests (some err) summary = record {
    added = lines_of a b;
    text = _;
    written = write_github_outputs-two_digests a b files.output;
    rendered = refl;
    ended = inl (err, refl, refl);
  }
  Published-two_digests none (some err) = record {
    added = lines_of a b;
    text = _;
    written = write_github_outputs-two_digests a b files.output;
    rendered = refl;
    ended = inr (
        inl (
          err,
          refl,
          refl,
          ap (λ (t : String). (raised err, record files { output = t }))
              (lines_assoc a b files.output),
        ));
  }
  Published-two_digests none none = record {
    added = lines_of a b;
    text = _;
    written = write_github_outputs-two_digests a b files.output;
    rendered = refl;
    ended = inr (
        inr (
          refl,
          refl,
          ap
              (λ (t : String).
                append_summary none (render_summary (two_digests a b) source_sha)
                  (record files { output = t }))
              (lines_assoc a b files.output),
        ));
  }

Published-publish :
    (opens : Opens) (digests : Digests) (a b source_sha : String) (files : Outputs)
    → digests ≡ two_digests a b
    → Published opens digests source_sha files (publish opens digests source_sha files)
Published-publish opens digests a b source_sha files e =
    rw e (Published-two_digests a b source_sha files opens.output opens.summary)

Published-main :
    (directory : Directory) (opens : Opens) (digests : Digests) (source_sha : String)
    (files : Outputs)
    → collect_image_digests directory ≡ returned digests
    → Published opens digests source_sha files (main directory opens source_sha files)
unfolding main main_with two_digests
Published-main directory opens digests source_sha files h =
    let c = collect_image_digests-IsCollected directory digests h in
    rw h (
      Published-publish opens digests c.shipment_api c.tracking_worker source_sha files
        c.digests_eq)

unwritten :
    (e : Error) (opens : Opens) (source_sha : String) (files : Outputs)
    → (main_with (raised e) opens source_sha files).1 ≡ files
unfolding main_with
unwritten (value_error message) opens source_sha files = refl
unwritten _ opens source_sha files = refl

-- `main` writes only what it has validated. Either digests were collected, and it ends in one of
-- three ways: the output file cannot be opened, that error is raised and nothing was written; the
-- summary file cannot be, that error is raised and only the lines of the digests were appended to the
-- output file; or it ends in status 0 with the lines in the one and the rendered summary in the other.
-- Or the collection did not return, and both files are as they were.
pub main-outcome :
    (directory : Directory) (opens : Opens) (source_sha : String) (files : Outputs)
    → ((digests : Digests) × (collect_image_digests directory ≡ returned digests)
        × Published opens digests source_sha files (main directory opens source_sha files))
      ⊎ (NoReturn (collect_image_digests directory)
          × ((main directory opens source_sha files).1 ≡ files))
unfolding main main_with
main-outcome directory opens source_sha files =
    elim (Reply-cases (collect_image_digests directory)) [
      | inl (digests, e) ↦
          inl (digests, e, Published-main directory opens digests source_sha files e)
      | inr (inl (err, e)) ↦ inr (rw e tt, rw e (unwritten err opens source_sha files))
      | inr (inr e) ↦ inr (rw e tt, rw e refl)
    ]
