-- ===== src/Scripts/Summary/Target.antt =====
-- Where the summary goes.
use Prim.Native.String.{◌++◌ as ◌<>◌}
use kube_delivery_platform.Prelude.{
  ℕ, String, ◌≡◌, ◌≢◌, ◌⊎◌, inl, inr, Option, none, some, [], ◌∷◌, ◌++◌, arith, ◌∙◌, Option-cases,
  Bool-cases, eq_iff, eq_refl, ◌==◌, false,
}
use kube_delivery_platform.Python.Exec.{Error, Reply, returned, raised}
use kube_delivery_platform.Scripts.Summary.{
  generate_summary, Outputs, append_to, write_summary, print_summary, main,
}

abbrev pub IsUnset : Option String → Type 0
IsUnset path = (path ≡ none) ⊎ (path ≡ some "")

-- The text was appended to the file at the path, and to no other.
pub record IsAppended (files : Outputs) (path text : String) (end : Reply ℕ × Outputs)
    : Type 0 where
  pub ended : end.0 ≡ returned 0
  pub here : end.1.text path ≡ files.text path <> text
  pub elsewhere : (other : String) → other ≢ path → end.1.text other ≡ files.text other

write_summary-none :
    (refused : String → Option Error) (path text : String) (files : Outputs)
    → refused path ≡ none
    → IsAppended files path text (write_summary refused path text files)
unfolding write_summary append_to
write_summary-none refused path text files e = record {
  ended = ground (arith, e);
  here = ground (arith, e, eq_refl path);
  elsewhere = λ other ne. ground (arith, e, eq_iff other path, ne);
}

write_summary-some :
    (refused : String → Option Error) (path text : String) (files : Outputs) (err : Error)
    → refused path ≡ some err
    → write_summary refused path text files ≡ (raised err, files)
unfolding write_summary append_to
write_summary-some refused path text files err e = ground (arith, e)

main-write_summary :
    (environ : String → Option String) (refused : String → Option Error) (path : String)
    (files : Outputs)
    → environ "GITHUB_STEP_SUMMARY" ≡ some path
    → (path == "") ≡ false
    → main environ refused files ≡ write_summary refused path (generate_summary environ) files
unfolding main
main-write_summary environ refused path files e full = ground (arith, e, full)

-- Without a path in GITHUB_STEP_SUMMARY, the summary is printed and no file changes; a path that
-- cannot be opened raises, and nothing was written; else the summary was appended to the file at the
-- path, and no other file changed.
pub main-target :
    (environ : String → Option String) (refused : String → Option Error) (files : Outputs)
    → let target = environ "GITHUB_STEP_SUMMARY" in
      let text = generate_summary environ in
      let end = main environ refused files in
      (IsUnset target
        × (end ≡ (returned 0, record files { printed = files.printed ++ (text ∷ []) })))
      ⊎ ((path : String) × (target ≡ some path)
          × (path ≢ "")
          × (((err : Error) × (refused path ≡ some err) × (end ≡ (raised err, files)))
              ⊎ ((refused path ≡ none) × IsAppended files path text end)))
unfolding main print_summary
main-target environ refused files =
    let text = generate_summary environ in
    elim (Option-cases (environ "GITHUB_STEP_SUMMARY")) [
      | inl e ↦ inl (inl e, ground (arith, e))
      | inr (path, e) ↦ elim (Bool-cases (path == "")) [
        | inl empty ↦ inl (inr (ground (arith, eq_iff path "")), ground (arith, e, empty))
        | inr full ↦ inr (
          path,
          e,
          ground (arith, eq_iff path ""),
          elim (Option-cases (refused path)) [
            | inl f ↦ inr (
              f,
              rw (main-write_summary environ refused path files e full)
                  (write_summary-none refused path text files f),
            )
            | inr (err, f) ↦ inl (
              err,
              f,
              main-write_summary environ refused path files e full
                  ∙ write_summary-some refused path text files err f,
            )
          ],
        )
      ]
    ]
