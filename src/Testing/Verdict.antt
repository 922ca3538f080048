-- ===== src/Testing/Verdict.antt =====
-- When the generated files pass.
use agent_coordination.Prelude.{
  All, All-imp, Bool, Bool-cases, List, Member, Member-cons, Option, Option-cases, Text, [], all_of,
  ap, arith, codes, count_where, false, first, inl, inr, insert_sorted, is_empty, keep_if, later,
  ltb, none, not, refl, sort, sym, true, ℕ, ◌↔◌, ◌∙◌, ◌∷◌, ◌≡◌,
}
use agent_coordination.Testing.{
  File, all_files, all_passed, checks_of, duplicates, errors_in, is_test_path, paths_of,
  repeated_paths, run, test_files, text_leb, unsafe_paths,
}
use agent_coordination.Testing.Paths.{ends_with, safe_path}
use agent_coordination.Selection.Similarity.{set_of, text_in}
use agent_coordination.Domain.Keys.{text_beq}
use agent_coordination.Domain.Data.{Fields}

text_in-nonempty : (t : Text) (ts : List Text) → text_in t ts ≡ true → is_empty ts ≡ false
unfolding text_in
text_in-nonempty t [] h = absurd (cc)
text_in-nonempty t (x ∷ ts) h = refl

pub is_empty-set_of : (ts : List Text) → is_empty (set_of ts) ≡ is_empty ts
unfolding set_of
is_empty-set_of [] = refl
is_empty-set_of (t ∷ ts) = elim (Bool-cases (text_in t (set_of ts))) [
  | inl e ↦ rw e (text_in-nonempty t (set_of ts) e)
  | inr e ↦ rw e refl
]

is_empty-insert_sorted :
    (t : Text) (ts : List Text) → is_empty (insert_sorted text_leb t ts) ≡ false
unfolding insert_sorted
is_empty-insert_sorted t [] = refl
is_empty-insert_sorted t (x ∷ ts) = ground arith

pub is_empty-sort : (ts : List Text) → is_empty (sort text_leb ts) ≡ is_empty ts
unfolding sort
is_empty-sort [] = refl
is_empty-sort (t ∷ ts) = is_empty-insert_sorted t (sort text_leb ts)

is_empty-duplicates :
    (files : List File) → is_empty (duplicates files) ≡ is_empty (repeated_paths files)
unfolding duplicates
is_empty-duplicates files =
    is_empty-sort (set_of (repeated_paths files)) ∙ is_empty-set_of (repeated_paths files)

none_kept :
    (q : Text → Bool) (files : List File)
    → (is_empty (keep_if q (paths_of files)) ≡ true) ↔ All (λ f. q f.path ≡ false) files
unfolding keep_if
none_kept q [] = (λ h. tt, λ h. refl)
none_kept q (f ∷ files) = elim (Bool-cases (q f.path)) [
  | inl e ↦ (λ h. absurd (cc (rw e at h)), λ h. absurd (cc (e, h.0)))
  | inr e ↦ (λ h. (e, (none_kept q files).0 (rw e at h)), λ h. rw e ((none_kept q files).1 h.1))
]

some_kept :
    (q : Text → Bool) (files : List File)
    → (is_empty (keep_if q (paths_of files)) ≡ false)
      ↔ ((f : File) × Member f files × (q f.path ≡ true))
unfolding keep_if
some_kept q [] = (λ h. absurd (cc), λ h. elim h.1 [ ])
some_kept q (f ∷ files) = elim (Bool-cases (q f.path)) [
  | inl e ↦ (λ h. (f, first, e), λ h. rw e refl)
  | inr e ↦ (
    λ h. let (g, m, k) = (some_kept q files).0 (rw e at h) in (g, later m, k),
    λ h. elim (Member-cons h.1) [
      | inl same ↦ absurd (cc (ap (λ (g : File). q g.path) same, e, h.2))
      | inr n ↦ rw e ((some_kept q files).1 (h.0, n, h.2))
    ],
  )
]

module _ (lower : Text → Text) (syntax_error json_error : Text → Option Text) where
  -- What the six checks demand of the files.
  pub record Acceptable (files : List File) : Type 0 where
    pub present : is_empty files ≡ false
    pub safe : All (λ f. safe_path f.path ≡ true) files
    pub unique : All (λ f. ltb 1 (count_where (text_beq f.path) (paths_of files)) ≡ false) files
    pub compiles :
        All (λ f. ends_with (codes ".py") f.path ≡ true → syntax_error f.content ≡ none) files
    pub parses :
        All (λ f. ends_with (codes ".json") f.path ≡ true → json_error f.content ≡ none) files
    pub tested : (f : File) × Member f files × (is_test_path lower f.path ≡ true)

  errors_in-none :
      (suffix : Text) (error : Text → Option Text) (files : List File)
      → (is_empty (errors_in suffix error files) ≡ true)
        ↔ All (λ f. ends_with suffix f.path ≡ true → error f.content ≡ none) files
  unfolding errors_in
  errors_in-none suffix error [] = (λ h. tt, λ h. refl)
  errors_in-none suffix error (f ∷ files) =
      let rest = errors_in-none suffix error files in
      elim (Bool-cases (ends_with suffix f.path)) [
        | inr other ↦
            (λ h. (λ e. absurd (cc (other, e)), rest.0 (rw other at h)), λ h. rw other (rest.1 h.1))
        | inl checked ↦ elim (Option-cases (error f.content)) [
          | inl fine ↦ (
            λ h. (λ e. fine, rest.0 (rw (checked, fine) at h)),
            λ h. rw (checked, fine) (rest.1 h.1),
          )
          | inr (message, found) ↦
              (λ h. absurd (cc (rw (checked, found) at h)), λ h. absurd (cc (found, h.0 checked)))
        ]
      ]

  -- The generated files pass all checks exactly when there are files, every path is safe, no path
  -- occurs twice, every Python file compiles, every JSON file parses, and some path is a test's.
  pub all_passed_iff :
      (engineering_run_id repair_cycle : ℕ) (new_id : ℕ → ℕ) (payloads : List Fields)
      → (all_passed
            (run lower syntax_error json_error engineering_run_id repair_cycle new_id payloads)
          ≡ true)
        ↔ Acceptable (all_files payloads)
  unfolding all_passed run checks_of all_of unsafe_paths repeated_paths test_files
  all_passed_iff engineering_run_id repair_cycle new_id payloads =
      let files = all_files payloads in
      let safe = none_kept (λ p. not (safe_path p)) files in
      let unique = none_kept (λ p. ltb 1 (count_where (text_beq p) (paths_of files))) files in
      let compiles = errors_in-none (codes ".py") syntax_error files in
      let parses = errors_in-none (codes ".json") json_error files in
      let tested = some_kept (is_test_path lower) files in
      (
        λ h. record {
          present = ground (arith, h);
          safe = All-imp files (λ f e. ground (arith, e)) (safe.0 (ground (arith, h)));
          unique = unique.0 (sym (is_empty-duplicates files) ∙ ground (arith, h));
          compiles = compiles.0 (ground (arith, h));
          parses = parses.0 (ground (arith, h));
          tested = tested.0 (ground (arith, h));
        },
        λ a. ground (
          arith,
          a.present,
          safe.1 (All-imp files (λ f e. ground (arith, e)) a.safe),
          is_empty-duplicates files ∙ unique.1 a.unique,
          compiles.1 a.compiles,
          parses.1 a.parses,
          tested.1 a.tested,
        ),
      )
