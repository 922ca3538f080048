-- ===== src/Testing.antt =====
-- packages/core/engineering/testing.py: the checks of the files that the implementers generated. The
-- Python compiler, the JSON parser and `str.lower` are parameters. A detail that prints a list of
-- paths names the paths.
pub mod Paths
pub mod Verdict
mod Examples
use agent_coordination.Prelude.{
  All, Bool, List, Option, String, Text, [], all_of, codes, count_where, false, if◌then◌else◌,
  is_empty, keep_if, length, ltb, map, nat_beq, nat_eq, none, not, some, sort, string_eq, test,
  true, ℕ, ◌&&◌, ◌++◌, ◌==◌, ◌||◌, ◌∷◌,
}
use agent_coordination.Testing.Paths.{contains_text, ends_with, name_of, parts_of, safe_path}
use agent_coordination.Selection.Similarity.{set_of, text_in}
use agent_coordination.Domain.Keys.{text_beq}
use agent_coordination.Domain.Data.{
  Fields, Format, Items, Json, arr, cons, end, field, nil, num, obj, quote, text, word,
}
use agent_coordination.Domain.Service.{EngineeringCheck}

pub record File : Type 0 where
  pub path : Text
  pub content : Text

-- `payload.get(name)`, for a dict as its fields.
unfoldable pub lookup : String → Fields → Option Json
lookup name end = none
lookup name (field n json rest) = if n == name then some json else lookup name rest

-- A path and a content that are both strings.
abbrev pub file_of : Option Json → Option Json → List File
file_of (some (text path)) (some (text content)) = record { path = path; content = content } ∷ []
file_of _ _ = []

-- The dicts of the list.
unfoldable pub files_of : Items → List File
unfolding lookup
files_of nil = []
files_of (cons (obj fields) rest) =
    file_of (lookup "path" fields) (lookup "content" fields) ++ files_of rest
files_of (cons _ rest) = files_of rest

-- `payload.get("files", [])`. The payloads are dumps of a model whose `files` is a list.
abbrev pub listed : Option Json → Items
listed (some (arr items)) = items
listed _ = nil

unfoldable pub all_files : List Fields → List File
unfolding lookup files_of
all_files [] = []
all_files (payload ∷ payloads) = files_of (listed (lookup "files" payload)) ++ all_files payloads

abbrev pub path_of : File → Text
path_of f = f.path

abbrev pub paths_of : List File → List Text
paths_of files = map path_of files

unfoldable pub unsafe_paths : List File → List Text
unfolding safe_path keep_if
unsafe_paths files = keep_if (λ p. not (safe_path p)) (paths_of files)

-- The order of strings: by their code points.
unfoldable pub text_leb : Text → Text → Bool
text_leb [] t = true
text_leb (c ∷ s) [] = false
text_leb (c ∷ s) (d ∷ t) = if nat_beq c d then text_leb s t else ltb c d

-- The paths that occur more than once, as often as they do.
unfoldable pub repeated_paths : List File → List Text
unfolding keep_if count_where text_beq
repeated_paths files =
    keep_if (λ p. ltb 1 (count_where (text_beq p) (paths_of files))) (paths_of files)

-- `sorted({path for path in paths if paths.count(path) > 1})`
unfoldable pub duplicates : List File → List Text
unfolding repeated_paths sort set_of text_leb
duplicates files = sort text_leb (set_of (repeated_paths files))

-- The messages of the errors in the files with this suffix.
unfoldable pub errors_in : Text → (Text → Option Text) → List File → List Format
unfolding ends_with
errors_in suffix error [] = []
errors_in suffix error (f ∷ files) =
    let rest = errors_in suffix error files in
    if ends_with suffix f.path
    then elim (error f.content) [
      | none ↦ rest
      | some message ↦ (quote f.path ∷ word ": " ∷ quote message ∷ []) ∷ rest
    ]
    else rest

-- `"; ".join(errors)`
unfoldable pub joined : List Format → Format
joined [] = []
joined (e ∷ []) = e
joined (e ∷ f ∷ rest) = e ++ (word "; " ∷ joined (f ∷ rest))

module _ (lower : Text → Text) where
  unfoldable pub is_test_path : Text → Bool
  unfolding contains_text name_of parts_of text_in
  is_test_path path =
      contains_text (codes "test") (lower (name_of path)) || text_in (codes "tests") (parts_of path)

  unfoldable pub test_files : List File → List Text
  unfolding is_test_path keep_if
  test_files files = keep_if is_test_path (paths_of files)

  module _ (syntax_error json_error : Text → Option Text)
      (engineering_run_id repair_cycle : ℕ) where
    -- `id` is the fresh `uuid4()`.
    abbrev pub check_of : ℕ → String → Bool → Format → EngineeringCheck
    check_of id name passed detail = record {
      engineering_run_id = engineering_run_id;
      name = name;
      passed = passed;
      detail = detail;
      repair_cycle = repair_cycle;
      id = id;
    }

    -- A check that passes when there are none of something.
    abbrev pub none_of : {A : Type 0} → ℕ → String → List A → String → Format → EngineeringCheck
    none_of id name found good bad =
        check_of id name (is_empty found) (if is_empty found then word good ∷ [] else bad)

    unfoldable pub checks_of : (ℕ → ℕ) → List File → List EngineeringCheck
    unfolding unsafe_paths duplicates errors_in joined test_files
    checks_of new_id files =
        let unsafe = unsafe_paths files in
        let repeated = duplicates files in
        let syntax_errors = errors_in (codes ".py") syntax_error files in
        let json_errors = errors_in (codes ".json") json_error files in
        let tests = test_files files in
        check_of (new_id 0) "files_present" (not (is_empty files)) (
          if is_empty files
          then word "No generated files were provided." ∷ []
          else num (length files) ∷ word " generated files available." ∷ [])
        ∷ none_of (new_id 1) "safe_paths" unsafe
            "All generated paths are relative and sandbox-safe."
            (word "Unsafe paths: " ∷ map quote unsafe)
        ∷ none_of (new_id 2) "unique_paths" repeated "Generated file paths are unique."
            (word "Duplicate paths: " ∷ map quote repeated)
        ∷ none_of (new_id 3) "python_compile" syntax_errors "All generated Python files compile."
            (joined syntax_errors)
        ∷ none_of (new_id 4) "json_parse" json_errors "All generated JSON files parse."
            (joined json_errors)
        ∷ check_of (new_id 5) "test_artifact_present" (not (is_empty tests)) (
            if is_empty tests
            then word "No test artifact was generated." ∷ []
            else word "Test artifacts present: " ∷ map quote tests)
        ∷ []

    unfoldable pub run : (ℕ → ℕ) → List Fields → List EngineeringCheck
    unfolding all_files checks_of
    run new_id implementation_payloads = checks_of new_id (all_files implementation_payloads)

unfoldable pub all_passed : List EngineeringCheck → Bool
unfolding all_of
all_passed checks = not (is_empty checks) && all_of (λ c. c.passed) checks
