-- ===== src/Testing/Examples.antt =====
-- Payloads that pass and one that does not.
use agent_coordination.Prelude.{
  List, Option, String, Text, [], all_of, codes, count_where, false, is_space, keep_if, length,
  lstrip, none, refl, strip, true, ℕ, ◌++◌, ◌+◌, ◌↔◌, ◌∷◌, ◌≡◌,
}
use agent_coordination.Testing.{
  all_files, all_passed, checks_of, duplicates, errors_in, files_of, is_test_path, lookup,
  repeated_paths, run, test_files, unsafe_paths,
}
use agent_coordination.Testing.Paths.{
  contains_text, ends_with, is_absolute, is_part, name_of, parts_of, relative_parts, safe_path,
  root_of, safe_path_stays_inside, segments, starts_with, walk,
}
use agent_coordination.Testing.Verdict.{Acceptable, all_passed_iff}
use agent_coordination.Selection.Similarity.{text_in}
use agent_coordination.Domain.Keys.{text_beq}
use agent_coordination.Domain.Data.{Fields, Json, arr, cons, end, field, nil, null, obj, text}

abbrev lower : Text → Text
lower t = t

-- Every file compiles, and every file parses.
abbrev no_error : Text → Option Text
no_error t = none

abbrev file_json : String → String → Json
file_json path content =
    obj (field "path" (text (codes path)) (field "content" (text (codes content)) end))

abbrev payload : Fields
payload =
    field "files"
      (arr (cons (file_json "a/b.py" "x") (cons null (cons (file_json "tests/t.py" "y") nil)))) end

abbrev new_id : ℕ → ℕ
new_id n = 20 + n

module_is_tested : all_passed (run lower no_error no_error 7 0 new_id (payload ∷ [])) ≡ true
unfolding all_passed run all_files lookup files_of checks_of unsafe_paths repeated_paths duplicates
    errors_in test_files is_test_path safe_path parts_of root_of relative_parts segments is_part
    is_absolute name_of contains_text starts_with ends_with keep_if count_where all_of text_in
    text_beq strip lstrip is_space
module_is_tested = refl

escapes : safe_path (codes "a/../../etc") ≡ false
unfolding safe_path parts_of root_of relative_parts segments is_part is_absolute keep_if text_in
    text_beq strip lstrip is_space
escapes = refl

stays : safe_path (codes "a/b.py") ≡ true
unfolding safe_path parts_of root_of relative_parts segments is_part is_absolute keep_if text_in
    text_beq strip lstrip is_space
stays = refl

safe_path_stays_inside_example :
    (below : List Text) × (walk (codes "work" ∷ []) (parts_of (codes "a/b.py"))
      ≡ below ++ codes "work" ∷ [])
    × (length below ≡ length (parts_of (codes "a/b.py")))
safe_path_stays_inside_example = safe_path_stays_inside (codes "a/b.py") (codes "work" ∷ []) stays

all_passed_iff_example :
    (all_passed (run lower no_error no_error 7 0 new_id (payload ∷ [])) ≡ true)
    ↔ Acceptable lower no_error no_error (all_files (payload ∷ []))
all_passed_iff_example = all_passed_iff lower no_error no_error 7 0 new_id (payload ∷ [])
