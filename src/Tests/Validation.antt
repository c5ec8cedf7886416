-- ===== src/Tests/Validation.antt =====
-- internal/validation/file.go: a file with one check.
use agent_trail.Base.{
  ℕ, ◌≡◌, ◌≤◌, ◌↔◌, refl, Option, some, none, true, [], ◌∷◌, pos, wrap_int, ◌+ℤ◌,
}
use agent_trail.Text.{codes}
use agent_trail.Chars.Defs.{Chars, char_count, first_chars}
use agent_trail.Validation.Defs.{
  File, max_file_bytes, is_member, is_check_name, effective_timeout, list_length, check_one,
  check_all, validate, parse, Workspace, entry, load,
}
use agent_trail.Validation.Checks.{Accepted}
use agent_trail.Validation.Accepted.{validate-iff-Accepted}
use agent_trail.Validation.Loading.{load-loaded}

abbrev one_check : File
one_check = record {
  version = pos 1;
  validation =
      record {
        name = "unit";
        category = "unit_test";
        command = "go" ∷ "test" ∷ [];
        timeout_seconds = pos 0;
      }
      ∷ [];
}

validate-iff-Accepted_example : validate one_check ≡ none ↔ Accepted one_check
validate-iff-Accepted_example = validate-iff-Accepted one_check

abbrev decode_one : Chars → Option File
decode_one text = some one_check

abbrev workspace : Workspace
workspace = record { opens = true; stat = entry true 10; content = some (codes "version: 1") }

load-loaded_example :
    (text : Chars) × (size : ℕ) × (workspace.stat ≡ entry true size)
    × (workspace.content ≡ some text)
    × (char_count text ≤ max_file_bytes)
    × (decode_one text ≡ some one_check)
    × Accepted one_check
unfolding load parse validate list_length check_all check_one is_check_name is_member
    effective_timeout wrap_int ◌+ℤ◌ char_count first_chars
load-loaded_example = load-loaded decode_one workspace one_check refl
