-- ===== src/Validation/Defs.antt =====
-- internal/validation/file.go: the limits, the checks and how a file is loaded.
use agent_trail.Base.{
  ℕ, suc, ◌+◌, String, Bool, true, false, not, ◌&&◌, ◌||◌, Option, none, some, List, [], ◌∷◌, leb,
  ltb, ◌==◌, if◌then◌else◌, str_eq, ℤ, pos, int_leb, int_eq, wrap_int, ◌+ℤ◌, ◌≡◌, refl,
}
use agent_trail.Text.{codes}
use agent_trail.Chars.Defs.{Chars, char_count, first_chars}

abbrev pub max_checks : ℕ
max_checks = 20

abbrev pub max_command_args : ℕ
max_command_args = 64

abbrev pub max_file_bytes : ℕ
max_file_bytes = 1048576

abbrev pub default_timeout_seconds : ℕ
default_timeout_seconds = 300

abbrev pub max_timeout_seconds : ℕ
max_timeout_seconds = 1800

abbrev pub max_total_timeout_seconds : ℕ
max_total_timeout_seconds = 3600

abbrev pub categories : List String
categories =
    "unit_test" ∷ "integration_test" ∷ "lint" ∷ "format" ∷ "typecheck" ∷ "security" ∷ "dependency"
    ∷ "migration" ∷ "build" ∷ "custom" ∷ []

unfoldable pub is_member : String → List String → Bool
is_member x [] = false
is_member x (y ∷ l) = str_eq x y || is_member x l

-- `[a-zA-Z0-9]` and `[a-zA-Z0-9._-]`
abbrev pub is_alnum : ℕ → Bool
is_alnum c = (leb b'a' c && leb c b'z') || (leb b'A' c && leb c b'Z') || (leb b'0' c && leb c b'9')

abbrev pub is_name_char : ℕ → Bool
is_name_char c = is_alnum c || c == b'.' || c == b'_' || c == b'-'

abbrev pub all_name_chars : Chars → Bool
all_name_chars [] = true
all_name_chars (c ∷ s) = is_name_char c && all_name_chars s

abbrev name_of : Chars → Bool
name_of [] = false
name_of (c ∷ s) = is_alnum c && all_name_chars s && leb (char_count s) 99

-- `checkNameRe`
unfoldable pub is_check_name : String → Bool
is_check_name s = name_of (codes s)

pub record Check : Type 0 where
  pub name : String
  pub category : String
  pub command : List String
  pub timeout_seconds : ℤ

-- `EffectiveTimeoutSeconds`
unfoldable pub effective_timeout : Check → ℤ
effective_timeout c =
    if int_eq c.timeout_seconds (pos 0) then pos default_timeout_seconds else c.timeout_seconds

pub record File : Type 0 where
  pub version : ℤ
  pub validation : List Check

pub data FileError : Type 0 where
  unsupported_version : ℤ → FileError
  no_checks : FileError
  too_many_checks : ℕ → FileError
  bad_name : ℕ → String → FileError
  duplicate_name : String → FileError
  unknown_category : String → String → FileError
  empty_command : String → FileError
  too_many_args : String → ℕ → FileError
  bad_timeout : String → FileError
  over_budget : ℤ → FileError

unfoldable pub list_length {ℓ} : {A : Type ℓ} → List A → ℕ
list_length [] = 0
list_length (x ∷ l) = suc (list_length l)

-- len(c.Command) == 0 || c.Command[0] == ""
abbrev pub no_command : List String → Bool
no_command [] = true
no_command (arg ∷ args) = str_eq arg ""

-- The guards of the loop's body, at index i, with the names seen.
unfoldable pub check_one : ℕ → List String → Check → Option FileError
check_one i seen c =
    if not (is_check_name c.name)
    then some (bad_name i c.name)
    else if is_member c.name seen
    then some (duplicate_name c.name)
    else if not (is_member c.category categories)
    then some (unknown_category c.name c.category)
    else if no_command c.command
    then some (empty_command c.name)
    else if ltb max_command_args (list_length c.command)
    then some (too_many_args c.name (list_length c.command))
    else if not
        (int_leb (pos 0) c.timeout_seconds && int_leb c.timeout_seconds (pos max_timeout_seconds))
    then some (bad_timeout c.name)
    else none

pub data Loop : Type 0 where
  summed : ℤ → Loop
  failed : FileError → Loop

abbrev pub after_check : Option FileError → Loop → Loop
after_check none rest = rest
after_check (some e) rest = failed e

-- The loop, with its index, `seen` and `total`.
unfoldable pub check_all : ℕ → List String → ℤ → List Check → Loop
check_all i seen total [] = summed total
check_all i seen total (c ∷ cs) =
    after_check (check_one i seen c)
      (check_all (i + 1) (c.name ∷ seen) (wrap_int (total +ℤ effective_timeout c)) cs)

abbrev pub budget : Loop → Option FileError
budget (failed e) = some e
budget (summed total) =
    if int_leb total (pos max_total_timeout_seconds) then none else some (over_budget total)

-- `validate`: none is a nil error.
unfoldable pub validate : File → Option FileError
validate f =
    let n = list_length f.validation in
    if not (int_eq f.version (pos 1))
    then some (unsupported_version f.version)
    else if n == 0
    then some no_checks
    else if ltb max_checks n
    then some (too_many_checks n)
    else budget (check_all 0 [] (pos 0) f.validation)

pub data ParseError : Type 0 where
  too_large : ParseError
  not_yaml : ParseError
  invalid : FileError → ParseError

pub data Parsed : Type 0 where
  parsed : File → Parsed
  unparsed : ParseError → Parsed

abbrev validated : File → Option FileError → Parsed
validated f none = parsed f
validated f (some e) = unparsed (invalid e)

abbrev decoded : Option File → Parsed
decoded none = unparsed not_yaml
decoded (some f) = validated f (validate f)

-- `Parse`; `decode` is the YAML decoder, with `KnownFields`.
unfoldable pub parse : (Chars → Option File) → Chars → Parsed
parse decode text =
    if ltb max_file_bytes (char_count text) then unparsed too_large else decoded (decode text)

-- What `Lstat` finds at the file's path.
pub data Stat : Type 0 where
  absent : Stat
  stat_failed : Stat
  entry : (regular : Bool) (size : ℕ) → Stat

-- A workspace as `Load` meets it: whether it opens, what stands at the path, and what a read of that path
-- gives, which may have changed since.
pub record Workspace : Type 0 where
  pub opens : Bool
  pub stat : Stat
  pub content : Option Chars

pub data Loaded : Type 0 where
  -- no file, and no error
  nothing : Loaded
  -- an error; whether the file is there
  load_failed : Bool → Loaded
  loaded : File → Loaded

abbrev pub finish_load : Parsed → Loaded
finish_load (parsed f) = loaded f
finish_load (unparsed e) = load_failed true

abbrev pub read_content : (Chars → Option File) → Option Chars → Loaded
read_content decode none = load_failed true
read_content decode (some text) = finish_load (parse decode (first_chars (max_file_bytes + 1) text))

abbrev pub load_entry : (Chars → Option File) → Workspace → Stat → Loaded
load_entry decode w absent = nothing
load_entry decode w stat_failed = load_failed false
load_entry decode w (entry regular size) =
    if not regular
    then load_failed true
    else if ltb max_file_bytes size
    then load_failed true
    else read_content decode w.content

-- `Load`
unfoldable pub load : (Chars → Option File) → Workspace → Loaded
load decode w = if w.opens then load_entry decode w w.stat else load_failed false

load_run :
    load
      (λ text. some (record {
        version = pos 1;
        validation =
            record {
              name = "unit";
              category = "unit_test";
              command = "go" ∷ "test" ∷ [];
              timeout_seconds = pos 0;
            }
            ∷ [];
      }))
      (record { opens = true; stat = entry true 40; content = some (codes "version: 1") })
    ≡ loaded (record {
      version = pos 1;
      validation =
          record {
            name = "unit";
            category = "unit_test";
            command = "go" ∷ "test" ∷ [];
            timeout_seconds = pos 0;
          }
          ∷ [];
    })
unfolding load parse validate list_length check_all check_one is_check_name is_member
    effective_timeout wrap_int ◌+ℤ◌ char_count first_chars
load_run = refl
