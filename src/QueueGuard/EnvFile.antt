-- ===== src/QueueGuard/EnvFile.antt =====
-- `_load_env_file` of libs/deploy_queue_guard.py. The environment is a dict; the file is its text, or
-- `none` if it does not exist.
use mathlib.Core.Option
use infra.Prelude.{
  String, ◌≡◌, refl, ◌∙◌, false, not, ◌||◌, Option, none, some, List, [], ◌∷◌, arith, if◌then◌else◌,
  str_eq, eq_iff, starts_with,
}
use infra.Prelude.Dict.{Dict, lookup, insert, lookup-insert}
use infra.Prelude.Text.{strip, strip_of, split_once, contains_text}
use infra.Prelude.Text.Split.{splitlines}

-- `os.environ.get(key)`, with a missing key read as an empty one.
abbrev pub value_of : String → Dict String → String
value_of key environ = Option.get_or (lookup key environ) ""

-- The key and the value that a line assigns, if it assigns one.
unfoldable pub assignment : String → Option (String × String)
assignment raw =
    let line = strip raw in
    let (before, after) = split_once b'=' line in
    let key = strip before in
    let value = strip_of 39 (strip_of 34 (strip (Option.get_or after ""))) in
    if str_eq line "" || starts_with line "#" || not (contains_text "=" line)
    then none
    else if str_eq key "" || str_eq value ""
    then none
    else some (key, value)

-- A key that has a value keeps it.
unfoldable pub assign : Dict String → Option (String × String) → Dict String
assign environ none = environ
assign environ (some (key, value)) =
    if str_eq (value_of key environ) "" then insert key value environ else environ

unfoldable pub load_lines : List String → Dict String → Dict String
load_lines [] environ = environ
load_lines (raw ∷ rest) environ = load_lines rest (assign environ (assignment raw))

unfoldable pub load_env_file : Option String → Dict String → Dict String
unfolding load_lines
load_env_file none environ = environ
load_env_file (some content) environ = load_lines (splitlines content) environ

-- The first value that the lines assign to `key`, or an empty text.
abbrev pub first_assigned : String → List String → String
first_assigned key [] = ""
first_assigned key (raw ∷ rest) = elim (assignment raw) [
  | none ↦ first_assigned key rest
  | some (j, value) ↦ if str_eq j key then value else first_assigned key rest
]

assignment_value :
    (raw key value : String) → assignment raw ≡ some (key, value) → str_eq value "" ≡ false
unfolding assignment
assignment_value raw key value h = ground arith

-- What one assignment leaves of a key's value, and what a later line may still assign.
load_assigned :
    (key rest : String) (environ : Dict String) (a : Option (String × String))
    → ((j value : String) → a ≡ some (j, value) → str_eq value "" ≡ false)
    → (if str_eq (value_of key (assign environ a)) ""
        then rest
        else value_of key (assign environ a))
      ≡ (if str_eq (value_of key environ) ""
          then elim a [ none ↦ rest | some (j, value) ↦ if str_eq j key then value else rest ]
          else value_of key environ)
unfolding assign
load_assigned key rest environ none h = refl
load_assigned key rest environ (some (j, value)) h =
    ground (arith, h j value refl, lookup-insert key j value environ, eq_iff j key)

-- After the file is loaded, a key that had a value has it still, and any other key has the first value
-- that the lines assign to it: an empty assignment counts for nothing.
pub load_lines-value :
    (key : String) (lines : List String) (environ : Dict String)
    → value_of key (load_lines lines environ) ≡ (
        if str_eq (value_of key environ) "" then first_assigned key lines else value_of key environ)
unfolding load_lines
load_lines-value key [] environ = ground (arith, eq_iff (value_of key environ) "")
load_lines-value key (raw ∷ rest) environ =
    load_lines-value key rest (assign environ (assignment raw))
    ∙ load_assigned key (first_assigned key rest) environ (assignment raw)
        (λ j value e. assignment_value raw j value e)
