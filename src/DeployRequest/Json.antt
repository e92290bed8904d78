-- ===== src/DeployRequest/Json.antt =====
-- The JSON values that GitHub answers with, as far as the program tells them apart.
use Prim.Native.String.{String}
use infra.Prelude.{Bool, true, false, not, str_eq, if◌then◌else◌}

mutual
  pub data Json : Type 0 where
    null : Json
    text : String → Json
    object : Fields → Json
    -- A number, a list or a Boolean, and whether it is true as a condition.
    other : Bool → Json

  pub data Fields : Type 0 where
    no_field : Fields
    field : String → Json → Fields → Fields

-- `m.get(key)` for the fields of a mapping; a missing key is `null`.
unfoldable pub get : String → Fields → Json
get key no_field = null
get key (field k v rest) = let later = get key rest in if str_eq k key then v else later

-- `v == s` for a text
abbrev pub is_text : String → Json → Bool
is_text s (text t) = str_eq t s
is_text s _ = false

abbrev pub has_field : Fields → Bool
has_field no_field = false
has_field _ = true

-- `bool(v)`
abbrev pub is_true : Json → Bool
is_true null = false
is_true (text s) = not (str_eq s "")
is_true (object fields) = has_field fields
is_true (other b) = b

-- `v.get(key)` where `v` is a mapping, else `null`
unfoldable pub get_in : String → Json → Json
unfolding get
get_in key (object fields) = get key fields
get_in key _ = null
