-- ===== src/Core/Value.antt =====
-- `serde_json::Value` and membrane-core/src/canonical.rs. A number is kept as the text that
-- serde_json prints for it, which is all that the program does with one.
use the_membrane.Prelude.{Bool, String, ◌==◌, Option, none, some, List, [], ◌∷◌, if◌then◌else◌}

mutual
  pub data Value : Type 0 where
    null : Value
    bool : Bool → Value
    number : String → Value
    string : String → Value
    array : Items → Value
    object : Fields → Value

  pub data Items : Type 0 where
    nil : Items
    cons : Value → Items → Items

  pub data Fields : Type 0 where
    end : Fields
    field : String → Value → Fields → Fields

-- `map.get(name)`
unfoldable pub get_field : Fields → String → Option Value
get_field end name = none
get_field (field k v rest) name = if k == name then some v else get_field rest name

-- `value.get(name)`
unfoldable pub get : Value → String → Option Value
unfolding get_field
get (object fields) name = get_field fields name
get null name = none
get _ name = none

unfoldable pub as_str : Value → Option String
as_str (string s) = some s
as_str null = none
as_str _ = none

abbrev pub and_then {ℓ κ} : {A : Type ℓ} {B : Type κ} → Option A → (A → Option B) → Option B
and_then none f = none
and_then (some a) f = f a

-- `value.get(name).and_then(|v| v.as_str())`
unfoldable pub str_field : Value → String → Option String
unfolding get as_str
str_field value name = and_then (get value name) as_str

-- `json!` of an `Option<&str>`
abbrev pub opt_string : Option String → Value
opt_string none = null
opt_string (some s) = string s

abbrev pub strings : List String → Items
strings [] = nil
strings (s ∷ rest) = cons (string s) (strings rest)
