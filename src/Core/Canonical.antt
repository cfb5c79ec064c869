-- ===== src/Core/Canonical.antt =====
-- membrane-core/src/canonical.rs: object members in the order of their keys. A map of serde_json
-- holds a key once; of a list that repeats a key the first member is the one that lookups find.
use the_membrane.Prelude.{String, if◌then◌else◌, str_lt}
use the_membrane.Core.Value.{
  Value, null, bool, number, string, array, object, Items, nil, cons, Fields, end, field,
}

-- One step of `keys.sort()` and of the inserts that follow it.
unfoldable pub insert_field : String → Value → Fields → Fields
insert_field k v end = field k v end
insert_field k v (field j w rest) =
    let later = field j w (insert_field k v rest) in
    if str_lt j k then later else field k v (field j w rest)

unfoldable mutual
  pub canonicalize_value : Value → Value
  canonicalize_value null = null
  canonicalize_value (bool b) = bool b
  canonicalize_value (number n) = number n
  canonicalize_value (string s) = string s
  canonicalize_value (array xs) = array (canonicalize_items xs)
  canonicalize_value (object fs) = object (canonicalize_fields fs)

  pub canonicalize_items : Items → Items
  canonicalize_items nil = nil
  canonicalize_items (cons x xs) = cons (canonicalize_value x) (canonicalize_items xs)

  pub canonicalize_fields : Fields → Fields
  canonicalize_fields end = end
  canonicalize_fields (field k v rest) =
      insert_field k (canonicalize_value v) (canonicalize_fields rest)
