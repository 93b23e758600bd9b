-- ===== src/Json.antt =====
-- `serde_json::Value` as the program uses it: `get`, `as_str`, `as_array`, `as_object_mut().insert`
-- and the `json!` macro. A number with a fraction or an exponent is kept as its text, since the
-- program only passes it on.
use ledgerly.Prelude.{
  String, Bool, List, [], ◌∷◌, Option, none, some, ◌==◌, if◌then◌else◌, ◌≡◌, refl, arith, eq_iff,
}
use ledgerly.Prelude.Int.{ℤ}

mutual
  pub data Value : Type 0 where
    null : Value
    bool : Bool → Value
    number : ℤ → Value
    float : String → Value
    string : String → Value
    array : Items → Value
    object : Fields → Value

  pub data Items : Type 0 where
    nil : Items
    cons : Value → Items → Items

  pub data Fields : Type 0 where
    end : Fields
    field : String → Value → Fields → Fields

unfoldable pub get_field : String → Fields → Option Value
get_field k end = none
get_field k (field j v fs) = if j == k then some v else get_field k fs

unfoldable pub insert_field : String → Value → Fields → Fields
insert_field k v end = field k v end
insert_field k v (field j w fs) = if j == k then field j v fs else field j w (insert_field k v fs)

-- `value.get(key)`: `None` where the value is no object.
unfoldable pub get : String → Value → Option Value
unfolding get_field
get k (object fs) = get_field k fs
get k _ = none

-- `value.as_str()`
abbrev pub as_str : Value → Option String
as_str (string s) = some s
as_str _ = none

-- `value.get(key).and_then(|v| v.as_str())`
unfoldable pub get_str : String → Value → Option String
unfolding get
get_str k v = elim (get k v) [ none ↦ none | some w ↦ as_str w ]

unfoldable pub items : Items → List Value
items nil = []
items (cons v vs) = v ∷ items vs

unfoldable pub of_items : List Value → Items
of_items [] = nil
of_items (v ∷ vs) = cons v (of_items vs)

-- `value.as_array()`
abbrev pub as_array : Value → Option (List Value)
as_array (array vs) = some (items vs)
as_array _ = none

-- `if let Some(object) = value.as_object_mut() { object.insert(key, v); }`
unfoldable pub insert : String → Value → Value → Value
unfolding insert_field
insert k v (object fs) = object (insert_field k v fs)
insert k v w = w

-- `json!({ .. })`
unfoldable pub of_fields : List (String × Value) → Fields
of_fields [] = end
of_fields ((k, v) ∷ kvs) = field k v (of_fields kvs)

-- `json!` of an `Option<String>`
abbrev pub of_option : Option String → Value
of_option none = null
of_option (some s) = string s

pub items-of_items : (vs : List Value) → items (of_items vs) ≡ vs
unfolding items of_items
items-of_items [] = refl
items-of_items (v ∷ vs) = ground (arith, items-of_items vs)

get_field-insert_field :
    (k j : String) (v : Value) (fs : Fields)
    → get_field j (insert_field k v fs) ≡ (if k == j then some v else get_field j fs)
unfolding get_field insert_field
get_field-insert_field k j v end = refl
get_field-insert_field k j v (field i w fs) =
    ground (arith, eq_iff k j, eq_iff i k, eq_iff i j, get_field-insert_field k j v fs)

-- A field that is written is read back, and every other field stays.
pub get-insert :
    (k j : String) (v : Value) (fs : Fields)
    → get j (insert k v (object fs)) ≡ (if k == j then some v else get j (object fs))
unfolding get insert
get-insert k j v fs = get_field-insert_field k j v fs
