-- ===== src/Json.antt =====
-- `serde_json::Value`. A number that is an `i64` is its 64-bit pattern; any other keeps its text.
use time_tracker.Common.{
  ◌≡◌, refl, ap, ℕ, ◌%◌, String, Bool, Option, none, some, List, [], ◌∷◌, str_eq, if◌then◌else◌,
}
use time_tracker.Common.Word.{I32, i32_mod}

mutual
  pub data Json : Type 0 where
    null : Json
    bool : Bool → Json
    number : ℕ → Json
    other_number : String → Json
    string : String → Json
    array : Items → Json
    object : Fields → Json

  pub data Items : Type 0 where
    nil : Items
    cons : Json → Items → Items

  pub data Fields : Type 0 where
    end : Fields
    field : String → Json → Fields → Fields

-- `Value::Array(values)`
abbrev pub of_list : List Json → Items
of_list [] = nil
of_list (v ∷ vs) = cons v (of_list vs)

abbrev pub to_list : Items → List Json
to_list nil = []
to_list (cons v vs) = v ∷ to_list vs

-- `value.as_array()`
abbrev pub as_array : Json → Option (List Json)
as_array (array vs) = some (to_list vs)
as_array _ = none

-- `value.as_str()`
abbrev pub as_str : Json → Option String
as_str (string s) = some s
as_str _ = none

-- `value.as_bool()`
abbrev pub as_bool : Json → Option Bool
as_bool (bool b) = some b
as_bool _ = none

-- `value.as_i64()`
abbrev pub as_i64 : Json → Option ℕ
as_i64 (number n) = some n
as_i64 _ = none

-- `i as i32`
abbrev pub as_i32 : ℕ → I32
as_i32 n = n % i32_mod

-- `params.get(key)`
abbrev pub get : Fields → String → Option Json
get end k = none
get (field j v fs) k = if str_eq j k then some v else get fs k

-- `obj.insert(key, value)`
abbrev pub put_field : String → Json → Fields → Fields
put_field k w end = field k w end
put_field k w (field j v fs) = if str_eq j k then field j w fs else field j v (put_field k w fs)

pub to_list-of_list : (vs : List Json) → to_list (of_list vs) ≡ vs
to_list-of_list [] = refl
to_list-of_list (v ∷ vs) = ap (λ r. v ∷ r) (to_list-of_list vs)
