-- ===== src/Prelude/Json.antt =====
-- The JSON values of the jsonb columns (`serde_json::Value`). A number that is a natural one is
-- `num`; any other, negative or fractional, is `real` with the text that `Number::to_string` prints.
use Prim.Native.Nat.{ℕ}
use Prim.Native.String.{String}
use mathlib.Core.Bool.{Bool}
use mathlib.Core.List.{List, [], ◌∷◌}
use mathlib.Core.Option.{Option, none, some}
use text.Mathlib.Text.{◌==◌}
use fineract_ai_backend.Prelude.Tests.{if◌then◌else◌, ◌>>=◌}

mutual
  pub data Json : Type 0 where
    null : Json
    bool : Bool → Json
    num : ℕ → Json
    real : String → Json
    str : String → Json
    arr : Items → Json
    obj : Fields → Json

  pub data Items : Type 0 where
    nil : Items
    cons : Json → Items → Items

  pub data Fields : Type 0 where
    end : Fields
    field : String → Json → Fields → Fields

abbrev pub array : List Json → Items
array [] = nil
array (x ∷ xs) = cons x (array xs)

-- An optional value serialises to null when it is absent.
abbrev pub optional : {A : Type 0} → (A → Json) → Option A → Json
optional f none = null
optional f (some a) = f a

-- Map::get, and Value::get on an object; a value of another kind has no fields.
abbrev pub lookup_field : String → Fields → Option Json
lookup_field key end = none
lookup_field key (field k v fs) = if k == key then some v else lookup_field key fs

abbrev pub get : String → Json → Option Json
get key (obj fs) = lookup_field key fs
get key _ = none

-- Map::insert: the value of a present key is replaced.
abbrev pub insert_field : String → Json → Fields → Fields
insert_field key w end = field key w end
insert_field key w (field k v fs) =
    if k == key then field k w fs else field k v (insert_field key w fs)

-- Value::as_str
abbrev pub as_str : Json → Option String
as_str (str s) = some s
as_str _ = none

abbrev pub items_list : Items → List Json
items_list nil = []
items_list (cons x xs) = x ∷ items_list xs

-- Value::as_array
abbrev pub as_array : Json → Option (List Json)
as_array (arr xs) = some (items_list xs)
as_array _ = none

-- `value.get(key).and_then(Value::as_str)`
abbrev pub get_str : String → Json → Option String
get_str key j = get key j >>= as_str

-- `value.get(key).and_then(Value::as_array)`
abbrev pub get_array : String → Json → Option (List Json)
get_array key j = get key j >>= as_array
