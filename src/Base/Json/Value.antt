-- ===== src/Base/Json/Value.antt =====
-- The data type of JSON values and the accesses that the program makes.
use neurolithe.Base.Text.{Text, text}
use neurolithe.Base.Text.Order.{text_cmp}
use Prim.Native.Nat.{ℕ, Ordering}
use mathlib.Core.Bool.{Bool}
use mathlib.Core.Option.{Option, none, some}
use mathlib.Core.List.{List, [], ◌∷◌}

-- A number is only compared, so a code stands for it.
mutual
  pub data Value : Type 0 where
    null : Value
    bool : Bool → Value
    number : ℕ → Value
    string : Text → Value
    array : Values → Value
    object : Fields → Value

  pub data Values : Type 0 where
    nil : Values
    cons : Value → Values → Values

  pub data Fields : Type 0 where
    end : Fields
    field : Text → Value → Fields → Fields

unfoldable pub get_field : Text → Fields → Option Value
unfolding text_cmp
get_field k end = none
get_field k (field j v m) =
    let rest = get_field k m in elim (text_cmp k j) [ Ordering.eq ↦ some v | _ ↦ rest ]

-- `Map::insert`, at the place of the key.
unfoldable pub put_field : Text → Value → Fields → Fields
unfolding text_cmp
put_field k v end = field k v end
put_field k v (field j w m) =
    let rest = put_field k v m in
    elim (text_cmp k j) [
      | Ordering.eq ↦ field k v m
      | Ordering.lt ↦ field k v (field j w m)
      | Ordering.gt ↦ field j w rest
    ]

-- `Value::get` by a key: nothing but an object has one.
unfoldable pub get : Text → Value → Option Value
unfolding get_field
get k (object m) = get_field k m
get k null = none
get k (bool b) = none
get k (number n) = none
get k (string t) = none
get k (array xs) = none

-- `.and_then(|v| v.as_str())`
abbrev pub as_str : Option Value → Option Text
as_str none = none
as_str (some (string t)) = some t
as_str (some null) = none
as_str (some (bool b)) = none
as_str (some (number n)) = none
as_str (some (array xs)) = none
as_str (some (object m)) = none

abbrev pub to_list : Values → List Value
to_list nil = []
to_list (cons x xs) = x ∷ to_list xs

abbrev pub of_list : List Value → Values
of_list [] = nil
of_list (x ∷ xs) = cons x (of_list xs)

-- `.and_then(|t| t.as_array())`, with no elements where there is no array.
abbrev as_array : Option Value → List Value
as_array none = []
as_array (some (array xs)) = to_list xs
as_array (some null) = []
as_array (some (bool b)) = []
as_array (some (number n)) = []
as_array (some (string t)) = []
as_array (some (object m)) = []

unfoldable pub tags_of : Value → List Value
unfolding get
tags_of v = as_array (get (text "tags") v)
