-- ===== src/Base/Json/Equality.antt =====
-- `PartialEq` on JSON values, and the law of `insert`.
use neurolithe.Base.{
  ◌≡◌, ◌↔◌, Bool, true, false, some, arith, if◌then◌else◌, Key, ◌==◌, nat_key, text_key,
  list_eqb_iff,
}
use native.Mathlib.Decide.{ℕ_discrete}
use neurolithe.Base.Text.{Text}
use neurolithe.Base.Json.Value.{Value, Fields, end, field, get_field, put_field}
use neurolithe.Base.Text.Order.{text_cmp_refl, eq_of_text_cmp}

-- What is inserted is found, and nothing else changes.
pub get_field-put_field :
    (k j : Text) (v : Value) (m : Fields)
    → get_field j (put_field k v m) ≡ (if j == k then some v else get_field j m)
unfolding get_field put_field
get_field-put_field k j v end =
    ground (arith, text_cmp_refl j, eq_of_text_cmp j k, list_eqb_iff j k)
get_field-put_field k j v (field i w m) = ground (
  arith,
  text_cmp_refl j,
  text_cmp_refl k,
  eq_of_text_cmp j k,
  eq_of_text_cmp k i,
  eq_of_text_cmp j i,
  list_eqb_iff j k,
  get_field-put_field k j v m,
)

-- `==` on values, by the decision of their equality.
unfoldable pub value_discrete : Discrete Value
value_discrete = hlevel ℕ_discrete

abbrev value_eqb : Value → Value → Bool
value_eqb a b = elim (value_discrete a b) [ yes _ ↦ true | no _ ↦ false ]

pub value_eqb_iff : (a b : Value) → (value_eqb a b ≡ true) ↔ (a ≡ b)
value_eqb_iff a b = (λ h. ground arith, λ h. ground arith)

instance abbrev pub value_key : Key Value
value_key = record { same = value_eqb; same_iff = value_eqb_iff }
