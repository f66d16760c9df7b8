-- ===== src/Domain/Resolver/Payloads.antt =====
-- What merging keeps: the tags of both sides, every key, and the identity of the node.
use neurolithe.Base.{
  ◌≡◌, refl, sym, ap, ◌∙◌, inl, inr, Bool, true, false, not, ◌&&◌, ◌||◌, Option, none, some, List,
  [], ◌∷◌, ◌++◌, append_assoc, append-nil, arith, if◌then◌else◌, Bool-cases, is_some, ◌==◌,
  list_eqb_iff, same→eq, is_empty, contains, contains-append, distinct, distinct-snoc, nat_key,
  text_key,
}
use neurolithe.Base.Text.{Text, text}
use neurolithe.Base.Json.Value.{
  Value, null, bool, number, string, array, object, Fields, end, field, get, get_field, put_field,
  as_str, of_list, to_list, tags_of,
}
use neurolithe.Base.Json.Equality.{value_key, get_field-put_field}
use neurolithe.Base.Text.Order.{eq_of_text_cmp, text_cmp_refl}
use neurolithe.Domain.Resolver.{
  identity, option_eqb, same_identity, push_missing, union_tags, overlay, object_or_empty,
  merge_payload,
}

contains-push_missing :
    (ts out : List Value) (t : Value)
    → contains (push_missing out ts) t ≡ (contains out t || contains ts t)
unfolding push_missing
contains-push_missing [] out t = ground arith
contains-push_missing (x ∷ ts) out t = elim (Bool-cases (contains out x)) [
  | inl old ↦ rw (old, contains-push_missing ts out t) (ground (arith, same→eq x t))
  | inr new ↦
      rw (new, contains-push_missing ts (out ++ (x ∷ [])) t, contains-append out (x ∷ []) t)
        (ground arith)
]

distinct-push_missing :
    (ts out : List Value) → distinct out ≡ true → distinct (push_missing out ts) ≡ true
unfolding push_missing
distinct-push_missing [] out h = h
distinct-push_missing (x ∷ ts) out h = elim (Bool-cases (contains out x)) [
  | inl old ↦ rw old (distinct-push_missing ts out h)
  | inr new ↦ rw new (distinct-push_missing ts (out ++ (x ∷ [])) (distinct-snoc out x h new))
]

push_missing-prefix :
    (ts out : List Value) → (more : List Value) × (push_missing out ts ≡ out ++ more)
unfolding push_missing
push_missing-prefix [] out = ([], sym (append-nil out))
push_missing-prefix (x ∷ ts) out = elim (Bool-cases (contains out x)) [
  | inl old ↦ rw old (push_missing-prefix ts out)
  | inr new ↦
      let (more, e) = push_missing-prefix ts (out ++ (x ∷ [])) in
      rw new (x ∷ more, e ∙ append_assoc out (x ∷ []) more)
]

-- The union of the tags begins with the old ones, has a tag exactly if one of the sides has it, and
-- repeats none if the old ones do not.
pub union_tags_lem :
    (old new : Value)
    → ((more : List Value) × (union_tags old new ≡ tags_of old ++ more))
      × ((t : Value)
          → contains (union_tags old new) t
            ≡ (contains (tags_of old) t || contains (tags_of new) t))
      × (distinct (tags_of old) ≡ true → distinct (union_tags old new) ≡ true)
unfolding union_tags
union_tags_lem old new = (
  push_missing-prefix (tags_of new) (tags_of old),
  λ t. contains-push_missing (tags_of new) (tags_of old) t,
  distinct-push_missing (tags_of new) (tags_of old),
)

abbrev pub or_this {ℓ} : {A : Type ℓ} → Option A → Option A → Option A
or_this none d = d
or_this (some a) d = some a

-- No key stands twice in an object, as in a `BTreeMap`.
abbrev pub is_map : Fields → Bool
is_map end = true
is_map (field k v m) = not (is_some (get_field k m)) && is_map m

get_field-field :
    (k j : Text) (v : Value) (m : Fields)
    → get_field k (field j v m) ≡ (if k == j then some v else get_field k m)
unfolding get_field
get_field-field k j v m = ground (arith, text_cmp_refl k, eq_of_text_cmp k j, list_eqb_iff k j)

get_field-end : (k : Text) → get_field k end ≡ none
unfolding get_field
get_field-end k = refl

get_field-overlay :
    (k : Text) (new old : Fields)
    → is_map new ≡ true
    → get_field k (overlay old new) ≡ or_this (get_field k new) (get_field k old)
unfolding overlay
get_field-overlay k end old h = rw get_field-end
get_field-overlay k (field j v m) old h =
    get_field-overlay k m (put_field j v old) (ground arith)
    ∙ rw (get_field-put_field j k v old, get_field-field k j v m) (ground (arith, list_eqb_iff k j))

abbrev get_object : Text → Value → Option Value
get_object k v = get_field k (object_or_empty v)

get-get_object : (k : Text) (v : Value) → get k v ≡ get_object k v
unfolding get get_field
get-get_object k (object m) = refl
get-get_object k null = refl
get-get_object k (bool b) = refl
get-get_object k (number n) = refl
get-get_object k (string t) = refl
get-get_object k (array xs) = refl

-- A key other than `tags` has the new value, if the new payload has the key, and else the old one.
pub get-merge_payload :
    (k : Text) (old new : Value)
    → is_map (object_or_empty new) ≡ true
    → (k == text "tags") ≡ false
    → get k (merge_payload old new) ≡ or_this (get k new) (get k old)
unfolding merge_payload get
get-merge_payload k old new h other =
    let kept = get_field-overlay k (object_or_empty new) (object_or_empty old) h in
    rw (get-get_object k new, get-get_object k old)
      (ground (
        arith,
        kept,
        get_field-put_field (text "tags") k (array (of_list (union_tags old new)))
            (overlay (object_or_empty old) (object_or_empty new)),
      ))

to_list-of_list : (xs : List Value) → to_list (of_list xs) ≡ xs
to_list-of_list [] = refl
to_list-of_list (x ∷ xs) = ap (◌∷◌ x) (to_list-of_list xs)

tags-put_field :
    (tags : List Value) (m : Fields)
    → tags_of (object (put_field (text "tags") (array (of_list tags)) m)) ≡ tags
unfolding tags_of
tags-put_field tags m =
    rw (get-get_object, get_field-put_field (text "tags") (text "tags") (array (of_list tags)) m)
      (to_list-of_list tags)

-- The tags of a merged payload are the union of the tags of both sides.
tags-merge_payload :
    (old new : Value)
    → is_empty (union_tags old new) ≡ false
    → tags_of (merge_payload old new) ≡ union_tags old new
unfolding merge_payload
tags-merge_payload old new some_tags =
    let tags = union_tags old new in
    let merged = overlay (object_or_empty old) (object_or_empty new) in
    rw some_tags (tags-put_field tags merged)

option_eqb_eq : (a b : Option Text) → option_eqb a b ≡ true → a ≡ b
option_eqb_eq none none h = refl
option_eqb_eq none (some t) h = cc
option_eqb_eq (some s) none h = cc
option_eqb_eq (some s) (some t) h = ground (arith, list_eqb_iff s t)

same_identity_eq : (a b : Value) → same_identity a b ≡ true → identity a ≡ identity b
unfolding same_identity
same_identity_eq a b h =
    let (d, k) = identity a in
    let (d', k') = identity b in ground (arith, option_eqb_eq d d', option_eqb_eq k k')

as_str-or_this : (a b : Option Value) → as_str a ≡ as_str b → as_str (or_this a b) ≡ as_str b
as_str-or_this none b h = refl
as_str-or_this (some a) b h = h

identity-merge_payload :
    (old new : Value)
    → is_map (object_or_empty new) ≡ true
    → same_identity old new ≡ true
    → identity (merge_payload old new) ≡ identity old
unfolding identity
identity-merge_payload old new h same =
    let e = same_identity_eq old new same in
    let id = get-merge_payload (text "dataId") old new h refl in
    let kind = get-merge_payload (text "kind") old new h refl in
    rw (
      id,
      kind,
      as_str-or_this (get (text "dataId") new) (get (text "dataId") old) (sym (ap (λ p. p.0) e)),
      as_str-or_this (get (text "kind") new) (get (text "kind") old) (sym (ap (λ p. p.1) e)),
    )

-- What a merge of two payloads of one document and kind is.
pub record IsMerge (old new merged : Value) : Type 0 where
  pub identity_kept : identity merged ≡ identity old
  pub values :
      (k : Text) → (k == text "tags") ≡ false → get k merged ≡ or_this (get k new) (get k old)
  pub tags :
      is_empty (union_tags old new) ≡ false
      → (t : Value)
      → contains (tags_of merged) t ≡ (contains (tags_of old) t || contains (tags_of new) t)
  pub old_tags :
      is_empty (union_tags old new) ≡ false
      → (more : List Value) × (tags_of merged ≡ tags_of old ++ more)

-- Merging two payloads of the same document and kind keeps both. Every key but `tags` has the new
-- value, if the new payload has the key, and else the old one. Where either has a tag, the merged
-- tags are the old ones, followed by others, and are exactly the tags of both.
pub merge_payload-IsMerge :
    (old new : Value)
    → is_map (object_or_empty new) ≡ true
    → same_identity old new ≡ true
    → IsMerge old new (merge_payload old new)
merge_payload-IsMerge old new h same =
    let (more, all_of, once) = union_tags_lem old new in
    record {
      identity_kept = identity-merge_payload old new h same;
      values = λ k other. get-merge_payload k old new h other;
      tags = λ some_tags t. rw (tags-merge_payload old new some_tags) (all_of t);
      old_tags = λ some_tags. (more.0, tags-merge_payload old new some_tags ∙ more.1);
    }
