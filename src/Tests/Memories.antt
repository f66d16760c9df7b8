-- ===== src/Tests/Memories.antt =====
-- Conflict resolution at concrete payloads and on a repository that lists its writes.
use neurolithe.Domain.Resolver.Payloads.{
  merge_payload-IsMerge, IsMerge, is_map, merge_payload-IsMerge,
}
use neurolithe.Base.{ℕ, ◌≡◌, refl, true, some, List, [], ◌∷◌, ◌++◌, All, nat_key, text_key}
use neurolithe.Base.Text.{text}
use neurolithe.Base.Text.Order.{text_cmp}
use neurolithe.Base.Json.Value.{
  Value, string, array, object, Fields, end, field, get, get_field, of_list,
}
use neurolithe.Base.Json.Equality.{value_key}
use neurolithe.Domain.Resolver.{
  accommodated_modify, identity, same_identity, fact_text, merge_payload, object_or_empty,
  Neighbour, Repository, ConflictResolver, merge_candidates, adapt, resolve,
}
use neurolithe.Domain.Resolver.Decisions.{IsOther, Wrote, resolve_adapts}
use neurolithe.Tests.Floats.{Fixed, fixed}

abbrev tags : List Value → Fields
tags ts = field (text "tags") (array (of_list ts)) end

abbrev old_fact : Value
old_fact = object (
    field (text "fact") (string (text "likes tea")) (
      field (text "kind") (string (text "preference"))
        (tags (string (text "food") ∷ string (text "drink") ∷ []))))

abbrev new_fact : Value
new_fact = object (
    field (text "fact") (string (text "likes green tea")) (
      field (text "kind") (string (text "preference"))
        (tags (string (text "drink") ∷ string (text "asia") ∷ []))))

abbrev document : Value
document = object (field (text "dataId") (string (text "doc-1")) end)

new_fact-is_map : is_map (object_or_empty new_fact) ≡ true
unfolding get_field text_cmp
new_fact-is_map = refl

same_kind : same_identity old_fact new_fact ≡ true
unfolding same_identity identity get get_field text_cmp
same_kind = refl

merge_payload-IsMerge_example : IsMerge old_fact new_fact (merge_payload old_fact new_fact)
merge_payload-IsMerge_example = merge_payload-IsMerge old_fact new_fact new_fact-is_map same_kind

abbrev neighbour : ℕ → Value → Neighbour
neighbour id payload = record { id = some id; payload = payload }

abbrev near : List (Neighbour × Fixed)
near = (neighbour 4 document, fixed.decimal 10 2) ∷ (neighbour 7 old_fact, fixed.decimal 45 2) ∷ []

-- The state is the list of the ids that were written.
abbrev store : Repository Fixed ℕ
store = record {
  State = List ℕ;
  find_similar_nodes = λ s e d k. some near;
  update_node_support = λ s id payload. some (id ∷ s);
  update_node_content = λ s id payload e. some (id ∷ s);
}

abbrev resolver : ConflictResolver Fixed
resolver = record {
  assimilation_threshold = fixed.decimal 40 2;
  accommodation_threshold = fixed.decimal 58 2;
}

-- The document is nearer, but only the fact has the identity of the new payload.
modified : resolve fixed store resolver 0 new_fact [] ≡ (some (accommodated_modify 7), 7 ∷ [])
unfolding resolve adapt same_identity identity fact_text get get_field text_cmp
modified = refl

resolve_adapts_example :
    (before after : List (Neighbour × Fixed)) × (c : Neighbour × Fixed) × (store.find_similar_nodes
        [] 0 resolver.accommodation_threshold merge_candidates
      ≡ some (before ++ (c ∷ after)))
    × All (IsOther fixed store resolver 0 new_fact []) before
    × (same_identity c.0.payload new_fact ≡ true)
    × Wrote fixed store resolver 0 new_fact [] c (accommodated_modify 7) (7 ∷ [])
resolve_adapts_example =
    resolve_adapts fixed store resolver 0 new_fact [] (accommodated_modify 7) (7 ∷ []) modified (cc)

abbrev other_document : Value
other_document = object (field (text "dataId") (string (text "doc-2")) end)
