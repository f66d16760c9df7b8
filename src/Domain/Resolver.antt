-- ===== src/Domain/Resolver.antt =====
-- src/domain/cognition/conflict_resolver.rs: whether a new fact reinforces a stored one, refines it
-- or becomes a node of its own.
pub mod Payloads
pub mod Decisions
use neurolithe.Base.{
  ℕ, Bool, true, false, ◌&&◌, ◌||◌, Option, none, some, List, [], ◌∷◌, ◌++◌, ltb, if◌then◌else◌,
  ◌==◌, nat_key, text_key, length, is_empty, find, contains,
}
use neurolithe.Base.Text.{Text, text}
use neurolithe.Base.Float.{Float}
use neurolithe.Base.Json.Value.{
  Value, null, bool, number, string, array, object, Fields, end, field, get, put_field, as_str,
  of_list, tags_of,
}
use neurolithe.Base.Json.Equality.{value_key}
use neurolithe.Domain.Thresholds.{Thresholds}

-- `AdaptationResult`
pub data AdaptationResult : Type 0 where
  assimilated : ℕ → AdaptationResult
  accommodated_modify : ℕ → AdaptationResult
  accommodate_create : AdaptationResult

abbrev pub merge_candidates : ℕ
merge_candidates = 5

-- `identity`: the `dataId` and the `kind` of a payload.
unfoldable pub identity : Value → Option Text × Option Text
identity payload = (as_str (get (text "dataId") payload), as_str (get (text "kind") payload))

abbrev pub option_eqb : Option Text → Option Text → Bool
option_eqb none none = true
option_eqb none (some t) = false
option_eqb (some s) none = false
option_eqb (some s) (some t) = s == t

unfoldable pub same_identity : Value → Value → Bool
unfolding identity
same_identity a b =
    let (d, k) = identity a in let (d', k') = identity b in option_eqb d d' && option_eqb k k'

abbrev or_empty : Option Text → Text
or_empty none = []
or_empty (some t) = t

unfoldable pub fact_text : Value → Text
fact_text payload = or_empty (as_str (get (text "fact") payload))

-- The loop of `union_tags`: what `all` does not contain is pushed.
unfoldable pub push_missing : List Value → List Value → List Value
push_missing out [] = out
push_missing out (t ∷ ts) = push_missing (if contains out t then out else out ++ (t ∷ [])) ts

unfoldable pub union_tags : Value → Value → List Value
unfolding push_missing
union_tags a b = push_missing (tags_of a) (tags_of b)

-- The loop of `merge_payload`: the new values win.
unfoldable pub overlay : Fields → Fields → Fields
overlay merged end = merged
overlay merged (field k v rest) = overlay (put_field k v merged) rest

abbrev pub object_or_empty : Value → Fields
object_or_empty (object m) = m
object_or_empty null = end
object_or_empty (bool b) = end
object_or_empty (number n) = end
object_or_empty (string t) = end
object_or_empty (array xs) = end

unfoldable pub merge_payload : Value → Value → Value
merge_payload existing new =
    let merged = overlay (object_or_empty existing) (object_or_empty new) in
    let tags = union_tags existing new in
    object (if is_empty tags then merged else put_field (text "tags") (array (of_list tags)) merged)

-- What is read of a neighbour: its id and its payload.
pub record Neighbour : Type 0 where
  pub id : Option ℕ
  pub payload : Value

-- The port to the memory repository: a state, a search and two writes, each of which may fail.
pub record Repository (F E : Type 0) : Type 1 where
  pub State : Type 0
  pub find_similar_nodes : State → E → F → ℕ → Option (List (Neighbour × F))
  pub update_node_support : State → ℕ → Option Value → Option State
  pub update_node_content : State → ℕ → Value → E → Option State

pub record ConflictResolver (F : Type 0) : Type 0 where
  pub assimilation_threshold : F
  pub accommodation_threshold : F

-- `ConflictResolver::from_thresholds`
abbrev from_thresholds : {F : Type 0} → Thresholds F → ConflictResolver F
from_thresholds t = record {
  assimilation_threshold = t.values.assimilation.value;
  accommodation_threshold = t.values.accommodation.value;
}

-- The payload that reinforces a neighbour: there is one only for new tags on an object.
unfoldable pub reinforced : Value → Value → Option Value
reinforced old new =
    let tags = union_tags old new in
    if ltb (length (tags_of old)) (length tags)
    then elim old [
      | object m ↦ some (object (put_field (text "tags") (array (of_list tags)) m))
      | _ ↦ none
    ]
    else none

module _ (fl : Float) {E : Type 0} (repo : Repository fl.F64 E) where
  open fl use {F64, le}
  open repo use {State, find_similar_nodes, update_node_support, update_node_content}

  -- A write that fails ends `resolve` with its error and leaves the state.
  abbrev pub finish : State → Option State → AdaptationResult → Option AdaptationResult × State
  finish s none r = (none, s)
  finish s (some s') r = (some r, s')

  -- `resolve` once the merge partner is found.
  unfoldable pub adapt :
      ConflictResolver F64 → E → Value → Neighbour × F64 → State → Option AdaptationResult × State
  adapt cr embedding new (closest, distance) s = elim closest.id [
    | none ↦ (none, s)
    | some closest_id ↦
        if (fact_text closest.payload == fact_text new) || le distance cr.assimilation_threshold
        then finish s (update_node_support s closest_id (reinforced closest.payload new))
            (assimilated closest_id)
        else finish s
            (update_node_content s closest_id (merge_payload closest.payload new) embedding)
            (accommodated_modify closest_id)
  ]

  unfoldable pub resolve :
      ConflictResolver F64 → E → Value → State → Option AdaptationResult × State
  resolve cr embedding new s =
      elim (find_similar_nodes s embedding cr.accommodation_threshold merge_candidates) [
        | none ↦ (none, s)
        | some candidates ↦ elim (find (λ c. same_identity c.0.payload new) candidates) [
          | none ↦ (some accommodate_create, s)
          | some partner ↦ adapt cr embedding new partner s
        ]
      ]
