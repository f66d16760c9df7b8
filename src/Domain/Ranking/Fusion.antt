-- ===== src/Domain/Ranking/Fusion.antt =====
-- src/domain/ranking.rs: `rrf_fuse`, reciprocal rank fusion of two candidate lists.
pub mod Entries
pub mod Results
use neurolithe.Base.{
  ℕ, ◌+◌, compare, Ordering, Bool, true, false, Option, none, some, List, [], ◌∷◌, ◌++◌, map,
  if◌then◌else◌, is_some, Key, nat_key, text_key,
}
use neurolithe.Base.Float.{Float}
use neurolithe.Base.Maps.{Map, lookup, insert, remove}
use neurolithe.Base.Sort.{sort_by}
use neurolithe.Domain.Tuning.{Ranking, usize_max}

pub record Entry (F : Type 0) : Type 0 where
  pub score : F
  pub vector_rank : Option ℕ
  pub keyword_rank : Option ℕ

-- `entries` and `order`, which the closure `add` writes.
pub record State (K F : Type 0) : Type 0 where
  pub entries : Map K (Entry F)
  pub order : List K

abbrev pub or_default {ℓ} : {A : Type ℓ} → Option A → A → A
or_default none d = d
or_default (some a) d = a

-- `rank_key`
abbrev rank_key : Option ℕ → ℕ
rank_key r = or_default r usize_max

-- `Ordering::then_with`
abbrev then_with : Ordering → Ordering → Ordering
then_with Ordering.eq o = o
then_with Ordering.lt o = Ordering.lt
then_with Ordering.gt o = Ordering.gt

module _ (fl : Float) where
  open fl use {F64, add, div, decimal, total_cmp}

  -- `Entry::default()`
  abbrev pub default_entry : Entry F64
  default_entry = record { score = decimal 0 0; vector_rank = none; keyword_rank = none }

  abbrev slot : Bool → Entry F64 → Option ℕ
  slot true e = e.vector_rank
  slot false e = e.keyword_rank

  abbrev set_slot : Bool → ℕ → F64 → Entry F64 → Entry F64
  set_slot true r s e = record e { score = s; vector_rank = some r }
  set_slot false r s e = record e { score = s; keyword_rank = some r }

  -- `weight / (ranking.rrf_k + rank as f64)`
  unfoldable pub contribution : F64 → F64 → ℕ → F64
  contribution weight rrf_k rank = div weight (add rrf_k (decimal rank 0))

  -- The body of `add` on one entry: only the first rank of a list counts.
  unfoldable pub credit : F64 → F64 → Bool → ℕ → Entry F64 → Entry F64
  credit weight rrf_k is_vector rank e =
      if is_some (slot is_vector e)
      then e
      else set_slot is_vector rank (add e.score (contribution weight rrf_k rank)) e

  -- The closure of `sort_by`: by score downwards, then by the ranks.
  abbrev pub compare_entries : {K : Type 0} → K × Entry F64 → K × Entry F64 → Ordering
  compare_entries (_, a) (_, b) =
      then_with
        (then_with (total_cmp b.score a.score)
          (compare (rank_key a.vector_rank) (rank_key b.vector_rank)))
        (compare (rank_key a.keyword_rank) (rank_key b.keyword_rank))

  abbrev pub scored : {K : Type 0} → K × Entry F64 → K × F64
  scored (k, e) = (k, e.score)

  module _ {K : Type 0} ⦃key : Key K⦄ where
    -- One round of `add`: `or_insert_with` records a new key in `order`.
    unfoldable pub add_one : F64 → F64 → Bool → ℕ → K → State K F64 → State K F64
    add_one weight rrf_k is_vector rank k s = elim (lookup k s.entries) [
      | none ↦ record {
        entries = insert k (credit weight rrf_k is_vector rank default_entry) s.entries;
        order = s.order ++ (k ∷ []);
      }
      | some e ↦ record s { entries = insert k (credit weight rrf_k is_vector rank e) s.entries }
    ]

    -- The loop of `add`; `rank` is the 1-based rank of the head.
    unfoldable pub add_all : F64 → F64 → Bool → ℕ → List K → State K F64 → State K F64
    add_all weight rrf_k is_vector rank [] s = s
    add_all weight rrf_k is_vector rank (k ∷ ks) s =
        add_all weight rrf_k is_vector (rank + 1) ks (add_one weight rrf_k is_vector rank k s)

    -- `order.into_iter().map(..)`: `none` is the panic of `expect`.
    unfoldable pub collect : List K → Map K (Entry F64) → Option (List (K × Entry F64))
    collect [] m = some []
    collect (k ∷ ks) m =
        let rest = collect ks (remove k m) in
        elim (lookup k m) [
          | none ↦ none
          | some e ↦ elim rest [ none ↦ none | some out ↦ some ((k, e) ∷ out) ]
        ]

    abbrev pub start : State K F64
    start = record { entries = []; order = [] }

    unfoldable pub ranked : List K → List K → Ranking F64 → State K F64
    ranked vector keyword r =
        add_all r.keyword_weight r.rrf_k false 1 keyword
          (add_all r.vector_weight r.rrf_k true 1 vector start)

    unfoldable pub rrf_fuse : List K → List K → Ranking F64 → Option (List (K × F64))
    rrf_fuse vector keyword r =
        let s = ranked vector keyword r in
        elim (collect s.order s.entries) [
          | none ↦ none
          | some fused ↦ some (map scored (sort_by compare_entries fused))
        ]
