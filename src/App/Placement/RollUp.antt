-- ===== src/App/Placement/RollUp.antt =====
-- src/application/ltm_placement.rs: `roll_up_from`, which walks from a node to all its ancestors and
-- recomputes their summaries.
pub mod Visits
pub mod Walk
pub mod Keeps
use neurolithe.Base.{
  ℕ, zero, suc, ◌+◌, compare, Ordering, Bool, true, Option, none, some, List, [], ◌∷◌, ◌++◌, ltb,
  if◌then◌else◌, length, nat_key, text_key,
}
use neurolithe.Base.Maps.{Map, lookup, insert}
use mathlib.Core.List.{Perm}
use neurolithe.Base.Sort.{sort_by}
use neurolithe.Base.Text.{Unicode}
use neurolithe.Store.Ltm.Rows.{Store}
use neurolithe.Store.Ltm.Queries.{get_parents}
use neurolithe.App.Placement.Choice.{ids_of}
use neurolithe.App.Placement.Summaries.{recompute_summary}

-- The order in which a HashMap or a HashSet hands out its elements: each of them, as often as it is
-- there.
pub record HashOrder : Type 1 where
  pub order : {A : Type 0} → List A → List A
  pub order-perm : {A : Type 0} (xs : List A) → Perm (order xs) xs

-- `dist` and `queue`.
pub record Walking : Type 0 where
  pub dist : Map ℕ ℕ
  pub queue : List ℕ

-- `is_none_or(|&old| nd < old)`
abbrev pub is_closer : ℕ → Option ℕ → Bool
is_closer nd none = true
is_closer nd (some old) = ltb nd old

unfoldable pub visit : ℕ → ℕ → Walking → Walking
visit nd pid w =
    if is_closer nd (lookup pid w.dist)
    then record { dist = insert pid nd w.dist; queue = w.queue ++ (pid ∷ []) }
    else w

-- The `for` loop over the parents of a node.
unfoldable pub visit_all : ℕ → List ℕ → Walking → Walking
visit_all nd [] w = w
visit_all nd (p ∷ ps) w = visit_all nd ps (visit nd p w)

-- The `while` loop; `none` is the panic of `dist[&node_id]`, or that the fuel ran out.
unfoldable pub walk : (ℕ → List ℕ) → ℕ → Walking → Option (Map ℕ ℕ)
walk parents zero w = none
walk parents (suc fuel) w = elim w.queue [
  | [] ↦ some w.dist
  | x ∷ rest ↦ elim (lookup x w.dist) [
    | none ↦ none
    | some d ↦ walk parents fuel (visit_all (d + 1) (parents x) (record w { queue = rest }))
  ]
]

abbrev pub from_node : ℕ → Walking
from_node start = record { dist = (start, 0) ∷ []; queue = start ∷ [] }

abbrev pub parent_ids : {F E : Type 0} → Store F E → ℕ → List ℕ
parent_ids s x = ids_of (get_parents x s)

-- A node is put into the queue once, so that the number of nodes bounds the rounds.
abbrev pub ancestors : {F E : Type 0} → ℕ → Store F E → Option (Map ℕ ℕ)
ancestors start s = walk (parent_ids s) (suc (suc (length s.tree_nodes))) (from_node start)

abbrev pub by_depth : ℕ × ℕ → ℕ × ℕ → Ordering
by_depth a b = compare a.1 b.1

module _ (u : Unicode) (hash : HashOrder) (max_len : ℕ) {F E : Type 0} where
  unfoldable pub recompute_all : List (ℕ × ℕ) → Store F E → Store F E
  recompute_all [] s = s
  recompute_all (e ∷ es) s = recompute_all es (recompute_summary u max_len e.0 s)

  unfoldable pub roll_up_from : ℕ → Store F E → Option (Store F E)
  roll_up_from start s = elim (ancestors start s) [
    | none ↦ none
    | some dist ↦ some (recompute_all (sort_by by_depth (hash.order dist)) s)
  ]

  -- `for pid in parents { self.roll_up_from(pid)?; }`
  unfoldable pub roll_up_all : List ℕ → Store F E → Option (Store F E)
  roll_up_all [] s = some s
  roll_up_all (p ∷ ps) s = elim (roll_up_from p s) [ none ↦ none | some t ↦ roll_up_all ps t ]
