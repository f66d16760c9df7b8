-- ===== src/App/Placement/Choice.antt =====
-- src/application/ltm_placement.rs: the concept that a document is filed under, or the inbox.
use neurolithe.Base.{
  ℕ, ◌+◌, ◌≡◌, refl, sym, ◌↔◌, ◌⊎◌, inl, inr, Bool, true, false, not, ◌&&◌, Option, none, some,
  List, [], ◌∷◌, map, arith, if◌then◌else◌, Bool-cases, ◌==◌, nat_key, text_key, length, filter,
  any, find, first, All, contains,
}
use neurolithe.Base.Float.{Float}
use neurolithe.Base.Text.{Text}
use neurolithe.Domain.Ltm.{TreeNode}
use neurolithe.Store.Ltm.Rows.{NodeRow, Store, is_concept, row_to_node}
use neurolithe.Store.Ltm.Queries.{get_roots}
use neurolithe.Store.Ltm.Similar.{
  find_similar_concepts, IsMatch, find_similar_concepts-IsMatch, found_id,
}

pub record ConceptMatch (F : Type 0) : Type 0 where
  pub id : ℕ
  pub name : Text
  pub distance : F

pub record Candidates (F : Type 0) : Type 0 where
  pub best : Option (ConceptMatch F)
  pub runner_up : Option (ConceptMatch F)

pub data PlacementDecision : Type 0 where
  file inbox_too_far inbox_ambiguous : PlacementDecision

-- The settings of `LtmPlacement`.
pub record Placing (F : Type 0) : Type 0 where
  pub max_distance : F
  pub min_margin : F
  pub max_summary_len : ℕ

abbrev second {ℓ} : {A : Type ℓ} → List A → Option A
second [] = none
second (x ∷ xs) = first xs

-- `get_roots`, `filter_map(|n| n.id)`
unfoldable pub ids_of : List TreeNode → List ℕ
ids_of [] = []
ids_of (n ∷ ns) = let rest = ids_of ns in elim n.id [ none ↦ rest | some id ↦ id ∷ rest ]

module _ (fl : Float) where
  open fl use {F64, lt, sub, decimal, max_value}

  unfoldable pub margin : Candidates F64 → Option F64
  margin c = elim c.runner_up [
    | none ↦ none
    | some r ↦ elim c.best [ none ↦ none | some b ↦ some (sub r.distance b.distance) ]
  ]

  -- The guard of the ambiguous case.
  abbrev is_ambiguous : Placing F64 → Option F64 → Bool
  is_ambiguous p none = false
  is_ambiguous p (some m) = lt (decimal 0 0) p.min_margin && lt m p.min_margin

  unfoldable pub decide : Placing F64 → Candidates F64 → PlacementDecision
  decide p c = elim c.best [
    | none ↦ inbox_too_far
    | some best ↦
        if lt p.max_distance best.distance
        then inbox_too_far
        else if is_ambiguous p (margin c)
        then inbox_ambiguous
        else file
  ]

  -- The match of `target`.
  abbrev pub chosen : PlacementDecision → Option (ConceptMatch F64) → Option ℕ
  chosen inbox_too_far best = none
  chosen inbox_ambiguous best = none
  chosen file none = none
  chosen file (some b) = some b.id

  chosen-inv :
      (d : PlacementDecision) (best : Option (ConceptMatch F64)) (id : ℕ)
      → chosen d best ≡ some id
      → (b : ConceptMatch F64) × (best ≡ some b) × (b.id ≡ id) × (d ≡ file)
  chosen-inv inbox_too_far best id h = cc
  chosen-inv inbox_ambiguous best id h = cc
  chosen-inv file none id h = cc
  chosen-inv file (some b) id h = (b, refl, ground arith, refl)

  -- The iterator of `candidates`: the neighbours that are no roots.
  unfoldable pub matches : List ℕ → List (TreeNode × F64) → List (ConceptMatch F64)
  matches roots [] = []
  matches roots (m ∷ ms) =
      let rest = matches roots ms in
      elim m.0.id [
        | none ↦ rest
        | some id ↦
            if contains roots id
            then rest
            else record { id = id; name = m.0.name; distance = m.1 } ∷ rest
      ]

  module _ {E : Type 0} (nearest : List (ℕ × E) → E → ℕ → List (ℕ × F64)) where
    unfoldable pub candidates : E → Store F64 E → Candidates F64
    candidates embedding s =
        let roots = ids_of (get_roots s) in
        let found =
          matches roots
            (find_similar_concepts fl nearest embedding max_value (2 + length roots) s) in
        record { best = first found; runner_up = second found }

    unfoldable pub target : Placing F64 → E → Store F64 E → Option ℕ
    target p embedding s = let c = candidates embedding s in chosen (decide p c) c.best

  -- When `decide` files, by the fields of the candidates.
  abbrev pub IsClear : Placing F64 → Option (ConceptMatch F64) → Option (ConceptMatch F64) → Type 0
  IsClear p best runner_up =
      (b : ConceptMatch F64) × (best ≡ some b)
      × (lt p.max_distance b.distance ≡ false)
      × ((runner_up ≡ none)
          ⊎ ((r : ConceptMatch F64) × (runner_up ≡ some r)
              × ((lt (decimal 0 0) p.min_margin ≡ false)
                  ⊎ (lt (sub r.distance b.distance) p.min_margin ≡ false))))

  clear :
      (p : Placing F64) (best runner_up : Option (ConceptMatch F64))
      → (decide p (record { best = best; runner_up = runner_up }) ≡ file)
      → IsClear p best runner_up
  unfolding decide margin
  clear p none runner_up h = absurd (ground arith)
  clear p (some b) none h = (b, refl, ground arith, inl refl)
  clear p (some b) (some r) h = (
    b,
    refl,
    ground arith,
    inr (
      r,
      refl,
      elim (Bool-cases (lt (decimal 0 0) p.min_margin)) [
        | inl on ↦ inr (ground arith)
        | inr off ↦ inl off
      ],
    ),
  )

  clear-file :
      (p : Placing F64) (best runner_up : Option (ConceptMatch F64))
      → IsClear p best runner_up
      → decide p (record { best = best; runner_up = runner_up }) ≡ file
  unfolding decide margin
  clear-file p none runner_up (b, e, near, why) = cc
  clear-file p (some b) none (x, e, near, why) = ground arith
  clear-file p (some b) (some r) (x, e, near, inl alone) = cc
  clear-file p (some b) (some r) (x, e, near, inr (y, k, why)) = ground arith

  -- A document is filed under the best concept exactly when there is one, it is not beyond the
  -- cutoff, and there is no runner-up, the margin rule is off, or the runner-up is far enough
  -- behind.
  pub decide-file_iff :
      (p : Placing F64) (c : Candidates F64) → (decide p c ≡ file) ↔ IsClear p c.best c.runner_up
  decide-file_iff p c = (clear p c.best c.runner_up, clear-file p c.best c.runner_up)

root_listed :
    (p : NodeRow → Bool) (id : ℕ) (rows : List NodeRow) (r : NodeRow)
    → find (λ x. x.id == id) rows ≡ some r
    → p r ≡ true
    → contains (ids_of (map row_to_node (filter p rows))) id ≡ true
unfolding ids_of
root_listed p id [] r found h = cc
root_listed p id (x ∷ rows) r found h = elim (Bool-cases (p x)) [
  | inl kept ↦ rw kept (ground (arith, root_listed p id rows r))
  | inr gone ↦ rw gone (ground (arith, root_listed p id rows r))
]

module _ (fl : Float) where
  open fl use {F64, lt, decimal, max_value}

  -- What `matches` keeps: a match that is no root.
  abbrev IsPlace : List NodeRow → List ℕ → ConceptMatch F64 → Type 0
  IsPlace rows roots c =
      (r : NodeRow) × (find (λ x. x.id == c.id) rows ≡ some r)
      × (is_concept r.kind ≡ true)
      × (contains roots c.id ≡ false)

  matches-IsPlace :
      (rows : List NodeRow) (roots : List ℕ) (d : F64) (ms : List (TreeNode × F64))
      → All (IsMatch fl (λ r. is_concept r.kind) rows d) ms
      → All (IsPlace rows roots) (matches fl roots ms)
  unfolding matches
  matches-IsPlace rows roots d [] h = tt
  matches-IsPlace rows roots d (m ∷ ms) ((r, found, same, keeps, near), h) =
      let later = matches-IsPlace rows roots d ms h in
      let e : m.0.id ≡ some r.id = rw same refl in
      elim (Bool-cases (contains roots r.id)) [
        | inl root ↦ rw (e, root, matches) later
        | inr below ↦ rw (e, below, matches) ((r, found, keeps, below), later)
      ]

  first-holds :
      {A : Type 0} (P : A → Type 0) (xs : List A) (x : A) → All P xs → first xs ≡ some x → P x
  first-holds P [] x h e = cc
  first-holds P (y ∷ xs) x h e = let same : y ≡ x = ground arith in rw (sym same) h.0

  module _ {E : Type 0} (nearest : List (ℕ × E) → E → ℕ → List (ℕ × F64)) where
    -- Where `target` names a node, it is a concept node of the tree that has a parent, and not a
    -- root, the inbox or another document.
    pub target-IsConcept :
        (p : Placing F64) (embedding : E) (s : Store F64 E) {id : ℕ}
        → target fl nearest p embedding s ≡ some id
        → (r : NodeRow) × (find (λ x. x.id == id) s.tree_nodes ≡ some r)
          × (is_concept r.kind ≡ true)
          × (any (λ e. e.child_id == id) s.tree_edges ≡ true)
    unfolding target candidates get_roots
    target-IsConcept p embedding s {id} h =
        let roots = ids_of (get_roots s) in
        let found = find_similar_concepts fl nearest embedding max_value (2 + length roots) s in
        let ms = matches fl roots found in
        let all_ok =
          matches-IsPlace s.tree_nodes roots max_value found
            (find_similar_concepts-IsMatch fl nearest embedding max_value (2 + length roots) s) in
        let c = candidates fl nearest embedding s in
        let (b, best, same, files) = chosen-inv fl (decide fl p c) c.best id h in
        let (r, there, keeps, below) = first-holds _ ms b all_ok best in
        let e : any (λ e. e.child_id == b.id) s.tree_edges ≡ true =
          elim (Bool-cases (any (λ e. e.child_id == b.id) s.tree_edges)) [
            | inl child ↦ child
            | inr root ↦ absurd (
                ground (
                  arith,
                  below,
                  root_listed (λ r. not (any (λ e. e.child_id == r.id) s.tree_edges)) b.id
                      s.tree_nodes r there (rw (found_id b.id s.tree_nodes r there, root) refl),
                ))
          ] in
        (r, rw (sym same) there, keeps, rw (sym same) e)
