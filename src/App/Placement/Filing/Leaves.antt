-- ===== src/App/Placement/Filing/Leaves.antt =====
-- The leaves of a document, and those that are left without some nodes.
use neurolithe.Base.{
  ℕ, ◌≡◌, refl, ap, ◌∙◌, inl, inr, Bool, true, false, not, ◌&&◌, ◌||◌, Option, some, List, [], ◌∷◌,
  ◌++◌, arith, if◌then◌else◌, Bool-cases, ◌==◌, eqb_iff, filter, any, All, All-mono, filter-append,
  contains, filter-cong, filter-true, All-filter_self, All-filter, All-both, nat_key, text_key,
}
use neurolithe.Base.Text.{Text}
use neurolithe.Domain.Ltm.{Leaf}
use neurolithe.Store.Ltm.Rows.{NodeRow, has_row}
use neurolithe.App.Placement.Filing.{is_id}

-- Whether a leaf of the document stands at the node.
abbrev pub carries : {F : Type 0} → Text → List (Leaf F) → ℕ → Bool
carries data_id ls id = any (λ l. (l.tree_node_id == id) && (l.data_id == data_id)) ls

abbrev pub has_leaf : {F : Type 0} → Text → List (Leaf F) → Bool
has_leaf data_id ls = any (λ l. l.data_id == data_id) ls

-- The ids that a removal deletes.
abbrev pub targets : Option ℕ → List NodeRow → List ℕ
targets keep [] = []
targets keep (r ∷ rows) = if is_id keep r.id then targets keep rows else r.id ∷ targets keep rows

abbrev pub without : {F : Type 0} → List ℕ → List (Leaf F) → List (Leaf F)
without gone = filter (λ l. not (contains gone l.tree_node_id))

pub has_row-carrying :
    (q : ℕ → Bool) (id : ℕ) (rows : List NodeRow)
    → has_row id (filter (λ r. q r.id) rows) ≡ (has_row id rows && q id)
has_row-carrying q id [] = refl
has_row-carrying q id (r ∷ rows) = ground (arith, eqb_iff r.id id, has_row-carrying q id rows)

pub contains-targets :
    (keep : Option ℕ) (id : ℕ) (rows : List NodeRow)
    → contains (targets keep rows) id ≡ (has_row id rows && not (is_id keep id))
contains-targets keep id [] = refl
contains-targets keep id (r ∷ rows) = elim (Bool-cases (is_id keep r.id)) [
  | inl kept ↦ rw kept (ground (arith, eqb_iff r.id id, contains-targets keep id rows))
  | inr gone ↦ rw gone (ground (arith, eqb_iff r.id id, contains-targets keep id rows))
]

any-or :
    (p q : NodeRow → Bool) (rows : List NodeRow)
    → any (λ r. p r || q r) rows ≡ (any p rows || any q rows)
any-or p q [] = refl
any-or p q (r ∷ rows) = ground (arith, any-or p q rows)

any-own :
    (id : ℕ) (b : Bool) (rows : List NodeRow)
    → any (λ r. (id == r.id) && b) rows ≡ (has_row id rows && b)
any-own id b [] = refl
any-own id b (r ∷ rows) = ground (arith, eqb_iff id r.id, eqb_iff r.id id, any-own id b rows)

any-false : (rows : List NodeRow) → any (λ r. false) rows ≡ false
any-false [] = refl
any-false (r ∷ rows) = any-false rows

-- The leaves that are left by a removal.
abbrev pub spared : {F : Type 0} → Text → Option ℕ → List (Leaf F) → Leaf F → Bool
spared data_id keep ls l =
    not (carries data_id ls l.tree_node_id && not (is_id keep l.tree_node_id))

module _ {F : Type 0} where
  pub without-nil : (ls : List (Leaf F)) → without [] ls ≡ ls
  without-nil ls = filter-true ls

  pub without-cons :
      (id : ℕ) (gone : List ℕ) (ls : List (Leaf F))
      → without gone (filter (λ l. not (l.tree_node_id == id)) ls) ≡ without (id ∷ gone) ls
  without-cons id gone [] = refl
  without-cons id gone (l ∷ ls) =
      ground (arith, eqb_iff l.tree_node_id id, eqb_iff id l.tree_node_id, without-cons id gone ls)

  -- A leaf makes its own node one that carries its document.
  carries_own :
      (data_id : Text) (ls : List (Leaf F))
      → All (λ l. (l.data_id == data_id) ≡ true → carries data_id ls l.tree_node_id ≡ true) ls
  carries_own data_id [] = tt
  carries_own data_id (l ∷ ls) = (
    λ h. ground (arith, eqb_iff l.tree_node_id l.tree_node_id),
    All-mono _ _ (λ x k h. let old = k h in ground (arith, old)) ls (carries_own data_id ls),
  )

  -- Where every leaf has its node, a document has a leaf exactly if some node carries it.
  pub any-carries :
      (data_id : Text) (rows : List NodeRow) (ls : List (Leaf F))
      → All (λ l. has_row l.tree_node_id rows ≡ true) ls
      → any (λ r. carries data_id ls r.id) rows ≡ has_leaf data_id ls
  any-carries data_id rows [] h = any-false rows
  any-carries data_id rows (l ∷ ls) h =
      any-or (λ r. (l.tree_node_id == r.id) && (l.data_id == data_id))
        (λ r. carries data_id ls r.id) rows
      ∙ rw
          (any-own l.tree_node_id (l.data_id == data_id) rows, h.0, any-carries data_id rows ls h.1)

  -- Of the document no leaf is left but at the node to be kept.
  pub spared-kept :
      (data_id : Text) (keep : Option ℕ) (ls : List (Leaf F))
      → All
          (λ l. (l.data_id == data_id) ≡ true → is_id keep l.tree_node_id ≡ true)
          (filter (spared data_id keep ls) ls)
  spared-kept data_id keep ls =
      All-mono _ _ (λ l h k. let own = h.1 k in ground (arith, own)) _
        (All-both _ _ _ (All-filter_self (spared data_id keep ls) ls)
          (All-filter _ (spared data_id keep ls) ls (carries_own data_id ls)))

  -- A node that is not in the tree has none of its leaves.
  pub All-of_rows :
      (rows : List NodeRow) (id : ℕ)
      → has_row id rows ≡ false
      → (ls : List (Leaf F)) → All (λ l. has_row l.tree_node_id rows ≡ true) ls
      → All (λ l. (l.tree_node_id == id) ≡ false) ls
  All-of_rows rows id fresh =
      All-mono _ _ (λ l h. ground (arith, ap (λ i. has_row i rows), eqb_iff l.tree_node_id id))

  carries-append :
      (data_id : Text) (xs ys : List (Leaf F)) (id : ℕ)
      → carries data_id (xs ++ ys) id ≡ (carries data_id xs id || carries data_id ys id)
  carries-append data_id [] ys id = refl
  carries-append data_id (x ∷ xs) ys id = ground (arith, carries-append data_id xs ys id)

  -- Beside a new leaf at a node of its own, the others are spared as if it were not there.
  pub spared-new :
      (data_id : Text) (new : Leaf F) (ls : List (Leaf F))
      → All (λ l. (l.tree_node_id == new.tree_node_id) ≡ false) ls
      → filter (spared data_id (some new.tree_node_id) (ls ++ (new ∷ []))) (ls ++ (new ∷ []))
        ≡ filter (λ l. not (carries data_id ls l.tree_node_id)) ls ++ (new ∷ [])
  spared-new data_id new ls others =
      let p = spared data_id (some new.tree_node_id) (ls ++ (new ∷ [])) in
      let same =
        filter-cong p (λ l. not (carries data_id ls l.tree_node_id)) ls
          (All-mono _ _
            (λ l h. ground (
              arith,
              carries-append data_id ls (new ∷ []) l.tree_node_id,
              eqb_iff new.tree_node_id l.tree_node_id,
              eqb_iff l.tree_node_id new.tree_node_id,
            ))
            ls others) in
      let own : p new ≡ true = ground (arith, eqb_iff new.tree_node_id new.tree_node_id) in
      rw (filter-append p ls (new ∷ []), same, own)
