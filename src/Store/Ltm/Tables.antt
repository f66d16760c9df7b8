-- ===== src/Store/Ltm/Tables.antt =====
-- src/infrastructure/schema.rs: lookups in the tables after rows are added, removed and rewritten.
use neurolithe.Base.{
  ℕ, ◌<◌, ◌≡◌, refl, ap, inl, inr, Bool, true, false, not, ◌&&◌, ◌||◌, List, [], ◌∷◌, ◌++◌, map,
  arith, if◌then◌else◌, Bool-cases, ◌==◌, nat_key, text_key, filter, All, All-mono, contains,
  distinct,
}
use neurolithe.Base.Text.{Text}
use neurolithe.Domain.Ltm.{TreeEdge}
use neurolithe.Store.Ltm.Rows.{NodeRow, has_row}

-- The ids of rows, in a table.
abbrev pub ids : List NodeRow → List ℕ
ids = map (λ r. r.id)

pub has_row-append :
    (id : ℕ) (xs ys : List NodeRow) → has_row id (xs ++ ys) ≡ (has_row id xs || has_row id ys)
has_row-append id [] ys = refl
has_row-append id (x ∷ xs) ys = ground (arith, has_row-append id xs ys)

pub has_row-filter :
    (id j : ℕ) (xs : List NodeRow)
    → has_row j (filter (λ r. not (r.id == id)) xs) ≡ (has_row j xs && not (j == id))
has_row-filter id j [] = refl
has_row-filter id j (x ∷ xs) = ground (arith, has_row-filter id j xs)

pub contains-ids : (id : ℕ) (xs : List NodeRow) → contains (ids xs) id ≡ has_row id xs
contains-ids id [] = refl
contains-ids id (x ∷ xs) = ground (arith, contains-ids id xs)

pub distinct-filter :
    (id : ℕ) (xs : List NodeRow)
    → distinct (ids xs) ≡ true
    → distinct (ids (filter (λ r. not (r.id == id)) xs)) ≡ true
distinct-filter id [] h = refl
distinct-filter id (x ∷ xs) h = ground (
  arith,
  distinct-filter id xs,
  contains-ids x.id xs,
  has_row-filter id x.id xs,
  contains-ids x.id (filter (λ r. not (r.id == id)) xs),
)

pub ids-append : (xs ys : List NodeRow) → ids (xs ++ ys) ≡ ids xs ++ ids ys
ids-append [] ys = refl
ids-append (x ∷ xs) ys = ap (◌∷◌ x.id) (ids-append xs ys)

pub All-keep {ℓ} :
    {A : Type ℓ} (P Q : A → Type 0) (p : A → Bool)
    → ((x : A) → p x ≡ true → P x → Q x)
    → (xs : List A) → All P xs
    → All Q (filter p xs)
All-keep P Q p f [] h = tt
All-keep P Q p f (x ∷ xs) h = elim (Bool-cases (p x)) [
  | inl kept ↦ rw kept (f x kept h.0, All-keep P Q p f xs h.1)
  | inr gone ↦ rw gone (All-keep P Q p f xs h.1)
]

pub fresh_id : (n : ℕ) (rows : List NodeRow) → All (λ r. r.id < n) rows → has_row n rows ≡ false
fresh_id n [] h = refl
fresh_id n (r ∷ rows) h = ground (arith, fresh_id n rows h.1)

-- A longer table still has the rows that references need.
module _ (rows more : List NodeRow) where
  pub grown_refs {ℓ} :
      {A : Type ℓ} (f : A → ℕ) (xs : List A)
      → All (λ x. has_row (f x) rows ≡ true) xs
      → All (λ x. has_row (f x) (rows ++ more) ≡ true) xs
  grown_refs f = All-mono _ _ (λ x h. rw (has_row-append (f x) rows more, h))

  pub grown_edges :
      {F : Type 0} (es : List (TreeEdge F))
      → All (λ e. (has_row e.parent_id rows ≡ true) × (has_row e.child_id rows ≡ true)) es
      → All
          (λ e.
            (has_row e.parent_id (rows ++ more) ≡ true)
            × (has_row e.child_id (rows ++ more) ≡ true))
          es
  grown_edges = All-mono _ _ (λ e h. (
    rw (has_row-append e.parent_id rows more, h.0),
    rw (has_row-append e.child_id rows more, h.1),
  ))

module _ (id clock : ℕ) (t : Text) where
  abbrev summed : List NodeRow → List NodeRow
  summed = map (λ r. if r.id == id then record r { summary = t; updated_at = clock } else r)

  pub has_row-summed :
      (j : ℕ) (rows : List NodeRow)
      → (has_row j (summed rows) ≡ has_row j rows) × (ids (summed rows) ≡ ids rows)
  has_row-summed j [] = (refl, refl)
  has_row-summed j (r ∷ rows) = ground (arith, has_row-summed j rows)

  pub below-summed :
      (n : ℕ) (rows : List NodeRow) → All (λ r. r.id < n) rows → All (λ r. r.id < n) (summed rows)
  below-summed n [] h = tt
  below-summed n (r ∷ rows) h = elim (Bool-cases (r.id == id)) [
    | inl hit ↦ rw hit (h.0, below-summed n rows h.1)
    | inr miss ↦ rw miss (h.0, below-summed n rows h.1)
  ]
