-- ===== src/App/Placement/RollUp/Visits.antt =====
-- The visits of one round: the distances, the queue and the work that is left.
use neurolithe.Base.{
  ℕ, suc, ◌+◌, ◌≤◌, ◌<◌, ◌≡◌, inl, inr, Bool, true, ◌||◌, none, some, List, [], ◌∷◌, arith,
  if◌then◌else◌, Bool-cases, is_some, ◌==◌, eqb_iff, length, All, All-mono, contains,
  contains-append, nat_key, text_key,
}
use neurolithe.Base.Maps.{Map, lookup, insert, lookup-insert}
use neurolithe.App.Placement.RollUp.{Walking, is_closer, visit, visit_all}

-- Whether a node has a distance.
abbrev pub is_visited : Map ℕ ℕ → ℕ → Bool
is_visited m x = is_some (lookup x m)

abbrev pub Is : Map ℕ ℕ → ℕ → ℕ → Type 0
Is m d x = lookup x m ≡ some d

-- How many of the nodes have no distance yet.
abbrev pub unvisited : List ℕ → Map ℕ ℕ → ℕ
unvisited [] m = 0
unvisited (x ∷ xs) m = if is_visited m x then unvisited xs m else suc (unvisited xs m)

unvisited-insert_le :
    (p d : ℕ) (xs : List ℕ) (m : Map ℕ ℕ) → unvisited xs (insert p d m) ≤ unvisited xs m
unvisited-insert_le p d [] m = omega arith
unvisited-insert_le p d (x ∷ xs) m =
    ground (arith, lookup-insert p x d m, unvisited-insert_le p d xs m)

pub unvisited-insert_lt :
    (p d : ℕ) (xs : List ℕ) (m : Map ℕ ℕ)
    → contains xs p ≡ true
    → lookup p m ≡ none
    → unvisited xs (insert p d m) < unvisited xs m
unvisited-insert_lt p d [] m h new = cc
unvisited-insert_lt p d (x ∷ xs) m h new = ground (
  arith,
  lookup-insert p x d m,
  eqb_iff x p,
  unvisited-insert_le p d xs m,
  unvisited-insert_lt p d xs m,
)

pub All-Is-insert :
    (m : Map ℕ ℕ) (p d e : ℕ) (xs : List ℕ)
    → lookup p m ≡ none
    → All (Is m e) xs
    → All (Is (insert p d m) e) xs
All-Is-insert m p d e xs new =
    All-mono _ _ (λ x h. ground (arith, lookup-insert p x d m, eqb_iff x p)) xs

-- What a visit does to the set of visited nodes and to the queue.
pub record IsVisit (w t : Walking) : Type 0 where
  pub visited : (y : ℕ) → is_visited w.dist y ≡ true → is_visited t.dist y ≡ true
  pub queued : (y : ℕ) → contains w.queue y ≡ true → contains t.queue y ≡ true
  pub fresh :
      (y : ℕ) → is_visited t.dist y ≡ true → (is_visited w.dist y || contains t.queue y) ≡ true

visit-IsVisit :
    (nd p : ℕ) (w : Walking) → IsVisit w (visit nd p w) × (is_visited (visit nd p w).dist p ≡ true)
unfolding visit
visit-IsVisit nd p w = elim (Bool-cases (is_closer nd (lookup p w.dist))) [
  | inl closer ↦ rw closer (
    record {
      visited = λ y h. ground (arith, lookup-insert p y nd w.dist);
      queued = λ y h. ground (arith, contains-append w.queue (p ∷ []) y);
      fresh = λ y h. ground (
        arith,
        lookup-insert p y nd w.dist,
        contains-append w.queue (p ∷ []) y,
        eqb_iff y p,
        eqb_iff p y,
      );
    },
    ground (arith, lookup-insert p p nd w.dist),
  )
  | inr old ↦
      rw old (
        record { visited = λ y h. h; queued = λ y h. h; fresh = λ y h. ground arith },
        ground arith,
      )
]

pub visit_all-IsVisit :
    (nd : ℕ) (ps : List ℕ) (w : Walking)
    → IsVisit w (visit_all nd ps w)
      × ((y : ℕ) → contains ps y ≡ true → is_visited (visit_all nd ps w).dist y ≡ true)
unfolding visit_all
visit_all-IsVisit nd [] w =
    (record { visited = λ y h. h; queued = λ y h. h; fresh = λ y h. ground arith }, λ y h. cc)
visit_all-IsVisit nd (p ∷ ps) w =
    let (one, reached) = visit-IsVisit nd p w in
    let (rest, all_reached) = visit_all-IsVisit nd ps (visit nd p w) in
    (
      record {
        visited = λ y h. rest.visited y (one.visited y h);
        queued = λ y h. rest.queued y (one.queued y h);
        fresh = λ y h. ground (arith, rest.fresh y, one.fresh y, rest.queued y);
      },
      λ y h. elim (Bool-cases (p == y)) [
        | inl same ↦ rw (← (eqb_iff p y).0 same) (rest.visited p reached)
        | inr other ↦ all_reached y (ground arith)
      ],
    )

-- The rounds that may be left: the queue, and what may still come into it.
abbrev pub work : List ℕ → Walking → ℕ
work nodes w = unvisited nodes w.dist + length w.queue
