-- ===== src/App/Placement/RollUp/Walk.antt =====
-- The walk ends, and visits exactly the node it starts from and the nodes above it.
use neurolithe.App.Placement.RollUp.Visits.{
  unvisited-insert_lt, visit_all-IsVisit, All-Is-insert, Is, is_visited, unvisited, work,
}
use neurolithe.Base.{
  ℕ, zero, suc, ◌+◌, ◌≤◌, ◌<◌, ◌≡◌, refl, sym, ap, ◌∙◌, ◌↔◌, inl, inr, true, false, ◌||◌, some,
  List, [], ◌∷◌, ◌++◌, append_assoc, append-nil, arith, ltb, Bool-cases, Option-cases, ◌==◌,
  eqb_iff, length, All, length-append, All-append, contains, nat_key, text_key,
}
use neurolithe.Base.Maps.{Map, lookup, lookup-insert}
use neurolithe.App.Placement.RollUp.{Walking, visit, visit_all, walk, from_node}

module _ (parents : ℕ → List ℕ) (start : ℕ) where
  -- The nodes that are reached by going from a node to one of its parents.
  pub data IsAncestor : ℕ → Type 0 where
    here : IsAncestor start
    up : {x : ℕ} (y : ℕ) → IsAncestor x → contains (parents x) y ≡ true → IsAncestor y

  -- The state in the middle of a round that handles nodes at distance `m`: `near` are the nodes of
  -- the queue at distance m, `far` those behind them.
  record IsWalk (m : ℕ) (near far : List ℕ) (w : Walking) : Type 0 where
    split : w.queue ≡ near ++ far
    at_near : All (Is w.dist m) near
    at_far : All (Is w.dist (m + 1)) far
    bounded : (x d : ℕ) → Is w.dist d x → d ≤ m + 1
    above : (x : ℕ) → is_visited w.dist x ≡ true → IsAncestor x
    started : is_visited w.dist start ≡ true

  -- What the visit of one parent keeps.
  visit-IsWalk :
      (m : ℕ) (nodes : List ℕ) (p : ℕ) (near far : List ℕ) (w : Walking)
      → IsAncestor p
      → contains nodes p ≡ true
      → IsWalk m near far w
      → (more : List ℕ) × IsWalk m near (far ++ more) (visit (m + 1) p w)
        × (work nodes (visit (m + 1) p w) ≤ work nodes w)
  unfolding visit
  visit-IsWalk m nodes p near far w anc inside h = elim (Option-cases (lookup p w.dist)) [
    | inl new ↦ rw new (
      p ∷ [],
      record {
        split = ap (λ q. q ++ (p ∷ [])) h.split ∙ append_assoc near far (p ∷ []);
        at_near = All-Is-insert w.dist p (m + 1) m near new h.at_near;
        at_far =
            All-append _ far (p ∷ []) (All-Is-insert w.dist p (m + 1) (m + 1) far new h.at_far)
              (ground (arith, lookup-insert p p (m + 1) w.dist), tt);
        bounded = λ x d e. ground (arith, lookup-insert p x (m + 1) w.dist, h.bounded x d);
        above = λ x e. elim (Bool-cases (x == p)) [
          | inl same ↦ rw ((eqb_iff x p).0 same) anc
          | inr other ↦ h.above x (ground (arith, lookup-insert p x (m + 1) w.dist))
        ];
        started = ground (arith, lookup-insert p start (m + 1) w.dist, h.started);
      },
      omega (
        arith,
        unvisited-insert_lt p (m + 1) nodes w.dist inside new,
        length-append {0} w.queue (p ∷ []),
      ),
    )
    | inr (d, old) ↦
        let stop : ltb (m + 1) d ≡ false = ground (arith, h.bounded p d old) in
        rw (old, stop) ([], rw (append-nil far) h, omega arith)
  ]

  visit_all-IsWalk :
      (m : ℕ) (nodes ps near far : List ℕ) (w : Walking)
      → All IsAncestor ps
      → All (λ p. contains nodes p ≡ true) ps
      → IsWalk m near far w
      → (more : List ℕ) × IsWalk m near (far ++ more) (visit_all (m + 1) ps w)
        × (work nodes (visit_all (m + 1) ps w) ≤ work nodes w)
  unfolding visit_all
  visit_all-IsWalk m nodes [] near far w anc inside h = ([], rw (append-nil far) h, omega arith)
  visit_all-IsWalk m nodes (p ∷ ps) near far w anc inside h =
      let (more, one, le) = visit-IsWalk m nodes p near far w anc.0 inside.0 h in
      let (more', rest, le') =
        visit_all-IsWalk m nodes ps near (far ++ more) (visit (m + 1) p w) anc.1 inside.1 one in
      (more ++ more', rw (← append_assoc far more more') rest, omega arith)

  -- Every visited node waits in the queue or has only visited parents.
  abbrev IsClosed : Walking → Type 0
  IsClosed w =
      (y z : ℕ)
      → is_visited w.dist y ≡ true
      → contains (parents y) z ≡ true
      → (contains w.queue y || is_visited w.dist z) ≡ true

  round-IsClosed :
      (nd x : ℕ) (rest : List ℕ) (w : Walking)
      → w.queue ≡ x ∷ rest
      → IsClosed w
      → IsClosed (visit_all nd (parents x) (record w { queue = rest }))
  round-IsClosed nd x rest w q closed = λ y z seen parent.
      let (v, reached) = visit_all-IsVisit nd (parents x) (record w { queue = rest }) in
      ground (
        arith,
        v.fresh y seen,
        v.visited z,
        v.queued y,
        reached z,
        closed y z,
        eqb_iff x y,
        q,
        ap (λ l. contains l y) q,
      )

  All-of_member : (P : ℕ → Type 0) (xs : List ℕ) → ((x : ℕ) → contains xs x ≡ true → P x) → All P xs
  All-of_member P [] h = tt
  All-of_member P (x ∷ xs) h =
      (h x (ground (arith, eqb_iff x x)), All-of_member P xs (λ y k. h y (ground arith)))

  module _ (nodes : List ℕ)
      (inside : (x y : ℕ) → contains (parents x) y ≡ true → contains nodes y ≡ true) where
    round-IsWalk :
        (m x : ℕ) (near far : List ℕ) (w : Walking)
        → IsWalk m (x ∷ near) far w
        → (more : List ℕ) × IsWalk m near
            (far ++ more)
            (visit_all (m + 1) (parents x) (record w { queue = near ++ far }))
          × (work nodes (visit_all (m + 1) (parents x) (record w { queue = near ++ far }))
              < work nodes w)
    round-IsWalk m x near far w h =
        let w' : Walking = record w { queue = near ++ far } in
        let popped : IsWalk m near far w' = record {
          split = refl;
          at_near = h.at_near.1;
          at_far = h.at_far;
          bounded = h.bounded;
          above = h.above;
          started = h.started;
        } in
        let anc = h.above x (ground (arith, h.at_near.0)) in
        let (more, after, le) =
          visit_all-IsWalk m nodes (parents x) near far w'
            (All-of_member _ (parents x) (λ y k. up y anc k))
            (All-of_member _ (parents x) (inside x)) popped in
        let shorter = ap {B = ℕ} (λ (l : List ℕ). length l) h.split in
        (more, after, omega (arith, le, shorter))

    -- What the walk returns.
    abbrev IsAbove : Map ℕ ℕ → Type 0
    IsAbove dist = (x : ℕ) → (is_visited dist x ≡ true) ↔ IsAncestor x

    closed-above :
        (w : Walking)
        → w.queue ≡ []
        → is_visited w.dist start ≡ true
        → IsClosed w
        → (x : ℕ) → IsAncestor x
        → is_visited w.dist x ≡ true
    closed-above w q s closed x here = s
    closed-above w q s closed x (up {x = y} _ anc parent) =
        let seen = closed-above w q s closed y anc in
        ground (arith, closed y x seen parent, ap (λ l. contains l y) q)

    -- The walk from this state ends with all that is above `start`.
    abbrev Ends : ℕ → Walking → Type 0
    Ends fuel w = (dist : Map ℕ ℕ) × (walk parents fuel w ≡ some dist) × IsAbove dist

    -- One round, and the others after it.
    walk_round :
        (fuel m x : ℕ) (near far : List ℕ) (w : Walking)
        → ((near' far' : List ℕ) (t : Walking)
            → work nodes t < fuel
            → IsWalk m near' far' t
            → IsClosed t
            → Ends fuel t)
        → work nodes w < suc fuel
        → IsWalk m (x ∷ near) far w
        → IsClosed w
        → Ends (suc fuel) w
    unfolding walk
    walk_round fuel m x near far w rounds enough h closed =
        let t : Walking = visit_all (m + 1) (parents x) (record w { queue = near ++ far }) in
        let (more, after, less) = round-IsWalk m x near far w h in
        let (dist, e, above) =
          rounds near (far ++ more) t (omega arith) after
            (round-IsClosed (m + 1) x (near ++ far) w h.split closed) in
        (dist, rw (h.split, h.at_near.0, walk) e, above)

    -- With no node left at distance m, those at distance m + 1 are next.
    next_distance :
        (m : ℕ) (far : List ℕ) (w : Walking) → IsWalk m [] far w → IsWalk (m + 1) far [] w
    next_distance m far w h = record {
      split = h.split ∙ sym (append-nil far);
      at_near = h.at_far;
      at_far = tt;
      bounded = λ x d e. omega (arith, h.bounded x d e);
      above = h.above;
      started = h.started;
    }

    walk-IsAbove :
        (fuel m : ℕ) (near far : List ℕ) (w : Walking)
        → work nodes w < fuel
        → IsWalk m near far w
        → IsClosed w
        → Ends fuel w
    unfolding walk
    walk-IsAbove zero m near far w enough h closed = absurd (omega arith)
    walk-IsAbove (suc fuel) m (x ∷ near) far w enough h closed =
        walk_round fuel m x near far w (walk-IsAbove fuel m) enough h closed
    walk-IsAbove (suc fuel) m [] [] w enough h closed =
        (w.dist, rw (h.split, walk), λ x. (h.above x, closed-above w h.split h.started closed x))
    walk-IsAbove (suc fuel) m [] (x ∷ far) w enough h closed =
        walk_round fuel (m + 1) x far [] w (walk-IsAbove fuel (m + 1)) enough
          (next_distance m (x ∷ far) w h) closed

    unvisited-le : (xs : List ℕ) (m : Map ℕ ℕ) → unvisited xs m ≤ length xs
    unvisited-le [] m = omega arith
    unvisited-le (x ∷ xs) m = ground (arith, unvisited-le xs m)

    -- The walk from a node ends within the number of nodes and two rounds. It gives a distance to
    -- that node and to every node above it, and to no other.
    pub walk-from_node :
        (dist : Map ℕ ℕ) × (walk parents (suc (suc (length nodes))) (from_node start) ≡ some dist)
        × IsAbove dist
    walk-from_node =
        walk-IsAbove (suc (suc (length nodes))) 0 (start ∷ []) [] (from_node start)
          (omega (arith, unvisited-le nodes ((start, 0) ∷ [])))
          (record {
            split = refl;
            at_near = (ground (arith, eqb_iff start start), tt);
            at_far = tt;
            bounded = λ x d e. ground arith;
            above = λ x e. let same : x ≡ start = ground (arith, eqb_iff x start) in rw same here;
            started = ground (arith, eqb_iff start start);
          })
          (λ y z seen parent. ground (arith, eqb_iff y start, eqb_iff start y))
