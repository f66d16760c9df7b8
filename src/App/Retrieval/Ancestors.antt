-- ===== src/App/Retrieval/Ancestors.antt =====
-- `collect_ancestors` ends, with each node above the first one once.
use neurolithe.Domain.Ltm.{TreeNode}
use neurolithe.Store.Ltm.Queries.{get_parents}
use neurolithe.App.Retrieval.{climb, collect_ancestors, Climbing}
use neurolithe.Store.Ltm.Tables.{ids-append, ids}
use mathlib.Core.Path.{subst}
use neurolithe.Store.Ltm.Rows.{has_edge, Store, NodeRow, row_to_node}
use neurolithe.Base.{
  ℕ, zero, suc, ◌+◌, ◌<◌, ◌≡◌, refl, sym, ap, ◌∙◌, ◌↔◌, ◌⊎◌, inl, inr, Bool, true, false, ◌||◌,
  some, List, [], ◌∷◌, ◌++◌, map, arith, Bool-cases, ◌==◌, eqb_iff, length, filter, All, All-append,
  All-mono, contains, contains-append, distinct, All-of_contains, All-filter, length-map, nat_key,
  text_key,
}
use neurolithe.App.Retrieval.Visits.{
  unseen, IsClimb, climb_parents-IsClimb, nodes-append, holds_at, rows_inside, unseen-length,
  list_cases,
}

module _ {F E : Type 0} (s : Store F E) (start : ℕ) where
  abbrev parent_rows : ℕ → List NodeRow
  parent_rows x = filter (λ r. has_edge r.id x s.tree_edges) s.tree_nodes

  -- The nodes that are reached from the first one by one or more steps to a parent.
  pub data IsAbove : ℕ → Type 0 where
    parent : (y : ℕ) → contains (ids (parent_rows start)) y ≡ true → IsAbove y
    further : {x : ℕ} (y : ℕ) → IsAbove x → contains (ids (parent_rows x)) y ≡ true → IsAbove y

  -- The state between two rounds of the loop.
  record IsCollect (w : Climbing) : Type 0 where
    rows : List NodeRow
    out_rows : w.out ≡ map row_to_node rows
    seen_rows : w.seen ≡ ids rows
    once : distinct w.seen ≡ true
    queued : All (λ x. (x ≡ start) ⊎ (contains w.seen x ≡ true)) w.queue
    sound : (x : ℕ) → contains w.seen x ≡ true → IsAbove x
    closed :
        (x : ℕ)
        → (x ≡ start) ⊎ (contains w.seen x ≡ true)
        → (contains w.queue x ≡ true)
          ⊎ ((y : ℕ) → contains (ids (parent_rows x)) y ≡ true → contains w.seen y ≡ true)

  IsAbove-of :
      (x y : ℕ) → (x ≡ start) ⊎ IsAbove x → contains (ids (parent_rows x)) y ≡ true → IsAbove y
  IsAbove-of x y (inl same) h =
      parent y (subst (λ z. contains (ids (parent_rows z)) y ≡ true) same h)
  IsAbove-of x y (inr above) h = further y above h

  still :
      (x : ℕ) (w w' : Climbing) (more : Bool)
      → contains w'.seen x ≡ (contains w.seen x || more)
      → (x ≡ start) ⊎ (contains w.seen x ≡ true)
      → (x ≡ start) ⊎ (contains w'.seen x ≡ true)
  still x w w' more grows (inl same) = inl same
  still x w w' more grows (inr seen) = inr (ground (arith, grows, seen))

  known-IsAbove :
      (w : Climbing)
      → IsCollect w
      → (x : ℕ) → (x ≡ start) ⊎ (contains w.seen x ≡ true)
      → (x ≡ start) ⊎ IsAbove x
  known-IsAbove w h x (inl same) = inl same
  known-IsAbove w h x (inr seen) = inr (h.sound x seen)

  next_closed :
      (c : ℕ) (rest : List ℕ) (w w' : Climbing) (more : List ℕ)
      → IsCollect w
      → w.queue ≡ c ∷ rest
      → w'.queue ≡ rest ++ more
      → ((x : ℕ) → contains w'.seen x ≡ (contains w.seen x || contains more x))
      → ((y : ℕ) → contains (ids (parent_rows c)) y ≡ true → contains w'.seen y ≡ true)
      → (x : ℕ) → (x ≡ start) ⊎ (contains w'.seen x ≡ true)
      → (contains w'.queue x ≡ true)
        ⊎ ((y : ℕ) → contains (ids (parent_rows x)) y ≡ true → contains w'.seen y ≡ true)
  next_closed c rest w w' more h popped pushed grows covers x k =
      let waiting : contains w'.queue x ≡ (contains rest x || contains more x) =
        ap (λ l. contains l x) pushed ∙ contains-append rest more x in
      let before : contains w.queue x ≡ ((c == x) || contains rest x) =
        ap (λ l. contains l x) popped in
      elim (Bool-cases (contains more x)) [
        | inl new ↦ inl (ground (arith, waiting, new))
        | inr old ↦
            elim (h.closed x (elim k [
              | inl same ↦ inl same
              | inr seen ↦ inr (ground (arith, seen, grows x, old))
            ])) [
              | inl queued ↦ elim (Bool-cases (c == x)) [
                | inl same ↦ inr (λ y e. covers y (
                    subst (λ z. contains (ids (parent_rows z)) y ≡ true)
                      (sym ((eqb_iff c x).0 same)) e))
                | inr other ↦ inl (ground (arith, waiting, before, queued, other))
              ]
              | inr done ↦ inr (λ y e. ground (arith, grows y, done y e))
            ]
      ]

  next_round :
      (c : ℕ) (rest : List ℕ) (w w' : Climbing)
      → w.queue ≡ c ∷ rest
      → IsCollect w
      → IsClimb (ids s.tree_nodes) (parent_rows c) (record w { queue = rest }) w'
      → IsCollect w'
  next_round c rest w w' popped h step =
      let known = subst (All (λ x. (x ≡ start) ⊎ (contains w.seen x ≡ true))) popped h.queued in
      let grows : (x : ℕ) → contains w'.seen x ≡ (contains w.seen x || contains (ids step.more) x) =
        λ x. ap (λ l. contains l x) step.seen_grows ∙ contains-append w.seen (ids step.more) x in
      record {
        rows = h.rows ++ step.more;
        out_rows =
            step.out_grows
            ∙ (ap (λ l. l ++ map row_to_node step.more) h.out_rows
                ∙ sym (nodes-append h.rows step.more));
        seen_rows =
            step.seen_grows
            ∙ (ap (λ l. l ++ ids step.more) h.seen_rows ∙ sym (ids-append h.rows step.more));
        once = step.once h.once;
        queued =
            subst (All (λ x. (x ≡ start) ⊎ (contains w'.seen x ≡ true))) (sym step.queue_grows) (
              All-append _ rest (ids step.more)
                (All-mono _ _ (λ x k. still x w w' _ (grows x) k) rest known.1)
                (All-of_contains _ (ids step.more) (λ x e. inr (grows x ∙ ground (arith, e)))));
        sound = λ x e. elim (Bool-cases (contains w.seen x)) [
          | inl old ↦ h.sound x old
          | inr fresh ↦
              let new : contains (ids step.more) x ≡ true = ground (arith, e, grows x, fresh) in
              IsAbove-of c x (known-IsAbove w h c known.0)
                (holds_at (λ y. contains (ids (parent_rows c)) y) (ids step.more) x step.inside new)
        ];
        closed =
            next_closed c rest w w' (ids step.more) h popped step.queue_grows grows step.covers;
      }

  parent_rows_inside : (c : ℕ) → All (λ r. contains (ids s.tree_nodes) r.id ≡ true) (parent_rows c)
  parent_rows_inside c =
      All-filter _ (λ r. has_edge r.id c s.tree_edges) s.tree_nodes (rows_inside s.tree_nodes)

  climb-IsCollect :
      (fuel : ℕ) (w : Climbing)
      → unseen (ids s.tree_nodes) w.seen + length w.queue < fuel
      → IsCollect w
      → (w' : Climbing) × (climb s fuel w ≡ some w') × IsCollect w' × (w'.queue ≡ [])
  unfolding climb get_parents
  climb-IsCollect zero w enough h = absurd (omega (arith, enough))
  climb-IsCollect (suc fuel) w enough h = elim (list_cases w.queue) [
    | inl empty ↦ (w, simp (empty, climb), h, empty)
    | inr (c, rest, popped) ↦
        let (w1, e, step) =
          climb_parents-IsClimb (ids s.tree_nodes) (parent_rows c) (record w { queue = rest })
            (parent_rows_inside c) in
        let size : length w.queue ≡ suc (length rest) = ap length popped in
        let (w', e', done, over) =
          climb-IsCollect fuel w1 (omega (arith, enough, step.less, size))
            (next_round c rest w w1 popped h step) in
        (w', simp (popped, e, climb) e', done, over)
  ]

  all_seen_from :
      (w : Climbing)
      → IsCollect w
      → w.queue ≡ []
      → (x : ℕ) → (x ≡ start) ⊎ (contains w.seen x ≡ true)
      → (y : ℕ) → contains (ids (parent_rows x)) y ≡ true
      → contains w.seen y ≡ true
  all_seen_from w h empty x k y e = elim (h.closed x k) [
    | inl queued ↦
        let none_left : contains w.queue x ≡ false = ap (λ l. contains l x) empty in
        absurd (ground (arith, none_left, queued))
    | inr covered ↦ covered y e
  ]

  all_seen :
      (w : Climbing) → IsCollect w → w.queue ≡ [] → {x : ℕ} → IsAbove x → contains w.seen x ≡ true
  all_seen w h empty (parent y e) = all_seen_from w h empty start (inl refl) y e
  all_seen w h empty (further {x} y above e) =
      all_seen_from w h empty x (inr (all_seen w h empty above)) y e

  -- The ancestors of a node are always found. They are exactly the nodes that some steps to a
  -- parent reach, each of them once, even in a graph with cycles.
  pub collect_ancestors-IsAbove :
      (out : List TreeNode) × (collect_ancestors start s ≡ some out)
      × (rows : List NodeRow) × (out ≡ map row_to_node rows)
      × (distinct (ids rows) ≡ true)
      × ((x : ℕ) → (contains (ids rows) x ≡ true) ↔ IsAbove x)
  unfolding collect_ancestors
  collect_ancestors-IsAbove =
      let (w, e, h, empty) =
        climb-IsCollect (suc (suc (length s.tree_nodes)))
          (record { seen = []; out = []; queue = start ∷ [] })
          (omega (
            arith,
            unseen-length (ids s.tree_nodes),
            length-map (λ (r : NodeRow). r.id) s.tree_nodes,
          ))
          (record {
            rows = [];
            out_rows = refl;
            seen_rows = refl;
            once = refl;
            queued = (inl refl, tt);
            sound = λ x k. cc;
            closed = λ x k. elim k [
              | inl same ↦ inl (ground (arith, eqb_iff start x, same))
              | inr seen ↦ absurd (ground (arith, seen))
            ];
          }) in
      (
        w.out,
        rw (e, collect_ancestors),
        h.rows,
        h.out_rows,
        rw (← h.seen_rows) h.once,
        λ x. (λ k. h.sound x (rw h.seen_rows k), λ k. rw (← h.seen_rows) (all_seen w h empty k)),
      )
