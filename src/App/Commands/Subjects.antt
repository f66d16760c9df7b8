-- ===== src/App/Commands/Subjects.antt =====
-- `find_or_create_subject` of src/application/write_service.rs: whether the anchor of a document is
-- used again.
use neurolithe.Store.Memory.Graph.{
  is_indexable, NewNode, boost_relevance, boosted, insert_node, node_row, find_working_subject,
  is_subject, Graph, newest,
}
use neurolithe.Store.Memory.Rows.{active, MemoryNode}
use neurolithe.App.Commands.{
  reuse_or_create, anchor, agent_tenant, find_or_create_subject, SubjectRef, Service,
}
use neurolithe.Base.Text.{text, Text}
use neurolithe.Base.Json.Value.{get}
use neurolithe.Base.Float.{Float}
use neurolithe.Base.{
  ℕ, ◌<◌, ◌≡◌, refl, ap, ◌∙◌, ◌≢◌, inl, inr, Bool, true, false, ◌&&◌, Option, none, some, List, [],
  ◌∷◌, ◌++◌, map, arith, if◌then◌else◌, Bool-cases, ◌==◌, text_key, same_refl, All, contains,
  nat_key,
}

newest-append_miss :
    {F : Type 0} (p : MemoryNode F → Bool) (n : MemoryNode F) (ns : List (MemoryNode F))
    → p n ≡ false
    → newest p (ns ++ (n ∷ [])) ≡ newest p ns
unfolding newest
newest-append_miss p n [] h = rw h refl
newest-append_miss p n (m ∷ ns) h = ground (arith, newest-append_miss p n ns h)

-- The row that was put in last has the greatest id.
newest-append_hit :
    {F : Type 0} (p : MemoryNode F → Bool) (n : MemoryNode F) (ns : List (MemoryNode F))
    → p n ≡ true
    → All (λ m. m.id < n.id) ns
    → newest p (ns ++ (n ∷ [])) ≡ some n.id
unfolding newest
newest-append_hit p n [] h below = rw h refl
newest-append_hit p n (m ∷ ns) h below = ground (arith, newest-append_hit p n ns h below.1)

module _ (fl : Float) (service : Service fl) (now : ℕ) (context_key : Text)
    (subject : SubjectRef) where
  abbrev pub find_again : Graph fl.F64 (List fl.F64) → Option ℕ
  find_again = find_working_subject agent_tenant context_key subject.data_id

  -- A boost changes nothing that the search of an anchor reads.
  newest-boost :
      (ids : List ℕ) (ns : List (MemoryNode fl.F64))
      → newest
          (is_subject agent_tenant context_key subject.data_id)
          (map (λ n. if contains ids n.id then boosted fl now n else n) ns)
        ≡ newest (is_subject agent_tenant context_key subject.data_id) ns
  unfolding newest
  newest-boost ids [] = refl
  newest-boost ids (n ∷ ns) = elim (Bool-cases (contains ids n.id)) [
    | inl hit ↦ rw (hit, newest-boost ids ns) refl
    | inr miss ↦ rw (miss, newest-boost ids ns) refl
  ]

  anchor_matches :
      (id : ℕ)
      → is_subject agent_tenant context_key subject.data_id
          (node_row fl now id (anchor fl service context_key (text "working") subject))
        ≡ true
  unfolding get
  anchor_matches id = simp (same_refl context_key, same_refl subject.data_id) refl

  stored_nodes :
      (n : NewNode fl.F64) (v : List fl.F64) (g : Graph fl.F64 (List fl.F64))
      → (insert_node fl now n v g).0.memory.nodes
        ≡ g.memory.nodes ++ (node_row fl now g.next_id n ∷ [])
  unfolding insert_node
  stored_nodes n v g = elim (Bool-cases ((n.status == active) && is_indexable fl v)) [
    | inl indexed ↦ rw indexed refl
    | inr skipped ↦ rw skipped refl
  ]

  reused :
      (g : Graph fl.F64 (List fl.F64)) (o : Option ℕ)
      → All (λ n. n.id < g.next_id) g.memory.nodes
      → find_again g ≡ o
      → find_again (reuse_or_create fl service now context_key (text "working") subject g o).0
        ≡ some (reuse_or_create fl service now context_key (text "working") subject g o).1
  unfolding find_working_subject boost_relevance insert_node
  reused g none below e =
      let row = anchor fl service context_key (text "working") subject in
      ap (newest (is_subject agent_tenant context_key subject.data_id)) (stored_nodes row _ g)
      ∙ newest-append_hit _ (node_row fl now g.next_id row) g.memory.nodes
          (anchor_matches g.next_id) below
  reused g (some id) below e = newest-boost (id ∷ []) g.memory.nodes ∙ e

  lost :
      (ccl : Text) (g : Graph fl.F64 (List fl.F64))
      → ccl ≢ text "working"
      → find_again g ≡ none
      → find_again (reuse_or_create fl service now context_key ccl subject g none).0 ≡ none
  unfolding find_working_subject
  lost ccl g other unseen =
      let row = anchor fl service context_key ccl subject in
      ap (newest (is_subject agent_tenant context_key subject.data_id)) (stored_nodes row _ g)
      ∙ (newest-append_miss _ (node_row fl now g.next_id row) g.memory.nodes (misses g.next_id)
          ∙ unseen)
    where
      misses :
          (id : ℕ)
          → is_subject agent_tenant context_key subject.data_id
              (node_row fl now id (anchor fl service context_key ccl subject))
            ≡ false
      misses id =
          let differs : (ccl == text "working") ≡ false =
            ground (arith, text_key.same_iff ccl (text "working"), other) in
          simp (same_refl context_key, differs) refl

  -- In the working layer, and where every id is below the next one, the node that
  -- `find_or_create_subject` answers is the one that its search finds afterwards.
  pub find_or_create_subject_reused :
      (g : Graph fl.F64 (List fl.F64))
      → All (λ n. n.id < g.next_id) g.memory.nodes
      → find_again (find_or_create_subject fl service now context_key (text "working") subject g).0
        ≡ some (find_or_create_subject fl service now context_key (text "working") subject g).1
  unfolding find_or_create_subject
  find_or_create_subject_reused g below = reused g (find_again g) below refl

  -- In any other layer, where no anchor is found, a new node is created and the search still finds
  -- none.
  pub find_or_create_subject_lost :
      (ccl : Text) (g : Graph fl.F64 (List fl.F64))
      → ccl ≢ text "working"
      → find_again g ≡ none
      → (find_again (find_or_create_subject fl service now context_key ccl subject g).0 ≡ none)
        × ((find_or_create_subject fl service now context_key ccl subject g).1 ≡ g.next_id)
  unfolding find_or_create_subject insert_node
  find_or_create_subject_lost ccl g other unseen = rw unseen (lost ccl g other unseen, refl)
