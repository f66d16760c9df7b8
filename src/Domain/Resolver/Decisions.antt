-- ===== src/Domain/Resolver/Decisions.antt =====
-- Which neighbour `resolve` adapts, and what it writes.
use neurolithe.Base.{
  ◌≡◌, refl, ap, ◌∙◌, ◌≢◌, ◌↔◌, inl, inr, Bool, true, false, ◌||◌, Option, none, some, List, [],
  ◌∷◌, ◌++◌, arith, Bool-cases, Option-cases, ◌==◌, nat_key, text_key, find, All,
}
use mathlib.Core.Path.{subst₂}
use neurolithe.Base.Float.{Float}
use neurolithe.Base.Json.Value.{Value}
use neurolithe.Domain.Resolver.{
  AdaptationResult, assimilated, accommodated_modify, accommodate_create, same_identity, fact_text,
  merge_payload, reinforced, Neighbour, Repository, ConflictResolver, merge_candidates, finish,
  adapt, resolve,
}

-- The first neighbour that passes a test, and those before it that do not.
find-some :
    {A : Type 0} (p : A → Bool) (xs : List A) (x : A)
    → find p xs ≡ some x
    → (before after : List A) × (xs ≡ before ++ (x ∷ after))
      × (p x ≡ true)
      × All (λ y. p y ≡ false) before
find-some p [] x h = cc
find-some p (y ∷ ys) x h = elim (Bool-cases (p y)) [
  | inl hit ↦ let e : y ≡ x = ground arith in ([], ys, ap (λ z. z ∷ ys) e, rw (← e) hit, tt)
  | inr miss ↦
      let (before, after, parts, holds, none_before) = find-some p ys x (ground arith) in
      (y ∷ before, after, ap (◌∷◌ y) parts, holds, (miss, none_before))
]

find-none :
    {A : Type 0} (p : A → Bool) (xs : List A) → (find p xs ≡ none) ↔ All (λ y. p y ≡ false) xs
find-none p [] = (λ h. tt, λ h. refl)
find-none p (y ∷ ys) =
    let (to, back) = find-none p ys in
    (λ h. (ground arith, to (ground arith)), λ h. rw h.0 (back h.1))

module _ (fl : Float) {E : Type 0} (repo : Repository fl.F64 E) where
  open fl use {F64, le}
  open repo use {State, find_similar_nodes, update_node_support, update_node_content}

  module _ (cr : ConflictResolver F64) (embedding : E) (new : Value) (s : State) where
    abbrev pub IsOther : Neighbour × F64 → Type 0
    IsOther c = same_identity c.0.payload new ≡ false

    -- What the writes of a successful `resolve` were, by its result.
    abbrev pub Wrote : Neighbour × F64 → AdaptationResult → State → Type 0
    Wrote (n, d) (assimilated id) s' =
        (n.id ≡ some id)
        × (((fact_text n.payload == fact_text new) || le d cr.assimilation_threshold) ≡ true)
        × (update_node_support s id (reinforced n.payload new) ≡ some s')
    Wrote (n, d) (accommodated_modify id) s' =
        (n.id ≡ some id)
        × ((fact_text n.payload == fact_text new) ≡ false)
        × (le d cr.assimilation_threshold ≡ false)
        × (update_node_content s id (merge_payload n.payload new) embedding ≡ some s')
    Wrote c accommodate_create s' = ⊥

    finish-Wrote :
        (c : Neighbour × F64) (o : Option State) (r r' : AdaptationResult) (s' : State)
        → ((t : State) → o ≡ some t → Wrote c r t)
        → finish fl repo s o r ≡ (some r', s')
        → Wrote c r' s'
    finish-Wrote c none r r' s' holds h = absurd (ground arith)
    finish-Wrote c (some t) r r' s' holds h =
        let e : (r ≡ r') × (t ≡ s') = ground arith in subst₂ (Wrote c) e.0 e.1 (holds t refl)

    adapt-Wrote :
        (c : Neighbour × F64) (r : AdaptationResult) (s' : State)
        → adapt fl repo cr embedding new c s ≡ (some r, s')
        → Wrote c r s'
    unfolding adapt
    adapt-Wrote (n, d) r s' h = elim (Option-cases n.id) [
      | inl no_id ↦ absurd (ground arith)
      | inr (id, has_id) ↦
          elim (Bool-cases
            ((fact_text n.payload == fact_text new) || le d cr.assimilation_threshold)) [
              | inl same ↦
                  finish-Wrote (n, d) (update_node_support s id (reinforced n.payload new))
                    (assimilated id) r s' (λ t wrote. (has_id, same, wrote)) (ground arith)
              | inr differs ↦
                  finish-Wrote (n, d)
                    (update_node_content s id (merge_payload n.payload new) embedding)
                    (accommodated_modify id) r s'
                    (λ t wrote. (has_id, ground arith, ground arith, wrote)) (ground arith)
            ]
    ]

    resolve_creates_only :
        resolve fl repo cr embedding new s ≡ (some accommodate_create, s)
        → (cs : List (Neighbour × F64)) × (find_similar_nodes s embedding cr.accommodation_threshold
              merge_candidates
            ≡ some cs)
          × All IsOther cs
    unfolding resolve
    resolve_creates_only h =
        let search = find_similar_nodes s embedding cr.accommodation_threshold merge_candidates in
        elim (Option-cases search) [
          | inl failed ↦ absurd (ground arith)
          | inr (cs, found) ↦ elim (Option-cases (find (λ c. same_identity c.0.payload new) cs)) [
            | inl missing ↦ (cs, found, (find-none _ cs).0 missing)
            | inr (c, hit) ↦ absurd (adapt-Wrote c accommodate_create s (ground arith))
          ]
        ]

    -- A new node is asked for exactly when the search succeeds and no neighbour that it returns has
    -- the identity of the new payload; the repository is then unchanged.
    pub resolve_creates_iff :
        (resolve fl repo cr embedding new s ≡ (some accommodate_create, s)) ↔ (
          (cs : List (Neighbour × F64)) × (find_similar_nodes s embedding cr.accommodation_threshold
              merge_candidates
            ≡ some cs)
          × All IsOther cs)
    unfolding resolve
    resolve_creates_iff = (
      resolve_creates_only,
      λ (cs, found, others). rw (found, (find-none _ cs).1 others, resolve),
    )

    -- Any other success adapts the first neighbour with the identity of the new payload: it is
    -- reinforced if it says the same or lies within the assimilation threshold, else its content
    -- is replaced by the merged payload; and that is the only write.
    pub resolve_adapts :
        (r : AdaptationResult) (s' : State)
        → resolve fl repo cr embedding new s ≡ (some r, s')
        → r ≢ accommodate_create
        → (before after : List (Neighbour × F64)) × (c : Neighbour × F64) × (find_similar_nodes s
              embedding cr.accommodation_threshold merge_candidates
            ≡ some (before ++ (c ∷ after)))
          × All IsOther before
          × (same_identity c.0.payload new ≡ true)
          × Wrote c r s'
    unfolding resolve
    resolve_adapts r s' h changed =
        let search = find_similar_nodes s embedding cr.accommodation_threshold merge_candidates in
        elim (Option-cases search) [
          | inl failed ↦ absurd (ground arith)
          | inr (cs, found) ↦ elim (Option-cases (find (λ c. same_identity c.0.payload new) cs)) [
            | inl missing ↦ absurd (ground arith)
            | inr (c, hit) ↦
                let (before, after, parts, holds, others) = find-some _ cs c hit in
                (
                  before,
                  after,
                  c,
                  found ∙ ap some parts,
                  others,
                  holds,
                  adapt-Wrote c r s' (ground arith),
                )
          ]
        ]
