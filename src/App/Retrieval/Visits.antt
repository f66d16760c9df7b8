-- ===== src/App/Retrieval/Visits.antt =====
-- The visit of the parents of one node, and what is left to be seen.
use neurolithe.App.Retrieval.{Climbing, climb_parents}
use neurolithe.Store.Ltm.Tables.{ids}
use mathlib.Core.Path.{subst}
use neurolithe.Store.Ltm.Rows.{NodeRow, row_to_node}
use neurolithe.Base.{
  ℕ, suc, ◌+◌, ◌≤◌, ◌<◌, ◌≡◌, refl, sym, ap, ◌∙◌, ◌⊎◌, inl, inr, Bool, true, false, some, List, [],
  ◌∷◌, ◌++◌, map, append_assoc, append-nil, arith, if◌then◌else◌, Bool-cases, ◌==◌, eqb_iff, length,
  All, length-append, All-mono, contains, contains-append, distinct, distinct-snoc, nat_key,
  text_key,
}

-- How many of the nodes were not seen.
abbrev pub unseen : List ℕ → List ℕ → ℕ
unseen [] seen = 0
unseen (x ∷ xs) seen = if contains seen x then unseen xs seen else suc (unseen xs seen)

unseen-le : (xs seen : List ℕ) (p : ℕ) → unseen xs (seen ++ (p ∷ [])) ≤ unseen xs seen
unseen-le [] seen p = omega arith
unseen-le (x ∷ xs) seen p = ground (arith, contains-append seen (p ∷ []) x, unseen-le xs seen p)

unseen-lt :
    (xs seen : List ℕ) (p : ℕ)
    → contains xs p ≡ true
    → contains seen p ≡ false
    → unseen xs (seen ++ (p ∷ [])) < unseen xs seen
unseen-lt [] seen p h new = cc
unseen-lt (x ∷ xs) seen p h new = elim (Bool-cases (x == p)) [
  | inl same ↦ ground (
    arith,
    h,
    new,
    same,
    eqb_iff x p,
    eqb_iff p p,
    contains-append seen (p ∷ []) x,
    unseen-le xs seen p,
  )
  | inr other ↦ ground (
    arith,
    h,
    new,
    other,
    eqb_iff p x,
    eqb_iff x p,
    contains-append seen (p ∷ []) x,
    unseen-lt xs seen p,
  )
]

-- What the visit of the parents `rs` does: `more` are the new ones.
pub record IsClimb (nodes : List ℕ) (rs : List NodeRow) (w w' : Climbing) : Type 0 where
  pub more : List NodeRow
  pub out_grows : w'.out ≡ w.out ++ map row_to_node more
  pub seen_grows : w'.seen ≡ w.seen ++ ids more
  pub queue_grows : w'.queue ≡ w.queue ++ ids more
  pub inside : All (λ x. contains (ids rs) x ≡ true) (ids more)
  pub once : distinct w.seen ≡ true → distinct w'.seen ≡ true
  pub covers : (x : ℕ) → contains (ids rs) x ≡ true → contains w'.seen x ≡ true
  pub less : unseen nodes w'.seen + length w'.queue ≤ unseen nodes w.seen + length w.queue

seen_before :
    (nodes : List ℕ) (r : NodeRow) (rs : List NodeRow) (w w' : Climbing)
    → contains w.seen r.id ≡ true
    → IsClimb nodes rs w w'
    → IsClimb nodes (r ∷ rs) w w'
seen_before nodes r rs w w' seen h = record {
  more = h.more;
  out_grows = h.out_grows;
  seen_grows = h.seen_grows;
  queue_grows = h.queue_grows;
  inside = All-mono _ _ (λ x e. ground (arith, e)) (ids h.more) h.inside;
  once = h.once;
  covers = λ x e. elim (Bool-cases (r.id == x)) [
    | inl same ↦
        rw (h.seen_grows, contains-append w.seen (ids h.more) x, ← (eqb_iff r.id x).0 same, seen)
    | inr other ↦ h.covers x (ground (arith, e, other))
  ];
  less = h.less;
}

-- The climb with a new node.
abbrev push : NodeRow → Climbing → Climbing
push r w = record {
  seen = w.seen ++ (r.id ∷ []);
  out = w.out ++ (row_to_node r ∷ []);
  queue = w.queue ++ (r.id ∷ []);
}

seen_now :
    (nodes : List ℕ) (r : NodeRow) (rs : List NodeRow) (w w' : Climbing)
    → contains nodes r.id ≡ true
    → contains w.seen r.id ≡ false
    → IsClimb nodes rs (push r w) w'
    → IsClimb nodes (r ∷ rs) w w'
seen_now nodes r rs w w' here new h = record {
  more = r ∷ h.more;
  out_grows = h.out_grows ∙ append_assoc w.out (row_to_node r ∷ []) (map row_to_node h.more);
  seen_grows = h.seen_grows ∙ append_assoc w.seen (r.id ∷ []) (ids h.more);
  queue_grows = h.queue_grows ∙ append_assoc w.queue (r.id ∷ []) (ids h.more);
  inside = (
    ground (arith, eqb_iff r.id r.id),
    All-mono _ _ (λ x e. ground (arith, e)) (ids h.more) h.inside,
  );
  once = λ e. h.once (distinct-snoc w.seen r.id e new);
  covers = λ x e. elim (Bool-cases (r.id == x)) [
    | inl same ↦
        rw
          (
            h.seen_grows,
            contains-append (w.seen ++ (r.id ∷ [])) (ids h.more) x,
            contains-append w.seen (r.id ∷ []) x,
            same,
          )
          (ground arith)
    | inr other ↦ h.covers x (ground (arith, e, other))
  ];
  less =
      omega
        (arith, h.less, unseen-lt nodes w.seen r.id here new, length-append w.queue (r.id ∷ []));
}

pub climb_parents-IsClimb :
    (nodes : List ℕ) (rs : List NodeRow) (w : Climbing)
    → All (λ r. contains nodes r.id ≡ true) rs
    → (w' : Climbing) × (climb_parents (map row_to_node rs) w ≡ some w') × IsClimb nodes rs w w'
unfolding climb_parents
climb_parents-IsClimb nodes [] w h = (
  w,
  refl,
  record {
    more = [];
    out_grows = sym (append-nil w.out);
    seen_grows = sym (append-nil w.seen);
    queue_grows = sym (append-nil w.queue);
    inside = tt;
    once = λ e. e;
    covers = λ x e. cc;
    less = omega arith;
  },
)
climb_parents-IsClimb nodes (r ∷ rs) w (here, h) = elim (Bool-cases (contains w.seen r.id)) [
  | inl seen ↦
      let (w', e, h') = climb_parents-IsClimb nodes rs w h in
      (w', rw seen e, seen_before nodes r rs w w' seen h')
  | inr new ↦
      let (w', e, h') = climb_parents-IsClimb nodes rs (push r w) h in
      (w', rw new e, seen_now nodes r rs w w' here new h')
]

pub nodes-append :
    (xs ys : List NodeRow) → map row_to_node (xs ++ ys) ≡ map row_to_node xs ++ map row_to_node ys
nodes-append [] ys = refl
nodes-append (x ∷ xs) ys = ap (◌∷◌ (row_to_node x)) (nodes-append xs ys)

pub holds_at :
    (q : ℕ → Bool) (xs : List ℕ) (a : ℕ)
    → All (λ x. q x ≡ true) xs
    → contains xs a ≡ true
    → q a ≡ true
holds_at q [] a h e = cc
holds_at q (x ∷ xs) a (here, h) e = elim (Bool-cases (x == a)) [
  | inl same ↦ subst (λ z. q z ≡ true) ((eqb_iff x a).0 same) here
  | inr other ↦ holds_at q xs a h (ground (arith, e, other))
]

pub rows_inside : (rows : List NodeRow) → All (λ r. contains (ids rows) r.id ≡ true) rows
rows_inside [] = tt
rows_inside (r ∷ rows) = (
  ground (arith, eqb_iff r.id r.id),
  All-mono _ _ (λ x h. ground (arith, h)) rows (rows_inside rows),
)

pub unseen-length : (xs : List ℕ) → unseen xs [] ≡ length xs
unseen-length [] = refl
unseen-length (x ∷ xs) = ap suc (unseen-length xs)

pub list_cases :
    {A : Type 0} (xs : List A) → (xs ≡ []) ⊎ ((x : A) × (rest : List A) × (xs ≡ x ∷ rest))
list_cases [] = inl refl
list_cases (x ∷ xs) = inr (x, xs, refl)
