-- ===== src/Domain/Ranking/Fusion/Results.antt =====
-- What `rrf_fuse` returns: every candidate once, with its score, best first.
use neurolithe.Base.{
  ℕ, ◌≡◌, refl, ap, ◌∙◌, inl, inr, true, false, ◌||◌, Option, none, some, List, [], ◌∷◌, map, arith,
  Bool-cases, Key, ◌==◌, nat_key, text_key, All, All-mono, contains, distinct,
}
use neurolithe.Base.Float.{Float, OrderLaws}
use neurolithe.Base.Sort.{
  is_le, insert_sorted, sort_by, IsOrdered, IsOrder, All-sort_by, sort_by-IsOrdered,
}
use neurolithe.Domain.Tuning.{Ranking}
use neurolithe.Domain.Ranking.Fusion.{
  Entry, contribution, credit, compare_entries, scored, rrf_fuse,
}
use neurolithe.Domain.Ranking.Fusion.Entries.{
  rank_from, entry_of, candidates, candidates-distinct, contains-candidates, collect-ranked,
}

module _ (fl : Float) where
  open fl use {F64, add, div, decimal, total_cmp}

  -- The fused score by the formula: the sum of weight / (rrf_k + rank) over the lists.
  pub formula : Ranking F64 → Option ℕ → Option ℕ → F64
  formula r none none = decimal 0 0
  formula r (some v) none = add (decimal 0 0) (contribution fl r.vector_weight r.rrf_k v)
  formula r none (some w) = add (decimal 0 0) (contribution fl r.keyword_weight r.rrf_k w)
  formula r (some v) (some w) =
      add (add (decimal 0 0) (contribution fl r.vector_weight r.rrf_k v))
        (contribution fl r.keyword_weight r.rrf_k w)

  entry_of-formula :
      (r : Ranking F64) (v w : Option ℕ)
      → ((entry_of fl r v w).score ≡ formula r v w)
        × ((entry_of fl r v w).vector_rank ≡ v)
        × ((entry_of fl r v w).keyword_rank ≡ w)
  unfolding entry_of formula credit
  entry_of-formula r none none = (refl, refl, refl)
  entry_of-formula r (some v) none = (refl, refl, refl)
  entry_of-formula r none (some w) = (refl, refl, refl)
  entry_of-formula r (some v) (some w) = (refl, refl, refl)

  module _ {K : Type 0} ⦃key : Key K⦄ where
    abbrev pub keys : {V : Type 0} → List (K × V) → List K
    keys = map (λ e. e.0)

    contains-insert_sorted :
        (q : K) (x : K × Entry F64) (ys : List (K × Entry F64))
        → contains (keys (insert_sorted (compare_entries fl) x ys)) q ≡ contains (keys (x ∷ ys)) q
    contains-insert_sorted q x [] = refl
    contains-insert_sorted q x (y ∷ ys) = elim (Bool-cases (is_le (compare_entries fl x y))) [
      | inl before ↦ rw before
      | inr after ↦ rw after (ground (arith, contains-insert_sorted q x ys))
    ]

    contains-sort_by :
        (q : K) (xs : List (K × Entry F64))
        → contains (keys (sort_by (compare_entries fl) xs)) q ≡ contains (keys xs) q
    contains-sort_by q [] = refl
    contains-sort_by q (x ∷ xs) =
        contains-insert_sorted q x (sort_by (compare_entries fl) xs)
        ∙ ap (λ b. (x.0 == q) || b) (contains-sort_by q xs)

    distinct-insert_sorted :
        (x : K × Entry F64) (ys : List (K × Entry F64))
        → distinct (keys (insert_sorted (compare_entries fl) x ys)) ≡ distinct (keys (x ∷ ys))
    distinct-insert_sorted x [] = refl
    distinct-insert_sorted x (y ∷ ys) = elim (Bool-cases (is_le (compare_entries fl x y))) [
      | inl before ↦ rw before
      | inr after ↦ rw after (
          ground (
            arith,
            distinct-insert_sorted x ys,
            contains-insert_sorted y.0 x ys,
            key.same_iff x.0 y.0,
            key.same_iff y.0 x.0,
          ))
    ]

    distinct-sort_by :
        (xs : List (K × Entry F64))
        → distinct (keys (sort_by (compare_entries fl) xs)) ≡ distinct (keys xs)
    distinct-sort_by [] = refl
    distinct-sort_by (x ∷ xs) =
        distinct-insert_sorted x (sort_by (compare_entries fl) xs)
        ∙ ground (arith, contains-sort_by x.0 xs, distinct-sort_by xs)

    keys-pairs : (f : K → Entry F64) (ks : List K) → keys (map (λ k. (k, f k)) ks) ≡ ks
    keys-pairs f [] = refl
    keys-pairs f (k ∷ ks) = ap (◌∷◌ k) (keys-pairs f ks)

    keys-scored : (xs : List (K × Entry F64)) → keys (map (scored fl) xs) ≡ keys xs
    keys-scored [] = refl
    keys-scored (x ∷ xs) = ap (◌∷◌ x.0) (keys-scored xs)

    module _ (vector keyword : List K) (r : Ranking F64) where
      abbrev entry : K → Entry F64
      entry q = entry_of fl r (rank_from 1 q vector) (rank_from 1 q keyword)

      abbrev pairs : List (K × Entry F64)
      pairs = map (λ q. (q, entry q)) (candidates fl vector keyword r)

      -- Fusion sorts the candidates, each with the entry of its two ranks, and never panics.
      rrf_fuse-eq :
          rrf_fuse fl vector keyword r ≡ some (map (scored fl) (sort_by (compare_entries fl) pairs))
      unfolding rrf_fuse candidates
      rrf_fuse-eq = ground (arith, collect-ranked fl vector keyword r)

      abbrev pub IsScored : K × F64 → Type 0
      IsScored (q, s) = s ≡ formula r (rank_from 1 q vector) (rank_from 1 q keyword)

      pairs-IsScored :
          (ks : List K) → All (λ e. IsScored (scored fl e)) (map (λ q. (q, entry q)) ks)
      pairs-IsScored [] = tt
      pairs-IsScored (k ∷ ks) = ((entry_of-formula r _ _).0, pairs-IsScored ks)

      All-map :
          (xs : List (K × Entry F64))
          → All (λ e. IsScored (scored fl e)) xs
          → All IsScored (map (scored fl) xs)
      All-map [] h = tt
      All-map (x ∷ xs) h = (h.0, All-map xs h.1)

      -- Fusion always returns a list. It has each key of either list exactly once and no other
      -- key, and a key's score is the sum of weight / (rrf_k + rank) over the lists that it is
      -- in, by its first rank there.
      pub rrf_fuse_candidates :
          (out : List (K × F64)) × (rrf_fuse fl vector keyword r ≡ some out)
          × (distinct (keys out) ≡ true)
          × ((q : K) → contains (keys out) q ≡ (contains vector q || contains keyword q))
          × All IsScored out
      rrf_fuse_candidates =
          let ks = candidates fl vector keyword r in
          let sorted = sort_by (compare_entries fl) pairs in
          let names = keys-scored sorted in
          (
            map (scored fl) sorted,
            rrf_fuse-eq,
            rw (names, distinct-sort_by pairs, keys-pairs entry ks)
                (candidates-distinct fl vector keyword r),
            λ q.
                rw (names, contains-sort_by q pairs, keys-pairs entry ks)
                  (contains-candidates fl vector keyword r q),
            All-map sorted (
                All-sort_by (compare_entries fl) (λ e. IsScored (scored fl e)) pairs
                  (pairs-IsScored ks)),
          )

  -- Best first, by the total order of the scores.
  abbrev pub IsBestFirst : {K : Type 0} → List (K × F64) → Type 0
  IsBestFirst = IsOrdered (λ a b. total_cmp b.1 a.1)

  module _ (laws : OrderLaws fl) {K : Type 0} where
    compare_entries_total :
        (x y : K × Entry F64)
        → is_le (compare_entries fl x y) ≡ false
        → is_le (compare_entries fl y x) ≡ true
    compare_entries_total (_, a) (_, b) h = ground (arith, laws.cmp_flip a.score b.score)

    compare_entries_trans :
        (x y z : K × Entry F64)
        → is_le (compare_entries fl x y) ≡ true
        → is_le (compare_entries fl y z) ≡ true
        → is_le (compare_entries fl x z) ≡ true
    compare_entries_trans (_, a) (_, b) (_, c) h k = ground (
      arith,
      laws.cmp_eq b.score a.score,
      laws.cmp_eq c.score b.score,
      laws.cmp_trans c.score b.score a.score,
    )

    compare_entries-IsOrder : IsOrder (compare_entries fl {K = K})
    compare_entries-IsOrder = record {
      total = compare_entries_total;
      trans = compare_entries_trans;
    }

    best_score :
        (x y : K × Entry F64)
        → is_le (compare_entries fl x y) ≡ true
        → is_le (total_cmp y.1.score x.1.score) ≡ true
    best_score (_, a) (_, b) h = ground arith

    All-scored :
        (s : F64) (xs : List (K × Entry F64))
        → All (λ e. is_le (total_cmp e.1.score s) ≡ true) xs
        → All (λ e. is_le (total_cmp e.1 s) ≡ true) (map (scored fl) xs)
    All-scored s [] h = tt
    All-scored s (x ∷ xs) h = (h.0, All-scored s xs h.1)

    IsOrdered-IsBestFirst :
        (xs : List (K × Entry F64))
        → IsOrdered (compare_entries fl) xs
        → IsBestFirst (map (scored fl) xs)
    IsOrdered-IsBestFirst [] h = tt
    IsOrdered-IsBestFirst (x ∷ xs) h =
        (All-scored x.1.score xs (All-mono _ _ (best_score x) xs h.0), IsOrdered-IsBestFirst xs h.1)

  -- The result of fusion is sorted by score, best first.
  pub rrf_fuse-IsBestFirst :
      (laws : OrderLaws fl) {K : Type 0} ⦃key : Key K⦄ (vector keyword : List K) (r : Ranking F64)
      {out : List (K × F64)}
      → rrf_fuse fl vector keyword r ≡ some out
      → IsBestFirst out
  rrf_fuse-IsBestFirst laws vector keyword r {out} h =
      let sorted = sort_by (compare_entries fl) (pairs vector keyword r) in
      let e : out ≡ map (scored fl) sorted = ground (arith, rrf_fuse-eq vector keyword r) in
      rw e (
        IsOrdered-IsBestFirst laws sorted (
          sort_by-IsOrdered (compare_entries fl) (compare_entries-IsOrder laws)
            (pairs vector keyword r)))
