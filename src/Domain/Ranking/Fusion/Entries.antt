-- ===== src/Domain/Ranking/Fusion/Entries.antt =====
-- What `add` leaves in `entries` and `order`, key by key.
use neurolithe.Base.{
  ℕ, ◌+◌, ◌≡◌, refl, ap, ◌∙◌, inl, inr, Bool, true, false, ◌||◌, Option, none, some, List, [], ◌∷◌,
  map, arith, if◌then◌else◌, Bool-cases, Option-cases, is_some, Key, ◌==◌, nat_key, text_key,
  same→eq, All, contains, contains-append, All-of_contains, distinct-snoc, distinct,
}
use neurolithe.Base.Float.{Float}
use neurolithe.Base.Maps.{Map, lookup, remove, lookup-insert, lookup-remove}
use neurolithe.Domain.Tuning.{Ranking}
use neurolithe.Domain.Ranking.Fusion.{
  Entry, State, or_default, default_entry, credit, add_one, add_all, collect, start, ranked,
}

module _ {K : Type 0} ⦃key : Key K⦄ where
  -- The first rank of a key in a list whose head has rank `r`.
  abbrev pub rank_from : ℕ → K → List K → Option ℕ
  rank_from r q [] = none
  rank_from r q (k ∷ ks) = if q == k then some r else rank_from (r + 1) q ks

  is_some-rank_from : (r : ℕ) (q : K) (ks : List K) → is_some (rank_from r q ks) ≡ contains ks q
  is_some-rank_from r q [] = refl
  is_some-rank_from r q (k ∷ ks) =
      ground (arith, key.same_iff q k, key.same_iff k q, is_some-rank_from (r + 1) q ks)

module _ (fl : Float) where
  open fl use {F64, add, div, decimal}

  -- What one list makes of a key's entry, by the key's first rank in it.
  abbrev credited : F64 → F64 → Bool → Option ℕ → Option (Entry F64) → Option (Entry F64)
  credited w k b none o = o
  credited w k b (some r) o = some (credit fl w k b r (or_default o (default_entry fl)))

  -- A second credit from the same list changes nothing.
  credit_twice :
      (w k : F64) (b : Bool) (r r' : ℕ) (e : Entry F64)
      → credit fl w k b r' (credit fl w k b r e) ≡ credit fl w k b r e
  unfolding credit
  credit_twice w k true r r' e = ground arith
  credit_twice w k false r r' e = ground arith

  credited-credit :
      (w k : F64) (b : Bool) (r : ℕ) (o : Option ℕ) (e : Entry F64)
      → credited w k b o (some (credit fl w k b r e)) ≡ some (credit fl w k b r e)
  credited-credit w k b r none e = refl
  credited-credit w k b r (some r') e = ap some (credit_twice w k b r r' e)

  -- The entry of a key that stands at these first ranks.
  unfoldable pub entry_of : Ranking F64 → Option ℕ → Option ℕ → Entry F64
  entry_of r v w =
      or_default
        (credited r.keyword_weight r.rrf_k false w (credited r.vector_weight r.rrf_k true v none))
        (default_entry fl)

  module _ {K : Type 0} ⦃key : Key K⦄ where
    lookup-add_one :
        (w k : F64) (b : Bool) (r : ℕ) (q j : K) (s : State K F64)
        → lookup j (add_one fl w k b r q s).entries
          ≡ (if j == q then credited w k b (some r) (lookup q s.entries) else lookup j s.entries)
    unfolding add_one
    lookup-add_one w k b r q j s = elim (Option-cases (lookup q s.entries)) [
      | inl new ↦ rw (new, add_one) (lookup-insert q j _ s.entries)
      | inr (e, old) ↦ rw (old, add_one) (lookup-insert q j _ s.entries)
    ]

    lookup-add_all :
        (w k : F64) (b : Bool) (r : ℕ) (ks : List K) (j : K) (s : State K F64)
        → lookup j (add_all fl w k b r ks s).entries
          ≡ credited w k b (rank_from r j ks) (lookup j s.entries)
    unfolding add_all
    lookup-add_all w k b r [] j s = refl
    lookup-add_all w k b r (q ∷ ks) j s =
        let e = or_default (lookup q s.entries) (default_entry fl) in
        let after = lookup-add_all w k b (r + 1) ks j (add_one fl w k b r q s) in
        let one = lookup-add_one w k b r q j s in
        elim (Bool-cases (j == q)) [
          | inl here ↦
              rw (after, one, here)
                (rw (same→eq j q here) (credited-credit w k b r (rank_from (r + 1) q ks) e))
          | inr there ↦ rw (after, one, there)
        ]

    -- `order` lists each key of `entries` once.
    record IsListed (s : State K F64) : Type 0 where
      pub once : distinct s.order ≡ true
      listed : (j : K) → contains s.order j ≡ is_some (lookup j s.entries)

    add_one-IsListed :
        (w k : F64) (b : Bool) (r : ℕ) (q : K) (s : State K F64)
        → IsListed s
        → IsListed (add_one fl w k b r q s)
    unfolding add_one
    add_one-IsListed w k b r q s h = elim (Option-cases (lookup q s.entries)) [
      | inl new ↦
          rw (new, add_one)
            (record {
              once = distinct-snoc s.order q h.once (rw (h.listed q, new));
              listed = λ j.
                  rw (lookup-insert q j _ s.entries, contains-append s.order (q ∷ []) j)
                    (ground (arith, h.listed j, key.same_iff q j, key.same_iff j q));
            })
      | inr (e, old) ↦
          rw (old, add_one)
            (record {
              once = h.once;
              listed = λ j.
                  rw (lookup-insert q j _ s.entries) (ground (arith, h.listed j, key.same_iff j q));
            })
    ]

    add_all-IsListed :
        (w k : F64) (b : Bool) (r : ℕ) (ks : List K) (s : State K F64)
        → IsListed s
        → IsListed (add_all fl w k b r ks s)
    unfolding add_all
    add_all-IsListed w k b r [] s h = h
    add_all-IsListed w k b r (q ∷ ks) s h =
        add_all-IsListed w k b (r + 1) ks (add_one fl w k b r q s) (add_one-IsListed w k b r q s h)

    All-remove :
        (f : K → Entry F64) (k : K) (ks : List K) (m : Map K (Entry F64))
        → contains ks k ≡ false
        → All (λ j. lookup j m ≡ some (f j)) ks
        → All (λ j. lookup j (remove k m) ≡ some (f j)) ks
    All-remove f k [] m c h = tt
    All-remove f k (j ∷ ks) m c h =
        (rw (lookup-remove k j m) (ground arith), All-remove f k ks m (ground arith) h.1)

    -- Reading the keys of `order` off the map finds each of them.
    collect-map :
        (f : K → Entry F64) (ks : List K) (m : Map K (Entry F64))
        → distinct ks ≡ true
        → All (λ k. lookup k m ≡ some (f k)) ks
        → collect fl ks m ≡ some (map (λ k. (k, f k)) ks)
    unfolding collect
    collect-map f [] m d h = refl
    collect-map f (k ∷ ks) m d h =
        let others = All-remove f k ks m (ground arith) h.1 in
        ground (arith, h.0, collect-map f ks (remove k m) (ground arith) others)

    start-IsListed : IsListed (start fl)
    start-IsListed = record { once = refl; listed = λ j. refl }

    module _ (vector keyword : List K) (r : Ranking F64) where
      abbrev found : K → Option (Entry F64)
      found q =
          credited r.keyword_weight r.rrf_k false (rank_from 1 q keyword)
            (credited r.vector_weight r.rrf_k true (rank_from 1 q vector) none)

      unfoldable pub candidates : List K
      candidates = (ranked fl vector keyword r).order

      lookup-ranked : (q : K) → lookup q (ranked fl vector keyword r).entries ≡ found q
      unfolding ranked
      lookup-ranked q =
          lookup-add_all _ _ false 1 keyword q _
          ∙ ap (credited r.keyword_weight r.rrf_k false (rank_from 1 q keyword))
              (lookup-add_all _ _ true 1 vector q (start fl))

      ranked-IsListed : IsListed (ranked fl vector keyword r)
      unfolding ranked
      ranked-IsListed =
          add_all-IsListed _ _ false 1 keyword _
            (add_all-IsListed _ _ true 1 vector (start fl) start-IsListed)

      pub candidates-distinct : distinct candidates ≡ true
      unfolding candidates
      candidates-distinct = ranked-IsListed.once

      pub contains-candidates :
          (q : K) → contains candidates q ≡ (contains vector q || contains keyword q)
      unfolding candidates
      contains-candidates q =
          ranked-IsListed.listed q
          ∙ rw (lookup-ranked q)
              (ground (arith, is_some-rank_from 1 q vector, is_some-rank_from 1 q keyword))

      in_entries :
          (q : K)
          → contains candidates q ≡ true
          → lookup q (ranked fl vector keyword r).entries
            ≡ some (entry_of r (rank_from 1 q vector) (rank_from 1 q keyword))
      unfolding entry_of candidates
      in_entries q h = ground (arith, ranked-IsListed.listed q, lookup-ranked q)

      pub collect-ranked :
          collect fl candidates (ranked fl vector keyword r).entries
          ≡ some
              (map (λ q. (q, entry_of r (rank_from 1 q vector) (rank_from 1 q keyword))) candidates)
      unfolding entry_of
      collect-ranked =
          collect-map (λ q. entry_of r (rank_from 1 q vector) (rank_from 1 q keyword)) candidates
            (ranked fl vector keyword r).entries candidates-distinct
            (All-of_contains _ candidates in_entries)
