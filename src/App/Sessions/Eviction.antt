-- ===== src/App/Sessions/Eviction.antt =====
-- What eviction keeps, drops and counts.
use neurolithe.Base.{
  ℕ, zero, suc, ◌+◌, ◌-◌, ◌≤◌, ◌<◌, max, ◌≡◌, refl, ◌∙◌, ◌⊎◌, inl, inr, Bool, true, false, not,
  ◌&&◌, none, some, List, [], ◌∷◌, map, arith, ltb, leb, if◌then◌else◌, Bool-cases, Option-cases,
  ◌==◌, nat_key, text_key, list_eqb_iff, length, filter, length-filter-le, contains, distinct,
}
use neurolithe.Base.Text.{Text}
use neurolithe.Base.Maps.{lookup, remove, lookup-remove}
use neurolithe.App.Sessions.{SessionBuffer, Sessions, is_kept, oldest, evict_loop, evict_sessions}

-- No key stands twice in the table.
abbrev pub keys : Sessions → List Text
keys = map (λ e. e.0)

abbrev pub IsTable : Sessions → Type 0
IsTable s = distinct (keys s) ≡ true

contains-remove :
    (k j : Text) (s : Sessions)
    → contains (keys (remove k s)) j ≡ (contains (keys s) j && not (j == k))
contains-remove k j [] = refl
contains-remove k j (e ∷ s) =
    ground (arith, list_eqb_iff k e.0, list_eqb_iff e.0 j, list_eqb_iff j k, contains-remove k j s)

remove-IsTable : (k : Text) (s : Sessions) → IsTable s → IsTable (remove k s)
remove-IsTable k [] h = refl
remove-IsTable k (e ∷ s) h = ground (arith, contains-remove k e.0 s, remove-IsTable k s)

contains-filter :
    (p : Text × SessionBuffer → Bool) (s : Sessions) (j : Text)
    → contains (keys s) j ≡ false
    → contains (keys (filter p s)) j ≡ false
contains-filter p [] j h = refl
contains-filter p (e ∷ s) j h = ground (arith, contains-filter p s j)

filter-IsTable : (p : Text × SessionBuffer → Bool) (s : Sessions) → IsTable s → IsTable (filter p s)
filter-IsTable p [] h = refl
filter-IsTable p (e ∷ s) h = ground (arith, contains-filter p s e.0, filter-IsTable p s)

lookup-eq-none : (s : Sessions) (j : Text) → contains (keys s) j ≡ false → lookup j s ≡ none
lookup-eq-none [] j h = refl
lookup-eq-none (e ∷ s) j h =
    ground (arith, list_eqb_iff e.0 j, list_eqb_iff j e.0, lookup-eq-none s j)

-- A filtered table finds what it found before, if that passes the test.
lookup-filter :
    (p : Text × SessionBuffer → Bool) (s : Sessions) (j : Text)
    → IsTable s
    → lookup j (filter p s)
      ≡ elim (lookup j s) [ none ↦ none | some b ↦ if p (j, b) then some b else none ]
lookup-filter p [] j h = refl
lookup-filter p ((k, b) ∷ s) j h = ground (
  arith,
  list_eqb_iff j k,
  lookup-filter p s j,
  lookup-eq-none (filter p s) j,
  lookup-eq-none s j,
  contains-filter p s j,
)

length-remove-le : (k : Text) (s : Sessions) → length (remove k s) ≤ length s
length-remove-le k [] = omega arith
length-remove-le k (e ∷ s) = ground (arith, length-remove-le k s)

length-remove-lt :
    (k : Text) (s : Sessions) → contains (keys s) k ≡ true → length (remove k s) < length s
length-remove-lt k [] h = cc
length-remove-lt k (e ∷ s) h =
    ground
      (arith, list_eqb_iff e.0 k, list_eqb_iff k e.0, length-remove-le k s, length-remove-lt k s)

-- The session that a round removes: another than `keep`, in the table, and least recently used.
record IsOldest (keep : Text) (s : Sessions) (k : Text) (b : SessionBuffer) : Type 0 where
  other : (k == keep) ≡ false
  present : contains (keys s) k ≡ true
  found : lookup k s ≡ some b
  least :
      (j : Text) (c : SessionBuffer)
      → (j == keep) ≡ false
      → lookup j s ≡ some c
      → b.last_used ≤ c.last_used

oldest-none :
    (keep : Text) (s : Sessions) (j : Text)
    → oldest keep s ≡ none
    → contains (keys s) j ≡ true
    → j ≡ keep
unfolding oldest
oldest-none keep [] j h c = cc
oldest-none keep ((k, b) ∷ s) j h c =
    ground (arith, list_eqb_iff k keep, list_eqb_iff k j, oldest-none keep s j)

-- An older session further down is still the oldest.
IsOldest-later :
    (keep k' k : Text) (b' b : SessionBuffer) (s : Sessions)
    → IsTable ((k', b') ∷ s)
    → ((k' == keep) ≡ true) ⊎ (b.last_used ≤ b'.last_used)
    → IsOldest keep s k b
    → IsOldest keep ((k', b') ∷ s) k b
IsOldest-later keep k' k b' b s t newer o = record {
  other = o.other;
  present = ground (arith, o.present);
  found = ground (arith, list_eqb_iff k k', o.present, o.found);
  least = λ j c ne found.
      ground (arith, list_eqb_iff j k', list_eqb_iff k' keep, list_eqb_iff j keep, o.least j c ne);
}

-- The head is the oldest, if it is not newer than the oldest of the rest.
IsOldest-here :
    (keep k : Text) (b : SessionBuffer) (s : Sessions)
    → IsTable ((k, b) ∷ s)
    → (k == keep) ≡ false
    → ((j : Text) (c : SessionBuffer)
        → (j == keep) ≡ false
        → lookup j s ≡ some c
        → b.last_used ≤ c.last_used)
    → IsOldest keep ((k, b) ∷ s) k b
IsOldest-here keep k b s t ne older = record {
  other = ne;
  present = ground (arith, list_eqb_iff k k);
  found = ground (arith, list_eqb_iff k k);
  least = λ j c ne' found. ground (arith, older j c ne');
}

contains_of_lookup :
    (s : Sessions) (j : Text) (c : SessionBuffer) → lookup j s ≡ some c → contains (keys s) j ≡ true
contains_of_lookup s j c h = ground (arith, lookup-eq-none s j)

oldest-IsOldest :
    (keep : Text) (s : Sessions) (k : Text) (b : SessionBuffer)
    → IsTable s
    → oldest keep s ≡ some (k, b)
    → IsOldest keep s k b
unfolding oldest
oldest-IsOldest keep [] k b t h = cc
oldest-IsOldest keep ((k', b') ∷ s) k b t h =
    let t' : IsTable s = ground arith in
    elim (Bool-cases (k' == keep)) [
      | inl kept ↦
          IsOldest-later keep k' k b' b s t (inl kept)
            (oldest-IsOldest keep s k b t' (ground arith))
      | inr other ↦ elim (Option-cases (oldest keep s)) [
        | inl alone ↦
            let e : (k ≡ k') × (b ≡ b') = ground arith in
            rw (e.0, e.1)
              (IsOldest-here keep k' b' s t other (λ j c ne found. absurd (
                ground (
                  arith,
                  oldest-none keep s j alone (contains_of_lookup s j c found),
                  list_eqb_iff j keep,
                ))))
        | inr ((k'', b''), next) ↦
            let rest = oldest-IsOldest keep s k'' b'' t' next in
            elim (Bool-cases (leb b'.last_used b''.last_used)) [
              | inl first_older ↦
                  let e : (k ≡ k') × (b ≡ b') = ground arith in
                  rw (e.0, e.1)
                    (IsOldest-here keep k' b' s t other
                      (λ j c ne found. ground (arith, rest.least j c ne found)))
              | inr later_older ↦
                  let e : (k ≡ k'') × (b ≡ b'') = ground arith in
                  rw (e.0, e.1) (IsOldest-later keep k' k'' b' b'' s t (inr (ground arith)) rest)
            ]
      ]
    ]

-- What one run of the loop leaves: a smaller table that agrees with the first where it has a
-- session, in which `keep` stays, whose size is within the bound, and from which no session was
-- dropped that is more recent than one that stays.
record IsTrimmed (max_count : ℕ) (keep : Text) (s t : Sessions) : Type 0 where
  table : IsTable t
  smaller : length t ≤ length s
  kept : lookup keep t ≡ lookup keep s
  bounded : length t ≤ max max_count 1
  same : (j : Text) (b : SessionBuffer) → lookup j t ≡ some b → lookup j s ≡ some b
  recent :
      (j q : Text) (c b : SessionBuffer)
      → (q == keep) ≡ false
      → lookup j s ≡ some c
      → lookup j t ≡ none
      → lookup q t ≡ some b
      → c.last_used ≤ b.last_used

IsTrimmed-stop :
    (max_count : ℕ) (keep : Text) (s : Sessions)
    → IsTable s
    → length s ≤ max max_count 1
    → IsTrimmed max_count keep s s
IsTrimmed-stop max_count keep s t fits = record {
  table = t;
  smaller = omega arith;
  kept = refl;
  bounded = fits;
  same = λ j b h. h;
  recent = λ j q c b ne h gone found. cc;
}

IsTrimmed-round :
    (max_count : ℕ) (keep k : Text) (b : SessionBuffer) (s t : Sessions)
    → IsOldest keep s k b
    → IsTrimmed max_count keep (remove k s) t
    → IsTrimmed max_count keep s t
IsTrimmed-round max_count keep k b s t o h = record {
  table = h.table;
  smaller = omega (arith, h.smaller, length-remove-le k s);
  kept =
      h.kept
      ∙ ground (arith, lookup-remove k keep s, o.other, list_eqb_iff keep k, list_eqb_iff k keep);
  bounded = h.bounded;
  same = λ j c found. ground (arith, h.same j c found, lookup-remove k j s);
  recent = λ j q c d ne found gone left. ground (
    arith,
    h.recent j q c d ne,
    lookup-remove k j s,
    lookup-remove k q s,
    h.same q d left,
    o.least q d ne,
    o.found,
    list_eqb_iff j k,
  );
}

length-le-one :
    (keep : Text) (s : Sessions)
    → IsTable s
    → ((j : Text) → contains (keys s) j ≡ true → j ≡ keep)
    → length s ≤ 1
length-le-one keep [] t h = omega arith
length-le-one keep (e ∷ []) t h = omega arith
length-le-one keep (e ∷ f ∷ s) t h =
    absurd (
      ground
        (arith, h e.0, h f.0, list_eqb_iff e.0 e.0, list_eqb_iff f.0 f.0, list_eqb_iff f.0 e.0))

evict_loop-IsTrimmed :
    (fuel max_count : ℕ) (keep : Text) (s : Sessions)
    → IsTable s
    → length s ≤ fuel
    → IsTrimmed max_count keep s (evict_loop fuel max_count keep s)
unfolding evict_loop
evict_loop-IsTrimmed zero max_count keep s t enough =
    IsTrimmed-stop max_count keep s t (omega arith)
evict_loop-IsTrimmed (suc fuel) max_count keep s t enough =
    elim (Bool-cases (ltb max_count (length s))) [
      | inr fits ↦ rw (fits, evict_loop) (IsTrimmed-stop max_count keep s t (ground arith))
      | inl full ↦ elim (Option-cases (oldest keep s)) [
        | inl alone ↦
            let one = length-le-one keep s t (λ j h. oldest-none keep s j alone h) in
            rw (full, alone, evict_loop) (IsTrimmed-stop max_count keep s t (omega arith))
        | inr ((k, b), next) ↦
            let o = oldest-IsOldest keep s k b t next in
            let shorter = length-remove-lt k s o.present in
            rw (full, next, evict_loop)
              (IsTrimmed-round max_count keep k b s _ o (
                evict_loop-IsTrimmed fuel max_count keep (remove k s) (remove-IsTable k s t)
                  (omega arith)))
      ]
    ]

-- What eviction promises, for a table with no repeated key.
pub record IsEvicted (now ttl max_count : ℕ) (keep : Text) (s t : Sessions) (dropped : ℕ)
    : Type 0 where
  pub table : IsTable t
  pub kept : lookup keep t ≡ lookup keep s
  pub bounded : length t ≤ max max_count 1
  pub counted : dropped + length t ≡ length s
  pub same : (j : Text) (b : SessionBuffer) → lookup j t ≡ some b → lookup j s ≡ some b
  pub fresh :
      (j : Text) (b : SessionBuffer)
      → (j == keep) ≡ false
      → lookup j t ≡ some b
      → now - b.last_used ≤ ttl
  pub recent :
      (j q : Text) (c b : SessionBuffer)
      → (q == keep) ≡ false
      → lookup j s ≡ some c
      → now - c.last_used ≤ ttl
      → lookup j t ≡ none
      → lookup q t ≡ some b
      → c.last_used ≤ b.last_used

-- Eviction never drops `keep` and changes no buffer; what stays is not idle for longer than the
-- time to live and fits the bound (or is `keep` alone); the count is the number dropped; and a
-- session that is dropped before its time is not more recent than any other that stays.
pub evict_sessions-IsEvicted :
    (s : Sessions) (now ttl max_count : ℕ) (keep : Text)
    → IsTable s
    → IsEvicted now ttl max_count keep s
        (evict_sessions s now ttl max_count keep).0
        (evict_sessions s now ttl max_count keep).1
unfolding evict_sessions
evict_sessions-IsEvicted s now ttl max_count keep t =
    let p = is_kept now ttl keep in
    let live = filter p s in
    let h =
      evict_loop-IsTrimmed (length live) max_count keep live (filter-IsTable p s t) (omega arith) in
    record {
      table = h.table;
      kept = h.kept ∙ ground (arith, lookup-filter p s keep t, list_eqb_iff keep keep);
      bounded = h.bounded;
      counted = omega (arith, h.smaller, length-filter-le p s);
      same = λ j b found. ground (arith, h.same j b found, lookup-filter p s j t);
      fresh = λ j b ne found. ground (arith, h.same j b found, lookup-filter p s j t);
      recent = λ j q c b ne found young gone left.
          ground (arith, h.recent j q c b ne, lookup-filter p s j t);
    }
