-- ===== src/App/Migrations/Tenants.antt =====
-- `stm_v2_single_tenant` of src/application/migrations.rs: the rows of all tenants are merged.
use neurolithe.App.Migrations.{
  adopt_episode, adopt_node, merge_tenants, adopt_layers, workspace_tenant,
}
use neurolithe.Store.Schema.{Database}
use mathlib.Core.Path.{subst}
use neurolithe.Base.Text.{Text}
use neurolithe.Store.Memory.Rows.{Layer}
use neurolithe.Base.{
  ℕ, ◌+◌, ◌≤◌, ◌≡◌, refl, ap, ◌∙◌, inl, inr, Bool, true, false, ◌&&◌, ◌||◌, List, [], ◌∷◌, ◌++◌,
  map, arith, if◌then◌else◌, Bool-cases, ◌==◌, same_refl, same→eq, length, filter, any, All,
  nat_key, text_key,
}

-- A row of the workspace whose name and description satisfy `q`.
abbrev pub own : (Text → Text → Bool) → Layer → Bool
own q l = (l.tenant_id == workspace_tenant) && q l.name l.description

abbrev pub with_name : Text → Text → Text → Bool
with_name n name description = name == n

abbrev pub with_definition : Text → Text → Text → Text → Bool
with_definition n t name description = (name == n) && (description == t)

abbrev adopted : Layer → Layer
adopted l = record l { tenant_id = workspace_tenant }

abbrev pub count : (Layer → Bool) → List Layer → ℕ
count p ls = length (filter p ls)

any-append : (p : Layer → Bool) (xs ys : List Layer) → any p (xs ++ ys) ≡ (any p xs || any p ys)
any-append p [] ys = refl
any-append p (x ∷ xs) ys = ground (arith, any-append p xs ys)

count-append :
    (p : Layer → Bool) (xs ys : List Layer) → count p (xs ++ ys) ≡ count p xs + count p ys
count-append p [] ys = omega arith
count-append p (x ∷ xs) ys = ground (arith, count-append p xs ys)

count_none : (p : Layer → Bool) (xs : List Layer) → any p xs ≡ false → count p xs ≡ 0
count_none p [] h = refl
count_none p (x ∷ xs) h = ground (arith, count_none p xs)

-- The row that a round of the UPDATE leaves.
abbrev moved : List Layer → Layer → List Layer → Layer
moved done l ls =
    if any (own (with_name l.name)) done || any (own (with_name l.name)) ls then l else adopted l

adopted-own : (q : Text → Text → Bool) (l : Layer) → own q l ≡ true → own q (adopted l) ≡ true
adopted-own q l h = ground arith

-- A row of the workspace stays.
adopt_layers_keeps :
    (q : Text → Text → Bool) (done ls : List Layer)
    → (any (own q) done || any (own q) ls) ≡ true
    → any (own q) (adopt_layers done ls) ≡ true
unfolding adopt_layers
adopt_layers_keeps q done [] h = ground arith
adopt_layers_keeps q done (l ∷ ls) h =
    adopt_layers_keeps q (done ++ (moved done l ls ∷ [])) ls
      (ground (arith, any-append (own q) done (moved done l ls ∷ []), adopted-own q l))

moved_there :
    (done : List Layer) (l : Layer) (ls : List Layer)
    → (any (own (with_name l.name)) (done ++ (moved done l ls ∷ []))
        || any (own (with_name l.name)) ls)
      ≡ true
moved_there done l ls =
    ground
      (arith, any-append (own (with_name l.name)) done (moved done l ls ∷ []), same_refl l.name)

-- Each name has a row of the workspace in the end.
adopt_layers_covers :
    (n : Text) (done ls : List Layer)
    → any (λ l. l.name == n) ls ≡ true
    → any (own (with_name n)) (adopt_layers done ls) ≡ true
unfolding adopt_layers
adopt_layers_covers n done [] h = absurd (ground arith)
adopt_layers_covers n done (l ∷ ls) h = elim (Bool-cases (l.name == n)) [
  | inr other ↦ adopt_layers_covers n (done ++ (moved done l ls ∷ [])) ls (ground arith)
  | inl hit ↦ adopt_layers_keeps (with_name n) (done ++ (moved done l ls ∷ [])) ls (
      subst
        (λ (m : Text).
          (any (own (with_name m)) (done ++ (moved done l ls ∷ [])) || any (own (with_name m)) ls)
          ≡ true)
        (same→eq l.name n hit) (moved_there done l ls))
]

-- A round adds no second row of the workspace for a name.
abbrev Once : List Layer → Layer → List Layer → Text → Type 0
Once done l ls n =
    count (own (with_name n)) done
      + count (own (with_name n)) (l ∷ [])
      + count (own (with_name n)) ls
    ≤ 1

moved-Once_self :
    (done : List Layer) (l : Layer) (ls : List Layer)
    → Once done l ls l.name
    → Once done (moved done l ls) ls l.name
moved-Once_self done l ls h =
    ground (arith, count_none (own (with_name l.name)) done, count_none (own (with_name l.name)) ls)

moved-Once :
    (n : Text) (done : List Layer) (l : Layer) (ls : List Layer)
    → Once done l ls n
    → Once done (moved done l ls) ls n
moved-Once n done l ls h = elim (Bool-cases (l.name == n)) [
  | inr other ↦ ground arith
  | inl hit ↦
      subst (λ (m : Text). Once done l ls m → Once done (moved done l ls) ls m)
        (same→eq l.name n hit) (moved-Once_self done l ls) h
]

-- No name gets two rows of the workspace.
adopt_layers_once :
    (n : Text) (done ls : List Layer)
    → count (own (with_name n)) done + count (own (with_name n)) ls ≤ 1
    → count (own (with_name n)) (adopt_layers done ls) ≤ 1
unfolding adopt_layers
adopt_layers_once n done [] h = omega arith
adopt_layers_once n done (l ∷ ls) h = adopt_layers_once n (done ++ (moved done l ls ∷ [])) ls (
    omega (
      arith,
      count-append (own (with_name n)) done (moved done l ls ∷ []),
      moved-Once n done l ls (ground arith),
    ))

-- The rows that the DELETE leaves.
abbrev ours : List Layer → List Layer
ours = filter (λ l. l.tenant_id == workspace_tenant)

ours_own : (xs : List Layer) → All (λ l. l.tenant_id ≡ workspace_tenant) (ours xs)
ours_own [] = tt
ours_own (x ∷ xs) = elim (Bool-cases (x.tenant_id == workspace_tenant)) [
  | inl hit ↦ rw hit (same→eq x.tenant_id workspace_tenant hit, ours_own xs)
  | inr miss ↦ rw miss (ours_own xs)
]

any-ours :
    (q : Text → Text → Bool) (xs : List Layer)
    → any (λ l. q l.name l.description) (ours xs) ≡ any (own q) xs
any-ours q [] = refl
any-ours q (x ∷ xs) = ground (arith, any-ours q xs)

any-ours-own : (q : Text → Text → Bool) (xs : List Layer) → any (own q) (ours xs) ≡ any (own q) xs
any-ours-own q [] = refl
any-ours-own q (x ∷ xs) = ground (arith, any-ours-own q xs)

filter-ours :
    (q : Text → Text → Bool) (xs : List Layer)
    → filter (λ l. q l.name l.description) (ours xs) ≡ filter (own q) xs
filter-ours q [] = refl
filter-ours q (x ∷ xs) = ground (arith, filter-ours q xs)

-- What a merge leaves: rows of one tenant only, every node and episode with nothing else changed, a
-- layer for each name there was, none twice, and the layers that were the workspace's own.
pub record IsMerged {R E : Type 0} (db d : Database R E) : Type 0 where
  pub nodes : d.nodes ≡ map adopt_node db.nodes
  pub episodes : d.episodes ≡ map adopt_episode db.episodes
  pub one_tenant : All (λ l. l.tenant_id ≡ workspace_tenant) d.ccl_registry
  pub covers :
      (n : Text)
      → any (λ l. l.name == n) db.ccl_registry ≡ true
      → any (λ l. l.name == n) d.ccl_registry ≡ true
  pub once : (n : Text) → length (filter (λ l. l.name == n) d.ccl_registry) ≤ 1
  pub keeps :
      (n t : Text)
      → any (own (with_definition n t)) db.ccl_registry ≡ true
      → any (own (with_definition n t)) d.ccl_registry ≡ true

module _ {R E : Type 0} (db : Database R E) where
  -- The second migration moves every row to the one tenant of the workspace. It loses no layer's
  -- name, keeps the workspace's own definition where it has one, and leaves no name twice, if
  -- no two layers of the workspace had one name.
  pub merge_tenants-IsMerged :
      ((n : Text) → count (own (with_name n)) db.ccl_registry ≤ 1) → IsMerged db (merge_tenants db)
  unfolding merge_tenants
  merge_tenants-IsMerged unique = record {
    nodes = refl;
    episodes = refl;
    one_tenant = ours_own (adopt_layers [] db.ccl_registry);
    covers = λ n h.
        any-ours (with_name n) (adopt_layers [] db.ccl_registry)
        ∙ adopt_layers_covers n [] db.ccl_registry h;
    once = λ n. omega (
      arith,
      ap length (filter-ours (with_name n) (adopt_layers [] db.ccl_registry)),
      adopt_layers_once n [] db.ccl_registry (omega (arith, unique n)),
    );
    keeps = λ n t h.
        any-ours-own (with_definition n t) (adopt_layers [] db.ccl_registry)
        ∙ adopt_layers_keeps (with_definition n t) [] db.ccl_registry h;
  }
