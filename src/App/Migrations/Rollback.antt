-- ===== src/App/Migrations/Rollback.antt =====
-- src/application/migrations.rs: the transaction of an upgrade and the clean-up after it.
use neurolithe.Base.Text.{Text, text}
use mathlib.Core.Path.{subst}
use neurolithe.Base.Int.{pos}
use neurolithe.Base.{
  ℕ, ◌<◌, ◌≡◌, refl, sym, ap, ◌∙◌, inl, inr, Bool, true, ◌&&◌, Option, none, some, List, [], ◌∷◌,
  arith, Bool-cases, ◌==◌, text_key, drop, filter, any, All, nat_key,
}
use neurolithe.App.Migrations.{
  is_carried, drop_orphan_document_bodies, migrations, latest_version, StoreError, stm, ltm,
  StoreKind,
}
use neurolithe.App.Migrations.Runs.{IsMigrated, run_migrations-IsMigrated}
use neurolithe.Store.Schema.{
  LeafCells, TreeCells, BodyCells, Json, create_ltm_doc_bodies, table_exists, Database,
}
use neurolithe.Store.Schema.Catalogue.{
  Rows, rows, rows-create_ltm_doc_bodies, create_ltm_doc_bodies-SameRows,
  table_exists-create_ltm_doc_bodies, SameRows,
}
use neurolithe.Base.Outcome.{Ensures-mono, Ensures-continue, Ensures}
use neurolithe.App.Migrations.Prepare.{drop_orphans, seal, Os, upgrade, refuse, run_migrations}
use neurolithe.Base.Maps.{lookup}
use neurolithe.App.Migrations.Sealing.{seal-Ensures, IsRecorded}

-- After the clean-up, no body is left whose document no leaf carries.
abbrev pub IsClean : {R E : Type 0} → StoreKind → Database R E → Type 0
IsClean stm db = Unit {0}
IsClean ltm db = All (λ b. is_carried db.leaves b ≡ true) db.doc_bodies

All-filter_holds :
    (p : BodyCells → Bool) (bs : List BodyCells) → All (λ b. p b ≡ true) (filter p bs)
All-filter_holds p [] = tt
All-filter_holds p (b ∷ bs) = elim (Bool-cases (p b)) [
  | inl holds ↦ rw holds (holds, All-filter_holds p bs)
  | inr fails ↦ rw fails (All-filter_holds p bs)
]

-- The body of a document that a leaf carries is kept.
filter_keeps_carried :
    (x : Text) (ls : List LeafCells) (bs : List BodyCells)
    → any (λ l. l.data_id == x) ls ≡ true
    → any (λ y. y.data_id == x) bs ≡ true
    → any (λ y. y.data_id == x) (filter (is_carried ls) bs) ≡ true
filter_keeps_carried x ls [] h k = absurd (ground arith)
filter_keeps_carried x ls (b ∷ bs) h k = elim (Bool-cases (b.data_id == x)) [
  | inr other ↦ elim (Bool-cases (is_carried ls b)) [
    | inl kept ↦ rw (kept, other) (filter_keeps_carried x ls bs h (ground (arith, k, other)))
    | inr gone ↦ rw gone (filter_keeps_carried x ls bs h (ground (arith, k, other)))
  ]
  | inl this ↦
      let e : b.data_id ≡ x = (text_key.same_iff b.data_id x).0 this in
      let kept : is_carried ls b ≡ true = rw e h in rw kept (rw this refl)
]

carried_by :
    (x : Text) (ns : List TreeCells) (ls : List LeafCells)
    → any (λ l. (l.data_id == x) && any (λ n. n.id == l.tree_node_id) ns) ls ≡ true
    → any (λ l. l.data_id == x) ls ≡ true
carried_by x ns [] h = h
carried_by x ns (l ∷ ls) h = ground (arith, carried_by x ns ls)

module _ {R E : Type 0} where
  pub refuse-Ensures :
      (o : Option StoreError) (db : Database R E)
      → Ensures (λ _ d. (d ≡ db) × (o ≡ none)) (λ e d. (d ≡ db) × (o ≡ some e)) (refuse o db)
  refuse-Ensures none db = (refl, refl)
  refuse-Ensures (some e) db = (refl, refl)

module _ {R E : Type 0} (json : Json) where
  -- What holds of a store after its transaction.
  abbrev pub Sealed : StoreKind → ℕ → Database R E → Database R E → Type 0
  Sealed kind from b d = IsRecorded kind d × IsMigrated json kind from b d

  IsMigrated-sealed :
      (kind : StoreKind) (from : ℕ) (b db d : Database R E)
      → d ≡ record db { user_version = d.user_version; meta = d.meta }
      → IsMigrated json kind from b db
      → IsMigrated json kind from b d
  unfolding table_exists
  IsMigrated-sealed stm from b db d e h =
      subst (λ (x : Database R E). IsMigrated json stm from b x) (sym e) h
  IsMigrated-sealed ltm from b db d e h =
      subst (λ (x : Database R E). IsMigrated json ltm from b x) (sym e) h

  pub upgrade-Sealed :
      (os : Os) (kind : StoreKind) (dim from : ℕ) (db : Database R E)
      → from < latest_version kind
      → Ensures
          (λ _ d. Sealed kind from db d)
          (λ _ _. Unit {0})
          (upgrade os json kind dim (pos from) db)
  unfolding upgrade
  upgrade-Sealed os kind dim from db h =
      Ensures-continue (λ _ d. IsMigrated json kind from db d) (λ _ _. Unit {0})
        (λ _ d. Sealed kind from db d)
        (run_migrations dim from (drop from (migrations json kind)) db) _
        (run_migrations-IsMigrated json kind dim from db h)
        (λ ws d m.
          Ensures-continue (λ _ d'. Sealed kind from db d') (λ _ _. Unit {0})
            (λ _ d'. Sealed kind from db d') (seal os kind d) _
            (Ensures-mono _ (λ _ _. Unit {0}) (λ _ d'. Sealed kind from db d') (λ _ _. Unit {0})
              (seal os kind d) (seal-Ensures os kind d)
              (λ _ d' p. (p.0, IsMigrated-sealed kind from db d d' p.1 m)) (λ _ _ _. tt))
            (λ _ _ p. p))

  IsRecorded-SameRows :
      (kind : StoreKind) (d db : Database R E)
      → SameRows d db
      → table_exists (text "meta") d ≡ true
      → IsRecorded kind db
      → IsRecorded kind d
  IsRecorded-SameRows kind d db e there h = record {
    version = ap (λ (x : Database R E). x.user_version) e ∙ h.version;
    schema_version =
        ap (λ (x : Database R E). lookup (text "schema_version") x.meta) e ∙ h.schema_version;
    store_kind = ap (λ (x : Database R E). lookup (text "store_kind") x.meta) e ∙ h.store_kind;
    created_at = (
      h.created_at.0,
      ap (λ (x : Database R E). lookup (text "created_at") x.meta) e ∙ h.created_at.1,
    );
    catalogue = there;
  }

  IsRecorded-bodies :
      (kind : StoreKind) (db : Database R E) (bs : List BodyCells)
      → IsRecorded kind db
      → IsRecorded kind (record db { doc_bodies = bs })
  unfolding table_exists
  IsRecorded-bodies kind db bs h = record {
    version = h.version;
    schema_version = h.schema_version;
    store_kind = h.store_kind;
    created_at = h.created_at;
    catalogue = h.catalogue;
  }

  -- The clean-up after the transaction cannot fail.
  pub drop_orphans-Sealed :
      (kind : StoreKind) (from : ℕ) (b db : Database R E)
      → Sealed kind from b db
      → Ensures (λ _ d. Sealed kind from b d × IsClean kind d) (λ _ _. ⊥) (drop_orphans kind db)
  unfolding drop_orphan_document_bodies table_exists rows
  drop_orphans-Sealed stm from b db h = (h, tt)
  drop_orphans-Sealed ltm from b db (r, (nodes, leaves, has_leaves, has_bodies, covers)) =
      let made = create_ltm_doc_bodies db in
      let there = table_exists-create_ltm_doc_bodies (text "leaves") db has_leaves in
      let same : made.leaves ≡ db.leaves =
        ap (λ (x : Rows R). x.4) (rows-create_ltm_doc_bodies db) in
      let bodies : made.doc_bodies ≡ db.doc_bodies =
        ap (λ (x : Rows R). x.5) (rows-create_ltm_doc_bodies db) in
      rw (has_bodies, there)
        (
          (
            IsRecorded-bodies ltm made _ (
                IsRecorded-SameRows ltm made db (create_ltm_doc_bodies-SameRows db)
                  (table_exists-create_ltm_doc_bodies (text "meta") db r.catalogue) r),
            (
              ap (λ (x : Rows R). x.3) (rows-create_ltm_doc_bodies db) ∙ nodes,
              same ∙ leaves,
              there,
              table_exists-create_ltm_doc_bodies (text "doc_bodies") db has_bodies,
              λ x h.
                  filter_keeps_carried x made.leaves made.doc_bodies
                    (rw (same, leaves) (carried_by x b.tree_nodes b.leaves h))
                    (rw bodies (covers x h)),
            ),
          ),
          All-filter_holds (is_carried made.leaves) made.doc_bodies,
        )
