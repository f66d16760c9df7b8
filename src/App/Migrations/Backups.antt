-- ===== src/App/Migrations/Backups.antt =====
-- `backup_store` and `reserve_private_file` of src/application/migrations.rs: the copy of a store
-- that is about to be migrated.
use neurolithe.Base.Int.{ℤ, signed_text}
use neurolithe.App.Migrations.Prepare.{
  put_store, on_store, StoreIo, max_names, reserve_private_file, back_up, backup_store, vacuum_into,
  candidate_name, reserve, Disk, Os,
}
use neurolithe.Base.Outcome.{ok, err, Result, Ensures-mono, Ensures-continue, Ensures}
use neurolithe.App.Migrations.{StoreError}
use neurolithe.Base.Text.{text, Text}
use neurolithe.Base.Maps.{lookup-insert, Map, lookup-remove, insert, lookup}
use neurolithe.Store.Schema.{has_user_tables, Database}
use neurolithe.Base.{
  ℕ, zero, suc, ◌≡◌, refl, ap, ◌∙◌, ◌⊎◌, inl, inr, false, Option, none, some, ◌++◌, arith,
  Bool-cases, Option-cases, ◌==◌, text_key, same_refl, same→eq, nat_key,
}

module _ {R E : Type 0} where
  -- The file that was reserved: a new one, and no other file is touched.
  IsReserved : Disk R E → Text → Disk R E → Type 0
  IsReserved disk t d =
      (lookup t disk.files ≡ none) × (d ≡ record disk { files = insert t none disk.files })

  -- The files that were there are still what they were.
  abbrev pub KeepsFiles : Disk R E → Disk R E → Type 0
  KeepsFiles disk d =
      (j : Text) (x : Option (Database R E))
      → lookup j disk.files ≡ some x
      → lookup j d.files ≡ some x

  -- The store is what it was, and no file is lost.
  abbrev pub IsUntouched : Disk R E → Disk R E → Type 0
  IsUntouched disk d = (d.store ≡ disk.store) × KeepsFiles disk d

  -- The copy holds the store, in a file of its own.
  pub record IsCopy (disk : Disk R E) (t : Text) (d : Disk R E) : Type 0 where
    pub is_new : lookup t disk.files ≡ none
    pub holds : lookup t d.files ≡ some (some disk.store)
    pub keeps : KeepsFiles disk d

  abbrev Copied : Disk R E → Text → Disk R E → Type 0
  Copied disk t d = (d.store ≡ disk.store) × IsCopy disk t d

  -- What `back_up` returns: a copy of a store that has tables and a path, or nothing for another.
  abbrev pub IsBackedUp : Option Text → Disk R E → Option Text → Disk R E → Type 0
  IsBackedUp db_path disk none d =
      (d.files ≡ disk.files) × ((db_path ≡ none) ⊎ (has_user_tables disk.store ≡ false))
  IsBackedUp db_path disk (some t) d = IsCopy disk t d

  pub IsBackedUp-KeepsFiles :
      (db_path : Option Text) (disk : Disk R E) (o : Option Text) (d : Disk R E)
      → IsBackedUp db_path disk o d
      → KeepsFiles disk d
  IsBackedUp-KeepsFiles db_path disk none d h = λ j x there. ap (lookup j) h.0 ∙ there
  IsBackedUp-KeepsFiles db_path disk (some t) d h = h.keeps

  -- A statement on the store leaves the files.
  pub Ensures-on_store :
      {A : Type 0} (P : A → Database R E → Type 0) (Q : StoreError → Database R E → Type 0)
      (m : StoreIo R E A) (disk : Disk R E)
      → Ensures P Q (m disk.store)
      → Ensures
          (λ a d. P a d.store × (d.files ≡ disk.files))
          (λ e d. Q e d.store × (d.files ≡ disk.files))
          (on_store m disk)
  Ensures-on_store P Q m disk h = put (m disk.store) h
    where
      put :
          (r : Result StoreError _ × Database R E)
          → Ensures P Q r
          → Ensures
              (λ a d. P a d.store × (d.files ≡ disk.files))
              (λ e d. Q e d.store × (d.files ≡ disk.files))
              (put_store disk r)
      put (ok a, db) h = (h, refl)
      put (err e, db) h = (h, refl)

  abbrev pub BackedUp : Option Text → Disk R E → Option Text → Disk R E → Type 0
  BackedUp db_path disk o d = (d.store ≡ disk.store) × IsBackedUp db_path disk o d

  module _ (os : Os) where
    reserve-IsReserved :
        (base : Text) (left n : ℕ) (disk : Disk R E)
        → Ensures (IsReserved disk) (λ _ d. d ≡ disk) (reserve os base left n disk)
    unfolding reserve IsReserved
    reserve-IsReserved base zero n disk = refl
    reserve-IsReserved base (suc left) n disk =
        elim (Option-cases (lookup (candidate_name base n) disk.files)) [
          | inr (x, e) ↦ rw e (reserve-IsReserved base left (suc n) disk)
          | inl e ↦ elim (Bool-cases (os.is_denied (candidate_name base n))) [
            | inl denied ↦ rw (e, denied) refl
            | inr free ↦ rw (e, free) (e, refl)
          ]
        ]

    module _ (disk : Disk R E) (t : Text) (is_new : lookup t disk.files ≡ none) where
      reserved : Map Text (Option (Database R E))
      reserved = insert t none disk.files

      -- A file that was there is not the new one.
      kept_after :
          (j : Text) (x : Option (Database R E)) (fs : Map Text (Option (Database R E)))
          → ((j == t) ≡ false → lookup j fs ≡ lookup j disk.files)
          → lookup j disk.files ≡ some x
          → lookup j fs ≡ some x
      kept_after j x fs same there = elim (Bool-cases (j == t)) [
        | inr other ↦ same other ∙ there
        | inl hit ↦ absurd (
            ground (
              arith,
              text_key.same_iff j t,
              ap (λ (q : Text). lookup q disk.files) (same→eq j t hit),
            ))
      ]

      vacuum_into-IsCopy :
          (d : Disk R E)
          → d ≡ record disk { files = reserved }
          → Ensures (Copied disk) (λ _ d'. IsUntouched disk d') (vacuum_into os t d)
      unfolding reserved
      vacuum_into-IsCopy d e = elim (Bool-cases (os.vacuum_fails t)) [
        | inl fails ↦
            rw (e, fails)
              (
                refl,
                λ j x. kept_after j x _ (λ other.
                    rw
                      (
                        lookup-remove t j (insert t none disk.files),
                        lookup-insert t j none disk.files,
                        other,
                      )
                      refl),
              )
        | inr works ↦
            rw (e, works)
              (
                refl,
                record {
                  is_new = is_new;
                  holds =
                      rw
                        (
                          lookup-insert t t (some disk.store) (insert t none disk.files),
                          same_refl t,
                        )
                        refl;
                  keeps = λ j x. kept_after j x _ (λ other.
                      rw
                        (
                          lookup-insert t j (some disk.store) (insert t none disk.files),
                          lookup-insert t j none disk.files,
                          other,
                        )
                        refl);
                },
              )
      ]

    pub backup_store-IsCopy :
        (path tag : Text) (disk : Disk R E)
        → Ensures (Copied disk) (λ _ d. IsUntouched disk d) (backup_store os path tag disk)
    unfolding backup_store reserve_private_file IsReserved reserved
    backup_store-IsCopy path tag disk =
        Ensures-continue (IsReserved disk) _ (Copied disk) (reserve_private_file os path tag disk)
          (vacuum_into os)
          (Ensures-mono (IsReserved disk) (λ _ d. d ≡ disk) (IsReserved disk)
            (λ _ d. IsUntouched disk d) (reserve_private_file os path tag disk)
            (reserve-IsReserved _ max_names 0 disk) (λ _ _ p. p) (λ _ d e. rw e (refl, λ j x p. p)))
          (λ t d p. vacuum_into-IsCopy disk t p.0 d p.1)

    pub back_up-IsBackedUp :
        (db_path : Option Text) (from : ℤ) (disk : Disk R E)
        → Ensures (BackedUp db_path disk) (λ _ d. IsUntouched disk d) (back_up os db_path from disk)
    unfolding back_up
    back_up-IsBackedUp none from disk = (refl, (refl, inl refl))
    back_up-IsBackedUp (some path) from disk = elim (Bool-cases (has_user_tables disk.store)) [
      | inr empty ↦ rw empty (refl, (refl, inr empty))
      | inl full ↦ rw full (
          Ensures-continue (Copied disk) _ (BackedUp (some path) disk)
            (backup_store os path (text "v" ++ signed_text from) disk) _
            (backup_store-IsCopy path (text "v" ++ signed_text from) disk) (λ t d p. p))
    ]
