-- ===== src/Registration/Creating.antt =====
-- What `create` of backend/api/views/datasample.py leaves of the tables.
use substra_backend.Prelude.{
  ℕ, Bool, true, ◌&&◌, not, ◌≡◌, refl, sym, ap, ◌∙◌, subst, Option, none, some, List, [], ◌∷◌, ◌++◌,
  map, All, arith, ==_refl, Bool-cases, ◌⊎◌, inl, inr,
}
use substra_backend.Registration.{
  CreationError, validation_error, Reply, raises, gives, FileData, FileRow, ApiData, Tables, Calls,
  check_datamanagers, row_of, delete_instances, with_files, db_create, created, prepend, save_one,
  save_files, after_registration, insert_sample, has_sample, has_file, save_sample, go_on,
  find_instance, api_create, register_all, after_saving, create_all, status, create,
}
use substra_backend.Registration.Rows.{add_rows, is_fresh, delete_instances-add_rows}

module _ (calls : Calls) where
  -- Each file is valid and can be saved.
  abbrev pub is_good : FileData → Bool
  is_good f = calls.is_valid f && not (calls.save_fails f)

  abbrev pub AllGood : List FileData → Type 0
  AllGood fs = All (λ f. is_good f ≡ true) fs

  abbrev pub yielded : List FileData → List (Reply FileData)
  yielded fs = map (λ f. gives f) fs

  abbrev pub rows_of : List FileData → List FileRow
  rows_of fs = map row_of fs

  db_create_good : (f : FileData) → is_good f ≡ true → db_create calls f ≡ gives (row_of f)
  unfolding db_create
  db_create_good f h = ground arith

  -- The loop on good files makes their rows.
  pub save_files_good :
      (fs : List FileData) (rows : List FileRow)
      → AllGood fs
      → save_files calls (yielded fs) rows ≡ (add_rows (rows_of fs) rows, gives (rows_of fs))
  unfolding save_files add_rows
  save_files_good [] rows h = refl
  save_files_good (f ∷ fs) rows h =
      ap (λ r. save_one calls r rows (save_files calls (yielded fs))) (db_create_good f h.0)
      ∙ ap (prepend calls (row_of f)) (save_files_good fs (row_of f ∷ rows) h.1)

  -- The loop on good files, and then one that raises, leaves their rows in the table.
  pub save_files_bad :
      (fs : List FileData) (bad : Reply FileData) (e : CreationError) (more : List (Reply FileData))
      (rows : List FileRow)
      → AllGood fs
      → created calls bad ≡ raises e
      → save_files calls (yielded fs ++ (bad ∷ more)) rows ≡ (add_rows (rows_of fs) rows, raises e)
  unfolding save_files add_rows
  save_files_bad [] bad e more rows h b = ap (λ r. save_one calls r rows (save_files calls more)) b
  save_files_bad (f ∷ fs) bad e more rows h b =
      ap (λ r. save_one calls r rows (save_files calls (yielded fs ++ (bad ∷ more))))
        (db_create_good f h.0)
      ∙ ap (prepend calls (row_of f)) (save_files_bad fs bad e more (row_of f ∷ rows) h.1 b)

  module _ (instances : List FileRow) where
    -- Each sample of the answer has an instance.
    abbrev pub Known : List ApiData → Type 0
    Known ds = All (λ d. has_file calls d.key instances ≡ true) ds

    -- The loop returned: the files stay, and each sample of the answer is in the table.
    pub record Registered (ds : List ApiData) (db after : Tables) : Type 0 where
      pub files_stay : after.files ≡ db.files
      pub samples_stay :
          (key : ℕ)
          → has_sample calls key db.samples ≡ true
          → has_sample calls key after.samples ≡ true
      pub registered : All (λ d. has_sample calls d.key after.samples ≡ true) ds

    -- The loop returned, or it raised, and the files of the instances are gone.
    abbrev Ended : List ApiData → Tables → Tables × Reply {0} Unit → Type 0
    Ended ds db end_ =
        ((end_.1 ≡ gives tt) × Registered ds db end_.0)
        ⊎ ((e : CreationError) × (end_.1 ≡ raises e)
            × (end_.0.files ≡ delete_instances instances db.files))

    insert_sample-Ended :
        (d : ApiData) (o : Option CreationError) (db : Tables)
        → Ended (d ∷ []) db (insert_sample calls instances d o db)
    insert_sample-Ended d (some e) db = inr (e, refl, refl)
    insert_sample-Ended d none db = inl (
      refl,
      record {
        files_stay = refl;
        samples_stay = λ key h. ground arith;
        registered = (rw (==_refl d.key) refl, tt);
      },
    )

    save_sample-Ended :
        (d : ApiData) (db : Tables) → Ended (d ∷ []) db (save_sample calls instances d db)
    save_sample-Ended d db = elim (Bool-cases (calls.has_other_errors d)) [
      | inl wrong ↦ rw wrong (inr (validation_error, refl, refl))
      | inr well ↦ rw well (elim (Bool-cases (has_sample calls d.key db.samples)) [
        | inl there ↦ rw there (
            inl (
              refl,
              record { files_stay = refl; samples_stay = λ key h. h; registered = (there, tt) },
            ))
        | inr absent ↦ rw absent (insert_sample-Ended d (calls.save_raises d) db)
      ])
    ]

    -- A step that returned, and then the rest.
    Ended-after :
        (d : ApiData) (ds : List ApiData) (db mid : Tables) (end_ : Tables × Reply {0} Unit)
        → Registered (d ∷ []) db mid
        → Ended ds mid end_
        → Ended (d ∷ ds) db end_
    Ended-after d ds db mid end_ one (inl (returns, rest)) = inl (
      returns,
      record {
        files_stay = rest.files_stay ∙ one.files_stay;
        samples_stay = λ key h. rest.samples_stay key (one.samples_stay key h);
        registered = (rest.samples_stay d.key one.registered.0, rest.registered);
      },
    )
    Ended-after d ds db mid end_ one (inr (e, raised, gone)) =
        inr (e, raised, gone ∙ ap (delete_instances instances) one.files_stay)

    abbrev then_find : ApiData → List ApiData → Tables → Tables × Reply {0} Unit
    then_find d ds now =
        let (found, known) = find_instance calls instances d.key now in
        go_on calls known found (api_create calls instances ds)

    pub api_create-Ended :
        (ds : List ApiData) (db : Tables)
        → Known ds
        → Ended ds db (api_create calls instances ds db)
    unfolding api_create
    api_create-Ended [] db known =
        inl (refl, record { files_stay = refl; samples_stay = λ key h. h; registered = tt })
    api_create-Ended (d ∷ ds) db known =
        let (mid, result) = save_sample calls instances d db in
        elim (save_sample-Ended d db) [
          | inl (returned, one) ↦
              subst (λ r. Ended (d ∷ ds) db (go_on calls r mid (then_find d ds))) (sym returned)
                (rw known.0 (
                  Ended-after d ds db mid (api_create calls instances ds mid) one
                    (api_create-Ended ds mid known.1)))
          | inr (e, raised, gone) ↦
              subst (λ r. Ended (d ∷ ds) db (go_on calls r mid (then_find d ds))) (sym raised)
                (inr (e, refl, gone))
        ]

  -- Steps 2 and 3.
  module _ (data_manager_keys : List ℕ) (fs : List FileData) (db : Tables) (good : AllGood fs)
      (checked : check_datamanagers data_manager_keys db ≡ gives tt) where
    abbrev pub saved : Tables
    saved = with_files (add_rows (rows_of fs) db.files) db

    abbrev pub ended : Tables × Reply {0} Unit
    ended = create_all calls data_manager_keys (yielded fs) db

    create_all_good :
        create_all calls data_manager_keys (yielded fs) db
        ≡ register_all calls data_manager_keys (rows_of fs) saved
    unfolding create_all
    create_all_good =
        ap
          (λ r. go_on calls r db (λ now.
            after_saving calls data_manager_keys (save_files calls (yielded fs) now.files) now))
          checked
        ∙ ap (λ r. after_saving calls data_manager_keys r db) (save_files_good fs db.files good)

    module _ (fresh : is_fresh (rows_of fs) db.files ≡ true) where
      -- Where the orchestrator refuses the samples, `_create` raises what it raised, and the tables are as
      -- they were. Conditions: the data managers exist, each file can be saved, and the keys of the new rows
      -- are new and differ from each other.
      pub create_all-refused :
          (e : CreationError)
          → calls.register_datasamples (rows_of fs) data_manager_keys ≡ raises e
          → ((create_all calls data_manager_keys (yielded fs) db).1 ≡ raises e)
            × ((create_all calls data_manager_keys (yielded fs) db).0 ≡ db)
      unfolding register_all
      create_all-refused e refused =
          let run =
            create_all_good ∙ ap (λ r. after_registration calls (rows_of fs) r saved) refused in
          (
            ap (λ p. p.1) run,
            ap (λ p. p.0) run
                ∙ ap (λ rows. with_files rows db)
                    (delete_instances-add_rows (rows_of fs) db.files fresh),
          )

      -- Where the orchestrator answers with samples that are all among the new ones, `_create` either returns,
      -- with the file of each new sample in the table, the files that were there, and each sample of the
      -- answer in the table of the API; or it raises, and the table of the files is as it was. Conditions:
      -- the data managers exist, each file can be saved, and the keys of the new rows are new and differ
      -- from each other.
      pub create_all-answered :
          (answer : List ApiData)
          → calls.register_datasamples (rows_of fs) data_manager_keys ≡ gives answer
          → Known (rows_of fs) answer
          → ((ended.1 ≡ gives tt) × Registered (rows_of fs) answer saved ended.0)
            ⊎ ((e : CreationError) × (ended.1 ≡ raises e) × (ended.0.files ≡ db.files))
      unfolding register_all
      create_all-answered answer answered known =
          let run =
            create_all_good ∙ ap (λ r. after_registration calls (rows_of fs) r saved) answered in
          subst
            (λ p.
              ((p.1 ≡ gives tt) × Registered (rows_of fs) answer saved p.0)
              ⊎ ((e : CreationError) × (p.1 ≡ raises e) × (p.0.files ≡ db.files)))
            (sym run)
            (elim (api_create-Ended (rows_of fs) answer saved known) [
              | inl good_end ↦ inl good_end
              | inr (e, raised, gone) ↦
                  inr (e, raised, gone ∙ delete_instances-add_rows (rows_of fs) db.files fresh)
            ])

module _ (calls : Calls) where
  -- Where a file behind others is invalid, `create` answers with the status 400, and the rows of the files
  -- before it stay in the table, registered nowhere else. Conditions: the data managers exist, and the
  -- files before it can be saved.
  pub create-leaves_rows :
      (data_manager_keys : List ℕ) (fs : List FileData) (bad : Reply FileData)
      (more : List (Reply FileData)) (db : Tables)
      → AllGood calls fs
      → created calls bad ≡ raises validation_error
      → check_datamanagers data_manager_keys db ≡ gives tt
      → create calls data_manager_keys (yielded calls fs ++ (bad ∷ more)) db
        ≡ (with_files (add_rows (rows_of calls fs) db.files) db, some 400)
  unfolding create create_all
  create-leaves_rows data_manager_keys fs bad more db good invalid checked =
      ap (λ r. let (after, result) = r in (after, status calls result))
        (ap
            (λ r. go_on calls r db (λ now.
              after_saving calls data_manager_keys
                (save_files calls (yielded calls fs ++ (bad ∷ more)) now.files) now))
            checked
          ∙ ap (λ r. after_saving calls data_manager_keys r db)
              (save_files_bad calls fs bad validation_error more db.files good invalid))
