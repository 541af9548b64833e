-- ===== src/Outputs/Rollback.antt =====
-- What a refused registration leaves of the models, in backend/substrapp/compute_tasks/outputs.py.
use substra_backend.Prelude.{
  ℕ, Bool, true, false, ◌&&◌, not, ◌==◌, ◌≡◌, refl, ap, sym, ◌∙◌, Option, none, some, List, [], ◌∷◌,
  any, is_some, if◌then◌else◌, arith, ==_refl, ==_iff, Bool-cases, inl, inr, subst,
}
use substra_backend.Store.{save, exists}
use substra_backend.Store.Laws.{get?-save}
use substra_backend.Outputs.{
  ModelRow, OutputResource, NewModel, orchestrator_error, storage_error, Reply, raises, gives,
  State, Calls, with_rows, save_row, delete_models, raise_again, new_model, model_row, store_model,
  save_model_to_local_storage, with_model, after_model, save_model_files, save_models,
}
use substra_backend.Outputs.Deleting.{named, distinct, row, Deleted, delete_models-Deleted}

abbrev taken : ℕ → List OutputResource → Bool
taken key os = any (λ o. o.new_key == key) os

-- The new keys are different from each other, and the table has none of them.
abbrev pub are_distinct : List OutputResource → Bool
are_distinct [] = true
are_distinct (o ∷ os) = not (taken o.new_key os) && are_distinct os

abbrev pub are_new : List OutputResource → List ModelRow → Bool
are_new [] rows = true
are_new (o ∷ os) rows = not (exists ModelRow.key o.new_key rows) && are_new os rows

module _ (calls : Calls) where
  -- What the saving of files has done, where it returns: the models have the new keys, their rows are
  -- there, and nothing else has changed.
  record Saved (os : List OutputResource) (s t : State) (ms : List NewModel) : Type 0 where
    are_apart : distinct ms ≡ true
    same_keys : (k : ℕ) → named k ms ≡ taken k os
    are_there : (k : ℕ) → taken k os ≡ true → exists ModelRow.key k t.rows ≡ true
    others : (k : ℕ) → taken k os ≡ false → row k t.rows ≡ row k s.rows
    all_else : t ≡ with_rows t.rows s

  abbrev Result : List OutputResource → State → State × Reply (List NewModel) → Type 0
  Result os s (t, raises e) = Unit
  Result os s (t, gives ms) = Saved os s t ms

  record Stored (o : OutputResource) (s t : State) (m : NewModel) : Type 0 where
    key : m.key ≡ o.new_key
    is_there : exists ModelRow.key o.new_key t.rows ≡ true
    others : (k : ℕ) → (o.new_key == k) ≡ false → row k t.rows ≡ row k s.rows
    all_else : t ≡ with_rows t.rows s

  abbrev One : OutputResource → State → State × Reply NewModel → Type 0
  One o s (t, raises e) = Unit
  One o s (t, gives m) = Stored o s t m

  row-save_row :
      (k : ℕ) (r : ModelRow) (rows : List ModelRow)
      → (r.key == k) ≡ false
      → row k (save ModelRow.key r rows) ≡ row k rows
  row-save_row k r rows h = rw (get?-save ModelRow.key k r rows, h) refl

  store_model-Stored :
      (o : OutputResource) (file : Option ℕ) (s : State) → One o s (store_model calls o file s)
  unfolding exists
  store_model-Stored o none s = tt
  store_model-Stored o (some content) s = go (calls.save_fails o)
    where
      first : ModelRow
      first = model_row calls o none (some (calls.get_hash content))

      second : ModelRow
      second = model_row calls o (some content) (some (calls.get_hash content))

      go :
          (fails : Bool)
          → One o s (
              if fails
              then (save_row first s, raises storage_error)
              else (save_row second (save_row first s), gives (new_model calls o content)))
      go true = tt
      go false = record {
        key = refl;
        is_there =
            rw
              (
                get?-save ModelRow.key o.new_key second (save ModelRow.key first s.rows),
                ==_refl o.new_key,
              )
              refl;
        others = λ k other.
            row-save_row k second (save ModelRow.key first s.rows) other
            ∙ row-save_row k first s.rows other;
        all_else = refl;
      }

  join-Saved :
      (o : OutputResource) (os : List OutputResource) (s t : State) (m : NewModel)
      (r : State × Reply (List NewModel))
      → taken o.new_key os ≡ false
      → Stored o s t m
      → Result os t r
      → Result (o ∷ os) s (with_model calls m r)
  unfolding exists
  join-Saved o os s t m (u, raises e) d one rest = tt
  join-Saved o os s t m (u, gives ms) d one rest = record {
    are_apart = ground (arith, one.key, rest.same_keys m.key, rest.are_apart);
    same_keys = λ k. ground (arith, one.key, rest.same_keys k);
    are_there = λ k h. elim (Bool-cases (taken k os)) [
      | inl later ↦ rest.are_there k later
      | inr own ↦
          subst (λ j. exists ModelRow.key j u.rows ≡ true) ((==_iff o.new_key k).0 (ground arith))
            (ap is_some (rest.others o.new_key d) ∙ one.is_there)
    ];
    others = λ k h. rest.others k (ground arith) ∙ one.others k (ground arith);
    all_else = rest.all_else ∙ ap (with_rows u.rows) one.all_else;
  }

  after_model-Saved :
      (o : OutputResource) (os : List OutputResource) (s : State) (r : State × Reply NewModel)
      → taken o.new_key os ≡ false
      → One o s r
      → ((t : State) → Result os t (save_model_files calls os t))
      → Result (o ∷ os) s (after_model calls r (save_model_files calls os))
  after_model-Saved o os s (t, raises e) d one rest = tt
  after_model-Saved o os s (t, gives m) d one rest =
      join-Saved o os s t m (save_model_files calls os t) d one (rest t)

  save_model_files-Saved :
      (os : List OutputResource) (s : State)
      → are_distinct os ≡ true
      → Result os s (save_model_files calls os s)
  unfolding save_model_files save_model_to_local_storage
  save_model_files-Saved [] s d = record {
    are_apart = refl;
    same_keys = λ k. refl;
    are_there = λ k h. cc;
    others = λ k h. refl;
    all_else = refl;
  }
  save_model_files-Saved (o ∷ os) s d =
      after_model-Saved o os s (save_model_to_local_storage calls o s) (ground arith)
        (store_model-Stored o (s.files o.rel_path) s)
        (λ t. save_model_files-Saved os t (ground arith))

  -- The run has ended with the error of the orchestrator, the table answers as before for every key, and
  -- nothing else has changed.
  pub record IsRolledBack (before : State) (after : State) (reply : Reply {0} Unit) : Type 0 where
    pub raised : reply ≡ raises orchestrator_error
    pub same_rows : (k : ℕ) → row k after.rows ≡ row k before.rows
    pub all_else : after ≡ with_rows after.rows before

  abbrev pub RolledBack : State → State × Reply {0} Unit → Type 0
  RolledBack before (after, reply) = IsRolledBack before after reply

  are_new-absent :
      (k : ℕ) (os : List OutputResource) (rows : List ModelRow)
      → are_new os rows ≡ true
      → taken k os ≡ true
      → row k rows ≡ none
  unfolding exists
  are_new-absent k [] rows n h = cc
  are_new-absent k (o ∷ os) rows n h = elim (Bool-cases (taken k os)) [
    | inl later ↦ are_new-absent k os rows (ground arith) later
    | inr own ↦
        subst (λ j. row j rows ≡ none) ((==_iff o.new_key k).0 (ground arith)) (ground arith)
  ]

  -- Where the orchestrator refuses to register the models whose files have all been saved, `save_models`
  -- raises its error, the table of the models answers for every key as it did before, and nothing else has
  -- changed: not what the orchestrator and the API have registered, the task directory or the buffer.
  -- Condition: the keys that the rows get are different from each other and not in the table.
  pub save_models-RolledBack :
      (os : List OutputResource) (s saved : State) (ms : List NewModel)
      → are_distinct os ≡ true
      → are_new os s.rows ≡ true
      → save_model_files calls os s ≡ (saved, gives ms)
      → calls.register_refuses ms ≡ true
      → RolledBack s (save_models calls os s)
  unfolding save_models
  save_models-RolledBack os s saved ms d n ends refuses =
      rw (ends, refuses)
        (undo (delete_models ms saved.rows) (λ k.
          delete_models-Deleted k ms saved.rows done.are_apart
            (λ j h. done.are_there j (sym (done.same_keys j) ∙ h))))
    where
      done : Saved os s saved ms
      done = subst (Result os s) ends (save_model_files-Saved os s d)

      same : (k : ℕ) → (if named k ms then none else row k saved.rows) ≡ row k s.rows
      same k = elim (Bool-cases (taken k os)) [
        | inl new ↦ rw (done.same_keys k, new) (sym (are_new-absent k os s.rows n new))
        | inr old ↦ rw (done.same_keys k, old) (done.others k old)
      ]

      undo :
          (r : List ModelRow × Reply {0} Unit)
          → ((k : ℕ) → Deleted k ms saved.rows r)
          → RolledBack s (raise_again saved r)
      undo (rows, raises e) h = elim (h 0) [ ]
      undo (rows, gives _) h = record {
        raised = refl;
        same_rows = λ k. h k ∙ same k;
        all_else = ap (with_rows rows) done.all_else;
      }
