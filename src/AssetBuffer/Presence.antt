-- ===== src/AssetBuffer/Presence.antt =====
-- That backend/substrapp/compute_tasks/asset_buffer.py brings every asset that a task needs, and brings
-- an asset at most once.
use substra_backend.Prelude.{
  ℕ, true, false, ◌||◌, ◌≡◌, refl, sym, ap, ◌∙◌, subst, Option, none, some, List, [], ◌∷◌, is_some,
  All, All-map, arith,
}
use substra_backend.Worker.{returned}
use substra_backend.AssetBuffer.{
  Folder, data_samples, models, openers, Buffer, Source, go_on, ◌and_then◌,
}
use substra_backend.AssetBuffer.Adding.{
  add_to_buffer_safe, add_asset, add_each, run_processes, is_raised, avoid_partial,
  add_models_to_buffer, NeededAssets, add_opener, add_models, add_task_assets_to_buffer,
}
use substra_backend.AssetBuffer.Genuine.{add_asset-Added}
use substra_backend.AssetBuffer.Keeping.{
  avoid_partial-Keeps, Grows, Grows-trans, and_then_both, and_then_returned, add_each-Keeps,
  add_opener-Keeps, add_models-Keeps, run_processes-Grows, neither, avoid_partial_returned,
}

-- Every asset of the list stands in the folder.
abbrev pub AllPresent : Folder → List ℕ → Buffer → Type 0
AllPresent folder keys b = All (λ k. is_some (b folder k) ≡ true) keys

abbrev pub option_list : Option ℕ → List ℕ
option_list none = []
option_list (some k) = k ∷ []

-- Every asset that the task needs stands in the buffer.
pub record HasNeeded (ctx : NeededAssets) (b : Buffer) : Type 0 where
  pub with_data_samples : AllPresent data_samples ctx.data_sample_keys b
  pub with_opener : AllPresent openers (option_list ctx.data_manager) b
  pub with_models : AllPresent models ctx.input_models b

AllPresent-Grows :
    {b after : Buffer} (folder : Folder) (keys : List ℕ)
    → Grows b after
    → AllPresent folder keys b
    → AllPresent folder keys after
AllPresent-Grows folder keys g h = All-map (λ k p. ap is_some (g.kept folder k p) ∙ p) keys h

module _ (source : Source) where
  add_asset_kept :
      (folder : Folder) (key : ℕ) (b after : Buffer)
      → (add_asset source folder key b).1 ≡ returned tt
      → Grows (add_asset source folder key b).0 after
      → is_some (after folder key) ≡ true
  add_asset_kept folder key b after h g =
      let p = (add_asset-Added source key b folder).present h in
      ap is_some (g.kept folder key p) ∙ p

  add_each-AllPresent :
      (folder : Folder) (keys : List ℕ) (b : Buffer)
      → (add_each source folder keys b).1 ≡ returned tt
      → AllPresent folder keys (add_each source folder keys b).0
  unfolding add_each
  add_each-AllPresent folder [] b h = tt
  add_each-AllPresent folder (key ∷ keys) b h =
      let m = add_asset source folder key in
      let n = add_each source folder keys in
      let (first, second) = and_then_both m n b h in
      subst (λ p. AllPresent folder (key ∷ keys) p.0) (sym (and_then_returned m n b first))
        (
          add_asset_kept folder key b _ first
              ((add_each-Keeps source folder keys).grows (m b).0 second),
          add_each-AllPresent folder keys (m b).0 second,
        )

  run_processes-AllPresent :
      (keys : List ℕ) (b : Buffer)
      → (run_processes source keys b).1 ≡ false
      → AllPresent models keys (run_processes source keys b).0
  unfolding run_processes
  run_processes-AllPresent [] b h = tt
  run_processes-AllPresent (key ∷ keys) b h =
      let (first, later) = neither source _ _ h in
      let (mid, _) = add_asset source models key b in
      (
        add_asset_kept models key b _ first (run_processes-Grows source keys mid later),
        run_processes-AllPresent keys mid later,
      )

  add_models-AllPresent :
      (keys : List ℕ) (b : Buffer)
      → (add_models source keys b).1 ≡ returned tt
      → AllPresent models keys (add_models source keys b).0
  unfolding add_models_to_buffer
  add_models-AllPresent [] b h = tt
  add_models-AllPresent (key ∷ keys) b h =
      let all_keys = key ∷ keys in
      let (after, failed) = run_processes source all_keys b in
      let succeeded = avoid_partial_returned source failed all_keys after h in
      AllPresent-Grows models all_keys ((avoid_partial-Keeps source failed all_keys).grows after h)
        (run_processes-AllPresent all_keys b succeeded)

  add_opener-AllPresent :
      (key : Option ℕ) (b : Buffer)
      → (add_opener source key b).1 ≡ returned tt
      → AllPresent openers (option_list key) (add_opener source key b).0
  add_opener-AllPresent none b h = tt
  add_opener-AllPresent (some key) b h = ((add_asset-Added source key b openers).present h, tt)

  -- An asset that was brought once is not brought again.
  add_asset_again :
      (folder : Folder) (key : ℕ) (b later : Buffer)
      → (add_asset source folder key b).1 ≡ returned tt
      → is_some (later folder key) ≡ true
      → add_asset source folder key later ≡ (later, returned tt)
  unfolding add_asset add_to_buffer_safe
  add_asset_again data_samples key b later h p = ground arith
  add_asset_again models key b later h p = ground arith
  add_asset_again openers key b later h p = ground arith

  add_each_again :
      (folder : Folder) (keys : List ℕ) (b later : Buffer)
      → (add_each source folder keys b).1 ≡ returned tt
      → AllPresent folder keys later
      → add_each source folder keys later ≡ (later, returned tt)
  unfolding add_each
  add_each_again folder [] b later h p = refl
  add_each_again folder (key ∷ keys) b later h p =
      let m = add_asset source folder key in
      let n = add_each source folder keys in
      let (first, second) = and_then_both m n b h in
      ap (λ r. go_on r.1 r.0 n) (add_asset_again folder key b later first p.0)
      ∙ add_each_again folder keys (m b).0 later second p.1

  run_processes_again :
      (keys : List ℕ) (b later : Buffer)
      → (run_processes source keys b).1 ≡ false
      → AllPresent models keys later
      → run_processes source keys later ≡ (later, false)
  unfolding run_processes
  run_processes_again [] b later h p = refl
  run_processes_again (key ∷ keys) b later h p =
      let (first, second) = neither source _ _ h in
      let mid = (add_asset source models key b).0 in
      ap
        (λ r. let (end_, failed) = run_processes source keys r.0 in (end_, is_raised r.1 || failed))
        (add_asset_again models key b later first p.0)
      ∙ run_processes_again keys mid later second p.1

  add_models_again :
      (keys : List ℕ) (b later : Buffer)
      → (add_models source keys b).1 ≡ returned tt
      → AllPresent models keys later
      → add_models source keys later ≡ (later, returned tt)
  unfolding add_models_to_buffer
  add_models_again [] b later h p = refl
  add_models_again (key ∷ keys) b later h p =
      let all_keys = key ∷ keys in
      let (after, failed) = run_processes source all_keys b in
      let succeeded = avoid_partial_returned source failed all_keys after h in
      ap (λ r. let (end_, fails) = r in avoid_partial fails all_keys end_)
        (run_processes_again all_keys b later succeeded p)

  add_opener_again :
      (key : Option ℕ) (b later : Buffer)
      → (add_opener source key b).1 ≡ returned tt
      → AllPresent openers (option_list key) later
      → add_opener source key later ≡ (later, returned tt)
  add_opener_again none b later h p = refl
  add_opener_again (some key) b later h p = add_asset_again openers key b later h p.0

  module _ (ctx : NeededAssets) (b : Buffer) where
    abbrev with_samples : Buffer
    with_samples = (add_each source data_samples ctx.data_sample_keys b).0

    abbrev with_openers : Buffer
    with_openers = (add_opener source ctx.data_manager with_samples).0

    abbrev with_all : Buffer
    with_all = (add_models source ctx.input_models with_openers).0

    -- A call that returns went through its three parts.
    record Parts : Type 0 where
      samples : (add_each source data_samples ctx.data_sample_keys b).1 ≡ returned tt
      opener : (add_opener source ctx.data_manager with_samples).1 ≡ returned tt
      in_models : (add_models source ctx.input_models with_openers).1 ≡ returned tt
      end_ : (add_task_assets_to_buffer source ctx b).0 ≡ with_all

    parts : (add_task_assets_to_buffer source ctx b).1 ≡ returned tt → Parts
    unfolding add_task_assets_to_buffer
    parts h =
        let d = add_each source data_samples ctx.data_sample_keys in
        let o = add_opener source ctx.data_manager in
        let m = add_models source ctx.input_models in
        let (both, third) = and_then_both (d and_then o) m b h in
        let (first, second) = and_then_both d o b both in
        let mid = ap (λ p. p.0) (and_then_returned d o b first) in
        record {
          samples = first;
          opener = second;
          in_models = subst (λ p. (m p).1 ≡ returned tt) mid third;
          end_ = ap (λ p. p.0) (and_then_returned (d and_then o) m b both) ∙ ap (λ p. (m p).0) mid;
        }

    parts-HasNeeded : Parts → HasNeeded ctx with_all
    parts-HasNeeded p =
        let grows_m = (add_models-Keeps source ctx.input_models).grows with_openers p.in_models in
        let grows_o = (add_opener-Keeps source ctx.data_manager).grows with_samples p.opener in
        record {
          with_data_samples =
              AllPresent-Grows data_samples ctx.data_sample_keys (Grows-trans grows_o grows_m)
                (add_each-AllPresent data_samples ctx.data_sample_keys b p.samples);
          with_opener =
              AllPresent-Grows openers (option_list ctx.data_manager) grows_m
                (add_opener-AllPresent ctx.data_manager with_samples p.opener);
          with_models = add_models-AllPresent ctx.input_models with_openers p.in_models;
        }

    -- Where `add_task_assets_to_buffer` returns, every data sample, the opener and every input model that
    -- the task needs stand in the buffer.
    pub add_task_assets_to_buffer-HasNeeded :
        (add_task_assets_to_buffer source ctx b).1 ≡ returned tt
        → HasNeeded ctx (add_task_assets_to_buffer source ctx b).0
    add_task_assets_to_buffer-HasNeeded h =
        subst (HasNeeded ctx) (sym (parts h).end_) (parts-HasNeeded (parts h))

    -- Once `add_task_assets_to_buffer` has returned, a second call with the same needs returns and leaves
    -- the buffer as it is, on any later buffer where the needed assets stand: nothing is brought again.
    pub add_task_assets_to_buffer-again :
        (later : Buffer)
        → (add_task_assets_to_buffer source ctx b).1 ≡ returned tt
        → HasNeeded ctx later
        → add_task_assets_to_buffer source ctx later ≡ (later, returned tt)
    unfolding add_task_assets_to_buffer
    add_task_assets_to_buffer-again later h needed =
        let d = add_each source data_samples ctx.data_sample_keys in
        let o = add_opener source ctx.data_manager in
        let m = add_models source ctx.input_models in
        let ran = parts h in
        ap (λ r. go_on (go_on r.1 r.0 o).1 (go_on r.1 r.0 o).0 m)
          (add_each_again data_samples ctx.data_sample_keys b later ran.samples
            needed.with_data_samples)
        ∙ ap (λ r. go_on r.1 r.0 m)
            (add_opener_again ctx.data_manager with_samples later ran.opener needed.with_opener)
        ∙ add_models_again ctx.input_models with_openers later ran.in_models needed.with_models
