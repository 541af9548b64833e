-- ===== src/AssetBuffer/Linking.antt =====
-- How backend/substrapp/compute_tasks/asset_buffer.py gives the assets of the buffer to a task: the
-- links in the directory of the task, the model that a task made, and the clearing of the buffer.
use substra_backend.Prelude.{
  ℕ, Bool, true, false, not, ◌&&◌, ◌||◌, ◌==◌, ◌≡◌, refl, sym, ap, ◌∙◌, subst, inl, inr, Option,
  none, some, List, [], ◌∷◌, is_some, if◌then◌else◌, All, any, ==_iff, Bool-cases,
}
use substra_backend.Worker.{Failure, file_not_found, os_error, raised, returned}
use substra_backend.AssetBuffer.{
  Folder, data_samples, models, openers, same_folder, Node, file, directory, Buffer, write, Filling,
  ◌and_then◌,
}
use substra_backend.AssetBuffer.Adding.{NeededAssets}
use substra_backend.AssetBuffer.Keeping.{
  same_folder_refl, path-cases, write_own, and_then_preserves, and_then_returned,
}
use substra_backend.AssetBuffer.Presence.{AllPresent, option_list}

-- For which assets the operating system fails as they are linked (no space, for one): what is left at
-- the path of the link, part of a directory it may be, and what is raised.
abbrev pub LinkFailures : Type 0
LinkFailures = Folder → ℕ → Option (Option Node × Failure)

-- os.link of a file, or shutil.copytree of a directory with os.link for its files
abbrev pub link_node : Option (Option Node × Failure) → Folder → ℕ → Node → Filling
link_node none folder key node t = (write folder key (some node) t, returned tt)
link_node (some (left, e)) folder key node t = (write folder key left t, raised e)

-- The body of the loop of `_add_assets_to_taskdir`, for one key. shutil.rmtree raises NotADirectoryError
-- for a file, and os.link raises FileNotFoundError where the source is missing. The directory of a task
-- has a folder for each folder of the buffer.
abbrev pub link_at :
    Option (Option Node × Failure) → Folder → ℕ → Option Node → Option Node → Filling
link_at failure folder key src (some (file _)) t = (t, raised os_error)
link_at failure folder key none (some (directory _)) t =
    (write folder key none t, raised file_not_found)
link_at failure folder key (some node) (some (directory _)) t = link_node failure folder key node t
link_at failure folder key none none t = (t, raised file_not_found)
link_at failure folder key (some node) none t = link_node failure folder key node t

abbrev pub link_asset : LinkFailures → Buffer → Folder → ℕ → Filling
link_asset fails b folder key t =
    link_at (fails folder key) folder key (b folder key) (t folder key) t

-- _add_assets_to_taskdir
unfoldable pub link_each : LinkFailures → Buffer → Folder → List ℕ → Filling
link_each fails b folder [] t = (t, returned tt)
link_each fails b folder (key ∷ keys) t =
    let rest = link_each fails b folder keys in (link_asset fails b folder key and_then rest) t

-- add_assets_to_taskdir: `if ctx.data_manager` and `if ctx.input_models` do nothing on an empty list
unfoldable pub add_assets_to_taskdir : LinkFailures → Buffer → NeededAssets → Filling
add_assets_to_taskdir fails b ctx =
    link_each fails b data_samples ctx.data_sample_keys
    and_then link_each fails b openers (option_list ctx.data_manager)
    and_then link_each fails b models ctx.input_models

abbrev pub is_file : Option Node → Bool
is_file (some (file _)) = true
is_file _ = false

-- A file is needed once at most: a directory may be linked again.
abbrev pub links_once : Buffer → Folder → List ℕ → Bool
links_once b folder [] = true
links_once b folder (key ∷ keys) =
    (not (is_file (b folder key)) || not (any (λ k. k == key) keys)) && links_once b folder keys

link_at_own :
    (folder : Folder) (key : ℕ) (src node : Option Node) (t : Buffer)
    → t folder key ≡ node
    → node ≡ src
    → (link_at none folder key src node t).0 folder key ≡ src
link_at_own folder key src (some (file c)) t h e = h ∙ e
link_at_own folder key none (some (directory d)) t h e = cc
link_at_own folder key (some x) (some (directory d)) t h e = write_own folder key (some x) t
link_at_own folder key none none t h e = h
link_at_own folder key (some x) none t h e = cc

link_node_other :
    (failure : Option (Option Node × Failure)) (folder : Folder) (key : ℕ) (x : Node) (t : Buffer)
    (f : Folder) (k : ℕ)
    → (same_folder f folder && (k == key)) ≡ false
    → (link_node failure folder key x t).0 f k ≡ t f k
link_node_other none folder key x t f k h = rw h refl
link_node_other (some (left, e)) folder key x t f k h = rw h refl

pub link_at_other :
    (failure : Option (Option Node × Failure)) (folder : Folder) (key : ℕ) (src node : Option Node)
    (t : Buffer) (f : Folder) (k : ℕ)
    → (same_folder f folder && (k == key)) ≡ false
    → (link_at failure folder key src node t).0 f k ≡ t f k
link_at_other failure folder key src (some (file c)) t f k h = refl
link_at_other failure folder key none (some (directory d)) t f k h = rw h refl
link_at_other failure folder key (some x) (some (directory d)) t f k h =
    link_node_other failure folder key x t f k h
link_at_other failure folder key none none t f k h = refl
link_at_other failure folder key (some x) none t f k h =
    link_node_other failure folder key x t f k h

link_at_returned :
    (folder : Folder) (key : ℕ) (src node : Option Node) (t : Buffer)
    → is_file node ≡ false
    → is_some src ≡ true
    → ((link_at none folder key src node t).1 ≡ returned tt)
      × ((link_at none folder key src node t).0 folder key ≡ src)
link_at_returned folder key src (some (file c)) t h p = cc
link_at_returned folder key none x t h p = cc
link_at_returned folder key (some x) (some (directory d)) t h p =
    (refl, write_own folder key (some x) t)
link_at_returned folder key (some x) none t h p = (refl, write_own folder key (some x) t)

once_split :
    (is_a_file here later : Bool)
    → (not is_a_file || not (here || later)) ≡ true
    → (here ≡ true → is_a_file ≡ false) × ((not is_a_file || not later) ≡ true)
once_split false here later h = (λ e. refl, refl)
once_split true false false h = (λ e. cc, refl)
once_split true true later h = cc
once_split true false true h = cc

pub &&-true : (a c : Bool) → (a && c) ≡ true → (a ≡ true) × (c ≡ true)
&&-true true c h = (refl, h)
&&-true false c h = cc

-- No file stands at the path of one of the keys.
abbrev pub NoFiles : Folder → List ℕ → Buffer → Type 0
NoFiles folder keys t = All (λ k. is_file (t folder k) ≡ false) keys

-- No link of these assets fails.
abbrev pub NoFailures : LinkFailures → Folder → List ℕ → Type 0
NoFailures fails folder keys = All (λ k. fails folder k ≡ none) keys

module _ (fails : LinkFailures) (b : Buffer) where
  link_asset_returned :
      (folder : Folder) (key : ℕ) (t : Buffer)
      → fails folder key ≡ none
      → is_file (t folder key) ≡ false
      → is_some (b folder key) ≡ true
      → ((link_asset fails b folder key t).1 ≡ returned tt)
        × ((link_asset fails b folder key t).0 folder key ≡ b folder key)
  link_asset_returned folder key t works n p =
      rw works (link_at_returned folder key (b folder key) (t folder key) t n p)

  link_asset_kept :
      (folder : Folder) (key : ℕ) (t : Buffer) (f : Folder) (k : ℕ)
      → fails folder key ≡ none
      → t f k ≡ b f k
      → (link_asset fails b folder key t).0 f k ≡ b f k
  link_asset_kept folder key t f k works h = elim (path-cases f folder k key) [
    | inl (same_f, same_k) ↦
        rw (same_f, same_k, works)
          (link_at_own folder key (b folder key) (t folder key) t refl (rw (same_f, same_k) at h))
    | inr other ↦
        link_at_other (fails folder key) folder key (b folder key) (t folder key) t f k other ∙ h
  ]

  pub link_each_kept :
      (folder : Folder) (keys : List ℕ) (t : Buffer) (f : Folder) (k : ℕ)
      → NoFailures fails folder keys
      → t f k ≡ b f k
      → (link_each fails b folder keys t).0 f k ≡ b f k
  unfolding link_each
  link_each_kept folder [] t f k works h = h
  link_each_kept folder (key ∷ keys) t f k works h =
      and_then_preserves (λ s. s f k ≡ b f k) (link_asset fails b folder key)
        (link_each fails b folder keys) t (link_asset_kept folder key t f k works.0 h)
        (link_each_kept folder keys _ f k works.1)

  NoFiles-link_asset :
      (folder : Folder) (key : ℕ) (keys : List ℕ) (t : Buffer)
      → fails folder key ≡ none
      → NoFiles folder keys t
      → is_some (b folder key) ≡ true
      → is_file (t folder key) ≡ false
      → (not (is_file (b folder key)) || not (any (λ k. k == key) keys)) ≡ true
      → NoFiles folder keys (link_asset fails b folder key t).0
  NoFiles-link_asset folder key [] t works h p n once = tt
  NoFiles-link_asset folder key (k ∷ keys) t works h p n once =
      let (first, later) =
        once_split (is_file (b folder key)) (k == key) (any (λ j. j == key) keys) once in
      (
        elim (Bool-cases (k == key)) [
          | inl same ↦
              ap (λ j. is_file ((link_asset fails b folder key t).0 folder j))
                ((==_iff k key).0 same)
              ∙ ap is_file (link_asset_returned folder key t works n p).1
              ∙ first same
          | inr differs ↦
              ap is_file (
                link_at_other (fails folder key) folder key (b folder key) (t folder key) t folder k
                  (rw (same_folder_refl folder, differs) refl))
              ∙ h.0
        ],
        NoFiles-link_asset folder key keys t works h.1 p n later,
      )

  pub link_each_links :
      (folder : Folder) (keys : List ℕ) (t : Buffer)
      → NoFailures fails folder keys
      → AllPresent folder keys b
      → NoFiles folder keys t
      → links_once b folder keys ≡ true
      → ((link_each fails b folder keys t).1 ≡ returned tt)
        × All (λ k. (link_each fails b folder keys t).0 folder k ≡ b folder k) keys
  unfolding link_each
  link_each_links folder [] t works p n once = (refl, tt)
  link_each_links folder (key ∷ keys) t works p n once =
      let (here, later) = &&-true _ _ once in
      let m = link_asset fails b folder key in
      let (returns, linked) = link_asset_returned folder key t works.0 n.0 p.0 in
      let rest =
        link_each_links folder keys (m t).0 works.1 p.1
          (NoFiles-link_asset folder key keys t works.0 n.1 p.0 n.0 here) later in
      subst (λ r. (r.1 ≡ returned tt) × All (λ k. r.0 folder k ≡ b folder k) (key ∷ keys))
        (sym (and_then_returned m (link_each fails b folder keys) t returns))
        (rest.0, (link_each_kept folder keys (m t).0 folder key works.1 linked, rest.1))

-- add_model_from_path: os.rename of a file, which replaces a file that stands at the key
unfoldable pub add_model_from_path : ℕ → ℕ → Buffer → Buffer
add_model_from_path model key b = write models key (some (file model)) b

-- clear_assets_buffer: what cannot be deleted stays, since the errors are logged and not raised
unfoldable pub clear_assets_buffer : (Folder → ℕ → Bool) → Buffer → Buffer
clear_assets_buffer deletable b f k = if deletable f k then none else b f k
