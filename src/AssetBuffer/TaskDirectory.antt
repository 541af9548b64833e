-- ===== src/AssetBuffer/TaskDirectory.antt =====
-- That `add_assets_to_taskdir` of backend/substrapp/compute_tasks/asset_buffer.py gives a task every
-- asset that it needs.
use substra_backend.Prelude.{
  ℕ, Bool, true, false, ◌&&◌, ◌==◌, ◌≡◌, refl, sym, ap, ◌∙◌, subst, Option, none, some, List, [],
  ◌∷◌, All, All-map, any, not, ◌||◌,
}
use substra_backend.Worker.{returned}
use substra_backend.AssetBuffer.{
  Folder, data_samples, models, openers, same_folder, Node, file, directory, Buffer, Source,
  ◌and_then◌,
}
use substra_backend.AssetBuffer.Adding.{NeededAssets, add_task_assets_to_buffer}
use substra_backend.AssetBuffer.Genuine.{is_genuine, IsGenuine}
use substra_backend.AssetBuffer.Keeping.{
  and_then_preserves, and_then_returned, add_task_assets_to_buffer-IsGenuine,
}
use substra_backend.AssetBuffer.Presence.{
  option_list, HasNeeded, add_task_assets_to_buffer-HasNeeded,
}
use substra_backend.AssetBuffer.Linking.{
  link_at_other, link_asset, link_each, add_assets_to_taskdir, is_file, links_once, &&-true,
  NoFiles, NoFailures, LinkFailures, link_each_kept, link_each_links,
}

-- The directory of a task before anything is linked.
abbrev pub empty : Buffer
empty folder key = none

module _ (b : Buffer) where
  -- Every needed asset stands in the directory of the task as it stands in the buffer.
  pub record Linked (ctx : NeededAssets) (t : Buffer) : Type 0 where
    pub data_samples_linked : All (λ k. t data_samples k ≡ b data_samples k) ctx.data_sample_keys
    pub opener_linked : All (λ k. t openers k ≡ b openers k) (option_list ctx.data_manager)
    pub models_linked : All (λ k. t models k ≡ b models k) ctx.input_models

  links_directories :
      (folder : Folder) (keys : List ℕ) → NoFiles folder keys b → links_once b folder keys ≡ true
  links_directories folder [] h = refl
  links_directories folder (key ∷ keys) h = rw (h.0, links_directories folder keys h.1) refl

  -- The links in one folder leave the others as they are.
  link_each_elsewhere :
      (fails : LinkFailures) (folder : Folder) (keys : List ℕ) (t : Buffer) (f : Folder) (k : ℕ)
      → same_folder f folder ≡ false
      → (link_each fails b folder keys t).0 f k ≡ t f k
  unfolding link_each
  link_each_elsewhere fails folder [] t f k h = refl
  link_each_elsewhere fails folder (key ∷ keys) t f k h =
      and_then_preserves (λ s. s f k ≡ t f k) (link_asset fails b folder key)
        (link_each fails b folder keys) t
        (link_at_other (fails folder key) folder key (b folder key) (t folder key) t f k
          (rw h refl))
        (λ e. link_each_elsewhere fails folder keys _ f k h ∙ e)

  NoFiles-empty :
      (t : Buffer) (folder : Folder) (keys : List ℕ)
      → ((k : ℕ) → t folder k ≡ none)
      → NoFiles folder keys t
  NoFiles-empty t folder [] h = tt
  NoFiles-empty t folder (key ∷ keys) h = (ap is_file (h key), NoFiles-empty t folder keys h)

-- The operating system links all the needed assets.
abbrev pub NoneFails : LinkFailures → NeededAssets → Type 0
NoneFails fails ctx =
    NoFailures fails data_samples ctx.data_sample_keys
    × NoFailures fails openers (option_list ctx.data_manager)
    × NoFailures fails models ctx.input_models

module _ (source : Source) (b : Buffer) where
  genuine-directory :
      (folder : Folder) (keys : List ℕ)
      → same_folder folder models ≡ false
      → IsGenuine source b
      → NoFiles folder keys b
  genuine-directory folder [] d i = tt
  genuine-directory folder (key ∷ keys) d i = (
    not_file folder key (b folder key) d (i.genuine folder key),
    genuine-directory folder keys d i,
  )
    where
      not_file :
          (f : Folder) (k : ℕ) (n : Option Node)
          → same_folder f models ≡ false
          → is_genuine source f k n ≡ true
          → is_file n ≡ false
      not_file f k none e h = refl
      not_file f k (some (directory es)) e h = refl
      not_file data_samples k (some (file c)) e h = cc
      not_file openers k (some (file c)) e h = cc
      not_file models k (some (file c)) e h = cc

  module _ (fails : LinkFailures) (ctx : NeededAssets) where
    links :
        NoneFails fails ctx
        → HasNeeded ctx b
        → IsGenuine source b
        → links_once b models ctx.input_models ≡ true
        → ((add_assets_to_taskdir fails b ctx empty).1 ≡ returned tt)
          × Linked b ctx (add_assets_to_taskdir fails b ctx empty).0
    unfolding add_assets_to_taskdir
    links works needed i once =
        let d = link_each fails b data_samples ctx.data_sample_keys in
        let o = link_each fails b openers (option_list ctx.data_manager) in
        let m = link_each fails b models ctx.input_models in
        let one =
          link_each_links fails b data_samples ctx.data_sample_keys empty works.0
            needed.with_data_samples
            (NoFiles-empty b empty data_samples ctx.data_sample_keys (λ k. refl))
            (links_directories b data_samples ctx.data_sample_keys
              (genuine-directory data_samples ctx.data_sample_keys refl i)) in
        let t1 = (d empty).0 in
        let two =
          link_each_links fails b openers (option_list ctx.data_manager) t1 works.1
            needed.with_opener
            (NoFiles-empty b t1 openers (option_list ctx.data_manager) (λ k.
              link_each_elsewhere b fails data_samples ctx.data_sample_keys empty openers k refl))
            (links_directories b openers (option_list ctx.data_manager)
              (genuine-directory openers (option_list ctx.data_manager) refl i)) in
        let t2 = (o t1).0 in
        let three =
          link_each_links fails b models ctx.input_models t2 works.2 needed.with_models
            (NoFiles-empty b t2 models ctx.input_models (λ k.
              link_each_elsewhere b fails openers (option_list ctx.data_manager) t1 models k refl
              ∙ link_each_elsewhere b fails data_samples ctx.data_sample_keys empty models k refl))
            once in
        let both = and_then_returned d o empty one.0 in
        subst (λ r. (r.1 ≡ returned tt) × Linked b ctx r.0)
          (sym (
            and_then_returned (d and_then o) m empty (ap (λ r. r.1) both ∙ two.0)
            ∙ ap (λ r. m r.0) both))
          (
            three.0,
            record {
              data_samples_linked =
                  All-map
                    (λ k e.
                      link_each_kept fails b models ctx.input_models t2 data_samples k works.2 (
                        link_each_kept fails b openers (option_list ctx.data_manager) t1
                          data_samples k works.1 e))
                    ctx.data_sample_keys one.1;
              opener_linked =
                  All-map
                    (λ k e. link_each_kept fails b models ctx.input_models t2 openers k works.2 e)
                    (option_list ctx.data_manager) two.1;
              models_linked = three.1;
            },
          )

-- No key stands twice.
abbrev pub distinct : List ℕ → Bool
distinct [] = true
distinct (key ∷ keys) = not (any (λ k. k == key) keys) && distinct keys

distinct-links_once :
    (b : Buffer) (folder : Folder) (keys : List ℕ)
    → distinct keys ≡ true
    → links_once b folder keys ≡ true
distinct-links_once b folder [] h = refl
distinct-links_once b folder (key ∷ keys) h =
    let (here, later) = &&-true _ _ h in
    go (is_file (b folder key)) _ _ here (distinct-links_once b folder keys later)
  where
    go : (f n l : Bool) → n ≡ true → l ≡ true → ((not f || n) && l) ≡ true
    go true n l p q = rw (p, q) refl
    go false n l p q = q

module _ (source : Source) (ctx : NeededAssets) (b : Buffer) where
  abbrev pub filled : Buffer
  filled = (add_task_assets_to_buffer source ctx b).0

  -- Where `add_task_assets_to_buffer` returns on a buffer of whole assets, and no model is needed twice,
  -- `add_assets_to_taskdir` returns as well on the empty directory of the task, and every needed data
  -- sample, opener and model stands there as it stands in the buffer. Condition: the operating system does
  -- not fail to link one of them (there is space left, for one).
  pub add_assets_to_taskdir-Linked :
      (fails : LinkFailures)
      → NoneFails fails ctx
      → (add_task_assets_to_buffer source ctx b).1 ≡ returned tt
      → IsGenuine source b
      → distinct ctx.input_models ≡ true
      → ((add_assets_to_taskdir fails filled ctx empty).1 ≡ returned tt)
        × Linked filled ctx (add_assets_to_taskdir fails filled ctx empty).0
  add_assets_to_taskdir-Linked fails works h i once =
      links source filled fails ctx works (add_task_assets_to_buffer-HasNeeded source ctx b h)
        (add_task_assets_to_buffer-IsGenuine source ctx b i)
        (distinct-links_once filled models ctx.input_models once)
