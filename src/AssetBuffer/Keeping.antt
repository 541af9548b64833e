-- ===== src/AssetBuffer/Keeping.antt =====
-- What the functions of backend/substrapp/compute_tasks/asset_buffer.py that fill the buffer keep of
-- it: the assets stay whole, and those that were there stay as they were where the function returns.
use substra_backend.Prelude.{
  ℕ, Bool, true, false, ◌&&◌, ◌||◌, ◌==◌, ◌≡◌, refl, sym, ap, ◌∙◌, ◌⊎◌, inl, inr, Option, none,
  some, List, [], ◌∷◌, is_some, subst, arith, ==_iff, ==_refl, Bool-cases,
}
use substra_backend.Worker.{Failure, Attempt, raised, returned}
use substra_backend.AssetBuffer.{
  Folder, data_samples, models, openers, same_folder, Buffer, Node, write, Source, Filling, go_on,
  ◌and_then◌,
}
use substra_backend.AssetBuffer.Adding.{
  is_raised, avoid_partial, add_asset, add_each, run_processes, delete_models_from_buffer,
  add_models_to_buffer, NeededAssets, add_opener, add_models, add_task_assets_to_buffer,
}
use substra_backend.AssetBuffer.Genuine.{IsGenuine, add_asset-Added}

same_folder-eq : (f g : Folder) → same_folder f g ≡ true → f ≡ g
same_folder-eq data_samples data_samples h = refl
same_folder-eq models models h = refl
same_folder-eq openers openers h = refl
same_folder-eq data_samples models h = cc
same_folder-eq data_samples openers h = cc
same_folder-eq models data_samples h = cc
same_folder-eq models openers h = cc
same_folder-eq openers data_samples h = cc
same_folder-eq openers models h = cc

-- A path is the one of the asset, or another.
pub path-cases :
    (f folder : Folder) (k key : ℕ)
    → ((f ≡ folder) × (k ≡ key)) ⊎ ((same_folder f folder && (k == key)) ≡ false)
path-cases f folder k key = elim (Bool-cases (same_folder f folder)) [
  | inl same ↦ elim (Bool-cases (k == key)) [
    | inl e ↦ inl (same_folder-eq f folder same, (==_iff k key).0 e)
    | inr differs ↦ inr (rw (same, differs) refl)
  ]
  | inr differs ↦ inr (rw differs refl)
]

pub same_folder_refl : (f : Folder) → same_folder f f ≡ true
same_folder_refl data_samples = refl
same_folder_refl models = refl
same_folder_refl openers = refl

pub write_own :
    (folder : Folder) (key : ℕ) (node : Option Node) (b : Buffer)
    → write folder key node b folder key ≡ node
write_own folder key x b = rw (same_folder_refl folder, ==_refl key) refl

-- What stood in the buffer stands there unchanged.
pub record Grows (b after : Buffer) : Type 0 where
  pub kept : (f : Folder) (k : ℕ) → is_some (b f k) ≡ true → after f k ≡ b f k

pub Grows-refl : (b : Buffer) → Grows b b
Grows-refl b = record { kept = λ f k h. refl }

pub Grows-trans : {b mid after : Buffer} → Grows b mid → Grows mid after → Grows b after
Grows-trans {b} {mid} {after} g h = record {
  kept = λ f k p. h.kept f k (ap is_some (g.kept f k p) ∙ p) ∙ g.kept f k p;
}

Attempt-cases : (r : Attempt {0} Unit) → ((e : Failure) × (r ≡ raised e)) ⊎ (r ≡ returned tt)
Attempt-cases (raised e) = inl (e, refl)
Attempt-cases (returned tt) = inr refl

pub and_then_raised :
    (m n : Filling) (b : Buffer) (e : Failure)
    → (m b).1 ≡ raised e
    → (m and_then n) b ≡ ((m b).0, raised e)
and_then_raised m n b e h = ap (λ r. go_on r (m b).0 n) h

pub and_then_returned :
    (m n : Filling) (b : Buffer) → (m b).1 ≡ returned tt → (m and_then n) b ≡ n (m b).0
and_then_returned m n b h = ap (λ r. go_on r (m b).0 n) h

-- What holds after the first call, and is preserved by the second, holds after both.
pub and_then_preserves :
    (P : Buffer → Type 0) (m n : Filling) (b : Buffer)
    → P (m b).0
    → (P (m b).0 → P (n (m b).0).0)
    → P ((m and_then n) b).0
and_then_preserves P m n b h step = elim (Attempt-cases (m b).1) [
  | inl (e, fails) ↦ subst (λ p. P p.0) (sym (and_then_raised m n b e fails)) h
  | inr returns ↦ subst (λ p. P p.0) (sym (and_then_returned m n b returns)) (step h)
]

-- Two calls return where both do.
pub and_then_both :
    (m n : Filling) (b : Buffer)
    → ((m and_then n) b).1 ≡ returned tt
    → ((m b).1 ≡ returned tt) × ((n (m b).0).1 ≡ returned tt)
and_then_both m n b h = elim (Attempt-cases (m b).1) [
  | inl (e, fails) ↦
      absurd (raised_and_returned _ e (ap (λ p. p.1) (and_then_raised m n b e fails)) h)
  | inr returns ↦ (returns, sym (ap (λ p. p.1) (and_then_returned m n b returns)) ∙ h)
]
  where
    raised_and_returned : (r : Attempt {0} Unit) (e : Failure) → r ≡ raised e → ¬ (r ≡ returned tt)
    raised_and_returned r e x y = cc

module _ (source : Source) where
  -- A call keeps the buffer genuine, and keeps what stands there where it returns.
  pub record Keeps (m : Filling) : Type 0 where
    pub genuine : (b : Buffer) → IsGenuine source b → IsGenuine source (m b).0
    pub grows : (b : Buffer) → (m b).1 ≡ returned tt → Grows b (m b).0

  pub returns-Keeps : Keeps (λ b. (b, returned tt))
  returns-Keeps = record { genuine = λ b h. h; grows = λ b h. Grows-refl b }

  pub and_then-Keeps : (m n : Filling) → Keeps m → Keeps n → Keeps (m and_then n)
  and_then-Keeps m n h g = record {
    genuine =
        λ b i. and_then_preserves (IsGenuine source) m n b (h.genuine b i) (g.genuine (m b).0);
    grows = λ b r.
        let (first, second) = and_then_both m n b r in
        subst (λ p. Grows b p.0) (sym (and_then_returned m n b first))
          (Grows-trans (h.grows b first) (g.grows (m b).0 second));
  }

  pub add_asset-Keeps : (folder : Folder) (key : ℕ) → Keeps (add_asset source folder key)
  add_asset-Keeps folder key = record {
    genuine = λ b i. record {
      genuine = λ f k. elim (path-cases f folder k key) [
        | inl (same_f, same_k) ↦
            rw (same_f, same_k) ((add_asset-Added source key b folder).own (i.genuine folder key))
        | inr other ↦ elim ((add_asset-Added source key b folder).others f k other) [
          | inl same ↦ rw same (i.genuine f k)
          | inr (gone, _) ↦ rw gone refl
        ]
      ];
    };
    grows = λ b r. record {
      kept = λ f k p. elim (path-cases f folder k key) [
        | inl (same_f, same_k) ↦
            rw (same_f, same_k)
              ((add_asset-Added source key b folder).kept (rw (same_f, same_k) at p))
        | inr other ↦ elim ((add_asset-Added source key b folder).others f k other) [
          | inl same ↦ same
          | inr (_, raises) ↦ absurd (raises r)
        ]
      ];
    };
  }

  pub add_each-Keeps : (folder : Folder) (keys : List ℕ) → Keeps (add_each source folder keys)
  unfolding add_each
  add_each-Keeps folder [] = returns-Keeps
  add_each-Keeps folder (key ∷ keys) =
      and_then-Keeps _ _ (add_asset-Keeps folder key) (add_each-Keeps folder keys)

  run_processes-IsGenuine :
      (keys : List ℕ) (b : Buffer)
      → IsGenuine source b
      → IsGenuine source (run_processes source keys b).0
  unfolding run_processes
  run_processes-IsGenuine [] b i = i
  run_processes-IsGenuine (key ∷ keys) b i =
      run_processes-IsGenuine keys _ ((add_asset-Keeps models key).genuine b i)

  pub neither :
      (r : Attempt {0} Unit) (failed : Bool)
      → (is_raised r || failed) ≡ false
      → (r ≡ returned tt) × (failed ≡ false)
  neither (raised e) failed h = cc
  neither (returned tt) failed h = (refl, h)

  pub run_processes-Grows :
      (keys : List ℕ) (b : Buffer)
      → (run_processes source keys b).1 ≡ false
      → Grows b (run_processes source keys b).0
  unfolding run_processes
  run_processes-Grows [] b h = Grows-refl b
  run_processes-Grows (key ∷ keys) b h =
      let (first, later) = neither _ _ h in
      Grows-trans ((add_asset-Keeps models key).grows b first) (run_processes-Grows keys _ later)

  delete_models_from_buffer-IsGenuine :
      (keys : List ℕ) (b : Buffer)
      → IsGenuine source b
      → IsGenuine source (delete_models_from_buffer keys b)
  unfolding delete_models_from_buffer
  delete_models_from_buffer-IsGenuine [] b i = i
  delete_models_from_buffer-IsGenuine (key ∷ keys) b i =
      delete_models_from_buffer-IsGenuine keys (write models key none b)
        (record { genuine = λ f k. ground (arith, i.genuine f k) })

  pub avoid_partial-Keeps : (failed : Bool) (keys : List ℕ) → Keeps (avoid_partial failed keys)
  avoid_partial-Keeps true keys = record {
    genuine = λ b i. delete_models_from_buffer-IsGenuine keys b i;
    grows = λ b r. cc;
  }
  avoid_partial-Keeps false keys = returns-Keeps

  pub avoid_partial_returned :
      (failed : Bool) (keys : List ℕ) (b : Buffer)
      → (avoid_partial failed keys b).1 ≡ returned tt
      → failed ≡ false
  avoid_partial_returned true keys b h = cc
  avoid_partial_returned false keys b h = refl

  pub add_models-Keeps : (keys : List ℕ) → Keeps (add_models source keys)
  unfolding add_models_to_buffer
  add_models-Keeps [] = returns-Keeps
  add_models-Keeps (key ∷ keys) =
      let all_keys = key ∷ keys in
      record {
        genuine = λ b i.
            let (after, failed) = run_processes source all_keys b in
            (avoid_partial-Keeps failed all_keys).genuine after
              (run_processes-IsGenuine all_keys b i);
        grows = λ b r.
            let (after, failed) = run_processes source all_keys b in
            Grows-trans
              (run_processes-Grows all_keys b (avoid_partial_returned failed all_keys after r))
              ((avoid_partial-Keeps failed all_keys).grows after r);
      }

  pub add_opener-Keeps : (key : Option ℕ) → Keeps (add_opener source key)
  add_opener-Keeps none = returns-Keeps
  add_opener-Keeps (some key) = add_asset-Keeps openers key

  pub add_task_assets-Keeps : (ctx : NeededAssets) → Keeps (add_task_assets_to_buffer source ctx)
  unfolding add_task_assets_to_buffer
  add_task_assets-Keeps ctx =
      and_then-Keeps _ _
        (and_then-Keeps _ _ (add_each-Keeps data_samples ctx.data_sample_keys)
          (add_opener-Keeps ctx.data_manager))
        (add_models-Keeps ctx.input_models)

  -- Whether it returns or raises, `add_task_assets_to_buffer` leaves a buffer of whole assets whole: each
  -- file that stands at the path of a key has the checksum that is registered for this key.
  pub add_task_assets_to_buffer-IsGenuine :
      (ctx : NeededAssets) (b : Buffer)
      → IsGenuine source b
      → IsGenuine source (add_task_assets_to_buffer source ctx b).0
  add_task_assets_to_buffer-IsGenuine ctx b i = (add_task_assets-Keeps ctx).genuine b i
