-- ===== src/TaskRouting/Choice.antt =====
-- Which worker `_acquire_worker_index` of backend/substrapp/task_routing.py chooses.
use substra_backend.Prelude.{
  ℕ, ◌≤◌, ◌<◌, ◌≡◌, refl, subst, ap, ◌⊎◌, inl, inr, true, ◌||◌, none, some, List, filter, ◌==◌, ltb,
  arith, ==_iff, Bool-cases, Option-cases, ok, ◌>>=◌, or_raise, value_error, or_raise-eq-ok,
  bind-eq-ok, ok-injective,
}
use substra_backend.TaskRouting.{
  ComputePlanWorkerMapping, is_active_for, mem, num_active_at, first, CountByIdx, count_by_idx,
  min_of, least_of, get_workers_with_fewest_running_cps, acquire_worker_index, save_mapping,
}
use substra_backend.TaskRouting.Counts.{
  mem-filter, count_by_idx-get, mem-count_by_idx, min_of-least, min_of-none, min_of-attained,
}

module _ (n : ℕ) (db : List ComputePlanWorkerMapping) where
  -- A worker of the list has an active row or is in the stateful set, and none of these has fewer
  -- active rows.
  abbrev pub IsKey : ℕ → Type 0
  IsKey w = (ltb w n || ltb 0 (num_active_at w db)) ≡ true

  abbrev pub IsFewest : ℕ → Type 0
  IsFewest w = (v : ℕ) → IsKey v → num_active_at w db ≤ num_active_at v db

  abbrev counts : CountByIdx
  counts = count_by_idx n db

  fewest-mem :
      (ws : List ℕ)
      → get_workers_with_fewest_running_cps n db ≡ ok ws
      → (least : ℕ) × (min_of counts.get counts.keys ≡ some least)
        × (filter (λ w. counts.get w == least) counts.keys ≡ ws)
  unfolding get_workers_with_fewest_running_cps
  fewest-mem ws h =
      let (least, found, rest) =
        or_raise-eq-ok value_error (min_of counts.get counts.keys)
          (λ least. ok (filter (λ w. counts.get w == least) counts.keys)) h in
      (least, found, ok-injective (filter (λ w. counts.get w == least) counts.keys) ws rest)

  least-IsFewest :
      (least w : ℕ)
      → min_of counts.get counts.keys ≡ some least
      → num_active_at w db ≡ least
      → IsFewest w
  least-IsFewest least w found e v key = ground (
    arith,
    min_of-least counts.get counts.keys least v found,
    mem-count_by_idx n db v,
    count_by_idx-get n db v,
  )

  -- What the code calls eligible.
  mem-IsFewest :
      (ws : List ℕ) (w : ℕ)
      → get_workers_with_fewest_running_cps n db ≡ ok ws
      → mem w ws ≡ true
      → IsKey w × IsFewest w
  mem-IsFewest ws w h member =
      let (least, found, equal) = fewest-mem ws h in
      let inside : mem w (filter (λ v. counts.get v == least) counts.keys) ≡ true =
        rw equal member in
      let e = mem-filter (λ v. counts.get v == least) w counts.keys in
      let value : num_active_at w db ≡ least =
        ground (arith, count_by_idx-get n db w, ==_iff (counts.get w) least) in
      (ground (arith, mem-count_by_idx n db w), least-IsFewest least w found value)

  IsFewest-mem :
      (ws : List ℕ) (w : ℕ)
      → get_workers_with_fewest_running_cps n db ≡ ok ws
      → IsKey w
      → IsFewest w
      → mem w ws ≡ true
  IsFewest-mem ws w h key fewest =
      let (least, found, equal) = fewest-mem ws h in
      let (v, member, value) = min_of-attained counts.get counts.keys least found in
      let below = fewest v (ground (arith, mem-count_by_idx n db v)) in
      let above =
        min_of-least counts.get counts.keys least w found
          (ground (arith, mem-count_by_idx n db w)) in
      let e = mem-filter (λ v. counts.get v == least) w counts.keys in
      let inside : mem w (filter (λ v. counts.get v == least) counts.keys) ≡ true = ground (
        arith,
        count_by_idx-get n db w,
        count_by_idx-get n db v,
        ==_iff (counts.get w) least,
        mem-count_by_idx n db w,
      ) in
      rw (← equal) inside

  -- With a worker in the stateful set there is an eligible one.
  pub fewest-some :
      0 < n
      → (ws : List ℕ) × (get_workers_with_fewest_running_cps n db ≡ ok ws)
        × ((w : ℕ) × (mem w ws ≡ true))
  unfolding get_workers_with_fewest_running_cps
  fewest-some positive = elim (Option-cases (min_of counts.get counts.keys)) [
    | inl empty ↦
        absurd (ground (arith, min_of-none counts.get counts.keys 0 empty, mem-count_by_idx n db 0))
    | inr (least, found) ↦
        let (v, member, value) = min_of-attained counts.get counts.keys least found in
        (
          filter (λ w. counts.get w == least) counts.keys,
          rw found refl,
          (
            v,
            ground (
              arith,
              mem-filter (λ w. counts.get w == least) v counts.keys,
              ==_iff (counts.get v) least,
            ),
          ),
        )
  ]

  module _ (key : ℕ) where
    abbrev new_row : ℕ → ComputePlanWorkerMapping
    new_row w = record { compute_plan_key = key; worker_index = w; release_date = none }

    -- What `_acquire_worker_index` does where the plan has no worker.
    pub acquire_worker_index-chosen :
        (w : ℕ) (saved : List ComputePlanWorkerMapping)
        → first (filter (is_active_for key) db) ≡ none
        → acquire_worker_index n key db ≡ ok (w, saved)
        → (ws : List ℕ) × (get_workers_with_fewest_running_cps n db ≡ ok ws)
          × (least_of ws ≡ some w)
          × (save_mapping (new_row w) db ≡ ok saved)
    unfolding acquire_worker_index
    acquire_worker_index-chosen w saved free h =
        let (ws, eligible, rest) =
          bind-eq-ok (get_workers_with_fewest_running_cps n db)
            (λ eligible. or_raise value_error (least_of eligible) >>= λ v.
              save_mapping (new_row v) db >>= λ saved. ok (v, saved))
            (rw (free, acquire_worker_index) at h) in
        let (v, least, saving) =
          or_raise-eq-ok value_error (least_of ws)
            (λ v. save_mapping (new_row v) db >>= λ saved. ok (v, saved)) rest in
        let (after, saved_ok, last) =
          bind-eq-ok (save_mapping (new_row v) db) (λ saved. ok (v, saved)) saving in
        let same = ok-injective (v, after) (w, saved) last in
        let same_index : v ≡ w = ap (λ (pair : ℕ × List ComputePlanWorkerMapping). pair.0) same in
        let same_rows : after ≡ saved = ap (λ pair. pair.1) same in
        (
          ws,
          eligible,
          rw same_index at least,
          subst (λ rows. save_mapping (new_row w) db ≡ ok rows) same_rows
              (subst (λ i. save_mapping (new_row i) db ≡ ok after) same_index saved_ok),
        )

    -- The index that is chosen is that of an eligible worker, and no eligible one is below it.
    acquire_worker_index-eligible :
        (w : ℕ) (saved : List ComputePlanWorkerMapping)
        → first (filter (is_active_for key) db) ≡ none
        → acquire_worker_index n key db ≡ ok (w, saved)
        → IsKey w × IsFewest w × ((v : ℕ) → IsKey v → IsFewest v → w ≤ v)
    acquire_worker_index-eligible w saved free h =
        let (ws, eligible, least, saving) = acquire_worker_index-chosen w saved free h in
        let (v, member, same) = min_of-attained (λ u. u) ws w least in
        let inside : mem w ws ≡ true = rw same at member in
        let (key_w, fewest) = mem-IsFewest ws w eligible inside in
        (
          key_w,
          fewest,
          λ u key_u fewest_u.
              min_of-least (λ u. u) ws w u least (IsFewest-mem ws u eligible key_u fewest_u),
        )

-- A plan that has no worker is given one that is in the stateful set or has an active row, and none of
-- the stateful set is to be preferred to it: for each worker `v` of the set, the chosen one has fewer
-- active rows than `v`, or as many, and then it does not come after `v`. Condition: the call returns.
pub acquire_worker_index-fewest :
    (n key : ℕ) (db saved : List ComputePlanWorkerMapping) (w v : ℕ)
    → first (filter (is_active_for key) db) ≡ none
    → acquire_worker_index n key db ≡ ok (w, saved)
    → v < n
    → ((ltb w n || ltb 0 (num_active_at w db)) ≡ true)
      × ((num_active_at w db < num_active_at v db)
          ⊎ ((num_active_at w db ≡ num_active_at v db) × (w ≤ v)))
acquire_worker_index-fewest n key db saved w v free h inside =
    let (key_w, fewest, lowest) = acquire_worker_index-eligible n db key w saved free h in
    let key_v : IsKey n db v = ground arith in
    (
      key_w,
      elim (Bool-cases (num_active_at w db == num_active_at v db)) [
        | inl same ↦
            let equal : num_active_at w db ≡ num_active_at v db = ground arith in
            inr (equal, lowest v key_v (λ u key_u. ground (arith, fewest u key_u)))
        | inr other ↦ inl (ground (arith, fewest v key_v))
      ],
    )

-- Where the stateful set was scaled down to `n` workers, and some worker that is gone still has an
-- active row and fewer of them than every worker that is left, the plan is mapped to a worker that is
-- gone.
pub acquire_worker_index-gone :
    (n key : ℕ) (db saved : List ComputePlanWorkerMapping) (w gone : ℕ)
    → first (filter (is_active_for key) db) ≡ none
    → acquire_worker_index n key db ≡ ok (w, saved)
    → 0 < num_active_at gone db
    → ((v : ℕ) → v < n → num_active_at gone db < num_active_at v db)
    → n ≤ w
acquire_worker_index-gone n key db saved w gone free h used fewer =
    let (key_w, fewest, lowest) = acquire_worker_index-eligible n db key w saved free h in
    ground (arith, fewest gone, fewer w)
