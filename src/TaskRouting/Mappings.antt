-- ===== src/TaskRouting/Mappings.antt =====
-- The rows that `_acquire_worker_index` of backend/substrapp/task_routing.py leaves: a plan has one
-- worker at most, and keeps it.
use substra_backend.Prelude.{
  ℕ, ◌+◌, ◌≤◌, ◌<◌, ◌≡◌, ◌≢◌, refl, sym, subst, ap, ◌⊎◌, inl, inr, Bool, false, none, some, List,
  [], ◌∷◌, ◌++◌, filter, count, any, ◌==◌, ltb, if◌then◌else◌, arith, ==_iff, Bool-cases,
  Option-cases, ok, ok-injective, count-append,
}
use substra_backend.TaskRouting.{
  ComputePlanWorkerMapping, is_active_for, first, get_existing_worker_queue, least_of,
  acquire_worker_index, save_mapping,
}
use substra_backend.TaskRouting.Counts.{min_of-none}
use substra_backend.TaskRouting.Choice.{fewest-some, acquire_worker_index-chosen}

-- The unique constraint of the table.
abbrev pub IsUnique : List ComputePlanWorkerMapping → Type 0
IsUnique db = (key : ℕ) → count (is_active_for key) db ≤ 1

any-count :
    (p : ComputePlanWorkerMapping → Bool) (db : List ComputePlanWorkerMapping)
    → any p db ≡ ltb 0 (count p db)
any-count p [] = ground arith
any-count p (m ∷ ms) = ground (arith, any-count p ms)

first-filter :
    (p : ComputePlanWorkerMapping → Bool) (db : List ComputePlanWorkerMapping)
    → first (filter p db) ≡ none
    → count p db ≡ 0
first-filter p [] h = refl
first-filter p (m ∷ ms) h = ground (arith, first-filter p ms)

pub count-first :
    (p : ComputePlanWorkerMapping → Bool) (db : List ComputePlanWorkerMapping)
    → count p db ≡ 0
    → first (filter p db) ≡ none
count-first p [] h = refl
count-first p (m ∷ ms) h = ground (arith, count-first p ms)

first-append :
    (p : ComputePlanWorkerMapping → Bool) (db : List ComputePlanWorkerMapping)
    (m : ComputePlanWorkerMapping)
    → first (filter p (db ++ (m ∷ [])))
      ≡ (if any p db then first (filter p db) else if p m then some m else none)
first-append p [] m = ground arith
first-append p (x ∷ xs) m = ground (arith, first-append p xs m)

abbrev new_row : ℕ → ℕ → ComputePlanWorkerMapping
new_row key w = record { compute_plan_key = key; worker_index = w; release_date = none }

save_mapping-rows :
    (m : ComputePlanWorkerMapping) (db saved : List ComputePlanWorkerMapping)
    → save_mapping m db ≡ ok saved
    → (any (is_active_for m.compute_plan_key) db ≡ false) × (saved ≡ db ++ (m ∷ []))
unfolding save_mapping
save_mapping-rows m db saved h = elim (Bool-cases (any (is_active_for m.compute_plan_key) db)) [
  | inl there ↦ absurd (ground arith)
  | inr free ↦ (free, ground arith)
]

-- What a call that returns leaves: the table as it was, where the plan had a worker, and else one row
-- more.
acquire_worker_index-rows :
    (n key : ℕ) (db saved : List ComputePlanWorkerMapping) (w : ℕ)
    → acquire_worker_index n key db ≡ ok (w, saved)
    → ((get_existing_worker_queue key db ≡ some w) × (saved ≡ db))
      ⊎ ((get_existing_worker_queue key db ≡ none)
          × (count (is_active_for key) db ≡ 0)
          × (saved ≡ db ++ (new_row key w ∷ [])))
unfolding acquire_worker_index get_existing_worker_queue
acquire_worker_index-rows n key db saved w h =
    elim (Option-cases (first (filter (is_active_for key) db))) [
      | inl free ↦
          let (ws, eligible, least, saving) = acquire_worker_index-chosen n db key w saved free h in
          let (none_active, rows) = save_mapping-rows (new_row key w) db saved saving in
          inr (
            rw (free, get_existing_worker_queue) refl,
            first-filter (is_active_for key) db free,
            rows,
          )
      | inr (m, found) ↦
          let same =
            ok-injective (m.worker_index, db) (w, saved) (rw (found, acquire_worker_index) at h) in
          inl (
            rw (found, get_existing_worker_queue) (ap (λ pair. some pair.0) same),
            sym (ap (λ pair. pair.1) same),
          )
    ]

-- The table keeps at most one active row for each plan.
pub acquire_worker_index-IsUnique :
    (n key : ℕ) (db saved : List ComputePlanWorkerMapping) (w : ℕ)
    → IsUnique db
    → acquire_worker_index n key db ≡ ok (w, saved)
    → IsUnique saved
acquire_worker_index-IsUnique n key db saved w unique h k =
    elim (acquire_worker_index-rows n key db saved w h) [
      | inl (mapped, same) ↦ rw (same) (unique k)
      | inr (unmapped, free, rows) ↦
          let size : count (is_active_for k) saved
              ≡ count (is_active_for k) db + count (is_active_for k) (new_row key w ∷ []) =
            rw rows (count-append (is_active_for k) db (new_row key w ∷ [])) in
          elim (Bool-cases (key == k)) [
            | inl this ↦
                let same : key ≡ k = ground (arith, ==_iff key k) in
                let none_active : count (is_active_for k) db ≡ 0 =
                  subst (λ i. count (is_active_for i) db ≡ 0) same free in
                ground arith
            | inr other ↦ ground (arith, unique k)
          ]
    ]

existing-acquire :
    (n key : ℕ) (db : List ComputePlanWorkerMapping) (w : ℕ)
    → get_existing_worker_queue key db ≡ some w
    → acquire_worker_index n key db ≡ ok (w, db)
unfolding acquire_worker_index get_existing_worker_queue
existing-acquire n key db w h = ground arith

existing-append :
    (k key w : ℕ) (db : List ComputePlanWorkerMapping)
    → k ≢ key
    → get_existing_worker_queue k (db ++ (new_row key w ∷ [])) ≡ get_existing_worker_queue k db
unfolding get_existing_worker_queue
existing-append k key w db ne = ground (
  arith,
  first-append (is_active_for k) db (new_row key w),
  any-count (is_active_for k) db,
  count-first (is_active_for k) db,
)

existing-new :
    (key w : ℕ) (db : List ComputePlanWorkerMapping)
    → count (is_active_for key) db ≡ 0
    → get_existing_worker_queue key (db ++ (new_row key w ∷ [])) ≡ some w
unfolding get_existing_worker_queue
existing-new key w db free =
    ground
      (arith, first-append (is_active_for key) db (new_row key w), any-count (is_active_for key) db)

-- After a call that returns, the plan is mapped to the index that it returned: a later call, whatever
-- the size of the stateful set is then, returns the same one and changes nothing, and no other plan
-- is mapped to another worker than before.
pub acquire_worker_index-kept :
    (n later key other : ℕ) (db saved : List ComputePlanWorkerMapping) (w : ℕ)
    → acquire_worker_index n key db ≡ ok (w, saved)
    → other ≢ key
    → (get_existing_worker_queue key saved ≡ some w)
      × (acquire_worker_index later key saved ≡ ok (w, saved))
      × (get_existing_worker_queue other saved ≡ get_existing_worker_queue other db)
acquire_worker_index-kept n later key other db saved w h ne =
    elim (acquire_worker_index-rows n key db saved w h) [
      | inl (mapped, same) ↦
          (rw same mapped, rw same (existing-acquire later key db w mapped), rw same refl)
      | inr (unmapped, free, rows) ↦
          let mapped = existing-new key w db free in
          (
            rw rows mapped,
            rw rows (existing-acquire later key (db ++ (new_row key w ∷ [])) w mapped),
            rw rows (existing-append other key w db ne),
          )
    ]

-- With a worker in the stateful set the call returns, whatever the table is.
pub acquire_worker_index-total :
    (n key : ℕ) (db : List ComputePlanWorkerMapping)
    → 0 < n
    → (w : ℕ) × ((saved : List ComputePlanWorkerMapping) × (acquire_worker_index n key db
          ≡ ok (w, saved)))
unfolding acquire_worker_index save_mapping
acquire_worker_index-total n key db positive =
    elim (Option-cases (first (filter (is_active_for key) db))) [
      | inr (m, found) ↦ (m.worker_index, (db, rw (found, acquire_worker_index) refl))
      | inl free ↦
          let (ws, eligible, (v, member)) = fewest-some n db positive in
          elim (Option-cases (least_of ws)) [
            | inl empty ↦ absurd (ground (arith, min_of-none (λ u. u) ws v empty))
            | inr (w, least) ↦
                let none_active : any (is_active_for key) db ≡ false =
                  ground (
                    arith,
                    any-count (is_active_for key) db,
                    first-filter (is_active_for key) db,
                  ) in
                (
                  w,
                  (
                    db ++ (new_row key w ∷ []),
                    rw (free, acquire_worker_index, eligible, least, none_active, save_mapping)
                        refl,
                  ),
                )
          ]
    ]
