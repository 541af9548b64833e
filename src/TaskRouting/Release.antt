-- ===== src/TaskRouting/Release.antt =====
-- What `release_worker` of backend/substrapp/task_routing.py does to the mapping of a plan.
use substra_backend.Prelude.{
  ℕ, ◌-◌, ◌≡◌, ◌≢◌, refl, inl, inr, none, List, [], ◌∷◌, filter, count, ◌==◌, arith, Bool-cases, ok,
}
use substra_backend.TaskRouting.{
  ComputePlanWorkerMapping, is_active_for, get_existing_worker_queue, release, release_worker,
}
use substra_backend.TaskRouting.Mappings.{IsUnique, count-first}

count-release :
    (now key : ℕ) (db : List ComputePlanWorkerMapping)
    → count (is_active_for key) (release now key db) ≡ count (is_active_for key) db - 1
count-release now key [] = refl
count-release now key (m ∷ ms) = ground (arith, count-release now key ms)

filter-release :
    (now key k : ℕ) (db : List ComputePlanWorkerMapping)
    → k ≢ key
    → filter (is_active_for k) (release now key db) ≡ filter (is_active_for k) db
filter-release now key k [] ne = refl
filter-release now key k (m ∷ ms) ne = ground (arith, filter-release now key k ms ne)

-- On a table that keeps the constraint, the call returns, and then the plan has no worker and the
-- workers of the other plans are as before.
pub release_worker-released :
    (now key other : ℕ) (db : List ComputePlanWorkerMapping)
    → IsUnique db
    → other ≢ key
    → (saved : List ComputePlanWorkerMapping) × (release_worker now key db ≡ ok saved)
      × (get_existing_worker_queue key saved ≡ none)
      × (get_existing_worker_queue other saved ≡ get_existing_worker_queue other db)
unfolding release_worker get_existing_worker_queue
release_worker-released now key other db unique ne =
    elim (Bool-cases (count (is_active_for key) db == 0)) [
      | inl free ↦
          let none_active : count (is_active_for key) db ≡ 0 = ground arith in
          (
            db,
            rw (none_active, release_worker) refl,
            rw (count-first (is_active_for key) db none_active, get_existing_worker_queue) refl,
            refl,
          )
      | inr mapped ↦
          let one : count (is_active_for key) db ≡ 1 = ground (arith, unique key) in
          let left : count (is_active_for key) (release now key db) ≡ 0 =
            ground (arith, count-release now key db) in
          (
            release now key db,
            rw (one, release_worker) refl,
            rw
                (
                  count-first (is_active_for key) (release now key db) left,
                  get_existing_worker_queue,
                )
                refl,
            rw (filter-release now key other db ne, get_existing_worker_queue) refl,
          )
    ]
