-- ===== src/TaskRouting/Examples.antt =====
-- Runs of backend/substrapp/task_routing.py at concrete tables.
use substra_backend.Prelude.{
  ℕ, true, ltb, ◌||◌, ◌≤◌, ◌<◌, ◌≡◌, ◌≢◌, refl, ◌⊎◌, none, some, List, [], ◌∷◌, ◌++◌, ok, arith,
}
use substra_backend.TaskRouting.{
  ComputePlanWorkerMapping, num_active_at, get_existing_worker_queue,
  get_workers_with_fewest_running_cps, acquire_worker_index, save_mapping,
}
use substra_backend.TaskRouting.Choice.{acquire_worker_index-fewest}
use substra_backend.TaskRouting.Mappings.{
  IsUnique, acquire_worker_index-kept, acquire_worker_index-total,
}

abbrev row : ℕ → ℕ → ComputePlanWorkerMapping
row key w = record { compute_plan_key = key; worker_index = w; release_date = none }

-- Three plans: two on worker 0, one on worker 2.
abbrev mapped : List ComputePlanWorkerMapping
mapped = row 10 0 ∷ row 11 0 ∷ row 12 2 ∷ []

-- Of three workers, worker 1 has none.
abbrev mapped_next : List ComputePlanWorkerMapping
mapped_next = mapped ++ (row 13 1 ∷ [])

-- The set was scaled down to worker 0.
abbrev mapped_gone : List ComputePlanWorkerMapping
mapped_gone = mapped ++ (row 13 2 ∷ [])

mapped-IsUnique : IsUnique mapped
mapped-IsUnique key = ground arith

acquire_worker_index-fewest_example :
    ((ltb 1 3 || ltb 0 (num_active_at 1 mapped)) ≡ true)
    × ((num_active_at 1 mapped < num_active_at 2 mapped)
        ⊎ ((num_active_at 1 mapped ≡ num_active_at 2 mapped) × (1 ≤ 2)))
unfolding acquire_worker_index get_workers_with_fewest_running_cps save_mapping
acquire_worker_index-fewest_example =
    acquire_worker_index-fewest 3 13 mapped mapped_next 1 2 refl refl (ground arith)

only_left : (v : ℕ) → v < 1 → num_active_at 2 mapped < num_active_at v mapped
only_left v h = ground arith

abbrev plan_13 : ℕ
plan_13 = 13

abbrev plan_11 : ℕ
plan_11 = 11

not_13 : plan_11 ≢ plan_13
not_13 = ground arith

acquire_worker_index-kept_example :
    (get_existing_worker_queue 13 mapped_next ≡ some 1)
    × (acquire_worker_index 1 13 mapped_next ≡ ok (1, mapped_next))
    × (get_existing_worker_queue 11 mapped_next ≡ get_existing_worker_queue 11 mapped)
unfolding acquire_worker_index get_workers_with_fewest_running_cps save_mapping
acquire_worker_index-kept_example =
    acquire_worker_index-kept 3 1 13 11 mapped mapped_next 1 refl not_13

acquire_worker_index-total_example :
    (w : ℕ) × ((saved : List ComputePlanWorkerMapping) × (acquire_worker_index 3 13 mapped
        ≡ ok (w, saved)))
acquire_worker_index-total_example = acquire_worker_index-total 3 13 mapped (ground arith)

not_11 : plan_13 ≢ plan_11
not_11 = ground arith
