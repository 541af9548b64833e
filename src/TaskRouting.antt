-- ===== src/TaskRouting.antt =====
-- backend/substrapp/task_routing.py: the mapping of a compute plan to the worker that has its pod.
-- The table is a list of rows; the size of the stateful set, which Kubernetes gives, is an argument.
pub mod Counts
pub mod Mappings
pub mod Choice
pub mod Release
mod Examples
use substra_backend.Prelude.{
  ℕ, zero, suc, ◌+◌, Bool, true, false, ◌&&◌, Option, none, some, List, [], ◌∷◌, ◌++◌, map, filter,
  count, any, ◌==◌, leb, if◌then◌else◌, is_none, Result, err, ok, ◌>>=◌, or_raise,
  multiple_objects_returned, integrity_error, value_error,
}

pub record ComputePlanWorkerMapping : Type 0 where
  pub compute_plan_key : ℕ
  pub worker_index : ℕ
  pub release_date : Option ℕ

abbrev pub is_active : ComputePlanWorkerMapping → Bool
is_active m = is_none m.release_date

-- filter(compute_plan_key=..., release_date=None)
abbrev pub is_active_for : ℕ → ComputePlanWorkerMapping → Bool
is_active_for key m = (m.compute_plan_key == key) && is_active m

abbrev pub is_active_at : ℕ → ComputePlanWorkerMapping → Bool
is_active_at w m = (m.worker_index == w) && is_active m

abbrev pub first : {A : Type 0} → List A → Option A
first [] = none
first (x ∷ xs) = some x

-- The index that the name of the queue ends in.
unfoldable pub get_existing_worker_queue : ℕ → List ComputePlanWorkerMapping → Option ℕ
get_existing_worker_queue key db = elim (first (filter (is_active_for key) db)) [
  | none ↦ none
  | some m ↦ some m.worker_index
]

-- .values("worker_index").annotate(cp_count=Count("compute_plan_key")): the indexes of the active
-- rows, each once, with the number of its active rows.
abbrev pub mem : ℕ → List ℕ → Bool
mem w ws = any (λ v. v == w) ws

abbrev pub distinct : List ℕ → List ℕ
distinct [] = []
distinct (w ∷ ws) = if mem w ws then distinct ws else w ∷ distinct ws

abbrev pub num_active_at : ℕ → List ComputePlanWorkerMapping → ℕ
num_active_at w db = count (is_active_at w) db

abbrev pub active_indexes : List ComputePlanWorkerMapping → List ℕ
active_indexes db = map (λ m. m.worker_index) (filter is_active db)

-- The dict of the counts: its keys in their order, and the value of each.
pub record CountByIdx : Type 0 where
  pub keys : List ℕ
  pub get : ℕ → ℕ

-- count_by_idx[w] = c
abbrev pub set_count : ℕ → ℕ → CountByIdx → CountByIdx
set_count w c d = record {
  keys = if mem w d.keys then d.keys else d.keys ++ (w ∷ []);
  get = λ v. if v == w then c else d.get v;
}

-- range(n)
abbrev pub range : ℕ → List ℕ
range zero = []
range (suc n) = range n ++ (n ∷ [])

-- The loop over the groups, each the index of a worker and the number of its active rows.
abbrev pub set_counts : (ℕ → ℕ) → List ℕ → CountByIdx → CountByIdx
set_counts cp_count [] d = d
set_counts cp_count (w ∷ ws) d = set_counts cp_count ws (set_count w (cp_count w) d)

abbrev pub count_by_idx : ℕ → List ComputePlanWorkerMapping → CountByIdx
count_by_idx num_workers db =
    set_counts (λ w. num_active_at w db) (distinct (active_indexes db))
      (record { keys = range num_workers; get = λ _. 0 })

-- min(count_by_idx.values()), which raises if there is no value
abbrev pub min_of : (ℕ → ℕ) → List ℕ → Option ℕ
min_of get [] = none
min_of get (w ∷ ws) = elim (min_of get ws) [
  | none ↦ some (get w)
  | some least ↦ some (if leb (get w) least then get w else least)
]

unfoldable pub get_workers_with_fewest_running_cps :
    ℕ → List ComputePlanWorkerMapping → Result (List ℕ)
get_workers_with_fewest_running_cps num_workers db =
    let d = count_by_idx num_workers db in
    or_raise value_error (min_of d.get d.keys) >>= λ least.
    ok (filter (λ w. d.get w == least) d.keys)

-- sorted(ws)[0], which raises if there is none
abbrev pub least_of : List ℕ → Option ℕ
least_of ws = min_of (λ w. w) ws

-- The save of a row, under the unique constraint on the active rows of a plan.
unfoldable pub save_mapping :
    ComputePlanWorkerMapping
    → List ComputePlanWorkerMapping
    → Result (List ComputePlanWorkerMapping)
save_mapping m db =
    if any (is_active_for m.compute_plan_key) db then err integrity_error else ok (db ++ (m ∷ []))

unfoldable pub acquire_worker_index :
    ℕ → ℕ → List ComputePlanWorkerMapping → Result (ℕ × List ComputePlanWorkerMapping)
unfolding get_workers_with_fewest_running_cps save_mapping
acquire_worker_index num_workers key db = elim (first (filter (is_active_for key) db)) [
  | some m ↦ ok (m.worker_index, db)
  | none ↦ get_workers_with_fewest_running_cps num_workers db >>= λ eligible.
      or_raise value_error (least_of eligible) >>= λ worker_index.
      save_mapping
        (record { compute_plan_key = key; worker_index = worker_index; release_date = none }) db
      >>= λ saved. ok (worker_index, saved)
]

-- The row that objects.get finds is saved with its release date.
abbrev pub release : ℕ → ℕ → List ComputePlanWorkerMapping → List ComputePlanWorkerMapping
release now key [] = []
release now key (m ∷ ms) =
    if is_active_for key m
    then record m { release_date = some now } ∷ ms
    else m ∷ release now key ms

-- objects.get raises on two rows; that there is none is caught.
unfoldable pub release_worker :
    ℕ → ℕ → List ComputePlanWorkerMapping → Result (List ComputePlanWorkerMapping)
release_worker now key db = elim (count (is_active_for key) db) [
  | zero ↦ ok db
  | suc n ↦ elim n [ zero ↦ ok (release now key db) | suc _ ↦ err multiple_objects_returned ]
]
