-- ===== src/TaskRouting/Counts.antt =====
-- The dict that `_get_workers_with_fewest_running_cps` of backend/substrapp/task_routing.py fills.
use substra_backend.Prelude.{
  ℕ, zero, suc, ◌≤◌, ◌≡◌, refl, ap, inl, inr, Bool, true, false, ◌&&◌, ◌||◌, none, some, List, [],
  ◌∷◌, ◌++◌, filter, ◌==◌, ltb, leb, if◌then◌else◌, arith, ==_iff, Bool-cases, Option-cases,
}
use substra_backend.TaskRouting.{
  ComputePlanWorkerMapping, mem, distinct, num_active_at, active_indexes, CountByIdx, set_count,
  range, set_counts, count_by_idx, min_of,
}

from_== : (a b : ℕ) → (a == b) ≡ true → a ≡ b
from_== a b h = ground arith

pub mem-append : (v : ℕ) (xs ys : List ℕ) → mem v (xs ++ ys) ≡ (mem v xs || mem v ys)
mem-append v [] ys = refl
mem-append v (x ∷ xs) ys = ground (arith, mem-append v xs ys)

pub mem-filter : (p : ℕ → Bool) (v : ℕ) (xs : List ℕ) → mem v (filter p xs) ≡ (mem v xs && p v)
mem-filter p v [] = refl
mem-filter p v (x ∷ xs) = elim (Bool-cases (x == v)) [
  | inl same ↦
      let e : x ≡ v = ground (arith, ==_iff x v) in
      let px : p x ≡ p v = ap p e in ground (arith, mem-filter p v xs)
  | inr other ↦ ground (arith, mem-filter p v xs)
]

pub mem-distinct : (v : ℕ) (ws : List ℕ) → mem v (distinct ws) ≡ mem v ws
mem-distinct v [] = refl
mem-distinct v (w ∷ ws) = elim (Bool-cases (w == v)) [
  | inl same ↦
      let e : mem w ws ≡ mem v ws = ap (λ k. mem k ws) (from_== w v same) in
      ground (arith, mem-distinct v ws)
  | inr other ↦ ground (arith, mem-distinct v ws)
]

mem-range : (v n : ℕ) → mem v (range n) ≡ ltb v n
mem-range v zero = ground arith
mem-range v (suc n) = ground (arith, mem-append v (range n) (n ∷ []), mem-range v n)

set_counts-get :
    (f : ℕ → ℕ) (ws : List ℕ) (d : CountByIdx) (v : ℕ)
    → (set_counts f ws d).get v ≡ (if mem v ws then f v else d.get v)
set_counts-get f [] d v = refl
set_counts-get f (w ∷ ws) d v = elim (Bool-cases (w == v)) [
  | inl same ↦
      let e : f w ≡ f v = ap f (from_== w v same) in
      ground (arith, set_counts-get f ws (set_count w (f w) d) v, ==_iff w v, ==_iff v w)
  | inr other ↦ ground (arith, set_counts-get f ws (set_count w (f w) d) v, ==_iff w v, ==_iff v w)
]

mem-set_count :
    (w c : ℕ) (d : CountByIdx) (v : ℕ) → mem v (set_count w c d).keys ≡ (mem v d.keys || (w == v))
mem-set_count w c d v = elim (Bool-cases (w == v)) [
  | inl same ↦
      let e : mem w d.keys ≡ mem v d.keys = ap (λ k. mem k d.keys) (from_== w v same) in
      ground (arith, mem-append v d.keys (w ∷ []))
  | inr other ↦ ground (arith, mem-append v d.keys (w ∷ []))
]

mem-set_counts :
    (f : ℕ → ℕ) (ws : List ℕ) (d : CountByIdx) (v : ℕ)
    → mem v (set_counts f ws d).keys ≡ (mem v d.keys || mem v ws)
mem-set_counts f [] d v = ground arith
mem-set_counts f (w ∷ ws) d v =
    ground (arith, mem-set_counts f ws (set_count w (f w) d) v, mem-set_count w (f w) d v)

mem-active_indexes :
    (v : ℕ) (db : List ComputePlanWorkerMapping)
    → mem v (active_indexes db) ≡ ltb 0 (num_active_at v db)
mem-active_indexes v [] = ground arith
mem-active_indexes v (m ∷ ms) = ground (arith, mem-active_indexes v ms)

-- The dict has, for each worker, the number of its active rows.
pub count_by_idx-get :
    (n : ℕ) (db : List ComputePlanWorkerMapping) (v : ℕ)
    → (count_by_idx n db).get v ≡ num_active_at v db
count_by_idx-get n db v =
    let indexes = active_indexes db in
    ground (
      arith,
      set_counts-get (λ w. num_active_at w db) (distinct indexes)
          (record { keys = range n; get = λ _. 0 }) v,
      mem-distinct v indexes,
      mem-active_indexes v db,
    )

-- Its keys are the workers of the stateful set, and the workers with an active row.
pub mem-count_by_idx :
    (n : ℕ) (db : List ComputePlanWorkerMapping) (v : ℕ)
    → mem v (count_by_idx n db).keys ≡ (ltb v n || ltb 0 (num_active_at v db))
mem-count_by_idx n db v =
    let indexes = active_indexes db in
    ground (
      arith,
      mem-set_counts (λ w. num_active_at w db) (distinct indexes)
          (record { keys = range n; get = λ _. 0 }) v,
      mem-distinct v indexes,
      mem-active_indexes v db,
      mem-range v n,
    )

pub min_of-none : (get : ℕ → ℕ) (ws : List ℕ) (w : ℕ) → min_of get ws ≡ none → mem w ws ≡ false
min_of-none get [] w h = refl
min_of-none get (v ∷ ws) w h = ground arith

pub min_of-least :
    (get : ℕ → ℕ) (ws : List ℕ) (m w : ℕ) → min_of get ws ≡ some m → mem w ws ≡ true → m ≤ get w
min_of-least get [] m w h i = ground arith
min_of-least get (v ∷ ws) m w h i = elim (Option-cases (min_of get ws)) [
  | inl empty ↦ elim (Bool-cases (v == w)) [
    | inl same ↦ let e : get v ≡ get w = ap get (from_== v w same) in ground arith
    | inr other ↦ ground (arith, min_of-none get ws w empty)
  ]
  | inr (least, found) ↦ elim (Bool-cases (v == w)) [
    | inl same ↦ let e : get v ≡ get w = ap get (from_== v w same) in ground arith
    | inr other ↦ ground (arith, min_of-least get ws least w found)
  ]
]

pub min_of-attained :
    (get : ℕ → ℕ) (ws : List ℕ) (m : ℕ)
    → min_of get ws ≡ some m
    → (w : ℕ) × (mem w ws ≡ true) × (get w ≡ m)
min_of-attained get [] m h = cc
min_of-attained get (v ∷ ws) m h = elim (Option-cases (min_of get ws)) [
  | inl empty ↦ (v, ground (arith, ==_iff v v), ground arith)
  | inr (least, found) ↦
      let (w, member, equal) = min_of-attained get ws least found in
      elim (Bool-cases (leb (get v) least)) [
        | inl below ↦ (v, ground (arith, ==_iff v v), ground arith)
        | inr above ↦ (w, ground arith, ground arith)
      ]
]
