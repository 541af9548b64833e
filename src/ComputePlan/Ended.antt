-- ===== src/ComputePlan/Ended.antt =====
-- The tasks that ended first and last, as the queries of backend/api/models/computeplan.py pick
-- them.
use substra_backend.Prelude.{
  ◌≤◌, ◌≡◌, refl, Option, none, some, List, [], ◌∷◌, ltb, leb, All, In, arith, All-map, inl, inr,
  Bool-cases,
}
use substra_backend.Models.{Date, ComputeTask}
use substra_backend.ComputePlan.{earliest, latest, first_ended, last_ended}

-- The task has not ended, or ended at `d` at the latest.
abbrev pub EndsBy : Date → Option Date → Type 0
EndsBy d none = Unit
EndsBy d (some e) = e ≤ d

-- The task has not ended, or ended at `d` at the earliest.
abbrev pub EndsFrom : Date → Option Date → Type 0
EndsFrom d none = Unit
EndsFrom d (some e) = d ≤ e

EndsBy-trans : (d e : Date) (o : Option Date) → d ≤ e → EndsBy d o → EndsBy e o
EndsBy-trans d e none le h = tt
EndsBy-trans d e (some c) le h = omega arith

EndsFrom-trans : (d e : Date) (o : Option Date) → e ≤ d → EndsFrom d o → EndsFrom e o
EndsFrom-trans d e none le h = tt
EndsFrom-trans d e (some c) le h = omega arith

-- No task has ended; or a task of the list ended at the date, and no task ended later.
abbrev pub IsLast : Option (ComputeTask × Date) → List ComputeTask → Type 0
IsLast none ts = All (λ t. t.end_date ≡ none) ts
IsLast (some (u, d)) ts = (u.end_date ≡ some d) × In u ts × All (λ t. EndsBy d t.end_date) ts

-- No task has ended; or a task of the list ended at the date, and no task ended earlier.
abbrev pub IsFirst : Option (ComputeTask × Date) → List ComputeTask → Type 0
IsFirst none ts = All (λ t. t.end_date ≡ none) ts
IsFirst (some (u, d)) ts = (u.end_date ≡ some d) × In u ts × All (λ t. EndsFrom d t.end_date) ts

module _ (t : ComputeTask) (ts : List ComputeTask) where
  latest-IsLast :
      (o : Option Date) (found : Option (ComputeTask × Date))
      → t.end_date ≡ o
      → IsLast found ts
      → IsLast (latest t o found) (t ∷ ts)
  latest-IsLast none none e h = (e, h)
  latest-IsLast none (some (u, d)) e (at, m, le) = (at, inr m, (rw e tt, le))
  latest-IsLast (some d) none e h =
      (e, inl refl, (rw e (omega arith), All-map (λ u (p : u.end_date ≡ none). rw p tt) ts h))
  latest-IsLast (some d) (some (u, c)) e (at, m, le) = elim (Bool-cases (ltb c d)) [
    | inl p ↦ rw p (
      e,
      inl refl,
      (rw e (omega arith), All-map (λ v h. EndsBy-trans c d v.end_date (ground arith) h) ts le),
    )
    | inr p ↦ rw p (at, inr m, (rw e (ground arith), le))
  ]

  earliest-IsFirst :
      (o : Option Date) (found : Option (ComputeTask × Date))
      → t.end_date ≡ o
      → IsFirst found ts
      → IsFirst (earliest t o found) (t ∷ ts)
  earliest-IsFirst none none e h = (e, h)
  earliest-IsFirst none (some (u, d)) e (at, m, le) = (at, inr m, (rw e tt, le))
  earliest-IsFirst (some d) none e h =
      (e, inl refl, (rw e (omega arith), All-map (λ u (p : u.end_date ≡ none). rw p tt) ts h))
  earliest-IsFirst (some d) (some (u, c)) e (at, m, le) = elim (Bool-cases (leb d c)) [
    | inl p ↦ rw p (
      e,
      inl refl,
      (rw e (omega arith), All-map (λ v h. EndsFrom-trans c d v.end_date (ground arith) h) ts le),
    )
    | inr p ↦ rw p (at, inr m, (rw e (ground arith), le))
  ]

pub last_ended-IsLast : (ts : List ComputeTask) → IsLast (last_ended ts) ts
unfolding last_ended
last_ended-IsLast [] = tt
last_ended-IsLast (t ∷ ts) =
    latest-IsLast t ts t.end_date (last_ended ts) refl (last_ended-IsLast ts)

pub first_ended-IsFirst : (ts : List ComputeTask) → IsFirst (first_ended ts) ts
unfolding first_ended
first_ended-IsFirst [] = tt
first_ended-IsFirst (t ∷ ts) =
    earliest-IsFirst t ts t.end_date (first_ended ts) refl (first_ended-IsFirst ts)
