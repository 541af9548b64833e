-- ===== src/LockLocal/Examples.antt =====
-- Runs of the lock of backend/substrapp/lock_local.py.
use substra_backend.Prelude.{ℕ, ◌≡◌, ◌≢◌, refl, true, some, none, List, [], ◌∷◌, ◌++◌, arith, ◌⊎◌}
use substra_backend.LockLocal.{
  LockFile, inside, Action, run, give_up, step, time_out, tick, act, act_all, init,
}
use substra_backend.LockLocal.Invariant.{in_secondary, owns, is_expired}
use substra_backend.LockLocal.Safety.{act_all-exclusive, act_all-removed_own}
use substra_backend.LockLocal.Progress.{steps, act_all-takes_expired}
use substra_backend.LockLocal.SecondaryTimeout.{act_all-two_inside}

-- Process 1 keeps the lock for 10 seconds with a `ttl` of 5, and process 2 takes it.
abbrev kept_too_long : List Action
kept_too_long = steps 1 2 ++ (tick 10 ∷ steps 2 7)

-- Process 2 has found that the lock of process 1 is old.
abbrev found_old : List Action
found_old = steps 1 2 ++ (tick 10 ∷ steps 2 3)

-- Process 1 is about to remove its lock file, and processes 2 and 3 wait to release theirs, which
-- have been removed as too old.
abbrev three_releasing : List Action
three_releasing =
    steps 2 2
    ++ (tick 10 ∷ steps 3 7)
    ++ (tick 10 ∷ steps 1 7)
    ++ (steps 1 3 ++ steps 2 1 ++ steps 3 1)

abbrev first : ℕ
first = 1

abbrev third : ℕ
third = 3

abbrev last_lock : ℕ → ℕ → LockFile
last_lock p at = record { creator = p; content = some p; created_at = at; mtime = at }

act_all-exclusive_example :
    (is_expired 5 1 (act_all 5 kept_too_long init) ≡ true)
    ⊎ (is_expired 5 2 (act_all 5 kept_too_long init) ≡ true)
unfolding act_all act run give_up
act_all-exclusive_example = act_all-exclusive 5 kept_too_long 1 2 refl refl refl (ground arith)

act_all-removed_own_example : owns 1 (act_all 5 three_releasing init).lock_file ≡ true
unfolding act_all act run give_up
act_all-removed_own_example = act_all-removed_own 5 three_releasing 1 refl refl

act_all-takes_expired_example :
    ((act_all 5 (steps 2 7) (act_all 5 (steps 1 2 ++ (tick 10 ∷ [])) init)).lock_file
      ≡ some (last_lock 2 10))
    × ((act_all 5 (steps 2 7) (act_all 5 (steps 1 2 ++ (tick 10 ∷ [])) init)).place 2 ≡ inside)
    × ((act_all 5 (steps 2 7) (act_all 5 (steps 1 2 ++ (tick 10 ∷ [])) init)).secondary ≡ none)
unfolding act_all act run give_up
act_all-takes_expired_example =
    act_all-takes_expired 5 (act_all 5 (steps 1 2 ++ (tick 10 ∷ [])) init) 2 (last_lock 1 0)
      (ground arith) refl refl refl (ground arith)

act_all-two_inside_example :
    (in_secondary ((act_all 5 (time_out 2 ∷ step 3 ∷ []) (act_all 5 three_releasing init)).place 1)
      ≡ true)
    × (in_secondary
          ((act_all 5 (time_out 2 ∷ step 3 ∷ []) (act_all 5 three_releasing init)).place 3)
        ≡ true)
    × (first ≢ third)
unfolding act_all act run give_up
act_all-two_inside_example =
    act_all-two_inside 5 (act_all 5 three_releasing init) 1 2 3 refl refl refl (ground arith)
