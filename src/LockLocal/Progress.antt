-- ===== src/LockLocal/Progress.antt =====
-- That the lock of backend/substrapp/lock_local.py is taken and given back, when a process runs
-- with no other one inside the secondary lock.
use substra_backend.Prelude.{
  ℕ, zero, suc, ◌+◌, ◌<◌, ◌≡◌, ◌≢◌, none, some, List, [], ◌∷◌, arith, ==_iff,
}
use substra_backend.LockLocal.{
  LockFile, acquiring, inside, finished, State, Action, run, step, act, act_all,
}

abbrev pub steps : ℕ → ℕ → List Action
steps p zero = []
steps p (suc n) = step p ∷ steps p n

-- A lock file that was written more than `ttl` ago, with `ttl` above 0, is removed by a process that tries
-- to take the lock, and the process takes the lock at its next attempt: after seven steps it is in the
-- body of its `with` statement, the lock file is its own and the secondary lock is free. Conditions: the
-- secondary lock is free at the start, and the seven steps follow each other, with no step of another
-- process and no move of the clock between them.
pub act_all-takes_expired :
    (ttl : ℕ) (s : State) (p : ℕ) (f : LockFile)
    → 0 < ttl
    → s.place p ≡ acquiring
    → s.secondary ≡ none
    → s.lock_file ≡ some f
    → f.mtime + ttl < s.clock
    → ((act_all ttl (steps p 7) s).lock_file
        ≡ some (record { creator = p; content = some p; created_at = s.clock; mtime = s.clock }))
      × ((act_all ttl (steps p 7) s).place p ≡ inside)
      × ((act_all ttl (steps p 7) s).secondary ≡ none)
unfolding act_all act run
act_all-takes_expired ttl s p f positive e free here old = ground (arith, ==_iff p p)

-- A process that leaves the body of its `with` statement, while the lock file has its id and the
-- secondary lock is free, ends in five steps: the lock file is gone and the secondary lock is free.
pub act_all-removes :
    (ttl : ℕ) (s : State) (p : ℕ) (f : LockFile)
    → s.place p ≡ inside
    → s.secondary ≡ none
    → s.lock_file ≡ some f
    → f.content ≡ some p
    → ((act_all ttl (steps p 5) s).lock_file ≡ none)
      × ((act_all ttl (steps p 5) s).place p ≡ finished)
      × ((act_all ttl (steps p 5) s).secondary ≡ none)
unfolding act_all act run
act_all-removes ttl s p f e free here mine = ground (arith, ==_iff p p)

-- A process that leaves the body of its `with` statement, while the lock file has the id of another
-- process and the secondary lock is free, ends in four steps: the lock file is kept and the secondary
-- lock is free.
pub act_all-keeps :
    (ttl : ℕ) (s : State) (p q : ℕ) (f : LockFile)
    → s.place p ≡ inside
    → s.secondary ≡ none
    → s.lock_file ≡ some f
    → f.content ≡ some q
    → q ≢ p
    → ((act_all ttl (steps p 4) s).lock_file ≡ some f)
      × ((act_all ttl (steps p 4) s).place p ≡ finished)
      × ((act_all ttl (steps p 4) s).secondary ≡ none)
unfolding act_all act run
act_all-keeps ttl s p q f e free here other ne = ground (arith, ==_iff p p, ==_iff q p)
