-- ===== src/LockLocal/SecondaryTimeout.antt =====
-- What a process does to the secondary lock of backend/substrapp/lock_local.py when it runs out of
-- time as it waits for it.
use substra_backend.Prelude.{ℕ, ◌≡◌, ◌≢◌, true, [], ◌∷◌, arith, ==_iff}
use substra_backend.LockLocal.{release_waiting, State, run, give_up, step, time_out, act, act_all}
use substra_backend.LockLocal.Invariant.{in_secondary}

-- While a process is inside the secondary lock, another one that waits for it runs out of time, and
-- a third one that waits for it then enters: two different processes are inside the secondary
-- lock.
pub act_all-two_inside :
    (ttl : ℕ) (s : State) (p q r : ℕ)
    → in_secondary (s.place p) ≡ true
    → s.place q ≡ release_waiting
    → s.place r ≡ release_waiting
    → q ≢ r
    → (in_secondary ((act_all ttl (time_out q ∷ step r ∷ []) s).place p) ≡ true)
      × (in_secondary ((act_all ttl (time_out q ∷ step r ∷ []) s).place r) ≡ true)
      × (p ≢ r)
unfolding act_all act run give_up
act_all-two_inside ttl s p q r hp hq hr ne = ground (arith, ==_iff r q, ==_iff p q, ==_iff p r)
