-- ===== src/LockLocal/Safety.antt =====
-- Mutual exclusion of backend/substrapp/lock_local.py, while no process runs out of time as it waits
-- for the secondary lock.
use substra_backend.Prelude.{ℕ, ◌<◌, ◌≡◌, ◌≢◌, ap, true, false, List, arith, ◌⊎◌}
use substra_backend.LockLocal.{expiry_remove, release_remove, Action, act_all, init}
use substra_backend.LockLocal.Invariant.{
  holds_lock, in_expiry, owns, is_old, is_expired, any_waits_out, act_all-Inv, init-Inv,
}

-- From the first state, in every order of the steps of the processes in which none runs out of time
-- as it waits for the secondary lock: of two different processes that created the lock file and did
-- not begin to release it, one took it more than `ttl` ago, and there is a `ttl`.
pub act_all-exclusive :
    (ttl : ℕ) (as_ : List Action) (p q : ℕ)
    → any_waits_out ttl as_ init ≡ false
    → holds_lock ((act_all ttl as_ init).place p) ≡ true
    → holds_lock ((act_all ttl as_ init).place q) ≡ true
    → p ≢ q
    → (is_expired ttl p (act_all ttl as_ init) ≡ true)
      ⊎ (is_expired ttl q (act_all ttl as_ init) ≡ true)
act_all-exclusive ttl as_ p q h hp hq ne =
    let inv = act_all-Inv ttl as_ init (init-Inv ttl) h in
    ground (arith, inv.holding p, inv.holding q)

-- From the first state, in every order of the steps of the processes in which none runs out of time
-- as it waits for the secondary lock: a process that is about to remove the lock file in
-- `_release_lock` has created that file.
pub act_all-removed_own :
    (ttl : ℕ) (as_ : List Action) (p : ℕ)
    → any_waits_out ttl as_ init ≡ false
    → (act_all ttl as_ init).place p ≡ release_remove
    → owns p (act_all ttl as_ init).lock_file ≡ true
act_all-removed_own ttl as_ p h at_remove =
    (act_all-Inv ttl as_ init (init-Inv ttl) h).releasing p at_remove

-- From the first state, in every order of the steps of the processes in which none runs out of time
-- as it waits for the secondary lock: a process that is about to remove the lock file in
-- `_release_lock_if_expired` removes a file that is there and was created more than `ttl` ago, and
-- there is a `ttl`.
pub act_all-removed_old :
    (ttl : ℕ) (as_ : List Action) (p : ℕ)
    → any_waits_out ttl as_ init ≡ false
    → (act_all ttl as_ init).place p ≡ expiry_remove
    → (0 < ttl) × (is_old ttl (act_all ttl as_ init).clock (act_all ttl as_ init).lock_file ≡ true)
act_all-removed_old ttl as_ p h at_remove =
    let inv = act_all-Inv ttl as_ init (init-Inv ttl) h in
    (inv.with_ttl p (ap in_expiry at_remove), inv.expiring p at_remove)
