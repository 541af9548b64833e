-- ===== src/LockLocal/Invariant.antt =====
-- The invariant of the states that backend/substrapp/lock_local.py reaches, while no process runs out
-- of time as it waits for the secondary lock.
use substra_backend.Prelude.{
  ℕ, ◌+◌, ◌<◌, ◌≡◌, refl, Bool, true, false, Option, none, some, List, [], ◌∷◌, ◌==◌, ltb, leb,
  if◌then◌else◌, arith, ==_iff,
}
use substra_backend.LockLocal.{
  LockFile, Place, acquiring, writing_id, inside, expiry_waiting, expiry_stat, expiry_remove,
  expiry_leave, expiry_raise, release_waiting, release_read, release_remove, release_leave, State,
  run, give_up, Action, step, time_out, tick, act, act_all, init,
}

-- The process has created the secondary file and not removed it.
abbrev pub in_secondary : Place → Bool
in_secondary expiry_stat = true
in_secondary expiry_remove = true
in_secondary expiry_leave = true
in_secondary expiry_raise = true
in_secondary release_read = true
in_secondary release_remove = true
in_secondary release_leave = true
in_secondary _ = false

-- The process has created the lock file and not begun to release it.
abbrev pub holds_lock : Place → Bool
holds_lock writing_id = true
holds_lock inside = true
holds_lock _ = false

-- The process is about `_release_lock_if_expired`.
abbrev pub in_expiry : Place → Bool
in_expiry expiry_waiting = true
in_expiry expiry_stat = true
in_expiry expiry_remove = true
in_expiry expiry_leave = true
in_expiry expiry_raise = true
in_expiry _ = false

-- The lock file is there, and the process created it.
abbrev pub owns : ℕ → Option LockFile → Bool
owns p none = false
owns p (some f) = f.creator == p

-- The lock file is there, and it is older than `ttl`.
abbrev pub is_old : (ttl : ℕ) → ℕ → Option LockFile → Bool
is_old ttl clock none = false
is_old ttl clock (some f) = ltb (f.created_at + ttl) clock

-- The process waits for the secondary lock.
abbrev pub waits_secondary : Place → Bool
waits_secondary expiry_waiting = true
waits_secondary release_waiting = true
waits_secondary _ = false

-- The action is that of a process that runs out of time as it waits for the secondary lock.
abbrev pub waits_out : Action → State → Bool
waits_out (time_out p) s = waits_secondary (s.place p)
waits_out _ s = false

-- The id in the file is that of its creator, once it is written.
abbrev pub has_own_id : ℕ → Option ℕ → Bool
has_own_id creator none = true
has_own_id creator (some q) = q == creator

-- What the lock file says agrees with the state.
abbrev pub is_intact : State → Option LockFile → Bool
is_intact s none = true
is_intact s (some f) =
    if has_own_id f.creator f.content
    then if leb f.created_at f.mtime
      then if leb f.mtime s.clock then s.acquired_at f.creator == f.created_at else false
      else false
    else false

module _ (ttl : ℕ) where
  -- The lock that the process took is older than `ttl`, and there is a `ttl`.
  abbrev pub is_expired : ℕ → State → Bool
  is_expired p s = if ltb 0 ttl then ltb (s.acquired_at p + ttl) s.clock else false

  -- Some process runs out of time in these actions as it waits for the secondary lock.
  abbrev pub any_waits_out : List Action → State → Bool
  any_waits_out [] s = false
  any_waits_out (a ∷ as_) s = if waits_out a s then true else any_waits_out as_ (act ttl a s)

  -- The invariant of every reachable state.
  pub record Inv (s : State) : Type 0 where
    pub intact : is_intact s s.lock_file ≡ true
    pub secondary_at : (q : ℕ) → in_secondary (s.place q) ≡ true → s.secondary ≡ some q
    pub with_ttl : (q : ℕ) → in_expiry (s.place q) ≡ true → 0 < ttl
    pub expiring : (q : ℕ) → s.place q ≡ expiry_remove → is_old ttl s.clock s.lock_file ≡ true
    pub releasing : (q : ℕ) → s.place q ≡ release_remove → owns q s.lock_file ≡ true
    pub holding :
        (q : ℕ) → holds_lock (s.place q) ≡ true → owns q s.lock_file ≡ false → is_expired q s ≡ true

  module _ (p : ℕ) (s : State) (inv : Inv s) where
    run-secondary_at :
        (place : Place)
        → s.place p ≡ place
        → (q : ℕ) → in_secondary ((run ttl p place s).place q) ≡ true
        → (run ttl p place s).secondary ≡ some q
    unfolding run
    run-secondary_at acquiring e q =
        ground (arith, inv.secondary_at q, inv.secondary_at p, ==_iff q p)
    run-secondary_at _ e q = ground (arith, inv.secondary_at q, inv.secondary_at p, ==_iff q p)

    run-intact :
        (place : Place) → is_intact (run ttl p place s) (run ttl p place s).lock_file ≡ true
    unfolding run
    run-intact _ = ground (arith, inv.intact)

    run-with_ttl :
        (place : Place)
        → s.place p ≡ place
        → (q : ℕ) → in_expiry ((run ttl p place s).place q) ≡ true
        → 0 < ttl
    unfolding run
    run-with_ttl _ e q = ground (arith, inv.with_ttl q, inv.with_ttl p)

    run-expiring :
        (place : Place)
        → s.place p ≡ place
        → (q : ℕ) → (run ttl p place s).place q ≡ expiry_remove
        → is_old ttl (run ttl p place s).clock (run ttl p place s).lock_file ≡ true
    unfolding run
    run-expiring _ e q =
        ground
          (arith, inv.intact, inv.expiring q, inv.secondary_at q, inv.secondary_at p, ==_iff q p)

    run-releasing :
        (place : Place)
        → s.place p ≡ place
        → (q : ℕ) → (run ttl p place s).place q ≡ release_remove
        → owns q (run ttl p place s).lock_file ≡ true
    unfolding run
    run-releasing _ e q =
        ground
          (arith, inv.intact, inv.releasing q, inv.secondary_at q, inv.secondary_at p, ==_iff q p)

    run-holding :
        (place : Place)
        → s.place p ≡ place
        → (q : ℕ) → holds_lock ((run ttl p place s).place q) ≡ true
        → owns q (run ttl p place s).lock_file ≡ false
        → is_expired q (run ttl p place s) ≡ true
    unfolding run
    run-holding _ e q = ground (
      arith,
      inv.intact,
      inv.holding q,
      inv.expiring p,
      inv.releasing p,
      inv.with_ttl p,
      ==_iff q p,
    )

    run-Inv : Inv (run ttl p (s.place p) s)
    run-Inv = record {
      intact = run-intact (s.place p);
      secondary_at = run-secondary_at (s.place p) refl;
      with_ttl = run-with_ttl (s.place p) refl;
      expiring = run-expiring (s.place p) refl;
      releasing = run-releasing (s.place p) refl;
      holding = run-holding (s.place p) refl;
    }

    give_up-Inv :
        (place : Place)
        → s.place p ≡ place
        → waits_secondary place ≡ false
        → Inv (give_up p place s)
    unfolding give_up
    give_up-Inv acquiring e h = record {
      intact = ground (arith, inv.intact);
      secondary_at = λ q. ground (arith, inv.secondary_at q);
      with_ttl = λ q. ground (arith, inv.with_ttl q);
      expiring = λ q. ground (arith, inv.expiring q);
      releasing = λ q. ground (arith, inv.releasing q);
      holding = λ q. ground (arith, inv.holding q);
    }
    give_up-Inv expiry_waiting e h = ground arith
    give_up-Inv release_waiting e h = ground arith
    give_up-Inv _ e h = inv

    tick-Inv : (n : ℕ) → Inv (record s { clock = s.clock + n })
    tick-Inv n = record {
      intact = ground (arith, inv.intact);
      secondary_at = inv.secondary_at;
      with_ttl = inv.with_ttl;
      expiring = λ q. ground (arith, inv.expiring q);
      releasing = inv.releasing;
      holding = λ q. ground (arith, inv.holding q);
    }

  act-Inv : (a : Action) (s : State) → Inv s → waits_out a s ≡ false → Inv (act ttl a s)
  unfolding act
  act-Inv (step p) s inv h = run-Inv p s inv
  act-Inv (time_out p) s inv h = give_up-Inv p s inv (s.place p) refl h
  act-Inv (tick n) s inv h = tick-Inv 0 s inv n

  pub act_all-Inv :
      (as_ : List Action) (s : State)
      → Inv s
      → any_waits_out as_ s ≡ false
      → Inv (act_all ttl as_ s)
  unfolding act_all
  act_all-Inv [] s inv h = inv
  act_all-Inv (a ∷ as_) s inv h =
      act_all-Inv as_ (act ttl a s) (act-Inv a s inv (ground arith)) (ground arith)

pub init-Inv : (ttl : ℕ) → Inv ttl init
init-Inv ttl = record {
  intact = refl;
  secondary_at = λ q. ground arith;
  with_ttl = λ q. ground arith;
  expiring = λ q. ground arith;
  releasing = λ q. ground arith;
  holding = λ q. ground arith;
}
