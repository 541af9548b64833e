-- ===== src/LockLocal.antt =====
-- backend/substrapp/lock_local.py: a lock that is a file, with a secondary lock file that guards its
-- removal. A process is one call of `lock_resource` for the resource; each of its calls of the
-- operating system is one step, and the steps of the processes are interleaved.
pub mod Invariant
pub mod Safety
pub mod Progress
pub mod SecondaryTimeout
mod Examples
use substra_backend.Prelude.{
  ℕ, ◌+◌, Bool, true, false, Option, none, some, List, [], ◌∷◌, ◌==◌, ltb, if◌then◌else◌,
}

-- The lock file: the process that created it, the id that it holds once that is written, the time
-- when it was created, and the time of the last write. The unique id of a process is its number.
pub record LockFile : Type 0 where
  pub creator : ℕ
  pub content : Option ℕ
  pub created_at : ℕ
  pub mtime : ℕ

-- Where a process stands.
pub data Place : Type 0 where
  -- _try_acquire_lock: about to create the lock file, and about to write its id
  acquiring : Place
  writing_id : Place
  -- the body of the `with` statement
  inside : Place
  -- _release_lock_if_expired: about to create the secondary file, to stat the lock file, to remove
  -- it, and to remove the secondary file, with an exception or with none
  expiry_waiting : Place
  expiry_stat : Place
  expiry_remove : Place
  expiry_leave : Place
  expiry_raise : Place
  -- _release_lock: about to create the secondary file, to read the lock file, to remove it, and to
  -- remove the secondary file
  release_waiting : Place
  release_read : Place
  release_remove : Place
  release_leave : Place
  finished : Place
  raised : Place

pub record State : Type 0 where
  pub clock : ℕ
  pub lock_file : Option LockFile
  -- the secondary file, with the process that created it
  pub secondary : Option ℕ
  pub place : ℕ → Place
  -- when the process created the lock file, if it did
  pub acquired_at : ℕ → ℕ

abbrev pub update : {A : Type 0} → (ℕ → A) → ℕ → A → ℕ → A
update f p v q = if q == p then v else f q

abbrev pub move : ℕ → Place → State → State
move p place s = record s { place = update s.place p place }

abbrev is_id : Option ℕ → ℕ → Bool
is_id none p = false
is_id (some q) p = q == p

module _ (ttl : ℕ) where
  -- os.open(lock_file, O_CREAT | O_EXCL). `if ttl` holds for no 0 and for no None, both 0 here.
  try_acquire_lock : ℕ → Option LockFile → State → State
  try_acquire_lock p none s = move p writing_id (record s {
    lock_file =
        some (record { creator = p; content = none; created_at = s.clock; mtime = s.clock });
    acquired_at = update s.acquired_at p s.clock;
  })
  try_acquire_lock p (some _) s = if ltb 0 ttl then move p expiry_waiting s else s

  -- os.write(fd, unique_id): to the file that the process created, wherever it is.
  write_id : ℕ → Option LockFile → State → State
  write_id p none s = move p inside s
  write_id p (some f) s = move p inside (
      if f.creator == p
      then record s { lock_file = some (record f { content = some p; mtime = s.clock }) }
      else s)

  -- _try_acquire_secondary_lock
  try_acquire_secondary_lock : ℕ → Place → Option ℕ → State → State
  try_acquire_secondary_lock p entered none s = move p entered (record s { secondary = some p })
  try_acquire_secondary_lock p entered (some _) s = s

  -- os.stat(lock_file), and the test of its age
  stat_lock : ℕ → Option LockFile → State → State
  stat_lock p none s = move p expiry_leave s
  stat_lock p (some f) s =
      if ltb (f.mtime + ttl) s.clock then move p expiry_remove s else move p expiry_leave s

  -- os.remove(lock_file) of an expired lock; it raises if the file is gone
  remove_expired : ℕ → Option LockFile → State → State
  remove_expired p none s = move p expiry_raise s
  remove_expired p (some _) s = move p expiry_leave (record s { lock_file = none })

  -- the text of the lock file, compared with the id of the process
  read_lock : ℕ → Option LockFile → State → State
  read_lock p none s = move p release_leave s
  read_lock p (some f) s =
      if is_id f.content p then move p release_remove s else move p release_leave s

  -- _release_secondary_lock: os.remove, which raises if the file is gone
  release_secondary_lock : ℕ → Place → Option ℕ → State → State
  release_secondary_lock p next none s = move p raised s
  release_secondary_lock p next (some _) s = move p next (record s { secondary = none })

  -- The next call of the operating system that a process makes.
  run : ℕ → Place → State → State
  unfolding try_acquire_lock write_id try_acquire_secondary_lock stat_lock remove_expired read_lock
      release_secondary_lock
  run p acquiring s = try_acquire_lock p s.lock_file s
  run p writing_id s = write_id p s.lock_file s
  run p inside s = move p release_waiting s
  run p expiry_waiting s = try_acquire_secondary_lock p expiry_stat s.secondary s
  run p expiry_stat s = stat_lock p s.lock_file s
  run p expiry_remove s = remove_expired p s.lock_file s
  run p expiry_leave s = release_secondary_lock p acquiring s.secondary s
  run p expiry_raise s = release_secondary_lock p raised s.secondary s
  run p release_waiting s = try_acquire_secondary_lock p release_read s.secondary s
  run p release_read s = read_lock p s.lock_file s
  run p release_remove s = move p release_leave (record s { lock_file = none })
  run p release_leave s = release_secondary_lock p finished s.secondary s
  run p finished s = s
  run p raised s = s

-- A process whose time is up, which may be at any moment of its waiting. Where it waits for the lock
-- it raises LockError. Where it waits for the secondary lock, the `finally` of
-- `_acquire_secondary_lock` removes the secondary file too.
give_up : ℕ → Place → State → State
give_up p acquiring s = move p raised s
give_up p expiry_waiting s = move p raised (record s { secondary = none })
give_up p release_waiting s = move p raised (record s { secondary = none })
give_up p _ s = s

pub data Action : Type 0 where
  step : ℕ → Action
  time_out : ℕ → Action
  tick : ℕ → Action

pub act : (ttl : ℕ) → Action → State → State
unfolding run give_up
act ttl (step p) s = run ttl p (s.place p) s
act ttl (time_out p) s = give_up p (s.place p) s
act ttl (tick n) s = record s { clock = s.clock + n }

pub act_all : (ttl : ℕ) → List Action → State → State
unfolding act
act_all ttl [] s = s
act_all ttl (a ∷ as_) s = act_all ttl as_ (act ttl a s)

abbrev pub init : State
init = record {
  clock = 0;
  lock_file = none;
  secondary = none;
  place = λ _. acquiring;
  acquired_at = λ _. 0;
}
