-- ===== src/Lock/Exclusion.antt =====
-- Mutual exclusion: the lock's counters count the threads, and a writer is alone.
use orbot_library.Prelude.{
  ℕ, zero, suc, ◌+◌, ◌≤◌, ◌≡◌, refl, List, [], ◌∷◌, ◌++◌, Bool, true, false, arith,
}
use orbot_library.Lock.{Lock}
use orbot_library.Lock.Threads.{
  Phase, idle, waiting_read, reading, waiting_write, writing, Action, lock_r, act, System, Step,
  step, Reach, here, next,
}

-- Whether two phases are the same, as a number.
abbrev pub is_reading : Phase → ℕ
is_reading reading = 1
is_reading p = 0

abbrev pub is_writing : Phase → ℕ
is_writing writing = 1
is_writing p = 0

abbrev pub is_waiting_read : Phase → ℕ
is_waiting_read waiting_read = 1
is_waiting_read p = 0

abbrev pub is_waiting_write : Phase → ℕ
is_waiting_write waiting_write = 1
is_waiting_write p = 0

-- How many threads are in a phase.
abbrev pub count : (Phase → ℕ) → List Phase → ℕ
count f [] = 0
count f (p ∷ ps) = f p + count f ps

abbrev pub to_nat : Bool → ℕ
to_nat true = 1
to_nat false = 0

-- The lock's variables against the numbers of threads that read, write, and wait for either.
pub record Agrees (l : Lock) (r w pr pw : ℕ) : Type 0 where
  pub in_use : l.use_cache_lock ≡ true
  pub readers : l.r_lock ≡ r
  pub writers : to_nat l.w_lock ≡ w
  pub alone : l.w_lock ≡ true → r ≡ 0
  pub pending_readers : l.r_pend ≡ pr
  pub pending_writers : l.rw_pend ≡ pw

-- The section of a thread in phase `p` among others that number `r`, `w`, `pr` and `pw`.
act-Agrees :
    (a : Action) (p : Phase) (l : Lock) (r w pr pw : ℕ)
    → Agrees l
        (is_reading p + r)
        (is_writing p + w)
        (is_waiting_read p + pr)
        (is_waiting_write p + pw)
    → let (l', q) = act a p l in
      Agrees l'
        (is_reading q + r)
        (is_writing q + w)
        (is_waiting_read q + pr)
        (is_waiting_write q + pw)
unfolding act
act-Agrees lock_r idle l r w pr pw h = ground arith
act-Agrees a p l r w pr pw h = ground arith

pub count-append :
    (f : Phase → ℕ) (before after : List Phase) (p : Phase)
    → count f (before ++ (p ∷ after)) ≡ f p + (count f before + count f after)
count-append f [] after p = omega arith
count-append f (q ∷ before) after p = omega (arith, count-append f before after p)

-- The lock of a system against its threads.
abbrev pub IsConsistent : System → Type 0
IsConsistent s =
    Agrees s.lock (count is_reading s.threads) (count is_writing s.threads)
      (count is_waiting_read s.threads) (count is_waiting_write s.threads)

Step-IsConsistent : {s t : System} → Step s t → IsConsistent s → IsConsistent t
Step-IsConsistent {s} {t} (step a p before after es el et) h =
    rw (el, et, count-append, count-append, count-append, count-append)
      (act-Agrees a p s.lock _ _ _ _
        (rw (es, count-append, count-append, count-append, count-append) at h))

pub Reach-IsConsistent : {s t : System} → Reach s t → IsConsistent s → IsConsistent t
Reach-IsConsistent here h = h
Reach-IsConsistent (next r st) h = Step-IsConsistent st (Reach-IsConsistent r h)

-- The lock after init_cache_lock, before any thread takes it.
abbrev pub fresh_lock : Lock
fresh_lock = record {
  use_cache_lock = true;
  w_lock = false;
  r_lock = 0;
  r_pend = 0;
  rw_pend = 0;
  r_susp = false;
}

abbrev pub idle_threads : ℕ → List Phase
idle_threads zero = []
idle_threads (suc n) = idle ∷ idle_threads n

count-idle_threads : (f : Phase → ℕ) → f idle ≡ 0 → (n : ℕ) → count f (idle_threads n) ≡ 0
count-idle_threads f h zero = refl
count-idle_threads f h (suc n) = omega (arith, h, count-idle_threads f h n)

start-IsConsistent : (n : ℕ) → IsConsistent (record { lock = fresh_lock; threads = idle_threads n })
start-IsConsistent n = ground (
  arith,
  count-idle_threads is_reading refl n,
  count-idle_threads is_writing refl n,
  count-idle_threads is_waiting_read refl n,
  count-idle_threads is_waiting_write refl n,
)

-- In every state that any number of threads reach from the fresh lock, by any interleaving of the
-- critical sections, spurious wake-ups and time-outs included: at most one thread writes, no thread
-- reads while one writes, and the lock's counters are the numbers of threads that read and that
-- wait to read or to write.
pub Reach-exclusion :
    (n : ℕ) {t : System}
    → Reach (record { lock = fresh_lock; threads = idle_threads n }) t
    → (count is_writing t.threads ≤ 1)
      × (count is_writing t.threads ≡ 1 → count is_reading t.threads ≡ 0)
      × (t.lock.r_lock ≡ count is_reading t.threads)
      × (t.lock.r_pend ≡ count is_waiting_read t.threads)
      × (t.lock.rw_pend ≡ count is_waiting_write t.threads)
Reach-exclusion n {t} r = let c = Reach-IsConsistent r (start-IsConsistent n) in ground arith
