-- ===== src/Tests/Locks.antt =====
-- The cache lock with few threads.
use orbot_library.Prelude.{◌≤◌, ◌<◌, ◌≡◌, ◌⊎◌, refl, [], ◌∷◌, true, false, arith}
use orbot_library.Lock.{
  Lock, one_writer, all_readers, lock_cache_r, retry_read, retry_write, unlock_cache_rw,
}
use orbot_library.Lock.Threads.{
  System, idle, reading, waiting_write, lock_r, lock_rw, step, Reach, here, next, act,
}
use orbot_library.Lock.Exclusion.{
  Reach-exclusion, fresh_lock, idle_threads, count, is_writing, is_reading, is_waiting_read,
  is_waiting_write,
}
use orbot_library.Lock.Wakeups.{
  unlock_cache_rw-wakes, run_sections-suspended, run_sections, leave, writer_timeout,
}

-- One thread reads, and another waits to write.
abbrev one_reads : System
one_reads = record { lock = record fresh_lock { r_lock = 1 }; threads = reading ∷ idle ∷ [] }

abbrev other_waits : System
other_waits = record {
  lock = record fresh_lock { r_lock = 1; rw_pend = 1 };
  threads = reading ∷ waiting_write ∷ [];
}

two_steps : Reach (record { lock = fresh_lock; threads = idle_threads 2 }) other_waits
unfolding act
two_steps =
    next
      (next {t = record { lock = fresh_lock; threads = idle_threads 2 }} {u = one_reads} here
        (step lock_r idle [] (idle ∷ []) refl refl refl))
      (step lock_rw idle (reading ∷ []) [] refl refl refl)

Reach-exclusion_example :
    (count is_writing other_waits.threads ≤ 1)
    × (count is_writing other_waits.threads ≡ 1 → count is_reading other_waits.threads ≡ 0)
    × (other_waits.lock.r_lock ≡ count is_reading other_waits.threads)
    × (other_waits.lock.r_pend ≡ count is_waiting_read other_waits.threads)
    × (other_waits.lock.rw_pend ≡ count is_waiting_write other_waits.threads)
Reach-exclusion_example = Reach-exclusion 2 two_steps

-- A writer holds the lock, and a reader waits.
abbrev written : Lock
written = record fresh_lock { w_lock = true; r_pend = 1 }

unlock_cache_rw-wakes_example :
    let (t, wake) = unlock_cache_rw written in
    ((wake ≡ one_writer) × (0 < t.rw_pend) × ((retry_write t).1 ≡ true))
    ⊎ ((wake ≡ all_readers) × (0 < t.r_pend) × ((retry_read t).1 ≡ true))
unlock_cache_rw-wakes_example = unlock_cache_rw-wakes written refl refl (omega arith)

-- One thread reads, three wait to write, and readers are suspended.
abbrev suspended : Lock
suspended = record fresh_lock { r_lock = 1; rw_pend = 3; r_susp = true }

run_sections-suspended_example :
    let t =
      run_sections (writer_timeout ∷ writer_timeout ∷ writer_timeout ∷ leave ∷ []) suspended in
    ((retry_read t).1 ≡ false) × ((lock_cache_r t).1 ≡ false)
run_sections-suspended_example =
    run_sections-suspended (writer_timeout ∷ writer_timeout ∷ writer_timeout ∷ leave ∷ []) suspended
      refl refl
