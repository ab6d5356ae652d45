-- ===== src/Lock.antt =====
-- The readers-writer lock of pdnsd/src/cache.c. The critical sections under lock_mutex are
-- functions of the lock's variables; a pthread_cond_wait ends one, and a wake-up begins the test of
-- its loop again. What a section signals is its result.
pub mod Threads
pub mod Exclusion
pub mod Wakeups
use orbot_library.Prelude.{
  ℕ, ◌+◌, ◌-◌, ◌/◌, Bool, true, false, ◌&&◌, ◌||◌, not, ltb, ◌==◌, if◌then◌else◌,
}

-- The variables behind lock_mutex, and use_cache_lock.
pub record Lock : Type 0 where
  pub use_cache_lock : Bool
  pub w_lock : Bool
  pub r_lock : ℕ
  pub r_pend : ℕ
  pub rw_pend : ℕ
  pub r_susp : Bool

-- pthread_cond_signal on rw_cond, pthread_cond_broadcast on r_cond, or neither.
pub data Wake : Type 0 where
  nobody one_writer all_readers : Wake

-- SUSP_THRESH.
unfoldable pub susp_thresh : ℕ → ℕ
susp_thresh pend = pend / 2 + 2

-- The test of the loop in lock_cache_r sets r_susp.
unfoldable pub suspend_readers : Lock → Lock
unfolding susp_thresh
suspend_readers s = if ltb (susp_thresh s.r_pend) s.rw_pend then record s { r_susp = true } else s

-- From the test of the loop on: the lock, and whether it has been taken for reading.
unfoldable pub retry_read : Lock → Lock × Bool
unfolding suspend_readers
retry_read s =
    let t = suspend_readers s in
    if t.r_susp || t.w_lock
    then (t, false)
    else (record t { r_lock = t.r_lock + 1; r_pend = t.r_pend - 1 }, true)

unfoldable pub lock_cache_r : Lock → Lock × Bool
unfolding retry_read
lock_cache_r s =
    if s.use_cache_lock then retry_read (record s { r_pend = s.r_pend + 1 }) else (s, true)

unfoldable pub unlock_cache_r : Lock → Lock × Wake
unlock_cache_r s =
    let t = if ltb 0 s.r_lock then record s { r_lock = s.r_lock - 1 } else s in
    if s.use_cache_lock then (t, if t.r_lock == 0 then one_writer else nobody) else (s, nobody)

unfoldable pub retry_write : Lock → Lock × Bool
retry_write s =
    if s.w_lock || not (s.r_lock == 0)
    then (s, false)
    else (record s { w_lock = true; rw_pend = s.rw_pend - 1 }, true)

unfoldable pub lock_cache_rw : Lock → Lock × Bool
unfolding retry_write
lock_cache_rw s =
    if s.use_cache_lock then retry_write (record s { rw_pend = s.rw_pend + 1 }) else (s, true)

-- timedlock_cache_rw waits as lock_cache_rw does, but returns 0 where there is no lock.
unfoldable pub timedlock_cache_rw : Lock → Lock × Bool
unfolding retry_write
timedlock_cache_rw s =
    if s.use_cache_lock then retry_write (record s { rw_pend = s.rw_pend + 1 }) else (s, false)

-- What follows the label cleanup_return when the wait has timed out.
unfoldable pub timedlock_timeout : Lock → Lock
timedlock_timeout s = record s { rw_pend = s.rw_pend - 1 }

unfoldable pub release_rw : Lock → Lock × Wake
unfolding susp_thresh
release_rw s = (
  record s { w_lock = false; r_susp = false },
  if s.r_pend == 0 || ltb (susp_thresh s.r_pend) s.rw_pend then one_writer else all_readers,
)

unfoldable pub unlock_cache_rw : Lock → Lock × Wake
unfolding release_rw
unlock_cache_rw s = if s.use_cache_lock then release_rw s else (s, nobody)

-- yield_lock_cache_rw gives the lock up only where a thread waits; it then takes the lock again by
-- the second section, after a sleep.
unfoldable pub yield_release : Lock → Lock × Bool × Wake
unfolding release_rw
yield_release s =
    if not s.use_cache_lock || s.r_pend == 0 && s.rw_pend == 0
    then (s, false, nobody)
    else (let (t, wake) = release_rw s in (t, true, wake))

unfoldable pub yield_reacquire : Lock → Lock × Bool
unfolding retry_write
yield_reacquire s = retry_write (record s { rw_pend = s.rw_pend + 1 })

-- One round of the loops of softlock_cache_r and softlock_cache_rw, with the mutex held.
unfoldable pub softlock_r_round : Lock → Lock × Bool
softlock_r_round s = if s.w_lock then (s, false) else (record s { r_lock = s.r_lock + 1 }, true)

unfoldable pub softlock_rw_round : Lock → Lock × Bool
softlock_rw_round s =
    if s.w_lock || not (s.r_lock == 0) then (s, false) else (record s { w_lock = true }, true)

-- The lock and the result, where `mutex` says whether softlock_mutex has got lock_mutex. Without it,
-- or without a lock in use, nothing is released.
unfoldable pub softunlock_cache_r : Bool → Lock → Lock × Bool
softunlock_cache_r mutex s =
    if not s.use_cache_lock
    then (s, false)
    else if not mutex
    then (s, false)
    else (if ltb 0 s.r_lock then record s { r_lock = s.r_lock - 1 } else s, true)

unfoldable pub softunlock_cache_rw : Bool → Lock → Lock × Bool
softunlock_cache_rw mutex s =
    if not s.use_cache_lock
    then (s, false)
    else if not mutex
    then (s, false)
    else (record s { w_lock = false }, true)
