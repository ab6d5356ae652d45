-- ===== src/Lock/Threads.antt =====
-- Threads that use the cache lock in any order: each step is one critical section of one thread.
use orbot_library.Prelude.{◌≡◌, List, ◌∷◌, ◌++◌, Bool, if◌then◌else◌}
use orbot_library.Lock.{
  Lock, lock_cache_r, retry_read, unlock_cache_r, lock_cache_rw, retry_write, timedlock_cache_rw,
  timedlock_timeout, unlock_cache_rw, yield_release, yield_reacquire, softlock_r_round,
  softlock_rw_round, softunlock_cache_r, softunlock_cache_rw,
}

-- What a thread holds or waits for; `yielding` sleeps inside yield_lock_cache_rw.
pub data Phase : Type 0 where
  idle waiting_read reading waiting_write writing yielding : Phase

-- What a thread does next. `wake` is any wake-up, spurious ones included; a softunlock may
-- fail to get the mutex.
pub data Action : Type 0 where
  lock_r unlock_r lock_rw timedlock_rw time_out unlock_rw yield_rw wake : Action
  softlock_r softlock_rw : Action
  softunlock_r softunlock_rw : (mutex : Bool) → Action

abbrev reads : Lock × Bool → Lock × Phase
reads (l, got) = (l, if got then reading else waiting_read)

abbrev writes : Lock × Bool → Lock × Phase
writes (l, got) = (l, if got then writing else waiting_write)

-- A thread keeps to its role: it unlocks what it holds, and an action that its phase does not
-- allow does nothing.
unfoldable pub act : Action → Phase → Lock → Lock × Phase
unfolding lock_cache_r retry_read unlock_cache_r lock_cache_rw retry_write timedlock_cache_rw
    timedlock_timeout unlock_cache_rw yield_release yield_reacquire softlock_r_round
    softlock_rw_round softunlock_cache_r softunlock_cache_rw
act lock_r idle l = reads (lock_cache_r l)
act lock_rw idle l = writes (lock_cache_rw l)
act timedlock_rw idle l = writes (timedlock_cache_rw l)
act softlock_r idle l = let (l', got) = softlock_r_round l in (l', if got then reading else idle)
act softlock_rw idle l = let (l', got) = softlock_rw_round l in (l', if got then writing else idle)
act wake waiting_read l = reads (retry_read l)
act wake waiting_write l = writes (retry_write l)
act time_out waiting_write l = (timedlock_timeout l, idle)
act unlock_r reading l = ((unlock_cache_r l).0, idle)
act (softunlock_r mutex) reading l =
    let (l', done) = softunlock_cache_r mutex l in (l', if done then idle else reading)
act unlock_rw writing l = ((unlock_cache_rw l).0, idle)
act (softunlock_rw mutex) writing l =
    let (l', done) = softunlock_cache_rw mutex l in (l', if done then idle else writing)
act yield_rw writing l =
    let (l', gave_up, _) = yield_release l in (l', if gave_up then yielding else writing)
act wake yielding l = writes (yield_reacquire l)
act a p l = (l, p)

pub record System : Type 0 where
  pub lock : Lock
  pub threads : List Phase

-- A section of one thread, which stands between the others.
pub data Step (s t : System) : Type 0 where
  step :
      (a : Action) (p : Phase) (before after : List Phase)
      → s.threads ≡ before ++ (p ∷ after)
      → t.lock ≡ (act a p s.lock).0
      → t.threads ≡ before ++ ((act a p s.lock).1 ∷ after)
      → Step s t

pub data Reach (s : System) : System → Type 0 where
  here : Reach s s
  next : {t u : System} → Reach s t → Step t u → Reach s u
