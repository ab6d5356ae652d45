-- ===== src/Lock/Wakeups.antt =====
-- Whom a section wakes, and whether it can go on.
use orbot_library.Prelude.{
  ◌+◌, ◌<◌, ◌≡◌, ◌⊎◌, inl, inr, List, [], ◌∷◌, true, false, arith, Bool-cases, ltb, ◌||◌, ◌==◌,
}
use orbot_library.Lock.{
  Lock, susp_thresh, one_writer, all_readers, lock_cache_r, retry_read, unlock_cache_r, retry_write,
  timedlock_timeout, unlock_cache_rw,
}

-- unlock_cache_rw by the only holder, while a thread waits: it signals a writer and one waits, or
-- all readers and one waits; and the first thread that tests its loop after that, if it is one of
-- those that were signalled, takes the lock.
pub unlock_cache_rw-wakes :
    (s : Lock)
    → s.use_cache_lock ≡ true
    → s.r_lock ≡ 0
    → 0 < s.r_pend + s.rw_pend
    → let (t, wake) = unlock_cache_rw s in
      ((wake ≡ one_writer) × (0 < t.rw_pend) × ((retry_write t).1 ≡ true))
      ⊎ ((wake ≡ all_readers) × (0 < t.r_pend) × ((retry_read t).1 ≡ true))
unfolding unlock_cache_rw retry_write retry_read
unlock_cache_rw-wakes s used alone waiting =
    elim (Bool-cases (s.r_pend == 0 || ltb (susp_thresh s.r_pend) s.rw_pend)) [
      | inl writer ↦ inl (ground arith)
      | inr readers ↦ inr (ground arith)
    ]

-- The sections that threads run which do not take the lock for writing.
pub data ReaderSection : Type 0 where
  enter leave retry writer_timeout : ReaderSection

unfoldable pub run_sections : List ReaderSection → Lock → Lock
run_sections [] s = s
run_sections (enter ∷ rest) s = run_sections rest (lock_cache_r s).0
run_sections (leave ∷ rest) s = run_sections rest (unlock_cache_r s).0
run_sections (retry ∷ rest) s = run_sections rest (retry_read s).0
run_sections (writer_timeout ∷ rest) s = run_sections rest (timedlock_timeout s)

section_keeps :
    (c : ReaderSection) (s : Lock)
    → s.use_cache_lock ≡ true
    → s.r_susp ≡ true
    → let t = run_sections (c ∷ []) s in (t.use_cache_lock ≡ true) × (t.r_susp ≡ true)
unfolding run_sections lock_cache_r unlock_cache_r retry_read timedlock_timeout
section_keeps enter s u h = ground arith
section_keeps c s u h = ground arith

still_suspended :
    (s : Lock)
    → s.use_cache_lock ≡ true
    → s.r_susp ≡ true
    → ((retry_read s).1 ≡ false) × ((lock_cache_r s).1 ≡ false)
unfolding retry_read lock_cache_r
still_suspended s u h = ground arith

-- Once readers are suspended, no sequence of reader sections and writer time-outs lets a reader in,
-- not even when every pending writer has timed out: neither a waiting reader that is woken nor a
-- new one takes the lock.
pub run_sections-suspended :
    (cs : List ReaderSection) (s : Lock)
    → s.use_cache_lock ≡ true
    → s.r_susp ≡ true
    → let t = run_sections cs s in ((retry_read t).1 ≡ false) × ((lock_cache_r t).1 ≡ false)
unfolding run_sections
run_sections-suspended [] s u h = still_suspended s u h
run_sections-suspended (enter ∷ cs) s u h =
    let k = section_keeps enter s u h in run_sections-suspended cs _ k.0 k.1
run_sections-suspended (leave ∷ cs) s u h =
    let k = section_keeps leave s u h in run_sections-suspended cs _ k.0 k.1
run_sections-suspended (retry ∷ cs) s u h =
    let k = section_keeps retry s u h in run_sections-suspended cs _ k.0 k.1
run_sections-suspended (writer_timeout ∷ cs) s u h =
    let k = section_keeps writer_timeout s u h in run_sections-suspended cs _ k.0 k.1
