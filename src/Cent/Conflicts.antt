-- ===== src/Cent/Conflicts.antt =====
-- Conflict resolution in pdnsd/src/cache.c, with the table rr_info of pdnsd/src/rr_types.h, and the
-- bounds of the times to live.
pub mod Unchanged
pub mod Resolution
pub mod Additions
pub mod Lifetimes
use orbot_library.Prelude.{
  ℕ, zero, suc, ◌+◌, ◌-◌, ◌*◌, ◌/◌, ◌%◌, List, [], ◌∷◌, Bool, true, false, ◌&&◌, ◌||◌, not, ltb,
  ◌==◌, if◌then◌else◌, Option, none, some, Run, ok, ◌>>=◌, read, bit_and,
}
use orbot_library.RrList.{is_local}
use orbot_library.Cent.{Sizeof, RrSet, Cent, World, is_negative, rrarr_index, rrarr_len}
use orbot_library.Cent.Delete.{del_cent_rrset_by_index}

-- struct rr_infos.
pub record RrInfo : Type 0 where
  pub class : ℕ
  pub excludes : ℕ

-- The classes RRCL_ALIAS, RRCL_RECORD, RRCL_IDEM and RRCL_PTR with what they exclude.
abbrev pub alias_info : RrInfo
alias_info = record { class = 1; excludes = 10 }

abbrev pub record_info : RrInfo
record_info = record { class = 2; excludes = 9 }

abbrev pub idem_info : RrInfo
idem_info = record { class = 4; excludes = 0 }

abbrev pub ptr_info : RrInfo
ptr_info = record { class = 8; excludes = 3 }

abbrev pub rr_info : List RrInfo
rr_info =
    record_info ∷ idem_info ∷ alias_info ∷ idem_info ∷ ptr_info ∷ idem_info ∷ idem_info
    ∷ record_info ∷ idem_info ∷ idem_info ∷ idem_info ∷ idem_info ∷ idem_info ∷ idem_info
    ∷ record_info ∷ record_info ∷ idem_info ∷ record_info ∷ record_info ∷ record_info ∷ record_info
    ∷ record_info ∷ record_info ∷ ptr_info ∷ idem_info ∷ idem_info ∷ idem_info ∷ record_info
    ∷ record_info ∷ idem_info ∷ record_info ∷ record_info ∷ record_info ∷ record_info ∷ record_info
    ∷ record_info ∷ record_info ∷ idem_info ∷ idem_info ∷ idem_info ∷ idem_info ∷ idem_info
    ∷ idem_info ∷ idem_info ∷ idem_info ∷ idem_info ∷ idem_info ∷ []

-- The test on the classes of two RR sets.
unfoldable pub excludes_each : RrInfo → RrInfo → Bool
excludes_each a b = not (bit_and a.class b.excludes == 0) || not (bit_and a.excludes b.class == 0)

-- The test whether the RR set at the index `i`, if there is one, conflicts with a new one.
unfoldable pub in_conflict : RrInfo → ℕ → Option RrSet → Run Bool
in_conflict rri i none = ok false
in_conflict rri i (some rrs) =
    if is_negative rrs.flags then ok false else (read rr_info i >>= λ r. ok (excludes_each rri r))

-- The first loop, over `n` indices from `i` on: the number of conflicts and the sum of their times
-- to live, or `none` for the result 0. `now` is the time.
unfoldable pub count_conflicts : ℕ → ℕ → Cent → RrInfo → ℕ → ℕ → ℕ → Run (Option (ℕ × ℕ))
count_conflicts zero i c rri now ncf nttl = ok (some (ncf, nttl))
count_conflicts (suc n) i c rri now ncf nttl = rrarr_index c i >>= λ s.
    in_conflict rri i s >>= λ hit. elim s [
      | none ↦ count_conflicts n (i + 1) c rri now ncf nttl
      | some rrs ↦ elim hit [
        | false ↦ count_conflicts n (i + 1) c rri now ncf nttl
        | true ↦ elim (is_local rrs.flags) [
          | true ↦ ok none
          | false ↦ count_conflicts n (i + 1) c rri now (ncf + 1) (nttl + (rrs.ttl + rrs.ts - now))
        ]
      ]
    ]

-- The second loop.
unfoldable pub remove_conflicts : ℕ → ℕ → Sizeof → Cent → RrInfo → World → Run (Cent × World)
remove_conflicts zero i z c rri w = ok (c, w)
remove_conflicts (suc n) i z c rri w = rrarr_index c i >>= λ s. in_conflict rri i s >>= λ hit.
    elim hit [
      | false ↦ remove_conflicts n (i + 1) z c rri w
      | true ↦ del_cent_rrset_by_index z c i w >>= λ r. remove_conflicts n (i + 1) z r.1.0 rri r.1.1
    ]

-- The test on the time to live against the average, and what follows.
unfoldable pub resolve : Sizeof → Cent → RrInfo → ℕ → ℕ → ℕ → World → Run (Bool × (Cent × World))
resolve z c rri ttl nttl flags w =
    if is_local flags || ltb nttl ttl
    then (remove_conflicts (rrarr_len c) 0 z c rri w >>= λ r. ok (true, r))
    else ok (false, (c, w))

-- What follows the first loop.
unfoldable pub after_count :
    Sizeof → Cent → RrInfo → ℕ → ℕ → World → Option (ℕ × ℕ) → Run (Bool × (Cent × World))
after_count z c rri ttl flags w none = ok (false, (c, w))
after_count z c rri ttl flags w (some k) =
    if k.0 == 0 then ok (true, (c, w)) else resolve z c rri ttl (k.1 / k.0) flags w

unfoldable pub cr_check_add : Sizeof → Cent → ℕ → ℕ → ℕ → ℕ → World → Run (Bool × (Cent × World))
cr_check_add z c idx ttl flags now w =
    if is_negative flags
    then ok (true, (c, w))
    else (read rr_info idx >>= λ rri.
        if is_local flags
        then resolve z c rri ttl 0 flags w
        else if is_local c.flags
        then ok (false, (c, w))
        else (count_conflicts (rrarr_len c) 0 c rri now 0 0 >>= λ r.
            after_count z c rri ttl flags w r))
