-- ===== src/Cache/Purges.antt =====
-- purge_cent of pdnsd/src/cache.c.
use orbot_library.Prelude.{
  ℕ, ◌+◌, ◌-◌, Bool, true, false, ◌&&◌, ◌||◌, not, ltb, ◌==◌, if◌then◌else◌, Option, none, some,
  Run, ok, ◌>>=◌, read, write,
}
use orbot_library.Name.{rhnsegcnt, skipsegs}
use orbot_library.RrList.{is_local}
use orbot_library.Cent.{Sizeof, RrSet, Cent, is_negative, is_empty}
use orbot_library.Cent.Add.{cundef}
use orbot_library.Cent.Purge.{timedout, timedout_nxdom, purge_all_rrsets}
use orbot_library.Cache.{Store, find_entry, del_cache_ent}

-- getrrset_NS and the like, by an index of the first array.
unfoldable pub get_rrsmu : Cent → ℕ → Run (Option RrSet)
get_rrsmu c i = if is_negative c.flags then ok none else read c.rrmu i

-- The RR set that c_ns or c_soa refers to, for an entry with a name of `scnt` labels.
unfoldable pub referred : Store → Cent → ℕ → ℕ → ℕ → Run (Option RrSet)
referred s c idx ref scnt =
    if ref == scnt
    then get_rrsmu c idx
    else if ltb ref scnt
    then (skipsegs c.qname (scnt - ref) >>= λ nm.
        find_entry nm s >>= λ ce. elim ce [ none ↦ ok none | some e ↦ get_rrsmu e idx ])
    else ok none

unfoldable pub is_stale : ℕ → Option RrSet → Bool
is_stale now none = true
is_stale now (some r) = is_empty r.rrs || (not (is_local r.flags) && timedout now r)

-- Whether a reference is to be set back.
unfoldable pub stale_ref : ℕ → Store → Cent → ℕ → ℕ → Run Bool
unfolding referred is_stale
stale_ref now s c idx ref = rhnsegcnt c.qname >>= λ scnt.
    if ref == cundef then ok false else (referred s c idx ref scnt >>= λ r. ok (is_stale now r))

unfoldable pub cleared : Bool → ℕ → ℕ
cleared stale ref = if stale then cundef else ref

unfoldable pub one_if : Bool → ℕ
one_if b = if b then 1 else 0

-- The part of purge_cent for the references of the entry at place `k`, after `npurge` items.
unfoldable pub purge_refs : ℕ → Bool → ℕ → Cent → ℕ → Store → Run (Option ℕ × Store)
unfolding cleared one_if
purge_refs now test k c npurge s =
    if is_local c.flags
    then ok (some npurge, s)
    else (stale_ref now s c 1 c.c_ns >>= λ ns. stale_ref now s c 3 c.c_soa >>= λ soa.
        write s.cents k
          (if test then c else record c { c_ns = cleared ns c.c_ns; c_soa = cleared soa c.c_soa })
        >>= λ cents. ok (some (npurge + one_if ns + one_if soa), record s { cents = cents }))

-- The test of purge_cent whether the entry goes, where `numrrs` RR sets are left.
unfoldable pub goes_empty : ℕ → Bool → ℕ → Cent → Bool
goes_empty now delete numrrs c =
    delete
    && (numrrs == 0
        && (not (is_negative c.flags) || (not (is_local c.flags) && timedout_nxdom now c)))

-- purge_cent of the entry at place `k`: `none` is the result -1.
unfoldable pub purge_cent : Sizeof → ℕ → Bool → Bool → ℕ → Cent → Store → Run (Option ℕ × Store)
purge_cent z now delete test k c s = purge_all_rrsets z now c test s.world >>= λ r.
    let (p, (c2, w2)) = r in
    write s.cents k c2 >>= λ cents.
    let s2 = record s { cents = cents; world = w2 } in
    if goes_empty now delete p.numrrs c2
    then ok (none, if test then s2 else del_cache_ent z k c2 s2)
    else purge_refs now test k c2 p.rv s2
