-- ===== src/Cent/Purge.antt =====
-- purge_rrset and purge_all_rrsets of pdnsd/src/cache.c.
use orbot_library.Prelude.{
  ℕ, zero, suc, ◌+◌, ◌-◌, ◌*◌, ◌/◌, ◌%◌, Bool, true, false, ◌&&◌, ◌||◌, not, ltb, leb, ◌==◌,
  if◌then◌else◌, none, some, Run, ok, ◌>>=◌,
}
use orbot_library.RrList.{is_local}
use orbot_library.Cent.{
  Sizeof, RrSet, Cent, World, is_negative, nrrmu, nrrext, rrarr_len, rrarr_index,
  rrarr_index_testext,
}
use orbot_library.Cent.Delete.{del_cent_rrset_by_index}

-- CLAT_ADJ, with CACHE_LAT.
unfoldable pub clat_adj : ℕ → ℕ
clat_adj ttl = if ltb ttl 120 then 120 else ttl

-- timedout, at the time `now`.
unfoldable pub timedout : ℕ → RrSet → Bool
unfolding clat_adj
timedout now rrs = ltb (rrs.ts + clat_adj rrs.ttl) now

unfoldable pub timedout_nxdom : ℕ → Cent → Bool
unfolding clat_adj
timedout_nxdom now c = ltb (c.neg_ts + clat_adj c.neg_ttl) now

-- CF_NOPURGE.
unfoldable pub is_nopurge : ℕ → Bool
is_nopurge flags = flags / 32 % 2 == 1

unfoldable pub must_go : ℕ → RrSet → Bool
unfolding is_nopurge timedout
must_go now rrs = not (is_nopurge rrs.flags || is_local rrs.flags) && timedout now rrs

-- cache_size -= del_cent_rrset_by_index(cent, idx), unless `test` is set.
unfoldable pub drop_rrset : Sizeof → Cent → ℕ → Bool → World → Run (Cent × World)
unfolding del_cent_rrset_by_index
drop_rrset z c idx test w =
    if test
    then ok (c, w)
    else (del_cent_rrset_by_index z c idx w >>= λ r.
        let (rv, (c2, w2)) = r in ok (c2, record w2 { cache_size = w2.cache_size - rv }))

unfoldable pub purge_rrset : Sizeof → ℕ → Cent → ℕ → Bool → World → Run (Bool × (Cent × World))
unfolding must_go drop_rrset rrarr_index_testext
purge_rrset z now c idx test w = rrarr_index_testext c idx >>= λ s. elim s [
  | none ↦ ok (false, (c, w))
  | some rrs ↦
      if must_go now rrs
      then (drop_rrset z c idx test w >>= λ r. ok (true, r))
      else ok (false, (c, w))
]

-- The counters of purge_all_rrsets.
pub record Purged : Type 0 where
  pub rv : ℕ
  pub numrrs : ℕ
  pub numrrext : ℕ

-- The loop of purge_all_rrsets from index `i` on, over `n` indices.
unfoldable pub purge_loop :
    Sizeof → ℕ → Bool → ℕ → ℕ → Cent → Purged → World → Run (Purged × (Cent × World))
purge_loop z now test zero i c p w = ok (p, (c, w))
purge_loop z now test (suc n) i c p w = rrarr_index c i >>= λ s. elim s [
  | none ↦ purge_loop z now test n (i + 1) c p w
  | some rrs ↦
      if must_go now rrs
      then (drop_rrset z c i test w >>= λ r.
          purge_loop z now test n (i + 1) r.0 (record p { rv = p.rv + 1 }) r.1)
      else purge_loop z now test n (i + 1) c
          (record p {
            numrrs = p.numrrs + 1;
            numrrext = if leb nrrmu i then p.numrrext + 1 else p.numrrext;
          })
          w
]

-- The part of purge_all_rrsets behind the loop: the second array goes when it is empty.
unfoldable pub purge_rrext : Sizeof → Bool → Purged → Cent → World → Purged × (Cent × World)
purge_rrext z test p c w = elim c.rrext [
  | none ↦ (p, (c, w))
  | some _ ↦
      if p.numrrext == 0
      then (
        record p { rv = p.rv + 1 },
        if test then (c, w) else (
          record c { rrext = none; cs = c.cs - z.pointer * nrrext },
          record w { cache_size = w.cache_size - z.pointer * nrrext },
        ),
      )
      else (p, (c, w))
]

unfoldable pub purge_all_rrsets : Sizeof → ℕ → Cent → Bool → World → Run (Purged × (Cent × World))
purge_all_rrsets z now c test w =
    let none_yet : Purged = record { rv = 0; numrrs = 0; numrrext = 0 } in
    if is_negative c.flags
    then ok (none_yet, (c, w))
    else (purge_loop z now test (rrarr_len c) 0 c none_yet w >>= λ r.
        let (p, (c2, w2)) = r in ok (purge_rrext z test p c2 w2))
