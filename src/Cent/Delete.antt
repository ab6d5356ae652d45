-- ===== src/Cent/Delete.antt =====
-- The functions of pdnsd/src/cache.c that take RR sets out of an entry.
use orbot_library.Prelude.{
  ℕ, ◌+◌, ◌-◌, ◌*◌, List, [], ◌∷◌, ◌==◌, if◌then◌else◌, Option, none, some, Run, ok, ◌>>=◌,
}
use orbot_library.Cent.{
  Sizeof, RrBucket, RrSet, Cent, World, is_negative, clear_auth, nrrext, rrarr_index_testext,
  rrarr_set,
}

-- remove_rrl on the nodes of the list.
unfoldable pub unlink : ℕ → List ℕ → List ℕ
unlink le [] = []
unlink le (x ∷ xs) = if x == le then xs else x ∷ unlink le xs

-- remove_rrl, where the pointer to the node is not NULL.
unfoldable pub remove_rrl : Option ℕ → World → World
unfolding unlink
remove_rrl none w = w
remove_rrl (some le) w = record w { rr_l = unlink le w.rr_l }

-- The loop of del_rrset adds up what it frees.
unfoldable pub rrs_size : Sizeof → List RrBucket → ℕ
rrs_size z [] = 0
rrs_size z (rr ∷ rrs) = z.rr_bucket + rr.rdlen + rrs_size z rrs

-- The size that del_rrset returns, and what it leaves.
unfoldable pub del_rrset : Sizeof → RrSet → World → ℕ × World
unfolding rrs_size remove_rrl
del_rrset z rrset w = (z.rr_set + rrs_size z rrset.rrs, remove_rrl rrset.lent w)

unfoldable pub del_cent_rrset_by_index : Sizeof → Cent → ℕ → World → Run (ℕ × (Cent × World))
unfolding rrarr_index_testext rrarr_set del_rrset clear_auth
del_cent_rrset_by_index z c i w = rrarr_index_testext c i >>= λ s. elim s [
  | none ↦ ok (0, (c, w))
  | some rrs ↦
      let (rv, w2) = del_rrset z rrs w in
      rrarr_set c i none >>= λ c2. ok (
        rv,
        (record c2 { num_rrs = c2.num_rrs - 1; cs = c2.cs - rv; flags = clear_auth c2.flags }, w2),
      )
]

-- del_rrset on each RR set of an array, and the sum of the sizes.
unfoldable pub del_rrsets : Sizeof → List (Option RrSet) → World → ℕ × World
unfolding del_rrset
del_rrsets z [] w = (0, w)
del_rrsets z (none ∷ sets) w = del_rrsets z sets w
del_rrsets z (some rrs ∷ sets) w =
    let (rv, w2) = del_rrset z rrs w in let (rest, w3) = del_rrsets z sets w2 in (rv + rest, w3)

-- What free_cent leaves of the list rr_l.
unfoldable pub free_cent : Sizeof → Cent → World → World
unfolding del_rrsets remove_rrl
free_cent z c w =
    if is_negative c.flags
    then remove_rrl c.neg_lent w
    else (let w2 = (del_rrsets z c.rrmu w).1 in
        elim c.rrext [ none ↦ w2 | some e ↦ (del_rrsets z e w2).1 ])

-- The part of negate_cent for the second array.
unfoldable pub del_rrext : Sizeof → Option (List (Option RrSet)) → World → ℕ × World
unfolding del_rrsets
del_rrext z none w = (0, w)
del_rrext z (some e) w = let (rv, w2) = del_rrsets z e w in (rv + z.pointer * nrrext, w2)

-- The part of negate_cent for an entry that is not negative.
unfoldable pub drop_rrsets : Sizeof → Cent → World → Cent × World
unfolding del_rrsets del_rrext
drop_rrsets z c w =
    let (mu, w2) = del_rrsets z c.rrmu w in
    let (ext, w3) = del_rrext z c.rrext w2 in
    (record c { cs = c.cs - mu - ext; num_rrs = 0; flags = c.flags + 1; neg_lent = none }, w3)

unfoldable pub negate_cent : Sizeof → Cent → ℕ → ℕ → World → Cent × World
unfolding drop_rrsets
negate_cent z c ttl ts w =
    let (c2, w2) = if is_negative c.flags then (c, w) else drop_rrsets z c w in
    (record c2 { neg_ttl = ttl; neg_ts = ts }, w2)
