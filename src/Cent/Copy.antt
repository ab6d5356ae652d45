-- ===== src/Cent/Copy.antt =====
-- copy_rr, copy_rrset and copy_cent of pdnsd/src/cache.c.
use orbot_library.Prelude.{
  List, [], ◌∷◌, ◌==◌, if◌then◌else◌, Option, none, some, Run, ok, ◌>>=◌, take,
}
use orbot_library.Name.{rhnlen}
use orbot_library.Cent.{RrBucket, RrSet, Cent, World, allocated, is_negative}

-- What follows an allocation, which gives `none` where there is no memory.
unfoldable pub with_memory {ℓ} :
    {A : Type ℓ} → World → (World → Option A × World) → Option A × World
unfolding allocated
with_memory w next = if w.room == 0 then (none, w) else next (allocated w)

-- copy_rr, and the loop over a chain of records.
unfoldable pub copy_rrs : List RrBucket → World → Option (List RrBucket) × World
unfolding with_memory
copy_rrs [] w = (some [], w)
copy_rrs (rr ∷ rrs) w = with_memory w (λ w1.
    let (rest, w2) = copy_rrs rrs w1 in (elim rest [ none ↦ none | some l ↦ some (rr ∷ l) ], w2))

unfoldable pub copy_rrset : RrSet → World → Option RrSet × World
unfolding with_memory copy_rrs
copy_rrset rrset w = with_memory w (λ w1.
    let (l, w2) = copy_rrs rrset.rrs w1 in
    (elim l [ none ↦ none | some l2 ↦ some (record rrset { lent = none; rrs = l2 }) ], w2))

-- The loop of copy_cent over an array of RR sets, whose body is that of copy_rrset.
unfoldable pub copy_rrsets : List (Option RrSet) → World → Option (List (Option RrSet)) × World
unfolding copy_rrset
copy_rrsets [] w = (some [], w)
copy_rrsets (none ∷ sets) w =
    let (rest, w2) = copy_rrsets sets w in
    (elim rest [ none ↦ none | some l ↦ some (none ∷ l) ], w2)
copy_rrsets (some rrset ∷ sets) w =
    let (first, w2) = copy_rrset rrset w in
    let (rest, w3) = copy_rrsets sets w2 in
    elim first [
      | none ↦ (none, w2)
      | some r ↦ (elim rest [ none ↦ none | some l ↦ some (some r ∷ l) ], w3)
    ]

-- The part of copy_cent for the arrays, whose second is allocated first.
unfoldable pub copy_arrays : Cent → World → Option Cent × World
unfolding copy_rrsets with_memory
copy_arrays c w = elim c.rrext [
  | none ↦
      let (mu, w2) = copy_rrsets c.rrmu w in
      (elim mu [ none ↦ none | some l ↦ some (record c { rrmu = l }) ], w2)
  | some e ↦ with_memory w (λ w1.
      let (mu, w2) = copy_rrsets c.rrmu w1 in
      let (ext, w3) = copy_rrsets e w2 in
      elim mu [
        | none ↦ (none, w2)
        | some l ↦
            (elim ext [ none ↦ none | some k ↦ some (record c { rrmu = l; rrext = some k }) ], w3)
      ])
]

-- copy_cent: `none` is NULL. The member of the union that is not in use is copied as it stands.
unfoldable pub copy_cent : Cent → World → Run (Option Cent × World)
unfolding copy_arrays with_memory
copy_cent c w =
    if w.room == 0
    then ok (none, w)
    else (rhnlen c.qname >>= λ namesz. ok (
        with_memory (allocated w) (λ w2.
          let copy = record c { qname = take namesz c.qname; neg_lent = none } in
          if is_negative c.flags then (some copy, w2) else copy_arrays copy w2)))
