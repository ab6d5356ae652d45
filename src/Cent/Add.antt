-- ===== src/Cent/Add.antt =====
-- The functions of pdnsd/src/cache.c that make an entry and put RR sets and records into it.
use orbot_library.Prelude.{
  ℕ, zero, suc, ◌+◌, ◌-◌, ◌*◌, List, [], ◌∷◌, Bool, true, false, ◌&&◌, ◌||◌, not, ltb, leb, ◌==◌,
  if◌then◌else◌, Option, none, some, Run, ok, halt, assertion, out_of_bounds, ◌>>=◌, read, length,
  replicate, take,
}
use orbot_library.Name.{rhnlen}
use orbot_library.RrList.{is_local}
use orbot_library.Cent.{
  Sizeof, RrBucket, RrSet, Cent, World, allocated, is_negative, clear_negative, nrrmu, nrrext,
  nrrtot, rrlkuptab, rrarr_index, rrarr_index_testext, rrarr_set,
}
use orbot_library.Cent.Delete.{remove_rrl}

-- cundef.
abbrev pub cundef : ℕ
cundef = 255

-- The fields that init_cent sets. Those of the union's other member keep what they held before,
-- here 0, NULL and no arrays.
unfoldable pub blank_cent : List ℕ → ℕ → ℕ → Cent
blank_cent qname cs flags = record {
  qname = qname;
  cs = cs;
  num_rrs = 0;
  flags = flags;
  neg_lent = none;
  neg_ttl = 0;
  neg_ts = 0;
  rrmu = replicate nrrmu none;
  rrext = none;
  c_ns = cundef;
  c_soa = cundef;
}

-- init_cent: `none` is the result 0.
unfoldable pub init_cent : Sizeof → List ℕ → ℕ → ℕ → ℕ → World → Run (Option Cent × World)
unfolding blank_cent allocated
init_cent z qname ttl ts flags w = rhnlen qname >>= λ namesz.
    if w.room == 0
    then ok (none, w)
    else let c = blank_cent (take namesz qname) (z.dns_cent + namesz) flags in
      ok (
        some (if is_negative flags then record c { neg_ttl = ttl; neg_ts = ts } else c),
        allocated w,
      )

-- create_rr for `dlen` bytes of data, which are given as a list.
unfoldable pub create_rr : List ℕ → RrBucket
create_rr bytes = record { rdlen = length bytes; rdata = bytes }

-- The part of add_cent_rrset_by_index that makes an entry not negative.
unfoldable pub make_positive : Cent → World → Cent × World
unfolding clear_negative
make_positive c w =
    if is_negative c.flags
    then (
      record c { flags = clear_negative c.flags; rrmu = replicate nrrmu none; rrext = none },
      remove_rrl c.neg_lent w,
    )
    else (c, w)

-- Its part from the allocation of the RR set on.
unfoldable pub put_rrset : Sizeof → Cent → ℕ → ℕ → ℕ → ℕ → World → Run (Bool × (Cent × World))
unfolding rrarr_set allocated
put_rrset z c i ttl ts flags w =
    if w.room == 0
    then (rrarr_set c i none >>= λ c2. ok (false, (c2, w)))
    else (rrarr_set c i (some (record { lent = none; ttl = ttl; ts = ts; flags = flags; rrs = [] }))
        >>= λ c2.
            ok (true, (record c2 { cs = c2.cs + z.rr_set; num_rrs = c2.num_rrs + 1 }, allocated w)))

-- Its part for an entry that is not negative any more.
unfoldable pub add_rrset : Sizeof → Cent → ℕ → ℕ → ℕ → ℕ → World → Run (Bool × (Cent × World))
add_rrset z c idx ttl ts flags w =
    if ltb idx nrrmu
    then put_rrset z c idx ttl ts flags w
    else if not (ltb (idx - nrrmu) nrrext)
    then halt assertion
    else (elim c.rrext [
      | some e ↦ put_rrset z c idx ttl ts flags w
      | none ↦
          if w.room == 0
          then ok (false, (c, w))
          else put_rrset z
              (record c { rrext = some (replicate nrrext none); cs = c.cs + z.pointer * nrrext })
              idx ttl ts flags (allocated w)
    ])

unfoldable pub add_cent_rrset_by_index :
    Sizeof → Cent → ℕ → ℕ → ℕ → ℕ → World → Run (Bool × (Cent × World))
add_cent_rrset_by_index z c idx ttl ts flags w =
    let (c1, w1) = make_positive c w in add_rrset z c1 idx ttl ts flags w1

-- The lookup of a type's index with the assertion on the range of the type.
unfoldable pub type_index : ℕ → Run ℕ
type_index type =
    if leb 1 type && ltb (type - 1) 51 then read rrlkuptab (type - 1) else halt assertion

unfoldable pub add_cent_rrset_by_type :
    Sizeof → Cent → ℕ → ℕ → ℕ → ℕ → World → Run (Bool × (Cent × World))
unfolding type_index add_cent_rrset_by_index
add_cent_rrset_by_type z c type ttl ts flags w =
    type_index type >>= λ idx. add_cent_rrset_by_index z c idx ttl ts flags w

-- The chain with a record put behind the first `k` ones.
unfoldable pub link_at : ℕ → RrBucket → List RrBucket → List RrBucket
link_at zero rr rrs = rr ∷ rrs
link_at (suc k) rr [] = rr ∷ []
link_at (suc k) rr (x ∷ rrs) = x ∷ link_at k rr rrs

-- The linking of a record into the RR set at an index, behind the first `k` records.
unfoldable pub link_rr :
    Sizeof → Cent → ℕ → RrSet → ℕ → RrBucket → World → Run (Bool × (Cent × World))
link_rr z c idx rrset k rr w =
    rrarr_set c idx (some (record rrset { rrs = link_at k rr rrset.rrs })) >>= λ c2.
    ok (true, (record c2 { cs = c2.cs + (z.rr_bucket + rr.rdlen) }, w))

-- add_cent_rr_int. `k` is 0 where *rtail is NULL, and else one more than the position of *rtail in
-- its RR set.
unfoldable pub add_cent_rr_int :
    Sizeof → Cent → ℕ → ℕ → ℕ → ℕ → List ℕ → ℕ → World → Run (Bool × (Cent × World))
add_cent_rr_int z c idx ttl ts flags bytes k w =
    if w.room == 0
    then ok (false, (c, w))
    else (rrarr_index_testext c idx >>= λ s. elim s [
      | some rrset ↦ link_rr z c idx rrset k (create_rr bytes) (allocated w)
      | none ↦ add_cent_rrset_by_index z c idx ttl ts flags (allocated w) >>= λ r.
          let (done, (c2, w2)) = r in
          if done
          then (rrarr_index c2 idx >>= λ t. elim t [
            | some rrset ↦ link_rr z c2 idx rrset 0 (create_rr bytes) w2
            | none ↦ halt out_of_bounds
          ])
          else ok (false, (c2, w2))
    ])

-- memcmp(..)==0 on data of one length.
unfoldable pub same_data : List ℕ → List ℕ → Bool
same_data [] [] = true
same_data (x ∷ xs) (y ∷ ys) = (x == y) && same_data xs ys
same_data (x ∷ xs) [] = false
same_data [] (y ∷ ys) = false

unfoldable pub has_data : List ℕ → List RrBucket → Bool
unfolding same_data
has_data bytes [] = false
has_data bytes (rr ∷ rrs) =
    rr.rdlen == length bytes && same_data rr.rdata bytes || has_data bytes rrs

unfoldable pub add_cent_rr :
    Sizeof → Cent → ℕ → ℕ → ℕ → ℕ → List ℕ → World → Run (Bool × (Cent × World))
add_cent_rr z c type ttl ts flags bytes w =
    if is_local c.flags && not (is_local flags)
    then ok (true, (c, w))
    else (type_index type >>= λ idx.
        if not (ltb idx nrrtot)
        then halt assertion
        else (rrarr_index_testext c idx >>= λ s. elim s [
          | none ↦ add_cent_rr_int z c idx ttl ts flags bytes 0 w
          | some rrset ↦
              rrarr_set c idx
                (some (if ltb ttl rrset.ttl then record rrset { ttl = ttl } else rrset))
              >>= λ c2.
                  if has_data bytes rrset.rrs
                  then ok (true, (c2, w))
                  else add_cent_rr_int z c2 idx ttl ts flags bytes (length rrset.rrs) w
        ]))
