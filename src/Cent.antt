-- ===== src/Cent.antt =====
-- Cache entries: dns_cent_t, its RR sets and records, of pdnsd/src/cache.h, and the macros and
-- functions there that find an RR set by its index or type.
pub mod Add
pub mod Delete
pub mod Copy
pub mod Purge
pub mod Purging
pub mod Conflicts
pub mod Sizes
pub mod Accounts
pub mod Records
pub mod Finding
pub mod Negation
pub mod Adding
pub mod Insertions
pub mod Additions
use orbot_library.Prelude.{
  ℕ, ◌+◌, ◌-◌, ◌*◌, ◌/◌, ◌%◌, List, [], ◌∷◌, Bool, true, false, ◌&&◌, ◌||◌, not, ltb, leb, ◌==◌,
  if◌then◌else◌, Option, none, some, Run, ok, halt, out_of_bounds, ◌>>=◌, read, write,
}
use orbot_library.RrList.{is_local}

-- What sizeof gives for dns_cent_t, rr_set_t, rr_bucket_t and a pointer.
pub record Sizeof : Type 0 where
  pub dns_cent : ℕ
  pub rr_set : ℕ
  pub rr_bucket : ℕ
  pub pointer : ℕ

-- rr_bucket_t, without `next`: a chain of records is a list.
pub record RrBucket : Type 0 where
  pub rdlen : ℕ
  pub rdata : List ℕ

-- rr_set_t. A node of the list rr_l is known by a number.
pub record RrSet : Type 0 where
  pub lent : Option ℕ
  pub ttl : ℕ
  pub ts : ℕ
  pub flags : ℕ
  pub rrs : List RrBucket

-- dns_cent_t. The members of its union stand beside each other: the code reads the one that
-- DF_NEGATIVE selects, and fills a member when it sets or clears the flag.
pub record Cent : Type 0 where
  pub qname : List ℕ
  pub cs : ℕ
  pub num_rrs : ℕ
  pub flags : ℕ
  pub neg_lent : Option ℕ
  pub neg_ttl : ℕ
  pub neg_ts : ℕ
  pub rrmu : List (Option RrSet)
  pub rrext : Option (List (Option RrSet))
  pub c_ns : ℕ
  pub c_soa : ℕ

-- What the entries share: how many allocations succeed from here on (each operation ends at the
-- first that fails), the nodes of rr_l, and cache_size.
pub record World : Type 0 where
  pub room : ℕ
  pub rr_l : List ℕ
  pub cache_size : ℕ

unfoldable pub allocated : World → World
allocated w = record w { room = w.room - 1 }

-- DF_NEGATIVE and CF_NEGATIVE.
unfoldable pub is_negative : ℕ → Bool
is_negative flags = flags % 2 == 1

unfoldable pub clear_negative : ℕ → ℕ
clear_negative flags = flags - flags % 2

-- flags &= ~DF_AUTH.
unfoldable pub clear_auth : ℕ → ℕ
clear_auth flags = flags - flags / 4 % 2 * 4

-- NRRMU, NRREXT and NRRTOT.
abbrev pub nrrmu : ℕ
nrrmu = 8

abbrev pub nrrext : ℕ
nrrext = 39

abbrev pub nrrtot : ℕ
nrrtot = 47

-- The index of the RR set of a type, by the type less T_MIN.
abbrev pub rrlkuptab : List ℕ
rrlkuptab =
    0 ∷ 1 ∷ 8 ∷ 9 ∷ 2 ∷ 3 ∷ 10 ∷ 11 ∷ 12 ∷ 13 ∷ 14 ∷ 4 ∷ 15 ∷ 16 ∷ 5 ∷ 6 ∷ 17 ∷ 18 ∷ 19 ∷ 20 ∷ 21
    ∷ 22 ∷ 23 ∷ 24 ∷ 25 ∷ 26 ∷ 27 ∷ 7 ∷ 28 ∷ 29 ∷ 30 ∷ 31 ∷ 32 ∷ 33 ∷ 34 ∷ 35 ∷ 36 ∷ 47 ∷ 48 ∷ 49
    ∷ 50 ∷ 37 ∷ 38 ∷ 39 ∷ 40 ∷ 41 ∷ 42 ∷ 43 ∷ 44 ∷ 45 ∷ 46 ∷ []

-- RRARR_INDEX.
unfoldable pub rrarr_index : Cent → ℕ → Run (Option RrSet)
rrarr_index c i =
    if ltb i nrrmu
    then read c.rrmu i
    else (elim c.rrext [ none ↦ halt out_of_bounds | some e ↦ read e (i - nrrmu) ])

-- RRARR_INDEX_TESTEXT.
unfoldable pub rrarr_index_testext : Cent → ℕ → Run (Option RrSet)
rrarr_index_testext c i =
    if is_negative c.flags
    then ok none
    else if ltb i nrrmu
    then read c.rrmu i
    else (elim c.rrext [ none ↦ ok none | some e ↦ read e (i - nrrmu) ])

-- RRARR_LEN.
unfoldable pub rrarr_len : Cent → ℕ
rrarr_len c = if is_negative c.flags then 0 else (elim c.rrext [ none ↦ nrrmu | some _ ↦ nrrtot ])

-- An assignment through RRARR_INDEX_PA.
unfoldable pub rrarr_set : Cent → ℕ → Option RrSet → Run Cent
rrarr_set c i v =
    if ltb i nrrmu then (write c.rrmu i v >>= λ r. ok (record c { rrmu = r })) else (elim c.rrext [
      | none ↦ halt out_of_bounds
      | some e ↦ write e (i - nrrmu) v >>= λ r. ok (record c { rrext = some r })
    ])

-- getrrset_eff.
unfoldable pub getrrset_eff : Cent → ℕ → Run (Option RrSet)
getrrset_eff c type = read rrlkuptab (type - 1) >>= λ idx.
    if ltb idx nrrmu
    then read c.rrmu idx
    else if ltb (idx - nrrmu) nrrext
    then (elim c.rrext [ none ↦ ok none | some e ↦ read e (idx - nrrmu) ])
    else ok none

-- getrrset. T_MIN is 1 and T_NUM 51.
unfoldable pub getrrset : Cent → ℕ → Run (Option RrSet)
unfolding getrrset_eff
getrrset c type =
    if is_negative c.flags
    then ok none
    else if leb 1 type && ltb (type - 1) 51
    then getrrset_eff c type
    else ok none

unfoldable pub is_empty {ℓ} : {A : Type ℓ} → List A → Bool
is_empty [] = true
is_empty (x ∷ xs) = false

unfoldable pub have_rr : Cent → ℕ → Run Bool
unfolding getrrset_eff is_empty
have_rr c type =
    if is_negative c.flags
    then ok false
    else (getrrset_eff c type >>= λ s. ok (elim s [ none ↦ false | some r ↦ not (is_empty r.rrs) ]))
