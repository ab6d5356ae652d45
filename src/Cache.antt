-- ===== src/Cache.antt =====
-- The operations of pdnsd/src/cache.c on the cache by name. The entries are a list, an entry is
-- known by its place there, and the hash table of Hash is the search through the list for a name.
pub mod Purges
pub mod Lookup
pub mod Names
pub mod Ancestors
pub mod Upwards
use orbot_library.Prelude.{
  ℕ, zero, suc, ◌+◌, ◌-◌, ◌*◌, ◌/◌, ◌%◌, List, [], ◌∷◌, ◌++◌, Bool, true, false, ◌&&◌, ◌||◌, not,
  ltb, ◌==◌, if◌then◌else◌, Option, none, some, Run, ok, halt, no_fuel, out_of_bounds, ◌>>=◌, read,
  write, length, drop, take, replicate, bit_or,
}
use orbot_library.Name.{rhnlen, rhnsegcnt, skipsegs, rhncpy}
use orbot_library.RrList.{is_local}
use orbot_library.Cent.{
  Sizeof, RrSet, Cent, World, is_negative, clear_auth, is_empty, rrarr_index, rrarr_len, rrarr_set,
  getrrset, have_rr,
}
use orbot_library.Cent.Delete.{free_cent}
use orbot_library.Cent.Add.{cundef}
use orbot_library.Cent.Copy.{copy_cent, copy_rrset}
use orbot_library.Cent.Purge.{timedout, timedout_nxdom, purge_all_rrsets}
use orbot_library.Records.Cents.{find_cent}

-- The cache with ent_num and what the entries share.
pub record Store : Type 0 where
  pub cents : List Cent
  pub world : World
  pub ent_num : ℕ

-- The place of the entry with a name.
unfoldable pub find_name : List ℕ → Store → Run (Option ℕ)
find_name name s = find_cent s.cents name 0

-- The entry with a name.
unfoldable pub find_entry : List ℕ → Store → Run (Option Cent)
unfolding find_name
find_entry name s = find_name name s >>= λ k. elim k [
  | none ↦ ok none
  | some i ↦ read s.cents i >>= λ c. ok (some c)
]

unfoldable pub remove_at {ℓ} : {A : Type ℓ} → ℕ → List A → List A
remove_at k [] = []
remove_at zero (x ∷ xs) = xs
remove_at (suc k) (x ∷ xs) = x ∷ remove_at k xs

-- del_cent of an entry that has left the table.
unfoldable pub del_cent : Sizeof → Cent → Store → Store
del_cent z c s = record s {
  world = free_cent z c (record s.world { cache_size = s.world.cache_size - c.cs });
  ent_num = s.ent_num - 1;
}

-- del_cache_ent of the entry at a place.
unfoldable pub del_cache_ent : Sizeof → ℕ → Cent → Store → Store
unfolding del_cent remove_at
del_cache_ent z k c s = del_cent z c (record s { cents = remove_at k s.cents })

unfoldable pub del_cache : Sizeof → List ℕ → Store → Run Store
unfolding find_name
del_cache z name s = find_name name s >>= λ k. elim k [
  | none ↦ ok s
  | some i ↦ read s.cents i >>= λ c. ok (del_cache_ent z i c s)
]

-- lookup_cache_local_rrset.
unfoldable pub lookup_cache_local_rrset : List ℕ → ℕ → Store → Run (Option RrSet × Store)
lookup_cache_local_rrset name type s = find_entry name s >>= λ ce. elim ce [
  | none ↦ ok (none, s)
  | some c ↦ getrrset c type >>= λ r. elim r [
    | none ↦ ok (none, s)
    | some rrset ↦
        if is_local rrset.flags
        then (let (copy, w) = copy_rrset rrset s.world in ok (copy, record s { world = w }))
        else ok (none, s)
  ]
]

-- A round of the loop of getlocalowner at the name `above`, before its `rest`.
unfoldable pub own_above : List ℕ → ℕ → Store → Run (Option (List ℕ)) → Run (Option (List ℕ))
own_above above tp s rest = read above 0 >>= λ lb.
    if lb == 0
    then ok none
    else (find_entry above s >>= λ ce. elim ce [
      | none ↦ rest
      | some c ↦
          if not (is_local c.flags)
          then ok none
          else (have_rr c tp >>= λ has. if has then ok (some above) else rest)
    ])

-- The loop: `none` is NULL, else the part of the name.
unfoldable pub owner_up : ℕ → List ℕ → ℕ → Store → Run (Option (List ℕ))
owner_up fuel [] tp s = halt out_of_bounds
owner_up zero (lb ∷ nm) tp s = halt no_fuel
owner_up (suc fuel) (lb ∷ nm) tp s = own_above (drop lb nm) tp s (owner_up fuel (drop lb nm) tp s)

unfoldable pub getlocalowner : List ℕ → ℕ → Store → Run (Option (List ℕ))
unfolding owner_up
getlocalowner name tp s =
    let up = owner_up (length name) name tp s in
    read name 0 >>= λ lb. if lb == 0 then ok none else up

-- set_cent_flags: the result, and the cache.
unfoldable pub set_cent_flags : List ℕ → ℕ → Store → Run (Bool × Store)
set_cent_flags name flags s = find_name name s >>= λ k. elim k [
  | none ↦ ok (false, s)
  | some i ↦ read s.cents i >>= λ c.
      write s.cents i (record c { flags = bit_or c.flags flags }) >>= λ cents.
      ok (true, record s { cents = cents })
]

-- The loop of invalidate_record over `n` indices from `i` on.
unfoldable pub invalidate_sets : ℕ → ℕ → Cent → Run Cent
invalidate_sets zero i c = ok c
invalidate_sets (suc n) i c = rrarr_index c i >>= λ o. elim o [
  | none ↦ invalidate_sets n (i + 1) c
  | some r ↦ rrarr_set c i (some (record r { ts = 0; flags = clear_auth r.flags })) >>= λ c2.
      invalidate_sets n (i + 1) c2
]

unfoldable pub invalidated : Cent → Run Cent
unfolding invalidate_sets
invalidated c =
    (if is_negative c.flags
      then ok (record c { neg_ts = 0 })
      else invalidate_sets (rrarr_len c) 0 c)
    >>= λ c2. ok (record c2 { flags = clear_auth c2.flags })

unfoldable pub invalidate_record : List ℕ → Store → Run Store
unfolding invalidated
invalidate_record name s = find_name name s >>= λ k. elim k [
  | none ↦ ok s
  | some i ↦ read s.cents i >>= λ c.
      invalidated c >>= λ c2. write s.cents i c2 >>= λ cents. ok (record s { cents = cents })
]
