-- ===== src/Cache/Lookup.antt =====
-- lookup_cache of pdnsd/src/cache.c.
use orbot_library.Prelude.{
  ℕ, zero, suc, ◌/◌, ◌%◌, List, [], ◌∷◌, Bool, true, false, ◌==◌, if◌then◌else◌, Option, none, some,
  Run, ok, halt, no_fuel, out_of_bounds, ◌>>=◌, read, length, drop, replicate,
}
use orbot_library.Name.{rhncpy}
use orbot_library.RrList.{is_local}
use orbot_library.Cent.{Sizeof, Cent, is_negative}
use orbot_library.Cent.Copy.{copy_cent}
use orbot_library.Cache.{Store, find_name}
use orbot_library.Cache.Purges.{purge_cent}

-- w_wild, w_neg and w_locnerr, and 0.
pub data Wild : Type 0 where
  exact wildcard negative locnerr : Wild

-- DF_WILD.
unfoldable pub is_wild : ℕ → Bool
is_wild flags = flags / 16 % 2 == 1

-- What lookup_cache does with the first entry above the name, whose name is `nm`.
unfoldable pub use_above : List ℕ → ℕ → Cent → Store → Run (Option ℕ × Wild)
unfolding is_wild
use_above nm k c s =
    if is_negative c.flags
    then ok (some k, negative)
    else if is_wild c.flags
    then (rhncpy (replicate 254 0) nm >>= λ r.
        find_name (1 ∷ b'*' ∷ r.1) s >>= λ w. ok (w, elim w [ none ↦ exact | some _ ↦ wildcard ]))
    else if is_local c.flags
    then ok (some k, locnerr)
    else ok (none, exact)

-- A round of the loop of lookup_cache up the hierarchy, at the name `above`, before its `rest`.
unfoldable pub look_above : List ℕ → Store → Run (Option ℕ × Wild) → Run (Option ℕ × Wild)
look_above above s rest = read above 0 >>= λ lb.
    if lb == 0
    then ok (none, exact)
    else (find_name above s >>= λ k. elim k [
      | none ↦ rest
      | some i ↦ read s.cents i >>= λ c. use_above above i c s
    ])

-- The loop, from a name whose length byte is not 0.
unfoldable pub search_up : ℕ → List ℕ → Store → Run (Option ℕ × Wild)
search_up fuel [] s = halt out_of_bounds
search_up zero (lb ∷ nm) s = halt no_fuel
search_up (suc fuel) (lb ∷ nm) s = look_above (drop lb nm) s (search_up fuel (drop lb nm) s)

-- The search of lookup_cache, where `wild` says whether the caller wants entries above the name.
unfoldable pub search : List ℕ → Bool → Store → Run (Option ℕ × Wild)
search name wild s =
    let up = search_up (length name) name s in
    find_name name s >>= λ k. elim k [
      | some i ↦ ok (some i, exact)
      | none ↦
          if wild
          then (read name 0 >>= λ lb. if lb == 0 then ok (none, exact) else up)
          else ok (none, exact)
    ]

-- What lookup_cache returns: the copy of an entry, and *wild.
pub record Found : Type 0 where
  pub ret : Option Cent
  pub wild : Wild

-- The part with read access: the result, or what has to be purged first.
unfoldable pub lookup_read : Sizeof → ℕ → List ℕ → Bool → Store → Run (Option Found × Store)
unfolding search
lookup_read z now name wild s = search name wild s >>= λ r. elim r.0 [
  | none ↦ ok (some (record { ret = none; wild = r.1 }), s)
  | some k ↦ read s.cents k >>= λ c. purge_cent z now true true k c s >>= λ p. elim p.0 [
    | some zero ↦ copy_cent c p.1.world >>= λ m.
        ok (some (record { ret = m.0; wild = r.1 }), record p.1 { world = m.1 })
    | some (suc n) ↦ ok (none, p.1)
    | none ↦ ok (none, p.1)
  ]
]

-- The part with write access, in the state that it finds.
unfoldable pub lookup_write : Sizeof → ℕ → List ℕ → Bool → Store → Run (Found × Store)
unfolding search
lookup_write z now name wild s = search name wild s >>= λ r. elim r.0 [
  | none ↦ ok (record { ret = none; wild = r.1 }, s)
  | some k ↦ read s.cents k >>= λ c. purge_cent z now true false k c s >>= λ p. elim p.0 [
    | none ↦ ok (record { ret = none; wild = r.1 }, p.1)
    | some n ↦ read p.1.cents k >>= λ c2. copy_cent c2 p.1.world >>= λ m.
        ok (record { ret = m.0; wild = r.1 }, record p.1 { world = m.1 })
  ]
]

-- lookup_cache, where `others` is what other threads do to the cache between the two locks.
unfoldable pub lookup_cache :
    Sizeof → ℕ → List ℕ → Bool → (Store → Store) → Store → Run (Found × Store)
unfolding lookup_read lookup_write
lookup_cache z now name wild others s = lookup_read z now name wild s >>= λ r. elim r.0 [
  | some f ↦ ok (f, r.1)
  | none ↦ lookup_write z now name wild (others r.1)
]
