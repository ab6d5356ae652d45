-- ===== src/Cache/Upwards.antt =====
-- The search of lookup_cache in pdnsd/src/cache.c up the hierarchy of names.
use orbot_library.Prelude.{
  ℕ, zero, suc, ◌≤◌, ◌<◌, ◌≡◌, refl, sym, ap, ◌∙◌, subst, List, [], ◌∷◌, ◌++◌, append-nil, true,
  false, ◌==◌, if◌then◌else◌, Bool-cases, inl, inr, Option, none, some, Run, ok, ◌>>=◌, read,
  Returns, Returns->>=, length, drop, replicate, All, arith, length-append, drop-append,
}
use orbot_library.Name.{rhncpy}
use orbot_library.Name.Labels.{IsName, length-lt-wire, wire}
use orbot_library.Name.Walk.{rhncpy-wire}
use orbot_library.RrList.{is_local}
use orbot_library.Cent.{Cent, is_negative}
use orbot_library.Cache.{Store, find_name}
use orbot_library.Cache.Names.{IsNamed, Lacks, Has, Sought, find_name-Sought}
use orbot_library.Cache.Lookup.{
  Wild, exact, wildcard, negative, locnerr, is_wild, use_above, look_above, search_up, search,
}
use orbot_library.Cache.Ancestors.{
  star, Above, at_root, higher, denied, starred, unstarred, owned, unflagged, Looked, itself,
  no_root, above,
}

module _ (s : Store) (named : All IsNamed s.cents) where
  find_name-wire : (ls : List (List ℕ)) → IsName ls → Returns (find_name (wire ls) s) (Sought s ls)
  find_name-wire ls n =
      subst (λ x. Returns (find_name x s) (Sought s ls)) (append-nil (wire ls))
        (find_name-Sought s ls [] named n)

  -- The entry of the wildcard below a name that is marked for it.
  use_wild :
      (l : List ℕ) (ls : List (List ℕ)) (i : ℕ) (c : Cent)
      → IsName (l ∷ ls)
      → length (wire (l ∷ ls)) ≤ 254
      → Has s (l ∷ ls) i c
      → is_negative c.flags ≡ false
      → is_wild c.flags ≡ true
      → Returns
          (rhncpy (replicate 254 0) (wire (l ∷ ls)) >>= λ r. find_name (1 ∷ b'*' ∷ r.1) s >>= λ w.
            ok (w, elim w as (λ _. Wild) [ none ↦ exact | some _ ↦ wildcard ]))
          (Above s (l ∷ ls))
  use_wild l ls i c n fits has pos wild =
      let copied : rhncpy (replicate 254 0) (wire (l ∷ ls))
          ≡ ok (
            length (wire (l ∷ ls)),
            wire (l ∷ ls) ++ drop (length (wire (l ∷ ls))) (replicate 254 0),
          ) =
        ap (rhncpy (replicate 254 0)) (sym (append-nil (wire (l ∷ ls))))
        ∙ rhncpy-wire (replicate 254 0) (l ∷ ls) [] n (omega (arith, fits)) (omega (arith, fits)) in
      let (o, run, sought) =
        find_name-Sought s (star ∷ (l ∷ ls)) (drop (length (wire (l ∷ ls))) (replicate 254 0)) named
          ((omega arith, omega arith), n) in
      Returns->>= _ _ copied (Returns->>= _ _ run (found o sought))
    where
      found :
          (o : Option ℕ)
          → Sought s (star ∷ (l ∷ ls)) o
          → Returns {V = Option ℕ × Wild}
              (ok (o, elim o as (λ _. Wild) [ none ↦ exact | some _ ↦ wildcard ]))
              (Above s (l ∷ ls))
      found none lacks = (_, refl, unstarred l ls i c has pos wild lacks)
      found (some k) (w, at) = (_, refl, starred l ls i c k w has pos wild at)

  -- What is done with an entry above the name.
  use_above-Above :
      (l : List ℕ) (ls : List (List ℕ)) (i : ℕ) (c : Cent)
      → IsName (l ∷ ls)
      → length (wire (l ∷ ls)) ≤ 254
      → Has s (l ∷ ls) i c
      → Returns (use_above (wire (l ∷ ls)) i c s) (Above s (l ∷ ls))
  unfolding use_above
  use_above-Above l ls i c n fits has = elim (Bool-cases (is_negative c.flags)) [
    | inl neg ↦ rw (neg) ((some i, negative), refl, denied l ls i c has neg)
    | inr pos ↦ elim (Bool-cases (is_wild c.flags)) [
      | inl wild ↦ rw (pos, wild) (use_wild l ls i c n fits has pos wild)
      | inr tame ↦ elim (Bool-cases (is_local c.flags)) [
        | inl own ↦ rw (pos, tame, own) ((some i, locnerr), refl, owned l ls i c has pos tame own)
        | inr other ↦
            rw (pos, tame, other) ((none, exact), refl, unflagged l ls i c has pos tame other)
      ]
    ]
  ]

  look_above-root : (rest : Run (Option ℕ × Wild)) → look_above (0 ∷ []) s rest ≡ ok (none, exact)
  unfolding look_above read
  look_above-root rest = refl

  look_above-Above :
      (m : List ℕ) (ls : List (List ℕ)) (rest : Run (Option ℕ × Wild))
      → IsName (m ∷ ls)
      → length (wire (m ∷ ls)) ≤ 254
      → Returns rest (Above s ls)
      → Returns (look_above (wire (m ∷ ls)) s rest) (Above s (m ∷ ls))
  unfolding look_above read
  look_above-Above m ls rest n fits (out, run, above_it) =
      let some_label : (length m == 0) ≡ false = ground (arith, n) in
      let (o, found, sought) = find_name-wire (m ∷ ls) n in
      rw (some_label) (Returns->>= _ _ found (by_found o sought))
    where
      by_found :
          (o : Option ℕ)
          → Sought s (m ∷ ls) o
          → Returns
              (elim o as (λ _. Run (Option ℕ × Wild)) [
                | none ↦ rest
                | some i ↦ read s.cents i >>= λ c. use_above (wire (m ∷ ls)) i c s
              ])
              (Above s (m ∷ ls))
      by_found none lacks = (out, run, higher m ls out lacks above_it)
      by_found (some i) (c, has) = Returns->>= _ _ has.0 (use_above-Above m ls i c n fits has)

  search_up-Above :
      (fuel : ℕ) (l : List ℕ) (ls : List (List ℕ))
      → IsName ls
      → length (wire ls) ≤ 254
      → length ls < fuel
      → Returns (search_up fuel (wire (l ∷ ls)) s) (Above s ls)
  unfolding search_up
  search_up-Above zero l ls n fits h = absurd (omega (arith, h))
  search_up-Above (suc fuel) l [] n fits h =
      rw (drop-append l (0 ∷ []), look_above-root (search_up fuel (0 ∷ []) s))
        ((none, exact), refl, at_root)
  search_up-Above (suc fuel) l (m ∷ ls) n fits h = rw (drop-append l (wire (m ∷ ls))) (
      look_above-Above m ls (search_up fuel (wire (m ∷ ls)) s) n fits (
        search_up-Above fuel m ls n.1 (omega (arith, fits, length-append m (wire ls)))
          (omega (arith, h))))

-- In a cache whose entries are named by labels, and for a name of labels of at most 256 bytes, the
-- search of lookup_cache, whose caller wants entries above the name too, returns an entry of the name;
-- or, where there is none, what the first entry above the name and below the root decides: itself
-- where it is negative, the entry of its wildcard, if any, where it is marked for one, itself where it
-- is local, and else nothing; and nothing where no such entry is above the name.
pub search-Looked :
    (s : Store) (ls : List (List ℕ))
    → All IsNamed s.cents
    → IsName ls
    → length (wire ls) ≤ 256
    → Returns (search (wire ls) true s) (Looked s ls)
unfolding search read
search-Looked s [] named n fits =
    let (o, found, sought) = find_name-wire s named [] n in
    Returns->>= _ _ found (by_found o sought)
  where
    by_found :
        (o : Option ℕ)
        → Sought s [] o
        → Returns
            (elim o as (λ _. Run (Option ℕ × Wild)) [
              | some i ↦ ok (some i, exact)
              | none ↦ ok (none, exact)
            ])
            (Looked s [])
    by_found none lacks = ((none, exact), refl, no_root lacks)
    by_found (some i) (c, has) = ((some i, exact), refl, itself [] i c has)
search-Looked s (l ∷ ls) named n fits =
    let (o, found, sought) = find_name-wire s named (l ∷ ls) n in
    Returns->>= _ _ found (by_found o sought)
  where
    up : Run (Option ℕ × Wild)
    up = search_up (length (wire (l ∷ ls))) (wire (l ∷ ls)) s

    climbs :
        Lacks s (l ∷ ls)
        → Returns (if length l == 0 then ok (none, exact) else up) (Looked s (l ∷ ls))
    climbs lacks =
        let some_label : (length l == 0) ≡ false = ground (arith, n) in
        let (out, run, found_above) =
          search_up-Above s named (length (wire (l ∷ ls))) l ls n.1
            (omega (arith, fits, n, length-append l (wire ls)))
            (omega (arith, length-lt-wire ls, length-append l (wire ls))) in
        rw (some_label) (out, run, above l ls out lacks found_above)

    by_found :
        (o : Option ℕ)
        → Sought s (l ∷ ls) o
        → Returns
            (elim o as (λ _. Run (Option ℕ × Wild)) [
              | some i ↦ ok (some i, exact)
              | none ↦ if length l == 0 then ok (none, exact) else up
            ])
            (Looked s (l ∷ ls))
    by_found none lacks = climbs lacks
    by_found (some i) (c, has) = ((some i, exact), refl, itself (l ∷ ls) i c has)
