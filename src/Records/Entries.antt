-- ===== src/Records/Entries.antt =====
-- rr_to_cache keeps the array of entries in order and files a record under its name.
use orbot_library.Prelude.{
  ℕ, ◌<◌, ◌≡◌, refl, sym, ap, subst, ◌∙◌, ◌⊎◌, inl, inr, List, [], ◌∷◌, ◌++◌, Bool, true, false,
  not, Option, none, some, ok, ◌>>=◌, read, write-ok, ok-injective, Returns, Returns->>=, ◌==◌,
  if◌then◌else◌, length, length-set, length-append, set, set-append, All, arith,
}
use orbot_library.Name.Labels.{IsName, wire}
use orbot_library.Arrays.{DArray, alloc_nel, da_nel, elems, grows, da_grow1, da_resize}
use orbot_library.Arrays.Growth.{
  IsAllocated, Grown, da_grow1-Grown, Resized, da_resize-Resized, Resized-elem,
}
use orbot_library.RrList.{is_local}
use orbot_library.Cent.{Sizeof, RrSet, Cent, World, allocated, getrrset}
use orbot_library.Cent.Add.{blank_cent, type_index, add_cent_rr}
use orbot_library.Cent.Sizes.{IsSized}
use orbot_library.Cent.Adding.{HasData}
use orbot_library.Cent.Finding.{add_cent_rr-getrrset}
use orbot_library.Query.{rc_ok}
use orbot_library.Records.Keeping.{Like, Named, add_cent_rr-Named}
use orbot_library.Records.Cents.{
  rc_fatalerr, Centa, free_cents, rr_code, add_at, init_last, add_entry, rr_to_cache,
}
use orbot_library.Records.Filing.{
  IsFiled, Kept, HasName, Holds, Filed, All-set, All-last, All-read, read-set, Found,
  find_cent-Found,
}
use orbot_library.Records.Fresh.{Made, init_cent-Made}

module _ (z : Sizeof) (ls : List (List ℕ)) (type i_type : ℕ) (bytes : List ℕ)
    (ttl queryts flags : ℕ) (name : IsName ls) (known : type_index type ≡ ok i_type)
    (cached : i_type < 47) where
  -- add_cent_rr on an entry of the name.
  added :
      (c : Cent) (w : World)
      → IsSized z c
      → is_local c.flags ≡ false
      → HasName ls c
      → Returns (add_cent_rr z c type ttl queryts flags bytes w) (λ r.
        IsFiled z r.1.0
        × (HasName ls r.1.0
            × (r.0 ≡ true → (s : RrSet) × ((getrrset r.1.0 type ≡ ok (some s)) × HasData bytes s))))
  added c w sized foreign (ms, (n, (q, fold))) =
      let (r, run, (sized2, found)) =
        add_cent_rr-getrrset z c type i_type ttl queryts flags bytes w sized known cached in
      let like : Like c r.1.0 =
        subst (Named c) run (add_cent_rr-Named z c type ttl queryts flags bytes w) in
      (
        r,
        run,
        (
          (sized2, (like.1 ∙ foreign, (ms, (n, like.0 ∙ q)))),
          ((ms, (n, (like.0 ∙ q, fold))), λ is. found is (rw (foreign) refl)),
        ),
      )

  -- The entry is put back into its place of the array.
  add_at-Filed :
      (a : DArray Cent) (i : ℕ) (c : Cent) (w : World)
      → IsAllocated (some a)
      → i < length a.elem
      → ((v : Cent) → IsFiled z v → All (IsFiled z) (set a.elem i v))
      → IsSized z c
      → is_local c.flags ≡ false
      → HasName ls c
      → Returns (add_at z a i c type ttl queryts flags bytes w) (Filed z ls type bytes)
  unfolding add_at rr_code
  add_at-Filed a i c w block inside others sized foreign named =
      let (r, run, (is_filed, (named2, found))) = added c w sized foreign named in
      Returns->>= _ _ run (
        Returns->>= _ _ (write-ok a.elem i r.1.0 inside) (
          _,
          refl,
          (
            (block ∙ ap alloc_nel (sym (length-set a.elem i r.1.0)), others r.1.0 is_filed),
            result r.0 r.1.0 named2 found,
          ),
        ))
    where
      result :
          (done : Bool) (v : Cent)
          → HasName ls v
          → (done ≡ true → (s : RrSet) × ((getrrset v type ≡ ok (some s)) × HasData bytes s))
          → ((rr_code done ≡ rc_ok)
              × Holds ls type bytes (some (record { elem = set a.elem i v; nalloc = a.nalloc })))
            ⊎ (rr_code done ≡ rc_fatalerr)
      result true v named2 found =
          inl (refl, (i, (v, (read-set a.elem i v inside, (named2, found refl)))))
      result false v named2 found = inr refl

  -- The new entry in the last place.
  init_last-Filed :
      (xs : List Cent) (blank : Cent) (a : DArray Cent) (rest : List ℕ) (w : World)
      → All (IsFiled z) xs
      → IsAllocated (some a)
      → a.elem ≡ xs ++ (blank ∷ [])
      → Returns
          (init_last z (length xs) blank a (wire ls ++ rest) type ttl queryts flags bytes w)
          (Filed z ls type bytes)
  unfolding init_last
  init_last-Filed xs blank a rest w filed block last =
      let (r, run, made) = init_cent-Made z ls rest w name in
      Returns->>= _ _ run (by_memory r.0 r.1 made)
    where
      shrunk :
          (room : Bool) (r : Option (DArray Cent) × List Cent)
          → Resized room (some a) (length xs) r
          → Kept z r.0
      shrunk room (none, cleaned) h = _
      shrunk room (some b, cleaned) h =
          (h.0, subst (All (IsFiled z)) (sym (Resized-elem room xs blank a b cleaned last h)) filed)

      by_memory :
          (o : Option Cent) (w2 : World)
          → Made z ls (o, w2)
          → Returns {V = ℕ × Centa}
              (elim o [
                | none ↦ ok (
                  rc_fatalerr,
                  record {
                    centa = (da_resize (not (w2.room == 0)) (some a) (length xs) blank).0;
                    world = w2;
                  },
                )
                | some c ↦ add_at z a (length xs) c type ttl queryts flags bytes w2
              ])
              (Filed z ls type bytes)
      by_memory none w2 _ = (
        _,
        refl,
        (
          shrunk (not (w2.room == 0)) (da_resize (not (w2.room == 0)) (some a) (length xs) blank)
              (da_resize-Resized (not (w2.room == 0)) (some a) (length xs) blank block),
          inr refl,
        ),
      )
      by_memory (some c) w2 (sized, (foreign, q)) =
          add_at-Filed a (length xs) c w2 block
            (omega (arith, ap length last, length-append xs (blank ∷ [])))
            (λ v h.
              subst (All (IsFiled z))
                (sym (set-append xs blank [] v) ∙ ap (λ e. set e (length xs) v) (sym last))
                (All-last z xs v filed h))
            sized foreign (ls, (name, (q, refl)))

  add_entry-Filed :
      (centa : Option (DArray Cent)) (rest : List ℕ) (w : World)
      → IsAllocated centa
      → All (IsFiled z) (elems centa)
      → Returns
          (add_entry z centa (wire ls ++ rest) type ttl queryts flags bytes w)
          (Filed z ls type bytes)
  unfolding add_entry da_nel
  add_entry-Filed centa rest w block filed =
      by_growth (da_grow1 (not (w.room == 0)) centa (blank_cent [] 0 0))
        (da_grow1-Grown (not (w.room == 0)) centa (blank_cent [] 0 0) block)
    where
      count : (c : Option (DArray Cent)) → length (elems c) ≡ da_nel c
      count none = refl
      count (some a) = refl

      by_growth :
          (g : Option (DArray Cent) × List Cent)
          → Grown (not (w.room == 0)) centa (blank_cent [] 0 0) g
          → Returns {V = ℕ × Centa}
              (elim g.0 [
                | none ↦ ok (rc_fatalerr, record { centa = none; world = free_cents z g.1 w })
                | some a ↦
                    init_last z
                      (da_nel centa)
                      (blank_cent [] 0 0)
                      a
                      (wire ls ++ rest)
                      type
                      ttl
                      queryts
                      flags
                      bytes
                      (if grows centa then allocated w else w)
              ])
              (Filed z ls type bytes)
      by_growth (none, cleaned) _ = (_, refl, (_, inr refl))
      by_growth (some a, cleaned) (size, (_, (last, _))) = rw (← count centa) (
          init_last-Filed (elems centa) (blank_cent [] 0 0) a rest
            (if grows centa then allocated w else w) filed size last)

  -- rr_to_cache of a type that the cache holds, for an array whose entries have right accounts and
  -- names, are not local and stand in a block of the right size: it returns, whether or not memory
  -- runs out, with such an array, or none. With RC_OK, and that is with any code but RC_FATALERR,
  -- the array has an entry of the name up to the case of letters, in which getrrset finds the
  -- record under its type.
  pub rr_to_cache-Filed :
      (centa : Option (DArray Cent)) (rest : List ℕ) (w : World)
      → Kept z centa
      → Returns
          (rr_to_cache z centa (wire ls ++ rest) type ttl queryts flags bytes w)
          (Filed z ls type bytes)
  unfolding rr_to_cache
  rr_to_cache-Filed none rest w kept = add_entry-Filed none rest w _ _
  rr_to_cache-Filed (some a) rest w (block, filed) =
      let (o, run, found) = find_cent-Found z a.elem ls rest 0 filed name in
      Returns->>= _ _ run (by_place o found)
    where
      by_place :
          (o : Option ℕ)
          → Found ls a.elem 0 o
          → Returns {V = ℕ × Centa}
              (elim o [
                | none ↦ add_entry z (some a) (wire ls ++ rest) type ttl queryts flags bytes w
                | some i ↦ read a.elem i >>= λ c. add_at z a i c type ttl queryts flags bytes w
              ])
              (Filed z ls type bytes)
      by_place none _ = add_entry-Filed (some a) rest w block filed
      by_place (some i) (k, (e, (inside, (d, (there, named))))) =
          let (c, (at, (sized, (foreign, q)))) = All-read z a.elem i filed (omega (arith, e)) in
          let same : d ≡ c =
            ok-injective (sym there ∙ ap (read a.elem) (sym (e ∙ omega arith)) ∙ at) in
          Returns->>= _ _ at (
            add_at-Filed a i c w block (omega (arith, e)) (λ v h. All-set z a.elem i v filed h)
              sized foreign (subst (HasName ls) same named))
