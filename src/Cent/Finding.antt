-- ===== src/Cent/Finding.antt =====
-- A record that add_cent_rr has added is found by getrrset under its type.
use orbot_library.Prelude.{
  ℕ, ◌-◌, ◌<◌, ◌≡◌, refl, ◌∙◌, inl, inr, List, true, false, ltb, leb, ◌&&◌, not, some, ok, halt,
  assertion, read, Returns, arith, Bool-cases,
}
use orbot_library.RrList.{is_local}
use orbot_library.Cent.{
  Sizeof, RrSet, Cent, World, is_negative, rrarr_index_testext, getrrset, getrrset_eff, rrlkuptab,
}
use orbot_library.Cent.Add.{add_cent_rr, type_index}
use orbot_library.Cent.Sizes.{IsSized}
use orbot_library.Cent.Records.{testext-inside}
use orbot_library.Cent.Adding.{HasData, add_cent_rr-Added}

-- getrrset and RRARR_INDEX_TESTEXT agree on the types that the cache holds.
getrrset-testext :
    (c : Cent) (type i : ℕ)
    → type_index type ≡ ok i
    → i < 47
    → getrrset c type ≡ rrarr_index_testext c i
unfolding getrrset getrrset_eff rrarr_index_testext type_index
getrrset-testext c type i known h = elim (Bool-cases (leb 1 type && ltb (type - 1) 51)) [
  | inr out ↦ absurd (no_index (simp (out) at known))
  | inl inside ↦ found inside (simp (inside) at known)
]
  where
    no_index : halt assertion ≡ ok i → ⊥
    no_index e = cc

    found :
        (leb 1 type && ltb (type - 1) 51) ≡ true
        → read rrlkuptab (type - 1) ≡ ok i
        → getrrset c type ≡ rrarr_index_testext c i
    found inside e = elim (Bool-cases (is_negative c.flags)) [
      | inl neg ↦ simp (neg) refl
      | inr pos ↦ elim (Bool-cases (ltb i 8)) [
        | inl low ↦ simp (pos, inside, e, low) refl
        | inr high ↦
            let fits : ltb (i - 8) 39 ≡ true = ground (arith, high) in
            simp (pos, inside, e, high, fits) refl
      ]
    ]

-- add_cent_rr for a type that the cache holds, on an entry whose account is right: it returns
-- without leaving the arrays, whether or not memory runs out, and the account is right. Where the
-- result is 1, and not because the entry is local and the record is not, getrrset then finds an RR
-- set of the type that has the record.
pub add_cent_rr-getrrset :
    (z : Sizeof) (c : Cent) (type i ttl ts flags : ℕ) (bytes : List ℕ) (w : World)
    → IsSized z c
    → type_index type ≡ ok i
    → i < 47
    → Returns (add_cent_rr z c type ttl ts flags bytes w) (λ r.
      IsSized z r.1.0
      × (r.0 ≡ true
          → (is_local c.flags && not (is_local flags)) ≡ false
          → (s : RrSet) × ((getrrset r.1.0 type ≡ ok (some s)) × HasData bytes s)))
add_cent_rr-getrrset z c type i ttl ts flags bytes w s known h =
    let (r, run, (sized, next)) = add_cent_rr-Added z c type i ttl ts flags bytes w s known h in
    (
      r,
      run,
      (
        sized,
        λ is new.
            let (p, (t, (x, has))) = next is new in
            (
              t,
              (
                getrrset-testext r.1.0 type i known h
                    ∙ testext-inside r.1.0 i p.positive x.inside
                    ∙ x.found,
                has,
              ),
            ),
      ),
    )
