-- ===== src/Cent/Conflicts/Unchanged.antt =====
-- What the deletion of an RR set leaves as it was.
use orbot_library.Prelude.{
  ℕ, zero, suc, ◌-◌, ◌≡◌, refl, sym, ap, ◌∙◌, List, [], ◌∷◌, Bool, true, false, ltb, ◌==◌,
  if◌then◌else◌, Bool-cases, inl, inr, Option, none, some, Run, ok, halt, out_of_bounds, ◌>>=◌,
  read, write, arith,
}
use orbot_library.Cent.{
  Sizeof, RrSet, Cent, World, nrrmu, is_negative, clear_auth, rrarr_index, rrarr_index_testext,
  rrarr_set,
}
use orbot_library.Cent.Delete.{del_rrset, del_cent_rrset_by_index}
use orbot_library.Cent.Sizes.{slots}
use orbot_library.Cent.Accounts.{clear_auth-is_negative}

-- The array that comes out has at `j` what another has, and as much room.
abbrev Reads : ℕ → List (Option RrSet) → Run (List (Option RrSet)) → Type 0
Reads j xs (halt why) = Unit
Reads j xs (ok r) = read r j ≡ read xs j

write-Reads :
    (xs : List (Option RrSet)) (i j : ℕ) (v : Option RrSet)
    → (j == i) ≡ false
    → Reads j xs (write xs i v)
unfolding write read
write-Reads [] i j v other = _
write-Reads (x ∷ xs) zero zero v other = absurd (ground (arith, other))
write-Reads (x ∷ xs) zero (suc j) v other = refl
write-Reads (x ∷ xs) (suc i) zero v other = headed (write xs i v)
  where
    headed : (r : Run (List (Option RrSet))) → Reads 0 (x ∷ xs) (r >>= λ q. ok (x ∷ q))
    headed (halt why) = _
    headed (ok q) = refl
write-Reads (x ∷ xs) (suc i) (suc j) v other =
    tailed (write xs i v) (write-Reads xs i j v (ground (arith, other)))
  where
    tailed :
        (r : Run (List (Option RrSet)))
        → Reads j xs r
        → Reads (suc j) (x ∷ xs) (r >>= λ q. ok (x ∷ q))
    tailed (halt why) h = _
    tailed (ok q) h = h

-- The entry that comes out has at the index what another has, as much room, and is as negative.
abbrev pub SameAt : ℕ → Cent → Cent → Type 0
SameAt j c r =
    (rrarr_index r j ≡ rrarr_index c j)
    × ((slots r.rrext ≡ slots c.rrext) × (is_negative r.flags ≡ is_negative c.flags))

abbrev SetSame : ℕ → Cent → Run Cent → Type 0
SetSame j c (halt why) = Unit
SetSame j c (ok r) =
    (rrarr_index r j ≡ rrarr_index c j) × ((slots r.rrext ≡ slots c.rrext) × (r.flags ≡ c.flags))

rrarr_set-SetSame :
    (c : Cent) (i j : ℕ) (v : Option RrSet) → (j == i) ≡ false → SetSame j c (rrarr_set c i v)
unfolding rrarr_set rrarr_index
rrarr_set-SetSame c i j v other = by_index (ltb i 8) refl
  where
    in_mu :
        (r : Run (List (Option RrSet)))
        → Reads j c.rrmu r
        → SetSame j c (r >>= λ q. ok (record c { rrmu = q }))
    in_mu (halt why) h = _
    in_mu (ok q) h = (ap (λ x. if ltb j 8 then x else rrarr_ext) h, (refl, refl))
      where
        rrarr_ext : Run (Option RrSet)
        rrarr_ext = elim c.rrext [ none ↦ halt out_of_bounds | some e ↦ read e (j - nrrmu) ]

    written :
        (e : List (Option RrSet))
        → c.rrext ≡ some e
        → (r : Run (List (Option RrSet))) → (ltb j 8 ≡ false → Reads (j - nrrmu) e r)
        → SetSame j c (r >>= λ q. ok (record c { rrext = some q }))
    written e same (halt why) h = _
    written e same (ok q) h = elim (Bool-cases (ltb j 8)) [
      | inl low ↦ (rw (low) refl, (sym (ap slots same), refl))
      | inr high ↦ (rw (high, same) (h high), (sym (ap slots same), refl))
    ]

    in_ext :
        (x : Option (List (Option RrSet)))
        → c.rrext ≡ x
        → ltb i 8 ≡ false
        → SetSame j c (elim x [
          | none ↦ halt out_of_bounds
          | some e ↦ write e (i - nrrmu) v >>= λ r. ok (record c { rrext = some r })
        ])
    in_ext none same high = _
    in_ext (some e) same high =
        written e same (write e (i - nrrmu) v)
          λ above. write-Reads e (i - nrrmu) (j - nrrmu) v (ground (arith, other, above, high))

    by_index :
        (b : Bool)
        → ltb i 8 ≡ b
        → SetSame j c (
            if b then (write c.rrmu i v >>= λ r. ok (record c { rrmu = r })) else (elim c.rrext [
              | none ↦ halt out_of_bounds
              | some e ↦ write e (i - nrrmu) v >>= λ r. ok (record c { rrext = some r })
            ]))
    by_index true low = in_mu (write c.rrmu i v) (write-Reads c.rrmu i j v other)
    by_index false high = in_ext c.rrext refl high

abbrev pub DelSame : ℕ → Cent → Run (ℕ × (Cent × World)) → Type 0
DelSame j c (halt why) = Unit
DelSame j c (ok r) = SameAt j c r.1.0

-- del_cent_rrset_by_index leaves what is at the other indices.
pub del_cent_rrset_by_index-DelSame :
    (z : Sizeof) (c : Cent) (i j : ℕ) (w : World)
    → (j == i) ≡ false
    → DelSame j c (del_cent_rrset_by_index z c i w)
unfolding del_cent_rrset_by_index del_rrset rrarr_index
del_cent_rrset_by_index-DelSame z c i j w other = by_lookup (rrarr_index_testext c i)
  where
    stored :
        (rrs : RrSet) (r : Run Cent)
        → SetSame j c r
        → DelSame j c (
            r >>= λ c2. ok (
              (del_rrset z rrs w).0,
              (
                record c2 {
                  num_rrs = c2.num_rrs - 1;
                  cs = c2.cs - (del_rrset z rrs w).0;
                  flags = clear_auth c2.flags;
                },
                (del_rrset z rrs w).1,
              ),
            ))
    stored rrs (halt why) h = _
    stored rrs (ok c2) (at, (room, same)) =
        (at, (room, clear_auth-is_negative c2.flags ∙ ap is_negative same))

    by_lookup :
        (l : Run (Option RrSet))
        → DelSame j c (
            l >>= λ s. elim s [
              | none ↦ ok (0, (c, w))
              | some rrs ↦
                  let (rv, w2) = del_rrset z rrs w in
                  rrarr_set c i none >>= λ c2. ok (
                    rv,
                    (
                      record c2 {
                        num_rrs = c2.num_rrs - 1;
                        cs = c2.cs - rv;
                        flags = clear_auth c2.flags;
                      },
                      w2,
                    ),
                  )
            ])
    by_lookup (halt why) = _
    by_lookup (ok none) = (refl, (refl, refl))
    by_lookup (ok (some rrs)) = stored rrs (rrarr_set c i none) (rrarr_set-SetSame c i j none other)
