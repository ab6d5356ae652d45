-- ===== src/Cent/Negation.antt =====
-- negate_cent on an entry whose account is right.
use orbot_library.Prelude.{
  ℕ, ◌+◌, ◌-◌, ◌≡◌, refl, ◌∙◌, inl, inr, List, [], ◌∷◌, true, false, Option, none, some, length,
  arith, Bool-cases,
}
use orbot_library.Cent.{Sizeof, RrSet, Cent, World, is_negative}
use orbot_library.Cent.Delete.{del_rrset, del_rrsets, del_rrext, drop_rrsets, negate_cent}
use orbot_library.Cent.Sizes.{set_size, sum, ext_sum, ext_cost, IsSized}
use orbot_library.Cent.Accounts.{pos_size}

del_rrsets-sum :
    (z : Sizeof) (xs : List (Option RrSet)) (w : World)
    → (del_rrsets z xs w).0 ≡ sum (set_size z) xs
unfolding del_rrsets del_rrset
del_rrsets-sum z [] w = refl
del_rrsets-sum z (none ∷ xs) w = omega (arith, del_rrsets-sum z xs w)
del_rrsets-sum z (some r ∷ xs) w = omega (arith, del_rrsets-sum z xs (del_rrset z r w).1)

del_rrext-sum :
    (z : Sizeof) (x : Option (List (Option RrSet))) (w : World)
    → (del_rrext z x w).0 ≡ ext_sum (set_size z) x + ext_cost z x
unfolding del_rrext
del_rrext-sum z none w = omega arith
del_rrext-sum z (some e) w = omega (arith, del_rrsets-sum z e w)

suc-is_negative : (n : ℕ) → is_negative n ≡ false → is_negative (n + 1) ≡ true
unfolding is_negative
suc-is_negative n h = ground (arith, h)

-- On an entry whose account is right, negate_cent leaves a negative entry whose account is right:
-- of the size, what belongs to the name and to dns_cent_t is left, and no RR set is counted.
pub negate_cent-IsSized :
    (z : Sizeof) (c : Cent) (ttl ts : ℕ) (w : World)
    → IsSized z c
    → let r = (negate_cent z c ttl ts w).0 in
      IsSized z r × ((is_negative r.flags ≡ true) × (r.cs ≡ z.dns_cent + length c.qname))
unfolding negate_cent drop_rrsets
negate_cent-IsSized z c ttl ts w s = elim (Bool-cases (is_negative c.flags)) [
  | inl neg ↦
      let size : c.cs ≡ z.dns_cent + length c.qname + 0 = s.size ∙ simp (neg) refl in
      let number : c.num_rrs ≡ 0 = s.number ∙ simp (neg) refl in
      simp (neg) (
        record {
          mu_length = s.mu_length;
          ext_length = s.ext_length;
          size = simp (neg) size;
          number = simp (neg) number;
        },
        (refl, omega (arith, size)),
      )
  | inr pos ↦
      let size = pos_size z c s pos in
      let neg = suc-is_negative c.flags pos in
      let left : c.cs
            - (del_rrsets z c.rrmu w).0
            - (del_rrext z c.rrext (del_rrsets z c.rrmu w).1).0
          ≡ z.dns_cent + length c.qname =
        omega (
          arith,
          size,
          del_rrsets-sum z c.rrmu w,
          del_rrext-sum z c.rrext (del_rrsets z c.rrmu w).1,
        ) in
      simp (pos) (
        record {
          mu_length = s.mu_length;
          ext_length = s.ext_length;
          size = simp (neg) (omega (arith, left));
          number = simp (neg) refl;
        },
        (neg, left),
      )
]
