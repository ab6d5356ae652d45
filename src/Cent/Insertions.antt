-- ===== src/Cent/Insertions.antt =====
-- add_cent_rrset_by_index and add_cent_rr on an entry whose account is right.
use orbot_library.Prelude.{
  ℕ, zero, suc, ◌+◌, ◌<◌, ◌≡◌, refl, sym, subst, ◌∙◌, inl, inr, List, [], ◌∷◌, Bool, true, false,
  ltb, none, some, ok, Returns, length, arith, replicate, Bool-cases, ==-refl, ◌||◌,
}
use orbot_library.Cent.{
  Sizeof, RrBucket, RrSet, Cent, World, is_negative, clear_negative, nrrmu, rrarr_index,
  rrarr_index_testext,
}
use orbot_library.Cent.Delete.{rrs_size, remove_rrl}
use orbot_library.Cent.Add.{
  create_rr, make_positive, add_rrset, add_cent_rrset_by_index, link_at, link_rr, same_data,
  has_data,
}
use orbot_library.Cent.Sizes.{set_size, set_count, IsSized}
use orbot_library.Cent.Additions.{
  IsPositive, HasRrset, slot-at, replaces-IsPositive, read-replicate, sum-replicate,
}
use orbot_library.Cent.Records.{Added, add_rrset-Added}

abbrev blank : Cent → Cent
blank c = record c { flags = clear_negative c.flags; rrmu = replicate nrrmu none; rrext = none }

make_positive-negative :
    (c : Cent) (w : World)
    → is_negative c.flags ≡ true
    → make_positive c w ≡ (blank c, remove_rrl c.neg_lent w)
unfolding make_positive
make_positive-negative c w neg = simp (neg) refl

make_positive-positive :
    (c : Cent) (w : World) → is_negative c.flags ≡ false → make_positive c w ≡ (c, w)
unfolding make_positive
make_positive-positive c w pos = simp (pos) refl

clear_negative-is_negative : (n : ℕ) → is_negative (clear_negative n) ≡ false
unfolding is_negative clear_negative
clear_negative-is_negative n = ground arith

blank-IsPositive :
    (z : Sizeof) (c : Cent) → IsSized z c → is_negative c.flags ≡ true → IsPositive z (blank c)
blank-IsPositive z c s neg =
    let pos = clear_negative-is_negative c.flags in
    let size : c.cs ≡ z.dns_cent + length c.qname + 0 = s.size ∙ simp (neg) refl in
    let number : c.num_rrs ≡ 0 = s.number ∙ simp (neg) refl in
    record {
      sized = record {
        mu_length = refl;
        ext_length = _;
        size = rw (pos) (omega (arith, size, sum-replicate (set_size z) 8 refl));
        number = rw (pos) (omega (arith, number, sum-replicate set_count 8 refl));
      };
      positive = pos;
    }

blank-index : (c : Cent) (i : ℕ) → rrarr_index_testext (blank c) i ≡ ok none
unfolding rrarr_index_testext
blank-index c i = elim (Bool-cases (ltb i 8)) [
  | inl is ↦
      simp (clear_negative-is_negative c.flags, is) (read-replicate 8 i none (ground (arith, is)))
  | inr is ↦ simp (clear_negative-is_negative c.flags, is) refl
]

-- add_cent_rrset_by_index on an entry without an RR set at the index: it returns, the account is
-- right, and where the result is 1 there is an RR set without records at the index.
pub add_cent_rrset_by_index-Added :
    (z : Sizeof) (c : Cent) (i ttl ts flags : ℕ) (w : World)
    → IsSized z c
    → i < 47
    → rrarr_index_testext c i ≡ ok none
    → Returns (add_cent_rrset_by_index z c i ttl ts flags w) (Added z i (λ s. s.rrs ≡ []))
unfolding add_cent_rrset_by_index
add_cent_rrset_by_index-Added z c i ttl ts flags w s h empty =
    elim (Bool-cases (is_negative c.flags)) [
      | inl neg ↦
          subst (λ m. Returns (add_rrset z m.0 i ttl ts flags m.1) (Added z i (λ s. s.rrs ≡ [])))
            (sym (make_positive-negative c w neg))
            (add_rrset-Added z (blank c) i ttl ts flags _ (blank-IsPositive z c s neg) h
              (blank-index c i))
      | inr pos ↦
          subst (λ m. Returns (add_rrset z m.0 i ttl ts flags m.1) (Added z i (λ s. s.rrs ≡ [])))
            (sym (make_positive-positive c w pos))
            (add_rrset-Added z c i ttl ts flags w (record { sized = s; positive = pos }) h empty)
    ]

link_at-rrs_size :
    (z : Sizeof) (k : ℕ) (rr : RrBucket) (rrs : List RrBucket)
    → rrs_size z (link_at k rr rrs) ≡ rrs_size z rrs + (z.rr_bucket + rr.rdlen)
unfolding rrs_size link_at
link_at-rrs_size z zero rr rrs = omega arith
link_at-rrs_size z (suc k) rr [] = omega arith
link_at-rrs_size z (suc k) rr (x ∷ rrs) = omega (arith, link_at-rrs_size z k rr rrs)

same_data_refl : (xs : List ℕ) → same_data xs xs ≡ true
unfolding same_data
same_data_refl [] = refl
same_data_refl (x ∷ xs) = rw (==-refl x, same_data_refl xs) refl

or_true : (b : Bool) → (b || true) ≡ true
or_true true = refl
or_true false = refl

link_at-has_data :
    (k : ℕ) (bytes : List ℕ) (rrs : List RrBucket)
    → has_data bytes (link_at k (create_rr bytes) rrs) ≡ true
unfolding has_data link_at create_rr
link_at-has_data zero bytes rrs = rw (==-refl (length bytes), same_data_refl bytes) refl
link_at-has_data (suc k) bytes [] = rw (==-refl (length bytes), same_data_refl bytes) refl
link_at-has_data (suc k) bytes (x ∷ rrs) = rw (link_at-has_data k bytes rrs) (or_true _)

pub link_rr-Added :
    (z : Sizeof) (c : Cent) (i : ℕ) (s : RrSet) (k : ℕ) (bytes : List ℕ) (w : World)
    → IsPositive z c
    → HasRrset c i s
    → Returns (link_rr z c i s k (create_rr bytes) w) (Added z i (λ s. has_data bytes s.rrs ≡ true))
unfolding link_rr rrarr_index
link_rr-Added z c i s k bytes w p x =
    let s2 : RrSet = record s { rrs = link_at k (create_rr bytes) s.rrs } in
    let (c2, run, b) = slot-at z c i (some s) p x.inside x.found (some s2) in
    let p2 =
      replaces-IsPositive z c c2 i (some s) (some s2)
        (c2.cs + (z.rr_bucket + (create_rr bytes).rdlen)) c2.num_rrs p b
        (omega (arith, link_at-rrs_size z k (create_rr bytes) s.rrs)) refl in
    (
      (true, (record c2 { cs = c2.cs + (z.rr_bucket + (create_rr bytes).rdlen) }, w)),
      simp (run) refl,
      (
        p2.sized,
        λ _. (
          p2,
          (
            s2,
            (
              record { inside = subst (λ n. i < n) (sym b.same_slots) x.inside; found = b.there },
              link_at-has_data k bytes s.rrs,
            ),
          ),
        ),
      ),
    )
