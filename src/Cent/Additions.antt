-- ===== src/Cent/Additions.antt =====
-- The functions that add RR sets and records keep the account of the size and of the number.
use orbot_library.Prelude.{
  ℕ, zero, suc, ◌+◌, ◌<◌, ◌≡◌, refl, sym, ap, subst, ◌∙◌, [], true, false, ◌==◌, Option, none, some,
  ok, read, Returns, Returns-if, length, arith, replicate, ok-injective,
}
use orbot_library.Cent.{Sizeof, RrSet, Cent, World, allocated, is_negative, rrarr_index, rrarr_set}
use orbot_library.Cent.Delete.{rrs_size}
use orbot_library.Cent.Add.{put_rrset}
use orbot_library.Cent.Sizes.{set_size, set_count, sum, slots, IsSized, SlotSet, rrarr_set-SlotSet}
use orbot_library.Cent.Accounts.{pos_size, pos_number}

module _ {ℓ} {A : Type ℓ} where
  pub read-replicate : (n i : ℕ) (a : A) → i < n → read (replicate n a) i ≡ ok a
  unfolding read
  read-replicate zero i a h = elim h [ ]
  read-replicate (suc n) zero a h = refl
  read-replicate (suc n) (suc i) a h = read-replicate n i a (omega arith)

pub sum-replicate : (f : Option RrSet → ℕ) (n : ℕ) → f none ≡ 0 → sum f (replicate n none) ≡ 0
sum-replicate f zero h = refl
sum-replicate f (suc n) h = omega (arith, h, sum-replicate f n h)

-- An entry that is not negative, with its account right.
pub record IsPositive (z : Sizeof) (c : Cent) : Type 0 where
  pub sized : IsSized z c
  pub positive : is_negative c.flags ≡ false

-- The RR set at an index, inside the arrays.
pub record HasRrset (c : Cent) (i : ℕ) (r : RrSet) : Type 0 where
  pub inside : i < slots c.rrext
  pub found : rrarr_index c i ≡ ok (some r)

-- The RR set at an index of such an entry can be replaced.
pub slot-at :
    (z : Sizeof) (c : Cent) (i : ℕ) (old : Option RrSet)
    → IsPositive z c
    → i < slots c.rrext
    → rrarr_index c i ≡ ok old
    → (v : Option RrSet) → Returns (rrarr_set c i v) (SlotSet z c i old v)
slot-at z c i old p inside known v =
    let (o, (found, next)) = rrarr_set-SlotSet z c i p.sized.mu_length p.sized.ext_length inside in
    subst (λ o2. Returns (rrarr_set c i v) (SlotSet z c i o2 v)) (ok-injective (sym found ∙ known))
      (next v)

-- The account is right after a replacement with the size and the number that belong to it.
pub replaces-IsPositive :
    (z : Sizeof) (c c2 : Cent) (i : ℕ) (old v : Option RrSet) (cs2 num2 : ℕ)
    → IsPositive z c
    → SlotSet z c i old v c2
    → cs2 + set_size z old ≡ c2.cs + set_size z v
    → num2 + set_count old ≡ c2.num_rrs + set_count v
    → IsPositive z (record c2 { cs = cs2; num_rrs = num2 })
replaces-IsPositive z c c2 i old v cs2 num2 p b e1 e2 =
    let neg : is_negative c2.flags ≡ false = ap is_negative b.same_flags ∙ p.positive in
    let size = pos_size z c p.sized p.positive in
    let number = pos_number z c p.sized p.positive in
    record {
      sized = record {
        mu_length = b.mu_length;
        ext_length = b.ext_length;
        size = rw (neg) (
            omega (
              arith,
              size,
              b.same_cs,
              b.same_cost,
              b.balance (set_size z),
              ap length b.same_qname,
              e1,
            ));
        number = rw (neg) (omega (arith, number, b.same_num_rrs, b.balance set_count, e2));
      };
      positive = neg;
    }

pub put_rrset-IsPositive :
    (z : Sizeof) (c : Cent) (i ttl ts flags : ℕ) (w : World)
    → IsPositive z c
    → i < slots c.rrext
    → rrarr_index c i ≡ ok none
    → Returns
        (put_rrset z c i ttl ts flags w)
        (λ r. IsPositive z r.1.0 × (r.0 ≡ true → (s : RrSet) × (HasRrset r.1.0 i s × (s.rrs ≡ []))))
unfolding put_rrset rrarr_index rrs_size
put_rrset-IsPositive z c i ttl ts flags w p inside empty =
    let fresh : RrSet = record { lent = none; ttl = ttl; ts = ts; flags = flags; rrs = [] } in
    let (c2, run2, b2) = slot-at z c i none p inside empty none in
    let (c3, run3, b3) = slot-at z c i none p inside empty (some fresh) in
    Returns-if _ (w.room == 0)
      (λ no_room. (
        (false, (c2, w)),
        rw (run2) refl,
        (
          replaces-IsPositive z c c2 i none none c2.cs c2.num_rrs p b2 refl refl,
          λ is. absurd (ground (arith, is)),
        ),
      ))
      (λ has_room. (
        (true, (record c3 { cs = c3.cs + z.rr_set; num_rrs = c3.num_rrs + 1 }, allocated w)),
        rw (run3) refl,
        (
          replaces-IsPositive z c c3 i none (some fresh) (c3.cs + z.rr_set) (c3.num_rrs + 1) p b3
              (omega arith) (omega arith),
          λ is. (
            fresh,
            (
              record { inside = subst (λ n. i < n) (sym b3.same_slots) inside; found = b3.there },
              refl,
            ),
          ),
        ),
      ))
