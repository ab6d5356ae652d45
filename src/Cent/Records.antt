-- ===== src/Cent/Records.antt =====
-- Records added to an entry: the account stays right, and the record is found afterwards.
use orbot_library.Prelude.{
  ℕ, ◌+◌, ◌-◌, ◌*◌, ◌<◌, ◌≡◌, refl, sym, ap, subst, ◌∙◌, inl, inr, List, [], Bool, true, false, ltb,
  ◌==◌, if◌then◌else◌, Option, none, some, Run, ok, Returns, Returns-if, arith, replicate,
  Bool-cases, lt→ltb,
}
use orbot_library.Cent.{
  Sizeof, RrSet, Cent, World, allocated, is_negative, rrarr_index, rrarr_index_testext,
}
use orbot_library.Cent.Add.{put_rrset, add_rrset}
use orbot_library.Cent.Sizes.{set_size, set_count, ext_sum, ext_cost, slots, IsSized}
use orbot_library.Cent.Additions.{
  IsPositive, HasRrset, put_rrset-IsPositive, read-replicate, sum-replicate,
}
use orbot_library.Cent.Accounts.{pos_size, pos_number}

-- The promise of an addition at an index: the account is right, and where the result is 1, there is
-- an RR set at the index with the property `P`.
abbrev pub Added : Sizeof → ℕ → (RrSet → Type 0) → Bool × (Cent × World) → Type 0
Added z i P r =
    IsSized z r.1.0 × (r.0 ≡ true → IsPositive z r.1.0 × ((s : RrSet) × (HasRrset r.1.0 i s × P s)))

from_put :
    (z : Sizeof) (i : ℕ) (P : RrSet → Type 0) {r : Run (Bool × (Cent × World))}
    → Returns r (λ r. IsPositive z r.1.0 × (r.0 ≡ true → (s : RrSet) × (HasRrset r.1.0 i s × P s)))
    → Returns r (Added z i P)
from_put z i P (a, run, (p, h)) = (a, run, (p.sized, λ is. (p, h is)))

pub testext-inside :
    (c : Cent) (i : ℕ)
    → is_negative c.flags ≡ false
    → i < slots c.rrext
    → rrarr_index_testext c i ≡ rrarr_index c i
unfolding rrarr_index rrarr_index_testext
testext-inside c i pos h = elim (Bool-cases (ltb i 8)) [
  | inl is ↦ rw (pos, is) refl
  | inr is ↦ go c.rrext refl is
]
  where
    go :
        (x : Option (List (Option RrSet)))
        → c.rrext ≡ x
        → ltb i 8 ≡ false
        → rrarr_index_testext c i ≡ rrarr_index c i
    go none same is = absurd (ground (arith, is, h, ap slots same))
    go (some e) same is = rw (pos, is, same) refl

-- What add_rrset is on an index below NRRMU, and above with and without the second array.
add_rrset-mu :
    (z : Sizeof) (c : Cent) (i ttl ts flags : ℕ) (w : World)
    → ltb i 8 ≡ true
    → add_rrset z c i ttl ts flags w ≡ put_rrset z c i ttl ts flags w
unfolding add_rrset
add_rrset-mu z c i ttl ts flags w is = rw (is) refl

add_rrset-ext :
    (z : Sizeof) (c : Cent) (i ttl ts flags : ℕ) (w : World) (e : List (Option RrSet))
    → ltb i 8 ≡ false
    → ltb (i - 8) 39 ≡ true
    → c.rrext ≡ some e
    → add_rrset z c i ttl ts flags w ≡ put_rrset z c i ttl ts flags w
unfolding add_rrset
add_rrset-ext z c i ttl ts flags w e is out same = simp (is, out, same) refl

abbrev with_ext : Sizeof → Cent → Cent
with_ext z c = record c { rrext = some (replicate 39 none); cs = c.cs + z.pointer * 39 }

add_rrset-new :
    (z : Sizeof) (c : Cent) (i ttl ts flags : ℕ) (w : World)
    → ltb i 8 ≡ false
    → ltb (i - 8) 39 ≡ true
    → c.rrext ≡ none
    → add_rrset z c i ttl ts flags w ≡ (
        if w.room == 0
        then ok (false, (c, w))
        else put_rrset z (with_ext z c) i ttl ts flags (allocated w))
unfolding add_rrset
add_rrset-new z c i ttl ts flags w is out same = simp (is, out, same) refl

new_index :
    (z : Sizeof) (c : Cent) (i : ℕ)
    → ltb i 8 ≡ false
    → i < 47
    → rrarr_index (with_ext z c) i ≡ ok none
unfolding rrarr_index
new_index z c i is h = rw (is) (read-replicate 39 (i - 8) none (ground (arith, is)))

with_ext-IsPositive :
    (z : Sizeof) (c : Cent) → IsPositive z c → c.rrext ≡ none → IsPositive z (with_ext z c)
with_ext-IsPositive z c p same =
    let size = pos_size z c p.sized p.positive in
    let number = pos_number z c p.sized p.positive in
    let pos = p.positive in
    record {
      sized = record {
        mu_length = p.sized.mu_length;
        ext_length = refl;
        size = rw (pos) (
            omega (
              arith,
              size,
              ap (ext_cost z) same,
              ap (ext_sum (set_size z)) same,
              sum-replicate (set_size z) 39 refl,
            ));
        number =
            rw (pos)
              (omega (arith, number, ap (ext_sum set_count) same, sum-replicate set_count 39 refl));
      };
      positive = pos;
    }

pub add_rrset-Added :
    (z : Sizeof) (c : Cent) (i ttl ts flags : ℕ) (w : World)
    → IsPositive z c
    → i < 47
    → rrarr_index_testext c i ≡ ok none
    → Returns (add_rrset z c i ttl ts flags w) (Added z i (λ s. s.rrs ≡ []))
add_rrset-Added z c i ttl ts flags w p h empty = elim (Bool-cases (ltb i 8)) [
  | inl is ↦ put (add_rrset-mu z c i ttl ts flags w is) (first c.rrext is)
  | inr is ↦ second c.rrext refl is
]
  where
    put :
        add_rrset z c i ttl ts flags w ≡ put_rrset z c i ttl ts flags w
        → i < slots c.rrext
        → Returns (add_rrset z c i ttl ts flags w) (Added z i (λ s. s.rrs ≡ []))
    put is inside =
        subst (λ r. Returns r (Added z i (λ s. s.rrs ≡ []))) (sym is)
          (from_put z i (λ s. s.rrs ≡ [])
            (put_rrset-IsPositive z c i ttl ts flags w p inside
              (sym (testext-inside c i p.positive inside) ∙ empty)))

    first : (x : Option (List (Option RrSet))) → ltb i 8 ≡ true → i < slots x
    first none is = ground (arith, is)
    first (some e) is = ground (arith, is)

    second :
        (x : Option (List (Option RrSet)))
        → c.rrext ≡ x
        → ltb i 8 ≡ false
        → Returns (add_rrset z c i ttl ts flags w) (Added z i (λ s. s.rrs ≡ []))
    second (some e) same is =
        put (add_rrset-ext z c i ttl ts flags w e is (lt→ltb (i - 8) 39 (ground (arith, is))) same)
          (subst (λ x. i < slots x) (sym same) h)
    second none same is =
        subst (λ r. Returns r (Added z i (λ s. s.rrs ≡ [])))
          (sym
            (add_rrset-new z c i ttl ts flags w is (lt→ltb (i - 8) 39 (ground (arith, is))) same))
          (Returns-if _ (w.room == 0)
            (λ _. ((false, (c, w)), refl, (p.sized, λ f. absurd (ground (arith, f)))))
            (λ _.
              from_put z i (λ s. s.rrs ≡ [])
                (put_rrset-IsPositive z (with_ext z c) i ttl ts flags (allocated w)
                  (with_ext-IsPositive z c p same) h (new_index z c i is h))))
