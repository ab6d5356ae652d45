-- ===== src/Cent/Sizes.antt =====
-- The size and the number of RR sets that an entry records, and the arrays behind them.
use orbot_library.Prelude.{
  ℕ, zero, suc, ◌+◌, ◌-◌, ◌*◌, ◌<◌, ◌≡◌, refl, sym, ap, subst, ◌∙◌, List, [], ◌∷◌, false, ltb,
  if◌then◌else◌, Option, none, some, ok, read, write, Returns, length, arith, Bool-cases, inl, inr,
}
use orbot_library.Cent.{Sizeof, RrSet, Cent, is_negative, rrarr_index, rrarr_set}
use orbot_library.Cent.Delete.{rrs_size}

-- What an RR set adds to the size and to the number.
abbrev pub set_size : Sizeof → Option RrSet → ℕ
set_size z none = 0
set_size z (some r) = z.rr_set + rrs_size z r.rrs

abbrev pub set_count : Option RrSet → ℕ
set_count none = 0
set_count (some r) = 1

abbrev pub sum : (Option RrSet → ℕ) → List (Option RrSet) → ℕ
sum f [] = 0
sum f (x ∷ xs) = f x + sum f xs

-- An array in place of another that has `v` where that has `old`.
pub record Replaces (f : Option RrSet → ℕ) (xs : List (Option RrSet)) (i : ℕ) (old v : Option RrSet)
    (r : List (Option RrSet)) : Type 0 where
  pub same_length : length r ≡ length xs
  pub balance : sum f r + f old ≡ sum f xs + f v
  pub there : read r i ≡ ok v

pub write-Replaces :
    (xs : List (Option RrSet)) (i : ℕ)
    → i < length xs
    → (old : Option RrSet) × ((read xs i ≡ ok old)
        × ((v : Option RrSet)
            → Returns (write xs i v) (λ r. (f : Option RrSet → ℕ) → Replaces f xs i old v r)))
unfolding read write
write-Replaces [] i h = elim h [ ]
write-Replaces (x ∷ xs) zero h = (
  x,
  (
    refl,
    λ v. (v ∷ xs, refl, λ f. record { same_length = refl; balance = omega arith; there = refl }),
  ),
)
write-Replaces (x ∷ xs) (suc i) h =
    let (old, (found, next)) = write-Replaces xs i (omega arith) in
    (
      old,
      (
        found,
        λ v.
            let (r, run, same) = next v in
            (
              x ∷ r,
              rw (run) refl,
              λ f. record {
                same_length = ap suc (same f).same_length;
                balance = omega (arith, (same f).balance);
                there = (same f).there;
              },
            ),
      ),
    )

-- The sums over both arrays.
abbrev pub ext_sum : (Option RrSet → ℕ) → Option (List (Option RrSet)) → ℕ
ext_sum f none = 0
ext_sum f (some e) = sum f e

abbrev pub total : (Option RrSet → ℕ) → Cent → ℕ
total f c = sum f c.rrmu + ext_sum f c.rrext

-- The size of the second array itself.
abbrev pub ext_cost : Sizeof → Option (List (Option RrSet)) → ℕ
ext_cost z none = 0
ext_cost z (some e) = z.pointer * 39

abbrev pub HasExtLength : Option (List (Option RrSet)) → Type 0
HasExtLength none = Unit
HasExtLength (some e) = length e ≡ 39

-- The number of RR sets that the arrays have room for.
abbrev pub slots : Option (List (Option RrSet)) → ℕ
slots none = 8
slots (some e) = 47

-- The arrays have their lengths, cs is the size of all that belongs to the entry, and num_rrs the
-- number of its RR sets.
pub record IsSized (z : Sizeof) (c : Cent) : Type 0 where
  pub mu_length : length c.rrmu ≡ 8
  pub ext_length : HasExtLength c.rrext
  pub size :
      c.cs
      ≡ z.dns_cent
        + length c.qname
        + (if is_negative c.flags then 0 else total (set_size z) c + ext_cost z c.rrext)
  pub number : c.num_rrs ≡ (if is_negative c.flags then 0 else total set_count c)

-- An entry that differs from another only in one RR set.
pub record SlotSet (z : Sizeof) (c : Cent) (i : ℕ) (old v : Option RrSet) (r : Cent) : Type 0 where
  pub mu_length : length r.rrmu ≡ 8
  pub ext_length : HasExtLength r.rrext
  pub same_slots : slots r.rrext ≡ slots c.rrext
  pub same_cost : ext_cost z r.rrext ≡ ext_cost z c.rrext
  pub balance : (f : Option RrSet → ℕ) → total f r + f old ≡ total f c + f v
  pub same_qname : r.qname ≡ c.qname
  pub same_flags : r.flags ≡ c.flags
  pub same_cs : r.cs ≡ c.cs
  pub same_num_rrs : r.num_rrs ≡ c.num_rrs
  pub there : rrarr_index r i ≡ ok v

-- Where an index is inside the arrays, the RR set there can be read and replaced.
pub rrarr_set-SlotSet :
    (z : Sizeof) (c : Cent) (i : ℕ)
    → length c.rrmu ≡ 8
    → HasExtLength c.rrext
    → i < slots c.rrext
    → (old : Option RrSet) × ((rrarr_index c i ≡ ok old)
        × ((v : Option RrSet) → Returns (rrarr_set c i v) (SlotSet z c i old v)))
unfolding rrarr_index rrarr_set
rrarr_set-SlotSet z c i m e h = elim (Bool-cases (ltb i 8)) [
  | inl is ↦
      let (old, (found, next)) = write-Replaces c.rrmu i (ground (arith, is, m)) in
      (
        old,
        (
          rw (is) found,
          λ v.
              let (r, run, same) = next v in
              (
                record c { rrmu = r },
                rw (is, run) refl,
                record {
                  mu_length = (same set_count).same_length ∙ m;
                  ext_length = e;
                  same_slots = refl;
                  same_cost = refl;
                  balance = λ f. omega (arith, (same f).balance);
                  same_qname = refl;
                  same_flags = refl;
                  same_cs = refl;
                  same_num_rrs = refl;
                  there = rw (is) (same set_count).there;
                },
              ),
        ),
      )
  | inr is ↦ second c.rrext refl is
]
  where
    second :
        (x : Option (List (Option RrSet)))
        → c.rrext ≡ x
        → ltb i 8 ≡ false
        → (old : Option RrSet) × ((rrarr_index c i ≡ ok old)
            × ((v : Option RrSet) → Returns (rrarr_set c i v) (SlotSet z c i old v)))
    second none same is = absurd (ground (arith, is, h, ap slots same))
    second (some e2) same is =
        let len : length e2 ≡ 39 = subst HasExtLength same e in
        let (old, (found, next)) =
          write-Replaces e2 (i - 8) (ground (arith, is, len, h, ap slots same)) in
        (
          old,
          (
            rw (is, same) found,
            λ v.
                let (r, run, all) = next v in
                (
                  record c { rrext = some r },
                  rw (is, same, run) refl,
                  record {
                    mu_length = m;
                    ext_length = (all set_count).same_length ∙ len;
                    same_slots = sym (ap slots same);
                    same_cost = sym (ap (ext_cost z) same);
                    balance = λ f. omega (arith, (all f).balance, ap (ext_sum f) same);
                    same_qname = refl;
                    same_flags = refl;
                    same_cs = refl;
                    same_num_rrs = refl;
                    there = rw (is) (all set_count).there;
                  },
                ),
          ),
        )
