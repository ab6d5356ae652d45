-- ===== src/Disk/Slots.antt =====
-- The RR sets of an entry by index and by type, and their number in both orders.
use orbot_library.Prelude.{
  ℕ, zero, suc, ◌+◌, ◌-◌, ◌<◌, ◌≤◌, ◌≡◌, refl, sym, ap, ◌∙◌, List, [], ◌∷◌, Bool, true, false, not,
  ltb, if◌then◌else◌, Option, none, some, Run, ok, halt, out_of_bounds, read, arith, length,
  Bool-cases, inl, inr,
}
use orbot_library.Cent.{
  RrSet, Cent, is_negative, nrrmu, rrlkuptab, rrarr_index, rrarr_len, getrrset_eff,
}
use orbot_library.Cent.Sizes.{HasExtLength}
use orbot_library.RrList.{is_local}
use orbot_library.Disk.{
  is_kept, count_kept, any_kept, is_written, rrmuiterlist, rrcachiterlist, iterlist,
}

-- The element at an index, and outside a default.
abbrev pub at {ℓ} : {A : Type ℓ} → A → List A → ℕ → A
at d [] i = d
at d (x ∷ xs) zero = x
at d (x ∷ xs) (suc i) = at d xs i

pub read-at {ℓ} :
    {A : Type ℓ} (d : A) (xs : List A) (i : ℕ) → i < length xs → read xs i ≡ ok (at d xs i)
unfolding read
read-at d [] i h = elim h [ ]
read-at d (x ∷ xs) zero h = refl
read-at d (x ∷ xs) (suc i) h = read-at d xs i (omega (arith, h))

-- The RR set at an index.
unfoldable pub slot : Cent → ℕ → Option RrSet
slot c i =
    if ltb i nrrmu
    then at none c.rrmu i
    else (elim c.rrext [ none ↦ none | some e ↦ at none e (i - nrrmu) ])

unfoldable pub type_slot : Cent → ℕ → Option RrSet
type_slot c tp = slot c (at 0 rrlkuptab (tp - 1))

-- The arrays of the entry have their lengths.
pub record HasArrays (c : Cent) : Type 0 where
  pub mu_length : length c.rrmu ≡ 8
  pub ext_length : HasExtLength c.rrext

-- An index of an entry that is not negative.
abbrev Index : Option (List (Option RrSet)) → ℕ → Type 0
Index none i = i < 8
Index (some e) i = i < 47

rrarr_index-slot :
    (c : Cent) (i : ℕ) (x : Option (List (Option RrSet)))
    → c.rrext ≡ x
    → length c.rrmu ≡ 8
    → HasExtLength x
    → Index x i
    → rrarr_index c i ≡ ok (slot c i)
unfolding rrarr_index slot
rrarr_index-slot c i x e m l h = elim (Bool-cases (ltb i 8)) [
  | inl low ↦ rw (low) (read-at none c.rrmu i (ground (arith, low, m)))
  | inr high ↦ rw (high, e) (in_ext x l h high)
]
  where
    in_ext :
        (y : Option (List (Option RrSet)))
        → HasExtLength y
        → Index y i
        → ltb i 8 ≡ false
        → (elim y as (λ _. Run (Option RrSet)) [
          | none ↦ halt out_of_bounds
          | some a ↦ read a (i - 8)
        ])
          ≡ ok (elim y [ none ↦ none | some a ↦ at none a (i - 8) ])
    in_ext none l2 h2 high = absurd (ground (arith, h2, high))
    in_ext (some a) l2 h2 high = read-at none a (i - 8) (ground (arith, h2, l2, high))

pub getrrset_eff-slot :
    (c : Cent) (tp : ℕ)
    → tp - 1 < 51
    → HasArrays c
    → at 0 rrlkuptab (tp - 1) < 47
    → getrrset_eff c tp ≡ ok (type_slot c tp)
unfolding getrrset_eff type_slot slot
getrrset_eff-slot c tp inside s h =
    rw (read-at 0 rrlkuptab (tp - 1) inside) (by_index (at 0 rrlkuptab (tp - 1)) h)
  where
    in_ext :
        (i : ℕ) (y : Option (List (Option RrSet)))
        → HasExtLength y
        → i < 39
        → (elim y as (λ _. Run (Option RrSet)) [ none ↦ ok none | some a ↦ read a i ])
          ≡ ok (elim y [ none ↦ none | some a ↦ at none a i ])
    in_ext i none l2 h2 = refl
    in_ext i (some a) l2 h2 = read-at none a i (omega (arith, h2, l2))

    by_index :
        (i : ℕ)
        → i < 47
        → (if ltb i 8
            then read c.rrmu i
            else if ltb (i - 8) 39
            then (elim c.rrext [ none ↦ ok none | some e ↦ read e (i - 8) ])
            else ok none)
          ≡ ok (
              if ltb i 8
              then at none c.rrmu i
              else (elim c.rrext [ none ↦ none | some e ↦ at none e (i - 8) ]))
    by_index i k = elim (Bool-cases (ltb i 8)) [
      | inl low ↦ rw (low) (read-at none c.rrmu i (ground (arith, low, s.mu_length)))
      | inr high ↦
          let inner : ltb (i - 8) 39 ≡ true = ground (arith, k, high) in
          rw (high, inner) (in_ext (i - 8) c.rrext s.ext_length (ground (arith, k, high)))
    ]

-- Sums over indices, and over the indices of types.
abbrev sum_from : (ℕ → ℕ) → ℕ → ℕ → ℕ
sum_from k zero i = 0
sum_from k (suc n) i = k i + sum_from k n (i + 1)

abbrev sum_types : (ℕ → ℕ) → List ℕ → ℕ
sum_types k [] = 0
sum_types k (tp ∷ tps) = k (at 0 rrlkuptab (tp - 1)) + sum_types k tps

-- The types of each list are those of the indices, in another order.
sum_types-rrmuiterlist : (k : ℕ → ℕ) → sum_types k rrmuiterlist ≡ sum_from k 8 0
sum_types-rrmuiterlist k = omega arith

sum_types-rrcachiterlist : (k : ℕ → ℕ) → sum_types k rrcachiterlist ≡ sum_from k 47 0
sum_types-rrcachiterlist k = omega arith

-- What an RR set counts in num_rrs.
unfoldable pub weight : Option RrSet → ℕ
weight s = if is_kept s then 1 else 0

abbrev pub kept_types : Cent → List ℕ → ℕ
kept_types c [] = 0
kept_types c (tp ∷ tps) = weight (type_slot c tp) + kept_types c tps

kept_types-sum :
    (c : Cent) (tps : List ℕ) → kept_types c tps ≡ sum_types (λ i. weight (slot c i)) tps
unfolding type_slot
kept_types-sum c [] = refl
kept_types-sum c (tp ∷ tps) =
    ap (λ n. weight (slot c (at 0 rrlkuptab (tp - 1))) + n) (kept_types-sum c tps)

count_kept-sum :
    (c : Cent) (len n i : ℕ)
    → ((j : ℕ) → j < len → rrarr_index c j ≡ ok (slot c j))
    → n + i ≤ len
    → count_kept n i c ≡ ok (sum_from (λ j. weight (slot c j)) n i)
unfolding count_kept weight
count_kept-sum c len zero i found h = refl
count_kept-sum c len (suc n) i found h =
    rw (found i (omega (arith, h)), count_kept-sum c len n (i + 1) found (omega (arith, h)))
      (ap ok (ground arith))

any_kept-sum :
    (c : Cent) (len n i : ℕ)
    → ((j : ℕ) → j < len → rrarr_index c j ≡ ok (slot c j))
    → n + i ≤ len
    → any_kept n i c ≡ ok (ltb 0 (sum_from (λ j. weight (slot c j)) n i))
unfolding any_kept weight
any_kept-sum c len zero i found h = refl
any_kept-sum c len (suc n) i found h =
    rw (found i (omega (arith, h)), any_kept-sum c len n (i + 1) found (omega (arith, h)))
      (ground arith)

-- The sum over the indices of an entry that is not negative.
abbrev kept_slots : Cent → Option (List (Option RrSet)) → ℕ
kept_slots c x = sum_from (λ j. weight (slot c j)) (elim x [ none ↦ 8 | some _ ↦ 47 ]) 0

kept_slots-types :
    (c : Cent) (x : Option (List (Option RrSet)))
    → kept_slots c x ≡ kept_types c (elim x [ none ↦ rrmuiterlist | some _ ↦ rrcachiterlist ])
kept_slots-types c none =
    sym (sum_types-rrmuiterlist (λ j. weight (slot c j))) ∙ sym (kept_types-sum c rrmuiterlist)
kept_slots-types c (some a) =
    sym (sum_types-rrcachiterlist (λ j. weight (slot c j))) ∙ sym (kept_types-sum c rrcachiterlist)

by_arrays :
    (c : Cent) (x : Option (List (Option RrSet)))
    → c.rrext ≡ x
    → length c.rrmu ≡ 8
    → HasExtLength x
    → (j : ℕ) → j < (elim x as (λ _. ℕ) [ none ↦ 8 | some _ ↦ 47 ])
    → rrarr_index c j ≡ ok (slot c j)
by_arrays c none e m l j h = rrarr_index-slot c j none e m l h
by_arrays c (some a) e m l j h = rrarr_index-slot c j (some a) e m l h

-- The count that goes into the head of an entry is that of the RR sets that follow it.
pub count_kept-iterlist :
    (c : Cent) → HasArrays c → count_kept (rrarr_len c) 0 c ≡ ok (kept_types c (iterlist c))
unfolding rrarr_len iterlist count_kept
count_kept-iterlist c s = elim (Bool-cases (is_negative c.flags)) [
  | inl neg ↦ rw (neg) refl
  | inr positive ↦ rw (positive) (
      count_kept-sum c _ (elim c.rrext [ none ↦ 8 | some _ ↦ 47 ]) 0
        (by_arrays c c.rrext refl s.mu_length s.ext_length) (omega arith)
      ∙ ap ok (kept_slots-types c c.rrext))
]

-- An entry is written if it is negative and not local, or has an RR set to write.
abbrev pub wanted : Cent → Bool
wanted c = if is_negative c.flags then not (is_local c.flags) else ltb 0 (kept_types c (iterlist c))

pub is_written-wanted : (c : Cent) → HasArrays c → is_written c ≡ ok (wanted c)
unfolding is_written rrarr_len iterlist any_kept
is_written-wanted c s = elim (Bool-cases (is_negative c.flags)) [
  | inl neg ↦ rw (neg) refl
  | inr positive ↦ rw (positive) (
      any_kept-sum c _ (elim c.rrext [ none ↦ 8 | some _ ↦ 47 ]) 0
        (by_arrays c c.rrext refl s.mu_length s.ext_length) (omega arith)
      ∙ ap (λ k. ok (ltb 0 k)) (kept_slots-types c c.rrext))
]
