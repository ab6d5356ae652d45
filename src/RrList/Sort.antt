-- ===== src/RrList/Sort.antt =====
-- The merge sort of the list.
use orbot_library.Prelude.{
  ℕ, suc, ◌+◌, ◌^◌, ◌<◌, ◌≡◌, refl, sym, ap, ◌∙◌, ◌⊎◌, inl, inr, List, [], ◌∷◌, ◌++◌, map,
  append_assoc, append-nil, true, false, ◌==◌, arith, Bool-cases, length, length-append, ok,
  Returns, ◌>>=◌,
}
use native.Mathlib.Omega.{pow_step}
use orbot_library.RrList.{
  backwards, RrLent, listmerge, place, place_all, merge_slots, merge_all, sort_rrl,
}
use orbot_library.RrList.Merge.{insert, insert_all, sorted, listmerge-sorted}
use orbot_library.RrList.Insertion.{add_all, add_all-append, add_all-insert}

-- The nodes of the slots, those of the higher slots in front.
abbrev joined : List (List RrLent) → List RrLent
joined [] = []
joined (s ∷ ss) = joined ss ++ s

-- From slot k on, each slot is empty or has 2 ^ k nodes.
abbrev IsSlots : ℕ → List (List RrLent) → Type 0
IsSlots k [] = Unit
IsSlots k (s ∷ ss) = ((s ≡ []) ⊎ (length s ≡ 2 ^ k)) × IsSlots (k + 1) ss

length-insert : (e : RrLent) (xs : List RrLent) → length (insert e xs) ≡ suc (length xs)
unfolding insert
length-insert e [] = refl
length-insert e (x ∷ xs) = ground (arith, length-insert e xs)

length-insert_all : (acc es : List RrLent) → length (insert_all acc es) ≡ length acc + length es
unfolding insert_all
length-insert_all acc [] = omega arith
length-insert_all acc (e ∷ es) =
    omega (arith, length-insert_all (insert e acc) es, length-insert e acc)

place-full :
    (k : ℕ) (c l : List RrLent) (tmp : List (List RrLent))
    → 0 < length l
    → place k c (l ∷ tmp) ≡ (place (k + 1) (listmerge l c) tmp >>= λ r. ok ([] ∷ r))
unfolding place
place-full k c [] tmp h = elim h [ ]
place-full k c (x ∷ l) tmp h = refl

pow_suc : (k : ℕ) → 2 ^ (k + 1) ≡ 2 ^ k + 2 ^ k
pow_suc k =
    let same : k + 1 ≡ suc k = omega arith in ap (λ n. 2 ^ n) same ∙ omega (arith, pow_step 2 k)

no_slot : (k : ℕ) (cs : List RrLent) → length cs ≡ 2 ^ k → length cs < 2 ^ 32 → k ≡ 32 → ⊥
no_slot k cs e h is = absurd (omega (arith, h, e ∙ ap (λ n. 2 ^ n) is))

-- A slot that holds nodes joins those that are carried.
place-Returns :
    (k : ℕ) (cs : List RrLent) (segs : List (List RrLent))
    → length cs ≡ 2 ^ k
    → IsSlots k segs
    → length (joined segs) + length cs < 2 ^ 32
    → Returns (place k (sorted cs) (map sorted segs)) (λ tmp.
      (segs2 : List (List RrLent)) × (tmp ≡ map sorted segs2)
      × IsSlots k segs2
      × (joined segs2 ≡ joined segs ++ cs))
unfolding place insert_all
place-Returns k cs [] e i h = elim (Bool-cases (k == 32)) [
  | inl is ↦ absurd (no_slot k cs e (omega arith) (ground (arith, is)))
  | inr is ↦ (sorted cs ∷ [], rw (is) refl, (cs ∷ [], refl, (inr e, _), refl))
]
place-Returns k cs ([] ∷ segs) e (z, i) h =
    (sorted cs ∷ map sorted segs, refl, (cs ∷ segs, refl, (inr e, i), rw (append-nil) refl))
place-Returns k cs ((x ∷ s) ∷ segs) e (inl z, i) h = absurd (ground (arith, ap length z))
place-Returns k cs ((x ∷ s) ∷ segs) e (inr z, i) h =
    let (tmp, run, (segs2, same, i2, all)) =
      place-Returns (k + 1) ((x ∷ s) ++ cs) segs
        (omega (arith, length-append (x ∷ s) cs, pow_suc k, e, z)) i
        (omega (arith, length-append (x ∷ s) cs, length-append (joined segs) (x ∷ s), h)) in
    (
      [] ∷ tmp,
      place-full k (sorted cs) (sorted (x ∷ s)) (map sorted segs)
            (omega (arith, length-insert_all [] (x ∷ s)))
          ∙ rw (listmerge-sorted (x ∷ s) cs, run) refl,
      (
        [] ∷ segs2,
        ap (λ r. [] ∷ r) same,
        (inl refl, i2),
        append-nil (joined segs2) ∙ all ∙ sym (append_assoc (joined segs) (x ∷ s) cs),
      ),
    )

place_all-Returns :
    (rem : List RrLent) (segs : List (List RrLent))
    → IsSlots 0 segs
    → length (joined segs) + length rem < 2 ^ 32
    → Returns (place_all rem (map sorted segs)) (λ tmp.
      (segs2 : List (List RrLent)) × (tmp ≡ map sorted segs2) × (joined segs2 ≡ joined segs ++ rem))
unfolding place_all insert_all insert
place_all-Returns [] segs i h =
    (map sorted segs, refl, (segs, refl, sym (append-nil (joined segs))))
place_all-Returns (x ∷ rem) segs i h =
    let (tmp, run, (segs2, same, i2, all)) =
      place-Returns 0 (x ∷ []) segs (omega arith) i (omega arith) in
    let (tmp3, run3, (segs3, same3, all3)) =
      place_all-Returns rem segs2 i2
        (omega (arith, h, ap length all, length-append (joined segs) (x ∷ []))) in
    (
      tmp3,
      ap (λ r. r >>= λ t. place_all rem t) run ∙ ap (place_all rem) same ∙ run3,
      (segs3, same3, all3 ∙ rw (all) (append_assoc (joined segs) (x ∷ []) rem)),
    )

merge_slots-sorted :
    (cs : List RrLent) (segs : List (List RrLent))
    → merge_slots (sorted cs) (map sorted segs) ≡ sorted (joined segs ++ cs)
unfolding merge_slots
merge_slots-sorted cs [] = refl
merge_slots-sorted cs (s ∷ segs) =
    ap (λ l. merge_slots l (map sorted segs)) (listmerge-sorted s cs)
    ∙ merge_slots-sorted (s ++ cs) segs
    ∙ ap sorted (sym (append_assoc (joined segs) s cs))

merge_all-sorted : (segs : List (List RrLent)) → merge_all (map sorted segs) ≡ sorted (joined segs)
unfolding merge_all insert_all
merge_all-sorted [] = refl
merge_all-sorted (s ∷ segs) = merge_slots-sorted s segs

-- sort_rrl on a list of fewer than 2 ^ 32 nodes returns, without a failed assertion, the stable
-- insertion sort of the list.
pub sort_rrl-sorted : (l : List RrLent) → length l < 2 ^ 32 → sort_rrl l ≡ ok (sorted l)
unfolding sort_rrl insert_all insert
sort_rrl-sorted [] h = refl
sort_rrl-sorted (x ∷ []) h = refl
sort_rrl-sorted (x ∷ y ∷ l) h =
    let (tmp, run, (segs, same, all)) = place_all-Returns (x ∷ y ∷ l) [] _ (omega arith) in
    rw (run) (ap ok (ap merge_all same ∙ merge_all-sorted segs ∙ ap sorted all))

-- Fewer than 2 ^ 32 nodes that insert_rrl appends to an empty list while insert_sort is 0, and that
-- sort_rrl then sorts, are the list that insert_rrl builds of them while insert_sort is 1.
pub sort_rrl-add_all :
    (es : List RrLent)
    → length (add_all false [] es) < 2 ^ 32
    → sort_rrl (add_all false [] es) ≡ ok (add_all true [] es)
unfolding add_all insert_all backwards
sort_rrl-add_all es h =
    sort_rrl-sorted (add_all false [] es) h
    ∙ ap ok (ap sorted (add_all-append [] es) ∙ sym (add_all-insert [] es _))
