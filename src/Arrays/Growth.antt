-- ===== src/Arrays/Growth.antt =====
-- The room that the dynamic arrays have.
use orbot_library.Prelude.{
  ℕ, zero, suc, ◌+◌, ◌-◌, ◌%◌, ◌≤◌, ◌≡◌, ◌≢◌, ◌⊎◌, refl, sym, ap, ◌∙◌, List, [], ◌∷◌, ◌++◌, Bool,
  true, false, ◌&&◌, not, ◌==◌, if◌then◌else◌, Bool-cases, inl, inr, Option, none, some, length,
  length-append, length-take, take-append, take, replicate, arith,
}
use orbot_library.Arrays.{DArray, alloc_nel, da_nel, elems, grows, da_grow1, resized, da_resize}

-- The block has the room that da_resize computes for its number of elements.
abbrev pub IsAllocated {ℓ} : {A : Type ℓ} → Option (DArray A) → Type 0
IsAllocated none = Unit
IsAllocated (some a) = a.nalloc ≡ alloc_nel (length a.elem)

-- The elements stand inside the block.
abbrev pub Inside {ℓ} : {A : Type ℓ} → Option (DArray A) → Type 0
Inside none = Unit
Inside (some a) = length a.elem ≤ a.nalloc

alloc_nel-enough : (n : ℕ) → n ≤ alloc_nel n
unfolding alloc_nel
alloc_nel-enough n = ground arith

alloc_nel-full :
    (n : ℕ)
    → (not (n == 0) && (n % 8 == 0)) ≡ true
    → (alloc_nel n ≡ n) × (alloc_nel (n + 1) ≡ n + 8)
unfolding alloc_nel
alloc_nel-full n h = (ground (arith, h), ground (arith, h))

alloc_nel-free : (n : ℕ) → (not (n == 0) && (n % 8 == 0)) ≡ false → alloc_nel (n + 1) ≡ alloc_nel n
unfolding alloc_nel
alloc_nel-free n h = ground (arith, h)

alloc_nel-one : alloc_nel 1 ≡ 8
unfolding alloc_nel
alloc_nel-one = refl

alloc_nel_positive : (n : ℕ) → 0 ≢ alloc_nel n
unfolding alloc_nel
alloc_nel_positive n = ground arith

module _ {ℓ} {A : Type ℓ} where
  taken : (ys : List A) (x : A) → take (length ys + 1) (ys ++ (x ∷ [])) ≡ ys ++ (x ∷ [])
  taken [] x = refl
  taken (y ∷ ys) x =
      let more : length (y ∷ ys) + 1 ≡ suc (length ys + 1) = omega arith in
      rw (more) (ap (λ zs. y ∷ zs) (taken ys x))

  resized-grown : (xs : List A) (x : A) → resized xs (length xs + 1) x ≡ xs ++ (x ∷ [])
  unfolding resized
  resized-grown xs x =
      let one : length xs + 1 - length xs ≡ 1 = omega arith in rw (one) (taken xs x)

  IsAllocated-Inside : (a : Option (DArray A)) → IsAllocated a → Inside a
  IsAllocated-Inside none h = _
  IsAllocated-Inside (some a) h = omega (arith, h, alloc_nel-enough (length a.elem))

  -- Growth by one element, where the block has its room, is da_resize to one element more: the same
  -- array or NULL, and the same elements cleaned up, with and without memory.
  pub da_grow1-da_resize :
      (room : Bool) (a : Option (DArray A)) (x : A)
      → IsAllocated a
      → da_grow1 room a x ≡ da_resize room a (da_nel a + 1) x
  unfolding da_grow1 da_resize grows da_nel
  da_grow1-da_resize room none x h = rw (alloc_nel-one, resized-grown [] x) refl
  da_grow1-da_resize room (some a) x h =
      elim (Bool-cases (not (length a.elem == 0) && (length a.elem % 8 == 0))) [
        | inl full ↦
            let (old, new) = alloc_nel-full (length a.elem) full in
            let other : (length a.elem + 8 == length a.elem) ≡ false = ground arith in
            rw (full, new, old, other, resized-grown a.elem x) refl
        | inr free ↦
            let same : (alloc_nel (length a.elem) == alloc_nel (length a.elem)) ≡ true =
              ground arith in
            rw (free, alloc_nel-free (length a.elem) free, same, resized-grown a.elem x) refl
      ]

  -- What growth by an element `x` gives: without memory NULL, and every element cleaned up, or the
  -- elements with `x` behind them, inside a block of the size that da_resize expects.
  abbrev pub Grown : Bool → Option (DArray A) → A → Option (DArray A) × List A → Type ℓ
  Grown room a x (none, cleaned) = (room ≡ false) × (cleaned ≡ elems a)
  Grown room a x (some b, cleaned) =
      IsAllocated (some b) × (Inside (some b) × ((b.elem ≡ elems a ++ (x ∷ [])) × (cleaned ≡ [])))

  grown :
      (room : Bool) (a : Option (DArray A)) (x : A) (b : DArray A)
      → IsAllocated (some b)
      → b.elem ≡ elems a ++ (x ∷ [])
      → Grown room a x (some b, [])
  grown room a x b h e = (h, (IsAllocated-Inside (some b) h, (e, refl)))

  -- Growth by one element of an array whose block has its size gives NULL only without memory, and
  -- then every element has been cleaned up; else it gives the elements with the new one behind them,
  -- all inside the block, which has its size again.
  pub da_grow1-Grown :
      (room : Bool) (a : Option (DArray A)) (x : A)
      → IsAllocated a
      → Grown room a x (da_grow1 room a x)
  unfolding da_grow1 grows
  da_grow1-Grown true none x h = grown true none x _ (sym alloc_nel-one) refl
  da_grow1-Grown false none x h = (refl, refl)
  da_grow1-Grown room (some a) x h =
      elim (Bool-cases (not (length a.elem == 0) && (length a.elem % 8 == 0))) [
        | inl full ↦ rw (full) (with_memory room full)
        | inr free ↦ rw (free) (
            grown room (some a) x (record { elem = a.elem ++ (x ∷ []); nalloc = a.nalloc })
              (h
                ∙ sym (alloc_nel-free (length a.elem) free)
                ∙ ap alloc_nel (sym (length-append a.elem (x ∷ []))))
              refl)
      ]
    where
      with_memory :
          (r : Bool)
          → (not (length a.elem == 0) && (length a.elem % 8 == 0)) ≡ true
          → Grown r (some a) x (
              if r
              then (some (record { elem = a.elem ++ (x ∷ []); nalloc = length a.elem + 8 }), [])
              else (none, a.elem))
      with_memory true full =
          grown true (some a) x (record { elem = a.elem ++ (x ∷ []); nalloc = length a.elem + 8 })
            (sym ((alloc_nel-full (length a.elem) full).1)
              ∙ ap alloc_nel (sym (length-append a.elem (x ∷ []))))
            refl
      with_memory false full = (refl, refl)

  length-replicated : (n : ℕ) (x : A) → length (replicate n x) ≡ n
  length-replicated zero x = refl
  length-replicated (suc n) x = ap suc (length-replicated n x)

  length-resized : (xs : List A) (n : ℕ) (x : A) → length (resized xs n x) ≡ n
  unfolding resized
  length-resized xs n x = omega (
    arith,
    length-take n (xs ++ replicate (n - length xs) x),
    length-append xs (replicate (n - length xs) x),
    length-replicated (n - length xs) x,
  )

  -- The room of the block in elements, 0 where there is none.
  abbrev pub capacity : Option (DArray A) → ℕ
  capacity none = 0
  capacity (some a) = a.nalloc

  -- What da_resize to `n` elements gives: NULL where the block must change its size, without memory,
  -- with every element cleaned up; or `n` elements inside a block of the size that da_resize expects,
  -- of which the first are the old ones as far as they go, where there was memory or the block has
  -- stayed, and nothing cleaned up.
  abbrev pub Resized : Bool → Option (DArray A) → ℕ → Option (DArray A) × List A → Type ℓ
  Resized room a n (none, cleaned) =
      (room ≡ false) × ((capacity a ≢ alloc_nel n) × (cleaned ≡ elems a))
  Resized room a n (some b, cleaned) =
      IsAllocated (some b)
      × (Inside (some b)
          × ((length b.elem ≡ n)
              × ((take (length (elems a)) b.elem ≡ take n (elems a))
                  × (((room ≡ true) ⊎ (capacity a ≡ b.nalloc)) × (cleaned ≡ [])))))

  take-resized : (xs : List A) (n : ℕ) (x : A) → take (length xs) (resized xs n x) ≡ take n xs
  unfolding resized
  take-resized [] zero x = refl
  take-resized [] (suc n) x = refl
  take-resized (y ∷ xs) zero x = refl
  take-resized (y ∷ xs) (suc n) x =
      let less : suc n - suc (length xs) ≡ n - length xs = omega arith in
      rw (less) (ap (λ zs. y ∷ zs) (take-resized xs n x))

  resized_block :
      (room : Bool) (a : Option (DArray A)) (n : ℕ) (x : A) (nalloc : ℕ)
      → nalloc ≡ alloc_nel n
      → (room ≡ true) ⊎ (capacity a ≡ nalloc)
      → Resized room a n (some (record { elem = resized (elems a) n x; nalloc = nalloc }), [])
  resized_block room a n x nalloc e m =
      let size : nalloc ≡ alloc_nel (length (resized (elems a) n x)) =
        e ∙ ap alloc_nel (sym (length-resized (elems a) n x)) in
      (
        size,
        (
          IsAllocated-Inside (some (record { elem = resized (elems a) n x; nalloc = nalloc })) size,
          (length-resized (elems a) n x, (take-resized (elems a) n x, (m, refl))),
        ),
      )

  -- da_resize of an array whose block has its size gives NULL exactly where the block must change its
  -- size and there is no memory, with every element cleaned up; else it gives `n` elements inside a
  -- block of their size, of which the first are the old ones as far as they go, and cleans up none.
  pub da_resize-Resized :
      (room : Bool) (a : Option (DArray A)) (n : ℕ) (x : A)
      → IsAllocated a
      → Resized room a n (da_resize room a n x)
  unfolding da_resize
  da_resize-Resized true none n x h = resized_block true none n x (alloc_nel n) refl (inl refl)
  da_resize-Resized false none n x h = (refl, (alloc_nel_positive n, refl))
  da_resize-Resized room (some a) n x h =
      by_size (alloc_nel n == alloc_nel (length a.elem)) refl room
    where
      by_size :
          (b : Bool)
          → (alloc_nel n == alloc_nel (length a.elem)) ≡ b
          → (r : Bool)
          → Resized r (some a) n (
              if not b
              then (if r
                  then (some (record { elem = resized a.elem n x; nalloc = alloc_nel n }), [])
                  else (none, a.elem))
              else (some (record { elem = resized a.elem n x; nalloc = a.nalloc }), []))
      by_size true e r = resized_block r (some a) n x a.nalloc (ground (arith, e, h)) (inr refl)
      by_size false e true = resized_block true (some a) n x (alloc_nel n) refl (inl refl)
      by_size false e false = (refl, ((λ same. ground (arith, e, h, same)), refl))

  take-long : (k : ℕ) (ys : List A) → length ys ≤ k → take k ys ≡ ys
  take-long zero [] h = refl
  take-long zero (y ∷ ys) h = elim h [ ]
  take-long (suc k) [] h = refl
  take-long (suc k) (y ∷ ys) h = ap (λ zs. y ∷ zs) (take-long k ys (omega arith))

  -- Shrunk by an element, the array has the elements that stood before the last one.
  pub Resized-elem :
      (room : Bool) (xs : List A) (y : A) (a b : DArray A) (cleaned : List A)
      → a.elem ≡ xs ++ (y ∷ [])
      → Resized room (some a) (length xs) (some b, cleaned)
      → b.elem ≡ xs
  Resized-elem room xs y a b cleaned e (block, (inside, (size, (kept, rest)))) =
      sym (
        take-long (length a.elem) b.elem
          (omega (arith, size, ap length e, length-append xs (y ∷ []))))
      ∙ kept
      ∙ ap (take (length xs)) e
      ∙ take-append xs (y ∷ [])
