-- ===== src/Hash/Names.antt =====
-- dns_hash on names.
use orbot_library.Prelude.{
  ℕ, zero, suc, ◌<◌, ◌≡◌, refl, false, Returns, ap, List, [], ◌∷◌, ◌++◌, map, ok, arith, length,
  length-append, append_assoc, ◌%◌, ◌==◌,
}
use orbot_library.Name.{to_lower}
use orbot_library.Name.Labels.{IsName, wire, length-lt-wire}
use orbot_library.Name.Caseless.{fold_case}
use orbot_library.Hash.{to_upper, HashState, mix, hash_label, hash_loop, fold_sum, dns_hash}

to_upper-to_lower : (x y : ℕ) → to_lower x ≡ to_lower y → to_upper x ≡ to_upper y
unfolding to_upper to_lower
to_upper-to_lower x y h = ground (arith, h)

-- The sums over a label, and over a name.
mix_label : ℕ → HashState → List ℕ → HashState
mix_label bits h [] = h
mix_label bits h (c ∷ l) = mix_label bits (mix bits h (to_upper c)) l

mix_name : ℕ → HashState → List (List ℕ) → HashState
mix_name bits h [] = h
mix_name bits h (l ∷ ls) = mix_name bits (mix_label bits (mix bits h (length l)) l) ls

hash_label-append :
    (bits : ℕ) (l rest : List ℕ) (h : HashState)
    → hash_label bits (length l) (l ++ rest) h ≡ ok (mix_label bits h l, rest)
unfolding hash_label mix_label
hash_label-append bits [] rest h = refl
hash_label-append bits (c ∷ l) rest h = hash_label-append bits l rest (mix bits h (to_upper c))

nonzero : (n : ℕ) → (suc n == 0) ≡ false
nonzero n = ground arith

hash_loop-wire :
    (bits : ℕ) (ls : List (List ℕ)) (rest : List ℕ) (fuel : ℕ) (h : HashState)
    → IsName ls
    → length ls < fuel
    → hash_loop bits fuel (wire ls ++ rest) h ≡ ok (mix_name bits h ls)
unfolding hash_loop mix_name
hash_loop-wire bits ls rest zero h n f = elim f [ ]
hash_loop-wire bits [] rest (suc fuel) h n f = refl
hash_loop-wire bits ([] ∷ ls) rest (suc fuel) h n f = absurd (omega (arith, n.0.0))
hash_loop-wire bits ((c ∷ l) ∷ ls) rest (suc fuel) h n f =
    rw
      (
        append_assoc,
        hash_label-append bits (c ∷ l) (wire ls ++ rest) (mix bits h (length (c ∷ l))),
        nonzero (length l),
      )
      (hash_loop-wire bits ls rest fuel (mix_label bits (mix bits h (length (c ∷ l))) (c ∷ l)) n.1
        (omega arith))

head : List ℕ → ℕ
head [] = 0
head (x ∷ xs) = x

tail {ℓ} : {A : Type ℓ} → List A → List A
tail [] = []
tail (x ∷ xs) = xs

mix_label-case :
    (bits : ℕ) (h : HashState) (a b : List ℕ)
    → map to_lower a ≡ map to_lower b
    → mix_label bits h a ≡ mix_label bits h b
unfolding mix_label head tail
mix_label-case bits h [] [] e = refl
mix_label-case bits h [] (y ∷ b) e = cc
mix_label-case bits h (x ∷ a) [] e = cc
mix_label-case bits h (x ∷ a) (y ∷ b) e =
    rw (to_upper-to_lower x y (ap head e))
      (mix_label-case bits (mix bits h (to_upper y)) a b (ap tail e))

length-case : (a b : List ℕ) → map to_lower a ≡ map to_lower b → length a ≡ length b
unfolding tail
length-case [] [] e = refl
length-case [] (y ∷ b) e = cc
length-case (x ∷ a) [] e = cc
length-case (x ∷ a) (y ∷ b) e = ap suc (length-case a b (ap tail e))

first_label : List (List ℕ) → List ℕ
first_label [] = []
first_label (l ∷ ls) = l

mix_name-case :
    (bits : ℕ) (h : HashState) (xs ys : List (List ℕ))
    → fold_case xs ≡ fold_case ys
    → mix_name bits h xs ≡ mix_name bits h ys
unfolding mix_name first_label tail
mix_name-case bits h [] [] e = refl
mix_name-case bits h [] (y ∷ ys) e = cc
mix_name-case bits h (x ∷ xs) [] e = cc
mix_name-case bits h (x ∷ xs) (y ∷ ys) e =
    let same : map to_lower x ≡ map to_lower y = ap first_label e in
    rw (length-case x y same, mix_label-case bits (mix bits h (length y)) x y same)
      (mix_name-case bits (mix_label bits (mix bits h (length y)) y) xs ys (ap tail e))

fold_sum-bound : (s : ℕ) → fold_sum (fold_sum s) % 1024 < 1024
unfolding fold_sum
fold_sum-bound s = omega arith

-- dns_hash of a name returns, whatever follows the name, the bucket is one of the 1024, and a name
-- that is the same up to the case of ASCII letters has the same bucket and the same long hash.
pub dns_hash-fold_case :
    (bits : ℕ) (xs ys : List (List ℕ)) (r s : List ℕ)
    → IsName xs
    → IsName ys
    → fold_case xs ≡ fold_case ys
    → Returns
        (dns_hash bits (wire xs ++ r))
        (λ h. (h.0 < 1024) × (dns_hash bits (wire ys ++ s) ≡ ok h))
unfolding dns_hash
dns_hash-fold_case bits xs ys r s nx ny e =
    let start : HashState = record { i = 0; s = 0; r = 0 } in
    let end = mix_name bits start xs in
    (
      (fold_sum (fold_sum end.s) % 1024, end.r),
      rw
          (hash_loop-wire bits xs r (suc (length (wire xs ++ r))) start nx
            (omega (arith, length-lt-wire xs, length-append (wire xs) r)))
          refl,
      (
        fold_sum-bound end.s,
        rw
            (
              hash_loop-wire bits ys s (suc (length (wire ys ++ s))) start ny
                  (omega (arith, length-lt-wire ys, length-append (wire ys) s)),
              mix_name-case bits start xs ys e,
            )
            refl,
      ),
    )
