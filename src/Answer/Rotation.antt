-- ===== src/Answer/Rotation.antt =====
-- The order of the records of an RR set in an answer, for the loops of pdnsd/src/dns_answer.c.
use orbot_library.Prelude.{
  ℕ, zero, suc, ◌<◌, ◌≤◌, ◌%◌, ◌≡◌, refl, ◌∙◌, sym, subst, List, [], ◌∷◌, ◌++◌, Bool, true, false,
  ◌==◌, Option, none, some, Run, ok, halt, length, take, drop, arith, length-append, ==-refl,
  take-append-drop, length-drop,
}
use orbot_library.Answer.{◌>>=◌}
use orbot_library.Answer.Rounds.{wrapped, around, each, visit, randrr}

-- The records from the one at `k` on, and behind the last those before it.
unfoldable pub in_order {ℓ} : {A : Type ℓ} → Bool → ℕ → List A → List A
in_order false random rrs = rrs
in_order true random [] = []
in_order true random (x ∷ xs) =
    drop (random % length (x ∷ xs)) (x ∷ xs) ++ take (random % length (x ∷ xs)) (x ∷ xs)

module _ {ℓ κ} {A : Type ℓ} {S : Type κ} (body : A → S → Run (Option S)) where
  differs : (a b : ℕ) → b < a → (a == b) ≡ false
  differs a b h = ground arith

  differs_below : (a b : ℕ) → a < b → (a == b) ≡ false
  differs_below a b h = ground arith

  -- A round that ends the loop, and one that goes on.
  last_round :
      (fuel : ℕ) (rrs : List A) (first : ℕ) (x : A) (xs : List A) (s : S)
      → length (wrapped rrs xs) ≡ first
      → around body (suc fuel) rrs first (x ∷ xs) s ≡ body x s >>= λ s2. ok (some s2)
  unfolding around
  last_round fuel rrs first x xs s e = rw (e, ==-refl first)

  next_round :
      (fuel : ℕ) (rrs : List A) (first : ℕ) (x : A) (xs : List A) (s : S)
      → (length (wrapped rrs xs) == first) ≡ false
      → around body (suc fuel) rrs first (x ∷ xs) s
        ≡ body x s >>= λ s2. around body fuel rrs first (wrapped rrs xs) s2
  unfolding around
  next_round fuel rrs first x xs s e = rw e

  same_next :
      (r : Run (Option S)) (f g : S → Run (Option S)) → ((s : S) → f s ≡ g s) → r >>= f ≡ r >>= g
  same_next (halt why) f g e = refl
  same_next (ok none) f g e = refl
  same_next (ok (some s)) f g e = e s

  each-tail :
      (x : A) (xs : List A) (s : S) → each body (x ∷ xs) s ≡ body x s >>= λ s2. each body xs s2
  unfolding each
  each-tail x xs s = refl

  each-nil : (s : S) → each body [] s ≡ ok (some s)
  unfolding each
  each-nil s = refl

  -- From a record before the first one on, the loop ends before the first one.
  around-front :
      (fuel : ℕ) (rrs : List A) (y : A) (p : List A) (z : A) (d : List A) (s : S)
      → length p < fuel
      → around body fuel rrs (length (z ∷ d)) (y ∷ (p ++ (z ∷ d))) s ≡ each body (y ∷ p) s
  unfolding wrapped
  around-front zero rrs y p z d s h = elim h [ ]
  around-front (suc fuel) rrs y [] z d s h =
      last_round fuel rrs (length (z ∷ d)) y (z ∷ d) s refl
      ∙ same_next (body y s) (λ s2. ok (some s2)) (λ s2. each body [] s2) (λ s2. sym (each-nil s2))
      ∙ sym (each-tail y [] s)
  around-front (suc fuel) rrs y (x ∷ p) z d s h =
      next_round fuel rrs (length (z ∷ d)) y (x ∷ (p ++ (z ∷ d))) s (
        differs (length (x ∷ (p ++ (z ∷ d)))) (length (z ∷ d))
          (omega (arith, length-append p (z ∷ d))))
      ∙ same_next (body y s) (λ s2. around body fuel rrs (length (z ∷ d)) (x ∷ (p ++ (z ∷ d))) s2)
          (λ s2. each body (x ∷ p) s2) (λ s2. around-front fuel rrs x p z d s2 (omega arith))
      ∙ sym (each-tail y (x ∷ p) s)

  -- From a record behind it on, the loop goes on at the head of the chain.
  around-back :
      (fuel : ℕ) (p : List A) (z : A) (d : List A) (y : A) (e : List A) (s : S)
      → length e ≤ length d
      → length (e ++ p) < fuel
      → around body fuel (p ++ (z ∷ d)) (length (z ∷ d)) (y ∷ e) s ≡ each body (y ∷ (e ++ p)) s
  unfolding wrapped
  around-back zero p z d y [] s h f = elim f [ ]
  around-back zero p z d y (x ∷ e) s h f = elim f [ ]
  around-back (suc fuel) [] z d y [] s h f =
      last_round fuel (z ∷ d) (length (z ∷ d)) y [] s refl
      ∙ same_next (body y s) (λ s2. ok (some s2)) (λ s2. each body [] s2) (λ s2. sym (each-nil s2))
      ∙ sym (each-tail y [] s)
  around-back (suc fuel) (x ∷ p) z d y [] s h f =
      next_round fuel (x ∷ (p ++ (z ∷ d))) (length (z ∷ d)) y [] s (
        differs (length (x ∷ (p ++ (z ∷ d)))) (length (z ∷ d))
          (omega (arith, length-append p (z ∷ d))))
      ∙ same_next (body y s)
          (λ s2. around body fuel (x ∷ (p ++ (z ∷ d))) (length (z ∷ d)) (x ∷ (p ++ (z ∷ d))) s2)
          (λ s2. each body (x ∷ p) s2)
          (λ s2. around-front fuel (x ∷ (p ++ (z ∷ d))) x p z d s2 (omega arith))
      ∙ sym (each-tail y (x ∷ p) s)
  around-back (suc fuel) p z d y (x ∷ e) s h f =
      next_round fuel (p ++ (z ∷ d)) (length (z ∷ d)) y (x ∷ e) s
        (differs_below (length (x ∷ e)) (length (z ∷ d)) (omega arith))
      ∙ same_next (body y s) (λ s2. around body fuel (p ++ (z ∷ d)) (length (z ∷ d)) (x ∷ e) s2)
          (λ s2. each body (x ∷ (e ++ p)) s2)
          (λ s2. around-back fuel p z d x e s2 (omega arith) (omega arith))
      ∙ sym (each-tail y (x ∷ (e ++ p)) s)

  -- The loop from any record on, where the chain is the records before it and those from it on.
  around-parts :
      (rrs p : List A) (q : List A) (s : S)
      → p ++ q ≡ rrs
      → 0 < length q
      → around body (length rrs) rrs (length q) q s ≡ each body (q ++ p) s
  around-parts rrs p [] s e h = elim h [ ]
  around-parts rrs p (z ∷ d) s e h =
      subst (λ w. around body (length w) w (length (z ∷ d)) (z ∷ d) s ≡ each body ((z ∷ d) ++ p) s)
        e
        (around-back (length (p ++ (z ∷ d))) p z d z d s (omega arith)
          (omega (arith, length-append p (z ∷ d), length-append d p)))

  remainder : (n m : ℕ) → n % suc m < suc m
  remainder n m = omega arith

  -- The loop over the records, with wraparound from a random record on or without, returns what a run
  -- through them in one pass gives, each record once: from that record to the last, then from the first.
  pub visit-in_order :
      (rnd_recs : Bool) (random : ℕ) (rrs : List A) (s : S)
      → visit rnd_recs random body rrs s ≡ each body (in_order rnd_recs random rrs) s
  unfolding visit in_order randrr
  visit-in_order false random rrs s = refl
  visit-in_order true random [] s = refl
  visit-in_order true random (x ∷ xs) s =
      around-parts (x ∷ xs) (take (random % length (x ∷ xs)) (x ∷ xs))
        (drop (random % length (x ∷ xs)) (x ∷ xs)) s
        (take-append-drop (random % length (x ∷ xs)) (x ∷ xs))
        (omega
          (arith, length-drop (random % length (x ∷ xs)) (x ∷ xs), remainder random (length xs)))
