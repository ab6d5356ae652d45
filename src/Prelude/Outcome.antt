-- ===== src/Prelude/Outcome.antt =====
-- Outcomes of C code: a value, or a halt for a reason that no C value describes.
use mathlib.Core.Path.{◌≡◌, refl, ap}
use mathlib.Core.Bool.{Bool, true, false}
use orbot_library.Prelude.Tests.{if◌then◌else◌}
use mathlib.Core.List.{List, [], ◌∷◌, ◌++◌}
use Prim.Native.Nat.{ℕ, zero, suc, ◌≤◌, ◌<◌}
use native.Mathlib.Omega.{arith}
use orbot_library.Prelude.Lists.{length, set, drop}

-- `out_of_bounds` is a read or write outside an object, `assertion` a PDNSD_ASSERT that fails,
-- and `no_fuel` a loop of the model whose bound was too small, which no run of the C code is.
pub data Halt : Type 0 where
  out_of_bounds assertion no_fuel : Halt

pub data Run {ℓ} (A : Type ℓ) : Type ℓ where
  ok : A → Run A
  halt : Halt → Run A

-- What follows a part of the code that may halt.
infixl 5 ◌>>=◌
abbrev pub ◌>>=◌ {κ ℓ} : {S : Type κ} {T : Type ℓ} (part : Run S) (next : S → Run T) → Run T
◌>>=◌ (halt why) next = halt why
◌>>=◌ (ok s) next = next s

-- The run ends normally, in a value that satisfies `P`.
abbrev pub Returns {κ μ} : {V : Type κ} (run : Run V) (Post : V → Type μ) → Type (κ ⊔ μ)
Returns {V} run Post = (v : V) × (run ≡ ok v) × Post v

-- `a[i]`, faulting outside the object.
unfoldable pub read {ℓ} : {A : Type ℓ} → List A → ℕ → Run A
read [] i = halt out_of_bounds
read (x ∷ xs) zero = ok x
read (x ∷ xs) (suc i) = read xs i

-- `a[i] = v`, faulting outside the object.
unfoldable pub write {ℓ} : {A : Type ℓ} (buffer : List A) (i : ℕ) (v : A) → Run (List A)
write [] i v = halt out_of_bounds
write (x ∷ xs) zero v = ok (v ∷ xs)
write (x ∷ xs) (suc i) v = write xs i v >>= λ r. ok (x ∷ r)

module _ {ℓ} {A : Type ℓ} where
  pub write-ok : (xs : List A) (i : ℕ) (v : A) → i < length xs → write xs i v ≡ ok (set xs i v)
  unfolding write
  write-ok [] i v h = elim h [ ]
  write-ok (x ∷ xs) zero v h = refl
  write-ok (x ∷ xs) (suc i) v h = rw (write-ok xs i v (omega arith))

  pub write-append :
      (xs : List A) (y v : A) (ys : List A)
      → write (xs ++ (y ∷ ys)) (length xs) v ≡ ok (xs ++ (v ∷ ys))
  unfolding write
  write-append [] y v ys = refl
  write-append (x ∷ xs) y v ys = rw (write-append xs y v ys)

  pub read-append : (xs : List A) (y : A) (ys : List A) → read (xs ++ (y ∷ ys)) (length xs) ≡ ok y
  unfolding read
  read-append [] y ys = refl
  read-append (x ∷ xs) y ys = read-append xs y ys

  -- A read at an index inside the object.
  pub read-Returns : (xs : List A) (i : ℕ) → i < length xs → (v : A) × (read xs i ≡ ok v)
  unfolding read
  read-Returns [] i h = elim h [ ]
  read-Returns (x ∷ xs) zero h = (x, refl)
  read-Returns (x ∷ xs) (suc i) h = read-Returns xs i (omega arith)

  pub read-outside : (xs : List A) (i : ℕ) → length xs ≤ i → read xs i ≡ halt out_of_bounds
  unfolding read
  read-outside [] i h = refl
  read-outside (x ∷ xs) zero h = absurd (omega arith)
  read-outside (x ∷ xs) (suc i) h = read-outside xs i (omega arith)

pub ok-injective {ℓ} : {A : Type ℓ} {a b : A} → ◌≡◌ {A = Run A} (ok a) (ok b) → a ≡ b
ok-injective {a = a} h = ap (λ r. elim r [ ok x ↦ x | halt _ ↦ a ]) h

-- A write right behind the part `xs` of the object, whose rest `ys` is not empty.
pub write-append_pos {ℓ} :
    {A : Type ℓ} (xs ys : List A) (v : A) (i : ℕ)
    → length xs ≡ i
    → 0 < length ys
    → write (xs ++ ys) i v ≡ ok (xs ++ (v ∷ drop 1 ys))
write-append_pos xs [] v i e h = elim h [ ]
write-append_pos xs (y ∷ ys) v i e h = rw (← e) (write-append xs y v ys)

module _ {ℓ κ} {A : Type ℓ} (P : A → Type κ) where
  -- A test that ends the run at `x`, where that is allowed.
  pub Returns-unless :
      (b : Bool) {x : A} {r : Run A}
      → P x
      → (b ≡ false → Returns r P)
      → Returns (if b then ok x else r) P
  Returns-unless true {x} h k = (x, refl, h)
  Returns-unless false h k = k refl

  -- A test between two runs.
  pub Returns-if :
      (b : Bool) {q r : Run A}
      → (b ≡ true → Returns q P)
      → (b ≡ false → Returns r P)
      → Returns (if b then q else r) P
  Returns-if true h k = h refl
  Returns-if false h k = k refl

  -- A run behind a part that is known to end.
  pub Returns->>= {μ} :
      {B : Type μ} {m : Run B} {b : B} (f : B → Run A)
      → m ≡ ok b
      → Returns (f b) P
      → Returns (m >>= f) P
  Returns->>= f e (a, run, h) = (a, rw e run, h)
