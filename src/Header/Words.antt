-- ===== src/Header/Words.antt =====
-- Reading numbers back.
use orbot_library.Prelude.{
  ℕ, zero, suc, ◌+◌, ◌*◌, ◌/◌, ◌%◌, ◌<◌, ◌≤◌, ◌≡◌, refl, ap, ◌∙◌, List, [], ◌∷◌, ◌++◌, ok, read,
  read-Returns, length, arith,
}
use orbot_library.Header.{get_int16, get_int32, put_int16}

-- A read inside the message returns.
pub get_int16-Returns :
    (msg : List ℕ) (p : ℕ) → p + 2 ≤ length msg → (v : ℕ) × (get_int16 msg p ≡ ok v)
unfolding get_int16
get_int16-Returns msg p h =
    let (hi, e) = read-Returns msg p (omega arith) in
    let (lo, f) = read-Returns msg (p + 1) (omega arith) in (hi * 256 + lo, rw (e, f) refl)

pub get_int32-Returns :
    (msg : List ℕ) (p : ℕ) → p + 4 ≤ length msg → (v : ℕ) × (get_int32 msg p ≡ ok v)
unfolding get_int32
get_int32-Returns msg p h =
    let (hi, e) = get_int16-Returns msg p (omega arith) in
    let (lo, f) = get_int16-Returns msg (p + 2) (omega arith) in (hi * 65536 + lo, simp (e, f) refl)

-- A byte behind a part of the message.
pub read-skip : (xs ys : List ℕ) (i k : ℕ) → i ≡ length xs + k → read (xs ++ ys) i ≡ read ys k
unfolding read
read-skip [] ys i k e = ap (read ys) (e ∙ omega arith)
read-skip (x ∷ xs) ys zero k e = absurd (omega (arith, e))
read-skip (x ∷ xs) ys (suc i) k e = read-skip xs ys i k (omega (arith, e))

-- What PUTINT16 has stored behind a part of the message is read back by GETINT16.
pub get_int16-put_int16 :
    (xs ys : List ℕ) (p s : ℕ)
    → s < 65536
    → p ≡ length xs
    → get_int16 (xs ++ (put_int16 s ++ ys)) p ≡ ok s
unfolding get_int16 put_int16 read
get_int16-put_int16 xs ys p s h e =
    let parts : s / 256 % 256 * 256 + s % 256 ≡ s = omega arith in
    rw
      (
        read-skip xs (put_int16 s ++ ys) p 0 (omega (arith, e)),
        read-skip xs (put_int16 s ++ ys) (p + 1) 1 (omega (arith, e)),
        parts,
      )
      refl
