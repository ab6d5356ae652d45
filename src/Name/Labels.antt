-- ===== src/Name/Labels.antt =====
-- What a name in length-byte notation stands for: the list of its labels.
use orbot_library.Prelude.{
  ℕ, zero, suc, ◌≤◌, ◌<◌, ◌≡◌, refl, List, [], ◌∷◌, ◌++◌, arith, length, All, drop, drop-append,
  length-append, append_assoc,
}

-- A label of the standard length.
abbrev pub IsLabel : List ℕ → Type 0
IsLabel l = (0 < length l) × (length l ≤ 63)

abbrev pub IsName : List (List ℕ) → Type 0
IsName = All IsLabel

-- The bytes of a name: each label behind its length, and a zero byte.
abbrev pub wire : List (List ℕ) → List ℕ
wire [] = 0 ∷ []
wire (l ∷ ls) = length l ∷ (l ++ wire ls)

-- The length bytes and labels, without the zero byte.
abbrev pub segments : List (List ℕ) → List ℕ
segments [] = []
segments (l ∷ ls) = length l ∷ (l ++ segments ls)

pub wire-segments : (ls : List (List ℕ)) → wire ls ≡ segments ls ++ (0 ∷ [])
wire-segments [] = refl
wire-segments (l ∷ ls) = rw (wire-segments ls, append_assoc)

pub length-lt-wire : (ls : List (List ℕ)) → length ls < length (wire ls)
length-lt-wire [] = omega arith
length-lt-wire (l ∷ ls) = omega (arith, length-lt-wire ls, length-append l (wire ls))

-- Past the first label of a name, that something follows, stands the rest of the name.
pub drop-wire :
    (l : List ℕ) (ls : List (List ℕ)) (rest : List ℕ)
    → drop (length l) ((l ++ wire ls) ++ rest) ≡ wire ls ++ rest
drop-wire l ls rest = rw append_assoc (drop-append l (wire ls ++ rest))

pub IsName-drop : (k : ℕ) (ls : List (List ℕ)) → IsName ls → IsName (drop k ls)
IsName-drop zero ls h = h
IsName-drop (suc k) [] h = tt
IsName-drop (suc k) (l ∷ ls) h = IsName-drop k ls h.1

pub length-wire-pos : (ls : List (List ℕ)) → 0 < length (wire ls)
length-wire-pos [] = omega arith
length-wire-pos (l ∷ ls) = omega arith

pub drop-length {ℓ} : {A : Type ℓ} (xs : List A) → drop (length xs) xs ≡ []
drop-length [] = refl
drop-length (x ∷ xs) = drop-length xs
