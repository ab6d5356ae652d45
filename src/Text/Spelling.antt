-- ===== src/Text/Spelling.antt =====
-- The dotted text of a name, and how a text splits at its dots.
use orbot_library.Prelude.{
  ℕ, ◌≡◌, ◌≢◌, ap, List, [], ◌∷◌, ◌++◌, inl, inr, All, ◌==◌, ==_iff, Bool-cases,
}

abbrev pub NoZero : List ℕ → Type 0
NoZero = All (λ c. c ≢ 0)

-- A label that the dotted notation can spell.
abbrev pub IsPlain : List ℕ → Type 0
IsPlain = All (λ c. (c ≢ 0) × (c ≢ b'.'))

-- Each label with a dot behind it.
abbrev pub spelled : List (List ℕ) → List ℕ
spelled [] = []
spelled (l ∷ ls) = l ++ (b'.' ∷ spelled ls)

-- The dotted text of a name; the root is a dot.
abbrev pub dotted : List (List ℕ) → List ℕ
dotted [] = b'.' ∷ []
dotted (l ∷ ls) = spelled (l ∷ ls)

-- A text without zero bytes begins with a label that ends it or that a dot follows.
pub data Split (t : List ℕ) : Type 0 where
  last : IsPlain t → Split t
  dot : (l t' : List ℕ) → IsPlain l → NoZero t' → t ≡ l ++ (b'.' ∷ t') → Split t

pub Split-text : (t : List ℕ) → NoZero t → Split t
Split-text [] h = last tt
Split-text (c ∷ t) h = elim (Bool-cases (c == b'.')) [
  | inl e ↦ dot [] t tt h.1 (ap (λ x. x ∷ t) ((==_iff _ _).0 e))
  | inr ne ↦ elim (Split-text t h.1) [
    | last p ↦ last ((h.0, λ e. cc (ne, (==_iff c b'.').1 e)), p)
    | dot l t' p z e ↦
        dot (c ∷ l) t' ((h.0, λ d. cc (ne, (==_iff c b'.').1 d)), p) z (ap (λ x. c ∷ x) e)
  ]
]
