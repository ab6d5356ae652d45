-- ===== src/Text/ToName.antt =====
-- str2rhn on every text that a zero byte ends: it stays inside its buffers, returns, and accepts
-- exactly the dotted texts of names, whose encoding it writes.
use orbot_library.Prelude.{
  ℕ, suc, ◌≤◌, ◌<◌, ◌≡◌, ◌≢◌, refl, ap, ◌∙◌, ◌↔◌, List, [], ◌∷◌, ◌++◌, ◌⊎◌, inl, inr, arith, length,
  All, ◌==◌, ==_iff, Bool-cases, Bool, true, false, ok, drop, length-append, length-drop, read,
  write,
}
use orbot_library.Name.Labels.{IsName, wire}
use orbot_library.Text.{str2rhn_loop, str2rhn}
use orbot_library.Text.Spelling.{NoZero, IsPlain, spelled, dotted}
use orbot_library.Text.Loop.{Accepts, loop-Sound, loop_complete}

ne_dot : (c : ℕ) → c ≢ b'.' → (c == b'.') ≡ false
ne_dot c h = ground (arith, h)

-- Every text but "." goes through the outer loop.
str2rhn_general :
    (t post rhn : List ℕ)
    → NoZero t
    → t ≢ b'.' ∷ []
    → str2rhn (t ++ (0 ∷ post)) rhn
      ≡ str2rhn_loop (suc (length (t ++ (0 ∷ post)))) (t ++ (0 ∷ post)) 0 rhn
unfolding str2rhn read
str2rhn_general [] post rhn z ne = refl
str2rhn_general (c ∷ []) post rhn z ne =
    let other : (c == b'.') ≡ false = ne_dot c (λ e. ne (ap (λ x. x ∷ []) e)) in rw other
str2rhn_general (c ∷ d ∷ t) post rhn z ne =
    let more : (d == 0) ≡ false = ground (arith, z.1.0) in
    elim (Bool-cases (c == b'.')) [ inl e ↦ rw (e, more) | inr e ↦ rw e ]

str2rhn_root :
    (post rhn : List ℕ)
    → 256 ≤ length rhn
    → str2rhn (b'.' ∷ 0 ∷ post) rhn ≡ ok (true, 0 ∷ drop 1 rhn)
unfolding str2rhn read write
str2rhn_root post [] h = absurd (omega arith)
str2rhn_root post (x ∷ rhn) h = refl

length-spelled : (ls : List (List ℕ)) → length ls ≤ length (spelled ls)
length-spelled [] = omega arith
length-spelled (l ∷ ls) = omega (arith, length-spelled ls, length-append l (b'.' ∷ spelled ls))

fuel_suffices :
    (ls : List (List ℕ)) (post : List ℕ) → length ls < suc (length (spelled ls ++ (0 ∷ post)))
fuel_suffices ls post = omega (arith, length-spelled ls, length-append (spelled ls) (0 ∷ post))

IsDot_cases : (t : List ℕ) → (t ≡ b'.' ∷ []) ⊎ (t ≢ b'.' ∷ [])
IsDot_cases [] = inr (λ e. cc)
IsDot_cases (c ∷ d ∷ t) = inr (λ e. cc)
IsDot_cases (c ∷ []) = elim (Bool-cases (c == b'.')) [
  | inl e ↦ inl (ap (λ x. x ∷ []) ((==_iff _ _).0 e))
  | inr ne ↦ inr (λ e. ground arith)
]

spelled-ne-dot : (ls : List (List ℕ)) → IsName ls → spelled ls ≢ b'.' ∷ []
spelled-ne-dot [] n e = cc
spelled-ne-dot ([] ∷ ls) n e = omega arith
spelled-ne-dot ((c ∷ []) ∷ ls) n e = cc
spelled-ne-dot ((c ∷ d ∷ l) ∷ ls) n e = cc

NoZero-spelled : (ls : List (List ℕ)) → All IsPlain ls → NoZero (spelled ls)
NoZero-spelled [] p = tt
NoZero-spelled ([] ∷ ls) p = ((λ e. omega arith), NoZero-spelled ls p.1)
NoZero-spelled ((c ∷ l) ∷ ls) p = (p.0.0.0, NoZero-spelled (l ∷ ls) (p.0.1, p.1))

-- The dotted text of a name of at most 256 bytes converts, into the encoding of the name, and the
-- rest of the buffer is left as it was.
pub str2rhn-dotted :
    (ls : List (List ℕ)) (post rhn : List ℕ)
    → IsName ls
    → All IsPlain ls
    → length (wire ls) ≤ 256
    → 256 ≤ length rhn
    → str2rhn (dotted ls ++ (0 ∷ post)) rhn ≡ ok (true, wire ls ++ drop (length (wire ls)) rhn)
str2rhn-dotted [] post rhn n p fits room = str2rhn_root post rhn room
str2rhn-dotted (l ∷ ls) post rhn n p fits room =
    str2rhn_general (spelled (l ∷ ls)) post rhn (NoZero-spelled (l ∷ ls) p)
      (spelled-ne-dot (l ∷ ls) n)
    ∙ loop_complete _ (l ∷ ls) post [] rhn 0 refl n p (omega arith) (omega arith) (omega arith)
        (fuel_suffices (l ∷ ls) post)

-- The dotted text of labels of 1 to 63 bytes whose encoding takes at most 256 bytes.
abbrev pub Encodable : List ℕ → Type 0
Encodable t =
    (ls : List (List ℕ)) × IsName ls × All IsPlain ls × (t ≡ dotted ls) × (length (wire ls) ≤ 256)

nonroot : (t done free out : List ℕ) → Accepts 0 t done free out → Encodable t
nonroot t done free out ([], n, p, e, pos, fits, eo) = absurd (omega arith)
nonroot t done free out (l ∷ ls, n, p, e, pos, fits, eo) = (l ∷ ls, n, p, e, omega arith)

Encodable-accepted :
    (t post rhn out : List ℕ) (b : Bool)
    → 256 ≤ length rhn
    → str2rhn (t ++ (0 ∷ post)) rhn ≡ ok (b, out)
    → Encodable t
    → b ≡ true
Encodable-accepted t post rhn out b room run (ls, n, p, e, fits) =
    cc (run, e, str2rhn-dotted ls post rhn n p fits room)

-- A text that a zero byte ends, and a buffer of at least 256 bytes: str2rhn reads and writes inside
-- them, returns, and returns 1 exactly when the text is the dotted text of labels of 1 to 63 bytes
-- whose encoding takes at most 256 bytes.
pub str2rhn_iff :
    (t post rhn : List ℕ)
    → NoZero t
    → 256 ≤ length rhn
    → (b : Bool) × (out : List ℕ) × (str2rhn (t ++ (0 ∷ post)) rhn ≡ ok (b, out))
      × (length out ≡ length rhn)
      × ((b ≡ true) ↔ Encodable t)
str2rhn_iff t post rhn z room = elim (IsDot_cases t) [
  | inl e ↦ rw e (
    true,
    0 ∷ drop 1 rhn,
    str2rhn_root post rhn room,
    omega (arith, length-drop 1 rhn),
    (λ _. ([], tt, tt, refl, omega arith), λ _. refl),
  )
  | inr ne ↦
      let (b, out, run, size, spells) =
        loop-Sound (suc (length (t ++ (0 ∷ post)))) t post [] rhn 0 refl z
          (omega (arith, length-append t (0 ∷ post))) (omega arith) (omega arith) in
      let whole = str2rhn_general t post rhn z ne ∙ run in
      (
        b,
        out,
        whole,
        omega arith,
        (λ e. nonroot t [] rhn out (spells e), Encodable-accepted t post rhn out b room whole),
      )
]
