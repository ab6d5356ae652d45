-- ===== src/Text/Loop.antt =====
-- The outer loop of str2rhn on any text: it returns, and what it accepts is a dotted text.
use orbot_library.Prelude.{
  ℕ, zero, suc, ◌+◌, ◌≤◌, ◌<◌, ◌≡◌, refl, ap, ◌∙◌, List, [], ◌∷◌, ◌++◌, inl, inr, arith, length,
  All, Bool-cases, Bool, true, false, ok, drop, append_assoc, length-append, length-drop, drop-add,
  leb, leb→le,
}
use orbot_library.Name.Labels.{IsName, wire, length-wire-pos}
use orbot_library.Text.{label_limit, str2rhn_loop}
use orbot_library.Text.Spelling.{NoZero, IsPlain, spelled, last, dot, Split-text}
use orbot_library.Text.Rounds.{
  label_limit_bounds, label_limit-ge, round_last, round_dot, round_long, round_end, round_empty,
}

-- What an accepted text has been turned into.
abbrev pub Accepts : ℕ → List ℕ → List ℕ → List ℕ → List ℕ → Type 0
Accepts i t done free out =
    (ls : List (List ℕ)) × IsName ls
    × All IsPlain ls
    × (t ≡ spelled ls)
    × (0 < i + length ls)
    × (i + length (wire ls) ≤ 256)
    × (out ≡ done ++ (wire ls ++ drop (length (wire ls)) free))

abbrev pub Sound : ℕ → List ℕ → List ℕ → List ℕ → List ℕ → ℕ → Type 0
Sound fuel t post done free i =
    (b : Bool) × (out : List ℕ) × (str2rhn_loop fuel (t ++ (0 ∷ post)) i (done ++ free)
      ≡ ok (b, out))
    × (length out ≡ i + length free)
    × (b ≡ true → Accepts i t done free out)

Sound-last :
    (fuel i x : ℕ) (done free : List ℕ)
    → length done ≡ i
    → (t post : List ℕ) → IsPlain t
    → i ≤ 255
    → 256 ≤ i + suc (length free)
    → Sound (suc fuel) t post done (x ∷ free) i
Sound-last fuel i x done free hd [] post p hi hf = (
  _,
  _,
  round_end fuel i x done free hd post,
  omega (arith, length-append done (0 ∷ free)),
  λ e. ([], tt, tt, refl, ground arith, omega arith, refl),
)
Sound-last fuel i x done free hd (c ∷ t) post p hi hf =
    elim (Bool-cases (leb (i + length (c ∷ t)) (label_limit i))) [
      | inl fits ↦ (
        _,
        _,
        round_last fuel i x done free hd (c ∷ t) post p (leb→le _ _ fits)
            (omega (arith, leb→le _ _ fits, label_limit_bounds i)),
        omega (
          arith,
          leb→le _ _ fits,
          label_limit_bounds i,
          length-append done (0 ∷ ((c ∷ t) ++ drop (length (c ∷ t)) free)),
          length-append t (drop (length (c ∷ t)) free),
          length-drop (length (c ∷ t)) free,
        ),
        λ e. absurd (ground arith),
      )
      | inr long ↦
          let (out, run, size) =
            round_long fuel i x done free hd (c ∷ t) (0 ∷ post) p (omega arith) (ground arith) hf in
          (false, out, run, size, λ e. cc)
    ]

reassemble :
    (done l : List ℕ) (ls : List (List ℕ)) (free : List ℕ)
    → (done ++ (length l ∷ l)) ++ (wire ls ++ drop (length (wire ls)) (drop (length l) free))
      ≡ done ++ ((length l ∷ (l ++ wire ls)) ++ drop (length (l ++ wire ls)) free)
reassemble done l ls free = rw (append_assoc, length-append, drop-add, append_assoc)

Sound-dot :
    (fuel i x : ℕ) (done free : List ℕ)
    → length done ≡ i
    → (l t post : List ℕ) → IsPlain l
    → 256 ≤ i + suc (length free)
    → (i + length l ≤ label_limit i
        → Sound fuel t post (done ++ (length l ∷ l)) (drop (length l) free) (i + length l + 1))
    → Sound (suc fuel) (l ++ (b'.' ∷ t)) post done (x ∷ free) i
Sound-dot fuel i x done free hd [] t post p hf rec = (
  false,
  _,
  round_empty fuel i x done free hd (t ++ (0 ∷ post)),
  omega (arith, length-append done (x ∷ free)),
  λ e. cc,
)
Sound-dot fuel i x done free hd (c ∷ l) t post p hf rec =
    elim (Bool-cases (leb (i + length (c ∷ l)) (label_limit i))) [
      | inl fits ↦
          let (b, out, run, size, spells) = rec (leb→le _ _ fits) in
          let within = leb→le _ _ fits in
          let bounds = label_limit_bounds i in
          (
            b,
            out,
            rw append_assoc (
                round_dot fuel i x done free hd (c ∷ l) (t ++ (0 ∷ post)) p (omega arith) within
                  (omega arith)
                ∙ run),
            omega (arith, length-drop (length (c ∷ l)) free),
            λ e.
                let (ls, names, plain, et, pos, lim, eo) = spells e in
                (
                  (c ∷ l) ∷ ls,
                  ((omega arith, omega arith), names),
                  (p, plain),
                  rw et,
                  omega arith,
                  omega (arith, length-append l (wire ls)),
                  eo ∙ reassemble done (c ∷ l) ls free,
                ),
          )
      | inr long ↦
          let (out, run, size) =
            round_long fuel i x done free hd (c ∷ l) (b'.' ∷ (t ++ (0 ∷ post))) p (omega arith)
              (ground arith) hf in
          (false, out, rw append_assoc run, size, λ e. cc)
    ]

pub loop-Sound :
    (fuel : ℕ) (t post done free : List ℕ) (i : ℕ)
    → length done ≡ i
    → NoZero t
    → length t < fuel
    → i ≤ 255
    → 256 ≤ i + length free
    → Sound fuel t post done free i
loop-Sound zero t post done free i hd z f hi hf = elim f [ ]
loop-Sound (suc fuel) t post done [] i hd z f hi hf = absurd (omega arith)
loop-Sound (suc fuel) t post done (x ∷ free) i hd z f hi hf = elim (Split-text t z) [
  | last p ↦ Sound-last fuel i x done free hd t post p hi hf
  | dot l t' p z' e ↦ rw e (
      Sound-dot fuel i x done free hd l t' post p hf λ fits.
        loop-Sound fuel t' post (done ++ (length l ∷ l)) (drop (length l) free) (i + length l + 1)
          (omega (arith, length-append done (length l ∷ l))) z'
          (omega (arith, ap length e, length-append l (b'.' ∷ t')))
          (omega (arith, label_limit_bounds i))
          (omega (arith, label_limit_bounds i, length-drop (length l) free)))
]

pub loop_complete :
    (fuel : ℕ) (ls : List (List ℕ)) (post done free : List ℕ) (i : ℕ)
    → length done ≡ i
    → IsName ls
    → All IsPlain ls
    → 0 < i + length ls
    → i + length (wire ls) ≤ 256
    → length (wire ls) ≤ length free
    → length ls < fuel
    → str2rhn_loop fuel (spelled ls ++ (0 ∷ post)) i (done ++ free)
      ≡ ok (true, done ++ (wire ls ++ drop (length (wire ls)) free))
loop_complete zero ls post done free i hd n p pos fits room f = elim f [ ]
loop_complete (suc fuel) ls post done [] i hd n p pos fits room f =
    absurd (omega (arith, length-wire-pos ls))
loop_complete (suc fuel) [] post done (x ∷ free) i hd n p pos fits room f =
    round_end fuel i x done free hd post ∙ ground arith
loop_complete (suc fuel) (l ∷ ls) post done (x ∷ free) i hd n p pos fits room f =
    let size = length-append l (wire ls) in
    let some_left = length-wire-pos ls in
    rw append_assoc (
      round_dot fuel i x done free hd l (spelled ls ++ (0 ∷ post)) p.0 (omega arith)
        (label_limit-ge i (length l) (omega arith) (omega arith)) (omega arith)
      ∙ loop_complete fuel ls post (done ++ (length l ∷ l)) (drop (length l) free)
          (i + length l + 1) (omega (arith, length-append done (length l ∷ l))) n.1 p.1
          (omega arith) (omega arith) (omega (arith, length-drop (length l) free)) (omega arith)
      ∙ ap (λ out. ok (true, out)) (reassemble done l ls free))
