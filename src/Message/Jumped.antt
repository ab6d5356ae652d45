-- ===== src/Message/Jumped.antt =====
-- The loop behind `jumped` on any message: it stays inside the message and the buffer, ends within
-- its fuel, and what it adds to the buffer is the name that stands where it started.
use orbot_library.Prelude.{
  ℕ, zero, suc, ◌+◌, ◌-◌, ◌≤◌, ◌<◌, ◌≡◌, refl, sym, ap, ◌∙◌, List, [], ◌∷◌, ◌++◌, Run, ok, Returns,
  Returns-if, Returns-unless, Returns->>=, ◌>>=◌, read, ltb, leb, ◌==◌, ==_iff, arith, length, take,
  drop, append_assoc, length-append, length-drop, length-take, read-Returns, write-append_pos,
  Bool-cases, inl, inr, drop-add,
}
use native.Mathlib.Nat.{suc-add}
use mathlib.Core.Path.{subst}
use orbot_library.Name.Labels.{IsName, wire}
use orbot_library.Message.{Landed, landed, lost, copy_bytes, pointer_offset, jumped_loop}
use orbot_library.Message.Denotes.{Denotes, root, label, pointer}

pub drop-read : (msg : List ℕ) (p c : ℕ) → read msg p ≡ ok c → drop p msg ≡ c ∷ drop (p + 1) msg
unfolding read
drop-read [] p c e = cc
drop-read (x ∷ msg) zero c e = ground arith
drop-read (x ∷ msg) (suc p) c e = drop-read msg p c e ∙ ap (λ xs. c ∷ xs) (rw suc-add)

-- The bytes that are copied are those that stand at `p`.
pub copy_bytes-ok :
    (lb : ℕ) (msg : List ℕ) (p : ℕ) (done free : List ℕ) (tpos : ℕ)
    → length done ≡ tpos
    → p + lb ≤ length msg
    → lb ≤ length free
    → copy_bytes lb msg p tpos (done ++ free) ≡ ok (done ++ (take lb (drop p msg) ++ drop lb free))
unfolding copy_bytes
copy_bytes-ok zero msg p done free tpos hd hm hf = refl
copy_bytes-ok (suc lb) msg p done [] tpos hd hm hf = absurd (omega arith)
copy_bytes-ok (suc lb) msg p done (y ∷ free) tpos hd hm hf =
    step (read-Returns msg p (omega arith)).0 (read-Returns msg p (omega arith)).1 (
      copy_bytes-ok lb msg (p + 1) (done ++ (_ ∷ [])) free (tpos + 1)
        (omega (arith, length-append done (_ ∷ []))) (omega arith) (omega arith))
  where
    step :
        (c : ℕ)
        → read msg p ≡ ok c
        → copy_bytes lb msg (p + 1) (tpos + 1) ((done ++ (c ∷ [])) ++ free)
          ≡ ok ((done ++ (c ∷ [])) ++ (take lb (drop (p + 1) msg) ++ drop lb free))
        → copy_bytes (suc lb) msg p tpos (done ++ (y ∷ free))
          ≡ ok (done ++ (take (suc lb) (drop p msg) ++ drop lb free))
    step c e ih =
        let tail = take lb (drop (p + 1) msg) ++ drop lb free in
        rw (e, ◌>>=◌, write-append_pos done (y ∷ free) c tpos hd (omega arith), drop-read msg p c e)
          (rw (append_assoc done (c ∷ []) free, append_assoc done (c ∷ []) tail) at ih)

-- What the loop has done when it ends: it has refused, or it has written the name at `p`.
abbrev pub Landing : List ℕ → ℕ → ℕ → List ℕ → List ℕ → Landed → Type 0
Landing msg p tpos done free (lost e) = Unit
Landing msg p tpos done free (landed len out) =
    (ls : List (List ℕ)) × IsName ls
    × Denotes msg p ls
    × (len ≡ tpos + length (wire ls))
    × (len ≤ 256)
    × (out ≡ done ++ (wire ls ++ drop (length (wire ls)) free))

pub regroup :
    (done l : List ℕ) (ls : List (List ℕ)) (free : List ℕ)
    → (done ++ (length l ∷ l)) ++ (wire ls ++ drop (length (wire ls)) (drop (length l + 1) free))
      ≡ done ++ (wire (l ∷ ls) ++ drop (length (wire (l ∷ ls))) free)
regroup done l ls free =
    let size : length (wire (l ∷ ls)) ≡ length l + 1 + length (wire ls) =
      omega (arith, length-append l (wire ls)) in
    rw (append_assoc, ← drop-add (length l + 1) (length (wire ls)) free)
      (ap (λ (n : ℕ). done ++ (length l ∷ (l ++ (wire ls ++ drop n free)))) (sym size)
        ∙ rw append_assoc)

module _ (msg : List ℕ) where
  Landing-label :
      (l : List ℕ) (p tpos : ℕ) (done free : List ℕ)
      → 0 < length l
      → length l ≤ 63
      → read msg p ≡ ok (length l)
      → take (length l) (drop (p + 1) msg) ≡ l
      → (r : Run Landed)
      → Returns r (
          Landing msg
            (p + 1 + length l)
            (tpos + 1 + length l)
            (done ++ (length l ∷ l))
            (drop (length l + 1) free))
      → Returns r (Landing msg p tpos done free)
  Landing-label l p tpos done free pos short e bytes r (lost h, run, x) = (lost h, run, tt)
  Landing-label l p tpos done free pos short e bytes r
        (landed len out, run, (ls, n, d, size, lim, eo)) =
      (
        landed len out,
        run,
        (
          l ∷ ls,
          ((pos, short), n),
          label l pos short e bytes d,
          omega (arith, length-append l (wire ls)),
          lim,
          eo ∙ regroup done l ls free,
        ),
      )

  Landing-at :
      (lb : ℕ) (l : List ℕ)
      → length l ≡ lb
      → (p tpos : ℕ) (done free : List ℕ) → 0 < lb
      → lb ≤ 63
      → read msg p ≡ ok lb
      → take lb (drop (p + 1) msg) ≡ l
      → (r : Run Landed)
      → Returns r (Landing msg (p + 1 + lb) (tpos + 1 + lb) (done ++ (lb ∷ l)) (drop (lb + 1) free))
      → Returns r (Landing msg p tpos done free)
  Landing-at lb l size p tpos done free =
      subst
        (λ n.
          0 < n
          → n ≤ 63
          → read msg p ≡ ok n
          → take n (drop (p + 1) msg) ≡ l
          → (r : Run Landed)
          → Returns r (Landing msg (p + 1 + n) (tpos + 1 + n) (done ++ (n ∷ l)) (drop (n + 1) free))
          → Returns r (Landing msg p tpos done free))
        size (Landing-label l p tpos done free)

  -- A label copied behind its length byte.
  pub copied :
      (lb p tpos : ℕ) (done free : List ℕ)
      → length done ≡ tpos
      → p + 1 + lb ≤ length msg
      → lb + 1 ≤ length free
      → (l : List ℕ) × (length l ≡ lb)
        × (take lb (drop (p + 1) msg) ≡ l)
        × (copy_bytes lb msg (p + 1) (tpos + 1) (done ++ (lb ∷ drop 1 free))
            ≡ ok ((done ++ (lb ∷ l)) ++ drop (lb + 1) free))
  copied lb p tpos done [] hd hm hf = absurd (omega arith)
  copied lb p tpos done (x ∷ free) hd hm hf = (
    take lb (drop (p + 1) msg),
    omega (arith, length-take lb (drop (p + 1) msg), length-drop (p + 1) msg),
    refl,
    rw (← append_assoc done (lb ∷ []) free) (
        copy_bytes-ok lb msg (p + 1) (done ++ (lb ∷ [])) free (tpos + 1)
          (omega (arith, length-append done (lb ∷ []))) hm (omega arith)
        ∙ ap ok (let s : lb + 1 ≡ suc lb = omega arith in rw s (simp append_assoc))),
  )

  Landing-pointer :
      (lb o p tpos : ℕ) (done free : List ℕ)
      → 0xc0 ≤ lb
      → read msg p ≡ ok lb
      → read msg (p + 1) ≡ ok o
      → (r : Run Landed) → Returns r (Landing msg (pointer_offset lb o) tpos done free)
      → Returns r (Landing msg p tpos done free)
  Landing-pointer lb o p tpos done free big e e' r (lost h, run, x) = (lost h, run, tt)
  Landing-pointer lb o p tpos done free big e e' r (landed len out, run, (ls, n, d, a, b, c)) =
      (landed len out, run, (ls, n, pointer lb o big e e' d, a, b, c))

  -- The loop inside the message and the buffer.
  pub jumped_loop-lands :
      (fuel hops p tpos : ℕ) (done free : List ℕ)
      → length done ≡ tpos
      → p < length msg
      → tpos ≤ 255
      → 256 ≤ tpos + length free
      → hops ≤ 255
      → 255 - hops + (255 - tpos) < fuel
      → Returns
          (jumped_loop fuel msg (length msg) hops p tpos (done ++ free))
          (Landing msg p tpos done free)
  unfolding jumped_loop
  jumped_loop-lands zero hops p tpos done free hd hp ht hf hh fuel_ok = elim fuel_ok [ ]
  jumped_loop-lands (suc fuel) hops p tpos done free hd hp ht hf hh fuel_ok =
      let (lb, e) = read-Returns msg p hp in
      let P = Landing msg p tpos done free in
      Returns->>= P _ e (
        Returns-if P (ltb 63 lb)
          (λ high. Returns-unless P (ltb lb 0xc0) tt λ both.
            Returns-unless P (leb (length msg) (p + 1)) tt λ inside.
              Returns-unless P (ltb 255 (hops + 1)) tt λ near.
                let (o, e') = read-Returns msg (p + 1) (ground arith) in
                Returns->>= P _ e' (
                  Returns-unless P (leb (length msg) (pointer_offset lb o)) tt λ within.
                    Landing-pointer lb o p tpos done free (ground arith) e e' _ (
                      jumped_loop-lands fuel (hops + 1) (pointer_offset lb o) tpos done free hd
                        (ground arith) ht hf (ground arith) (ground arith))))
          (λ low.
            Returns->>= P _ (write-append_pos done free lb tpos hd (omega arith))
              (elim (Bool-cases (lb == 0)) [
                | inl last ↦ rw last (
                  _,
                  refl,
                  (
                    [],
                    tt,
                    root (e ∙ ap ok ((==_iff lb 0).0 last)),
                    refl,
                    omega arith,
                    rw ((==_iff lb 0).0 last),
                  ),
                )
                | inr more ↦ rw more (
                    Returns-unless P (leb (length msg) (p + 1 + lb)) tt λ inside.
                      Returns-unless P (ltb 255 (tpos + 1 + lb)) tt λ room.
                        let (l, size, bytes, c) =
                          copied lb p tpos done free hd (ground arith) (ground arith) in
                        Returns->>= P _ c (
                          Landing-at lb l size p tpos done free (ground arith) (ground arith) e
                            bytes _
                            (jumped_loop-lands fuel hops (p + 1 + lb) (tpos + 1 + lb)
                              (done ++ (lb ∷ l)) (drop (lb + 1) free)
                              (omega (arith, length-append done (lb ∷ l))) (ground arith)
                              (ground arith) (omega (arith, length-drop (lb + 1) free)) hh
                              (ground arith))))
              ])))
