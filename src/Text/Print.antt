-- ===== src/Text/Print.antt =====
-- rhn2str on names whose characters print as themselves, and back through str2rhn.
use orbot_library.Prelude.{
  ℕ, zero, suc, ◌+◌, ◌≤◌, ◌<◌, ◌≡◌, refl, ap, ◌∙◌, List, [], ◌∷◌, ◌++◌, true, false, some, ok,
  ◌>>=◌, arith, length, All, drop, read, write, write-append, write-append_pos, append_assoc,
  length-append, length-drop, drop-add, ◌==◌, leb-false, if◌then◌else◌,
}
use orbot_library.Name.Labels.{IsName, wire, length-lt-wire}
use orbot_library.Text.{
  is_graph, is_special, printed, put_char, put_label, rhn2str_loop, rhn2str, str2rhn,
}
use orbot_library.Text.Spelling.{IsPlain, spelled, dotted}
use orbot_library.Text.ToName.{str2rhn-dotted}

-- A byte that rhn2str copies.
abbrev pub PrintsAsItself : ℕ → Type 0
PrintsAsItself c = (is_graph c ≡ true) × (is_special c ≡ false)

put_label-plain :
    (l p done free : List ℕ) (size j : ℕ)
    → All PrintsAsItself l
    → length done ≡ j
    → j + length l + 1 < size
    → length l ≤ length free
    → put_label (length l) (l ++ p) size j (done ++ free)
      ≡ ok (printed (j + length l) p (done ++ (l ++ drop (length l) free)))
unfolding put_label put_char
put_label-plain [] p done free size j h hd hs hf = ground arith
put_label-plain (c ∷ l) p done [] size j h hd hs hf = absurd (omega arith)
put_label-plain (c ∷ l) p done (x ∷ free) size j h hd hs hf =
    let w : write (done ++ (x ∷ free)) j c ≡ ok ((done ++ (c ∷ [])) ++ free) =
      rw (← hd, append_assoc) (write-append done x c free) in
    let ih =
      put_label-plain l p (done ++ (c ∷ [])) free size (j + 1) h.1
        (omega (arith, length-append done (c ∷ []))) (omega arith) (omega arith) in
    let shift : j + 1 + length l ≡ j + length (c ∷ l) = omega arith in
    rw (leb-false size (j + 2) (omega arith), h.0.0, h.0.1, w, ◌>>=◌, ih, shift) (rw append_assoc)

-- One round of the outer loop, over a label that prints as itself.
round_plain :
    (fuel : ℕ) (l p done free : List ℕ) (lb size j : ℕ)
    → All PrintsAsItself l
    → length done ≡ j
    → j + length l + 1 < size
    → length l < length free
    → let out = (done ++ (l ++ (b'.' ∷ []))) ++ drop (length l + 1) free in
      let next = rhn2str_loop fuel lb p size (j + length l + 1) out in
      rhn2str_loop (suc fuel) (length l) (l ++ (lb ∷ p)) size j (done ++ free)
      ≡ (if lb == 0 then write out (j + length l + 1) 0 else next)
unfolding rhn2str_loop read
round_plain fuel l p done free lb size j h hd hs hf =
    let w : write (done ++ (l ++ drop (length l) free)) (j + length l) b'.'
        ≡ ok ((done ++ (l ++ (b'.' ∷ []))) ++ drop (length l + 1) free) =
      rw
        (
          ← append_assoc,
          write-append_pos (done ++ l) (drop (length l) free) b'.' (j + length l)
              (omega (arith, length-append done l)) (omega (arith, length-drop (length l) free)),
          drop-add,
        )
        (simp append_assoc) in
    rw (put_label-plain l (lb ∷ p) done free size j h hd hs (omega arith), ◌>>=◌, w, ◌>>=◌)

glue :
    (done l s free : List ℕ)
    → (done ++ (l ++ (b'.' ∷ []))) ++ (s ++ (0 ∷ drop (length s + 1) (drop (length l + 1) free)))
      ≡ done ++ ((l ++ (b'.' ∷ s)) ++ (0 ∷ drop (length (l ++ (b'.' ∷ s)) + 1) free))
glue done l s free =
    let size : length (l ++ (b'.' ∷ s)) + 1 ≡ length l + 1 + (length s + 1) =
      omega (arith, length-append l (b'.' ∷ s)) in
    rw (size, drop-add (length l + 1) (length s + 1) free) (simp append_assoc)

loop_plain :
    (ls : List (List ℕ)) (fuel : ℕ) (l rest done free : List ℕ) (size j : ℕ)
    → IsName (l ∷ ls)
    → All (All PrintsAsItself) (l ∷ ls)
    → length done ≡ j
    → length ls < fuel
    → j + length (spelled (l ∷ ls)) < size
    → size ≤ j + length free
    → rhn2str_loop fuel (length l) (l ++ (wire ls ++ rest)) size j (done ++ free)
      ≡ ok (done ++ (spelled (l ∷ ls) ++ (0 ∷ drop (length (spelled (l ∷ ls)) + 1) free)))
loop_plain ls zero l rest done free size j n h hd f hs hf = elim f [ ]
loop_plain [] (suc fuel) l rest done free size j n h hd f hs hf =
    let len = length-append l (b'.' ∷ []) in
    round_plain fuel l rest done free 0 size j h.0 hd (omega (arith, len)) (omega (arith, len))
    ∙ write-append_pos (done ++ (l ++ (b'.' ∷ []))) (drop (length l + 1) free) 0 (j + length l + 1)
        (omega (arith, len, length-append done (l ++ (b'.' ∷ []))))
        (omega (arith, len, length-drop (length l + 1) free))
    ∙ ap ok (glue done l [] free)
loop_plain (l' ∷ ls) (suc fuel) l rest done free size j n h hd f hs hf =
    let len = length-append l (b'.' ∷ spelled (l' ∷ ls)) in
    let more : (length l' == 0) ≡ false = ground arith in
    let done' = done ++ (l ++ (b'.' ∷ [])) in
    rw
      (
        append_assoc l' (wire ls) rest,
        round_plain fuel l (l' ++ (wire ls ++ rest)) done free (length l') size j h.0 hd
            (omega (arith, len)) (omega (arith, len)),
        more,
      )
      (loop_plain ls fuel l' rest done' (drop (length l + 1) free) size (j + length l + 1) n.1 h.1
          (omega (arith, length-append done (l ++ (b'.' ∷ [])), length-append l (b'.' ∷ [])))
          (omega arith) (omega (arith, len)) (omega (arith, length-drop (length l + 1) free, len))
        ∙ ap ok (glue done l (spelled (l' ∷ ls)) free))

fuel_suffices :
    (l : List ℕ) (ls : List (List ℕ)) (rest : List ℕ)
    → length ls < suc (suc (length (l ++ (wire ls ++ rest))))
fuel_suffices l ls rest =
    omega
      (arith, length-lt-wire ls, length-append l (wire ls ++ rest), length-append (wire ls) rest)

-- A name whose characters print as themselves is printed as its dotted text, if that and a zero
-- byte fit in the `size` bytes of the buffer.
pub rhn2str-wire :
    (ls : List (List ℕ)) (rest str : List ℕ) (size : ℕ)
    → IsName ls
    → All (All PrintsAsItself) ls
    → length (dotted ls) < size
    → size ≤ length str
    → rhn2str (wire ls ++ rest) str size
      ≡ ok (some (dotted ls ++ (0 ∷ drop (length (dotted ls) + 1) str)))
unfolding rhn2str read write
rhn2str-wire ls rest str zero n h fits room = absurd (omega arith)
rhn2str-wire [] rest [] (suc size) n h fits room = absurd (omega arith)
rhn2str-wire [] rest (x ∷ []) (suc size) n h fits room = absurd (omega arith)
rhn2str-wire [] rest (x ∷ y ∷ str) (suc size) n h fits room = ground arith
rhn2str-wire (l ∷ ls) rest str (suc size) n h fits room =
    let more : (length l == 0) ≡ false = ground arith in
    rw (more, append_assoc l (wire ls) rest)
      (rw (
        loop_plain ls _ l rest [] str (suc size) 0 n h refl (fuel_suffices l ls rest) (omega arith)
          (omega arith)))

PrintsAsItself-IsPlain : (l : List ℕ) → All PrintsAsItself l → IsPlain l
unfolding is_graph is_special
PrintsAsItself-IsPlain [] h = tt
PrintsAsItself-IsPlain (c ∷ l) h =
    (((λ e. ground arith), λ e. ground arith), PrintsAsItself-IsPlain l h.1)

labels-IsPlain : (ls : List (List ℕ)) → All (All PrintsAsItself) ls → All IsPlain ls
labels-IsPlain [] h = tt
labels-IsPlain (l ∷ ls) h = (PrintsAsItself-IsPlain l h.0, labels-IsPlain ls h.1)

-- Printing a name and reading the text back gives the name: for a name of at most 256 bytes whose
-- characters print as themselves, a print buffer with room for the text and a zero byte, and a
-- name buffer of at least 256 bytes.
pub str2rhn-rhn2str :
    (ls : List (List ℕ)) (rest str rhn : List ℕ) (size : ℕ)
    → IsName ls
    → All (All PrintsAsItself) ls
    → length (wire ls) ≤ 256
    → length (dotted ls) < size
    → size ≤ length str
    → 256 ≤ length rhn
    → (text : List ℕ) × (rhn2str (wire ls ++ rest) str size ≡ ok (some text))
      × (str2rhn text rhn ≡ ok (true, wire ls ++ drop (length (wire ls)) rhn))
str2rhn-rhn2str ls rest str rhn size n h small fits room space = (
  _,
  rhn2str-wire ls rest str size n h fits room,
  str2rhn-dotted ls (drop (length (dotted ls) + 1) str) rhn n (labels-IsPlain ls h) small space,
)
