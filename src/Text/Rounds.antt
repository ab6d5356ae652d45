-- ===== src/Text/Rounds.antt =====
-- One round of the loops of str2rhn.
use orbot_library.Prelude.{
  ℕ, suc, ◌+◌, ◌-◌, ◌%◌, ◌≤◌, ◌<◌, ◌≡◌, refl, List, [], ◌∷◌, ◌++◌, ◌⊎◌, inl, inr, arith, length,
  ◌==◌, Bool-cases, false, ok, ◌>>=◌, drop, set, length-set, write-ok, write-append, append_assoc,
  length-append, ltb, leb, leb-false, not, ◌||◌, read, write,
}
use orbot_library.Text.{too_long, stopped, copy_label, label_limit, str2rhn_loop}
use orbot_library.Text.Spelling.{IsPlain}

abbrev pub IsStop : ℕ → Type 0
IsStop c = (c ≡ 0) ⊎ (c ≡ b'.')

pub label_limit_bounds : (i : ℕ) → (label_limit i ≤ 254) × (label_limit i ≤ i + 63)
unfolding label_limit
label_limit_bounds i = ground arith

pub label_limit-ge : (i n : ℕ) → n ≤ 63 → i + n ≤ 254 → i + n ≤ label_limit i
unfolding label_limit
label_limit-ge i n h k = ground arith

copy_label-stops :
    (l s b free : List ℕ) (c j jlim : ℕ)
    → IsStop c
    → IsPlain l
    → length b ≡ j + 1
    → j + length l ≤ jlim
    → length l ≤ length free
    → copy_label (l ++ (c ∷ s)) j jlim (b ++ free)
      ≡ ok (stopped (j + length l) (c ∷ s) (b ++ (l ++ drop (length l) free)))
unfolding copy_label
copy_label-stops [] s b free c j jlim (inl e) p hb hj hf = ground arith
copy_label-stops [] s b free c j jlim (inr e) p hb hj hf = ground arith
copy_label-stops (x ∷ l) s b [] c j jlim e p hb hj hf = absurd (omega arith)
copy_label-stops (x ∷ l) s b (y ∷ free) c j jlim e p hb hj hf =
    let w : write (b ++ (y ∷ free)) (j + 1) x ≡ ok ((b ++ (x ∷ [])) ++ free) =
      rw (← hb, append_assoc) (write-append b y x free) in
    ground (
      arith,
      w,
      append_assoc b (x ∷ []) (l ++ drop (length l) free),
      length-append b (x ∷ []),
      copy_label-stops l s (b ++ (x ∷ [])) free c (j + 1) jlim e p.1,
    )

copy_label-long :
    (l s rhn : List ℕ) (j jlim : ℕ)
    → IsPlain l
    → 0 < length l
    → jlim < j + length l
    → jlim < length rhn
    → (out : List ℕ) × (copy_label (l ++ s) j jlim rhn ≡ ok (too_long out))
      × (length out ≡ length rhn)
unfolding copy_label
copy_label-long [] s rhn j jlim p pos long room = absurd (omega arith)
copy_label-long (x ∷ l) s rhn j jlim p pos long room = elim (Bool-cases (leb jlim j)) [
  | inl full ↦ (rhn, ground arith, refl)
  | inr more ↦
      let (out, run, size) =
        copy_label-long l s (set rhn (j + 1) x) (j + 1) jlim p.1 (ground arith) (omega arith)
          (omega (arith, length-set rhn (j + 1) x)) in
      (out, ground (arith, run, write-ok rhn (j + 1) x), omega (arith, length-set rhn (j + 1) x))
]

-- The inner loop from the start of a label, whose length byte `x` is still to come.
copy_first :
    (l s done free : List ℕ) (x c i jlim : ℕ)
    → IsStop c
    → IsPlain l
    → length done ≡ i
    → i + length l ≤ jlim
    → length l ≤ length free
    → copy_label (l ++ (c ∷ s)) i jlim (done ++ (x ∷ free))
      ≡ ok (stopped (i + length l) (c ∷ s) (done ++ (x ∷ (l ++ drop (length l) free))))
copy_first l s done free x c i jlim e p hd hj hf = ground (
  arith,
  append_assoc done (x ∷ []) free,
  append_assoc done (x ∷ []) (l ++ drop (length l) free),
  length-append done (x ∷ []),
  copy_label-stops l s (done ++ (x ∷ [])) free c i jlim e p,
)

write_at :
    (done : List ℕ) (x v : ℕ) (r : List ℕ) (i : ℕ)
    → length done ≡ i
    → write (done ++ (x ∷ r)) i v ≡ ok (done ++ (v ∷ r))
write_at done x v r i hd = rw (← hd) (write-append done x v r)

-- One round of the outer loop, by how its label ends.
module _ (fuel i x : ℕ) (done free : List ℕ) (hd : length done ≡ i) where
  pub round_last :
      (t post : List ℕ)
      → IsPlain t
      → i + length t ≤ label_limit i
      → length t ≤ length free
      → str2rhn_loop (suc fuel) (t ++ (0 ∷ post)) i (done ++ (x ∷ free))
        ≡ ok (not (ltb i (i + length t) || i == 0), done ++ (0 ∷ (t ++ drop (length t) free)))
  unfolding str2rhn_loop read
  round_last t post p fits room =
      rw (copy_first t post done free x 0 i _ (inl refl) p hd fits room, ◌>>=◌)
        (ground (arith, write_at done x 0 (t ++ drop (length t) free) i hd))

  pub round_dot :
      (l t : List ℕ)
      → IsPlain l
      → 0 < length l
      → i + length l ≤ label_limit i
      → length l ≤ length free
      → str2rhn_loop (suc fuel) (l ++ (b'.' ∷ t)) i (done ++ (x ∷ free))
        ≡ str2rhn_loop fuel t (i + length l + 1) ((done ++ (length l ∷ l)) ++ drop (length l) free)
  unfolding read str2rhn_loop
  round_dot l t p pos fits room =
      let r = l ++ drop (length l) free in
      let size : (i + length l - i) % 256 ≡ length l = omega (arith, label_limit_bounds i) in
      rw (copy_first l t done free x b'.' i _ (inr refl) p hd fits room, ◌>>=◌)
        (rw
          (leb-false (i + length l) i (omega arith), size, write_at done x (length l) r i hd, ◌>>=◌)
          (rw append_assoc))

  pub round_end :
      (post : List ℕ)
      → str2rhn_loop (suc fuel) (0 ∷ post) i (done ++ (x ∷ free))
        ≡ ok (not (i == 0), done ++ (0 ∷ free))
  unfolding str2rhn_loop read
  round_end post = ground (arith, write_at done x 0 free i hd)

  pub round_empty :
      (t : List ℕ)
      → str2rhn_loop (suc fuel) (b'.' ∷ t) i (done ++ (x ∷ free)) ≡ ok (false, done ++ (x ∷ free))
  unfolding str2rhn_loop read
  round_empty t = ground arith

  pub round_long :
      (l s : List ℕ)
      → IsPlain l
      → 0 < length l
      → label_limit i < i + length l
      → 256 ≤ i + suc (length free)
      → (out : List ℕ) × (str2rhn_loop (suc fuel) (l ++ s) i (done ++ (x ∷ free)) ≡ ok (false, out))
        × (length out ≡ i + suc (length free))
  unfolding str2rhn_loop
  round_long l s p pos long room =
      let (out, run, size) =
        copy_label-long l s (done ++ (x ∷ free)) i (label_limit i) p pos long
          (omega (arith, length-append done (x ∷ free), label_limit_bounds i)) in
      (out, rw (run, ◌>>=◌), omega (arith, length-append done (x ∷ free)))
