-- ===== src/Message/Decompress.antt =====
-- decompress_name on every message, well formed or not.
use orbot_library.Prelude.{
  ℕ, zero, suc, ◌+◌, ◌-◌, ◌≤◌, ◌<◌, ◌≡◌, refl, ap, ◌∙◌, List, [], ◌∷◌, ◌++◌, Run, ok, Returns,
  Returns-if, Returns-unless, Returns->>=, ◌>>=◌, read, ltb, leb, ◌==◌, ==_iff, arith, length, take,
  drop, length-append, length-drop, read-Returns, write-append_pos, Bool-cases, inl, inr,
}
use mathlib.Core.Path.{subst}
use orbot_library.Name.Labels.{IsName, wire}
use orbot_library.Message.{
  Decoded, decoded, refused, Landed, landed, lost, pointer_offset, direct_loop, decompress_name,
}
use orbot_library.Message.Denotes.{Denotes, root, label, pointer}
use orbot_library.Message.Jumped.{Landing, jumped_loop-lands, copied, regroup}

-- What a call has done when it returns: it has refused, or it has written the name at `p` behind
-- `done` and has moved `src` forward inside the `sz` bytes.
abbrev pub Decoding : List ℕ → ℕ → ℕ → ℕ → ℕ → ℕ → List ℕ → List ℕ → Decoded → Type 0
Decoding msg src oldsz newsz p tpos done free (refused e) = Unit
Decoding msg src oldsz newsz p tpos done free (decoded src' sz' len out) =
    (ls : List (List ℕ)) × IsName ls
    × Denotes msg p ls
    × (len ≡ tpos + length (wire ls))
    × (len ≤ 256)
    × (out ≡ done ++ (wire ls ++ drop (length (wire ls)) free))
    × (src' + sz' ≡ src + oldsz)
    × (sz' < newsz)

module _ (msg : List ℕ) (src oldsz : ℕ) where
  Decoding-label :
      (l : List ℕ) (newsz p tpos : ℕ) (done free : List ℕ)
      → 0 < length l
      → length l ≤ 63
      → read msg p ≡ ok (length l)
      → take (length l) (drop (p + 1) msg) ≡ l
      → (r : Run Decoded)
      → Returns r (
          Decoding msg src oldsz
            (newsz - 1 - length l)
            (p + 1 + length l)
            (tpos + 1 + length l)
            (done ++ (length l ∷ l))
            (drop (length l + 1) free))
      → Returns r (Decoding msg src oldsz newsz p tpos done free)
  Decoding-label l newsz p tpos done free pos short e bytes r (refused h, run, x) =
      (refused h, run, tt)
  Decoding-label l newsz p tpos done free pos short e bytes r
        (decoded src' sz' len out, run, (ls, n, d, size, lim, eo, sum, less)) =
      (
        decoded src' sz' len out,
        run,
        (
          l ∷ ls,
          ((pos, short), n),
          label l pos short e bytes d,
          omega (arith, length-append l (wire ls)),
          lim,
          eo ∙ regroup done l ls free,
          sum,
          omega arith,
        ),
      )

  Decoding-at :
      (lb : ℕ) (l : List ℕ)
      → length l ≡ lb
      → (newsz p tpos : ℕ) (done free : List ℕ) → 0 < lb
      → lb ≤ 63
      → read msg p ≡ ok lb
      → take lb (drop (p + 1) msg) ≡ l
      → (r : Run Decoded)
      → Returns r (
          Decoding msg src oldsz
            (newsz - 1 - lb)
            (p + 1 + lb)
            (tpos + 1 + lb)
            (done ++ (lb ∷ l))
            (drop (lb + 1) free))
      → Returns r (Decoding msg src oldsz newsz p tpos done free)
  Decoding-at lb l size newsz p tpos done free =
      subst
        (λ n.
          0 < n
          → n ≤ 63
          → read msg p ≡ ok n
          → take n (drop (p + 1) msg) ≡ l
          → (r : Run Decoded)
          → Returns r (
              Decoding msg src oldsz (newsz - 1 - n) (p + 1 + n) (tpos + 1 + n) (done ++ (n ∷ l))
                (drop (n + 1) free))
          → Returns r (Decoding msg src oldsz newsz p tpos done free))
        size (Decoding-label l newsz p tpos done free)

  Decoding-jump :
      (lb o newsz p tpos : ℕ) (done free : List ℕ)
      → 0xc0 ≤ lb
      → 1 < newsz
      → newsz ≤ oldsz
      → read msg p ≡ ok lb
      → read msg (p + 1) ≡ ok o
      → (r : Run Landed) → Returns r (Landing msg (pointer_offset lb o) tpos done free)
      → Returns
          (r >>= λ x. elim x [
            | landed len out ↦
                ok (decoded (src + (oldsz - (newsz - 1 - 1))) (newsz - 1 - 1) len out)
            | lost h ↦ ok (refused h)
          ])
          (Decoding msg src oldsz newsz p tpos done free)
  Decoding-jump lb o newsz p tpos done free big two fits e e' r (lost h, run, x) =
      (refused h, rw run, tt)
  Decoding-jump lb o newsz p tpos done free big two fits e e' r
        (landed len out, run, (ls, n, d, size, lim, eo)) =
      (
        decoded (src + (oldsz - (newsz - 1 - 1))) (newsz - 1 - 1) len out,
        rw run,
        (ls, n, pointer lb o big e e' d, size, lim, eo, omega arith, omega arith),
      )

  direct_loop-decodes :
      (fuel newsz p tpos : ℕ) (done free : List ℕ)
      → length done ≡ tpos
      → p < length msg
      → tpos ≤ 255
      → 256 ≤ tpos + length free
      → 0 < newsz
      → newsz ≤ oldsz
      → newsz < fuel
      → Returns
          (direct_loop fuel msg (length msg) src oldsz newsz p tpos (done ++ free))
          (Decoding msg src oldsz newsz p tpos done free)
  unfolding direct_loop
  direct_loop-decodes zero newsz p tpos done free hd hp ht hf hn ho hu = elim hu [ ]
  direct_loop-decodes (suc fuel) newsz p tpos done free hd hp ht hf hn ho hu =
      let (lb, e) = read-Returns msg p hp in
      let P = Decoding msg src oldsz newsz p tpos done free in
      Returns->>= P _ e (
        Returns-if P (ltb 0x3f lb)
          (λ high. Returns-unless P (ltb lb 0xc0) tt λ both.
            Returns-unless P (newsz - 1 == 0) tt λ left.
              Returns-unless P (leb (length msg) (p + 1)) tt λ inside.
                let (o, e') = read-Returns msg (p + 1) (ground arith) in
                Returns->>= P _ e' (
                  Returns-unless P (leb (length msg) (pointer_offset lb o)) tt λ within.
                    Decoding-jump lb o newsz p tpos done free (ground arith) (ground arith) ho e e'
                      _
                      (jumped_loop-lands msg 512 1 (pointer_offset lb o) tpos done free hd
                        (ground arith) ht hf (omega arith) (omega arith))))
          (λ low.
            Returns->>= P _ (write-append_pos done free lb tpos hd (omega arith))
              (elim (Bool-cases (lb == 0)) [
                | inl last ↦ rw last (
                  _,
                  refl,
                  (
                    [],
                    tt,
                    root (e ∙ ap ok ((==_iff lb 0).0 last)),
                    refl,
                    omega arith,
                    rw ((==_iff lb 0).0 last),
                    omega arith,
                    omega arith,
                  ),
                )
                | inr more ↦ rw more (
                    Returns-unless P (leb (newsz - 1) lb) tt λ left.
                      Returns-unless P (leb (length msg) (p + 1 + lb)) tt λ inside.
                        Returns-unless P (ltb 255 (tpos + 1 + lb)) tt λ room.
                          let (l, size, bytes, c) =
                            copied msg lb p tpos done free hd (ground arith) (ground arith) in
                          Returns->>= P _ c (
                            Decoding-at lb l size newsz p tpos done free (ground arith)
                              (ground arith) e bytes _
                              (direct_loop-decodes fuel (newsz - 1 - lb) (p + 1 + lb)
                                (tpos + 1 + lb) (done ++ (lb ∷ l)) (drop (lb + 1) free)
                                (omega (arith, length-append done (lb ∷ l))) (ground arith)
                                (ground arith) (omega (arith, length-drop (lb + 1) free))
                                (ground arith) (omega arith) (omega arith))))
              ])))

-- On every message, and for every start inside it, every number of bytes left and every target of
-- at least 256 bytes, decompress_name reads inside the message, writes inside the target, follows
-- pointers only finitely often and returns. What it returns with RC_OK is the name that RFC 1035
-- finds at the start: the target holds its uncompressed encoding, of `len` bytes and at most 256,
-- and is unchanged behind it; the pointer has moved by as many bytes, at least one, as the number
-- of bytes left has shrunk.
pub decompress_name-Decoding :
    (msg : List ℕ) (src sz : ℕ) (tgt : List ℕ)
    → 256 ≤ length tgt
    → Returns (decompress_name msg (length msg) src sz tgt) (Decoding msg src sz sz src 0 [] tgt)
unfolding decompress_name
decompress_name-Decoding msg src sz tgt h =
    let P = Decoding msg src sz sz src 0 [] tgt in
    Returns-unless P (sz == 0) tt λ left. Returns-unless P (leb (length msg) src) tt λ inside.
      direct_loop-decodes msg src sz (suc sz) sz src 0 [] tgt refl (ground arith) (omega arith)
        (omega arith) (ground arith) (omega arith) (omega arith)
