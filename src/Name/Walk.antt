-- ===== src/Name/Walk.antt =====
-- The walks of helpers.h on the encoding of a list of labels, whatever follows it.
use orbot_library.Prelude.{
  ℕ, zero, suc, ◌+◌, ◌≤◌, ◌<◌, ◌≡◌, refl, List, [], ◌∷◌, ◌++◌, arith, ok, ◌>>=◌, length, drop,
  length-append, take-append, ◌∙◌, ap,
}
use orbot_library.Name.{
  rhnlen_loop, rhnlen, skipsegs, skiprhn_loop, skiprhn, rhnsegcnt_loop, rhnsegcnt, rhncpy,
  dns_name_buf_size,
}
use orbot_library.Name.Labels.{IsName, wire, drop-wire, length-lt-wire, drop-length}

rhnlen_loop-wire :
    (ls : List (List ℕ)) (rest : List ℕ) (fuel i : ℕ)
    → IsName ls
    → length ls < fuel
    → rhnlen_loop fuel (wire ls ++ rest) i ≡ ok (i + length (wire ls))
unfolding rhnlen_loop
rhnlen_loop-wire ls rest zero i h f = elim f [ ]
rhnlen_loop-wire [] rest (suc fuel) i h f = refl
rhnlen_loop-wire (l ∷ ls) rest (suc fuel) i h f = rw drop-wire (
    ground (arith, rhnlen_loop-wire ls rest fuel (i + 1 + length l) h.1, length-append l (wire ls)))

fuel_suffices : (ls : List (List ℕ)) (rest : List ℕ) → length ls < suc (length (wire ls ++ rest))
fuel_suffices ls rest = omega (arith, length-lt-wire ls, length-append (wire ls) rest)

-- `rhnlen` is the length of the encoding, its zero byte counted, whatever follows it.
pub rhnlen-wire :
    (ls : List (List ℕ)) (rest : List ℕ)
    → IsName ls
    → rhnlen (wire ls ++ rest) ≡ ok (length (wire ls))
unfolding rhnlen
rhnlen-wire ls rest h = rhnlen_loop-wire ls rest _ 0 h (fuel_suffices ls rest) ∙ ap ok (omega arith)

-- `skipsegs` points at the encoding of the labels that are left after `k` of them.
pub skipsegs-wire :
    (ls : List (List ℕ)) (rest : List ℕ) (k : ℕ)
    → IsName ls
    → skipsegs (wire ls ++ rest) k ≡ ok (wire (drop k ls) ++ rest)
unfolding skipsegs
skipsegs-wire ls rest zero h = refl
skipsegs-wire [] rest (suc k) h = refl
skipsegs-wire (l ∷ ls) rest (suc k) h = rw drop-wire (ground (arith, skipsegs-wire ls rest k h.1))

skiprhn_loop-wire :
    (ls : List (List ℕ)) (rest : List ℕ) (fuel : ℕ)
    → IsName ls
    → length ls < fuel
    → skiprhn_loop fuel (wire ls ++ rest) ≡ ok rest
unfolding skiprhn_loop
skiprhn_loop-wire ls rest zero h f = elim f [ ]
skiprhn_loop-wire [] rest (suc fuel) h f = refl
skiprhn_loop-wire (l ∷ ls) rest (suc fuel) h f =
    rw drop-wire (ground (arith, skiprhn_loop-wire ls rest fuel h.1))

-- `skiprhn` points right behind the zero byte of the name.
pub skiprhn-wire :
    (ls : List (List ℕ)) (rest : List ℕ) → IsName ls → skiprhn (wire ls ++ rest) ≡ ok rest
unfolding skiprhn
skiprhn-wire ls rest h = skiprhn_loop-wire ls rest _ h (fuel_suffices ls rest)

rhnsegcnt_loop-wire :
    (ls : List (List ℕ)) (rest : List ℕ) (fuel res : ℕ)
    → IsName ls
    → length ls < fuel
    → rhnsegcnt_loop fuel (wire ls ++ rest) res ≡ ok (res + length ls)
unfolding rhnsegcnt_loop
rhnsegcnt_loop-wire ls rest zero res h f = elim f [ ]
rhnsegcnt_loop-wire [] rest (suc fuel) res h f = ap ok (omega arith)
rhnsegcnt_loop-wire (l ∷ ls) rest (suc fuel) res h f =
    rw drop-wire (ground (arith, rhnsegcnt_loop-wire ls rest fuel (res + 1) h.1))

-- `rhnsegcnt` is the number of labels.
pub rhnsegcnt-wire :
    (ls : List (List ℕ)) (rest : List ℕ) → IsName ls → rhnsegcnt (wire ls ++ rest) ≡ ok (length ls)
unfolding rhnsegcnt
rhnsegcnt-wire ls rest h =
    rhnsegcnt_loop-wire ls rest _ 0 h (fuel_suffices ls rest) ∙ ap ok (omega arith)

-- Counting and skipping agree: the segments of a name after `k` of them number `k` fewer, and
-- `skipsegs` by the count reaches the zero byte right before where `skiprhn` points.
pub skipsegs-rhnsegcnt :
    (ls : List (List ℕ)) (rest : List ℕ)
    → IsName ls
    → (rhnsegcnt (wire ls ++ rest) >>= skipsegs (wire ls ++ rest)) ≡ ok (0 ∷ rest)
skipsegs-rhnsegcnt ls rest h =
    rw (rhnsegcnt-wire ls rest h, ◌>>=◌) (skipsegs-wire ls rest _ h ∙ rw drop-length)

-- A name of at most 256 bytes is copied to the front of the buffer, which is left as it was behind.
pub rhncpy-wire :
    (dst : List ℕ) (ls : List (List ℕ)) (rest : List ℕ)
    → IsName ls
    → length (wire ls) ≤ dns_name_buf_size
    → length (wire ls) ≤ length dst
    → rhncpy dst (wire ls ++ rest) ≡ ok (length (wire ls), wire ls ++ drop (length (wire ls)) dst)
unfolding rhncpy
rhncpy-wire dst ls rest h fits room =
    rw (rhnlen-wire ls rest h, ◌>>=◌)
      (ground (arith, take-append (wire ls) rest, length-append (wire ls) rest))
