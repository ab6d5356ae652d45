-- ===== src/Name/Safety.antt =====
-- `isnormalencdomname` on any buffer: it returns, and accepts exactly the buffers that begin with
-- a name of the standard form within the limit.
use orbot_library.Prelude.{
  ℕ, zero, suc, ◌+◌, ◌-◌, ◌≤◌, ◌<◌, ◌≡◌, sym, ap, ◌∙◌, ◌↔◌, List, [], ◌∷◌, ◌++◌, Bool, true, false,
  ok, ltb, leb, ◌==◌, if◌then◌else◌, arith, length, take, drop, length-append, append_assoc,
  take-append-drop, Bool-cases, inl, inr, length-take, length-drop, min, ok-injective,
}
use orbot_library.Name.{isnormalencdomname_loop, isnormalencdomname, dns_name_buf_size}
use orbot_library.Name.Labels.{IsName, wire, drop-wire, length-wire-pos, length-lt-wire}

-- The buffer begins with a name of at most `room` bytes.
abbrev pub BeginsWithName : List ℕ → ℕ → Type 0
BeginsWithName p room =
    (ls : List (List ℕ)) × (rest : List ℕ) × IsName ls
    × (p ≡ wire ls ++ rest)
    × (length (wire ls) ≤ room)

module _ (m : ℕ) where
  loop_total :
      (fuel : ℕ) (p : List ℕ) (i : ℕ)
      → length p < fuel
      → m ≤ i + length p
      → (b : Bool) × (isnormalencdomname_loop fuel p i m ≡ ok b)
  unfolding isnormalencdomname_loop
  loop_total zero p i f h = elim f [ ]
  loop_total (suc fuel) [] i f h = (false, ground arith)
  loop_total (suc fuel) (lb ∷ p) i f h =
      let (b, e) =
        loop_total fuel (drop lb p) (i + 1 + lb) (omega (arith, length-drop lb p))
          (omega (arith, length-drop lb p)) in
      elim (Bool-cases (leb m i)) [
        | inl full ↦ (false, rw full)
        | inr room ↦ elim (Bool-cases (lb == 0)) [
          | inl end ↦ (true, rw (room, end))
          | inr more ↦ elim (Bool-cases (ltb 63 lb)) [
            | inl long ↦ (false, rw (room, more, long))
            | inr short ↦ (b, rw (room, more, short) e)
          ]
        ]
      ]

  loop_sound :
      (fuel : ℕ) (p : List ℕ) (i : ℕ)
      → isnormalencdomname_loop fuel p i m ≡ ok true
      → (i < m) × BeginsWithName p (m - i)
  unfolding isnormalencdomname_loop
  loop_sound zero p i h = cc
  loop_sound (suc fuel) [] i h = ground arith
  loop_sound (suc fuel) (lb ∷ p) i h = elim (Bool-cases (lb == 0)) [
    | inl end ↦ (ground arith, ([], p, tt, ground arith, ground arith))
    | inr more ↦
        let (less, (ls, rest, names, e, fits)) =
          loop_sound fuel (drop lb p) (i + 1 + lb) (ground arith) in
        let inside : lb < length p = omega (
          arith,
          ap length e,
          length-drop lb p,
          length-append (wire ls) rest,
          length-wire-pos ls,
        ) in
        let size : length (take lb p) ≡ lb = omega (arith, length-take lb p) in
        (
          omega arith,
          (
            take lb p ∷ ls,
            rest,
            (ground arith, names),
            rw (size, append_assoc, ← e, take-append-drop),
            omega (arith, length-append (take lb p) (wire ls)),
          ),
        )
  ]

  loop_complete :
      (fuel : ℕ) (ls : List (List ℕ)) (rest : List ℕ) (i : ℕ)
      → length ls < fuel
      → IsName ls
      → i + length (wire ls) ≤ m
      → isnormalencdomname_loop fuel (wire ls ++ rest) i m ≡ ok true
  unfolding isnormalencdomname_loop
  loop_complete zero ls rest i f n h = elim f [ ]
  loop_complete (suc fuel) [] rest i f n h = ground arith
  loop_complete (suc fuel) (l ∷ ls) rest i f n h = rw drop-wire (
      ground (
        arith,
        loop_complete fuel ls rest (i + 1 + length l) (omega arith) n.1,
        length-append l (wire ls),
        length-wire-pos ls,
      ))

-- On a buffer that is as long as the limit, which is `maxlen` or 256 if that is less,
-- `isnormalencdomname` reads inside the buffer, returns, and returns 1 exactly when the buffer
-- begins with labels of 1 to 63 bytes and a zero byte, all within the limit.
pub isnormalencdomname_iff :
    (buf : List ℕ) (maxlen : ℕ)
    → min maxlen dns_name_buf_size ≤ length buf
    → (b : Bool) × (isnormalencdomname buf maxlen ≡ ok b)
      × ((b ≡ true) ↔ BeginsWithName buf (min maxlen dns_name_buf_size))
unfolding isnormalencdomname
isnormalencdomname_iff buf maxlen h =
    let m = if ltb dns_name_buf_size maxlen then dns_name_buf_size else maxlen in
    let limit : m ≡ min maxlen dns_name_buf_size = ground arith in
    let (b, run) = loop_total m (suc (length buf)) buf 0 (omega arith) (omega arith) in
    (
      b,
      run,
      (
        λ accepted.
            let (ls, rest, n, e, fits) = (loop_sound m _ buf 0 (run ∙ ap ok accepted)).1 in
            (ls, rest, n, e, omega arith),
        λ (ls, rest, n, e, fits). ok-injective (
            sym run
            ∙ rw e (
                loop_complete m _ ls rest 0
                  (omega (arith, length-lt-wire ls, length-append (wire ls) rest)) n
                  (omega arith))),
      ),
    )
