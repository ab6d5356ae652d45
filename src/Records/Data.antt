-- ===== src/Records/Data.antt =====
-- The data of records stay inside the message and the buffers.
use orbot_library.Prelude.{
  ℕ, zero, suc, ◌+◌, ◌-◌, ◌*◌, ◌≤◌, ◌≡◌, refl, ap, ◌∙◌, List, [], ◌∷◌, ◌++◌, Bool, true, false, not,
  ok, ltb, ◌==◌, if◌then◌else◌, Returns, Returns-if, Returns->>=, read-Returns, length,
  length-append, length-take, take, replicate, arith,
}
use orbot_library.Message.{Refusal, truncated, format_error, Decoded, decoded, refused}
use orbot_library.Message.Decompress.{Decoding, decompress_name-Decoding}
use orbot_library.Query.{rc_format}
use orbot_library.Records.{
  Rdata, bad_data, as_is, buffered, rebuilt, Part, no_part, part, data_code, bytes_at,
  copy_bytes_at, names_at, whole, names_data, prefixed_data, soa_rest, nxt_rest,
}

pub length-replicate : (n : ℕ) (b : ℕ) → length (replicate n b) ≡ n
length-replicate zero b = refl
length-replicate (suc n) b = ap suc (length-replicate n b)

pub bytes_at-Returns :
    (k : ℕ) (msg : List ℕ) (p : ℕ)
    → p + k ≤ length msg
    → Returns (bytes_at k msg p) (λ bs. length bs ≡ k)
unfolding bytes_at
bytes_at-Returns zero msg p h = (_, refl, refl)
bytes_at-Returns (suc k) msg p h =
    let (b, e) = read-Returns msg p (omega arith) in
    let (bs, run, same) = bytes_at-Returns k msg (p + 1) (omega arith) in
    (b ∷ bs, rw (e, run) refl, ap suc same)

pub copy_bytes_at-Returns :
    (k : ℕ) (msg : List ℕ) (p room : ℕ)
    → p + k ≤ length msg
    → k ≤ room
    → Returns (copy_bytes_at k msg p room) (λ bs. length bs ≡ k)
unfolding copy_bytes_at
copy_bytes_at-Returns k msg p room h fits =
    Returns-if _ (ltb room k) (λ over. absurd (ground (arith, over)))
      (λ _. bytes_at-Returns k msg p h)

-- The place behind the names is where the record's end is, and at most 256 bytes a name have come
-- to those in the buffer.
abbrev pub Parts : List ℕ → ℕ → ℕ → Part → Type 0
Parts msg end most (no_part code) = code ≡ rc_format
Parts msg end most (part bptr blcnt db) = (bptr + blcnt ≡ end) × (length db ≤ most)

pub data_code-format : (why : Refusal) → data_code why ≡ rc_format
unfolding data_code
data_code-format truncated = refl
data_code-format format_error = refl

pub names_at-Parts :
    (k : ℕ) (msg : List ℕ) (bptr blcnt : ℕ) (db : List ℕ) (room end : ℕ)
    → bptr + blcnt ≡ end
    → k * 256 ≤ room
    → Returns (names_at k msg bptr blcnt db room) (Parts msg end (length db + k * 256))
unfolding names_at
names_at-Parts zero msg bptr blcnt db room end e h = (_, refl, (e, omega arith))
names_at-Parts (suc k) msg bptr blcnt db room end e h =
    let (r, run, d) =
      decompress_name-Decoding msg bptr blcnt (replicate room 0)
        (omega (arith, length-replicate room 0)) in
    Returns->>= _ _ run (behind r d (λ b n x m i j. names_at-Parts k msg b n x m end i j))
  where
    behind :
        (r : Decoded)
        → Decoding msg bptr blcnt blcnt bptr 0 [] (replicate room 0) r
        → ((b n : ℕ) (x : List ℕ) (m : ℕ)
            → b + n ≡ end
            → k * 256 ≤ m
            → Returns (names_at k msg b n x m) (Parts msg end (length x + k * 256)))
        → Returns {V = Part}
            (elim r [
              | refused why ↦ ok (no_part (data_code why))
              | decoded bptr' blcnt' len out ↦
                  names_at k msg bptr' blcnt' (db ++ take len out) (room - len)
            ])
            (Parts msg end (length db + suc k * 256))
    behind (refused why) d next = (_, refl, data_code-format why)
    behind (decoded bptr' blcnt' len out) (ls, _, _, _, most, _, moved, _) next =
        let (p, run, parts) =
          next bptr' blcnt' (db ++ take len out) (room - len) (moved ∙ e) (omega arith) in
        (p, run, more p parts)
      where
        more :
            (p : Part)
            → Parts msg end (length (db ++ take len out) + k * 256) p
            → Parts msg end (length db + suc k * 256) p
        more (no_part code) c = c
        more (part b n x) (inside, size) =
            (inside, omega (arith, size, length-append db (take len out), length-take len out))

-- A code is RC_FORMAT, a buffer's contents fit into the largest of the buffers, and a block's data
-- are at most 256 bytes longer than the record's.
abbrev pub InBuffers : ℕ → Rdata → Type 0
InBuffers rdlength (bad_data code) = code ≡ rc_format
InBuffers rdlength as_is = Unit
InBuffers rdlength (buffered db) = length db ≤ 1040
InBuffers rdlength (rebuilt db) = length db ≤ rdlength + 256

module _ (msg : List ℕ) (rdlength : ℕ) where
  pub whole-InBuffers :
      (end most : ℕ) (p : Part) → most ≤ 1040 → Parts msg end most p → InBuffers rdlength (whole p)
  unfolding whole
  whole-InBuffers end most (no_part code) h c = c
  whole-InBuffers end most (part bptr zero db) h (_, size) = omega (arith, size)
  whole-InBuffers end most (part bptr (suc n) db) h (_, size) =
      let left : not (suc n == 0) ≡ true = ground arith in rw (left) refl

  pub names_data-InBuffers :
      (k bptr blcnt size : ℕ)
      → k * 256 ≤ size
      → size ≤ 1040
      → Returns (names_data k msg bptr blcnt size) (InBuffers rdlength)
  unfolding names_data
  names_data-InBuffers k bptr blcnt size h s =
      let (p, run, parts) = names_at-Parts k msg bptr blcnt [] size (bptr + blcnt) refl h in
      Returns->>= _ _ run
        (whole p, refl, whole-InBuffers (bptr + blcnt) (0 + k * 256) p (omega arith) parts)

  pub prefixed_data-InBuffers :
      (n k bptr blcnt size : ℕ)
      → bptr + blcnt ≤ length msg
      → n + k * 256 ≤ size
      → size ≤ 1040
      → Returns (prefixed_data n k msg bptr blcnt size) (InBuffers rdlength)
  unfolding prefixed_data
  prefixed_data-InBuffers n k bptr blcnt size inside h s =
      Returns-if _ (ltb blcnt n) (λ _. (_, refl, refl))
        λ long.
          let (db, run, same) =
            copy_bytes_at-Returns n msg bptr size (ground (arith, long)) (omega arith) in
          let (p, run2, parts) =
            names_at-Parts k msg (bptr + n) (blcnt - n) db (size - n) (bptr + blcnt)
              (ground (arith, long)) (omega arith) in
          Returns->>= _ _ run (
            Returns->>= _ _ run2 (
              whole p,
              refl,
              whole-InBuffers (bptr + blcnt) (length db + k * 256) p (omega (arith, same)) parts,
            ))

  pub soa_rest-InBuffers :
      (end : ℕ) (p : Part)
      → end ≤ length msg
      → Parts msg end 512 p
      → Returns (soa_rest msg 532 p) (InBuffers rdlength)
  unfolding soa_rest
  soa_rest-InBuffers end (no_part code) inside c = (_, refl, c)
  soa_rest-InBuffers end (part bptr blcnt db) inside (e, size) =
      Returns-if _ (ltb blcnt 20) (λ _. (_, refl, refl))
        λ long.
          let (rest, run, same) =
            copy_bytes_at-Returns 20 msg bptr (532 - length db) (ground (arith, long, e))
              (omega (arith, size)) in
          Returns->>= _ _ run (_, refl, ended (not (blcnt - 20 == 0)) rest same)
    where
      ended :
          (b : Bool) (rest : List ℕ)
          → length rest ≡ 20
          → InBuffers rdlength (if b then bad_data rc_format else buffered (db ++ rest))
      ended true rest same = refl
      ended false rest same = omega (arith, size, same, length-append db rest)

  pub nxt_rest-InBuffers :
      (end : ℕ) (p : Part)
      → end ≤ length msg
      → Parts msg end 256 p
      → Returns (nxt_rest msg 1040 p) (InBuffers rdlength)
  unfolding nxt_rest
  nxt_rest-InBuffers end (no_part code) inside c = (_, refl, c)
  nxt_rest-InBuffers end (part bptr blcnt db) inside (e, size) =
      Returns-if _ (ltb 1040 (length db + blcnt)) (λ _. (_, refl, refl))
        λ fits.
          let (rest, run, same) =
            copy_bytes_at-Returns blcnt msg bptr (1040 - length db) (omega (arith, e))
              (ground (arith, fits)) in
          Returns->>= _ _ run (_, refl, ground (arith, fits, same, length-append db rest))
