-- ===== src/Text.antt =====
-- Names as text: str2rhn, parsestr2rhn and rhn2str of pdnsd/src/helpers.c. A text is the list of
-- the bytes from its pointer on, a buffer the list of its bytes; a read or write outside halts.
pub mod Spelling
pub mod Rounds
pub mod Loop
pub mod ToName
pub mod Print
use orbot_library.Prelude.{
  ℕ, zero, suc, ◌+◌, ◌-◌, ◌/◌, ◌%◌, List, [], ◌∷◌, ◌++◌, Bool, true, false, Option, none, some,
  ◌&&◌, ◌||◌, not, Run, ok, halt, out_of_bounds, no_fuel, ◌>>=◌, read, write, ltb, leb, ◌==◌,
  if◌then◌else◌, length, take, drop,
}

-- How the inner loop of str2rhn ends: by `return 0`, or at position `j` of the text, with the text
-- from there on.
pub data Copied : Type 0 where
  too_long : List ℕ → Copied
  stopped : ℕ → List ℕ → List ℕ → Copied

-- The inner loop over `j`; `s` is `str + j`.
unfoldable pub copy_label : List ℕ → ℕ → ℕ → List ℕ → Run Copied
copy_label [] j jlim rhn = halt out_of_bounds
copy_label (c ∷ s) j jlim rhn =
    if c == 0 || c == b'.'
    then ok (stopped j (c ∷ s) rhn)
    else if leb jlim j
    then ok (too_long rhn)
    else write rhn (j + 1) c >>= λ out. copy_label s (j + 1) jlim out

-- `jlim` of the label that begins at `i`.
unfoldable pub label_limit : ℕ → ℕ
label_limit i = if ltb 254 (i + 63) then 254 else i + 63

-- What follows the outer loop of str2rhn.
unfoldable pub str2rhn_finish : ℕ → ℕ → List ℕ → Run (Bool × List ℕ)
str2rhn_finish i j rhn = write rhn i 0 >>= λ out. ok (not (ltb i j || i == 0), out)

-- The outer loop; `s` is `str + i`.
unfoldable pub str2rhn_loop : ℕ → List ℕ → ℕ → List ℕ → Run (Bool × List ℕ)
unfolding copy_label label_limit str2rhn_finish
str2rhn_loop zero s i rhn = halt no_fuel
str2rhn_loop (suc fuel) s i rhn = copy_label s i (label_limit i) rhn >>= λ r. elim r [
  | too_long out ↦ ok (false, out)
  | stopped j s' out ↦ read s' 0 >>= λ c.
      if c == 0
      then str2rhn_finish i j out
      else if leb j i
      then ok (false, out)
      else write out i ((j - i) % 256) >>= λ out'. str2rhn_loop fuel (drop 1 s') (j + 1) out'
]

-- Whether the text converts, and the buffer afterwards.
unfoldable pub str2rhn : List ℕ → List ℕ → Run (Bool × List ℕ)
str2rhn str rhn =
    let general = str2rhn_loop (suc (length str)) str 0 rhn in
    read str 0 >>= λ c.
    if c == b'.'
    then (read str 1 >>= λ d. if d == 0 then (write rhn 0 0 >>= λ out. ok (true, out)) else general)
    else general

-- The messages of parsestr2rhn.
pub data Message : Type 0 where
  element_too_long empty_element empty_name : Message

unfoldable pub copy_part : List ℕ → ℕ → ℕ → ℕ → List ℕ → Run Copied
copy_part [] len j jlim rhn = if ltb j len then halt out_of_bounds else ok (stopped j [] rhn)
copy_part (c ∷ s) len j jlim rhn =
    if ltb j len && not (c == 0 || c == b'.')
    then (if leb jlim j
        then ok (too_long rhn)
        else write rhn (j + 1) c >>= λ out. copy_part s len (j + 1) jlim out)
    else ok (stopped j (c ∷ s) rhn)

-- `j < len && str[j]`, with `s` for `str + j`.
unfoldable pub more_text : List ℕ → ℕ → ℕ → Run Bool
more_text s len j = if ltb j len then (read s 0 >>= λ c. ok (not (c == 0))) else ok false

unfoldable pub parsestr2rhn_finish : ℕ → List ℕ → Run (Option Message × List ℕ)
parsestr2rhn_finish i rhn =
    write rhn i 0 >>= λ out. ok (if i == 0 then some empty_name else none, out)

unfoldable pub parsestr2rhn_loop : ℕ → List ℕ → ℕ → ℕ → List ℕ → Run (Option Message × List ℕ)
unfolding copy_part label_limit more_text parsestr2rhn_finish
parsestr2rhn_loop zero s len i rhn = halt no_fuel
parsestr2rhn_loop (suc fuel) s len i rhn = copy_part s len i (label_limit i) rhn >>= λ r. elim r [
  | too_long out ↦ ok (some element_too_long, out)
  | stopped j s' out ↦ more_text s' len j >>= λ more.
      if leb j i
      then (if more then ok (some empty_element, out) else parsestr2rhn_finish i out)
      else write out i ((j - i) % 256) >>= λ out'. elim more [
        | true ↦ parsestr2rhn_loop fuel (drop 1 s') len (j + 1) out'
        | false ↦ parsestr2rhn_finish (j + 1) out'
      ]
]

-- The message, or `none` for success, and the buffer afterwards.
unfoldable pub parsestr2rhn : List ℕ → ℕ → List ℕ → Run (Option Message × List ℕ)
parsestr2rhn str len rhn =
    let general = parsestr2rhn_loop (suc (length str)) str len 0 rhn in
    let root = write rhn 0 0 >>= λ out. ok (none, out) in
    if ltb 0 len
    then (read str 0 >>= λ c.
        if c == b'.'
        then (if len == 1 then root else read str 1 >>= λ d. if d == 0 then root else general)
        else general)
    else general

-- C's isgraph in the C locale.
unfoldable pub is_graph : ℕ → Bool
is_graph c = ltb 32 c && ltb c 127

-- The printable characters that rhn2str puts a backslash before.
unfoldable pub is_special : ℕ → Bool
is_special c = c == b'.' || c == b'\\' || c == b'"'

-- What snprintf(&str[j], rem, text) stores: at most `rem - 1` characters, and a zero.
unfoldable pub store_at : List ℕ → ℕ → List ℕ → Run (List ℕ)
store_at str j [] = ok str
store_at str j (c ∷ cs) = write str j c >>= λ out. store_at out (j + 1) cs

unfoldable pub snprintf_at : List ℕ → ℕ → ℕ → List ℕ → Run (List ℕ)
unfolding store_at
snprintf_at str j zero text = ok str
snprintf_at str j (suc rem) text = store_at str j (take rem text ++ (0 ∷ []))

-- The format "\\%03o" at a byte.
unfoldable pub octal_escape : ℕ → List ℕ
octal_escape c = b'\\' ∷ (48 + c / 64) ∷ (48 + c / 8 % 8) ∷ (48 + c % 8) ∷ []

-- A part of the loops of rhn2str ends at `goto overflow`, or goes on at `j` with the name from
-- there on.
pub data Printed : Type 0 where
  overflow : List ℕ → Printed
  printed : ℕ → List ℕ → List ℕ → Printed

-- The body of the inner loop behind its first test; `p` is the name behind `c`.
unfoldable pub put_char : ℕ → List ℕ → ℕ → ℕ → List ℕ → Run Printed
put_char c p size j str =
    if is_graph c
    then (if is_special c
        then (write str j b'\\' >>= λ out.
            if leb size (j + 1 + 2)
            then ok (overflow out)
            else write out (j + 1) c >>= λ out'. ok (printed (j + 2) p out'))
        else (write str j c >>= λ out. ok (printed (j + 1) p out)))
    else (let rem = size - 1 - j in
        snprintf_at str j rem (octal_escape c) >>= λ out.
        if leb rem 4
        then (write out j b'.' >>= λ out'. ok (overflow out'))
        else ok (printed (j + 4) p out))

unfoldable pub put_label : ℕ → List ℕ → ℕ → ℕ → List ℕ → Run Printed
unfolding put_char
put_label zero p size j str = ok (printed j p str)
put_label (suc lb) [] size j str =
    if leb size (j + 2) then ok (overflow str) else halt out_of_bounds
put_label (suc lb) (c ∷ p) size j str =
    if leb size (j + 2)
    then ok (overflow str)
    else put_char c p size j str >>= λ r. elim r [
      | overflow out ↦ ok (overflow out)
      | printed j' p' out ↦ put_label lb p size j' out
    ]

-- The trailing dots behind the label `overflow`.
unfoldable pub put_dots : ℕ → ℕ → List ℕ → Run (List ℕ)
put_dots zero j str = ok str
put_dots (suc k) zero str = ok str
put_dots (suc k) (suc j) str = write str j b'.' >>= λ out. put_dots k j out

unfoldable pub rhn2str_loop : ℕ → ℕ → List ℕ → ℕ → ℕ → List ℕ → Run (List ℕ)
unfolding put_label put_dots
rhn2str_loop zero lb p size j str = halt no_fuel
rhn2str_loop (suc fuel) lb p size j str = put_label lb p size j str >>= λ r. elim r [
  | overflow out ↦ write out (size - 1) 0 >>= λ out'. put_dots 3 (size - 1) out'
  | printed j' p' out ↦ write out j' b'.' >>= λ out'. read p' 0 >>= λ lb'.
      let next = rhn2str_loop fuel lb' (drop 1 p') size (j' + 1) out' in
      if lb' == 0 then write out' (j' + 1) 0 else next
]

-- `none` is the NULL returned for an empty buffer; otherwise the buffer afterwards.
unfoldable pub rhn2str : List ℕ → List ℕ → ℕ → Run (Option (List ℕ))
rhn2str rhn str zero = ok none
rhn2str rhn str (suc room) = read rhn 0 >>= λ lb.
    let labels = rhn2str_loop (suc (length rhn)) lb (drop 1 rhn) (suc room) 0 str in
    let root =
      if leb 2 (suc room) then (write str 0 b'.' >>= λ out. write out 1 0) else write str 0 0 in
    (if lb == 0 then root else labels) >>= λ out. ok (some out)
