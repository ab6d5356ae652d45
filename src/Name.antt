-- ===== src/Name.antt =====
-- The walks over a domain name in length-byte notation of pdnsd/src/helpers.h and helpers.c.
-- A pointer into a name is the list of the bytes from there to the end of its object; a read past
-- that end halts. Each loop moves its pointer forward, so the bytes left bound its rounds.
pub mod Labels
pub mod Walk
pub mod Safety
pub mod Caseless
use orbot_library.Prelude.{
  ℕ, zero, suc, ◌+◌, ◌≤◌, List, [], ◌∷◌, ◌++◌, Bool, true, false, Option, none, some, ◌&&◌, Run, ok,
  halt, out_of_bounds, assertion, no_fuel, ◌>>=◌, ltb, leb, ◌==◌, if◌then◌else◌, length, take, drop,
}

-- DNSNAMEBUFSIZE of dns.h.
abbrev pub dns_name_buf_size : ℕ
dns_name_buf_size = 256

-- C's tolower and toupper on a byte, in the C locale.
unfoldable pub to_lower : ℕ → ℕ
to_lower c = if leb b'A' c && leb c b'Z' then c + 32 else c

-- memcpy(dst, src, n): the bytes of `dst` afterwards.
unfoldable pub memcpy : List ℕ → List ℕ → ℕ → Run (List ℕ)
memcpy dst src n =
    if leb n (length dst) && leb n (length src)
    then ok (take n src ++ drop n dst)
    else halt out_of_bounds

unfoldable pub rhnlen_loop : ℕ → List ℕ → ℕ → Run ℕ
rhnlen_loop zero p i = halt no_fuel
rhnlen_loop (suc fuel) [] i = halt out_of_bounds
rhnlen_loop (suc fuel) (lb ∷ p) i =
    let next = rhnlen_loop fuel (drop lb p) (i + 1 + lb) in if lb == 0 then ok (i + 1) else next

unfoldable pub rhnlen : List ℕ → Run ℕ
rhnlen rhn = rhnlen_loop (suc (length rhn)) rhn 0

-- Skip at most `k` segments.
unfoldable pub skipsegs : List ℕ → ℕ → Run (List ℕ)
skipsegs nm zero = ok nm
skipsegs [] (suc k) = halt out_of_bounds
skipsegs (lb ∷ nm) (suc k) = if lb == 0 then ok (lb ∷ nm) else skipsegs (drop lb nm) k

unfoldable pub skiprhn_loop : ℕ → List ℕ → Run (List ℕ)
skiprhn_loop zero p = halt no_fuel
skiprhn_loop (suc fuel) [] = halt out_of_bounds
skiprhn_loop (suc fuel) (lb ∷ p) =
    let next = skiprhn_loop fuel (drop lb p) in if lb == 0 then ok p else next

unfoldable pub skiprhn : List ℕ → Run (List ℕ)
skiprhn rhn = skiprhn_loop (suc (length rhn)) rhn

unfoldable pub rhnsegcnt_loop : ℕ → List ℕ → ℕ → Run ℕ
rhnsegcnt_loop zero p res = halt no_fuel
rhnsegcnt_loop (suc fuel) [] res = halt out_of_bounds
rhnsegcnt_loop (suc fuel) (lb ∷ p) res =
    let next = rhnsegcnt_loop fuel (drop lb p) (res + 1) in if lb == 0 then ok res else next

unfoldable pub rhnsegcnt : List ℕ → Run ℕ
rhnsegcnt rhn = rhnsegcnt_loop (suc (length rhn)) rhn 0

-- The number of bytes copied, and `dst` afterwards.
unfoldable pub rhncpy : List ℕ → List ℕ → Run (ℕ × List ℕ)
unfolding rhnlen memcpy
rhncpy dst src = do
  len ← rhnlen src
  if leb len dns_name_buf_size then (do out ← memcpy dst src len; ok (len, out)) else halt assertion

unfoldable pub isnormalencdomname_loop : ℕ → List ℕ → ℕ → ℕ → Run Bool
isnormalencdomname_loop zero p i maxlen = halt no_fuel
isnormalencdomname_loop (suc fuel) [] i maxlen =
    if leb maxlen i then ok false else halt out_of_bounds
isnormalencdomname_loop (suc fuel) (lb ∷ p) i maxlen =
    let next = isnormalencdomname_loop fuel (drop lb p) (i + 1 + lb) maxlen in
    if leb maxlen i
    then ok false
    else if lb == 0
    then ok true
    else if ltb 0x3f lb
    then ok false
    else next

unfoldable pub isnormalencdomname : List ℕ → ℕ → Run Bool
isnormalencdomname rhn maxlen =
    isnormalencdomname_loop (suc (length rhn)) rhn 0
      (if ltb dns_name_buf_size maxlen then dns_name_buf_size else maxlen)

-- The inner loop of rhnicmp over the `lb` bytes of a segment; `none` is its `return 0`.
unfoldable pub same_segment : ℕ → List ℕ → List ℕ → Run (Option (List ℕ × List ℕ))
same_segment zero a b = ok (some (a, b))
same_segment (suc lb) [] b = halt out_of_bounds
same_segment (suc lb) (x ∷ a) [] = halt out_of_bounds
same_segment (suc lb) (x ∷ a) (y ∷ b) =
    if to_lower x == to_lower y then same_segment lb a b else ok none

unfoldable pub rhnicmp_loop : ℕ → List ℕ → List ℕ → Run Bool
rhnicmp_loop zero a b = halt no_fuel
rhnicmp_loop (suc fuel) [] b = halt out_of_bounds
rhnicmp_loop (suc fuel) (lb ∷ a) [] = halt out_of_bounds
rhnicmp_loop (suc fuel) (lb ∷ a) (lb' ∷ b) =
    let next = same_segment lb a b >>= λ r. elim r [
      | none ↦ ok false
      | some (a', b') ↦ rhnicmp_loop fuel a' b'
    ] in
    if lb == lb' then (if lb == 0 then ok true else next) else ok false

-- Whether two names are the same but for the case of letters.
unfoldable pub rhnicmp : List ℕ → List ℕ → Run Bool
rhnicmp a b = rhnicmp_loop (suc (length a)) a b
