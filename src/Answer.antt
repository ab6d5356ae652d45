-- ===== src/Answer.antt =====
-- The writing of a record to an answer in pdnsd/src/dns_answer.c: add_rr. The message behind its
-- length field is the list of its bytes, as many as *sz. The children hold the loops over the records
-- of an RR set, the RR sets, and the order of the records.
pub mod Rounds
pub mod Sets
pub mod Rotation
pub mod Limits
pub mod Bounds
pub mod Growth
pub mod Additional
pub mod Compose
pub mod Pseudo
pub mod Ending
use orbot_library.Prelude.{
  ℕ, zero, suc, ◌+◌, ◌-◌, ◌*◌, ◌/◌, ◌%◌, List, [], ◌∷◌, ◌++◌, Bool, true, false, ◌&&◌, ◌||◌, not,
  ltb, leb, ◌==◌, if◌then◌else◌, Option, none, some, Run, ok, halt, assertion, out_of_bounds, read,
  length, take, drop, replicate,
}
use orbot_library.Name.{rhnlen}
use orbot_library.Header.{put_int16, put_int32}
use orbot_library.Compress.{Compel, compress_name}
use orbot_library.Query.Opt.{grow_message}

-- The message, the size of its block, and the list of names for the compression.
pub record Reply : Type 0 where
  pub bytes : List ℕ
  pub allocsz : ℕ
  pub cb : List Compel

-- What follows a part of the code; `none` is the result 0.
infixl 5 ◌>>=◌
abbrev pub ◌>>=◌ {ℓ κ} :
    {A : Type ℓ} {B : Type κ} → Run (Option A) → (A → Run (Option B)) → Run (Option B)
halt why >>= k = halt why
ok none >>= k = ok none
ok (some a) >>= k = k a

abbrev pub whole {ℓ} : {A : Type ℓ} → Run A → Run (Option A)
whole (halt why) = halt why
whole (ok a) = ok (some a)

-- PDNSD_ASSERT.
abbrev pub assert {ℓ} : {A : Type ℓ} → Bool → Run (Option A) → Run (Option A)
assert true k = k
assert false k = halt assertion

-- A copy to the end of the message, inside its block.
unfoldable pub put_bytes : List ℕ → Reply → Run (Option Reply)
put_bytes new m =
    if ltb m.allocsz (2 + length m.bytes + length new)
    then halt out_of_bounds
    else ok (some (record m { bytes = m.bytes ++ new }))

-- A copy of the first `n` bytes of `data_`.
unfoldable pub put_from : ℕ → List ℕ → Reply → Run (Option Reply)
unfolding put_bytes
put_from n data_ m = if ltb (length data_) n then halt out_of_bounds else put_bytes (take n data_) m

-- compress_name of the name at `data_` to the end of the message: its result, and the message.
unfoldable pub put_name : Bool → List ℕ → Reply → Run (Option (ℕ × Reply))
unfolding put_bytes
put_name room data_ m = whole (compress_name room data_ (length m.bytes) m.cb) >>= λ r.
    if r.0 == 0
    then ok none
    else (put_bytes r.1.0 (record m { cb = r.1.1 }) >>= λ m2. ok (some (r.0, m2)))

-- A part of the message overwritten.
unfoldable pub patch : ℕ → List ℕ → List ℕ → List ℕ
patch p new bytes = take p bytes ++ (new ++ drop (p + length new) bytes)

-- S_ANSWER, S_AUTHORITY and S_ADDITIONAL.
pub data Section : Type 0 where
  answer authority additional : Section

-- The place of the section's count in the header.
unfoldable pub count_at : Section → ℕ
count_at answer = 6
count_at authority = 8
count_at additional = 10

-- ++count of a section.
unfoldable pub count_record : Section → List ℕ → Run (Option (List ℕ))
unfolding patch count_at
count_record sect bytes = whole (read bytes (count_at sect)) >>= λ hi.
    whole (read bytes (count_at sect + 1)) >>= λ lo.
    ok (some (patch (count_at sect) (put_int16 ((hi * 256 + lo + 1) % 65536)) bytes))

-- The cases of the switch on the type, by how the data of a record is made up. Each gives rdlen.
unfoldable pub one_name : Bool → List ℕ → ℕ → Reply → Run (Option (ℕ × Reply))
one_name room data_ dlen m = put_name room data_ m >>= λ r. assert (leb r.0 dlen) (ok (some r))

-- One name behind `n` bytes.
unfoldable pub behind : Bool → ℕ → List ℕ → ℕ → Reply → Run (Option (ℕ × Reply))
behind room n data_ dlen m = put_from n data_ m >>= λ m1.
    put_name room (drop n data_) m1 >>= λ r. assert (leb (n + r.0) dlen) (ok (some (n + r.0, r.1)))

-- Two names behind `n` bytes: rdlen and ilen after them.
unfoldable pub two_names : Bool → ℕ → List ℕ → Reply → Run (Option ((ℕ × ℕ) × Reply))
two_names room n data_ m = put_from n data_ m >>= λ m1. put_name room (drop n data_) m1 >>= λ r.
    whole (rhnlen (drop n data_)) >>= λ len. assert (leb (n + r.0) (n + len)) (
      put_name room (drop (n + len) data_) r.1 >>= λ q.
      whole (rhnlen (drop (n + len) data_)) >>= λ len2.
      ok (some ((n + r.0 + q.0, n + len + len2), q.1)))

unfoldable pub soa_data : Bool → List ℕ → ℕ → Reply → Run (Option (ℕ × Reply))
unfolding two_names
soa_data room data_ dlen m = two_names room 0 data_ m >>= λ r. assert (leb r.0.0 r.0.1) (
    put_from 20 (drop r.0.1 data_) r.1 >>= λ m2.
    assert (leb (r.0.0 + 20) dlen) (ok (some (r.0.0 + 20, m2))))

unfoldable pub pair_data : Bool → ℕ → List ℕ → ℕ → Reply → Run (Option (ℕ × Reply))
unfolding two_names
pair_data room n data_ dlen m =
    two_names room n data_ m >>= λ r. assert (leb r.0.0 dlen) (ok (some (r.0.0, r.1)))

unfoldable pub nxt_data : Bool → List ℕ → ℕ → Reply → Run (Option (ℕ × Reply))
nxt_data room data_ dlen m = put_name room data_ m >>= λ r. whole (rhnlen data_) >>= λ ilen.
    assert (leb r.0 ilen && leb ilen dlen) (
      if ltb ilen dlen
      then (put_from (dlen - ilen) (drop ilen data_) r.1 >>= λ m2.
          ok (some (r.0 + (dlen - ilen), m2)))
      else ok (some r))

-- The loop over the `n` strings of a NAPTR record that are left.
unfoldable pub naptr_strings : ℕ → List ℕ → ℕ → ℕ → Run (Option ℕ)
naptr_strings zero data_ dlen ilen = ok (some ilen)
naptr_strings (suc n) data_ dlen ilen = whole (read data_ ilen) >>= λ b.
    assert (ltb (ilen + (b + 1)) dlen) (naptr_strings n data_ dlen (ilen + (b + 1)))

unfoldable pub naptr_data : Bool → List ℕ → ℕ → Reply → Run (Option (ℕ × Reply))
unfolding naptr_strings behind
naptr_data room data_ dlen m =
    assert (ltb 4 dlen) (naptr_strings 3 data_ dlen 4 >>= λ ilen. behind room ilen data_ dlen m)

unfoldable pub is_one_of : ℕ → List ℕ → Bool
is_one_of type [] = false
is_one_of type (t ∷ ts) = type == t || is_one_of type ts

-- The switch on the type.
unfoldable pub put_data : Bool → ℕ → List ℕ → ℕ → Reply → Run (Option (ℕ × Reply))
unfolding is_one_of one_name behind pair_data soa_data nxt_data naptr_data
put_data room type data_ dlen m =
    if is_one_of type (5 ∷ 7 ∷ 3 ∷ 4 ∷ 8 ∷ 9 ∷ 2 ∷ 12 ∷ [])
    then one_name room data_ dlen m
    else if is_one_of type (14 ∷ 17 ∷ [])
    then pair_data room 0 data_ dlen m
    else if is_one_of type (15 ∷ 18 ∷ 21 ∷ 36 ∷ [])
    then assert (ltb 2 dlen) (behind room 2 data_ dlen m)
    else if type == 6
    then soa_data room data_ dlen m
    else if type == 26
    then assert (ltb 2 dlen) (pair_data room 2 data_ dlen m)
    else if type == 33
    then assert (ltb 6 dlen) (behind room 6 data_ dlen m)
    else if type == 30
    then nxt_data room data_ dlen m
    else if type == 35
    then naptr_data room data_ dlen m
    else (put_from dlen data_ m >>= λ m2. ok (some (dlen, m2)))

-- Whether a record is dropped because a limit of UDP is passed; `none` is a NULL pointer.
unfoldable pub over_limit : Option ℕ → ℕ → Section → Bool
over_limit (some udp) sz additional = ltb udp sz
over_limit (some udp) sz answer = false
over_limit (some udp) sz authority = false
over_limit none sz sect = false

-- The growth of the block for a record whose name takes `nlen` bytes and whose data `dlen`.
unfoldable pub make_room : Bool → ℕ → ℕ → Reply → Run (Option Reply)
unfolding grow_message
make_room room nlen dlen m =
    elim (grow_message room (2 + length m.bytes + nlen + 10 + dlen) m.allocsz) [
      | none ↦ ok none
      | some n ↦ ok (some (record m { allocsz = n }))
    ]

-- The end of add_rr: the record is dropped, or its head is filled in at `rrht`.
unfoldable pub finish_rr : ℕ → ℕ → ℕ → ℕ → Section → Option ℕ → ℕ → Reply → Run (Option Reply)
unfolding over_limit patch
finish_rr osz rrht type ttl sect udp rdlen m =
    if over_limit udp (length m.bytes) sect
    then ok (some (record m { bytes = take osz m.bytes }))
    else (count_record sect (
          patch rrht (put_int16 type ++ (put_int16 1 ++ (put_int32 ttl ++ put_int16 rdlen)))
            m.bytes)
        >>= λ b. ok (some (record m { bytes = b })))

-- add_rr. The 10 bytes of the head are zeros until it is filled in.
unfoldable pub add_rr :
    Bool → List ℕ → ℕ → ℕ → ℕ → List ℕ → Section → Option ℕ → Reply → Run (Option Reply)
unfolding make_room put_data finish_rr
add_rr room rrn type ttl dlen data_ sect udp m =
    whole (compress_name room rrn (length m.bytes) m.cb) >>= λ n.
    if n.0 == 0
    then ok none
    else (make_room room n.0 dlen (record m { cb = n.1.1 }) >>= λ m1. put_bytes n.1.0 m1 >>= λ m2.
        put_bytes (replicate 10 0) m2 >>= λ m3. put_data room type data_ dlen m3 >>= λ r.
        finish_rr (length m.bytes) (length m2.bytes) type ttl sect udp r.0 r.1)
