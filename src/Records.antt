-- ===== src/Records.antt =====
-- The data of the records in a server's answer, in rrs2cent of pdnsd/src/dns_query.c. The message
-- is the list of its bytes, and a pointer into it an offset.
pub mod Cents
pub mod Answer
pub mod Data
pub mod Kinds
pub mod Keeping
pub mod Filing
pub mod Fresh
pub mod Entries
pub mod Heads
pub mod Reading
use orbot_library.Prelude.{
  ℕ, zero, suc, ◌+◌, ◌-◌, ◌%◌, List, [], ◌∷◌, ◌++◌, Bool, true, false, ◌||◌, not, Option, none,
  some, Run, ok, halt, out_of_bounds, ◌>>=◌, read, ltb, leb, ◌==◌, if◌then◌else◌, length, take,
  drop, replicate,
}
use orbot_library.Name.{isnormalencdomname}
use orbot_library.Message.{Refusal, truncated, format_error, decoded, refused, decompress_name}
use orbot_library.Query.{rc_format}

-- What the switch on the type makes of a record's data: it returns a code, takes the data as they
-- are (default_case), hands over the contents of a buffer on the stack, or those of a block that
-- it asks malloc for.
pub data Rdata : Type 0 where
  bad_data : ℕ → Rdata
  as_is : Rdata
  buffered : List ℕ → Rdata
  rebuilt : List ℕ → Rdata

-- Names in a record's data: a code, or bptr and blcnt behind them and the bytes in the buffer.
pub data Part : Type 0 where
  no_part : ℕ → Part
  part : ℕ → ℕ → List ℕ → Part

-- rc==RC_TRUNC?RC_FORMAT:rc.
unfoldable pub data_code : Refusal → ℕ
data_code truncated = rc_format
data_code format_error = rc_format

-- memcpy of `k` bytes out of the message.
unfoldable pub bytes_at : ℕ → List ℕ → ℕ → Run (List ℕ)
bytes_at zero msg p = ok []
bytes_at (suc k) msg p = read msg p >>= λ b. bytes_at k msg (p + 1) >>= λ bs. ok (b ∷ bs)

-- memcpy into a buffer with room for `room` bytes.
unfoldable pub copy_bytes_at : ℕ → List ℕ → ℕ → ℕ → Run (List ℕ)
copy_bytes_at k msg p room = if ltb room k then halt out_of_bounds else bytes_at k msg p

-- `k` names one after the other, decompressed behind the bytes `db`, where the buffer has room for
-- `room` more.
unfoldable pub names_at : ℕ → List ℕ → ℕ → ℕ → List ℕ → ℕ → Run Part
names_at zero msg bptr blcnt db room = ok (part bptr blcnt db)
names_at (suc k) msg bptr blcnt db room =
    decompress_name msg (length msg) bptr blcnt (replicate room 0) >>= λ r. elim r [
      | refused why ↦ ok (no_part (data_code why))
      | decoded bptr' blcnt' len out ↦ names_at k msg bptr' blcnt' (db ++ take len out) (room - len)
    ]

-- The test that nothing is left.
unfoldable pub whole : Part → Rdata
whole (no_part code) = bad_data code
whole (part bptr blcnt db) = if not (blcnt == 0) then bad_data rc_format else buffered db

-- T_CNAME and the like, T_MINFO and T_RP: `k` names.
unfoldable pub names_data : ℕ → List ℕ → ℕ → ℕ → ℕ → Run Rdata
unfolding whole
names_data k msg bptr blcnt size = names_at k msg bptr blcnt [] size >>= λ r. ok (whole r)

-- T_MX and the like, T_PX and T_SRV: `n` bytes, and `k` names behind them.
unfoldable pub prefixed_data : ℕ → ℕ → List ℕ → ℕ → ℕ → ℕ → Run Rdata
prefixed_data n k msg bptr blcnt size =
    if ltb blcnt n
    then ok (bad_data rc_format)
    else (copy_bytes_at n msg bptr size >>= λ db.
        names_at k msg (bptr + n) (blcnt - n) db (size - n) >>= λ r. ok (whole r))

-- T_SOA behind its names, and T_NXT behind its name.
unfoldable pub soa_rest : List ℕ → ℕ → Part → Run Rdata
soa_rest msg size (no_part code) = ok (bad_data code)
soa_rest msg size (part bptr blcnt db) =
    if ltb blcnt 20
    then ok (bad_data rc_format)
    else (copy_bytes_at 20 msg bptr (size - length db) >>= λ rest.
        ok (if not (blcnt - 20 == 0) then bad_data rc_format else buffered (db ++ rest)))

unfoldable pub nxt_rest : List ℕ → ℕ → Part → Run Rdata
nxt_rest msg size (no_part code) = ok (bad_data code)
nxt_rest msg size (part bptr blcnt db) =
    if ltb size (length db + blcnt)
    then ok (bad_data rc_format)
    else (copy_bytes_at blcnt msg bptr (size - length db) >>= λ rest. ok (buffered (db ++ rest)))

-- T_NAPTR: the length of the preference field and of the `j` text strings behind `len` bytes;
-- `none` where they are not inside the record.
unfoldable pub naptr_length : ℕ → List ℕ → ℕ → ℕ → ℕ → Run (Option ℕ)
naptr_length zero msg bptr blcnt len = ok (if ltb blcnt len then none else some len)
naptr_length (suc j) msg bptr blcnt len =
    if leb blcnt len
    then ok none
    else (read msg (bptr + len) >>= λ b. naptr_length j msg bptr blcnt (len + (b % 256 + 1)))

unfoldable pub naptr_data : List ℕ → ℕ → ℕ → ℕ → Run Rdata
naptr_data msg bptr blcnt size = naptr_length 3 msg bptr blcnt 4 >>= λ l. elim l [
  | none ↦ ok (bad_data rc_format)
  | some len ↦ copy_bytes_at len msg bptr size >>= λ db.
      names_at 1 msg (bptr + len) (blcnt - len) db (size - len) >>= λ r. ok (whole r)
]

-- A name at bptr that should not be compressed, `n` bytes behind the start `ptr` of the data.
unfoldable pub plain_name : ℕ → List ℕ → ℕ → ℕ → ℕ → Run Rdata
plain_name n msg ptr bptr blcnt = isnormalencdomname (drop bptr msg) blcnt >>= λ normal.
    if normal
    then ok as_is
    else (decompress_name msg (length msg) bptr blcnt (replicate 256 0) >>= λ r. elim r [
      | refused why ↦ ok (bad_data (data_code why))
      | decoded bptr' blcnt' len out ↦ bytes_at n msg ptr >>= λ first.
          bytes_at blcnt' msg bptr' >>= λ rest. ok (rebuilt (first ++ (take len out ++ rest)))
    ])

-- T_IPSECKEY, by the type of its gateway.
unfoldable pub ipseckey_gateway : ℕ → List ℕ → ℕ → ℕ → Run Rdata
ipseckey_gateway gwtp msg ptr blcnt =
    if gwtp == 0
    then ok as_is
    else if gwtp == 1
    then ok (if ltb blcnt 4 then bad_data rc_format else as_is)
    else if gwtp == 2
    then ok (if ltb blcnt 16 then bad_data rc_format else as_is)
    else if gwtp == 3
    then plain_name 3 msg ptr (ptr + 3) blcnt
    else ok (bad_data rc_format)

unfoldable pub ipseckey_data : List ℕ → ℕ → ℕ → Run Rdata
ipseckey_data msg ptr blcnt =
    if ltb blcnt 3
    then ok (bad_data rc_format)
    else (read msg (ptr + 1) >>= λ gwtp. ipseckey_gateway gwtp msg ptr (blcnt - 3))

unfoldable pub rrsig_data : List ℕ → ℕ → ℕ → Run Rdata
rrsig_data msg ptr blcnt =
    if ltb blcnt 18 then ok (bad_data rc_format) else plain_name 18 msg ptr (ptr + 18) (blcnt - 18)

-- T_CNAME, T_MB, T_MD, T_MF, T_MG, T_MR, T_NS and T_PTR; T_MINFO and T_RP; T_MX, T_AFSDB, T_RT and
-- T_KX.
unfoldable pub has_name : ℕ → Bool
has_name t =
    (t == 5) || (t == 7) || (t == 3) || (t == 4) || (t == 8) || (t == 9) || (t == 2) || (t == 12)

unfoldable pub has_names : ℕ → Bool
has_names t = (t == 14) || (t == 17)

unfoldable pub has_preference : ℕ → Bool
has_preference t = (t == 15) || (t == 18) || (t == 21) || (t == 36)

-- The switch, for data of `rdlength` bytes at `ptr`, with the sizes of the buffers.
unfoldable pub rdata : ℕ → List ℕ → ℕ → ℕ → Run Rdata
rdata type msg ptr rdlength =
    if type == 1
    then ok (if not (rdlength == 4) then bad_data rc_format else as_is)
    else if has_name type
    then names_data 1 msg ptr rdlength 256
    else if has_names type
    then names_data 2 msg ptr rdlength 512
    else if has_preference type
    then prefixed_data 2 1 msg ptr rdlength 258
    else if type == 6
    then (names_at 2 msg ptr rdlength [] 532 >>= λ r. soa_rest msg 532 r)
    else if type == 28
    then ok (if not (rdlength == 16) then bad_data rc_format else as_is)
    else if type == 26
    then prefixed_data 2 2 msg ptr rdlength 514
    else if type == 33
    then prefixed_data 6 1 msg ptr rdlength 262
    else if type == 30
    then (names_at 1 msg ptr rdlength [] 1040 >>= λ r. nxt_rest msg 1040 r)
    else if type == 35
    then naptr_data msg ptr rdlength 1028
    else if type == 45
    then ipseckey_data msg ptr rdlength
    else if type == 46
    then rrsig_data msg ptr rdlength
    else if type == 47
    then plain_name 0 msg ptr ptr rdlength
    else ok as_is
