-- ===== src/Disk.antt =====
-- The disk cache file, and the writing of it, of pdnsd/src/cache.c. The file is the list of its
-- bytes; numbers stand in it as the processors of Android store them, the lowest byte first.
pub mod Reader
pub mod Bytes
pub mod Writing
pub mod Slots
pub mod Sets
pub mod Rounds
pub mod Entries
pub mod Caches
use orbot_library.Prelude.{
  ℕ, zero, suc, ◌+◌, ◌-◌, ◌*◌, ◌/◌, ◌%◌, List, [], ◌∷◌, ◌++◌, Bool, true, false, not, ltb, leb,
  ◌==◌, if◌then◌else◌, Option, none, some, Run, ok, ◌>>=◌, length, take, drop,
}
use orbot_library.Name.{rhnlen}
use orbot_library.RrList.{is_local}
use orbot_library.Cent.{
  RrBucket, RrSet, Cent, is_negative, nrrmu, nrrext, nrrtot, rrarr_index, rrarr_len, getrrset_eff,
}

-- sizeof(time_t) and sizeof(unsigned long).
pub record Widths : Type 0 where
  pub time : ℕ
  pub long : ℕ

-- The bytes of a number of `n` bytes, and the number of some bytes.
unfoldable pub put_le : ℕ → ℕ → List ℕ
put_le zero v = []
put_le (suc n) v = (v % 256) ∷ put_le n (v / 256)

unfoldable pub get_le : List ℕ → ℕ
get_le [] = 0
get_le (b ∷ bytes) = b + 256 * get_le bytes

-- cachverid.
abbrev pub cachverid : List ℕ
cachverid = b'p' ∷ b'd' ∷ b'1' ∷ b'3' ∷ []

-- dns_file_t, dom_fttlts_t, rr_fset_t and rr_fbucket_t in the file.
unfoldable pub file_bytes : ℕ → ℕ → ℕ → ℕ → ℕ → List ℕ
file_bytes qlen num_rrs flags c_ns c_soa =
    put_le 1 qlen ++ (put_le 1 num_rrs ++ (put_le 2 flags ++ (put_le 1 c_ns ++ put_le 1 c_soa)))

unfoldable pub fttlts_bytes : Widths → ℕ → ℕ → List ℕ
fttlts_bytes wd ttl ts = put_le wd.time ttl ++ put_le wd.time ts

unfoldable pub fset_bytes : Widths → ℕ → ℕ → ℕ → ℕ → ℕ → List ℕ
fset_bytes wd tp num_rr flags ttl ts =
    put_le 1 tp
    ++ (put_le 1 num_rr ++ (put_le 2 flags ++ (put_le wd.time ttl ++ put_le wd.time ts)))

unfoldable pub fbucket_bytes : ℕ → List ℕ
fbucket_bytes rdlen = put_le 2 rdlen

-- fwrite to a file that may have `limit` bytes: the result, and the file.
unfoldable pub fwrite : ℕ → List ℕ → List ℕ → Bool × List ℕ
fwrite limit bytes f =
    if leb (length f + length bytes) limit
    then (true, f ++ bytes)
    else (false, f ++ take (limit - length f) bytes)

-- What follows a part of the code that goes on where it has written.
abbrev pub and_then : Bool × List ℕ → (List ℕ → Bool × List ℕ) → Bool × List ℕ
and_then (true, f) next = next f
and_then (false, f) next = (false, f)

-- A write of data that may be empty.
unfoldable pub write_some : ℕ → List ℕ → List ℕ → Bool × List ℕ
unfolding fwrite
write_some limit bytes f = if length bytes == 0 then (true, f) else fwrite limit bytes f

-- The count of records in write_rrset, of at most `n`.
unfoldable pub count_rr : ℕ → List RrBucket → ℕ
count_rr zero rrs = 0
count_rr (suc n) [] = 0
count_rr (suc n) (rr ∷ rrs) = suc (count_rr n rrs)

-- The second loop of write_rrset, over the records that have been counted.
unfoldable pub write_rrs : ℕ → List RrBucket → List ℕ → Bool × List ℕ
unfolding write_some fwrite fbucket_bytes
write_rrs limit [] f = (true, f)
write_rrs limit (rr ∷ rrs) f =
    and_then (fwrite limit (fbucket_bytes rr.rdlen) f)
      (λ f1. and_then (write_some limit (take rr.rdlen rr.rdata) f1) (write_rrs limit rrs))

unfoldable pub write_rrset : Widths → ℕ → ℕ → RrSet → List ℕ → Bool × List ℕ
unfolding write_rrs fset_bytes count_rr
write_rrset wd limit tp rrs f =
    let num_rr = count_rr 255 rrs.rrs in
    and_then (fwrite limit (fset_bytes wd tp num_rr rrs.flags rrs.ttl rrs.ts) f)
      (write_rrs limit (take num_rr rrs.rrs))

-- Whether there is an RR set that is not local.
unfoldable pub is_kept : Option RrSet → Bool
is_kept none = false
is_kept (some rrset) = not (is_local rrset.flags)

-- The loop that looks for an RR set to write, over `n` indices from `i` on.
unfoldable pub any_kept : ℕ → ℕ → Cent → Run Bool
unfolding is_kept
any_kept zero i c = ok false
any_kept (suc n) i c = rrarr_index c i >>= λ s. if is_kept s then ok true else any_kept n (i + 1) c

-- Whether write_disk_cache writes an entry.
unfoldable pub is_written : Cent → Run Bool
unfolding any_kept
is_written c =
    if is_negative c.flags then ok (not (is_local c.flags)) else any_kept (rrarr_len c) 0 c

-- The count of the RR sets for num_rrs in dns_file_t.
unfoldable pub count_kept : ℕ → ℕ → Cent → Run ℕ
unfolding is_kept
count_kept zero i c = ok 0
count_kept (suc n) i c =
    rrarr_index c i >>= λ s. count_kept n (i + 1) c >>= λ k. ok (if is_kept s then k + 1 else k)

-- rrmuiterlist and rrcachiterlist.
abbrev pub rrmuiterlist : List ℕ
rrmuiterlist = 1 ∷ 2 ∷ 5 ∷ 6 ∷ 12 ∷ 15 ∷ 16 ∷ 28 ∷ []

abbrev pub rrcachiterlist : List ℕ
rrcachiterlist =
    1 ∷ 2 ∷ 3 ∷ 4 ∷ 5 ∷ 6 ∷ 7 ∷ 8 ∷ 9 ∷ 10 ∷ 11 ∷ 12 ∷ 13 ∷ 14 ∷ 15 ∷ 16 ∷ 17 ∷ 18 ∷ 19 ∷ 20 ∷ 21
    ∷ 22 ∷ 23 ∷ 24 ∷ 25 ∷ 26 ∷ 27 ∷ 28 ∷ 29 ∷ 30 ∷ 31 ∷ 32 ∷ 33 ∷ 34 ∷ 35 ∷ 36 ∷ 37 ∷ 42 ∷ 43 ∷ 44
    ∷ 45 ∷ 46 ∷ 47 ∷ 48 ∷ 49 ∷ 50 ∷ 51 ∷ []

-- RRITERLIST with NRRITERLIST.
unfoldable pub iterlist : Cent → List ℕ
iterlist c =
    if is_negative c.flags
    then []
    else (elim c.rrext [ none ↦ rrmuiterlist | some _ ↦ rrcachiterlist ])

unfoldable pub write_set : Widths → ℕ → ℕ → Option RrSet → List ℕ → Bool × List ℕ
unfolding write_rrset
write_set wd limit tp none f = (true, f)
write_set wd limit tp (some rrset) f =
    if is_local rrset.flags then (true, f) else write_rrset wd limit tp rrset f

-- The last loop over an entry, over the types that are left.
unfoldable pub write_sets : Widths → ℕ → List ℕ → Cent → List ℕ → Run (Bool × List ℕ)
unfolding write_set
write_sets wd limit [] c f = ok (true, f)
write_sets wd limit (tp ∷ tps) c f = getrrset_eff c tp >>= λ s.
    let (done, f1) = write_set wd limit tp s f in
    if done then write_sets wd limit tps c f1 else ok (false, f1)

-- The TTL and time stamp of a negative entry.
unfoldable pub write_neg : Widths → ℕ → Cent → List ℕ → Bool × List ℕ
unfolding fwrite fttlts_bytes
write_neg wd limit c f =
    if is_negative c.flags then fwrite limit (fttlts_bytes wd c.neg_ttl c.neg_ts) f else (true, f)

-- The part behind write_rrs of write_disk_cache. The warning about a wrong num_rrs is left out.
unfoldable pub write_cent : Widths → ℕ → Cent → List ℕ → Run (Bool × List ℕ)
unfolding write_sets write_neg iterlist count_kept file_bytes
write_cent wd limit c f = rhnlen c.qname >>= λ namesz. count_kept (rrarr_len c) 0 c >>= λ num_rrs.
    let head = file_bytes (namesz - 1) num_rrs c.flags c.c_ns c.c_soa in
    let (done, f1) =
      and_then (fwrite limit head f)
        (λ f2. and_then (write_neg wd limit c f2) (write_some limit (take (namesz - 1) c.qname))) in
    if done then write_sets wd limit (iterlist c) c f1 else ok (false, f1)

-- The loop that counts the entries, over those that fetch_first and fetch_next give.
unfoldable pub count_cents : List Cent → Run ℕ
unfolding is_written
count_cents [] = ok 0
count_cents (c ∷ cents) =
    is_written c >>= λ wanted. count_cents cents >>= λ en. ok (if wanted then en + 1 else en)

-- An entry in the loop that writes the entries.
unfoldable pub write_wanted : Widths → ℕ → Bool → Cent → List ℕ → Run (Bool × List ℕ)
unfolding write_cent
write_wanted wd limit wanted c f = if wanted then write_cent wd limit c f else ok (true, f)

unfoldable pub write_cents : Widths → ℕ → List Cent → List ℕ → Run (Bool × List ℕ)
unfolding write_wanted
write_cents wd limit [] f = ok (true, f)
write_cents wd limit (c ∷ cents) f = is_written c >>= λ wanted.
    write_wanted wd limit wanted c f >>= λ r.
    if r.0 then write_cents wd limit cents r.1 else ok (false, r.1)

-- write_disk_cache from the opened file on, with the entries in the order of the hash table.
unfoldable pub write_disk_cache : Widths → ℕ → List Cent → Run (Bool × List ℕ)
unfolding write_cents count_cents
write_disk_cache wd limit cents =
    let (done, f) = fwrite limit cachverid [] in
    if done
    then (count_cents cents >>= λ en.
        let (done2, f2) = fwrite limit (put_le wd.long en) f in
        if done2 then write_cents wd limit cents f2 else ok (false, f2))
    else ok (false, f)
