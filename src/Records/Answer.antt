-- ===== src/Records/Answer.antt =====
-- rrs2cent of pdnsd/src/dns_query.c: the records of a section of an answer.
use orbot_library.Prelude.{
  ℕ, zero, suc, ◌+◌, ◌-◌, List, Bool, true, ◌||◌, not, Run, ok, ◌>>=◌, read, ltb, leb, ◌==◌,
  if◌then◌else◌, length,
}
use orbot_library.Message.{Decoded, decoded, refused, decompress_name}
use orbot_library.Header.{get_int16, get_int32}
use orbot_library.Cent.{Sizeof, World, nrrtot, rrlkuptab, allocated}
use orbot_library.Query.{rc_ok, rc_trunc, refusal_code, name_buffer, EdnsInfo, take_opt}
use orbot_library.Records.{Rdata, bad_data, as_is, buffered, rebuilt, bytes_at, rdata}
use orbot_library.Records.Cents.{Centa, rc_fatalerr, rr_to_cache}

-- PDNSD_NOT_CACHED_TYPE.
unfoldable pub not_cached_type : ℕ → Run Bool
not_cached_type type =
    if ltb type 1 || ltb 51 type
    then ok true
    else (read rrlkuptab (type - 1) >>= λ i. ok (leb nrrtot i))

-- The variables of rrs2cent: its result, *ptr, *lcnt, *numopt, *ep, and the array with what its
-- entries share.
pub record Parse : Type 0 where
  pub retval : ℕ
  pub ptr : ℕ
  pub lcnt : ℕ
  pub numopt : ℕ
  pub ep : EdnsInfo
  pub cents : Centa

-- A record's fields, with the places of its TTL and its data.
pub record Rr : Type 0 where
  pub oname : List ℕ
  pub type : ℕ
  pub class : ℕ
  pub ttlp : ℕ
  pub ttl : ℕ
  pub rdlength : ℕ

-- How a round of the loop goes up to a point: it returns, or goes on.
pub data RecordStep (T : Type 0) : Type 0 where
  return : Parse → RecordStep T
  go_on : Parse → T → RecordStep T

-- Up to the test of the data's length.
unfoldable pub read_rr : List ℕ → Parse → Decoded → Run (RecordStep Rr)
read_rr msg s (refused why) = ok (return (record s { retval = refusal_code why }))
read_rr msg s (decoded ptr lcnt len oname) =
    if ltb lcnt 10
    then ok (return (record s { retval = rc_trunc; ptr = ptr; lcnt = lcnt }))
    else (get_int16 msg ptr >>= λ type. get_int16 msg (ptr + 2) >>= λ class.
        get_int32 msg (ptr + 4) >>= λ ttl. get_int16 msg (ptr + 8) >>= λ rdlength.
        if ltb (lcnt - 10) rdlength
        then ok (return (record s { retval = rc_trunc; ptr = ptr + 10; lcnt = lcnt - 10 }))
        else ok (
            go_on (record s { ptr = ptr + 10; lcnt = lcnt - 10 })
              (record {
                oname = oname;
                type = type;
                class = class;
                ttlp = ptr + 4;
                ttl = ttl;
                rdlength = rdlength;
              })))

-- What follows a call of rr_to_cache.
unfoldable pub filed : Parse → ℕ × Centa → RecordStep Unit
filed s r =
    if r.0 == rc_ok
    then go_on (record s { cents = r.1 }) tt
    else if r.0 == rc_fatalerr
    then return (record s { retval = r.0; cents = r.1 })
    else go_on (record s { retval = r.0; cents = r.1 }) tt

-- The call of rr_to_cache for a record's data.
unfoldable pub put_rr : Sizeof → ℕ → ℕ → Parse → Rr → List ℕ → World → Run (RecordStep Unit)
unfolding filed
put_rr z flags queryts s rr bytes w =
    rr_to_cache z s.cents.centa rr.oname rr.type rr.ttl queryts flags bytes w >>= λ r.
    ok (filed s r)

-- What is done with the data that the switch has made.
unfoldable pub put_rdata : Sizeof → ℕ → ℕ → List ℕ → Parse → Rr → Rdata → Run (RecordStep Unit)
put_rdata z flags queryts msg s rr (bad_data code) = ok (return (record s { retval = code }))
put_rdata z flags queryts msg s rr as_is =
    bytes_at rr.rdlength msg s.ptr >>= λ bytes. put_rr z flags queryts s rr bytes s.cents.world
put_rdata z flags queryts msg s rr (buffered db) = put_rr z flags queryts s rr db s.cents.world
put_rdata z flags queryts msg s rr (rebuilt db) =
    if s.cents.world.room == 0
    then ok (return (record s { retval = rc_fatalerr }))
    else put_rr z flags queryts s rr db (allocated s.cents.world)

-- A record of an OPT type, one to be cached, and one that is skipped.
unfoldable pub use_rr : Sizeof → ℕ → ℕ → List ℕ → Parse → Rr → Run (RecordStep Unit)
use_rr z flags queryts msg s rr =
    if rr.type == 41
    then (take_opt msg rr.type rr.class rr.ttlp s.numopt s.ep >>= λ o.
        ok (go_on (record s { numopt = o.0; ep = o.1 }) tt))
    else (not_cached_type rr.type >>= λ uncached.
        if uncached || not (rr.class == 1)
        then ok (go_on s tt)
        else (rdata rr.type msg s.ptr rr.rdlength >>= λ d. put_rdata z flags queryts msg s rr d))

-- The loop over the `n` records that are left.
unfoldable pub rrs_loop : ℕ → Sizeof → ℕ → ℕ → List ℕ → Parse → Run Parse
rrs_loop zero z flags queryts msg s = ok s
rrs_loop (suc n) z flags queryts msg s =
    decompress_name msg (length msg) s.ptr s.lcnt name_buffer >>= λ d. read_rr msg s d >>= λ h.
    elim h [
      | return t ↦ ok t
      | go_on t rr ↦ use_rr z flags queryts msg t rr >>= λ u. elim u [
        | return v ↦ ok v
        | go_on v _ ↦
            rrs_loop n z flags queryts msg
              (record v { ptr = v.ptr + rr.rdlength; lcnt = v.lcnt - rr.rdlength })
      ]
    ]

unfoldable pub rrs2cent : ℕ → Sizeof → ℕ → ℕ → List ℕ → Parse → Run Parse
rrs2cent recnum z flags queryts msg s =
    rrs_loop recnum z flags queryts msg (record s { retval = rc_ok })
