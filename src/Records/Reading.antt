-- ===== src/Records/Reading.antt =====
-- rrs2cent on every message.
use orbot_library.Prelude.{
  ℕ, zero, suc, ◌+◌, ◌-◌, ◌≤◌, ◌≡◌, refl, ap, ◌∙◌, ◌⊎◌, inl, inr, List, Bool, true, false, ◌||◌,
  not, ok, ◌>>=◌, read, Returns, Returns-if, Returns->>=, ◌==◌, if◌then◌else◌, length, arith,
}
use orbot_library.Message.Decompress.{decompress_name-Decoding}
use orbot_library.Cent.{Sizeof, World, allocated}
use orbot_library.Query.{rc_ok, name_buffer}
use orbot_library.Query.Extras.{take_opt-Returns}
use orbot_library.Records.{Rdata, bad_data, as_is, buffered, rebuilt, rdata}
use orbot_library.Records.Data.{bytes_at-Returns, InBuffers}
use orbot_library.Records.Kinds.{rdata-InBuffers}
use orbot_library.Records.Cents.{Centa, rc_fatalerr, rr_to_cache}
use orbot_library.Records.Filing.{Kept, Holds}
use orbot_library.Records.Entries.{rr_to_cache-Filed}
use orbot_library.Records.Answer.{
  Parse, Rr, RecordStep, return, go_on, filed, put_rr, put_rdata, use_rr, rrs_loop, rrs2cent,
}
use orbot_library.Records.Heads.{
  Cached, not_cached_type-Cached, InOrder, IsRead, Rounds, read_rr-Rounds,
}

module _ (z : Sizeof) (msg : List ℕ) where
  -- *ptr and *lcnt stay as they are.
  abbrev Stays : Parse → Parse → Unit {0} → Type 0
  Stays s t _ = (t.ptr ≡ s.ptr) × (t.lcnt ≡ s.lcnt)

  put_rr-Rounds :
      (flags queryts : ℕ) (s : Parse) (rr : Rr) (bytes : List ℕ) (w : World)
      → InOrder z msg s
      → IsRead msg s rr
      → Cached rr.type false
      → Returns (put_rr z flags queryts s rr bytes w) (Rounds z msg (Stays s))
  unfolding put_rr filed
  put_rr-Rounds flags queryts s rr bytes w (e, (kept, code)) (_, (_, (ls, (name, (rest, same)))))
        (i, (known, below)) =
      let (r, run, (kept2, result)) =
        rr_to_cache-Filed z ls rr.type i bytes rr.ttl queryts flags name known below s.cents.centa
          rest w kept in
      Returns->>= _ _
        (ap (λ o. rr_to_cache z s.cents.centa o rr.type rr.ttl queryts flags bytes w) same ∙ run)
        (_, refl, by_code r kept2 result)
    where
      by_code :
          (r : ℕ × Centa)
          → Kept z r.1.centa
          → (((r.0 ≡ rc_ok) × Holds ls rr.type bytes r.1.centa) ⊎ (r.0 ≡ rc_fatalerr))
          → Rounds z msg (Stays s) (filed s r)
      by_code (c, cents) kept2 (inl (is, _)) = rw (is) ((e, (kept2, code)), (refl, refl))
      by_code (c, cents) kept2 (inr is) = rw (is) (e, (kept2, refl))

  put_rdata-Rounds :
      (flags queryts : ℕ) (s : Parse) (rr : Rr) (d : Rdata)
      → InOrder z msg s
      → IsRead msg s rr
      → Cached rr.type false
      → InBuffers rr.rdlength d
      → Returns (put_rdata z flags queryts msg s rr d) (Rounds z msg (Stays s))
  unfolding put_rdata
  put_rdata-Rounds flags queryts s rr (bad_data code) (e, (kept, _)) r c is =
      (_, refl, (e, (kept, rw (is) refl)))
  put_rdata-Rounds flags queryts s rr as_is (e, keeps) (fits, r) c is =
      let (bytes, run, _) = bytes_at-Returns rr.rdlength msg s.ptr (omega (arith, e, fits)) in
      Returns->>= _ _ run
        (put_rr-Rounds flags queryts s rr bytes s.cents.world (e, keeps) (fits, r) c)
  put_rdata-Rounds flags queryts s rr (buffered db) o r c is =
      put_rr-Rounds flags queryts s rr db s.cents.world o r c
  put_rdata-Rounds flags queryts s rr (rebuilt db) (e, (kept, code)) r c is =
      Returns-if (Rounds z msg (Stays s)) (s.cents.world.room == 0)
        (λ _. (_, refl, (e, (kept, refl))))
        λ _. put_rr-Rounds flags queryts s rr db (allocated s.cents.world) (e, (kept, code)) r c

  use_rr-Rounds :
      (flags queryts : ℕ) (s : Parse) (rr : Rr)
      → 12 ≤ length msg
      → InOrder z msg s
      → IsRead msg s rr
      → Returns (use_rr z flags queryts msg s rr) (Rounds z msg (Stays s))
  unfolding use_rr
  use_rr-Rounds flags queryts s rr n (e, o) (fits, (ttl, r)) =
      Returns-if (Rounds z msg (Stays s)) (rr.type == 41)
        (λ _.
          let (opt, run, _) = take_opt-Returns msg rr.type rr.class rr.ttlp s.numopt s.ep n ttl in
          Returns->>= _ _ run (_, refl, ((e, o), (refl, refl))))
        λ _.
          let (uncached, run, c) = not_cached_type-Cached rr.type in
          Returns->>= _ _ run (by_class uncached c)
    where
      by_class :
          (uncached : Bool)
          → Cached rr.type uncached
          → Returns {V = RecordStep (Unit {0})}
              (if uncached || not (rr.class == 1)
                then ok (go_on s tt)
                else (rdata rr.type msg s.ptr rr.rdlength >>= λ d.
                    put_rdata z flags queryts msg s rr d))
              (Rounds z msg (Stays s))
      by_class true _ = (_, refl, ((e, o), (refl, refl)))
      by_class false c =
          Returns-if (Rounds z msg (Stays s)) (not (rr.class == 1))
            (λ _. (_, refl, ((e, o), (refl, refl))))
            λ _.
              let (d, run, is) =
                rdata-InBuffers msg rr.rdlength rr.type s.ptr (omega (arith, e, fits)) in
              Returns->>= _ _ run
                (put_rdata-Rounds flags queryts s rr d (e, o) (fits, (ttl, r)) c is)

  rrs_loop-InOrder :
      (n flags queryts : ℕ) (s : Parse)
      → 12 ≤ length msg
      → InOrder z msg s
      → Returns (rrs_loop n z flags queryts msg s) (InOrder z msg)
  unfolding rrs_loop
  rrs_loop-InOrder zero flags queryts s h o = (s, refl, o)
  rrs_loop-InOrder (suc n) flags queryts s h o =
      let (d, run, decoding) =
        decompress_name-Decoding msg s.ptr s.lcnt name_buffer (omega arith) in
      let (r, run2, round) = read_rr-Rounds z msg s d o decoding in
      Returns->>= _ _ run
        (Returns->>= _ _ run2 (with_head r round (λ t k. rrs_loop-InOrder n flags queryts t h k)))
    where
      with_body :
          (t : Parse) (rr : Rr) (u : RecordStep (Unit {0}))
          → rr.rdlength ≤ t.lcnt
          → Rounds z msg (Stays t) u
          → ((v : Parse)
              → InOrder z msg v
              → Returns (rrs_loop n z flags queryts msg v) (InOrder z msg))
          → Returns {V = Parse}
              (elim u [
                | return v ↦ ok v
                | go_on v _ ↦
                    rrs_loop n z flags queryts msg
                      (record v { ptr = v.ptr + rr.rdlength; lcnt = v.lcnt - rr.rdlength })
              ])
              (InOrder z msg)
      with_body t rr (return v) fits is next = (v, refl, is)
      with_body t rr (go_on v _) fits ((e, keeps), (p, l)) next =
          next (record v { ptr = v.ptr + rr.rdlength; lcnt = v.lcnt - rr.rdlength })
            (omega (arith, e, p, l, fits), keeps)

      with_head :
          (r : RecordStep Rr)
          → Rounds z msg (IsRead msg) r
          → ((v : Parse)
              → InOrder z msg v
              → Returns (rrs_loop n z flags queryts msg v) (InOrder z msg))
          → Returns {V = Parse}
              (elim r [
                | return t ↦ ok t
                | go_on t rr ↦ use_rr z flags queryts msg t rr >>= λ u. elim u [
                  | return v ↦ ok v
                  | go_on v _ ↦
                      rrs_loop n z flags queryts msg
                        (record v { ptr = v.ptr + rr.rdlength; lcnt = v.lcnt - rr.rdlength })
                ]
              ])
              (InOrder z msg)
      with_head (return t) is next = (t, refl, is)
      with_head (go_on t rr) (is, (fits, read)) next =
          let (u, run, round) = use_rr-Rounds flags queryts t rr h is (fits, read) in
          Returns->>= _ _ run (with_body t rr u fits round next)

-- On every message of 12 bytes or more, and for every number of records, rrs2cent from a place whose
-- distance from the end is *lcnt reads inside the message, writes inside its buffers and returns,
-- whether or not memory runs out. *ptr and *lcnt meet the end of the message again, the code is
-- RC_OK, RC_FORMAT, RC_TRUNC or RC_FATALERR, and the array stands in a block of the right size, its
-- entries not local, named by labels, and with right accounts, where that was so before.
pub rrs2cent-InOrder :
    (recnum : ℕ) (z : Sizeof) (flags queryts : ℕ) (msg : List ℕ) (s : Parse)
    → 12 ≤ length msg
    → s.ptr + s.lcnt ≡ length msg
    → Kept z s.cents.centa
    → Returns (rrs2cent recnum z flags queryts msg s) (InOrder z msg)
unfolding rrs2cent
rrs2cent-InOrder recnum z flags queryts msg s h e kept =
    rrs_loop-InOrder z msg recnum flags queryts (record s { retval = rc_ok }) h (e, (kept, refl))
