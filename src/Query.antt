-- ===== src/Query.antt =====
-- The reading of a client's query in pdnsd/src/dns_answer.c. The message is the list of its bytes,
-- and a pointer into it an offset.
pub mod Process
pub mod Opt
pub mod Pseudo
pub mod Extended
pub mod Refusals
pub mod Questions
pub mod Extras
pub mod Verdicts
use orbot_library.Prelude.{
  ℕ, zero, suc, ◌+◌, ◌-◌, ◌*◌, ◌/◌, ◌%◌, List, [], ◌∷◌, ◌++◌, Bool, true, false, Run, ok, ◌>>=◌,
  read, ltb, ◌==◌, if◌then◌else◌, length, take, replicate,
}
use orbot_library.Message.{
  Refusal, truncated, format_error, Decoded, decoded, refused, decompress_name,
}
use orbot_library.Header.{Header, get_int16, read_header}

-- The codes of dns.h.
abbrev pub rc_ok : ℕ
rc_ok = 0

abbrev pub rc_format : ℕ
rc_format = 1

abbrev pub rc_servfail : ℕ
rc_servfail = 2

abbrev pub rc_notsupp : ℕ
rc_notsupp = 4

abbrev pub rc_badvers : ℕ
rc_badvers = 16

abbrev pub rc_trunc : ℕ
rc_trunc = 0xfffe

unfoldable pub refusal_code : Refusal → ℕ
refusal_code truncated = rc_trunc
refusal_code format_error = rc_format

-- DNSNAMEBUFSIZE bytes on the stack.
abbrev pub name_buffer : List ℕ
name_buffer = replicate 256 0

-- dns_queryel_t.
pub record QueryEl : Type 0 where
  pub qtype : ℕ
  pub qclass : ℕ
  pub query : List ℕ

-- The result of decode_query, the values that it stores through ptrrem and lenrem, and the list.
pub record Decode : Type 0 where
  pub res : ℕ
  pub ptr : ℕ
  pub sz : ℕ
  pub ql : List QueryEl

-- How a round of the loop of decode_query ends: the loop ends, or a question has been read and the
-- next one stands at an offset, with a number of bytes left.
pub data QuestionStep : Type 0 where
  stop : Decode → QuestionStep
  asked : QueryEl → ℕ → ℕ → QuestionStep

-- The rest of a round behind decompress_name; `room` is how many more times llist_grow has memory.
unfoldable pub read_question : List ℕ → ℕ → ℕ → List QueryEl → ℕ → Decoded → Run QuestionStep
read_question data_ ptr sz ql room (refused truncated) =
    ok (stop (record { res = rc_trunc; ptr = ptr; sz = sz; ql = ql }))
read_question data_ ptr sz ql room (refused format_error) =
    ok (stop (record { res = rc_format; ptr = ptr; sz = sz; ql = [] }))
read_question data_ ptr sz ql room (decoded ptr' sz' len qbuf) =
    if ltb sz' 4
    then ok (stop (record { res = rc_trunc; ptr = ptr'; sz = sz'; ql = ql }))
    else if room == 0
    then ok (stop (record { res = rc_servfail; ptr = ptr'; sz = sz'; ql = [] }))
    else (get_int16 data_ ptr' >>= λ qtype. get_int16 data_ (ptr' + 2) >>= λ qclass. ok (
        asked (record { qtype = qtype; qclass = qclass; query = take len qbuf }) (ptr' + 4)
          (sz' - 4)))

-- The loop of decode_query over the `n` questions that are left.
unfoldable pub decode_loop : ℕ → List ℕ → ℕ → ℕ → List QueryEl → ℕ → Run Decode
decode_loop zero data_ ptr sz ql room = ok (record { res = rc_ok; ptr = ptr; sz = sz; ql = ql })
decode_loop (suc n) data_ ptr sz ql room =
    decompress_name data_ (length data_) ptr sz name_buffer >>= λ r.
    read_question data_ ptr sz ql room r >>= λ s. elim s [
      | stop d ↦ ok d
      | asked q ptr' sz' ↦ decode_loop n data_ ptr' sz' (ql ++ (q ∷ [])) (room - 1)
    ]

-- decode_query, for a message of 12 bytes or more.
unfoldable pub decode_query : List ℕ → ℕ → Run Decode
decode_query data_ room =
    read_header data_ >>= λ hdr. decode_loop hdr.qdcount data_ 12 (length data_ - 12) [] room

-- edns_info_t.
pub record EdnsInfo : Type 0 where
  pub udpsize : ℕ
  pub rcode : ℕ
  pub version : ℕ
  pub do_flg : ℕ

-- The result of decode_query_additional, *numopt and *ep.
pub record Additional : Type 0 where
  pub res : ℕ
  pub numopt : ℕ
  pub ep : EdnsInfo

-- An OPT record whose class is `class` and whose TTL field is at `ttlp`.
unfoldable pub opt_info : List ℕ → ℕ → ℕ → Run EdnsInfo
opt_info data_ class ttlp = read_header data_ >>= λ hdr. read data_ ttlp >>= λ t0.
    read data_ (ttlp + 1) >>= λ t1. read data_ (ttlp + 2) >>= λ t2.
    ok
      (record { udpsize = class; rcode = t0 * 16 + hdr.rcode; version = t1; do_flg = t2 / 128 % 2 })

-- The information kept after a record: that of the first OPT record.
unfoldable pub take_opt : List ℕ → ℕ → ℕ → ℕ → ℕ → EdnsInfo → Run (ℕ × EdnsInfo)
take_opt data_ type class ttlp numopt ep =
    if type == 41
    then (if numopt == 0
        then (opt_info data_ class ttlp >>= λ e. ok (1, e))
        else ok (numopt + 1, ep))
    else ok (numopt, ep)

-- How a round of the loop of decode_query_additional goes: it ends with a code, or has read the
-- head of a record: its type, its class, the offset of its TTL and the place behind its data.
pub data Head : Type 0 where
  bad : ℕ → Head
  head : ℕ → ℕ → ℕ → ℕ → ℕ → Head

-- The rest of a round behind decompress_name, up to the test of the type.
unfoldable pub read_head : List ℕ → Decoded → Run Head
read_head data_ (refused why) = ok (bad (refusal_code why))
read_head data_ (decoded ptr sz len nmbuf) =
    if ltb sz 10
    then ok (bad rc_trunc)
    else (get_int16 data_ ptr >>= λ type. get_int16 data_ (ptr + 2) >>= λ class.
        get_int16 data_ (ptr + 8) >>= λ rdlen.
        if ltb (sz - 10) rdlen
        then ok (bad rc_trunc)
        else ok (head type class (ptr + 4) (ptr + 10 + rdlen) (sz - 10 - rdlen)))

-- decode_query_additional, its loop over the `n` records that are left.
unfoldable pub decode_query_additional : ℕ → List ℕ → ℕ → ℕ → ℕ → EdnsInfo → Run Additional
decode_query_additional zero data_ ptr sz numopt ep =
    ok (record { res = rc_ok; numopt = numopt; ep = ep })
decode_query_additional (suc n) data_ ptr sz numopt ep =
    decompress_name data_ (length data_) ptr sz name_buffer >>= λ r. read_head data_ r >>= λ h.
    elim h [
      | bad res ↦ ok (record { res = res; numopt = numopt; ep = ep })
      | head type class ttlp ptr' sz' ↦ take_opt data_ type class ttlp numopt ep >>= λ o.
          decode_query_additional n data_ ptr' sz' o.0 o.1
    ]
