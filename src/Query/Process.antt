-- ===== src/Query/Process.antt =====
-- process_query up to the composition of the answer.
use orbot_library.Prelude.{
  ℕ, List, [], ◌∷◌, Bool, true, false, ◌&&◌, ◌||◌, not, Option, none, some, Run, ok, ◌>>=◌, ltb,
  ◌==◌, if◌then◌else◌, length,
}
use orbot_library.Header.{Header, read_header}
use orbot_library.Query.{
  rc_ok, rc_format, rc_notsupp, rc_badvers, rc_trunc, QueryEl, Decode, decode_query, EdnsInfo,
  Additional, decode_query_additional,
}

-- What is done with a query: nothing is sent, an error is replied, or an answer is composed for the
-- questions, with the EDNS information and the largest size of an answer by UDP.
pub data Verdict : Type 0 where
  discard : Verdict
  error_reply : ℕ → Verdict
  compose : List QueryEl → Option EdnsInfo → Option ℕ → Verdict

-- UDP_BUFSIZE.
abbrev pub udp_bufsize : ℕ
udp_bufsize = 512

-- The bound on the answer's size, where `udp` is not NULL; `limit` is global.udpbufsize.
unfoldable pub bound_udp : ℕ → Option ℕ → EdnsInfo → Option ℕ
bound_udp limit none e = none
bound_udp limit (some udp) e =
    if ltb udp_bufsize e.udpsize
    then some (if ltb e.udpsize limit then e.udpsize else limit)
    else some udp

unfoldable pub is_none_asked : List QueryEl → Bool
is_none_asked [] = true
is_none_asked (q ∷ ql) = false

-- From the test on the list of questions on.
unfoldable pub verdict_on : List QueryEl → Option EdnsInfo → Option ℕ → Verdict
verdict_on ql edns udp = if is_none_asked ql then error_reply rc_format else compose ql edns udp

-- The tests on the additional section.
unfoldable pub verdict_on_additional : ℕ → Header → Option ℕ → List QueryEl → Additional → Verdict
unfolding bound_udp
verdict_on_additional limit hdr udp ql a =
    if not ((a.res == rc_ok) || ((a.res == rc_trunc) && not (hdr.tc == 0)))
    then error_reply rc_format
    else if a.numopt == 0
    then verdict_on ql none udp
    else if not (a.ep.version == 0)
    then error_reply rc_badvers
    else if not (a.ep.rcode == 0)
    then error_reply rc_format
    else verdict_on ql (some a.ep) (bound_udp limit udp a.ep)

-- From the result of decode_query on.
unfoldable pub verdict_on_questions : ℕ → List ℕ → Header → Option ℕ → Decode → Run Verdict
verdict_on_questions limit data_ hdr udp d =
    if not (d.res == rc_ok) && not (d.res == rc_trunc)
    then ok (error_reply d.res)
    else if (d.res == rc_trunc) && ((hdr.tc == 0) || is_none_asked d.ql)
    then ok (error_reply rc_format)
    else if hdr.arcount == 0
    then ok (verdict_on d.ql none udp)
    else if d.res == rc_trunc
    then ok (error_reply rc_format)
    else (decode_query_additional hdr.arcount data_ d.ptr d.sz 0
          (record { udpsize = 0; rcode = 0; version = 0; do_flg = 0 })
        >>= λ a. ok (verdict_on_additional limit hdr udp d.ql a))

-- The tests on the header; `none` lets the message pass.
unfoldable pub verdict_on_header : Header → Option Verdict
verdict_on_header hdr =
    if not (hdr.qr == 0)
    then some discard
    else if not (hdr.opcode == 0)
    then some (error_reply rc_notsupp)
    else if not (hdr.z == 0)
    then some (error_reply rc_format)
    else if not (hdr.rcode == 0)
    then some discard
    else if not (hdr.ancount == 0)
    then some (error_reply rc_format)
    else if not (hdr.nscount == 0)
    then some (error_reply rc_format)
    else none

unfoldable pub process_query : ℕ → List ℕ → Option ℕ → ℕ → Run Verdict
process_query limit data_ udp room =
    if ltb (length data_) 2
    then ok discard
    else if ltb (length data_) 12
    then ok (error_reply rc_format)
    else (read_header data_ >>= λ hdr. elim (verdict_on_header hdr) [
      | some v ↦ ok v
      | none ↦ decode_query data_ room >>= λ d. verdict_on_questions limit data_ hdr udp d
    ])
