-- ===== src/Tests/Queries.antt =====
-- A query for the addresses of "a", read, answered with an OPT record, and its header.
use orbot_library.Prelude.{
  ℕ, ◌+◌, ◌*◌, ◌≡◌, refl, List, [], ◌∷◌, ◌++◌, none, some, ok, arith, replicate, read, write,
  Returns, ◌≤◌, true,
}
use orbot_library.Message.{decompress_name, direct_loop, jumped_loop, copy_bytes, pointer_offset}
use orbot_library.Header.{Header, header_of, get_int16, put_int16, read_header, header_bytes}
use orbot_library.Header.Fields.{Fits}
use orbot_library.Header.Layout.{IsLaidOut, read_header-IsLaidOut}
use orbot_library.Query.{
  EdnsInfo, read_question, decode_loop, decode_query, read_head, take_opt, opt_info,
  decode_query_additional,
}
use orbot_library.Query.Questions.{Questions, decode_query-Questions}
use orbot_library.Query.Extras.{decode_query_additional-Returns}
use orbot_library.Query.Process.{
  bound_udp, is_none_asked, verdict_on, verdict_on_additional, verdict_on_questions,
  verdict_on_header, process_query, compose, error_reply, discard,
}
use orbot_library.Query.Verdicts.{Justified, process_query-Justified}
use orbot_library.Query.Opt.{
  mk_error_reply, opcode_of, error_answer, grow_message, set_arcount, opt_bytes, put_opt,
  add_opt_pseudo_rr,
}
use orbot_library.Query.Pseudo.{Restored, add_opt_pseudo_rr-Restored}
use orbot_library.Query.Extended.{ReadBack, decode_query_additional-add_opt_pseudo_rr}
use orbot_library.Query.Refusals.{Told, error_answer-Told}

abbrev asking : Header
asking = record {
  id = 0x1234;
  qr = 0;
  opcode = 0;
  aa = 0;
  tc = 0;
  rd = 1;
  ra = 0;
  z = 0;
  ad = 0;
  cd = 0;
  rcode = 0;
  qdcount = 1;
  ancount = 0;
  nscount = 0;
  arcount = 1;
}

-- One question, for type A of "a", and an OPT record of version 0 for 4096 bytes.
abbrev opt_record : List ℕ
opt_record = 0 ∷ 0 ∷ 41 ∷ 16 ∷ 0 ∷ 0 ∷ 0 ∷ 0x80 ∷ 0 ∷ 0 ∷ 0 ∷ []

abbrev query : List ℕ
query =
    0x12 ∷ 0x34 ∷ 1 ∷ 0 ∷ 0 ∷ 1 ∷ 0 ∷ 0 ∷ 0 ∷ 0 ∷ 0 ∷ 1 ∷ 1 ∷ b'a' ∷ 0 ∷ 0 ∷ 1 ∷ 0 ∷ 1 ∷ opt_record

process_query_run :
    process_query 1024 query (some 512) 5
    ≡ ok (
        compose
          (record { qtype = 1; qclass = 1; query = 1 ∷ b'a' ∷ 0 ∷ [] } ∷ [])
          (some (record { udpsize = 4096; rcode = 0; version = 0; do_flg = 1 }))
          (some 1024))
unfolding process_query verdict_on_header verdict_on_questions verdict_on_additional verdict_on
    is_none_asked bound_udp decode_query decode_loop read_question decode_query_additional read_head
    take_opt opt_info read_header header_of get_int16 decompress_name direct_loop jumped_loop
    copy_bytes pointer_offset read write
process_query_run = refl

-- A message that is itself a response is not answered.
process_query_response : process_query 1024 (0 ∷ 0 ∷ 0x80 ∷ replicate 9 0) none 5 ≡ ok discard
unfolding process_query verdict_on_header read_header header_of get_int16 read
process_query_response = refl

-- A question without a type is refused.
process_query_short :
    process_query 1024 (0 ∷ 0 ∷ 0 ∷ 0 ∷ 0 ∷ 1 ∷ (replicate 6 0 ++ (0 ∷ 0 ∷ []))) none 5
    ≡ ok (error_reply 1)
unfolding process_query verdict_on_header verdict_on_questions is_none_asked decode_query
    decode_loop read_question read_header header_of get_int16 decompress_name direct_loop
    jumped_loop copy_bytes pointer_offset read write
process_query_short = refl

asking_fits : Fits asking
asking_fits = record {
  id = omega arith;
  qr = omega arith;
  opcode = omega arith;
  aa = omega arith;
  tc = omega arith;
  rd = omega arith;
  ra = omega arith;
  z = omega arith;
  ad = omega arith;
  cd = omega arith;
  rcode = omega arith;
  qdcount = omega arith;
  ancount = omega arith;
  nscount = omega arith;
  arcount = omega arith;
}

read_header-IsLaidOut_example : Returns (read_header query) (IsLaidOut query)
read_header-IsLaidOut_example = read_header-IsLaidOut query (omega arith) (omega arith)

decode_query-Questions_example :
    (hdr : Header) × ((read_header query ≡ ok hdr)
      × Returns (decode_query query 5) (Questions query hdr.qdcount))
decode_query-Questions_example = decode_query-Questions query 5 (omega arith)

decode_query_additional-Returns_example :
    Returns
      (decode_query_additional 1 query 19 11 0
        (record { udpsize = 0; rcode = 0; version = 0; do_flg = 0 }))
      (λ a.
        (0 ≤ a.numopt)
        × (a.numopt ≤ 0 + 1)
        × (a.numopt ≡ 0 → a.ep ≡ record { udpsize = 0; rcode = 0; version = 0; do_flg = 0 }))
decode_query_additional-Returns_example =
    decode_query_additional-Returns 1 query 19 11 0
      (record { udpsize = 0; rcode = 0; version = 0; do_flg = 0 }) (omega arith) refl

process_query-Justified_example : Returns (process_query 1024 query (some 512) 5) (Justified query)
process_query-Justified_example = process_query-Justified 1024 query (some 512) 5

-- A reply with BADVERS keeps the whole code in its OPT record.
error_answer_badvers :
    error_answer true 1024 (0x12 ∷ 0x34 ∷ 1 ∷ []) 16
    ≡ ok (
        some (
          0x12 ∷ 0x34 ∷ 0x80 ∷ 0x80 ∷ 0 ∷ 0 ∷ 0 ∷ 0 ∷ 0 ∷ 0 ∷ 0 ∷ 1 ∷ 0 ∷ 0 ∷ 41 ∷ 4 ∷ 0 ∷ 1 ∷ 0 ∷ 0
          ∷ 0 ∷ 0 ∷ 0 ∷ []))
unfolding error_answer opcode_of mk_error_reply header_bytes put_int16 get_int16 add_opt_pseudo_rr
    put_opt set_arcount grow_message opt_bytes read write
error_answer_badvers = refl

error_answer-Told_example :
    Returns (error_answer true 1024 (0x12 ∷ 0x34 ∷ 1 ∷ []) 16) (
      Told (0x12 * 256 + 0x34) 1024 16 (record { udpsize = 0; rcode = 0; version = 0; do_flg = 0 }))
error_answer-Told_example =
    error_answer-Told 1024 16 0x12 0x34 (1 ∷ [])
      (record { udpsize = 0; rcode = 0; version = 0; do_flg = 0 }) (omega arith) (omega arith)
      (omega arith) (omega arith)

add_opt_pseudo_rr-Restored_example :
    Returns
      (add_opt_pseudo_rr true (header_bytes asking ++ opt_record) 20 4096 0 0 0x8000)
      (Restored asking opt_record asking_fits (omega arith) 4096 0 0 0x8000 true 20)
add_opt_pseudo_rr-Restored_example =
    add_opt_pseudo_rr-Restored asking opt_record asking_fits (omega arith) 4096 0 0 0x8000 true 20

abbrev no_info : EdnsInfo
no_info = record { udpsize = 0; rcode = 0; version = 0; do_flg = 0 }

-- An extended code and a version other than 0.
decode_query_additional-add_opt_pseudo_rr_example :
    Returns (add_opt_pseudo_rr true (header_bytes asking ++ opt_record) 20 4096 16 3 0x8000) (
      ReadBack asking opt_record asking_fits
        (omega arith)
        4096
        16
        3
        0x8000
        (omega arith)
        (omega arith)
        (omega arith)
        refl
        true
        20
        no_info)
decode_query_additional-add_opt_pseudo_rr_example =
    decode_query_additional-add_opt_pseudo_rr asking opt_record asking_fits (omega arith) 4096 16 3
      0x8000 (omega arith) (omega arith) (omega arith) refl true 20 no_info
