-- ===== src/Query/Refusals.antt =====
-- What a client reads of an error reply.
use orbot_library.Prelude.{
  ℕ, ◌+◌, ◌-◌, ◌*◌, ◌/◌, ◌%◌, ◌<◌, ◌≡◌, refl, sym, ap, ◌∙◌, List, [], ◌∷◌, append-nil, true, false,
  Bool-cases, inl, inr, Option, none, some, ok, read, Returns, Returns-if, Returns->>=,
  read-Returns, ltb, leb, if◌then◌else◌, length, arith,
}
use orbot_library.Header.{Header, get_int16, put_int16, read_header, header_bytes}
use orbot_library.Header.Fields.{Fits, read_header-header_bytes}
use orbot_library.Query.{rc_ok, EdnsInfo, decode_query_additional}
use orbot_library.Query.Opt.{
  mk_error_reply, opcode_of, add_opt_pseudo_rr, grow_message, put_opt, opt_bytes, error_answer,
}
use orbot_library.Query.Pseudo.{with_arcount, extended, put_opt-extended, length-extended}
use orbot_library.Query.Extended.{with_arcount-Fits, decode-extended}

mk_error_reply-Fits : (id opcode res : ℕ) → id < 65536 → Fits (mk_error_reply id opcode res)
unfolding mk_error_reply
mk_error_reply-Fits id opcode res h = record {
  id = h;
  qr = omega arith;
  opcode = omega arith;
  aa = omega arith;
  tc = omega arith;
  rd = omega arith;
  ra = omega arith;
  z = omega arith;
  ad = omega arith;
  cd = omega arith;
  rcode = omega arith;
  qdcount = omega arith;
  ancount = omega arith;
  nscount = omega arith;
  arcount = omega arith;
}

-- The header of the reply: a response with the query's identifier, and the lower four bits of the
-- code; and what decode_query_additional makes of the rest: the whole code.
abbrev pub Told : ℕ → ℕ → ℕ → EdnsInfo → Option (List ℕ) → Type 0
Told id limit res e none = ⊥
Told id limit res e (some ans) =
    (hdr : Header) × ((read_header ans ≡ ok hdr)
      × ((hdr.id ≡ id)
          × ((hdr.qr ≡ 1)
              × ((hdr.rcode ≡ res % 16)
                  × (decode_query_additional hdr.arcount ans 12 (length ans - 12) 0 e
                      ≡ ok (
                          if ltb 15 res
                          then (record {
                            res = rc_ok;
                            numopt = 1;
                            ep = record { udpsize = limit; rcode = res; version = 0; do_flg = 0 };
                          })
                          else (record { res = rc_ok; numopt = 0; ep = e })))))))

module _ (limit res id opcode : ℕ) (e : EdnsInfo) (hl : limit < 65536) (hr : res < 4096)
    (hi : id < 65536) where
  abbrev reply : Header
  reply = mk_error_reply id opcode res

  plain : ltb 15 res ≡ false → Told id limit res e (some (header_bytes reply))
  unfolding mk_error_reply decode_query_additional
  plain small = rw (small) (
    reply,
    (
      ap read_header (sym (append-nil (header_bytes reply)))
          ∙ read_header-header_bytes reply [] (mk_error_reply-Fits id opcode res hi),
      (refl, (refl, (refl, refl))),
    ),
  )

  fitting : Fits reply
  fitting = mk_error_reply-Fits id opcode res hi

  room_for_one : reply.arcount + 1 < 65536
  unfolding mk_error_reply
  room_for_one = omega arith

  abbrev noted : List ℕ
  noted = extended reply [] fitting room_for_one limit res 0 0

  noted_read :
      decode_query_additional (reply.arcount + 1) noted 12 (length noted - 12) 0 e
      ≡ ok (record {
        res = rc_ok;
        numopt = 1;
        ep = record { udpsize = limit; rcode = res; version = 0; do_flg = 0 };
      })
  unfolding mk_error_reply
  noted_read =
      let size : length noted - 12 ≡ 11 =
        omega (arith, length-extended reply [] fitting room_for_one limit res 0 0) in
      rw (size) read_one
    where
      low : reply.rcode ≡ res % 16
      low = refl

      read_one :
          decode_query_additional (reply.arcount + 1) noted 12 11 0 e
          ≡ ok (record {
            res = rc_ok;
            numopt = 1;
            ep = record { udpsize = limit; rcode = res; version = 0; do_flg = 0 };
          })
      read_one =
          decode-extended reply [] fitting room_for_one limit res 0 0 hl hr (omega arith) low e

  with_opt : ltb 15 res ≡ true → Told id limit res e (some noted)
  unfolding mk_error_reply
  with_opt large = rw (large) (
    with_arcount reply (reply.arcount + 1),
    (
      read_header-header_bytes (with_arcount reply (reply.arcount + 1)) _
          (with_arcount-Fits reply [] fitting room_for_one),
      (refl, (refl, (refl, noted_read))),
    ),
  )

  enough_room : grow_message true (2 + length (header_bytes reply) + 11) 25 ≡ some 25
  unfolding grow_message header_bytes put_int16
  enough_room = refl

  put_noted : add_opt_pseudo_rr true (header_bytes reply) 25 limit res 0 0 ≡ ok (some (noted, 25))
  unfolding add_opt_pseudo_rr
  put_noted =
      let enough : grow_message true (2 + length (header_bytes reply) + 11) 25 ≡ some 25 =
        enough_room in
      rw (enough) (
        ap (λ m. put_opt m (opt_bytes limit res 0 0) (some 25))
          (sym (append-nil (header_bytes reply)))
        ∙ put_opt-extended reply [] fitting room_for_one limit res 0 0 25)

  answered :
      (data_ : List ℕ)
      → get_int16 data_ 0 ≡ ok id
      → opcode_of data_ ≡ ok opcode
      → Returns (error_answer true limit data_ res) (Told id limit res e)
  unfolding error_answer
  answered data_ is_id is_opcode = Returns->>= _ _ is_id (
      Returns->>= _ _ is_opcode (
        Returns-if (Told id limit res e) (ltb 15 res)
          (λ large. Returns->>= _ _ put_noted (_, refl, with_opt large))
          λ small. (_, refl, plain small)))

identifier : (a b : ℕ) (rest : List ℕ) → get_int16 (a ∷ b ∷ rest) 0 ≡ ok (a * 256 + b)
unfolding get_int16 read
identifier a b rest = refl

opcode_of-Returns : (data_ : List ℕ) → (opcode : ℕ) × (opcode_of data_ ≡ ok opcode)
unfolding opcode_of
opcode_of-Returns data_ = elim (Bool-cases (leb 3 (length data_))) [
  | inl long ↦
      let (a, run) = read-Returns data_ 2 (ground (arith, long)) in
      (a / 8 % 16, rw (long, run) refl)
  | inr short ↦ (0, rw (short) refl)
]

-- Where malloc has memory, the reply to a query of two bytes or more with a code below 4096 is a
-- response with the query's identifier and the lower four bits of the code. What
-- decode_query_additional then reads of it is the whole code in an OPT record, with the largest UDP
-- size and version 0, if the code is above 15, and else no OPT record.
pub error_answer-Told :
    (limit res a b : ℕ) (rest : List ℕ) (e : EdnsInfo)
    → limit < 65536
    → res < 4096
    → a < 256
    → b < 256
    → Returns (error_answer true limit (a ∷ b ∷ rest) res) (Told (a * 256 + b) limit res e)
error_answer-Told limit res a b rest e hl hr ha hb =
    let (opcode, run) = opcode_of-Returns (a ∷ b ∷ rest) in
    answered limit res (a * 256 + b) opcode e hl hr (omega arith) (a ∷ b ∷ rest)
      (identifier a b rest) run
