-- ===== src/Query/Extended.antt =====
-- What is read of an OPT pseudo record that has been added.
use orbot_library.Prelude.{
  ℕ, ◌+◌, ◌*◌, ◌/◌, ◌%◌, ◌<◌, ◌≡◌, refl, ap, ◌∙◌, List, ◌++◌, Bool, false, Option, none, some, ok,
  read, write, Returns, leb, length, arith,
}
use orbot_library.Message.{decoded, decompress_name, direct_loop}
use orbot_library.Header.{Header, get_int16, put_int16, header_bytes}
use orbot_library.Header.Fields.{Fits, read_header-header_bytes}
use orbot_library.Query.{
  rc_ok, name_buffer, EdnsInfo, head, opt_info, take_opt, read_head, decode_query_additional,
}
use orbot_library.Query.Opt.{grow_message, opt_bytes, put_opt, add_opt_pseudo_rr}
use orbot_library.Query.Pseudo.{
  with_arcount, message, extended, opt, length-extended, put_opt-extended, grow_message-none,
  read-opt, get_int16-opt,
}

-- decompress_name of the root's name.
decompress-root :
    (msg : List ℕ) (p : ℕ)
    → read msg p ≡ ok 0
    → p < length msg
    → decompress_name msg (length msg) p 11 name_buffer ≡ ok (decoded (p + 1) 10 1 name_buffer)
unfolding decompress_name direct_loop write
decompress-root msg p e h =
    let inside : leb (length msg) p ≡ false = ground arith in rw (inside, e) refl

module _ (h : Header) (rest : List ℕ) (f : Fits h) (more : h.arcount + 1 < 65536) where
  -- The header still fits.
  pub with_arcount-Fits : Fits (with_arcount h (h.arcount + 1))
  with_arcount-Fits = record {
    id = f.id;
    qr = f.qr;
    opcode = f.opcode;
    aa = f.aa;
    tc = f.tc;
    rd = f.rd;
    ra = f.ra;
    z = f.z;
    ad = f.ad;
    cd = f.cd;
    rcode = f.rcode;
    qdcount = f.qdcount;
    ancount = f.ancount;
    nscount = f.nscount;
    arcount = more;
  }

  module _ (u r v z : ℕ) (hu : u < 65536) (hr : r < 4096) (hv : v < 256)
      (low : h.rcode ≡ r % 16) where
    abbrev place : ℕ
    place = 12 + length rest

    abbrev msg : List ℕ
    msg = extended h rest f more u r v z

    abbrev info : EdnsInfo
    info = record { udpsize = u; rcode = r; version = v; do_flg = z / 32768 % 2 }

    byte_0 : read (opt h rest f more u r v z) 0 ≡ ok (0)
    unfolding opt_bytes put_int16 read
    byte_0 = refl

    byte_5 : read (opt h rest f more u r v z) 5 ≡ ok (r / 16 % 256)
    unfolding opt_bytes put_int16 read
    byte_5 = refl

    byte_6 : read (opt h rest f more u r v z) 6 ≡ ok (v % 256)
    unfolding opt_bytes put_int16 read
    byte_6 = refl

    byte_7 : read (opt h rest f more u r v z) 7 ≡ ok (z / 256 % 256)
    unfolding opt_bytes put_int16 read
    byte_7 = refl

    word_1 : get_int16 (opt h rest f more u r v z) 1 ≡ ok 41
    unfolding opt_bytes get_int16 put_int16 read
    word_1 = refl

    word_3 : get_int16 (opt h rest f more u r v z) 3 ≡ ok u
    unfolding opt_bytes get_int16 put_int16 read
    word_3 = ap ok (omega arith)

    word_9 : get_int16 (opt h rest f more u r v z) 9 ≡ ok 0
    unfolding opt_bytes get_int16 put_int16 read
    word_9 = refl

    opt_info-info : opt_info msg u (place + 5) ≡ ok info
    unfolding opt_info
    opt_info-info =
        let t0 : read msg (place + 5) ≡ ok (r / 16 % 256) =
          read-opt h rest f more u r v z (place + 5) 5 refl ∙ byte_5 in
        let t1 : read msg (place + 5 + 1) ≡ ok (v % 256) =
          read-opt h rest f more u r v z (place + 5 + 1) 6 (omega arith) ∙ byte_6 in
        let t2 : read msg (place + 5 + 2) ≡ ok (z / 256 % 256) =
          read-opt h rest f more u r v z (place + 5 + 2) 7 (omega arith) ∙ byte_7 in
        let code : r / 16 % 256 * 16 + h.rcode ≡ r = omega (arith, low) in
        let version : v % 256 ≡ v = omega arith in
        let flag : z / 256 % 256 / 128 % 2 ≡ z / 32768 % 2 = omega arith in
        simp
          (
            read_header-header_bytes (with_arcount h (h.arcount + 1))
                (rest ++ opt h rest f more u r v z) with_arcount-Fits,
            t0,
            t1,
            t2,
            code,
            version,
            flag,
          )
          refl

    read_head-opt :
        read_head msg (decoded (place + 1) 10 1 name_buffer)
        ≡ ok (head 41 u (place + 5) (place + 11) 0)
    unfolding read_head
    read_head-opt =
        let type : get_int16 msg (place + 1) ≡ ok 41 =
          get_int16-opt h rest f more u r v z (place + 1) 1 refl ∙ word_1 in
        let class : get_int16 msg (place + 1 + 2) ≡ ok u =
          get_int16-opt h rest f more u r v z (place + 1 + 2) 3 (omega arith) ∙ word_3 in
        let size : get_int16 msg (place + 1 + 8) ≡ ok 0 =
          get_int16-opt h rest f more u r v z (place + 1 + 8) 9 (omega arith) ∙ word_9 in
        let ttlp : place + 1 + 4 ≡ place + 5 = omega arith in
        let behind : place + 1 + 10 + 0 ≡ place + 11 = omega arith in
        simp (type, class, size, ttlp, behind) refl

    -- The record in the message that put_opt gives.
    pub decode-extended :
        (e : EdnsInfo)
        → decode_query_additional 1 (extended h rest f more u r v z) (12 + length rest) 11 0 e
          ≡ ok (record { res = rc_ok; numopt = 1; ep = info })
    unfolding decode_query_additional take_opt
    decode-extended e =
        let name : read msg place ≡ ok 0 =
          read-opt h rest f more u r v z place 0 (omega arith) ∙ byte_0 in
        let root =
          decompress-root msg place name (omega (arith, length-extended h rest f more u r v z)) in
        rw (root, read_head-opt, opt_info-info) refl

    -- Without memory, where the block is too small, no message; else one in which
    -- decode_query_additional from the end of the old one on finds one OPT record with what was added.
    abbrev pub ReadBack : Bool → ℕ → EdnsInfo → Option (List ℕ × ℕ) → Type 0
    ReadBack room allocsz e none =
        (room ≡ false) × (allocsz < 2 + length (message h rest f more) + 11)
    ReadBack room allocsz e (some (m, sz)) =
        decode_query_additional 1 m (12 + length rest) 11 0 e
        ≡ ok (record {
          res = rc_ok;
          numopt = 1;
          ep = record { udpsize = u; rcode = r; version = v; do_flg = z / 32768 % 2 };
        })

    by_memory :
        (room : Bool) (allocsz : ℕ) (e : EdnsInfo) (g : Option ℕ)
        → grow_message room (2 + length (message h rest f more) + 11) allocsz ≡ g
        → Returns (put_opt (message h rest f more) (opt_bytes u r v z) g) (ReadBack room allocsz e)
    unfolding put_opt
    by_memory room allocsz e none q = (
      none,
      refl,
      grow_message-none h rest f more u r v z room (2 + length (message h rest f more) + 11) allocsz
          q,
    )
    by_memory room allocsz e (some sz) q = (
      some (extended h rest f more u r v z, sz),
      put_opt-extended h rest f more u r v z sz,
      decode-extended e,
    )

    -- add_opt_pseudo_rr on a message that begins with a header whose fields fit, that counts fewer than
    -- 65535 additional records, and whose header has the lower four bits of the code, returns, where
    -- the UDP size fits 16 bits, the code 12 and the version 8. It fails only without memory and where
    -- the block is too small; else decode_query_additional from the end of the old message on finds in
    -- the new one one OPT record, with the UDP size, the code and the version that were given, and the
    -- highest of the 16 bits of flags, whatever `e` holds before.
    pub decode_query_additional-add_opt_pseudo_rr :
        (room : Bool) (allocsz : ℕ) (e : EdnsInfo)
        → Returns
            (add_opt_pseudo_rr room (header_bytes h ++ rest) allocsz u r v z)
            (ReadBack room allocsz e)
    unfolding add_opt_pseudo_rr
    decode_query_additional-add_opt_pseudo_rr room allocsz e = by_memory room allocsz e _ refl
