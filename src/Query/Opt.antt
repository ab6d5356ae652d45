-- ===== src/Query/Opt.antt =====
-- Error replies and the OPT pseudo record of pdnsd/src/dns_answer.c. The message behind its length
-- field is the list of its bytes.
use orbot_library.Prelude.{
  ℕ, ◌+◌, ◌-◌, ◌*◌, ◌/◌, ◌%◌, List, ◌∷◌, ◌++◌, Bool, ◌&&◌, not, Option, none, some, Run, ok, ◌>>=◌,
  read, write, ltb, leb, ◌==◌, if◌then◌else◌, length, take,
}
use orbot_library.Header.{Header, get_int16, put_int16, header_bytes}

-- mk_error_reply: the fields keep as many bits as they have.
unfoldable pub mk_error_reply : ℕ → ℕ → ℕ → Header
mk_error_reply id opcode rescode = record {
  id = id;
  qr = 1;
  opcode = opcode % 16;
  aa = 0;
  tc = 0;
  rd = 0;
  ra = 1;
  z = 0;
  ad = 0;
  cd = 0;
  rcode = rescode % 16;
  qdcount = 0;
  ancount = 0;
  nscount = 0;
  arcount = 0;
}

-- The size of the block for a message: the old one where it is enough, else the next multiple of
-- 128 bytes, where realloc has memory.
unfoldable pub grow_message : Bool → ℕ → ℕ → Option ℕ
grow_message room newsz allocsz =
    if ltb allocsz newsz
    then (if room then some ((newsz + 127) / 128 * 128) else none)
    else some allocsz

-- hdr.arcount = htons(n).
unfoldable pub set_arcount : List ℕ → ℕ → Run (List ℕ)
set_arcount ans n = write ans 10 (n / 256 % 256) >>= λ a. write a 11 (n % 256)

-- The record that add_opt_pseudo_rr stores.
unfoldable pub opt_bytes : ℕ → ℕ → ℕ → ℕ → List ℕ
unfolding put_int16
opt_bytes udpsize rcode ednsver zflags =
    0
    ∷ (put_int16 41
        ++ (put_int16 udpsize
            ++ (rcode / 16 % 256 ∷ ednsver % 256 ∷ (put_int16 zflags ++ put_int16 0))))

-- add_opt_pseudo_rr from the test of the size on, where `none` stands for a failing realloc.
unfoldable pub put_opt : List ℕ → List ℕ → Option ℕ → Run (Option (List ℕ × ℕ))
put_opt ans opt none = ok none
put_opt ans opt (some sz) =
    get_int16 ans 10 >>= λ n. set_arcount (ans ++ opt) ((n + 1) % 65536) >>= λ a. ok (some (a, sz))

-- add_opt_pseudo_rr: `none` is the result 0; else the message and the size of its block.
unfoldable pub add_opt_pseudo_rr : Bool → List ℕ → ℕ → ℕ → ℕ → ℕ → ℕ → Run (Option (List ℕ × ℕ))
add_opt_pseudo_rr room ans allocsz udpsize rcode ednsver zflags =
    put_opt ans (opt_bytes udpsize rcode ednsver zflags)
      (grow_message room (2 + length ans + 11) allocsz)

-- remove_opt_pseudo_rr: `none` is the result 0; else the message, which is as long as the result.
unfoldable pub remove_opt_pseudo_rr : List ℕ → Run (Option (List ℕ))
remove_opt_pseudo_rr ans = get_int16 ans 10 >>= λ acnt.
    if not (ltb 0 acnt && leb 23 (length ans))
    then ok none
    else (read ans (length ans - 11) >>= λ name.
        if not (name == 0)
        then ok none
        else (get_int16 ans (length ans - 10) >>= λ type.
            if not (type == 41)
            then ok none
            else (set_arcount ans (acnt - 1) >>= λ a. ok (some (take (length ans - 11) a)))))

-- The opcode of the query, where it has three bytes.
unfoldable pub opcode_of : List ℕ → Run ℕ
opcode_of data_ = if leb 3 (length data_) then (read data_ 2 >>= λ a. ok (a / 8 % 16)) else ok 0

-- From the label error_reply of process_query on: `none` is NULL, where malloc has no memory.
unfoldable pub error_answer : Bool → ℕ → List ℕ → ℕ → Run (Option (List ℕ))
error_answer room limit data_ res =
    if not room
    then ok none
    else (get_int16 data_ 0 >>= λ id. opcode_of data_ >>= λ opcode.
        let ans = header_bytes (mk_error_reply id opcode res) in
        if ltb 15 res
        then (add_opt_pseudo_rr room ans 25 limit res 0 0 >>= λ r.
            ok (some (elim r [ none ↦ ans | some a ↦ a.0 ])))
        else ok (some ans))
