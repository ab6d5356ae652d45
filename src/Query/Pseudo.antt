-- ===== src/Query/Pseudo.antt =====
-- The OPT pseudo record that is added to a message and taken off again.
use orbot_library.Prelude.{
  ℕ, ◌+◌, ◌-◌, ◌*◌, ◌/◌, ◌%◌, ◌≤◌, ◌<◌, ◌≡◌, refl, sym, ap, ◌∙◌, List, ◌++◌, append_assoc, Bool,
  true, false, ◌&&◌, Option, none, some, ok, read, write, Returns, ltb, leb, length, length-append,
  take, take-append, arith,
}
use orbot_library.Header.{Header, get_int16, put_int16, header_bytes}
use orbot_library.Header.Words.{read-skip}
use orbot_library.Header.Fields.{Fits}
use orbot_library.Query.Opt.{
  grow_message, set_arcount, opt_bytes, put_opt, add_opt_pseudo_rr, remove_opt_pseudo_rr,
}

-- The header with another number of additional records.
abbrev pub with_arcount : Header → ℕ → Header
with_arcount h n = record h { arcount = n }

arcount-read :
    (h : Header) (rest : List ℕ)
    → h.arcount < 65536
    → get_int16 (header_bytes h ++ rest) 10 ≡ ok h.arcount
unfolding get_int16 header_bytes put_int16 read
arcount-read h rest f =
    let parts : h.arcount / 256 % 256 * 256 + h.arcount % 256 ≡ h.arcount = omega arith in
    ap ok parts

set_arcount-write :
    (h : Header) (rest : List ℕ) (n : ℕ)
    → set_arcount (header_bytes h ++ rest) n ≡ ok (header_bytes (with_arcount h n) ++ rest)
unfolding set_arcount header_bytes put_int16 write
set_arcount-write h rest n = refl

length-header_bytes : (h : Header) → length (header_bytes h) ≡ 12
unfolding header_bytes put_int16
length-header_bytes h = refl

module _ (h : Header) (rest : List ℕ) (f : Fits h) (more : h.arcount + 1 < 65536) where
  abbrev pub message : List ℕ
  message = header_bytes h ++ rest

  module _ (udpsize rcode ednsver zflags : ℕ) where
    -- The message with the record.
    abbrev pub extended : List ℕ
    extended =
        header_bytes (with_arcount h (h.arcount + 1))
        ++ (rest ++ opt_bytes udpsize rcode ednsver zflags)

    length-opt_bytes : length (opt_bytes udpsize rcode ednsver zflags) ≡ 11
    unfolding opt_bytes put_int16
    length-opt_bytes = refl

    pub put_opt-extended :
        (sz : ℕ)
        → put_opt message (opt_bytes udpsize rcode ednsver zflags) (some sz)
          ≡ ok (some (extended, sz))
    unfolding put_opt
    put_opt-extended sz =
        let small : (h.arcount + 1) % 65536 ≡ h.arcount + 1 = omega arith in
        let written : set_arcount (message ++ opt_bytes udpsize rcode ednsver zflags)
              (h.arcount + 1)
            ≡ ok extended =
          ap (λ m. set_arcount m (h.arcount + 1))
            (append_assoc (header_bytes h) rest (opt_bytes udpsize rcode ednsver zflags))
          ∙ set_arcount-write h (rest ++ opt_bytes udpsize rcode ednsver zflags) (h.arcount + 1) in
        rw (arcount-read h rest f.arcount, small, written) refl

    abbrev pub opt : List ℕ
    opt = opt_bytes udpsize rcode ednsver zflags

    pub length-extended : length extended ≡ 12 + length rest + 11
    length-extended = omega (
      arith,
      length-append (header_bytes (with_arcount h (h.arcount + 1))) (rest ++ opt),
      length-header_bytes (with_arcount h (h.arcount + 1)),
      length-append rest opt,
      length-opt_bytes,
    )

    pub read-opt : (i k : ℕ) → i ≡ 12 + length rest + k → read extended i ≡ read opt k
    read-opt i k e =
        ap (λ m. read m i)
          (sym (append_assoc (header_bytes (with_arcount h (h.arcount + 1))) rest opt))
        ∙ read-skip (header_bytes (with_arcount h (h.arcount + 1)) ++ rest) opt i k (
            omega (
              arith,
              e,
              length-append (header_bytes (with_arcount h (h.arcount + 1))) rest,
              length-header_bytes (with_arcount h (h.arcount + 1)),
            ))

    pub get_int16-opt :
        (i k : ℕ) → i ≡ 12 + length rest + k → get_int16 extended i ≡ get_int16 opt k
    unfolding get_int16
    get_int16-opt i k e = rw (read-opt i k e, read-opt (i + 1) (k + 1) (omega (arith, e))) refl

    opt_name : read opt 0 ≡ ok 0
    unfolding opt_bytes read
    opt_name = refl

    opt_type : get_int16 opt 1 ≡ ok 41
    unfolding opt_bytes get_int16 put_int16 read
    opt_type = refl

    shortened : take (length extended - 11) (message ++ opt) ≡ message
    shortened =
        let size : length extended - 11 ≡ length message =
          omega
            (arith, length-extended, length-append (header_bytes h) rest, length-header_bytes h) in
        rw (size) (take-append message opt)

    remove-extended : remove_opt_pseudo_rr extended ≡ ok (some message)
    unfolding remove_opt_pseudo_rr
    remove-extended =
        let count : get_int16 extended 10 ≡ ok (h.arcount + 1) =
          arcount-read (with_arcount h (h.arcount + 1)) (rest ++ opt) more in
        let sane : (ltb 0 (h.arcount + 1) && leb 23 (length extended)) ≡ true =
          ground (arith, length-extended) in
        let name : read extended (length extended - 11) ≡ ok 0 =
          read-opt (length extended - 11) 0 (omega (arith, length-extended)) ∙ opt_name in
        let type : get_int16 extended (length extended - 10) ≡ ok 41 =
          get_int16-opt (length extended - 10) 1 (omega (arith, length-extended)) ∙ opt_type in
        let less : h.arcount + 1 - 1 ≡ h.arcount = omega arith in
        let written : set_arcount extended h.arcount ≡ ok (message ++ opt) =
          set_arcount-write (with_arcount h (h.arcount + 1)) (rest ++ opt) h.arcount
          ∙ ap ok (sym (append_assoc (header_bytes h) rest opt)) in
        simp (count, sane, name, type, less, written, shortened) refl

    -- The call fails only without memory, where the block is too small; else the block has room for
    -- the length field and the message, which is 11 bytes longer, and remove_opt_pseudo_rr gives
    -- back the message as it was.
    abbrev pub Restored : Bool → ℕ → Option (List ℕ × ℕ) → Type 0
    Restored room allocsz none = (room ≡ false) × (allocsz < 2 + length message + 11)
    Restored room allocsz (some (m, sz)) =
        (2 + length m ≤ sz)
        × ((length m ≡ length message + 11) × (remove_opt_pseudo_rr m ≡ ok (some message)))

    pub grow_message-none :
        (room : Bool) (newsz allocsz : ℕ)
        → grow_message room newsz allocsz ≡ none
        → (room ≡ false) × (allocsz < newsz)
    unfolding grow_message
    grow_message-none true newsz allocsz e = absurd (ground (arith, e))
    grow_message-none false newsz allocsz e = (refl, ground (arith, e))

    grow_message-some :
        (room : Bool) (newsz allocsz sz : ℕ)
        → grow_message room newsz allocsz ≡ some sz
        → newsz ≤ sz
    unfolding grow_message
    grow_message-some true newsz allocsz sz e = ground (arith, e)
    grow_message-some false newsz allocsz sz e = ground (arith, e)

    Restored-grown :
        (room : Bool) (allocsz : ℕ) (g : Option ℕ)
        → grow_message room (2 + length message + 11) allocsz ≡ g
        → Returns (put_opt message opt g) (Restored room allocsz)
    unfolding put_opt
    Restored-grown room allocsz none e =
        (none, refl, grow_message-none room (2 + length message + 11) allocsz e)
    Restored-grown room allocsz (some sz) e =
        let long : length message ≡ 12 + length rest =
          omega (arith, length-append (header_bytes h) rest, length-header_bytes h) in
        let enough : 2 + length message + 11 ≤ sz =
          grow_message-some room (2 + length message + 11) allocsz sz e in
        (
          some (extended, sz),
          put_opt-extended sz,
          (
            omega (arith, length-extended, long, enough),
            (omega (arith, length-extended, long), remove-extended),
          ),
        )

-- add_opt_pseudo_rr on a message that begins with a header whose fields fit, and that counts fewer
-- than 65535 additional records, returns. It fails only without memory and where the block is too
-- small; else the block has room for the message and its length field, the message is 11 bytes
-- longer, and remove_opt_pseudo_rr gives back the message as it was.
pub add_opt_pseudo_rr-Restored :
    (h : Header) (rest : List ℕ) (f : Fits h) (more : h.arcount + 1 < 65536)
    (udpsize rcode ednsver zflags : ℕ) (room : Bool) (allocsz : ℕ)
    → Returns
        (add_opt_pseudo_rr room (header_bytes h ++ rest) allocsz udpsize rcode ednsver zflags)
        (Restored h rest f more udpsize rcode ednsver zflags room allocsz)
unfolding add_opt_pseudo_rr
add_opt_pseudo_rr-Restored h rest f more udpsize rcode ednsver zflags room allocsz =
    Restored-grown h rest f more udpsize rcode ednsver zflags room allocsz _ refl
