-- ===== src/Query/Extras.antt =====
-- decode_query_additional on every message.
use orbot_library.Prelude.{
  ℕ, zero, suc, ◌*◌, ◌/◌, ◌%◌, ◌+◌, ◌-◌, ◌≤◌, ◌≡◌, refl, ◌∙◌, List, [], ok, ◌>>=◌, ltb, ◌==◌,
  Returns, Returns-if, Returns->>=, read-Returns, length, arith,
}
use orbot_library.Message.{Decoded, decoded, refused}
use orbot_library.Message.Decompress.{Decoding, decompress_name-Decoding}
use orbot_library.Header.Words.{get_int16-Returns}
use orbot_library.Header.Fields.{read_header-Returns}
use orbot_library.Query.{
  name_buffer, Additional, EdnsInfo, Head, bad, head, opt_info, take_opt, read_head,
  decode_query_additional,
}

-- A record's head: its TTL is inside the message, and the place behind its data meets the end.
abbrev Heads : List ℕ → Head → Type 0
Heads msg (bad res) = Unit
Heads msg (head type class ttlp ptr sz) = (ttlp + 4 ≤ length msg) × (ptr + sz ≡ length msg)

read_head-Heads :
    (msg : List ℕ) (ptr sz : ℕ) (r : Decoded)
    → ptr + sz ≡ length msg
    → Decoding msg ptr sz sz ptr 0 [] name_buffer r
    → Returns (read_head msg r) (Heads msg)
unfolding read_head
read_head-Heads msg ptr sz (refused why) e d = (_, refl, _)
read_head-Heads msg ptr sz (decoded ptr' sz' len nmbuf) e
      (ls, name, denotes, size, _, bytes, moved, less) =
    let inside : ptr' + sz' ≡ length msg = moved ∙ e in
    Returns-if (Heads msg) (ltb sz' 10) (λ _. (_, refl, _))
      (λ long.
        let (type, e1) = get_int16-Returns msg ptr' (ground (arith, long, inside)) in
        let (class, e2) = get_int16-Returns msg (ptr' + 2) (ground (arith, long, inside)) in
        let (rdlen, e3) = get_int16-Returns msg (ptr' + 8) (ground (arith, long, inside)) in
        Returns->>= (Heads msg) _ e1 (
          Returns->>= (Heads msg) _ e2 (
            Returns->>= (Heads msg) _ e3 (
              Returns-if (Heads msg) (ltb (sz' - 10) rdlen) (λ _. (_, refl, _))
                (λ fits.
                  (_, refl, (ground (arith, long, inside), ground (arith, long, fits, inside))))))))

pub take_opt-Returns :
    (msg : List ℕ) (type class ttlp numopt : ℕ) (ep : EdnsInfo)
    → 12 ≤ length msg
    → ttlp + 4 ≤ length msg
    → Returns
        (take_opt msg type class ttlp numopt ep)
        (λ o. (numopt ≤ o.0) × (o.0 ≤ numopt + 1) × (o.0 ≡ numopt → o.1 ≡ ep))
unfolding take_opt opt_info
take_opt-Returns msg type class ttlp numopt ep n h =
    let (hdr, e) = read_header-Returns msg n in
    let (t0, e0) = read-Returns msg ttlp (omega arith) in
    let (t1, e1) = read-Returns msg (ttlp + 1) (omega arith) in
    let (t2, e2) = read-Returns msg (ttlp + 2) (omega arith) in
    Returns-if _ (type == 41)
      (λ _.
        Returns-if _ (numopt == 0)
          (λ first. (
            (
              1,
              record {
                udpsize = class;
                rcode = t0 * 16 + hdr.rcode;
                version = t1;
                do_flg = t2 / 128 % 2;
              },
            ),
            simp (e, e0, e1, e2) refl,
            (ground (arith, first), ground (arith, first), λ c. absurd (ground (arith, first, c))),
          ))
          (λ later. (_, refl, (omega arith, omega arith, λ c. refl))))
      (λ other. (_, refl, (omega arith, omega arith, λ c. refl)))

-- decode_query_additional of a message of 12 bytes or more, from a place whose distance from the
-- end is the size that is left, reads inside the message and returns. It counts at most one OPT
-- record for each record of the section, and where it counts none the information is as it was.
pub decode_query_additional-Returns :
    (n : ℕ) (msg : List ℕ) (ptr sz numopt : ℕ) (ep : EdnsInfo)
    → 12 ≤ length msg
    → ptr + sz ≡ length msg
    → Returns
        (decode_query_additional n msg ptr sz numopt ep)
        (λ a. (numopt ≤ a.numopt) × (a.numopt ≤ numopt + n) × (a.numopt ≡ numopt → a.ep ≡ ep))
unfolding decode_query_additional
decode_query_additional-Returns zero msg ptr sz numopt ep n e =
    (_, refl, (omega arith, omega arith, λ c. refl))
decode_query_additional-Returns (suc k) msg ptr sz numopt ep n e =
    let (d, run, decoding) = decompress_name-Decoding msg ptr sz name_buffer (omega arith) in
    let (h, run2, heads) = read_head-Heads msg ptr sz d e decoding in
    Returns->>= _ _ run (
      Returns->>= _ _ run2
        (more h heads λ m p s ep2 inside. decode_query_additional-Returns k msg p s m ep2 n inside))
  where
    more :
        (h : Head)
        → Heads msg h
        → ((m p s : ℕ) (ep2 : EdnsInfo)
            → p + s ≡ length msg
            → Returns
                (decode_query_additional k msg p s m ep2)
                (λ a. (m ≤ a.numopt) × (a.numopt ≤ m + k) × (a.numopt ≡ m → a.ep ≡ ep2)))
        → Returns {V = Additional}
            (elim h [
              | bad res ↦ ok (record { res = res; numopt = numopt; ep = ep })
              | head type class ttlp ptr' sz' ↦ take_opt msg type class ttlp numopt ep >>= λ o.
                  decode_query_additional k msg ptr' sz' o.0 o.1
            ])
            (λ a.
              (numopt ≤ a.numopt) × (a.numopt ≤ numopt + suc k) × (a.numopt ≡ numopt → a.ep ≡ ep))
    more (bad res) _ next = (_, refl, (omega arith, omega arith, λ c. refl))
    more (head type class ttlp ptr' sz') (ttl, inside) next =
        let (o, run, (low, high, same)) = take_opt-Returns msg type class ttlp numopt ep n ttl in
        let (a, run2, (low2, high2, same2)) = next o.0 ptr' sz' o.1 inside in
        Returns->>= _ _ run (
          a,
          run2,
          (
            omega (arith, low, low2),
            omega (arith, high, high2),
            λ c. same2 (omega (arith, low, low2, c)) ∙ same (omega (arith, low, low2, c)),
          ),
        )
