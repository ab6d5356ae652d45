-- ===== src/Query/Questions.antt =====
-- decode_query on every message.
use orbot_library.Prelude.{
  ℕ, zero, suc, ◌+◌, ◌-◌, ◌≤◌, ◌≡◌, refl, ◌∙◌, List, [], ◌∷◌, ◌++◌, ok, ltb, ◌==◌, Returns,
  Returns-if, Returns->>=, length, length-append, drop, take-append, All, arith,
}
use orbot_library.Name.Labels.{IsName, wire}
use orbot_library.Message.{Decoded, decoded, refused, truncated, format_error}
use orbot_library.Message.Denotes.{Denotes}
use orbot_library.Message.Decompress.{Decoding, decompress_name-Decoding}
use orbot_library.Header.{Header, read_header}
use orbot_library.Header.Words.{get_int16-Returns}
use orbot_library.Header.Fields.{read_header-Returns}
use orbot_library.Query.{
  rc_ok, name_buffer, QueryEl, Decode, QuestionStep, stop, asked, read_question, decode_loop,
  decode_query,
}

-- The name asked for stands at some place of the message.
abbrev pub Asked : List ℕ → QueryEl → Type 0
Asked msg q =
    (p : ℕ) × ((ls : List (List ℕ)) × (IsName ls × (Denotes msg p ls × (q.query ≡ wire ls))))

All-snoc :
    (msg : List ℕ) (ql : List QueryEl) (q : QueryEl)
    → All (Asked msg) ql
    → Asked msg q
    → All (Asked msg) (ql ++ (q ∷ []))
All-snoc msg [] q a h = (h, _)
All-snoc msg (x ∷ ql) q (b, a) h = (b, All-snoc msg ql q a h)

-- What decode_query promises of `n` questions: the pointer and the rest of the size meet the end of
-- the message, and each question of the list is one of the message; all are there with RC_OK.
pub record Questions (msg : List ℕ) (n : ℕ) (d : Decode) : Type 0 where
  pub inside : d.ptr + d.sz ≡ length msg
  pub asked : All (Asked msg) d.ql
  pub all_asked : d.res ≡ rc_ok → length d.ql ≡ n

-- A round keeps the promise, or hands over a question and the place of the next one.
abbrev Rounds : List ℕ → ℕ → QuestionStep → Type 0
Rounds msg total (stop d) = Questions msg total d
Rounds msg total (asked q ptr sz) = (ptr + sz ≡ length msg) × Asked msg q

read_question-Rounds :
    (msg : List ℕ) (ptr sz : ℕ) (ql : List QueryEl) (room total : ℕ) (r : Decoded)
    → ptr + sz ≡ length msg
    → All (Asked msg) ql
    → Decoding msg ptr sz sz ptr 0 [] name_buffer r
    → Returns (read_question msg ptr sz ql room r) (Rounds msg total)
unfolding read_question
read_question-Rounds msg ptr sz ql room total (refused truncated) e a d =
    (_, refl, record { inside = e; asked = a; all_asked = λ c. absurd (omega (arith, c)) })
read_question-Rounds msg ptr sz ql room total (refused format_error) e a d =
    (_, refl, record { inside = e; asked = _; all_asked = λ c. absurd (omega (arith, c)) })
read_question-Rounds msg ptr sz ql room total (decoded ptr' sz' len qbuf) e a
      (ls, name, denotes, size, _, bytes, moved, less) =
    let inside : ptr' + sz' ≡ length msg = moved ∙ e in
    let size' : len ≡ length (wire ls) = omega (arith, size) in
    Returns-if (Rounds msg total) (ltb sz' 4)
      (λ short. (
        _,
        refl,
        record { inside = inside; asked = a; all_asked = λ c. absurd (omega (arith, c)) },
      ))
      (λ long.
        Returns-if (Rounds msg total) (room == 0)
          (λ _. (
            _,
            refl,
            record { inside = inside; asked = _; all_asked = λ c. absurd (omega (arith, c)) },
          ))
          (λ _.
            let (qtype, e1) = get_int16-Returns msg ptr' (ground (arith, long, inside)) in
            let (qclass, e2) = get_int16-Returns msg (ptr' + 2) (ground (arith, long, inside)) in
            Returns->>= (Rounds msg total) _ e1 (
              Returns->>= (Rounds msg total) _ e2 (
                _,
                refl,
                (
                  ground (arith, long, inside),
                  (
                    ptr,
                    (
                      ls,
                      (
                        name,
                        (
                          denotes,
                          rw (size', bytes)
                              (take-append (wire ls) (drop (length (wire ls)) name_buffer)),
                        ),
                      ),
                    ),
                  ),
                ),
              ))))

decode_loop-Questions :
    (n : ℕ) (msg : List ℕ) (ptr sz : ℕ) (ql : List QueryEl) (room total : ℕ)
    → ptr + sz ≡ length msg
    → All (Asked msg) ql
    → length ql + n ≡ total
    → Returns (decode_loop n msg ptr sz ql room) (Questions msg total)
unfolding decode_loop
decode_loop-Questions zero msg ptr sz ql room total e a t =
    (_, refl, record { inside = e; asked = a; all_asked = λ _. omega (arith, t) })
decode_loop-Questions (suc n) msg ptr sz ql room total e a t =
    let (d, run, decoding) = decompress_name-Decoding msg ptr sz name_buffer (omega arith) in
    let (r, run2, round) = read_question-Rounds msg ptr sz ql room total d e a decoding in
    Returns->>= (Questions msg total) _ run (
      Returns->>= (Questions msg total) _ run2 (
        more r round λ q p s inside there.
          decode_loop-Questions n msg p s (ql ++ (q ∷ [])) (room - 1) total inside
            (All-snoc msg ql q a there) (omega (arith, t, length-append ql (q ∷ [])))))
  where
    more :
        (r : QuestionStep)
        → Rounds msg total r
        → ((q : QueryEl) (p s : ℕ)
            → p + s ≡ length msg
            → Asked msg q
            → Returns (decode_loop n msg p s (ql ++ (q ∷ [])) (room - 1)) (Questions msg total))
        → Returns
            (elim r [
              | stop d ↦ ok d
              | asked q ptr' sz' ↦ decode_loop n msg ptr' sz' (ql ++ (q ∷ [])) (room - 1)
            ])
            (Questions msg total)
    more (stop d) h next = (d, refl, h)
    more (asked q ptr' sz') (inside, there) next = next q ptr' sz' inside there

-- decode_query of a message of 12 bytes or more reads inside the message and returns. Each question
-- of the list carries the name that stands at some place of the message, and with RC_OK there are
-- as many as the header says; the pointer that is handed on and the rest of the size meet the end
-- of the message.
pub decode_query-Questions :
    (msg : List ℕ) (room : ℕ)
    → 12 ≤ length msg
    → (hdr : Header) × ((read_header msg ≡ ok hdr)
        × Returns (decode_query msg room) (Questions msg hdr.qdcount))
unfolding decode_query
decode_query-Questions msg room h =
    let (hdr, e) = read_header-Returns msg h in
    (
      hdr,
      (
        e,
        Returns->>= (Questions msg hdr.qdcount) _ e (
            decode_loop-Questions hdr.qdcount msg 12 (length msg - 12) [] room hdr.qdcount
              (omega arith) _ (omega arith)),
      ),
    )
