-- ===== src/Query/Verdicts.antt =====
-- process_query on every message.
use orbot_library.Prelude.{
  ℕ, ◌≤◌, ◌<◌, ◌≡◌, refl, List, [], ◌∷◌, Bool, true, false, ◌&&◌, ◌||◌, not, Option, none, some,
  Option-cases, inl, inr, ok, ◌>>=◌, ltb, ◌==◌, if◌then◌else◌, Returns, Returns-if, Returns->>=,
  length, All, arith,
}
use orbot_library.Header.{Header, read_header}
use orbot_library.Query.{
  rc_ok, rc_format, rc_trunc, rc_badvers, QueryEl, Decode, decode_query, EdnsInfo, Additional,
}
use orbot_library.Query.Questions.{Asked, Questions, decode_query-Questions}
use orbot_library.Query.Extras.{decode_query_additional-Returns}
use orbot_library.Query.Process.{
  Verdict, discard, error_reply, compose, bound_udp, is_none_asked, verdict_on,
  verdict_on_additional, verdict_on_questions, verdict_on_header, process_query,
}

-- The header of a standard query.
pub record IsStandard (hdr : Header) : Type 0 where
  pub query : hdr.qr ≡ 0
  pub opcode : hdr.opcode ≡ 0
  pub z : hdr.z ≡ 0
  pub rcode : hdr.rcode ≡ 0
  pub ancount : hdr.ancount ≡ 0
  pub nscount : hdr.nscount ≡ 0

-- EDNS of version 0 with no error, where there is EDNS.
abbrev pub IsSupported : Option EdnsInfo → Type 0
IsSupported none = Unit
IsSupported (some e) = (e.version ≡ 0) × (e.rcode ≡ 0)

-- What each verdict means.
abbrev pub Justified : List ℕ → Verdict → Type 0
Justified msg discard = Unit
Justified msg (error_reply res) = 0 < res
Justified msg (compose ql edns udp) =
    (0 < length ql)
    × (All (Asked msg) ql
        × (IsSupported edns × ((hdr : Header) × ((read_header msg ≡ ok hdr) × IsStandard hdr))))

header-passes : (hdr : Header) → verdict_on_header hdr ≡ none → IsStandard hdr
unfolding verdict_on_header
header-passes hdr h = record {
  query = ground (arith, h);
  opcode = ground (arith, h);
  z = ground (arith, h);
  rcode = ground (arith, h);
  ancount = ground (arith, h);
  nscount = ground (arith, h);
}

header-Justified :
    (msg : List ℕ) (hdr : Header) (v : Verdict) → verdict_on_header hdr ≡ some v → Justified msg v
unfolding verdict_on_header
header-Justified msg hdr discard h = _
header-Justified msg hdr (error_reply res) h = ground (arith, h)
header-Justified msg hdr (compose ql e u) h = absurd (ground (arith, h))

module _ (msg : List ℕ) where
  Justified-if :
      (b : Bool) (x y : Verdict)
      → (b ≡ true → Justified msg x)
      → (b ≡ false → Justified msg y)
      → Justified msg (if b then x else y)
  Justified-if true x y h k = h refl
  Justified-if false x y h k = k refl

  module _ (hdr : Header) (read : read_header msg ≡ ok hdr) (standard : IsStandard hdr) where
    verdict_on-Justified :
        (ql : List QueryEl) (edns : Option EdnsInfo) (udp : Option ℕ)
        → All (Asked msg) ql
        → IsSupported edns
        → Justified msg (verdict_on ql edns udp)
    unfolding verdict_on is_none_asked
    verdict_on-Justified [] edns udp a s = omega arith
    verdict_on-Justified (q ∷ ql) edns udp a s = (omega arith, (a, (s, (hdr, (read, standard)))))

    verdict_on_additional-Justified :
        (limit : ℕ) (udp : Option ℕ) (ql : List QueryEl) (a : Additional)
        → All (Asked msg) ql
        → Justified msg (verdict_on_additional limit hdr udp ql a)
    unfolding verdict_on_additional
    verdict_on_additional-Justified limit udp ql a asked =
        Justified-if (not ((a.res == rc_ok) || ((a.res == rc_trunc) && not (hdr.tc == 0))))
          (error_reply rc_format) _ (λ _. omega arith)
          λ _.
            Justified-if (a.numopt == 0) _ _ (λ _. verdict_on-Justified ql none udp asked _)
              λ _.
                Justified-if (not (a.ep.version == 0)) (error_reply rc_badvers) _ (λ _. omega arith)
                  λ version.
                    Justified-if (not (a.ep.rcode == 0)) (error_reply rc_format) _
                      (λ _. omega arith)
                      λ rcode.
                        verdict_on-Justified ql (some a.ep) (bound_udp limit udp a.ep) asked
                          (ground (arith, version), ground (arith, rcode))

    verdict_on_questions-Justified :
        (limit : ℕ) (udp : Option ℕ) (d : Decode)
        → 12 ≤ length msg
        → Questions msg hdr.qdcount d
        → Returns (verdict_on_questions limit msg hdr udp d) (Justified msg)
    unfolding verdict_on_questions
    verdict_on_questions-Justified limit udp d n q =
        Returns-if (Justified msg) (not (d.res == rc_ok) && not (d.res == rc_trunc))
          (λ b. (error_reply d.res, refl, ground (arith, b)))
          λ _.
            Returns-if (Justified msg)
              ((d.res == rc_trunc) && ((hdr.tc == 0) || is_none_asked d.ql))
              (λ _. (error_reply rc_format, refl, omega arith))
              λ _.
                Returns-if (Justified msg) (hdr.arcount == 0)
                  (λ _. (_, refl, verdict_on-Justified d.ql none udp q.asked _))
                  λ _.
                    Returns-if (Justified msg) (d.res == rc_trunc)
                      (λ _. (error_reply rc_format, refl, omega arith))
                      λ _.
                        let (a, run, _) =
                          decode_query_additional-Returns hdr.arcount msg d.ptr d.sz 0
                            (record { udpsize = 0; rcode = 0; version = 0; do_flg = 0 }) n
                            q.inside in
                        Returns->>= (Justified msg) _ run
                          (_, refl, verdict_on_additional-Justified limit udp d.ql a q.asked)

-- process_query, up to the composition of the answer, reads inside the message and returns on every
-- message, those shorter than a header included. An error reply has a code other than RC_OK; an
-- answer is composed only for a message that is a standard query without answer and authority
-- records, for at least one question, where each name asked for stands in the message, and with
-- EDNS only of version 0.
pub process_query-Justified :
    (limit : ℕ) (msg : List ℕ) (udp : Option ℕ) (room : ℕ)
    → Returns (process_query limit msg udp room) (Justified msg)
unfolding process_query
process_query-Justified limit msg udp room =
    Returns-if (Justified msg) (ltb (length msg) 2) (λ _. (discard, refl, _))
      λ _.
        Returns-if (Justified msg) (ltb (length msg) 12)
          (λ _. (error_reply rc_format, refl, omega arith))
          λ long.
            let (hdr, (e, (d, run, q))) = decode_query-Questions msg room (ground (arith, long)) in
            Returns->>= (Justified msg) _ e (passed hdr e d run q (ground (arith, long)))
  where
    passed :
        (hdr : Header)
        → read_header msg ≡ ok hdr
        → (d : Decode) → decode_query msg room ≡ ok d
        → Questions msg hdr.qdcount d
        → 12 ≤ length msg
        → Returns
            (elim (verdict_on_header hdr) [
              | some v ↦ ok v
              | none ↦ decode_query msg room >>= λ d. verdict_on_questions limit msg hdr udp d
            ])
            (Justified msg)
    passed hdr e d run q long = elim (Option-cases (verdict_on_header hdr)) [
      | inr (v, is) ↦ simp (is) (v, refl, header-Justified msg hdr v is)
      | inl is ↦ simp (is) (
          Returns->>= (Justified msg) _ run
            (verdict_on_questions-Justified msg hdr e (header-passes hdr is) limit udp d long q))
    ]
