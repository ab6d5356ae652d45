-- ===== src/Answer/Compose.antt =====
-- The parts of compose_answer in pdnsd/src/dns_answer.c around its answer section: the questions, the
-- queries that are refused, and the authority and additional sections.
use orbot_library.Prelude.{
  ℕ, ◌+◌, ◌*◌, ◌%◌, List, [], ◌∷◌, ◌++◌, Bool, true, false, ◌&&◌, ◌||◌, not, ltb, ◌==◌,
  if◌then◌else◌, Option, none, some, Run, ok, halt, read, length,
}
use orbot_library.Name.{rhnlen}
use orbot_library.Header.{put_int16}
use orbot_library.Query.{QueryEl}
use orbot_library.Query.Opt.{grow_message, add_opt_pseudo_rr}
use orbot_library.Records.Answer.{not_cached_type}
use orbot_library.Cent.{Sizeof}
use orbot_library.Cache.{Store}
use orbot_library.Answer.{Reply, authority, ◌>>=◌, whole, patch, put_bytes, put_name}
use orbot_library.Answer.Rounds.{each}
use orbot_library.Answer.Sets.{Draft, Client, RrExt, named, add_additional_rr, add_additional_a}

-- ++qdcount.
unfoldable pub count_question : List ℕ → Run (Option (List ℕ))
unfolding patch
count_question bytes = whole (read bytes 4) >>= λ hi. whole (read bytes 5) >>= λ lo.
    ok (some (patch 4 (put_int16 ((hi * 256 + lo + 1) % 65536)) bytes))

-- The loop body that adds a question.
unfoldable pub add_question : Bool → QueryEl → Reply → Run (Option Reply)
unfolding count_question
add_question room qe m = whole (rhnlen qe.query) >>= λ len.
    elim (grow_message room (2 + length m.bytes + len + 4) m.allocsz) [
      | none ↦ ok none
      | some n ↦ put_name room qe.query (record m { allocsz = n }) >>= λ r.
          put_bytes (put_int16 qe.qtype ++ put_int16 qe.qclass) r.1 >>= λ m2.
          count_question m2.bytes >>= λ b. ok (some (record m2 { bytes = b }))
    ]

unfoldable pub add_questions : Bool → List QueryEl → Reply → Run (Option Reply)
unfolding add_question each
add_questions room ql m = each (add_question room) ql m

-- The test for a query that cannot be answered, and the loop of it.
unfoldable pub is_refused : QueryEl → Run (Option Bool)
is_refused qe = whole (not_cached_type qe.qtype) >>= λ n. ok (
    some (
      (n && not (qe.qtype == 253 || qe.qtype == 254 || qe.qtype == 255))
      || (not (qe.qclass == 1) && not (qe.qclass == 255))))

unfoldable pub any_refused : List QueryEl → Run (Option Bool)
unfolding is_refused
any_refused [] = ok (some false)
any_refused (qe ∷ ql) =
    is_refused qe >>= λ b. elim b [ true ↦ ok (some true) | false ↦ any_refused ql ]

-- The loop over the records for the authority section.
unfoldable pub add_authority : Bool → Client → RrExt → Draft → Run (Option Draft)
unfolding named
add_authority room q rre d =
    if named rre.tp
    then add_additional_rr room q.udp rre.nm rre.tp rre.ttl
        (record { rdlen = rre.tsz; rdata = rre.tnm }) authority d
    else ok (some d)

unfoldable pub add_authorities : Bool → Client → Draft → Run (Option Draft)
unfolding add_authority each
add_authorities room q d = each (add_authority room q) d.ar d

-- Whether not even a pseudo RR fits.
unfoldable pub no_space : Option ℕ → ℕ → Bool
no_space none sz = false
no_space (some udp) sz = ltb udp (sz + 11)

-- The OPT pseudo RR, where the query has one; `udpbufsize` is that of the configuration.
unfoldable pub add_edns : Bool → ℕ → Bool → Draft → Run (Option Draft)
add_edns room udpbufsize ednsinfo d =
    if ednsinfo
    then (whole (add_opt_pseudo_rr room d.ans.bytes d.ans.allocsz udpbufsize 0 0 0) >>= λ o.
        elim o [
          | none ↦ ok none
          | some a ↦
              ok (some (record d { ans = record { bytes = a.0; allocsz = a.1; cb = d.ans.cb } }))
        ])
    else ok (some d)

-- What follows a part of the code that uses the cache.
unfoldable pub cache_then :
    Run (Store × Option Draft)
    → (Store → Draft → Run (Store × Option Draft))
    → Run (Store × Option Draft)
cache_then (halt why) k = halt why
cache_then (ok (s, none)) k = ok (s, none)
cache_then (ok (s, some d)) k = k s d

-- The loop over the records for the additional section. What other threads do to the cache in a round
-- is `others` of the number of records behind.
unfoldable pub add_names :
    Sizeof
    → ℕ
    → Bool
    → Client
    → (ℕ → Store → Store)
    → List RrExt
    → Store
    → Draft
    → Run (Store × Option Draft)
unfolding cache_then
add_names z now room q others [] s d = ok (s, some d)
add_names z now room q others (rre ∷ ar) s d =
    cache_then
      (if rre.tp == 2 || rre.tp == 0
        then add_additional_a z now room q rre.tnm (others (length ar)) s d
        else ok (s, some d))
      (add_names z now room q others ar)

-- The additional section.
unfoldable pub add_extras :
    Sizeof
    → ℕ
    → Bool
    → Client
    → ℕ
    → Bool
    → (ℕ → Store → Store)
    → Store
    → Draft
    → Run (Store × Option Draft)
unfolding no_space add_edns add_names
add_extras z now room q udpbufsize ednsinfo others s d =
    if no_space q.udp (length d.ans.bytes)
    then ok (s, some d)
    else (elim (add_edns room udpbufsize ednsinfo d) [
      | halt why ↦ halt why
      | ok none ↦ ok (s, none)
      | ok (some d2) ↦ add_names z now room q others d2.ar s d2
    ])
