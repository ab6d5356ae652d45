-- ===== src/Answer/Sets.antt =====
-- The RR sets of an answer in pdnsd/src/dns_answer.c: sva_add, add_ar, add_rrset, add_to_response and
-- the additional records. The dynamic lists sva and ar are lists of their items; a dlist_grow fails
-- where `room` is false.
use orbot_library.Prelude.{
  ℕ, ◌+◌, ◌-◌, ◌%◌, List, [], ◌∷◌, ◌++◌, Bool, true, false, ◌&&◌, ◌||◌, not, ltb, leb, ◌==◌,
  if◌then◌else◌, Option, none, some, Run, ok, halt, out_of_bounds, length, take, drop,
}
use orbot_library.Name.{rhnlen, rhnicmp}
use orbot_library.Cent.{Sizeof, RrBucket, Cent, getrrset, have_rr}
use orbot_library.Cent.Add.{same_data}
use orbot_library.Cent.Conflicts.Lifetimes.{ans_ttl}
use orbot_library.Disk.{iterlist}
use orbot_library.Cache.{Store}
use orbot_library.Cache.Purges.{get_rrsmu}
use orbot_library.Cache.Lookup.{lookup_cache}
use orbot_library.Answer.{
  Reply, Section, answer, additional, ◌>>=◌, whole, assert, is_one_of, add_rr,
}
use orbot_library.Answer.Rounds.{each, visit}

-- sva_t: a record that is in the answer.
pub record Added : Type 0 where
  pub tp : ℕ
  pub dlen : ℕ
  pub nm : List ℕ
  pub data_ : List ℕ

-- rr_ext_t: a record that asks for others. `nm` is empty but for NS and SOA.
pub record RrExt : Type 0 where
  pub tp : ℕ
  pub tsz : ℕ
  pub ttl : ℕ
  pub tnm : List ℕ
  pub nm : List ℕ

-- The message and the two lists that grow with it.
pub record Draft : Type 0 where
  pub ans : Reply
  pub sva : List Added
  pub ar : List RrExt

-- The source of a memcpy of `n` bytes.
unfoldable pub copied : ℕ → List ℕ → Run (Option (List ℕ))
copied n bytes = if ltb (length bytes) n then halt out_of_bounds else ok (some (take n bytes))

unfoldable pub sva_add : Bool → List ℕ → ℕ → ℕ → List ℕ → List Added → Run (Option (List Added))
unfolding copied
sva_add room rhn tp dlen data_ sva = whole (rhnlen rhn) >>= λ rlen.
    if not room
    then ok none
    else (copied dlen data_ >>= λ d.
        ok (some (sva ++ (record { tp = tp; dlen = dlen; nm = take rlen rhn; data_ = d } ∷ []))))

unfoldable pub named : ℕ → Bool
named tp = tp == 2 || tp == 6

unfoldable pub add_ar : Bool → ℕ → ℕ → List ℕ → List ℕ → ℕ → List RrExt → Run (Option (List RrExt))
unfolding copied named
add_ar room tp tsz tnm nm ttl ar = (if named tp then whole (rhnlen nm) else ok (some 0)) >>= λ nmsz.
    if not room
    then ok none
    else (copied tsz tnm >>= λ t.
        ok (
          some (ar ++ (record { tp = tp; tsz = tsz; ttl = ttl; tnm = t; nm = take nmsz nm } ∷ []))))

-- ar_recs with ar_offs.
abbrev pub ar_recs : List (ℕ × ℕ)
ar_recs = (2, 0) ∷ (3, 0) ∷ (4, 0) ∷ (7, 0) ∷ (15, 2) ∷ (33, 6) ∷ []

-- The loop that marks a record for additional addresses. The length is an unsigned short.
unfoldable pub mark_ar : Bool → List (ℕ × ℕ) → ℕ → RrBucket → List RrExt → Run (Option (List RrExt))
unfolding add_ar
mark_ar room [] tp b ar = ok (some ar)
mark_ar room (o ∷ os) tp b ar =
    let rest = mark_ar room os tp b ar in
    if o.0 == tp
    then add_ar room 0 ((b.rdlen + 65536 - o.1) % 65536) (drop o.1 b.rdata) [] 0 ar
    else rest

-- The loop body of add_rrset.
unfoldable pub add_bucket : Bool → Option ℕ → List ℕ → ℕ → ℕ → RrBucket → Draft → Run (Option Draft)
unfolding sva_add mark_ar
add_bucket room udp rrn tp ttl b d =
    add_rr room rrn tp ttl b.rdlen b.rdata answer udp d.ans >>= λ ans.
    (if is_one_of tp (2 ∷ 1 ∷ 28 ∷ [])
      then sva_add room rrn tp b.rdlen b.rdata d.sva
      else ok (some d.sva))
    >>= λ sva. mark_ar room ar_recs tp b d.ar >>= λ ar.
        ok (some (record { ans = ans; sva = sva; ar = ar }))

-- global.rnd_recs, what random() gives for the RR set of each type, the time of the query, and udp.
pub record Client : Type 0 where
  pub rnd_recs : Bool
  pub random : ℕ → ℕ
  pub queryts : ℕ
  pub udp : Option ℕ

unfoldable pub add_rrset : Bool → Client → List ℕ → Cent → ℕ → Draft → Run (Option Draft)
unfolding add_bucket visit
add_rrset room q rrn cached tp d = whole (getrrset cached tp) >>= λ s. elim s [
  | none ↦ ok (some d)
  | some crrset ↦
      visit q.rnd_recs (q.random tp) (add_bucket room q.udp rrn tp (ans_ttl crrset q.queryts))
        crrset.rrs d
]

-- Whether a CNAME comes first.
unfoldable pub wants_cname : Cent → ℕ → Run (Option Bool)
wants_cname cached qtype =
    if qtype == 5 || qtype == 255
    then ok (some false)
    else if leb 1 qtype && leb qtype 51
    then (whole (have_rr cached qtype) >>= λ b. ok (some (not b)))
    else ok (some true)

-- The types that a query type asks for; `none` is the result 0.
unfoldable pub asked_types : Cent → ℕ → Option (List ℕ)
asked_types cached qtype =
    if qtype == 252 || qtype == 251
    then none
    else if qtype == 253
    then some (7 ∷ 8 ∷ 9 ∷ [])
    else if qtype == 254
    then some (3 ∷ 4 ∷ [])
    else if qtype == 255
    then some (iterlist cached)
    else if leb 1 qtype && leb qtype 51
    then some (qtype ∷ [])
    else none

unfoldable pub add_to_response : Bool → Client → List ℕ → ℕ → Cent → Draft → Run (Option Draft)
unfolding wants_cname asked_types add_rrset
add_to_response room q rrn qtype cached d = wants_cname cached qtype >>= λ w.
    (if w then add_rrset room q rrn cached 5 d else ok (some d)) >>= λ d1.
    elim (asked_types cached qtype) [
      | none ↦ ok none
      | some tps ↦ each (add_rrset room q rrn cached) tps d1
    ]

-- follow_cname_chain; DNSNAMEBUFSIZE is 256. `none` is the result 0.
unfoldable pub follow_cname_chain : Cent → Run (Option (List ℕ))
unfolding copied
follow_cname_chain c = whole (get_rrsmu c 2) >>= λ s. elim s [
  | none ↦ ok none
  | some rrset ↦ elim rrset.rrs [
    | [] ↦ ok none
    | rr ∷ rrs ↦ assert (leb rr.rdlen 256) (copied rr.rdlen rr.rdata)
  ]
]

-- The search through sva in add_additional_rr.
unfoldable pub is_added : List ℕ → ℕ → ℕ → List ℕ → List Added → Run (Option Bool)
unfolding same_data
is_added rhn tp dlen data_ [] = ok (some false)
is_added rhn tp dlen data_ (st ∷ sva) =
    let rest = is_added rhn tp dlen data_ sva in
    if st.tp == tp
    then (whole (rhnicmp st.nm rhn) >>= λ same.
        if same && (st.dlen == dlen) && same_data st.data_ (take dlen data_)
        then ok (some true)
        else rest)
    else rest

unfoldable pub add_additional_rr :
    Bool → Option ℕ → List ℕ → ℕ → ℕ → RrBucket → Section → Draft → Run (Option Draft)
unfolding is_added sva_add
add_additional_rr room udp rhn tp ttl rr sect d =
    is_added rhn tp rr.rdlen rr.rdata d.sva >>= λ found.
    if found
    then ok (some d)
    else (add_rr room rhn tp ttl rr.rdlen rr.rdata sect udp d.ans >>= λ ans.
        sva_add room rhn tp rr.rdlen rr.rdata d.sva >>= λ sva.
        ok (some (record d { ans = ans; sva = sva })))

unfoldable pub add_additional_rrs :
    Bool → Client → List ℕ → ℕ → ℕ → List RrBucket → Section → Draft → Run (Option Draft)
unfolding add_additional_rr visit
add_additional_rrs room q rhn tp ttl rrb sect d =
    visit q.rnd_recs (q.random tp) (λ rr. add_additional_rr room q.udp rhn tp ttl rr sect) rrb d

-- The addresses of one type; `i` is the place of the type among those of every entry.
unfoldable pub add_addresses : Bool → Client → List ℕ → ℕ → ℕ → Cent → Draft → Run (Option Draft)
unfolding add_additional_rrs
add_addresses room q rhn tp i ae d = whole (get_rrsmu ae i) >>= λ s. elim s [
  | none ↦ ok (some d)
  | some rrset ↦ add_additional_rrs room q rhn tp (ans_ttl rrset q.queryts) rrset.rrs additional d
]

-- The cache stays, also where the answer fails.
unfoldable pub beside : Store → Run (Option Draft) → Run (Store × Option Draft)
beside s (halt why) = halt why
beside s (ok d) = ok (s, d)

unfoldable pub add_additional_a :
    Sizeof
    → ℕ
    → Bool
    → Client
    → List ℕ
    → (Store → Store)
    → Store
    → Draft
    → Run (Store × Option Draft)
unfolding add_addresses beside
add_additional_a z now room q rhn others s d = elim (lookup_cache z now rhn false others s) [
  | halt why ↦ halt why
  | ok r ↦ elim r.0.ret [
    | none ↦ ok (r.1, some d)
    | some ae ↦
        beside r.1 (add_addresses room q rhn 1 0 ae d >>= λ d1. add_addresses room q rhn 28 7 ae d1)
  ]
]
