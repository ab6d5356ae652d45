-- ===== src/Compress.antt =====
-- The comparison of names from their ends and the compression of names of pdnsd/src/dns.c.
use orbot_library.Prelude.{
  ℕ, zero, suc, ◌+◌, ◌-◌, ◌/◌, ◌%◌, List, [], ◌∷◌, ◌++◌, Bool, true, false, ◌&&◌, Run, ok, halt,
  assertion, no_fuel, ◌>>=◌, read, ltb, leb, ◌==◌, if◌then◌else◌, length, take, not,
}
use orbot_library.Name.{to_lower, rhnlen, dns_name_buf_size}

-- The result of domain_match, and what it stores through its last two arguments.
pub record Match : Type 0 where
  pub elements : ℕ
  pub rest_ms : ℕ
  pub rest_md : ℕ

-- The loops that collect the length bytes of a name: the offset of its zero byte, and the length
-- bytes with the last one first. `ns` of them stand in `ls`.
unfoldable pub collect : ℕ → List ℕ → ℕ → ℕ → List ℕ → Run (ℕ × List ℕ)
collect zero ms i ns ls = halt no_fuel
collect (suc fuel) ms i ns ls = read ms i >>= λ lb.
    let next = collect fuel ms (i + (lb + 1)) (ns + 1) (lb ∷ ls) in
    if lb == 0 then ok (i, ls) else if ltb ns 128 then next else halt assertion

-- The comparison of `lb` bytes in front of two offsets.
unfoldable pub same_tail : ℕ → List ℕ → List ℕ → ℕ → ℕ → Run Bool
same_tail zero ms md i j = ok true
same_tail (suc lb) ms md i j = read ms (i - 1) >>= λ x. read md (j - 1) >>= λ y.
    let next = same_tail lb ms md (i - 1) (j - 1) in
    if to_lower x == to_lower y then next else ok false

-- The loop over the elements of both names, from the last ones on.
unfoldable pub match_loop : List ℕ → List ℕ → List ℕ → List ℕ → ℕ → ℕ → Run Match
match_loop (lb ∷ ls) (lb' ∷ ld) ms md i j =
    let next = match_loop ls ld ms md (i - lb - 1) (j - lb - 1) in
    if lb == lb'
    then (same_tail lb ms md i j >>= λ same.
        if same
        then (next >>= λ m. ok (record m { elements = m.elements + 1 }))
        else ok (record { elements = 0; rest_ms = i; rest_md = j }))
    else ok (record { elements = 0; rest_ms = i; rest_md = j })
match_loop [] ld ms md i j = ok (record { elements = 0; rest_ms = i; rest_md = j })
match_loop (lb ∷ ls) [] ms md i j = ok (record { elements = 0; rest_ms = i; rest_md = j })

unfoldable pub domain_match : List ℕ → List ℕ → Run Match
domain_match ms md = collect (suc (length ms)) ms 0 0 [] >>= λ a.
    collect (suc (length md)) md 0 0 [] >>= λ b. match_loop a.1 b.1 ms md a.0 b.0

-- compel_t: a name that was put into the message, and its offset there.
pub record Compel : Type 0 where
  pub index : ℕ
  pub s : List ℕ

-- longest, lrem and coffs of compress_name.
pub record Best : Type 0 where
  pub longest : ℕ
  pub lrem : ℕ
  pub coffs : ℕ

-- Part 1 of compress_name: the search for the longest match.
unfoldable pub best_match : List ℕ → List Compel → Best → Run Best
best_match name [] best = ok best
best_match name (ci ∷ cb) best = domain_match name ci.s >>= λ m.
    let newoffs = ci.index + m.rest_md in
    if ltb best.longest m.elements && leb newoffs 0x3fff
    then best_match name cb (record { longest = m.elements; lrem = m.rest_ms; coffs = newoffs })
    else best_match name cb best

-- The bytes that go out, and whether the name is added to the list.
unfoldable pub compressed : List ℕ → ℕ → Best → Run (List ℕ × Bool)
compressed name ilen best =
    if ltb 0 best.longest
    then (if leb (best.lrem + 2) ilen
        then ok (
          take best.lrem name ++ ((0xc0 + best.coffs / 256 % 64) ∷ best.coffs % 256 ∷ []),
          not (best.lrem == 0),
        )
        else halt assertion)
    else ok (take ilen name, true)

-- compress_name: its result, what it writes to `out`, and the list of names; `room` says whether
-- dlist_grow has memory. Where it has not, the result is 0 and the list is lost.
unfoldable pub compress_name : Bool → List ℕ → ℕ → List Compel → Run (ℕ × (List ℕ × List Compel))
compress_name room name offs cb = rhnlen name >>= λ ilen.
    if leb ilen dns_name_buf_size
    then (best_match name cb (record { longest = 0; lrem = 0; coffs = 0 }) >>= λ best.
        compressed name ilen best >>= λ p.
        if p.1
        then (if room
            then ok (length p.0, (p.0, cb ++ (record { index = offs; s = take ilen name } ∷ [])))
            else ok (0, (p.0, [])))
        else ok (length p.0, (p.0, cb)))
    else halt assertion
