-- ===== src/Hash.antt =====
-- The hash table of pdnsd/src/hash.c. A chain is the list of its elements, a pointer into it the
-- number of elements in front, and the table the list of its chains.
pub mod Names
pub mod Chains
pub mod Order
use orbot_library.Prelude.{
  ℕ, zero, suc, ◌+◌, ◌-◌, ◌*◌, ◌/◌, ◌%◌, ◌^◌, List, [], ◌∷◌, Bool, true, false, ◌&&◌, Option, none,
  some, Run, ok, halt, out_of_bounds, no_fuel, ◌>>=◌, read, write, ltb, leb, ◌==◌, if◌then◌else◌,
  length, replicate, drop, ◌++◌, ◌||◌, not,
}
use orbot_library.Name.{rhnicmp}
use orbot_library.Compress.{Match, domain_match}

-- C's toupper on a byte, in the C locale.
unfoldable pub to_upper : ℕ → ℕ
to_upper c = if leb b'a' c && leb c b'z' then c - 32 else c

-- The position and the two sums of dns_hash.
pub record HashState : Type 0 where
  pub i : ℕ
  pub s : ℕ
  pub r : ℕ

-- The addition of a byte to both sums, where `bits` is the width of unsigned long.
unfoldable pub mix : ℕ → HashState → ℕ → HashState
mix bits h c = record {
  i = h.i + 1;
  s = (h.s + c * 2 ^ (h.i % 5)) % 2 ^ 32;
  r = (h.r + c * 2 ^ (h.i % (bits - 7))) % 2 ^ bits;
}

-- The inner loop of dns_hash, over the `lb` bytes of a label.
unfoldable pub hash_label : ℕ → ℕ → List ℕ → HashState → Run (HashState × List ℕ)
hash_label bits zero str h = ok (h, str)
hash_label bits (suc lb) [] h = halt out_of_bounds
hash_label bits (suc lb) (c ∷ str) h = hash_label bits lb str (mix bits h (to_upper c))

unfoldable pub hash_loop : ℕ → ℕ → List ℕ → HashState → Run HashState
hash_loop bits zero str h = halt no_fuel
hash_loop bits (suc fuel) [] h = halt out_of_bounds
hash_loop bits (suc fuel) (lb ∷ str) h =
    let next = hash_label bits lb str (mix bits h lb) >>= λ p. hash_loop bits fuel p.1 p.0 in
    if lb == 0 then ok h else next

-- The folding of the first sum to HASH_SZ, which is 10, bits.
unfoldable pub fold_sum : ℕ → ℕ
fold_sum s = s % 1024 + s / 1024

-- The bucket and the long hash.
unfoldable pub dns_hash : ℕ → List ℕ → Run (ℕ × ℕ)
dns_hash bits str = hash_loop bits (suc (length str)) str (record { i = 0; s = 0; r = 0 }) >>= λ h.
    ok (fold_sum (fold_sum h.s) % 1024, h.r)

-- dns_hash_ent_t with the name of its entry; the entry itself is a number.
pub record HashEnt : Type 0 where
  pub rhash : ℕ
  pub qname : List ℕ
  pub cent : ℕ

-- The loop of dns_lookup: the entry found, and the place where the loop ends.
unfoldable pub lookup_chain : List ℕ → ℕ → List HashEnt → Run (Option ℕ × ℕ)
lookup_chain key rh [] = ok (none, 0)
lookup_chain key rh (he ∷ chain) =
    let next = lookup_chain key rh chain >>= λ p. ok (p.0, suc p.1) in
    if leb he.rhash rh
    then (if he.rhash == rh
        then (rhnicmp key he.qname >>= λ same. if same then ok (some he.cent, 0) else next)
        else next)
    else ok (none, 0)

-- mk_dns_hash.
unfoldable pub mk_dns_hash : List (List HashEnt)
mk_dns_hash = replicate 1024 []

-- dns_lookup. The location is the bucket, the place in it and the long hash.
unfoldable pub dns_lookup : ℕ → List ℕ → List (List HashEnt) → Run (Option ℕ × (ℕ × (ℕ × ℕ)))
dns_lookup bits key buckets = dns_hash bits key >>= λ h.
    read buckets h.0 >>= λ chain. lookup_chain key h.1 chain >>= λ p. ok (p.0, (h.0, (p.1, h.1)))

-- The store through `loc->pos` in add_dns_hash.
unfoldable pub link_ent : ℕ → HashEnt → List HashEnt → Run (List HashEnt)
link_ent zero he chain = ok (he ∷ chain)
link_ent (suc pos) he [] = halt out_of_bounds
link_ent (suc pos) he (x ∷ chain) = link_ent pos he chain >>= λ l. ok (x ∷ l)

-- add_dns_hash; `room` says whether malloc has memory.
unfoldable pub add_dns_hash :
    Bool → HashEnt → ℕ → ℕ → List (List HashEnt) → Run (Bool × List (List HashEnt))
add_dns_hash room he bucket pos buckets =
    if room
    then (read buckets bucket >>= λ chain.
        link_ent pos he chain >>= λ l. write buckets bucket l >>= λ out. ok (true, out))
    else ok (false, buckets)

-- The removal in del_dns_hash_ent; the element behind a location is there.
unfoldable pub unlink_ent : ℕ → List HashEnt → Run (ℕ × List HashEnt)
unlink_ent pos [] = halt out_of_bounds
unlink_ent zero (he ∷ chain) = ok (he.cent, chain)
unlink_ent (suc pos) (x ∷ chain) = unlink_ent pos chain >>= λ p. ok (p.0, x ∷ p.1)

unfoldable pub del_dns_hash_ent : ℕ → ℕ → List (List HashEnt) → Run (ℕ × List (List HashEnt))
del_dns_hash_ent bucket pos buckets = read buckets bucket >>= λ chain.
    unlink_ent pos chain >>= λ p. write buckets bucket p.1 >>= λ out. ok (p.0, out)

-- The loop of del_dns_hash.
unfoldable pub del_chain : List ℕ → ℕ → List HashEnt → Run (Option ℕ × List HashEnt)
del_chain key rh [] = ok (none, [])
del_chain key rh (he ∷ chain) =
    let next = del_chain key rh chain >>= λ p. ok (p.0, he ∷ p.1) in
    if leb he.rhash rh
    then (if he.rhash == rh
        then (rhnicmp key he.qname >>= λ same. if same then ok (some he.cent, chain) else next)
        else next)
    else ok (none, he ∷ chain)

unfoldable pub del_dns_hash :
    ℕ → List ℕ → List (List HashEnt) → Run (Option ℕ × List (List HashEnt))
del_dns_hash bits key buckets = dns_hash bits key >>= λ h. read buckets h.0 >>= λ chain.
    del_chain key h.1 chain >>= λ p. write buckets h.0 p.1 >>= λ out. ok (p.0, out)

-- The entries of a chain, which free_dns_hash_bucket hands to del_cent in this order.
unfoldable pub chain_cents : List HashEnt → List ℕ
chain_cents [] = []
chain_cents (he ∷ chain) = he.cent ∷ chain_cents chain

unfoldable pub free_dns_hash_bucket : ℕ → List (List HashEnt) → Run (List ℕ × List (List HashEnt))
free_dns_hash_bucket i buckets =
    read buckets i >>= λ chain. write buckets i [] >>= λ out. ok (chain_cents chain, out)

-- The search of fetch_first and fetch_next for a chain that is not empty, from bucket `i` on: the
-- entry, its bucket and the elements behind it.
unfoldable pub fetch_from : ℕ → List (List HashEnt) → Option (ℕ × (ℕ × List HashEnt))
fetch_from i [] = none
fetch_from i ([] ∷ buckets) = fetch_from (i + 1) buckets
fetch_from i ((he ∷ chain) ∷ buckets) = some (he.cent, (i, chain))

unfoldable pub fetch_first : List (List HashEnt) → Option (ℕ × (ℕ × List HashEnt))
fetch_first buckets = fetch_from 0 buckets

-- fetch_next, for the bucket and the elements behind the last entry fetched.
unfoldable pub fetch_next : ℕ → List HashEnt → List (List HashEnt) → Option (ℕ × (ℕ × List HashEnt))
fetch_next bucket (he ∷ chain) buckets = some (he.cent, (bucket, chain))
fetch_next bucket [] buckets = fetch_from (bucket + 1) (drop (bucket + 1) buckets)

-- The entries that free_dns_hash hands to del_cent, in this order; the buckets are empty then.
unfoldable pub free_dns_hash : List (List HashEnt) → List ℕ × List (List HashEnt)
free_dns_hash [] = ([], [])
free_dns_hash (chain ∷ buckets) =
    let (cents, rest) = free_dns_hash buckets in (chain_cents chain ++ cents, [] ∷ rest)

-- An item of an include/exclude list: slist_t of conff.h.
pub record Slist : Type 0 where
  pub exact : Bool
  pub included : Bool
  pub domain : List ℕ

-- The loop of free_dns_hash_selected over the list: whether the entry of the name goes.
unfoldable pub is_selected : List ℕ → List Slist → Run Bool
is_selected name [] = ok false
is_selected name (sl ∷ sla) =
    let rest = is_selected name sla in
    domain_match name sl.domain >>= λ m.
    if m.rest_md == 0 && (not sl.exact || m.rest_ms == 0) then ok sl.included else rest

-- Its loop over the chain: the entries that go, and the chain that is left.
unfoldable pub select_chain : List Slist → List HashEnt → Run (List ℕ × List HashEnt)
select_chain sla [] = ok ([], [])
select_chain sla (he ∷ chain) = is_selected he.qname sla >>= λ goes.
    select_chain sla chain >>= λ p. ok (if goes then (he.cent ∷ p.0, p.1) else (p.0, he ∷ p.1))

unfoldable pub free_dns_hash_selected :
    ℕ → List Slist → List (List HashEnt) → Run (List ℕ × List (List HashEnt))
free_dns_hash_selected i sla buckets = read buckets i >>= λ chain.
    select_chain sla chain >>= λ p. write buckets i p.1 >>= λ out. ok (p.0, out)
