-- ===== src/Tests/Table.antt =====
-- Runs on the hash table and on the compression of names, and the theorems' witnesses.
use orbot_library.Prelude.{
  ℕ, ◌<◌, ◌≡◌, refl, List, [], ◌∷◌, ◌++◌, true, false, none, ok, Returns, arith, read,
}
use orbot_library.Name.{to_lower, rhnicmp, rhnicmp_loop, same_segment, rhnlen, rhnlen_loop}
use orbot_library.Name.Labels.{wire}
use orbot_library.Name.Caseless.{fold_case}
use orbot_library.Hash.{HashEnt, dns_hash, lookup_chain}
use orbot_library.Hash.Names.{dns_hash-fold_case}
use orbot_library.Hash.Order.{Absent, lookup_chain-Absent}
use orbot_library.Hash.Chains.{Miss, lookup_chain-Miss}
use orbot_library.Compress.{
  compress_name, compressed, best_match, domain_match, match_loop, same_tail, collect,
}

same_fold : fold_case ((97 ∷ 98 ∷ []) ∷ []) ≡ fold_case ((65 ∷ 98 ∷ []) ∷ [])
unfolding to_lower
same_fold = refl

dns_hash-fold_case_example :
    Returns
      (dns_hash 64 (wire ((97 ∷ 98 ∷ []) ∷ []) ++ []))
      (λ h. (h.0 < 1024) × (dns_hash 64 (wire ((65 ∷ 98 ∷ []) ∷ []) ++ (7 ∷ [])) ≡ ok h))
dns_hash-fold_case_example =
    dns_hash-fold_case 64 ((97 ∷ 98 ∷ []) ∷ []) ((65 ∷ 98 ∷ []) ∷ []) [] (7 ∷ [])
      ((omega arith, omega arith), _) ((omega arith, omega arith), _) same_fold

abbrev name_a : List ℕ
name_a = 1 ∷ 97 ∷ 0 ∷ []

abbrev name_b : List ℕ
name_b = 1 ∷ 98 ∷ 0 ∷ []

abbrev chain_b : List HashEnt
chain_b = record { rhash = 5; qname = name_b; cent = 1 } ∷ []

a_is_a : rhnicmp name_a name_a ≡ ok true
unfolding rhnicmp rhnicmp_loop same_segment to_lower
a_is_a = refl

a_is_not_b : rhnicmp name_a name_b ≡ ok false
unfolding rhnicmp rhnicmp_loop same_segment to_lower
a_is_not_b = refl

lookup_chain-Miss_example :
    Returns (lookup_chain name_a 5 chain_b) (λ p. p.0 ≡ none → Miss name_a 5 2 chain_b p.1)
lookup_chain-Miss_example = lookup_chain-Miss name_a 5 2 chain_b a_is_a ((false, a_is_not_b), _)

-- The name "a.b" is compressed by a pointer to the name "b" at offset 12.
compressed_name :
    compress_name true (1 ∷ 97 ∷ 1 ∷ 66 ∷ 0 ∷ []) 40 (record { index = 12; s = name_b } ∷ [])
    ≡ ok (
      4,
      (
        1 ∷ 97 ∷ 0xc0 ∷ 12 ∷ [],
        record { index = 12; s = name_b }
            ∷ record { index = 40; s = 1 ∷ 97 ∷ 1 ∷ 66 ∷ 0 ∷ [] }
            ∷ [],
      ),
    )
unfolding compress_name compressed best_match domain_match match_loop same_tail collect to_lower
    rhnlen rhnlen_loop read
compressed_name = refl

lookup_chain-Absent_example :
    Returns (lookup_chain name_a 5 chain_b) (λ p. p.0 ≡ none → Absent name_a 5 chain_b)
lookup_chain-Absent_example = lookup_chain-Absent name_a 5 chain_b (_, _) ((false, a_is_not_b), _)
