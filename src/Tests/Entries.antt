-- ===== src/Tests/Entries.antt =====
-- Runs on cache entries and on the list rr_l, and the theorems' witnesses.
use orbot_library.Prelude.{
  ℕ, ◌+◌, ◌≡◌, refl, List, [], ◌∷◌, true, false, none, some, ok, halt, assertion, Returns, length,
  read, arith, ◌&&◌, not, replicate,
}
use orbot_library.RrList.{RrLent, is_local, is_unlisted, insert_rrl, sort_rrl}
use orbot_library.RrList.Insertion.{add_all}
use orbot_library.RrList.Sort.{sort_rrl-add_all}
use orbot_library.Cent.{Sizeof, RrSet, Cent, World, is_negative, rrarr_index_testext, getrrset}
use orbot_library.Cent.Delete.{del_cent_rrset_by_index, negate_cent}
use orbot_library.Cent.Add.{add_cent_rr, type_index}
use orbot_library.Cent.Sizes.{IsSized}
use orbot_library.Cent.Accounts.{del_cent_rrset_by_index-IsSized}
use orbot_library.Cent.Negation.{negate_cent-IsSized}
use orbot_library.Cent.Adding.{HasData}
use orbot_library.Cent.Finding.{add_cent_rr-getrrset}

-- Three nodes, the first of which is the youngest and the second of which is local.
abbrev node : ℕ → ℕ → ℕ → RrLent
node ts flags idx = record {
  rrset = some (record { flags = flags; ts = ts });
  cent = 0;
  cent_flags = 0;
  neg_ts = 0;
  idx = idx;
}

abbrev three_nodes : List RrLent
three_nodes = node 30 0 0 ∷ node 20 2 1 ∷ node 10 0 2 ∷ []

listed_nodes : length (add_all false [] three_nodes) ≡ 2
unfolding add_all insert_rrl is_unlisted is_local
listed_nodes = refl

sort_rrl-add_all_example :
    sort_rrl (add_all false [] three_nodes) ≡ ok (add_all true [] three_nodes)
sort_rrl-add_all_example = sort_rrl-add_all three_nodes (omega (arith, listed_nodes))

abbrev sizes : Sizeof
sizes = record { dns_cent = 104; rr_set = 40; rr_bucket = 16; pointer = 8 }

abbrev world : World
world = record { room = 10; rr_l = []; cache_size = 1000 }

-- The entry of the name "a".
abbrev entry : Cent
entry = record {
  qname = 1 ∷ 97 ∷ 0 ∷ [];
  cs = 107;
  num_rrs = 0;
  flags = 0;
  neg_lent = none;
  neg_ttl = 0;
  neg_ts = 0;
  rrmu = replicate 8 none;
  rrext = none;
  c_ns = 255;
  c_soa = 255;
}

entry-IsSized : IsSized sizes entry
unfolding is_negative
entry-IsSized = record { mu_length = refl; ext_length = _; size = refl; number = refl }

abbrev address : List ℕ
address = 127 ∷ 0 ∷ 0 ∷ 1 ∷ []

index_of_srv : type_index 33 ≡ ok 32
unfolding type_index read
index_of_srv = refl

index_of_a6 : type_index 38 ≡ ok 47
unfolding type_index read
index_of_a6 = refl

no_index : type_index 52 ≡ halt assertion
unfolding type_index read
no_index = refl

add_cent_rr-getrrset_example : Returns (add_cent_rr sizes entry 33 300 5 0 address world) (λ r.
    IsSized sizes r.1.0
    × (r.0 ≡ true
        → (is_local 0 && not (is_local 0)) ≡ false
        → (s : RrSet) × ((getrrset r.1.0 33 ≡ ok (some s)) × HasData address s)))
add_cent_rr-getrrset_example =
    add_cent_rr-getrrset sizes entry 33 32 300 5 0 address world entry-IsSized index_of_srv
      (omega arith)

-- The entry with an RR set of 40 bytes and one record of 20.
abbrev full_entry : Cent
full_entry = record entry {
  cs = 167;
  num_rrs = 1;
  rrmu =
      some (record {
        lent = none;
        ttl = 300;
        ts = 5;
        flags = 0;
        rrs = record { rdlen = 4; rdata = address } ∷ [];
      })
      ∷ replicate 7 none;
}

full_entry-IsSized : IsSized sizes full_entry
unfolding is_negative orbot_library.Cent.Delete.rrs_size
full_entry-IsSized = record { mu_length = refl; ext_length = _; size = refl; number = refl }

del_cent_rrset_by_index-IsSized_example :
    Returns (del_cent_rrset_by_index sizes full_entry 0 world) (λ r.
      IsSized sizes r.1.0 × ((r.1.0.cs + r.0 ≡ 167) × (rrarr_index_testext r.1.0 0 ≡ ok none)))
del_cent_rrset_by_index-IsSized_example =
    del_cent_rrset_by_index-IsSized sizes full_entry 0 world full_entry-IsSized (omega arith)

negate_cent-IsSized_example :
    let r = (negate_cent sizes full_entry 60 9 world).0 in
    IsSized sizes r × ((is_negative r.flags ≡ true) × (r.cs ≡ 104 + 3))
negate_cent-IsSized_example = negate_cent-IsSized sizes full_entry 60 9 world full_entry-IsSized
