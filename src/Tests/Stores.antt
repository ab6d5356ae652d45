-- ===== src/Tests/Stores.antt =====
-- The purging of an entry, and the search for a name, in a small cache.
use orbot_library.Prelude.{
  ◌≡◌, refl, [], ◌∷◌, true, false, none, some, ok, arith, read, write, replicate, Returns,
}
use orbot_library.Name.Labels.{wire}
use orbot_library.RrList.{is_local}
use orbot_library.Cent.{Sizeof, RrSet, Cent, World, is_negative, rrarr_len, rrarr_index}
use orbot_library.Cent.Delete.{rrs_size, del_cent_rrset_by_index}
use orbot_library.Cent.Sizes.{IsSized}
use orbot_library.Cent.Purge.{
  Purged, must_go, drop_rrset, purge_loop, purge_rrext, purge_all_rrsets,
}
use orbot_library.Cent.Purging.{IsPurged, purge_all_rrsets-test}
use orbot_library.Cache.{Store}
use orbot_library.Cache.Lookup.{search}
use orbot_library.Cache.Ancestors.{Looked}
use orbot_library.Cache.Upwards.{search-Looked}

abbrev sizes : Sizeof
sizes = record { pointer = 8; rr_bucket = 16; rr_set = 40; dns_cent = 144 }

-- "b" with a set that is timed out at the time 2000, and a local one.
abbrev old_set : RrSet
old_set = record { lent = some 1; ttl = 300; ts = 1000; flags = 0; rrs = [] }

abbrev local_set : RrSet
local_set = record {
  lent = none;
  ttl = 300;
  ts = 1000;
  flags = 2;
  rrs = record { rdlen = 1; rdata = 0 ∷ [] } ∷ [];
}

abbrev entry : Cent
entry = record {
  qname = wire ((b'b' ∷ []) ∷ []);
  cs = 244;
  num_rrs = 2;
  flags = 2;
  neg_lent = none;
  neg_ttl = 0;
  neg_ts = 0;
  rrmu = some old_set ∷ some local_set ∷ replicate 6 none;
  rrext = none;
  c_ns = 255;
  c_soa = 255;
}

abbrev memory : World
memory = record { room = 50; rr_l = 1 ∷ []; cache_size = 1000 }

entry-IsSized : IsSized sizes entry
unfolding rrs_size is_negative
entry-IsSized = record { mu_length = refl; ext_length = _; size = refl; number = refl }

entry_positive : is_negative entry.flags ≡ false
unfolding is_negative
entry_positive = refl

purge_all_rrsets-test_example :
    (p : Purged) × ((purge_all_rrsets sizes 2000 entry true memory ≡ ok (p, (entry, memory)))
      × Returns
          (purge_all_rrsets sizes 2000 entry false memory)
          (λ r. (r.0 ≡ p) × IsPurged sizes 2000 entry memory r.1.0 r.1.1))
purge_all_rrsets-test_example =
    purge_all_rrsets-test sizes 2000 entry memory entry-IsSized entry_positive (omega arith)

abbrev purged_entry : Cent
purged_entry = record entry {
  cs = 204;
  num_rrs = 1;
  rrmu = none ∷ some local_set ∷ replicate 6 none;
}

entry_purged :
    purge_all_rrsets sizes 2000 entry false memory
    ≡ ok (
      record { rv = 1; numrrs = 1; numrrext = 0 },
      (purged_entry, record { room = 50; rr_l = []; cache_size = 960 }),
    )
unfolding purge_all_rrsets purge_loop purge_rrext must_go drop_rrset del_cent_rrset_by_index
    is_local is_negative rrarr_len rrarr_index read write
entry_purged = refl

abbrev store : Store
store = record { cents = entry ∷ []; world = memory; ent_num = 1 }

-- "a.b" is not there, "b" is local.
search-Looked_example :
    Returns
      (search (wire ((b'a' ∷ []) ∷ (b'b' ∷ []) ∷ [])) true store)
      (Looked store ((b'a' ∷ []) ∷ (b'b' ∷ []) ∷ []))
search-Looked_example =
    search-Looked store ((b'a' ∷ []) ∷ (b'b' ∷ []) ∷ [])
      ((((b'b' ∷ []) ∷ [], (((omega arith, omega arith), _), refl)), _))
      ((omega arith, omega arith), ((omega arith, omega arith), _)) (omega arith)
