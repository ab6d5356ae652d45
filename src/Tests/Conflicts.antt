-- ===== src/Tests/Conflicts.antt =====
-- A CNAME that displaces the addresses of its name, and times to live.
use orbot_library.Prelude.{
  ℕ, ◌+◌, ◌-◌, ◌≤◌, ◌≡◌, refl, List, [], ◌∷◌, true, false, Option, none, some, ok, read, write,
  arith, replicate, Returns,
}
use orbot_library.RrList.{is_local}
use orbot_library.Cent.{
  Sizeof, RrSet, Cent, World, is_negative, clear_auth, rrarr_index, rrarr_index_testext, rrarr_set,
  rrarr_len,
}
use orbot_library.Cent.Delete.{rrs_size, del_cent_rrset_by_index, del_rrset}
use orbot_library.Cent.Sizes.{IsSized}
use orbot_library.Cent.Conflicts.{
  RrInfo, rr_info, excludes_each, in_conflict, count_conflicts, remove_conflicts, resolve,
  after_count, cr_check_add,
}
use orbot_library.Cent.Conflicts.Additions.{Checked, cr_check_add-Checked}
use orbot_library.Cent.Conflicts.Lifetimes.{
  Ttls, is_nocache, adjust_ttl, ans_ttl, ans_ttl-adjust_ttl,
}

abbrev sizes : Sizeof
sizes = record { pointer = 8; rr_bucket = 16; rr_set = 40; dns_cent = 144 }

abbrev memory : World
memory = record { room = 50; rr_l = []; cache_size = 0 }

abbrev addresses : RrSet
addresses = record {
  lent = none;
  ttl = 100;
  ts = 1000;
  flags = 0;
  rrs = record { rdlen = 4; rdata = 1 ∷ 2 ∷ 3 ∷ 4 ∷ [] } ∷ [];
}

-- An entry of "a" with an address.
abbrev entry : List (Option RrSet) → ℕ → ℕ → Cent
entry sets cs num = record {
  qname = 1 ∷ b'a' ∷ 0 ∷ [];
  cs = cs;
  num_rrs = num;
  flags = 0;
  neg_lent = none;
  neg_ttl = 0;
  neg_ts = 0;
  rrmu = sets;
  rrext = none;
  c_ns = 255;
  c_soa = 255;
}

abbrev addressed : Cent
addressed = entry (some addresses ∷ replicate 7 none) 207 1

-- 50 seconds are left of the address' time: a CNAME for 51 seconds displaces it, one for 50 not.
displaced :
    cr_check_add sizes addressed 2 51 0 1050 memory
    ≡ ok (true, (entry (replicate 8 none) 147 0, memory))
unfolding cr_check_add count_conflicts after_count resolve remove_conflicts in_conflict
    excludes_each is_local is_negative clear_auth rrarr_index rrarr_index_testext rrarr_set
    rrarr_len del_cent_rrset_by_index del_rrset read write
displaced = refl

preceding : cr_check_add sizes addressed 2 50 0 1050 memory ≡ ok (false, (addressed, memory))
unfolding cr_check_add count_conflicts after_count resolve in_conflict excludes_each is_local
    is_negative rrarr_index rrarr_len read
preceding = refl

addressed-IsSized : IsSized sizes addressed
unfolding is_negative rrs_size
addressed-IsSized = record { mu_length = refl; ext_length = _; size = refl; number = refl }

positive_flags : is_negative 0 ≡ false
unfolding is_negative
positive_flags = refl

cr_check_add-Checked_example :
    (rri : RrInfo) × ((read rr_info 2 ≡ ok rri)
      × Returns (cr_check_add sizes addressed 2 51 0 1050 memory) (Checked sizes rri addressed))
cr_check_add-Checked_example =
    cr_check_add-Checked sizes addressed 2 51 0 1050 memory addressed-IsSized (omega arith)
      positive_flags

abbrev ttls : Ttls
ttls = record { min_ttl = 120; neg_ttl = 60; max_ttl = 604800 }

foreign_addresses : is_local (adjust_ttl ttls addresses).flags ≡ false
unfolding is_local adjust_ttl is_nocache
foreign_addresses = refl

ans_ttl-adjust_ttl_example :
    (ans_ttl (adjust_ttl ttls addresses) (1000 + 5) ≤ 604800)
    × ((ans_ttl (adjust_ttl ttls addresses) (1000 + 5 + 1)
          ≡ ans_ttl (adjust_ttl ttls addresses) (1000 + 5) - 1)
        × (ans_ttl (adjust_ttl ttls addresses) (1000 + 604800 + 5) ≡ 0))
ans_ttl-adjust_ttl_example = ans_ttl-adjust_ttl ttls addresses 5 (omega arith) foreign_addresses
