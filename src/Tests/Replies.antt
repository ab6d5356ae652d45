-- ===== src/Tests/Replies.antt =====
-- The records of an answer, in a small cache.
use orbot_library.Prelude.{
  ℕ, ◌≡◌, ◌≤◌, ◌⊎◌, refl, List, [], ◌∷◌, ◌++◌, true, Option, none, some, Run, ok, halt, replicate,
  length, read, write,
}
use orbot_library.Name.Labels.{wire}
use orbot_library.Cent.{Sizeof, RrSet, Cent}
use orbot_library.Cache.{Store}
use orbot_library.Answer.Rounds.{each, visit}
use orbot_library.Answer.Rotation.{in_order, visit-in_order}
use orbot_library.Answer.Sets.{Draft, Client, add_additional_a}
use orbot_library.Answer.Compose.{add_extras}
use orbot_library.Answer.Ending.{add_extras-limit}
use orbot_library.Cache.Lookup.{lookup_cache}
use orbot_library.Cache.{find_name}
use orbot_library.Records.Cents.{find_cent}
use orbot_library.Name.{rhnicmp}
use orbot_library.Name.{rhnicmp_loop}
use orbot_library.Name.{same_segment}
use orbot_library.Name.{to_lower}
use orbot_library.Prelude.{read}
use orbot_library.Cache.Purges.{purge_cent}
use orbot_library.Cent.Purge.{purge_all_rrsets}
use orbot_library.Cent.{is_negative}
use orbot_library.Cent.Purge.{purge_loop}
use orbot_library.Cent.{rrarr_len}
use orbot_library.Cent.{rrarr_index}
use orbot_library.Cent.Purge.{must_go}
use orbot_library.RrList.{is_local}
use orbot_library.Cache.Purges.{goes_empty}
use orbot_library.Cent.Purge.{purge_rrext}
use orbot_library.Cache.Purges.{purge_refs}
use orbot_library.Cent.Copy.{copy_cent}
use orbot_library.Name.{rhnlen}
use orbot_library.Name.{rhnlen_loop}
use orbot_library.Cache.Purges.{get_rrsmu}
use orbot_library.Answer.{add_rr}
use orbot_library.Compress.{compress_name}
use orbot_library.Compress.{best_match}
use orbot_library.Compress.{compressed}
use orbot_library.Answer.{put_bytes}
use orbot_library.Answer.{put_from}
use orbot_library.Answer.{count_record}
use orbot_library.Compress.{domain_match}
use orbot_library.Compress.{collect}
use orbot_library.Compress.{match_loop}
use orbot_library.Compress.{same_tail}
use orbot_library.Header.{put_int16}
use orbot_library.Header.{put_int32}
use orbot_library.Query.Opt.{add_opt_pseudo_rr}
use orbot_library.Query.Opt.{put_opt}
use orbot_library.Header.{get_int16}
use orbot_library.Query.Opt.{set_arcount}
use orbot_library.Query.Opt.{opt_bytes}

-- A record that goes to the end of a list.
abbrev keep : ℕ → List ℕ → Run (Option (List ℕ))
keep x s = ok (some (s ++ (x ∷ [])))

visit-in_order_example : visit true 7 keep (10 ∷ 20 ∷ 30 ∷ []) [] ≡ ok (some (20 ∷ 30 ∷ 10 ∷ []))
unfolding in_order each
visit-in_order_example = visit-in_order keep true 7 (10 ∷ 20 ∷ 30 ∷ []) []

abbrev widths : Sizeof
widths = record { pointer = 8; rr_bucket = 16; rr_set = 40; dns_cent = 144 }

-- "b" with two local addresses.
abbrev addresses : RrSet
addresses = record {
  lent = none;
  ttl = 300;
  ts = 1000;
  flags = 2;
  rrs =
      record { rdlen = 4; rdata = 127 ∷ 0 ∷ 0 ∷ 1 ∷ [] }
      ∷ record { rdlen = 4; rdata = 127 ∷ 0 ∷ 0 ∷ 2 ∷ [] }
      ∷ [];
}

abbrev host : Cent
host = record {
  qname = wire ((b'b' ∷ []) ∷ []);
  cs = 227;
  num_rrs = 1;
  flags = 2;
  neg_lent = none;
  neg_ttl = 0;
  neg_ts = 0;
  rrmu = some addresses ∷ replicate 7 none;
  rrext = none;
  c_ns = 255;
  c_soa = 255;
}

abbrev hosts : Store
hosts = record {
  cents = host ∷ [];
  world = record { room = 50; rr_l = []; cache_size = 1000 };
  ent_num = 1;
}

-- With a limit of 40 bytes, the pseudo RR and one of the two addresses fit.
abbrev client : Client
client = record { rnd_recs = true; random = λ tp. 5; queryts = 2000; udp = some 40 }

abbrev draft : Draft
draft = record {
  ans = record { bytes = replicate 12 0; allocsz = 256; cb = [] };
  sva = [];
  ar = record { tp = 0; tsz = 3; ttl = 0; tnm = wire ((b'b' ∷ []) ∷ []); nm = [] } ∷ [];
}

abbrev after : Store × Draft
after = elim (add_extras widths 2000 true client 1024 true (λ n s. s) hosts draft) [
  | halt why ↦ (hosts, draft)
  | ok (s, none) ↦ (s, draft)
  | ok (s, some d) ↦ (s, d)
]

after_lem :
    add_extras widths 2000 true client 1024 true (λ n s. s) hosts draft ≡ ok (after.0, some after.1)
unfolding add_extras add_additional_a lookup_cache find_name find_cent rhnicmp rhnicmp_loop
    same_segment to_lower read purge_cent purge_all_rrsets is_negative purge_loop rrarr_len
    rrarr_index must_go is_local write goes_empty purge_rrext purge_refs copy_cent rhnlen
    rhnlen_loop get_rrsmu add_rr compress_name best_match compressed put_bytes put_from count_record
    domain_match collect match_loop same_tail put_int16 put_int32 add_opt_pseudo_rr put_opt
    get_int16 set_arcount opt_bytes
after_lem = refl

add_extras-limit_example : (after.1.ans.bytes ≡ replicate 12 0) ⊎ (length after.1.ans.bytes ≤ 40)
add_extras-limit_example =
    add_extras-limit widths 2000 true client 1024 true (λ n s. s) hosts draft 40 after.0 after.1
      refl after_lem
