-- ===== src/Tests/Files.antt =====
-- The disk cache file of a small cache.
use orbot_library.Prelude.{
  ℕ, ◌≡◌, refl, List, [], ◌∷◌, ◌++◌, true, none, some, Run, ok, ◌≤◌, arith, read, replicate, length,
  Returns,
}
use orbot_library.Name.Labels.{wire}
use orbot_library.Name.{rhnlen, rhnlen_loop}
use orbot_library.RrList.{is_local}
use orbot_library.Cent.{
  Sizeof, RrSet, Cent, World, is_negative, rrarr_len, rrarr_index, getrrset_eff,
}
use orbot_library.Disk.{
  Widths, write_disk_cache, is_kept, iterlist, put_le, file_bytes, fset_bytes, fttlts_bytes,
  fbucket_bytes,
}
use orbot_library.Disk.Reader.{read_disk_cache}
use orbot_library.Disk.Slots.{slot, type_slot, weight}
use orbot_library.Disk.Entries.{IsStorableCent}
use orbot_library.Disk.Sets.{IsStorableSet}
use orbot_library.Disk.Bytes.{Fits}
use orbot_library.Disk.Caches.{
  Entries, cents_of, file_of, load_entries, count_wanted, write_disk_cache-read_disk_cache,
}

abbrev widths : Widths
widths = record { time = 4; long = 4 }

abbrev sizes : Sizeof
sizes = record { pointer = 8; rr_bucket = 16; rr_set = 40; dns_cent = 144 }

-- "a" with an address, and local name servers, which are not written.
abbrev address : RrSet
address = record {
  lent = some 1;
  ttl = 300;
  ts = 70000;
  flags = 0;
  rrs = record { rdlen = 4; rdata = 10 ∷ 0 ∷ 0 ∷ 1 ∷ [] } ∷ [];
}

abbrev local_server : RrSet
local_server = record {
  lent = some 2;
  ttl = 300;
  ts = 70000;
  flags = 2;
  rrs = record { rdlen = 3; rdata = 1 ∷ b'b' ∷ 0 ∷ [] } ∷ [];
}

abbrev entry : Cent
entry = record {
  qname = wire ((b'a' ∷ []) ∷ []);
  cs = 300;
  num_rrs = 2;
  flags = 0;
  neg_lent = none;
  neg_ttl = 0;
  neg_ts = 0;
  rrmu = some address ∷ some local_server ∷ replicate 6 none;
  rrext = none;
  c_ns = 255;
  c_soa = 255;
}

-- And "b", which does not exist.
abbrev missing : Cent
missing = record entry {
  qname = wire ((b'b' ∷ []) ∷ []);
  flags = 1;
  num_rrs = 0;
  neg_ttl = 60;
  neg_ts = 500;
  rrmu = replicate 8 none;
}

abbrev entries : Entries
entries = ((b'a' ∷ []) ∷ [], entry) ∷ ((b'b' ∷ []) ∷ [], missing) ∷ []

abbrev file : List ℕ
file =
    b'p' ∷ b'd' ∷ b'1' ∷ b'3' ∷ 2 ∷ 0 ∷ 0 ∷ 0 ∷ 2 ∷ 1 ∷ 0 ∷ 0 ∷ 255 ∷ 255 ∷ 1 ∷ b'a' ∷ 1 ∷ 1 ∷ 0 ∷ 0
    ∷ 44 ∷ 1 ∷ 0 ∷ 0 ∷ 112 ∷ 17 ∷ 1 ∷ 0 ∷ 4 ∷ 0 ∷ 10 ∷ 0 ∷ 0 ∷ 1 ∷ 2 ∷ 0 ∷ 1 ∷ 0 ∷ 255 ∷ 255 ∷ 60
    ∷ 0 ∷ 0 ∷ 0 ∷ 244 ∷ 1 ∷ 0 ∷ 0 ∷ 1 ∷ b'b' ∷ []

file_written : write_disk_cache widths 1000 (cents_of entries) ≡ ok (true, file)
unfolding write_disk_cache is_negative rrarr_len rrarr_index read is_local put_le rhnlen rhnlen_loop
    getrrset_eff
file_written = refl

file_of-entries : file_of widths entries ≡ file
unfolding iterlist type_slot slot weight put_le file_bytes fset_bytes fttlts_bytes fbucket_bytes
    is_negative is_kept is_local
file_of-entries = refl

address-IsStorableSet : IsStorableSet widths address
address-IsStorableSet = record {
  few = omega arith;
  flags = omega arith;
  ttl = omega arith;
  ts = omega arith;
  records = (record { sized = refl; fits = omega arith }, _);
}

local_server-IsStorableSet : IsStorableSet widths local_server
local_server-IsStorableSet = record {
  few = omega arith;
  flags = omega arith;
  ttl = omega arith;
  ts = omega arith;
  records = (record { sized = refl; fits = omega arith }, _);
}

entry-IsStorableCent : IsStorableCent widths ((b'a' ∷ []) ∷ []) entry
unfolding iterlist type_slot slot is_negative
entry-IsStorableCent = record {
  name = refl;
  labels = ((omega arith, omega arith), _);
  short = omega arith;
  arrays = record { mu_length = refl; ext_length = _ };
  flags = omega arith;
  c_ns = omega arith;
  c_soa = omega arith;
  ttl = omega arith;
  ts = omega arith;
  sets = (address-IsStorableSet, (local_server-IsStorableSet, _));
}

missing-IsStorableCent : IsStorableCent widths ((b'b' ∷ []) ∷ []) missing
unfolding iterlist is_negative
missing-IsStorableCent = record {
  name = refl;
  labels = ((omega arith, omega arith), _);
  short = omega arith;
  arrays = record { mu_length = refl; ext_length = _ };
  flags = omega arith;
  c_ns = omega arith;
  c_soa = omega arith;
  ttl = omega arith;
  ts = omega arith;
  sets = _;
}

-- A cache that keeps what add_cache is given.
abbrev keep : Cent → World → List Cent → Run (World × List Cent)
keep c w s = ok (w, s ++ (c ∷ []))

abbrev memory : World
memory = record { room = 50; rr_l = []; cache_size = 0 }

count_fits : Fits 4 (count_wanted entries)
unfolding iterlist type_slot slot weight is_negative is_kept is_local
count_fits = omega arith

file_fits : length (file_of widths entries) ≤ 1000
unfolding iterlist type_slot slot weight put_le file_bytes fset_bytes fttlts_bytes fbucket_bytes
    is_negative is_kept is_local
file_fits = omega arith

write_disk_cache-read_disk_cache_example :
    Returns (write_disk_cache widths 1000 (cents_of entries)) (λ r.
      (r.0 ≡ true)
      × (read_disk_cache keep true widths sizes memory [] r.1
          ≡ load_entries keep sizes entries memory []))
write_disk_cache-read_disk_cache_example =
    write_disk_cache-read_disk_cache keep widths sizes entries memory [] 1000
      (entry-IsStorableCent, (missing-IsStorableCent, _)) count_fits file_fits
