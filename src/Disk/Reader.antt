-- ===== src/Disk/Reader.antt =====
-- read_disk_cache of pdnsd/src/cache.c. A read fails where the file ends.
use orbot_library.Prelude.{
  ℕ, zero, suc, ◌+◌, List, [], ◌∷◌, ◌++◌, Bool, true, false, ◌||◌, not, ltb, leb, ◌==◌,
  if◌then◌else◌, Option, none, some, Halt, no_fuel, Run, ok, halt, length, take, drop,
}
use orbot_library.Cent.{Sizeof, Cent, World, is_negative}
use orbot_library.Cent.Delete.{free_cent}
use orbot_library.Cent.Add.{init_cent, add_cent_rr, add_cent_rrset_by_type, same_data}
use orbot_library.Records.Answer.{not_cached_type}
use orbot_library.Disk.{Widths, get_le, cachverid}

-- How a part of the reading ends: it goes on, it has warned and the reading stops, or there is no
-- memory and pdnsd exits.
pub data Reading {ℓ} (A : Type ℓ) : Type ℓ where
  next : A → Reading A
  stop : World → Reading A
  exits : Reading A
  faults : Halt → Reading A

infixl 5 ◌>>=◌
abbrev pub ◌>>=◌ {ℓ κ} : {A : Type ℓ} {B : Type κ} → Reading A → (A → Reading B) → Reading B
next a >>= k = k a
stop w >>= k = stop w
exits >>= k = exits
faults why >>= k = faults why

-- A call that may fault, and one of a function with a result 0 where there is no memory.
abbrev pub lift {ℓ} : {A : Type ℓ} → Run A → Reading A
lift (ok a) = next a
lift (halt why) = faults why

abbrev pub unless_full {ℓ} : {A : Type ℓ} → Bool × A → Reading A
unless_full (true, a) = next a
unless_full (false, a) = exits

-- fread of `n` bytes: the bytes, and the rest of the file.
unfoldable pub fread : ℕ → List ℕ → Option (List ℕ × List ℕ)
fread zero f = some ([], f)
fread (suc n) [] = none
fread (suc n) (b ∷ f) = elim (fread n f) [ none ↦ none | some p ↦ some (b ∷ p.0, p.1) ]

-- fread where the reading stops if it fails, in the state `w`.
unfoldable pub read_bytes : ℕ → List ℕ → World → Reading (List ℕ × List ℕ)
unfolding fread
read_bytes n f w = elim (fread n f) [ none ↦ stop w | some p ↦ next p ]

-- A field of `n` bytes of what has been read, and the fields behind it.
unfoldable pub field : ℕ → List ℕ → ℕ × List ℕ
field n bytes = (get_le (take n bytes), drop n bytes)

-- The rest of the file, and the size of the buffer `data`.
pub record InFile : Type 0 where
  pub file : List ℕ
  pub dtsz : ℕ

-- rr_fset_t.
pub record FileSet : Type 0 where
  pub tp : ℕ
  pub num_rr : ℕ
  pub flags : ℕ
  pub ttl : ℕ
  pub ts : ℕ

unfoldable pub file_set : Widths → List ℕ → FileSet
file_set wd b =
    let (tp, b1) = field 1 b in
    let (num_rr, b2) = field 1 b1 in
    let (flags, b3) = field 2 b2 in
    let (ttl, b4) = field wd.time b3 in
    let (ts, b5) = field wd.time b4 in
    record { tp = tp; num_rr = num_rr; flags = flags; ttl = ttl; ts = ts }

-- dns_file_t.
pub record FileHead : Type 0 where
  pub qlen : ℕ
  pub num_rrs : ℕ
  pub flags : ℕ
  pub c_ns : ℕ
  pub c_soa : ℕ

unfoldable pub file_head : List ℕ → FileHead
file_head b =
    let (qlen, b1) = field 1 b in
    let (num_rrs, b2) = field 1 b1 in
    let (flags, b3) = field 2 b2 in
    let (c_ns, b4) = field 1 b3 in
    let (c_soa, b5) = field 1 b4 in
    record { qlen = qlen; num_rrs = num_rrs; flags = flags; c_ns = c_ns; c_soa = c_soa }

-- The growth of `data`, where `room` says whether realloc has memory; `none` is an exit.
unfoldable pub grow_buffer : Bool → ℕ → ℕ → Option ℕ
grow_buffer room rdlen dtsz =
    if ltb dtsz rdlen then (if room then some rdlen else none) else some dtsz

-- The reading of a record's data into `data`, of `dtsz` bytes, and its addition.
unfoldable pub read_data :
    Sizeof → FileSet → ℕ → Cent → World → List ℕ → ℕ → Reading ((Cent × World) × InFile)
unfolding read_bytes
read_data z sh rdlen ce w file dtsz = read_bytes rdlen file (free_cent z ce w) >>= λ p.
    lift (add_cent_rr z ce sh.tp sh.ttl sh.ts sh.flags p.0 w) >>= λ r.
    unless_full r >>= λ s. next (s, record { file = p.1; dtsz = dtsz })

unfoldable pub read_sized :
    Bool → Sizeof → FileSet → ℕ → Cent → World → List ℕ → ℕ → Reading ((Cent × World) × InFile)
unfolding read_data grow_buffer
read_sized room z sh rdlen ce w file dtsz = elim (grow_buffer room rdlen dtsz) [
  | none ↦ exits
  | some dtsz2 ↦ read_data z sh rdlen ce w file dtsz2
]

unfoldable pub read_rr :
    Bool → Sizeof → FileSet → Cent → World → InFile → Reading ((Cent × World) × InFile)
read_rr room z sh ce w f = read_bytes 2 f.file (free_cent z ce w) >>= λ p.
    read_sized room z sh (get_le p.0) ce w p.1 f.dtsz

-- The loop over the `n` records of an RR set that are left.
unfoldable pub read_rrs :
    Bool → Sizeof → FileSet → ℕ → Cent → World → InFile → Reading ((Cent × World) × InFile)
read_rrs room z sh zero ce w f = next ((ce, w), f)
read_rrs room z sh (suc n) ce w f =
    read_rr room z sh ce w f >>= λ r. read_rrs room z sh n r.0.0 r.0.1 r.1

-- The addition of an RR set with the header `sh`, behind one of the type `prevtp`.
unfoldable pub use_set :
    Bool → Sizeof → ℕ → FileSet → Cent → World → InFile → Reading ((Cent × World) × InFile)
use_set room z prevtp sh ce w f = lift (not_cached_type sh.tp) >>= λ uncached.
    if uncached || leb sh.tp prevtp
    then stop w
    else (lift (add_cent_rrset_by_type z ce sh.tp sh.ttl sh.ts sh.flags w) >>= λ r.
        unless_full r >>= λ s. read_rrs room z sh sh.num_rr s.0 s.1 f)

-- The loop over the `n` RR sets of an entry that are left.
unfoldable pub read_sets :
    Bool → Widths → Sizeof → ℕ → ℕ → Cent → World → InFile → Reading ((Cent × World) × InFile)
read_sets room wd z zero prevtp ce w f = next ((ce, w), f)
read_sets room wd z (suc n) prevtp ce w f =
    read_bytes (4 + (wd.time + wd.time)) f.file (free_cent z ce w) >>= λ p.
    use_set room z prevtp (file_set wd p.0) ce w (record { file = p.1; dtsz = f.dtsz }) >>= λ r.
    read_sets room wd z n (file_set wd p.0).tp r.0.0 r.0.1 r.1

-- The loop that checks the name, from one of its bytes on.
unfoldable pub valid_name : ℕ → List ℕ → Run Bool
valid_name fuel [] = ok true
valid_name zero (lb ∷ nb) = halt no_fuel
valid_name (suc fuel) (lb ∷ nb) =
    let rest = valid_name fuel (drop lb nb) in
    if lb == 0 || (ltb 63 lb || ltb (length nb) lb) then ok false else rest

-- The TTL and time stamp of a negative entry.
unfoldable pub read_fttlts : Widths → ℕ → List ℕ → World → Reading ((ℕ × ℕ) × List ℕ)
unfolding read_bytes
read_fttlts wd flags f w =
    if is_negative flags
    then (read_bytes (wd.time + wd.time) f w >>= λ p.
        let (ttl, b) = field wd.time p.0 in next ((ttl, (field wd.time b).0), p.1))
    else next ((0, 0), f)

abbrev pub unless_null {ℓ} : {A : Type ℓ} → Option A × World → Reading (A × World)
unless_null (none, w) = exits
unless_null (some a, w) = next (a, w)

-- The part of a round behind the reading of the name, for the head `fe` and a TTL and time stamp.
unfoldable pub make_cent :
    Bool
    → Widths
    → Sizeof
    → FileHead
    → ℕ × ℕ
    → List ℕ
    → World
    → InFile
    → Reading ((Cent × World) × InFile)
make_cent room wd z fe neg nb w f = lift (valid_name (length nb) nb) >>= λ valid.
    if not valid
    then stop w
    else (lift (init_cent z (nb ++ (0 ∷ [])) neg.0 neg.1 fe.flags w) >>= λ r. unless_null r >>= λ s.
        read_sets room wd z fe.num_rrs 0 (record s.0 { c_ns = fe.c_ns; c_soa = fe.c_soa }) s.1 f)

unfoldable pub read_name :
    Bool → Widths → Sizeof → FileHead → ℕ × ℕ → World → InFile → Reading ((Cent × World) × InFile)
read_name room wd z fe neg w f = read_bytes fe.qlen f.file w >>= λ nb.
    make_cent room wd z fe neg nb.0 w (record { file = nb.1; dtsz = f.dtsz })

unfoldable pub read_behind :
    Bool → Widths → Sizeof → FileHead → World → InFile → Reading ((Cent × World) × InFile)
read_behind room wd z fe w f = read_fttlts wd fe.flags f.file w >>= λ q.
    read_name room wd z fe q.0 w (record { file = q.1; dtsz = f.dtsz })

-- A round of the loop up to its call of add_cache.
unfoldable pub read_cent :
    Bool → Widths → Sizeof → World → InFile → Reading ((Cent × World) × InFile)
read_cent room wd z w f = read_bytes 6 f.file w >>= λ p.
    read_behind room wd z (file_head p.0) w (record { file = p.1; dtsz = f.dtsz })

-- The end: pdnsd goes on, with the cache `S`, or it exits.
pub data Ended (S : Type 0) : Type 0 where
  ended : World → S → Ended S
  exited : Ended S

-- The loop over the entries, each of which add_cache takes over into the cache.
module _ {S : Type 0} (add_cache : Cent → World → S → Run (World × S)) where
  unfoldable pub read_cents : Bool → Widths → Sizeof → ℕ → World → S → InFile → Run (Ended S)
  read_cents room wd z zero w s f = ok (ended w s)
  read_cents room wd z (suc n) w s f = elim (read_cent room wd z w f) [
    | next r ↦ elim (add_cache r.0.0 r.0.1 s) [
      | ok a ↦ read_cents room wd z n (free_cent z r.0.0 a.0) a.1 r.1
      | halt why ↦ halt why
    ]
    | stop w2 ↦ ok (ended w2 s)
    | exits ↦ ok exited
    | faults why ↦ halt why
  ]

  -- read_disk_cache from the opened file on, up to its sort_rrl.
  unfoldable pub read_disk_cache : Bool → Widths → Sizeof → World → S → List ℕ → Run (Ended S)
  read_disk_cache room wd z w s file = elim (fread 4 file) [
    | none ↦ ok (ended w s)
    | some v ↦ if not (same_data v.0 cachverid) then ok (ended w s) else (elim (fread wd.long v.1) [
      | none ↦ ok (ended w s)
      | some cnt ↦ read_cents room wd z (get_le cnt.0) w s (record { file = cnt.1; dtsz = 512 })
    ])
  ]
