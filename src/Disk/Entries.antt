-- ===== src/Disk/Entries.antt =====
-- An entry goes to the disk cache file and comes back.
use orbot_library.Prelude.{
  ℕ, zero, suc, ◌+◌, ◌-◌, ◌≤◌, ◌≡◌, refl, sym, ap, ◌∙◌, List, [], ◌∷◌, ◌++◌, true, false, ltb, ◌==◌,
  if◌then◌else◌, ◌||◌, Option, none, some, Run, ok, halt, append_assoc, append-nil, arith, length,
  length-append, take, take-append, drop-append, Bool-cases, inl, inr,
}
use orbot_library.Name.{rhnlen}
use orbot_library.Name.Labels.{IsName, wire, segments, wire-segments}
use orbot_library.Name.Walk.{rhnlen-wire}
use orbot_library.Cent.{Sizeof, RrSet, Cent, World, is_negative}
use orbot_library.Cent.Add.{init_cent}
use orbot_library.Disk.{
  Widths, put_le, file_bytes, fttlts_bytes, fwrite, and_then, write_some, write_neg, write_cent,
  iterlist, rrmuiterlist, rrcachiterlist,
}
use orbot_library.Disk.Reader.{
  Reading, next, ◌>>=◌, lift, unless_null, InFile, FileHead, make_cent, read_name, read_behind,
  valid_name, read_fttlts, read_sets, read_cent,
}
use orbot_library.Disk.Bytes.{
  Fits, read_bytes-append, field-put_le, field-put_le_last, length-file_bytes, file_head-file_bytes,
  length-fttlts_bytes,
}
use orbot_library.Disk.Writing.{Adds, fwrite-Adds, write_some-Adds, and_then-Adds}
use orbot_library.Disk.Slots.{weight, kept_types, HasArrays, count_kept-iterlist}
use orbot_library.Disk.Sets.{add_sets, buffer_sets, leaving}
use orbot_library.Disk.Rounds.{
  TypesFrom, rrmuiterlist-TypesFrom, rrcachiterlist-TypesFrom, sets_bytes, AllStorable, sets_write,
  sets_read,
}

-- An entry with the name of the labels `ls` that a file can hold.
pub record IsStorableCent (wd : Widths) (ls : List (List ℕ)) (c : Cent) : Type 0 where
  pub name : c.qname ≡ wire ls
  pub labels : IsName ls
  pub short : length (wire ls) ≤ 256
  pub arrays : HasArrays c
  pub flags : Fits 2 c.flags
  pub c_ns : Fits 1 c.c_ns
  pub c_soa : Fits 1 c.c_soa
  pub ttl : Fits wd.time c.neg_ttl
  pub ts : Fits wd.time c.neg_ts
  pub sets : AllStorable wd (iterlist c) c

abbrev pub neg_bytes : Widths → Cent → List ℕ
neg_bytes wd c = if is_negative c.flags then fttlts_bytes wd c.neg_ttl c.neg_ts else []

abbrev pub cent_bytes : Widths → List (List ℕ) → Cent → List ℕ
cent_bytes wd ls c =
    (file_bytes (length (segments ls)) (kept_types c (iterlist c)) c.flags c.c_ns c.c_soa
      ++ (neg_bytes wd c ++ segments ls))
    ++ sets_bytes wd (iterlist c) c

-- The entry that the code builds from its bytes.
abbrev pub load_cent : Sizeof → List (List ℕ) → Cent → World → Reading (Cent × World)
load_cent z ls c w =
    lift (
      init_cent z (wire ls) (if is_negative c.flags then c.neg_ttl else 0)
        (if is_negative c.flags then c.neg_ts else 0) c.flags w)
    >>= unless_null
    >>= λ s. add_sets z (iterlist c) c (record s.0 { c_ns = c.c_ns; c_soa = c.c_soa }) s.1

iterlist-TypesFrom : (c : Cent) → TypesFrom 0 (iterlist c)
unfolding iterlist
iterlist-TypesFrom c = elim (Bool-cases (is_negative c.flags)) [
  | inl neg ↦ rw (neg) (_)
  | inr positive ↦ rw (positive) (by_ext c.rrext)
]
  where
    by_ext :
        (x : Option (List (Option RrSet)))
        → TypesFrom 0 (elim x [ none ↦ rrmuiterlist | some _ ↦ rrcachiterlist ])
    by_ext none = rrmuiterlist-TypesFrom
    by_ext (some e) = rrcachiterlist-TypesFrom

kept_types-le : (c : Cent) (tps : List ℕ) → kept_types c tps ≤ length tps
unfolding weight
kept_types-le c [] = omega arith
kept_types-le c (tp ∷ tps) = ground (arith, kept_types-le c tps)

iterlist-length : (c : Cent) → length (iterlist c) ≤ 47
unfolding iterlist
iterlist-length c = elim (Bool-cases (is_negative c.flags)) [
  | inl neg ↦ rw (neg) (omega arith)
  | inr positive ↦ rw (positive) (by_ext c.rrext)
]
  where
    by_ext :
        (x : Option (List (Option RrSet)))
        → length (elim x as (λ _. List ℕ) [ none ↦ rrmuiterlist | some _ ↦ rrcachiterlist ]) ≤ 47
    by_ext none = omega arith
    by_ext (some e) = omega arith

name_size : (ls : List (List ℕ)) → length (wire ls) ≡ length (segments ls) + 1
name_size ls = ap length (wire-segments ls) ∙ length-append (segments ls) (0 ∷ [])

valid_name-segments :
    (ls : List (List ℕ)) (fuel : ℕ)
    → IsName ls
    → length (segments ls) ≤ fuel
    → valid_name fuel (segments ls) ≡ ok true
unfolding valid_name
valid_name-segments [] zero h f = refl
valid_name-segments [] (suc fuel) h f = refl
valid_name-segments (l ∷ ls) zero h f = absurd (omega (arith, f))
valid_name-segments (l ∷ ls) (suc fuel) ((a, b), h) f =
    let all = length-append l (segments ls) in
    let good : (length l == 0 || (ltb 63 (length l) || ltb (length (l ++ segments ls)) (length l)))
        ≡ false =
      ground (arith, a, b, all) in
    rw (good, drop-append l (segments ls)) (valid_name-segments ls fuel h (omega (arith, f, all)))

neg_writes :
    (wd : Widths) (limit : ℕ) (c : Cent) → Adds limit (write_neg wd limit c) (neg_bytes wd c)
unfolding write_neg
neg_writes wd limit c = elim (Bool-cases (is_negative c.flags)) [
  | inl neg ↦ rw (neg) (fwrite-Adds limit (fttlts_bytes wd c.neg_ttl c.neg_ts))
  | inr positive ↦ rw (positive) (λ f fits. rw (append-nil f) refl)
]

fttlts_read :
    (wd : Widths) (c : Cent) (f : List ℕ) (w : World)
    → Fits wd.time c.neg_ttl
    → Fits wd.time c.neg_ts
    → read_fttlts wd c.flags (neg_bytes wd c ++ f) w
      ≡ next (
        (if is_negative c.flags then c.neg_ttl else 0, if is_negative c.flags then c.neg_ts else 0),
        f,
      )
unfolding read_fttlts fttlts_bytes
fttlts_read wd c f w h1 h2 = elim (Bool-cases (is_negative c.flags)) [
  | inl neg ↦
      rw
        (
          neg,
          read_bytes-append (wd.time + wd.time) (fttlts_bytes wd c.neg_ttl c.neg_ts) f w
              (length-fttlts_bytes wd c.neg_ttl c.neg_ts),
          field-put_le wd.time c.neg_ttl (put_le wd.time c.neg_ts) h1,
          field-put_le_last wd.time c.neg_ts h2,
        )
        refl
  | inr positive ↦ rw (positive) refl
]

module _ (wd : Widths) (ls : List (List ℕ)) (c : Cent) (h : IsStorableCent wd ls c) where
  -- write_cent adds the bytes of the entry.
  pub cent_writes :
      (limit : ℕ) (f : List ℕ)
      → length f + length (cent_bytes wd ls c) ≤ limit
      → write_cent wd limit c f ≡ ok (true, f ++ cent_bytes wd ls c)
  unfolding write_cent
  cent_writes limit f fits =
      let head =
        file_bytes (length (segments ls)) (kept_types c (iterlist c)) c.flags c.c_ns c.c_soa in
      let front = head ++ (neg_bytes wd c ++ segments ls) in
      let back = sets_bytes wd (iterlist c) c in
      let both = length-append front back in
      let size : rhnlen c.qname ≡ ok (length (segments ls) + 1) =
        ap rhnlen (h.name ∙ sym (append-nil (wire ls)))
        ∙ rhnlen-wire ls [] h.labels
        ∙ ap ok (name_size ls) in
      let less : length (segments ls) + 1 - 1 ≡ length (segments ls) = omega arith in
      let bare : take (length (segments ls)) c.qname ≡ segments ls =
        ap (take (length (segments ls))) (h.name ∙ wire-segments ls)
        ∙ take-append (segments ls) (0 ∷ []) in
      rw
        (
          size,
          count_kept-iterlist c h.arrays,
          less,
          bare,
          and_then-Adds limit (fwrite limit head)
              (λ f2. and_then (write_neg wd limit c f2) (write_some limit (segments ls))) head
              (neg_bytes wd c ++ segments ls) (fwrite-Adds limit head)
              (and_then-Adds limit (write_neg wd limit c) (write_some limit (segments ls))
                (neg_bytes wd c) (segments ls) (neg_writes wd limit c)
                (write_some-Adds limit (segments ls)))
              f (omega (arith, fits, both)),
          sets_write wd limit 0 (iterlist c) c (f ++ front) (iterlist-TypesFrom c) h.arrays h.sets
              (omega (arith, fits, both, length-append f front)),
          append_assoc f front back,
        )
        refl

  abbrev head_read : FileHead
  head_read = record {
    qlen = length (segments ls);
    num_rrs = kept_types c (iterlist c);
    flags = c.flags;
    c_ns = c.c_ns;
    c_soa = c.c_soa;
  }

  abbrev neg_read : ℕ × ℕ
  neg_read =
      (if is_negative c.flags then c.neg_ttl else 0, if is_negative c.flags then c.neg_ts else 0)

  cent_made :
      (z : Sizeof) (w : World) (rest : List ℕ) (dtsz : ℕ)
      → make_cent true wd z head_read neg_read
          (segments ls)
          w
          (record { file = sets_bytes wd (iterlist c) c ++ rest; dtsz = dtsz })
        ≡ leaving rest (buffer_sets (iterlist c) c dtsz) (load_cent z ls c w)
  unfolding make_cent
  cent_made z w rest dtsz =
      rw (valid_name-segments ls (length (segments ls)) h.labels (omega arith), ← wire-segments ls)
        (after (init_cent z (wire ls) neg_read.0 neg_read.1 c.flags w))
    where
      after :
          (m : Run (Option Cent × World))
          → (lift m >>= λ r. unless_null r >>= λ s.
              read_sets true wd z
                (kept_types c (iterlist c))
                0
                (record s.0 { c_ns = c.c_ns; c_soa = c.c_soa })
                s.1
                (record { file = sets_bytes wd (iterlist c) c ++ rest; dtsz = dtsz }))
            ≡ leaving rest (buffer_sets (iterlist c) c dtsz) (
                lift m >>= unless_null >>= λ s.
                add_sets z (iterlist c) c (record s.0 { c_ns = c.c_ns; c_soa = c.c_soa }) s.1)
      after (ok (some a, w2)) =
          sets_read wd z 0 (iterlist c) c (record a { c_ns = c.c_ns; c_soa = c.c_soa }) w2 rest dtsz
            (iterlist-TypesFrom c) h.sets
      after (ok (none, w2)) = refl
      after (halt why) = refl

  name_read :
      (z : Sizeof) (w : World) (rest : List ℕ) (dtsz : ℕ)
      → read_behind true wd z head_read w (record {
        file = neg_bytes wd c ++ (segments ls ++ (sets_bytes wd (iterlist c) c ++ rest));
        dtsz = dtsz;
      })
        ≡ leaving rest (buffer_sets (iterlist c) c dtsz) (load_cent z ls c w)
  unfolding read_behind read_name
  name_read z w rest dtsz =
      let back = sets_bytes wd (iterlist c) c ++ rest in
      rw
        (
          fttlts_read wd c (segments ls ++ back) w h.ttl h.ts,
          read_bytes-append (length (segments ls)) (segments ls) back w refl,
        )
        (cent_made z w rest dtsz)

  -- read_cent builds the entry from its bytes.
  pub cent_read :
      (z : Sizeof) (w : World) (rest : List ℕ) (dtsz : ℕ)
      → read_cent true wd z w (record { file = cent_bytes wd ls c ++ rest; dtsz = dtsz })
        ≡ leaving rest (buffer_sets (iterlist c) c dtsz) (load_cent z ls c w)
  unfolding read_cent
  cent_read z w rest dtsz =
      let n = length (segments ls) in
      let head = file_bytes n (kept_types c (iterlist c)) c.flags c.c_ns c.c_soa in
      let back = sets_bytes wd (iterlist c) c in
      let behind : InFile = record {
        file = neg_bytes wd c ++ (segments ls ++ (back ++ rest));
        dtsz = dtsz;
      } in
      rw
        (
          append_assoc (head ++ (neg_bytes wd c ++ segments ls)) back rest,
          append_assoc head (neg_bytes wd c ++ segments ls) (back ++ rest),
          append_assoc (neg_bytes wd c) (segments ls) (back ++ rest),
          read_bytes-append 6 head (neg_bytes wd c ++ (segments ls ++ (back ++ rest))) w
              (length-file_bytes n (kept_types c (iterlist c)) c.flags c.c_ns c.c_soa),
        )
        (ap (λ fe. read_behind true wd z fe w behind)
            (file_head-file_bytes n (kept_types c (iterlist c)) c.flags c.c_ns c.c_soa (
              omega (arith, h.short, name_size ls),
              (
                omega (arith, kept_types-le c (iterlist c), iterlist-length c),
                (h.flags, (h.c_ns, h.c_soa)),
              ),
            ))
          ∙ name_read z w rest dtsz)
