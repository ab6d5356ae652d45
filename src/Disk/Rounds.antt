-- ===== src/Disk/Rounds.antt =====
-- The RR sets of an entry go to the disk cache file and come back, type by type.
use orbot_library.Prelude.{
  ℕ, zero, suc, ◌+◌, ◌-◌, ◌*◌, ◌<◌, ◌≤◌, ◌≡◌, refl, sym, ap, ◌∙◌, List, [], ◌∷◌, ◌++◌, Bool, true,
  false, ltb, leb, ◌==◌, if◌then◌else◌, ◌||◌, Option, none, some, Run, ok, append_assoc, append-nil,
  arith, length, length-append, Bool-cases, inl, inr, All,
}
use orbot_library.RrList.{is_local}
use orbot_library.Cent.{Sizeof, RrBucket, RrSet, Cent, World, rrlkuptab}
use orbot_library.Cent.Delete.{free_cent}
use orbot_library.Cent.Add.{add_cent_rrset_by_type}
use orbot_library.Records.Answer.{not_cached_type}
use orbot_library.Disk.{
  Widths, fset_bytes, write_set, write_sets, is_kept, rrmuiterlist, rrcachiterlist,
}
use orbot_library.Disk.Reader.{
  ◌>>=◌, lift, unless_full, read_bytes, InFile, FileSet, file_set, read_rrs, use_set, read_sets,
}
use orbot_library.Disk.Bytes.{read_bytes-append, length-fset_bytes, file_set-fset_bytes}
use orbot_library.Disk.Writing.{Sized, rrs_bytes, rrset_bytes, set_bytes, Adds, write_rrset-Adds}
use orbot_library.Disk.Slots.{
  at, read-at, type_slot, weight, kept_types, HasArrays, getrrset_eff-slot,
}
use orbot_library.Disk.Sets.{
  IsStorable, IsStorableSet, StorableSlot, add_rrs, add_set, add_sets, buffer_rrs, buffer_set,
  buffer_sets, leaving, >>=-leaving, leaving->>=, header, records_read,
}

-- Types of the cache in ascending order, behind the type `prev`.
abbrev pub TypesFrom : ℕ → List ℕ → Type 0
TypesFrom prev [] = Unit {0}
TypesFrom prev (tp ∷ tps) =
    (prev < tp) × ((tp < 52) × ((at 0 rrlkuptab (tp - 1) < 47) × TypesFrom tp tps))

pub rrmuiterlist-TypesFrom : TypesFrom 0 rrmuiterlist
rrmuiterlist-TypesFrom = omega arith

pub rrcachiterlist-TypesFrom : TypesFrom 0 rrcachiterlist
rrcachiterlist-TypesFrom = omega arith

earlier : (prev tp : ℕ) (tps : List ℕ) → prev < tp → TypesFrom tp tps → TypesFrom prev tps
earlier prev tp [] h t = t
earlier prev tp (tp2 ∷ tps) h (a, t) = (omega (arith, h, a), t)

not_cached_type-false :
    (tp : ℕ) → 0 < tp → tp < 52 → at 0 rrlkuptab (tp - 1) < 47 → not_cached_type tp ≡ ok false
unfolding not_cached_type
not_cached_type-false tp a b h =
    let inside : (ltb tp 1 || ltb 51 tp) ≡ false = ground (arith, a, b) in
    let low : leb 47 (at 0 rrlkuptab (tp - 1)) ≡ false = ground (arith, h) in
    rw (inside, read-at 0 rrlkuptab (tp - 1) (omega (arith, a, b)), low) refl

abbrev pub sets_bytes : Widths → List ℕ → Cent → List ℕ
sets_bytes wd [] c = []
sets_bytes wd (tp ∷ tps) c = set_bytes wd tp (type_slot c tp) ++ sets_bytes wd tps c

abbrev pub AllStorable : Widths → List ℕ → Cent → Type 0
AllStorable wd [] c = Unit {0}
AllStorable wd (tp ∷ tps) c = StorableSlot wd (type_slot c tp) × AllStorable wd tps c

All-Sized : (rrs : List RrBucket) → All IsStorable rrs → All Sized rrs
All-Sized [] h = h
All-Sized (rr ∷ rrs) (h, hs) = (h.sized, All-Sized rrs hs)

set_writes :
    (wd : Widths) (limit tp : ℕ) (o : Option RrSet)
    → StorableSlot wd o
    → Adds limit (write_set wd limit tp o) (set_bytes wd tp o)
unfolding write_set
set_writes wd limit tp none h = λ f fits. rw (append-nil f) refl
set_writes wd limit tp (some r) h = elim (Bool-cases (is_local r.flags)) [
  | inl yes_local ↦ rw (yes_local) (λ f fits. rw (append-nil f) refl)
  | inr kept ↦ rw (kept) (write_rrset-Adds wd limit tp r h.few (All-Sized r.rrs h.records))
]

pub sets_write :
    (wd : Widths) (limit prev : ℕ) (tps : List ℕ) (c : Cent) (f : List ℕ)
    → TypesFrom prev tps
    → HasArrays c
    → AllStorable wd tps c
    → length f + length (sets_bytes wd tps c) ≤ limit
    → write_sets wd limit tps c f ≡ ok (true, f ++ sets_bytes wd tps c)
unfolding write_sets
sets_write wd limit prev [] c f t s h fits = rw (append-nil f) refl
sets_write wd limit prev (tp ∷ tps) c f (a, (b, (i, t))) s (h, hs) fits =
    let bytes = set_bytes wd tp (type_slot c tp) in
    let both = length-append bytes (sets_bytes wd tps c) in
    rw
      (
        getrrset_eff-slot c tp (omega (arith, a, b)) s i,
        set_writes wd limit tp (type_slot c tp) h f (omega (arith, fits, both)),
        sets_write wd limit tp tps c (f ++ bytes) t s hs
            (omega (arith, fits, both, length-append f bytes)),
        append_assoc f bytes (sets_bytes wd tps c),
      )
      refl

weight-none : (n : ℕ) → weight none + n ≡ n
unfolding weight is_kept
weight-none n = omega arith

weight_local : (r : RrSet) (n : ℕ) → is_local r.flags ≡ true → weight (some r) + n ≡ n
unfolding weight is_kept
weight_local r n e = rw e (omega arith)

weight_kept : (r : RrSet) (n : ℕ) → is_local r.flags ≡ false → weight (some r) + n ≡ suc n
unfolding weight is_kept
weight_kept r n e = rw e (omega arith)

module _ (wd : Widths) (z : Sizeof) where
  set_used :
      (prev tp : ℕ) (r : RrSet) (ce : Cent) (w : World) (rest : List ℕ) (dtsz : ℕ)
      → prev < tp
      → tp < 52
      → at 0 rrlkuptab (tp - 1) < 47
      → All IsStorable r.rrs
      → use_set true z prev
          (header tp r)
          ce
          w
          (record { file = rrs_bytes r.rrs ++ rest; dtsz = dtsz })
        ≡ leaving rest (buffer_rrs r.rrs dtsz) (
            lift (add_cent_rrset_by_type z ce tp r.ttl r.ts r.flags w) >>= unless_full >>= λ s.
            add_rrs z tp r r.rrs s.0 s.1)
  unfolding use_set
  set_used prev tp r ce w rest dtsz a b i h =
      let later : leb tp prev ≡ false = ground (arith, a) in
      rw (not_cached_type-false tp (omega (arith, a)) b i, later)
        (after (add_cent_rrset_by_type z ce tp r.ttl r.ts r.flags w))
    where
      after :
          (m : Run (Bool × (Cent × World)))
          → (lift m >>= λ a. unless_full a >>= λ s.
              read_rrs true z
                (header tp r)
                (length r.rrs)
                s.0
                s.1
                (record { file = rrs_bytes r.rrs ++ rest; dtsz = dtsz }))
            ≡ leaving rest
                (buffer_rrs r.rrs dtsz)
                (lift m >>= unless_full >>= λ s. add_rrs z tp r r.rrs s.0 s.1)
      after (ok (true, s)) = records_read z tp r r.rrs s.0 s.1 rest dtsz h
      after (ok (false, s)) = refl
      after (orbot_library.Prelude.halt why) = refl

  pub sets_read :
      (prev : ℕ) (tps : List ℕ) (c ce : Cent) (w : World) (rest : List ℕ) (dtsz : ℕ)
      → TypesFrom prev tps
      → AllStorable wd tps c
      → read_sets true wd z
          (kept_types c tps)
          prev
          ce
          w
          (record { file = sets_bytes wd tps c ++ rest; dtsz = dtsz })
        ≡ leaving rest (buffer_sets tps c dtsz) (add_sets z tps c ce w)
  unfolding read_sets
  sets_read prev [] c ce w rest dtsz t h = refl
  sets_read prev (tp ∷ tps) c ce w rest dtsz (a, (b, (i, t))) (h, hs) =
      rw (append_assoc (set_bytes wd tp (type_slot c tp)) (sets_bytes wd tps c) rest) (
        by_slot (type_slot c tp) h (λ ce2 w2 dtsz2. sets_read tp tps c ce2 w2 rest dtsz2 t hs)
          (λ ce2 w2 dtsz2. sets_read prev tps c ce2 w2 rest dtsz2 (earlier prev tp tps a t) hs))
    where
      file_rest : List ℕ
      file_rest = sets_bytes wd tps c ++ rest

      Reads : ℕ → Type 0
      Reads from =
          (ce2 : Cent) (w2 : World) (dtsz2 : ℕ)
          → read_sets true wd z (kept_types c tps) from ce2 w2
              (record { file = file_rest; dtsz = dtsz2 })
            ≡ leaving rest (buffer_sets tps c dtsz2) (add_sets z tps c ce2 w2)

      by_set :
          (r : RrSet)
          → IsStorableSet wd r
          → Reads tp
          → (read_bytes
                (4 + (wd.time + wd.time))
                (rrset_bytes wd tp r ++ file_rest)
                (free_cent z ce w)
              >>= λ p.
                  use_set true z prev (file_set wd p.0) ce w (record { file = p.1; dtsz = dtsz })
                  >>= λ q.
                      read_sets true wd z (kept_types c tps) (file_set wd p.0).tp q.0.0 q.0.1 q.1)
            ≡ leaving rest (buffer_sets tps c (buffer_rrs r.rrs dtsz)) (
                lift (add_cent_rrset_by_type z ce tp r.ttl r.ts r.flags w)
                >>= unless_full
                >>= (λ s. add_rrs z tp r r.rrs s.0 s.1)
                >>= λ s. add_sets z tps c s.0 s.1)
      by_set r k go =
          let b1 = fset_bytes wd tp (length r.rrs) r.flags r.ttl r.ts in
          let read1 =
            lift (add_cent_rrset_by_type z ce tp r.ttl r.ts r.flags w)
            >>= unless_full
            >>= (λ s. add_rrs z tp r r.rrs s.0 s.1) in
          let after : InFile = record { file = rrs_bytes r.rrs ++ file_rest; dtsz = dtsz } in
          rw
            (
              append_assoc b1 (rrs_bytes r.rrs) file_rest,
              read_bytes-append (4 + (wd.time + wd.time)) b1 (rrs_bytes r.rrs ++ file_rest)
                  (free_cent z ce w) (length-fset_bytes wd tp (length r.rrs) r.flags r.ttl r.ts),
            )
            (ap
                (λ (sh : FileSet). use_set true z prev sh ce w after >>= λ q.
                  read_sets true wd z (kept_types c tps) sh.tp q.0.0 q.0.1 q.1)
                (file_set-fset_bytes wd tp (length r.rrs) r.flags r.ttl r.ts
                  (omega (arith, b), (omega (arith, k.few), (k.flags, (k.ttl, k.ts)))))
              ∙ ap (λ m. m >>= λ q. read_sets true wd z (kept_types c tps) tp q.0.0 q.0.1 q.1)
                  (set_used prev tp r ce w file_rest dtsz a b i k.records)
              ∙ >>=-leaving file_rest (buffer_rrs r.rrs dtsz) read1
                  (λ q. read_sets true wd z (kept_types c tps) tp q.0.0 q.0.1 q.1)
                  (λ s.
                    leaving rest (buffer_sets tps c (buffer_rrs r.rrs dtsz))
                      (add_sets z tps c s.0 s.1))
                  (λ s. go s.0 s.1 (buffer_rrs r.rrs dtsz))
              ∙ leaving->>= rest (buffer_sets tps c (buffer_rrs r.rrs dtsz)) read1
                  (λ s. add_sets z tps c s.0 s.1))

      by_slot :
          (o : Option RrSet)
          → StorableSlot wd o
          → Reads tp
          → Reads prev
          → read_sets true wd z
              (weight o + kept_types c tps)
              prev
              ce
              w
              (record { file = set_bytes wd tp o ++ file_rest; dtsz = dtsz })
            ≡ leaving rest
                (buffer_sets tps c (buffer_set o dtsz))
                (add_set z tp o ce w >>= λ s. add_sets z tps c s.0 s.1)
      by_slot none k go skip =
          ap (λ n. read_sets true wd z n prev ce w (record { file = file_rest; dtsz = dtsz }))
            (weight-none (kept_types c tps))
          ∙ skip ce w dtsz
      by_slot (some r) k go skip = elim (Bool-cases (is_local r.flags)) [
        | inl yes_local ↦
            ap
              (λ n.
                read_sets true wd z n prev ce w
                  (record { file = set_bytes wd tp (some r) ++ file_rest; dtsz = dtsz }))
              (weight_local r (kept_types c tps) yes_local)
            ∙ rw (yes_local) (skip ce w dtsz)
        | inr kept ↦
            ap
              (λ n.
                read_sets true wd z n prev ce w
                  (record { file = set_bytes wd tp (some r) ++ file_rest; dtsz = dtsz }))
              (weight_kept r (kept_types c tps) kept)
            ∙ rw (kept) (by_set r k go)
      ]
