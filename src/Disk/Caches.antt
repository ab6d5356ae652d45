-- ===== src/Disk/Caches.antt =====
-- The whole disk cache file: read_disk_cache on what write_disk_cache has written.
use orbot_library.Prelude.{
  ℕ, suc, ◌+◌, ◌≤◌, ◌≡◌, refl, sym, ap, ◌∙◌, List, [], ◌∷◌, ◌++◌, Bool, true, false, if◌then◌else◌,
  some, Run, ok, halt, ◌>>=◌, Returns, append_assoc, append-nil, arith, length, length-append,
}
use orbot_library.Cent.{Sizeof, Cent, World}
use orbot_library.Cent.Delete.{free_cent}
use orbot_library.Cent.Add.{same_data}
use orbot_library.Disk.{
  Widths, put_le, cachverid, write_wanted, write_cents, write_disk_cache, count_cents, iterlist,
}
use orbot_library.Disk.Reader.{
  Reading, next, stop, exits, faults, fread, InFile, Ended, ended, exited, read_cents,
  read_disk_cache,
}
use orbot_library.Disk.Bytes.{Fits, length-put_le, get_le-put_le, fread-append}
use orbot_library.Disk.Writing.{fwrite-Adds}
use orbot_library.Disk.Slots.{wanted, is_written-wanted}
use orbot_library.Disk.Sets.{buffer_sets, leaving}
use orbot_library.Disk.Entries.{IsStorableCent, cent_bytes, load_cent, cent_writes, cent_read}

-- Entries with the labels of their names.
abbrev pub Entries : Type 0
Entries = List (List (List ℕ) × Cent)

abbrev pub cents_of : Entries → List Cent
cents_of [] = []
cents_of ((ls, c) ∷ es) = c ∷ cents_of es

abbrev pub AllStorableCents : Widths → Entries → Type 0
AllStorableCents wd [] = Unit {0}
AllStorableCents wd ((ls, c) ∷ es) = IsStorableCent wd ls c × AllStorableCents wd es

-- The number of the entries that are written, and their bytes.
abbrev pub count_wanted : Entries → ℕ
count_wanted [] = 0
count_wanted ((ls, c) ∷ es) = if wanted c then count_wanted es + 1 else count_wanted es

abbrev pub entries_bytes : Widths → Entries → List ℕ
entries_bytes wd [] = []
entries_bytes wd ((ls, c) ∷ es) =
    if wanted c then cent_bytes wd ls c ++ entries_bytes wd es else entries_bytes wd es

abbrev pub file_of : Widths → Entries → List ℕ
file_of wd es = cachverid ++ (put_le wd.long (count_wanted es) ++ entries_bytes wd es)

count_cents-wanted :
    (wd : Widths) (es : Entries)
    → AllStorableCents wd es
    → count_cents (cents_of es) ≡ ok (count_wanted es)
unfolding count_cents
count_cents-wanted wd [] h = refl
count_cents-wanted wd ((ls, c) ∷ es) (h, hs) =
    rw (is_written-wanted c h.arrays, count_cents-wanted wd es hs) refl

entries_write :
    (wd : Widths) (limit : ℕ) (es : Entries) (f : List ℕ)
    → AllStorableCents wd es
    → length f + length (entries_bytes wd es) ≤ limit
    → write_cents wd limit (cents_of es) f ≡ ok (true, f ++ entries_bytes wd es)
unfolding write_cents write_wanted
entries_write wd limit [] f h fits = rw (append-nil f) refl
entries_write wd limit ((ls, c) ∷ es) f (h, hs) fits =
    rw (is_written-wanted c h.arrays)
      (by_wanted (wanted c) fits (λ g. entries_write wd limit es g hs))
  where
    by_wanted :
        (b : Bool)
        → length f
            + length (if b then cent_bytes wd ls c ++ entries_bytes wd es else entries_bytes wd es)
          ≤ limit
        → ((g : List ℕ)
            → length g + length (entries_bytes wd es) ≤ limit
            → write_cents wd limit (cents_of es) g ≡ ok (true, g ++ entries_bytes wd es))
        → (write_wanted wd limit b c f >>= λ r.
            if r.0 then write_cents wd limit (cents_of es) r.1 else ok (false, r.1))
          ≡ ok (
            true,
            f ++ (if b then cent_bytes wd ls c ++ entries_bytes wd es else entries_bytes wd es),
          )
    by_wanted true k go =
        let bytes = cent_bytes wd ls c in
        let both = length-append bytes (entries_bytes wd es) in
        rw
          (
            cent_writes wd ls c h limit f (omega (arith, k, both)),
            go (f ++ bytes) (omega (arith, k, both, length-append f bytes)),
            append_assoc f bytes (entries_bytes wd es),
          )
          refl
    by_wanted false k go = go f k

file_written :
    (wd : Widths) (limit : ℕ) (es : Entries)
    → AllStorableCents wd es
    → length (file_of wd es) ≤ limit
    → write_disk_cache wd limit (cents_of es) ≡ ok (true, file_of wd es)
unfolding write_disk_cache
file_written wd limit es h fits =
    let count = put_le wd.long (count_wanted es) in
    let rest = entries_bytes wd es in
    let both = length-append count rest in
    rw
      (
        fwrite-Adds limit cachverid [] (omega (arith, fits)),
        count_cents-wanted wd es h,
        fwrite-Adds limit count cachverid (omega (arith, fits, both)),
        entries_write wd limit es (cachverid ++ count) h
            (omega (arith, fits, both, length-append cachverid count)),
      )
      refl

one_more : (n : ℕ) → n + 1 ≡ suc n
one_more n = omega arith

number_read : (n v : ℕ) (rest : List ℕ) → fread n (put_le n v ++ rest) ≡ some (put_le n v, rest)
number_read n v rest =
    ap (λ k. fread k (put_le n v ++ rest)) (sym (length-put_le n v))
    ∙ fread-append (put_le n v) rest

module _ {S : Type 0} (add_cache : Cent → World → S → Run (World × S)) where
  -- The effect of an entry that has been built, with what comes after it.
  abbrev pub take_over :
      Sizeof → S → Reading (Cent × World) → (World → S → Run (Ended S)) → Run (Ended S)
  take_over z s (next r) go = add_cache r.0 r.1 s >>= λ a. go (free_cent z r.0 a.0) a.1
  take_over z s (stop w) go = ok (ended w s)
  take_over z s exits go = ok exited
  take_over z s (faults why) go = halt why

  -- Each entry that is written is built anew and taken over, in turn.
  abbrev pub load_entries : Sizeof → Entries → World → S → Run (Ended S)
  load_entries z [] w s = ok (ended w s)
  load_entries z ((ls, c) ∷ es) w s =
      if wanted c
      then take_over z s (load_cent z ls c w) (load_entries z es)
      else load_entries z es w s

  entries_read :
      (wd : Widths) (z : Sizeof) (es : Entries) (w : World) (s : S) (dtsz : ℕ)
      → AllStorableCents wd es
      → read_cents add_cache true wd z
          (count_wanted es)
          w
          s
          (record { file = entries_bytes wd es; dtsz = dtsz })
        ≡ load_entries z es w s
  unfolding read_cents
  entries_read wd z [] w s dtsz h = refl
  entries_read wd z ((ls, c) ∷ es) w s dtsz (h, hs) =
      by_wanted (wanted c) (λ w2 s2 d. entries_read wd z es w2 s2 d hs)
    where
      rest : List ℕ
      rest = entries_bytes wd es

      GoesOn : Type 0
      GoesOn =
          (w2 : World) (s2 : S) (d : ℕ)
          → read_cents add_cache true wd z (count_wanted es) w2 s2
              (record { file = rest; dtsz = d })
            ≡ load_entries z es w2 s2

      behind : InFile → Cent → World × S → Run (Ended S)
      behind f ce a = read_cents add_cache true wd z (count_wanted es) (free_cent z ce a.0) a.1 f

      added :
          (d : ℕ) (ce : Cent) (m : Run (World × S))
          → GoesOn
          → (elim m as (λ _. Run (Ended S)) [
            | ok a ↦ behind (record { file = rest; dtsz = d }) ce a
            | halt why ↦ halt why
          ])
            ≡ (m >>= λ a. load_entries z es (free_cent z ce a.0) a.1)
      added d ce (ok a) go = go (free_cent z ce a.0) a.1 d
      added d ce (halt why) go = refl

      dispatch : Reading ((Cent × World) × InFile) → Run (Ended S)
      dispatch m = elim m [
        | next r ↦ elim (add_cache r.0.0 r.0.1 s) [
          | ok a ↦ behind r.1 r.0.0 a
          | halt why ↦ halt why
        ]
        | stop w2 ↦ ok (ended w2 s)
        | exits ↦ ok exited
        | faults why ↦ halt why
      ]

      after :
          (d : ℕ) (m : Reading (Cent × World))
          → GoesOn
          → dispatch (leaving rest d m) ≡ take_over z s m (load_entries z es)
      after d (next r) go = added d r.0 (add_cache r.0 r.1 s) go
      after d (stop w2) go = refl
      after d exits go = refl
      after d (faults why) go = refl

      by_wanted :
          (b : Bool)
          → GoesOn
          → read_cents add_cache true wd z
              (if b then count_wanted es + 1 else count_wanted es)
              w
              s
              (record { file = if b then cent_bytes wd ls c ++ rest else rest; dtsz = dtsz })
            ≡ (if b
                then take_over z s (load_cent z ls c w) (load_entries z es)
                else load_entries z es w s)
      by_wanted true go =
          ap
            (λ n.
              read_cents add_cache true wd z n w s
                (record { file = cent_bytes wd ls c ++ rest; dtsz = dtsz }))
            (one_more (count_wanted es))
          ∙ ap dispatch (cent_read wd ls c h z w rest dtsz)
          ∙ after (buffer_sets (iterlist c) c dtsz) (load_cent z ls c w) go
      by_wanted false go = go w s dtsz

  file_read :
      (wd : Widths) (z : Sizeof) (es : Entries) (w : World) (s : S)
      → AllStorableCents wd es
      → Fits wd.long (count_wanted es)
      → read_disk_cache add_cache true wd z w s (file_of wd es) ≡ load_entries z es w s
  unfolding read_disk_cache same_data fread
  file_read wd z es w s h fits =
      rw
        (
          number_read wd.long (count_wanted es) (entries_bytes wd es),
          get_le-put_le wd.long (count_wanted es) fits,
        )
        (entries_read wd z es w s 512 h)

  -- A disk cache file that has room is written, and read_disk_cache of it, where realloc has memory,
  -- does to the cache what building each written entry anew and add_cache of it do, in turn.
  pub write_disk_cache-read_disk_cache :
      (wd : Widths) (z : Sizeof) (es : Entries) (w : World) (s : S) (limit : ℕ)
      → AllStorableCents wd es
      → Fits wd.long (count_wanted es)
      → length (file_of wd es) ≤ limit
      → Returns (write_disk_cache wd limit (cents_of es)) (λ r.
        (r.0 ≡ true) × (read_disk_cache add_cache true wd z w s r.1 ≡ load_entries z es w s))
  write_disk_cache-read_disk_cache wd z es w s limit h fits room =
      ((true, file_of wd es), file_written wd limit es h room, (refl, file_read wd z es w s h fits))
