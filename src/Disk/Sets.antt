-- ===== src/Disk/Sets.antt =====
-- The RR sets of an entry in the disk cache file: their bytes are read as they have been written.
use orbot_library.Prelude.{
  ℕ, zero, suc, ◌+◌, ◌-◌, ◌*◌, ◌<◌, ◌≤◌, ◌≡◌, refl, sym, ap, ◌∙◌, List, [], ◌∷◌, ◌++◌, Bool, true,
  false, ltb, leb, ◌==◌, if◌then◌else◌, ◌||◌, Option, none, some, Run, ok, append_assoc, append-nil,
  arith, length, length-append, take, Bool-cases, inl, inr, All,
}
use orbot_library.RrList.{is_local}
use orbot_library.Cent.{Sizeof, RrBucket, RrSet, Cent, World}
use orbot_library.Cent.Delete.{free_cent}
use orbot_library.Cent.Add.{add_cent_rr, add_cent_rrset_by_type}
use orbot_library.Disk.{Widths, put_le, fbucket_bytes}
use orbot_library.Disk.Reader.{
  Reading, next, stop, exits, faults, ◌>>=◌, lift, unless_full, InFile, FileSet, grow_buffer,
  read_data, read_sized, read_rr, read_rrs,
}
use orbot_library.Disk.Bytes.{Fits, length-put_le, get_le-put_le, read_bytes-append}
use orbot_library.Disk.Writing.{Sized, rrs_bytes}
use orbot_library.Disk.Slots.{type_slot}

-- A record that a file can hold.
pub record IsStorable (rr : RrBucket) : Type 0 where
  pub sized : Sized rr
  pub fits : Fits 2 rr.rdlen

-- An RR set that a file can hold.
pub record IsStorableSet (wd : Widths) (r : RrSet) : Type 0 where
  pub few : length r.rrs ≤ 255
  pub flags : Fits 2 r.flags
  pub ttl : Fits wd.time r.ttl
  pub ts : Fits wd.time r.ts
  pub records : All IsStorable r.rrs

abbrev pub StorableSlot : Widths → Option RrSet → Type 0
StorableSlot wd none = Unit {0}
StorableSlot wd (some r) = IsStorableSet wd r

-- The additions that the records and the RR sets stand for.
abbrev pub add_rrs : Sizeof → ℕ → RrSet → List RrBucket → Cent → World → Reading (Cent × World)
add_rrs z tp r [] ce w = next (ce, w)
add_rrs z tp r (rr ∷ rrs) ce w =
    lift (add_cent_rr z ce tp r.ttl r.ts r.flags rr.rdata w) >>= unless_full >>= λ s.
    add_rrs z tp r rrs s.0 s.1

abbrev pub add_set : Sizeof → ℕ → Option RrSet → Cent → World → Reading (Cent × World)
add_set z tp none ce w = next (ce, w)
add_set z tp (some r) ce w =
    if is_local r.flags
    then next (ce, w)
    else (lift (add_cent_rrset_by_type z ce tp r.ttl r.ts r.flags w) >>= unless_full >>= λ s.
        add_rrs z tp r r.rrs s.0 s.1)

abbrev pub add_sets : Sizeof → List ℕ → Cent → Cent → World → Reading (Cent × World)
add_sets z [] c ce w = next (ce, w)
add_sets z (tp ∷ tps) c ce w = add_set z tp (type_slot c tp) ce w >>= λ s. add_sets z tps c s.0 s.1

-- The size of the buffer behind them.
abbrev pub buffer_rrs : List RrBucket → ℕ → ℕ
buffer_rrs [] dtsz = dtsz
buffer_rrs (rr ∷ rrs) dtsz = buffer_rrs rrs (if ltb dtsz rr.rdlen then rr.rdlen else dtsz)

abbrev pub buffer_set : Option RrSet → ℕ → ℕ
buffer_set none dtsz = dtsz
buffer_set (some r) dtsz = if is_local r.flags then dtsz else buffer_rrs r.rrs dtsz

abbrev pub buffer_sets : List ℕ → Cent → ℕ → ℕ
buffer_sets [] c dtsz = dtsz
buffer_sets (tp ∷ tps) c dtsz = buffer_sets tps c (buffer_set (type_slot c tp) dtsz)

-- A reading, with the rest of the file behind it.
abbrev pub leaving : List ℕ → ℕ → Reading (Cent × World) → Reading ((Cent × World) × InFile)
leaving file dtsz m = m >>= λ s. next (s, record { file = file; dtsz = dtsz })

pub >>=-leaving {ℓ} :
    {B : Type ℓ} (file : List ℕ) (dtsz : ℕ) (m : Reading (Cent × World))
    (k : (Cent × World) × InFile → Reading B) (l : Cent × World → Reading B)
    → ((s : Cent × World) → k (s, record { file = file; dtsz = dtsz }) ≡ l s)
    → (leaving file dtsz m >>= k) ≡ (m >>= l)
>>=-leaving file dtsz (next s) k l h = h s
>>=-leaving file dtsz (stop w) k l h = refl
>>=-leaving file dtsz exits k l h = refl
>>=-leaving file dtsz (faults why) k l h = refl

pub leaving->>= :
    (file : List ℕ) (dtsz : ℕ) (m : Reading (Cent × World))
    (l : Cent × World → Reading (Cent × World))
    → (m >>= λ s. leaving file dtsz (l s)) ≡ leaving file dtsz (m >>= l)
leaving->>= file dtsz (next s) l = refl
leaving->>= file dtsz (stop w) l = refl
leaving->>= file dtsz exits l = refl
leaving->>= file dtsz (faults why) l = refl

-- The header that an RR set is written with.
abbrev pub header : ℕ → RrSet → FileSet
header tp r = record { tp = tp; num_rr = length r.rrs; flags = r.flags; ttl = r.ttl; ts = r.ts }

data_read :
    (z : Sizeof) (tp : ℕ) (r : RrSet) (rr : RrBucket) (ce : Cent) (w : World) (rest : List ℕ)
    (dtsz : ℕ)
    → Sized rr
    → read_data z (header tp r) rr.rdlen ce w (rr.rdata ++ rest) dtsz
      ≡ leaving rest dtsz (lift (add_cent_rr z ce tp r.ttl r.ts r.flags rr.rdata w) >>= unless_full)
unfolding read_data
data_read z tp r rr ce w rest dtsz e =
    rw (read_bytes-append rr.rdlen rr.rdata rest (free_cent z ce w) e)
      (after (add_cent_rr z ce tp r.ttl r.ts r.flags rr.rdata w))
  where
    after :
        (m : Run (Bool × (Cent × World)))
        → (lift m >>= λ a. unless_full a >>= λ s. next (s, record { file = rest; dtsz = dtsz }))
          ≡ leaving rest dtsz (lift m >>= unless_full)
    after (ok (true, a)) = refl
    after (ok (false, a)) = refl
    after (orbot_library.Prelude.halt why) = refl

read_sized-grown :
    (z : Sizeof) (tp : ℕ) (r : RrSet) (rr : RrBucket) (ce : Cent) (w : World) (rest : List ℕ)
    (dtsz : ℕ)
    → Sized rr
    → read_sized true z (header tp r) rr.rdlen ce w (rr.rdata ++ rest) dtsz
      ≡ leaving rest
          (if ltb dtsz rr.rdlen then rr.rdlen else dtsz)
          (lift (add_cent_rr z ce tp r.ttl r.ts r.flags rr.rdata w) >>= unless_full)
unfolding read_sized grow_buffer
read_sized-grown z tp r rr ce w rest dtsz h = by_size (ltb dtsz rr.rdlen)
  where
    by_size :
        (b : Bool)
        → (elim (if b then some rr.rdlen else some dtsz)
            as (λ _. Reading ((Cent × World) × InFile)) [
              | none ↦ exits
              | some d ↦ read_data z (header tp r) rr.rdlen ce w (rr.rdata ++ rest) d
            ])
          ≡ leaving rest
              (if b then rr.rdlen else dtsz)
              (lift (add_cent_rr z ce tp r.ttl r.ts r.flags rr.rdata w) >>= unless_full)
    by_size true = data_read z tp r rr ce w rest rr.rdlen h
    by_size false = data_read z tp r rr ce w rest dtsz h

record_read :
    (z : Sizeof) (tp : ℕ) (r : RrSet) (rr : RrBucket) (ce : Cent) (w : World) (rest : List ℕ)
    (dtsz : ℕ)
    → IsStorable rr
    → read_rr true z
        (header tp r)
        ce
        w
        (record { file = fbucket_bytes rr.rdlen ++ (rr.rdata ++ rest); dtsz = dtsz })
      ≡ leaving rest
          (if ltb dtsz rr.rdlen then rr.rdlen else dtsz)
          (lift (add_cent_rr z ce tp r.ttl r.ts r.flags rr.rdata w) >>= unless_full)
unfolding read_rr fbucket_bytes
record_read z tp r rr ce w rest dtsz h =
    rw
      (read_bytes-append 2 (put_le 2 rr.rdlen) (rr.rdata ++ rest) (free_cent z ce w)
        (length-put_le 2 rr.rdlen))
      (ap (λ n. read_sized true z (header tp r) n ce w (rr.rdata ++ rest) dtsz)
          (get_le-put_le 2 rr.rdlen h.fits)
        ∙ read_sized-grown z tp r rr ce w rest dtsz h.sized)

pub records_read :
    (z : Sizeof) (tp : ℕ) (r : RrSet) (rrs : List RrBucket) (ce : Cent) (w : World) (rest : List ℕ)
    (dtsz : ℕ)
    → All IsStorable rrs
    → read_rrs true z
        (header tp r)
        (length rrs)
        ce
        w
        (record { file = rrs_bytes rrs ++ rest; dtsz = dtsz })
      ≡ leaving rest (buffer_rrs rrs dtsz) (add_rrs z tp r rrs ce w)
unfolding read_rrs
records_read z tp r [] ce w rest dtsz h = refl
records_read z tp r (rr ∷ rrs) ce w rest dtsz (h, hs) =
    let first = lift (add_cent_rr z ce tp r.ttl r.ts r.flags rr.rdata w) >>= unless_full in
    let grown = if ltb dtsz rr.rdlen then rr.rdlen else dtsz in
    rw
      (
        append_assoc (fbucket_bytes rr.rdlen) (rr.rdata ++ rrs_bytes rrs) rest,
        append_assoc rr.rdata (rrs_bytes rrs) rest,
        record_read z tp r rr ce w (rrs_bytes rrs ++ rest) dtsz h,
      )
      (>>=-leaving (rrs_bytes rrs ++ rest) grown first
          (λ s. read_rrs true z (header tp r) (length rrs) s.0.0 s.0.1 s.1)
          (λ s. leaving rest (buffer_rrs rrs grown) (add_rrs z tp r rrs s.0 s.1))
          (λ s. records_read z tp r rrs s.0 s.1 rest grown hs)
        ∙ leaving->>= rest (buffer_rrs rrs grown) first (λ s. add_rrs z tp r rrs s.0 s.1))
