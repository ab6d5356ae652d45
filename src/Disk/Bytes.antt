-- ===== src/Disk/Bytes.antt =====
-- Numbers and fields in the disk cache file: what is stored is what is read.
use orbot_library.Prelude.{
  ℕ, zero, suc, ◌+◌, ◌/◌, ◌≡◌, refl, sym, ap, ◌∙◌, List, [], ◌∷◌, ◌++◌, some, append-nil, arith,
  length, length-append, take, drop, take-append, drop-append,
}
use orbot_library.Disk.{put_le, get_le, Widths, file_bytes, fttlts_bytes, fset_bytes}
use orbot_library.Disk.Reader.{fread, field, file_set, file_head, next, read_bytes}
use orbot_library.Cent.{World}

-- The number has `n` bytes.
abbrev pub Fits : ℕ → ℕ → Type 0
Fits zero v = v ≡ 0
Fits (suc n) v = Fits n (v / 256)

pub length-put_le : (n v : ℕ) → length (put_le n v) ≡ n
unfolding put_le
length-put_le zero v = refl
length-put_le (suc n) v = ap suc (length-put_le n (v / 256))

pub get_le-put_le : (n v : ℕ) → Fits n v → get_le (put_le n v) ≡ v
unfolding put_le get_le
get_le-put_le zero v h = omega (arith, h)
get_le-put_le (suc n) v h = omega (arith, get_le-put_le n (v / 256) h)

pub fread-append : (xs rest : List ℕ) → fread (length xs) (xs ++ rest) ≡ some (xs, rest)
unfolding fread
fread-append [] rest = refl
fread-append (x ∷ xs) rest = rw (fread-append xs rest) refl

pub read_bytes-append :
    (n : ℕ) (xs rest : List ℕ) (w : World)
    → length xs ≡ n
    → read_bytes n (xs ++ rest) w ≡ next (xs, rest)
unfolding read_bytes
read_bytes-append n xs rest w e = rw (← e, read_bytes, fread-append xs rest) refl

pub field-put_le : (n v : ℕ) (rest : List ℕ) → Fits n v → field n (put_le n v ++ rest) ≡ (v, rest)
unfolding field
field-put_le n v rest h =
    let taken : take n (put_le n v ++ rest) ≡ put_le n v =
      ap (λ k. take k (put_le n v ++ rest)) (omega (arith, length-put_le n v))
      ∙ take-append (put_le n v) rest in
    let dropped : drop n (put_le n v ++ rest) ≡ rest =
      ap (λ k. drop k (put_le n v ++ rest)) (omega (arith, length-put_le n v))
      ∙ drop-append (put_le n v) rest in
    rw (taken, dropped, get_le-put_le n v h) refl

pub field-put_le_last : (n v : ℕ) → Fits n v → field n (put_le n v) ≡ (v, [])
field-put_le_last n v h = ap (field n) (sym (append-nil (put_le n v))) ∙ field-put_le n v [] h

module _ (wd : Widths) (tp num_rr flags ttl ts : ℕ) where
  pub length-fset_bytes : length (fset_bytes wd tp num_rr flags ttl ts) ≡ 4 + (wd.time + wd.time)
  unfolding fset_bytes
  length-fset_bytes = simp (length-append, length-put_le) (omega arith)

  -- rr_fset_t is read as it has been written, where its fields fit.
  pub file_set-fset_bytes :
      Fits 1 tp × (Fits 1 num_rr × (Fits 2 flags × (Fits wd.time ttl × Fits wd.time ts)))
      → file_set wd (fset_bytes wd tp num_rr flags ttl ts)
        ≡ record { tp = tp; num_rr = num_rr; flags = flags; ttl = ttl; ts = ts }
  unfolding file_set fset_bytes
  file_set-fset_bytes (h1, (h2, (h3, (h4, h5)))) =
      rw
        (
          field-put_le 1 tp
              (put_le 1 num_rr ++ (put_le 2 flags ++ (put_le wd.time ttl ++ put_le wd.time ts))) h1,
          field-put_le 1 num_rr (put_le 2 flags ++ (put_le wd.time ttl ++ put_le wd.time ts)) h2,
          field-put_le 2 flags (put_le wd.time ttl ++ put_le wd.time ts) h3,
          field-put_le wd.time ttl (put_le wd.time ts) h4,
          field-put_le_last wd.time ts h5,
        )
        refl

module _ (qlen num_rrs flags c_ns c_soa : ℕ) where
  pub length-file_bytes : length (file_bytes qlen num_rrs flags c_ns c_soa) ≡ 6
  unfolding file_bytes
  length-file_bytes = simp (length-append, length-put_le) (omega arith)

  -- dns_file_t is read as it has been written, where its fields fit.
  pub file_head-file_bytes :
      Fits 1 qlen × (Fits 1 num_rrs × (Fits 2 flags × (Fits 1 c_ns × Fits 1 c_soa)))
      → file_head (file_bytes qlen num_rrs flags c_ns c_soa)
        ≡ record { qlen = qlen; num_rrs = num_rrs; flags = flags; c_ns = c_ns; c_soa = c_soa }
  unfolding file_head file_bytes
  file_head-file_bytes (h1, (h2, (h3, (h4, h5)))) =
      rw
        (
          field-put_le 1 qlen
              (put_le 1 num_rrs ++ (put_le 2 flags ++ (put_le 1 c_ns ++ put_le 1 c_soa))) h1,
          field-put_le 1 num_rrs (put_le 2 flags ++ (put_le 1 c_ns ++ put_le 1 c_soa)) h2,
          field-put_le 2 flags (put_le 1 c_ns ++ put_le 1 c_soa) h3,
          field-put_le 1 c_ns (put_le 1 c_soa) h4,
          field-put_le_last 1 c_soa h5,
        )
        refl

module _ (wd : Widths) (ttl ts : ℕ) where
  pub length-fttlts_bytes : length (fttlts_bytes wd ttl ts) ≡ wd.time + wd.time
  unfolding fttlts_bytes
  length-fttlts_bytes = simp (length-append, length-put_le)
