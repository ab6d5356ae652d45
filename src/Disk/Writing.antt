-- ===== src/Disk/Writing.antt =====
-- What the writing of the disk cache adds to the file, where the file may grow that far.
use orbot_library.Prelude.{
  ℕ, zero, suc, ◌+◌, ◌≤◌, ◌≡◌, refl, sym, ap, ◌∙◌, List, [], ◌∷◌, ◌++◌, Bool, true, false, ◌==◌,
  if◌then◌else◌, Option, none, some, append_assoc, append-nil, arith, length, length-append, take,
  le→leb, All,
}
use orbot_library.RrList.{is_local}
use orbot_library.Cent.{RrBucket, RrSet}
use orbot_library.Disk.{
  Widths, fset_bytes, fbucket_bytes, fwrite, and_then, write_some, count_rr, write_rrs, write_rrset,
}

-- The data of a record has the size that the record tells.
abbrev pub Sized : RrBucket → Type 0
Sized rr = length rr.rdata ≡ rr.rdlen

abbrev pub rrs_bytes : List RrBucket → List ℕ
rrs_bytes [] = []
rrs_bytes (rr ∷ rrs) = fbucket_bytes rr.rdlen ++ (rr.rdata ++ rrs_bytes rrs)

abbrev pub rrset_bytes : Widths → ℕ → RrSet → List ℕ
rrset_bytes wd tp r = fset_bytes wd tp (length r.rrs) r.flags r.ttl r.ts ++ rrs_bytes r.rrs

abbrev pub set_bytes : Widths → ℕ → Option RrSet → List ℕ
set_bytes wd tp none = []
set_bytes wd tp (some r) = if is_local r.flags then [] else rrset_bytes wd tp r

-- A part of the writing adds `bytes` to each file with room for them.
abbrev pub Adds : ℕ → (List ℕ → Bool × List ℕ) → List ℕ → Type 0
Adds limit op bytes = (f : List ℕ) → length f + length bytes ≤ limit → op f ≡ (true, f ++ bytes)

pub fwrite-Adds : (limit : ℕ) (bytes : List ℕ) → Adds limit (fwrite limit bytes) bytes
unfolding fwrite
fwrite-Adds limit bytes f h = rw (le→leb _ _ h) refl

pub write_some-Adds : (limit : ℕ) (bytes : List ℕ) → Adds limit (write_some limit bytes) bytes
unfolding write_some
write_some-Adds limit [] f h = rw (append-nil f) refl
write_some-Adds limit (b ∷ bytes) f h =
    let more : (suc (length bytes) == 0) ≡ false = ground arith in
    rw more (fwrite-Adds limit (b ∷ bytes) f h)

pub and_then-Adds :
    (limit : ℕ) (op1 op2 : List ℕ → Bool × List ℕ) (a b : List ℕ)
    → Adds limit op1 a
    → Adds limit op2 b
    → Adds limit (λ f. and_then (op1 f) op2) (a ++ b)
and_then-Adds limit op1 op2 a b h1 h2 f fits = rw (h1 f (omega (arith, fits, length-append a b))) (
    h2 (f ++ a) (omega (arith, fits, length-append a b, length-append f a))
    ∙ ap (λ l. (true, l)) (append_assoc f a b))

take-all {ℓ} : {A : Type ℓ} (xs : List A) → take (length xs) xs ≡ xs
take-all [] = refl
take-all (x ∷ xs) = ap (λ l. x ∷ l) (take-all xs)

pub write_rrs-Adds :
    (limit : ℕ) (rrs : List RrBucket)
    → All Sized rrs
    → Adds limit (write_rrs limit rrs) (rrs_bytes rrs)
unfolding write_rrs
write_rrs-Adds limit [] s = λ f h. rw (append-nil f) refl
write_rrs-Adds limit (rr ∷ rrs) (e, s) =
    let whole : take rr.rdlen rr.rdata ≡ rr.rdata =
      ap (λ k. take k rr.rdata) (sym e) ∙ take-all rr.rdata in
    rw whole (
      and_then-Adds limit (fwrite limit (fbucket_bytes rr.rdlen))
        (λ f. and_then (write_some limit rr.rdata f) (write_rrs limit rrs)) (fbucket_bytes rr.rdlen)
        (rr.rdata ++ rrs_bytes rrs) (fwrite-Adds limit (fbucket_bytes rr.rdlen))
        (and_then-Adds limit (write_some limit rr.rdata) (write_rrs limit rrs) rr.rdata
          (rrs_bytes rrs) (write_some-Adds limit rr.rdata) (write_rrs-Adds limit rrs s)))

count_rr-all : (n : ℕ) (rrs : List RrBucket) → length rrs ≤ n → count_rr n rrs ≡ length rrs
unfolding count_rr
count_rr-all zero [] h = refl
count_rr-all zero (rr ∷ rrs) h = absurd (omega (arith, h))
count_rr-all (suc n) [] h = refl
count_rr-all (suc n) (rr ∷ rrs) h = ap suc (count_rr-all n rrs (omega (arith, h)))

pub write_rrset-Adds :
    (wd : Widths) (limit tp : ℕ) (r : RrSet)
    → length r.rrs ≤ 255
    → All Sized r.rrs
    → Adds limit (write_rrset wd limit tp r) (rrset_bytes wd tp r)
unfolding write_rrset
write_rrset-Adds wd limit tp r few s =
    rw (count_rr-all 255 r.rrs few, take-all r.rrs)
      (and_then-Adds limit (fwrite limit (fset_bytes wd tp (length r.rrs) r.flags r.ttl r.ts))
        (write_rrs limit r.rrs) (fset_bytes wd tp (length r.rrs) r.flags r.ttl r.ts)
        (rrs_bytes r.rrs) (fwrite-Adds limit (fset_bytes wd tp (length r.rrs) r.flags r.ttl r.ts))
        (write_rrs-Adds limit r.rrs s))
