-- ===== src/Records/Keeping.antt =====
-- The functions that add to an entry leave its name and DF_LOCAL alone.
use orbot_library.Prelude.{
  ℕ, ◌+◌, ◌-◌, ◌*◌, ◌/◌, ◌%◌, ◌≡◌, refl, ◌∙◌, List, Bool, true, false, ◌&&◌, not, ltb, ◌==◌,
  if◌then◌else◌, Option, none, some, Run, ok, halt, assertion, out_of_bounds, ◌>>=◌, write, length,
  replicate, arith, Bool-cases, inl, inr,
}
use orbot_library.Cent.{
  Sizeof, RrBucket, RrSet, Cent, nrrmu, nrrext, nrrtot, World, allocated, is_negative,
  clear_negative, rrarr_index, rrarr_index_testext, rrarr_set,
}
use orbot_library.Cent.Add.{
  create_rr, make_positive, put_rrset, add_rrset, add_cent_rrset_by_index, link_rr, add_cent_rr_int,
  has_data, add_cent_rr, type_index,
}
use orbot_library.RrList.{is_local}

-- An entry with the name of another, and local where that is.
abbrev pub Like : Cent → Cent → Type 0
Like d c = (c.qname ≡ d.qname) × (is_local c.flags ≡ is_local d.flags)

unchanged : (c : Cent) → Like c c
unchanged c = (refl, refl)

-- An entry that comes out is like the one that went in.
abbrev CentNamed : Cent → Run Cent → Type 0
CentNamed q (halt why) = Unit
CentNamed q (ok c) = Like q c

abbrev pub Named : Cent → Run (Bool × (Cent × World)) → Type 0
Named q (halt why) = Unit
Named q (ok r) = Like q r.1.0

module _ (q : Cent) where
  Named-if :
      (b : Bool) (x y : Run (Bool × (Cent × World)))
      → Named q x
      → Named q y
      → Named q (if b then x else y)
  Named-if true x y h k = h
  Named-if false x y h k = k

  Named-cent :
      (r : Run Cent) (f : Cent → Run (Bool × (Cent × World)))
      → CentNamed q r
      → ((c : Cent) → Like q c → Named q (f c))
      → Named q (r >>= f)
  Named-cent (halt why) f h k = _
  Named-cent (ok c) f h k = k c h

  Named->>= :
      (r : Run (Bool × (Cent × World))) (f : Bool × (Cent × World) → Run (Bool × (Cent × World)))
      → Named q r
      → ((x : Bool × (Cent × World)) → Like q x.1.0 → Named q (f x))
      → Named q (r >>= f)
  Named->>= (halt why) f h k = _
  Named->>= (ok x) f h k = k x h

  Named-part :
      {A : Type 0} (r : Run A) (f : A → Run (Bool × (Cent × World)))
      → ((x : A) → Named q (f x))
      → Named q (r >>= f)
  Named-part (halt why) f k = _
  Named-part (ok x) f k = k x

written :
    (r : Run (List (Option RrSet))) (c : Cent) (f : List (Option RrSet) → Cent)
    → ((x : List (Option RrSet)) → Like c (f x))
    → CentNamed c (r >>= λ x. ok (f x))
written (halt why) c f h = _
written (ok x) c f h = h x

rrarr_set-CentNamed : (c : Cent) (i : ℕ) (v : Option RrSet) → CentNamed c (rrarr_set c i v)
unfolding rrarr_set
rrarr_set-CentNamed c i v =
    by_index (ltb i nrrmu) _ _
      (written (write c.rrmu i v) c (λ r. record c { rrmu = r }) (λ x. (refl, refl)))
      (in_rrext c.rrext)
  where
    by_index :
        (b : Bool) (x y : Run Cent)
        → CentNamed c x
        → CentNamed c y
        → CentNamed c (if b then x else y)
    by_index true x y h k = h
    by_index false x y h k = k

    in_rrext :
        (x : Option (List (Option RrSet)))
        → CentNamed c (elim x as (λ _. Run Cent) [
          | none ↦ halt out_of_bounds
          | some e ↦ write e (i - nrrmu) v >>= λ r. ok (record c { rrext = some r })
        ])
    in_rrext none = _
    in_rrext (some e) =
        written (write e (i - nrrmu) v) c (λ r. record c { rrext = some r }) (λ x. (refl, refl))

put_rrset-Named :
    (z : Sizeof) (c : Cent) (i ttl ts flags : ℕ) (w : World)
    → Named c (put_rrset z c i ttl ts flags w)
unfolding put_rrset
put_rrset-Named z c i ttl ts flags w =
    Named-if c (w.room == 0) _ _ (Named-cent c _ _ (rrarr_set-CentNamed c i none) λ c2 e. e)
      (Named-cent c _ _ (rrarr_set-CentNamed c i _) λ c2 e. e)

clear_negative-local : (flags : ℕ) → is_local (clear_negative flags) ≡ is_local flags
unfolding is_local clear_negative
clear_negative-local flags =
    let same : (flags - flags % 2) / 2 ≡ flags / 2 = omega arith in rw (same) refl

make_positive-Like : (c : Cent) (w : World) → Like c (make_positive c w).0
unfolding make_positive
make_positive-Like c w = elim (Bool-cases (is_negative c.flags)) [
  | inl neg ↦ rw (neg) (refl, clear_negative-local c.flags)
  | inr pos ↦ rw (pos) (unchanged c)
]

Named-Like : (d c : Cent) (r : Run (Bool × (Cent × World))) → Like d c → Named c r → Named d r
Named-Like d c (halt why) e h = _
Named-Like d c (ok r) e h = (h.0 ∙ e.0, h.1 ∙ e.1)

add_rrset-Named :
    (z : Sizeof) (c : Cent) (i ttl ts flags : ℕ) (w : World)
    → Named c (add_rrset z c i ttl ts flags w)
unfolding add_rrset
add_rrset-Named z c i ttl ts flags w =
    Named-if c (ltb i nrrmu) _ _ (put_rrset-Named z c i ttl ts flags w)
      (Named-if c (not (ltb (i - nrrmu) nrrext)) (halt assertion) _ _ (second c.rrext))
  where
    second :
        (x : Option (List (Option RrSet)))
        → Named c (elim x as (λ _. Run (Bool × (Cent × World))) [
          | some e ↦ put_rrset z c i ttl ts flags w
          | none ↦
              if w.room == 0
              then ok (false, (c, w))
              else put_rrset z
                  (record c {
                    rrext = some (replicate nrrext none);
                    cs = c.cs + z.pointer * nrrext;
                  })
                  i
                  ttl
                  ts
                  flags
                  (allocated w)
        ])
    second (some e) = put_rrset-Named z c i ttl ts flags w
    second none =
        Named-if c (w.room == 0) (ok (false, (c, w))) _ (unchanged c)
          (put_rrset-Named z _ i ttl ts flags (allocated w))

add_cent_rrset_by_index-Named :
    (z : Sizeof) (c : Cent) (i ttl ts flags : ℕ) (w : World)
    → Named c (add_cent_rrset_by_index z c i ttl ts flags w)
unfolding add_cent_rrset_by_index
add_cent_rrset_by_index-Named z c i ttl ts flags w =
    Named-Like c (make_positive c w).0 _ (make_positive-Like c w)
      (add_rrset-Named z (make_positive c w).0 i ttl ts flags (make_positive c w).1)

link_rr-Named :
    (z : Sizeof) (c : Cent) (i : ℕ) (s : RrSet) (k : ℕ) (rr : RrBucket) (w : World)
    → Named c (link_rr z c i s k rr w)
unfolding link_rr
link_rr-Named z c i s k rr w =
    Named-cent c (rrarr_set c i _) _ (rrarr_set-CentNamed c i _) λ c2 e. e

add_cent_rr_int-Named :
    (z : Sizeof) (c : Cent) (i ttl ts flags : ℕ) (bytes : List ℕ) (k : ℕ) (w : World)
    → Named c (add_cent_rr_int z c i ttl ts flags bytes k w)
unfolding add_cent_rr_int
add_cent_rr_int-Named z c i ttl ts flags bytes k w =
    Named-if c (w.room == 0) (ok (false, (c, w))) _ (unchanged c)
      (Named-part c (rrarr_index_testext c i) _ slot)
  where
    linked :
        (c2 : Cent)
        → Like c c2
        → (t : Option RrSet) (w2 : World)
        → Named c (elim t as (λ _. Run (Bool × (Cent × World))) [
          | some rrset ↦ link_rr z c2 i rrset 0 (create_rr bytes) w2
          | none ↦ halt out_of_bounds
        ])
    linked c2 e none w2 = _
    linked c2 e (some t) w2 = Named-Like c c2 _ e (link_rr-Named z c2 i t 0 (create_rr bytes) w2)

    slot :
        (s : Option RrSet)
        → Named c (elim s as (λ _. Run (Bool × (Cent × World))) [
          | some rrset ↦ link_rr z c i rrset k (create_rr bytes) (allocated w)
          | none ↦ add_cent_rrset_by_index z c i ttl ts flags (allocated w) >>= λ r.
              let (done, (c2, w2)) = r in
              if done
              then (rrarr_index c2 i >>= λ t. elim t [
                | some rrset ↦ link_rr z c2 i rrset 0 (create_rr bytes) w2
                | none ↦ halt out_of_bounds
              ])
              else ok (false, (c2, w2))
        ])
    slot (some t) = link_rr-Named z c i t k (create_rr bytes) (allocated w)
    slot none =
        Named->>= c _ _ (add_cent_rrset_by_index-Named z c i ttl ts flags (allocated w)) λ x e.
          Named-if c x.0 _ (ok (false, (x.1.0, x.1.1)))
            (Named-part c (rrarr_index x.1.0 i) _ λ t. linked x.1.0 e t x.1.1) e

-- add_cent_rr leaves the entry's name and DF_LOCAL alone.
pub add_cent_rr-Named :
    (z : Sizeof) (c : Cent) (type ttl ts flags : ℕ) (bytes : List ℕ) (w : World)
    → Named c (add_cent_rr z c type ttl ts flags bytes w)
unfolding add_cent_rr
add_cent_rr-Named z c type ttl ts flags bytes w =
    Named-if c (is_local c.flags && not (is_local flags)) (ok (true, (c, w))) _ (unchanged c) (
      Named-part c (type_index type) _ λ idx.
        Named-if c (not (ltb idx nrrtot)) (halt assertion) _ _
          (Named-part c (rrarr_index_testext c idx) _ λ s. slot idx s))
  where
    slot :
        (idx : ℕ) (s : Option RrSet)
        → Named c (elim s as (λ _. Run (Bool × (Cent × World))) [
          | none ↦ add_cent_rr_int z c idx ttl ts flags bytes 0 w
          | some rrset ↦
              rrarr_set c idx
                (some (if ltb ttl rrset.ttl then record rrset { ttl = ttl } else rrset))
              >>= λ c2.
                  if has_data bytes rrset.rrs
                  then ok (true, (c2, w))
                  else add_cent_rr_int z c2 idx ttl ts flags bytes (length rrset.rrs) w
        ])
    slot idx none = add_cent_rr_int-Named z c idx ttl ts flags bytes 0 w
    slot idx (some t) = Named-cent c (rrarr_set c idx _) _ (rrarr_set-CentNamed c idx _) λ c2 e.
        Named-if c (has_data bytes t.rrs) (ok (true, (c2, w))) _ e
          (Named-Like c c2 _ e (add_cent_rr_int-Named z c2 idx ttl ts flags bytes (length t.rrs) w))
