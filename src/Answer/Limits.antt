-- ===== src/Answer/Limits.antt =====
-- The size of an answer after add_rr of pdnsd/src/dns_answer.c.
use orbot_library.Prelude.{
  ℕ, ◌+◌, ◌-◌, ◌≡◌, refl, ap, ◌∙◌, sym, List, [], ◌∷◌, ◌++◌, Bool, true, false, ◌==◌, ltb,
  if◌then◌else◌, Option, none, some, Run, ok, halt, Halt, out_of_bounds, length, take, drop,
  append_assoc, append-nil,
}
use orbot_library.Name.{rhnlen}
use orbot_library.Compress.{Compel, compress_name}
use orbot_library.Answer.{
  Reply, ◌>>=◌, whole, assert, put_bytes, put_from, put_name, one_name, behind, two_names, soa_data,
  pair_data, nxt_data, naptr_data, put_data, naptr_strings, is_one_of,
}

-- The run has added to the end of the message at most.
unfoldable pub Adds {ℓ} : {A : Type ℓ} → (A → Reply) → List ℕ → Run (Option A) → Type 0
Adds reply b (halt why) = Unit {0}
Adds reply b (ok none) = Unit {0}
Adds reply b (ok (some a)) = (new : List ℕ) × ((reply a).bytes ≡ b ++ new)

-- A reply itself, and one that comes with a value.
abbrev pub self : Reply → Reply
self m = m

abbrev pub with_it {ℓ} : {X : Type ℓ} → X × Reply → Reply
with_it r = r.1

module _ {κ} {B : Type κ} (reply : B → Reply) where
  further : (b new c : List ℕ) (q : Run (Option B)) → c ≡ b ++ new → Adds reply c q → Adds reply b q
  unfolding Adds
  further b new c (halt why) e h = tt
  further b new c (ok none) e h = tt
  further b new c (ok (some a)) e (more, f) =
      (new ++ more, f ∙ ap (λ x. x ++ more) e ∙ append_assoc b new more)

  Adds->>= {ℓ} :
      {A : Type ℓ} (first : A → Reply) (b : List ℕ) (r : Run (Option A)) (k : A → Run (Option B))
      → Adds first b r
      → ((a : A) → Adds reply (first a).bytes (k a))
      → Adds reply b (r >>= k)
  unfolding Adds
  Adds->>= first b (halt why) k h g = tt
  Adds->>= first b (ok none) k h g = tt
  Adds->>= first b (ok (some a)) k (new, e) g = further b new (first a).bytes (k a) e (g a)

  -- A part of the code that reads only.
  Adds-reading {ℓ} :
      {A : Type ℓ} (b : List ℕ) (r : Run (Option A)) (k : A → Run (Option B))
      → ((a : A) → Adds reply b (k a))
      → Adds reply b (r >>= k)
  unfolding Adds
  Adds-reading b (halt why) k g = tt
  Adds-reading b (ok none) k g = tt
  Adds-reading b (ok (some a)) k g = g a

  Adds-assert :
      (b : List ℕ) (c : Bool) (r : Run (Option B)) → Adds reply b r → Adds reply b (assert c r)
  unfolding Adds
  Adds-assert b true r h = h
  Adds-assert b false r h = tt

  Adds-if :
      (b : List ℕ) (c : Bool) (r q : Run (Option B))
      → Adds reply b r
      → Adds reply b q
      → Adds reply b (if c then r else q)
  Adds-if b true r q h g = h
  Adds-if b false r q h g = g

  Adds-nothing : (a : B) → Adds reply (reply a).bytes (ok (some a))
  unfolding Adds
  Adds-nothing a = ([], sym (append-nil (reply a).bytes))

  Adds-fails : (b : List ℕ) → Adds reply b (ok none)
  unfolding Adds
  Adds-fails b = tt

  Adds-halts : (b : List ℕ) (why : Halt) → Adds reply b (halt why)
  unfolding Adds
  Adds-halts b why = tt

pub put_bytes-Adds : (new : List ℕ) (m : Reply) → Adds self m.bytes (put_bytes new m)
unfolding put_bytes Adds
put_bytes-Adds new m =
    Adds-if self m.bytes (ltb m.allocsz (2 + length m.bytes + length new)) (halt out_of_bounds)
      (ok (some (record m { bytes = m.bytes ++ new }))) tt (new, refl)

put_from-Adds : (n : ℕ) (data_ : List ℕ) (m : Reply) → Adds self m.bytes (put_from n data_ m)
unfolding put_from
put_from-Adds n data_ m =
    Adds-if self m.bytes (ltb (length data_) n) (halt out_of_bounds) (put_bytes (take n data_) m)
      (Adds-halts self m.bytes out_of_bounds) (put_bytes-Adds (take n data_) m)

put_name-Adds :
    (room : Bool) (data_ : List ℕ) (m : Reply) → Adds with_it m.bytes (put_name room data_ m)
unfolding put_name
put_name-Adds room data_ m =
    Adds-reading with_it m.bytes (whole (compress_name room data_ (length m.bytes) m.cb)) _
      (λ (r : ℕ × (List ℕ × List Compel)).
        Adds-if with_it m.bytes (r.0 == 0) (ok none) _ (Adds-fails with_it m.bytes) (
          Adds->>= with_it self m.bytes (put_bytes r.1.0 (record m { cb = r.1.1 })) _
            (put_bytes-Adds r.1.0 (record m { cb = r.1.1 }))
            (λ m2. Adds-nothing with_it (r.0, m2))))

one_name-Adds :
    (room : Bool) (data_ : List ℕ) (dlen : ℕ) (m : Reply)
    → Adds with_it m.bytes (one_name room data_ dlen m)
unfolding one_name
one_name-Adds room data_ dlen m =
    Adds->>= with_it with_it m.bytes (put_name room data_ m) _ (put_name-Adds room data_ m)
      (λ r. Adds-assert with_it _ _ _ (Adds-nothing with_it r))

behind-Adds :
    (room : Bool) (n : ℕ) (data_ : List ℕ) (dlen : ℕ) (m : Reply)
    → Adds with_it m.bytes (behind room n data_ dlen m)
unfolding behind
behind-Adds room n data_ dlen m =
    Adds->>= with_it self m.bytes (put_from n data_ m) _ (put_from-Adds n data_ m) (λ m1.
      Adds->>= with_it with_it m1.bytes (put_name room (drop n data_) m1) _
        (put_name-Adds room (drop n data_) m1)
        (λ r. Adds-assert with_it _ _ _ (Adds-nothing with_it (n + r.0, r.1))))

two_names-Adds :
    (room : Bool) (n : ℕ) (data_ : List ℕ) (m : Reply)
    → Adds with_it m.bytes (two_names room n data_ m)
unfolding two_names
two_names-Adds room n data_ m =
    Adds->>= with_it self m.bytes (put_from n data_ m) _ (put_from-Adds n data_ m) (λ m1.
      Adds->>= with_it with_it m1.bytes (put_name room (drop n data_) m1) _
        (put_name-Adds room (drop n data_) m1)
        (λ r. Adds-reading with_it _ (whole (rhnlen (drop n data_))) _ (λ len.
          Adds-assert with_it _ _ _ (
            Adds->>= with_it with_it _ (put_name room (drop (n + len) data_) r.1) _
              (put_name-Adds room (drop (n + len) data_) r.1)
              (λ q.
                Adds-reading with_it _ (whole (rhnlen (drop (n + len) data_))) _
                  (λ len2. Adds-nothing with_it ((n + r.0 + q.0, n + len + len2), q.1)))))))

soa_data-Adds :
    (room : Bool) (data_ : List ℕ) (dlen : ℕ) (m : Reply)
    → Adds with_it m.bytes (soa_data room data_ dlen m)
unfolding soa_data
soa_data-Adds room data_ dlen m =
    Adds->>= with_it with_it m.bytes (two_names room 0 data_ m) _ (two_names-Adds room 0 data_ m)
      (λ r. Adds-assert with_it _ _ _ (
        Adds->>= with_it self _ (put_from 20 (drop r.0.1 data_) r.1) _
          (put_from-Adds 20 (drop r.0.1 data_) r.1)
          (λ m2. Adds-assert with_it _ _ _ (Adds-nothing with_it (r.0.0 + 20, m2)))))

pair_data-Adds :
    (room : Bool) (n : ℕ) (data_ : List ℕ) (dlen : ℕ) (m : Reply)
    → Adds with_it m.bytes (pair_data room n data_ dlen m)
unfolding pair_data
pair_data-Adds room n data_ dlen m =
    Adds->>= with_it with_it m.bytes (two_names room n data_ m) _ (two_names-Adds room n data_ m)
      (λ r. Adds-assert with_it _ _ _ (Adds-nothing with_it (r.0.0, r.1)))

nxt_data-Adds :
    (room : Bool) (data_ : List ℕ) (dlen : ℕ) (m : Reply)
    → Adds with_it m.bytes (nxt_data room data_ dlen m)
unfolding nxt_data
nxt_data-Adds room data_ dlen m =
    Adds->>= with_it with_it m.bytes (put_name room data_ m) _ (put_name-Adds room data_ m) (λ r.
      Adds-reading with_it _ (whole (rhnlen data_)) _ (λ ilen. Adds-assert with_it _ _ _ (
        Adds-if with_it _ _ _ _
          (Adds->>= with_it self _ (put_from (dlen - ilen) (drop ilen data_) r.1) _
            (put_from-Adds (dlen - ilen) (drop ilen data_) r.1)
            (λ m2. Adds-nothing with_it (r.0 + (dlen - ilen), m2)))
          (Adds-nothing with_it r))))

naptr_data-Adds :
    (room : Bool) (data_ : List ℕ) (dlen : ℕ) (m : Reply)
    → Adds with_it m.bytes (naptr_data room data_ dlen m)
unfolding naptr_data
naptr_data-Adds room data_ dlen m = Adds-assert with_it _ _ _ (
    Adds-reading with_it m.bytes (naptr_strings 3 data_ dlen 4) _
      (λ ilen. behind-Adds room ilen data_ dlen m))

pub put_data-Adds :
    (room : Bool) (type : ℕ) (data_ : List ℕ) (dlen : ℕ) (m : Reply)
    → Adds with_it m.bytes (put_data room type data_ dlen m)
unfolding put_data
put_data-Adds room type data_ dlen m =
    Adds-if with_it _ (is_one_of type (5 ∷ 7 ∷ 3 ∷ 4 ∷ 8 ∷ 9 ∷ 2 ∷ 12 ∷ [])) _ _
      (one_name-Adds room data_ dlen m)
      (Adds-if with_it _ (is_one_of type (14 ∷ 17 ∷ [])) _ _ (pair_data-Adds room 0 data_ dlen m) (
        Adds-if with_it _ (is_one_of type (15 ∷ 18 ∷ 21 ∷ 36 ∷ [])) _ _
          (Adds-assert with_it _ (ltb 2 dlen) _ (behind-Adds room 2 data_ dlen m))
          (Adds-if with_it _ (type == 6) _ _ (soa_data-Adds room data_ dlen m) (
            Adds-if with_it _ (type == 26) _ _
              (Adds-assert with_it _ (ltb 2 dlen) _ (pair_data-Adds room 2 data_ dlen m))
              (Adds-if with_it _ (type == 33) _ _
                (Adds-assert with_it _ (ltb 6 dlen) _ (behind-Adds room 6 data_ dlen m))
                (Adds-if with_it _ (type == 30) _ _ (nxt_data-Adds room data_ dlen m) (
                  Adds-if with_it _ (type == 35) _ _ (naptr_data-Adds room data_ dlen m) (
                    Adds->>= with_it self _ (put_from dlen data_ m) _ (put_from-Adds dlen data_ m)
                      (λ m2. Adds-nothing with_it (dlen, m2))))))))))
