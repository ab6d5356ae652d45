-- ===== src/Answer/Bounds.antt =====
-- The limit on the size of an answer over UDP, in pdnsd/src/dns_answer.c.
use orbot_library.Prelude.{
  ℕ, ◌+◌, ◌*◌, ◌%◌, ◌<◌, ◌≤◌, ◌≡◌, ◌⊎◌, inl, inr, refl, ap, ◌∙◌, sym, subst, List, ◌++◌, Bool,
  false, ltb, if◌then◌else◌, Option, none, some, Run, ok, halt, read, length, take, drop, arith,
  length-append, take-append, length-take, length-drop, Bool-cases, read-outside,
}
use orbot_library.Header.{put_int16, put_int32}
use orbot_library.Answer.{
  Reply, Section, additional, ◌>>=◌, whole, patch, count_at, count_record, over_limit, finish_rr,
}
use orbot_library.Answer.Limits.{Adds}

length-patch :
    (p : ℕ) (new bytes : List ℕ)
    → p + length new ≤ length bytes
    → length (patch p new bytes) ≡ length bytes
unfolding patch
length-patch p new bytes h = omega (
  arith,
  length-append (take p bytes) (new ++ drop (p + length new) bytes),
  length-append new (drop (p + length new) bytes),
  length-take p bytes,
  length-drop (p + length new) bytes,
)

-- A message of which no record is added, or one that is longer and within the limit.
unfoldable pub Limited : ℕ → List ℕ → Run (Option Reply) → Type 0
Limited udp b (halt why) = Unit {0}
Limited udp b (ok none) = Unit {0}
Limited udp b (ok (some m)) = (m.bytes ≡ b) ⊎ ((length b < length m.bytes) × (length m.bytes ≤ udp))

pub Limited-> {ℓ} :
    {A : Type ℓ} (udp : ℕ) (b : List ℕ) (r : Run (Option A)) (k : A → Run (Option Reply))
    → ((a : A) → Limited udp b (k a))
    → Limited udp b (r >>= k)
unfolding Limited
Limited-> udp b (halt why) k g = tt
Limited-> udp b (ok none) k g = tt
Limited-> udp b (ok (some a)) k g = g a

pub Limited->>= {ℓ} :
    {A : Type ℓ} (udp : ℕ) (b : List ℕ) (first : A → Reply) (c : List ℕ) (r : Run (Option A))
    (k : A → Run (Option Reply))
    → Adds first c r
    → ((a : A) (new : List ℕ) → (first a).bytes ≡ c ++ new → Limited udp b (k a))
    → Limited udp b (r >>= k)
unfolding Limited Adds
Limited->>= udp b first c (halt why) k h g = tt
Limited->>= udp b first c (ok none) k h g = tt
Limited->>= udp b first c (ok (some a)) k (new, e) g = g a new e

le_or_lt : (a b : ℕ) → (a ≤ b) ⊎ (b < a)
le_or_lt a b = ground arith

ltb-false_le : (a b : ℕ) → ltb a b ≡ false → b ≤ a
ltb-false_le a b h = ground arith

-- The run keeps the length of the message.
Keeps : ℕ → Run (Option (List ℕ)) → Type 0
Keeps n (halt why) = Unit {0}
Keeps n (ok none) = Unit {0}
Keeps n (ok (some b)) = length b ≡ n

outside_read :
    (bytes : List ℕ) (i : ℕ) (k : ℕ → Run (Option (List ℕ)))
    → length bytes ≤ i
    → Keeps (length bytes) (whole (read bytes i) >>= k)
unfolding Keeps
outside_read bytes i k h =
    subst (λ r. Keeps (length bytes) (whole r >>= k)) (sym (read-outside bytes i h)) tt

Keeps-> :
    (n : ℕ) (r : Run (Option ℕ)) (k : ℕ → Run (Option (List ℕ)))
    → ((a : ℕ) → Keeps n (k a))
    → Keeps n (r >>= k)
unfolding Keeps
Keeps-> n (halt why) k g = tt
Keeps-> n (ok none) k g = tt
Keeps-> n (ok (some a)) k g = g a

length-put_int16 : (n : ℕ) → length (put_int16 n) ≡ 2
unfolding put_int16
length-put_int16 n = refl

length-put_int32 : (n : ℕ) → length (put_int32 n) ≡ 4
unfolding put_int32
length-put_int32 n = refl

count_record-Keeps :
    (sect : Section) (bytes : List ℕ) → Keeps (length bytes) (count_record sect bytes)
unfolding count_record Keeps
count_record-Keeps sect bytes = Keeps-> _ (whole (read bytes (count_at sect))) _ (λ hi.
    elim (le_or_lt (length bytes) (count_at sect + 1)) [
      | inl h ↦ outside_read bytes (count_at sect + 1) _ h
      | inr h ↦ Keeps-> _ (whole (read bytes (count_at sect + 1))) _ (λ lo. changed h hi lo)
    ])
  where
    changed :
        count_at sect + 1 < length bytes
        → (hi lo : ℕ)
        → Keeps
            (length bytes)
            (ok (some (patch (count_at sect) (put_int16 ((hi * 256 + lo + 1) % 65536)) bytes)))
    changed h hi lo =
        length-patch (count_at sect) (put_int16 ((hi * 256 + lo + 1) % 65536)) bytes
          (omega (arith, length-put_int16 ((hi * 256 + lo + 1) % 65536)))

Limited-count :
    (udp : ℕ) (b : List ℕ) (n : ℕ) (m : Reply) (r : Run (Option (List ℕ)))
    → Keeps n r
    → length b < n
    → n ≤ udp
    → Limited udp b (r >>= λ c. ok (some (record m { bytes = c })))
unfolding Limited Keeps
Limited-count udp b n m (halt why) k g h = tt
Limited-count udp b n m (ok none) k g h = tt
Limited-count udp b n m (ok (some c)) k g h = inr (omega (arith, k), omega (arith, k))

-- The head that finish_rr fills in.
abbrev head : ℕ → ℕ → ℕ → List ℕ
head type ttl rdlen = put_int16 type ++ (put_int16 1 ++ (put_int32 ttl ++ put_int16 rdlen))

length-head : (type ttl rdlen : ℕ) → length (head type ttl rdlen) ≡ 10
unfolding put_int16 put_int32
length-head type ttl rdlen = refl

pub finish_rr-Limited :
    (b : List ℕ) (rrht type ttl udp rdlen : ℕ) (m : Reply) (new : List ℕ)
    → m.bytes ≡ b ++ new
    → length b ≤ rrht
    → rrht + 10 ≤ length m.bytes
    → Limited udp b (finish_rr (length b) rrht type ttl additional (some udp) rdlen m)
unfolding finish_rr over_limit Limited
finish_rr-Limited b rrht type ttl udp rdlen m new e h g =
    elim (Bool-cases (ltb udp (length m.bytes))) [
      | inl t ↦ subst (λ o. Limited udp b (rest o)) (sym t) dropped
      | inr f ↦ subst (λ o. Limited udp b (rest o)) (sym f) (kept f)
    ]
  where
    rest : Bool → Run (Option Reply)
    rest over =
        if over
        then ok (some (record m { bytes = take (length b) m.bytes }))
        else (count_record additional (patch rrht (head type ttl rdlen) m.bytes) >>= λ c.
            ok (some (record m { bytes = c })))

    dropped : Limited udp b (ok (some (record m { bytes = take (length b) m.bytes })))
    dropped = inl (ap (take (length b)) e ∙ take-append b new)

    kept :
        ltb udp (length m.bytes) ≡ false
        → Limited udp b (
            count_record additional (patch rrht (head type ttl rdlen) m.bytes) >>= λ c.
            ok (some (record m { bytes = c })))
    kept f =
        Limited-count udp b (length (patch rrht (head type ttl rdlen) m.bytes)) m
          (count_record additional (patch rrht (head type ttl rdlen) m.bytes))
          (count_record-Keeps additional (patch rrht (head type ttl rdlen) m.bytes))
          (omega (
            arith,
            length-patch rrht (head type ttl rdlen) m.bytes
                (omega (arith, length-head type ttl rdlen)),
          ))
          (omega (
            arith,
            ltb-false_le udp (length m.bytes) f,
            length-patch rrht (head type ttl rdlen) m.bytes
                (omega (arith, length-head type ttl rdlen)),
          ))
