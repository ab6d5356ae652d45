-- ===== src/Answer/Growth.antt =====
-- What add_rr of pdnsd/src/dns_answer.c makes of an answer that has a limit.
use orbot_library.Prelude.{
  ℕ, ◌+◌, ◌≡◌, refl, ap, ◌∙◌, List, ◌++◌, Bool, true, false, ◌==◌, ltb, if◌then◌else◌, Option, none,
  some, Run, ok, halt, out_of_bounds, length, replicate, arith, length-append, append_assoc,
}
use orbot_library.Compress.{Compel, compress_name}
use orbot_library.Query.Opt.{grow_message}
use orbot_library.Answer.{Reply, additional, ◌>>=◌, whole, put_bytes, put_data, make_room, add_rr}
use orbot_library.Answer.Limits.{with_it, put_data-Adds}
use orbot_library.Answer.Bounds.{Limited, Limited->, Limited->>=, finish_rr-Limited}

Limited-put :
    (udp : ℕ) (b new : List ℕ) (m : Reply) (k : Reply → Run (Option Reply))
    → ((m2 : Reply) → m2.bytes ≡ m.bytes ++ new → Limited udp b (k m2))
    → Limited udp b (put_bytes new m >>= k)
unfolding put_bytes Limited
Limited-put udp b new m k g = go (ltb m.allocsz (2 + length m.bytes + length new))
  where
    go :
        (c : Bool)
        → Limited udp b (
            (if c then halt out_of_bounds else ok (some (record m { bytes = m.bytes ++ new })))
            >>= k)
    go true = tt
    go false = g (record m { bytes = m.bytes ++ new }) refl

Limited-room :
    (udp : ℕ) (b : List ℕ) (room : Bool) (nlen dlen : ℕ) (m : Reply)
    (k : Reply → Run (Option Reply))
    → ((m2 : Reply) → m2.bytes ≡ m.bytes → Limited udp b (k m2))
    → Limited udp b (make_room room nlen dlen m >>= k)
unfolding make_room Limited
Limited-room udp b room nlen dlen m k g =
    elim (grow_message room (2 + length m.bytes + nlen + 10 + dlen) m.allocsz)
      as (λ o. Limited udp b (
        elim o as (λ _. Run (Option Reply)) [
          | none ↦ ok none
          | some n ↦ ok (some (record m { allocsz = n }))
        ]
        >>= k)) [ none ↦ tt | some n ↦ g (record m { allocsz = n }) refl ]

Limited-if :
    (udp : ℕ) (b : List ℕ) (c : Bool) (r q : Run (Option Reply))
    → Limited udp b r
    → Limited udp b q
    → Limited udp b (if c then r else q)
Limited-if udp b true r q h g = h
Limited-if udp b false r q h g = g

chained :
    (a b x c y d z e : List ℕ)
    → b ≡ a
    → c ≡ b ++ x
    → d ≡ c ++ y
    → e ≡ d ++ z
    → e ≡ a ++ (x ++ (y ++ z))
chained a b x c y d z e p q r t =
    t
    ∙ ap (λ w. w ++ z) (r ∙ ap (λ w. w ++ y) (q ∙ ap (λ w. w ++ x) p))
    ∙ append_assoc (a ++ x) y z
    ∙ append_assoc a x (y ++ z)

longer : (c b x : List ℕ) → c ≡ b ++ x → length c ≡ length b + length x
longer c b x e = ap length e ∙ length-append b x

-- With a limit of UDP, add_rr adds no record to the additional section, or one with which the message
-- is within the limit.
pub add_rr-Limited :
    (room : Bool) (rrn : List ℕ) (type ttl dlen : ℕ) (data_ : List ℕ) (udp : ℕ) (m : Reply)
    → Limited udp m.bytes (add_rr room rrn type ttl dlen data_ additional (some udp) m)
unfolding add_rr Limited
add_rr-Limited room rrn type ttl dlen data_ udp m =
    Limited-> udp b (whole (compress_name room rrn (length m.bytes) m.cb)) _
      (λ (n : ℕ × (List ℕ × List Compel)). Limited-if udp b (n.0 == 0) (ok none) _ (nothing) (
        Limited-room udp b room n.0 dlen (record m { cb = n.1.1 }) _
          (λ m1 e1. Limited-put udp b n.1.0 m1 _ (λ m2 e2.
            Limited-put udp b (replicate 10 0) m2 _ (λ m3 e3.
              Limited->>= udp b with_it m3.bytes (put_data room type data_ dlen m3) _
                (put_data-Adds room type data_ dlen m3)
                (λ r new e4.
                  finish_rr-Limited b (length m2.bytes) type ttl udp r.0 r.1
                    (n.1.0 ++ (replicate 10 0 ++ new))
                    (chained b m1.bytes n.1.0 m2.bytes (replicate 10 0) m3.bytes new r.1.bytes e1 e2
                      e3 e4)
                    (omega (arith, ap length e1, longer m2.bytes m1.bytes n.1.0 e2))
                    (omega (
                      arith,
                      longer m3.bytes m2.bytes (replicate 10 0) e3,
                      longer r.1.bytes m3.bytes new e4,
                    ))))))))
  where
    b : List ℕ
    b = m.bytes

    nothing : Limited udp b (ok none)
    nothing = tt
