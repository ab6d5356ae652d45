-- ===== src/Answer/Ending.antt =====
-- The additional section of compose_answer in pdnsd/src/dns_answer.c, and the limit of UDP.
use orbot_library.Prelude.{
  ℕ, ◌+◌, ◌≤◌, ◌≡◌, ◌⊎◌, inl, inr, refl, sym, subst, List, [], ◌∷◌, Bool, true, false, ◌==◌, ◌||◌,
  ltb, if◌then◌else◌, Option, none, some, Run, ok, halt, length, arith, Bool-cases,
}
use orbot_library.Query.Opt.{grow_message, opt_bytes, put_opt, add_opt_pseudo_rr}
use orbot_library.Cent.{Sizeof}
use orbot_library.Cache.{Store}
use orbot_library.Answer.{whole, ◌>>=◌}
use orbot_library.Answer.Sets.{Draft, Client, RrExt, add_additional_a}
use orbot_library.Answer.Additional.{Within, itself, Fits, add_additional_a-Fits}
use orbot_library.Answer.Pseudo.{Extends, put_opt-Extends, length-opt_bytes}
use orbot_library.Answer.Compose.{no_space, add_edns, cache_then, add_names, add_extras}

add_edns-Within :
    (room : Bool) (udpbufsize : ℕ) (ednsinfo : Bool) (d : Draft) (udp : ℕ)
    → length d.ans.bytes + 11 ≤ udp
    → Within itself udp (add_edns room udpbufsize ednsinfo d)
unfolding add_edns Within add_opt_pseudo_rr Extends
add_edns-Within room udpbufsize false d udp h = omega arith
add_edns-Within room udpbufsize true d udp h =
    added
      (put_opt d.ans.bytes (opt_bytes udpbufsize 0 0 0)
        (grow_message room (2 + length d.ans.bytes + 11) d.ans.allocsz))
      (put_opt-Extends d.ans.bytes (opt_bytes udpbufsize 0 0 0)
        (grow_message room (2 + length d.ans.bytes + 11) d.ans.allocsz))
  where
    added :
        (r : Run (Option (List ℕ × ℕ)))
        → Extends (length d.ans.bytes) (length (opt_bytes udpbufsize 0 0 0)) r
        → Within itself udp (
            whole r >>= λ o. elim o as (λ _. Run (Option Draft)) [
              | none ↦ ok none
              | some a ↦
                  ok
                    (some (record d { ans = record { bytes = a.0; allocsz = a.1; cb = d.ans.cb } }))
            ])
    added (halt why) e = tt
    added (ok none) e = tt
    added (ok (some a)) e = omega (arith, e, length-opt_bytes udpbufsize 0 0 0)

cache_then-Fits :
    (udp : ℕ) (r : Run (Store × Option Draft)) (k : Store → Draft → Run (Store × Option Draft))
    → Fits udp r
    → ((s : Store) (d : Draft) → length d.ans.bytes ≤ udp → Fits udp (k s d))
    → Fits udp (cache_then r k)
unfolding cache_then Fits
cache_then-Fits udp (halt why) k h g = tt
cache_then-Fits udp (ok (s, none)) k h g = tt
cache_then-Fits udp (ok (s, some d)) k h g = g s d h

module _ (z : Sizeof) (now : ℕ) (room : Bool) (q : Client) (udp : ℕ) (others : ℕ → Store → Store)
    (e : q.udp ≡ some udp) where
  round-Fits :
      (rre : RrExt) (n : ℕ) (c : Bool) (s : Store) (d : Draft)
      → length d.ans.bytes ≤ udp
      → Fits udp
          (if c then add_additional_a z now room q rre.tnm (others n) s d else ok (s, some d))
  unfolding Fits
  round-Fits rre n true s d h = add_additional_a-Fits z now room q udp rre.tnm (others n) s d e h
  round-Fits rre n false s d h = h

  add_names-Fits :
      (ar : List RrExt) (s : Store) (d : Draft)
      → length d.ans.bytes ≤ udp
      → Fits udp (add_names z now room q others ar s d)
  unfolding add_names Fits
  add_names-Fits [] s d h = h
  add_names-Fits (rre ∷ ar) s d h =
      cache_then-Fits udp _ (add_names z now room q others ar)
        (round-Fits rre (length ar) (rre.tp == 2 || rre.tp == 0) s d h)
        (λ s2 d2 i. add_names-Fits ar s2 d2 i)

-- A message that stays, or one within the limit.
Capped : ℕ → List ℕ → Run (Store × Option Draft) → Type 0
Capped udp b (halt why) = Unit {0}
Capped udp b (ok (s, none)) = Unit {0}
Capped udp b (ok (s, some d)) = (d.ans.bytes ≡ b) ⊎ (length d.ans.bytes ≤ udp)

Fits-Capped : (udp : ℕ) (b : List ℕ) (r : Run (Store × Option Draft)) → Fits udp r → Capped udp b r
unfolding Fits Capped
Fits-Capped udp b (halt why) h = tt
Fits-Capped udp b (ok (s, none)) h = tt
Fits-Capped udp b (ok (s, some d)) h = inr h

add_extras-Capped :
    (z : Sizeof) (now : ℕ) (room : Bool) (q : Client) (udpbufsize : ℕ) (ednsinfo : Bool)
    (others : ℕ → Store → Store) (s : Store) (d : Draft) (udp : ℕ)
    → q.udp ≡ some udp
    → Capped udp d.ans.bytes (add_extras z now room q udpbufsize ednsinfo others s d)
unfolding add_extras Capped Within no_space
add_extras-Capped z now room q udpbufsize ednsinfo others s d udp e =
    subst (λ u. Capped udp d.ans.bytes (whole_section (no_space u (length d.ans.bytes)))) (sym e)
      (elim (Bool-cases (ltb udp (length d.ans.bytes + 11))) [
        | inl t ↦ subst (λ c. Capped udp d.ans.bytes (whole_section c)) (sym t) (inl refl)
        | inr f ↦
            subst (λ c. Capped udp d.ans.bytes (whole_section c)) (sym f)
              (names (add_edns room udpbufsize ednsinfo d) (
                add_edns-Within room udpbufsize ednsinfo d udp
                  (at_most udp (length d.ans.bytes + 11) f)))
      ])
  where
    at_most : (a b : ℕ) → ltb a b ≡ false → b ≤ a
    at_most a b h = ground arith

    after : Run (Option Draft) → Run (Store × Option Draft)
    after r = elim r [
      | halt why ↦ halt why
      | ok none ↦ ok (s, none)
      | ok (some d2) ↦ add_names z now room q others d2.ar s d2
    ]

    whole_section : Bool → Run (Store × Option Draft)
    whole_section c = if c then ok (s, some d) else after (add_edns room udpbufsize ednsinfo d)

    names : (r : Run (Option Draft)) → Within itself udp r → Capped udp d.ans.bytes (after r)
    names (halt why) h = tt
    names (ok none) h = tt
    names (ok (some d2)) h =
        Fits-Capped udp d.ans.bytes _ (add_names-Fits z now room q udp others e d2.ar s d2 h)

-- Where the answer has a limit of UDP, the additional section, with its pseudo RR and whatever the
-- records that ask for names, the cache and the changes of other threads to it, leaves the message as
-- it is or within the limit, when it does not fail.
pub add_extras-limit :
    (z : Sizeof) (now : ℕ) (room : Bool) (q : Client) (udpbufsize : ℕ) (ednsinfo : Bool)
    (others : ℕ → Store → Store) (s : Store) (d : Draft) (udp : ℕ) (s2 : Store) (d2 : Draft)
    → q.udp ≡ some udp
    → add_extras z now room q udpbufsize ednsinfo others s d ≡ ok (s2, some d2)
    → (d2.ans.bytes ≡ d.ans.bytes) ⊎ (length d2.ans.bytes ≤ udp)
unfolding Capped
add_extras-limit z now room q udpbufsize ednsinfo others s d udp s2 d2 e run =
    subst (Capped udp d.ans.bytes) run
      (add_extras-Capped z now room q udpbufsize ednsinfo others s d udp e)
