-- ===== src/Answer/Pseudo.antt =====
-- The length of a message with the OPT pseudo RR of add_opt_pseudo_rr in pdnsd/src/dns_answer.c.
use orbot_library.Prelude.{
  ℕ, zero, suc, ◌+◌, ◌%◌, ◌/◌, ◌<◌, ◌≤◌, ◌≡◌, ◌⊎◌, inl, inr, refl, ap, ◌∙◌, sym, subst, List, [],
  ◌∷◌, ◌++◌, Bool, true, false, ◌==◌, ◌||◌, ltb, if◌then◌else◌, Option, none, some, Run, ok, halt,
  write, length, arith, length-append, Bool-cases,
}
use orbot_library.Prelude
use orbot_library.Header.{put_int16, get_int16}
use orbot_library.Query.Opt.{set_arcount, opt_bytes, put_opt}

-- The run gives a list of `n` bytes.
HasLength : ℕ → Run (List ℕ) → Type 0
HasLength n (halt why) = Unit {0}
HasLength n (ok b) = length b ≡ n

write-HasLength : (xs : List ℕ) (i v : ℕ) → HasLength (length xs) (write xs i v)
unfolding write HasLength
write-HasLength [] i v = tt
write-HasLength (x ∷ xs) zero v = refl
write-HasLength (x ∷ xs) (suc i) v = behind (write xs i v) (write-HasLength xs i v)
  where
    behind :
        (r : Run (List ℕ))
        → HasLength (length xs) r
        → HasLength (suc (length xs)) (Prelude.◌>>=◌ r (λ w. ok (x ∷ w)))
    behind (halt why) h = tt
    behind (ok w) h = ap suc h

set_arcount-HasLength : (ans : List ℕ) (n : ℕ) → HasLength (length ans) (set_arcount ans n)
unfolding set_arcount HasLength
set_arcount-HasLength ans n =
    second (write ans 10 (n / 256 % 256)) (write-HasLength ans 10 (n / 256 % 256))
  where
    second :
        (r : Run (List ℕ))
        → HasLength (length ans) r
        → HasLength (length ans) (Prelude.◌>>=◌ r (λ a. write a 11 (n % 256)))
    second (halt why) h = tt
    second (ok a) h =
        subst (λ k. HasLength k (write a 11 (n % 256))) h (write-HasLength a 11 (n % 256))

-- The run of add_opt_pseudo_rr adds `k` bytes.
unfoldable pub Extends : ℕ → ℕ → Run (Option (List ℕ × ℕ)) → Type 0
Extends n k (halt why) = Unit {0}
Extends n k (ok none) = Unit {0}
Extends n k (ok (some a)) = length a.0 ≡ n + k

pub put_opt-Extends :
    (ans opt : List ℕ) (sz : Option ℕ) → Extends (length ans) (length opt) (put_opt ans opt sz)
unfolding put_opt Extends HasLength
put_opt-Extends ans opt none = tt
put_opt-Extends ans opt (some sz) = counted (get_int16 ans 10)
  where
    stored :
        (r : Run (List ℕ))
        → HasLength (length (ans ++ opt)) r
        → Extends (length ans) (length opt) (Prelude.◌>>=◌ r (λ a. ok (some (a, sz))))
    stored (halt why) h = tt
    stored (ok a) h = h ∙ length-append ans opt

    counted :
        (r : Run ℕ)
        → Extends (length ans) (length opt) (
            Prelude.◌>>=◌ r (λ n.
              Prelude.◌>>=◌ (set_arcount (ans ++ opt) ((n + 1) % 65536)) (λ a. ok (some (a, sz)))))
    counted (halt why) = tt
    counted (ok n) =
        stored (set_arcount (ans ++ opt) ((n + 1) % 65536))
          (set_arcount-HasLength (ans ++ opt) ((n + 1) % 65536))

pub length-opt_bytes : (u r e f : ℕ) → length (opt_bytes u r e f) ≡ 11
unfolding opt_bytes put_int16
length-opt_bytes u r e f = refl
