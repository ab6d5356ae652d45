-- ===== src/Answer/Rounds.antt =====
-- The loops of pdnsd/src/dns_answer.c over the records of an RR set, from a random one on.
use orbot_library.Prelude.{
  ℕ, zero, suc, ◌%◌, List, [], ◌∷◌, Bool, true, false, ◌==◌, if◌then◌else◌, Option, some, Run, ok,
  halt, no_fuel, length, drop,
}
use orbot_library.Answer.{◌>>=◌}

-- randrr: the records from the chosen one on, where `random` is what random() gives.
unfoldable pub randrr {ℓ} : {A : Type ℓ} → ℕ → List A → List A
randrr random [] = []
randrr random (x ∷ xs) = drop (random % length (x ∷ xs)) (x ∷ xs)

-- The rest of the chain behind a record, with the wraparound to the whole chain.
unfoldable pub wrapped {ℓ} : {A : Type ℓ} → List A → List A → List A
wrapped rrs [] = rrs
wrapped rrs (x ∷ xs) = x ∷ xs

-- The loop of add_rrset and add_additional_rrs over the records with wraparound, from `rest` on.
-- The record `first` is known by the number of records from it to the end of the chain.
unfoldable pub around {ℓ κ} :
    {A : Type ℓ} {S : Type κ}
    → (A → S → Run (Option S))
    → ℕ
    → List A
    → ℕ
    → List A
    → S
    → Run (Option S)
unfolding wrapped
around body fuel rrs first [] s = ok (some s)
around body zero rrs first (x ∷ xs) s = halt no_fuel
around body (suc fuel) rrs first (x ∷ xs) s = body x s >>= λ s2.
    elim (length (wrapped rrs xs) == first) [
      | true ↦ ok (some s2)
      | false ↦ around body fuel rrs first (wrapped rrs xs) s2
    ]

-- The loop without wraparound.
unfoldable pub each {ℓ κ} :
    {A : Type ℓ} {S : Type κ} → (A → S → Run (Option S)) → List A → S → Run (Option S)
each body [] s = ok (some s)
each body (x ∷ xs) s = body x s >>= λ s2. each body xs s2

-- The whole loop, where `rnd_recs` is that of the configuration.
unfoldable pub visit {ℓ κ} :
    {A : Type ℓ} {S : Type κ} → Bool → ℕ → (A → S → Run (Option S)) → List A → S → Run (Option S)
unfolding randrr around each
visit rnd_recs random body rrs s =
    if rnd_recs
    then around body (length rrs) rrs (length (randrr random rrs)) (randrr random rrs) s
    else each body rrs s
