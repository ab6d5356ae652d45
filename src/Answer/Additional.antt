-- ===== src/Answer/Additional.antt =====
-- The additional section of an answer over UDP, in pdnsd/src/dns_answer.c.
use orbot_library.Prelude.{
  ℕ, ◌≤◌, ◌≡◌, inl, inr, ap, sym, subst, List, [], ◌∷◌, Bool, true, false, if◌then◌else◌, Option,
  none, some, Run, ok, halt, length, arith,
}
use orbot_library.Cent.{Sizeof, RrBucket, RrSet, Cent}
use orbot_library.Cache.{Store}
use orbot_library.Cache.Purges.{get_rrsmu}
use orbot_library.Cache.Lookup.{Found, lookup_cache}
use orbot_library.Cent.Conflicts.Lifetimes.{ans_ttl}
use orbot_library.Answer.{Reply, additional, ◌>>=◌, whole, add_rr}
use orbot_library.Answer.Rounds.{each, visit}
use orbot_library.Answer.Rotation.{visit-in_order, in_order}
use orbot_library.Answer.Sets.{
  Draft, Client, is_added, sva_add, add_additional_rr, add_additional_rrs, add_addresses, beside,
  add_additional_a,
}
use orbot_library.Answer.Bounds.{Limited}
use orbot_library.Answer.Growth.{add_rr-Limited}

-- The message is within the limit, if the run goes on.
unfoldable pub Within {ℓ} : {A : Type ℓ} → (A → Draft) → ℕ → Run (Option A) → Type 0
Within draft udp (halt why) = Unit {0}
Within draft udp (ok none) = Unit {0}
Within draft udp (ok (some a)) = length (draft a).ans.bytes ≤ udp

abbrev pub itself : Draft → Draft
itself d = d

module _ {κ} {B : Type κ} (draft : B → Draft) (udp : ℕ) where
  pub Within-reading {ℓ} :
      {A : Type ℓ} (r : Run (Option A)) (k : A → Run (Option B))
      → ((a : A) → Within draft udp (k a))
      → Within draft udp (r >>= k)
  unfolding Within
  Within-reading (halt why) k g = tt
  Within-reading (ok none) k g = tt
  Within-reading (ok (some a)) k g = g a

  pub Within->>= {ℓ} :
      {A : Type ℓ} (first : A → Draft) (r : Run (Option A)) (k : A → Run (Option B))
      → Within first udp r
      → ((a : A) → length (first a).ans.bytes ≤ udp → Within draft udp (k a))
      → Within draft udp (r >>= k)
  unfolding Within
  Within->>= first (halt why) k h g = tt
  Within->>= first (ok none) k h g = tt
  Within->>= first (ok (some a)) k h g = g a h

  Within-add :
      (b : List ℕ) (r : Run (Option Reply)) (k : Reply → Run (Option B))
      → Limited udp b r
      → length b ≤ udp
      → ((m : Reply) → length m.bytes ≤ udp → Within draft udp (k m))
      → Within draft udp (r >>= k)
  unfolding Within Limited
  Within-add b (halt why) k h i g = tt
  Within-add b (ok none) k h i g = tt
  Within-add b (ok (some m)) k (inl same) i g = g m (omega (arith, ap length same))
  Within-add b (ok (some m)) k (inr (l, most)) i g = g m most

add_additional_rr-Within :
    (room : Bool) (udp : ℕ) (rhn : List ℕ) (tp ttl : ℕ) (rr : RrBucket) (d : Draft)
    → length d.ans.bytes ≤ udp
    → Within itself udp (add_additional_rr room (some udp) rhn tp ttl rr additional d)
unfolding add_additional_rr Within
add_additional_rr-Within room udp rhn tp ttl rr d h =
    Within-reading itself udp (is_added rhn tp rr.rdlen rr.rdata d.sva) _ (λ found. branches found)
  where
    branches :
        (found : Bool)
        → Within itself udp (
            if found
            then ok (some d)
            else (add_rr room rhn tp ttl rr.rdlen rr.rdata additional (some udp) d.ans >>= λ ans.
                sva_add room rhn tp rr.rdlen rr.rdata d.sva >>= λ sva.
                ok (some (record d { ans = ans; sva = sva }))))
    branches true = h
    branches false =
        Within-add itself udp d.ans.bytes
          (add_rr room rhn tp ttl rr.rdlen rr.rdata additional (some udp) d.ans) _
          (add_rr-Limited room rhn tp ttl rr.rdlen rr.rdata udp d.ans) h
          (λ m i.
            Within-reading itself udp (sva_add room rhn tp rr.rdlen rr.rdata d.sva) _ (λ sva. i))

each-Within :
    {A : Type 0} (udp : ℕ) (body : A → Draft → Run (Option Draft))
    → ((x : A) (d : Draft) → length d.ans.bytes ≤ udp → Within itself udp (body x d))
    → (xs : List A) (d : Draft) → length d.ans.bytes ≤ udp
    → Within itself udp (each body xs d)
unfolding each Within
each-Within udp body step [] d h = h
each-Within udp body step (x ∷ xs) d h =
    Within->>= itself udp itself (body x d) _ (step x d h)
      (λ d2 i. each-Within udp body step xs d2 i)

visit-Within :
    {A : Type 0} (udp : ℕ) (body : A → Draft → Run (Option Draft))
    → ((x : A) (d : Draft) → length d.ans.bytes ≤ udp → Within itself udp (body x d))
    → (rnd_recs : Bool) (random : ℕ) (rrs : List A) (d : Draft) → length d.ans.bytes ≤ udp
    → Within itself udp (visit rnd_recs random body rrs d)
visit-Within udp body step rnd_recs random rrs d h =
    subst (Within itself udp) (sym (visit-in_order body rnd_recs random rrs d))
      (each-Within udp body step (in_order rnd_recs random rrs) d h)

add_addresses-Within :
    (room : Bool) (q : Client) (udp : ℕ) (rhn : List ℕ) (tp i : ℕ) (ae : Cent) (d : Draft)
    → q.udp ≡ some udp
    → length d.ans.bytes ≤ udp
    → Within itself udp (add_addresses room q rhn tp i ae d)
unfolding add_addresses add_additional_rrs Within
add_addresses-Within room q udp rhn tp i ae d e h =
    Within-reading itself udp (whole (get_rrsmu ae i)) _ found
  where
    adds :
        (ttl : ℕ) (x : RrBucket) (d2 : Draft)
        → length d2.ans.bytes ≤ udp
        → Within itself udp (add_additional_rr room q.udp rhn tp ttl x additional d2)
    adds ttl x d2 g =
        subst (λ u. Within itself udp (add_additional_rr room u rhn tp ttl x additional d2)) (sym e)
          (add_additional_rr-Within room udp rhn tp ttl x d2 g)

    found :
        (s : Option RrSet)
        → Within itself udp (elim s as (λ _. Run (Option Draft)) [
          | none ↦ ok (some d)
          | some rrset ↦
              add_additional_rrs room q rhn tp (ans_ttl rrset q.queryts) rrset.rrs additional d
        ])
    found none = h
    found (some rrset) =
        visit-Within udp
          (λ rr. add_additional_rr room q.udp rhn tp (ans_ttl rrset q.queryts) rr additional)
          (adds (ans_ttl rrset q.queryts)) q.rnd_recs (q.random tp) rrset.rrs d h

-- The same of a run that gives the cache as well.
unfoldable pub Fits : ℕ → Run (Store × Option Draft) → Type 0
Fits udp (halt why) = Unit {0}
Fits udp (ok (s, none)) = Unit {0}
Fits udp (ok (s, some d)) = length d.ans.bytes ≤ udp

beside-Fits :
    (udp : ℕ) (s : Store) (r : Run (Option Draft)) → Within itself udp r → Fits udp (beside s r)
unfolding Within Fits beside
beside-Fits udp s (halt why) h = tt
beside-Fits udp s (ok none) h = tt
beside-Fits udp s (ok (some d)) h = h

pub add_additional_a-Fits :
    (z : Sizeof) (now : ℕ) (room : Bool) (q : Client) (udp : ℕ) (rhn : List ℕ)
    (others : Store → Store) (s : Store) (d : Draft)
    → q.udp ≡ some udp
    → length d.ans.bytes ≤ udp
    → Fits udp (add_additional_a z now room q rhn others s d)
unfolding add_additional_a Fits
add_additional_a-Fits z now room q udp rhn others s d e h =
    looked (lookup_cache z now rhn false others s)
  where
    adds :
        (ae : Cent)
        → Within itself udp
            (add_addresses room q rhn 1 0 ae d >>= λ d1. add_addresses room q rhn 28 7 ae d1)
    adds ae =
        Within->>= itself udp itself (add_addresses room q rhn 1 0 ae d) _
          (add_addresses-Within room q udp rhn 1 0 ae d e h)
          (λ d1 i. add_addresses-Within room q udp rhn 28 7 ae d1 e i)

    found :
        (r : Found × Store) (ret : Option Cent)
        → Fits udp (elim ret as (λ _. Run (Store × Option Draft)) [
          | none ↦ ok (r.1, some d)
          | some ae ↦
              beside r.1
                (add_addresses room q rhn 1 0 ae d >>= λ d1. add_addresses room q rhn 28 7 ae d1)
        ])
    found r none = h
    found r (some ae) = beside-Fits udp r.1 _ (adds ae)

    looked :
        (run : Run (Found × Store))
        → Fits udp (elim run as (λ _. Run (Store × Option Draft)) [
          | halt why ↦ halt why
          | ok r ↦ elim r.0.ret as (λ _. Run (Store × Option Draft)) [
            | none ↦ ok (r.1, some d)
            | some ae ↦
                beside r.1
                  (add_addresses room q rhn 1 0 ae d >>= λ d1. add_addresses room q rhn 28 7 ae d1)
          ]
        ])
    looked (halt why) = tt
    looked (ok r) = found r r.0.ret
