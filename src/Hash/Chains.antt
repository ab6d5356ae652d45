-- ===== src/Hash/Chains.antt =====
-- Lookup, insertion and deletion in a chain.
use orbot_library.Prelude.{
  ℕ, suc, ◌≡◌, ◌<◌, refl, ap, ◌∙◌, ◌⊎◌, inl, inr, List, [], ◌∷◌, Bool, true, false, none, some, ok,
  ◌>>=◌, arith, Bool-cases, leb, ◌==◌, Returns, All,
}
use orbot_library.Name.{rhnicmp}
use orbot_library.Hash.{HashEnt, lookup_chain, link_ent, unlink_ent, del_chain}

-- Each comparison of the key with a name of the chain returns.
abbrev pub Comparable : List ℕ → List HashEnt → Type 0
Comparable key = All (λ e. (same : Bool) × (rhnicmp key e.qname ≡ ok same))

-- What a miss at `pos` in a chain promises: the element of the key with its long hash can be linked
-- there, the next lookup finds it there, and deleting it by its place or by its name gives back the
-- chain.
pub record Miss (key : List ℕ) (rh cent : ℕ) (chain : List HashEnt) (pos : ℕ) : Type 0 where
  pub after : List HashEnt
  pub linked : link_ent pos (record { rhash = rh; qname = key; cent = cent }) chain ≡ ok after
  pub found : lookup_chain key rh after ≡ ok (some cent, pos)
  pub unlinked : unlink_ent pos after ≡ ok (cent, chain)
  pub deleted : del_chain key rh after ≡ ok (some cent, chain)

here :
    (key : List ℕ) (rh cent : ℕ) (chain : List HashEnt)
    → rhnicmp key key ≡ ok true
    → Miss key rh cent chain 0
unfolding lookup_chain link_ent unlink_ent del_chain
here key rh cent chain same = record {
  after = record { rhash = rh; qname = key; cent = cent } ∷ chain;
  linked = refl;
  found = simp (le_refl rh, eq_refl rh, same) refl;
  unlinked = refl;
  deleted = simp (le_refl rh, eq_refl rh, same) refl;
}
  where
    le_refl : (n : ℕ) → leb n n ≡ true
    le_refl n = ground arith

    eq_refl : (n : ℕ) → (n == n) ≡ true
    eq_refl n = ground arith

-- The loops go past an element.
pub record Passes (key : List ℕ) (rh : ℕ) (he : HashEnt) : Type 0 where
  pub looks :
      (x : List HashEnt)
      → lookup_chain key rh (he ∷ x) ≡ (lookup_chain key rh x >>= λ p. ok (p.0, suc p.1))
  pub deletes :
      (x : List HashEnt)
      → del_chain key rh (he ∷ x) ≡ (del_chain key rh x >>= λ p. ok (p.0, he ∷ p.1))
  pub differs : he.rhash ≡ rh → rhnicmp key he.qname ≡ ok false

-- At an element the lookup ends without success or with it, or goes on.
pub element-cases :
    (key : List ℕ) (rh : ℕ) (he : HashEnt) (same : Bool)
    → rhnicmp key he.qname ≡ ok same
    → ((rh < he.rhash) × ((x : List HashEnt) → lookup_chain key rh (he ∷ x) ≡ ok (none, 0)))
      ⊎ (((x : List HashEnt) → lookup_chain key rh (he ∷ x) ≡ ok (some he.cent, 0))
          ⊎ Passes key rh he)
unfolding lookup_chain del_chain
element-cases key rh he same e = elim (Bool-cases (leb he.rhash rh)) [
  | inr above ↦ inl (ground (arith, above), λ x. simp (above) refl)
  | inl below ↦ elim (Bool-cases (he.rhash == rh)) [
    | inr other ↦ inr (
        inr (record {
          looks = λ x. simp (below, other) refl;
          deletes = λ x. simp (below, other) refl;
          differs = λ eq. absurd (ground (arith, other, eq));
        }))
    | inl equal ↦ named same e below equal
  ]
]
  where
    named :
        (same : Bool)
        → rhnicmp key he.qname ≡ ok same
        → leb he.rhash rh ≡ true
        → (he.rhash == rh) ≡ true
        → ((rh < he.rhash) × ((x : List HashEnt) → lookup_chain key rh (he ∷ x) ≡ ok (none, 0)))
          ⊎ (((x : List HashEnt) → lookup_chain key rh (he ∷ x) ≡ ok (some he.cent, 0))
              ⊎ Passes key rh he)
    named true e below equal = inr (inl (λ x. simp (below, equal, e) refl))
    named false e below equal = inr (
        inr (record {
          looks = λ x. simp (below, equal, e) refl;
          deletes = λ x. simp (below, equal, e) refl;
          differs = λ _. e;
        }))

behind :
    (key : List ℕ) (rh cent : ℕ) (he : HashEnt) (chain : List HashEnt) (pos : ℕ)
    → Passes key rh he
    → Miss key rh cent chain pos
    → Miss key rh cent (he ∷ chain) (suc pos)
unfolding link_ent unlink_ent
behind key rh cent he chain pos p m = record {
  after = he ∷ m.after;
  linked = ap (λ r. r >>= λ l. ok (he ∷ l)) m.linked;
  found = p.looks m.after ∙ ap (λ r. r >>= λ q. ok (q.0, suc q.1)) m.found;
  unlinked = ap (λ r. r >>= λ q. ok (q.0, he ∷ q.1)) m.unlinked;
  deleted = p.deletes m.after ∙ ap (λ r. r >>= λ q. ok (q.0, he ∷ q.1)) m.deleted;
}

-- Where the comparisons of the key with the names of a chain return, and the key is the same as
-- itself, the loop of dns_lookup returns. Where it finds nothing, an entry of the key can be linked
-- at the place where it ended; the next lookup then finds that entry at that place, and unlinking
-- the place, or deleting by the key, gives back that entry and the chain as it was.
pub lookup_chain-Miss :
    (key : List ℕ) (rh cent : ℕ) (chain : List HashEnt)
    → rhnicmp key key ≡ ok true
    → Comparable key chain
    → Returns (lookup_chain key rh chain) (λ p. p.0 ≡ none → Miss key rh cent chain p.1)
unfolding lookup_chain
lookup_chain-Miss key rh cent [] self c = ((none, 0), refl, λ _. here key rh cent [] self)
lookup_chain-Miss key rh cent (he ∷ chain) self ((same, e), c) =
    let (p, run, m) = lookup_chain-Miss key rh cent chain self c in
    elim (element-cases key rh he same e) [
      | inl (_, ends) ↦ ((none, 0), ends chain, λ _. here key rh cent (he ∷ chain) self)
      | inr (inl finds) ↦ ((some he.cent, 0), finds chain, λ h. cc)
      | inr (inr passes) ↦ (
        (p.0, suc p.1),
        passes.looks chain ∙ ap (λ r. r >>= λ q. ok (q.0, suc q.1)) run,
        λ h. behind key rh cent he chain p.1 passes (m h),
      )
    ]
