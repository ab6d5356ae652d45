-- ===== src/Hash/Order.antt =====
-- The order of the chains, in which the loop of dns_lookup stops before the end.
use orbot_library.Prelude.{
  ℕ, suc, ◌<◌, ◌≤◌, ◌≡◌, refl, ap, ◌∙◌, inl, inr, List, [], ◌∷◌, false, none, some, ok, ◌>>=◌,
  arith, Returns, All,
}
use orbot_library.Name.{rhnicmp}
use orbot_library.Hash.{HashEnt, lookup_chain}
use orbot_library.Hash.Chains.{Comparable, element-cases}

-- Each element has a long hash that is not above those behind it.
abbrev pub IsAscending : List HashEnt → Type 0
IsAscending [] = Unit
IsAscending (e ∷ chain) = All (λ f. e.rhash ≤ f.rhash) chain × IsAscending chain

-- No element is the key's.
abbrev pub Absent : List ℕ → ℕ → List HashEnt → Type 0
Absent key rh = All (λ e. e.rhash ≡ rh → rhnicmp key e.qname ≡ ok false)

above-Absent :
    (key : List ℕ) (rh low : ℕ) (chain : List HashEnt)
    → rh < low
    → All (λ f. low ≤ f.rhash) chain
    → Absent key rh chain
above-Absent key rh low [] h a = _
above-Absent key rh low (e ∷ chain) h (b, a) =
    (λ eq. absurd (omega (arith, h, b, eq)), above-Absent key rh low chain h a)

-- In a chain in the order of the long hashes, where the comparisons of the key return, the loop of
-- dns_lookup returns, and where it finds nothing no element of the chain has the long hash and the
-- name of the key, though the loop has stopped at the first larger hash.
pub lookup_chain-Absent :
    (key : List ℕ) (rh : ℕ) (chain : List HashEnt)
    → IsAscending chain
    → Comparable key chain
    → Returns (lookup_chain key rh chain) (λ p. p.0 ≡ none → Absent key rh chain)
unfolding lookup_chain
lookup_chain-Absent key rh [] a c = ((none, 0), refl, λ _. _)
lookup_chain-Absent key rh (he ∷ chain) (low, a) ((same, e), c) =
    let (p, run, m) = lookup_chain-Absent key rh chain a c in
    elim (element-cases key rh he same e) [
      | inl (above, ends) ↦ (
        (none, 0),
        ends chain,
        λ _.
            (λ eq. absurd (omega (arith, above, eq)), above-Absent key rh he.rhash chain above low),
      )
      | inr (inl finds) ↦ ((some he.cent, 0), finds chain, λ h. cc)
      | inr (inr passes) ↦ (
        (p.0, suc p.1),
        passes.looks chain ∙ ap (λ r. r >>= λ q. ok (q.0, suc q.1)) run,
        λ h. (passes.differs, m h),
      )
    ]
