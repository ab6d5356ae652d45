-- ===== src/Cent/Conflicts/Lifetimes.antt =====
-- adjust_ttl and adjust_dom_ttl of pdnsd/src/cache.c, and ans_ttl of pdnsd/src/dns_answer.c.
use orbot_library.Prelude.{
  ℕ, ◌+◌, ◌-◌, ◌*◌, ◌/◌, ◌%◌, ◌≤◌, ◌≡◌, refl, Bool, true, false, ◌&&◌, not, ltb, ◌==◌,
  if◌then◌else◌, arith, Bool-cases, inl, inr,
}
use orbot_library.RrList.{is_local}
use orbot_library.Cent.{RrSet, Cent, is_negative}

-- global.min_ttl, global.neg_ttl and global.max_ttl.
pub record Ttls : Type 0 where
  pub min_ttl : ℕ
  pub neg_ttl : ℕ
  pub max_ttl : ℕ

-- CF_NOCACHE and DF_NOCACHE.
unfoldable pub is_nocache : ℕ → Bool
is_nocache flags = flags / 8 % 2 == 1

unfoldable pub clear_nocache : ℕ → ℕ
clear_nocache flags = flags - flags / 8 % 2 * 8

-- The least time to live of a negative set or entry, and of another.
unfoldable pub least_ttl : Ttls → Bool → ℕ
least_ttl g negative = if negative && ltb g.neg_ttl g.min_ttl then g.neg_ttl else g.min_ttl

-- The tests against the least and the largest time to live.
unfoldable pub bounded_ttl : Ttls → ℕ → ℕ → ℕ
bounded_ttl g least ttl =
    if ltb ttl least then least else if ltb g.max_ttl ttl then g.max_ttl else ttl

unfoldable pub adjust_ttl : Ttls → RrSet → RrSet
adjust_ttl g rrset =
    if is_nocache rrset.flags
    then record rrset { flags = clear_nocache rrset.flags; ttl = 0 }
    else record rrset { ttl = bounded_ttl g (least_ttl g (is_negative rrset.flags)) rrset.ttl }

unfoldable pub adjust_dom_ttl : Ttls → Cent → Cent
adjust_dom_ttl g c =
    if is_nocache c.flags
    then record c { flags = clear_nocache c.flags; neg_ttl = 0 }
    else record c { neg_ttl = bounded_ttl g (least_ttl g true) c.neg_ttl }

-- ans_ttl; the time that has passed is not below 0, nor is the result.
unfoldable pub ans_ttl : RrSet → ℕ → ℕ
ans_ttl rrset queryts =
    if not (is_local rrset.flags) then rrset.ttl - (queryts - rrset.ts) else rrset.ttl

bounded_ttl-most :
    (g : Ttls) (n : Bool) (ttl : ℕ)
    → g.min_ttl ≤ g.max_ttl
    → bounded_ttl g (least_ttl g n) ttl ≤ g.max_ttl
unfolding bounded_ttl least_ttl
bounded_ttl-most g n ttl h = ground arith

adjusted :
    (g : Ttls) (rrset : RrSet)
    → g.min_ttl ≤ g.max_ttl
    → ((adjust_ttl g rrset).ttl ≤ g.max_ttl) × ((adjust_ttl g rrset).ts ≡ rrset.ts)
unfolding adjust_ttl
adjusted g rrset h = elim (Bool-cases (is_nocache rrset.flags)) [
  | inl uncached ↦ rw (uncached) (omega arith, refl)
  | inr cached ↦ rw (cached) (bounded_ttl-most g (is_negative rrset.flags) rrset.ttl h, refl)
]

told :
    (rrset : RrSet) (now : ℕ)
    → is_local rrset.flags ≡ false
    → ans_ttl rrset now ≡ rrset.ttl - (now - rrset.ts)
unfolding ans_ttl
told rrset now foreign = rw (foreign) refl

-- Where the largest time to live is not below the least, the time to live that is told to a client,
-- at or after the time stamp of an RR set that adjust_ttl has adjusted and that is not local, is at
-- most the largest; with each second it is one less until it is 0, which it is from the time stamp
-- plus the largest time to live on.
pub ans_ttl-adjust_ttl :
    (g : Ttls) (rrset : RrSet) (d : ℕ)
    → g.min_ttl ≤ g.max_ttl
    → is_local (adjust_ttl g rrset).flags ≡ false
    → (ans_ttl (adjust_ttl g rrset) (rrset.ts + d) ≤ g.max_ttl)
      × ((ans_ttl (adjust_ttl g rrset) (rrset.ts + d + 1)
            ≡ ans_ttl (adjust_ttl g rrset) (rrset.ts + d) - 1)
          × (ans_ttl (adjust_ttl g rrset) (rrset.ts + g.max_ttl + d) ≡ 0))
ans_ttl-adjust_ttl g rrset d h foreign =
    let r = adjust_ttl g rrset in
    let (most, same) = adjusted g rrset h in
    let a = told r (rrset.ts + d) foreign in
    let b = told r (rrset.ts + d + 1) foreign in
    let c = told r (rrset.ts + g.max_ttl + d) foreign in
    (omega (arith, most, same, a), (omega (arith, same, a, b), omega (arith, most, same, c)))
