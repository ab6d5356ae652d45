-- ===== src/Cent/Adding.antt =====
-- add_cent_rr on an entry whose account is right.
use orbot_library.Prelude.{
  ℕ, ◌<◌, ◌≡◌, refl, sym, ap, subst, ◌∙◌, ◌⊎◌, inl, inr, List, Bool, true, false, ltb, ◌==◌,
  if◌then◌else◌, Option, none, some, Run, ok, ◌>>=◌, Returns, Returns-if, Returns->>=, length,
  arith, not, ◌&&◌,
}
use orbot_library.Cent.{
  Sizeof, RrSet, Cent, World, allocated, is_negative, rrarr_index, rrarr_index_testext, rrarr_set,
}
use orbot_library.Cent.Delete.{rrs_size}
use orbot_library.Cent.Add.{add_cent_rr_int, has_data, add_cent_rr, type_index}
use orbot_library.Cent.Sizes.{slots, IsSized, rrarr_set-SlotSet}
use orbot_library.Cent.Additions.{IsPositive, HasRrset, slot-at, replaces-IsPositive}
use orbot_library.Cent.Insertions.{link_rr-Added, add_cent_rrset_by_index-Added}
use orbot_library.RrList.{is_local}
use orbot_library.Cent.Records.{Added}
use orbot_library.Cent.Accounts.{testext-cases}

lookup-cases :
    (z : Sizeof) (c : Cent) (i : ℕ)
    → IsSized z c
    → i < 47
    → (rrarr_index_testext c i ≡ ok none)
      ⊎ ((s : RrSet) × (IsPositive z c
            × (HasRrset c i s × (rrarr_index_testext c i ≡ ok (some s)))))
lookup-cases z c i s h = elim (testext-cases c i h) [
  | inl nothing ↦ inl nothing
  | inr (pos, inside, same) ↦
      let (old, (found, next)) = rrarr_set-SlotSet z c i s.mu_length s.ext_length inside in
      go old found pos inside same
]
  where
    go :
        (old : Option RrSet)
        → rrarr_index c i ≡ ok old
        → is_negative c.flags ≡ false
        → i < slots c.rrext
        → rrarr_index_testext c i ≡ rrarr_index c i
        → (rrarr_index_testext c i ≡ ok none)
          ⊎ ((s : RrSet) × (IsPositive z c
                × (HasRrset c i s × (rrarr_index_testext c i ≡ ok (some s)))))
    go none found pos inside same = inl (same ∙ found)
    go (some r) found pos inside same = inr (
      r,
      (
        record { sized = s; positive = pos },
        (record { inside = inside; found = found }, same ∙ found),
      ),
    )

-- The RR set at the index has the data.
abbrev pub HasData : List ℕ → RrSet → Type 0
HasData bytes s = has_data bytes s.rrs ≡ true

add_cent_rr_int-Added :
    (z : Sizeof) (c : Cent) (i ttl ts flags : ℕ) (bytes : List ℕ) (k : ℕ) (w : World)
    → IsSized z c
    → i < 47
    → Returns (add_cent_rr_int z c i ttl ts flags bytes k w) (Added z i (HasData bytes))
unfolding add_cent_rr_int
add_cent_rr_int-Added z c i ttl ts flags bytes k w s h =
    Returns-if _ (w.room == 0) (λ _. ((false, (c, w)), refl, (s, λ f. absurd (ground (arith, f)))))
      (λ _. elim (lookup-cases z c i s h) [
        | inr (r, (p, (x, e))) ↦ Returns->>= _ _ e (link_rr-Added z c i r k bytes (allocated w) p x)
        | inl e ↦
            let (r, run, (s2, next)) =
              add_cent_rrset_by_index-Added z c i ttl ts flags (allocated w) s h e in
            Returns->>= _ _ e (
              Returns->>= _ _ run (
                Returns-if _ r.0
                  (λ is.
                    let (p, (t, (x, _))) = next is in
                    Returns->>= _ _ x.found (link_rr-Added z r.1.0 i t 0 bytes r.1.1 p x))
                  (λ no. ((false, r.1), refl, (s2, λ f. absurd (ground (arith, f)))))))
      ])

same_rrs : (b : Bool) (ttl : ℕ) (r : RrSet) → (if b then record r { ttl = ttl } else r).rrs ≡ r.rrs
same_rrs true ttl r = refl
same_rrs false ttl r = refl

-- add_cent_rr for a type that the cache holds, on an entry whose account is right: it returns, the
-- account is right, and where the result is 1 the record is in the RR set of its type, unless the
-- entry is local and the record is not.
pub add_cent_rr-Added :
    (z : Sizeof) (c : Cent) (type i ttl ts flags : ℕ) (bytes : List ℕ) (w : World)
    → IsSized z c
    → type_index type ≡ ok i
    → i < 47
    → Returns (add_cent_rr z c type ttl ts flags bytes w) (λ r.
      IsSized z r.1.0
      × (r.0 ≡ true
          → (is_local c.flags && not (is_local flags)) ≡ false
          → IsPositive z r.1.0 × ((s : RrSet) × (HasRrset r.1.0 i s × HasData bytes s))))
unfolding add_cent_rr
add_cent_rr-Added z c type i ttl ts flags bytes w s known h =
    Returns-if _ (is_local c.flags && not (is_local flags))
      (λ is. ((true, (c, w)), refl, (s, λ _ no. absurd (ground (arith, is, no)))))
      (λ _. Returns->>= _ _ known (
        Returns-if _ (not (ltb i 47)) (λ out. absurd (ground (arith, out)))
          (λ _. elim (lookup-cases z c i s h) [
            | inl e ↦
                Returns->>= _ _ e (weaken (add_cent_rr_int-Added z c i ttl ts flags bytes 0 w s h))
            | inr (r, (p, (x, e))) ↦ Returns->>= _ _ e (present r p x)
          ])))
  where
    weaken :
        {r : Run (Bool × (Cent × World))}
        → Returns r (Added z i (HasData bytes))
        → Returns r (λ r.
          IsSized z r.1.0
          × (r.0 ≡ true
              → (is_local c.flags && not (is_local flags)) ≡ false
              → IsPositive z r.1.0 × ((s : RrSet) × (HasRrset r.1.0 i s × HasData bytes s))))
    weaken (r, run, (sized, next)) = (r, run, (sized, λ is _. next is))

    present :
        (r : RrSet)
        → IsPositive z c
        → HasRrset c i r
        → Returns
            (rrarr_set c i (some (if ltb ttl r.ttl then record r { ttl = ttl } else r)) >>= λ c2.
              if has_data bytes r.rrs
              then ok (true, (c2, w))
              else add_cent_rr_int z c2 i ttl ts flags bytes (length r.rrs) w)
            (λ r.
              IsSized z r.1.0
              × (r.0 ≡ true
                  → (is_local c.flags && not (is_local flags)) ≡ false
                  → IsPositive z r.1.0 × ((s : RrSet) × (HasRrset r.1.0 i s × HasData bytes s))))
    present r p x =
        let r2 = if ltb ttl r.ttl then record r { ttl = ttl } else r in
        let (c2, run, b) = slot-at z c i (some r) p x.inside x.found (some r2) in
        let same = same_rrs (ltb ttl r.ttl) ttl r in
        let p2 =
          replaces-IsPositive z c c2 i (some r) (some r2) c2.cs c2.num_rrs p b
            (omega (arith, ap (rrs_size z) same)) refl in
        Returns->>= _ _ run (
          Returns-if _ (has_data bytes r.rrs)
            (λ is. (
              (true, (c2, w)),
              refl,
              (
                p2.sized,
                λ _ _. (
                  p2,
                  (
                    r2,
                    (
                      record {
                        inside = subst (λ n. i < n) (sym b.same_slots) x.inside;
                        found = b.there;
                      },
                      ap (has_data bytes) same ∙ is,
                    ),
                  ),
                ),
              ),
            ))
            (λ _.
              weaken (add_cent_rr_int-Added z c2 i ttl ts flags bytes (length r.rrs) w p2.sized h)))
