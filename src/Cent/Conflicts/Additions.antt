-- ===== src/Cent/Conflicts/Additions.antt =====
-- cr_check_add on every entry.
use orbot_library.Prelude.{
  ℕ, ◌/◌, ◌<◌, ◌≡◌, refl, ap, ◌∙◌, List, Bool, true, false, ◌||◌, ltb, ◌==◌, Bool-cases, inl, inr,
  Option, none, some, ok, read, Returns, Returns-if, Returns->>=, read-Returns, arith,
}
use orbot_library.RrList.{is_local}
use orbot_library.Cent.{Sizeof, RrSet, Cent, World, is_negative, rrarr_len}
use orbot_library.Cent.Sizes.{slots, IsSized}
use orbot_library.Cent.Conflicts.{
  RrInfo, rr_info, count_conflicts, remove_conflicts, resolve, after_count, cr_check_add,
}
use orbot_library.Cent.Conflicts.Resolution.{
  IsFree, remove_conflicts-Cleared, Counted, count_conflicts-Counted, slots-bound,
}

-- With the result 1 a new RR set of some type conflicts with none of the entry, and with the result
-- 0 the entry is as it was.
abbrev pub Checked : Sizeof → RrInfo → Cent → Bool × (Cent × World) → Type 0
Checked z rri c r =
    IsSized z r.1.0
    × ((r.0 ≡ true → (j : ℕ) → j < rrarr_len c → IsFree rri r.1.0 j) × (r.0 ≡ false → r.1.0 ≡ c))

rrarr_len-negative : (c : Cent) → is_negative c.flags ≡ true → rrarr_len c ≡ 0
unfolding rrarr_len
rrarr_len-negative c h = rw (h) refl

rrarr_len-positive : (c : Cent) → is_negative c.flags ≡ false → rrarr_len c ≡ slots c.rrext
unfolding rrarr_len
rrarr_len-positive c h = rw (h) (by_room c.rrext)
  where
    by_room :
        (x : Option (List (Option RrSet))) → elim x as (λ _. ℕ) [ none ↦ 8 | some _ ↦ 47 ] ≡ slots x
    by_room none = refl
    by_room (some e) = refl

module _ (z : Sizeof) (rri : RrInfo) where
  removed :
      (c : Cent) (w : World)
      → IsSized z c
      → Returns
          (remove_conflicts (rrarr_len c) 0 z c rri w)
          (λ r. IsSized z r.0 × ((j : ℕ) → j < rrarr_len c → IsFree rri r.0 j))
  unfolding remove_conflicts
  removed c w s = elim (Bool-cases (is_negative c.flags)) [
    | inl neg ↦ rw (rrarr_len-negative c neg) ((c, w), refl, (s, λ j h. absurd (omega (arith, h))))
    | inr pos ↦
        let len = rrarr_len-positive c pos in
        let (r, run, (s2, (_, (_, free)))) =
          remove_conflicts-Cleared z rri (slots c.rrext) (slots-bound c.rrext) (slots c.rrext) 0 c w
            (omega arith) (s, (pos, (refl, λ j h. absurd (omega (arith, h))))) in
        rw (len) (r, run, (s2, free))
  ]

  resolve-Checked :
      (c : Cent) (ttl nttl flags : ℕ) (w : World)
      → IsSized z c
      → Returns (resolve z c rri ttl nttl flags w) (Checked z rri c)
  unfolding resolve
  resolve-Checked c ttl nttl flags w s =
      Returns-if (Checked z rri c) (is_local flags || ltb nttl ttl)
        (λ _.
          let (r, run, (s2, free)) = removed c w s in
          Returns->>= _ _ run
            ((true, r), refl, (s2, (λ _. free, λ wrong. absurd (ground (arith, wrong))))))
        λ _. ((false, (c, w)), refl, (s, (λ wrong. absurd (ground (arith, wrong)), λ _. refl)))

  -- Where no conflict is counted, there is none.
  abbrev Free : Cent → Option (ℕ × ℕ) → Type 0
  Free c none = Unit
  Free c (some k) = k.0 ≡ 0 → (j : ℕ) → j < rrarr_len c → IsFree rri c j

  counting :
      (c : Cent) (now : ℕ)
      → IsSized z c
      → Returns (count_conflicts (rrarr_len c) 0 c rri now 0 0) (Free c)
  unfolding count_conflicts
  counting c now s = elim (Bool-cases (is_negative c.flags)) [
    | inl neg ↦
        let len = rrarr_len-negative c neg in
        (some (0, 0), rw (len) refl, λ _ j h. absurd (omega (arith, h, len)))
    | inr pos ↦ over_slots (rrarr_len-positive c pos) (
        count_conflicts-Counted z rri (slots c.rrext) (slots-bound c.rrext) (slots c.rrext) 0 c now
          0 0 s refl (omega arith))
  ]
    where
      from :
          (o : Option (ℕ × ℕ))
          → rrarr_len c ≡ slots c.rrext
          → Counted z rri (slots c.rrext) (slots-bound c.rrext) c 0 (slots c.rrext) 0 o
          → Free c o
      from none len _ = _
      from (some k) len (_, free) =
          λ none_found j h. free none_found j (omega arith) (omega (arith, h, len))

      over_slots :
          rrarr_len c ≡ slots c.rrext
          → Returns
              (count_conflicts (slots c.rrext) 0 c rri now 0 0)
              (Counted z rri (slots c.rrext) (slots-bound c.rrext) c 0 (slots c.rrext) 0)
          → Returns (count_conflicts (rrarr_len c) 0 c rri now 0 0) (Free c)
      over_slots len (o, run, counted) =
          (o, ap (λ n. count_conflicts n 0 c rri now 0 0) len ∙ run, from o len counted)

  after_count-Checked :
      (c : Cent) (ttl flags : ℕ) (w : World) (o : Option (ℕ × ℕ))
      → IsSized z c
      → Free c o
      → Returns (after_count z c rri ttl flags w o) (Checked z rri c)
  unfolding after_count
  after_count-Checked c ttl flags w none s _ =
      ((false, (c, w)), refl, (s, (λ wrong. absurd (ground (arith, wrong)), λ _. refl)))
  after_count-Checked c ttl flags w (some k) s free =
      Returns-if (Checked z rri c) (k.0 == 0)
        (λ zero_found. (
          (true, (c, w)),
          refl,
          (s, (λ _. free (ground (arith, zero_found)), λ wrong. absurd (ground (arith, wrong)))),
        ))
        λ _. resolve-Checked c ttl (k.1 / k.0) flags w s

-- cr_check_add for a new RR set that is not negative, on an entry whose account is right: it
-- returns, the account is right afterwards, and with the result 1 no RR set of the entry is in
-- conflict with the new one, while with the result 0 the entry is as it was.
pub cr_check_add-Checked :
    (z : Sizeof) (c : Cent) (idx ttl flags now : ℕ) (w : World)
    → IsSized z c
    → idx < 47
    → is_negative flags ≡ false
    → (rri : RrInfo) × ((read rr_info idx ≡ ok rri)
        × Returns (cr_check_add z c idx ttl flags now w) (Checked z rri c))
unfolding cr_check_add
cr_check_add-Checked z c idx ttl flags now w s h pos =
    let (rri, e) = read-Returns rr_info idx (omega arith) in
    (
      rri,
      (
        e,
        Returns-if (Checked z rri c) (is_negative flags) (λ neg. absurd (ground (arith, neg, pos)))
            λ _. Returns->>= (Checked z rri c) _ e (
              Returns-if (Checked z rri c) (is_local flags)
                (λ _. resolve-Checked z rri c ttl 0 flags w s)
                λ _.
                  Returns-if (Checked z rri c) (is_local c.flags)
                    (λ _. (
                      (false, (c, w)),
                      refl,
                      (s, (λ wrong. absurd (ground (arith, wrong)), λ _. refl)),
                    ))
                    λ _.
                      let (o, run, free) = counting z rri c now s in
                      Returns->>= (Checked z rri c) _ run
                        (after_count-Checked z rri c ttl flags w o s free)),
      ),
    )
