-- ===== src/Cent/Conflicts/Resolution.antt =====
-- The loops of cr_check_add: one counts the conflicts, the other removes them.
use orbot_library.Prelude.{
  ℕ, zero, suc, ◌+◌, ◌-◌, ◌<◌, ◌≤◌, ◌≡◌, refl, sym, subst, ◌∙◌, List, Bool, true, false, ◌==◌,
  Bool-cases, inl, inr, Option, none, some, ok, ◌>>=◌, Returns, Returns->>=, read-Returns, arith,
}
use orbot_library.RrList.{is_local}
use orbot_library.Cent.{Sizeof, RrSet, Cent, World, is_negative, rrarr_index}
use orbot_library.Cent.Delete.{del_cent_rrset_by_index}
use orbot_library.Cent.Sizes.{slots, IsSized, rrarr_set-SlotSet}
use orbot_library.Cent.Accounts.{del_cent_rrset_by_index-IsSized}
use orbot_library.Cent.Records.{testext-inside}
use orbot_library.Cent.Conflicts.{
  RrInfo, rr_info, excludes_each, in_conflict, count_conflicts, remove_conflicts,
}
use orbot_library.Cent.Conflicts.Unchanged.{SameAt, DelSame, del_cent_rrset_by_index-DelSame}

-- What is at an index does not conflict with a new RR set of some type.
abbrev pub IsFree : RrInfo → Cent → ℕ → Type 0
IsFree rri c j = (s : Option RrSet) × ((rrarr_index c j ≡ ok s) × (in_conflict rri j s ≡ ok false))

in_conflict-Returns :
    (rri : RrInfo) (i : ℕ) (s : Option RrSet) → i < 47 → (b : Bool) × (in_conflict rri i s ≡ ok b)
unfolding in_conflict
in_conflict-Returns rri i none h = (false, refl)
in_conflict-Returns rri i (some rrs) h = elim (Bool-cases (is_negative rrs.flags)) [
  | inl neg ↦ (false, rw (neg) refl)
  | inr pos ↦
      let (r, e) = read-Returns rr_info i (omega arith) in (excludes_each rri r, rw (pos, e) refl)
]

in_conflict-none : (rri : RrInfo) (i : ℕ) → in_conflict rri i none ≡ ok false
unfolding in_conflict
in_conflict-none rri i = refl

pub slots-bound : (x : Option (List (Option RrSet))) → slots x ≤ 47
slots-bound none = omega arith
slots-bound (some e) = omega arith

index-Returns :
    (z : Sizeof) (c : Cent) (i : ℕ)
    → IsSized z c
    → i < slots c.rrext
    → (s : Option RrSet) × (rrarr_index c i ≡ ok s)
index-Returns z c i s h =
    let (old, (found, _)) = rrarr_set-SlotSet z c i s.mu_length s.ext_length h in (old, found)

-- An entry that is not negative, whose account is right, and where the first `n` indices are free.
abbrev pub Cleared : Sizeof → RrInfo → ℕ → ℕ → Cent → Type 0
Cleared z rri room n c =
    IsSized z c
    × ((is_negative c.flags ≡ false)
        × ((slots c.rrext ≡ room) × ((j : ℕ) → j < n → IsFree rri c j)))

module _ (z : Sizeof) (rri : RrInfo) (room : ℕ) (most : room ≤ 47) where
  more : (i : ℕ) (c : Cent) → Cleared z rri room i c → IsFree rri c i → Cleared z rri room (i + 1) c
  more i c (s, (pos, (r, below))) here = (s, (pos, (r, λ j h. at j h (j == i) refl)))
    where
      at : (j : ℕ) → j < i + 1 → (b : Bool) → (j == i) ≡ b → IsFree rri c j
      at j h true e = subst (IsFree rri c) (ground (arith, e)) here
      at j h false e = below j (ground (arith, e))

  deleted :
      (i : ℕ) (c : Cent) (w : World)
      → i < room
      → Cleared z rri room i c
      → Returns (del_cent_rrset_by_index z c i w) (λ r. Cleared z rri room (i + 1) r.1.0)
  deleted i c w h (s, (pos, (size, below))) =
      let (r, run, (s2, (_, gone))) = del_cent_rrset_by_index-IsSized z c i w s (omega arith) in
      let same : (j : ℕ) → (j == i) ≡ false → SameAt j c r.1.0 =
        λ j other. subst (DelSame j c) run (del_cent_rrset_by_index-DelSame z c i j w other) in
      let next = same (i + 1) (ground arith) in
      let pos2 : is_negative r.1.0.flags ≡ false = next.1.1 ∙ pos in
      let size2 : slots r.1.0.rrext ≡ room = next.1.0 ∙ size in
      let here : rrarr_index r.1.0 i ≡ ok none =
        sym (testext-inside r.1.0 i pos2 (omega (arith, size2))) ∙ gone in
      (
        r,
        run,
        more i r.1.0
            (
              s2,
              (
                pos2,
                (
                  size2,
                  λ j less.
                      let (t, (at, free)) = below j less in
                      (t, ((same j (ground (arith, less))).0 ∙ at, free)),
                ),
              ),
            )
            (none, (here, in_conflict-none rri i)),
      )

  pub remove_conflicts-Cleared :
      (n i : ℕ) (c : Cent) (w : World)
      → i + n ≡ room
      → Cleared z rri room i c
      → Returns (remove_conflicts n i z c rri w) (λ r. Cleared z rri room room r.0)
  unfolding remove_conflicts
  remove_conflicts-Cleared zero i c w e h =
      ((c, w), refl, subst (λ k. Cleared z rri room k c) (omega (arith, e)) h)
  remove_conflicts-Cleared (suc n) i c w e h =
      let (s, at) = index-Returns z c i h.0 (omega (arith, e, h.1.1.0)) in
      let (hit, run) = in_conflict-Returns rri i s (omega (arith, e)) in
      Returns->>= _ _ at (
        Returns->>= _ _ run (
          by_hit hit s at run
            (λ c2 w2 k. remove_conflicts-Cleared n (i + 1) c2 w2 (omega (arith, e)) k)))
    where
      by_hit :
          (hit : Bool) (s : Option RrSet)
          → rrarr_index c i ≡ ok s
          → in_conflict rri i s ≡ ok hit
          → ((c2 : Cent) (w2 : World)
              → Cleared z rri room (i + 1) c2
              → Returns (remove_conflicts n (i + 1) z c2 rri w2) (λ r. Cleared z rri room room r.0))
          → Returns {V = Cent × World}
              (elim hit [
                | false ↦ remove_conflicts n (i + 1) z c rri w
                | true ↦ del_cent_rrset_by_index z c i w >>= λ r.
                    remove_conflicts n (i + 1) z r.1.0 rri r.1.1
              ])
              (λ r. Cleared z rri room room r.0)
      by_hit false s at run next = next c w (more i c h (s, (at, run)))
      by_hit true s at run next =
          let (r, run2, cleared) = deleted i c w (omega (arith, e)) h in
          Returns->>= _ _ run2 (next r.1.0 r.1.1 cleared)

  -- The count is one of the conflicts from the index on, and where none is counted all are free.
  abbrev pub Counted : Cent → ℕ → ℕ → ℕ → Option (ℕ × ℕ) → Type 0
  Counted c i n ncf none = Unit
  Counted c i n ncf (some k) =
      (ncf ≤ k.0) × (k.0 ≡ ncf → (j : ℕ) → i ≤ j → j < i + n → IsFree rri c j)

  pub count_conflicts-Counted :
      (n i : ℕ) (c : Cent) (now ncf nttl : ℕ)
      → IsSized z c
      → slots c.rrext ≡ room
      → i + n ≤ room
      → Returns (count_conflicts n i c rri now ncf nttl) (Counted c i n ncf)
  unfolding count_conflicts
  count_conflicts-Counted zero i c now ncf nttl s size e =
      (some (ncf, nttl), refl, (omega arith, λ _ j low high. absurd (omega (arith, low, high))))
  count_conflicts-Counted (suc n) i c now ncf nttl s size e =
      let (t, at) = index-Returns z c i s (omega (arith, e, size)) in
      let (hit, run) = in_conflict-Returns rri i t (omega (arith, e, most)) in
      Returns->>= _ _ at (
        Returns->>= _ _ run (
          by_rrset t hit at run
            (λ m k. count_conflicts-Counted n (i + 1) c now m k s size (omega (arith, e)))))
    where
      skipped :
          (o : Option (ℕ × ℕ))
          → IsFree rri c i
          → Counted c (i + 1) n ncf o
          → Counted c i (suc n) ncf o
      skipped none here _ = _
      skipped (some k) here (least, free) =
          (least, λ none_found j low high. by_place none_found j low high (j == i) refl)
        where
          by_place :
              k.0 ≡ ncf
              → (j : ℕ) → i ≤ j
              → j < i + suc n
              → (b : Bool) → (j == i) ≡ b
              → IsFree rri c j
          by_place none_found j low high true is = subst (IsFree rri c) (ground (arith, is)) here
          by_place none_found j low high false is =
              free none_found j (ground (arith, is, low)) (omega (arith, high))

      counted : (o : Option (ℕ × ℕ)) → Counted c (i + 1) n (ncf + 1) o → Counted c i (suc n) ncf o
      counted none _ = _
      counted (some k) (least, _) =
          (omega (arith, least), λ none_found. absurd (omega (arith, least, none_found)))

      by_rrset :
          (t : Option RrSet) (hit : Bool)
          → rrarr_index c i ≡ ok t
          → in_conflict rri i t ≡ ok hit
          → ((m k : ℕ) → Returns (count_conflicts n (i + 1) c rri now m k) (Counted c (i + 1) n m))
          → Returns {V = Option (ℕ × ℕ)}
              (elim t [
                | none ↦ count_conflicts n (i + 1) c rri now ncf nttl
                | some rrs ↦ elim hit [
                  | false ↦ count_conflicts n (i + 1) c rri now ncf nttl
                  | true ↦ elim (is_local rrs.flags) [
                    | true ↦ ok none
                    | false ↦
                        count_conflicts n
                          (i + 1)
                          c
                          rri
                          now
                          (ncf + 1)
                          (nttl + (rrs.ttl + rrs.ts - now))
                  ]
                ]
              ])
              (Counted c i (suc n) ncf)
      by_rrset none hit at run rest =
          let (o, go, c2) = rest ncf nttl in
          (o, go, skipped o (none, (at, in_conflict-none rri i)) c2)
      by_rrset (some rrs) false at run rest =
          let (o, go, c2) = rest ncf nttl in (o, go, skipped o (some rrs, (at, run)) c2)
      by_rrset (some rrs) true at run rest = by_flags (is_local rrs.flags)
        where
          by_flags :
              (b : Bool)
              → Returns {V = Option (ℕ × ℕ)}
                  (elim b [
                    | true ↦ ok none
                    | false ↦
                        count_conflicts n
                          (i + 1)
                          c
                          rri
                          now
                          (ncf + 1)
                          (nttl + (rrs.ttl + rrs.ts - now))
                  ])
                  (Counted c i (suc n) ncf)
          by_flags true = (none, refl, _)
          by_flags false =
              let (o, go, c2) = rest (ncf + 1) (nttl + (rrs.ttl + rrs.ts - now)) in
              (o, go, counted o c2)
