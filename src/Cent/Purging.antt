-- ===== src/Cent/Purging.antt =====
-- purge_all_rrsets with and without its test flag.
use orbot_library.Prelude.{
  ℕ, zero, suc, ◌+◌, ◌-◌, ◌*◌, ◌<◌, ◌≤◌, ◌≡◌, refl, sym, ap, subst, ◌∙◌, List, Bool, true, false,
  ◌==◌, if◌then◌else◌, Bool-cases, inl, inr, Option, none, some, Run, ok, halt, ◌>>=◌, Returns,
  arith, leb, ltb,
}
use orbot_library.Cent.{
  Sizeof, RrSet, Cent, World, nrrmu, nrrext, is_negative, rrarr_len, rrarr_index,
  rrarr_index_testext, rrarr_set,
}
use orbot_library.Cent.Delete.{del_rrset, remove_rrl, del_cent_rrset_by_index}
use orbot_library.Cent.Sizes.{slots, IsSized, ext_cost, rrarr_set-SlotSet}
use orbot_library.Cent.Accounts.{del_cent_rrset_by_index-IsSized, pos_size}
use orbot_library.Cent.Records.{testext-inside}
use orbot_library.Cent.Conflicts.Resolution.{slots-bound}
use orbot_library.Cent.Conflicts.Unchanged.{SameAt, DelSame, del_cent_rrset_by_index-DelSame}
use orbot_library.Cent.Purge.{
  must_go, drop_rrset, Purged, purge_loop, purge_rrext, purge_all_rrsets,
}

-- A deletion leaves cache_size to its caller.
abbrev SameSize : World → Run (ℕ × (Cent × World)) → Type 0
SameSize w (halt why) = Unit {0}
SameSize w (ok r) = r.1.1.cache_size ≡ w.cache_size

remove_rrl-cache_size : (o : Option ℕ) (w : World) → (remove_rrl o w).cache_size ≡ w.cache_size
unfolding remove_rrl
remove_rrl-cache_size none w = refl
remove_rrl-cache_size (some le) w = refl

del_cent_rrset_by_index-SameSize :
    (z : Sizeof) (c : Cent) (i : ℕ) (w : World) → SameSize w (del_cent_rrset_by_index z c i w)
unfolding del_cent_rrset_by_index del_rrset
del_cent_rrset_by_index-SameSize z c i w = by_lookup (rrarr_index_testext c i)
  where
    by_lookup :
        (l : Run (Option RrSet))
        → SameSize w (
            l >>= λ s. elim s [
              | none ↦ ok (0, (c, w))
              | some rrs ↦
                  let (rv, w2) = del_rrset z rrs w in
                  rrarr_set c i none >>= λ c2. ok (
                    rv,
                    (
                      record c2 {
                        num_rrs = c2.num_rrs - 1;
                        cs = c2.cs - rv;
                        flags = orbot_library.Cent.clear_auth c2.flags;
                      },
                      w2,
                    ),
                  )
            ])
    by_lookup (halt why) = _
    by_lookup (ok none) = refl
    by_lookup (ok (some rrs)) = stored (rrarr_set c i none)
      where
        stored :
            (r : Run Cent)
            → SameSize w (
                r >>= λ c2. ok (
                  (del_rrset z rrs w).0,
                  (
                    record c2 {
                      num_rrs = c2.num_rrs - 1;
                      cs = c2.cs - (del_rrset z rrs w).0;
                      flags = orbot_library.Cent.clear_auth c2.flags;
                    },
                    (del_rrset z rrs w).1,
                  ),
                ))
        stored (halt why) = _
        stored (ok c2) = remove_rrl-cache_size rrs.lent w

drop_rrset-test : (z : Sizeof) (c : Cent) (i : ℕ) (w : World) → drop_rrset z c i true w ≡ ok (c, w)
unfolding drop_rrset
drop_rrset-test z c i w = refl

-- An RR set that purging keeps.
abbrev pub Stays : ℕ → Option RrSet → Type 0
Stays now none = Unit {0}
Stays now (some rrs) = must_go now rrs ≡ false

abbrev pub Kept : ℕ → Cent → ℕ → Type 0
Kept now d j = (s : Option RrSet) × ((rrarr_index d j ≡ ok s) × Stays now s)

module _ (z : Sizeof) (now : ℕ) (c : Cent) (w : World) where
  -- The entry `d` and the state `v` where the indices below `i` have been purged.
  record Purging (i : ℕ) (d : Cent) (v : World) : Type 0 where
    pub sized : IsSized z d
    pub positive : is_negative d.flags ≡ false
    pub room : slots d.rrext ≡ slots c.rrext
    pub later : (j : ℕ) → i ≤ j → rrarr_index d j ≡ rrarr_index c j
    pub kept : (j : ℕ) → j < i → Kept now d j
    pub balance : v.cache_size + c.cs ≡ w.cache_size + d.cs
    pub less : d.cs ≤ c.cs

  module _ (enough : c.cs ≤ w.cache_size) where
    -- Nothing to drop at an index.
    passed :
        (i : ℕ) (d : Cent) (v : World) (s : Option RrSet)
        → Purging i d v
        → rrarr_index d i ≡ ok s
        → Stays now s
        → Purging (i + 1) d v
    passed i d v s h found stays = record {
      sized = h.sized;
      positive = h.positive;
      room = h.room;
      later = λ j below. h.later j (omega (arith, below));
      kept = λ j below. at j below (j == i) refl;
      balance = h.balance;
      less = h.less;
    }
      where
        at : (j : ℕ) → j < i + 1 → (b : Bool) → (j == i) ≡ b → Kept now d j
        at j below true e = subst (Kept now d) (ground (arith, e)) (s, (found, stays))
        at j below false e = h.kept j (ground (arith, e, below))

    dropped :
        (i : ℕ) (d : Cent) (v : World)
        → i < slots c.rrext
        → Purging i d v
        → Returns (drop_rrset z d i false v) (λ r. Purging (i + 1) r.0 r.1)
    unfolding drop_rrset
    dropped i d v inside h =
        let all = slots-bound c.rrext in
        let (r, run, (s2, (size, gone))) =
          del_cent_rrset_by_index-IsSized z d i v h.sized (omega (arith, inside, all)) in
        let same : (j : ℕ) → (j == i) ≡ false → SameAt j d r.1.0 =
          λ j other. subst (DelSame j d) run (del_cent_rrset_by_index-DelSame z d i j v other) in
        let same_size : r.1.1.cache_size ≡ v.cache_size =
          subst (SameSize v) run (del_cent_rrset_by_index-SameSize z d i v) in
        let next = same (i + 1) (ground arith) in
        let positive2 : is_negative r.1.0.flags ≡ false = next.1.1 ∙ h.positive in
        let room2 : slots r.1.0.rrext ≡ slots c.rrext = next.1.0 ∙ h.room in
        let here : rrarr_index r.1.0 i ≡ ok none =
          sym (testext-inside r.1.0 i positive2 (omega (arith, room2, inside))) ∙ gone in
        (
          (r.1.0, record r.1.1 { cache_size = r.1.1.cache_size - r.0 }),
          rw run refl,
          record {
            sized = s2;
            positive = positive2;
            room = room2;
            later =
                λ j below. (same j (ground (arith, below))).0 ∙ h.later j (omega (arith, below));
            kept = λ j below. at r.1.0 same here j below (j == i) refl;
            balance = omega (arith, same_size, size, h.balance, h.less, enough);
            less = omega (arith, size, h.less);
          },
        )
      where
        at :
            (d2 : Cent)
            → ((j : ℕ) → (j == i) ≡ false → SameAt j d d2)
            → rrarr_index d2 i ≡ ok none
            → (j : ℕ) → j < i + 1
            → (b : Bool) → (j == i) ≡ b
            → Kept now d2 j
        at d2 same here j below true e = subst (Kept now d2) (ground (arith, e)) (none, (here, _))
        at d2 same here j below false e =
            let (s, (found, stays)) = h.kept j (ground (arith, e, below)) in
            (s, ((same j e).0 ∙ found, stays))

    -- The loop with the flag counts what the loop without it does, and leaves everything as it was.
    loops :
        (n i : ℕ) (p : Purged) (d : Cent) (v : World)
        → i + n ≤ slots c.rrext
        → Purging i d v
        → (q : Purged) × ((purge_loop z now true n i c p w ≡ ok (q, (c, w)))
            × Returns
                (purge_loop z now false n i d p v)
                (λ r. (r.0 ≡ q) × Purging (i + n) r.1.0 r.1.1))
    unfolding purge_loop
    loops zero i p d v inside h =
        (p, (refl, ((p, (d, v)), refl, (refl, subst (λ k. Purging k d v) (omega arith) h))))
    loops (suc n) i p d v inside h =
        let (s, (found, _)) =
          rrarr_set-SlotSet z d i h.sized.mu_length h.sized.ext_length
            (omega (arith, inside, h.room)) in
        let found_c = sym (h.later i (omega arith)) ∙ found in
        rw (found, found_c)
          (by_set s found (λ p2 d2 v2 h2. loops n (i + 1) p2 d2 v2 (omega (arith, inside)) h2))
      where
        Goal : Run (Purged × (Cent × World)) → Run (Purged × (Cent × World)) → Type 0
        Goal tested done =
            (q : Purged) × ((tested ≡ ok (q, (c, w)))
              × Returns done (λ r. (r.0 ≡ q) × Purging (i + suc n) r.1.0 r.1.1))

        GoesOn : Type 0
        GoesOn =
            (p2 : Purged) (d2 : Cent) (v2 : World)
            → Purging (i + 1) d2 v2
            → (q : Purged) × ((purge_loop z now true n (i + 1) c p2 w ≡ ok (q, (c, w)))
                × Returns (purge_loop z now false n (i + 1) d2 p2 v2)
                    (λ r. (r.0 ≡ q) × Purging (i + 1 + n) r.1.0 r.1.1))

        on :
            (p2 : Purged) (d2 : Cent) (v2 : World)
            → GoesOn
            → Purging (i + 1) d2 v2
            → Goal
                (purge_loop z now true n (i + 1) c p2 w)
                (purge_loop z now false n (i + 1) d2 p2 v2)
        on p2 d2 v2 go h2 =
            let (q, (tested, (r, run, (same, h3)))) = go p2 d2 v2 h2 in
            (q, (tested, (r, run, (same, subst (λ k. Purging k r.1.0 r.1.1) (omega arith) h3))))

        by_set :
            (s : Option RrSet)
            → rrarr_index d i ≡ ok s
            → GoesOn
            → Goal
                (elim s [
                  | none ↦ purge_loop z now true n (i + 1) c p w
                  | some rrs ↦
                      if must_go now rrs
                      then (drop_rrset z c i true w >>= λ r.
                          purge_loop z now true n (i + 1) r.0 (record p { rv = p.rv + 1 }) r.1)
                      else purge_loop z now true n
                          (i + 1)
                          c
                          (record p {
                            numrrs = p.numrrs + 1;
                            numrrext = if leb nrrmu i then p.numrrext + 1 else p.numrrext;
                          })
                          w
                ])
                (elim s [
                  | none ↦ purge_loop z now false n (i + 1) d p v
                  | some rrs ↦
                      if must_go now rrs
                      then (drop_rrset z d i false v >>= λ r.
                          purge_loop z now false n (i + 1) r.0 (record p { rv = p.rv + 1 }) r.1)
                      else purge_loop z now false n
                          (i + 1)
                          d
                          (record p {
                            numrrs = p.numrrs + 1;
                            numrrext = if leb nrrmu i then p.numrrext + 1 else p.numrrext;
                          })
                          v
                ])
        by_set none found go = on p d v go (passed i d v none h found _)
        by_set (some rrs) found go = elim (Bool-cases (must_go now rrs)) [
          | inl goes ↦
              let (r, run, h2) = dropped i d v (omega (arith, inside)) h in
              rw (goes, run, drop_rrset-test z c i w)
                (on (record p { rv = p.rv + 1 }) r.0 r.1 go h2)
          | inr stays ↦ rw (stays) (
              on
                (record p {
                  numrrs = p.numrrs + 1;
                  numrrext = if leb nrrmu i then p.numrrext + 1 else p.numrrext;
                })
                d v go (passed i d v (some rrs) h found stays))
        ]

  -- What purge_all_rrsets leaves: only RR sets that stay, an entry that is smaller by as much as
  -- cache_size is.
  pub record IsPurged (d : Cent) (v : World) : Type 0 where
    pub positive : is_negative d.flags ≡ false
    pub kept : (j : ℕ) → j < slots d.rrext → Kept now d j
    pub balance : v.cache_size + c.cs ≡ w.cache_size + d.cs
    pub less : d.cs ≤ c.cs

rrarr_len-slots : (c : Cent) → is_negative c.flags ≡ false → rrarr_len c ≡ slots c.rrext
unfolding rrarr_len
rrarr_len-slots c positive = rw (positive) (by_ext c.rrext)
  where
    by_ext : (x : Option (List (Option RrSet))) → (elim x [ none ↦ 8 | some _ ↦ 47 ]) ≡ slots x
    by_ext none = refl
    by_ext (some e) = refl

-- The RR sets of the first array do not depend on the second.
rrarr_index-low :
    (d : Cent) (cs2 j : ℕ)
    → j < 8
    → rrarr_index (record d { rrext = none; cs = cs2 }) j ≡ rrarr_index d j
unfolding rrarr_index
rrarr_index-low d cs2 j h = let low : ltb j 8 ≡ true = ground (arith, h) in rw (low) refl

-- The branches of purge_rrext.
module _ {A L : Type 0} (b : Bool) (a x : A) where
  without :
      (o : Option L)
      → o ≡ none
      → (elim o as (λ _. A) [ none ↦ a | some _ ↦ if b then x else a ]) ≡ a
  without none e = refl
  without (some l) e = cc

  neither :
      (o : Option L)
      → b ≡ false
      → (elim o as (λ _. A) [ none ↦ a | some _ ↦ if b then x else a ]) ≡ a
  neither none e = refl
  neither (some l) e = rw (e) refl

  both :
      (o : Option L) (l : L)
      → o ≡ some l
      → b ≡ true
      → (elim o as (λ _. A) [ none ↦ a | some _ ↦ if b then x else a ]) ≡ x
  both none l e f = cc
  both (some k) l e f = rw (f) refl

module _ (z : Sizeof) (test : Bool) (p : Purged) (c : Cent) (w : World) where
  purge_rrext-none : c.rrext ≡ none → purge_rrext z test p c w ≡ (p, (c, w))
  unfolding purge_rrext
  purge_rrext-none e = without (p.numrrext == 0) _ _ c.rrext e

  purge_rrext-full : (p.numrrext == 0) ≡ false → purge_rrext z test p c w ≡ (p, (c, w))
  unfolding purge_rrext
  purge_rrext-full more = neither (p.numrrext == 0) _ _ c.rrext more

  purge_rrext-empty :
      (l : List (Option RrSet))
      → c.rrext ≡ some l
      → (p.numrrext == 0) ≡ true
      → purge_rrext z test p c w ≡ (
        record p { rv = p.rv + 1 },
        if test then (c, w) else (
          record c { rrext = none; cs = c.cs - z.pointer * nrrext },
          record w { cache_size = w.cache_size - z.pointer * nrrext },
        ),
      )
  unfolding purge_rrext
  purge_rrext-empty l e empty = both (p.numrrext == 0) _ _ c.rrext l e empty

module _ (z : Sizeof) (now : ℕ) (c : Cent) (w : World) (s : IsSized z c)
    (positive : is_negative c.flags ≡ false) (enough : c.cs ≤ w.cache_size) where
  freed :
      (p : Purged) (d : Cent) (v : World)
      → Purging z now c w (slots c.rrext) d v
      → ((purge_rrext z true p c w).0 ≡ (purge_rrext z false p d v).0)
        × (((purge_rrext z true p c w).1 ≡ (c, w))
            × IsPurged z now c w (purge_rrext z false p d v).1.0 (purge_rrext z false p d v).1.1)
  freed p d v h = by_ext c.rrext d.rrext refl refl
    where
      stays : IsPurged z now c w d v
      stays = record {
        positive = h.positive;
        kept = λ j below. h.kept j (omega (arith, below, h.room));
        balance = h.balance;
        less = h.less;
      }

      gone :
          slots d.rrext ≡ 47
          → z.pointer * 39 ≤ d.cs
          → IsPurged z now c w
              (record d { rrext = none; cs = d.cs - z.pointer * nrrext })
              (record v { cache_size = v.cache_size - z.pointer * nrrext })
      gone wide cost = record {
        positive = h.positive;
        kept = λ j below.
            let (o, (found, stay)) = h.kept j (omega (arith, below, h.room, wide)) in
            (o, (rrarr_index-low d (d.cs - z.pointer * nrrext) j below ∙ found, stay));
        balance = omega (arith, h.balance, h.less, enough, cost);
        less = omega (arith, h.less);
      }

      by_ext :
          (x y : Option (List (Option RrSet)))
          → c.rrext ≡ x
          → d.rrext ≡ y
          → ((purge_rrext z true p c w).0 ≡ (purge_rrext z false p d v).0)
            × (((purge_rrext z true p c w).1 ≡ (c, w))
                × IsPurged z now c w
                    (purge_rrext z false p d v).1.0
                    (purge_rrext z false p d v).1.1)
      by_ext none none e1 e2 =
          rw (purge_rrext-none z true p c w e1, purge_rrext-none z false p d v e2)
            (refl, (refl, stays))
      by_ext none (some b) e1 e2 = absurd (omega (arith, h.room, ap slots e1, ap slots e2))
      by_ext (some a) none e1 e2 = absurd (omega (arith, h.room, ap slots e1, ap slots e2))
      by_ext (some a) (some b) e1 e2 = elim (Bool-cases (p.numrrext == 0)) [
        | inl empty ↦
            let size = pos_size z d h.sized h.positive in
            rw
              (
                purge_rrext-empty z true p c w a e1 empty,
                purge_rrext-empty z false p d v b e2 empty,
              )
              (refl, (refl, gone (ap slots e2) (omega (arith, size, ap (ext_cost z) e2))))
        | inr more ↦
            rw (purge_rrext-full z true p c w more, purge_rrext-full z false p d v more)
              (refl, (refl, stays))
      ]

  -- On an entry that is not negative, whose account is right and whose size is in cache_size,
  -- purge_all_rrsets with its test flag returns, changes nothing, and tells what it does without the
  -- flag: then it returns the same counts, leaves only RR sets that are not timed out, or are local
  -- or not to be purged, and takes from cache_size what the entry has lost.
  pub purge_all_rrsets-test :
      (p : Purged) × ((purge_all_rrsets z now c true w ≡ ok (p, (c, w)))
        × Returns
            (purge_all_rrsets z now c false w)
            (λ r. (r.0 ≡ p) × IsPurged z now c w r.1.0 r.1.1))
  unfolding purge_all_rrsets
  purge_all_rrsets-test =
      let nothing : Purged = record { rv = 0; numrrs = 0; numrrext = 0 } in
      let start : Purging z now c w 0 c w = record {
        sized = s;
        positive = positive;
        room = refl;
        later = λ j below. refl;
        kept = λ j below. absurd (omega (arith, below));
        balance = refl;
        less = omega arith;
      } in
      let (q, (tested, (r, run, (same, h)))) =
        loops z now c w enough (slots c.rrext) 0 nothing c w (omega arith) start in
      let (counts, (left, purged)) =
        freed r.0 r.1.0 r.1.1 (subst (λ k. Purging z now c w k r.1.0 r.1.1) (omega arith) h) in
      (
        (purge_rrext z true q c w).0,
        (
          rw (positive, rrarr_len-slots c positive, tested)
              (ap (λ l. ok ((purge_rrext z true q c w).0, l)) (test_left same left)),
          (
            purge_rrext z false r.0 r.1.0 r.1.1,
            rw (positive, rrarr_len-slots c positive, run) refl,
            (sym counts ∙ ap (λ k. (purge_rrext z true k c w).0) same, purged),
          ),
        ),
      )
    where
      test_left :
          {k q : Purged}
          → k ≡ q
          → (purge_rrext z true k c w).1 ≡ (c, w)
          → (purge_rrext z true q c w).1 ≡ (c, w)
      test_left e left = ap (λ k. (purge_rrext z true k c w).1) (sym e) ∙ left
