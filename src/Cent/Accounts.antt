-- ===== src/Cent/Accounts.antt =====
-- The functions that delete RR sets keep the account of the size and of the number.
use orbot_library.Prelude.{
  ℕ, ◌+◌, ◌-◌, ◌<◌, ◌≡◌, refl, sym, ap, subst, ◌∙◌, ◌⊎◌, inl, inr, List, true, false, ltb, Option,
  none, some, ok, Returns, length, arith, Bool-cases,
}
use orbot_library.Cent.{
  Sizeof, RrSet, Cent, World, is_negative, clear_auth, rrarr_index, rrarr_index_testext, rrarr_set,
}
use orbot_library.Cent.Delete.{del_rrset, del_cent_rrset_by_index}
use orbot_library.Cent.Sizes.{
  set_size, set_count, total, ext_cost, slots, IsSized, SlotSet, rrarr_set-SlotSet,
}

-- RRARR_INDEX_TESTEXT finds nothing, or is RRARR_INDEX inside the arrays.
pub testext-cases :
    (c : Cent) (i : ℕ)
    → i < 47
    → (rrarr_index_testext c i ≡ ok none)
      ⊎ ((is_negative c.flags ≡ false)
          × (i < slots c.rrext)
          × (rrarr_index_testext c i ≡ rrarr_index c i))
unfolding rrarr_index_testext rrarr_index
testext-cases c i h = elim (Bool-cases (is_negative c.flags)) [
  | inl neg ↦ inl (rw (neg) refl)
  | inr pos ↦ elim (Bool-cases (ltb i 8)) [
    | inl is ↦ inr (pos, at_least c.rrext is, rw (pos, is) refl)
    | inr is ↦ second c.rrext refl pos is
  ]
]
  where
    at_least : (x : Option (List (Option RrSet))) → ltb i 8 ≡ true → i < slots x
    at_least none is = ground (arith, is)
    at_least (some e) is = ground (arith, is)

    second :
        (x : Option (List (Option RrSet)))
        → c.rrext ≡ x
        → is_negative c.flags ≡ false
        → ltb i 8 ≡ false
        → (rrarr_index_testext c i ≡ ok none)
          ⊎ ((is_negative c.flags ≡ false)
              × (i < slots c.rrext)
              × (rrarr_index_testext c i ≡ rrarr_index c i))
    second none same pos is = inl (rw (pos, is, same) refl)
    second (some e) same pos is =
        inr (pos, subst (λ x. i < slots x) (sym same) h, rw (pos, is, same) refl)

pub clear_auth-is_negative : (n : ℕ) → is_negative (clear_auth n) ≡ is_negative n
unfolding is_negative clear_auth
clear_auth-is_negative n = ground arith

-- The account of an entry that is not negative.
pub pos_size :
    (z : Sizeof) (c : Cent)
    → IsSized z c
    → is_negative c.flags ≡ false
    → c.cs ≡ z.dns_cent + length c.qname + (total (set_size z) c + ext_cost z c.rrext)
pos_size z c s pos = s.size ∙ rw (pos) refl

pub pos_number :
    (z : Sizeof) (c : Cent)
    → IsSized z c
    → is_negative c.flags ≡ false
    → c.num_rrs ≡ total set_count c
pos_number z c s pos = s.number ∙ rw (pos) refl

-- On an entry whose account is right, del_cent_rrset_by_index returns, the account is right
-- afterwards, the size is less by the returned value, and no RR set is found at the index.
pub del_cent_rrset_by_index-IsSized :
    (z : Sizeof) (c : Cent) (i : ℕ) (w : World)
    → IsSized z c
    → i < 47
    → Returns
        (del_cent_rrset_by_index z c i w)
        (λ r. IsSized z r.1.0 × ((r.1.0.cs + r.0 ≡ c.cs) × (rrarr_index_testext r.1.0 i ≡ ok none)))
unfolding del_cent_rrset_by_index del_rrset rrarr_index
del_cent_rrset_by_index-IsSized z c i w s h = elim (testext-cases c i h) [
  | inl nothing ↦ ((0, (c, w)), rw (nothing) refl, (s, (omega arith, nothing)))
  | inr (pos, inside, same) ↦
      let (old, (found, next)) = rrarr_set-SlotSet z c i s.mu_length s.ext_length inside in
      deletes old (same ∙ found) next pos
]
  where
    deletes :
        (old : Option RrSet)
        → rrarr_index_testext c i ≡ ok old
        → ((v : Option RrSet) → Returns (rrarr_set c i v) (SlotSet z c i old v))
        → is_negative c.flags ≡ false
        → Returns (del_cent_rrset_by_index z c i w) (λ r.
          IsSized z r.1.0 × ((r.1.0.cs + r.0 ≡ c.cs) × (rrarr_index_testext r.1.0 i ≡ ok none)))
    deletes none found next pos = ((0, (c, w)), rw (found) refl, (s, (omega arith, found)))
    deletes (some rrs) found next pos =
        let (c2, run, b) = next none in
        let neg : is_negative (clear_auth c2.flags) ≡ false =
          clear_auth-is_negative c2.flags ∙ ap is_negative b.same_flags ∙ pos in
        let rv = (del_rrset z rrs w).0 in
        let size = pos_size z c s pos in
        let number = pos_number z c s pos in
        let c3 : Cent = record c2 {
          num_rrs = c2.num_rrs - 1;
          cs = c2.cs - rv;
          flags = clear_auth c2.flags;
        } in
        (
          (rv, (c3, (del_rrset z rrs w).1)),
          rw (found, run) refl,
          (
            record {
              mu_length = b.mu_length;
              ext_length = b.ext_length;
              size = rw (neg) (
                  omega (
                    arith,
                    size,
                    b.same_cs,
                    b.same_cost,
                    b.balance (set_size z),
                    ap length b.same_qname,
                  ));
              number = rw (neg) (omega (arith, number, b.same_num_rrs, b.balance set_count));
            },
            (
              omega (arith, size, b.same_cs, b.balance (set_size z)),
              elim (testext-cases c3 i h) [
                | inl nothing ↦ nothing
                | inr (_, _, same) ↦ same ∙ b.there
              ],
            ),
          ),
        )
