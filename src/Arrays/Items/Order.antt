-- ===== src/Arrays/Items/Order.antt =====
-- A dlist has its items in the order in which they were added.
use orbot_library.Prelude.{
  ℕ, zero, suc, ◌+◌, ◌-◌, ◌<◌, ◌≤◌, ◌≡◌, refl, sym, ap, ◌∙◌, List, [], ◌∷◌, ◌++◌, Bool, true, false,
  ltb, ◌==◌, Option, none, some, ok, Returns, Returns-if, length, length-append, arith,
}
use orbot_library.Arrays.Items.{
  DList, dlist_align, chunks, word_at, store_word, place_item, dlist_grow, dlist_next, walk,
}

-- Where the items that take the sizes `ss` begin, from a place on: each behind the word before it.
abbrev pub refs : ℕ → List ℕ → List ℕ
refs p [] = []
refs p (s ∷ ss) = (p + 8) ∷ refs (p + s) ss

-- The words in front of the items of the sizes `ss` and of a last item hold the sizes, and 0.
abbrev pub Linked : List (ℕ × ℕ) → ℕ → List ℕ → Type 0
Linked ws p [] = word_at ws p ≡ ok 0
Linked ws p (s ∷ ss) = (word_at ws p ≡ ok s) × ((8 ≤ s) × Linked ws (p + s) ss)

abbrev pub end_of : ℕ → List ℕ → ℕ
end_of p [] = p
end_of p (s ∷ ss) = end_of (p + s) ss

-- The list has items of the sizes `ss`, and one more, the last, inside its block.
pub record Holds (ss : List ℕ) (a : DList) : Type 0 where
  pub linked : Linked a.words 0 ss
  pub place : a.last ≡ end_of 0 ss
  pub size : 8 ≤ a.lastsz
  pub block : a.nalloc ≡ chunks (a.last + a.lastsz)

walk-Linked :
    (a : DList) (p : ℕ) (ss : List ℕ) (s : ℕ) (fuel : ℕ)
    → Linked a.words p ss
    → length ss < fuel
    → walk fuel a (p + 8) ≡ ok (refs p (ss ++ (s ∷ [])))
unfolding walk dlist_next
walk-Linked a p ss s zero h f = absurd (omega (arith, f))
walk-Linked a p [] s (suc fuel) h f = let back : p + 8 - 8 ≡ p = omega arith in rw (back, h) refl
walk-Linked a p (t ∷ ss) s (suc fuel) (e, (big, h)) f =
    let back : p + 8 - 8 ≡ p = omega arith in
    let some_more : (t == 0) ≡ false = ground (arith, big) in
    let next : p + 8 + t ≡ p + t + 8 = omega arith in
    rw (back, e, some_more, next, walk-Linked a (p + t) ss s fuel h (omega (arith, f))) refl

-- A word at a place where the chain has none does not matter.
end-behind : (p : ℕ) (ss : List ℕ) (ws : List (ℕ × ℕ)) → Linked ws p ss → p ≤ end_of p ss
end-behind p [] ws h = omega arith
end-behind p (s ∷ ss) ws (e, (big, h)) = omega (arith, end-behind (p + s) ss ws h)

-- The word of the last item becomes its size, and a new last word stands behind it.
Linked-grow :
    (ws : List (ℕ × ℕ)) (p : ℕ) (ss : List ℕ) (lastsz : ℕ)
    → Linked ws p ss
    → 8 ≤ lastsz
    → Linked ((end_of p ss + lastsz, 0) ∷ (end_of p ss, lastsz) ∷ ws) p (ss ++ (lastsz ∷ []))
unfolding word_at
Linked-grow ws p [] lastsz h big =
    let other : (p + lastsz == p) ≡ false = ground (arith, big) in
    let self : (p == p) ≡ true = ground arith in
    let self2 : (p + lastsz == p + lastsz) ≡ true = ground arith in
    (rw (other, self) refl, (big, rw (self2) refl))
Linked-grow ws p (s ∷ ss) lastsz (e, (bigs, h)) big =
    let behind = end-behind (p + s) ss ws h in
    let other : (end_of (p + s) ss + lastsz == p) ≡ false = ground (arith, behind, bigs) in
    let other2 : (end_of (p + s) ss == p) ≡ false = ground (arith, behind, bigs) in
    (rw (other, other2) e, (bigs, Linked-grow ws (p + s) ss lastsz h big))

refs-append :
    (p : ℕ) (ss : List ℕ) (s : ℕ) → refs p (ss ++ (s ∷ [])) ≡ refs p ss ++ ((end_of p ss + 8) ∷ [])
refs-append p [] s = refl
refs-append p (t ∷ ss) s = ap (λ r. (p + 8) ∷ r) (refs-append (p + t) ss s)

end-append : (p : ℕ) (ss : List ℕ) (s : ℕ) → end_of p (ss ++ (s ∷ [])) ≡ end_of p ss + s
end-append p [] s = refl
end-append p (t ∷ ss) s = end-append (p + t) ss s

dlist_align-enough : (len : ℕ) → len ≤ dlist_align len
unfolding dlist_align
dlist_align-enough len = omega arith

chunks-enough : (n : ℕ) → n ≤ chunks n
unfolding chunks
chunks-enough n = omega arith

-- With enough of the chunks for a larger size, they are the same.
chunks-same : (n m : ℕ) → n ≤ m → ltb (chunks n) m ≡ false → chunks n ≡ chunks m
unfolding chunks
chunks-same n m h e = ground (arith, e, h)

-- What the growth of a list with items of the sizes `ss` and a last one gives: NULL only without
-- memory, or a list with the item after them, which has room for `len` bytes inside the block; the
-- loop over it meets the old references and then the new one.
abbrev pub Appended : Bool → ℕ → List ℕ → DList → Option DList → Type 0
Appended room len ss a none = room ≡ false
Appended room len ss a (some b) =
    Holds (ss ++ (a.lastsz ∷ [])) b
    × ((len + 8 ≤ b.lastsz)
        × ((b.last + b.lastsz ≤ b.nalloc)
            × ((old : List ℕ) × ((walk (length ss + 1) a 8 ≡ ok old)
                  × (walk (length ss + 2) b 8 ≡ ok (old ++ ((b.last + 8) ∷ [])))))))

module _ (room : Bool) (len : ℕ) (ss : List ℕ) (a : DList) (h : Holds ss a) where
  abbrev grown : ℕ → DList
  grown nalloc = record {
    last = a.last + a.lastsz;
    lastsz = dlist_align (len + 8);
    nalloc = nalloc;
    words = (a.last + a.lastsz, 0) ∷ (a.last, a.lastsz) ∷ a.words;
  }

  fits : len + 8 ≤ dlist_align (len + 8)
  fits = dlist_align-enough (len + 8)

  appended :
      (n : ℕ)
      → n ≡ chunks (a.last + a.lastsz + dlist_align (len + 8))
      → Appended room len ss a (some (grown n))
  appended n e =
      let held : Holds (ss ++ (a.lastsz ∷ [])) (grown n) = record {
        linked = rw (h.place) (Linked-grow a.words 0 ss a.lastsz h.linked h.size);
        place = omega (arith, h.place, end-append 0 ss a.lastsz);
        size = omega (arith, fits);
        block = e;
      } in
      (
        held,
        (
          fits,
          (
            omega (arith, e, chunks-enough (a.last + a.lastsz + dlist_align (len + 8))),
            (
              refs 0 (ss ++ (a.lastsz ∷ [])),
              (
                walk-Linked a 0 ss a.lastsz (length ss + 1) h.linked (omega arith),
                walk-Linked (grown n) 0 (ss ++ (a.lastsz ∷ [])) (dlist_align (len + 8))
                      (length ss + 2) held.linked (omega (arith, length-append ss (a.lastsz ∷ [])))
                    ∙ ap ok (
                        refs-append 0 (ss ++ (a.lastsz ∷ [])) (dlist_align (len + 8))
                        ∙ ap (λ q. refs 0 (ss ++ (a.lastsz ∷ [])) ++ ((q + 8) ∷ []))
                            (sym held.place)),
              ),
            ),
          ),
        ),
      )

  -- dlist_grow of a list with items returns: it stores inside the block, and gives NULL only without
  -- memory; else the new item has room for `len` bytes, inside the block and behind all others, and
  -- the loop by dlist_next meets the old items in their order and then the new one.
  pub dlist_grow-Appended : Returns (dlist_grow room (some a) len) (Appended room len ss a)
  unfolding dlist_grow store_word place_item
  dlist_grow-Appended =
      let block = h.block in
      let size = h.size in
      let enough = chunks-enough (a.last + a.lastsz) in
      let enough2 = chunks-enough (a.last + a.lastsz + dlist_align (len + 8)) in
      let inside : ltb a.nalloc (a.last + 8) ≡ false = ground (arith, block, size, enough) in
      let inside2 : ltb (chunks (a.last + a.lastsz + dlist_align (len + 8))) (a.last + a.lastsz + 8)
          ≡ false =
        ground (arith, fits, enough2) in
      rw (inside) (
        Returns-if (Appended room len ss a)
          (ltb (chunks (a.last + a.lastsz)) (a.last + a.lastsz + dlist_align (len + 8)))
          (λ _.
            Returns-if (Appended room len ss a) room
              (λ _. rw (inside2) (
                some (grown (chunks (a.last + a.lastsz + dlist_align (len + 8)))),
                refl,
                appended (chunks (a.last + a.lastsz + dlist_align (len + 8))) refl,
              ))
              λ full. (none, refl, full))
          λ small.
            let same =
              chunks-same (a.last + a.lastsz) (a.last + a.lastsz + dlist_align (len + 8))
                (omega arith) small in
            let inside3 : ltb a.nalloc (a.last + a.lastsz + 8) ≡ false =
              ground (arith, fits, enough2, block, same) in
            rw (inside3) (some (grown a.nalloc), refl, appended a.nalloc (block ∙ same)))

-- The first item of a list: NULL only without memory, or a list with that item.
abbrev pub First : Bool → ℕ → Option DList → Type 0
First room len none = room ≡ false
First room len (some b) = Holds [] b × ((len + 8 ≤ b.lastsz) × (b.last + b.lastsz ≤ b.nalloc))

-- dlist_grow of NULL returns: it gives NULL only without memory, else a list with the one item, in
-- the form that the growth of a list with items wants, which has room for its bytes inside the block.
pub dlist_grow-First : (room : Bool) (len : ℕ) → Returns (dlist_grow room none len) (First room len)
unfolding dlist_grow store_word place_item word_at
dlist_grow-First false len = (none, refl, refl)
dlist_grow-First true len =
    let fits = dlist_align-enough (len + 8) in
    let enough = chunks-enough (dlist_align (len + 8)) in
    let inside : ltb (chunks (dlist_align (len + 8))) (0 + 8) ≡ false =
      ground (arith, fits, enough) in
    rw (inside) (
      _,
      refl,
      (
        record {
          linked = refl;
          place = refl;
          size = omega (arith, fits);
          block = ap chunks (omega arith);
        },
        (fits, omega (arith, enough)),
      ),
    )
