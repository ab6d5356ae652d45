-- ===== src/Arrays/Items.antt =====
-- dlist, the list of items of different sizes in one block, of pdnsd/src/list.c and list.h, where
-- sizeof(size_t) is 8. `data` is known by the words of type size_t that have been stored in it, the
-- newest first.
pub mod Order
use orbot_library.Prelude.{
  ℕ, zero, suc, ◌+◌, ◌-◌, ◌*◌, ◌/◌, List, [], ◌∷◌, Bool, true, false, ltb, ◌==◌, if◌then◌else◌,
  Option, none, some, Run, ok, halt, out_of_bounds, no_fuel, ◌>>=◌,
}

-- struct _dynamic_list_head, with the size of its block behind the head.
pub record DList : Type 0 where
  pub last : ℕ
  pub lastsz : ℕ
  pub nalloc : ℕ
  pub words : List (ℕ × ℕ)

-- DLISTALIGN.
unfoldable pub dlist_align : ℕ → ℕ
dlist_align len = (len + 7) / 8 * 8

-- The multiple of 1024 at or above a size.
unfoldable pub chunks : ℕ → ℕ
chunks n = (n + 1023) / 1024 * 1024

-- The word at an offset; what has not been stored is not read.
unfoldable pub word_at : List (ℕ × ℕ) → ℕ → Run ℕ
word_at [] p = halt out_of_bounds
word_at (x ∷ xs) p = if x.0 == p then ok x.1 else word_at xs p

-- A word stored inside the block.
unfoldable pub store_word : ℕ → ℕ → DList → Run DList
store_word p v a =
    if ltb a.nalloc (p + 8) then halt out_of_bounds else ok (record a { words = (p, v) ∷ a.words })

-- The end of dlist_grow, for the block at hand.
unfoldable pub place_item : ℕ → ℕ → DList → Run (Option DList)
place_item sz szincr a =
    store_word sz 0 (record a { last = sz; lastsz = szincr }) >>= λ b. ok (some b)

-- dlist_grow, where `room` says whether realloc has memory; `none` is NULL.
unfoldable pub dlist_grow : Bool → Option DList → ℕ → Run (Option DList)
dlist_grow room none len =
    if room
    then place_item 0 (dlist_align (len + 8))
        (record { last = 0; lastsz = 0; nalloc = chunks (dlist_align (len + 8)); words = [] })
    else ok none
dlist_grow room (some a) len = store_word a.last a.lastsz a >>= λ b.
    if ltb (chunks (a.last + a.lastsz)) (a.last + a.lastsz + dlist_align (len + 8))
    then (if room
        then place_item (a.last + a.lastsz) (dlist_align (len + 8))
            (record b { nalloc = chunks (a.last + a.lastsz + dlist_align (len + 8)) })
        else ok none)
    else place_item (a.last + a.lastsz) (dlist_align (len + 8)) b

-- dlist_first, dlist_next and dlist_last, with references as offsets into `data`.
unfoldable pub dlist_first : Option DList → Option ℕ
dlist_first none = none
dlist_first (some a) = some 8

unfoldable pub dlist_next : DList → ℕ → Run (Option ℕ)
dlist_next a ref =
    word_at a.words (ref - 8) >>= λ incr. ok (if incr == 0 then none else some (ref + incr))

unfoldable pub dlist_last : Option DList → Option ℕ
dlist_last none = none
dlist_last (some a) = some (a.last + 8)

-- The loop over a list by dlist_next, from a reference on, with fuel for that many items.
unfoldable pub walk : ℕ → DList → ℕ → Run (List ℕ)
walk zero a ref = halt no_fuel
walk (suc fuel) a ref = dlist_next a ref >>= λ n. elim n [
  | none ↦ ok (ref ∷ [])
  | some r ↦ walk fuel a r >>= λ rs. ok (ref ∷ rs)
]
