-- ===== src/RrList.antt =====
-- The list rr_l of pdnsd/src/cache.c, in which the RR sets and negative entries of the cache stand
-- by age. A list is the chain of its `next` links; its `prev` links are the same chain backwards,
-- and a NULL pointer is the empty chain.
pub mod Insertion
pub mod Merge
pub mod Sort
use orbot_library.Prelude.{
  ℕ, zero, suc, ◌+◌, ◌/◌, ◌%◌, List, [], ◌∷◌, ◌++◌, Bool, true, false, Option, none, some, ◌||◌,
  Run, ok, halt, assertion, ◌>>=◌, leb, ◌==◌, if◌then◌else◌,
}

-- The fields of an RR set that the list reads.
pub record RrSetAge : Type 0 where
  pub flags : ℕ
  pub ts : ℕ

-- A node: the RR set, or `none` for a negative entry; the entry, by a number, its flags and its
-- negative time stamp; and the index of the RR set, 0 where the code has -1 for a negative entry.
pub record RrLent : Type 0 where
  pub rrset : Option RrSetAge
  pub cent : ℕ
  pub cent_flags : ℕ
  pub neg_ts : ℕ
  pub idx : ℕ

unfoldable pub get_rrlent_ts : RrLent → ℕ
get_rrlent_ts le = elim le.rrset [ some r ↦ r.ts | none ↦ le.neg_ts ]

-- The bit CF_LOCAL or DF_LOCAL, which is 2 in both.
unfoldable pub is_local : ℕ → Bool
is_local flags = flags / 2 % 2 == 1

-- Entries that insert_rrl does not list.
unfoldable pub is_unlisted : RrLent → Bool
unfolding is_local
is_unlisted ne =
    elim ne.rrset [ some r ↦ is_local r.flags | none ↦ false ] || is_local ne.cent_flags

-- A chain read the other way.
unfoldable pub backwards {ℓ} : {A : Type ℓ} → List A → List A
backwards [] = []
backwards (x ∷ xs) = backwards xs ++ (x ∷ [])

-- The search from the tail over the `prev` links: behind the first node met that is not younger,
-- or at the start of the list.
unfoldable pub insert_from_tail : RrLent → List RrLent → List RrLent
unfolding get_rrlent_ts
insert_from_tail ne [] = ne ∷ []
insert_from_tail ne (le ∷ prev) =
    if leb (get_rrlent_ts le) (get_rrlent_ts ne)
    then ne ∷ le ∷ prev
    else le ∷ insert_from_tail ne prev

-- insert_rrl with the flag insert_sort; `room` says whether malloc has memory. The result is 0 or 1,
-- and the list afterwards.
unfoldable pub insert_rrl : Bool → Bool → RrLent → List RrLent → Bool × List RrLent
unfolding is_unlisted insert_from_tail backwards
insert_rrl insert_sort room ne rrset_l =
    if is_unlisted ne
    then (true, rrset_l)
    else if room
    then (if insert_sort
        then (true, backwards (insert_from_tail ne (backwards rrset_l)))
        else (true, rrset_l ++ (ne ∷ [])))
    else (false, rrset_l)

-- listmerge, its loop over the two chains included.
unfoldable pub listmerge : List RrLent → List RrLent → List RrLent
unfolding get_rrlent_ts
listmerge [] q = q
listmerge (x ∷ p) [] = x ∷ p
listmerge (x ∷ p) (y ∷ q) = elim (leb (get_rrlent_ts x) (get_rrlent_ts y)) [
  | true ↦ x ∷ listmerge p (y ∷ q)
  | false ↦ y ∷ listmerge (x ∷ p) q
]

-- The inner loop of sort_rrl from slot `k` of `tmp` on, up to `fill`, and the store behind it.
unfoldable pub place : ℕ → List RrLent → List (List RrLent) → Run (List (List RrLent))
unfolding listmerge
place k carry [] = if k == 32 then halt assertion else ok (carry ∷ [])
place k carry ([] ∷ tmp) = ok (carry ∷ tmp)
place k carry ((x ∷ l) ∷ tmp) = place (k + 1) (listmerge (x ∷ l) carry) tmp >>= λ r. ok ([] ∷ r)

-- The outer loop over the nodes that remain.
unfoldable pub place_all : List RrLent → List (List RrLent) → Run (List (List RrLent))
unfolding place
place_all [] tmp = ok tmp
place_all (x ∷ rem) tmp = place 0 (x ∷ []) tmp >>= λ r. place_all rem r

-- The loop that merges the slots.
unfoldable pub merge_slots : List RrLent → List (List RrLent) → List RrLent
unfolding listmerge
merge_slots carry [] = carry
merge_slots carry (l ∷ tmp) = merge_slots (listmerge l carry) tmp

unfoldable pub merge_all : List (List RrLent) → List RrLent
unfolding merge_slots
merge_all [] = []
merge_all (l ∷ tmp) = merge_slots l tmp

unfoldable pub sort_rrl : List RrLent → Run (List RrLent)
unfolding place_all merge_all
sort_rrl [] = ok []
sort_rrl (x ∷ []) = ok (x ∷ [])
sort_rrl (x ∷ y ∷ l) = place_all (x ∷ y ∷ l) [] >>= λ tmp. ok (merge_all tmp)
