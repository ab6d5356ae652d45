-- ===== src/RrList/Insertion.antt =====
-- insert_rrl on a list in the order of age.
use orbot_library.Prelude.{
  ℕ, ◌≤◌, ◌<◌, ◌≡◌, refl, sym, ap, ◌∙◌, List, [], ◌∷◌, ◌++◌, Bool, true, false, leb, ltb,
  if◌then◌else◌, arith, Bool-cases, inl, inr, All, append_assoc, append-nil, ltb-false, lt→ltb,
  leb→le,
}
use orbot_library.RrList.{
  RrLent, get_rrlent_ts, is_unlisted, backwards, insert_from_tail, insert_rrl,
}
use orbot_library.RrList.Merge.{insert, insert_all}

-- The list read from its tail goes to older and older nodes.
abbrev pub IsDescending : List RrLent → Type 0
IsDescending [] = Unit
IsDescending (y ∷ r) = All (λ e. get_rrlent_ts e ≤ get_rrlent_ts y) r × IsDescending r

All-mono :
    (t u : ℕ) (r : List RrLent)
    → t ≤ u
    → All (λ e. get_rrlent_ts e ≤ t) r
    → All (λ e. get_rrlent_ts e ≤ u) r
All-mono t u [] h a = a
All-mono t u (y ∷ r) h (p, a) = (omega arith, All-mono t u r h a)

backwards-append : (r s : List RrLent) → backwards (r ++ s) ≡ backwards s ++ backwards r
unfolding backwards
backwards-append [] s = sym (append-nil (backwards s))
backwards-append (x ∷ r) s =
    rw (backwards-append r s) (append_assoc (backwards s) (backwards r) (x ∷ []))

pub backwards-backwards : (r : List RrLent) → backwards (backwards r) ≡ r
unfolding backwards
backwards-backwards [] = refl
backwards-backwards (x ∷ r) = rw (backwards-append (backwards r) (x ∷ []), backwards-backwards r)

-- Insertion goes past nodes that are not younger,
insert-past :
    (e : RrLent) (xs ys : List RrLent)
    → All (λ x. get_rrlent_ts x ≤ get_rrlent_ts e) xs
    → insert e (xs ++ ys) ≡ xs ++ insert e ys
unfolding insert
insert-past e [] ys a = refl
insert-past e (x ∷ xs) ys (h, a) =
    rw (ltb-false (get_rrlent_ts e) (get_rrlent_ts x) h, insert-past e xs ys a)

-- and never past a younger one.
insert-before :
    (e y : RrLent) (xs : List RrLent)
    → get_rrlent_ts e < get_rrlent_ts y
    → insert e (xs ++ (y ∷ [])) ≡ insert e xs ++ (y ∷ [])
unfolding insert
insert-before e y [] h = rw (lt→ltb (get_rrlent_ts e) (get_rrlent_ts y) h)
insert-before e y (x ∷ xs) h = elim (Bool-cases (ltb (get_rrlent_ts e) (get_rrlent_ts x))) [
  | inl is ↦ rw (is)
  | inr is ↦ rw (is, insert-before e y xs h)
]

All-append :
    (t : ℕ) (xs ys : List RrLent)
    → All (λ x. get_rrlent_ts x ≤ t) xs
    → All (λ x. get_rrlent_ts x ≤ t) ys
    → All (λ x. get_rrlent_ts x ≤ t) (xs ++ ys)
All-append t [] ys a b = b
All-append t (x ∷ xs) ys (h, a) b = (h, All-append t xs ys a b)

All-backwards :
    (t : ℕ) (r : List RrLent)
    → All (λ x. get_rrlent_ts x ≤ t) r
    → All (λ x. get_rrlent_ts x ≤ t) (backwards r)
unfolding backwards
All-backwards t [] a = a
All-backwards t (x ∷ r) (h, a) = All-append t (backwards r) (x ∷ []) (All-backwards t r a) (h, _)

insert_from_tail-insert :
    (ne : RrLent) (r : List RrLent)
    → IsDescending r
    → backwards (insert_from_tail ne r) ≡ insert ne (backwards r)
unfolding insert_from_tail backwards insert
insert_from_tail-insert ne [] d = refl
insert_from_tail-insert ne (y ∷ r) (a, d) =
    elim (Bool-cases (leb (get_rrlent_ts y) (get_rrlent_ts ne))) [
      | inl is ↦
          let h = leb→le (get_rrlent_ts y) (get_rrlent_ts ne) is in
          let all =
            All-append (get_rrlent_ts ne) (backwards r) (y ∷ [])
              (All-backwards _ r (All-mono (get_rrlent_ts y) (get_rrlent_ts ne) r h a)) (h, _) in
          let past = insert-past ne (backwards r ++ (y ∷ [])) [] all in rw (is, ← past, append-nil)
      | inr is ↦
          rw (is, insert_from_tail-insert ne r d)
            (sym (insert-before ne y (backwards r) (ground (arith, is))))
    ]

insert_from_tail-All :
    (t : ℕ) (ne : RrLent) (r : List RrLent)
    → get_rrlent_ts ne ≤ t
    → All (λ x. get_rrlent_ts x ≤ t) r
    → All (λ x. get_rrlent_ts x ≤ t) (insert_from_tail ne r)
unfolding insert_from_tail
insert_from_tail-All t ne [] h a = (h, _)
insert_from_tail-All t ne (y ∷ r) h (k, a) =
    elim (Bool-cases (leb (get_rrlent_ts y) (get_rrlent_ts ne))) [
      | inl is ↦ rw (is) (h, (k, a))
      | inr is ↦ rw (is) (k, insert_from_tail-All t ne r h a)
    ]

insert_from_tail-IsDescending :
    (ne : RrLent) (r : List RrLent) → IsDescending r → IsDescending (insert_from_tail ne r)
unfolding insert_from_tail
insert_from_tail-IsDescending ne [] d = (_, _)
insert_from_tail-IsDescending ne (y ∷ r) (a, d) =
    elim (Bool-cases (leb (get_rrlent_ts y) (get_rrlent_ts ne))) [
      | inl is ↦
          let h = leb→le (get_rrlent_ts y) (get_rrlent_ts ne) is in
          rw (is) ((h, All-mono _ _ r h a), (a, d))
      | inr is ↦ rw (is) (
        insert_from_tail-All (get_rrlent_ts y) ne r (ground (arith, is)) a,
        insert_from_tail-IsDescending ne r d,
      )
    ]

-- Insertion of nodes by insert_rrl, where there is memory.
unfoldable pub add_all : Bool → List RrLent → List RrLent → List RrLent
add_all insert_sort l [] = l
add_all insert_sort l (e ∷ es) = add_all insert_sort (insert_rrl insert_sort true e l).1 es

-- The nodes that are listed.
abbrev pub listed : List RrLent → List RrLent
listed [] = []
listed (e ∷ es) = if is_unlisted e then listed es else e ∷ listed es

pub add_all-append : (l es : List RrLent) → add_all false l es ≡ l ++ listed es
unfolding add_all insert_rrl
add_all-append l [] = sym (append-nil l)
add_all-append l (e ∷ es) = elim (Bool-cases (is_unlisted e)) [
  | inl is ↦ rw (is, add_all-append l es)
  | inr is ↦ rw (is, add_all-append (l ++ (e ∷ [])) es) (append_assoc l (e ∷ []) (listed es))
]

pub add_all-insert :
    (r es : List RrLent)
    → IsDescending r
    → add_all true (backwards r) es ≡ insert_all (backwards r) (listed es)
unfolding add_all insert_rrl insert_all
add_all-insert r [] d = refl
add_all-insert r (e ∷ es) d = elim (Bool-cases (is_unlisted e)) [
  | inl is ↦ rw (is, add_all-insert r es d)
  | inr is ↦
      rw (is, backwards-backwards r)
        (add_all-insert (insert_from_tail e r) es (insert_from_tail-IsDescending e r d)
          ∙ ap (λ l. insert_all l (listed es)) (insert_from_tail-insert e r d))
]
