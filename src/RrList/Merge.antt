-- ===== src/RrList/Merge.antt =====
-- Merging and inserting commute, so a merge of two insertion sorts is the insertion sort of the
-- lists one behind the other.
use orbot_library.Prelude.{◌≡◌, refl, ◌∙◌, List, [], ◌∷◌, ◌++◌, ltb, if◌then◌else◌, arith}
use orbot_library.RrList.{RrLent, get_rrlent_ts, listmerge}

-- Insertion in front of the first node that is younger.
unfoldable pub insert : RrLent → List RrLent → List RrLent
insert e [] = e ∷ []
insert e (x ∷ xs) = if ltb (get_rrlent_ts e) (get_rrlent_ts x) then e ∷ x ∷ xs else x ∷ insert e xs

-- Insertion of nodes, one after the other.
unfoldable pub insert_all : List RrLent → List RrLent → List RrLent
insert_all acc [] = acc
insert_all acc (e ∷ es) = insert_all (insert e acc) es

listmerge-nil : (a : List RrLent) → listmerge a [] ≡ a
unfolding listmerge
listmerge-nil [] = refl
listmerge-nil (x ∷ a) = refl

listmerge-insert :
    (e : RrLent) (a b : List RrLent) → listmerge a (insert e b) ≡ insert e (listmerge a b)
unfolding listmerge insert
listmerge-insert e [] b = refl
listmerge-insert e (x ∷ a) [] = ground (arith, listmerge-insert e a [], listmerge-nil a)
listmerge-insert e (x ∷ a) (y ∷ b) =
    ground (arith, listmerge-insert e a (y ∷ b), listmerge-insert e (x ∷ a) b)

pub listmerge-insert_all :
    (a b es : List RrLent) → listmerge a (insert_all b es) ≡ insert_all (listmerge a b) es
unfolding insert_all
listmerge-insert_all a b [] = refl
listmerge-insert_all a b (e ∷ es) =
    listmerge-insert_all a (insert e b) es ∙ rw (listmerge-insert e a b)

-- The insertion sort of a list.
abbrev pub sorted : List RrLent → List RrLent
sorted = insert_all []

pub insert_all-append :
    (acc xs ys : List RrLent) → insert_all acc (xs ++ ys) ≡ insert_all (insert_all acc xs) ys
unfolding insert_all
insert_all-append acc [] ys = refl
insert_all-append acc (x ∷ xs) ys = insert_all-append (insert x acc) xs ys

pub listmerge-sorted : (xs ys : List RrLent) → listmerge (sorted xs) (sorted ys) ≡ sorted (xs ++ ys)
listmerge-sorted xs ys =
    listmerge-insert_all (sorted xs) [] ys ∙ rw (listmerge-nil, insert_all-append)
