-- ===== src/Records/Filing.antt =====
-- The array of entries that rr_to_cache keeps, and the loop that looks for a name in it.
use orbot_library.Prelude.{
  ℕ, zero, suc, ◌+◌, ◌<◌, ◌≡◌, refl, sym, ap, ◌∙◌, ◌⊎◌, List, [], ◌∷◌, ◌++◌, append-nil, false,
  Option, none, some, ok, read, Returns, Returns-if, Returns->>=, length, set, All, arith,
}
use orbot_library.Name.{rhnicmp}
use orbot_library.Name.Labels.{IsName, wire}
use orbot_library.Name.Caseless.{fold_case, rhnicmp_iff}
use orbot_library.Arrays.{DArray}
use orbot_library.Arrays.Growth.{IsAllocated}
use orbot_library.RrList.{is_local}
use orbot_library.Cent.{Sizeof, RrSet, Cent, getrrset}
use orbot_library.Cent.Sizes.{IsSized}
use orbot_library.Cent.Adding.{HasData}
use orbot_library.Query.{rc_ok}
use orbot_library.Records.Cents.{rc_fatalerr, Centa, find_cent}

-- An entry whose account is right, that is not local, and that is named by labels.
abbrev pub IsFiled : Sizeof → Cent → Type 0
IsFiled z c =
    IsSized z c
    × ((is_local c.flags ≡ false) × ((ls : List (List ℕ)) × (IsName ls × (c.qname ≡ wire ls))))

-- All entries of the array are such, and its block has its size.
abbrev pub Kept : Sizeof → Option (DArray Cent) → Type 0
Kept z none = Unit
Kept z (some a) = IsAllocated (some a) × All (IsFiled z) a.elem

-- The entry has the name up to the case of letters.
abbrev pub HasName : List (List ℕ) → Cent → Type 0
HasName ls c =
    (ms : List (List ℕ)) × (IsName ms × ((c.qname ≡ wire ms) × (fold_case ms ≡ fold_case ls)))

-- The array has an entry of the name, and getrrset finds the record there under its type.
abbrev pub Holds : List (List ℕ) → ℕ → List ℕ → Option (DArray Cent) → Type 0
Holds ls type bytes none = ⊥
Holds ls type bytes (some a) =
    (i : ℕ) × ((c : Cent) × ((read a.elem i ≡ ok c)
        × (HasName ls c × ((s : RrSet) × ((getrrset c type ≡ ok (some s)) × HasData bytes s)))))

-- What rr_to_cache promises.
abbrev pub Filed : Sizeof → List (List ℕ) → ℕ → List ℕ → ℕ × Centa → Type 0
Filed z ls type bytes r =
    Kept z r.1.centa × (((r.0 ≡ rc_ok) × Holds ls type bytes r.1.centa) ⊎ (r.0 ≡ rc_fatalerr))

pub All-set :
    (z : Sizeof) (xs : List Cent) (i : ℕ) (v : Cent)
    → All (IsFiled z) xs
    → IsFiled z v
    → All (IsFiled z) (set xs i v)
All-set z [] i v a h = _
All-set z (x ∷ xs) zero v (_, a) h = (h, a)
All-set z (x ∷ xs) (suc i) v (b, a) h = (b, All-set z xs i v a h)

pub All-last :
    (z : Sizeof) (xs : List Cent) (v : Cent)
    → All (IsFiled z) xs
    → IsFiled z v
    → All (IsFiled z) (xs ++ (v ∷ []))
All-last z [] v a h = (h, _)
All-last z (x ∷ xs) v (b, a) h = (b, All-last z xs v a h)

pub All-read :
    (z : Sizeof) (xs : List Cent) (i : ℕ)
    → All (IsFiled z) xs
    → i < length xs
    → (c : Cent) × ((read xs i ≡ ok c) × IsFiled z c)
unfolding read
All-read z [] i a h = elim h [ ]
All-read z (x ∷ xs) zero (b, a) h = (x, (refl, b))
All-read z (x ∷ xs) (suc i) (b, a) h = All-read z xs i a (omega arith)

pub read-set : (xs : List Cent) (i : ℕ) (v : Cent) → i < length xs → read (set xs i v) i ≡ ok v
unfolding read
read-set [] i v h = elim h [ ]
read-set (x ∷ xs) zero v h = refl
read-set (x ∷ xs) (suc i) v h = read-set xs i v (omega arith)

-- The loop over the entries returns, and what it finds is an entry of the name.
abbrev pub Found : List (List ℕ) → List Cent → ℕ → Option ℕ → Type 0
Found ls cents i none = Unit
Found ls cents i (some j) =
    (k : ℕ) × ((j ≡ i + k)
      × ((k < length cents) × ((c : Cent) × ((read cents k ≡ ok c) × HasName ls c))))

pub find_cent-Found :
    (z : Sizeof) (cents : List Cent) (ls : List (List ℕ)) (rest : List ℕ) (i : ℕ)
    → All (IsFiled z) cents
    → IsName ls
    → Returns (find_cent cents (wire ls ++ rest) i) (Found ls cents i)
unfolding find_cent read
find_cent-Found z [] ls rest i a n = (none, refl, _)
find_cent-Found z (c ∷ cents) ls rest i ((_, (_, (ms, (name, q)))), a) n =
    let (same, run, iff) = rhnicmp_iff ms ls [] rest name n in
    let cased : rhnicmp c.qname (wire ls ++ rest) ≡ ok same =
      ap (λ x. rhnicmp x (wire ls ++ rest)) (q ∙ sym (append-nil (wire ms))) ∙ run in
    Returns->>= _ _ cased (
      Returns-if (Found ls (c ∷ cents) i) same
        (λ is. (
          some i,
          refl,
          (0, (omega arith, (omega arith, (c, (refl, (ms, (name, (q, iff.0 is)))))))),
        ))
        λ _.
          let (o, run2, found) = find_cent-Found z cents ls rest (i + 1) a n in
          (o, run2, later o found))
  where
    later : (o : Option ℕ) → Found ls cents (i + 1) o → Found ls (c ∷ cents) i o
    later none _ = _
    later (some j) (k, (e, (h, (d, (r, named))))) =
        (suc k, (omega (arith, e), (omega (arith, h), (d, (r, named)))))
