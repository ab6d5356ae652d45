-- ===== src/Cache/Names.antt =====
-- The entries of a cache by the labels of their names.
use orbot_library.Prelude.{
  ℕ, suc, ◌+◌, ◌≡◌, refl, sym, ap, ◌∙◌, List, [], ◌∷◌, ◌++◌, append-nil, true, false, Option, none,
  some, ok, read, Returns, Returns-if, Returns->>=, ok-injective, All, arith,
}
use orbot_library.Name.{rhnicmp}
use orbot_library.Name.Labels.{IsName, wire}
use orbot_library.Name.Caseless.{rhnicmp_iff}
use orbot_library.Cent.{Cent}
use orbot_library.Records.Cents.{find_cent}
use orbot_library.Records.Filing.{HasName}
use orbot_library.Cache.{Store, find_name}

-- The entry's name is one of labels.
abbrev pub IsNamed : Cent → Type 0
IsNamed c = (ms : List (List ℕ)) × (IsName ms × (c.qname ≡ wire ms))

-- No entry has the name, up to the case of letters.
abbrev pub Lacks : Store → List (List ℕ) → Type 0
Lacks s ls = All (λ c. ¬ HasName ls c) s.cents

-- An entry at a place has the name.
abbrev pub Has : Store → List (List ℕ) → ℕ → Cent → Type 0
Has s ls k c = (read s.cents k ≡ ok c) × HasName ls c

abbrev Hit : List (List ℕ) → List Cent → ℕ → Option ℕ → Type 0
Hit ls cents i none = All (λ c. ¬ HasName ls c) cents
Hit ls cents i (some j) =
    (k : ℕ) × ((j ≡ i + k) × ((c : Cent) × ((read cents k ≡ ok c) × HasName ls c)))

other_name :
    (c : Cent) (ls : List (List ℕ)) (rest : List ℕ)
    → IsName ls
    → rhnicmp c.qname (wire ls ++ rest) ≡ ok false
    → ¬ HasName ls c
other_name c ls rest n run (ms, (name, (q, same))) =
    let (b, r, iff) = rhnicmp_iff ms ls [] rest name n in
    let cased : rhnicmp c.qname (wire ls ++ rest) ≡ ok b =
      ap (λ x. rhnicmp x (wire ls ++ rest)) (q ∙ sym (append-nil (wire ms))) ∙ r in
    let both : b ≡ false = ok-injective (sym cased ∙ run) in let is : b ≡ true = iff.1 same in cc

find_cent-Hit :
    (cents : List Cent) (ls : List (List ℕ)) (rest : List ℕ) (i : ℕ)
    → All IsNamed cents
    → IsName ls
    → Returns (find_cent cents (wire ls ++ rest) i) (Hit ls cents i)
unfolding find_cent read
find_cent-Hit [] ls rest i a n = (none, refl, _)
find_cent-Hit (c ∷ cents) ls rest i ((ms, (name, q)), a) n =
    let (same, run, iff) = rhnicmp_iff ms ls [] rest name n in
    let cased : rhnicmp c.qname (wire ls ++ rest) ≡ ok same =
      ap (λ x. rhnicmp x (wire ls ++ rest)) (q ∙ sym (append-nil (wire ms))) ∙ run in
    Returns->>= _ _ cased (
      Returns-if (Hit ls (c ∷ cents) i) same
        (λ is. (some i, refl, (0, (omega arith, (c, (refl, (ms, (name, (q, iff.0 is)))))))))
        λ is_not.
          let (o, run2, hit) = find_cent-Hit cents ls rest (i + 1) a n in
          (o, run2, later o hit (other_name c ls rest n (cased ∙ ap ok is_not))))
  where
    later : (o : Option ℕ) → Hit ls cents (i + 1) o → ¬ HasName ls c → Hit ls (c ∷ cents) i o
    later none h other = (other, h)
    later (some j) (k, (e, (d, (r, named)))) other = (suc k, (omega (arith, e), (d, (r, named))))

-- What the search for a name gives: no entry has it, or one at the place does.
abbrev pub Sought : Store → List (List ℕ) → Option ℕ → Type 0
Sought s ls none = Lacks s ls
Sought s ls (some i) = (c : Cent) × Has s ls i c

pub find_name-Sought :
    (s : Store) (ls : List (List ℕ)) (rest : List ℕ)
    → All IsNamed s.cents
    → IsName ls
    → Returns (find_name (wire ls ++ rest) s) (Sought s ls)
unfolding find_name
find_name-Sought s ls rest a n =
    let (o, run, hit) = find_cent-Hit s.cents ls rest 0 a n in (o, run, placed o hit)
  where
    placed : (o : Option ℕ) → Hit ls s.cents 0 o → Sought s ls o
    placed none h = h
    placed (some j) (k, (e, (c, (r, named)))) =
        (c, (ap (read s.cents) (e ∙ omega arith) ∙ r, named))
