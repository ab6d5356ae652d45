-- ===== src/Cache/Ancestors.antt =====
-- What the entries of a cache say of a name that has none, for lookup_cache in pdnsd/src/cache.c.
use orbot_library.Prelude.{ℕ, ◌≡◌, List, [], ◌∷◌, true, false, Option, none, some}
use orbot_library.RrList.{is_local}
use orbot_library.Cent.{Cent, is_negative}
use orbot_library.Cache.{Store}
use orbot_library.Cache.Names.{Lacks, Has}
use orbot_library.Cache.Lookup.{Wild, exact, wildcard, negative, locnerr, is_wild}

-- The label of a wildcard.
abbrev pub star : List ℕ
star = b'*' ∷ []

-- What belongs to a name of which the names from `ls` upward are above it: the place of an entry and
-- *wild. The first of these names, without the root's, that an entry has decides, by its flags.
pub data Above (s : Store) : List (List ℕ) → Option ℕ × Wild → Type 0 where
  at_root : Above s [] (none, exact)
  higher :
      (l : List ℕ) (ls : List (List ℕ)) (out : Option ℕ × Wild)
      → Lacks s (l ∷ ls)
      → Above s ls out
      → Above s (l ∷ ls) out
  denied :
      (l : List ℕ) (ls : List (List ℕ)) (i : ℕ) (c : Cent)
      → Has s (l ∷ ls) i c
      → is_negative c.flags ≡ true
      → Above s (l ∷ ls) (some i, negative)
  starred :
      (l : List ℕ) (ls : List (List ℕ)) (i : ℕ) (c : Cent) (k : ℕ) (w : Cent)
      → Has s (l ∷ ls) i c
      → is_negative c.flags ≡ false
      → is_wild c.flags ≡ true
      → Has s (star ∷ (l ∷ ls)) k w
      → Above s (l ∷ ls) (some k, wildcard)
  unstarred :
      (l : List ℕ) (ls : List (List ℕ)) (i : ℕ) (c : Cent)
      → Has s (l ∷ ls) i c
      → is_negative c.flags ≡ false
      → is_wild c.flags ≡ true
      → Lacks s (star ∷ (l ∷ ls))
      → Above s (l ∷ ls) (none, exact)
  owned :
      (l : List ℕ) (ls : List (List ℕ)) (i : ℕ) (c : Cent)
      → Has s (l ∷ ls) i c
      → is_negative c.flags ≡ false
      → is_wild c.flags ≡ false
      → is_local c.flags ≡ true
      → Above s (l ∷ ls) (some i, locnerr)
  unflagged :
      (l : List ℕ) (ls : List (List ℕ)) (i : ℕ) (c : Cent)
      → Has s (l ∷ ls) i c
      → is_negative c.flags ≡ false
      → is_wild c.flags ≡ false
      → is_local c.flags ≡ false
      → Above s (l ∷ ls) (none, exact)

-- What belongs to a name itself.
pub data Looked (s : Store) : List (List ℕ) → Option ℕ × Wild → Type 0 where
  itself : (ls : List (List ℕ)) (i : ℕ) (c : Cent) → Has s ls i c → Looked s ls (some i, exact)
  no_root : Lacks s [] → Looked s [] (none, exact)
  above :
      (l : List ℕ) (ls : List (List ℕ)) (out : Option ℕ × Wild)
      → Lacks s (l ∷ ls)
      → Above s ls out
      → Looked s (l ∷ ls) out
