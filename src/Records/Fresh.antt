-- ===== src/Records/Fresh.antt =====
-- init_cent makes an entry whose account is right.
use orbot_library.Prelude.{
  ℕ, ◌+◌, ◌≡◌, refl, List, ◌++◌, false, Option, none, some, Returns, Returns-if, Returns->>=, ◌==◌,
  length, take-append, arith,
}
use orbot_library.Name.Labels.{IsName, wire}
use orbot_library.Name.Walk.{rhnlen-wire}
use orbot_library.RrList.{is_local}
use orbot_library.Cent.{Sizeof, Cent, World, is_negative}
use orbot_library.Cent.Add.{blank_cent, init_cent}
use orbot_library.Cent.Sizes.{IsSized}

-- init_cent for a name: an entry of that name whose account is right.
abbrev pub Made : Sizeof → List (List ℕ) → Option Cent × World → Type 0
Made z ls (none, w) = Unit
Made z ls (some c, w) = IsSized z c × ((is_local c.flags ≡ false) × (c.qname ≡ wire ls))

blank-IsSized : (z : Sizeof) (q : List ℕ) → IsSized z (blank_cent q (z.dns_cent + length q) 0)
unfolding blank_cent is_negative
blank-IsSized z q = record { mu_length = refl; ext_length = _; size = omega arith; number = refl }

pub init_cent-Made :
    (z : Sizeof) (ls : List (List ℕ)) (rest : List ℕ) (w : World)
    → IsName ls
    → Returns (init_cent z (wire ls ++ rest) 0 0 0 w) (Made z ls)
unfolding init_cent is_negative is_local
init_cent-Made z ls rest w n = Returns->>= _ _ (rhnlen-wire ls rest n) (
    Returns-if (Made z ls) (w.room == 0) (λ _. (_, refl, _))
      λ _. rw (take-append (wire ls) rest) (_, refl, (blank-IsSized z (wire ls), (refl, refl))))
