-- ===== src/Records/Cents.antt =====
-- rr_to_cache of pdnsd/src/dns_query.c: the array of cache entries that an answer is sorted into.
use orbot_library.Prelude.{
  ℕ, ◌+◌, List, [], ◌∷◌, Bool, true, false, not, Option, none, some, Run, ok, ◌>>=◌, read, write,
  ◌==◌, if◌then◌else◌,
}
use orbot_library.Name.{rhnicmp}
use orbot_library.Arrays.{DArray, da_nel, grows, da_grow1, da_resize}
use orbot_library.Cent.{Sizeof, Cent, World, allocated}
use orbot_library.Cent.Delete.{free_cent}
use orbot_library.Cent.Add.{blank_cent, init_cent, add_cent_rr}
use orbot_library.Query.{rc_ok}

-- RC_FATALERR.
abbrev pub rc_fatalerr : ℕ
rc_fatalerr = 0xffff

-- The array, and what the entries share.
pub record Centa : Type 0 where
  pub centa : Option (DArray Cent)
  pub world : World

-- The loop over the entries: the index of the first whose name is `oname`.
unfoldable pub find_cent : List Cent → List ℕ → ℕ → Run (Option ℕ)
find_cent [] oname i = ok none
find_cent (c ∷ cents) oname i =
    rhnicmp c.qname oname >>= λ same. if same then ok (some i) else find_cent cents oname (i + 1)

-- free_cent0 for each entry that da_grow1 cleans up.
unfoldable pub free_cents : Sizeof → List Cent → World → World
free_cents z [] w = w
free_cents z (c ∷ cents) w = free_cents z cents (free_cent z c w)

unfoldable pub rr_code : Bool → ℕ
rr_code true = rc_ok
rr_code false = rc_fatalerr

-- add_cent_rr to the entry `c` in place `i`, and its code.
unfoldable pub add_at :
    Sizeof → DArray Cent → ℕ → Cent → ℕ → ℕ → ℕ → ℕ → List ℕ → World → Run (ℕ × Centa)
unfolding rr_code
add_at z a i c tp ttl queryts flags bytes w = add_cent_rr z c tp ttl queryts flags bytes w >>= λ r.
    write a.elem i r.1.0 >>= λ cents. ok (
      rr_code r.0,
      record { centa = some (record { elem = cents; nalloc = a.nalloc }); world = r.1.1 },
    )

-- The new entry that DA_LAST has, for which `blank` stands before init_cent; `n` is the number of
-- entries before.
unfoldable pub init_last :
    Sizeof → ℕ → Cent → DArray Cent → List ℕ → ℕ → ℕ → ℕ → ℕ → List ℕ → World → Run (ℕ × Centa)
init_last z n blank a oname tp ttl queryts flags bytes w = init_cent z oname 0 0 0 w >>= λ r.
    elim r.0 [
      | none ↦ ok (
        rc_fatalerr,
        record { centa = (da_resize (not (r.1.room == 0)) (some a) n blank).0; world = r.1 },
      )
      | some c ↦ add_at z a n c tp ttl queryts flags bytes r.1
    ]

-- DA_GROW1_F(*centa,free_cent0) and what follows.
unfoldable pub add_entry :
    Sizeof → Option (DArray Cent) → List ℕ → ℕ → ℕ → ℕ → ℕ → List ℕ → World → Run (ℕ × Centa)
unfolding da_nel
add_entry z centa oname tp ttl queryts flags bytes w =
    let blank = blank_cent [] 0 0 in
    let g = da_grow1 (not (w.room == 0)) centa blank in
    elim g.0 [
      | none ↦ ok (rc_fatalerr, record { centa = none; world = free_cents z g.1 w })
      | some a ↦
          init_last z (da_nel centa) blank a oname tp ttl queryts flags bytes
            (if grows centa then allocated w else w)
    ]

unfoldable pub rr_to_cache :
    Sizeof → Option (DArray Cent) → List ℕ → ℕ → ℕ → ℕ → ℕ → List ℕ → World → Run (ℕ × Centa)
rr_to_cache z none oname tp ttl queryts flags bytes w =
    add_entry z none oname tp ttl queryts flags bytes w
rr_to_cache z (some a) oname tp ttl queryts flags bytes w = find_cent a.elem oname 0 >>= λ found.
    elim found [
      | none ↦ add_entry z (some a) oname tp ttl queryts flags bytes w
      | some i ↦ read a.elem i >>= λ c. add_at z a i c tp ttl queryts flags bytes w
    ]
