-- ===== src/Records/Heads.antt =====
-- The head of a record in rrs2cent, and the types that are cached.
use orbot_library.Prelude.{
  ℕ, ◌+◌, ◌-◌, ◌≤◌, ◌<◌, ◌≡◌, refl, ◌∙◌, List, [], ◌++◌, Bool, true, false, ◌&&◌, ◌||◌, ok, read,
  Returns, Returns-if, Returns->>=, read-Returns, ltb, leb, ◌==◌, length, drop, arith,
}
use orbot_library.Name.Labels.{IsName, wire}
use orbot_library.Message.{Refusal, truncated, format_error, Decoded, decoded, refused}
use orbot_library.Message.Decompress.{Decoding}
use orbot_library.Header.Words.{get_int16-Returns, get_int32-Returns}
use orbot_library.Cent.{Sizeof, nrrtot, rrlkuptab}
use orbot_library.Cent.Add.{type_index}
use orbot_library.Query.{rc_ok, rc_format, rc_trunc, refusal_code, name_buffer}
use orbot_library.Records.Cents.{rc_fatalerr}
use orbot_library.Records.Filing.{Kept}
use orbot_library.Records.Answer.{Parse, Rr, RecordStep, return, go_on, not_cached_type, read_rr}

-- A type is not to be cached, or it has an index.
abbrev pub Cached : ℕ → Bool → Type 0
Cached type true = Unit
Cached type false = (i : ℕ) × ((type_index type ≡ ok i) × (i < 47))

pub not_cached_type-Cached : (type : ℕ) → Returns (not_cached_type type) (Cached type)
unfolding not_cached_type type_index
not_cached_type-Cached type =
    Returns-if (Cached type) (ltb type 1 || ltb 51 type) (λ _. (_, refl, _))
      λ inside.
        let (i, e) = read-Returns rrlkuptab (type - 1) (ground (arith, inside)) in
        let known : (leb 1 type && ltb (type - 1) 51) ≡ true = ground (arith, inside) in
        Returns->>= (Cached type) _ e (by_index i e known (leb nrrtot i) refl)
  where
    by_index :
        (i : ℕ)
        → read rrlkuptab (type - 1) ≡ ok i
        → (leb 1 type && ltb (type - 1) 51) ≡ true
        → (b : Bool) → leb nrrtot i ≡ b
        → Returns (ok b) (Cached type)
    by_index i e known true over = (true, refl, _)
    by_index i e known false under = (false, refl, (i, (rw (known) e, ground (arith, under))))

-- The codes that rrs2cent can return.
abbrev pub is_code : ℕ → Bool
is_code rc = (rc == rc_ok) || (rc == rc_format) || (rc == rc_trunc) || (rc == rc_fatalerr)

-- *ptr and *lcnt meet the end of the message, the array is in order, and the code is one of four.
abbrev pub InOrder : Sizeof → List ℕ → Parse → Type 0
InOrder z msg s = (s.ptr + s.lcnt ≡ length msg) × (Kept z s.cents.centa × (is_code s.retval ≡ true))

pub refusal-is_code : (why : Refusal) → is_code (refusal_code why) ≡ true
unfolding refusal_code
refusal-is_code truncated = refl
refusal-is_code format_error = refl

-- A record whose name is labels, whose TTL is inside the message, and whose data are not longer
-- than what is left.
abbrev pub IsRead : List ℕ → Parse → Rr → Type 0
IsRead msg s rr =
    (rr.rdlength ≤ s.lcnt)
    × ((rr.ttlp + 4 ≤ length msg)
        × ((ls : List (List ℕ)) × (IsName ls × ((rest : List ℕ) × (rr.oname ≡ wire ls ++ rest)))))

module _ (z : Sizeof) (msg : List ℕ) where
  -- A round returns in order, or goes on in order with a property.
  abbrev pub Rounds : {T : Type 0} → (Parse → T → Type 0) → RecordStep T → Type 0
  Rounds P (return s) = InOrder z msg s
  Rounds P (go_on s t) = InOrder z msg s × P s t

  pub read_rr-Rounds :
      (s : Parse) (d : Decoded)
      → InOrder z msg s
      → Decoding msg s.ptr s.lcnt s.lcnt s.ptr 0 [] name_buffer d
      → Returns (read_rr msg s d) (Rounds (IsRead msg))
  unfolding read_rr
  read_rr-Rounds s (refused why) (e, (kept, code)) d = (_, refl, (e, (kept, refusal-is_code why)))
  read_rr-Rounds s (decoded ptr lcnt len oname) (e, (kept, code))
        (ls, name, _, _, _, bytes, moved, less) =
      let inside : ptr + lcnt ≡ length msg = moved ∙ e in
      Returns-if (Rounds (IsRead msg)) (ltb lcnt 10) (λ _. (_, refl, (inside, (kept, refl))))
        λ long.
          let (type, e1) = get_int16-Returns msg ptr (ground (arith, long, inside)) in
          let (class, e2) = get_int16-Returns msg (ptr + 2) (ground (arith, long, inside)) in
          let (ttl, e3) = get_int32-Returns msg (ptr + 4) (ground (arith, long, inside)) in
          let (rdlength, e4) = get_int16-Returns msg (ptr + 8) (ground (arith, long, inside)) in
          Returns->>= _ _ e1 (
            Returns->>= _ _ e2 (
              Returns->>= _ _ e3 (
                Returns->>= _ _ e4 (
                  Returns-if (Rounds (IsRead msg)) (ltb (lcnt - 10) rdlength)
                    (λ _. (_, refl, (ground (arith, long, inside), (kept, refl))))
                    λ fits. (
                      _,
                      refl,
                      (
                        (ground (arith, long, inside), (kept, code)),
                        (
                          ground (arith, fits),
                          (
                            ground (arith, long, inside),
                            (ls, (name, (drop (length (wire ls)) name_buffer, bytes))),
                          ),
                        ),
                      ),
                    )))))
