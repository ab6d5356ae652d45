-- ===== src/Records/Kinds.antt =====
-- The switch on the type of a record stays inside the message and the buffers.
use orbot_library.Prelude.{
  ℕ, zero, suc, ◌+◌, ◌-◌, ◌*◌, ◌%◌, ◌≤◌, ◌≡◌, refl, List, [], ◌++◌, Bool, true, false, not, Option,
  none, some, ok, ◌>>=◌, ltb, leb, ◌==◌, if◌then◌else◌, Returns, Returns-if, Returns->>=,
  read-Returns, length, length-append, length-take, length-drop, take, drop, replicate, arith,
}
use orbot_library.Name.Safety.{isnormalencdomname_iff}
use orbot_library.Message.{Decoded, decoded, refused}
use orbot_library.Message.Decompress.{Decoding, decompress_name-Decoding}
use orbot_library.Query.{rc_format}
use orbot_library.Records.{
  Rdata, bad_data, as_is, rebuilt, data_code, bytes_at, copy_bytes_at, names_at, whole, soa_rest,
  nxt_rest, naptr_length, naptr_data, plain_name, ipseckey_gateway, ipseckey_data, rrsig_data,
  has_name, has_names, has_preference, rdata,
}
use orbot_library.Records.Data.{
  length-replicate, bytes_at-Returns, copy_bytes_at-Returns, data_code-format, names_at-Parts,
  InBuffers, whole-InBuffers, names_data-InBuffers, prefixed_data-InBuffers, soa_rest-InBuffers,
  nxt_rest-InBuffers,
}

-- A length found lies inside the record and below a bound.
abbrev Strings : ℕ → ℕ → Option ℕ → Type 0
Strings blcnt most none = Unit
Strings blcnt most (some n) = (n ≤ blcnt) × (n ≤ most)

module _ (msg : List ℕ) (rdlength : ℕ) where
  -- The text strings are inside the record, and their length is bounded.
  naptr_length-Returns :
      (j bptr blcnt len : ℕ)
      → bptr + blcnt ≤ length msg
      → Returns (naptr_length j msg bptr blcnt len) (Strings blcnt (len + j * 256))
  unfolding naptr_length
  naptr_length-Returns zero bptr blcnt len h = last (ltb blcnt len) refl
    where
      last :
          (b : Bool)
          → ltb blcnt len ≡ b
          → Returns (ok (if b then none else some len)) (Strings blcnt (len + 0 * 256))
      last true e = (_, refl, _)
      last false e = (_, refl, (ground (arith, e), omega arith))
  naptr_length-Returns (suc j) bptr blcnt len h =
      Returns-if _ (leb blcnt len) (λ _. (_, refl, _))
        λ long.
          let (b, e) = read-Returns msg (bptr + len) (ground (arith, long)) in
          let (l, run, bound) = naptr_length-Returns j bptr blcnt (len + (b % 256 + 1)) h in
          Returns->>= _ _ e (l, run, wider b l bound)
    where
      wider :
          (b : ℕ) (l : Option ℕ)
          → Strings blcnt (len + (b % 256 + 1) + j * 256) l
          → Strings blcnt (len + suc j * 256) l
      wider b none _ = _
      wider b (some n) (inside, size) = (inside, omega (arith, size))

  naptr_data-InBuffers :
      (bptr blcnt : ℕ)
      → bptr + blcnt ≤ length msg
      → Returns (naptr_data msg bptr blcnt 1028) (InBuffers rdlength)
  unfolding naptr_data
  naptr_data-InBuffers bptr blcnt inside =
      let (l, run, bound) = naptr_length-Returns 3 bptr blcnt 4 inside in
      Returns->>= _ _ run (strings l bound)
    where
      strings :
          (l : Option ℕ)
          → Strings blcnt (4 + 3 * 256) l
          → Returns {V = Rdata}
              (elim l [
                | none ↦ ok (bad_data rc_format)
                | some len ↦ copy_bytes_at len msg bptr 1028 >>= λ db.
                    names_at 1 msg (bptr + len) (blcnt - len) db (1028 - len) >>= λ r. ok (whole r)
              ])
              (InBuffers rdlength)
      strings none _ = (_, refl, refl)
      strings (some len) (less, most) =
          let (db, run, same) =
            copy_bytes_at-Returns len msg bptr 1028 (omega (arith, less)) (omega (arith, most)) in
          let (p, run2, parts) =
            names_at-Parts 1 msg (bptr + len) (blcnt - len) db (1028 - len) (bptr + blcnt)
              (omega (arith, less)) (omega (arith, most)) in
          Returns->>= _ _ run (
            Returns->>= _ _ run2 (
              whole p,
              refl,
              whole-InBuffers msg rdlength (bptr + blcnt) (length db + 1 * 256) p
                  (omega (arith, same, most)) parts,
            ))

  plain_name-InBuffers :
      (n ptr bptr blcnt : ℕ)
      → bptr + blcnt ≤ length msg
      → ptr + n ≡ bptr
      → n + blcnt ≤ rdlength
      → Returns (plain_name n msg ptr bptr blcnt) (InBuffers rdlength)
  unfolding plain_name
  plain_name-InBuffers n ptr bptr blcnt inside start size =
      let (b, run, _) =
        isnormalencdomname_iff (drop bptr msg) blcnt (omega (arith, length-drop bptr msg)) in
      let (r, run2, d) =
        decompress_name-Decoding msg bptr blcnt (replicate 256 0)
          (omega (arith, length-replicate 256 0)) in
      Returns->>= _ _ run
        (Returns-if _ b (λ _. (_, refl, _)) λ _. Returns->>= _ _ run2 (behind r d))
    where
      behind :
          (r : Decoded)
          → Decoding msg bptr blcnt blcnt bptr 0 [] (replicate 256 0) r
          → Returns {V = Rdata}
              (elim r [
                | refused why ↦ ok (bad_data (data_code why))
                | decoded bptr' blcnt' len out ↦ bytes_at n msg ptr >>= λ first.
                    bytes_at blcnt' msg bptr' >>= λ rest.
                    ok (rebuilt (first ++ (take len out ++ rest)))
              ])
              (InBuffers rdlength)
      behind (refused why) d = (_, refl, data_code-format why)
      behind (decoded bptr' blcnt' len out) (ls, _, _, _, most, _, moved, less) =
          let (first, run, same) = bytes_at-Returns n msg ptr (omega arith) in
          let (rest, run2, same2) = bytes_at-Returns blcnt' msg bptr' (omega (arith, moved)) in
          Returns->>= _ _ run (
            Returns->>= _ _ run2 (
              _,
              refl,
              omega (
                arith,
                same,
                same2,
                most,
                less,
                length-append first (take len out ++ rest),
                length-append (take len out) rest,
                length-take len out,
              ),
            ))

  short : (b : Bool) → InBuffers rdlength (if b then bad_data rc_format else as_is)
  short true = refl
  short false = _

  ipseckey_gateway-InBuffers :
      (gwtp ptr blcnt : ℕ)
      → ptr + 3 + blcnt ≤ length msg
      → 3 + blcnt ≤ rdlength
      → Returns (ipseckey_gateway gwtp msg ptr blcnt) (InBuffers rdlength)
  unfolding ipseckey_gateway
  ipseckey_gateway-InBuffers gwtp ptr blcnt inside size =
      Returns-if _ (gwtp == 0) (λ _. (_, refl, _))
        λ _.
          Returns-if _ (gwtp == 1) (λ _. (_, refl, short (ltb blcnt 4)))
            λ _.
              Returns-if _ (gwtp == 2) (λ _. (_, refl, short (ltb blcnt 16)))
                λ _.
                  Returns-if _ (gwtp == 3)
                    (λ _. plain_name-InBuffers 3 ptr (ptr + 3) blcnt inside refl size)
                    λ _. (_, refl, refl)

  -- The switch on the type, for data inside the message, reads inside the message, writes inside its
  -- buffers and returns, whatever the data are. Where it returns a code, that is RC_FORMAT.
  pub rdata-InBuffers :
      (type ptr : ℕ)
      → ptr + rdlength ≤ length msg
      → Returns (rdata type msg ptr rdlength) (InBuffers rdlength)
  unfolding rdata ipseckey_data rrsig_data
  rdata-InBuffers type ptr inside =
      Returns-if _ (type == 1) (λ _. (_, refl, short (not (rdlength == 4))))
        λ _.
          Returns-if _ (has_name type)
            (λ _. names_data-InBuffers msg rdlength 1 ptr rdlength 256 (omega arith) (omega arith))
            λ _.
              Returns-if _ (has_names type)
                (λ _.
                  names_data-InBuffers msg rdlength 2 ptr rdlength 512 (omega arith) (omega arith))
                λ _.
                  Returns-if _ (has_preference type)
                    (λ _.
                      prefixed_data-InBuffers msg rdlength 2 1 ptr rdlength 258 inside (omega arith)
                        (omega arith))
                    λ _.
                      Returns-if _ (type == 6) (λ _. soa)
                        λ _.
                          Returns-if _ (type == 28) (λ _. (_, refl, short (not (rdlength == 16))))
                            λ _.
                              Returns-if _ (type == 26)
                                (λ _.
                                  prefixed_data-InBuffers msg rdlength 2 2 ptr rdlength 514 inside
                                    (omega arith) (omega arith))
                                λ _.
                                  Returns-if _ (type == 33)
                                    (λ _.
                                      prefixed_data-InBuffers msg rdlength 6 1 ptr rdlength 262
                                        inside (omega arith) (omega arith))
                                    λ _.
                                      Returns-if _ (type == 30) (λ _. nxt)
                                        λ _.
                                          Returns-if _ (type == 35)
                                            (λ _. naptr_data-InBuffers ptr rdlength inside)
                                            λ _.
                                              Returns-if _ (type == 45) (λ _. ipseckey)
                                                λ _.
                                                  Returns-if _ (type == 46) (λ _. rrsig)
                                                    λ _.
                                                      Returns-if _ (type == 47)
                                                        (λ _.
                                                          plain_name-InBuffers 0 ptr ptr rdlength
                                                            inside (omega arith) (omega arith))
                                                        λ _. (_, refl, _)
    where
      soa :
          Returns
            (names_at 2 msg ptr rdlength [] 532 >>= λ r. soa_rest msg 532 r)
            (InBuffers rdlength)
      soa =
          let (p, run, parts) =
            names_at-Parts 2 msg ptr rdlength [] 532 (ptr + rdlength) refl (omega arith) in
          Returns->>= _ _ run (soa_rest-InBuffers msg rdlength (ptr + rdlength) p inside parts)

      nxt :
          Returns
            (names_at 1 msg ptr rdlength [] 1040 >>= λ r. nxt_rest msg 1040 r)
            (InBuffers rdlength)
      nxt =
          let (p, run, parts) =
            names_at-Parts 1 msg ptr rdlength [] 1040 (ptr + rdlength) refl (omega arith) in
          Returns->>= _ _ run (nxt_rest-InBuffers msg rdlength (ptr + rdlength) p inside parts)

      ipseckey : Returns (ipseckey_data msg ptr rdlength) (InBuffers rdlength)
      ipseckey =
          Returns-if _ (ltb rdlength 3) (λ _. (_, refl, refl))
            λ long.
              let (gwtp, e) = read-Returns msg (ptr + 1) (ground (arith, long)) in
              Returns->>= _ _ e (
                ipseckey_gateway-InBuffers gwtp ptr (rdlength - 3) (ground (arith, long))
                  (ground (arith, long)))

      rrsig : Returns (rrsig_data msg ptr rdlength) (InBuffers rdlength)
      rrsig =
          Returns-if _ (ltb rdlength 18) (λ _. (_, refl, refl))
            λ long.
              plain_name-InBuffers 18 ptr (ptr + 18) (rdlength - 18) (ground (arith, long)) refl
                (ground (arith, long))
