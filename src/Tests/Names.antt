-- ===== src/Tests/Names.antt =====
-- The name walks and conversions on small names.
use orbot_library.Prelude.{
  ℕ, ◌≡◌, ◌↔◌, refl, List, [], ◌∷◌, ◌++◌, Bool, true, some, ok, ◌>>=◌, arith, length, All,
  replicate, min, read, write,
}
use orbot_library.Name.{
  rhnlen, rhnlen_loop, skipsegs, skiprhn, rhnsegcnt, rhnicmp, isnormalencdomname, dns_name_buf_size,
}
use orbot_library.Name.Labels.{wire}
use orbot_library.Name.Walk.{rhnlen-wire, skipsegs-wire, skiprhn-wire, skipsegs-rhnsegcnt}
use orbot_library.Name.Caseless.{fold_case, rhnicmp_iff}
use orbot_library.Name.Safety.{BeginsWithName, isnormalencdomname_iff}
use orbot_library.Text.{str2rhn, str2rhn_loop, rhn2str, is_graph, is_special}
use orbot_library.Text.Spelling.{dotted}
use orbot_library.Text.ToName.{Encodable, str2rhn-dotted, str2rhn_iff}
use orbot_library.Text.Print.{PrintsAsItself, str2rhn-rhn2str}

-- "ab.c." and its encoding.
abbrev ab_c : List (List ℕ)
ab_c = (b'a' ∷ b'b' ∷ []) ∷ (b'c' ∷ []) ∷ []

abbrev ab_c_text : List ℕ
ab_c_text = b'a' ∷ b'b' ∷ b'.' ∷ b'c' ∷ b'.' ∷ []

abbrev name_buffer : List ℕ
name_buffer = replicate 256 7

rhnlen_ab_c : rhnlen (2 ∷ b'a' ∷ b'b' ∷ 1 ∷ b'c' ∷ 0 ∷ 9 ∷ []) ≡ ok 6
unfolding rhnlen rhnlen_loop
rhnlen_ab_c = refl

str2rhn_ab_c :
    str2rhn (ab_c_text ++ (0 ∷ [])) name_buffer
    ≡ ok (true, 2 ∷ b'a' ∷ b'b' ∷ 1 ∷ b'c' ∷ 0 ∷ replicate 250 7)
unfolding str2rhn str2rhn_loop read write
str2rhn_ab_c = refl

rhnlen-wire_example : rhnlen (wire ab_c ++ (9 ∷ [])) ≡ ok 6
rhnlen-wire_example = rhnlen-wire ab_c (9 ∷ []) (omega arith)

skipsegs-wire_example :
    skipsegs (wire ab_c ++ (9 ∷ [])) 1 ≡ ok (wire ((b'c' ∷ []) ∷ []) ++ (9 ∷ []))
skipsegs-wire_example = skipsegs-wire ab_c (9 ∷ []) 1 (omega arith)

skiprhn-wire_example : skiprhn (wire ab_c ++ (9 ∷ [])) ≡ ok (9 ∷ [])
skiprhn-wire_example = skiprhn-wire ab_c (9 ∷ []) (omega arith)

skipsegs-rhnsegcnt_example :
    (rhnsegcnt (wire ab_c ++ (9 ∷ [])) >>= skipsegs (wire ab_c ++ (9 ∷ []))) ≡ ok (0 ∷ 9 ∷ [])
skipsegs-rhnsegcnt_example = skipsegs-rhnsegcnt ab_c (9 ∷ []) (omega arith)

rhnicmp_iff_example :
    (same : Bool) × (rhnicmp (wire ab_c ++ []) (wire ((b'A' ∷ b'b' ∷ []) ∷ (b'c' ∷ []) ∷ []) ++ [])
      ≡ ok same)
    × ((same ≡ true) ↔ (fold_case ab_c ≡ fold_case ((b'A' ∷ b'b' ∷ []) ∷ (b'c' ∷ []) ∷ [])))
rhnicmp_iff_example =
    rhnicmp_iff ab_c ((b'A' ∷ b'b' ∷ []) ∷ (b'c' ∷ []) ∷ []) [] [] (omega arith) (omega arith)

isnormalencdomname_iff_example :
    (b : Bool) × (isnormalencdomname (wire ab_c) 6 ≡ ok b)
    × ((b ≡ true) ↔ BeginsWithName (wire ab_c) (min 6 dns_name_buf_size))
isnormalencdomname_iff_example = isnormalencdomname_iff (wire ab_c) 6 (omega arith)

str2rhn-dotted_example :
    str2rhn (dotted ab_c ++ (0 ∷ [])) name_buffer ≡ ok (true, wire ab_c ++ replicate 250 7)
str2rhn-dotted_example =
    str2rhn-dotted ab_c [] name_buffer (omega arith) (omega arith) (omega arith) (omega arith)

-- A label without a dot behind it.
str2rhn_iff_example :
    (b : Bool) × (out : List ℕ) × (str2rhn ((b'a' ∷ []) ++ (0 ∷ [])) name_buffer ≡ ok (b, out))
    × (length out ≡ 256)
    × ((b ≡ true) ↔ Encodable (b'a' ∷ []))
str2rhn_iff_example = str2rhn_iff (b'a' ∷ []) [] name_buffer (omega arith) (omega arith)

ab_c_prints : All (All PrintsAsItself) ab_c
unfolding is_graph is_special
ab_c_prints = (((refl, refl), ((refl, refl), tt)), (((refl, refl), tt), tt))

str2rhn-rhn2str_example :
    (text : List ℕ) × (rhn2str (wire ab_c ++ []) (replicate 8 7) 8 ≡ ok (some text))
    × (str2rhn text name_buffer ≡ ok (true, wire ab_c ++ replicate 250 7))
str2rhn-rhn2str_example =
    str2rhn-rhn2str ab_c [] (replicate 8 7) name_buffer 8 (omega arith) ab_c_prints (omega arith)
      (omega arith) (omega arith) (omega arith)
