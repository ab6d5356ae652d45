-- ===== src/Name/Caseless.antt =====
-- `rhnicmp` decides whether two names are the same up to the case of letters.
use orbot_library.Prelude.{
  ℕ, zero, suc, ◌<◌, ◌≡◌, refl, ◌↔◌, List, [], ◌∷◌, ◌++◌, map, Bool, true, false, ◌&&◌, none, some,
  ok, arith, length, ◌==◌, if◌then◌else◌, append_assoc, length-append,
}
use orbot_library.Name.{to_lower, same_segment, rhnicmp_loop, rhnicmp}
use orbot_library.Name.Labels.{IsName, wire, length-lt-wire}

-- Whether two lists of bytes are the same up to case.
same_bytes : List ℕ → List ℕ → Bool
same_bytes [] [] = true
same_bytes [] (y ∷ b) = false
same_bytes (x ∷ a) [] = false
same_bytes (x ∷ a) (y ∷ b) = (to_lower x == to_lower y) && same_bytes a b

same_labels : List (List ℕ) → List (List ℕ) → Bool
same_labels [] [] = true
same_labels [] (y ∷ b) = false
same_labels (x ∷ a) [] = false
same_labels (x ∷ a) (y ∷ b) = same_bytes x y && same_labels a b

-- The labels with the case of their letters folded.
abbrev pub fold_case : List (List ℕ) → List (List ℕ)
fold_case = map (map to_lower)

same_bytes_iff : (a b : List ℕ) → (same_bytes a b ≡ true) ↔ (map to_lower a ≡ map to_lower b)
unfolding same_bytes
same_bytes_iff [] [] = (λ _. refl, λ _. refl)
same_bytes_iff [] (y ∷ b) = (λ h. cc, λ h. cc)
same_bytes_iff (x ∷ a) [] = (λ h. cc, λ h. cc)
same_bytes_iff (x ∷ a) (y ∷ b) =
    let ih = same_bytes_iff a b in (λ h. ground (arith, ih.0), λ h. ground (arith, ih.1))

same_labels_iff : (a b : List (List ℕ)) → (same_labels a b ≡ true) ↔ (fold_case a ≡ fold_case b)
unfolding same_labels
same_labels_iff [] [] = (λ _. refl, λ _. refl)
same_labels_iff [] (y ∷ b) = (λ h. cc, λ h. cc)
same_labels_iff (x ∷ a) [] = (λ h. cc, λ h. cc)
same_labels_iff (x ∷ a) (y ∷ b) =
    let ih = same_labels_iff a b in
    let here = same_bytes_iff x y in
    (λ h. ground (arith, ih.0, here.0), λ h. ground (arith, ih.1, here.1))

same_segment-append :
    (a b r s : List ℕ)
    → length a ≡ length b
    → same_segment (length a) (a ++ r) (b ++ s) ≡ ok (if same_bytes a b then some (r, s) else none)
unfolding same_segment same_bytes
same_segment-append [] [] r s h = refl
same_segment-append [] (y ∷ b) r s h = absurd (omega arith)
same_segment-append (x ∷ a) [] r s h = absurd (omega arith)
same_segment-append (x ∷ a) (y ∷ b) r s h = ground (arith, same_segment-append a b r s)

same_bytes-length : (a b : List ℕ) → same_bytes a b ≡ true → length a ≡ length b
unfolding same_bytes
same_bytes-length [] [] h = refl
same_bytes-length [] (y ∷ b) h = cc
same_bytes-length (x ∷ a) [] h = cc
same_bytes-length (x ∷ a) (y ∷ b) h = ground (arith, same_bytes-length a b)

rhnicmp_loop-wire :
    (xs ys : List (List ℕ)) (r s : List ℕ) (fuel : ℕ)
    → IsName xs
    → IsName ys
    → length xs < fuel
    → rhnicmp_loop fuel (wire xs ++ r) (wire ys ++ s) ≡ ok (same_labels xs ys)
unfolding rhnicmp_loop same_labels
rhnicmp_loop-wire xs ys r s zero ha hb f = elim f [ ]
rhnicmp_loop-wire [] [] r s (suc fuel) ha hb f = refl
rhnicmp_loop-wire [] (b ∷ ys) r s (suc fuel) ha hb f = ground arith
rhnicmp_loop-wire (a ∷ xs) [] r s (suc fuel) ha hb f = ground arith
rhnicmp_loop-wire (a ∷ xs) (b ∷ ys) r s (suc fuel) ha hb f =
    rw (append_assoc, append_assoc)
      (ground (
        arith,
        same_segment-append a b (wire xs ++ r) (wire ys ++ s),
        same_bytes-length a b,
        rhnicmp_loop-wire xs ys r s fuel ha.1 hb.1,
      ))

-- On two names `rhnicmp` returns, and it returns 1 exactly when their labels are the same up to
-- the case of ASCII letters, whatever follows the names.
pub rhnicmp_iff :
    (xs ys : List (List ℕ)) (r s : List ℕ)
    → IsName xs
    → IsName ys
    → (same : Bool) × (rhnicmp (wire xs ++ r) (wire ys ++ s) ≡ ok same)
      × ((same ≡ true) ↔ (fold_case xs ≡ fold_case ys))
unfolding rhnicmp
rhnicmp_iff xs ys r s ha hb = (
  same_labels xs ys,
  rhnicmp_loop-wire xs ys r s _ ha hb (omega (arith, length-lt-wire xs, length-append (wire xs) r)),
  same_labels_iff xs ys,
)
