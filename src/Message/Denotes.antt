-- ===== src/Message/Denotes.antt =====
-- The name at an offset of a message, as RFC 1035 defines it.
use orbot_library.Prelude.{ℕ, ◌+◌, ◌≤◌, ◌<◌, ◌≡◌, List, [], ◌∷◌, length, ok, read, take, drop}
use orbot_library.Message.{pointer_offset}

-- The labels at offset `p`: a zero byte, a label of 1 to 63 bytes and the name behind it, or two
-- bytes whose upper bits are set that give the offset of the name.
pub data Denotes (msg : List ℕ) : ℕ → List (List ℕ) → Type 0 where
  root : {p : ℕ} → read msg p ≡ ok 0 → Denotes msg p []
  label :
      {p : ℕ} {ls : List (List ℕ)} (l : List ℕ)
      → 0 < length l
      → length l ≤ 63
      → read msg p ≡ ok (length l)
      → take (length l) (drop (p + 1) msg) ≡ l
      → Denotes msg (p + 1 + length l) ls
      → Denotes msg p (l ∷ ls)
  pointer :
      {p : ℕ} {ls : List (List ℕ)} (lb o : ℕ)
      → 0xc0 ≤ lb
      → read msg p ≡ ok lb
      → read msg (p + 1) ≡ ok o
      → Denotes msg (pointer_offset lb o) ls
      → Denotes msg p ls
