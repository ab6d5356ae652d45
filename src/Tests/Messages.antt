-- ===== src/Tests/Messages.antt =====
-- Decompression of small messages.
use orbot_library.Prelude.{
  ℕ, ◌≡◌, refl, List, [], ◌∷◌, ok, arith, replicate, read, write, length, Returns,
}
use orbot_library.Message.{
  decoded, refused, format_error, decompress_name, direct_loop, jumped_loop, copy_bytes,
  pointer_offset,
}
use orbot_library.Message.Decompress.{Decoding, decompress_name-Decoding}

-- "c" at offset 0, and "ab" before a pointer to it at offset 3.
abbrev shared : List ℕ
shared = 1 ∷ b'c' ∷ 0 ∷ 2 ∷ b'a' ∷ b'b' ∷ 0xc0 ∷ 0 ∷ []

abbrev target : List ℕ
target = replicate 256 7

decompress_shared :
    decompress_name shared 8 3 5 target
    ≡ ok (decoded 8 0 6 (2 ∷ b'a' ∷ b'b' ∷ 1 ∷ b'c' ∷ 0 ∷ replicate 250 7))
unfolding decompress_name direct_loop jumped_loop copy_bytes pointer_offset read write
decompress_shared = refl

-- A pointer to itself is refused after 255 hops.
decompress_loop : decompress_name (0xc0 ∷ 0 ∷ []) 2 0 2 target ≡ ok (refused format_error)
unfolding decompress_name direct_loop jumped_loop copy_bytes pointer_offset read write
decompress_loop = refl

decompress_name-Decoding_example :
    Returns
      (decompress_name shared (length shared) 3 5 target)
      (Decoding shared 3 5 5 3 0 [] target)
decompress_name-Decoding_example = decompress_name-Decoding shared 3 5 target (omega arith)
