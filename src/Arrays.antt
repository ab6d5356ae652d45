-- ===== src/Arrays.antt =====
-- The dynamic arrays of pdnsd/src/list.c. The head's `nel` is the number of elements; `nalloc` is
-- how many elements the block has been given room for.
pub mod Growth
pub mod Items
use orbot_library.Prelude.{
  ℕ, ◌+◌, ◌-◌, ◌*◌, ◌/◌, ◌%◌, List, [], ◌∷◌, ◌++◌, Bool, true, false, ◌&&◌, not, ◌==◌,
  if◌then◌else◌, Option, none, some, length, take, replicate,
}

-- struct {size_t nel; typ elem[0];} with its block.
pub record DArray {ℓ} (A : Type ℓ) : Type ℓ where
  pub elem : List A
  pub nalloc : ℕ

-- alloc_nel.
unfoldable pub alloc_nel : ℕ → ℕ
alloc_nel n = if n == 0 then 8 else (n + 7) / 8 * 8

-- DA_NEL.
unfoldable pub da_nel {ℓ} : {A : Type ℓ} → Option (DArray A) → ℕ
da_nel none = 0
da_nel (some a) = length a.elem

-- Whether da_grow1 calls realloc.
unfoldable pub grows {ℓ} : {A : Type ℓ} → Option (DArray A) → Bool
grows none = true
grows (some a) = not (length a.elem == 0) && (length a.elem % 8 == 0)

-- The elements, none where the array is NULL.
abbrev pub elems {ℓ} : {A : Type ℓ} → Option (DArray A) → List A
elems none = []
elems (some a) = a.elem

-- da_grow1, where `room` says whether realloc has memory, and `x` is what the new element holds:
-- the array, or NULL, and the elements that the clean-up routine has been called for.
unfoldable pub da_grow1 {ℓ} :
    {A : Type ℓ} → Bool → Option (DArray A) → A → Option (DArray A) × List A
da_grow1 room none x =
    if room then (some (record { elem = x ∷ []; nalloc = 8 }), []) else (none, [])
da_grow1 room (some a) x =
    if grows (some a)
    then (if room
        then (some (record { elem = a.elem ++ (x ∷ []); nalloc = length a.elem + 8 }), [])
        else (none, a.elem))
    else (some (record { elem = a.elem ++ (x ∷ []); nalloc = a.nalloc }), [])

-- The first `n` elements of a block that holds `x` behind the elements `xs`.
unfoldable pub resized {ℓ} : {A : Type ℓ} → List A → ℕ → A → List A
resized xs n x = take n (xs ++ replicate (n - length xs) x)

-- da_resize, likewise.
unfoldable pub da_resize {ℓ} :
    {A : Type ℓ} → Bool → Option (DArray A) → ℕ → A → Option (DArray A) × List A
da_resize room none n x =
    if room then (some (record { elem = resized [] n x; nalloc = alloc_nel n }), []) else (none, [])
da_resize room (some a) n x =
    if not (alloc_nel n == alloc_nel (length a.elem))
    then (if room
        then (some (record { elem = resized a.elem n x; nalloc = alloc_nel n }), [])
        else (none, a.elem))
    else (some (record { elem = resized a.elem n x; nalloc = a.nalloc }), [])
