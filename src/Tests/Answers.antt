-- ===== src/Tests/Answers.antt =====
-- The records of an answer, and dynamic arrays.
use orbot_library.Prelude.{
  ℕ, ◌+◌, ◌≡◌, refl, List, [], ◌∷◌, ◌++◌, true, false, Option, none, some, ok, arith, replicate,
  read, write, Returns,
}
use orbot_library.Name.Labels.{wire}
use orbot_library.Message.{decompress_name, direct_loop, jumped_loop, copy_bytes, pointer_offset}
use orbot_library.Arrays.{DArray, da_nel, grows, alloc_nel, da_grow1, da_resize}
use orbot_library.Arrays.Growth.{
  Grown, da_grow1-Grown, da_grow1-da_resize, Resized, da_resize-Resized,
}
use orbot_library.Arrays.Items.{
  DList, word_at, chunks, store_word, place_item, dlist_align, dlist_grow,
}
use orbot_library.Arrays.Items.Order.{Holds, Appended, dlist_grow-Appended}
use orbot_library.Cent.{Sizeof, World}
use orbot_library.Cent.Add.{type_index}
use orbot_library.Records.{
  buffered, bad_data, has_name, has_names, has_preference, names_at, names_data, whole,
  prefixed_data, copy_bytes_at, bytes_at, rdata,
}
use orbot_library.Records.Data.{InBuffers}
use orbot_library.Records.Kinds.{rdata-InBuffers}
use orbot_library.Records.Cents.{rr_to_cache}
use orbot_library.Records.Filing.{Filed}
use orbot_library.Records.Entries.{rr_to_cache-Filed}
use orbot_library.Records.Answer.{Parse, rrs2cent}
use orbot_library.Records.Heads.{InOrder}
use orbot_library.Records.Reading.{rrs2cent-InOrder}

abbrev sizes : Sizeof
sizes = record { pointer = 8; rr_bucket = 16; rr_set = 40; dns_cent = 144 }

abbrev memory : World
memory = record { room = 50; rr_l = []; cache_size = 0 }

-- "a" at offset 12, behind it a pointer to it, and the data of an MX record: 10 and the pointer.
abbrev answer : List ℕ
answer =
    replicate 12 0
    ++ (1 ∷ b'a' ∷ 0 ∷ 0xc0 ∷ 12 ∷ 0 ∷ 15 ∷ 0 ∷ 1 ∷ 0 ∷ 0 ∷ 0 ∷ 9 ∷ 0 ∷ 4 ∷ 0 ∷ 10 ∷ 0xc0 ∷ 12 ∷ [])

rdata_mx : rdata 15 answer 27 4 ≡ ok (buffered (0 ∷ 10 ∷ 1 ∷ b'a' ∷ 0 ∷ []))
unfolding rdata has_name has_names has_preference prefixed_data copy_bytes_at bytes_at names_at
    whole decompress_name direct_loop jumped_loop copy_bytes pointer_offset read write
rdata_mx = refl

-- Data that go on behind the name are refused.
rdata_junk : rdata 5 answer 12 4 ≡ ok (bad_data 1)
unfolding rdata has_name names_data names_at whole decompress_name direct_loop jumped_loop
    copy_bytes pointer_offset read write
rdata_junk = refl

abbrev start : Parse
start = record {
  retval = 0;
  ptr = 15;
  lcnt = 16;
  numopt = 0;
  ep = record { udpsize = 0; rcode = 0; version = 0; do_flg = 0 };
  cents = record { centa = none; world = memory };
}

rrs2cent-InOrder_example : Returns (rrs2cent 1 sizes 0 1000 answer start) (InOrder sizes answer)
rrs2cent-InOrder_example = rrs2cent-InOrder 1 sizes 0 1000 answer start (omega arith) refl _

rdata-InBuffers_example : Returns (rdata 15 answer 27 4) (InBuffers 4)
rdata-InBuffers_example = rdata-InBuffers answer 4 15 27 (omega arith)

mx_index : type_index 15 ≡ ok 5
unfolding type_index read
mx_index = refl

rr_to_cache-Filed_example :
    Returns
      (rr_to_cache sizes none
        (wire ((b'a' ∷ []) ∷ []) ++ (7 ∷ []))
        15
        9
        1000
        0
        (0 ∷ 10 ∷ 0 ∷ [])
        memory)
      (Filed sizes ((b'a' ∷ []) ∷ []) 15 (0 ∷ 10 ∷ 0 ∷ []))
rr_to_cache-Filed_example =
    rr_to_cache-Filed sizes ((b'a' ∷ []) ∷ []) 15 5 (0 ∷ 10 ∷ 0 ∷ []) 9 1000 0
      ((omega arith, omega arith), _) mx_index (omega arith) none (7 ∷ []) memory _

-- Eight elements in a block for eight.
abbrev eight : Option (DArray ℕ)
eight = some (record { elem = replicate 8 1; nalloc = 8 })

eight_allocated : 8 ≡ alloc_nel 8
unfolding alloc_nel
eight_allocated = refl

da_grow1_ninth :
    da_grow1 true eight 2 ≡ (some (record { elem = replicate 8 1 ++ (2 ∷ []); nalloc = 16 }), [])
unfolding da_grow1 grows
da_grow1_ninth = refl

da_grow1-da_resize_example : da_grow1 true eight 2 ≡ da_resize true eight (da_nel eight + 1) 2
da_grow1-da_resize_example = da_grow1-da_resize true eight 2 eight_allocated

da_grow1-Grown_example : Grown false eight 2 (da_grow1 false eight 2)
da_grow1-Grown_example = da_grow1-Grown false eight 2 eight_allocated

da_resize-Resized_example : Resized false eight 9 (da_resize false eight 9 0)
da_resize-Resized_example = da_resize-Resized false eight 9 0 eight_allocated

-- A list with one item, for 5 bytes.
abbrev one_item : DList
one_item = record { last = 0; lastsz = 16; nalloc = 1024; words = (0, 0) ∷ [] }

dlist_grow_first : dlist_grow true none 5 ≡ ok (some one_item)
unfolding dlist_grow place_item store_word dlist_align chunks
dlist_grow_first = refl

one_item-Holds : Holds [] one_item
unfolding word_at chunks
one_item-Holds = record { linked = refl; place = refl; size = omega arith; block = refl }

dlist_grow-Appended_example :
    Returns (dlist_grow true (some one_item) 9) (Appended true 9 [] one_item)
dlist_grow-Appended_example = dlist_grow-Appended true 9 [] one_item one_item-Holds
