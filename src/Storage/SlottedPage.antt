-- ===== src/Storage/SlottedPage.antt =====
-- src/storage/slotted_page.cpp: a page of rows of different sizes, in the page's own bytes. The
-- header and the slot directory are read from and written to the same buffer as the rows.
pub mod Layout
pub mod Insert
pub mod Rows
pub mod Contract
pub mod Delete
pub mod RowList
pub mod Run
pub mod Compact
use lettydb.Common.{
  ℕ, zero, suc, ◌+◌, ◌-◌, ◌*◌, ◌≤◌, ◌<◌, ◌≡◌, List, [], ◌∷◌, Bool, true, false, Option, none, some,
  arith, ◌==◌, ltb, leb, if◌then◌else◌, length,
}
use lettydb.Storage.Config.{page_size}
use lettydb.Storage.Bytes.{Buffer, load_u16, store_u16, sub_u16, clear_bytes, copy_bytes, slice}

-- The layout: the 16 bytes of the header, then 4 bytes for each slot.
abbrev pub header_size : ℕ
header_size = 16

abbrev pub slot_size : ℕ
slot_size = 4

abbrev pub num_slots_at : ℕ
num_slots_at = 12

abbrev pub free_space_pointer_at : ℕ
free_space_pointer_at = 14

-- `slot_dir[i].offset` and `slot_dir[i].length`.
abbrev pub slot_offset_at : ℕ → ℕ
slot_offset_at i = 16 + 4 * i

abbrev pub slot_length_at : ℕ → ℕ
slot_length_at i = 18 + 4 * i

abbrev pub num_slots : Buffer → ℕ
num_slots b = load_u16 b num_slots_at

abbrev pub free_space_pointer : Buffer → ℕ
free_space_pointer b = load_u16 b free_space_pointer_at

abbrev pub slot_offset : Buffer → ℕ → ℕ
slot_offset b i = load_u16 b (slot_offset_at i)

abbrev pub slot_length : Buffer → ℕ → ℕ
slot_length b i = load_u16 b (slot_length_at i)

-- An int32_t field that holds -1: four bytes of ones.
abbrev pub store_invalid_page_id : ℕ → Buffer → Buffer
store_invalid_page_id o b = store_u16 (o + 2) 65535 (store_u16 o 65535 b)

unfoldable pub init : Buffer → Buffer
init b = store_invalid_page_id 8 (
    store_invalid_page_id 4 (
      store_u16 num_slots_at 0
        (store_u16 free_space_pointer_at page_size (clear_bytes page_size b))))

unfoldable pub get_free_space : Buffer → ℕ
get_free_space b =
    let headers_size = header_size + num_slots b * slot_size in
    if ltb (free_space_pointer b) headers_size then 0 else free_space_pointer b - headers_size

-- The loop of `is_empty` from slot `i` on, `n` slots.
unfoldable pub all_deleted : Buffer → ℕ → ℕ → Bool
all_deleted b zero i = true
all_deleted b (suc n) i = if ltb 0 (slot_length b i) then false else all_deleted b n (suc i)

unfoldable pub is_empty : Buffer → Bool
is_empty b = all_deleted b (num_slots b) 0

-- The first deleted slot from `i` on, among `n`: the search of `insert_tuple` and of `compact`.
unfoldable pub find_deleted : Buffer → ℕ → ℕ → Option ℕ
find_deleted b zero i = none
find_deleted b (suc n) i = if slot_length b i == 0 then some i else find_deleted b n (suc i)

-- The row's bytes go below those of the other rows.
unfoldable pub place_tuple : List ℕ → Buffer → Buffer
place_tuple row b =
    let c = store_u16 free_space_pointer_at (sub_u16 (free_space_pointer b) (length row)) b in
    copy_bytes (free_space_pointer c) row c

-- `slot_dir[i] = {header_->free_space_pointer, size}`.
unfoldable pub write_slot : ℕ → ℕ → Buffer → Buffer
write_slot i size b =
    let c = store_u16 (slot_offset_at i) (free_space_pointer b) b in
    store_u16 (slot_length_at i) size c

unfoldable pub append_slot : ℕ → Buffer → Option ℕ × Buffer
append_slot size b =
    let c = write_slot (num_slots b) size b in
    (some (num_slots b), store_u16 num_slots_at (num_slots c + 1) c)

-- The part of `insert_tuple` after the search for a deleted slot.
unfoldable pub insert_at : Option ℕ → List ℕ → Buffer → Option ℕ × Buffer
insert_at (some i) row b =
    if ltb (get_free_space b) (length row)
    then (none, b)
    else (some i, write_slot i (length row) (place_tuple row b))
insert_at none row b =
    if ltb (get_free_space b) (length row + slot_size)
    then (none, b)
    else append_slot (length row) (place_tuple row b)

unfoldable pub insert_tuple : List ℕ → Buffer → Option ℕ × Buffer
insert_tuple row b = insert_at (find_deleted b (num_slots b) 0) row b

unfoldable pub get_tuple : ℕ → Buffer → Option (List ℕ)
get_tuple i b =
    if leb (num_slots b) i
    then none
    else (if slot_length b i == 0 then none else some (slice b (slot_offset b i) (slot_length b i)))

-- The while loop of `delete_tuple`, over `n` slots at most.
unfoldable pub trim_slots : ℕ → Buffer → Buffer
trim_slots zero b = b
trim_slots (suc n) b =
    if ltb 0 (slot_length b n) then b else trim_slots n (store_u16 num_slots_at n b)

unfoldable pub delete_tuple : ℕ → Buffer → Bool × Buffer
delete_tuple i b =
    if leb (num_slots b) i
    then (false, b)
    else (if slot_length b i == 0
        then (false, b)
        else (let c = store_u16 (slot_length_at i) 0 b in (true, trim_slots (num_slots c) c)))

-- The rows of the slots from `i` on, among `n`: the loop of `compact` that saves them.
unfoldable pub live_tuples : Buffer → ℕ → ℕ → List (List ℕ)
live_tuples b zero i = []
live_tuples b (suc n) i =
    let rest = live_tuples b n (suc i) in
    if ltb 0 (slot_length b i) then slice b (slot_offset b i) (slot_length b i) ∷ rest else rest

unfoldable pub insert_all : List (List ℕ) → Buffer → Buffer
insert_all [] b = b
insert_all (row ∷ rows) b = insert_all rows (insert_tuple row b).1

-- The part of `compact` after the search for a deleted slot.
unfoldable pub rebuild : Option ℕ → Buffer → Bool × Buffer
rebuild none b = (false, b)
rebuild (some i) b = (true, insert_all (live_tuples b (num_slots b) 0) (init b))

unfoldable pub compact : Buffer → Bool × Buffer
compact b = rebuild (find_deleted b (num_slots b) 0) b
