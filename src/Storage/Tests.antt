-- ===== src/Storage/Tests.antt =====
-- Concrete pages, and the theorems of src/storage at them.
use lettydb.Common.{
  ℤ, ◌*◌, ◌≢◌, ap, pos_part, neg_part, ℤ_discrete, ite, if_pos, if_neg, ℕ, ◌+◌, ◌≤◌, ◌≡◌, refl,
  List, [], ◌∷◌, true, false, none, some, arith, pos, negsuc, ◌==◌, if◌then◌else◌, elem,
}
use lettydb.Storage.Bytes
use lettydb.Storage.Bytes.{Buffer}
use lettydb.Storage.SlottedPage
use lettydb.Storage.SlottedPage.{
  num_slots, free_space_pointer, init, get_free_space, insert_tuple, get_tuple, delete_tuple,
  compact, is_empty,
}
use lettydb.Storage.SlottedPage.Layout.{IsValid}
use lettydb.Storage.SlottedPage.Contract
use lettydb.Storage.SlottedPage.Contract.{Insertion, needed_space}
use lettydb.Storage.SlottedPage.Delete
use lettydb.Storage.SlottedPage.Delete.{Deletion}
use lettydb.Storage.SlottedPage.Compact
use lettydb.Storage.SlottedPage.Compact.{Compaction}
use lettydb.Storage.SlottedPage.Run
use lettydb.Storage.Bitmap
use lettydb.Storage.Extents.{
  GamPage, allocated, claim_extent_at_bit, allocate_extent_in_gam_page, extent_page, gam_page_index,
  bit_in_gam, is_valid_extent_for_deallocation, release_bit,
}
use lettydb.Storage.Extents.Allocate
use lettydb.Storage.Extents.Allocate.{Allocated, taken}
use lettydb.Storage.IamPage
use lettydb.Storage.IamPage.{IamPage, add_extent, remove_extent, contains_extent, extents}
use lettydb.Storage.IamPage.Entries
use lettydb.Storage.IamPage.Entries.{Addition, Removal}
use lettydb.Storage.Config.{page_size}
use lettydb.Storage.Disk.{is_success}
use lettydb.Storage.DiskManager
use lettydb.Storage.DiskManager.{OsFile, Apart, FileDisk, write_page, read_page, stored}
use lettydb.Storage.Tuple
use lettydb.Storage.Tuple.{
  Column, Value, integer_type, varchar_type, boolean_type, double_type, integer, text, boolean,
  null_value, serialize, deserialize,
}
use lettydb.Storage.Tuple.Fields.{positive, of_varchar, of_boolean, null_double}
use lettydb.Storage.Tuple.Roundtrip
use lettydb.Storage.Tuple.Roundtrip.{TypedRow, field, done, serialized_size}
use lettydb.Storage.SlottedPage.Run.{insert, delete, run_all}

-- A buffer of ones, which `init` has to clear.
abbrev ones : Buffer
ones i = 1

-- Three rows, the second of which is deleted.
gap : Buffer
gap =
    run_all (insert (7 ∷ 8 ∷ []) ∷ insert (9 ∷ []) ∷ insert (5 ∷ 6 ∷ []) ∷ delete 1 ∷ [])
      (init ones)

program : Unit {0}
unfolding gap SlottedPage.get_tuple SlottedPage.insert_tuple SlottedPage.insert_at
    SlottedPage.find_deleted SlottedPage.delete_tuple SlottedPage.trim_slots SlottedPage.init
    SlottedPage.get_free_space SlottedPage.append_slot SlottedPage.write_slot
    SlottedPage.place_tuple SlottedPage.compact SlottedPage.rebuild SlottedPage.live_tuples
    SlottedPage.insert_all Bytes.load_u16 Bytes.store_u16 Bytes.copy_bytes Bytes.clear_bytes
    Bytes.slice run_all Run.run
program = tt

gap-IsValid : IsValid gap
unfolding gap
gap-IsValid =
    Run.page-IsValid (insert (7 ∷ 8 ∷ []) ∷ insert (9 ∷ []) ∷ insert (5 ∷ 6 ∷ []) ∷ delete 1 ∷ [])
      ones

gap_rows : get_tuple 2 gap ≡ some (5 ∷ 6 ∷ [])
unfolding program
gap_rows = refl

-- The free slot is used again.
reused : (insert_tuple (3 ∷ []) gap).0 ≡ some 1
unfolding program
reused = refl

-- Compaction renumbers the last row.
renumbered : get_tuple 1 (compact gap).1 ≡ some (5 ∷ 6 ∷ [])
unfolding program
renumbered = refl

page-IsValid_example : IsValid gap
unfolding gap
page-IsValid_example =
    Run.page-IsValid (insert (7 ∷ 8 ∷ []) ∷ insert (9 ∷ []) ∷ insert (5 ∷ 6 ∷ []) ∷ delete 1 ∷ [])
      ones

insert_tuple-Insertion_example :
    Insertion (needed_space (3 ∷ 4 ∷ []) gap) (3 ∷ 4 ∷ []) gap (insert_tuple (3 ∷ 4 ∷ []) gap)
insert_tuple-Insertion_example = Contract.insert_tuple-Insertion (3 ∷ 4 ∷ []) gap gap-IsValid

delete_tuple-Deletion_example : Deletion 2 gap (delete_tuple 2 gap)
delete_tuple-Deletion_example = Delete.delete_tuple-Deletion 2 gap gap-IsValid

compact-Compaction_example : Compaction gap (compact gap)
compact-Compaction_example = Compact.compact-Compaction gap gap-IsValid

is_empty_iff_example :
    (is_empty (init ones) ≡ true → (j : ℕ) → get_tuple j (init ones) ≡ none)
    × (((j : ℕ) → get_tuple j (init ones) ≡ none) → is_empty (init ones) ≡ true)
is_empty_iff_example = Delete.is_empty_iff (init ones)

-- A GAM page whose first two extents are reserved.
abbrev reserved : GamPage
reserved = record {
  next_page_id = negsuc 0;
  first_free_bit_hint = 0;
  bitmap = λ i. if i == 0 then 3 else 0;
}

allocate_extent_in_gam_page-Allocated_example :
    Allocated 0 reserved (allocate_extent_in_gam_page 0 reserved)
allocate_extent_in_gam_page-Allocated_example =
    Allocate.allocate_extent_in_gam_page-Allocated 0 reserved

third_extent : (claim_extent_at_bit 0 2 reserved).0 ≡ allocated (pos 16)
unfolding claim_extent_at_bit
third_extent = refl

deallocate_target_example :
    (gam_page_index (extent_page 1 5) ≡ 1)
    × (bit_in_gam (extent_page 1 5) ≡ 5)
    × (is_valid_extent_for_deallocation (pos (extent_page 1 5))
        ≡ (if 1 + 5 == 0 then false else true))
deallocate_target_example = Allocate.deallocate_target 1 5 (omega arith)

two_free : taken reserved 2 ≡ false
unfolding Bitmap.is_set Bitmap.test_bit
two_free = refl

release_bit-claim_extent_at_bit_example :
    taken (release_bit 2 (claim_extent_at_bit 0 2 reserved).1) 2 ≡ taken reserved 2
release_bit-claim_extent_at_bit_example =
    Allocate.release_bit-claim_extent_at_bit 0 2 reserved (omega arith) two_free 2

-- A table with extents 4, 7 and 9.
abbrev three_extents : IamPage
three_extents = record {
  next_page_id = negsuc 0;
  extent_count = 3;
  extent_ids = λ i. if i == 0 then 4 else (if i == 1 then 7 else 9);
}

add_extent-Addition_example : Addition 11 three_extents (add_extent 11 three_extents)
add_extent-Addition_example = Entries.add_extent-Addition 11 three_extents (omega arith)

remove_extent-Removal_example : Removal 7 three_extents (remove_extent 7 three_extents)
remove_extent-Removal_example = Entries.remove_extent-Removal 7 three_extents

two_extents : extents (remove_extent 7 three_extents).1 ≡ 4 ∷ 9 ∷ []
unfolding remove_extent IamPage.remove_at IamPage.find_entry IamPage.shift_down IamPage.entries
two_extents = refl

contains_extent-elem_example : contains_extent 9 three_extents ≡ elem 9 (extents three_extents)
contains_extent-elem_example = Entries.contains_extent-elem 9 three_extents

-- The row of the example in src/storage/tuple.h, with a null at the end.
abbrev columns : List Column
columns =
    record { data_type = integer_type; length = 4 }
    ∷ record { data_type = varchar_type; length = 0 }
    ∷ record { data_type = boolean_type; length = 1 }
    ∷ record { data_type = double_type; length = 8 }
    ∷ []

abbrev row : List Value
row = integer (pos 42) ∷ text (97 ∷ 108 ∷ []) ∷ boolean true ∷ null_value ∷ []

row-TypedRow : TypedRow columns row
row-TypedRow = field (positive 42 (omega arith)) (
    field (of_varchar 0 (97 ∷ 108 ∷ []) (omega arith))
      (field (of_boolean true) (field null_double done)))

row_room : serialized_size row-TypedRow ones ≤ 4096
unfolding Roundtrip.row_size Tuple.size_of Tuple.null_bitmap_size
row_room = omega arith

deserialize-serialize_example :
    (c : Buffer) × (serialize columns row ones 4096 ≡ some (serialized_size row-TypedRow ones, c))
    × (deserialize columns c (serialized_size row-TypedRow ones) ≡ some row)
deserialize-serialize_example =
    Roundtrip.deserialize-serialize row-TypedRow ones 4096 row_room (omega arith)

Apart-ne : (o p : ℤ) → Apart o p → o ≢ p
Apart-ne o p h e = ground (arith, h, ap pos_part e, ap neg_part e)

-- A file in memory, by offsets; a page is a number.
abbrev memory_file : OsFile ℕ
memory_file = record {
  State = ℤ → ℕ;
  pwrite = λ o a f. (pos page_size, λ q. ite (ℤ_discrete o q) a (f q));
  pread = λ o f. (pos page_size, f o);
  fsync = λ f. (pos 0, f);
  fstat_size = λ f. (true, 8 * page_size);
  region = λ f o. f o;
  region-pwrite = λ o a f h. if_pos (ℤ_discrete o o) refl _ _;
  region-pwrite_apart = λ o p a f h. if_neg (ℤ_discrete o p) (Apart-ne o p h) _ _;
  pread-region = λ o f h. refl;
  region-fsync = λ p f. refl;
}

abbrev opened : FileDisk memory_file
opened = record {
  file = λ o. 0;
  is_open = true;
  read_count = 0;
  write_count = 0;
  read_error = 0;
  write_error = 0;
}

wrote : is_success (write_page memory_file (pos 3) 7 opened).0 ≡ true
unfolding DiskManager.write_page
wrote = refl

read_it :
    is_success (read_page memory_file (pos 3) (write_page memory_file (pos 3) 7 opened).1).0 ≡ true
unfolding DiskManager.write_page DiskManager.read_page
read_it = refl

read_page-write_page_example :
    ((read_page memory_file (pos 3) (write_page memory_file (pos 3) 7 opened).1).1 ≡ 7)
    × ((q : ℤ)
        → pos 3 ≢ q
        → stored memory_file (write_page memory_file (pos 3) 7 opened).1 q
          ≡ stored memory_file opened q)
read_page-write_page_example =
    DiskManager.read_page-write_page memory_file (pos 3) 7 opened wrote read_it
