-- ===== src/Storage/Disk.antt =====
-- src/storage/error_codes.h and the interface IDiskManager of src/storage/disk_manager.h.
-- `stored` is what the file holds at a page. The laws are the documented effects of the calls: a
-- write touches no other page, and a failed one leaves its own page in any state.
use lettydb.Common.{ℤ, ◌≡◌, ◌≢◌, Bool, true, false}

pub data IoResult : Type 0 where
  success file_not_open seek_error io_error write_error read_error : IoResult

abbrev pub is_success : IoResult → Bool
is_success IoResult.success = true
is_success r = false

pub record DiskManager (A : Type 0) : Type 1 where
  pub State : Type 0
  pub write_page : ℤ → A → State → IoResult × State
  pub read_page : ℤ → State → IoResult × A × State
  pub sync : State → Bool × State
  pub stored : State → ℤ → A
  pub stored-write_page :
      (p : ℤ) (a : A) (d : State)
      → is_success (write_page p a d).0 ≡ true
      → stored (write_page p a d).1 p ≡ a
  pub stored-write_page_ne :
      (p q : ℤ) (a : A) (d : State) → p ≢ q → stored (write_page p a d).1 q ≡ stored d q
  pub read_page-stored :
      (p : ℤ) (d : State) → is_success (read_page p d).0 ≡ true → (read_page p d).1 ≡ stored d p
  pub stored-read_page : (p q : ℤ) (d : State) → stored (read_page p d).2 q ≡ stored d q
  pub stored-sync : (q : ℤ) (d : State) → stored (sync d).1 q ≡ stored d q
