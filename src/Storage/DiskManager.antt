-- ===== src/Storage/DiskManager.antt =====
-- src/storage/disk_manager.cpp over the system calls of the file, and the interface IDiskManager
-- that it implements.
use lettydb.Common.{
  ℕ, ◌+◌, ◌*◌, ◌%◌, ◌^◌, ◌/◌, ◌≤◌, ◌≡◌, ◌≢◌, ◌⊎◌, inl, inr, refl, ap, ◌∙◌, Bool, true, false, arith,
  if◌then◌else◌, ℤ, pos, negsuc, pos_part, neg_part, ℤ_discrete, ite, Bool-cases, ◌==◌, not,
}
use lettydb.Storage.Config.{PageId, page_size}
use lettydb.Storage.Disk.{IoResult, is_success}
use lettydb.Storage.Disk
use lettydb.Storage.Tuple.{word_int}

-- Two page-sized ranges of a file that do not overlap.
abbrev pub Apart : ℤ → ℤ → Type 0
Apart o p =
    (pos_part o + neg_part p + page_size ≤ pos_part p + neg_part o)
    ⊎ (pos_part p + neg_part o + page_size ≤ pos_part o + neg_part p)

-- The open file: pwrite, pread, fsync and fstat, with what they are documented to do. `region` is
-- what the file holds in the PAGE_SIZE bytes at an offset; a result of -1 is an error.
pub record OsFile (A : Type 0) : Type 1 where
  pub State : Type 0
  pub pwrite : ℤ → A → State → ℤ × State
  pub pread : ℤ → State → ℤ × A
  pub fsync : State → ℤ × State
  pub fstat_size : State → Bool × ℕ
  pub region : State → ℤ → A
  pub region-pwrite :
      (o : ℤ) (a : A) (f : State) → (pwrite o a f).0 ≡ pos page_size → region (pwrite o a f).1 o ≡ a
  pub region-pwrite_apart :
      (o p : ℤ) (a : A) (f : State) → Apart o p → region (pwrite o a f).1 p ≡ region f p
  pub pread-region :
      (o : ℤ) (f : State) → (pread o f).0 ≡ pos page_size → (pread o f).1 ≡ region f o
  pub region-fsync : (p : ℤ) (f : State) → region (fsync f).1 p ≡ region f p

-- `static_cast<off_t>(page_id) * PAGE_SIZE`.
unfoldable pub page_offset : PageId → ℤ
page_offset (pos n) = pos (n * page_size)
page_offset (negsuc n) = negsuc (n * page_size + 4095)

page_offset-Apart : (p q : PageId) → p ≢ q → Apart (page_offset p) (page_offset q)
unfolding page_offset
page_offset-Apart (pos m) (pos n) d = ground (arith, λ (e : m ≡ n). d (ap pos e))
page_offset-Apart (pos m) (negsuc n) d = inr (omega arith)
page_offset-Apart (negsuc m) (pos n) d = inl (omega arith)
page_offset-Apart (negsuc m) (negsuc n) d = ground (arith, λ (e : m ≡ n). d (ap negsuc e))

abbrev same_count : ℤ → Bool
same_count (pos n) = n == page_size
same_count (negsuc n) = false

module _ {A : Type 0} (os : OsFile A) where
  -- The fields of the class; the counters are uint64_t.
  pub record FileDisk : Type 0 where
    pub file : OsFile.State os
    pub is_open : Bool
    pub read_count : ℕ
    pub write_count : ℕ
    pub read_error : ℕ
    pub write_error : ℕ

  unfoldable pub write_page : PageId → A → FileDisk → IoResult × FileDisk
  write_page page_id page_data d =
      let (written, f) = os.pwrite (page_offset page_id) page_data d.file in
      if same_count written
      then (IoResult.success, record d { file = f; write_count = (d.write_count + 1) % 2 ^ 64 })
      else (IoResult.write_error, record d { file = f; write_error = (d.write_error + 1) % 2 ^ 64 })

  unfoldable pub read_page : PageId → FileDisk → IoResult × A × FileDisk
  read_page page_id d =
      let (bytes_read, page_data) = os.pread (page_offset page_id) d.file in
      if same_count bytes_read
      then (IoResult.success, page_data, record d { read_count = (d.read_count + 1) % 2 ^ 64 })
      else (IoResult.read_error, page_data, record d { read_error = (d.read_error + 1) % 2 ^ 64 })

  unfoldable pub reset_io_stats : FileDisk → FileDisk
  reset_io_stats d = record d { read_count = 0; write_count = 0 }

  unfoldable pub sync : FileDisk → Bool × FileDisk
  sync d =
      let (result, f) = os.fsync d.file in
      if not d.is_open
      then (false, d)
      else (ite (ℤ_discrete result (pos 0)) true false, record d { file = f })

  -- The off_t is cut to a page_id_t.
  unfoldable pub get_file_size_in_pages : FileDisk → PageId
  get_file_size_in_pages d =
      let (ok, size) = os.fstat_size d.file in
      if ok then word_int (size / page_size % 2 ^ 32) else pos 0

  -- What the file holds at a page.
  abbrev pub stored : FileDisk → PageId → A
  stored d p = os.region d.file (page_offset p)

  same_count_lem : (n : ℤ) → same_count n ≡ true → n ≡ pos page_size
  same_count_lem (pos n) h = ap pos (ground (arith, h))
  same_count_lem (negsuc n) h = cc

  stored-write_page :
      (p : PageId) (a : A) (d : FileDisk)
      → is_success (write_page p a d).0 ≡ true
      → stored (write_page p a d).1 p ≡ a
  unfolding write_page
  stored-write_page p a d h =
      elim (Bool-cases (same_count (os.pwrite (page_offset p) a d.file).0)) [
        | inl e ↦
            rw (e, write_page) (os.region-pwrite (page_offset p) a d.file (same_count_lem _ e))
        | inr e ↦ absurd (ground (arith, e, h))
      ]

  stored-write_page_ne :
      (p q : PageId) (a : A) (d : FileDisk) → p ≢ q → stored (write_page p a d).1 q ≡ stored d q
  unfolding write_page
  stored-write_page_ne p q a d n =
      elim (Bool-cases (same_count (os.pwrite (page_offset p) a d.file).0)) [
        | inl e ↦
            rw (e, write_page)
              (os.region-pwrite_apart (page_offset p) (page_offset q) a d.file
                (page_offset-Apart p q n))
        | inr e ↦
            rw (e, write_page)
              (os.region-pwrite_apart (page_offset p) (page_offset q) a d.file
                (page_offset-Apart p q n))
      ]

  read_page-stored :
      (p : PageId) (d : FileDisk)
      → is_success (read_page p d).0 ≡ true
      → (read_page p d).1 ≡ stored d p
  unfolding read_page
  read_page-stored p d h = elim (Bool-cases (same_count (os.pread (page_offset p) d.file).0)) [
    | inl e ↦ rw (e, read_page) (os.pread-region (page_offset p) d.file (same_count_lem _ e))
    | inr e ↦ absurd (ground (arith, e, h))
  ]

  -- If `write_page` succeeds and `read_page` of the same page then succeeds, it returns what was
  -- written, and the write left every other page of the file as it was.
  pub read_page-write_page :
      (p : PageId) (a : A) (d : FileDisk)
      → is_success (write_page p a d).0 ≡ true
      → is_success (read_page p (write_page p a d).1).0 ≡ true
      → ((read_page p (write_page p a d).1).1 ≡ a)
        × ((q : PageId) → p ≢ q → stored (write_page p a d).1 q ≡ stored d q)
  read_page-write_page p a d w r = (
    read_page-stored p (write_page p a d).1 r ∙ stored-write_page p a d w,
    λ q n. stored-write_page_ne p q a d n,
  )

  stored-sync : (q : PageId) (d : FileDisk) → stored (sync d).1 q ≡ stored d q
  unfolding sync
  stored-sync q d = elim (Bool-cases (not d.is_open)) [
    | inl e ↦ rw (e, sync) refl
    | inr e ↦ rw (e, sync) (os.region-fsync (page_offset q) d.file)
  ]

  stored-read_page : (p q : PageId) (d : FileDisk) → stored (read_page p d).2 q ≡ stored d q
  unfolding read_page
  stored-read_page p q d = elim (Bool-cases (same_count (os.pread (page_offset p) d.file).0)) [
    | inl e ↦ rw (e, read_page) refl
    | inr e ↦ rw (e, read_page) refl
  ]

  -- The class implements the interface, so the buffer pool can stand on it.
  pub file_disk : Disk.DiskManager A
  file_disk = record {
    State = FileDisk;
    write_page = write_page;
    read_page = read_page;
    sync = sync;
    stored = stored;
    stored-write_page = stored-write_page;
    stored-write_page_ne = stored-write_page_ne;
    read_page-stored = read_page-stored;
    stored-read_page = stored-read_page;
    stored-sync = stored-sync;
  }
