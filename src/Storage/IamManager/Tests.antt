-- ===== src/Storage/IamManager/Tests.antt =====
-- A table with one extent on a disk in memory, of which only page 25 has room.
use lettydb.Common.{
  leb, false, ◌≡◌, ℕ, refl, List, [], ◌∷◌, ◌++◌, true, some, ◌==◌, ltb, if◌then◌else◌, ℤ, pos,
  negsuc, ℤ_discrete, ite, if_pos, if_neg, arith,
}
use lettydb.Common.Maps
use lettydb.Buffer.Lru
use lettydb.Buffer.Lru.Refines as LruRefines
use lettydb.Buffer.Lru.Refines.{lru}
use lettydb.Buffer.Pool.{fresh}
use lettydb.Buffer.Pool.Invariant.{content, pins}
use lettydb.Buffer.Pool.Peek.{Shows}
use lettydb.Buffer.Pool.Start
use lettydb.Storage.Bytes.{Buffer, load_u16}
use lettydb.Storage.Config.{invalid_page_id}
use lettydb.Storage.Disk.{DiskManager, IoResult}
use lettydb.Storage.Tuple.{word_int}
use lettydb.Storage.IamPage.{extents}
use lettydb.Storage.SlottedPage.{get_free_space}
use lettydb.Storage.IamManager.{
  found, next_page, pages_behind, load_iam_page, load_u32, total_needed, IamManager,
  find_page_with_space,
}
use lettydb.Storage.IamManager.Search
use lettydb.Storage.IamManager.Reference.{Chain, end, link, extent_pages, candidates, Searched}

abbrev Memory : Type 0
Memory = ℤ → Buffer

abbrev write : ℤ → Buffer → Memory → IoResult × Memory
write p b d = (IoResult.success, λ q. ite (ℤ_discrete p q) b (d q))

abbrev memory : DiskManager Buffer
memory = record {
  State = Memory;
  write_page = write;
  read_page = λ p d. (IoResult.success, d p, d);
  sync = λ d. (true, d);
  stored = λ d. d;
  stored-write_page = λ p b d h. if_pos (ℤ_discrete p p) refl b (d p);
  stored-write_page_ne = λ p q b d ne. if_neg (ℤ_discrete p q) ne b (d q);
  read_page-stored = λ p d h. refl;
  stored-read_page = λ p q d. refl;
  stored-sync = λ q d. refl;
}

abbrev blank : Buffer
blank i = 0

-- The last page of a chain, with extent 3.
abbrev iam_bytes : Buffer
iam_bytes i = if ltb i 4 then 255 else if i == 4 then 1 else if i == 8 then 3 else 0

-- A page of rows without a slot.
abbrev empty_bytes : Buffer
empty_bytes i = if i == 15 then 16 else 0

abbrev disk : Memory
disk (pos n) = if n == 16 then iam_bytes else if n == 25 then empty_bytes else blank
disk (negsuc n) = blank

abbrev manager : IamManager blank lru memory
manager = record {
  buffer_pool = fresh blank lru memory 2 Lru.empty disk;
  table_page_hints = (pos 16, pos 24) ∷ [];
}

manager-Shows : Shows blank lru memory disk manager.buffer_pool
unfolding fresh content pins Maps.find Lru.empty
manager-Shows = record {
  valid =
      Start.fresh-IsValid blank lru memory 2 Lru.empty disk LruRefines.empty-IsValid (λ f. refl);
  nonempty = omega arith;
  contents = λ q. refl;
  unpinned = λ q. refl;
}

abbrev iam_extents : List ℕ
iam_extents = extents (load_iam_page (disk (pos 16)))

one_link-Chain : Chain disk (pos 16) 1 (extent_pages iam_extents ++ [])
unfolding load_iam_page load_u32 load_u16 word_int
one_link-Chain = link (λ e. cc) end

no_room_outside : leb 104 (get_free_space (disk invalid_page_id)) ≡ false
unfolding get_free_space load_u16
no_room_outside = refl

find_page_with_space-Searched_example :
    Searched blank lru memory disk 104
      (pos 16)
      (candidates (some (pos 24)) (extent_pages iam_extents ++ []))
      manager
      (find_page_with_space blank lru memory 1 (pos 16) 100 manager)
unfolding Maps.find ℤ_discrete
find_page_with_space-Searched_example =
    Search.find_page_with_space-Searched blank lru memory (λ p b d. refl) (λ p d. refl) disk 100 1
      manager one_link-Chain (omega arith) manager-Shows no_room_outside (omega arith) tt (λ e. cc)

-- The hint, page 24, is full; the page behind it has room.
finds_page_25 : (find_page_with_space blank lru memory 1 (pos 16) 100 manager).0 ≡ found (pos 25)
unfolding Maps.find ℤ_discrete get_free_space load_u16 next_page pages_behind total_needed
finds_page_25 =
    (Search.find_page_with_space-Searched blank lru memory (λ p b d. refl) (λ p d. refl) disk 100 1
      manager one_link-Chain (omega arith) manager-Shows no_room_outside (omega arith) tt
      (λ e. cc)).answer
