-- ===== src/Storage/IamManager.antt =====
-- The search for room of IamManager (src/storage/iam_manager.cpp): a data page of a table with
-- enough free space, by way of the hint, the rest of its extent, and the chain of IAM pages. Where
-- a method returns INVALID_PAGE_ID for "none", so does the model by `none`.
pub mod Reference
pub mod Pages
pub mod Search
mod Tests
use lettydb.Common.{
  ℕ, zero, suc, ◌+◌, ◌-◌, ◌*◌, ◌/◌, ◌%◌, ◌^◌, List, [], ◌∷◌, Bool, true, false, Option, none, some,
  ltb, leb, if◌then◌else◌, ℤ, pos, negsuc, ℤ_discrete, ite,
}
use lettydb.Common.Maps
use lettydb.Buffer.Replacer.{PageReplacer}
use lettydb.Buffer.Pool
use lettydb.Buffer.Pool.{fetch_page, unpin_page}
use lettydb.Storage.Bytes.{Buffer, load_u16}
use lettydb.Storage.Config.{PageId, invalid_page_id, extent_size}
use lettydb.Storage.Disk.{DiskManager}
use lettydb.Storage.IamPage.{IamPage, extents}
use lettydb.Storage.SlottedPage.{get_free_space, slot_size}
use lettydb.Storage.Tuple.{word_int}

-- A little-endian uint32_t at an offset.
unfoldable pub load_u32 : Buffer → ℕ → ℕ
load_u32 b o = load_u16 b o + 65536 * load_u16 b (o + 2)

-- `load_page_layout<IAMPage>`, from the bytes of a page.
unfoldable pub load_iam_page : Buffer → IamPage
load_iam_page b = record {
  next_page_id = word_int (load_u32 b 0);
  extent_count = load_u16 b 4;
  extent_ids = λ i. load_u32 b (8 + 4 * i);
}

unfoldable pub first_page_of_extent : ℕ → PageId
first_page_of_extent extent_id = word_int (extent_id * extent_size % 2 ^ 32)

-- `page_id + 1`.
unfoldable pub next_page : PageId → PageId
next_page (pos n) = pos (n + 1)
next_page (negsuc zero) = pos 0
next_page (negsuc (suc n)) = negsuc n

-- How many pages the loop of `scan_extent_forward` visits, all behind the hint. The division of C
-- goes towards 0, so below 0 the extent starts behind the page.
unfoldable pub pages_behind : PageId → ℕ
pages_behind (pos n) = extent_size - 1 - n % extent_size
pages_behind (negsuc n) = extent_size - 1 + (n + 1) % extent_size

-- The uint32_t sum of a row's size and `sizeof(Slot)`.
unfoldable pub total_needed : ℕ → ℕ
total_needed required_space = (required_space + slot_size) % 2 ^ 32

-- What a search comes to. `out_of_fuel`: the chain is longer than the pages allowed for.
pub data Scan : Type 0 where
  found : PageId → Scan
  not_found io_error out_of_fuel : Scan

-- The test of a loop over the chain: `current != INVALID_PAGE_ID`. The same test of the head stands
-- at the start of a search.
unfoldable pub at_end : {X : Type 0} → PageId → X → X → X
at_end current stop continue_with = ite (ℤ_discrete current invalid_page_id) stop continue_with

module _ (zeros : Buffer) (rep : PageReplacer) (dm : DiskManager Buffer) where
  abbrev pub PoolState : Type 0
  PoolState = Pool.State zeros rep dm

  pub record IamManager : Type 0 where
    pub buffer_pool : PoolState
    pub table_page_hints : List (PageId × PageId)

  unfoldable pub page_has_space : PageId → ℕ → PoolState → Bool × PoolState
  page_has_space page_id required s =
      let (frame, t) = fetch_page zeros rep dm page_id s in
      elim frame [
        | none ↦ (false, t)
        | some f ↦ (
          leb required (get_free_space (t.pages f).bytes),
          (unpin_page zeros rep dm page_id false t).1,
        )
      ]

  -- The first with room of `n` pages from a page on.
  unfoldable pub scan_pages : ℕ → ℕ → PageId → PoolState → Option PageId × PoolState
  scan_pages needed zero p s = (none, s)
  scan_pages needed (suc n) p s =
      let (has_space, t) = page_has_space p needed s in
      let rest = scan_pages needed n (next_page p) t in if has_space then (some p, t) else rest

  -- The loop of `scan_iam_chain` over the extents of one IAM page.
  unfoldable pub scan_extents : ℕ → List ℕ → PoolState → Option PageId × PoolState
  scan_extents needed [] s = (none, s)
  scan_extents needed (extent_id ∷ rest) s =
      let (page, t) = scan_pages needed extent_size (first_page_of_extent extent_id) s in
      elim page [ some p ↦ (some p, t) | none ↦ scan_extents needed rest t ]

  unfoldable pub load_iam_value : PageId → PoolState → Option IamPage × PoolState
  load_iam_value page_id s =
      let (frame, t) = fetch_page zeros rep dm page_id s in
      elim frame [
        | none ↦ (none, t)
        | some f ↦
            (some (load_iam_page (t.pages f).bytes), (unpin_page zeros rep dm page_id false t).1)
      ]

  -- The while loop of `scan_iam_chain`, over at most `n` IAM pages.
  unfoldable pub scan_chain : ℕ → ℕ → PageId → PoolState → Scan × PoolState
  scan_chain needed zero current s = at_end current (not_found, s) (out_of_fuel, s)
  scan_chain needed (suc n) current s =
      let (iam_page, t) = load_iam_value current s in
      at_end current (not_found, s)
        (elim iam_page [
          | none ↦ (io_error, t)
          | some g ↦
              let (page, u) = scan_extents needed (extents g) t in
              elim page [ some p ↦ (found p, u) | none ↦ scan_chain needed n g.next_page_id u ]
        ])

  -- A page that was found is the table's hint from now on. A caller takes INVALID_PAGE_ID for none.
  unfoldable pub remember : PageId → Scan × PoolState → IamManager → Scan × IamManager
  remember head (found p, s) m = (
    at_end p not_found (found p),
    record m {
      buffer_pool = s;
      table_page_hints = Maps.insert ℤ_discrete head p m.table_page_hints;
    },
  )
  remember head (not_found, s) m = (not_found, record m { buffer_pool = s })
  remember head (io_error, s) m = (io_error, record m { buffer_pool = s })
  remember head (out_of_fuel, s) m = (out_of_fuel, record m { buffer_pool = s })

  unfoldable pub scan_iam_chain : ℕ → PageId → ℕ → IamManager → Scan × IamManager
  scan_iam_chain n head needed m = remember head (scan_chain needed n head m.buffer_pool) m

  abbrev pub as_scan : Option PageId → Scan
  as_scan none = not_found
  as_scan (some p) = found p

  unfoldable pub scan_extent_forward : PageId → PageId → ℕ → IamManager → Scan × IamManager
  scan_extent_forward head hint needed m =
      let (page, s) = scan_pages needed (pages_behind hint) (next_page hint) m.buffer_pool in
      remember head (as_scan page, s) m

  unfoldable pub find_hint_page : PageId → ℕ → IamManager → Bool × IamManager
  find_hint_page hint needed m =
      let (has_space, s) = page_has_space hint needed m.buffer_pool in
      (has_space, record m { buffer_pool = s })

  -- The pages behind the hint are tried, then the chain.
  unfoldable pub search_behind_hint : ℕ → PageId → PageId → ℕ → IamManager → Scan × IamManager
  search_behind_hint n head hint needed m =
      let (forward, t) = scan_extent_forward head hint needed m in
      let chain = scan_iam_chain n head needed t in
      elim forward [
        | found p ↦ (found p, t)
        | not_found ↦ chain
        | io_error ↦ chain
        | out_of_fuel ↦ chain
      ]

  unfoldable pub search_from_hint : ℕ → PageId → PageId → ℕ → IamManager → Scan × IamManager
  search_from_hint n head hint needed m =
      let (hit, t) = find_hint_page hint needed m in
      let behind = search_behind_hint n head hint needed t in
      if hit then at_end hint behind (found hint, t) else behind

  unfoldable pub find_page_with_space : ℕ → PageId → ℕ → IamManager → Scan × IamManager
  find_page_with_space n head required_space m =
      let needed = total_needed required_space in
      at_end head (not_found, m)
        (elim (Maps.find ℤ_discrete head m.table_page_hints) [
          | none ↦ scan_iam_chain n head needed m
          | some hint ↦ search_from_hint n head hint needed m
        ])
