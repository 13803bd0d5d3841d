-- ===== src/Buffer/Pool.antt =====
-- src/buffer/buffer_pool_manager.cpp, over any replacer and any disk manager. A `Page*` is a frame
-- id; the frame array is a function of the frame id. The latch makes every call atomic.
pub mod Flush
pub mod Invariant
pub mod Acquire
pub mod Frames
pub mod Install
pub mod Pinning
pub mod Calls
pub mod Updates
pub mod Durable
pub mod Checkpoint
pub mod Run
pub mod Start
pub mod Refines
pub mod Service
pub mod Peek
use lettydb.Common.{
  ℕ, zero, suc, ◌+◌, ◌-◌, ◌%◌, ◌^◌, ◌<◌, ◌≡◌, List, [], ◌∷◌, ◌++◌, Bool, true, false, ◌&&◌, not,
  Option, none, some, ◌==◌, ltb, if◌then◌else◌, ℤ, ℤ_discrete, ite,
}
use lettydb.Common.Maps
use lettydb.Buffer.Replacer.{PageReplacer}
use lettydb.Storage.Config.{PageId, invalid_page_id}
use lettydb.Storage.Disk.{DiskManager, is_success}

-- src/storage/page.h: the metadata of a frame, and its bytes.
pub record Page (A : Type 0) : Type 0 where
  pub page_id : PageId
  pub pin_count : ℕ
  pub is_dirty : Bool
  pub bytes : A

pub record CacheStats : Type 0 where
  pub hits : ℕ
  pub misses : ℕ
  pub evictions : ℕ
  pub dirty_evictions : ℕ
  pub flushes : ℕ

abbrev pub no_stats : CacheStats
no_stats = record { hits = 0; misses = 0; evictions = 0; dirty_evictions = 0; flushes = 0 }

-- A uint64_t counter.
abbrev pub add_u64 : ℕ → ℕ → ℕ
add_u64 n k = (n + k) % 2 ^ 64

pub record Pool (R D A : Type 0) : Type 0 where
  pub disk : D
  pub pool_size : ℕ
  pub pages : ℕ → Page A
  pub page_table : List (ℤ × ℕ)
  pub free_list : List ℕ
  pub replacer : R
  pub stats : CacheStats

-- `pages_[f] = page`.
abbrev pub set_page : {A : Type 0} → ℕ → Page A → (ℕ → Page A) → ℕ → Page A
set_page f page pages g = if f == g then page else pages g

abbrev pub lookup : {R D A : Type 0} → PageId → Pool R D A → Option ℕ
lookup p s = Maps.find ℤ_discrete p s.page_table

abbrev pub count_from : ℕ → ℕ → List ℕ
count_from zero i = []
count_from (suc n) i = i ∷ count_from n (suc i)

module _ {A : Type 0} (zeros : A) (rep : PageReplacer) (dm : DiskManager A) where
  open rep use {identify_frame_to_evict, mark_evictable, mark_not_evictable}

  abbrev pub State : Type 0
  State = Pool (PageReplacer.State rep) (DiskManager.State dm) A

  -- `Page::reset`.
  abbrev pub reset : Page A → Page A
  reset page = record { page_id = invalid_page_id; pin_count = 0; is_dirty = false; bytes = zeros }

  -- All frames are blank and free.
  unfoldable pub fresh : ℕ → PageReplacer.State rep → DiskManager.State dm → State
  fresh size r d = record {
    disk = d;
    pool_size = size;
    pages =
        λ f. record { page_id = invalid_page_id; pin_count = 0; is_dirty = false; bytes = zeros };
    page_table = [];
    free_list = count_from size 0;
    replacer = r;
    stats = no_stats;
  }

  -- The constructor throws on a pool size of 0, on a null replacer, which is `none`, and if
  -- `aligned_alloc` fails; `allocated` is whether it succeeds.
  unfoldable pub init :
      Bool → ℕ → Option (PageReplacer.State rep) → DiskManager.State dm → Option State
  init allocated size replacer d = if size == 0 then none else elim replacer [
    | none ↦ none
    | some r ↦ if allocated then some (fresh size r d) else none
  ]

  -- The tail of `acquire_frame`: the victim's page leaves the table.
  unfoldable pub release_victim : ℕ → State → Option ℕ × State
  release_victim f s = (
    some f,
    record s {
      page_table = Maps.erase ℤ_discrete (s.pages f).page_id s.page_table;
      stats = record (s.stats) { evictions = add_u64 s.stats.evictions 1 };
    },
  )

  -- A dirty victim is written back first; if that fails it stays, and is evictable again.
  unfoldable pub evict : ℕ → State → Option ℕ × State
  evict f s =
      if (s.pages f).is_dirty
      then (let (result, d) = dm.write_page (s.pages f).page_id (s.pages f).bytes s.disk in
          if is_success result
          then release_victim f (record s {
            disk = d;
            stats = record (s.stats) { dirty_evictions = add_u64 s.stats.dirty_evictions 1 };
          })
          else (none, record s { disk = d; replacer = mark_evictable f s.replacer }))
      else release_victim f s

  -- The replacer's answer: a victim, or none if all frames are pinned.
  unfoldable pub take_victim : Option ℕ × PageReplacer.State rep → State → Option ℕ × State
  take_victim (none, r) s = (none, record s { replacer = r })
  take_victim (some f, r) s = evict f (record s { replacer = r })

  unfoldable pub take_frame : List ℕ → State → Option ℕ × State
  take_frame (f ∷ rest) s = (some f, record s { free_list = rest })
  take_frame [] s = take_victim (identify_frame_to_evict s.replacer) s

  unfoldable pub acquire_frame : State → Option ℕ × State
  acquire_frame s = take_frame s.free_list s

  -- A cached page is pinned once more and is no candidate for eviction.
  unfoldable pub pin_cached : ℕ → State → State
  pin_cached f s = record s {
    pages = set_page f (record (s.pages f) { pin_count = suc (s.pages f).pin_count }) s.pages;
    replacer = mark_not_evictable f s.replacer;
  }

  abbrev count_hit : State → State
  count_hit s = record s { stats = record (s.stats) { hits = add_u64 s.stats.hits 1 } }

  abbrev count_miss : State → State
  count_miss s = record s { stats = record (s.stats) { misses = add_u64 s.stats.misses 1 } }

  -- `page.reset()` on the acquired frame.
  abbrev pub reset_frame : ℕ → State → State
  reset_frame f s = record s { pages = set_page f (reset (s.pages f)) s.pages }

  -- The frame, reset before, holds the page from now on and is pinned once.
  unfoldable pub install : PageId → ℕ → Bool → A → State → State
  install p f dirty a s = record s {
    pages = set_page f (record { page_id = p; pin_count = 1; is_dirty = dirty; bytes = a }) s.pages;
    page_table = Maps.insert ℤ_discrete p f s.page_table;
  }

  -- The part of `fetch_page` after a frame is found.
  unfoldable pub read_into : PageId → ℕ → State → Option ℕ × State
  read_into p f s =
      let (result, a, d) = dm.read_page p s.disk in
      if is_success result then (some f, install p f false a (record s { disk = d })) else (
        none,
        record s {
          disk = d;
          pages = set_page f (reset (s.pages f)) s.pages;
          free_list = s.free_list ++ f ∷ [];
        },
      )

  unfoldable pub fetch_page : PageId → State → Option ℕ × State
  fetch_page p s = elim (lookup p s) [
    | some f ↦ (some f, count_hit (pin_cached f s))
    | none ↦
        let (frame, t) = acquire_frame (count_miss s) in
        elim frame [ none ↦ (none, t) | some f ↦ read_into p f (reset_frame f t) ]
  ]

  -- The part of `new_page` and `new_or_fetch_page` after the table was searched.
  unfoldable pub create_page : PageId → State → Option ℕ × State
  create_page p s =
      let (frame, t) = acquire_frame s in
      elim frame [ none ↦ (none, t) | some f ↦ (some f, install p f true zeros (reset_frame f t)) ]

  unfoldable pub new_page : PageId → State → Option ℕ × State
  new_page p s = elim (lookup p s) [ some f ↦ (none, s) | none ↦ create_page p s ]

  unfoldable pub new_or_fetch_page : PageId → State → Option ℕ × State
  new_or_fetch_page p s = elim (lookup p s) [
    | some f ↦ (some f, pin_cached f s)
    | none ↦ create_page p s
  ]

  -- The part of `unpin_page` after its checks.
  unfoldable pub unpin_frame : ℕ → Bool → State → State
  unpin_frame f dirty s =
      let page = s.pages f in
      record s {
        pages =
            set_page f
              (record page {
                pin_count = page.pin_count - 1;
                is_dirty = if dirty then true else page.is_dirty;
              })
              s.pages;
        replacer = if page.pin_count - 1 == 0 then mark_evictable f s.replacer else s.replacer;
      }

  unfoldable pub unpin_page : PageId → Bool → State → Bool × State
  unpin_page p dirty s = elim (lookup p s) [
    | none ↦ (false, s)
    | some f ↦ if (s.pages f).pin_count == 0 then (false, s) else (true, unpin_frame f dirty s)
  ]

  -- What a caller writes through the `Page*` that it holds.
  unfoldable pub write_data : ℕ → A → State → State
  write_data f a s = record s { pages = set_page f (record (s.pages f) { bytes = a }) s.pages }
