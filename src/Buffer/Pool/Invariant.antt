-- ===== src/Buffer/Pool/Invariant.antt =====
-- What holds of the buffer pool between calls, and the pages that a caller can see.
use lettydb.Common.{
  ℕ, ◌<◌, ◌≡◌, ◌≢◌, ◌⊎◌, true, false, none, some, ◌==◌, elem, IsDistinct, ℤ, ℤ_discrete,
}
use lettydb.Common.Maps
use lettydb.Buffer.Replacer.{PageReplacer}
use lettydb.Buffer.Pool.{lookup, State}
use lettydb.Storage.Config.{PageId, invalid_page_id}
use lettydb.Storage.Disk.{DiskManager}

module _ {A : Type 0} (zeros : A) (rep : PageReplacer) (dm : DiskManager A) where
  pub record IsValid (s : State zeros rep dm) : Type 0 where
    pub unique : Maps.IsUnique ℤ_discrete s.page_table
    pub policy : PageReplacer.IsValid rep s.replacer
    -- A mapped frame is in the array and holds the page that it is mapped from.
    pub mapped :
        (p : ℤ) (f : ℕ) → lookup p s ≡ some f → (f < s.pool_size) × ((s.pages f).page_id ≡ p)
    -- A mapped frame is tracked by the replacer exactly when nobody pins it.
    pub evictable :
        (p : ℤ) (f : ℕ)
        → lookup p s ≡ some f
        → PageReplacer.contains rep s.replacer f ≡ ((s.pages f).pin_count == 0)
    pub tracked :
        (f : ℕ)
        → PageReplacer.contains rep s.replacer f ≡ true
        → lookup (s.pages f).page_id s ≡ some f
    -- A free frame is in the array and not mapped, and is free once.
    pub free_in_range : (f : ℕ) → elem f s.free_list ≡ true → f < s.pool_size
    pub free_unmapped : (f : ℕ) (p : ℤ) → elem f s.free_list ≡ true → lookup p s ≢ some f
    pub free_blank : (f : ℕ) → elem f s.free_list ≡ true → (s.pages f).page_id ≡ invalid_page_id
    pub free_once : IsDistinct s.free_list
    -- No frame is lost.
    pub accounted :
        (f : ℕ)
        → f < s.pool_size
        → (elem f s.free_list ≡ true) ⊎ (lookup (s.pages f).page_id s ≡ some f)
    -- A clean page that nobody pins agrees with the disk.
    pub clean :
        (p : ℤ) (f : ℕ)
        → lookup p s ≡ some f
        → (s.pages f).pin_count ≡ 0
        → (s.pages f).is_dirty ≡ false
        → DiskManager.stored dm s.disk p ≡ (s.pages f).bytes

  -- The content of a page: that of its frame if it is cached, else that of the disk.
  unfoldable pub content : State zeros rep dm → PageId → A
  content s p = elim (lookup p s) [
    | some f ↦ (s.pages f).bytes
    | none ↦ DiskManager.stored dm s.disk p
  ]

  -- How many callers hold a page.
  unfoldable pub pins : State zeros rep dm → PageId → ℕ
  pins s p = elim (lookup p s) [ some f ↦ (s.pages f).pin_count | none ↦ 0 ]

  -- A page that somebody pins, with its frame and its pin count.
  abbrev pub Pinned : State zeros rep dm → PageId → ℕ → Type 0
  Pinned s p f = (lookup p s ≡ some f) × ((s.pages f).pin_count ≢ 0)
