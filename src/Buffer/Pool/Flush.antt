-- ===== src/Buffer/Pool/Flush.antt =====
-- The flushing and deleting calls of src/buffer/buffer_pool_manager.cpp. The order in which
-- `flush_all_pages` walks the hash table is that of the list which stands for it.
use lettydb.Common.{
  ℕ, zero, suc, List, [], ◌∷◌, ◌++◌, Bool, true, false, ◌&&◌, none, some, ◌==◌, ltb, if◌then◌else◌,
  ℤ, ℤ_discrete, ite,
}
use lettydb.Common.Maps
use lettydb.Buffer.Replacer.{PageReplacer}
use lettydb.Buffer.Pool.{no_stats, add_u64, set_page, lookup, State, reset}
use lettydb.Storage.Config.{PageId, invalid_page_id}
use lettydb.Storage.Disk.{DiskManager, is_success}

module _ {A : Type 0} (zeros : A) (rep : PageReplacer) (dm : DiskManager A) where
  -- A frame is written to disk, and is clean if that succeeds.
  unfoldable pub write_frame : PageId → ℕ → State zeros rep dm → Bool × State zeros rep dm
  write_frame p f s =
      let (result, d) = dm.write_page p (s.pages f).bytes s.disk in
      if is_success result
      then (
        true,
        record s { disk = d; pages = set_page f (record (s.pages f) { is_dirty = false }) s.pages },
      )
      else (false, record s { disk = d })

  abbrev pub count_flushes : ℕ → State zeros rep dm → State zeros rep dm
  count_flushes n s = record s { stats = record (s.stats) { flushes = add_u64 s.stats.flushes n } }

  -- `write_frame`, and one more flush if it succeeds.
  unfoldable pub flush_frame : PageId → ℕ → State zeros rep dm → Bool × State zeros rep dm
  flush_frame p f s =
      let (written, t) = write_frame p f s in
      if written then (true, count_flushes 1 t) else (false, t)

  unfoldable pub flush_page : PageId → State zeros rep dm → Bool × State zeros rep dm
  flush_page p s = elim (lookup p s) [
    | none ↦ (false, s)
    | some f ↦ if (s.pages f).is_dirty then flush_frame p f s else (true, s)
  ]

  -- One round of `force_flush`. A failed write is skipped over.
  unfoldable pub force_flush_frame : ℕ → State zeros rep dm → State zeros rep dm
  force_flush_frame f s =
      ite (ℤ_discrete (s.pages f).page_id invalid_page_id) s
        (if (s.pages f).is_dirty then (flush_frame (s.pages f).page_id f s).1 else s)

  -- The loop of `force_flush` over the frames from `i` on, `n` of them.
  unfoldable pub force_flush_from : ℕ → ℕ → State zeros rep dm → State zeros rep dm
  force_flush_from zero i s = s
  force_flush_from (suc n) i s = force_flush_from n (suc i) (force_flush_frame i s)

  unfoldable pub force_flush : State zeros rep dm → State zeros rep dm
  force_flush s = force_flush_from s.pool_size 0 s

  -- One round of `flush_all_pages`, with its counts of flushed and of failed pages.
  unfoldable pub flush_entry : PageId → ℕ → ℕ × ℕ × State zeros rep dm → ℕ × ℕ × State zeros rep dm
  flush_entry p f (flushed, failed, s) =
      if (s.pages f).is_dirty
      then (let (written, t) = write_frame p f s in
          if written then (suc flushed, failed, t) else (flushed, suc failed, t))
      else (flushed, failed, s)

  unfoldable pub flush_entries :
      List (ℤ × ℕ) → ℕ × ℕ × State zeros rep dm → ℕ × ℕ × State zeros rep dm
  flush_entries [] r = r
  flush_entries ((p, f) ∷ entries) r = flush_entries entries (flush_entry p f r)

  unfoldable pub flush_all_pages : State zeros rep dm → Bool × State zeros rep dm
  flush_all_pages s =
      let (flushed, failed, t) = flush_entries s.page_table (0, 0, s) in
      (failed == 0, if ltb 0 flushed then count_flushes flushed t else t)

  unfoldable pub checkpoint : State zeros rep dm → Bool × State zeros rep dm
  checkpoint s =
      let (flushed, t) = flush_all_pages s in
      let (synced, d) = dm.sync t.disk in (flushed && synced, record t { disk = d })

  -- The part of `delete_page` after its checks.
  unfoldable pub drop_frame : PageId → ℕ → State zeros rep dm → State zeros rep dm
  drop_frame p f s = record s {
    replacer = rep.mark_not_evictable f s.replacer;
    pages = set_page f (reset zeros rep dm (s.pages f)) s.pages;
    page_table = Maps.erase ℤ_discrete p s.page_table;
    free_list = s.free_list ++ f ∷ [];
  }

  unfoldable pub delete_page : PageId → State zeros rep dm → Bool × State zeros rep dm
  delete_page p s = elim (lookup p s) [
    | none ↦ (false, s)
    | some f ↦ if ltb 0 (s.pages f).pin_count then (false, s) else (true, drop_frame p f s)
  ]

  unfoldable pub reset_cache_stats : State zeros rep dm → State zeros rep dm
  reset_cache_stats s = record s { stats = no_stats }
