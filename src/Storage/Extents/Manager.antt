-- ===== src/Storage/Extents/Manager.antt =====
-- ExtentManager of src/storage/extent_manager.cpp over the buffer pool: the walk along the chain of
-- GAM pages. `decode` and `encode` are the memcpy of a GAMPage from and to the bytes of a page
-- (src/storage/page_utils.h). An exception leaves the state as it is then.
use lettydb.Common.{
  ℕ, zero, suc, ◌+◌, Bool, true, false, Option, none, some, ltb, if◌then◌else◌, ℤ_discrete, ite,
  pos_part,
}
use lettydb.Buffer.Replacer.{PageReplacer}
use lettydb.Buffer.Pool
use lettydb.Buffer.Pool.{fetch_page, unpin_page, write_data}
use lettydb.Storage.Config.{PageId, invalid_page_id, first_gam_page_id}
use lettydb.Storage.Disk.{DiskManager}
use lettydb.Storage.Extents.{
  GamPage, Allocation, allocated, full, overflow, allocate_extent_in_gam_page,
  is_valid_extent_for_deallocation, gam_page_index, bit_in_gam, release_bit,
}

-- The codes of the exceptions, and the end of a bound on a loop.
pub data Failure : Type 0 where
  io_error corruption internal out_of_fuel : Failure

pub data Outcome (T : Type 0) : Type 0 where
  ok : T → Outcome T
  failed : Failure → Outcome T

module _ {A : Type 0} (zeros : A) (rep : PageReplacer) (dm : DiskManager A) (decode : A → GamPage)
    (encode : GamPage → A) where
  pub record ExtentManager : Type 0 where
    pub buffer_pool : Pool.State zeros rep dm
    pub current_gam_page_id : PageId
    pub current_gam_chain_index : ℕ

  abbrev unpin : PageId → Bool → ExtentManager → ExtentManager
  unpin p dirty m = record m { buffer_pool = (unpin_page zeros rep dm p dirty m.buffer_pool).1 }

  abbrev pub load_page_layout : ℕ → ExtentManager → GamPage
  load_page_layout f m = decode (m.buffer_pool.pages f).bytes

  abbrev pub store_page_layout : ℕ → GamPage → ExtentManager → ExtentManager
  store_page_layout f g m = record m {
    buffer_pool = write_data zeros rep dm f (encode g) m.buffer_pool;
  }

  abbrev fetch : PageId → ExtentManager → Option ℕ × ExtentManager
  fetch p m =
      let (frame, pool) = fetch_page zeros rep dm p m.buffer_pool in
      (frame, record m { buffer_pool = pool })

  unfoldable pub load_page_value : PageId → ExtentManager → Option GamPage × ExtentManager
  load_page_value p m =
      let (frame, t) = fetch p m in
      elim frame [ none ↦ (none, t) | some f ↦ (some (load_page_layout f t), unpin p false t) ]

  unfoldable pub advance_gam_cursor : PageId → ExtentManager → ExtentManager
  advance_gam_cursor next_gam_id m = record m {
    current_gam_page_id = next_gam_id;
    current_gam_chain_index = m.current_gam_chain_index + 1;
  }

  -- One round of the loop of `allocate_extent`: an extent, or the next page of the chain.
  unfoldable pub finish_round :
      ℕ → Allocation × GamPage → ExtentManager → Outcome (Option PageId × PageId) × ExtentManager
  finish_round f (allocated p, g) m =
      (ok (some p, p), unpin m.current_gam_page_id true (store_page_layout f g m))
  finish_round f (full, g) m = (ok (none, g.next_page_id), unpin m.current_gam_page_id false m)
  finish_round f (overflow, g) m = (failed internal, m)

  unfoldable pub try_page : ExtentManager → Outcome (Option PageId × PageId) × ExtentManager
  try_page m =
      let (frame, t) = fetch m.current_gam_page_id m in
      elim frame [
        | none ↦ (failed io_error, t)
        | some f ↦
            finish_round f
              (allocate_extent_in_gam_page t.current_gam_chain_index (load_page_layout f t)) t
      ]

  -- The while loop of `allocate_extent`, over at most `n` pages of the chain; `none` at its end.
  unfoldable pub allocate_in_chain : ℕ → ExtentManager → Outcome (Option PageId) × ExtentManager
  allocate_in_chain zero m = (failed out_of_fuel, m)
  allocate_in_chain (suc n) m =
      let (tried, t) = try_page m in
      elim tried [
        | failed e ↦ (failed e, t)
        | ok (some p, next) ↦ (ok (some p), t)
        | ok (none, next) ↦
            ite (ℤ_discrete next invalid_page_id) (ok none, t)
              (allocate_in_chain n (advance_gam_cursor next t))
      ]

  -- The loop of `find_gam_page_at_index` from a page on, `steps` links.
  unfoldable pub find_gam_from : ℕ → PageId → ExtentManager → Outcome PageId × ExtentManager
  find_gam_from zero current m = (ok current, m)
  find_gam_from (suc steps) current m =
      let (gam_page, t) = load_page_value current m in
      elim gam_page [
        | none ↦ (failed io_error, t)
        | some g ↦
            ite (ℤ_discrete g.next_page_id invalid_page_id) (failed corruption, t)
              (find_gam_from steps g.next_page_id t)
      ]

  unfoldable pub find_gam_page_at_index : ℕ → ExtentManager → Outcome PageId × ExtentManager
  find_gam_page_at_index index m = find_gam_from index first_gam_page_id m

  -- The cursor goes back to an earlier GAM page that has room again.
  unfoldable pub rewind_cursor : PageId → ℕ → ExtentManager → ExtentManager
  rewind_cursor gam_page_id index m =
      if ltb index m.current_gam_chain_index
      then record m { current_gam_chain_index = index; current_gam_page_id = gam_page_id }
      else m

  unfoldable pub clear_extent_bit : PageId → ℕ → ℕ → ExtentManager → Outcome Bool × ExtentManager
  clear_extent_bit gam_page_id bit index m =
      let (frame, t) = fetch gam_page_id m in
      elim frame [
        | none ↦ (failed io_error, t)
        | some f ↦ (
          ok true,
          rewind_cursor gam_page_id index (
              unpin gam_page_id true
                (store_page_layout f (release_bit bit (load_page_layout f t)) t)),
        )
      ]

  unfoldable pub deallocate_extent : PageId → ExtentManager → Outcome Bool × ExtentManager
  deallocate_extent start_page_id m =
      let start = pos_part start_page_id in
      let (found, t) = find_gam_page_at_index (gam_page_index start) m in
      if is_valid_extent_for_deallocation start_page_id
      then elim found [
        | failed e ↦ (failed e, t)
        | ok p ↦
            ite (ℤ_discrete p invalid_page_id) (failed corruption, t)
              (clear_extent_bit p (bit_in_gam start) (gam_page_index start) t)
      ]
      else (ok false, m)
