-- ===== src/Storage/IamManager/Pages.antt =====
-- The loops of src/storage/iam_manager.cpp over the pages and the chain find the first page with
-- room.
use lettydb.Common.{
  ℕ, zero, suc, ◌≤◌, ◌≡◌, ◌≢◌, refl, List, [], ◌∷◌, ◌++◌, true, some, ℤ, ℤ_discrete, if_neg, arith,
  Bool-cases, Option-cases, inl, inr,
}
use lettydb.Buffer.Replacer.{PageReplacer}
use lettydb.Buffer.Pool.Peek.{Shows, fetch_page-Peeked}
use lettydb.Storage.Bytes.{Buffer}
use lettydb.Storage.Config.{PageId, invalid_page_id, extent_size}
use lettydb.Storage.Disk.{DiskManager, is_success}
use lettydb.Storage.IamPage.{extents}
use lettydb.Storage.IamManager.Reference.{
  has_room, first_with_room, first_with_room-append, pages_from, extent_pages, Chain, end, link,
  Answers,
}
use lettydb.Storage.IamManager.{
  at_end, load_iam_page, first_page_of_extent, next_page, PoolState, page_has_space, scan_pages,
  scan_extents, load_iam_value, scan_chain, as_scan,
}

pub at_end_ne : {X : Type 0} (p : PageId) → p ≢ invalid_page_id → (x y : X) → at_end p x y ≡ y
unfolding at_end
at_end_ne p ne x y = if_neg (ℤ_discrete p invalid_page_id) ne x y

module _ (zeros : Buffer) (rep : PageReplacer) (dm : DiskManager Buffer)
    (writes_succeed : (p : ℤ) (a : Buffer) (d : DiskManager.State dm)
      → is_success (dm.write_page p a d).0 ≡ true)
    (reads_succeed : (p : ℤ) (d : DiskManager.State dm) → is_success (dm.read_page p d).0 ≡ true)
    (c : PageId → Buffer) where
  module _ (needed : ℕ) where
    pub page_has_space-Answers :
        (s : PoolState zeros rep dm) (p : PageId)
        → Shows zeros rep dm c s
        → Answers zeros rep dm c (has_room c needed p) (page_has_space zeros rep dm p needed s)
    unfolding page_has_space
    page_has_space-Answers s p sh =
        let (f, e, same, after) =
          fetch_page-Peeked zeros rep dm writes_succeed reads_succeed s c sh p in
        rw (e, page_has_space, same) (refl, after)

    pub load_iam_value-Answers :
        (s : PoolState zeros rep dm) (p : PageId)
        → Shows zeros rep dm c s
        → Answers zeros rep dm c (some (load_iam_page (c p))) (load_iam_value zeros rep dm p s)
    unfolding load_iam_value
    load_iam_value-Answers s p sh =
        let (f, e, same, after) =
          fetch_page-Peeked zeros rep dm writes_succeed reads_succeed s c sh p in
        rw (e, load_iam_value, same) (refl, after)

    pub scan_pages-Answers :
        (n : ℕ) (p : PageId) (s : PoolState zeros rep dm)
        → Shows zeros rep dm c s
        → Answers zeros rep dm c
            (first_with_room c needed (pages_from n p))
            (scan_pages zeros rep dm needed n p s)
    unfolding scan_pages
    scan_pages-Answers zero p s sh = (refl, sh)
    scan_pages-Answers (suc n) p s sh =
        let (here, after) = page_has_space-Answers s p sh in
        let rest = scan_pages-Answers n (next_page p) _ after in
        elim (Bool-cases (has_room c needed p)) [
          | inl h ↦ rw (here, h, scan_pages) (refl, after)
          | inr h ↦ rw (here, h, scan_pages) rest
        ]

    scan_extents-Answers :
        (es : List ℕ) (s : PoolState zeros rep dm)
        → Shows zeros rep dm c s
        → Answers zeros rep dm c
            (first_with_room c needed (extent_pages es))
            (scan_extents zeros rep dm needed es s)
    unfolding scan_extents
    scan_extents-Answers [] s sh = (refl, sh)
    scan_extents-Answers (e ∷ es) s sh =
        let mine = pages_from extent_size (first_page_of_extent e) in
        let (here, after) = scan_pages-Answers extent_size (first_page_of_extent e) s sh in
        let rest = scan_extents-Answers es _ after in
        elim (Option-cases (first_with_room c needed mine)) [
          | inl h ↦
              rw (first_with_room-append c needed mine (extent_pages es), here, h, scan_extents)
                rest
          | inr (p, h) ↦
              rw (first_with_room-append c needed mine (extent_pages es), here, h, scan_extents)
                (refl, after)
        ]

    -- The pages of one IAM page are searched, then those of the rest of the chain.
    linked-Answers :
        (fuel : ℕ) (p : PageId) (ps : List PageId) (s : PoolState zeros rep dm)
        → p ≢ invalid_page_id
        → ((u : PoolState zeros rep dm)
            → Shows zeros rep dm c u
            → Answers zeros rep dm c
                (as_scan zeros rep dm (first_with_room c needed ps))
                (scan_chain zeros rep dm needed fuel (load_iam_page (c p)).next_page_id u))
        → Shows zeros rep dm c s
        → Answers zeros rep dm c
            (as_scan zeros rep dm
              (first_with_room c needed (extent_pages (extents (load_iam_page (c p))) ++ ps)))
            (scan_chain zeros rep dm needed (suc fuel) p s)
    unfolding scan_chain
    linked-Answers fuel p ps s ne later sh =
        let mine = extent_pages (extents (load_iam_page (c p))) in
        let (loaded, t) = load_iam_value-Answers s p sh in
        let (here, after) = scan_extents-Answers (extents (load_iam_page (c p))) _ t in
        elim (Option-cases (first_with_room c needed mine)) [
          | inl h ↦
              rw
                (
                  first_with_room-append c needed mine ps,
                  scan_chain,
                  at_end_ne p ne _ _,
                  loaded,
                  here,
                  h,
                )
                (later _ after)
          | inr (q, h) ↦
              rw
                (
                  first_with_room-append c needed mine ps,
                  scan_chain,
                  at_end_ne p ne _ _,
                  loaded,
                  here,
                  h,
                )
                (refl, after)
        ]

    pub scan_chain-Answers :
        (fuel : ℕ) {p : PageId} {n : ℕ} {ps : List PageId} (s : PoolState zeros rep dm)
        → Chain c p n ps
        → n ≤ fuel
        → Shows zeros rep dm c s
        → Answers zeros rep dm c
            (as_scan zeros rep dm (first_with_room c needed ps))
            (scan_chain zeros rep dm needed fuel p s)
    unfolding scan_chain at_end ℤ_discrete
    scan_chain-Answers zero s end le sh = (refl, sh)
    scan_chain-Answers (suc fuel) s end le sh = (refl, sh)
    scan_chain-Answers zero s (link ne rest) le sh = absurd (omega (arith, le))
    scan_chain-Answers (suc fuel) {p} s (link {ps = ps} ne rest) le sh =
        linked-Answers fuel p ps s ne
          (λ u after. scan_chain-Answers fuel u rest (omega (arith, le)) after) sh
