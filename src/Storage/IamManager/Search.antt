-- ===== src/Storage/IamManager/Search.antt =====
-- The search of src/storage/iam_manager.cpp against a search in the contents of the pages.
use lettydb.Common.{
  [], ◌∷◌, pos, negsuc, ◌<◌, ◌+◌, ◌^◌, false, true, subst, ℕ, ◌≤◌, ◌≡◌, ◌≢◌, refl, List, ◌++◌, true,
  Option, none, some, ℤ, ℤ_discrete, ite, ap, arith, Bool-cases, Option-cases, inl, inr,
}
use lettydb.Common.Maps
use lettydb.Buffer.Replacer.{PageReplacer}
use lettydb.Buffer.Pool.Peek.{Shows}
use lettydb.Storage.Bytes.{Buffer}
use lettydb.Storage.Config.{PageId, invalid_page_id}
use lettydb.Storage.Disk.{DiskManager, is_success}
use lettydb.Storage.IamManager.Reference.{
  IsPage, first_with_room-some, pages_behind-same_extent, has_room, first_with_room,
  first_with_room-append, pages_from, Chain, candidates, Answers, Searched,
}
use lettydb.Storage.IamManager.Pages.{
  at_end_ne, page_has_space-Answers, scan_pages-Answers, scan_chain-Answers,
}
use lettydb.Storage.IamManager.{
  found, not_found, next_page, pages_behind, total_needed, Scan, PoolState, IamManager,
  page_has_space, remember, scan_iam_chain, as_scan, scan_extent_forward, search_behind_hint,
  find_hint_page, search_from_hint, find_page_with_space,
}

module _ (zeros : Buffer) (rep : PageReplacer) (dm : DiskManager Buffer)
    (writes_succeed : (p : ℤ) (a : Buffer) (d : DiskManager.State dm)
      → is_success (dm.write_page p a d).0 ≡ true)
    (reads_succeed : (p : ℤ) (d : DiskManager.State dm) → is_success (dm.read_page p d).0 ≡ true)
    (c : PageId → Buffer) where
  module _ (needed : ℕ) (no_room : has_room c needed invalid_page_id ≡ false) where
    -- A page that has room is not INVALID_PAGE_ID.
    found_page :
        (ps : List PageId) (p : PageId) → first_with_room c needed ps ≡ some p → p ≢ invalid_page_id
    found_page ps p e q =
        let here = first_with_room-some c needed ps p e in
        let room = subst (λ x. has_room c needed x ≡ true) q here in ground (arith, room, no_room)

    remember-Searched :
        (head : PageId) (ps : List PageId) (x : Option PageId) (r : Scan × PoolState zeros rep dm)
        (m : IamManager zeros rep dm)
        → first_with_room c needed ps ≡ x
        → Answers zeros rep dm c (as_scan zeros rep dm x) r
        → Searched zeros rep dm c needed head ps m (remember zeros rep dm head r m)
    unfolding remember
    remember-Searched head ps none (a, s) m e (h, sh) =
        rw (h, remember) (record { answer = ground arith; shows = sh; hints = λ q. ground arith })
    remember-Searched head ps (some p) (a, s) m e (h, sh) =
        rw (h, remember, at_end_ne p (found_page ps p e) not_found (found p))
          (record {
            answer = ground (arith, e);
            shows = sh;
            hints = λ q. ground (arith, e, Maps.find-insert ℤ_discrete head q p m.table_page_hints);
          })

    module _ (head : PageId) (m : IamManager zeros rep dm)
        (sh : Shows zeros rep dm c m.buffer_pool) where
      scan_extent_forward-Searched :
          (hint : PageId)
          → Searched zeros rep dm c needed head
              (pages_from (pages_behind hint) (next_page hint))
              m
              (scan_extent_forward zeros rep dm head hint needed m)
      unfolding scan_extent_forward
      scan_extent_forward-Searched hint =
          let (here, after) =
            scan_pages-Answers zeros rep dm writes_succeed reads_succeed c needed
              (pages_behind hint) (next_page hint) m.buffer_pool sh in
          remember-Searched head _ _ _ m refl (ap (as_scan zeros rep dm) here, after)

      scan_iam_chain-Searched :
          {n : ℕ} {ps : List PageId} (fuel : ℕ)
          → Chain c head n ps
          → n ≤ fuel
          → Searched zeros rep dm c needed head ps m
              (scan_iam_chain zeros rep dm fuel head needed m)
      unfolding scan_iam_chain
      scan_iam_chain-Searched fuel chain le = remember-Searched head _ _ _ m refl (
          scan_chain-Answers zeros rep dm writes_succeed reads_succeed c needed fuel m.buffer_pool
            chain le sh)

    Searched-same :
        {head : PageId} {ps qs : List PageId} {m t : IamManager zeros rep dm}
        {r : Scan × IamManager zeros rep dm}
        → first_with_room c needed ps ≡ first_with_room c needed qs
        → ((q : PageId)
            → Maps.find ℤ_discrete q t.table_page_hints ≡ Maps.find ℤ_discrete q m.table_page_hints)
        → Searched zeros rep dm c needed head ps t r
        → Searched zeros rep dm c needed head qs m r
    Searched-same e same k = record {
      answer = ground (arith, e, k.answer);
      shows = k.shows;
      hints = λ q. ground (arith, e, same q, k.hints q);
    }

    module _ {n : ℕ} {ps : List PageId} (fuel : ℕ) (head hint : PageId)
        (m : IamManager zeros rep dm) (chain : Chain c head n ps) (le : n ≤ fuel)
        (sh : Shows zeros rep dm c m.buffer_pool) where
      search_behind_hint-Searched :
          Searched zeros rep dm c needed head
            (pages_from (pages_behind hint) (next_page hint) ++ ps)
            m
            (search_behind_hint zeros rep dm fuel head hint needed m)
      unfolding search_behind_hint
      search_behind_hint-Searched =
          let behind = pages_from (pages_behind hint) (next_page hint) in
          let forward = scan_extent_forward-Searched head m sh hint in
          elim (Option-cases (first_with_room c needed behind)) [
            | inl h ↦
                rw (search_behind_hint, forward.answer, h)
                  (Searched-same (ground (arith, first_with_room-append c needed behind ps, h))
                    (λ q. ground (arith, forward.hints q, h))
                    (scan_iam_chain-Searched head _ forward.shows fuel chain le))
            | inr (p, h) ↦
                rw (search_behind_hint, forward.answer, h)
                  (record {
                    answer = ground (arith, first_with_room-append c needed behind ps, h);
                    shows = forward.shows;
                    hints = λ q.
                        ground
                          (arith, first_with_room-append c needed behind ps, h, forward.hints q);
                  })
          ]

    module _ {n : ℕ} {ps : List PageId} (fuel : ℕ) (head hint : PageId)
        (m : IamManager zeros rep dm) (e : Maps.find ℤ_discrete head m.table_page_hints ≡ some hint)
        (chain : Chain c head n ps) (le : n ≤ fuel) (sh : Shows zeros rep dm c m.buffer_pool) where
      kept_hint :
          (q : PageId)
          → Maps.find ℤ_discrete q m.table_page_hints
            ≡ ite (ℤ_discrete head q) (some hint) (Maps.find ℤ_discrete q m.table_page_hints)
      kept_hint q = ground (arith, e)

      search_from_hint-Searched :
          Searched zeros rep dm c needed head
            (hint ∷ pages_from (pages_behind hint) (next_page hint) ++ ps)
            m
            (search_from_hint zeros rep dm fuel head hint needed m)
      unfolding search_from_hint find_hint_page
      search_from_hint-Searched =
          let (here, after) =
            page_has_space-Answers zeros rep dm writes_succeed reads_succeed c needed m.buffer_pool
              hint sh in
          let t : IamManager zeros rep dm = record m {
            buffer_pool = (page_has_space zeros rep dm hint needed m.buffer_pool).1;
          } in
          let behind = search_behind_hint-Searched fuel head hint t chain le after in
          elim (Bool-cases (has_room c needed hint)) [
            | inl h ↦
                let ne = found_page (hint ∷ []) hint (ground (arith, h)) in
                rw (search_from_hint, here, h, at_end_ne hint ne _ _)
                  (record {
                    answer = ground (arith, h);
                    shows = after;
                    hints = λ q. rw h (kept_hint q);
                  })
            | inr h ↦
                rw (search_from_hint, here, h)
                  (Searched-same (ground (arith, h)) (λ q. refl) behind)
          ]

  module _ (required : ℕ) {head : PageId} {n : ℕ} {ps : List PageId} (fuel : ℕ)
      (m : IamManager zeros rep dm) (chain : Chain c head n ps) (le : n ≤ fuel)
      (sh : Shows zeros rep dm c m.buffer_pool)
      (no_room : has_room c (required + 4) invalid_page_id ≡ false)
      (small : required + 4 < 2 ^ 32) where
    same_total : total_needed required ≡ required + 4
    unfolding total_needed
    same_total = omega (arith, small)

    found_cases :
        (x : Option PageId)
        → Maps.find ℤ_discrete head m.table_page_hints ≡ x
        → IsPage x
        → head ≢ invalid_page_id
        → Searched zeros rep dm c
            (required + 4)
            head
            (candidates x ps)
            m
            (find_page_with_space zeros rep dm fuel head required m)
    unfolding find_page_with_space
    found_cases none e is ne =
        rw (find_page_with_space, at_end_ne head ne _ _, e, same_total)
          (scan_iam_chain-Searched (required + 4) no_room head m sh fuel chain le)
    found_cases (some (negsuc k)) e is ne = absurd is
    found_cases (some (pos k)) e is ne =
        rw
          (find_page_with_space, at_end_ne head ne _ _, e, same_total, ← pages_behind-same_extent k)
          (search_from_hint-Searched (required + 4) no_room fuel head (pos k) m e chain le sh)

    -- Over a disk that does not fail, if the pool is valid and has a frame, no page is pinned,
    -- INVALID_PAGE_ID shows no room, the hint of the table, if any, is that of a page, the required
    -- space with 4 bytes for a slot is below 2^32, and the chain of IAM pages from a head other
    -- than INVALID_PAGE_ID ends within the number of pages allowed for, then `find_page_with_space`
    -- returns the first page with that much free space among the hint, the pages behind it in its
    -- extent and the pages of the extents of the chain, in this order, or that there is none. A
    -- page that is found is the hint from then on and other hints stay; the pool stays valid, with
    -- the same contents and no page pinned.
    pub find_page_with_space-Searched :
        IsPage (Maps.find ℤ_discrete head m.table_page_hints)
        → head ≢ invalid_page_id
        → Searched zeros rep dm c
            (required + 4)
            head
            (candidates (Maps.find ℤ_discrete head m.table_page_hints) ps)
            m
            (find_page_with_space zeros rep dm fuel head required m)
    find_page_with_space-Searched = found_cases _ refl
