-- ===== src/Buffer/Pool/Service.antt =====
-- When `fetch_page` of src/buffer/buffer_pool_manager.cpp returns nullptr, over a disk that does
-- not fail: exactly when the page is not cached and every frame is in use.
use lettydb.Common.{
  ℕ, ◌<◌, ◌≡◌, ◌≢◌, ◌↔◌, refl, List, [], ◌∷◌, true, false, Option, none, some, ℤ, elem, arith, inl,
  ap,
}
use lettydb.Buffer.Replacer.{PageReplacer}
use lettydb.Buffer.Pool.{
  CacheStats, lookup, count_miss, reset_frame, release_victim, evict, take_victim, take_frame,
  acquire_frame, read_into, fetch_page,
}
use lettydb.Buffer.Pool.Invariant.{IsValid, Pinned}
use lettydb.Buffer.Pool.Acquire.{St, retuned-IsValid}
use lettydb.Storage.Config.{PageId}
use lettydb.Storage.Disk.{DiskManager, is_success}

module _ {A : Type 0} (zeros : A) (rep : PageReplacer) (dm : DiskManager A) where
  -- Every frame holds a page that somebody pins.
  abbrev pub AllPinned : St zeros rep dm → Type 0
  AllPinned s = (f : ℕ) → f < s.pool_size → Pinned zeros rep dm s (s.pages f).page_id f

  module _
      (writes_succeed : (p : ℤ) (a : A) (d : DiskManager.State dm)
        → is_success (dm.write_page p a d).0 ≡ true)
      (reads_succeed : (p : ℤ) (d : DiskManager.State dm)
        → is_success (dm.read_page p d).0 ≡ true) where
    evict-ne-none : (f : ℕ) (s : St zeros rep dm) → (evict zeros rep dm f s).0 ≢ none
    unfolding evict release_victim
    evict-ne-none f s = ground (arith, writes_succeed (s.pages f).page_id (s.pages f).bytes s.disk)

    take_victim-none :
        (s : St zeros rep dm) (x : Option ℕ × PageReplacer.State rep)
        → (take_victim zeros rep dm x s).0 ≡ none
        → x.0 ≡ none
    unfolding take_victim
    take_victim-none s (none, r) h = refl
    take_victim-none s (some f, r) h = absurd (evict-ne-none f _ h)

    -- A pool whose replacer tracks nothing and whose free list is empty is in use throughout.
    untracked-AllPinned :
        (s : St zeros rep dm)
        → IsValid zeros rep dm s
        → s.free_list ≡ []
        → ((f : ℕ) → PageReplacer.contains rep s.replacer f ≡ false)
        → AllPinned s
    untracked-AllPinned s v e untracked f lt =
        let here : lookup (s.pages f).page_id s ≡ some f = ground (arith, v.accounted f lt) in
        (here, ground (arith, v.evictable (s.pages f).page_id f here, untracked f))

    take_frame-none :
        (s : St zeros rep dm) (free : List ℕ)
        → IsValid zeros rep dm s
        → s.free_list ≡ free
        → (take_frame zeros rep dm free s).0 ≡ none
        → AllPinned s
    unfolding take_frame
    take_frame-none s (f ∷ rest) v e h = cc
    take_frame-none s [] v e h = untracked-AllPinned s v e (
        PageReplacer.identify-none rep s.replacer v.policy
          (take_victim-none s (rep.identify_frame_to_evict s.replacer) h))

    pinned_untracked :
        (s : St zeros rep dm)
        → IsValid zeros rep dm s
        → AllPinned s
        → (f : ℕ) → PageReplacer.contains rep s.replacer f ≢ true
    pinned_untracked s v all f h =
        let here = v.tracked f h in
        let inside = (v.mapped (s.pages f).page_id f here).0 in
        ground (arith, all f inside, v.evictable (s.pages f).page_id f here)

    AllPinned-take_frame :
        (s : St zeros rep dm) (free : List ℕ) (x : Option ℕ × PageReplacer.State rep)
        → IsValid zeros rep dm s
        → s.free_list ≡ free
        → rep.identify_frame_to_evict s.replacer ≡ x
        → AllPinned s
        → (take_frame zeros rep dm free s).0 ≡ none
    unfolding take_frame take_victim
    AllPinned-take_frame s (f ∷ rest) x v e i all =
        let front : elem f s.free_list ≡ true = rw e (ground arith) in
        absurd (v.free_unmapped f (s.pages f).page_id front (all f (v.free_in_range f front)).0)
    AllPinned-take_frame s [] (none, r) v e i all = rw (i, take_victim)
    AllPinned-take_frame s [] (some f, r) v e i all = absurd (
        pinned_untracked s v all f
          (PageReplacer.identify-some rep s.replacer f v.policy (ap (λ x. x.0) i)))

    read_into-ne-none :
        (p : PageId) (f : ℕ) (t : St zeros rep dm) → (read_into zeros rep dm p f t).0 ≢ none
    unfolding read_into
    read_into-ne-none p f t = ground (arith, reads_succeed p t.disk)

    fetched-none :
        (p : PageId) (x : Option ℕ × St zeros rep dm)
        → (let r : Option ℕ × St zeros rep dm = elim x.0 [
          | none ↦ (none, x.1)
          | some f ↦ read_into zeros rep dm p f (reset_frame zeros rep dm f x.1)
        ] in
            r.0 ≡ none)
        → x.0 ≡ none
    fetched-none p (none, t) h = refl
    fetched-none p (some f, t) h = absurd (read_into-ne-none p f (reset_frame zeros rep dm f t) h)

    module _ (s : St zeros rep dm) (v : IsValid zeros rep dm s) (p : PageId) where
      counted : (c : CacheStats) → IsValid zeros rep dm (record s { stats = c })
      counted c =
          retuned-IsValid zeros rep dm s v s.disk s.replacer c v.policy (λ g. refl) (λ q. inl refl)

      fetch_page-AllPinned :
          (x : Option ℕ)
          → lookup p s ≡ x
          → (fetch_page zeros rep dm p s).0 ≡ none
          → (lookup p s ≡ none) × AllPinned s
      unfolding fetch_page acquire_frame
      fetch_page-AllPinned (some f) e h = absurd (ground arith)
      fetch_page-AllPinned none e h = (
        e,
        take_frame-none (count_miss zeros rep dm s) s.free_list (counted _) refl (
            fetched-none p (acquire_frame zeros rep dm (count_miss zeros rep dm s))
              (rw (e, fetch_page) at h)),
      )

      AllPinned-fetch_page :
          lookup p s ≡ none → AllPinned s → (fetch_page zeros rep dm p s).0 ≡ none
      unfolding fetch_page acquire_frame
      AllPinned-fetch_page e all =
          rw (e, fetch_page)
            (ground (
              arith,
              AllPinned-take_frame (count_miss zeros rep dm s) s.free_list _ (counted _) refl refl
                  all,
            ))

      -- On a valid pool over a disk whose reads and writes never fail, `fetch_page` returns none
      -- exactly when the page is not cached and every frame holds a pinned page.
      pub fetch_page-none_iff :
          ((fetch_page zeros rep dm p s).0 ≡ none) ↔ ((lookup p s ≡ none) × AllPinned s)
      fetch_page-none_iff =
          (fetch_page-AllPinned (lookup p s) refl, λ h. AllPinned-fetch_page h.0 h.1)
