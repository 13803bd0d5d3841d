-- ===== src/Buffer/Pool/Updates.antt =====
-- The other calls of src/buffer/buffer_pool_manager.cpp that one caller makes about one page:
-- creating, unpinning, writing through the page, deleting.
use lettydb.Common.{
  ℕ, ◌-◌, ◌≡◌, ◌≢◌, ◌⊎◌, refl, Bool, true, false, Option, none, some, ◌==◌, ltb, if◌then◌else◌,
  arith, Bool-cases, inl, inr,
}
use lettydb.Buffer.Replacer.{PageReplacer}
use lettydb.Buffer.Pool.{
  Page, lookup, new_page, new_or_fetch_page, unpin_frame, unpin_page, write_data, pin_cached,
}
use lettydb.Buffer.Pool.Flush.{drop_frame, delete_page}
use lettydb.Buffer.Pool.Invariant.{IsValid, content, pins}
use lettydb.Buffer.Pool.Acquire.{St}
use lettydb.Buffer.Pool.Install.{at}
use lettydb.Buffer.Pool.Pinning.{
  changed-IsValid, content-changed, pins-changed, drop_frame-IsValid, content-drop_frame,
  pins-drop_frame, lookup-drop_frame,
}
use lettydb.Buffer.Pool.Calls.{Effect, Fetched, Created, pin_cached-Effect, create_page-Created}
use lettydb.Storage.Config.{PageId}
use lettydb.Storage.Disk.{DiskManager}

module _ {A : Type 0} (zeros : A) (rep : PageReplacer) (dm : DiskManager A) where
  pub same-Effect :
      (s : St zeros rep dm)
      → IsValid zeros rep dm s
      → Effect zeros rep dm s s (content zeros rep dm s) (pins zeros rep dm s)
  same-Effect s v = record {
    valid = v;
    same_size = refl;
    contents = λ q. refl;
    counts = λ q. refl;
    in_place = λ q f h. h.0;
  }

  -- A page that is cached is refused; one that is not is created, or no frame is to be had.
  abbrev pub New : PageId → St zeros rep dm → Option ℕ × St zeros rep dm → Type 0
  New p s r = Created zeros rep dm p s r × (lookup p s ≢ none → (r.0 ≡ none) × (r.1 ≡ s))

  -- A page that is cached is pinned once more; one that is not is created.
  abbrev pub Provided : PageId → St zeros rep dm → Option ℕ × St zeros rep dm → Type 0
  Provided p s r =
      ((lookup p s ≢ none) × (r.0 ≢ none) × Fetched zeros rep dm p s r)
      ⊎ ((lookup p s ≡ none) × Created zeros rep dm p s r)

  -- The call is refused if nobody pins the page, and else takes one user off.
  abbrev pub Unpinned : PageId → Bool → St zeros rep dm → Bool × St zeros rep dm → Type 0
  Unpinned p dirty s (false, t) = (pins zeros rep dm s p ≡ 0) × (t ≡ s)
  Unpinned p dirty s (true, t) =
      (pins zeros rep dm s p ≢ 0)
      × Effect zeros rep dm s t (content zeros rep dm s)
          (at p (pins zeros rep dm s p - 1) (pins zeros rep dm s))
      × ((f : ℕ) → lookup p t ≡ some f → dirty ≡ true → (t.pages f).is_dirty ≡ true)

  -- What a caller owes: the last user of a clean page may call it clean only if it is.
  abbrev pub Honest : PageId → Bool → St zeros rep dm → Type 0
  Honest p dirty s =
      (f : ℕ)
      → lookup p s ≡ some f
      → dirty ≡ false
      → (s.pages f).is_dirty ≡ false
      → dm.stored s.disk p ≡ (s.pages f).bytes

  -- A page that is not cached or is pinned stays. One that goes shows what the disk holds.
  abbrev pub Deleted : PageId → St zeros rep dm → Bool × St zeros rep dm → Type 0
  Deleted p s (false, t) = ((lookup p s ≡ none) ⊎ (pins zeros rep dm s p ≢ 0)) × (t ≡ s)
  Deleted p s (true, t) =
      Effect zeros rep dm s t (at p (dm.stored s.disk p) (content zeros rep dm s))
        (pins zeros rep dm s)
      × (lookup p t ≡ none)
      × (pins zeros rep dm s p ≡ 0)
      × (lookup p s ≢ none)

  module _ (s : St zeros rep dm) (v : IsValid zeros rep dm s) (p : PageId) where
    New-cases : (x : Option ℕ) → lookup p s ≡ x → New p s (new_page zeros rep dm p s)
    unfolding new_page
    New-cases (some f) e = rw (e, new_page) (same-Effect s v, λ h. (refl, refl))
    New-cases none e =
        rw (e, new_page) (create_page-Created zeros rep dm s v p e, λ h. absurd (h refl))

    -- On a valid pool, `new_page` returns none and changes nothing if the page is cached; else it
    -- returns a dirty frame mapped from the page, which then has the content of zeros and is pinned
    -- once, with every other page as before, or returns none with every content and pin count as
    -- before. The pool stays valid.
    pub new_page-New : New p s (new_page zeros rep dm p s)
    new_page-New = New-cases (lookup p s) refl

    provide_cases :
        (x : Option ℕ) → lookup p s ≡ x → Provided p s (new_or_fetch_page zeros rep dm p s)
    unfolding new_or_fetch_page content pins pin_cached
    provide_cases (some f) e =
        rw (e, new_or_fetch_page)
          (inl (λ h. cc, λ h. cc, (pin_cached-Effect zeros rep dm s v p f e, e, ground arith)))
    provide_cases none e =
        rw (e, new_or_fetch_page) (inr (refl, create_page-Created zeros rep dm s v p e))

    -- On a valid pool, `new_or_fetch_page` pins a cached page once more and returns its frame; a
    -- page that is not cached is created as zeros in a dirty frame and pinned once, or none is
    -- returned with every content and pin count as before. The pool stays valid.
    pub new_or_fetch_page-Provided : Provided p s (new_or_fetch_page zeros rep dm p s)
    new_or_fetch_page-Provided = provide_cases (lookup p s) refl

    pins_here : (f : ℕ) → lookup p s ≡ some f → pins zeros rep dm s p ≡ (s.pages f).pin_count
    unfolding pins
    pins_here f e = ground arith

    no_pins : lookup p s ≡ none → pins zeros rep dm s p ≡ 0
    unfolding pins
    no_pins e = ground arith

    content_here : (f : ℕ) → lookup p s ≡ some f → content zeros rep dm s p ≡ (s.pages f).bytes
    unfolding content
    content_here f e = ground arith

    drop_frame-size : (f : ℕ) → (drop_frame zeros rep dm p f s).pool_size ≡ s.pool_size
    unfolding drop_frame
    drop_frame-size f = refl

    unpin_frame_dirty :
        (f : ℕ)
        → lookup p s ≡ some f
        → (dirty : Bool) (g : ℕ) → lookup p (unpin_frame zeros rep dm f dirty s) ≡ some g
        → dirty ≡ true
        → ((unpin_frame zeros rep dm f dirty s).pages g).is_dirty ≡ true
    unfolding unpin_frame
    unpin_frame_dirty f e dirty g h d = ground arith

    module _ (f : ℕ) (here : lookup p s ≡ some f) where
      pub write_data-Effect :
          (s.pages f).pin_count ≢ 0
          → (a : A)
          → Effect zeros rep dm s
              (write_data zeros rep dm f a s)
              (at p a (content zeros rep dm s))
              (pins zeros rep dm s)
      unfolding write_data
      write_data-Effect pinned a = record {
        valid = changed-IsValid zeros rep dm s v p f here page s.replacer id v.policy tracks n0;
        same_size = refl;
        contents = content-changed zeros rep dm s v p f here page s.replacer id v.policy tracks n0;
        counts = λ q. ground (
          arith,
          pins-changed zeros rep dm s v p f here page s.replacer id v.policy tracks n0 q,
          pins_here f here,
        );
        in_place = λ q g h. h.0;
      }
        where
          page : Page A
          page = record (s.pages f) { bytes = a }

          id : page.page_id ≡ p
          id = (v.mapped p f here).1

          tracks :
              (g : ℕ)
              → PageReplacer.contains rep s.replacer g
                ≡ (if f == g then page.pin_count == 0 else PageReplacer.contains rep s.replacer g)
          tracks g = ground (arith, v.evictable p f here)

          n0 : page.pin_count ≡ 0 → page.is_dirty ≡ false → dm.stored s.disk p ≡ page.bytes
          n0 z = absurd (pinned z)

      unpin_frame-Effect :
          (dirty : Bool)
          → (s.pages f).pin_count ≢ 0
          → Honest p dirty s
          → Effect zeros rep dm s
              (unpin_frame zeros rep dm f dirty s)
              (content zeros rep dm s)
              (at p (pins zeros rep dm s p - 1) (pins zeros rep dm s))
      unfolding unpin_frame
      unpin_frame-Effect dirty pinned honest = record {
        valid = changed-IsValid zeros rep dm s v p f here page r id ok tracks n0;
        same_size = refl;
        contents = λ q. ground (
          arith,
          content-changed zeros rep dm s v p f here page r id ok tracks n0 q,
          content_here f here,
        );
        counts = λ q. ground (
          arith,
          pins-changed zeros rep dm s v p f here page r id ok tracks n0 q,
          pins_here f here,
        );
        in_place = λ q g h. h.0;
      }
        where
          page : Page A
          page = record (s.pages f) {
            pin_count = (s.pages f).pin_count - 1;
            is_dirty = if dirty then true else (s.pages f).is_dirty;
          }

          r : PageReplacer.State rep
          r = if page.pin_count == 0 then rep.mark_evictable f s.replacer else s.replacer

          id : page.page_id ≡ p
          id = (v.mapped p f here).1

          ok : PageReplacer.IsValid rep r
          ok = elim (Bool-cases (page.pin_count == 0)) [
            | inl e ↦ rw e (PageReplacer.mark_evictable-IsValid rep f s.replacer v.policy)
            | inr e ↦ rw e v.policy
          ]

          tracks :
              (g : ℕ)
              → PageReplacer.contains rep r g
                ≡ (if f == g then page.pin_count == 0 else PageReplacer.contains rep s.replacer g)
          tracks g = elim (Bool-cases (page.pin_count == 0)) [
            | inl e ↦ rw e (PageReplacer.contains-mark_evictable rep f g s.replacer v.policy)
            | inr e ↦ rw e (ground (arith, v.evictable p f here))
          ]

          n0 : page.pin_count ≡ 0 → page.is_dirty ≡ false → dm.stored s.disk p ≡ page.bytes
          n0 z d = ground (arith, honest f here)

    unpin_cases :
        (x : Option ℕ) (dirty : Bool)
        → lookup p s ≡ x
        → Honest p dirty s
        → Unpinned p dirty s (unpin_page zeros rep dm p dirty s)
    unfolding unpin_page
    unpin_cases none dirty e h = rw (e, unpin_page) (no_pins e, refl)
    unpin_cases (some f) dirty e h = elim (Bool-cases ((s.pages f).pin_count == 0)) [
      | inl z ↦ rw (e, unpin_page, z) (ground (arith, pins_here f e), refl)
      | inr n ↦
          rw (e, unpin_page, n)
            (
              ground (arith, pins_here f e),
              unpin_frame-Effect f e dirty (ground arith) h,
              unpin_frame_dirty f e dirty,
            )
    ]

    pub unpin_page-Unpinned :
        (dirty : Bool) → Honest p dirty s → Unpinned p dirty s (unpin_page zeros rep dm p dirty s)
    unpin_page-Unpinned dirty = unpin_cases (lookup p s) dirty refl

    delete_cases : (x : Option ℕ) → lookup p s ≡ x → Deleted p s (delete_page zeros rep dm p s)
    unfolding delete_page
    delete_cases none e = rw (e, delete_page) (inl e, refl)
    delete_cases (some f) e = elim (Bool-cases (ltb 0 (s.pages f).pin_count)) [
      | inl z ↦ rw (e, delete_page, z) (inr (ground (arith, pins_here f e)), refl)
      | inr n ↦
          let u : (s.pages f).pin_count ≡ 0 = ground arith in
          rw (e, delete_page, n)
            (
              record {
                valid = drop_frame-IsValid zeros rep dm s v p f e u;
                same_size = drop_frame-size f;
                contents = content-drop_frame zeros rep dm s v p f e u;
                counts = pins-drop_frame zeros rep dm s v p f e u;
                in_place = λ q g h. ground (arith, lookup-drop_frame zeros rep dm s v p f e u q);
              },
              ground (arith, lookup-drop_frame zeros rep dm s v p f e u p),
              ground (arith, pins_here f e),
              λ h. cc,
            )
    ]

    -- On a valid pool, `delete_page` returns false and changes nothing if the page is not cached or
    -- is pinned; else it returns true, the page was cached and is not any more and shows what the
    -- disk holds, every other page is as before, and the pool stays valid.
    pub delete_page-Deleted : Deleted p s (delete_page zeros rep dm p s)
    delete_page-Deleted = delete_cases (lookup p s) refl
