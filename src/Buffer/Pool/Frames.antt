-- ===== src/Buffer/Pool/Frames.antt =====
-- `acquire_frame` of src/buffer/buffer_pool_manager.cpp as a whole: a frame from the free list, or
-- that of a victim, written back first if it is dirty.
use lettydb.Common.{
  ℕ, ◌≡◌, ◌≢◌, ◌⊎◌, refl, ap, subst, List, [], ◌∷◌, true, false, Option, none, some, ◌==◌,
  if◌then◌else◌, ℤ, ℤ_discrete, elem, arith, Bool-cases, inl, inr,
}
use lettydb.Buffer.Replacer.{PageReplacer}
use lettydb.Buffer.Pool.{
  lookup, reset_frame, release_victim, evict, take_victim, take_frame, acquire_frame,
}
use lettydb.Buffer.Pool.Invariant.{IsValid}
use lettydb.Buffer.Pool.Acquire.{
  St, held, Keeps, held-IsValid, held-Keeps, blanked-IsValid, blanked-Keeps, retuned-IsValid,
  retuned-Keeps,
}
use lettydb.Storage.Disk.{DiskManager, IoResult, is_success}

module _ {A : Type 0} (zeros : A) (rep : PageReplacer) (dm : DiskManager A) where
  -- After a call the pool is valid and keeps what it must. A frame that was acquired counts as
  -- free until the caller maps it.
  abbrev pub Acquired : St zeros rep dm → Option ℕ × St zeros rep dm → Type 0
  Acquired s (none, t) = IsValid zeros rep dm t × Keeps zeros rep dm s t
  Acquired s (some f, t) =
      IsValid zeros rep dm (held zeros rep dm f t) × Keeps zeros rep dm s (held zeros rep dm f t)

  module _ (s : St zeros rep dm) (v : IsValid zeros rep dm s) where
    acquire_free :
        (f : ℕ) (rest : List ℕ)
        → s.free_list ≡ f ∷ rest
        → Acquired s (some f, record s { free_list = rest })
    acquire_free f rest e = (
      subst (λ l. IsValid zeros rep dm (with_free l)) e (blanked-IsValid zeros rep dm s v f front),
      subst (λ l. Keeps zeros rep dm s (with_free l)) e (blanked-Keeps zeros rep dm s v f front),
    )
      where
        front : elem f s.free_list ≡ true
        front = rw e (ground arith)

        with_free : List ℕ → St zeros rep dm
        with_free l = reset_frame zeros rep dm f (record s { free_list = l })

    module _ (r : PageReplacer.State rep) (f : ℕ) (nothing_free : s.free_list ≡ [])
        (e : (rep.identify_frame_to_evict s.replacer) ≡ (some f, r)) where
      chosen : PageReplacer.contains rep s.replacer f ≡ true
      chosen = PageReplacer.identify-some rep s.replacer f v.policy (ap (λ x. x.0) e)

      r-IsValid : PageReplacer.IsValid rep r
      r-IsValid =
          subst (λ x. PageReplacer.IsValid rep x.1) e
            (PageReplacer.identify-IsValid rep s.replacer v.policy)

      r_contains :
          (g : ℕ)
          → PageReplacer.contains rep r g
            ≡ (if f == g then false else PageReplacer.contains rep s.replacer g)
      r_contains g =
          subst
            (λ (x : Option ℕ × PageReplacer.State rep).
              PageReplacer.contains rep x.1 g
              ≡ (if f == g then false else PageReplacer.contains rep s.replacer g))
            e (PageReplacer.contains-identify rep s.replacer g f v.policy (ap (λ x. x.0) e))

      back_contains :
          (g : ℕ)
          → PageReplacer.contains rep (rep.mark_evictable f r) g
            ≡ PageReplacer.contains rep s.replacer g
      back_contains g =
          ground
            (arith, PageReplacer.contains-mark_evictable rep f g r r-IsValid, r_contains g, chosen)

      back-IsValid : PageReplacer.IsValid rep (rep.mark_evictable f r)
      back-IsValid = PageReplacer.mark_evictable-IsValid rep f r r-IsValid

      victim : ℤ
      victim = (s.pages f).page_id

      mapped_here : lookup victim s ≡ some f
      unfolding victim
      mapped_here = v.tracked f chosen

      unpinned : (s.pages f).pin_count ≡ 0
      unpinned = ground (arith, chosen, v.evictable victim f mapped_here)

      written : IoResult × DiskManager.State dm
      written = dm.write_page victim (s.pages f).bytes s.disk

      others : (q : ℤ) → victim ≢ q → dm.stored written.1 q ≡ dm.stored s.disk q
      unfolding written
      others q n = dm.stored-write_page_ne victim q (s.pages f).bytes s.disk n

      -- A write that failed changed the disk under a dirty page only.
      torn :
          (s.pages f).is_dirty ≡ true
          → (q : ℤ)
          → (dm.stored written.1 q ≡ dm.stored s.disk q)
            ⊎ ((g : ℕ) × (lookup q s ≡ some g) × ((s.pages g).is_dirty ≡ true))
      torn dirty q = elim (ℤ_discrete victim q) [
        | yes p ↦ inr (f, subst (λ x. lookup x s ≡ some f) p mapped_here, dirty)
        | no n ↦ inl (others q n)
      ]

      evict-Acquired : Acquired s (evict zeros rep dm f (record s { replacer = r }))
      unfolding evict release_victim victim written
      evict-Acquired = elim (Bool-cases (s.pages f).is_dirty) [
        | inl dirty ↦ elim (Bool-cases (is_success written.0)) [
          | inl ok ↦
              rw (dirty, evict, ok)
                (
                  held-IsValid zeros rep dm s v f written.1 r _ nothing_free chosen r-IsValid
                      r_contains (dm.stored-write_page victim (s.pages f).bytes s.disk ok) others,
                  held-Keeps zeros rep dm s v f written.1 r _ nothing_free chosen r-IsValid
                      r_contains (dm.stored-write_page victim (s.pages f).bytes s.disk ok) others,
                )
          | inr bad ↦
              rw (dirty, evict, bad)
                (
                  retuned-IsValid zeros rep dm s v written.1 (rep.mark_evictable f r) s.stats
                      back-IsValid back_contains (torn dirty),
                  retuned-Keeps zeros rep dm s v written.1 (rep.mark_evictable f r) s.stats
                      back-IsValid back_contains (torn dirty),
                )
        ]
        | inr is_clean ↦
            rw (is_clean, evict)
              (
                held-IsValid zeros rep dm s v f s.disk r _ nothing_free chosen r-IsValid r_contains
                    (v.clean victim f mapped_here unpinned is_clean) (λ q n. refl),
                held-Keeps zeros rep dm s v f s.disk r _ nothing_free chosen r-IsValid r_contains
                    (v.clean victim f mapped_here unpinned is_clean) (λ q n. refl),
              )
      ]

    no_victim :
        (r : PageReplacer.State rep)
        → rep.identify_frame_to_evict s.replacer ≡ (none, r)
        → Acquired s (none, record s { replacer = r })
    no_victim r e = (
      retuned-IsValid zeros rep dm s v s.disk r s.stats r-IsValid r_contains (λ q. inl refl),
      retuned-Keeps zeros rep dm s v s.disk r s.stats r-IsValid r_contains (λ q. inl refl),
    )
      where
        r-IsValid : PageReplacer.IsValid rep r
        r-IsValid =
            subst (λ x. PageReplacer.IsValid rep x.1) e
              (PageReplacer.identify-IsValid rep s.replacer v.policy)

        r_contains :
            (g : ℕ) → PageReplacer.contains rep r g ≡ PageReplacer.contains rep s.replacer g
        r_contains g =
            subst
              (λ (x : Option ℕ × PageReplacer.State rep).
                PageReplacer.contains rep x.1 g ≡ PageReplacer.contains rep s.replacer g)
              e (PageReplacer.contains-identify_none rep s.replacer g v.policy (ap (λ x. x.0) e))

    take_victim-Acquired :
        (x : Option ℕ × PageReplacer.State rep)
        → s.free_list ≡ []
        → rep.identify_frame_to_evict s.replacer ≡ x
        → Acquired s (take_victim zeros rep dm x s)
    unfolding take_victim
    take_victim-Acquired (none, r) e h = no_victim r h
    take_victim-Acquired (some f, r) e h = evict-Acquired r f e h

    take_frame-Acquired :
        (free : List ℕ) → s.free_list ≡ free → Acquired s (take_frame zeros rep dm free s)
    unfolding take_frame
    take_frame-Acquired (f ∷ rest) e = acquire_free f rest e
    take_frame-Acquired [] e = take_victim-Acquired (rep.identify_frame_to_evict s.replacer) e refl

    -- On a valid pool, `acquire_frame` returns a frame such that the pool with this frame given
    -- back is valid, or returns none and the pool is valid; in both cases the content and the pin
    -- count of every page stay, also when a dirty page is evicted or its write fails, and pinned
    -- pages stay in their frames.
    pub acquire_frame-Acquired : Acquired s (acquire_frame zeros rep dm s)
    unfolding acquire_frame
    acquire_frame-Acquired = take_frame-Acquired s.free_list refl
