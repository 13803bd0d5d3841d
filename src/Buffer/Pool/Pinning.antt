-- ===== src/Buffer/Pool/Pinning.antt =====
-- What pinning, unpinning, writing through a page and deleting do to a mapped frame
-- (src/buffer/buffer_pool_manager.cpp).
use lettydb.Common.{
  ℕ, ◌≡◌, ◌≢◌, ◌⊎◌, [], ◌∷◌, false, none, some, ◌==◌, if◌then◌else◌, ℤ, ℤ_discrete, ite, elem,
  elem-append, append-IsDistinct, arith, Option-cases, inl, inr,
}
use lettydb.Common.Maps
use lettydb.Buffer.Replacer.{PageReplacer}
use lettydb.Buffer.Pool.{Page, set_page, lookup}
use lettydb.Buffer.Pool.Flush.{drop_frame}
use lettydb.Buffer.Pool.Invariant.{IsValid, content, pins}
use lettydb.Buffer.Pool.Acquire.{St}
use lettydb.Buffer.Pool.Install.{at}
use lettydb.Storage.Config.{PageId}
use lettydb.Storage.Disk.{DiskManager}

module _ {A : Type 0} (zeros : A) (rep : PageReplacer) (dm : DiskManager A) where
  module _ (s : St zeros rep dm) (v : IsValid zeros rep dm s) (p : PageId) (f : ℕ)
      (here : lookup p s ≡ some f) where
    -- A frame holds one page, and a page has one frame.
    one_frame : (q : ℤ) (g : ℕ) → lookup q s ≡ some g → ((p ≡ q) × (f ≡ g)) ⊎ ((p ≢ q) × (f ≢ g))
    one_frame q g h = elim (ℤ_discrete p q) [
      | yes e ↦ inl (e, ground arith)
      | no n ↦ inr (n, λ e. n (ground (arith, v.mapped p f here, v.mapped q g h)))
    ]

    module _ (page : Page A) (r : PageReplacer.State rep) (same_id : page.page_id ≡ p)
        (r_valid : PageReplacer.IsValid rep r)
        (r_contains : (g : ℕ)
          → PageReplacer.contains rep r g
            ≡ (if f == g then page.pin_count == 0 else PageReplacer.contains rep s.replacer g))
        (honest : page.pin_count ≡ 0
          → page.is_dirty ≡ false
          → dm.stored s.disk p ≡ page.bytes) where
      -- The frame's page changes, and the replacer follows its pin count.
      abbrev pub changed : St zeros rep dm
      changed = record s { pages = set_page f page s.pages; replacer = r }

      pub changed-IsValid : IsValid zeros rep dm changed
      changed-IsValid = record {
        unique = v.unique;
        policy = r_valid;
        mapped = λ q g h. ground (arith, v.mapped q g h, one_frame q g h);
        evictable = λ q g h. ground (arith, v.evictable q g h, one_frame q g h, r_contains g);
        tracked = λ g h. ground (arith, v.tracked g, r_contains g);
        free_in_range = v.free_in_range;
        free_unmapped = v.free_unmapped;
        free_blank = λ g h. ground (arith, v.free_blank g h, v.free_unmapped g p h);
        free_once = v.free_once;
        accounted = λ g h. ground (arith, v.accounted g h);
        clean = λ q g h n0 k. ground (arith, v.clean q g h, one_frame q g h);
      }

      pub content-changed :
          (q : ℤ) → content zeros rep dm changed q ≡ at p page.bytes (content zeros rep dm s) q
      unfolding content
      content-changed q = elim (Option-cases (lookup q s)) [
        | inl e ↦ ground arith
        | inr (g, e) ↦ ground (arith, one_frame q g e)
      ]

      pub pins-changed :
          (q : ℤ) → pins zeros rep dm changed q ≡ at p page.pin_count (pins zeros rep dm s) q
      unfolding pins
      pins-changed q = elim (Option-cases (lookup q s)) [
        | inl e ↦ ground arith
        | inr (g, e) ↦ ground (arith, one_frame q g e)
      ]

    module _ (unpinned : (s.pages f).pin_count ≡ 0) where
      dropped : St zeros rep dm
      dropped = drop_frame zeros rep dm p f s

      lookup-dropped : (q : ℤ) → lookup q dropped ≡ ite (ℤ_discrete p q) none (lookup q s)
      unfolding dropped drop_frame
      lookup-dropped q = Maps.find-erase ℤ_discrete p q s.page_table

      dropped_other :
          (q : ℤ) (g : ℕ) → lookup q dropped ≡ some g → (lookup q s ≡ some g) × (p ≢ q) × (f ≢ g)
      dropped_other q g h = ground (arith, lookup-dropped q, one_frame q g)

      r_contains :
          (g : ℕ)
          → PageReplacer.contains rep (rep.mark_not_evictable f s.replacer) g
            ≡ (if f == g then false else PageReplacer.contains rep s.replacer g)
      r_contains g = PageReplacer.contains-mark_not_evictable rep f g s.replacer v.policy

      pub lookup-drop_frame :
          (q : ℤ)
          → lookup q (drop_frame zeros rep dm p f s) ≡ ite (ℤ_discrete p q) none (lookup q s)
      unfolding dropped
      lookup-drop_frame q = lookup-dropped q

      pub drop_frame-IsValid : IsValid zeros rep dm (drop_frame zeros rep dm p f s)
      unfolding drop_frame dropped
      drop_frame-IsValid = record {
        unique = Maps.erase-IsUnique ℤ_discrete p s.page_table v.unique;
        policy = PageReplacer.mark_not_evictable-IsValid rep f s.replacer v.policy;
        mapped = λ q g h. let (old, o, n) = dropped_other q g h in ground (arith, v.mapped q g old);
        evictable = λ q g h.
            let (old, o, n) = dropped_other q g h in
            ground (arith, v.evictable q g old, r_contains g);
        tracked = λ g h.
            ground (arith, r_contains g, v.tracked g, lookup-dropped (s.pages g).page_id, here);
        free_in_range = λ g h.
            ground
              (arith, elem-append g s.free_list (f ∷ []), v.free_in_range g, v.mapped p f here);
        free_unmapped = λ g q h e.
            let (old, o, n) = dropped_other q g e in
            ground (arith, elem-append g s.free_list (f ∷ []), v.free_unmapped g q);
        free_blank = λ g h. ground (arith, elem-append g s.free_list (f ∷ []), v.free_blank g);
        free_once = append-IsDistinct f s.free_list v.free_once not_free;
        accounted = λ g h. ground (
          arith,
          elem-append g s.free_list (f ∷ []),
          v.accounted g h,
          lookup-dropped (s.pages g).page_id,
          here,
        );
        clean =
            λ q g h n0 k. let (old, o, n) = dropped_other q g h in ground (arith, v.clean q g old);
      }
        where
          not_free : elem f s.free_list ≡ false
          not_free = ground (arith, v.free_unmapped f p)

      pub content-drop_frame :
          (q : ℤ)
          → content zeros rep dm (drop_frame zeros rep dm p f s) q
            ≡ at p (dm.stored s.disk p) (content zeros rep dm s) q
      unfolding content drop_frame dropped
      content-drop_frame q = elim (Option-cases (lookup q s)) [
        | inl e ↦ ground (arith, lookup-dropped q)
        | inr (g, e) ↦ ground (arith, lookup-dropped q, one_frame q g e)
      ]

      pub pins-drop_frame :
          (q : ℤ) → pins zeros rep dm (drop_frame zeros rep dm p f s) q ≡ pins zeros rep dm s q
      unfolding pins drop_frame dropped
      pins-drop_frame q = elim (Option-cases (lookup q s)) [
        | inl e ↦ ground (arith, lookup-dropped q)
        | inr (g, e) ↦ ground (arith, lookup-dropped q, one_frame q g e)
      ]
