-- ===== src/Buffer/Pool/Acquire.antt =====
-- `acquire_frame` of src/buffer/buffer_pool_manager.cpp keeps the invariant and what is cached.
use lettydb.Common.{
  ℕ, ◌≡◌, ◌≢◌, ◌⊎◌, refl, sym, ◌∙◌, [], ◌∷◌, true, false, none, some, ◌==◌, if◌then◌else◌, ℤ,
  ℤ_discrete, ite, elem, arith, Option-cases, inl, inr,
}
use lettydb.Common.Maps
use lettydb.Buffer.Replacer.{PageReplacer}
use lettydb.Buffer.Pool.{CacheStats, lookup, State, reset_frame}
use lettydb.Buffer.Pool.Invariant.{IsValid, content, pins, Pinned}
use lettydb.Storage.Disk.{DiskManager}

module _ {A : Type 0} (zeros : A) (rep : PageReplacer) (dm : DiskManager A) where
  abbrev pub St : Type 0
  St = State zeros rep dm

  -- A frame that was acquired, as though it lay in front of the free list, reset.
  abbrev pub held : ℕ → St → St
  held f t = reset_frame zeros rep dm f (record t { free_list = f ∷ t.free_list })

  -- What a call leaves as it was: the contents, and the frames of pinned pages.
  pub record Keeps (s t : St) : Type 0 where
    pub same_size : t.pool_size ≡ s.pool_size
    pub same_content : (p : ℤ) → content zeros rep dm t p ≡ content zeros rep dm s p
    pub same_pins : (p : ℤ) → pins zeros rep dm t p ≡ pins zeros rep dm s p
    pub nothing_new : (p : ℤ) → lookup p s ≡ none → lookup p t ≡ none
    pub still_pinned :
        (p : ℤ) (f : ℕ)
        → Pinned zeros rep dm s p f
        → (lookup p t ≡ some f) × (t.pages f ≡ s.pages f)

  module _ (s : St) (v : IsValid zeros rep dm s) (f : ℕ) where
    abbrev pub victim_page : ℤ
    victim_page = (s.pages f).page_id

    module _ (d : DiskManager.State dm) (r : PageReplacer.State rep) (c : CacheStats)
        (nothing_free : s.free_list ≡ []) (chosen : PageReplacer.contains rep s.replacer f ≡ true)
        (r_valid : PageReplacer.IsValid rep r)
        (r_contains : (g : ℕ)
          → PageReplacer.contains rep r g
            ≡ (if f == g then false else PageReplacer.contains rep s.replacer g))
        (saved : dm.stored d victim_page ≡ (s.pages f).bytes)
        (others : (q : ℤ) → victim_page ≢ q → dm.stored d q ≡ dm.stored s.disk q) where
      abbrev pub released : St
      released = record s {
        disk = d;
        replacer = r;
        page_table = Maps.erase ℤ_discrete victim_page s.page_table;
        stats = c;
      }

      lookup-released :
          (q : ℤ) → lookup q released ≡ ite (ℤ_discrete victim_page q) none (lookup q s)
      lookup-released q = Maps.find-erase ℤ_discrete victim_page q s.page_table

      -- A page that is still mapped was mapped before, to another frame.
      released_other :
          (q : ℤ) (g : ℕ)
          → lookup q released ≡ some g
          → (lookup q s ≡ some g) × (victim_page ≢ q) × (f ≢ g)
      released_other q g h = ground (arith, lookup-released q, v.mapped q g)

      mapped_here : lookup victim_page s ≡ some f
      mapped_here = v.tracked f chosen

      only_free : (g : ℕ) → elem g (held f released).free_list ≡ true → f ≡ g
      only_free g h = ground (arith, nothing_free)

      released_or :
          (q : ℤ)
          → (lookup q released ≡ none)
            ⊎ ((g : ℕ) × (lookup q released ≡ some g) × (lookup q s ≡ some g) × (f ≢ g))
      released_or q = elim (Option-cases (lookup q released)) [
        | inl e ↦ inl e
        | inr (g, e) ↦ let (old, o, n) = released_other q g e in inr (g, e, old, n)
      ]

      pub held-IsValid : IsValid zeros rep dm (held f released)
      held-IsValid = record {
        unique = Maps.erase-IsUnique ℤ_discrete victim_page s.page_table v.unique;
        policy = r_valid;
        mapped =
            λ q g h. let (old, o, n) = released_other q g h in ground (arith, v.mapped q g old);
        evictable = λ q g h.
            let (old, o, n) = released_other q g h in
            ground (arith, v.evictable q g old, r_contains g);
        tracked = λ g h. ground (
          arith,
          r_contains g,
          v.tracked g,
          v.tracked f,
          v.mapped,
          lookup-released (s.pages g).page_id,
        );
        free_in_range = λ g h. ground (arith, only_free g h, v.mapped victim_page f mapped_here);
        free_unmapped = λ g q h e. (released_other q g e).2 (only_free g h);
        free_blank = λ g h. ground (arith, only_free g h);
        free_once = rw nothing_free (refl, tt);
        accounted = λ g h.
            ground (arith, v.accounted g h, lookup-released (s.pages g).page_id, mapped_here);
        clean = λ q g h n0 k.
            let (old, o, n) = released_other q g h in ground (arith, v.clean q g old, others q o);
      }

      pub held-Keeps : Keeps s (held f released)
      unfolding content pins
      held-Keeps = record {
        same_size = refl;
        same_content =
            λ q. ground (arith, lookup-released q, others q, saved, mapped_here, released_or q);
        same_pins = λ q. ground (
          arith,
          lookup-released q,
          mapped_here,
          chosen,
          v.evictable victim_page f mapped_here,
          released_or q,
        );
        nothing_new = λ q h. ground (arith, lookup-released q);
        still_pinned = λ q g h.
            ground (arith, lookup-released q, v.evictable q g h.0, v.mapped q g h.0, mapped_here);
      }

    -- The frame of a free list, reset.
    module _ (is_free : elem f s.free_list ≡ true) where
      abbrev pub blanked : St
      blanked = reset_frame zeros rep dm f s

      untouched : (q : ℤ) (g : ℕ) → lookup q s ≡ some g → f ≢ g
      untouched q g h e = v.free_unmapped f q is_free (rw e h)

      pub blanked-IsValid : IsValid zeros rep dm blanked
      blanked-IsValid = record {
        unique = v.unique;
        policy = v.policy;
        mapped = λ q g h. ground (arith, v.mapped q g h, untouched q g h);
        evictable = λ q g h. ground (arith, v.evictable q g h, untouched q g h);
        tracked =
            λ g h. ground (arith, v.tracked g h, untouched (s.pages g).page_id g (v.tracked g h));
        free_in_range = v.free_in_range;
        free_unmapped = v.free_unmapped;
        free_blank = λ g h. ground (arith, v.free_blank g h);
        free_once = v.free_once;
        accounted = λ g h. ground (arith, v.accounted g h);
        clean = λ q g h n0 k. ground (arith, v.clean q g h, untouched q g h);
      }

      pub blanked-Keeps : Keeps s blanked
      unfolding content pins
      blanked-Keeps = record {
        same_size = refl;
        same_content = λ q. elim (Option-cases (lookup q s)) [
          | inl e ↦ ground arith
          | inr (g, e) ↦ ground (arith, untouched q g e)
        ];
        same_pins = λ q. elim (Option-cases (lookup q s)) [
          | inl e ↦ ground arith
          | inr (g, e) ↦ ground (arith, untouched q g e)
        ];
        nothing_new = λ q h. h;
        still_pinned = λ q g h. ground (arith, untouched q g h.0);
      }

  -- The disk, the replacer and the counters may change as long as the replacer tracks the same
  -- frames and the disk changes only under dirty pages.
  module _ (s : St) (v : IsValid zeros rep dm s) (d : DiskManager.State dm)
      (r : PageReplacer.State rep) (c : CacheStats) (r_valid : PageReplacer.IsValid rep r)
      (same_tracked : (g : ℕ)
        → PageReplacer.contains rep r g ≡ PageReplacer.contains rep s.replacer g)
      (same_stored : (q : ℤ)
        → (dm.stored d q ≡ dm.stored s.disk q)
          ⊎ ((g : ℕ) × (lookup q s ≡ some g) × ((s.pages g).is_dirty ≡ true))) where
    abbrev pub retuned : St
    retuned = record s { disk = d; replacer = r; stats = c }

    pub retuned-IsValid : IsValid zeros rep dm retuned
    retuned-IsValid = record {
      unique = v.unique;
      policy = r_valid;
      mapped = v.mapped;
      evictable = λ q g h. ground (arith, v.evictable q g h, same_tracked g);
      tracked = λ g h. v.tracked g (sym (same_tracked g) ∙ h);
      free_in_range = v.free_in_range;
      free_unmapped = v.free_unmapped;
      free_blank = v.free_blank;
      free_once = v.free_once;
      accounted = v.accounted;
      clean = λ q g h n0 k. ground (arith, v.clean q g h, same_stored q);
    }

    pub retuned-Keeps : Keeps s retuned
    unfolding content pins
    retuned-Keeps = record {
      same_size = refl;
      same_content = λ q. ground (arith, same_stored q);
      same_pins = λ q. refl;
      nothing_new = λ q h. h;
      still_pinned = λ q g h. (h.0, refl);
    }
