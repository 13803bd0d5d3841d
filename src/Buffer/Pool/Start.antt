-- ===== src/Buffer/Pool/Start.antt =====
-- The constructor of src/buffer/buffer_pool_manager.cpp makes a valid, empty pool.
use lettydb.Common.{
  ℕ, zero, suc, ◌+◌, ◌≡◌, ◌≢◌, refl, Bool, true, Option, false, ◌&&◌, none, some, ◌==◌, ltb, leb,
  ◌⊎◌, inl, inr, Bool-cases, elem, IsDistinct, arith, ℤ,
}
use lettydb.Common.Maps
use lettydb.Buffer.Replacer.{PageReplacer}
use lettydb.Buffer.Pool.{count_from, fresh, init}
use lettydb.Buffer.Pool.Invariant.{IsValid, content, pins}
use lettydb.Buffer.Pool.Acquire.{St}
use lettydb.Storage.Disk.{DiskManager}

elem-count_from : (f n i : ℕ) → elem f (count_from n i) ≡ (leb i f && ltb f (n + i))
elem-count_from f zero i = ground arith
elem-count_from f (suc n) i = ground (arith, elem-count_from f n (suc i))

count_from-IsDistinct : (n i : ℕ) → IsDistinct (count_from n i)
count_from-IsDistinct zero i = tt
count_from-IsDistinct (suc n) i =
    (ground (arith, elem-count_from i n (suc i)), count_from-IsDistinct n (suc i))

module _ {A : Type 0} (zeros : A) (rep : PageReplacer) (dm : DiskManager A) where
  pub fresh-IsValid :
      (size : ℕ) (r : PageReplacer.State rep) (d : DiskManager.State dm)
      → PageReplacer.IsValid rep r
      → ((f : ℕ) → PageReplacer.contains rep r f ≡ false)
      → IsValid zeros rep dm (fresh zeros rep dm size r d)
  unfolding fresh Maps.find
  fresh-IsValid size r d ok none_tracked = record {
    unique = tt;
    policy = ok;
    mapped = λ p f h. cc;
    evictable = λ p f h. cc;
    tracked = λ f h. cc (none_tracked f);
    free_in_range = λ f h. ground (arith, elem-count_from f size 0);
    free_unmapped = λ f p h e. cc;
    free_blank = λ f h. refl;
    free_once = count_from-IsDistinct size 0;
    accounted = λ f h. inl (ground (arith, elem-count_from f size 0));
    clean = λ p f h n k. cc;
  }

  -- A new pool: valid, of the size that was asked for, over the pages of the disk, unpinned.
  abbrev pub Started : ℕ → DiskManager.State dm → St zeros rep dm → Type 0
  Started size d s =
      IsValid zeros rep dm s
      × (s.pool_size ≡ size)
      × ((p : ℤ) → content zeros rep dm s p ≡ dm.stored d p)
      × ((p : ℤ) → pins zeros rep dm s p ≡ 0)

  -- If the replacer, where there is one, is well formed and tracks no frame, the constructor fails
  -- on a pool size of 0, on a null replacer and on a failed allocation and only then, and else
  -- makes a valid pool of that size in which every page shows what the disk holds and nobody pins
  -- one.
  pub init-Started :
      (allocated : Bool) (size : ℕ) (replacer : Option (PageReplacer.State rep))
      (d : DiskManager.State dm)
      → ((r : PageReplacer.State rep)
          → replacer ≡ some r
          → PageReplacer.IsValid rep r × ((f : ℕ) → PageReplacer.contains rep r f ≡ false))
      → (((size ≡ 0) ⊎ ((replacer ≡ none) ⊎ (allocated ≡ false)))
          × (init zeros rep dm allocated size replacer d ≡ none))
        ⊎ (((size ≢ 0) × (replacer ≢ none) × (allocated ≡ true))
            × ((s : St zeros rep dm) × (init zeros rep dm allocated size replacer d ≡ some s)
                × Started size d s))
  unfolding init fresh content pins Maps.find
  init-Started allocated size none d h = inl (inr (inl refl), ground arith)
  init-Started false size (some r) d h = inl (inr (inr refl), ground arith)
  init-Started true size (some r) d h = elim (Bool-cases (size == 0)) [
    | inl z ↦ inl (inl (ground arith), rw (z, init))
    | inr n ↦
        let (ok, none_tracked) = h r refl in
        inr (
          (ground arith, λ q. cc, refl),
          (
            fresh zeros rep dm size r d,
            rw (n, init),
            (fresh-IsValid size r d ok none_tracked, refl, λ p. refl, λ p. refl),
          ),
        )
  ]
