-- ===== src/Buffer/Pool/Durable.antt =====
-- What the flushing calls of src/buffer/buffer_pool_manager.cpp leave on the disk.
use lettydb.Common.{
  ℕ, ◌≤◌, ◌≡◌, ◌⊎◌, refl, ◌∙◌, ap, subst, true, false, some, ◌==◌, if◌then◌else◌, ℤ, ℤ_discrete,
  arith, Bool-cases, inl, inr,
}
use lettydb.Common.Maps
use lettydb.Buffer.Replacer.{PageReplacer}
use lettydb.Buffer.Pool.{Page, set_page, lookup}
use lettydb.Buffer.Pool.Flush.{write_frame, count_flushes, flush_entry}
use lettydb.Buffer.Pool.Invariant.{IsValid, content, pins}
use lettydb.Buffer.Pool.Acquire.{St, retuned-IsValid, retuned-Keeps}
use lettydb.Buffer.Pool.Pinning.{changed-IsValid, content-changed, pins-changed}
use lettydb.Buffer.Pool.Calls.{Effect}
use lettydb.Buffer.Pool.Updates.{same-Effect}
use lettydb.Storage.Config.{PageId}
use lettydb.Storage.Disk.{DiskManager, IoResult, is_success}

module _ {A : Type 0} (zeros : A) (rep : PageReplacer) (dm : DiskManager A) where
  -- A flush changes nothing that a caller sees, maps the same pages, and only clears dirty flags.
  pub record Flushed (s t : St zeros rep dm) : Type 0 where
    pub effect : Effect zeros rep dm s t (content zeros rep dm s) (pins zeros rep dm s)
    pub same_table : t.page_table ≡ s.page_table
    pub same_page : (f : ℕ) → (t.pages f).page_id ≡ (s.pages f).page_id
    pub cleaner : (f : ℕ) → (s.pages f).is_dirty ≡ false → (t.pages f).is_dirty ≡ false

  pub same-Flushed : (s : St zeros rep dm) → IsValid zeros rep dm s → Flushed s s
  same-Flushed s v = record {
    effect = same-Effect zeros rep dm s v;
    same_table = refl;
    same_page = λ f. refl;
    cleaner = λ f h. h;
  }

  pub Flushed-trans : (s t u : St zeros rep dm) → Flushed s t → Flushed t u → Flushed s u
  Flushed-trans s t u a b = record {
    effect = record {
      valid = b.effect.valid;
      same_size = b.effect.same_size ∙ a.effect.same_size;
      contents = λ q. b.effect.contents q ∙ a.effect.contents q;
      counts = λ q. b.effect.counts q ∙ a.effect.counts q;
      in_place = λ q f h. ap (λ m. Maps.find ℤ_discrete q m) (b.same_table ∙ a.same_table) ∙ h.0;
    };
    same_table = b.same_table ∙ a.same_table;
    same_page = λ f. b.same_page f ∙ a.same_page f;
    cleaner = λ f h. b.cleaner f (a.cleaner f h);
  }

  -- One frame that is dirty is written.
  module _ (s : St zeros rep dm) (v : IsValid zeros rep dm s) (p : PageId) (f : ℕ)
      (here : lookup p s ≡ some f) (dirty : (s.pages f).is_dirty ≡ true) where
    result : IoResult × DiskManager.State dm
    result = dm.write_page p (s.pages f).bytes s.disk

    -- The disk changes under a dirty page only.
    changes :
        (q : ℤ)
        → (dm.stored result.1 q ≡ dm.stored s.disk q)
          ⊎ ((g : ℕ) × (lookup q s ≡ some g) × ((s.pages g).is_dirty ≡ true))
    unfolding result
    changes q = elim (ℤ_discrete p q) [
      | yes e ↦ inr (f, subst (λ x. lookup x s ≡ some f) e here, dirty)
      | no n ↦ inl (dm.stored-write_page_ne p q (s.pages f).bytes s.disk n)
    ]

    moved : St zeros rep dm
    moved = record s { disk = result.1 }

    moved-IsValid : IsValid zeros rep dm moved
    unfolding moved
    moved-IsValid =
        retuned-IsValid zeros rep dm s v result.1 s.replacer s.stats v.policy (λ g. refl) changes

    clean_page : Page A
    clean_page = record (s.pages f) { is_dirty = false }

    module _ (ok : is_success result.0 ≡ true) where
      same_id : clean_page.page_id ≡ p
      unfolding clean_page
      same_id = (v.mapped p f here).1

      tracks :
          (g : ℕ)
          → PageReplacer.contains rep s.replacer g
            ≡ (if f == g then clean_page.pin_count == 0 else PageReplacer.contains rep s.replacer g)
      unfolding clean_page
      tracks g = ground (arith, v.evictable p f here)

      saved :
          clean_page.pin_count ≡ 0
          → clean_page.is_dirty ≡ false
          → dm.stored result.1 p ≡ clean_page.bytes
      unfolding clean_page result
      saved z d = dm.stored-write_page p (s.pages f).bytes s.disk ok

      written : St zeros rep dm
      written = record s { disk = result.1; pages = set_page f clean_page s.pages }

      written-Flushed : Flushed s written
      unfolding written clean_page moved content pins
      written-Flushed = record {
        effect = record {
          valid =
              changed-IsValid zeros rep dm moved moved-IsValid p f here clean_page s.replacer
                same_id v.policy tracks saved;
          same_size = refl;
          contents = λ q. ground (
            arith,
            content-changed zeros rep dm moved moved-IsValid p f here clean_page s.replacer same_id
                v.policy tracks saved q,
            (retuned-Keeps zeros rep dm s v result.1 s.replacer s.stats v.policy (λ g. refl)
                  changes).same_content
                q,
            here,
          );
          counts = λ q. ground (
            arith,
            pins-changed zeros rep dm moved moved-IsValid p f here clean_page s.replacer same_id
                v.policy tracks saved q,
            here,
          );
          in_place = λ q g h. h.0;
        };
        same_table = refl;
        same_page = λ g. ground arith;
        cleaner = λ g h. ground arith;
      }

    moved-Flushed : Flushed s moved
    unfolding moved
    moved-Flushed =
        let k =
          retuned-Keeps zeros rep dm s v result.1 s.replacer s.stats v.policy (λ g. refl) changes in
        record {
          effect = record {
            valid = moved-IsValid;
            same_size = refl;
            contents = k.same_content;
            counts = k.same_pins;
            in_place = λ q g h. h.0;
          };
          same_table = refl;
          same_page = λ g. refl;
          cleaner = λ g h. h;
        }

    pub write_frame-Flushed :
        Flushed s (write_frame zeros rep dm p f s).1
        × ((write_frame zeros rep dm p f s).0 ≡ true
            → ((write_frame zeros rep dm p f s).1.pages f).is_dirty ≡ false)
    unfolding write_frame result written moved clean_page
    write_frame-Flushed = elim (Bool-cases (is_success result.0)) [
      | inl ok ↦ rw (ok, write_frame) (written-Flushed ok, λ z. ground arith)
      | inr bad ↦ rw (bad, write_frame) (moved-Flushed, λ z. cc)
    ]

  pub counted-Flushed :
      (s t : St zeros rep dm) (n : ℕ) → Flushed s t → Flushed s (count_flushes zeros rep dm n t)
  unfolding content pins
  counted-Flushed s t n h = record {
    effect = record {
      valid =
          retuned-IsValid zeros rep dm t h.effect.valid t.disk t.replacer _ h.effect.valid.policy
            (λ g. refl) (λ q. inl refl);
      same_size = h.effect.same_size;
      contents = h.effect.contents;
      counts = h.effect.counts;
      in_place = h.effect.in_place;
    };
    same_table = h.same_table;
    same_page = h.same_page;
    cleaner = h.cleaner;
  }

  -- One round of the loop of `flush_all_pages`, on an entry of the table.
  pub flush_entry-Flushed :
      (s : St zeros rep dm) (p : PageId) (f n m : ℕ)
      → IsValid zeros rep dm s
      → lookup p s ≡ some f
      → Flushed s (flush_entry zeros rep dm p f (n, m, s)).2
        × (m ≤ (flush_entry zeros rep dm p f (n, m, s)).1)
        × ((flush_entry zeros rep dm p f (n, m, s)).1 ≡ m
            → ((flush_entry zeros rep dm p f (n, m, s)).2.pages f).is_dirty ≡ false)
  unfolding flush_entry
  flush_entry-Flushed s p f n m v here = elim (Bool-cases (s.pages f).is_dirty) [
    | inr c ↦ rw (c, flush_entry) (same-Flushed s v, omega arith, λ z. c)
    | inl d ↦
        let (flushed, clean) = write_frame-Flushed s v p f here d in
        elim (Bool-cases (write_frame zeros rep dm p f s).0) [
          | inl ok ↦ rw (d, flush_entry, ok) (flushed, omega arith, λ z. clean ok)
          | inr bad ↦ rw (d, flush_entry, bad) (flushed, omega arith, λ z. absurd (omega arith))
        ]
  ]
