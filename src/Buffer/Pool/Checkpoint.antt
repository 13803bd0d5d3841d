-- ===== src/Buffer/Pool/Checkpoint.antt =====
-- The loops of `flush_all_pages` and `force_flush`, and `checkpoint`
-- (src/buffer/buffer_pool_manager.cpp).
use lettydb.Common.{
  ℕ, zero, suc, ◌+◌, ◌≤◌, ◌<◌, ◌≡◌, refl, sym, ◌∙◌, ap, subst, List, [], ◌∷◌, Bool, true, false,
  Option, none, some, ltb, ℤ, ℤ_discrete, if_pos, if_neg, arith, Option-cases, Bool-cases, inl, inr,
}
use lettydb.Common.Maps
use lettydb.Buffer.Replacer.{PageReplacer}
use lettydb.Buffer.Pool.{lookup}
use lettydb.Buffer.Pool.Flush.{
  write_frame, flush_frame, flush_page, force_flush_frame, force_flush_from, force_flush,
  flush_entry, flush_entries, flush_all_pages, checkpoint,
}
use lettydb.Buffer.Pool.Invariant.{IsValid, content, pins}
use lettydb.Buffer.Pool.Acquire.{St, retuned-IsValid, retuned-Keeps}
use lettydb.Buffer.Pool.Durable.{
  Flushed, same-Flushed, Flushed-trans, counted-Flushed, write_frame-Flushed, flush_entry-Flushed,
}
use lettydb.Storage.Config.{PageId, invalid_page_id}
use lettydb.Storage.Disk.{DiskManager}

module _ {A : Type 0} (zeros : A) (rep : PageReplacer) (dm : DiskManager A) where
  abbrev Counted : Type 0
  Counted = ℕ × ℕ × St zeros rep dm

  -- If no write failed, every frame of the list is clean.
  abbrev AllFlushed : List (ℤ × ℕ) → Counted → Counted → Type 0
  AllFlushed entries a b =
      Flushed zeros rep dm a.2 b.2
      × (a.1 ≤ b.1)
      × (b.1 ≡ a.1
          → (p : ℤ) (f : ℕ) → Maps.find ℤ_discrete p entries ≡ some f
          → (b.2.pages f).is_dirty ≡ false)

  AllFlushed-cons :
      (k : ℤ) (g : ℕ) (entries : List (ℤ × ℕ)) (a b c : Counted)
      → Flushed zeros rep dm a.2 b.2
      → a.1 ≤ b.1
      → (b.1 ≡ a.1 → (b.2.pages g).is_dirty ≡ false)
      → AllFlushed entries b c
      → AllFlushed ((k, g) ∷ entries) a c
  unfolding Maps.find
  AllFlushed-cons k g entries a b c one le clean rest =
      (Flushed-trans zeros rep dm a.2 b.2 c.2 one rest.0, omega arith, each)
    where
      each :
          c.1 ≡ a.1
          → (p : ℤ) (f : ℕ) → Maps.find ℤ_discrete p ((k, g) ∷ entries) ≡ some f
          → (c.2.pages f).is_dirty ≡ false
      each z p f h = elim (ℤ_discrete k p) [
        | yes e ↦
            let same : g ≡ f = ground arith in
            subst (λ x. (c.2.pages x).is_dirty ≡ false) same
              (rest.0.cleaner g (clean (omega arith)))
        | no d ↦ rest.2 (omega arith) p f (ground arith)
      ]

  flush_entries-AllFlushed :
      (entries : List (ℤ × ℕ)) (n m : ℕ) (s : St zeros rep dm)
      → IsValid zeros rep dm s
      → Maps.AllFound ℤ_discrete entries s.page_table
      → AllFlushed entries (n, m, s) (flush_entries zeros rep dm entries (n, m, s))
  unfolding flush_entries Maps.find
  flush_entries-AllFlushed [] n m s v a =
      (same-Flushed zeros rep dm s v, omega arith, λ z p f h. cc)
  flush_entries-AllFlushed ((k, g) ∷ entries) n m s v a =
      let first : Counted = flush_entry zeros rep dm k g (n, m, s) in
      let (one, le, clean) = flush_entry-Flushed zeros rep dm s k g n m v a.0 in
      AllFlushed-cons k g entries (n, m, s) first (flush_entries zeros rep dm entries first) one le
        clean
        (flush_entries-AllFlushed entries first.0 first.1 first.2 one.effect.valid
          (rw one.same_table a.1))

  -- What `true` promises of a page that nobody pins: the disk holds its content.
  abbrev pub Durable : St zeros rep dm → St zeros rep dm → Type 0
  Durable s t = (p : ℤ) → pins zeros rep dm s p ≡ 0 → dm.stored t.disk p ≡ content zeros rep dm s p

  clean-Durable :
      (s t : St zeros rep dm)
      → Flushed zeros rep dm s t
      → ((p : ℤ) (f : ℕ) → lookup p s ≡ some f → (t.pages f).is_dirty ≡ false)
      → Durable s t
  unfolding content pins
  clean-Durable s t h clean p free = elim (Option-cases (lookup p t)) [
    | inl e ↦ ground (arith, h.effect.contents p)
    | inr (f, e) ↦ ground (
      arith,
      h.effect.contents p,
      h.effect.counts p,
      h.effect.valid.clean p f e,
      clean p f (ap (λ m. Maps.find ℤ_discrete p m) (sym h.same_table) ∙ e),
    )
  ]

  -- `flush_all_pages` changes nothing that a caller sees, and if it returns true every page that
  -- nobody pins is on the disk.
  pub flush_all_pages-Durable :
      (s : St zeros rep dm)
      → IsValid zeros rep dm s
      → Flushed zeros rep dm s (flush_all_pages zeros rep dm s).1
        × ((flush_all_pages zeros rep dm s).0 ≡ true → Durable s (flush_all_pages zeros rep dm s).1)
  unfolding flush_all_pages
  flush_all_pages-Durable s v =
      let (flushed, le, clean) =
        flush_entries-AllFlushed s.page_table 0 0 s v
          (Maps.IsUnique-AllFound ℤ_discrete s.page_table v.unique) in
      let r : Counted = flush_entries zeros rep dm s.page_table (0, 0, s) in
      elim (Bool-cases (ltb 0 r.0)) [
        | inl some_flushed ↦ rw some_flushed (
          counted-Flushed zeros rep dm s r.2 r.0 flushed,
          λ z. clean-Durable s r.2 flushed (λ p f. clean (ground arith) p f),
        )
        | inr none_flushed ↦
            rw none_flushed
              (flushed, λ z. clean-Durable s r.2 flushed (λ p f. clean (ground arith) p f))
      ]

  synced-Flushed :
      (s t : St zeros rep dm)
      → Flushed zeros rep dm s t
      → Flushed zeros rep dm s (record t { disk = (dm.sync t.disk).1 })
  unfolding content pins
  synced-Flushed s t h =
      let same = λ (q : ℤ). dm.stored-sync q t.disk in
      let u = h.effect.valid in
      let k =
        retuned-Keeps zeros rep dm t u (dm.sync t.disk).1 t.replacer t.stats u.policy (λ g. refl)
          (λ q. inl (same q)) in
      record {
        effect = record {
          valid =
              retuned-IsValid zeros rep dm t u (dm.sync t.disk).1 t.replacer t.stats u.policy
                (λ g. refl) (λ q. inl (same q));
          same_size = h.effect.same_size;
          contents = λ q. k.same_content q ∙ h.effect.contents q;
          counts = h.effect.counts;
          in_place = h.effect.in_place;
        };
        same_table = h.same_table;
        same_page = h.same_page;
        cleaner = h.cleaner;
      }

  -- On a valid pool, `checkpoint` changes no content, no pin count and no mapping and keeps the
  -- pool valid; if it returns true, the disk holds the content of every page that nobody pins.
  pub checkpoint-Durable :
      (s : St zeros rep dm)
      → IsValid zeros rep dm s
      → Flushed zeros rep dm s (checkpoint zeros rep dm s).1
        × ((checkpoint zeros rep dm s).0 ≡ true → Durable s (checkpoint zeros rep dm s).1)
  unfolding checkpoint
  checkpoint-Durable s v =
      let (flushed, durable) = flush_all_pages-Durable s v in
      (
        synced-Flushed s (flush_all_pages zeros rep dm s).1 flushed,
        λ z p free.
            dm.stored-sync p (flush_all_pages zeros rep dm s).1.disk
            ∙ durable (ground arith) p free,
      )

  flush_frame-Flushed :
      (s : St zeros rep dm) (p : PageId) (f : ℕ)
      → IsValid zeros rep dm s
      → lookup p s ≡ some f
      → (s.pages f).is_dirty ≡ true
      → Flushed zeros rep dm s (flush_frame zeros rep dm p f s).1
        × ((flush_frame zeros rep dm p f s).0 ≡ true
            → ((flush_frame zeros rep dm p f s).1.pages f).is_dirty ≡ false)
  unfolding flush_frame
  flush_frame-Flushed s p f v here dirty =
      let (flushed, clean) = write_frame-Flushed zeros rep dm s v p f here dirty in
      elim (Bool-cases (write_frame zeros rep dm p f s).0) [
        | inl ok ↦ rw (ok, flush_frame) (counted-Flushed zeros rep dm s _ 1 flushed, λ z. clean ok)
        | inr bad ↦ rw (bad, flush_frame) (flushed, λ z. cc)
      ]

  -- What `flush_page` answers: false for a page that is not cached and for a failed write.
  abbrev pub PageFlushed : PageId → St zeros rep dm → Bool × St zeros rep dm → Type 0
  PageFlushed p s r =
      Flushed zeros rep dm s r.1
      × (lookup p s ≡ none → (r.0 ≡ false) × (r.1 ≡ s))
      × (r.0 ≡ true → (f : ℕ) → lookup p r.1 ≡ some f → (r.1.pages f).is_dirty ≡ false)

  flush_page_cases :
      (s : St zeros rep dm) (p : PageId) (x : Option ℕ)
      → IsValid zeros rep dm s
      → lookup p s ≡ x
      → PageFlushed p s (flush_page zeros rep dm p s)
  unfolding flush_page
  flush_page_cases s p none v e =
      rw (e, flush_page) (same-Flushed zeros rep dm s v, λ h. (refl, refl), λ h. cc)
  flush_page_cases s p (some f) v e = elim (Bool-cases (s.pages f).is_dirty) [
    | inr c ↦ rw (e, flush_page, c) (same-Flushed zeros rep dm s v, λ h. cc, λ z g h. ground arith)
    | inl d ↦
        let (flushed, clean) = flush_frame-Flushed s p f v e d in
        rw (e, flush_page, d)
          (
            flushed,
            λ h. cc,
            λ z g h.
                let same : f ≡ g =
                  ground (arith, ap (λ m. Maps.find ℤ_discrete p m) flushed.same_table) in
                subst (λ x. ((flush_frame zeros rep dm p f s).1.pages x).is_dirty ≡ false) same
                  (clean z),
          )
  ]

  -- On a valid pool, `flush_page` changes no content, no pin count and no mapping and keeps the
  -- pool valid; for a page that is not cached it returns false and changes nothing, and if it
  -- returns true the frame of the page is clean.
  pub flush_page-PageFlushed :
      (s : St zeros rep dm) (p : PageId)
      → IsValid zeros rep dm s
      → PageFlushed p s (flush_page zeros rep dm p s)
  flush_page-PageFlushed s p v = flush_page_cases s p (lookup p s) v refl

  force_flush_frame-Flushed :
      (s : St zeros rep dm) (f : ℕ)
      → IsValid zeros rep dm s
      → f < s.pool_size
      → Flushed zeros rep dm s (force_flush_frame zeros rep dm f s)
  unfolding force_flush_frame
  force_flush_frame-Flushed s f v lt = elim (ℤ_discrete (s.pages f).page_id invalid_page_id) [
    | yes p ↦ rw (if_pos _ p) (same-Flushed zeros rep dm s v)
    | no n ↦ rw (if_neg _ n) (elim (Bool-cases (s.pages f).is_dirty) [
      | inr c ↦ rw (c, force_flush_frame) (same-Flushed zeros rep dm s v)
      | inl d ↦
          let here : lookup (s.pages f).page_id s ≡ some f =
            ground (arith, v.accounted f lt, v.free_blank f) in
          rw (d, force_flush_frame) (flush_frame-Flushed s (s.pages f).page_id f v here d).0
    ])
  ]

  force_flush_from-Flushed :
      (n i : ℕ) (s : St zeros rep dm)
      → IsValid zeros rep dm s
      → n + i ≤ s.pool_size
      → Flushed zeros rep dm s (force_flush_from zeros rep dm n i s)
  unfolding force_flush_from
  force_flush_from-Flushed zero i s v h = same-Flushed zeros rep dm s v
  force_flush_from-Flushed (suc n) i s v h =
      let one = force_flush_frame-Flushed s i v (omega arith) in
      Flushed-trans zeros rep dm s (force_flush_frame zeros rep dm i s) _ one (
        force_flush_from-Flushed n (suc i) (force_flush_frame zeros rep dm i s) one.effect.valid
          (omega (arith, one.effect.same_size)))

  -- On a valid pool, `force_flush` changes no content, no pin count and no mapping, makes no clean
  -- frame dirty and keeps the pool valid, whichever of its writes fail.
  pub force_flush-Flushed :
      (s : St zeros rep dm)
      → IsValid zeros rep dm s
      → Flushed zeros rep dm s (force_flush zeros rep dm s)
  unfolding force_flush
  force_flush-Flushed s v = force_flush_from-Flushed s.pool_size 0 s v (omega arith)
