-- ===== src/Buffer/Pool/Calls.antt =====
-- What the pinning calls of src/buffer/buffer_pool_manager.cpp do to the contents of the pages and
-- to the counts of their users, on every branch.
use lettydb.Common.{
  ℕ, suc, ◌≡◌, refl, Bool, true, false, Option, none, some, ◌==◌, if◌then◌else◌, ℤ, arith,
  Bool-cases, inl, inr,
}
use lettydb.Buffer.Replacer.{PageReplacer}
use lettydb.Buffer.Pool.{
  Page, CacheStats, lookup, reset_frame, acquire_frame, pin_cached, count_hit, count_miss, install,
  read_into, fetch_page, create_page,
}
use lettydb.Buffer.Pool.Invariant.{IsValid, content, pins, Pinned}
use lettydb.Buffer.Pool.Acquire.{St, held, Keeps, retuned-IsValid}
use lettydb.Buffer.Pool.Frames.{Acquired, acquire_frame-Acquired}
use lettydb.Buffer.Pool.Install.{
  at, installed-IsValid, content-installed, pins-installed, lookup-installed, returned-IsValid,
  content-returned,
}
use lettydb.Buffer.Pool.Pinning.{changed-IsValid, content-changed, pins-changed}
use lettydb.Storage.Config.{PageId}
use lettydb.Storage.Disk.{DiskManager, is_success}

module _ {A : Type 0} (zeros : A) (rep : PageReplacer) (dm : DiskManager A) where
  -- The pool after a call: valid, with these contents and these pin counts, and with every page
  -- that was pinned in its old frame.
  pub record Effect (s t : St zeros rep dm) (c : PageId → A) (n : PageId → ℕ) : Type 0 where
    pub valid : IsValid zeros rep dm t
    pub same_size : t.pool_size ≡ s.pool_size
    pub contents : (q : ℤ) → content zeros rep dm t q ≡ c q
    pub counts : (q : ℤ) → pins zeros rep dm t q ≡ n q
    pub in_place : (q : ℤ) (f : ℕ) → Pinned zeros rep dm s q f → lookup q t ≡ some f

  -- The page is pinned once more and its content is at hand; or it was not cached and nothing has
  -- changed.
  abbrev pub Fetched : PageId → St zeros rep dm → Option ℕ × St zeros rep dm → Type 0
  Fetched p s (none, t) =
      Effect s t (content zeros rep dm s) (pins zeros rep dm s) × (lookup p s ≡ none)
  Fetched p s (some f, t) =
      Effect s t (content zeros rep dm s) (at p (suc (pins zeros rep dm s p)) (pins zeros rep dm s))
      × (lookup p t ≡ some f)
      × ((t.pages f).bytes ≡ content zeros rep dm s p)

  -- The page is pinned once, in a frame of zeros; or nothing has changed.
  abbrev pub Created : PageId → St zeros rep dm → Option ℕ × St zeros rep dm → Type 0
  Created p s (none, t) = Effect s t (content zeros rep dm s) (pins zeros rep dm s)
  Created p s (some f, t) =
      Effect s t (at p zeros (content zeros rep dm s)) (at p 1 (pins zeros rep dm s))
      × (lookup p t ≡ some f)
      × ((t.pages f).is_dirty ≡ true)

  -- A call that failed to find a frame.
  Keeps-Effect :
      (s t : St zeros rep dm)
      → IsValid zeros rep dm t
      → Keeps zeros rep dm s t
      → Effect s t (content zeros rep dm s) (pins zeros rep dm s)
  Keeps-Effect s t v k = record {
    valid = v;
    same_size = k.same_size;
    contents = k.same_content;
    counts = k.same_pins;
    in_place = λ q f h. (k.still_pinned q f h).0;
  }

  -- A frame that was acquired is given a page.
  module _ (s t : St zeros rep dm) (f : ℕ) (v : IsValid zeros rep dm (held zeros rep dm f t))
      (k : Keeps zeros rep dm s (held zeros rep dm f t)) (d : DiskManager.State dm)
      (same : (q : ℤ) → dm.stored d q ≡ dm.stored t.disk q) (p : PageId)
      (unmapped : lookup p t ≡ none) where
    install-Effect :
        (dirty : Bool) (a : A)
        → Effect s
            (install zeros rep dm p f dirty a (reset_frame zeros rep dm f (record t { disk = d })))
            (at p a (content zeros rep dm s))
            (at p 1 (pins zeros rep dm s))
          × (lookup p (
                install zeros rep dm p f dirty a
                  (reset_frame zeros rep dm f (record t { disk = d })))
              ≡ some f)
    unfolding install
    install-Effect dirty a = (
      record {
        valid = installed-IsValid zeros rep dm t f v d same p dirty a unmapped;
        same_size = k.same_size;
        contents = λ q. ground (
          arith,
          content-installed zeros rep dm t f v d same p dirty a unmapped q,
          k.same_content q,
        );
        counts = λ q.
            ground
              (arith, pins-installed zeros rep dm t f v d same p dirty a unmapped q, k.same_pins q);
        in_place = λ q g h. ground (
          arith,
          lookup-installed zeros rep dm t f v d same p dirty a unmapped q,
          (k.still_pinned q g h).0,
        );
      },
      ground (arith, lookup-installed zeros rep dm t f v d same p dirty a unmapped p),
    )

  module _ (s : St zeros rep dm) (v : IsValid zeros rep dm s) (p : PageId) where
    pub pin_cached-Effect :
        (f : ℕ)
        → lookup p s ≡ some f
        → Effect s
            (pin_cached zeros rep dm f s)
            (content zeros rep dm s)
            (at p (suc (pins zeros rep dm s p)) (pins zeros rep dm s))
    unfolding pin_cached content pins
    pin_cached-Effect f e = record {
      valid = changed-IsValid zeros rep dm s v p f e page r id ok tracks (λ z. ground arith);
      same_size = refl;
      contents = λ q.
          ground (
            arith,
            content-changed zeros rep dm s v p f e page r id ok tracks (λ z. ground arith) q,
          );
      counts = λ q.
          ground
            (arith, pins-changed zeros rep dm s v p f e page r id ok tracks (λ z. ground arith) q);
      in_place = λ q g h. h.0;
    }
      where
        page : Page A
        page = record (s.pages f) { pin_count = suc (s.pages f).pin_count }

        r : PageReplacer.State rep
        r = rep.mark_not_evictable f s.replacer

        id : page.page_id ≡ p
        id = (v.mapped p f e).1

        ok : PageReplacer.IsValid rep r
        ok = PageReplacer.mark_not_evictable-IsValid rep f s.replacer v.policy

        tracks :
            (g : ℕ)
            → PageReplacer.contains rep r g
              ≡ (if f == g then page.pin_count == 0 else PageReplacer.contains rep s.replacer g)
        tracks g =
            ground (arith, PageReplacer.contains-mark_not_evictable rep f g s.replacer v.policy)

    pub create_page-Created : lookup p s ≡ none → Created p s (create_page zeros rep dm p s)
    unfolding create_page install
    create_page-Created e =
        created (acquire_frame zeros rep dm s) (acquire_frame-Acquired zeros rep dm s v)
      where
        created :
            (x : Option ℕ × St zeros rep dm)
            → Acquired zeros rep dm s x
            → Created p s (elim x.0 [
              | none ↦ (none, x.1)
              | some f ↦
                  (some f, install zeros rep dm p f true zeros (reset_frame zeros rep dm f x.1))
            ])
        created (none, t) h = Keeps-Effect s t h.0 h.1
        created (some f, t) h =
            let (effect, found) =
              install-Effect s t f h.0 h.1 t.disk (λ q. refl) p (h.1.nothing_new p e) true zeros in
            (effect, found, ground arith)

    read_into-Fetched :
        (t : St zeros rep dm) (f : ℕ)
        → lookup p s ≡ none
        → Acquired zeros rep dm s (some f, t)
        → Fetched p s (read_into zeros rep dm p f (reset_frame zeros rep dm f t))
    unfolding read_into content pins install
    read_into-Fetched t f e h = elim (Bool-cases (is_success (dm.read_page p t.disk).0)) [
      | inl ok ↦
          let (effect, found) =
            install-Effect s t f h.0 h.1 (dm.read_page p t.disk).2
              (λ q. dm.stored-read_page p q t.disk) p (h.1.nothing_new p e) false
              (dm.read_page p t.disk).1 in
          let same_bytes : (dm.read_page p t.disk).1 ≡ content zeros rep dm s p =
            ground
              (arith, h.1.same_content p, h.1.nothing_new p e, dm.read_page-stored p t.disk ok) in
          rw (ok, read_into)
            (
              record {
                valid = effect.valid;
                same_size = effect.same_size;
                contents = λ q. ground (arith, effect.contents q, same_bytes);
                counts = λ q. ground (arith, effect.counts q);
                in_place = effect.in_place;
              },
              found,
              ground (arith, same_bytes),
            )
      | inr bad ↦
          rw (bad, read_into)
            (
              record {
                valid =
                    returned-IsValid zeros rep dm t f h.0 (dm.read_page p t.disk).2
                      (λ q. dm.stored-read_page p q t.disk);
                same_size = h.1.same_size;
                contents = λ q. ground (
                  arith,
                  content-returned zeros rep dm t f h.0 (dm.read_page p t.disk).2
                      (λ q. dm.stored-read_page p q t.disk) q,
                  h.1.same_content q,
                );
                counts = λ q. ground (arith, h.1.same_pins q);
                in_place = λ q g k. (h.1.still_pinned q g k).0;
              },
              e,
            )
    ]

    counted-IsValid : (c : CacheStats) → IsValid zeros rep dm (record s { stats = c })
    counted-IsValid c =
        retuned-IsValid zeros rep dm s v s.disk s.replacer c v.policy (λ g. refl) (λ q. inl refl)

    -- The counters play no part in what a caller sees.
    counted-Acquired :
        (c : CacheStats) (x : Option ℕ × St zeros rep dm)
        → Acquired zeros rep dm (record s { stats = c }) x
        → Acquired zeros rep dm s x
    unfolding content pins
    counted-Acquired c (none, t) h = (
      h.0,
      record {
        same_size = h.1.same_size;
        same_content = h.1.same_content;
        same_pins = h.1.same_pins;
        nothing_new = h.1.nothing_new;
        still_pinned = h.1.still_pinned;
      },
    )
    counted-Acquired c (some f, t) h = (
      h.0,
      record {
        same_size = h.1.same_size;
        same_content = h.1.same_content;
        same_pins = h.1.same_pins;
        nothing_new = h.1.nothing_new;
        still_pinned = h.1.still_pinned;
      },
    )

    missed-Fetched :
        (x : Option ℕ × St zeros rep dm)
        → lookup p s ≡ none
        → Acquired zeros rep dm s x
        → Fetched p s (elim x.0 [
          | none ↦ (none, x.1)
          | some f ↦ read_into zeros rep dm p f (reset_frame zeros rep dm f x.1)
        ])
    missed-Fetched (none, t) e h = (Keeps-Effect s t h.0 h.1, e)
    missed-Fetched (some f, t) e h = read_into-Fetched t f e h

    hit-Fetched :
        (f : ℕ)
        → lookup p s ≡ some f
        → Fetched p s (some f, count_hit zeros rep dm (pin_cached zeros rep dm f s))
    unfolding content pins pin_cached
    hit-Fetched f e =
        let effect = pin_cached-Effect f e in
        (
          record {
            valid =
                retuned-IsValid zeros rep dm _ effect.valid s.disk
                  (rep.mark_not_evictable f s.replacer) _ effect.valid.policy (λ g. refl)
                  (λ q. inl refl);
            same_size = refl;
            contents = effect.contents;
            counts = effect.counts;
            in_place = effect.in_place;
          },
          e,
          ground (arith, effect.contents p),
        )

    fetch_cases : (x : Option ℕ) → lookup p s ≡ x → Fetched p s (fetch_page zeros rep dm p s)
    unfolding fetch_page
    fetch_cases (some f) e = rw (e, fetch_page) (hit-Fetched f e)
    fetch_cases none e =
        rw (e, fetch_page)
          (missed-Fetched (acquire_frame zeros rep dm (count_miss zeros rep dm s)) e
            (counted-Acquired _ _ (acquire_frame-Acquired zeros rep dm _ (counted-IsValid _))))

    -- On a valid pool, `fetch_page` either returns a frame that is mapped from the page, holds its
    -- content and is pinned once more, while the content and pin count of every other page stay, or
    -- returns none, changes no content and no pin count, and the page was not cached. The pool
    -- stays valid, and pinned pages stay in their frames.
    pub fetch_page-Fetched : Fetched p s (fetch_page zeros rep dm p s)
    fetch_page-Fetched = fetch_cases (lookup p s) refl
