-- ===== src/Buffer/Pool/Peek.antt =====
-- Reading one page through src/buffer/buffer_pool_manager.cpp: `fetch_page`, a look at the frame,
-- `unpin_page` as clean, by a caller that holds no other page, over a disk that does not fail.
use lettydb.Common.{
  ℕ, ◌<◌, ◌≡◌, ◌≢◌, ◌∙◌, refl, Bool, true, false, Option, none, some, ℤ, ℤ_discrete, arith,
}
use lettydb.Common.Maps
use lettydb.Buffer.Replacer.{PageReplacer}
use lettydb.Buffer.Pool.{
  lookup, count_hit, count_miss, pin_cached, acquire_frame, reset_frame, install, read_into,
  fetch_page, unpin_page,
}
use lettydb.Buffer.Pool.Invariant.{IsValid, content, pins}
use lettydb.Buffer.Pool.Acquire.{St}
use lettydb.Buffer.Pool.Calls.{Fetched, fetch_page-Fetched}
use lettydb.Buffer.Pool.Updates.{Unpinned, Honest, unpin_page-Unpinned}
use lettydb.Buffer.Pool.Service.{fetch_page-none_iff}
use lettydb.Storage.Config.{PageId}
use lettydb.Storage.Disk.{DiskManager, is_success}

module _ {A : Type 0} (zeros : A) (rep : PageReplacer) (dm : DiskManager A) where
  -- The pool shows these contents, and nobody pins a page.
  pub record Shows (c : PageId → A) (s : St zeros rep dm) : Type 0 where
    pub valid : IsValid zeros rep dm s
    pub nonempty : 0 < s.pool_size
    pub contents : (q : ℤ) → content zeros rep dm s q ≡ c q
    pub unpinned : (q : ℤ) → pins zeros rep dm s q ≡ 0

  module _
      (writes_succeed : (p : ℤ) (a : A) (d : DiskManager.State dm)
        → is_success (dm.write_page p a d).0 ≡ true)
      (reads_succeed : (p : ℤ) (d : DiskManager.State dm)
        → is_success (dm.read_page p d).0 ≡ true) where
    read_into-Honest :
        (p : PageId) (f : ℕ) (t : St zeros rep dm)
        → Honest zeros rep dm p false (read_into zeros rep dm p f t).1
    unfolding read_into install
    read_into-Honest p f t =
        rw (reads_succeed p t.disk, read_into)
          (λ g e d h. ground (
            arith,
            Maps.find-insert ℤ_discrete p p f t.page_table,
            dm.read_page-stored p t.disk (reads_succeed p t.disk),
            dm.stored-read_page p p t.disk,
          ))

    module _ (s : St zeros rep dm) (c : PageId → A) (sh : Shows c s) (p : PageId) where
      hit-Honest :
          (f : ℕ)
          → lookup p s ≡ some f
          → Honest zeros rep dm p false (count_hit zeros rep dm (pin_cached zeros rep dm f s))
      unfolding pin_cached pins
      hit-Honest f e g k d h = ground (arith, e, k, h, sh.unpinned p, sh.valid.clean p f e)

      missed-Honest :
          (x : Option ℕ × St zeros rep dm)
          → (let r : Option ℕ × St zeros rep dm = elim x.0 [
            | none ↦ (none, x.1)
            | some f ↦ read_into zeros rep dm p f (reset_frame zeros rep dm f x.1)
          ] in
              (f : ℕ) → r.0 ≡ some f → Honest zeros rep dm p false r.1)
      missed-Honest (none, t) f e = absurd (ground arith)
      missed-Honest (some g, t) f e = read_into-Honest p g (reset_frame zeros rep dm g t)

      fetch-Honest :
          (x : Option ℕ) (f : ℕ)
          → lookup p s ≡ x
          → (fetch_page zeros rep dm p s).0 ≡ some f
          → Honest zeros rep dm p false (fetch_page zeros rep dm p s).1
      unfolding fetch_page
      fetch-Honest (some g) f e h = rw (e, fetch_page) (hit-Honest g e)
      fetch-Honest none f e h =
          rw (e, fetch_page)
            (missed-Honest (acquire_frame zeros rep dm (count_miss zeros rep dm s)) f
              (rw (e, fetch_page) at h))

      fetch-ne-none : (fetch_page zeros rep dm p s).0 ≢ none
      unfolding pins
      fetch-ne-none e =
          let (here, pinned) =
            ((fetch_page-none_iff zeros rep dm writes_succeed reads_succeed s sh.valid p).0 e).1 0
              sh.nonempty in
          ground (arith, here, pinned, sh.unpinned (s.pages 0).page_id)

      -- What `fetch_page` of one page and `unpin_page` as clean come to.
      abbrev pub Peeked : Option ℕ × St zeros rep dm → Type 0
      Peeked r =
          (f : ℕ) × (r.0 ≡ some f)
          × ((r.1.pages f).bytes ≡ c p)
          × Shows c (unpin_page zeros rep dm p false r.1).1

      Unpinned-Shows :
          (t : St zeros rep dm) (f : ℕ) (r : Bool × St zeros rep dm)
          → Fetched zeros rep dm p s (some f, t)
          → Unpinned zeros rep dm p false t r
          → Shows c r.1
      Unpinned-Shows t f (false, u) (effect, _, _) (none_here, same) =
          absurd (ground (arith, effect.counts p, none_here))
      Unpinned-Shows t f (true, u) (effect, _, _) (_, after, _) = record {
        valid = after.valid;
        nonempty = ground (arith, sh.nonempty, after.same_size, effect.same_size);
        contents = λ q. ground (arith, after.contents q, effect.contents q, sh.contents q);
        unpinned = λ q.
            ground (
              arith,
              after.counts q,
              effect.counts q,
              effect.counts p,
              sh.unpinned p,
              sh.unpinned q,
            );
      }

      peek_cases :
          (r : Option ℕ × St zeros rep dm)
          → r.0 ≢ none
          → ((f : ℕ) → r.0 ≡ some f → Honest zeros rep dm p false r.1)
          → Fetched zeros rep dm p s r
          → Peeked r
      peek_cases (none, t) some_frame honest h = absurd (some_frame refl)
      peek_cases (some f, t) some_frame honest h = (
        f,
        refl,
        h.2 ∙ sh.contents p,
        Unpinned-Shows t f _ h
            (unpin_page-Unpinned zeros rep dm t h.0.valid p false (honest f refl)),
      )

      -- A look at a page finds a frame with its content, and the pool shows the same afterwards.
      pub fetch_page-Peeked : Peeked (fetch_page zeros rep dm p s)
      fetch_page-Peeked =
          peek_cases (fetch_page zeros rep dm p s) fetch-ne-none
            (λ f e. fetch-Honest (lookup p s) f refl e)
            (fetch_page-Fetched zeros rep dm s sh.valid p)
