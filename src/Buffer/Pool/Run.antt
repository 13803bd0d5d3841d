-- ===== src/Buffer/Pool/Run.antt =====
-- The buffer pool as a state machine (src/buffer/buffer_pool_manager.h): its calls, with what the
-- class comment asks of the callers, against pages and pin counts with no frames and no disk.
use lettydb.Common.{
  ℕ, suc, ◌-◌, ◌≡◌, ◌≢◌, refl, sym, subst, Bool, true, false, Option, none, some, ℤ, arith,
}
use lettydb.Buffer.Replacer.{PageReplacer}
use lettydb.Buffer.Pool.{lookup, fetch_page, new_page, new_or_fetch_page, unpin_page, write_data}
use lettydb.Buffer.Pool.Flush.{
  flush_page, force_flush, flush_all_pages, checkpoint, delete_page, reset_cache_stats,
}
use lettydb.Buffer.Pool.Invariant.{IsValid, content, pins, Pinned}
use lettydb.Buffer.Pool.Acquire.{St}
use lettydb.Buffer.Pool.Install.{at}
use lettydb.Buffer.Pool.Calls.{Effect, Fetched}
use lettydb.Buffer.Pool.Updates.{Unpinned, Honest, Deleted}
use lettydb.Storage.Config.{PageId}
use lettydb.Storage.Disk.{DiskManager}

-- The abstract pool: what each page holds, and how many callers hold it.
pub record Ideal (A : Type 0) : Type 0 where
  pub contents : PageId → A
  pub users : PageId → ℕ

-- The calls, with what the caller passes. A write is one through a `Page*`. For a delete the label
-- also has what the disk holds of the page.
pub data Maintenance : Type 0 where
  flush : PageId → Maintenance
  flush_all force check_point reset : Maintenance

pub data Call (A : Type 0) : Type 0 where
  fetch new provide : PageId → Call A
  unpin : PageId → Bool → Call A
  write : PageId → A → Call A
  delete : PageId → A → Call A
  maintain : Maintenance → Call A

-- What a call answers: a refusal, success, or the content that the caller sees.
pub data Answer (A : Type 0) : Type 0 where
  refused done : Answer A
  seen : A → Answer A

-- After a call, with these contents and these users.
pub record Becomes {A : Type 0} (b : Ideal A) (contents : PageId → A) (users : PageId → ℕ)
    : Type 0 where
  pub same_contents : (q : ℤ) → b.contents q ≡ contents q
  pub same_users : (q : ℤ) → b.users q ≡ users q

-- What each call with its answer does to the abstract pool: a fetch shows the content of the page,
-- and pages that are in use are never replaced or dropped.
pub data IdealStep {A : Type 0} (zeros : A) (a b : Ideal A) : Call A → Answer A → Type 0 where
  fetched :
      (p : PageId) (x : A)
      → x ≡ a.contents p
      → Becomes b a.contents (at p (suc (a.users p)) a.users)
      → IdealStep zeros a b (fetch p) (seen x)
  fetch_refused :
      (p : PageId) → Becomes b a.contents a.users → IdealStep zeros a b (fetch p) refused
  made :
      (p : PageId)
      → a.users p ≡ 0
      → Becomes b (at p zeros a.contents) (at p 1 a.users)
      → IdealStep zeros a b (new p) done
  new_refused : (p : PageId) → Becomes b a.contents a.users → IdealStep zeros a b (new p) refused
  provided_old :
      (p : PageId)
      → Becomes b a.contents (at p (suc (a.users p)) a.users)
      → IdealStep zeros a b (provide p) done
  provided_new :
      (p : PageId)
      → a.users p ≡ 0
      → Becomes b (at p zeros a.contents) (at p 1 a.users)
      → IdealStep zeros a b (provide p) done
  provide_refused :
      (p : PageId) → Becomes b a.contents a.users → IdealStep zeros a b (provide p) refused
  released :
      (p : PageId) (dirty : Bool)
      → a.users p ≢ 0
      → Becomes b a.contents (at p (a.users p - 1) a.users)
      → IdealStep zeros a b (unpin p dirty) done
  unpin_refused :
      (p : PageId) (dirty : Bool)
      → a.users p ≡ 0
      → Becomes b a.contents a.users
      → IdealStep zeros a b (unpin p dirty) refused
  written :
      (p : PageId) (x : A)
      → a.users p ≢ 0
      → Becomes b (at p x a.contents) a.users
      → IdealStep zeros a b (write p x) done
  dropped :
      (p : PageId) (x : A)
      → a.users p ≡ 0
      → Becomes b (at p x a.contents) a.users
      → IdealStep zeros a b (delete p x) done
  delete_refused :
      (p : PageId) (x : A) → Becomes b a.contents a.users → IdealStep zeros a b (delete p x) refused
  maintained :
      (m : Maintenance) (answer : Answer A)
      → Becomes b a.contents a.users
      → IdealStep zeros a b (maintain m) answer

module _ {A : Type 0} (zeros : A) (rep : PageReplacer) (dm : DiskManager A) where
  abbrev pub view : St zeros rep dm → Ideal A
  view s = record { contents = content zeros rep dm s; users = pins zeros rep dm s }

  abbrev pub frame_answer : Option ℕ → Answer A
  frame_answer none = refused
  frame_answer (some f) = done

  abbrev pub bool_answer : Bool → Answer A
  bool_answer false = refused
  bool_answer true = done

  -- The content that a caller sees in the frame.
  abbrev pub fetch_answer : Option ℕ × St zeros rep dm → Answer A
  fetch_answer (none, t) = refused
  fetch_answer (some f, t) = seen (t.pages f).bytes

  -- The calls. A caller writes only to a page that it holds, and is honest when it unpins.
  pub data Step (s : St zeros rep dm) : Call A → Answer A → St zeros rep dm → Type 0 where
    fetches :
        (p : PageId)
        → Step s
            (fetch p)
            (fetch_answer (fetch_page zeros rep dm p s))
            (fetch_page zeros rep dm p s).1
    news :
        (p : PageId)
        → Step s (new p) (frame_answer (new_page zeros rep dm p s).0) (new_page zeros rep dm p s).1
    provides :
        (p : PageId)
        → Step s
            (provide p)
            (frame_answer (new_or_fetch_page zeros rep dm p s).0)
            (new_or_fetch_page zeros rep dm p s).1
    unpins :
        (p : PageId) (dirty : Bool)
        → Honest zeros rep dm p dirty s
        → Step s
            (unpin p dirty)
            (bool_answer (unpin_page zeros rep dm p dirty s).0)
            (unpin_page zeros rep dm p dirty s).1
    writes :
        (p : PageId) (f : ℕ) (x : A)
        → Pinned zeros rep dm s p f
        → Step s (write p x) done (write_data zeros rep dm f x s)
    flushes :
        (p : PageId)
        → Step s
            (maintain (flush p))
            (bool_answer (flush_page zeros rep dm p s).0)
            (flush_page zeros rep dm p s).1
    flushes_all :
        Step s
          (maintain flush_all)
          (bool_answer (flush_all_pages zeros rep dm s).0)
          (flush_all_pages zeros rep dm s).1
    forces : Step s (maintain force) done (force_flush zeros rep dm s)
    checkpoints :
        Step s
          (maintain check_point)
          (bool_answer (checkpoint zeros rep dm s).0)
          (checkpoint zeros rep dm s).1
    deletes :
        (p : PageId)
        → Step s
            (delete p (dm.stored s.disk p))
            (bool_answer (delete_page zeros rep dm p s).0)
            (delete_page zeros rep dm p s).1
    resets : Step s (maintain reset) done (reset_cache_stats zeros rep dm s)

  abbrev pub Simulated : St zeros rep dm → Call A → Answer A → St zeros rep dm → Type 0
  Simulated s c answer t = IsValid zeros rep dm t × IdealStep zeros (view s) (view t) c answer

  pub Effect-Becomes :
      (s t : St zeros rep dm) {c : PageId → A} {n : PageId → ℕ}
      → Effect zeros rep dm s t c n
      → Becomes (view t) c n
  Effect-Becomes s t h = record { same_contents = h.contents; same_users = h.counts }

  pub same-Becomes : (s : St zeros rep dm) → Becomes (view s) (view s).contents (view s).users
  same-Becomes s = record { same_contents = λ q. refl; same_users = λ q. refl }

  pub Fetched-Simulated :
      (s : St zeros rep dm) (p : PageId) (r : Option ℕ × St zeros rep dm)
      → Fetched zeros rep dm p s r
      → Simulated s (fetch p) (fetch_answer r) r.1
  Fetched-Simulated s p (none, t) h = (h.0.valid, fetch_refused p (Effect-Becomes s t h.0))
  Fetched-Simulated s p (some f, t) h =
      (h.0.valid, fetched p (t.pages f).bytes h.2 (Effect-Becomes s t h.0))

  pub Unpinned-Simulated :
      (s : St zeros rep dm) (p : PageId) (dirty : Bool) (r : Bool × St zeros rep dm)
      → IsValid zeros rep dm s
      → Unpinned zeros rep dm p dirty s r
      → Simulated s (unpin p dirty) (bool_answer r.0) r.1
  Unpinned-Simulated s p dirty (false, t) v h =
      subst (Simulated s (unpin p dirty) refused) (sym h.1)
        (v, unpin_refused p dirty h.0 (same-Becomes s))
  Unpinned-Simulated s p dirty (true, t) v h =
      (h.1.valid, released p dirty h.0 (Effect-Becomes s t h.1))

  pub Deleted-Simulated :
      (s : St zeros rep dm) (p : PageId) (r : Bool × St zeros rep dm)
      → IsValid zeros rep dm s
      → Deleted zeros rep dm p s r
      → Simulated s (delete p (dm.stored s.disk p)) (bool_answer r.0) r.1
  Deleted-Simulated s p (false, t) v h =
      subst (Simulated s (delete p (dm.stored s.disk p)) refused) (sym h.1)
        (v, delete_refused p (dm.stored s.disk p) (same-Becomes s))
  Deleted-Simulated s p (true, t) v h =
      (h.0.valid, dropped p (dm.stored s.disk p) h.2 (Effect-Becomes s t h.0))

  pub uncached : (s : St zeros rep dm) (p : PageId) → lookup p s ≡ none → pins zeros rep dm s p ≡ 0
  unfolding pins
  uncached s p e = ground arith

  pub Pinned-users :
      (s : St zeros rep dm) (p : PageId) (f : ℕ)
      → Pinned zeros rep dm s p f
      → pins zeros rep dm s p ≢ 0
  unfolding pins
  Pinned-users s p f h = ground arith
