-- ===== src/Buffer/Pool/Refines.antt =====
-- Every call of src/buffer/buffer_pool_manager.cpp is a step of the abstract pool, and every
-- history of calls keeps the invariant.
use lettydb.Common.{List, [], ◌∷◌, ℕ, refl, Option, none, some, arith, inl, inr, Option-cases}
use lettydb.Buffer.Replacer.{PageReplacer}
use lettydb.Buffer.Pool.{lookup, new_page, unpin_page}
use lettydb.Buffer.Pool.Flush.{delete_page, reset_cache_stats}
use lettydb.Buffer.Pool.Invariant.{IsValid, content, pins}
use lettydb.Buffer.Pool.Acquire.{St, retuned-IsValid}
use lettydb.Buffer.Pool.Calls.{Effect, fetch_page-Fetched}
use lettydb.Buffer.Pool.Updates.{
  New, Provided, new_page-New, new_or_fetch_page-Provided, unpin_page-Unpinned, write_data-Effect,
  delete_page-Deleted,
}
use lettydb.Buffer.Pool.Checkpoint.{
  flush_page-PageFlushed, force_flush-Flushed, flush_all_pages-Durable, checkpoint-Durable,
}
use lettydb.Buffer.Pool.Run.{
  Ideal, IdealStep, Call, Answer, Maintenance, new, provide, maintain, made, new_refused,
  provided_old, provided_new, provide_refused, written, maintained, frame_answer, view, Step,
  fetches, news, provides, unpins, writes, flushes, flushes_all, forces, checkpoints, deletes,
  resets, Simulated, Effect-Becomes, Fetched-Simulated, Unpinned-Simulated, Deleted-Simulated,
  uncached, Pinned-users,
}
use lettydb.Storage.Config.{PageId}
use lettydb.Storage.Disk.{DiskManager}

module _ {A : Type 0} (zeros : A) (rep : PageReplacer) (dm : DiskManager A) where
  New-Simulated :
      (s : St zeros rep dm) (p : PageId) (r : Option ℕ × St zeros rep dm)
      → New zeros rep dm p s r
      → Simulated zeros rep dm s (new p) (frame_answer zeros rep dm r.0) r.1
  New-Simulated s p (none, t) h = (h.0.valid, new_refused p (Effect-Becomes zeros rep dm s t h.0))
  New-Simulated s p (some f, t) h = elim (Option-cases (lookup p s)) [
    | inl e ↦
        (h.0.0.valid, made p (uncached zeros rep dm s p e) (Effect-Becomes zeros rep dm s t h.0.0))
    | inr (g, e) ↦ absurd (ground (arith, h.1))
  ]

  Provided-Simulated :
      (s : St zeros rep dm) (p : PageId) (r : Option ℕ × St zeros rep dm)
      → Provided zeros rep dm p s r
      → Simulated zeros rep dm s (provide p) (frame_answer zeros rep dm r.0) r.1
  Provided-Simulated s p (none, t) (inl h) = absurd (h.1 refl)
  Provided-Simulated s p (some f, t) (inl h) =
      (h.2.0.valid, provided_old p (Effect-Becomes zeros rep dm s t h.2.0))
  Provided-Simulated s p (none, t) (inr h) =
      (h.1.valid, provide_refused p (Effect-Becomes zeros rep dm s t h.1))
  Provided-Simulated s p (some f, t) (inr h) = (
    h.1.0.valid,
    provided_new p (uncached zeros rep dm s p h.0) (Effect-Becomes zeros rep dm s t h.1.0),
  )

  maintained-Simulated :
      (s t : St zeros rep dm) (m : Maintenance) (answer : Answer A)
      → Effect zeros rep dm s t (content zeros rep dm s) (pins zeros rep dm s)
      → Simulated zeros rep dm s (maintain m) answer t
  maintained-Simulated s t m answer h =
      (h.valid, maintained m answer (Effect-Becomes zeros rep dm s t h))

  reset_cache_stats-Effect :
      (s : St zeros rep dm)
      → IsValid zeros rep dm s
      → Effect zeros rep dm s
          (reset_cache_stats zeros rep dm s)
          (content zeros rep dm s)
          (pins zeros rep dm s)
  unfolding reset_cache_stats content pins
  reset_cache_stats-Effect s v = record {
    valid =
        retuned-IsValid zeros rep dm s v s.disk s.replacer _ v.policy (λ g. refl) (λ q. inl refl);
    same_size = refl;
    contents = λ q. refl;
    counts = λ q. refl;
    in_place = λ q f h. h.0;
  }

  -- Each call is the step of the abstract pool with its label, and keeps the invariant.
  pub Step-Simulated :
      {s t : St zeros rep dm} {c : Call A} {answer : Answer A}
      → IsValid zeros rep dm s
      → Step zeros rep dm s c answer t
      → Simulated zeros rep dm s c answer t
  Step-Simulated {s} v (fetches p) =
      Fetched-Simulated zeros rep dm s p _ (fetch_page-Fetched zeros rep dm s v p)
  Step-Simulated {s} v (news p) =
      New-Simulated s p (new_page zeros rep dm p s) (new_page-New zeros rep dm s v p)
  Step-Simulated {s} v (provides p) =
      Provided-Simulated s p _ (new_or_fetch_page-Provided zeros rep dm s v p)
  Step-Simulated {s} v (unpins p dirty honest) =
      Unpinned-Simulated zeros rep dm s p dirty (unpin_page zeros rep dm p dirty s) v
        (unpin_page-Unpinned zeros rep dm s v p dirty honest)
  Step-Simulated {s} v (writes p f x h) =
      let effect = write_data-Effect zeros rep dm s v p f h.0 h.1 x in
      (
        effect.valid,
        written p x (Pinned-users zeros rep dm s p f h) (Effect-Becomes zeros rep dm s _ effect),
      )
  Step-Simulated {s} v (flushes p) =
      maintained-Simulated s _ _ _ (flush_page-PageFlushed zeros rep dm s p v).0.effect
  Step-Simulated {s} v flushes_all =
      maintained-Simulated s _ _ _ (flush_all_pages-Durable zeros rep dm s v).0.effect
  Step-Simulated {s} v forces =
      maintained-Simulated s _ _ _ (force_flush-Flushed zeros rep dm s v).effect
  Step-Simulated {s} v checkpoints =
      maintained-Simulated s _ _ _ (checkpoint-Durable zeros rep dm s v).0.effect
  Step-Simulated {s} v (deletes p) =
      Deleted-Simulated zeros rep dm s p (delete_page zeros rep dm p s) v
        (delete_page-Deleted zeros rep dm s v p)
  Step-Simulated {s} v resets = maintained-Simulated s _ _ _ (reset_cache_stats-Effect s v)

  -- The calls with their answers, the last one first.
  abbrev pub Trace : Type 0
  Trace = List (Call A × Answer A)

  pub data Reach (s : St zeros rep dm) : Trace → St zeros rep dm → Type 0 where
    here : Reach s [] s
    next :
        {t u : St zeros rep dm} {trace : Trace} {c : Call A} {answer : Answer A}
        → Reach s trace t
        → Step zeros rep dm t c answer u
        → Reach s ((c, answer) ∷ trace) u

  pub data IdealReach (a : Ideal A) : Trace → Ideal A → Type 0 where
    start : IdealReach a [] a
    later :
        {b d : Ideal A} {trace : Trace} {c : Call A} {answer : Answer A}
        → IdealReach a trace b
        → IdealStep zeros b d c answer
        → IdealReach a ((c, answer) ∷ trace) d

  -- From a valid pool, any sequence of calls of the buffer pool (fetch, new, new-or-fetch, unpin by
  -- a caller that reports its writes, writing through a pinned page, delete, the flushes,
  -- checkpoint, reset of the counters) reaches a valid pool, and the abstract pool, which has only
  -- the content and the pin count of each page, makes the same calls with the same answers between
  -- the same contents and pin counts: a fetch that succeeds shows the content of its page, only a
  -- write, a creation and a delete change a content, that of their own page, the last two only if
  -- nobody pins it, and a delete to what the disk holds.
  pub Reach-IdealReach :
      {s t : St zeros rep dm} {trace : Trace}
      → IsValid zeros rep dm s
      → Reach s trace t
      → IsValid zeros rep dm t × IdealReach (view zeros rep dm s) trace (view zeros rep dm t)
  Reach-IdealReach v here = (v, start)
  Reach-IdealReach v (next r st) =
      let (valid, ideal) = Reach-IdealReach v r in
      let (after, step) = Step-Simulated valid st in (after, later ideal step)
