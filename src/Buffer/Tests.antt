-- ===== src/Buffer/Tests.antt =====
-- A pool of two frames with the LRU policy, over a disk in memory that refuses negative page ids
-- (as `pwrite` does at a negative offset); the theorems of src/buffer at such pools.
use lettydb.Common.{
  subst, ℕ, ◌*◌, ◌≡◌, ◌≢◌, ◌↔◌, ◌⊎◌, refl, [], ◌∷◌, ◌++◌, true, false, none, some, if◌then◌else◌, ℤ,
  pos, negsuc, ℤ_discrete, ℕ_discrete, ite, if_pos, if_neg, elem, remove,
}
use lettydb.Common.Maps
use lettydb.Buffer.Lru
use lettydb.Buffer.Lru.{LruPageReplacer}
use lettydb.Buffer.Lru.Queue.{queue, IsValid as IsValidLru}
use lettydb.Buffer.Lru.Refines as LruRefines
use lettydb.Buffer.Lru.Refines.{lru, pop_front}
use lettydb.Buffer.Pool.{
  lookup, fresh, init, fetch_page, new_page, new_or_fetch_page, unpin_page, acquire_frame,
  take_frame, take_victim, read_into, install, create_page,
}
use lettydb.Buffer.Pool.Flush.{flush_page, force_flush, checkpoint, delete_page}
use lettydb.Buffer.Pool.Invariant.{IsValid, content}
use lettydb.Buffer.Pool.Acquire.{St}
use lettydb.Buffer.Pool.Frames
use lettydb.Buffer.Pool.Frames.{Acquired}
use lettydb.Buffer.Pool.Calls
use lettydb.Buffer.Pool.Calls.{Fetched}
use lettydb.Buffer.Pool.Updates
use lettydb.Buffer.Pool.Updates.{New, Provided, Deleted}
use lettydb.Buffer.Pool.Durable.{Flushed}
use lettydb.Buffer.Pool.Checkpoint
use lettydb.Buffer.Pool.Checkpoint.{Durable, PageFlushed}
use lettydb.Buffer.Pool.Service
use lettydb.Buffer.Pool.Service.{AllPinned}
use lettydb.Buffer.Pool.Start
use lettydb.Buffer.Pool.Start.{Started}
use lettydb.Buffer.Pool.Run.{view, fetches, news, new, fetch, seen, done}
use lettydb.Buffer.Pool.Refines
use lettydb.Buffer.Pool.Refines.{Trace, Reach, here, next, IdealReach, Step-Simulated}
use lettydb.Storage.Disk.{DiskManager, IoResult, is_success}

abbrev Memory : Type 0
Memory = ℤ → ℕ

abbrev memory_write : ℤ → ℕ → Memory → IoResult × Memory
memory_write (pos n) a d = (IoResult.success, λ q. ite (ℤ_discrete (pos n) q) a (d q))
memory_write (negsuc n) a d = (IoResult.write_error, d)

abbrev memory_read : ℤ → Memory → IoResult × ℕ × Memory
memory_read (pos n) d = (IoResult.success, d (pos n), d)
memory_read (negsuc n) d = (IoResult.read_error, 0, d)

written_back :
    (p : ℤ) (a : ℕ) (d : Memory)
    → is_success (memory_write p a d).0 ≡ true
    → (memory_write p a d).1 p ≡ a
written_back (pos n) a d h = if_pos (ℤ_discrete (pos n) (pos n)) refl _ _
written_back (negsuc n) a d h = cc

written_elsewhere : (p q : ℤ) (a : ℕ) (d : Memory) → p ≢ q → (memory_write p a d).1 q ≡ d q
written_elsewhere (pos n) q a d h = if_neg (ℤ_discrete (pos n) q) h _ _
written_elsewhere (negsuc n) q a d h = refl

read_back : (p : ℤ) (d : Memory) → is_success (memory_read p d).0 ≡ true → (memory_read p d).1 ≡ d p
read_back (pos n) d h = refl
read_back (negsuc n) d h = cc

read_only : (p q : ℤ) (d : Memory) → (memory_read p d).2 q ≡ d q
read_only (pos n) q d = refl
read_only (negsuc n) q d = refl

abbrev memory : DiskManager ℕ
memory = record {
  State = Memory;
  write_page = memory_write;
  read_page = memory_read;
  sync = λ d. (true, d);
  stored = λ d. d;
  stored-write_page = written_back;
  stored-write_page_ne = written_elsewhere;
  read_page-stored = read_back;
  stored-read_page = read_only;
  stored-sync = λ q d. refl;
}

-- Page n of the disk holds 10 n.
abbrev numbered : Memory
numbered (pos n) = 10 * n
numbered (negsuc n) = 0

abbrev Small : Type 0
Small = St 0 lru memory

none_tracked : (f : ℕ) → elem f (queue Lru.empty) ≡ false
unfolding Lru.empty
none_tracked f = refl

start_pool : Small
start_pool = fresh 0 lru memory 2 Lru.empty numbered

start-IsValid : IsValid 0 lru memory start_pool
unfolding start_pool
start-IsValid =
    Start.fresh-IsValid 0 lru memory 2 Lru.empty numbered LruRefines.empty-IsValid none_tracked

-- Page 1 fetched, page 2 created, and a second user of page 1.
one_page : Small
one_page = (fetch_page 0 lru memory (pos 1) start_pool).1

two_pages : Small
two_pages = (new_page 0 lru memory (pos 2) one_page).1

-- Both frames are in use.
program : Unit {0}
unfolding two_pages one_page start_pool fresh fetch_page new_page unpin_page delete_page flush_page
    Maps.find Maps.insert Maps.erase ℤ_discrete ℕ_discrete Lru.empty Lru.mark_evictable
    Lru.mark_not_evictable Lru.identify_frame_to_evict
program = tt

one_page-IsValid : IsValid 0 lru memory one_page
unfolding one_page
one_page-IsValid = (Step-Simulated 0 lru memory start-IsValid (fetches (pos 1))).0

two_pages-IsValid : IsValid 0 lru memory two_pages
unfolding two_pages
two_pages-IsValid = (Step-Simulated 0 lru memory one_page-IsValid (news (pos 2))).0

-- A third page finds no frame; the content of page 1 is that of the disk.
full :
    ((fetch_page 0 lru memory (pos 3) two_pages).0 ≡ none)
    × (content 0 lru memory two_pages (pos 1) ≡ 10)
unfolding program content acquire_frame take_frame take_victim read_into install create_page
full = (refl, refl)

fetch_page-Fetched_example :
    Fetched 0 lru memory (pos 1) two_pages (fetch_page 0 lru memory (pos 1) two_pages)
fetch_page-Fetched_example =
    Calls.fetch_page-Fetched 0 lru memory two_pages two_pages-IsValid (pos 1)

new_page-New_example : New 0 lru memory (pos 2) one_page (new_page 0 lru memory (pos 2) one_page)
new_page-New_example = Updates.new_page-New 0 lru memory one_page one_page-IsValid (pos 2)

new_or_fetch_page-Provided_example :
    Provided 0 lru memory (pos 1) two_pages (new_or_fetch_page 0 lru memory (pos 1) two_pages)
new_or_fetch_page-Provided_example =
    Updates.new_or_fetch_page-Provided 0 lru memory two_pages two_pages-IsValid (pos 1)

delete_page-Deleted_example :
    Deleted 0 lru memory (pos 1) two_pages (delete_page 0 lru memory (pos 1) two_pages)
delete_page-Deleted_example =
    Updates.delete_page-Deleted 0 lru memory two_pages two_pages-IsValid (pos 1)

acquire_frame-Acquired_example :
    Acquired 0 lru memory one_page (acquire_frame 0 lru memory one_page)
acquire_frame-Acquired_example =
    Frames.acquire_frame-Acquired 0 lru memory one_page one_page-IsValid

flush_page-PageFlushed_example :
    PageFlushed 0 lru memory (pos 2) two_pages (flush_page 0 lru memory (pos 2) two_pages)
flush_page-PageFlushed_example =
    Checkpoint.flush_page-PageFlushed 0 lru memory two_pages (pos 2) two_pages-IsValid

force_flush-Flushed_example : Flushed 0 lru memory two_pages (force_flush 0 lru memory two_pages)
force_flush-Flushed_example =
    Checkpoint.force_flush-Flushed 0 lru memory two_pages two_pages-IsValid

checkpoint-Durable_example :
    Flushed 0 lru memory two_pages (checkpoint 0 lru memory two_pages).1
    × ((checkpoint 0 lru memory two_pages).0 ≡ true
        → Durable 0 lru memory two_pages (checkpoint 0 lru memory two_pages).1)
checkpoint-Durable_example = Checkpoint.checkpoint-Durable 0 lru memory two_pages two_pages-IsValid

fresh_replacer :
    (r : LruPageReplacer)
    → some Lru.empty ≡ some r
    → IsValidLru r × ((f : ℕ) → elem f (queue r) ≡ false)
fresh_replacer r e =
    let same : Lru.empty ≡ r = cc in
    subst (λ x. IsValidLru x × ((f : ℕ) → elem f (queue x) ≡ false)) same
      (LruRefines.empty-IsValid, none_tracked)

init-Started_example :
    ((◌≡◌ {A = ℕ} 2 0 ⊎ ((some Lru.empty ≡ none) ⊎ (true ≡ false)))
      × (init 0 lru memory true 2 (some Lru.empty) numbered ≡ none))
    ⊎ ((◌≢◌ {A = ℕ} 2 0 × (some Lru.empty ≢ none) × (true ≡ true))
        × ((s : Small) × (init 0 lru memory true 2 (some Lru.empty) numbered ≡ some s)
            × Started 0 lru memory 2 numbered s))
init-Started_example =
    Start.init-Started 0 lru memory true 2 (some Lru.empty) numbered fresh_replacer

abbrev trace : Trace 0 lru memory
trace = (new (pos 2), done) ∷ (fetch (pos 1), seen 10) ∷ []

history : Reach 0 lru memory start_pool trace two_pages
unfolding two_pages one_page new_page fetch_page Maps.find start_pool fresh acquire_frame take_frame
    read_into install Maps.insert ℤ_discrete Maps.erase create_page
history = next (next here (fetches (pos 1))) (news (pos 2))

Reach-IdealReach_example :
    IsValid 0 lru memory two_pages
    × IdealReach 0 lru memory (view 0 lru memory start_pool) trace (view 0 lru memory two_pages)
Reach-IdealReach_example = Refines.Reach-IdealReach 0 lru memory start-IsValid history

-- The replacer after frames 1, 0 and 1 again were released.
released : LruPageReplacer
released = Lru.mark_evictable 1 (Lru.mark_evictable 0 (Lru.mark_evictable 1 Lru.empty))

released-IsValid : IsValidLru released
unfolding released
released-IsValid = LruRefines.mark_evictable-IsValid 1 _ (
    LruRefines.mark_evictable-IsValid 0 _
      (LruRefines.mark_evictable-IsValid 1 Lru.empty LruRefines.empty-IsValid))

queue_order : queue released ≡ 1 ∷ 0 ∷ []
unfolding released program
queue_order = refl

queue-identify_frame_to_evict_example :
    (((Lru.identify_frame_to_evict released).0, queue (Lru.identify_frame_to_evict released).1)
      ≡ pop_front (queue released))
    × IsValidLru (Lru.identify_frame_to_evict released).1
queue-identify_frame_to_evict_example =
    LruRefines.queue-identify_frame_to_evict released released-IsValid

queue-mark_not_evictable_example :
    queue (Lru.mark_not_evictable 1 released) ≡ remove 1 (queue released)
queue-mark_not_evictable_example = LruRefines.queue-mark_not_evictable 1 released released-IsValid

queue-mark_evictable_example :
    queue (Lru.mark_evictable 5 released)
    ≡ (if elem 5 (queue released) then queue released else queue released ++ 5 ∷ [])
queue-mark_evictable_example = LruRefines.queue-mark_evictable 5 released released-IsValid

-- A disk that never fails.
abbrev ample : DiskManager ℕ
ample = record {
  State = Memory;
  write_page = λ p a d. (IoResult.success, λ q. ite (ℤ_discrete p q) a (d q));
  read_page = λ p d. (IoResult.success, d p, d);
  sync = λ d. (true, d);
  stored = λ d. d;
  stored-write_page = λ p a d h. if_pos (ℤ_discrete p p) refl _ _;
  stored-write_page_ne = λ p q a d h. if_neg (ℤ_discrete p q) h _ _;
  read_page-stored = λ p d h. refl;
  stored-read_page = λ p q d. refl;
  stored-sync = λ q d. refl;
}

ample_pool : St 0 lru ample
ample_pool = fresh 0 lru ample 2 Lru.empty numbered

ample-IsValid : IsValid 0 lru ample ample_pool
unfolding ample_pool
ample-IsValid =
    Start.fresh-IsValid 0 lru ample 2 Lru.empty numbered LruRefines.empty-IsValid none_tracked

fetch_page-none_iff_example :
    ((fetch_page 0 lru ample (pos 3) ample_pool).0 ≡ none)
    ↔ ((lookup (pos 3) ample_pool ≡ none) × AllPinned 0 lru ample ample_pool)
fetch_page-none_iff_example =
    Service.fetch_page-none_iff 0 lru ample (λ p a d. refl) (λ p d. refl) ample_pool ample-IsValid
      (pos 3)
