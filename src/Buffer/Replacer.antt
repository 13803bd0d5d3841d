-- ===== src/Buffer/Replacer.antt =====
-- src/buffer/page_replacer.h: the interface of eviction policies. `contains` is the set of frames
-- that the policy tracks; the laws are the documented effects of the operations on that set.
use lettydb.Common.{ℕ, ◌≡◌, Bool, true, false, Option, none, some, ◌==◌, if◌then◌else◌}

pub record PageReplacer : Type 1 where
  pub State : Type 0
  pub IsValid : State → Type 0
  pub contains : State → ℕ → Bool
  pub identify_frame_to_evict : State → Option ℕ × State
  pub mark_not_evictable : ℕ → State → State
  pub mark_evictable : ℕ → State → State
  pub identify-IsValid : (r : State) → IsValid r → IsValid (identify_frame_to_evict r).1
  pub identify-none :
      (r : State)
      → IsValid r
      → (identify_frame_to_evict r).0 ≡ none
      → (f : ℕ) → contains r f ≡ false
  pub contains-identify_none :
      (r : State) (f : ℕ)
      → IsValid r
      → (identify_frame_to_evict r).0 ≡ none
      → contains (identify_frame_to_evict r).1 f ≡ contains r f
  pub identify-some :
      (r : State) (v : ℕ) → IsValid r → (identify_frame_to_evict r).0 ≡ some v → contains r v ≡ true
  pub contains-identify :
      (r : State) (f v : ℕ)
      → IsValid r
      → (identify_frame_to_evict r).0 ≡ some v
      → contains (identify_frame_to_evict r).1 f ≡ (if v == f then false else contains r f)
  pub mark_not_evictable-IsValid :
      (f : ℕ) (r : State) → IsValid r → IsValid (mark_not_evictable f r)
  pub contains-mark_not_evictable :
      (f g : ℕ) (r : State)
      → IsValid r
      → contains (mark_not_evictable f r) g ≡ (if f == g then false else contains r g)
  pub mark_evictable-IsValid : (f : ℕ) (r : State) → IsValid r → IsValid (mark_evictable f r)
  pub contains-mark_evictable :
      (f g : ℕ) (r : State)
      → IsValid r
      → contains (mark_evictable f r) g ≡ (if f == g then true else contains r g)
