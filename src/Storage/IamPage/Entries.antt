-- ===== src/Storage/IamPage/Entries.antt =====
-- What the operations of IAMPage (src/storage/storage_def.h) do to the list of its extents.
use lettydb.Common.{
  ℕ, zero, suc, ◌+◌, ◌-◌, ◌≤◌, ◌<◌, ◌≡◌, ◌≢◌, refl, ◌∙◌, [], ◌∷◌, ◌++◌, Bool, true, false, Option,
  none, some, arith, ◌==◌, ltb, leb, if◌then◌else◌, Bool-cases, inl, inr, elem, ap,
}
use lettydb.Storage.Config.{iam_max_extents}
use lettydb.Storage.IamPage.{
  IamPage, set_entry, add_extent, find_entry, shift_down, remove_at, remove_extent, contains_from,
  contains_extent, entries, extents, remove_first,
}

entries_agree :
    (f g : ℕ → ℕ) (n i : ℕ)
    → ((j : ℕ) → i ≤ j → j < i + n → f j ≡ g j)
    → entries f n i ≡ entries g n i
unfolding entries
entries_agree f g zero i h = refl
entries_agree f g (suc n) i h =
    ground
      (arith, h i, entries_agree f g n (suc i) (λ j p q. h j (omega (arith, p)) (omega (arith, q))))

entries_snoc : (f : ℕ → ℕ) (n i k : ℕ) → k ≡ i + n → entries f (suc n) i ≡ entries f n i ++ f k ∷ []
unfolding entries
entries_snoc f zero i k e = ground arith
entries_snoc f (suc n) i k e = ground (arith, entries_snoc f n (suc i) k)

shift_down_value :
    (n j : ℕ) (f : ℕ → ℕ) (k : ℕ)
    → shift_down n j f k ≡ (if ltb k j then f k else (if ltb k (j + n) then f (suc k) else f k))
unfolding shift_down
shift_down_value zero j f k = ground arith
shift_down_value (suc n) j f k =
    ground (arith, shift_down_value n (suc j) (set_entry j (f (suc j)) f) k)

entries-suc : (f : ℕ → ℕ) (n i : ℕ) → entries (λ k. f (suc k)) n i ≡ entries f n (suc i)
unfolding entries
entries-suc f zero i = refl
entries-suc f (suc n) i = ground (arith, entries-suc f n (suc i))

find_entry-some :
    (x : ℕ) (f : ℕ → ℕ) (n i k : ℕ) → find_entry x f n i ≡ some k → (i ≤ k) × (k < i + n)
unfolding find_entry
find_entry-some x f zero i k e = ground arith
find_entry-some x f (suc n) i k e = ground (arith, find_entry-some x f n (suc i) k)

entries-shift_down :
    (x : ℕ) (f : ℕ → ℕ) (n i k d : ℕ)
    → find_entry x f (suc n) i ≡ some k
    → d ≡ i + n - k
    → entries (shift_down d k f) n i ≡ remove_first x (entries f (suc n) i)
unfolding find_entry entries
entries-shift_down x f zero i k d e r = ground arith
entries-shift_down x f (suc m) i k d e r = elim (Bool-cases (f i == x)) [
  | inl h ↦
      let at_front : k ≡ i = ground arith in
      rw (h) (
        entries_agree (shift_down d k f) (λ j. f (suc j)) (suc m) i
          (λ j p q. ground (arith, shift_down_value d k f j))
        ∙ entries-suc f (suc m) i)
  | inr h ↦
      let q : find_entry x f (suc m) (suc i) ≡ some k = ground arith in
      let bound = find_entry-some x f (suc m) (suc i) k q in
      let head : shift_down d k f i ≡ f i = ground (arith, bound, shift_down_value d k f i) in
      rw (h, head) (ap (λ ys. f i ∷ ys) (entries-shift_down x f m (suc i) k d q (omega (arith, r))))
]

find_entry-none :
    (x : ℕ) (f : ℕ → ℕ) (n i : ℕ) → find_entry x f n i ≡ none → elem x (entries f n i) ≡ false
unfolding find_entry entries
find_entry-none x f zero i e = refl
find_entry-none x f (suc n) i e = ground (arith, find_entry-none x f n (suc i))

elem-find_entry :
    (x : ℕ) (f : ℕ → ℕ) (n i k : ℕ) → find_entry x f n i ≡ some k → elem x (entries f n i) ≡ true
unfolding find_entry entries
elem-find_entry x f zero i k e = ground arith
elem-find_entry x f (suc n) i k e = ground (arith, elem-find_entry x f n (suc i) k)

contains_from-elem : (x : ℕ) (f : ℕ → ℕ) (n i : ℕ) → contains_from x f n i ≡ elem x (entries f n i)
unfolding contains_from entries
contains_from-elem x f zero i = refl
contains_from-elem x f (suc n) i = ground (arith, contains_from-elem x f n (suc i))

-- `contains_extent` answers whether the extent is in the list of the page.
pub contains_extent-elem : (x : ℕ) (p : IamPage) → contains_extent x p ≡ elem x (extents p)
unfolding contains_extent
contains_extent-elem x p = contains_from-elem x p.extent_ids p.extent_count 0

-- What `add_extent` promises.
unfoldable pub Addition : ℕ → IamPage → Bool × IamPage → Type 0
Addition x p (false, q) = (p.extent_count ≡ iam_max_extents) × (q ≡ p)
Addition x p (true, q) =
    (p.extent_count < iam_max_extents)
    × (extents q ≡ extents p ++ x ∷ [])
    × (q.extent_count ≤ iam_max_extents)

-- On a page with at most as many extents as it has room for, `add_extent` returns false and changes
-- nothing if the page is full; else it returns true, the extent stands at the end of the list
-- behind the others, and the count stays within the page.
pub add_extent-Addition :
    (x : ℕ) (p : IamPage) → p.extent_count ≤ iam_max_extents → Addition x p (add_extent x p)
unfolding add_extent Addition
add_extent-Addition x p h = elim (Bool-cases (leb iam_max_extents p.extent_count)) [
  | inl l ↦ rw (l) (ground (arith, h), refl)
  | inr l ↦
      let n = p.extent_count in
      let one : n + 1 ≡ suc n = omega arith in
      let added = set_entry n x p.extent_ids in
      let old : entries added n 0 ≡ entries p.extent_ids n 0 =
        entries_agree added p.extent_ids n 0 (λ j a b. ground (arith, b)) in
      let new : added n ≡ x = ground arith in
      rw (l, one)
        (ground arith, entries_snoc added n 0 n (omega arith) ∙ rw (old, new) refl, ground arith)
]

-- What `remove_extent` promises.
unfoldable pub Removal : ℕ → IamPage → Bool × IamPage → Type 0
Removal x p (false, q) = (elem x (extents p) ≡ false) × (q ≡ p)
Removal x p (true, q) =
    (elem x (extents p) ≡ true)
    × (extents q ≡ remove_first x (extents p))
    × (q.extent_count + 1 ≡ p.extent_count)

find_entry-zero : (x : ℕ) (f : ℕ → ℕ) (i k : ℕ) → find_entry x f 0 i ≢ some k
unfolding find_entry
find_entry-zero x f i k e = ground arith

remove_at-Removal :
    (x : ℕ) (p : IamPage) (k : Option ℕ) (n : ℕ)
    → p.extent_count ≡ n
    → find_entry x p.extent_ids n 0 ≡ k
    → Removal x p (remove_at k p)
unfolding remove_at Removal
remove_at-Removal x p none n c e = (rw (c) (find_entry-none x p.extent_ids n 0 e), refl)
remove_at-Removal x p (some k) zero c e = absurd (find_entry-zero x p.extent_ids 0 k e)
remove_at-Removal x p (some k) (suc m) c e =
    let count : suc m - 1 ≡ m = omega arith in
    (
      rw (c) (elem-find_entry x p.extent_ids (suc m) 0 k e),
      rw (c, count) (entries-shift_down x p.extent_ids m 0 k (m - k) e (omega arith)),
      omega (arith, c),
    )

-- `remove_extent` returns false and changes nothing if the extent is not in the list; else it
-- returns true, the list loses the first occurrence of the extent and keeps the order of the
-- others, and the count falls by one.
pub remove_extent-Removal : (x : ℕ) (p : IamPage) → Removal x p (remove_extent x p)
unfolding remove_extent
remove_extent-Removal x p =
    remove_at-Removal x p (find_entry x p.extent_ids p.extent_count 0) p.extent_count refl refl
