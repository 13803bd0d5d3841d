-- ===== src/Storage/IamManager/Reference.antt =====
-- What the search of src/storage/iam_manager.cpp is to find: the first page with room in the
-- contents of the pages, and the hint that is kept.
use lettydb.Common.{
  ◌-◌, ◌*◌, ◌%◌, ◌≤◌, negsuc, sym, subst, true, ◌==◌, Bool-cases, inl, inr, ℕ, zero, suc, ◌+◌, ◌/◌,
  ◌<◌, ◌≡◌, ◌≢◌, pos, refl, List, [], ◌∷◌, ◌++◌, Bool, Option, none, some, leb, if◌then◌else◌,
  ℤ_discrete, ite, arith,
}
use lettydb.Common.Maps
use lettydb.Buffer.Replacer.{PageReplacer}
use lettydb.Buffer.Pool.Peek.{Shows}
use lettydb.Storage.Bytes.{Buffer}
use lettydb.Storage.Config.{PageId, invalid_page_id, extent_size}
use lettydb.Storage.Disk.{DiskManager}
use lettydb.Storage.IamPage.{extents}
use lettydb.Storage.SlottedPage.{get_free_space}
use lettydb.Storage.IamManager.{
  load_iam_page, first_page_of_extent, next_page, pages_behind, Scan, PoolState, IamManager,
  as_scan,
}

-- A page has room, by its content.
abbrev pub has_room : (PageId → Buffer) → ℕ → PageId → Bool
has_room c needed p = leb needed (get_free_space (c p))

-- The first page of a list that has room.
abbrev pub first_with_room : (PageId → Buffer) → ℕ → List PageId → Option PageId
first_with_room c needed [] = none
first_with_room c needed (p ∷ ps) =
    if has_room c needed p then some p else first_with_room c needed ps

pub first_with_room-append :
    (c : PageId → Buffer) (needed : ℕ) (ps qs : List PageId)
    → first_with_room c needed (ps ++ qs) ≡ (elim (first_with_room c needed ps) [
      | some p ↦ some p
      | none ↦ first_with_room c needed qs
    ])
first_with_room-append c needed [] qs = refl
first_with_room-append c needed (p ∷ ps) qs = ground (arith, first_with_room-append c needed ps qs)

abbrev pub pages_from : ℕ → PageId → List PageId
pages_from zero p = []
pages_from (suc n) p = p ∷ pages_from n (next_page p)

-- The pages of a list of extents.
abbrev pub extent_pages : List ℕ → List PageId
extent_pages [] = []
extent_pages (e ∷ es) = pages_from extent_size (first_page_of_extent e) ++ extent_pages es

-- The chain of IAM pages from a page on has `n` of them, and these are the pages of its extents.
pub data Chain (c : PageId → Buffer) : PageId → ℕ → List PageId → Type 0 where
  end : Chain c invalid_page_id 0 []
  link :
      {p : PageId} {n : ℕ} {ps : List PageId}
      → p ≢ invalid_page_id
      → Chain c (load_iam_page (c p)).next_page_id n ps
      → Chain c p (suc n) (extent_pages (extents (load_iam_page (c p))) ++ ps)

-- The pages of the extent of page `n`, from page `k` on, among `count`.
abbrev pub same_extent : ℕ → ℕ → ℕ → List PageId
same_extent n zero k = []
same_extent n (suc count) k =
    let rest = same_extent n count (suc k) in
    if k / extent_size == n / extent_size then pos k ∷ rest else rest

-- The pages in the order of the search: the hint and those behind it in its extent, then the
-- chain's. A hint below 0 is none of a page.
abbrev pub candidates : Option PageId → List PageId → List PageId
candidates none ps = ps
candidates (some (pos n)) ps = pos n ∷ same_extent n extent_size (n + 1) ++ ps
candidates (some (negsuc n)) ps = ps

-- No hint, or that of a page.
abbrev pub IsPage : Option PageId → Type 0
IsPage (some (negsuc n)) = ⊥
IsPage hint = Unit {0}

none_behind : (n count k : ℕ) → n / extent_size < k / extent_size → same_extent n count k ≡ []
none_behind n zero k h = refl
none_behind n (suc count) k h = ground (arith, h, none_behind n count (suc k) (omega (arith, h)))

pages_from-same_extent :
    (n m count k : ℕ)
    → m + k ≡ (n / extent_size + 1) * extent_size
    → n < k
    → m ≤ count
    → pages_from m (pos k) ≡ same_extent n count k
unfolding next_page
pages_from-same_extent n zero count k e l c = sym (none_behind n count k (omega (arith, e)))
pages_from-same_extent n (suc m) zero k e l c = absurd (omega (arith, c))
pages_from-same_extent n (suc m) (suc count) k e l c =
    let ih =
      pages_from-same_extent n m count (suc k) (omega (arith, e)) (omega (arith, l))
        (omega (arith, c)) in
    let here : k / extent_size ≡ n / extent_size = omega (arith, e, l) in ground (arith, here, ih)

pub pages_behind-same_extent :
    (n : ℕ)
    → pages_from (pages_behind (pos n)) (next_page (pos n)) ≡ same_extent n extent_size (n + 1)
unfolding pages_behind next_page
pages_behind-same_extent n =
    pages_from-same_extent n (extent_size - 1 - n % extent_size) extent_size (n + 1) (omega arith)
      (omega arith) (omega arith)

-- A page that has room is found.
pub first_with_room-some :
    (c : PageId → Buffer) (needed : ℕ) (ps : List PageId) (p : PageId)
    → first_with_room c needed ps ≡ some p
    → has_room c needed p ≡ true
first_with_room-some c needed [] p e = absurd (ground arith)
first_with_room-some c needed (q ∷ ps) p e = elim (Bool-cases (has_room c needed q)) [
  | inl h ↦
      let found_here : some q ≡ some p = rw (h) at e in
      let same : q ≡ p = cc in subst (λ x. has_room c needed x ≡ true) same h
  | inr h ↦ first_with_room-some c needed ps p (rw (h) at e)
]

module _ (zeros : Buffer) (rep : PageReplacer) (dm : DiskManager Buffer) (c : PageId → Buffer) where
  -- A call answers this, and the pool shows the same contents afterwards.
  abbrev pub Answers : {B : Type 0} → B → B × PoolState zeros rep dm → Type 0
  Answers x r = (r.0 ≡ x) × Shows zeros rep dm c r.1

  -- What a search over these pages comes to, for the table of `head`.
  pub record Searched (needed : ℕ) (head : PageId) (ps : List PageId) (m : IamManager zeros rep dm)
      (r : Scan × IamManager zeros rep dm) : Type 0 where
    pub answer : r.0 ≡ as_scan zeros rep dm (first_with_room c needed ps)
    pub shows : Shows zeros rep dm c r.1.buffer_pool
    pub hints :
        (q : PageId)
        → Maps.find ℤ_discrete q r.1.table_page_hints ≡ (elim (first_with_room c needed ps) [
          | none ↦ Maps.find ℤ_discrete q m.table_page_hints
          | some p ↦ ite (ℤ_discrete head q) (some p) (Maps.find ℤ_discrete q m.table_page_hints)
        ])
