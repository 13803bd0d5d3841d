-- ===== src/Storage/IamPage.antt =====
-- The struct IAMPage of src/storage/storage_def.h: the extents of one table, in an array.
pub mod Entries
use lettydb.Common.{
  ℕ, zero, suc, ◌+◌, ◌-◌, ◌*◌, ◌≤◌, ◌<◌, ◌≡◌, ◌≢◌, refl, sym, ◌∙◌, List, [], ◌∷◌, ◌++◌, Bool, true,
  false, Option, none, some, arith, ◌==◌, ltb, leb, if◌then◌else◌, Bool-cases, Option-cases, inl,
  inr, elem, length, ap, ◌⊎◌,
}
use lettydb.Storage.Config.{PageId, iam_max_extents, invalid_page_id}

pub record IamPage : Type 0 where
  pub next_page_id : PageId
  pub extent_count : ℕ
  pub extent_ids : ℕ → ℕ

unfoldable pub make_iam_page : IamPage
make_iam_page = record { next_page_id = invalid_page_id; extent_count = 0; extent_ids = λ i. 0 }

abbrev pub set_entry : ℕ → ℕ → (ℕ → ℕ) → ℕ → ℕ
set_entry i x ids j = if j == i then x else ids j

unfoldable pub add_extent : ℕ → IamPage → Bool × IamPage
add_extent extent_id p = if leb iam_max_extents p.extent_count then (false, p) else (
  true,
  record p {
    extent_ids = set_entry p.extent_count extent_id p.extent_ids;
    extent_count = p.extent_count + 1;
  },
)

-- The first position of an extent from `i` on, among `n`.
unfoldable pub find_entry : ℕ → (ℕ → ℕ) → ℕ → ℕ → Option ℕ
find_entry extent_id ids zero i = none
find_entry extent_id ids (suc n) i =
    let rest = find_entry extent_id ids n (suc i) in if ids i == extent_id then some i else rest

-- The inner loop of `remove_extent`: `n` entries from `j` on move down.
unfoldable pub shift_down : ℕ → ℕ → (ℕ → ℕ) → ℕ → ℕ
shift_down zero j ids = ids
shift_down (suc n) j ids = shift_down n (suc j) (set_entry j (ids (suc j)) ids)

unfoldable pub remove_at : Option ℕ → IamPage → Bool × IamPage
remove_at none p = (false, p)
remove_at (some i) p = (
  true,
  record p {
    extent_ids = shift_down (p.extent_count - 1 - i) i p.extent_ids;
    extent_count = p.extent_count - 1;
  },
)

unfoldable pub remove_extent : ℕ → IamPage → Bool × IamPage
remove_extent extent_id p = remove_at (find_entry extent_id p.extent_ids p.extent_count 0) p

unfoldable pub has_space : IamPage → Bool
has_space p = ltb p.extent_count iam_max_extents

-- The loop of `contains_extent` from `i` on, `n` entries.
unfoldable pub contains_from : ℕ → (ℕ → ℕ) → ℕ → ℕ → Bool
contains_from extent_id ids zero i = false
contains_from extent_id ids (suc n) i =
    let rest = contains_from extent_id ids n (suc i) in if ids i == extent_id then true else rest

unfoldable pub contains_extent : ℕ → IamPage → Bool
contains_extent extent_id p = contains_from extent_id p.extent_ids p.extent_count 0

-- The entries as a list.
unfoldable pub entries : (ℕ → ℕ) → ℕ → ℕ → List ℕ
entries ids zero i = []
entries ids (suc n) i = ids i ∷ entries ids n (suc i)

abbrev pub extents : IamPage → List ℕ
extents p = entries p.extent_ids p.extent_count 0

abbrev pub remove_first : ℕ → List ℕ → List ℕ
remove_first x [] = []
remove_first x (y ∷ ys) = if y == x then ys else y ∷ remove_first x ys
