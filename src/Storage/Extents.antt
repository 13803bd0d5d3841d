-- ===== src/Storage/Extents.antt =====
-- src/storage/storage_def.h (GAMPage) and the parts of src/storage/extent_manager.cpp that work on
-- one GAM page: which extent is handed out, and which bit an extent that is given back stands for.
pub mod Allocate
pub mod Manager
use lettydb.Common.{
  ℕ, zero, suc, ◌+◌, ◌-◌, ◌*◌, ◌/◌, ◌%◌, ◌≤◌, ◌<◌, ◌≡◌, ◌^◌, Bool, true, false, Option, none, some,
  arith, ◌==◌, ltb, leb, if◌then◌else◌, ℤ, pos, negsuc, not, ◌&&◌,
}
use lettydb.Storage.Bitmap.{Bitmap, is_set, set, clear}
use lettydb.Storage.Config.{PageId, extent_size, gam_max_bits, invalid_page_id}

pub record GamPage : Type 0 where
  pub next_page_id : PageId
  pub first_free_bit_hint : ℕ
  pub bitmap : ℕ → ℕ

-- `Bitmap(gam_page.bitmap, GAM_MAX_BITS)`.
abbrev pub bits : GamPage → Bitmap
bits g = record { bytes = g.bitmap; size = gam_max_bits }

unfoldable pub make_gam_page : GamPage
make_gam_page = record { next_page_id = invalid_page_id; first_free_bit_hint = 0; bitmap = λ i. 0 }

-- The first page of an extent, INVALID_PAGE_ID for a full page, or the exception.
pub data Allocation : Type 0 where
  allocated : PageId → Allocation
  full overflow : Allocation

-- The largest page_id_t.
abbrev pub max_page_id : ℕ
max_page_id = 2147483647

abbrev pub extent_page : ℕ → ℕ → ℕ
extent_page chain_index bit_index =
    chain_index * gam_max_bits * extent_size + bit_index * extent_size

unfoldable pub claim_extent_at_bit : ℕ → ℕ → GamPage → Allocation × GamPage
claim_extent_at_bit chain_index bit_index g =
    let h = record g {
      bitmap = (set bit_index (bits g)).bytes;
      first_free_bit_hint = (bit_index + 1) % 65536;
    } in
    if ltb max_page_id (extent_page chain_index bit_index)
    then (overflow, h)
    else (allocated (pos (extent_page chain_index bit_index)), h)

-- The first clear bit from `i` on, among `n`.
unfoldable pub find_clear : Bitmap → ℕ → ℕ → Option ℕ
find_clear m zero i = none
find_clear m (suc n) i = let rest = find_clear m n (suc i) in if is_set m i then rest else some i

unfoldable pub claim_found : ℕ → Option ℕ → GamPage → Allocation × GamPage
claim_found chain_index none g = (full, g)
claim_found chain_index (some bit_index) g = claim_extent_at_bit chain_index bit_index g

-- From the hint to the end, then from 0 to the hint.
unfoldable pub find_extent : ℕ → GamPage → Option ℕ
find_extent hint g = elim (find_clear (bits g) (gam_max_bits - hint) hint) [
  | some bit_index ↦ some bit_index
  | none ↦ find_clear (bits g) hint 0
]

unfoldable pub start_hint : GamPage → ℕ
start_hint g = if leb gam_max_bits g.first_free_bit_hint then 0 else g.first_free_bit_hint

unfoldable pub allocate_extent_in_gam_page : ℕ → GamPage → Allocation × GamPage
allocate_extent_in_gam_page chain_index g = claim_found chain_index (find_extent (start_hint g) g) g

unfoldable pub is_valid_extent_for_deallocation : PageId → Bool
is_valid_extent_for_deallocation (negsuc n) = false
is_valid_extent_for_deallocation (pos n) =
    if not (n % extent_size == 0) then false else not (n == 0)

-- What `deallocate_extent` computes from the first page of an extent.
unfoldable pub gam_page_index : ℕ → ℕ
gam_page_index start_page_id = start_page_id / extent_size / gam_max_bits

unfoldable pub bit_in_gam : ℕ → ℕ
bit_in_gam start_page_id = start_page_id / extent_size % gam_max_bits % 65536

-- What `clear_extent_bit` does to the GAM page.
unfoldable pub release_bit : ℕ → GamPage → GamPage
release_bit bit_index g = record g {
  bitmap = (clear bit_index (bits g)).bytes;
  first_free_bit_hint =
      if ltb bit_index g.first_free_bit_hint then bit_index else g.first_free_bit_hint;
}
