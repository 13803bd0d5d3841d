-- ===== src/Storage/Config.antt =====
-- src/storage/config.h: the constants of the page format. `page_id_t` is an int32_t, here ℤ.
use lettydb.Common.{ℕ, ◌*◌, ◌/◌, ◌-◌, ℤ, pos, negsuc}

abbrev pub PageId : Type 0
PageId = ℤ

abbrev pub page_size : ℕ
page_size = 4096

-- Pages in an extent.
abbrev pub extent_size : ℕ
extent_size = 8

abbrev pub invalid_page_id : PageId
invalid_page_id = negsuc 0

abbrev pub header_page_id : PageId
header_page_id = pos 0

abbrev pub first_gam_page_id : PageId
first_gam_page_id = pos 8

abbrev pub gam_bitmap_array_size : ℕ
gam_bitmap_array_size = page_size - 6

abbrev pub gam_max_bits : ℕ
gam_max_bits = gam_bitmap_array_size * 8

abbrev pub iam_page_header_size : ℕ
iam_page_header_size = 8

abbrev pub iam_max_extents : ℕ
iam_max_extents = (page_size - iam_page_header_size) / 4
