-- ===== src/Storage/Extents/Allocate.antt =====
-- Which bit a GAM page gives away (src/storage/extent_manager.cpp).
use lettydb.Common.{
  ℕ, zero, suc, ◌+◌, ◌-◌, ◌%◌, ◌≤◌, ◌<◌, ◌≡◌, inl, inr, refl, ◌∙◌, Bool, true, false, Option, none,
  some, arith, ◌==◌, ltb, if◌then◌else◌, pos, Bool-cases, Option-cases, ap,
}
use lettydb.Storage.Bitmap.{Bitmap, is_set, set, is_set-set, is_set-clear, set_size, clear_size}
use lettydb.Storage.Config.{gam_max_bits}
use lettydb.Storage.Extents.{
  GamPage, bits, Allocation, allocated, full, overflow, max_page_id, extent_page,
  claim_extent_at_bit, find_clear, claim_found, find_extent, start_hint,
  allocate_extent_in_gam_page, is_valid_extent_for_deallocation, gam_page_index, bit_in_gam,
  release_bit,
}

-- Extent `i` of the page is allocated.
abbrev pub taken : GamPage → ℕ → Bool
taken g i = is_set (bits g) i

find_clear-some :
    (m : Bitmap) (n i b : ℕ)
    → find_clear m n i ≡ some b
    → (i ≤ b) × (b < i + n) × (is_set m b ≡ false)
unfolding find_clear
find_clear-some m zero i b e = ground arith
find_clear-some m (suc n) i b e = ground (arith, find_clear-some m n (suc i) b)

find_clear-none :
    (m : Bitmap) (n i b : ℕ) → find_clear m n i ≡ none → i ≤ b → b < i + n → is_set m b ≡ true
unfolding find_clear
find_clear-none m zero i b e p q = ground arith
find_clear-none m (suc n) i b e p q = ground (arith, find_clear-none m n (suc i) b)

-- What a search says.
unfoldable Searched : GamPage → Option ℕ → Type 0
Searched g none = (i : ℕ) → i < gam_max_bits → taken g i ≡ true
Searched g (some b) = (b < gam_max_bits) × (taken g b ≡ false)

start_hint_lt : (g : GamPage) → start_hint g < gam_max_bits
unfolding start_hint
start_hint_lt g = ground arith

find_extent-Searched :
    (hint : ℕ) (g : GamPage) → hint < gam_max_bits → Searched g (find_extent hint g)
unfolding find_extent Searched
find_extent-Searched hint g h =
    elim (Option-cases (find_clear (bits g) (gam_max_bits - hint) hint)) [
      | inr (b, e) ↦
          rw (e, find_extent)
            (ground (arith, h, find_clear-some (bits g) (gam_max_bits - hint) hint b e))
      | inl e ↦ elim (Option-cases (find_clear (bits g) hint 0)) [
        | inr (b, f) ↦
            rw (e, f, find_extent) (ground (arith, h, find_clear-some (bits g) hint 0 b f))
        | inl f ↦
            rw (e, f, find_extent)
              (λ i lt. elim (Bool-cases (ltb i hint)) [
                | inl l ↦ find_clear-none (bits g) hint 0 i f (omega arith) (ground arith)
                | inr l ↦
                    find_clear-none (bits g) (gam_max_bits - hint) hint i e (ground arith)
                      (omega (arith, lt, h))
              ])
      ]
    ]

-- Extent `b` of the page, which was free, is allocated now, and no other one changes.
pub record Claimed (chain_index b : ℕ) (g h : GamPage) : Type 0 where
  pub in_page : b < gam_max_bits
  pub was_free : taken g b ≡ false
  pub now_taken : (i : ℕ) → taken h i ≡ (if b == i then true else taken g i)
  pub same_link : h.next_page_id ≡ g.next_page_id
  pub next_hint : h.first_free_bit_hint ≡ b + 1

claim_extent_at_bit-Claimed :
    (c b : ℕ) (g : GamPage)
    → b < gam_max_bits
    → taken g b ≡ false
    → Claimed c b g (claim_extent_at_bit c b g).1
unfolding claim_extent_at_bit
claim_extent_at_bit-Claimed c b g lt free = elim (Bool-cases (ltb max_page_id (extent_page c b))) [
  | inl h ↦ rw (h, claim_extent_at_bit) claimed
  | inr h ↦ rw (h, claim_extent_at_bit) claimed
]
  where
    claimed :
        Claimed c b g
          (record g { bitmap = (set b (bits g)).bytes; first_free_bit_hint = (b + 1) % 65536 })
    claimed = record {
      in_page = lt;
      was_free = free;
      now_taken = λ i. ap (λ m. is_set m i) (set_size b (bits g)) ∙ is_set-set b i (bits g) lt;
      same_link = refl;
      next_hint = omega (arith, lt);
    }

-- What an allocation in a page comes to.
unfoldable pub Allocated : ℕ → GamPage → Allocation × GamPage → Type 0
Allocated chain_index g (allocated p, h) =
    (b : ℕ) × (p ≡ pos (extent_page chain_index b))
    × (extent_page chain_index b ≤ max_page_id)
    × Claimed chain_index b g h
Allocated chain_index g (full, h) = (h ≡ g) × ((i : ℕ) → i < gam_max_bits → taken g i ≡ true)
Allocated chain_index g (overflow, h) =
    (b : ℕ) × (b < gam_max_bits) × (max_page_id < extent_page chain_index b)

claim_found-Allocated :
    (c : ℕ) (x : Option ℕ) (g : GamPage) → Searched g x → Allocated c g (claim_found c x g)
unfolding claim_found Allocated Searched claim_extent_at_bit
claim_found-Allocated c none g s = (refl, s)
claim_found-Allocated c (some b) g s = elim (Bool-cases (ltb max_page_id (extent_page c b))) [
  | inl h ↦ rw (h) (b, s.0, ground arith)
  | inr h ↦ rw (h) (
    b,
    refl,
    ground arith,
    rw (h, claim_extent_at_bit) at (claim_extent_at_bit-Claimed c b g s.0 s.1),
  )
]

-- A call of `allocate_extent_in_gam_page` hands out the extent of a bit that was clear, sets this
-- bit and no other, keeps the link of the page and puts the hint behind the bit; or the page is
-- full, with every bit set, and stays; or the page id would exceed the largest one. The id that is
-- handed out is that of the first page of the extent, from the position of the GAM page in the
-- chain.
pub allocate_extent_in_gam_page-Allocated :
    (chain_index : ℕ) (g : GamPage)
    → Allocated chain_index g (allocate_extent_in_gam_page chain_index g)
unfolding allocate_extent_in_gam_page
allocate_extent_in_gam_page-Allocated c g =
    claim_found-Allocated c (find_extent (start_hint g) g) g
      (find_extent-Searched (start_hint g) g (start_hint_lt g))

-- For a bit within a GAM page, the page id of its extent leads `deallocate_extent` back to the
-- position of the GAM page in the chain and to the bit, and passes its check exactly if it is not
-- extent 0.
pub deallocate_target :
    (chain_index b : ℕ)
    → b < gam_max_bits
    → (gam_page_index (extent_page chain_index b) ≡ chain_index)
      × (bit_in_gam (extent_page chain_index b) ≡ b)
      × (is_valid_extent_for_deallocation (pos (extent_page chain_index b))
          ≡ (if (chain_index + b) == 0 then false else true))
unfolding gam_page_index bit_in_gam is_valid_extent_for_deallocation
deallocate_target c b h = (omega (arith, h), omega (arith, h), ground (arith, h))

-- Giving back what was claimed restores every bit.
release_bit-Claimed :
    (chain_index b : ℕ) (g h : GamPage)
    → Claimed chain_index b g h
    → (i : ℕ) → taken (release_bit b h) i ≡ taken g i
unfolding release_bit
release_bit-Claimed c b g h k i =
    ap (λ m. is_set m i) (clear_size b (bits h))
    ∙ ground (arith, is_set-clear b i (bits h) k.in_page, k.now_taken i, k.was_free)

-- For a bit within a GAM page that is clear, claiming its extent and giving it back leaves every
-- bit of the page as it was.
pub release_bit-claim_extent_at_bit :
    (chain_index b : ℕ) (g : GamPage)
    → b < gam_max_bits
    → taken g b ≡ false
    → (i : ℕ) → taken (release_bit b (claim_extent_at_bit chain_index b g).1) i ≡ taken g i
release_bit-claim_extent_at_bit c b g lt free =
    release_bit-Claimed c b g (claim_extent_at_bit c b g).1
      (claim_extent_at_bit-Claimed c b g lt free)
