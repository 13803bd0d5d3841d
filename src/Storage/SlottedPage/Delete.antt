-- ===== src/Storage/SlottedPage/Delete.antt =====
-- `delete_tuple` and `is_empty` of src/storage/slotted_page.cpp.
use lettydb.Common.{
  ℕ, zero, suc, ◌+◌, ◌*◌, ◌≤◌, ◌<◌, ◌≡◌, ◌≢◌, ◌⊎◌, inl, inr, refl, sym, ◌∙◌, Bool, true, false,
  none, arith, ◌==◌, ltb, leb, Bool-cases,
}
use lettydb.Storage.Bytes.{
  Buffer, load_u16, store_u16, load_u16-store_u16, load_u16-store_u16_ne, store_u16_ne, slice_agree,
}
use lettydb.Storage.SlottedPage.{
  num_slots_at, slot_length_at, num_slots, free_space_pointer, slot_offset, slot_length,
  all_deleted, is_empty, get_tuple, trim_slots, delete_tuple,
}
use lettydb.Storage.SlottedPage.Layout.{IsLive, IsValid, row_bytes_le}
use lettydb.Storage.SlottedPage.Rows.{IsLive-or_dead, get_tuple_live, get_tuple_dead}

-- Deleted slots at the end of the directory are given up, and nothing else changes.
record Trimmed (n : ℕ) (b c : Buffer) : Type 0 where
  fewer : num_slots c ≤ n
  trimmed : (j : ℕ) → num_slots c ≤ j → j < n → slot_length b j ≡ 0
  bytes : (i : ℕ) → 14 ≤ i → c i ≡ b i
  slots : (j : ℕ) → (slot_offset c j ≡ slot_offset b j) × (slot_length c j ≡ slot_length b j)
  pointer : free_space_pointer c ≡ free_space_pointer b
  last : (k : ℕ) → num_slots c ≡ suc k → 0 < slot_length c k

trim_slots-Trimmed :
    (n : ℕ) (b : Buffer) → n < 65536 → num_slots b ≡ n → Trimmed n b (trim_slots n b)
unfolding trim_slots
trim_slots-Trimmed zero b small e = record {
  fewer = omega (arith, e);
  trimmed = λ j h k. omega (arith, k);
  bytes = λ i h. refl;
  slots = λ j. (refl, refl);
  pointer = refl;
  last = λ k h. omega (arith, h, e);
}
trim_slots-Trimmed (suc n) b small e = elim (Bool-cases (ltb 0 (slot_length b n))) [
  | inl h ↦ rw (h) (record {
    fewer = omega (arith, e);
    trimmed = λ j p q. omega (arith, e, p, q);
    bytes = λ i p. refl;
    slots = λ j. (refl, refl);
    pointer = refl;
    last = λ k p. ground (arith, e, p, h);
  })
  | inr h ↦
      let b' = store_u16 num_slots_at n b in
      let t : Trimmed n b' (trim_slots n b') =
        trim_slots-Trimmed n b' (omega (arith, small))
          (load_u16-store_u16 num_slots_at n b (omega (arith, small))) in
      let ne : (o : ℕ) → 14 ≤ o → load_u16 b' o ≡ load_u16 b o =
        λ o p. load_u16-store_u16_ne num_slots_at o n b (inr (omega (arith, p))) in
      rw (h) (record {
        fewer = omega (arith, t.fewer);
        trimmed = λ j p q. ground (arith, h, p, q, t.trimmed j, ne (slot_length_at j));
        bytes = λ i p. t.bytes i p ∙ store_u16_ne num_slots_at i n b (inr (omega (arith, p)));
        slots = λ j. (
          (t.slots j).0 ∙ ne (16 + 4 * j) (omega arith),
          (t.slots j).1 ∙ ne (18 + 4 * j) (omega arith),
        );
        pointer = t.pointer ∙ ne 14 (omega arith);
        last = t.last;
      })
]

-- A live slot was deleted.
pub record Deleted (i : ℕ) (b c : Buffer) : Type 0 where
  pub fewer : num_slots c ≤ num_slots b
  pub gone : get_tuple i c ≡ none
  pub others : (j : ℕ) → j ≢ i → get_tuple j c ≡ get_tuple j b
  pub pointer : free_space_pointer c ≡ free_space_pointer b
  pub last : (k : ℕ) → num_slots c ≡ suc k → 0 < slot_length c k
  pub valid : IsValid c

module _ (i : ℕ) (b : Buffer) (v : IsValid b) (l : IsLive b i) where
  abbrev marked : Buffer
  marked = store_u16 (slot_length_at i) 0 b

  abbrev after : Buffer
  after = trim_slots (num_slots marked) marked

  marked_ne :
      (o : ℕ)
      → (o + 1 < slot_length_at i) ⊎ (slot_length_at i + 1 < o)
      → load_u16 marked o ≡ load_u16 b o
  marked_ne o h = load_u16-store_u16_ne (slot_length_at i) o 0 b h

  marked_slots : num_slots marked ≡ num_slots b
  marked_slots = marked_ne 12 (inl (omega arith))

  after-Trimmed : Trimmed (num_slots marked) marked after
  after-Trimmed =
      trim_slots-Trimmed (num_slots marked) marked
        (omega (arith, marked_slots, v.directory, v.in_page)) refl

  after_dead : slot_length after i ≡ 0
  after_dead = (after-Trimmed.slots i).1 ∙ load_u16-store_u16 (slot_length_at i) 0 b (omega arith)

  after_same :
      (j : ℕ)
      → j ≢ i
      → (slot_offset after j ≡ slot_offset b j) × (slot_length after j ≡ slot_length b j)
  after_same j d =
      let s = after-Trimmed.slots j in
      (
        s.0 ∙ marked_ne (16 + 4 * j) (omega (arith, d)),
        s.1 ∙ marked_ne (18 + 4 * j) (omega (arith, d)),
      )

  after_shorter : (j : ℕ) → slot_length after j ≤ slot_length b j
  after_shorter j = ground (arith, after_same j, after_dead)

  after_bytes : (o : ℕ) → free_space_pointer b ≤ o → after o ≡ b o
  after_bytes o h =
      after-Trimmed.bytes o (omega (arith, v.directory))
      ∙ store_u16_ne (slot_length_at i) o 0 b (inr (omega (arith, h, l, v.directory)))

  after-IsLive : (j : ℕ) → IsLive after j → (j ≢ i) × IsLive b j
  after-IsLive j m = ground (arith, m, after_dead, after_same j, after-Trimmed.fewer, marked_slots)

  after_others : (j : ℕ) → j ≢ i → get_tuple j after ≡ get_tuple j b
  after_others j d = elim (IsLive-or_dead b j) [
    | inl m ↦
        let same = after_same j d in
        let bytes =
          slice_agree after b (slot_offset b j) (slot_length b j)
            (λ o h _. after_bytes o (omega (arith, h, v.row_low j m))) in
        get_tuple_live after j
          (ground (arith, m, same, after-Trimmed.trimmed j, after-Trimmed.slots j, marked_slots))
        ∙ rw (same.0, same.1, bytes) (sym (get_tuple_live b j m))
    | inr n ↦
        get_tuple_dead after j
          (ground (arith, n, after_same j d, after-Trimmed.fewer, marked_slots))
        ∙ sym (get_tuple_dead b j n)
  ]

  after_pointer : free_space_pointer after ≡ free_space_pointer b
  after_pointer = after-Trimmed.pointer ∙ marked_ne 14 (inl (omega arith))

  after-IsValid : IsValid after
  after-IsValid = record {
    directory = omega (arith, after-Trimmed.fewer, marked_slots, after_pointer, v.directory);
    in_page = omega (arith, after_pointer, v.in_page);
    used = omega (
      arith,
      row_bytes_le b after (num_slots after) (num_slots b) 0
          (omega (arith, after-Trimmed.fewer, marked_slots)) after_shorter,
      after_pointer,
      v.used,
    );
    row_low = λ j m. ground (arith, after-IsLive j m, after_same j, after_pointer, v.row_low j);
    row_high = λ j m. ground (arith, after-IsLive j m, after_same j, v.row_high j);
    apart = λ j k m n d.
        ground
          (arith, d, after-IsLive j m, after-IsLive k n, after_same j, after_same k, v.apart j k);
  }

  pub after-Deleted : Deleted i b after
  after-Deleted = record {
    fewer = omega (arith, after-Trimmed.fewer, marked_slots);
    gone = get_tuple_dead after i (inr after_dead);
    others = after_others;
    pointer = after_pointer;
    last = after-Trimmed.last;
    valid = after-IsValid;
  }

-- What `delete_tuple` promises.
unfoldable pub Deletion : ℕ → Buffer → Bool × Buffer → Type 0
Deletion i b (false, c) = (get_tuple i b ≡ none) × (c ≡ b)
Deletion i b (true, c) = (get_tuple i b ≢ none) × Deleted i b c

-- On a well-formed page, `delete_tuple` returns false and changes nothing if the slot number has no
-- row; else it returns true, the slot number has no row any more, every other slot number reads as
-- before, the free-space pointer stays, the last slot of the directory is not a deleted one, and
-- the page stays well formed.
pub delete_tuple-Deletion : (i : ℕ) (b : Buffer) → IsValid b → Deletion i b (delete_tuple i b)
unfolding delete_tuple Deletion
delete_tuple-Deletion i b v = elim (Bool-cases (leb (num_slots b) i)) [
  | inl h ↦ rw (h) (get_tuple_dead b i (ground arith), refl)
  | inr h ↦ rw (h) (elim (Bool-cases (slot_length b i == 0)) [
    | inl k ↦ rw (k) (get_tuple_dead b i (ground arith), refl)
    | inr k ↦ rw (k) (
      (λ e. ground (arith, e, get_tuple_live b i (ground arith))),
      after-Deleted i b v (ground arith),
    )
  ])
]

all_deleted-get_tuple :
    (b : Buffer) (n i : ℕ)
    → i + n ≡ num_slots b
    → all_deleted b n i ≡ true
    → (j : ℕ) → i ≤ j
    → get_tuple j b ≡ none
unfolding all_deleted
all_deleted-get_tuple b zero i e h j le = get_tuple_dead b j (inl (omega arith))
all_deleted-get_tuple b (suc n) i e h j le = elim (Bool-cases (ltb 0 (slot_length b i))) [
  | inl l ↦ ground arith
  | inr l ↦ elim (Bool-cases (j == i)) [
    | inl q ↦ get_tuple_dead b j (inr (ground arith))
    | inr q ↦ all_deleted-get_tuple b n (suc i) (omega (arith, e)) (ground arith) j (ground arith)
  ]
]

get_tuple-all_deleted :
    (b : Buffer) (n i : ℕ) → i + n ≡ num_slots b → all_deleted b n i ≡ false → (j : ℕ) × IsLive b j
unfolding all_deleted
get_tuple-all_deleted b zero i e h = ground arith
get_tuple-all_deleted b (suc n) i e h = elim (Bool-cases (ltb 0 (slot_length b i))) [
  | inl l ↦ (i, (omega (arith, e), ground arith))
  | inr l ↦ get_tuple-all_deleted b n (suc i) (omega (arith, e)) (ground arith)
]

-- `is_empty` returns true exactly when no slot number has a row.
pub is_empty_iff :
    (b : Buffer)
    → (is_empty b ≡ true → (j : ℕ) → get_tuple j b ≡ none)
      × (((j : ℕ) → get_tuple j b ≡ none) → is_empty b ≡ true)
unfolding is_empty
is_empty_iff b = (
  (λ h j. all_deleted-get_tuple b (num_slots b) 0 (omega arith) h j (omega arith)),
  λ h. elim (Bool-cases (all_deleted b (num_slots b) 0)) [
    | inl e ↦ e
    | inr e ↦
        let w = get_tuple-all_deleted b (num_slots b) 0 (omega arith) e in
        ground (arith, h w.0, get_tuple_live b w.0 w.1)
  ],
)
