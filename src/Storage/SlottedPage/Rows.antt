-- ===== src/Storage/SlottedPage/Rows.antt =====
-- `insert_tuple` and `get_tuple` of src/storage/slotted_page.cpp together.
use lettydb.Common.{
  ℕ, zero, suc, ◌+◌, ◌-◌, ◌≤◌, ◌<◌, ◌≡◌, ◌≢◌, ◌⊎◌, inl, inr, refl, sym, ◌∙◌, List, Option, none,
  some, arith, ltb, length, Bool-cases,
}
use lettydb.Storage.Bytes.{Buffer, slice, slice_agree}
use lettydb.Storage.SlottedPage.{
  num_slots, free_space_pointer, slot_offset, slot_length, get_free_space, find_deleted,
  place_tuple, insert_at, insert_tuple, get_tuple,
}
use lettydb.Storage.SlottedPage.Layout.{
  directory_end, IsLive, IsValid, row_bytes, row_bytes_same, row_bytes_set, row_bytes_snoc,
}
use lettydb.Storage.SlottedPage.Insert.{Inserted, reuse-Inserted, append-Inserted}

pub IsLive-or_dead : (b : Buffer) (i : ℕ) → IsLive b i ⊎ ((num_slots b ≤ i) ⊎ (slot_length b i ≡ 0))
IsLive-or_dead b i = ground arith

pub get_tuple_live :
    (b : Buffer) (i : ℕ)
    → IsLive b i
    → get_tuple i b ≡ some (slice b (slot_offset b i) (slot_length b i))
unfolding get_tuple
get_tuple_live b i l = ground arith

pub get_tuple_dead :
    (b : Buffer) (i : ℕ) → (num_slots b ≤ i) ⊎ (slot_length b i ≡ 0) → get_tuple i b ≡ none
unfolding get_tuple
get_tuple_dead b i h = ground arith

-- The search for a deleted slot.
pub find_deleted-some :
    (b : Buffer) (n i t : ℕ)
    → find_deleted b n i ≡ some t
    → (i ≤ t) × (t < i + n) × (slot_length b t ≡ 0)
unfolding find_deleted
find_deleted-some b zero i t e = ground arith
find_deleted-some b (suc n) i t e = ground (arith, find_deleted-some b n (suc i) t)

pub find_deleted-none :
    (b : Buffer) (n i t : ℕ) → find_deleted b n i ≡ none → i ≤ t → t < i + n → 0 < slot_length b t
unfolding find_deleted
find_deleted-none b zero i t e h k = omega arith
find_deleted-none b (suc n) i t e h k = ground (arith, find_deleted-none b n (suc i) t)

-- The space for a slot, unless a deleted one is left.
unfoldable pub slot_needed : Option ℕ → ℕ
slot_needed none = 4
slot_needed (some t) = 0

-- What became of a call that asks for `needed` bytes.
unfoldable pub Outcome : ℕ → List ℕ → Buffer → Option ℕ × Buffer → Type 0
Outcome needed row b (none, c) = (get_free_space b < needed) × (c ≡ b)
Outcome needed row b (some t, c) =
    (needed ≤ get_free_space b)
    × Inserted t row b c
    × (directory_end c + length row ≡ directory_end b + needed)

-- What the search says.
unfoldable Usable : Buffer → Option ℕ → Type 0
Usable b none = (j : ℕ) → j < num_slots b → 0 < slot_length b j
Usable b (some t) = (t < num_slots b) × (slot_length b t ≡ 0)

find_deleted-Usable : (b : Buffer) (x : Option ℕ) → find_deleted b (num_slots b) 0 ≡ x → Usable b x
unfolding Usable
find_deleted-Usable b none e =
    λ j h. find_deleted-none b (num_slots b) 0 j e (omega arith) (omega (arith, h))
find_deleted-Usable b (some t) e =
    let h = find_deleted-some b (num_slots b) 0 t e in (omega (arith, h), h.2)

module _ (row : List ℕ) (b : Buffer) (v : IsValid b) where
  pub free_space : get_free_space b ≡ free_space_pointer b - directory_end b
  unfolding get_free_space
  free_space = ground (arith, v.directory)

  insert_at-Outcome :
      (x : Option ℕ) → Usable b x → Outcome (length row + slot_needed x) row b (insert_at x row b)
  unfolding insert_at Outcome slot_needed Usable lettydb.Storage.SlottedPage.append_slot
  insert_at-Outcome none u = elim (Bool-cases (ltb (get_free_space b) (length row + 4))) [
    | inl h ↦ rw (h) (ground arith, refl)
    | inr h ↦
        let ins =
          append-Inserted b row v (ground (arith, free_space, v.directory))
            (ground (arith, free_space, v.directory)) in
        rw (h) (ground arith, ins, ground (arith, ins.slots, u (num_slots (place_tuple row b))))
  ]
  insert_at-Outcome (some t) u = elim (Bool-cases (ltb (get_free_space b) (length row))) [
    | inl h ↦ rw (h) (ground arith, refl)
    | inr h ↦
        let ins = reuse-Inserted b row v (ground (arith, free_space, v.directory)) t u.0 u.1 in
        rw (h) (ground arith, ins, ground (arith, ins.slots, u))
  ]

  pub insert_tuple-Outcome :
      Outcome (length row + slot_needed (find_deleted b (num_slots b) 0)) row b (insert_tuple row b)
  unfolding insert_tuple
  insert_tuple-Outcome =
      let x = find_deleted b (num_slots b) 0 in insert_at-Outcome x (find_deleted-Usable b x refl)

-- The page after an insertion.
module _ (t : ℕ) (row : List ℕ) (b c : Buffer) (v : IsValid b) (ins : Inserted t row b c) where
  -- A live slot is the new one or an old one.
  IsLive-cases : (j : ℕ) → IsLive c j → ((j ≡ t) × (0 < length row)) ⊎ ((j ≢ t) × IsLive b j)
  IsLive-cases j l = ground (arith, ins.slots, ins.new_slot, ins.same_slots j)

  -- The row's bytes are added to those in use.
  row_bytes-Inserted : row_bytes c (num_slots c) 0 ≡ row_bytes b (num_slots b) 0 + length row
  row_bytes-Inserted = elim ins.slots [
    | inl (lt, dead, n) ↦ rw (n) (
        omega (
          arith,
          row_bytes_set b c t (num_slots b) 0 (omega arith) (omega (arith, lt))
              (λ j h d. (ins.same_slots j (omega (arith, h)) d).1),
          dead,
          ins.new_slot,
        ))
    | inr (e, n) ↦
        let new : slot_length c (num_slots b) ≡ length row = rw (← e) ins.new_slot.1 in
        rw (n) (
          ground (
            arith,
            row_bytes_snoc c (num_slots b) 0,
            row_bytes_same b c (num_slots b) 0
                (λ j _ h. (ins.same_slots j (omega (arith, h)) (ground (arith, e, h))).1),
            new,
          ))
  ]

  pub Inserted-IsValid : IsValid c
  Inserted-IsValid = record {
    directory = omega (arith, ins.room, ins.lowered, v.directory);
    in_page = omega (arith, ins.lowered, v.in_page);
    used = omega (arith, row_bytes-Inserted, ins.lowered, ins.room, v.used);
    row_low = λ i l.
        ground (arith, IsLive-cases i l, ins.new_slot, ins.same_slots i, v.row_low i, ins.lowered);
    row_high = λ i l. ground (
      arith,
      IsLive-cases i l,
      ins.new_slot,
      ins.same_slots i,
      v.row_high i,
      ins.lowered,
      ins.room,
      v.in_page,
    );
    apart = λ i j l m d. ground (
      arith,
      IsLive-cases i l,
      IsLive-cases j m,
      ins.new_slot,
      ins.same_slots i,
      ins.same_slots j,
      v.row_low i,
      v.row_low j,
      v.apart i j,
      ins.lowered,
      ins.room,
    );
  }

  pub get_tuple-Inserted : 0 < length row → get_tuple t c ≡ some row
  unfolding get_tuple
  get_tuple-Inserted h = ground (arith, ins.slots, ins.new_slot, ins.new_row)

  pub get_tuple-Inserted_ne : (j : ℕ) → j ≢ t → get_tuple j c ≡ get_tuple j b
  unfolding get_tuple
  get_tuple-Inserted_ne j d = elim (IsLive-or_dead b j) [
    | inl l ↦
        let same = ins.same_slots j l.0 d in
        let bytes =
          slice_agree c b (slot_offset b j) (slot_length b j)
            (λ i h _. ins.same_rows i (omega (arith, h, v.row_low j l))) in
        get_tuple_live c j (ground (arith, same, l, ins.slots))
        ∙ rw (same.0, same.1, bytes) (sym (get_tuple_live b j l))
    | inr n ↦
        get_tuple_dead c j (ground (arith, n, ins.slots, ins.same_slots j))
        ∙ sym (get_tuple_dead b j n)
  ]
