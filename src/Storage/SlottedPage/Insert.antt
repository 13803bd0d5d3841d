-- ===== src/Storage/SlottedPage/Insert.antt =====
-- `insert_tuple` of src/storage/slotted_page.cpp: where the row goes, and what stays.
use lettydb.Common.{ℕ, ◌+◌, ◌-◌, ◌≤◌, ◌<◌, ◌≡◌, ◌≢◌, ◌⊎◌, inl, inr, sym, ◌∙◌, List, arith, length}
use lettydb.Storage.Bytes.{
  Buffer, load_u16, store_u16, slice, load_u16-store_u16, load_u16-store_u16_ne, store_u16_ne,
  slice_agree, load_u16_agree,
}
use lettydb.Storage.SlottedPage.{
  num_slots_at, slot_offset_at, slot_length_at, num_slots, free_space_pointer, slot_offset,
  slot_length, place_tuple, write_slot, append_slot,
}
use lettydb.Storage.SlottedPage.Layout.{
  directory_end, IsValid, place_tuple_ne, free_space_pointer-place_tuple, slice-place_tuple,
  load_u16-place_tuple,
}

-- The row stands in slot `t`, right below the other rows; nothing else that counts has changed.
pub record Inserted (t : ℕ) (row : List ℕ) (b c : Buffer) : Type 0 where
  pub slots :
      ((t < num_slots b) × (slot_length b t ≡ 0) × (num_slots c ≡ num_slots b))
      ⊎ ((t ≡ num_slots b) × (num_slots c ≡ num_slots b + 1))
  pub room : length row + directory_end c ≤ free_space_pointer b
  pub lowered : free_space_pointer c ≡ free_space_pointer b - length row
  pub new_slot : (slot_offset c t ≡ free_space_pointer c) × (slot_length c t ≡ length row)
  pub same_slots :
      (j : ℕ)
      → j < num_slots b
      → j ≢ t
      → (slot_offset c j ≡ slot_offset b j) × (slot_length c j ≡ slot_length b j)
  pub same_rows : (i : ℕ) → free_space_pointer b ≤ i → c i ≡ b i
  pub new_row : slice c (free_space_pointer c) (length row) ≡ row

-- A slot is written.
module _ (t n : ℕ) (c : Buffer) (small : n < 65536) (low : free_space_pointer c < 65536) where
  abbrev with_offset : Buffer
  with_offset = store_u16 (slot_offset_at t) (free_space_pointer c) c

  write_slot_new :
      (slot_offset (write_slot t n c) t ≡ free_space_pointer c)
      × (slot_length (write_slot t n c) t ≡ n)
  unfolding write_slot
  write_slot_new = (
    load_u16-store_u16_ne (slot_length_at t) (slot_offset_at t) n with_offset (inl (omega arith))
        ∙ load_u16-store_u16 (slot_offset_at t) (free_space_pointer c) c low,
    load_u16-store_u16 (slot_length_at t) n with_offset small,
  )

  write_slot_ne :
      (i : ℕ) → (i < slot_offset_at t) ⊎ (slot_offset_at t + 4 ≤ i) → write_slot t n c i ≡ c i
  unfolding write_slot
  write_slot_ne i h = ground (
    arith,
    store_u16_ne (slot_length_at t) i n with_offset,
    store_u16_ne (slot_offset_at t) i (free_space_pointer c) c,
  )

  load_u16-write_slot :
      (o : ℕ)
      → (o + 1 < slot_offset_at t) ⊎ (slot_offset_at t + 4 ≤ o)
      → load_u16 (write_slot t n c) o ≡ load_u16 c o
  load_u16-write_slot o h =
      load_u16_agree (write_slot t n c) c o (write_slot_ne o (ground arith))
        (write_slot_ne (o + 1) (ground arith))

module _ (b : Buffer) (row : List ℕ) (v : IsValid b)
    (fits : length row + directory_end b ≤ free_space_pointer b) where
  abbrev placed : Buffer
  placed = place_tuple row b

  row_small : length row < 65536
  row_small = omega (arith, v.in_page)

  pointer : free_space_pointer placed ≡ free_space_pointer b - length row
  pointer = free_space_pointer-place_tuple b row v fits

  pointer_small : free_space_pointer placed < 65536
  pointer_small = omega (arith, pointer, v.in_page)

  placed-row : slice placed (free_space_pointer placed) (length row) ≡ row
  placed-row = rw (pointer) (slice-place_tuple b row v fits)

  -- A deleted slot is used again.
  pub reuse-Inserted :
      (t : ℕ)
      → t < num_slots b
      → slot_length b t ≡ 0
      → Inserted t row b (write_slot t (length row) placed)
  reuse-Inserted t lt dead =
      let w = load_u16-write_slot t (length row) placed row_small pointer_small in
      let p = load_u16-place_tuple b row v fits in
      let n : num_slots (write_slot t (length row) placed) ≡ num_slots b =
        w 12 (inl (omega arith)) ∙ p 12 (inl (omega arith)) in
      let f : free_space_pointer (write_slot t (length row) placed) ≡ free_space_pointer placed =
        w 14 (inl (omega arith)) in
      let new = write_slot_new t (length row) placed row_small pointer_small in
      record {
        slots = inl (lt, dead, n);
        room = omega (arith, n, fits);
        lowered = f ∙ pointer;
        new_slot = (new.0 ∙ sym f, new.1);
        same_slots = λ j h d. (
          w (slot_offset_at j) (omega arith) ∙ p (slot_offset_at j) (inr (omega arith)),
          w (slot_length_at j) (omega arith) ∙ p (slot_length_at j) (inr (omega arith)),
        );
        same_rows = λ i h.
            write_slot_ne t (length row) placed row_small pointer_small i
              (inr (omega (arith, v.directory)))
            ∙ place_tuple_ne b row v fits i (inr (inr h));
        new_row = rw (f) (
            slice_agree (write_slot t (length row) placed) placed (free_space_pointer placed)
              (length row)
              (λ i h _.
                write_slot_ne t (length row) placed row_small pointer_small i
                  (inr (omega (arith, pointer, fits, h))))
            ∙ placed-row);
      }

  load_u16-appended :
      (c : Buffer) (o : ℕ)
      → (o < 11) ⊎ (13 < o)
      → load_u16 (store_u16 num_slots_at (num_slots c + 1) c) o ≡ load_u16 c o
  load_u16-appended c o h = load_u16-store_u16_ne num_slots_at o (num_slots c + 1) c (ground arith)

  -- The directory grows by a slot.
  pub append-Inserted :
      length row + directory_end b + 4 ≤ free_space_pointer b
      → Inserted (num_slots placed) row b (append_slot (length row) placed).1
  unfolding append_slot
  append-Inserted room =
      let k = num_slots placed in
      let p = load_u16-place_tuple b row v fits in
      let n : k ≡ num_slots b = p 12 (inl (omega arith)) in
      let c = write_slot k (length row) placed in
      let w = load_u16-write_slot k (length row) placed row_small pointer_small in
      let new = write_slot_new k (length row) placed row_small pointer_small in
      let u = load_u16-appended c in
      let m : num_slots c ≡ num_slots b = w 12 (inl (omega arith)) ∙ n in
      let more : num_slots (store_u16 num_slots_at (num_slots c + 1) c) ≡ num_slots b + 1 =
        load_u16-store_u16 num_slots_at (num_slots c + 1) c
          (omega (arith, m, v.directory, v.in_page))
        ∙ omega (arith, m) in
      let f : free_space_pointer (store_u16 num_slots_at (num_slots c + 1) c)
          ≡ free_space_pointer placed =
        u 14 (inr (omega arith)) ∙ w 14 (inl (omega arith)) in
      record {
        slots = inr (n, more);
        room = omega (arith, more, room);
        lowered = f ∙ pointer;
        new_slot = (
          u (slot_offset_at k) (inr (omega arith)) ∙ new.0 ∙ sym f,
          u (slot_length_at k) (inr (omega arith)) ∙ new.1,
        );
        same_slots = λ j h _. (
          u (slot_offset_at j) (inr (omega arith))
              ∙ w (slot_offset_at j) (inl (omega (arith, n)))
              ∙ p (slot_offset_at j) (inr (omega arith)),
          u (slot_length_at j) (inr (omega arith))
              ∙ w (slot_length_at j) (inl (omega (arith, n)))
              ∙ p (slot_length_at j) (inr (omega arith)),
        );
        same_rows = λ i h.
            store_u16_ne num_slots_at i (num_slots c + 1) c (inr (omega (arith, v.directory)))
            ∙ write_slot_ne k (length row) placed row_small pointer_small i
                (inr (omega (arith, n, room)))
            ∙ place_tuple_ne b row v fits i (inr (inr h));
        new_row = rw (f) (
            slice_agree (store_u16 num_slots_at (num_slots c + 1) c) placed
              (free_space_pointer placed) (length row)
              (λ i h _.
                store_u16_ne num_slots_at i (num_slots c + 1) c
                  (inr (omega (arith, v.directory, pointer, room, h)))
                ∙ write_slot_ne k (length row) placed row_small pointer_small i
                    (inr (omega (arith, n, pointer, room, h))))
            ∙ placed-row);
      }
