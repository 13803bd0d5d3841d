-- ===== src/Storage/SlottedPage/Compact.antt =====
-- `SlottedPage::init` and `compact` of src/storage/slotted_page.cpp.
use lettydb.Common.{
  ℕ, suc, ◌+◌, ◌-◌, ◌*◌, ◌≤◌, ◌<◌, ◌≡◌, refl, sym, ap, ◌∙◌, List, [], ◌∷◌, ◌++◌, Bool, true, false,
  Option, none, some, arith, length,
}
use mathlib.Core.List.{append-nil, append_assoc}
use lettydb.Storage.Bytes.{Buffer, load_u16, store_u16, slice, slice_agree}
use lettydb.Storage.SlottedPage.{
  num_slots, free_space_pointer, slot_offset, slot_length, get_free_space, insert_tuple, init,
  find_deleted, live_tuples, insert_all, rebuild, compact,
}
use lettydb.Storage.SlottedPage.Layout.{directory_end, IsValid, row_bytes}
use lettydb.Storage.SlottedPage.RowList.{
  live_tuples_agree, live_tuples_snoc, rows_of, page_rows, live_tuples-found_rows, total_length,
  total_length-live_tuples, length-live_tuples, NonemptyRows, live_tuples-NonemptyRows,
}
use lettydb.Storage.SlottedPage.Insert.{Inserted}
use lettydb.Storage.SlottedPage.Rows.{
  find_deleted-some, find_deleted-none, free_space, slot_needed, Outcome, insert_tuple-Outcome,
  Inserted-IsValid,
}

-- A fresh page is well formed and has no slots, whatever the buffer held.
pub init-Fresh :
    (b : Buffer) → IsValid (init b) × (num_slots (init b) ≡ 0) × (get_free_space (init b) ≡ 4080)
unfolding init get_free_space load_u16 store_u16 row_bytes
init-Fresh b = (
  record {
    directory = omega arith;
    in_page = omega arith;
    row_low = λ i l. ground (arith, l.0);
    row_high = λ i l. ground (arith, l.0);
    used = omega arith;
    apart = λ i j l m d. ground (arith, l.0);
  },
  refl,
  refl,
)

-- A page without deleted slots.
pub record IsPacked (b : Buffer) : Type 0 where
  pub valid : IsValid b
  pub all_live : (j : ℕ) → j < num_slots b → 0 < slot_length b j

-- A row that is added to such a page.
record Added (row : List ℕ) (b c : Buffer) : Type 0 where
  packed : IsPacked c
  more : num_slots c ≡ num_slots b + 1
  lowered : free_space_pointer c ≡ free_space_pointer b - length row
  rows : rows_of c ≡ rows_of b ++ row ∷ []

module _ (row : List ℕ) (b : Buffer) (pk : IsPacked b) (full : 0 < length row)
    (room : length row + directory_end b + 4 ≤ free_space_pointer b) where
  Inserted-Added : (t : ℕ) (c : Buffer) → Inserted t row b c → Added row b c
  Inserted-Added t c ins =
      let e : t ≡ num_slots b = ground (arith, ins.slots, pk.all_live t) in
      let n : num_slots c ≡ num_slots b + 1 = ground (arith, ins.slots, pk.all_live t) in
      record {
        packed = record {
          valid = Inserted-IsValid t row b c pk.valid ins;
          all_live = λ j h. ground (arith, n, e, h, ins.same_slots j, pk.all_live j, ins.new_slot);
        };
        more = n;
        lowered = ins.lowered;
        rows =
            let k = num_slots b in
            let size : slot_length c k ≡ length row = rw (← e) ins.new_slot.1 in
            let offset : slot_offset c k ≡ free_space_pointer c = rw (← e) ins.new_slot.0 in
            let new : slice c (slot_offset c k) (slot_length c k) ≡ row =
              rw (offset, size) ins.new_row in
            let old : live_tuples c k 0 ≡ live_tuples b k 0 = live_tuples_agree b c k 0 (λ j _ h.
              let same = ins.same_slots j (omega (arith, h)) (ground (arith, e, h)) in
              (
                same.1,
                λ l.
                    rw (same.0, same.1)
                      (slice_agree c b (slot_offset b j) (slot_length b j) (λ o p _.
                        ins.same_rows o
                          (omega (arith, p, pk.valid.row_low j (omega (arith, h), l))))),
              )) in
            let one : num_slots c ≡ suc k = omega (arith, n) in
            rw (one) (
              live_tuples_snoc c k 0 k (omega arith) (omega (arith, size, full))
              ∙ rw (old, new) refl);
      }

  Outcome-Added :
      (needed : ℕ) (r : Option ℕ × Buffer)
      → needed ≤ get_free_space b
      → Outcome needed row b r
      → Added row b r.1
  unfolding Outcome
  Outcome-Added needed (none, c) h o = ground (arith, h, o.0)
  Outcome-Added needed (some t, c) h o = Inserted-Added t c o.1

  slot_needed_le : (x : Option ℕ) → slot_needed x ≤ 4
  unfolding slot_needed
  slot_needed_le none = omega arith
  slot_needed_le (some t) = omega arith

  insert_tuple-Added : Added row b (insert_tuple row b).1
  insert_tuple-Added =
      let x = find_deleted b (num_slots b) 0 in
      Outcome-Added (length row + slot_needed x) (insert_tuple row b)
        (omega (arith, slot_needed_le x, free_space row b pk.valid, room))
        (insert_tuple-Outcome row b pk.valid)

-- Rows that are added in turn.
record AllAdded (rows : List (List ℕ)) (b c : Buffer) : Type 0 where
  packed : IsPacked c
  more : num_slots c ≡ num_slots b + length rows
  lowered : free_space_pointer c + total_length rows ≡ free_space_pointer b
  rows_after : rows_of c ≡ rows_of b ++ rows

insert_all-AllAdded :
    (rows : List (List ℕ)) (b : Buffer)
    → IsPacked b
    → NonemptyRows rows
    → total_length rows + 4 * length rows + directory_end b ≤ free_space_pointer b
    → AllAdded rows b (insert_all rows b)
unfolding insert_all NonemptyRows total_length
insert_all-AllAdded [] b pk ne room = record {
  packed = pk;
  more = omega arith;
  lowered = omega arith;
  rows_after = sym (append-nil (rows_of b));
}
insert_all-AllAdded (row ∷ rows) b pk (full, ne) room =
    let c = (insert_tuple row b).1 in
    let one = insert_tuple-Added row b pk full (omega (arith, room)) in
    let rest =
      insert_all-AllAdded rows c one.packed ne (omega (arith, room, one.more, one.lowered)) in
    record {
      packed = rest.packed;
      more = omega (arith, rest.more, one.more);
      lowered = omega (arith, rest.lowered, one.lowered, room);
      rows_after = rest.rows_after ∙ rw (one.rows) (append_assoc (rows_of b) (row ∷ []) rows);
    }

-- The rows as `compact` saves them.
record Rebuilt (b c : Buffer) : Type 0 where
  packed : IsPacked c
  same_rows : rows_of c ≡ rows_of b
  slots : num_slots c ≡ length (rows_of b)
  free : get_free_space c + total_length (rows_of b) + 4 * length (rows_of b) ≡ 4080

-- What `compact` promises.
pub record Compacted (b c : Buffer) : Type 0 where
  pub packed : IsPacked c
  pub same_rows : page_rows c ≡ page_rows b
  pub slots : num_slots c ≡ length (page_rows b)
  pub free : get_free_space c + total_length (page_rows b) + 4 * length (page_rows b) ≡ 4080

unfoldable pub Compaction : Buffer → Bool × Buffer → Type 0
Compaction b (false, c) = IsPacked b × (c ≡ b)
Compaction b (true, c) = ((i : ℕ) × (i < num_slots b) × (slot_length b i ≡ 0)) × Compacted b c

rows_of_empty : (c : Buffer) → num_slots c ≡ 0 → rows_of c ≡ []
unfolding live_tuples
rows_of_empty c e = rw (e) refl

insert_all-Rebuilt : (b : Buffer) → IsValid b → Rebuilt b (insert_all (rows_of b) (init b))
insert_all-Rebuilt b v =
    let rows = rows_of b in
    let c = insert_all rows (init b) in
    let size = total_length-live_tuples b (num_slots b) 0 in
    let count = length-live_tuples b (num_slots b) 0 in
    let fresh = init-Fresh b in
    let pointer = free_space [] (init b) fresh.0 in
    let pk : IsPacked (init b) = record {
      valid = fresh.0;
      all_live = λ j h. omega (arith, h, fresh.1);
    } in
    let built : AllAdded rows (init b) c =
      insert_all-AllAdded rows (init b) pk (live_tuples-NonemptyRows b (num_slots b) 0)
        (omega (arith, size, count, fresh.1, fresh.2, pointer, v.used, v.directory)) in
    let none_before : rows_of (init b) ≡ [] = rows_of_empty (init b) fresh.1 in
    record {
      packed = built.packed;
      same_rows = built.rows_after ∙ rw (none_before) refl;
      slots = omega (arith, built.more, fresh.1);
      free = omega (
        arith,
        free_space [] c built.packed.valid,
        built.packed.valid.directory,
        built.lowered,
        built.more,
        fresh.1,
        fresh.2,
        pointer,
        fresh.0.directory,
      );
    }

same_page_rows : (b : Buffer) → rows_of b ≡ page_rows b
same_page_rows b = live_tuples-found_rows b (num_slots b) 0 (omega arith)

rebuilt-Compacted : (b : Buffer) → IsValid b → Compacted b (insert_all (rows_of b) (init b))
rebuilt-Compacted b v =
    let c = insert_all (rows_of b) (init b) in
    let r = insert_all-Rebuilt b v in
    record {
      packed = r.packed;
      same_rows = sym (same_page_rows c) ∙ (r.same_rows ∙ same_page_rows b);
      slots = r.slots ∙ ap (λ rows. length rows) (same_page_rows b);
      free = rw (← same_page_rows b) r.free;
    }

rebuild-Compaction :
    (b : Buffer) (x : Option ℕ)
    → IsValid b
    → find_deleted b (num_slots b) 0 ≡ x
    → Compaction b (rebuild x b)
unfolding rebuild Compaction
rebuild-Compaction b none v e = (
  record {
    valid = v;
    all_live = λ j h. find_deleted-none b (num_slots b) 0 j e (omega arith) (omega (arith, h));
  },
  refl,
)
rebuild-Compaction b (some i) v e =
    let found = find_deleted-some b (num_slots b) 0 i e in
    ((i, omega (arith, found), found.2), rebuilt-Compacted b v)

-- On a well-formed page, `compact` returns false and changes nothing if every slot has a row; else
-- it returns true, and `get_tuple` then finds the same rows in the same order, with one slot for
-- each and no deleted one; the free space is all that the header, the slots and the rows leave, and
-- the page is well formed.
pub compact-Compaction : (b : Buffer) → IsValid b → Compaction b (compact b)
unfolding compact
compact-Compaction b v = rebuild-Compaction b (find_deleted b (num_slots b) 0) v refl
