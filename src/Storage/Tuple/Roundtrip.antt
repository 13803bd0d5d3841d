-- ===== src/Storage/Tuple/Roundtrip.antt =====
-- `deserialize` gives back what `serialize` wrote (src/storage/tuple.cpp).
use lettydb.Common.{
  ℕ, suc, ◌+◌, ◌/◌, ◌%◌, ◌^◌, ◌≤◌, ◌<◌, ◌≡◌, ◌⊎◌, inl, inr, refl, sym, subst, ◌∙◌, List, [], ◌∷◌,
  Bool, true, false, none, some, arith, ◌==◌, ltb, leb, if◌then◌else◌, length, ap,
}
use lettydb.Storage.Bytes.{
  Buffer, slice, slice_agree, copy_bytes, copy_bytes_ne, slice-copy_bytes, clear_bytes,
}
use lettydb.Storage.Bitmap.{test_bit}
use lettydb.Storage.Tuple.{
  Column, Value, null_value, size_of, total_size, mark_nulls, write_fields, serialize_sized,
  serialize, read_fields, deserialize, is_null_bit_set, null_bitmap_size,
}
use lettydb.Storage.Tuple.Nulls.{
  is_null, is_null-null, null_marked, Marked, mark_nulls-Marked, Marked-agree, test_bit_zero,
}
use lettydb.Storage.Tuple.Fields.{Typed, Field, Typed-Field}

-- A row that fits the columns.
pub data TypedRow : List Column → List Value → Type 0 where
  done : TypedRow [] []
  field :
      {c : Column} {cs : List Column} {v : Value} {vs : List Value}
      → Typed c.data_type c.length v
      → TypedRow cs vs
      → TypedRow (c ∷ cs) (v ∷ vs)

abbrev field_of :
    {c : Column} {v : Value} → Typed c.data_type c.length v → Field c.data_type c.length v
field_of {c} {v} t = Typed-Field c.data_type c.length v t

-- The bytes of the fields.
fields_size : {cs : List Column} {vs : List Value} → TypedRow cs vs → ℕ
fields_size done = 0
fields_size (field t ts) = (field_of t).size + fields_size ts

-- The bytes of the values, from the code's own sizes.
unfoldable pub row_size : List Column → List Value → ℕ
row_size (c ∷ cs) (v ∷ vs) = elim (size_of c.data_type c.length v) [
  | none ↦ row_size cs vs
  | some n ↦ n + row_size cs vs
]
row_size cs vs = 0

fields_size-row_size :
    {cs : List Column} {vs : List Value} (r : TypedRow cs vs) → fields_size r ≡ row_size cs vs
unfolding fields_size row_size
fields_size-row_size done = refl
fields_size-row_size (field t ts) =
    rw ((field_of t).sized, row_size) (ap (λ n. (field_of t).size + n) (fields_size-row_size ts))

length-TypedRow : {cs : List Column} {vs : List Value} → TypedRow cs vs → length vs ≡ length cs
length-TypedRow done = refl
length-TypedRow (field t ts) = ap suc (length-TypedRow ts)

total_size-TypedRow :
    {cs : List Column} {vs : List Value} (r : TypedRow cs vs) (acc : ℕ)
    → acc + fields_size r < 2 ^ 32
    → total_size cs vs acc ≡ some (acc + fields_size r)
unfolding total_size fields_size
total_size-TypedRow done acc h = ap some (omega arith)
total_size-TypedRow (field t ts) acc h =
    let f = field_of t in
    let step : (acc + f.size) % 2 ^ 32 ≡ acc + f.size = omega (arith, h) in
    rw (f.sized, total_size, step)
      (total_size-TypedRow ts (acc + f.size) (omega (arith, h)) ∙ ap some (omega arith))

-- The bytes of every field stand in the buffer, from an offset on.
unfoldable Reads : {cs : List Column} {vs : List Value} → TypedRow cs vs → ℕ → Buffer → Type 0
Reads done o b = Unit
Reads (field t ts) o b =
    (slice b o (length (field_of t).bytes) ≡ (field_of t).bytes)
    × Reads ts (o + (field_of t).size) b

write_fields-Reads :
    {cs : List Column} {vs : List Value} (r : TypedRow cs vs) (o : ℕ) (b : Buffer)
    → o + fields_size r < 2 ^ 32
    → (c : Buffer) × (write_fields cs vs o b ≡ some c) × ((i : ℕ) → i < o → c i ≡ b i) × Reads r o c
unfolding write_fields Reads fields_size
write_fields-Reads done o b h = (b, refl, λ i h. refl, tt)
write_fields-Reads (field {cs = cs} {vs = vs} t ts) o b h =
    let f = field_of t in
    let step : (o + f.size) % 2 ^ 32 ≡ o + f.size = omega (arith, h) in
    let (c, written, below, reads) =
      write_fields-Reads ts (o + f.size) (copy_bytes o f.bytes b) (omega (arith, h)) in
    let here : slice c o (length f.bytes) ≡ f.bytes =
      slice_agree c (copy_bytes o f.bytes b) o (length f.bytes)
        (λ i p q. below i (omega (arith, q, f.within)))
      ∙ slice-copy_bytes o f.bytes b in
    (
      c,
      rw (f.written, write_fields, f.moved)
          (ap (λ k. write_fields cs vs k (copy_bytes o f.bytes b)) step ∙ written),
      λ i l. below i (omega (arith, l)) ∙ copy_bytes_ne o i f.bytes b (inl l),
      (here, reads),
    )

shown :
    (bit : Bool) (v w : Value)
    → bit ≡ is_null v
    → (v ≡ null_value) ⊎ (w ≡ v)
    → (if bit then null_value else w) ≡ v
shown true v w e h = sym (is_null-null v (sym e))
shown false v w e (inr h) = h
shown false v w e (inl h) = absurd (null_marked v h e)

read_fields-Reads :
    {cs : List Column} {vs : List Value} (r : TypedRow cs vs) (i o size : ℕ) (b : Buffer)
    → o + fields_size r ≡ size
    → size < 2 ^ 32
    → Reads r o b
    → Marked vs i b
    → read_fields cs i o size b ≡ some vs
unfolding read_fields Reads Marked fields_size
read_fields-Reads done i o size b e small reads marked = refl
read_fields-Reads (field {c} {cs} {v} {vs} t ts) i o size b e small reads marked =
    let f = field_of t in
    let (moved, back) = f.reads b o reads.0 in
    let more : leb size o ≡ false = ground (arith, e, f.nonempty) in
    let step : (o + f.size) % 2 ^ 32 ≡ o + f.size = omega (arith, e, small) in
    let rest : read_fields cs (suc i) ((o + f.size) % 2 ^ 32) size b ≡ some vs =
      ap (λ k. read_fields cs (suc i) k size b) step
      ∙ read_fields-Reads ts (suc i) (o + f.size) size b (omega (arith, e)) small reads.1
          marked.1 in
    rw (read_fields, more, moved, rest)
      (ap (λ w. some (w ∷ vs)) (shown (is_null_bit_set b i) v _ marked.0 back))

-- Every row that fits its columns is written if the buffer has room, and reads back.
module _ {cs : List Column} {vs : List Value} (r : TypedRow cs vs) (buf : Buffer) where
  abbrev start : ℕ
  start = null_bitmap_size (length cs)

  abbrev size_here : ℕ
  size_here = start + fields_size r

  abbrev marked_buffer : Buffer
  marked_buffer = mark_nulls vs 0 (clear_bytes start buf)

  in_bitmap : (j : ℕ) → j < length vs → j / 8 < start
  unfolding null_bitmap_size
  in_bitmap j h = omega (arith, h, length-TypedRow r)

  cleared : (j : ℕ) → j < length vs → is_null_bit_set (clear_bytes start buf) j ≡ false
  unfolding is_null_bit_set clear_bytes
  cleared j h = ground (arith, in_bitmap j h, test_bit_zero (j % 8))

  written_bits : (c : Buffer) → ((i : ℕ) → i < start → c i ≡ marked_buffer i) → Marked vs 0 c
  unfolding is_null_bit_set
  written_bits c same =
      Marked-agree vs 0 marked_buffer c
        (λ j p q. ap (λ x. test_bit (j % 8) x) (same (j / 8) (in_bitmap j (omega (arith, q)))))
        (mark_nulls-Marked vs 0 (clear_bytes start buf) (λ j p q. cleared j (omega (arith, q))))

  deserialize-serialize_fields :
      (buf_size : ℕ)
      → size_here ≤ buf_size
      → buf_size < 2 ^ 32
      → (c : Buffer) × (serialize cs vs buf buf_size ≡ some (size_here, c))
        × (deserialize cs c size_here ≡ some vs)
  unfolding serialize serialize_sized deserialize
  deserialize-serialize_fields buf_size room small =
      let (c, written, same, reads) =
        write_fields-Reads r start marked_buffer (omega (arith, room, small)) in
      let total = total_size-TypedRow r start (omega (arith, room, small)) in
      let counted : (length vs == length cs) ≡ true = ground (arith, length-TypedRow r) in
      let enough : ltb buf_size size_here ≡ false = ground (arith, room) in
      let long : ltb size_here start ≡ false = ground arith in
      (
        c,
        rw (serialize, counted, total, serialize_sized, enough, written) refl,
        rw (deserialize, long)
            (read_fields-Reads r 0 start size_here c refl (omega (arith, room, small)) reads
              (written_bits c same)),
      )

  abbrev pub serialized_size : ℕ
  serialized_size = null_bitmap_size (length cs) + row_size cs vs

  -- For a row whose values fit the columns (integers and doubles in range, strings of less than
  -- 65536 bytes, a nonempty date or timestamp of exactly the width of its column without zero
  -- bytes, null anywhere, the widths of fixed types as the format has them), whatever the buffer
  -- held: if its size is below 2 ^ 32 and has room for the null bitmap and the fields, `serialize`
  -- succeeds, returns that size, and `deserialize` of the bytes it wrote returns the row.
  pub deserialize-serialize :
      (buf_size : ℕ)
      → serialized_size ≤ buf_size
      → buf_size < 2 ^ 32
      → (c : Buffer) × (serialize cs vs buf buf_size ≡ some (serialized_size, c))
        × (deserialize cs c serialized_size ≡ some vs)
  deserialize-serialize =
      subst
        (λ n.
          (buf_size : ℕ)
          → null_bitmap_size (length cs) + n ≤ buf_size
          → buf_size < 2 ^ 32
          → (c : Buffer) × (serialize cs vs buf buf_size
              ≡ some (null_bitmap_size (length cs) + n, c))
            × (deserialize cs c (null_bitmap_size (length cs) + n) ≡ some vs))
        (fields_size-row_size r) deserialize-serialize_fields
