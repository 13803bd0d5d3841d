-- ===== src/Storage/Tuple/Nulls.antt =====
-- The null bitmap of a row: `mark_nulls` sets the bits of the null values and no other
-- (src/storage/tuple.cpp).
use lettydb.Common.{
  ℕ, zero, suc, ◌+◌, ◌/◌, ◌%◌, ◌≤◌, ◌<◌, ◌≡◌, ◌≢◌, refl, ◌∙◌, List, [], ◌∷◌, Bool, true, false,
  arith, ◌==◌, if◌then◌else◌, length, ap,
}
use lettydb.Storage.Bytes.{Buffer}
use lettydb.Storage.Bitmap.{test_bit, test_bit-or_bit}
use lettydb.Storage.Tuple.{Value, null_value, mark_nulls, is_null_bit_set, set_null_bit}

abbrev pub is_null : Value → Bool
is_null null_value = true
is_null v = false

pub is_null-null : (v : Value) → is_null v ≡ true → v ≡ null_value
is_null-null null_value h = refl
is_null-null (Value.integer z) h = cc
is_null-null (Value.double w) h = cc
is_null-null (Value.text xs) h = cc
is_null-null (Value.boolean x) h = cc

pub null_marked : (v : Value) → v ≡ null_value → false ≢ is_null v
null_marked v h e = cc (ap is_null h)

mark_nulls_step :
    (v : Value) (vs : List Value) (i : ℕ) (b : Buffer)
    → mark_nulls (v ∷ vs) i b ≡ mark_nulls vs (suc i) (if is_null v then set_null_bit i b else b)
unfolding mark_nulls
mark_nulls_step null_value vs i b = refl
mark_nulls_step (Value.integer z) vs i b = refl
mark_nulls_step (Value.double w) vs i b = refl
mark_nulls_step (Value.text xs) vs i b = refl
mark_nulls_step (Value.boolean x) vs i b = refl

is_null_bit_set-set_null_bit :
    (i j : ℕ) (b : Buffer)
    → is_null_bit_set (set_null_bit i b) j ≡ (if i == j then true else is_null_bit_set b j)
unfolding is_null_bit_set set_null_bit
is_null_bit_set-set_null_bit i j b = ground (arith, test_bit-or_bit (j % 8) (i % 8) (b (i / 8)))

-- The null bits of the values, from bit `i` on.
unfoldable pub Marked : List Value → ℕ → Buffer → Type 0
Marked [] i b = Unit
Marked (v ∷ vs) i b = (is_null_bit_set b i ≡ is_null v) × Marked vs (suc i) b

mark_nulls_before :
    (vs : List Value) (i j : ℕ) (b : Buffer)
    → j < i
    → is_null_bit_set (mark_nulls vs i b) j ≡ is_null_bit_set b j
unfolding mark_nulls
mark_nulls_before [] i j b h = refl
mark_nulls_before (v ∷ vs) i j b h = rw (mark_nulls_step v vs i b) (
    ground (
      arith,
      h,
      mark_nulls_before vs (suc i) j (if is_null v then set_null_bit i b else b),
      is_null_bit_set-set_null_bit i j b,
    ))

pub mark_nulls-Marked :
    (vs : List Value) (i : ℕ) (b : Buffer)
    → ((j : ℕ) → i ≤ j → j < i + length vs → is_null_bit_set b j ≡ false)
    → Marked vs i (mark_nulls vs i b)
unfolding Marked mark_nulls
mark_nulls-Marked [] i b h = tt
mark_nulls-Marked (v ∷ vs) i b h =
    let next = if is_null v then set_null_bit i b else b in
    rw (mark_nulls_step v vs i b) (
      ground (arith, h i, mark_nulls_before vs (suc i) i next, is_null_bit_set-set_null_bit i i b),
      mark_nulls-Marked vs (suc i) next
          (λ j p q. ground (arith, p, q, h j, is_null_bit_set-set_null_bit i j b)),
    )

pub Marked-agree :
    (vs : List Value) (i : ℕ) (b c : Buffer)
    → ((j : ℕ) → i ≤ j → j < i + length vs → is_null_bit_set c j ≡ is_null_bit_set b j)
    → Marked vs i b
    → Marked vs i c
unfolding Marked
Marked-agree [] i b c h m = tt
Marked-agree (v ∷ vs) i b c h m = (
  h i (omega arith) (omega arith) ∙ m.0,
  Marked-agree vs (suc i) b c (λ j p q. h j (omega (arith, p)) (omega (arith, q))) m.1,
)

pub test_bit_zero : (k : ℕ) → test_bit k 0 ≡ false
unfolding test_bit
test_bit_zero zero = refl
test_bit_zero (suc k) = test_bit_zero k
