-- ===== src/Common/Int.antt =====
-- Signed integers over the native numbers, for `page_id_t` (an int32_t with -1 for "no page").
use Prim.Native.Nat.{ℕ, suc}
use mathlib.Core.Path.{◌≡◌, ap}
use native.Mathlib.Decide.{ℕ_discrete}
use native.Mathlib.Omega.{arith}

-- `negsuc n` is -(n + 1).
pub data ℤ : Type 0 where
  pos : ℕ → ℤ
  negsuc : ℕ → ℤ

abbrev pub pos_part : ℤ → ℕ
pos_part (pos n) = n
pos_part (negsuc n) = 0

abbrev pub neg_part : ℤ → ℕ
neg_part (pos n) = 0
neg_part (negsuc n) = suc n

pub negsuc-injective : {a b : ℕ} → negsuc a ≡ negsuc b → a ≡ b
negsuc-injective h = ground arith

unfoldable pub ℤ_discrete : Discrete ℤ
unfolding ℕ_discrete
ℤ_discrete (pos a) (pos b) = elim (ℕ_discrete a b) [
  | yes e ↦ yes (ap pos e)
  | no d ↦ no (λ e. d (ap pos_part e))
]
ℤ_discrete (pos a) (negsuc b) = no (λ e. cc)
ℤ_discrete (negsuc a) (pos b) = no (λ e. cc)
ℤ_discrete (negsuc a) (negsuc b) = elim (ℕ_discrete a b) [
  | yes e ↦ yes (ap negsuc e)
  | no d ↦ no (λ e. d (negsuc-injective e))
]
