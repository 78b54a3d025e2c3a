-- ===== src/Prelude/Ratio.antt =====
-- Quotients of whole numbers, kept exact and compared crosswise.
use Prim.Native.Nat.{ℕ, ◌*◌, ◌≤◌, ◌<◌}
use mathlib.Core.Path.{◌≡◌}
use mathlib.Core.Bool.{Bool, true, false}
use native.Mathlib.Nat.{mul-le-mul_right, le_of_mul-le-mul_right, mul_right_comm}
use native.Mathlib.Omega.{arith}
use nfm_dashboard.Prelude.Tests.{ltb, ltb→le, ltb→lt, le→ltb}

pub record Ratio : Type 0 where
  pub num : ℕ
  pub den : ℕ

abbrev pub whole : ℕ → Ratio
whole n = record { num = n; den = 1 }

-- `a < b`, for positive denominators
unfoldable pub ratio_lt : Ratio → Ratio → Bool
ratio_lt a b = ltb (a.num * b.den) (b.num * a.den)

pub ratio-le : (a b : Ratio) → ratio_lt b a ≡ false → a.num * b.den ≤ b.num * a.den
unfolding ratio_lt
ratio-le a b h = ltb→le _ _ h

-- An order that a positive denominator makes transitive.
pub ratio_le_trans :
    (a b c : Ratio) → 0 < b.den → ratio_lt b a ≡ false → ratio_lt c b ≡ false → ratio_lt c a ≡ false
unfolding ratio_lt
ratio_le_trans a b c pos h k =
    let x : (a.num * b.den) * c.den ≤ (b.num * a.den) * c.den =
      mul-le-mul_right c.den (ratio-le a b h) in
    let y : (b.num * c.den) * a.den ≤ (c.num * b.den) * a.den =
      mul-le-mul_right a.den (ratio-le b c k) in
    let p : (b.num * a.den) * c.den ≡ (b.num * c.den) * a.den = mul_right_comm b.num a.den c.den in
    let q : (a.num * b.den) * c.den ≡ (a.num * c.den) * b.den = mul_right_comm a.num b.den c.den in
    let r : (c.num * b.den) * a.den ≡ (c.num * a.den) * b.den = mul_right_comm c.num b.den a.den in
    le→ltb _ _ (le_of_mul-le-mul_right (omega (arith, x, y, p, q, r)) pos)

pub ratio_le_refl : (a : Ratio) → ratio_lt a a ≡ false
unfolding ratio_lt
ratio_le_refl a = le→ltb _ _ (omega arith)

pub ratio_lt_le : (a b : Ratio) → ratio_lt a b ≡ true → ratio_lt b a ≡ false
unfolding ratio_lt
ratio_lt_le a b h = le→ltb _ _ (omega (arith, ltb→lt _ _ h))
