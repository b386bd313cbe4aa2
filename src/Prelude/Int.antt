-- ===== src/Prelude/Int.antt =====
-- Go's `int` where it may be negative: `negsuc n` is -(n + 1).
use Prim.Native.Nat.{ℕ, suc}
use mathlib.Core.List.{◌∷◌}
use provider_databricks.Prelude.Runes.{Text, itoa}

pub data ℤ : Type 0 where
  pos : ℕ → ℤ
  negsuc : ℕ → ℤ

-- `%d`
unfoldable pub itoa_int : ℤ → Text
unfolding itoa
itoa_int (pos n) = itoa n
itoa_int (negsuc n) = b'-' ∷ itoa (suc n)
