-- ===== src/Prelude/Modular.antt =====
-- Positions in a ring of `b` slots.
use Prim.Native.Nat.{ℕ, ◌+◌, ◌-◌, ◌*◌, ◌/◌, ◌%◌, ◌≤◌, ◌<◌}
use mathlib.Core.Path.{◌≡◌}
use mathlib.Core.Logic.{◌≢◌}
use native.Mathlib.Nat.{div-add-mod, mod-eq_of_lt, mod-add-mod, mod-eq-sub-mod}
use native.Mathlib.Decide.{dec_le}
use native.Mathlib.Omega.{arith}

mul_step : (b p q : ℕ) → p < q → b * p + b ≤ b * q
mul_step b p q h = grind arith

mul_mono : (b p q : ℕ) → p ≤ q → b * p ≤ b * q
mul_mono b p q h = grind arith

-- Two counts less than `b` apart share no slot.
pub mod-ne_of_near : (b j w : ℕ) → j < w → w < j + b → j % b ≢ w % b
mod-ne_of_near b j w h k e = elim (dec_le (w / b) (j / b)) [
  | yes p ↦ omega (arith, div-add-mod j b, div-add-mod w b, mul_mono b (w / b) (j / b) p)
  | no p ↦ omega (arith, div-add-mod j b, div-add-mod w b, mul_step b (j / b) (w / b) (omega arith))
]

-- A few steps on from a slot, before the end of the ring and past it.
pub mod-add_below : (b c i : ℕ) → c % b + i < b → (c + i) % b ≡ c % b + i
mod-add_below b c i h = omega (arith, mod-add-mod c b i, mod-eq_of_lt h)

pub mod-add_past : (b c i : ℕ) → b ≤ c % b + i → c % b + i < b + b → (c + i) % b ≡ c % b + i - b
mod-add_past b c i h k = omega (
  arith,
  mod-add-mod c b i,
  mod-eq-sub-mod h,
  mod-eq_of_lt {n = c % b + i - b} {m = b} (omega arith),
)
