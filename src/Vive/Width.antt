-- ===== src/Vive/Width.antt =====
-- The target width that the trigger gives.
use polymetis_franka_teleop.Prelude.{
  ℕ, zero, suc, ◌+◌, ◌-◌, ◌*◌, ◌≤◌, ◌≡◌, Bool, true, false, not, arith,
}
use polymetis_franka_teleop.Prelude.Int.{pos, ◌-ℤ◌, ◌≤ℤ◌}
use polymetis_franka_teleop.Vive.{Config}
use polymetis_franka_teleop.Vive.Loop.{target_width}

product_le : (d v w : ℕ) → v ≤ w → d * v ≤ d * w
product_le zero v w h = grind arith
product_le (suc d) v w h = omega (arith, product_le d v w h)

-- The product of two differences is not negative.
product_bound : (a b v w : ℕ) → a ≤ b → v ≤ w → w * a + b * v ≤ w * b + a * v
product_bound a b v w h k =
    let e : b ≡ a + (b - a) = omega arith in
    let bound = product_le (b - a) v w k in rw e (omega (arith, bound))

full_value : (a b : ℕ) → pos (1000 * a + b * 1000) -ℤ pos (a * 1000) ≡ pos (1000 * b)
unfolding ◌-ℤ◌
full_value a b = ground arith

-- From the width a towards the width b.
opening_bounds :
    (a b v : ℕ)
    → a ≤ b
    → v ≤ 1000
    → (pos (1000 * a) ≤ℤ (pos (1000 * a + b * v) -ℤ pos (a * v)))
      × ((pos (1000 * a + b * v) -ℤ pos (a * v)) ≤ℤ pos (1000 * b))
unfolding ◌-ℤ◌
opening_bounds a b v h k =
    let bound = product_bound a b v 1000 h k in
    let wider : a * v ≤ b * v = omega (arith, product_le v a b h) in (ground arith, ground arith)

closing_bounds :
    (a b v : ℕ)
    → a ≤ b
    → v ≤ 1000
    → (pos (1000 * a) ≤ℤ (pos (1000 * b + a * v) -ℤ pos (b * v)))
      × ((pos (1000 * b + a * v) -ℤ pos (b * v)) ≤ℤ pos (1000 * b))
unfolding ◌-ℤ◌
closing_bounds a b v h k =
    let bound = product_bound a b v 1000 h k in
    let wider : a * v ≤ b * v = omega (arith, product_le v a b h) in (ground arith, ground arith)

-- With a close width that is at most the open width, and a trigger value of at most 1000
-- thousandths: the target width is within the two, and a toggle at the fully pressed trigger does
-- not move it.
pub target_width_bounds :
    (cfg : Config) (awaiting closed : Bool) (value : ℕ)
    → cfg.gripper_close_width ≤ cfg.gripper_open_width
    → value ≤ 1000
    → (pos (1000 * cfg.gripper_close_width) ≤ℤ target_width cfg awaiting closed value)
      × (target_width cfg awaiting closed value ≤ℤ pos (1000 * cfg.gripper_open_width))
      × (target_width cfg false closed 1000 ≡ target_width cfg true (not closed) value)
unfolding target_width
target_width_bounds cfg true true value h k =
    (omega arith, omega arith, full_value cfg.gripper_close_width cfg.gripper_open_width)
target_width_bounds cfg true false value h k =
    (omega arith, omega arith, full_value cfg.gripper_open_width cfg.gripper_close_width)
target_width_bounds cfg false true value h k =
    let within = opening_bounds cfg.gripper_close_width cfg.gripper_open_width value h k in
    (within.0, within.1, full_value cfg.gripper_close_width cfg.gripper_open_width)
target_width_bounds cfg false false value h k =
    let within = closing_bounds cfg.gripper_close_width cfg.gripper_open_width value h k in
    (within.0, within.1, full_value cfg.gripper_open_width cfg.gripper_close_width)
