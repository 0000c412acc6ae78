-- ===== src/Vive/Tests.antt =====
-- Runs of the Vive loop at a concrete state; poses, positions and rotations are numbers.
use polymetis_franka_teleop.Prelude.{
  ℕ, ◌+◌, ◌*◌, ◌≡◌, refl, true, false, none, some, [], ◌∷◌, arith,
}
use polymetis_franka_teleop.Prelude.Tests.{ltb}
use polymetis_franka_teleop.Prelude.Int.{pos, ◌≤ℤ◌}
use polymetis_franka_teleop.Vive.{Numerics, Config, ViveState, Tick, Teleop}
use polymetis_franka_teleop.Vive.Home.{
  full_duration, is_home_request, take_home_request, resync_target, press_trackpad, home_mode,
  release_grip,
}
use polymetis_franka_teleop.Vive.Steer.{
  is_outlier, validate_position_change, rotate, turn_by, end_turn, may_rotate, delta_angle,
  is_touched,
}
use polymetis_franka_teleop.Vive.Loop.{target_width, begin, iterate, run, start}
use polymetis_franka_teleop.Vive.Release.{IsLocked, grips, run-IsLocked}
use polymetis_franka_teleop.Vive.Ends.{IsOver, iterate_ends_home}
use polymetis_franka_teleop.Vive.Outliers.{iterate_forgives}
use polymetis_franka_teleop.Vive.Width.{target_width_bounds}

abbrev pub np : Numerics ℕ ℕ ℕ ℕ
np = record {
  position = λ p. p;
  rotation = λ p. p;
  pose_of = λ v w. v;
  robot_delta = λ v q v0 q0. (v, q);
  add = λ a b. a + b;
  compose = λ a b. a;
  clamp_position = λ a b. b;
  clamp_rotation = λ a b. b;
  lerp = λ elapsed duration a b. b;
  turn = λ w n. w;
  distance = λ a b. a;
  is_set = λ p. ltb 0 p;
}

abbrev pub cfg : Config
cfg = record {
  enable_trackpad_rotation = true;
  rotation_speed = 2;
  rotation_limit = 45;
  trackpad_touch_threshold = 100;
  trackpad_rotation_threshold = 300;
  use_velocity_clamping = true;
  gripper_open_width = 80;
  gripper_close_width = 0;
  home_duration = 2000;
  dt = 10;
}

-- The controller at a place, with the grip pressed.
abbrev pub gripped : ℕ → ViveState ℕ ℕ
gripped place = record {
  position = place;
  quaternion = 0;
  grip = true;
  trigger = true;
  trackpad = false;
  trigger_value = 700;
  trackpad_x = pos 0;
  trackpad_y = pos 0;
}

abbrev pub tick : ℕ → ℕ → Tick ℕ ℕ ℕ
tick place now = record {
  vive = some (gripped place);
  pose_at_resync = none;
  pose_in_home = none;
  pose_at_home_end = some 7;
  pose_at_turn = some 7;
  pose_at_clutch = some 7;
  press_time = now;
  home_time = now;
  check_time = now;
  vr_time = now;
  t_recv = now;
  action_accepted = true;
  robot_accepted = true;
  gripper_accepted = true;
}

abbrev pub first : Teleop ℕ ℕ ℕ ℕ
unfolding start
first = start cfg 1 0 0 0 100 100 100

-- HOME was started at 1000 ms.
abbrev pub homing : Teleop ℕ ℕ ℕ ℕ
homing = record first { home_active = true; home_requested = true; home_start_time = 1000 }

-- The clutch is held, and a frame at 5 was accepted at 1000 ms.
abbrev clutched : Teleop ℕ ℕ ℕ ℕ
clutched = record first { clutch_active = true; prev_vr_pos = some 5; prev_vr_time = some 1000 }

run-IsLocked_example : IsLocked (run np cfg (tick 3 1500 ∷ tick 4 4000 ∷ []) homing)
unfolding grips first
run-IsLocked_example =
    run-IsLocked np cfg (tick 3 1500 ∷ tick 4 4000 ∷ []) homing (refl, (refl, tt))
      (record { off = refl; held = refl })

iterate_ends_home_example : IsOver true (iterate np cfg (gripped 3) (tick 3 4000) homing)
unfolding full_duration
iterate_ends_home_example =
    iterate_ends_home np cfg (gripped 3) (tick 3 4000) homing refl refl (omega arith)

iterate_forgives_example :
    is_outlier np cfg (gripped 9000) 1011 (
      begin np cfg
        (gripped 9000)
        (tick 9000 1011)
        (iterate np cfg (gripped 9000) (tick 9000 1010) clutched))
    ≡ false
unfolding is_outlier validate_position_change begin rotate turn_by end_turn may_rotate delta_angle
    is_touched is_home_request take_home_request resync_target press_trackpad home_mode release_grip
    first
iterate_forgives_example =
    iterate_forgives np cfg (gripped 9000) (tick 9000 1010) (gripped 9000) (tick 9000 1011) clutched
      refl (omega arith)

target_width_bounds_example :
    (pos (1000 * 0) ≤ℤ target_width cfg false true 400)
    × (target_width cfg false true 400 ≤ℤ pos (1000 * 80))
    × (target_width cfg false true 1000 ≡ target_width cfg true false 400)
target_width_bounds_example = target_width_bounds cfg false true 400 (omega arith) (omega arith)
