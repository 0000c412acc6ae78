-- ===== src/Vive/Steer.antt =====
-- The parts of an iteration that steer the arm: the rotation by the touched trackpad, and the
-- clutch that the grip holds.
use polymetis_franka_teleop.Prelude.{
  ℕ, ◌-◌, ◌*◌, Bool, true, false, not, ◌&&◌, ◌||◌, Option, none, some,
}
use polymetis_franka_teleop.Prelude.Tests.{ltb, if◌then◌else◌}
use polymetis_franka_teleop.Prelude.Int.{ℤ, pos, ◌+ℤ◌, ◌-ℤ◌, ltb_ℤ, leb_ℤ}
use polymetis_franka_teleop.Vive.{Numerics, Config, ViveState, Tick, Teleop, abs, or_pose}

module _ {P V Q W : Type 0} where
  -- `base_rotation = None` and what goes with it.
  unfoldable pub reset_base : Teleop P V Q W → Teleop P V Q W
  reset_base c = record c {
    base_rotation = none;
    base_position = none;
    accumulated_z_rotation = pos 0;
  }

  unfoldable pub end_turn : Option W → Teleop P V Q W → Teleop P V Q W
  unfolding reset_base
  end_turn none c = c
  end_turn (some _) c = reset_base c

  -- The base of a rotation that starts.
  unfoldable pub set_base : V → W → Option W → Teleop P V Q W → Teleop P V Q W
  set_base place base none c = record c {
    base_rotation = some base;
    base_position = some place;
    accumulated_z_rotation = pos 0;
  }
  set_base place base (some _) c = c

  unfoldable pub release_clutch : Teleop P V Q W → Teleop P V Q W
  release_clutch c =
      if c.clutch_active
      then record c { clutch_active = false; prev_target_pos = none; prev_target_rot = none }
      else c

unfoldable pub or_else : {A : Type 0} → Option A → A → A
or_else none first = first
or_else (some base) first = base

module _ (cfg : Config) where
  unfoldable pub is_touched : ℤ → ℤ → Bool
  is_touched x y =
      ltb cfg.trackpad_touch_threshold (abs x) || ltb cfg.trackpad_touch_threshold (abs y)

  -- Clockwise at the top of the trackpad, counter-clockwise at the bottom.
  unfoldable pub delta_angle : ℤ → ℤ
  delta_angle y =
      if ltb_ℤ (pos cfg.trackpad_rotation_threshold) y
      then pos 0 -ℤ pos cfg.rotation_speed
      else if ltb_ℤ y (pos 0 -ℤ pos cfg.trackpad_rotation_threshold)
      then pos cfg.rotation_speed
      else pos 0

  -- A turn is refused if it would reach the limit.
  unfoldable pub can_rotate : ℤ → ℤ → Bool
  can_rotate accumulated delta =
      let turned = accumulated +ℤ delta in
      not (ltb_ℤ delta (pos 0) && leb_ℤ turned (pos 0 -ℤ pos cfg.rotation_limit))
      && not (ltb_ℤ (pos 0) delta && leb_ℤ (pos cfg.rotation_limit) turned)

module _ {P V Q W : Type 0} (np : Numerics P V Q W) (cfg : Config) where
  -- A turn; its base is the robot's pose where it starts.
  unfoldable pub turn_from : P → ℤ → Teleop P V Q W → Teleop P V Q W
  unfolding set_base or_else can_rotate
  turn_from pose delta c =
      let based = set_base (np.position pose) (np.rotation pose) c.base_rotation c in
      let turned = based.accumulated_z_rotation +ℤ delta in
      let place = or_else based.base_position (np.position pose) in
      let base = or_else based.base_rotation (np.rotation pose) in
      if can_rotate cfg based.accumulated_z_rotation delta
      then record based {
        accumulated_z_rotation = turned;
        target_pose = np.pose_of place (np.turn base turned);
      }
      else based

  unfoldable pub turn_by : Option P → ℤ → Teleop P V Q W → Teleop P V Q W
  unfolding turn_from
  turn_by none delta c = record c { rotation_active = true }
  turn_by (some pose) delta c = record (turn_from pose delta c) { rotation_active = true }

  -- The conditions of a rotation: touched and not pressed, the grip off, no HOME.
  unfoldable pub may_rotate : Bool → ViveState V Q → Teleop P V Q W → Bool
  unfolding is_touched
  may_rotate trackpad_pressed vive c =
      cfg.enable_trackpad_rotation
      && is_touched cfg vive.trackpad_x vive.trackpad_y
      && not trackpad_pressed
      && not vive.grip
      && not c.home_active

  unfoldable pub rotate : Bool → ViveState V Q → Option P → Teleop P V Q W → Teleop P V Q W
  unfolding may_rotate delta_angle turn_by end_turn
  rotate trackpad_pressed vive pose c =
      let delta = delta_angle cfg vive.trackpad_y in
      let still : Teleop P V Q W = record c { rotation_active = false } in
      if may_rotate trackpad_pressed vive c && ltb 0 (abs delta)
      then turn_by pose delta still
      else end_turn c.base_rotation still

  -- `validate_position_change`
  unfoldable pub validate_position_change : V → Option V → Option ℕ → ℕ → Bool
  validate_position_change current (some prev_pos) (some prev_time) now =
      let delta = np.distance current prev_pos in
      let dt = now - prev_time in not (ltb 1 dt && (ltb 1000 delta && ltb (5 * dt) delta))
  validate_position_change current (some prev_pos) none now = true
  validate_position_change current none prev_time now = true

  -- `clamp_velocity`
  unfoldable pub clamp_velocity : V → Option V → V
  clamp_velocity desired none = desired
  clamp_velocity desired (some prev) = np.clamp_position desired prev

  unfoldable pub clamp_turn : W → Option W → W
  clamp_turn desired none = desired
  clamp_turn desired (some prev) = np.clamp_rotation desired prev

  unfoldable pub start_clutch : ViveState V Q → Tick P V Q → Teleop P V Q W → Teleop P V Q W
  unfolding or_pose
  start_clutch vive tick c =
      let start : P = or_pose tick.pose_at_clutch c.target_pose in
      record c {
        clutch_active = true;
        target_pose = start;
        clutch_robot_start = start;
        clutch_vr_start_pos = vive.position;
        clutch_vr_start_quat = vive.quaternion;
        prev_target_pos = none;
        prev_target_rot = none;
        prev_vr_pos = some vive.position;
        prev_vr_time = some tick.vr_time;
      }

  -- The target of a held clutch.
  unfoldable pub follow : ViveState V Q → ℕ → Teleop P V Q W → Teleop P V Q W
  unfolding clamp_velocity clamp_turn
  follow vive now c =
      let moved =
        np.robot_delta vive.position vive.quaternion c.clutch_vr_start_pos c.clutch_vr_start_quat in
      let desired_pos = np.add (np.position c.clutch_robot_start) moved.0 in
      let desired_rot = np.compose moved.1 (np.rotation c.clutch_robot_start) in
      let target_pos : V =
        if cfg.use_velocity_clamping
        then clamp_velocity desired_pos c.prev_target_pos
        else desired_pos in
      let target_rot : W =
        if cfg.use_velocity_clamping
        then clamp_turn desired_rot c.prev_target_rot
        else desired_rot in
      record c {
        target_pose = np.pose_of target_pos target_rot;
        prev_target_pos = some target_pos;
        prev_target_rot = some target_rot;
        prev_vr_pos = some vive.position;
        prev_vr_time = some now;
      }

  -- A frame with the clutch held that is too far from the last one; the loop goes on at once.
  unfoldable pub is_outlier : ViveState V Q → ℕ → Teleop P V Q W → Bool
  unfolding validate_position_change
  is_outlier vive now c =
      (vive.grip && not c.home_active && not c.require_grip_release)
      && c.clutch_active
      && not (validate_position_change vive.position c.prev_vr_pos c.prev_vr_time now)

  -- The clutch for a frame that is no outlier.
  unfoldable pub clutch : ViveState V Q → Tick P V Q → Teleop P V Q W → Teleop P V Q W
  unfolding start_clutch follow release_clutch
  clutch vive tick c =
      if vive.grip && not c.home_active && not c.require_grip_release
      then (if c.clutch_active then follow vive tick.vr_time c else start_clutch vive tick c)
      else if vive.grip
      then c
      else release_clutch c
