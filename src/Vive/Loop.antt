-- ===== src/Vive/Loop.antt =====
-- The rest of an iteration, the gripper's trigger and the output, and the loop.
use polymetis_franka_teleop.Prelude.{
  ℕ, ◌+◌, ◌*◌, Bool, true, false, not, ◌&&◌, ◌||◌, Option, none, some, List, [], ◌∷◌, ◌++◌,
}
use polymetis_franka_teleop.Prelude.Tests.{ltb, if◌then◌else◌}
use polymetis_franka_teleop.Prelude.Int.{ℤ, pos, ◌-ℤ◌}
use polymetis_franka_teleop.Vive.{
  Numerics, Config, no_command, open_command, close_command, Action, RobotState, GripperState,
  ViveState, Tick, Teleop,
}
use polymetis_franka_teleop.Vive.Home.{
  is_home_request, take_home_request, resync_target, press_trackpad, home_mode, release_grip,
}
use polymetis_franka_teleop.Vive.Steer.{rotate, is_outlier, clutch}

-- The target width, in thousandths. From the open width a pressed trigger closes, from the close
-- width it opens; after a toggle the width stays until the trigger is released.
unfoldable pub target_width : Config → Bool → Bool → ℕ → ℤ
target_width cfg awaiting closed value =
    let open_w = cfg.gripper_open_width in
    let close_w = cfg.gripper_close_width in
    if awaiting
    then pos (1000 * (if closed then close_w else open_w))
    else if closed
    then pos (1000 * close_w + open_w * value) -ℤ pos (close_w * value)
    else pos (1000 * open_w + close_w * value) -ℤ pos (open_w * value)

module _ {P V Q W : Type 0} where
  -- The toggle of the gripper, on a rising edge of the trigger.
  unfoldable pub toggle : Bool → Teleop P V Q W → Teleop P V Q W
  toggle trigger_pressed c =
      if trigger_pressed && not c.prev_trigger
      then record c {
        gripper_closed = not c.gripper_closed;
        awaiting_trigger_release = true;
        gripper_state = if c.gripper_closed then 0 else 1;
        gripper_command = if c.gripper_closed then open_command else close_command;
      }
      else c

module _ {P V Q W : Type 0} (cfg : Config) where
  unfoldable pub trigger : ViveState V Q → Teleop P V Q W → Teleop P V Q W
  unfolding toggle target_width
  trigger vive c =
      let toggled = toggle vive.trigger c in
      let awaiting = toggled.awaiting_trigger_release && not (ltb vive.trigger_value 50) in
      record toggled {
        awaiting_trigger_release = awaiting;
        gripper_target_width = target_width cfg awaiting toggled.gripper_closed vive.trigger_value;
        prev_grip = vive.grip;
        prev_trigger = vive.trigger;
      }

module _ {P V Q W : Type 0} where
  unfoldable pub action_of : ℕ → Teleop P V Q W → Action P
  action_of timestamp c = record {
    target_pose = c.target_pose;
    gripper_state = c.gripper_state;
    gripper_target_width = c.gripper_target_width;
    clutch_active = c.clutch_active;
    home_requested = c.home_requested || c.home_active;
    home_active = c.home_active;
    rotation_active = c.rotation_active;
    timestamp = timestamp;
  }

  unfoldable pub robot_state_of : ℕ → Teleop P V Q W → RobotState P
  robot_state_of t_recv c = record {
    target_pose = c.target_pose;
    clutch_active = c.clutch_active;
    rotation_active = c.rotation_active;
    teleop_timestamp = t_recv;
  }

  unfoldable pub gripper_state_of : ℕ → Teleop P V Q W → GripperState
  gripper_state_of t_recv c = record {
    gripper_state = c.gripper_state;
    gripper_command = c.gripper_command;
    teleop_timestamp = t_recv;
  }

  -- An exception, after which the loop is left and the ready event set.
  unfoldable pub fail : Teleop P V Q W → Teleop P V Q W
  fail c = record c { running = false; ready = true }

  -- The three puts; one that raises ends the loop.
  unfoldable pub put_gripper : Tick P V Q → Teleop P V Q W → Teleop P V Q W
  unfolding gripper_state_of fail
  put_gripper tick c =
      if tick.gripper_accepted
      then record c {
        gripper_states = c.gripper_states ++ gripper_state_of tick.t_recv c ∷ [];
        iter_idx = c.iter_idx + 1;
      }
      else fail c

  unfoldable pub put_robot : Tick P V Q → Teleop P V Q W → Teleop P V Q W
  unfolding robot_state_of put_gripper fail
  put_robot tick c =
      if tick.robot_accepted
      then put_gripper tick
          (record c { robot_states = c.robot_states ++ robot_state_of tick.t_recv c ∷ [] })
      else fail c

  unfoldable pub output : ℕ → Tick P V Q → Teleop P V Q W → Teleop P V Q W
  unfolding action_of put_robot fail
  output dt tick c =
      if tick.action_accepted
      then put_robot tick (record c { actions = c.actions ++ action_of (tick.t_recv + dt) c ∷ [] })
      else fail c

module _ {P V Q W : Type 0} (np : Numerics P V Q W) (cfg : Config) where
  -- An iteration up to the clutch.
  unfoldable pub begin : ViveState V Q → Tick P V Q → Teleop P V Q W → Teleop P V Q W
  unfolding is_home_request take_home_request resync_target press_trackpad home_mode release_grip
      rotate
  begin vive tick c =
      let pressed = vive.trackpad || is_home_request c in
      let asked = resync_target tick.pose_at_resync (take_home_request c) in
      let homing = press_trackpad np cfg pressed tick.press_time asked in
      let led = home_mode np cfg vive.grip vive.trigger tick homing in
      rotate np cfg pressed vive tick.pose_at_turn (release_grip vive.grip led)

  -- An iteration with the controller's state read. An outlier skips the rest of it, the count of the
  -- iterations and the wait included.
  unfoldable pub iterate : ViveState V Q → Tick P V Q → Teleop P V Q W → Teleop P V Q W
  unfolding begin is_outlier clutch trigger output
  iterate vive tick c =
      let begun = begin vive tick c in
      if is_outlier np cfg vive tick.check_time begun
      then record begun { prev_vr_time = some tick.vr_time }
      else output cfg.dt tick (trigger cfg vive (clutch np cfg vive tick begun))

  unfoldable pub step_read : Option (ViveState V Q) → Tick P V Q → Teleop P V Q W → Teleop P V Q W
  unfolding iterate fail
  step_read none tick c = fail c
  step_read (some vive) tick c = iterate vive tick c

  unfoldable pub step : Tick P V Q → Teleop P V Q W → Teleop P V Q W
  unfolding step_read
  step tick c = step_read tick.vive tick c

  -- The iterations, for what each reads, while no exception ends the loop.
  unfoldable pub run : List (Tick P V Q) → Teleop P V Q W → Teleop P V Q W
  unfolding step
  run [] c = c
  run (tick ∷ ticks) c =
      let rest : Teleop P V Q W = run ticks (step tick c) in if c.running then rest else c

module _ {P V Q W : Type 0} where
  -- The state in which the loop starts, with what it first puts at the times of the three puts:
  -- from the robot's pose, the zero pose, the zero position and the quaternion without rotation.
  unfoldable pub start : Config → P → P → V → Q → ℕ → ℕ → ℕ → Teleop P V Q W
  unfolding action_of robot_state_of gripper_state_of
  start cfg initial_pose zero_pose zero_position unit_quat action_time robot_time gripper_time =
      let c : Teleop P V Q W = record {
        target_pose = initial_pose;
        clutch_active = false;
        clutch_robot_start = zero_pose;
        clutch_vr_start_pos = zero_position;
        clutch_vr_start_quat = unit_quat;
        gripper_closed = false;
        gripper_state = 0;
        gripper_command = no_command;
        awaiting_trigger_release = false;
        prev_grip = false;
        prev_trigger = false;
        prev_trackpad = false;
        home_active = false;
        home_requested = false;
        home_start_time = 0;
        home_lerp_start_pose = zero_pose;
        home_lerp_end_pose = zero_pose;
        home_lerp_use_synth = false;
        rotation_active = false;
        base_rotation = none;
        base_position = none;
        accumulated_z_rotation = pos 0;
        require_grip_release = false;
        prev_target_pos = none;
        prev_target_rot = none;
        prev_vr_pos = none;
        prev_vr_time = none;
        gripper_target_width = pos (1000 * cfg.gripper_open_width);
        iter_idx = 0;
        home_target_pose_array = zero_pose;
        external_home_request = false;
        external_target_resync = false;
        running = true;
        ready = false;
        actions = [];
        robot_states = [];
        gripper_states = [];
      } in
      record c {
        actions = action_of action_time c ∷ [];
        robot_states = robot_state_of robot_time c ∷ [];
        gripper_states = gripper_state_of gripper_time c ∷ [];
        ready = true;
      }
