-- ===== src/Vive/Home.antt =====
-- The parts of an iteration that concern HOME: the requests, the trackpad, and the synthesized
-- trajectory until it ends.
use polymetis_franka_teleop.Prelude.{ℕ, ◌-◌, max, Bool, true, false, not, ◌&&◌, Option, none, ◌*◌}
use polymetis_franka_teleop.Prelude.Tests.{ltb, if◌then◌else◌}
use polymetis_franka_teleop.Prelude.Int.{pos}
use polymetis_franka_teleop.Vive.{Numerics, Config, no_command, Tick, Teleop, or_pose}

-- HOME_DURATION
unfoldable pub full_duration : Config → ℕ
full_duration cfg = max cfg.home_duration 500

module _ {P V Q W : Type 0} where
  -- A request of another process acts as a press of the trackpad; it waits while HOME is active.
  unfoldable pub is_home_request : Teleop P V Q W → Bool
  is_home_request c = not c.home_active && c.external_home_request

  unfoldable pub take_home_request : Teleop P V Q W → Teleop P V Q W
  unfolding is_home_request
  take_home_request c =
      if is_home_request c
      then record c { external_home_request = false; prev_trackpad = false }
      else c

  unfoldable pub resync_target : Option P → Teleop P V Q W → Teleop P V Q W
  unfolding or_pose
  resync_target pose c =
      if c.external_target_resync
      then record c { external_target_resync = false; target_pose = or_pose pose c.target_pose }
      else c

  unfoldable pub release_grip : Bool → Teleop P V Q W → Teleop P V Q W
  release_grip grip_pressed c =
      if c.require_grip_release && not grip_pressed
      then record c { require_grip_release = false }
      else c

module _ {P V Q W : Type 0} (np : Numerics P V Q W) (cfg : Config) where
  -- The start of HOME, on a rising edge of the trackpad.
  unfoldable pub start_home : ℕ → Teleop P V Q W → Teleop P V Q W
  start_home now c =
      let known : Bool = np.is_set c.home_target_pose_array in
      record c {
        home_requested = true;
        home_active = true;
        home_start_time = now;
        clutch_active = false;
        prev_target_pos = none;
        prev_target_rot = none;
        gripper_command = no_command;
        home_lerp_start_pose = c.target_pose;
        home_lerp_end_pose = if known then c.home_target_pose_array else c.home_lerp_end_pose;
        home_lerp_use_synth = known;
      }

  unfoldable pub press_trackpad : Bool → ℕ → Teleop P V Q W → Teleop P V Q W
  unfolding start_home
  press_trackpad pressed now c =
      let next : Teleop P V Q W = if pressed && not c.prev_trackpad then start_home now c else c in
      record next { prev_trackpad = pressed }

  -- The target while HOME is active.
  unfoldable pub home_pose : ℕ → Option P → Teleop P V Q W → P
  unfolding full_duration or_pose
  home_pose elapsed pose c =
      if c.home_lerp_use_synth
      then np.lerp elapsed (full_duration cfg) c.home_lerp_start_pose c.home_lerp_end_pose
      else or_pose pose c.target_pose

  -- The end of HOME: the gripper's toggle is open, and the grip has to be released.
  unfoldable pub end_home : Option P → Teleop P V Q W → Teleop P V Q W
  unfolding or_pose
  end_home pose c =
      let synth : Bool = c.home_lerp_use_synth in
      record c {
        home_active = false;
        home_requested = false;
        clutch_active = false;
        prev_target_pos = none;
        prev_target_rot = none;
        require_grip_release = true;
        base_rotation = none;
        base_position = none;
        accumulated_z_rotation = pos 0;
        gripper_closed = false;
        gripper_state = 0;
        gripper_command = no_command;
        awaiting_trigger_release = true;
        gripper_target_width = pos (1000 * cfg.gripper_open_width);
        target_pose = if synth then c.home_lerp_end_pose else or_pose pose c.target_pose;
        home_target_pose_array =
            if synth then c.home_target_pose_array else or_pose pose c.home_target_pose_array;
        home_lerp_use_synth = false;
      }

  -- One iteration of HOME. The buttons' previous values are set, so that no edge of the trigger is
  -- seen below.
  unfoldable pub home_mode : Bool → Bool → Tick P V Q → Teleop P V Q W → Teleop P V Q W
  unfolding home_pose end_home full_duration
  home_mode grip_pressed trigger_pressed tick c =
      let elapsed = tick.home_time - c.home_start_time in
      let led : Teleop P V Q W = record c { target_pose = home_pose elapsed tick.pose_in_home c } in
      let next : Teleop P V Q W =
        if ltb (full_duration cfg) elapsed then end_home tick.pose_at_home_end led else led in
      if c.home_active
      then record next { prev_grip = grip_pressed; prev_trigger = trigger_pressed }
      else c
