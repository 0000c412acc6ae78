-- ===== src/Vive.antt =====
-- polymetis_franka_teleop/real_world/vive_teleop_process.py: the loop that turns the state of a Vive
-- controller into arm targets and gripper commands. Times are milliseconds, distances
-- millimetres, angles and trackpad coordinates integers of a small unit. The trigger's value is in
-- thousandths, and so are target widths. Poses `P`, positions `V`, quaternions `Q` and rotations
-- `W` are any types, and what numpy and scipy compute on them is the interface `Numerics`.
pub mod Home
pub mod Steer
pub mod Loop
pub mod Stages
pub mod Keeps
pub mod Begun
pub mod Release
pub mod Ends
pub mod Outliers
pub mod Tests
pub mod Width
pub mod Safe
pub mod Again
use polymetis_franka_teleop.Prelude.{
  ℕ, ◌+◌, ◌-◌, ◌*◌, max, Bool, true, false, not, ◌&&◌, ◌||◌, Option, none, some, List,
}
use polymetis_franka_teleop.Prelude.Tests.{ltb, if◌then◌else◌}
use polymetis_franka_teleop.Prelude.Int.{ℤ, pos, pos_part, neg_part}

pub record Numerics (P V Q W : Type 0) : Type 0 where
  -- pose[:3], pose[3:], and the pose of both
  pub position : P → V
  pub rotation : P → W
  pub pose_of : V → W → P
  -- `compute_local_delta` of a position and orientation from those at the start of the clutch, in the
  -- robot's frame by `local_to_robot` and scaled.
  pub robot_delta : V → Q → V → Q → V × W
  pub add : V → V → V
  pub compose : W → W → W
  -- The first moved towards the second no further than the velocity limit allows in `dt`.
  pub clamp_position : V → V → V
  pub clamp_rotation : W → W → W
  -- The pose at `elapsed` of `duration` on the way from one pose to another.
  pub lerp : ℕ → ℕ → P → P → P
  -- The rotation turned about its Z axis.
  pub turn : W → ℤ → W
  -- np.linalg.norm of the difference of two positions
  pub distance : V → V → ℕ
  -- norm(pose[:3]) > 1e-6
  pub is_set : P → Bool

pub record Config : Type 0 where
  pub enable_trackpad_rotation : Bool
  pub rotation_speed : ℕ
  pub rotation_limit : ℕ
  pub trackpad_touch_threshold : ℕ
  pub trackpad_rotation_threshold : ℕ
  pub use_velocity_clamping : Bool
  pub gripper_open_width : ℕ
  pub gripper_close_width : ℕ
  pub home_duration : ℕ
  pub dt : ℕ

-- The enum `GripperCommand`.
pub data GripperCommand : Type 0 where
  no_command open_command close_command : GripperCommand

-- The dictionaries that are put into the three ring buffers.
pub record Action (P : Type 0) : Type 0 where
  pub target_pose : P
  pub gripper_state : ℕ
  pub gripper_target_width : ℤ
  pub clutch_active : Bool
  pub home_requested : Bool
  pub home_active : Bool
  pub rotation_active : Bool
  pub timestamp : ℕ

pub record RobotState (P : Type 0) : Type 0 where
  pub target_pose : P
  pub clutch_active : Bool
  pub rotation_active : Bool
  pub teleop_timestamp : ℕ

pub record GripperState : Type 0 where
  pub gripper_state : ℕ
  pub gripper_command : GripperCommand
  pub teleop_timestamp : ℕ

-- The state of the controller that `ViveSharedMemory` puts.
pub record ViveState (V Q : Type 0) : Type 0 where
  pub position : V
  pub quaternion : Q
  pub grip : Bool
  pub trigger : Bool
  pub trackpad : Bool
  pub trigger_value : ℕ
  pub trackpad_x : ℤ
  pub trackpad_y : ℤ

-- What one iteration reads: the controller's state (none if the read raises), the robot's pose at
-- each place that asks for it (none if it cannot be read), the wall clock at each place, and
-- whether each ring buffer takes what is put.
pub record Tick (P V Q : Type 0) : Type 0 where
  pub vive : Option (ViveState V Q)
  pub pose_at_resync : Option P
  pub pose_in_home : Option P
  pub pose_at_home_end : Option P
  pub pose_at_turn : Option P
  pub pose_at_clutch : Option P
  pub press_time : ℕ
  pub home_time : ℕ
  pub check_time : ℕ
  pub vr_time : ℕ
  pub t_recv : ℕ
  pub action_accepted : Bool
  pub robot_accepted : Bool
  pub gripper_accepted : Bool

-- The local variables of `run`, the three arrays that other processes write, and what was put into
-- the ring buffers, newest last.
pub record Teleop (P V Q W : Type 0) : Type 0 where
  pub target_pose : P
  pub clutch_active : Bool
  pub clutch_robot_start : P
  pub clutch_vr_start_pos : V
  pub clutch_vr_start_quat : Q
  pub gripper_closed : Bool
  pub gripper_state : ℕ
  pub gripper_command : GripperCommand
  pub awaiting_trigger_release : Bool
  pub prev_grip : Bool
  pub prev_trigger : Bool
  pub prev_trackpad : Bool
  pub home_active : Bool
  pub home_requested : Bool
  pub home_start_time : ℕ
  pub home_lerp_start_pose : P
  pub home_lerp_end_pose : P
  pub home_lerp_use_synth : Bool
  pub rotation_active : Bool
  pub base_rotation : Option W
  pub base_position : Option V
  pub accumulated_z_rotation : ℤ
  pub require_grip_release : Bool
  pub prev_target_pos : Option V
  pub prev_target_rot : Option W
  pub prev_vr_pos : Option V
  pub prev_vr_time : Option ℕ
  pub gripper_target_width : ℤ
  pub iter_idx : ℕ
  pub home_target_pose_array : P
  pub external_home_request : Bool
  pub external_target_resync : Bool
  pub running : Bool
  pub ready : Bool
  pub actions : List (Action P)
  pub robot_states : List (RobotState P)
  pub gripper_states : List GripperState

abbrev pub abs : ℤ → ℕ
abs n = pos_part n + neg_part n

unfoldable pub or_pose : {P : Type 0} → Option P → P → P
or_pose none pose = pose
or_pose (some read) pose = read

module _ {P V Q W : Type 0} where
  -- `set_home_target_pose`, `request_home_synthesis` and `sync_target_pose_to_current_robot`, which
  -- another process calls.
  unfoldable pub set_home_target_pose : P → Teleop P V Q W → Teleop P V Q W
  set_home_target_pose pose c = record c { home_target_pose_array = pose }

  unfoldable pub request_home_synthesis : Teleop P V Q W → Teleop P V Q W
  request_home_synthesis c = record c { external_home_request = true }

  unfoldable pub sync_target_pose_to_current_robot : Teleop P V Q W → Teleop P V Q W
  sync_target_pose_to_current_robot c = record c { external_target_resync = true }
