-- ===== src/Arm.antt =====
-- polymetis_franka_teleop/real_world/franka_interpolation_controller.py: the control loop of the arm.
-- Times are milliseconds of the monotonic clock. Poses `P` and joint vectors `J` are any types; what
-- numpy and the robot's kinematics compute on them is the interface `Numerics`, and the outcome of
-- each call of the robot is what an iteration reads. Messages that are only printed, and the counts
-- for them, are left out.
pub mod Interface
pub mod Target
pub mod Recover
pub mod Commands
pub mod Loop
pub mod Total
pub mod Runs
pub mod Escalate
pub mod Grip
pub mod Solved
pub mod Sent
pub mod Tests
use polymetis_franka_teleop.Prelude.{ℕ, Bool, Option, List}
use polymetis_franka_teleop.Trajectory.{Trajectory}
use polymetis_franka_teleop.Vive.{RobotState}

pub record Numerics (P J : Type 0) : Type 0 where
  pub add : P → P → P
  pub sub : P → P → P
  -- `solve_inverse_kinematics` for a pose of the tool, from the joints of a seed, and its success
  pub solve : P → J → J × Bool

-- The texts that the handler of errors looks for.
pub data Fragment : Type 0 where
  no_controller_running communication_constraints_violation cartesian_reflex : Fragment
  joint_velocity_violation cartesian_velocity_violation joint_position_limits : Fragment
  torque_discontinuity reflex velocity_violation : Fragment

-- An error's text in lower case, by which fragments it contains.
abbrev pub ErrorText : Type 0
ErrorText = Fragment → Bool

-- The outcome of a call of the robot.
pub data Reply (A : Type 0) : Type 0 where
  returned : A → Reply A
  raised : ErrorText → Reply A

-- What `FrankaInterface` keeps, and the joint targets that it has sent by
-- `update_desired_joint_positions`, newest last.
pub record Ik (J : Type 0) : Type 0 where
  pub cached_q : Option J
  pub last_good_joint_target : Option J
  pub ik_fail_streak : ℕ
  pub sent : List J

-- The messages of the queue; any other number of the key 'cmd' is `unknown`.
pub data Command (P : Type 0) : Type 0 where
  stop : Command P
  servol : P → ℕ → Command P
  schedule_waypoint : P → ℕ → Command P
  move_home : ℕ → Command P
  unknown : Command P

-- The state that is put into the ring buffer, in part. No joint command is zeros.
pub record State (P J : Type 0) : Type 0 where
  pub actual_tcp_pose : P
  pub actual_q : J
  pub last_joint_cmd : Option J
  pub last_ee_pose_cmd : P
  pub robot_receive_timestamp : ℕ
  pub robot_timestamp : ℕ

pub record Config : Type 0 where
  pub teleop_mode : Bool
  pub dt : ℕ
  pub receive_latency : ℕ
  -- np.inf, the speed limit where none is given
  pub inf : ℕ

-- A pass of `wait_until_controller_ready`: the reading of the robot's joints raises, or gives them,
-- with whether the robot takes them as a target.
pub data Poll (J : Type 0) : Type 0 where
  unread : Poll J
  polled : (q_now : J) (accepted : Bool) → Poll J

-- The attempt to move home: the outcome of the motion, of the reading of the pose and of the start
-- of the impedance controller, with the wait for it, and of a second such start if one of these
-- raises.
pub record HomeTick (P J : Type 0) : Type 0 where
  pub moved : Bool
  pub pose : Option P
  pub started : Bool
  pub polls : List (Poll J)
  pub restarted : Bool
  pub interp_time : ℕ
  pub start_time : ℕ

-- What one iteration reads: a `none` is a call that raises, or no message.
pub record Tick (P J : Type 0) : Type 0 where
  pub now : ℕ
  pub teleop : Option (RobotState P)
  pub pose : Option P
  pub q : Reply J
  pub update_error : Option ErrorText
  pub recovery_time : ℕ
  pub recovered_pose : Option P
  pub recovery_started : Bool
  pub recovery_polls : List (Poll J)
  pub recovery_start_time : ℕ
  pub recovered_teleop : Option (RobotState P)
  pub batched : Option (P × J)
  pub receive_time : ℕ
  pub state_accepted : Bool
  pub command : Option (Command P)
  pub monotonic_time : ℕ
  pub wall_time : ℕ
  pub home : HomeTick P J
  pub end_time : ℕ

-- The local variables of `run`, the request that goes to the Vive process where it is given, and
-- the states that were put, newest last.
pub record Arm (P J : Type 0) : Type 0 where
  pub ik : Ik J
  pub curr_pose : P
  pub target_pose : P
  pub teleop_target_pose : P
  pub last_teleop_timestamp : ℕ
  pub prev_clutch_active : Bool
  pub wait_for_clutch_engage : Bool
  pub clutch_pose_offset : Option P
  pub pose_interp : Trajectory P
  pub last_waypoint_time : ℕ
  pub t_start : ℕ
  pub iter_idx : ℕ
  pub keep_running : Bool
  pub recovery_count : ℕ
  pub consecutive_recovery_count : ℕ
  pub last_clean_iter_t : ℕ
  pub auto_home_pending : Bool
  pub external_home_request : Option Bool
  pub ready : Bool
  pub states : List (State P J)
