-- ===== src/Arm/Target.antt =====
-- The target of an iteration: what the teleoperation asks for, or the interpolated pose.
use polymetis_franka_teleop.Prelude.{ℕ, Bool, true, false, not, ◌&&◌, Option, none, some}
use polymetis_franka_teleop.Prelude.Tests.{ltb, if◌then◌else◌}
use polymetis_franka_teleop.Prelude.Result.{Result, ok, ◌>>=◌}
use polymetis_franka_teleop.Trajectory
use polymetis_franka_teleop.Trajectory.{call}
use polymetis_franka_teleop.Vive.{RobotState, or_pose}
use polymetis_franka_teleop.Arm.{Numerics, Config, Tick, Arm}

module _ {P J : Type 0} where
  -- The clutch is off: the robot holds its pose.
  unfoldable pub hold : Option P → Arm P J → Arm P J
  unfolding or_pose
  hold pose c =
      let held : P = or_pose pose c.curr_pose in
      record c {
        curr_pose = held;
        target_pose = held;
        teleop_target_pose = held;
        clutch_pose_offset = none;
      }

  -- The trackpad rotates: the target is followed as it is.
  unfoldable pub follow_rotation : RobotState P → Arm P J → Arm P J
  follow_rotation s c =
      let next : Arm P J =
        if ltb c.last_teleop_timestamp s.teleop_timestamp
        then record c {
          teleop_target_pose = s.target_pose;
          last_teleop_timestamp = s.teleop_timestamp;
        }
        else c in
      record next { target_pose = next.teleop_target_pose }

module _ {P J : Type 0} (np : Numerics P J) where
  unfoldable pub with_offset : Option P → P → P
  with_offset none raw = raw
  with_offset (some offset) raw = np.add raw offset

  -- The clutch has just been engaged: the offset between the robot and the teleoperation. The
  -- second component is false if the pose cannot be read.
  unfoldable pub engage : P → Option P → Arm P J → Arm P J × Bool
  engage raw none c = (c, false)
  engage raw (some pose) c = (
    record c {
      curr_pose = pose;
      teleop_target_pose = pose;
      target_pose = pose;
      clutch_pose_offset = some (np.sub pose raw);
    },
    true,
  )

  -- The clutch is held: the target with the offset.
  unfoldable pub follow_clutch : RobotState P → Arm P J → Arm P J
  unfolding with_offset
  follow_clutch s c =
      let next : Arm P J =
        if ltb c.last_teleop_timestamp s.teleop_timestamp
        then record c {
          teleop_target_pose = with_offset c.clutch_pose_offset s.target_pose;
          last_teleop_timestamp = s.teleop_timestamp;
        }
        else c in
      record next { target_pose = next.teleop_target_pose }

  unfoldable pub select : RobotState P → Option P → Arm P J → Arm P J × Bool
  unfolding engage follow_clutch follow_rotation hold
  select s pose c =
      if s.clutch_active && not c.prev_clutch_active
      then engage s.target_pose pose (record c { wait_for_clutch_engage = false })
      else if c.wait_for_clutch_engage
      then (record c { target_pose = c.curr_pose }, true)
      else if s.clutch_active
      then (follow_clutch s c, true)
      else if s.rotation_active
      then (follow_rotation s c, true)
      else (hold pose c, true)

module _ {P J : Type 0} (traj_np : Trajectory.Numerics P) where
  -- `target_pose = pose_interp(t_now)`
  unfoldable pub interpolate : ℕ → Arm P J → Result (Arm P J)
  unfolding call
  interpolate now c = do pose ← call traj_np c.pose_interp now; ok (record c { target_pose = pose })

  -- The end of the selection, or the handler of its exceptions.
  unfoldable pub after_select : ℕ → Bool → Arm P J × Bool → Result (Arm P J)
  unfolding interpolate
  after_select now clutch_active (c, true) = ok (record c { prev_clutch_active = clutch_active })
  after_select now clutch_active (c, false) = interpolate now c

module _ {P J : Type 0} (traj_np : Trajectory.Numerics P) (np : Numerics P J) where
  unfoldable pub read_teleop : Option (RobotState P) → ℕ → Option P → Arm P J → Result (Arm P J)
  unfolding interpolate select after_select
  read_teleop none now pose c = interpolate traj_np now c
  read_teleop (some s) now pose c = after_select traj_np now s.clutch_active (select np s pose c)

  unfoldable pub choose_target : Config → Tick P J → Arm P J → Result (Arm P J)
  unfolding read_teleop interpolate
  choose_target cfg tick c =
      if cfg.teleop_mode
      then read_teleop tick.teleop tick.now tick.pose c
      else interpolate traj_np tick.now c
