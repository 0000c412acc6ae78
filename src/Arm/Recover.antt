-- ===== src/Arm/Recover.antt =====
-- The handler of an error of `update_desired_ee_pose`.
use polymetis_franka_teleop.Prelude.{
  ℕ, ◌+◌, Bool, true, false, not, ◌&&◌, ◌||◌, Option, none, some, [], ◌∷◌,
}
use polymetis_franka_teleop.Prelude.Tests.{ltb, leb, if◌then◌else◌}
use polymetis_franka_teleop.Trajectory.{Trajectory}
use polymetis_franka_teleop.Vive.{RobotState}
use polymetis_franka_teleop.Arm.{
  Numerics, no_controller_running, communication_constraints_violation, cartesian_reflex,
  joint_velocity_violation, cartesian_velocity_violation, joint_position_limits,
  torque_discontinuity, reflex, velocity_violation, ErrorText, Config, Tick, Arm,
}
use polymetis_franka_teleop.Arm.Interface.{reset_ik_state, wait_until_controller_ready}

unfoldable pub is_recoverable : ErrorText → Bool
is_recoverable text =
    text no_controller_running
    || text communication_constraints_violation
    || text cartesian_reflex
    || text joint_velocity_violation
    || text cartesian_velocity_violation
    || text joint_position_limits
    || text torque_discontinuity

unfoldable pub is_watchdog_only : ErrorText → Bool
is_watchdog_only text =
    text no_controller_running
    && not (
        text reflex
        || text velocity_violation
        || text joint_position_limits
        || text torque_discontinuity)

-- PoseTrajectoryInterpolator(times=[time], poses=[pose])
unfoldable pub hold_at : {P : Type 0} → ℕ → P → Trajectory P
hold_at time pose = record { times = time ∷ []; poses = pose ∷ [] }

module _ {P J : Type 0} where
  -- The counts of recoveries; two of them that are close ask for HOME.
  unfoldable pub count_recovery : Config → ℕ → Arm P J → Arm P J
  count_recovery cfg now c =
      let consecutive =
        if ltb now (c.last_clean_iter_t + 10000) then c.consecutive_recovery_count + 1 else 1 in
      record c {
        recovery_count = c.recovery_count + 1;
        consecutive_recovery_count = consecutive;
        last_clean_iter_t = now;
        auto_home_pending = c.auto_home_pending || (leb 2 consecutive && cfg.teleop_mode);
      }

  -- A new start of the loop at a pose: its timer and the interpolator.
  unfoldable pub restart : ℕ → ℕ → P → Arm P J → Arm P J
  unfolding hold_at reset_ik_state
  restart interp_time time pose c = record c {
    ik = reset_ik_state c.ik;
    t_start = time;
    iter_idx = 0;
    last_waypoint_time = time;
    pose_interp = hold_at interp_time pose;
  }

  -- A new clutch is awaited.
  unfoldable pub await_clutch : Arm P J → Arm P J
  await_clutch c = record c {
    wait_for_clutch_engage = true;
    prev_clutch_active = false;
    clutch_pose_offset = none;
  }

module _ {P J : Type 0} (np : Numerics P J) where
  -- The offset anew, where there is one and the teleoperation can be read.
  unfoldable pub renew_offset : P → Option P → Option (RobotState P) → Option P
  renew_offset pose none teleop = none
  renew_offset pose (some offset) none = some offset
  renew_offset pose (some offset) (some s) = some (np.sub pose s.target_pose)

  -- What a recovery does to the teleoperation.
  unfoldable pub resync : Config → ErrorText → P → Option (RobotState P) → Arm P J → Arm P J
  unfolding renew_offset await_clutch
  resync cfg text pose teleop c =
      if not cfg.teleop_mode
      then c
      else if is_watchdog_only text
      then record c { clutch_pose_offset = renew_offset pose c.clutch_pose_offset teleop }
      else await_clutch c

  -- The recovery with the pose read.
  unfoldable pub recover_at : Config → ErrorText → Option P → Tick P J → Arm P J → Arm P J
  unfolding restart resync wait_until_controller_ready
  recover_at cfg text none tick c = c
  recover_at cfg text (some pose) tick c =
      let posed : Arm P J = record c { curr_pose = pose; teleop_target_pose = pose } in
      let time = tick.recovery_start_time in
      let waited : Arm P J = record posed {
        ik = (wait_until_controller_ready tick.recovery_polls c.ik).0;
      } in
      if tick.recovery_started
      then resync cfg text pose tick.recovered_teleop (restart time time pose waited)
      else posed

  unfoldable pub recover : Config → ErrorText → Tick P J → Arm P J → Arm P J
  unfolding recover_at count_recovery
  recover cfg text tick c =
      if is_recoverable text
      then recover_at cfg text tick.recovered_pose tick (count_recovery cfg tick.recovery_time c)
      else c

  unfoldable pub handle : Config → Option ErrorText → Tick P J → Arm P J → Arm P J
  unfolding recover
  handle cfg none tick c = c
  handle cfg (some text) tick c = recover cfg text tick c
