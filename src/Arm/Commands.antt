-- ===== src/Arm/Commands.antt =====
-- The commands that an iteration executes.
use polymetis_franka_teleop.Prelude.{ℕ, ◌+◌, ◌-◌, Bool, false, Option, none, some}
use polymetis_franka_teleop.Prelude.Tests.{leb, if◌then◌else◌}
use polymetis_franka_teleop.Prelude.Result.{Result, ok, assertion_error, ensure, ◌>>=◌}
use polymetis_franka_teleop.Trajectory
use polymetis_franka_teleop.Trajectory.{drive_to_waypoint}
use polymetis_franka_teleop.Arm.{
  Command, stop, servol, schedule_waypoint, move_home, unknown, Config, HomeTick, Tick, Arm,
}
use polymetis_franka_teleop.Arm.Interface.{reset_ik_state, wait_until_controller_ready}
use polymetis_franka_teleop.Arm.Recover.{restart, await_clutch}

-- The messages of the methods `servoL` and `move_home`, with their assertions.
unfoldable pub servo_l : {P : Type 0} → Bool → ℕ → P → ℕ → Result (Command P)
servo_l is_alive dt pose duration = do
  _ ← ensure assertion_error is_alive
  _ ← ensure assertion_error (leb dt duration)
  ok (servol pose duration)

unfoldable pub home_message : {P : Type 0} → Bool → ℕ → Result (Command P)
home_message is_alive home_time = do _ ← ensure assertion_error is_alive; ok (move_home home_time)

module _ {P J : Type 0} where
  -- The handler of an exception of MOVE_HOME.
  unfoldable pub fail_home : HomeTick P J → Arm P J → Arm P J
  unfolding reset_ik_state
  fail_home home c = if home.restarted then record c { ik = reset_ik_state c.ik } else c

  unfoldable pub home_at : Config → Option P → HomeTick P J → Arm P J → Arm P J
  unfolding fail_home restart await_clutch wait_until_controller_ready
  home_at cfg none home c = fail_home home c
  home_at cfg (some pose) home c =
      let posed : Arm P J = record c { curr_pose = pose; teleop_target_pose = pose } in
      let waited : Arm P J = record posed {
        ik = (wait_until_controller_ready home.polls c.ik).0;
      } in
      let restarted = restart home.interp_time home.start_time pose waited in
      if home.started
      then (if cfg.teleop_mode then await_clutch restarted else restarted)
      else fail_home home posed

  unfoldable pub go_home : Config → HomeTick P J → Arm P J → Arm P J
  unfolding home_at fail_home
  go_home cfg home c = if home.moved then home_at cfg home.pose home c else fail_home home c

module _ {P J : Type 0} (traj_np : Trajectory.Numerics P) where
  -- A waypoint; its time is of the wall clock, and one before the start of the monotonic clock is
  -- taken as that start.
  unfoldable pub execute_command : Config → Command P → Tick P J → Arm P J → Result (Arm P J)
  unfolding drive_to_waypoint Trajectory.schedule_waypoint go_home
  execute_command cfg stop tick c = ok (record c { keep_running = false })
  execute_command cfg (servol pose duration) tick c = do
    let curr_time = tick.now + cfg.dt
    let t_insert = curr_time + duration
    traj ← drive_to_waypoint traj_np c.pose_interp pose t_insert curr_time cfg.inf cfg.inf
    ok (record c { pose_interp = traj; last_waypoint_time = t_insert })
  execute_command cfg (schedule_waypoint pose time) tick c = do
    let target_time = tick.monotonic_time + time - tick.wall_time
    let curr_time = tick.now + cfg.dt
    traj ←
        Trajectory.schedule_waypoint traj_np c.pose_interp pose target_time cfg.inf cfg.inf
          (some curr_time) (some c.last_waypoint_time)
    ok (record c { pose_interp = traj; last_waypoint_time = target_time })
  execute_command cfg (move_home duration) tick c = ok (go_home cfg tick.home c)
  execute_command cfg unknown tick c = ok (record c { keep_running = false })

  unfoldable pub execute : Config → Option (Command P) → Tick P J → Arm P J → Result (Arm P J)
  unfolding execute_command
  execute cfg none tick c = ok c
  execute cfg (some command) tick c = execute_command cfg command tick c
