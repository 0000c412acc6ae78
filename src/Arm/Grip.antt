-- ===== src/Arm/Grip.antt =====
-- A grip that is held through a recovery.
use polymetis_franka_teleop.Prelude.{◌≡◌, refl, true, false, none, some, arith}
use polymetis_franka_teleop.Prelude.Result.{ok, ◌>>=◌}
use polymetis_franka_teleop.Trajectory
use polymetis_franka_teleop.Vive.{RobotState}
use polymetis_franka_teleop.Arm.{Numerics, ErrorText, Config, Tick, Arm}
use polymetis_franka_teleop.Arm.Target.{engage, select, after_select, read_teleop, choose_target}
use polymetis_franka_teleop.Arm.Recover.{
  is_recoverable, is_watchdog_only, count_recovery, restart, await_clutch, resync, recover_at,
  recover,
}
use polymetis_franka_teleop.Arm.Commands.{execute}
use polymetis_franka_teleop.Arm.Loop.{
  put_state, publish, inject_home, take_auto_home, end_iteration, finish,
}

module _ {P J : Type 0} where
  -- A new clutch is awaited, and no HOME.
  record IsAwaiting (c : Arm P J) : Type 0 where
    awaits : c.wait_for_clutch_engage ≡ true
    released : c.prev_clutch_active ≡ false
    idle : c.auto_home_pending ≡ false

module _ {P J : Type 0} (traj_np : Trajectory.Numerics P) (np : Numerics P J) (cfg : Config) where
  recover-IsAwaiting :
      (text : ErrorText) (tick : Tick P J) (c : Arm P J) (pose : P)
      → cfg.teleop_mode ≡ true
      → is_recoverable text ≡ true
      → is_watchdog_only text ≡ false
      → tick.recovered_pose ≡ some pose
      → tick.recovery_started ≡ true
      → c.auto_home_pending ≡ false
      → c.consecutive_recovery_count ≡ 0
      → IsAwaiting (recover np cfg text tick c)
  unfolding recover recover_at count_recovery restart resync await_clutch
  recover-IsAwaiting text tick c pose teleop known reflex read started idle once =
      rw (known, read) (ground arith)

  finish_idle :
      (pose : P) (q : J) (tick : Tick P J) (c : Arm P J)
      → tick.state_accepted ≡ true
      → tick.command ≡ none
      → c.auto_home_pending ≡ false
      → finish traj_np np cfg (some (pose, q)) tick c
        ≡ ok (end_iteration tick.end_time (put_state cfg pose q tick.receive_time c))
  unfolding finish publish put_state inject_home take_auto_home execute end_iteration
  finish_idle pose q tick c accepted command idle = rw (accepted, command, idle) refl

  choose_target_engages :
      (s : RobotState P) (pose : P) (tick : Tick P J) (c : Arm P J)
      → cfg.teleop_mode ≡ true
      → tick.teleop ≡ some s
      → tick.pose ≡ some pose
      → s.clutch_active ≡ true
      → c.prev_clutch_active ≡ false
      → choose_target traj_np np cfg tick c
        ≡ ok (record c {
          curr_pose = pose;
          teleop_target_pose = pose;
          target_pose = pose;
          clutch_pose_offset = some (np.sub pose s.target_pose);
          wait_for_clutch_engage = false;
          prev_clutch_active = true;
        })
  unfolding choose_target read_teleop select engage after_select
  choose_target_engages s pose tick c teleop read posed held released =
      rw (teleop, read, posed, held, released) refl

  -- In teleop mode, with no HOME pending and a count of consecutive recoveries of 0: when the loop
  -- recovers, at whatever time, from an error that is not only the watchdog's, reads a pose and
  -- starts the controller again, it awaits a new clutch. If the iteration's state is then put, no
  -- command is in the queue, and the next iteration reads its pose and the clutch as held, so that
  -- the grip was not released, then that iteration takes the clutch as newly engaged, awaits
  -- nothing any more and has the offset to the teleoperation's target.
  pub recover_forgets_grip :
      (text : ErrorText) (tick next : Tick P J) (c : Arm P J) (recovered pose actual : P) (q : J)
      (s : RobotState P)
      → cfg.teleop_mode ≡ true
      → is_recoverable text ≡ true
      → is_watchdog_only text ≡ false
      → tick.recovered_pose ≡ some recovered
      → tick.recovery_started ≡ true
      → c.auto_home_pending ≡ false
      → c.consecutive_recovery_count ≡ 0
      → tick.state_accepted ≡ true
      → tick.command ≡ none
      → next.teleop ≡ some s
      → next.pose ≡ some pose
      → s.clutch_active ≡ true
      → ((recover np cfg text tick c).wait_for_clutch_engage ≡ true)
        × (d : Arm P J) × ((finish traj_np np cfg
                (some (actual, q))
                tick
                (recover np cfg text tick c)
              >>= (λ e. choose_target traj_np np cfg next e))
            ≡ ok d)
        × (d.wait_for_clutch_engage ≡ false)
        × (d.prev_clutch_active ≡ true)
        × (d.clutch_pose_offset ≡ some (np.sub pose s.target_pose))
  unfolding put_state end_iteration
  recover_forgets_grip text tick next c recovered pose actual q s teleop known reflex read started
        idle once accepted command told posed held =
      let awaiting =
        recover-IsAwaiting text tick c recovered teleop known reflex read started idle once in
      let after = recover np cfg text tick c in
      let ended = end_iteration tick.end_time (put_state cfg actual q tick.receive_time after) in
      let done = finish_idle actual q tick after accepted command awaiting.idle in
      let engaged =
        choose_target_engages s pose next ended teleop told posed held awaiting.released in
      let resumed : Arm P J = record ended {
        curr_pose = pose;
        teleop_target_pose = pose;
        target_pose = pose;
        clutch_pose_offset = some (np.sub pose s.target_pose);
        wait_for_clutch_engage = false;
        prev_clutch_active = true;
      } in
      (awaiting.awaits, resumed, rw done engaged, refl, refl, refl)
