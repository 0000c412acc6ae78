-- ===== src/Arm/Loop.antt =====
-- One iteration of the control loop, and the loop.
use polymetis_franka_teleop.Prelude.{
  ℕ, ◌+◌, ◌-◌, Bool, true, false, ◌||◌, Option, none, some, List, [], ◌∷◌, ◌++◌,
}
use polymetis_franka_teleop.Prelude.Tests.{◌==◌, if◌then◌else◌}
use polymetis_franka_teleop.Prelude.Result.{Result, ok, err, timeout_error, ◌>>=◌}
use polymetis_franka_teleop.Trajectory
use polymetis_franka_teleop.Arm.{Numerics, Command, move_home, State, Config, Poll, Tick, Arm}
use polymetis_franka_teleop.Arm.Interface.{
  new_ik, update_desired_ee_pose, set_cached_q, wait_until_controller_ready,
}
use polymetis_franka_teleop.Arm.Target.{choose_target}
use polymetis_franka_teleop.Arm.Recover.{hold_at, handle}
use polymetis_franka_teleop.Arm.Commands.{execute}

-- self.external_home_request_array.get()[0] = 1, where there is one
unfoldable pub request_home : Option Bool → Option Bool
request_home none = none
request_home (some old) = some true

module _ {P J : Type 0} where
  -- The local variables when the loop starts at a pose.
  unfoldable pub new_arm : P → ℕ → ℕ → ℕ → Option Bool → Arm P J
  unfolding new_ik hold_at
  new_arm pose curr_t start_time clean_time external = record {
    ik = new_ik;
    curr_pose = pose;
    target_pose = pose;
    teleop_target_pose = pose;
    last_teleop_timestamp = 0;
    prev_clutch_active = false;
    wait_for_clutch_engage = false;
    clutch_pose_offset = none;
    pose_interp = hold_at curr_t pose;
    last_waypoint_time = curr_t;
    t_start = start_time;
    iter_idx = 0;
    keep_running = true;
    recovery_count = 0;
    consecutive_recovery_count = 0;
    last_clean_iter_t = clean_time;
    auto_home_pending = false;
    external_home_request = external;
    ready = false;
    states = [];
  }

  -- The wait for the controller before the loop starts.
  unfoldable pub wait_at_start : List (Poll J) → Arm P J → Arm P J
  unfolding wait_until_controller_ready
  wait_at_start polls c = record c { ik = (wait_until_controller_ready polls c.ik).0 }

  unfoldable pub state_of : Config → P → J → ℕ → Arm P J → State P J
  state_of cfg pose q time c = record {
    actual_tcp_pose = pose;
    actual_q = q;
    last_joint_cmd = c.ik.last_good_joint_target;
    last_ee_pose_cmd = c.target_pose;
    robot_receive_timestamp = time;
    robot_timestamp = time - cfg.receive_latency;
  }

  -- The state put, and the joints as the next seed.
  unfoldable pub put_state : Config → P → J → ℕ → Arm P J → Arm P J
  unfolding state_of set_cached_q
  put_state cfg pose q time c = record c {
    states = c.states ++ state_of cfg pose q time c ∷ [];
    ik = set_cached_q q c.ik;
  }

  unfoldable pub publish : Config → P → J → Tick P J → Arm P J → Result (Arm P J)
  unfolding put_state
  publish cfg pose q tick c =
      if tick.state_accepted
      then ok (put_state cfg pose q tick.receive_time c)
      else err timeout_error

  -- The automatic HOME takes the place of the message that was read.
  unfoldable pub inject_home : Option (Command P) → Arm P J → Option (Command P)
  inject_home command c = if c.auto_home_pending then some (move_home 2000) else command

  unfoldable pub take_auto_home : Arm P J → Arm P J
  unfolding request_home
  take_auto_home c =
      if c.auto_home_pending
      then record c {
        auto_home_pending = false;
        consecutive_recovery_count = 0;
        external_home_request = request_home c.external_home_request;
      }
      else c

  unfoldable pub end_iteration : ℕ → Arm P J → Arm P J
  end_iteration time c = record c {
    last_clean_iter_t = time;
    ready = c.ready || c.iter_idx == 0;
    iter_idx = c.iter_idx + 1;
  }

module _ {P J : Type 0} (np : Numerics P J) where
  -- The command to the robot, with the recovery from its errors.
  unfoldable pub command_robot : Config → Tick P J → Arm P J → Arm P J
  unfolding update_desired_ee_pose handle
  command_robot cfg tick c =
      let done = update_desired_ee_pose np c.target_pose tick.q tick.update_error c.ik in
      handle np cfg done.1 tick (record c { ik = done.0 })

module _ {P J : Type 0} (traj_np : Trajectory.Numerics P) (np : Numerics P J) (cfg : Config) where
  -- The rest of an iteration; if the state cannot be read the loop goes on at once.
  unfoldable pub finish : Option (P × J) → Tick P J → Arm P J → Result (Arm P J)
  unfolding publish inject_home take_auto_home execute end_iteration
  finish none tick c = ok c
  finish (some (pose, q)) tick c = do
    put ← publish cfg pose q tick c
    done ← execute traj_np cfg (inject_home tick.command put) tick (take_auto_home put)
    ok (end_iteration tick.end_time done)

  unfoldable pub step : Tick P J → Arm P J → Result (Arm P J)
  unfolding choose_target command_robot finish
  step tick c = do
    aimed ← choose_target traj_np np cfg tick c
    finish tick.batched tick (command_robot np cfg tick aimed)

  -- The iterations, for what each reads, until `keep_running` is false or an exception leaves the
  -- loop.
  unfoldable pub run : List (Tick P J) → Arm P J → Result (Arm P J)
  unfolding step
  run [] c = ok c
  run (tick ∷ ticks) c =
      let rest : Result (Arm P J) = step tick c >>= (λ next. run ticks next) in
      if c.keep_running then rest else ok c
