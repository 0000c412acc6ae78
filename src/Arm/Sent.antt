-- ===== src/Arm/Sent.antt =====
-- Every joint target that `update_desired_joint_positions` sends is a solution of the inverse
-- kinematics, or the joints that the robot reports while its controller is waited for.
use polymetis_franka_teleop.Prelude.{
  ℕ, ◌+◌, ◌-◌, Bool, true, false, Option, none, some, List, [], ◌∷◌, inl, inr,
}
use polymetis_franka_teleop.Prelude.Tests.{if_cases}
use polymetis_franka_teleop.Prelude.Lists.{All}
use polymetis_franka_teleop.Prelude.Result.{Result, ok, err, ◌>>=◌, Result-cases}
use polymetis_franka_teleop.Trajectory
use polymetis_franka_teleop.Trajectory.{call, drive_to_waypoint}
use polymetis_franka_teleop.Vive.{RobotState}
use polymetis_franka_teleop.Arm.{
  Numerics, Command, stop, servol, schedule_waypoint, move_home, unknown, Config, Poll, Tick, Arm,
}
use polymetis_franka_teleop.Arm.Interface.{new_ik, set_cached_q}
use polymetis_franka_teleop.Arm.Target.{
  select, interpolate, after_select, read_teleop, choose_target,
}
use polymetis_franka_teleop.Arm.Commands.{execute_command, execute}
use polymetis_franka_teleop.Arm.Loop.{
  new_arm, wait_at_start, put_state, publish, inject_home, take_auto_home, end_iteration,
  command_robot, finish, step, run,
}
use polymetis_franka_teleop.Arm.Total.{select-IsAimed}
use polymetis_franka_teleop.Arm.Solved.{
  IsSolved, AreRead, IsReported, wait-IsSolved, new_ik-IsSolved, command_robot-IsSolved,
  go_home-IsSolved,
}

module _ {P J : Type 0} (traj_np : Trajectory.Numerics P) (np : Numerics P J)
    (Reported : J → Type 0) where
  -- The state, if no exception leaves the loop, has only sent such joints.
  abbrev pub HasSolved : Result (Arm P J) → Type 0
  HasSolved (err e) = Unit
  HasSolved (ok c) = IsSolved np Reported c.ik

  interpolate-HasSolved :
      (now : ℕ) (c : Arm P J) → IsSolved np Reported c.ik → HasSolved (interpolate traj_np now c)
  unfolding interpolate
  interpolate-HasSolved now c h = elim (Result-cases (call traj_np c.pose_interp now)) [
    | inl done ↦ rw (done.1) h
    | inr failed ↦ rw (failed.1) tt
  ]

  after_select-HasSolved :
      (now : ℕ) (clutch_active : Bool) (chosen : Arm P J × Bool)
      → IsSolved np Reported chosen.0.ik
      → HasSolved (after_select traj_np now clutch_active chosen)
  unfolding after_select
  after_select-HasSolved now clutch_active (c, true) h = h
  after_select-HasSolved now clutch_active (c, false) h = interpolate-HasSolved now c h

  read_teleop-HasSolved :
      (read : Option (RobotState P)) (now : ℕ) (pose : Option P) (c : Arm P J)
      → IsSolved np Reported c.ik
      → HasSolved (read_teleop traj_np np read now pose c)
  unfolding read_teleop
  read_teleop-HasSolved none now pose c h = interpolate-HasSolved now c h
  read_teleop-HasSolved (some s) now pose c h =
      let aimed = select-IsAimed np s pose c in
      after_select-HasSolved now s.clutch_active (select np s pose c) (rw (aimed.ik) h)

  choose_target-HasSolved :
      (cfg : Config) (tick : Tick P J) (c : Arm P J)
      → IsSolved np Reported c.ik
      → HasSolved (choose_target traj_np np cfg tick c)
  unfolding choose_target
  choose_target-HasSolved cfg tick c h =
      if_cases HasSolved cfg.teleop_mode
        (λ e. read_teleop-HasSolved tick.teleop tick.now tick.pose c h)
        (λ e. interpolate-HasSolved tick.now c h)

  execute-HasSolved :
      (cfg : Config) (command : Option (Command P)) (tick : Tick P J) (c : Arm P J)
      → AreRead np Reported tick.home.polls
      → IsSolved np Reported c.ik
      → HasSolved (execute traj_np cfg command tick c)
  unfolding execute execute_command
  execute-HasSolved cfg none tick c read h = h
  execute-HasSolved cfg (some stop) tick c read h = h
  execute-HasSolved cfg (some (servol pose duration)) tick c read h =
      let curr_time = tick.now + cfg.dt in
      elim (Result-cases (
        drive_to_waypoint traj_np c.pose_interp pose (curr_time + duration) curr_time cfg.inf
          cfg.inf)) [ inl done ↦ rw (done.1) h | inr failed ↦ rw (failed.1) tt ]
  execute-HasSolved cfg (some (schedule_waypoint pose time)) tick c read h =
      let target_time = tick.monotonic_time + time - tick.wall_time in
      elim (Result-cases (
        Trajectory.schedule_waypoint traj_np c.pose_interp pose target_time cfg.inf cfg.inf
          (some (tick.now + cfg.dt)) (some c.last_waypoint_time))) [
            | inl done ↦ rw (done.1) h
            | inr failed ↦ rw (failed.1) tt
          ]
  execute-HasSolved cfg (some (move_home duration)) tick c read h =
      go_home-IsSolved np Reported cfg tick.home c read h
  execute-HasSolved cfg (some unknown) tick c read h = h

  end_iteration-HasSolved :
      (time : ℕ) (r : Result (Arm P J))
      → HasSolved r
      → HasSolved (r >>= (λ d. ok (end_iteration time d)))
  unfolding end_iteration
  end_iteration-HasSolved time (ok d) h = h
  end_iteration-HasSolved time (err e) h = tt

  finish-HasSolved :
      (cfg : Config) (batched : Option (P × J)) (tick : Tick P J) (c : Arm P J)
      → AreRead np Reported tick.home.polls
      → IsSolved np Reported c.ik
      → HasSolved (finish traj_np np cfg batched tick c)
  unfolding finish publish put_state set_cached_q take_auto_home
  finish-HasSolved cfg none tick c read h = h
  finish-HasSolved cfg (some (pose, q)) tick c read h =
      let put = put_state cfg pose q tick.receive_time c in
      let command = inject_home tick.command put in
      let cached : IsSolved np Reported (set_cached_q q c.ik) = record {
        good = h.good;
        allowed = h.allowed;
      } in
      let taken : IsSolved np Reported (take_auto_home put).ik =
        if_cases (λ (d : Arm P J). IsSolved np Reported d.ik) put.auto_home_pending (λ e. cached)
          (λ e. cached) in
      if_cases
        (λ (r : Result (Arm P J)). HasSolved (
          r >>= (λ p.
            execute traj_np cfg (inject_home tick.command p) tick (take_auto_home p)
            >>= (λ d. ok (end_iteration tick.end_time d)))))
        tick.state_accepted
        (λ e.
          end_iteration-HasSolved tick.end_time
            (execute traj_np cfg command tick (take_auto_home put))
            (execute-HasSolved cfg command tick (take_auto_home put) read taken))
        (λ e. tt)

  -- What follows an outcome keeps what holds of a state.
  bind-HasSolved :
      (r : Result (Arm P J)) (rest : Arm P J → Result (Arm P J))
      → HasSolved r
      → ((d : Arm P J) → IsSolved np Reported d.ik → HasSolved (rest d))
      → HasSolved (r >>= (λ d. rest d))
  bind-HasSolved (ok d) rest h k = k d h
  bind-HasSolved (err e) rest h k = tt

  step-HasSolved :
      (cfg : Config) (tick : Tick P J) (c : Arm P J)
      → IsReported np Reported tick
      → IsSolved np Reported c.ik
      → HasSolved (step traj_np np cfg tick c)
  unfolding step
  step-HasSolved cfg tick c (recovery, home) h =
      bind-HasSolved (choose_target traj_np np cfg tick c)
        (λ aimed. finish traj_np np cfg tick.batched tick (command_robot np cfg tick aimed))
        (choose_target-HasSolved cfg tick c h)
        (λ aimed k.
          finish-HasSolved cfg tick.batched tick (command_robot np cfg tick aimed) home
            (command_robot-IsSolved np Reported cfg tick aimed recovery k))

  run-HasSolved :
      (cfg : Config) (ticks : List (Tick P J)) (c : Arm P J)
      → All (IsReported np Reported) ticks
      → IsSolved np Reported c.ik
      → HasSolved (run traj_np np cfg ticks c)
  unfolding run
  run-HasSolved cfg [] c read h = h
  run-HasSolved cfg (tick ∷ ticks) c (r, read) h =
      if_cases HasSolved c.keep_running
        (λ e.
          bind-HasSolved (step traj_np np cfg tick c) (λ next. run traj_np np cfg ticks next)
            (step-HasSolved cfg tick c r h) (λ next k. run-HasSolved cfg ticks next read k))
        (λ e. h)

  -- From the first state and the wait for the controller, after any iterations that no exception
  -- ends, through failures of the inverse kinematics, recoveries and HOME: each joint target that
  -- the loop or a wait for the controller has sent by `update_desired_joint_positions` is one that
  -- the inverse kinematics found with success for some pose, or one of the joints that the robot
  -- reported in such a wait; and the one that is kept to be sent again is of the first kind.
  -- `Reported` is anything that holds of the joints that the robot reports in the waits.
  pub run-new_arm-HasSolved :
      (cfg : Config) (polls : List (Poll J)) (ticks : List (Tick P J)) (pose : P)
      (curr_t start_time clean_time : ℕ) (external : Option Bool)
      → AreRead np Reported polls
      → All (IsReported np Reported) ticks
      → HasSolved (
          run traj_np np cfg ticks
            (wait_at_start polls (new_arm pose curr_t start_time clean_time external)))
  unfolding new_arm wait_at_start
  run-new_arm-HasSolved cfg polls ticks pose curr_t start_time clean_time external start read =
      run-HasSolved cfg ticks
        (wait_at_start polls (new_arm pose curr_t start_time clean_time external)) read
        (wait-IsSolved np Reported polls new_ik start (new_ik-IsSolved np Reported))
