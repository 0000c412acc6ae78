-- ===== src/Arm/Runs.antt =====
-- The loop raises nothing.
use polymetis_franka_teleop.Prelude.{
  ℕ, ◌+◌, ◌-◌, ◌<◌, ◌≡◌, refl, ◌∙◌, inl, inr, Bool, true, false, Option, none, some, List, [], ◌∷◌,
  arith,
}
use polymetis_franka_teleop.Prelude.Tests.{ltb, leb, if_cases, Bool-cases}
use polymetis_franka_teleop.Prelude.Lists.{All}
use polymetis_franka_teleop.Prelude.Result.{Result, ok}
use polymetis_franka_teleop.Trajectory
use polymetis_franka_teleop.Trajectory.{Trajectory}
use polymetis_franka_teleop.Trajectory.Schedule.{
  IsUnique, IsValid, drive_to_waypoint_total, schedule_waypoint_total, schedule_waypoint_past,
}
use polymetis_franka_teleop.Arm.{
  Numerics, Command, stop, servol, schedule_waypoint, move_home, unknown, Config, Tick, Arm,
}
use polymetis_franka_teleop.Arm.Commands.{servo_l, go_home, execute_command, execute}
use polymetis_franka_teleop.Arm.Loop.{
  put_state, publish, inject_home, take_auto_home, end_iteration, command_robot, finish, step, run,
}
use polymetis_franka_teleop.Arm.Total.{choose_target_total, command_robot-IsValid, go_home-IsValid}

-- A SERVOL takes some time, as `servoL` asserts.
unfoldable pub takes_time : {P : Type 0} → Option (Command P) → Bool
takes_time none = true
takes_time (some stop) = true
takes_time (some (servol pose duration)) = ltb 0 duration
takes_time (some (schedule_waypoint pose time)) = true
takes_time (some (move_home duration)) = true
takes_time (some unknown) = true

-- What `servoL` puts takes some time.
servo_l-takes_time :
    {P : Type 0} (is_alive : Bool) (dt : ℕ) (pose : P) (duration : ℕ) (command : Command P)
    → 0 < dt
    → servo_l is_alive dt pose duration ≡ ok command
    → takes_time (some command) ≡ true
unfolding servo_l takes_time
servo_l-takes_time is_alive dt pose duration command h e = ground arith

module _ {P J : Type 0} where
  -- The ring buffer takes the state, and a SERVOL takes some time.
  pub record IsFed (tick : Tick P J) : Type 0 where
    pub accepted : tick.state_accepted ≡ true
    pub lasts : takes_time tick.command ≡ true

  -- The outcome is a state with a trajectory that the class accepts.
  abbrev pub Succeeds : Result (Arm P J) → Type 0
  Succeeds r = (d : Arm P J) × (r ≡ ok d) × IsValid d.pose_interp

module _ {P J : Type 0} (traj_np : Trajectory.Numerics P) (np : Numerics P J) (cfg : Config)
    (law : IsUnique traj_np.unique) (fast : 0 < cfg.inf) where
  servol_total :
      (pose : P) (duration : ℕ) (tick : Tick P J) (c : Arm P J)
      → IsValid c.pose_interp
      → 0 < duration
      → Succeeds (execute_command traj_np cfg (servol pose duration) tick c)
  unfolding execute_command
  servol_total pose duration tick c v lasts =
      let curr_time = tick.now + cfg.dt in
      let done =
        drive_to_waypoint_total traj_np c.pose_interp pose (curr_time + duration) cfg.inf cfg.inf
          curr_time law v fast fast (omega arith) in
      (
        record c { pose_interp = done.0; last_waypoint_time = curr_time + duration },
        rw (done.1) refl,
        done.2.6,
      )

  schedule_total :
      (pose : P) (time : ℕ) (tick : Tick P J) (c : Arm P J)
      → IsValid c.pose_interp
      → Succeeds (execute_command traj_np cfg (schedule_waypoint pose time) tick c)
  unfolding execute_command
  schedule_total pose time tick c v =
      let target_time = tick.monotonic_time + time - tick.wall_time in
      let curr_time = tick.now + cfg.dt in
      elim (Bool-cases (leb target_time curr_time)) [
        | inl past ↦
            let same =
              schedule_waypoint_past traj_np c.pose_interp pose target_time cfg.inf cfg.inf
                curr_time (some c.last_waypoint_time) v fast fast (ground arith) in
            (record c { last_waypoint_time = target_time }, rw same refl, v)
        | inr later ↦
            let done =
              schedule_waypoint_total traj_np c.pose_interp pose target_time cfg.inf cfg.inf
                curr_time (some c.last_waypoint_time) law v fast fast (ground arith) in
            (
              record c { pose_interp = done.0; last_waypoint_time = target_time },
              rw (done.1) refl,
              done.2.6,
            )
      ]

  execute_total :
      (command : Option (Command P)) (tick : Tick P J) (c : Arm P J)
      → takes_time command ≡ true
      → IsValid c.pose_interp
      → Succeeds (execute traj_np cfg command tick c)
  unfolding execute execute_command takes_time
  execute_total none tick c h v = (c, refl, v)
  execute_total (some stop) tick c h v = (record c { keep_running = false }, refl, v)
  execute_total (some (servol pose duration)) tick c h v =
      servol_total pose duration tick c v (ground arith)
  execute_total (some (schedule_waypoint pose time)) tick c h v = schedule_total pose time tick c v
  execute_total (some (move_home duration)) tick c h v =
      (go_home cfg tick.home c, refl, go_home-IsValid cfg tick.home c v)
  execute_total (some unknown) tick c h v = (record c { keep_running = false }, refl, v)

  inject_home-takes_time :
      (command : Option (Command P)) (c : Arm P J)
      → takes_time command ≡ true
      → takes_time (inject_home command c) ≡ true
  unfolding inject_home takes_time
  inject_home-takes_time command c h =
      if_cases (λ (m : Option (Command P)). takes_time m ≡ true) c.auto_home_pending (λ e. refl)
        (λ e. h)

  take_auto_home-pose_interp : (c : Arm P J) → (take_auto_home c).pose_interp ≡ c.pose_interp
  unfolding take_auto_home
  take_auto_home-pose_interp c = ground arith

  publish_total :
      (pose : P) (q : J) (tick : Tick P J) (c : Arm P J)
      → tick.state_accepted ≡ true
      → (d : Arm P J) × (publish cfg pose q tick c ≡ ok d) × (d.pose_interp ≡ c.pose_interp)
  unfolding publish put_state
  publish_total pose q tick c h = (put_state cfg pose q tick.receive_time c, rw h refl, refl)

  finish_total :
      (batched : Option (P × J)) (tick : Tick P J) (c : Arm P J)
      → IsFed tick
      → IsValid c.pose_interp
      → Succeeds (finish traj_np np cfg batched tick c)
  unfolding finish end_iteration
  finish_total none tick c fed v = (c, refl, v)
  finish_total (some (pose, q)) tick c fed v =
      let put = publish_total pose q tick c fed.accepted in
      let taken = take_auto_home put.0 in
      let valid : IsValid taken.pose_interp = rw (take_auto_home-pose_interp put.0 ∙ put.2) v in
      let done =
        execute_total (inject_home tick.command put.0) tick taken
          (inject_home-takes_time tick.command put.0 fed.lasts) valid in
      (end_iteration tick.end_time done.0, rw (put.1, done.1) refl, done.2)

  pub step_total :
      (tick : Tick P J) (c : Arm P J)
      → IsFed tick
      → IsValid c.pose_interp
      → Succeeds (step traj_np np cfg tick c)
  unfolding step
  step_total tick c fed v =
      let aimed = choose_target_total traj_np np cfg tick c v in
      let same = aimed.2 in
      let valid : IsValid (aimed.0).pose_interp = rw (same.pose_interp) v in
      let done =
        finish_total tick.batched tick (command_robot np cfg tick aimed.0) fed
          (command_robot-IsValid np cfg tick aimed.0 valid) in
      (done.0, rw (aimed.1) (done.1), done.2)

  -- With a np.unique that sorts and removes duplicates and a positive limit for the speeds: from a
  -- state whose interpolator is one that the class accepts, any iterations in which the ring buffer
  -- takes the states and the SERVOL commands have a positive duration, whatever the robot answers
  -- or raises and whatever else is commanded, run without an exception, and the interpolator is
  -- accepted at the end.
  pub run_total :
      (ticks : List (Tick P J)) (c : Arm P J)
      → All IsFed ticks
      → IsValid c.pose_interp
      → Succeeds (run traj_np np cfg ticks c)
  unfolding run
  run_total [] c fed v = (c, refl, v)
  run_total (tick ∷ ticks) c fed v =
      let next = step_total tick c fed.0 v in
      let rest = run_total ticks next.0 fed.1 next.2 in
      if_cases Succeeds c.keep_running (λ e. (rest.0, rw (next.1) (rest.1), rest.2))
        (λ e. (c, refl, v))
