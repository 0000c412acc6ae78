-- ===== src/Arm/Total.antt =====
-- What a pass of the loop leaves as it is, and that it raises nothing.
use polymetis_franka_teleop.Prelude.{ℕ, ◌≡◌, refl, Bool, true, false, Option, none, some, arith}
use polymetis_franka_teleop.Prelude.Tests.{if_cases}
use polymetis_franka_teleop.Prelude.Result.{Result, ok}
use polymetis_franka_teleop.Trajectory
use polymetis_franka_teleop.Trajectory.{Trajectory, call, is_past, is_strict, same_size}
use polymetis_franka_teleop.Trajectory.Schedule.{IsValid, call_total}
use polymetis_franka_teleop.Vive.{RobotState}
use polymetis_franka_teleop.Arm.{Numerics, ErrorText, Config, HomeTick, Tick, Arm}
use polymetis_franka_teleop.Arm.Interface.{update_desired_ee_pose, wait_until_controller_ready}
use polymetis_franka_teleop.Arm.Target.{
  hold, follow_rotation, engage, follow_clutch, select, interpolate, after_select, read_teleop,
  choose_target,
}
use polymetis_franka_teleop.Arm.Recover.{
  hold_at, is_recoverable, count_recovery, restart, await_clutch, resync, recover_at, recover,
  handle,
}
use polymetis_franka_teleop.Arm.Commands.{fail_home, home_at, go_home}
use polymetis_franka_teleop.Arm.Loop.{command_robot}

pub hold_at-IsValid : {P : Type 0} (time : ℕ) (pose : P) → IsValid (hold_at time pose)
unfolding hold_at same_size is_strict
hold_at-IsValid time pose = record { sized = refl; strict = refl }

module _ {P J : Type 0} where
  -- The choice of the target leaves the rest as it is.
  pub record IsAimed (c d : Arm P J) : Type 0 where
    pub pose_interp : d.pose_interp ≡ c.pose_interp
    pub ik : d.ik ≡ c.ik
    pub consecutive : d.consecutive_recovery_count ≡ c.consecutive_recovery_count
    pub pending : d.auto_home_pending ≡ c.auto_home_pending
    pub clean : d.last_clean_iter_t ≡ c.last_clean_iter_t

  pub select-IsAimed :
      (np : Numerics P J) (s : RobotState P) (pose : Option P) (c : Arm P J)
      → IsAimed c (select np s pose c).0
  unfolding select engage follow_clutch follow_rotation hold
  select-IsAimed np s none c = ground arith
  select-IsAimed np s (some pose) c = ground arith

  module _ (traj_np : Trajectory.Numerics P) where
    interpolate_total :
        (now : ℕ) (c : Arm P J)
        → IsValid c.pose_interp
        → (d : Arm P J) × (interpolate traj_np now c ≡ ok d) × IsAimed c d
    unfolding interpolate
    interpolate_total now c v =
        let pose = call_total traj_np c.pose_interp now v in
        (
          record c { target_pose = pose.0 },
          rw (pose.1) refl,
          record {
            pose_interp = refl;
            ik = refl;
            consecutive = refl;
            pending = refl;
            clean = refl;
          },
        )

    after_select_total :
        (now : ℕ) (clutch_active : Bool) (c : Arm P J) (chosen : Arm P J × Bool)
        → IsValid c.pose_interp
        → IsAimed c chosen.0
        → (d : Arm P J) × (after_select traj_np now clutch_active chosen ≡ ok d) × IsAimed c d
    unfolding after_select
    after_select_total now clutch_active c (chosen, true) v h =
        (record chosen { prev_clutch_active = clutch_active }, refl, ground arith)
    after_select_total now clutch_active c (chosen, false) v h =
        let valid : IsValid chosen.pose_interp = rw (h.pose_interp) v in
        let done = interpolate_total now chosen valid in
        let aimed = done.2 in (done.0, done.1, ground arith)

    read_teleop_total :
        (np : Numerics P J) (read : Option (RobotState P)) (now : ℕ) (pose : Option P) (c : Arm P J)
        → IsValid c.pose_interp
        → (d : Arm P J) × (read_teleop traj_np np read now pose c ≡ ok d) × IsAimed c d
    unfolding read_teleop
    read_teleop_total np none now pose c v = interpolate_total now c v
    read_teleop_total np (some s) now pose c v =
        after_select_total now s.clutch_active c (select np s pose c) v (select-IsAimed np s pose c)

    pub choose_target_total :
        (np : Numerics P J) (cfg : Config) (tick : Tick P J) (c : Arm P J)
        → IsValid c.pose_interp
        → (d : Arm P J) × (choose_target traj_np np cfg tick c ≡ ok d) × IsAimed c d
    unfolding choose_target
    choose_target_total np cfg tick c v =
        if_cases (λ (r : Result (Arm P J)). (d : Arm P J) × (r ≡ ok d) × IsAimed c d)
          cfg.teleop_mode (λ e. read_teleop_total np tick.teleop tick.now tick.pose c v)
          (λ e. interpolate_total tick.now c v)

  restart-IsValid :
      (interp_time time : ℕ) (pose : P) (c : Arm P J)
      → IsValid (restart interp_time time pose c).pose_interp
  unfolding restart
  restart-IsValid interp_time time pose c = hold_at-IsValid interp_time pose

  resync-pose_interp :
      (np : Numerics P J) (cfg : Config) (text : ErrorText) (pose : P)
      (teleop : Option (RobotState P)) (c : Arm P J)
      → (resync np cfg text pose teleop c).pose_interp ≡ c.pose_interp
  unfolding resync await_clutch
  resync-pose_interp np cfg text pose teleop c = ground arith

  recover_at-IsValid :
      (np : Numerics P J) (cfg : Config) (text : ErrorText) (pose : Option P) (tick : Tick P J)
      (c : Arm P J)
      → IsValid c.pose_interp
      → IsValid (recover_at np cfg text pose tick c).pose_interp
  unfolding recover_at
  recover_at-IsValid np cfg text none tick c v = v
  recover_at-IsValid np cfg text (some pose) tick c v =
      let posed : Arm P J = record c { curr_pose = pose; teleop_target_pose = pose } in
      let time = tick.recovery_start_time in
      let waited : Arm P J = record posed {
        ik = (wait_until_controller_ready tick.recovery_polls c.ik).0;
      } in
      let restarted = restart time time pose waited in
      if_cases (λ (d : Arm P J). IsValid d.pose_interp) tick.recovery_started
        (λ e.
          rw (resync-pose_interp np cfg text pose tick.recovered_teleop restarted)
            (restart-IsValid time time pose waited))
        (λ e. v)

  recover-IsValid :
      (np : Numerics P J) (cfg : Config) (text : ErrorText) (tick : Tick P J) (c : Arm P J)
      → IsValid c.pose_interp
      → IsValid (recover np cfg text tick c).pose_interp
  unfolding recover count_recovery
  recover-IsValid np cfg text tick c v =
      if_cases (λ (d : Arm P J). IsValid d.pose_interp) (is_recoverable text)
        (λ e.
          recover_at-IsValid np cfg text tick.recovered_pose tick
            (count_recovery cfg tick.recovery_time c) v)
        (λ e. v)

  handle-IsValid :
      (np : Numerics P J) (cfg : Config) (error : Option ErrorText) (tick : Tick P J) (c : Arm P J)
      → IsValid c.pose_interp
      → IsValid (handle np cfg error tick c).pose_interp
  unfolding handle
  handle-IsValid np cfg none tick c v = v
  handle-IsValid np cfg (some text) tick c v = recover-IsValid np cfg text tick c v

  pub command_robot-IsValid :
      (np : Numerics P J) (cfg : Config) (tick : Tick P J) (c : Arm P J)
      → IsValid c.pose_interp
      → IsValid (command_robot np cfg tick c).pose_interp
  unfolding command_robot
  command_robot-IsValid np cfg tick c v =
      let done = update_desired_ee_pose np c.target_pose tick.q tick.update_error c.ik in
      handle-IsValid np cfg done.1 tick (record c { ik = done.0 }) v

  fail_home-pose_interp :
      (home : HomeTick P J) (c : Arm P J) → (fail_home home c).pose_interp ≡ c.pose_interp
  unfolding fail_home
  fail_home-pose_interp home c = ground arith

  home_at-IsValid :
      (cfg : Config) (pose : Option P) (home : HomeTick P J) (c : Arm P J)
      → IsValid c.pose_interp
      → IsValid (home_at cfg pose home c).pose_interp
  unfolding home_at await_clutch
  home_at-IsValid cfg none home c v = rw (fail_home-pose_interp home c) v
  home_at-IsValid cfg (some pose) home c v =
      let posed : Arm P J = record c { curr_pose = pose; teleop_target_pose = pose } in
      let waited : Arm P J = record posed {
        ik = (wait_until_controller_ready home.polls c.ik).0;
      } in
      let valid = restart-IsValid home.interp_time home.start_time pose waited in
      if_cases (λ (d : Arm P J). IsValid d.pose_interp) home.started
        (λ e.
          if_cases (λ (d : Arm P J). IsValid d.pose_interp) cfg.teleop_mode (λ t. valid)
            (λ t. valid))
        (λ e. rw (fail_home-pose_interp home posed) v)

  pub go_home-IsValid :
      (cfg : Config) (home : HomeTick P J) (c : Arm P J)
      → IsValid c.pose_interp
      → IsValid (go_home cfg home c).pose_interp
  unfolding go_home
  go_home-IsValid cfg home c v =
      if_cases (λ (d : Arm P J). IsValid d.pose_interp) home.moved
        (λ e. home_at-IsValid cfg home.pose home c v) (λ e. rw (fail_home-pose_interp home c) v)
