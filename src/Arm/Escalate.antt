-- ===== src/Arm/Escalate.antt =====
-- How recoveries add up to the automatic HOME.
use polymetis_franka_teleop.Prelude.{
  ℕ, ◌+◌, ◌-◌, ◌≤◌, ◌<◌, ◌≡◌, refl, ◌∙◌, inl, inr, Bool, true, false, Option, none, some, List, [],
  ◌∷◌, arith,
}
use polymetis_franka_teleop.Prelude.Tests.{if_cases}
use polymetis_franka_teleop.Prelude.Lists.{All}
use polymetis_franka_teleop.Prelude.Result.{Result, ok, err, ◌>>=◌, Result-cases}
use mathlib.Core.Path.{subst}
use polymetis_franka_teleop.Trajectory
use polymetis_franka_teleop.Trajectory.{drive_to_waypoint}
use polymetis_franka_teleop.Trajectory.Schedule.{IsUnique, IsValid}
use polymetis_franka_teleop.Arm.{
  Numerics, ErrorText, Reply, returned, raised, Ik, Command, stop, servol, schedule_waypoint,
  move_home, unknown, Config, HomeTick, Tick, Arm,
}
use polymetis_franka_teleop.Arm.Interface.{
  seed, resend, send_joints, send_solution, update_from, update_desired_ee_pose,
}
use polymetis_franka_teleop.Arm.Recover.{
  is_recoverable, count_recovery, restart, await_clutch, resync, recover_at, recover, handle,
}
use polymetis_franka_teleop.Arm.Commands.{fail_home, home_at, go_home, execute_command, execute}
use polymetis_franka_teleop.Arm.Loop.{
  put_state, publish, inject_home, take_auto_home, end_iteration, command_robot, finish, step, run,
}
use polymetis_franka_teleop.Arm.Total.{choose_target_total}
use polymetis_franka_teleop.Arm.Runs.{IsFed, step_total}

unfoldable pub answers : {A : Type 0} → Reply A → Bool
answers (returned a) = true
answers (raised text) = false

module _ {P J : Type 0} where
  -- The robot raises nothing in the update.
  pub record IsClean (tick : Tick P J) : Type 0 where
    pub answered : answers tick.q ≡ true
    pub updated : tick.update_error ≡ none

  -- The count of recoveries and the pending HOME are left as they are.
  abbrev Leaves : Arm P J → Result (Arm P J) → Type 0
  Leaves c (err e) = Unit
  Leaves c (ok d) =
      (d.consecutive_recovery_count ≡ c.consecutive_recovery_count)
      × (d.auto_home_pending ≡ c.auto_home_pending)

  home_at-Leaves :
      (cfg : Config) (pose : Option P) (home : HomeTick P J) (c : Arm P J)
      → Leaves c (ok (home_at cfg pose home c))
  unfolding home_at fail_home restart await_clutch
  home_at-Leaves cfg none home c = ground arith
  home_at-Leaves cfg (some pose) home c = ground arith

  go_home-Leaves :
      (cfg : Config) (home : HomeTick P J) (c : Arm P J) → Leaves c (ok (go_home cfg home c))
  unfolding go_home fail_home
  go_home-Leaves cfg home c = let posed = home_at-Leaves cfg home.pose home c in ground arith

  execute-Leaves :
      (traj_np : Trajectory.Numerics P) (cfg : Config) (command : Option (Command P))
      (tick : Tick P J) (c : Arm P J)
      → Leaves c (execute traj_np cfg command tick c)
  unfolding execute execute_command
  execute-Leaves traj_np cfg none tick c = (refl, refl)
  execute-Leaves traj_np cfg (some stop) tick c = (refl, refl)
  execute-Leaves traj_np cfg (some (servol pose duration)) tick c =
      let curr_time = tick.now + cfg.dt in
      elim (Result-cases (
        drive_to_waypoint traj_np c.pose_interp pose (curr_time + duration) curr_time cfg.inf
          cfg.inf)) [ inl done ↦ rw (done.1) (refl, refl) | inr failed ↦ rw (failed.1) tt ]
  execute-Leaves traj_np cfg (some (schedule_waypoint pose time)) tick c =
      let target_time = tick.monotonic_time + time - tick.wall_time in
      elim (Result-cases (
        Trajectory.schedule_waypoint traj_np c.pose_interp pose target_time cfg.inf cfg.inf
          (some (tick.now + cfg.dt)) (some c.last_waypoint_time))) [
            | inl done ↦ rw (done.1) (refl, refl)
            | inr failed ↦ rw (failed.1) tt
          ]
  execute-Leaves traj_np cfg (some (move_home duration)) tick c = go_home-Leaves cfg tick.home c
  execute-Leaves traj_np cfg (some unknown) tick c = (refl, refl)

  take_auto_home_idle : (c : Arm P J) → c.auto_home_pending ≡ false → take_auto_home c ≡ c
  unfolding take_auto_home
  take_auto_home_idle c h = ground arith

  Leaves-trans : (c d : Arm P J) (r : Result (Arm P J)) → Leaves c (ok d) → Leaves d r → Leaves c r
  Leaves-trans c d (ok e) h k = (k.0 ∙ h.0, k.1 ∙ h.1)
  Leaves-trans c d (err e) h k = tt

  end_iteration-Leaves :
      (time : ℕ) (c : Arm P J) (r : Result (Arm P J))
      → Leaves c r
      → Leaves c (r >>= (λ d. ok (end_iteration time d)))
  unfolding end_iteration
  end_iteration-Leaves time c (ok d) h = h
  end_iteration-Leaves time c (err e) h = tt

module _ {J : Type 0} where
  resend-clean : (last : Option J) (ik : Ik J) → (resend last none ik).1 ≡ none
  unfolding resend send_joints
  resend-clean none ik = refl
  resend-clean (some joints) ik = refl

  send_solution-clean : (found : J × Bool) (ik : Ik J) → (send_solution found none ik).1 ≡ none
  unfolding send_solution send_joints
  send_solution-clean (joints, false) ik =
      resend-clean ik.last_good_joint_target (record ik { ik_fail_streak = ik.ik_fail_streak + 1 })
  send_solution-clean (joints, true) ik = refl

seed-answers :
    {J : Type 0} (cached : Option J) (q : Reply J)
    → answers q ≡ true
    → answers (seed cached q) ≡ true
unfolding seed answers
seed-answers none q h = h
seed-answers (some cached) q h = refl

module _ {P J : Type 0} (np : Numerics P J) where
  update_from-clean :
      (q : Reply J) (pose : P) (ik : Ik J)
      → answers q ≡ true
      → (update_from np q pose none ik).1 ≡ none
  unfolding update_from answers
  update_from-clean (raised text) pose ik h = cc
  update_from-clean (returned q) pose ik h = send_solution-clean (np.solve pose q) ik

  update-clean :
      (pose : P) (q : Reply J) (ik : Ik J)
      → answers q ≡ true
      → (update_desired_ee_pose np pose q none ik).1 ≡ none
  unfolding update_desired_ee_pose
  update-clean pose q ik h =
      update_from-clean (seed ik.cached_q q) pose ik (seed-answers ik.cached_q q h)

  command_robot-clean :
      (cfg : Config) (tick : Tick P J) (c : Arm P J)
      → IsClean tick
      → Leaves c (ok (command_robot np cfg tick c))
  unfolding command_robot handle
  command_robot-clean cfg tick c h =
      let e : (update_desired_ee_pose np c.target_pose tick.q tick.update_error c.ik).1 ≡ none =
        rw (h.updated) (update-clean c.target_pose tick.q c.ik h.answered) in
      rw e (refl, refl)

module _ {P J : Type 0} (traj_np : Trajectory.Numerics P) (np : Numerics P J) (cfg : Config) where
  finish-Leaves :
      (batched : Option (P × J)) (tick : Tick P J) (c : Arm P J)
      → c.auto_home_pending ≡ false
      → Leaves c (finish traj_np np cfg batched tick c)
  unfolding finish publish put_state end_iteration
  finish-Leaves none tick c h = (refl, refl)
  finish-Leaves (some (pose, q)) tick c h =
      let put = put_state cfg pose q tick.receive_time c in
      let same = take_auto_home_idle put h in
      let command = inject_home tick.command put in
      let left : Leaves c (execute traj_np cfg command tick (take_auto_home put)) =
        rw same (execute-Leaves traj_np cfg command tick put) in
      if_cases
        (λ (r : Result (Arm P J)). Leaves c (
          r >>= (λ p.
            execute traj_np cfg (inject_home tick.command p) tick (take_auto_home p)
            >>= (λ d. ok (end_iteration tick.end_time d)))))
        tick.state_accepted
        (λ e.
          end_iteration-Leaves tick.end_time c
            (execute traj_np cfg command tick (take_auto_home put)) left)
        (λ e. tt)

  step-Leaves :
      (tick : Tick P J) (c : Arm P J)
      → IsClean tick
      → IsValid c.pose_interp
      → c.auto_home_pending ≡ false
      → Leaves c (step traj_np np cfg tick c)
  unfolding step
  step-Leaves tick c clean v h =
      let aimed = choose_target_total traj_np np cfg tick c v in
      let same = aimed.2 in
      let commanded = command_robot np cfg tick aimed.0 in
      let left = command_robot-clean np cfg tick aimed.0 clean in
      let idle : commanded.auto_home_pending ≡ false = left.1 ∙ same.pending ∙ h in
      let finished = finish-Leaves tick.batched tick commanded idle in
      rw (aimed.1) (
        Leaves-trans c commanded (finish traj_np np cfg tick.batched tick commanded)
          (left.0 ∙ same.consecutive, left.1 ∙ same.pending) finished)

  module _ (law : IsUnique traj_np.unique) (fast : 0 < cfg.inf) where
    run-Leaves :
        (ticks : List (Tick P J)) (c : Arm P J)
        → All IsFed ticks
        → All IsClean ticks
        → IsValid c.pose_interp
        → c.auto_home_pending ≡ false
        → Leaves c (run traj_np np cfg ticks c)
    unfolding run
    run-Leaves [] c fed clean v h = (refl, refl)
    run-Leaves (tick ∷ ticks) c fed clean v h =
        let next = step_total traj_np np cfg law fast tick c fed.0 v in
        let left : Leaves c (ok next.0) = rw (next.1) at (step-Leaves tick c clean.0 v h) in
        let rest = run-Leaves ticks next.0 fed.1 clean.1 next.2 (left.1 ∙ h) in
        if_cases (Leaves c) c.keep_running
          (λ e. rw (next.1) (Leaves-trans c next.0 (run traj_np np cfg ticks next.0) left rest))
          (λ e. (refl, refl))

    recover_at-pending :
        (text : ErrorText) (pose : Option P) (tick : Tick P J) (c : Arm P J)
        → (recover_at np cfg text pose tick c).auto_home_pending ≡ c.auto_home_pending
    unfolding recover_at restart resync await_clutch
    recover_at-pending text none tick c = refl
    recover_at-pending text (some pose) tick c = ground arith

    -- Once there was a recovery, iterations without any error of the robot, however many they are and
    -- however long they take, leave the count of recoveries; so in teleop mode the next recoverable
    -- error less than 10 s after the last iteration asks for the automatic HOME.
    pub run_remembers_recovery :
        (ticks : List (Tick P J)) (tick : Tick P J) (text : ErrorText) (c d : Arm P J)
        → All IsFed ticks
        → All IsClean ticks
        → IsValid c.pose_interp
        → c.auto_home_pending ≡ false
        → 1 ≤ c.consecutive_recovery_count
        → cfg.teleop_mode ≡ true
        → run traj_np np cfg ticks c ≡ ok d
        → is_recoverable text ≡ true
        → tick.recovery_time < d.last_clean_iter_t + 10000
        → (recover np cfg text tick d).auto_home_pending ≡ true
    unfolding recover count_recovery
    run_remembers_recovery ticks tick text c d fed clean v h counted teleop e known soon =
        let left : Leaves c (ok d) = subst (Leaves c) e (run-Leaves ticks c fed clean v h) in
        let same =
          recover_at-pending text tick.recovered_pose tick
            (count_recovery cfg tick.recovery_time d) in
        ground arith
