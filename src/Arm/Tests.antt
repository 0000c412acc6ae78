-- ===== src/Arm/Tests.antt =====
-- Runs of the arm's loop at concrete states; poses and joints are numbers.
use polymetis_franka_teleop.Prelude.{
  ℕ, ◌+◌, ◌-◌, ◌≡◌, refl, true, false, none, some, List, [], ◌∷◌, arith,
}
use polymetis_franka_teleop.Prelude.Tests.{ltb}
use polymetis_franka_teleop.Prelude.Result.{ok, ◌>>=◌}
use polymetis_franka_teleop.Trajectory.Tests.{line, sort_times-IsUnique}
use polymetis_franka_teleop.Vive.{RobotState}
use polymetis_franka_teleop.Arm.{
  Numerics, no_controller_running, communication_constraints_violation, cartesian_reflex,
  joint_velocity_violation, cartesian_velocity_violation, joint_position_limits,
  torque_discontinuity, reflex, velocity_violation, ErrorText, returned, servol, Config, Poll,
  unread, polled, HomeTick, Tick, Arm,
}
use polymetis_franka_teleop.Arm.Interface.{
  new_ik, set_cached_q, seed, send_joints, send_solution, update_from, update_desired_ee_pose,
}
use polymetis_franka_teleop.Arm.Target.{engage, select, after_select, read_teleop, choose_target}
use polymetis_franka_teleop.Arm.Recover.{is_recoverable, is_watchdog_only, recover, handle}
use polymetis_franka_teleop.Arm.Commands.{execute}
use polymetis_franka_teleop.Arm.Loop.{
  new_arm, wait_at_start, state_of, put_state, publish, inject_home, take_auto_home, end_iteration,
  command_robot, finish, step, run,
}
use polymetis_franka_teleop.Arm.Total.{hold_at-IsValid}
use polymetis_franka_teleop.Arm.Runs.{takes_time, IsFed, Succeeds, run_total}
use polymetis_franka_teleop.Arm.Escalate.{answers, IsClean, run_remembers_recovery}
use polymetis_franka_teleop.Arm.Grip.{recover_forgets_grip}
use polymetis_franka_teleop.Arm.Sent.{HasSolved, run-new_arm-HasSolved}
use polymetis_franka_teleop.Arm.Solved.{AreRead}

-- Poses up to 100 can be reached.
abbrev np : Numerics ℕ ℕ
np = record { add = λ a b. a + b; sub = λ a b. a - b; solve = λ pose q. (pose, ltb pose 100) }

abbrev cfg : Config
cfg = record { teleop_mode = true; dt = 10; receive_latency = 1; inf = 1000 }

-- The text of a reflex, and one of the watchdog.
unfoldable reflex_text : ErrorText
reflex_text no_controller_running = false
reflex_text communication_constraints_violation = false
reflex_text cartesian_reflex = true
reflex_text joint_velocity_violation = false
reflex_text cartesian_velocity_violation = false
reflex_text joint_position_limits = false
reflex_text torque_discontinuity = false
reflex_text reflex = true
reflex_text velocity_violation = false

-- The teleoperation with the clutch held.
abbrev held : ℕ → RobotState ℕ
held time = record {
  target_pose = 3;
  clutch_active = true;
  rotation_active = false;
  teleop_timestamp = time;
}

abbrev polls : List (Poll ℕ)
polls = unread ∷ polled 20 false ∷ polled 20 true ∷ []

abbrev home : HomeTick ℕ ℕ
home = record {
  moved = true;
  pose = some 50;
  started = true;
  polls = polls;
  restarted = true;
  interp_time = 9;
  start_time = 9;
}

abbrev tick : ℕ → Tick ℕ ℕ
tick time = record {
  now = time;
  teleop = some (held time);
  pose = some 20;
  q = returned 20;
  update_error = none;
  recovery_time = time;
  recovered_pose = some 21;
  recovery_started = true;
  recovery_polls = polls;
  recovery_start_time = time;
  recovered_teleop = none;
  batched = some (20, 20);
  receive_time = time;
  state_accepted = true;
  command = none;
  monotonic_time = time;
  wall_time = time;
  home = home;
  end_time = time;
}

abbrev commanded : ℕ → Tick ℕ ℕ
commanded time = record (tick time) { command = some (servol 30 100) }

abbrev first : Arm ℕ ℕ
unfolding new_arm
first = new_arm 20 100 100 100 (some false)

-- There was a recovery before.
abbrev recovered : Arm ℕ ℕ
recovered = record first { consecutive_recovery_count = 1 }

tick-IsFed : (time : ℕ) → IsFed (tick time)
unfolding takes_time
tick-IsFed time = record { accepted = refl; lasts = refl }

commanded-IsFed : (time : ℕ) → IsFed (commanded time)
unfolding takes_time
commanded-IsFed time = record { accepted = refl; lasts = refl }

tick-IsClean : (time : ℕ) → IsClean (tick time)
unfolding answers
tick-IsClean time = record { answered = refl; updated = refl }

run_total_example : Succeeds (run line np cfg (commanded 110 ∷ tick 120 ∷ []) first)
unfolding first new_arm
run_total_example =
    run_total line np cfg sort_times-IsUnique (omega arith) (commanded 110 ∷ tick 120 ∷ []) first
      (commanded-IsFed 110, (tick-IsFed 120, tt)) (hold_at-IsValid 100 20)

-- The state after an iteration an hour after the recovery.
abbrev hour : ℕ
hour = 3600000

abbrev later : Arm ℕ ℕ
unfolding first new_arm
later = record recovered {
  ik = record {
    cached_q = some 20;
    last_good_joint_target = some 20;
    ik_fail_streak = 0;
    sent = 20 ∷ [];
  };
  curr_pose = 20;
  target_pose = 20;
  teleop_target_pose = 20;
  prev_clutch_active = true;
  clutch_pose_offset = some 17;
  iter_idx = 1;
  last_clean_iter_t = hour;
  ready = true;
  states =
      record {
        actual_tcp_pose = 20;
        actual_q = 20;
        last_joint_cmd = some 20;
        last_ee_pose_cmd = 20;
        robot_receive_timestamp = hour;
        robot_timestamp = hour - 1;
      }
      ∷ [];
}

run-later : run line np cfg (tick hour ∷ []) recovered ≡ ok later
unfolding run step choose_target read_teleop select engage after_select command_robot
    update_desired_ee_pose update_from seed send_solution send_joints handle finish publish
    put_state state_of inject_home take_auto_home execute end_iteration set_cached_q first new_arm
    later new_ik
run-later = refl

run_remembers_recovery_example :
    (recover np cfg reflex_text (tick (hour + 5)) later).auto_home_pending ≡ true
unfolding first new_arm reflex_text is_recoverable later
run_remembers_recovery_example =
    run_remembers_recovery line np cfg sort_times-IsUnique (omega arith) (tick hour ∷ [])
      (tick (hour + 5)) reflex_text recovered later (tick-IsFed hour, tt) (tick-IsClean hour, tt)
      (hold_at-IsValid 100 20) refl (omega arith) refl run-later refl (omega arith)

recover_forgets_grip_example :
    ((recover np cfg reflex_text (tick 110) first).wait_for_clutch_engage ≡ true)
    × (d : Arm ℕ ℕ) × ((finish line np cfg
            (some (20, 20))
            (tick 110)
            (recover np cfg reflex_text (tick 110) first)
          >>= (λ e. choose_target line np cfg (tick 120) e))
        ≡ ok d)
    × (d.wait_for_clutch_engage ≡ false)
    × (d.prev_clutch_active ≡ true)
    × (d.clutch_pose_offset ≡ some (20 - 3))
unfolding first new_arm reflex_text is_recoverable is_watchdog_only
recover_forgets_grip_example =
    recover_forgets_grip line np cfg reflex_text (tick 110) (tick 120) first 21 20 20 20 (held 120)
      refl refl refl refl refl refl refl refl refl refl refl refl

-- A tick whose update raises, so that the loop recovers.
abbrev failing : ℕ → Tick ℕ ℕ
failing time = record (tick time) { update_error = some reflex_text }

polls-AreRead : AreRead np (λ q. q ≡ 20) polls
polls-AreRead = (tt, (refl, (refl, tt)))

run-new_arm-HasSolved_example :
    HasSolved line np
      (λ q. q ≡ 20)
      (run line np cfg
        (failing 110 ∷ tick 120 ∷ [])
        (wait_at_start polls (new_arm 20 100 100 100 none)))
run-new_arm-HasSolved_example =
    run-new_arm-HasSolved line np (λ q. q ≡ 20) cfg polls (failing 110 ∷ tick 120 ∷ []) 20 100 100
      100 none polls-AreRead ((polls-AreRead, polls-AreRead), ((polls-AreRead, polls-AreRead), tt))
