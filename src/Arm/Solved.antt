-- ===== src/Arm/Solved.antt =====
-- The joint targets that the robot gets: solutions of the inverse kinematics, and, in the waits for
-- its controller, the joints that it reports.
use polymetis_franka_teleop.Prelude.{
  ◌+◌, ◌≡◌, refl, Bool, true, false, ◌⊎◌, inl, inr, Option, none, some, List, [], ◌∷◌, ◌++◌, arith,
}
use polymetis_franka_teleop.Prelude.Tests.{if_cases}
use polymetis_franka_teleop.Prelude.Lists.{All, All-snoc}
use polymetis_franka_teleop.Arm.{
  Numerics, ErrorText, Reply, returned, raised, Ik, Poll, unread, polled, Config, HomeTick, Tick,
  Arm,
}
use polymetis_franka_teleop.Arm.Interface.{
  new_ik, reset_ik_state, seed, resend, send_joints, send_solution, update_from,
  update_desired_ee_pose, wait_until_controller_ready,
}
use polymetis_franka_teleop.Arm.Recover.{
  is_recoverable, count_recovery, restart, await_clutch, resync, recover_at, recover, handle,
}
use polymetis_franka_teleop.Arm.Commands.{fail_home, home_at, go_home}
use polymetis_franka_teleop.Arm.Loop.{command_robot}

-- `Reported` holds of the joints that the robot reports while its controller is waited for.
module _ {P J : Type 0} (np : Numerics P J) (Reported : J → Type 0) where
  -- Joints that the inverse kinematics has found for some pose.
  pub record IsSolution (joints : J) : Type 0 where
    pub pose : P
    pub q : J
    pub found : np.solve pose q ≡ (joints, true)

  abbrev pub IsAllowed : J → Type 0
  IsAllowed joints = IsSolution joints ⊎ Reported joints

  abbrev pub IsRead : Poll J → Type 0
  IsRead unread = Unit
  IsRead (polled q_now accepted) = Reported q_now

  abbrev pub AreRead : List (Poll J) → Type 0
  AreRead polls = All IsRead polls

  -- What an iteration reads in its waits.
  abbrev pub IsReported : Tick P J → Type 0
  IsReported tick = AreRead tick.recovery_polls × AreRead tick.home.polls

  -- The joints that may be sent again.
  abbrev pub IsGood : Option J → Type 0
  IsGood none = Unit
  IsGood (some joints) = IsSolution joints

  pub record IsSolved (ik : Ik J) : Type 0 where
    pub good : IsGood ik.last_good_joint_target
    pub allowed : All IsAllowed ik.sent

  pub new_ik-IsSolved : IsSolved new_ik
  unfolding new_ik
  new_ik-IsSolved = record { good = tt; allowed = tt }

  reset_ik_state-IsSolved : (ik : Ik J) → IsSolved ik → IsSolved (reset_ik_state ik)
  unfolding reset_ik_state
  reset_ik_state-IsSolved ik h = record { good = tt; allowed = h.allowed }

  pub wait-IsSolved :
      (polls : List (Poll J)) (ik : Ik J)
      → AreRead polls
      → IsSolved ik
      → IsSolved (wait_until_controller_ready polls ik).0
  unfolding wait_until_controller_ready
  wait-IsSolved [] ik read h = h
  wait-IsSolved (unread ∷ polls) ik (q, read) h = wait-IsSolved polls ik read h
  wait-IsSolved (polled q_now accepted ∷ polls) ik (q, read) h =
      let fed : IsSolved (record ik { sent = ik.sent ++ q_now ∷ [] }) = record {
        good = h.good;
        allowed = All-snoc IsAllowed ik.sent q_now h.allowed (inr q);
      } in
      if_cases (λ (r : Ik J × Bool). IsSolved r.0) accepted (λ e. fed)
        (λ e. wait-IsSolved polls (record ik { sent = ik.sent ++ q_now ∷ [] }) read fed)

  resend-IsSolved :
      (last : Option J) (error : Option ErrorText) (ik : Ik J)
      → IsGood last
      → IsSolved ik
      → IsSolved (resend last error ik).0
  unfolding resend send_joints
  resend-IsSolved none error ik g h = h
  resend-IsSolved (some joints) error ik g h = record {
    good = h.good;
    allowed = All-snoc IsAllowed ik.sent joints h.allowed (inl g);
  }

  send_solution-IsSolved :
      (found : J × Bool) (error : Option ErrorText) (pose : P) (q : J) (ik : Ik J)
      → np.solve pose q ≡ found
      → IsSolved ik
      → IsSolved (send_solution found error ik).0
  unfolding send_solution send_joints
  send_solution-IsSolved (joints, false) error pose q ik e h =
      resend-IsSolved ik.last_good_joint_target error
        (record ik { ik_fail_streak = ik.ik_fail_streak + 1 }) h.good
        (record { good = h.good; allowed = h.allowed })
  send_solution-IsSolved (joints, true) error pose q ik e h =
      let solution : IsSolution joints = record { pose = pose; q = q; found = e } in
      record {
        good = solution;
        allowed = All-snoc IsAllowed ik.sent joints h.allowed (inl solution);
      }

  update_from-IsSolved :
      (q : Reply J) (pose : P) (error : Option ErrorText) (ik : Ik J)
      → IsSolved ik
      → IsSolved (update_from np q pose error ik).0
  unfolding update_from
  update_from-IsSolved (raised text) pose error ik h = h
  update_from-IsSolved (returned q) pose error ik h =
      send_solution-IsSolved (np.solve pose q) error pose q ik refl h

  update-IsSolved :
      (pose : P) (q : Reply J) (error : Option ErrorText) (ik : Ik J)
      → IsSolved ik
      → IsSolved (update_desired_ee_pose np pose q error ik).0
  unfolding update_desired_ee_pose
  update-IsSolved pose q error ik h = update_from-IsSolved (seed ik.cached_q q) pose error ik h

  -- What the other parts of an iteration may do with the interface.
  recover_at-IsSolved :
      (cfg : Config) (text : ErrorText) (pose : Option P) (tick : Tick P J) (c : Arm P J)
      → AreRead tick.recovery_polls
      → IsSolved c.ik
      → IsSolved (recover_at np cfg text pose tick c).ik
  unfolding recover_at restart resync await_clutch
  recover_at-IsSolved cfg text none tick c read h = h
  recover_at-IsSolved cfg text (some pose) tick c read h =
      let waited = wait-IsSolved tick.recovery_polls c.ik read h in
      let reset =
        reset_ik_state-IsSolved (wait_until_controller_ready tick.recovery_polls c.ik).0 waited in
      ground arith

  recover-IsSolved :
      (cfg : Config) (text : ErrorText) (tick : Tick P J) (c : Arm P J)
      → AreRead tick.recovery_polls
      → IsSolved c.ik
      → IsSolved (recover np cfg text tick c).ik
  unfolding recover count_recovery
  recover-IsSolved cfg text tick c read h =
      if_cases (λ (d : Arm P J). IsSolved d.ik) (is_recoverable text)
        (λ e.
          recover_at-IsSolved cfg text tick.recovered_pose tick
            (count_recovery cfg tick.recovery_time c) read h)
        (λ e. h)

  handle-IsSolved :
      (cfg : Config) (error : Option ErrorText) (tick : Tick P J) (c : Arm P J)
      → AreRead tick.recovery_polls
      → IsSolved c.ik
      → IsSolved (handle np cfg error tick c).ik
  unfolding handle
  handle-IsSolved cfg none tick c read h = h
  handle-IsSolved cfg (some text) tick c read h = recover-IsSolved cfg text tick c read h

  pub command_robot-IsSolved :
      (cfg : Config) (tick : Tick P J) (c : Arm P J)
      → AreRead tick.recovery_polls
      → IsSolved c.ik
      → IsSolved (command_robot np cfg tick c).ik
  unfolding command_robot
  command_robot-IsSolved cfg tick c read h =
      let done = update_desired_ee_pose np c.target_pose tick.q tick.update_error c.ik in
      handle-IsSolved cfg done.1 tick (record c { ik = done.0 }) read
        (update-IsSolved c.target_pose tick.q tick.update_error c.ik h)

  home_at-IsSolved :
      (cfg : Config) (pose : Option P) (home : HomeTick P J) (c : Arm P J)
      → AreRead home.polls
      → IsSolved c.ik
      → IsSolved (home_at cfg pose home c).ik
  unfolding home_at fail_home restart await_clutch
  home_at-IsSolved cfg none home c read h =
      let reset = reset_ik_state-IsSolved c.ik h in ground arith
  home_at-IsSolved cfg (some pose) home c read h =
      let failed = reset_ik_state-IsSolved c.ik h in
      let waited = wait-IsSolved home.polls c.ik read h in
      let reset = reset_ik_state-IsSolved (wait_until_controller_ready home.polls c.ik).0 waited in
      ground arith

  pub go_home-IsSolved :
      (cfg : Config) (home : HomeTick P J) (c : Arm P J)
      → AreRead home.polls
      → IsSolved c.ik
      → IsSolved (go_home cfg home c).ik
  unfolding go_home fail_home
  go_home-IsSolved cfg home c read h =
      let reset = reset_ik_state-IsSolved c.ik h in
      let posed = home_at-IsSolved cfg home.pose home c read h in ground arith
