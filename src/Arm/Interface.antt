-- ===== src/Arm/Interface.antt =====
-- `FrankaInterface`: the joint targets that it sends, with what it keeps between the calls.
use polymetis_franka_teleop.Prelude.{
  ◌+◌, Bool, true, false, Option, none, some, List, [], ◌∷◌, ◌++◌,
}
use polymetis_franka_teleop.Prelude.Tests.{if◌then◌else◌}
use polymetis_franka_teleop.Arm.{
  Numerics, ErrorText, Reply, returned, raised, Ik, Poll, unread, polled,
}

module _ {J : Type 0} where
  unfoldable pub new_ik : Ik J
  new_ik = record { cached_q = none; last_good_joint_target = none; ik_fail_streak = 0; sent = [] }

  unfoldable pub reset_ik_state : Ik J → Ik J
  reset_ik_state ik = record ik {
    cached_q = none;
    last_good_joint_target = none;
    ik_fail_streak = 0;
  }

  unfoldable pub set_cached_q : J → Ik J → Ik J
  set_cached_q q ik = record ik { cached_q = some q }

  -- `update_desired_joint_positions`, with the error that it raises.
  unfoldable pub send_joints : J → Option ErrorText → Ik J → Ik J × Option ErrorText
  send_joints joints error ik = (record ik { sent = ik.sent ++ joints ∷ [] }, error)

  -- `wait_until_controller_ready`, over its passes until its deadline: the robot's own joints are
  -- sent until it takes them.
  unfoldable pub wait_until_controller_ready : List (Poll J) → Ik J → Ik J × Bool
  wait_until_controller_ready [] ik = (ik, false)
  wait_until_controller_ready (unread ∷ polls) ik = wait_until_controller_ready polls ik
  wait_until_controller_ready (polled q_now accepted ∷ polls) ik =
      let fed : Ik J = record ik { sent = ik.sent ++ q_now ∷ [] } in
      let rest = wait_until_controller_ready polls fed in if accepted then (fed, true) else rest

  unfoldable pub resend : Option J → Option ErrorText → Ik J → Ik J × Option ErrorText
  unfolding send_joints
  resend none error ik = (ik, none)
  resend (some joints) error ik = send_joints joints error ik

  -- What follows the inverse kinematics: without success the last good target is sent again.
  unfoldable pub send_solution : J × Bool → Option ErrorText → Ik J → Ik J × Option ErrorText
  unfolding send_joints resend
  send_solution (joints, false) error ik =
      resend ik.last_good_joint_target error (record ik { ik_fail_streak = ik.ik_fail_streak + 1 })
  send_solution (joints, true) error ik =
      send_joints joints error
        (record ik { ik_fail_streak = 0; last_good_joint_target = some joints })

  -- The seed: the cached joints, or else those that the robot reports.
  unfoldable pub seed : Option J → Reply J → Reply J
  seed none q = q
  seed (some cached) q = returned cached

module _ {P J : Type 0} (np : Numerics P J) where
  unfoldable pub update_from : Reply J → P → Option ErrorText → Ik J → Ik J × Option ErrorText
  unfolding send_solution
  update_from (raised text) pose error ik = (ik, some text)
  update_from (returned q) pose error ik = send_solution (np.solve pose q) error ik

  unfoldable pub update_desired_ee_pose :
      P → Reply J → Option ErrorText → Ik J → Ik J × Option ErrorText
  unfolding seed update_from
  update_desired_ee_pose pose q error ik = update_from (seed ik.cached_q q) pose error ik
