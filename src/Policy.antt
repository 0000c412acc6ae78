-- ===== src/Policy.antt =====
-- polymetis_franka_teleop/real_world/franka_policy_env.py: what the environment of a policy sends to
-- the controllers, and how it keeps its episodes. Times are of the wall clock.
pub mod Episodes
pub mod Alternate
pub mod Tests
use polymetis_franka_teleop.Prelude.{
  ℕ, zero, suc, ◌+◌, ◌*◌, Bool, true, false, not, ◌&&◌, ◌||◌, Option, none, some, List, [], ◌∷◌,
  ◌++◌, map,
}
use polymetis_franka_teleop.Prelude.Tests.{ltb, if◌then◌else◌}
use polymetis_franka_teleop.Prelude.Int.{ℤ, pos, ◌-ℤ◌}
use polymetis_franka_teleop.Prelude.Result.{Error, Result, ok, err, assertion_error}

-- A row of the actions: the pose of the tool and the gripper's width.
pub record Action (P : Type 0) : Type 0 where
  pub pose : P
  pub gripper_width : ℕ

pub record Config : Type 0 where
  pub robot_action_latency : ℕ
  pub gripper_action_latency : ℕ
  pub gripper_open_width : ℕ
  pub gripper_close_width : ℕ

-- What `exec_actions` keeps, what it has put into the queues of the arm and of the gripper, and what
-- it has given to the accumulator of the actions, newest last.
pub record Sender (P : Type 0) : Type 0 where
  pub last_gripper_is_open : Option Bool
  pub waypoints : List (P × ℤ)
  pub gripper_waypoints : List (ℕ × ℤ)
  pub recorded : List (Action P × ℕ)

-- A call of `exec_actions`: whether the environment is ready, compensates and records, the time, the
-- actions with their times, and the outcome of each call that it makes: the gripper's width, or what
-- `get_state` raises; what the arm's `schedule_waypoint` raises, after how many that it took; and
-- what those of the gripper and the accumulator's `put` raise, if anything.
pub record Call (P : Type 0) : Type 0 where
  pub is_ready : Bool
  pub compensate_latency : Bool
  pub is_recording : Bool
  pub receive_time : ℕ
  pub actions : List (Action P × ℕ)
  pub width : Result ℕ
  pub robot_raises : Option (ℕ × Error)
  pub gripper_raises : Option Error
  pub record_raises : Option Error

-- width > (gripper_open_width + gripper_close_width) / 2
unfoldable pub is_open : Config → ℕ → Bool
is_open cfg width = ltb (cfg.gripper_open_width + cfg.gripper_close_width) (2 * width)

unfoldable pub latency_of : Bool → ℕ → ℕ
latency_of compensate_latency latency = if compensate_latency then latency else 0

unfoldable pub differs : Bool → Bool → Bool
differs a b = (a && not b) || (not a && b)

-- The state to compare with: it is read from the gripper if there is none.
unfoldable pub last_intent : Config → Option Bool → Result ℕ → Result Bool
unfolding is_open
last_intent cfg (some last) width = ok last
last_intent cfg none (ok width) = ok (is_open cfg width)
last_intent cfg none (err e) = err e

-- What comes after a part that may have raised.
unfoldable pub unless_raised :
    {P : Type 0}
    → Sender P × Option Error
    → (Sender P → Sender P × Option Error)
    → Sender P × Option Error
unless_raised (s, some e) next = (s, some e)
unless_raised (s, none) next = next s

module _ {P : Type 0} where
  -- actions[is_new], timestamps[is_new]
  unfoldable pub new_actions : ℕ → List (Action P × ℕ) → List (Action P × ℕ)
  new_actions receive_time [] = []
  new_actions receive_time ((action, time) ∷ actions) =
      let rest = new_actions receive_time actions in
      if ltb receive_time time then (action, time) ∷ rest else rest

  unfoldable pub waypoint_of : ℕ → Action P × ℕ → P × ℤ
  waypoint_of latency (action, time) = (action.pose, pos time -ℤ pos latency)

  -- The first action whose intent is another than that before it, with its time.
  unfoldable pub find_transition : Config → Bool → List (Action P × ℕ) → Option (Bool × ℕ)
  unfolding is_open differs
  find_transition cfg prev [] = none
  find_transition cfg prev ((action, time) ∷ actions) =
      let here = is_open cfg action.gripper_width in
      let rest = find_transition cfg here actions in
      if differs here prev then some (here, time) else rest

  -- gripper_is_open[-1], or the state before where there is no action
  unfoldable pub last_is_open : Config → Bool → List (Action P × ℕ) → Bool
  unfolding is_open
  last_is_open cfg prev [] = prev
  last_is_open cfg prev ((action, time) ∷ actions) =
      last_is_open cfg (is_open cfg action.gripper_width) actions

  -- The loop that schedules the actions on the arm, until a call raises.
  unfoldable pub send_waypoints :
      ℕ → Option (ℕ × Error) → List (Action P × ℕ) → Sender P → Sender P × Option Error
  unfolding waypoint_of
  send_waypoints latency raises [] s = (s, none)
  send_waypoints latency (some (zero, e)) (row ∷ rows) s = (s, some e)
  send_waypoints latency (some (suc k, e)) (row ∷ rows) s =
      send_waypoints latency (some (k, e)) rows
        (record s { waypoints = s.waypoints ++ waypoint_of latency row ∷ [] })
  send_waypoints latency none (row ∷ rows) s =
      send_waypoints latency none rows
        (record s { waypoints = s.waypoints ++ waypoint_of latency row ∷ [] })

  -- One command for the gripper at a transition, which is remembered only if the queue took it.
  unfoldable pub send_gripper :
      Config → Bool → Option Error → Option (Bool × ℕ) → Bool → Sender P → Sender P × Option Error
  unfolding latency_of
  send_gripper cfg compensate_latency raises none intent s =
      (record s { last_gripper_is_open = some intent }, none)
  send_gripper cfg compensate_latency (some e) (some (target_is_open, time)) intent s = (s, some e)
  send_gripper cfg compensate_latency none (some (target_is_open, time)) intent s =
      let width = if target_is_open then cfg.gripper_open_width else cfg.gripper_close_width in
      let target_time =
        pos time -ℤ pos (latency_of compensate_latency cfg.gripper_action_latency) in
      let sent : Sender P = record s {
        gripper_waypoints = s.gripper_waypoints ++ (width, target_time) ∷ [];
        last_gripper_is_open = some target_is_open;
      } in
      (sent, none)

  -- The record of the actions, if the episode is recorded.
  unfoldable pub record_actions :
      Bool → Option Error → List (Action P × ℕ) → Sender P → Sender P × Option Error
  record_actions is_recording raises news s =
      if is_recording then (record s { recorded = s.recorded ++ news }, raises) else (s, none)

  -- The part of `exec_actions` from the attribute `_last_gripper_is_open` on.
  unfoldable pub send_from :
      Config → Call P → List (Action P × ℕ) → Result Bool → Sender P → Sender P × Option Error
  unfolding latency_of find_transition last_is_open unless_raised send_waypoints send_gripper
      record_actions
  send_from cfg call news (err e) s = (s, some e)
  send_from cfg call news (ok last) s =
      let r_latency = latency_of call.compensate_latency cfg.robot_action_latency in
      let tracked : Sender P = record s { last_gripper_is_open = some last } in
      let moved = send_waypoints r_latency call.robot_raises news tracked in
      let sent = unless_raised moved (
        send_gripper cfg call.compensate_latency call.gripper_raises (find_transition cfg last news)
          (last_is_open cfg last news)) in
      unless_raised sent (record_actions call.is_recording call.record_raises news)

  -- With no new action nothing is sent.
  unfoldable pub send_new :
      Config → Call P → List (Action P × ℕ) → Sender P → Sender P × Option Error
  unfolding send_from last_intent
  send_new cfg call [] s = (s, none)
  send_new cfg call (action ∷ news) s =
      send_from cfg call (action ∷ news) (last_intent cfg s.last_gripper_is_open call.width) s

  -- `exec_actions`, with the exception that it raises.
  unfoldable pub exec_actions : Config → Call P → Sender P → Sender P × Option Error
  unfolding new_actions send_new
  exec_actions cfg call s =
      if not call.is_ready
      then (s, some assertion_error)
      else send_new cfg call (new_actions call.receive_time call.actions) s

  unfoldable pub new_sender : Sender P
  new_sender = record {
    last_gripper_is_open = none;
    waypoints = [];
    gripper_waypoints = [];
    recorded = [];
  }

  -- One call after the other, whatever they raise.
  unfoldable pub exec_calls : Config → List (Call P) → Sender P → Sender P
  unfolding exec_actions
  exec_calls cfg [] s = s
  exec_calls cfg (call ∷ calls) s = exec_calls cfg calls (exec_actions cfg call s).0
