-- ===== src/Gripper.antt =====
-- polymetis_franka_teleop/real_world/franka_gripper_controller.py and art_gripper_controller.py: the
-- loops that drive a gripper. Here is what both share: the messages of the input queue, the calls
-- of the gripper's client, the state of the loop and the execution of pending commands. Widths,
-- speeds and forces are integer ticks, as are times. The n-th call of the client raises unless
-- `accepts n`.
pub mod Franka
pub mod Art
pub mod Pending
pub mod Order
pub mod Commands
pub mod Specs
mod Tests
use polymetis_franka_teleop.Prelude.{
  ℕ, ◌+◌, ◌*◌, Bool, true, false, not, ◌&&◌, ◌||◌, Option, none, some, List, [], ◌∷◌, ◌++◌,
}
use polymetis_franka_teleop.Prelude.Tests.{ltb, ◌==◌, if◌then◌else◌}
use polymetis_franka_teleop.Prelude.Lists.{length}
use polymetis_franka_teleop.Prelude.Int.{ℤ, ◌+ℤ◌, ◌-ℤ◌, leb_ℤ}

-- The enum `Command`; `command_of` compares a number with the values in turn.
pub data Command : Type 0 where
  shutdown schedule_waypoint restart_put goto grasp : Command

unfoldable pub command_of : ℕ → Option Command
command_of cmd =
    if cmd == 0
    then some shutdown
    else if cmd == 1
    then some schedule_waypoint
    else if cmd == 2
    then some restart_put
    else if cmd == 3
    then some goto
    else if cmd == 4
    then some grasp
    else none

-- One entry of the input queue. `skew` is time.monotonic() - time.time() when it is processed.
pub record Message : Type 0 where
  pub cmd : ℕ
  pub target_pos : ℕ
  pub target_time : ℤ
  pub speed : ℕ
  pub force : ℕ
  pub skew : ℤ

-- GRIPPER_CMD_NONE, GRIPPER_CMD_OPEN, GRIPPER_CMD_CLOSE
abbrev pub gripper_cmd_none : ℕ
gripper_cmd_none = 0

abbrev pub gripper_cmd_open : ℕ
gripper_cmd_open = 1

abbrev pub gripper_cmd_close : ℕ
gripper_cmd_close = 2

-- A call of the gripper's client.
pub data Call : Type 0 where
  goto_call : (width speed force : ℕ) → Call
  grasp_call : (speed force grasp_width : ℕ) → Call

pub record GripperState : Type 0 where
  pub width : ℕ
  pub is_moving : Bool
  pub is_grasped : Bool

-- What the loop puts into the ring buffer.
pub record Report : Type 0 where
  pub gripper_width : ℕ
  pub gripper_is_grasped : Bool
  pub gripper_is_moving : Bool
  pub gripper_receive_timestamp : ℤ
  pub gripper_timestamp : ℤ

-- The entry of the teleop ring buffer; `is_closed` is gripper_state > 0.5.
pub record TeleopState : Type 0 where
  pub teleop_timestamp : ℤ
  pub gripper_command : ℕ
  pub is_closed : Bool

-- The attributes that the loop reads.
pub record Config : Type 0 where
  pub gripper_open_width : ℕ
  pub gripper_close_width : ℕ
  pub move_max_speed : ℕ
  pub default_force : ℕ
  pub receive_latency : ℤ
  pub teleop_mode : Bool

-- The local variables of `run`, the calls made so far and the states put so far, newest last.
pub record Loop : Type 0 where
  pub current_is_open : Bool
  pub pending_commands : List (Bool × ℤ)
  pub keep_running : Bool
  pub t_start : ℤ
  pub iter_idx : ℕ
  pub last_teleop_timestamp : ℤ
  pub last_teleop_command : ℕ
  pub ready : Bool
  pub sent : List Call
  pub reports : List Report

unfoldable pub differs : Bool → Bool → Bool
differs a b = if a then not b else b

-- width > width_threshold, where width_threshold = (open width + close width) / 2
unfoldable pub above_threshold : Config → ℕ → Bool
above_threshold cfg width = ltb (cfg.gripper_open_width + cfg.gripper_close_width) (2 * width)

-- A call, with the assignment that follows it in the `try` block.
unfoldable pub send : (ℕ → Bool) → Call → (Loop → Loop) → Loop → Loop
send accepts call next c =
    let called : Loop = record c { sent = c.sent ++ call ∷ [] } in
    if accepts (length c.sent) then next called else called

unfoldable pub set_open : Bool → Loop → Loop
set_open is_open c = record c { current_is_open = is_open }

module _ (cfg : Config) where
  -- The state before the pending commands; on an exception the last known one, at rest.
  unfoldable pub pre_state : Option GripperState → Loop → GripperState
  pre_state (some st) c = st
  pre_state none c = record {
    width = (if c.current_is_open then cfg.gripper_open_width else cfg.gripper_close_width);
    is_moving = false;
    is_grasped = false;
  }

  -- The state that is reported, and the sync of `current_is_open` with it.
  unfoldable pub sync_state : Option GripperState → Loop → Loop
  unfolding above_threshold differs
  sync_state none c = c
  sync_state (some st) c =
      let actual_is_open : Bool = above_threshold cfg st.width in
      if differs actual_is_open c.current_is_open && not st.is_moving
      then record c { current_is_open = actual_is_open }
      else c

  unfoldable pub report : ℤ → Option GripperState → Loop → Report
  unfolding pre_state
  report t_recv read c =
      let st : GripperState = pre_state read c in
      record {
        gripper_width = st.width;
        gripper_is_grasped = st.is_grasped;
        gripper_is_moving = st.is_moving;
        gripper_receive_timestamp = t_recv;
        gripper_timestamp = t_recv -ℤ cfg.receive_latency;
      }

module _ (cfg : Config) (accepts : ℕ → Bool) where
  -- A pending command whose time has arrived, with the gripper at rest.
  unfoldable pub execute_command : Bool → Bool → Loop → Loop
  unfolding differs send set_open
  execute_command pre_is_grasped target_is_open c =
      if differs target_is_open c.current_is_open
      then (if target_is_open
          then send accepts (goto_call cfg.gripper_open_width cfg.move_max_speed cfg.default_force)
              (set_open true) c
          else if pre_is_grasped
          then set_open false c
          else send accepts
              (grasp_call cfg.move_max_speed cfg.default_force cfg.gripper_close_width)
              (set_open false) c)
      else c

  -- The loop over the pending commands, and those that stay, in order.
  unfoldable pub execute_pending :
      ℤ → GripperState → List (Bool × ℤ) → Loop → Loop × List (Bool × ℤ)
  unfolding execute_command
  execute_pending t_now pre [] c = (c, [])
  execute_pending t_now pre ((target_is_open, target_time) ∷ pending) c =
      let runs : Bool = leb_ℤ target_time t_now && not pre.is_moving in
      let next : Loop = if runs then execute_command pre.is_grasped target_is_open c else c in
      let rest = execute_pending t_now pre pending next in
      (rest.0, (if runs then rest.1 else (target_is_open, target_time) ∷ rest.1))

  unfoldable pub normal_mode : ℤ → Option GripperState → Loop → Loop
  unfolding execute_pending pre_state
  normal_mode t_now pre c =
      let result = execute_pending t_now (pre_state cfg pre c) c.pending_commands c in
      record result.0 { pending_commands = result.1 }

-- list.sort(key=lambda x: x[1]), which is stable
unfoldable pub insert_by_time : (Bool × ℤ) → List (Bool × ℤ) → List (Bool × ℤ)
insert_by_time x [] = x ∷ []
insert_by_time x (y ∷ ys) =
    let rest = insert_by_time x ys in if leb_ℤ x.1 y.1 then x ∷ y ∷ ys else y ∷ rest

unfoldable pub sort_by_time : List (Bool × ℤ) → List (Bool × ℤ)
unfolding insert_by_time
sort_by_time [] = []
sort_by_time (x ∷ xs) = insert_by_time x (sort_by_time xs)

unfoldable pub stop : Loop → Loop
stop c = record c { keep_running = false }

-- A message of the input queue, after the iteration's report.
unfoldable pub act : Config → (ℕ → Bool) → Command → Message → Loop → Loop
unfolding above_threshold send set_open sort_by_time stop
act cfg accepts shutdown msg c = stop c
act cfg accepts schedule_waypoint msg c =
    let command : Bool × ℤ = (above_threshold cfg msg.target_pos, msg.skew +ℤ msg.target_time) in
    record c { pending_commands = sort_by_time (c.pending_commands ++ command ∷ []) }
act cfg accepts goto msg c =
    send accepts (goto_call msg.target_pos msg.speed cfg.default_force)
      (set_open (above_threshold cfg msg.target_pos)) c
act cfg accepts grasp msg c =
    send accepts (grasp_call msg.speed msg.force cfg.gripper_close_width) (set_open false) c
act cfg accepts restart_put msg c = record c {
  t_start = msg.target_time +ℤ msg.skew;
  iter_idx = 1;
  pending_commands = [];
}

-- What one iteration reads: the monotonic clock, the gripper's state before and after the commands
-- and the teleop entry (none where the read raises), the wall clock, whether the ring buffer takes
-- the report, and the messages that are in the input queue when it is read.
pub record Tick : Type 0 where
  pub t_now : ℤ
  pub pre : Option GripperState
  pub teleop : Option TeleopState
  pub post : Option GripperState
  pub t_recv : ℤ
  pub ring_accepts : Bool
  pub messages : List Message

-- The end of an iteration: the ready event after the first, and the count.
unfoldable pub end_iteration : Loop → Loop
end_iteration c = record c { ready = c.ready || c.iter_idx == 0; iter_idx = c.iter_idx + 1 }

-- The report of an iteration, into the ring buffer.
unfoldable pub put_report : Config → Tick → Loop → Loop
unfolding report
put_report cfg tick c = record c { reports = c.reports ++ report cfg tick.t_recv tick.post c ∷ [] }

-- An exception that ends `run`, which sets the ready event.
unfoldable pub crash : Loop → Loop
crash c = record c { keep_running = false; ready = true }
