-- ===== src/Gripper/Art.antt =====
-- The loop of polymetis_franka_teleop/real_world/art_gripper_controller.py, which reads the input
-- queue twice in an iteration.
pub mod Explicit
use polymetis_franka_teleop.Prelude.{
  ℕ, Bool, true, false, not, ◌&&◌, Option, none, some, List, [], ◌∷◌, ◌++◌,
}
use polymetis_franka_teleop.Prelude.Tests.{◌==◌, if◌then◌else◌}
use polymetis_franka_teleop.Prelude.Int.{ltb_ℤ}
use polymetis_franka_teleop.Gripper.{
  Command, shutdown, goto, command_of, Message, gripper_cmd_none, gripper_cmd_open, goto_call,
  TeleopState, Config, Loop, Tick, above_threshold, send, normal_mode, sync_state, put_report, stop,
  act, end_iteration, crash,
}

-- The assignments after an explicit GOTO, and after a teleop command.
unfoldable pub reset_latch : Bool → Loop → Loop
reset_latch is_open c = record c {
  current_is_open = is_open;
  last_teleop_command = gripper_cmd_none;
}

unfoldable pub latch_command : ℕ → Loop → Loop
latch_command cmd c = record c {
  current_is_open = cmd == gripper_cmd_open;
  last_teleop_command = cmd;
}

unfoldable pub is_goto : Message → Bool
unfolding command_of
is_goto msg = elim (command_of msg.cmd) [ some goto ↦ true | _ ↦ false ]

-- `explicit_fired_this_iter`, for a batch without SHUTDOWN.
unfoldable pub explicit_fired : List Message → Bool
unfolding is_goto
explicit_fired [] = false
explicit_fired (msg ∷ messages) =
    let rest = explicit_fired messages in if is_goto msg then true else rest

module _ (cfg : Config) (accepts : ℕ → Bool) where
  -- A message at the top of an iteration; every command but SHUTDOWN and GOTO is passed over.
  unfoldable pub explicit_message : Message → Loop → Loop
  unfolding command_of above_threshold send reset_latch stop
  explicit_message msg c = elim (command_of msg.cmd) [
    | some shutdown ↦ stop c
    | some goto ↦
        send accepts (goto_call msg.target_pos msg.speed cfg.default_force)
          (reset_latch (above_threshold cfg msg.target_pos)) c
    | _ ↦ c
  ]

  unfoldable pub explicit_batch : List Message → Loop → Loop
  unfolding explicit_message
  explicit_batch [] c = c
  explicit_batch (msg ∷ messages) c =
      let next : Loop = explicit_message msg c in
      let rest : Loop = explicit_batch messages next in if next.keep_running then rest else next

  unfoldable pub teleop_command : TeleopState → Loop → Loop
  unfolding send latch_command
  teleop_command state c =
      let cmd : ℕ = state.gripper_command in
      let target_width : ℕ =
        if state.is_closed then cfg.gripper_close_width else cfg.gripper_open_width in
      if cmd == gripper_cmd_none
      then record c { last_teleop_command = gripper_cmd_none }
      else if cmd == c.last_teleop_command
      then c
      else send accepts (goto_call target_width cfg.move_max_speed cfg.default_force)
          (latch_command cmd) c

  unfoldable pub teleop_mode : Option TeleopState → Loop → Loop
  unfolding teleop_command
  teleop_mode none c = c
  teleop_mode (some state) c =
      if ltb_ℤ c.last_teleop_timestamp state.teleop_timestamp
      then teleop_command state (record c { last_teleop_timestamp = state.teleop_timestamp })
      else c

  -- An unknown command is passed over.
  unfoldable pub handle : Option Command → Message → Loop → Loop
  unfolding act
  handle none msg c = c
  handle (some cmd) msg c = act cfg accepts cmd msg c

  unfoldable pub process_message : Message → Loop → Loop
  unfolding command_of handle
  process_message msg c = handle (command_of msg.cmd) msg c

  unfoldable pub process_messages : List Message → Loop → Loop
  unfolding process_message
  process_messages [] c = c
  process_messages (msg ∷ messages) c =
      let next : Loop = process_message msg c in
      let rest : Loop = process_messages messages next in if next.keep_running then rest else next

  -- The part of an iteration that commands the gripper.
  unfoldable pub move : Bool → Tick → Loop → Loop
  unfolding teleop_mode normal_mode
  move fired tick c =
      if cfg.teleop_mode && not fired
      then teleop_mode tick.teleop c
      else normal_mode cfg accepts tick.t_now tick.pre c

  -- The iteration after the explicit batch.
  unfoldable pub after_explicit : Bool → Tick → Loop → Loop
  unfolding move sync_state put_report process_messages end_iteration crash
  after_explicit fired tick c =
      let synced : Loop = sync_state cfg tick.post (move fired tick c) in
      if tick.ring_accepts
      then end_iteration (process_messages tick.messages (put_report cfg tick synced))
      else crash synced

  -- `explicit` is what the queue holds at the top of the iteration. A SHUTDOWN there leaves the
  -- loop at once, and `run` then sets the ready event.
  unfoldable pub step : List Message → Tick → Loop → Loop
  unfolding explicit_batch explicit_fired after_explicit
  step explicit tick c =
      let drained : Loop = explicit_batch explicit c in
      if drained.keep_running
      then after_explicit (explicit_fired explicit) tick drained
      else record drained { ready = true }
