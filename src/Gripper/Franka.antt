-- ===== src/Gripper/Franka.antt =====
-- The loop of polymetis_franka_teleop/real_world/franka_gripper_controller.py.
pub mod Runs
pub mod Teleop
use polymetis_franka_teleop.Prelude.{
  ℕ, Bool, true, false, not, ◌&&◌, Option, none, some, List, [], ◌∷◌, ◌++◌,
}
use polymetis_franka_teleop.Prelude.Tests.{◌==◌, if◌then◌else◌}
use polymetis_franka_teleop.Prelude.Int.{ltb_ℤ}
use polymetis_franka_teleop.Gripper.{
  Command, command_of, Message, gripper_cmd_none, gripper_cmd_open, gripper_cmd_close, goto_call,
  grasp_call, TeleopState, Config, Loop, Tick, send, normal_mode, sync_state, put_report, stop, act,
  end_iteration, crash,
}

-- The assignments after a call for a teleop command.
unfoldable pub latch : Bool → ℕ → Loop → Loop
latch is_open cmd c = record c { current_is_open = is_open; last_teleop_command = cmd }

module _ (cfg : Config) (accepts : ℕ → Bool) where
  unfoldable pub teleop_command : TeleopState → Loop → Loop
  unfolding latch send
  teleop_command state c =
      let cmd : ℕ = state.gripper_command in
      let target_width : ℕ =
        if state.is_closed then cfg.gripper_close_width else cfg.gripper_open_width in
      if not (cmd == gripper_cmd_none) && not (cmd == c.last_teleop_command)
      then (if cmd == gripper_cmd_close
          then send accepts (grasp_call cfg.move_max_speed cfg.default_force target_width)
              (latch false cmd) c
          else if cmd == gripper_cmd_open
          then send accepts (goto_call target_width cfg.move_max_speed cfg.default_force)
              (latch true cmd) c
          else record c { last_teleop_command = cmd })
      else c

  unfoldable pub teleop_mode : Option TeleopState → Loop → Loop
  unfolding teleop_command
  teleop_mode none c = c
  teleop_mode (some state) c =
      if ltb_ℤ c.last_teleop_timestamp state.teleop_timestamp
      then teleop_command state (record c { last_teleop_timestamp = state.teleop_timestamp })
      else c

  -- An unknown command stops the loop as SHUTDOWN does.
  unfoldable pub handle : Option Command → Message → Loop → Loop
  unfolding act stop
  handle none msg c = stop c
  handle (some cmd) msg c = act cfg accepts cmd msg c

  unfoldable pub process_message : Message → Loop → Loop
  unfolding command_of handle
  process_message msg c = handle (command_of msg.cmd) msg c

  -- `for i in range(n_cmd)`, with the `break` of a command that stops the loop.
  unfoldable pub process_messages : List Message → Loop → Loop
  unfolding process_message
  process_messages [] c = c
  process_messages (msg ∷ messages) c =
      let next : Loop = process_message msg c in
      let rest : Loop = process_messages messages next in if next.keep_running then rest else next

  -- The part of an iteration that commands the gripper.
  unfoldable pub move : Tick → Loop → Loop
  unfolding teleop_mode normal_mode
  move tick c =
      if cfg.teleop_mode
      then teleop_mode tick.teleop c
      else normal_mode cfg accepts tick.t_now tick.pre c

  unfoldable pub step : Tick → Loop → Loop
  unfolding move sync_state put_report process_messages end_iteration crash
  step tick c =
      let synced : Loop = sync_state cfg tick.post (move tick c) in
      if tick.ring_accepts
      then end_iteration (process_messages tick.messages (put_report cfg tick synced))
      else crash synced

  -- `while keep_running`, over what the iterations read.
  unfoldable pub run : List Tick → Loop → Loop
  unfolding step
  run [] c = c
  run (tick ∷ ticks) c =
      let rest : Loop = run ticks (step tick c) in if c.keep_running then rest else c
