-- ===== src/Gripper/Franka/Runs.antt =====
-- What holds of the loop over any iterations: the order of the pending commands, and its end.
use polymetis_franka_teleop.Prelude.{
  ℕ, ◌≡◌, refl, ap, ◌∙◌, ◌⊎◌, inl, inr, Bool, true, false, Option, none, some, List, [], ◌∷◌, ◌++◌,
  arith,
}
use polymetis_franka_teleop.Gripper.{
  Command, shutdown, command_of, Message, TeleopState, Config, Loop, Tick, send, normal_mode,
  sync_state, put_report, stop, act, end_iteration, crash,
}
use polymetis_franka_teleop.Gripper.Order.{
  is_ordered, IsOrdered, if-IsOrdered, normal_mode-IsOrdered, sync_state-pending, act-IsOrdered,
}
use polymetis_franka_teleop.Gripper.Franka.{
  latch, teleop_command, teleop_mode, handle, move, process_message, process_messages, step, run,
}

-- SHUTDOWN, or a number that is no command.
abbrev pub IsStop : Message → Type 0
IsStop msg = (command_of msg.cmd ≡ some shutdown) ⊎ (command_of msg.cmd ≡ none)

module _ (cfg : Config) (accepts : ℕ → Bool) where
  teleop_command-pending :
      (state : TeleopState) (c : Loop)
      → (teleop_command cfg accepts state c).pending_commands ≡ c.pending_commands
  unfolding teleop_command send latch
  teleop_command-pending state c = ground arith

  teleop_mode-pending :
      (read : Option TeleopState) (c : Loop)
      → (teleop_mode cfg accepts read c).pending_commands ≡ c.pending_commands
  unfolding teleop_mode
  teleop_mode-pending none c = refl
  teleop_mode-pending (some state) c =
      let moved =
        teleop_command-pending state
          (record c { last_teleop_timestamp = state.teleop_timestamp }) in
      ground arith

  handle-IsOrdered :
      (cmd : Option Command) (msg : Message) (c : Loop)
      → IsOrdered c
      → IsOrdered (handle cfg accepts cmd msg c)
  unfolding handle stop
  handle-IsOrdered none msg c h = h
  handle-IsOrdered (some cmd) msg c h = act-IsOrdered cfg accepts cmd msg c h

  process_message-IsOrdered :
      (msg : Message) (c : Loop) → IsOrdered c → IsOrdered (process_message cfg accepts msg c)
  unfolding process_message
  process_message-IsOrdered msg c h = handle-IsOrdered (command_of msg.cmd) msg c h

  process_messages-IsOrdered :
      (messages : List Message) (c : Loop)
      → IsOrdered c
      → IsOrdered (process_messages cfg accepts messages c)
  unfolding process_messages
  process_messages-IsOrdered [] c h = h
  process_messages-IsOrdered (msg ∷ messages) c h =
      let next = process_message-IsOrdered msg c h in
      let rest = process_messages-IsOrdered messages (process_message cfg accepts msg c) next in
      ground arith

  move-IsOrdered : (tick : Tick) (c : Loop) → IsOrdered c → IsOrdered (move cfg accepts tick c)
  unfolding move
  move-IsOrdered tick c h =
      let teleop = ap is_ordered (teleop_mode-pending tick.teleop c) ∙ h in
      let normal = normal_mode-IsOrdered cfg accepts tick.t_now tick.pre c h in
      if-IsOrdered cfg.teleop_mode (teleop_mode cfg accepts tick.teleop c)
        (normal_mode cfg accepts tick.t_now tick.pre c) teleop normal

  step-IsOrdered : (tick : Tick) (c : Loop) → IsOrdered c → IsOrdered (step cfg accepts tick c)
  unfolding step end_iteration crash put_report
  step-IsOrdered tick c h =
      let moved = move cfg accepts tick c in
      let synced =
        ap is_ordered (sync_state-pending cfg accepts tick.post moved) ∙ move-IsOrdered tick c h in
      let put = put_report cfg tick (sync_state cfg tick.post moved) in
      let processed = process_messages-IsOrdered tick.messages put synced in
      if-IsOrdered tick.ring_accepts
        (end_iteration (process_messages cfg accepts tick.messages put))
        (crash (sync_state cfg tick.post moved)) processed synced

  -- From pending commands in the order of their times, any number of iterations, whatever is read
  -- and whatever calls raise, leads to pending commands in that order.
  pub run-IsOrdered :
      (ticks : List Tick) (c : Loop) → IsOrdered c → IsOrdered (run cfg accepts ticks c)
  unfolding run
  run-IsOrdered [] c h = h
  run-IsOrdered (tick ∷ ticks) c h =
      let rest = run-IsOrdered ticks (step cfg accepts tick c) (step-IsOrdered tick c h) in
      ground arith

  process_message-stops :
      (msg : Message) (c : Loop) → IsStop msg → process_message cfg accepts msg c ≡ stop c
  unfolding process_message handle act
  process_message-stops msg c (inl e) = ap (λ cmd. handle cfg accepts cmd msg c) e
  process_message-stops msg c (inr e) = ap (λ cmd. handle cfg accepts cmd msg c) e

  process_messages-stops :
      (before after : List Message) (msg : Message) (c : Loop)
      → IsStop msg
      → ((process_messages cfg accepts (before ++ msg ∷ after) c).keep_running ≡ false)
        × (process_messages cfg accepts (before ++ msg ∷ after) c
            ≡ process_messages cfg accepts (before ++ msg ∷ []) c)
  unfolding process_messages stop
  process_messages-stops [] after msg c h =
      let stops = process_message-stops msg c h in ground arith
  process_messages-stops (x ∷ before) after msg c h =
      let rest = process_messages-stops before after msg (process_message cfg accepts x c) h in
      ground arith

  step-stops :
      (tick : Tick) (before after : List Message) (msg : Message) (c : Loop)
      → IsStop msg
      → tick.messages ≡ before ++ msg ∷ after
      → ((step cfg accepts tick c).keep_running ≡ false)
        × (step cfg accepts tick c
            ≡ step cfg accepts (record tick { messages = before ++ msg ∷ [] }) c)
  unfolding step end_iteration crash put_report move
  step-stops tick before after msg c stops held =
      let put = put_report cfg tick (sync_state cfg tick.post (move cfg accepts tick c)) in
      let rest = process_messages-stops before after msg put stops in ground (arith, held, rest)

  run_stopped :
      (ticks : List Tick) (c : Loop) → c.keep_running ≡ false → run cfg accepts ticks c ≡ c
  unfolding run
  run_stopped [] c h = refl
  run_stopped (tick ∷ ticks) c h = rw h refl

  run_goes :
      (tick : Tick) (ticks : List Tick) (c : Loop)
      → c.keep_running ≡ true
      → run cfg accepts (tick ∷ ticks) c ≡ run cfg accepts ticks (step cfg accepts tick c)
  unfolding run
  run_goes tick ticks c h = rw h refl

  -- An iteration in which the input queue holds SHUTDOWN, or a number that is no command, is the
  -- last: `run` processes no message after it and reads no further iteration.
  pub run-stops :
      (tick : Tick) (ticks : List Tick) (before after : List Message) (msg : Message) (c : Loop)
      → IsStop msg
      → tick.messages ≡ before ++ msg ∷ after
      → c.keep_running ≡ true
      → ((run cfg accepts (tick ∷ ticks) c).keep_running ≡ false)
        × (run cfg accepts (tick ∷ ticks) c
            ≡ step cfg accepts (record tick { messages = before ++ msg ∷ [] }) c)
  run-stops tick ticks before after msg c stops held running =
      let last = step-stops tick before after msg c stops held in
      let ended = run_stopped ticks (step cfg accepts tick c) last.0 in
      let whole = run_goes tick ticks c running ∙ ended in
      (ap (λ (d : Loop). d.keep_running) whole ∙ last.0, whole ∙ last.1)
