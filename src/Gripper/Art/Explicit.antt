-- ===== src/Gripper/Art/Explicit.antt =====
-- What the batch of messages at the top of an iteration does.
use mathlib.Core.List.{append_assoc, append-nil}
use polymetis_franka_teleop.Prelude.{
  ℕ, ◌≡◌, ◌≢◌, refl, sym, ap, ◌∙◌, Bool, true, false, some, List, [], ◌∷◌, ◌++◌, arith,
}
use polymetis_franka_teleop.Prelude.Tests.{if◌then◌else◌}
use polymetis_franka_teleop.Prelude.Lists.{length, All}
use polymetis_franka_teleop.Prelude.Int.{◌<ℤ◌}
use polymetis_franka_teleop.Gripper.{
  shutdown, goto, command_of, Message, gripper_cmd_none, Call, goto_call, TeleopState, Config, Loop,
  Tick, send,
}
use polymetis_franka_teleop.Gripper.Art.{
  reset_latch, latch_command, explicit_message, explicit_batch, is_goto, explicit_fired,
  teleop_command, teleop_mode, step,
}

-- A message that `schedule_waypoint`, `grasp` or `restart_put` puts.
abbrev pub IsPassedOver : Message → Type 0
IsPassedOver msg = (command_of msg.cmd ≢ some shutdown) × (command_of msg.cmd ≢ some goto)

abbrev pub IsNotShutdown : Message → Type 0
IsNotShutdown msg = command_of msg.cmd ≢ some shutdown

-- The calls for the GOTO messages of a batch.
unfoldable pub goto_calls : Config → List Message → List Call
unfolding is_goto
goto_calls cfg [] = []
goto_calls cfg (msg ∷ messages) =
    let rest = goto_calls cfg messages in
    if is_goto msg then goto_call msg.target_pos msg.speed cfg.default_force ∷ rest else rest

-- The call that a teleop command asks for.
abbrev pub teleop_goto : Config → TeleopState → Call
teleop_goto cfg state =
    goto_call (if state.is_closed then cfg.gripper_close_width else cfg.gripper_open_width)
      cfg.move_max_speed cfg.default_force

module _ (cfg : Config) (accepts : ℕ → Bool) where
  explicit_message-passes :
      (msg : Message) (c : Loop) → IsPassedOver msg → explicit_message cfg accepts msg c ≡ c
  unfolding explicit_message
  explicit_message-passes msg c h = let one = h.0 in let two = h.1 in ground arith

  is_goto-passes : (msg : Message) → IsPassedOver msg → is_goto msg ≡ false
  unfolding is_goto
  is_goto-passes msg h = let one = h.1 in ground arith

  explicit_batch-passes :
      (batch : List Message) (c : Loop)
      → All IsPassedOver batch
      → explicit_batch cfg accepts batch c ≡ c
  unfolding explicit_batch
  explicit_batch-passes [] c h = refl
  explicit_batch-passes (msg ∷ batch) c h =
      let one = explicit_message-passes msg c h.0 in
      let rest = explicit_batch-passes batch c h.1 in ground (arith, one, rest)

  explicit_fired-passes :
      (batch : List Message) → All IsPassedOver batch → explicit_fired batch ≡ false
  unfolding explicit_fired
  explicit_fired-passes [] h = refl
  explicit_fired-passes (msg ∷ batch) h =
      let one = is_goto-passes msg h.0 in
      let rest = explicit_fired-passes batch h.1 in ground (arith, one, rest)

  -- Messages of the commands SCHEDULE_WAYPOINT, GRASP and RESTART_PUT that are in the queue at the
  -- top of an iteration are lost: the iteration is the one of an empty queue, so no waypoint becomes
  -- pending, nothing is grasped and nothing restarts.
  pub step_loses :
      (batch : List Message) (tick : Tick) (c : Loop)
      → All IsPassedOver batch
      → step cfg accepts batch tick c ≡ step cfg accepts [] tick c
  unfolding step explicit_batch explicit_fired
  step_loses batch tick c h =
      let same = explicit_batch-passes batch c h in
      let quiet = explicit_fired-passes batch h in rw (same, quiet) refl

  -- What a batch without SHUTDOWN leaves, with a client that raises nothing.
  abbrev Leaves : List Message → Loop → Loop → Type 0
  Leaves batch c d =
      (d.sent ≡ c.sent ++ goto_calls cfg batch)
      × (d.keep_running ≡ c.keep_running)
      × (d.last_teleop_timestamp ≡ c.last_teleop_timestamp)
      × (d.last_teleop_command
          ≡ (if explicit_fired batch then gripper_cmd_none else c.last_teleop_command))

  explicit_message-Leaves :
      ((n : ℕ) → accepts n ≡ true)
      → (msg : Message) (c : Loop) → IsNotShutdown msg
      → Leaves (msg ∷ []) c (explicit_message cfg accepts msg c)
  unfolding explicit_message send reset_latch goto_calls explicit_fired is_goto
  explicit_message-Leaves all msg c h =
      let taken = all (length c.sent) in ground (arith, append-nil c.sent, taken, h)

  explicit_batch_goes :
      (msg : Message) (batch : List Message) (c : Loop)
      → (explicit_message cfg accepts msg c).keep_running ≡ true
      → explicit_batch cfg accepts (msg ∷ batch) c
        ≡ explicit_batch cfg accepts batch (explicit_message cfg accepts msg c)
  unfolding explicit_batch
  explicit_batch_goes msg batch c h = ground (arith, h)

  goto_calls_split :
      (msg : Message) (batch : List Message)
      → goto_calls cfg (msg ∷ batch) ≡ goto_calls cfg (msg ∷ []) ++ goto_calls cfg batch
  unfolding goto_calls
  goto_calls_split msg batch = ground arith

  explicit_fired_split :
      (msg : Message) (batch : List Message) (a : ℕ)
      → (if explicit_fired (msg ∷ batch) then gripper_cmd_none else a) ≡ (
          if explicit_fired batch
          then gripper_cmd_none
          else if explicit_fired (msg ∷ [])
          then gripper_cmd_none
          else a)
  unfolding explicit_fired
  explicit_fired_split msg batch a = ground arith

  explicit_batch_empty : (c : Loop) → Leaves [] c (explicit_batch cfg accepts [] c)
  unfolding explicit_batch goto_calls explicit_fired
  explicit_batch_empty c = (sym (append-nil c.sent), refl, refl, refl)

  explicit_batch-Leaves :
      ((n : ℕ) → accepts n ≡ true)
      → (batch : List Message) (c : Loop) → c.keep_running ≡ true
      → All IsNotShutdown batch
      → Leaves batch c (explicit_batch cfg accepts batch c)
  explicit_batch-Leaves all [] c running h = explicit_batch_empty c
  explicit_batch-Leaves all (msg ∷ batch) c running h =
      let next = explicit_message cfg accepts msg c in
      let one = explicit_message-Leaves all msg c h.0 in
      let rest = explicit_batch-Leaves all batch next (one.1 ∙ running) h.1 in
      let goes = explicit_batch_goes msg batch c (one.1 ∙ running) in
      let assoc = append_assoc c.sent (goto_calls cfg (msg ∷ [])) (goto_calls cfg batch) in
      let calls = goto_calls_split msg batch in
      let fired = explicit_fired_split msg batch c.last_teleop_command in (cc, cc, cc, cc)

  teleop_command_sends :
      ((n : ℕ) → accepts n ≡ true)
      → (state : TeleopState) (c : Loop) → state.gripper_command ≢ gripper_cmd_none
      → c.last_teleop_command ≡ gripper_cmd_none
      → c.last_teleop_timestamp <ℤ state.teleop_timestamp
      → (teleop_mode cfg accepts (some state) c).sent ≡ c.sent ++ teleop_goto cfg state ∷ []
  unfolding teleop_mode teleop_command send latch_command
  teleop_command_sends all state c real none_last newer =
      let taken = all (length c.sent) in ground arith

  -- With a client that raises nothing, after a batch with a GOTO and without SHUTDOWN: the calls are
  -- those of its GOTO messages, and the next newer teleop command that is not NONE is sent, also if
  -- it is the command that was sent last before the GOTO.
  pub command_after_goto :
      ((n : ℕ) → accepts n ≡ true)
      → (batch : List Message) (state : TeleopState) (c : Loop) → c.keep_running ≡ true
      → All IsNotShutdown batch
      → explicit_fired batch ≡ true
      → state.gripper_command ≢ gripper_cmd_none
      → c.last_teleop_timestamp <ℤ state.teleop_timestamp
      → (teleop_mode cfg accepts (some state) (explicit_batch cfg accepts batch c)).sent
        ≡ c.sent ++ goto_calls cfg batch ++ teleop_goto cfg state ∷ []
  command_after_goto all batch state c running h fired real newer =
      let left = explicit_batch-Leaves all batch c running h in
      let unlatched =
        left.3 ∙ ap (λ b. if b then gripper_cmd_none else c.last_teleop_command) fired in
      let stamp = left.2 in
      let sends =
        teleop_command_sends all state (explicit_batch cfg accepts batch c) real unlatched
          (rw stamp newer) in
      sends ∙ ap (λ (l : List Call). l ++ teleop_goto cfg state ∷ []) left.0
