-- ===== src/Gripper/Franka/Teleop.antt =====
-- What the loop sends in teleop mode.
use polymetis_franka_teleop.Prelude.{
  ℕ, ◌≤◌, ◌≡◌, ◌≢◌, refl, sym, ap, ◌∙◌, Bool, true, false, not, ◌&&◌, Option, none, some, List, [],
  ◌∷◌, ◌++◌, arith,
}
use polymetis_franka_teleop.Prelude.Tests.{◌==◌, if◌then◌else◌, if_cases}
use polymetis_franka_teleop.Prelude.Lists.{length, get_last?, All, get_last?-append}
use polymetis_franka_teleop.Prelude.Int.{ltb_ℤ}
use polymetis_franka_teleop.Gripper.{
  Command, shutdown, schedule_waypoint, goto, grasp, restart_put, command_of, Message,
  gripper_cmd_none, gripper_cmd_open, gripper_cmd_close, Call, goto_call, grasp_call, GripperState,
  TeleopState, Config, Loop, Tick, send, differs, above_threshold, sync_state, put_report, stop,
  act, end_iteration, crash,
}
use polymetis_franka_teleop.Gripper.Franka.{
  latch, teleop_command, teleop_mode, handle, process_message, process_messages, move, step, run,
}

unfoldable pub is_grasp : Call → Bool
is_grasp (goto_call width speed force) = false
is_grasp (grasp_call speed force grasp_width) = true

unfoldable pub same_bool : Bool → Bool → Bool
same_bool a b = if a then b else not b

-- Of no two neighbours in the list are both gotos or both grasps.
unfoldable pub is_alternating : List Call → Bool
unfolding is_grasp same_bool
is_alternating [] = true
is_alternating (x ∷ []) = true
is_alternating (x ∷ y ∷ calls) =
    not (same_bool (is_grasp x) (is_grasp y)) && is_alternating (y ∷ calls)

-- The command that a call answers.
unfoldable pub answered : Option Call → ℕ
answered none = gripper_cmd_none
answered (some (goto_call width speed force)) = gripper_cmd_open
answered (some (grasp_call speed force grasp_width)) = gripper_cmd_close

abbrev pub IsKnown : Option TeleopState → Type 0
IsKnown none = Unit
IsKnown (some state) = state.gripper_command ≤ 2

-- A message of the input queue that makes no call of the client.
abbrev pub IsQuiet : Message → Type 0
IsQuiet msg = (command_of msg.cmd ≢ some goto) × (command_of msg.cmd ≢ some grasp)

abbrev pub IsTeleop : Tick → Type 0
IsTeleop tick = IsKnown tick.teleop × All IsQuiet tick.messages

-- The calls alternate, and the loop remembers the command of the last one.
record IsLatched (c : Loop) : Type 0 where
  alternating : is_alternating c.sent ≡ true
  remembered : c.last_teleop_command ≡ answered (get_last? c.sent)

alternating_snoc :
    (calls : List Call) (call : Call) (cmd : ℕ)
    → is_alternating calls ≡ true
    → cmd ≡ answered (some call)
    → (cmd == answered (get_last? calls)) ≡ false
    → is_alternating (calls ++ call ∷ []) ≡ true
unfolding is_alternating answered same_bool is_grasp
alternating_snoc [] call cmd h e n = refl
alternating_snoc (x ∷ []) call cmd h e n = ground arith
alternating_snoc (x ∷ y ∷ calls) call cmd h e n =
    let rest =
      λ (k : is_alternating (y ∷ calls) ≡ true). alternating_snoc (y ∷ calls) call cmd k e n in
    ground arith

module _ (cfg : Config) (accepts : ℕ → Bool) where
  send-IsLatched :
      (call : Call) (is_open : Bool) (cmd : ℕ) (c : Loop)
      → accepts (length c.sent) ≡ true
      → cmd ≡ answered (some call)
      → (cmd == c.last_teleop_command) ≡ false
      → IsLatched c
      → IsLatched (send accepts call (latch is_open cmd) c)
  unfolding send latch
  send-IsLatched call is_open cmd c taken e n h =
      let alternating = alternating_snoc c.sent call cmd h.alternating e (rw⁻¹ (h.remembered) n) in
      let last = ap answered (get_last?-append c.sent call) in
      rw taken (record { alternating = alternating; remembered = e ∙ sym last })

  teleop_command-IsLatched :
      ((n : ℕ) → accepts n ≡ true)
      → (state : TeleopState) (c : Loop) → state.gripper_command ≤ 2
      → IsLatched c
      → IsLatched (teleop_command cfg accepts state c)
  unfolding teleop_command answered
  teleop_command-IsLatched all state c known h =
      let cmd = state.gripper_command in
      if_cases IsLatched (not (cmd == gripper_cmd_none) && not (cmd == c.last_teleop_command))
        (λ new.
          if_cases IsLatched (cmd == gripper_cmd_close)
            (λ close.
              send-IsLatched _ false cmd c (all (length c.sent)) (ground arith) (ground arith) h)
            (λ other.
              if_cases IsLatched (cmd == gripper_cmd_open)
                (λ open_cmd.
                  send-IsLatched _ true cmd c (all (length c.sent)) (ground arith) (ground arith) h)
                (λ rest. absurd (ground arith))))
        (λ old. h)

  teleop_mode-IsLatched :
      ((n : ℕ) → accepts n ≡ true)
      → (read : Option TeleopState) (c : Loop) → IsKnown read
      → IsLatched c
      → IsLatched (teleop_mode cfg accepts read c)
  unfolding teleop_mode
  teleop_mode-IsLatched all none c known h = h
  teleop_mode-IsLatched all (some state) c known h =
      let stamped : Loop = record c { last_teleop_timestamp = state.teleop_timestamp } in
      if_cases IsLatched (ltb_ℤ c.last_teleop_timestamp state.teleop_timestamp)
        (λ new.
          teleop_command-IsLatched all state stamped known
            (record { alternating = h.alternating; remembered = h.remembered }))
        (λ old. h)

  -- What leaves the calls and the remembered command alone.
  kept-IsLatched :
      (c d : Loop)
      → d.sent ≡ c.sent
      → d.last_teleop_command ≡ c.last_teleop_command
      → IsLatched c
      → IsLatched d
  kept-IsLatched c d sent last h = record {
    alternating = rw sent h.alternating;
    remembered = rw (sent, last) h.remembered;
  }

  process_message-IsLatched :
      (msg : Message) (c : Loop) (cmd : Option Command)
      → command_of msg.cmd ≡ cmd
      → IsQuiet msg
      → IsLatched c
      → IsLatched (handle cfg accepts cmd msg c)
  unfolding handle act stop
  process_message-IsLatched msg c none e quiet h = kept-IsLatched c _ refl refl h
  process_message-IsLatched msg c (some shutdown) e quiet h = kept-IsLatched c _ refl refl h
  process_message-IsLatched msg c (some schedule_waypoint) e quiet h =
      kept-IsLatched c _ refl refl h
  process_message-IsLatched msg c (some restart_put) e quiet h = kept-IsLatched c _ refl refl h
  process_message-IsLatched msg c (some goto) e quiet h = absurd (quiet.0 e)
  process_message-IsLatched msg c (some grasp) e quiet h = absurd (quiet.1 e)

  process_messages-IsLatched :
      (messages : List Message) (c : Loop)
      → All IsQuiet messages
      → IsLatched c
      → IsLatched (process_messages cfg accepts messages c)
  unfolding process_messages process_message
  process_messages-IsLatched [] c quiet h = h
  process_messages-IsLatched (msg ∷ messages) c (q, quiet) h =
      let next = handle cfg accepts (command_of msg.cmd) msg c in
      let once = process_message-IsLatched msg c (command_of msg.cmd) refl q h in
      if_cases IsLatched next.keep_running
        (λ e. process_messages-IsLatched messages next quiet once) (λ e. once)

  sync_state-IsLatched :
      (read : Option GripperState) (c : Loop) → IsLatched c → IsLatched (sync_state cfg read c)
  unfolding sync_state
  sync_state-IsLatched none c h = h
  sync_state-IsLatched (some st) c h =
      if_cases IsLatched
        (differs (above_threshold cfg st.width) c.current_is_open && not st.is_moving)
        (λ e. kept-IsLatched c _ refl refl h) (λ e. h)

  step-IsLatched :
      cfg.teleop_mode ≡ true
      → ((n : ℕ) → accepts n ≡ true)
      → (tick : Tick) (c : Loop) → IsTeleop tick
      → IsLatched c
      → IsLatched (step cfg accepts tick c)
  unfolding step move put_report end_iteration crash
  step-IsLatched teleop all tick c (known, quiet) h =
      let moved : IsLatched (move cfg accepts tick c) =
        rw teleop (teleop_mode-IsLatched all tick.teleop c known h) in
      let synced = sync_state-IsLatched tick.post (move cfg accepts tick c) moved in
      if_cases IsLatched tick.ring_accepts
        (λ e.
          kept-IsLatched _ _ refl refl (
            process_messages-IsLatched tick.messages _ quiet (kept-IsLatched _ _ refl refl synced)))
        (λ e. kept-IsLatched _ _ refl refl synced)

  run-IsLatched :
      cfg.teleop_mode ≡ true
      → ((n : ℕ) → accepts n ≡ true)
      → (ticks : List Tick) (c : Loop) → All IsTeleop ticks
      → IsLatched c
      → IsLatched (run cfg accepts ticks c)
  unfolding run
  run-IsLatched teleop all [] c fed h = h
  run-IsLatched teleop all (tick ∷ ticks) c (t, fed) h =
      if_cases IsLatched c.keep_running
        (λ e.
          run-IsLatched teleop all ticks (step cfg accepts tick c) fed
            (step-IsLatched teleop all tick c t h))
        (λ e. h)

  -- In teleop mode, from a loop that has made no call and remembers no command, with a client that
  -- raises nothing, teleop entries whose command is NONE, OPEN or CLOSE, and no GOTO or GRASP in the
  -- input queue: in any run of the loop, whatever else it reads, raises or is sent, the calls
  -- alternate between goto and grasp.
  pub run-alternating :
      cfg.teleop_mode ≡ true
      → ((n : ℕ) → accepts n ≡ true)
      → (ticks : List Tick) (c : Loop) → All IsTeleop ticks
      → c.sent ≡ []
      → c.last_teleop_command ≡ gripper_cmd_none
      → is_alternating (run cfg accepts ticks c).sent ≡ true
  unfolding is_alternating answered
  run-alternating teleop all ticks c fed none_sent none_last =
      (run-IsLatched teleop all ticks c fed (record {
        alternating = ap is_alternating none_sent;
        remembered = none_last ∙ sym (ap (λ calls. answered (get_last? calls)) none_sent);
      })).alternating
