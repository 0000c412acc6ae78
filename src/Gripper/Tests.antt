-- ===== src/Gripper/Tests.antt =====
-- A Franka Hand with widths in millimetres, and the theorems at it.
use polymetis_franka_teleop.Prelude.{
  ℕ, ◌≡◌, ◌≢◌, refl, Bool, true, false, Option, none, some, List, [], ◌∷◌, ◌++◌, arith,
}
use polymetis_franka_teleop.Prelude.Int.{ℤ, pos}
use polymetis_franka_teleop.Gripper.{
  schedule_waypoint, goto, restart_put, grasp, command_of, shutdown, Message, GripperState, Config,
  Loop, Tick, TeleopState, execute_pending,
}
use polymetis_franka_teleop.Gripper.Commands.{
  WidthLimits, IsWithin, commands_of, stop_message, schedule_message, restart_message, goto_message,
  grasp_message, messages_read,
}
use polymetis_franka_teleop.Prelude.Result.{ok}
use polymetis_franka_teleop.Prelude.Dict.{lookup}
use polymetis_franka_teleop.Gripper.Specs.{franka, get_spec}
use polymetis_franka_teleop.Gripper.Pending.{
  due, flips, last_target, calls_for, execute_pending-flips,
}
use polymetis_franka_teleop.Gripper.Order.{is_ordered, IsOrdered}
use polymetis_franka_teleop.Gripper.Franka
use polymetis_franka_teleop.Gripper.Franka.Runs.{run-IsOrdered}
use polymetis_franka_teleop.Gripper.Franka.Teleop.{is_alternating, IsQuiet, run-alternating}
use polymetis_franka_teleop.Gripper.Art
use polymetis_franka_teleop.Gripper.Art.{is_goto, explicit_fired}
use polymetis_franka_teleop.Gripper.Art.Explicit.{IsPassedOver, step_loses}

abbrev hand : Bool → Config
hand teleop = record {
  gripper_open_width = 75;
  gripper_close_width = 5;
  move_max_speed = 200;
  default_force = 50;
  receive_latency = pos 0;
  teleop_mode = teleop;
}

abbrev always : ℕ → Bool
always n = true

-- Close at 3, open at 5, open at 9.
abbrev pending : List (Bool × ℤ)
pending = (false, pos 3) ∷ (true, pos 5) ∷ (true, pos 9) ∷ []

abbrev opened : Loop
opened = record {
  current_is_open = true;
  pending_commands = pending;
  keep_running = true;
  t_start = pos 0;
  iter_idx = 0;
  last_teleop_timestamp = pos 0;
  last_teleop_command = 0;
  ready = false;
  sent = [];
  reports = [];
}

abbrev at_rest : GripperState
at_rest = record { width = 75; is_moving = false; is_grasped = false }

abbrev message : ℕ → Message
message cmd = record {
  cmd = cmd;
  target_pos = 75;
  target_time = pos 7;
  speed = 200;
  force = 50;
  skew = pos 0;
}

abbrev tick : List Message → Tick
tick messages = record {
  t_now = pos 6;
  pre = some at_rest;
  teleop = none;
  post = some at_rest;
  t_recv = pos 6;
  ring_accepts = true;
  messages = messages;
}

execute_pending-flips_example :
    ((execute_pending (hand false) always (pos 6) at_rest pending opened).0.sent
      ≡ [] ++ calls_for (hand false) false (flips true (due (pos 6) pending)))
    × ((execute_pending (hand false) always (pos 6) at_rest pending opened).0.current_is_open
        ≡ last_target true (due (pos 6) pending))
execute_pending-flips_example =
    execute_pending-flips (hand false) always (pos 6) at_rest (λ n. refl) refl pending opened

opened-IsOrdered : IsOrdered opened
unfolding is_ordered
opened-IsOrdered = refl

run-IsOrdered_example :
    IsOrdered (Franka.run (hand false) always (tick (message 1 ∷ []) ∷ tick [] ∷ []) opened)
run-IsOrdered_example =
    run-IsOrdered (hand false) always (tick (message 1 ∷ []) ∷ tick [] ∷ []) opened opened-IsOrdered

shutdown_stops : command_of 0 ≡ some shutdown
unfolding command_of
shutdown_stops = refl

abbrev press : ℕ → ℕ → TeleopState
press at cmd = record { teleop_timestamp = pos at; gripper_command = cmd; is_closed = true }

abbrev pressed : Option TeleopState → List Message → Tick
pressed teleop messages = record (tick messages) { teleop = teleop }

-- A press, the same again with a waypoint in the queue, a reading that raises, and a release.
abbrev presses : List Tick
presses =
    pressed (some (press 1 2)) []
    ∷ pressed (some (press 2 2)) (message 1 ∷ [])
    ∷ pressed none []
    ∷ pressed (some (press 3 1)) []
    ∷ []

waypoint-IsQuiet : IsQuiet (message 1)
unfolding command_of
waypoint-IsQuiet = (λ e. cc, λ e. cc)

run-alternating_example : is_alternating (Franka.run (hand true) always presses opened).sent ≡ true
run-alternating_example =
    run-alternating (hand true) always refl (λ n. refl) presses opened
      (
        (omega arith, tt),
        ((omega arith, (waypoint-IsQuiet, tt)), ((tt, tt), ((omega arith, tt), tt))),
      )
      refl refl

waypoint_passed : IsPassedOver (message 1)
unfolding command_of
waypoint_passed = (λ e. cc, λ e. cc)

step_loses_example :
    Art.step (hand false) always (message 1 ∷ []) (tick []) opened
    ≡ Art.step (hand false) always [] (tick []) opened
step_loses_example =
    step_loses (hand false) always (message 1 ∷ []) (tick []) opened (waypoint_passed, tt)

goto_stays : command_of 3 ≢ some shutdown
unfolding command_of
goto_stays e = cc

goto_fires : explicit_fired (message 3 ∷ []) ≡ true
unfolding explicit_fired is_goto command_of
goto_fires = refl

abbrev hand_limits : WidthLimits
hand_limits = record { min_width = 0; max_width = 80; default_speed = 200; grasp_force = 50 }

-- A request for 120 mm.
messages_read_example :
    (commands_of (
        stop_message
        ∷ schedule_message hand_limits 120 (pos 7)
        ∷ restart_message (pos 7)
        ∷ goto_message hand_limits 120 none
        ∷ grasp_message hand_limits none none
        ∷ [])
      ≡ some shutdown ∷ some schedule_waypoint ∷ some restart_put ∷ some goto ∷ some grasp ∷ [])
    × IsWithin hand_limits (schedule_message hand_limits 120 (pos 7)).target_pos
    × IsWithin hand_limits (goto_message hand_limits 120 none).target_pos
messages_read_example = messages_read hand_limits 120 (pos 7) none none (omega arith)

franka_spec : get_spec "franka" ≡ ok franka
unfolding get_spec lookup
franka_spec = refl
