-- ===== src/Gripper/Commands.antt =====
-- The methods of both gripper controllers that put a command, and how the loops of `run` start.
use polymetis_franka_teleop.Prelude.{
  ℕ, ◌≤◌, ◌≡◌, refl, min, max, true, false, Option, none, some, List, [], ◌∷◌, arith,
}
use polymetis_franka_teleop.Prelude.Int.{ℤ, pos}
use polymetis_franka_teleop.Gripper.{
  Command, shutdown, schedule_waypoint, restart_put, goto, grasp, command_of, gripper_cmd_none,
  goto_call, GripperState, Config, Loop, above_threshold,
}

-- The dictionary that a method puts: what it leaves out is none.
pub record Fields : Type 0 where
  pub cmd : ℕ
  pub target_pos : Option ℕ
  pub target_time : Option ℤ
  pub speed : Option ℕ
  pub force : Option ℕ

-- MIN_WIDTH, MAX_WIDTH, DEFAULT_SPEED, and the force that `grasp` takes if it is given none.
pub record WidthLimits : Type 0 where
  pub min_width : ℕ
  pub max_width : ℕ
  pub default_speed : ℕ
  pub grasp_force : ℕ

-- Command.X.value
unfoldable pub value : Command → ℕ
value shutdown = 0
value schedule_waypoint = 1
value restart_put = 2
value goto = 3
value grasp = 4

unfoldable pub bare : Command → Fields
unfolding value
bare command = record {
  cmd = value command;
  target_pos = none;
  target_time = none;
  speed = none;
  force = none;
}

-- np.clip(width, MIN_WIDTH, MAX_WIDTH)
unfoldable pub clip : WidthLimits → ℕ → ℕ
clip limits width = min (max width limits.min_width) limits.max_width

-- `default if given is None else given`
unfoldable pub or_default : ℕ → Option ℕ → ℕ
or_default default none = default
or_default default (some given) = given

unfoldable pub stop_message : Fields
unfolding bare
stop_message = bare shutdown

module _ (limits : WidthLimits) where
  unfoldable pub schedule_message : ℕ → ℤ → Fields
  unfolding bare clip
  schedule_message width target_time = record (bare schedule_waypoint) {
    target_pos = some (clip limits width);
    target_time = some target_time;
  }

  unfoldable pub goto_message : ℕ → Option ℕ → Fields
  unfolding bare clip or_default
  goto_message width speed = record (bare goto) {
    target_pos = some (clip limits width);
    speed = some (or_default limits.default_speed speed);
  }

  unfoldable pub grasp_message : Option ℕ → Option ℕ → Fields
  unfolding bare or_default
  grasp_message speed force = record (bare grasp) {
    speed = some (or_default limits.default_speed speed);
    force = some (or_default limits.grasp_force force);
  }

unfoldable pub restart_message : ℤ → Fields
unfolding bare
restart_message start_time = record (bare restart_put) { target_time = some start_time }

-- The local variables before the first iteration; `now` is the monotonic clock.
unfoldable pub first_loop : Config → GripperState → ℤ → Loop
unfolding above_threshold
first_loop cfg st now = record {
  current_is_open = above_threshold cfg st.width;
  pending_commands = [];
  keep_running = true;
  t_start = now;
  iter_idx = 0;
  last_teleop_timestamp = pos 0;
  last_teleop_command = gripper_cmd_none;
  ready = false;
  sent = [];
  reports = [];
}

-- The ART loop opens the gripper first, and goes on if that raises.
unfoldable pub first_art_loop : Config → GripperState → ℤ → Loop
unfolding first_loop
first_art_loop cfg st now = record (first_loop cfg st now) {
  sent = goto_call cfg.gripper_open_width cfg.move_max_speed cfg.default_force ∷ [];
}

-- Whether a target is within the limits, or there is none.
abbrev pub IsWithin : WidthLimits → Option ℕ → Type 0
IsWithin limits none = Unit
IsWithin limits (some width) = (limits.min_width ≤ width) × (width ≤ limits.max_width)

-- The commands that the loops read from the messages of the methods.
unfoldable pub commands_of : List Fields → List (Option Command)
unfolding command_of
commands_of [] = []
commands_of (fields ∷ messages) = command_of fields.cmd ∷ commands_of messages

-- The loops read from the message of each method the command that it stands for, and the widths in
-- the messages are within the gripper's limits, whatever width was asked for.
pub messages_read :
    (limits : WidthLimits) (width : ℕ) (time : ℤ) (speed force : Option ℕ)
    → limits.min_width ≤ limits.max_width
    → (commands_of (
          stop_message
          ∷ schedule_message limits width time
          ∷ restart_message time
          ∷ goto_message limits width speed
          ∷ grasp_message limits speed force
          ∷ [])
        ≡ some shutdown ∷ some schedule_waypoint ∷ some restart_put ∷ some goto ∷ some grasp ∷ [])
      × IsWithin limits (schedule_message limits width time).target_pos
      × IsWithin limits (goto_message limits width speed).target_pos
unfolding commands_of command_of stop_message schedule_message restart_message goto_message
    grasp_message bare value clip
messages_read limits width time speed force h =
    (refl, (omega arith, omega arith), (omega arith, omega arith))
