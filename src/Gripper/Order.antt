-- ===== src/Gripper/Order.antt =====
-- The pending commands stay in the order of their times.
use polymetis_franka_teleop.Prelude.{
  ℕ, ◌≡◌, refl, ap, ◌∙◌, Bool, true, false, ◌&&◌, Option, none, some, inl, inr, List, [], ◌∷◌, ◌++◌,
  arith,
}
use polymetis_franka_teleop.Prelude.Tests.{if◌then◌else◌, Bool-cases}
use polymetis_franka_teleop.Prelude.Int.{ℤ, ◌+ℤ◌, leb_ℤ}
use polymetis_franka_teleop.Gripper.{
  Command, shutdown, schedule_waypoint, restart_put, goto, grasp, Message, GripperState, Config,
  Loop, Call, goto_call, grasp_call, send, set_open, sync_state, above_threshold, pre_state,
  normal_mode, insert_by_time, sort_by_time, stop, act,
}
use polymetis_franka_teleop.Gripper.Pending.{later, execute_pending_stays}

unfoldable pub is_ordered : List (Bool × ℤ) → Bool
is_ordered [] = true
is_ordered (x ∷ []) = true
is_ordered (x ∷ y ∷ pending) = leb_ℤ x.1 y.1 && is_ordered (y ∷ pending)

insert_by_time-ordered :
    (x : Bool × ℤ) (pending : List (Bool × ℤ))
    → is_ordered pending ≡ true
    → is_ordered (insert_by_time x pending) ≡ true
unfolding is_ordered insert_by_time
insert_by_time-ordered x [] h = refl
insert_by_time-ordered x (y ∷ []) h = ground arith
insert_by_time-ordered x (y ∷ z ∷ pending) h =
    let rest = insert_by_time-ordered x (z ∷ pending) in ground arith

pub sort_by_time-ordered : (pending : List (Bool × ℤ)) → is_ordered (sort_by_time pending) ≡ true
unfolding is_ordered sort_by_time
sort_by_time-ordered [] = refl
sort_by_time-ordered (x ∷ pending) =
    insert_by_time-ordered x (sort_by_time pending) (sort_by_time-ordered pending)

later-ordered :
    (t_now : ℤ) (pending : List (Bool × ℤ))
    → is_ordered pending ≡ true
    → is_ordered (later t_now pending) ≡ true
unfolding is_ordered later
later-ordered t_now [] h = refl
later-ordered t_now (x ∷ []) h = ground arith
later-ordered t_now (x ∷ y ∷ pending) h =
    let rest = later-ordered t_now (y ∷ pending) in ground arith

-- A loop whose pending commands are in the order of their times.
abbrev pub IsOrdered : Loop → Type 0
IsOrdered c = is_ordered c.pending_commands ≡ true

pub if-IsOrdered :
    (b : Bool) (c d : Loop) → IsOrdered c → IsOrdered d → IsOrdered (if b then c else d)
if-IsOrdered true c d h k = h
if-IsOrdered false c d h k = k

module _ (cfg : Config) (accepts : ℕ → Bool) where
  pub send-pending :
      (call : Call) (next : Loop → Loop) (c : Loop)
      → ((d : Loop) → (next d).pending_commands ≡ d.pending_commands)
      → (send accepts call next c).pending_commands ≡ c.pending_commands
  unfolding send
  send-pending call next c h =
      let called = h (record c { sent = c.sent ++ call ∷ [] }) in ground arith

  pub normal_mode-IsOrdered :
      (t_now : ℤ) (pre : Option GripperState) (c : Loop)
      → IsOrdered c
      → IsOrdered (normal_mode cfg accepts t_now pre c)
  unfolding normal_mode
  normal_mode-IsOrdered t_now pre c h =
      let st = pre_state cfg pre c in
      let stays = execute_pending_stays cfg accepts t_now st c.pending_commands c in
      let rest = later-ordered t_now c.pending_commands h in
      elim (Bool-cases st.is_moving) [
        | inl moving ↦ rw (stays, moving) h
        | inr still ↦ rw (stays, still) rest
      ]

  pub sync_state-pending :
      (read : Option GripperState) (c : Loop)
      → (sync_state cfg read c).pending_commands ≡ c.pending_commands
  unfolding sync_state
  sync_state-pending none c = refl
  sync_state-pending (some st) c = ground arith

  pub act-IsOrdered :
      (cmd : Command) (msg : Message) (c : Loop)
      → IsOrdered c
      → IsOrdered (act cfg accepts cmd msg c)
  unfolding act stop set_open is_ordered
  act-IsOrdered shutdown msg c h = h
  act-IsOrdered schedule_waypoint msg c h =
      sort_by_time-ordered (
        c.pending_commands
        ++ (above_threshold cfg msg.target_pos, msg.skew +ℤ msg.target_time) ∷ [])
  act-IsOrdered restart_put msg c h = refl
  act-IsOrdered goto msg c h =
      ap is_ordered (
        send-pending (goto_call msg.target_pos msg.speed cfg.default_force)
          (set_open (above_threshold cfg msg.target_pos)) c (λ d. refl))
      ∙ h
  act-IsOrdered grasp msg c h =
      ap is_ordered (
        send-pending (grasp_call msg.speed msg.force cfg.gripper_close_width) (set_open false) c
          (λ d. refl))
      ∙ h
