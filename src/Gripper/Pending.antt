-- ===== src/Gripper/Pending.antt =====
-- The execution of pending commands against a description that knows neither the loop nor its state.
use mathlib.Core.List.{append_assoc, append-nil}
use polymetis_franka_teleop.Prelude.{
  ℕ, ◌≡◌, refl, sym, inl, inr, Bool, true, false, not, ◌&&◌, List, [], ◌∷◌, ◌++◌, arith,
}
use polymetis_franka_teleop.Prelude.Tests.{if◌then◌else◌, Bool-cases}
use polymetis_franka_teleop.Prelude.Lists.{length}
use polymetis_franka_teleop.Prelude.Int.{ℤ, leb_ℤ}
use polymetis_franka_teleop.Gripper.{
  Call, goto_call, grasp_call, GripperState, Config, Loop, differs, send, set_open, execute_command,
  execute_pending,
}

-- The commands whose time has not come.
unfoldable pub later : ℤ → List (Bool × ℤ) → List (Bool × ℤ)
later t_now [] = []
later t_now (x ∷ pending) =
    let rest = later t_now pending in if leb_ℤ x.1 t_now then rest else x ∷ rest

-- The targets of those whose time has come.
unfoldable pub due : ℤ → List (Bool × ℤ) → List Bool
due t_now [] = []
due t_now (x ∷ pending) =
    let rest = due t_now pending in if leb_ℤ x.1 t_now then x.0 ∷ rest else rest

-- Of a list of targets those that differ from the one before, starting from `is_open`.
unfoldable pub flips : Bool → List Bool → List Bool
unfolding differs
flips is_open [] = []
flips is_open (target ∷ targets) =
    let rest = flips target targets in if differs target is_open then target ∷ rest else rest

unfoldable pub last_target : Bool → List Bool → Bool
last_target is_open [] = is_open
last_target is_open (target ∷ targets) = last_target target targets

-- The calls for targets: open is a goto, close a grasp, or nothing if an object is held.
unfoldable pub calls_for : Config → Bool → List Bool → List Call
calls_for cfg pre_is_grasped [] = []
calls_for cfg pre_is_grasped (true ∷ targets) =
    goto_call cfg.gripper_open_width cfg.move_max_speed cfg.default_force
    ∷ calls_for cfg pre_is_grasped targets
calls_for cfg pre_is_grasped (false ∷ targets) =
    let rest = calls_for cfg pre_is_grasped targets in
    if pre_is_grasped
    then rest
    else grasp_call cfg.move_max_speed cfg.default_force cfg.gripper_close_width ∷ rest

module _ (cfg : Config) (accepts : ℕ → Bool) (t_now : ℤ) (pre : GripperState) where
  -- While the gripper moves every pending command stays; otherwise exactly those stay, in their
  -- order, whose time has not come, whether their calls raise or not.
  pub execute_pending_stays :
      (pending : List (Bool × ℤ)) (c : Loop)
      → (execute_pending cfg accepts t_now pre pending c).1
        ≡ (if pre.is_moving then pending else later t_now pending)
  unfolding execute_pending later
  execute_pending_stays [] c = ground arith
  execute_pending_stays (x ∷ pending) c =
      let next : Loop =
        if leb_ℤ x.1 t_now && not pre.is_moving
        then execute_command cfg accepts pre.is_grasped x.0 c
        else c in
      let rest = execute_pending_stays pending next in ground arith

  execute_command_open :
      ((n : ℕ) → accepts n ≡ true)
      → (target : Bool) (c : Loop)
      → (execute_command cfg accepts pre.is_grasped target c).current_is_open ≡ target
  unfolding execute_command differs send set_open
  execute_command_open all target c = let yes = all (length c.sent) in ground arith

  execute_command_sent :
      ((n : ℕ) → accepts n ≡ true)
      → (target : Bool) (c : Loop)
      → (execute_command cfg accepts pre.is_grasped target c).sent
        ≡ c.sent ++ calls_for cfg pre.is_grasped (flips c.current_is_open (target ∷ []))
  unfolding execute_command send set_open calls_for flips differs
  execute_command_sent all true c =
      let yes = all (length c.sent) in ground (arith, yes, append-nil c.sent)
  execute_command_sent all false c =
      let yes = all (length c.sent) in ground (arith, yes, append-nil c.sent)

  calls_for-append :
      (held : Bool) (xs ys : List Bool)
      → calls_for cfg held (xs ++ ys) ≡ calls_for cfg held xs ++ calls_for cfg held ys
  unfolding calls_for
  calls_for-append held [] ys = refl
  calls_for-append held (true ∷ xs) ys = let rest = calls_for-append held xs ys in cc
  calls_for-append held (false ∷ xs) ys = let rest = calls_for-append held xs ys in ground arith

  flips_step :
      (is_open target : Bool) (targets : List Bool)
      → flips is_open (target ∷ targets) ≡ flips is_open (target ∷ []) ++ flips target targets
  unfolding flips differs
  flips_step is_open target targets = ground arith

  -- With the gripper at rest and a client that raises nothing: the pending commands whose time has
  -- come are executed in order, each that asks for another state than the one before it with its
  -- call (none to close on a held object), and the loop takes the gripper to be in the last state.
  pub execute_pending-flips :
      ((n : ℕ) → accepts n ≡ true)
      → pre.is_moving ≡ false
      → (pending : List (Bool × ℤ)) (c : Loop)
      → ((execute_pending cfg accepts t_now pre pending c).0.sent
          ≡ c.sent ++ calls_for cfg pre.is_grasped (flips c.current_is_open (due t_now pending)))
        × ((execute_pending cfg accepts t_now pre pending c).0.current_is_open
            ≡ last_target c.current_is_open (due t_now pending))
  unfolding execute_pending due last_target calls_for flips
  execute_pending-flips all still [] c = (sym (append-nil c.sent), refl)
  execute_pending-flips all still (x ∷ pending) c = elim (Bool-cases (leb_ℤ x.1 t_now)) [
    | inl now ↦
        let next = execute_command cfg accepts pre.is_grasped x.0 c in
        let rest = execute_pending-flips all still pending next in
        let opened = execute_command_open all x.0 c in
        let called = execute_command_sent all x.0 c in
        let held = pre.is_grasped in
        let here = flips c.current_is_open (x.0 ∷ []) in
        let after = flips x.0 (due t_now pending) in
        let split = flips_step c.current_is_open x.0 (due t_now pending) in
        let calls = calls_for-append held here after in
        let assoc = append_assoc c.sent (calls_for cfg held here) (calls_for cfg held after) in
        let joined : next.sent
              ++ calls_for cfg held (flips next.current_is_open (due t_now pending))
            ≡ c.sent ++ calls_for cfg held (flips c.current_is_open (x.0 ∷ due t_now pending)) =
          cc in
        ground (arith, now, still, rest, joined, opened)
    | inr wait ↦ let rest = execute_pending-flips all still pending c in ground (arith, wait, rest)
  ]
