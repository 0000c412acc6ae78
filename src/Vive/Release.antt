-- ===== src/Vive/Release.antt =====
-- What ends HOME, and what a grip that is held through it may do.
use polymetis_franka_teleop.Prelude.{
  ℕ, ◌≡◌, Bool, true, false, ◌||◌, Option, none, some, List, [], ◌∷◌, arith,
}
use polymetis_franka_teleop.Prelude.Tests.{if_cases}
use polymetis_franka_teleop.Prelude.Lists.{All}
use polymetis_franka_teleop.Vive.{Numerics, Config, ViveState, Tick, Teleop}
use polymetis_franka_teleop.Vive.Home.{
  is_home_request, take_home_request, resync_target, start_home, press_trackpad, end_home,
  home_mode, release_grip,
}
use polymetis_franka_teleop.Vive.Steer.{is_outlier, release_clutch, clutch, rotate}
use polymetis_franka_teleop.Vive.Keeps.{rotate-Keeps}
use polymetis_franka_teleop.Vive.Loop.{
  toggle, trigger, fail, put_gripper, put_robot, output, begin, iterate, step_read, step, run,
}

module _ {V Q : Type 0} where
  -- The controller cannot be read, or its grip is pressed.
  unfoldable pub grips : Option (ViveState V Q) → Bool
  grips none = true
  grips (some vive) = vive.grip

module _ {P V Q W : Type 0} where
  -- The clutch is off, and HOME or the grip that has to be released keeps it off.
  pub record IsLocked (c : Teleop P V Q W) : Type 0 where
    pub off : c.clutch_active ≡ false
    pub held : (c.home_active || c.require_grip_release) ≡ true

  module _ (np : Numerics P V Q W) (cfg : Config) where
    asked-IsLocked :
        (pose : Option P) (c : Teleop P V Q W)
        → IsLocked c
        → IsLocked (resync_target pose (take_home_request c))
    unfolding resync_target take_home_request
    asked-IsLocked pose c h = ground arith

    press_trackpad-IsLocked :
        (pressed : Bool) (now : ℕ) (c : Teleop P V Q W)
        → IsLocked c
        → IsLocked (press_trackpad np cfg pressed now c)
    unfolding press_trackpad start_home
    press_trackpad-IsLocked pressed now c h = ground arith

    home_mode-IsLocked :
        (grip_pressed trigger_pressed : Bool) (tick : Tick P V Q) (c : Teleop P V Q W)
        → IsLocked c
        → IsLocked (home_mode np cfg grip_pressed trigger_pressed tick c)
    unfolding home_mode end_home
    home_mode-IsLocked grip_pressed trigger_pressed tick c h = ground arith

    release_grip-IsLocked :
        (grip_pressed : Bool) (c : Teleop P V Q W)
        → grip_pressed ≡ true
        → IsLocked c
        → IsLocked (release_grip grip_pressed c)
    unfolding release_grip
    release_grip-IsLocked grip_pressed c grip h = ground arith

    rotate-IsLocked :
        (pressed : Bool) (vive : ViveState V Q) (pose : Option P) (c : Teleop P V Q W)
        → IsLocked c
        → IsLocked (rotate np cfg pressed vive pose c)
    rotate-IsLocked pressed vive pose c h =
        let kept = rotate-Keeps np cfg pressed vive pose c in ground arith

    clutch-IsLocked :
        (vive : ViveState V Q) (tick : Tick P V Q) (c : Teleop P V Q W)
        → IsLocked c
        → IsLocked (clutch np cfg vive tick c)
    unfolding clutch release_clutch
    clutch-IsLocked vive tick c h = ground arith

    trigger-IsLocked :
        (vive : ViveState V Q) (c : Teleop P V Q W) → IsLocked c → IsLocked (trigger cfg vive c)
    unfolding trigger toggle
    trigger-IsLocked vive c h = ground arith

    output-IsLocked :
        (tick : Tick P V Q) (c : Teleop P V Q W) → IsLocked c → IsLocked (output cfg.dt tick c)
    unfolding output put_robot put_gripper fail
    output-IsLocked tick c h = ground arith

    begin-IsLocked :
        (vive : ViveState V Q) (tick : Tick P V Q) (c : Teleop P V Q W)
        → vive.grip ≡ true
        → IsLocked c
        → IsLocked (begin np cfg vive tick c)
    unfolding begin
    begin-IsLocked vive tick c grip h =
        let pressed = vive.trackpad || is_home_request c in
        let asked = resync_target tick.pose_at_resync (take_home_request c) in
        let homing = press_trackpad np cfg pressed tick.press_time asked in
        let led = home_mode np cfg vive.grip vive.trigger tick homing in
        let locked = home_mode-IsLocked vive.grip vive.trigger tick homing (
          press_trackpad-IsLocked pressed tick.press_time asked
            (asked-IsLocked tick.pose_at_resync c h)) in
        let held : IsLocked (release_grip vive.grip led) =
          release_grip-IsLocked vive.grip led grip locked in
        rotate-IsLocked pressed vive tick.pose_at_turn (release_grip vive.grip led) held

    iterate-IsLocked :
        (vive : ViveState V Q) (tick : Tick P V Q) (c : Teleop P V Q W)
        → vive.grip ≡ true
        → IsLocked c
        → IsLocked (iterate np cfg vive tick c)
    unfolding iterate
    iterate-IsLocked vive tick c grip h =
        let begun = begin np cfg vive tick c in
        let locked = begin-IsLocked vive tick c grip h in
        let steered = clutch np cfg vive tick begun in
        if_cases IsLocked (is_outlier np cfg vive tick.check_time begun) (λ e. ground arith)
          (λ e.
            output-IsLocked tick (trigger cfg vive steered)
              (trigger-IsLocked vive steered (clutch-IsLocked vive tick begun locked)))

    step_read-IsLocked :
        (read : Option (ViveState V Q)) (tick : Tick P V Q) (c : Teleop P V Q W)
        → grips read ≡ true
        → IsLocked c
        → IsLocked (step_read np cfg read tick c)
    unfolding step_read grips fail
    step_read-IsLocked none tick c grip h = ground arith
    step_read-IsLocked (some vive) tick c grip h = iterate-IsLocked vive tick c grip h

    -- If HOME is active or the grip has still to be released, and the clutch is off, then iterations
    -- in which the grip is pressed whenever the controller is read leave the clutch off, and HOME
    -- active or the grip still to be released.
    pub run-IsLocked :
        (ticks : List (Tick P V Q)) (c : Teleop P V Q W)
        → All (λ (tick : Tick P V Q). grips tick.vive ≡ true) ticks
        → IsLocked c
        → IsLocked (run np cfg ticks c)
    unfolding run step
    run-IsLocked [] c grip h = h
    run-IsLocked (tick ∷ ticks) c grip h =
        if_cases IsLocked c.running
          (λ e.
            run-IsLocked ticks (step np cfg tick c) grip.1
              (step_read-IsLocked tick.vive tick c grip.0 h))
          (λ e. h)
