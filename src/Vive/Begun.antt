-- ===== src/Vive/Begun.antt =====
-- The state in the middle of an iteration, from its start to the gripper's trigger.
use polymetis_franka_teleop.Prelude.{ℕ, ◌<◌, ◌≡◌, ◌∙◌, Bool, false, not, ◌&&◌, ◌||◌, Option, arith}
use polymetis_franka_teleop.Vive.{Numerics, Config, ViveState, Tick, Teleop}
use polymetis_franka_teleop.Vive.Home.{
  is_home_request, take_home_request, resync_target, start_home, press_trackpad, end_home,
  home_mode, release_grip,
}
use polymetis_franka_teleop.Vive.Steer.{start_clutch, follow, release_clutch, clutch}
use polymetis_franka_teleop.Vive.Stages.{
  commands, IsSafe, take_home_request-IsSafe, resync_target-IsSafe, press_trackpad-IsSafe,
  home_mode-IsSafe, release_grip-IsSafe, rotate-IsSafe, rotate-grip, clutch-IsSafe,
}
use polymetis_franka_teleop.Vive.Keeps.{rotate-Keeps}
use polymetis_franka_teleop.Vive.Loop.{toggle, trigger, begin}

module _ {P V Q W : Type 0} where
  module _ (np : Numerics P V Q W) (cfg : Config) (limited : 0 < cfg.rotation_limit) where
    -- During HOME no edge of the trigger is left to be seen.
    home_mode-edge :
        (grip_pressed trigger_pressed : Bool) (tick : Tick P V Q) (c : Teleop P V Q W)
        → ((home_mode np cfg grip_pressed trigger_pressed tick c).home_active
            && (trigger_pressed
                && not (home_mode np cfg grip_pressed trigger_pressed tick c).prev_trigger))
          ≡ false
    unfolding home_mode end_home
    home_mode-edge grip_pressed trigger_pressed tick c = ground arith

    release_grip-keeps :
        (grip_pressed : Bool) (c : Teleop P V Q W)
        → ((release_grip grip_pressed c).home_active ≡ c.home_active)
          × ((release_grip grip_pressed c).prev_trigger ≡ c.prev_trigger)
          × ((release_grip grip_pressed c).actions ≡ c.actions)
    unfolding release_grip
    release_grip-keeps grip_pressed c = ground arith

    home_mode-actions :
        (grip_pressed trigger_pressed : Bool) (tick : Tick P V Q) (c : Teleop P V Q W)
        → (home_mode np cfg grip_pressed trigger_pressed tick c).actions ≡ c.actions
    unfolding home_mode end_home
    home_mode-actions grip_pressed trigger_pressed tick c = ground arith

    press_trackpad-actions :
        (pressed : Bool) (now : ℕ) (c : Teleop P V Q W)
        → (press_trackpad np cfg pressed now c).actions ≡ c.actions
    unfolding press_trackpad start_home
    press_trackpad-actions pressed now c = ground arith

    asked-actions :
        (pose : Option P) (c : Teleop P V Q W)
        → (resync_target pose (take_home_request c)).actions ≡ c.actions
    unfolding resync_target take_home_request
    asked-actions pose c = ground arith

    pub clutch-actions :
        (vive : ViveState V Q) (tick : Tick P V Q) (c : Teleop P V Q W)
        → (clutch np cfg vive tick c).actions ≡ c.actions
    unfolding clutch start_clutch follow release_clutch
    clutch-actions vive tick c = ground arith

    -- The state in the middle of an iteration.
    pub record IsBegun (vive : ViveState V Q) (c : Teleop P V Q W) : Type 0 where
      pub safe : IsSafe cfg c
      pub gripped : (vive.grip && c.rotation_active) ≡ false
      pub edge : (c.home_active && (vive.trigger && not c.prev_trigger)) ≡ false

    pub begin-actions :
        (vive : ViveState V Q) (tick : Tick P V Q) (c : Teleop P V Q W)
        → (begin np cfg vive tick c).actions ≡ c.actions
    unfolding begin
    begin-actions vive tick c =
        let pressed = vive.trackpad || is_home_request c in
        let asked = resync_target tick.pose_at_resync (take_home_request c) in
        let homing = press_trackpad np cfg pressed tick.press_time asked in
        let led = home_mode np cfg vive.grip vive.trigger tick homing in
        (rotate-Keeps np cfg pressed vive tick.pose_at_turn (release_grip vive.grip led)).2
        ∙ (release_grip-keeps vive.grip led).2
        ∙ home_mode-actions vive.grip vive.trigger tick homing
        ∙ press_trackpad-actions pressed tick.press_time asked
        ∙ asked-actions tick.pose_at_resync c

    pub begin-IsBegun :
        (vive : ViveState V Q) (tick : Tick P V Q) (c : Teleop P V Q W)
        → IsSafe cfg c
        → IsBegun vive (begin np cfg vive tick c)
    unfolding begin
    begin-IsBegun vive tick c h =
        let pressed = vive.trackpad || is_home_request c in
        let taken = take_home_request c in
        let asked = resync_target tick.pose_at_resync taken in
        let homing = press_trackpad np cfg pressed tick.press_time asked in
        let led = home_mode np cfg vive.grip vive.trigger tick homing in
        let released = release_grip vive.grip led in
        let safe = release_grip-IsSafe np cfg limited vive.grip led (
          home_mode-IsSafe np cfg limited vive.grip vive.trigger tick homing (
            press_trackpad-IsSafe np cfg limited pressed tick.press_time asked (
              resync_target-IsSafe np cfg limited tick.pose_at_resync taken
                (take_home_request-IsSafe np cfg limited c h)))) in
        let edge = home_mode-edge vive.grip vive.trigger tick homing in
        let kept = release_grip-keeps vive.grip led in
        let turned = rotate-Keeps np cfg pressed vive tick.pose_at_turn released in
        record {
          safe = rotate-IsSafe np cfg limited pressed vive tick.pose_at_turn released safe;
          gripped = rotate-grip np cfg limited pressed vive tick.pose_at_turn released;
          edge = rw (turned.0 ∙ kept.0, turned.1 ∙ kept.1) edge;
        }

    -- The state after the clutch: the clutch and a rotation exclude one another.
    pub record IsSteered (vive : ViveState V Q) (c : Teleop P V Q W) : Type 0 where
      pub safe : IsSafe cfg c
      pub apart : (c.clutch_active && c.rotation_active) ≡ false
      pub edge : (c.home_active && (vive.trigger && not c.prev_trigger)) ≡ false

    pub clutch-IsSteered :
        (vive : ViveState V Q) (tick : Tick P V Q) (c : Teleop P V Q W)
        → IsBegun vive c
        → IsSteered vive (clutch np cfg vive tick c)
    unfolding clutch start_clutch follow release_clutch
    clutch-IsSteered vive tick c h =
        let safe = clutch-IsSafe np cfg limited vive tick c h.safe in
        let gripped = h.gripped in
        let edge = h.edge in record { safe = safe; apart = ground arith; edge = ground arith }

    pub trigger-IsSteered :
        (vive : ViveState V Q) (c : Teleop P V Q W)
        → IsSteered vive c
        → IsSafe cfg (trigger cfg vive c)
          × (((trigger cfg vive c).clutch_active && (trigger cfg vive c).rotation_active) ≡ false)
    unfolding trigger toggle commands
    trigger-IsSteered vive c h =
        let safe = h.safe in let apart = h.apart in let edge = h.edge in ground arith
