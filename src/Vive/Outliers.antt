-- ===== src/Vive/Outliers.antt =====
-- The frame after a rejected one.
use polymetis_franka_teleop.Prelude.{
  ℕ, ◌+◌, ◌≤◌, ◌≡◌, refl, ◌∙◌, Bool, true, false, ◌||◌, Option, none, some, arith,
}
use polymetis_franka_teleop.Vive.{Numerics, Config, ViveState, Tick, Teleop}
use polymetis_franka_teleop.Vive.Home.{
  is_home_request, take_home_request, resync_target, start_home, press_trackpad, end_home,
  home_mode, release_grip,
}
use polymetis_franka_teleop.Vive.Steer.{is_outlier, validate_position_change}
use polymetis_franka_teleop.Vive.Keeps.{rotate-Keeps}
use polymetis_franka_teleop.Vive.Loop.{begin, iterate}

module _ {P V Q W : Type 0} (np : Numerics P V Q W) (cfg : Config) where
  asked-time :
      (pose : Option P) (c : Teleop P V Q W)
      → (resync_target pose (take_home_request c)).prev_vr_time ≡ c.prev_vr_time
  unfolding resync_target take_home_request
  asked-time pose c = ground arith

  press_trackpad-time :
      (pressed : Bool) (now : ℕ) (c : Teleop P V Q W)
      → (press_trackpad np cfg pressed now c).prev_vr_time ≡ c.prev_vr_time
  unfolding press_trackpad start_home
  press_trackpad-time pressed now c = ground arith

  home_mode-time :
      (grip_pressed trigger_pressed : Bool) (tick : Tick P V Q) (c : Teleop P V Q W)
      → (home_mode np cfg grip_pressed trigger_pressed tick c).prev_vr_time ≡ c.prev_vr_time
  unfolding home_mode end_home
  home_mode-time grip_pressed trigger_pressed tick c = ground arith

  release_grip-time :
      (grip_pressed : Bool) (c : Teleop P V Q W)
      → (release_grip grip_pressed c).prev_vr_time ≡ c.prev_vr_time
  unfolding release_grip
  release_grip-time grip_pressed c = ground arith

  begin-time :
      (vive : ViveState V Q) (tick : Tick P V Q) (c : Teleop P V Q W)
      → (begin np cfg vive tick c).prev_vr_time ≡ c.prev_vr_time
  unfolding begin
  begin-time vive tick c =
      let pressed = vive.trackpad || is_home_request c in
      let asked = resync_target tick.pose_at_resync (take_home_request c) in
      let homing = press_trackpad np cfg pressed tick.press_time asked in
      let led = home_mode np cfg vive.grip vive.trigger tick homing in
      (rotate-Keeps np cfg pressed vive tick.pose_at_turn (release_grip vive.grip led)).7
      ∙ release_grip-time vive.grip led
      ∙ home_mode-time vive.grip vive.trigger tick homing
      ∙ press_trackpad-time pressed tick.press_time asked
      ∙ asked-time tick.pose_at_resync c

  validate_soon :
      (current : V) (prev : Option V) (time now : ℕ)
      → now ≤ time + 1
      → validate_position_change np cfg current prev (some time) now ≡ true
  unfolding validate_position_change
  validate_soon current none time now h = refl
  validate_soon current (some pos) time now h = ground arith

  is_outlier_soon :
      (vive : ViveState V Q) (time now : ℕ) (c : Teleop P V Q W)
      → c.prev_vr_time ≡ some time
      → now ≤ time + 1
      → is_outlier np cfg vive now c ≡ false
  unfolding is_outlier
  is_outlier_soon vive time now c e h =
      let valid = validate_soon vive.position c.prev_vr_pos time now h in
      let same : validate_position_change np cfg vive.position c.prev_vr_pos c.prev_vr_time now
          ≡ true =
        rw e valid in
      ground arith

  -- If a frame is rejected as too far away, and the next one is checked at most a millisecond after
  -- the time that the rejection remembers, then that next frame is not rejected, however far away
  -- it is.
  pub iterate_forgives :
      (vive : ViveState V Q) (tick : Tick P V Q) (next_vive : ViveState V Q) (next : Tick P V Q)
      (c : Teleop P V Q W)
      → is_outlier np cfg vive tick.check_time (begin np cfg vive tick c) ≡ true
      → next.check_time ≤ tick.vr_time + 1
      → is_outlier np cfg next_vive next.check_time
          (begin np cfg next_vive next (iterate np cfg vive tick c))
        ≡ false
  unfolding iterate
  iterate_forgives vive tick next_vive next c rejected soon =
      let rejecting : Teleop P V Q W = record (begin np cfg vive tick c) {
        prev_vr_time = some tick.vr_time;
      } in
      rw rejected (
        is_outlier_soon next_vive tick.vr_time next.check_time
          (begin np cfg next_vive next rejecting) (begin-time next_vive next rejecting) soon)
