-- ===== src/Vive/Ends.antt =====
-- The iteration that ends HOME, and the iteration after a rejected frame.
use polymetis_franka_teleop.Prelude.{
  ℕ, ◌-◌, ◌<◌, ◌≡◌, ◌∙◌, Bool, true, false, not, ◌&&◌, ◌||◌, Option, arith,
}
use polymetis_franka_teleop.Vive.{Numerics, Config, ViveState, Tick, Teleop}
use polymetis_franka_teleop.Vive.Home.{
  full_duration, is_home_request, take_home_request, resync_target, start_home, press_trackpad,
  end_home, home_mode, release_grip,
}
use polymetis_franka_teleop.Vive.Steer.{is_outlier, release_clutch, clutch, rotate}
use polymetis_franka_teleop.Vive.Keeps.{rotate-Keeps}
use polymetis_franka_teleop.Vive.Loop.{
  toggle, trigger, fail, put_gripper, put_robot, output, begin, iterate,
}

module _ {P V Q W : Type 0} where
  -- HOME is over.
  pub record IsOver (grip : Bool) (c : Teleop P V Q W) : Type 0 where
    pub inactive : c.home_active ≡ false
    pub off : c.clutch_active ≡ false
    pub held : c.require_grip_release ≡ grip
    pub opened : c.gripper_closed ≡ false

  module _ (np : Numerics P V Q W) (cfg : Config) where
    -- HOME is active since long enough.
    record IsLate (tick : Tick P V Q) (pressed : Bool) (c : Teleop P V Q W) : Type 0 where
      active : c.home_active ≡ true
      unpressed : (pressed && not c.prev_trackpad) ≡ false
      late : full_duration cfg < tick.home_time - c.home_start_time

    asked-IsLate :
        (tick : Tick P V Q) (pressed : Bool) (pose : Option P) (c : Teleop P V Q W)
        → IsLate tick pressed c
        → IsLate tick pressed (resync_target pose (take_home_request c))
    unfolding resync_target take_home_request
    asked-IsLate tick pressed pose c h = ground arith

    home_mode-IsOver :
        (vive : ViveState V Q) (tick : Tick P V Q) (pressed : Bool) (c : Teleop P V Q W)
        → IsLate tick pressed c
        → IsOver true (
            home_mode np cfg vive.grip vive.trigger tick
              (press_trackpad np cfg pressed tick.press_time c))
    unfolding home_mode press_trackpad end_home
    home_mode-IsOver vive tick pressed c h = ground arith

    release_grip-IsOver :
        (grip : Bool) (c : Teleop P V Q W) → IsOver true c → IsOver grip (release_grip grip c)
    unfolding release_grip
    release_grip-IsOver grip c h = ground arith

    rotate-IsOver :
        (grip pressed : Bool) (vive : ViveState V Q) (pose : Option P) (c : Teleop P V Q W)
        → IsOver grip c
        → IsOver grip (rotate np cfg pressed vive pose c)
    rotate-IsOver grip pressed vive pose c h =
        let kept = rotate-Keeps np cfg pressed vive pose c in ground arith

    home_mode-trigger :
        (vive : ViveState V Q) (tick : Tick P V Q) (c : Teleop P V Q W)
        → c.home_active ≡ true
        → (home_mode np cfg vive.grip vive.trigger tick c).prev_trigger ≡ vive.trigger
    unfolding home_mode
    home_mode-trigger vive tick c h = ground arith

    press_trackpad-active :
        (pressed : Bool) (now : ℕ) (c : Teleop P V Q W)
        → c.home_active ≡ true
        → (press_trackpad np cfg pressed now c).home_active ≡ true
    unfolding press_trackpad start_home
    press_trackpad-active pressed now c h = ground arith

    release_grip-trigger :
        (grip : Bool) (c : Teleop P V Q W) → (release_grip grip c).prev_trigger ≡ c.prev_trigger
    unfolding release_grip
    release_grip-trigger grip c = ground arith

    is_home_request-active : (c : Teleop P V Q W) → c.home_active ≡ true → is_home_request c ≡ false
    unfolding is_home_request
    is_home_request-active c h = ground arith

    -- The state in the middle of the iteration.
    record IsEnded (vive : ViveState V Q) (c : Teleop P V Q W) : Type 0 where
      over : IsOver vive.grip c
      seen : c.prev_trigger ≡ vive.trigger

    begin-IsEnded :
        (vive : ViveState V Q) (tick : Tick P V Q) (c : Teleop P V Q W)
        → IsLate tick vive.trackpad c
        → IsEnded vive (begin np cfg vive tick c)
    unfolding begin
    begin-IsEnded vive tick c h =
        let pressed = vive.trackpad || is_home_request c in
        let unasked = is_home_request-active c h.active in
        let late : IsLate tick pressed c = record {
          active = h.active;
          unpressed = ground arith;
          late = h.late;
        } in
        let asked = resync_target tick.pose_at_resync (take_home_request c) in
        let homing = press_trackpad np cfg pressed tick.press_time asked in
        let led = home_mode np cfg vive.grip vive.trigger tick homing in
        let at_asked = asked-IsLate tick pressed tick.pose_at_resync c late in
        let released = release_grip vive.grip led in
        let turned = rotate-Keeps np cfg pressed vive tick.pose_at_turn released in
        record {
          over = rotate-IsOver vive.grip pressed vive tick.pose_at_turn released (
              release_grip-IsOver vive.grip led
                (home_mode-IsOver vive tick pressed asked at_asked));
          seen =
              turned.1
              ∙ release_grip-trigger vive.grip led
              ∙ home_mode-trigger vive tick homing
                  (press_trackpad-active pressed tick.press_time asked at_asked.active);
        }

    is_outlier-IsOver :
        (vive : ViveState V Q) (now : ℕ) (c : Teleop P V Q W)
        → IsOver vive.grip c
        → is_outlier np cfg vive now c ≡ false
    unfolding is_outlier
    is_outlier-IsOver vive now c h = ground arith

    clutch-IsEnded :
        (vive : ViveState V Q) (tick : Tick P V Q) (c : Teleop P V Q W)
        → IsEnded vive c
        → IsEnded vive (clutch np cfg vive tick c)
    unfolding clutch release_clutch
    clutch-IsEnded vive tick c h = let over = h.over in let seen = h.seen in ground arith

    trigger-IsOver :
        (vive : ViveState V Q) (c : Teleop P V Q W)
        → IsEnded vive c
        → IsOver vive.grip (trigger cfg vive c)
    unfolding trigger toggle
    trigger-IsOver vive c h = let over = h.over in let seen = h.seen in ground arith

    output-IsOver :
        (grip : Bool) (tick : Tick P V Q) (c : Teleop P V Q W)
        → IsOver grip c
        → IsOver grip (output cfg.dt tick c)
    unfolding output put_robot put_gripper fail
    output-IsOver grip tick c h = ground arith

    -- If HOME is active since more than its duration and the trackpad is not newly pressed, then the
    -- iteration ends HOME: the clutch is off, the gripper's toggle is open whatever the trigger does,
    -- and a grip that is pressed now has to be released first.
    pub iterate_ends_home :
        (vive : ViveState V Q) (tick : Tick P V Q) (c : Teleop P V Q W)
        → c.home_active ≡ true
        → (vive.trackpad && not c.prev_trackpad) ≡ false
        → full_duration cfg < tick.home_time - c.home_start_time
        → IsOver vive.grip (iterate np cfg vive tick c)
    unfolding iterate
    iterate_ends_home vive tick c active unpressed late =
        let begun = begin np cfg vive tick c in
        let steered = clutch np cfg vive tick begun in
        let ended =
          begin-IsEnded vive tick c
            (record { active = active; unpressed = unpressed; late = late }) in
        rw (is_outlier-IsOver vive tick.check_time begun ended.over) (
          output-IsOver vive.grip tick (trigger cfg vive steered)
            (trigger-IsOver vive steered (clutch-IsEnded vive tick begun ended)))
