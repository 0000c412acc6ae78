-- ===== src/Vive/Again.antt =====
-- A request for HOME that comes while HOME is active waits for its end.
use polymetis_franka_teleop.Prelude.{◌-◌, ◌≤◌, ◌≡◌, refl, Bool, true, false, ◌||◌, Option, arith}
use polymetis_franka_teleop.Prelude.Tests.{if_cases}
use polymetis_franka_teleop.Vive.{Numerics, Config, ViveState, Tick, Teleop}
use polymetis_franka_teleop.Vive.Home.{
  full_duration, is_home_request, take_home_request, resync_target, start_home, press_trackpad,
  end_home, home_mode, release_grip,
}
use polymetis_franka_teleop.Vive.Steer.{
  is_outlier, release_clutch, start_clutch, follow, clutch, rotate,
}
use polymetis_franka_teleop.Vive.Keeps.{rotate-Keeps}
use polymetis_franka_teleop.Vive.Loop.{
  toggle, trigger, fail, put_gripper, put_robot, output, begin, iterate,
}

module _ {P V Q W : Type 0} where
  -- Whether HOME is active, and whether it is requested from outside.
  pub record Asks (active asked : Bool) (c : Teleop P V Q W) : Type 0 where
    pub homing : c.home_active ≡ active
    pub waiting : c.external_home_request ≡ asked

  module _ (np : Numerics P V Q W) (cfg : Config) where
    release_grip-Asks :
        (a r : Bool) (grip : Bool) (c : Teleop P V Q W)
        → Asks a r c
        → Asks a r (release_grip grip c)
    unfolding release_grip
    release_grip-Asks a r grip c h = ground arith

    rotate-Asks :
        (a r : Bool) (pressed : Bool) (vive : ViveState V Q) (pose : Option P) (c : Teleop P V Q W)
        → Asks a r c
        → Asks a r (rotate np cfg pressed vive pose c)
    rotate-Asks a r pressed vive pose c h =
        let kept = rotate-Keeps np cfg pressed vive pose c in ground arith

    clutch-Asks :
        (a r : Bool) (vive : ViveState V Q) (tick : Tick P V Q) (c : Teleop P V Q W)
        → Asks a r c
        → Asks a r (clutch np cfg vive tick c)
    unfolding clutch start_clutch follow release_clutch
    clutch-Asks a r vive tick c h = ground arith

    trigger-Asks :
        (a r : Bool) (vive : ViveState V Q) (c : Teleop P V Q W)
        → Asks a r c
        → Asks a r (trigger cfg vive c)
    unfolding trigger toggle
    trigger-Asks a r vive c h = ground arith

    output-Asks :
        (a r : Bool) (tick : Tick P V Q) (c : Teleop P V Q W)
        → Asks a r c
        → Asks a r (output cfg.dt tick c)
    unfolding output put_robot put_gripper fail
    output-Asks a r tick c h = ground arith

    -- The rest of an iteration after HOME.
    rest-Asks :
        (a r : Bool) (vive : ViveState V Q) (tick : Tick P V Q) (led c : Teleop P V Q W)
        → Asks a r led
        → begin np cfg vive tick c
          ≡ rotate np cfg
              (vive.trackpad || is_home_request c)
              vive
              tick.pose_at_turn
              (release_grip vive.grip led)
        → Asks a r (iterate np cfg vive tick c)
    unfolding iterate
    rest-Asks a r vive tick led c h e =
        let begun = begin np cfg vive tick c in
        let steered : Asks a r begun =
          rw e
            (rotate-Asks a r _ vive tick.pose_at_turn _ (release_grip-Asks a r vive.grip led h)) in
        if_cases (Asks a r) (is_outlier np cfg vive tick.check_time begun)
          (λ o. record { homing = steered.homing; waiting = steered.waiting })
          (λ o.
            output-Asks a r tick _
              (trigger-Asks a r vive _ (clutch-Asks a r vive tick begun steered)))

    -- HOME as an iteration finds it, with the request that is taken and the trackpad.
    unfoldable led :
        (vive : ViveState V Q) (tick : Tick P V Q) (c : Teleop P V Q W) → Teleop P V Q W
    led vive tick c = home_mode np cfg vive.grip vive.trigger tick (
        press_trackpad np cfg (vive.trackpad || is_home_request c) tick.press_time
          (resync_target tick.pose_at_resync (take_home_request c)))

    led-Asked :
        (vive : ViveState V Q) (tick : Tick P V Q) (c : Teleop P V Q W)
        → Asks true true c
        → (led vive tick c).external_home_request ≡ true
    unfolding led home_mode end_home press_trackpad start_home resync_target take_home_request
        is_home_request
    led-Asked vive tick c h = ground arith

    led-taken :
        (vive : ViveState V Q) (tick : Tick P V Q) (c : Teleop P V Q W)
        → Asks false true c
        → tick.home_time - tick.press_time ≤ full_duration cfg
        → Asks true false (led vive tick c)
    unfolding led home_mode end_home press_trackpad start_home resync_target take_home_request
        is_home_request
    led-taken vive tick c h soon = ground arith

    -- While HOME is active, a request stays.
    pub iterate-keeps_request :
        (vive : ViveState V Q) (tick : Tick P V Q) (c : Teleop P V Q W)
        → Asks true true c
        → (iterate np cfg vive tick c).external_home_request ≡ true
    unfolding begin led
    iterate-keeps_request vive tick c h =
        let led = led vive tick c in
        let asked = led-Asked vive tick c h in
        (rest-Asks led.home_active true vive tick led c (record { homing = refl; waiting = asked })
          refl).waiting

    -- A request that is there when HOME is not active starts HOME, whatever the trackpad does.
    pub iterate-takes_request :
        (vive : ViveState V Q) (tick : Tick P V Q) (c : Teleop P V Q W)
        → Asks false true c
        → tick.home_time - tick.press_time ≤ full_duration cfg
        → Asks true false (iterate np cfg vive tick c)
    unfolding begin led
    iterate-takes_request vive tick c h soon =
        rest-Asks true false vive tick (led vive tick c) c (led-taken vive tick c h soon) refl
