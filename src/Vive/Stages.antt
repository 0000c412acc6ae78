-- ===== src/Vive/Stages.antt =====
-- What holds between any two iterations, and that each part of an iteration before the output keeps it.
use polymetis_franka_teleop.Prelude.{
  ℕ, ◌<◌, ◌≡◌, refl, Bool, true, false, ◌&&◌, ◌||◌, Option, none, some, arith,
}
use polymetis_franka_teleop.Prelude.Tests.{ltb, if◌then◌else◌, if_cases}
use polymetis_franka_teleop.Prelude.Int.{ℤ, ◌+ℤ◌, ◌-ℤ◌}
use polymetis_franka_teleop.Vive.{
  Numerics, Config, GripperCommand, no_command, open_command, close_command, ViveState, Tick,
  Teleop, abs,
}
use polymetis_franka_teleop.Vive.Home.{
  take_home_request, resync_target, start_home, press_trackpad, end_home, home_mode, release_grip,
}
use polymetis_franka_teleop.Vive.Steer.{
  reset_base, end_turn, set_base, delta_angle, can_rotate, turn_from, turn_by, may_rotate, rotate,
  start_clutch, follow, release_clutch, clutch,
}

unfoldable pub commands : GripperCommand → Bool
commands no_command = false
commands open_command = true
commands close_command = true

module _ {P V Q W : Type 0} where
  -- The clutch is off during HOME and while the grip has to be released; HOME is requested while it
  -- is active, and sends the gripper nothing; the gripper's state is that of its toggle; the
  -- accumulated rotation is below the limit.
  pub record IsSafe (cfg : Config) (c : Teleop P V Q W) : Type 0 where
    pub unclutched : (c.clutch_active && (c.home_active || c.require_grip_release)) ≡ false
    pub requested : c.home_requested ≡ c.home_active
    pub quiet : (c.home_active && commands c.gripper_command) ≡ false
    pub toggled : c.gripper_state ≡ (if c.gripper_closed then 1 else 0)
    pub turned : abs c.accumulated_z_rotation < cfg.rotation_limit

  module _ (np : Numerics P V Q W) (cfg : Config) (limited : 0 < cfg.rotation_limit) where
    pub take_home_request-IsSafe :
        (c : Teleop P V Q W) → IsSafe cfg c → IsSafe cfg (take_home_request c)
    unfolding take_home_request
    take_home_request-IsSafe c h = ground arith

    pub resync_target-IsSafe :
        (pose : Option P) (c : Teleop P V Q W) → IsSafe cfg c → IsSafe cfg (resync_target pose c)
    unfolding resync_target
    resync_target-IsSafe pose c h = ground arith

    pub press_trackpad-IsSafe :
        (pressed : Bool) (now : ℕ) (c : Teleop P V Q W)
        → IsSafe cfg c
        → IsSafe cfg (press_trackpad np cfg pressed now c)
    unfolding press_trackpad start_home commands
    press_trackpad-IsSafe pressed now c h = ground arith

    pub home_mode-IsSafe :
        (grip_pressed trigger_pressed : Bool) (tick : Tick P V Q) (c : Teleop P V Q W)
        → IsSafe cfg c
        → IsSafe cfg (home_mode np cfg grip_pressed trigger_pressed tick c)
    unfolding home_mode end_home commands
    home_mode-IsSafe grip_pressed trigger_pressed tick c h = ground arith

    pub release_grip-IsSafe :
        (grip_pressed : Bool) (c : Teleop P V Q W)
        → IsSafe cfg c
        → IsSafe cfg (release_grip grip_pressed c)
    unfolding release_grip
    release_grip-IsSafe grip_pressed c h = ground arith

    can_rotate_bound :
        (accumulated delta : ℤ)
        → abs accumulated < cfg.rotation_limit
        → can_rotate cfg accumulated delta ≡ true
        → abs (accumulated +ℤ delta) < cfg.rotation_limit
    unfolding can_rotate ◌+ℤ◌ ◌-ℤ◌
    can_rotate_bound accumulated delta h may = ground arith

    set_base-IsSafe :
        (place : V) (base : W) (old : Option W) (c : Teleop P V Q W)
        → IsSafe cfg c
        → IsSafe cfg (set_base place base old c)
    unfolding set_base
    set_base-IsSafe place base none c h = ground arith
    set_base-IsSafe place base (some w) c h = h

    turn_from-IsSafe :
        (pose : P) (delta : ℤ) (c : Teleop P V Q W)
        → IsSafe cfg c
        → IsSafe cfg (turn_from np cfg pose delta c)
    unfolding turn_from
    turn_from-IsSafe pose delta c h =
        let based = set_base (np.position pose) (np.rotation pose) c.base_rotation c in
        let safe = set_base-IsSafe (np.position pose) (np.rotation pose) c.base_rotation c h in
        let bound = can_rotate_bound based.accumulated_z_rotation delta safe.turned in ground arith

    turn_by-IsSafe :
        (pose : Option P) (delta : ℤ) (c : Teleop P V Q W)
        → IsSafe cfg c
        → IsSafe cfg (turn_by np cfg pose delta c)
    unfolding turn_by
    turn_by-IsSafe none delta c h = ground arith
    turn_by-IsSafe (some pose) delta c h =
        let safe = turn_from-IsSafe pose delta c h in ground arith

    end_turn-IsSafe :
        (base : Option W) (c : Teleop P V Q W) → IsSafe cfg c → IsSafe cfg (end_turn base c)
    unfolding end_turn reset_base
    end_turn-IsSafe none c h = h
    end_turn-IsSafe (some w) c h = ground arith

    pub rotate-IsSafe :
        (pressed : Bool) (vive : ViveState V Q) (pose : Option P) (c : Teleop P V Q W)
        → IsSafe cfg c
        → IsSafe cfg (rotate np cfg pressed vive pose c)
    unfolding rotate
    rotate-IsSafe pressed vive pose c h =
        let delta = delta_angle cfg vive.trackpad_y in
        let still : Teleop P V Q W = record c { rotation_active = false } in
        let safe : IsSafe cfg still = ground arith in
        let turned = turn_by-IsSafe pose delta still safe in
        let ended = end_turn-IsSafe c.base_rotation still safe in
        if_cases (IsSafe cfg) (may_rotate np cfg pressed vive c && ltb 0 (abs delta))
          (λ turn. turned) (λ end. ended)

    end_turn-rotation :
        (base : Option W) (c : Teleop P V Q W)
        → c.rotation_active ≡ false
        → (end_turn base c).rotation_active ≡ false
    unfolding end_turn reset_base
    end_turn-rotation none c h = h
    end_turn-rotation (some w) c h = h

    may_rotate-grip :
        (pressed : Bool) (vive : ViveState V Q) (c : Teleop P V Q W)
        → may_rotate np cfg pressed vive c ≡ true
        → vive.grip ≡ false
    unfolding may_rotate
    may_rotate-grip pressed vive c h = ground arith

    pub rotate-grip :
        (pressed : Bool) (vive : ViveState V Q) (pose : Option P) (c : Teleop P V Q W)
        → (vive.grip && (rotate np cfg pressed vive pose c).rotation_active) ≡ false
    unfolding rotate may_rotate
    rotate-grip pressed vive pose c =
        let still : Teleop P V Q W = record c { rotation_active = false } in
        let ended = end_turn-rotation c.base_rotation still refl in
        if_cases (λ (d : Teleop P V Q W). (vive.grip && d.rotation_active) ≡ false)
          (may_rotate np cfg pressed vive c && ltb 0 (abs (delta_angle cfg vive.trackpad_y)))
          (λ turn. let off = may_rotate-grip pressed vive c in ground arith) (λ end. ground arith)

    pub clutch-IsSafe :
        (vive : ViveState V Q) (tick : Tick P V Q) (c : Teleop P V Q W)
        → IsSafe cfg c
        → IsSafe cfg (clutch np cfg vive tick c)
    unfolding clutch start_clutch follow release_clutch
    clutch-IsSafe vive tick c h = ground arith
