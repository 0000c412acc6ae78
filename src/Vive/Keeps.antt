-- ===== src/Vive/Keeps.antt =====
-- What the rotation by the trackpad leaves as it is.
use polymetis_franka_teleop.Prelude.{◌≡◌, Bool, false, ◌&&◌, Option, none, some, arith}
use polymetis_franka_teleop.Prelude.Tests.{ltb, if_cases}
use polymetis_franka_teleop.Prelude.Int.{ℤ}
use polymetis_franka_teleop.Vive.{Numerics, Config, ViveState, Teleop, abs}
use polymetis_franka_teleop.Vive.Steer.{
  reset_base, end_turn, set_base, delta_angle, turn_from, turn_by, may_rotate, rotate,
}

module _ {P V Q W : Type 0} where
  module _ (np : Numerics P V Q W) (cfg : Config) where
    -- What a rotation leaves alone.
    abbrev pub Keeps : Teleop P V Q W → Teleop P V Q W → Type 0
    Keeps c d =
        (d.home_active ≡ c.home_active)
        × (d.prev_trigger ≡ c.prev_trigger)
        × (d.actions ≡ c.actions)
        × (d.require_grip_release ≡ c.require_grip_release)
        × (d.clutch_active ≡ c.clutch_active)
        × (d.gripper_closed ≡ c.gripper_closed)
        × (d.prev_vr_pos ≡ c.prev_vr_pos)
        × (d.prev_vr_time ≡ c.prev_vr_time)
        × (d.external_home_request ≡ c.external_home_request)

    set_base-Keeps :
        (place : V) (base : W) (old : Option W) (c : Teleop P V Q W)
        → Keeps c (set_base place base old c)
    unfolding set_base
    set_base-Keeps place base none c = ground arith
    set_base-Keeps place base (some w) c = ground arith

    turn_from-Keeps :
        (pose : P) (delta : ℤ) (c : Teleop P V Q W) → Keeps c (turn_from np cfg pose delta c)
    unfolding turn_from
    turn_from-Keeps pose delta c =
        let based = set_base-Keeps (np.position pose) (np.rotation pose) c.base_rotation c in
        ground arith

    turn_by-Keeps :
        (pose : Option P) (delta : ℤ) (c : Teleop P V Q W) → Keeps c (turn_by np cfg pose delta c)
    unfolding turn_by
    turn_by-Keeps none delta c = ground arith
    turn_by-Keeps (some pose) delta c = turn_from-Keeps pose delta c

    end_turn-Keeps : (base : Option W) (c : Teleop P V Q W) → Keeps c (end_turn base c)
    unfolding end_turn reset_base
    end_turn-Keeps none c = ground arith
    end_turn-Keeps (some w) c = ground arith

    pub rotate-Keeps :
        (pressed : Bool) (vive : ViveState V Q) (pose : Option P) (c : Teleop P V Q W)
        → Keeps c (rotate np cfg pressed vive pose c)
    unfolding rotate
    rotate-Keeps pressed vive pose c =
        let delta = delta_angle cfg vive.trackpad_y in
        let still : Teleop P V Q W = record c { rotation_active = false } in
        let turned = turn_by-Keeps pose delta still in
        let ended = end_turn-Keeps c.base_rotation still in
        if_cases (Keeps c) (may_rotate np cfg pressed vive c && ltb 0 (abs delta)) (λ turn. turned)
          (λ end. ended)
