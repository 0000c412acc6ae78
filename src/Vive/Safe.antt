-- ===== src/Vive/Safe.antt =====
-- What holds between any two iterations, and of every action that is put.
use polymetis_franka_teleop.Prelude.{◌<◌, ◌≡◌, false, ◌&&◌, ◌||◌}
use polymetis_franka_teleop.Prelude.Lists.{All}
use polymetis_franka_teleop.Vive.{Numerics, Config, Action, Teleop}
use polymetis_franka_teleop.Vive.Stages.{IsSafe}

module _ {P V Q W : Type 0} where
  module _ (np : Numerics P V Q W) (cfg : Config) (limited : 0 < cfg.rotation_limit) where
    -- An action that may be recorded.
    abbrev pub IsSafeAction : Action P → Type 0
    IsSafeAction a =
        ((a.clutch_active && (a.home_active || a.rotation_active)) ≡ false)
        × (a.home_requested ≡ a.home_active)

    -- What holds of the loop and of the actions that it has put.
    pub record IsRecorded (c : Teleop P V Q W) : Type 0 where
      pub safe : IsSafe cfg c
      pub recorded : All IsSafeAction c.actions
