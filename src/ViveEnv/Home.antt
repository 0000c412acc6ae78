-- ===== src/ViveEnv/Home.antt =====
-- `move_home` of the environment.
use polymetis_franka_teleop.Prelude.{ℕ, Bool, List, [], ◌∷◌, ◌++◌}
use polymetis_franka_teleop.Prelude.Tests.{if◌then◌else◌}

-- What it asks the Vive process, the gripper and the arm for.
pub data Request : Type 0 where
  synthesize_home arm_move_home : Request
  goto : ℕ → Request

-- An exception of the first two is only printed: whether they succeed is an argument.
unfoldable pub move_home : Bool → Bool → ℕ → List Request
move_home signalled opened gripper_open_width =
    (if signalled then synthesize_home ∷ [] else [])
    ++ (if opened then goto gripper_open_width ∷ [] else [])
    ++ arm_move_home ∷ []
