-- ===== src/Latency/Tests.antt =====
-- A file with a latency for one camera, and the theorem at the robot's latency.
use polymetis_franka_teleop.Prelude.{ℕ, ◌≡◌, refl, false, some, [], ◌∷◌}
use polymetis_franka_teleop.Prelude.Dict.{Dict, lookup, member, insert}
use polymetis_franka_teleop.Latency.{
  Setting, plain, table, loaded, update, overlay, is_comment, merge, load_calibration, get_of,
  or_else, get_backend_latency,
}

abbrev constants : Dict (Setting ℕ)
constants = ("camera", table (("zed", 15) ∷ [])) ∷ ("robot", plain 1) ∷ []

abbrev file : Dict (Setting ℕ)
file = ("_date", plain 2026) ∷ ("camera", table (("zed", 12) ∷ [])) ∷ []

measured : get_backend_latency constants (loaded file) "camera" [] "zed" 15 ≡ some 12
unfolding get_backend_latency load_calibration merge overlay update is_comment get_of or_else lookup
    insert
measured = refl

no_robot : member "robot" file ≡ false
unfolding member
no_robot = refl
