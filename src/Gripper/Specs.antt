-- ===== src/Gripper/Specs.antt =====
-- polymetis_franka_teleop/common/gripper_specs.py: the registry of grippers. Lengths are in tenths
-- of a millimetre, forces in newtons; the host is left out.
use Prim.Native.String.{String}
use text.Mathlib.Text.{◌==◌}
use polymetis_franka_teleop.Prelude.{
  ℕ, ◌-◌, ◌<◌, ◌≡◌, ap, inl, inr, true, false, none, some, [], ◌∷◌, arith,
}
use polymetis_franka_teleop.Prelude.Tests.{if◌then◌else◌, Bool-cases}
use polymetis_franka_teleop.Prelude.Result.{Result, ok, err, value_error, ◌>>=◌}
use polymetis_franka_teleop.Prelude.Dict.{Dict, lookup}

pub data Protocol : Type 0 where
  tcp grpc : Protocol

pub record GripperSpec : Type 0 where
  pub name : String
  pub open_width : ℕ
  pub close_width : ℕ
  pub default_force : ℕ
  pub tcp_offset : ℕ
  pub port : ℕ
  pub protocol : Protocol

unfoldable pub width_range : GripperSpec → ℕ
width_range spec = spec.open_width - spec.close_width

abbrev pub art : GripperSpec
art = record {
  name = "art";
  open_width = 950;
  close_width = 0;
  default_force = 60;
  tcp_offset = 2160;
  port = 50053;
  protocol = tcp;
}

abbrev pub franka : GripperSpec
franka = record {
  name = "franka";
  open_width = 750;
  close_width = 50;
  default_force = 30;
  tcp_offset = 1034;
  port = 50052;
  protocol = grpc;
}

abbrev pub gripper_specs : Dict GripperSpec
gripper_specs = ("art", art) ∷ ("franka", franka) ∷ []

unfoldable pub get_spec : String → Result GripperSpec
unfolding lookup
get_spec backend = elim (lookup backend gripper_specs) [
  | none ↦ err value_error
  | some spec ↦ ok spec
]

-- The class that `get_controller_class` imports.
pub data Controller : Type 0 where
  art_gripper_controller franka_gripper_controller : Controller

unfoldable pub class_of : GripperSpec → Result Controller
class_of spec =
    if spec.name == "art"
    then ok art_gripper_controller
    else if spec.name == "franka"
    then ok franka_gripper_controller
    else err value_error

unfoldable pub get_controller_class : String → Result Controller
unfolding get_spec class_of
get_controller_class backend = do spec ← get_spec backend; class_of spec

get_spec-art : (backend : String) → ("art" == backend) ≡ true → get_spec backend ≡ ok art
unfolding get_spec lookup
get_spec-art backend h = ground (arith, h)

get_spec-franka :
    (backend : String)
    → ("art" == backend) ≡ false
    → ("franka" == backend) ≡ true
    → get_spec backend ≡ ok franka
unfolding get_spec lookup
get_spec-franka backend h k = ground (arith, h, k)

-- A backend with a spec has a controller class, and its gripper opens wider than it closes: the last
-- ValueError of `get_controller_class` is never raised.
pub get_spec-class_of :
    (backend : String) (spec : GripperSpec)
    → get_spec backend ≡ ok spec
    → (0 < width_range spec) × ((c : Controller) × (get_controller_class backend ≡ ok c))
unfolding get_spec lookup get_controller_class class_of width_range
get_spec-class_of backend spec h =
    let classed = λ (r : Result GripperSpec). r >>= class_of in
    elim (Bool-cases ("art" == backend)) [
      | inl is_art ↦ (
        ground (arith, h, is_art),
        (art_gripper_controller, ap classed (get_spec-art backend is_art)),
      )
      | inr other ↦ elim (Bool-cases ("franka" == backend)) [
        | inl is_franka ↦ (
          ground (arith, h, other, is_franka),
          (franka_gripper_controller, ap classed (get_spec-franka backend other is_franka)),
        )
        | inr unknown ↦ absurd (ground (arith, h, other, unknown))
      ]
    ]
