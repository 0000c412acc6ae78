-- ===== src/Latency.antt =====
-- polymetis_franka_teleop/common/latency_config.py: latencies from a file laid over the constants
-- of the code. A latency is any type `A`.
mod Tests
use Prim.Native.String.{String}
use text.Mathlib.Text.{◌==◌, starts_with}
use text.Mathlib.TextEquality.{eq_iff}
use polymetis_franka_teleop.Prelude.{
  ◌≡◌, refl, Bool, true, false, Option, none, some, List, [], ◌∷◌, arith,
}
use polymetis_franka_teleop.Prelude.Tests.{if◌then◌else◌}
use polymetis_franka_teleop.Prelude.Result.{Result, ok, err, key_error, value_error}
use polymetis_franka_teleop.Prelude.Dict.{Dict, lookup, member, insert, lookup-insert}

-- A value of the configuration: one latency, or one for each backend.
pub data Setting (A : Type 0) : Type 0 where
  plain : A → Setting A
  table : Dict A → Setting A

-- The file: not there, not readable as JSON, or its dictionary.
pub data Disk (A : Type 0) : Type 0 where
  missing : Disk A
  unreadable : Disk A
  loaded : Dict (Setting A) → Disk A

-- k.startswith('_')
unfoldable pub is_comment : String → Bool
is_comment k = starts_with k "_"

module _ {A : Type 0} where
  -- d.update(e)
  unfoldable pub update : Dict A → Dict A → Dict A
  update d [] = d
  update d ((k, v) ∷ e) = update (insert k v d) e

  -- The body of the loop for one key: the new value, from the old one.
  unfoldable pub overlay : Option (Setting A) → Setting A → Setting A
  unfolding update
  overlay (some (table old)) (table new) = table (update old new)
  overlay (some (plain old)) new = new
  overlay (some (table old)) (plain new) = plain new
  overlay none new = new

  unfoldable pub merge : Dict (Setting A) → Dict (Setting A) → Dict (Setting A)
  unfolding overlay is_comment
  merge cfg [] = cfg
  merge cfg ((k, v) ∷ disk) =
      let next = if is_comment k then cfg else insert k (overlay (lookup k cfg) v) cfg in
      merge next disk

  unfoldable pub load_calibration : Dict (Setting A) → Disk A → Dict (Setting A)
  unfolding merge
  load_calibration fallback missing = fallback
  load_calibration fallback unreadable = fallback
  load_calibration fallback (loaded disk) = merge fallback disk

  -- cfg[key].get(backend), or none if that raises.
  unfoldable pub get_of : String → Option (Setting A) → Option (Option A)
  get_of backend none = none
  get_of backend (some (plain v)) = none
  get_of backend (some (table d)) = some (lookup backend d)

  unfoldable pub or_else : Option A → Option A → A → A
  or_else (some v) _ constant = v
  or_else none (some v) constant = v
  or_else none none constant = constant

  -- get_camera_obs_latency, get_gripper_obs_latency and get_gripper_action_latency: the backend's
  -- entry in the table `key`, or in the fallback's table, or a constant.
  unfoldable pub get_backend_latency :
      Dict (Setting A) → Disk A → String → Dict A → String → A → Option A
  unfolding load_calibration get_of or_else
  get_backend_latency fallback disk key fallback_table backend constant =
      elim (get_of backend (lookup key (load_calibration fallback disk))) [
        | none ↦ none
        | some found ↦ some (or_else found (lookup backend fallback_table) constant)
      ]

  -- get_robot_obs_latency and get_robot_action_latency.
  unfoldable pub get_robot_latency : Dict (Setting A) → Disk A → String → Option A
  unfolding load_calibration
  get_robot_latency fallback disk key = elim (lookup key (load_calibration fallback disk)) [
    | some (plain v) ↦ some v
    | _ ↦ none
  ]

  merge-lookup :
      (key : String) (disk cfg : Dict (Setting A))
      → member key disk ≡ false
      → lookup key (merge cfg disk) ≡ lookup key cfg
  unfolding merge member
  merge-lookup key [] cfg h = refl
  merge-lookup key ((k, v) ∷ disk) cfg h =
      let next = if is_comment k then cfg else insert k (overlay (lookup k cfg) v) cfg in
      let rest = merge-lookup key disk next in
      let put = lookup-insert k key (overlay (lookup k cfg) v) cfg in ground (arith, rest, put)

  -- A file without a key, or no file, or one that cannot be read: every getter gives for that key
  -- what the constants of the code give.
  pub latency_falls_back :
      (fallback disk : Dict (Setting A)) (key backend : String) (fallback_table : Dict A)
      (constant : A)
      → member key disk ≡ false
      → (get_backend_latency fallback (loaded disk) key fallback_table backend constant
          ≡ get_backend_latency fallback missing key fallback_table backend constant)
        × (get_robot_latency fallback (loaded disk) key ≡ get_robot_latency fallback missing key)
        × (load_calibration fallback unreadable ≡ load_calibration fallback missing)
  unfolding get_backend_latency get_robot_latency load_calibration
  latency_falls_back fallback disk key backend fallback_table constant h =
      let same = merge-lookup key disk fallback h in
      (ground (arith, same), ground (arith, same), refl)
