-- ===== src/ViveEnv/Native.antt =====
-- The streams at their native rate: one array for each key with the rows of all episodes, and the
-- range of each episode.
pub mod Rollback
use text.Mathlib.Text.{◌==◌}
use polymetis_franka_teleop.Prelude.{
  ℕ, zero, suc, ◌+◌, ◌-◌, Bool, true, false, not, ◌&&◌, ◌||◌, Option, none, some, List, [], ◌∷◌,
  ◌++◌, String, map,
}
use polymetis_franka_teleop.Prelude.Tests.{ltb, if◌then◌else◌}
use polymetis_franka_teleop.Prelude.Lists.{length, take, replicate, set, get_elem?}
use polymetis_franka_teleop.Prelude.Dict.{Dict, lookup, insert}
use polymetis_franka_teleop.Accumulator.Samples.{or_empty, get_or_empty}
use polymetis_franka_teleop.Policy.Episodes.{Observations}
use polymetis_franka_teleop.ViveEnv.{Range}

-- A timestamp as a row, rows of zeros, and the quaternions with the signs made continuous.
pub record Rows (R : Type 0) : Type 0 where
  pub row_of_time : ℕ → R
  pub zeros : R
  pub quat_continuous : List R → List R

abbrev pub native_robot_keys : List String
native_robot_keys =
    "ts_robot" ∷ "joint_position" ∷ "joint_velocity" ∷ "joint_torque_external"
    ∷ "ee_pose_axis_angle" ∷ "ee_orientation_quat" ∷ "ee_linear_velocity" ∷ "ee_angular_velocity"
    ∷ []

abbrev pub native_gripper_keys : List String
native_gripper_keys = "ts_gripper" ∷ "gripper_position" ∷ []

abbrev pub zero_range : Range
zero_range = record { r_start = 0; r_end = 0; g_start = 0; g_end = 0 }

-- ds.resize(n)
unfoldable pub resize : {X : Type 0} → X → ℕ → List X → List X
resize blank n xs = take n (xs ++ replicate (n - length xs) blank)

-- key in keys
infix 20 ◌∈◌
unfoldable pub ◌∈◌ : String → List String → Bool
key ∈ [] = false
key ∈ (k ∷ keys) = if k == key then true else key ∈ keys

module _ {R : Type 0} (np : Rows R) where
  -- data.get(key, np.zeros((n, …)))
  unfoldable pub or_zeros : ℕ → Option (List R) → List R
  or_zeros n none = replicate n np.zeros
  or_zeros n (some rows) = rows

  -- No rows stay none.
  unfoldable pub continuous : List R → List R
  continuous [] = []
  continuous (row ∷ rows) = np.quat_continuous (row ∷ rows)

  unfoldable pub robot_streams : Observations (Dict (List R)) → Dict (List R)
  unfolding get_or_empty or_zeros continuous
  robot_streams obs =
      let ts_robot = get_or_empty "robot0_joint_pos" obs.timestamps in
      let n = length ts_robot in
      ("ts_robot", map np.row_of_time ts_robot)
      ∷ ("joint_position", get_or_empty "robot0_joint_pos" obs.samples)
      ∷ ("joint_velocity", get_or_empty "robot0_joint_vel" obs.samples)
      ∷ ("joint_torque_external", or_zeros n (lookup "robot0_joint_torque_external" obs.samples))
      ∷ ("ee_pose_axis_angle", get_or_empty "robot0_eef_pose" obs.samples)
      ∷ ("ee_orientation_quat", continuous (get_or_empty "robot0_eef_orientation_quat" obs.samples))
      ∷ ("ee_linear_velocity", or_zeros n (lookup "robot0_eef_linear_velocity" obs.samples))
      ∷ ("ee_angular_velocity", or_zeros n (lookup "robot0_eef_angular_velocity" obs.samples))
      ∷ []

  unfoldable pub gripper_streams : Observations (Dict (List R)) → Dict (List R)
  unfolding get_or_empty
  gripper_streams obs =
      ("ts_gripper", map np.row_of_time (get_or_empty "robot0_gripper_width" obs.timestamps))
      ∷ ("gripper_position", get_or_empty "robot0_gripper_width" obs.samples)
      ∷ []

  -- The first `n` writes: an array is made longer, or made.
  unfoldable pub extend : ℕ → Dict (List R) → Dict (List R) → Dict (List R)
  unfolding get_or_empty
  extend zero streams native = native
  extend (suc n) [] native = native
  extend (suc n) ((key, rows) ∷ streams) native =
      extend n streams (insert key (get_or_empty key native ++ rows) native)

  -- The ranges with the episode's row, made long enough.
  unfoldable pub set_range : ℕ → Range → List Range → List Range
  unfolding resize
  set_range episode_id row rng =
      let long =
        if ltb (length rng) (episode_id + 1) then resize zero_range (episode_id + 1) rng else rng in
      set long episode_id row

  unfoldable pub range_of : Observations (Dict (List R)) → Dict (List R) → Range
  unfolding get_or_empty
  range_of obs native =
      let r_end = length (get_or_empty "ts_robot" native) in
      let g_end = length (get_or_empty "ts_gripper" native) in
      record {
        r_start = r_end - length (get_or_empty "robot0_joint_pos" obs.timestamps);
        r_end = r_end;
        g_start = g_end - length (get_or_empty "robot0_gripper_width" obs.timestamps);
        g_end = g_end;
      }

  -- The ten arrays in the order in which they are written.
  unfoldable pub streams_of : Observations (Dict (List R)) → Dict (List R)
  unfolding robot_streams gripper_streams
  streams_of obs = robot_streams obs ++ gripper_streams obs

  -- `_append_native_rate_stream`, where `n` writes succeed: the ten arrays and then the range.
  -- Nothing is written if the robot's stream is empty.
  unfoldable pub append_native :
      ℕ
      → Observations (Dict (List R))
      → ℕ
      → Dict (List R) × Option (List Range)
      → Dict (List R) × Option (List Range)
  unfolding get_or_empty or_empty streams_of extend set_range range_of
  append_native n obs episode_id (native, ranges) =
      let longer = extend n (streams_of obs) native in
      if ltb 0 (length (get_or_empty "robot0_joint_pos" obs.timestamps))
      then (if ltb 10 n
          then (longer, some (set_range episode_id (range_of obs longer) (or_empty ranges)))
          else (longer, ranges))
      else (native, ranges)

  -- Where the array is cut, if its key is known.
  unfoldable pub new_start : String → Range → Option ℕ
  unfolding ◌∈◌
  new_start key row =
      if key ∈ native_robot_keys
      then some row.r_start
      else if key ∈ native_gripper_keys
      then some row.g_start
      else none

  unfoldable pub cut : Option ℕ → List R → List R
  unfolding resize
  cut none rows = rows
  cut (some start) rows = resize np.zeros start rows

  unfoldable pub truncate_arrays : Range → Dict (List R) → Dict (List R)
  unfolding new_start cut
  truncate_arrays row [] = []
  truncate_arrays row ((key, rows) ∷ native) =
      (key, cut (new_start key row) rows) ∷ truncate_arrays row native

  unfoldable pub truncate_from :
      Option Range → ℕ → Dict (List R) × Option (List Range) → Dict (List R) × Option (List Range)
  unfolding truncate_arrays
  truncate_from none episode_id (native, ranges) = (native, ranges)
  truncate_from (some row) episode_id (native, none) = (native, none)
  truncate_from (some row) episode_id (native, some rng) =
      (truncate_arrays row native, some (resize zero_range episode_id rng))

  -- The part of `drop_episode` on the streams: nothing happens if there is no range of the episode.
  unfoldable pub truncate :
      ℕ → Dict (List R) × Option (List Range) → Dict (List R) × Option (List Range)
  unfolding truncate_from or_empty
  truncate episode_id (native, ranges) =
      truncate_from (get_elem? (or_empty ranges) episode_id) episode_id (native, ranges)
