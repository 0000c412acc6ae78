-- ===== src/ViveEnv.antt =====
-- polymetis_franka_teleop/real_world/franka_vive_env.py: the environment of the teleoperation. An
-- episode is kept in four places: the replay buffer, six lists of texts in the attributes of the
-- zarr file, the streams at their native rate with the range of each episode, and a directory of
-- videos. `B` is the replay buffer, `R` are rows of an array, `A` actions and `O` what the replay
-- buffer holds of the observations.
pub mod TaskId
pub mod Meta
pub mod Native
pub mod Episodes
pub mod Home
mod Tests
use polymetis_franka_teleop.Prelude.{ℕ, ◌+◌, Bool, Option, List, String}
use polymetis_franka_teleop.Prelude.Dict.{Dict}
use polymetis_franka_teleop.Policy.Episodes.{Observations, Actions}

-- What is known of an episode when it starts.
pub record EpisodeMeta : Type 0 where
  pub task : Option String
  pub task_id : Option String
  pub scene_id : Option String
  pub ep_uuid : String
  pub git_hash : Option String
  pub ts_start_iso : String

-- language.json
pub record Language : Type 0 where
  pub episode_id : String
  pub instruction : Option String
  pub task_id : Option String
  pub task_id_source : String
  pub scene_id : Option String
  pub timestamp_start_utc : String
  pub software_version : Option String
  pub timestamp_end_utc : Option String
  pub success : Option Bool

-- A row of `obs_native_episode_ranges`: [[r_start, r_end], [g_start, g_end]]
pub record Range : Type 0 where
  pub r_start : ℕ
  pub r_end : ℕ
  pub g_start : ℕ
  pub g_end : ℕ

-- A video directory by its number, with language.json where it is there.
abbrev pub Dirs : Type 0
Dirs = List (ℕ × Option Language)

pub record Env (B R A : Type 0) : Type 0 where
  pub start_time : ℕ
  pub obs_accumulator : Option (Observations (Dict (List R)))
  pub action_accumulator : Option (Actions A)
  pub replay_buffer : B
  pub cameras_record : Bool
  pub meta_attrs : Dict (List String)
  pub obs_native : Dict (List R)
  pub episode_ranges : Option (List Range)
  pub videos : Dirs
