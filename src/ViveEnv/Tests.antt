-- ===== src/ViveEnv/Tests.antt =====
-- Episodes of the teleoperation at concrete values; rows, actions and observations are numbers.
use polymetis_franka_teleop.Prelude.{
  ℕ, ◌≡◌, refl, true, false, none, some, List, [], ◌∷◌, String, arith,
}
use polymetis_franka_teleop.Prelude.Lists.{length}
use polymetis_franka_teleop.Prelude.Dict.{Dict, lookup}
use polymetis_franka_teleop.Prelude.Result.{ok, err, assertion_error}
use polymetis_franka_teleop.Accumulator.Samples.{or_empty, get_or_empty}
use polymetis_franka_teleop.Trajectory.{last_time}
use polymetis_franka_teleop.Policy.Episodes.{
  Observations, Actions, Episode, Library, min_end, obs_end, n_steps,
}
use polymetis_franka_teleop.ViveEnv.{EpisodeMeta, Env}
use polymetis_franka_teleop.ViveEnv.Meta.{is_consistent, have_length}
use polymetis_franka_teleop.ViveEnv.Native.{Rows}
use polymetis_franka_teleop.ViveEnv.Episodes.{start_episode, steps_of, end_episode, drop_episode}
use polymetis_franka_teleop.ViveEnv.Episodes.Rollback.{
  IsReplay, IsWhole, HoldsSame, ended, dropped, recorded, drop_episode-start_episode,
}
use polymetis_franka_teleop.ViveEnv.Episodes.Steady.{
  is_saved, is_steady, start_episode_pending, end_episode_steady, IsPrevious,
  drop_episode-IsPrevious,
}

abbrev lib : Library (List (Episode ℕ ℕ)) (Dict (List ℕ)) ℕ ℕ
lib = record {
  n_episodes = λ b. length b;
  add_episode = λ e b. e ∷ b;
  drop_episode = λ b. elim b [ [] ↦ err assertion_error | e ∷ rest ↦ ok rest ];
  interpolate = λ obs times. ok (length times);
}

lib-IsReplay : IsReplay lib
lib-IsReplay = record { drop_added = λ e b. refl; n_added = λ e b. refl }

abbrev np : Rows ℕ
np = record { row_of_time = λ t. t; zeros = 0; quat_continuous = λ rows. rows }

abbrev hash : String → String
hash text = "0f3c"

abbrev meta : EpisodeMeta
meta = record {
  task = some "open the drawer";
  task_id = none;
  scene_id = none;
  ep_uuid = "b2";
  git_hash = none;
  ts_start_iso = "2025-01-01";
}

abbrev obs : Observations (Dict (List ℕ))
obs = record {
  timestamps =
      ("robot0_joint_pos", 8 ∷ 18 ∷ 28 ∷ []) ∷ ("robot0_gripper_width", 9 ∷ 19 ∷ 29 ∷ []) ∷ [];
  samples = ("robot0_joint_pos", 1 ∷ 2 ∷ 3 ∷ []) ∷ ("robot0_gripper_width", 4 ∷ 5 ∷ 6 ∷ []) ∷ [];
}

abbrev acts : Actions ℕ
acts = record { actions = 1 ∷ 2 ∷ 3 ∷ []; timestamps = 10 ∷ 20 ∷ 30 ∷ [] }

abbrev late_acts : Actions ℕ
late_acts = record { actions = 1 ∷ []; timestamps = 40 ∷ [] }

-- One episode was saved before.
abbrev before : Env (List (Episode ℕ ℕ)) ℕ ℕ
before = record {
  start_time = 0;
  obs_accumulator = none;
  action_accumulator = none;
  replay_buffer = record { timestamp = 1 ∷ []; action = 7 ∷ []; observations = 1 } ∷ [];
  cameras_record = false;
  meta_attrs =
      ("episode_tasks", "a" ∷ [])
      ∷ ("episode_task_ids", "b" ∷ [])
      ∷ ("episode_ids", "c" ∷ [])
      ∷ ("episode_scene_ids", "" ∷ [])
      ∷ ("episode_software_versions", "" ∷ [])
      ∷ ("episode_start_iso", "d" ∷ [])
      ∷ [];
  obs_native = [];
  episode_ranges = some (record { r_start = 0; r_end = 0; g_start = 0; g_end = 0 } ∷ []);
  videos = (0, none) ∷ [];
}

before-IsWhole : IsWhole lib before
unfolding have_length get_or_empty or_empty lookup
before-IsWhole = record { n_robot = 0; n_gripper = 0; robot = refl; gripper = refl; ranges = refl }

before_steady : is_steady lib false before ≡ true
unfolding is_steady is_consistent have_length get_or_empty or_empty lookup
before_steady = refl

steps : steps_of obs acts ≡ ok 2
unfolding steps_of obs_end last_time min_end n_steps
steps = refl

no_steps : is_saved (steps_of obs late_acts) ≡ false
unfolding is_saved steps_of obs_end last_time min_end n_steps
no_steps = refl

drop_episode-start_episode_example :
    ((start_episode lib hash 8 true 5 meta before).1 ≡ none)
    × HoldsSame lib before (
        drop_episode lib np
          (ended "2025-01-02")
          dropped
          true
          (recorded obs acts (start_episode lib hash 8 true 5 meta before).0))
drop_episode-start_episode_example =
    drop_episode-start_episode lib np lib-IsReplay hash 5 meta "2025-01-02" before obs acts 1 2
      before-IsWhole steps refl

drop_episode-IsPrevious_example : IsPrevious lib np before [] (
    drop_episode lib np
      (ended "2025-01-02")
      dropped
      true
      (recorded obs late_acts (start_episode lib hash 8 true 5 meta before).0))
drop_episode-IsPrevious_example =
    drop_episode-IsPrevious lib np (ended "2025-01-02") hash 5 meta before obs late_acts []
      before_steady refl refl no_steps

start_episode_pending_example :
    ((start_episode lib hash 7 false 5 meta before).1 ≡ some assertion_error)
    × (is_steady lib true (start_episode lib hash 7 false 5 meta before).0 ≡ true)
    × (is_steady lib false (start_episode lib hash 7 false 5 meta before).0 ≡ false)
start_episode_pending_example =
    start_episode_pending lib hash 7 5 false meta before (omega arith) before_steady

started : is_steady lib true (start_episode lib hash 8 true 5 meta before).0 ≡ true
started = (start_episode_pending lib hash 8 5 true meta before (omega arith) before_steady).1

end_episode_steady_example :
    is_steady lib false
      (end_episode lib np
        (ended "2025-01-02")
        true
        (recorded obs acts (start_episode lib hash 8 true 5 meta before).0)).0
    ≡ is_saved (steps_of obs acts)
end_episode_steady_example =
    end_episode_steady lib np lib-IsReplay (ended "2025-01-02") obs acts
      (start_episode lib hash 8 true 5 meta before).0 (λ times. length times) (λ times. refl)
      started
