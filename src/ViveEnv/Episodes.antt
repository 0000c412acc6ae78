-- ===== src/ViveEnv/Episodes.antt =====
-- start_episode, end_episode and drop_episode. What is tried and may fail without an exception of the
-- call is an argument: how many of the writes succeed. The calls of the cameras are taken to succeed.
pub mod Rollback
pub mod Steady
use polymetis_franka_teleop.Prelude.{
  ℕ, zero, suc, ◌+◌, ◌-◌, min, Bool, true, false, Option, none, some, List, [], ◌∷◌, String,
}
use polymetis_franka_teleop.Prelude.Tests.{ltb, if◌then◌else◌}
use polymetis_franka_teleop.Prelude.Dict.{Dict}
use polymetis_franka_teleop.Prelude.Result.{Error, Result, ok, err, assertion_error, ◌>>=◌}
use polymetis_franka_teleop.Trajectory.{last_time}
use polymetis_franka_teleop.Policy.Episodes.{
  Observations, Actions, Library, min_end, obs_end, n_steps, add_steps,
}
use polymetis_franka_teleop.ViveEnv.{EpisodeMeta, Language, Range, Dirs, Env}
use polymetis_franka_teleop.ViveEnv.Meta.{
  episode_meta_lists, meta_entries, append_entries, pop_lists, lookup_dir, write_dir, make_dir,
  remove_tree, language_of, finalise,
}
use polymetis_franka_teleop.ViveEnv.Native.{Rows, append_native, truncate}

-- What succeeds of `end_episode`: the writes of the streams (ten arrays and the range), and the
-- end in language.json with its time.
pub record Ending : Type 0 where
  pub native_writes : ℕ
  pub finalised : Bool
  pub end_iso : String

-- What succeeds of `drop_episode` after it.
pub record Dropping : Type 0 where
  pub meta_pops : ℕ
  pub tree_removed : Bool
  pub native_truncated : Bool

-- The six lists are written, then the directory is made, then language.json is written.
unfoldable pub write_language : ℕ → ℕ → Language → Dirs → Dirs
unfolding make_dir write_dir
write_language writes dir language dirs =
    let made = make_dir dir dirs in
    if ltb 7 writes then write_dir dir (some language) made else if ltb 6 writes then made else dirs

-- The steps up to the end of the observations and of the actions.
unfoldable pub steps_of : {R A : Type 0} → Observations (Dict (List R)) → Actions A → Result ℕ
unfolding obs_end last_time min_end n_steps
steps_of obs acts = do
  observed_until ← obs_end none obs.timestamps
  acted_until ← last_time acts.timestamps
  ok (n_steps (min_end observed_until acted_until) acts.timestamps)

unfoldable pub give_up : {B R A : Type 0} → Env B R A → Env B R A
give_up env = record env { obs_accumulator = none; action_accumulator = none }

-- The replay buffer without its last episode, or as it is if that raises.
unfoldable pub or_kept : {B : Type 0} → Result B → B → B
or_kept (ok buffer) kept = buffer
or_kept (err e) kept = kept

module _ {B R A O : Type 0} (lib : Library B (Dict (List R)) A O) where
  unfoldable pub begin_recording : Bool → Env B R A → Env B R A × Option Error
  unfolding make_dir
  begin_recording is_ready env =
      let n = lib.n_episodes env.replay_buffer in
      if is_ready
      then (
        record env {
          videos = make_dir n env.videos;
          cameras_record = true;
          obs_accumulator = some (record { timestamps = []; samples = [] });
          action_accumulator = some (record { actions = []; timestamps = [] });
        },
        none,
      )
      else (env, some assertion_error)

  -- `start_episode`, whose first `writes` writes succeed.
  unfoldable pub start_episode :
      (String → String) → ℕ → Bool → ℕ → EpisodeMeta → Env B R A → Env B R A × Option Error
  unfolding begin_recording append_entries meta_entries write_language language_of
  start_episode hash writes is_ready start_time episode env = begin_recording is_ready (record env {
    start_time = start_time;
    meta_attrs = append_entries writes (meta_entries hash episode) env.meta_attrs;
    videos =
        write_language writes (lib.n_episodes env.replay_buffer) (language_of hash episode)
          env.videos;
  })

module _ {B R A O : Type 0} (lib : Library B (Dict (List R)) A O) (np : Rows R) where
  -- What is written after the replay buffer has the episode.
  unfoldable pub write_episode : Ending → Observations (Dict (List R)) → Env B R A → Env B R A
  unfolding append_native finalise lookup_dir
  write_episode ending obs env =
      let episode_id = lib.n_episodes env.replay_buffer - 1 in
      let streams =
        append_native np ending.native_writes obs episode_id (env.obs_native, env.episode_ranges) in
      let closed =
        finalise ending.end_iso (lookup_dir episode_id env.videos) episode_id env.videos in
      record env {
        obs_native = streams.0;
        episode_ranges = streams.1;
        videos = if ending.finalised then closed else env.videos;
      }

  unfoldable pub save_added :
      Ending → Observations (Dict (List R)) → Result B → Env B R A → Env B R A × Option Error
  unfolding write_episode give_up
  save_added ending obs (ok buffer) env =
      (give_up (write_episode ending obs (record env { replay_buffer = buffer })), none)
  save_added ending obs (err e) env = (env, some e)

  unfoldable pub save_steps :
      Ending
      → Observations (Dict (List R))
      → Actions A
      → Result ℕ
      → Env B R A
      → Env B R A × Option Error
  unfolding add_steps save_added give_up
  save_steps ending obs acts (err e) env = (env, some e)
  save_steps ending obs acts (ok zero) env = (give_up env, none)
  save_steps ending obs acts (ok (suc n)) env =
      save_added ending obs (add_steps lib (suc n) obs acts env.replay_buffer) env

  unfoldable pub save_accumulated :
      Ending
      → Option (Observations (Dict (List R)))
      → Option (Actions A)
      → Env B R A
      → Env B R A × Option Error
  unfolding steps_of save_steps
  save_accumulated ending none acts env = (env, none)
  save_accumulated ending (some obs) none env = (env, some assertion_error)
  save_accumulated ending (some obs) (some acts) env =
      save_steps ending obs acts (steps_of obs acts) env

  unfoldable pub end_episode : Ending → Bool → Env B R A → Env B R A × Option Error
  unfolding save_accumulated
  end_episode ending is_ready env =
      if is_ready
      then save_accumulated ending env.obs_accumulator env.action_accumulator
          (record env { cameras_record = false })
      else (env, some assertion_error)

  -- The steps of `drop_episode` after `end_episode`, the first on the replay buffer.
  unfoldable pub roll_back : Dropping → Env B R A → Env B R A
  unfolding or_kept pop_lists remove_tree truncate
  roll_back dropping env =
      let buffer = or_kept (lib.drop_episode env.replay_buffer) env.replay_buffer in
      let episode_id = lib.n_episodes buffer in
      let streams = truncate np episode_id (env.obs_native, env.episode_ranges) in
      record env {
        replay_buffer = buffer;
        meta_attrs = pop_lists dropping.meta_pops episode_meta_lists env.meta_attrs;
        videos = if dropping.tree_removed then remove_tree episode_id env.videos else env.videos;
        obs_native = if dropping.native_truncated then streams.0 else env.obs_native;
        episode_ranges = if dropping.native_truncated then streams.1 else env.episode_ranges;
      }

  -- `drop_episode`: no step looks at whether those before it succeeded.
  unfoldable pub drop_episode : Ending → Dropping → Bool → Env B R A → Env B R A
  unfolding end_episode roll_back
  drop_episode ending dropping is_ready env = roll_back dropping (end_episode ending is_ready env).0
