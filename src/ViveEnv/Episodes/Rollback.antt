-- ===== src/ViveEnv/Episodes/Rollback.antt =====
-- An episode that is started, recorded and dropped leaves the data as they were.
use polymetis_franka_teleop.Prelude.{
  ℕ, suc, ◌-◌, ◌≡◌, ◌≢◌, refl, ◌∙◌, true, false, none, some, List, String, arith,
}
use polymetis_franka_teleop.Prelude.Lists.{length, take}
use polymetis_franka_teleop.Prelude.Dict.{Dict}
use polymetis_franka_teleop.Prelude.Result.{ok}
use polymetis_franka_teleop.Accumulator.Samples.{or_empty, get_or_empty}
use polymetis_franka_teleop.Policy.Episodes.{Observations, Actions, Episode, Library, add_steps}
use polymetis_franka_teleop.ViveEnv.{EpisodeMeta, Env}
use polymetis_franka_teleop.ViveEnv.Meta.{
  episode_meta_lists, pop_lists, have_length, lookup_dir, remove_tree, finalise,
}
use polymetis_franka_teleop.ViveEnv.Meta.Rollback.{get-rolled_back}
use polymetis_franka_teleop.ViveEnv.Meta.Videos.{
  lookup-write_dir, lookup-make_dir, lookup-remove_tree, lookup-finalise, lookup-removed,
}
use polymetis_franka_teleop.ViveEnv.Native.{
  Rows, native_robot_keys, native_gripper_keys, append_native, truncate,
}
use polymetis_franka_teleop.ViveEnv.Native.Rollback.{truncate-append_native}
use polymetis_franka_teleop.ViveEnv.Episodes.{
  Ending, Dropping, write_language, begin_recording, start_episode, steps_of, write_episode,
  give_up, save_added, save_steps, save_accumulated, end_episode, or_kept, roll_back, drop_episode,
}

-- What is relied on of the replay buffer: an episode that was added is the one that is dropped.
module _ {B D A O : Type 0} (lib : Library B D A O) where
  pub record IsReplay : Type 0 where
    pub drop_added : (e : Episode A O) (b : B) → lib.drop_episode (lib.add_episode e b) ≡ ok b
    pub n_added :
        (e : Episode A O) (b : B) → lib.n_episodes (lib.add_episode e b) ≡ suc (lib.n_episodes b)

-- All writes succeed.
abbrev pub ended : String → Ending
ended end_iso = record { native_writes = 11; finalised = true; end_iso = end_iso }

abbrev pub dropped : Dropping
dropped = record { meta_pops = 6; tree_removed = true; native_truncated = true }

module _ {B R A O : Type 0} (lib : Library B (Dict (List R)) A O) where
  -- The streams are those of the episodes of the replay buffer.
  pub record IsWhole (env : Env B R A) : Type 0 where
    pub n_robot : ℕ
    pub n_gripper : ℕ
    pub robot : have_length n_robot native_robot_keys env.obs_native ≡ true
    pub gripper : have_length n_gripper native_gripper_keys env.obs_native ≡ true
    pub ranges : length (or_empty env.episode_ranges) ≡ lib.n_episodes env.replay_buffer

  -- The data are the same; the directory of the next episode is not there, and nothing is recorded.
  pub record HoldsSame (env after : Env B R A) : Type 0 where
    pub replay_buffer : after.replay_buffer ≡ env.replay_buffer
    pub meta_attrs :
        (key : String) → get_or_empty key after.meta_attrs ≡ get_or_empty key env.meta_attrs
    pub obs_native :
        (key : String) → get_or_empty key after.obs_native ≡ get_or_empty key env.obs_native
    pub episode_ranges : or_empty after.episode_ranges ≡ or_empty env.episode_ranges
    pub videos :
        (d : ℕ)
        → d ≢ lib.n_episodes env.replay_buffer
        → lookup_dir d after.videos ≡ lookup_dir d env.videos
    pub next_video : lookup_dir (lib.n_episodes env.replay_buffer) after.videos ≡ none
    pub no_obs : after.obs_accumulator ≡ none
    pub no_actions : after.action_accumulator ≡ none
    pub no_recording : after.cameras_record ≡ false

-- What `get_obs` and `exec_actions` change.
abbrev pub recorded :
    {B R A : Type 0} → Observations (Dict (List R)) → Actions A → Env B R A → Env B R A
recorded obs acts env = record env { obs_accumulator = some obs; action_accumulator = some acts }

module _ {B R A O : Type 0} (lib : Library B (Dict (List R)) A O) (np : Rows R) where
  end_episode-added :
      (ending : Ending) (obs : Observations (Dict (List R))) (acts : Actions A) (env : Env B R A)
      (n : ℕ) (observed : O)
      → steps_of obs acts ≡ ok (suc n)
      → lib.interpolate obs (take (suc n) acts.timestamps) ≡ ok observed
      → (e : Episode A O) × (end_episode lib np ending true (recorded obs acts env) ≡ (
        give_up (
            write_episode lib np ending obs (record (recorded obs acts env) {
              cameras_record = false;
              replay_buffer = lib.add_episode e env.replay_buffer;
            })),
        none,
      ))
  unfolding end_episode save_accumulated save_steps add_steps save_added
  end_episode-added ending obs acts env n observed steps seen = (
    record {
      timestamp = take (suc n) acts.timestamps;
      action = take (suc n) acts.actions;
      observations = observed;
    },
    rw (steps, seen) refl,
  )

  -- What `drop_episode` makes of an episode that was recorded.
  drop_episode-added :
      (is_replay : IsReplay lib) (end_iso : String) (obs : Observations (Dict (List R)))
      (acts : Actions A) (env : Env B R A) (n : ℕ) (observed : O)
      → steps_of obs acts ≡ ok (suc n)
      → lib.interpolate obs (take (suc n) acts.timestamps) ≡ ok observed
      → let episode_id = lib.n_episodes env.replay_buffer in
        let closed = finalise end_iso (lookup_dir episode_id env.videos) episode_id env.videos in
        let streams =
          truncate np episode_id
            (append_native np 11 obs episode_id (env.obs_native, env.episode_ranges)) in
        drop_episode lib np (ended end_iso) dropped true (recorded obs acts env) ≡ record env {
          cameras_record = false;
          obs_accumulator = none;
          action_accumulator = none;
          meta_attrs = pop_lists 6 episode_meta_lists env.meta_attrs;
          videos = remove_tree episode_id closed;
          obs_native = streams.0;
          episode_ranges = streams.1;
        }
  unfolding drop_episode roll_back write_episode give_up or_kept
  drop_episode-added is_replay end_iso obs acts env n observed steps seen =
      let added = end_episode-added (ended end_iso) obs acts env n observed steps seen in
      let back = is_replay.drop_added added.0 env.replay_buffer in
      let more = is_replay.n_added added.0 env.replay_buffer in
      let prev : suc (lib.n_episodes env.replay_buffer) - 1 ≡ lib.n_episodes env.replay_buffer =
        omega arith in
      rw (added.1, back, more, prev) refl

  -- If the replay buffer drops the episode that was added, the streams are those of its episodes
  -- and the interpolation succeeds: an episode that starts, records at least one step and is dropped, with all writes
  -- successful, leaves the replay buffer, the six lists, the streams with their ranges and the other
  -- videos as they were. Its own directory is gone, and nothing is recorded.
  pub drop_episode-start_episode :
      (is_replay : IsReplay lib) (hash : String → String) (start_time : ℕ) (episode : EpisodeMeta)
      (end_iso : String) (env : Env B R A) (obs : Observations (Dict (List R))) (acts : Actions A)
      (n : ℕ) (observed : O)
      → IsWhole lib env
      → steps_of obs acts ≡ ok (suc n)
      → lib.interpolate obs (take (suc n) acts.timestamps) ≡ ok observed
      → ((start_episode lib hash 8 true start_time episode env).1 ≡ none)
        × HoldsSame lib env (
            drop_episode lib np
              (ended end_iso)
              dropped
              true
              (recorded obs acts (start_episode lib hash 8 true start_time episode env).0))
  unfolding start_episode begin_recording write_language
  drop_episode-start_episode is_replay hash start_time episode end_iso env obs acts n observed whole
        steps seen =
      let started = (start_episode lib hash 8 true start_time episode env).0 in
      let after = drop_episode-added is_replay end_iso obs acts started n observed steps seen in
      let streams =
        truncate-append_native np obs env.obs_native whole.n_robot whole.n_gripper whole.robot
          whole.gripper (lib.n_episodes env.replay_buffer) env.episode_ranges whole.ranges in
      (
        refl,
        rw after (record {
          replay_buffer = refl;
          meta_attrs = λ key. get-rolled_back key hash episode env.meta_attrs;
          obs_native = streams.0;
          episode_ranges = streams.1;
          videos = λ d other.
              lookup-remove_tree d _ other _
              ∙ lookup-finalise d _ other end_iso _ _
              ∙ lookup-make_dir d _ other _
              ∙ lookup-write_dir d _ other _ _
              ∙ lookup-make_dir d _ other _;
          next_video = lookup-removed (lib.n_episodes env.replay_buffer) _;
          no_obs = refl;
          no_actions = refl;
          no_recording = refl;
        }),
      )
