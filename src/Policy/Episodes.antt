-- ===== src/Policy/Episodes.antt =====
-- The episodes of the environment. The replay buffer and the interpolation of the observations are
-- those of other libraries.
pub mod Save
use polymetis_franka_teleop.Prelude.{
  ℕ, zero, suc, min, Bool, true, false, not, Option, none, some, List, [], ◌∷◌,
}
use polymetis_franka_teleop.Prelude.Tests.{ltb, leb, ◌==◌, if◌then◌else◌}
use polymetis_franka_teleop.Prelude.Lists.{take}
use polymetis_franka_teleop.Prelude.Dict.{Dict}
use polymetis_franka_teleop.Prelude.Result.{Error, Result, ok, err, assertion_error, ◌>>=◌}
use polymetis_franka_teleop.Trajectory.{last_time}

-- The accumulators of an episode: for each key of the observations the timestamps, with the samples,
-- and the actions with the timestamps of their windows.
pub record Observations (D : Type 0) : Type 0 where
  pub timestamps : Dict (List ℕ)
  pub samples : D

pub record Actions (A : Type 0) : Type 0 where
  pub actions : List A
  pub timestamps : List ℕ

pub record Episode (A O : Type 0) : Type 0 where
  pub timestamp : List ℕ
  pub action : List A
  pub observations : O

-- `ReplayBuffer`, and the observations interpolated at some times.
pub record Library (B D A O : Type 0) : Type 0 where
  pub n_episodes : B → ℕ
  pub add_episode : Episode A O → B → B
  pub drop_episode : B → Result B
  pub interpolate : Observations D → List ℕ → Result O

pub record Env (B D A : Type 0) : Type 0 where
  pub start_time : ℕ
  pub obs_accumulator : Option (Observations D)
  pub action_accumulator : Option (Actions A)
  pub replay_buffer : B
  pub cameras_record : Bool
  pub processes_run : Bool
  pub video_dirs : List ℕ

-- min(end_time, time), where none is infinity
unfoldable pub min_end : Option ℕ → ℕ → ℕ
min_end none time = time
min_end (some end_time) time = min end_time time

unfoldable pub obs_end : Option ℕ → Dict (List ℕ) → Result (Option ℕ)
unfolding min_end last_time
obs_end end_time [] = ok end_time
obs_end end_time ((key, value) ∷ timestamps) =
    last_time value >>= (λ time. obs_end (some (min_end end_time time)) timestamps)

-- np.nonzero(timestamps <= end_time)[0][-1] + 1, or 0 if there is none
unfoldable pub n_steps : ℕ → List ℕ → ℕ
n_steps end_time [] = 0
n_steps end_time (time ∷ timestamps) =
    let rest = n_steps end_time timestamps in
    if ltb 0 rest then suc rest else (if leb time end_time then 1 else 0)

unfoldable pub remove_dir : ℕ → List ℕ → List ℕ
remove_dir dir [] = []
remove_dir dir (d ∷ dirs) = let rest = remove_dir dir dirs in if d == dir then rest else d ∷ rest

module _ {B D A O : Type 0} (lib : Library B D A O) where
  -- The first `n` steps as an episode, if there are any.
  unfoldable pub add_steps : ℕ → Observations D → Actions A → B → Result B
  add_steps zero obs acts buffer = ok buffer
  add_steps (suc n) obs acts buffer = do
    let timestamps = take (suc n) acts.timestamps
    observed ← lib.interpolate obs timestamps
    ok (
        lib.add_episode
          (record {
            timestamp = timestamps;
            action = take (suc n) acts.actions;
            observations = observed;
          })
          buffer)

  unfoldable pub save : Observations D → Actions A → B → Result B
  unfolding obs_end last_time min_end n_steps add_steps
  save obs acts buffer = do
    observed_until ← obs_end none obs.timestamps
    acted_until ← last_time acts.timestamps
    add_steps (n_steps (min_end observed_until acted_until) acts.timestamps) obs acts buffer

  -- The accumulators are given up once the episode is saved.
  unfoldable pub finish_save : Result B → Env B D A → Env B D A × Option Error
  finish_save (ok buffer) env = (
    record env { replay_buffer = buffer; obs_accumulator = none; action_accumulator = none },
    none,
  )
  finish_save (err e) env = (env, some e)

  unfoldable pub save_accumulated :
      Option (Observations D) → Option (Actions A) → Env B D A → Env B D A × Option Error
  unfolding save finish_save
  save_accumulated none acts env = (env, none)
  save_accumulated (some obs) none env = (env, some assertion_error)
  save_accumulated (some obs) (some acts) env = finish_save (save obs acts env.replay_buffer) env

  -- `end_episode`, with the exception that it raises.
  unfoldable pub end_episode : Bool → Env B D A → Env B D A × Option Error
  unfolding save_accumulated
  end_episode is_ready env =
      if is_ready
      then save_accumulated env.obs_accumulator env.action_accumulator
          (record env { cameras_record = false })
      else (env, some assertion_error)

  unfoldable pub drop_saved : Result B → Env B D A → Env B D A × Option Error
  unfolding remove_dir
  drop_saved (ok buffer) env = (
    record env {
      replay_buffer = buffer;
      video_dirs = remove_dir (lib.n_episodes buffer) env.video_dirs;
    },
    none,
  )
  drop_saved (err e) env = (env, some e)

  unfoldable pub after_end : Env B D A × Option Error → Env B D A × Option Error
  unfolding drop_saved
  after_end (env, none) = drop_saved (lib.drop_episode env.replay_buffer) env
  after_end (env, some e) = (env, some e)

  unfoldable pub drop_episode : Bool → Env B D A → Env B D A × Option Error
  unfolding end_episode after_end
  drop_episode is_ready env = after_end (end_episode is_ready env)

  unfoldable pub stop_processes : Env B D A × Option Error → Env B D A × Option Error
  stop_processes (env, none) = (record env { processes_run = false }, none)
  stop_processes (env, some e) = (env, some e)

  -- `stop`, which first ends the episode.
  unfoldable pub stop : Bool → Env B D A → Env B D A × Option Error
  unfolding end_episode stop_processes
  stop is_ready env = stop_processes (end_episode is_ready env)

  -- `start_episode`, with the new accumulators.
  unfoldable pub start_episode :
      Bool → ℕ → Observations D → Actions A → Env B D A → Env B D A × Option Error
  start_episode is_ready start_time obs acts env =
      let started : Env B D A = record env { start_time = start_time } in
      if is_ready
      then (
        record started {
          video_dirs =
              lib.n_episodes env.replay_buffer
              ∷ remove_dir (lib.n_episodes env.replay_buffer) env.video_dirs;
          cameras_record = true;
          obs_accumulator = some obs;
          action_accumulator = some acts;
        },
        none,
      )
      else (started, some assertion_error)
