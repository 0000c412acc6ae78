-- ===== src/ViveEnv/Episodes/Steady.antt =====
-- How the six lists stand to the replay buffer, and a drop of an episode that was not saved.
use polymetis_franka_teleop.Prelude.{
  ℕ, zero, suc, ◌≤◌, ◌≡◌, refl, ap, ◌∙◌, Bool, true, false, none, some, List, String, arith,
}
use polymetis_franka_teleop.Prelude.Tests.{if◌then◌else◌}
use polymetis_franka_teleop.Prelude.Lists.{take}
use polymetis_franka_teleop.Prelude.Dict.{Dict}
use polymetis_franka_teleop.Prelude.Result.{Result, ok, err, assertion_error}
use polymetis_franka_teleop.Accumulator.Samples.{get_or_empty}
use polymetis_franka_teleop.Policy.Episodes.{Observations, Actions, Episode, Library, add_steps}
use polymetis_franka_teleop.ViveEnv.{EpisodeMeta, Env}
use polymetis_franka_teleop.ViveEnv.Meta.{append_entries, meta_entries, is_consistent, lookup_dir}
use polymetis_franka_teleop.ViveEnv.Meta.Rollback.{get-rolled_back}
use polymetis_franka_teleop.ViveEnv.Meta.Lengths.{
  is_consistent-pending, is_consistent-other, is_consistent-suc, is_consistent-same,
}
use polymetis_franka_teleop.ViveEnv.Meta.Videos.{lookup-removed}
use polymetis_franka_teleop.ViveEnv.Native.{Rows, truncate}
use polymetis_franka_teleop.ViveEnv.Episodes.{
  Ending, begin_recording, start_episode, steps_of, write_episode, give_up, save_added, save_steps,
  save_accumulated, end_episode, or_kept, roll_back, drop_episode,
}
use polymetis_franka_teleop.ViveEnv.Episodes.Rollback.{IsReplay, dropped, recorded}

-- An episode is saved if there is a step.
unfoldable pub is_saved : Result ℕ → Bool
is_saved (err e) = false
is_saved (ok zero) = false
is_saved (ok (suc n)) = true

module _ {B R A O : Type 0} (lib : Library B (Dict (List R)) A O) where
  -- The six lists, as long as the number of episodes and one entry more if one is pending.
  unfoldable pub is_steady : Bool → Env B R A → Bool
  is_steady pending env = is_consistent pending (lib.n_episodes env.replay_buffer) env.meta_attrs

  pending_left : (env : Env B R A) → is_steady true env ≡ true → is_steady false env ≡ false
  unfolding is_steady
  pending_left env h = is_consistent-other true false _ _ env.meta_attrs (λ e. omega arith) h

  -- When the six lists are as long as the replay buffer has episodes and their writes succeed, an
  -- episode that starts leaves an entry pending in each. So does a start that raises because the
  -- environment is not ready: the lists are then longer than the number of episodes.
  pub start_episode_pending :
      (hash : String → String) (writes start_time : ℕ) (is_ready : Bool) (episode : EpisodeMeta)
      (env : Env B R A)
      → 6 ≤ writes
      → is_steady false env ≡ true
      → let started = start_episode lib hash writes is_ready start_time episode env in
        (started.1 ≡ (if is_ready then none else some assertion_error))
        × (is_steady true started.0 ≡ true)
        × (is_steady false started.0 ≡ false)
  unfolding start_episode begin_recording is_steady
  start_episode_pending hash writes start_time true episode env h steady =
      let longer = is_consistent-pending writes _ hash episode env.meta_attrs h steady in
      (
        refl,
        longer,
        pending_left (start_episode lib hash writes true start_time episode env).0 longer,
      )
  start_episode_pending hash writes start_time false episode env h steady =
      let longer = is_consistent-pending writes _ hash episode env.meta_attrs h steady in
      (
        refl,
        longer,
        pending_left (start_episode lib hash writes false start_time episode env).0 longer,
      )

  save_steps_steady :
      (np : Rows R) (is_replay : IsReplay lib) (ending : Ending)
      (obs : Observations (Dict (List R))) (acts : Actions A) (env : Env B R A)
      (observed : List ℕ → O)
      → ((times : List ℕ) → lib.interpolate obs times ≡ ok (observed times))
      → is_steady true env ≡ true
      → (steps : Result ℕ)
      → is_steady false (save_steps lib np ending obs acts steps env).0 ≡ is_saved steps
  unfolding save_steps is_saved give_up is_steady add_steps save_added write_episode
  save_steps_steady np is_replay ending obs acts env observed seen h (err e) = pending_left env h
  save_steps_steady np is_replay ending obs acts env observed seen h (ok zero) = pending_left env h
  save_steps_steady np is_replay ending obs acts env observed seen h (ok (suc n)) =
      let found = seen (take (suc n) acts.timestamps) in
      let more = λ (e : Episode A O). is_replay.n_added e env.replay_buffer in
      rw (found, more _) (is_consistent-suc (lib.n_episodes env.replay_buffer) env.meta_attrs ∙ h)

  -- If the interpolation succeeds and the replay buffer counts what is added: when an episode is
  -- pending in the six lists, then after `end_episode` they are as long as the replay buffer has
  -- episodes exactly if there was a step to save. An end that raises, or at which no step is before
  -- the end of the observations, leaves them longer.
  pub end_episode_steady :
      (np : Rows R) (is_replay : IsReplay lib) (ending : Ending)
      (obs : Observations (Dict (List R))) (acts : Actions A) (env : Env B R A)
      (observed : List ℕ → O)
      → ((times : List ℕ) → lib.interpolate obs times ≡ ok (observed times))
      → is_steady true env ≡ true
      → is_steady false (end_episode lib np ending true (recorded obs acts env)).0
        ≡ is_saved (steps_of obs acts)
  unfolding end_episode save_accumulated is_steady
  end_episode_steady np is_replay ending obs acts env observed seen pending =
      save_steps_steady np is_replay ending obs acts
        (record (recorded obs acts env) { cameras_record = false }) observed seen pending
        (steps_of obs acts)

  -- The episode before is dropped, and its entry of the six lists is not.
  pub record IsPrevious (np : Rows R) (env : Env B R A) (earlier : B) (after : Env B R A)
      : Type 0 where
    pub replay_buffer : after.replay_buffer ≡ earlier
    pub video : lookup_dir (lib.n_episodes earlier) after.videos ≡ none
    pub streams :
        (after.obs_native, after.episode_ranges)
        ≡ truncate np (lib.n_episodes earlier) (env.obs_native, env.episode_ranges)
    pub meta_attrs :
        (key : String) → get_or_empty key after.meta_attrs ≡ get_or_empty key env.meta_attrs
    pub inconsistent : is_steady false after ≡ false

  roll_back-IsPrevious :
      (np : Rows R) (hash : String → String) (episode : EpisodeMeta) (env ended : Env B R A)
      (earlier : B)
      → is_steady false env ≡ true
      → lib.drop_episode env.replay_buffer ≡ ok earlier
      → lib.n_episodes env.replay_buffer ≡ suc (lib.n_episodes earlier)
      → ended.replay_buffer ≡ env.replay_buffer
      → ended.meta_attrs ≡ append_entries 6 (meta_entries hash episode) env.meta_attrs
      → ended.obs_native ≡ env.obs_native
      → ended.episode_ranges ≡ env.episode_ranges
      → IsPrevious np env earlier (roll_back lib np dropped ended)
  unfolding roll_back or_kept is_steady
  roll_back-IsPrevious np hash episode env ended earlier steady back less same_buffer appended
        same_native same_ranges =
      let gone : lib.drop_episode ended.replay_buffer ≡ ok earlier =
        ap lib.drop_episode same_buffer ∙ back in
      let metas = λ (key : String). get-rolled_back key hash episode env.meta_attrs in
      let apart =
        is_consistent-other false false _ (lib.n_episodes earlier) env.meta_attrs (λ e. omega arith)
          steady in
      let same = is_consistent-same false (lib.n_episodes earlier) env.meta_attrs _ metas in
      rw (gone, appended, same_native, same_ranges)
        (record {
          replay_buffer = refl;
          video = lookup-removed (lib.n_episodes earlier) ended.videos;
          streams = refl;
          meta_attrs = metas;
          inconsistent = same ∙ apart;
        })

  save_steps-unsaved :
      (np : Rows R) (ending : Ending) (obs : Observations (Dict (List R))) (acts : Actions A)
      (env : Env B R A) (P : Env B R A → Type 0)
      → P env
      → P (give_up env)
      → (steps : Result ℕ) → is_saved steps ≡ false
      → P (save_steps lib np ending obs acts steps env).0
  unfolding save_steps is_saved
  save_steps-unsaved np ending obs acts env P kept given_up (err e) h = kept
  save_steps-unsaved np ending obs acts env P kept given_up (ok zero) h = given_up
  save_steps-unsaved np ending obs acts env P kept given_up (ok (suc n)) h = cc

  -- When the six lists are as long as the replay buffer has episodes, its last one can be dropped,
  -- after which it has one less, an episode is started, with all its writes successful, and no step
  -- of it can be saved, whether `end_episode` raises or not: `drop_episode` drops the episode
  -- before it from the replay buffer, with its videos and its streams, and from the six lists only
  -- the entry of the one that was started. They are then longer than the number of episodes.
  pub drop_episode-IsPrevious :
      (np : Rows R) (ending : Ending) (hash : String → String) (start_time : ℕ)
      (episode : EpisodeMeta) (env : Env B R A) (obs : Observations (Dict (List R)))
      (acts : Actions A) (earlier : B)
      → is_steady false env ≡ true
      → lib.drop_episode env.replay_buffer ≡ ok earlier
      → lib.n_episodes env.replay_buffer ≡ suc (lib.n_episodes earlier)
      → is_saved (steps_of obs acts) ≡ false
      → IsPrevious np env earlier (
          drop_episode lib np ending dropped true
            (recorded obs acts (start_episode lib hash 8 true start_time episode env).0))
  unfolding drop_episode end_episode save_accumulated give_up start_episode begin_recording
  drop_episode-IsPrevious np ending hash start_time episode env obs acts earlier steady back less
        unsaved =
      let started = (start_episode lib hash 8 true start_time episode env).0 in
      let reach = λ (ended : Env B R A).
        roll_back-IsPrevious np hash episode env ended earlier steady back less in
      let quiet : Env B R A = record (recorded obs acts started) { cameras_record = false } in
      let kept = reach quiet refl refl refl refl in
      let given = reach (give_up quiet) refl refl refl refl in
      save_steps-unsaved np ending obs acts
        (record (recorded obs acts started) { cameras_record = false })
        (λ ended. IsPrevious np env earlier (roll_back lib np dropped ended)) kept given
        (steps_of obs acts) unsaved
