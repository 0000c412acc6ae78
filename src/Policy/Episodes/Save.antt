-- ===== src/Policy/Episodes/Save.antt =====
-- What an episode holds when it ends, and what happens if there is no action.
use polymetis_franka_teleop.Prelude.{
  ℕ, zero, suc, ◌≤◌, ◌<◌, ◌≡◌, refl, min, true, false, Option, none, some, List, [], ◌∷◌, arith,
}
use polymetis_franka_teleop.Prelude.Tests.{ltb, leb, lt→ltb, if◌then◌else◌, if_cases}
use polymetis_franka_teleop.Prelude.Lists.{take, drop, All}
use polymetis_franka_teleop.Prelude.Result.{ok, index_error}
use polymetis_franka_teleop.Trajectory.{is_strict, last_time}
use polymetis_franka_teleop.Policy.Episodes.{
  Observations, Actions, Library, Env, min_end, obs_end, n_steps, add_steps, save, finish_save,
  save_accumulated, end_episode, stop_processes, stop,
}

-- A step before the end is followed from the first one on.
n_steps-head :
    (end_time t : ℕ) (timestamps : List ℕ)
    → is_strict (t ∷ timestamps) ≡ true
    → 0 < n_steps end_time (t ∷ timestamps)
    → t ≤ end_time
unfolding n_steps is_strict
n_steps-head end_time t [] s h = ground arith
n_steps-head end_time t (u ∷ timestamps) s h =
    let later = n_steps-head end_time u timestamps in ground arith

-- The first `n` times are up to the end, the others after it.
abbrev pub IsCut : ℕ → ℕ → List ℕ → Type 0
IsCut end_time n timestamps =
    All (λ (t : ℕ). t ≤ end_time) (take n timestamps)
    × All (λ (t : ℕ). end_time < t) (drop n timestamps)

IsCut-cons :
    (end_time t n : ℕ) (timestamps : List ℕ)
    → (0 < n → t ≤ end_time)
    → IsCut end_time n timestamps
    → IsCut end_time (if ltb 0 n then suc n else (if leb t end_time then 1 else 0)) (t ∷ timestamps)
IsCut-cons end_time t zero timestamps head h =
    if_cases (λ (m : ℕ). IsCut end_time m (t ∷ timestamps)) (leb t end_time)
      (λ e. ((ground arith, tt), h.1)) (λ e. (tt, (ground arith, h.1)))
IsCut-cons end_time t (suc n) timestamps head h =
    rw (lt→ltb 0 (suc n) (omega arith)) ((head (omega arith), h.0), h.1)

n_steps-IsCut :
    (end_time : ℕ) (timestamps : List ℕ)
    → is_strict timestamps ≡ true
    → IsCut end_time (n_steps end_time timestamps) timestamps
unfolding n_steps is_strict
n_steps-IsCut end_time [] s = (tt, tt)
n_steps-IsCut end_time (t ∷ []) s = IsCut-cons end_time t 0 [] (λ p. omega arith) (tt, tt)
n_steps-IsCut end_time (t ∷ u ∷ timestamps) s =
    let rest = n_steps-IsCut end_time (u ∷ timestamps) (ground arith) in
    IsCut-cons end_time t (n_steps end_time (u ∷ timestamps)) (u ∷ timestamps)
      (λ p. let later = n_steps-head end_time u timestamps (ground arith) p in ground arith) rest

module _ {B D A O : Type 0} (lib : Library B D A O) where
  -- When an episode ends whose observations and actions have times, the actions' times ascending
  -- and the first of them not after both last times, and the interpolation succeeds: the steps up
  -- to the earlier of the last times, and no other, are added as one episode; the recording of the
  -- cameras and the accumulation end, and nothing is raised.
  pub end_episode_saves :
      (env : Env B D A) (obs : Observations D) (acts : Actions A) (observed_until acted_until n : ℕ)
      (observed : O)
      → env.obs_accumulator ≡ some obs
      → env.action_accumulator ≡ some acts
      → obs_end none obs.timestamps ≡ ok (some observed_until)
      → last_time acts.timestamps ≡ ok acted_until
      → is_strict acts.timestamps ≡ true
      → n_steps (min observed_until acted_until) acts.timestamps ≡ suc n
      → lib.interpolate obs (take (suc n) acts.timestamps) ≡ ok observed
      → (end_episode lib true env ≡ (
        record env {
          replay_buffer =
              lib.add_episode
                (record {
                  timestamp = take (suc n) acts.timestamps;
                  action = take (suc n) acts.actions;
                  observations = observed;
                })
                env.replay_buffer;
          obs_accumulator = none;
          action_accumulator = none;
          cameras_record = false;
        },
        none,
      ))
        × IsCut (min observed_until acted_until) (suc n) acts.timestamps
  unfolding end_episode save_accumulated save finish_save min_end add_steps
  end_episode_saves env obs acts observed_until acted_until n observed has_obs has_acts seen acted
        strict steps found =
      (
        rw (has_obs, has_acts, seen, acted, steps, found) refl,
        rw steps at (n_steps-IsCut (min observed_until acted_until) acts.timestamps strict),
      )

  stop_stuck :
      (env : Env B D A) (obs : Observations D) (acts : Actions A) (observed_until : Option ℕ)
      → env.obs_accumulator ≡ some obs
      → env.action_accumulator ≡ some acts
      → obs_end none obs.timestamps ≡ ok observed_until
      → acts.timestamps ≡ []
      → stop lib true env ≡ (record env { cameras_record = false }, some index_error)
  unfolding stop end_episode save_accumulated save finish_save stop_processes last_time
  stop_stuck env obs acts observed_until has_obs has_acts seen empty =
      rw (has_obs, has_acts, seen, empty) refl

  -- If an episode is recorded and no action has been put yet, `stop` raises: the cameras'
  -- recording ends, but no process is stopped and the accumulators stay, so that this also holds of
  -- the next `stop`.
  pub stop_without_actions :
      (env : Env B D A) (obs : Observations D) (acts : Actions A) (observed_until : Option ℕ)
      → env.obs_accumulator ≡ some obs
      → env.action_accumulator ≡ some acts
      → obs_end none obs.timestamps ≡ ok observed_until
      → acts.timestamps ≡ []
      → (stop lib true env ≡ (record env { cameras_record = false }, some index_error))
        × (stop lib true (stop lib true env).0 ≡ stop lib true env)
  stop_without_actions env obs acts observed_until has_obs has_acts seen empty =
      let once = stop_stuck env obs acts observed_until has_obs has_acts seen empty in
      let quiet : Env B D A = record env { cameras_record = false } in
      let twice = stop_stuck quiet obs acts observed_until has_obs has_acts seen empty in
      (once, rw once twice)
