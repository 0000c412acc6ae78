-- ===== src/Policy/Tests.antt =====
-- Calls of the environment at concrete values; poses, samples and episodes are numbers and lists.
use polymetis_franka_teleop.Prelude.{
  ℕ, ◌+◌, ◌≡◌, refl, true, false, Option, none, some, List, [], ◌∷◌, arith,
}
use polymetis_franka_teleop.Prelude.Lists.{length}
use polymetis_franka_teleop.Prelude.Result.{Error, ok, err, full, index_error, assertion_error}
use polymetis_franka_teleop.Trajectory.{is_strict, last_time}
use polymetis_franka_teleop.Policy.{Config, Call, new_sender, exec_calls}
use polymetis_franka_teleop.Policy.Alternate.{IsAlternating, exec_calls-IsAlternating}
use polymetis_franka_teleop.Policy.Episodes.{
  Observations, Actions, Episode, Library, Env, min_end, obs_end, n_steps, end_episode, stop,
}
use polymetis_franka_teleop.Policy.Episodes.Save.{IsCut, end_episode_saves, stop_without_actions}

abbrev cfg : Config
cfg = record {
  robot_action_latency = 2;
  gripper_action_latency = 3;
  gripper_open_width = 80;
  gripper_close_width = 0;
}

abbrev two_actions : ℕ → Option Error → Call ℕ
two_actions time gripper_raises = record {
  is_ready = true;
  compensate_latency = true;
  is_recording = true;
  receive_time = time;
  actions =
      (record { pose = 5; gripper_width = 75 }, time + 10)
      ∷ (record { pose = 6; gripper_width = 10 }, time + 20)
      ∷ [];
  width = ok 70;
  robot_raises = none;
  gripper_raises = gripper_raises;
  record_raises = none;
}

-- The gripper's queue is full in the first call, and takes the command of the second.
abbrev calls : List (Call ℕ)
calls = two_actions 100 (some full) ∷ two_actions 200 none ∷ two_actions 300 none ∷ []

new_sender-IsAlternating : IsAlternating cfg (new_sender {P = ℕ})
unfolding new_sender
new_sender-IsAlternating = record { alternating = tt; following = tt }

exec_calls-IsAlternating_example : IsAlternating cfg (exec_calls cfg calls new_sender)
exec_calls-IsAlternating_example =
    exec_calls-IsAlternating cfg calls new_sender (λ e. omega arith) new_sender-IsAlternating

-- A buffer is the list of its episodes.
abbrev lib : Library (List (Episode ℕ ℕ)) ℕ ℕ ℕ
lib = record {
  n_episodes = λ b. length b;
  add_episode = λ e b. e ∷ b;
  drop_episode = λ b. elim b [ [] ↦ err assertion_error | e ∷ rest ↦ ok rest ];
  interpolate = λ obs times. ok (length times);
}

abbrev obs : Observations ℕ
obs = record { timestamps = ("robot0_eef_pose", 8 ∷ 18 ∷ 28 ∷ []) ∷ []; samples = 3 }

abbrev acts : Actions ℕ
acts = record { actions = 1 ∷ 2 ∷ 3 ∷ 4 ∷ []; timestamps = 10 ∷ 20 ∷ 30 ∷ 40 ∷ [] }

abbrev no_acts : Actions ℕ
no_acts = record { actions = []; timestamps = [] }

abbrev recording : Actions ℕ → Env (List (Episode ℕ ℕ)) ℕ ℕ
recording actions = record {
  start_time = 10;
  obs_accumulator = some obs;
  action_accumulator = some actions;
  replay_buffer = [];
  cameras_record = true;
  processes_run = true;
  video_dirs = 0 ∷ [];
}

end_episode_saves_example :
    (end_episode lib true (recording acts) ≡ (
      record (recording acts) {
        replay_buffer =
            record { timestamp = 10 ∷ 20 ∷ []; action = 1 ∷ 2 ∷ []; observations = 2 } ∷ [];
        obs_accumulator = none;
        action_accumulator = none;
        cameras_record = false;
      },
      none,
    ))
    × IsCut 28 2 (10 ∷ 20 ∷ 30 ∷ 40 ∷ [])
unfolding obs_end min_end last_time is_strict n_steps
end_episode_saves_example =
    end_episode_saves lib (recording acts) obs acts 28 40 1 2 refl refl refl refl refl refl refl

stop_without_actions_example :
    (stop lib true (recording no_acts)
      ≡ (record (recording no_acts) { cameras_record = false }, some index_error))
    × (stop lib true (stop lib true (recording no_acts)).0 ≡ stop lib true (recording no_acts))
unfolding obs_end min_end last_time
stop_without_actions_example =
    stop_without_actions lib (recording no_acts) obs no_acts (some 28) refl refl refl refl
