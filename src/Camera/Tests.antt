-- ===== src/Camera/Tests.antt =====
-- Runs of the loop; times, paths and frames are numbers.
use polymetis_franka_teleop.Prelude.{ℕ, ◌/◌, refl, true, false, none, List, [], ◌∷◌}
use polymetis_franka_teleop.Prelude.Int.{pos}
use polymetis_franka_teleop.Camera.{Command, set_color_option, Tick, Camera, Numerics, run}
use polymetis_franka_teleop.Camera.Numbered.{steps, IsNumbered, keeps_steps}
use polymetis_franka_teleop.Camera.Steps.{run-first-IsNumbered}

-- Ten units of time are a window.
abbrev np : Numerics ℕ ℕ
np = record {
  put_window = λ start t. pos (t / 10);
  video_window = λ start t. pos (t / 10);
  step_of = λ start t. pos (t / 10);
  too_long = λ path. false;
}

abbrev frame_at : ℕ → List (Command ℕ ℕ) → Tick ℕ ℕ ℕ
frame_at t commands = record {
  receive_time = t;
  calibrated_time = t;
  put_data = t;
  vis_data = t;
  rec_data = t;
  ring_takes = 9;
  vis_takes = true;
  commands = commands;
}

abbrev camera : Camera ℕ ℕ ℕ
camera = record {
  put_downsample = true;
  put_idx = none;
  put_start_time = 0;
  ring_buffer = [];
  vis_ring_buffer = [];
  options = [];
  video_recorder = record {
    no_repeat = false;
    buffer_size = 8;
    start_time = none;
    next_global_idx = none;
    ready_event = true;
    stop_event = false;
    img_queue = [];
    cmd_queue = [];
    recording = none;
    videos = [];
  };
  ready = false;
  running = true;
}

-- A camera that put the step 7 before its puts were restarted.
abbrev restarted : Camera ℕ ℕ ℕ
restarted = record camera {
  ring_buffer = record { step_idx = pos 7; timestamp = 3; frame = 3 } ∷ [];
}

run-first-IsNumbered_example :
    IsNumbered
      (steps restarted)
      (pos 1)
      (run np (frame_at 15 [] ∷ frame_at 42 (set_color_option 3 (pos 1) ∷ []) ∷ []) restarted)
unfolding keeps_steps
run-first-IsNumbered_example =
    run-first-IsNumbered np (frame_at 15 []) (frame_at 42 (set_color_option 3 (pos 1) ∷ []) ∷ [])
      restarted refl refl refl (tt, ((refl, tt), tt))
