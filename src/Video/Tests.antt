-- ===== src/Video/Tests.antt =====
-- A recorder of two images, and the theorems at it.
use polymetis_franka_teleop.Prelude.{
  ℕ, ◌+◌, ◌≤◌, ◌≡◌, refl, max, Bool, true, false, none, some, List, [], ◌∷◌, ◌++◌,
}
use polymetis_franka_teleop.Prelude.Int.{ℤ, pos, ◌+ℤ◌, ◌-ℤ◌}
use polymetis_franka_teleop.Accumulator.Idxs.{
  range_ℤ, n_repeats, append_repeats, or_first, is_skipped, accumulate_from,
  get_accumulate_timestamp_idxs,
}
use polymetis_franka_teleop.Video.{
  Recorder, put_bounded, expand, read_commands, encode, reset_state, is_ready, put_command,
  start_recording, stop_recording, repeats, write_frame, open_video, wait_start, close_video,
  encode_next, obey, run_pass, run_step,
}
use polymetis_franka_teleop.Video.Conserve.{
  Event, call_start, call_stop, call_write, set_ready, pass, all_frames, apply, apply_all,
  all_accepted,
}
use polymetis_franka_teleop.Prelude.Lists.{length}
use polymetis_franka_teleop.Video.Encoded.{passes, encoded, apply_all-encoded}
use polymetis_franka_teleop.Video.Sync.{written, write_frame-sync}

-- Times are windows, paths and images are numbers.
abbrev window_of : ℕ → ℕ → ℤ
window_of start t = pos t -ℤ pos start

abbrev short : ℕ → Bool
short path = false

abbrev fresh : Recorder ℕ ℕ ℕ
fresh = record {
  no_repeat = false;
  buffer_size = 2;
  start_time = none;
  next_global_idx = some (pos 0);
  ready_event = false;
  stop_event = false;
  img_queue = [];
  cmd_queue = [];
  recording = none;
  videos = [];
}

abbrev events : List (Event ℕ ℕ ℕ)
events =
    set_ready
    ∷ call_start 7 0
    ∷ call_write 50 0
    ∷ pass
    ∷ pass
    ∷ call_write 60 2
    ∷ call_stop
    ∷ pass
    ∷ []

-- The frame of the window 2 fills the window 1, and is flushed when the recorder stops.
recorded :
    (apply_all window_of short events fresh).videos
    ≡ record { video_path = 7; frames = 50 ∷ 60 ∷ 60 ∷ [] } ∷ []
unfolding apply_all apply start_recording stop_recording put_command put_bounded reset_state
    write_frame is_ready repeats get_accumulate_timestamp_idxs accumulate_from is_skipped or_first
    n_repeats append_repeats range_ℤ ◌+ℤ◌ ◌-ℤ◌ run_step run_pass wait_start open_video read_commands
    obey encode_next encode expand close_video
recorded = refl

abbrev so_far : List (Event ℕ ℕ ℕ)
so_far = set_ready ∷ call_start 7 0 ∷ call_write 50 0 ∷ pass ∷ call_write 60 2 ∷ call_stop ∷ []

so_far_open :
    (apply_all window_of short so_far fresh).recording
    ≡ some (record { video_path = 7; frames = [] })
unfolding apply_all apply start_recording stop_recording put_command put_bounded reset_state
    write_frame is_ready repeats get_accumulate_timestamp_idxs accumulate_from is_skipped or_first
    n_repeats append_repeats range_ℤ ◌+ℤ◌ ◌-ℤ◌ run_step run_pass wait_start open_video read_commands
so_far_open = refl

apply_all-encoded_example :
    let d = apply_all window_of short so_far fresh in
    (k : ℕ) × (k ≤ length d.cmd_queue + length d.img_queue)
    × ((passes k d).img_queue ≡ [])
    × (encoded (passes k d) ≡ all_frames fresh ++ all_accepted window_of short so_far fresh)
apply_all-encoded_example =
    apply_all-encoded window_of short so_far fresh (record { video_path = 7; frames = [] })
      so_far_open

abbrev ready : Recorder ℕ ℕ ℕ
ready = record fresh { ready_event = true; start_time = some 0; next_global_idx = some (pos 1) }

ready_is_ready : is_ready ready ≡ true
unfolding is_ready
ready_is_ready = refl

third_window : window_of 0 2 ≡ pos 2
unfolding ◌-ℤ◌
third_window = refl

write_frame-sync_example :
    (k : ℕ) × (k + 1 ≡ max 1 (2 + 1))
    × (write_frame window_of 60 2 ready ≡ written 60 k (some (pos (max 1 (2 + 1)))) ready)
write_frame-sync_example =
    write_frame-sync window_of 60 2 0 1 2 ready ready_is_ready refl refl refl third_window
