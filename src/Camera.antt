-- ===== src/Camera.antt =====
-- polymetis_franka_teleop/real_world/single_realsense.py: the loop that captures frames, puts them
-- into two ring buffers and gives them to the video recorder. The camera's library and the
-- transforms of the images are what an iteration reads.
pub mod Numbered
pub mod Steps
mod Tests
use polymetis_franka_teleop.Prelude.{
  ℕ, ◌+◌, Bool, true, false, Option, none, some, List, [], ◌∷◌, ◌++◌, map,
}
use polymetis_franka_teleop.Prelude.Tests.{ltb, if◌then◌else◌}
use polymetis_franka_teleop.Prelude.Lists.{length, take}
use polymetis_franka_teleop.Prelude.Int.{ℤ}
use polymetis_franka_teleop.Prelude.Result.{Result, ok, err, runtime_error}
use polymetis_franka_teleop.Accumulator.Idxs.{Picked, get_accumulate_timestamp_idxs}
use polymetis_franka_teleop.Video.{
  Recorder, start_command, put_command, is_ready, start_recording, stop_recording, write_frame,
}

-- An entry of the command queue; an option is its number and its value.
pub data Command (S T : Type 0) : Type 0 where
  set_color_option set_depth_option : ℕ → ℤ → Command S T
  start_recording_command : S → Option T → Command S T
  stop_recording_command : Command S T
  restart_put_command : T → Command S T

pub record Sample (T I : Type 0) : Type 0 where
  pub step_idx : ℤ
  pub timestamp : T
  pub frame : I

-- What an iteration reads: the clock, that time less the latency, the frame for each use, how many
-- of its puts the ring buffer takes and whether the other one takes its put, and the commands.
pub record Tick (S T I : Type 0) : Type 0 where
  pub receive_time : T
  pub calibrated_time : T
  pub put_data : I
  pub vis_data : I
  pub rec_data : I
  pub ring_takes : ℕ
  pub vis_takes : Bool
  pub commands : List (Command S T)

-- The local variables of `run`, what was put into the ring buffers, newest last, the options that
-- were set, and the recorder.
pub record Camera (S T I : Type 0) : Type 0 where
  pub put_downsample : Bool
  pub put_idx : Option ℤ
  pub put_start_time : T
  pub ring_buffer : List (Sample T I)
  pub vis_ring_buffer : List I
  pub options : List (Bool × ℕ × ℤ)
  pub video_recorder : Recorder S T I
  pub ready : Bool
  pub running : Bool

module _ {S T I : Type 0} where
  -- An exception, after which the loop is left and the ready event set.
  unfoldable pub fail : Camera S T I → Camera S T I
  fail c = record c { running = false; ready = true }

  unfoldable pub and_next : (Camera S T I → Camera S T I) → Camera S T I → Camera S T I
  and_next next c = if c.running then next c else c

  unfoldable pub sample_of : Tick S T I → ℤ → Sample T I
  sample_of tick step = record {
    step_idx = step;
    timestamp = tick.calibrated_time;
    frame = tick.put_data;
  }

  -- The puts of one frame, one for each step, until the ring buffer refuses one.
  unfoldable pub put_steps : Tick S T I → List ℤ → Camera S T I → Camera S T I
  unfolding sample_of fail
  put_steps tick steps c =
      let put : Camera S T I = record c {
        ring_buffer = c.ring_buffer ++ take tick.ring_takes (map (sample_of tick) steps);
      } in
      if ltb tick.ring_takes (length steps) then fail put else put

  module _ (window_of : T → T → ℤ) (step_of : T → T → ℤ) where
    unfoldable pub put_frame : Tick S T I → Camera S T I → Camera S T I
    unfolding put_steps
    put_frame tick c =
        let picked =
          get_accumulate_timestamp_idxs (window_of c.put_start_time) true (tick.receive_time ∷ [])
            c.put_idx in
        if c.put_downsample
        then put_steps tick picked.global_idxs (record c { put_idx = picked.next_global_idx })
        else put_steps tick (step_of c.put_start_time tick.receive_time ∷ []) c

  unfoldable pub put_vis : Tick S T I → Camera S T I → Camera S T I
  unfolding fail
  put_vis tick c =
      if tick.vis_takes
      then record c { ready = true; vis_ring_buffer = c.vis_ring_buffer ++ tick.vis_data ∷ [] }
      else fail (record c { ready = true })

  -- What a call of the recorder leaves.
  unfoldable pub recorded : Result (Unit {0}) × Recorder S T I → Camera S T I → Camera S T I
  unfolding fail
  recorded (ok u, r) c = record c { video_recorder = r }
  recorded (err e, r) c = fail (record c { video_recorder = r })

  -- start_recording of the recorder, with a time or none
  unfoldable pub start_video :
      (S → Bool) → S → Option T → Recorder S T I → Result (Unit {0}) × Recorder S T I
  unfolding start_recording put_command
  start_video too_long path (some time) r = start_recording too_long path time r
  start_video too_long path none r =
      if too_long path
      then (err runtime_error, r)
      else put_command (start_command path) (record r { start_time = none })

  module _ (video_window_of : T → T → ℤ) where
    unfoldable pub record_frame : Tick S T I → Camera S T I → Camera S T I
    unfolding is_ready write_frame recorded
    record_frame tick c =
        if is_ready c.video_recorder
        then recorded
            (write_frame video_window_of tick.rec_data tick.calibrated_time c.video_recorder) c
        else c

  unfoldable pub exec_command : (S → Bool) → Command S T → Camera S T I → Camera S T I
  unfolding recorded start_video stop_recording and_next
  exec_command too_long (set_color_option option value) c = record c {
    options = c.options ++ (true, option, value) ∷ [];
  }
  exec_command too_long (set_depth_option option value) c = record c {
    options = c.options ++ (false, option, value) ∷ [];
  }
  exec_command too_long (start_recording_command path time) c =
      recorded (start_video too_long path time c.video_recorder) c
  exec_command too_long stop_recording_command c =
      and_next (λ d. record d { put_idx = none }) (recorded (stop_recording c.video_recorder) c)
  exec_command too_long (restart_put_command time) c = record c {
    put_idx = none;
    put_start_time = time;
  }

  unfoldable pub exec_commands : (S → Bool) → List (Command S T) → Camera S T I → Camera S T I
  unfolding exec_command and_next
  exec_commands too_long [] c = c
  exec_commands too_long (command ∷ commands) c =
      and_next (exec_commands too_long commands) (exec_command too_long command c)

-- The windows of the put frequency and of the video's, and the step of a frame that is not put at
-- the put frequency.
pub record Numerics (S T : Type 0) : Type 0 where
  pub put_window : T → T → ℤ
  pub video_window : T → T → ℤ
  pub step_of : T → T → ℤ
  pub too_long : S → Bool

module _ {S T I : Type 0} (np : Numerics S T) where
  -- One iteration of the loop.
  unfoldable pub iterate : Tick S T I → Camera S T I → Camera S T I
  unfolding put_frame put_vis record_frame exec_commands and_next
  iterate tick c = and_next (exec_commands np.too_long tick.commands) (
      and_next (record_frame np.video_window tick)
        (and_next (put_vis tick) (put_frame np.put_window np.step_of tick c)))

  unfoldable pub run : List (Tick S T I) → Camera S T I → Camera S T I
  unfolding iterate and_next
  run [] c = c
  run (tick ∷ ticks) c = and_next (run ticks) (and_next (iterate tick) c)
