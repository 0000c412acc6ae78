-- ===== src/Video.antt =====
-- polymetis_franka_teleop/real_world/video_recorder.py: a process that encodes frames into video
-- files, and the methods by which another process gives it frames and commands. The two queues
-- are lists of at most `buffer_size` entries, as SharedMemory/Queue/Refine shows them to be.
-- An encoded video is the list of its frames.
pub mod Conserve
pub mod Encoded
pub mod Sync
mod Tests
use polymetis_franka_teleop.Prelude.{
  ℕ, Bool, true, false, not, ◌&&◌, Option, none, some, List, [], ◌∷◌, ◌++◌,
}
use polymetis_franka_teleop.Prelude.Tests.{leb, if◌then◌else◌}
use polymetis_franka_teleop.Prelude.Lists.{length, replicate}
use polymetis_franka_teleop.Prelude.Int.{ℤ, pos}
use polymetis_franka_teleop.Prelude.Result.{Result, ok, err, full, runtime_error}
use polymetis_franka_teleop.Accumulator.Idxs.{Picked, get_accumulate_timestamp_idxs}

-- An entry of `cmd_queue`, by the method that puts it; STOP_RECORDING has no path.
pub data VideoCommand (S : Type 0) : Type 0 where
  start_command : (video_path : S) → VideoCommand S
  stop_command : VideoCommand S

-- A file that is closed.
pub record Video (S I : Type 0) : Type 0 where
  pub video_path : S
  pub frames : List I

-- Images `I`, times `T`, paths `S`. `recording` is the open container with what was encoded so far,
-- or none in the stopped state, and `videos` are the closed ones, oldest first.
pub record Recorder (S T I : Type 0) : Type 0 where
  pub no_repeat : Bool
  pub buffer_size : ℕ
  pub start_time : Option T
  pub next_global_idx : Option ℤ
  pub ready_event : Bool
  pub stop_event : Bool
  pub img_queue : List (I × ℕ)
  pub cmd_queue : List (VideoCommand S)
  pub recording : Option (Video S I)
  pub videos : List (Video S I)

-- SharedMemoryQueue.put
unfoldable pub put_bounded : {A : Type 0} → ℕ → A → List A → Result (List A)
put_bounded buffer_size item items =
    if leb buffer_size (length items) then err full else ok (items ++ item ∷ [])

-- [frame] * repeat for each entry of `img_queue`
unfoldable pub expand : {I : Type 0} → List (I × ℕ) → List I
expand [] = []
expand (entry ∷ entries) = replicate entry.1 entry.0 ++ expand entries

-- The commands of a stopped recorder: the path that the last of them leaves.
unfoldable pub read_commands : {S : Type 0} → List (VideoCommand S) → Option S → Option S
read_commands [] video_path = video_path
read_commands (start_command path ∷ commands) video_path = read_commands commands (some path)
read_commands (stop_command ∷ commands) video_path = read_commands commands none

unfoldable pub encode : {S I : Type 0} → List (I × ℕ) → Video S I → Video S I
unfolding expand
encode entries video = record video { frames = video.frames ++ expand entries }

module _ {S T I : Type 0} where
  unfoldable pub reset_state : Recorder S T I → Recorder S T I
  reset_state r = record r { start_time = none; next_global_idx = some (pos 0) }

  unfoldable pub is_ready : Recorder S T I → Bool
  is_ready r =
      elim r.start_time [ none ↦ false | some t ↦ true ] && r.ready_event && not r.stop_event

  -- What a method that puts a command leaves.
  unfoldable pub put_command : VideoCommand S → Recorder S T I → Result (Unit {0}) × Recorder S T I
  unfolding put_bounded
  put_command command r = elim (put_bounded r.buffer_size command r.cmd_queue) [
    | err e ↦ (err e, r)
    | ok commands ↦ (ok tt, record r { cmd_queue = commands })
  ]

  -- `too_long` is that the path has more than MAX_PATH_LENGTH bytes.
  unfoldable pub start_recording :
      (S → Bool) → S → T → Recorder S T I → Result (Unit {0}) × Recorder S T I
  unfolding put_command
  start_recording too_long video_path start_time r =
      if too_long video_path
      then (err runtime_error, r)
      else put_command (start_command video_path) (record r { start_time = some start_time })

  -- The state is reset only if the queue takes the command.
  unfoldable pub stop_recording : Recorder S T I → Result (Unit {0}) × Recorder S T I
  unfolding put_command reset_state
  stop_recording r =
      let done = put_command stop_command r in
      elim done.0 [ err e ↦ (err e, done.1) | ok _ ↦ (ok tt, reset_state done.1) ]

  module _ (window_of : T → T → ℤ) where
    -- The repeats of a frame and the next index; `window_of start_time t` is the window of `t`.
    unfoldable pub repeats : T → Recorder S T I → ℕ × Option ℤ
    repeats frame_time r = elim r.start_time [
      | none ↦ (1, r.next_global_idx)
      | some t ↦
          let picked : Picked =
            get_accumulate_timestamp_idxs (window_of t) false (frame_time ∷ []) r.next_global_idx in
          if r.no_repeat
          then (1, r.next_global_idx)
          else (length picked.local_idxs, picked.next_global_idx)
    ]

    unfoldable pub write_frame : I → T → Recorder S T I → Result (Unit {0}) × Recorder S T I
    unfolding is_ready repeats put_bounded
    write_frame img frame_time r =
        let counted = repeats frame_time r in
        let moved : Recorder S T I = record r { next_global_idx = counted.1 } in
        if is_ready r
        then elim (put_bounded r.buffer_size (img, counted.0) r.img_queue) [
          | err e ↦ (err e, moved)
          | ok entries ↦ (ok tt, record moved { img_queue = entries })
        ]
        else (err runtime_error, r)

  -- The end of a pass in the stopped state, with the path that the commands leave.
  unfoldable pub open_video : Option S → Recorder S T I → Recorder S T I
  open_video none r = record r { cmd_queue = [] }
  open_video (some path) r = record r {
    cmd_queue = [];
    recording = some (record { video_path = path; frames = [] });
  }

  -- One pass of the loop in the stopped state.
  unfoldable pub wait_start : Recorder S T I → Recorder S T I
  unfolding read_commands open_video
  wait_start r = open_video (read_commands r.cmd_queue none) r

  -- The flush of the queue and of the stream, and the end of `with av.open`.
  unfoldable pub close_video : Video S I → Recorder S T I → Recorder S T I
  unfolding encode
  close_video video r = record r {
    img_queue = [];
    recording = none;
    videos = r.videos ++ encode r.img_queue video ∷ [];
  }

  -- One frame, if the queue has one.
  unfoldable pub encode_next : List (I × ℕ) → Video S I → Recorder S T I → Recorder S T I
  unfolding encode
  encode_next [] video r = r
  encode_next (entry ∷ entries) video r = record r {
    img_queue = entries;
    recording = some (encode (entry ∷ []) video);
  }

  -- The oldest command, or a frame if there is none.
  unfoldable pub obey : List (VideoCommand S) → Video S I → Recorder S T I → Recorder S T I
  unfolding close_video encode_next
  obey [] video r = encode_next r.img_queue video r
  obey (start_command path ∷ commands) video r = record r { cmd_queue = commands }
  obey (stop_command ∷ commands) video r = close_video video (record r { cmd_queue = commands })

  -- One pass of whichever loop of `run` the process is in. A stopped recorder that is told to stop
  -- does nothing more.
  unfoldable pub run_pass : Option (Video S I) → Recorder S T I → Recorder S T I
  unfolding wait_start obey close_video
  run_pass none r = if r.stop_event then r else wait_start r
  run_pass (some video) r = if r.stop_event then close_video video r else obey r.cmd_queue video r

  unfoldable pub run_step : Recorder S T I → Recorder S T I
  unfolding run_pass
  run_step r = run_pass r.recording r
