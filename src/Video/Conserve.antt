-- ===== src/Video/Conserve.antt =====
-- The frames in the videos and in the queue, whatever the two processes do in which order.
use mathlib.Core.List.{append_assoc, append-nil}
use polymetis_franka_teleop.Prelude.{
  ℕ, ◌≡◌, refl, sym, ap, ◌∙◌, Bool, true, inl, inr, Option, none, some, List, [], ◌∷◌, ◌++◌, arith,
}
use polymetis_franka_teleop.Prelude.Tests.{leb, Bool-cases}
use polymetis_franka_teleop.Prelude.Lists.{length, replicate}
use polymetis_franka_teleop.Prelude.Int.{ℤ}
use polymetis_franka_teleop.Prelude.Result.{Result, ok, err}
use polymetis_franka_teleop.Video.{
  VideoCommand, start_command, stop_command, Video, Recorder, put_bounded, expand, read_commands,
  encode, reset_state, is_ready, put_command, start_recording, stop_recording, repeats, write_frame,
  open_video, wait_start, close_video, encode_next, obey, run_pass, run_step,
}

-- The frames of the closed videos, of the open one and of the queue, oldest first.
unfoldable pub video_frames : {S I : Type 0} → List (Video S I) → List I
video_frames [] = []
video_frames (video ∷ videos) = video.frames ++ video_frames videos

unfoldable pub open_frames : {S I : Type 0} → Option (Video S I) → List I
open_frames none = []
open_frames (some video) = video.frames

unfoldable pub all_frames : {S T I : Type 0} → Recorder S T I → List I
unfolding video_frames open_frames expand
all_frames r = video_frames r.videos ++ (open_frames r.recording ++ expand r.img_queue)

-- What happens: a call of a method by the process that records, the two events that are set, and a
-- pass of the recorder's loops.
pub data Event (S T I : Type 0) : Type 0 where
  call_start : (video_path : S) (start_time : T) → Event S T I
  call_stop : Event S T I
  call_write : (img : I) (frame_time : T) → Event S T I
  set_ready : Event S T I
  set_stop : Event S T I
  pass : Event S T I

-- What a call that may raise adds.
unfoldable pub kept : {I : Type 0} → Result (Unit {0}) → List I → List I
kept (ok _) frames = frames
kept (err e) frames = []

module _ {S T I : Type 0} (window_of : T → T → ℤ) (too_long : S → Bool) where
  unfoldable pub apply : Event S T I → Recorder S T I → Recorder S T I
  unfolding start_recording stop_recording write_frame run_step
  apply (call_start video_path start_time) r = (start_recording too_long video_path start_time r).1
  apply call_stop r = (stop_recording r).1
  apply (call_write img frame_time) r = (write_frame window_of img frame_time r).1
  apply set_ready r = record r { ready_event = true }
  apply set_stop r = record r { stop_event = true }
  apply pass r = run_step r

  -- The frames of a call that the recorder accepts.
  unfoldable pub accepted : Event S T I → Recorder S T I → List I
  unfolding write_frame repeats kept
  accepted (call_write img frame_time) r =
      kept (write_frame window_of img frame_time r).0
        (replicate (repeats window_of frame_time r).0 img)
  accepted _ r = []

  unfoldable pub apply_all : List (Event S T I) → Recorder S T I → Recorder S T I
  unfolding apply
  apply_all [] r = r
  apply_all (event ∷ events) r = apply_all events (apply event r)

  unfoldable pub all_accepted : List (Event S T I) → Recorder S T I → List I
  unfolding apply accepted
  all_accepted [] r = []
  all_accepted (event ∷ events) r = accepted event r ++ all_accepted events (apply event r)

video_frames-append :
    {S I : Type 0} (videos : List (Video S I)) (video : Video S I)
    → video_frames (videos ++ video ∷ []) ≡ video_frames videos ++ video.frames
unfolding video_frames
video_frames-append [] video = append-nil video.frames
video_frames-append (v ∷ videos) video =
    ap (λ l. v.frames ++ l) (video_frames-append videos video)
    ∙ sym (append_assoc v.frames (video_frames videos) video.frames)

expand-append :
    {I : Type 0} (entries : List (I × ℕ)) (entry : I × ℕ)
    → expand (entries ++ entry ∷ []) ≡ expand entries ++ replicate entry.1 entry.0
unfolding expand
expand-append [] entry = append-nil (replicate entry.1 entry.0)
expand-append (e ∷ entries) entry =
    ap (λ l. replicate e.1 e.0 ++ l) (expand-append entries entry)
    ∙ sym (append_assoc (replicate e.1 e.0) (expand entries) (replicate entry.1 entry.0))

module _ {S T I : Type 0} where
  all_frames-commands :
      (commands : List (VideoCommand S)) (r : Recorder S T I)
      → all_frames (record r { cmd_queue = commands }) ≡ all_frames r
  unfolding all_frames
  all_frames-commands commands r = refl

  all_frames-next :
      (next : Option ℤ) (r : Recorder S T I)
      → all_frames (record r { next_global_idx = next }) ≡ all_frames r
  unfolding all_frames
  all_frames-next next r = refl

  close_video-frames :
      (video : Video S I) (r : Recorder S T I)
      → r.recording ≡ some video
      → all_frames (close_video video r) ≡ all_frames r
  unfolding all_frames close_video encode open_frames expand
  close_video-frames video r h =
      let added = video_frames-append r.videos (encode r.img_queue video) in
      let nil = append-nil (video_frames (r.videos ++ encode r.img_queue video ∷ [])) in
      nil ∙ added ∙ ap (λ o. video_frames r.videos ++ (open_frames o ++ expand r.img_queue)) (sym h)

  encode_one :
      (video : Video S I) (r : Recorder S T I) (entry : I × ℕ) (entries : List (I × ℕ))
      → r.img_queue ≡ entry ∷ entries
      → r.recording ≡ some video
      → all_frames (record r { img_queue = entries; recording = some (encode (entry ∷ []) video) })
        ≡ all_frames r
  unfolding all_frames encode open_frames expand
  encode_one video r entry entries q h =
      let frame = replicate entry.1 entry.0 in
      let nil = append-nil frame in
      let assoc = append_assoc video.frames frame (expand entries) in
      let before = ap (λ l. video_frames r.videos ++ (video.frames ++ l ++ expand entries)) nil in
      let after = ap (λ l. video_frames r.videos ++ l) assoc in
      let back =
        ap (λ o. video_frames r.videos ++ (open_frames o ++ expand r.img_queue)) h
        ∙ ap (λ l. video_frames r.videos ++ (video.frames ++ expand l)) q in
      before ∙ after ∙ sym back

  encode_next-frames :
      (entries : List (I × ℕ)) (video : Video S I) (r : Recorder S T I)
      → r.img_queue ≡ entries
      → r.recording ≡ some video
      → all_frames (encode_next entries video r) ≡ all_frames r
  unfolding encode_next
  encode_next-frames [] video r q h = refl
  encode_next-frames (entry ∷ entries) video r q h = encode_one video r entry entries q h

  obey-frames :
      (commands : List (VideoCommand S)) (video : Video S I) (r : Recorder S T I)
      → r.recording ≡ some video
      → all_frames (obey commands video r) ≡ all_frames r
  unfolding obey
  obey-frames [] video r h = encode_next-frames r.img_queue video r refl h
  obey-frames (start_command path ∷ commands) video r h = all_frames-commands commands r
  obey-frames (stop_command ∷ commands) video r h =
      close_video-frames video (record r { cmd_queue = commands }) h
      ∙ all_frames-commands commands r

  open_video-frames :
      (path : Option S) (r : Recorder S T I)
      → r.recording ≡ none
      → all_frames (open_video path r) ≡ all_frames r
  unfolding all_frames open_video open_frames
  open_video-frames none r h = refl
  open_video-frames (some path) r h =
      ap (λ o. video_frames r.videos ++ (open_frames o ++ expand r.img_queue)) (sym h)

  pub run_pass-frames :
      (recording : Option (Video S I)) (r : Recorder S T I)
      → r.recording ≡ recording
      → all_frames (run_pass recording r) ≡ all_frames r
  unfolding run_pass wait_start
  run_pass-frames none r h =
      let opened = open_video-frames (read_commands r.cmd_queue none) r h in ground (arith, opened)
  run_pass-frames (some video) r h =
      let closed = close_video-frames video r h in
      let obeyed = obey-frames r.cmd_queue video r h in ground (arith, closed, obeyed)

  put_command-frames :
      (command : VideoCommand S) (r : Recorder S T I)
      → all_frames (put_command command r).1 ≡ all_frames r
  unfolding put_command put_bounded all_frames
  put_command-frames command r = ground arith

  stop_recording-frames : (r : Recorder S T I) → all_frames (stop_recording r).1 ≡ all_frames r
  unfolding stop_recording put_command put_bounded reset_state all_frames
  stop_recording-frames r = ground arith

  append_frames :
      (r : Recorder S T I) (entry : I × ℕ) (next : Option ℤ)
      → all_frames (record r { next_global_idx = next; img_queue = r.img_queue ++ entry ∷ [] })
        ≡ all_frames r ++ replicate entry.1 entry.0
  unfolding all_frames
  append_frames r entry next =
      let done = video_frames r.videos in
      let added = replicate entry.1 entry.0 in
      ap (λ l. done ++ (open_frames r.recording ++ l)) (expand-append r.img_queue entry)
      ∙ ap (λ l. done ++ l)
          (sym (append_assoc (open_frames r.recording) (expand r.img_queue) added))
      ∙ sym (append_assoc done (open_frames r.recording ++ expand r.img_queue) added)

  module _ (window_of : T → T → ℤ) (too_long : S → Bool) where
    start_recording-frames :
        (path : S) (t : T) (r : Recorder S T I)
        → all_frames (start_recording too_long path t r).1 ≡ all_frames r
    unfolding start_recording put_command put_bounded all_frames
    start_recording-frames path t r = ground arith

    write_frame-frames :
        (img : I) (t : T) (r : Recorder S T I)
        → all_frames (write_frame window_of img t r).1
          ≡ all_frames r
            ++ kept (write_frame window_of img t r).0 (replicate (repeats window_of t r).0 img)
    unfolding write_frame put_bounded kept
    write_frame-frames img t r =
        let counted = repeats window_of t r in
        let added = append_frames r (img, counted.0) counted.1 in
        let nil = sym (append-nil (all_frames r)) in
        let moved = all_frames-next counted.1 r in
        elim (Bool-cases (is_ready r)) [
          | inl ready ↦ elim (Bool-cases (leb r.buffer_size (length r.img_queue))) [
            | inl held ↦ rw (ready, held) (moved ∙ nil)
            | inr room ↦ rw (ready, room) added
          ]
          | inr idle ↦ rw idle nil
        ]

    apply-frames :
        (event : Event S T I) (r : Recorder S T I)
        → all_frames (apply window_of too_long event r)
          ≡ all_frames r ++ accepted window_of too_long event r
    unfolding apply accepted run_step all_frames
    apply-frames (call_start path t) r =
        start_recording-frames path t r ∙ sym (append-nil (all_frames r))
    apply-frames call_stop r = stop_recording-frames r ∙ sym (append-nil (all_frames r))
    apply-frames (call_write img t) r = write_frame-frames img t r
    apply-frames set_ready r = sym (append-nil (all_frames r))
    apply-frames set_stop r = sym (append-nil (all_frames r))
    apply-frames pass r = run_pass-frames r.recording r refl ∙ sym (append-nil (all_frames r))

    -- The frames of all videos and of the queue after any events.
    pub apply_all-frames :
        (events : List (Event S T I)) (r : Recorder S T I)
        → all_frames (apply_all window_of too_long events r)
          ≡ all_frames r ++ all_accepted window_of too_long events r
    unfolding apply_all all_accepted
    apply_all-frames [] r = sym (append-nil (all_frames r))
    apply_all-frames (event ∷ events) r =
        let next = apply window_of too_long event r in
        let here = accepted window_of too_long event r in
        let later = all_accepted window_of too_long events next in
        apply_all-frames events next
        ∙ ap (λ l. l ++ later) (apply-frames event r)
        ∙ append_assoc (all_frames r) here later
