-- ===== src/Video/Encoded.antt =====
-- The recorder works its queues off: no accepted frame stays in the queue while a video is open.
use mathlib.Core.List.{append-nil}
use polymetis_franka_teleop.Prelude.{
  ℕ, zero, suc, ◌+◌, ◌≤◌, ◌≡◌, refl, sym, ap, ◌∙◌, Bool, true, false, inl, inr, some, List, [], ◌∷◌,
  ◌++◌, arith,
}
use polymetis_franka_teleop.Prelude.Tests.{Bool-cases}
use polymetis_franka_teleop.Prelude.Lists.{length}
use polymetis_franka_teleop.Prelude.Int.{ℤ}
use polymetis_franka_teleop.Video.{
  VideoCommand, start_command, stop_command, Video, Recorder, expand, encode, close_video,
  encode_next, obey, run_pass, run_step,
}
use polymetis_franka_teleop.Video.Conserve.{
  video_frames, open_frames, all_frames, Event, apply_all, all_accepted, run_pass-frames,
  apply_all-frames,
}

module _ {S T I : Type 0} where
  unfoldable pub passes : ℕ → Recorder S T I → Recorder S T I
  unfolding run_step
  passes zero r = r
  passes (suc k) r = passes k (run_step r)

  -- The frames of the closed videos and of the open one.
  unfoldable pub encoded : Recorder S T I → List I
  unfolding video_frames open_frames
  encoded r = video_frames r.videos ++ open_frames r.recording

  passes-frames : (k : ℕ) (r : Recorder S T I) → all_frames (passes k r) ≡ all_frames r
  unfolding passes run_step
  passes-frames zero r = refl
  passes-frames (suc k) r = passes-frames k (run_step r) ∙ run_pass-frames r.recording r refl

  encoded-frames : (r : Recorder S T I) → r.img_queue ≡ [] → encoded r ≡ all_frames r
  unfolding encoded all_frames expand
  encoded-frames r empty =
      ap (λ l. video_frames r.videos ++ l) (sym (append-nil (open_frames r.recording)))
      ∙ ap (λ q. video_frames r.videos ++ (open_frames r.recording ++ expand q)) (sym empty)

  -- A recorder that is told to stop flushes the queue in one pass.
  stop_event-drains :
      (video : Video S I) (r : Recorder S T I)
      → r.recording ≡ some video
      → r.stop_event ≡ true
      → (run_step r).img_queue ≡ []
  unfolding run_step run_pass close_video
  stop_event-drains video r opened stopped = rw (opened, stopped) refl

  run_step-obeys :
      (video : Video S I) (r : Recorder S T I)
      → r.recording ≡ some video
      → r.stop_event ≡ false
      → run_step r ≡ obey r.cmd_queue video r
  unfolding run_step run_pass
  run_step-obeys video r opened on = rw (opened, on) refl

  -- The queue is empty after at most `n` passes.
  abbrev Drains : ℕ → Recorder S T I → Type 0
  Drains n r = (k : ℕ) × (k ≤ n) × ((passes k r).img_queue ≡ [])

  Drains-now : (n : ℕ) (r : Recorder S T I) → r.img_queue ≡ [] → Drains n r
  unfolding passes
  Drains-now n r empty = (0, omega arith, empty)

  Drains-next : (n m : ℕ) (r : Recorder S T I) → Drains n (run_step r) → n + 1 ≤ m → Drains m r
  unfolding passes
  Drains-next n m r (k, few, empty) next = (suc k, omega arith, empty)

  Drains-stopped :
      (n : ℕ) (video : Video S I) (r : Recorder S T I)
      → r.recording ≡ some video
      → r.stop_event ≡ true
      → Drains (suc n) r
  Drains-stopped n video r opened stopped =
      Drains-next n (suc n) r (Drains-now n (run_step r) (stop_event-drains video r opened stopped))
        (omega arith)

  -- With no command in the queue each pass encodes the oldest frame.
  encode_each :
      (entries : List (I × ℕ)) (video : Video S I) (r : Recorder S T I)
      → r.recording ≡ some video
      → r.stop_event ≡ false
      → r.cmd_queue ≡ []
      → r.img_queue ≡ entries
      → Drains (length entries) r
  unfolding obey encode_next
  encode_each [] video r opened on idle q = Drains-now 0 r q
  encode_each (entry ∷ entries) video r opened on idle q =
      let next : Recorder S T I = record r {
        img_queue = entries;
        recording = some (encode (entry ∷ []) video);
      } in
      let step : run_step r ≡ next = run_step-obeys video r opened on ∙ rw (idle, q) refl in
      Drains-next (length entries) _ r
        (rw step (encode_each entries (encode (entry ∷ []) video) next refl on idle refl))
        (omega arith)

  obey_each :
      (commands : List (VideoCommand S)) (entry : I × ℕ) (entries : List (I × ℕ))
      (video : Video S I) (r : Recorder S T I)
      → r.recording ≡ some video
      → r.stop_event ≡ false
      → r.cmd_queue ≡ commands
      → r.img_queue ≡ entry ∷ entries
      → Drains (length commands + length (entry ∷ entries)) r
  unfolding obey close_video
  obey_each [] entry entries video r opened on q images =
      let (k, few, empty) = encode_each (entry ∷ entries) video r opened on q images in
      (k, omega (arith, few), empty)
  obey_each (start_command path ∷ commands) entry entries video r opened on q images =
      let next : Recorder S T I = record r { cmd_queue = commands } in
      let step : run_step r ≡ next = run_step-obeys video r opened on ∙ rw q refl in
      Drains-next (length commands + length (entry ∷ entries)) _ r
        (rw step (obey_each commands entry entries video next opened on refl images)) (omega arith)
  obey_each (stop_command ∷ commands) entry entries video r opened on q images =
      let step = run_step-obeys video r opened on ∙ ap (λ c. obey c video r) q in
      Drains-next (length commands + length (entry ∷ entries)) _ r
        (Drains-now _ (run_step r) (ap (λ (d : Recorder S T I). d.img_queue) step)) (omega arith)

  drains :
      (entries : List (I × ℕ)) (video : Video S I) (r : Recorder S T I)
      → r.recording ≡ some video
      → r.img_queue ≡ entries
      → Drains (length r.cmd_queue + length entries) r
  drains [] video r opened q = Drains-now _ r q
  drains (entry ∷ entries) video r opened q = elim (Bool-cases r.stop_event) [
    | inl stopped ↦
        let (k, few, empty) = Drains-stopped 0 video r opened stopped in (k, omega arith, empty)
    | inr on ↦ obey_each r.cmd_queue entry entries video r opened on refl q
  ]

module _ {S T I : Type 0} (window_of : T → T → ℤ) (too_long : S → Bool) where
  -- Whatever the recording process calls and the recorder does, in any order, if it leaves a video
  -- open: then some number of further passes, no more than there are commands and frames in the
  -- queues, empties the queue of the frames, whether the recorder is told to stop or not, and the
  -- frames of all videos are those of before, the queued ones included, and behind them those of the
  -- accepted calls of `write_frame` in the order of the calls, each as often as it is to be
  -- repeated. None is lost, repeated further or out of order.
  pub apply_all-encoded :
      (events : List (Event S T I)) (r : Recorder S T I) (video : Video S I)
      → (apply_all window_of too_long events r).recording ≡ some video
      → let d = apply_all window_of too_long events r in
        (k : ℕ) × (k ≤ length d.cmd_queue + length d.img_queue)
        × ((passes k d).img_queue ≡ [])
        × (encoded (passes k d) ≡ all_frames r ++ all_accepted window_of too_long events r)
  apply_all-encoded events r video opened =
      let d = apply_all window_of too_long events r in
      let (k, few, empty) = drains d.img_queue video d opened refl in
      (
        k,
        few,
        empty,
        encoded-frames (passes k d) empty
            ∙ passes-frames k d
            ∙ apply_all-frames window_of too_long events r,
      )
