-- ===== src/Camera/Steps.antt =====
-- The step indices of the frames that are put at the put frequency.
use mathlib.Core.Bool.{true≢false}
use mathlib.Core.Path.{subst}
use polymetis_franka_teleop.Prelude.{ℕ, ◌≡◌, sym, ◌∙◌, Bool, true, none, List, [], ◌∷◌, ◌++◌}
use polymetis_franka_teleop.Prelude.Tests.{if_cases}
use polymetis_franka_teleop.Prelude.Lists.{All}
use polymetis_franka_teleop.Prelude.Int.{ℤ, pos, ◌+ℤ◌, int_laws}
use polymetis_franka_teleop.Accumulator.Idxs.{range_ℤ, get_accumulate_timestamp_idxs}
use polymetis_franka_teleop.Accumulator.Idxs.First.{Covers}
use polymetis_franka_teleop.Video.{is_ready, write_frame}
use polymetis_franka_teleop.Camera.{
  Command, Tick, Camera, and_next, put_frame, put_vis, record_frame, exec_command, exec_commands,
  Numerics, iterate, run,
}
use polymetis_franka_teleop.Camera.Numbered.{
  steps, KeepSteps, IsNumbered, IsSame-IsNumbered, and_next-IsNumbered, put_vis-IsSame,
  recorded-IsSame, exec_command-IsSame, next-Covers, first-Covers, no_steps, and_next-running,
  put_steps-IsNumbered,
}

module _ {S T I : Type 0} where
  exec_commands-IsNumbered :
      (old : List ℤ) (first : ℤ) (too_long : S → Bool) (commands : List (Command S T))
      (c : Camera S T I)
      → c.running ≡ true
      → KeepSteps commands
      → IsNumbered old first c
      → IsNumbered old first (exec_commands too_long commands c)
  unfolding exec_commands
  exec_commands-IsNumbered old first too_long [] c runs k h = h
  exec_commands-IsNumbered old first too_long (command ∷ commands) c runs (k, ks) h =
      let next = exec_command too_long command c in
      let same = exec_command-IsSame too_long command c runs k in
      and_next-IsNumbered old first (exec_commands too_long commands) next
        (λ r n. exec_commands-IsNumbered old first too_long commands next r ks n)
        (IsSame-IsNumbered old first c next same h)

  record_frame-IsNumbered :
      (old : List ℤ) (first : ℤ) (window_of : T → T → ℤ) (tick : Tick S T I) (c : Camera S T I)
      → c.running ≡ true
      → IsNumbered old first c
      → IsNumbered old first (record_frame window_of tick c)
  unfolding record_frame
  record_frame-IsNumbered old first window_of tick c runs h =
      if_cases (IsNumbered old first) (is_ready c.video_recorder)
        (λ e.
          IsSame-IsNumbered old first c _
            (recorded-IsSame
              (write_frame window_of tick.rec_data tick.calibrated_time c.video_recorder) c runs)
            h)
        (λ e. h)

  put_frame-Covers :
      (old : List ℤ) (first : ℤ) (window_of step_of : T → T → ℤ) (tick : Tick S T I)
      (c : Camera S T I) (count : ℕ)
      → Covers (window_of c.put_start_time) true 0 (tick.receive_time ∷ []) (first +ℤ pos count) (
          get_accumulate_timestamp_idxs
            (window_of c.put_start_time)
            true
            (tick.receive_time ∷ [])
            c.put_idx)
      → steps c ≡ old ++ range_ℤ first count
      → c.put_downsample ≡ true
      → IsNumbered old first (put_frame window_of step_of tick c)
  unfolding put_frame
  put_frame-Covers old first window_of step_of tick c count covers numbered down =
      let picked =
        get_accumulate_timestamp_idxs (window_of c.put_start_time) true (tick.receive_time ∷ [])
          c.put_idx in
      if_cases (IsNumbered old first) c.put_downsample
        (λ e.
          put_steps-IsNumbered tick old first picked.global_idxs
            (record c { put_idx = picked.next_global_idx }) count numbered covers.windows
            covers.next down)
        (λ e. absurd (true≢false (sym down ∙ e)))

  put_frame-IsNumbered :
      (old : List ℤ) (first : ℤ) (window_of step_of : T → T → ℤ) (tick : Tick S T I)
      (c : Camera S T I)
      → c.running ≡ true
      → IsNumbered old first c
      → IsNumbered old first (put_frame window_of step_of tick c)
  put_frame-IsNumbered old first window_of step_of tick c runs h =
      put_frame-Covers old first window_of step_of tick c h.count
        (next-Covers (window_of c.put_start_time) tick.receive_time c.put_idx _ (h.next runs))
        h.numbered h.at_put_fps

  module _ (np : Numerics S T) where
    -- An iteration after its puts.
    rest-IsNumbered :
        (old : List ℤ) (first : ℤ) (tick : Tick S T I) (c : Camera S T I)
        → KeepSteps tick.commands
        → IsNumbered old first c
        → IsNumbered old first (
            and_next
              (exec_commands np.too_long tick.commands)
              (and_next (record_frame np.video_window tick) (and_next (put_vis tick) c)))
    rest-IsNumbered old first tick c k h =
        let shown =
          and_next-IsNumbered old first (put_vis tick) c
            (λ r n. IsSame-IsNumbered old first c _ (put_vis-IsSame tick c r) n) h in
        let filmed =
          and_next-IsNumbered old first (record_frame np.video_window tick) _
            (λ r n. record_frame-IsNumbered old first np.video_window tick _ r n) shown in
        and_next-IsNumbered old first (exec_commands np.too_long tick.commands) _
          (λ r n. exec_commands-IsNumbered old first np.too_long tick.commands _ r k n) filmed

    iterate-IsNumbered :
        (old : List ℤ) (first : ℤ) (tick : Tick S T I) (c : Camera S T I)
        → c.running ≡ true
        → KeepSteps tick.commands
        → IsNumbered old first c
        → IsNumbered old first (iterate np tick c)
    unfolding iterate
    iterate-IsNumbered old first tick c runs k h =
        rest-IsNumbered old first tick _ k
          (put_frame-IsNumbered old first np.put_window np.step_of tick c runs h)

    -- The iterations' commands keep the steps.
    abbrev pub AllKeepSteps : List (Tick S T I) → Type 0
    AllKeepSteps ticks = All (λ t. KeepSteps t.commands) ticks

    run-IsNumbered :
        (old : List ℤ) (first : ℤ) (ticks : List (Tick S T I)) (c : Camera S T I)
        → AllKeepSteps ticks
        → IsNumbered old first c
        → IsNumbered old first (run np ticks c)
    unfolding run
    run-IsNumbered old first [] c k h = h
    run-IsNumbered old first (tick ∷ ticks) c (k, ks) h =
        let once =
          and_next-IsNumbered old first (iterate np tick) c
            (λ r n. iterate-IsNumbered old first tick c r k n) h in
        and_next-IsNumbered old first (run np ticks) _
          (λ r n. run-IsNumbered old first ticks _ ks n) once

    first_iterate-IsNumbered :
        (tick : Tick S T I) (c : Camera S T I)
        → c.put_downsample ≡ true
        → c.put_idx ≡ none
        → KeepSteps tick.commands
        → IsNumbered
            (steps c)
            (np.put_window c.put_start_time tick.receive_time)
            (iterate np tick c)
    unfolding iterate
    first_iterate-IsNumbered tick c down fresh k =
        let first = np.put_window c.put_start_time tick.receive_time in
        let zero_steps : first +ℤ pos 0 ≡ first = omega int_laws in
        let covers =
          first-Covers (np.put_window c.put_start_time) tick.receive_time c.put_idx (first +ℤ pos 0)
            fresh zero_steps in
        rest-IsNumbered (steps c) first tick _ k (
          put_frame-Covers (steps c) first np.put_window np.step_of tick c 0 covers
            (no_steps first c) down)

    -- When frames are put at the put frequency and no step is given yet, as at the start and after
    -- a recording was stopped or the puts restarted: in any run whose commands do neither, whatever
    -- was put before, the steps of the frames that are put behind it count up by one from the window
    -- of the run's first frame, without a gap and each once, whatever the ring buffer refuses; and
    -- while the loop runs, the next step is the one after them.
    pub run-first-IsNumbered :
        (tick : Tick S T I) (ticks : List (Tick S T I)) (c : Camera S T I)
        → c.running ≡ true
        → c.put_downsample ≡ true
        → c.put_idx ≡ none
        → AllKeepSteps (tick ∷ ticks)
        → IsNumbered
            (steps c)
            (np.put_window c.put_start_time tick.receive_time)
            (run np (tick ∷ ticks) c)
    unfolding run
    run-first-IsNumbered tick ticks c runs down fresh (k, ks) =
        let first = np.put_window c.put_start_time tick.receive_time in
        let once = first_iterate-IsNumbered tick c down fresh k in
        and_next-IsNumbered (steps c) first (run np ticks) _
          (λ r n. run-IsNumbered (steps c) first ticks _ ks n)
          (subst (IsNumbered (steps c) first) (sym (and_next-running (iterate np tick) c runs))
            once)
