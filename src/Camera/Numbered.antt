-- ===== src/Camera/Numbered.antt =====
-- What the parts of an iteration do to the step indices.
use mathlib.Core.Bool.{true≢false}
use mathlib.Core.List.{append_assoc, append-nil}
use polymetis_franka_teleop.Prelude.{
  ℕ, zero, suc, ◌+◌, min, ◌≡◌, refl, sym, ap, ◌∙◌, Bool, true, false, Option, none, some, List, [],
  ◌∷◌, ◌++◌, map, arith,
}
use polymetis_franka_teleop.Prelude.Tests.{ltb, if_cases}
use polymetis_franka_teleop.Prelude.Lists.{length, take, All}
use polymetis_franka_teleop.Prelude.Int.{ℤ, pos, ◌+ℤ◌, int_laws}
use polymetis_franka_teleop.Prelude.Result.{Result, ok, err}
use polymetis_franka_teleop.Accumulator.Idxs.{range_ℤ, is_skipped, get_accumulate_timestamp_idxs}
use polymetis_franka_teleop.Accumulator.Idxs.First.{
  range_ℤ-append, accumulate_none, get_accumulate_timestamp_idxs-Covers, Covers,
}
use polymetis_franka_teleop.Video.{Recorder}
use polymetis_franka_teleop.Camera.{
  Command, set_color_option, set_depth_option, start_recording_command, stop_recording_command,
  restart_put_command, Sample, Tick, Camera, fail, and_next, sample_of, put_steps, put_vis,
  recorded, start_video, exec_command,
}

map-append : {X Y : Type 0} (f : X → Y) (xs ys : List X) → map f (xs ++ ys) ≡ map f xs ++ map f ys
map-append f [] ys = refl
map-append f (x ∷ xs) ys = ap (λ r. f x ∷ r) (map-append f xs ys)

take-range_ℤ : (k : ℕ) (z : ℤ) (n : ℕ) → take k (range_ℤ z n) ≡ range_ℤ z (min k n)
unfolding range_ℤ
take-range_ℤ zero z n = let e : min 0 n ≡ 0 = omega arith in rw e refl
take-range_ℤ (suc k) z zero = let e : min (suc k) 0 ≡ 0 = omega arith in rw e refl
take-range_ℤ (suc k) z (suc n) =
    let e : min (suc k) (suc n) ≡ suc (min k n) = omega arith in
    rw e (ap (λ r. z ∷ r) (take-range_ℤ k (z +ℤ pos 1) n))

-- A command that does not start the steps again.
unfoldable pub keeps_steps : {S T : Type 0} → Command S T → Bool
keeps_steps (set_color_option option value) = true
keeps_steps (set_depth_option option value) = true
keeps_steps (start_recording_command path time) = true
keeps_steps stop_recording_command = false
keeps_steps (restart_put_command time) = false

abbrev pub KeepSteps : {S T : Type 0} → List (Command S T) → Type 0
KeepSteps commands = All (λ c. keeps_steps c ≡ true) commands

-- What is picked for one frame when the next step is known, and for the first frame.
pub next-Covers :
    {T : Type 0} (window_of : T → ℤ) (t : T) (next : Option ℤ) (start : ℤ)
    → next ≡ some start
    → Covers window_of true 0
        (t ∷ [])
        start
        (get_accumulate_timestamp_idxs window_of true (t ∷ []) next)
next-Covers window_of t next start e = rw e (
    get_accumulate_timestamp_idxs-Covers window_of true start (t ∷ []) (λ f. absurd (true≢false f)))

pub first-Covers :
    {T : Type 0} (window_of : T → ℤ) (t : T) (next : Option ℤ) (start : ℤ)
    → next ≡ none
    → start ≡ window_of t
    → Covers window_of true 0
        (t ∷ [])
        start
        (get_accumulate_timestamp_idxs window_of true (t ∷ []) next)
unfolding get_accumulate_timestamp_idxs is_skipped
first-Covers window_of t next start e same =
    let known = next-Covers window_of t (some (window_of t)) (window_of t) refl in
    rw (e, same, accumulate_none window_of true 0 t [] refl) known

module _ {S T I : Type 0} where
  -- The steps of the samples.
  abbrev pub steps : Camera S T I → List ℤ
  steps c = map (λ s. s.step_idx) c.ring_buffer

  take-samples :
      (tick : Tick S T I) (k : ℕ) (gs : List ℤ)
      → map (λ (s : Sample T I). s.step_idx) (take k (map (sample_of tick) gs)) ≡ take k gs
  unfolding sample_of
  take-samples tick zero gs = refl
  take-samples tick (suc k) [] = refl
  take-samples tick (suc k) (g ∷ gs) = ap (λ r. g ∷ r) (take-samples tick k gs)

  -- Behind the steps `old` those from `first` on, one after the other; while the loop runs the next
  -- one is known.
  pub record IsNumbered (old : List ℤ) (first : ℤ) (c : Camera S T I) : Type 0 where
    pub count : ℕ
    pub numbered : steps c ≡ old ++ range_ℤ first count
    pub next : c.running ≡ true → c.put_idx ≡ some (first +ℤ pos count)
    pub at_put_fps : c.put_downsample ≡ true

  pub put_steps-IsNumbered :
      (tick : Tick S T I) (old : List ℤ) (first : ℤ) (gs : List ℤ) (c : Camera S T I) (count : ℕ)
      → steps c ≡ old ++ range_ℤ first count
      → gs ≡ range_ℤ (first +ℤ pos count) (length gs)
      → c.put_idx ≡ some (first +ℤ pos count +ℤ pos (length gs))
      → c.put_downsample ≡ true
      → IsNumbered old first (put_steps tick gs c)
  unfolding put_steps fail
  put_steps-IsNumbered tick old first gs c count numbered windows next down =
      let k = tick.ring_takes in
      let taken = take-samples tick k gs in
      let added : take k gs ≡ range_ℤ (first +ℤ pos count) (min k (length gs)) =
        ap (take k) windows ∙ take-range_ℤ k (first +ℤ pos count) (length gs) in
      let put : Camera S T I = record c {
        ring_buffer = c.ring_buffer ++ take k (map (sample_of tick) gs);
      } in
      let all : steps put ≡ old ++ range_ℤ first (count + min k (length gs)) =
        map-append (λ s. s.step_idx) c.ring_buffer (take k (map (sample_of tick) gs))
        ∙ ap (λ r. steps c ++ r) (taken ∙ added)
        ∙ ap (λ r. r ++ range_ℤ (first +ℤ pos count) (min k (length gs))) numbered
        ∙ append_assoc old (range_ℤ first count) (range_ℤ (first +ℤ pos count) (min k (length gs)))
        ∙ ap (λ r. old ++ r) (sym (range_ℤ-append first count (min k (length gs)))) in
      let sum : first +ℤ pos count +ℤ pos (length gs) ≡ first +ℤ pos (count + length gs) =
        omega int_laws in
      let few : ltb k (length gs) ≡ false → length gs ≡ min k (length gs) = λ e. ground arith in
      if_cases (IsNumbered old first) (ltb k (length gs))
        (λ e. record {
          count = count + min k (length gs);
          numbered = all;
          next = λ r. cc;
          at_put_fps = down;
        })
        (λ e. record {
          count = count + min k (length gs);
          numbered = all;
          next = λ r. next ∙ ap some (sum ∙ ap (λ m. first +ℤ pos (count + m)) (few e));
          at_put_fps = down;
        })

  -- What leaves the samples and the next step alone.
  pub record IsSame (c d : Camera S T I) : Type 0 where
    pub ring : d.ring_buffer ≡ c.ring_buffer
    pub idx : d.put_idx ≡ c.put_idx
    pub down : d.put_downsample ≡ c.put_downsample
    pub runs : d.running ≡ true → c.running ≡ true

  pub IsSame-IsNumbered :
      (old : List ℤ) (first : ℤ) (c d : Camera S T I)
      → IsSame c d
      → IsNumbered old first c
      → IsNumbered old first d
  IsSame-IsNumbered old first c d same h = record {
    count = h.count;
    numbered = ap (map (λ s. s.step_idx)) same.ring ∙ h.numbered;
    next = λ r. same.idx ∙ h.next (same.runs r);
    at_put_fps = same.down ∙ h.at_put_fps;
  }

  pub and_next-IsNumbered :
      (old : List ℤ) (first : ℤ) (step : Camera S T I → Camera S T I) (c : Camera S T I)
      → (c.running ≡ true → IsNumbered old first c → IsNumbered old first (step c))
      → IsNumbered old first c
      → IsNumbered old first (and_next step c)
  unfolding and_next
  and_next-IsNumbered old first step c f h =
      if_cases (IsNumbered old first) c.running (λ e. f e h) (λ e. h)

  pub and_next-running :
      (step : Camera S T I → Camera S T I) (c : Camera S T I)
      → c.running ≡ true
      → and_next step c ≡ step c
  unfolding and_next
  and_next-running step c runs = rw runs refl

  pub no_steps : (first : ℤ) (c : Camera S T I) → steps c ≡ steps c ++ range_ℤ first 0
  unfolding range_ℤ
  no_steps first c = sym (append-nil (steps c))

  pub put_vis-IsSame :
      (tick : Tick S T I) (c : Camera S T I) → c.running ≡ true → IsSame c (put_vis tick c)
  unfolding put_vis fail
  put_vis-IsSame tick c r = ground arith

  pub recorded-IsSame :
      (done : Result (Unit {0}) × Recorder S T I) (c : Camera S T I)
      → c.running ≡ true
      → IsSame c (recorded done c)
  unfolding recorded fail
  recorded-IsSame (ok u, r) c runs = record {
    ring = refl;
    idx = refl;
    down = refl;
    runs = λ e. runs;
  }
  recorded-IsSame (err e, r) c runs = record {
    ring = refl;
    idx = refl;
    down = refl;
    runs = λ e. runs;
  }

  start_video-running :
      (too_long : S → Bool) (path : S) (time : Option T) (c : Camera S T I)
      → c.running ≡ true
      → IsSame c (recorded (start_video too_long path time c.video_recorder) c)
  start_video-running too_long path time c runs =
      recorded-IsSame (start_video too_long path time c.video_recorder) c runs

  pub exec_command-IsSame :
      (too_long : S → Bool) (command : Command S T) (c : Camera S T I)
      → c.running ≡ true
      → keeps_steps command ≡ true
      → IsSame c (exec_command too_long command c)
  unfolding exec_command keeps_steps
  exec_command-IsSame too_long (set_color_option option value) c runs k = record {
    ring = refl;
    idx = refl;
    down = refl;
    runs = λ e. runs;
  }
  exec_command-IsSame too_long (set_depth_option option value) c runs k = record {
    ring = refl;
    idx = refl;
    down = refl;
    runs = λ e. runs;
  }
  exec_command-IsSame too_long (start_recording_command path time) c runs k =
      start_video-running too_long path time c runs
  exec_command-IsSame too_long stop_recording_command c runs k = absurd (true≢false (sym k))
  exec_command-IsSame too_long (restart_put_command time) c runs k = absurd (true≢false (sym k))
