-- ===== src/Video/Sync.antt =====
-- The frames of a video against the clock: `write_frame` repeats a frame so that the video has one
-- frame for each period of 1 / fps since the start time.
use polymetis_franka_teleop.Prelude.{
  ℕ, ◌+◌, ◌≡◌, refl, ap, ◌∙◌, max, true, false, inl, inr, Option, some, List, [], ◌∷◌, ◌++◌, arith,
}
use polymetis_franka_teleop.Prelude.Tests.{leb, Bool-cases, if◌then◌else◌}
use polymetis_franka_teleop.Prelude.Result.{Result, ok, err, full}
use polymetis_franka_teleop.Prelude.Lists.{length, replicate, length-append, length-replicate}
use polymetis_franka_teleop.Prelude.Int.{ℤ, pos, ◌+ℤ◌, ◌-ℤ◌, int_laws, ltb_ℤ}
use polymetis_franka_teleop.Accumulator.Idxs.{
  Picked, n_repeats, append_repeats, or_first, is_skipped, accumulate_from,
  get_accumulate_timestamp_idxs,
}
use polymetis_franka_teleop.Video.{Recorder, put_bounded, is_ready, repeats, write_frame}

count_windows : (n w : ℕ) → n_repeats (pos w) (pos n) + n ≡ max n (w + 1)
unfolding n_repeats ◌+ℤ◌ ◌-ℤ◌
count_windows n w = ground arith

pos_sum : (n k : ℕ) → pos n +ℤ pos k ≡ pos (n + k)
pos_sum n k = omega int_laws

taken :
    {T : Type 0} (window : T → ℤ) (t : T) (w : ℕ)
    → window t ≡ pos w
    → is_skipped window false t ≡ false
unfolding is_skipped
taken window t w h = ap (λ y. ltb_ℤ y (pos 0)) h ∙ (ground arith)

picked_one :
    {T : Type 0} (window : T → ℤ) (t : T) (n w : ℕ)
    → window t ≡ pos w
    → get_accumulate_timestamp_idxs window false (t ∷ []) (some (pos n))
      ≡ append_repeats 0 (pos n) (n_repeats (window t) (pos n)) (record {
        local_idxs = [];
        global_idxs = [];
        next_global_idx = some (pos n +ℤ pos (n_repeats (window t) (pos n)));
      })
unfolding get_accumulate_timestamp_idxs accumulate_from or_first
picked_one window t n w h = let skip = taken window t w h in ground (arith, skip)

picked_next :
    {T : Type 0} (window : T → ℤ) (t : T) (n w : ℕ)
    → window t ≡ pos w
    → ((get_accumulate_timestamp_idxs window false (t ∷ []) (some (pos n))).next_global_idx
        ≡ some (pos (max n (w + 1))))
      × (length (get_accumulate_timestamp_idxs window false (t ∷ []) (some (pos n))).local_idxs + n
          ≡ max n (w + 1))
unfolding append_repeats
picked_next window t n w h =
    let k = n_repeats (window t) (pos n) in
    let count : k + n ≡ max n (w + 1) = ap (λ x. n_repeats x (pos n) + n) h ∙ count_windows n w in
    let sum : pos n +ℤ pos k ≡ pos (max n (w + 1)) = pos_sum n k ∙ ap pos (omega (arith, count)) in
    let zeros : List ℕ = replicate k 0 in
    let size = length-append zeros [] in
    let zero_idx : ℕ = 0 in
    let same = length-replicate k zero_idx in
    let one = picked_one window t n w h in
    (
      ap (λ (p : Picked). p.next_global_idx) one ∙ ap some sum,
      ap (λ (p : Picked). length p.local_idxs + n) one ∙ omega (arith, size, same, count),
    )

module _ {S T I : Type 0} where
  -- What a call leaves that repeats the frame `k` times and gives the next index.
  abbrev pub written : I → ℕ → Option ℤ → Recorder S T I → Result (Unit {0}) × Recorder S T I
  written img k next r =
      let moved : Recorder S T I = record r { next_global_idx = next } in
      if leb r.buffer_size (length r.img_queue)
      then (err full, moved)
      else (ok tt, record moved { img_queue = r.img_queue ++ (img, k) ∷ [] })

module _ {S T I : Type 0} (window_of : T → T → ℤ) where
  write_frame-written :
      (img : I) (t : T) (r : Recorder S T I)
      → is_ready r ≡ true
      → write_frame window_of img t r
        ≡ written img (repeats window_of t r).0 (repeats window_of t r).1 r
  unfolding write_frame put_bounded
  write_frame-written img t r ready = elim (Bool-cases (leb r.buffer_size (length r.img_queue))) [
    | inl held ↦ rw (ready, held) refl
    | inr room ↦ rw (ready, room) refl
  ]

  repeats-picked :
      (t start_time : T) (next : Option ℤ) (r : Recorder S T I)
      → r.no_repeat ≡ false
      → r.start_time ≡ some start_time
      → r.next_global_idx ≡ next
      → ((repeats window_of t r).0
          ≡ length
              (get_accumulate_timestamp_idxs (window_of start_time) false (t ∷ []) next).local_idxs)
        × ((repeats window_of t r).1
            ≡ (get_accumulate_timestamp_idxs
                (window_of start_time)
                false
                (t ∷ [])
                next).next_global_idx)
  unfolding repeats
  repeats-picked t start_time next r on started given = ground (arith, on, started, given)

  -- When the recorder is ready, with repeats on and a frame that is not before the start time: the
  -- next index becomes one more than the frame's window unless it was that far. If the queue is full
  -- `write_frame` raises Full and leaves all else as it was; otherwise it puts the frame behind the
  -- queue's entries, to be encoded once for each index that was added.
  pub write_frame-sync :
      (img : I) (frame_time start_time : T) (n w : ℕ) (r : Recorder S T I)
      → is_ready r ≡ true
      → r.no_repeat ≡ false
      → r.start_time ≡ some start_time
      → r.next_global_idx ≡ some (pos n)
      → window_of start_time frame_time ≡ pos w
      → (k : ℕ) × (k + n ≡ max n (w + 1))
        × (write_frame window_of img frame_time r ≡ written img k (some (pos (max n (w + 1)))) r)
  write_frame-sync img frame_time start_time n w r ready on started next h =
      let one = picked_next (window_of start_time) frame_time n w h in
      let counted = repeats-picked frame_time start_time (some (pos n)) r on started next in
      let k = (repeats window_of frame_time r).0 in
      (
        k,
        ap (λ (k : ℕ). k + n) counted.0 ∙ one.1,
        write_frame-written img frame_time r ready
            ∙ ap (λ m. written img k m r) (counted.1 ∙ one.0),
      )
