-- ===== src/Accumulator/Windows.antt =====
-- `TimestampActionAccumulator`: for each window the action that was put last. `window_of` is the
-- window of a timestamp.
pub mod Puts
pub mod Grid
mod Tests
use polymetis_franka_teleop.Prelude.{
  ℕ, zero, suc, ◌+◌, ◌*◌, max, Bool, false, Option, none, some, List, [], ◌∷◌, ◌++◌,
}
use polymetis_franka_teleop.Prelude.Tests.{ltb, if◌then◌else◌}
use polymetis_franka_teleop.Prelude.Lists.{length, get_elem?, set, replicate, take, get_last?}
use polymetis_franka_teleop.Prelude.Int.{ℤ, pos_part}
use polymetis_franka_teleop.Prelude.Result.{Error, Result, ok, err, index_error, ◌>>=◌}
use polymetis_franka_teleop.Accumulator.Idxs.{Picked, get_accumulate_timestamp_idxs}

-- What numpy does with arrays of such rows: a row of zeros, and np.resize.
pub record Arrays (X : Type 0) : Type 0 where
  pub zero_row : X
  pub np_resize : List X → ℕ → List X

-- The two buffers, which are None together.
pub record Buffers (T A : Type 0) : Type 0 where
  pub action_buffer : List A
  pub timestamp_buffer : List T

pub record Accumulated (T A : Type 0) : Type 0 where
  pub buffers : Option (Buffers T A)
  pub size : ℕ

unfoldable pub new_accumulated : {T A : Type 0} → Accumulated T A
new_accumulated = record { buffers = none; size = 0 }

unfoldable pub first_actions : {T A : Type 0} → ℕ → Option (Buffers T A) → List A
first_actions n none = []
first_actions n (some b) = take n b.action_buffer

unfoldable pub first_stamps : {T A : Type 0} → ℕ → Option (Buffers T A) → List T
first_stamps n none = []
first_stamps n (some b) = take n b.timestamp_buffer

-- The properties `actions` and `actual_timestamps`.
unfoldable pub actions : {T A : Type 0} → Accumulated T A → List A
unfolding first_actions
actions s = first_actions s.size s.buffers

unfoldable pub actual_timestamps : {T A : Type 0} → Accumulated T A → List T
unfolding first_stamps
actual_timestamps s = first_stamps s.size s.buffers

-- start_time + np.arange(n) * dt, from the window `first` on, for the property `timestamps`
unfoldable pub window_times : ℕ → ℕ → ℕ → ℕ → List ℕ
window_times start_time dt first zero = []
window_times start_time dt first (suc n) =
    (start_time + first * dt) ∷ window_times start_time dt (first + 1) n

unfoldable pub times_of : {T A : Type 0} → ℕ → ℕ → ℕ → Option (Buffers T A) → List ℕ
unfolding window_times
times_of start_time dt n none = []
times_of start_time dt n (some b) = window_times start_time dt 0 n

unfoldable pub window_starts : {T A : Type 0} → ℕ → ℕ → Accumulated T A → List ℕ
unfolding times_of
window_starts start_time dt s = times_of start_time dt s.size s.buffers

-- rows[local_idxs]
unfoldable pub pick_rows : {X : Type 0} → List X → List ℕ → Result (List X)
pick_rows rows [] = ok []
pick_rows rows (l ∷ ls) = elim (get_elem? rows l) [
  | none ↦ err index_error
  | some row ↦ pick_rows rows ls >>= (λ picked. ok (row ∷ picked))
]

-- buffer[global_idxs] = rows, for indices that are in range
unfoldable pub write_rows : {X : Type 0} → List ℤ → List X → List X → List X
write_rows [] rows buffer = buffer
write_rows (g ∷ gs) [] buffer = buffer
write_rows (g ∷ gs) (row ∷ rows) buffer = write_rows gs rows (set buffer (pos_part g) row)

module _ {T A : Type 0} where
  unfoldable pub write_stamps :
      List ℤ → ℕ → Result (List T) → Buffers T A → Accumulated T A → Accumulated T A × Option Error
  unfolding write_rows
  write_stamps gs this_max_size (err e) b s = (record s { buffers = some b }, some e)
  write_stamps gs this_max_size (ok stamps) b s =
      let timestamp_buffer = write_rows gs stamps b.timestamp_buffer in
      (
        record s {
          buffers = some (record b { timestamp_buffer = timestamp_buffer });
          size = max s.size this_max_size;
        },
        none,
      )

  unfoldable pub write_actions :
      List ℤ
      → ℕ
      → Result (List A)
      → Result (List T)
      → Buffers T A
      → Accumulated T A
      → Accumulated T A × Option Error
  unfolding write_rows write_stamps
  write_actions gs this_max_size (err e) stamps b s = (record s { buffers = some b }, some e)
  write_actions gs this_max_size (ok rows) stamps b s =
      write_stamps gs this_max_size stamps
        (record b { action_buffer = write_rows gs rows b.action_buffer }) s

module _ {T A : Type 0} (np : Arrays A) (tp : Arrays T) where
  -- The first allocation has the length of what is put.
  unfoldable pub allocate : ℕ → Option (Buffers T A) → Buffers T A
  allocate n none = record {
    action_buffer = replicate n np.zero_row;
    timestamp_buffer = replicate n tp.zero_row;
  }
  allocate n (some b) = b

  unfoldable pub grow : ℕ → Buffers T A → Buffers T A
  grow this_max_size b =
      let new_size = max this_max_size (length b.timestamp_buffer * 2) in
      if ltb (length b.timestamp_buffer) this_max_size
      then record {
        action_buffer = np.np_resize b.action_buffer new_size;
        timestamp_buffer = tp.np_resize b.timestamp_buffer new_size;
      }
      else b

  -- What is done with the picked indices, of which the last is given.
  unfoldable pub put_picked :
      Picked → Option ℤ → List A → List T → Accumulated T A → Accumulated T A × Option Error
  unfolding allocate grow pick_rows write_actions
  put_picked picked none new_actions timestamps s = (s, none)
  put_picked picked (some last) new_actions timestamps s =
      let this_max_size = pos_part last + 1 in
      write_actions picked.global_idxs this_max_size (pick_rows new_actions picked.local_idxs)
        (pick_rows timestamps picked.local_idxs)
        (grow this_max_size (allocate (length new_actions) s.buffers)) s

  unfoldable pub put : (T → ℤ) → List A → List T → Accumulated T A → Accumulated T A × Option Error
  unfolding put_picked
  put window_of new_actions timestamps s =
      let picked = get_accumulate_timestamp_idxs window_of false timestamps none in
      put_picked picked (get_last? picked.global_idxs) new_actions timestamps s
