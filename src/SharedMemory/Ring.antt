-- ===== src/SharedMemory/Ring.antt =====
-- `SharedMemoryRingBuffer` of shared_memory/shared_memory_ring_buffer.py. The readings of
-- `time.monotonic()` are arguments, in ticks of one clock; a method returns its outcome and the
-- buffer that it leaves. `get` and its like are modelled with `out=None`.
pub mod Bounds
pub mod Recent
pub mod Spacing
mod Tests
use polymetis_franka_teleop.Prelude.{
  ℕ, ◌+◌, ◌-◌, ◌%◌, min, max, Bool, not, ◌&&◌, false, true, Option, none, some, List, [], ◌∷◌, ◌++◌,
}
use polymetis_franka_teleop.Prelude.Tests.{ltb, leb, if◌then◌else◌}
use polymetis_franka_teleop.Prelude.Lists.{get_elem?, set, replicate}
use polymetis_franka_teleop.Prelude.Result.{
  Result, ok, err, timeout_error, index_error, assertion_error,
}
use polymetis_franka_teleop.Prelude.Dict.{Dict, map_values}
use polymetis_franka_teleop.SharedMemory.Counter.{Counter, new_counter, load, store, add}
use polymetis_franka_teleop.SharedMemory.Arrays.{
  Arrays, Value, Row, Columns, slice, read_row, write_all,
}
use polymetis_franka_teleop.SharedMemory.Queue.{ArraySpec, allocate}

-- A cell of `timestamp_array`; `none` is the -inf of a slot that was never written.
abbrev pub Stamp : Type 0
Stamp = Option ℕ

pub record Ring (A D : Type 0) : Type 0 where
  pub buffer_size : ℕ
  pub shared_arrays : Arrays A D
  pub counter : Counter
  pub timestamps : List Stamp
  pub get_time_budget : ℕ
  pub get_max_k : ℕ

-- `reserve` is int(ceil(put_desired_frequency * get_time_budget * safety_margin)), a computation
-- on floats.
unfoldable pub new_ring :
    {A D : Type 0} → (D → A) → List (ArraySpec D) → ℕ → ℕ → ℕ → Result (Ring A D)
new_ring blank specs get_max_k get_time_budget reserve =
    let buffer_size = reserve + get_max_k in
    elim (allocate blank buffer_size specs []) [
      | ok arrs ↦ ok (record {
        buffer_size = buffer_size;
        shared_arrays = arrs;
        counter = new_counter;
        timestamps = replicate buffer_size none;
        get_time_budget = get_time_budget;
        get_max_k = get_max_k;
      })
      | err e ↦ err e
    ]

-- (t - old_timestamp) < self.get_time_budget
unfoldable pub too_soon : ℕ → Stamp → ℕ → Bool
too_soon t none budget = false
too_soon t (some old) budget = ltb t (old + budget)

-- The slot whose stamp a put looks at: (next_idx + get_max_k - 1) % buffer_size, which Python
-- takes to be at least 0.
unfoldable pub lookahead_idx : {A D : Type 0} → Ring A D → ℕ
unfolding load
lookahead_idx r =
    let next_idx = load r.counter % r.buffer_size in
    (next_idx + r.get_max_k + r.buffer_size - 1) % r.buffer_size

-- The end of a put, with the outcome of the write loop.
unfoldable pub publish :
    {A D : Type 0} → Ring A D → ℕ → Result (Unit {0}) × Arrays A D → Result (Unit {0}) × Ring A D
unfolding load add
publish r t_end (ok _, arrs) = (
  ok tt,
  record r {
    shared_arrays = arrs;
    timestamps = set r.timestamps (load r.counter % r.buffer_size) (some t_end);
    counter = add r.counter 1;
  },
)
publish r t_end (err e, arrs) = (err e, record r { shared_arrays = arrs })

-- `t` is the clock when the put looks at the old stamp, and `t_end` the clock when it stamps its
-- own slot, after the wait, if there is one.
unfoldable pub put :
    {A N D : Type 0}
    → (N → D → A)
    → Ring A D
    → Dict (Value A N)
    → Bool
    → ℕ
    → ℕ
    → Result (Unit {0}) × Ring A D
unfolding lookahead_idx too_soon publish load
put np_array r items wait t t_end =
    let write =
      publish r t_end (write_all np_array (load r.counter % r.buffer_size) items r.shared_arrays) in
    elim (get_elem? r.timestamps (lookahead_idx r)) [
      | none ↦ (err index_error, r)
      | some old ↦
          if too_soon t old r.get_time_budget && not wait then (err timeout_error, r) else write
    ]

module _ {A D : Type 0} where
  unfoldable pub count : Ring A D → ℕ
  unfolding load
  count r = load r.counter

  unfoldable pub clear : Ring A D → Ring A D
  unfolding store
  clear r = record r { counter = store r.counter 0 }

  -- (count - 1) % buffer_size, which Python takes to be at least 0.
  unfoldable pub last_idx : Ring A D → ℕ
  unfolding load
  last_idx r = (load r.counter + r.buffer_size - 1) % r.buffer_size

  -- if dt > self.get_time_budget: raise TimeoutError
  unfoldable pub in_budget {ℓ} : {B : Type ℓ} → Ring A D → ℕ → ℕ → B → Result B
  in_budget r start_time end_time result =
      if ltb r.get_time_budget (end_time - start_time) then err timeout_error else ok result

  unfoldable pub get : Ring A D → ℕ → ℕ → Result (Row A)
  unfolding last_idx in_budget
  get r start_time end_time = elim (read_row (last_idx r) r.shared_arrays) [
    | ok row ↦ in_budget r start_time end_time row
    | err e ↦ err e
  ]

-- The copy of the last `k` items for one array: what is left at the end of the array, then the
-- slice that ends at the last slot.
unfoldable pub copy_last_k : {A : Type 0} → ℕ → ℕ → ℕ → List A → List A
copy_last_k b k curr_idx cells =
    let stop = curr_idx + 1 in
    let start = stop - k in
    let remainder = k - (stop - start) in
    (if ltb 0 remainder then slice (b - remainder) b cells else []) ++ slice start stop cells

module _ {A D : Type 0} where
  unfoldable pub get_last_k : ℕ → Ring A D → ℕ → ℕ → Result (Columns A)
  unfolding copy_last_k last_idx in_budget load
  get_last_k k r start_time end_time =
      if leb k r.get_max_k
      then if leb k (load r.counter)
        then in_budget r start_time end_time
            (map_values (λ a. copy_last_k r.buffer_size k (last_idx r) a.cells) r.shared_arrays)
        else err assertion_error
      else err assertion_error

  unfoldable pub get_all : Ring A D → ℕ → ℕ → Result (Columns A)
  unfolding get_last_k count
  get_all r start_time end_time = get_last_k (min (count r) r.get_max_k) r start_time end_time
