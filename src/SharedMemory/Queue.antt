-- ===== src/SharedMemory/Queue.antt =====
-- `SharedMemoryQueue` of shared_memory/shared_memory_queue.py. A method returns its outcome and
-- the queue that it leaves. `get` and its like are modelled with `out=None`: the caller's
-- preallocated target only changes where the copy goes.
pub mod Fifo
pub mod Bounds
pub mod Refine
pub mod Create
pub mod View
mod Tests
use polymetis_franka_teleop.Prelude.{
  ℕ, ◌+◌, ◌-◌, ◌%◌, ◌≤◌, min, String, Bool, Option, none, some, List, [], ◌∷◌, ◌++◌,
}
use polymetis_franka_teleop.Prelude.Int.{ℤ, pos, pos_part, sub_ℕ, leb_ℤ}
use polymetis_franka_teleop.Prelude.Tests.{ltb, if◌then◌else◌}
use polymetis_franka_teleop.Prelude.Lists.{replicate}
use polymetis_franka_teleop.Prelude.Result.{Result, ok, err, full, empty, assertion_error}
use polymetis_franka_teleop.Prelude.Dict.{Dict, member, map_values}
use polymetis_franka_teleop.SharedMemory.Counter.{Counter, new_counter, load, store, add}
use polymetis_franka_teleop.SharedMemory.Arrays.{
  SharedArray, Arrays, Value, Row, Columns, slice, read_row, write_all, write_numbers,
}

pub record Queue (A D : Type 0) : Type 0 where
  pub buffer_size : ℕ
  pub shared_arrays : Arrays A D
  pub write_counter : Counter
  pub read_counter : Counter

-- The copy of `k` items from the count `read_count` on, for one array: the slice up to the end
-- of the array, and what is left from its start.
unfoldable pub copy_k : {A : Type 0} → ℕ → ℕ → ℕ → List A → List A
copy_k b k read_count cells =
    let start = read_count % b in
    let stop = min (start + k) b in
    let remainder = k - (stop - start) in
    slice start stop cells ++ (if ltb 0 remainder then slice 0 remainder cells else [])

module _ {A D : Type 0} where
  -- write_count - read_count, a Python integer
  unfoldable pub qsize : Queue A D → ℤ
  unfolding load
  qsize q = sub_ℕ (load q.write_counter) (load q.read_counter)

  -- n_data >= self.buffer_size
  unfoldable pub is_full : Queue A D → Bool
  unfolding qsize
  is_full q = leb_ℤ (pos q.buffer_size) (qsize q)

  -- `empty`: n_data <= 0
  unfoldable pub is_empty : Queue A D → Bool
  unfolding qsize
  is_empty q = leb_ℤ (qsize q) (pos 0)

  unfoldable pub clear : Queue A D → Queue A D
  unfolding load store
  clear q = record q { read_counter = store q.read_counter (load q.write_counter) }

  unfoldable pub get : Queue A D → Result (Row A) × Queue A D
  unfolding is_empty load add
  get q =
      if is_empty q
      then (err empty, q)
      else elim (read_row (load q.read_counter % q.buffer_size) q.shared_arrays) [
        | ok row ↦ (ok row, record q { read_counter = add q.read_counter 1 })
        | err e ↦ (err e, q)
      ]

  unfoldable pub get_k_impl : Queue A D → ℕ → ℕ → Columns A
  unfolding copy_k
  get_k_impl q k read_count =
      map_values (λ a. copy_k q.buffer_size k read_count a.cells) q.shared_arrays

  unfoldable pub get_k : ℕ → Queue A D → Result (Columns A) × Queue A D
  unfolding is_empty load add
  get_k k q =
      if is_empty q
      then (err empty, q)
      else if leb_ℤ (pos k) (qsize q)
      then (
        ok (get_k_impl q k (load q.read_counter)),
        record q { read_counter = add q.read_counter k },
      )
      else (err assertion_error, q)

  unfoldable pub get_all : Queue A D → Result (Columns A) × Queue A D
  unfolding is_empty load add
  get_all q =
      let n_data = pos_part (qsize q) in
      if is_empty q then (err empty, q) else (
        ok (get_k_impl q n_data (load q.read_counter)),
        record q { read_counter = add q.read_counter n_data },
      )

  -- The data that the guard of `get_view` shows.
  unfoldable pub get_view : Queue A D → Result (Row A)
  unfolding is_empty load
  get_view q =
      if is_empty q
      then err empty
      else read_row (load q.read_counter % q.buffer_size) q.shared_arrays

  -- `CallbackGuard.__exit__`: the callback of `get_view`.
  unfoldable pub exit_view : Queue A D → Queue A D
  unfolding add
  exit_view q = record q { read_counter = add q.read_counter 1 }

  -- The cells of the slot that the next `put_next_view` will publish.
  unfoldable pub get_next_view : Queue A D → Result (Row A)
  unfolding is_full load
  get_next_view q =
      if is_full q
      then err full
      else read_row (load q.write_counter % q.buffer_size) q.shared_arrays

-- What a put does once the slot is written: an exception leaves the counter alone.
unfoldable pub publish :
    {A D : Type 0} → Queue A D → Result (Unit {0}) × Arrays A D → Result (Unit {0}) × Queue A D
unfolding add
publish q (ok _, arrs) =
    (ok tt, record q { shared_arrays = arrs; write_counter = add q.write_counter 1 })
publish q (err e, arrs) = (err e, record q { shared_arrays = arrs })

module _ {A N D : Type 0} (np_array : N → D → A) where
  unfoldable pub put : Queue A D → Dict (Value A N) → Result (Unit {0}) × Queue A D
  unfolding is_full load publish
  put q items =
      if is_full q
      then (err full, q)
      else publish q
          (write_all np_array (load q.write_counter % q.buffer_size) items q.shared_arrays)

  unfoldable pub put_next_view : Queue A D → Dict (Value A N) → Result (Unit {0}) × Queue A D
  unfolding is_full load publish
  put_next_view q items =
      if is_full q
      then (err full, q)
      else publish q
          (write_numbers np_array (load q.write_counter % q.buffer_size) items q.shared_arrays)

-- `ArraySpec`, less the item's shape: `blank` below is a zeroed cell of the shape and type.
pub record ArraySpec (D : Type 0) : Type 0 where
  pub name : String
  pub dtype : D

-- `blank d` is the cell that fresh shared memory holds.
module _ {A D : Type 0} (blank : D → A) where
  -- The loop of `__init__`: `assert key not in shared_arrays`, then a new array at the end.
  unfoldable pub allocate : ℕ → List (ArraySpec D) → Arrays A D → Result (Arrays A D)
  allocate size [] arrs = ok arrs
  allocate size (spec ∷ specs) arrs =
      let array : SharedArray A D = record {
        dtype = spec.dtype;
        cells = replicate size (blank spec.dtype);
      } in
      let rest = allocate size specs (arrs ++ (spec.name, array) ∷ []) in
      if member spec.name arrs then err assertion_error else rest

  unfoldable pub new_queue : List (ArraySpec D) → ℕ → Result (Queue A D)
  unfolding allocate
  new_queue specs buffer_size = elim (allocate buffer_size specs []) [
    | ok arrs ↦ ok (record {
      buffer_size = buffer_size;
      shared_arrays = arrs;
      write_counter = new_counter;
      read_counter = new_counter;
    })
    | err e ↦ err e
  ]

-- `create_from_examples`: one spec for each example, in their order. `dtype_of` is the dtype of an
-- array, or of a number's class; a value that is neither is outside `Value`.
module _ {A N D : Type 0} (blank : D → A) (dtype_of : Value A N → D) where
  unfoldable pub specs_of : Dict (Value A N) → List (ArraySpec D)
  specs_of [] = []
  specs_of ((key, value) ∷ rest) = record { name = key; dtype = dtype_of value } ∷ specs_of rest

  unfoldable pub create_from_examples : Dict (Value A N) → ℕ → Result (Queue A D)
  unfolding specs_of new_queue
  create_from_examples examples buffer_size = new_queue blank (specs_of examples) buffer_size
