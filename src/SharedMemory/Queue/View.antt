-- ===== src/SharedMemory/Queue/View.antt =====
-- The zero-copy read: the guard's data and its exit make up `get`.
use polymetis_franka_teleop.Prelude.{◌%◌, ◌<◌, ◌≡◌, arith}
use polymetis_franka_teleop.SharedMemory.Arrays.Read.{read_row_total}
use polymetis_franka_teleop.SharedMemory.Queue.{Queue, get, get_view, exit_view}
use polymetis_franka_teleop.SharedMemory.Queue.Fifo.{IsValid}
use native.Mathlib.Nat.{mod-lt}

-- On a valid queue that holds an item, reading through `get_view` and leaving the guard has the
-- outcome of `get`, and leaves the same queue.
pub get_view-exit :
    {A D : Type 0} (q : Queue A D)
    → IsValid q
    → q.read_counter < q.write_counter
    → get q ≡ (get_view q, exit_view q)
unfolding get get_view exit_view
get_view-exit q v some_left =
    let b = q.buffer_size in
    let row =
      read_row_total b (q.read_counter % b) q.shared_arrays v.sized
        (mod-lt q.read_counter (omega (arith, v.fits))) in
    ground (arith, row.1)
