-- ===== src/SharedMemory/Queue/Fifo.antt =====
-- What a queue holds: for each field the items that were put and not yet taken, oldest first; and
-- the condition under which its methods keep that.
use polymetis_franka_teleop.Prelude.{◌+◌, ◌-◌, ◌≤◌, ◌<◌, String, Option, List}
use polymetis_franka_teleop.SharedMemory.Counter.{counter_mod}
use polymetis_franka_teleop.SharedMemory.Arrays.Write.{IsSized, column}
use polymetis_franka_teleop.SharedMemory.Queue.{Queue}

-- The items of a field, or `none` if the queue has no such field.
abbrev pub contents : {A D : Type 0} → Queue A D → String → Option (List A)
contents q key =
    column q.buffer_size q.read_counter (q.write_counter - q.read_counter) key q.shared_arrays

-- The counters have not wrapped, and are at most the buffer apart.
pub record IsValid {A D : Type 0} (q : Queue A D) : Type 0 where
  pub order : q.read_counter ≤ q.write_counter
  pub fits : q.write_counter ≤ q.read_counter + q.buffer_size
  pub in_word : q.write_counter < counter_mod
  pub sized : IsSized q.buffer_size q.shared_arrays
