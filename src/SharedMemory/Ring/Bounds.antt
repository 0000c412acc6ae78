-- ===== src/SharedMemory/Ring/Bounds.antt =====
-- The condition under which the ring buffer keeps its most recent items, and that a put keeps it.
use polymetis_franka_teleop.Prelude.{ℕ, ◌+◌, ◌%◌, ◌<◌, ◌≡◌, Bool, some, arith}
use polymetis_franka_teleop.Prelude.Lists.{length, length-set}
use polymetis_franka_teleop.Prelude.Dict.{Dict}
use polymetis_franka_teleop.SharedMemory.Counter.{counter_mod}
use polymetis_franka_teleop.SharedMemory.Arrays.{Value}
use polymetis_franka_teleop.SharedMemory.Arrays.Write.{IsSized, write_all-IsSized}
use polymetis_franka_teleop.SharedMemory.Ring.{Ring, put}

pub record IsValid {A D : Type 0} (r : Ring A D) : Type 0 where
  pub room : r.get_max_k < r.buffer_size
  pub in_word : r.counter < counter_mod
  pub sized : IsSized r.buffer_size r.shared_arrays
  pub stamped : length r.timestamps ≡ r.buffer_size

pub put-IsValid :
    {A N D : Type 0} (np_array : N → D → A) (r : Ring A D) (items : Dict (Value A N)) (wait : Bool)
    (t t_end : ℕ)
    → IsValid r
    → r.counter + 1 < counter_mod
    → IsValid (put np_array r items wait t t_end).1
unfolding put
put-IsValid np_array r items wait t t_end v word = ground (
  arith,
  write_all-IsSized np_array r.buffer_size (r.counter % r.buffer_size) items r.shared_arrays
      v.sized,
  length-set r.timestamps (r.counter % r.buffer_size) (some t_end),
)
