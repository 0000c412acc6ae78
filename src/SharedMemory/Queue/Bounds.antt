-- ===== src/SharedMemory/Queue/Bounds.antt =====
-- Every method keeps the queue valid.
use polymetis_franka_teleop.Prelude.{ℕ, ◌+◌, ◌%◌, ◌<◌, arith}
use polymetis_franka_teleop.Prelude.Dict.{Dict}
use polymetis_franka_teleop.SharedMemory.Counter.{counter_mod}
use polymetis_franka_teleop.SharedMemory.Arrays.{Value}
use polymetis_franka_teleop.SharedMemory.Arrays.Write.{write_all-IsSized}
use polymetis_franka_teleop.SharedMemory.Queue.{Queue, clear, get, get_k, get_all, put}
use polymetis_franka_teleop.SharedMemory.Queue.Fifo.{IsValid}

module _ {A D : Type 0} where
  pub clear-IsValid : (q : Queue A D) → IsValid q → IsValid (clear q)
  unfolding clear
  clear-IsValid q v = ground arith

  pub get-IsValid : (q : Queue A D) → IsValid q → IsValid (get q).1
  unfolding get
  get-IsValid q v = ground arith

  pub get_k-IsValid : (k : ℕ) (q : Queue A D) → IsValid q → IsValid (get_k k q).1
  unfolding get_k
  get_k-IsValid k q v = ground arith

  pub get_all-IsValid : (q : Queue A D) → IsValid q → IsValid (get_all q).1
  unfolding get_all
  get_all-IsValid q v = ground arith

-- A put, whatever its outcome, keeps a queue valid, if its counter does not wrap.
pub put-IsValid :
    {A N D : Type 0} (np_array : N → D → A) (q : Queue A D) (items : Dict (Value A N))
    → IsValid q
    → q.write_counter + 1 < counter_mod
    → IsValid (put np_array q items).1
unfolding put
put-IsValid np_array q items v h = ground (
  arith,
  write_all-IsSized np_array q.buffer_size (q.write_counter % q.buffer_size) items q.shared_arrays
      v.sized,
)
