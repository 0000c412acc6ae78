-- ===== src/SharedMemory/Counter.antt =====
-- `SharedAtomicCounter` of shared_memory/shared_memory_util.py: an unsigned number in 8 bytes of
-- shared memory. Each method is one atomic access, so a counter is its value.
use polymetis_franka_teleop.Prelude.{ℕ, ◌+◌, ◌%◌, ◌^◌, ◌<◌, ◌≡◌, arith}

abbrev pub Counter : Type 0
Counter = ℕ

-- 2 ^ (8 * size) for the default size of 8 bytes.
abbrev pub counter_mod : ℕ
counter_mod = 2 ^ 64

-- `__init__` stores 0.
abbrev pub new_counter : Counter
new_counter = 0

unfoldable pub load : Counter → ℕ
load c = c

unfoldable pub store : Counter → ℕ → Counter
store c value = value % counter_mod

unfoldable pub add : Counter → ℕ → Counter
add c value = (c + value) % counter_mod

pub load-add : (c : Counter) (v : ℕ) → c + v < counter_mod → load (add c v) ≡ load c + v
unfolding load add
load-add c v h = omega arith
