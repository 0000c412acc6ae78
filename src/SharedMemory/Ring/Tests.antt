-- ===== src/SharedMemory/Ring/Tests.antt =====
-- Runs of a ring buffer of three slots that serves the last two items, and the theorems at them.
use mathlib.Core.Option
use polymetis_franka_teleop.Prelude.{
  ℕ, zero, suc, ◌*◌, ◌+◌, ◌%◌, ◌≤◌, String, ◌≡◌, refl, ◌<◌, ◌⊎◌, false, some, [], ◌∷◌, ◌++◌, arith,
  min,
}
use polymetis_franka_teleop.Prelude.Lists.{get_elem?}
use polymetis_franka_teleop.Prelude.Result.{Result, ok, err, timeout_error, assertion_error}
use polymetis_franka_teleop.Prelude.Dict.{Dict, lookup, modify}
use polymetis_franka_teleop.SharedMemory.Arrays.{
  SharedArray, Value, Columns, ndarray, write_all, read_row,
}
use polymetis_franka_teleop.SharedMemory.Arrays.Window.{window}
use polymetis_franka_teleop.SharedMemory.Arrays.Write.{column, new_cell}
use polymetis_franka_teleop.SharedMemory.Ring.{Ring, put, get, get_last_k, get_all}
use polymetis_franka_teleop.SharedMemory.Ring.Bounds.{IsValid, put-IsValid}
use polymetis_franka_teleop.SharedMemory.Ring.Recent.{
  recent, put_shifts, get_last_k-recent, get_last_k_fails, get_all-recent,
}
use polymetis_franka_teleop.SharedMemory.Ring.Spacing.{IsTimed, put_spaced, put-IsTimed}

abbrev cast : ℕ → ℕ → ℕ
cast n d = n + d

abbrev poses : SharedArray ℕ ℕ
poses = record { dtype = 0; cells = 53 ∷ 51 ∷ 52 ∷ [] }

-- The items with the counts 1, 2 and 3 are held, stamped 10, 20 and 30.
abbrev four_put : Ring ℕ ℕ
four_put = record {
  buffer_size = 3;
  shared_arrays = ("pose", poses) ∷ [];
  counter = 4;
  timestamps = some 30 ∷ some 10 ∷ some 20 ∷ [];
  get_time_budget = 5;
  get_max_k = 2;
}

abbrev item : Dict (Value ℕ ℕ)
item = ("pose", ndarray 54) ∷ []

four_put-IsValid : IsValid four_put
four_put-IsValid = omega arith

put_quick : (put cast four_put item false 40 41).0 ≡ ok tt
unfolding put write_all lookup modify
put_quick = refl

-- The stamp of count 2 is 20, and the budget 5: at 24 a put that does not wait is refused.
put_refused : put cast four_put item false 24 25 ≡ (err timeout_error, four_put)
unfolding put write_all lookup modify
put_refused = refl

-- A read of an empty buffer returns the zeros of the last slot.
get_of_empty : get (record four_put { counter = 0 }) 0 1 ≡ ok (("pose", 52) ∷ [])
unfolding get read_row
get_of_empty = refl

-- After a pause two puts follow one another at once, and the second one takes the slot of the
-- oldest of the two items that a reader may be copying since 100.
burst : Result (Unit {0}) × Ring ℕ ℕ
burst = put cast (put cast four_put item false 100 100).1 item false 101 101

burst_overwrites :
    (burst.0 ≡ ok tt)
    × (recent 2 four_put "pose" ≡ some (52 ∷ 53 ∷ []))
    × (column 3 2 2 "pose" burst.1.shared_arrays ≡ some (54 ∷ 53 ∷ []))
unfolding burst put write_all lookup modify column window
burst_overwrites = (refl, refl, refl)

put-IsValid_example : IsValid (put cast four_put item false 40 41).1
put-IsValid_example = put-IsValid cast four_put item false 40 41 four_put-IsValid (omega arith)

find_pose : lookup "pose" four_put.shared_arrays ≡ some poses
unfolding lookup
find_pose = refl

put_shifts_example :
    (old : ℕ) × (get_elem? poses.cells (4 % 3) ≡ some old)
    × (recent 3 (put cast four_put item false 40 41).1 "pose"
        ≡ Option.map (λ xs. xs ++ new_cell cast "pose" 0 old item ∷ []) (recent 2 four_put "pose"))
put_shifts_example =
    put_shifts cast four_put item false 40 41 2 four_put-IsValid (omega arith) (omega arith)
      (omega arith) put_quick "pose" {a = poses} find_pose

get_last_k-recent_example :
    (items : Columns ℕ) × (get_last_k 2 four_put 50 55 ≡ ok items)
    × ((key : String) → lookup key items ≡ recent 2 four_put key)
get_last_k-recent_example =
    get_last_k-recent four_put 50 55 2 four_put-IsValid (omega arith) (omega arith) (omega arith)

get_all-recent_example :
    (items : Columns ℕ) × (get_all four_put 50 55 ≡ ok items)
    × ((key : String) → lookup key items ≡ recent (min 4 2) four_put key)
get_all-recent_example = get_all-recent four_put 50 55 four_put-IsValid (omega arith)

get_last_k_fails_example :
    ((2 < 3) ⊎ (4 < 3) → get_last_k 3 four_put 50 55 ≡ err assertion_error)
    × (3 ≤ 2 → 3 ≤ 4 → 50 + 5 < 55 → get_last_k 3 four_put 50 55 ≡ err timeout_error)
get_last_k_fails_example = get_last_k_fails four_put 50 55 3

stamp_of :
    (j s : ℕ)
    → (j < 4) × (4 ≤ j + 3)
    → get_elem? four_put.timestamps (j % 3) ≡ some (some s)
    → s ≡ 10 * j
stamp_of zero s held e = absurd (omega arith)
stamp_of (suc zero) s held e = ground arith
stamp_of (suc (suc zero)) s held e = ground arith
stamp_of (suc (suc (suc zero))) s held e = ground arith
stamp_of (suc (suc (suc (suc j)))) s held e = absurd (omega arith)

stamp_at :
    (j : ℕ)
    → (j < 4) × (4 ≤ j + 3)
    → (s : ℕ) × (get_elem? four_put.timestamps (j % 3) ≡ some (some s))
stamp_at zero held = absurd (omega arith)
stamp_at (suc zero) held = (10, refl)
stamp_at (suc (suc zero)) held = (20, refl)
stamp_at (suc (suc (suc zero))) held = (30, refl)
stamp_at (suc (suc (suc (suc j)))) held = absurd (omega arith)

four_put-IsTimed : IsTimed four_put 35
four_put-IsTimed = record {
  stamped = stamp_at;
  past = λ j s held at. omega (arith, stamp_of j s held at);
  ordered = λ i j s u le held_i held_j at_i at_j.
      omega (arith, stamp_of i s held_i at_i, stamp_of j u held_j at_j);
}

put_spaced_example : 20 + 5 ≤ 41
put_spaced_example =
    put_spaced cast four_put item 35 40 41 false 1 20 four_put-IsValid four_put-IsTimed
      (omega arith) (omega arith) (λ e. cc) put_quick (omega arith) (omega arith) refl

put-IsTimed_example : IsTimed (put cast four_put item false 40 41).1 41
put-IsTimed_example =
    put-IsTimed cast four_put item 35 40 41 false four_put-IsValid (omega arith) four_put-IsTimed
      (omega arith)
