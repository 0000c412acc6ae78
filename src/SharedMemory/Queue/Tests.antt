-- ===== src/SharedMemory/Queue/Tests.antt =====
-- Runs of a queue of two slots, and the theorems at them.
use mathlib.Core.Option
use polymetis_franka_teleop.Prelude.{ℕ, ◌+◌, ◌%◌, String, ◌≡◌, refl, some, [], ◌∷◌, ◌++◌, arith}
use polymetis_franka_teleop.Prelude.Result.{ok, err, key_error}
use polymetis_franka_teleop.Prelude.Dict.{Dict, lookup, member, modify}
use polymetis_franka_teleop.Prelude.Lists.{get_elem?}
use polymetis_franka_teleop.SharedMemory.Arrays.{
  SharedArray, Value, Row, Columns, ndarray, number, write_all,
}
use polymetis_franka_teleop.SharedMemory.Arrays.Window.{window}
use polymetis_franka_teleop.SharedMemory.Arrays.Write.{column, new_cell}
use polymetis_franka_teleop.SharedMemory.Arrays.Column.{cons_item, append_items}
use polymetis_franka_teleop.SharedMemory.Queue.{
  Queue, get, get_k, get_view, exit_view, put, allocate, create_from_examples,
}
use polymetis_franka_teleop.SharedMemory.Queue.Fifo.{IsValid, contents}
use polymetis_franka_teleop.SharedMemory.Queue.Bounds.{put-IsValid}
use polymetis_franka_teleop.SharedMemory.Queue.View.{get_view-exit}
use polymetis_franka_teleop.SharedMemory.Queue.Refine.{put_appends, get_takes, get_k_takes}

-- `np.array(n, dtype)` for a dtype that is a modulus
abbrev cast : ℕ → ℕ → ℕ
cast n d = n + d

-- one item, at count 1, with `repeat` 4; the next put goes to slot 0
abbrev one_item : Queue ℕ ℕ
one_item = record {
  buffer_size = 2;
  shared_arrays =
      ("img", record { dtype = 0; cells = 5 ∷ 6 ∷ [] })
      ∷ ("repeat", record { dtype = 0; cells = 3 ∷ 4 ∷ [] })
      ∷ [];
  write_counter = 2;
  read_counter = 1;
}

abbrev two_items : Queue ℕ ℕ
two_items = record one_item { read_counter = 0 }

abbrev frame : Dict (Value ℕ ℕ)
frame = ("img", ndarray 9) ∷ ("repeat", number 1) ∷ []

one_item-IsValid : IsValid one_item
one_item-IsValid = omega arith

two_items-IsValid : IsValid two_items
two_items-IsValid = omega arith

abbrev repeat_array : SharedArray ℕ ℕ
repeat_array = record { dtype = 0; cells = 3 ∷ 4 ∷ [] }

-- A message that leaves a field out gets what the slot held before.
put_stale : contents (put cast one_item (("img", ndarray 9) ∷ [])).1 "repeat" ≡ some (4 ∷ 3 ∷ [])
unfolding put column lookup write_all modify window
put_stale = refl

put-frame : (put cast one_item frame).0 ≡ ok tt
unfolding put write_all lookup modify
put-frame = refl

find_repeat : lookup "repeat" one_item.shared_arrays ≡ some repeat_array
unfolding lookup
find_repeat = refl

put_appends_example :
    (old : ℕ) × (get_elem? repeat_array.cells (2 % 2) ≡ some old)
    × (contents (put cast one_item frame).1 "repeat"
        ≡ Option.map
            (λ xs. xs ++ new_cell cast "repeat" 0 old frame ∷ [])
            (contents one_item "repeat"))
put_appends_example =
    put_appends cast one_item frame one_item-IsValid (omega arith) put-frame "repeat"
      {a = repeat_array} find_repeat

put_bad_field : (put cast one_item (("img", ndarray 9) ∷ ("x", number 1) ∷ [])).0 ≡ err key_error
unfolding put write_all lookup modify
put_bad_field = refl

put-IsValid_example : IsValid (put cast one_item frame).1
put-IsValid_example = put-IsValid cast one_item frame one_item-IsValid (omega arith)

get_takes_example :
    (row : Row ℕ) × ((get two_items).0 ≡ ok row)
    × ((key : String)
        → contents two_items key ≡ cons_item (lookup key row) (contents (get two_items).1 key))
get_takes_example = get_takes two_items two_items-IsValid (omega arith)

get_k_takes_example :
    (items : Columns ℕ) × ((get_k 1 two_items).0 ≡ ok items)
    × ((key : String)
        → contents two_items key
          ≡ append_items (lookup key items) (contents (get_k 1 two_items).1 key))
get_k_takes_example = get_k_takes two_items 1 two_items-IsValid (omega arith) (omega arith)

get_view-exit_example : get two_items ≡ (get_view two_items, exit_view two_items)
get_view-exit_example = get_view-exit two_items two_items-IsValid (omega arith)

abbrev dtype_of : Value ℕ ℕ → ℕ
dtype_of v = 0

abbrev fresh : Queue ℕ ℕ
fresh = record {
  buffer_size = 2;
  shared_arrays =
      ("img", record { dtype = 0; cells = 0 ∷ 0 ∷ [] })
      ∷ ("repeat", record { dtype = 0; cells = 0 ∷ 0 ∷ [] })
      ∷ [];
  write_counter = 0;
  read_counter = 0;
}

create_fresh : create_from_examples (λ d. 0) dtype_of frame 2 ≡ ok fresh
unfolding create_from_examples allocate member
create_fresh = refl
