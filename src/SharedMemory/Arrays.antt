-- ===== src/SharedMemory/Arrays.antt =====
-- The dict of shared arrays that a queue and a ring buffer keep, one array for each field of an
-- item, with one cell for each slot. `SharedNDArray.get` is the array itself: `Arrays` is the
-- shared memory, and a method that writes returns the new one.
pub mod Window
pub mod Write
pub mod Read
pub mod Column
use polymetis_franka_teleop.Prelude.{ℕ, ◌-◌, String, ◌≡◌, Option, none, some, List, [], ◌∷◌}
use polymetis_franka_teleop.Prelude.Tests.{ltb, if◌then◌else◌}
use polymetis_franka_teleop.Prelude.Lists.{length, get_elem?, set, take, drop, All}
use polymetis_franka_teleop.Prelude.Result.{Result, ok, err, key_error, index_error}
use polymetis_franka_teleop.Prelude.Dict.{Dict, lookup, modify}

-- An array of `dtype` whose first axis is the slots; a cell is one item of the field.
pub record SharedArray (A D : Type 0) : Type 0 where
  pub dtype : D
  pub cells : List A

abbrev pub Arrays : Type 0 → Type 0 → Type 0
Arrays A D = Dict (SharedArray A D)

-- A value of `Union[np.ndarray, numbers.Number]`.
pub data Value (A N : Type 0) : Type 0 where
  ndarray : A → Value A N
  number : N → Value A N

-- One item, as `get` returns it.
abbrev pub Row : Type 0 → Type 0
Row A = Dict A

-- Several items, as `get_k` returns them: a list for each field.
abbrev pub Columns : Type 0 → Type 0
Columns A = Dict (List A)

-- arr[lo:hi] for lo <= hi
abbrev pub slice {ℓ} : {A : Type ℓ} → ℕ → ℕ → List A → List A
slice lo hi xs = take (hi - lo) (drop lo xs)

-- for key, value in self.shared_arrays.items(): out[key] = arr[idx]
unfoldable pub read_row : {A D : Type 0} → ℕ → Arrays A D → Result (Row A)
read_row idx [] = ok []
read_row idx ((k, a) ∷ rest) = elim (get_elem? a.cells idx) [
  | none ↦ err index_error
  | some x ↦ elim (read_row idx rest) [ ok row ↦ ok ((k, x) ∷ row) | err e ↦ err e ]
]

-- `np_array n d` is `np.array(n, dtype=d)`. An array in a message is one of the type and the shape of
-- its field, so that the assignment to a slot neither casts, broadcasts nor raises.
module _ {A N D : Type 0} (np_array : N → D → A) where
  unfoldable pub as_cell : D → Value A N → A
  as_cell d (ndarray x) = x
  as_cell d (number n) = np_array n d

  -- arr[idx] = value
  unfoldable pub write_cell : ℕ → Value A N → SharedArray A D → SharedArray A D
  unfolding as_cell
  write_cell idx v a = record a { cells = set a.cells idx (as_cell a.dtype v) }

  -- for key, value in data.items(): self.shared_arrays[key].get()[idx] = value
  -- An unknown key stops the loop, and what it has written stays.
  unfoldable pub write_all : ℕ → Dict (Value A N) → Arrays A D → Result (Unit {0}) × Arrays A D
  unfolding write_cell
  write_all idx [] arrs = (ok tt, arrs)
  write_all idx ((k, v) ∷ items) arrs =
      let rest = write_all idx items (modify k (write_cell idx v) arrs) in
      elim (lookup k arrs) [
        | none ↦ (err key_error, arrs)
        | some a ↦ if ltb idx (length a.cells) then rest else (err index_error, arrs)
      ]

  -- The loop of `put_next_view`: an array is assumed written already, and a number is written.
  unfoldable pub write_numbers : ℕ → Dict (Value A N) → Arrays A D → Result (Unit {0}) × Arrays A D
  unfolding write_cell
  write_numbers idx [] arrs = (ok tt, arrs)
  write_numbers idx ((k, ndarray x) ∷ items) arrs =
      let rest = write_numbers idx items arrs in
      elim (lookup k arrs) [ none ↦ (err key_error, arrs) | some a ↦ rest ]
  write_numbers idx ((k, number n) ∷ items) arrs =
      let rest = write_numbers idx items (modify k (write_cell idx (number n)) arrs) in
      elim (lookup k arrs) [
        | none ↦ (err key_error, arrs)
        | some a ↦ if ltb idx (length a.cells) then rest else (err index_error, arrs)
      ]
