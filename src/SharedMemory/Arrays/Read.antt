-- ===== src/SharedMemory/Arrays/Read.antt =====
-- What `read_row` finds in a slot.
use polymetis_franka_teleop.Prelude.{
  ℕ, ◌<◌, String, ◌≡◌, refl, inl, inr, Option, none, some, [], ◌∷◌, arith,
}
use polymetis_franka_teleop.Prelude.Lists.{get_elem?, get_elem?_total}
use polymetis_franka_teleop.Prelude.Result.{ok, Result-cases}
use polymetis_franka_teleop.Prelude.Tests.{Option-cases}
use polymetis_franka_teleop.Prelude.Dict.{lookup}
use polymetis_franka_teleop.SharedMemory.Arrays.{Arrays, Row, read_row}
use polymetis_franka_teleop.SharedMemory.Arrays.Write.{IsSized}

-- The item of a field in a slot.
unfoldable pub item_at : {A D : Type 0} → ℕ → String → Arrays A D → Option A
item_at idx key arrs = elim (lookup key arrs) [ none ↦ none | some a ↦ get_elem? a.cells idx ]

module _ {A D : Type 0} where
  pub read_row-lookup :
      (idx : ℕ) (arrs : Arrays A D) {row : Row A}
      → read_row idx arrs ≡ ok row
      → (key : String) → lookup key row ≡ item_at idx key arrs
  unfolding read_row item_at lookup
  read_row-lookup idx [] h key = ground arith
  read_row-lookup idx ((k, a) ∷ arrs) {row} h key = elim (Option-cases (get_elem? a.cells idx)) [
    | inl none_there ↦ ground arith
    | inr (x, there) ↦ elim (Result-cases (read_row idx arrs)) [
      | inl (row', rest) ↦ ground (arith, read_row-lookup idx arrs rest key)
      | inr (e, fails) ↦ ground arith
    ]
  ]

  -- In a slot that every array has, the read finds each field.
  pub read_row_total :
      (b idx : ℕ) (arrs : Arrays A D)
      → IsSized b arrs
      → idx < b
      → (row : Row A) × (read_row idx arrs ≡ ok row)
  unfolding read_row
  read_row_total b idx [] sized h = ([], refl)
  read_row_total b idx ((k, a) ∷ arrs) sized h =
      let first = get_elem?_total a.cells idx (omega (arith, sized.0)) in
      let rest = read_row_total b idx arrs sized.1 h in
      ((k, first.0) ∷ rest.0, ground (arith, first.1, rest.1))
