-- ===== src/SharedMemory/Arrays/Column.antt =====
-- The items of one field, taken apart and put together.
use mathlib.Core.Option
use polymetis_franka_teleop.Prelude.{
  ℕ, suc, ◌+◌, ◌%◌, ◌<◌, String, ◌≡◌, ap, inl, inr, Option, none, some, List, [], ◌∷◌, ◌++◌, arith,
}
use polymetis_franka_teleop.Prelude.Tests.{Option-cases}
use polymetis_franka_teleop.Prelude.Lists.{get_elem?, get_elem?_total}
use polymetis_franka_teleop.Prelude.Dict.{lookup}
use polymetis_franka_teleop.SharedMemory.Arrays.{SharedArray, Arrays}
use polymetis_franka_teleop.SharedMemory.Arrays.Window.{window, window-add, window-one}
use polymetis_franka_teleop.SharedMemory.Arrays.Write.{IsSized, column, lookup-IsSized}
use polymetis_franka_teleop.SharedMemory.Arrays.Read.{item_at}

-- One more item at the front of a field; the first list holds what comes before the second.
abbrev pub cons_item : {A : Type 0} → Option A → Option (List A) → Option (List A)
cons_item none _ = none
cons_item (some x) none = none
cons_item (some x) (some xs) = some (x ∷ xs)

abbrev pub append_items : {A : Type 0} → Option (List A) → Option (List A) → Option (List A)
append_items none _ = none
append_items (some xs) none = none
append_items (some xs) (some ys) = some (xs ++ ys)

module _ {A D : Type 0} (b r : ℕ) (key : String) (arrs : Arrays A D) where
  pub column-append :
      (k n : ℕ)
      → column b r (k + n) key arrs
        ≡ append_items (column b r k key arrs) (column b (r + k) n key arrs)
  unfolding column
  column-append k n = elim (Option-cases (lookup key arrs)) [
    | inl e ↦ rw e
    | inr (a, e) ↦ rw e (ap some (window-add a.cells b r k n))
  ]

  pub column_snoc :
      (n : ℕ) {c : SharedArray A D} {x : A}
      → lookup key arrs ≡ some c
      → get_elem? c.cells ((r + n) % b) ≡ some x
      → column b r (n + 1) key arrs ≡ Option.map (λ xs. xs ++ x ∷ []) (column b r n key arrs)
  unfolding column
  column_snoc n {c} {x} there slot =
      rw there (ap some (rw (window-add c.cells b r n 1, window-one c.cells b (r + n), slot)))

  pub column_cons :
      (n : ℕ)
      → IsSized b arrs
      → r % b < b
      → column b r (suc n) key arrs
        ≡ cons_item (item_at (r % b) key arrs) (column b (r + 1) n key arrs)
  unfolding column item_at window
  column_cons n sized h = elim (Option-cases (lookup key arrs)) [
    | inl e ↦ ground (arith, e)
    | inr (a, e) ↦
        let slot =
          get_elem?_total a.cells (r % b) (omega (arith, lookup-IsSized b key arrs sized e)) in
        ground (arith, e, slot.1)
  ]
