-- ===== src/SharedMemory/Arrays/Write.antt =====
-- What the write loops leave in the arrays: at the slot, and elsewhere.
use mathlib.Core.Option
use text.Mathlib.Text.{◌==◌}
use polymetis_franka_teleop.Prelude.{
  ℕ, ◌+◌, ◌%◌, ◌≤◌, ◌<◌, String, ◌≡◌, ◌≢◌, refl, ap, sym, ◌∙◌, inl, inr, Bool, true, false, Option,
  none, some, List, [], ◌∷◌, arith,
}
use polymetis_franka_teleop.Prelude.Tests.{if◌then◌else◌, Bool-cases}
use polymetis_franka_teleop.Prelude.Lists.{
  length, get_elem?, All, length-set, get_elem?-set_self, lt_of_get_elem?,
}
use polymetis_franka_teleop.Prelude.Result.{ok, err, full}
use polymetis_franka_teleop.Prelude.Dict.{Dict, lookup, modify, lookup-modify}
use polymetis_franka_teleop.SharedMemory.Arrays.{
  SharedArray, Arrays, Value, as_cell, write_cell, write_all,
}
use polymetis_franka_teleop.SharedMemory.Arrays.Window.{window, window-set}

-- Every array has a cell for each of `b` slots.
abbrev pub IsSized : {A D : Type 0} → ℕ → Arrays A D → Type 0
IsSized b arrs = All (λ e. length e.1.cells ≡ b) arrs

-- The items of one field with `n` counts from `j` on.
unfoldable pub column : {A D : Type 0} → ℕ → ℕ → ℕ → String → Arrays A D → Option (List A)
column {A} {D} b j n key arrs =
    Option.map (λ (a : SharedArray A D). window a.cells b j n) (lookup key arrs)

module _ {A D : Type 0} where
  pub lookup-IsSized :
      (b : ℕ) (key : String) (arrs : Arrays A D) {a : SharedArray A D}
      → IsSized b arrs
      → lookup key arrs ≡ some a
      → length a.cells ≡ b
  unfolding lookup
  lookup-IsSized b key [] sized h = cc
  lookup-IsSized b key ((k, c) ∷ arrs) {a} sized h =
      ground (arith, lookup-IsSized b key arrs {a = a})

  modify-IsSized :
      (b : ℕ) (key : String) (f : SharedArray A D → SharedArray A D) (arrs : Arrays A D)
      → ((a : SharedArray A D) → length (f a).cells ≡ length a.cells)
      → IsSized b arrs
      → IsSized b (modify key f arrs)
  unfolding modify
  modify-IsSized b key f [] same sized = tt
  modify-IsSized b key f ((k, c) ∷ arrs) same sized = elim (Bool-cases (k == key)) [
    | inl e ↦ rw e (same c ∙ sized.0, sized.1)
    | inr e ↦ rw e (sized.0, modify-IsSized b key f arrs same sized.1)
  ]

-- The items of a field after all the writes to it, in their order.
module _ {A N D : Type 0} (np_array : N → D → A) where
  length-write_cell :
      (idx : ℕ) (v : Value A N) (a : SharedArray A D)
      → length (write_cell np_array idx v a).cells ≡ length a.cells
  unfolding write_cell
  length-write_cell idx v a = length-set a.cells idx (as_cell np_array a.dtype v)

  -- What a field of the slot holds after the loop, where it held `old`.
  unfoldable pub new_cell : String → D → A → Dict (Value A N) → A
  new_cell key d old [] = old
  new_cell key d old ((k, v) ∷ items) =
      new_cell key d (if k == key then as_cell np_array d v else old) items

  pub write_all-IsSized :
      (b idx : ℕ) (items : Dict (Value A N)) (arrs : Arrays A D)
      → IsSized b arrs
      → IsSized b (write_all np_array idx items arrs).1
  unfolding write_all
  write_all-IsSized b idx [] arrs sized = sized
  write_all-IsSized b idx ((k, v) ∷ items) arrs sized = ground (
    arith,
    write_all-IsSized b idx items (modify k (write_cell np_array idx v) arrs)
        (modify-IsSized b k (write_cell np_array idx v) arrs (length-write_cell idx v) sized),
  )

  modify-window :
      (b j n w : ℕ) (key k : String) (v : Value A N) (arrs : Arrays A D)
      → j + n ≤ w
      → w < j + b
      → column b j n key (modify k (write_cell np_array (w % b) v) arrs) ≡ column b j n key arrs
  unfolding write_cell column
  modify-window b j n w key k v arrs h l = rw lookup-modify (split (k == key) (lookup key arrs))
    where
      split :
          (same : Bool) (o : Option (SharedArray A D))
          → Option.map
              (λ (a : SharedArray A D). window a.cells b j n)
              (if same then Option.map (write_cell np_array (w % b) v) o else o)
            ≡ Option.map (λ (a : SharedArray A D). window a.cells b j n) o
      split true none = refl
      split true (some a) = ap some (window-set a.cells b j n w (as_cell np_array a.dtype v) h l)
      split false o = refl

  -- Whatever the outcome, a window that does not hold the slot stays as it was.
  pub write_all-window :
      (b j n w : ℕ) (key : String) (items : Dict (Value A N)) (arrs : Arrays A D)
      → j + n ≤ w
      → w < j + b
      → column b j n key (write_all np_array (w % b) items arrs).1 ≡ column b j n key arrs
  unfolding write_all
  write_all-window b j n w key [] arrs h k = refl
  write_all-window b j n w key ((i, v) ∷ items) arrs h k = ground (
    arith,
    write_all-window b j n w key items (modify i (write_cell np_array (w % b) v) arrs) h k,
    modify-window b j n w key i v arrs h k,
  )

  -- The loop raises no `Full` of its own.
  pub write_all-ne-full :
      (idx : ℕ) (items : Dict (Value A N)) (arrs : Arrays A D)
      → (write_all np_array idx items arrs).0 ≢ err full
  unfolding write_all
  write_all-ne-full idx [] arrs = ground arith
  write_all-ne-full idx ((i, v) ∷ items) arrs =
      ground (arith, write_all-ne-full idx items (modify i (write_cell np_array idx v) arrs))

  write_all-step :
      (idx : ℕ) (i : String) (v : Value A N) (items : Dict (Value A N)) (arrs : Arrays A D)
      → (write_all np_array idx ((i, v) ∷ items) arrs).0 ≡ ok tt
      → write_all np_array idx ((i, v) ∷ items) arrs
        ≡ write_all np_array idx items (modify i (write_cell np_array idx v) arrs)
  unfolding write_all
  write_all-step idx i v items arrs r = ground arith

  -- A field of the slot after a loop that wrote every item.
  pub write_all-slot :
      (idx : ℕ) (key : String) (items : Dict (Value A N)) (arrs : Arrays A D) {a : SharedArray A D}
      {old : A}
      → (write_all np_array idx items arrs).0 ≡ ok tt
      → lookup key arrs ≡ some a
      → get_elem? a.cells idx ≡ some old
      → (c : SharedArray A D) × (lookup key (write_all np_array idx items arrs).1 ≡ some c)
        × (get_elem? c.cells idx ≡ some (new_cell key a.dtype old items))
  unfolding new_cell write_cell
  write_all-slot idx key [] arrs {a} {old} r h g = (a, unfold write_all in h, g)
  write_all-slot idx key ((i, v) ∷ items) arrs {a} {old} r h g =
      let step = write_all-step idx i v items arrs r in
      elim (Bool-cases (i == key)) [
        | inl e ↦
            rw (step, e)
              (write_all-slot idx key items (modify i (write_cell np_array idx v) arrs)
                {a = write_cell np_array idx v a} {old = as_cell np_array a.dtype v}
                (ap (λ t. t.0) (sym step) ∙ r) (rw (lookup-modify, e, h))
                (get_elem?-set_self a.cells idx (as_cell np_array a.dtype v)
                  (lt_of_get_elem? a.cells idx g)))
        | inr e ↦
            rw (step, e)
              (write_all-slot idx key items (modify i (write_cell np_array idx v) arrs) {a = a}
                {old = old} (ap (λ t. t.0) (sym step) ∙ r) (rw (lookup-modify, e, h)) g)
      ]
