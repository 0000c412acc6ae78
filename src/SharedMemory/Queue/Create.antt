-- ===== src/SharedMemory/Queue/Create.antt =====
-- A queue that the constructors return is valid and empty.
use polymetis_franka_teleop.Prelude.{ℕ, ◌≡◌, inl, inr, List, [], ◌∷◌, ◌++◌, arith}
use polymetis_franka_teleop.Prelude.Tests.{Bool-cases}
use polymetis_franka_teleop.Prelude.Lists.{replicate, length-replicate}
use polymetis_franka_teleop.Prelude.Result.{ok, Result-cases}
use polymetis_franka_teleop.Prelude.Dict.{Dict, member}
use polymetis_franka_teleop.SharedMemory.Arrays.{Arrays, Value}
use polymetis_franka_teleop.SharedMemory.Arrays.Write.{IsSized}
use polymetis_franka_teleop.SharedMemory.Queue.{
  Queue, ArraySpec, allocate, specs_of, create_from_examples,
}
use polymetis_franka_teleop.SharedMemory.Queue.Fifo.{IsValid}

IsSized-append :
    {A D : Type 0} (b : ℕ) (xs ys : Arrays A D) → IsSized b xs → IsSized b ys → IsSized b (xs ++ ys)
IsSized-append b [] ys hx hy = hy
IsSized-append b (x ∷ xs) ys hx hy = (hx.0, IsSized-append b xs ys hx.1 hy)

module _ {A D : Type 0} (blank : D → A) where
  allocate-IsSized :
      (size : ℕ) (specs : List (ArraySpec D)) (arrs : Arrays A D) {arrs' : Arrays A D}
      → IsSized size arrs
      → allocate blank size specs arrs ≡ ok arrs'
      → IsSized size arrs'
  unfolding allocate
  allocate-IsSized size [] arrs sized h = ground (arith, sized)
  allocate-IsSized size (s ∷ specs) arrs {arrs'} sized h = elim (Bool-cases (member s.name arrs)) [
    | inl e ↦ ground arith
    | inr e ↦
        allocate-IsSized size specs
          (arrs
            ++ (s.name, record { dtype = s.dtype; cells = replicate size (blank s.dtype) }) ∷ [])
          {arrs' = arrs'}
          (IsSized-append size arrs _ sized (length-replicate size (blank s.dtype), tt))
          (ground arith)
  ]

module _ {A N D : Type 0} (blank : D → A) (dtype_of : Value A N → D) where
  -- A queue that `create_from_examples` returns is valid, of the size asked for, and empty.
  pub create-IsValid :
      (examples : Dict (Value A N)) (size : ℕ) {q : Queue A D}
      → create_from_examples blank dtype_of examples size ≡ ok q
      → IsValid q × (q.buffer_size ≡ size) × (q.read_counter ≡ q.write_counter)
  unfolding create_from_examples
  create-IsValid examples size {q} h =
      elim (Result-cases (allocate blank size (specs_of blank dtype_of examples) [])) [
        | inl (arrs, e) ↦
            ground (arith, allocate-IsSized blank size (specs_of blank dtype_of examples) [] tt e)
        | inr (x, e) ↦ ground arith
      ]
