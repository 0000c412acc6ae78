-- ===== src/Accumulator/Windows/Tests.antt =====
-- Puts of actions; rows are numbers, and the window of a time is the time divided by ten.
use polymetis_franka_teleop.Prelude.{
  ℕ, zero, suc, ◌-◌, ◌/◌, ◌<◌, ◌≡◌, refl, ◌∙◌, none, some, List, [], ◌∷◌, ◌++◌, arith,
}
use polymetis_franka_teleop.Prelude.Lists.{
  length, get_elem?, take, replicate, length-take, length-append, length-replicate,
}
use polymetis_franka_teleop.Prelude.Int.{ℤ, pos}
use polymetis_franka_teleop.Accumulator.Windows.{
  Arrays, Accumulated, new_accumulated, actions, window_times, window_starts, put,
}
use polymetis_franka_teleop.Accumulator.Windows.Puts.{
  IsArrays, IsSized, IsPut, length_of, IsEven, put-IsPut, get_elem?-take,
}
use polymetis_franka_teleop.Accumulator.Windows.Grid.{put_each, put_each-IsGrid}

abbrev np : Arrays ℕ
np = record { zero_row = 0; np_resize = λ xs n. take n (xs ++ replicate (n - length xs) 0) }

get_elem?-before :
    (xs ys : List ℕ) (i : ℕ) → i < length xs → get_elem? (xs ++ ys) i ≡ get_elem? xs i
get_elem?-before [] ys i h = absurd (omega arith)
get_elem?-before (x ∷ xs) ys zero h = refl
get_elem?-before (x ∷ xs) ys (suc i) h = get_elem?-before xs ys i (omega arith)

np-IsArrays : IsArrays np
np-IsArrays = record {
  resized = λ xs n.
      let pad = length-replicate {A = ℕ} (n - length xs) 0 in
      let long = length-append xs (replicate (n - length xs) 0) in
      omega (arith, length-take n (xs ++ replicate (n - length xs) 0), pad, long);
  kept = λ xs n i fits below.
      get_elem?-take n i (xs ++ replicate (n - length xs) 0) (omega arith)
      ∙ get_elem?-before xs (replicate (n - length xs) 0) i below;
}

abbrev window_of : ℕ → ℤ
window_of t = pos (t / 10)

-- Two rows count.
abbrev two : Accumulated ℕ ℕ
two = record {
  buffers = some (record { action_buffer = 5 ∷ 6 ∷ []; timestamp_buffer = 1 ∷ 11 ∷ [] });
  size = 2;
}

two-IsSized : IsSized two
unfolding length_of IsEven
two-IsSized = record { fit = omega arith; even = refl }

put-IsPut_example :
    ((put np np window_of (9 ∷ []) (32 ∷ []) two).1 ≡ none)
    × IsPut 3 9 32 two (put np np window_of (9 ∷ []) (32 ∷ []) two).0
put-IsPut_example = put-IsPut np np np-IsArrays np-IsArrays window_of 9 32 3 two refl two-IsSized

put_each-IsGrid_example :
    (actions (put_each np np window_of ((5, 1) ∷ (6, 12) ∷ (7, 20) ∷ []) new_accumulated)
      ≡ 5 ∷ 6 ∷ 7 ∷ [])
    × (window_starts 100 10
          (put_each np np window_of ((5, 1) ∷ (6, 12) ∷ (7, 20) ∷ []) new_accumulated)
        ≡ window_times 100 10 0 3)
put_each-IsGrid_example =
    put_each-IsGrid np np window_of np-IsArrays np-IsArrays 100 10 ((5, 1) ∷ (6, 12) ∷ (7, 20) ∷ [])
      (refl, (refl, (refl, tt)))
