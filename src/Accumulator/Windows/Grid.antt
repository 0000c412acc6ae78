-- ===== src/Accumulator/Windows/Grid.antt =====
-- One action for each window in turn, as the loops that record put them.
use mathlib.Core.List.{append_assoc, append-nil}
use polymetis_franka_teleop.Prelude.{
  ℕ, zero, suc, ◌+◌, ◌<◌, ◌≤◌, ◌≡◌, refl, sym, ap, ◌∙◌, Option, none, some, List, [], ◌∷◌, ◌++◌,
  map, arith,
}
use polymetis_franka_teleop.Prelude.Lists.{length, get_elem?, length-take}
use polymetis_franka_teleop.Prelude.Int.{ℤ, pos}
use polymetis_franka_teleop.Accumulator.Windows.{
  Buffers, Arrays, Accumulated, new_accumulated, first_actions, actions, window_times,
  window_starts, times_of, put,
}
use polymetis_franka_teleop.Accumulator.Windows.Puts.{
  IsArrays, length_of, IsEven, IsSized, IsPut, put-IsPut,
}

-- A list that has one more row, and the rows of another before it.
snoc_of_rows :
    {X : Type 0} (xs ys : List X) (a : X)
    → length xs ≡ length ys + 1
    → get_elem? xs (length ys) ≡ some a
    → ((i : ℕ) → i < length ys → get_elem? xs i ≡ get_elem? ys i)
    → xs ≡ ys ++ a ∷ []
snoc_of_rows [] ys a h last same = absurd (omega arith)
snoc_of_rows (x ∷ []) [] a h last same = cc
snoc_of_rows (x ∷ z ∷ xs) [] a h last same = absurd (omega arith)
snoc_of_rows (x ∷ xs) (y ∷ ys) a h last same =
    let first : some x ≡ some y = same 0 (omega arith) in
    let rest = snoc_of_rows xs ys a (omega arith) last (λ i below. same (suc i) (omega arith)) in cc

first_actions-length :
    {T A : Type 0} (n : ℕ) (buffers : Option (Buffers T A))
    → n ≤ length_of buffers
    → IsEven buffers
    → length (first_actions n buffers) ≡ n
unfolding first_actions length_of IsEven
first_actions-length n none h even = omega arith
first_actions-length n (some b) h even = omega (arith, length-take n b.action_buffer)

times_of-sized :
    {T A : Type 0} (start_time dt n : ℕ) (buffers : Option (Buffers T A))
    → n ≤ length_of buffers
    → times_of start_time dt n buffers ≡ window_times start_time dt 0 n
unfolding times_of length_of window_times
times_of-sized start_time dt zero none h = refl
times_of-sized start_time dt (suc n) none h = absurd (omega arith)
times_of-sized start_time dt n (some b) h = refl

module _ {T A : Type 0} (np : Arrays A) (tp : Arrays T) (window_of : T → ℤ) where
  -- One put after the other.
  unfoldable pub put_each : List (A × T) → Accumulated T A → Accumulated T A
  put_each [] s = s
  put_each ((a, t) ∷ rows) s = put_each rows (put np tp window_of (a ∷ []) (t ∷ []) s).0

  -- The times lie in the windows from `n` on, one in each.
  abbrev pub IsGrid : ℕ → List (A × T) → Type 0
  IsGrid n [] = Unit
  IsGrid n ((a, t) ∷ rows) = (window_of t ≡ pos n) × IsGrid (n + 1) rows

  module _ (np_is : IsArrays np) (tp_is : IsArrays tp) where
    actions-put :
        (a : A) (t : T) (s : Accumulated T A)
        → window_of t ≡ pos s.size
        → IsSized s
        → IsPut s.size a t s (put np tp window_of (a ∷ []) (t ∷ []) s).0
        → actions (put np tp window_of (a ∷ []) (t ∷ []) s).0 ≡ actions s ++ a ∷ []
    unfolding actions
    actions-put a t s h sized is_put =
        let after = (put np tp window_of (a ∷ []) (t ∷ []) s).0 in
        let old = first_actions-length s.size s.buffers sized.fit sized.even in
        let new =
          first_actions-length after.size after.buffers is_put.sized.fit is_put.sized.even in
        let size = is_put.size in
        snoc_of_rows (actions after) (actions s) a (omega (arith, old, new, size))
          (ap (λ n. get_elem? (actions after) n) old ∙ is_put.action)
          (λ i below. is_put.others i (omega (arith, old)) (λ e. omega (arith, old)))

    put_each-grid :
        (rows : List (A × T)) (s : Accumulated T A)
        → IsSized s
        → IsGrid s.size rows
        → IsSized (put_each rows s)
          × ((put_each rows s).size ≡ s.size + length rows)
          × (actions (put_each rows s) ≡ actions s ++ map (λ r. r.0) rows)
    unfolding put_each
    put_each-grid [] s sized grid = (sized, omega arith, sym (append-nil (actions s)))
    put_each-grid ((a, t) ∷ rows) s sized (here, grid) =
        let once = put-IsPut np tp np_is tp_is window_of a t s.size s here sized in
        let after = (put np tp window_of (a ∷ []) (t ∷ []) s).0 in
        let grown : after.size ≡ s.size + 1 = once.1.size ∙ omega arith in
        let added = actions-put a t s here sized once.1 in
        let rest = put_each-grid rows after once.1.sized (rw grown grid) in
        (
          rest.0,
          omega (arith, rest.1, grown),
          rest.2
              ∙ ap (λ l. l ++ map (λ r. r.0) rows) added
              ∙ append_assoc (actions s) (a ∷ []) (map (λ r. r.0) rows),
        )

    -- When numpy's resize behaves as documented and actions are put into a new accumulator one by
    -- one, with times in the windows 0, 1, 2 and so on: `actions` are these actions in their order,
    -- and `timestamps` the starts of as many windows.
    pub put_each-IsGrid :
        (start_time dt : ℕ) (rows : List (A × T))
        → IsGrid 0 rows
        → (actions (put_each rows new_accumulated) ≡ map (λ r. r.0) rows)
          × (window_starts start_time dt (put_each rows new_accumulated)
              ≡ window_times start_time dt 0 (length rows))
    unfolding new_accumulated window_starts actions first_actions length_of IsEven
    put_each-IsGrid start_time dt rows grid =
        let fresh : IsSized (new_accumulated {T = T} {A = A}) = record {
          fit = omega arith;
          even = tt;
        } in
        let all = put_each-grid rows new_accumulated fresh grid in
        let size : (put_each rows new_accumulated).size ≡ length rows = omega (arith, all.1) in
        (
          all.2,
          times_of-sized start_time dt _ (put_each rows new_accumulated).buffers all.0.fit
              ∙ ap (window_times start_time dt 0) size,
        )
