-- ===== src/SharedMemory/Arrays/Window.antt =====
-- The items of consecutive counts in an array of `b` slots, and the slices that copy them.
use mathlib.Core.Path.{subst, ap₂}
use mathlib.Core.List.{append_assoc, append-nil}
use polymetis_franka_teleop.Prelude.{
  ℕ, zero, suc, ◌+◌, ◌-◌, ◌%◌, ◌≤◌, ◌<◌, ◌≡◌, ◌≢◌, refl, ap, sym, ◌∙◌, Option, none, some, List, [],
  ◌∷◌, ◌++◌, arith,
}
use polymetis_franka_teleop.Prelude.Lists.{get_elem?, set, take, drop, get_elem?-set_ne}
use polymetis_franka_teleop.Prelude.Modular.{mod-ne_of_near, mod-add_below, mod-add_past}

module _ {ℓ} {A : Type ℓ} where
  abbrev pub found : Option A → List A
  found none = []
  found (some x) = x ∷ []

  -- The items with the counts from `j` on, each in the slot of its count.
  unfoldable pub window : List A → ℕ → ℕ → ℕ → List A
  window cells b j zero = []
  window cells b j (suc n) = found (get_elem? cells (j % b)) ++ window cells b (j + 1) n

  take-drop_step :
      (xs : List A) (i n : ℕ)
      → take (suc n) (drop i xs) ≡ found (get_elem? xs i) ++ take n (drop (suc i) xs)
  take-drop_step [] zero zero = refl
  take-drop_step [] zero (suc n) = refl
  take-drop_step [] (suc i) zero = refl
  take-drop_step [] (suc i) (suc n) = refl
  take-drop_step (x ∷ xs) zero n = refl
  take-drop_step (x ∷ xs) (suc i) n = take-drop_step xs i n

  pub window-add :
      (cells : List A) (b j m n : ℕ)
      → window cells b j (m + n) ≡ window cells b j m ++ window cells b (j + m) n
  unfolding window
  window-add cells b j zero n =
      let left : 0 + n ≡ n = omega arith in let right : j + 0 ≡ j = omega arith in rw (left, right)
  window-add cells b j (suc m) n =
      let left : suc m + n ≡ suc (m + n) = omega arith in
      let right : j + suc m ≡ j + 1 + m = omega arith in
      rw (left, right) (simp (window-add cells b (j + 1) m n, append_assoc))

  pub window-one : (cells : List A) (b j : ℕ) → window cells b j 1 ≡ found (get_elem? cells (j % b))
  unfolding window
  window-one cells b j = rw append-nil

  -- A write to the slot of a count that is out of the window is not seen in it.
  pub window-set :
      (cells : List A) (b j n w : ℕ) (v : A)
      → j + n ≤ w
      → w < j + b
      → window (set cells (w % b) v) b j n ≡ window cells b j n
  unfolding window
  window-set cells b j zero w v h k = refl
  window-set cells b j (suc n) w v h k =
      let apart : w % b ≢ j % b = λ e. mod-ne_of_near b j w (omega arith) k (sym e) in
      rw (get_elem?-set_ne cells (w % b) (j % b) v apart) (
        ap (λ t. found (get_elem? cells (j % b)) ++ t)
          (window-set cells b (j + 1) n w v (omega arith) (omega arith)))

  -- A window that does not pass the end of the array is one slice.
  pub window_flat :
      (cells : List A) (b j n i : ℕ)
      → j % b ≡ i
      → i + n ≤ b
      → window cells b j n ≡ take n (drop i cells)
  unfolding window
  window_flat cells b j zero i e h = refl
  window_flat cells b j (suc zero) i e h = rw e (sym (take-drop_step cells i 0))
  window_flat cells b j (suc (suc n)) i e h =
      let next : (j + 1) % b ≡ suc i = omega (arith, mod-add_below b j 1 (omega arith)) in
      rw (e, take-drop_step cells i (suc n))
        (ap (λ t. found (get_elem? cells i) ++ t)
          (window_flat cells b (j + 1) (suc n) (suc i) next (omega arith)))

  -- One that passes the end is a slice up to the end and a slice from the start.
  pub window_wrapped :
      (cells : List A) (b j n i : ℕ)
      → j % b ≡ i
      → i < b
      → b ≤ i + n
      → n ≤ b
      → window cells b j n ≡ take (b - i) (drop i cells) ++ take (i + n - b) cells
  window_wrapped cells b j n i e h k l =
      let parts : n ≡ b - i + (i + n - b) = omega arith in
      let start : (j + (b - i)) % b ≡ 0 =
        omega (arith, mod-add_past b j (b - i) (omega arith) (omega arith)) in
      subst (λ t. window cells b j t ≡ take (b - i) (drop i cells) ++ take (i + n - b) cells)
        (sym parts)
        (window-add cells b j (b - i) (i + n - b)
          ∙ ap₂ ◌++◌ (window_flat cells b j (b - i) i e (omega arith))
              (window_flat cells b (j + (b - i)) (i + n - b) 0 start (omega arith)))
