-- ===== src/Accumulator/Idxs/Align.antt =====
-- `align_timestamps` on a run of windows.
use polymetis_franka_teleop.Prelude.{
  ℕ, zero, suc, ◌+◌, ◌-◌, ◌<◌, ◌≡◌, refl, ap, sym, ◌∙◌, true, some, List, [], ◌∷◌, ◌++◌, min, arith,
}
use polymetis_franka_teleop.Prelude.Lists.{length, replicate, take, get_last?}
use polymetis_franka_teleop.Prelude.Int.{ℤ, pos, ◌+ℤ◌, int_laws}
use polymetis_franka_teleop.Prelude.Result.{ok}
use polymetis_franka_teleop.Accumulator.Idxs.{
  Picked, align_picked, range_ℤ, accumulate_from, same_idxs, align_timestamps,
}
use polymetis_franka_teleop.Accumulator.Idxs.First.{
  length-range_ℤ, range_ℤ-append, accumulate-Covers,
}

take-range_ℤ : (s : ℤ) (k m : ℕ) → take k (range_ℤ s m) ≡ range_ℤ s (min k m)
unfolding range_ℤ
take-range_ℤ s zero m = let e : min 0 m ≡ 0 = omega arith in rw e
take-range_ℤ s (suc k) zero = let e : min (suc k) 0 ≡ 0 = omega arith in rw e
take-range_ℤ s (suc k) (suc m) =
    let e : min (suc k) (suc m) ≡ suc (min k m) = omega arith in
    rw e (ap (λ t. s ∷ t) (take-range_ℤ (s +ℤ pos 1) k m))

get_last?-range_ℤ : (s : ℤ) (n : ℕ) → get_last? (range_ℤ s (suc n)) ≡ some (s +ℤ pos n)
unfolding range_ℤ
get_last?-range_ℤ s zero = ap some (omega int_laws)
get_last?-range_ℤ s (suc n) = get_last?-range_ℤ (s +ℤ pos 1) n ∙ ap some (omega int_laws)

same_idxs_refl : (xs : List ℤ) → same_idxs xs xs ≡ true
unfolding same_idxs
same_idxs_refl [] = refl
same_idxs_refl (x ∷ xs) = ground (arith, same_idxs_refl xs)

-- The picked windows, cut to those that are wanted and padded, are those that are wanted.
padded_lem :
    (s : ℤ) (k m : ℕ)
    → take (suc k) (range_ℤ s (suc m))
        ++ range_ℤ (s +ℤ pos (min k m) +ℤ pos 1) (suc k - suc (min k m))
      ≡ range_ℤ s (suc k)
padded_lem s k m =
    let cut : min (suc k) (suc m) ≡ suc (min k m) = omega arith in
    let next : s +ℤ pos (min k m) +ℤ pos 1 ≡ s +ℤ pos (suc (min k m)) = omega int_laws in
    let sum : suc (min k m) + (suc k - suc (min k m)) ≡ suc k = omega arith in
    rw (take-range_ℤ s (suc k) (suc m), cut, next)
      (sym (range_ℤ-append s (suc (min k m)) (suc k - suc (min k m))) ∙ ap (range_ℤ s) sum)

align_run :
    (n : ℕ) (s : ℤ) (k m : ℕ) (p : Picked)
    → p.global_idxs ≡ range_ℤ s (suc m)
    → align_picked n (range_ℤ s (suc k)) p
      ≡ ok (take (suc k) p.local_idxs ++ replicate (suc k - suc (min k m)) (n - 1))
unfolding align_picked
align_run n s k m p e =
    let cut : min (suc k) (suc m) ≡ suc (min k m) = omega arith in
    let kept : take (suc k) p.global_idxs ≡ range_ℤ s (suc (min k m)) =
      ap (take (suc k)) e ∙ take-range_ℤ s (suc k) (suc m) ∙ ap (range_ℤ s) cut in
    let padded : range_ℤ s (suc (min k m))
          ++ range_ℤ (s +ℤ pos (min k m) +ℤ pos 1) (suc k - suc (min k m))
        ≡ range_ℤ s (suc k) =
      ap (λ t. t ++ range_ℤ (s +ℤ pos (min k m) +ℤ pos 1) (suc k - suc (min k m)))
        (sym (take-range_ℤ s (suc k) (suc m) ∙ ap (range_ℤ s) cut))
      ∙ padded_lem s k m in
    ground (
      arith,
      length-range_ℤ s (suc k),
      kept,
      length-range_ℤ s (suc (min k m)),
      get_last?-range_ℤ s (min k m),
      padded,
      same_idxs_refl (range_ℤ s (suc k)),
    )

module _ {T : Type 0} (window_of : T → ℤ) where
  -- For targets that are a run of windows, and timestamps of which one has reached the first
  -- target: no assertion fails, and the local indices are those that were picked, cut to the
  -- number of targets, or padded to it by the index of the last timestamp.
  pub align_timestamps_total :
      (timestamps : List T) (target : ℤ) (k : ℕ)
      → let picked = accumulate_from window_of true 0 (some target) timestamps in
        0 < length picked.global_idxs
        → align_timestamps window_of timestamps (range_ℤ target (suc k))
          ≡ ok (
              take (suc k) picked.local_idxs
              ++ replicate (suc k - length picked.global_idxs) (length timestamps - 1))
  unfolding align_timestamps range_ℤ
  align_timestamps_total timestamps target k some_found =
      let picked = accumulate_from window_of true 0 (some target) timestamps in
      let covers = accumulate-Covers window_of true 0 target timestamps (λ e. cc) in
      let m = length picked.global_idxs - 1 in
      let count : length picked.global_idxs ≡ suc m = omega arith in
      let rest : suc k - suc (min k m) ≡ suc k - length picked.global_idxs = omega arith in
      align_run (length timestamps) target k m picked (covers.windows ∙ ap (range_ℤ target) count)
      ∙ ap (λ t. ok (take (suc k) picked.local_idxs ++ replicate t (length timestamps - 1))) rest
