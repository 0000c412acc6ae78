-- ===== src/Accumulator/Idxs.antt =====
-- `get_accumulate_timestamp_idxs` and `align_timestamps`. `window_of ts` is
-- `math.floor((ts - start_time) / dt + eps)`, the window that a timestamp falls in, which the
-- code computes on floats.
pub mod First
pub mod Align
mod Tests
use polymetis_franka_teleop.Prelude.{
  ℕ, zero, suc, ◌+◌, ◌-◌, ◌≡◌, Bool, true, false, not, ◌&&◌, Option, none, some, List, [], ◌∷◌,
  ◌++◌,
}
use polymetis_franka_teleop.Prelude.Tests.{ltb, ◌==◌, if◌then◌else◌}
use polymetis_franka_teleop.Prelude.Lists.{length, replicate, take, get_last?}
use polymetis_franka_teleop.Prelude.Int.{ℤ, pos, pos_part, neg_part, ◌+ℤ◌, ◌-ℤ◌, ltb_ℤ}
use polymetis_franka_teleop.Prelude.Result.{Result, ok, err, index_error, assertion_error}

-- The tuple that the function returns; `next_global_idx` is None until a timestamp was taken.
pub record Picked : Type 0 where
  pub local_idxs : List ℕ
  pub global_idxs : List ℤ
  pub next_global_idx : Option ℤ

-- [start + i for i in range(n)]
unfoldable pub range_ℤ : ℤ → ℕ → List ℤ
range_ℤ start zero = []
range_ℤ start (suc n) = start ∷ range_ℤ (start +ℤ pos 1) n

-- max(0, global_idx - next_global_idx + 1)
unfoldable pub n_repeats : ℤ → ℤ → ℕ
n_repeats global_idx next = pos_part (global_idx -ℤ next +ℤ pos 1)

-- One timestamp that is not skipped, and what the rest of the loop appends.
unfoldable pub append_repeats : ℕ → ℤ → ℕ → Picked → Picked
append_repeats local_idx next n rest = record {
  local_idxs = replicate n local_idx ++ rest.local_idxs;
  global_idxs = range_ℤ next n ++ rest.global_idxs;
  next_global_idx = rest.next_global_idx;
}

unfoldable pub or_first : Option ℤ → ℤ → ℤ
or_first none global_idx = global_idx
or_first (some next) global_idx = next

module _ {T : Type 0} (window_of : T → ℤ) (allow_negative : Bool) where
  -- (not allow_negative) and (global_idx < 0)
  unfoldable pub is_skipped : T → Bool
  is_skipped ts = not allow_negative && ltb_ℤ (window_of ts) (pos 0)

  -- The loop from the index `local_idx` on.
  unfoldable pub accumulate_from : ℕ → Option ℤ → List T → Picked
  accumulate_from local_idx next [] = record {
    local_idxs = [];
    global_idxs = [];
    next_global_idx = next;
  }
  accumulate_from local_idx next (ts ∷ timestamps) = elim (is_skipped ts) [
    | true ↦ accumulate_from (local_idx + 1) next timestamps
    | false ↦
        let start = or_first next (window_of ts) in
        let n = n_repeats (window_of ts) start in
        append_repeats local_idx start n
          (accumulate_from (local_idx + 1) (some (start +ℤ pos n)) timestamps)
  ]

  unfoldable pub get_accumulate_timestamp_idxs : List T → Option ℤ → Picked
  get_accumulate_timestamp_idxs timestamps next = accumulate_from 0 next timestamps

-- `global_idxs == target_global_idxs`
unfoldable pub same_idxs : List ℤ → List ℤ → Bool
same_idxs [] [] = true
same_idxs (a ∷ xs) (b ∷ ys) =
    (pos_part a + neg_part b == pos_part b + neg_part a) && same_idxs xs ys
same_idxs _ _ = false

-- What `align_timestamps` does with the picked indices. With no index to repeat, the code stops in
-- the debugger, and then fails on `global_idxs[-1]`.
unfoldable pub align_picked : ℕ → List ℤ → Picked → Result (List ℕ)
unfolding same_idxs
align_picked n_timestamps target_global_idxs picked =
    let wanted = length target_global_idxs in
    let global_idxs = take wanted picked.global_idxs in
    let local_idxs = take wanted picked.local_idxs in
    let missing = wanted - length global_idxs in
    elim (get_last? global_idxs) [
      | none ↦ err index_error
      | some last ↦
          if same_idxs (global_idxs ++ range_ℤ (last +ℤ pos 1) missing) target_global_idxs
          then ok (local_idxs ++ replicate missing (n_timestamps - 1))
          else err assertion_error
    ]

module _ {T : Type 0} (window_of : T → ℤ) where
  -- `assert len(target_global_idxs) > 0` is the first clause.
  unfoldable pub align_timestamps : List T → List ℤ → Result (List ℕ)
  unfolding align_picked
  align_timestamps timestamps [] = err assertion_error
  align_timestamps timestamps (target ∷ targets) =
      align_picked (length timestamps) (target ∷ targets)
        (accumulate_from window_of true 0 (some target) timestamps)
