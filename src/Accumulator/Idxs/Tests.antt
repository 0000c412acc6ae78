-- ===== src/Accumulator/Idxs/Tests.antt =====
-- Timestamps that are their windows, and the theorems at them.
use polymetis_franka_teleop.Prelude.{◌<◌, ◌≡◌, refl, true, false, some, List, [], ◌∷◌, arith}
use polymetis_franka_teleop.Prelude.Lists.{length}
use polymetis_franka_teleop.Prelude.Int.{ℤ, pos, negsuc, ◌+ℤ◌, ◌-ℤ◌}
use polymetis_franka_teleop.Accumulator.Idxs.{
  range_ℤ, n_repeats, append_repeats, or_first, is_skipped, accumulate_from,
  get_accumulate_timestamp_idxs,
}
use polymetis_franka_teleop.Accumulator.Idxs.First.{Covers, get_accumulate_timestamp_idxs-Covers}

-- The window of a timestamp is the timestamp.
abbrev own : ℤ → ℤ
own g = g

-- Before the start, then window 0 twice, then window 3: two frames were dropped.
abbrev stamps : List ℤ
stamps = negsuc 0 ∷ pos 0 ∷ pos 0 ∷ pos 3 ∷ []

picks : get_accumulate_timestamp_idxs own false stamps (some (pos 0)) ≡ record {
  local_idxs = 1 ∷ 3 ∷ 3 ∷ 3 ∷ [];
  global_idxs = pos 0 ∷ pos 1 ∷ pos 2 ∷ pos 3 ∷ [];
  next_global_idx = some (pos 4);
}
unfolding get_accumulate_timestamp_idxs accumulate_from is_skipped or_first n_repeats append_repeats
    range_ℤ ◌+ℤ◌ ◌-ℤ◌
picks = refl

get_accumulate_timestamp_idxs-Covers_example :
    Covers own false 0 stamps
      (pos 0)
      (get_accumulate_timestamp_idxs own false stamps (some (pos 0)))
get_accumulate_timestamp_idxs-Covers_example =
    get_accumulate_timestamp_idxs-Covers own false (pos 0) stamps (λ e. omega arith)

reached : 0 < length (accumulate_from own true 0 (some (pos 2)) stamps).global_idxs
unfolding accumulate_from is_skipped or_first n_repeats append_repeats range_ℤ ◌+ℤ◌ ◌-ℤ◌
reached = omega arith
