-- ===== src/Accumulator/Samples/Tests.antt =====
-- Two reads of a controller's ring buffer that overlap.
use polymetis_franka_teleop.Prelude.{ℕ, refl, List, [], ◌∷◌, arith}
use polymetis_franka_teleop.Prelude.Dict.{Dict, lookup}
use polymetis_franka_teleop.Trajectory.{is_strict}
use polymetis_franka_teleop.Accumulator.Samples.{or_empty, get_or_empty, new_samples, put}
use polymetis_franka_teleop.Accumulator.Samples.Ascend.{IsAligned, Succeeds, put-Succeeds}

abbrev read : Dict (List ℕ)
read = ("robot0_joint_pos", 7 ∷ 8 ∷ 9 ∷ []) ∷ ("robot0_joint_vel", 1 ∷ 2 ∷ 3 ∷ []) ∷ []

new_samples-IsAligned : IsAligned (new_samples {A = ℕ})
unfolding new_samples get_or_empty or_empty lookup is_strict
new_samples-IsAligned = record {
  ascending = λ key. refl;
  aligned = λ key. refl;
  filled = λ key e. cc;
}

once-IsAligned : Succeeds (put read (10 ∷ 20 ∷ 30 ∷ []) new_samples)
once-IsAligned =
    put-Succeeds read (10 ∷ 20 ∷ 30 ∷ []) new_samples (omega arith, (omega arith, tt))
      new_samples-IsAligned

put-Succeeds_example :
    Succeeds (put read (20 ∷ 30 ∷ 40 ∷ []) (put read (10 ∷ 20 ∷ 30 ∷ []) new_samples).0)
put-Succeeds_example =
    put-Succeeds read (20 ∷ 30 ∷ 40 ∷ []) (put read (10 ∷ 20 ∷ 30 ∷ []) new_samples).0
      (omega arith, (omega arith, tt)) (once-IsAligned.1)
