-- ===== src/Trajectory/Tests.antt =====
-- A straight line between two poses with a `unique` by insertion, and the theorems at it.
use polymetis_franka_teleop.Prelude.{ℕ, ◌≡◌, refl, true, ◌||◌, some, List, [], ◌∷◌, arith}
use polymetis_franka_teleop.Prelude.Tests.{ltb, ◌==◌, if◌then◌else◌}
use polymetis_franka_teleop.Prelude.Result.{ok}
use polymetis_franka_teleop.Trajectory.{
  Trajectory, Numerics, is_strict, same_size, first_time, last_time, keep_between, end_limit,
  limits, last_holds, curr_holds, limits_hold, is_past, has_curr, is_ascending, new_trajectory,
  first_pose, call, call_all, trim, insert_pose, append_pose, schedule_waypoint,
}
use polymetis_franka_teleop.Trajectory.Times.{has_time}
use polymetis_franka_teleop.Trajectory.Schedule.{
  IsUnique, IsValid, Reaches, schedule_waypoint_total,
}

abbrev pub insert_time : ℕ → List ℕ → List ℕ
insert_time t [] = t ∷ []
insert_time t (u ∷ times) =
    let rest = insert_time t times in
    if t == u then u ∷ times else (if ltb t u then t ∷ u ∷ times else u ∷ rest)

abbrev pub sort_times : List ℕ → List ℕ
sort_times [] = []
sort_times (t ∷ times) = insert_time t (sort_times times)

insert_time-strict :
    (t : ℕ) (times : List ℕ) → is_strict times ≡ true → is_strict (insert_time t times) ≡ true
unfolding is_strict
insert_time-strict t [] h = refl
insert_time-strict t (u ∷ []) h = ground arith
insert_time-strict t (u ∷ w ∷ times) h = let rest = insert_time-strict t (w ∷ times) in ground arith

insert_time-has :
    (t u : ℕ) (times : List ℕ) → has_time u (insert_time t times) ≡ (t == u || has_time u times)
unfolding has_time
insert_time-has t u [] = refl
insert_time-has t u (w ∷ times) = let rest = insert_time-has t u times in ground arith

sort_times-strict : (times : List ℕ) → is_strict (sort_times times) ≡ true
unfolding is_strict
sort_times-strict [] = refl
sort_times-strict (t ∷ times) = insert_time-strict t (sort_times times) (sort_times-strict times)

sort_times-has : (times : List ℕ) (u : ℕ) → has_time u (sort_times times) ≡ has_time u times
unfolding has_time
sort_times-has [] u = refl
sort_times-has (t ∷ times) u =
    let here = insert_time-has t u (sort_times times) in
    let rest = sort_times-has times u in ground arith

pub sort_times-IsUnique : IsUnique sort_times
sort_times-IsUnique = record { sorted = sort_times-strict; same = sort_times-has }

-- A pose is a position on a line, which is where the time says; no shortest duration.
abbrev pub line : Numerics ℕ
line = record {
  unique = sort_times;
  interpolate = λ traj t. t;
  min_duration = λ v_pos v_rot a b. 0;
}

abbrev from_10_to_20 : Trajectory ℕ
from_10_to_20 = record { times = 10 ∷ 20 ∷ []; poses = 10 ∷ 20 ∷ [] }

from_10_to_20-IsValid : IsValid from_10_to_20
unfolding same_size is_strict
from_10_to_20-IsValid = record { sized = refl; strict = refl }

ends_at_20 : last_time from_10_to_20.times ≡ ok 20
unfolding last_time
ends_at_20 = refl

scheduled :
    schedule_waypoint line from_10_to_20 7 30 1 1 (some 15) (some 18)
    ≡ ok (record { times = 15 ∷ 18 ∷ 30 ∷ []; poses = 15 ∷ 18 ∷ 7 ∷ [] })
unfolding schedule_waypoint append_pose insert_pose trim call call_all first_pose keep_between
    new_trajectory same_size is_strict is_ascending limits end_limit limits_hold last_holds
    curr_holds is_past has_curr first_time last_time
scheduled = refl

schedule_waypoint_total_example :
    (r : Trajectory ℕ) × (schedule_waypoint line from_10_to_20 7 30 1 1 (some 15) (some 18) ≡ ok r)
    × Reaches line 7 15 30 r
schedule_waypoint_total_example =
    schedule_waypoint_total line from_10_to_20 7 30 1 1 15 (some 18) sort_times-IsUnique
      from_10_to_20-IsValid (omega arith) (omega arith) (omega arith)
