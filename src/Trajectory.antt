-- ===== src/Trajectory.antt =====
-- `PoseTrajectoryInterpolator` of common/pose_trajectory_interpolator.py. Times are ticks of the
-- controller's clock, poses are any type, and what numpy and scipy compute is the interface
-- `Numerics`, so that the times and the assertions of the class are what is modelled.
pub mod Times
pub mod Schedule
pub mod Tests
use polymetis_franka_teleop.Prelude.{
  ℕ, ◌+◌, ◌-◌, ◌≤◌, ◌<◌, ◌≡◌, min, max, Bool, true, false, not, ◌&&◌, Option, none, some, List, [],
  ◌∷◌, ◌++◌,
}
use polymetis_franka_teleop.Prelude.Tests.{ltb, leb, ◌==◌, if◌then◌else◌}
use polymetis_franka_teleop.Prelude.Lists.{length, get_last?}
use polymetis_franka_teleop.Prelude.Result.{
  Result, ok, err, assertion_error, value_error, index_error, ◌>>=◌, ensure,
}

pub record Trajectory (P : Type 0) : Type 0 where
  pub times : List ℕ
  pub poses : List P

-- np.all(times[1:] >= times[:-1])
unfoldable pub is_ascending : List ℕ → Bool
is_ascending [] = true
is_ascending (t ∷ []) = true
is_ascending (t ∷ u ∷ times) = leb t u && is_ascending (u ∷ times)

-- What `Slerp` asks of its times.
unfoldable pub is_strict : List ℕ → Bool
is_strict [] = true
is_strict (t ∷ []) = true
is_strict (t ∷ u ∷ times) = ltb t u && is_strict (u ∷ times)

pub record Numerics (P : Type 0) : Type 0 where
  -- np.unique
  pub unique : List ℕ → List ℕ
  -- Position interpolation and Slerp at a time within the trajectory.
  pub interpolate : Trajectory P → ℕ → P
  -- At the given speeds, the longer of distance / speed for the position and for the rotation
  -- between two poses.
  pub min_duration : ℕ → ℕ → P → P → ℕ

module _ {P : Type 0} where
  -- len(times) >= 1 and len(poses) == len(times)
  unfoldable pub same_size : List ℕ → List P → Bool
  same_size times poses = leb 1 (length times) && length poses == length times

  -- `__init__`: its assertions, and the ValueError of `Slerp`.
  unfoldable pub new_trajectory : List ℕ → List P → Result (Trajectory P)
  unfolding is_ascending is_strict same_size
  new_trajectory times poses =
      let made : Trajectory P = record { times = times; poses = poses } in
      if not (same_size times poses)
      then err assertion_error
      else if length times == 1
      then ok made
      else if is_ascending times
      then (if is_strict times then ok made else err value_error)
      else err assertion_error

-- times[0], times[-1]
unfoldable pub first_time : List ℕ → Result ℕ
first_time [] = err index_error
first_time (t ∷ times) = ok t

unfoldable pub last_time : List ℕ → Result ℕ
last_time times = elim (get_last? times) [ none ↦ err index_error | some t ↦ ok t ]

-- self._poses[0]
unfoldable pub first_pose : {P : Type 0} → List P → Result P
first_pose [] = err index_error
first_pose (p ∷ poses) = ok p

-- (start_t < times) & (times < end_t), as a selection
unfoldable pub keep_between : ℕ → ℕ → List ℕ → List ℕ
keep_between start_t end_t [] = []
keep_between start_t end_t (t ∷ times) =
    let rest = keep_between start_t end_t times in
    if ltb start_t t && ltb t end_t then t ∷ rest else rest

-- The limits of the trim that `schedule_waypoint` makes, from the trajectory's first and last time.
pub record Limits : Type 0 where
  pub start_time : ℕ
  pub end_time : ℕ

-- `end_time` with `curr_time` given, before the two last calls of `min`.
unfoldable pub end_limit : ℕ → ℕ → Option ℕ → ℕ
end_limit time curr_time none = curr_time
end_limit time curr_time (some last_waypoint_time) =
    if leb time last_waypoint_time then curr_time else max last_waypoint_time curr_time

unfoldable pub limits : ℕ → ℕ → ℕ → Option ℕ → Option ℕ → Limits
unfolding end_limit
limits first last time none last_waypoint_time =
    let end_time = min last time in record { start_time = min first end_time; end_time = end_time }
limits first last time (some curr_time) last_waypoint_time =
    let end_time = min (end_limit time curr_time last_waypoint_time) time in
    record { start_time = min (max curr_time first) end_time; end_time = end_time }

-- The assertions on the limits, in their order.
unfoldable pub last_holds : Limits → ℕ → Option ℕ → Option ℕ → Bool
last_holds l time none _ = true
last_holds l time (some curr_time) none = true
last_holds l time (some curr_time) (some last_waypoint_time) =
    if leb time last_waypoint_time
    then l.end_time == curr_time
    else l.end_time == max last_waypoint_time curr_time

unfoldable pub curr_holds : Limits → ℕ → Option ℕ → Bool
curr_holds l time none = true
curr_holds l time (some curr_time) = leb curr_time l.start_time && leb curr_time time

unfoldable pub limits_hold : Limits → ℕ → Option ℕ → Option ℕ → Bool
unfolding last_holds curr_holds
limits_hold l time curr_time last_waypoint_time =
    leb l.start_time l.end_time
    && leb l.end_time time
    && last_holds l time curr_time last_waypoint_time
    && curr_holds l time curr_time

-- `time <= curr_time`, which leaves the trajectory as it is.
unfoldable pub is_past : ℕ → Option ℕ → Bool
is_past time none = false
is_past time (some curr_time) = leb time curr_time

-- last_waypoint_time is None or curr_time is not None
unfoldable pub has_curr : Option ℕ → Option ℕ → Bool
has_curr curr_time none = true
has_curr none (some last_waypoint_time) = false
has_curr (some curr_time) (some last_waypoint_time) = true

module _ {P : Type 0} (np : Numerics P) where
  -- `__call__` at one time.
  unfoldable pub call : Trajectory P → ℕ → Result P
  unfolding first_time last_time first_pose
  call traj t = if length traj.times == 1 then first_pose traj.poses else do
    start_time ← first_time traj.times
    end_time ← last_time traj.times
    ok (np.interpolate traj (min (max t start_time) end_time))

  unfoldable pub call_all : Trajectory P → List ℕ → Result (List P)
  unfolding call
  call_all traj [] = ok []
  call_all traj (t ∷ times) = do p ← call traj t; poses ← call_all traj times; ok (p ∷ poses)

  unfoldable pub trim : Trajectory P → ℕ → ℕ → Result (Trajectory P)
  unfolding keep_between call_all new_trajectory
  trim traj start_t end_t = do
    _ ← ensure assertion_error (leb start_t end_t)
    let all_times : List ℕ =
        np.unique (start_t ∷ keep_between start_t end_t traj.times ++ end_t ∷ [])
    all_poses ← call_all traj all_times
    new_trajectory all_times all_poses

  -- The new pose after the trimmed trajectory, at the earliest after the time that the speeds allow.
  unfoldable pub insert_pose : Trajectory P → P → ℕ → Result (Trajectory P)
  unfolding new_trajectory
  insert_pose trimmed pose last_waypoint_time =
      new_trajectory (trimmed.times ++ last_waypoint_time ∷ []) (trimmed.poses ++ pose ∷ [])

  unfoldable pub drive_to_waypoint : Trajectory P → P → ℕ → ℕ → ℕ → ℕ → Result (Trajectory P)
  unfolding call trim insert_pose
  drive_to_waypoint traj pose time curr_time max_pos_speed max_rot_speed = do
    _ ← ensure assertion_error (ltb 0 max_pos_speed)
    _ ← ensure assertion_error (ltb 0 max_rot_speed)
    let target : ℕ = max time curr_time
    curr_pose ← call traj curr_time
    let duration : ℕ =
        max (target - curr_time) (np.min_duration max_pos_speed max_rot_speed curr_pose pose)
    trimmed ← trim traj curr_time curr_time
    insert_pose trimmed pose (curr_time + duration)

  -- The part of `schedule_waypoint` after the limits are known.
  unfoldable pub append_pose : Trajectory P → P → ℕ → ℕ → ℕ → Limits → Result (Trajectory P)
  unfolding call trim insert_pose
  append_pose traj pose time max_pos_speed max_rot_speed l = do
    trimmed ← trim traj l.start_time l.end_time
    end_pose ← call trimmed l.end_time
    let duration : ℕ =
        max (time - l.end_time) (np.min_duration max_pos_speed max_rot_speed pose end_pose)
    insert_pose trimmed pose (l.end_time + duration)

  unfoldable pub schedule_waypoint :
      Trajectory P → P → ℕ → ℕ → ℕ → Option ℕ → Option ℕ → Result (Trajectory P)
  unfolding first_time last_time has_curr is_past limits limits_hold append_pose
  schedule_waypoint traj pose time max_pos_speed max_rot_speed curr_time last_waypoint_time = do
    _ ← ensure assertion_error (ltb 0 max_pos_speed)
    _ ← ensure assertion_error (ltb 0 max_rot_speed)
    _ ← ensure assertion_error (has_curr curr_time last_waypoint_time)
    start_time ← first_time traj.times
    end_time ← last_time traj.times
    _ ← ensure assertion_error (leb start_time end_time)
    let l : Limits = limits start_time end_time time curr_time last_waypoint_time
    if is_past time curr_time then ok traj else do
      _ ← ensure assertion_error (limits_hold l time curr_time last_waypoint_time)
      append_pose traj pose time max_pos_speed max_rot_speed l
