-- ===== src/Trajectory/Schedule.antt =====
-- `trim`, `drive_to_waypoint` and `schedule_waypoint` on trajectories that the class accepts.
use polymetis_franka_teleop.Prelude.{
  ℕ, suc, ◌+◌, ◌-◌, ◌≤◌, ◌<◌, ◌≡◌, refl, sym, ap, ◌∙◌, min, max, inl, inr, true, false, Option,
  none, some, List, [], ◌∷◌, ◌++◌, arith,
}
use polymetis_franka_teleop.Prelude.Tests.{◌==◌, Bool-cases, lt→ltb, le→leb, lt→leb}
use polymetis_franka_teleop.Prelude.Lists.{length, get_last?, All, length-append, get_last?-append}
use polymetis_franka_teleop.Prelude.Result.{ok, err, value_error}
use polymetis_franka_teleop.Trajectory.{
  Trajectory, Numerics, is_strict, same_size, new_trajectory, first_time, last_time, first_pose,
  keep_between, Limits, limits, last_holds, curr_holds, limits_hold, is_past, has_curr, call,
  call_all, trim, insert_pose, append_pose, drive_to_waypoint, schedule_waypoint,
}
use polymetis_franka_teleop.Trajectory.Times.{
  has_time, All-has_time, strict_snoc, strict_ascending, strict_again, strict_last, has_time-length,
  trim_times, limits_hold_lem,
}

-- What the documentation of np.unique says: the sorted, distinct elements of the list.
pub record IsUnique (unique : List ℕ → List ℕ) : Type 0 where
  pub sorted : (times : List ℕ) → is_strict (unique times) ≡ true
  pub same : (times : List ℕ) (u : ℕ) → has_time u (unique times) ≡ has_time u times

-- A trajectory that `__init__` and `Slerp` accept.
pub record IsValid {P : Type 0} (traj : Trajectory P) : Type 0 where
  pub sized : same_size traj.times traj.poses ≡ true
  pub strict : is_strict traj.times ≡ true

module _ {P : Type 0} where
  new_trajectory_ok :
      (times : List ℕ) (poses : List P)
      → same_size times poses ≡ true
      → is_strict times ≡ true
      → new_trajectory times poses ≡ ok (record { times = times; poses = poses })
  unfolding new_trajectory
  new_trajectory_ok times poses h s = let order = strict_ascending times s in ground arith

first_total : (times : List ℕ) → 1 ≤ length times → (t : ℕ) × (first_time times ≡ ok t)
unfolding first_time
first_total [] h = absurd (omega (arith, h))
first_total (t ∷ times) h = (t, refl)

pub last_total : (times : List ℕ) → 1 ≤ length times → (t : ℕ) × (last_time times ≡ ok t)
unfolding last_time
last_total [] h = absurd (omega (arith, h))
last_total (t ∷ []) h = (t, refl)
last_total (t ∷ u ∷ times) h = last_total (u ∷ times) (omega arith)

first_pose_total :
    {P : Type 0} (poses : List P) → 1 ≤ length poses → (p : P) × (first_pose poses ≡ ok p)
unfolding first_pose
first_pose_total [] h = absurd (omega (arith, h))
first_pose_total (p ∷ poses) h = (p, refl)

sizes :
    {P : Type 0} (traj : Trajectory P)
    → IsValid traj
    → (1 ≤ length traj.times) × (length traj.poses ≡ length traj.times)
unfolding same_size
sizes traj v = let sized = v.sized in ground arith

sized_of :
    {P : Type 0} (times : List ℕ) (poses : List P)
    → 1 ≤ length times
    → length poses ≡ length times
    → same_size times poses ≡ true
unfolding same_size
sized_of times poses h e = ground arith

-- The first time of a list in strict order is at most its last.
first_last :
    (times : List ℕ) (first last : ℕ)
    → is_strict times ≡ true
    → first_time times ≡ ok first
    → last_time times ≡ ok last
    → first ≤ last
unfolding first_time last_time is_strict
first_last [] first last s f l = cc
first_last (t ∷ []) first last s f l = ground arith
first_last (t ∷ u ∷ times) first last s f l =
    let rest = λ (r : is_strict (u ∷ times) ≡ true). first_last (u ∷ times) u last r refl l in
    ground arith

limits_order :
    (l : Limits) (time : ℕ) (curr_time last_waypoint_time : Option ℕ)
    → limits_hold l time curr_time last_waypoint_time ≡ true
    → l.start_time ≤ l.end_time
unfolding limits_hold
limits_order l time curr_time last_waypoint_time h = ground arith

limits_curr :
    (l : Limits) (time curr_time : ℕ) (last_waypoint_time : Option ℕ)
    → limits_hold l time (some curr_time) last_waypoint_time ≡ true
    → curr_time ≤ l.start_time
unfolding limits_hold curr_holds
limits_curr l time curr_time last_waypoint_time h = ground arith

limits_again :
    (first last time : ℕ)
    → time ≤ last
    → (limits first last time none none ≡ record { start_time = min first time; end_time = time })
      × (limits_hold (limits first last time none none) time none none ≡ true)
unfolding limits limits_hold last_holds curr_holds
limits_again first last time h =
    let least : min last time ≡ time = omega arith in (rw least refl, ground arith)

has_curr-some :
    (curr_time : ℕ) (last_waypoint_time : Option ℕ)
    → has_curr (some curr_time) last_waypoint_time ≡ true
unfolding has_curr
has_curr-some curr_time none = refl
has_curr-some curr_time (some t) = refl

-- A pose at the trajectory's last time: the times are in order, and Slerp refuses them.
new_trajectory_again :
    {P : Type 0} (traj : Trajectory P) (pose : P) (t : ℕ)
    → IsValid traj
    → get_last? traj.times ≡ some t
    → new_trajectory (traj.times ++ t ∷ []) (traj.poses ++ pose ∷ []) ≡ err value_error
unfolding new_trajectory
new_trajectory_again traj pose t v e =
    let again = strict_again traj.times t v.strict e in
    let size = sizes traj v in
    let sized =
      sized_of (traj.times ++ t ∷ []) (traj.poses ++ pose ∷ [])
        (omega (arith, length-append traj.times (t ∷ [])))
        (omega (
          arith,
          size.1,
          length-append traj.times (t ∷ []),
          length-append traj.poses (pose ∷ []),
        )) in
    let long : 2 ≤ length (traj.times ++ t ∷ []) =
      omega (arith, size.0, length-append traj.times (t ∷ [])) in
    ground (arith, again, sized, long)

module _ {P : Type 0} (np : Numerics P) where
  pub call_total : (traj : Trajectory P) (t : ℕ) → IsValid traj → (p : P) × (call np traj t ≡ ok p)
  unfolding call
  call_total traj t v =
      let size = sizes traj v in
      let first = first_total traj.times size.0 in
      let last = last_total traj.times size.0 in
      let pose = first_pose_total traj.poses (omega (arith, size.0, size.1)) in
      elim (Bool-cases (length traj.times == 1)) [
        | inl one ↦ (pose.0, ground (arith, one, pose.1))
        | inr more ↦ (
          np.interpolate traj (min (max t first.0) last.0),
          ground (arith, more, first.1, last.1),
        )
      ]

  call_all_total :
      (traj : Trajectory P) (times : List ℕ)
      → IsValid traj
      → (poses : List P) × (call_all np traj times ≡ ok poses) × (length poses ≡ length times)
  unfolding call_all
  call_all_total traj [] v = ([], refl, refl)
  call_all_total traj (t ∷ times) v =
      let pose = call_total traj t v in
      let rest = call_all_total traj times v in
      (pose.0 ∷ rest.0, ground (arith, pose.1, rest.1), ap suc rest.2)

  -- A trim of a valid trajectory is valid, starts at `start_t` and ends at `end_t`.
  abbrev IsTrimmed : ℕ → ℕ → Trajectory P → Type 0
  IsTrimmed start_t end_t traj =
      IsValid traj
      × (get_last? traj.times ≡ some end_t)
      × ((u : ℕ) → has_time u traj.times ≡ true → (start_t ≤ u) × (u ≤ end_t))

  trim_total :
      (traj : Trajectory P) (start_t end_t : ℕ)
      → IsUnique np.unique
      → IsValid traj
      → start_t ≤ end_t
      → (trimmed : Trajectory P) × (trim np traj start_t end_t ≡ ok trimmed)
        × IsTrimmed start_t end_t trimmed
  unfolding trim
  trim_total traj start_t end_t law v h =
      let given : List ℕ = start_t ∷ keep_between start_t end_t traj.times ++ end_t ∷ [] in
      let times = np.unique given in
      let poses = call_all_total traj times v in
      let asked = trim_times start_t end_t traj.times h in
      let within : (u : ℕ) → has_time u times ≡ true → (start_t ≤ u) × (u ≤ end_t) =
        λ u e. asked.1 u (sym (law.same given u) ∙ e) in
      let ends : has_time end_t times ≡ true = law.same given end_t ∙ asked.0 in
      let last = strict_last times end_t (law.sorted given) ends (λ u e. (within u e).1) in
      let sized : same_size times poses.0 ≡ true =
        sized_of times poses.0 (has_time-length end_t times ends) poses.2 in
      (
        record { times = times; poses = poses.0 },
        ground (arith, poses.1, new_trajectory_ok times poses.0 sized (law.sorted given)),
        (record { sized = sized; strict = law.sorted given }, last, within),
      )

  -- The result of inserting `pose` for `time`: what is kept lies from `lo` on and before `time`,
  -- and one point with the pose follows, at `time` or later.
  abbrev pub Reaches : P → ℕ → ℕ → Trajectory P → Type 0
  Reaches pose lo time traj =
      (kept : List ℕ) × (reached : ℕ) × (traj.times ≡ kept ++ reached ∷ [])
      × All (λ u. (lo ≤ u) × (u < time)) kept
      × (time ≤ reached)
      × (get_last? traj.poses ≡ some pose)
      × IsValid traj

  insert_total :
      (trimmed : Trajectory P) (pose : P) (start_t end_t t : ℕ)
      → IsTrimmed start_t end_t trimmed
      → end_t < t
      → (insert_pose np trimmed pose t
          ≡ ok (record { times = trimmed.times ++ t ∷ []; poses = trimmed.poses ++ pose ∷ [] }))
        × IsValid (record { times = trimmed.times ++ t ∷ []; poses = trimmed.poses ++ pose ∷ [] })
  unfolding insert_pose
  insert_total trimmed pose start_t end_t t h later =
      let size = sizes trimmed h.0 in
      let strict = strict_snoc trimmed.times end_t t h.0.strict (λ u e. (h.2 u e).1) later in
      let sized =
        sized_of (trimmed.times ++ t ∷ []) (trimmed.poses ++ pose ∷ [])
          (omega (arith, length-append trimmed.times (t ∷ [])))
          (omega (
            arith,
            size.1,
            length-append trimmed.times (t ∷ []),
            length-append trimmed.poses (pose ∷ []),
          )) in
      (
        new_trajectory_ok (trimmed.times ++ t ∷ []) (trimmed.poses ++ pose ∷ []) sized strict,
        record { sized = sized; strict = strict },
      )

  append_total :
      (traj : Trajectory P) (pose : P) (lo time v_pos v_rot : ℕ) (l : Limits)
      → IsUnique np.unique
      → IsValid traj
      → lo ≤ l.start_time
      → l.start_time ≤ l.end_time
      → l.end_time < time
      → (r : Trajectory P) × (append_pose np traj pose time v_pos v_rot l ≡ ok r)
        × Reaches pose lo time r
  unfolding append_pose
  append_total traj pose lo time v_pos v_rot l law v low order later =
      let cut = trim_total traj l.start_time l.end_time law v order in
      let end_pose = call_total cut.0 l.end_time cut.2.0 in
      let t = l.end_time + max (time - l.end_time) (np.min_duration v_pos v_rot pose end_pose.0) in
      let done = insert_total cut.0 pose l.start_time l.end_time t cut.2 (omega arith) in
      (
        record { times = cut.0.times ++ t ∷ []; poses = cut.0.poses ++ pose ∷ [] },
        ground (arith, cut.1, end_pose.1, done.0),
        (
          cut.0.times,
          t,
          refl,
          All-has_time lo time cut.0.times (λ u e. let b = cut.2.2 u e in ground arith),
          omega arith,
          get_last?-append cut.0.poses pose,
          done.1,
        ),
      )

  -- `schedule_waypoint` once its assertions hold.
  schedule_reduces :
      (traj : Trajectory P) (pose : P) (time v_pos v_rot first last : ℕ)
      (curr_time last_waypoint_time : Option ℕ)
      → 0 < v_pos
      → 0 < v_rot
      → has_curr curr_time last_waypoint_time ≡ true
      → first_time traj.times ≡ ok first
      → last_time traj.times ≡ ok last
      → first ≤ last
      → is_past time curr_time ≡ false
      → limits_hold
          (limits first last time curr_time last_waypoint_time)
          time
          curr_time
          last_waypoint_time
        ≡ true
      → schedule_waypoint np traj pose time v_pos v_rot curr_time last_waypoint_time
        ≡ append_pose np traj pose time v_pos v_rot
            (limits first last time curr_time last_waypoint_time)
  unfolding schedule_waypoint
  schedule_reduces traj pose time v_pos v_rot first last curr_time last_waypoint_time p q c f l
        order past hold =
      let p' = lt→ltb 0 v_pos p in
      let q' = lt→ltb 0 v_rot q in
      let o = le→leb first last order in rw (p', q', c, f, l, o, past, hold) refl

  -- With positive speed limits, a current time before `time`, and a np.unique that sorts and removes
  -- duplicates: on a trajectory that the class accepts, `schedule_waypoint` raises nothing, whatever
  -- the last waypoint's time is. Its result is again accepted, its last point is the new pose at
  -- `time` or later, and all others lie from the current time on and before `time`.
  pub schedule_waypoint_total :
      (traj : Trajectory P) (pose : P) (time v_pos v_rot curr_time : ℕ)
      (last_waypoint_time : Option ℕ)
      → IsUnique np.unique
      → IsValid traj
      → 0 < v_pos
      → 0 < v_rot
      → curr_time < time
      → (r : Trajectory P) × (schedule_waypoint np traj pose time v_pos v_rot
            (some curr_time)
            last_waypoint_time
          ≡ ok r)
        × Reaches pose curr_time time r
  unfolding schedule_waypoint is_past
  schedule_waypoint_total traj pose time v_pos v_rot curr_time last_waypoint_time law v p q h =
      let size = sizes traj v in
      let first = first_total traj.times size.0 in
      let last = last_total traj.times size.0 in
      let order = first_last traj.times first.0 last.0 v.strict first.1 last.1 in
      let l = limits first.0 last.0 time (some curr_time) last_waypoint_time in
      let hold = limits_hold_lem first.0 last.0 time curr_time last_waypoint_time h in
      let bounds = limits_order l time (some curr_time) last_waypoint_time hold.0 in
      let done =
        append_total traj pose curr_time time v_pos v_rot l law v
          (limits_curr l time curr_time last_waypoint_time hold.0) bounds hold.1 in
      (
        done.0,
        schedule_reduces traj pose time v_pos v_rot first.0 last.0 (some curr_time)
              last_waypoint_time p q (has_curr-some curr_time last_waypoint_time) first.1 last.1
              order (lt→leb time curr_time h) hold.0
            ∙ done.1,
        done.2,
      )

  -- A time that is not after the current one changes nothing.
  pub schedule_waypoint_past :
      (traj : Trajectory P) (pose : P) (time v_pos v_rot curr_time : ℕ)
      (last_waypoint_time : Option ℕ)
      → IsValid traj
      → 0 < v_pos
      → 0 < v_rot
      → time ≤ curr_time
      → schedule_waypoint np traj pose time v_pos v_rot (some curr_time) last_waypoint_time
        ≡ ok traj
  unfolding schedule_waypoint is_past
  schedule_waypoint_past traj pose time v_pos v_rot curr_time last_waypoint_time v p q h =
      let size = sizes traj v in
      let first = first_total traj.times size.0 in
      let last = last_total traj.times size.0 in
      let order = first_last traj.times first.0 last.0 v.strict first.1 last.1 in
      let p' = lt→ltb 0 v_pos p in
      let q' = lt→ltb 0 v_rot q in
      let o = le→leb first.0 last.0 order in
      let past = le→leb time curr_time h in
      rw (p', q', has_curr-some curr_time last_waypoint_time, first.1, last.1, o, past) refl

  -- With positive speed limits and a np.unique that sorts and removes duplicates: on a trajectory
  -- that the class accepts, `drive_to_waypoint` for a later time than the current one raises nothing,
  -- and leads from the current time straight to the new pose at `time` or later.
  pub drive_to_waypoint_total :
      (traj : Trajectory P) (pose : P) (time v_pos v_rot curr_time : ℕ)
      → IsUnique np.unique
      → IsValid traj
      → 0 < v_pos
      → 0 < v_rot
      → curr_time < time
      → (r : Trajectory P) × (drive_to_waypoint np traj pose time curr_time v_pos v_rot ≡ ok r)
        × Reaches pose curr_time time r
  unfolding drive_to_waypoint
  drive_to_waypoint_total traj pose time v_pos v_rot curr_time law v p q h =
      let curr_pose = call_total traj curr_time v in
      let cut = trim_total traj curr_time curr_time law v (omega arith) in
      let t =
        curr_time
        + max (max time curr_time - curr_time) (np.min_duration v_pos v_rot curr_pose.0 pose) in
      let done = insert_total cut.0 pose curr_time curr_time t cut.2 (omega arith) in
      (
        record { times = cut.0.times ++ t ∷ []; poses = cut.0.poses ++ pose ∷ [] },
        ground (arith, p, q, curr_pose.1, cut.1, done.0),
        (
          cut.0.times,
          t,
          refl,
          All-has_time curr_time time cut.0.times (λ u e. let b = cut.2.2 u e in ground arith),
          omega arith,
          get_last?-append cut.0.poses pose,
          done.1,
        ),
      )

  append_again :
      (traj : Trajectory P) (pose : P) (start_t time v_pos v_rot : ℕ)
      → IsUnique np.unique
      → IsValid traj
      → start_t ≤ time
      → ((a b : P) → np.min_duration v_pos v_rot a b ≡ 0)
      → append_pose np traj pose time v_pos v_rot (record { start_time = start_t; end_time = time })
        ≡ err value_error
  unfolding append_pose insert_pose
  append_again traj pose start_t time v_pos v_rot law v order fast =
      let cut = trim_total traj start_t time law v order in
      let end_pose = call_total cut.0 time cut.2.0 in
      let here : time + max (time - time) (np.min_duration v_pos v_rot pose end_pose.0) ≡ time =
        omega (arith, fast pose end_pose.0) in
      let raised = new_trajectory_again cut.0 pose time cut.2.0 cut.2.1 in
      ground (arith, cut.1, end_pose.1, here, raised)

  -- Without a current time, for a `time` within the trajectory, and with no shortest duration (the
  -- default speeds are infinite): `schedule_waypoint` trims to `time` and appends `time` once more,
  -- so Slerp raises ValueError, on every trajectory that the class accepts.
  pub schedule_waypoint_again :
      (traj : Trajectory P) (pose : P) (time v_pos v_rot last : ℕ)
      → IsUnique np.unique
      → IsValid traj
      → 0 < v_pos
      → 0 < v_rot
      → last_time traj.times ≡ ok last
      → time ≤ last
      → ((a b : P) → np.min_duration v_pos v_rot a b ≡ 0)
      → schedule_waypoint np traj pose time v_pos v_rot none none ≡ err value_error
  unfolding schedule_waypoint is_past has_curr
  schedule_waypoint_again traj pose time v_pos v_rot last law v p q e h fast =
      let size = sizes traj v in
      let first = first_total traj.times size.0 in
      let order = first_last traj.times first.0 last v.strict first.1 e in
      let raised =
        append_again traj pose (min first.0 time) time v_pos v_rot law v (omega arith) fast in
      let hold = limits_again first.0 last time h in
      schedule_reduces traj pose time v_pos v_rot first.0 last none none p q refl first.1 e order
        refl hold.1
      ∙ ap (append_pose np traj pose time v_pos v_rot) hold.0
      ∙ raised
