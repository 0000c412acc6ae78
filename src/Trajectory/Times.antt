-- ===== src/Trajectory/Times.antt =====
-- Lists of times in order, and the limits of the trim that `schedule_waypoint` makes.
use polymetis_franka_teleop.Prelude.{
  ℕ, ◌≤◌, ◌<◌, ◌≡◌, refl, Bool, true, false, ◌||◌, Option, none, some, List, [], ◌∷◌, ◌++◌, arith,
}
use polymetis_franka_teleop.Prelude.Tests.{◌==◌}
use polymetis_franka_teleop.Prelude.Lists.{length, get_last?, All}
use polymetis_franka_teleop.Trajectory.{
  is_ascending, is_strict, keep_between, end_limit, limits, last_holds, curr_holds, limits_hold,
}

unfoldable pub has_time : ℕ → List ℕ → Bool
has_time t [] = false
has_time t (u ∷ times) = u == t || has_time t times

-- No time of the list is after `b`.
abbrev pub Until : ℕ → List ℕ → Type 0
Until b times = (u : ℕ) → has_time u times ≡ true → u ≤ b

Until-head : (b t : ℕ) (times : List ℕ) → Until b (t ∷ times) → t ≤ b
unfolding has_time
Until-head b t times h = let here = h t in ground arith

Until-tail : (b t : ℕ) (times : List ℕ) → Until b (t ∷ times) → Until b times
unfolding has_time
Until-tail b t times h u e = let there = h u in ground arith

pub All-has_time :
    (lo hi : ℕ) (times : List ℕ)
    → ((u : ℕ) → has_time u times ≡ true → (lo ≤ u) × (u < hi))
    → All (λ u. (lo ≤ u) × (u < hi)) times
unfolding has_time
All-has_time lo hi [] h = tt
All-has_time lo hi (t ∷ times) h =
    let here = h t in
    (ground arith, All-has_time lo hi times (λ u e. let there = h u in ground arith))

pub strict_snoc :
    (times : List ℕ) (b t : ℕ)
    → is_strict times ≡ true
    → Until b times
    → b < t
    → is_strict (times ++ t ∷ []) ≡ true
unfolding is_strict
strict_snoc [] b t s u h = refl
strict_snoc (x ∷ []) b t s u h = let first = Until-head b x [] u in ground arith
strict_snoc (x ∷ y ∷ times) b t s u h =
    let rest = λ (r : is_strict (y ∷ times) ≡ true).
      strict_snoc (y ∷ times) b t r (Until-tail b x (y ∷ times) u) h in
    ground arith

pub strict_ascending : (times : List ℕ) → is_strict times ≡ true → is_ascending times ≡ true
unfolding is_strict is_ascending
strict_ascending [] s = refl
strict_ascending (x ∷ []) s = refl
strict_ascending (x ∷ y ∷ times) s = let rest = strict_ascending (y ∷ times) in ground arith

-- A time that is there twice is in order, but not in strict order.
pub strict_again :
    (times : List ℕ) (t : ℕ)
    → is_strict times ≡ true
    → get_last? times ≡ some t
    → (is_ascending (times ++ t ∷ []) ≡ true) × (is_strict (times ++ t ∷ []) ≡ false)
unfolding is_strict is_ascending
strict_again [] t s e = cc
strict_again (x ∷ []) t s e = ground arith
strict_again (x ∷ y ∷ times) t s e =
    let rest = λ (r : is_strict (y ∷ times) ≡ true). strict_again (y ∷ times) t r e in ground arith

-- The last time of a list in strict order is its latest.
pub strict_last :
    (times : List ℕ) (b : ℕ)
    → is_strict times ≡ true
    → has_time b times ≡ true
    → Until b times
    → get_last? times ≡ some b
unfolding is_strict has_time
strict_last [] b s h u = cc
strict_last (x ∷ []) b s h u = ground arith
strict_last (x ∷ y ∷ times) b s h u =
    let rest = strict_last (y ∷ times) b in
    let later = Until-head b y times (Until-tail b x (y ∷ times) u) in
    let tail = Until-tail b x (y ∷ times) u in ground arith

pub has_time-append :
    (u t : ℕ) (times : List ℕ) → has_time u (times ++ t ∷ []) ≡ (has_time u times || t == u)
unfolding has_time
has_time-append u t [] = ground arith
has_time-append u t (x ∷ times) = let rest = has_time-append u t times in ground arith

pub keep_between-Until :
    (s e u : ℕ) (times : List ℕ) → has_time u (keep_between s e times) ≡ true → (s < u) × (u < e)
unfolding has_time keep_between
keep_between-Until s e u [] h = cc
keep_between-Until s e u (t ∷ times) h = let rest = keep_between-Until s e u times in ground arith

-- The times that a trim gives to np.unique.
pub trim_times :
    (s e : ℕ) (times : List ℕ)
    → s ≤ e
    → (has_time e (s ∷ keep_between s e times ++ e ∷ []) ≡ true)
      × ((u : ℕ) → has_time u (s ∷ keep_between s e times ++ e ∷ []) ≡ true → (s ≤ u) × (u ≤ e))
unfolding has_time
trim_times s e times h = (
  (let there = has_time-append e e (keep_between s e times) in ground arith),
  λ u there.
      let split = has_time-append u e (keep_between s e times) in
      let kept = keep_between-Until s e u times in ground arith,
)

pub has_time-length : (u : ℕ) (times : List ℕ) → has_time u times ≡ true → 1 ≤ length times
unfolding has_time
has_time-length u [] h = cc
has_time-length u (t ∷ times) h = omega arith

-- The comments 'proven by zhenjia': with the current time before `time`, all assertions on the
-- limits hold, and the trimmed trajectory ends before `time`.
pub limits_hold_lem :
    (first last time curr_time : ℕ) (last_waypoint_time : Option ℕ)
    → curr_time < time
    → (limits_hold
          (limits first last time (some curr_time) last_waypoint_time)
          time
          (some curr_time)
          last_waypoint_time
        ≡ true)
      × ((limits first last time (some curr_time) last_waypoint_time).end_time < time)
unfolding limits end_limit limits_hold last_holds curr_holds
limits_hold_lem first last time curr_time none h = ground arith
limits_hold_lem first last time curr_time (some last_waypoint_time) h = ground arith
