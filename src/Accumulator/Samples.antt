-- ===== src/Accumulator/Samples.antt =====
-- `ObsAccumulator`: for each key the samples with ascending timestamps.
pub mod Ascend
mod Tests
use polymetis_franka_teleop.Prelude.{
  ℕ, Bool, true, false, Option, none, some, List, [], ◌∷◌, ◌++◌, String,
}
use polymetis_franka_teleop.Prelude.Tests.{ltb}
use polymetis_franka_teleop.Prelude.Dict.{Dict, lookup, insert}
use polymetis_franka_teleop.Prelude.Result.{Error, Result, ok, err, index_error, ◌>>=◌}
use polymetis_franka_teleop.Trajectory.{last_time}

pub record Samples (A : Type 0) : Type 0 where
  pub samples : Dict (List A)
  pub timestamps : Dict (List ℕ)

-- The list, or a new one.
unfoldable pub or_empty : {X : Type 0} → Option (List X) → List X
or_empty none = []
or_empty (some xs) = xs

-- `d[key]` of a `defaultdict(list)`, as it is read
unfoldable pub get_or_empty : {X : Type 0} → String → Dict (List X) → List X
unfolding or_empty
get_or_empty key d = or_empty (lookup key d)

-- d[key].append(x)
unfoldable pub append_to : {X : Type 0} → String → X → Dict (List X) → Dict (List X)
unfolding get_or_empty
append_to key x d = insert key (get_or_empty key d ++ x ∷ []) d

unfoldable pub is_after : Option (List ℕ) → ℕ → Result Bool
is_after none t = ok true
is_after (some stamps) t = do last ← last_time stamps; ok (ltb last t)

-- (key not in self.timestamps) or (self.timestamps[key][-1] < t)
unfoldable pub is_later : String → Dict (List ℕ) → ℕ → Result Bool
unfolding is_after
is_later key timestamps t = is_after (lookup key timestamps) t

module _ {A : Type 0} where
  unfoldable pub new_samples : Samples A
  new_samples = record { samples = []; timestamps = [] }

  unfoldable pub rest_of : List A → List A
  rest_of [] = []
  rest_of (v ∷ values) = values

  -- One timestamp of a key, with the values from its index on. A value that is missing raises after
  -- the timestamp was appended.
  unfoldable pub put_one : Result Bool → String → ℕ → List A → Samples A → Samples A × Option Error
  unfolding append_to
  put_one (err e) key t values s = (s, some e)
  put_one (ok false) key t values s = (s, none)
  put_one (ok true) key t [] s =
      (record s { timestamps = append_to key t s.timestamps }, some index_error)
  put_one (ok true) key t (v ∷ values) s = (
    record s { timestamps = append_to key t s.timestamps; samples = append_to key v s.samples },
    none,
  )

  unfoldable pub and_then :
      Samples A × Option Error → (Samples A → Samples A × Option Error) → Samples A × Option Error
  and_then (s, none) rest = rest s
  and_then (s, some e) rest = (s, some e)

  unfoldable pub put_key : String → List A → List ℕ → Samples A → Samples A × Option Error
  unfolding is_later put_one and_then rest_of
  put_key key values [] s = (s, none)
  put_key key values (t ∷ timestamps) s =
      and_then (put_one (is_later key s.timestamps t) key t values s)
        (λ next. put_key key (rest_of values) timestamps next)

  unfoldable pub put : Dict (List A) → List ℕ → Samples A → Samples A × Option Error
  unfolding put_key and_then
  put [] timestamps s = (s, none)
  put ((key, values) ∷ items) timestamps s =
      and_then (put_key key values timestamps s) (λ next. put items timestamps next)
