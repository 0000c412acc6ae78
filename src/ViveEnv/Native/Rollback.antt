-- ===== src/ViveEnv/Native/Rollback.antt =====
-- What the streams are after an episode's rows were appended and cut off.
use mathlib.Core.List.{append_assoc, append-nil}
use mathlib.Core.Option
use text.Mathlib.Text.{◌==◌}
use polymetis_franka_teleop.Prelude.{
  ℕ, zero, suc, ◌+◌, ◌-◌, ◌≡◌, refl, sym, ap, ◌∙◌, inl, inr, true, false, Option, none, some, List,
  [], ◌∷◌, ◌++◌, String, map, arith,
}
use polymetis_franka_teleop.Prelude.Tests.{ltb, lt→ltb, if◌then◌else◌, Bool-cases}
use polymetis_franka_teleop.Prelude.Lists.{length, length-append, length-map, take, set, get_elem?}
use polymetis_franka_teleop.Prelude.Dict.{Dict, lookup, insert}
use polymetis_franka_teleop.Accumulator.Samples.{or_empty, get_or_empty}
use polymetis_franka_teleop.Policy.Episodes.{Observations}
use polymetis_franka_teleop.ViveEnv.{Range}
use polymetis_franka_teleop.ViveEnv.Meta.{have_length}
use polymetis_franka_teleop.ViveEnv.Meta.Rollback.{get-insert, same_key}
use polymetis_franka_teleop.ViveEnv.Native.{
  Rows, native_robot_keys, native_gripper_keys, zero_range, resize, robot_streams, gripper_streams,
  streams_of, extend, set_range, range_of, append_native, new_start, cut, truncate_arrays,
  truncate_from, truncate, ◌∈◌,
}

take-append : {X : Type 0} (n : ℕ) (xs ys : List X) → length xs ≡ n → take n (xs ++ ys) ≡ xs
take-append zero [] ys h = refl
take-append zero (x ∷ xs) ys h = absurd (omega arith)
take-append (suc n) [] ys h = absurd (omega arith)
take-append (suc n) (x ∷ xs) ys h = ap (λ r. x ∷ r) (take-append n xs ys (omega arith))

set-append :
    {X : Type 0} (n : ℕ) (xs : List X) (x y : X)
    → length xs ≡ n
    → set (xs ++ x ∷ []) n y ≡ xs ++ y ∷ []
set-append zero [] x y h = refl
set-append zero (w ∷ xs) x y h = absurd (omega arith)
set-append (suc n) [] x y h = absurd (omega arith)
set-append (suc n) (w ∷ xs) x y h = ap (λ r. w ∷ r) (set-append n xs x y (omega arith))

get_elem?-append :
    {X : Type 0} (n : ℕ) (xs : List X) (x : X) → length xs ≡ n → get_elem? (xs ++ x ∷ []) n ≡ some x
get_elem?-append zero [] x h = refl
get_elem?-append zero (w ∷ xs) x h = absurd (omega arith)
get_elem?-append (suc n) [] x h = absurd (omega arith)
get_elem?-append (suc n) (w ∷ xs) x h = get_elem?-append n xs x (omega arith)

get_elem?-end : {X : Type 0} (n : ℕ) (xs : List X) → length xs ≡ n → get_elem? xs n ≡ none
get_elem?-end n [] h = refl
get_elem?-end zero (w ∷ xs) h = absurd (omega arith)
get_elem?-end (suc n) (w ∷ xs) h = get_elem?-end n xs (omega arith)

-- An array that was made longer is cut back to what it was.
resize-append :
    {X : Type 0} (blank : X) (n : ℕ) (xs ys : List X)
    → length xs ≡ n
    → resize blank n (xs ++ ys) ≡ xs
unfolding resize
resize-append blank n xs ys h = ap (take n) (append_assoc xs ys _) ∙ take-append n xs _ h

-- The arrays and the ranges hold the same, a missing one being empty.
abbrev pub IsSame :
    {R : Type 0}
    → Dict (List R) × Option (List Range)
    → Dict (List R) × Option (List Range)
    → Type 0
IsSame (native, ranges) (after, after_ranges) =
    ((key : String) → get_or_empty key after ≡ get_or_empty key native)
    × (or_empty after_ranges ≡ or_empty ranges)

module _ {R : Type 0} (np : Rows R) where
  unfoldable rows_of : String → Dict (List R) → List R
  rows_of key [] = []
  rows_of key ((k, rows) ∷ streams) =
      let rest = rows_of key streams in if k == key then rows ++ rest else rest

  get-extend :
      (key : String) (streams native : Dict (List R))
      → get_or_empty key (extend np (length streams) streams native)
        ≡ get_or_empty key native ++ rows_of key streams
  unfolding extend rows_of
  get-extend key [] native = sym (append-nil _)
  get-extend key ((k, rows) ∷ streams) native =
      let rest = get-extend key streams (insert k (get_or_empty k native ++ rows) native) in
      let here = get-insert k key (get_or_empty k native ++ rows) native in
      elim (Bool-cases (k == key)) [
        | inl e ↦
            let same = same_key k key e in
            rw
              (
                rest,
                here,
                e,
                same,
                append_assoc (get_or_empty key native) rows (rows_of key streams),
              )
              refl
        | inr e ↦ rw (rest, here, e) refl
      ]

  lookup-truncate_arrays :
      (key : String) (row : Range) (native : Dict (List R))
      → lookup key (truncate_arrays np row native)
        ≡ Option.map (cut np (new_start np key row)) (lookup key native)
  unfolding truncate_arrays lookup
  lookup-truncate_arrays key row [] = refl
  lookup-truncate_arrays key row ((k, rows) ∷ native) =
      let rest = lookup-truncate_arrays key row native in
      elim (Bool-cases (k == key)) [
        | inl e ↦ let same = same_key k key e in rw (e, same) refl
        | inr e ↦ rw (e, rest) refl
      ]

  cut-append :
      (start : ℕ) (found : Option (List R)) (old more : List R)
      → or_empty found ≡ old ++ more
      → length old ≡ start
      → or_empty (Option.map (cut np (some start)) found) ≡ old
  unfolding or_empty cut
  cut-append start none [] more e h = refl
  cut-append start none (x ∷ old) more e h = cc
  cut-append start (some rows) old more e h = rw e (resize-append np.zeros start old more h)

  cut-none : (found : Option (List R)) → or_empty (Option.map (cut np none) found) ≡ or_empty found
  unfolding or_empty cut
  cut-none none = refl
  cut-none (some rows) = refl

  set_range-append :
      (episode_id : ℕ) (row : Range) (rng : List Range)
      → length rng ≡ episode_id
      → set_range np episode_id row rng ≡ rng ++ row ∷ []
  unfolding set_range resize
  set_range-append episode_id row rng h =
      let longer = lt→ltb (length rng) (episode_id + 1) (omega arith) in
      let one : episode_id + 1 - length rng ≡ 1 = omega arith in
      let whole =
        take-append (episode_id + 1) (rng ++ zero_range ∷ []) []
          (rw (length-append rng (zero_range ∷ [])) (omega arith)) in
      let kept = append-nil (rng ++ zero_range ∷ []) in
      rw (longer, one, sym kept, whole) (set-append episode_id rng zero_range row h)

  rows_of-none :
      (key : String) (streams : Dict (List R))
      → (key ∈ map (λ s. s.0) streams) ≡ false
      → rows_of key streams ≡ []
  unfolding rows_of ◌∈◌
  rows_of-none key [] h = refl
  rows_of-none key ((k, rows) ∷ streams) h = elim (Bool-cases (k == key)) [
    | inl e ↦ let no = rw e at h in cc
    | inr e ↦ rw e (rows_of-none key streams (rw e at h))
  ]

  ∈-append :
      (key : String) (keys more : List String)
      → (key ∈ keys) ≡ false
      → (key ∈ more) ≡ false
      → (key ∈ (keys ++ more)) ≡ false
  unfolding ◌∈◌
  ∈-append key [] more h e = e
  ∈-append key (k ∷ keys) more h e = ground (arith, ∈-append key keys more)

  have_length-of :
      (n : ℕ) (key : String) (keys : List String) (native : Dict (List R))
      → have_length n keys native ≡ true
      → (key ∈ keys) ≡ true
      → length (get_or_empty key native) ≡ n
  unfolding have_length ◌∈◌
  have_length-of n key [] native h e = cc
  have_length-of n key (k ∷ keys) native h e =
      let here : length (get_or_empty k native) ≡ n = ground arith in
      let rest : have_length n keys native ≡ true = ground arith in
      elim (Bool-cases (k == key)) [
        | inl q ↦ ap (λ j. length (get_or_empty j native)) (sym (same_key k key q)) ∙ here
        | inr q ↦ have_length-of n key keys native rest (rw q at e)
      ]

  get-known :
      (key : String) (start : ℕ) (row : Range) (streams native : Dict (List R))
      → new_start np key row ≡ some start
      → length (get_or_empty key native) ≡ start
      → get_or_empty key (truncate_arrays np row (extend np (length streams) streams native))
        ≡ get_or_empty key native
  unfolding get_or_empty
  get-known key start row streams native known h =
      let longer = extend np (length streams) streams native in
      let all =
        cut-append start (lookup key longer) (get_or_empty key native) (rows_of key streams)
          (get-extend key streams native) h in
      ap or_empty (lookup-truncate_arrays key row longer)
      ∙ ap (λ w. or_empty (Option.map (cut np w) (lookup key longer))) known
      ∙ all

  get-unknown :
      (key : String) (row : Range) (streams native : Dict (List R))
      → new_start np key row ≡ none
      → (key ∈ map (λ s. s.0) streams) ≡ false
      → get_or_empty key (truncate_arrays np row (extend np (length streams) streams native))
        ≡ get_or_empty key native
  unfolding get_or_empty
  get-unknown key row streams native known h =
      let longer = extend np (length streams) streams native in
      ap or_empty (lookup-truncate_arrays key row longer)
      ∙ ap (λ w. or_empty (Option.map (cut np w) (lookup key longer))) known
      ∙ cut-none (lookup key longer)
      ∙ get-extend key streams native
      ∙ ap (λ r. get_or_empty key native ++ r) (rows_of-none key streams h)
      ∙ append-nil (get_or_empty key native)

  truncate-found :
      (episode_id : ℕ) (row : Range) (native : Dict (List R)) (rng : List Range)
      → get_elem? rng episode_id ≡ some row
      → truncate np episode_id (native, some rng)
        ≡ (truncate_arrays np row native, some (resize zero_range episode_id rng))
  unfolding truncate truncate_from or_empty
  truncate-found episode_id row native rng h = rw h refl

  truncate-absent :
      (episode_id : ℕ) (native : Dict (List R)) (ranges : Option (List Range))
      → get_elem? (or_empty ranges) episode_id ≡ none
      → truncate np episode_id (native, ranges) ≡ (native, ranges)
  unfolding truncate truncate_from
  truncate-absent episode_id native ranges h = rw h refl

  append_native-rows :
      (obs : Observations (Dict (List R))) (episode_id : ℕ) (native : Dict (List R))
      (ranges : Option (List Range))
      → ltb 0 (length (get_or_empty "robot0_joint_pos" obs.timestamps)) ≡ true
      → append_native np 11 obs episode_id (native, ranges) ≡ (
        extend np 11 (streams_of np obs) native,
        some (
            set_range np episode_id
              (range_of np obs (extend np 11 (streams_of np obs) native))
              (or_empty ranges)),
      )
  unfolding append_native
  append_native-rows obs episode_id native ranges h = rw h refl

  append_native-empty :
      (obs : Observations (Dict (List R))) (episode_id : ℕ) (native : Dict (List R))
      (ranges : Option (List Range))
      → ltb 0 (length (get_or_empty "robot0_joint_pos" obs.timestamps)) ≡ false
      → append_native np 11 obs episode_id (native, ranges) ≡ (native, ranges)
  unfolding append_native
  append_native-empty obs episode_id native ranges h = rw h refl

  extend_all :
      (obs : Observations (Dict (List R))) (native : Dict (List R))
      → extend np 11 (streams_of np obs) native ≡ extend np 10 (streams_of np obs) native
  unfolding extend streams_of robot_streams gripper_streams
  extend_all obs native = refl

  -- The ten arrays and the ranges, after an episode's streams and its range were written and cut
  -- off again.
  module _ (obs : Observations (Dict (List R))) (native : Dict (List R)) (n_robot n_gripper : ℕ)
      (robot : have_length n_robot native_robot_keys native ≡ true)
      (gripper : have_length n_gripper native_gripper_keys native ≡ true) where
    length-longer :
        (key : String) (times : List ℕ) (n : ℕ)
        → length (get_or_empty key native) ≡ n
        → rows_of key (streams_of np obs) ≡ map np.row_of_time times ++ []
        → length (get_or_empty key (extend np 10 (streams_of np obs) native)) - length times ≡ n
    unfolding streams_of robot_streams gripper_streams
    length-longer key times n h e =
        let longer = get-extend key (streams_of np obs) native in
        let more = length-append (get_or_empty key native) (map np.row_of_time times ++ []) in
        let rows = length-map np.row_of_time times in
        rw (longer, e, more, append-nil (map np.row_of_time times), rows, h) (omega arith)

    starts :
        ((range_of np obs (extend np 10 (streams_of np obs) native)).r_start ≡ n_robot)
        × ((range_of np obs (extend np 10 (streams_of np obs) native)).g_start ≡ n_gripper)
    unfolding range_of streams_of robot_streams gripper_streams rows_of ◌∈◌
    starts = (
      length-longer "ts_robot" (get_or_empty "robot0_joint_pos" obs.timestamps) n_robot
          (have_length-of n_robot "ts_robot" native_robot_keys native robot refl) refl,
      length-longer "ts_gripper" (get_or_empty "robot0_gripper_width" obs.timestamps) n_gripper
          (have_length-of n_gripper "ts_gripper" native_gripper_keys native gripper refl) refl,
    )

    get-cut_off :
        (key : String) (row : Range)
        → row.r_start ≡ n_robot
        → row.g_start ≡ n_gripper
        → get_or_empty key (truncate_arrays np row (extend np 10 (streams_of np obs) native))
          ≡ get_or_empty key native
    unfolding new_start streams_of robot_streams gripper_streams
    get-cut_off key row r g = elim (Bool-cases (key ∈ native_robot_keys)) [
      | inl in_robot ↦
          get-known key row.r_start row (streams_of np obs) native (rw in_robot refl)
            (have_length-of n_robot key native_robot_keys native robot in_robot ∙ sym r)
      | inr no_robot ↦ elim (Bool-cases (key ∈ native_gripper_keys)) [
        | inl in_gripper ↦
            get-known key row.g_start row (streams_of np obs) native
              (rw (no_robot, in_gripper) refl)
              (have_length-of n_gripper key native_gripper_keys native gripper in_gripper ∙ sym g)
        | inr no_gripper ↦
            get-unknown key row (streams_of np obs) native (rw (no_robot, no_gripper) refl)
              (∈-append key native_robot_keys native_gripper_keys no_robot no_gripper)
      ]
    ]

    pub truncate-append_native :
        (episode_id : ℕ) (ranges : Option (List Range))
        → length (or_empty ranges) ≡ episode_id
        → IsSame
            (native, ranges)
            (truncate np episode_id (append_native np 11 obs episode_id (native, ranges)))
    unfolding or_empty
    truncate-append_native episode_id ranges h =
        let rng = or_empty ranges in
        let longer = extend np 10 (streams_of np obs) native in
        let row = range_of np obs longer in
        let put = set_range-append episode_id row rng h in
        let found = get_elem?-append episode_id rng row h in
        let cut_back = resize-append zero_range episode_id rng (row ∷ []) h in
        let nothing = get_elem?-end episode_id rng h in
        elim (Bool-cases (ltb 0 (length (get_or_empty "robot0_joint_pos" obs.timestamps)))) [
          | inl e ↦
              let written = append_native-rows obs episode_id native ranges e in
              let dropped = truncate-found episode_id row longer (rng ++ row ∷ []) found in
              rw (written, extend_all obs native, put, dropped)
                ((λ key. get-cut_off key row (starts.0) (starts.1)), cut_back)
          | inr e ↦
              let written = append_native-empty obs episode_id native ranges e in
              let dropped = truncate-absent episode_id native ranges nothing in
              rw (written, dropped) ((λ key. refl), refl)
        ]
