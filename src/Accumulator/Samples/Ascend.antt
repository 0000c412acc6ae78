-- ===== src/Accumulator/Samples/Ascend.antt =====
-- The timestamps of each key ascend, with one sample for each.
use polymetis_franka_teleop.Prelude.{
  ℕ, ◌<◌, ◌≡◌, ◌≢◌, ◌≤◌, refl, sym, ap, ◌∙◌, inl, inr, Bool, true, false, Option, none, some, List,
  [], ◌∷◌, ◌++◌, String, arith,
}
use text.Mathlib.Text.{◌==◌}
use polymetis_franka_teleop.Prelude.Tests.{ltb, if◌then◌else◌, Bool-cases}
use polymetis_franka_teleop.Prelude.Lists.{All, length, length-append, get_last?}
use polymetis_franka_teleop.Prelude.Dict.{Dict, lookup, lookup-insert}
use polymetis_franka_teleop.Prelude.Result.{Error, Result, ok, err}
use polymetis_franka_teleop.Trajectory.{last_time, is_strict}
use polymetis_franka_teleop.Trajectory.Schedule.{last_total}
use polymetis_franka_teleop.Accumulator.Samples.{
  Samples, or_empty, get_or_empty, append_to, is_after, is_later, rest_of, put_one, and_then,
  put_key, put,
}

strict-snoc :
    (stamps : List ℕ) (t : ℕ)
    → is_strict stamps ≡ true
    → ((u : ℕ) → get_last? stamps ≡ some u → u < t)
    → is_strict (stamps ++ t ∷ []) ≡ true
unfolding is_strict
strict-snoc [] t s h = refl
strict-snoc (u ∷ []) t s h = let below = h u refl in ground arith
strict-snoc (u ∷ v ∷ stamps) t s h =
    let rest = strict-snoc (v ∷ stamps) t (ground arith) h in ground arith

is_after-last :
    (found : Option (List ℕ)) (t u : ℕ)
    → is_after found t ≡ ok true
    → get_last? (or_empty found) ≡ some u
    → u < t
unfolding is_after last_time or_empty
is_after-last none t u h last = cc
is_after-last (some xs) t u h last = ground arith

is_after_total :
    (found : Option (List ℕ)) (t : ℕ) → found ≢ some [] → (b : Bool) × (is_after found t ≡ ok b)
unfolding is_after last_time
is_after_total none t h = (true, refl)
is_after_total (some []) t h = absurd (h refl)
is_after_total (some (u ∷ xs)) t h =
    let last = last_total (u ∷ xs) (omega arith) in (ltb last.0 t, rw (last.1) refl)

is_later_known :
    (key : String) (t : ℕ) (d : Dict (List ℕ)) (e : Error)
    → (b : Bool) × (is_after (lookup key d) t ≡ ok b)
    → is_later key d t ≢ err e
unfolding is_later
is_later_known key t d e known h = cc

snoc_filled : (xs : List ℕ) (t : ℕ) → ◌≢◌ {A = Option (List ℕ)} (some (xs ++ t ∷ [])) (some [])
snoc_filled [] t e = cc
snoc_filled (x ∷ xs) t e = cc

append_to-filled :
    (t : ℕ) (j key : String) (d : Dict (List ℕ))
    → lookup j d ≢ some []
    → lookup j (append_to key t d) ≢ some []
unfolding append_to
append_to-filled t j key d h e =
    let xs = get_or_empty key d in
    let found = sym (lookup-insert key j (xs ++ t ∷ []) d) ∙ e in
    elim (Bool-cases (key == j)) [
      | inl same ↦ snoc_filled xs t (rw same at found)
      | inr other ↦ h (rw other at found)
    ]

get_or_empty-append_to :
    {X : Type 0} (key j : String) (x : X) (d : Dict (List X))
    → get_or_empty j (append_to key x d)
      ≡ (if key == j then get_or_empty key d ++ x ∷ [] else get_or_empty j d)
unfolding get_or_empty append_to or_empty
get_or_empty-append_to key j x d =
    let found = lookup-insert key j (get_or_empty key d ++ x ∷ []) d in
    ap or_empty found ∙ elim (Bool-cases (key == j)) [ inl e ↦ rw e refl | inr e ↦ rw e refl ]

stamps_below :
    (key : String) (t : ℕ) (d : Dict (List ℕ))
    → is_later key d t ≡ ok true
    → (u : ℕ) → get_last? (get_or_empty key d) ≡ some u
    → u < t
unfolding is_later get_or_empty
stamps_below key t d h u last = is_after-last (lookup key d) t u h last

module _ {A : Type 0} where
  pub record IsAligned (s : Samples A) : Type 0 where
    pub ascending : (key : String) → is_strict (get_or_empty key s.timestamps) ≡ true
    pub aligned :
        (key : String)
        → length (get_or_empty key s.samples) ≡ length (get_or_empty key s.timestamps)
    pub filled : (key : String) → lookup key s.timestamps ≢ some []

  -- Nothing was raised, and the state is aligned.
  abbrev pub Succeeds : Samples A × Option Error → Type 0
  Succeeds r = (r.1 ≡ none) × IsAligned r.0

  and_then-Succeeds :
      (r : Samples A × Option Error) (rest : Samples A → Samples A × Option Error)
      → Succeeds r
      → ((s : Samples A) → IsAligned s → Succeeds (rest s))
      → Succeeds (and_then r rest)
  unfolding and_then
  and_then-Succeeds (s, none) rest h k = k s h.1
  and_then-Succeeds (s, some e) rest h k = cc

  put_both-IsAligned :
      (key : String) (t : ℕ) (v : A) (s : Samples A)
      → is_later key s.timestamps t ≡ ok true
      → IsAligned s
      → IsAligned (record s {
        timestamps = append_to key t s.timestamps;
        samples = append_to key v s.samples;
      })
  put_both-IsAligned key t v s later h = record {
    ascending = λ j.
        rw (get_or_empty-append_to key j t s.timestamps) (elim (Bool-cases (key == j)) [
          | inl e ↦ rw e (
              strict-snoc (get_or_empty key s.timestamps) t (h.ascending key)
                (λ u last. stamps_below key t s.timestamps later u last))
          | inr e ↦ rw e (h.ascending j)
        ]);
    aligned = λ j.
        rw (get_or_empty-append_to key j t s.timestamps, get_or_empty-append_to key j v s.samples)
          (elim (Bool-cases (key == j)) [
            | inl e ↦
                rw
                  (
                    e,
                    length-append (get_or_empty key s.timestamps) (t ∷ []),
                    length-append (get_or_empty key s.samples) (v ∷ []),
                    h.aligned key,
                  )
                  refl
            | inr e ↦ rw e (h.aligned j)
          ]);
    filled = λ j e. append_to-filled t j key s.timestamps (h.filled j) e;
  }

  put_one-Succeeds :
      (later : Result Bool) (key : String) (t : ℕ) (values : List A) (s : Samples A)
      → is_later key s.timestamps t ≡ later
      → 0 < length values
      → IsAligned s
      → Succeeds (put_one later key t values s)
  unfolding put_one
  put_one-Succeeds (err e) key t values s l long h =
      let known = is_after_total (lookup key s.timestamps) t (h.filled key) in
      absurd (is_later_known key t s.timestamps e known l)
  put_one-Succeeds (ok false) key t values s l long h = (refl, h)
  put_one-Succeeds (ok true) key t [] s l long h = absurd (omega (arith, long))
  put_one-Succeeds (ok true) key t (v ∷ values) s l long h =
      (refl, put_both-IsAligned key t v s l h)

  put_key-Succeeds :
      (key : String) (values : List A) (timestamps : List ℕ) (s : Samples A)
      → length timestamps ≤ length values
      → IsAligned s
      → Succeeds (put_key key values timestamps s)
  unfolding put_key rest_of
  put_key-Succeeds key values [] s long h = (refl, h)
  put_key-Succeeds key [] (t ∷ timestamps) s long h = absurd (omega (arith, long))
  put_key-Succeeds key (v ∷ values) (t ∷ timestamps) s long h =
      and_then-Succeeds (put_one (is_later key s.timestamps t) key t (v ∷ values) s)
        (λ next. put_key key values timestamps next)
        (put_one-Succeeds (is_later key s.timestamps t) key t (v ∷ values) s refl (omega arith) h)
        (λ next k. put_key-Succeeds key values timestamps next (omega (arith, long)) k)

  -- From a state in which the timestamps of each key strictly ascend, with as many samples, and no
  -- key has an empty list, such as the empty state: a `put` with a value of each key for each of its
  -- timestamps, also of ones that were put before or that do not ascend, raises nothing and leaves
  -- such a state.
  pub put-Succeeds :
      (items : Dict (List A)) (timestamps : List ℕ) (s : Samples A)
      → All (λ (item : String × List A). length timestamps ≤ length item.1) items
      → IsAligned s
      → Succeeds (put items timestamps s)
  unfolding put
  put-Succeeds [] timestamps s long h = (refl, h)
  put-Succeeds ((key, values) ∷ items) timestamps s long h =
      and_then-Succeeds (put_key key values timestamps s) (λ next. put items timestamps next)
        (put_key-Succeeds key values timestamps s long.0 h)
        (λ next k. put-Succeeds items timestamps next long.1 k)
