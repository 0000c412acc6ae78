-- ===== src/Accumulator/Windows/Puts.antt =====
-- What a put of one action changes, and what is there after an action was put for each window.
use polymetis_franka_teleop.Prelude.{
  ℕ, zero, suc, ◌+◌, ◌*◌, ◌<◌, ◌≤◌, max, ◌≡◌, ◌≢◌, refl, sym, ◌∙◌, false, Option, none, some, List,
  [], ◌∷◌, arith,
}
use polymetis_franka_teleop.Prelude.Tests.{ltb, if_cases}
use polymetis_franka_teleop.Prelude.Lists.{
  length, get_elem?, set, take, length-set, get_elem?-set_self, get_elem?-set_ne,
}
use polymetis_franka_teleop.Prelude.Int.{ℤ, pos, ◌+ℤ◌, ◌-ℤ◌}
use polymetis_franka_teleop.Accumulator.Idxs.{
  range_ℤ, n_repeats, append_repeats, or_first, is_skipped, accumulate_from,
  get_accumulate_timestamp_idxs,
}
use polymetis_franka_teleop.Accumulator.Idxs.First.{from_take}
use polymetis_franka_teleop.Accumulator.Windows.{
  Arrays, Buffers, Accumulated, first_actions, first_stamps, actions, actual_timestamps, pick_rows,
  write_rows, allocate, grow, write_stamps, write_actions, put_picked, put,
}

-- np.resize gives the length that is asked for, and a longer array begins with the old rows.
pub record IsArrays {X : Type 0} (np : Arrays X) : Type 0 where
  pub resized : (xs : List X) (n : ℕ) → length (np.np_resize xs n) ≡ n
  pub kept :
      (xs : List X) (n i : ℕ)
      → length xs ≤ n
      → i < length xs
      → get_elem? (np.np_resize xs n) i ≡ get_elem? xs i

unfoldable pub length_of : {T A : Type 0} → Option (Buffers T A) → ℕ
length_of none = 0
length_of (some b) = length b.timestamp_buffer

-- The buffers have the same length.
unfoldable pub IsEven : {T A : Type 0} → Option (Buffers T A) → Type 0
IsEven none = Unit
IsEven (some b) = length b.action_buffer ≡ length b.timestamp_buffer

pub get_elem?-take :
    {X : Type 0} (n i : ℕ) (xs : List X) → i < n → get_elem? (take n xs) i ≡ get_elem? xs i
get_elem?-take zero i xs h = absurd (omega arith)
get_elem?-take (suc n) i [] h = refl
get_elem?-take (suc n) zero (x ∷ xs) h = refl
get_elem?-take (suc n) (suc i) (x ∷ xs) h = get_elem?-take n i xs (omega arith)

module _ {T A : Type 0} (np : Arrays A) (tp : Arrays T) (np_is : IsArrays np)
    (tp_is : IsArrays tp) where
  -- The buffers are long enough, and hold what the old ones held.
  record IsRoom (m : ℕ) (old new : Buffers T A) : Type 0 where
    even : length new.action_buffer ≡ length new.timestamp_buffer
    enough : m ≤ length new.timestamp_buffer
    longer : length old.timestamp_buffer ≤ length new.timestamp_buffer
    same :
        (i : ℕ)
        → i < length old.action_buffer
        → get_elem? new.action_buffer i ≡ get_elem? old.action_buffer i
    same_stamps :
        (i : ℕ)
        → i < length old.timestamp_buffer
        → get_elem? new.timestamp_buffer i ≡ get_elem? old.timestamp_buffer i

  grow-IsRoom :
      (m : ℕ) (b : Buffers T A)
      → length b.action_buffer ≡ length b.timestamp_buffer
      → IsRoom m b (grow np tp m b)
  unfolding grow
  grow-IsRoom m b even =
      let new_size = max m (length b.timestamp_buffer * 2) in
      let rows = np_is.resized b.action_buffer new_size in
      let stamps = tp_is.resized b.timestamp_buffer new_size in
      if_cases (IsRoom m b) (ltb (length b.timestamp_buffer) m)
        (λ e. record {
          even = rows ∙ sym stamps;
          enough = omega (arith, stamps);
          longer = omega (arith, stamps);
          same = λ i below. np_is.kept b.action_buffer new_size i (omega arith) below;
          same_stamps = λ i below. tp_is.kept b.timestamp_buffer new_size i (omega arith) below;
        })
        (λ e. record {
          even = even;
          enough = ground arith;
          longer = omega arith;
          same = λ i below. refl;
          same_stamps = λ i below. refl;
        })

  allocate-even :
      (buffers : Option (Buffers T A))
      → IsEven buffers
      → (length (allocate np tp 1 buffers).action_buffer
          ≡ length (allocate np tp 1 buffers).timestamp_buffer)
        × (length_of buffers ≤ length (allocate np tp 1 buffers).timestamp_buffer)
  unfolding allocate length_of IsEven
  allocate-even none h = (refl, omega arith)
  allocate-even (some b) h = (h, omega arith)

  get_elem?-allocate :
      (i size : ℕ) (buffers : Option (Buffers T A))
      → size ≤ length_of buffers
      → i < size
      → get_elem? (allocate np tp 1 buffers).action_buffer i
        ≡ get_elem? (first_actions size buffers) i
  unfolding allocate first_actions length_of
  get_elem?-allocate i size none h below = absurd (omega arith)
  get_elem?-allocate i size (some b) h below = sym (get_elem?-take size i b.action_buffer below)

  get_elem?-allocate_stamps :
      (i size : ℕ) (buffers : Option (Buffers T A))
      → size ≤ length_of buffers
      → i < size
      → get_elem? (allocate np tp 1 buffers).timestamp_buffer i
        ≡ get_elem? (first_stamps size buffers) i
  unfolding allocate first_stamps length_of
  get_elem?-allocate_stamps i size none h below = absurd (omega arith)
  get_elem?-allocate_stamps i size (some b) h below =
      sym (get_elem?-take size i b.timestamp_buffer below)

one_window : (w : ℕ) → n_repeats (pos w) (pos w) ≡ 1
unfolding n_repeats ◌+ℤ◌ ◌-ℤ◌
one_window w = ground arith

picked_window :
    (z : ℤ) (w : ℕ)
    → z ≡ pos w
    → append_repeats 0 z (n_repeats z z) (record {
      local_idxs = [];
      global_idxs = [];
      next_global_idx = some (z +ℤ pos (n_repeats z z));
    })
      ≡ record {
        local_idxs = 0 ∷ [];
        global_idxs = pos w ∷ [];
        next_global_idx = some (pos w +ℤ pos 1);
      }
unfolding append_repeats range_ℤ
picked_window z w h = rw (h, one_window w) refl

is_skipped-pos :
    {T : Type 0} (window_of : T → ℤ) (t : T) (w : ℕ)
    → window_of t ≡ pos w
    → is_skipped window_of false t ≡ false
unfolding is_skipped
is_skipped-pos window_of t w h = rw h (ground arith)

-- The window that is picked for one timestamp.
picked_one :
    {T : Type 0} (window_of : T → ℤ) (t : T) (w : ℕ)
    → window_of t ≡ pos w
    → get_accumulate_timestamp_idxs window_of false (t ∷ []) none ≡ record {
      local_idxs = 0 ∷ [];
      global_idxs = pos w ∷ [];
      next_global_idx = some (pos w +ℤ pos 1);
    }
unfolding get_accumulate_timestamp_idxs accumulate_from or_first
picked_one window_of t w h =
    from_take window_of false 0 none t [] (is_skipped-pos window_of t w h)
    ∙ picked_window (window_of t) w h

-- The buffers hold at least the rows that count.
pub record IsSized {T A : Type 0} (s : Accumulated T A) : Type 0 where
  pub fit : s.size ≤ length_of s.buffers
  pub even : IsEven s.buffers

-- What one put changes: the row of the window `w`.
pub record IsPut {T A : Type 0} (w : ℕ) (a : A) (t : T) (s after : Accumulated T A) : Type 0 where
  pub sized : IsSized after
  pub size : after.size ≡ max s.size (w + 1)
  pub action : get_elem? (actions after) w ≡ some a
  pub stamp : get_elem? (actual_timestamps after) w ≡ some t
  pub others : (i : ℕ) → i < s.size → i ≢ w → get_elem? (actions after) i ≡ get_elem? (actions s) i
  pub other_stamps :
      (i : ℕ)
      → i < s.size
      → i ≢ w
      → get_elem? (actual_timestamps after) i ≡ get_elem? (actual_timestamps s) i

module _ {T A : Type 0} (np : Arrays A) (tp : Arrays T) (np_is : IsArrays np)
    (tp_is : IsArrays tp) where
  put_one-result :
      (window_of : T → ℤ) (a : A) (t : T) (w : ℕ) (s : Accumulated T A)
      → window_of t ≡ pos w
      → put np tp window_of (a ∷ []) (t ∷ []) s ≡ (
        record s {
          buffers = some (record {
            action_buffer = set (grow np tp (w + 1) (allocate np tp 1 s.buffers)).action_buffer w a;
            timestamp_buffer =
                set (grow np tp (w + 1) (allocate np tp 1 s.buffers)).timestamp_buffer w t;
          });
          size = max s.size (w + 1);
        },
        none,
      )
  unfolding put put_picked write_actions write_stamps pick_rows write_rows
  put_one-result window_of a t w s h = let picked = picked_one window_of t w h in rw picked refl

  -- When numpy's resize behaves as documented, a put of one action at a time in the window `w`
  -- raises nothing: the action and its time are the rows `w`, of the other rows that count the
  -- actions and the times stay, and as many rows count as before, or up to the window.
  pub put-IsPut :
      (window_of : T → ℤ) (a : A) (t : T) (w : ℕ) (s : Accumulated T A)
      → window_of t ≡ pos w
      → IsSized s
      → ((put np tp window_of (a ∷ []) (t ∷ []) s).1 ≡ none)
        × IsPut w a t s (put np tp window_of (a ∷ []) (t ∷ []) s).0
  unfolding actions actual_timestamps first_actions first_stamps length_of IsEven
  put-IsPut window_of a t w s h sized =
      let result = put_one-result window_of a t w s h in
      let old = allocate np tp 1 s.buffers in
      let start = allocate-even np tp np_is tp_is s.buffers sized.even in
      let room = grow-IsRoom np tp np_is tp_is (w + 1) old start.0 in
      let new = grow np tp (w + 1) old in
      let rows = length-set new.action_buffer w a in
      let stamps = length-set new.timestamp_buffer w t in
      rw result (
        refl,
        record {
          sized = record {
            fit = omega (arith, stamps, sized, room, start);
            even = rows ∙ room.even ∙ sym stamps;
          };
          size = refl;
          action =
              get_elem?-take _ w _ (omega arith) ∙ get_elem?-set_self _ w a (omega (arith, room));
          stamp =
              get_elem?-take _ w _ (omega arith) ∙ get_elem?-set_self _ w t (omega (arith, room));
          others = λ i below other.
              get_elem?-take _ i _ (omega arith)
              ∙ get_elem?-set_ne _ w i a (λ e. other (sym e))
              ∙ room.same i (omega (arith, sized, start))
              ∙ get_elem?-allocate np tp np_is tp_is i s.size s.buffers sized.fit below;
          other_stamps = λ i below other.
              get_elem?-take _ i _ (omega arith)
              ∙ get_elem?-set_ne _ w i t (λ e. other (sym e))
              ∙ room.same_stamps i (omega (arith, sized, start))
              ∙ get_elem?-allocate_stamps np tp np_is tp_is i s.size s.buffers sized.fit below;
        },
      )
