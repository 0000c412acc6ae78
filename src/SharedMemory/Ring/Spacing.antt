-- ===== src/SharedMemory/Ring/Spacing.antt =====
-- How long an item stays in the ring buffer: the stamps, and what a put waits for.
use mathlib.Core.Path.{subst}
use native.Mathlib.Decide.{dec_lt}
use native.Mathlib.Nat.{mod-lt, mod-eq-sub-mod, mod-add-mod}
use polymetis_franka_teleop.Prelude.{
  ℕ, ◌+◌, ◌-◌, ◌%◌, ◌≤◌, ◌<◌, ◌≡◌, refl, ap, sym, ◌∙◌, ◌⊎◌, inl, inr, Bool, true, false, some, List,
  arith,
}
use polymetis_franka_teleop.Prelude.Lists.{
  length, get_elem?, set, get_elem?-set_self, get_elem?-set_ne,
}
use polymetis_franka_teleop.Prelude.Modular.{mod-ne_of_near}
use polymetis_franka_teleop.Prelude.Result.{ok}
use polymetis_franka_teleop.Prelude.Dict.{Dict}
use polymetis_franka_teleop.SharedMemory.Counter.{counter_mod}
use polymetis_franka_teleop.SharedMemory.Arrays.{Value}
use polymetis_franka_teleop.SharedMemory.Ring.{Ring, Stamp, put, lookahead_idx}
use polymetis_franka_teleop.SharedMemory.Ring.Bounds.{IsValid}

module _ (stamps : List Stamp) (b count : ℕ) where
  -- The slot of the item with count `j` is stamped `s`.
  abbrev pub StampedAt : ℕ → ℕ → Type 0
  StampedAt j s = get_elem? stamps (j % b) ≡ some (some s)

  -- The count `j` is one of the last `b`.
  abbrev pub IsHeld : ℕ → Type 0
  IsHeld j = (j < count) × (count ≤ j + b)

  -- The items that are held were stamped in their order, and not after `now`.
  pub record AreTimed (now : ℕ) : Type 0 where
    pub stamped : (j : ℕ) → IsHeld j → (s : ℕ) × StampedAt j s
    pub past : (j s : ℕ) → IsHeld j → StampedAt j s → s ≤ now
    pub ordered :
        (i j s u : ℕ) → i ≤ j → IsHeld i → IsHeld j → StampedAt i s → StampedAt j u → s ≤ u

abbrev pub IsTimed : {A D : Type 0} → Ring A D → ℕ → Type 0
IsTimed r now = AreTimed r.timestamps r.buffer_size r.counter now

-- What `time.sleep` promises: it lasts at least as long as it is asked to. A put that waits asks
-- for what is left of the budget since the stamp that it looked at.
abbrev pub Slept : {A D : Type 0} → Ring A D → ℕ → ℕ → Type 0
Slept r t t_end =
    (s : ℕ)
    → get_elem? r.timestamps (lookahead_idx r) ≡ some (some s)
    → t < s + r.get_time_budget
    → t + (r.get_time_budget - (t - s)) ≤ t_end

lookahead_lem : (b c k : ℕ) → 0 < k → 0 < b → b ≤ c → (c % b + k + b - 1) % b ≡ (c + k - 1 - b) % b
lookahead_lem b c k k_pos b_pos full =
    mod-eq-sub-mod {n = c % b + k + b - 1} {m = b} (omega arith)
    ∙ ap (λ (t : ℕ). t % b) (omega arith)
    ∙ mod-add-mod c b (k - 1)
    ∙ mod-eq-sub-mod {n = c + (k - 1)} {m = b} (omega arith)
    ∙ ap (λ (t : ℕ). t % b) (omega arith)

module _ (stamps : List Stamp) (b count t_end : ℕ) where
  abbrev stamps' : List Stamp
  stamps' = set stamps (count % b) (some t_end)

  stamp_new : 0 < b → length stamps ≡ b → StampedAt stamps' b (count + 1) count t_end
  stamp_new b_pos len =
      get_elem?-set_self stamps (count % b) (some t_end) (omega (arith, mod-lt count b_pos))

  -- The stamps of the other items that are still held are as before.
  stamp_old :
      (j : ℕ) → j < count → count < j + b → get_elem? stamps' (j % b) ≡ get_elem? stamps (j % b)
  stamp_old j h k =
      get_elem?-set_ne stamps (count % b) (j % b) (some t_end)
        (λ e. mod-ne_of_near b j count h k (sym e))

  stamp_cases :
      (j s : ℕ)
      → 0 < b
      → length stamps ≡ b
      → IsHeld stamps' b (count + 1) j
      → StampedAt stamps' b (count + 1) j s
      → ((j ≡ count) × (s ≡ t_end)) ⊎ ((IsHeld stamps b count j) × (StampedAt stamps b count j s))
  stamp_cases j s b_pos len held at = elim (dec_lt j count) [
    | yes h ↦ inr ((h, omega arith), sym (stamp_old j h (omega arith)) ∙ at)
    | no h ↦ let e : j ≡ count = omega arith in inl (e, ground (arith, at, e, stamp_new b_pos len))
  ]

  stamp_keeps :
      {now : ℕ}
      → 0 < b
      → length stamps ≡ b
      → now ≤ t_end
      → AreTimed stamps b count now
      → AreTimed stamps' b (count + 1) t_end
  stamp_keeps b_pos len forward timed = record {
    stamped = λ j held. elim (dec_lt j count) [
      | yes h ↦
          let (s, at) = timed.stamped j (h, omega arith) in (s, stamp_old j h (omega arith) ∙ at)
      | no h ↦
          let e : count ≡ j = omega arith in
          (t_end, subst (λ k. StampedAt stamps' b (count + 1) k t_end) e (stamp_new b_pos len))
    ];
    past = λ j s held at. elim (stamp_cases j s b_pos len held at) [
      | inl new ↦ omega arith
      | inr old ↦ omega (arith, timed.past j s old.0 old.1)
    ];
    ordered = λ i j s u le held_i held_j at_i at_j. elim (stamp_cases j u b_pos len held_j at_j) [
      | inl new ↦ elim (stamp_cases i s b_pos len held_i at_i) [
        | inl new' ↦ omega arith
        | inr old ↦ omega (arith, timed.past i s old.0 old.1)
      ]
      | inr old ↦ elim (stamp_cases i s b_pos len held_i at_i) [
        | inl new' ↦ absurd (omega (arith, old.0.0))
        | inr old' ↦ timed.ordered i j s u le old'.0 old.0 old'.1 old.1
      ]
    ];
  }

module _ {A N D : Type 0} (np_array : N → D → A) (r : Ring A D) (items : Dict (Value A N))
    (now t t_end : ℕ) where
  -- A put that succeeds ends a whole budget after the stamp that it looked at.
  put_waits :
      (wait : Bool) (s : ℕ)
      → t ≤ t_end
      → (wait ≡ true → Slept r t t_end)
      → (put np_array r items wait t t_end).0 ≡ ok tt
      → get_elem? r.timestamps (lookahead_idx r) ≡ some (some s)
      → s ≤ t
      → s + r.get_time_budget ≤ t_end
  unfolding put
  put_waits true s forward slept done look before = elim (dec_lt t (s + r.get_time_budget)) [
    | yes early ↦ omega (arith, slept refl s look early)
    | no late ↦ omega arith
  ]
  put_waits false s forward slept done look before = ground (arith, look)

  -- Of a valid ring buffer that has gone round, with stamps in order and a clock that does not go
  -- back: a put that succeeds, waiting or not, ends at least the time budget after the stamp of the
  -- item in its slot and of the items in the following slots, `get_max_k` slots in all.
  pub put_spaced :
      (wait : Bool) (i s : ℕ)
      → IsValid r
      → IsTimed r now
      → now ≤ t
      → t ≤ t_end
      → (wait ≡ true → Slept r t t_end)
      → (put np_array r items wait t t_end).0 ≡ ok tt
      → r.buffer_size ≤ r.counter
      → i < r.get_max_k
      → StampedAt r.timestamps r.buffer_size r.counter (r.counter - r.buffer_size + i) s
      → s + r.get_time_budget ≤ t_end
  unfolding lookahead_idx
  put_spaced wait i s v timed forward forward' slept done full in_reach at =
      let b = r.buffer_size in
      let c = r.counter in
      let j = c + r.get_max_k - 1 - b in
      let (u, at_u) = timed.stamped j (omega (arith, v.room), omega arith) in
      let seen = timed.past j u (omega (arith, v.room), omega arith) at_u in
      let sooner =
        timed.ordered (c - b + i) j s u (omega arith) (omega (arith, v.room), omega arith)
          (omega (arith, v.room), omega arith) at at_u in
      let idx = lookahead_lem b c r.get_max_k (omega arith) (omega (arith, v.room)) full in
      let waited =
        put_waits wait u forward' slept done (ap (get_elem? r.timestamps) idx ∙ at_u)
          (omega arith) in
      omega arith

  buffer_size-put :
      (wait : Bool) → (put np_array r items wait t t_end).1.buffer_size ≡ r.buffer_size
  unfolding put
  buffer_size-put wait = ground arith

  put_stamps :
      (wait : Bool)
      → r.counter + 1 < counter_mod
      → let r' = (put np_array r items wait t t_end).1 in
        ((r'.timestamps ≡ r.timestamps) × (r'.counter ≡ r.counter))
        ⊎ ((r'.timestamps ≡ set r.timestamps (r.counter % r.buffer_size) (some t_end))
            × (r'.counter ≡ r.counter + 1))
  unfolding put
  put_stamps wait word = ground arith

  -- A put, whatever its outcome, keeps the stamps of the items that are held in the order of the
  -- items and not after the clock, if the clock does not go back and the counter does not wrap.
  pub put-IsTimed :
      (wait : Bool)
      → IsValid r
      → r.counter + 1 < counter_mod
      → IsTimed r now
      → now ≤ t_end
      → IsTimed (put np_array r items wait t t_end).1 t_end
  put-IsTimed wait v word timed forward = elim (put_stamps wait word) [
    | inl same ↦
        rw (same.0, same.1, buffer_size-put wait)
          (record {
            stamped = timed.stamped;
            past = λ j s held at. omega (arith, timed.past j s held at);
            ordered = timed.ordered;
          })
    | inr new ↦
        rw (new.0, new.1, buffer_size-put wait)
          (stamp_keeps r.timestamps r.buffer_size r.counter t_end (omega (arith, v.room)) v.stamped
            forward timed)
  ]
