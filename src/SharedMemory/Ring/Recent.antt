-- ===== src/SharedMemory/Ring/Recent.antt =====
-- The most recent items of a ring buffer: what a put does to them, and that the reads return them.
use mathlib.Core.Option
use mathlib.Core.Path.{fun_ext}
use native.Mathlib.Decide.{dec_lt}
use native.Mathlib.Nat.{mod-lt, mod-eq-sub-mod}
use polymetis_franka_teleop.Prelude.{
  ℕ, zero, suc, ◌+◌, ◌-◌, ◌%◌, ◌≤◌, ◌<◌, String, ◌≡◌, ◌⊎◌, refl, ap, sym, ◌∙◌, Bool, Option, some,
  List, [], ◌∷◌, ◌++◌, arith, min, true,
}
use polymetis_franka_teleop.Prelude.Tests.{ltb, lt→ltb}
use polymetis_franka_teleop.Prelude.Lists.{get_elem?, get_elem?_total}
use polymetis_franka_teleop.Prelude.Result.{Result, ok, err, Error, timeout_error, assertion_error}
use polymetis_franka_teleop.Prelude.Dict.{Dict, lookup, map_values, lookup-map_values}
use polymetis_franka_teleop.Prelude.Modular.{mod-add_below, mod-add_past}
use polymetis_franka_teleop.SharedMemory.Counter.{counter_mod}
use polymetis_franka_teleop.SharedMemory.Arrays.{SharedArray, Value, Row, Columns, write_all}
use polymetis_franka_teleop.SharedMemory.Arrays.Window.{window, window_flat, window_wrapped}
use polymetis_franka_teleop.SharedMemory.Arrays.Write.{
  column, new_cell, lookup-IsSized, write_all-window, write_all-slot,
}
use polymetis_franka_teleop.SharedMemory.Arrays.Read.{read_row-lookup, read_row_total}
use polymetis_franka_teleop.SharedMemory.Arrays.Column.{column_snoc, column_cons, cons_item}
use polymetis_franka_teleop.SharedMemory.Ring.{
  Ring, put, get, get_last_k, get_all, last_idx, copy_last_k,
}
use polymetis_franka_teleop.SharedMemory.Ring.Bounds.{IsValid}

-- The last `n` items of a field, oldest first.
abbrev pub recent : {A D : Type 0} → ℕ → Ring A D → String → Option (List A)
recent n r key = column r.buffer_size (r.counter - n) n key r.shared_arrays

module _ {A N D : Type 0} (np_array : N → D → A) (r : Ring A D) (items : Dict (Value A N))
    (wait : Bool) (t t_end : ℕ) where
  after : Result (Unit {0}) × Ring A D
  after = put np_array r items wait t t_end

  loop_done :
      after.0 ≡ ok tt
      → (write_all np_array (r.counter % r.buffer_size) items r.shared_arrays).0 ≡ ok tt
  unfolding after put
  loop_done done = ground arith

  -- Of a valid ring buffer: a put that raises leaves the last `n` items of every field as they
  -- were, for `n` below the buffer size and at most the count.
  pub put_keeps :
      (n : ℕ) {e : Error}
      → IsValid r
      → n < r.buffer_size
      → n ≤ r.counter
      → (put np_array r items wait t t_end).0 ≡ err e
      → (key : String) → recent n (put np_array r items wait t t_end).1 key ≡ recent n r key
  unfolding put
  put_keeps n v small enough failed key = ground (
    arith,
    write_all-window np_array r.buffer_size (r.counter - n) n r.counter key items r.shared_arrays
        (omega arith) (omega arith),
  )

  recent-put :
      (n : ℕ) (key : String)
      → n ≤ r.counter
      → r.counter + 1 < counter_mod
      → (put np_array r items wait t t_end).0 ≡ ok tt
      → recent (n + 1) (put np_array r items wait t t_end).1 key
        ≡ column r.buffer_size
            (r.counter - n)
            (n + 1)
            key
            (write_all np_array (r.counter % r.buffer_size) items r.shared_arrays).1
  unfolding put
  recent-put n key enough word done =
      let start : r.counter + 1 - (n + 1) ≡ r.counter - n = omega arith in ground (arith, start)

  -- Of a valid ring buffer whose counter does not wrap: after a put that succeeds the last n + 1
  -- items of a field are the last `n` of before and the new one, for `n` below the buffer size and
  -- at most the count. The new item is the message's value for the field, and what the slot held
  -- before if the message leaves the field out.
  pub put_shifts :
      (n : ℕ)
      → IsValid r
      → r.counter + 1 < counter_mod
      → n < r.buffer_size
      → n ≤ r.counter
      → (put np_array r items wait t t_end).0 ≡ ok tt
      → (key : String) {a : SharedArray A D} → lookup key r.shared_arrays ≡ some a
      → (old : A) × (get_elem? a.cells (r.counter % r.buffer_size) ≡ some old)
        × (recent (n + 1) (put np_array r items wait t t_end).1 key
            ≡ Option.map
                (λ xs. xs ++ new_cell np_array key a.dtype old items ∷ [])
                (recent n r key))
  unfolding after
  put_shifts n v word small enough done key {a} there =
      let b = r.buffer_size in
      let w = r.counter in
      let written = write_all np_array (w % b) items r.shared_arrays in
      let b_pos : 0 < b = omega arith in
      let slot =
        get_elem?_total a.cells (w % b)
          (omega (arith, lookup-IsSized b key r.shared_arrays v.sized there, mod-lt w b_pos)) in
      let stored =
        write_all-slot np_array (w % b) key items r.shared_arrays (loop_done done) there slot.1 in
      let last_slot : (w - n + n) % b ≡ w % b = ap (λ (t : ℕ). t % b) (omega arith) in
      (
        slot.0,
        slot.1,
        recent-put n key enough word done
            ∙ column_snoc b (w - n) key written.1 n stored.1
                (ap (get_elem? stored.0.cells) last_slot ∙ stored.2)
            ∙ ap (Option.map (λ xs. xs ++ new_cell np_array key a.dtype slot.0 items ∷ [])) (
                write_all-window np_array b (w - n) n w key items r.shared_arrays (omega arith)
                  (omega arith)),
      )

-- The last slot, counted from the first of the last `k` items.
last_slot_lem : (b k c : ℕ) → suc k ≤ c → 0 < b → (c + b - 1) % b ≡ (c - suc k + k) % b
last_slot_lem b k c l p =
    mod-eq-sub-mod {n = c + b - 1} {m = b} (omega arith) ∙ ap (λ (t : ℕ). t % b) (omega arith)

-- The two slices of `get_last_k` are the last `k` items.
copy_last_k-eq-window :
    {A : Type 0} (b k c : ℕ) (cells : List A)
    → k ≤ b
    → k ≤ c
    → 0 < b
    → copy_last_k b k ((c + b - 1) % b) cells ≡ window cells b (c - k) k
unfolding copy_last_k window
copy_last_k-eq-window b zero c cells h l p = ground arith
copy_last_k-eq-window b (suc k) c cells h l p =
    let j = c - suc k in
    let s = j % b in
    elim (dec_lt (s + k) b) [
      | yes fits ↦
          let i : (c + b - 1) % b ≡ s + k = last_slot_lem b k c l p ∙ mod-add_below b j k fits in
          let start : s + k + 1 - suc k ≡ s = omega arith in
          ground (arith, i, start, window_flat cells b j (suc k) s refl (omega arith))
      | no past ↦
          let near : s < b = mod-lt j p in
          let i : (c + b - 1) % b ≡ s + k - b =
            last_slot_lem b k c l p ∙ mod-add_past b j k (omega arith) (omega arith) in
          let stop : s + k - b + 1 ≡ s + suc k - b = omega arith in
          let start : s + suc k - b - suc k ≡ 0 = omega arith in
          let rest : suc k - (s + suc k - b - 0) ≡ b - s = omega arith in
          let back : b - (b - s) ≡ s = omega arith in
          let none_cut : s + suc k - b - 0 ≡ s + suc k - b = omega arith in
          let left : ltb 0 (b - s) ≡ true = lt→ltb 0 (b - s) (omega arith) in
          rw (i, stop, start, rest, left, back, none_cut)
            (sym (window_wrapped cells b j (suc k) s refl near (omega arith) h))
    ]

module _ {A D : Type 0} (r : Ring A D) (start_time end_time : ℕ) where
  -- Of a valid ring buffer, for at most `get_max_k` and at most `count` items and a copy within the
  -- time budget: `get_last_k` returns the last `k` items of each field, oldest first.
  pub get_last_k-recent :
      (k : ℕ)
      → IsValid r
      → k ≤ r.get_max_k
      → k ≤ r.counter
      → end_time ≤ start_time + r.get_time_budget
      → (items : Columns A) × (get_last_k k r start_time end_time ≡ ok items)
        × ((key : String) → lookup key items ≡ recent k r key)
  unfolding get_last_k
  get_last_k-recent k v few enough quick = (
    map_values (λ a. copy_last_k r.buffer_size k (last_idx r) a.cells) r.shared_arrays,
    ground arith,
    λ key. same key,
  )
    where
      same :
          (key : String)
          → lookup key
              (map_values (λ a. copy_last_k r.buffer_size k (last_idx r) a.cells) r.shared_arrays)
            ≡ recent k r key
      same key = rw lookup-map_values (
          unfold column last_idx in
          ap (λ (f : SharedArray A D → List A). Option.map f (lookup key r.shared_arrays))
            (fun_ext (λ a.
              copy_last_k-eq-window r.buffer_size k r.counter a.cells (omega (arith, v.room)) enough
                (omega (arith, v.room)))))

  -- `get_last_k` fails an assertion for more than `get_max_k` or more than `count` items, and
  -- raises TimeoutError if the copy took longer than the time budget.
  pub get_last_k_fails :
      (k : ℕ)
      → ((r.get_max_k < k) ⊎ (r.counter < k)
          → get_last_k k r start_time end_time ≡ err assertion_error)
        × (k ≤ r.get_max_k
            → k ≤ r.counter
            → start_time + r.get_time_budget < end_time
            → get_last_k k r start_time end_time ≡ err timeout_error)
  unfolding get_last_k
  get_last_k_fails k = ground arith

  -- Of a valid ring buffer that holds an item, for a copy within the time budget: `get` returns the
  -- last item of each field.
  pub get_last :
      IsValid r
      → 0 < r.counter
      → end_time ≤ start_time + r.get_time_budget
      → (row : Row A) × (get r start_time end_time ≡ ok row)
        × ((key : String) → recent 1 r key ≡ cons_item (lookup key row) (recent 0 r key))
  unfolding get last_idx
  get_last v some_put quick =
      let b = r.buffer_size in
      let c = r.counter in
      let b_pos : 0 < b = omega (arith, v.room) in
      let row = read_row_total b ((c - 1) % b) r.shared_arrays v.sized (mod-lt (c - 1) b_pos) in
      let idx : (c + b - 1) % b ≡ (c - 1) % b =
        mod-eq-sub-mod {n = c + b - 1} {m = b} (omega arith)
        ∙ ap (λ (t : ℕ). t % b) (omega arith) in
      let next : c - 1 + 1 ≡ c - 0 = omega arith in
      (
        row.0,
        ground (arith, idx, row.1),
        λ key. ground (
          arith,
          next,
          read_row-lookup ((c - 1) % b) r.shared_arrays row.1 key,
          column_cons b (c - 1) key r.shared_arrays 0 v.sized (mod-lt (c - 1) b_pos),
        ),
      )

  -- Of a valid ring buffer, for a copy within the time budget: `get_all` returns the last items of
  -- each field, as many as were put and at most `get_max_k`.
  pub get_all-recent :
      IsValid r
      → end_time ≤ start_time + r.get_time_budget
      → (items : Columns A) × (get_all r start_time end_time ≡ ok items)
        × ((key : String) → lookup key items ≡ recent (min r.counter r.get_max_k) r key)
  unfolding get_all
  get_all-recent v quick =
      get_last_k-recent (min r.counter r.get_max_k) v (omega arith) (omega arith) quick
