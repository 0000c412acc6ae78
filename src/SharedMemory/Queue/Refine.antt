-- ===== src/SharedMemory/Queue/Refine.antt =====
-- Each method does to the contents what a bounded first-in first-out queue does.
use mathlib.Core.Option
use mathlib.Core.List.{append-nil}
use native.Mathlib.Decide.{dec_le}
use native.Mathlib.Nat.{mod-lt}
use polymetis_franka_teleop.Prelude.{
  ℕ, suc, ◌+◌, ◌-◌, ◌%◌, ◌≤◌, ◌<◌, String, ◌≡◌, ◌↔◌, refl, ap, inl, inr, ◌∙◌, some, List, [], ◌∷◌,
  ◌++◌, arith,
}
use polymetis_franka_teleop.Prelude.Tests.{Option-cases}
use polymetis_franka_teleop.Prelude.Lists.{get_elem?, take, drop, get_elem?_total}
use polymetis_franka_teleop.Prelude.Result.{ok, err, Error, full, empty, assertion_error}
use polymetis_franka_teleop.Prelude.Dict.{Dict, lookup, lookup-map_values}
use polymetis_franka_teleop.SharedMemory.Counter.{counter_mod}
use polymetis_franka_teleop.SharedMemory.Arrays.{SharedArray, Value, Row, Columns, write_all}
use polymetis_franka_teleop.SharedMemory.Arrays.Window.{window, window_flat, window_wrapped}
use polymetis_franka_teleop.SharedMemory.Arrays.Write.{
  lookup-IsSized, column, new_cell, write_all-window, write_all-slot, write_all-ne-full,
}
use polymetis_franka_teleop.SharedMemory.Arrays.Read.{read_row-lookup, read_row_total}
use polymetis_franka_teleop.SharedMemory.Queue.{Queue, get, get_k, get_all, put, copy_k, get_k_impl}
use polymetis_franka_teleop.SharedMemory.Queue.Fifo.{contents, IsValid}
use polymetis_franka_teleop.SharedMemory.Arrays.Column.{
  cons_item, append_items, column-append, column_snoc, column_cons,
}

-- The two slices of `_get_k_impl` are the `k` items from `read_count` on.
pub copy_k-eq-window :
    {A : Type 0} (b k j : ℕ) (cells : List A)
    → k ≤ b
    → 0 < b
    → copy_k b k j cells ≡ window cells b j k
unfolding copy_k
copy_k-eq-window b k j cells h p = elim (dec_le (j % b + k) b) [
  | yes fits ↦
      ground
        (arith, window_flat cells b j k (j % b) refl fits, append-nil (take k (drop (j % b) cells)))
  | no past ↦ ground (arith, window_wrapped cells b j k (j % b) refl (mod-lt j p) (omega arith) h)
]

module _ {A N D : Type 0} (np_array : N → D → A) (q : Queue A D) (items : Dict (Value A N)) where
  -- Of a valid queue: a put that raises, whatever it raises, leaves the contents of every field as
  -- they were, also where it had written some fields of the message.
  pub put_fails :
      {e : Error}
      → IsValid q
      → (put np_array q items).0 ≡ err e
      → (key : String) → contents (put np_array q items).1 key ≡ contents q key
  unfolding put
  put_fails v h key = ground (
    arith,
    write_all-window np_array q.buffer_size q.read_counter (q.write_counter - q.read_counter)
        q.write_counter key items q.shared_arrays,
  )

  not_full :
      IsValid q
      → (put np_array q items).0 ≡ ok tt
      → q.write_counter < q.read_counter + q.buffer_size
  unfolding put
  not_full v done = ground arith

  loop_done :
      IsValid q
      → (put np_array q items).0 ≡ ok tt
      → (write_all np_array (q.write_counter % q.buffer_size) items q.shared_arrays).0 ≡ ok tt
  unfolding put
  loop_done v done = ground arith

  contents-put :
      IsValid q
      → q.write_counter + 1 < counter_mod
      → (put np_array q items).0 ≡ ok tt
      → (key : String)
      → contents (put np_array q items).1 key
        ≡ column q.buffer_size q.read_counter
            (q.write_counter - q.read_counter + 1)
            key
            (write_all np_array (q.write_counter % q.buffer_size) items q.shared_arrays).1
  unfolding put
  contents-put v word done key =
      let grown : q.write_counter + 1 - q.read_counter ≡ q.write_counter - q.read_counter + 1 =
        omega (arith, v.order) in
      ground (arith, grown)

  -- Of a valid queue whose counter does not wrap: a put that succeeds appends one item to each
  -- field that the queue has. The item is the message's value for the field, and what the slot held
  -- before if the message leaves the field out.
  pub put_appends :
      IsValid q
      → q.write_counter + 1 < counter_mod
      → (put np_array q items).0 ≡ ok tt
      → (key : String) {a : SharedArray A D} → lookup key q.shared_arrays ≡ some a
      → (old : A) × (get_elem? a.cells (q.write_counter % q.buffer_size) ≡ some old)
        × (contents (put np_array q items).1 key
            ≡ Option.map
                (λ xs. xs ++ new_cell np_array key a.dtype old items ∷ [])
                (contents q key))
  put_appends v word done key {a} there =
      let b = q.buffer_size in
      let r = q.read_counter in
      let w = q.write_counter in
      let n = w - r in
      let written = write_all np_array (w % b) items q.shared_arrays in
      let room : w < r + b = not_full v done in
      let b_pos : 0 < b = omega (arith, v.order) in
      let last_slot : (r + n) % b ≡ w % b = ap (λ (t : ℕ). t % b) (omega (arith, v.order)) in
      let slot =
        get_elem?_total a.cells (w % b)
          (omega (arith, lookup-IsSized b key q.shared_arrays v.sized there, mod-lt w b_pos)) in
      let stored =
        write_all-slot np_array (w % b) key items q.shared_arrays (loop_done v done) there slot.1 in
      (
        slot.0,
        slot.1,
        contents-put v word done key
            ∙ column_snoc b r key written.1 n stored.1
                (ap (get_elem? stored.0.cells) last_slot ∙ stored.2)
            ∙ ap (Option.map (λ xs. xs ++ new_cell np_array key a.dtype slot.0 items ∷ []))
                (write_all-window np_array b r n w key items q.shared_arrays (omega arith) room),
      )

  -- Of a valid queue: a put raises Full exactly if the queue holds `buffer_size` items.
  pub put_full :
      IsValid q
      → ((put np_array q items).0 ≡ err full) ↔ (q.write_counter ≡ q.read_counter + q.buffer_size)
  unfolding put
  put_full v =
      let loop =
        write_all-ne-full np_array (q.write_counter % q.buffer_size) items q.shared_arrays in
      (ground (arith, loop), ground arith)

module _ {A D : Type 0} (q : Queue A D) where
  get_k_impl-eq-column :
      (k j : ℕ) (key : String)
      → k ≤ q.buffer_size
      → 0 < q.buffer_size
      → lookup key (get_k_impl q k j) ≡ column q.buffer_size j k key q.shared_arrays
  unfolding get_k_impl column
  get_k_impl-eq-column k j key h p = elim (Option-cases (lookup key q.shared_arrays)) [
    | inl e ↦ rw (lookup-map_values, e)
    | inr (a, e) ↦
        rw (lookup-map_values, e) (ap some (copy_k-eq-window q.buffer_size k j a.cells h p))
  ]

  -- Of a valid queue that is not empty: a get returns a row, and the contents of each field are the
  -- row's item followed by the contents that the get leaves.
  pub get_takes :
      IsValid q
      → q.read_counter < q.write_counter
      → (row : Row A) × ((get q).0 ≡ ok row)
        × ((key : String) → contents q key ≡ cons_item (lookup key row) (contents (get q).1 key))
  unfolding get
  get_takes v some_left =
      let b = q.buffer_size in
      let r = q.read_counter in
      let left = q.write_counter - (r + 1) in
      let b_pos : 0 < b = omega (arith, v.fits) in
      let row = read_row_total b (r % b) q.shared_arrays v.sized (mod-lt r b_pos) in
      let count : q.write_counter - r ≡ suc left = omega arith in
      (
        row.0,
        ground (arith, row.1),
        λ key. ground (
          arith,
          count,
          row.1,
          read_row-lookup (r % b) q.shared_arrays row.1 key,
          column_cons b r key q.shared_arrays left v.sized (mod-lt r b_pos),
        ),
      )

  pub get_empty : IsValid q → q.read_counter ≡ q.write_counter → get q ≡ (err empty, q)
  unfolding get
  get_empty v e = ground arith

  -- Of a valid queue that is not empty, for at most as many items as it holds: `get_k` returns
  -- lists such that the contents of each field are the list followed by the contents that are left.
  pub get_k_takes :
      (k : ℕ)
      → IsValid q
      → q.read_counter < q.write_counter
      → q.read_counter + k ≤ q.write_counter
      → (items : Columns A) × ((get_k k q).0 ≡ ok items)
        × ((key : String)
            → contents q key ≡ append_items (lookup key items) (contents (get_k k q).1 key))
  unfolding get_k
  get_k_takes k v some_left enough =
      let r = q.read_counter in
      let left = q.write_counter - (r + k) in
      let count : q.write_counter - r ≡ k + left = omega arith in
      (
        get_k_impl q k r,
        ground arith,
        λ key. ground (
          arith,
          count,
          get_k_impl-eq-column k r key (omega (arith, v.fits)) (omega (arith, v.fits)),
          column-append q.buffer_size r key q.shared_arrays k left,
        ),
      )

  pub get_k_beyond :
      (k : ℕ)
      → IsValid q
      → q.read_counter < q.write_counter
      → q.write_counter < q.read_counter + k
      → get_k k q ≡ (err assertion_error, q)
  unfolding get_k
  get_k_beyond k v some_left beyond = ground arith

  -- Of a valid queue that is not empty: `get_all` returns the contents of each field, and leaves
  -- the read counter at the write counter, which stays.
  pub get_all_takes :
      IsValid q
      → q.read_counter < q.write_counter
      → (items : Columns A) × ((get_all q).0 ≡ ok items)
        × ((key : String) → lookup key items ≡ contents q key)
        × ((get_all q).1.read_counter ≡ q.write_counter)
        × ((get_all q).1.write_counter ≡ q.write_counter)
  unfolding get_all
  get_all_takes v some_left =
      let r = q.read_counter in
      let n = q.write_counter - r in
      (
        get_k_impl q n r,
        ground arith,
        λ key. get_k_impl-eq-column n r key (omega (arith, v.fits)) (omega (arith, v.fits)),
        ground arith,
        ground arith,
      )
