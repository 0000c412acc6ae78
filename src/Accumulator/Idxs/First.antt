-- ===== src/Accumulator/Idxs/First.antt =====
-- What `get_accumulate_timestamp_idxs` picks: for each window in turn the first timestamp that has
-- reached it.
use mathlib.Core.Path.{subst}
use polymetis_franka_teleop.Prelude.{
  ℕ, zero, suc, ◌+◌, ◌<◌, ◌≡◌, refl, ap, sym, ◌∙◌, ◌⊎◌, inl, inr, Bool, true, false, Option, none,
  some, List, [], ◌∷◌, ◌++◌, arith,
}
use polymetis_franka_teleop.Prelude.Tests.{Bool-cases}
use polymetis_franka_teleop.Prelude.Lists.{length, replicate, All, length-append}
use polymetis_franka_teleop.Prelude.Int.{
  ℤ, pos, negsuc, pos_part, neg_part, ◌+ℤ◌, ◌-ℤ◌, ◌≤ℤ◌, ◌<ℤ◌, int_laws,
}
use polymetis_franka_teleop.Accumulator.Idxs.{
  Picked, range_ℤ, n_repeats, append_repeats, or_first, is_skipped, accumulate_from,
  get_accumulate_timestamp_idxs,
}

-- `l` and `g` stand at the same place of the two lists, for all places.
abbrev pub AllPairs : (ℕ → ℤ → Type 0) → List ℕ → List ℤ → Type 0
AllPairs P [] [] = Unit
AllPairs P (l ∷ ls) (g ∷ gs) = P l g × AllPairs P ls gs
AllPairs P _ _ = ⊥

AllPairs-append :
    (P : ℕ → ℤ → Type 0) (ls ls' : List ℕ) (gs gs' : List ℤ)
    → AllPairs P ls gs
    → AllPairs P ls' gs'
    → AllPairs P (ls ++ ls') (gs ++ gs')
AllPairs-append P [] ls' [] gs' h k = k
AllPairs-append P (l ∷ ls) ls' (g ∷ gs) gs' h k = (h.0, AllPairs-append P ls ls' gs gs' h.1 k)
AllPairs-append P (l ∷ ls) ls' [] gs' h k = absurd h
AllPairs-append P [] ls' (g ∷ gs) gs' h k = absurd h

AllPairs-map :
    (P Q : ℕ → ℤ → Type 0) (lo : ℤ) (ls : List ℕ) (gs : List ℤ)
    → ((l : ℕ) (g : ℤ) → lo ≤ℤ g → P l g → Q l g)
    → All (λ g. lo ≤ℤ g) gs
    → AllPairs P ls gs
    → AllPairs Q ls gs
AllPairs-map P Q lo [] [] f b h = tt
AllPairs-map P Q lo (l ∷ ls) (g ∷ gs) f b h = (f l g b.0 h.0, AllPairs-map P Q lo ls gs f b.1 h.1)
AllPairs-map P Q lo (l ∷ ls) [] f b h = absurd h
AllPairs-map P Q lo [] (g ∷ gs) f b h = absurd h

pub length-range_ℤ : (s : ℤ) (n : ℕ) → length (range_ℤ s n) ≡ n
unfolding range_ℤ
length-range_ℤ s zero = refl
length-range_ℤ s (suc n) = ap suc (length-range_ℤ (s +ℤ pos 1) n)

pub range_ℤ-append : (s : ℤ) (m n : ℕ) → range_ℤ s (m + n) ≡ range_ℤ s m ++ range_ℤ (s +ℤ pos m) n
unfolding range_ℤ
range_ℤ-append s zero n =
    let left : 0 + n ≡ n = omega arith in
    let right : s +ℤ pos 0 ≡ s = omega int_laws in rw (left, right)
range_ℤ-append s (suc m) n =
    let left : suc m + n ≡ suc (m + n) = omega arith in
    let right : s +ℤ pos (suc m) ≡ s +ℤ pos 1 +ℤ pos m = omega int_laws in
    rw (left, right) (ap (λ t. s ∷ t) (range_ℤ-append (s +ℤ pos 1) m n))

range_ℤ-bounded : (lo s : ℤ) (n : ℕ) → lo ≤ℤ s → All (λ g. lo ≤ℤ g) (range_ℤ s n)
unfolding range_ℤ
range_ℤ-bounded lo s zero h = tt
range_ℤ-bounded lo s (suc n) h = (h, range_ℤ-bounded lo (s +ℤ pos 1) n (omega int_laws))

-- One index against a range that stays at or below `top`.
AllPairs-replicate :
    (P : ℕ → ℤ → Type 0) (i : ℕ) (top s : ℤ) (n : ℕ)
    → (0 < n → s +ℤ pos n ≤ℤ top +ℤ pos 1)
    → ((g : ℤ) → g ≤ℤ top → P i g)
    → AllPairs P (replicate n i) (range_ℤ s n)
unfolding range_ℤ
AllPairs-replicate P i top s zero h f = tt
AllPairs-replicate P i top s (suc n) h f =
    let reach = h (omega arith) in
    (f s (omega int_laws), AllPairs-replicate P i top (s +ℤ pos 1) n (λ more. omega int_laws) f)

one_sign : (x : ℤ) → (pos_part x ≡ 0) ⊎ (neg_part x ≡ 0)
one_sign (pos n) = inr refl
one_sign (negsuc n) = inl refl

module _ {T : Type 0} (window_of : T → ℤ) where
  -- Of the timestamps from the index `i` on, the one with the index `l` is the first to reach the
  -- window `g`.
  abbrev pub IsFirst : ℕ → List T → ℕ → ℤ → Type 0
  IsFirst i [] l g = ⊥
  IsFirst i (ts ∷ timestamps) l g =
      ((l ≡ i) × (g ≤ℤ window_of ts)) ⊎ ((window_of ts <ℤ g) × IsFirst (i + 1) timestamps l g)

  pub record Covers (allow_negative : Bool) (i : ℕ) (timestamps : List T) (start : ℤ) (p : Picked)
      : Type 0 where
    pub windows : p.global_idxs ≡ range_ℤ start (length p.global_idxs)
    pub next : p.next_global_idx ≡ some (start +ℤ pos (length p.global_idxs))
    pub firsts : AllPairs (IsFirst i timestamps) p.local_idxs p.global_idxs
    pub passed : All (λ ts. window_of ts <ℤ start +ℤ pos (length p.global_idxs)) timestamps

  Covers-empty :
      (b : Bool) (i : ℕ) (start : ℤ)
      → Covers b i [] start (accumulate_from window_of b i (some start) [])
  unfolding accumulate_from range_ℤ
  Covers-empty b i start = record {
    windows = refl;
    next = ap some (omega int_laws);
    firsts = tt;
    passed = tt;
  }

  -- A timestamp before every window that is asked for.
  Covers-skip :
      (b : Bool) (i : ℕ) (ts : T) (timestamps : List T) (start : ℤ) (p : Picked)
      → window_of ts <ℤ start
      → Covers b (i + 1) timestamps start p
      → Covers b i (ts ∷ timestamps) start p
  Covers-skip b i ts timestamps start p early c = record {
    windows = c.windows;
    next = c.next;
    firsts =
        AllPairs-map (IsFirst (i + 1) timestamps) (IsFirst i (ts ∷ timestamps)) start p.local_idxs
          p.global_idxs (λ l g le h. inr (omega arith, h))
          (rw c.windows (range_ℤ-bounded start start (length p.global_idxs) (omega arith)))
          c.firsts;
    passed = (omega int_laws, c.passed);
  }

  Covers-take :
      (b : Bool) (i : ℕ) (ts : T) (timestamps : List T) (start : ℤ) (n : ℕ) (p : Picked)
      → n ≡ n_repeats (window_of ts) start
      → Covers b (i + 1) timestamps (start +ℤ pos n) p
      → Covers b i (ts ∷ timestamps) start (append_repeats i start n p)
  unfolding append_repeats n_repeats
  Covers-take b i ts timestamps start n p count c =
      let w = window_of ts in
      let m = length p.global_idxs in
      let sign = one_sign (w -ℤ start +ℤ pos 1) in
      let reached : w <ℤ start +ℤ pos n = omega int_laws in
      let not_beyond : 0 < n → start +ℤ pos n ≤ℤ w +ℤ pos 1 = λ h. omega (int_laws, h, sign) in
      let total : length (range_ℤ start n ++ p.global_idxs) ≡ n + m =
        omega (arith, length-append (range_ℤ start n) p.global_idxs, length-range_ℤ start n) in
      let sum : start +ℤ pos n +ℤ pos m ≡ start +ℤ pos (n + m) = omega int_laws in
      let stop = sum ∙ ap (λ t. start +ℤ pos t) (sym total) in
      record {
        windows =
            rw total (ap (λ t. range_ℤ start n ++ t) c.windows ∙ sym (range_ℤ-append start n m));
        next = rw total (c.next ∙ ap some sum);
        firsts =
            AllPairs-append (IsFirst i (ts ∷ timestamps)) (replicate n i) p.local_idxs
              (range_ℤ start n) p.global_idxs
              (AllPairs-replicate (IsFirst i (ts ∷ timestamps)) i w start n not_beyond
                (λ g h. inl (refl, h)))
              (AllPairs-map (IsFirst (i + 1) timestamps) (IsFirst i (ts ∷ timestamps))
                (start +ℤ pos n) p.local_idxs p.global_idxs (λ l g le h. inr (omega arith, h))
                (rw c.windows (range_ℤ-bounded (start +ℤ pos n) (start +ℤ pos n) m (omega arith)))
                c.firsts);
        passed =
            subst (λ e. All (λ t. window_of t <ℤ e) (ts ∷ timestamps)) stop
              (omega (int_laws, reached), c.passed);
      }

  skipped_below :
      (b : Bool) (ts : T) (start : ℤ)
      → is_skipped window_of b ts ≡ true
      → (b ≡ false → pos 0 ≤ℤ start)
      → window_of ts <ℤ start
  unfolding is_skipped
  skipped_below true ts start e h = ground arith
  skipped_below false ts start e h = let from = h refl in ground arith

  from_skip :
      (b : Bool) (i : ℕ) (next : Option ℤ) (ts : T) (timestamps : List T)
      → is_skipped window_of b ts ≡ true
      → accumulate_from window_of b i next (ts ∷ timestamps)
        ≡ accumulate_from window_of b (i + 1) next timestamps
  unfolding accumulate_from
  from_skip b i next ts timestamps e = ground (arith, e)

  pub from_take :
      (b : Bool) (i : ℕ) (next : Option ℤ) (ts : T) (timestamps : List T)
      → is_skipped window_of b ts ≡ false
      → let start = or_first next (window_of ts) in
        let n = n_repeats (window_of ts) start in
        accumulate_from window_of b i next (ts ∷ timestamps)
        ≡ append_repeats i start n
            (accumulate_from window_of b (i + 1) (some (start +ℤ pos n)) timestamps)
  unfolding accumulate_from
  from_take b i next ts timestamps e = ground (arith, e)

  pub accumulate-Covers :
      (b : Bool) (i : ℕ) (start : ℤ) (timestamps : List T)
      → (b ≡ false → pos 0 ≤ℤ start)
      → Covers b i timestamps start (accumulate_from window_of b i (some start) timestamps)
  unfolding or_first
  accumulate-Covers b i start [] h = Covers-empty b i start
  accumulate-Covers b i start (ts ∷ timestamps) h = elim (Bool-cases (is_skipped window_of b ts)) [
    | inl e ↦ rw (from_skip b i (some start) ts timestamps e) (
        Covers-skip b i ts timestamps start _ (skipped_below b ts start e h)
          (accumulate-Covers b (i + 1) start timestamps h))
    | inr e ↦
        rw (from_take b i (some start) ts timestamps e, or_first)
          (Covers-take b i ts timestamps start _ _ refl (
            accumulate-Covers b (i + 1) (start +ℤ pos (n_repeats (window_of ts) start)) timestamps
              (λ f. omega (int_laws, h f))))
  ]

  -- Asked to start where the timestamps do, the function starts at the window of the first one
  -- that it does not skip.
  pub accumulate_none :
      (b : Bool) (i : ℕ) (ts : T) (timestamps : List T)
      → is_skipped window_of b ts ≡ false
      → accumulate_from window_of b i none (ts ∷ timestamps)
        ≡ accumulate_from window_of b i (some (window_of ts)) (ts ∷ timestamps)
  unfolding or_first
  accumulate_none b i ts timestamps e =
      from_take b i none ts timestamps e ∙ sym (from_take b i (some (window_of ts)) ts timestamps e)

  -- From a given next window, which is not negative if negative windows are skipped: the global
  -- indices are the windows from there on, without a gap and each once; the next window is the one
  -- after them; each local index is that of the first timestamp that has reached its window; and no
  -- timestamp has reached the next window.
  pub get_accumulate_timestamp_idxs-Covers :
      (b : Bool) (start : ℤ) (timestamps : List T)
      → (b ≡ false → pos 0 ≤ℤ start)
      → Covers b 0 timestamps start
          (get_accumulate_timestamp_idxs window_of b timestamps (some start))
  unfolding get_accumulate_timestamp_idxs
  get_accumulate_timestamp_idxs-Covers b start timestamps h =
      accumulate-Covers b 0 start timestamps h
