-- ===== src/ViveEnv/Meta/Rollback.antt =====
-- What appending to the six lists and popping from them gives back.
use mathlib.Core.List.{append_assoc, append-nil}
use text.Mathlib.Text.{◌==◌}
use text.Mathlib.TextEquality.{eq_iff}
use polymetis_franka_teleop.Prelude.{
  ℕ, zero, suc, ◌+◌, ◌≡◌, refl, sym, ap, ◌∙◌, inl, inr, true, Option, List, [], ◌∷◌, ◌++◌, String,
  map, arith,
}
use polymetis_franka_teleop.Prelude.Tests.{if◌then◌else◌, Bool-cases, if_cases}
use polymetis_franka_teleop.Prelude.Lists.{length, length-append}
use polymetis_franka_teleop.Prelude.Dict.{Dict, lookup, insert, lookup-insert}
use polymetis_franka_teleop.Accumulator.Samples.{or_empty, get_or_empty, append_to}
use polymetis_franka_teleop.ViveEnv.{EpisodeMeta}
use polymetis_franka_teleop.ViveEnv.Meta.{
  episode_meta_lists, meta_entries, append_entries, pop, write_popped, pop_list, pop_lists,
}

pub get-insert :
    {X : Type 0} (k key : String) (v : List X) (d : Dict (List X))
    → get_or_empty key (insert k v d) ≡ (if k == key then v else get_or_empty key d)
unfolding get_or_empty or_empty
get-insert k key v d =
    ap or_empty (lookup-insert k key v d)
    ∙ if_cases
        (λ (r : Option (List _)). or_empty r ≡ (if k == key then v else or_empty (lookup key d)))
        (k == key) (λ e. rw e refl) (λ e. rw e refl)

pub same_key : (k key : String) → (k == key) ≡ true → k ≡ key
same_key k key e = ground (arith, eq_iff k key)

-- How often a key is among the keys.
unfoldable pub occurrences : String → List String → ℕ
occurrences key [] = 0
occurrences key (k ∷ keys) = (if k == key then 1 else 0) + occurrences key keys

-- What is appended to the list of a key.
unfoldable texts_of : String → List (String × String) → List String
texts_of key [] = []
texts_of key ((k, text) ∷ entries) =
    let rest = texts_of key entries in if k == key then text ∷ rest else rest

get-append_entries :
    (key : String) (entries : List (String × String)) (attrs : Dict (List String))
    → get_or_empty key (append_entries (length entries) entries attrs)
      ≡ get_or_empty key attrs ++ texts_of key entries
unfolding append_entries append_to texts_of
get-append_entries key [] attrs = sym (append-nil _)
get-append_entries key ((k, text) ∷ entries) attrs =
    let rest =
      get-append_entries key entries (insert k (get_or_empty k attrs ++ text ∷ []) attrs) in
    let here = get-insert k key (get_or_empty k attrs ++ text ∷ []) attrs in
    elim (Bool-cases (k == key)) [
      | inl e ↦
          let same = same_key k key e in
          rw
            (
              rest,
              here,
              e,
              same,
              append_assoc (get_or_empty key attrs) (text ∷ []) (texts_of key entries),
            )
            refl
      | inr e ↦ rw (rest, here, e) refl
    ]

-- Pops `n` times.
unfoldable pops : {X : Type 0} → ℕ → List X → List X
pops zero xs = xs
pops (suc n) xs = pops n (pop xs)

get-write_popped :
    (key k : String) (xs : List String) (attrs : Dict (List String))
    → get_or_empty k attrs ≡ xs
    → get_or_empty key (write_popped k xs attrs)
      ≡ (if k == key then pop (get_or_empty key attrs) else get_or_empty key attrs)
unfolding write_popped pop
get-write_popped key k [] attrs h = elim (Bool-cases (k == key)) [
  | inl e ↦ let same = same_key k key e in rw (e, sym same, h) refl
  | inr e ↦ rw e refl
]
get-write_popped key k (x ∷ xs) attrs h =
    let here = get-insert k key (pop (x ∷ xs)) attrs in
    elim (Bool-cases (k == key)) [
      | inl e ↦ let same = same_key k key e in rw (here, e, sym same, h) refl
      | inr e ↦ rw (here, e) refl
    ]

get-pop_lists :
    (key : String) (keys : List String) (attrs : Dict (List String))
    → get_or_empty key (pop_lists (length keys) keys attrs)
      ≡ pops (occurrences key keys) (get_or_empty key attrs)
unfolding pop_lists pop_list pops occurrences
get-pop_lists key [] attrs = refl
get-pop_lists key (k ∷ keys) attrs =
    let next = write_popped k (get_or_empty k attrs) attrs in
    let rest = get-pop_lists key keys next in
    let here = get-write_popped key k (get_or_empty k attrs) attrs refl in
    elim (Bool-cases (k == key)) [
      | inl e ↦
          let one : 1 + occurrences key keys ≡ suc (occurrences key keys) = omega arith in
          rw (rest, here, e, one) refl
      | inr e ↦
          let same : 0 + occurrences key keys ≡ occurrences key keys = omega arith in
          rw (rest, here, e, same) refl
    ]

length-texts_of :
    (key : String) (entries : List (String × String))
    → length (texts_of key entries) ≡ occurrences key (map (λ e. e.0) entries)
unfolding texts_of occurrences
length-texts_of key [] = refl
length-texts_of key ((k, text) ∷ entries) = ground (arith, length-texts_of key entries)

pop-snoc :
    {X : Type 0} (xs ys : List X) (y : X)
    → (zs : List X) × (length zs ≡ length ys) × (pop (xs ++ y ∷ ys) ≡ xs ++ zs)
unfolding pop
pop-snoc [] [] y = ([], refl, refl)
pop-snoc [] (z ∷ ys) y =
    let rest = pop-snoc [] ys z in (y ∷ rest.0, ap suc (rest.1), ap (λ r. y ∷ r) (rest.2))
pop-snoc (x ∷ []) ys y = let rest = pop-snoc [] ys y in (rest.0, rest.1, ap (λ r. x ∷ r) (rest.2))
pop-snoc (x ∷ w ∷ xs) ys y =
    let rest = pop-snoc (w ∷ xs) ys y in (rest.0, rest.1, ap (λ r. x ∷ r) (rest.2))

pops-append : {X : Type 0} (n : ℕ) (xs ys : List X) → length ys ≡ n → pops n (xs ++ ys) ≡ xs
unfolding pops
pops-append zero xs [] h = append-nil xs
pops-append zero xs (y ∷ ys) h = absurd (omega arith)
pops-append (suc n) xs [] h = absurd (omega arith)
pops-append (suc n) xs (y ∷ ys) h =
    let once = pop-snoc xs ys y in ap (pops n) (once.2) ∙ pops-append n xs (once.0) (omega arith)

occurrences-entries :
    (key : String) (hash : String → String) (e : EpisodeMeta)
    → occurrences key (map (λ x. x.0) (meta_entries hash e)) ≡ occurrences key episode_meta_lists
unfolding occurrences meta_entries
occurrences-entries key hash e = omega arith

-- The six lists after the six writes and the six pops.
pub get-rolled_back :
    (key : String) (hash : String → String) (e : EpisodeMeta) (attrs : Dict (List String))
    → get_or_empty key
        (pop_lists 6 episode_meta_lists (append_entries 6 (meta_entries hash e) attrs))
      ≡ get_or_empty key attrs
unfolding meta_entries
get-rolled_back key hash e attrs =
    let entries = meta_entries hash e in
    let popped = get-pop_lists key episode_meta_lists (append_entries 6 entries attrs) in
    let appended = get-append_entries key entries attrs in
    let long = length-texts_of key entries ∙ occurrences-entries key hash e in
    popped
    ∙ ap (pops (occurrences key episode_meta_lists)) appended
    ∙ pops-append (occurrences key episode_meta_lists) (get_or_empty key attrs)
        (texts_of key entries) long

-- Each list that the six writes append to is longer by one.
pub length-appended :
    (key : String) (hash : String → String) (e : EpisodeMeta) (attrs : Dict (List String))
    → length (get_or_empty key (append_entries 6 (meta_entries hash e) attrs))
      ≡ length (get_or_empty key attrs) + occurrences key episode_meta_lists
unfolding meta_entries
length-appended key hash e attrs =
    let entries = meta_entries hash e in
    let appended = get-append_entries key entries attrs in
    let long = length-texts_of key entries ∙ occurrences-entries key hash e in
    let all = length-append (get_or_empty key attrs) (texts_of key entries) in
    rw appended (omega (arith, all, long))
