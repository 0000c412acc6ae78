-- ===== src/ViveEnv/Meta/Lengths.antt =====
-- The consistency of the lengths of the six lists.
use polymetis_franka_teleop.Prelude.{
  ℕ, zero, suc, ◌+◌, ◌≤◌, ◌≡◌, ◌≢◌, refl, ap, ◌∙◌, ◌&&◌, Bool, true, false, List, [], ◌∷◌, String,
  arith,
}
use polymetis_franka_teleop.Prelude.Tests.{◌==◌, if◌then◌else◌}
use polymetis_franka_teleop.Prelude.Lists.{length, All}
use polymetis_franka_teleop.Prelude.Dict.{Dict}
use polymetis_franka_teleop.Accumulator.Samples.{get_or_empty}
use polymetis_franka_teleop.ViveEnv.{EpisodeMeta}
use polymetis_franka_teleop.ViveEnv.Meta.{
  episode_meta_lists, meta_entries, append_entries, have_length, is_consistent,
}
use polymetis_franka_teleop.ViveEnv.Meta.Rollback.{occurrences, length-appended}

same_test : (longer old n m : ℕ) → longer ≡ old + 1 → m ≡ n + 1 → (longer == m) ≡ (old == n)
same_test longer old n m h e = ground arith

have_length-shift :
    (n m : ℕ) (keys : List String) (before after : Dict (List String))
    → All
        (λ (key : String). length (get_or_empty key after) ≡ length (get_or_empty key before) + 1)
        keys
    → m ≡ n + 1
    → have_length m keys after ≡ have_length n keys before
unfolding have_length
have_length-shift n m [] before after h e = refl
have_length-shift n m (key ∷ keys) before after (here, h) e =
    ap (λ b. b && have_length m keys after) (same_test _ _ n m here e)
    ∙ ap (λ b. (length (get_or_empty key before) == n) && b)
        (have_length-shift n m keys before after h e)

pub have_length-same :
    {X : Type 0} (n : ℕ) (keys : List String) (before after : Dict (List X))
    → ((key : String) → get_or_empty key after ≡ get_or_empty key before)
    → have_length n keys after ≡ have_length n keys before
unfolding have_length
have_length-same n [] before after h = refl
have_length-same n (key ∷ keys) before after h =
    let here = h key in let rest = have_length-same n keys before after h in rw (here, rest) refl

-- The lists that were as long as the number of episodes are one ahead after the six writes, and
-- only then.
pub is_consistent-appended :
    (n : ℕ) (hash : String → String) (e : EpisodeMeta) (attrs : Dict (List String))
    → is_consistent true n (append_entries 6 (meta_entries hash e) attrs)
      ≡ is_consistent false n attrs
unfolding is_consistent occurrences
is_consistent-appended n hash e attrs =
    let longer = λ (key : String). length-appended key hash e attrs in
    have_length-shift (n + 0) (n + 1) episode_meta_lists attrs _
      (
        longer "episode_tasks",
        (
          longer "episode_ids",
          (
            longer "episode_task_ids",
            (
              longer "episode_scene_ids",
              (longer "episode_software_versions", (longer "episode_start_iso", tt)),
            ),
          ),
        ),
      )
      (omega arith)

have_length-other :
    (n m : ℕ) (key : String) (keys : List String) (attrs : Dict (List String))
    → n ≢ m
    → have_length n (key ∷ keys) attrs ≡ true
    → have_length m (key ∷ keys) attrs ≡ false
unfolding have_length
have_length-other n m key keys attrs other h = ground arith

-- The lists have one length at most.
pub is_consistent-other :
    (pending other : Bool) (n m : ℕ) (attrs : Dict (List String))
    → (n + (if pending then 1 else 0)) ≢ (m + (if other then 1 else 0))
    → is_consistent pending n attrs ≡ true
    → is_consistent other m attrs ≡ false
unfolding is_consistent
is_consistent-other pending other n m attrs apart h =
    have_length-other (n + (if pending then 1 else 0)) (m + (if other then 1 else 0))
      "episode_tasks"
      ("episode_ids" ∷ "episode_task_ids" ∷ "episode_scene_ids" ∷ "episode_software_versions"
        ∷ "episode_start_iso" ∷ [])
      attrs apart h

-- One more episode and no pending one is the same length.
pub is_consistent-suc :
    (n : ℕ) (attrs : Dict (List String))
    → is_consistent false (suc n) attrs ≡ is_consistent true n attrs
unfolding is_consistent
is_consistent-suc n attrs = ap (λ m. have_length m episode_meta_lists attrs) (omega arith)

pub is_consistent-same :
    (pending : Bool) (n : ℕ) (before after : Dict (List String))
    → ((key : String) → get_or_empty key after ≡ get_or_empty key before)
    → is_consistent pending n after ≡ is_consistent pending n before
unfolding is_consistent
is_consistent-same pending n before after h = have_length-same _ episode_meta_lists before after h

append_entries-all :
    (n : ℕ) (entries : List (String × String)) (attrs : Dict (List String))
    → length entries ≤ n
    → append_entries n entries attrs ≡ append_entries (length entries) entries attrs
unfolding append_entries
append_entries-all zero [] attrs h = refl
append_entries-all zero (e ∷ entries) attrs h = absurd (omega arith)
append_entries-all (suc n) [] attrs h = refl
append_entries-all (suc n) (e ∷ entries) attrs h = append_entries-all n entries _ (omega arith)

pub is_consistent-pending :
    (writes n : ℕ) (hash : String → String) (e : EpisodeMeta) (attrs : Dict (List String))
    → 6 ≤ writes
    → is_consistent false n attrs ≡ true
    → is_consistent true n (append_entries writes (meta_entries hash e) attrs) ≡ true
unfolding meta_entries
is_consistent-pending writes n hash e attrs h steady =
    ap (λ a. is_consistent true n a) (append_entries-all writes (meta_entries hash e) attrs h)
    ∙ is_consistent-appended n hash e attrs
    ∙ steady
