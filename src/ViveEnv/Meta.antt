-- ===== src/ViveEnv/Meta.antt =====
-- The six lists of texts, one entry for each episode, and language.json.
pub mod Rollback
pub mod Lengths
pub mod Videos
use polymetis_franka_teleop.Prelude.{
  ℕ, zero, suc, ◌+◌, Bool, true, false, not, ◌&&◌, Option, none, some, List, [], ◌∷◌, String,
}
use polymetis_franka_teleop.Prelude.Tests.{◌==◌, if◌then◌else◌}
use polymetis_franka_teleop.Prelude.Lists.{length}
use polymetis_franka_teleop.Prelude.Dict.{Dict, insert}
use polymetis_franka_teleop.Accumulator.Samples.{get_or_empty, append_to}
use polymetis_franka_teleop.ViveEnv.TaskId.{text_of, derive_task_id, task_id_source}
use polymetis_franka_teleop.ViveEnv.{EpisodeMeta, Language, Dirs}

-- _EPISODE_META_LISTS
abbrev pub episode_meta_lists : List String
episode_meta_lists =
    "episode_tasks" ∷ "episode_ids" ∷ "episode_task_ids" ∷ "episode_scene_ids"
    ∷ "episode_software_versions" ∷ "episode_start_iso" ∷ []

-- The entries in the order in which they are written.
unfoldable pub meta_entries : (String → String) → EpisodeMeta → List (String × String)
unfolding text_of derive_task_id
meta_entries hash e =
    ("episode_tasks", text_of e.task)
    ∷ ("episode_task_ids", text_of (derive_task_id hash e.task e.task_id))
    ∷ ("episode_ids", e.ep_uuid)
    ∷ ("episode_scene_ids", text_of e.scene_id)
    ∷ ("episode_software_versions", text_of e.git_hash)
    ∷ ("episode_start_iso", e.ts_start_iso)
    ∷ []

-- The first `n` writes, until one raises.
unfoldable pub append_entries : ℕ → List (String × String) → Dict (List String) → Dict (List String)
unfolding append_to
append_entries zero entries attrs = attrs
append_entries (suc n) [] attrs = attrs
append_entries (suc n) ((key, text) ∷ entries) attrs =
    append_entries n entries (append_to key text attrs)

-- lst.pop() of a list that is not empty
unfoldable pub pop : {X : Type 0} → List X → List X
pop [] = []
pop (x ∷ []) = []
pop (x ∷ y ∷ xs) = x ∷ pop (y ∷ xs)

-- An empty list is not written.
unfoldable pub write_popped : String → List String → Dict (List String) → Dict (List String)
unfolding pop
write_popped key [] attrs = attrs
write_popped key (x ∷ xs) attrs = insert key (pop (x ∷ xs)) attrs

unfoldable pub pop_list : String → Dict (List String) → Dict (List String)
unfolding get_or_empty write_popped
pop_list key attrs = write_popped key (get_or_empty key attrs) attrs

unfoldable pub pop_lists : ℕ → List String → Dict (List String) → Dict (List String)
unfolding pop_list
pop_lists zero keys attrs = attrs
pop_lists (suc n) [] attrs = attrs
pop_lists (suc n) (key ∷ keys) attrs = pop_lists n keys (pop_list key attrs)

-- `_assert_episode_meta_consistency`: no mismatch of the lists with the number of episodes.
unfoldable pub have_length : {X : Type 0} → ℕ → List String → Dict (List X) → Bool
unfolding get_or_empty
have_length n [] attrs = true
have_length n (key ∷ keys) attrs = length (get_or_empty key attrs) == n && have_length n keys attrs

unfoldable pub is_consistent : Bool → ℕ → Dict (List String) → Bool
unfolding have_length
is_consistent pending n_episodes attrs =
    have_length (n_episodes + (if pending then 1 else 0)) episode_meta_lists attrs

-- The directories, by number.
unfoldable pub lookup_dir : ℕ → Dirs → Option (Option Language)
lookup_dir dir [] = none
lookup_dir dir ((d, file) ∷ dirs) = if d == dir then some file else lookup_dir dir dirs

unfoldable pub write_dir : ℕ → Option Language → Dirs → Dirs
write_dir dir file [] = (dir, file) ∷ []
write_dir dir file ((d, old) ∷ dirs) =
    if d == dir then (dir, file) ∷ dirs else (d, old) ∷ write_dir dir file dirs

-- mkdir(exist_ok=True)
unfoldable pub make_dir : ℕ → Dirs → Dirs
make_dir dir [] = (dir, none) ∷ []
make_dir dir ((d, old) ∷ dirs) = if d == dir then (d, old) ∷ dirs else (d, old) ∷ make_dir dir dirs

unfoldable pub remove_tree : ℕ → Dirs → Dirs
remove_tree dir [] = []
remove_tree dir ((d, file) ∷ dirs) =
    let rest = remove_tree dir dirs in if d == dir then rest else (d, file) ∷ rest

unfoldable pub language_of : (String → String) → EpisodeMeta → Language
unfolding derive_task_id task_id_source
language_of hash e = record {
  episode_id = e.ep_uuid;
  instruction = e.task;
  task_id = derive_task_id hash e.task e.task_id;
  task_id_source = task_id_source e.task e.task_id;
  scene_id = e.scene_id;
  timestamp_start_utc = e.ts_start_iso;
  software_version = e.git_hash;
  timestamp_end_utc = none;
  success = none;
}

-- `_finalise_language_json`
unfoldable pub finalise : String → Option (Option Language) → ℕ → Dirs → Dirs
unfolding write_dir
finalise now none dir dirs = dirs
finalise now (some none) dir dirs = dirs
finalise now (some (some file)) dir dirs =
    write_dir dir (some (record file { timestamp_end_utc = some now; success = some true })) dirs
