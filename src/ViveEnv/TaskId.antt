-- ===== src/ViveEnv/TaskId.antt =====
-- The id of the task of an episode.
use text.Mathlib.Text.{◌==◌}
use polymetis_franka_teleop.Prelude.{Option, none, some, String}
use polymetis_franka_teleop.Prelude.Tests.{if◌then◌else◌}

-- `x or ''`, `str(x) if x is not None else ''`
unfoldable pub text_of : Option String → String
text_of none = ""
text_of (some text) = text

-- The task's id: the given one, or the hash of the normalised task.
unfoldable pub derive_task_id : (String → String) → Option String → Option String → Option String
derive_task_id hash task (some task_id) = some task_id
derive_task_id hash none none = none
derive_task_id hash (some task) none = some (hash task)

unfoldable pub task_id_source : Option String → Option String → String
task_id_source (some task) none = "auto_hash"
task_id_source none none = "none"
task_id_source task (some task_id) = if task_id == "" then "none" else "explicit"
