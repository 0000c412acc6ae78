-- ===== src/Demo.antt =====
-- scripts_real/demo_franka_vive.py: the main loop of the teleoperation, which starts, ends and drops
-- episodes and moves the arm home. Keys come from the window of the loop itself or as signals from a
-- viewer, which are taken to arrive before an iteration. The calls of the environment are taken to
-- return, and are listed in their order. Times are natural numbers.
pub mod Session
pub mod Banner
pub mod Told
pub mod Homing
mod Tests
use polymetis_franka_teleop.Prelude.{
  ℕ, ◌+◌, ◌-◌, Bool, true, false, not, ◌&&◌, Option, none, some, List, [], ◌∷◌, ◌++◌,
}
use polymetis_franka_teleop.Prelude.Tests.{ltb, if◌then◌else◌}

-- ord('q') and so on; `key_delete` is 8 or 127.
pub data Key : Type 0 where
  key_q key_c key_s key_h key_delete key_y key_n : Key

pub data RecordRequest : Type 0 where
  start_request stop_request : RecordRequest

-- The signals with a handler.
pub data Signal : Type 0 where
  sig_quit sig_record_start sig_record_stop sig_home sig_drop : Signal

-- The calls of the environment.
pub data Call : Type 0 where
  start_episode : ℕ → Call
  end_episode drop_episode move_home : Call
  record_action : ℕ → Call

pub record Main : Type 0 where
  pub iter_idx : ℕ
  pub stop : Bool
  pub is_recording : Bool
  pub clutch_was_engaged : Bool
  pub home_command_sent : Bool
  pub waiting_for_clutch : Bool
  pub pending_drop : Bool
  pub pending_drop_time : ℕ
  pub last_key : Option Key
  pub sig_record_request : Option RecordRequest
  pub sig_home_request : Bool
  pub sig_drop_request : Bool
  pub calls : List Call

-- What an iteration reads, and the signals that came before it.
pub record Tick : Type 0 where
  pub signals : List Signal
  pub monotonic : ℕ
  pub episode_start : ℕ
  pub action_timestamp : ℕ
  pub clutch_engaged : Bool
  pub home_requested : Bool
  pub home_active : Bool
  pub viewer_exited : Bool

abbrev pub new_main : Main
new_main = record {
  iter_idx = 0;
  stop = false;
  is_recording = false;
  clutch_was_engaged = false;
  home_command_sent = false;
  waiting_for_clutch = false;
  pending_drop = false;
  pending_drop_time = 0;
  last_key = none;
  sig_record_request = none;
  sig_home_request = false;
  sig_drop_request = false;
  calls = [];
}

unfoldable pub on_signal : Signal → Main → Main
on_signal sig_quit s = record s { stop = true }
on_signal sig_record_start s = record s { sig_record_request = some start_request }
on_signal sig_record_stop s = record s { sig_record_request = some stop_request }
on_signal sig_home s = record s { sig_home_request = true }
on_signal sig_drop s = record s { sig_drop_request = true }

unfoldable pub on_signals : List Signal → Main → Main
unfolding on_signal
on_signals [] s = s
on_signals (sig ∷ signals) s = on_signals signals (on_signal sig s)

unfoldable pub call : Call → Main → Main
call c s = record s { calls = s.calls ++ c ∷ [] }

unfoldable pub go_home : Main → Main
unfolding call
go_home s =
    if s.home_command_sent then s else call move_home (record s { home_command_sent = true })

-- A key of the loop's own window.
unfoldable pub on_key : Tick → Option Key → Main → Main
unfolding call go_home
on_key tick none s = s
on_key tick (some key_q) s = record s { stop = true }
on_key tick (some key_c) s =
    call (start_episode tick.episode_start) (record s { is_recording = true })
on_key tick (some key_s) s = call end_episode (record s { is_recording = false })
on_key tick (some key_h) s = go_home s
on_key tick (some key_delete) s =
    if s.is_recording
    then record s { pending_drop = true; pending_drop_time = tick.monotonic }
    else s
on_key tick (some key_y) s =
    if s.pending_drop
    then call drop_episode (record s { is_recording = false; pending_drop = false })
    else s
on_key tick (some key_n) s = record s { pending_drop = false }

unfoldable pub on_record_request : Tick → Option RecordRequest → Main → Main
unfolding call
on_record_request tick none s = s
on_record_request tick (some start_request) s =
    let taken : Main = record s { sig_record_request = none } in
    if s.is_recording
    then taken
    else call (start_episode tick.episode_start) (record taken { is_recording = true })
on_record_request tick (some stop_request) s =
    let taken : Main = record s { sig_record_request = none } in
    if s.is_recording then call end_episode (record taken { is_recording = false }) else taken

unfoldable pub on_home_request : Main → Main
unfolding go_home
on_home_request s =
    if s.sig_home_request then go_home (record s { sig_home_request = false }) else s

unfoldable pub on_drop_request : Main → Main
unfolding call
on_drop_request s =
    let taken : Main = record s { sig_drop_request = false } in
    if s.sig_drop_request
    then (if s.is_recording
        then call drop_episode (record taken { is_recording = false; pending_drop = false })
        else taken)
    else s

unfoldable pub check_drop_timeout : Tick → Main → Main
check_drop_timeout tick s =
    if s.pending_drop && ltb 5000 (tick.monotonic - s.pending_drop_time)
    then record s { pending_drop = false }
    else s

-- The request of the trackpad, and the end of the motion.
unfoldable pub follow_home : Tick → Main → Main
unfolding go_home
follow_home tick s =
    let next : Main = if tick.home_requested then go_home s else s in
    if not tick.home_active && next.home_command_sent
    then record next { home_command_sent = false }
    else next

-- Whether the arm waits for the clutch, for the banner.
unfoldable pub mirror_clutch : Tick → Main → Main
mirror_clutch tick s =
    let waiting =
      if s.home_command_sent && not tick.home_active then true else s.waiting_for_clutch in
    record s {
      waiting_for_clutch =
          if tick.clutch_engaged && not s.clutch_was_engaged then false else waiting;
    }

-- The rest of an iteration: the viewer, and the action.
unfoldable pub finish_iteration : Tick → Main → Main
unfolding call
finish_iteration tick s =
    let seen : Main = record s {
      stop = if tick.viewer_exited then true else s.stop;
      last_key = none;
    } in
    let done : Main =
      if s.is_recording then call (record_action tick.action_timestamp) seen else seen in
    record done { iter_idx = done.iter_idx + 1 }

unfoldable pub handle_input : Tick → Main → Main
unfolding on_signals on_key on_record_request on_home_request on_drop_request check_drop_timeout
handle_input tick s =
    let told = on_signals tick.signals s in
    let typed : Main = record (on_key tick told.last_key told) { last_key = none } in
    let asked = on_record_request tick typed.sig_record_request typed in
    check_drop_timeout tick (on_drop_request (on_home_request asked))

unfoldable pub iterate : Tick → Main → Main
unfolding handle_input follow_home mirror_clutch finish_iteration
iterate tick s =
    let given : Main = record (handle_input tick s) { clutch_was_engaged = tick.clutch_engaged } in
    finish_iteration tick (mirror_clutch tick (follow_home tick given))

-- while not stop
unfoldable pub run : List Tick → Main → Main
unfolding iterate
run [] s = s
run (tick ∷ ticks) s = let rest = run ticks (iterate tick s) in if s.stop then s else rest
