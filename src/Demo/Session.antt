-- ===== src/Demo/Session.antt =====
-- The order of the calls of the environment.
use polymetis_franka_teleop.Prelude.{
  ℕ, ◌≡◌, refl, ap, ◌∙◌, sym, ◌-◌, not, ◌&&◌, Bool, true, false, Option, none, some, List, [], ◌∷◌,
  ◌++◌,
}
use polymetis_franka_teleop.Prelude.Tests.{ltb, if◌then◌else◌, if_cases}
use polymetis_franka_teleop.Demo.{
  Key, RecordRequest, start_request, stop_request, Signal, sig_quit, sig_record_start,
  sig_record_stop, sig_home, sig_drop, Call, start_episode, end_episode, drop_episode, move_home,
  record_action, Main, Tick, on_signal, on_signals, call, go_home, on_key, on_record_request,
  on_home_request, on_drop_request, check_drop_timeout, follow_home, mirror_clutch,
  finish_iteration, handle_input, iterate, run,
}

-- What is allowed while an episode is recorded or not, and whether one is afterwards.
unfoldable pub next : Bool → Call → Option Bool
next false (start_episode time) = some true
next true (start_episode time) = none
next true end_episode = some false
next false end_episode = none
next true drop_episode = some false
next false drop_episode = none
next recording move_home = some recording
next true (record_action time) = some true
next false (record_action time) = none

unfoldable pub continue : Option Bool → List Call → Option Bool
unfolding next
continue none calls = none
continue (some recording) [] = some recording
continue (some recording) (c ∷ calls) = continue (next recording c) calls

continue-nil : (start : Option Bool) → continue start [] ≡ start
unfolding continue
continue-nil none = refl
continue-nil (some b) = refl

continue-snoc :
    (start : Option Bool) (calls : List Call) (c : Call) (r : Bool)
    → continue start calls ≡ some r
    → continue start (calls ++ c ∷ []) ≡ next r c
unfolding continue
continue-snoc none calls c r h = cc
continue-snoc (some b) [] c r h =
    let ends : continue (next b c) [] ≡ next b c = continue-nil (next b c) in cc
continue-snoc (some b) (d ∷ calls) c r h = continue-snoc (next b d) calls c r h

-- The calls are allowed, and the loop knows whether an episode is recorded.
pub record IsInSession (s : Main) : Type 0 where
  pub allowed : continue (some false) s.calls ≡ some s.is_recording
  pub no_key : s.last_key ≡ none

call-IsInSession :
    (c : Call) (s : Main) (r : Bool)
    → IsInSession s
    → next s.is_recording c ≡ some r
    → IsInSession (call c (record s { is_recording = r }))
unfolding call
call-IsInSession c s r h e = record {
  allowed = continue-snoc (some false) s.calls c s.is_recording h.allowed ∙ e;
  no_key = h.no_key;
}

on_signal-IsInSession : (sig : Signal) (s : Main) → IsInSession s → IsInSession (on_signal sig s)
unfolding on_signal
on_signal-IsInSession sig_quit s h = record { allowed = h.allowed; no_key = h.no_key }
on_signal-IsInSession sig_record_start s h = record { allowed = h.allowed; no_key = h.no_key }
on_signal-IsInSession sig_record_stop s h = record { allowed = h.allowed; no_key = h.no_key }
on_signal-IsInSession sig_home s h = record { allowed = h.allowed; no_key = h.no_key }
on_signal-IsInSession sig_drop s h = record { allowed = h.allowed; no_key = h.no_key }

on_signals-IsInSession :
    (signals : List Signal) (s : Main) → IsInSession s → IsInSession (on_signals signals s)
unfolding on_signals
on_signals-IsInSession [] s h = h
on_signals-IsInSession (sig ∷ signals) s h =
    on_signals-IsInSession signals (on_signal sig s) (on_signal-IsInSession sig s h)

next_home : (recording : Bool) → next recording move_home ≡ some recording
unfolding next
next_home true = refl
next_home false = refl

go_home-IsInSession : (s : Main) → IsInSession s → IsInSession (go_home s)
unfolding go_home next
go_home-IsInSession s h =
    let sent : Main = record s { home_command_sent = true } in
    if_cases IsInSession s.home_command_sent (λ e. h)
      (λ e.
        call-IsInSession move_home sent s.is_recording
          (record { allowed = h.allowed; no_key = h.no_key }) (next_home s.is_recording))

on_record_request-IsInSession :
    (tick : Tick) (request : Option RecordRequest) (s : Main)
    → IsInSession s
    → IsInSession (on_record_request tick request s)
unfolding on_record_request next
on_record_request-IsInSession tick none s h = h
on_record_request-IsInSession tick (some start_request) s h =
    let taken : Main = record s { sig_record_request = none } in
    let same : IsInSession taken = record { allowed = h.allowed; no_key = h.no_key } in
    if_cases IsInSession s.is_recording (λ e. same)
      (λ e. call-IsInSession (start_episode tick.episode_start) taken true same (rw e refl))
on_record_request-IsInSession tick (some stop_request) s h =
    let taken : Main = record s { sig_record_request = none } in
    let same : IsInSession taken = record { allowed = h.allowed; no_key = h.no_key } in
    if_cases IsInSession s.is_recording
      (λ e. call-IsInSession end_episode taken false same (rw e refl)) (λ e. same)

on_home_request-IsInSession : (s : Main) → IsInSession s → IsInSession (on_home_request s)
unfolding on_home_request
on_home_request-IsInSession s h =
    if_cases IsInSession s.sig_home_request
      (λ e.
        go_home-IsInSession (record s { sig_home_request = false })
          (record { allowed = h.allowed; no_key = h.no_key }))
      (λ e. h)

on_drop_request-IsInSession : (s : Main) → IsInSession s → IsInSession (on_drop_request s)
unfolding on_drop_request next
on_drop_request-IsInSession s h =
    let taken : Main = record s { sig_drop_request = false } in
    let dropped : Main = record taken { pending_drop = false } in
    if_cases IsInSession s.sig_drop_request
      (λ e.
        if_cases IsInSession s.is_recording
          (λ r.
            call-IsInSession drop_episode dropped false
              (record { allowed = h.allowed; no_key = h.no_key }) (rw r refl))
          (λ r. record { allowed = h.allowed; no_key = h.no_key }))
      (λ e. h)

check_drop_timeout-IsInSession :
    (tick : Tick) (s : Main) → IsInSession s → IsInSession (check_drop_timeout tick s)
unfolding check_drop_timeout
check_drop_timeout-IsInSession tick s h =
    if_cases IsInSession (s.pending_drop && ltb 5000 (tick.monotonic - s.pending_drop_time))
      {x = record s { pending_drop = false }}
      (λ e. record { allowed = h.allowed; no_key = h.no_key }) (λ e. h)

no_key_typed :
    (tick : Tick) (key : Option Key) (s : Main)
    → key ≡ none
    → IsInSession s
    → IsInSession (record (on_key tick key s) { last_key = none })
unfolding on_key
no_key_typed tick none s e h = record { allowed = h.allowed; no_key = refl }
no_key_typed tick (some k) s e h = cc

handle_input-IsInSession :
    (tick : Tick) (s : Main) → IsInSession s → IsInSession (handle_input tick s)
unfolding handle_input on_key
handle_input-IsInSession tick s h =
    let told = on_signals tick.signals s in
    let heard = on_signals-IsInSession tick.signals s h in
    let typed : Main = record (on_key tick told.last_key told) { last_key = none } in
    let known = no_key_typed tick told.last_key told heard.no_key heard in
    let asked = on_record_request-IsInSession tick typed.sig_record_request typed known in
    check_drop_timeout-IsInSession tick _
      (on_drop_request-IsInSession _ (on_home_request-IsInSession _ asked))

follow_home-IsInSession :
    (tick : Tick) (s : Main) → IsInSession s → IsInSession (follow_home tick s)
unfolding follow_home
follow_home-IsInSession tick s h =
    let asked : IsInSession (if tick.home_requested then go_home s else s) =
      if_cases IsInSession tick.home_requested (λ e. go_home-IsInSession s h) (λ e. h) in
    let next : Main = if tick.home_requested then go_home s else s in
    if_cases IsInSession (not tick.home_active && next.home_command_sent)
      {x = record next { home_command_sent = false }}
      (λ e. record { allowed = asked.allowed; no_key = asked.no_key }) (λ e. asked)

call_recording :
    (time : ℕ) (s : Main)
    → s.is_recording ≡ true
    → IsInSession s
    → IsInSession (call (record_action time) s)
unfolding call next
call_recording time s e h =
    let known = call-IsInSession (record_action time) s true h (rw e refl) in
    record { allowed = known.allowed ∙ ap some (sym e); no_key = known.no_key }

finish_iteration-IsInSession :
    (tick : Tick) (s : Main) → IsInSession s → IsInSession (finish_iteration tick s)
unfolding finish_iteration next
finish_iteration-IsInSession tick s h =
    let seen : Main = record s {
      stop = if tick.viewer_exited then true else s.stop;
      last_key = none;
    } in
    let same : IsInSession seen = record { allowed = h.allowed; no_key = refl } in
    let done : IsInSession
        (if s.is_recording then call (record_action tick.action_timestamp) seen else seen) =
      if_cases IsInSession s.is_recording (λ e. call_recording tick.action_timestamp seen e same)
        (λ e. same) in
    record { allowed = done.allowed; no_key = done.no_key }

iterate-IsInSession : (tick : Tick) (s : Main) → IsInSession s → IsInSession (iterate tick s)
unfolding iterate mirror_clutch
iterate-IsInSession tick s h =
    let given = handle_input-IsInSession tick s h in
    let engaged : Main = record (handle_input tick s) {
      clutch_was_engaged = tick.clutch_engaged;
    } in
    let home =
      follow_home-IsInSession tick engaged
        (record { allowed = given.allowed; no_key = given.no_key }) in
    finish_iteration-IsInSession tick (mirror_clutch tick (follow_home tick engaged))
      (record { allowed = home.allowed; no_key = home.no_key })

-- From a state without a key of the window, and with calls for which this holds: in any run of the
-- loop, whatever signals come, an episode is started only if none is recorded, ended or dropped
-- only if one is, and actions are recorded only between the two; the loop knows whether an episode
-- is recorded, and no key is left.
pub run-IsInSession : (ticks : List Tick) (s : Main) → IsInSession s → IsInSession (run ticks s)
unfolding run
run-IsInSession [] s h = h
run-IsInSession (tick ∷ ticks) s h =
    if_cases IsInSession s.stop (λ e. h)
      (λ e. run-IsInSession ticks (iterate tick s) (iterate-IsInSession tick s h))
