-- ===== src/Demo/Told.antt =====
-- A HOME that the main loop sees is among its calls.
use polymetis_franka_teleop.Prelude.{
  ◌-◌, ◌≡◌, Bool, true, false, ◌&&◌, ◌||◌, Option, none, some, List, [], ◌∷◌, ◌++◌, arith,
}
use polymetis_franka_teleop.Prelude.Tests.{ltb, if_cases}
use polymetis_franka_teleop.Demo.{
  Key, key_q, key_c, key_s, key_h, key_delete, key_y, key_n, RecordRequest, start_request,
  stop_request, Signal, sig_quit, sig_record_start, sig_record_stop, sig_home, sig_drop, Call,
  start_episode, end_episode, drop_episode, move_home, record_action, Main, Tick, on_signal,
  on_signals, call, go_home, on_key, on_record_request, on_home_request, on_drop_request,
  check_drop_timeout, follow_home, mirror_clutch, finish_iteration, handle_input, iterate,
}

unfoldable pub is_home : Call → Bool
is_home (start_episode time) = false
is_home end_episode = false
is_home drop_episode = false
is_home move_home = true
is_home (record_action time) = false

unfoldable pub has_home : List Call → Bool
unfolding is_home
has_home [] = false
has_home (c ∷ calls) = is_home c || has_home calls

has_home-snoc :
    (calls : List Call) (c : Call) → has_home (calls ++ c ∷ []) ≡ (has_home calls || is_home c)
unfolding has_home
has_home-snoc [] c = ground arith
has_home-snoc (d ∷ calls) c = ground (arith, has_home-snoc calls c)

-- A command that was sent is among the calls.
record IsTold (s : Main) : Type 0 where
  told : s.home_command_sent ≡ true → has_home s.calls ≡ true

call-IsTold : (c : Call) (s : Main) → IsTold s → IsTold (call c s)
unfolding call
call-IsTold c s h = record {
  told = λ e. let all = h.told e in ground (arith, has_home-snoc s.calls c);
}

go_home-IsTold : (s : Main) → IsTold s → IsTold (go_home s)
unfolding go_home call is_home
go_home-IsTold s h =
    if_cases IsTold s.home_command_sent (λ e. h)
      (λ e. record { told = λ sent. ground (arith, has_home-snoc s.calls move_home) })

on_signals-IsTold : (signals : List Signal) (s : Main) → IsTold s → IsTold (on_signals signals s)
unfolding on_signals on_signal
on_signals-IsTold [] s h = h
on_signals-IsTold (sig_quit ∷ signals) s h = on_signals-IsTold signals _ (record { told = h.told })
on_signals-IsTold (sig_record_start ∷ signals) s h =
    on_signals-IsTold signals _ (record { told = h.told })
on_signals-IsTold (sig_record_stop ∷ signals) s h =
    on_signals-IsTold signals _ (record { told = h.told })
on_signals-IsTold (sig_home ∷ signals) s h = on_signals-IsTold signals _ (record { told = h.told })
on_signals-IsTold (sig_drop ∷ signals) s h = on_signals-IsTold signals _ (record { told = h.told })

on_key-IsTold : (tick : Tick) (key : Option Key) (s : Main) → IsTold s → IsTold (on_key tick key s)
unfolding on_key
on_key-IsTold tick none s h = h
on_key-IsTold tick (some key_q) s h = record { told = h.told }
on_key-IsTold tick (some key_c) s h = call-IsTold _ _ (record { told = h.told })
on_key-IsTold tick (some key_s) s h = call-IsTold _ _ (record { told = h.told })
on_key-IsTold tick (some key_h) s h = go_home-IsTold s h
on_key-IsTold tick (some key_delete) s h =
    if_cases IsTold s.is_recording
      {x = record s { pending_drop = true; pending_drop_time = tick.monotonic }}
      (λ e. record { told = h.told }) (λ e. h)
on_key-IsTold tick (some key_y) s h =
    if_cases IsTold s.pending_drop
      (λ e.
        call-IsTold drop_episode (record s { is_recording = false; pending_drop = false })
          (record { told = h.told }))
      (λ e. h)
on_key-IsTold tick (some key_n) s h = record { told = h.told }

on_record_request-IsTold :
    (tick : Tick) (request : Option RecordRequest) (s : Main)
    → IsTold s
    → IsTold (on_record_request tick request s)
unfolding on_record_request
on_record_request-IsTold tick none s h = h
on_record_request-IsTold tick (some start_request) s h =
    let taken : Main = record s { sig_record_request = none } in
    if_cases IsTold s.is_recording {x = taken} (λ e. record { told = h.told })
      (λ e.
        call-IsTold (start_episode tick.episode_start) (record taken { is_recording = true })
          (record { told = h.told }))
on_record_request-IsTold tick (some stop_request) s h =
    let taken : Main = record s { sig_record_request = none } in
    if_cases IsTold s.is_recording {y = taken}
      (λ e.
        call-IsTold end_episode (record taken { is_recording = false }) (record { told = h.told }))
      (λ e. record { told = h.told })

on_home_request-IsTold : (s : Main) → IsTold s → IsTold (on_home_request s)
unfolding on_home_request
on_home_request-IsTold s h =
    if_cases IsTold s.sig_home_request
      (λ e. go_home-IsTold (record s { sig_home_request = false }) (record { told = h.told }))
      (λ e. h)

on_drop_request-IsTold : (s : Main) → IsTold s → IsTold (on_drop_request s)
unfolding on_drop_request
on_drop_request-IsTold s h =
    let taken : Main = record s { sig_drop_request = false } in
    let dropped : Main = record taken { is_recording = false; pending_drop = false } in
    if_cases IsTold s.sig_drop_request
      (λ e.
        if_cases IsTold s.is_recording {y = taken}
          (λ r. call-IsTold drop_episode dropped (record { told = h.told }))
          (λ r. record { told = h.told }))
      (λ e. h)

handle_input-IsTold : (tick : Tick) (s : Main) → IsTold s → IsTold (handle_input tick s)
unfolding handle_input check_drop_timeout
handle_input-IsTold tick s h =
    let told = on_signals tick.signals s in
    let typed : Main = record (on_key tick told.last_key told) { last_key = none } in
    let keyed = on_key-IsTold tick told.last_key told (on_signals-IsTold tick.signals s h) in
    let asked =
      on_record_request-IsTold tick typed.sig_record_request typed (record { told = keyed.told }) in
    let late = on_drop_request-IsTold _ (on_home_request-IsTold _ asked) in
    let found =
      on_drop_request (on_home_request (on_record_request tick typed.sig_record_request typed)) in
    if_cases IsTold (found.pending_drop && ltb 5000 (tick.monotonic - found.pending_drop_time))
      {x = record found { pending_drop = false }} (λ e. record { told = late.told }) (λ e. late)

go_home-sent : (s : Main) → (go_home s).home_command_sent ≡ true
unfolding go_home call
go_home-sent s = ground arith

follow_home-has_home :
    (tick : Tick) (s : Main)
    → IsTold s
    → tick.home_requested ≡ true
    → tick.home_active ≡ true
    → has_home (follow_home tick s).calls ≡ true
unfolding follow_home
follow_home-has_home tick s h requested active =
    let sent = (go_home-IsTold s h).told (go_home-sent s) in rw (requested, active) sent

finish_iteration-has_home :
    (tick : Tick) (s : Main)
    → has_home s.calls ≡ true
    → has_home (finish_iteration tick s).calls ≡ true
unfolding finish_iteration call
finish_iteration-has_home tick s h =
    ground (arith, h, has_home-snoc s.calls (record_action tick.action_timestamp))

-- An iteration that reads that HOME is requested and active moves the arm home.
pub has_home-iterate :
    (tick : Tick) (s : Main)
    → s.home_command_sent ≡ false
    → tick.home_requested ≡ true
    → tick.home_active ≡ true
    → has_home (iterate tick s).calls ≡ true
unfolding iterate mirror_clutch
has_home-iterate tick s unsent requested active =
    let told = handle_input-IsTold tick s (record { told = λ e. cc }) in
    let given : Main = record (handle_input tick s) { clutch_was_engaged = tick.clutch_engaged } in
    let asked = follow_home-has_home tick given (record { told = told.told }) requested active in
    finish_iteration-has_home tick (mirror_clutch tick (follow_home tick given)) asked
