-- ===== src/Demo/Banner.antt =====
-- The banner that asks to release the grip and press it again.
use polymetis_franka_teleop.Prelude.{
  ◌≡◌, refl, ◌∙◌, false, Option, none, some, List, [], ◌∷◌, arith,
}
use polymetis_franka_teleop.Prelude.Tests.{if_cases}
use polymetis_franka_teleop.Demo.{
  Key, key_q, key_c, key_s, key_h, key_delete, key_y, key_n, RecordRequest, start_request,
  stop_request, Signal, sig_quit, sig_record_start, sig_record_stop, sig_home, sig_drop, Main, Tick,
  on_signal, on_signals, call, go_home, on_key, on_record_request, on_home_request, on_drop_request,
  check_drop_timeout, follow_home, mirror_clutch, finish_iteration, handle_input, iterate, run,
}

on_signals-waiting :
    (signals : List Signal) (s : Main)
    → (on_signals signals s).waiting_for_clutch ≡ s.waiting_for_clutch
unfolding on_signals on_signal
on_signals-waiting [] s = refl
on_signals-waiting (sig_quit ∷ signals) s = on_signals-waiting signals _
on_signals-waiting (sig_record_start ∷ signals) s = on_signals-waiting signals _
on_signals-waiting (sig_record_stop ∷ signals) s = on_signals-waiting signals _
on_signals-waiting (sig_home ∷ signals) s = on_signals-waiting signals _
on_signals-waiting (sig_drop ∷ signals) s = on_signals-waiting signals _

on_key-waiting :
    (tick : Tick) (key : Option Key) (s : Main)
    → (on_key tick key s).waiting_for_clutch ≡ s.waiting_for_clutch
unfolding on_key go_home call
on_key-waiting tick none s = refl
on_key-waiting tick (some key_q) s = refl
on_key-waiting tick (some key_c) s = refl
on_key-waiting tick (some key_s) s = refl
on_key-waiting tick (some key_h) s = ground arith
on_key-waiting tick (some key_delete) s = ground arith
on_key-waiting tick (some key_y) s = ground arith
on_key-waiting tick (some key_n) s = refl

on_record_request-waiting :
    (tick : Tick) (request : Option RecordRequest) (s : Main)
    → (on_record_request tick request s).waiting_for_clutch ≡ s.waiting_for_clutch
unfolding on_record_request call
on_record_request-waiting tick none s = refl
on_record_request-waiting tick (some start_request) s = ground arith
on_record_request-waiting tick (some stop_request) s = ground arith

late_requests-waiting :
    (tick : Tick) (s : Main)
    → (check_drop_timeout tick (on_drop_request (on_home_request s))).waiting_for_clutch
      ≡ s.waiting_for_clutch
unfolding check_drop_timeout on_drop_request on_home_request go_home call
late_requests-waiting tick s = ground arith

handle_input-waiting :
    (tick : Tick) (s : Main) → (handle_input tick s).waiting_for_clutch ≡ s.waiting_for_clutch
unfolding handle_input
handle_input-waiting tick s =
    let told = on_signals tick.signals s in
    let typed : Main = record (on_key tick told.last_key told) { last_key = none } in
    late_requests-waiting tick (on_record_request tick typed.sig_record_request typed)
    ∙ on_record_request-waiting tick typed.sig_record_request typed
    ∙ on_key-waiting tick told.last_key told
    ∙ on_signals-waiting tick.signals s

-- The command is reset before the banner looks at it, and the clutch is compared with itself.
mirror_clutch-waiting :
    (tick : Tick) (s : Main)
    → s.waiting_for_clutch ≡ false
    → (mirror_clutch tick (
        follow_home tick
          (record s { clutch_was_engaged = tick.clutch_engaged }))).waiting_for_clutch
      ≡ false
unfolding mirror_clutch follow_home go_home call
mirror_clutch-waiting tick s h = ground arith

iterate-waiting :
    (tick : Tick) (s : Main)
    → s.waiting_for_clutch ≡ false
    → (iterate tick s).waiting_for_clutch ≡ false
unfolding iterate finish_iteration call
iterate-waiting tick s h =
    let known =
      mirror_clutch-waiting tick (handle_input tick s) (handle_input-waiting tick s ∙ h) in
    ground arith

-- From a state in which the flag is false for the banner that asks to release the grip and press it
-- again, it is false after any run of the loop.
pub run_never_waits :
    (ticks : List Tick) (s : Main)
    → s.waiting_for_clutch ≡ false
    → (run ticks s).waiting_for_clutch ≡ false
unfolding run
run_never_waits [] s h = h
run_never_waits (tick ∷ ticks) s h =
    if_cases (λ (m : Main). m.waiting_for_clutch ≡ false) s.stop (λ e. h)
      (λ e. run_never_waits ticks (iterate tick s) (iterate-waiting tick s h))
