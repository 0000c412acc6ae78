-- ===== src/Demo/Tests.antt =====
-- Runs of the main loop.
use polymetis_franka_teleop.Prelude.{ℕ, ◌+◌, ◌≡◌, refl, true, false, List, [], ◌∷◌, arith}
use polymetis_franka_teleop.Vive.Home.{full_duration}
use polymetis_franka_teleop.Vive
use polymetis_franka_teleop.Vive.Loop
use polymetis_franka_teleop.Vive.Ends.{iterate_ends_home}
use polymetis_franka_teleop.Vive.Again.{Asks}
use polymetis_franka_teleop.Vive.Tests.{np, cfg, gripped, homing}
use polymetis_franka_teleop.Vive.Tests
use polymetis_franka_teleop.ViveEnv.Home
use polymetis_franka_teleop.Demo.{
  Signal, sig_record_start, sig_record_stop, sig_home, sig_drop, start_episode, drop_episode,
  move_home, record_action, Tick, new_main, on_signal, on_signals, call, go_home, on_key,
  on_record_request, on_home_request, on_drop_request, check_drop_timeout, follow_home,
  mirror_clutch, finish_iteration, handle_input, iterate, run,
}
use polymetis_franka_teleop.Demo.Session.{continue, IsInSession, run-IsInSession}
use polymetis_franka_teleop.Demo.Banner.{run_never_waits}
use polymetis_franka_teleop.Demo.Homing.{
  requests, relay, main_step, frames_run, IsLastHoming, main_step_homes_again,
}

abbrev quiet : ℕ → List Signal → Tick
quiet now signals = record {
  signals = signals;
  monotonic = now;
  episode_start = now + 200;
  action_timestamp = now + 200;
  clutch_engaged = true;
  home_requested = false;
  home_active = false;
  viewer_exited = false;
}

abbrev session : List Tick
session =
    quiet 0 (sig_record_start ∷ [])
    ∷ quiet 100 (sig_home ∷ [])
    ∷ quiet 200 (sig_drop ∷ [])
    ∷ quiet 300 (sig_record_stop ∷ [])
    ∷ []

calls_of_session :
    (run session new_main).calls
    ≡ start_episode 200 ∷ record_action 200 ∷ move_home ∷ record_action 300 ∷ drop_episode ∷ []
unfolding run iterate handle_input on_signals on_signal on_key on_record_request on_home_request
    on_drop_request check_drop_timeout go_home call follow_home mirror_clutch finish_iteration
calls_of_session = refl

new_main-IsInSession : IsInSession new_main
unfolding continue
new_main-IsInSession = record { allowed = refl; no_key = refl }

run-IsInSession_example : IsInSession (run session new_main)
run-IsInSession_example = run-IsInSession session new_main new_main-IsInSession

run_never_waits_example : (run session new_main).waiting_for_clutch ≡ false
run_never_waits_example = run_never_waits session new_main refl

-- HOME is active.
abbrev see_home : Tick
see_home = record (quiet 0 []) { home_requested = true; home_active = true }

asked_homing : (main_step 80 see_home (new_main, homing)).1 ≡ Vive.request_home_synthesis homing
unfolding main_step requests relay run iterate handle_input on_signals on_signal on_key
    on_record_request on_home_request on_drop_request check_drop_timeout go_home call follow_home
    mirror_clutch finish_iteration Home.move_home
asked_homing = refl

asked_homing-IsLastHoming :
    IsLastHoming np cfg
      ((gripped 3, Tests.tick 3 4000) ∷ [])
      (main_step 80 see_home (new_main, homing)).1
unfolding IsLastHoming full_duration Vive.request_home_synthesis
asked_homing-IsLastHoming = rw asked_homing (
  refl,
  (iterate_ends_home np cfg (gripped 3) (Tests.tick 3 4000) (Vive.request_home_synthesis homing)
      refl refl (omega arith)).inactive,
)

main_step_homes_again_example : Asks true false (
    Loop.iterate np cfg (gripped 3) (Tests.tick 3 4010) (
      frames_run np cfg
        ((gripped 3, Tests.tick 3 4000) ∷ [])
        (main_step 80 see_home (new_main, homing)).1))
unfolding full_duration
main_step_homes_again_example =
    main_step_homes_again np cfg 80 see_home new_main homing ((gripped 3, Tests.tick 3 4000) ∷ [])
      (gripped 3) (Tests.tick 3 4010) refl refl refl asked_homing-IsLastHoming (omega arith)
