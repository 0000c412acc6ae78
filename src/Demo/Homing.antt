-- ===== src/Demo/Homing.antt =====
-- HOME by the trackpad, seen by the main loop, which asks the Vive process for a HOME.
use polymetis_franka_teleop.Prelude.{ℕ, ◌-◌, ◌≤◌, ◌≡◌, refl, true, false, List, [], ◌∷◌, ◌++◌}
use polymetis_franka_teleop.Vive.{Numerics, Config, ViveState, Teleop, request_home_synthesis}
use polymetis_franka_teleop.Vive
use polymetis_franka_teleop.Vive.Home.{full_duration}
use polymetis_franka_teleop.Vive.Loop
use polymetis_franka_teleop.Vive.Again.{Asks, iterate-keeps_request, iterate-takes_request}
use polymetis_franka_teleop.ViveEnv.Home.{Request, synthesize_home, arm_move_home, goto}
use polymetis_franka_teleop.ViveEnv.Home
use polymetis_franka_teleop.Demo.Told.{is_home, has_home, has_home-iterate}
use polymetis_franka_teleop.Demo.{
  Call, start_episode, end_episode, drop_episode, move_home, record_action, Main, Tick, iterate,
}

-- What the calls of the environment ask for.
unfoldable pub requests : ℕ → List Call → List Request
requests width [] = []
requests width (move_home ∷ calls) = Home.move_home true true width ++ requests width calls
requests width (start_episode time ∷ calls) = requests width calls
requests width (end_episode ∷ calls) = requests width calls
requests width (drop_episode ∷ calls) = requests width calls
requests width (record_action time ∷ calls) = requests width calls

-- The array that a request of HOME sets.
unfoldable pub relay : {P V Q W : Type 0} → List Request → Teleop P V Q W → Teleop P V Q W
unfolding request_home_synthesis
relay [] c = c
relay (synthesize_home ∷ rest) c = relay rest (request_home_synthesis c)
relay (arm_move_home ∷ rest) c = relay rest c
relay (goto width ∷ rest) c = relay rest c

-- An iteration of the main loop, with what its calls ask the Vive process for.
unfoldable pub main_step :
    {P V Q W : Type 0} → ℕ → Tick → Main × Teleop P V Q W → Main × Teleop P V Q W
unfolding iterate relay requests
main_step width tick (s, c) =
    let next = iterate tick (record s { calls = [] }) in
    (record next { calls = s.calls ++ next.calls }, relay (requests width next.calls) c)

module _ {P V Q W : Type 0} where
  relay-waiting :
      (asked : List Request) (c : Teleop P V Q W)
      → c.external_home_request ≡ true
      → (relay asked c).external_home_request ≡ true
  unfolding relay request_home_synthesis
  relay-waiting [] c h = h
  relay-waiting (synthesize_home ∷ rest) c h = relay-waiting rest _ refl
  relay-waiting (arm_move_home ∷ rest) c h = relay-waiting rest c h
  relay-waiting (goto width ∷ rest) c h = relay-waiting rest c h

  relay-active :
      (asked : List Request) (c : Teleop P V Q W) → (relay asked c).home_active ≡ c.home_active
  unfolding relay request_home_synthesis
  relay-active [] c = refl
  relay-active (synthesize_home ∷ rest) c = relay-active rest _
  relay-active (arm_move_home ∷ rest) c = relay-active rest c
  relay-active (goto width ∷ rest) c = relay-active rest c

  relay-has_home :
      (width : ℕ) (calls : List Call) (c : Teleop P V Q W)
      → has_home calls ≡ true
      → (relay (requests width calls) c).external_home_request ≡ true
  unfolding requests Home.move_home relay has_home is_home request_home_synthesis
  relay-has_home width [] c h = cc
  relay-has_home width (start_episode time ∷ calls) c h = relay-has_home width calls c h
  relay-has_home width (end_episode ∷ calls) c h = relay-has_home width calls c h
  relay-has_home width (drop_episode ∷ calls) c h = relay-has_home width calls c h
  relay-has_home width (record_action time ∷ calls) c h = relay-has_home width calls c h
  relay-has_home width (move_home ∷ calls) c h = relay-waiting (requests width calls) _ refl

-- What the iterations of the Vive loop read.
abbrev pub Frames : Type 0 → Type 0 → Type 0 → Type 0
Frames P V Q = List (ViveState V Q × Vive.Tick P V Q)

module _ {P V Q W : Type 0} (np : Numerics P V Q W) (cfg : Config) where
  unfoldable pub frames_run : Frames P V Q → Teleop P V Q W → Teleop P V Q W
  frames_run [] c = c
  frames_run ((vive, tick) ∷ frames) c = frames_run frames (Loop.iterate np cfg vive tick c)

  -- HOME is active before each of the iterations, and over after the last.
  unfoldable pub IsLastHoming : Frames P V Q → Teleop P V Q W → Type 0
  IsLastHoming [] c = c.home_active ≡ false
  IsLastHoming ((vive, tick) ∷ frames) c =
      (c.home_active ≡ true) × IsLastHoming frames (Loop.iterate np cfg vive tick c)

  frames_run-Asks :
      (frames : Frames P V Q) (c : Teleop P V Q W)
      → c.external_home_request ≡ true
      → IsLastHoming frames c
      → Asks false true (frames_run frames c)
  unfolding frames_run IsLastHoming
  frames_run-Asks [] c asked over = record { homing = over; waiting = asked }
  frames_run-Asks ((vive, tick) ∷ frames) c asked (active, later) =
      frames_run-Asks frames (Loop.iterate np cfg vive tick c)
        (iterate-keeps_request np cfg vive tick c (record { homing = active; waiting = asked }))
        later

  -- When the main loop reads that HOME is requested and active, without having sent a command for
  -- it, it asks the Vive process for a HOME. After any iterations of the Vive loop before each of
  -- which HOME is active, and after the last of which it is over, the request is still there: the
  -- next iteration takes it and starts a second HOME, whatever the trackpad does, unless it takes
  -- longer than a HOME.
  pub main_step_homes_again :
      (width : ℕ) (see : Tick) (s : Main) (c : Teleop P V Q W) (frames : Frames P V Q)
      (vive : ViveState V Q) (tick : Vive.Tick P V Q)
      → s.home_command_sent ≡ false
      → see.home_requested ≡ true
      → see.home_active ≡ true
      → IsLastHoming frames (main_step width see (s, c)).1
      → tick.home_time - tick.press_time ≤ full_duration cfg
      → Asks true false
          (Loop.iterate np cfg vive tick (frames_run frames (main_step width see (s, c)).1))
  unfolding main_step
  main_step_homes_again width see s c frames vive tick unsent requested active homing soon =
      let called = has_home-iterate see (record s { calls = [] }) unsent requested active in
      let asked = relay-has_home width (iterate see (record s { calls = [] })).calls c called in
      iterate-takes_request np cfg vive tick _ (frames_run-Asks frames _ asked homing) soon
