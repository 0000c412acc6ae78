-- ===== src/Policy/Alternate.antt =====
-- The commands that the gripper gets alternate.
use polymetis_franka_teleop.Prelude.{
  ℕ, zero, suc, ◌≡◌, ◌≢◌, refl, sym, Bool, true, false, not, Option, none, some, List, [], ◌∷◌,
  ◌++◌, arith,
}
use polymetis_franka_teleop.Prelude.Tests.{if◌then◌else◌, if_cases}
use polymetis_franka_teleop.Prelude.Int.{ℤ, pos, ◌-ℤ◌}
use polymetis_franka_teleop.Prelude.Lists.{get_last?, get_last?-append}
use polymetis_franka_teleop.Prelude.Result.{Error, Result, ok, err}
use polymetis_franka_teleop.Policy.{
  latency_of, Action, Config, Sender, Call, is_open, last_intent, differs, find_transition,
  last_is_open, unless_raised, send_waypoints, send_gripper, record_actions, send_from, send_new,
  new_actions, exec_actions, exec_calls,
}

-- Neighbours in the list are commands of different widths.
abbrev pub Alternates : List (ℕ × ℤ) → Type 0
Alternates [] = Unit
Alternates ((w, t) ∷ []) = Unit
Alternates ((w, t) ∷ (v, u) ∷ commands) = (w ≢ v) × Alternates ((v, u) ∷ commands)

Alternates-snoc :
    (commands : List (ℕ × ℤ)) (w : ℕ) (t : ℤ)
    → Alternates commands
    → ((v : ℕ) (u : ℤ) → get_last? commands ≡ some (v, u) → v ≢ w)
    → Alternates (commands ++ (w, t) ∷ [])
Alternates-snoc [] w t h k = tt
Alternates-snoc ((v, u) ∷ []) w t h k = (k v u refl, tt)
Alternates-snoc ((v, u) ∷ (x, y) ∷ commands) w t h k =
    (h.0, Alternates-snoc ((x, y) ∷ commands) w t h.1 k)

-- The width of a command.
abbrev width_of : Config → Bool → ℕ
width_of cfg open_intent = if open_intent then cfg.gripper_open_width else cfg.gripper_close_width

-- The intent is that of the last command.
abbrev pub Follows : Config → Option (ℕ × ℤ) → Option Bool → Type 0
Follows cfg none last = Unit
Follows cfg (some (w, t)) last =
    (b : Bool) × (last ≡ some b)
    × (w ≡ (if b then cfg.gripper_open_width else cfg.gripper_close_width))

-- A command after the last one, for the other intent.
Follows-differs :
    (cfg : Config) (command : Option (ℕ × ℤ)) (last : Bool) (v : ℕ) (u : ℤ)
    → cfg.gripper_close_width ≢ cfg.gripper_open_width
    → Follows cfg command (some last)
    → command ≡ some (v, u)
    → v ≢ width_of cfg (not last)
Follows-differs cfg none last v u apart h e = cc
Follows-differs cfg (some (w, t)) true v u apart (true, f, g) e = λ q. apart (cc)
Follows-differs cfg (some (w, t)) true v u apart (false, f, g) e = cc
Follows-differs cfg (some (w, t)) false v u apart (false, f, g) e = λ q. apart (cc)
Follows-differs cfg (some (w, t)) false v u apart (true, f, g) e = cc

-- A state that is read is that of the last command, or there is no command.
Follows-last_intent :
    (cfg : Config) (command : Option (ℕ × ℤ)) (last : Option Bool) (width : Result ℕ) (b : Bool)
    → last_intent cfg last width ≡ ok b
    → Follows cfg command last
    → Follows cfg command (some b)
unfolding last_intent
Follows-last_intent cfg none last width b e h = tt
Follows-last_intent cfg (some (w, t)) (some l) width b e (c, f, g) = (c, cc, g)
Follows-last_intent cfg (some (w, t)) none width b e (c, f, g) = cc

module _ {P : Type 0} where
  pub record IsAlternating (cfg : Config) (s : Sender P) : Type 0 where
    pub alternating : Alternates s.gripper_waypoints
    pub following : Follows cfg (get_last? s.gripper_waypoints) s.last_gripper_is_open

  -- With no transition the intent stays.
  last_is_open-find :
      (cfg : Config) (prev : Bool) (actions : List (Action P × ℕ))
      → find_transition cfg prev actions ≡ none
      → last_is_open cfg prev actions ≡ prev
  unfolding find_transition last_is_open differs
  last_is_open-find cfg prev [] h = refl
  last_is_open-find cfg prev ((action, time) ∷ actions) h =
      let rest = last_is_open-find cfg (is_open cfg action.gripper_width) actions in ground arith

  find_transition-differs :
      (cfg : Config) (prev : Bool) (actions : List (Action P × ℕ)) (target : Bool) (time : ℕ)
      → find_transition cfg prev actions ≡ some (target, time)
      → target ≡ not prev
  unfolding find_transition differs
  find_transition-differs cfg prev [] target time h = cc
  find_transition-differs cfg prev ((action, at) ∷ actions) target time h =
      let rest =
        find_transition-differs cfg (is_open cfg action.gripper_width) actions target time in
      ground arith

  -- What is the same for the gripper.
  record IsSame (s d : Sender P) : Type 0 where
    sent : d.gripper_waypoints ≡ s.gripper_waypoints
    kept : d.last_gripper_is_open ≡ s.last_gripper_is_open

  IsSame-IsAlternating :
      (cfg : Config) (s d : Sender P) → IsSame s d → IsAlternating cfg s → IsAlternating cfg d
  IsSame-IsAlternating cfg s d same h = record {
    alternating = rw same.sent h.alternating;
    following = rw (same.sent, same.kept) h.following;
  }

  send_waypoints-IsSame :
      (latency : ℕ) (raises : Option (ℕ × Error)) (rows : List (Action P × ℕ)) (s : Sender P)
      → IsSame s (send_waypoints latency raises rows s).0
  unfolding send_waypoints
  send_waypoints-IsSame latency raises [] s = record { sent = refl; kept = refl }
  send_waypoints-IsSame latency (some (zero, e)) (row ∷ rows) s = record {
    sent = refl;
    kept = refl;
  }
  send_waypoints-IsSame latency (some (suc k, e)) (row ∷ rows) s =
      let rest = send_waypoints-IsSame latency (some (k, e)) rows _ in
      record { sent = rest.sent; kept = rest.kept }
  send_waypoints-IsSame latency none (row ∷ rows) s =
      let rest = send_waypoints-IsSame latency none rows _ in
      record { sent = rest.sent; kept = rest.kept }

  record_actions-IsSame :
      (is_recording : Bool) (raises : Option Error) (news : List (Action P × ℕ)) (s : Sender P)
      → IsSame s (record_actions is_recording raises news s).0
  unfolding record_actions
  record_actions-IsSame true raises news s = record { sent = refl; kept = refl }
  record_actions-IsSame false raises news s = record { sent = refl; kept = refl }

  -- What the parts keep, their chain keeps, whichever raises.
  unless_raised-keeps :
      (Kept : Sender P → Type 0) (done : Sender P × Option Error)
      (next : Sender P → Sender P × Option Error)
      → Kept done.0
      → (Kept done.0 → Kept (next done.0).0)
      → Kept (unless_raised done next).0
  unfolding unless_raised
  unless_raised-keeps Kept (s, some e) next h f = h
  unless_raised-keeps Kept (s, none) next h f = f h

  send_gripper-IsAlternating :
      (cfg : Config) (compensate_latency : Bool) (raises : Option Error) (found : Option (Bool × ℕ))
      (last intent : Bool) (s : Sender P)
      → cfg.gripper_close_width ≢ cfg.gripper_open_width
      → s.last_gripper_is_open ≡ some last
      → ((target : Bool) (time : ℕ) → found ≡ some (target, time) → target ≡ not last)
      → (found ≡ none → intent ≡ last)
      → IsAlternating cfg s
      → IsAlternating cfg (send_gripper cfg compensate_latency raises found intent s).0
  unfolding send_gripper
  send_gripper-IsAlternating cfg compensate_latency raises none last intent s apart tracked differ
        same h =
      record { alternating = h.alternating; following = rw (same refl, sym tracked) h.following }
  send_gripper-IsAlternating cfg compensate_latency (some e) (some (target, time)) last intent s
        apart tracked differ same h =
      h
  send_gripper-IsAlternating cfg compensate_latency none (some (target, time)) last intent s apart
        tracked differ same h =
      let other = differ target time refl in
      let width : ℕ = width_of cfg target in
      let at = pos time -ℤ pos (latency_of compensate_latency cfg.gripper_action_latency) in
      let command = get_last? s.gripper_waypoints in
      let follows : Follows cfg command (some last) = rw (sym tracked) h.following in
      record {
        alternating =
            Alternates-snoc s.gripper_waypoints width at h.alternating
              (λ v u e. rw other (Follows-differs cfg command last v u apart follows e));
        following = rw (get_last?-append s.gripper_waypoints (width, at)) (target, refl, refl);
      }

  send_from-IsAlternating :
      (cfg : Config) (call : Call P) (news : List (Action P × ℕ)) (read : Result Bool)
      (s : Sender P)
      → cfg.gripper_close_width ≢ cfg.gripper_open_width
      → last_intent cfg s.last_gripper_is_open call.width ≡ read
      → IsAlternating cfg s
      → IsAlternating cfg (send_from cfg call news read s).0
  unfolding send_from
  send_from-IsAlternating cfg call news (err e) s apart known h = h
  send_from-IsAlternating cfg call news (ok last) s apart known h =
      let tracked : Sender P = record s { last_gripper_is_open = some last } in
      let r_latency = latency_of call.compensate_latency cfg.robot_action_latency in
      let moved = send_waypoints r_latency call.robot_raises news tracked in
      let same = send_waypoints-IsSame r_latency call.robot_raises news tracked in
      let start : IsAlternating cfg tracked = record {
        alternating = h.alternating;
        following =
            Follows-last_intent cfg (get_last? s.gripper_waypoints) s.last_gripper_is_open
              call.width last known h.following;
      } in
      let next =
        send_gripper cfg call.compensate_latency call.gripper_raises (find_transition cfg last news)
          (last_is_open cfg last news) in
      let sent =
        unless_raised-keeps (IsAlternating cfg) moved next
          (IsSame-IsAlternating cfg tracked moved.0 same start)
          (send_gripper-IsAlternating cfg call.compensate_latency call.gripper_raises
            (find_transition cfg last news) last (last_is_open cfg last news) moved.0 apart
            same.kept (λ target time e. find_transition-differs cfg last news target time e)
            (λ e. last_is_open-find cfg last news e)) in
      let done = unless_raised moved next in
      unless_raised-keeps (IsAlternating cfg) done
        (record_actions call.is_recording call.record_raises news) sent
        (IsSame-IsAlternating cfg done.0 _
          (record_actions-IsSame call.is_recording call.record_raises news done.0))

  send_new-IsAlternating :
      (cfg : Config) (call : Call P) (news : List (Action P × ℕ)) (s : Sender P)
      → cfg.gripper_close_width ≢ cfg.gripper_open_width
      → IsAlternating cfg s
      → IsAlternating cfg (send_new cfg call news s).0
  unfolding send_new
  send_new-IsAlternating cfg call [] s apart h = h
  send_new-IsAlternating cfg call (action ∷ news) s apart h =
      send_from-IsAlternating cfg call (action ∷ news) _ s apart refl h

  exec_actions-IsAlternating :
      (cfg : Config) (call : Call P) (s : Sender P)
      → cfg.gripper_close_width ≢ cfg.gripper_open_width
      → IsAlternating cfg s
      → IsAlternating cfg (exec_actions cfg call s).0
  unfolding exec_actions
  exec_actions-IsAlternating cfg call s apart h =
      if_cases (λ (r : Sender P × Option Error). IsAlternating cfg r.0) (not call.is_ready) (λ e. h)
        (λ e.
          send_new-IsAlternating cfg call (new_actions call.receive_time call.actions) s apart h)

  -- Where the open and the close width differ: whatever calls of `exec_actions` are made, and whatever
  -- the calls raise that these make of the gripper, the arm and the accumulator, the gripper's queue
  -- gets the open and the close width in turns, and the state that the next call compares with is
  -- that of the last command, if there was one.
  pub exec_calls-IsAlternating :
      (cfg : Config) (calls : List (Call P)) (s : Sender P)
      → cfg.gripper_close_width ≢ cfg.gripper_open_width
      → IsAlternating cfg s
      → IsAlternating cfg (exec_calls cfg calls s)
  unfolding exec_calls
  exec_calls-IsAlternating cfg [] s apart h = h
  exec_calls-IsAlternating cfg (call ∷ calls) s apart h =
      exec_calls-IsAlternating cfg calls (exec_actions cfg call s).0 apart
        (exec_actions-IsAlternating cfg call s apart h)
