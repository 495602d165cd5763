-- ===== src/Stub/Bodies.antt =====
-- The bodies of the stub's functions (abi/src/engine_api_stub.cpp) return on a sound engine, keep it
-- sound and move its session as described.
use aether_kiri.Prelude.{
  ℕ, ◌≤◌, ◌≡◌, refl, Bool, true, false, not, ◌||◌, Option, List, [], ◌∷◌, ◌++◌, Text, arith, ◌==◌,
  if◌then◌else◌, length,
}
use aether_kiri.Engine.Calls.{Result, Reply, InputEvent}
use aether_kiri.Stub.State.{Engine, Guarded, succeed, refuse, in_game, not_destroyed}
use aether_kiri.Stub.Diagnostics.{
  Config, configure, push_diagnostic, pushed, set_diagnostic_config, mark_diagnostic_event,
  drain_events, drain_diagnostic_events, append_event,
}
use aether_kiri.Stub.Trim.{recorded, push_diagnostic-recorded, length-recorded}
use aether_kiri.Stub.Life.{
  open_game, get_startup_state, drain_startup_logs, tick, pause, resume, apply_option, set_option,
  set_surface_size,
}
use aether_kiri.Stub.Frames.{
  get_frame_desc, read_frame_rgba, get_host_native_window, get_host_native_view, send_input,
  get_text_input_state, copy_text_input_text, get_plugin_debug_info,
}
use aether_kiri.Stub.Session.{Session, session_of, ticked, paused_session, resumed, playing, frames}
use aether_kiri.Stub.Sound.{
  Sound, Returns, Steps, id_session, succeed-Returns, refuse-Returns, succeed-Steps, refuse-Steps,
  in_game-Steps,
}

pub open_game-Steps : Steps (λ x. playing (frames x)) open_game
unfolding open_game not_destroyed succeed refuse
open_game-Steps = record { returns = λ g h. ground arith }

pub get_startup_state-Steps : Steps id_session get_startup_state
unfolding get_startup_state succeed
get_startup_state-Steps = record { returns = λ g h. ground arith }

pub drain_startup_logs-Steps : (size : ℕ) → Steps id_session (drain_startup_logs size)
unfolding drain_startup_logs succeed
drain_startup_logs-Steps size = record { returns = λ g h. ground arith }

pub tick-Steps : Steps ticked tick
unfolding tick succeed refuse
tick-Steps = record { returns = λ g h. ground arith }

pub pause-Steps : Steps paused_session pause
unfolding pause succeed refuse
pause-Steps = record { returns = λ g h. ground arith }

pub resume-Steps : Steps resumed resume
unfolding resume succeed refuse
resume-Steps = record { returns = λ g h. ground arith }

pub set_option-Steps : (key value : Text) → Steps id_session (set_option key value)
unfolding set_option not_destroyed apply_option succeed refuse
set_option-Steps key value = record { returns = λ g h. ground arith }

pub set_surface_size-Steps :
    (width height : ℕ)
    → (width == 0 || height == 0) ≡ false
    → Steps id_session (set_surface_size width height)
unfolding set_surface_size not_destroyed succeed refuse
set_surface_size-Steps width height given = record { returns = λ g h. ground arith }

pub get_frame_desc-Steps : Steps id_session get_frame_desc
unfolding get_frame_desc not_destroyed succeed refuse
get_frame_desc-Steps = record { returns = λ g h. ground arith }

pub read_frame_rgba-Steps : (size : ℕ) → Steps id_session (read_frame_rgba size)
unfolding read_frame_rgba in_game succeed refuse
read_frame_rgba-Steps size = record { returns = λ g h. ground arith }

pub get_host_native_window-Steps : Steps id_session get_host_native_window
unfolding get_host_native_window
get_host_native_window-Steps = in_game-Steps _ _ _ (refuse-Steps _ _ _)

pub get_host_native_view-Steps : Steps id_session get_host_native_view
unfolding get_host_native_view
get_host_native_view-Steps = in_game-Steps _ _ _ (refuse-Steps _ _ _)

pub send_input-Steps : (event : InputEvent) → Steps id_session (send_input event)
unfolding send_input succeed refuse
send_input-Steps event = record { returns = λ g h. ground arith }

pub get_text_input_state-Steps : Steps id_session get_text_input_state
unfolding get_text_input_state
get_text_input_state-Steps = in_game-Steps _ _ _ (succeed-Steps _)

pub copy_text_input_text-Steps : Steps id_session copy_text_input_text
unfolding copy_text_input_text
copy_text_input_text-Steps = in_game-Steps _ _ _ (succeed-Steps _)

pub get_plugin_debug_info-Steps : (size : ℕ) → Steps id_session (get_plugin_debug_info size)
unfolding get_plugin_debug_info succeed
get_plugin_debug_info-Steps size = record { returns = λ g h. ground arith }

length-drain_events :
    (size : ℕ) (bytes : Text) (lines : List Text)
    → length (drain_events size bytes lines).rest ≤ length lines
unfolding drain_events
length-drain_events size bytes [] = omega arith
length-drain_events size bytes (line ∷ lines) =
    ground (arith, length-drain_events size (bytes ++ (line ++ b'\n' ∷ [])) lines)

pub drain_diagnostic_events-Steps : (size : ℕ) → Steps id_session (drain_diagnostic_events size)
unfolding drain_diagnostic_events succeed
drain_diagnostic_events-Steps size = record {
  returns = λ g h. ground (arith, length-drain_events size [] g.engine.diagnostic_events);
}

recorded-Sound :
    (event fields : Text) (now : ℕ) (e : Engine) → Sound e → Sound (recorded event fields now e)
unfolding recorded append_event
recorded-Sound event fields now e h = record {
  alive = h.alive;
  started = h.started;
  wide = h.wide;
  high = h.high;
  room = h.room;
  limit = h.limit;
  queue = length-recorded event fields now e (omega (arith, h.room));
  dropped = omega arith;
}

session-recorded :
    (event fields : Text) (now : ℕ) (e : Engine)
    → session_of (recorded event fields now e) ≡ session_of e
unfolding recorded append_event
session-recorded event fields now e = refl

-- A branch of a body, split on its test.
branch-Returns :
    (f : Session → Session) (e : Engine) (b : Bool) (x y : Option (Reply × Guarded))
    → (b ≡ true → Returns f e x)
    → (b ≡ false → Returns f e y)
    → Returns f e (if b then x else y)
branch-Returns f e true x y h k = h refl
branch-Returns f e false x y h k = k refl

-- Pushing an event and returning, on a sound engine that records.
pushed-Returns :
    (event fields : Text) (now : ℕ) (out : ℕ → List ℕ) (e e' : Engine) (g : Guarded)
    → Sound e'
    → e'.diagnostics_enabled ≡ true
    → session_of e' ≡ session_of e
    → Returns id_session e (pushed out (push_diagnostic event fields now e') g)
unfolding pushed succeed
pushed-Returns event fields now out e e' g h enabled moved =
    rw (push_diagnostic-recorded event fields now e' enabled (omega (arith, h.room)) h.dropped) (
      ground
        (arith, recorded-Sound event fields now e' h, session-recorded event fields now e', moved))

pub mark_diagnostic_event-Steps :
    (label : Text) (now : ℕ) → Steps id_session (mark_diagnostic_event label now)
unfolding mark_diagnostic_event
mark_diagnostic_event-Steps label now = record {
  returns = λ g h.
      branch-Returns id_session g.engine (not g.engine.diagnostics_enabled) _ _
        (λ e. refuse-Returns Result.invalid_state [] _ g h)
        (λ e.
          pushed-Returns _ _ now (λ sequence. sequence ∷ []) g.engine g.engine g h (ground arith)
            refl);
}

configure-Sound : (c : Config) (now : ℕ) (e : Engine) → Sound e → Sound (configure c now e)
unfolding configure
configure-Sound c now e h = ground arith

session-configure :
    (c : Config) (now : ℕ) (e : Engine) → session_of (configure c now e) ≡ session_of e
unfolding configure
session-configure c now e = refl

pub set_diagnostic_config-Steps :
    (c : Config) (now now' : ℕ) → Steps id_session (set_diagnostic_config c now now')
unfolding set_diagnostic_config
set_diagnostic_config-Steps c now now' = record {
  returns = λ g h.
      branch-Returns id_session g.engine (configure c now g.engine).diagnostics_enabled _ _
        (λ e.
          pushed-Returns _ _ now' (λ sequence. []) g.engine (configure c now g.engine) g
            (configure-Sound c now g.engine h) e (session-configure c now g.engine))
        (λ e.
          succeed-Returns id_session [] (record g { engine = configure c now g.engine }) g.engine
            (record {
              sound = configure-Sound c now g.engine h;
              session = session-configure c now g.engine;
            }));
}
