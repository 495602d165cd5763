-- ===== src/Stub/Perform.antt =====
-- Every call of the stub's table (abi/src/engine_api_stub.cpp, engine_stub_legacy_services) returns,
-- keeps the invariant and moves the sessions as Stub.Session says.
use aether_kiri.Prelude.{
  ℕ, ◌≡◌, refl, Bool, true, false, not, ◌||◌, Option, none, some, List, [], ◌∷◌, Text, ltb, ◌==◌,
  if◌then◌else◌, is_empty, nat_key,
}
use aether_kiri.Engine.Calls.{Result, InputEvent}
use aether_kiri.Stub.State.{Stub, Api, Body, reject, locked}
use aether_kiri.Stub.Diagnostics.{
  Config, engine_legacy_set_diagnostic_config, engine_legacy_mark_diagnostic_event,
  engine_legacy_drain_diagnostic_events,
}
use aether_kiri.Stub.Life.{
  engine_legacy_open_game, engine_legacy_open_game_async, engine_legacy_get_startup_state,
  engine_legacy_drain_startup_logs, engine_legacy_tick, engine_legacy_pause, engine_legacy_resume,
  engine_legacy_set_option, engine_legacy_set_surface_size, open_game,
}
use aether_kiri.Stub.Frames.{
  engine_legacy_get_frame_desc, engine_legacy_read_frame_rgba, engine_legacy_get_host_native_window,
  engine_legacy_get_host_native_view, engine_legacy_send_input, engine_legacy_get_text_input_state,
  engine_legacy_copy_text_input_text, engine_legacy_set_render_target_iosurface,
  engine_legacy_set_render_target_surface, engine_legacy_get_frame_rendered_flag,
  engine_legacy_get_memory_stats, engine_legacy_get_plugin_debug_info,
}
use aether_kiri.Stub.Api.{HandleCall, on_handle}
use aether_kiri.Stub.Session.{Session, moved, opened_by, playing, frames}
use aether_kiri.Stub.Sound.{
  SoundStub, Serves, Steps, move_at, id_session, succeed-Steps, refuse-Steps,
}
use aether_kiri.Stub.Serve.{reject-Serves, locked-Serves, at_handle}
use aether_kiri.Stub.Bodies

module _ (h : ℕ) (s : Stub) (t : SoundStub s) where
  -- A function that rejects its arguments or looks at the handle without moving the session.
  guarded :
      (f : Session → Session) (b : Bool) (message : Text) (body : Api)
      → (b ≡ true → Serves (move_at h f) s (reject Result.invalid_argument [] message s))
      → (b ≡ false → Serves (move_at h f) s (body s))
      → Serves (move_at h f) s ((if b then reject Result.invalid_argument [] message else body) s)
  guarded f true message body yes_case no_case = yes_case refl
  guarded f false message body yes_case no_case = no_case refl

  rejected :
      (message : Text)
      → Serves (move_at h id_session) s (reject Result.invalid_argument [] message s)
  rejected message = at_handle h s _ (reject-Serves Result.invalid_argument [] message s t)

  quiet_call :
      (b : Bool) (message : Text) (out : List ℕ) (body : Body)
      → Steps id_session body
      → Serves
          (move_at h id_session)
          s
          ((if b then reject Result.invalid_argument [] message else locked h out body) s)
  quiet_call b message out body steps =
      guarded id_session b message (locked h out body) (λ e. rejected message)
        (λ e. locked-Serves h id_session out body s steps t)

  opened_unless :
      (b : Bool) (message : Text)
      → Serves
          (move_at h (λ x. if b then x else playing (frames x)))
          s
          ((if b then reject Result.invalid_argument [] message else locked h [] open_game) s)
  opened_unless true message = rejected message
  opened_unless false message =
      locked-Serves h (λ x. playing (frames x)) [] open_game s Bodies.open_game-Steps t

  open_game-Serves :
      (path : Option Text)
      → Serves (move_at h (opened_by path)) s (engine_legacy_open_game h path s)
  unfolding engine_legacy_open_game
  open_game-Serves none = rejected _
  open_game-Serves (some path) = opened_unless (is_empty path) _

  set_option-Serves :
      (key value : Option Text)
      → Serves (move_at h id_session) s (engine_legacy_set_option h key value s)
  unfolding engine_legacy_set_option
  set_option-Serves none value = rejected _
  set_option-Serves (some key) none =
      guarded id_session (is_empty key) _ (reject Result.invalid_argument [] _) (λ e. rejected _)
        (λ e. rejected _)
  set_option-Serves (some key) (some value) =
      quiet_call _ _ [] _ (Bodies.set_option-Steps key value)

  drain_startup_logs-Serves :
      (buffer : Bool) (size : ℕ) (written : Bool)
      → Serves (move_at h id_session) s (engine_legacy_drain_startup_logs h buffer size written s)
  unfolding engine_legacy_drain_startup_logs
  drain_startup_logs-Serves buffer size written =
      guarded id_session (not written) _ _ (λ e. rejected _)
        (λ e. quiet_call _ _ [] _ (Bodies.drain_startup_logs-Steps size))

  set_surface_size-Serves :
      (width height : ℕ)
      → Serves (move_at h id_session) s (engine_legacy_set_surface_size h width height s)
  unfolding engine_legacy_set_surface_size
  set_surface_size-Serves width height =
      guarded id_session (width == 0 || height == 0) _ _ (λ e. rejected _)
        (λ e. locked-Serves h id_session [] _ s (Bodies.set_surface_size-Steps width height e) t)

  mark_diagnostic_event-Serves :
      (label : Option Text) (given : Bool) (now : ℕ)
      → Serves (move_at h id_session) s (engine_legacy_mark_diagnostic_event h label given now s)
  unfolding engine_legacy_mark_diagnostic_event
  mark_diagnostic_event-Serves none given now = rejected _
  mark_diagnostic_event-Serves (some label) given now =
      quiet_call (not given) _ [] _ (Bodies.mark_diagnostic_event-Steps label now)

  set_diagnostic_config-Serves :
      (config : Option Config) (now now' : ℕ)
      → Serves (move_at h id_session) s (engine_legacy_set_diagnostic_config h config now now' s)
  unfolding engine_legacy_set_diagnostic_config
  set_diagnostic_config-Serves none now now' = rejected _
  set_diagnostic_config-Serves (some c) now now' =
      quiet_call _ _ [] _ (Bodies.set_diagnostic_config-Steps c now now')

  -- The functions that take a caller's structure by its size.
  sized :
      (f : Option ℕ → Api) (message small : Text) (least : ℕ) (body : Body)
      → f none ≡ reject Result.invalid_argument [] message
      → ((n : ℕ)
          → f (some n)
            ≡ (if ltb n least then reject Result.invalid_argument [] small else locked h [] body))
      → Steps id_session body
      → (size : Option ℕ) → Serves (move_at h id_session) s (f size s)
  sized f message small least body on_none on_some steps none = rw on_none (rejected message)
  sized f message small least body on_none on_some steps (some n) =
      rw (on_some n) (quiet_call _ _ [] body steps)

  send_input-Serves :
      (event : Option InputEvent)
      → Serves (move_at h id_session) s (engine_legacy_send_input h event s)
  unfolding engine_legacy_send_input
  send_input-Serves none = rejected _
  send_input-Serves (some event) = quiet_call _ _ [] _ (Bodies.send_input-Steps event)

  get_frame_desc-Serves :
      (size : Option ℕ) → Serves (move_at h id_session) s (engine_legacy_get_frame_desc h size s)
  unfolding engine_legacy_get_frame_desc
  get_frame_desc-Serves =
      sized (engine_legacy_get_frame_desc h) _ _ _ _ refl (λ n. refl) Bodies.get_frame_desc-Steps

  get_text_input_state-Serves :
      (size : Option ℕ)
      → Serves (move_at h id_session) s (engine_legacy_get_text_input_state h size s)
  unfolding engine_legacy_get_text_input_state
  get_text_input_state-Serves =
      sized (engine_legacy_get_text_input_state h) _ _ _ _ refl (λ n. refl)
        Bodies.get_text_input_state-Steps

  get_memory_stats-Serves :
      (size : Option ℕ) → Serves (move_at h id_session) s (engine_legacy_get_memory_stats h size s)
  unfolding engine_legacy_get_memory_stats
  get_memory_stats-Serves =
      sized (engine_legacy_get_memory_stats h) _ _ _ _ refl (λ n. refl) (succeed-Steps _)

  pub on_handle-Serves :
      (call : HandleCall) → Serves (move_at h (moved call)) s (on_handle h call s)
  unfolding on_handle
  on_handle-Serves (HandleCall.open_game path) = open_game-Serves path
  on_handle-Serves (HandleCall.open_game_async path) =
      unfold engine_legacy_open_game_async in open_game-Serves path
  on_handle-Serves (HandleCall.get_startup_state given) =
      unfold engine_legacy_get_startup_state in quiet_call _ _ [] _ Bodies.get_startup_state-Steps
  on_handle-Serves (HandleCall.tick delta_ms) =
      unfold engine_legacy_tick in locked-Serves h _ [] _ s Bodies.tick-Steps t
  on_handle-Serves HandleCall.pause =
      unfold engine_legacy_pause in locked-Serves h _ [] _ s Bodies.pause-Steps t
  on_handle-Serves HandleCall.resume =
      unfold engine_legacy_resume in locked-Serves h _ [] _ s Bodies.resume-Steps t
  on_handle-Serves (HandleCall.drain_startup_logs buffer size written) =
      drain_startup_logs-Serves buffer size written
  on_handle-Serves (HandleCall.set_option key value) = set_option-Serves key value
  on_handle-Serves (HandleCall.set_surface_size width height) = set_surface_size-Serves width height
  on_handle-Serves (HandleCall.get_frame_desc size) = get_frame_desc-Serves size
  on_handle-Serves (HandleCall.read_frame_rgba given size) =
      unfold engine_legacy_read_frame_rgba in
      quiet_call (not given) _ [] _ (Bodies.read_frame_rgba-Steps size)
  on_handle-Serves (HandleCall.get_host_native_window given) =
      unfold engine_legacy_get_host_native_window in
      quiet_call (not given) _ (0 ∷ []) _ Bodies.get_host_native_window-Steps
  on_handle-Serves (HandleCall.get_host_native_view given) =
      unfold engine_legacy_get_host_native_view in
      quiet_call (not given) _ (0 ∷ []) _ Bodies.get_host_native_view-Steps
  on_handle-Serves (HandleCall.send_input event) = send_input-Serves event
  on_handle-Serves (HandleCall.get_text_input_state size) = get_text_input_state-Serves size
  on_handle-Serves (HandleCall.copy_text_input_text buffer size written) =
      unfold engine_legacy_copy_text_input_text in
      quiet_call _ _ (0 ∷ 0 ∷ []) _ Bodies.copy_text_input_text-Steps
  on_handle-Serves HandleCall.set_render_target_iosurface =
      unfold engine_legacy_set_render_target_iosurface in
      locked-Serves h id_session [] _ s (refuse-Steps _ _ _) t
  on_handle-Serves HandleCall.set_render_target_surface =
      unfold engine_legacy_set_render_target_surface in
      locked-Serves h id_session [] _ s (refuse-Steps _ _ _) t
  on_handle-Serves (HandleCall.get_frame_rendered_flag given) =
      unfold engine_legacy_get_frame_rendered_flag in
      quiet_call (not given) _ (0 ∷ []) _ (succeed-Steps _)
  on_handle-Serves (HandleCall.get_memory_stats size) = get_memory_stats-Serves size
  on_handle-Serves (HandleCall.get_plugin_debug_info buffer size written) =
      unfold engine_legacy_get_plugin_debug_info in
      quiet_call _ _ [] _ (Bodies.get_plugin_debug_info-Steps size)
  on_handle-Serves (HandleCall.set_diagnostic_config config now now') =
      set_diagnostic_config-Serves config now now'
  on_handle-Serves (HandleCall.mark_diagnostic_event label given now) =
      mark_diagnostic_event-Serves label given now
  on_handle-Serves (HandleCall.drain_diagnostic_events buffer size written) =
      unfold engine_legacy_drain_diagnostic_events in
      quiet_call _ _ [] _ (Bodies.drain_diagnostic_events-Steps size)
